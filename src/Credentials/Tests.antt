-- ===== src/Credentials/Tests.antt =====
-- The theorems on credentials, applied.
use csqtt_antinet_module.Credentials.{
  TurnCredentials, CredentialLease, CredentialCache, QuotaRotation, AllocationMismatch,
  record_allocation, release, invalidate, rotate_after_quota, retry_after_mismatch,
}
use csqtt_antinet_module.Credentials.Leases.{IsValid, Event, handle, handle-IsValid, stale_lease}
use csqtt_antinet_module.Prelude.{ℕ, ◌≡◌, refl, false, none, some, [], ◌∷◌, arith}

abbrev credentials : TurnCredentials
credentials = record { username = 1 ∷ []; password = 2 ∷ []; server_addresses = (3 ∷ []) ∷ [] }

abbrev cache : CredentialCache
cache = record {
  current = some (record {
    value = credentials;
    generation = 4;
    allocation_attempts = 17;
    allocation_mismatches = 0;
  });
  quota_blocked = none;
  next_generation = 4;
  quota_retries = 0;
}

cache-IsValid : IsValid cache
cache-IsValid = record { cached = (omega arith, refl) }

abbrev lease : ℕ → CredentialLease
lease generation = record { value = credentials; generation = generation }

handle-IsValid_example : IsValid (handle Event.reserved cache)
handle-IsValid_example = handle-IsValid Event.reserved cache cache-IsValid

stale_lease_example :
    (record_allocation (lease 3) cache ≡ cache)
    × (release (lease 3) cache ≡ cache)
    × (invalidate (lease 3) cache ≡ (false, cache))
    × (rotate_after_quota (lease 3) cache ≡ (QuotaRotation.replaced, cache))
    × (retry_after_mismatch (lease 3) cache ≡ (AllocationMismatch.replaced, cache))
stale_lease_example = stale_lease (lease 3) cache cache-IsValid (omega arith)
