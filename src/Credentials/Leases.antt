-- ===== src/Credentials/Leases.antt =====
-- What a lease can and cannot do to the cache.
use csqtt_antinet_module.Credentials.{
  workers_per_credential, TurnCredentials, CachedCredentials, CredentialLease, CredentialCache,
  QuotaRotation, AllocationMismatch, is_current, reserve_cached, reserve, store, record_allocation,
  release, invalidate, rotate_after_quota, retry_after_mismatch,
}
use csqtt_antinet_module.Prelude.{ℕ, ◌≤◌, ◌<◌, ◌≡◌, false, Option, none, some, arith}

-- The cached credentials count at most 18 attempts and have the latest generation.
abbrev pub IsCached : ℕ → Option CachedCredentials → Type 0
IsCached next none = Unit
IsCached next (some cached) =
    (cached.allocation_attempts ≤ workers_per_credential) × (cached.generation ≡ next)

pub record IsValid (c : CredentialCache) : Type 0 where
  pub cached : IsCached c.next_generation c.current

pub data Event : Type 0 where
  reserved : Event
  stored : TurnCredentials → Event
  allocated released invalidated over_quota mismatched : CredentialLease → Event

abbrev pub handle : Event → CredentialCache → CredentialCache
handle reserved c = (reserve c).1
handle (stored credentials) c = (store credentials c).1
handle (allocated lease) c = record_allocation lease c
handle (released lease) c = release lease c
handle (invalidated lease) c = (invalidate lease c).1
handle (over_quota lease) c = (rotate_after_quota lease c).1
handle (mismatched lease) c = (retry_after_mismatch lease c).1

-- Whatever the workers do, the cached credentials count at most 18 attempts and have the latest
-- generation.
pub handle-IsValid : (event : Event) (c : CredentialCache) → IsValid c → IsValid (handle event c)
unfolding reserve reserve_cached store record_allocation release invalidate rotate_after_quota
    retry_after_mismatch
handle-IsValid reserved c v = record { cached = ground arith }
handle-IsValid (stored credentials) c v = record { cached = ground arith }
handle-IsValid (allocated lease) c v = record { cached = ground arith }
handle-IsValid (released lease) c v = record { cached = ground arith }
handle-IsValid (invalidated lease) c v = record { cached = ground arith }
handle-IsValid (over_quota lease) c v = record { cached = ground arith }
handle-IsValid (mismatched lease) c v = record { cached = ground arith }

-- A lease of other credentials than those that are cached, by its generation, changes nothing,
-- whatever its worker reports.
pub stale_lease :
    (lease : CredentialLease) (c : CredentialCache)
    → IsValid c
    → lease.generation < c.next_generation
    → (record_allocation lease c ≡ c)
      × (release lease c ≡ c)
      × (invalidate lease c ≡ (false, c))
      × (rotate_after_quota lease c ≡ (QuotaRotation.replaced, c))
      × (retry_after_mismatch lease c ≡ (AllocationMismatch.replaced, c))
unfolding record_allocation release invalidate rotate_after_quota retry_after_mismatch is_current
stale_lease lease c v old = (ground arith, ground arith, ground arith, ground arith, ground arith)

-- Credentials that the quota has refused are not stored again until others are.
rotate_after_quota-store :
    (lease : CredentialLease) (c : CredentialCache) {delay : ℕ} {d : CredentialCache}
    → rotate_after_quota lease c ≡ (QuotaRotation.rotated delay, d)
    → (d.current ≡ none) × (store lease.value d ≡ (false, d))
unfolding rotate_after_quota store is_current
rotate_after_quota-store lease c {delay} {d} e = (ground arith, ground arith)
