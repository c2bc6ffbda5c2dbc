-- ===== src/Credentials.antt =====
-- `CredentialCache` of worker.rs: the TURN credentials that the workers of a group share, each of
-- them by a lease. A delay is in milliseconds.
pub mod Leases
mod Tests
use csqtt_antinet_module.Prelude.{
  ℕ, ◌-◌, max, Bool, true, false, not, ◌&&◌, Option, none, some, List, [], ◌∷◌, leb, ◌==◌,
  if◌then◌else◌, Bytes, saturating_add, bytes_eq,
}

abbrev pub workers_per_credential : ℕ
workers_per_credential = 18

pub record TurnCredentials : Type 0 where
  pub username : Bytes
  pub password : Bytes
  pub server_addresses : List Bytes

unfoldable pub addresses_eq : List Bytes → List Bytes → Bool
addresses_eq [] [] = true
addresses_eq [] (b ∷ bs) = false
addresses_eq (a ∷ rest) [] = false
addresses_eq (a ∷ rest) (b ∷ bs) = bytes_eq a b && addresses_eq rest bs

pub same_turn_credentials : TurnCredentials → TurnCredentials → Bool
same_turn_credentials left right =
    bytes_eq left.username right.username
    && bytes_eq left.password right.password
    && addresses_eq left.server_addresses right.server_addresses

pub record CachedCredentials : Type 0 where
  pub value : TurnCredentials
  pub generation : ℕ
  pub allocation_attempts : ℕ
  pub allocation_mismatches : ℕ

pub record CredentialLease : Type 0 where
  pub value : TurnCredentials
  pub generation : ℕ

pub record CredentialCache : Type 0 where
  pub current : Option CachedCredentials
  pub quota_blocked : Option TurnCredentials
  pub next_generation : ℕ
  pub quota_retries : ℕ

pub data QuotaRotation : Type 0 where
  rotated : (delay : ℕ) → QuotaRotation
  replaced : QuotaRotation

pub data AllocationMismatch : Type 0 where
  retry_current rotated replaced : AllocationMismatch

pub new : CredentialCache
new = record { current = none; quota_blocked = none; next_generation = 0; quota_retries = 0 }

pub quota_rotation_delay : ℕ → ℕ
quota_rotation_delay attempt =
    if attempt == 0
    then 100
    else if attempt == 1
    then 300
    else if attempt == 2
    then 500
    else if attempt == 3
    then 800
    else 1500

-- The lease is one of the credentials that are cached now.
pub is_current : CachedCredentials → CredentialLease → Bool
is_current cached lease =
    (cached.generation == lease.generation) && same_turn_credentials cached.value lease.value

-- `reserve`, for credentials that are cached.
pub reserve_cached : CachedCredentials → CredentialCache → Option CredentialLease × CredentialCache
reserve_cached cached c =
    if leb workers_per_credential cached.allocation_attempts
    then (none, record c { current = none })
    else (
      some (record { value = cached.value; generation = cached.generation }),
      record c {
        current =
            some
              (record cached { allocation_attempts = saturating_add cached.allocation_attempts 1 });
      },
    )

pub reserve : CredentialCache → Option CredentialLease × CredentialCache
reserve c = elim c.current [ none ↦ (none, c) | some cached ↦ reserve_cached cached c ]

abbrev pub is_blocked : TurnCredentials → Option TurnCredentials → Bool
is_blocked credentials none = false
is_blocked credentials (some blocked) = same_turn_credentials blocked credentials

pub store : TurnCredentials → CredentialCache → Bool × CredentialCache
store credentials c =
    let generation = max (saturating_add c.next_generation 1) 1 in
    if is_blocked credentials c.quota_blocked then (false, c) else (
      true,
      record {
        current = some (record {
          value = credentials;
          generation = generation;
          allocation_attempts = 0;
          allocation_mismatches = 0;
        });
        quota_blocked = none;
        next_generation = generation;
        quota_retries = c.quota_retries;
      },
    )

pub record_allocation : CredentialLease → CredentialCache → CredentialCache
record_allocation lease c = elim c.current [
  | none ↦ c
  | some cached ↦
      if is_current cached lease
      then record c {
        current = some (record cached { allocation_mismatches = 0 });
        quota_retries = 0;
      }
      else c
]

pub release : CredentialLease → CredentialCache → CredentialCache
release lease c = elim c.current [
  | none ↦ c
  | some cached ↦
      if is_current cached lease
      then record c {
        current = some (record cached { allocation_attempts = cached.allocation_attempts - 1 });
      }
      else c
]

pub invalidate : CredentialLease → CredentialCache → Bool × CredentialCache
invalidate lease c = elim c.current [
  | none ↦ (false, c)
  | some cached ↦
      if is_current cached lease then (true, record c { current = none }) else (false, c)
]

pub rotate_after_quota : CredentialLease → CredentialCache → QuotaRotation × CredentialCache
rotate_after_quota lease c = elim c.current [
  | none ↦ (QuotaRotation.replaced, c)
  | some cached ↦ if not (is_current cached lease) then (QuotaRotation.replaced, c) else (
    QuotaRotation.rotated (quota_rotation_delay c.quota_retries),
    record c {
      current = none;
      quota_blocked = some cached.value;
      quota_retries = saturating_add c.quota_retries 1;
    },
  )
]

pub next_quota_delay : CredentialCache → ℕ × CredentialCache
next_quota_delay c = (
  quota_rotation_delay c.quota_retries,
  record c { quota_retries = saturating_add c.quota_retries 1 },
)

pub retry_after_mismatch : CredentialLease → CredentialCache → AllocationMismatch × CredentialCache
retry_after_mismatch lease c = elim c.current [
  | none ↦ (AllocationMismatch.replaced, c)
  | some cached ↦
      if not (is_current cached lease)
      then (AllocationMismatch.replaced, c)
      else if cached.allocation_mismatches == 0
      then (
        AllocationMismatch.retry_current,
        record c { current = some (record cached { allocation_mismatches = 1 }) },
      )
      else (AllocationMismatch.rotated, record c { current = none })
]
