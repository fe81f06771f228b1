-- ===== src/Security/Kdf/Policy.antt =====
-- The resource policy of Argon2id: what `Validate` lets through, and what reaches the derivation.
use cypherstorm.Base.{◌*◌, ◌≡◌, ◌≤◌, ◌<◌, ◌↔◌, ◌⊎◌, Option, none, Bytes, length, arith}
use cypherstorm.Fault.{Error, ok}
use cypherstorm.Security.Primitives.{Primitives}
use cypherstorm.Security.Kdf.{
  source_raw, source_password, Credential, Argon2Params, validate, derive_master_key,
}

-- Costs inside the policy, as the README and the comments of kdf.go state it.
pub record InPolicy (p : Argon2Params) : Type 0 where
  pub time_pos : 0 < p.time
  pub time-le : p.time ≤ 10
  pub memory_pos : 0 < p.memory_kib
  pub memory-le : p.memory_kib ≤ 262144
  pub threads_pos : 0 < p.parallelism
  pub threads-le : p.parallelism ≤ 16
  pub memory_per_thread : 8 * p.parallelism ≤ p.memory_kib
  pub key_is : p.key_length ≡ 32

pub validate-InPolicy : (p : Argon2Params) → validate p ≡ ok tt → InPolicy p
unfolding validate
validate-InPolicy p h = ground arith

pub InPolicy-validate : (p : Argon2Params) → InPolicy p → validate p ≡ ok tt
unfolding validate
InPolicy-validate p h = ground arith

-- `Validate` accepts exactly the parameters inside the policy.
pub validate_iff : (p : Argon2Params) → (validate p ≡ ok tt) ↔ InPolicy p
validate_iff p = (validate-InPolicy p, InPolicy-validate p)

-- A master key comes out only for parameters inside the policy, when it is derived from a password,
-- and for a key of exactly 32 bytes, when it is a raw key.
pub derive_master_key_policy :
    (prim : Primitives) (ctx : Option Error) (c : Credential) (p : Argon2Params) (salt key : Bytes)
    → derive_master_key prim ctx c p salt ≡ ok key
    → (ctx ≡ none)
      × ((c.kind ≡ source_password) × (0 < length c.password) × (0 < length salt) × InPolicy p
          ⊎ (c.kind ≡ source_raw) × (length key ≡ 32) × (key ≡ c.raw_key))
unfolding derive_master_key validate
derive_master_key_policy prim ctx c p salt key h = ground arith
