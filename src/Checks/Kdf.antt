-- ===== src/Checks/Kdf.antt =====
-- The Argon2id policy at concrete inputs.
use cypherstorm.Base.{◌<◌, ◌≡◌, ◌↔◌, ◌⊎◌, refl, Option, none, length, []}
use cypherstorm.Fault.{Error, ok}
use cypherstorm.Security.Kdf.{
  Credential, source_raw, source_password, default_argon2_params, validate, derive_master_key,
}
use cypherstorm.Security.Kdf.Policy.{InPolicy, validate_iff, derive_master_key_policy}
use cypherstorm.Checks.Toy.{prim, zeros}

validate_iff_example : (validate default_argon2_params ≡ ok tt) ↔ InPolicy default_argon2_params
validate_iff_example = validate_iff default_argon2_params

abbrev raw : Credential
raw = record { kind = source_raw; raw_key = zeros 32; password = [] }

raw_derived : derive_master_key prim none raw default_argon2_params [] ≡ ok (zeros 32)
unfolding derive_master_key
raw_derived = refl

derive_master_key_policy_example :
    (◌≡◌ {A = Option Error} none none)
    × ((source_raw ≡ source_password) × (0 < 0) × (0 < 0) × InPolicy default_argon2_params
        ⊎ (source_raw ≡ source_raw) × (length (zeros 32) ≡ 32) × (zeros 32 ≡ zeros 32))
derive_master_key_policy_example =
    derive_master_key_policy prim none raw default_argon2_params [] (zeros 32) raw_derived
