-- ===== src/Credential/Identity/Text.antt =====
-- The text of a fingerprint.
use cypherstorm.Base.{◌<◌, ◌≡◌, Bytes, length, arith, codes, true, refl, subst}
use cypherstorm.Fault.{ok, >>-eq-ok, ok-injective}
use cypherstorm.Storage.Paths.{has_prefix}
use cypherstorm.Credential.Identity.{Outside, Public, fingerprint, fingerprint_text}

-- A fingerprint is never empty.
pub fingerprint-nonempty :
    (out : Outside) (p : Public) (id : Bytes) → fingerprint out p ≡ ok id → 0 < length id
unfolding fingerprint
fingerprint-nonempty out p id e = ground arith

fingerprint_text-has_prefix : (x : Bytes) → has_prefix (fingerprint_text x) (codes "cys-id:") ≡ true
unfolding fingerprint_text has_prefix
fingerprint_text-has_prefix x = refl

-- A fingerprint starts with "cys-id:".
pub fingerprint-has_prefix :
    (out : Outside) (p : Public) (id : Bytes)
    → fingerprint out p ≡ ok id
    → has_prefix id (codes "cys-id:") ≡ true
unfolding fingerprint
fingerprint-has_prefix out p id e =
    let (u, q, r) = >>-eq-ok _ _ e in
    subst (λ t. has_prefix t (codes "cys-id:") ≡ true) (ok-injective r)
      (fingerprint_text-has_prefix _)
