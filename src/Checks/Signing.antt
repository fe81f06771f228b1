-- ===== src/Checks/Signing.antt =====
-- A signature that is made and verified, with stand-ins for JSON, base64 and Ed25519.
use cypherstorm.Base.{
  pos, ◌≡◌, refl, sym, ap, true, false, Option, none, some, [], ◌∷◌, ◌++◌, Bytes, codes, length,
  take, drop, same, same_refl, length-drop, subst, take-append, drop-append, if◌then◌else◌, arith,
}
use cypherstorm.Fault.{ok}
use cypherstorm.Config.{trim_space}
use cypherstorm.Credential.Identity.{
  Outside, OpenFile, Private, load_private, fingerprint, fingerprint_text, hex_digit,
  bounded_read_from,
}
use cypherstorm.Credential.Signing.{
  Signature, Signer, file_digest, signing_key, sign_data, signing_public, verify,
}
use cypherstorm.Credential.Signing.RoundTrip.{IsSigner, verify-sign_data}
use cypherstorm.Credential.Signing.Trust.{IsVerified, verify-IsVerified}
use cypherstorm.Checks.Toy.{sign_of, magnitude, int_of, int_of-sign_of, zeros}

abbrev key_file : OpenFile
key_file = record { regular = true; path_is_symlink = false; same_file = true; content = zeros 64 }

abbrev owner : Private
owner = record { version = pos 1; kind = "signing"; secret = zeros 64 }

abbrev outside : Outside
outside = record {
  open_file = λ path. some key_file;
  unmarshal_private = λ b. some (record { version = pos 1; kind = "signing"; secret = b });
  sha256 = λ b. drop 8 b;
  parse_recipient = λ b. some b;
  parse_identity = λ b. some b;
  age_encrypt = λ k r text. some text;
  age_decrypt = λ i text. some text;
}

abbrev marshal : Signature → Bytes
marshal s =
    sign_of s.version
    ∷ magnitude s.version
    ∷ length s.public_key
    ∷ length s.signature
    ∷ (s.public_key ++ (s.signature ++ s.label))

abbrev unmarshal : Bytes → Option Signature
unmarshal (k ∷ v ∷ n ∷ m ∷ rest) = some (record {
  version = int_of k v;
  algorithm = codes "ed25519";
  public_key = take n rest;
  signature = take m (drop n rest);
  label = drop m (drop n rest);
})
unmarshal _ = none

abbrev signed : Signature
signed = record {
  version = pos 1;
  algorithm = codes "ed25519";
  public_key = zeros 32;
  signature = zeros 64;
  label = codes "me";
}

abbrev signer : Signer
signer = record {
  read_file = λ path. ok (if same path (codes "sig") then marshal signed else codes "text");
  marshal_signature = marshal;
  unmarshal_signature = unmarshal;
  unmarshal_public = λ b. none;
  encode64 = λ b. b;
  decode64 = λ b. some b;
  ed_sign = λ raw d. raw;
  ed_public = λ raw. drop 32 raw;
  ed_verify = λ key d s. same key (take 32 s);
}

unmarshal-marshal : (s : Signature) → s.algorithm ≡ codes "ed25519" → unmarshal (marshal s) ≡ some s
unmarshal-marshal s e =
    rw
      (
        int_of-sign_of s.version,
        take-append s.public_key (s.signature ++ s.label),
        drop-append s.public_key (s.signature ++ s.label),
        take-append s.signature s.label,
        drop-append s.signature s.label,
      )
      (ap (λ a. some (record s { algorithm = a })) (sym e))

halves :
    (seed : Bytes)
    → length seed ≡ 32
    → same (drop 32 (seed ++ seed)) (take 32 (seed ++ seed)) ≡ true
halves seed e =
    let front : take 32 (seed ++ seed) ≡ seed =
      subst (λ n. take n (seed ++ seed) ≡ seed) e (take-append seed seed) in
    let back : drop 32 (seed ++ seed) ≡ seed =
      subst (λ n. drop n (seed ++ seed) ≡ seed) e (drop-append seed seed) in
    rw (front, back) (same_refl seed)

-- A key is its seed, twice; one with different halves signs, and its signatures are refused.
signer-IsSigner : IsSigner signer (λ b. true) (λ seed. seed ++ seed)
signer-IsSigner = record {
  decode64-encode64 = λ b. refl;
  encode64-is_text = λ b. refl;
  unmarshal-marshal = λ s e p q r. unmarshal-marshal s e;
  length-ed_public = λ raw e. omega (arith, e, length-drop 32 raw);
  length-ed_sign = λ raw d e. e;
  verifies = λ seed d e. halves seed e;
}

abbrev id : Bytes
id = codes "cys-id:6f72:6d2f:7369:676e"

was_signed : sign_data outside signer (codes "in") "key" (codes "me") ≡ ok (marshal signed)
unfolding sign_data load_private bounded_read_from signing_key file_digest same
was_signed = refl

printed : fingerprint outside (signing_public outside signer (zeros 32)) ≡ ok id
unfolding fingerprint fingerprint_text hex_digit
printed = refl

trimmed : trim_space (10 ∷ (id ++ 32 ∷ [])) ≡ id
unfolding trim_space
trimmed = refl

read_back : signer.read_file (codes "sig") ≡ ok (marshal signed)
unfolding same
read_back = refl

loaded : load_private outside "key" ≡ ok owner
unfolding load_private bounded_read_from
loaded = refl

verify-sign_data_example :
    verify outside signer (codes "in") (codes "sig") (10 ∷ (id ++ 32 ∷ [])) ≡ ok id
verify-sign_data_example =
    verify-sign_data outside signer (λ b. true) (λ seed. seed ++ seed) signer-IsSigner (codes "in")
      "key" (codes "me") (marshal signed) (codes "sig") (10 ∷ (id ++ 32 ∷ [])) id owner (zeros 32)
      loaded refl refl was_signed read_back (omega arith) refl printed trimmed

verify-IsVerified_example :
    IsVerified outside signer (codes "in") (codes "sig") (10 ∷ (id ++ 32 ∷ [])) id
verify-IsVerified_example =
    verify-IsVerified outside signer (codes "in") (codes "sig") (10 ∷ (id ++ 32 ∷ [])) id
      verify-sign_data_example
