-- ===== src/Credential/Signing.antt =====
-- internal/credential/identity/identity.go: detached signatures. Files, JSON, base64 and
-- crypto/ed25519 are arguments.
pub mod RoundTrip
pub mod Trust
use cypherstorm.Base.{
  ℤ, pos, same_int, ℕ, ◌≡◌, Bool, true, false, Option, none, some, List, [], ◌∷◌, ◌++◌, String,
  str_eq, Bytes, codes, length, ltb, ◌==◌, not, ◌||◌, ◌&&◌, same, if◌then◌else◌,
}
use cypherstorm.Fault.{
  Error, Result, ok, err, ◌>>=◌, ◌>>◌, refuse_if, input_size, malformed_json, wrong_identity_type,
  label_limit, malformed_signing, malformed_signature, invalid_public, signer_required,
  signer_mismatch, verification_failed,
}
use cypherstorm.Config.{trim_space}
use cypherstorm.Storage.Paths.{has_prefix}
use cypherstorm.Storage.Files.{Disk, Outcome, publish_atomic}
use cypherstorm.Credential.Identity.{
  Outside, Public, or_error, max_identity_size, load_private, fingerprint,
}

pub record Signature : Type 0 where
  pub version : ℤ
  pub algorithm : Bytes
  pub public_key : Bytes
  pub signature : Bytes
  pub label : Bytes

pub record Signer : Type 0 where
  -- os.Open and io.ReadAll
  pub read_file : Bytes → Result Bytes
  -- encoding/json; Marshal cannot fail on a Signature
  pub marshal_signature : Signature → Bytes
  pub unmarshal_signature : Bytes → Option Signature
  pub unmarshal_public : Bytes → Option Public
  -- base64.StdEncoding
  pub encode64 : Bytes → Bytes
  pub decode64 : Bytes → Option Bytes
  -- crypto/ed25519: the signature of a digest, the public half of a key, Verify
  pub ed_sign : Bytes → Bytes → Bytes
  pub ed_public : Bytes → Bytes
  pub ed_verify : Bytes → Bytes → Bytes → Bool

module _ (out : Outside) (signer : Signer) where
  unfoldable pub bounded_read : Bytes → Result Bytes
  bounded_read path = do
    data_read ← signer.read_file path
    refuse_if (ltb max_identity_size (length data_read)) input_size
    ok data_read

  unfoldable pub load_public : Bytes → Result Public
  load_public path = do
    content ← bounded_read path
    p ← or_error malformed_json (signer.unmarshal_public content)
    refuse_if
        (not (same_int p.version (pos 1))
          || not (str_eq p.kind "signing") && not (str_eq p.kind "x25519")
          || ltb 4096 (length p.key)
          || ltb 256 (length p.label))
        invalid_public
    ok p

  unfoldable pub file_digest : Bytes → Result Bytes
  file_digest path = do
    content ← signer.read_file path
    ok (out.sha256 (codes "cypherstorm/detached-signature/v1" ++ 0 ∷ content))

  -- The secret key of a signing identity.
  unfoldable pub signing_key : Option Bytes → Result Bytes
  signing_key none = err malformed_signing
  signing_key (some raw) = do refuse_if (not (length raw == 64)) malformed_signing; ok raw

  abbrev pub signature_of : Bytes → Bytes → Bytes → Signature
  signature_of raw digest label = record {
    version = pos 1;
    algorithm = codes "ed25519";
    public_key = signer.encode64 (signer.ed_public raw);
    signature = signer.encode64 (signer.ed_sign raw digest);
    label = label;
  }

  -- `Sign` up to the publication of its result.
  unfoldable pub sign_data : Bytes → String → Bytes → Result Bytes
  sign_data input private_path label = do
    refuse_if (ltb 256 (length label)) label_limit
    p ← load_private out private_path
    refuse_if (not (str_eq p.kind "signing")) wrong_identity_type
    raw ← signing_key (signer.decode64 p.secret)
    digest ← file_digest input
    ok (signer.marshal_signature (signature_of raw digest label))

  unfoldable pub published_data :
      {W : Type 0} → Disk W → (Bytes → Bytes → W → Outcome W) → Bytes → Result Bytes → W → Outcome W
  published_data disk write output (err e) w = (some e, w)
  published_data disk write output (ok bytes) w =
      publish_atomic disk output false (λ tmp v. write tmp bytes v) w

  -- `Sign`; `write` is the Write of a file at a path.
  unfoldable pub sign :
      {W : Type 0}
      → Disk W
      → (Bytes → Bytes → W → Outcome W)
      → Bytes
      → String
      → Bytes
      → Bytes
      → W
      → Outcome W
  sign disk write input private_path output label w =
      published_data disk write output (sign_data input private_path label) w

  abbrev pub has_length : Option Bytes → ℕ → Bool
  has_length none n = false
  has_length (some b) n = length b == n

  -- The test of `InspectSignature`.
  unfoldable pub is_malformed : Signature → Bool
  is_malformed s =
      not (same_int s.version (pos 1))
      || not (same s.algorithm (codes "ed25519"))
      || not (has_length (signer.decode64 s.public_key) 32)
      || not (has_length (signer.decode64 s.signature) 64)
      || ltb 256 (length s.label)

  unfoldable pub inspect_signature : Bytes → Result Signature
  inspect_signature path = do
    content ← bounded_read path
    s ← or_error malformed_json (signer.unmarshal_signature content)
    refuse_if (is_malformed s) malformed_signature
    ok s

  -- `trustedSignerFingerprint` of the trimmed text
  unfoldable pub trusted_fingerprint : Bytes → Result Bytes
  trusted_fingerprint value =
      let loaded = do
        p ← load_public value
        refuse_if (not (str_eq p.kind "signing")) wrong_identity_type
        fingerprint out p
      in if has_prefix value (codes "cys-id:") then ok value else loaded

  abbrev pub signing_public : Bytes → Public
  signing_public key = record { version = pos 1; kind = "signing"; key = key; label = [] }

  -- What base64 decodes to; the errors were ruled out before.
  abbrev pub decoded_or_empty : Option Bytes → Bytes
  decoded_or_empty none = []
  decoded_or_empty (some b) = b

  -- `Verify`
  unfoldable pub verify : Bytes → Bytes → Bytes → Result Bytes
  verify input signature_path trusted_signer = do
    refuse_if (length (trim_space trusted_signer) == 0) signer_required
    s ← inspect_signature signature_path
    actual ← fingerprint out (signing_public s.public_key)
    expected ← trusted_fingerprint (trim_space trusted_signer)
    refuse_if (not (same actual expected)) signer_mismatch
    digest ← file_digest input
    refuse_if
        (not (
          signer.ed_verify (decoded_or_empty (signer.decode64 s.public_key)) digest
            (decoded_or_empty (signer.decode64 s.signature))))
        verification_failed
    ok actual
