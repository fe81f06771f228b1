-- ===== src/Credential/Signing/RoundTrip.antt =====
-- `Verify` accepts what `Sign` made.
use cypherstorm.Base.{
  ◌≤◌, ◌≡◌, refl, sym, ap, subst, ◌∙◌, Bool, true, false, Option, none, some, String, str_eq, Bytes,
  codes, length, ltb, ◌==◌, not, same, same_refl, not-eq-false, arith,
}
use cypherstorm.Fault.{ok, refuse_if, >>=-eq-ok, >>-eq-ok, refuse_if-eq-ok, ok-injective}
use cypherstorm.Config.{trim_space}
use cypherstorm.Credential.Identity.{Outside, Private, max_identity_size, load_private, fingerprint}
use cypherstorm.Credential.Identity.Text.{fingerprint-nonempty, fingerprint-has_prefix}
use cypherstorm.Credential.Signing.{
  Signature, Signer, bounded_read, file_digest, signing_key, signature_of, sign_data, is_malformed,
  inspect_signature, trusted_fingerprint, signing_public, verify,
}

-- What the proofs rely on of base64, JSON and Ed25519; `is_text` holds of valid UTF-8, and
-- `from_seed` is ed25519.NewKeyFromSeed, which makes a key of a seed of 32 bytes.
pub record IsSigner (signer : Signer) (is_text : Bytes → Bool) (from_seed : Bytes → Bytes)
    : Type 0 where
  pub decode64-encode64 : (b : Bytes) → signer.decode64 (signer.encode64 b) ≡ some b
  pub encode64-is_text : (b : Bytes) → is_text (signer.encode64 b) ≡ true
  pub unmarshal-marshal :
      (s : Signature)
      → s.algorithm ≡ codes "ed25519"
      → is_text s.public_key ≡ true
      → is_text s.signature ≡ true
      → is_text s.label ≡ true
      → signer.unmarshal_signature (signer.marshal_signature s) ≡ some s
  pub length-ed_public : (raw : Bytes) → length raw ≡ 64 → length (signer.ed_public raw) ≡ 32
  pub length-ed_sign : (raw d : Bytes) → length raw ≡ 64 → length (signer.ed_sign raw d) ≡ 64
  pub verifies :
      (seed d : Bytes)
      → length seed ≡ 32
      → signer.ed_verify (signer.ed_public (from_seed seed)) d (signer.ed_sign (from_seed seed) d)
        ≡ true

module _ (out : Outside) (signer : Signer) where
  signing_key-ok :
      (o : Option Bytes) (raw b : Bytes)
      → o ≡ some raw
      → signing_key out signer o ≡ ok b
      → (raw ≡ b) × (length raw ≡ 64)
  unfolding signing_key
  signing_key-ok none raw b q e = cc q
  signing_key-ok (some c) raw b q e =
      let (u, size, r) = >>-eq-ok (refuse_if (not (length c == 64)) _) _ e in
      let same_raw : raw ≡ c = cc q in
      let fits = not-eq-false _ (refuse_if-eq-ok _ _ size) in
      (same_raw ∙ ok-injective r, ap length same_raw ∙ ground (arith, fits))

  -- What `Sign` puts into its record.
  sign_data-ok :
      (input : Bytes) (private_path : String) (label bytes : Bytes) (p : Private) (raw : Bytes)
      → load_private out private_path ≡ ok p
      → signer.decode64 p.secret ≡ some raw
      → sign_data out signer input private_path label ≡ ok bytes
      → (d : Bytes) × (file_digest out signer input ≡ ok d)
        × (length raw ≡ 64)
        × (length label ≤ 256)
        × (signer.marshal_signature (signature_of out signer raw d label) ≡ bytes)
  unfolding sign_data
  sign_data-ok input private_path label bytes p raw loaded key e =
      let (u, short, e0) = >>-eq-ok (refuse_if (ltb 256 (length label)) _) _ e in
      let (q, again, e1) = >>=-eq-ok (load_private out private_path) _ e0 in
      let (v, kind, e2) = >>-eq-ok (refuse_if (not (str_eq q.kind "signing")) _) _ e1 in
      let (r, taken, e3) = >>=-eq-ok (signing_key out signer (signer.decode64 q.secret)) _ e2 in
      let (d, digest, e4) = >>=-eq-ok (file_digest out signer input) _ e3 in
      let same_p : p ≡ q = ok-injective (sym loaded ∙ again) in
      let (same_raw, size) =
        signing_key-ok (signer.decode64 p.secret) raw r key (
          ap (λ (z : Private). signing_key out signer (signer.decode64 z.secret)) same_p ∙ taken) in
      let fits = refuse_if-eq-ok _ _ short in
      (
        d,
        digest,
        size,
        ground (arith, fits),
        ap (λ z. signer.marshal_signature (signature_of out signer z d label)) same_raw
            ∙ ok-injective e4,
      )

  module _ (is_text : Bytes → Bool) (from_seed : Bytes → Bytes)
      (h : IsSigner signer is_text from_seed) where
    signature_of-well_formed :
        (raw d label : Bytes)
        → length raw ≡ 64
        → length label ≤ 256
        → is_malformed out signer (signature_of out signer raw d label) ≡ false
    unfolding is_malformed same
    signature_of-well_formed raw d label size short =
        let key = h.length-ed_public raw size in
        let bytes = h.length-ed_sign raw d size in
        rw (h.decode64-encode64 (signer.ed_public raw), h.decode64-encode64 (signer.ed_sign raw d))
          (rw (key, bytes) (ground (arith, short)))

    inspect-signed :
        (raw d label bytes path : Bytes)
        → length raw ≡ 64
        → length label ≤ 256
        → is_text label ≡ true
        → signer.marshal_signature (signature_of out signer raw d label) ≡ bytes
        → signer.read_file path ≡ ok bytes
        → length bytes ≤ max_identity_size
        → inspect_signature out signer path ≡ ok (signature_of out signer raw d label)
    unfolding inspect_signature bounded_read
    inspect-signed raw d label bytes path size short text made read bound =
        let small : ltb max_identity_size (length bytes) ≡ false = ground arith in
        let parsed : signer.unmarshal_signature bytes ≡ some (signature_of out signer raw d label) =
          subst (λ b. signer.unmarshal_signature b ≡ some (signature_of out signer raw d label))
            made
            (h.unmarshal-marshal (signature_of out signer raw d label) refl
              (h.encode64-is_text (signer.ed_public raw))
              (h.encode64-is_text (signer.ed_sign raw d)) text) in
        rw read (rw small (rw parsed (rw (signature_of-well_formed raw d label size short) refl)))

    -- `Verify` accepts what `Sign` made, with the fingerprint of the signer as its result: when
    -- Sign succeeded with a key that Ed25519 made of a seed of 32 bytes, the signature file holds
    -- its data, of at most 1 MiB, the label is valid UTF-8, the input is unchanged, and the caller
    -- trusts the fingerprint of the public half of that key, given as text with or without spaces
    -- around it. Base64, JSON and Ed25519 keep the laws of `IsSigner`.
    pub verify-sign_data :
        (input : Bytes) (private_path : String) (label bytes signature_path trusted id : Bytes)
        (p : Private) (seed : Bytes)
        → load_private out private_path ≡ ok p
        → length seed ≡ 32
        → signer.decode64 p.secret ≡ some (from_seed seed)
        → sign_data out signer input private_path label ≡ ok bytes
        → signer.read_file signature_path ≡ ok bytes
        → length bytes ≤ max_identity_size
        → is_text label ≡ true
        → fingerprint out
            (signing_public out signer (signer.encode64 (signer.ed_public (from_seed seed))))
          ≡ ok id
        → trim_space trusted ≡ id
        → verify out signer input signature_path trusted ≡ ok id
    unfolding verify trusted_fingerprint
    verify-sign_data input private_path label bytes signature_path trusted id p seed loaded seeded
          key e read bound text fp trim =
        let raw = from_seed seed in
        let (d, digest, size, short, made) =
          sign_data-ok input private_path label bytes p raw loaded key e in
        let seen =
          inspect-signed raw d label bytes signature_path size short text made read bound in
        let some_text = fingerprint-nonempty out _ id fp in
        let not_empty : (length id == 0) ≡ false = ground arith in
        rw (trim, not_empty)
          (rw seen (
            rw fp (
              rw (fingerprint-has_prefix out _ id fp, same_refl id)
                (rw digest (
                  rw
                    (
                      h.decode64-encode64 (signer.ed_public raw),
                      h.decode64-encode64 (signer.ed_sign raw d),
                      h.verifies seed d seeded,
                    )
                    refl)))))
