-- ===== src/Credential/Signing/Trust.antt =====
-- What `Verify` has found out when it accepts.
use cypherstorm.Base.{
  ℕ, ◌≤◌, ◌≡◌, refl, sym, ap, subst, ◌∙◌, true, false, Option, none, some, Bytes, length, ◌==◌, not,
  same, same→eq, not-eq-false, arith,
}
use cypherstorm.Fault.{
  ok, refuse_if, >>=-eq-ok, >>-eq-ok, refuse_if-eq-ok, ok-injective, malformed_json,
}
use cypherstorm.Config.{trim_space}
use cypherstorm.Credential.Identity.{Outside, or_error, fingerprint}
use cypherstorm.Credential.Signing.{
  Signature, Signer, bounded_read, file_digest, has_length, is_malformed, inspect_signature,
  trusted_fingerprint, signing_public, decoded_or_empty, verify,
}

module _ (out : Outside) (signer : Signer) where
  -- The facts behind an accepted signature.
  pub record IsVerified (input signature_path trusted id : Bytes) : Type 0 where
    pub record_of : Signature
    pub key : Bytes
    pub bytes : Bytes
    pub digest : Bytes
    pub inspected : inspect_signature out signer signature_path ≡ ok record_of
    pub key_is : signer.decode64 record_of.public_key ≡ some key
    pub bytes_is : signer.decode64 record_of.signature ≡ some bytes
    pub sizes : (length key ≡ 32) × (length bytes ≡ 64) × (length record_of.label ≤ 256)
    pub digest_is : file_digest out signer input ≡ ok digest
    pub authentic : signer.ed_verify key digest bytes ≡ true
    pub signed_by : fingerprint out (signing_public out signer record_of.public_key) ≡ ok id
    pub trusted_is : trusted_fingerprint out signer (trim_space trusted) ≡ ok id

  has_length-some :
      (o : Option Bytes) (n : ℕ)
      → has_length out signer o n ≡ true
      → (b : Bytes) × (o ≡ some b) × (length b ≡ n)
  has_length-some none n h = cc h
  has_length-some (some b) n h = (b, refl, ground (arith, h))

  well_formed :
      (s : Signature)
      → is_malformed out signer s ≡ false
      → (has_length out signer (signer.decode64 s.public_key) 32 ≡ true)
        × (has_length out signer (signer.decode64 s.signature) 64 ≡ true)
        × (length s.label ≤ 256)
  unfolding is_malformed
  well_formed s h = (ground arith, ground arith, ground arith)

  inspect_signature-ok :
      (path : Bytes) (s : Signature)
      → inspect_signature out signer path ≡ ok s
      → is_malformed out signer s ≡ false
  unfolding inspect_signature
  inspect_signature-ok path s e =
      let (c, r, rest) = >>=-eq-ok (bounded_read out signer path) _ e in
      let (t, u, last) =
        >>=-eq-ok (or_error malformed_json (signer.unmarshal_signature c)) _ rest in
      let (v, fine, same_s) = >>-eq-ok (refuse_if (is_malformed out signer t) _) _ last in
      subst (λ z. is_malformed out signer z ≡ false) (ok-injective same_s)
        (refuse_if-eq-ok _ _ fine)

  -- Whenever `Verify` accepts, the signature file holds a well-formed record of the present version
  -- with a key of 32 bytes, a signature of 64 bytes and a label of at most 256 bytes; the
  -- signature verifies under that key over the digest of the input; and the fingerprint of the key
  -- is the one that the caller trusts, which is also the result.
  pub verify-IsVerified :
      (input signature_path trusted id : Bytes)
      → verify out signer input signature_path trusted ≡ ok id
      → IsVerified input signature_path trusted id
  unfolding verify
  verify-IsVerified input signature_path trusted id e =
      let (u0, given, e0) = >>-eq-ok (refuse_if (length (trim_space trusted) == 0) _) _ e in
      let (s, inspected, e1) = >>=-eq-ok (inspect_signature out signer signature_path) _ e0 in
      let (actual, signed, e2) =
        >>=-eq-ok (fingerprint out (signing_public out signer s.public_key)) _ e1 in
      let (expected, trust, e3) =
        >>=-eq-ok (trusted_fingerprint out signer (trim_space trusted)) _ e2 in
      let (u1, equal, e4) = >>-eq-ok (refuse_if (not (same actual expected)) _) _ e3 in
      let (d, digest, e5) = >>=-eq-ok (file_digest out signer input) _ e4 in
      let (u2, verified, e6) = >>-eq-ok (refuse_if _ _) _ e5 in
      let (has_key, has_bytes, label) =
        well_formed s (inspect_signature-ok signature_path s inspected) in
      let (key, key_is, key_size) = has_length-some (signer.decode64 s.public_key) 32 has_key in
      let (bytes, bytes_is, size) = has_length-some (signer.decode64 s.signature) 64 has_bytes in
      let agree : actual ≡ expected =
        same→eq actual expected (not-eq-false _ (refuse_if-eq-ok _ _ equal)) in
      let result : actual ≡ id = ok-injective e6 in
      record {
        record_of = s;
        key = key;
        bytes = bytes;
        digest = d;
        inspected = inspected;
        key_is = key_is;
        bytes_is = bytes_is;
        sizes = (key_size, size, label);
        digest_is = digest;
        authentic =
            ap (λ k. signer.ed_verify (decoded_or_empty out signer k) d bytes) (sym key_is)
            ∙ ap
                (λ b.
                  signer.ed_verify (decoded_or_empty out signer (signer.decode64 s.public_key)) d
                    (decoded_or_empty out signer b))
                (sym bytes_is)
            ∙ not-eq-false _ (refuse_if-eq-ok _ _ verified);
        signed_by = signed ∙ ap ok result;
        trusted_is = trust ∙ ap ok (sym agree ∙ result);
      }
