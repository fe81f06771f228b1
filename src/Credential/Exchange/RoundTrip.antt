-- ===== src/Credential/Exchange/RoundTrip.antt =====
-- `Decode` reads what `Encode` wrote.
use cypherstorm.Base.{
  pos, ◌+◌, ◌*◌, ◌≤◌, ◌≡◌, refl, subst, Bool, true, false, some, Bytes, length, ltb, str_eq, not,
  ◌||◌, same_refl, arith, ||-neither, not-eq-false, ltb→le,
}
use cypherstorm.Fault.{
  ok, refuse_if, >>-eq-ok, refuse_if-eq-ok, ok-injective, exchange_identity, exchange_limit,
}
use cypherstorm.Credential.Identity.{Public, hex}
use cypherstorm.Credential.Exchange.{Payload, Formats, checksum_of, payload_of, encode, decode}

-- What the proof relies on of base64 and JSON; `is_text` holds of valid UTF-8.
pub record IsFormats (formats : Formats) (is_text : Bytes → Bool) : Type 0 where
  pub decode-encode_url : (b : Bytes) → formats.decode_url (formats.encode_url b) ≡ some b
  -- four characters for three bytes
  pub length-encode_url : (b : Bytes) → 3 * length (formats.encode_url b) ≤ 4 * length b + 2
  pub unmarshal-marshal :
      (p : Payload) (x : Bytes)
      → str_eq p.kind "x25519" ≡ true
      → is_text p.public_key ≡ true
      → is_text p.label ≡ true
      → p.checksum ≡ hex x
      → formats.unmarshal_payload (formats.marshal_payload p) ≡ some p
  -- the key is part of the text
  pub key-marshal : (p : Payload) → length p.public_key ≤ length (formats.marshal_payload p)

module _ (formats : Formats) (is_text : Bytes → Bool) (h : IsFormats formats is_text) where
  -- What `Encode` has tested.
  encode-ok :
      (p : Public) (value : Bytes)
      → encode formats p ≡ ok value
      → (str_eq p.kind "x25519" ≡ true)
        × (length p.label ≤ 256)
        × (length (formats.marshal_payload (payload_of formats p)) ≤ 4096)
        × (formats.encode_url (formats.marshal_payload (payload_of formats p)) ≡ value)
  unfolding encode
  encode-ok p value e =
      let text = formats.marshal_payload (payload_of formats p) in
      let tests = not (str_eq p.kind "x25519") || ltb 256 (length p.label) in
      let (u, first, e0) = >>-eq-ok (refuse_if tests exchange_identity) _ e in
      let (v, second, e1) =
        >>-eq-ok (refuse_if (ltb 4096 (length text)) exchange_limit) (ok (formats.encode_url text))
          e0 in
      let (known, short) =
        ||-neither (not (str_eq p.kind "x25519")) (ltb 256 (length p.label))
          (refuse_if-eq-ok tests exchange_identity first) in
      let small = refuse_if-eq-ok (ltb 4096 (length text)) exchange_limit second in
      (
        not-eq-false (str_eq p.kind "x25519") known,
        ltb→le 256 (length p.label) short,
        ltb→le 4096 (length text) small,
        ok-injective e1,
      )

  unmarshal-payload :
      (p : Public)
      → str_eq p.kind "x25519" ≡ true
      → is_text p.key ≡ true
      → is_text p.label ≡ true
      → formats.unmarshal_payload (formats.marshal_payload (payload_of formats p))
        ≡ some (payload_of formats p)
  unfolding checksum_of
  unmarshal-payload p kind key label =
      h.unmarshal-marshal (payload_of formats p) _ kind key label refl

  -- `Decode` returns the identity that `Encode` wrote, with version 1, when its key and its label
  -- are valid UTF-8. Base64 and JSON keep the laws of `IsFormats`.
  pub decode-encode :
      (p : Public) (value : Bytes)
      → encode formats p ≡ ok value
      → is_text p.key ≡ true
      → is_text p.label ≡ true
      → decode formats value ≡ ok (record p { version = pos 1 })
  unfolding decode
  decode-encode p value e key label =
      let (kind, short, small, made) = encode-ok p value e in
      let text = formats.marshal_payload (payload_of formats p) in
      let key_size = h.key-marshal (payload_of formats p) in
      let url_size = h.length-encode_url text in
      let key_fits : ltb 4096 (length p.key) ≡ false = ground arith in
      let label_fits : ltb 256 (length p.label) ≡ false = ground arith in
      let value_fits : ltb 8192 (length (formats.encode_url text)) ≡ false = ground arith in
      subst (λ v. decode formats v ≡ ok (record p { version = pos 1 })) made
        (rw (value_fits, h.decode-encode_url text)
          (rw (unmarshal-payload p kind key label) (
            rw (kind, key_fits, label_fits, same_refl (checksum_of formats p.kind p.key p.label))
              refl)))
