-- ===== src/Credential/Exchange.antt =====
-- internal/credential/qrexchange/qr.go: public identities as texts for a QR code. JSON, base64 and
-- SHA-256 are arguments; images are outside.
pub mod RoundTrip
use cypherstorm.Base.{
  ℤ, pos, same_int, ℕ, Bool, Option, List, [], ◌∷◌, ◌++◌, String, str_eq, Bytes, codes, length,
  take, ltb, ◌==◌, not, ◌||◌, same,
}
use cypherstorm.Fault.{
  Error, Result, ok, err, ◌>>=◌, ◌>>◌, refuse_if, malformed_base64, malformed_json,
  exchange_identity, exchange_limit, exchange_payload, exchange_checksum,
}
use cypherstorm.Credential.Identity.{Public, or_error, hex}

pub record Payload : Type 0 where
  pub version : ℤ
  pub kind : String
  pub public_key : Bytes
  pub label : Bytes
  pub checksum : Bytes

pub record Formats : Type 0 where
  pub sha256 : Bytes → Bytes
  -- encoding/json; Marshal cannot fail on a Payload
  pub marshal_payload : Payload → Bytes
  pub unmarshal_payload : Bytes → Option Payload
  -- base64.RawURLEncoding
  pub encode_url : Bytes → Bytes
  pub decode_url : Bytes → Option Bytes

module _ (formats : Formats) where
  -- The checksum of a payload of version 1, which the number 1 stands for in its text.
  unfoldable pub checksum_of : String → Bytes → Bytes → Bytes
  checksum_of kind key label =
      hex (take 8 (formats.sha256 (codes "1" ++ 0 ∷ (codes kind ++ 0 ∷ (key ++ 0 ∷ label)))))

  abbrev pub payload_of : Public → Payload
  payload_of p = record {
    version = pos 1;
    kind = p.kind;
    public_key = p.key;
    label = p.label;
    checksum = checksum_of p.kind p.key p.label;
  }

  -- `Encode`
  unfoldable pub encode : Public → Result Bytes
  encode p = do
    refuse_if (not (str_eq p.kind "x25519") || ltb 256 (length p.label)) exchange_identity
    refuse_if (ltb 4096 (length (formats.marshal_payload (payload_of p)))) exchange_limit
    ok (formats.encode_url (formats.marshal_payload (payload_of p)))

  -- `Decode`
  unfoldable pub decode : Bytes → Result Public
  decode value = do
    refuse_if (ltb 8192 (length value)) exchange_limit
    bytes ← or_error malformed_base64 (formats.decode_url value)
    p ← or_error malformed_json (formats.unmarshal_payload bytes)
    refuse_if
        (not (same_int p.version (pos 1))
          || not (str_eq p.kind "x25519")
          || ltb 4096 (length p.public_key)
          || ltb 256 (length p.label))
        exchange_payload
    refuse_if (not (same p.checksum (checksum_of p.kind p.public_key p.label))) exchange_checksum
    ok (record { version = pos 1; kind = p.kind; key = p.public_key; label = p.label })
