-- ===== src/Checks/Exchange.antt =====
-- A public identity through a QR text, with stand-ins for JSON and base64.
use cypherstorm.Base.{
  pos, str_eq, str_eq_iff, ◌≡◌, refl, sym, ap, true, Option, none, some, ◌∷◌, ◌++◌, Bytes, codes,
  length, take, drop, length-append, take-append, drop-append, arith,
}
use cypherstorm.Fault.{ok}
use cypherstorm.Credential.Identity.{Public}
use cypherstorm.Credential.Exchange.{Payload, Formats, checksum_of, payload_of, encode, decode}
use cypherstorm.Credential.Exchange.RoundTrip.{IsFormats, decode-encode}
use cypherstorm.Checks.Toy.{sign_of, magnitude, int_of, int_of-sign_of}

-- The lengths of the key and of the label, and the texts; the kind is always the one that is tested.
abbrev marshal : Payload → Bytes
marshal p =
    sign_of p.version
    ∷ magnitude p.version
    ∷ length p.public_key
    ∷ length p.label
    ∷ (p.public_key ++ (p.label ++ p.checksum))

abbrev unmarshal : Bytes → Option Payload
unmarshal (k ∷ v ∷ n ∷ m ∷ rest) = some (record {
  version = int_of k v;
  kind = "x25519";
  public_key = take n rest;
  label = take m (drop n rest);
  checksum = drop m (drop n rest);
})
unmarshal _ = none

abbrev formats : Formats
formats = record {
  sha256 = λ b. b;
  marshal_payload = marshal;
  unmarshal_payload = unmarshal;
  encode_url = λ b. b;
  decode_url = λ b. some b;
}

unmarshal-marshal : (p : Payload) → str_eq p.kind "x25519" ≡ true → unmarshal (marshal p) ≡ some p
unmarshal-marshal p e =
    rw
      (
        int_of-sign_of p.version,
        take-append p.public_key (p.label ++ p.checksum),
        drop-append p.public_key (p.label ++ p.checksum),
        take-append p.label p.checksum,
        drop-append p.label p.checksum,
      )
      (ap (λ k. some (record p { kind = k })) (sym ((str_eq_iff p.kind "x25519").0 e)))

formats-IsFormats : IsFormats formats (λ b. true)
formats-IsFormats = record {
  decode-encode_url = λ b. refl;
  length-encode_url = λ b. omega arith;
  unmarshal-marshal = λ p x e k l c. unmarshal-marshal p e;
  key-marshal = λ p. omega (arith, length-append p.public_key (p.label ++ p.checksum));
}

abbrev friend : Public
friend = record { version = pos 0; kind = "x25519"; key = codes "age1q"; label = codes "me" }

encoded : encode formats friend ≡ ok (marshal (payload_of formats friend))
unfolding encode checksum_of
encoded = refl

decode-encode_example :
    decode formats (marshal (payload_of formats friend)) ≡ ok (record friend { version = pos 1 })
decode-encode_example =
    decode-encode formats (λ b. true) formats-IsFormats friend (marshal (payload_of formats friend))
      encoded refl refl
