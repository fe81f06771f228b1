-- ===== src/Container/Envelope.antt =====
-- `Encrypt`, `Decrypt`, `Inspect` and `Rekey`.
use cypherstorm.Base.{
  ℕ, suc, ◌+◌, ◌-◌, ◌*◌, ◌^◌, Bool, Option, none, some, [], String, Bytes, length, ltb, ◌==◌, ◌&&◌,
  if◌then◌else◌,
}
use cypherstorm.Fault.{
  Error, refuse_if, record_size_limit, metadata_limit, hint_limit, header_limit, malformed_metadata,
  metadata_auth, malformed_json,
}
use cypherstorm.Stream.{Io, ◌>>=◌, ◌>>◌, pure, lift, draw, write}
use cypherstorm.Security.Primitives.{Suite, xchacha20_poly1305}
use cypherstorm.Security.Suite.{new_cipher_suite, key_size, nonce_size, new_aead}
use cypherstorm.Security.Codec.{new_codec}
use cypherstorm.Security.Kdf.{Argon2Params, default_argon2_params, validate}
use cypherstorm.Credential.Identity.{or_error}
use cypherstorm.Container.Frame.{be32}
use cypherstorm.Container.Payload.{Session, Progress, fresh, seal_payload, open_loop}
use cypherstorm.Container.Header.{
  magic, version, max_header_size, max_metadata_size, max_record_size, Metadata, ImmutableHeader,
  Header, decode_fixed,
}
use cypherstorm.Container.HeaderReader.{HeaderRead, read_header}
use cypherstorm.Container.Recipients.{
  RecipientOptions, DecryptOptions, Outer, derive, wrap_recipients, unwrap_recipients,
}

pub record EncryptOptions : Type 0 where
  pub cipher : String
  pub codec : String
  pub record_size : ℕ
  pub argon2 : Argon2Params
  pub recipients : RecipientOptions
  pub metadata : Metadata
  pub public_hint : Bytes

is_zero_params : Argon2Params → Bool
is_zero_params p = p.time == 0 && p.memory_kib == 0 && p.parallelism == 0 && p.key_length == 0

-- `b, _ := DecodeString(s)`
abbrev pub or_empty : Option Bytes → Bytes
or_empty none = []
or_empty (some b) = b

module _ (o : Outer) where
  -- magic, length and bytes of a header; `big` is the error if the bytes are too many
  unfoldable pub write_header : Error → Header → Io (Unit {0})
  write_header big h = do
    let bytes = o.fmt.marshal_header h
    lift (refuse_if (ltb max_header_size (length bytes)) big)
    write o.env magic
    write o.env (be32 (length bytes))
    write o.env bytes

  -- The loop takes a round for each byte of the source at most, and one more.
  seal_all : Session → Io (Unit {0})
  seal_all s w = seal_payload o.env o.prim s (suc (length w.source.bytes)) w

  -- The session of a header's fields: suite, payload key, nonce prefix, additional data.
  session : Suite → Bytes → Bytes → Bytes → ℕ → Session
  session suite key prefix aad size = record {
    suite = suite;
    payload_key = key;
    prefix = prefix;
    aad = aad;
    record_size = size;
  }

  -- `Encrypt` behind its defaults for the record size and the Argon2 parameters.
  encrypt_with : ℕ → Argon2Params → EncryptOptions → Io (Unit {0})
  unfolding write_header seal_all session
  encrypt_with size argon2 e = do
    lift (refuse_if (ltb max_record_size size) record_size_limit)
    lift (validate argon2)
    suite ← lift (new_cipher_suite e.cipher)
    lift (new_codec e.codec)
    content_key ← draw o.env 32
    payload_id ← draw o.env 32
    prefix ← draw o.env (nonce_size suite - 8)
    let immutable : ImmutableHeader = record {
      version = version;
      payload_id = o.fmt.b64 payload_id;
      cipher = e.cipher;
      codec = e.codec;
      record_size = size;
      nonce_prefix = o.fmt.b64 prefix;
    }
    let aad = o.fmt.marshal_immutable immutable
    payload_key ←
        lift (derive o.prim content_key payload_id "cypherstorm/v2/payload" (key_size suite))
    metadata_key ← lift (derive o.prim content_key payload_id "cypherstorm/v2/metadata" 32)
    stanzas ← wrap_recipients o content_key payload_id e.recipients argon2
    let metadata = o.fmt.marshal_metadata e.metadata
    lift (refuse_if (ltb max_metadata_size (length metadata)) metadata_limit)
    metadata_nonce ← draw o.env 24
    lift (refuse_if (ltb 256 (length e.public_hint)) hint_limit)
    write_header header_limit (record {
      fixed = immutable;
      metadata_nonce = o.fmt.b64 metadata_nonce;
      metadata =
          o.fmt.b64 (o.prim.seal xchacha20_poly1305 metadata_key metadata_nonce metadata aad);
      recipients = stanzas;
      public_hint = e.public_hint;
    })
    lift (new_aead o.prim suite payload_key)
    seal_all (session suite payload_key prefix aad size)

  unfoldable pub encrypt : EncryptOptions → Io (Unit {0})
  unfolding encrypt_with is_zero_params
  encrypt e =
      encrypt_with (if e.record_size == 0 then 64 * 2 ^ 10 else e.record_size)
        (if is_zero_params e.argon2 then default_argon2_params else e.argon2) e

  -- Each round takes at least the 13 bytes of a record's header, or is the last.
  open_all : Session → Io Progress
  open_all s w = open_loop o.env o.prim s (suc (length w.source.bytes)) fresh w

  decode_metadata : Bytes → Bytes → Bytes → HeaderRead → Io Metadata
  decode_metadata content_key payload_id aad r = do
    key ← lift (derive o.prim content_key payload_id "cypherstorm/v2/metadata" 32)
    lift (new_aead o.prim xchacha20_poly1305 key)
    nonce ← lift (decode_fixed o.fmt r.header.metadata_nonce 24)
    encrypted ← lift (or_error malformed_metadata (o.fmt.unb64 r.header.metadata))
    lift (
        refuse_if (ltb (max_metadata_size + o.prim.overhead xchacha20_poly1305) (length encrypted))
          malformed_metadata)
    plain ← lift (or_error metadata_auth (o.prim.unseal xchacha20_poly1305 key nonce encrypted aad))
    lift (or_error malformed_json (o.fmt.unmarshal_metadata plain))

  unfoldable pub decrypt : DecryptOptions → Io (String × Metadata)
  unfolding open_all decode_metadata session
  decrypt d = do
    r ← read_header o.fmt
    let payload_id = or_empty (o.fmt.unb64 r.header.fixed.payload_id)
    content_key ← unwrap_recipients o r.header.recipients payload_id d
    suite ← lift (new_cipher_suite r.header.fixed.cipher)
    payload_key ←
        lift (derive o.prim content_key payload_id "cypherstorm/v2/payload" (key_size suite))
    lift (new_aead o.prim suite payload_key)
    prefix ← lift (decode_fixed o.fmt r.header.fixed.nonce_prefix (nonce_size suite - 8))
    open_all (session suite payload_key prefix r.aad r.header.fixed.record_size)
    metadata ← decode_metadata content_key payload_id r.aad r
    pure (r.header.fixed.codec, metadata)

  -- header, length and the offset of the payload
  unfoldable pub inspect : Io (Header × ℕ × ℕ)
  inspect = do r ← read_header o.fmt; pure (r.header, r.size, 12 + r.size)
