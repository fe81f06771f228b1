-- ===== src/Container/Recipients.antt =====
-- `wrapRecipients` and `unwrapRecipients`: the content key under each recipient's own key.
pub mod Wrapped
use cypherstorm.Base.{
  ℕ, zero, suc, ◌+◌, ◌≡◌, Bool, true, false, Option, none, some, List, [], ◌∷◌, ◌++◌, String,
  str_eq, Bytes, codes, length, take, drop, ltb, ◌==◌, not, ◌&&◌, same, if◌then◌else◌,
}
use cypherstorm.Fault.{
  Error, Result, ok, err, refuse_if, hkdf_failed, raw_key_size, duplicate_recipient,
  recipient_required, recipient_limit, unknown_recipient_type, malformed_base64, key_rejected,
  no_recipient, age_failed,
}
use cypherstorm.Stream.{
  World, Env, Io, continue, ◌>>=◌, ◌>>◌, pure, fail, lift, check_context, draw,
}
use cypherstorm.Security.Primitives.{Primitives, xchacha20_poly1305}
use cypherstorm.Security.Kdf.{Argon2Params, Credential, source_password, derive_master_key}
use cypherstorm.Credential.Identity.{
  Outside, Public, or_error, parse_x25519_private, parse_x25519_recipient, fingerprint,
}
use cypherstorm.Container.Header.{
  Formats, RecipientStanza, StanzaParams, decode_fixed, has, max_recipients,
}

pub record RecipientOptions : Type 0 where
  pub password : Bytes
  pub raw_key : Bytes
  pub public_keys : List Public

pub record DecryptOptions : Type 0 where
  pub password : Bytes
  pub raw_key : Bytes
  pub identity_paths : List String

-- The code's surroundings: the environment, the cryptography, the formats, the identities.
pub record Outer : Type 0 where
  pub env : Env
  pub prim : Primitives
  pub fmt : Formats
  pub identities : Outside

-- `derive`: HKDF-SHA-256 with an info text.
unfoldable pub derive : Primitives → Bytes → Bytes → String → ℕ → Result Bytes
derive prim secret salt info n = or_error hkdf_failed (prim.hkdf secret salt (codes info) n)

-- `recipientAAD`
unfoldable pub recipient_aad : Bytes → String → Bytes
recipient_aad payload_id kind = payload_id ++ codes kind

module _ (o : Outer) where
  -- argon2 under the context; `KeyLength` is always 32
  unfoldable pub password_key : Bytes → StanzaParams → Bytes → Io Bytes
  password_key password params salt w = (
    derive_master_key o.prim (o.env.ctx_err w)
        (record { kind = source_password; raw_key = []; password = password })
        (record {
          time = params.time;
          memory_kib = params.memory_kib;
          parallelism = params.parallelism;
          key_length = 32;
        })
        salt,
    w,
  )

  unfoldable pub seal_key : Bytes → Bytes → Bytes → Bytes → String → Bytes
  seal_key kek nonce content_key payload_id kind =
      o.prim.seal xchacha20_poly1305 kek nonce content_key (recipient_aad payload_id kind)

  wrap_password : Bytes → Bytes → Bytes → StanzaParams → Io (List RecipientStanza)
  wrap_password content_key payload_id [] params = pure []
  wrap_password content_key payload_id (b ∷ password) params = do
    salt ← draw o.env 32
    kek ← password_key (b ∷ password) params salt
    nonce ← draw o.env 24
    pure (
        record {
          kind = "password";
          id = [];
          salt = o.fmt.b64 salt;
          argon2 = some params;
          nonce = o.fmt.b64 nonce;
          wrapped = o.fmt.b64 (seal_key kek nonce content_key payload_id "password");
        }
        ∷ [])

  wrap_raw_key : Bytes → Bytes → Bytes → Io (List RecipientStanza)
  wrap_raw_key content_key payload_id [] = pure []
  wrap_raw_key content_key payload_id (b ∷ raw) = do
    lift (refuse_if (not (length (b ∷ raw) == 32)) raw_key_size)
    salt ← draw o.env 32
    kek ← lift (derive o.prim (b ∷ raw) salt "cypherstorm/v2/raw-wrap" 32)
    nonce ← draw o.env 24
    pure (
        record {
          kind = "raw-key";
          id = [];
          salt = o.fmt.b64 salt;
          argon2 = none;
          nonce = o.fmt.b64 nonce;
          wrapped = o.fmt.b64 (seal_key kek nonce content_key payload_id "raw-key");
        }
        ∷ [])

  -- age.Encrypt and the writes to it; it draws its own randomness
  unfoldable pub age_wrap : Bytes → Bytes → Io Bytes
  age_wrap recipient text w = (
    or_error age_failed (o.identities.age_encrypt w.draws recipient text),
    record w { draws = w.draws + 1 },
  )

  -- The loop over the public keys, with the fingerprints seen so far.
  wrap_public_keys : Bytes → Bytes → List Bytes → List Public → Io (List RecipientStanza)
  wrap_public_keys content_key payload_id seen [] = pure []
  wrap_public_keys content_key payload_id seen (p ∷ keys) = do
    recipient ← lift (parse_x25519_recipient o.identities p)
    id ← lift (fingerprint o.identities p)
    lift (refuse_if (has id seen) duplicate_recipient)
    wrapped ← age_wrap recipient (payload_id ++ content_key)
    more ← wrap_public_keys content_key payload_id (id ∷ seen) keys
    pure (
        record {
          kind = "x25519";
          id = id;
          salt = "";
          argon2 = none;
          nonce = "";
          wrapped = o.fmt.b64 wrapped;
        }
        ∷ more)

  -- the two checks at the end of `wrapRecipients`
  check_count : List RecipientStanza → Result (List RecipientStanza)
  check_count out =
      if length out == 0
      then err recipient_required
      else if ltb max_recipients (length out)
      then err recipient_limit
      else ok out

  unfoldable pub wrap_recipients :
      Bytes → Bytes → RecipientOptions → Argon2Params → Io (List RecipientStanza)
  unfolding wrap_password wrap_raw_key wrap_public_keys check_count
  wrap_recipients content_key payload_id r params = do
    by_password ← wrap_password content_key payload_id r.password (record {
      time = params.time;
      memory_kib = params.memory_kib;
      parallelism = params.parallelism;
    })
    by_raw_key ← wrap_raw_key content_key payload_id r.raw_key
    by_public_key ← wrap_public_keys content_key payload_id [] r.public_keys
    lift (check_count (by_password ++ (by_raw_key ++ by_public_key)))

  -- A key that is not 32 bytes long is no content key: the loop goes on.
  unfoldable pub content_key_of : Option Bytes → Option Bytes
  content_key_of none = none
  content_key_of (some plain) = if length plain == 32 then some plain else none

  -- The common end of the symmetric cases of `unwrapRecipients`; `none` goes on with the loop.
  open_wrapped : RecipientStanza → Bytes → Bytes → Io (Option Bytes)
  open_wrapped s payload_id key = do
    nonce ← lift (decode_fixed o.fmt s.nonce 24)
    wrapped ← lift (or_error malformed_base64 (o.fmt.unb64 s.wrapped))
    lift (refuse_if (not (o.prim.takes_key xchacha20_poly1305 key)) key_rejected)
    pure (
        content_key_of
          (o.prim.unseal xchacha20_poly1305 key nonce wrapped (recipient_aad payload_id s.kind)))

  try_password : RecipientStanza → Bytes → Bytes → Option StanzaParams → Io (Option Bytes)
  try_password s payload_id password none = pure none
  try_password s payload_id [] (some params) = pure none
  try_password s payload_id (b ∷ password) (some params) = do
    salt ← lift (decode_fixed o.fmt s.salt 32)
    key ← password_key (b ∷ password) params salt
    open_wrapped s payload_id key

  try_raw_key : RecipientStanza → Bytes → Bytes → Io (Option Bytes)
  try_raw_key s payload_id [] = pure none
  try_raw_key s payload_id (b ∷ raw) = do
    salt ← lift (decode_fixed o.fmt s.salt 32)
    key ← lift (derive o.prim (b ∷ raw) salt "cypherstorm/v2/raw-wrap" 32)
    open_wrapped s payload_id key

  -- what age decrypts to: the payload id and the content key, of 64 bytes together
  unfoldable pub public_key_of : Bytes → Option Bytes → Option Bytes
  public_key_of payload_id none = none
  public_key_of payload_id (some text) =
      let plain = take 65 text in
      if length plain == 64 && same (take 32 plain) payload_id then some (drop 32 plain) else none

  try_identity : RecipientStanza → Bytes → Result Bytes → Io (Option Bytes)
  try_identity s payload_id (err e) = pure none
  try_identity s payload_id (ok id) = do
    wrapped ← lift (or_error malformed_base64 (o.fmt.unb64 s.wrapped))
    pure (public_key_of payload_id (o.identities.age_decrypt id wrapped))

  -- a key that was found ends the loop
  or_else : Io (Option Bytes) → Option Bytes → Io (Option Bytes)
  or_else rest (some key) = pure (some key)
  or_else rest none = rest

  try_identities : RecipientStanza → Bytes → List String → Io (Option Bytes)
  try_identities s payload_id [] = pure none
  try_identities s payload_id (path ∷ paths) = do
    found ← try_identity s payload_id (parse_x25519_private o.identities path)
    or_else (try_identities s payload_id paths) found

  -- One stanza: a key, nothing, or an error that ends the loop.
  unfoldable pub try_stanza : Bytes → DecryptOptions → RecipientStanza → Io (Option Bytes)
  unfolding open_wrapped try_password try_raw_key try_identity try_identities or_else
  try_stanza payload_id d s =
      if str_eq s.kind "password"
      then try_password s payload_id d.password s.argon2
      else if str_eq s.kind "raw-key"
      then try_raw_key s payload_id d.raw_key
      else if str_eq s.kind "x25519"
      then try_identities s payload_id d.identity_paths
      else fail unknown_recipient_type

  key_or_next : Io Bytes → Option Bytes → Io Bytes
  key_or_next rest (some key) = pure key
  key_or_next rest none = rest

  unwrap_stanzas : Bytes → DecryptOptions → List RecipientStanza → Io Bytes
  unwrap_stanzas payload_id d [] = fail no_recipient
  unwrap_stanzas payload_id d (s ∷ stanzas) = do
    found ← try_stanza payload_id d s
    key_or_next (unwrap_stanzas payload_id d stanzas) found

  unfoldable pub unwrap_recipients : List RecipientStanza → Bytes → DecryptOptions → Io Bytes
  unfolding unwrap_stanzas key_or_next
  unwrap_recipients stanzas payload_id d = do
    check_context o.env
    unwrap_stanzas payload_id d stanzas
