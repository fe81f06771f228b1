-- ===== src/Container/Header.antt =====
-- The header of a container: its types, the checks of `readHeader`, and the formats (JSON, base64)
-- that it is written in.
pub mod Policy
pub mod Readable
use cypherstorm.Base.{
  ℤ, pos, same_int, ℕ, zero, suc, ◌+◌, ◌^◌, ◌*◌, ◌≡◌, Bool, true, false, Option, none, some, List,
  [], ◌∷◌, ◌++◌, String, str_eq, Bytes, length, ltb, ◌==◌, not, ◌||◌, same, if◌then◌else◌,
}
use cypherstorm.Fault.{
  Error, Result, ok, err, ◌>>=◌, ◌>>◌, refuse_if, malformed_fixed, many_passwords, id_required,
  duplicate_recipient, unknown_recipient_type, malformed_json, trailing_json, not_canonical,
  invalid_header,
}
use cypherstorm.Security.Primitives.{Suite}
use cypherstorm.Security.Suite.{new_cipher_suite}
use cypherstorm.Security.Codec.{Codec, new_codec}

-- 'C', 'Y', 'S', 'V', '2', 0, 0, 0
abbrev pub magic : Bytes
magic = 67 ∷ 89 ∷ 83 ∷ 86 ∷ 50 ∷ 0 ∷ 0 ∷ 0 ∷ []

abbrev pub version : ℤ
version = pos 2

abbrev pub max_header_size : ℕ
max_header_size = 2 ^ 20

abbrev pub max_recipients : ℕ
max_recipients = 64

abbrev pub max_metadata_size : ℕ
max_metadata_size = 2 ^ 20

abbrev pub max_record_size : ℕ
max_record_size = 16 * 2 ^ 20

pub record Metadata : Type 0 where
  pub original_name : Bytes
  pub source_type : Bytes
  pub protected_at : Bytes
  pub description : Bytes
  pub tags : List Bytes
  pub credential_hint : Bytes
  pub credential_fingerprint : Bytes

-- The three costs that a password stanza carries.
pub record StanzaParams : Type 0 where
  pub time : ℕ
  pub memory_kib : ℕ
  pub parallelism : ℕ

pub record RecipientStanza : Type 0 where
  pub kind : String
  pub id : Bytes
  pub salt : String
  pub argon2 : Option StanzaParams
  pub nonce : String
  pub wrapped : String

pub record ImmutableHeader : Type 0 where
  pub version : ℤ
  pub payload_id : String
  pub cipher : String
  pub codec : String
  pub record_size : ℕ
  pub nonce_prefix : String

pub record Header : Type 0 where
  pub fixed : ImmutableHeader
  pub metadata_nonce : String
  pub metadata : String
  pub recipients : List RecipientStanza
  pub public_hint : Bytes

-- encoding/json and encoding/base64. `decode_header` is the strict decoder: the header and what it
-- has left unread; `at_end` says that a further Decode of the rest is io.EOF.
pub record Formats : Type 0 where
  pub b64 : Bytes → String
  pub unb64 : String → Option Bytes
  pub marshal_header : Header → Bytes
  pub decode_header : Bytes → Option (Header × Bytes)
  pub at_end : Bytes → Bool
  pub marshal_immutable : ImmutableHeader → Bytes
  pub marshal_metadata : Metadata → Bytes
  pub unmarshal_metadata : Bytes → Option Metadata

fixed_of : ℕ → Option Bytes → Result Bytes
fixed_of n none = err malformed_fixed
fixed_of n (some b) = if not (length b == n) then err malformed_fixed else ok b

unfoldable pub decode_fixed : Formats → String → ℕ → Result Bytes
unfolding fixed_of
decode_fixed fmt s n = fixed_of n (fmt.unb64 s)

-- `passwordRecipients` and `recipientIDs`
pub record Seen : Type 0 where
  pub passwords : ℕ
  pub ids : List Bytes

abbrev pub has : Bytes → List Bytes → Bool
has x [] = false
has x (y ∷ ys) = same x y || has x ys

unfoldable pub check_stanza : Seen → RecipientStanza → Result Seen
check_stanza seen s =
    if str_eq s.kind "password"
    then if ltb 1 (seen.passwords + 1)
      then err many_passwords
      else ok (record seen { passwords = seen.passwords + 1 })
    else if str_eq s.kind "raw-key"
    then ok seen
    else if str_eq s.kind "x25519"
    then if length s.id == 0
      then err id_required
      else if has s.id seen.ids
      then err duplicate_recipient
      else ok (record seen { ids = s.id ∷ seen.ids })
    else err unknown_recipient_type

-- The loop over the recipients in `readHeader`.
unfoldable pub check_stanzas : Seen → List RecipientStanza → Result Seen
check_stanzas seen [] = ok seen
check_stanzas seen (s ∷ stanzas) = do seen' ← check_stanza seen s; check_stanzas seen' stanzas

abbrev pub none_seen : Seen
none_seen = record { passwords = 0; ids = [] }

-- The range checks of `readHeader`.
unfoldable pub is_invalid : Header → Bool
is_invalid h =
    not (same_int h.fixed.version version)
    || h.fixed.record_size == 0
    || ltb max_record_size h.fixed.record_size
    || length h.recipients == 0
    || ltb max_recipients (length h.recipients)

decoded : Option (Header × Bytes) → Result (Header × Bytes)
decoded none = err malformed_json
decoded (some x) = ok x

-- What `readHeader` does with the header's bytes.
unfoldable pub parse_header : Formats → Bytes → Result (Header × Bytes)
unfolding decoded
parse_header fmt bytes = do
  (h, unread) ← decoded (fmt.decode_header bytes)
  refuse_if (not (fmt.at_end unread)) trailing_json
  refuse_if (not (same bytes (fmt.marshal_header h))) not_canonical
  refuse_if (is_invalid h) invalid_header
  check_stanzas none_seen h.recipients
  new_codec h.fixed.codec
  new_cipher_suite h.fixed.cipher
  decode_fixed fmt h.fixed.payload_id 32
  ok (h, fmt.marshal_immutable h.fixed)
