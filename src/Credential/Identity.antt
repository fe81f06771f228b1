-- ===== src/Credential/Identity.antt =====
-- internal/credential/identity/identity.go: the identities that the container uses. The files, JSON,
-- SHA-256 and filippo.io/age are outside the program and enter as `Outside`.
pub mod Text
use cypherstorm.Base.{
  ℤ, pos, same_int, ℕ, zero, suc, ◌+◌, ◌/◌, ◌%◌, ◌^◌, ◌*◌, ◌≡◌, Bool, Option, none, some, List, [],
  ◌∷◌, ◌++◌, String, str_eq, Bytes, codes, length, take, drop, ltb, ◌==◌, not, ◌||◌, ◌&&◌,
  if◌then◌else◌,
}
use cypherstorm.Fault.{
  Error, Result, ok, err, ◌>>=◌, ◌>>◌, refuse_if, open_failed, unstable_file, input_size,
  malformed_json, malformed_private, wrong_identity_type, age_failed, empty_public_key,
}

abbrev pub max_identity_size : ℕ
max_identity_size = 2 ^ 20

pub record Private : Type 0 where
  pub version : ℤ
  pub kind : String
  pub secret : Bytes

pub record Public : Type 0 where
  pub version : ℤ
  pub kind : String
  pub key : Bytes
  pub label : Bytes

-- What `loadPrivate` finds out about an open file and its path.
pub record OpenFile : Type 0 where
  pub regular : Bool
  pub path_is_symlink : Bool
  pub same_file : Bool
  pub content : Bytes

-- An age recipient or identity is the byte string that it stands for.
pub record Outside : Type 0 where
  pub open_file : String → Option OpenFile
  pub unmarshal_private : Bytes → Option Private
  pub sha256 : Bytes → Bytes
  pub parse_recipient : Bytes → Option Bytes
  pub parse_identity : Bytes → Option Bytes
  -- the first argument is the state of the randomness
  pub age_encrypt : ℕ → Bytes → Bytes → Option Bytes
  pub age_decrypt : Bytes → Bytes → Option Bytes

abbrev pub or_error {ℓ} : {A : Type ℓ} → Error → Option A → Result A
or_error e none = err e
or_error e (some a) = ok a

unfoldable pub bounded_read_from : Bytes → Result Bytes
bounded_read_from content = do
  refuse_if (ltb max_identity_size (length content)) input_size
  ok content

unfoldable pub load_private : Outside → String → Result Private
unfolding bounded_read_from
load_private out path = do
  f ← or_error open_failed (out.open_file path)
  refuse_if (not f.regular || f.path_is_symlink || not f.same_file) unstable_file
  content ← bounded_read_from f.content
  p ← or_error malformed_json (out.unmarshal_private content)
  refuse_if (not (same_int p.version (pos 1)) || ltb 8192 (length p.secret)) malformed_private
  ok p

unfoldable pub parse_x25519_private : Outside → String → Result Bytes
parse_x25519_private out path = do
  p ← load_private out path
  refuse_if (not (str_eq p.kind "x25519")) wrong_identity_type
  or_error age_failed (out.parse_identity p.secret)

unfoldable pub parse_x25519_recipient : Outside → Public → Result Bytes
parse_x25519_recipient out p = do
  refuse_if (not (str_eq p.kind "x25519")) wrong_identity_type
  or_error age_failed (out.parse_recipient p.key)

-- A lower-case hexadecimal digit.
unfoldable pub hex_digit : ℕ → ℕ
hex_digit n = if ltb n 10 then b'0' + n else b'W' + n

abbrev pub hex : Bytes → Bytes
hex [] = []
hex (b ∷ bytes) = hex_digit (b / 16) ∷ hex_digit (b % 16) ∷ hex bytes

-- `fmt.Sprintf("cys-id:%s:%s:%s:%s", ...)` of the 16 digits
unfoldable pub fingerprint_text : Bytes → Bytes
fingerprint_text x =
    codes "cys-id:"
    ++ take 4 x
    ++ codes ":"
    ++ take 4 (drop 4 x)
    ++ codes ":"
    ++ take 4 (drop 8 x)
    ++ codes ":"
    ++ take 4 (drop 12 x)

unfoldable pub fingerprint : Outside → Public → Result Bytes
unfolding fingerprint_text hex_digit
fingerprint out p = do
  refuse_if (length p.key == 0) empty_public_key
  let digest =
      out.sha256
        (codes "cypherstorm/" ++ codes p.kind ++ codes "-fingerprint/v1" ++ (0 ∷ []) ++ p.key)
  ok (fingerprint_text (hex (take 8 digest)))
