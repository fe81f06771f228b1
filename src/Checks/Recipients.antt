-- ===== src/Checks/Recipients.antt =====
-- Recipient lists at concrete inputs.
use cypherstorm.Base.{
  pos, List, same, ◌==◌, ◌≤◌, ◌<◌, ◌≡◌, ◌≢◌, inl, refl, false, none, some, [], ◌∷◌, ◌++◌, length,
  codes, arith,
}
use cypherstorm.Fault.{ok}
use cypherstorm.Stream.{World, draw}
use cypherstorm.Security.Kdf.{default_argon2_params, derive_master_key, validate}
use cypherstorm.Container.Header.{
  parse_header, is_invalid, check_stanza, decode_fixed, Header, Formats, RecipientStanza, none_seen,
  check_stanzas, max_recipients,
}
use cypherstorm.Container.Header.Policy.{IsAllowed}
use cypherstorm.Security.Suite.{new_cipher_suite}
use cypherstorm.Security.Codec.{new_codec}
use cypherstorm.Container.Recipients.{RecipientOptions, password_key, wrap_recipients}
use cypherstorm.Container.Recipients.Wrapped.{wrap_recipients-IsAllowed}
use cypherstorm.Container.Rekey.{keep, check_ids, check_replacement}
use cypherstorm.Container.Rekey.Recipients.{replacement-IsAllowed, second_password_refused}
use cypherstorm.Checks.Toy.{outer, world, zeros}

abbrev by_password : RecipientStanza
by_password = record {
  kind = "password";
  id = [];
  salt = "";
  argon2 = some (record { time = 3; memory_kib = 65536; parallelism = 4 });
  nonce = "";
  wrapped = "";
}

abbrev by_public_key : RecipientStanza
by_public_key = record {
  kind = "x25519";
  id = codes "cys-id:a";
  salt = "";
  argon2 = none;
  nonce = "";
  wrapped = "";
}

abbrev header : List RecipientStanza → Header
header recipients = record {
  fixed = record {
    version = pos 2;
    payload_id = "";
    cipher = "aes-256-gcm";
    codec = "gzip";
    record_size = 65536;
    nonce_prefix = "";
  };
  metadata_nonce = "";
  metadata = "";
  recipients = recipients;
  public_hint = [];
}

-- Formats that know one header.
abbrev one_header : List RecipientStanza → Formats
one_header recipients = record {
  b64 = λ b. "";
  unb64 = λ s. some (zeros 32);
  marshal_header = λ h. 1 ∷ [];
  decode_header = λ b. some (header recipients, []);
  at_end = λ b. length b == 0;
  marshal_immutable = λ h. 2 ∷ [];
  marshal_metadata = λ m. [];
  unmarshal_metadata = λ b. none;
}

abbrev two : List RecipientStanza
two = by_password ∷ by_public_key ∷ []

accepted : parse_header (one_header two) (1 ∷ []) ≡ ok (header two, 2 ∷ [])
unfolding parse_header is_invalid check_stanzas check_stanza new_codec new_cipher_suite decode_fixed
    same
accepted = refl

abbrev options : RecipientOptions
options = record { password = codes "pw"; raw_key = []; public_keys = [] }

abbrev after_wrap : World
after_wrap = record (world []) { draws = 2 }

wrapped_once :
    wrap_recipients outer (zeros 32) (zeros 32) options default_argon2_params (world [])
    ≡ (ok (by_password ∷ []), after_wrap)
unfolding wrap_recipients draw password_key derive_master_key validate
wrapped_once = refl

wrap_recipients-IsAllowed_example :
    IsAllowed none_seen (by_password ∷ []) × (0 < 1) × (1 ≤ max_recipients)
wrap_recipients-IsAllowed_example =
    wrap_recipients-IsAllowed outer (zeros 32) (zeros 32) options default_argon2_params (world [])
      after_wrap (by_password ∷ []) wrapped_once

old-IsAllowed : IsAllowed none_seen (by_password ∷ [])
old-IsAllowed = record { known = (refl, tt); one_password = omega arith; fresh_ids = tt }

added-IsAllowed : IsAllowed none_seen (by_public_key ∷ [])
added-IsAllowed = record {
  known = (refl, tt);
  one_password = omega arith;
  fresh_ids = (omega arith, refl, tt);
}

both_checked : check_replacement (keep [] false (by_password ∷ []) ++ by_public_key ∷ []) ≡ ok tt
unfolding check_replacement keep check_ids
both_checked = refl

replacement-IsAllowed_example :
    IsAllowed none_seen (keep [] false (by_password ∷ []) ++ by_public_key ∷ [])
    × (0 < length (keep [] false (by_password ∷ []) ++ by_public_key ∷ []))
    × (length (keep [] false (by_password ∷ []) ++ by_public_key ∷ []) ≤ max_recipients)
replacement-IsAllowed_example =
    replacement-IsAllowed [] false (by_password ∷ []) (by_public_key ∷ []) old-IsAllowed
      added-IsAllowed (inl refl) both_checked

abbrev passwords_twice : List RecipientStanza
passwords_twice = by_password ∷ by_password ∷ []

kept : keep [] false (by_password ∷ []) ≡ by_password ∷ []
unfolding keep
kept = refl

second_password_refused_example :
    (check_replacement (keep [] false (by_password ∷ []) ++ by_password ∷ []) ≡ ok tt)
    × (parse_header (one_header passwords_twice) (1 ∷ []) ≢ ok (header passwords_twice, 2 ∷ []))
second_password_refused_example =
    second_password_refused [] (by_password ∷ []) (by_password ∷ []) (one_header passwords_twice)
      (1 ∷ []) (header passwords_twice) (rw kept (omega arith)) (omega arith)
      (rw kept (omega arith)) (rw kept tt) (rw kept refl)
