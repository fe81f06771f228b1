-- ===== src/Checks/Toy.antt =====
-- Concrete surroundings for the tests: a quiet environment, and an AEAD that puts sixteen zero bytes
-- in front of the text. It meets the laws that the theorems ask for, and protects nothing.
use cypherstorm.Base.{
  ℤ, pos, negsuc, ◌≡◌, ℕ, zero, suc, refl, true, none, some, [], ◌∷◌, ◌++◌, Bytes, length, drop,
  take, arith,
}
use cypherstorm.Stream.{World, Env}
use cypherstorm.Stream.Laws.{IsQuiet, IsHonest, plain}
use cypherstorm.Security.Primitives.{Primitives, IsAead, aes_256_gcm}
use cypherstorm.Credential.Identity.{Outside}
use cypherstorm.Container.Payload.{Session}
use cypherstorm.Container.Payload.Opening.{Fits}
use cypherstorm.Container.Header.{Formats, ImmutableHeader}
use cypherstorm.Container.Recipients.{Outer}

abbrev pub zeros : ℕ → Bytes
zeros zero = []
zeros (suc n) = 0 ∷ zeros n

abbrev tagged : Bytes → Bytes
tagged text = 0 ∷ 0 ∷ 0 ∷ 0 ∷ 0 ∷ 0 ∷ 0 ∷ 0 ∷ 0 ∷ 0 ∷ 0 ∷ 0 ∷ 0 ∷ 0 ∷ 0 ∷ 0 ∷ text

abbrev pub prim : Primitives
prim = record {
  takes_key = λ s k. true;
  overhead = λ s. 16;
  seal = λ s k n text a. tagged text;
  unseal = λ s k n c a. some (drop 16 c);
  hkdf = λ secret salt info n. some (zeros n);
  argon2 = λ p salt t m par n. zeros n;
}

pub prim-IsAead : IsAead prim
prim-IsAead = record {
  overhead_is = λ s. refl;
  length-seal = λ s k n text a. omega arith;
  unseal-seal = λ s k n text a. refl;
}

abbrev pub env : Env
env = record {
  ctx_err = λ w. none;
  accept = λ before chunk. (length chunk, none);
  entropy = λ k n. some (zeros n);
}

pub env-IsQuiet : IsQuiet env
env-IsQuiet = record { live = λ w. refl; takes = λ b c. refl }

pub env-IsHonest : IsHonest env
env-IsHonest = record { takes_all = λ b c h. refl }

abbrev pub session : Session
session = record {
  suite = aes_256_gcm;
  payload_key = zeros 32;
  prefix = zeros 4;
  aad = [];
  record_size = 4;
}

pub session-Fits : Fits prim session
session-Fits = record { size_pos = omega arith; size-le = omega arith; aead = prim-IsAead }

abbrev pub world : Bytes → World
world b = record { source = plain b; written = []; draws = 0 }

abbrev fixed : ImmutableHeader
fixed = record {
  version = pos 2;
  payload_id = "";
  cipher = "aes-256-gcm";
  codec = "gzip";
  record_size = 4;
  nonce_prefix = "";
}

abbrev formats : Formats
formats = record {
  b64 = λ b. "";
  unb64 = λ s. some [];
  marshal_header = λ h. [];
  decode_header = λ b. none;
  at_end = λ b. true;
  marshal_immutable = λ h. [];
  marshal_metadata = λ m. [];
  unmarshal_metadata = λ b. none;
}

abbrev outside : Outside
outside = record {
  open_file = λ path. none;
  unmarshal_private = λ b. none;
  sha256 = λ b. take 32 (b ++ zeros 32);
  parse_recipient = λ b. some b;
  parse_identity = λ b. some b;
  age_encrypt = λ k r text. some text;
  age_decrypt = λ i text. some text;
}

abbrev pub outer : Outer
outer = record { env = env; prim = prim; fmt = formats; identities = outside }

-- An int as two numbers, and back.
abbrev pub sign_of : ℤ → ℕ
sign_of (pos n) = 0
sign_of (negsuc n) = 1

abbrev pub magnitude : ℤ → ℕ
magnitude (pos n) = n
magnitude (negsuc n) = n

abbrev pub int_of : ℕ → ℕ → ℤ
int_of zero n = pos n
int_of (suc k) n = negsuc n

pub int_of-sign_of : (z : ℤ) → int_of (sign_of z) (magnitude z) ≡ z
int_of-sign_of (pos n) = refl
int_of-sign_of (negsuc n) = refl
