-- ===== src/Security/Kdf.antt =====
-- internal/security/kdf/kdf.go. The fields of the parameters are `uint32` and `uint8` values.
pub mod Policy
use cypherstorm.Base.{
  ℕ, zero, suc, ◌+◌, ◌*◌, ◌^◌, ◌≡◌, Bool, Option, none, some, String, Bytes, length, codes, take,
  ltb, ◌==◌, not, if◌then◌else◌,
}
use cypherstorm.Fault.{
  Error, Result, ok, err, ◌>>=◌, ◌>>◌, refuse_if, time_zero, time_too_large, memory_zero,
  memory_too_large, parallelism_zero, parallelism_too_large, memory_below_threads, wrong_key_length,
  password_empty, salt_required, raw_key_size, unknown_source, master_key_empty,
  key_length_not_positive, hkdf_failed,
}
use cypherstorm.Security.Primitives.{Primitives}

abbrev pub master_key_size : ℕ
master_key_size = 32

abbrev pub max_argon2_time : ℕ
max_argon2_time = 10

abbrev pub max_argon2_memory_kib : ℕ
max_argon2_memory_kib = 256 * 1024

abbrev pub max_argon2_parallelism : ℕ
max_argon2_parallelism = 16

pub data SourceKind : Type 0 where
  source_unknown source_raw source_password : SourceKind

pub record Credential : Type 0 where
  pub kind : SourceKind
  pub raw_key : Bytes
  pub password : Bytes

pub record Argon2Params : Type 0 where
  pub time : ℕ
  pub memory_kib : ℕ
  pub parallelism : ℕ
  pub key_length : ℕ

abbrev pub default_argon2_params : Argon2Params
default_argon2_params = record {
  time = 3;
  memory_kib = 64 * 1024;
  parallelism = 4;
  key_length = master_key_size;
}

unfoldable pub validate : Argon2Params → Result (Unit {0})
validate p = do
  refuse_if (p.time == 0) time_zero
  refuse_if (ltb max_argon2_time p.time) time_too_large
  refuse_if (p.memory_kib == 0) memory_zero
  refuse_if (ltb max_argon2_memory_kib p.memory_kib) memory_too_large
  refuse_if (p.parallelism == 0) parallelism_zero
  refuse_if (ltb max_argon2_parallelism p.parallelism) parallelism_too_large
  refuse_if (ltb p.memory_kib (8 * p.parallelism)) memory_below_threads
  refuse_if (not (p.key_length == master_key_size)) wrong_key_length

derive_from : Primitives → SourceKind → Credential → Argon2Params → Bytes → Result Bytes
derive_from prim source_password cred params salt = do
  refuse_if (length cred.password == 0) password_empty
  validate params
  refuse_if (length salt == 0) salt_required
  ok (
      prim.argon2 cred.password salt params.time params.memory_kib params.parallelism
        params.key_length)
derive_from prim source_raw cred params salt = do
  refuse_if (not (length cred.raw_key == master_key_size)) raw_key_size
  ok cred.raw_key
derive_from prim source_unknown cred params salt = err unknown_source

-- The first argument is what `ctx.Err()` returns.
unfoldable pub derive_master_key :
    Primitives → Option Error → Credential → Argon2Params → Bytes → Result Bytes
unfolding derive_from
derive_master_key prim (some e) cred params salt = err e
derive_master_key prim none cred params salt = derive_from prim cred.kind cred params salt

expanded : Option Bytes → Result Bytes
expanded none = err hkdf_failed
expanded (some key) = ok key

-- A negative `keyLen` is 0 here: both are refused.
unfoldable pub derive_file_key : Primitives → Bytes → Bytes → Bytes → ℕ → Result Bytes
unfolding expanded
derive_file_key prim master_key salt info key_len = do
  refuse_if (length master_key == 0) master_key_empty
  refuse_if (length salt == 0) salt_required
  refuse_if (key_len == 0) key_length_not_positive
  expanded (prim.hkdf master_key salt info key_len)
