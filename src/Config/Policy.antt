-- ===== src/Config/Policy.antt =====
-- internal/config/config.go: the profiles, and the policy that file, profile and environment give.
use cypherstorm.Base.{
  ℕ, ◌*◌, ◌^◌, ◌≡◌, refl, Bool, true, false, Option, none, some, List, [], ◌∷◌, Bytes, codes,
  length, ◌==◌, not, ◌&&◌, ◌||◌, same, if◌then◌else◌, map, leb, ◌+◌,
}
use cypherstorm.Config.{parse_byte_size}

-- `File`; its version and the syntax of TOML are the loader's.
pub record File : Type 0 where
  pub default_compression : Bytes
  pub default_cipher : Bytes
  pub default_record_size : Bytes
  pub default_profile : Bytes
  pub default_destination : Bytes
  pub verify_after : Bool

pub record Policy : Type 0 where
  pub name : Bytes
  pub compression : Bytes
  pub cipher : Bytes
  pub record_size : ℕ
  pub default_destination : Bytes
  pub verify_after : Bool
  pub max_entries : ℕ
  pub max_total_bytes : ℕ

-- The four variables CYPHERSTORM_* that `Resolve` reads; an unset one is empty.
pub record Variables : Type 0 where
  pub profile : Bytes
  pub compression : Bytes
  pub cipher : Bytes
  pub verify_after : Bytes

abbrev pub defaults : File
defaults = record {
  default_compression = codes "gzip";
  default_cipher = codes "aes-256-gcm";
  default_record_size = codes "64KiB";
  default_profile = codes "balanced";
  default_destination = [];
  verify_after = false;
}

abbrev pub profiles : List Policy
profiles =
    record {
      name = codes "fast";
      compression = codes "lz4";
      cipher = codes "xchacha20poly1305";
      record_size = 256 * 2 ^ 10;
      default_destination = [];
      verify_after = false;
      max_entries = 100000;
      max_total_bytes = 8 * 2 ^ 30;
    }
    ∷ record {
      name = codes "balanced";
      compression = codes "gzip";
      cipher = codes "aes-256-gcm";
      record_size = 64 * 2 ^ 10;
      default_destination = [];
      verify_after = false;
      max_entries = 100000;
      max_total_bytes = 8 * 2 ^ 30;
    }
    ∷ record {
      name = codes "hardened";
      compression = codes "zstd";
      cipher = codes "xchacha20poly1305";
      record_size = 64 * 2 ^ 10;
      default_destination = [];
      verify_after = true;
      max_entries = 100000;
      max_total_bytes = 4 * 2 ^ 30;
    }
    ∷ record {
      name = codes "untrusted";
      compression = codes "gzip";
      cipher = codes "aes-256-gcm";
      record_size = 32 * 2 ^ 10;
      default_destination = [];
      verify_after = true;
      max_entries = 10000;
      max_total_bytes = 2 ^ 30;
    }
    ∷ []

-- The lookup in the map of profiles.
unfoldable pub find_policy : Bytes → List Policy → Option Policy
find_policy name [] = none
find_policy name (p ∷ ps) = if same p.name name then some p else find_policy name ps

-- `if value != "" { target = value }`
abbrev pub or_keep : Bytes → Bytes → Bytes
or_keep [] old = old
or_keep (c ∷ cs) old = c ∷ cs

-- The record size of the file, if it names one; `none` is an error.
file_record_size : Bytes → ℕ → Option ℕ
file_record_size [] old = some old
file_record_size (c ∷ cs) old = parse_byte_size (c ∷ cs)

with_size : File → Policy → Option ℕ → Option Policy
with_size cfg base none = none
with_size cfg base (some size) = some (record base {
  compression = or_keep cfg.default_compression base.compression;
  cipher = or_keep cfg.default_cipher base.cipher;
  record_size = size;
  default_destination = cfg.default_destination;
  verify_after = cfg.verify_after || base.verify_after;
})

-- The settings of the file, over a profile that nobody asked for.
unfoldable pub apply_file : File → Policy → Option Policy
unfolding file_record_size with_size
apply_file cfg base = with_size cfg base (file_record_size cfg.default_record_size base.record_size)

lower : Bytes → Bytes
lower = map (λ c. if leb 65 c && leb c 90 then c + 32 else c)

unfoldable pub asks_to_verify : Bytes → Bool
unfolding lower
asks_to_verify value = same value (codes "1") || same (lower value) (codes "true")

unfoldable pub apply_variables : Variables → Policy → Policy
apply_variables env base = record base {
  compression = or_keep env.compression base.compression;
  cipher = or_keep env.cipher base.cipher;
  verify_after = asks_to_verify env.verify_after || base.verify_after;
}

finish : Variables → Option Policy → Option Policy
finish env none = none
finish env (some p) = some (apply_variables env p)

from_profile : Bool → File → Variables → Option Policy → Option Policy
from_profile asked cfg env none = none
from_profile asked cfg env (some base) =
    finish env (if asked then some base else apply_file cfg base)

-- `Resolve`; `none` is an error.
unfoldable pub resolve : File → Variables → Bytes → Option Policy
unfolding finish from_profile
resolve cfg env profile =
    let asked = not (length profile == 0) || not (length env.profile == 0) in
    let name = or_keep profile (or_keep env.profile cfg.default_profile) in
    from_profile asked cfg env (find_policy name profiles)

or_keep-same :
    (a b x y : Bytes)
    → (not (length a == 0) || not (length b == 0)) ≡ true
    → or_keep a (or_keep b x) ≡ or_keep a (or_keep b y)
or_keep-same (c ∷ cs) b x y h = refl
or_keep-same [] (c ∷ cs) x y h = refl
or_keep-same [] [] x y h = cc h

from_profile-same :
    (cfg cfg' : File) (env : Variables) (found : Option Policy)
    → from_profile true cfg env found ≡ from_profile true cfg' env found
unfolding from_profile
from_profile-same cfg cfg' env none = refl
from_profile-same cfg cfg' env (some p) = refl

-- A profile that is named by the caller or by the environment makes the policy independent of the
-- configuration file.
pub resolve-same :
    (cfg cfg' : File) (env : Variables) (profile : Bytes)
    → (not (length profile == 0) || not (length env.profile == 0)) ≡ true
    → resolve cfg env profile ≡ resolve cfg' env profile
unfolding resolve
resolve-same cfg cfg' env profile asked =
    rw (asked, or_keep-same profile env.profile cfg.default_profile cfg'.default_profile asked)
      (from_profile-same cfg cfg' env _)
