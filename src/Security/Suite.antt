-- ===== src/Security/Suite.antt =====
-- internal/security/crypto/suite.go
use cypherstorm.Base.{ℕ, List, [], ◌∷◌, String, str_eq, Bytes, length, ◌==◌, if◌then◌else◌, not}
use cypherstorm.Fault.{Result, ok, err, ◌>>◌, refuse_if, unsupported_cipher, key_rejected}
use cypherstorm.Security.Primitives.{Primitives, Suite, aes_256_gcm, xchacha20_poly1305}

unfoldable pub id : Suite → String
id aes_256_gcm = "aes-256-gcm"
id xchacha20_poly1305 = "xchacha20poly1305"

pub all_cipher_ids : List String
all_cipher_ids = "aes-256-gcm" ∷ "xchacha20poly1305" ∷ []

unfoldable pub new_cipher_suite : String → Result Suite
new_cipher_suite id =
    if str_eq id "aes-256-gcm"
    then ok aes_256_gcm
    else if str_eq id "xchacha20poly1305"
    then ok xchacha20_poly1305
    else err unsupported_cipher

abbrev pub key_size : Suite → ℕ
key_size aes_256_gcm = 32
key_size xchacha20_poly1305 = 32

abbrev pub nonce_size : Suite → ℕ
nonce_size aes_256_gcm = 12
nonce_size xchacha20_poly1305 = 24

-- The suite's AEAD, which here is the suite with the key; the key is checked as the source does.
unfoldable pub new_aead : Primitives → Suite → Bytes → Result (Unit {0})
new_aead p aes_256_gcm key = do
  refuse_if (not (length key == 32)) key_rejected
  refuse_if (not (p.takes_key aes_256_gcm key)) key_rejected
new_aead p xchacha20_poly1305 key =
    refuse_if (not (p.takes_key xchacha20_poly1305 key)) key_rejected
