-- ===== src/Security/Primitives.antt =====
-- The cryptography that the program calls and does not implement (crypto/aes, crypto/cipher,
-- golang.org/x/crypto): a value of `Primitives` is an argument of the code that uses it, and
-- `IsAead` is the documented behaviour of an AEAD that some theorems rely on.
use cypherstorm.Base.{ℕ, ◌+◌, ◌≡◌, Bool, Option, some, Bytes, length}

-- The AEADs of internal/security/crypto/suite.go.
pub data Suite : Type 0 where
  aes_256_gcm xchacha20_poly1305 : Suite

pub record Primitives : Type 0 where
  -- aes.NewCipher and cipher.NewGCM, or chacha20poly1305.NewX, take this key
  pub takes_key : Suite → Bytes → Bool
  -- AEAD.Overhead, AEAD.Seal and AEAD.Open: key, nonce, text, additional data
  pub overhead : Suite → ℕ
  pub seal : Suite → Bytes → Bytes → Bytes → Bytes → Bytes
  pub unseal : Suite → Bytes → Bytes → Bytes → Bytes → Option Bytes
  -- reading the given number of bytes from hkdf.New(sha256.New, secret, salt, info)
  pub hkdf : Bytes → Bytes → Bytes → ℕ → Option Bytes
  -- argon2.IDKey: password, salt, time, memory, threads, key length
  pub argon2 : Bytes → Bytes → ℕ → ℕ → ℕ → ℕ → Bytes

pub record IsAead (p : Primitives) : Type 0 where
  -- the tag of both suites has 16 bytes
  pub overhead_is : (s : Suite) → p.overhead s ≡ 16
  pub length-seal :
      (s : Suite) (key nonce text aad : Bytes)
      → length (p.seal s key nonce text aad) ≡ length text + p.overhead s
  -- what was sealed opens under the same key, nonce and additional data
  pub unseal-seal :
      (s : Suite) (key nonce text aad : Bytes)
      → p.unseal s key nonce (p.seal s key nonce text aad) aad ≡ some text
