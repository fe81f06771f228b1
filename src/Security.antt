-- ===== src/Security.antt =====
-- internal/security and internal/storage/compress: the registries of ciphers and codecs, the key
-- derivation, and the third-party cryptography that they call.
pub mod Primitives
pub mod Suite
pub mod Codec
pub mod Kdf
