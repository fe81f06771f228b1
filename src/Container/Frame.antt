-- ===== src/Container/Frame.antt =====
-- Record framing: `writeRecord`, `readRecord`, and the big-endian integers of encoding/binary.
pub mod RoundTrip
pub mod Parse
use cypherstorm.Base.{
  ℕ, zero, suc, ◌+◌, ◌*◌, ◌/◌, ◌%◌, ◌^◌, ◌≡◌, refl, Bool, Option, none, some, List, [], ◌∷◌, ◌++◌,
  Bytes, length, drop, get_or, ltb, if◌then◌else◌,
}
use cypherstorm.Fault.{Error, Result, ok, err, eof, record_length_limit}
use cypherstorm.Stream.{
  Reader, Read, Status, filled, ended, read_full, World, Env, Io, ◌>>=◌, ◌>>◌, write_whole,
}

-- binary.BigEndian.PutUint32(b, uint32(n))
abbrev pub be32 : ℕ → Bytes
be32 n = (n / 2 ^ 24 % 256) ∷ (n / 2 ^ 16 % 256) ∷ (n / 2 ^ 8 % 256) ∷ (n % 256) ∷ []

-- binary.BigEndian.PutUint64
abbrev pub be64 : ℕ → Bytes
be64 n = (n / 2 ^ 56 % 256) ∷ (n / 2 ^ 48 % 256) ∷ (n / 2 ^ 40 % 256) ∷ (n / 2 ^ 32 % 256) ∷ be32 n

-- binary.BigEndian.Uint32, of a slice with four bytes at least.
abbrev pub uint32 : Bytes → ℕ
uint32 (a ∷ b ∷ c ∷ d ∷ rest) = a * 2 ^ 24 + b * 2 ^ 16 + c * 2 ^ 8 + d
uint32 _ = 0

-- binary.BigEndian.Uint64, of a slice with eight bytes at least.
abbrev pub uint64 : Bytes → ℕ
uint64 (a ∷ b ∷ c ∷ d ∷ rest) = a * 2 ^ 56 + b * 2 ^ 48 + c * 2 ^ 40 + d * 2 ^ 32 + uint32 rest
uint64 _ = 0

pub record Frame : Type 0 where
  pub typ : ℕ
  pub index : ℕ
  pub ciphertext : Bytes

-- The 13 bytes in front of a record's ciphertext.
unfoldable pub frame_header : ℕ → ℕ → Bytes → Bytes
frame_header typ index ciphertext = typ ∷ be64 index ++ be32 (length ciphertext)

unfoldable pub write_record : Env → ℕ → ℕ → Bytes → Io (Unit {0})
write_record env typ index ciphertext = do
  write_whole env (frame_header typ index ciphertext)
  write_whole env ciphertext

-- The record of a body that was read whole; an early end is the error of `readRecord`.
frame_of : Bytes → Status → Bytes → Result Frame
frame_of h filled body =
    ok (record { typ = get_or h 0 0; index = uint64 (drop 1 h); ciphertext = body })
frame_of h (ended e) body = err e

-- The second half of `readRecord`, with the 13 bytes `h` in hand.
unfoldable pub read_body : ℕ → Bytes → Reader → Result Frame × Reader
unfolding frame_of
read_body max h r =
    let n = uint32 (drop 9 h) in
    let body = read_full n r in
    if ltb ((max + 64) % 2 ^ 32) n
    then (err record_length_limit, r)
    else (frame_of h body.status body.got, body.rest)

after_header : ℕ → Status → Bytes → Reader → Result Frame × Reader
after_header max filled h r = read_body max h r
after_header max (ended e) h r = (err e, r)

unfoldable pub read_record : ℕ → Reader → Result Frame × Reader
unfolding after_header
read_record max r = let h = read_full 13 r in after_header max h.status h.got h.rest
