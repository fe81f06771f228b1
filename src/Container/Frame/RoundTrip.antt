-- ===== src/Container/Frame/RoundTrip.antt =====
-- Reading back what `writeRecord` wrote, and what a successful `readRecord` has read.
use cypherstorm.Base.{
  ℕ, ◌+◌, ◌%◌, ◌^◌, ◌≤◌, ◌<◌, ◌≡◌, refl, ap, Option, ◌++◌, arith, Bytes, length, drop, get_or,
  le→ltb, append_assoc,
}
use cypherstorm.Fault.{Error, ok}
use cypherstorm.Stream.{World, Env}
use cypherstorm.Stream.Laws.{read_full_front, IsQuiet, write_whole_quiet}
use cypherstorm.Container.Frame.{
  be32, be64, uint32, uint64, Frame, frame_header, write_record, read_body, read_record,
}

pub uint32-be32 : (n : ℕ) → n < 2 ^ 32 → uint32 (be32 n) ≡ n
uint32-be32 n h = omega arith

pub uint64-be64 : (n : ℕ) (rest : Bytes) → n < 2 ^ 64 → uint64 (be64 n ++ rest) ≡ n
uint64-be64 n rest h = omega arith

unfoldable pub encode : Frame → Bytes
encode fr = frame_header fr.typ fr.index fr.ciphertext ++ fr.ciphertext

pub write_record_quiet :
    {env : Env} (quiet : IsQuiet env) (typ index : ℕ) (c : Bytes) (w : World)
    → write_record env typ index c w ≡ (
      ok tt,
      record w {
        written = w.written ++ encode (record { typ = typ; index = index; ciphertext = c });
      },
    )
unfolding write_record encode
write_record_quiet quiet typ index c w =
    rw (write_whole_quiet quiet (frame_header typ index c) w) rw (write_whole_quiet quiet c _)
      (ap (λ b. (ok tt, record w { written = b })) (append_assoc w.written _ c))

length-frame_header : (typ index : ℕ) (c : Bytes) → length (frame_header typ index c) ≡ 13
unfolding frame_header
length-frame_header typ index c = refl

-- What `readRecord` takes from the 13 bytes.
record Fields (typ index : ℕ) (c : Bytes) : Type 0 where
  typ_is : get_or (frame_header typ index c) 0 0 ≡ typ
  index_is : uint64 (drop 1 (frame_header typ index c)) ≡ index
  length_is : uint32 (drop 9 (frame_header typ index c)) ≡ length c

frame_header-Fields :
    (typ index : ℕ) (c : Bytes) → index < 2 ^ 64 → length c < 2 ^ 32 → Fields typ index c
unfolding frame_header
frame_header-Fields typ index c i l = record {
  typ_is = refl;
  index_is = uint64-be64 index (be32 (length c)) i;
  length_is = uint32-be32 (length c) l;
}

read_body-encode :
    (max : ℕ) (fr : Frame) (rest : Bytes) (e : Option Error)
    → fr.index < 2 ^ 64
    → length fr.ciphertext ≤ max + 64
    → max + 64 < 2 ^ 32
    → read_body max
        (frame_header fr.typ fr.index fr.ciphertext)
        (record { bytes = fr.ciphertext ++ rest; fault = e })
      ≡ (ok fr, record { bytes = rest; fault = e })
unfolding read_body
read_body-encode max fr rest e i l m =
    let f = frame_header-Fields fr.typ fr.index fr.ciphertext i (omega arith) in
    rw (
      f.length_is,
      le→ltb ((max + 64) % 2 ^ 32) (length fr.ciphertext) (omega arith),
      read_full_front (length fr.ciphertext) fr.ciphertext rest e refl,
      f.typ_is,
      f.index_is,
    )

-- Reading a written frame gives the frame back and leaves what follows it, for an index below 2^64 and
-- a ciphertext within a limit that fits the 32-bit length field.
pub read_record-encode :
    (max : ℕ) (fr : Frame) (rest : Bytes) (e : Option Error)
    → fr.index < 2 ^ 64
    → length fr.ciphertext ≤ max + 64
    → max + 64 < 2 ^ 32
    → read_record max (record { bytes = encode fr ++ rest; fault = e })
      ≡ (ok fr, record { bytes = rest; fault = e })
unfolding read_record encode
read_record-encode max fr rest e i l m =
    let h = frame_header fr.typ fr.index fr.ciphertext in
    rw
      (
        append_assoc h fr.ciphertext rest,
        read_record,
        read_full_front 13 h (fr.ciphertext ++ rest) e
            (length-frame_header fr.typ fr.index fr.ciphertext),
      )
      (read_body-encode max fr rest e i l m)
