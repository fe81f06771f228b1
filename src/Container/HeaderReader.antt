-- ===== src/Container/HeaderReader.antt =====
-- `readHeader`: magic, length, and the header's bytes, read from the front of a container.
use cypherstorm.Base.{ℕ, Bytes, ltb, ◌==◌, not, ◌||◌, same}
use cypherstorm.Fault.{Result, ok, err, refuse_if, bad_magic, header_length}
use cypherstorm.Stream.{Status, filled, ended, read_full, Io, ◌>>=◌, ◌>>◌, pure, lift}
use cypherstorm.Container.Frame.{uint32}
use cypherstorm.Container.Header.{magic, max_header_size, Header, Formats, parse_header}

whole_read : Status → Bytes → Result Bytes
whole_read filled b = ok b
whole_read (ended e) b = err e

-- io.ReadFull of a fixed buffer; an early end is returned as the error.
read_exact : ℕ → Io Bytes
unfolding whole_read
read_exact n w =
    let r = read_full n w.source in (whole_read r.status r.got, record w { source = r.rest })

-- `readHeader`: the header, its length and the additional data.
pub record HeaderRead : Type 0 where
  pub header : Header
  pub size : ℕ
  pub aad : Bytes

unfoldable pub read_header : Formats → Io HeaderRead
unfolding read_exact
read_header fmt = do
  m ← read_exact 8
  lift (refuse_if (not (same m magic)) bad_magic)
  length_bytes ← read_exact 4
  let n = uint32 length_bytes
  lift (refuse_if (n == 0 || ltb max_header_size n) header_length)
  bytes ← read_exact n
  (h, aad) ← lift (parse_header fmt bytes)
  pure (record { header = h; size = n; aad = aad })
