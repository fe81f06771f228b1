-- ===== src/Stream.antt =====
-- io.Reader, io.Writer, context.Context and crypto/rand as the container code uses them. The
-- outside world is a section parameter (`Env`); what the code reads from, what it has written and
-- how often it drew randomness are the state (`World`).
pub mod Laws
use cypherstorm.Base.{
  ◌==◌, not, ℕ, zero, suc, ◌+◌, ◌≡◌, refl, Bool, Option, none, some, List, [], ◌∷◌, ◌++◌, Bytes,
  length, take, drop, leb, ltb, if◌then◌else◌,
}
use cypherstorm.Fault.{
  Error, Result, ok, err, cancelled, eof, unexpected_eof, short_write, entropy_failed,
}

-- The bytes that a reader still delivers, and the error that it then gives in place of io.EOF.
pub record Reader : Type 0 where
  pub bytes : Bytes
  pub fault : Option Error

pub data Status : Type 0 where
  filled : Status
  ended : Error → Status

pub record Read : Type 0 where
  pub got : Bytes
  pub status : Status
  pub rest : Reader

-- io.ReadFull at the end of the input: EOF if nothing was read, ErrUnexpectedEOF if something was,
-- and the reader's own error otherwise.
abbrev pub end_error : Option Error → Bytes → Error
end_error (some e) got = e
end_error none [] = eof
end_error none (b ∷ got) = unexpected_eof

-- io.ReadFull into a buffer of `n` bytes.
unfoldable pub read_full : ℕ → Reader → Read
read_full n r =
    if leb n (length r.bytes)
    then (record {
      got = take n r.bytes;
      status = filled;
      rest = record r { bytes = drop n r.bytes };
    })
    else (record {
      got = r.bytes;
      status = ended (end_error r.fault r.bytes);
      rest = record r { bytes = [] };
    })

pub record World : Type 0 where
  pub source : Reader
  pub written : Bytes
  pub draws : ℕ

-- What the environment decides: whether the context is cancelled when it is asked, how many bytes of
-- a chunk a Write takes and the error it returns, and the bytes of each read of crypto/rand.
pub record Env : Type 0 where
  pub ctx_err : World → Option Error
  pub accept : Bytes → Bytes → ℕ × Option Error
  pub entropy : ℕ → ℕ → Option Bytes

abbrev pub Io {ℓ} : Type ℓ → Type ℓ
Io A = World → Result A × World

abbrev pub continue {ℓ} : {A B : Type ℓ} → (A → Io B) → Result A × World → Result B × World
continue f (ok a, w) = f a w
continue f (err e, w) = (err e, w)

infixl 5 ◌>>=◌ ◌>>◌
abbrev pub ◌>>=◌ {ℓ} : {A B : Type ℓ} → Io A → (A → Io B) → Io B
◌>>=◌ m f w = continue f (m w)

abbrev pub ◌>>◌ {ℓ} : {A B : Type ℓ} → Io A → Io B → Io B
◌>>◌ m k w = continue (λ _. k) (m w)

abbrev pub pure {ℓ} : {A : Type ℓ} → A → Io A
pure a w = (ok a, w)

abbrev pub fail {ℓ} : {A : Type ℓ} → Error → Io A
fail e w = (err e, w)

abbrev pub lift {ℓ} : {A : Type ℓ} → Result A → Io A
lift r w = (r, w)

abbrev raise_some : Option Error → Result (Unit {0})
raise_some none = ok tt
raise_some (some e) = err e

module _ (env : Env) where
  -- `if err := ctx.Err(); err != nil { return err }`
  unfoldable pub check_context : Io (Unit {0})
  check_context w = (raise_some (env.ctx_err w), w)

  -- `rand.Read` of `n` bytes.
  unfoldable pub draw : ℕ → Io Bytes
  draw n w = (
    elim (env.entropy w.draws n) [ none ↦ err entropy_failed | some b ↦ ok b ],
    record w { draws = w.draws + 1 },
  )

  -- `if _, err := w.Write(b); err != nil { return err }`
  unfoldable pub write : Bytes → Io (Unit {0})
  write b w =
      let (n, e) = env.accept w.written b in
      (raise_some e, record w { written = w.written ++ take n b })

  -- A Write whose count is compared with the length of the chunk too.
  unfoldable pub write_whole : Bytes → Io (Unit {0})
  write_whole b w =
      let (n, e) = env.accept w.written b in
      (
        elim e [ some x ↦ err x | none ↦ if not (n == length b) then err short_write else ok tt ],
        record w { written = w.written ++ take n b },
      )
