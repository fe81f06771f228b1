-- ===== src/Container/Payload.antt =====
-- The payload loops of `Encrypt` and `Decrypt`: records of at most `record_size` bytes, numbered
-- from 0, and a final record that commits to the count and the totals. A Go `uint64` keeps its
-- wrap-around as `% 2 ^ 64`.
pub mod Sealing
pub mod Opening
pub mod Chain
pub mod RoundTrip
pub mod Integrity
pub mod Complete
use cypherstorm.Base.{
  ℕ, zero, suc, ◌+◌, ◌-◌, ◌%◌, ◌^◌, ◌≡◌, Bool, true, false, Option, none, some, List, [], ◌∷◌, ◌++◌,
  Bytes, length, take, drop, ltb, ◌==◌, not, ◌||◌, if◌then◌else◌,
}
use cypherstorm.Fault.{
  Error, Result, ok, err, refuse_if, eof, unexpected_eof, out_of_fuel, trailing_bytes, index_gap,
  payload_auth, record_too_large, malformed_final, commitment_mismatch, unknown_record_type,
  missing_final,
}
use cypherstorm.Fault
use cypherstorm.Stream.{
  Reader, Status, filled, ended, read_full, World, Env, Io, continue, ◌>>=◌, ◌>>◌, pure, fail, lift,
  check_context, write,
}
use cypherstorm.Security.Primitives.{Primitives, Suite}
use cypherstorm.Security.Suite.{nonce_size}
use cypherstorm.Container.Frame.{be64, uint64, Frame, write_record, read_record}

abbrev zeros : ℕ → Bytes
zeros zero = []
zeros (suc n) = 0 ∷ zeros n

-- `copy(n, prefix)` into `size` zero bytes, then the index over the last eight.
unfoldable pub record_nonce : Bytes → ℕ → ℕ → Bytes
record_nonce prefix index size = take (size - 8) (prefix ++ zeros size) ++ be64 index

unfoldable pub record_aad : Bytes → ℕ → ℕ → Bytes
record_aad header typ index = header ++ typ ∷ be64 index

-- What the loops use of the container: its suite, the payload key, the nonce prefix, the immutable
-- header as additional data, and the record size.
pub record Session : Type 0 where
  pub suite : Suite
  pub payload_key : Bytes
  pub prefix : Bytes
  pub aad : Bytes
  pub record_size : ℕ

module _ (prim : Primitives) (s : Session) where
  unfoldable pub seal_record : ℕ → ℕ → Bytes → Bytes
  seal_record typ index text =
      prim.seal s.suite s.payload_key (record_nonce s.prefix index (nonce_size s.suite)) text
        (record_aad s.aad typ index)

  unfoldable pub open_record : ℕ → ℕ → Bytes → Option Bytes
  open_record typ index ciphertext =
      prim.unseal s.suite s.payload_key (record_nonce s.prefix index (nonce_size s.suite))
        ciphertext (record_aad s.aad typ index)

-- `index`, `totalPlain` and `totalCipher`.
pub record Totals : Type 0 where
  pub index : ℕ
  pub plain : ℕ
  pub cipher : ℕ

abbrev pub start : Totals
start = record { index = 0; plain = 0; cipher = 0 }

-- One more data record, of so many bytes of text and of ciphertext.
abbrev pub counted : Totals → ℕ → ℕ → Totals
counted t n c = record {
  index = (t.index + 1) % 2 ^ 64;
  plain = (t.plain + n) % 2 ^ 64;
  cipher = (t.cipher + c) % 2 ^ 64;
}

-- The 24 bytes of the final record.
unfoldable pub commitment : Totals → Bytes
commitment t = be64 t.index ++ be64 t.plain ++ be64 t.cipher

module _ (env : Env) (prim : Primitives) (s : Session) where
  -- `if n > 0 { ... }`
  seal_chunk : Totals → Bytes → Io Totals
  seal_chunk t [] = pure t
  seal_chunk t (b ∷ chunk) = do
    let sealed = seal_record prim s 1 t.index (b ∷ chunk)
    write_record env 1 t.index sealed
    pure (counted t (length (b ∷ chunk)) (length sealed))

  -- `if re == nil { continue }`, the two ends of the input, or the reader's error
  after_chunk : (Totals → Io Totals) → Status → Totals → Io Totals
  after_chunk again filled t = again t
  after_chunk again (ended Error.eof) t = pure t
  after_chunk again (ended unexpected_eof) t = pure t
  after_chunk again (ended e) t = fail e

  fill : Io (Status × Bytes)
  fill w =
      let r = read_full s.record_size w.source in
      (ok (r.status, r.got), record w { source = r.rest })

  -- The loop of `Encrypt`, on fuel.
  unfoldable pub seal_loop : ℕ → Totals → Io Totals
  unfolding seal_chunk after_chunk fill
  seal_loop zero t = fail out_of_fuel
  seal_loop (suc fuel) t = do
    check_context env
    (status, got) ← fill
    t' ← seal_chunk t got
    after_chunk (seal_loop fuel) status t'

  -- The loop and the final record.
  unfoldable pub seal_payload : ℕ → Io (Unit {0})
  seal_payload fuel = do
    t ← seal_loop fuel start
    write_record env 2 t.index (seal_record prim s 2 t.index (commitment t))

-- The state of the loop of `Decrypt`; `totals.index` is `expected`.
pub record Progress : Type 0 where
  pub totals : Totals
  pub finalized : Bool

abbrev pub fresh : Progress
fresh = record { totals = start; finalized = false }

-- What a record makes the loop do: the text that is written, if it is a data record, and the state
-- that follows.
pub record Accepted : Type 0 where
  pub text : Option Bytes
  pub next : Progress

-- the switch on the type of an authentic record
unfoldable pub accept_typed : Session → Progress → Frame → Bytes → Result Accepted
accept_typed s p fr plain =
    if fr.typ == 1
    then if ltb s.record_size (length plain)
      then err record_too_large
      else ok (record {
        text = some plain;
        next = record {
          totals = counted p.totals (length plain) (length fr.ciphertext);
          finalized = p.finalized;
        };
      })
    else if fr.typ == 2
    then if not (length plain == 24)
      then err malformed_final
      else if not (uint64 plain == fr.index)
          || not (uint64 (drop 8 plain) == p.totals.plain)
          || not (uint64 (drop 16 plain) == p.totals.cipher)
      then err commitment_mismatch
      else ok (record {
        text = none;
        next = record {
          totals = record p.totals { index = (p.totals.index + 1) % 2 ^ 64 };
          finalized = true;
        };
      })
    else err unknown_record_type

accept_opened : Session → Progress → Frame → Option Bytes → Result Accepted
accept_opened s p fr none = err payload_auth
accept_opened s p fr (some plain) = accept_typed s p fr plain

-- The body of the loop between `readRecord` and `expected++`, without the Write.
unfoldable pub accept_record : Primitives → Session → Progress → Frame → Result Accepted
unfolding accept_opened
accept_record prim s p fr =
    if p.finalized
    then err trailing_bytes
    else if not (fr.index == p.totals.index)
    then err index_gap
    else accept_opened s p fr (open_record prim s fr.typ fr.index fr.ciphertext)

module _ (env : Env) (prim : Primitives) (s : Session) where
  put_text : Option Bytes → Io (Unit {0})
  put_text none = pure tt
  put_text (some b) = write env b

  next_record : Io Frame
  next_record w =
      let (r, rest) = read_record ((s.record_size + prim.overhead s.suite) % 2 ^ 32) w.source in
      (r, record w { source = rest })

  take_record : (Progress → Io Progress) → Progress → Frame → Io Progress
  take_record again p fr = do a ← lift (accept_record prim s p fr); put_text a.text; again a.next

  -- io.EOF of `readRecord` ends the loop, if the final record has been seen.
  after_read : (Progress → Io Progress) → Progress → Result Frame → Io Progress
  after_read again p (ok fr) = take_record again p fr
  after_read again p (err Error.eof) = if p.finalized then pure p else fail missing_final
  after_read again p (err e) = fail e

  -- The loop of `Decrypt`, on fuel.
  unfoldable pub open_loop : ℕ → Progress → Io Progress
  unfolding put_text next_record take_record after_read
  open_loop zero p = fail out_of_fuel
  open_loop (suc fuel) p = do
    check_context env
    r ← (λ w. let (a, w') = next_record w in (ok a, w'))
    after_read (open_loop fuel) p r
