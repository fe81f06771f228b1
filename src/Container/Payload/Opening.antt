-- ===== src/Container/Payload/Opening.antt =====
-- Steps of the loop of `Decrypt` when nothing fails: one record, and the end of the input.
use cypherstorm.Base.{
  ℕ, suc, ◌+◌, ◌%◌, ◌^◌, ◌≤◌, ◌<◌, ◌≡◌, refl, sym, ap, true, false, Option, none, some, [], ◌++◌,
  arith, Bytes, length, le→ltb, ==_refl, append-nil,
}
use cypherstorm.Fault.{ok}
use cypherstorm.Stream.{World, Env}
use cypherstorm.Stream.Laws.{plain, IsQuiet, check_context_quiet, write_quiet, read_full_short}
use cypherstorm.Security.Primitives.{Primitives, IsAead}
use cypherstorm.Container.Frame.{Frame, read_record}
use cypherstorm.Container.Frame.RoundTrip.{encode, read_record-encode, uint64-be64}
use cypherstorm.Container.Payload.{
  Session, Totals, counted, commitment, seal_record, open_record, Progress, Accepted, accept_typed,
  accept_record, put_text, open_loop,
}
use cypherstorm.Container.Payload.Sealing.{
  data_frame, final_frame, after_data, at_source, written_on,
}

abbrev pub text_of : Option Bytes → Bytes
text_of none = []
text_of (some b) = b

-- The record sizes of a session fit the 32-bit length field.
pub record Fits (prim : Primitives) (s : Session) : Type 0 where
  pub size_pos : 0 < s.record_size
  pub size-le : s.record_size ≤ 2 ^ 24
  pub aead : IsAead prim

-- The totals of a session stay 64-bit words.
pub record InRange (t : Totals) : Type 0 where
  pub index-lt : t.index < 2 ^ 64
  pub plain-lt : t.plain < 2 ^ 64
  pub cipher-lt : t.cipher < 2 ^ 64

pub counted-InRange : (t : Totals) (n c : ℕ) → InRange (counted t n c)
counted-InRange t n c = omega arith

module _ {env : Env} (quiet : IsQuiet env) (prim : Primitives) (s : Session) where
  put_text_quiet :
      (o : Option Bytes) (w : World) → put_text env prim s o w ≡ (ok tt, written_on w (text_of o))
  unfolding put_text
  put_text_quiet none w = ap (λ x. (ok tt, record w { written = x })) (sym (append-nil w.written))
  put_text_quiet (some b) w = write_quiet quiet b w

  -- One record in front of the reader is accepted as `accept_record` says.
  pub open_loop-record :
      (fuel : ℕ) (p : Progress) (fr : Frame) (rest : Bytes) (w : World) (a : Accepted)
      → accept_record prim s p fr ≡ ok a
      → fr.index < 2 ^ 64
      → length fr.ciphertext ≤ s.record_size + prim.overhead s.suite + 64
      → s.record_size + prim.overhead s.suite + 64 < 2 ^ 32
      → open_loop env prim s (suc fuel) p (at_source w (encode fr ++ rest))
        ≡ open_loop env prim s fuel a.next (written_on (at_source w rest) (text_of a.text))
  unfolding open_loop
  open_loop-record fuel p fr rest w a acc i l m =
      let max : ℕ = (s.record_size + prim.overhead s.suite) % 2 ^ 32 in
      let whole : max ≡ s.record_size + prim.overhead s.suite = omega arith in
      rw (check_context_quiet quiet (at_source w (encode fr ++ rest))) rw
        (read_record-encode max fr rest none i (omega arith) (omega arith)) rw acc rw
        (put_text_quiet a.text (at_source w rest)) refl

  -- The end of the input after the final record ends the loop.
  pub open_loop-end :
      (fuel : ℕ) (p : Progress) (w : World)
      → p.finalized ≡ true
      → open_loop env prim s (suc fuel) p (at_source w []) ≡ (ok p, at_source w [])
  unfolding open_loop read_record
  open_loop-end fuel p w f =
      rw (check_context_quiet quiet (at_source w [])) rw
        (read_full_short 13 (plain []) (omega arith)) rw f refl

-- An authentic data record of at most `record_size` bytes is accepted, and its text is passed on.
module _ {prim : Primitives} {s : Session} (fits : Fits prim s) where
  open-seal_record :
      (typ index : ℕ) (text : Bytes)
      → open_record prim s typ index (seal_record prim s typ index text) ≡ some text
  unfolding open_record seal_record
  open-seal_record typ index text = fits.aead.unseal-seal s.suite s.payload_key _ text _

  pub accept-data_frame :
      (p : Progress) (chunk : Bytes)
      → p.finalized ≡ false
      → length chunk ≤ s.record_size
      → accept_record prim s p (data_frame prim s p.totals chunk)
        ≡ ok (record {
          text = some chunk;
          next = record { totals = after_data prim s p.totals chunk; finalized = false };
        })
  unfolding accept_record accept_typed data_frame
  accept-data_frame p chunk f l =
      rw f rw (==_refl p.totals.index) rw (open-seal_record 1 p.totals.index chunk) rw
        (le→ltb s.record_size (length chunk) l) refl

  pub accept-final_frame :
      (p : Progress)
      → p.finalized ≡ false
      → InRange p.totals
      → accept_record prim s p (final_frame prim s p.totals)
        ≡ ok (record {
          text = none;
          next = record {
            totals = record p.totals { index = (p.totals.index + 1) % 2 ^ 64 };
            finalized = true;
          };
        })
  unfolding accept_record accept_typed final_frame commitment
  accept-final_frame p f r =
      rw f rw (==_refl p.totals.index) rw (open-seal_record 2 p.totals.index _) rw
        (
          uint64-be64 p.totals.index [] r.index-lt,
          uint64-be64 p.totals.plain [] r.plain-lt,
          uint64-be64 p.totals.cipher [] r.cipher-lt,
          ==_refl p.totals.index,
          ==_refl p.totals.plain,
          ==_refl p.totals.cipher,
        )
        refl
