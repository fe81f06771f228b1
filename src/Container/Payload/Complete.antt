-- ===== src/Container/Payload/Complete.antt =====
-- Every chain of records is accepted, also with a dangling header behind it.
use cypherstorm.Base.{
  ℕ, suc, ◌+◌, ◌%◌, ◌^◌, ◌≤◌, ◌<◌, ◌≡◌, refl, sym, ap, ◌∙◌, true, false, none, some, List, [], ◌++◌,
  arith, Bytes, length, All, append_assoc, append-nil,
}
use cypherstorm.Fault.{ok}
use cypherstorm.Stream.{World, Env}
use cypherstorm.Stream.Laws.{IsQuiet, check_context_quiet}
use cypherstorm.Security.Primitives.{Primitives}
use cypherstorm.Container.Frame.{Frame}
use cypherstorm.Container.Frame.RoundTrip.{encode}
use cypherstorm.Container.Frame.Parse.{EndsAt, EndsAt-read_record}
use cypherstorm.Container.Payload.Sealing.{at_source, written_on}
use cypherstorm.Container.Payload.Opening.{InRange, counted-InRange, open_loop-record}
use cypherstorm.Container.Payload.Chain.{IsFinal, IsData, Chain, final, more, encode_all}
use cypherstorm.Container.Payload.Integrity.{max_record}
use cypherstorm.Container.Payload.{
  Session, Totals, start, counted, Progress, fresh, Accepted, accept_typed, accept_opened,
  accept_record, open_loop,
}

-- The ciphertexts of these frames pass the length limit of `readRecord`.
abbrev pub WithinLimit : Primitives → Session → List Frame → Type 0
WithinLimit prim s =
    All (λ (fr : Frame). length fr.ciphertext ≤ s.record_size + prim.overhead s.suite + 64)

abbrev closing : Progress → Accepted
closing p = record {
  text = none;
  next = record {
    totals = record p.totals { index = (p.totals.index + 1) % 2 ^ 64 };
    finalized = true;
  };
}

module _ (prim : Primitives) (s : Session) (p : Progress) (fr : Frame)
    (f : p.finalized ≡ false) where
  accept-IsData :
      (chunk : Bytes)
      → IsData prim s p.totals fr chunk
      → accept_record prim s p fr
        ≡ ok (record {
          text = some chunk;
          next = record {
            totals = counted p.totals (length chunk) (length fr.ciphertext);
            finalized = false;
          };
        })
  unfolding accept_record accept_typed accept_opened
  accept-IsData chunk d = ground arith

  accept-IsFinal : IsFinal prim s p.totals fr → accept_record prim s p fr ≡ ok (closing p)
  unfolding accept_record accept_typed accept_opened
  accept-IsFinal d = ground arith

module _ {env : Env} (quiet : IsQuiet env) (prim : Primitives) (s : Session)
    (small : s.record_size + prim.overhead s.suite + 64 < 2 ^ 32) where
  loop_end :
      (fuel : ℕ) (p : Progress) (tail : Bytes) (w : World)
      → p.finalized ≡ true
      → EndsAt (max_record prim s) tail
      → open_loop env prim s (suc fuel) p (at_source w tail) ≡ (ok p, at_source w [])
  unfolding open_loop
  loop_end fuel p tail w f e =
      rw (check_context_quiet quiet (at_source w tail)) rw
        (EndsAt-read_record (max_record prim s) tail e) rw f refl

  Chain-open_loop :
      {t : Totals} {frames : List Frame} {text : Bytes} (tail : Bytes) (w : World)
      → InRange t
      → WithinLimit prim s frames
      → EndsAt (max_record prim s) tail
      → Chain prim s t frames text
      → (q : Progress) × (q.finalized ≡ true)
        × (open_loop env prim s
              (suc (length frames))
              (record { totals = t; finalized = false })
              (at_source w (encode_all frames ++ tail))
            ≡ (ok q, written_on (at_source w []) text))
  unfolding encode_all
  Chain-open_loop tail w r l e (final {t = t} {fr = fr} d) =
      let p : Progress = record { totals = t; finalized = false } in
      let a = closing p in
      (
        a.next,
        refl,
        ap (λ b. open_loop env prim s 2 p (at_source w (b ++ tail))) (append-nil (encode fr))
            ∙ open_loop-record quiet prim s 1 p fr tail w a (accept-IsFinal prim s p fr refl d)
                (omega (arith, d.index_is, r.index-lt)) l.0 small
            ∙ loop_end 0 a.next tail (written_on w []) refl e,
      )
  Chain-open_loop tail w r l e
        (more {t = t} {fr = fr} {frames = frames} {chunk = chunk} {text = text} d c x) =
      let p : Progress = record { totals = t; finalized = false } in
      let (q, f, ih) = Chain-open_loop tail (written_on w chunk) (counted-InRange t _ _) l.1 e c in
      (
        q,
        f,
        ap (λ b. open_loop env prim s (suc (suc (length frames))) p (at_source w b))
              (append_assoc (encode fr) (encode_all frames) tail)
            ∙ open_loop-record quiet prim s (suc (length frames)) p fr (encode_all frames ++ tail) w
                _ (accept-IsData prim s p fr refl chunk d) (omega (arith, d.index_is, r.index-lt))
                l.0 small
            ∙ ih
            ∙ ap (λ y. (ok q, record (at_source w []) { written = y }))
                (append_assoc w.written chunk text ∙ ap (λ y. w.written ++ y) (sym x)),
      )

-- Every chain of records within the length limit is accepted, and its text is written: what
-- `open_loop-Authentic` says of an accepted stream is also enough, when nothing in the environment
-- fails and the record size fits the 32-bit length field.
pub Chain-accepted :
    {env : Env} (quiet : IsQuiet env) (prim : Primitives) (s : Session) {frames : List Frame}
    {text : Bytes} (tail : Bytes) (w : World)
    → s.record_size + prim.overhead s.suite + 64 < 2 ^ 32
    → WithinLimit prim s frames
    → EndsAt (max_record prim s) tail
    → Chain prim s start frames text
    → (q : Progress) × (q.finalized ≡ true)
      × (open_loop env prim s (suc (length frames)) fresh (at_source w (encode_all frames ++ tail))
          ≡ (ok q, written_on (at_source w []) text))
Chain-accepted quiet prim s tail w small l e c =
    Chain-open_loop quiet prim s small tail w (omega arith) l e c
