-- ===== src/Container/Payload/Integrity.antt =====
-- What a stream looks like that `Decrypt`'s loop accepts.
use cypherstorm.Base.{
  ℕ, zero, suc, ◌+◌, ◌%◌, ◌^◌, ◌≡◌, refl, sym, ap, ◌∙◌, true, false, Option, none, some, List, [],
  ◌++◌, inl, inr, Bytes, All, Bool-cases, append_assoc, append-nil, subst,
}
use cypherstorm.Fault.{Error, Result, ok, err}
use cypherstorm.Stream.{Reader, World, Env, Io, check_context}
use cypherstorm.Stream.Laws.{
  IsHonest, continue-eq-ok, pair_fst, pair_snd, check_context-same, write-eq-ok,
}
use cypherstorm.Security.Primitives.{Primitives}
use cypherstorm.Container.Frame.{Frame, read_record}
use cypherstorm.Container.Frame.RoundTrip.{encode}
use cypherstorm.Container.Frame.Parse.{IsByte, read_record-Consumed, EndsAt, read_record-EndsAt}
use cypherstorm.Container.Payload.Sealing.{written_on}
use cypherstorm.Container.Payload.Opening.{text_of}
use cypherstorm.Container.Payload.Chain.{
  Chain, final, more, Verdict, data_record, final_record, accept-Verdict, encode_all,
}
use cypherstorm.Container.Payload.{
  Session, start, Progress, fresh, Accepted, accept_record, put_text, after_read, take_record,
  open_loop,
}

-- The bytes `b` and the text of a run of the loop from the progress `p` to its successful end.
module _ (prim : Primitives) (s : Session) where
  abbrev pub max_record : ℕ
  max_record = (s.record_size + prim.overhead s.suite) % 2 ^ 32

  data Run (p : Progress) (b : Bytes) : Bytes → Type 0 where
    closed : p.finalized ≡ true → EndsAt max_record b → Run p b []
    open_run :
        {frames : List Frame} {text tail : Bytes}
        → p.finalized ≡ false
        → Chain prim s p.totals frames text
        → EndsAt max_record tail
        → b ≡ encode_all frames ++ tail
        → Run p b text

  Run-cons :
      {p : Progress} {fr : Frame} {a : Accepted} {b rest text : Bytes}
      → p.finalized ≡ false
      → Verdict prim s p fr a
      → b ≡ encode fr ++ rest
      → Run a.next rest text
      → Run p b (text_of a.text ++ text)
  unfolding encode_all
  Run-cons f (data_record d x n) front (closed fin e) =
      cc (fin, ap (λ (q : Progress). q.finalized) n)
  Run-cons {fr = fr} f (data_record d x n) front
        (open_run {frames = frames} {text = text} g c e q) =
      open_run f
        (more d (subst (λ (r : Progress). Chain prim s r.totals frames text) n c)
          (ap (λ o. text_of o ++ text) x))
        e (front ∙ ap (λ y. encode fr ++ y) q ∙ sym (append_assoc (encode fr) _ _))
  Run-cons {fr = fr} {rest = rest} f (final_record d x n) front (closed fin e) =
      rw x (open_run f (final d) e (front ∙ ap (λ y. y ++ rest) (sym (append-nil (encode fr)))))
  Run-cons f (final_record d x n) front (open_run g c e q) = cc (n, g)

module _ {env : Env} (honest : IsHonest env) (prim : Primitives) (s : Session) where
  put_text-eq-ok :
      (o : Option Bytes) (w : World) {v : World}
      → put_text env prim s o w ≡ (ok tt, v)
      → written_on w (text_of o) ≡ v
  unfolding put_text
  put_text-eq-ok none w e = ap (λ x. record w { written = x }) (append-nil w.written) ∙ pair_snd e
  put_text-eq-ok (some b) w e = write-eq-ok honest b w e

  -- The two ways in which the loop goes on from a read: a record, or the end after a final record.
  data Went (again : Progress → Io Progress) (p : Progress) (w : World)
      : Result Frame → Progress → World → Type 0 where
    ended :
        {q : Progress} {v : World}
        → p.finalized ≡ true
        → p ≡ q
        → w ≡ v
        → Went again p w (err Error.eof) q v
    took :
        {fr : Frame} {a : Accepted} {q : Progress} {v : World}
        → accept_record prim s p fr ≡ ok a
        → again a.next (written_on w (text_of a.text)) ≡ (ok q, v)
        → Went again p w (ok fr) q v

  after_read-Went :
      (again : Progress → Io Progress) (p : Progress) (r : Result Frame) (w : World) {q : Progress}
      {v : World}
      → after_read env prim s again p r w ≡ (ok q, v)
      → Went again p w r q v
  unfolding after_read take_record
  after_read-Went again p (ok fr) w e =
      let (a, w1, x, y) = continue-eq-ok _ (accept_record prim s p fr, w) e in
      let (u, w2, x2, y2) = continue-eq-ok _ (put_text env prim s a.text w1) y in
      took (pair_fst x) (rw (pair_snd x, put_text-eq-ok a.text w1 x2) y2)
  after_read-Went again p (err Error.eof) w e = elim (Bool-cases p.finalized) [
    | inl f ↦ let e' = rw f at e in ended f (cc) (pair_snd e')
    | inr f ↦ cc (pair_fst (rw f at e))
  ]
  after_read-Went again p (err _) w e = cc (pair_fst e)

  -- What a successful loop has read and written, from the world `w` to the world `v`.
  abbrev ReadAs : Progress → World → World → Type 0
  ReadAs p w v = (text : Bytes) × Run prim s p w.source.bytes text × (v.written ≡ w.written ++ text)

  Went-Run :
      (again : Progress → Io Progress) (p q : Progress) (w v : World) (r : Result Frame)
      (rest : Reader)
      → w.source.fault ≡ none
      → All IsByte w.source.bytes
      → read_record (max_record prim s) w.source ≡ (r, rest)
      → ((p' : Progress) (w' : World)
          → w'.source.fault ≡ none
          → All IsByte w'.source.bytes
          → again p' w' ≡ (ok q, v)
          → ReadAs p' w' v)
      → Went again p (record w { source = rest }) r q v
      → ReadAs p w v
  Went-Run again p q w v r rest f b e ih (ended fin _ here) = (
    [],
    closed fin (read_record-EndsAt _ w.source f e).0,
    ap (λ (x : World). x.written) (sym here) ∙ sym (append-nil w.written),
  )
  Went-Run again p q w v r rest f b e ih (took {fr = fr} {a = a} acc next) =
      let c = read_record-Consumed _ w.source b e in
      let (g, verdict) = accept-Verdict prim s p fr a acc in
      let (text, run, x) = ih a.next _ (c.fault_kept ∙ f) c.rest_bytes next in
      (
        text_of a.text ++ text,
        Run-cons prim s g verdict c.front run,
        x ∙ append_assoc w.written (text_of a.text) text,
      )

  open_loop-Run :
      (fuel : ℕ) (p q : Progress) (w v : World)
      → w.source.fault ≡ none
      → All IsByte w.source.bytes
      → open_loop env prim s fuel p w ≡ (ok q, v)
      → ReadAs p w v
  unfolding open_loop
  open_loop-Run zero p q w v f b e = cc (pair_fst e)
  open_loop-Run (suc fuel) p q w v f b e =
      let (u, w1, x, y) = continue-eq-ok _ (check_context env w) e in
      let same = check_context-same env w x in
      let went = after_read-Went _ p _ _ (rw (← same) at y) in
      Went-Run _ p q w v _ _ f b refl (λ p' w'. open_loop-Run fuel p' q w' v) went

-- What the loop of `Decrypt` has seen when it succeeds on an input that ends without an error, with
-- a writer that keeps the contract of io.Writer.
pub record Authentic (prim : Primitives) (s : Session) (b text : Bytes) : Type 0 where
  pub frames : List Frame
  pub tail : Bytes
  pub chain : Chain prim s start frames text
  pub ends : EndsAt (max_record prim s) tail
  pub all : b ≡ encode_all frames ++ tail

-- A stream that `Decrypt`'s loop accepts is a chain of frames (consecutive indices from 0, every
-- ciphertext authentic under its own type and index, a final record last, whose commitment holds
-- the count and the totals), and what was written is the concatenated text of its data records.
-- Behind the final record stands nothing, or 13 bytes that announce a body which is not there.
-- The input is a list of bytes that ends without a read error, and the writer never takes fewer
-- bytes than it was given without an error.
pub open_loop-Authentic :
    {env : Env} (honest : IsHonest env) (prim : Primitives) (s : Session) (fuel : ℕ) (q : Progress)
    (w v : World)
    → w.source.fault ≡ none
    → All IsByte w.source.bytes
    → open_loop env prim s fuel fresh w ≡ (ok q, v)
    → (text : Bytes) × Authentic prim s w.source.bytes text × (v.written ≡ w.written ++ text)
open_loop-Authentic honest prim s fuel q w v f b e =
    let (text, run, x) = open_loop-Run honest prim s fuel fresh q w v f b e in
    (text, fresh_run run, x)
  where
    fresh_run :
        {text : Bytes} → Run prim s fresh w.source.bytes text → Authentic prim s w.source.bytes text
    fresh_run (closed fin _) = cc
    fresh_run (open_run {frames = frames} {tail = tail} g c en al) = record {
      frames = frames;
      tail = tail;
      chain = c;
      ends = en;
      all = al;
    }
