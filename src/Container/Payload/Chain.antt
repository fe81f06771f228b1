-- ===== src/Container/Payload/Chain.antt =====
-- The shape of a payload: chains of records, and what the acceptance of one record says.
use cypherstorm.Base.{
  ◌≤◌, ◌≡◌, refl, ◌∙◌, true, false, Option, none, some, List, [], ◌∷◌, ◌++◌, inl, inr, arith, Bytes,
  length, drop, ◌==◌, Bool-cases,
}
use cypherstorm.Fault.{ok}
use cypherstorm.Security.Primitives.{Primitives}
use cypherstorm.Container.Frame.{Frame, uint64}
use cypherstorm.Container.Frame.RoundTrip.{encode}
use cypherstorm.Container.Payload.{
  Session, Totals, counted, open_record, Progress, Accepted, accept_typed, accept_opened,
  accept_record,
}

-- `Chain t frames text`: from the totals `t` on, the frames carry consecutive indices; each but the
-- last is a data record whose ciphertext opens to the next piece of the text, of at most
-- `record_size` bytes; the last is a final record whose 24 bytes repeat the count and the totals.
module _ (prim : Primitives) (s : Session) where
  pub record IsFinal (t : Totals) (fr : Frame) : Type 0 where
    pub typ_is : fr.typ ≡ 2
    pub index_is : fr.index ≡ t.index
    pub plain : Bytes
    pub opens : open_record prim s fr.typ fr.index fr.ciphertext ≡ some plain
    pub size_is : length plain ≡ 24
    pub count_is : uint64 plain ≡ t.index
    pub plain_is : uint64 (drop 8 plain) ≡ t.plain
    pub cipher_is : uint64 (drop 16 plain) ≡ t.cipher

  pub record IsData (t : Totals) (fr : Frame) (chunk : Bytes) : Type 0 where
    pub typ_is : fr.typ ≡ 1
    pub index_is : fr.index ≡ t.index
    pub opens : open_record prim s fr.typ fr.index fr.ciphertext ≡ some chunk
    pub size-le : length chunk ≤ s.record_size

  pub data Chain : Totals → List Frame → Bytes → Type 0 where
    final : {t : Totals} {fr : Frame} → IsFinal t fr → Chain t (fr ∷ []) []
    more :
        {t : Totals} {fr : Frame} {frames : List Frame} {chunk text whole : Bytes}
        → IsData t fr chunk
        → Chain (counted t (length chunk) (length fr.ciphertext)) frames text
        → whole ≡ chunk ++ text
        → Chain t (fr ∷ frames) whole

  -- What acceptance of one record says, by its type.
  pub data Verdict (p : Progress) (fr : Frame) (a : Accepted) : Type 0 where
    data_record :
        {chunk : Bytes}
        → IsData p.totals fr chunk
        → a.text ≡ some chunk
        → a.next ≡ record {
          totals = counted p.totals (length chunk) (length fr.ciphertext);
          finalized = false;
        }
        → Verdict p fr a
    final_record : IsFinal p.totals fr → a.text ≡ none → a.next.finalized ≡ true → Verdict p fr a

  data_accepted :
      (p : Progress) (fr : Frame) (plain : Bytes) (a : Accepted)
      → p.finalized ≡ false
      → (fr.typ == 1) ≡ true
      → accept_typed s p fr plain ≡ ok a
      → (length plain ≤ s.record_size)
        × (a.text ≡ some plain)
        × (a.next ≡ record {
          totals = counted p.totals (length plain) (length fr.ciphertext);
          finalized = false;
        })
  unfolding accept_typed
  data_accepted p fr plain a f one e = ground arith

  final_accepted :
      (p : Progress) (fr : Frame) (plain : Bytes) (a : Accepted)
      → (fr.typ == 1) ≡ false
      → accept_typed s p fr plain ≡ ok a
      → (fr.typ ≡ 2)
        × (length plain ≡ 24)
        × (uint64 plain ≡ fr.index)
        × (uint64 (drop 8 plain) ≡ p.totals.plain)
        × (uint64 (drop 16 plain) ≡ p.totals.cipher)
        × (a.text ≡ none)
        × (a.next.finalized ≡ true)
  unfolding accept_typed
  final_accepted p fr plain a other e = ground arith

  typed-Verdict :
      (p : Progress) (fr : Frame) (plain : Bytes) (a : Accepted)
      → p.finalized ≡ false
      → fr.index ≡ p.totals.index
      → open_record prim s fr.typ fr.index fr.ciphertext ≡ some plain
      → accept_typed s p fr plain ≡ ok a
      → Verdict p fr a
  typed-Verdict p fr plain a f i o e = elim (Bool-cases (fr.typ == 1)) [
    | inl one ↦
        let (l, x, n) = data_accepted p fr plain a f one e in
        data_record (record { typ_is = ground arith; index_is = i; opens = o; size-le = l }) x n
    | inr other ↦
        let (t, l, c, pl, ci, x, n) = final_accepted p fr plain a other e in
        final_record
          (record {
            typ_is = t;
            index_is = i;
            plain = plain;
            opens = o;
            size_is = l;
            count_is = c ∙ i;
            plain_is = pl;
            cipher_is = ci;
          })
          x n
  ]

  opened-Verdict :
      (p : Progress) (fr : Frame) (a : Accepted) (o : Option Bytes)
      → p.finalized ≡ false
      → fr.index ≡ p.totals.index
      → open_record prim s fr.typ fr.index fr.ciphertext ≡ o
      → accept_opened s p fr o ≡ ok a
      → Verdict p fr a
  unfolding accept_opened
  opened-Verdict p fr a none f i o e = cc
  opened-Verdict p fr a (some plain) f i o e = typed-Verdict p fr plain a f i o e

  accept_guards :
      (p : Progress) (fr : Frame) (a : Accepted)
      → accept_record prim s p fr ≡ ok a
      → (p.finalized ≡ false)
        × (fr.index ≡ p.totals.index)
        × (accept_opened s p fr (open_record prim s fr.typ fr.index fr.ciphertext) ≡ ok a)
  unfolding accept_record
  accept_guards p fr a e = ground arith

  pub accept-Verdict :
      (p : Progress) (fr : Frame) (a : Accepted)
      → accept_record prim s p fr ≡ ok a
      → (p.finalized ≡ false) × Verdict p fr a
  accept-Verdict p fr a e =
      let (f, i, o) = accept_guards p fr a e in (f, opened-Verdict p fr a _ f i refl o)

unfoldable pub encode_all : List Frame → Bytes
encode_all [] = []
encode_all (fr ∷ frames) = encode fr ++ encode_all frames
