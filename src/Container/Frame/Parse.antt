-- ===== src/Container/Frame/Parse.antt =====
-- What `readRecord` has consumed when it succeeds, and when it reports io.EOF.
use cypherstorm.Base.{
  ℕ, zero, suc, ◌+◌, ◌*◌, ◌%◌, ◌^◌, ◌≤◌, ◌<◌, ◌≡◌, refl, sym, ap, ◌∙◌, none, List, [], ◌∷◌, ◌++◌,
  inl, inr, arith, Bytes, length, take, drop, get_or, ltb, leb, All, Bool-cases, take-drop,
  length-take, leb→le, ltb→le, le→ltb, append_assoc, append-nil, subst,
}
use cypherstorm.Fault.{Result, ok, err, eof}
use cypherstorm.Stream.{Reader, Read, filled, ended, end_error, read_full}
use cypherstorm.Stream.Laws.{read_full_front, read_full_short, pair_fst, pair_snd}
use cypherstorm.Container.Frame.{
  be32, be64, uint32, uint64, Frame, frame_header, frame_of, read_body, after_header, read_record,
}
use cypherstorm.Container.Frame.RoundTrip.{encode}

abbrev pub IsByte : ℕ → Type 0
IsByte b = b < 256

digits32 :
    (a b c d : ℕ)
    → IsByte a
    → IsByte b
    → IsByte c
    → IsByte d
    → be32 (a * 2 ^ 24 + b * 2 ^ 16 + c * 2 ^ 8 + d) ≡ a ∷ b ∷ c ∷ d ∷ []
digits32 a b c d p q r s = ground arith

digits64 :
    (a b c d e f g h : ℕ)
    → IsByte a
    → IsByte b
    → IsByte c
    → IsByte d
    → IsByte e
    → IsByte f
    → IsByte g
    → IsByte h
    → be64 (
        a * 2 ^ 56
        + b * 2 ^ 48
        + c * 2 ^ 40
        + d * 2 ^ 32
        + (e * 2 ^ 24 + f * 2 ^ 16 + g * 2 ^ 8 + h))
      ≡ a ∷ b ∷ c ∷ d ∷ e ∷ f ∷ g ∷ h ∷ []
digits64 a b c d e f g h pa pb pc pd pe pf pg ph = ground arith

-- Thirteen bytes are the header of the frame that they announce.
frame_header-fields :
    (h body : Bytes)
    → length h ≡ 13
    → All IsByte h
    → uint32 (drop 9 h) ≡ length body
    → frame_header (get_or h 0 0) (uint64 (drop 1 h)) body ≡ h
unfolding frame_header
frame_header-fields (t ∷ a ∷ b ∷ c ∷ d ∷ e ∷ f ∷ g ∷ i ∷ j ∷ k ∷ l ∷ m ∷ []) body n
      (_, (pa, (pb, (pc, (pd, (pe, (pf, (pg, (pi, (pj, (pk, (pl, (pm, _))))))))))))) u =
    let index = uint64 (a ∷ b ∷ c ∷ d ∷ e ∷ f ∷ g ∷ i ∷ j ∷ k ∷ l ∷ m ∷ []) in
    ap (λ n. t ∷ (be64 index ++ be32 n)) (sym u)
    ∙ ap (λ y. t ∷ (y ++ be32 (uint32 (j ∷ k ∷ l ∷ m ∷ []))))
        (digits64 a b c d e f g i pa pb pc pd pe pf pg pi)
    ∙ ap (λ y. t ∷ a ∷ b ∷ c ∷ d ∷ e ∷ f ∷ g ∷ i ∷ y) (digits32 j k l m pj pk pl pm)
frame_header-fields _ body n p u = absurd (omega arith)

All-take {ℓ κ} : {A : Type ℓ} (P : A → Type κ) (n : ℕ) (xs : List A) → All P xs → All P (take n xs)
All-take P zero xs h = tt
All-take P (suc n) [] h = tt
All-take P (suc n) (x ∷ xs) h = (h.0, All-take P n xs h.1)

All-drop {ℓ κ} : {A : Type ℓ} (P : A → Type κ) (n : ℕ) (xs : List A) → All P xs → All P (drop n xs)
All-drop P zero xs h = h
All-drop P (suc n) [] h = tt
All-drop P (suc n) (x ∷ xs) h = All-drop P n xs h.1

-- The two outcomes of io.ReadFull.
data ReadCase (n : ℕ) (r : Reader) : Read → Type 0 where
  whole :
      n ≤ length r.bytes
      → ReadCase n r (record {
        got = take n r.bytes;
        status = filled;
        rest = record r { bytes = drop n r.bytes };
      })
  short :
      length r.bytes < n
      → ReadCase n r (record {
        got = r.bytes;
        status = ended (end_error r.fault r.bytes);
        rest = record r { bytes = [] };
      })

read_full-ReadCase : (n : ℕ) (r : Reader) → ReadCase n r (read_full n r)
unfolding read_full
read_full-ReadCase n r = elim (Bool-cases (leb n (length r.bytes))) [
  | inl e ↦ rw e (whole (leb→le _ _ e))
  | inr e ↦ rw e (short (ground arith))
]

-- What a read of a record leaves behind it.
pub record Consumed (r : Reader) (fr : Frame) (rest : Reader) : Type 0 where
  pub front : r.bytes ≡ encode fr ++ rest.bytes
  pub fault_kept : rest.fault ≡ r.fault
  pub rest_bytes : All IsByte rest.bytes

body_consumed :
    (h : Bytes) (r : Reader) (n : ℕ) (x : Read) {fr : Frame} {rest : Reader}
    → ReadCase n r x
    → length h ≡ 13
    → All IsByte h
    → All IsByte r.bytes
    → n ≡ uint32 (drop 9 h)
    → ◌≡◌ {A = Result Frame × Reader} (frame_of h x.status x.got, x.rest) (ok fr, rest)
    → (h ++ r.bytes ≡ encode fr ++ rest.bytes) × (rest.fault ≡ r.fault) × All IsByte rest.bytes
unfolding frame_of encode
body_consumed h r n x {fr} {rest} (whole le) l b c u e =
    let body = take n r.bytes in
    let fr_is : record { typ = get_or h 0 0; index = uint64 (drop 1 h); ciphertext = body } ≡ fr =
      cc (pair_fst e) in
    let rest_is : record r { bytes = drop n r.bytes } ≡ rest = pair_snd e in
    rw (← fr_is, ← rest_is)
      (
        rw (frame_header-fields h body l b (sym u ∙ sym (length-take n r.bytes le)))
            (ap (λ y. h ++ y) (sym (take-drop n r.bytes)) ∙ sym (append_assoc h body _)),
        refl,
        All-drop IsByte n r.bytes c,
      )
body_consumed h r n x (short lt) l b c u e = cc

read_body_consumed :
    (max : ℕ) (h : Bytes) (r : Reader) {fr : Frame} {rest : Reader}
    → length h ≡ 13
    → All IsByte h
    → All IsByte r.bytes
    → read_body max h r ≡ (ok fr, rest)
    → (h ++ r.bytes ≡ encode fr ++ rest.bytes) × (rest.fault ≡ r.fault) × All IsByte rest.bytes
unfolding read_body
read_body_consumed max h r {fr} {rest} l b c e =
    elim (Bool-cases (ltb ((max + 64) % 2 ^ 32) (uint32 (drop 9 h)))) [
      | inl big ↦ cc (pair_fst (rw big at e))
      | inr fits ↦
          body_consumed h r (uint32 (drop 9 h)) _ (read_full-ReadCase _ r) l b c refl (rw fits at e)
    ]

after_header-Consumed :
    (max : ℕ) (r : Reader) (x : Read) {fr : Frame} {rest : Reader}
    → ReadCase 13 r x
    → All IsByte r.bytes
    → after_header max x.status x.got x.rest ≡ (ok fr, rest)
    → Consumed r fr rest
unfolding after_header
after_header-Consumed max r x (whole le) b e =
    let (f, k, c) =
      read_body_consumed max (take 13 r.bytes) (record r { bytes = drop 13 r.bytes })
        (length-take 13 r.bytes le) (All-take IsByte 13 r.bytes b) (All-drop IsByte 13 r.bytes b)
        e in
    record { front = sym (take-drop 13 r.bytes) ∙ f; fault_kept = k; rest_bytes = c }
after_header-Consumed max r x (short lt) b e = cc (pair_fst e)

-- A record that is read stood in front of the reader, byte for byte.
pub read_record-Consumed :
    (max : ℕ) (r : Reader) {fr : Frame} {rest : Reader}
    → All IsByte r.bytes
    → read_record max r ≡ (ok fr, rest)
    → Consumed r fr rest
unfolding read_record
read_record-Consumed max r b e =
    after_header-Consumed max r (read_full 13 r) (read_full-ReadCase 13 r) b e

-- What is left when `readRecord` reports io.EOF: nothing, or thirteen bytes that announce a
-- nonempty body of which not one byte is there.
pub data EndsAt (max : ℕ) : Bytes → Type 0 where
  clean : EndsAt max []
  dangling :
      {h : Bytes}
      → length h ≡ 13
      → 0 < uint32 (drop 9 h)
      → uint32 (drop 9 h) ≤ (max + 64) % 2 ^ 32
      → EndsAt max h

end_error-eof : (b : Bytes) → end_error none b ≡ eof → b ≡ []
end_error-eof [] e = refl
end_error-eof (x ∷ b) e = cc

body_eof :
    (max : ℕ) (h : Bytes) (b : Bytes) (x : Read) {rest : Reader}
    → ReadCase (uint32 (drop 9 h)) (record { bytes = b; fault = none }) x
    → ◌≡◌ {A = Result Frame × Reader} (frame_of h x.status x.got, x.rest) (err eof, rest)
    → (b ≡ []) × (0 < uint32 (drop 9 h)) × (rest.bytes ≡ [])
unfolding frame_of
body_eof max h b x (whole le) e = cc (pair_fst e)
body_eof max h b x (short lt) e =
    let empty : b ≡ [] = end_error-eof b (cc (pair_fst e)) in
    (empty, omega (arith, lt), ap (λ (r : Reader). r.bytes) (sym (pair_snd e)))

read_body_eof :
    (max : ℕ) (h b : Bytes) {rest : Reader}
    → read_body max h (record { bytes = b; fault = none }) ≡ (err eof, rest)
    → (b ≡ [])
      × (0 < uint32 (drop 9 h))
      × (uint32 (drop 9 h) ≤ (max + 64) % 2 ^ 32)
      × (rest.bytes ≡ [])
unfolding read_body
read_body_eof max h b e = elim (Bool-cases (ltb ((max + 64) % 2 ^ 32) (uint32 (drop 9 h)))) [
  | inl big ↦ cc (pair_fst (rw big at e))
  | inr fits ↦
      let (empty, pos, done) = body_eof max h b _ (read_full-ReadCase _ _) (rw fits at e) in
      (empty, pos, ltb→le _ _ fits, done)
]

after_header_eof :
    (max : ℕ) (b : Bytes) (x : Read) {rest : Reader}
    → ReadCase 13 (record { bytes = b; fault = none }) x
    → after_header max x.status x.got x.rest ≡ (err eof, rest)
    → EndsAt max b × (rest.bytes ≡ [])
unfolding after_header
after_header_eof max b x (short lt) e =
    (rw (end_error-eof b (cc (pair_fst e))) clean, ap (λ (r : Reader). r.bytes) (sym (pair_snd e)))
after_header_eof max b x (whole le) e =
    let (empty, pos, fits, done) = read_body_eof max (take 13 b) (drop 13 b) e in
    let all : take 13 b ≡ b =
      sym (append-nil (take 13 b)) ∙ ap (λ y. take 13 b ++ y) (sym empty) ∙ take-drop 13 b in
    (subst (EndsAt max) all (dangling (length-take 13 b le) pos fits), done)

-- At the end of a reader without an error of its own, io.EOF means one of the two endings.
pub read_record-EndsAt :
    (max : ℕ) (r : Reader) {rest : Reader}
    → r.fault ≡ none
    → read_record max r ≡ (err eof, rest)
    → EndsAt max r.bytes × (rest.bytes ≡ [])
unfolding read_record
read_record-EndsAt max r {rest} f e =
    after_header_eof max r.bytes _ (read_full-ReadCase 13 _)
      (subst (λ x. read_record max (record { bytes = r.bytes; fault = x }) ≡ (err eof, rest)) f e)

-- Both endings are reported as io.EOF.
pub EndsAt-read_record :
    (max : ℕ) (b : Bytes)
    → EndsAt max b
    → read_record max (record { bytes = b; fault = none })
      ≡ (err eof, record { bytes = []; fault = none })
unfolding read_record after_header read_body frame_of
EndsAt-read_record max b clean =
    rw (read_full_short 13 (record { bytes = []; fault = none }) (omega arith)) refl
EndsAt-read_record max b (dangling l pos fits) =
    ap (λ y. read_record max (record { bytes = y; fault = none })) (sym (append-nil b))
    ∙ rw
        (
          read_full_front 13 b [] none l,
          le→ltb _ _ fits,
          read_full_short (uint32 (drop 9 b)) (record { bytes = []; fault = none }) pos,
        )
        refl
