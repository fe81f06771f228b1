-- ===== src/Container/Rekey/Recipients.antt =====
-- Whether `readHeader` takes the recipients that `Rekey` writes.
use cypherstorm.Base.{
  if◌then◌else◌, ltb, subst, length-append, ◌+◌, ◌≤◌, ◌<◌, ◌≡◌, ◌≢◌, refl, ◌⊎◌, inl, inr, Bool,
  true, false, List, [], ◌∷◌, ◌++◌, str_eq, Bytes, length, ◌==◌, ◌&&◌, arith, All, All-append,
  Bool-cases,
}
use cypherstorm.Fault.{ok}
use cypherstorm.Container.Header.{
  RecipientStanza, none_seen, has, max_recipients, Header, Formats, parse_header,
}
use cypherstorm.Container.Header.Policy.{IsAllowed, IsKnown, Fresh, passwords, public_ids}
use cypherstorm.Container.Header.Readable.{parse_header_iff}
use cypherstorm.Container.Rekey.{is_symmetric, keep, check_ids, check_replacement}

-- An X25519 stanza has an id.
abbrev IsNamed : RecipientStanza → Type 0
IsNamed s = str_eq s.kind "x25519" ≡ true → 0 < length s.id

Fresh-IsNamed :
    (seen : List Bytes) (xs : List RecipientStanza) → Fresh seen (public_ids xs) → All IsNamed xs
Fresh-IsNamed seen [] f = tt
Fresh-IsNamed seen (s ∷ xs) f = elim (Bool-cases (str_eq s.kind "x25519")) [
  | inl x ↦
      let g : Fresh seen (s.id ∷ public_ids xs) = rw x at f in
      (λ _. g.0, Fresh-IsNamed (s.id ∷ seen) xs g.2)
  | inr n ↦ (λ y. cc, Fresh-IsNamed seen xs (rw n at f))
]

All-keep :
    (P : RecipientStanza → Type 0) (remove : List Bytes) (replace : Bool)
    (xs : List RecipientStanza)
    → All P xs
    → All P (keep remove replace xs)
unfolding keep
All-keep P remove replace [] h = tt
All-keep P remove replace (s ∷ xs) h = elim (Bool-cases (has s.id remove)) [
  | inl a ↦ rw a (All-keep P remove replace xs h.1)
  | inr a ↦ elim (Bool-cases (replace && is_symmetric s)) [
    | inl b ↦ rw (a, b) (All-keep P remove replace xs h.1)
    | inr b ↦ rw (a, b) (h.0, All-keep P remove replace xs h.1)
  ]
]

passwords-keep :
    (remove : List Bytes) (replace : Bool) (xs : List RecipientStanza)
    → passwords (keep remove replace xs) ≤ passwords xs
unfolding keep
passwords-keep remove replace [] = omega arith
passwords-keep remove replace (s ∷ xs) = ground (arith, passwords-keep remove replace xs)

passwords-keep_replaced :
    (remove : List Bytes) (xs : List RecipientStanza) → passwords (keep remove true xs) ≡ 0
unfolding keep
passwords-keep_replaced remove [] = refl
passwords-keep_replaced remove (s ∷ xs) = ground (arith, passwords-keep_replaced remove xs)

passwords-append :
    (xs ys : List RecipientStanza) → passwords (xs ++ ys) ≡ passwords xs + passwords ys
passwords-append [] ys = omega arith
passwords-append (s ∷ xs) ys = omega (arith, passwords-append xs ys)

-- The ids seen by `Rekey` cover those of the X25519 recipients.
abbrev Covers : List Bytes → List Bytes → Type 0
Covers seen ids = (x : Bytes) → has x ids ≡ true → has x seen ≡ true

Covers-cons : (y : Bytes) (seen ids : List Bytes) → Covers seen ids → Covers (y ∷ seen) (y ∷ ids)
Covers-cons y seen ids c x h = ground (arith, c x)

Covers-skip : (y : Bytes) (seen ids : List Bytes) → Covers seen ids → Covers (y ∷ seen) ids
Covers-skip y seen ids c x h = ground (arith, c x)

unseen :
    (x : Bytes) (seen ids : List Bytes) → Covers seen ids → has x seen ≡ false → has x ids ≡ false
unseen x seen ids c h = ground (arith, c x)

check_ids-cons :
    (seen : List Bytes) (s : RecipientStanza) (xs : List RecipientStanza)
    → check_ids seen (s ∷ xs) ≡ ok tt
    → ((length s.id ≡ 0) × (check_ids seen xs ≡ ok tt))
      ⊎ ((0 < length s.id) × (has s.id seen ≡ false) × (check_ids (s.id ∷ seen) xs ≡ ok tt))
unfolding check_ids
check_ids-cons seen s xs e = elim (Bool-cases (length s.id == 0)) [
  | inl z ↦ inl (ground arith, rw z at e)
  | inr z ↦ let e' = rw z at e in inr (ground arith, ground arith, ground arith)
]

check_ids-Fresh :
    (seen ids : List Bytes) (xs : List RecipientStanza)
    → Covers seen ids
    → All IsNamed xs
    → check_ids seen xs ≡ ok tt
    → Fresh ids (public_ids xs)
check_ids-Fresh seen ids [] c n e = tt
check_ids-Fresh seen ids (s ∷ xs) c n e = elim (check_ids-cons seen s xs e) [
  | inl (z, rest) ↦ elim (Bool-cases (str_eq s.kind "x25519")) [
    | inl x ↦ absurd (omega (arith, n.0 x))
    | inr x ↦ rw x (check_ids-Fresh seen ids xs c n.1 rest)
  ]
  | inr (pos, new, rest) ↦ elim (Bool-cases (str_eq s.kind "x25519")) [
    | inl x ↦ rw x (
      pos,
      unseen s.id seen ids c new,
      check_ids-Fresh (s.id ∷ seen) (s.id ∷ ids) xs (Covers-cons s.id seen ids c) n.1 rest,
    )
    | inr x ↦ rw x (check_ids-Fresh (s.id ∷ seen) ids xs (Covers-skip s.id seen ids c) n.1 rest)
  ]
]

replacement_checked :
    (kept : List RecipientStanza)
    → check_replacement kept ≡ ok tt
    → (0 < length kept) × (length kept ≤ max_recipients) × (check_ids [] kept ≡ ok tt)
unfolding check_replacement
replacement_checked kept e = ground arith

-- The replacement of `Rekey` is a recipient list that `readHeader` lets through, with 1 to 64
-- recipients, when the old header's recipients and the added ones are such lists, the checks of
-- `Rekey` pass, and no password is added beside one that is kept: none is added, or the symmetric
-- recipients are replaced.
pub replacement-IsAllowed :
    (remove : List Bytes) (replace : Bool) (old added : List RecipientStanza)
    → IsAllowed none_seen old
    → IsAllowed none_seen added
    → (passwords added ≡ 0) ⊎ (replace ≡ true)
    → check_replacement (keep remove replace old ++ added) ≡ ok tt
    → IsAllowed none_seen (keep remove replace old ++ added)
      × (0 < length (keep remove replace old ++ added))
      × (length (keep remove replace old ++ added) ≤ max_recipients)
replacement-IsAllowed remove replace old added a b one e =
    let (pos, most, ids) = replacement_checked (keep remove replace old ++ added) e in
    let named =
      All-append IsNamed (keep remove replace old) added
        (All-keep IsNamed remove replace old (Fresh-IsNamed [] old a.fresh_ids))
        (Fresh-IsNamed [] added b.fresh_ids) in
    let kept_passwords : passwords (keep remove replace old) + passwords added ≤ 1 = elim one [
      | inl z ↦ omega (arith, passwords-keep remove replace old, a.one_password)
      | inr r ↦ rw r (omega (arith, passwords-keep_replaced remove old, b.one_password))
    ] in
    (
      record {
        known =
            All-append IsKnown (keep remove replace old) added
              (All-keep IsKnown remove replace old a.known) b.known;
        one_password = omega (arith, passwords-append (keep remove replace old) added);
        fresh_ids = check_ids-Fresh [] [] _ (λ x h. h) named ids;
      },
      pos,
      most,
    )

-- The ids that are not empty.
abbrev pub named_ids : List RecipientStanza → List Bytes
named_ids [] = []
named_ids (s ∷ xs) = let rest = named_ids xs in if length s.id == 0 then rest else s.id ∷ rest

Fresh-check_ids :
    (seen : List Bytes) (xs : List RecipientStanza)
    → Fresh seen (named_ids xs)
    → check_ids seen xs ≡ ok tt
unfolding check_ids
Fresh-check_ids seen [] f = refl
Fresh-check_ids seen (s ∷ xs) f = elim (Bool-cases (length s.id == 0)) [
  | inl z ↦ rw z (Fresh-check_ids seen xs (rw z at f))
  | inr z ↦
      let g : Fresh seen (s.id ∷ named_ids xs) = rw z at f in
      rw (z, g.1) (Fresh-check_ids (s.id ∷ seen) xs g.2)
]

positive : (xs : List RecipientStanza) → 0 < passwords xs → 0 < length xs
positive [] h = h
positive (s ∷ xs) h = omega arith

-- Without the replacement of symmetric recipients the checks of `Rekey` have a gap: when a password
-- recipient is kept and another is added, there are at most 64 recipients and no id is there twice,
-- the checks of `Rekey` pass, and `readHeader` accepts no header with these recipients.
pub second_password_refused :
    (remove : List Bytes) (old added : List RecipientStanza) (fmt : Formats) (bytes : Bytes)
    (h : Header)
    → 0 < passwords (keep remove false old)
    → 0 < passwords added
    → length (keep remove false old ++ added) ≤ max_recipients
    → Fresh [] (named_ids (keep remove false old ++ added))
    → h.recipients ≡ keep remove false old ++ added
    → (check_replacement (keep remove false old ++ added) ≡ ok tt)
      × (parse_header fmt bytes ≢ ok (h, fmt.marshal_immutable h.fixed))
unfolding check_replacement
second_password_refused remove old added fmt bytes h p q few ids written =
    let new = keep remove false old ++ added in
    let some_kept = positive (keep remove false old) p in
    let size = length-append (keep remove false old) added in
    let full : (length new == 0) ≡ false = ground arith in
    let small : ltb max_recipients (length new) ≡ false = ground arith in
    (
      rw (full, small) (Fresh-check_ids [] new ids),
      λ e.
          let read = (parse_header_iff fmt bytes h).0 e in
          let one = subst (IsAllowed none_seen) written read.allowed in
          absurd (omega (arith, passwords-append (keep remove false old) added, one.one_password)),
    )
