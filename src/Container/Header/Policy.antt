-- ===== src/Container/Header/Policy.antt =====
-- Which recipient lists `readHeader` lets through.
use cypherstorm.Base.{
  ℕ, ◌+◌, ◌≤◌, ◌<◌, ◌≡◌, inl, inr, refl, sym, ap, subst, true, false, List, [], ◌∷◌, String, str_eq,
  str_eq_iff, Bytes, length, ◌||◌, if◌then◌else◌, arith, Bool-cases, All,
}
use cypherstorm.Fault.{ok, >>=-eq-ok}
use cypherstorm.Container.Header.{RecipientStanza, Seen, has, check_stanza, check_stanzas}

-- The recipients of one type, and the ids of the X25519 recipients.
abbrev pub passwords : List RecipientStanza → ℕ
passwords [] = 0
passwords (s ∷ stanzas) = (if str_eq s.kind "password" then 1 else 0) + passwords stanzas

abbrev pub public_ids : List RecipientStanza → List Bytes
public_ids [] = []
public_ids (s ∷ stanzas) =
    let rest = public_ids stanzas in if str_eq s.kind "x25519" then s.id ∷ rest else rest

abbrev pub Fresh : List Bytes → List Bytes → Type 0
Fresh ids [] = Unit
Fresh ids (x ∷ xs) = (0 < length x) × (has x ids ≡ false) × Fresh (x ∷ ids) xs

abbrev pub IsKnown : RecipientStanza → Type 0
IsKnown s = (str_eq s.kind "password" || str_eq s.kind "raw-key" || str_eq s.kind "x25519") ≡ true

-- A recipient list within the policy: known types, at most one password recipient (counting `n`
-- seen before), and nonempty ids of the X25519 recipients, each new.
pub record IsAllowed (seen : Seen) (stanzas : List RecipientStanza) : Type 0 where
  pub known : All IsKnown stanzas
  pub one_password : seen.passwords + passwords stanzas ≤ 1
  pub fresh_ids : Fresh seen.ids (public_ids stanzas)

-- How the switch on a stanza's type goes; the tests that it does not reach are false too.
data KindCase (k : String) : Type 0 where
  is_password : str_eq k "password" ≡ true → str_eq k "x25519" ≡ false → KindCase k
  is_raw_key :
      str_eq k "password" ≡ false
      → str_eq k "raw-key" ≡ true
      → str_eq k "x25519" ≡ false
      → KindCase k
  is_x25519 :
      str_eq k "password" ≡ false
      → str_eq k "raw-key" ≡ false
      → str_eq k "x25519" ≡ true
      → KindCase k
  is_unknown :
      str_eq k "password" ≡ false
      → str_eq k "raw-key" ≡ false
      → str_eq k "x25519" ≡ false
      → KindCase k

-- Equal to one literal, a text is not equal to another.
not_both : (k a b : String) → str_eq a b ≡ false → str_eq k a ≡ true → str_eq k b ≡ false
not_both k a b differ e = rw ((str_eq_iff k a).0 e) differ

kind_case : (k : String) → KindCase k
kind_case k = elim (Bool-cases (str_eq k "password")) [
  | inl p ↦ is_password p (not_both k "password" "x25519" refl p)
  | inr np ↦ elim (Bool-cases (str_eq k "raw-key")) [
    | inl r ↦ is_raw_key np r (not_both k "raw-key" "x25519" refl r)
    | inr nr ↦ elim (Bool-cases (str_eq k "x25519")) [
      | inl x ↦ is_x25519 np nr x
      | inr nx ↦ is_unknown np nr nx
    ]
  ]
]

-- One round of the loop, and the rest of the list under what it has seen.
step_IsAllowed :
    (seen mid : Seen) (s : RecipientStanza) (stanzas : List RecipientStanza)
    → KindCase s.kind
    → check_stanza seen s ≡ ok mid
    → IsAllowed mid stanzas
    → IsAllowed seen (s ∷ stanzas)
unfolding check_stanza
step_IsAllowed seen mid s stanzas (is_password p x) e a =
    let facts : (seen.passwords + 1 ≤ 1) × (record seen { passwords = seen.passwords + 1 } ≡ mid) =
      ground arith in
    let count : mid.passwords ≡ seen.passwords + 1 = ap (λ (m : Seen). m.passwords) (sym facts.1) in
    record {
      known = (rw p refl, a.known);
      one_password = rw p (omega (arith, a.one_password, count));
      fresh_ids =
          rw x (subst (λ (m : Seen). Fresh m.ids (public_ids stanzas)) (sym facts.1) a.fresh_ids);
    }
step_IsAllowed seen mid s stanzas (is_raw_key np r x) e a =
    let same_seen : seen ≡ mid = ground arith in
    let count : mid.passwords ≡ seen.passwords = ap (λ (m : Seen). m.passwords) (sym same_seen) in
    record {
      known = (rw (np, r) refl, a.known);
      one_password = rw np (omega (arith, a.one_password, count));
      fresh_ids =
          rw x (subst (λ (m : Seen). Fresh m.ids (public_ids stanzas)) (sym same_seen) a.fresh_ids);
    }
step_IsAllowed seen mid s stanzas (is_x25519 np nr x) e a =
    let facts : (0 < length s.id)
        × (has s.id seen.ids ≡ false)
        × (record seen { ids = s.id ∷ seen.ids } ≡ mid) =
      ground arith in
    let count : mid.passwords ≡ seen.passwords = ap (λ (m : Seen). m.passwords) (sym facts.2) in
    record {
      known = (rw (np, nr, x) refl, a.known);
      one_password = rw np (omega (arith, a.one_password, count));
      fresh_ids = rw x (
        facts.0,
        facts.1,
        subst (λ (m : Seen). Fresh m.ids (public_ids stanzas)) (sym facts.2) a.fresh_ids,
      );
    }
step_IsAllowed seen mid s stanzas (is_unknown np nr nx) e a = ground arith

check_stanza_count :
    (seen mid : Seen) (s : RecipientStanza)
    → seen.passwords ≤ 1
    → check_stanza seen s ≡ ok mid
    → mid.passwords ≤ 1
unfolding check_stanza
check_stanza_count seen mid s p e = ground arith

pub check_stanzas-IsAllowed :
    (seen last : Seen) (stanzas : List RecipientStanza)
    → seen.passwords ≤ 1
    → check_stanzas seen stanzas ≡ ok last
    → IsAllowed seen stanzas
unfolding check_stanzas
check_stanzas-IsAllowed seen last [] p h = record {
  known = tt;
  one_password = omega arith;
  fresh_ids = tt;
}
check_stanzas-IsAllowed seen last (s ∷ stanzas) p h =
    let (mid, e, rest) = >>=-eq-ok (check_stanza seen s) (λ m. check_stanzas m stanzas) h in
    step_IsAllowed seen mid s stanzas (kind_case s.kind) e
      (check_stanzas-IsAllowed mid last stanzas (check_stanza_count seen mid s p e) rest)

-- The other direction: a list within the policy passes.
IsAllowed-step :
    (seen : Seen) (s : RecipientStanza) (stanzas : List RecipientStanza)
    → KindCase s.kind
    → IsAllowed seen (s ∷ stanzas)
    → (mid : Seen) × (check_stanza seen s ≡ ok mid) × IsAllowed mid stanzas
unfolding check_stanza
IsAllowed-step seen s stanzas (is_password p x) a =
    let one : seen.passwords + (1 + passwords stanzas) ≤ 1 = rw p at a.one_password in
    (
      record seen { passwords = seen.passwords + 1 },
      rw p (ground arith),
      record { known = a.known.1; one_password = omega arith; fresh_ids = rw x at a.fresh_ids },
    )
IsAllowed-step seen s stanzas (is_raw_key np r x) a =
    let one : seen.passwords + (0 + passwords stanzas) ≤ 1 = rw np at a.one_password in
    (
      seen,
      rw np rw r refl,
      record { known = a.known.1; one_password = omega arith; fresh_ids = rw x at a.fresh_ids },
    )
IsAllowed-step seen s stanzas (is_x25519 np nr x) a =
    let one : seen.passwords + (0 + passwords stanzas) ≤ 1 = rw np at a.one_password in
    let new : Fresh seen.ids (s.id ∷ public_ids stanzas) = rw x at a.fresh_ids in
    let nonempty = new.0 in
    let absent = new.1 in
    (
      record seen { ids = s.id ∷ seen.ids },
      rw np rw nr rw x (ground arith),
      record { known = a.known.1; one_password = omega arith; fresh_ids = new.2 },
    )
IsAllowed-step seen s stanzas (is_unknown np nr nx) a = cc (rw (np, nr, nx) at a.known.0)

pub IsAllowed-check_stanzas :
    (seen : Seen) (stanzas : List RecipientStanza)
    → IsAllowed seen stanzas
    → (last : Seen) × (check_stanzas seen stanzas ≡ ok last)
unfolding check_stanzas
IsAllowed-check_stanzas seen [] a = (seen, refl)
IsAllowed-check_stanzas seen (s ∷ stanzas) a =
    let (mid, e, rest) = IsAllowed-step seen s stanzas (kind_case s.kind) a in
    let (last, f) = IsAllowed-check_stanzas mid stanzas rest in (last, rw e f)
