-- ===== src/Stream/Laws.antt =====
-- Laws of the stream operations: reading what stands in front, a quiet environment, and inversion
-- of a successful bind.
use cypherstorm.Base.{
  ℕ, ◌<◌, ◌≡◌, refl, ap, sym, ◌∙◌, Option, none, some, List, [], ◌∷◌, ◌++◌, arith, Bytes, length,
  take, le→leb, lt→leb, length-append, take-append, drop-append,
}
use cypherstorm.Fault.{Error, Result, ok, err}
use cypherstorm.Stream.{
  Reader, filled, ended, end_error, read_full, World, Env, Io, continue, check_context, write,
  write_whole, raise_some,
}

-- A reader with these bytes in front, and no error at its end.
abbrev pub plain : Bytes → Reader
plain b = record { bytes = b; fault = none }

pub read_full_front :
    (n : ℕ) (xs ys : Bytes) (e : Option Error)
    → length xs ≡ n
    → read_full n (record { bytes = xs ++ ys; fault = e })
      ≡ record { got = xs; status = filled; rest = record { bytes = ys; fault = e } }
unfolding read_full
read_full_front n xs ys e h = rw (← h) rw (
  le→leb (length xs) (length (xs ++ ys)) (omega (arith, length-append xs ys)),
  take-append xs ys,
  drop-append xs ys,
)

pub read_full_short :
    (n : ℕ) (r : Reader)
    → length r.bytes < n
    → read_full n r ≡ record {
      got = r.bytes;
      status = ended (end_error r.fault r.bytes);
      rest = record r { bytes = [] };
    }
unfolding read_full
read_full_short n r h = rw (lt→leb n (length r.bytes) h)

-- The environment in which nothing fails.
pub record IsQuiet (env : Env) : Type 0 where
  pub live : (w : World) → env.ctx_err w ≡ none
  pub takes : (before chunk : Bytes) → env.accept before chunk ≡ (length chunk, none)

take_all {ℓ} : {A : Type ℓ} (xs : List A) → take (length xs) xs ≡ xs
take_all [] = refl
take_all (x ∷ xs) = ap (λ l. x ∷ l) (take_all xs)

module _ {env : Env} (quiet : IsQuiet env) where
  pub check_context_quiet : (w : World) → check_context env w ≡ (ok tt, w)
  unfolding check_context
  check_context_quiet w = rw (quiet.live w)

  pub write_quiet :
      (b : Bytes) (w : World) → write env b w ≡ (ok tt, record w { written = w.written ++ b })
  unfolding write
  write_quiet b w = rw (quiet.takes w.written b, take_all b)

  pub write_whole_quiet :
      (b : Bytes) (w : World) → write_whole env b w ≡ (ok tt, record w { written = w.written ++ b })
  unfolding write_whole
  write_whole_quiet b w = ground (arith, quiet.takes w.written b, take_all b)

-- The contract of io.Writer: a Write that takes fewer bytes than it was given returns an error.
pub record IsHonest (env : Env) : Type 0 where
  pub takes_all :
      (before chunk : Bytes)
      → (env.accept before chunk).1 ≡ none
      → (env.accept before chunk).0 ≡ length chunk

-- Inversion of a successful bind.
pub continue-eq-ok {ℓ} :
    {A B : Type ℓ} (f : A → Io B) (r : Result A × World) {b : B} {w : World}
    → continue f r ≡ (ok b, w)
    → (a : A) × (v : World) × (r ≡ (ok a, v)) × (f a v ≡ (ok b, w))
continue-eq-ok f (ok a, v) h = (a, v, refl, h)
continue-eq-ok f (err e, v) h = cc

pub pair_fst {ℓ} : {A B : Type ℓ} {a a' : A} {b b' : B} → ◌≡◌ {A = A × B} (a, b) (a', b') → a ≡ a'
pair_fst e = ap (λ p. p.0) e

pub pair_snd {ℓ} : {A B : Type ℓ} {a a' : A} {b b' : B} → ◌≡◌ {A = A × B} (a, b) (a', b') → b ≡ b'
pair_snd e = ap (λ p. p.1) e

pub check_context-same :
    (env : Env) (w : World) {v : World} → check_context env w ≡ (ok tt, v) → w ≡ v
unfolding check_context
check_context-same env w e = pair_snd e

write_honest :
    (n : ℕ) (e : Option Error) (b : Bytes) (w v : World)
    → (e ≡ none → n ≡ length b)
    → ◌≡◌ {A = Result (Unit {0}) × World}
        (raise_some e, record w { written = w.written ++ take n b })
        (ok tt, v)
    → record w { written = w.written ++ b } ≡ v
write_honest n none b w v h e =
    ap (λ x. record w { written = w.written ++ x }) (sym (ap (λ m. take m b) (h refl) ∙ take_all b))
    ∙ pair_snd e
write_honest n (some x) b w v h e = cc (pair_fst e)

-- A Write without an error has appended the whole chunk.
pub write-eq-ok :
    {env : Env} (honest : IsHonest env) (b : Bytes) (w : World) {v : World}
    → write env b w ≡ (ok tt, v)
    → record w { written = w.written ++ b } ≡ v
unfolding write
write-eq-ok honest b w {v} e = write_honest _ _ b w v (honest.takes_all w.written b) e
