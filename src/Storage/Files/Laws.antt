-- ===== src/Storage/Files/Laws.antt =====
-- What publication relies on of the file system: which names of a directory a call changes, and
-- what it leaves there. `entry d n w` is what stands in directory `d` under the name `n`.
use cypherstorm.Base.{
  ℕ, ◌≡◌, ◌≢◌, refl, Option, none, some, [], ◌∷◌, Bytes, ◌==◌, if◌then◌else◌, ◌⊎◌, inl, inr,
  Bool-cases, same, same→eq, same_refl, false, ◌∙◌, sym, ap, subst,
}
use cypherstorm.Fault.{Error, ok, err}
use cypherstorm.Storage.Names.{contains}
use cypherstorm.Storage.Paths.{dir}
use cypherstorm.Storage.Files.{Node, Outcome, Disk, ◌then◌}

-- What stands behind the last slash of a path: its name in `dir p`.
unfoldable pub base : Bytes → Bytes
base [] = []
base (c ∷ cs) =
    let rest = base cs in if contains 47 cs then rest else if c == 47 then cs else c ∷ cs

abbrev pub with_mode : ℕ → Option Node → Option Node
with_mode m none = none
with_mode m (some node) = some (record node { mode = m })

module _ {W : Type 0} (entry : Bytes → Bytes → W → Option Node) where
  -- Directory `d` is as before; it is, but for one name; it still has all that it had.
  abbrev pub Unchanged : Bytes → W → W → Type 0
  Unchanged d w w' = (n : Bytes) → entry d n w' ≡ entry d n w

  abbrev pub Others : Bytes → Bytes → W → W → Type 0
  Others d n w w' = (m : Bytes) → m ≢ n → entry d m w' ≡ entry d m w

  abbrev pub Kept : Bytes → W → W → Type 0
  Kept d w w' = (n : Bytes) (x : Node) → entry d n w ≡ some x → entry d n w' ≡ some x

  -- What stands at a path.
  abbrev pub at_path : Bytes → W → Option Node
  at_path p w = entry (dir p) (base p) w

  -- A name of a directory that was free is made, and nothing else changes.
  pub record IsMade (d tmp : Bytes) (w w' : W) : Type 0 where
    pub in_dir : dir tmp ≡ d
    pub was_free : entry d (base tmp) w ≡ none
    pub others : Others d (base tmp) w w'

  -- A rename inside one directory.
  pub record IsMoved (d from to : Bytes) (w w' : W) : Type 0 where
    pub target : entry d to w' ≡ entry d from w
    pub source : from ≢ to → entry d from w' ≡ none
    pub others : (n : Bytes) → n ≢ from → n ≢ to → entry d n w' ≡ entry d n w

  pub record IsDisk (disk : Disk W) : Type 0 where
    pub lstat_reads : (p : Bytes) (w : W) (x : Node) → disk.lstat p w ≡ ok x → at_path p w ≡ some x
    pub create_makes :
        (p t : Bytes) (w w' : W) → disk.create_temp (dir p) w ≡ (ok t, w') → IsMade (dir p) t w w'
    pub create_fails :
        (p : Bytes) (w w' : W) (e : Error)
        → disk.create_temp (dir p) w ≡ (err e, w')
        → Unchanged (dir p) w w'
    pub mkdir_makes :
        (p t : Bytes) (w w' : W) → disk.mkdir_temp (dir p) w ≡ (ok t, w') → IsMade (dir p) t w w'
    pub mkdir_fails :
        (p : Bytes) (w w' : W) (e : Error)
        → disk.mkdir_temp (dir p) w ≡ (err e, w')
        → Unchanged (dir p) w w'
    pub sync_keeps :
        (p d : Bytes) (w w' : W) (r : Option Error) → disk.sync p w ≡ (r, w') → Unchanged d w w'
    pub close_keeps :
        (p d : Bytes) (w w' : W) (r : Option Error) → disk.close p w ≡ (r, w') → Unchanged d w w'
    pub chmod_sets :
        (p : Bytes) (m : ℕ) (w w' : W)
        → disk.chmod p m w ≡ (none, w')
        → at_path p w' ≡ with_mode m (at_path p w)
    pub chmod_others :
        (p : Bytes) (m : ℕ) (w w' : W) (r : Option Error)
        → disk.chmod p m w ≡ (r, w')
        → Others (dir p) (base p) w w'
    pub remove_removes : (p : Bytes) (w w' : W) → disk.remove p w ≡ (none, w') → at_path p w' ≡ none
    pub remove_others :
        (d p : Bytes) (w w' : W) (r : Option Error)
        → dir p ≡ d
        → disk.remove p w ≡ (r, w')
        → Others d (base p) w w'
    pub remove_all_others :
        (d p : Bytes) (w w' : W) (r : Option Error)
        → dir p ≡ d
        → disk.remove_all p w ≡ (r, w')
        → Others d (base p) w w'
    pub rename_moves :
        (d a b : Bytes) (w w' : W)
        → dir a ≡ d
        → dir b ≡ d
        → disk.rename a b w ≡ (none, w')
        → IsMoved d (base a) (base b) w w'
    pub rename_fails :
        (a b d : Bytes) (w w' : W) (e : Error) → disk.rename a b w ≡ (some e, w') → Unchanged d w w'
    pub no_replace_moves :
        (d a b : Bytes) (w w' : W)
        → dir a ≡ d
        → dir b ≡ d
        → disk.rename_no_replace a b w ≡ (none, w')
        → IsMoved d (base a) (base b) w w' × (entry d (base b) w ≡ none)
    pub no_replace_fails :
        (a b d : Bytes) (w w' : W) (e : Error)
        → disk.rename_no_replace a b w ≡ (some e, w')
        → Unchanged d w w'

  -- A name that was free is not one that had something.
  pub apart :
      (d t n : Bytes) (w v : W) (x : Node) → IsMade d t w v → entry d n w ≡ some x → n ≢ base t
  apart d t n w v x made q e = cc (made.was_free, q, ap (λ m. entry d m w) e)

  pub made-Kept : (d t : Bytes) (w v w' : W) → IsMade d t w v → Others d (base t) v w' → Kept d w w'
  made-Kept d t w v w' made rest n x q =
      let other = apart d t n w v x made q in rest n other ∙ made.others n other ∙ q

pub eq_or_not : (x y : Bytes) → (x ≡ y) ⊎ (x ≢ y)
eq_or_not x y = elim (Bool-cases (same x y)) [
  | inl e ↦ inl (same→eq x y e)
  | inr n ↦ inr (λ e. cc (same_refl x, subst (λ z. same x z ≡ false) (sym e) n))
]

-- What a function between states keeps, whatever it returns.
abbrev pub Stays : {W : Type 0} → (W → W → Type 0) → (W → Outcome W) → Type 0
Stays {W = W} R f = (w w' : W) (r : Option Error) → f w ≡ (r, w') → R w w'

pub then-eq-done :
    {W : Type 0} {w' : W} (c : Outcome W) (next : W → Outcome W)
    → (c then next) ≡ (none, w')
    → (v : W) × (c ≡ (none, v)) × (next v ≡ (none, w'))
then-eq-done (none, v) next e = (v, refl, e)
then-eq-done (some x, v) next e = cc (ap (λ p. p.0) e)

pub then-eq-failed :
    {W : Type 0} {w' : W} {x : Error} (c : Outcome W) (next : W → Outcome W)
    → (c then next) ≡ (some x, w')
    → (c ≡ (some x, w')) ⊎ ((v : W) × (c ≡ (none, v)) × (next v ≡ (some x, w')))
then-eq-failed (none, v) next e = inr (v, refl, e)
then-eq-failed (some y, v) next e = inl e

pub then-Stays :
    {W : Type 0} (R : W → W → Type 0)
    → ((u v w : W) → R u v → R v w → R u w)
    → (f : W → Outcome W) (next : W → Outcome W) → Stays R f
    → Stays R next
    → Stays R (λ w. f w then next)
then-Stays R trans f next hf hn w w' r e = by_first (f w) refl e
  where
    by_first : (c : Outcome _) → f w ≡ c → (c then next) ≡ (r, w') → R w w'
    by_first (none, v) q e = trans w v w' (hf w v none q) (hn v w' r e)
    by_first (some x, v) q e = hf w w' r (q ∙ e)
