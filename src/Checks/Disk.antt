-- ===== src/Checks/Disk.antt =====
-- A file system as a map from directories and names, with a schedule of the errors of its next
-- calls; a call that fails changes nothing.
use cypherstorm.Base.{
  ◌≡◌, ◌≢◌, refl, sym, ap, ◌∙◌, subst, Bool, true, false, ◌&&◌, Option, none, some, List, [], ◌∷◌,
  ◌++◌, Bytes, codes, same, same_refl, same→eq, Bool-cases, inl, inr, if◌then◌else◌,
}
use cypherstorm.Fault.{Error, Result, ok, err, ok-injective, not_exist, output_exists}
use cypherstorm.Stream.Laws.{pair_fst, pair_snd}
use cypherstorm.Storage.Paths.{dir}
use cypherstorm.Storage.Files.{Node, Outcome, Disk}
use cypherstorm.Storage.Files.Laws.{base, with_mode, Others, IsMade, IsMoved, IsDisk}

abbrev pub Entries : Type 0
Entries = Bytes → Bytes → Option Node

pub record Volume : Type 0 where
  pub entries : Entries
  pub faults : List (Option Error)

abbrev turned : List (Option Error) → Entries → Entries → Outcome Volume
turned [] old new = (none, record { entries = new; faults = [] })
turned (none ∷ fs) old new = (none, record { entries = new; faults = fs })
turned (some e ∷ fs) old new = (some e, record { entries = old; faults = fs })

abbrev turn : Volume → Entries → Outcome Volume
turn w new = turned w.faults w.entries new

unfoldable pub put_entry : Bytes → Bytes → Option Node → Entries → Entries
put_entry d n o m e k = if same e d && same k n then o else m e k

unfoldable pub moved_entry : Bytes → Bytes → Entries → Entries
moved_entry a b m e k =
    if same e (dir b) && same k (base b)
    then m (dir a) (base a)
    else if same e (dir a) && same k (base a)
    then none
    else m e k

abbrev found : Option Node → Result Node
found none = err not_exist
found (some x) = ok x

abbrev pub temp_name : Bytes → Bytes
temp_name d = d ++ codes "/.tmp"

abbrev fresh_name : Bytes → Bytes → Option Node → Bool → Volume → Result Bytes × Volume
fresh_name d t none true w = (ok t, w)
fresh_name d t _ _ w = (err output_exists, w)

abbrev new_name : Bytes → Volume → Result Bytes × Volume
new_name d w = let t = temp_name d in fresh_name d t (w.entries d (base t)) (same (dir t) d) w

abbrev unless_taken : Option Node → Volume → Entries → Outcome Volume
unless_taken none w new = turn w new
unless_taken (some x) w new = (some output_exists, w)

abbrev pub volume : Disk Volume
volume = record {
  stat = λ p w. found (w.entries (dir p) (base p));
  lstat = λ p w. found (w.entries (dir p) (base p));
  create_temp = new_name;
  mkdir_temp = new_name;
  sync = λ p w. turn w w.entries;
  close = λ p w. turn w w.entries;
  chmod = λ p m w.
      turn w (put_entry (dir p) (base p) (with_mode m (w.entries (dir p) (base p))) w.entries);
  remove = λ p w. turn w (put_entry (dir p) (base p) none w.entries);
  remove_all = λ p w. turn w (put_entry (dir p) (base p) none w.entries);
  rename = λ a b w. turn w (moved_entry a b w.entries);
  rename_no_replace =
      λ a b w. unless_taken (w.entries (dir b) (base b)) w (moved_entry a b w.entries);
}

abbrev pub entry : Bytes → Bytes → Volume → Option Node
entry d n w = w.entries d n

-- A call that succeeded made the change; one that failed made none.
turned-done :
    (fs : List (Option Error)) (old new : Entries) (w' : Volume)
    → turned fs old new ≡ (none, w')
    → w'.entries ≡ new
turned-done [] old new w' e = ap (λ (v : Volume). v.entries) (sym (pair_snd e))
turned-done (none ∷ fs) old new w' e = ap (λ (v : Volume). v.entries) (sym (pair_snd e))
turned-done (some x ∷ fs) old new w' e = cc (pair_fst e)

turned-failed :
    (fs : List (Option Error)) (old new : Entries) (w' : Volume) (x : Error)
    → turned fs old new ≡ (some x, w')
    → w'.entries ≡ old
turned-failed [] old new w' x e = cc (pair_fst e)
turned-failed (none ∷ fs) old new w' x e = cc (pair_fst e)
turned-failed (some y ∷ fs) old new w' x e = ap (λ (v : Volume). v.entries) (sym (pair_snd e))

-- What holds of both maps holds after the call.
turned-either :
    (P : Entries → Type 0) (fs : List (Option Error)) (old new : Entries) (w' : Volume)
    (r : Option Error)
    → P old
    → P new
    → turned fs old new ≡ (r, w')
    → P w'.entries
turned-either P fs old new w' none p q e = subst P (sym (turned-done fs old new w' e)) q
turned-either P fs old new w' (some x) p q e = subst P (sym (turned-failed fs old new w' x e)) p

pub put_entry-hit : (d n : Bytes) (o : Option Node) (m : Entries) → put_entry d n o m d n ≡ o
unfolding put_entry
put_entry-hit d n o m = rw (same_refl d, same_refl n) refl

differ : (x y : Bytes) → x ≢ y → same x y ≡ false
differ x y n = elim (Bool-cases (same x y)) [ inl e ↦ absurd (n (same→eq x y e)) | inr e ↦ e ]

pub put_entry-miss :
    (d n k : Bytes) (o : Option Node) (m : Entries) → k ≢ n → put_entry d n o m d k ≡ m d k
unfolding put_entry
put_entry-miss d n k o m other = rw (same_refl d, differ k n other) refl

-- Inside one directory.
moved_entry-same :
    (d a b k : Bytes) (m : Entries)
    → dir a ≡ d
    → dir b ≡ d
    → moved_entry a b m d k
      ≡ (if same k (base b) then m d (base a) else if same k (base a) then none else m d k)
unfolding moved_entry
moved_entry-same d a b k m p q = rw (p, q, same_refl d) refl

moved_entry-IsMoved :
    (d a b : Bytes) (w w' : Volume)
    → dir a ≡ d
    → dir b ≡ d
    → w'.entries ≡ moved_entry a b w.entries
    → IsMoved entry d (base a) (base b) w w'
moved_entry-IsMoved d a b w w' p q e = record {
  target =
      ap (λ (m : Entries). m d (base b)) e
      ∙ moved_entry-same d a b (base b) w.entries p q
      ∙ rw (same_refl (base b)) refl;
  source = λ n.
      ap (λ (m : Entries). m d (base a)) e
      ∙ moved_entry-same d a b (base a) w.entries p q
      ∙ rw (differ (base a) (base b) n, same_refl (base a)) refl;
  others = λ n x y.
      ap (λ (m : Entries). m d n) e
      ∙ moved_entry-same d a b n w.entries p q
      ∙ rw (differ n (base b) y, differ n (base a) x) refl;
}

put_entry-Others :
    (d n : Bytes) (o : Option Node) (w w' : Volume) (r : Option Error)
    → turn w (put_entry d n o w.entries) ≡ (r, w')
    → Others entry d n w w'
put_entry-Others d n o w w' r e =
    turned-either (λ m. (k : Bytes) → k ≢ n → m d k ≡ w.entries d k) w.faults w.entries _ w' r
      (λ k other. refl) (λ k other. put_entry-miss d n k o w.entries other) e

found-ok : (o : Option Node) (x : Node) → found o ≡ ok x → o ≡ some x
found-ok none x e = cc
found-ok (some y) x e = ap some (ok-injective e)

new_name-IsMade :
    (d t u : Bytes) (o : Option Node) (b : Bool) (w w' : Volume)
    → w.entries d (base t) ≡ o
    → same (dir t) d ≡ b
    → fresh_name d t o b w ≡ (ok u, w')
    → IsMade entry d u w w'
new_name-IsMade d t u none true w w' q p e =
    let same_name : t ≡ u = ok-injective (pair_fst e) in
    let same_state : w ≡ w' = pair_snd e in
    record {
      in_dir = subst (λ z. dir z ≡ d) same_name (same→eq (dir t) d p);
      was_free = subst (λ z. w.entries d (base z) ≡ none) same_name q;
      others = λ m n. ap (λ (v : Volume). v.entries d m) (sym same_state);
    }
new_name-IsMade d t u none false w w' q p e = cc (pair_fst e)
new_name-IsMade d t u (some x) b w w' q p e = cc (pair_fst e)

new_name-failed :
    (d t : Bytes) (o : Option Node) (b : Bool) (w w' : Volume) (x : Error)
    → fresh_name d t o b w ≡ (err x, w')
    → (n : Bytes) → w'.entries d n ≡ w.entries d n
new_name-failed d t none true w w' x e n = cc (pair_fst e)
new_name-failed d t none false w w' x e n = ap (λ (v : Volume). v.entries d n) (sym (pair_snd e))
new_name-failed d t (some y) b w w' x e n = ap (λ (v : Volume). v.entries d n) (sym (pair_snd e))

unless_taken-done :
    (o : Option Node) (w w' : Volume) (new : Entries)
    → unless_taken o w new ≡ (none, w')
    → (w'.entries ≡ new) × (o ≡ none)
unless_taken-done none w w' new e = (turned-done w.faults w.entries new w' e, refl)
unless_taken-done (some x) w w' new e = cc (pair_fst e)

unless_taken-failed :
    (o : Option Node) (w w' : Volume) (new : Entries) (x : Error)
    → unless_taken o w new ≡ (some x, w')
    → w'.entries ≡ w.entries
unless_taken-failed none w w' new x e = turned-failed w.faults w.entries new w' x e
unless_taken-failed (some y) w w' new x e = ap (λ (v : Volume). v.entries) (sym (pair_snd e))

at_name : {m m' : Entries} (d n : Bytes) → m ≡ m' → m d n ≡ m' d n
at_name d n e = ap (λ (z : Entries). z d n) e

pub volume-IsDisk : IsDisk entry volume
volume-IsDisk = record {
  lstat_reads = λ p w x e. found-ok (w.entries (dir p) (base p)) x e;
  create_makes = λ p t w w' e. new_name-IsMade (dir p) (temp_name (dir p)) t _ _ w w' refl refl e;
  create_fails = λ p w w' x e n. new_name-failed (dir p) (temp_name (dir p)) _ _ w w' x e n;
  mkdir_makes = λ p t w w' e. new_name-IsMade (dir p) (temp_name (dir p)) t _ _ w w' refl refl e;
  mkdir_fails = λ p w w' x e n. new_name-failed (dir p) (temp_name (dir p)) _ _ w w' x e n;
  sync_keeps = λ p d w w' r e n.
      turned-either (λ m. m d n ≡ w.entries d n) w.faults w.entries _ w' r refl refl e;
  close_keeps = λ p d w w' r e n.
      turned-either (λ m. m d n ≡ w.entries d n) w.faults w.entries _ w' r refl refl e;
  chmod_sets = λ p m w w' e.
      at_name (dir p) (base p) (turned-done w.faults w.entries _ w' e)
      ∙ put_entry-hit (dir p) (base p) _ w.entries;
  chmod_others = λ p m w w' r e. put_entry-Others (dir p) (base p) _ w w' r e;
  remove_removes = λ p w w' e.
      at_name (dir p) (base p) (turned-done w.faults w.entries _ w' e)
      ∙ put_entry-hit (dir p) (base p) _ w.entries;
  remove_others = λ d p w w' r q e.
      subst (λ z. Others entry z (base p) w w') q (put_entry-Others (dir p) (base p) none w w' r e);
  remove_all_others = λ d p w w' r q e.
      subst (λ z. Others entry z (base p) w w') q (put_entry-Others (dir p) (base p) none w w' r e);
  rename_moves = λ d a b w w' p q e.
      moved_entry-IsMoved d a b w w' p q (turned-done w.faults w.entries _ w' e);
  rename_fails = λ a b d w w' x e n. at_name d n (turned-failed w.faults w.entries _ w' x e);
  no_replace_moves = λ d a b w w' p q e.
      let (moved, free) = unless_taken-done _ w w' _ e in
      (moved_entry-IsMoved d a b w w' p q moved, subst (λ z. w.entries z (base b) ≡ none) q free);
  no_replace_fails = λ a b d w w' x e n. at_name d n (unless_taken-failed _ w w' _ x e);
}
