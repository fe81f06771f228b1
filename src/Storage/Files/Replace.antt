-- ===== src/Storage/Files/Replace.antt =====
-- What `ReplaceDirectory` leaves in the directory that holds the destination.
use cypherstorm.Base.{
  ◌≡◌, ◌≢◌, refl, true, Option, none, some, Bytes, inl, inr, ◌∙◌, sym, ap, subst, same, same→eq,
  not, not-eq-false,
}
use cypherstorm.Fault.{
  Error, Result, ok, err, ◌>>=◌, ◌>>◌, >>=-eq-ok, >>-eq-ok, refuse_if, refuse_if-eq-ok,
  rollback_failed, parents_differ, destination_not_directory,
}
use cypherstorm.Storage.Paths.{dir}
use cypherstorm.Storage.Files.{
  Node, Outcome, Disk, ◌then◌, with_temp, guarded, way_back, settled, swapped, replace_directory,
  reject_symlink_components, is_directory,
}
use cypherstorm.Storage.Files.Laws.{
  base, Kept, at_path, IsMade, IsDisk, apart, made-Kept, eq_or_not,
}

module _ {W : Type 0} (entry : Bytes → Bytes → W → Option Node) (disk : Disk W)
    (h : IsDisk entry disk) (staged_path final : Bytes) (w : W) where
  abbrev parent : Bytes
  parent = dir final

  -- What a call of `ReplaceDirectory` may have done.
  pub data Replaced : Option Error → W → Type 0 where
    -- The staged directory is the destination; a failure was one to remove the old one.
    replaced :
        {r : Option Error} {w' : W}
        → at_path entry final w' ≡ at_path entry staged_path w
        → ((n : Bytes) (x : Node)
            → n ≢ base final
            → n ≢ base staged_path
            → entry parent n w ≡ some x
            → entry parent n w' ≡ some x)
        → Replaced r w'
    -- Everything is in its place.
    refused : {e : Error} {w' : W} → Kept entry parent w w' → Replaced (some e) w'
    -- The way back failed too: the old directory is beside its place, the new one is where it was.
    set_aside :
        {w' : W} (backup : Bytes)
        → entry parent (base backup) w ≡ none
        → entry parent (base backup) w' ≡ at_path entry final w
        → ((n : Bytes) (x : Node)
            → n ≢ base final
            → entry parent n w ≡ some x
            → entry parent n w' ≡ some x)
        → Replaced (some rollback_failed) w'

  -- After the first rename.
  record IsAside (backup : Bytes) (v : W) : Type 0 where
    in_parent : dir backup ≡ parent
    was_free : entry parent (base backup) w ≡ none
    old : entry parent (base backup) v ≡ at_path entry final w
    others :
        (n : Bytes) (x : Node)
        → n ≢ base final
        → entry parent n w ≡ some x
        → entry parent n v ≡ some x

  module _ (x y : Node) (here : at_path entry final w ≡ some x)
      (there : entry parent (base staged_path) w ≡ some y) (beside : dir staged_path ≡ parent)
      (distinct : base staged_path ≢ base final) where
    not_backup :
        (backup n : Bytes) (v : W) (z : Node)
        → IsAside backup v
        → entry parent n w ≡ some z
        → n ≢ base backup
    not_backup backup n v z a q e = cc (a.was_free, q, ap (λ m. entry parent m w) e)

    way_back-Replaced :
        (backup : Bytes) (v w' : W) (e : Error) (r : Option Error) (c : Outcome W)
        → IsAside backup v
        → disk.rename backup final v ≡ c
        → way_back e c ≡ (r, w')
        → Replaced r w'
    unfolding way_back
    way_back-Replaced backup v w' e r (none, u) a q k =
        let moved = h.rename_moves parent backup final v u a.in_parent refl q in
        subst (λ (z : Outcome W). Replaced z.0 z.1) k
          (refused (λ n z o. elim (eq_or_not n (base final)) [
            | inl e' ↦
                subst (λ m. entry parent m u ≡ some z) (sym e')
                  (moved.target ∙ a.old ∙ subst (λ m. entry parent m w ≡ some z) e' o)
            | inr other ↦ moved.others n (not_backup backup n v z a o) other ∙ a.others n z other o
          ]))
    way_back-Replaced backup v w' e r (some f, u) a q k =
        let same_all = h.rename_fails backup final parent v u f q in
        subst (λ (z : Outcome W). Replaced z.0 z.1) k
          (set_aside backup a.was_free (same_all (base backup) ∙ a.old)
            (λ n z other o. same_all n ∙ a.others n z other o))

    settled-Replaced :
        (backup : Bytes) (v w' : W) (r : Option Error) (c : Outcome W)
        → IsAside backup v
        → disk.rename staged_path final v ≡ c
        → settled disk backup final c ≡ (r, w')
        → Replaced r w'
    unfolding settled
    settled-Replaced backup v w' r (none, u) a q k =
        let moved = h.rename_moves parent staged_path final v u beside refl q in
        let gone = h.remove_all_others parent backup u w' r a.in_parent k in
        replaced
          (gone (base final) (not_backup backup (base final) v x a here)
            ∙ moved.target
            ∙ a.others (base staged_path) y distinct there
            ∙ sym there
            ∙ ap (λ d. entry d (base staged_path) w) (sym beside))
          (λ n z other apart_too o.
            gone n (not_backup backup n v z a o)
            ∙ moved.others n apart_too other
            ∙ a.others n z other o)
    settled-Replaced backup v w' r (some e, u) a q k =
        let same_all = h.rename_fails staged_path final parent v u e q in
        way_back-Replaced backup u w' e r (disk.rename backup final u)
          (record {
            in_parent = a.in_parent;
            was_free = a.was_free;
            old = same_all (base backup) ∙ a.old;
            others = λ n z other o. same_all n ∙ a.others n z other o;
          })
          refl k

    -- The backup name is free again, and the destination goes there.
    aside :
        (backup : Bytes) (m v u : W)
        → IsMade entry parent backup w m
        → disk.remove backup m ≡ (none, v)
        → disk.rename final backup v ≡ (none, u)
        → IsAside backup u
    aside backup m v u made q k =
        let before =
          made-Kept entry parent backup w m v made
            (h.remove_others parent backup m v none made.in_dir q) in
        let moved = h.rename_moves parent final backup v u refl made.in_dir k in
        record {
          in_parent = made.in_dir;
          was_free = made.was_free;
          old = moved.target ∙ before (base final) x here ∙ sym here;
          others = λ n z other o.
              moved.others n other (apart entry parent backup n w m z made o) ∙ before n z o;
        }

    swapped-Replaced :
        (backup : Bytes) (m w' : W) (r : Option Error)
        → IsMade entry parent backup w m
        → swapped disk staged_path final backup m ≡ (r, w')
        → Replaced r w'
    unfolding swapped
    swapped-Replaced backup m w' r made k = by_remove (disk.remove backup m) refl k
      where
        by_rename :
            (v : W) (c : Outcome W)
            → disk.remove backup m ≡ (none, v)
            → disk.rename final backup v ≡ c
            → (c then (λ u. settled disk backup final (disk.rename staged_path final u))) ≡ (r, w')
            → Replaced r w'
        by_rename v (none, u) q p k' =
            settled-Replaced backup u w' r (disk.rename staged_path final u)
              (aside backup m v u made q p) refl k'
        by_rename v (some e, u) q p k' =
            subst (λ (z : Outcome W). Replaced z.0 z.1) k'
              (refused (λ n z o.
                h.rename_fails final backup parent v u e p n
                ∙ made-Kept entry parent backup w m v made
                    (h.remove_others parent backup m v none made.in_dir q) n z o))

        by_remove :
            (c : Outcome W)
            → disk.remove backup m ≡ c
            → (c
                then disk.rename final backup
                then (λ u. settled disk backup final (disk.rename staged_path final u)))
              ≡ (r, w')
            → Replaced r w'
        by_remove (none, v) q k' = by_rename v (disk.rename final backup v) q refl k'
        by_remove (some e, v) q k' =
            subst (λ (z : Outcome W). Replaced z.0 z.1) k'
              (refused (
                made-Kept entry parent backup w m v made
                  (h.remove_others parent backup m v (some e) made.in_dir q)))

    with_temp-Replaced :
        (c : Result Bytes × W) (w' : W) (r : Option Error)
        → disk.mkdir_temp parent w ≡ c
        → with_temp c (swapped disk staged_path final) ≡ (r, w')
        → Replaced r w'
    unfolding with_temp
    with_temp-Replaced (ok t, m) w' r q k =
        swapped-Replaced t m w' r (h.mkdir_makes final t w m q) k
    with_temp-Replaced (err e, m) w' r q k =
        subst (λ (z : Outcome W). Replaced z.0 z.1) k
          (refused (λ n z o. h.mkdir_fails final w m e q n ∙ o))

  abbrev checks : Result (Unit {0})
  checks =
      refuse_if (not (same (dir staged_path) parent)) parents_differ
      >> reject_symlink_components disk final w
      >> (disk.lstat final w >>= λ info.
          refuse_if (not (is_directory info)) destination_not_directory)

  checks-ok :
      (u : Unit {0})
      → checks ≡ ok u
      → (same (dir staged_path) parent ≡ true) × (x : Node) × (at_path entry final w ≡ some x)
  checks-ok u e =
      let (a, first, rest) = >>-eq-ok _ _ e in
      let (b, beside, links) = >>-eq-ok _ _ first in
      let (info, seen, last) = >>=-eq-ok (disk.lstat final w) _ rest in
      (
        not-eq-false (same (dir staged_path) parent) (refuse_if-eq-ok _ parents_differ beside),
        info,
        h.lstat_reads final w info seen,
      )

  guarded-Replaced :
      (y : Node) (c : Result (Unit {0})) (w' : W) (r : Option Error)
      → at_path entry staged_path w ≡ some y
      → base staged_path ≢ base final
      → checks ≡ c
      → guarded c w (λ v. with_temp (disk.mkdir_temp parent v) (swapped disk staged_path final))
        ≡ (r, w')
      → Replaced r w'
  guarded-Replaced y (ok u) w' r there distinct q k =
      let (e, x, here) = checks-ok u q in
      let beside = same→eq (dir staged_path) parent e in
      with_temp-Replaced x y here (subst (λ d. entry d (base staged_path) w ≡ some y) beside there)
        beside distinct (disk.mkdir_temp parent w) w' r refl k
  guarded-Replaced y (err e) w' r there distinct q k =
      subst (λ (z : Outcome W). Replaced z.0 z.1) k (refused (λ n z o. o))

  -- Whatever `ReplaceDirectory` returns, no directory is lost. Either the staged directory is the
  -- destination and every other entry of the parent is as it was, or the call reports an error
  -- and every entry of the parent is as it was, or it reports that the way back failed, and
  -- the old directory stands under a backup name that was free. When it reports none, the
  -- first holds. The staged directory exists and has another name than the destination, and the
  -- calls of package os keep the laws of `IsDisk`.
  pub replace_directory-Replaced :
      (y : Node) (w' : W) (r : Option Error)
      → at_path entry staged_path w ≡ some y
      → base staged_path ≢ base final
      → replace_directory disk staged_path final w ≡ (r, w')
      → Replaced r w'
  unfolding replace_directory
  replace_directory-Replaced y w' r there distinct e =
      guarded-Replaced y checks w' r there distinct refl e
