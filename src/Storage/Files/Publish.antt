-- ===== src/Storage/Files/Publish.antt =====
-- What `PublishAtomic` and `PublishDirectory` leave in the directory of the output.
use cypherstorm.Base.{
  ◌≡◌, ◌≢◌, refl, Bool, true, false, Option, none, some, Bytes, inl, inr, ◌∙◌, sym, ap, subst,
}
use cypherstorm.Fault.{Error, Result, ok, err}
use cypherstorm.Stream.Laws.{pair_fst, pair_snd}
use cypherstorm.Storage.Paths.{dir}
use cypherstorm.Storage.Files.{
  Node, Outcome, Disk, ◌then◌, staged, published, cleaned, with_temp, publish_atomic,
}
use cypherstorm.Storage.Files.Laws.{
  base, with_mode, Others, Kept, at_path, IsMoved, IsDisk, Stays, then-eq-done, then-eq-failed,
  then-Stays, apart, made-Kept,
}

module _ {W : Type 0} (entry : Bytes → Bytes → W → Option Node) (disk : Disk W)
    (h : IsDisk entry disk) (write : Bytes → W → Outcome W)
    (only : (t : Bytes) → Stays (Others entry (dir t) (base t)) (write t)) where
  -- Only the temporary file changes.
  abbrev TempOnly : Bytes → W → W → Type 0
  TempOnly t w w' = Others entry (dir t) (base t) w w'

  TempOnly-trans : (t : Bytes) (u v w : W) → TempOnly t u v → TempOnly t v w → TempOnly t u w
  TempOnly-trans t u v w p q m n = q m n ∙ p m n

  staged-Stays : (t : Bytes) → Stays (TempOnly t) (staged disk write t)
  unfolding staged
  staged-Stays t =
      let trans = TempOnly-trans t in
      then-Stays (TempOnly t) trans (λ w. write t w then disk.sync t then disk.close t)
        (λ v. disk.chmod t 384 v)
        (then-Stays (TempOnly t) trans (λ w. write t w then disk.sync t) (disk.close t)
          (then-Stays (TempOnly t) trans (write t) (disk.sync t) (only t)
            (λ w w' r e m n. h.sync_keeps t (dir t) w w' r e m))
          (λ w w' r e m n. h.close_keeps t (dir t) w w' r e m))
        (λ w w' r e. h.chmod_others t 384 w w' r e)

  -- The temporary file holds what was written, with the mode of the source.
  staged-done :
      (t : Bytes) (w w' : W)
      → staged disk write t w ≡ (none, w')
      → (v : W) × (write t w ≡ (none, v)) × (at_path entry t w' ≡ with_mode 384 (at_path entry t v))
  unfolding staged
  staged-done t w w' e =
      let (c, closed, set) =
        then-eq-done (write t w then disk.sync t then disk.close t) (λ v. disk.chmod t 384 v) e in
      let (b, synced, close) = then-eq-done (write t w then disk.sync t) (disk.close t) closed in
      let (a, written, sync) = then-eq-done (write t w) (disk.sync t) synced in
      (
        a,
        written,
        h.chmod_sets t 384 c w' set
            ∙ ap (with_mode 384) (
                h.close_keeps t (dir t) b c none close (base t)
                ∙ h.sync_keeps t (dir t) a b none sync (base t)),
      )

  published-failed :
      (over : Bool) (final t : Bytes) (w w' : W) (x : Error)
      → published disk over final write t w ≡ (some x, w')
      → TempOnly t w w'
  unfolding published
  published-failed true final t w w' x e =
      elim (then-eq-failed (staged disk write t w) (disk.rename t final) e) [
        | inl q ↦ staged-Stays t w w' (some x) q
        | inr (v, q, r) ↦
            λ m n. h.rename_fails t final (dir t) v w' x r m ∙ staged-Stays t w v none q m n
      ]
  published-failed false final t w w' x e =
      elim (then-eq-failed (staged disk write t w) (disk.rename_no_replace t final) e) [
        | inl q ↦ staged-Stays t w w' (some x) q
        | inr (v, q, r) ↦
            λ m n. h.no_replace_fails t final (dir t) v w' x r m ∙ staged-Stays t w v none q m n
      ]

  cleaned-failed :
      (t : Bytes) (c : Outcome W) (w' : W) (x : Error)
      → cleaned disk t c ≡ (some x, w')
      → (v : W) × (c ≡ (some x, v)) × TempOnly t v w'
  unfolding cleaned
  cleaned-failed t (none, v) w' x e = cc (pair_fst e)
  cleaned-failed t (some y, v) w' x e = (
    v,
    ap (λ z. (z, v)) (pair_fst e),
    λ m n.
        ap (entry (dir t) m) (sym (pair_snd e))
        ∙ h.remove_others (dir t) t _ _ _ refl refl m n
        ∙ h.close_keeps t (dir t) v _ _ refl m,
  )

  with_temp-failed :
      (over : Bool) (final : Bytes) (w w' : W) (x : Error) (c : Result Bytes × W)
      → disk.create_temp (dir final) w ≡ c
      → with_temp c (λ t v. cleaned disk t (published disk over final write t v)) ≡ (some x, w')
      → Kept entry (dir final) w w'
  unfolding with_temp
  with_temp-failed over final w w' x (err y, v) q e =
      λ n z r. ap (entry (dir final) n) (sym (pair_snd e)) ∙ h.create_fails final w v y q n ∙ r
  with_temp-failed over final w w' x (ok t, v) q e =
      let (u, failed, rest) = cleaned-failed t (published disk over final write t v) w' x e in
      let made = h.create_makes final t w v q in
      made-Kept entry (dir final) t w v w' made (
        subst (λ d. Others entry d (base t) v w') made.in_dir
          (TempOnly-trans t v u w' (published-failed over final t v u x failed) rest))

  -- When `PublishAtomic` reports an error, everything that stood in the directory of the output
  -- before, the old output included, still stands there as it was, whichever call it was that
  -- failed. The calls of package os keep the laws of `IsDisk`, and the write function changes
  -- nothing in that directory but its own file.
  pub publish_atomic-Kept :
      (over : Bool) (final : Bytes) (w w' : W) (x : Error)
      → publish_atomic disk final over write w ≡ (some x, w')
      → Kept entry (dir final) w w'
  unfolding publish_atomic
  publish_atomic-Kept over final w w' x e =
      with_temp-failed over final w w' x (disk.create_temp (dir final) w) refl e

  -- A publication that succeeded, by way of the file `tmp`, written between two states.
  pub record IsPublished (over : Bool) (final : Bytes) (w w' : W) : Type 0 where
    pub tmp : Bytes
    pub opened : W
    pub filled : W
    pub creates : disk.create_temp (dir final) w ≡ (ok tmp, opened)
    pub writes : write tmp opened ≡ (none, filled)
    pub output : at_path entry final w' ≡ with_mode 384 (at_path entry tmp filled)
    pub kept :
        (n : Bytes) (x : Node)
        → n ≢ base final
        → entry (dir final) n w ≡ some x
        → entry (dir final) n w' ≡ some x
    pub replaces : over ≡ false → at_path entry final w ≡ none

  staged-IsMoved :
      (over : Bool) (final t : Bytes) (v w' : W)
      → dir t ≡ dir final
      → published disk over final write t v ≡ (none, w')
      → (s : W) × (staged disk write t v ≡ (none, s))
        × IsMoved entry (dir final) (base t) (base final) s w'
        × (over ≡ false → at_path entry final s ≡ none)
  unfolding published
  staged-IsMoved true final t v w' d e =
      let (s, q, r) = then-eq-done (staged disk write t v) (disk.rename t final) e in
      (s, q, h.rename_moves (dir final) t final s w' d refl r, λ o. cc o)
  staged-IsMoved false final t v w' d e =
      let (s, q, r) = then-eq-done (staged disk write t v) (disk.rename_no_replace t final) e in
      let (moved, free) = h.no_replace_moves (dir final) t final s w' d refl r in
      (s, q, moved, λ o. free)

  cleaned-done :
      (t : Bytes) (c : Outcome W) (w' : W) → cleaned disk t c ≡ (none, w') → c ≡ (none, w')
  unfolding cleaned
  cleaned-done t (none, v) w' e = e
  cleaned-done t (some x, v) w' e = cc (pair_fst e)

  -- Nothing stood there, if nothing is left of it.
  still_free :
      (d n : Bytes) (w s : W) (o : Option Node)
      → entry d n w ≡ o
      → Kept entry d w s
      → entry d n s ≡ none
      → entry d n w ≡ none
  still_free d n w s none q k free = q
  still_free d n w s (some x) q k free = cc (k n x q, free)

  with_temp-done :
      (over : Bool) (final : Bytes) (w w' : W) (c : Result Bytes × W)
      → disk.create_temp (dir final) w ≡ c
      → with_temp c (λ t v. cleaned disk t (published disk over final write t v)) ≡ (none, w')
      → IsPublished over final w w'
  unfolding with_temp
  with_temp-done over final w w' (err y, v) q e = cc (pair_fst e)
  with_temp-done over final w w' (ok t, v) q e =
      let made = h.create_makes final t w v q in
      let (s, stage, moved, free) =
        staged-IsMoved over final t v w' made.in_dir
          (cleaned-done t (published disk over final write t v) w' e) in
      let (u, writes, set) = staged-done t v s stage in
      let before =
        made-Kept entry (dir final) t w v s made
          (subst (λ d. Others entry d (base t) v s) made.in_dir (staged-Stays t v s none stage)) in
      record {
        tmp = t;
        opened = v;
        filled = u;
        creates = q;
        writes = writes;
        output = moved.target ∙ ap (λ d. entry d (base t) s) (sym made.in_dir) ∙ set;
        kept = λ n x other r.
            moved.others n (apart entry (dir final) t n w v x made r) other ∙ before n x r;
        replaces = λ o. still_free (dir final) (base final) w s _ refl before (free o);
      }

  -- When `PublishAtomic` reports none, the output is the file that the write function left, with
  -- permissions 0600; everything else that stood in the directory still stands there; and
  -- without permission to overwrite, nothing stood under the name of the output. The
  -- conditions are those of the failure.
  pub publish_atomic-IsPublished :
      (over : Bool) (final : Bytes) (w w' : W)
      → publish_atomic disk final over write w ≡ (none, w')
      → IsPublished over final w w'
  unfolding publish_atomic
  publish_atomic-IsPublished over final w w' e =
      with_temp-done over final w w' (disk.create_temp (dir final) w) refl e
