-- ===== src/Storage/Scan/Steps.antt =====
-- One entry keeps the invariant of a scan, and so does the loop.
use cypherstorm.Base.{
  ℕ, ◌+◌, ◌≤◌, ◌<◌, ◌≡◌, refl, ◌∙◌, subst, Bool, false, Option, none, some, List, [], ◌∷◌, ◌++◌,
  Bytes, length, length-append, ltb, ltb→le, same, All, All-append, Bool-cases, inl, inr, arith,
}
use cypherstorm.Fault.{Error, ok, >>=-eq-ok, >>-eq-ok, refuse_if, refuse_if-eq-ok, ok-injective}
use cypherstorm.Storage.Names.{join, validate_entry_name}
use cypherstorm.Storage.Names.Segments.{IsSegment, validate_entry_name-AreSegments}
use cypherstorm.Storage.Links.Confined.{validate_portable_symlink_iff}
use cypherstorm.Storage.Limits.{ExtractLimits, Limits, with_defaults}
use cypherstorm.Storage.Paths.{dir}
use cypherstorm.Storage.Scan.{
  TarHeader, Tar, finished, broken, entry, EntryType, entry_file, entry_dir, entry_symlink, Entry,
  ScanSummary, Scan, empty_scan, lookup_seen, is_some, check_parents, Typed, scan_typed,
  visited_with, scan_entry, scan_loop, scan_tar, permissions,
}
use cypherstorm.Storage.Scan.Sound.{
  count_kind-append, total_size-append, append-AreDistinct, IsAccepted, IsSound, IsTyped,
  scan_typed-IsTyped, empty_scan-IsSound,
}

abbrev counted_entry : ScanSummary → ScanSummary
counted_entry s = record s { entries = s.entries + 1 }

abbrev plain_entry : TarHeader → Bytes → Entry
plain_entry h name = record {
  path = name;
  kind = entry_file;
  size = 0;
  mode = permissions h.mode;
  mod_time = h.mod_time;
  link_target = [];
}

abbrev next_scan : Scan → Bytes → Typed → Scan
next_scan st name t = record {
  summary = t.summary;
  seen = (name, t.visit.kind) ∷ st.seen;
  visited = st.visited ++ (t.visit ∷ []);
}

is_some-none : (o : Option EntryType) → is_some o ≡ false → o ≡ none
unfolding is_some
is_some-none none h = refl
is_some-none (some t) h = cc

visited_with-done : (o : Option Error) (st st' : Scan) → visited_with o st ≡ ok st' → st ≡ st'
unfolding visited_with
visited_with-done none st st' h = ok-injective h
visited_with-done (some e) st st' h = cc

module _ (lim : Limits) where
  -- What a step that did not fail has found.
  record Stepped (st : Scan) (h : TarHeader) (payload : Option Error) (st' : Scan) : Type 0 where
    segments : List Bytes
    named : validate_entry_name h.name ≡ ok segments
    shallow : length segments ≤ lim.path_depth
    room : st.summary.entries + 1 ≤ lim.entries
    fresh : lookup_seen (join segments) st.seen ≡ none
    typed : Typed
    checked :
        scan_typed lim
          (counted_entry st.summary)
          (plain_entry h (join segments))
          h
          payload
          h.typeflag
        ≡ ok typed
    result : next_scan st (join segments) typed ≡ st'

  scan_entry-Stepped :
      (visit : Entry → Option Error) (st : Scan) (h : TarHeader) (payload : Option Error)
      (st' : Scan)
      → scan_entry lim visit st h payload ≡ ok st'
      → Stepped st h payload st'
  unfolding scan_entry
  scan_entry-Stepped visit st h payload st' q =
      let (_, room, q1) =
        >>-eq-ok (refuse_if (ltb lim.entries (st.summary.entries + 1)) Error.entry_limit) _ q in
      let (segments, named, q2) = >>=-eq-ok (validate_entry_name h.name) _ q1 in
      let (_, deep, q3) =
        >>-eq-ok (refuse_if (ltb lim.path_depth (length segments)) Error.depth_limit) _ q2 in
      let (_, dup, q4) =
        >>-eq-ok (refuse_if (is_some (lookup_seen (join segments) st.seen)) Error.duplicate_entry) _
          q3 in
      let (_, _, q5) =
        >>-eq-ok (check_parents (length segments) st.seen (dir (join segments))) _ q4 in
      let (t, typed, q6) =
        >>=-eq-ok
          (scan_typed lim (counted_entry st.summary) (plain_entry h (join segments)) h payload
            h.typeflag)
          _ q5 in
      record {
        segments = segments;
        named = named;
        shallow = ltb→le lim.path_depth (length segments) (refuse_if-eq-ok _ _ deep);
        room = ltb→le lim.entries (st.summary.entries + 1) (refuse_if-eq-ok _ _ room);
        fresh = is_some-none _ (refuse_if-eq-ok _ _ dup);
        typed = t;
        checked = typed;
        result = visited_with-done (visit t.visit) (next_scan st (join segments) t) st' q6;
      }

  next_scan-tracked :
      (st : Scan) (name : Bytes) (t : Typed) (other : Bytes)
      → t.visit.path ≡ name
      → IsSound lim st
      → lookup_seen other ((name, t.visit.kind) ∷ st.seen) ≡ none
      → All (λ e. same e.path other ≡ false) (st.visited ++ (t.visit ∷ []))
  unfolding lookup_seen
  next_scan-tracked st name t other p i unseen = elim (Bool-cases (same name other)) [
    | inl y ↦ let z = rw y at unseen in cc
    | inr n ↦ All-append _ st.visited (t.visit ∷ []) (i.tracked other (rw n at unseen)) (rw p n, tt)
  ]

  typed-IsAccepted :
      (segments : List Bytes) (s : ScanSummary) (e : Entry) (t : Typed)
      → e.path ≡ join segments
      → 0 < length segments
      → All IsSegment segments
      → length segments ≤ lim.path_depth
      → IsTyped lim s e t
      → IsAccepted lim t.visit
  typed-IsAccepted [] s e t p full v d ty = absurd (omega arith)
  typed-IsAccepted (x ∷ xs) s e t p full v d ty = record {
    first = x;
    rest = xs;
    path_is = ty.same_path ∙ p;
    valid = v;
    depth = omega (arith, d);
    small = ty.small;
    confined =
        λ k. (validate_portable_symlink_iff x xs t.visit.link_target v).0 (rw p at (ty.confined k));
  }

  -- An entry that is let through keeps the invariant.
  pub scan_entry-IsSound :
      (visit : Entry → Option Error) (st : Scan) (h : TarHeader) (payload : Option Error)
      (st' : Scan)
      → IsSound lim st
      → scan_entry lim visit st h payload ≡ ok st'
      → IsSound lim st'
  scan_entry-IsSound visit st h payload st' i q =
      let a = scan_entry-Stepped visit st h payload st' q in
      let name = join a.segments in
      let e = plain_entry h name in
      let t = a.typed in
      let ty =
        scan_typed-IsTyped lim (counted_entry st.summary) e t h payload h.typeflag refl a.checked in
      let (full, valid) = validate_entry_name-AreSegments h.name a.segments a.named in
      let c = i.totals in
      subst (IsSound lim) a.result (record {
        totals = record {
          counted = omega (arith, ty.entries, c.counted, length-append st.visited (t.visit ∷ []));
          files_are = omega (
            arith,
            ty.files_are,
            c.files_are,
            count_kind-append entry_file st.visited (t.visit ∷ []),
          );
          dirs_are = omega (
            arith,
            ty.dirs_are,
            c.dirs_are,
            count_kind-append entry_dir st.visited (t.visit ∷ []),
          );
          links_are = omega (
            arith,
            ty.links_are,
            c.links_are,
            count_kind-append entry_symlink st.visited (t.visit ∷ []),
          );
          total = omega (arith, ty.bytes, c.total, total_size-append st.visited t.visit);
          entries_bound = omega (arith, ty.entries, a.room);
          bytes_bound = ty.bytes_bound c.bytes_bound;
        };
        accepted = All-append (IsAccepted lim) st.visited (t.visit ∷ []) i.accepted (
          typed-IsAccepted a.segments (counted_entry st.summary) e t refl full valid a.shallow ty,
          tt,
        );
        distinct =
            append-AreDistinct st.visited t.visit i.distinct
              (rw ty.same_path (i.tracked name a.fresh));
        tracked = λ other unseen. next_scan-tracked st name t other ty.same_path i unseen;
      })

  scan_loop-IsSound :
      (stopped : ℕ → Bool) (visit : Entry → Option Error) (st : Scan) (tar : Tar) (st' : Scan)
      → IsSound lim st
      → scan_loop lim stopped visit st tar ≡ ok st'
      → IsSound lim st'
  unfolding scan_loop
  scan_loop-IsSound stopped visit st finished st' i q =
      elim (Bool-cases (stopped st.summary.entries)) [
        | inl y ↦ let z = rw y at q in cc
        | inr n ↦ subst (IsSound lim) (ok-injective (rw n at q)) i
      ]
  scan_loop-IsSound stopped visit st broken st' i q = ground arith
  scan_loop-IsSound stopped visit st (entry h payload rest) st' i q =
      elim (Bool-cases (stopped st.summary.entries)) [
        | inl y ↦ let z = rw y at q in cc
        | inr n ↦
            let (mid, first, more) = >>=-eq-ok (scan_entry lim visit st h payload) _ (rw n at q) in
            scan_loop-IsSound stopped visit mid rest st'
              (scan_entry-IsSound visit st h payload mid i first) more
      ]

-- A scan that succeeds has visited entries within the policy, with paths that differ from one another,
-- and its summary holds their number, the numbers of files, directories and symlinks among them, and
-- their total size, within the limits.
pub scan_tar-IsSound :
    (l : ExtractLimits) (stopped : ℕ → Bool) (visit : Entry → Option Error) (tar : Tar)
    (s : ScanSummary)
    → scan_tar l stopped visit tar ≡ ok s
    → (lim : Limits) × (with_defaults l ≡ ok lim)
      × (st : Scan) × (scan_loop lim stopped visit empty_scan tar ≡ ok st)
      × (st.summary ≡ s)
      × IsSound lim st
unfolding scan_tar
scan_tar-IsSound l stopped visit tar s q =
    let (lim, limits, q1) = >>=-eq-ok (with_defaults l) _ q in
    let (st, scanned, q2) = >>=-eq-ok (scan_loop lim stopped visit empty_scan tar) _ q1 in
    (
      lim,
      limits,
      st,
      scanned,
      ok-injective q2,
      scan_loop-IsSound lim stopped visit empty_scan tar st (empty_scan-IsSound lim) scanned,
    )
