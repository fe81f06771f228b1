-- ===== src/Storage/Scan.antt =====
-- `ScanTar` of internal/storage/archive/scan.go. The tar reader is the sequence of what its Next
-- returns; each entry comes with the error, if any, that reading its payload ends in.
pub mod Sound
pub mod Steps
pub mod Parents
use cypherstorm.Base.{
  ℕ, zero, suc, ◌+◌, ◌-◌, ◌%◌, Bool, true, false, Option, none, some, List, [], ◌∷◌, ◌++◌, Bytes,
  length, ltb, ◌==◌, not, ◌&&◌, ◌||◌, same, if◌then◌else◌, ℤ, pos, negsuc,
}
use cypherstorm.Fault.{
  Error, Result, ok, err, ◌>>=◌, ◌>>◌, refuse_if, cancelled, out_of_fuel, bad_archive, entry_limit,
  depth_limit, duplicate_entry, parent_conflict, entry_size_limit, total_size_limit,
  unsupported_entry,
}
use cypherstorm.Storage.Names.{join, validate_entry_name}
use cypherstorm.Storage.Paths.{dot, dir}
use cypherstorm.Storage.Links.{validate_portable_symlink}
use cypherstorm.Storage.Limits.{ExtractLimits, Limits, with_defaults}

pub data TypeFlag : Type 0 where
  type_reg type_dir type_symlink : TypeFlag
  type_other : ℕ → TypeFlag

-- The fields of tar.Header that are read.
pub record TarHeader : Type 0 where
  pub name : Bytes
  pub typeflag : TypeFlag
  pub size : ℤ
  pub mode : ℤ
  pub mod_time : ℕ
  pub linkname : Bytes

pub data Tar : Type 0 where
  -- io.EOF, or another error of Next
  finished : Tar
  broken : Tar
  entry : TarHeader → Option Error → Tar → Tar

pub data EntryType : Type 0 where
  entry_file entry_dir entry_symlink : EntryType

pub record Entry : Type 0 where
  pub path : Bytes
  pub kind : EntryType
  pub size : ℕ
  pub mode : ℕ
  pub mod_time : ℕ
  pub link_target : Bytes

pub record ScanSummary : Type 0 where
  pub entries : ℕ
  pub files : ℕ
  pub dirs : ℕ
  pub links : ℕ
  pub bytes : ℕ

-- The variables of the loop, and the entries that Visit has been called with.
pub record Scan : Type 0 where
  pub summary : ScanSummary
  pub seen : List (Bytes × EntryType)
  pub visited : List Entry

abbrev pub empty_scan : Scan
empty_scan = record {
  summary = record { entries = 0; files = 0; dirs = 0; links = 0; bytes = 0 };
  seen = [];
  visited = [];
}

unfoldable pub lookup_seen : Bytes → List (Bytes × EntryType) → Option EntryType
lookup_seen name [] = none
lookup_seen name ((n, t) ∷ seen) = if same n name then some t else lookup_seen name seen

is_some : Option EntryType → Bool
is_some none = false
is_some (some t) = true

pub blocks : Option EntryType → Bool
blocks none = false
blocks (some entry_dir) = false
blocks (some entry_file) = true
blocks (some entry_symlink) = true

-- The loop over the parents of a name, on fuel.
unfoldable pub check_parents : ℕ → List (Bytes × EntryType) → Bytes → Result (Unit {0})
unfolding blocks
check_parents zero seen parent = err out_of_fuel
check_parents (suc fuel) seen parent =
    let rest = check_parents fuel seen (dir parent) in
    if same parent dot
    then ok tt
    else if blocks (lookup_seen parent seen)
    then err parent_conflict
    else rest

-- `fs.FileMode(mode).Perm()`: the low nine bits of the int64 in two's complement
unfoldable pub permissions : ℤ → ℕ
permissions (pos n) = n % 512
permissions (negsuc n) = 511 - n % 512

-- What the switch on the type of an entry leaves: the entry and the new summary.
pub record Typed : Type 0 where
  pub visit : Entry
  pub summary : ScanSummary

-- what Visit returns ends the scan, if it is an error
visited_with : Option Error → Scan → Result Scan
visited_with none st = ok st
visited_with (some e) st = err e

module _ (lim : Limits) where
  -- MaxTotalSize - Size is computed in int64 there, where it may be negative; the sum is the same test.
  scan_file : ScanSummary → Entry → Option Error → ℤ → Result Typed
  scan_file s e payload (negsuc n) = err entry_size_limit
  scan_file s e payload (pos n) =
      if ltb lim.entry_size n
      then err entry_size_limit
      else if ltb lim.total_size (s.bytes + n)
      then err total_size_limit
      else elim payload [
        | some x ↦ err x
        | none ↦ ok (record {
          visit = record e { kind = entry_file; size = n };
          summary = record s { files = s.files + 1; bytes = s.bytes + n };
        })
      ]

  pub scan_typed : ScanSummary → Entry → TarHeader → Option Error → TypeFlag → Result Typed
  scan_typed s e h payload type_reg = scan_file s e payload h.size
  scan_typed s e h payload type_dir =
      ok
        (record { visit = record e { kind = entry_dir }; summary = record s { dirs = s.dirs + 1 } })
  scan_typed s e h payload type_symlink = do
    validate_portable_symlink e.path h.linkname
    ok (record {
      visit = record e { kind = entry_symlink; link_target = h.linkname };
      summary = record s { links = s.links + 1 };
    })
  scan_typed s e h payload (type_other t) = err unsupported_entry

  -- The body of the loop behind Next; `visit` gives the error that Visit returns, if any.
  unfoldable pub scan_entry : (Entry → Option Error) → Scan → TarHeader → Option Error → Result Scan
  unfolding is_some scan_file scan_typed visited_with
  scan_entry visit st h payload = do
    let s = record st.summary { entries = st.summary.entries + 1 }
    refuse_if (ltb lim.entries s.entries) entry_limit
    segments ← validate_entry_name h.name
    refuse_if (ltb lim.path_depth (length segments)) depth_limit
    let name = join segments
    refuse_if (is_some (lookup_seen name st.seen)) duplicate_entry
    check_parents (length segments) st.seen (dir name)
    t ←
        scan_typed s
          (record {
            path = name;
            kind = entry_file;
            size = 0;
            mode = permissions h.mode;
            mod_time = h.mod_time;
            link_target = [];
          })
          h payload h.typeflag
    visited_with (visit t.visit) (record {
      summary = t.summary;
      seen = (name, t.visit.kind) ∷ st.seen;
      visited = st.visited ++ (t.visit ∷ []);
    })

  -- The loop; `stopped` says before which entry the context is cancelled.
  unfoldable pub scan_loop : (ℕ → Bool) → (Entry → Option Error) → Scan → Tar → Result Scan
  scan_loop stopped visit st finished = if stopped st.summary.entries then err cancelled else ok st
  scan_loop stopped visit st broken =
      if stopped st.summary.entries then err cancelled else err bad_archive
  scan_loop stopped visit st (entry h payload rest) =
      if stopped st.summary.entries
      then err cancelled
      else (do st' ← scan_entry visit st h payload; scan_loop stopped visit st' rest)

-- `ScanTar`
unfoldable pub scan_tar :
    ExtractLimits → (ℕ → Bool) → (Entry → Option Error) → Tar → Result ScanSummary
scan_tar l stopped visit tar = do
  lim ← with_defaults l
  st ← scan_loop lim stopped visit empty_scan tar
  ok st.summary
