-- ===== src/Checks/Scan.antt =====
-- Symlink targets and the scan at concrete inputs.
use cypherstorm.Base.{
  ◌≡◌, ◌↔◌, refl, true, false, none, some, List, [], ◌∷◌, Bytes, codes, same, pos,
}
use cypherstorm.Fault.{Error, ok, err}
use cypherstorm.Storage.Names.{
  contains, split, add_byte, join, is_abs, is_letter, is_windows_drive_path, segments_of,
  validate_entry_name,
}
use cypherstorm.Storage.Names.Segments.{validate_entry_name-AreSegments}
use cypherstorm.Storage.Paths.{
  climb, add_element, reduce, rendered, clean, up_to_slash, keep_byte, dir, path_join, has_prefix,
}
use cypherstorm.Storage.Links.{validate_portable_symlink}
use cypherstorm.Storage.Links.Stays.{stays}
use cypherstorm.Storage.Links.Confined.{is_unsafe, validate_portable_symlink_iff}
use cypherstorm.Storage.Limits.{ExtractLimits, Limits, with_defaults}
use cypherstorm.Storage.Scan.{
  TarHeader, type_reg, type_dir, type_symlink, Tar, finished, entry, entry_file, ScanSummary, Scan,
  empty_scan, lookup_seen, check_parents, scan_entry, scan_loop, scan_tar,
}
use cypherstorm.Storage.Scan.Sound.{IsSound}
use cypherstorm.Storage.Scan.Steps.{scan_tar-IsSound}
use cypherstorm.Storage.Scan.Parents.{ParentsChecked, check_parents_decides}

abbrev link_path : List Bytes
link_path = codes "a" ∷ codes "b" ∷ []

link_named : validate_entry_name (codes "a/b") ≡ ok link_path
unfolding validate_entry_name contains split add_byte is_abs is_windows_drive_path segments_of same
link_named = refl

-- "a/b -> ../c" stays inside, "a/b -> ../../c" does not.
inside : validate_portable_symlink (join link_path) (codes "../c") ≡ ok tt
unfolding validate_portable_symlink contains is_abs is_windows_drive_path join dir path_join clean
    rendered split add_byte reduce add_element climb up_to_slash keep_byte has_prefix same
inside = refl

outside : validate_portable_symlink (join link_path) (codes "../../c") ≡ err Error.link_escapes
unfolding validate_portable_symlink contains is_abs is_windows_drive_path join dir path_join clean
    rendered split add_byte reduce add_element climb up_to_slash keep_byte has_prefix same
outside = refl

validate_portable_symlink_iff_example :
    (validate_portable_symlink (join link_path) (codes "../c") ≡ ok tt)
    ↔ (is_unsafe (codes "../c") ≡ false) × (stays (some 1) (split (codes "../c")) ≡ true)
validate_portable_symlink_iff_example =
    validate_portable_symlink_iff (codes "a") (codes "b" ∷ []) (codes "../c")
      (validate_entry_name-AreSegments (codes "a/b") link_path link_named).1

abbrev zero_limits : ExtractLimits
zero_limits = record {
  max_entries = pos 0;
  max_entry_size = pos 0;
  max_total_size = pos 0;
  max_path_depth = pos 0;
}

abbrev header : Bytes → TarHeader
header name = record {
  name = name;
  typeflag = type_reg;
  size = pos 5;
  mode = pos 420;
  mod_time = 0;
  linkname = [];
}

-- A directory, a file in it, and a symlink.
abbrev small_tar : Tar
small_tar =
    entry (record (header (codes "a/")) { typeflag = type_dir }) none
      (entry (header (codes "a/x")) none (
        entry (record (header (codes "a/b")) { typeflag = type_symlink; linkname = codes "x" }) none
          finished))

abbrev small_summary : ScanSummary
small_summary = record { entries = 3; files = 1; dirs = 1; links = 1; bytes = 5 }

scanned : scan_tar zero_limits (λ n. false) (λ e. none) small_tar ≡ ok small_summary
unfolding scan_tar with_defaults scan_loop scan_entry lookup_seen check_parents validate_entry_name
    segments_of validate_portable_symlink contains is_abs is_windows_drive_path is_letter join dir
    path_join clean rendered split add_byte reduce add_element climb up_to_slash keep_byte
    has_prefix same
scanned = refl

scan_tar-IsSound_example :
    (lim : Limits) × (with_defaults zero_limits ≡ ok lim)
    × (st : Scan) × (scan_loop lim (λ n. false) (λ e. none) empty_scan small_tar ≡ ok st)
    × (st.summary ≡ small_summary)
    × IsSound lim st
scan_tar-IsSound_example =
    scan_tar-IsSound zero_limits (λ n. false) (λ e. none) small_tar small_summary scanned

check_parents_decides_example :
    ParentsChecked
      ((codes "a", entry_file) ∷ [])
      link_path
      1
      (check_parents 2 ((codes "a", entry_file) ∷ []) (dir (join link_path)))
check_parents_decides_example =
    check_parents_decides ((codes "a", entry_file) ∷ []) (codes "a") (codes "b" ∷ [])
      (validate_entry_name-AreSegments (codes "a/b") link_path link_named).1
