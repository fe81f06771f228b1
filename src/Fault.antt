-- ===== src/Fault.antt =====
-- The errors of the program as one enumeration, and the results that carry them.
use cypherstorm.Base.{◌≡◌, refl, ap, Bool, true, false}

pub data Error : Type 0 where
  -- the environment: context.Context, io.Reader, io.Writer, crypto/rand
  cancelled read_failed write_failed short_write entropy_failed : Error
  eof unexpected_eof : Error
  -- a bound of the model was met, which no Go value corresponds to
  out_of_fuel : Error
  -- internal/security/kdf
  time_zero time_too_large memory_zero memory_too_large : Error
  parallelism_zero parallelism_too_large memory_below_threads wrong_key_length : Error
  password_empty salt_required raw_key_size unknown_source : Error
  master_key_empty key_length_not_positive hkdf_failed : Error
  -- internal/security/crypto, internal/storage/compress
  unsupported_cipher unsupported_codec key_rejected : Error
  -- internal/security/container
  record_size_limit metadata_limit hint_limit header_limit : Error
  bad_magic header_length malformed_json trailing_json not_canonical invalid_header : Error
  many_passwords id_required duplicate_recipient unknown_recipient_type : Error
  malformed_fixed malformed_base64 no_recipient recipient_limit recipient_required : Error
  missing_final trailing_bytes index_gap payload_auth record_too_large : Error
  malformed_final commitment_mismatch unknown_record_type record_length_limit : Error
  malformed_metadata metadata_auth replacement_count replacement_size : Error
  -- internal/credential/identity
  wrong_identity_type age_failed empty_public_key : Error
  open_failed unstable_file input_size malformed_private : Error
  label_limit malformed_signing malformed_signature invalid_public signer_required : Error
  signer_mismatch verification_failed : Error
  -- internal/credential/qrexchange
  exchange_identity exchange_limit exchange_payload exchange_checksum : Error
  -- internal/storage/archive
  name_empty name_nul name_backslash name_absolute name_traversal name_no_path : Error
  link_unsafe link_escapes limits_negative entry_limit depth_limit duplicate_entry : Error
  parent_conflict entry_size_limit total_size_limit unsupported_entry bad_archive : Error
  visit_refused selection_empty : Error
  -- internal/storage/fsutil
  not_exist staged_not_directory parents_differ component_symlink : Error
  destination_not_directory rollback_failed output_exists parent_not_directory no_ancestor : Error
  -- internal/storage/selection
  pattern_refused path_refused bad_pattern : Error
  -- internal/app
  manifest_size manifest_version manifest_duplicate manifest_digest manifest_limit : Error
  malformed_manifest source_changed unsupported_node walk_failed : Error
  merge_conflict rename_failed remove_failed no_free_name : Error

-- A call's outcome: the error that it returns, or its value.
pub data Result {ℓ} (X : Type ℓ) : Type ℓ where
  err : Error → Result X
  ok : X → Result X

-- `if bad { return error }`
abbrev pub refuse_if : Bool → Error → Result (Unit {0})
refuse_if false e = ok tt
refuse_if true e = err e

infixl 5 ◌>>=◌ ◌>>◌
-- The rest of a function behind a call that may have failed; the second form has no use for its value.
abbrev pub ◌>>=◌ {ℓx ℓy} : {X : Type ℓx} {Y : Type ℓy} → Result X → (X → Result Y) → Result Y
err fault >>= rest = err fault
ok x >>= rest = rest x

abbrev pub ◌>>◌ {ℓx ℓy} : {X : Type ℓx} {Y : Type ℓy} → Result X → Result Y → Result Y
err fault >> rest = err fault
ok x >> rest = rest

pub refuse_if-eq-ok : (b : Bool) (e : Error) {u : Unit {0}} → refuse_if b e ≡ ok u → b ≡ false
refuse_if-eq-ok true e h = cc
refuse_if-eq-ok false e h = refl

pub >>=-eq-ok {ℓx ℓy} :
    {X : Type ℓx} {Y : Type ℓy} (call : Result X) (rest : X → Result Y) {y : Y}
    → (call >>= rest) ≡ ok y
    → (x : X) × (call ≡ ok x) × (rest x ≡ ok y)
>>=-eq-ok (err fault) rest h = cc
>>=-eq-ok (ok x) rest h = (x, refl, h)

pub >>-eq-ok {ℓx ℓy} :
    {X : Type ℓx} {Y : Type ℓy} (call : Result X) (rest : Result Y) {y : Y}
    → (call >> rest) ≡ ok y
    → (x : X) × (call ≡ ok x) × (rest ≡ ok y)
>>-eq-ok (err fault) rest h = cc
>>-eq-ok (ok x) rest h = (x, refl, h)

abbrev value_or {ℓ} : {X : Type ℓ} → X → Result X → X
value_or d (err e) = d
value_or d (ok x) = x

pub ok-injective {ℓ} : {X : Type ℓ} {x y : X} → ok x ≡ ok y → x ≡ y
ok-injective {x = z} e = ap (value_or z) e
