-- ===== src/Credential/Store.antt =====
-- internal/credential/credentialstore/store.go: named secrets in the keychain of the operating
-- system, and an index of their descriptors under an account of its own. The keychain
-- (go-keyring) and encoding/json are arguments.
pub mod Atomic
pub mod Errors
pub mod Effect
pub mod Reads
use cypherstorm.Base.{
  ℕ, ◌+◌, ◌*◌, ◌^◌, Bool, true, false, Option, none, some, List, [], ◌∷◌, ◌++◌, map, Bytes, codes,
  length, ltb, leb, ◌==◌, not, ◌&&◌, ◌||◌, same, before, if◌then◌else◌,
}

-- What go-keyring reports: ErrNotFound, or an error of the platform.
pub data KeyringError : Type 0 where
  not_found : KeyringError
  unavailable : ℕ → KeyringError

pub data Found : Type 0 where
  value : Bytes → Found
  missing : KeyringError → Found

-- `Backend`, with the service name fixed; `W` is the state of the keychain.
pub record Backend (W : Type 0) : Type 0 where
  pub get : Bytes → W → Found
  pub set : Bytes → Bytes → W → Option KeyringError × W
  pub delete : Bytes → W → Option KeyringError × W

pub data Kind : Type 0 where
  password raw_key : Kind
  other_kind : Bytes → Kind

pub record SecretCredential : Type 0 where
  pub kind : Kind
  pub secret : Bytes

pub record Descriptor : Type 0 where
  pub name : Bytes
  pub kind : Kind
  pub fingerprint : Bytes

-- encoding/json and base64 of the index and of a record; neither Marshal can fail on these types. And
-- what package sort leaves open.
pub record Encoding : Type 0 where
  pub marshal_index : List Descriptor → Bytes
  pub unmarshal_index : Bytes → Option (List Descriptor)
  pub marshal_secret : SecretCredential → Bytes
  pub unmarshal_secret : Bytes → Option SecretCredential
  -- which of two entries of one name sort.Slice, which is not stable, puts first
  pub tie : Descriptor → Descriptor → Bool

-- The errors; the last one is an index error after which the credential could not be put back.
pub data StoreError : Type 0 where
  cancelled invalid_name unsupported_kind secret_empty : StoreError
  index_size index_entries malformed_index malformed_secret : StoreError
  keychain : KeyringError → StoreError
  rollback_failed : KeyringError → KeyringError → StoreError

pub data Answer {ℓ} (X : Type ℓ) : Type ℓ where
  done : X → Answer X
  failed : StoreError → Answer X

abbrev pub index_account : Bytes
index_account = codes "__credential_index_v1__"

between : ℕ → ℕ → ℕ → Bool
between low high c = leb low c && leb c high

-- `[A-Za-z0-9]`
unfoldable pub is_alphanumeric : ℕ → Bool
unfolding between
is_alphanumeric c = between 65 90 c || between 97 122 c || between 48 57 c

-- `[A-Za-z0-9._-]`
is_name_byte : ℕ → Bool
is_name_byte c = is_alphanumeric c || c == 46 || c == 95 || c == 45

all_name_bytes : Bytes → Bool
all_name_bytes [] = true
all_name_bytes (c ∷ cs) = is_name_byte c && all_name_bytes cs

-- `ValidateName`
unfoldable pub is_valid_name : Bytes → Bool
unfolding is_name_byte all_name_bytes
is_valid_name [] = false
is_valid_name (c ∷ cs) = is_alphanumeric c && all_name_bytes cs && leb (length cs) 63

insert_by_name : (Descriptor → Descriptor → Bool) → Descriptor → List Descriptor → List Descriptor
insert_by_name tie d [] = d ∷ []
insert_by_name tie d (e ∷ es) =
    let rest = insert_by_name tie d es in
    if before e.name d.name || same e.name d.name && tie e d then e ∷ rest else d ∷ e ∷ es

-- `sort.Slice` by name
unfoldable pub sort_by_name : (Descriptor → Descriptor → Bool) → List Descriptor → List Descriptor
unfolding before insert_by_name
sort_by_name tie [] = []
sort_by_name tie (d ∷ ds) = insert_by_name tie d (sort_by_name tie ds)

abbrev pub is_listed : Bytes → List Descriptor → Bool
is_listed name [] = false
is_listed name (d ∷ ds) = same d.name name || is_listed name ds

-- The loop of `Put` over the index, and the append when no entry had the name.
unfoldable pub replace_named : Descriptor → List Descriptor → List Descriptor
replace_named d [] = []
replace_named d (e ∷ es) = (if same e.name d.name then d else e) ∷ replace_named d es

unfoldable pub put_descriptor :
    (Descriptor → Descriptor → Bool) → Descriptor → List Descriptor → List Descriptor
put_descriptor tie d ds =
    sort_by_name tie (if is_listed d.name ds then replace_named d ds else ds ++ (d ∷ []))

-- The loop of `Delete` over the index.
unfoldable pub remove_named : Bytes → List Descriptor → List Descriptor
remove_named name [] = []
remove_named name (d ∷ ds) =
    let rest = remove_named name ds in if same d.name name then rest else d ∷ rest

is_supported : Kind → Bool
is_supported password = true
is_supported raw_key = true
is_supported (other_kind k) = false

module _ {W : Type 0} (b : Backend W) (enc : Encoding) where
  decoded_index : Option (List Descriptor) → Answer (List Descriptor)
  decoded_index none = failed malformed_index
  decoded_index (some ds) = if ltb 1024 (length ds) then failed index_entries else done ds

  read_index : Found → Answer (List Descriptor)
  read_index (missing not_found) = done []
  read_index (missing (unavailable k)) = failed (keychain (unavailable k))
  read_index (value v) =
      if ltb (2 ^ 20) (length v) then failed index_size else decoded_index (enc.unmarshal_index v)

  -- `listLocked`
  unfoldable pub list_locked : W → Answer (List Descriptor)
  unfolding decoded_index read_index
  list_locked w = read_index (b.get index_account w)

  -- Put the record back that stood under the name, or nothing.
  unfoldable pub restore : Bytes → Found → W → Option KeyringError × W
  restore name (value previous) w = b.set name previous w
  restore name (missing e) w = b.delete name w

  rolled_back : KeyringError → Option KeyringError × W → Answer (Unit {0}) × W
  rolled_back e (none, w) = (failed (keychain e), w)
  rolled_back e (some e', w) = (failed (rollback_failed e e'), w)

  after_index : Bytes → Found → Option KeyringError × W → Answer (Unit {0}) × W
  after_index name previous (none, w) = (done tt, w)
  after_index name previous (some e, w) = rolled_back e (restore name previous w)

  -- Behind the change of the record: the index is written, or the record put back.
  unfoldable pub write_index :
      Bytes → Found → Bytes → Option KeyringError × W → Answer (Unit {0}) × W
  unfolding rolled_back after_index
  write_index name previous index (some e, w) = (failed (keychain e), w)
  write_index name previous index (none, w) =
      after_index name previous (b.set index_account index w)

  -- the end of `Put`, behind its first read of the record
  put_record : Bytes → SecretCredential → Bytes → Found → W → Answer (Unit {0}) × W
  put_record name c index (missing (unavailable k)) w = (failed (keychain (unavailable k)), w)
  put_record name c index (missing not_found) w =
      write_index name (missing not_found) index (b.set name (enc.marshal_secret c) w)
  put_record name c index (value v) w =
      write_index name (value v) index (b.set name (enc.marshal_secret c) w)

  pub put_listed :
      Bytes → SecretCredential → Descriptor → Answer (List Descriptor) → W → Answer (Unit {0}) × W
  put_listed name c d (failed e) w = (failed e, w)
  put_listed name c d (done ds) w =
      let entry : Descriptor = record d { name = name; kind = c.kind } in
      put_record name c (enc.marshal_index (put_descriptor enc.tie entry ds)) (b.get name w) w

  -- `Put`; the first argument says whether the context is cancelled.
  unfoldable pub put : Bool → Bytes → SecretCredential → Descriptor → W → Answer (Unit {0}) × W
  unfolding is_supported put_record put_listed
  put stopped name c d w =
      if stopped
      then (failed cancelled, w)
      else if not (is_valid_name name)
      then (failed invalid_name, w)
      else if not (is_supported c.kind)
      then (failed unsupported_kind, w)
      else if length c.secret == 0
      then (failed secret_empty, w)
      else put_listed name c d (list_locked w) w

  decoded_secret : Option SecretCredential → Answer SecretCredential
  decoded_secret none = failed malformed_secret
  decoded_secret (some c) = done c

  read_secret : Found → Answer SecretCredential
  read_secret (missing e) = failed (keychain e)
  read_secret (value v) = decoded_secret (enc.unmarshal_secret v)

  -- `Get`
  unfoldable pub get : Bool → Bytes → W → Answer SecretCredential
  unfolding decoded_secret read_secret
  get stopped name w =
      if stopped
      then failed cancelled
      else if not (is_valid_name name)
      then failed invalid_name
      else read_secret (b.get name w)

  delete_record : Bytes → Bytes → Found → W → Answer (Unit {0}) × W
  delete_record name index (missing e) w = (failed (keychain e), w)
  delete_record name index (value v) w = write_index name (value v) index (b.delete name w)

  pub delete_listed : Bytes → Answer (List Descriptor) → W → Answer (Unit {0}) × W
  delete_listed name (failed e) w = (failed e, w)
  delete_listed name (done ds) w =
      delete_record name (enc.marshal_index (remove_named name ds)) (b.get name w) w

  -- `Delete`
  unfoldable pub delete : Bool → Bytes → W → Answer (Unit {0}) × W
  unfolding delete_record delete_listed
  delete stopped name w =
      if stopped
      then (failed cancelled, w)
      else if not (is_valid_name name)
      then (failed invalid_name, w)
      else delete_listed name (list_locked w) w

  -- `List`
  unfoldable pub list : Bool → W → Answer (List Descriptor)
  list stopped w = if stopped then failed cancelled else list_locked w
