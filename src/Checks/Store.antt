-- ===== src/Checks/Store.antt =====
-- The credential store at concrete inputs.
use cypherstorm.Base.{
  if◌then◌else◌, same, ap, ◌≤◌, ◌^◌, ℕ, zero, suc, ◌≡◌, ◌≢◌, refl, false, none, some, List, [], ◌∷◌,
  Bytes, map, length, arith,
}
use cypherstorm.Credential.Store.{
  not_found, unavailable, missing, value, SecretCredential, Descriptor, password, Answer, done,
  failed, keychain, index_entries, index_account, put, get, delete, list, list_locked, remove_named,
  is_listed, is_valid_name, is_alphanumeric, write_index, restore, put_descriptor, sort_by_name,
  replace_named,
}
use cypherstorm.Credential.Store.Atomic.{IsClean}
use cypherstorm.Credential.Store.Errors.{put-IsClean, delete-IsClean}
use cypherstorm.Credential.Store.Reads.{
  IsWithout, ended, removed, stays, put-get, delete-get, put_overfull,
}
use cypherstorm.Checks.Keyring.{Vault, vault, vault-IsKeyring, short_names, entry, first_byte}

abbrev empty : Vault
empty = record { entries = λ k. missing not_found; faults = [] }

-- The second call of the keychain that changes it fails, so the index cannot be written.
abbrev failing : Vault
failing = record empty { faults = none ∷ some (unavailable 5) ∷ [] }

abbrev secret : SecretCredential
secret = record { kind = password; secret = 1 ∷ 2 ∷ [] }

-- The store with the secret under "k".
abbrev one_put : Answer (Unit {0}) × Vault
unfolding put list_locked write_index put_descriptor sort_by_name is_valid_name is_alphanumeric same
one_put = put vault short_names false (107 ∷ []) secret (entry 0) empty

one_put_done : put vault short_names false (107 ∷ []) secret (entry 0) empty ≡ (done tt, one_put.1)
unfolding put list_locked write_index put_descriptor sort_by_name is_valid_name is_alphanumeric same
one_put_done = refl

put-get_example : get vault short_names false (107 ∷ []) one_put.1 ≡ done secret
put-get_example =
    put-get vault short_names vault-IsKeyring false (107 ∷ []) secret (entry 0) empty one_put.1 refl
      one_put_done

abbrev failed_put : Answer (Unit {0}) × Vault
unfolding put list_locked write_index restore put_descriptor sort_by_name is_valid_name
    is_alphanumeric same
failed_put = put vault short_names false (107 ∷ []) secret (entry 0) failing

failed_put_error :
    put vault short_names false (107 ∷ []) secret (entry 0) failing
    ≡ (failed (keychain (unavailable 5)), failed_put.1)
unfolding put list_locked write_index restore put_descriptor sort_by_name is_valid_name
    is_alphanumeric same
failed_put_error = refl

put-IsClean_example :
    IsClean vault short_names vault-IsKeyring failing (keychain (unavailable 5)) failed_put.1
put-IsClean_example =
    put-IsClean vault short_names vault-IsKeyring false (107 ∷ []) secret (entry 0) failing
      failed_put.1 (keychain (unavailable 5)) failed_put_error

-- A delete with the same fault.
abbrev stored : Vault
stored = record one_put.1 { faults = none ∷ some (unavailable 5) ∷ [] }

abbrev failed_delete : Answer (Unit {0}) × Vault
unfolding delete list_locked write_index restore remove_named is_valid_name is_alphanumeric same
failed_delete = delete vault short_names false (107 ∷ []) stored

failed_delete_error :
    delete vault short_names false (107 ∷ []) stored
    ≡ (failed (keychain (unavailable 5)), failed_delete.1)
unfolding delete put list_locked write_index restore remove_named put_descriptor sort_by_name
    is_valid_name is_alphanumeric same
failed_delete_error = refl

delete-IsClean_example :
    IsClean vault short_names vault-IsKeyring stored (keychain (unavailable 5)) failed_delete.1
delete-IsClean_example =
    delete-IsClean vault short_names vault-IsKeyring false (107 ∷ []) stored failed_delete.1
      (keychain (unavailable 5)) failed_delete_error

-- The names "a" and "k" are listed, and "k" has a record.
abbrev two : Vault
two = record {
  entries = λ k.
      if same k index_account
      then value (97 ∷ 107 ∷ [])
      else if same k (107 ∷ [])
      then value (1 ∷ [])
      else missing not_found;
  faults = [];
}

abbrev one_deleted : Answer (Unit {0}) × Vault
unfolding delete list_locked write_index remove_named is_valid_name is_alphanumeric same
one_deleted = delete vault short_names false (107 ∷ []) two

one_deleted_done : delete vault short_names false (107 ∷ []) two ≡ (done tt, one_deleted.1)
unfolding delete list_locked write_index remove_named is_valid_name is_alphanumeric same
one_deleted_done = refl

two_listed : list_locked vault short_names two ≡ done (entry 97 ∷ entry 107 ∷ [])
unfolding list_locked same
two_listed = refl

encodes :
    (es : List Descriptor)
    → IsWithout (107 ∷ []) (entry 97 ∷ entry 107 ∷ []) es
    → (short_names.unmarshal_index (short_names.marshal_index es) ≡ some es)
      × (length (short_names.marshal_index es) ≤ 2 ^ 20)
encodes es (removed e _) = absurd (omega (arith, ap first_byte e))
encodes _ (stays _ (removed _ ended)) = (refl, omega arith)
encodes _ (stays _ (stays n _)) = absurd (n refl)

delete-get_example :
    (get vault short_names false (107 ∷ []) one_deleted.1 ≡ failed (keychain not_found))
    × (es : List Descriptor) × (list vault short_names false one_deleted.1 ≡ done es)
    × IsWithout (107 ∷ []) (entry 97 ∷ entry 107 ∷ []) es
delete-get_example =
    delete-get vault short_names vault-IsKeyring false (107 ∷ []) two one_deleted.1
      (entry 97 ∷ entry 107 ∷ []) two_listed encodes one_deleted_done

abbrev copies : ℕ → List Descriptor
copies zero = []
copies (suc n) = entry 97 ∷ copies n

-- An index of 1024 entries, all of the name "a".
abbrev full : Vault
full = record {
  entries =
      λ k. if same k index_account then value (map (λ d. 97) (copies 1024)) else missing not_found;
  faults = [];
}

abbrev over : Answer (Unit {0}) × Vault
unfolding put list_locked write_index put_descriptor sort_by_name is_valid_name is_alphanumeric same
over = put vault short_names false (98 ∷ []) secret (entry 0) full

over_done : put vault short_names false (98 ∷ []) secret (entry 0) full ≡ (done tt, over.1)
unfolding put list_locked write_index put_descriptor sort_by_name is_valid_name is_alphanumeric same
over_done = refl

full_listed : list_locked vault short_names full ≡ done (copies 1024)
unfolding list_locked same
full_listed = refl

full_length : length (copies 1024) ≡ 1024
full_length = refl

full_new : is_listed (98 ∷ []) (copies 1024) ≡ false
unfolding same
full_new = refl

abbrev listed_last : List Descriptor
listed_last = put_descriptor short_names.tie (entry 98) (copies 1024)

inverse : short_names.unmarshal_index (short_names.marshal_index listed_last) ≡ some listed_last
unfolding put_descriptor sort_by_name replace_named same
inverse = refl

short : length (short_names.marshal_index listed_last) ≡ 1025
unfolding put_descriptor sort_by_name replace_named same
short = refl

put_overfull_example :
    (list vault short_names false over.1 ≡ failed index_entries)
    × ((other : Bytes) (c : SecretCredential) (d : Descriptor) (v : Vault)
        → put vault short_names false other c d over.1 ≢ (done tt, v))
    × ((other : Bytes) (v : Vault) → delete vault short_names false other over.1 ≢ (done tt, v))
put_overfull_example =
    put_overfull vault short_names vault-IsKeyring false (98 ∷ []) secret (entry 0) full over.1
      (copies 1024) full_listed full_length full_new inverse (rw short (omega arith)) over_done
