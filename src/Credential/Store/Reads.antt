-- ===== src/Credential/Store/Reads.antt =====
-- What `Get` and `List` return after a `Put` or a `Delete`.
use cypherstorm.Base.{
  same, same→eq, ◌+◌, ◌^◌, ◌≤◌, ◌≡◌, ◌≢◌, inl, inr, refl, sym, subst, Bool, true, false, Option,
  none, some, List, [], ◌∷◌, ◌++◌, Bytes, length, ltb, le→ltb, lt→ltb, Bool-cases, arith,
  length-append, if◌then◌else◌,
}
use cypherstorm.Credential.Store.{
  not_found, unavailable, Found, value, missing, Backend, SecretCredential, Descriptor, Encoding,
  done, failed, keychain, index_entries, index_account, is_listed, insert_by_name, sort_by_name,
  put_descriptor, remove_named, put, get, delete, list, list_locked, read_index, decoded_index,
  read_secret, decoded_secret,
}
use cypherstorm.Credential.Store.Atomic.{IsKeyring, differ}
use cypherstorm.Credential.Store.Effect.{entry_of, put-Written, delete-Written}

module _ (tie : Descriptor → Descriptor → Bool) where
  length-insert_by_name :
      (d : Descriptor) (ds : List Descriptor) → length (insert_by_name tie d ds) ≡ length ds + 1
  unfolding insert_by_name
  length-insert_by_name d [] = refl
  length-insert_by_name d (e ∷ ds) = ground (arith, length-insert_by_name d ds)

  length-sort_by_name : (ds : List Descriptor) → length (sort_by_name tie ds) ≡ length ds
  unfolding sort_by_name
  length-sort_by_name [] = refl
  length-sort_by_name (d ∷ ds) =
      omega (arith, length-insert_by_name d (sort_by_name tie ds), length-sort_by_name ds)

  length-put_descriptor :
      (d : Descriptor) (ds : List Descriptor)
      → is_listed d.name ds ≡ false
      → length (put_descriptor tie d ds) ≡ length ds + 1
  unfolding put_descriptor
  length-put_descriptor d ds n =
      rw n (omega (arith, length-sort_by_name (ds ++ (d ∷ [])), length-append ds (d ∷ [])))

-- One list is the other without the entries of a name; the others stay, in their order.
pub data IsWithout (name : Bytes) : List Descriptor → List Descriptor → Type 0 where
  ended : IsWithout name [] []
  removed :
      {d : Descriptor} {ds es : List Descriptor}
      → d.name ≡ name
      → IsWithout name ds es
      → IsWithout name (d ∷ ds) es
  stays :
      {d : Descriptor} {ds es : List Descriptor}
      → d.name ≢ name
      → IsWithout name ds es
      → IsWithout name (d ∷ ds) (d ∷ es)

remove_named-IsWithout :
    (name : Bytes) (ds : List Descriptor) → IsWithout name ds (remove_named name ds)
unfolding remove_named
remove_named-IsWithout name [] = ended
remove_named-IsWithout name (d ∷ ds) = elim (Bool-cases (same d.name name)) [
  | inl y ↦ rw y (removed (same→eq d.name name y) (remove_named-IsWithout name ds))
  | inr n ↦ rw n (stays (differ d.name name n) (remove_named-IsWithout name ds))
]

length-remove_named :
    (name : Bytes) (ds : List Descriptor) → length (remove_named name ds) ≤ length ds
unfolding remove_named
length-remove_named name [] = omega arith
length-remove_named name (d ∷ ds) = ground (arith, length-remove_named name ds)

module _ {W : Type 0} (b : Backend W) (enc : Encoding) where
  decoded_index-few :
      (o : Option (List Descriptor)) (ds : List Descriptor)
      → decoded_index b enc o ≡ done ds
      → length ds ≤ 1024
  unfolding decoded_index
  decoded_index-few none ds e = cc
  decoded_index-few (some es) ds e = ground arith

  read_index-few :
      (f : Found) (ds : List Descriptor) → read_index b enc f ≡ done ds → length ds ≤ 1024
  unfolding read_index
  read_index-few (missing not_found) ds e = let q : [] ≡ ds = cc in rw (sym q) (omega arith)
  read_index-few (missing (unavailable k)) ds e = cc
  read_index-few (value v) ds e = elim (Bool-cases (ltb (2 ^ 20) (length v))) [
    | inl y ↦ let z = rw y at e in cc
    | inr n ↦ decoded_index-few (enc.unmarshal_index v) ds (rw n at e)
  ]

  -- An index that is read has at most 1024 entries.
  list_locked-few :
      (ds : List Descriptor) (w : W) → list_locked b enc w ≡ done ds → length ds ≤ 1024
  unfolding list_locked
  list_locked-few ds w e = read_index-few (b.get index_account w) ds e

  -- The index that stands in the keychain, read back.
  list_locked-stored :
      (ds : List Descriptor) (w : W)
      → enc.unmarshal_index (enc.marshal_index ds) ≡ some ds
      → length (enc.marshal_index ds) ≤ 2 ^ 20
      → b.get index_account w ≡ value (enc.marshal_index ds)
      → list_locked b enc w ≡ (if ltb 1024 (length ds) then failed index_entries else done ds)
  unfolding list_locked read_index decoded_index
  list_locked-stored ds w inverse small stands =
      rw (stands, le→ltb (2 ^ 20) (length (enc.marshal_index ds)) small, inverse) refl

module _ {W : Type 0} (b : Backend W) (enc : Encoding) (h : IsKeyring b) where
  -- After a Put without an error, Get of the name returns the credential, when decoding inverts the
  -- encoding of the credential.
  pub put-get :
      (stopped : Bool) (name : Bytes) (c : SecretCredential) (d : Descriptor) (w w' : W)
      → enc.unmarshal_secret (enc.marshal_secret c) ≡ some c
      → put b enc stopped name c d w ≡ (done tt, w')
      → get b enc false name w' ≡ done c
  unfolding get read_secret decoded_secret
  put-get stopped name c d w w' inverse e =
      let (valid, (ds, _, written)) = put-Written b enc h stopped name c d w w' e in
      rw (valid, written.stored, inverse) refl

  -- After a Delete without an error, Get of the name reports that it is not found, and List returns
  -- the index without the entries of the name and with every other entry, in the old order, when
  -- decoding inverts the encoding of that index and it has at most 1 MiB.
  pub delete-get :
      (stopped : Bool) (name : Bytes) (w w' : W) (ds : List Descriptor)
      → list_locked b enc w ≡ done ds
      → ((es : List Descriptor)
          → IsWithout name ds es
          → (enc.unmarshal_index (enc.marshal_index es) ≡ some es)
            × (length (enc.marshal_index es) ≤ 2 ^ 20))
      → delete b enc stopped name w ≡ (done tt, w')
      → (get b enc false name w' ≡ failed (keychain not_found))
        × (es : List Descriptor) × (list b enc false w' ≡ done es)
        × IsWithout name ds es
  unfolding get read_secret list
  delete-get stopped name w w' ds listed encodes e =
      let (valid, (ds', listed', written)) = delete-Written b enc h stopped name w w' e in
      let (inverse, short) = encodes (remove_named name ds) (remove_named-IsWithout name ds) in
      let eq : ds' ≡ ds = cc (listed, listed') in
      let indexed : b.get index_account w' ≡ value (enc.marshal_index (remove_named name ds)) =
        subst (λ z. b.get index_account w' ≡ value (enc.marshal_index (remove_named name z))) eq
          written.indexed in
      let stands = list_locked-stored b enc (remove_named name ds) w' inverse short indexed in
      let few : length (remove_named name ds) ≤ 1024 =
        omega (arith, length-remove_named name ds, list_locked-few b enc ds w listed) in
      (
        rw (valid, written.stored) refl,
        remove_named name ds,
        rw (stands, le→ltb 1024 (length (remove_named name ds)) few) refl,
        remove_named-IsWithout name ds,
      )

  -- A Put of a new name over an index of 1024 entries, when it returns no error, leaves an index that
  -- List refuses for its number of entries, and so does every Put and Delete after it, when decoding
  -- inverts the encoding of the new index and that index has at most 1 MiB.
  pub put_overfull :
      (stopped : Bool) (name : Bytes) (c : SecretCredential) (d : Descriptor) (w w' : W)
      (ds : List Descriptor)
      → list_locked b enc w ≡ done ds
      → length ds ≡ 1024
      → is_listed name ds ≡ false
      → enc.unmarshal_index (enc.marshal_index (put_descriptor enc.tie (entry_of name c d) ds))
        ≡ some (put_descriptor enc.tie (entry_of name c d) ds)
      → length (enc.marshal_index (put_descriptor enc.tie (entry_of name c d) ds)) ≤ 2 ^ 20
      → put b enc stopped name c d w ≡ (done tt, w')
      → (list b enc false w' ≡ failed index_entries)
        × ((other : Bytes) (c' : SecretCredential) (d' : Descriptor) (v : W)
            → put b enc false other c' d' w' ≢ (done tt, v))
        × ((other : Bytes) (v : W) → delete b enc false other w' ≢ (done tt, v))
  unfolding list
  put_overfull stopped name c d w w' ds listed full new inverse small e =
      let (_, (ds', listed', written)) = put-Written b enc h stopped name c d w w' e in
      let eq : ds' ≡ ds = cc (listed, listed') in
      let es = put_descriptor enc.tie (entry_of name c d) ds in
      let indexed : b.get index_account w' ≡ value (enc.marshal_index es) =
        subst
          (λ z.
            b.get index_account w'
            ≡ value (enc.marshal_index (put_descriptor enc.tie (entry_of name c d) z)))
          eq written.indexed in
      let many : ltb 1024 (length es) ≡ true =
        lt→ltb 1024 (length es)
          (omega (arith, length-put_descriptor enc.tie (entry_of name c d) ds new)) in
      let refused : list_locked b enc w' ≡ failed index_entries =
        rw (list_locked-stored b enc es w' inverse small indexed, many) refl in
      (
        refused,
        λ other c' d' v p.
            let (_, (x, l, _)) = put-Written b enc h false other c' d' w' v p in cc (refused, l),
        λ other v p.
            let (_, (x, l, _)) = delete-Written b enc h false other w' v p in cc (refused, l),
      )
