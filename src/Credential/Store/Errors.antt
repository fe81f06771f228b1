-- ===== src/Credential/Store/Errors.antt =====
-- What `Put` and `Delete` leave behind when they return an error.
use cypherstorm.Base.{
  ◌≡◌, ◌≢◌, ◌⊎◌, inl, inr, refl, sym, ap, Bool, true, false, List, Bytes, length, ◌==◌, Bool-cases,
}
use cypherstorm.Stream.Laws.{pair_fst, pair_snd}
use cypherstorm.Credential.Store.{
  not_found, unavailable, Found, value, missing, Backend, SecretCredential, Descriptor, Encoding,
  StoreError, Answer, done, failed, index_account, is_valid_name, put, delete, list_locked,
  put_listed, is_supported, put_record, delete_listed, delete_record,
}
use cypherstorm.Credential.Store.Atomic.{
  IsKeyring, IsClean, is_valid_name-apart, write_index-IsClean, set-Changed, delete-Changed,
}

module _ {W : Type 0} (b : Backend W) (enc : Encoding) where
  -- The checks at the start of `Put`: an error before the keychain is touched, or all of them pass.
  pub put-guards :
      (stopped : Bool) (name : Bytes) (c : SecretCredential) (d : Descriptor) (w w' : W)
      (r : Answer (Unit {0}))
      → put b enc stopped name c d w ≡ (r, w')
      → ((w ≡ w') × ((e : StoreError) × (r ≡ failed e)))
        ⊎ (is_valid_name name ≡ true)
          × (put_listed b enc name c d (list_locked b enc w) w ≡ (r, w'))
  unfolding put
  put-guards true name c d w w' r q = inl (pair_snd q, (_, sym (pair_fst q)))
  put-guards false name c d w w' r q = elim (Bool-cases (is_valid_name name)) [
    | inr n ↦ let q' = rw n at q in inl (pair_snd q', (_, sym (pair_fst q')))
    | inl v ↦ elim (Bool-cases (is_supported c.kind)) [
      | inr n ↦ let q' = rw (v, n) at q in inl (pair_snd q', (_, sym (pair_fst q')))
      | inl s ↦ elim (Bool-cases (length c.secret == 0)) [
        | inl n ↦ let q' = rw (v, s, n) at q in inl (pair_snd q', (_, sym (pair_fst q')))
        | inr n ↦ inr (v, rw (v, s, n) at q)
      ]
    ]
  ]

  pub delete-guards :
      (stopped : Bool) (name : Bytes) (w w' : W) (r : Answer (Unit {0}))
      → delete b enc stopped name w ≡ (r, w')
      → ((w ≡ w') × ((e : StoreError) × (r ≡ failed e)))
        ⊎ (is_valid_name name ≡ true) × (delete_listed b enc name (list_locked b enc w) w ≡ (r, w'))
  unfolding delete
  delete-guards true name w w' r q = inl (pair_snd q, (_, sym (pair_fst q)))
  delete-guards false name w w' r q = elim (Bool-cases (is_valid_name name)) [
    | inr n ↦ let q' = rw n at q in inl (pair_snd q', (_, sym (pair_fst q')))
    | inl v ↦ inr (v, rw v at q)
  ]

module _ {W : Type 0} (b : Backend W) (enc : Encoding) (h : IsKeyring b) where
  untouched : (w w' : W) (e : StoreError) → w ≡ w' → IsClean b enc h w e w'
  untouched w w' e p = inl (λ k. ap (b.get k) (sym p))

  put_record-IsClean :
      (name : Bytes) (c : SecretCredential) (index : Bytes) (f : Found) (w w' : W) (e : StoreError)
      → name ≢ index_account
      → b.get name w ≡ f
      → put_record b enc name c index f w ≡ (failed e, w')
      → IsClean b enc h w e w'
  unfolding put_record
  put_record-IsClean name c index (missing (unavailable k)) w w' e n was q =
      untouched w w' e (pair_snd q)
  put_record-IsClean name c index (missing not_found) w w' e n was q =
      write_index-IsClean b enc h name (missing not_found) index w tt n was
        (b.set name (enc.marshal_secret c) w) e w' (set-Changed b enc h name _ w) q
  put_record-IsClean name c index (value v) w w' e n was q =
      write_index-IsClean b enc h name (value v) index w tt n was
        (b.set name (enc.marshal_secret c) w) e w' (set-Changed b enc h name _ w) q

  put_listed-IsClean :
      (name : Bytes) (c : SecretCredential) (d : Descriptor) (l : Answer (List Descriptor))
      (w w' : W) (e : StoreError)
      → name ≢ index_account
      → put_listed b enc name c d l w ≡ (failed e, w')
      → IsClean b enc h w e w'
  unfolding put_listed
  put_listed-IsClean name c d (failed x) w w' e n q = untouched w w' e (pair_snd q)
  put_listed-IsClean name c d (done ds) w w' e n q =
      put_record-IsClean name c _ (b.get name w) w w' e n refl q

  delete_record-IsClean :
      (name index : Bytes) (f : Found) (w w' : W) (e : StoreError)
      → name ≢ index_account
      → b.get name w ≡ f
      → delete_record b enc name index f w ≡ (failed e, w')
      → IsClean b enc h w e w'
  unfolding delete_record
  delete_record-IsClean name index (missing x) w w' e n was q = untouched w w' e (pair_snd q)
  delete_record-IsClean name index (value v) w w' e n was q =
      write_index-IsClean b enc h name (value v) index w tt n was (b.delete name w) e w'
        (delete-Changed b enc h name w) q

  delete_listed-IsClean :
      (name : Bytes) (l : Answer (List Descriptor)) (w w' : W) (e : StoreError)
      → name ≢ index_account
      → delete_listed b enc name l w ≡ (failed e, w')
      → IsClean b enc h w e w'
  unfolding delete_listed
  delete_listed-IsClean name (failed x) w w' e n q = untouched w w' e (pair_snd q)
  delete_listed-IsClean name (done ds) w w' e n q =
      delete_record-IsClean name _ (b.get name w) w w' e n refl q

  -- When `Put` returns an error, every account of the keychain reads as before, or the error says
  -- that the record could not be put back.
  pub put-IsClean :
      (stopped : Bool) (name : Bytes) (c : SecretCredential) (d : Descriptor) (w w' : W)
      (e : StoreError)
      → put b enc stopped name c d w ≡ (failed e, w')
      → IsClean b enc h w e w'
  put-IsClean stopped name c d w w' e q = elim (put-guards b enc stopped name c d w w' _ q) [
    | inl x ↦ untouched w w' e x.0
    | inr x ↦
        put_listed-IsClean name c d (list_locked b enc w) w w' e (is_valid_name-apart name x.0) x.1
  ]

  -- When `Delete` returns an error, every account of the keychain reads as before, or the error
  -- says that the record could not be put back.
  pub delete-IsClean :
      (stopped : Bool) (name : Bytes) (w w' : W) (e : StoreError)
      → delete b enc stopped name w ≡ (failed e, w')
      → IsClean b enc h w e w'
  delete-IsClean stopped name w w' e q = elim (delete-guards b enc stopped name w w' _ q) [
    | inl x ↦ untouched w w' e x.0
    | inr x ↦
        delete_listed-IsClean name (list_locked b enc w) w w' e (is_valid_name-apart name x.0) x.1
  ]
