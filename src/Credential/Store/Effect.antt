-- ===== src/Credential/Store/Effect.antt =====
-- What `Put` and `Delete` have done when they return no error.
use cypherstorm.Base.{
  ◌≡◌, ◌≢◌, inl, inr, refl, ap, ◌∙◌, Bool, true, Option, none, some, List, Bytes,
}
use cypherstorm.Stream.Laws.{pair_fst, pair_snd}
use cypherstorm.Credential.Store.{
  KeyringError, not_found, unavailable, Found, value, missing, Backend, SecretCredential,
  Descriptor, Encoding, Answer, done, failed, index_account, is_valid_name, put_descriptor,
  remove_named, put, delete, list_locked, put_listed, put_record, delete_listed, delete_record,
  write_index, after_index, rolled_back,
}
use cypherstorm.Credential.Store.Atomic.{IsKeyring, is_valid_name-apart}
use cypherstorm.Credential.Store.Errors.{put-guards, delete-guards}

-- The descriptor as `Put` lists it.
abbrev pub entry_of : Bytes → SecretCredential → Descriptor → Descriptor
entry_of name c d = record d { name = name; kind = c.kind }

module _ {W : Type 0} (b : Backend W) (enc : Encoding) (h : IsKeyring b) where
  rolled_back-fails :
      (x : KeyringError) (out : Option KeyringError × W) (w' : W)
      → rolled_back b enc x out ≢ (done tt, w')
  unfolding rolled_back
  rolled_back-fails x (none, w3) w' e = cc (pair_fst e)
  rolled_back-fails x (some y, w3) w' e = cc (pair_fst e)

  after_index-done :
      (name : Bytes) (f : Found) (out : Option KeyringError × W) (w' : W)
      → after_index b enc name f out ≡ (done tt, w')
      → out ≡ (none, w')
  unfolding after_index
  after_index-done name f (none, w2) w' e = ap (λ w. (none, w)) (pair_snd e)
  after_index-done name f (some x, w2) w' e = absurd (rolled_back-fails x _ w' e)

  write_index-done :
      (name : Bytes) (f : Found) (index : Bytes) (out : Option KeyringError × W) (w' : W)
      → write_index b enc name f index out ≡ (done tt, w')
      → (out.0 ≡ none) × (b.set index_account index out.1 ≡ (none, w'))
  unfolding write_index
  write_index-done name f index (none, w1) w' e = (refl, after_index-done name f _ w' e)
  write_index-done name f index (some x, w1) w' e = cc (pair_fst e)

  -- What stands in the keychain after both writes.
  pub record Written (name : Bytes) (record_is : Found) (index : Bytes) (w' : W) : Type 0 where
    pub stored : b.get name w' ≡ record_is
    pub indexed : b.get index_account w' ≡ value index

  write_index-Written :
      (name : Bytes) (f g : Found) (index : Bytes) (out : Option KeyringError × W) (w' : W)
      → name ≢ index_account
      → (out.0 ≡ none → b.get name out.1 ≡ g)
      → write_index b enc name f index out ≡ (done tt, w')
      → Written name g index w'
  write_index-Written name f g index out w' n changed e =
      let (r, i) = write_index-done name f index out w' e in
      record {
        stored = h.set_apart index_account index name out.1 w' none n i ∙ changed r;
        indexed = h.set_stores index_account index out.1 w' i;
      }

  put_record-Written :
      (name : Bytes) (c : SecretCredential) (index : Bytes) (f : Found) (w w' : W)
      → name ≢ index_account
      → put_record b enc name c index f w ≡ (done tt, w')
      → Written name (value (enc.marshal_secret c)) index w'
  unfolding put_record
  put_record-Written name c index (missing (unavailable k)) w w' n e = cc (pair_fst e)
  put_record-Written name c index (missing not_found) w w' n e =
      let out = b.set name (enc.marshal_secret c) w in
      write_index-Written name _ _ index out w' n
        (λ r. h.set_stores name _ w _ (ap (λ x. (x, out.1)) r)) e
  put_record-Written name c index (value v) w w' n e =
      let out = b.set name (enc.marshal_secret c) w in
      write_index-Written name _ _ index out w' n
        (λ r. h.set_stores name _ w _ (ap (λ x. (x, out.1)) r)) e

  put_listed-Written :
      (name : Bytes) (c : SecretCredential) (d : Descriptor) (l : Answer (List Descriptor))
      (w w' : W)
      → name ≢ index_account
      → put_listed b enc name c d l w ≡ (done tt, w')
      → (ds : List Descriptor) × (l ≡ done ds)
        × Written name
            (value (enc.marshal_secret c))
            (enc.marshal_index (put_descriptor enc.tie (entry_of name c d) ds))
            w'
  unfolding put_listed
  put_listed-Written name c d (failed x) w w' n e = cc (pair_fst e)
  put_listed-Written name c d (done ds) w w' n e =
      (ds, refl, put_record-Written name c _ (b.get name w) w w' n e)

  -- A `Put` without an error has stored the record and the new index.
  pub put-Written :
      (stopped : Bool) (name : Bytes) (c : SecretCredential) (d : Descriptor) (w w' : W)
      → put b enc stopped name c d w ≡ (done tt, w')
      → (is_valid_name name ≡ true)
        × ((ds : List Descriptor) × (list_locked b enc w ≡ done ds)
            × Written name
                (value (enc.marshal_secret c))
                (enc.marshal_index (put_descriptor enc.tie (entry_of name c d) ds))
                w')
  put-Written stopped name c d w w' e = elim (put-guards b enc stopped name c d w w' _ e) [
    | inl x ↦ cc x.1.1
    | inr x ↦ (
      x.0,
      put_listed-Written name c d (list_locked b enc w) w w' (is_valid_name-apart name x.0) x.1,
    )
  ]

  delete_record-Written :
      (name index : Bytes) (f : Found) (w w' : W)
      → name ≢ index_account
      → delete_record b enc name index f w ≡ (done tt, w')
      → Written name (missing not_found) index w'
  unfolding delete_record
  delete_record-Written name index (missing x) w w' n e = cc (pair_fst e)
  delete_record-Written name index (value v) w w' n e =
      let out = b.delete name w in
      write_index-Written name _ _ index out w' n
        (λ r. h.delete_removes name w _ (ap (λ x. (x, out.1)) r)) e

  delete_listed-Written :
      (name : Bytes) (l : Answer (List Descriptor)) (w w' : W)
      → name ≢ index_account
      → delete_listed b enc name l w ≡ (done tt, w')
      → (ds : List Descriptor) × (l ≡ done ds)
        × Written name (missing not_found) (enc.marshal_index (remove_named name ds)) w'
  unfolding delete_listed
  delete_listed-Written name (failed x) w w' n e = cc (pair_fst e)
  delete_listed-Written name (done ds) w w' n e =
      (ds, refl, delete_record-Written name _ (b.get name w) w w' n e)

  -- A `Delete` without an error has removed the record and stored the new index.
  pub delete-Written :
      (stopped : Bool) (name : Bytes) (w w' : W)
      → delete b enc stopped name w ≡ (done tt, w')
      → (is_valid_name name ≡ true)
        × ((ds : List Descriptor) × (list_locked b enc w ≡ done ds)
            × Written name (missing not_found) (enc.marshal_index (remove_named name ds)) w')
  delete-Written stopped name w w' e = elim (delete-guards b enc stopped name w w' _ e) [
    | inl x ↦ cc x.1.1
    | inr x ↦ (
      x.0,
      delete_listed-Written name (list_locked b enc w) w w' (is_valid_name-apart name x.0) x.1,
    )
  ]
