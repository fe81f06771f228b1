-- ===== src/Credential/Store/Atomic.antt =====
-- `Put` and `Delete` under errors of the keychain: what an error leaves behind.
use cypherstorm.Base.{
  ◌≡◌, ◌≢◌, ◌⊎◌, inl, inr, refl, sym, ap, ◌∙◌, subst, true, false, Option, none, some, Bytes, same,
  same_refl, same→eq, Bool-cases,
}
use cypherstorm.Stream.Laws.{pair_fst, pair_snd}
use cypherstorm.Credential.Store.{
  KeyringError, not_found, unavailable, Found, value, missing, Backend, Encoding, StoreError,
  rollback_failed, failed, index_account, is_alphanumeric, is_valid_name, restore, write_index,
  rolled_back, after_index,
}

-- What go-keyring promises: a Set or Delete without an error has its effect, one with an error has
-- none, and no other account is touched.
pub record IsKeyring {W : Type 0} (b : Backend W) : Type 0 where
  pub set_stores : (k v : Bytes) (w w' : W) → b.set k v w ≡ (none, w') → b.get k w' ≡ value v
  pub set_keeps :
      (k v : Bytes) (w w' : W) (e : KeyringError)
      → b.set k v w ≡ (some e, w')
      → b.get k w' ≡ b.get k w
  pub set_apart :
      (k v j : Bytes) (w w' : W) (r : Option KeyringError)
      → j ≢ k
      → b.set k v w ≡ (r, w')
      → b.get j w' ≡ b.get j w
  pub delete_removes :
      (k : Bytes) (w w' : W) → b.delete k w ≡ (none, w') → b.get k w' ≡ missing not_found
  pub delete_keeps :
      (k : Bytes) (w w' : W) (e : KeyringError)
      → b.delete k w ≡ (some e, w')
      → b.get k w' ≡ b.get k w
  pub delete_apart :
      (k j : Bytes) (w w' : W) (r : Option KeyringError)
      → j ≢ k
      → b.delete k w ≡ (r, w')
      → b.get j w' ≡ b.get j w

-- What `Put` finds under a name before it writes: a record, or none.
abbrev pub IsRecord : Found → Type 0
IsRecord (value v) = Unit
IsRecord (missing not_found) = Unit
IsRecord (missing (unavailable k)) = ⊥

pub differ : (x y : Bytes) → same x y ≡ false → x ≢ y
differ x y n e =
    let r : same x x ≡ false = subst (λ z. same x z ≡ false) (sym e) n in cc (same_refl x)

-- No valid name is the account of the index.
pub is_valid_name-apart : (name : Bytes) → is_valid_name name ≡ true → name ≢ index_account
unfolding is_valid_name is_alphanumeric
is_valid_name-apart name v e = cc (subst (λ n. is_valid_name n ≡ true) e v)

module _ {W : Type 0} (b : Backend W) (enc : Encoding) (h : IsKeyring b) where
  -- Every account reads as before.
  abbrev pub Unchanged : W → W → Type 0
  Unchanged w w' = (k : Bytes) → b.get k w' ≡ b.get k w

  -- The error did no harm, or it says that the record could not be put back.
  abbrev pub IsClean : W → StoreError → W → Type 0
  IsClean w e w' =
      Unchanged w w' ⊎ ((x : KeyringError) × (y : KeyringError) × (e ≡ rollback_failed x y))

  restore-get :
      (name : Bytes) (previous : Found) (w w' : W)
      → IsRecord previous
      → restore b enc name previous w ≡ (none, w')
      → b.get name w' ≡ previous
  unfolding restore
  restore-get name (value v) w w' p e = h.set_stores name v w w' e
  restore-get name (missing not_found) w w' p e = h.delete_removes name w w' e
  restore-get name (missing (unavailable k)) w w' p e = absurd p

  restore-apart :
      (name : Bytes) (previous : Found) (j : Bytes) (w w' : W) (r : Option KeyringError)
      → j ≢ name
      → restore b enc name previous w ≡ (r, w')
      → b.get j w' ≡ b.get j w
  unfolding restore
  restore-apart name (value v) j w w' r n e = h.set_apart name v j w w' r n e
  restore-apart name (missing x) j w w' r n e = h.delete_apart name j w w' r n e

  -- The change of a record: only its account is touched, and not even that with an error.
  pub record Changed (name : Bytes) (w : W) (out : Option KeyringError × W) : Type 0 where
    pub apart : (j : Bytes) → j ≢ name → b.get j out.1 ≡ b.get j w
    pub keeps : (x : KeyringError) → out.0 ≡ some x → b.get name out.1 ≡ b.get name w

  pub set-Changed : (name v : Bytes) (w : W) → Changed name w (b.set name v w)
  set-Changed name v w = record {
    apart = λ j n. h.set_apart name v j w _ _ n refl;
    keeps = λ x e. h.set_keeps name v w _ x (ap (λ r. (r, (b.set name v w).1)) e);
  }

  pub delete-Changed : (name : Bytes) (w : W) → Changed name w (b.delete name w)
  delete-Changed name w = record {
    apart = λ j n. h.delete_apart name j w _ _ n refl;
    keeps = λ x e. h.delete_keeps name w _ x (ap (λ r. (r, (b.delete name w).1)) e);
  }

  -- Two states agree if they agree on one account and on all others.
  everywhere :
      (name : Bytes) (w w' : W)
      → b.get name w' ≡ b.get name w
      → ((j : Bytes) → j ≢ name → b.get j w' ≡ b.get j w)
      → Unchanged w w'
  everywhere name w w' at others k = elim (Bool-cases (same k name)) [
    | inl y ↦ subst (λ z. b.get z w' ≡ b.get z w) (sym (same→eq k name y)) at
    | inr n ↦ others k (differ k name n)
  ]

  Changed-Unchanged :
      (name : Bytes) (w w' : W) (x : KeyringError) → Changed name w (some x, w') → Unchanged w w'
  Changed-Unchanged name w w' x c = everywhere name w w' (c.keeps x refl) c.apart

  module _ (name : Bytes) (previous : Found) (index : Bytes) (w : W) (p : IsRecord previous)
      (n : name ≢ index_account) (was : b.get name w ≡ previous) where
    rolled_back-IsClean :
        (x : KeyringError) (w2 : W) (out : Option KeyringError × W) (e : StoreError) (w' : W)
        → ((j : Bytes) → j ≢ name → b.get j w2 ≡ b.get j w)
        → restore b enc name previous w2 ≡ out
        → rolled_back b enc x out ≡ (failed e, w')
        → IsClean w e w'
    unfolding rolled_back
    rolled_back-IsClean x w2 (some y, w3) e w' others r q = inr (x, y, cc (pair_fst q))
    rolled_back-IsClean x w2 (none, w3) e w' others r q = inl (
        subst (Unchanged w) (pair_snd q) (
          everywhere name w w3 (restore-get name previous w2 w3 p r ∙ sym was)
            (λ j m. restore-apart name previous j w2 w3 none m r ∙ others j m)))

    after_index-IsClean :
        (w1 : W) (out : Option KeyringError × W) (e : StoreError) (w' : W)
        → ((j : Bytes) → j ≢ name → b.get j w1 ≡ b.get j w)
        → b.set index_account index w1 ≡ out
        → after_index b enc name previous out ≡ (failed e, w')
        → IsClean w e w'
    unfolding after_index
    after_index-IsClean w1 (none, w2) e w' others r q = cc (pair_fst q)
    after_index-IsClean w1 (some x, w2) e w' others r q =
        let kept =
          everywhere index_account w1 w2 (h.set_keeps index_account index w1 w2 x r)
            (λ j m. h.set_apart index_account index j w1 w2 (some x) m r) in
        rolled_back-IsClean x w2 (restore b enc name previous w2) e w' (λ j m. kept j ∙ others j m)
          refl q

    pub write_index-IsClean :
        (out : Option KeyringError × W) (e : StoreError) (w' : W)
        → Changed name w out
        → write_index b enc name previous index out ≡ (failed e, w')
        → IsClean w e w'
    unfolding write_index
    write_index-IsClean (some x, w1) e w' c q =
        inl (subst (Unchanged w) (pair_snd q) (Changed-Unchanged name w w1 x c))
    write_index-IsClean (none, w1) e w' c q =
        after_index-IsClean w1 (b.set index_account index w1) e w' c.apart refl q
