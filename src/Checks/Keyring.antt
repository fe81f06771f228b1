-- ===== src/Checks/Keyring.antt =====
-- A keychain that holds a map and a schedule of the errors of its next calls.
use cypherstorm.Base.{
  false, ℕ, ◌≡◌, ◌≢◌, refl, sym, Option, none, some, List, [], ◌∷◌, Bytes, map, same, same_refl,
  same→eq, Bool-cases, inl, inr, if◌then◌else◌,
}
use cypherstorm.Stream.Laws.{pair_fst, pair_snd}
use cypherstorm.Credential.Store.{
  KeyringError, not_found, Found, value, missing, Backend, Encoding, Descriptor, password,
}
use cypherstorm.Credential.Store.Atomic.{IsKeyring}

pub record Vault : Type 0 where
  pub entries : Bytes → Found
  pub faults : List (Option KeyringError)

abbrev with_entry : Bytes → Found → (Bytes → Found) → Bytes → Found
with_entry k f m j = if same j k then f else m j

abbrev changed_entry :
    Bytes → Found → (Bytes → Found) → List (Option KeyringError) → Option KeyringError × Vault
changed_entry k f m [] = (none, record { entries = with_entry k f m; faults = [] })
changed_entry k f m (none ∷ fs) = (none, record { entries = with_entry k f m; faults = fs })
changed_entry k f m (some e ∷ fs) = (some e, record { entries = m; faults = fs })

abbrev pub vault : Backend Vault
vault = record {
  get = λ k w. w.entries k;
  set = λ k v w. changed_entry k (value v) w.entries w.faults;
  delete = λ k w. changed_entry k (missing not_found) w.entries w.faults;
}

with_entry-hit : (k : Bytes) (f : Found) (m : Bytes → Found) → with_entry k f m k ≡ f
with_entry-hit k f m = rw (same_refl k) refl

with_entry-miss : (k j : Bytes) (f : Found) (m : Bytes → Found) → j ≢ k → with_entry k f m j ≡ m j
with_entry-miss k j f m n = elim (Bool-cases (same j k)) [
  | inl y ↦ absurd (n (same→eq j k y))
  | inr x ↦ rw x refl
]

module _ (k : Bytes) (f : Found) (m : Bytes → Found) where
  changed_entry-done :
      (fs : List (Option KeyringError)) (v : Vault)
      → changed_entry k f m fs ≡ (none, v)
      → v.entries k ≡ f
  changed_entry-done [] v e = rw (sym (pair_snd e)) (with_entry-hit k f m)
  changed_entry-done (none ∷ fs) v e = rw (sym (pair_snd e)) (with_entry-hit k f m)
  changed_entry-done (some x ∷ fs) v e = cc (pair_fst e)

  changed_entry-failed :
      (fs : List (Option KeyringError)) (v : Vault) (x : KeyringError)
      → changed_entry k f m fs ≡ (some x, v)
      → v.entries k ≡ m k
  changed_entry-failed [] v x e = cc (pair_fst e)
  changed_entry-failed (none ∷ fs) v x e = cc (pair_fst e)
  changed_entry-failed (some y ∷ fs) v x e = rw (sym (pair_snd e)) refl

  changed_entry-apart :
      (fs : List (Option KeyringError)) (v : Vault) (r : Option KeyringError) (j : Bytes)
      → j ≢ k
      → changed_entry k f m fs ≡ (r, v)
      → v.entries j ≡ m j
  changed_entry-apart [] v r j n e = rw (sym (pair_snd e)) (with_entry-miss k j f m n)
  changed_entry-apart (none ∷ fs) v r j n e = rw (sym (pair_snd e)) (with_entry-miss k j f m n)
  changed_entry-apart (some x ∷ fs) v r j n e = rw (sym (pair_snd e)) refl

pub vault-IsKeyring : IsKeyring vault
vault-IsKeyring = record {
  set_stores = λ k v w w' e. changed_entry-done k (value v) w.entries w.faults w' e;
  set_keeps = λ k v w w' x e. changed_entry-failed k (value v) w.entries w.faults w' x e;
  set_apart = λ k v j w w' r n e. changed_entry-apart k (value v) w.entries w.faults w' r j n e;
  delete_removes = λ k w w' e. changed_entry-done k (missing not_found) w.entries w.faults w' e;
  delete_keeps = λ k w w' x e. changed_entry-failed k (missing not_found) w.entries w.faults w' x e;
  delete_apart =
      λ k j w w' r n e. changed_entry-apart k (missing not_found) w.entries w.faults w' r j n e;
}

-- An encoding for passwords and for names of one byte.
abbrev pub entry : ℕ → Descriptor
entry c = record { name = c ∷ []; kind = password; fingerprint = [] }

abbrev pub first_byte : Bytes → ℕ
first_byte [] = 0
first_byte (c ∷ cs) = c

abbrev pub short_names : Encoding
short_names = record {
  marshal_index = map (λ d. first_byte d.name);
  unmarshal_index = λ v. some (map entry v);
  marshal_secret = λ c. c.secret;
  unmarshal_secret = λ v. some (record { kind = password; secret = v });
  tie = λ d e. false;
}
