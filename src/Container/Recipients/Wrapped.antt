-- ===== src/Container/Recipients/Wrapped.antt =====
-- The recipient lists that `wrapRecipients` produces.
use cypherstorm.Base.{
  ◌≤◌, ◌<◌, ◌≡◌, refl, List, [], ◌∷◌, ◌++◌, String, Bytes, length, ◌==◌, not, arith, All, subst,
}
use cypherstorm.Fault.{Error, ok, refuse_if, refuse_if-eq-ok, ok-injective}
use cypherstorm.Stream.{World, draw}
use cypherstorm.Stream.Laws.{continue-eq-ok, pair_fst}
use cypherstorm.Security.Kdf.{Argon2Params}
use cypherstorm.Credential.Identity.{Public, fingerprint, parse_x25519_recipient}
use cypherstorm.Credential.Identity.Text.{fingerprint-nonempty}
use cypherstorm.Container.Header.{RecipientStanza, StanzaParams, none_seen, has, max_recipients}
use cypherstorm.Container.Header.Policy.{IsAllowed, IsKnown, Fresh, passwords, public_ids}
use cypherstorm.Container.Recipients.{
  Outer, RecipientOptions, derive, password_key, age_wrap, wrap_password, wrap_raw_key,
  wrap_public_keys, check_count, wrap_recipients,
}

-- The stanzas of public keys: X25519 only, their ids nonempty and new.
record ArePublic (seen : List Bytes) (out : List RecipientStanza) : Type 0 where
  known : All IsKnown out
  no_password : passwords out ≡ 0
  fresh_ids : Fresh seen (public_ids out)

module _ (o : Outer) (content_key payload_id : Bytes) where
  wrap_public_keys-ArePublic :
      (seen : List Bytes) (keys : List Public) (w v : World) (out : List RecipientStanza)
      → wrap_public_keys o content_key payload_id seen keys w ≡ (ok out, v)
      → ArePublic seen out
  unfolding wrap_public_keys
  wrap_public_keys-ArePublic seen [] w v out e =
      let empty : [] ≡ out = cc (pair_fst e) in
      subst (ArePublic seen) empty (record { known = tt; no_password = refl; fresh_ids = tt })
  wrap_public_keys-ArePublic seen (p ∷ keys) w v out e =
      let (r, w1, _, e1) = continue-eq-ok _ (parse_x25519_recipient o.identities p, w) e in
      let (id, w2, f, e2) = continue-eq-ok _ (fingerprint o.identities p, w1) e1 in
      let (_, w3, g, e3) =
        continue-eq-ok _ (refuse_if (has id seen) Error.duplicate_recipient, w2) e2 in
      let (b, w4, _, e4) = continue-eq-ok _ (age_wrap o r _ w3) e3 in
      let (more, w5, h, e5) =
        continue-eq-ok _ (wrap_public_keys o content_key payload_id (id ∷ seen) keys w4) e4 in
      let ih = wrap_public_keys-ArePublic (id ∷ seen) keys w4 w5 more h in
      let new = refuse_if-eq-ok (has id seen) _ (pair_fst g) in
      subst (ArePublic seen) (ok-injective (pair_fst e5)) (record {
        known = (refl, ih.known);
        no_password = omega (arith, ih.no_password);
        fresh_ids = (fingerprint-nonempty o.identities p id (pair_fst f), new, ih.fresh_ids);
      })

-- The stanza lists of the symmetric credentials: one stanza of the given type, or none.
data AtMostOne (kind : String) : List RecipientStanza → Type 0 where
  absent : AtMostOne kind []
  present : {s : RecipientStanza} → s.kind ≡ kind → AtMostOne kind (s ∷ [])

module _ (o : Outer) (content_key payload_id : Bytes) where
  wrap_password-AtMostOne :
      (password : Bytes) (params : StanzaParams) (w v : World) (out : List RecipientStanza)
      → wrap_password o content_key payload_id password params w ≡ (ok out, v)
      → AtMostOne "password" out
  unfolding wrap_password
  wrap_password-AtMostOne [] params w v out e =
      subst (AtMostOne "password") (ok-injective (pair_fst e)) absent
  wrap_password-AtMostOne (b ∷ password) params w v out e =
      let (salt, w1, _, e1) = continue-eq-ok _ (draw o.env 32 w) e in
      let (kek, w2, _, e2) = continue-eq-ok _ (password_key o (b ∷ password) params salt w1) e1 in
      let (nonce, w3, _, e3) = continue-eq-ok _ (draw o.env 24 w2) e2 in
      subst (AtMostOne "password") (ok-injective (pair_fst e3)) (present refl)

  wrap_raw_key-AtMostOne :
      (raw : Bytes) (w v : World) (out : List RecipientStanza)
      → wrap_raw_key o content_key payload_id raw w ≡ (ok out, v)
      → AtMostOne "raw-key" out
  unfolding wrap_raw_key
  wrap_raw_key-AtMostOne [] w v out e =
      subst (AtMostOne "raw-key") (ok-injective (pair_fst e)) absent
  wrap_raw_key-AtMostOne (b ∷ raw) w v out e =
      let (_, w0, _, e0) =
        continue-eq-ok _ (refuse_if (not (length (b ∷ raw) == 32)) Error.raw_key_size, w) e in
      let (salt, w1, _, e1) = continue-eq-ok _ (draw o.env 32 w0) e0 in
      let (kek, w2, _, e2) =
        continue-eq-ok _ (derive o.prim (b ∷ raw) salt "cypherstorm/v2/raw-wrap" 32, w1) e1 in
      let (nonce, w3, _, e3) = continue-eq-ok _ (draw o.env 24 w2) e2 in
      subst (AtMostOne "raw-key") (ok-injective (pair_fst e3)) (present refl)

-- The three lists together are within the policy.
joined :
    {a b : List RecipientStanza} (c : List RecipientStanza)
    → AtMostOne "password" a
    → AtMostOne "raw-key" b
    → ArePublic [] c
    → IsAllowed none_seen (a ++ (b ++ c))
joined c (present {s = s} k) (present {s = t} l) p = record {
  known = (rw k refl, (rw l refl, p.known));
  one_password = rw (k, l) (omega (arith, p.no_password));
  fresh_ids = rw (k, l) p.fresh_ids;
}
joined c (present {s = s} k) absent p = record {
  known = (rw k refl, p.known);
  one_password = rw k (omega (arith, p.no_password));
  fresh_ids = rw k p.fresh_ids;
}
joined c absent (present {s = t} l) p = record {
  known = (rw l refl, p.known);
  one_password = rw l (omega (arith, p.no_password));
  fresh_ids = rw l p.fresh_ids;
}
joined c absent absent p = record {
  known = p.known;
  one_password = omega (arith, p.no_password);
  fresh_ids = p.fresh_ids;
}

counted_out :
    (o : Outer) (l out : List RecipientStanza)
    → check_count o l ≡ ok out
    → (l ≡ out) × (0 < length out) × (length out ≤ max_recipients)
unfolding check_count
counted_out o l out e = ground arith

-- Whatever `wrapRecipients` returns without an error is a recipient list that `readHeader` lets
-- through: known types, at most one password, distinct nonempty ids, and from 1 to 64 recipients.
pub wrap_recipients-IsAllowed :
    (o : Outer) (content_key payload_id : Bytes) (r : RecipientOptions) (params : Argon2Params)
    (w v : World) (out : List RecipientStanza)
    → wrap_recipients o content_key payload_id r params w ≡ (ok out, v)
    → IsAllowed none_seen out × (0 < length out) × (length out ≤ max_recipients)
unfolding wrap_recipients
wrap_recipients-IsAllowed o content_key payload_id r params w v out e =
    let (a, w1, pa, e1) =
      continue-eq-ok _ (wrap_password o content_key payload_id r.password _ w) e in
    let (b, w2, pb, e2) =
      continue-eq-ok _ (wrap_raw_key o content_key payload_id r.raw_key w1) e1 in
    let (c, w3, pc, e3) =
      continue-eq-ok _ (wrap_public_keys o content_key payload_id [] r.public_keys w2) e2 in
    let (same_list, pos, most) = counted_out o (a ++ (b ++ c)) out (pair_fst e3) in
    (
      subst (IsAllowed none_seen) same_list (
          joined c (wrap_password-AtMostOne o content_key payload_id r.password _ w w1 a pa)
            (wrap_raw_key-AtMostOne o content_key payload_id r.raw_key w1 w2 b pb)
            (wrap_public_keys-ArePublic o content_key payload_id [] r.public_keys w2 w3 c pc)),
      pos,
      most,
    )
