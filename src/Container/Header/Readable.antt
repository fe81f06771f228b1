-- ===== src/Container/Header/Readable.antt =====
-- Which headers `readHeader` accepts.
use cypherstorm.Base.{
  ℕ, ◌*◌, ◌^◌, ◌≤◌, ◌<◌, ◌≡◌, ◌↔◌, refl, ap, subst, true, false, Option, none, some, Bytes, length,
  ◌==◌, not, same, same→eq, same_refl, not-eq-false, arith, pos, same_int, same_int→eq, String,
  Bool-cases, inl, inr, ==→eq,
}
use cypherstorm.Fault.{
  ok, >>=-eq-ok, >>-eq-ok, refuse_if, refuse_if-eq-ok, ok-injective, trailing_json, not_canonical,
  invalid_header,
}
use cypherstorm.Security.Primitives.{Suite}
use cypherstorm.Security.Suite.{new_cipher_suite}
use cypherstorm.Security.Codec.{Codec, new_codec}
use cypherstorm.Container.Header.{
  Header, Formats, none_seen, check_stanzas, is_invalid, decoded, fixed_of, decode_fixed,
  parse_header,
}
use cypherstorm.Container.Header.Policy.{
  IsAllowed, check_stanzas-IsAllowed, IsAllowed-check_stanzas,
}

-- The ranges of a header's fields.
pub record IsInRange (h : Header) : Type 0 where
  pub version_is : h.fixed.version ≡ pos 2
  pub some_bytes : 0 < h.fixed.record_size
  pub few_bytes : h.fixed.record_size ≤ 16 * 2 ^ 20
  pub some_recipients : 0 < length h.recipients
  pub few_recipients : length h.recipients ≤ 64

-- A header and the bytes that `readHeader` accepts for it.
pub record IsReadable (fmt : Formats) (bytes : Bytes) (h : Header) : Type 0 where
  pub unread : Bytes
  pub decodes : fmt.decode_header bytes ≡ some (h, unread)
  pub nothing_more : fmt.at_end unread ≡ true
  pub canonical : bytes ≡ fmt.marshal_header h
  pub in_range : IsInRange h
  pub allowed : IsAllowed none_seen h.recipients
  pub codec : Codec
  pub codec_is : new_codec h.fixed.codec ≡ ok codec
  pub suite : Suite
  pub suite_is : new_cipher_suite h.fixed.cipher ≡ ok suite
  pub payload_id : Bytes
  pub payload_id_is : fmt.unb64 h.fixed.payload_id ≡ some payload_id
  pub payload_id_size : length payload_id ≡ 32

valid-IsInRange : (h : Header) → is_invalid h ≡ false → IsInRange h
unfolding is_invalid
valid-IsInRange h e =
    let present : same_int h.fixed.version (pos 2) ≡ true = ground arith in
    record {
      version_is = same_int→eq h.fixed.version (pos 2) present;
      some_bytes = ground arith;
      few_bytes = ground arith;
      some_recipients = ground arith;
      few_recipients = ground arith;
    }

IsInRange-valid : (h : Header) → IsInRange h → is_invalid h ≡ false
unfolding is_invalid
IsInRange-valid h r =
    let a = r.some_bytes in
    let b = r.few_bytes in
    let c = r.some_recipients in let d = r.few_recipients in rw (r.version_is) (ground arith)

fixed_of-ok :
    (n : ℕ) (o : Option Bytes) (b : Bytes) → fixed_of n o ≡ ok b → (o ≡ some b) × (length b ≡ n)
unfolding fixed_of
fixed_of-ok n none b e = cc
fixed_of-ok n (some c) b e = elim (Bool-cases (length c == n)) [
  | inl y ↦
      let same_bytes : c ≡ b = ok-injective (rw y at e) in
      (ap some same_bytes, subst (λ z. length z ≡ n) same_bytes (==→eq (length c) n y))
  | inr x ↦ let z = rw x at e in cc
]

decode_fixed-ok :
    (fmt : Formats) (s : String) (n : ℕ) (b : Bytes)
    → decode_fixed fmt s n ≡ ok b
    → (fmt.unb64 s ≡ some b) × (length b ≡ n)
unfolding decode_fixed
decode_fixed-ok fmt s n b e = fixed_of-ok n (fmt.unb64 s) b e

decoded-ok : (o : Option (Header × Bytes)) (x : Header × Bytes) → decoded o ≡ ok x → o ≡ some x
unfolding decoded
decoded-ok none x e = cc
decoded-ok (some y) x e = ap some (ok-injective e)

parse_header-IsReadable :
    (fmt : Formats) (bytes : Bytes) (h : Header)
    → parse_header fmt bytes ≡ ok (h, fmt.marshal_immutable h.fixed)
    → IsReadable fmt bytes h
unfolding parse_header
parse_header-IsReadable fmt bytes h e =
    let ((g, unread), decodes, e1) = >>=-eq-ok (decoded (fmt.decode_header bytes)) _ e in
    let (u1, ended, e2) = >>-eq-ok (refuse_if (not (fmt.at_end unread)) trailing_json) _ e1 in
    let (u2, canon, e3) =
      >>-eq-ok (refuse_if (not (same bytes (fmt.marshal_header g))) not_canonical) _ e2 in
    let (u3, valid, e4) = >>-eq-ok (refuse_if (is_invalid g) invalid_header) _ e3 in
    let (seen, checked, e5) = >>-eq-ok (check_stanzas none_seen g.recipients) _ e4 in
    let (codec, codec_is, e6) = >>-eq-ok (new_codec g.fixed.codec) _ e5 in
    let (suite, suite_is, e7) = >>-eq-ok (new_cipher_suite g.fixed.cipher) _ e6 in
    let (id, id_is, e8) = >>-eq-ok (decode_fixed fmt g.fixed.payload_id 32) _ e7 in
    let (text, size) = decode_fixed-ok fmt g.fixed.payload_id 32 id id_is in
    subst (IsReadable fmt bytes) (ap (λ (x : Header × Bytes). x.0) (ok-injective e8)) (record {
      unread = unread;
      decodes = decoded-ok (fmt.decode_header bytes) (g, unread) decodes;
      nothing_more = not-eq-false _ (refuse_if-eq-ok _ trailing_json ended);
      canonical =
          same→eq bytes (fmt.marshal_header g)
            (not-eq-false _ (refuse_if-eq-ok _ not_canonical canon));
      in_range = valid-IsInRange g (refuse_if-eq-ok _ invalid_header valid);
      allowed = check_stanzas-IsAllowed none_seen seen g.recipients (omega arith) checked;
      codec = codec;
      codec_is = codec_is;
      suite = suite;
      suite_is = suite_is;
      payload_id = id;
      payload_id_is = text;
      payload_id_size = size;
    })

IsReadable-parse_header :
    (fmt : Formats) (bytes : Bytes) (h : Header)
    → IsReadable fmt bytes h
    → parse_header fmt bytes ≡ ok (h, fmt.marshal_immutable h.fixed)
unfolding parse_header decoded decode_fixed fixed_of
IsReadable-parse_header fmt bytes h r =
    let (seen, checked) = IsAllowed-check_stanzas none_seen h.recipients r.allowed in
    let canonical : same bytes (fmt.marshal_header h) ≡ true =
      subst (λ b. same bytes b ≡ true) r.canonical (same_refl bytes) in
    rw r.decodes (
      rw (r.nothing_more, canonical, IsInRange-valid h r.in_range)
        (rw (checked, r.codec_is, r.suite_is) (rw r.payload_id_is (rw r.payload_id_size refl))))

pub parse_header_iff :
    (fmt : Formats) (bytes : Bytes) (h : Header)
    → (parse_header fmt bytes ≡ ok (h, fmt.marshal_immutable h.fixed)) ↔ IsReadable fmt bytes h
parse_header_iff fmt bytes h =
    (parse_header-IsReadable fmt bytes h, IsReadable-parse_header fmt bytes h)
