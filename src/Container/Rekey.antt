-- ===== src/Container/Rekey.antt =====
-- `Rekey`: a new header in front of the same payload bytes.
pub mod Recipients
use cypherstorm.Base.{
  ℕ, zero, suc, ◌+◌, ◌*◌, ◌^◌, ◌≡◌, Bool, true, false, Option, none, some, List, [], ◌∷◌, ◌++◌,
  String, str_eq, Bytes, length, take, drop, ltb, ◌==◌, not, ◌&&◌, ◌||◌, if◌then◌else◌,
}
use cypherstorm.Fault.{
  Error, Result, ok, err, refuse_if, replacement_count, replacement_size, duplicate_recipient,
  out_of_fuel,
}
use cypherstorm.Stream.{
  Reader, World, Env, Io, continue, ◌>>=◌, ◌>>◌, pure, fail, lift, check_context, write_whole,
}
use cypherstorm.Security.Kdf.{default_argon2_params}
use cypherstorm.Container.Header.{RecipientStanza, Header, has, max_recipients}
use cypherstorm.Container.HeaderReader.{HeaderRead, read_header}
use cypherstorm.Container.Recipients.{
  RecipientOptions, DecryptOptions, Outer, wrap_recipients, unwrap_recipients,
}
use cypherstorm.Container.Envelope.{write_header, or_empty}

abbrev pub is_symmetric : RecipientStanza → Bool
is_symmetric s = str_eq s.kind "password" || str_eq s.kind "raw-key"

-- The loop that keeps what is neither removed nor replaced.
unfoldable pub keep : List Bytes → Bool → List RecipientStanza → List RecipientStanza
keep remove replace_symmetric [] = []
keep remove replace_symmetric (s ∷ stanzas) =
    let rest = keep remove replace_symmetric stanzas in
    if has s.id remove then rest else if replace_symmetric && is_symmetric s then rest else s ∷ rest

-- The loop over the replacement's ids; an empty id is no id.
unfoldable pub check_ids : List Bytes → List RecipientStanza → Result (Unit {0})
check_ids seen [] = ok tt
check_ids seen (s ∷ stanzas) =
    let later = check_ids (if length s.id == 0 then seen else s.id ∷ seen) stanzas in
    if not (length s.id == 0) && has s.id seen then err duplicate_recipient else later

unfoldable pub check_replacement : List RecipientStanza → Result (Unit {0})
check_replacement kept =
    if length kept == 0 || ltb max_recipients (length kept)
    then err replacement_count
    else check_ids [] kept

adds_none : RecipientOptions → Bool
adds_none r = length r.password == 0 && length r.raw_key == 0 && length r.public_keys == 0

-- the buffer of io.Copy
abbrev copy_size : ℕ
copy_size = 32 * 2 ^ 10

module _ (o : Outer) where
  -- a Read after which nothing is left to read: io.EOF, or the reader's error
  copy_end : Option Error → ℕ → Result ℕ
  copy_end none count = ok count
  copy_end (some e) count = err e

  copy_piece : (ℕ → Io ℕ) → ℕ → Bytes → Io ℕ
  copy_piece again count [] w = (copy_end w.source.fault count, w)
  copy_piece again count (b ∷ rest) w =
      let piece = take copy_size (b ∷ rest) in
      (do write_whole o.env piece; again (count + length piece))
        (record w { source = record w.source { bytes = drop copy_size (b ∷ rest) } })

  -- io.Copy through the context reader, on fuel.
  copy_loop : ℕ → ℕ → Io ℕ
  copy_loop zero count = fail out_of_fuel
  copy_loop (suc fuel) count = do
    check_context o.env
    (λ w. copy_piece (copy_loop fuel) count w.source.bytes w)

  copy_rest : Io ℕ
  copy_rest w = copy_loop (suc (length w.source.bytes)) 0 w

  add_recipients :
      Bytes → Bytes → RecipientOptions → List RecipientStanza → Io (List RecipientStanza)
  add_recipients content_key payload_id additions kept =
      if adds_none additions then pure kept else do
        added ← wrap_recipients o content_key payload_id additions default_argon2_params
        pure (kept ++ added)

  unfoldable pub rekey : DecryptOptions → RecipientOptions → List Bytes → Bool → Io ℕ
  unfolding add_recipients copy_rest copy_loop copy_piece copy_end adds_none
  rekey auth additions remove_ids replace_symmetric = do
    r ← read_header o.fmt
    let payload_id = or_empty (o.fmt.unb64 r.header.fixed.payload_id)
    content_key ← unwrap_recipients o r.header.recipients payload_id auth
    kept ←
        add_recipients content_key payload_id additions
          (keep remove_ids replace_symmetric r.header.recipients)
    lift (check_replacement kept)
    write_header o replacement_size (record r.header { recipients = kept })
    copy_rest
