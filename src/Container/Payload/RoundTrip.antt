-- ===== src/Container/Payload/RoundTrip.antt =====
-- `Decrypt`'s loop gives back the text that `Encrypt`'s loop sealed.
use cypherstorm.Base.{
  ℕ, zero, suc, ◌+◌, ◌%◌, ◌^◌, ◌≤◌, ◌<◌, ◌≡◌, refl, sym, ap, ◌∙◌, true, false, [], ◌∷◌, ◌++◌, arith,
  Bytes, length, take, drop, leb, leb→le, inl, inr, Bool-cases, append_assoc, append-nil, take-drop,
  length-take, length-drop,
}
use cypherstorm.Fault.{ok}
use cypherstorm.Stream.{World, Env}
use cypherstorm.Stream.Laws.{IsQuiet}
use cypherstorm.Security.Primitives.{Primitives}
use cypherstorm.Security.Suite.{nonce_size}
use cypherstorm.Container.Frame.RoundTrip.{encode}
use cypherstorm.Container.Payload.{
  Session, Totals, start, commitment, seal_record, seal_payload, Progress, fresh, record_nonce,
  record_aad, open_loop,
}
use cypherstorm.Container.Payload.Sealing.{
  data_frame, final_frame, after_data, last_records, sealed_stream, at_source, written_on,
  seal_loop_stream,
}
use cypherstorm.Container.Payload.Opening.{
  Fits, InRange, counted-InRange, open_loop-record, open_loop-end, accept-data_frame,
  accept-final_frame,
}

-- The records that `seal_payload` writes for a text.
pub payload_stream : Primitives → Session → Bytes → Bytes
payload_stream prim s text = sealed_stream prim s (suc (length text)) start text

module _ {env : Env} (quiet : IsQuiet env) {prim : Primitives} {s : Session}
    (fits : Fits prim s) where
  length-commitment : (t : Totals) → length (commitment t) ≡ 24
  unfolding commitment
  length-commitment t = refl

  -- One data record, with the ciphertext's length bounded by the AEAD's overhead.
  open_data :
      (fuel : ℕ) (t : Totals) (chunk rest : Bytes) (w : World)
      → t.index < 2 ^ 64
      → length chunk ≤ s.record_size
      → open_loop env prim s
          (suc fuel)
          (record { totals = t; finalized = false })
          (at_source w (encode (data_frame prim s t chunk) ++ rest))
        ≡ open_loop env prim s fuel
            (record { totals = after_data prim s t chunk; finalized = false })
            (written_on (at_source w rest) chunk)
  unfolding data_frame seal_record
  open_data fuel t chunk rest w i l =
      open_loop-record quiet prim s fuel _ (data_frame prim s t chunk) rest w _
        (accept-data_frame fits (record { totals = t; finalized = false }) chunk refl l) i
        (omega (arith, fits.aead.length-seal s.suite s.payload_key _ chunk _))
        (omega (arith, fits.aead.overhead_is s.suite, fits.size-le))

  abbrev closed : Totals → Progress
  closed t = record { totals = record t { index = (t.index + 1) % 2 ^ 64 }; finalized = true }

  open_final :
      (fuel : ℕ) (t : Totals) (w : World)
      → InRange t
      → open_loop env prim s
          (suc (suc fuel))
          (record { totals = t; finalized = false })
          (at_source w (encode (final_frame prim s t)))
        ≡ (ok (closed t), at_source w [])
  unfolding final_frame seal_record
  open_final fuel t w r =
      ap
        (λ b.
          open_loop env prim s (suc (suc fuel)) (record { totals = t; finalized = false })
            (at_source w b))
        (sym (append-nil _))
      ∙ open_loop-record quiet prim s (suc fuel) _ (final_frame prim s t) [] w _
          (accept-final_frame fits (record { totals = t; finalized = false }) refl r) r.index-lt
          (omega (
            arith,
            fits.aead.length-seal s.suite s.payload_key
                (record_nonce s.prefix t.index (nonce_size s.suite)) (commitment t)
                (record_aad s.aad 2 t.index),
            length-commitment t,
            fits.size_pos,
          ))
          (omega (arith, fits.aead.overhead_is s.suite, fits.size-le))
      ∙ ap
          (λ x.
            open_loop env prim s (suc fuel) (closed t) (record (at_source w []) { written = x }))
          (append-nil w.written)
      ∙ open_loop-end quiet prim s fuel (closed t) w refl

  -- The progress in which the loop ends, after the records of a text.
  abbrev Ends : ℕ → ℕ → Totals → Bytes → World → Type 0
  Ends fuel rounds t text w =
      (p : Progress) × (p.finalized ≡ true)
      × (open_loop env prim s rounds (record { totals = t; finalized = false })
            (at_source w (sealed_stream prim s fuel t text))
          ≡ (ok p, written_on (at_source w []) text))

  open_last :
      (g : ℕ) (t : Totals) (text : Bytes) (w : World)
      → InRange t
      → length text ≤ s.record_size
      → (p : Progress) × (p.finalized ≡ true)
        × (open_loop env prim s
              (suc (suc (suc g)))
              (record { totals = t; finalized = false })
              (at_source w (last_records prim s t text))
            ≡ (ok p, written_on (at_source w []) text))
  unfolding last_records
  open_last g t [] w r l = (
    closed t,
    refl,
    open_final (suc g) t w r
        ∙ ap (λ x. (ok (closed t), record (at_source w []) { written = x }))
            (sym (append-nil w.written)),
  )
  open_last g t (b ∷ text) w r l = (
    closed (after_data prim s t (b ∷ text)),
    refl,
    open_data (suc (suc g)) t (b ∷ text) _ w r.index-lt l
        ∙ open_final g (after_data prim s t (b ∷ text)) (written_on w (b ∷ text))
            (counted-InRange t _ _),
  )

  open_more :
      (g : ℕ) (t : Totals) (chunk text more : Bytes) (w : World) {p : Progress}
      → t.index < 2 ^ 64
      → length chunk ≤ s.record_size
      → open_loop env prim s g
          (record { totals = after_data prim s t chunk; finalized = false })
          (at_source (written_on w chunk) more)
        ≡ (ok p, written_on (at_source (written_on w chunk) []) text)
      → open_loop env prim s
          (suc g)
          (record { totals = t; finalized = false })
          (at_source w (encode (data_frame prim s t chunk) ++ more))
        ≡ (ok p, written_on (at_source w []) (chunk ++ text))
  open_more g t chunk text more w {p} i l ih =
      open_data g t chunk more w i l
      ∙ ih
      ∙ ap (λ x. (ok p, record (at_source w []) { written = x }))
          (append_assoc w.written chunk text)

  pub open_loop_stream :
      (fuel g : ℕ) (t : Totals) (text : Bytes) (w : World)
      → InRange t
      → length text < fuel
      → Ends fuel (suc (suc (fuel + g))) t text w
  unfolding sealed_stream
  open_loop_stream zero g t text w r h = elim h [ ]
  open_loop_stream (suc fuel) g t text w r h =
      let rounds : suc fuel + g ≡ suc (fuel + g) = omega arith in
      rw rounds (elim (Bool-cases (leb s.record_size (length text))) [
        | inl full ↦ rw full (
            let chunk = take s.record_size text in
            let sized = length-take s.record_size text (leb→le _ _ full) in
            let (p, f, e) =
              open_loop_stream fuel g (after_data prim s t chunk) (drop s.record_size text)
                (written_on w chunk) (counted-InRange t _ _)
                (omega (arith, length-drop s.record_size text, leb→le, fits.size_pos)) in
            (
              p,
              f,
              open_more _ t chunk (drop s.record_size text) _ w r.index-lt (omega (arith, sized)) e
                  ∙ ap (λ x. (ok p, written_on (at_source w []) x)) (take-drop s.record_size text),
            ))
        | inr short ↦ rw short (open_last (fuel + g) t text w r (ground arith))
      ])

-- What sealing writes is `payload_stream`, and opening that stream gives the text back: when no
-- operation of either environment fails, the AEAD opens what it sealed, and the record size is
-- positive and at most 16 MiB, both loops end within the stated rounds, the first with the whole
-- text read and the second with a final record seen, the whole stream read and exactly the text
-- written.
pub payload_round_trip :
    {sealing opening : Env} (qs : IsQuiet sealing) (qo : IsQuiet opening) {prim : Primitives}
    {s : Session} (fits : Fits prim s) (text : Bytes) (w v : World)
    → (seal_payload sealing prim s (suc (length text)) (at_source w text)
        ≡ (ok tt, written_on (at_source w []) (payload_stream prim s text)))
      × ((p : Progress) × (p.finalized ≡ true)
          × (open_loop opening prim s
                (length text + 3)
                fresh
                (at_source v (payload_stream prim s text))
              ≡ (ok p, written_on (at_source v []) text)))
unfolding seal_payload payload_stream
payload_round_trip qs qo {prim} {s} fits text w v = (
  seal_loop_stream qs prim s (suc (length text)) start text w fits.size_pos (omega arith),
  (let rounds : length text + 3 ≡ suc (suc (suc (length text) + 0)) = omega arith in
      rw rounds
        (open_loop_stream qo fits (suc (length text)) 0 start text v (omega arith) (omega arith))),
)
