-- ===== src/Container/Payload/Sealing.antt =====
-- What the loop of `Encrypt` writes when nothing fails, as a function of the text alone.
use cypherstorm.Base.{
  ℕ, zero, suc, ◌<◌, ◌≡◌, ap, none, [], ◌∷◌, ◌++◌, arith, Bytes, length, take, drop, leb,
  if◌then◌else◌, inl, inr, Bool-cases, leb→le, length-take, length-drop, append_assoc,
}
use cypherstorm.Fault.{ok}
use cypherstorm.Stream
use cypherstorm.Stream.{
  Reader, Status, filled, ended, read_full, World, Env, Io, continue, ◌>>=◌, ◌>>◌, check_context,
}
use cypherstorm.Stream.Laws.{plain, IsQuiet, check_context_quiet}
use cypherstorm.Security.Primitives.{Primitives}
use cypherstorm.Container.Frame.{Frame, write_record}
use cypherstorm.Container.Frame.RoundTrip.{encode, write_record_quiet}
use cypherstorm.Container.Payload.{
  Session, Totals, counted, commitment, seal_record, seal_chunk, after_chunk, seal_loop,
}

module _ (prim : Primitives) (s : Session) where
  unfoldable pub data_frame : Totals → Bytes → Frame
  data_frame t chunk = record {
    typ = 1;
    index = t.index;
    ciphertext = seal_record prim s 1 t.index chunk;
  }

  unfoldable pub final_frame : Totals → Frame
  final_frame t = record {
    typ = 2;
    index = t.index;
    ciphertext = seal_record prim s 2 t.index (commitment t);
  }

  abbrev pub after_data : Totals → Bytes → Totals
  after_data t chunk = counted t (length chunk) (length (seal_record prim s 1 t.index chunk))

  -- the last chunk, if there is one, and the final record
  unfoldable pub last_records : Totals → Bytes → Bytes
  last_records t [] = encode (final_frame t)
  last_records t (b ∷ text) =
      encode (data_frame t (b ∷ text)) ++ encode (final_frame (after_data t (b ∷ text)))

  -- The records of a text: whole chunks of `record_size` bytes, then the last records.
  unfoldable pub sealed_stream : ℕ → Totals → Bytes → Bytes
  sealed_stream zero t text = []
  sealed_stream (suc fuel) t text =
      let chunk = take s.record_size text in
      let more = sealed_stream fuel (after_data t chunk) (drop s.record_size text) in
      if leb s.record_size (length text)
      then encode (data_frame t chunk) ++ more
      else last_records t text

abbrev pub at_source : World → Bytes → World
at_source w b = record w { source = plain b }

abbrev pub written_on : World → Bytes → World
written_on w b = record w { written = w.written ++ b }

module _ {env : Env} (quiet : IsQuiet env) (prim : Primitives) (s : Session) where
  seal_chunk_quiet :
      (t : Totals) (chunk : Bytes) (w : World)
      → 0 < length chunk
      → seal_chunk env prim s t chunk w
        ≡ (ok (after_data prim s t chunk), written_on w (encode (data_frame prim s t chunk)))
  unfolding seal_chunk data_frame
  seal_chunk_quiet t [] w h = elim h [ ]
  seal_chunk_quiet t (b ∷ chunk) w h =
      rw (write_record_quiet quiet 1 t.index (seal_record prim s 1 t.index (b ∷ chunk)) w)

  -- What follows the loop: the final record.
  abbrev pub seal_final : Totals → Io (Unit {0})
  seal_final t = write_record env 2 t.index (seal_record prim s 2 t.index (commitment t))

  seal_final_quiet :
      (t : Totals) (w : World)
      → seal_final t w ≡ (ok tt, written_on w (encode (final_frame prim s t)))
  unfolding final_frame
  seal_final_quiet t w = write_record_quiet quiet 2 t.index _ w

  seal_last :
      (again : Totals → Io Totals) (t : Totals) (text : Bytes) (w : World)
      → continue seal_final (
          continue
            (after_chunk env prim s again (ended (Stream.end_error none text)))
            (seal_chunk env prim s t text w))
        ≡ (ok tt, written_on w (last_records prim s t text))
  unfolding last_records after_chunk seal_chunk
  seal_last again t [] w = seal_final_quiet t w
  seal_last again t (b ∷ text) w =
      rw (seal_chunk_quiet t (b ∷ text) w (omega arith)) rw
        (seal_final_quiet (after_data prim s t (b ∷ text)) _)
        (ap (λ x. (ok tt, record w { written = x })) (append_assoc w.written _ _))

  seal_more :
      (again : Totals → Io Totals) (t : Totals) (chunk more : Bytes) (w : World)
      → 0 < length chunk
      → continue seal_final
          (again (after_data prim s t chunk) (written_on w (encode (data_frame prim s t chunk))))
        ≡ (
          ok tt,
          written_on (at_source (written_on w (encode (data_frame prim s t chunk))) []) more,
        )
      → continue seal_final
          (continue (after_chunk env prim s again filled) (seal_chunk env prim s t chunk w))
        ≡ (ok tt, written_on (at_source w []) (encode (data_frame prim s t chunk) ++ more))
  unfolding after_chunk
  seal_more again t chunk more w pos ih =
      rw (seal_chunk_quiet t chunk w pos) rw ih
        (ap (λ x. (ok tt, record (at_source w []) { written = x })) (append_assoc w.written _ _))

  -- With a round for each byte and one more, the loop and the final record write the stream.
  pub seal_loop_stream :
      (fuel : ℕ) (t : Totals) (text : Bytes) (w : World)
      → 0 < s.record_size
      → length text < fuel
      → continue seal_final (seal_loop env prim s fuel t (at_source w text))
        ≡ (ok tt, written_on (at_source w []) (sealed_stream prim s fuel t text))
  unfolding seal_loop sealed_stream read_full
  seal_loop_stream zero t text w pos h = elim h [ ]
  seal_loop_stream (suc fuel) t text w pos h =
      rw (check_context_quiet quiet (at_source w text))
        (elim (Bool-cases (leb s.record_size (length text))) [
          | inl full ↦ rw full (
              seal_more (seal_loop env prim s fuel) t (take s.record_size text) _
                (at_source w (drop s.record_size text))
                (omega (arith, length-take s.record_size text, leb→le))
                (seal_loop_stream fuel (after_data prim s t (take s.record_size text))
                  (drop s.record_size text)
                  (written_on w (encode (data_frame prim s t (take s.record_size text)))) pos
                  (omega (arith, length-drop s.record_size text, leb→le))))
          | inr short ↦ rw short (seal_last (seal_loop env prim s fuel) t text (at_source w []))
        ])
