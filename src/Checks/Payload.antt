-- ===== src/Checks/Payload.antt =====
-- Frames and payloads at concrete inputs.
use cypherstorm.Base.{◌≡◌, refl, true, none, [], ◌∷◌, ◌++◌, Bytes, arith}
use cypherstorm.Fault.{ok}
use cypherstorm.Stream.{read_full, check_context, write}
use cypherstorm.Container.Frame.{Frame, read_record, read_body, be32, be64}
use cypherstorm.Container.Frame.RoundTrip.{encode, read_record-encode}
use cypherstorm.Container.Frame.Parse.{dangling}
use cypherstorm.Container.Payload.{
  Totals, start, Progress, fresh, seal_payload, open_loop, open_record, accept_record, accept_typed,
}
use cypherstorm.Container.Payload.Chain.{Chain, final, more, IsFinal, IsData, encode_all}
use cypherstorm.Container.Payload.RoundTrip.{payload_round_trip, payload_stream}
use cypherstorm.Container.Payload.Integrity.{Authentic, open_loop-Authentic}
use cypherstorm.Container.Payload.Complete.{Chain-accepted}
use cypherstorm.Checks.Toy.{
  prim, env, env-IsQuiet, env-IsHonest, session, session-Fits, world, zeros,
}

abbrev small_frame : Frame
small_frame = record { typ = 1; index = 5; ciphertext = 9 ∷ 8 ∷ [] }

read_record-encode_example :
    read_record 16 (record { bytes = encode small_frame ++ (7 ∷ []); fault = none })
    ≡ (ok small_frame, record { bytes = 7 ∷ []; fault = none })
read_record-encode_example =
    read_record-encode 16 small_frame (7 ∷ []) none (omega arith) (omega arith) (omega arith)

abbrev text : Bytes
text = 1 ∷ 2 ∷ 3 ∷ 4 ∷ 5 ∷ []

payload_round_trip_example :
    (seal_payload env prim session 6 (world text)
      ≡ (ok tt, record (world []) { written = payload_stream prim session text }))
    × ((p : Progress) × (p.finalized ≡ true)
        × (open_loop env prim session 8 fresh (world (payload_stream prim session text))
            ≡ (ok p, record (world []) { written = text })))
payload_round_trip_example =
    payload_round_trip env-IsQuiet env-IsQuiet session-Fits text (world []) (world [])

-- One data record with the text 7, and the final record.
abbrev data_part : Frame
data_part = record { typ = 1; index = 0; ciphertext = zeros 16 ++ (7 ∷ []) }

abbrev final_part : Frame
final_part = record { typ = 2; index = 1; ciphertext = zeros 16 ++ (be64 1 ++ (be64 1 ++ be64 17)) }

abbrev stream : Bytes
stream =
    (1 ∷ be64 0 ++ be32 17)
    ++ (zeros 16 ++ (7 ∷ []))
    ++ (2 ∷ be64 1 ++ be32 40)
    ++ (zeros 16 ++ (be64 1 ++ (be64 1 ++ be64 17)))

abbrev last : Progress
last = record { totals = record { index = 2; plain = 1; cipher = 17 }; finalized = true }

stream_accepted :
    open_loop env prim session 3 fresh (world stream)
    ≡ (ok last, record (world []) { written = 7 ∷ [] })
unfolding open_loop accept_record accept_typed open_record read_record read_body read_full
    check_context write
stream_accepted = refl

open_loop-Authentic_example :
    (t : Bytes) × Authentic prim session stream t × (◌≡◌ {A = Bytes} (7 ∷ []) ([] ++ t))
open_loop-Authentic_example =
    open_loop-Authentic env-IsHonest prim session 3 last (world stream)
      (record (world []) { written = 7 ∷ [] }) refl (omega arith) stream_accepted

data_part-IsData : IsData prim session start data_part (7 ∷ [])
unfolding open_record
data_part-IsData = record { typ_is = refl; index_is = refl; opens = refl; size-le = omega arith }

abbrev after_first : Totals
after_first = record { index = 1; plain = 1; cipher = 17 }

final_part-IsFinal : IsFinal prim session after_first final_part
unfolding open_record
final_part-IsFinal = record {
  typ_is = refl;
  index_is = refl;
  plain = be64 1 ++ (be64 1 ++ be64 17);
  opens = refl;
  size_is = refl;
  count_is = refl;
  plain_is = refl;
  cipher_is = refl;
}

chain : Chain prim session start (data_part ∷ final_part ∷ []) (7 ∷ [])
chain = more data_part-IsData (final final_part-IsFinal) refl

-- Behind the final record stand 13 bytes that announce a body of one byte.
abbrev junk : Bytes
junk = 9 ∷ be64 77 ++ be32 1

Chain-accepted_example :
    (q : Progress) × (q.finalized ≡ true)
    × (open_loop env prim session 3 fresh (world (encode_all (data_part ∷ final_part ∷ []) ++ junk))
        ≡ (ok q, record (world []) { written = 7 ∷ [] }))
Chain-accepted_example =
    Chain-accepted env-IsQuiet prim session junk (world []) (omega arith) (omega arith)
      (dangling refl (omega arith) (omega arith)) chain
