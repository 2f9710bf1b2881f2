-- ===== src/Duplex/BackendFramer/Tests.antt =====
-- Runs of src/duplex/backend-framer.ts on a COPY response that is cut inside its headers.
use prisma_pglite_bridge.Prelude.{
  ◌≡◌, ◌≢◌, refl, ok, err, none, true, false, List, [], ◌∷◌, arith, concat, All,
}
use prisma_pglite_bridge.Duplex.Bytes.{Bytes}
use prisma_pglite_bridge.Duplex.BackendFramer.{
  Framer, Event, out_of_fuel, new_framer, reset, write, flush, header_bytes, header_done, rfq_bytes,
  payload_bytes,
}
use prisma_pglite_bridge.Duplex.BackendFramer.Steps.{Output, output, feed_all, feed}
use prisma_pglite_bridge.Duplex.BackendFramer.Invariant.{idle, reset-IsIdle}
use prisma_pglite_bridge.Duplex.BackendFramer.Write.{write_all, write_all_lem}
use prisma_pglite_bridge.Duplex.BackendFramer.Response.{
  Message, IsWell, relay, held_after, statuses_of, errors_of,
}
use prisma_pglite_bridge.Duplex.BackendFramer.Relay.{relay_lem, response_output, final_rfq}
use prisma_pglite_bridge.Duplex.BackendFramer.Total.{write_total}

-- CopyInResponse, an error, ReadyForQuery.
abbrev response : List Message
response =
    record { kind = 71; payload = 0 ∷ 0 ∷ 0 ∷ [] }
    ∷ record { kind = 69; payload = 83 ∷ [] }
    ∷ record { kind = 90; payload = 73 ∷ [] }
    ∷ []

abbrev first : Bytes
first = 71 ∷ 0 ∷ 0 ∷ 0 ∷ []

abbrev second : Bytes
second = 7 ∷ 0 ∷ 0 ∷ 0 ∷ 69 ∷ 0 ∷ 0 ∷ 0 ∷ 5 ∷ 83 ∷ 90 ∷ 0 ∷ []

abbrev third : Bytes
third = 0 ∷ 0 ∷ 5 ∷ 73 ∷ []

abbrev chunks : List Bytes
chunks = first ∷ second ∷ third ∷ []

response-IsWell : All IsWell response
response-IsWell = (
  record { small = omega arith; counted = λ e. omega (arith, e) },
  (
    record { small = omega arith; counted = λ e. omega (arith, e) },
    (record { small = omega arith; counted = λ e. omega (arith, e) }, tt),
  ),
)

abbrev fresh : Framer
fresh = new_framer false true

relay_response :
    response_output true true true response
    ≡ record { bytes = 69 ∷ 0 ∷ 0 ∷ 0 ∷ 5 ∷ 83 ∷ []; statuses = 73 ∷ []; errors = 1 }
unfolding relay statuses_of errors_of
relay_response = refl

held-response : held_after true true [] response ≡ 90 ∷ 0 ∷ 0 ∷ 0 ∷ 5 ∷ 73 ∷ []
unfolding held_after
held-response = refl

relay_lem_example :
    (g : Framer) × (events : List Event) × (write_all (reset fresh true true) chunks
      ≡ ok (g, events))
    × (output events ≡ response_output true true true response)
    × (flush g false
        ≡ ok (record g { held_rfq = [] }, final_rfq false (held_after true true [] response)))
unfolding new_framer
relay_lem_example = relay_lem fresh true true false chunks response response-IsWell refl

abbrev at_rest : Framer
at_rest = record {
  suppress_intermediate = true;
  rewrite_oids = true;
  message_type = none;
  header = [];
  payload_remaining = 0;
  held_rfq = [];
  rfq_frame = false;
  row_desc = none;
  drop_next_copy_in = true;
  dropping = false;
}

abbrev seen : Output
seen = record { bytes = 69 ∷ 0 ∷ 0 ∷ 0 ∷ 5 ∷ 83 ∷ []; statuses = 73 ∷ []; errors = 1 }

abbrev left : Framer
left = record at_rest { held_rfq = 90 ∷ 0 ∷ 0 ∷ 0 ∷ 5 ∷ 73 ∷ []; drop_next_copy_in = false }

feed_response : feed_all at_rest (concat chunks) ≡ ok (left, seen)
unfolding feed_all feed header_bytes header_done rfq_bytes payload_bytes
feed_response = refl

write_all_lem_example :
    (events : List Event) × (write_all at_rest chunks ≡ ok (left, events)) × (output events ≡ seen)
unfolding reset new_framer
write_all_lem_example =
    write_all_lem chunks at_rest (idle (reset-IsIdle fresh true true)) feed_response

write_total_example : write fresh second ≢ err out_of_fuel
write_total_example = write_total fresh second
