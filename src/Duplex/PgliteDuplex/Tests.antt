-- ===== src/Duplex/PgliteDuplex/Tests.antt =====
-- Runs of src/duplex/index.ts with a PGlite that notes its calls and answers each in two chunks.
use prisma_pglite_bridge.Prelude.{
  ◌==◌, not, ◌≡◌, refl, none, true, false, List, [], ◌∷◌, ◌++◌, arith, All, All-append,
}
use prisma_pglite_bridge.Duplex.Bytes.{Bytes}
use prisma_pglite_bridge.Duplex.FrontendBuffer as FrontendBuffer
use prisma_pglite_bridge.Duplex.BackendFramer as BackendFramer
use prisma_pglite_bridge.Duplex.BackendFramer.Steps.{output}
use prisma_pglite_bridge.Duplex.BackendFramer.Response.{
  Message, IsWell, relay, held_after, statuses_of, errors_of,
}
use prisma_pglite_bridge.Duplex.BackendFramer.Relay.{final_rfq}
use prisma_pglite_bridge.Duplex.PgliteDuplex.{
  Host, Duplex, new_duplex, done, final, suppress, ready,
}
use prisma_pglite_bridge.Duplex.PgliteDuplex.Protocol.{stream_protocol, sync_message}
use prisma_pglite_bridge.Duplex.PgliteDuplex.Messages.{process_messages}
use prisma_pglite_bridge.Duplex.FrontendBuffer.Valid.{push_lem, empty_buffer-IsValid}
use prisma_pglite_bridge.Duplex.PgliteDuplex.Calls.{IsCall, IsInvariant}
use prisma_pglite_bridge.Duplex.PgliteDuplex.Kept.{Keeps}
use prisma_pglite_bridge.Duplex.PgliteDuplex.Guard.{process_messages-Keeps}
use prisma_pglite_bridge.Duplex.PgliteDuplex.View.{bytes_of, last_status}
use prisma_pglite_bridge.Duplex.PgliteDuplex.Answer.{stream_protocol-answer}

-- CommandComplete and ReadyForQuery, cut behind the first header.
abbrev answer : List Bytes
answer = (67 ∷ 0 ∷ 0 ∷ 0 ∷ 5 ∷ []) ∷ (0 ∷ 90 ∷ 0 ∷ 0 ∷ 0 ∷ 5 ∷ 73 ∷ []) ∷ []

abbrev messages : List Message
messages = record { kind = 67; payload = 0 ∷ [] } ∷ record { kind = 90; payload = 73 ∷ [] } ∷ []

abbrev host : Host
host = record {
  World = List Bytes;
  options = record {
    duplex_id = 1;
    telemetry = true;
    rewrite_system_catalog_char_oids = true;
    protocol_cleanup_needed = true;
    copy_aggregate_cap_bytes = 64;
  };
  is_ready = λ w. true;
  exec_protocol_raw_stream = λ w m. (w ++ m ∷ [], answer, false);
  exec_protocol_stream = none;
  query_rollback = λ w. (w, false);
  wait_turn = λ w l. (w, l);
  decode_utf8 = λ bs. bs;
  to_lower_case = λ cs. cs;
}

noted-IsInvariant : IsInvariant host (All (IsCall host))
noted-IsInvariant = record {
  on_call = λ w m c k. All-append (IsCall host) w (m ∷ []) k (c, tt);
  on_cleanup = λ exec e w k. absurd (cc e);
  on_rollback = λ w k. k;
  on_turn = λ w l k. k;
}

-- `copy t from stdin`, its data and its terminator.
abbrev copy_bytes : Bytes
copy_bytes =
    81 ∷ 0 ∷ 0 ∷ 0 ∷ 22 ∷ 99 ∷ 111 ∷ 112 ∷ 121 ∷ 32 ∷ 116 ∷ 32 ∷ 102 ∷ 114 ∷ 111 ∷ 109 ∷ 32 ∷ 115
    ∷ 116 ∷ 100 ∷ 105 ∷ 110 ∷ 0 ∷ 100 ∷ 0 ∷ 0 ∷ 0 ∷ 5 ∷ 120 ∷ 99 ∷ 0 ∷ 0 ∷ 0 ∷ 4 ∷ []

abbrev started : Duplex host
started = record (new_duplex host [] none) {
  phase = ready;
  input = FrontendBuffer.push FrontendBuffer.empty_buffer copy_bytes;
}

process_messages-Keeps_example :
    Keeps host (All (IsCall host)) noted-IsInvariant (final (process_messages host 4 started))
unfolding new_duplex
process_messages-Keeps_example =
    process_messages-Keeps host (All (IsCall host)) noted-IsInvariant 4 started
      (tt, (tt, (tt, (push_lem FrontendBuffer.empty_buffer copy_bytes empty_buffer-IsValid).0)))

messages-IsWell : All IsWell messages
messages-IsWell = (
  record { small = omega arith; counted = λ e. omega (arith, e) },
  (record { small = omega arith; counted = λ e. omega (arith, e) }, tt),
)

stream_protocol-answer_example :
    (d' : Duplex host) × (stream_protocol host started sync_message suppress ≡ done d')
    × (bytes_of d'.out
        ≡ bytes_of []
          ++ (relay true true false messages
              ++ (output (final_rfq false (held_after true true [] messages))).bytes))
    × (d'.last_seen_rfq_status ≡ last_status none (statuses_of messages))
    × (d'.err_seen ≡ not (errors_of messages == 0))
unfolding new_duplex BackendFramer.new_framer
stream_protocol-answer_example =
    stream_protocol-answer host started sync_message suppress (sync_message ∷ []) answer messages
      refl (record { standing = refl; going = refl }) refl refl messages-IsWell
