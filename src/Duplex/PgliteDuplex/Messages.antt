-- ===== src/Duplex/PgliteDuplex/Messages.antt =====
-- src/duplex/index.ts: framing and dispatch of what the client sends.
use prisma_pglite_bridge.Prelude.{
  ℕ, zero, suc, ◌+◌, ◌-◌, ltb, ◌==◌, if◌then◌else◌, true, false, not, ◌||◌, Option, none, some,
  List, [], ◌∷◌, ◌++◌, length, Result, ok, err, concat, ◌/◌, ◌%◌, ◌^◌,
}
use prisma_pglite_bridge.Duplex.Bytes.{Bytes, byte_at, subarray}
use prisma_pglite_bridge.Duplex.Constants.{
  is_eqp_message, sync, flush, terminate, query, copy_data, copy_done, copy_fail, copy_in_response,
  error_response, ready_for_query, rfq_status_idle, max_message_length,
}
use prisma_pglite_bridge.Duplex.CopyIn.{
  sniff_copy_in, CopyInVerdict, capture, reject_multi, not_copy_in,
}
use prisma_pglite_bridge.Duplex.FrontendBuffer.{
  FrontendMessageBuffer, consume, read_u32_be, clear, BufferError,
}
use prisma_pglite_bridge.Utils.SessionLock.{release}
use prisma_pglite_bridge.Duplex.PgliteDuplex.{
  Host, terminated, ready, RfqMode, passthrough, suppress, flush_boundary, copy_in, Pushed, pushed,
  end_of_stream, CopyCapture, DuplexError, malformed_startup, startup_too_long, malformed_message,
  message_too_long, protocol_violation, buffer_error, out_of_fuel, Duplex, Flow, done, thrown,
  ◌andthen◌,
}
use prisma_pglite_bridge.Duplex.PgliteDuplex.Texts.{multi_statement_text, cap_exceeded_text}
use prisma_pglite_bridge.Duplex.PgliteDuplex.Protocol.{
  stream_protocol, run_untimed, run_with_timing, is_open_status, with_lock, owns,
}

-- The fields `SERROR`, `VERROR`, the code and the message, each with its zero byte.
abbrev pub error_fields : Bytes → Bytes → Bytes
error_fields code message =
    0x53
    ∷ 0x45
    ∷ 0x52
    ∷ 0x52
    ∷ 0x4f
    ∷ 0x52
    ∷ 0
    ∷ 0x56
    ∷ 0x45
    ∷ 0x52
    ∷ 0x52
    ∷ 0x4f
    ∷ 0x52
    ∷ 0
    ∷ 0x43
    ∷ (code ++ 0 ∷ 0x4d ∷ (message ++ 0 ∷ 0 ∷ []))

-- `writeUInt32BE`
abbrev pub word_bytes : ℕ → Bytes
word_bytes n = n / 2 ^ 24 % 256 ∷ n / 2 ^ 16 % 256 ∷ n / 2 ^ 8 % 256 ∷ n % 256 ∷ []

-- `0A000` and `54000`.
abbrev pub code_not_supported : Bytes
code_not_supported = 0x30 ∷ 0x41 ∷ 0x30 ∷ 0x30 ∷ 0x30 ∷ []

abbrev pub code_limit_exceeded : Bytes
code_limit_exceeded = 0x35 ∷ 0x34 ∷ 0x30 ∷ 0x30 ∷ 0x30 ∷ []

-- `_final` and `_destroy` roll back as Terminate does, once.
module _ (h : Host) where
  abbrev pub self : ℕ
  self = h.options.duplex_id

  unfoldable pub run_rollback : Duplex h → Duplex h
  run_rollback d =
      let (w, threw) = h.query_rollback d.world in
      if not (is_open_status d.last_seen_rfq_status)
      then d
      else if not (owns d.session_lock self)
      then d
      else record d {
        world = w;
        last_seen_rfq_status = if threw then d.last_seen_rfq_status else some rfq_status_idle;
      }

  -- The memoized promise.
  unfoldable pub rollback_if_in_transaction : Duplex h → Duplex h
  rollback_if_in_transaction d =
      if d.rollback_started then d else run_rollback (record d { rollback_started = true })

  abbrev pub push : Duplex h → Pushed → Duplex h
  push d p = record d { out = d.out ++ p ∷ [] }

  -- `text` is the message's.
  unfoldable pub push_synthetic_error : Duplex h → Bytes → Bytes → Duplex h
  push_synthetic_error d code text =
      let fields = error_fields code text in
      push d (pushed (error_response ∷ (word_bytes (4 + length fields) ++ fields)))

  unfoldable pub push_synthetic_ready_for_query : Duplex h → Duplex h
  push_synthetic_ready_for_query d =
      let status : ℕ = elim d.last_seen_rfq_status [ none ↦ rfq_status_idle | some s ↦ s ] in
      push d (pushed (ready_for_query ∷ 0 ∷ 0 ∷ 0 ∷ 5 ∷ status ∷ []))

  unfoldable pub push_synthetic_copy_in_response : Duplex h → Duplex h
  push_synthetic_copy_in_response d =
      push d (pushed (copy_in_response ∷ 0 ∷ 0 ∷ 0 ∷ 7 ∷ 0 ∷ 0 ∷ 0 ∷ []))

  unfoldable pub append_copy_capture : CopyCapture → Bytes → CopyCapture
  append_copy_capture c message =
      if c.discarding
      then c
      else if ltb (h.options.copy_aggregate_cap_bytes - c.total) (length message)
      then record c { discarding = true; chunks = [] }
      else record c { total = c.total + length message; chunks = c.chunks ++ message ∷ [] }

  unfoldable pub query_text : Bytes → List ℕ
  query_text message =
      if ltb (length message) 6
      then []
      else h.decode_utf8 (subarray message 5 (5 + (length message - 6)))

  unfoldable pub flush_pipeline : Duplex h → RfqMode → Flow h
  flush_pipeline d mode =
      let batch = concat d.pipeline in
      run_with_timing h (record d { pipeline = [] }) (λ d'. stream_protocol h d' batch mode)

  -- A complete Terminate frame.
  unfoldable pub process_terminate : Duplex h → Duplex h
  process_terminate d =
      let d0 = record d {
        phase = terminated;
        input = clear d.input;
        pipeline = [];
        copy_capture = none;
        portal_suspended = false;
        portal_recovery_requested = false;
      } in
      let d1 = rollback_if_in_transaction d0 in
      push (record d1 { session_lock = with_lock d1.session_lock (λ l. (release l self).0) })
        end_of_stream

  -- The terminator of a capture has come.
  abbrev pub end_capture : Duplex h → CopyCapture → Flow h
  end_capture d c =
      if c.discarding
      then done (
          push_synthetic_ready_for_query (
            push_synthetic_error d code_limit_exceeded
              (cap_exceeded_text h.options.copy_aggregate_cap_bytes)))
      else run_with_timing h d (λ d'. stream_protocol h d' (concat c.chunks) copy_in)

  -- A message while a copy is captured.
  unfoldable pub process_captured : Duplex h → CopyCapture → Bytes → Flow h
  process_captured d c message =
      let kind = byte_at message 0 in
      let c' = append_copy_capture c message in
      if kind == copy_data
      then done (record d { copy_capture = some c' })
      else if kind == copy_done || kind == copy_fail
      then end_capture (record d { copy_capture = none }) c'
      else thrown d (protocol_violation kind)

  abbrev pub first_capture : Bytes → CopyCapture
  first_capture message =
      append_copy_capture (record { chunks = []; total = 0; discarding = false }) message

  -- On the verdict of `sniffCopyIn`.
  abbrev pub answer_query : CopyInVerdict → Duplex h → Bytes → Flow h
  answer_query capture d message =
      done
        (push_synthetic_copy_in_response (record d { copy_capture = some (first_capture message) }))
  answer_query reject_multi d message = done (
      push_synthetic_ready_for_query
        (push_synthetic_error d code_not_supported multi_statement_text))
  answer_query not_copy_in d message =
      run_with_timing h d (λ d'. stream_protocol h d' message passthrough)

  unfoldable pub process_query : Duplex h → Bytes → Flow h
  process_query d message =
      answer_query (sniff_copy_in h.to_lower_case (query_text message)) d message

  unfoldable pub process_plain : Duplex h → Bytes → Flow h
  process_plain d message =
      let kind = byte_at message 0 in
      let d' = record d { pipeline = d.pipeline ++ message ∷ [] } in
      if is_eqp_message kind
      then done d'
      else if kind == sync
      then flush_pipeline d' suppress
      else if kind == flush
      then flush_pipeline d' flush_boundary
      else if kind == query
      then process_query d message
      else run_with_timing h d (λ d''. stream_protocol h d'' message passthrough)

  -- On `this.copyCapture`.
  abbrev pub process_at : Option CopyCapture → Duplex h → Bytes → Flow h
  process_at none d message = process_plain d message
  process_at (some c) d message = process_captured d c message

  unfoldable pub process_message : Duplex h → Bytes → Flow h
  process_message d message =
      if byte_at message 0 == terminate
      then done (process_terminate d)
      else process_at d.copy_capture d message

  abbrev pub taken :
      Result BufferError (Bytes × FrontendMessageBuffer)
      → Result DuplexError (Option (Bytes × FrontendMessageBuffer))
  taken (ok r) = ok (some r)
  taken (err e) = err (buffer_error e)

  abbrev pub message_of_length :
      FrontendMessageBuffer → Option ℕ → Result DuplexError (Option (Bytes × FrontendMessageBuffer))
  message_of_length b none = ok none
  message_of_length b (some n) =
      if ltb n 4
      then err (malformed_message n)
      else if ltb max_message_length n
      then err (message_too_long n)
      else if ltb b.total_length (1 + n)
      then ok none
      else taken (consume b (1 + n))

  -- The next complete message, if there is one.
  unfoldable pub next_message :
      FrontendMessageBuffer → Result DuplexError (Option (Bytes × FrontendMessageBuffer))
  next_message b = if ltb b.total_length 5 then ok none else message_of_length b (read_u32_be b 1)

  -- After Terminate the loop is left.
  abbrev pub process_next :
      (Duplex h → Flow h)
      → Duplex h
      → Result DuplexError (Option (Bytes × FrontendMessageBuffer))
      → Flow h
  process_next again d (err e) = thrown d e
  process_next again d (ok none) = done d
  process_next again d (ok (some (message, rest))) =
      let flow = process_message (record d { input = rest }) message in
      if byte_at message 0 == terminate then flow else flow andthen again

  -- `while (this.input.length >= 5)`, with fuel.
  unfoldable pub process_messages : ℕ → Duplex h → Flow h
  process_messages zero d = thrown d out_of_fuel
  process_messages (suc fuel) d = process_next (process_messages fuel) d (next_message d.input)

  abbrev pub startup_of_length :
      FrontendMessageBuffer → Option ℕ → Result DuplexError (Option (Bytes × FrontendMessageBuffer))
  startup_of_length b none = ok none
  startup_of_length b (some n) =
      if ltb n 8
      then err (malformed_startup n)
      else if ltb max_message_length n
      then err (startup_too_long n)
      else if ltb b.total_length n
      then ok none
      else taken (consume b n)

  unfoldable pub next_startup :
      FrontendMessageBuffer → Result DuplexError (Option (Bytes × FrontendMessageBuffer))
  next_startup b = if ltb b.total_length 4 then ok none else startup_of_length b (read_u32_be b 0)

  abbrev pub process_startup :
      Duplex h → Result DuplexError (Option (Bytes × FrontendMessageBuffer)) → Flow h
  process_startup d (err e) = thrown d e
  process_startup d (ok none) = done d
  process_startup d (ok (some (message, rest))) =
      run_untimed h (record d { input = rest }) (λ d'. stream_protocol h d' message passthrough)
      andthen λ d'. done (record d' { phase = ready })

  unfoldable pub process_pre_startup : Duplex h → Flow h
  process_pre_startup d = process_startup d (next_startup d.input)
