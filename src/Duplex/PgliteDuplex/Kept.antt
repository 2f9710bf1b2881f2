-- ===== src/Duplex/PgliteDuplex/Kept.antt =====
-- src/duplex/index.ts: what a call of PGlite does to a property of PGlite and to what is waiting.
use prisma_pglite_bridge.Prelude.{
  ◌+◌, ◌||◌, ◌&&◌, not, if◌then◌else◌, Bool, true, false, Option, none, some, List, [], ◌∷◌, Result,
  ok, err, All, ◌≡◌, refl, arith,
}
use prisma_pglite_bridge.Duplex.Bytes.{Bytes}
use prisma_pglite_bridge.Duplex.BackendFramer as BackendFramer
use prisma_pglite_bridge.Duplex.BackendFramer.{Framer, FramerError, Event, chunk, error_seen, ready}
use prisma_pglite_bridge.Duplex.FrontendBuffer.Valid as FrontendBuffer
use prisma_pglite_bridge.Utils.SessionLock as SessionLock
use prisma_pglite_bridge.Utils.SessionLock.{SessionLock, acquire}
use prisma_pglite_bridge.Duplex.PgliteDuplex.{
  Host, RfqMode, is_flush_boundary, Duplex, Flow, done, thrown, ◌andthen◌, final, not_ready,
  is_terminated,
}
use prisma_pglite_bridge.Duplex.PgliteDuplex.Protocol.{
  on_event, on_events, framed, on_raw_data, on_chunks, clear_pglite_protocol_messages,
  protocol_cleanup, exec_raw, begin_destroy, recovery_sync, reset_call, end_batch, stream_protocol,
  run_under_run_exclusive, acquire_session, record_query, run_with_timing, sync_message,
  clear_messages_by, end_exec, flush_framer, end_call, await_session, acquire_at,
}
use prisma_pglite_bridge.Duplex.PgliteDuplex.Calls.{
  IsEqp, IsCall, IsInvariant, MayCapture, recovery_call,
}

module _ (h : Host) (Inv : h.World → Type 0) (i : IsInvariant h Inv) where
  abbrev pub Keeps : Duplex h → Type 0
  Keeps d =
      Inv d.world
      × (All IsEqp d.pipeline × (MayCapture h d.copy_capture × FrontendBuffer.IsValid d.input))

  on_event-Keeps : (d : Duplex h) (e : Event) → Keeps d → Keeps (on_event h d e)
  unfolding on_event
  on_event-Keeps d (chunk bytes) k = ground (arith, k)
  on_event-Keeps d error_seen k = k
  on_event-Keeps d (ready status) k = k

  on_events-Keeps : (d : Duplex h) (es : List Event) → Keeps d → Keeps (on_events h d es)
  unfolding on_events
  on_events-Keeps d [] k = k
  on_events-Keeps d (e ∷ es) k = on_events-Keeps (on_event h d e) es (on_event-Keeps d e k)

  framed-Keeps :
      (d : Duplex h) (r : Result FramerError (Framer × List Event))
      → Keeps d
      → Keeps (final (framed h d r))
  framed-Keeps d (ok (f, events)) k = on_events-Keeps (record d { framer = f }) events k
  framed-Keeps d (err e) k = k

  -- What comes next keeps the property too.
  pub andthen-Keeps :
      (f : Flow h) (next : Duplex h → Flow h)
      → Keeps (final f)
      → ((d : Duplex h) → Keeps d → Keeps (final (next d)))
      → Keeps (final (f andthen next))
  andthen-Keeps (done d) next k n = n d k
  andthen-Keeps (thrown d e) next k n = k

  on_raw_data-Keeps :
      (d : Duplex h) (bytes : Bytes) → Keeps d → Keeps (final (on_raw_data h d bytes))
  unfolding on_raw_data
  on_raw_data-Keeps d bytes k = framed-Keeps _ (BackendFramer.write d.framer bytes) k

  on_chunks-Keeps :
      (d : Duplex h) (chunks : List Bytes) → Keeps d → Keeps (final (on_chunks h d chunks))
  unfolding on_chunks
  on_chunks-Keeps d [] k = k
  on_chunks-Keeps d (bytes ∷ chunks) k =
      andthen-Keeps (on_raw_data h d bytes) (λ d'. on_chunks h d' chunks)
        (on_raw_data-Keeps d bytes k) (λ d' k'. on_chunks-Keeps d' chunks k')

  pub if-Keeps : (b : Bool) (x y : Duplex h) → Keeps x → Keeps y → Keeps (if b then x else y)
  if-Keeps true x y k l = k
  if-Keeps false x y k l = l

  pub if-Keeps-flow :
      (b : Bool) (x y : Flow h)
      → Keeps (final x)
      → Keeps (final y)
      → Keeps (final (if b then x else y))
  if-Keeps-flow true x y k l = k
  if-Keeps-flow false x y k l = l

  clear_messages-Keeps :
      (m : Option (h.World → h.World × Bool)) (d : Duplex h)
      → ((exec : h.World → h.World × Bool) → m ≡ some exec → (w : h.World) → Inv w → Inv (exec w).0)
      → Keeps d
      → Keeps (clear_messages_by h m d)
  clear_messages-Keeps none d c k = k
  clear_messages-Keeps (some exec) d c k = (c exec refl d.world k.0, k.1)

  clear-Keeps : (d : Duplex h) → Keeps d → Keeps (clear_pglite_protocol_messages h d)
  unfolding clear_pglite_protocol_messages
  clear-Keeps d k =
      if-Keeps (not h.options.protocol_cleanup_needed || d.protocol_cleanup_unsupported) d
        (clear_messages_by h h.exec_protocol_stream d) k
        (clear_messages-Keeps h.exec_protocol_stream d i.on_cleanup k)

  protocol_cleanup-Keeps :
      (d : Duplex h) (failed : Bool) → Keeps d → Keeps (protocol_cleanup h d failed)
  unfolding protocol_cleanup
  protocol_cleanup-Keeps d failed k =
      let counted = record d {
        pending_protocol_cleanup_calls = d.pending_protocol_cleanup_calls + 1;
      } in
      if-Keeps _
        (record (clear_pglite_protocol_messages h counted) {
          pending_protocol_cleanup_bytes = 0;
          pending_protocol_cleanup_calls = 0;
        })
        counted (clear-Keeps counted k) k

  end_exec-Keeps :
      (threw : Bool) (f : Flow h) → Keeps (final f) → Keeps (final (end_exec h threw f))
  end_exec-Keeps threw (thrown d e) k = protocol_cleanup-Keeps d true k
  end_exec-Keeps true (done d) k = protocol_cleanup-Keeps d true k
  end_exec-Keeps false (done d) k = protocol_cleanup-Keeps d false k

  exec_raw-Keeps :
      (d : Duplex h) (message : Bytes)
      → IsCall h message
      → Keeps d
      → Keeps (final (exec_raw h d message))
  unfolding exec_raw
  exec_raw-Keeps d message c k =
      let (w, chunks, threw) = h.exec_protocol_raw_stream d.world message in
      end_exec-Keeps threw (on_chunks h (record d { world = w }) chunks)
        (on_chunks-Keeps (record d { world = w }) chunks (i.on_call d.world message c k.0, k.1))

  recovery_sync-Keeps : (d : Duplex h) → Keeps d → Keeps (recovery_sync h d)
  unfolding recovery_sync begin_destroy
  recovery_sync-Keeps d k =
      let w = i.on_call d.world sync_message (recovery_call h) k.0 in
      if-Keeps (h.exec_protocol_raw_stream d.world sync_message).2
        (begin_destroy h (record d { world = (h.exec_protocol_raw_stream d.world sync_message).0 }))
        (record d { world = (h.exec_protocol_raw_stream d.world sync_message).0 })
        (w, (tt, (tt, (FrontendBuffer.clear_lem d.input).0))) (w, k.1)

  await_session-Keeps :
      (d : Duplex h) (r : SessionLock × List SessionLock.Event)
      → Keeps d
      → Keeps (await_session h d r)
  await_session-Keeps d (l, []) k = (i.on_turn d.world l k.0, k.1)
  await_session-Keeps d (l, e ∷ es) k = k

  acquire_at-Keeps : (m : Option SessionLock) (d : Duplex h) → Keeps d → Keeps (acquire_at h m d)
  acquire_at-Keeps none d k = k
  acquire_at-Keeps (some l) d k = await_session-Keeps d (acquire l h.options.duplex_id 0) k

  acquire_session-Keeps : (d : Duplex h) → Keeps d → Keeps (acquire_session h d)
  unfolding acquire_session
  acquire_session-Keeps d k = acquire_at-Keeps d.session_lock d k

  end_batch-Keeps : (d : Duplex h) → Keeps d → Keeps (end_batch h d)
  unfolding end_batch
  end_batch-Keeps d k = k

  end_call-Keeps : (mode : RfqMode) (d : Duplex h) → Keeps d → Keeps (final (end_call h mode d))
  end_call-Keeps mode d k =
      if-Keeps-flow (is_flush_boundary mode)
        (done (end_batch h (if d.err_seen then recovery_sync h d else d))) (done d)
        (end_batch-Keeps (if d.err_seen then recovery_sync h d else d)
          (if-Keeps d.err_seen (recovery_sync h d) d (recovery_sync-Keeps d k) k))
        k

  pub stream_protocol-Keeps :
      (d : Duplex h) (message : Bytes) (mode : RfqMode)
      → IsCall h message
      → Keeps d
      → Keeps (final (stream_protocol h d message mode))
  unfolding stream_protocol reset_call
  stream_protocol-Keeps d message mode c k =
      let d0 = reset_call h d mode in
      let flow = exec_raw h d0 message in
      if-Keeps-flow (not (h.is_ready d.world)) (thrown d0 not_ready)
        (flow andthen flush_framer h mode andthen end_call h mode) k
        (andthen-Keeps (flow andthen flush_framer h mode) (end_call h mode)
          (andthen-Keeps flow (flush_framer h mode) (exec_raw-Keeps d0 message c k) (λ d1 k1.
            framed-Keeps d1
              (BackendFramer.flush d1.framer
                (d1.torn_down || (is_flush_boundary mode && not d1.err_seen)))
              k1))
          (λ d2 k2. end_call-Keeps mode d2 k2))

  module _ (op : Duplex h → Flow h) (keeps : (d : Duplex h) → Keeps d → Keeps (final (op d))) where
    run_under_run_exclusive-Keeps :
        (d : Duplex h) → Keeps d → Keeps (final (run_under_run_exclusive h d op))
    unfolding run_under_run_exclusive
    run_under_run_exclusive-Keeps d k =
        if-Keeps-flow (not (h.is_ready d.world)) (thrown d not_ready) _ k
          (if-Keeps-flow (d.torn_down || is_terminated d.phase) (done d) (op d) k (keeps d k))

    record_query-Keeps :
        (f : Flow h) (succeeded : Bool)
        → Keeps (final f)
        → Keeps (final (record_query h f succeeded))
    record_query-Keeps (done d) succeeded k = k
    record_query-Keeps (thrown d e) succeeded k = k

    pub run_with_timing-Keeps : (d : Duplex h) → Keeps d → Keeps (final (run_with_timing h d op))
    unfolding run_with_timing
    run_with_timing-Keeps d k =
        let flow = run_under_run_exclusive h (acquire_session h d) op in
        let l = run_under_run_exclusive-Keeps (acquire_session h d) (acquire_session-Keeps d k) in
        if-Keeps-flow h.options.telemetry (record_query h flow _) flow (record_query-Keeps flow _ l)
          l
