-- ===== src/Duplex/PgliteDuplex/Protocol.antt =====
-- src/duplex/index.ts: one call of PGlite, from the acquired session to the flushed framer.
-- PGlite calls `onRawData` only while a call is active. Where the framer refuses a chunk, what it
-- emitted of this chunk before is left out.
use prisma_pglite_bridge.Prelude.{
  ℕ, ◌+◌, ◌*◌, leb, ◌==◌, if◌then◌else◌, Bool, true, false, not, ◌&&◌, ◌||◌, Option, none, some,
  List, [], ◌∷◌, ◌++◌, length, Result, ok, err,
}
use prisma_pglite_bridge.Duplex.Bytes.{Bytes}
use prisma_pglite_bridge.Duplex.Constants.{sync, rfq_status_in_transaction, rfq_status_failed}
use prisma_pglite_bridge.Duplex.FrontendBuffer as FrontendBuffer
use prisma_pglite_bridge.Duplex.BackendFramer as BackendFramer
use prisma_pglite_bridge.Duplex.BackendFramer.{Framer, FramerError, Event, chunk, error_seen, ready}
use prisma_pglite_bridge.Utils.SessionLock.{
  SessionLock, acquire, is_owner, release, cancel, update_status, resolved,
}
use prisma_pglite_bridge.Utils.SessionLock as SessionLock
use prisma_pglite_bridge.Duplex.PgliteDuplex.{
  Host, is_terminated, RfqMode, passthrough, suppress, flush_boundary, copy_in, is_flush_boundary,
  pushed, framer_error, not_ready, stream_failed, Duplex, Flow, done, thrown, ◌andthen◌, final,
}

abbrev pub sync_message : Bytes
sync_message = sync ∷ 0 ∷ 0 ∷ 0 ∷ 4 ∷ []

abbrev pub is_open_status : Option ℕ → Bool
is_open_status none = false
is_open_status (some s) = s == rfq_status_in_transaction || s == rfq_status_failed

abbrev pub with_lock : Option SessionLock → (SessionLock → SessionLock) → Option SessionLock
with_lock none f = none
with_lock (some l) f = some (f l)

-- `sessionLock === undefined || sessionLock.isOwner(duplexId)`
abbrev pub owns : Option SessionLock → ℕ → Bool
owns none id = true
owns (some l) id = is_owner l id

abbrev pub suppresses : RfqMode → Bool
suppresses suppress = true
suppresses flush_boundary = true
suppresses passthrough = false
suppresses copy_in = false

abbrev pub drops_copy_in : RfqMode → Bool
drops_copy_in copy_in = true
drops_copy_in passthrough = false
drops_copy_in suppress = false
drops_copy_in flush_boundary = false

module _ (h : Host) where
  abbrev pub id : ℕ
  id = h.options.duplex_id

  -- The callbacks that the constructor gives to the framer.
  unfoldable pub on_event : Duplex h → Event → Duplex h
  on_event d (chunk bytes) =
      if not d.torn_down && not (is_terminated d.phase) && not (length bytes == 0)
      then record d { out = d.out ++ pushed bytes ∷ [] }
      else d
  on_event d error_seen = record d { err_seen = true }
  on_event d (ready status) = record d {
    rfq_seen_in_call = true;
    last_seen_rfq_status = some status;
    portal_suspended = false;
    session_lock =
        if is_terminated d.phase
        then d.session_lock
        else with_lock d.session_lock (λ l. (update_status l id status).0);
  }

  unfoldable pub on_events : Duplex h → List Event → Duplex h
  on_events d [] = d
  on_events d (e ∷ es) = on_events (on_event d e) es

  abbrev pub framed : Duplex h → Result FramerError (Framer × List Event) → Flow h
  framed d (ok (f, events)) = done (on_events (record d { framer = f }) events)
  framed d (err e) = thrown d (framer_error e)

  -- `onRawData`
  unfoldable pub on_raw_data : Duplex h → Bytes → Flow h
  on_raw_data d bytes =
      let d' = record d {
        pending_protocol_cleanup_bytes = d.pending_protocol_cleanup_bytes + length bytes;
      } in
      framed d' (BackendFramer.write d.framer bytes)

  unfoldable pub on_chunks : Duplex h → List Bytes → Flow h
  on_chunks d [] = done d
  on_chunks d (bytes ∷ chunks) = on_raw_data d bytes andthen λ d'. on_chunks d' chunks

  abbrev pub clear_messages_by : Option (h.World → h.World × Bool) → Duplex h → Duplex h
  clear_messages_by none d = record d { protocol_cleanup_unsupported = true }
  clear_messages_by (some exec) d = record d {
    world = (exec d.world).0;
    protocol_cleanup_unsupported = (exec d.world).1;
  }

  unfoldable pub clear_pglite_protocol_messages : Duplex h → Duplex h
  clear_pglite_protocol_messages d =
      if not h.options.protocol_cleanup_needed || d.protocol_cleanup_unsupported
      then d
      else clear_messages_by h.exec_protocol_stream d

  -- The `finally` block after a call.
  unfoldable pub protocol_cleanup : Duplex h → Bool → Duplex h
  protocol_cleanup d failed =
      let calls = d.pending_protocol_cleanup_calls + 1 in
      let cleared =
        clear_pglite_protocol_messages (record d { pending_protocol_cleanup_calls = calls }) in
      if h.options.protocol_cleanup_needed
        && not d.protocol_cleanup_unsupported
        && (failed || leb (8 * 1024 * 1024) d.pending_protocol_cleanup_bytes || leb 32 calls)
      then record cleared { pending_protocol_cleanup_bytes = 0; pending_protocol_cleanup_calls = 0 }
      else record d { pending_protocol_cleanup_calls = calls }

  abbrev pub end_exec : Bool → Flow h → Flow h
  end_exec threw (thrown d e) = thrown (protocol_cleanup d true) e
  end_exec threw (done d) =
      if threw
      then thrown (protocol_cleanup d true) stream_failed
      else done (protocol_cleanup d false)

  -- A call of `execProtocolRawStream`, with the `finally` block.
  unfoldable pub exec_raw : Duplex h → Bytes → Flow h
  exec_raw d message =
      let (w, chunks, threw) = h.exec_protocol_raw_stream d.world message in
      end_exec threw (on_chunks (record d { world = w }) chunks)

  -- `_destroy`, up to its first await.
  unfoldable pub begin_destroy : Duplex h → Duplex h
  begin_destroy d = record d {
    torn_down = true;
    pipeline = [];
    copy_capture = none;
    input = FrontendBuffer.clear d.input;
  }

  -- Its chunks go nowhere.
  unfoldable pub recovery_sync : Duplex h → Duplex h
  recovery_sync d =
      let (w, chunks, threw) = h.exec_protocol_raw_stream d.world sync_message in
      if threw then begin_destroy (record d { world = w }) else record d { world = w }

  unfoldable pub reset_call : Duplex h → RfqMode → Duplex h
  reset_call d mode = record d {
    err_seen = false;
    rfq_seen_in_call = false;
    framer = BackendFramer.reset d.framer (suppresses mode) (drops_copy_in mode);
  }

  -- What a Flush-terminated batch leaves of the portal and of the lock.
  unfoldable pub end_batch : Duplex h → Duplex h
  end_batch d =
      let doomed =
        d.err_seen && not d.rfq_seen_in_call && not (is_open_status d.last_seen_rfq_status) in
      record d {
        portal_suspended = not d.err_seen;
        session_lock =
            if doomed then with_lock d.session_lock (λ l. (release l id).0) else d.session_lock;
      }

  abbrev pub flush_framer : RfqMode → Duplex h → Flow h
  flush_framer mode d =
      framed d
        (BackendFramer.flush d.framer (d.torn_down || (is_flush_boundary mode && not d.err_seen)))

  abbrev pub end_call : RfqMode → Duplex h → Flow h
  end_call mode d =
      if is_flush_boundary mode
      then done (end_batch (if d.err_seen then recovery_sync d else d))
      else done d

  -- Its result is `not err_seen`.
  unfoldable pub stream_protocol : Duplex h → Bytes → RfqMode → Flow h
  stream_protocol d message mode =
      let d0 = reset_call d mode in
      if not (h.is_ready d.world)
      then thrown d0 not_ready
      else exec_raw d0 message andthen flush_framer mode andthen end_call mode

  unfoldable pub run_under_run_exclusive : Duplex h → (Duplex h → Flow h) → Flow h
  run_under_run_exclusive d op =
      if not (h.is_ready d.world)
      then thrown d not_ready
      else if d.torn_down || is_terminated d.phase
      then done d
      else op d

  -- A promise that is not settled at once is waited for.
  abbrev pub await_session : Duplex h → SessionLock × List SessionLock.Event → Duplex h
  await_session d (l, []) =
      let (w, l') = h.wait_turn d.world l in record d { world = w; session_lock = some l' }
  await_session d (l, _ ∷ _) = record d { session_lock = some l }

  abbrev pub acquire_at : Option SessionLock → Duplex h → Duplex h
  acquire_at none d = d
  acquire_at (some l) d = await_session d (acquire l id 0)

  -- `await sessionLock.acquire(duplexId)`
  unfoldable pub acquire_session : Duplex h → Duplex h
  acquire_session d = acquire_at d.session_lock d

  unfoldable pub run_untimed : Duplex h → (Duplex h → Flow h) → Flow h
  run_untimed d op = run_under_run_exclusive (acquire_session d) op

  -- What `recordQuery` is told: a call that is left out counts as a success.
  abbrev pub record_query : Flow h → Bool → Flow h
  record_query (done d) succeeded = done (record d { recorded = d.recorded ++ succeeded ∷ [] })
  record_query (thrown d e) succeeded = thrown (record d { recorded = d.recorded ++ false ∷ [] }) e

  unfoldable pub run_with_timing : Duplex h → (Duplex h → Flow h) → Flow h
  run_with_timing d op =
      let d0 = acquire_session d in
      let skipped = d0.torn_down || is_terminated d0.phase in
      let flow = run_under_run_exclusive d0 op in
      if h.options.telemetry then record_query flow (skipped || not (final flow).err_seen) else flow
