-- ===== src/Duplex/PgliteDuplex/Lifecycle.antt =====
-- src/duplex/index.ts: the drain loop, the end of the stream, and the recovery of a portal.
-- `_write` is called again only when its callback has been, so that no input arrives inside a drain.
-- The recovery of a portal runs to its end, so that its latch is never seen set.
use prisma_pglite_bridge.Prelude.{
  ℕ, zero, suc, ◌==◌, ltb, if◌then◌else◌, Bool, true, false, not, ◌||◌, Option, none, some, List,
  [], ◌∷◌,
}
use prisma_pglite_bridge.Duplex.Bytes.{Bytes}
use prisma_pglite_bridge.Duplex.FrontendBuffer as FrontendBuffer
use prisma_pglite_bridge.Utils.SessionLock.{release, cancel}
use prisma_pglite_bridge.Duplex.PgliteDuplex.{
  Host, pre_startup, terminated, ready, is_terminated, passthrough, end_of_stream, DuplexError,
  out_of_fuel, Duplex, Flow, done, thrown, ◌andthen◌,
}
use prisma_pglite_bridge.Duplex.PgliteDuplex.Protocol.{
  stream_protocol, run_under_run_exclusive, begin_destroy, sync_message, with_lock, owns,
}
use prisma_pglite_bridge.Duplex.PgliteDuplex.Messages.{
  process_messages, process_pre_startup, rollback_if_in_transaction, push,
}

module _ (h : Host) where
  -- `_final`
  unfoldable pub finalize : Duplex h → Duplex h
  finalize d =
      let d' = rollback_if_in_transaction h d in
      if is_terminated d'.phase
      then d'
      else push h
          (record d' {
            session_lock = with_lock d'.session_lock (λ l. (release l h.options.duplex_id).0);
          })
          end_of_stream

  -- `_destroy` behind its first await.
  unfoldable pub end_destroy : Duplex h → Duplex h
  end_destroy d =
      let d' = rollback_if_in_transaction h d in
      record d' { session_lock = with_lock d'.session_lock (λ l. (cancel l h.options.duplex_id).0) }

  -- `_destroy`
  unfoldable pub destroy : Duplex h → Duplex h
  destroy d = end_destroy (begin_destroy h d)

  unfoldable pub process_ready : Duplex h → Flow h
  process_ready d = elim d.phase [
    | ready ↦ process_messages h (suc d.input.total_length) d
    | pre_startup ↦ done d
    | terminated ↦ done d
  ]

  -- One round of the loop in `drain`.
  unfoldable pub drain_round : Duplex h → Flow h
  drain_round d = elim d.phase [
    | pre_startup ↦ process_pre_startup h d andthen process_ready
    | ready ↦ process_ready d
    | terminated ↦ done d
  ]

  -- `while (this.input.length > 0)`, with fuel.
  unfoldable pub drain_loop : ℕ → Duplex h → Flow h
  drain_loop zero d = thrown d out_of_fuel
  drain_loop (suc fuel) d = elim (d.input.total_length == 0 || d.torn_down) [
    | true ↦ done d
    | false ↦ drain_round d andthen λ d'.
        elim (d'.input.total_length == 0 || d'.input.total_length == d.input.total_length) [
          | true ↦ done d'
          | false ↦ drain_loop fuel d'
        ]
  ]

  unfoldable pub deliver_recovery_sync : Duplex h → Duplex h
  deliver_recovery_sync d =
      if is_terminated d.phase
      then d
      else if not (owns d.session_lock h.options.duplex_id)
      then record d { portal_suspended = false }
      else elim (run_under_run_exclusive h d
          (λ d'. stream_protocol h d' sync_message passthrough)) [
            | done d' ↦ d'
            | thrown d' e ↦ if is_terminated d'.phase then d' else destroy d'
          ]

  -- The deferred judgment on a portal.
  unfoldable pub judge_portal : Duplex h → Duplex h
  judge_portal d =
      let d' = record d { portal_recovery_requested = false } in
      if d.portal_recovery_requested
      then if d.portal_suspended then deliver_recovery_sync d' else d'
      else d

  -- `drain`, and the error that its callbacks get.
  unfoldable pub drain : Duplex h → Duplex h × Option DuplexError
  drain d = elim (drain_loop (suc d.input.total_length) d) [
    | done d' ↦ (judge_portal (if d'.torn_down then end_destroy d' else d'), none)
    | thrown d' e ↦ (record (destroy d') { portal_recovery_requested = false }, some e)
  ]

  -- `_write`
  unfoldable pub write_chunk : Duplex h → Bytes → Duplex h × Option DuplexError
  write_chunk d bytes =
      if is_terminated d.phase
      then (d, none)
      else drain (record d { input = FrontendBuffer.push d.input bytes })

  unfoldable pub push_all :
      FrontendBuffer.FrontendMessageBuffer → List Bytes → FrontendBuffer.FrontendMessageBuffer
  push_all b [] = b
  push_all b (bytes ∷ chunks) = push_all (FrontendBuffer.push b bytes) chunks

  -- `_writev`
  unfoldable pub write_chunks : Duplex h → List Bytes → Duplex h × Option DuplexError
  write_chunks d chunks =
      if is_terminated d.phase
      then (d, none)
      else drain (record d { input = push_all d.input chunks })

  -- Called between drains, or by a release that races one.
  unfoldable pub release_abandoned_portal_hold : Duplex h → Bool → Duplex h
  release_abandoned_portal_hold d draining =
      if is_terminated d.phase
      then d
      else if d.portal_suspended
      then deliver_recovery_sync d
      else if draining || ltb 0 d.input.total_length
      then record d { portal_recovery_requested = true }
      else d
