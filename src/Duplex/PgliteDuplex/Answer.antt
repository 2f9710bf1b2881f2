-- ===== src/Duplex/PgliteDuplex/Answer.antt =====
-- src/duplex/index.ts: what one call of PGlite shows the client.
use prisma_pglite_bridge.Prelude.{
  ℕ, ◌+◌, ◌==◌, ◌||◌, ◌&&◌, not, if◌then◌else◌, Bool, true, false, Option, none, some, List, [],
  ◌∷◌, ◌++◌, length, ok, concat, All, ◌≡◌, refl, inl, inr, arith, Bool-cases, subst, sym, ap, ◌∙◌,
  append-nil, append_assoc,
}
use prisma_pglite_bridge.Duplex.Bytes.{Bytes}
use prisma_pglite_bridge.Duplex.BackendFramer as BackendFramer
use prisma_pglite_bridge.Duplex.BackendFramer.{Framer, FramerError, Event, chunk, error_seen, ready}
use prisma_pglite_bridge.Duplex.BackendFramer.Steps.{Output, silent, output, output-append}
use prisma_pglite_bridge.Duplex.BackendFramer.Write.{write_all, write_all-nil, write_all-cons}
use prisma_pglite_bridge.Duplex.BackendFramer.Response.{
  Message, IsWell, encode_all, relay, held_after, statuses_of, errors_of,
}
use prisma_pglite_bridge.Duplex.BackendFramer.Relay.{relay_lem, response_output, final_rfq}
use prisma_pglite_bridge.Duplex.PgliteDuplex.{
  Host, RfqMode, is_flush_boundary, Duplex, done, ◌andthen◌,
}
use prisma_pglite_bridge.Duplex.PgliteDuplex.Protocol.{
  on_chunks, clear_pglite_protocol_messages, clear_messages_by, protocol_cleanup, exec_raw,
  end_exec, begin_destroy, recovery_sync, reset_call, end_batch, stream_protocol, flush_framer,
  end_call, suppresses, drops_copy_in, sync_message,
}
use prisma_pglite_bridge.Duplex.PgliteDuplex.View.{
  Shows, Shows-compose, Shows-same, IsLive, Shows-IsLive, framed-Shows, on_raw_data-framed,
  same_errors, bytes_of, last_status,
}

module _ (h : Host) where
  -- The chunks of a response.
  chunks-Shows :
      (d : Duplex h) (chunks : List Bytes) (g : Framer) (es : List Event)
      → IsLive h d
      → write_all d.framer chunks ≡ ok (g, es)
      → (d' : Duplex h) × (on_chunks h d chunks ≡ done d')
        × (d'.framer ≡ g)
        × Shows h d (output es) d'
  unfolding on_chunks
  chunks-Shows d [] g es l e =
      let (k, n) = write_all-nil d.framer e in
      (
        d,
        refl,
        k,
        subst (λ xs. Shows h d (output xs) d) (sym n) (Shows-same h d d refl refl refl refl refl),
      )
  chunks-Shows d (bs ∷ chunks) g es l e =
      let (f, es1, es2, first, second, sum) = write_all-cons d.framer bs chunks e in
      let counted = record d {
        pending_protocol_cleanup_bytes = d.pending_protocol_cleanup_bytes + length bs;
      } in
      let (d1, run, k, s) =
        framed-Shows h counted (BackendFramer.write d.framer bs) f es1
          (record { standing = l.standing; going = l.going }) first in
      let s' : Shows h d (output es1) d1 = record {
        bytes = s.bytes;
        status = s.status;
        failed = s.failed;
        torn = s.torn;
        phase = s.phase;
      } in
      let (d2, run', k', t) =
        chunks-Shows d1 chunks g es2 (Shows-IsLive h s' l)
          (ap (λ x. write_all x chunks) k ∙ second) in
      (
        d2,
        ap (λ x. x andthen λ d'. on_chunks h d' chunks) (on_raw_data-framed h d bs ∙ run) ∙ run',
        k',
        subst (λ o. Shows h d o d2) (sym (ap output sum ∙ output-append es1 es2))
            (Shows-compose h (output es1) (output es2) s' t),
      )

  clear_messages-Shows :
      (m : Option (h.World → h.World × Bool)) (d : Duplex h)
      → Shows h d silent (clear_messages_by h m d) × ((clear_messages_by h m d).framer ≡ d.framer)
  clear_messages-Shows none d = (Shows-same h d _ refl refl refl refl refl, refl)
  clear_messages-Shows (some exec) d = (Shows-same h d _ refl refl refl refl refl, refl)

  abbrev Unseen : Duplex h → Duplex h → Type 0
  Unseen d d' = Shows h d silent d' × (d'.framer ≡ d.framer)

  if-Unseen :
      (b : Bool) (d x y : Duplex h) → Unseen d x → Unseen d y → Unseen d (if b then x else y)
  if-Unseen true d x y k l = k
  if-Unseen false d x y k l = l

  unseen : (d : Duplex h) → Unseen d d
  unseen d = (Shows-same h d d refl refl refl refl refl, refl)

  clear-Unseen : (d : Duplex h) → Unseen d (clear_pglite_protocol_messages h d)
  unfolding clear_pglite_protocol_messages
  clear-Unseen d =
      if-Unseen (not h.options.protocol_cleanup_needed || d.protocol_cleanup_unsupported) d d
        (clear_messages_by h h.exec_protocol_stream d) (unseen d)
        (clear_messages-Shows h.exec_protocol_stream d)

  -- The clean-up after a call shows nothing.
  cleanup-Unseen : (d : Duplex h) (failed : Bool) → Unseen d (protocol_cleanup h d failed)
  unfolding protocol_cleanup
  cleanup-Unseen d failed =
      let counted = record d {
        pending_protocol_cleanup_calls = d.pending_protocol_cleanup_calls + 1;
      } in
      let (s, k) = clear-Unseen counted in
      if-Unseen _ d
        (record (clear_pglite_protocol_messages h counted) {
          pending_protocol_cleanup_bytes = 0;
          pending_protocol_cleanup_calls = 0;
        })
        counted
        (
          record {
            bytes = s.bytes;
            status = s.status;
            failed = s.failed;
            torn = s.torn;
            phase = s.phase;
          },
          k,
        )
        (Shows-same h d counted refl refl refl refl refl, refl)

  exec_raw-eq :
      (d : Duplex h) (message : Bytes)
      → let r = h.exec_protocol_raw_stream d.world message in
        exec_raw h d message ≡ end_exec h r.2 (on_chunks h (record d { world = r.0 }) r.1)
  unfolding exec_raw
  exec_raw-eq d message = refl

  Shows-silent :
      {d d' d'' : Duplex h} (o : Output) → Shows h d o d' → Shows h d' silent d'' → Shows h d o d''
  unfolding last_status
  Shows-silent {d} {d'} {d''} o s t = record {
    bytes = t.bytes ∙ append-nil (bytes_of d'.out) ∙ s.bytes;
    status = t.status ∙ s.status;
    failed = t.failed ∙ sym (same_errors h d'.err_seen) ∙ s.failed;
    torn = t.torn ∙ s.torn;
    phase = t.phase ∙ s.phase;
  }

  -- A call that PGlite completes.
  exec-Shows :
      (d : Duplex h) (message : Bytes) (w : h.World) (chunks : List Bytes) (g : Framer)
      (es : List Event)
      → IsLive h d
      → h.exec_protocol_raw_stream d.world message ≡ (w, chunks, false)
      → write_all d.framer chunks ≡ ok (g, es)
      → (d' : Duplex h) × (exec_raw h d message ≡ done d')
        × (d'.framer ≡ g)
        × Shows h d (output es) d'
  exec-Shows d message w chunks g es l e run =
      let (d1, on, k, s) =
        chunks-Shows (record d { world = w }) chunks g es
          (record { standing = l.standing; going = l.going }) run in
      let (c, kc) = cleanup-Unseen d1 false in
      let s' : Shows h d (output es) d1 = record {
        bytes = s.bytes;
        status = s.status;
        failed = s.failed;
        torn = s.torn;
        phase = s.phase;
      } in
      (
        protocol_cleanup h d1 false,
        exec_raw-eq d message
            ∙ ap (λ r. end_exec h r.2 (on_chunks h (record d { world = r.0 }) r.1)) e
            ∙ ap (end_exec h false) on,
        kc ∙ k,
        Shows-silent (output es) s' c,
      )

  reset_call-IsLive : (d : Duplex h) (mode : RfqMode) → IsLive h d → IsLive h (reset_call h d mode)
  unfolding reset_call
  reset_call-IsLive d mode l = record { standing = l.standing; going = l.going }

  reset_call-framer :
      (d : Duplex h) (mode : RfqMode)
      → (reset_call h d mode).framer
        ≡ BackendFramer.reset d.framer (suppresses mode) (drops_copy_in mode)
  unfolding reset_call
  reset_call-framer d mode = refl

  -- The tail of a Flush-terminated batch shows nothing either.
  abbrev SameView : Duplex h → Duplex h → Type 0
  SameView d d' =
      (d'.out ≡ d.out)
      × (d'.last_seen_rfq_status ≡ d.last_seen_rfq_status)
      × (d'.err_seen ≡ d.err_seen)

  if-SameView :
      (b : Bool) (d x y : Duplex h) → SameView d x → SameView d y → SameView d (if b then x else y)
  if-SameView true d x y k l = k
  if-SameView false d x y k l = l

  recovery_sync-SameView : (d : Duplex h) → SameView d (recovery_sync h d)
  unfolding recovery_sync begin_destroy
  recovery_sync-SameView d =
      let (w, chunks, threw) = h.exec_protocol_raw_stream d.world sync_message in
      if-SameView threw d (begin_destroy h (record d { world = w })) (record d { world = w })
        (refl, refl, refl) (refl, refl, refl)

  end_batch-SameView : (d d' : Duplex h) → SameView d d' → SameView d (end_batch h d')
  unfolding end_batch
  end_batch-SameView d d' k = k

  end_call-done :
      (mode : RfqMode) (d : Duplex h)
      → (d' : Duplex h) × (end_call h mode d ≡ done d') × SameView d d'
  end_call-done mode d =
      let d1 = if d.err_seen then recovery_sync h d else d in
      let same : SameView d d1 =
        if-SameView d.err_seen d (recovery_sync h d) d (recovery_sync-SameView d)
          (refl, refl, refl) in
      elim (Bool-cases (is_flush_boundary mode)) [
        | inl e ↦ (end_batch h d1, rw e refl, end_batch-SameView d d1 same)
        | inr e ↦ (d, rw e refl, (refl, refl, refl))
      ]

  flag_lem :
      {t s : Bool} (fb : Bool) (n : ℕ)
      → t ≡ false
      → s ≡ not (n == 0)
      → (t || (fb && not s)) ≡ (fb && n == 0)
  flag_lem fb n t s = ground (arith, t, s)

  final-quiet :
      (withheld : Bool) (held : Bytes)
      → ((output (final_rfq withheld held)).statuses ≡ [])
        × ((output (final_rfq withheld held)).errors ≡ 0)
  final-quiet true held = (refl, refl)
  final-quiet false held = elim (Bool-cases (length held == 6)) [
    | inl e ↦ (rw e refl, rw e refl)
    | inr e ↦ (rw e refl, rw e refl)
  ]

  ready_exec :
      (d : Duplex h) (message : Bytes) (mode : RfqMode)
      → h.is_ready d.world ≡ true
      → stream_protocol h d message mode
        ≡ exec_raw h (reset_call h d mode) message
          andthen flush_framer h mode
          andthen end_call h mode
  unfolding stream_protocol
  ready_exec d message mode r = rw r refl

  -- A call of PGlite that is answered by well-formed messages, in chunks of any size: the client
  -- gets the messages in order, with every ReadyForQuery held back where the batch ends in Sync or
  -- Flush, without the CopyInResponse where the duplex has sent its own, and with catalog columns
  -- widened where that is wanted. Behind them it gets the ReadyForQuery that was held back last if
  -- the batch ends in Sync, and after a Flush only if an error came. The transaction state is the
  -- last that was reported, and the call counts as failed just if an ErrorResponse came.
  pub stream_protocol-answer :
      (d : Duplex h) (message : Bytes) (mode : RfqMode) (w : h.World) (chunks : List Bytes)
      (ms : List Message)
      → h.is_ready d.world ≡ true
      → IsLive h d
      → h.exec_protocol_raw_stream d.world message ≡ (w, chunks, false)
      → concat chunks ≡ encode_all ms
      → All IsWell ms
      → let rewrite = d.framer.rewrite_oids in
        let held = held_after (suppresses mode) rewrite [] ms in
        let withheld = is_flush_boundary mode && errors_of ms == 0 in
        (d' : Duplex h) × (stream_protocol h d message mode ≡ done d')
        × (bytes_of d'.out
            ≡ bytes_of d.out
              ++ (relay (suppresses mode) rewrite (drops_copy_in mode) ms
                  ++ (output (final_rfq withheld held)).bytes))
        × (d'.last_seen_rfq_status ≡ last_status d.last_seen_rfq_status (statuses_of ms))
        × (d'.err_seen ≡ not (errors_of ms == 0))
  unfolding stream_protocol reset_call last_status
  stream_protocol-answer d message mode w chunks ms r l e cs wells =
      let withheld = is_flush_boundary mode && errors_of ms == 0 in
      let (g, es, run, shows, ends) =
        relay_lem d.framer (suppresses mode) (drops_copy_in mode) withheld chunks ms wells cs in
      let d0 = reset_call h d mode in
      let (d1, ran, k, s) =
        exec-Shows d0 message w chunks g es (record { standing = l.standing; going = l.going }) e
          run in
      let s' : Shows h d0
          (response_output (suppresses mode) d.framer.rewrite_oids (drops_copy_in mode) ms) d1 =
        subst (λ o. Shows h d0 o d1) shows s in
      let held = held_after (suppresses mode) d.framer.rewrite_oids [] ms in
      let fin = final_rfq withheld held in
      let flag : (d1.torn_down || (is_flush_boundary mode && not d1.err_seen)) ≡ withheld =
        flag_lem (is_flush_boundary mode) (errors_of ms) (s'.torn ∙ l.standing) s'.failed in
      let (d2, flushed, kf, t) =
        framed-Shows h d1
          (BackendFramer.flush d1.framer
            (d1.torn_down || (is_flush_boundary mode && not d1.err_seen)))
          (record g { held_rfq = [] }) fin
          (Shows-IsLive h s' (record { standing = l.standing; going = l.going }))
          (ap (λ b. BackendFramer.flush d1.framer b) flag
            ∙ ap (λ f. BackendFramer.flush f withheld) k
            ∙ ends) in
      let (d3, ended, (o, st, f)) = end_call-done mode d2 in
      let (ns, ne) = final-quiet withheld held in
      (
        d3,
        ready_exec d message mode r
            ∙ ap (λ x. x andthen flush_framer h mode andthen end_call h mode) ran
            ∙ ap (λ x. x andthen end_call h mode) flushed
            ∙ ended,
        ap bytes_of o
            ∙ t.bytes
            ∙ ap (λ xs. xs ++ (output fin).bytes) s'.bytes
            ∙ append_assoc (bytes_of d.out) _ (output fin).bytes,
        st ∙ t.status ∙ ap (last_status d1.last_seen_rfq_status) ns ∙ s'.status,
        f
            ∙ t.failed
            ∙ ap (λ n. d1.err_seen || not (n == 0)) ne
            ∙ sym (same_errors h d1.err_seen)
            ∙ s'.failed,
      )
