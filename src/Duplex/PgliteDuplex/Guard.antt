-- ===== src/Duplex/PgliteDuplex/Guard.antt =====
-- src/duplex/index.ts: what may reach PGlite of a conversation.
use prisma_pglite_bridge.Prelude.{
  ℕ, zero, suc, ◌+◌, ◌-◌, ◌≤◌, ◌==◌, ◌||◌, not, ltb, true, false, Option, none, some, [], ◌∷◌, ◌++◌,
  length, Result, ok, err, concat, concat-append, length-append, All-append, ◌≡◌, refl, ◌⊎◌, inl,
  inr, arith, Bool-cases, subst, sym, ap, ◌∙◌, ltb→ge, append-nil,
}
use prisma_pglite_bridge.Duplex.Bytes.{Bytes, byte_at}
use prisma_pglite_bridge.Duplex.Constants.{
  is_eqp_message, sync, flush, terminate, query, copy_data, copy_done, copy_fail,
}
use prisma_pglite_bridge.Duplex.CopyIn.{
  sniff_copy_in, CopyInVerdict, capture, reject_multi, not_copy_in,
}
use prisma_pglite_bridge.Duplex.FrontendBuffer.{FrontendMessageBuffer}
use prisma_pglite_bridge.Duplex.FrontendBuffer.Valid.{clear_lem}
use prisma_pglite_bridge.Duplex.PgliteDuplex.{
  Host, RfqMode, suppress, flush_boundary, copy_in, passthrough, CopyCapture, Duplex, DuplexError,
  Flow, ◌andthen◌, final,
}
use prisma_pglite_bridge.Duplex.PgliteDuplex.Protocol.{
  stream_protocol, run_with_timing, is_open_status, owns,
}
use prisma_pglite_bridge.Duplex.PgliteDuplex.Messages.{
  run_rollback, rollback_if_in_transaction, append_copy_capture, flush_pipeline, process_terminate,
  process_captured, answer_query, process_query, process_plain, process_at, process_message,
  process_next, process_messages, next_message, query_text, first_capture, push_synthetic_error,
  push_synthetic_ready_for_query, push_synthetic_copy_in_response, end_capture,
}
use prisma_pglite_bridge.Duplex.PgliteDuplex.Calls.{
  IsEqp, IsKind, IsFrame, IsMessage, IsCopyQuery, IsCall, batch, copy, single, IsInvariant,
  IsCaptured, discarded, captured, MayCapture,
}
use prisma_pglite_bridge.Duplex.PgliteDuplex.Frames.{IsCut, next_message-IsCut}
use prisma_pglite_bridge.Duplex.PgliteDuplex.Kept.{
  Keeps, andthen-Keeps, if-Keeps, if-Keeps-flow, stream_protocol-Keeps, run_with_timing-Keeps,
}

module _ (h : Host) (Inv : h.World → Type 0) (i : IsInvariant h Inv) where
  abbrev Kept : Duplex h → Type 0
  Kept = Keeps h Inv i

  run_rollback-Keeps : (d : Duplex h) → Kept d → Kept (run_rollback h d)
  unfolding run_rollback
  run_rollback-Keeps d k = if-Keeps h Inv i (not (is_open_status d.last_seen_rfq_status)) d _ k (
      if-Keeps h Inv i (not (owns d.session_lock h.options.duplex_id)) d _ k
        (i.on_rollback d.world k.0, k.1))

  rollback-Keeps : (d : Duplex h) → Kept d → Kept (rollback_if_in_transaction h d)
  unfolding rollback_if_in_transaction
  rollback-Keeps d k =
      if-Keeps h Inv i d.rollback_started d _ k
        (run_rollback-Keeps (record d { rollback_started = true }) k)

  -- A call of PGlite with one message.
  runs-Keeps :
      (d : Duplex h) (message : Bytes) (mode : RfqMode)
      → IsCall h message
      → Kept d
      → Kept (final (run_with_timing h d (λ d'. stream_protocol h d' message mode)))
  runs-Keeps d message mode c k =
      run_with_timing-Keeps h Inv i (λ d'. stream_protocol h d' message mode)
        (λ d' k'. stream_protocol-Keeps h Inv i d' message mode c k') d k

  -- What a capture holds once a further message is appended.
  module _ (c : CopyCapture) (message : Bytes) where
    abbrev next : CopyCapture
    next = append_copy_capture h c message

    -- The message is taken in within the cap, or the capture is discarded.
    append_copy_capture-cases :
        c.total ≤ h.options.copy_aggregate_cap_bytes
        → (next.discarding ≡ true)
          ⊎ ((next.chunks ≡ c.chunks ++ message ∷ [])
              × (next.total ≡ c.total + length message)
              × (c.total + length message ≤ h.options.copy_aggregate_cap_bytes))
    unfolding append_copy_capture
    append_copy_capture-cases cap = elim (Bool-cases c.discarding) [
      | inl e ↦ inl (rw e refl)
      | inr e ↦
          elim (Bool-cases (ltb (h.options.copy_aggregate_cap_bytes - c.total) (length message))) [
            | inl l ↦ inl (rw (e, l))
            | inr l ↦ inr (rw (e, l), rw (e, l), omega (arith, cap, ltb→ge _ _ l))
          ]
    ]

    discarding_stays : c.discarding ≡ true → next.discarding ≡ true
    unfolding append_copy_capture
    discarding_stays e = rw e refl

    append-length :
        length (concat (c.chunks ++ message ∷ [])) ≡ length (concat c.chunks) + length message
    append-length =
        ap length (
          concat-append c.chunks (message ∷ [])
          ∙ ap (λ xs. concat c.chunks ++ xs) (append-nil message))
        ∙ length-append (concat c.chunks) message

    append_copy_capture-IsCaptured :
        IsMessage copy_data message → IsCaptured h c → IsCaptured h next
    append_copy_capture-IsCaptured e (discarded t) = discarded (discarding_stays t)
    append_copy_capture-IsCaptured e (captured q ds held isq isd total cap) =
        elim (append_copy_capture-cases cap) [
          | inl t ↦ discarded t
          | inr (chunks, sum, bound) ↦
              captured q (ds ++ message ∷ []) (chunks ∙ ap (λ xs. xs ++ message ∷ []) held) isq
                (All-append (IsMessage copy_data) ds (message ∷ []) isd (e, tt))
                (omega (arith, sum, total, append-length, ap (λ xs. length (concat xs)) chunks))
                (omega (arith, sum, bound))
        ]

    -- The terminator makes a capture that is not discarded one call.
    append_copy_capture-IsCall :
        IsMessage copy_done message ⊎ IsMessage copy_fail message
        → IsCaptured h c
        → next.discarding ≡ false
        → IsCall h (concat next.chunks)
    append_copy_capture-IsCall e (discarded t) f = absurd (cc (discarding_stays t, f))
    append_copy_capture-IsCall e (captured q ds held isq isd total cap) f =
        elim (append_copy_capture-cases cap) [
          | inl t ↦ absurd (cc (t, f))
          | inr (chunks, sum, bound) ↦
              let whole : next.chunks ≡ q ∷ (ds ++ message ∷ []) =
                chunks ∙ ap (λ xs. xs ++ message ∷ []) held in
              subst (λ xs. IsCall h (concat xs)) (sym whole)
                (copy q ds message isq isd e (
                  omega (
                    arith,
                    bound,
                    total,
                    append-length,
                    ap (λ xs. length (concat xs)) chunks,
                    ap (λ xs. length (concat xs)) whole,
                  )))
        ]

  first_capture-IsCaptured : (m : Bytes) → IsCopyQuery h m → IsCaptured h (first_capture h m)
  first_capture-IsCaptured m q =
      elim (append_copy_capture-cases (record { chunks = []; total = 0; discarding = false }) m
        (omega arith)) [
          | inl t ↦ discarded t
          | inr (chunks, sum, bound) ↦
              captured m [] chunks q tt
                (omega (arith, sum, ap (λ xs. length (concat xs)) chunks, ap length (append-nil m)))
                (omega (arith, sum, bound))
        ]

  flush_pipeline-Keeps :
      (d : Duplex h) (message : Bytes) (mode : RfqMode)
      → IsMessage sync message ⊎ IsMessage flush message
      → Kept d
      → Kept (final (flush_pipeline h (record d { pipeline = d.pipeline ++ message ∷ [] }) mode))
  unfolding flush_pipeline
  flush_pipeline-Keeps d message mode e k =
      runs-Keeps (record d { pipeline = [] }) (concat (d.pipeline ++ message ∷ [])) mode
        (batch d.pipeline message k.1.0 e) (k.0, (tt, k.1.1))

  -- The terminator of a capture.
  terminated-Keeps :
      (d : Duplex h) (c : CopyCapture) (message : Bytes)
      → IsCaptured h c
      → IsMessage copy_done message ⊎ IsMessage copy_fail message
      → Kept d
      → Kept (
          final
            (end_capture h (record d { copy_capture = none }) (append_copy_capture h c message)))
  terminated-Keeps d c message m e k =
      elim (Bool-cases (append_copy_capture h c message).discarding) [
        | inl t ↦ rw t (
            unfold push_synthetic_error push_synthetic_ready_for_query in
            (k.0, (k.1.0, (tt, k.1.1.1))))
        | inr t ↦ rw t (
            runs-Keeps _ _ copy_in (append_copy_capture-IsCall c message e m t)
              (k.0, (k.1.0, (tt, k.1.1.1))))
      ]

  terminator :
      (message : Bytes)
      → IsFrame message
      → (byte_at message 0 == copy_done || byte_at message 0 == copy_fail) ≡ true
      → IsMessage copy_done message ⊎ IsMessage copy_fail message
  terminator message w t = elim (Bool-cases (byte_at message 0 == copy_done)) [
    | inl y ↦ inl (w, y)
    | inr n ↦ inr (w, ground arith)
  ]

  process_captured-Keeps :
      (d : Duplex h) (c : CopyCapture) (message : Bytes)
      → IsFrame message
      → IsCaptured h c
      → Kept d
      → Kept (final (process_captured h d c message))
  unfolding process_captured
  process_captured-Keeps d c message w m k = elim (Bool-cases (byte_at message 0 == copy_data)) [
    | inl e ↦ rw e (k.0, (k.1.0, (append_copy_capture-IsCaptured c message (w, e) m, k.1.1.1)))
    | inr e ↦ elim (Bool-cases (byte_at message 0 == copy_done || byte_at message 0 == copy_fail)) [
      | inl t ↦ rw (e, t) (terminated-Keeps d c message m (terminator message w t) k)
      | inr t ↦ rw (e, t) k
    ]
  ]

  other_kind :
      (m : Bytes) (k : ℕ) → IsKind query m → (query == k) ≡ false → (byte_at m 0 == k) ≡ false
  other_kind m k q e = ground (arith, q, e)

  no_eqp : (m : Bytes) → IsKind query m → is_eqp_message (byte_at m 0) ≡ false
  no_eqp m q = ground (arith, q)

  answer_query-Keeps :
      (v : CopyInVerdict) (d : Duplex h) (message : Bytes)
      → IsMessage query message
      → sniff_copy_in h.to_lower_case (query_text h message) ≡ v
      → Kept d
      → Kept (final (answer_query h v d message))
  answer_query-Keeps capture d message q e k =
      (unfold push_synthetic_copy_in_response in
        (k.0, (k.1.0, (first_capture-IsCaptured message (q, e), k.1.1.1))))
  answer_query-Keeps reject_multi d message q e k =
      (unfold push_synthetic_error push_synthetic_ready_for_query in k)
  answer_query-Keeps not_copy_in d message q e k =
      runs-Keeps d message passthrough
        (single message q.0 (other_kind message terminate q.1 refl) (no_eqp message q.1)
          (other_kind message sync q.1 refl) (other_kind message flush q.1 refl) (λ _. e))
        k

  process_plain-Keeps :
      (d : Duplex h) (message : Bytes)
      → IsFrame message
      → (byte_at message 0 == terminate) ≡ false
      → Kept d
      → Kept (final (process_plain h d message))
  unfolding process_plain process_query
  process_plain-Keeps d message w t k = elim (Bool-cases (is_eqp_message (byte_at message 0))) [
    | inl e ↦ rw e (k.0, (All-append IsEqp d.pipeline (message ∷ []) k.1.0 ((w, e), tt), k.1.1))
    | inr e ↦ elim (Bool-cases (byte_at message 0 == sync)) [
      | inl s ↦ rw (e, s) (flush_pipeline-Keeps d message suppress (inl (w, s)) k)
      | inr s ↦ elim (Bool-cases (byte_at message 0 == flush)) [
        | inl f ↦ rw (e, s, f) (flush_pipeline-Keeps d message flush_boundary (inr (w, f)) k)
        | inr f ↦ elim (Bool-cases (byte_at message 0 == query)) [
          | inl q ↦ rw (e, s, f, q) (answer_query-Keeps _ d message (w, q) refl k)
          | inr q ↦
              rw (e, s, f, q)
                (runs-Keeps d message passthrough
                  (single message w t e s f (λ y. absurd (cc (y, q)))) k)
        ]
      ]
    ]
  ]

  process_at-Keeps :
      (m : Option CopyCapture) (d : Duplex h) (message : Bytes)
      → IsFrame message
      → (byte_at message 0 == terminate) ≡ false
      → MayCapture h m
      → Kept d
      → Kept (final (process_at h m d message))
  process_at-Keeps none d message w t m k = process_plain-Keeps d message w t k
  process_at-Keeps (some c) d message w t m k = process_captured-Keeps d c message w m k

  process_terminate-Keeps : (d : Duplex h) → Kept d → Kept (process_terminate h d)
  unfolding process_terminate
  process_terminate-Keeps d k = rollback-Keeps _ (k.0, (tt, (tt, (clear_lem d.input).0)))

  process_message-Keeps :
      (d : Duplex h) (message : Bytes)
      → IsFrame message
      → Kept d
      → Kept (final (process_message h d message))
  unfolding process_message
  process_message-Keeps d message w k = elim (Bool-cases (byte_at message 0 == terminate)) [
    | inl e ↦ rw e (process_terminate-Keeps d k)
    | inr e ↦ rw e (process_at-Keeps d.copy_capture d message w e k.1.1.0 k)
  ]

  process_next-Keeps :
      (again : Duplex h → Flow h) (d : Duplex h)
      (r : Result DuplexError (Option (Bytes × FrontendMessageBuffer)))
      → ((d' : Duplex h) → Kept d' → Kept (final (again d')))
      → IsCut r
      → Kept d
      → Kept (final (process_next h again d r))
  process_next-Keeps again d (err e) n c k = k
  process_next-Keeps again d (ok none) n c k = k
  process_next-Keeps again d (ok (some (message, rest))) n c k =
      let flow = process_message h (record d { input = rest }) message in
      let l =
        process_message-Keeps (record d { input = rest }) message c.0
          (k.0, (k.1.0, (k.1.1.0, c.1))) in
      if-Keeps-flow h Inv i (byte_at message 0 == terminate) flow (flow andthen again) l
        (andthen-Keeps h Inv i flow again l n)

  -- Whatever the client has sent and however it is cut into chunks, each call that the message loop
  -- makes of PGlite is one that IsCall allows, of whole messages as their length words say: an
  -- extended-query batch up to its Sync or Flush, a copy from its Query to its terminator within the
  -- cap, or one other message that begins no copy and is no Terminate. A property of PGlite that
  -- such calls keep, and that its clean-up, a rollback and the other duplexes keep, holds after the
  -- loop, with any fuel and in the face of any error, as does what the pipeline, the capture and the
  -- input hold.
  pub process_messages-Keeps :
      (fuel : ℕ) (d : Duplex h)
      → Keeps h Inv i d
      → Keeps h Inv i (final (process_messages h fuel d))
  unfolding process_messages
  process_messages-Keeps zero d k = k
  process_messages-Keeps (suc fuel) d k =
      process_next-Keeps (process_messages h fuel) d (next_message h d.input)
        (process_messages-Keeps fuel) (next_message-IsCut h d.input k.1.1.1) k
