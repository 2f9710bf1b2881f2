-- ===== src/Duplex/BackendFramer/Message.antt =====
-- src/duplex/backend-framer.ts: a message that arrives whole, read byte by byte.
use prisma_pglite_bridge.Prelude.{
  ℕ, ◌-◌, ltb, ◌==◌, ◌&&◌, if◌then◌else◌, true, false, none, some, List, [], ◌∷◌, ◌++◌, length, ok,
  err, ◌>>=◌, ◌≡◌, refl, ap, ◌∙◌, sym, arith, inl, inr, Bool-cases, ◌≢◌,
}
use prisma_pglite_bridge.Duplex.Bytes.{Bytes, u32_at}
use prisma_pglite_bridge.Duplex.Constants.{
  ready_for_query, copy_in_response, row_description, error_response, max_message_length,
}
use prisma_pglite_bridge.Duplex.RowDescription.{rewrite_row_description_in_place}
use prisma_pglite_bridge.Duplex.BackendFramer.{
  Framer, Event, chunk, header_bytes, header_done, malformed_length, check_length,
  finish_ready_for_query, emitted_from,
}
use prisma_pglite_bridge.Duplex.BackendFramer.Steps.{
  begin, silent, refuse_stuck, refuse_stuck-none, observed, after, ◌+out◌, feed_idle, feed_all,
  output, after-silent, output-append, out_assoc, feed_all-append,
}
use prisma_pglite_bridge.Duplex.BackendFramer.Invariant.{
  IsIdle, failed, opened, opened_next, header_done_rfq, header_done_drop, header_done_row,
  header_done_other,
}
use prisma_pglite_bridge.Duplex.BackendFramer.Parts.{feed_all_more, header_all, emitted_chunk}
use prisma_pglite_bridge.Duplex.BackendFramer.Payload.{
  resting, opened_payload, rfq_payload, row_payload, chunk_out, bytes_out,
}

abbrev pub with_header : Framer → ℕ → Bytes → Framer
with_header f kind h = record (begin f kind) {
  header = h;
  held_rfq = if kind == ready_for_query then kind ∷ h else [];
}

opened_next_row : (g : Framer) (n : ℕ) → g.row_desc ≡ none → (opened_next g n).row_desc ≡ none
opened_next_row g n r = elim (Bool-cases (n - 4 == 0)) [ inl z ↦ rw z r | inr z ↦ rw z r ]

module _ (f : Framer) (kind n : ℕ) (h : Bytes) (v : IsIdle f) (h4 : length h ≡ 4)
    (hn : u32_at h 0 ≡ n) where
  feed_header_bytes :
      header_bytes (begin f kind) kind h
      ≡ check_length n (header_done (with_header f kind h) kind n)
  unfolding header_bytes
  feed_header_bytes =
      let e : ltb (length h) 4 ≡ false = ground arith in
      elim (Bool-cases (kind == ready_for_query)) [ inl z ↦ rw (z, e, hn) | inr z ↦ rw (z, e, hn) ]

  header_all_of :
      (xs : Bytes)
      → length xs ≡ 4
      → feed_all (begin f kind) xs ≡ (header_bytes (begin f kind) kind xs >>= refuse_stuck)
  header_all_of [] e = absurd (omega arith)
  header_all_of (b ∷ bs) e = header_all (begin f kind) kind b bs refl v.no_row (omega arith)

  pub feed_checked :
      feed_all f (kind ∷ h)
      ≡ (check_length n (header_done (with_header f kind h) kind n) >>= refuse_stuck)
  feed_checked =
      feed_all_more f (begin f kind) kind h silent (feed_idle f kind v.idle)
      ∙ after-silent (feed_all (begin f kind) h)
      ∙ header_all_of h h4
      ∙ ap (λ x. x >>= refuse_stuck) feed_header_bytes

-- A message whose length passes the guards.
module _ (f : Framer) (kind n : ℕ) (h payload : Bytes) (v : IsIdle f) (h4 : length h ≡ 4)
    (hn : u32_at h 0 ≡ n) (lo : ltb n 4 ≡ false) (hi : ltb max_message_length n ≡ false) where
  feed_head : feed_all f (kind ∷ h) ≡ refuse_stuck (header_done (with_header f kind h) kind n)
  feed_head = feed_checked f kind n h v h4 hn ∙ rw (lo, hi)

  pub feed_message : feed_all f (kind ∷ (h ++ payload)) ≡ (
      refuse_stuck (header_done (with_header f kind h) kind n) >>= λ r.
      feed_all r.0 payload >>= after r.1)
  feed_message =
      feed_all-append f (kind ∷ h) payload
      ∙ ap (λ x. x >>= λ r. feed_all r.0 payload >>= after r.1) feed_head

  -- What the framer becomes, and what comes out, by the kind of the message.
  module _ (hp : length payload ≡ n - 4) where
    abbrev g0 : Framer
    g0 = with_header f kind h

    failed_of : (c : ℕ) → c ≢ error_response → (kind == c) ≡ true → failed kind ≡ []
    failed_of c ne e = ground arith

    -- A message with no special treatment behind its header.
    feed_passed :
        (events : List Event)
        → header_done g0 kind n ≡ (opened_next g0 n, events)
        → feed_all f (kind ∷ (h ++ payload))
          ≡ ok (
            resting g0 g0.drop_next_copy_in [],
            output events +out output (emitted_from none g0.dropping payload),
          )
    feed_passed events e =
        feed_message
        ∙ ap (λ x. refuse_stuck x >>= λ r. feed_all r.0 payload >>= after r.1) e
        ∙ ap (λ x. x >>= λ r. feed_all r.0 payload >>= after r.1)
            (refuse_stuck-none (opened_next g0 n) events (opened_next_row g0 n v.no_row))
        ∙ ap (λ x. x >>= after (output events))
            (opened_payload g0 kind n payload refl h4 v.no_row hp)

    pub feed_drop :
        (kind == copy_in_response && f.drop_next_copy_in) ≡ true
        → feed_all f (kind ∷ (h ++ payload)) ≡ ok (resting f false [], silent)
    feed_drop d =
        let k : (kind == copy_in_response) ≡ true = ground arith in
        let z : (kind == ready_for_query && n == 5) ≡ false = ground arith in
        let dropping : g0.dropping ≡ true = rw d in
        feed_passed (failed kind) (header_done_drop g0 kind n z dropping)
        ∙ rw (d, failed_of copy_in_response (λ e. omega (arith, e)) k, emitted_chunk payload true)

    pub feed_rfq_message :
        (kind == ready_for_query && n == 5) ≡ true
        → feed_all f (kind ∷ (h ++ payload))
          ≡ observed (finish_ready_for_query (record f { held_rfq = kind ∷ (h ++ payload) }))
    feed_rfq_message z =
        let k : (kind == ready_for_query) ≡ true = ground arith in
        let dn : (kind == copy_in_response && f.drop_next_copy_in) ≡ false = ground arith in
        feed_message
        ∙ ap (λ x. refuse_stuck x >>= λ r. feed_all r.0 payload >>= after r.1)
            (header_done_rfq g0 kind n z)
        ∙ ap (λ x. x >>= λ r. feed_all r.0 payload >>= after r.1)
            (refuse_stuck-none _ (failed kind) v.no_row)
        ∙ ap (λ x. x >>= after (output (failed kind)))
            (rfq_payload (record g0 { payload_remaining = n - 4; rfq_frame = true }) kind payload
              refl h4 refl hp (ground arith))
        ∙ rw (failed_of ready_for_query (λ e. omega (arith, e)) k) (
            after-silent
              (observed (finish_ready_for_query (record g0 { held_rfq = g0.held_rfq ++ payload })))
            ∙ rw (k, dn))

    pub feed_row :
        (kind == row_description && f.rewrite_oids) ≡ true
        → (n - 4 == 0) ≡ false
        → feed_all f (kind ∷ (h ++ payload))
          ≡ ok (
            resting f f.drop_next_copy_in [],
            output (chunk (rewrite_row_description_in_place (kind ∷ (h ++ payload))) ∷ []),
          )
    feed_row t z =
        let kt : row_description ≡ kind = ground arith in
        let q : (kind == ready_for_query && n == 5) ≡ false = ground arith in
        let dn : (kind == copy_in_response && f.drop_next_copy_in) ≡ false = ground arith in
        let dropping : g0.dropping ≡ false = rw dn v.no_drop in
        feed_message
        ∙ ap (λ x. refuse_stuck x >>= λ r. feed_all r.0 payload >>= after r.1)
            (header_done_row g0 kind n q dropping t)
        ∙ rw (z, failed_of row_description (λ e. omega (arith, e)) (ground arith))
            (ap (λ x. x >>= after silent)
                (row_payload (record (opened g0 n) { row_desc = some (row_description ∷ h) }) kind
                  (row_description ∷ h) payload refl h4 refl dropping refl refl hp (ground arith))
              ∙ after-silent _
              ∙ λ i. ok (
                resting f (if dn i then false else f.drop_next_copy_in) [],
                output (chunk (rewrite_row_description_in_place (kt i ∷ (h ++ payload))) ∷ []),
              ))

    pub feed_other :
        (kind == copy_in_response && f.drop_next_copy_in) ≡ false
        → (kind == ready_for_query && n == 5) ≡ false
        → (kind == row_description && f.rewrite_oids) ≡ false
        → feed_all f (kind ∷ (h ++ payload))
          ≡ ok (
            resting f f.drop_next_copy_in [],
            output (failed kind) +out output (chunk (kind ∷ (h ++ payload)) ∷ []),
          )
    feed_other d z t =
        let dropping : g0.dropping ≡ false = rw d v.no_drop in
        feed_passed (failed kind ++ chunk (kind ∷ h) ∷ [])
          (header_done_other g0 kind n z dropping t)
        ∙ rw (d, v.no_drop, emitted_chunk payload false)
            (ap (λ p. ok (resting f f.drop_next_copy_in [], p))
              (ap (λ q. q +out bytes_out payload)
                  (output-append (failed kind) (chunk (kind ∷ h) ∷ []))
                ∙ out_assoc (output (failed kind)) (output (chunk (kind ∷ h) ∷ []))
                    (bytes_out payload)
                ∙ ap (λ q. output (failed kind) +out q)
                    (ap (λ q. q +out bytes_out payload) (chunk_out (kind ∷ h))
                      ∙ sym (chunk_out (kind ∷ (h ++ payload))))))

    -- A row description with no payload is refused.
    pub feed_row_stuck :
        (kind == row_description && f.rewrite_oids) ≡ true
        → (n - 4 == 0) ≡ true
        → feed_all f (kind ∷ (h ++ payload)) ≡ err (malformed_length 4)
    feed_row_stuck t z =
        let q : (kind == ready_for_query && n == 5) ≡ false = ground arith in
        let dn : (kind == copy_in_response && f.drop_next_copy_in) ≡ false = ground arith in
        let dropping : g0.dropping ≡ false = rw dn v.no_drop in
        feed_message
        ∙ ap (λ x. refuse_stuck x >>= λ r. feed_all r.0 payload >>= after r.1)
            (header_done_row g0 kind n q dropping t)
        ∙ rw z
