-- ===== src/Duplex/BackendFramer/Relay.antt =====
-- src/duplex/backend-framer.ts: what a client is shown of a response, message by message.
use prisma_pglite_bridge.Prelude.{
  ℕ, ◌-◌, ltb, ◌==◌, not, ◌&&◌, if◌then◌else◌, Bool, true, false, List, [], ◌∷◌, length, ok, ◌>>=◌,
  ◌≡◌, refl, ap, ◌∙◌, sym, arith, inl, inr, Bool-cases, append-nil, concat, All, le→ltb,
}
use prisma_pglite_bridge.Duplex.Bytes.{Bytes, byte_at, u32_at}
use prisma_pglite_bridge.Duplex.Constants.{
  ready_for_query, copy_in_response, row_description, error_response, max_message_length,
}
use prisma_pglite_bridge.Duplex.RowDescription.{rewrite_row_description_in_place}
use prisma_pglite_bridge.Duplex.BackendFramer.{
  Framer, Event, chunk, ready, flush, reset, finish_ready_for_query,
}
use prisma_pglite_bridge.Duplex.BackendFramer.Steps.{
  Output, Reading, silent, observed, after, ◌+out◌, feed_all, output, feed_all-append,
}
use prisma_pglite_bridge.Duplex.BackendFramer.Invariant.{IsIdle, idle, failed, reset-IsIdle}
use prisma_pglite_bridge.Duplex.BackendFramer.Payload.{bytes_out, chunk_out, resting, resting_lem}
use prisma_pglite_bridge.Duplex.BackendFramer.Message.{
  feed_drop, feed_rfq_message, feed_row, feed_other,
}
use prisma_pglite_bridge.Duplex.BackendFramer.Start.{finish_held}
use prisma_pglite_bridge.Duplex.BackendFramer.Write.{write_all, write_all_lem}
use prisma_pglite_bridge.Duplex.BackendFramer.Response.{
  Message, word, size, encode, IsWell, is_ready, shown, relay, held_after, drop_after, statuses_of,
  errors_of, encode_all, u32-word,
}

ready_out :
    (suppress : Bool) (status : ℕ) (held : Bytes)
    → output (ready status ∷ (if suppress then [] else chunk held ∷ []))
      ≡ record { bytes = if suppress then [] else held; statuses = status ∷ []; errors = 0 }
ready_out true status held = refl
ready_out false status held = rw (append-nil held)

failed_out :
    (kind : ℕ) (xs : Bytes)
    → output (failed kind) +out output (chunk xs ∷ [])
      ≡ record { bytes = xs; statuses = []; errors = if kind == error_response then 1 else 0 }
failed_out kind xs = elim (Bool-cases (kind == error_response)) [
  | inl e ↦ rw (e, append-nil xs)
  | inr e ↦ rw (e, append-nil xs)
]

kept_drop : (b c : Bool) → (c && b) ≡ false → b && not c ≡ b
kept_drop true true e = sym e
kept_drop true false e = refl
kept_drop false c e = refl

module _ (f : Framer) (m : Message) (v : IsIdle f) (w : IsWell m) where
  abbrev next : Framer
  next = record f {
    held_rfq = if is_ready m && f.suppress_intermediate then encode m else [];
    drop_next_copy_in = f.drop_next_copy_in && not (m.kind == copy_in_response);
  }

  abbrev shown_of : Output
  shown_of = record {
    bytes =
        if m.kind == copy_in_response && f.drop_next_copy_in
        then []
        else if is_ready m && f.suppress_intermediate
        then []
        else shown f.rewrite_oids m;
    statuses = if is_ready m then byte_at m.payload 0 ∷ [] else [];
    errors = if m.kind == error_response then 1 else 0;
  }

  lo : ltb (size m) 4 ≡ false
  lo = le→ltb 4 (size m) (omega arith)

  hi : ltb max_message_length (size m) ≡ false
  hi = le→ltb (size m) max_message_length w.small

  hn : u32_at (word (size m)) 0 ≡ size m
  hn = u32-word (size m) [] w.small

  hp : length m.payload ≡ size m - 4
  hp = omega arith

  relay_drop :
      (m.kind == copy_in_response && f.drop_next_copy_in) ≡ true
      → ◌≡◌ {A = Reading}
          (ok (record f { held_rfq = []; drop_next_copy_in = false }, silent))
          (ok (next, shown_of))
  relay_drop d =
      let kg : (m.kind == copy_in_response) ≡ true = ground arith in
      let kz : (m.kind == ready_for_query) ≡ false = ground arith in
      let ke : (m.kind == error_response) ≡ false = ground arith in
      let fd : (f.drop_next_copy_in && false) ≡ false = ground arith in rw (d, kz, ke, kg, fd)

  module _ (d : (m.kind == copy_in_response && f.drop_next_copy_in) ≡ false) where
    kept : f.drop_next_copy_in && not (m.kind == copy_in_response) ≡ f.drop_next_copy_in
    kept = kept_drop f.drop_next_copy_in (m.kind == copy_in_response) d

    relay_rfq :
        (m.kind == ready_for_query && size m == 5) ≡ true
        → observed (finish_ready_for_query (record f { held_rfq = encode m })) ≡ ok (next, shown_of)
    relay_rfq z =
        let r : is_ready m ≡ true = ground arith in
        let ke : (m.kind == error_response) ≡ false = ground arith in
        let kt : (m.kind == row_description && f.rewrite_oids) ≡ false = ground arith in
        rw (d, r, ke, kt, kept)
          (ap
              (λ g. ok (
                g,
                output (
                    ready (byte_at m.payload 0)
                    ∷ (if f.suppress_intermediate then [] else chunk (encode m) ∷ [])),
              ))
              (finish_held f (encode m) v)
            ∙ ap
                (λ o.
                  ok (record f { held_rfq = if f.suppress_intermediate then encode m else [] }, o))
                (ready_out f.suppress_intermediate (byte_at m.payload 0) (encode m)))

    module _ (z : (m.kind == ready_for_query && size m == 5) ≡ false) where
      not_ready : is_ready m ≡ false
      not_ready = ground arith

      relay_row :
          (m.kind == row_description && f.rewrite_oids) ≡ true
          → ◌≡◌ {A = Reading}
              (ok (
                resting f f.drop_next_copy_in [],
                output (chunk (rewrite_row_description_in_place (encode m)) ∷ []),
              ))
              (ok (next, shown_of))
      relay_row t =
          let ke : (m.kind == error_response) ≡ false = ground arith in
          rw (d, not_ready, ke, t, kept)
            (ap (λ o. ok (resting f f.drop_next_copy_in [], o))
                (chunk_out (rewrite_row_description_in_place (encode m)))
              ∙ ap (λ g. ok (g, bytes_out (rewrite_row_description_in_place (encode m))))
                  (resting_lem f f.drop_next_copy_in [] v))

      relay_other :
          (m.kind == row_description && f.rewrite_oids) ≡ false
          → ◌≡◌ {A = Reading}
              (ok (
                resting f f.drop_next_copy_in [],
                output (failed m.kind) +out output (chunk (encode m) ∷ []),
              ))
              (ok (next, shown_of))
      relay_other t =
          rw (d, not_ready, t, kept)
            (ap (λ o. ok (resting f f.drop_next_copy_in [], o)) (failed_out m.kind (encode m))
              ∙ ap
                  (λ g. ok (
                    g,
                    record {
                      bytes = encode m;
                      statuses = [];
                      errors = if m.kind == error_response then 1 else 0;
                    },
                  ))
                  (resting_lem f f.drop_next_copy_in [] v))

  -- One message from rest.
  relay_one : feed_all f (encode m) ≡ ok (next, shown_of)
  relay_one = elim (Bool-cases (m.kind == copy_in_response && f.drop_next_copy_in)) [
    | inl d ↦
        feed_drop f m.kind (size m) (word (size m)) m.payload v refl hn lo hi hp d
        ∙ ap (λ g. ok (g, silent)) (resting_lem f false [] v)
        ∙ relay_drop d
    | inr d ↦ elim (Bool-cases (m.kind == ready_for_query && size m == 5)) [
      | inl z ↦
          feed_rfq_message f m.kind (size m) (word (size m)) m.payload v refl hn lo hi hp z
          ∙ relay_rfq d z
      | inr z ↦ elim (Bool-cases (m.kind == row_description && f.rewrite_oids)) [
        | inl t ↦
            feed_row f m.kind (size m) (word (size m)) m.payload v refl hn lo hi hp t
              (ground (arith, w.counted))
            ∙ relay_row d z t
        | inr t ↦
            feed_other f m.kind (size m) (word (size m)) m.payload v refl hn lo hi hp d z t
            ∙ relay_other d z t
      ]
    ]
  ]

  next-IsIdle : IsIdle next
  next-IsIdle = record {
    idle = v.idle;
    no_header = v.no_header;
    no_payload = v.no_payload;
    no_rfq = v.no_rfq;
    no_row = v.no_row;
    no_drop = v.no_drop;
    held = elim (Bool-cases (is_ready m && f.suppress_intermediate)) [
      | inl e ↦ rw e (inr (ground arith, ground arith))
      | inr e ↦ rw e (inl refl)
    ];
  }

-- What the byte-wise reading makes of a response.
abbrev relayed : Framer → List Message → Framer
relayed f ms = record f {
  held_rfq = held_after f.suppress_intermediate f.rewrite_oids f.held_rfq ms;
  drop_next_copy_in = drop_after f.drop_next_copy_in ms;
}

-- What a client gets of it.
abbrev pub response_output : Bool → Bool → Bool → List Message → Output
response_output suppress rewrite drop ms = record {
  bytes = relay suppress rewrite drop ms;
  statuses = statuses_of ms;
  errors = errors_of ms;
}

relay-All :
    (f : Framer) (ms : List Message)
    → IsIdle f
    → All IsWell ms
    → feed_all f (encode_all ms)
      ≡ ok (
        relayed f ms,
        response_output f.suppress_intermediate f.rewrite_oids f.drop_next_copy_in ms,
      )
unfolding relay held_after drop_after statuses_of errors_of
relay-All f [] v w = unfold feed_all in refl
relay-All f (m ∷ ms) v w =
    feed_all-append f (encode m) (encode_all ms)
    ∙ ap (λ x. x >>= λ r. feed_all r.0 (encode_all ms) >>= after r.1) (relay_one f m v w.0)
    ∙ ap (λ x. x >>= after (shown_of f m v w.0))
        (relay-All (next f m v w.0) ms (next-IsIdle f m v w.0) w.1)

-- What `flush` adds at the end of a response.
abbrev pub final_rfq : Bool → Bytes → List Event
final_rfq dropped held = if dropped then [] else if length held == 6 then chunk held ∷ [] else []

relayed-IsIdle : (f : Framer) (ms : List Message) → IsIdle f → All IsWell ms → IsIdle (relayed f ms)
unfolding held_after drop_after
relayed-IsIdle f [] v w = v
relayed-IsIdle f (m ∷ ms) v w = relayed-IsIdle (next f m v w.0) ms (next-IsIdle f m v w.0) w.1

flush_lem :
    (g : Framer) (dropped : Bool)
    → IsIdle g
    → flush g dropped ≡ ok (record g { held_rfq = [] }, final_rfq dropped g.held_rfq)
unfolding flush
flush_lem g dropped v = ground (arith, v.held, v.idle)

-- A response of well-formed messages, cut into chunks in any way and written after `reset`: the
-- client gets the messages in order, without the first CopyInResponse where that is dropped,
-- without any ReadyForQuery where those are suppressed and with catalog columns widened where
-- that is wanted; every ReadyForQuery reports its status, every ErrorResponse is noticed once, and
-- `flush` then emits a last message that was held back, unless it is told to drop it.
pub relay_lem :
    (f : Framer) (suppress drop dropped : Bool) (chunks : List Bytes) (ms : List Message)
    → All IsWell ms
    → concat chunks ≡ encode_all ms
    → (g : Framer) × (events : List Event) × (write_all (reset f suppress drop) chunks
        ≡ ok (g, events))
      × (output events ≡ response_output suppress f.rewrite_oids drop ms)
      × (flush g dropped
          ≡ ok (
            record g { held_rfq = [] },
            final_rfq dropped (held_after suppress f.rewrite_oids [] ms),
          ))
unfolding reset
relay_lem f suppress drop dropped chunks ms w e =
    let s = reset-IsIdle f suppress drop in
    let (events, done, out) =
      write_all_lem chunks (reset f suppress drop) (idle s)
        (ap (feed_all (reset f suppress drop)) e ∙ relay-All (reset f suppress drop) ms s w) in
    (
      relayed (reset f suppress drop) ms,
      events,
      done,
      out,
      flush_lem _ dropped (relayed-IsIdle (reset f suppress drop) ms s w),
    )
