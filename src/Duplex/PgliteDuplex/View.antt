-- ===== src/Duplex/PgliteDuplex/View.antt =====
-- src/duplex/index.ts: what the events of the framer show the client.
use prisma_pglite_bridge.Prelude.{
  ℕ, ◌+◌, ◌==◌, ◌||◌, ◌&&◌, not, Bool, true, false, Option, some, List, [], ◌∷◌, ◌++◌, length,
  Result, ok, ◌≡◌, refl, arith, subst, sym, ap, ◌∙◌, append-nil, append_assoc,
}
use prisma_pglite_bridge.Duplex.Bytes.{Bytes}
use prisma_pglite_bridge.Duplex.BackendFramer as BackendFramer
use prisma_pglite_bridge.Duplex.BackendFramer.{Framer, FramerError, Event, chunk, error_seen, ready}
use prisma_pglite_bridge.Duplex.BackendFramer.Steps.{Output, silent, output, output_of, ◌+out◌}
use prisma_pglite_bridge.Duplex.PgliteDuplex.{
  Host, is_terminated, Pushed, pushed, end_of_stream, Duplex, done,
}
use prisma_pglite_bridge.Duplex.PgliteDuplex.Protocol.{on_event, on_events, framed, on_raw_data}

-- The bytes that the client gets.
unfoldable pub bytes_of : List Pushed → Bytes
bytes_of [] = []
bytes_of (pushed bytes ∷ ps) = bytes ++ bytes_of ps
bytes_of (end_of_stream ∷ ps) = bytes_of ps

pub bytes_of-append : (ps qs : List Pushed) → bytes_of (ps ++ qs) ≡ bytes_of ps ++ bytes_of qs
unfolding bytes_of
bytes_of-append [] qs = refl
bytes_of-append (pushed bytes ∷ ps) qs =
    ap (λ xs. bytes ++ xs) (bytes_of-append ps qs)
    ∙ sym (append_assoc bytes (bytes_of ps) (bytes_of qs))
bytes_of-append (end_of_stream ∷ ps) qs = bytes_of-append ps qs

bytes_of_one : (bs : Bytes) → bytes_of (pushed bs ∷ []) ≡ bs
unfolding bytes_of
bytes_of_one bs = append-nil bs

-- The transaction state after further reports.
unfoldable pub last_status : Option ℕ → List ℕ → Option ℕ
last_status s [] = s
last_status s (t ∷ ts) = last_status (some t) ts

pub last_status-append :
    (s : Option ℕ) (ts us : List ℕ) → last_status s (ts ++ us) ≡ last_status (last_status s ts) us
unfolding last_status
last_status-append s [] us = refl
last_status-append s (t ∷ ts) us = last_status-append (some t) ts us

module _ (h : Host) where
  -- From `d` to `d'` the client is shown `o`.
  pub record Shows (d : Duplex h) (o : Output) (d' : Duplex h) : Type 0 where
    pub bytes : bytes_of d'.out ≡ bytes_of d.out ++ o.bytes
    pub status : d'.last_seen_rfq_status ≡ last_status d.last_seen_rfq_status o.statuses
    pub failed : d'.err_seen ≡ (d.err_seen || not (o.errors == 0))
    pub torn : d'.torn_down ≡ d.torn_down
    pub phase : d'.phase ≡ d.phase

  pub Shows-compose :
      {d d' d'' : Duplex h} (o o' : Output)
      → Shows d o d'
      → Shows d' o' d''
      → Shows d (o +out o') d''
  Shows-compose {d} {d'} {d''} o o' s t = record {
    bytes =
        t.bytes
        ∙ ap (λ xs. xs ++ o'.bytes) s.bytes
        ∙ append_assoc (bytes_of d.out) o.bytes o'.bytes;
    status =
        t.status
        ∙ ap (λ x. last_status x o'.statuses) s.status
        ∙ sym (last_status-append d.last_seen_rfq_status o.statuses o'.statuses);
    failed = ground (arith, t.failed, s.failed);
    torn = t.torn ∙ s.torn;
    phase = t.phase ∙ s.phase;
  }

  -- The stream is open.
  pub record IsLive (d : Duplex h) : Type 0 where
    pub standing : d.torn_down ≡ false
    pub going : is_terminated d.phase ≡ false

  pub Shows-IsLive : {d d' : Duplex h} {o : Output} → Shows d o d' → IsLive d → IsLive d'
  Shows-IsLive s l = record {
    standing = s.torn ∙ l.standing;
    going = ap is_terminated s.phase ∙ l.going;
  }

  pub no_bytes : (d : Duplex h) → bytes_of d.out ≡ bytes_of d.out ++ []
  no_bytes d = sym (append-nil (bytes_of d.out))

  pub same_errors : (b : Bool) → b ≡ (b || false)
  same_errors true = refl
  same_errors false = refl

  abbrev with_chunk : Duplex h → Bytes → Duplex h
  with_chunk d bs = record d { out = d.out ++ pushed bs ∷ [] }

  chunk_pushed :
      (d : Duplex h) (bs : Bytes)
      → (not d.torn_down && not (is_terminated d.phase) && not (length bs == 0)) ≡ true
      → on_event h d (chunk bs) ≡ with_chunk d bs
  unfolding on_event
  chunk_pushed d bs e = rw e

  pushed-Shows : (d : Duplex h) (bs : Bytes) → Shows d (output_of (chunk bs)) (with_chunk d bs)
  unfolding last_status
  pushed-Shows d bs = record {
    bytes =
        bytes_of-append d.out (pushed bs ∷ []) ∙ ap (λ xs. bytes_of d.out ++ xs) (bytes_of_one bs);
    status = refl;
    failed = same_errors d.err_seen;
    torn = refl;
    phase = refl;
  }

  chunk-Shows :
      (d : Duplex h) (bs : Bytes)
      → IsLive d
      → Shows d (output_of (chunk bs)) (on_event h d (chunk bs))
  unfolding on_event last_status
  chunk-Shows d [] l = record {
    bytes = rw (l.standing, l.going) (no_bytes d);
    status = rw (l.standing, l.going) refl;
    failed = rw (l.standing, l.going) (same_errors d.err_seen);
    torn = rw (l.standing, l.going) refl;
    phase = rw (l.standing, l.going) refl;
  }
  chunk-Shows d (b ∷ bs) l =
      subst (λ d'. Shows d (output_of (chunk (b ∷ bs))) d')
        (sym (chunk_pushed d (b ∷ bs) (ground (arith, l.standing, l.going))))
        (pushed-Shows d (b ∷ bs))

  -- What changes nothing that the client is shown.
  pub Shows-same :
      (d d' : Duplex h)
      → d'.out ≡ d.out
      → d'.last_seen_rfq_status ≡ d.last_seen_rfq_status
      → d'.err_seen ≡ d.err_seen
      → d'.torn_down ≡ d.torn_down
      → d'.phase ≡ d.phase
      → Shows d silent d'
  unfolding last_status
  Shows-same d d' o s f t p = record {
    bytes = ap bytes_of o ∙ no_bytes d;
    status = s;
    failed = f ∙ same_errors d.err_seen;
    torn = t;
    phase = p;
  }

  event-framer : (d : Duplex h) (e : Event) → (on_event h d e).framer ≡ d.framer
  unfolding on_event
  event-framer d (chunk bs) = ground arith
  event-framer d error_seen = refl
  event-framer d (ready s) = refl

  event-Shows : (d : Duplex h) (e : Event) → IsLive d → Shows d (output_of e) (on_event h d e)
  unfolding on_event last_status
  event-Shows d (chunk bs) l = chunk-Shows d bs l
  event-Shows d error_seen l = record {
    bytes = no_bytes d;
    status = refl;
    failed = ground arith;
    torn = refl;
    phase = refl;
  }
  event-Shows d (ready s) l = record {
    bytes = no_bytes d;
    status = refl;
    failed = same_errors d.err_seen;
    torn = refl;
    phase = refl;
  }

  pub events-Shows :
      (d : Duplex h) (es : List Event) → IsLive d → Shows d (output es) (on_events h d es)
  unfolding on_events
  events-Shows d [] l = Shows-same d d refl refl refl refl refl
  events-Shows d (e ∷ es) l =
      let s = event-Shows d e l in
      Shows-compose (output_of e) (output es) s
        (events-Shows (on_event h d e) es (Shows-IsLive s l))

  events-framer : (d : Duplex h) (es : List Event) → (on_events h d es).framer ≡ d.framer
  unfolding on_events
  events-framer d [] = refl
  events-framer d (e ∷ es) = events-framer (on_event h d e) es ∙ event-framer d e

  pub on_raw_data-framed :
      (d : Duplex h) (bs : Bytes)
      → on_raw_data h d bs
        ≡ framed h
            (record d {
              pending_protocol_cleanup_bytes = d.pending_protocol_cleanup_bytes + length bs;
            })
            (BackendFramer.write d.framer bs)
  unfolding on_raw_data
  on_raw_data-framed d bs = refl

  pub framed-Shows :
      (d : Duplex h) (r : Result FramerError (Framer × List Event)) (g : Framer) (es : List Event)
      → IsLive d
      → r ≡ ok (g, es)
      → (d' : Duplex h) × (framed h d r ≡ done d') × (d'.framer ≡ g) × Shows d (output es) d'
  framed-Shows d r g es l e =
      let d' = on_events h (record d { framer = g }) es in
      (
        d',
        ap (framed h d) e,
        events-framer (record d { framer = g }) es,
        (let s =
              events-Shows (record d { framer = g }) es
                (record { standing = l.standing; going = l.going }) in
            record {
              bytes = s.bytes;
              status = s.status;
              failed = s.failed;
              torn = s.torn;
              phase = s.phase;
            }),
      )
