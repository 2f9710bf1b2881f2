-- ===== src/Duplex/BackendFramer/Start.antt =====
-- src/duplex/backend-framer.ts: a round of the loop in `write` that begins a message.
use prisma_pglite_bridge.Prelude.{
  ℕ, suc, ◌+◌, ◌-◌, ◌≤◌, ◌<◌, ltb, leb, ◌==◌, ◌&&◌, if◌then◌else◌, true, false, Option, none, some,
  List, [], ◌∷◌, ◌++◌, length, ok, ◌>>=◌, ◌≡◌, refl, ap, ◌∙◌, sym, arith, inl, inr, Bool-cases,
  ltb→ge, append-nil, subst, take, drop, drop-drop, leb→le, get_or-take, get_or-drop,
  take-take-drop,
}
use prisma_pglite_bridge.Duplex.Bytes.{
  Bytes, u32_at, byte_at, subarray, drop-byte_at, subarray_split, u32_at-append, u32_at-drop,
}
use prisma_pglite_bridge.Duplex.Constants.{
  ready_for_query, copy_in_response, row_description, error_response, max_message_length,
}
use prisma_pglite_bridge.Duplex.RowDescription.{
  row_description_needs_rewrite, rewrite_row_description_in_place,
}
use prisma_pglite_bridge.Duplex.RowDescription.Gate.{needs_rewrite_false, needs_rewrite-subarray}
use prisma_pglite_bridge.Duplex.BackendFramer.{
  Framer, Event, chunk, ready, Cursor, flush_passthrough, passthrough_after, check_length,
  begin_message, whole_message, start_step, drop_stale_held, step, step_at, finish_ready_for_query,
  finish_message,
}
use prisma_pglite_bridge.Duplex.BackendFramer.Steps.{
  Output, begin, silent, refuse_stuck, observed, ◌+out◌, feed_idle, feed_all, out_silent, output,
  silent_out, output-append, out_assoc, feed_all-ok,
}
use prisma_pglite_bridge.Duplex.BackendFramer.Invariant.{IsIdle, failed}
use prisma_pglite_bridge.Duplex.BackendFramer.Parts.{feed_all_one}
use prisma_pglite_bridge.Duplex.BackendFramer.Payload.{
  drop_stale-IsIdle, bytes_out, chunk_out, resting, resting_lem,
}
use prisma_pglite_bridge.Duplex.BackendFramer.Message.{
  feed_row_stuck, feed_checked, feed_drop, feed_rfq_message, feed_row, feed_other,
}
use prisma_pglite_bridge.Duplex.BackendFramer.Progress.{
  pend, Passes, output-flush, passthrough_after-none, Progress, split_at, length-subarray, Steps,
}

pub finish_held :
    (f : Framer) (held : Bytes)
    → IsIdle f
    → finish_message (record f { held_rfq = held })
      ≡ record f { held_rfq = if f.suppress_intermediate then held else [] }
finish_held f held v = ground arith

checked-ok :
    (n : ℕ) (r : Framer × List Event) {x : Framer × Output}
    → (check_length n r >>= refuse_stuck) ≡ ok x
    → (ltb n 4 ≡ false) × (ltb max_message_length n ≡ false)
checked-ok n r e = elim (Bool-cases (ltb n 4)) [
  | inl z ↦ absurd (cc (rw z at e))
  | inr z ↦ elim (Bool-cases (ltb max_message_length n)) [
    | inl y ↦ absurd (cc (rw (z, y) at e))
    | inr y ↦ (z, y)
  ]
]

module _ (bytes : Bytes) (c : Cursor) (v : IsIdle c.framer) (more : c.offset < length bytes)
    (p : Passes c.passthrough c.offset c.framer) where
  abbrev kind : ℕ
  kind = byte_at bytes c.offset

  step_start : step bytes c ≡ start_step bytes c
  unfolding step
  step_start = ap (λ t. step_at t bytes c) v.idle

  -- A round that flushes the slice so far.
  abbrev flushed : Framer → ℕ → List Event → Cursor
  flushed g n events = record {
    framer = g;
    offset = c.offset + n;
    passthrough = none;
    events = c.events ++ (flush_passthrough bytes c.passthrough c.offset ++ events);
  }

  flushed-Progress :
      (g : Framer) (n : ℕ) (events : List Event)
      → 0 < n
      → c.offset + n ≤ length bytes
      → feed_all c.framer (subarray bytes c.offset (c.offset + n)) ≡ ok (g, output events)
      → Progress bytes c (flushed g n events)
  flushed-Progress g n events positive fits e = record {
    part = subarray bytes c.offset (c.offset + n);
    seen = output events;
    split = split_at c.offset n bytes;
    reads = e;
    shown =
        out_silent (output (flushed g n events).events)
        ∙ output-append c.events (flush_passthrough bytes c.passthrough c.offset ++ events)
        ∙ ap (λ o. output c.events +out o)
            (output-append (flush_passthrough bytes c.passthrough c.offset) events
              ∙ ap (λ o. o +out output events) (output-flush bytes c.passthrough c.offset))
        ∙ sym (out_assoc (output c.events) (pend bytes c.passthrough c.offset) (output events));
    moves = omega arith;
    inside = fits;
    passes = tt;
  }

  -- A message whose header or payload goes on in a later chunk.
  begin_message_lem : begin_message bytes c ≡ flushed (begin c.framer kind) 1 []
  unfolding begin_message
  begin_message_lem = rw (
    drop_stale-IsIdle c.framer v,
    passthrough_after-none c.passthrough c.offset c.framer p,
    append-nil,
  )

  one_byte : subarray bytes c.offset (c.offset + 1) ≡ kind ∷ []
  one_byte =
      let e : c.offset + 1 - c.offset ≡ 1 = omega arith in rw (e, drop-byte_at c.offset bytes more)

  begin-Progress : Progress bytes c (begin_message bytes c)
  begin-Progress = subst (Progress bytes c) (sym begin_message_lem) (
      flushed-Progress (begin c.framer kind) 1 [] (omega arith) (omega arith) (
        ap (feed_all c.framer) one_byte
        ∙ feed_all_one c.framer kind
        ∙ feed_idle c.framer kind v.idle))

  -- The four bytes behind the type.
  abbrev head : Bytes
  head = subarray bytes (c.offset + 1) (c.offset + 1 + 4)

  length-head : c.offset + 5 ≤ length bytes → length head ≡ 4
  length-head fits = length-subarray (c.offset + 1) 4 bytes (omega arith)

  u32_at-head : c.offset + 5 ≤ length bytes → u32_at head 0 ≡ u32_at bytes (c.offset + 1)
  u32_at-head fits =
      sym (u32_at-append 0 head (drop (c.offset + 1 + 4) bytes) (omega (arith, length-head fits)))
      ∙ ap (λ xs. u32_at xs 0) (sym (split_at (c.offset + 1) 4 bytes))
      ∙ u32_at-drop (c.offset + 1) 0 bytes
      ∙ ap (u32_at bytes) (omega arith)

  -- A message that lies whole in the chunk.
  module _ (n : ℕ) (fits : c.offset + (1 + n) ≤ length bytes) (hn : u32_at bytes (c.offset + 1) ≡ n)
      (lo : ltb n 4 ≡ false) (hi : ltb max_message_length n ≡ false) where
    abbrev payload : Bytes
    payload = subarray bytes (c.offset + 1 + 4) (c.offset + 1 + 4 + (n - 4))

    abbrev frame : Bytes
    frame = subarray bytes c.offset (c.offset + (1 + n))

    h4 : length head ≡ 4
    h4 = length-head (omega (arith, ltb→ge n 4 lo))

    hp : length payload ≡ n - 4
    hp = length-subarray (c.offset + 1 + 4) (n - 4) bytes (omega (arith, ltb→ge n 4 lo))

    head_word : u32_at head 0 ≡ n
    head_word = u32_at-head (omega (arith, ltb→ge n 4 lo)) ∙ hn

    frame_eq : frame ≡ kind ∷ (head ++ payload)
    frame_eq =
        let e : c.offset + (1 + n) - c.offset ≡ suc n = omega arith in
        let e4 : c.offset + 1 + 4 - (c.offset + 1) ≡ 4 = omega arith in
        let en : c.offset + 1 + 4 + (n - 4) - (c.offset + 1 + 4) ≡ n - 4 = omega arith in
        rw (e, drop-byte_at c.offset bytes more, e4, en)
          (ap (◌∷◌ kind) (
            take-take-drop 4 n (drop (c.offset + 1) bytes) (ltb→ge n 4 lo)
            ∙ ap (λ xs. take 4 (drop (c.offset + 1) bytes) ++ take (n - 4) xs)
                (drop-drop 4 (c.offset + 1) bytes)))

    reads_as :
        {g : Framer} {o : Output}
        → feed_all c.framer (kind ∷ (head ++ payload)) ≡ ok (g, o)
        → feed_all c.framer frame ≡ ok (g, o)
    reads_as e = ap (feed_all c.framer) frame_eq ∙ e

    abbrev unheld : Framer
    unheld = record c.framer { held_rfq = [] }

    stale : drop_stale_held c.framer ≡ unheld
    stale = drop_stale-IsIdle c.framer v

    emptied : passthrough_after c.passthrough c.offset ≡ none
    emptied = passthrough_after-none c.passthrough c.offset c.framer p

    whole_drop_eq :
        (kind == copy_in_response && c.framer.drop_next_copy_in) ≡ true
        → whole_message bytes c kind n
          ≡ flushed (record unheld { drop_next_copy_in = false }) (1 + n) []
    unfolding whole_message
    whole_drop_eq d =
        let no_error : (kind == error_response) ≡ false = ground arith in
        rw (stale, d, no_error, emptied, append-nil)

    whole_drop :
        (kind == copy_in_response && c.framer.drop_next_copy_in) ≡ true
        → Progress bytes c (whole_message bytes c kind n)
    whole_drop d = subst (Progress bytes c) (sym (whole_drop_eq d)) (
        flushed-Progress (record unheld { drop_next_copy_in = false }) (1 + n) [] (omega arith) fits
          (reads_as (
            feed_drop c.framer kind n head payload v h4 head_word lo hi hp d
            ∙ ap (λ g. ok (g, silent)) (resting_lem c.framer false [] v))))

    abbrev rfq_events : Bytes → List Event
    rfq_events held =
        ready (byte_at held 5) ∷ (if c.framer.suppress_intermediate then [] else chunk held ∷ [])

    abbrev rfq_framer : Bytes → Framer
    rfq_framer held = record c.framer {
      held_rfq = if c.framer.suppress_intermediate then held else [];
    }

    status_lem : n ≡ 5 → byte_at bytes (c.offset + 5) ≡ byte_at frame 5
    status_lem e =
        sym (get_or-drop c.offset 5 bytes 0)
        ∙ sym (get_or-take (c.offset + (1 + n) - c.offset) 5 (drop c.offset bytes) 0 (omega arith))

    whole_rfq_eq :
        (kind == copy_in_response && c.framer.drop_next_copy_in) ≡ false
        → (kind == ready_for_query && n == 5) ≡ true
        → whole_message bytes c kind n ≡ flushed (rfq_framer frame) (1 + n) (rfq_events frame)
    unfolding whole_message
    whole_rfq_eq d z =
        let no_error : (kind == error_response) ≡ false = ground arith in
        let five : n ≡ 5 = ground arith in
        let six : c.offset + 6 ≡ c.offset + (1 + n) = omega arith in
        rw (stale, d, z, no_error, emptied, six, status_lem five)

    whole_rfq :
        (kind == copy_in_response && c.framer.drop_next_copy_in) ≡ false
        → (kind == ready_for_query && n == 5) ≡ true
        → Progress bytes c (whole_message bytes c kind n)
    whole_rfq d z = subst (Progress bytes c) (sym (whole_rfq_eq d z)) (
        flushed-Progress (rfq_framer frame) (1 + n) (rfq_events frame) (omega arith) fits (
          reads_as (
            feed_rfq_message c.framer kind n head payload v h4 head_word lo hi hp z
            ∙ ap (λ xs. observed (finish_ready_for_query (record c.framer { held_rfq = xs })))
                (sym frame_eq)
            ∙ ap (λ g. ok (g, output (rfq_events frame))) (finish_held c.framer frame v))))

    whole_row_eq :
        (kind == row_description && c.framer.rewrite_oids) ≡ true
        → row_description_needs_rewrite bytes c.offset (c.offset + (1 + n)) ≡ true
        → whole_message bytes c kind n
          ≡ flushed unheld (1 + n) (chunk (rewrite_row_description_in_place frame) ∷ [])
    unfolding whole_message
    whole_row_eq t w =
        let no_error : (kind == error_response) ≡ false = ground arith in
        let no_copy : (kind == copy_in_response && c.framer.drop_next_copy_in) ≡ false =
          ground arith in
        let no_rfq : (kind == ready_for_query && n == 5) ≡ false = ground arith in
        let both : (kind == row_description
              && c.framer.rewrite_oids
              && row_description_needs_rewrite bytes c.offset (c.offset + (1 + n)))
            ≡ true =
          ground arith in
        rw (stale, no_copy, no_rfq, both, no_error, emptied)

    whole_row :
        (kind == row_description && c.framer.rewrite_oids) ≡ true
        → row_description_needs_rewrite bytes c.offset (c.offset + (1 + n)) ≡ true
        → (n - 4 == 0) ≡ false
        → Progress bytes c (whole_message bytes c kind n)
    whole_row t w z = subst (Progress bytes c) (sym (whole_row_eq t w)) (
        flushed-Progress unheld (1 + n) (chunk (rewrite_row_description_in_place frame) ∷ [])
          (omega arith) fits
          (reads_as (
            feed_row c.framer kind n head payload v h4 head_word lo hi hp t z
            ∙ ap
                (λ xs. ok (
                  resting c.framer c.framer.drop_next_copy_in [],
                  output (chunk (rewrite_row_description_in_place xs) ∷ []),
                ))
                (sym frame_eq)
            ∙ ap (λ g. ok (g, output (chunk (rewrite_row_description_in_place frame) ∷ [])))
                (resting_lem c.framer c.framer.drop_next_copy_in [] v))))

    -- The slice so far is taken on.
    abbrev slice_start : Option ℕ → Option ℕ
    slice_start none = some c.offset
    slice_start (some start) = some start

    abbrev sliced : Cursor
    sliced = record {
      framer = unheld;
      offset = c.offset + (1 + n);
      passthrough = slice_start c.passthrough;
      events = c.events ++ failed kind;
    }

    failed_commutes :
        (xs : Bytes)
        → output (failed kind) +out bytes_out xs ≡ bytes_out xs +out output (failed kind)
    failed_commutes xs = elim (Bool-cases (kind == error_response)) [
      | inl e ↦ rw (e, append-nil xs)
      | inr e ↦ rw (e, append-nil xs)
    ]

    pend_commutes :
        (q : Option ℕ)
        → output (failed kind) +out pend bytes q c.offset
          ≡ pend bytes q c.offset +out output (failed kind)
    pend_commutes none = out_silent (output (failed kind)) ∙ sym (silent_out (output (failed kind)))
    pend_commutes (some start) = failed_commutes (subarray bytes start c.offset)

    slice_grows :
        (q : Option ℕ)
        → Passes q c.offset c.framer
        → pend bytes (slice_start q) (c.offset + (1 + n))
          ≡ pend bytes q c.offset +out bytes_out frame
    slice_grows none w = refl
    slice_grows (some start) w = ap bytes_out (
        subarray_split bytes start c.offset (c.offset + (1 + n)) (omega (arith, w.0)) (omega arith))

    slice-Passes :
        (q : Option ℕ)
        → Passes q c.offset c.framer
        → Passes (slice_start q) (c.offset + (1 + n)) unheld
    slice-Passes none w = (omega arith, v.idle)
    slice-Passes (some start) w = (omega (arith, w.0), w.1)

    sliced-Progress :
        feed_all c.framer frame ≡ ok (unheld, output (failed kind) +out output (chunk frame ∷ []))
        → Progress bytes c sliced
    sliced-Progress e = record {
      part = frame;
      seen = output (failed kind) +out output (chunk frame ∷ []);
      split = split_at c.offset (1 + n) bytes;
      reads = e;
      shown =
          let a = output c.events in
          let b = output (failed kind) in
          let s = pend bytes c.passthrough c.offset in
          ap (λ o. o +out pend bytes sliced.passthrough sliced.offset)
            (output-append c.events (failed kind))
          ∙ ap (λ o. a +out b +out o) (slice_grows c.passthrough p)
          ∙ out_assoc a b (s +out bytes_out frame)
          ∙ ap (λ o. a +out o)
              (sym (out_assoc b s (bytes_out frame))
                ∙ ap (λ o. o +out bytes_out frame) (pend_commutes c.passthrough)
                ∙ out_assoc s b (bytes_out frame)
                ∙ ap (λ o. s +out (b +out o)) (sym (chunk_out frame)))
          ∙ sym (out_assoc a s (b +out output (chunk frame ∷ [])));
      moves = omega arith;
      inside = fits;
      passes = slice-Passes c.passthrough p;
    }

    whole_other_eq :
        (kind == copy_in_response && c.framer.drop_next_copy_in) ≡ false
        → (kind == ready_for_query && n == 5) ≡ false
        → (kind == row_description
            && c.framer.rewrite_oids
            && row_description_needs_rewrite bytes c.offset (c.offset + (1 + n)))
          ≡ false
        → whole_message bytes c kind n ≡ sliced
    unfolding whole_message
    whole_other_eq d z t = rw (stale, d, z, t)

    whole_other :
        (kind == copy_in_response && c.framer.drop_next_copy_in) ≡ false
        → (kind == ready_for_query && n == 5) ≡ false
        → (kind == row_description && c.framer.rewrite_oids) ≡ false
        → Progress bytes c (whole_message bytes c kind n)
    whole_other d z t = subst (Progress bytes c) (sym (whole_other_eq d z (ground arith))) (
        sliced-Progress (
          reads_as (
            feed_other c.framer kind n head payload v h4 head_word lo hi hp d z t
            ∙ ap
                (λ xs. ok (
                  resting c.framer c.framer.drop_next_copy_in [],
                  output (failed kind) +out output (chunk xs ∷ []),
                ))
                (sym frame_eq)
            ∙ ap (λ g. ok (g, output (failed kind) +out output (chunk frame ∷ [])))
                (resting_lem c.framer c.framer.drop_next_copy_in [] v))))

    -- A row description that needs no rewrite is passed on as it is.
    frame_unchanged :
        row_description_needs_rewrite bytes c.offset (c.offset + (1 + n)) ≡ false
        → rewrite_row_description_in_place frame ≡ frame
    frame_unchanged w =
        needs_rewrite_false frame
          (sym (needs_rewrite-subarray bytes c.offset (c.offset + (1 + n)) (omega arith) fits) ∙ w)

    whole_row_kept :
        (kind == row_description && c.framer.rewrite_oids) ≡ true
        → row_description_needs_rewrite bytes c.offset (c.offset + (1 + n)) ≡ false
        → (n - 4 == 0) ≡ false
        → Progress bytes c (whole_message bytes c kind n)
    whole_row_kept t w z =
        let d : (kind == copy_in_response && c.framer.drop_next_copy_in) ≡ false = ground arith in
        let q : (kind == ready_for_query && n == 5) ≡ false = ground arith in
        let no_error : failed kind ≡ [] = ground arith in
        subst (Progress bytes c) (sym (whole_other_eq d q (ground arith))) (
          sliced-Progress (
            reads_as (
              feed_row c.framer kind n head payload v h4 head_word lo hi hp t z
              ∙ ap
                  (λ xs. ok (
                    resting c.framer c.framer.drop_next_copy_in [],
                    output (chunk (rewrite_row_description_in_place xs) ∷ []),
                  ))
                  (sym frame_eq)
              ∙ ap
                  (λ xs.
                    ok (resting c.framer c.framer.drop_next_copy_in [], output (chunk xs ∷ [])))
                  (frame_unchanged w)
              ∙ ap (λ g. ok (g, output (chunk frame ∷ [])))
                  (resting_lem c.framer c.framer.drop_next_copy_in [] v)
              ∙ ap (λ o. ok (unheld, o))
                  (sym (silent_out (output (chunk frame ∷ [])))
                    ∙ ap (λ es. output es +out output (chunk frame ∷ [])) (sym no_error)))))

    -- A row description: rewritten, passed on as it is, or refused by the byte-wise reading.
    whole_row_description :
        (kind == row_description && c.framer.rewrite_oids) ≡ true
        → {g : Framer} {o : Output} → feed_all c.framer frame ≡ ok (g, o)
        → Progress bytes c (whole_message bytes c kind n)
    whole_row_description t e = elim (Bool-cases (n - 4 == 0)) [
      | inl z ↦ absurd (
          cc (
            sym e
            ∙ ap (feed_all c.framer) frame_eq
            ∙ feed_row_stuck c.framer kind n head payload v h4 head_word lo hi hp t z))
      | inr z ↦
          elim (Bool-cases (row_description_needs_rewrite bytes c.offset (c.offset + (1 + n)))) [
            | inl w ↦ whole_row t w z
            | inr w ↦ whole_row_kept t w z
          ]
    ]

    whole-Progress :
        {g : Framer} {o : Output}
        → feed_all c.framer frame ≡ ok (g, o)
        → Progress bytes c (whole_message bytes c kind n)
    whole-Progress e = elim (Bool-cases (kind == copy_in_response && c.framer.drop_next_copy_in)) [
      | inl d ↦ whole_drop d
      | inr d ↦ elim (Bool-cases (kind == ready_for_query && n == 5)) [
        | inl z ↦ whole_rfq d z
        | inr z ↦ elim (Bool-cases (kind == row_description && c.framer.rewrite_oids)) [
          | inl t ↦ whole_row_description t e
          | inr t ↦ whole_other d z t
        ]
      ]
    ]

  -- The length that the five bytes at hand declare passes the guards, if the reading goes on.
  header_checked :
      (n : ℕ)
      → c.offset + 5 ≤ length bytes
      → u32_at bytes (c.offset + 1) ≡ n
      → {g : Framer} {o : Output} → feed_all c.framer (drop c.offset bytes) ≡ ok (g, o)
      → (ltb n 4 ≡ false) × (ltb max_message_length n ≡ false)
  header_checked n fits hn {g} {o} e =
      let rest = drop (c.offset + 1 + 4) bytes in
      let split : drop c.offset bytes ≡ (kind ∷ head) ++ rest =
        drop-byte_at c.offset bytes more ∙ ap (◌∷◌ kind) (split_at (c.offset + 1) 4 bytes) in
      let (g1, q1, q2, first, second, sum) =
        feed_all-ok c.framer (kind ∷ head) rest (ap (feed_all c.framer) (sym split) ∙ e) in
      checked-ok n _ (
        sym (feed_checked c.framer kind n head v (length-head fits) (u32_at-head fits ∙ hn))
        ∙ first)

  pub start-Steps :
      {g : Framer} {o : Output}
      → feed_all c.framer (drop c.offset bytes) ≡ ok (g, o)
      → Steps bytes c
  unfolding start_step
  start-Steps e = elim (Bool-cases (leb 5 (length bytes - c.offset))) [
    | inr short ↦ (begin_message bytes c, step_start ∙ rw short, begin-Progress)
    | inl enough ↦
        let n = u32_at bytes (c.offset + 1) in
        let (lo, hi) =
          header_checked n (omega (arith, leb→le 5 (length bytes - c.offset) enough)) refl e in
        elim (Bool-cases (leb (1 + n) (length bytes - c.offset))) [
          | inr spans ↦
              (begin_message bytes c, step_start ∙ rw (enough, lo, hi, spans), begin-Progress)
          | inl whole ↦ (
            whole_message bytes c kind n,
            step_start ∙ rw (enough, lo, hi, whole),
            (let (g1, q1, q2, first, second, sum) =
                  feed_all-ok c.framer (subarray bytes c.offset (c.offset + (1 + n)))
                    (drop (c.offset + (1 + n)) bytes)
                    (ap (feed_all c.framer) (sym (split_at c.offset (1 + n) bytes)) ∙ e) in
                whole-Progress n (omega (arith, leb→le (1 + n) (length bytes - c.offset) whole))
                  refl lo hi first),
          )
        ]
  ]
