-- ===== src/Duplex/BackendFramer/Total.antt =====
-- src/duplex/backend-framer.ts: the rounds that the loop in `write` takes.
use prisma_pglite_bridge.Prelude.{
  ℕ, zero, suc, ◌+◌, ◌-◌, ◌*◌, ◌≤◌, ◌<◌, ltb, leb, ◌==◌, true, false, Option, none, some, min, List,
  [], ◌∷◌, ◌++◌, length, Result, ok, err, ◌>>=◌, ◌≡◌, ◌≢◌, subst, ap, ◌∙◌, sym, arith, inl, inr,
  Bool-cases, Option-cases, Result-cases, ltb→lt, if◌then◌else◌, suc-ne-zero,
}
use prisma_pglite_bridge.Duplex.Bytes.{Bytes, subarray, u32_at, byte_at}
use prisma_pglite_bridge.Duplex.Constants.{max_message_length, ready_for_query}
use prisma_pglite_bridge.Duplex.BackendFramer.{
  Framer, Event, FramerError, out_of_fuel, Cursor, begin_message, whole_message, start_step,
  inside_step, header_bytes, rfq_bytes, payload_bytes, check_length, moved, step, step_at,
  write_loop, write, header_done,
}

-- A message whose payload has been read but that has not been closed: a round closes it.
abbrev owed : Option ℕ → Bytes → ℕ → ℕ
owed none header remaining = 0
owed (some kind) header remaining =
    if ltb (length header) 4 then 0 else if remaining == 0 then 1 else 0

abbrev owes : Framer → ℕ
owes f = owed f.message_type f.header f.payload_remaining

abbrev rounds : Bytes → Cursor → ℕ
rounds bytes c = 2 * (length bytes - c.offset) + owes c.framer

owed-le : (m : Option ℕ) (h : Bytes) (r : ℕ) → owed m h r ≤ 1
owed-le none h r = omega arith
owed-le (some kind) h r = ground arith

-- A round that moves on.
rounds-moved :
    (bytes : Bytes) (c d : Cursor)
    → c.offset < length bytes
    → c.offset < d.offset
    → rounds bytes d < rounds bytes c
rounds-moved bytes c d more h =
    omega (arith, owed-le d.framer.message_type d.framer.header d.framer.payload_remaining)

-- What a round may give: a cursor with fewer rounds left, or an error of the stream.
abbrev Falls : Bytes → Cursor → Result FramerError Cursor → Type 0
Falls bytes c (ok d) = rounds bytes d < rounds bytes c
Falls bytes c (err e) = e ≢ out_of_fuel

module _ (bytes : Bytes) (c : Cursor) (more : c.offset < length bytes) where
  offset-begin : c.offset < (begin_message bytes c).offset
  unfolding begin_message
  offset-begin = omega arith

  offset-whole : (kind n : ℕ) → c.offset < (whole_message bytes c kind n).offset
  unfolding whole_message
  offset-whole kind n = ground arith

  check-Falls : (n : ℕ) (d : Cursor) → c.offset < d.offset → Falls bytes c (check_length n d)
  check-Falls n d h = elim (Bool-cases (ltb n 4)) [
    | inl z ↦ rw z (λ e. cc)
    | inr z ↦ elim (Bool-cases (ltb max_message_length n)) [
      | inl y ↦ rw (z, y) (λ e. cc)
      | inr y ↦ rw (z, y) (rounds-moved bytes c d more h)
    ]
  ]

  start-Falls : Falls bytes c (start_step bytes c)
  unfolding start_step
  start-Falls = elim (Bool-cases (leb 5 (length bytes - c.offset))) [
    | inr z ↦ rw z (rounds-moved bytes c (begin_message bytes c) more offset-begin)
    | inl z ↦ rw z (
        check-Falls (u32_at bytes (c.offset + 1)) _
          (elim (Bool-cases (leb (1 + u32_at bytes (c.offset + 1)) (length bytes - c.offset))) [
            | inl y ↦ rw y (offset-whole (byte_at bytes c.offset) (u32_at bytes (c.offset + 1)))
            | inr y ↦ rw y offset-begin
          ]))
  ]

  -- Inside a message of type `kind`.
  module _ (kind : ℕ) (m : c.framer.message_type ≡ some kind) where
    abbrev available : ℕ
    available = length bytes - c.offset

    abbrev with_part : Bytes → Framer
    with_part part = record c.framer {
      header = c.framer.header ++ part;
      held_rfq = if kind == ready_for_query then c.framer.held_rfq ++ part else c.framer.held_rfq;
    }

    header-Falls :
        (n : ℕ) (part : Bytes)
        → 0 < n
        → Falls bytes c (header_bytes c.framer kind part >>= λ r. ok (moved c n r))
    unfolding header_bytes
    header-Falls n part h = elim (Bool-cases (ltb (length (c.framer.header ++ part)) 4)) [
      | inl z ↦ rw z (rounds-moved bytes c (moved c n (with_part part, [])) more (omega arith))
      | inr z ↦ elim (Bool-cases (ltb (u32_at (c.framer.header ++ part) 0) 4)) [
        | inl y ↦ rw (z, y) (λ e. cc)
        | inr y ↦ elim (Bool-cases (ltb max_message_length (u32_at (c.framer.header ++ part) 0))) [
          | inl x ↦ rw (z, y, x) (λ e. cc)
          | inr x ↦
              rw (z, y, x)
                (rounds-moved bytes c
                  (moved c n
                    (header_done (with_part part) kind (u32_at (c.framer.header ++ part) 0)))
                  more (omega arith))
        ]
      ]
    ]

    module _ (full : ltb (length c.framer.header) 4 ≡ false) where
      owes_one : c.framer.payload_remaining ≡ 0 → owes c.framer ≡ 1
      owes_one z =
          ap (λ t. owed t c.framer.header c.framer.payload_remaining) m
          ∙ ap (λ r. owed (some kind) c.framer.header r) z
          ∙ rw full

      -- A round with nothing left to read closes the message.
      rounds-closed :
          (r : Framer × List Event)
          → c.framer.payload_remaining ≡ 0
          → r.0.message_type ≡ none
          → rounds bytes (moved c (min c.framer.payload_remaining available) r) < rounds bytes c
      rounds-closed r z e = let k : owes r.0 ≡ 0 = rw e in omega (arith, owes_one z, k)

      rfq_closes :
          (part : Bytes)
          → c.framer.payload_remaining ≡ 0
          → (rfq_bytes c.framer part).0.message_type ≡ none
      unfolding rfq_bytes
      rfq_closes part z =
          let e : (c.framer.payload_remaining - length part == 0) ≡ true = ground arith in rw e

      payload_closes :
          (part : Bytes)
          → c.framer.payload_remaining ≡ 0
          → (payload_bytes c.framer part).0.message_type ≡ none
      unfolding payload_bytes
      payload_closes part z =
          let e : (c.framer.payload_remaining - length part == 0) ≡ true = ground arith in rw e

      closing-Falls :
          (r : Framer × List Event)
          → (c.framer.payload_remaining ≡ 0 → r.0.message_type ≡ none)
          → Falls bytes c (ok (moved c (min c.framer.payload_remaining available) r))
      closing-Falls r closes = elim (Bool-cases (c.framer.payload_remaining == 0)) [
        | inl z ↦ rounds-closed r (ground arith) (closes (ground arith))
        | inr z ↦
            rounds-moved bytes c (moved c (min c.framer.payload_remaining available) r) more
              (ground arith)
      ]

    abbrev read_now : Bytes
    read_now = subarray bytes c.offset (c.offset + min c.framer.payload_remaining available)

    abbrev inside_moved : Framer × List Event → Result FramerError Cursor
    inside_moved r = ok (moved c (min c.framer.payload_remaining available) r)

    inside_rfq :
        ltb (length c.framer.header) 4 ≡ false
        → c.framer.rfq_frame ≡ true
        → inside_step bytes c kind ≡ inside_moved (rfq_bytes c.framer read_now)
    unfolding inside_step
    inside_rfq z r = rw (z, r)

    inside_payload :
        ltb (length c.framer.header) 4 ≡ false
        → c.framer.rfq_frame ≡ false
        → inside_step bytes c kind ≡ inside_moved (payload_bytes c.framer read_now)
    unfolding inside_step
    inside_payload z r = rw (z, r)

    inside-Falls : Falls bytes c (inside_step bytes c kind)
    unfolding inside_step
    inside-Falls = elim (Bool-cases (ltb (length c.framer.header) 4)) [
      | inl z ↦ rw z (header-Falls _ _ (ground arith))
      | inr z ↦ elim (Bool-cases c.framer.rfq_frame) [
        | inl r ↦
            subst (Falls bytes c) (sym (inside_rfq z r))
              (closing-Falls z (rfq_bytes c.framer read_now) (rfq_closes z read_now))
        | inr r ↦
            subst (Falls bytes c) (sym (inside_payload z r))
              (closing-Falls z (payload_bytes c.framer read_now) (payload_closes z read_now))
      ]
    ]

  step-Falls : Falls bytes c (step bytes c)
  unfolding step
  step-Falls = elim (Option-cases c.framer.message_type) [
    | inl m ↦ subst (λ t. Falls bytes c (step_at t bytes c)) (sym m) start-Falls
    | inr (kind, m) ↦ subst (λ t. Falls bytes c (step_at t bytes c)) (sym m) (inside-Falls kind m)
  ]

write_loop_total :
    (fuel : ℕ) (bytes : Bytes) (c : Cursor)
    → rounds bytes c < fuel
    → write_loop fuel bytes c ≢ err out_of_fuel
unfolding write_loop
write_loop_total zero bytes c h = absurd (omega arith)
write_loop_total (suc fuel) bytes c h = elim (Bool-cases (ltb c.offset (length bytes))) [
  | inr over ↦ rw (over, write_loop) (λ e. cc)
  | inl more ↦ elim (Result-cases (step bytes c)) [
    | inl (d, s) ↦
        let falls =
          subst (Falls bytes c) s (step-Falls bytes c (ltb→lt c.offset (length bytes) more)) in
        rw (more, write_loop) (rw s (write_loop_total fuel bytes d (omega (arith, falls))))
    | inr (e, s) ↦
        let ne =
          subst (Falls bytes c) s (step-Falls bytes c (ltb→lt c.offset (length bytes) more)) in
        rw (more, write_loop) (rw s (λ q. ne (cc q)))
  ]
]

-- `write` returns or throws an error of the stream: from any state and on any chunk its loop ends
-- within two rounds for each byte and two more, also where a round moves no byte.
pub write_total : (f : Framer) (bytes : Bytes) → write f bytes ≢ err out_of_fuel
unfolding write
write_total f [] = λ e. cc
write_total f (b ∷ bs) = rw (suc-ne-zero (length bs)) (
    write_loop_total (2 * suc (length bs) + 2) (b ∷ bs) _
      (omega (arith, owed-le f.message_type f.header f.payload_remaining)))
