-- ===== src/Duplex/BackendFramer/Invariant.antt =====
-- src/duplex/backend-framer.ts: what holds of the framer between two bytes of the stream.
use prisma_pglite_bridge.Prelude.{
  ℕ, ◌+◌, ◌-◌, ◌<◌, ltb, ◌==◌, ◌&&◌, if◌then◌else◌, Bool, true, false, none, some, List, [], ◌∷◌,
  ◌++◌, length, ok, err, ◌>>=◌, ◌≡◌, ◌≢◌, arith, ◌⊎◌, inl, inr, Bool-cases, length-append, ltb→ge,
  subst, >>=-eq-ok,
}
use prisma_pglite_bridge.Duplex.Bytes.{Bytes, u32_at}
use prisma_pglite_bridge.Duplex.Constants.{
  max_message_length, error_response, ready_for_query, row_description,
}
use prisma_pglite_bridge.Duplex.BackendFramer.{
  Framer, Event, chunk, error_seen, header_bytes, rfq_bytes, payload_bytes, header_done,
  check_length, finish_message, new_framer, reset,
}
use prisma_pglite_bridge.Duplex.BackendFramer.Steps.{
  Output, begin, is_stuck, refuse_stuck, after, ◌+out◌, feed_idle, feed_header, feed_rfq,
  feed_payload, feed, feed_all, Reading,
}

-- Between two messages. Only a suppressing framer holds a ReadyForQuery, and a whole one.
pub record IsIdle (f : Framer) : Type 0 where
  pub idle : f.message_type ≡ none
  pub no_header : f.header ≡ []
  pub no_payload : f.payload_remaining ≡ 0
  pub no_rfq : f.rfq_frame ≡ false
  pub no_row : f.row_desc ≡ none
  pub no_drop : f.dropping ≡ false
  pub held : (f.held_rfq ≡ []) ⊎ ((f.suppress_intermediate ≡ true) × (length f.held_rfq ≡ 6))

-- Inside a header.
pub record InHeader (f : Framer) (kind : ℕ) : Type 0 where
  pub kind_is : f.message_type ≡ some kind
  pub short : length f.header < 4
  pub no_row : f.row_desc ≡ none
  pub held :
      ((kind ≡ ready_for_query) × (length f.held_rfq ≡ length f.header + 1))
      ⊎ ((kind ≢ ready_for_query) × (f.held_rfq ≡ []))

-- Inside a payload, with some of it to come.
pub record InPayload (f : Framer) (kind : ℕ) : Type 0 where
  pub kind_is : f.message_type ≡ some kind
  pub full : length f.header ≡ 4
  pub more : 0 < f.payload_remaining
  pub held :
      ((f.rfq_frame ≡ true) × (f.row_desc ≡ none) × (length f.held_rfq + f.payload_remaining ≡ 6))
      ⊎ ((f.rfq_frame ≡ false) × (f.held_rfq ≡ []))

pub data IsSound (f : Framer) : Type 0 where
  idle : IsIdle f → IsSound f
  in_header : (kind : ℕ) → InHeader f kind → IsSound f
  in_payload : (kind : ℕ) → InPayload f kind → IsSound f

pub new_framer-IsIdle : (suppress rewrite : Bool) → IsIdle (new_framer suppress rewrite)
unfolding new_framer
new_framer-IsIdle suppress rewrite = ground arith

pub reset-IsIdle : (f : Framer) (suppress drop : Bool) → IsIdle (reset f suppress drop)
unfolding reset
reset-IsIdle f suppress drop = ground arith

begin-InHeader : (f : Framer) (b : ℕ) → IsIdle f → InHeader (begin f b) b
begin-InHeader f b v = ground arith

-- What a result keeps.
abbrev Keeps : Reading → Type 0
Keeps (ok (g, o)) = IsSound g
Keeps (err e) = Unit

-- The branches of `header_done`.
abbrev pub failed : ℕ → List Event
failed kind = if kind == error_response then error_seen ∷ [] else []

-- The header is read, and no ReadyForQuery is held.
abbrev pub opened : Framer → ℕ → Framer
opened f n = record f { payload_remaining = n - 4; rfq_frame = false; held_rfq = [] }

abbrev pub opened_next : Framer → ℕ → Framer
opened_next f n = if n - 4 == 0 then finish_message (opened f n) else opened f n

module _ (f : Framer) (kind n : ℕ) where
  pub header_done_rfq :
      (kind == ready_for_query && n == 5) ≡ true
      → header_done f kind n
        ≡ (record f { payload_remaining = n - 4; rfq_frame = true }, failed kind)
  unfolding header_done
  header_done_rfq z = rw z

  module _ (z : (kind == ready_for_query && n == 5) ≡ false) where
    pub header_done_drop : f.dropping ≡ true → header_done f kind n ≡ (opened_next f n, failed kind)
    unfolding header_done
    header_done_drop d = rw z (simp d)

    pub header_done_row :
        f.dropping ≡ false
        → (kind == row_description && f.rewrite_oids) ≡ true
        → header_done f kind n
          ≡ (record (opened f n) { row_desc = some (row_description ∷ f.header) }, failed kind)
    unfolding header_done
    header_done_row d t = rw z (simp d (rw t))

    pub header_done_other :
        f.dropping ≡ false
        → (kind == row_description && f.rewrite_oids) ≡ false
        → header_done f kind n ≡ (opened_next f n, failed kind ++ chunk (kind ∷ f.header) ∷ [])
    unfolding header_done
    header_done_other d t = rw z (simp d (rw t))

Keeps-refuse : (g : Framer) (events : List Event) → IsSound g → Keeps (refuse_stuck (g, events))
Keeps-refuse g events v = elim (Bool-cases (is_stuck g)) [ inl e ↦ rw e tt | inr e ↦ rw e v ]

-- A header that is complete leads to a payload, to the next message, or to a refusal.
module _ (f : Framer) (kind n : ℕ) (m : f.message_type ≡ some kind) (l : length f.header ≡ 4)
    (r : f.row_desc ≡ none) where
  opened-IsSound : IsSound (opened_next f n)
  opened-IsSound = elim (Bool-cases (n - 4 == 0)) [
    | inl e ↦ rw e (idle (ground arith))
    | inr e ↦ rw e (in_payload kind (ground arith))
  ]

  row_sound : Keeps (
      refuse_stuck
        (record (opened f n) { row_desc = some (row_description ∷ f.header) }, failed kind))
  row_sound = elim (Bool-cases (n - 4 == 0)) [
    | inl e ↦ rw e tt
    | inr e ↦ rw e (in_payload kind (ground arith))
  ]

  header_done-Keeps :
      ((kind ≡ ready_for_query) × (length f.held_rfq ≡ 5))
        ⊎ ((kind ≢ ready_for_query) × (f.held_rfq ≡ []))
      → Keeps (refuse_stuck (header_done f kind n))
  header_done-Keeps h = elim (Bool-cases (kind == ready_for_query && n == 5)) [
    | inl z ↦ rw (header_done_rfq f kind n z, r) (in_payload kind (ground arith))
    | inr z ↦ elim (Bool-cases f.dropping) [
      | inl d ↦ rw (header_done_drop f kind n z d) (Keeps-refuse _ (failed kind) opened-IsSound)
      | inr d ↦ elim (Bool-cases (kind == row_description && f.rewrite_oids)) [
        | inl t ↦ rw (header_done_row f kind n z d t) row_sound
        | inr t ↦
            rw (header_done_other f kind n z d t)
              (Keeps-refuse _ (failed kind ++ chunk (kind ∷ f.header) ∷ []) opened-IsSound)
      ]
    ]
  ]

rfq_bytes-IsSound :
    (f : Framer) (kind b : ℕ)
    → InPayload f kind
    → f.rfq_frame ≡ true
    → IsSound (rfq_bytes f (b ∷ [])).0
unfolding rfq_bytes
rfq_bytes-IsSound f kind b v r = elim (Bool-cases (f.payload_remaining - 1 == 0)) [
  | inl e ↦ rw e (idle (ground (arith, length-append f.held_rfq (b ∷ []))))
  | inr e ↦ rw e (in_payload kind (ground (arith, length-append f.held_rfq (b ∷ []))))
]

payload_bytes-IsSound :
    (f : Framer) (kind b : ℕ)
    → InPayload f kind
    → f.rfq_frame ≡ false
    → IsSound (payload_bytes f (b ∷ [])).0
unfolding payload_bytes
payload_bytes-IsSound f kind b v r = elim (Bool-cases (f.payload_remaining - 1 == 0)) [
  | inl e ↦ rw e (idle (ground arith))
  | inr e ↦ rw e (in_payload kind (ground arith))
]

Keeps-check :
    (n : ℕ) (r : Framer × List Event)
    → Keeps (refuse_stuck r)
    → Keeps (check_length n r >>= refuse_stuck)
Keeps-check n r v = elim (Bool-cases (ltb n 4)) [
  | inl e ↦ rw e tt
  | inr e ↦ rw e (elim (Bool-cases (ltb max_message_length n)) [ inl d ↦ rw d tt | inr d ↦ rw d v ])
]

header_bytes-Keeps :
    (f : Framer) (kind b : ℕ)
    → InHeader f kind
    → Keeps (header_bytes f kind (b ∷ []) >>= refuse_stuck)
unfolding header_bytes
header_bytes-Keeps f kind b v =
    let g : Framer = record f {
      header = f.header ++ b ∷ [];
      held_rfq = if kind == ready_for_query then f.held_rfq ++ b ∷ [] else f.held_rfq;
    } in
    elim (Bool-cases (ltb (length (f.header ++ b ∷ [])) 4)) [
      | inl e ↦ rw e (
          Keeps-refuse g [] (
            in_header kind
              (ground (arith, length-append f.header (b ∷ []), length-append f.held_rfq (b ∷ [])))))
      | inr e ↦ rw e (
          Keeps-check (u32_at (f.header ++ b ∷ []) 0) _ (
            header_done-Keeps g kind (u32_at (f.header ++ b ∷ []) 0) v.kind_is
              (omega (
                arith,
                v.short,
                length-append f.header (b ∷ []),
                ltb→ge (length (f.header ++ b ∷ [])) 4 e,
              ))
              v.no_row
              (ground (arith, length-append f.header (b ∷ []), length-append f.held_rfq (b ∷ [])))))
    ]

feed-Keeps : (f : Framer) (b : ℕ) → IsSound f → Keeps (feed f b)
feed-Keeps f b (idle v) = rw (feed_idle f b v.idle) (in_header b (begin-InHeader f b v))
feed-Keeps f b (in_header kind v) =
    rw (feed_header f b kind v.kind_is v.short) (header_bytes-Keeps f kind b v)
feed-Keeps f b (in_payload kind v) = elim (Bool-cases f.rfq_frame) [
  | inl e ↦ rw (feed_rfq f b kind v.kind_is v.full e) (rfq_bytes-IsSound f kind b v e)
  | inr e ↦ rw (feed_payload f b kind v.kind_is v.full e) (payload_bytes-IsSound f kind b v e)
]

pub feed-IsSound :
    (f : Framer) (b : ℕ) {g : Framer} {o : Output} → IsSound f → feed f b ≡ ok (g, o) → IsSound g
feed-IsSound f b v h = subst Keeps h (feed-Keeps f b v)

pub feed_all-IsSound :
    (f : Framer) (bs : Bytes) {g : Framer} {o : Output}
    → IsSound f
    → feed_all f bs ≡ ok (g, o)
    → IsSound g
unfolding feed_all
feed_all-IsSound f [] v h = subst Keeps h v
feed_all-IsSound f (b ∷ bs) v h =
    let ((g, o), first, rest) = >>=-eq-ok (feed f b) _ h in
    let ((g', o'), second, last) = >>=-eq-ok (feed_all g bs) (after o) rest in
    subst Keeps {x = ok (g', o +out o')} last
      (feed_all-IsSound g bs (feed-IsSound f b v first) second)
