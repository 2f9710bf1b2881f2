-- ===== src/Duplex/BackendFramer/Steps.antt =====
-- src/duplex/backend-framer.ts: the stream as the framer reads it one byte at a time.
-- `feed` is the description that `write` is held to. It has no fast path and no chunks, its output is
-- what a client can tell: the bytes, the transaction states and the number of errors. It refuses a
-- RowDescription frame with no payload, which the protocol does not have.
use native.Mathlib.Nat.{add_assoc}
use prisma_pglite_bridge.Prelude.{
  ℕ, ◌+◌, ltb, ◌==◌, ◌&&◌, if◌then◌else◌, Bool, true, false, Option, none, some, List, [], ◌∷◌,
  ◌++◌, length, Result, ok, err, ◌>>=◌, ◌≡◌, refl, arith, lt→ltb, ◌<◌, Result-cases, >>=-eq-ok, inl,
  inr, append_assoc, append-nil, ap, ◌∙◌, sym,
}
use prisma_pglite_bridge.Duplex.Bytes.{Bytes}
use prisma_pglite_bridge.Duplex.Constants.{copy_in_response, ready_for_query}
use prisma_pglite_bridge.Duplex.BackendFramer.{
  Framer, Event, chunk, error_seen, ready, FramerError, malformed_length, header_bytes, rfq_bytes,
  payload_bytes,
}

pub record Output : Type 0 where
  pub bytes : Bytes
  pub statuses : List ℕ
  pub errors : ℕ

abbrev pub silent : Output
silent = record { bytes = []; statuses = []; errors = 0 }

infixl 65 ◌+out◌
abbrev pub ◌+out◌ : Output → Output → Output
a +out b = record {
  bytes = a.bytes ++ b.bytes;
  statuses = a.statuses ++ b.statuses;
  errors = a.errors + b.errors;
}

abbrev pub output_of : Event → Output
output_of (chunk b) = record { bytes = b; statuses = []; errors = 0 }
output_of error_seen = record { bytes = []; statuses = []; errors = 1 }
output_of (ready s) = record { bytes = []; statuses = s ∷ []; errors = 0 }

abbrev pub output : List Event → Output
output [] = silent
output (e ∷ es) = output_of e +out output es

-- A new message begins with its type.
abbrev pub begin : Framer → ℕ → Framer
begin f kind =
    let dropped = kind == copy_in_response && f.drop_next_copy_in in
    record f {
      message_type = some kind;
      header = [];
      payload_remaining = 0;
      held_rfq = if kind == ready_for_query then kind ∷ [] else [];
      drop_next_copy_in = if dropped then false else f.drop_next_copy_in;
      dropping = if dropped then true else f.dropping;
    }

-- A RowDescription frame whose header announces no payload.
abbrev pub stuck_at : Option Bytes → ℕ → Bool
stuck_at none n = false
stuck_at (some buf) n = n == 0

abbrev pub is_stuck : Framer → Bool
is_stuck f = stuck_at f.row_desc f.payload_remaining

abbrev pub refuse_stuck : Framer × List Event → Result FramerError (Framer × Output)
refuse_stuck (f, events) = if is_stuck f then err (malformed_length 4) else ok (f, output events)

pub refuse_stuck-none :
    (f : Framer) (events : List Event)
    → f.row_desc ≡ none
    → refuse_stuck (f, events) ≡ ok (f, output events)
refuse_stuck-none f events r =
    ap
      (λ x.
        if stuck_at x f.payload_remaining then err (malformed_length 4) else ok (f, output events))
      r

abbrev pub observed : Framer × List Event → Result FramerError (Framer × Output)
observed (f, events) = ok (f, output events)

abbrev pub feed_inside : Framer → ℕ → ℕ → Result FramerError (Framer × Output)
feed_inside f kind b =
    if ltb (length f.header) 4
    then (header_bytes f kind (b ∷ []) >>= refuse_stuck)
    else if f.rfq_frame
    then observed (rfq_bytes f (b ∷ []))
    else observed (payload_bytes f (b ∷ []))

abbrev pub feed_at : Option ℕ → Framer → ℕ → Result FramerError (Framer × Output)
feed_at none f b = ok (begin f b, silent)
feed_at (some kind) f b = feed_inside f kind b

unfoldable pub feed : Framer → ℕ → Result FramerError (Framer × Output)
feed f b = feed_at f.message_type f b

-- The branches of `feed`.
module _ (f : Framer) (b : ℕ) where
  pub feed_idle : f.message_type ≡ none → feed f b ≡ ok (begin f b, silent)
  unfolding feed
  feed_idle m = ap (λ t. feed_at t f b) m

  module _ (kind : ℕ) (m : f.message_type ≡ some kind) where
    feed_some : feed f b ≡ feed_inside f kind b
    unfolding feed
    feed_some = ap (λ t. feed_at t f b) m

    pub feed_header :
        length f.header < 4 → feed f b ≡ (header_bytes f kind (b ∷ []) >>= refuse_stuck)
    feed_header h =
        feed_some
        ∙ ap
            (λ t.
              if t
              then (header_bytes f kind (b ∷ []) >>= refuse_stuck)
              else if f.rfq_frame
              then observed (rfq_bytes f (b ∷ []))
              else observed (payload_bytes f (b ∷ [])))
            (lt→ltb (length f.header) 4 h)

    feed_past :
        length f.header ≡ 4
        → feed f b ≡ (
            if f.rfq_frame
            then observed (rfq_bytes f (b ∷ []))
            else observed (payload_bytes f (b ∷ [])))
    feed_past h =
        feed_some
        ∙ ap
            (λ (n : ℕ).
              if ltb n 4
              then (header_bytes f kind (b ∷ []) >>= refuse_stuck)
              else if f.rfq_frame
              then observed (rfq_bytes f (b ∷ []))
              else observed (payload_bytes f (b ∷ [])))
            h

    pub feed_rfq :
        length f.header ≡ 4 → f.rfq_frame ≡ true → feed f b ≡ observed (rfq_bytes f (b ∷ []))
    feed_rfq h r =
        feed_past h
        ∙ ap
            (λ t.
              if t then observed (rfq_bytes f (b ∷ [])) else observed (payload_bytes f (b ∷ [])))
            r

    pub feed_payload :
        length f.header ≡ 4 → f.rfq_frame ≡ false → feed f b ≡ observed (payload_bytes f (b ∷ []))
    feed_payload h r =
        feed_past h
        ∙ ap
            (λ t.
              if t then observed (rfq_bytes f (b ∷ [])) else observed (payload_bytes f (b ∷ [])))
            r

abbrev pub after : Output → Framer × Output → Result FramerError (Framer × Output)
after o (g, p) = ok (g, o +out p)

unfoldable pub feed_all : Framer → Bytes → Result FramerError (Framer × Output)
feed_all f [] = ok (f, silent)
feed_all f (b ∷ bs) = do r ← feed f b; rest ← feed_all r.0 bs; after r.1 rest

pub out_silent : (o : Output) → o +out silent ≡ o
out_silent o =
    let e : o.errors + 0 ≡ o.errors = omega arith in
    rw (append-nil o.bytes, append-nil o.statuses, e)

pub out_assoc : (a b c : Output) → a +out b +out c ≡ a +out (b +out c)
out_assoc a b c = rw (
  append_assoc a.bytes b.bytes c.bytes,
  append_assoc a.statuses b.statuses c.statuses,
  add_assoc a.errors b.errors c.errors,
)

pub silent_out : (o : Output) → silent +out o ≡ o
silent_out o = let e : 0 + o.errors ≡ o.errors = omega arith in rw e

pub output-append : (xs ys : List Event) → output (xs ++ ys) ≡ output xs +out output ys
output-append [] ys = sym (silent_out (output ys))
output-append (x ∷ xs) ys =
    ap (◌+out◌ (output_of x)) (output-append xs ys)
    ∙ sym (out_assoc (output_of x) (output xs) (output ys))

abbrev pub Reading : Type 0
Reading = Result FramerError (Framer × Output)

pub after-silent : (m : Reading) → (m >>= after silent) ≡ m
after-silent (ok (f, o)) = ap (λ p. ok (f, p)) (silent_out o)
after-silent (err e) = refl

after-after : (m : Reading) (a b : Output) → (m >>= after b >>= after a) ≡ (m >>= after (a +out b))
after-after (ok (f, o)) a b = ap (λ p. ok (f, p)) (sym (out_assoc a b o))
after-after (err e) a b = refl

after_then :
    (m : Reading) (k : Framer → Reading) (o : Output)
    → ((m >>= after o) >>= λ r. k r.0 >>= after r.1)
      ≡ (m >>= (λ r. k r.0 >>= after r.1) >>= after o)
after_then (ok (f, p)) k o = sym (after-after (k f) o p)
after_then (err e) k o = refl

-- The stream is read in sequence.
pub feed_all-append :
    (f : Framer) (xs ys : Bytes)
    → feed_all f (xs ++ ys) ≡ (feed_all f xs >>= λ r. feed_all r.0 ys >>= after r.1)
unfolding feed_all
feed_all-append f [] ys = sym (after-silent (feed_all f ys))
feed_all-append f (x ∷ xs) ys = elim (Result-cases (feed f x)) [
  | inr (e, h) ↦ rw h
  | inl ((g, o), h) ↦ rw h (
      ap (λ m. m >>= after o) (feed_all-append g xs ys)
      ∙ sym (after_then (feed_all g xs) (λ r. feed_all r ys) o))
]

-- What has been read up to a place in the stream.
pub feed_all-ok :
    (f : Framer) (xs ys : Bytes) {h : Framer} {o : Output}
    → feed_all f (xs ++ ys) ≡ ok (h, o)
    → (g : Framer) × (p q : Output) × (feed_all f xs ≡ ok (g, p))
      × (feed_all g ys ≡ ok (h, q))
      × (o ≡ p +out q)
feed_all-ok f xs ys {h} {o} e =
    let ((g, p), first, rest) = >>=-eq-ok (feed_all f xs) _ (sym (feed_all-append f xs ys) ∙ e) in
    let ((h', q), second, last) = >>=-eq-ok (feed_all g ys) (after p) rest in
    (g, p, q, first, second ∙ cc, cc)
