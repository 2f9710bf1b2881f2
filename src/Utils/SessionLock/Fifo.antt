-- ===== src/Utils/SessionLock/Fifo.antt =====
-- src/utils/session-lock.ts: who gets the session, and in what order.
use prisma_pglite_bridge.Prelude.{
  ℕ, zero, suc, ◌==◌, ◌&&◌, ◌≡◌, refl, Option, none, some, List, [], ◌∷◌, arith, Bool-cases, inl,
  inr, ◌⊎◌, Option-cases, get_elem?, All, All-append, ap, ◌∙◌,
}
use prisma_pglite_bridge.Utils.SessionLock.{
  SessionLock, Waiter, Event, resolved, rejected, owned_by, acquire, hold, drain_wait_queue,
  release, update_status, reject_waiters, cancel, Call, acquires, holds, releases, cancels, reports,
  step, status_idle,
}

-- The calls by which `id` gives the session up.
pub data GivesUp (id : ℕ) (c : Call) : Type 0 where
  releasing : c ≡ releases id → GivesUp id c
  cancelling : c ≡ cancels id → GivesUp id c
  idle : c ≡ reports id status_idle → GivesUp id c

-- No call but the owner's own takes the session from it.
pub step_keeps_owner :
    (l : SessionLock) (c : Call) (o : ℕ)
    → l.owner ≡ some o
    → ((step l c).0.owner ≡ some o) ⊎ GivesUp o c
unfolding step
step_keeps_owner l (acquires id promise) o h = unfold acquire in ground arith
step_keeps_owner l (holds id) o h = unfold hold in ground arith
step_keeps_owner l (releases id) o h = elim (Bool-cases (o == id)) [
  | inl e ↦ inr (releasing (ground arith))
  | inr e ↦ inl (unfold release in rw h (rw e refl))
]
step_keeps_owner l (cancels id) o h = elim (Bool-cases (o == id)) [
  | inl e ↦ inr (cancelling (ground arith))
  | inr e ↦ inl (unfold cancel release in rw h (rw e refl))
]
step_keeps_owner l (reports id status) o h = elim (Bool-cases (o == id)) [
  | inr e ↦ inl (unfold update_status in ground arith)
  | inl e ↦ elim (Bool-cases (status == status_idle)) [
    | inl i ↦ inr (idle (ground arith))
    | inr i ↦ inl (unfold update_status in ground arith)
  ]
]

-- What stands behind an event: `resolved p` belongs to the call itself or to the head of the queue,
-- whose caller now owns the session; `rejected p` comes from a cancelling call.
abbrev pub Granted : SessionLock → Call → Option ℕ → Event → Type 0
Granted l c owner (rejected p) = (id : ℕ) × (c ≡ cancels id)
Granted l c owner (resolved p) =
    ((id : ℕ) × (c ≡ acquires id p) × (owner ≡ some id))
    ⊎ ((w : Waiter) × (ws : List Waiter) × (l.wait_queue ≡ w ∷ ws)
        × (w.promise ≡ p)
        × (owner ≡ some w.id))

drain-Granted :
    (l : SessionLock) (c : Call) (ws : List Waiter)
    → l.wait_queue ≡ ws
    → All (Granted l c (drain_wait_queue ws).0.owner) (drain_wait_queue ws).1
unfolding drain_wait_queue
drain-Granted l c [] h = tt
drain-Granted l c (w ∷ ws) h = (inr (w, ws, h, refl, refl), tt)

release-Granted :
    (l : SessionLock) (c : Call) (id : ℕ)
    → All (Granted l c (release l id).0.owner) (release l id).1
unfolding release
release-Granted l c id = elim (Bool-cases (owned_by l.owner id)) [
  | inl e ↦ rw e (drain-Granted l c l.wait_queue refl)
  | inr e ↦ rw e tt
]

reject-Granted :
    (l : SessionLock) (id : ℕ) (owner : Option ℕ) (ws : List Waiter)
    → All (Granted l (cancels id) owner) (reject_waiters id ws).1
unfolding reject_waiters
reject-Granted l id owner [] = tt
reject-Granted l id owner (w ∷ ws) = elim (Bool-cases (w.id == id)) [
  | inl e ↦ rw e ((id, refl), reject-Granted l id owner ws)
  | inr e ↦ rw e (reject-Granted l id owner ws)
]

acquire-Granted :
    (l : SessionLock) (id promise : ℕ)
    → All (Granted l (acquires id promise) (acquire l id promise).0.owner) (acquire l id promise).1
unfolding acquire
acquire-Granted l id promise = elim (Option-cases l.owner) [
  | inl e ↦ rw (e, acquire) (inl (id, refl, refl), tt)
  | inr (o, e) ↦ elim (Bool-cases (o == id)) [
    | inl t ↦ rw (e, acquire) (rw t (inl (id, refl, ground arith), tt))
    | inr t ↦ rw (e, acquire) (rw t tt)
  ]
]

report-Granted :
    (l : SessionLock) (c : Call) (id status : ℕ)
    → All (Granted l c (update_status l id status).0.owner) (update_status l id status).1
unfolding update_status
report-Granted l c id status = elim (Bool-cases (status == status_idle && owned_by l.owner id)) [
  | inl e ↦ rw e (drain-Granted l c l.wait_queue refl)
  | inr e ↦ rw e tt
]

-- Every promise that a call resolves is the call's own or the queue's head, and its caller owns
-- the session afterwards; only a cancelling call rejects promises.
pub step-Granted : (l : SessionLock) (c : Call) → All (Granted l c (step l c).0.owner) (step l c).1
unfolding step
step-Granted l (acquires id promise) = acquire-Granted l id promise
step-Granted l (holds id) = tt
step-Granted l (releases id) = release-Granted l (releases id) id
step-Granted l (cancels id) =
    unfold cancel in
    All-append _ (release l id).1 _ (release-Granted l (cancels id) id)
      (reject-Granted l id _ (release l id).0.wait_queue)
step-Granted l (reports id status) = report-Granted l (reports id status) id status

-- The owner's conversation ends: its idle ReadyForQuery is reported.
pub turn : SessionLock → SessionLock
turn l = elim l.owner [ none ↦ l | some o ↦ (update_status l o status_idle).0 ]

pub turns : ℕ → SessionLock → SessionLock
turns zero l = l
turns (suc n) l = turns n (turn l)

turn_lem :
    (o : ℕ) (q : List Waiter)
    → turn (record { owner = some o; wait_queue = q }) ≡ (drain_wait_queue q).0
unfolding turn update_status
turn_lem o q = ground arith

-- The waiter at place i owns the session as soon as the present owner and the i waiters before it
-- have gone idle.
pub turns_grant_at :
    (q : List Waiter) (o i : ℕ) (w : Waiter)
    → get_elem? q i ≡ some w
    → (turns (suc i) (record { owner = some o; wait_queue = q })).owner ≡ some w.id
unfolding turns drain_wait_queue
turns_grant_at [] o i w h = cc
turns_grant_at (v ∷ q) o zero w h = ap (λ l. l.owner) (turn_lem o (v ∷ q)) ∙ ground arith
turns_grant_at (v ∷ q) o (suc i) w h =
    ap (λ l. (turns (suc i) l).owner) (turn_lem o (v ∷ q)) ∙ turns_grant_at q v.id i w h
