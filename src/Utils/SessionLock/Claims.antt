-- ===== src/Utils/SessionLock/Claims.antt =====
-- src/utils/session-lock.ts: free sessions and waiting promises.
use mathlib.Core.List.{Perm, perm_middle, perm_append_singleton, map-append}
use mathlib.Core.List.Perm
use prisma_pglite_bridge.Prelude.{
  ℕ, ◌==◌, ◌&&◌, ◌≡◌, refl, none, List, [], ◌∷◌, ◌++◌, map, arith, append_assoc, Bool-cases, inl,
  inr, Option-cases,
}
use prisma_pglite_bridge.Utils.SessionLock.{
  SessionLock, Waiter, Event, resolved, rejected, unlocked, owned_by, acquire, hold,
  drain_wait_queue, release, update_status, reject_waiters, cancel, Call, acquires, holds, releases,
  cancels, reports, step, run, status_idle,
}

-- A session with no owner has no waiters.
abbrev pub IsServed : SessionLock → Type 0
IsServed l = l.owner ≡ none → l.wait_queue ≡ []

drain-IsServed : (ws : List Waiter) → IsServed (drain_wait_queue ws).0
unfolding drain_wait_queue
drain-IsServed [] h = refl
drain-IsServed (w ∷ ws) h = cc

release-IsServed : (l : SessionLock) (id : ℕ) → IsServed l → IsServed (release l id).0
unfolding release
release-IsServed l id v = ground (arith, drain-IsServed l.wait_queue)

cancel-IsServed : (l : SessionLock) (id : ℕ) → IsServed l → IsServed (cancel l id).0
unfolding cancel
cancel-IsServed l id v h = rw (release-IsServed l id v h) (unfold reject_waiters in refl)

pub step-IsServed : (l : SessionLock) (c : Call) → IsServed l → IsServed (step l c).0
unfolding step acquire hold update_status
step-IsServed l (acquires id promise) v = ground arith
step-IsServed l (holds id) v = ground arith
step-IsServed l (releases id) v = release-IsServed l id v
step-IsServed l (cancels id) v = cancel-IsServed l id v
step-IsServed l (reports id status) v = ground (arith, drain-IsServed l.wait_queue)

run-IsServed : (l : SessionLock) (cs : List Call) → IsServed l → IsServed (run l cs)
unfolding run
run-IsServed l [] v = v
run-IsServed l (c ∷ cs) v = run-IsServed (step l c).0 cs (step-IsServed l c v)

-- After any calls on a new lock, a session without an owner has no waiter.
pub run-unlocked-IsServed : (cs : List Call) → IsServed (run unlocked cs)
run-unlocked-IsServed cs = run-IsServed unlocked cs (λ _. refl)

abbrev pub promise_of : Event → ℕ
promise_of (resolved p) = p
promise_of (rejected p) = p

abbrev pub waiting : SessionLock → List ℕ
waiting l = map (λ w. w.promise) l.wait_queue

abbrev pub settled : List Event → List ℕ
settled = map promise_of

-- The promises that a call hands in.
abbrev pub entering : Call → List ℕ
entering (acquires _ p) = p ∷ []
entering _ = []

drain-perm :
    (ws : List Waiter)
    → Perm
        (map (λ w. w.promise) ws)
        (settled (drain_wait_queue ws).1 ++ waiting (drain_wait_queue ws).0)
unfolding drain_wait_queue
drain-perm [] = Perm.refl []
drain-perm (w ∷ ws) = Perm.refl _

release-perm :
    (l : SessionLock) (id : ℕ)
    → Perm (waiting l) (settled (release l id).1 ++ waiting (release l id).0)
unfolding release
release-perm l id = elim (Bool-cases (owned_by l.owner id)) [
  | inl e ↦ rw e (drain-perm l.wait_queue)
  | inr e ↦ rw e (Perm.refl _)
]

reject-perm :
    (id : ℕ) (ws : List Waiter)
    → Perm
        (map (λ w. w.promise) ws)
        (settled (reject_waiters id ws).1 ++ map (λ w. w.promise) (reject_waiters id ws).0)
unfolding reject_waiters
reject-perm id [] = Perm.refl []
reject-perm id (w ∷ ws) = elim (Bool-cases (w.id == id)) [
  | inl e ↦ rw e (Perm.cons w.promise (reject-perm id ws))
  | inr e ↦ rw e (
      Perm.trans (Perm.cons w.promise (reject-perm id ws))
        (Perm.symm (perm_middle (settled (reject_waiters id ws).1) _)))
]

acquire-perm :
    (l : SessionLock) (id promise : ℕ)
    → Perm
        (promise ∷ waiting l)
        (settled (acquire l id promise).1 ++ waiting (acquire l id promise).0)
unfolding acquire
acquire-perm l id promise = elim (Option-cases l.owner) [
  | inl e ↦ rw (e, acquire) (Perm.refl _)
  | inr (o, e) ↦ elim (Bool-cases (o == id)) [
    | inl t ↦ rw (e, acquire) (rw t (Perm.refl _))
    | inr t ↦ rw (e, acquire) (rw t (rw map-append (Perm.symm (perm_append_singleton promise _))))
  ]
]

cancel-perm :
    (l : SessionLock) (id : ℕ)
    → Perm (waiting l) (settled (cancel l id).1 ++ waiting (cancel l id).0)
unfolding cancel
cancel-perm l id = Perm.trans (release-perm l id) (
    rw (map-append, append_assoc)
      (Perm.append_left (settled (release l id).1) (reject-perm id (release l id).0.wait_queue)))

hold-waiting : (l : SessionLock) (id : ℕ) → waiting (hold l id).0 ≡ waiting l
unfolding hold
hold-waiting l id = elim (Option-cases l.owner) [ inl e ↦ rw (e, hold) | inr (o, e) ↦ rw (e, hold) ]

report-perm :
    (l : SessionLock) (id status : ℕ)
    → Perm
        (waiting l)
        (settled (update_status l id status).1 ++ waiting (update_status l id status).0)
unfolding update_status
report-perm l id status = elim (Bool-cases (status == status_idle && owned_by l.owner id)) [
  | inl e ↦ rw e (drain-perm l.wait_queue)
  | inr e ↦ rw e (Perm.refl _)
]

-- Every promise is settled once or still waits: what a call takes in and what waited before is
-- what it settles and what waits after.
pub step-promises :
    (l : SessionLock) (c : Call)
    → Perm (entering c ++ waiting l) (settled (step l c).1 ++ waiting (step l c).0)
unfolding step
step-promises l (acquires id promise) = acquire-perm l id promise
step-promises l (holds id) = rw hold-waiting (Perm.refl _)
step-promises l (releases id) = release-perm l id
step-promises l (cancels id) = cancel-perm l id
step-promises l (reports id status) = report-perm l id status
