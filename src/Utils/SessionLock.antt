-- ===== src/Utils/SessionLock.antt =====
-- src/utils/session-lock.ts: the class SessionLock.
-- A symbol that names a duplex is a number, and so is the promise of an `acquire` call, which the
-- caller of the model numbers. A method returns the new lock, the promises that it settles, in
-- order, and its own result where it has one.
pub mod Claims
pub mod Fifo
pub mod Revoke
mod Tests
use prisma_pglite_bridge.Prelude.{
  ℕ, ◌==◌, if◌then◌else◌, Bool, true, false, ◌&&◌, Option, none, some, List, [], ◌∷◌, ◌++◌,
}

pub record Waiter : Type 0 where
  pub id : ℕ
  pub promise : ℕ

pub record SessionLock : Type 0 where
  pub owner : Option ℕ
  pub wait_queue : List Waiter

-- `resolve()` and `reject(error)` of a promise.
pub data Event : Type 0 where
  resolved rejected : ℕ → Event

abbrev pub status_idle : ℕ
status_idle = 0x49

abbrev pub unlocked : SessionLock
unlocked = record { owner = none; wait_queue = [] }

-- `this.owner === id`
abbrev pub owned_by : Option ℕ → ℕ → Bool
owned_by none id = false
owned_by (some o) id = o == id

pub acquire : SessionLock → ℕ → ℕ → SessionLock × List Event
acquire l id promise = elim l.owner [
  | none ↦ (record l { owner = some id }, resolved promise ∷ [])
  | some o ↦ if o == id then (l, resolved promise ∷ []) else (
    record l { wait_queue = l.wait_queue ++ record { id = id; promise = promise } ∷ [] },
    [],
  )
]

pub is_owner : SessionLock → ℕ → Bool
is_owner l id = owned_by l.owner id

pub hold : SessionLock → ℕ → SessionLock × Bool
hold l id = elim l.owner [ none ↦ (record l { owner = some id }, true) | some o ↦ (l, o == id) ]

-- Called with no owner: `this.owner` has just been cleared.
pub drain_wait_queue : List Waiter → SessionLock × List Event
drain_wait_queue [] = (record { owner = none; wait_queue = [] }, [])
drain_wait_queue (next ∷ rest) =
    (record { owner = some next.id; wait_queue = rest }, resolved next.promise ∷ [])

pub release : SessionLock → ℕ → SessionLock × List Event × Bool
release l id =
    let (l', events) = drain_wait_queue l.wait_queue in
    if owned_by l.owner id then (l', events, true) else (l, [], false)

pub update_status : SessionLock → ℕ → ℕ → SessionLock × List Event × Bool
update_status l id status =
    let (l', events) = drain_wait_queue l.wait_queue in
    if status == status_idle && owned_by l.owner id then (l', events, true) else (l, [], false)

-- The loop of `cancel`: the waiters that stay, and what is rejected.
pub reject_waiters : ℕ → List Waiter → List Waiter × List Event
reject_waiters id [] = ([], [])
reject_waiters id (w ∷ ws) =
    let (remaining, events) = reject_waiters id ws in
    if w.id == id then (remaining, rejected w.promise ∷ events) else (w ∷ remaining, events)

abbrev pub is_empty : List Event → Bool
is_empty [] = true
is_empty (_ ∷ _) = false

pub cancel : SessionLock → ℕ → SessionLock × List Event × Bool
unfolding reject_waiters
cancel l id =
    let (l', granted, owned) = release l id in
    let (remaining, dropped) = reject_waiters id l'.wait_queue in
    (
      record l' { wait_queue = remaining },
      granted ++ dropped,
      if owned then true else if is_empty dropped then false else true,
    )

-- A call of the lock by some duplex.
pub data Call : Type 0 where
  acquires : ℕ → ℕ → Call
  holds releases cancels : ℕ → Call
  reports : ℕ → ℕ → Call

pub step : SessionLock → Call → SessionLock × List Event
step l (acquires id promise) = acquire l id promise
step l (holds id) = ((hold l id).0, [])
step l (releases id) = ((release l id).0, (release l id).1)
step l (cancels id) = ((cancel l id).0, (cancel l id).1)
step l (reports id status) = ((update_status l id status).0, (update_status l id status).1)

pub run : SessionLock → List Call → SessionLock
run l [] = l
run l (c ∷ cs) = run (step l c).0 cs
