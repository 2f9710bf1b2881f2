-- ===== src/Utils/SessionLock/Tests.antt =====
-- Runs of src/utils/session-lock.ts on three duplexes.
use mathlib.Core.List.{Perm}
use prisma_pglite_bridge.Prelude.{◌≡◌, refl, false, some, List, [], ◌∷◌, ◌++◌, ◌⊎◌, All}
use prisma_pglite_bridge.Utils.SessionLock.{
  Waiter, SessionLock, Call, acquires, releases, cancels, reports, step, run, unlocked, is_owner,
  cancel, release, reject_waiters, drain_wait_queue, acquire,
}
use prisma_pglite_bridge.Utils.SessionLock.Claims.{
  IsServed, run-unlocked-IsServed, step-promises, entering, waiting, settled,
}
use prisma_pglite_bridge.Utils.SessionLock.Fifo.{
  GivesUp, step_keeps_owner, Granted, step-Granted, turns, turns_grant_at,
}
use prisma_pglite_bridge.Utils.SessionLock.Revoke.{waits, others, cancel_revokes}

abbrev queue : List Waiter
queue = record { id = 2; promise = 20 } ∷ record { id = 3; promise = 30 } ∷ []

abbrev busy : SessionLock
busy = record { owner = some 1; wait_queue = queue }

abbrev calls : List Call
calls = acquires 1 10 ∷ acquires 2 20 ∷ acquires 3 30 ∷ releases 1 ∷ cancels 3 ∷ []

run-calls : run unlocked calls ≡ record { owner = some 2; wait_queue = [] }
unfolding run step acquire release cancel drain_wait_queue reject_waiters
run-calls = refl

run-unlocked-IsServed_example : IsServed (run unlocked calls)
run-unlocked-IsServed_example = run-unlocked-IsServed calls

step-promises_example :
    Perm
      (entering (releases 1) ++ waiting busy)
      (settled (step busy (releases 1)).1 ++ waiting (step busy (releases 1)).0)
step-promises_example = step-promises busy (releases 1)

step_keeps_owner_example : ((step busy (cancels 2)).0.owner ≡ some 1) ⊎ GivesUp 1 (cancels 2)
step_keeps_owner_example = step_keeps_owner busy (cancels 2) 1 refl

step-Granted_example :
    All
      (Granted busy (reports 1 0x49) (step busy (reports 1 0x49)).0.owner)
      (step busy (reports 1 0x49)).1
step-Granted_example = step-Granted busy (reports 1 0x49)

turns_grant_at_example : (turns 2 busy).owner ≡ some 3
turns_grant_at_example = turns_grant_at queue 1 1 (record { id = 3; promise = 30 }) refl

cancel_revokes_example :
    (is_owner (cancel busy 1).0 1 ≡ false)
    × (waits 1 (cancel busy 1).0.wait_queue ≡ false)
    × ((cancel busy 1).0.wait_queue ≡ others 1 (release busy 1).0.wait_queue)
cancel_revokes_example = cancel_revokes busy 1 (λ h. refl)
