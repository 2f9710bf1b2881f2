-- ===== src/Utils/SessionLock/Revoke.antt =====
-- src/utils/session-lock.ts: `cancel` and the claims of a duplex.
use prisma_pglite_bridge.Prelude.{
  ℕ, ◌==◌, Bool, true, false, ◌||◌, ◌≡◌, refl, List, [], ◌∷◌, arith, Bool-cases, inl, inr,
  if◌then◌else◌,
}
use prisma_pglite_bridge.Utils.SessionLock.{
  SessionLock, Waiter, owned_by, is_owner, drain_wait_queue, release, reject_waiters, cancel,
}

-- A pending `acquire` of `id`.
abbrev pub waits : ℕ → List Waiter → Bool
waits id [] = false
waits id (w ∷ ws) = w.id == id || waits id ws

abbrev pub others : ℕ → List Waiter → List Waiter
others id [] = []
others id (w ∷ ws) = if w.id == id then others id ws else w ∷ others id ws

reject-others : (id : ℕ) (ws : List Waiter) → (reject_waiters id ws).0 ≡ others id ws
unfolding reject_waiters
reject-others id [] = refl
reject-others id (w ∷ ws) = ground (arith, reject-others id ws)

waits-others : (id : ℕ) (ws : List Waiter) → waits id (others id ws) ≡ false
waits-others id [] = refl
waits-others id (w ∷ ws) = ground (arith, waits-others id ws)

drain-owner :
    (id : ℕ) (ws : List Waiter) → waits id ws ≡ false → is_owner (drain_wait_queue ws).0 id ≡ false
unfolding is_owner drain_wait_queue
drain-owner id [] h = refl
drain-owner id (w ∷ ws) h = ground arith

release-owner :
    (l : SessionLock) (id : ℕ)
    → (is_owner l id ≡ true → waits id l.wait_queue ≡ false)
    → is_owner (release l id).0 id ≡ false
unfolding release is_owner
release-owner l id h = elim (Bool-cases (owned_by l.owner id)) [
  | inl e ↦ rw e (drain-owner id l.wait_queue (h e))
  | inr e ↦ rw e e
]

-- After `cancel` a duplex neither owns the session nor waits for it, given that an owner has no
-- further `acquire` pending; the duplexes that still wait are the others, in their order, less the
-- one that a released session went to.
pub cancel_revokes :
    (l : SessionLock) (id : ℕ)
    → (is_owner l id ≡ true → waits id l.wait_queue ≡ false)
    → (is_owner (cancel l id).0 id ≡ false)
      × (waits id (cancel l id).0.wait_queue ≡ false)
      × ((cancel l id).0.wait_queue ≡ others id (release l id).0.wait_queue)
unfolding cancel
cancel_revokes l id h = (
  (unfold is_owner in release-owner l id h),
  rw reject-others (waits-others id (release l id).0.wait_queue),
  reject-others id (release l id).0.wait_queue,
)
