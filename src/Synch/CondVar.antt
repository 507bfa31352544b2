-- ===== src/Synch/CondVar.antt =====
-- Condition variables: who is woken, and who may signal.
use cse_9201_os.Common.{◌≡◌, ◌++◌, some, done, panic, arith, if◌then◌else◌, Bool-cases, inl, inr}
use cse_9201_os.Threads.{Threads}
use cse_9201_os.Threads.Wakeup.{
  staying, waiting_on, without_first, first_of, thread_wakeup_lem, thread_wakeone_lem,
}
use cse_9201_os.Synch.{Lock, Cv, owned_by, splhigh, lock_do_i_hold, cv_signal, cv_broadcast}

module _ (cv : Cv) (lock : Lock) (k : Threads) where
  -- `cv_signal` by the holder of the lock wakes the thread that has waited longest on the condition
  -- variable, if any, and nobody else, and the interrupt level is as before; by a thread that does
  -- not hold the lock it panics.
  pub cv_signal_lem : cv_signal (some cv) (some lock) k ≡ (
      if owned_by lock.lock_owner k.curthread
      then done (record k {
        sleepers = without_first cv.address k.sleepers;
        ready = k.ready ++ first_of (waiting_on cv.address k.sleepers);
      })
      else panic)
  unfolding cv_signal lock_do_i_hold
  cv_signal_lem = elim (Bool-cases (owned_by lock.lock_owner k.curthread)) [
    | inl own ↦ rw (own, thread_wakeone_lem (splhigh k) cv.address (omega arith))
    | inr not_own ↦ rw not_own
  ]

  -- `cv_broadcast` by the holder of the lock wakes all threads that wait on the condition variable,
  -- in order, and nobody else; by a thread that does not hold the lock it panics.
  pub cv_broadcast_lem : cv_broadcast (some cv) (some lock) k ≡ (
      if owned_by lock.lock_owner k.curthread
      then done (record k {
        sleepers = staying cv.address k.sleepers;
        ready = k.ready ++ waiting_on cv.address k.sleepers;
      })
      else panic)
  unfolding cv_broadcast lock_do_i_hold
  cv_broadcast_lem = elim (Bool-cases (owned_by lock.lock_owner k.curthread)) [
    | inl own ↦ rw (own, thread_wakeup_lem (splhigh k) cv.address (omega arith))
    | inr not_own ↦ rw not_own
  ]
