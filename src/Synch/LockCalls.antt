-- ===== src/Synch/LockCalls.antt =====
-- What `lock_acquire`, `lock_release` and `cv_wait` do in each case, as equations.
use cse_9201_os.Common.{
  ℕ, ◌≡◌, refl, true, false, [], ◌∷◌, ◌++◌, Option, none, some, eq→==, ◌==◌, arith, done, panic,
}
use cse_9201_os.Threads.{Threads, thread_sleep}
use cse_9201_os.Threads.Wakeup.{staying, waiting_on, thread_wakeup_lem}
use cse_9201_os.Synch.{
  Cv, owned_by, splhigh, lock_do_i_hold, acquire_turn, lock_acquire, lock_release, cv_wait,
}

module _ (addr : ℕ) (k : Threads) where
  pub turn-free :
      acquire_turn (record { address = addr; lock_owner = none }) (splhigh k)
      ≡ done (true, record { address = addr; lock_owner = some k.curthread }, splhigh k)
  unfolding acquire_turn
  turn-free = refl

  pub turn-sleeps :
      (o : ℕ)
      → k.in_interrupt ≡ 0
      → acquire_turn (record { address = addr; lock_owner = some o }) (splhigh k)
        ≡ done (
          false,
          record { address = addr; lock_owner = some o },
          record k { sleepers = k.sleepers ++ ((k.curthread, addr) ∷ []); curspl = 15 },
        )
  unfolding acquire_turn thread_sleep
  turn-sleeps o e = rw (eq→== k.in_interrupt 0 e)

  pub turn-interrupt :
      (o : ℕ)
      → (k.in_interrupt == 0) ≡ false
      → acquire_turn (record { address = addr; lock_owner = some o }) (splhigh k) ≡ panic
  unfolding acquire_turn thread_sleep
  turn-interrupt o e = rw e

  -- `lock_acquire` on a lock that nobody holds.
  pub acquire-free :
      lock_acquire (some (record { address = addr; lock_owner = none })) k
      ≡ done (true, record { address = addr; lock_owner = some k.curthread }, k)
  unfolding lock_acquire lock_do_i_hold acquire_turn
  acquire-free = refl

  pub acquire-sleeps :
      (o : ℕ)
      → (k.curthread == o) ≡ false
      → k.in_interrupt ≡ 0
      → lock_acquire (some (record { address = addr; lock_owner = some o })) k
        ≡ done (
          false,
          record { address = addr; lock_owner = some o },
          record k { sleepers = k.sleepers ++ ((k.curthread, addr) ∷ []); curspl = 15 },
        )
  unfolding lock_acquire lock_do_i_hold acquire_turn thread_sleep
  acquire-sleeps o f e = rw (f, eq→== k.in_interrupt 0 e)

  pub acquire-own :
      (o : ℕ)
      → (k.curthread == o) ≡ true
      → lock_acquire (some (record { address = addr; lock_owner = some o })) k ≡ panic
  unfolding lock_acquire lock_do_i_hold
  acquire-own o f = rw f

  pub acquire-interrupt :
      (o : ℕ)
      → (k.curthread == o) ≡ false
      → (k.in_interrupt == 0) ≡ false
      → lock_acquire (some (record { address = addr; lock_owner = some o })) k ≡ panic
  unfolding lock_acquire lock_do_i_hold acquire_turn thread_sleep
  acquire-interrupt o f e = rw (f, e)

  pub release-own :
      (o : ℕ)
      → (k.curthread == o) ≡ true
      → lock_release (some (record { address = addr; lock_owner = some o })) k
        ≡ done (
          record { address = addr; lock_owner = none },
          record k {
            sleepers = staying addr k.sleepers;
            ready = k.ready ++ waiting_on addr k.sleepers;
          },
        )
  unfolding lock_release
  release-own o f = rw (f, thread_wakeup_lem (splhigh k) addr (omega arith))

  pub release-not :
      (o : Option ℕ)
      → owned_by o k.curthread ≡ false
      → lock_release (some (record { address = addr; lock_owner = o })) k ≡ panic
  unfolding lock_release
  release-not o f = rw f

  pub wait-own :
      (o : ℕ) (cv : Cv)
      → (k.curthread == o) ≡ true
      → k.in_interrupt ≡ 0
      → cv_wait (some cv) (some (record { address = addr; lock_owner = some o })) k
        ≡ done (
          record { address = addr; lock_owner = none },
          record k {
            sleepers = staying addr k.sleepers ++ ((k.curthread, cv.address) ∷ []);
            ready = k.ready ++ waiting_on addr k.sleepers;
            curspl = 15;
          },
        )
  unfolding cv_wait lock_release thread_sleep
  wait-own o cv f e =
      rw (f, thread_wakeup_lem (splhigh (splhigh k)) addr (omega arith), eq→== k.in_interrupt 0 e)

  pub wait-not :
      (o : Option ℕ) (cv : Cv)
      → owned_by o k.curthread ≡ false
      → cv_wait (some cv) (some (record { address = addr; lock_owner = o })) k ≡ panic
  unfolding cv_wait lock_release
  wait-not o cv f = rw f

  pub wait-interrupt :
      (o : ℕ) (cv : Cv)
      → (k.curthread == o) ≡ true
      → (k.in_interrupt == 0) ≡ false
      → cv_wait (some cv) (some (record { address = addr; lock_owner = some o })) k ≡ panic
  unfolding cv_wait lock_release thread_sleep
  wait-interrupt o cv f e = rw (f, thread_wakeup_lem (splhigh (splhigh k)) addr (omega arith), e)
