-- ===== src/Scheduler.antt =====
-- kern/thread/scheduler.c: the round-robin run queue.
-- The static `runqueue` is `none` before `scheduler_bootstrap` and after `scheduler_shutdown`; a
-- use of NULL is undefined. `curspl`, the interrupt priority level, is an argument. `T` is the type
-- of thread pointers.
pub mod Laws
mod Tests
use cse_9201_os.Common.{
  ℕ, zero, suc, ◌+◌, ◌%◌, Bool, true, false, Option, none, some, List, [], ◌∷◌, ltb, ◌==◌,
  if◌then◌else◌, Res, done, panic, undefined, diverge, ◌>>=◌, ◌>>◌, assert, in_bounds,
}
use cse_9201_os.Common.Int.{pos}
use cse_9201_os.Queue
use cse_9201_os.Queue.{Queue}

module _ {ℓ} {T : Type ℓ} where
  module _ (kmalloc : ℕ → Option (List T)) where
    -- `struct_ok` is the outcome of the `kmalloc` of the `struct queue`.
    pub scheduler_bootstrap : Bool → Res (Queue T)
    scheduler_bootstrap struct_ok = elim (Queue.q_create kmalloc struct_ok 32) [
      | none ↦ panic
      | some q ↦ done q
    ]

    pub scheduler_preallocate : ℕ → Queue T → ℕ → Res (ℕ × Queue T)
    scheduler_preallocate curspl runqueue nthreads =
        assert (ltb 0 curspl) >> Queue.q_preallocate kmalloc runqueue nthreads

    pub make_runnable : ℕ → Queue T → T → Res (ℕ × Queue T)
    make_runnable curspl runqueue t = assert (ltb 0 curspl) >> Queue.q_addtail kmalloc runqueue t

    -- What an interrupt does during `cpu_idle`: it makes threads runnable, one after the other.
    pub wake_all : ℕ → Queue T → List T → Res (Queue T)
    wake_all curspl runqueue [] = done runqueue
    wake_all curspl runqueue (t ∷ ts) = do
      (result, q) ← make_runnable curspl runqueue t
      assert (result == 0)
      wake_all curspl q ts

    -- the `while` loop of `scheduler`: `idles` lists, for each call of `cpu_idle`, the threads that
    -- the interrupts in it make runnable
    pub scheduler_wait : ℕ → Queue T → List (List T) → Res (Queue T)
    scheduler_wait curspl runqueue [] = if Queue.q_empty runqueue then diverge else done runqueue
    scheduler_wait curspl runqueue (woken ∷ idles) =
        let rest = (do q ← wake_all curspl runqueue woken; scheduler_wait curspl q idles) in
        if Queue.q_empty runqueue then rest else done runqueue

    pub scheduler : ℕ → Queue T → List (List T) → Res (T × Queue T)
    scheduler curspl runqueue idles = do
      assert (ltb 0 curspl)
      q ← scheduler_wait curspl runqueue idles
      Queue.q_remhead q

  -- the loop of `scheduler_killall`, with fuel; beside the queue, the threads it drops
  pub killall_loop : ℕ → Queue T → Res (List T × Queue T)
  killall_loop zero runqueue = diverge
  killall_loop (suc fuel) runqueue =
      let rest = (do
        (t, q) ← Queue.q_remhead runqueue
        (dropped, q') ← killall_loop fuel q
        done (t ∷ dropped, q')) in
      if Queue.q_empty runqueue then done ([], runqueue) else rest

  pub scheduler_killall : ℕ → Queue T → Res (List T × Queue T)
  scheduler_killall curspl runqueue =
      assert (ltb 0 curspl) >> killall_loop (suc runqueue.size) runqueue

  -- The new value of `runqueue` is NULL.
  pub scheduler_shutdown : ℕ → Queue T → Res (Option (Queue T))
  scheduler_shutdown curspl runqueue = do
    (dropped, q) ← scheduler_killall curspl runqueue
    assert (ltb 0 curspl)
    Queue.q_destroy q
    done none

  -- the loop of `print_run_queue`, with fuel: the threads that it prints
  pub print_loop : ℕ → Queue T → ℕ → Res (List T)
  print_loop zero runqueue i = diverge
  print_loop (suc fuel) runqueue i =
      let rest = (do
        t ← Queue.q_getguy runqueue (pos i)
        printed ← print_loop fuel runqueue ((i + 1) % Queue.q_getsize runqueue)
        done (t ∷ printed)) in
      if i == Queue.q_getend runqueue then done [] else rest

  pub print_run_queue : Queue T → Res (List T)
  print_run_queue runqueue = print_loop (suc runqueue.size) runqueue (Queue.q_getstart runqueue)
