-- ===== src/Threads.antt =====
-- tmp/ass1/thread.c of completeCode/os_161: the threads that sleep, and how they are woken. It is
-- the thread.c that synch.c of assignment1/ownSolution was written for.
-- A thread and a sleep address are numbers. `sleepers` has each thread with its `t_sleepaddr`;
-- `ready` lists the threads that `make_runnable` was called on, in order, and `make_runnable`
-- succeeds, as thread.c asserts.
pub mod Wakeup
use cse_9201_os.Common.{
  ℕ, zero, suc, ◌+◌, Bool, true, false, List, [], ◌∷◌, ◌++◌, get_elem?, length, ltb, ◌==◌,
  if◌then◌else◌, Res, done, panic, undefined, diverge, ◌>>=◌, ◌>>◌, assert, in_bounds,
}

pub record Threads : Type 0 where
  pub curthread : ℕ
  pub sleepers : List (ℕ × ℕ)
  pub ready : List ℕ
  pub curspl : ℕ
  pub in_interrupt : ℕ

-- `array_remove`
abbrev pub array_remove {ℓ} : {A : Type ℓ} → List A → ℕ → List A
array_remove [] index = []
array_remove (x ∷ xs) zero = xs
array_remove (x ∷ xs) (suc index) = x ∷ array_remove xs index

-- The part of `thread_sleep` and of `mi_switch` before `scheduler` picks another thread.
unfoldable pub thread_sleep : Threads → ℕ → Res Threads
thread_sleep k addr = do
  assert (k.in_interrupt == 0)
  assert (ltb 0 k.curspl)
  done (record k { sleepers = k.sleepers ++ ((k.curthread, addr) ∷ []) })

-- the loop of `thread_wakeup` from index `i`, with fuel, on `sleepers` and `ready`
pub wakeup_loop : ℕ → ℕ → ℕ → List (ℕ × ℕ) → List ℕ → Res (List (ℕ × ℕ) × List ℕ)
wakeup_loop zero i addr sleepers ready = diverge
wakeup_loop (suc fuel) i addr sleepers ready =
    let rest = (do
      (t, a) ← in_bounds (get_elem? sleepers i)
      let hit = a == addr
      wakeup_loop fuel (if hit then i else i + 1) addr
          (if hit then array_remove sleepers i else sleepers)
          (if hit then ready ++ (t ∷ []) else ready)) in
    if ltb i (length sleepers) then rest else done (sleepers, ready)

-- Each turn of the loop leaves one sleeper less to look at.
unfoldable pub thread_wakeup : Threads → ℕ → Res Threads
unfolding wakeup_loop
thread_wakeup k addr = do
  assert (ltb 0 k.curspl)
  (s, r) ← wakeup_loop (suc (length k.sleepers)) 0 addr k.sleepers k.ready
  done (record k { sleepers = s; ready = r })

-- the loop of `thread_wakeone`
pub wakeone_loop : ℕ → ℕ → ℕ → List (ℕ × ℕ) → List ℕ → Res (List (ℕ × ℕ) × List ℕ)
wakeone_loop zero i addr sleepers ready = diverge
wakeone_loop (suc fuel) i addr sleepers ready =
    let rest = (do
      (t, a) ← in_bounds (get_elem? sleepers i)
      let next = wakeone_loop fuel (i + 1) addr sleepers ready
      if a == addr then done (array_remove sleepers i, ready ++ (t ∷ [])) else next) in
    if ltb i (length sleepers) then rest else done (sleepers, ready)

unfoldable pub thread_wakeone : Threads → ℕ → Res Threads
unfolding wakeone_loop
thread_wakeone k addr = do
  assert (ltb 0 k.curspl)
  (s, r) ← wakeone_loop (suc (length k.sleepers)) 0 addr k.sleepers k.ready
  done (record k { sleepers = s; ready = r })

-- the loop of `thread_hassleepers`
pub hassleepers_loop : ℕ → ℕ → ℕ → List (ℕ × ℕ) → Res ℕ
hassleepers_loop zero i addr sleepers = diverge
hassleepers_loop (suc fuel) i addr sleepers =
    let rest = (do
      (t, a) ← in_bounds (get_elem? sleepers i)
      let next = hassleepers_loop fuel (i + 1) addr sleepers
      if a == addr then done 1 else next) in
    if ltb i (length sleepers) then rest else done 0

unfoldable pub thread_hassleepers : Threads → ℕ → Res ℕ
unfolding hassleepers_loop
thread_hassleepers k addr = do
  assert (ltb 0 k.curspl)
  hassleepers_loop (suc (length k.sleepers)) 0 addr k.sleepers
