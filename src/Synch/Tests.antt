-- ===== src/Synch/Tests.antt =====
-- Runs of the synchronisation primitives, and the theorems at concrete inputs.
use cse_9201_os.Common.{ℕ, ◌≡◌, refl, true, false, [], ◌∷◌, some, none, done, arith}
use cse_9201_os.Common.Int.{pos}
use cse_9201_os.Threads.{Threads, thread_wakeup}
use cse_9201_os.Threads.Wakeup.{thread_wakeup_lem}
use cse_9201_os.Synch.{Semaphore, Lock, Cv, cv_signal}
use cse_9201_os.Synch.Sem.{
  SemWorld, SemSteps, p, v, stop, step, P-zero, V-small, Conserved, sem_conservation,
}
use cse_9201_os.Synch.Mutex
use cse_9201_os.Synch.Mutex.{LockWorld, mutual_exclusion}
use cse_9201_os.Synch.LockCalls.{acquire-free, release-own}
use cse_9201_os.Synch.CondVar.{cv_signal_lem}

-- Thread 1 runs; 2 and 4 sleep on address 100, and 3 on 200.
abbrev three_asleep : Threads
three_asleep = record {
  curthread = 1;
  sleepers = (2, 100) ∷ (3, 200) ∷ (4, 100) ∷ [];
  ready = 5 ∷ [];
  curspl = 15;
  in_interrupt = 0;
}

thread_wakeup_lem_example :
    thread_wakeup three_asleep 100
    ≡ done (record three_asleep { sleepers = (3, 200) ∷ []; ready = 5 ∷ 2 ∷ 4 ∷ [] })
thread_wakeup_lem_example = thread_wakeup_lem three_asleep 100 (omega arith)

abbrev none_asleep : Threads
none_asleep = record { curthread = 1; sleepers = []; ready = []; curspl = 0; in_interrupt = 0 }

abbrev one_asleep : Threads
one_asleep = record {
  curthread = 1;
  sleepers = (1, 100) ∷ [];
  ready = [];
  curspl = 15;
  in_interrupt = 0;
}

abbrev one_woken : Threads
one_woken = record { curthread = 1; sleepers = []; ready = 1 ∷ []; curspl = 15; in_interrupt = 0 }

abbrev sem_at : ℕ → Semaphore
sem_at n = record { address = 100; count = pos n }

abbrev sem_start : SemWorld
sem_start = record { sem = sem_at 0; threads = none_asleep; passed = 0; posted = 0 }

abbrev sem_slept : SemWorld
sem_slept = record { sem = sem_at 0; threads = one_asleep; passed = 0; posted = 0 }

abbrev sem_end : SemWorld
sem_end = record { sem = sem_at 1; threads = one_woken; passed = 0; posted = 1 }

-- A thread sleeps in `P`, and `V` wakes it.
sleep_and_wake : SemSteps sem_start sem_end
sleep_and_wake =
    step sem_start sem_slept sem_end
      (p (sem_at 0) (sem_at 0) none_asleep one_asleep 0 0 false (P-zero 100 none_asleep refl))
      (step sem_slept sem_end sem_end
        (v (sem_at 0) (sem_at 1) one_asleep one_woken 0 0 (V-small 100 one_asleep 0 (omega arith)))
        (stop sem_end))

sem_conservation_example : Conserved 0 sem_end
sem_conservation_example =
    sem_conservation 0 sem_start sem_end sleep_and_wake (0, refl, refl, λ h. refl)

abbrev free_lock : Lock
free_lock = record { address = 100; lock_owner = none }

abbrev owned_lock : Lock
owned_lock = record { address = 100; lock_owner = some 1 }

abbrev lock_start : LockWorld
lock_start = record { lock = free_lock; threads = none_asleep; holders = [] }

abbrev lock_held : LockWorld
lock_held = record { lock = owned_lock; threads = none_asleep; holders = 1 ∷ [] }

lock_and_unlock : Mutex.LockSteps lock_start lock_start
lock_and_unlock =
    Mutex.step lock_start lock_held lock_start
      (Mutex.acquire free_lock owned_lock none_asleep none_asleep [] true
        (acquire-free 100 none_asleep))
      (Mutex.step lock_held lock_start lock_start
        (Mutex.release owned_lock free_lock none_asleep none_asleep (1 ∷ [])
          (release-own 100 none_asleep 1 refl))
        (Mutex.stop lock_start))

mutual_exclusion_example : Mutex.Exclusive lock_start
mutual_exclusion_example = mutual_exclusion lock_start lock_start lock_and_unlock (refl, λ e. refl)

abbrev a_cv : Cv
a_cv = record { address = 100 }

abbrev lock_of_1 : Lock
lock_of_1 = record { address = 200; lock_owner = some 1 }

cv_signal_lem_example :
    cv_signal (some a_cv) (some lock_of_1) three_asleep
    ≡ done (record three_asleep { sleepers = (3, 200) ∷ (4, 100) ∷ []; ready = 5 ∷ 2 ∷ [] })
cv_signal_lem_example = cv_signal_lem a_cv lock_of_1 three_asleep
