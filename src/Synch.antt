-- ===== src/Synch.antt =====
-- assignment1/ownSolution/synch.c and synch.h: semaphores, locks and condition variables.
-- The kernel runs on one processor, and these functions run with interrupts off, so a thread loses
-- the processor only in `thread_sleep`. A function that may sleep is modelled up to that point: it
-- returns whether it got through (`true`) or sleeps (`false`), and a thread that is woken goes on
-- with the test of the `while` loop. `address` is where an object lies, the sleep address; names
-- serve messages only and are left out. `splhigh` makes `curspl` positive, 15, up to `splx`.
pub mod Sem
pub mod LockCalls
pub mod Mutex
pub mod CondVar
mod Tests
use cse_9201_os.Common.{
  ℕ, zero, suc, ◌+◌, ◌^◌, Bool, true, false, not, Option, none, some, ltb, ◌==◌, ◌&&◌,
  if◌then◌else◌, Res, done, panic, undefined, diverge, ◌>>=◌, ◌>>◌, assert,
}
use cse_9201_os.Common.Int.{ℤ, pos, negsuc}
use cse_9201_os.Threads.{Threads, thread_sleep, thread_wakeup, thread_wakeone, thread_hassleepers}

abbrev pub splhigh : Threads → Threads
splhigh k = record k { curspl = 15 }

-- `splx(spl)`, with the level that the caller had
abbrev pub splx : Threads → ℕ → Threads
splx k spl = record k { curspl = spl }

-- a pointer that the code checks against NULL
abbrev pub non_null {ℓ} : {A : Type ℓ} → Option A → Res A
non_null none = panic
non_null (some a) = done a

-- `struct semaphore`
pub record Semaphore : Type 0 where
  pub address : ℕ
  pub count : ℤ

-- `struct lock`
pub record Lock : Type 0 where
  pub address : ℕ
  pub lock_owner : Option ℕ

-- `struct cv`
pub record Cv : Type 0 where
  pub address : ℕ

-- `count++` on an `int`; past INT_MAX it is undefined.
abbrev pub int_inc : ℤ → Res ℤ
int_inc (pos n) = if ltb (n + 1) (2 ^ 31) then done (pos (n + 1)) else undefined
int_inc (negsuc zero) = done (pos 0)
int_inc (negsuc (suc n)) = done (negsuc n)

-- `assert(sem->count>0); sem->count--;`
abbrev pub int_take : ℤ → Res ℤ
int_take (pos zero) = panic
int_take (pos (suc n)) = done (pos n)
int_take (negsuc n) = panic

abbrev pub positive : ℤ → Bool
positive (pos n) = ltb 0 n
positive (negsuc n) = false

abbrev pub is_zero : ℤ → Bool
is_zero (pos zero) = true
is_zero (pos (suc n)) = false
is_zero (negsuc n) = false

-- `struct_ok` and `name_ok` are the outcomes of `kmalloc` and `kstrdup`.
unfoldable pub sem_create : Bool → Bool → ℕ → ℤ → Option Semaphore
sem_create struct_ok name_ok address initial_count =
    if struct_ok && name_ok
    then some (record { address = address; count = initial_count })
    else none

unfoldable pub sem_destroy : Option Semaphore → Threads → Res Threads
unfolding thread_hassleepers
sem_destroy p k = do
  sem ← non_null p
  n ← thread_hassleepers (splhigh k) sem.address
  assert (n == 0)
  done k

-- one turn of the `while` loop of `P`
pub p_turn : Semaphore → Threads → Res (Bool × Semaphore × Threads)
unfolding thread_sleep
p_turn sem k =
    let sleep = (do k' ← thread_sleep k sem.address; done (false, sem, k')) in
    let go = (do c ← int_take sem.count; done (true, record sem { count = c }, k)) in
    if is_zero sem.count then sleep else go

pub P : Option Semaphore → Threads → Res (Bool × Semaphore × Threads)
unfolding p_turn
P p k = do
  sem ← non_null p
  assert (k.in_interrupt == 0)
  (through, sem', k') ← p_turn sem (splhigh k)
  done (through, sem', if through then splx k' k.curspl else k')

pub V : Option Semaphore → Threads → Res (Semaphore × Threads)
unfolding thread_wakeup
V p k = do
  sem ← non_null p
  c ← int_inc sem.count
  assert (positive c)
  k' ← thread_wakeup (splhigh k) sem.address
  done (record sem { count = c }, splx k' k.curspl)

unfoldable pub lock_create : Bool → Bool → ℕ → Option Lock
lock_create struct_ok name_ok address =
    if struct_ok && name_ok then some (record { address = address; lock_owner = none }) else none

abbrev pub owned_by : Option ℕ → ℕ → Bool
owned_by none t = false
owned_by (some o) t = t == o

unfoldable pub lock_do_i_hold : Option Lock → Threads → Res ℕ
lock_do_i_hold p k = do
  lock ← non_null p
  done (if owned_by lock.lock_owner k.curthread then 1 else 0)

-- one turn of the `while` loop of `lock_acquire`, and what comes after it
pub acquire_turn : Lock → Threads → Res (Bool × Lock × Threads)
unfolding thread_sleep
acquire_turn lock k = elim lock.lock_owner [
  | none ↦ done (true, record lock { lock_owner = some k.curthread }, k)
  | some owner ↦ do k' ← thread_sleep k lock.address; done (false, lock, k')
]

pub lock_acquire : Option Lock → Threads → Res (Bool × Lock × Threads)
unfolding lock_do_i_hold acquire_turn
lock_acquire p k = do
  lock ← non_null p
  held ← lock_do_i_hold p k
  assert (held == 0)
  (through, lock', k') ← acquire_turn lock (splhigh k)
  done (through, lock', if through then splx k' k.curspl else k')

pub lock_release : Option Lock → Threads → Res (Lock × Threads)
unfolding thread_wakeup
lock_release p k = do
  lock ← non_null p
  assert (owned_by lock.lock_owner k.curthread)
  k' ← thread_wakeup (splhigh k) lock.address
  done (record lock { lock_owner = none }, splx k' k.curspl)

-- The pointers that are given to `kfree`: `lock_owner`, which may be NULL, and the lock.
unfoldable pub lock_destroy : Option Lock → Res (Option ℕ × ℕ)
lock_destroy p = do lock ← non_null p; done (lock.lock_owner, lock.address)

unfoldable pub cv_create : Bool → Bool → ℕ → Option Cv
cv_create struct_ok name_ok address =
    if struct_ok && name_ok then some (record { address = address }) else none

-- The pointer that is given to `kfree`, beside the name.
unfoldable pub cv_destroy : Option Cv → Res ℕ
cv_destroy p = do cv ← non_null p; done cv.address

-- `cv_wait` up to its sleep; a thread that is woken goes on with `lock_acquire`.
pub cv_wait : Option Cv → Option Lock → Threads → Res (Lock × Threads)
unfolding lock_release thread_sleep
cv_wait p q k = do
  cv ← non_null p
  lock ← non_null q
  (lock', k') ← lock_release (some lock) (splhigh k)
  k'' ← thread_sleep k' cv.address
  done (lock', k'')

pub cv_signal : Option Cv → Option Lock → Threads → Res Threads
unfolding lock_do_i_hold thread_wakeone
cv_signal p q k = do
  cv ← non_null p
  lock ← non_null q
  held ← lock_do_i_hold (some lock) (splhigh k)
  assert (not (held == 0))
  k' ← thread_wakeone (splhigh k) cv.address
  done (splx k' k.curspl)

pub cv_broadcast : Option Cv → Option Lock → Threads → Res Threads
unfolding lock_do_i_hold thread_wakeup
cv_broadcast p q k = do
  cv ← non_null p
  lock ← non_null q
  held ← lock_do_i_hold (some lock) (splhigh k)
  assert (not (held == 0))
  k' ← thread_wakeup (splhigh k) cv.address
  done (splx k' k.curspl)
