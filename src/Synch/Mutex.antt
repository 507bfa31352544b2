-- ===== src/Synch/Mutex.antt =====
-- Locks: mutual exclusion, and no lost wakeup, while threads call `lock_acquire`, `lock_release`
-- and `cv_wait` in any order.
use cse_9201_os.Common.{
  ℕ, ◌≡◌, ◌≢◌, refl, ap, sym, ◌∙◌, Bool, true, List, [], ◌∷◌, ◌++◌, Option, none, some, eq→==,
  ne→==_false, ==→eq, ◌==◌, Bool-cases, inl, inr, if◌then◌else◌, done, done-injective,
}
use cse_9201_os.Threads.{Threads}
use cse_9201_os.Threads.Wakeup.{staying, waiting_on}
use cse_9201_os.Synch.{Lock, Cv, splhigh, acquire_turn, lock_acquire, lock_release, cv_wait}
use cse_9201_os.Synch.Sem.{waiting_on-staying}
use cse_9201_os.Synch.LockCalls.{
  turn-free, turn-sleeps, turn-interrupt, acquire-free, acquire-sleeps, acquire-own,
  acquire-interrupt, release-own, release-not, wait-own, wait-not, wait-interrupt,
}

-- A lock among the threads, and the threads that hold it: each that got through `lock_acquire` and
-- did not release it since.
pub record LockWorld : Type 0 where
  pub lock : Lock
  pub threads : Threads
  pub holders : List ℕ

abbrev pub lock_waiters : LockWorld → List ℕ
lock_waiters w = waiting_on w.lock.address w.threads.sleepers

-- the list without `t`
abbrev pub without : ℕ → List ℕ → List ℕ
without t [] = []
without t (x ∷ xs) = if x == t then without t xs else x ∷ without t xs

-- `acquire` is a call of `lock_acquire`, `again` a woken thread's next turn of its loop; `other` is
-- what the kernel does that neither wakes a thread from this lock nor puts one to sleep on it.
pub data LockStep : LockWorld → LockWorld → Type 0 where
  acquire :
      (l l' : Lock) (k k' : Threads) (hs : List ℕ) (through : Bool)
      → lock_acquire (some l) k ≡ done (through, l', k')
      → LockStep
          (record { lock = l; threads = k; holders = hs })
          (record { lock = l'; threads = k'; holders = (if through then k.curthread ∷ hs else hs) })
  again :
      (l l' : Lock) (k k' : Threads) (hs : List ℕ) (through : Bool)
      → acquire_turn l (splhigh k) ≡ done (through, l', k')
      → LockStep
          (record { lock = l; threads = k; holders = hs })
          (record { lock = l'; threads = k'; holders = (if through then k.curthread ∷ hs else hs) })
  release :
      (l l' : Lock) (k k' : Threads) (hs : List ℕ)
      → lock_release (some l) k ≡ done (l', k')
      → LockStep
          (record { lock = l; threads = k; holders = hs })
          (record { lock = l'; threads = k'; holders = without k.curthread hs })
  wait :
      (l l' : Lock) (cv : Cv) (k k' : Threads) (hs : List ℕ)
      → cv.address ≢ l.address
      → cv_wait (some cv) (some l) k ≡ done (l', k')
      → LockStep
          (record { lock = l; threads = k; holders = hs })
          (record { lock = l'; threads = k'; holders = without k.curthread hs })
  other :
      (l : Lock) (k k' : Threads) (hs : List ℕ)
      → waiting_on l.address k'.sleepers ≡ waiting_on l.address k.sleepers
      → LockStep
          (record { lock = l; threads = k; holders = hs })
          (record { lock = l; threads = k'; holders = hs })

pub data LockSteps : LockWorld → LockWorld → Type 0 where
  stop : (w : LockWorld) → LockSteps w w
  step : (w w' w'' : LockWorld) → LockStep w w' → LockSteps w' w'' → LockSteps w w''

abbrev pub owners : Option ℕ → List ℕ
owners none = []
owners (some t) = t ∷ []

-- The holders are the owner, so one thread at most; and no thread sleeps on a lock that is free.
abbrev pub Exclusive : LockWorld → Type 0
Exclusive w =
    (w.holders ≡ owners w.lock.lock_owner) × (w.lock.lock_owner ≡ none → lock_waiters w ≡ [])

waiting_on-elsewhere :
    (addr t b : ℕ) (xs : List (ℕ × ℕ))
    → b ≢ addr
    → waiting_on addr (xs ++ ((t, b) ∷ [])) ≡ waiting_on addr xs
waiting_on-elsewhere addr t b [] ne = rw (ne→==_false b addr ne)
waiting_on-elsewhere addr t b ((u, a) ∷ xs) ne = rw (waiting_on-elsewhere addr t b xs ne)

without-own : (t o : ℕ) → (t == o) ≡ true → without t (o ∷ []) ≡ []
without-own t o e = rw (eq→== o t (sym (==→eq t o e)))

-- The kernel's lock and threads after a call, as one triple.
abbrev after : ℕ → List ℕ → Bool × Lock × Threads → LockWorld
after t hs r = record { lock = r.1; threads = r.2; holders = (if r.0 then t ∷ hs else hs) }

abbrev freed : ℕ → List ℕ → Lock × Threads → LockWorld
freed t hs r = record { lock = r.0; threads = r.1; holders = without t hs }

module _ (addr : ℕ) (k : Threads) (hs : List ℕ) where
  acquire-Exclusive :
      (o : Option ℕ) (r : Bool × Lock × Threads)
      → lock_acquire (some (record { address = addr; lock_owner = o })) k ≡ done r
      → hs ≡ owners o
      → Exclusive (after k.curthread hs r)
  acquire-Exclusive none r run held =
      rw (sym (done-injective _ r (sym (acquire-free addr k) ∙ run)))
        (ap (λ l. k.curthread ∷ l) held, λ e. cc e)
  acquire-Exclusive (some o) r run held = elim (Bool-cases (k.curthread == o)) [
    | inl own ↦ absurd (cc (run, acquire-own addr k o own))
    | inr f ↦ elim (Bool-cases (k.in_interrupt == 0)) [
      | inr e ↦ absurd (cc (run, acquire-interrupt addr k o f e))
      | inl e ↦
          rw
            (sym (
              done-injective _ r
                (sym (acquire-sleeps addr k o f (==→eq k.in_interrupt 0 e)) ∙ run)))
            (held, λ n. cc n)
    ]
  ]

  turn-Exclusive :
      (o : Option ℕ) (r : Bool × Lock × Threads)
      → acquire_turn (record { address = addr; lock_owner = o }) (splhigh k) ≡ done r
      → hs ≡ owners o
      → Exclusive (after k.curthread hs r)
  turn-Exclusive none r run held =
      rw (sym (done-injective _ r (sym (turn-free addr k) ∙ run)))
        (ap (λ l. k.curthread ∷ l) held, λ e. cc e)
  turn-Exclusive (some o) r run held = elim (Bool-cases (k.in_interrupt == 0)) [
    | inr e ↦ absurd (cc (run, turn-interrupt addr k o e))
    | inl e ↦
        rw (sym (done-injective _ r (sym (turn-sleeps addr k o (==→eq k.in_interrupt 0 e)) ∙ run)))
          (held, λ n. cc n)
  ]

  release-Exclusive :
      (o : Option ℕ) (r : Lock × Threads)
      → lock_release (some (record { address = addr; lock_owner = o })) k ≡ done r
      → hs ≡ owners o
      → Exclusive (freed k.curthread hs r)
  release-Exclusive none r run held = absurd (cc (run, release-not addr k none refl))
  release-Exclusive (some o) r run held = elim (Bool-cases (k.curthread == o)) [
    | inr f ↦ absurd (cc (run, release-not addr k (some o) f))
    | inl f ↦ rw (sym (done-injective _ r (sym (release-own addr k o f) ∙ run))) (
      ap (without k.curthread) held ∙ without-own k.curthread o f,
      λ e. waiting_on-staying addr k.sleepers,
    )
  ]

  wait-Exclusive :
      (o : Option ℕ) (cv : Cv) (r : Lock × Threads)
      → cv.address ≢ addr
      → cv_wait (some cv) (some (record { address = addr; lock_owner = o })) k ≡ done r
      → hs ≡ owners o
      → Exclusive (freed k.curthread hs r)
  wait-Exclusive none cv r ne run held = absurd (cc (run, wait-not addr k none cv refl))
  wait-Exclusive (some o) cv r ne run held = elim (Bool-cases (k.curthread == o)) [
    | inr f ↦ absurd (cc (run, wait-not addr k (some o) cv f))
    | inl f ↦ elim (Bool-cases (k.in_interrupt == 0)) [
      | inr e ↦ absurd (cc (run, wait-interrupt addr k o cv f e))
      | inl e ↦
          rw
            (sym
              (done-injective _ r (sym (wait-own addr k o cv f (==→eq k.in_interrupt 0 e)) ∙ run)))
            (
              ap (without k.curthread) held ∙ without-own k.curthread o f,
              λ n.
                  waiting_on-elsewhere addr k.curthread cv.address (staying addr k.sleepers) ne
                  ∙ waiting_on-staying addr k.sleepers,
            )
    ]
  ]

step-Exclusive : (w w' : LockWorld) → LockStep w w' → Exclusive w → Exclusive w'
step-Exclusive w w' (acquire l l' k k' hs through run) (held, free) =
    acquire-Exclusive l.address k hs l.lock_owner (through, l', k') run held
step-Exclusive w w' (again l l' k k' hs through run) (held, free) =
    turn-Exclusive l.address k hs l.lock_owner (through, l', k') run held
step-Exclusive w w' (release l l' k k' hs run) (held, free) =
    release-Exclusive l.address k hs l.lock_owner (l', k') run held
step-Exclusive w w' (wait l l' cv k k' hs ne run) (held, free) =
    wait-Exclusive l.address k hs l.lock_owner cv (l', k') ne run held
step-Exclusive w w' (other l k k' hs same) (held, free) = (held, λ e. same ∙ free e)

-- However the calls of `lock_acquire`, `lock_release` and `cv_wait` alternate, the threads that hold
-- the lock are its owner, so at most one, and no thread sleeps on the lock while it is free; if both
-- hold at first.
pub mutual_exclusion : (w w' : LockWorld) → LockSteps w w' → Exclusive w → Exclusive w'
mutual_exclusion w w' (stop x) good = good
mutual_exclusion a b (step w w' w'' s rest) good =
    mutual_exclusion w' w'' rest (step-Exclusive w w' s good)
