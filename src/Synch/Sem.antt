-- ===== src/Synch/Sem.antt =====
-- Semaphores: what is conserved while threads call `P` and `V` in any order.
use cse_9201_os.Common.{
  ℕ, zero, suc, ◌+◌, ◌^◌, ◌<◌, ◌≡◌, refl, ap, sym, ◌∙◌, Bool, true, false, List, [], ◌∷◌, ◌++◌,
  some, ltb, lt→ltb, ltb→lt, eq→==, ◌==◌, Bool-cases, inl, inr, if◌then◌else◌, arith, done, panic,
  undefined, done-injective, ==→eq,
}
use cse_9201_os.Common.Int.{pos}
use cse_9201_os.Threads.{Threads, thread_sleep}
use cse_9201_os.Threads.Wakeup.{staying, waiting_on, thread_wakeup_lem}
use cse_9201_os.Synch.{Semaphore, p_turn, P, V, splhigh}

-- A semaphore among the threads, with the numbers of calls of `P` that got through, and of `V`.
pub record SemWorld : Type 0 where
  pub sem : Semaphore
  pub threads : Threads
  pub passed : ℕ
  pub posted : ℕ

abbrev pub sem_waiters : SemWorld → List ℕ
sem_waiters w = waiting_on w.sem.address w.threads.sleepers

-- `p` is a call of `P`, or a woken thread's next turn of its loop; `other` is what the kernel does
-- that neither wakes a thread from this semaphore nor puts one to sleep on it.
pub data SemStep : SemWorld → SemWorld → Type 0 where
  p :
      (s s' : Semaphore) (k k' : Threads) (n m : ℕ) (through : Bool)
      → P (some s) k ≡ done (through, s', k')
      → SemStep
          (record { sem = s; threads = k; passed = n; posted = m })
          (record { sem = s'; threads = k'; passed = (if through then suc n else n); posted = m })
  v :
      (s s' : Semaphore) (k k' : Threads) (n m : ℕ)
      → V (some s) k ≡ done (s', k')
      → SemStep
          (record { sem = s; threads = k; passed = n; posted = m })
          (record { sem = s'; threads = k'; passed = n; posted = suc m })
  other :
      (s : Semaphore) (k k' : Threads) (n m : ℕ)
      → waiting_on s.address k'.sleepers ≡ waiting_on s.address k.sleepers
      → SemStep
          (record { sem = s; threads = k; passed = n; posted = m })
          (record { sem = s; threads = k'; passed = n; posted = m })

pub data SemSteps : SemWorld → SemWorld → Type 0 where
  stop : (w : SemWorld) → SemSteps w w
  step : (w w' w'' : SemWorld) → SemStep w w' → SemSteps w' w'' → SemSteps w w''

pub waiting_on-staying : (addr : ℕ) (xs : List (ℕ × ℕ)) → waiting_on addr (staying addr xs) ≡ []
waiting_on-staying addr [] = refl
waiting_on-staying addr ((t, a) ∷ xs) = elim (Bool-cases (a == addr)) [
  | inl e ↦ rw e (waiting_on-staying addr xs)
  | inr e ↦ rw (e, e) (waiting_on-staying addr xs)
]

abbrev asleep : Threads → ℕ → Threads
asleep k addr = record k { sleepers = k.sleepers ++ ((k.curthread, addr) ∷ []); curspl = 15 }

module _ (addr : ℕ) (k : Threads) where
  -- On count 0 `P` sleeps.
  pub P-zero :
      k.in_interrupt ≡ 0
      → P (some (record { address = addr; count = pos 0 })) k
        ≡ done (false, record { address = addr; count = pos 0 }, asleep k addr)
  unfolding P p_turn thread_sleep
  P-zero e = rw (eq→== k.in_interrupt 0 e, e)

  pub P-suc :
      (c : ℕ)
      → k.in_interrupt ≡ 0
      → P (some (record { address = addr; count = pos (suc c) })) k
        ≡ done (true, record { address = addr; count = pos c }, k)
  unfolding P p_turn thread_sleep
  P-suc c e = rw (eq→== k.in_interrupt 0 e)

  pub P-interrupt : (s : Semaphore) → (k.in_interrupt == 0) ≡ false → P (some s) k ≡ panic
  unfolding P
  P-interrupt s e = rw e

  pub V-small :
      (c : ℕ)
      → c + 1 < 2 ^ 31
      → V (some (record { address = addr; count = pos c })) k
        ≡ done (
          record { address = addr; count = pos (c + 1) },
          record k {
            sleepers = staying addr k.sleepers;
            ready = k.ready ++ waiting_on addr k.sleepers;
          },
        )
  unfolding V
  V-small c h = rw (
    lt→ltb (c + 1) (2 ^ 31) h,
    lt→ltb 0 (c + 1) (omega arith),
    thread_wakeup_lem (splhigh k) addr (omega arith),
  )

  pub V-large :
      (c : ℕ)
      → ltb (c + 1) (2 ^ 31) ≡ false
      → V (some (record { address = addr; count = pos c })) k ≡ undefined
  unfolding V
  V-large c h = rw h

-- The count is not negative; it and the calls of `P` that got through are the calls of `V` and the
-- count at first; and a thread sleeps only on count 0.
abbrev pub Conserved : ℕ → SemWorld → Type 0
Conserved n w =
    (c : ℕ) × (w.sem.count ≡ pos c) × (c + w.passed ≡ n + w.posted) × (0 < c → sem_waiters w ≡ [])

P-Conserved :
    (start addr : ℕ) (s' : Semaphore) (k k' : Threads) (c n m : ℕ) (through : Bool)
    → P (some (record { address = addr; count = pos c })) k ≡ done (through, s', k')
    → c + n ≡ start + m
    → (0 < c → waiting_on addr k.sleepers ≡ [])
    → Conserved start
        (record { sem = s'; threads = k'; passed = (if through then suc n else n); posted = m })
P-Conserved start addr s' k k' c n m through run sum idle =
    elim (Bool-cases (k.in_interrupt == 0)) [
      | inr e ↦ absurd (cc (run, P-interrupt addr k (record { address = addr; count = pos c }) e))
      | inl e ↦ by_count c (==→eq k.in_interrupt 0 e) run sum idle
    ]
  where
    by_count :
        (c : ℕ)
        → k.in_interrupt ≡ 0
        → P (some (record { address = addr; count = pos c })) k ≡ done (through, s', k')
        → c + n ≡ start + m
        → (0 < c → waiting_on addr k.sleepers ≡ [])
        → Conserved start
            (record { sem = s'; threads = k'; passed = (if through then suc n else n); posted = m })
    by_count zero e run sum idle =
        let r = done-injective _ (through, s', k') (sym (P-zero addr k e) ∙ run) in
        rw (sym (ap (λ x. x.0) r), sym (ap (λ x. x.1) r), sym (ap (λ x. x.2) r))
          (0, refl, sum, λ h. absurd (omega arith))
    by_count (suc c) e run sum idle =
        let r = done-injective _ (through, s', k') (sym (P-suc addr k c e) ∙ run) in
        rw (sym (ap (λ x. x.0) r), sym (ap (λ x. x.1) r), sym (ap (λ x. x.2) r))
          (c, refl, omega arith, λ h. idle (omega arith))

V-Conserved :
    (start addr : ℕ) (s' : Semaphore) (k k' : Threads) (c n m : ℕ)
    → V (some (record { address = addr; count = pos c })) k ≡ done (s', k')
    → c + n ≡ start + m
    → Conserved start (record { sem = s'; threads = k'; passed = n; posted = suc m })
V-Conserved start addr s' k k' c n m run sum = elim (Bool-cases (ltb (c + 1) (2 ^ 31))) [
  | inr e ↦ absurd (cc (run, V-large addr k c e))
  | inl e ↦
      let r =
        done-injective _ (s', k') (sym (V-small addr k c (ltb→lt (c + 1) (2 ^ 31) e)) ∙ run) in
      rw (sym (ap (λ x. x.0) r), sym (ap (λ x. x.1) r))
        (c + 1, refl, omega arith, λ h. waiting_on-staying addr k.sleepers)
]

step-Conserved :
    (start : ℕ) (w w' : SemWorld) → SemStep w w' → Conserved start w → Conserved start w'
step-Conserved start w w' (p s s' k k' n m through run) (c, count, sum, idle) =
    P-Conserved start s.address s' k k' c n m through (rw (sym count) run) sum idle
step-Conserved start w w' (v s s' k k' n m run) (c, count, sum, idle) =
    V-Conserved start s.address s' k k' c n m (rw (sym count) run) sum
step-Conserved start w w' (other s k k' n m same) (c, count, sum, idle) =
    (c, count, sum, λ h. same ∙ idle h)

-- However `P`, `V` and the rest of the kernel alternate, the count stays not negative, the calls of
-- `P` that got through and the count are together the calls of `V` and the count at first, and no
-- thread sleeps on the semaphore while the count is positive; if all this holds at first.
pub sem_conservation :
    (start : ℕ) (w w' : SemWorld) → SemSteps w w' → Conserved start w → Conserved start w'
sem_conservation start w w' (stop x) good = good
sem_conservation start a b (step w w' w'' s rest) good =
    sem_conservation start w' w'' rest (step-Conserved start w w' s good)
