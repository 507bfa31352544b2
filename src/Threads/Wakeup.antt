-- ===== src/Threads/Wakeup.antt =====
-- What `thread_wakeup`, `thread_wakeone` and `thread_hassleepers` do to the sleepers.
use cse_9201_os.Common.{
  ℕ, zero, suc, ◌+◌, ◌<◌, ◌≡◌, refl, ap, sym, ◌∙◌, List, [], ◌∷◌, ◌++◌, some, get_elem?, length,
  length-append, true, false, ltb, lt→ltb, le→ltb_false, ◌==◌, Bool-cases, inl, inr, if◌then◌else◌,
  arith, done,
}
use cse_9201_os.Threads.{
  Threads, array_remove, wakeup_loop, wakeone_loop, hassleepers_loop, thread_wakeup, thread_wakeone,
  thread_hassleepers,
}
use mathlib.Core.List.{append_assoc, append-nil}

-- The sleepers on other addresses, and the threads that sleep on `addr`, both in order.
abbrev pub staying : ℕ → List (ℕ × ℕ) → List (ℕ × ℕ)
staying addr [] = []
staying addr ((t, a) ∷ xs) = if a == addr then staying addr xs else (t, a) ∷ staying addr xs

abbrev pub waiting_on : ℕ → List (ℕ × ℕ) → List ℕ
waiting_on addr [] = []
waiting_on addr ((t, a) ∷ xs) = if a == addr then t ∷ waiting_on addr xs else waiting_on addr xs

-- The sleepers without the first one on `addr`, and that one.
abbrev pub without_first : ℕ → List (ℕ × ℕ) → List (ℕ × ℕ)
without_first addr [] = []
without_first addr ((t, a) ∷ xs) = if a == addr then xs else (t, a) ∷ without_first addr xs

abbrev pub first_of : List ℕ → List ℕ
first_of [] = []
first_of (t ∷ ts) = t ∷ []

abbrev pub has_any : List ℕ → ℕ
has_any [] = 0
has_any (t ∷ ts) = 1

module _ {ℓ} {A : Type ℓ} where
  get_elem?-append : (pre xs : List A) (x : A) → get_elem? (pre ++ (x ∷ xs)) (length pre) ≡ some x
  get_elem?-append [] xs x = refl
  get_elem?-append (y ∷ pre) xs x = get_elem?-append pre xs x

  array_remove-append :
      (pre xs : List A) (x : A) → array_remove (pre ++ (x ∷ xs)) (length pre) ≡ pre ++ xs
  array_remove-append [] xs x = refl
  array_remove-append (y ∷ pre) xs x = ap (λ l. y ∷ l) (array_remove-append pre xs x)

  in_range : (pre xs : List A) (x : A) → ltb (length pre) (length (pre ++ (x ∷ xs))) ≡ true
  in_range pre xs x = lt→ltb _ _ (omega (arith, length-append pre (x ∷ xs)))

  past_end : (pre : List A) → ltb (length pre) (length (pre ++ [])) ≡ false
  past_end pre = le→ltb_false _ _ (omega (arith, length-append pre []))

  length-one : (pre : List A) (x : A) → length pre + 1 ≡ length (pre ++ (x ∷ []))
  length-one pre x = omega (arith, length-append pre (x ∷ []))

module _ (addr : ℕ) where
  wakeup_loop-end :
      (fuel : ℕ) (pre : List (ℕ × ℕ)) (ready : List ℕ)
      → wakeup_loop (suc fuel) (length pre) addr (pre ++ []) ready ≡ done (pre ++ [], ready)
  unfolding wakeup_loop
  wakeup_loop-end fuel pre ready = rw (past_end pre)

  wakeup_loop-hit :
      (fuel t a : ℕ) (pre xs : List (ℕ × ℕ)) (ready : List ℕ)
      → (a == addr) ≡ true
      → wakeup_loop (suc fuel) (length pre) addr (pre ++ ((t, a) ∷ xs)) ready
        ≡ wakeup_loop fuel (length pre) addr (pre ++ xs) (ready ++ (t ∷ []))
  unfolding wakeup_loop
  wakeup_loop-hit fuel t a pre xs ready e =
      rw (
        in_range pre xs (t, a),
        get_elem?-append pre xs (t, a),
        e,
        array_remove-append pre xs (t, a),
      )

  wakeup_loop-miss :
      (fuel t a : ℕ) (pre xs : List (ℕ × ℕ)) (ready : List ℕ)
      → (a == addr) ≡ false
      → wakeup_loop (suc fuel) (length pre) addr (pre ++ ((t, a) ∷ xs)) ready
        ≡ wakeup_loop fuel (length pre + 1) addr (pre ++ ((t, a) ∷ xs)) ready
  unfolding wakeup_loop
  wakeup_loop-miss fuel t a pre xs ready e =
      rw (in_range pre xs (t, a), get_elem?-append pre xs (t, a), e)

  wakeup_loop_lem :
      (xs pre : List (ℕ × ℕ)) (ready : List ℕ) (fuel : ℕ)
      → length xs < fuel
      → wakeup_loop fuel (length pre) addr (pre ++ xs) ready
        ≡ done (pre ++ staying addr xs, ready ++ waiting_on addr xs)
  wakeup_loop_lem xs pre ready zero h = absurd (omega arith)
  wakeup_loop_lem [] pre ready (suc fuel) h =
      wakeup_loop-end fuel pre ready ∙ ap (λ l. done (pre ++ [], l)) (sym (append-nil ready))
  wakeup_loop_lem ((t, a) ∷ xs) pre ready (suc fuel) h = elim (Bool-cases (a == addr)) [
    | inl e ↦
        wakeup_loop-hit fuel t a pre xs ready e
        ∙ wakeup_loop_lem xs pre (ready ++ (t ∷ [])) fuel (omega arith)
        ∙ rw (e, append_assoc ready (t ∷ []) (waiting_on addr xs))
    | inr e ↦
        wakeup_loop-miss fuel t a pre xs ready e
        ∙ regroup fuel pre xs t a ready
        ∙ wakeup_loop_lem xs (pre ++ ((t, a) ∷ [])) ready fuel (omega arith)
        ∙ rw (e, append_assoc pre ((t, a) ∷ []) (staying addr xs))
  ]
    where
      regroup :
          (fuel : ℕ) (pre xs : List (ℕ × ℕ)) (t a : ℕ) (ready : List ℕ)
          → wakeup_loop fuel (length pre + 1) addr (pre ++ ((t, a) ∷ xs)) ready
            ≡ wakeup_loop fuel
                (length (pre ++ ((t, a) ∷ [])))
                addr
                ((pre ++ ((t, a) ∷ [])) ++ xs)
                ready
      regroup fuel pre xs t a ready = rw (length-one pre (t, a), append_assoc pre ((t, a) ∷ []) xs)

  wakeone_loop-end :
      (fuel : ℕ) (pre : List (ℕ × ℕ)) (ready : List ℕ)
      → wakeone_loop (suc fuel) (length pre) addr (pre ++ []) ready ≡ done (pre ++ [], ready)
  unfolding wakeone_loop
  wakeone_loop-end fuel pre ready = rw (past_end pre)

  wakeone_loop-hit :
      (fuel t a : ℕ) (pre xs : List (ℕ × ℕ)) (ready : List ℕ)
      → (a == addr) ≡ true
      → wakeone_loop (suc fuel) (length pre) addr (pre ++ ((t, a) ∷ xs)) ready
        ≡ done (pre ++ xs, ready ++ (t ∷ []))
  unfolding wakeone_loop
  wakeone_loop-hit fuel t a pre xs ready e =
      rw (
        in_range pre xs (t, a),
        get_elem?-append pre xs (t, a),
        e,
        array_remove-append pre xs (t, a),
      )

  wakeone_loop-miss :
      (fuel t a : ℕ) (pre xs : List (ℕ × ℕ)) (ready : List ℕ)
      → (a == addr) ≡ false
      → wakeone_loop (suc fuel) (length pre) addr (pre ++ ((t, a) ∷ xs)) ready
        ≡ wakeone_loop fuel
            (length (pre ++ ((t, a) ∷ [])))
            addr
            ((pre ++ ((t, a) ∷ [])) ++ xs)
            ready
  unfolding wakeone_loop
  wakeone_loop-miss fuel t a pre xs ready e = rw (
    in_range pre xs (t, a),
    get_elem?-append pre xs (t, a),
    e,
    length-one pre (t, a),
    append_assoc pre ((t, a) ∷ []) xs,
  )

  wakeone_loop_lem :
      (xs pre : List (ℕ × ℕ)) (ready : List ℕ) (fuel : ℕ)
      → length xs < fuel
      → wakeone_loop fuel (length pre) addr (pre ++ xs) ready
        ≡ done (pre ++ without_first addr xs, ready ++ first_of (waiting_on addr xs))
  wakeone_loop_lem xs pre ready zero h = absurd (omega arith)
  wakeone_loop_lem [] pre ready (suc fuel) h =
      wakeone_loop-end fuel pre ready ∙ ap (λ l. done (pre ++ [], l)) (sym (append-nil ready))
  wakeone_loop_lem ((t, a) ∷ xs) pre ready (suc fuel) h = elim (Bool-cases (a == addr)) [
    | inl e ↦ wakeone_loop-hit fuel t a pre xs ready e ∙ rw e
    | inr e ↦
        wakeone_loop-miss fuel t a pre xs ready e
        ∙ wakeone_loop_lem xs (pre ++ ((t, a) ∷ [])) ready fuel (omega arith)
        ∙ rw (e, append_assoc pre ((t, a) ∷ []) (without_first addr xs))
  ]

  hassleepers_loop-end :
      (fuel : ℕ) (pre : List (ℕ × ℕ))
      → hassleepers_loop (suc fuel) (length pre) addr (pre ++ []) ≡ done 0
  unfolding hassleepers_loop
  hassleepers_loop-end fuel pre = rw (past_end pre)

  hassleepers_loop-hit :
      (fuel t a : ℕ) (pre xs : List (ℕ × ℕ))
      → (a == addr) ≡ true
      → hassleepers_loop (suc fuel) (length pre) addr (pre ++ ((t, a) ∷ xs)) ≡ done 1
  unfolding hassleepers_loop
  hassleepers_loop-hit fuel t a pre xs e =
      rw (in_range pre xs (t, a), get_elem?-append pre xs (t, a), e)

  hassleepers_loop-miss :
      (fuel t a : ℕ) (pre xs : List (ℕ × ℕ))
      → (a == addr) ≡ false
      → hassleepers_loop (suc fuel) (length pre) addr (pre ++ ((t, a) ∷ xs))
        ≡ hassleepers_loop fuel (length (pre ++ ((t, a) ∷ []))) addr ((pre ++ ((t, a) ∷ [])) ++ xs)
  unfolding hassleepers_loop
  hassleepers_loop-miss fuel t a pre xs e = rw (
    in_range pre xs (t, a),
    get_elem?-append pre xs (t, a),
    e,
    length-one pre (t, a),
    append_assoc pre ((t, a) ∷ []) xs,
  )

  hassleepers_loop_lem :
      (xs pre : List (ℕ × ℕ)) (fuel : ℕ)
      → length xs < fuel
      → hassleepers_loop fuel (length pre) addr (pre ++ xs) ≡ done (has_any (waiting_on addr xs))
  hassleepers_loop_lem xs pre zero h = absurd (omega arith)
  hassleepers_loop_lem [] pre (suc fuel) h = hassleepers_loop-end fuel pre
  hassleepers_loop_lem ((t, a) ∷ xs) pre (suc fuel) h = elim (Bool-cases (a == addr)) [
    | inl e ↦ hassleepers_loop-hit fuel t a pre xs e ∙ rw e
    | inr e ↦
        hassleepers_loop-miss fuel t a pre xs e
        ∙ hassleepers_loop_lem xs (pre ++ ((t, a) ∷ [])) fuel (omega arith)
        ∙ rw e
  ]

module _ (k : Threads) (addr : ℕ) (off : 0 < k.curspl) where
  -- With interrupts off `thread_wakeup` ends, and moves exactly the threads that sleep on `addr`,
  -- in their order, from the sleepers to the end of those made runnable; the other sleepers keep
  -- their order.
  pub thread_wakeup_lem :
      thread_wakeup k addr
      ≡ done (record k {
        sleepers = staying addr k.sleepers;
        ready = k.ready ++ waiting_on addr k.sleepers;
      })
  unfolding thread_wakeup
  thread_wakeup_lem = rw (
    lt→ltb 0 k.curspl off,
    wakeup_loop_lem addr k.sleepers [] k.ready (suc (length k.sleepers)) (omega arith),
  )

  -- With interrupts off `thread_wakeone` ends, and wakes the thread that has slept on `addr` for
  -- longest, or changes nothing when no thread sleeps on it.
  pub thread_wakeone_lem :
      thread_wakeone k addr
      ≡ done (record k {
        sleepers = without_first addr k.sleepers;
        ready = k.ready ++ first_of (waiting_on addr k.sleepers);
      })
  unfolding thread_wakeone
  thread_wakeone_lem = rw (
    lt→ltb 0 k.curspl off,
    wakeone_loop_lem addr k.sleepers [] k.ready (suc (length k.sleepers)) (omega arith),
  )

  -- With interrupts off `thread_hassleepers` answers 0 exactly when no thread sleeps on `addr`, and
  -- else 1.
  pub thread_hassleepers_lem :
      thread_hassleepers k addr ≡ done (has_any (waiting_on addr k.sleepers))
  unfolding thread_hassleepers
  thread_hassleepers_lem = rw (
    lt→ltb 0 k.curspl off,
    hassleepers_loop_lem addr k.sleepers [] (suc (length k.sleepers)) (omega arith),
  )
