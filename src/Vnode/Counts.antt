-- ===== src/Vnode/Counts.antt =====
-- The counts of a vnode after any sequence of calls by its holders.
use cse_9201_os.Common.{
  ℕ, ◌+◌, ◌≡◌, refl, ap, ◌∙◌, Bool, true, false, not, ◌&&◌, Option, some, List, [], ◌∷◌, arith, ltb,
  lt→ltb, ltb→lt, le→ltb_false, Bool-cases, ◌-◌, ◌<◌, ◌^◌, inl, inr, ◌==◌, if◌then◌else◌, Res, done,
  panic, undefined, ◌>>=◌,
}
use mathlib.Core.Bool.{false≢true}
use cse_9201_os.Common.Int.{pos, ◌+ℤ◌, ◌-ℤ◌, ltb_ℤ}
use cse_9201_os.Vnode.{
  Vnode, gone, eq_ℤ, vnode_init, vnode_kill, vnode_incref, vnode_decref, vnode_incopen,
  vnode_decopen, check_counts,
}

-- the calls that change the counts
pub data Event : Type 0 where
  incref decref incopen decopen : Event

abbrev pub same : Event → Event → ℕ
same incref incref = 1
same decref decref = 1
same incopen incopen = 1
same decopen decopen = 1
same _ _ = 0

abbrev pub number : Event → List Event → ℕ
number e [] = 0
number e (x ∷ es) = same e x + number e es

-- The calls respect the counts `n` and `k`: nobody gives back the last reference or an open that
-- there is not, and the counts fit an `int`.
abbrev pub allowed : ℕ → ℕ → List Event → Bool
allowed n k [] = true
allowed n k (incref ∷ es) = ltb (n + 1) (2 ^ 31) && allowed (n + 1) k es
allowed n k (decref ∷ es) = ltb 1 n && allowed (n - 1) k es
allowed n k (incopen ∷ es) = ltb (k + 1) (2 ^ 31) && allowed n (k + 1) es
allowed n k (decopen ∷ es) = ltb 0 k && allowed n (k - 1) es

and-left : (a b : Bool) → a && b ≡ true → a ≡ true
and-left true b h = refl
and-left false b h = h

and-right : (a b : Bool) → a && b ≡ true → b ≡ true
and-right true b h = h
and-right false b h = absurd (false≢true h)

module _ {O F D : Type 0} where
  -- The calls one after the other; what follows a call of `VOP_RECLAIM` is undefined.
  pub run : List Event → Vnode O F D → Res (Vnode O F D)
  unfolding vnode_incref vnode_decref vnode_incopen vnode_decopen
  run [] vn = done vn
  run (incref ∷ es) vn = do t ← vnode_incref vn; run es t
  run (decref ∷ es) vn = do
    (reclaim, t) ← vnode_decref vn
    let rest = run es t
    if reclaim then undefined else rest
  run (incopen ∷ es) vn = do t ← vnode_incopen vn; run es t
  run (decopen ∷ es) vn = do (close, t) ← vnode_decopen vn; run es t

one_more : (n : ℕ) → pos n +ℤ pos 1 ≡ pos (n + 1)
unfolding ◌+ℤ◌
one_more n = ground arith

one_less : (n : ℕ) → 0 < n → pos n -ℤ pos 1 ≡ pos (n - 1)
unfolding ◌-ℤ◌
one_less n h = ground arith

eq_pos : (n m : ℕ) → eq_ℤ (pos n) (pos m) ≡ (n == m)
eq_pos n m = ground arith

ltb_pos : (n m : ℕ) → ltb_ℤ (pos n) (pos m) ≡ ltb n m
ltb_pos n m = ground arith

last_iff : (n d i : ℕ) → 0 < n → n + d ≡ 1 + i → (not (ltb 1 n) ≡ (d == i)) × ((n == 1) ≡ (d == i))
last_iff n d i p h = (ground arith, ground arith)

none_iff : (k d i : ℕ) → k + d ≡ 0 + i → (k == 0) ≡ (d == i)
none_iff k d i h = ground arith

if_pair {ℓ} :
    {A : Type ℓ} (b : Bool) (x y : A)
    → ◌≡◌ {A = Bool × A} (if b then (false, x) else (true, y)) (not b, if b then x else y)
if_pair true x y = refl
if_pair false x y = refl

module _ {O F D : Type 0} (vn : Vnode O F D) where
  -- the vnode with `n` references and `k` opens
  abbrev pub counted : ℕ → ℕ → Vnode O F D
  counted n k = record vn { vn_refcount = pos n; vn_opencount = pos k; vn_countlock = true }

  incref_lem : (n k : ℕ) → n + 1 < 2 ^ 31 → vnode_incref (counted n k) ≡ done (counted (n + 1) k)
  unfolding vnode_incref
  incref_lem n k h = rw (one_more n, lt→ltb (n + 1) (2 ^ 31) h) refl

  incopen_lem : (n k : ℕ) → k + 1 < 2 ^ 31 → vnode_incopen (counted n k) ≡ done (counted n (k + 1))
  unfolding vnode_incopen
  incopen_lem n k h = rw (one_more k, lt→ltb (k + 1) (2 ^ 31) h) refl

  decref_lem :
      (n k : ℕ)
      → 0 < n
      → vnode_decref (counted n k)
        ≡ done (if ltb 1 n then (false, counted (n - 1) k) else (true, counted n k))
  unfolding vnode_decref
  decref_lem n k h =
      rw (ltb_pos 0 n, ltb_pos 1 n, lt→ltb 0 n h, one_less n h)
        (elim (Bool-cases (ltb 1 n)) [ inl b ↦ rw b refl | inr b ↦ rw b refl ])

  decopen_lem :
      (n k : ℕ)
      → 0 < k
      → vnode_decopen (counted n k) ≡ done (not (ltb 0 (k - 1)), counted n (k - 1))
  unfolding vnode_decopen
  decopen_lem n k h = rw (ltb_pos 0 k, lt→ltb 0 k h, one_less k h, ltb_pos 0 (k - 1)) refl

  kill_lem :
      (n k : ℕ) → vnode_kill (counted n k) ≡ (if (n == 1) && (k == 0) then done gone else panic)
  unfolding vnode_kill
  kill_lem n k =
      rw (eq_pos n 1, eq_pos k 0)
        (elim (Bool-cases (n == 1)) [
          | inr b ↦ rw b refl
          | inl b ↦ rw b (elim (Bool-cases (k == 0)) [ inl c ↦ rw c refl | inr c ↦ rw c refl ])
        ])

  -- What a sequence that respects the counts leaves.
  run_lem :
      (es : List Event) (n k : ℕ)
      → 0 < n
      → allowed n k es ≡ true
      → (n' : ℕ) × (k' : ℕ) × (run es (counted n k) ≡ done (counted n' k'))
        × (0 < n')
        × (n' + number decref es ≡ n + number incref es)
        × (k' + number decopen es ≡ k + number incopen es)
  unfolding run
  run_lem [] n k p h = (n, k, refl, p, refl, refl)
  run_lem (incref ∷ es) n k p h =
      let lt = ltb→lt (n + 1) (2 ^ 31) (and-left (ltb (n + 1) (2 ^ 31)) (allowed (n + 1) k es) h) in
      let (n', k', e, q, r, o) =
        run_lem es (n + 1) k (omega arith)
          (and-right (ltb (n + 1) (2 ^ 31)) (allowed (n + 1) k es) h) in
      (n', k', rw (incref_lem n k lt) e, q, omega (arith, r), omega (arith, o))
  run_lem (decref ∷ es) n k p h =
      let b = and-left (ltb 1 n) (allowed (n - 1) k es) h in
      let lt = ltb→lt 1 n b in
      let (n', k', e, q, r, o) =
        run_lem es (n - 1) k (omega arith) (and-right (ltb 1 n) (allowed (n - 1) k es) h) in
      (n', k', rw (decref_lem n k p, b) e, q, omega (arith, r), omega (arith, o))
  run_lem (incopen ∷ es) n k p h =
      let lt = ltb→lt (k + 1) (2 ^ 31) (and-left (ltb (k + 1) (2 ^ 31)) (allowed n (k + 1) es) h) in
      let (n', k', e, q, r, o) =
        run_lem es n (k + 1) p (and-right (ltb (k + 1) (2 ^ 31)) (allowed n (k + 1) es) h) in
      (n', k', rw (incopen_lem n k lt) e, q, omega (arith, r), omega (arith, o))
  run_lem (decopen ∷ es) n k p h =
      let lt = ltb→lt 0 k (and-left (ltb 0 k) (allowed n (k - 1) es) h) in
      let (n', k', e, q, r, o) =
        run_lem es n (k - 1) p (and-right (ltb 0 k) (allowed n (k - 1) es) h) in
      (n', k', rw (decopen_lem n k lt) e, q, omega (arith, r), omega (arith, o))

  check_lem : (n k : ℕ) → 0 < n → check_counts (counted n k) false ≡ done tt
  unfolding check_counts
  check_lem n k p =
      rw
        (
          ltb_pos n 0,
          ltb_pos 0 n,
          ltb_pos k 0,
          le→ltb_false n 0 (omega arith),
          le→ltb_false k 0 (omega arith),
          lt→ltb 0 n p,
        )
        refl

module _ {O F D : Type 0} (vn : Vnode O F D) where
  -- After `vnode_init`, calls of `vnode_incref`, `vnode_decref`, `vnode_incopen` and
  -- `vnode_decopen` in any order that never gives back the last reference, or an open that there is
  -- not, or overflows a count, all return, and none calls `VOP_RECLAIM`. Then `vnode_decref` calls
  -- it exactly when as many references were given back as taken since, `vnode_check` accepts the
  -- counts, and `vnode_kill` clears the vnode when that holds of both the references and the opens,
  -- and panics otherwise.
  pub counts_lem :
      (es : List Event) (ops : O) (fs : Option F) (fsdata : Option D)
      → allowed 1 0 es ≡ true
      → (v t u : Vnode O F D) × (vnode_init vn (some ops) fs fsdata true ≡ done (0, v))
        × (run es v ≡ done t)
        × (vnode_decref t ≡ done (number decref es == number incref es, u))
        × (check_counts t false ≡ done tt)
        × (vnode_kill t ≡ (
            if (number decref es == number incref es) && (number decopen es == number incopen es)
            then done gone
            else panic))
  unfolding vnode_init
  counts_lem es ops fs fsdata h =
      let base : Vnode O F D = record vn { vn_ops = some ops; vn_fs = fs; vn_data = fsdata } in
      let (n, k, e, p, r, o) = run_lem base es 1 0 (omega arith) h in
      let flags = last_iff n (number decref es) (number incref es) p r in
      (
        counted base 1 0,
        counted base n k,
        if ltb 1 n then counted base (n - 1) k else counted base n k,
        refl,
        e,
        decref_lem base n k p
            ∙ ap done (if_pair (ltb 1 n) (counted base (n - 1) k) (counted base n k))
            ∙ ap (λ b. done (b, if ltb 1 n then counted base (n - 1) k else counted base n k))
                flags.0,
        check_lem base n k p,
        kill_lem base n k
            ∙ ap (λ b. if b && (k == 0) then done gone else panic) flags.1
            ∙ ap (λ b. if (number decref es == number incref es) && b then done gone else panic)
                (none_iff k (number decopen es) (number incopen es) o),
      )
