-- ===== src/Queue/Grow.antt =====
-- `q_grow` moves the values to a larger array, in order.
use cse_9201_os.Common.{
  ℕ, zero, suc, ◌+◌, ◌*◌, ◌%◌, ◌^◌, ◌≤◌, ◌<◌, ◌≡◌, refl, ap, sym, ◌∙◌, ◌≢◌, ◌⊎◌, inl, inr, List, [],
  ◌∷◌, ◌++◌, Option, none, some, Option-cases, Bool-cases, arith, length, ltb, lt→ltb, ne→==_false,
  eq→==, if◌then◌else◌, Res, done, Returns, Returns-mono, Returns-eq, ◌>>=◌, get_elem?,
}
use cse_9201_os.Common.Cells.{cells, cells-suc, cells-head, mod-ne_start, mod-step}
use cse_9201_os.Common.Errno.{enomem}
use cse_9201_os.Queue.{Queue, int_double, IsAllocator, q_grow_size, q_move, q_grow, q_addtail_depth}
use cse_9201_os.Queue.Inv.{
  IsValid, count, contents, putted, putted-IsValid, count-putted, contents-putted, full_iff,
  count-lt-size, empty_iff, write_end,
}
use mathlib.Core.List.{append_assoc, append-nil}
use native.Mathlib.Nat.{pow-suc, mod-eq_of_lt}

q_grow_size-suc :
    (f n t : ℕ)
    → q_grow_size (suc f) n t
      ≡ (if ltb n t then (do m ← int_double n; q_grow_size f m t) else done n)
unfolding q_grow_size
q_grow_size-suc f n t = refl

int_double_lem : (n : ℕ) → 0 < n → n < 2 ^ 30 → int_double n ≡ done (n * 2)
int_double_lem n p q = ground arith

-- Doubling reaches the target before it overflows.
pub q_grow_size-Returns :
    (f n t : ℕ)
    → 0 < n
    → n < 2 ^ 30
    → t ≤ 2 ^ 29
    → t ≤ n * 2 ^ f
    → Returns (q_grow_size (suc f) n t) (λ m. (t ≤ m) × (n ≤ m) × (m < 2 ^ 30))
q_grow_size-Returns zero n t p q r h = elim (Bool-cases (ltb n t)) [
  | inl e ↦ absurd (ground arith)
  | inr e ↦ rw (q_grow_size-suc zero n t, e) (ground arith, omega arith, q)
]
q_grow_size-Returns (suc f) n t p q r h = elim (Bool-cases (ltb n t)) [
  | inl e ↦
      let lt : n < t = ground arith in
      let more : t ≤ n * 2 * 2 ^ f = omega (arith, ap (λ (k : ℕ). n * k) (pow-suc 2 f)) in
      let m = q_grow_size-Returns f (n * 2) t (omega arith) (omega arith) r more in
      rw (q_grow_size-suc (suc f) n t, e, int_double_lem n p q)
        (Returns-mono (λ m. (t ≤ m) × (n * 2 ≤ m) × (m < 2 ^ 30))
          (λ m. (t ≤ m) × (n ≤ m) × (m < 2 ^ 30)) _ m (λ m b. omega arith))
  | inr e ↦ rw (q_grow_size-suc (suc f) n t, e) (ground arith, omega arith, q)
]

module _ {ℓ} {A : Type ℓ} (add : Queue A → A → Res (ℕ × Queue A)) where
  q_move-stop :
      (f : ℕ) (old : List A) (s i onw : ℕ) (q : Queue A)
      → i ≡ onw
      → q_move add (suc f) old s i onw q ≡ done q
  unfolding q_move
  q_move-stop f old s i onw q e = rw (eq→== i onw e)

  q_move-go :
      (f : ℕ) (old : List A) (s i onw : ℕ) (q q' : Queue A) (x : A)
      → i ≢ onw
      → get_elem? old i ≡ some x
      → add q x ≡ done (0, q')
      → q_move add (suc f) old s i onw q ≡ q_move add f old s ((i + 1) % s) onw q'
  unfolding q_move
  q_move-go f old s i onw q q' x ne e h = rw (ne→==_false i onw ne, e, h)

module _ {ℓ} {A : Type ℓ} (kmalloc : ℕ → Option (List A)) where
  -- With room left `q_addtail` does not grow.
  pub q_addtail_depth-room :
      (d : ℕ) (q : Queue A) (x : A)
      → IsValid q
      → count q + 1 < q.size
      → q_addtail_depth kmalloc (suc d) q x ≡ done (0, putted q x)
  unfolding q_addtail_depth
  q_addtail_depth-room d q x v h = rw (
    lt→ltb 0 q.size (omega arith),
    ne→==_false ((q.nextwrite + 1) % q.size) q.nextread (λ e. omega (arith, (full_iff q v).0 e)),
    lt→ltb q.nextwrite (length q.cell) (omega arith),
  )

  -- The loop of `q_grow` from old cell `i`, with `n` values to go.
  q_move-done :
      (n fuel d : ℕ) (old : List A) (s i onw : ℕ) (q : Queue A)
      → n < fuel
      → s ≤ length old
      → i < s
      → n < s
      → onw ≡ (i + n) % s
      → IsValid q
      → count q + n < q.size
      → (q' : Queue A) × (q_move (q_addtail_depth kmalloc (suc d)) fuel old s i onw q ≡ done q')
        × IsValid q'
        × (q'.size ≡ q.size)
        × (count q' ≡ count q + n)
        × (contents q' ≡ contents q ++ cells old s i n)
  q_move-done n zero d old s i onw q f a b c e v h = absurd (omega arith)
  q_move-done zero (suc fuel) d old s i onw q f a b c e v h = (
    q,
    q_move-stop (q_addtail_depth kmalloc (suc d)) fuel old s i onw q
        (omega (arith, mod-eq_of_lt {n = i + 0} {m = s} (omega arith))),
    v,
    refl,
    omega arith,
    sym (append-nil (contents q)),
  )
  q_move-done (suc n) (suc fuel) d old s i onw q f a b c e v h =
      let (x, get, tail) = cells-head old s i (suc n) a b (omega arith) in
      let room : count q + 1 < q.size = omega arith in
      let grown = count-putted q x v room in
      let (q', run, v', size', count', contents') =
        q_move-done n fuel d old s ((i + 1) % s) onw (putted q x) (omega arith) a (omega arith)
          (omega arith) (e ∙ sym (mod-step i n s b (omega arith))) (putted-IsValid q x v)
          (omega arith) in
      (
        q',
        q_move-go (q_addtail_depth kmalloc (suc d)) fuel old s i onw q (putted q x) x
              (λ g. mod-ne_start i (suc n) s b c (omega arith) (sym e ∙ sym g)) get
              (q_addtail_depth-room d q x v room)
            ∙ run,
        v',
        size',
        omega arith,
        contents'
            ∙ ap (λ l. l ++ cells old s ((i + 1) % s) n) (contents-putted q x v room)
            ∙ append_assoc (contents q) (x ∷ []) (cells old s ((i + 1) % s) n)
            ∙ ap (λ l. contents q ++ l) (sym (cells-suc old s i n x get)),
      )

  -- What a call of `q_grow` leaves: a larger queue with the same values, or, when `kmalloc` gives
  -- NULL, the queue as it was.
  abbrev pub Grown : Queue A → ℕ → ℕ → Queue A → Type ℓ
  Grown q target r q' =
      ((r ≡ 0)
        × IsValid q'
        × (target ≤ q'.size)
        × (count q' ≡ count q)
        × (contents q' ≡ contents q))
      ⊎ ((r ≡ enomem) × (q' ≡ q) × ((m : ℕ) × (kmalloc m ≡ none)))

  -- The values go over to the new array.
  q_grow-move :
      (d m : ℕ) (q : Queue A) (b : List A)
      → IsValid q
      → q.size ≤ m
      → m < 2 ^ 30
      → length b ≡ m
      → (q' : Queue A) × (q_move
            (q_addtail_depth kmalloc (suc d))
            q.size
            q.cell
            q.size
            q.nextread
            q.nextwrite
            (record { size = m; nextwrite = 0; nextread = 0; cell = b })
          ≡ done q')
        × IsValid q'
        × (q'.size ≡ m)
        × (count q' ≡ count q)
        × (contents q' ≡ contents q)
  q_grow-move d m q b v le small len =
      let new : Queue A = record { size = m; nextwrite = 0; nextread = 0; cell = b } in
      let new_valid : IsValid new = omega arith in
      let new_count : count new ≡ 0 = (empty_iff new new_valid).0 refl in
      let (q', run, v', size', count', contents') =
        q_move-done (count q) q.size d q.cell q.size q.nextread q.nextwrite new (count-lt-size q v)
          v.storage v.read_in (count-lt-size q v) (write_end q v) new_valid
          (omega (arith, count-lt-size q v)) in
      (q', run, v', size', omega arith, contents' ∙ ap (λ k. cells b m 0 k ++ contents q) new_count)

  q_grow-sized :
      (d m : ℕ) (q : Queue A) (target : ℕ)
      → IsAllocator kmalloc
      → IsValid q
      → q_grow_size 32 q.size target ≡ done m
      → target ≤ m
      → q.size ≤ m
      → m < 2 ^ 30
      → (r : ℕ) × (q' : Queue A) × (q_grow kmalloc (q_addtail_depth kmalloc (suc d)) q target
          ≡ done (r, q'))
        × Grown q target r q'
  unfolding q_grow
  q_grow-sized d m q target alloc v size_eq le_t le_m small =
      elim (Option-cases (kmalloc (m * 4 % 2 ^ 32))) [
        | inl null ↦ (enomem, q, rw (size_eq, null), inr (refl, refl, (m * 4 % 2 ^ 32, null)))
        | inr (b, ok) ↦
            let (q', run, v', size', count', contents') =
              q_grow-move d m q b v le_m small (omega (arith, alloc (m * 4 % 2 ^ 32) b ok)) in
            (0, q', rw (size_eq, ok, run), inl (refl, v', omega arith, count', contents'))
      ]

  pub q_grow-Grown :
      (d : ℕ) (q : Queue A) (target : ℕ)
      → IsAllocator kmalloc
      → IsValid q
      → target ≤ 2 ^ 29
      → (r : ℕ) × (q' : Queue A) × (q_grow kmalloc (q_addtail_depth kmalloc (suc d)) q target
          ≡ done (r, q'))
        × Grown q target r q'
  q_grow-Grown d q target alloc v t =
      let (m, size_eq, (le_t, le_m, small)) =
        Returns-eq (λ m. (target ≤ m) × (q.size ≤ m) × (m < 2 ^ 30)) (q_grow_size 32 q.size target)
          (q_grow_size-Returns 31 q.size target (omega arith) v.small t (omega arith)) in
      q_grow-sized d m q target alloc v size_eq le_t le_m small

  -- With no memory at all a queue does not grow.
  pub q_grow-null :
      (d : ℕ) (q : Queue A) (target : ℕ)
      → IsValid q
      → target ≤ 2 ^ 29
      → ((m : ℕ) → kmalloc m ≡ none)
      → q_grow kmalloc (q_addtail_depth kmalloc (suc d)) q target ≡ done (enomem, q)
  unfolding q_grow
  q_grow-null d q target v t null =
      let (m, size_eq, _) =
        Returns-eq (λ m. (target ≤ m) × (q.size ≤ m) × (m < 2 ^ 30)) (q_grow_size 32 q.size target)
          (q_grow_size-Returns 31 q.size target (omega arith) v.small t (omega arith)) in
      rw (size_eq, null (m * 4 % 2 ^ 32))

  -- The two ways in which `q_addtail` ends.
  abbrev pub Added : Queue A → A → ℕ → Queue A → Type ℓ
  Added q x r q' =
      ((r ≡ 0) × IsValid q' × (q.size ≤ q'.size) × (contents q' ≡ contents q ++ (x ∷ [])))
      ⊎ ((r ≡ enomem) × (q' ≡ q) × (count q + 1 ≡ q.size) × ((m : ℕ) × (kmalloc m ≡ none)))
