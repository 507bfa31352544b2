-- ===== src/Queue/Inv.antt =====
-- The representation of `struct queue`: what makes it well formed, and the values that it holds.
use cse_9201_os.Common.{
  ℕ, suc, ◌+◌, ◌-◌, ◌⊎◌, inl, inr, ◌%◌, ◌^◌, ◌≤◌, ◌<◌, ◌≡◌, ap, ◌∙◌, List, ◌∷◌, [], ◌++◌, ◌↔◌,
  arith, dec_lt, dec_le, length, set, length-set,
}
use cse_9201_os.Common.Cells.{cells, cells-set_at, length-cells, mod_wrap}
use cse_9201_os.Queue.{Queue}
use native.Mathlib.Nat.{mod-eq_of_lt}

-- At 2 ^ 30 cells the size in bytes would pass 32 bits.
pub record IsValid {ℓ} {A : Type ℓ} (q : Queue A) : Type 0 where
  pub storage : q.size ≤ length q.cell
  pub small : q.size < 2 ^ 30
  pub read_in : q.nextread < q.size
  pub write_in : q.nextwrite < q.size

next_cases :
    (n s : ℕ) → n < s → ((suc n < s) × ((n + 1) % s ≡ n + 1)) ⊎ ((s ≡ suc n) × ((n + 1) % s ≡ 0))
next_cases n s h = elim (dec_lt (suc n) s) [
  | yes a ↦ inl (a, mod-eq_of_lt (omega arith))
  | no a ↦ inr (omega arith, omega (arith, mod_wrap (n + 1) s (omega arith) (omega arith)))
]

module _ {ℓ} {A : Type ℓ} where
  abbrev pub count : Queue A → ℕ
  count q = (q.nextwrite + q.size - q.nextread) % q.size

  -- the values in the queue, oldest first
  abbrev pub contents : Queue A → List A
  contents q = cells q.cell q.size q.nextread (count q)

  count_cases :
      (q : Queue A)
      → IsValid q
      → ((q.nextread ≤ q.nextwrite) × (count q ≡ q.nextwrite - q.nextread))
        ⊎ ((q.nextwrite < q.nextread) × (count q ≡ q.nextwrite + q.size - q.nextread))
  count_cases q v = elim (dec_le q.nextread q.nextwrite) [
    | yes h ↦ inl (
      h,
      omega
          (arith, mod_wrap (q.nextwrite + q.size - q.nextread) q.size (omega arith) (omega arith)),
    )
    | no h ↦ inr (omega arith, mod-eq_of_lt (omega arith))
  ]

  pub count-lt-size : (q : Queue A) → IsValid q → count q < q.size
  count-lt-size q v = omega (arith, count_cases q v)

  pub length-contents : (q : Queue A) → IsValid q → length (contents q) ≡ count q
  length-contents q v = length-cells q.cell q.size q.nextread (count q) v.storage v.read_in

  -- Where the next value goes.
  pub write_end : (q : Queue A) → IsValid q → q.nextwrite ≡ (q.nextread + count q) % q.size
  write_end q v = elim (dec_lt (q.nextread + count q) q.size) [
    | yes h ↦ omega (arith, count_cases q v, mod-eq_of_lt h)
    | no h ↦ omega (
      arith,
      count_cases q v,
      mod_wrap (q.nextread + count q) q.size (omega arith) (omega (arith, count-lt-size q v)),
    )
  ]

  -- The test of `q_addtail`: one cell always stays free.
  pub full_iff :
      (q : Queue A) → IsValid q → ((q.nextwrite + 1) % q.size ≡ q.nextread) ↔ (count q + 1 ≡ q.size)
  full_iff q v = (
    λ e. omega (arith, count_cases q v, next_cases q.nextwrite q.size v.write_in),
    λ e. omega (arith, count_cases q v, next_cases q.nextwrite q.size v.write_in),
  )

  pub empty_iff : (q : Queue A) → IsValid q → (q.nextwrite ≡ q.nextread) ↔ (count q ≡ 0)
  empty_iff q v = (λ e. omega (arith, count_cases q v), λ e. omega (arith, count_cases q v))

  -- the state that `q_addtail` leaves when there is room
  abbrev pub putted : Queue A → A → Queue A
  putted q x = record q { cell = set q.cell q.nextwrite x; nextwrite = (q.nextwrite + 1) % q.size }

  pub putted-IsValid : (q : Queue A) (x : A) → IsValid q → IsValid (putted q x)
  putted-IsValid q x v = ground (arith, length-set q.cell q.nextwrite x)

  pub count-putted :
      (q : Queue A) (x : A) → IsValid q → count q + 1 < q.size → count (putted q x) ≡ count q + 1
  count-putted q x v h = omega (
    arith,
    count_cases q v,
    count_cases (putted q x) (putted-IsValid q x v),
    next_cases q.nextwrite q.size v.write_in,
  )

  pub contents-putted :
      (q : Queue A) (x : A)
      → IsValid q
      → count q + 1 < q.size
      → contents (putted q x) ≡ contents q ++ (x ∷ [])
  contents-putted q x v h =
      let e : count (putted q x) ≡ suc (count q) = omega (arith, count-putted q x v h) in
      ap (cells (set q.cell q.nextwrite x) q.size q.nextread) e
      ∙ cells-set_at q.cell q.size q.nextread (count q) q.nextwrite x v.storage v.read_in
          (count-lt-size q v) (write_end q v)

  -- the state that `q_remhead` leaves
  abbrev pub popped : Queue A → Queue A
  popped q = record q { nextread = (q.nextread + 1) % q.size }

  pub popped-IsValid : (q : Queue A) → IsValid q → IsValid (popped q)
  popped-IsValid q v = ground arith

  pub count-popped : (q : Queue A) → IsValid q → 0 < count q → count (popped q) ≡ count q - 1
  count-popped q v h = omega (
    arith,
    count_cases q v,
    count_cases (popped q) (popped-IsValid q v),
    next_cases q.nextread q.size v.read_in,
  )
