-- ===== src/Bar/Orders.antt =====
-- A bartender finds the order that was given.
use cse_9201_os.Common.{
  ℕ, zero, suc, ◌+◌, ◌≤◌, ◌<◌, ◌≡◌, ap, sym, ◌∙◌, List, some, get_elem?, set, length, arith, lt→ltb,
  ==→eq, ◌==◌, true, false, Bool-cases, inl, inr, done, get_elem?-lt, ℕ_discrete, ==_false→ne,
}
use mathlib.Core.Option.{some-injective}
use cse_9201_os.Common.Cells.{get_elem?-in}
use cse_9201_os.Bar.{Bar, Order, find_order, take_search}

find_order-hit :
    (wanted n i : ℕ) (orders : List Order) (o : Order)
    → get_elem? orders i ≡ some o
    → (o.state == wanted) ≡ true
    → find_order wanted (suc n) i orders ≡ done i
unfolding find_order
find_order-hit wanted n i orders o e h = rw (e, h)

find_order-miss :
    (wanted n i : ℕ) (orders : List Order) (o : Order)
    → get_elem? orders i ≡ some o
    → (o.state == wanted) ≡ false
    → find_order wanted (suc n) i orders ≡ find_order wanted n (i + 1) orders
unfolding find_order
find_order-miss wanted n i orders o e h = rw (e, h)

module _ (wanted : ℕ) (orders : List Order) where
  find_order-later :
      (i j : ℕ) (x o : Order)
      → get_elem? orders i ≡ some x
      → get_elem? orders j ≡ some o
      → o.state ≡ wanted
      → (x.state == wanted) ≡ false
      → i ≤ j
      → i < j
  find_order-later i j x o at_i at_j h miss le = elim (ℕ_discrete i j) [
    | no differ ↦ omega arith
    | yes e ↦
        let same = some-injective x o (sym at_i ∙ (ap (λ k. get_elem? orders k) e ∙ at_j)) in
        absurd (==_false→ne x.state wanted miss (ap (λ (y : Order). y.state) same ∙ h))
  ]

  -- The loop stops at an order in the wanted state, if there is one further on.
  find_order_lem :
      (n i j : ℕ) (o : Order)
      → get_elem? orders j ≡ some o
      → o.state ≡ wanted
      → i ≤ j
      → j < i + n
      → (r : ℕ) × (o' : Order) × (find_order wanted n i orders ≡ done r)
        × (get_elem? orders r ≡ some o')
        × (o'.state ≡ wanted)
        × (r ≤ j)
  find_order_lem zero i j o e h p q = absurd (omega arith)
  find_order_lem (suc n) i j o e h p q =
      let (x, get) = get_elem?-in orders i (omega (arith, get_elem?-lt orders j o e)) in
      elim (Bool-cases (x.state == wanted)) [
        | inl hit ↦
            (i, x, find_order-hit wanted n i orders x get hit, get, ==→eq x.state wanted hit, p)
        | inr miss ↦
            let ne : i < j = find_order-later i j x o get e h miss p in
            let (r, o', run, at_r, state, le) =
              find_order_lem n (i + 1) j o e h (omega arith) (omega arith) in
            (r, o', find_order-miss wanted n i orders x get miss ∙ run, at_r, state, le)
      ]

-- When an order is given at `j`, `take_order` after its wait does not panic: it returns an order that
-- was given, at `j` or before, which is marked taken, and nothing else changes.
pub take_search_lem :
    (b : Bar) (j : ℕ) (o : Order)
    → get_elem? b.orders j ≡ some o
    → o.state ≡ 1
    → j < 10
    → (i : ℕ) × (o' : Order) × (take_search b
        ≡ done (i, record b { orders = set b.orders i (record o' { state = 2 }) }))
      × (get_elem? b.orders i ≡ some o')
      × (o'.state ≡ 1)
      × (i ≤ j)
unfolding take_search
take_search_lem b j o e h lt =
    let (i, o', run, at_i, state, le) =
      find_order_lem 1 b.orders 10 0 j o e h (omega arith) (omega arith) in
    (
      i,
      o',
      rw (
        run,
        lt→ltb i 10 (omega arith),
        at_i,
        lt→ltb i (length b.orders) (get_elem?-lt b.orders i o' at_i),
      ),
      at_i,
      state,
      le,
    )
