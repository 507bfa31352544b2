-- ===== src/Bar/Tests.antt =====
-- A bartender takes an order, as a run of the theorem.
use cse_9201_os.Common.{ℕ, ◌≤◌, ◌≡◌, refl, [], ◌∷◌, none, some, get_elem?, set, done, arith}
use cse_9201_os.Common.Int.{pos}
use cse_9201_os.Bar.{Bar, Order, take_search}
use cse_9201_os.Bar.Orders.{take_search_lem}

abbrev given : Order
given = record { ing = 1 ∷ 2 ∷ 0 ∷ []; glass = none; ordernumber = 1; state = 1 }

abbrev unused : Order
unused = record { ing = 0 ∷ 0 ∷ 0 ∷ []; glass = none; ordernumber = 0; state = 0 }

abbrev one_order : Bar
one_order = record {
  ndrinkers = pos 10;
  orders = unused ∷ given ∷ [];
  glasses = [];
  bottles = [];
  emptyglasses = 10;
  ordersready = 0;
  ordercomplete = 0 ∷ 0 ∷ [];
}

take_search_lem_example :
    (i : ℕ) × (o' : Order) × (take_search one_order
      ≡ done (i, record one_order { orders = set one_order.orders i (record o' { state = 2 }) }))
    × (get_elem? one_order.orders i ≡ some o')
    × (o'.state ≡ 1)
    × (i ≤ 1)
take_search_lem_example = take_search_lem one_order 1 given refl refl (omega arith)
