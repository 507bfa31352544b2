-- ===== src/Bar.antt =====
-- assignment1/ownSolution/bar.c and bar.h, with `pour` of bar_driver.c: customers and bartenders.
-- A critical section of a lock is one step, since Synch shows that a lock excludes the others. A
-- semaphore is its count. A function that waits on a semaphore is cut there: a part that starts with
-- `P` returns `none` while the count is 0. A pointer into `orders` or `glasses` is its index.
pub mod Orders
mod Tests
use cse_9201_os.Common.{
  ℕ, zero, suc, ◌+◌, ◌-◌, Bool, true, false, not, List, [], ◌∷◌, Option, none, some, get_elem?,
  length, replicate, ltb, ◌==◌, ◌&&◌, if◌then◌else◌, Res, done, panic, undefined, ◌>>=◌, ◌>>◌,
  assert, in_bounds, store,
}
use cse_9201_os.Common.Int.{ℤ, pos, negsuc, ◌-ℤ◌}

abbrev pub n_glasses : ℕ
n_glasses = 10

abbrev pub n_customers : ℕ
n_customers = 10

abbrev pub n_bartenders : ℕ
n_bartenders = 3

-- `struct glass`
pub record Glass : Type 0 where
  pub contents : List ℕ
  pub state : ℕ
  pub ordernumber : ℕ

-- `struct order`; `state` is 0 for no order, 1 given, 2 taken, 3 handed to the customer
pub record Order : Type 0 where
  pub ing : List ℕ
  pub glass : Option ℕ
  pub ordernumber : ℕ
  pub state : ℕ

-- the globals of bar.c, and `bottles`, the doses of each bottle
pub record Bar : Type 0 where
  pub ndrinkers : ℤ
  pub orders : List Order
  pub glasses : List Glass
  pub bottles : List ℕ
  pub emptyglasses : ℕ
  pub ordersready : ℕ
  pub ordercomplete : List ℕ

-- a loop over `orders` for an order in state `wanted`, for `n` more values of `i`; the last `i`
pub find_order : ℕ → ℕ → ℕ → List Order → Res ℕ
find_order wanted zero i orders = done i
find_order wanted (suc n) i orders =
    let rest = find_order wanted n (i + 1) orders in
    (do o ← in_bounds (get_elem? orders i); if o.state == wanted then done i else rest)

-- the loop of `fill_order` over `glasses`
pub find_glass : ℕ → ℕ → List Glass → Res ℕ
find_glass zero i glasses = done i
find_glass (suc n) i glasses =
    let rest = find_glass n (i + 1) glasses in
    (do g ← in_bounds (get_elem? glasses i); if g.state == 0 then done i else rest)

-- `submit_order` up to `P(ordercomplete[i])`: the number `i`, and the bar
pub submit_place : Bar → ℕ → ℕ → ℕ → Res (ℕ × Bar)
unfolding find_order
submit_place b ingredient1 ingredient2 ingredient3 = do
  i ← find_order 0 n_customers 0 b.orders
  let placed = (do
    o ← in_bounds (get_elem? b.orders i)
    store b.orders i (record o {
      ing = ingredient1 ∷ ingredient2 ∷ ingredient3 ∷ [];
      state = 1;
      ordernumber = i;
    }))
  orders ← if ltb i n_customers then placed else done b.orders
  done (i, record b { orders = orders; ordersready = b.ordersready + 1 })

-- `submit_order` from `P(ordercomplete[i])` on: the glass
pub submit_finish : Bar → ℕ → Res (Option (ℕ × Bar))
submit_finish b i = do
  c ← in_bounds (get_elem? b.ordercomplete i)
  let served = (do
    complete ← store b.ordercomplete i (c - 1)
    o ← in_bounds (get_elem? b.orders i)
    g ← in_bounds o.glass
    glass ← in_bounds (get_elem? b.glasses g)
    glasses ← store b.glasses g (record glass { ordernumber = i })
    orders ← store b.orders i (record o { state = 3 })
    done (some (g, record b { ordercomplete = complete; glasses = glasses; orders = orders })))
  if c == 0 then done none else served

pub return_glass : Bar → ℕ → Res Bar
return_glass b g = do
  glass ← in_bounds (get_elem? b.glasses g)
  glasses ← store b.glasses g (record glass { state = 0 })
  o ← in_bounds (get_elem? b.orders glass.ordernumber)
  orders ← store b.orders glass.ordernumber (record o { state = 0 })
  done (record b { glasses = glasses; emptyglasses = b.emptyglasses + 1; orders = orders })

-- `P(ordersready)` in `take_order`
unfoldable pub take_wait : Bar → Option Bar
take_wait b =
    if b.ordersready == 0 then none else some (record b { ordersready = b.ordersready - 1 })

-- `take_order` after `P(ordersready)`
pub take_search : Bar → Res (ℕ × Bar)
unfolding find_order
take_search b = do
  i ← find_order 1 n_customers 0 b.orders
  let taken = (do
    o ← in_bounds (get_elem? b.orders i)
    orders ← store b.orders i (record o { state = 2 })
    done (i, record b { orders = orders }))
  if ltb i n_customers then taken else panic

-- one ingredient of `pour`: the contents, the next index, and the doses
abbrev pub pour_one : ℕ → List ℕ × ℕ × List ℕ → Res (List ℕ × ℕ × List ℕ)
pour_one ingredient (contents, i, bottles) =
    let poured = (do
      contents' ← store contents i ingredient
      doses ← in_bounds (get_elem? bottles ingredient)
      bottles' ← store bottles ingredient (doses + 1)
      done (contents', i + 1, bottles')) in
    if ingredient == 0 then done (contents, i, bottles) else poured

pub pour : List ℕ → List ℕ → ℕ → ℕ → ℕ → Res (List ℕ × ℕ × List ℕ)
pour contents bottles ing1 ing2 ing3 = do
  one ← pour_one ing1 (contents, 0, bottles)
  two ← pour_one ing2 one
  pour_one ing3 two

-- `g` is not set when no glass is free, and then its use is undefined.
pub fill_order : Bar → ℕ → Res (Option Bar)
unfolding find_glass pour
fill_order b o =
    let filled = (do
      i ← find_glass n_glasses 0 b.glasses
      glass ← if ltb i n_glasses then in_bounds (get_elem? b.glasses i) else undefined
      order ← in_bounds (get_elem? b.orders o)
      ing1 ← in_bounds (get_elem? order.ing 0)
      ing2 ← in_bounds (get_elem? order.ing 1)
      ing3 ← in_bounds (get_elem? order.ing 2)
      (contents, next, bottles) ← pour glass.contents b.bottles ing1 ing2 ing3
      glasses ← store b.glasses i (record glass { state = 1; contents = contents })
      orders ← store b.orders o (record order { glass = some i })
      done (
          some (record b {
            emptyglasses = b.emptyglasses - 1;
            glasses = glasses;
            orders = orders;
            bottles = bottles;
          }))) in
    if b.emptyglasses == 0 then done none else filled

pub serve_order : Bar → ℕ → Res Bar
serve_order b o = do
  order ← in_bounds (get_elem? b.orders o)
  c ← in_bounds (get_elem? b.ordercomplete order.ordernumber)
  complete ← store b.ordercomplete order.ordernumber (c + 1)
  done (record b { ordercomplete = complete })

unfoldable pub drinkers : Bar → ℤ
drinkers b = b.ndrinkers

-- the loops of `bar_open` over `glasses` and `orders`
abbrev pub clear_glasses : List Glass → List Glass
clear_glasses [] = []
clear_glasses (g ∷ gs) = record g { state = 0 } ∷ clear_glasses gs

abbrev pub clear_orders : List Order → List Order
clear_orders [] = []
clear_orders (o ∷ os) = record o { state = 0 } ∷ clear_orders os

-- `created` says whether all calls of `sem_create` and `lock_create` succeed; the arrays have
-- NGLASSES and NCUSTOMERS elements.
unfoldable pub bar_open : Bool → List Glass → List Order → List ℕ → Res Bar
bar_open created glasses orders bottles =
    assert created
    >> done (record {
      ndrinkers = pos n_customers;
      orders = clear_orders orders;
      glasses = clear_glasses glasses;
      bottles = bottles;
      emptyglasses = n_glasses;
      ordersready = 0;
      ordercomplete = replicate n_customers 0;
    })
