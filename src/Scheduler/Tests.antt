-- ===== src/Scheduler/Tests.antt =====
-- The scheduler on a small run queue.
use cse_9201_os.Common.{
  ℕ, ◌/◌, ◌≡◌, refl, List, [], ◌∷◌, Option, some, done, length, replicate, length-replicate, arith,
}
use mathlib.Core.Option.{some-injective}
use cse_9201_os.Queue
use cse_9201_os.Queue.{Queue, IsAllocator}
use cse_9201_os.Queue.Inv.{IsValid, contents}
use cse_9201_os.Scheduler.{make_runnable, scheduler, scheduler_killall}
use cse_9201_os.Scheduler.Laws.{scheduler_killall_lem, yield_round_robin}

abbrev memory : ℕ → Option (List ℕ)
memory n = some (replicate (n / 4) 0)

memory-IsAllocator : IsAllocator memory
memory-IsAllocator n b e = omega (
  arith,
  ap_length (some-injective (replicate (n / 4) 0) b e),
  length-replicate {A = ℕ} (n / 4) 0,
)
  where
    ap_length : {xs ys : List ℕ} → xs ≡ ys → length xs ≡ length ys
    ap_length e = λ i. length (e i)

-- threads 7 and 8 are runnable
abbrev ready : Queue ℕ
ready = record { size = 4; nextwrite = 1; nextread = 3; cell = 8 ∷ 5 ∷ 6 ∷ 7 ∷ [] }

abbrev ready_and_9 : Queue ℕ
ready_and_9 = record { size = 4; nextwrite = 2; nextread = 3; cell = 8 ∷ 9 ∷ 6 ∷ 7 ∷ [] }

ready-IsValid : IsValid ready
ready-IsValid = omega arith

scheduler_killall_lem_example :
    (q' : Queue ℕ) × (scheduler_killall 1 ready ≡ done (7 ∷ 8 ∷ [], q'))
    × IsValid q'
    × (contents q' ≡ [])
scheduler_killall_lem_example = scheduler_killall_lem 1 ready (omega arith) ready-IsValid

made_runnable : make_runnable memory 1 ready 9 ≡ done (0, ready_and_9)
unfolding make_runnable Queue.q_addtail
made_runnable = refl

yield_round_robin_example :
    (q'' : Queue ℕ) × (scheduler memory 1 ready_and_9 [] ≡ done (7, q''))
    × IsValid q''
    × (contents q'' ≡ 8 ∷ 9 ∷ [])
yield_round_robin_example =
    yield_round_robin memory 1 ready ready_and_9 [] 9 7 (8 ∷ []) memory-IsAllocator (omega arith)
      ready-IsValid (omega arith) refl made_runnable
