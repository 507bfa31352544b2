-- ===== src/Queue/Tests.antt =====
-- Runs of queue.c on small queues, and its theorems at concrete queues.
use cse_9201_os.Common.{
  ℕ, ◌/◌, ◌≡◌, refl, ◌⊎◌, List, [], ◌∷◌, Option, none, some, true, done, panic, length, replicate,
  length-replicate, arith,
}
use mathlib.Core.Option.{some-injective}
use cse_9201_os.Common.Errno.{enomem}
use cse_9201_os.Queue.{
  Queue, IsAllocator, q_create, q_addtail, q_grow_size, q_preallocate, q_remhead,
}
use cse_9201_os.Queue.Inv.{IsValid, contents}
use cse_9201_os.Queue.Grow.{Added}
use cse_9201_os.Queue.Refine.{q_remhead_refines, q_addtail_refines, q_preallocate-short}

abbrev memory : ℕ → Option (List ℕ)
memory n = some (replicate (n / 4) 0)

abbrev no_memory : ℕ → Option (List ℕ)
no_memory n = none

memory-IsAllocator : IsAllocator memory
memory-IsAllocator n b e = omega (
  arith,
  ap_length (some-injective (replicate (n / 4) 0) b e),
  length-replicate {A = ℕ} (n / 4) 0,
)
  where
    ap_length : {xs ys : List ℕ} → xs ≡ ys → length xs ≡ length ys
    ap_length e = λ i. length (e i)

no_memory-IsAllocator : IsAllocator no_memory
no_memory-IsAllocator n b e = cc e

-- 7 and 8, round the end of four cells
abbrev wrapped : Queue ℕ
wrapped = record { size = 4; nextwrite = 1; nextread = 3; cell = 8 ∷ 5 ∷ 6 ∷ 7 ∷ [] }

-- three values in four cells: the next one makes the queue grow
abbrev full : Queue ℕ
full = record { size = 4; nextwrite = 2; nextread = 3; cell = 8 ∷ 9 ∷ 6 ∷ 7 ∷ [] }

wrapped-IsValid : IsValid wrapped
wrapped-IsValid = omega arith

full-IsValid : IsValid full
full-IsValid = omega arith

contents-full : contents full ≡ 7 ∷ 8 ∷ 9 ∷ []
contents-full = refl

addtail_grows :
    q_addtail memory full 10
    ≡ done (
      0,
      record { size = 8; nextwrite = 4; nextread = 0; cell = 7 ∷ 8 ∷ 9 ∷ 10 ∷ 0 ∷ 0 ∷ 0 ∷ 0 ∷ [] },
    )
unfolding q_addtail q_grow_size
addtail_grows = refl

addtail_no_memory : q_addtail no_memory full 10 ≡ done (enomem, full)
unfolding q_addtail q_grow_size
addtail_no_memory = refl

create_size_zero :
    q_create memory true 0 ≡ some (record { size = 0; nextwrite = 0; nextread = 0; cell = [] })
unfolding q_create
create_size_zero = refl

abbrev two_cells : Queue ℕ
two_cells = record { size = 2; nextwrite = 0; nextread = 0; cell = 0 ∷ 0 ∷ [] }

q_remhead_refines_example :
    ((contents wrapped ≡ []) × (q_remhead wrapped ≡ panic))
    ⊎ ((x : ℕ) × (q' : Queue ℕ) × (q_remhead wrapped ≡ done (x, q'))
        × IsValid q'
        × (contents wrapped ≡ x ∷ contents q'))
q_remhead_refines_example = q_remhead_refines wrapped wrapped-IsValid

q_addtail_refines_example :
    (r : ℕ) × (q' : Queue ℕ) × (q_addtail memory full 10 ≡ done (r, q')) × Added memory full 10 r q'
q_addtail_refines_example =
    q_addtail_refines memory memory-IsAllocator full 10 full-IsValid (omega arith)

q_preallocate-short_example :
    (q_preallocate no_memory full 4 ≡ done (0, full))
    × (q_addtail no_memory full 10 ≡ done (enomem, full))
q_preallocate-short_example =
    q_preallocate-short no_memory no_memory-IsAllocator full 10 full-IsValid (omega arith) refl
      (λ m. refl)
