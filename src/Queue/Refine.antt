-- ===== src/Queue/Refine.antt =====
-- Each operation of queue.c against the list of the values in the queue.
use cse_9201_os.Common.{
  ℕ, suc, ◌+◌, ◌*◌, ◌%◌, ◌^◌, ◌≤◌, ◌<◌, ◌≡◌, refl, ap, sym, ◌∙◌, ◌⊎◌, inl, inr, List, [], ◌∷◌, ◌++◌,
  Option, none, some, Bool, true, arith, ℕ_discrete, length, lt→ltb, le→ltb_false, eq→==,
  ne→==_false, done, panic, ltb, Bool-cases, Option-cases, ◌==◌, if◌then◌else◌, false, ltb_false→le,
  ==→eq, ◌↔◌,
}
use mathlib.Core.Path.{subst}
use mathlib.Core.Bool.{false≢true}
use mathlib.Core.Option.{some-injective}
use cse_9201_os.Common.Cells.{cells, cells-head}
use cse_9201_os.Common.Errno.{enomem}
use cse_9201_os.Queue.{
  Queue, IsAllocator, q_create, q_put, q_empty, q_addtail, q_addtail_depth, q_preallocate,
  q_remhead, q_grow,
}
use cse_9201_os.Queue.Inv.{
  IsValid, count, contents, putted-IsValid, putted, contents-putted, popped, popped-IsValid,
  count-popped, full_iff, empty_iff, count-lt-size, length-contents,
}
use cse_9201_os.Queue.Grow.{q_grow-Grown, q_grow-null, Grown, Added, q_addtail_depth-room}

module _ {ℓ} {A : Type ℓ} where
  abbrev fresh : List A → ℕ → Queue A
  fresh b size = record { size = size; nextwrite = 0; nextread = 0; cell = b }

  fresh_lem :
      (b : List A) (size : ℕ)
      → 0 < size
      → size < 2 ^ 30
      → length b ≡ size
      → IsValid (fresh b size) × (contents (fresh b size) ≡ []) × (size ≡ size)
  fresh_lem b size h k len =
      let v : IsValid (fresh b size) = omega arith in
      (v, ap (cells b size 0) ((empty_iff (fresh b size) v).0 refl), refl)

  -- A queue that `q_create` returns for a size from 1 to 2 ^ 30 - 1 is well formed and empty.
  pub q_create-IsValid :
      (kmalloc : ℕ → Option (List A)) (ok : Bool) (size : ℕ) (q : Queue A)
      → IsAllocator kmalloc
      → 0 < size
      → size < 2 ^ 30
      → q_create kmalloc ok size ≡ some q
      → IsValid q × (contents q ≡ []) × (q.size ≡ size)
  unfolding q_create
  q_create-IsValid kmalloc true size q alloc h k e =
      elim (Option-cases (kmalloc (size * 4 % 2 ^ 32))) [
        | inl null ↦ cc null
        | inr (b, got) ↦
            let same : record { size = size; nextwrite = 0; nextread = 0; cell = b } ≡ q =
              some-injective _ q (rw got at e) in
            let len : length b ≡ size = omega (arith, alloc (size * 4 % 2 ^ 32) b got) in
            subst (λ (q : Queue A). IsValid q × (contents q ≡ []) × (q.size ≡ size)) same
              (fresh_lem b size h k len)
      ]
  q_create-IsValid kmalloc false size q alloc h k e = cc

  -- On a well-formed queue `q_remhead` returns the first value and leaves the others in order,
  -- well formed; on an empty one its assertion fails.
  pub q_remhead_refines :
      (q : Queue A)
      → IsValid q
      → ((contents q ≡ []) × (q_remhead q ≡ panic))
        ⊎ ((x : A) × (q' : Queue A) × (q_remhead q ≡ done (x, q'))
            × IsValid q'
            × (contents q ≡ x ∷ contents q'))
  unfolding q_remhead
  q_remhead_refines q v = elim (ℕ_discrete (count q) 0) [
    | yes e ↦ inl (
      ap (cells q.cell q.size q.nextread) e,
      rw (lt→ltb 0 q.size (omega arith), eq→== q.nextwrite q.nextread ((empty_iff q v).1 e)),
    )
    | no ne ↦
        let (x, get, split) =
          cells-head q.cell q.size q.nextread (count q) v.storage v.read_in (omega arith) in
        inr (
          x,
          popped q,
          rw (
            lt→ltb 0 q.size (omega arith),
            ne→==_false q.nextwrite q.nextread (λ e. ne ((empty_iff q v).0 e)),
            get,
          ),
          popped-IsValid q v,
          split
              ∙ ap (λ k. x ∷ cells q.cell q.size ((q.nextread + 1) % q.size) k)
                  (sym (count-popped q v (omega arith))),
        )
  ]

  -- `q_empty` tells whether the queue holds no value.
  pub q_empty_iff : (q : Queue A) → IsValid q → (q_empty q ≡ true) ↔ (contents q ≡ [])
  unfolding q_empty
  q_empty_iff q v = (
    λ e. ap (cells q.cell q.size q.nextread) ((empty_iff q v).0 (==→eq q.nextwrite q.nextread e)),
    λ e. eq→== q.nextwrite q.nextread ((empty_iff q v).1 (sym (length-contents q v) ∙ ap length e)),
  )

  -- A queue that is not empty has a first value, which `q_remhead` takes.
  pub q_remhead-some :
      (q : Queue A)
      → IsValid q
      → q_empty q ≡ false
      → (x : A) × (q' : Queue A) × (q_remhead q ≡ done (x, q'))
        × IsValid q'
        × (contents q ≡ x ∷ contents q')
        × (count q ≡ suc (count q'))
  q_remhead-some q v e = elim (q_remhead_refines q v) [
    | inl (none_left, _) ↦ absurd (false≢true (sym e ∙ (q_empty_iff q v).1 none_left))
    | inr (x, q', run, v', split) ↦ (
      x,
      q',
      run,
      v',
      split,
      sym (length-contents q v) ∙ ap length split ∙ ap suc (length-contents q' v'),
    )
  ]

  module _ (kmalloc : ℕ → Option (List A)) (alloc : IsAllocator kmalloc) where
    q_put-putted : (q : Queue A) (x : A) → IsValid q → q_put q x ≡ done (0, putted q x)
    q_put-putted q x v = rw (lt→ltb q.nextwrite (length q.cell) (omega arith))

    -- What `q_addtail` makes of the outcome of `q_grow`.
    q_addtail-grown :
        (q q' : Queue A) (x : A) (r : ℕ)
        → IsValid q
        → q.size < 2 ^ 29
        → count q + 1 ≡ q.size
        → q_grow kmalloc (q_addtail_depth kmalloc 1) q (q.size + 1) ≡ done (r, q')
        → q_addtail_depth kmalloc 2 q x ≡ (if r == 0 then q_put q' x else done (r, q'))
    unfolding q_addtail_depth
    q_addtail-grown q q' x r v s full run = rw (
      lt→ltb 0 q.size (omega arith),
      eq→== ((q.nextwrite + 1) % q.size) q.nextread ((full_iff q v).1 full),
      lt→ltb (q.size + 1) (2 ^ 31) (omega arith),
      run,
    )

    q_addtail-Added :
        (q q' : Queue A) (x : A) (r : ℕ)
        → IsValid q
        → count q + 1 ≡ q.size
        → Grown kmalloc q (q.size + 1) r q'
        → (r' : ℕ) × (q'' : Queue A) × ((if r == 0 then q_put q' x else done (r, q'))
            ≡ done (r', q''))
          × Added kmalloc q x r' q''
    q_addtail-Added q q' x r v full (inl (zero_r, v', large, same, values)) = (
      0,
      putted q' x,
      rw zero_r (q_put-putted q' x v'),
      inl (
        refl,
        putted-IsValid q' x v',
        omega arith,
        contents-putted q' x v' (omega arith) ∙ ap (λ l. l ++ (x ∷ [])) values,
      ),
    )
    q_addtail-Added q q' x r v full (inr (err, same, null)) =
        (enomem, q, rw (err, same), inr (refl, refl, full, null))

    -- `q_addtail` on a well-formed queue of fewer than 2 ^ 29 cells always returns: either 0, with
    -- the value added at the end of the others and the queue well formed and no smaller, or ENOMEM
    -- with the queue unchanged, and that only when every cell but one was taken and `kmalloc` gave
    -- NULL for some size.
    pub q_addtail_refines :
        (q : Queue A) (x : A)
        → IsValid q
        → q.size < 2 ^ 29
        → (r : ℕ) × (q' : Queue A) × (q_addtail kmalloc q x ≡ done (r, q')) × Added kmalloc q x r q'
    unfolding q_addtail
    q_addtail_refines q x v s = elim (ℕ_discrete (count q + 1) q.size) [
      | yes full ↦
          let (r, q', run, grown) = q_grow-Grown kmalloc 0 q (q.size + 1) alloc v (omega arith) in
          let (r', q'', end, added) = q_addtail-Added q q' x r v full grown in
          (r', q'', q_addtail-grown q q' x r v s full run ∙ end, added)
      | no room ↦
          let some_room : count q + 1 < q.size = omega (arith, count-lt-size q v) in
          (
            0,
            putted q x,
            q_addtail_depth-room kmalloc 1 q x v some_room,
            inl (refl, putted-IsValid q x v, omega arith, contents-putted q x v some_room),
          )
    ]

    -- `q_preallocate` on a well-formed queue, for at most 2 ^ 29 values, returns 0 with the same
    -- values in at least as many cells, or ENOMEM with the queue unchanged.
    pub q_preallocate_lem :
        (q : Queue A) (n : ℕ)
        → IsValid q
        → n ≤ 2 ^ 29
        → (r : ℕ) × (q' : Queue A) × (q_preallocate kmalloc q n ≡ done (r, q'))
          × Grown kmalloc q n r q'
    unfolding q_preallocate q_addtail
    q_preallocate_lem q n v s = elim (Bool-cases (ltb q.size n)) [
      | inl more ↦
          let (r, q', run, grown) = q_grow-Grown kmalloc 1 q n alloc v s in
          (r, q', rw (lt→ltb 0 q.size (omega arith), more) run, grown)
      | inr enough ↦ (
        0,
        q,
        rw (lt→ltb 0 q.size (omega arith), enough),
        inl (refl, v, ltb_false→le q.size n enough, refl, refl),
      )
    ]

    -- After `q_preallocate` for as many values as the queue has cells nothing has changed, and
    -- once one value fewer is in the queue, `q_addtail` needs memory: with none it fails.
    pub q_preallocate-short :
        (q : Queue A) (x : A)
        → IsValid q
        → q.size < 2 ^ 29
        → count q + 1 ≡ q.size
        → ((m : ℕ) → kmalloc m ≡ none)
        → (q_preallocate kmalloc q q.size ≡ done (0, q))
          × (q_addtail kmalloc q x ≡ done (enomem, q))
    unfolding q_preallocate q_addtail q_addtail_depth
    q_preallocate-short q x v s full null = (
      rw (lt→ltb 0 q.size (omega arith), le→ltb_false q.size q.size (omega arith)),
      q_addtail-grown q q x enomem v s full
          (q_grow-null kmalloc 0 q (q.size + 1) v (omega arith) null),
    )
