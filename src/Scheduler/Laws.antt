-- ===== src/Scheduler/Laws.antt =====
-- The run queue is first in, first out.
use cse_9201_os.Common.{
  ℕ, zero, suc, ◌+◌, ◌%◌, ◌^◌, ◌<◌, ◌≡◌, ap, sym, ◌∙◌, inl, inr, true, false, Option, none, List,
  [], ◌∷◌, ◌++◌, arith, lt→ltb, eq→==, ne→==_false, Bool-cases, done,
}
use mathlib.Core.Path.{subst}
use native.Mathlib.Nat.{mod-eq_of_lt}
use cse_9201_os.Common.Cells.{cells, cells-suc, get_elem?-in, mod-ne_start, mod-step}
use cse_9201_os.Queue.Grow.{Added}
use cse_9201_os.Queue
use cse_9201_os.Queue.{Queue, IsAllocator}
use cse_9201_os.Queue.Inv.{IsValid, count, contents, count-lt-size, write_end}
use cse_9201_os.Queue.Refine.{q_empty_iff, q_remhead-some, q_addtail_refines}
use cse_9201_os.Scheduler.{
  make_runnable, scheduler, scheduler_wait, killall_loop, scheduler_killall, scheduler_shutdown,
  print_loop, print_run_queue,
}

module _ {ℓ} {T : Type ℓ} where
  scheduler_wait-busy :
      (kmalloc : ℕ → Option (List T)) (curspl : ℕ) (q : Queue T) (idles : List (List T))
      → Queue.q_empty q ≡ false
      → scheduler_wait kmalloc curspl q idles ≡ done q
  unfolding scheduler_wait
  scheduler_wait-busy kmalloc curspl q [] e = rw e
  scheduler_wait-busy kmalloc curspl q (woken ∷ idles) e = rw e

  killall_loop-all :
      (fuel : ℕ) (q : Queue T)
      → IsValid q
      → count q < fuel
      → (q' : Queue T) × (killall_loop fuel q ≡ done (contents q, q'))
        × IsValid q'
        × (Queue.q_empty q' ≡ true)
  unfolding killall_loop
  killall_loop-all zero q v h = absurd (omega arith)
  killall_loop-all (suc fuel) q v h = elim (Bool-cases (Queue.q_empty q)) [
    | inl e ↦ (q, rw (e, (q_empty_iff q v).0 e), v, e)
    | inr e ↦
        let (x, q', run, v', split, fewer) = q_remhead-some q v e in
        let (q'', rest, v'', empty) = killall_loop-all fuel q' v' (omega arith) in
        (q'', rw (e, run, rest, split), v'', empty)
  ]

  -- With interrupts off and a well-formed run queue `scheduler_killall` returns: the queue is then
  -- empty and well formed, and the threads it dropped are those of the queue, in order.
  pub scheduler_killall_lem :
      (curspl : ℕ) (q : Queue T)
      → 0 < curspl
      → IsValid q
      → (q' : Queue T) × (scheduler_killall curspl q ≡ done (contents q, q'))
        × IsValid q'
        × (contents q' ≡ [])
  unfolding scheduler_killall
  scheduler_killall_lem curspl q on v =
      let (q', run, v', empty) =
        killall_loop-all (suc q.size) q v (omega (arith, count-lt-size q v)) in
      (q', rw (lt→ltb 0 curspl on) run, v', (q_empty_iff q' v').0 empty)

  -- With interrupts off `scheduler_shutdown` passes the assertion of `q_destroy`, whatever is in the
  -- well-formed run queue, and sets `runqueue` to NULL.
  pub scheduler_shutdown_lem :
      (curspl : ℕ) (q : Queue T) → 0 < curspl → IsValid q → scheduler_shutdown curspl q ≡ done none
  unfolding scheduler_shutdown Queue.q_destroy
  scheduler_shutdown_lem curspl q on v =
      let (q', run, v', empty) = scheduler_killall_lem curspl q on v in
      rw (run, lt→ltb 0 curspl on, (q_empty_iff q' v').1 empty)

  cons-busy :
      (q : Queue T) (t : T) (ts : List T)
      → IsValid q
      → contents q ≡ t ∷ ts
      → Queue.q_empty q ≡ false
  cons-busy q t ts v e = elim (Bool-cases (Queue.q_empty q)) [
    | inl empty ↦ absurd (cc (e, (q_empty_iff q v).0 empty))
    | inr busy ↦ busy
  ]

  q_addtail-zero :
      (kmalloc : ℕ → Option (List T)) (q : Queue T) (x : T) (r : ℕ) (p q' : Queue T)
      → Added kmalloc q x r p
      → r ≡ 0
      → p ≡ q'
      → IsValid q' × (contents q' ≡ contents q ++ (x ∷ []))
  q_addtail-zero kmalloc q x r p q' (inl (_, v, _, values)) z e =
      subst (λ (p : Queue T). IsValid p × (contents p ≡ contents q ++ (x ∷ []))) e (v, values)
  q_addtail-zero kmalloc q x r p q' (inr (err, same, full, null)) z e = absurd (omega arith)

  -- With interrupts off and a thread in the well-formed run queue `scheduler` does not idle: it
  -- returns the thread that has waited longest and leaves the others in order.
  pub scheduler_first :
      (kmalloc : ℕ → Option (List T)) (curspl : ℕ) (q : Queue T) (idles : List (List T)) (t : T)
      (ts : List T)
      → 0 < curspl
      → IsValid q
      → contents q ≡ t ∷ ts
      → (q' : Queue T) × (scheduler kmalloc curspl q idles ≡ done (t, q'))
        × IsValid q'
        × (contents q' ≡ ts)
  unfolding scheduler
  scheduler_first kmalloc curspl q idles t ts on v e =
      let busy : Queue.q_empty q ≡ false = cons-busy q t ts v e in
      let (x, q', run, v', split, _) = q_remhead-some q v busy in
      let same : x ≡ t = cc (split, e) in
      let rest : contents q' ≡ ts = cc (split, e) in
      (
        q',
        rw (lt→ltb 0 curspl on, scheduler_wait-busy kmalloc curspl q idles busy, run, same),
        v',
        rest,
      )

  -- A thread that yields goes behind the others: with interrupts off and fewer than 2 ^ 29 cells,
  -- if `make_runnable` puts a thread in a run queue that is not empty without an error, `scheduler`
  -- then returns the thread that was first and leaves the yielding one last.
  pub yield_round_robin :
      (kmalloc : ℕ → Option (List T)) (curspl : ℕ) (q q' : Queue T) (idles : List (List T))
      (cur t : T) (ts : List T)
      → IsAllocator kmalloc
      → 0 < curspl
      → IsValid q
      → q.size < 2 ^ 29
      → contents q ≡ t ∷ ts
      → make_runnable kmalloc curspl q cur ≡ done (0, q')
      → (q'' : Queue T) × (scheduler kmalloc curspl q' idles ≡ done (t, q''))
        × IsValid q''
        × (contents q'' ≡ ts ++ (cur ∷ []))
  unfolding make_runnable
  yield_round_robin kmalloc curspl q q' idles cur t ts alloc on v s e ran =
      let (r, p, run, added) = q_addtail_refines kmalloc alloc q cur v s in
      let ran' : Queue.q_addtail kmalloc q cur ≡ done (0, q') = rw (lt→ltb 0 curspl on) at ran in
      let (v', values) =
        q_addtail-zero kmalloc q cur r p q' added (cc (run, ran')) (cc (run, ran')) in
      scheduler_first kmalloc curspl q' idles t (ts ++ (cur ∷ [])) on v'
        (values ∙ ap (λ l. l ++ (cur ∷ [])) e)

  -- The loop of `print_run_queue` with `n` threads to go from cell `i`.
  print_loop-all :
      (n fuel : ℕ) (q : Queue T) (i : ℕ)
      → IsValid q
      → n < fuel
      → i < q.size
      → n < q.size
      → q.nextwrite ≡ (i + n) % q.size
      → print_loop fuel q i ≡ done (cells q.cell q.size i n)
  unfolding print_loop Queue.q_getend Queue.q_getguy Queue.q_getsize
  print_loop-all n zero q i v f a b e = absurd (omega arith)
  print_loop-all zero (suc fuel) q i v f a b e =
      rw (eq→== i q.nextwrite (omega (arith, mod-eq_of_lt {n = i + 0} {m = q.size} (omega arith))))
  print_loop-all (suc n) (suc fuel) q i v f a b e =
      let (x, get) = get_elem?-in q.cell i (omega (arith, v.storage)) in
      rw
        (
          ne→==_false i q.nextwrite
              (λ g. mod-ne_start i (suc n) q.size a b (omega arith) (sym e ∙ sym g)),
          lt→ltb i q.size a,
          get,
          print_loop-all n fuel q ((i + 1) % q.size) v (omega arith) (omega arith) (omega arith)
              (e ∙ sym (mod-step i n q.size a (omega arith))),
        )
        (ap done (sym (cells-suc q.cell q.size i n x get)))

  -- `print_run_queue` on a well-formed run queue ends and shows exactly its threads, in order.
  pub print_run_queue_lem : (q : Queue T) → IsValid q → print_run_queue q ≡ done (contents q)
  unfolding print_run_queue Queue.q_getstart
  print_run_queue_lem q v =
      print_loop-all (count q) (suc q.size) q q.nextread v (omega (arith, count-lt-size q v))
        v.read_in (count-lt-size q v) (write_end q v)
