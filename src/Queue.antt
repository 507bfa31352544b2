-- ===== src/Queue.antt =====
-- kern/lib/queue.c: a queue of pointers in a ring buffer that grows.
-- A function that changes `*q` returns the new queue beside its result, an error code or a value.
-- `kmalloc` is an argument: for a size in bytes the words of the new block, or `none` for NULL.
pub mod Inv
pub mod Grow
pub mod Refine
mod Tests
use cse_9201_os.Common.{
  ℕ, zero, suc, ◌+◌, ◌*◌, ◌/◌, ◌≡◌, ◌%◌, ◌^◌, ◌<◌, Bool, true, false, not, ◌&&◌, List, Option, none,
  some, get_elem?, length, ltb, leb, ◌==◌, if◌then◌else◌, Res, done, panic, undefined, diverge,
  ◌>>=◌, ◌>>◌, assert, in_bounds, store,
}
use cse_9201_os.Common.Int.{ℤ, pos, negsuc}
use cse_9201_os.Common.Errno.{enomem}

module _ {ℓ} (A : Type ℓ) where
  -- `struct queue`; a pointer is any value of type `A`, and an `int` that is not negative a number
  pub record Queue : Type ℓ where
    pub size : ℕ
    pub nextwrite : ℕ
    pub nextread : ℕ
    pub cell : List A

-- The sum of two `int`s that are not negative; past INT_MAX it is undefined.
abbrev pub int_add : ℕ → ℕ → Res ℕ
int_add a b = if ltb (a + b) (2 ^ 31) then done (a + b) else undefined

-- `nsize *= 2; assert(nsize > 0)`: the product wraps at 32 bits, and from 2 ^ 31 on is negative.
abbrev pub int_double : ℕ → Res ℕ
int_double n = let m = n * 2 % 2 ^ 32 in if ltb 0 m && ltb m (2 ^ 31) then done m else panic

-- the `while` loop of `q_grow`, with fuel
pub q_grow_size : ℕ → ℕ → ℕ → Res ℕ
q_grow_size zero nsize targetsize = diverge
q_grow_size (suc fuel) nsize targetsize =
    let rest = (do m ← int_double nsize; q_grow_size fuel m targetsize) in
    if ltb nsize targetsize then rest else done nsize

module _ {ℓ} {A : Type ℓ} where
  unfoldable pub q_empty : Queue A → Bool
  q_empty q = q.nextwrite == q.nextread

  abbrev pub q_put : Queue A → A → Res (ℕ × Queue A)
  q_put q x = do
    v ← store q.cell q.nextwrite x
    done (0, record q { cell = v; nextwrite = (q.nextwrite + 1) % q.size })

  -- the `for` loop of `q_grow`, with fuel: `i` runs through the old array up to `onw`
  pub q_move : (Queue A → A → Res (ℕ × Queue A)) → ℕ → List A → ℕ → ℕ → ℕ → Queue A → Res (Queue A)
  q_move addtail zero olddata osize i onw q = diverge
  q_move addtail (suc fuel) olddata osize i onw q =
      let rest = (do
        x ← in_bounds (get_elem? olddata i)
        (result, q') ← addtail q x
        assert (result == 0)
        q_move addtail fuel olddata osize ((i + 1) % osize) onw q') in
      if i == onw then done q else rest

  -- What `kmalloc` promises: a block of the size that was asked for, in words of four bytes.
  abbrev pub IsAllocator : (ℕ → Option (List A)) → Type ℓ
  IsAllocator kmalloc = (n : ℕ) (b : List A) → kmalloc n ≡ some b → length b ≡ n / 4

  module _ (kmalloc : ℕ → Option (List A)) where
    pub q_grow : (Queue A → A → Res (ℕ × Queue A)) → Queue A → ℕ → Res (ℕ × Queue A)
    q_grow addtail q targetsize = do
      nsize ← q_grow_size 32 q.size targetsize
      elim (kmalloc (nsize * 4 % 2 ^ 32)) [
        | none ↦ done (enomem, q)
        | some ndata ↦ do
          let new = record q { size = nsize; cell = ndata; nextread = 0; nextwrite = 0 }
          q' ← q_move addtail (q.size) q.cell q.size q.nextread q.nextwrite new
          done (0, q')
      ]

    -- `q_addtail` and `q_grow` call one another: `depth` bounds how deep.
    pub q_addtail_depth : ℕ → Queue A → A → Res (ℕ × Queue A)
    q_addtail_depth zero q x = diverge
    q_addtail_depth (suc depth) q x =
        let full = (do
          targetsize ← int_add q.size 1
          (result, q') ← q_grow (q_addtail_depth depth) q targetsize
          if result == 0 then q_put q' x else done (result, q')) in
        assert (ltb 0 q.size)
        >> (if (q.nextwrite + 1) % q.size == q.nextread then full else q_put q x)

    -- The call in the loop of `q_grow` finds room, so two levels are enough.
    unfoldable pub q_addtail : Queue A → A → Res (ℕ × Queue A)
    unfolding q_addtail_depth q_grow q_move
    q_addtail = q_addtail_depth 2

    unfoldable pub q_preallocate : Queue A → ℕ → Res (ℕ × Queue A)
    unfolding q_grow q_move
    q_preallocate q size =
        assert (ltb 0 q.size) >> (if ltb q.size size then q_grow q_addtail q size else done (0, q))

    -- `struct_ok` says whether the `kmalloc` of the `struct queue` itself succeeds.
    unfoldable pub q_create : Bool → ℕ → Option (Queue A)
    q_create struct_ok size =
        if struct_ok
        then elim (kmalloc (size * 4 % 2 ^ 32)) [
          | none ↦ none
          | some v ↦ some (record { size = size; nextwrite = 0; nextread = 0; cell = v })
        ]
        else none

  unfoldable pub q_remhead : Queue A → Res (A × Queue A)
  unfolding q_empty
  q_remhead q = do
    assert (ltb 0 q.size)
    assert (not (q_empty q))
    ret ← in_bounds (get_elem? q.cell q.nextread)
    done (ret, record q { nextread = (q.nextread + 1) % q.size })

  -- What is left of `q_destroy` is two calls of `kfree`.
  unfoldable pub q_destroy : Queue A → Res (Unit {0})
  unfolding q_empty
  q_destroy q = assert (q_empty q)

  unfoldable pub q_getstart : Queue A → ℕ
  q_getstart q = q.nextread

  unfoldable pub q_getend : Queue A → ℕ
  q_getend q = q.nextwrite

  unfoldable pub q_getsize : Queue A → ℕ
  q_getsize q = q.size

  unfoldable pub q_getguy : Queue A → ℤ → Res A
  q_getguy q (pos index) = do assert (ltb index q.size); in_bounds (get_elem? q.cell index)
  q_getguy q (negsuc index) = panic
