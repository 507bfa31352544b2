-- ===== src/Array.antt =====
-- kern/lib/array.c: an array of pointers that grows.
-- A pointer is any value of type `A`; `v` is `none` for NULL. A number of elements that a caller
-- asks for is not negative. `kmalloc` is an argument: for a size in bytes the words of the new
-- block, or `none` for NULL.
pub mod Contents
use cse_9201_os.Common.{
  ℕ, zero, suc, ◌+◌, ◌-◌, ◌*◌, ◌%◌, ◌^◌, Bool, true, false, ◌&&◌, List, ◌++◌, Option, none, some,
  get_elem?, length, take, drop, ltb, leb, ◌==◌, if◌then◌else◌, Res, done, panic, undefined,
  diverge, ◌>>=◌, ◌>>◌, assert, in_bounds, store,
}
use cse_9201_os.Common.Int.{ℤ, pos, negsuc}
use cse_9201_os.Common.Errno.{enomem}

-- `struct array`
pub record Array {ℓ} (A : Type ℓ) : Type ℓ where
  pub num : ℕ
  pub max : ℕ
  pub v : Option (List A)

-- the `while` loop of `array_preallocate`, with fuel; past INT_MAX the product is undefined
pub newmax_loop : ℕ → ℕ → ℕ → Res ℕ
newmax_loop zero nguys newmax = diverge
newmax_loop (suc fuel) nguys newmax =
    let larger = (newmax + 1) * 2 in
    let rest = newmax_loop fuel nguys larger in
    if ltb newmax nguys then (if ltb larger (2 ^ 31) then rest else undefined) else done newmax

-- an index that the assertions accept, with the number of elements
abbrev pub checked : ℤ → ℕ → Res ℕ
checked (pos index) num = if ltb index num then done index else panic
checked (negsuc n) num = panic

module _ {ℓ} {A : Type ℓ} where
  -- the `for` loop of `array_preallocate`, for `n` more values of `i`
  pub copy_loop : ℕ → ℕ → Option (List A) → List A → Res (List A)
  copy_loop zero i v newv = done newv
  copy_loop (suc n) i v newv = do
    block ← in_bounds v
    x ← in_bounds (get_elem? block i)
    newv' ← store newv i x
    copy_loop n (i + 1) v newv'

  -- `memmove(v+index, v+index+1, nmove*sizeof(void *))`
  abbrev pub memmove_down : List A → ℕ → ℕ → Res (List A)
  memmove_down v index nmove =
      if leb (index + 1 + nmove) (length v)
      then done (take index v ++ (take nmove (drop (index + 1) v) ++ drop (index + nmove) v))
      else undefined

  -- `struct_ok` is the outcome of `kmalloc`.
  unfoldable pub array_create : Bool → Option (Array A)
  array_create struct_ok = if struct_ok then some (record { num = 0; max = 0; v = none }) else none

  unfoldable pub array_getnum : Array A → ℕ
  array_getnum a = a.num

  pub array_getguy : Array A → ℤ → Res A
  array_getguy a index = do
    assert (leb a.num a.max)
    i ← checked index a.num
    block ← in_bounds a.v
    in_bounds (get_elem? block i)

  pub array_setguy : Array A → ℤ → A → Res (Array A)
  array_setguy a index ptr = do
    assert (leb a.num a.max)
    i ← checked index a.num
    block ← in_bounds a.v
    block' ← store block i ptr
    done (record a { v = some block' })

  pub array_remove : Array A → ℤ → Res (Array A)
  array_remove a index = do
    assert (leb a.num a.max)
    i ← checked index a.num
    block ← in_bounds a.v
    block' ← memmove_down block i (a.num - (i + 1))
    done (record a { v = some block'; num = a.num - 1 })

  module _ (kmalloc : ℕ → Option (List A)) where
    pub array_preallocate : Array A → ℕ → Res (ℕ × Array A)
    unfolding newmax_loop copy_loop
    array_preallocate a nguys = do
      assert (leb a.num a.max)
      newmax ← newmax_loop 32 nguys a.max
      elim (kmalloc (newmax * 4 % 2 ^ 32)) [
        | none ↦ done (enomem, a)
        | some newv ↦ do
          newv' ← copy_loop a.num 0 a.v newv
          done (0, record a { max = newmax; v = some newv' })
      ]

    pub array_setsize : Array A → ℕ → Res (ℕ × Array A)
    unfolding array_preallocate
    array_setsize a nguys =
        let grown = (do
          (result, a') ← array_preallocate a nguys
          if result == 0 then done (0, record a' { num = nguys }) else done (result, a')) in
        let emptied = (do
          block ← elim a.v [ none ↦ panic | some block ↦ done block ]
          done (0, record { num = nguys; max = 0; v = none })) in
        assert (leb a.num a.max)
        >> (if ltb a.max nguys
            then grown
            else if nguys == 0 && ltb 16 a.max
            then emptied
            else done (0, record a { num = nguys }))

    pub array_add : Array A → A → Res (ℕ × Array A)
    unfolding array_setsize
    array_add a guy = do
      (result, a') ← array_setsize a (a.num + 1)
      let stored = (do
        block ← in_bounds a'.v
        block' ← store block a.num guy
        done (0, record a' { v = some block' }))
      if result == 0 then stored else done (result, a')
