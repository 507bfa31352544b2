-- ===== src/Bitmap.antt =====
-- kern/lib/bitmap.c: an array of bits in bytes.
-- A `u_int32_t` sum or product keeps its wrap. An access outside `v` is undefined.
pub mod Bits
pub mod Laws
mod Tests
pub mod Alloc
pub mod Create
pub mod Sample
use cse_9201_os.Common.{
  ℕ, zero, suc, ◌+◌, ◌-◌, ◌*◌, ◌/◌, ◌%◌, ◌^◌, Bool, true, false, not, ◌&&◌, Option, none, some,
  List, bit_and, bit_or, replicate, get_elem?, ltb, ◌==◌, if◌then◌else◌, Res, done, panic, ◌>>=◌,
  ◌>>◌, assert, in_bounds, store,
}
use cse_9201_os.Common.Errno.{enospc}

-- `struct bitmap`
pub record Bitmap : Type 0 where
  pub nbits : ℕ
  pub v : List ℕ

-- `DIVROUNDUP(nbits, BITS_PER_WORD)`
abbrev pub words : ℕ → ℕ
words nbits = (nbits + 8 - 1) % 2 ^ 32 / 8

-- `b->v[ix] |= mask`
abbrev pub or_word : Bitmap → ℕ → ℕ → Res Bitmap
or_word b ix mask = do
  w ← in_bounds (get_elem? b.v ix)
  v ← store b.v ix (bit_or w mask)
  done (record b { v = v })

-- the loop of `bitmap_create` that marks the leftover bits, for `n` more values of `j`
pub mark_leftover : ℕ → ℕ → ℕ → Bitmap → Res Bitmap
mark_leftover zero j ix b = done b
mark_leftover (suc n) j ix b = do b' ← or_word b ix (2 ^ j); mark_leftover n (j + 1) ix b'

-- `struct_ok` and `words_ok` are the outcomes of the two calls of `kmalloc`.
pub bitmap_create : Bool → Bool → ℕ → Res (Option Bitmap)
bitmap_create struct_ok words_ok nbits =
    if struct_ok && words_ok
    then (if ltb (nbits / 8) (words nbits)
        then (do
          assert (nbits / 8 == words nbits - 1)
          assert (ltb 0 overbits && ltb overbits 8)
          b ← mark_leftover (8 - overbits) overbits ix zeroed
          done (some b))
        else done (some zeroed))
    else done none
  where
    zeroed : Bitmap
    zeroed = record { nbits = nbits; v = replicate (words nbits) 0 }

    ix : ℕ
    ix = words nbits - 1

    overbits : ℕ
    overbits = nbits - ix * 8

-- The inner loop of `bitmap_alloc`, for `n` more values of `offset`, on the word `w` at `ix`.
-- The result is the error code, what goes through `index`, and the bitmap.
pub alloc_offset : ℕ → ℕ → ℕ → ℕ → Bitmap → Res (ℕ × Option ℕ × Bitmap)
alloc_offset zero offset ix w b = panic
alloc_offset (suc n) offset ix w b =
    let rest = alloc_offset n (offset + 1) ix w b in
    let found = (do
      b' ← or_word b ix (2 ^ offset)
      let index = (ix * 8 + offset) % 2 ^ 32
      assert (ltb index b.nbits)
      done (0, some index, b')) in
    if bit_and w (2 ^ offset) == 0 then found else rest

-- The outer loop, for `n` more values of `ix`.
pub alloc_word : ℕ → ℕ → Bitmap → Res (ℕ × Option ℕ × Bitmap)
alloc_word zero ix b = done (enospc, none, b)
alloc_word (suc n) ix b =
    let rest = alloc_word n (ix + 1) b in
    (do w ← in_bounds (get_elem? b.v ix); if not (w == 0xff) then alloc_offset 8 0 ix w b else rest)

pub bitmap_alloc : Bitmap → Res (ℕ × Option ℕ × Bitmap)
bitmap_alloc b = alloc_word (words b.nbits) 0 b

-- the word's index and the mask
abbrev pub bitmap_translate : ℕ → ℕ × ℕ
bitmap_translate bitno = (bitno / 8, 2 ^ (bitno % 8))

pub bitmap_mark : Bitmap → ℕ → Res Bitmap
bitmap_mark b index = do
  assert (ltb index b.nbits)
  w ← in_bounds (get_elem? b.v (bitmap_translate index).0)
  assert (bit_and w (bitmap_translate index).1 == 0)
  or_word b (bitmap_translate index).0 (bitmap_translate index).1

-- `~mask` keeps its low eight bits: the other bits of the word are 0.
pub bitmap_unmark : Bitmap → ℕ → Res Bitmap
bitmap_unmark b index = do
  assert (ltb index b.nbits)
  w ← in_bounds (get_elem? b.v (bitmap_translate index).0)
  assert (not (bit_and w (bitmap_translate index).1 == 0))
  v ← store b.v (bitmap_translate index).0 (bit_and w (255 - (bitmap_translate index).1))
  done (record b { v = v })

pub bitmap_isset : Bitmap → ℕ → Res ℕ
bitmap_isset b index = do
  w ← in_bounds (get_elem? b.v (bitmap_translate index).0)
  done (bit_and w (bitmap_translate index).1)
