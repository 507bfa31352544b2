-- ===== src/Bitmap/Alloc.antt =====
-- `bitmap_alloc` finds the first clear bit.
use cse_9201_os.Common.{
  ℕ, zero, suc, ◌+◌, ◌*◌, ◌%◌, ◌^◌, ◌<◌, ◌≡◌, ◌≢◌, ◌⊎◌, inl, inr, refl, ap, sym, ◌∙◌, true, false,
  Option, none, some, length, get_elem?, arith, ◌==◌, ==→eq, ==_false→ne, lt→ltb, Bool-cases,
  dec_lt, Res, done,
}
use native.Mathlib.Nat.{mod-eq_of_lt}
use mathlib.Core.Bool.{false≢true}
use cse_9201_os.Common.Cells.{get_elem?-in}
use cse_9201_os.Common.Errno.{enospc}
use cse_9201_os.Common.Bytes.{test_bit, and-test_bit, full-byte, test_bit-full}
use cse_9201_os.Bitmap.{Bitmap, words, alloc_offset, alloc_word, bitmap_alloc}
use cse_9201_os.Bitmap.Bits.{IsValid, bit_at, bit_at-get}
use cse_9201_os.Bitmap.Laws.{Marks, with_bit, with_bit-Marks}

-- `alloc` has marked the first clear bit, or there is none.
abbrev pub Allocates : Bitmap → Res (ℕ × Option ℕ × Bitmap) → Type 0
Allocates b r =
    ((index : ℕ) × (b' : Bitmap) × (r ≡ done (0, some index, b'))
      × (index < b.nbits)
      × (bit_at b.v index ≡ false)
      × ((i : ℕ) → i < index → bit_at b.v i ≡ true)
      × Marks b index b')
    ⊎ ((r ≡ done (enospc, none, b)) × ((i : ℕ) → bit_at b.v i ≡ true))

module _ (b : Bitmap) (v : IsValid b) where
  -- A clear bit lies below `nbits`.
  clear_in : (i : ℕ) → bit_at b.v i ≡ false → i < b.nbits
  clear_in i clear = elim (dec_lt i b.nbits) [
    | yes h ↦ h
    | no out ↦ absurd (false≢true (sym clear ∙ v.leftover i (omega arith)))
  ]

  module _ (ix w : ℕ) (get : get_elem? b.v ix ≡ some w) (len : ix < length b.v) where
    bit_here : (o : ℕ) → o < 8 → bit_at b.v (ix * 8 + o) ≡ test_bit w o
    bit_here o h =
        bit_at-get b.v (ix * 8 + o) w (ap (get_elem? b.v) (omega arith) ∙ get)
        ∙ ap (test_bit w) (omega arith)

    found_here :
        (n o : ℕ)
        → o < 8
        → test_bit w o ≡ false
        → alloc_offset (suc n) o ix w b ≡ done (0, some (ix * 8 + o), with_bit b v ix o w)
    unfolding alloc_offset
    found_here n o h clear =
        let small : ix * 8 + o < b.nbits = clear_in (ix * 8 + o) (bit_here o h ∙ clear) in
        rw (
          and-test_bit w o (v.bytes ix w get) h,
          clear,
          get,
          lt→ltb ix (length b.v) len,
          mod-eq_of_lt {n = ix * 8 + o} {m = 2 ^ 32} (omega (arith, v.small)),
          lt→ltb (ix * 8 + o) b.nbits small,
        )

    skip_here :
        (n o : ℕ)
        → o < 8
        → test_bit w o ≡ true
        → alloc_offset (suc n) o ix w b ≡ alloc_offset n (o + 1) ix w b
    unfolding alloc_offset
    skip_here n o h marked = rw (and-test_bit w o (v.bytes ix w get) h, marked)

    extend :
        (base offset : ℕ)
        → ((i : ℕ) → i < base + offset → bit_at b.v i ≡ true)
        → bit_at b.v (base + offset) ≡ true
        → (i : ℕ) → i < base + (offset + 1)
        → bit_at b.v i ≡ true
    extend base offset before last i h = elim (dec_lt i (base + offset)) [
      | yes old ↦ before i old
      | no new ↦ ap (bit_at b.v) (omega arith) ∙ last
    ]

    -- The inner loop at `offset`, on a word that is not 0xff, with the bits before all marked.
    alloc_offset-finds :
        (n offset : ℕ)
        → n + offset ≡ 8
        → w ≢ 255
        → ((i : ℕ) → i < ix * 8 + offset → bit_at b.v i ≡ true)
        → Allocates b (alloc_offset n offset ix w b)
    alloc_offset-finds zero offset e ne before = absurd (
        ne (
          full-byte w (v.bytes ix w get)
            (λ p h. sym (bit_here p h) ∙ before (ix * 8 + p) (omega arith))))
    alloc_offset-finds (suc n) offset e ne before = elim (Bool-cases (test_bit w offset)) [
      | inr clear ↦
          let h : offset < 8 = omega arith in
          let hole = bit_here offset h ∙ clear in
          inl (
            ix * 8 + offset,
            with_bit b v ix offset w,
            found_here n offset h clear,
            clear_in (ix * 8 + offset) hole,
            hole,
            before,
            with_bit-Marks b v ix offset w (ix * 8 + offset) get len h refl,
          )
      | inl marked ↦ rw (skip_here n offset (omega arith) marked) (
          alloc_offset-finds n (offset + 1) (omega arith) ne
            (extend (ix * 8) offset before (bit_here offset (omega arith) ∙ marked)))
    ]

    -- A word 0xff has all its bits marked.
    all_here :
        w ≡ 255
        → ((i : ℕ) → i < ix * 8 → bit_at b.v i ≡ true)
        → (i : ℕ) → i < (ix + 1) * 8
        → bit_at b.v i ≡ true
    all_here full before i h = elim (dec_lt i (ix * 8)) [
      | yes old ↦ before i old
      | no new ↦
          ap (bit_at b.v) (omega arith)
          ∙ bit_here (i % 8) (omega arith)
          ∙ rw full (test_bit-full (i % 8) (omega arith))
    ]

  -- The outer loop at `ix`, with the bits of the words before all marked.
  alloc_word-finds :
      (n ix : ℕ)
      → n + ix ≡ length b.v
      → ((i : ℕ) → i < ix * 8 → bit_at b.v i ≡ true)
      → Allocates b (alloc_word n ix b)
  unfolding alloc_word
  alloc_word-finds zero ix e before = inr (
    refl,
    λ i. elim (dec_lt i (ix * 8)) [
      | yes h ↦ before i h
      | no h ↦ v.leftover i (omega (arith, v.storage, v.small))
    ],
  )
  alloc_word-finds (suc n) ix e before =
      let (w, get) = get_elem?-in b.v ix (omega arith) in
      elim (Bool-cases (w == 255)) [
        | inl full ↦
            rw (get, full)
              (alloc_word-finds n (ix + 1) (omega arith)
                (all_here ix w get (omega arith) (==→eq w 255 full) before))
        | inr some_clear ↦
            rw (get, some_clear)
              (alloc_offset-finds ix w get (omega arith) 8 0 (omega arith)
                (==_false→ne w 255 some_clear) (λ i h. before i (omega arith)))
      ]

  -- `bitmap_alloc` on a well-formed bitmap always returns: either 0 with the lowest clear bit, which
  -- lies below `nbits` and is now marked, no other bit being changed and the bitmap well formed; or
  -- ENOSPC with the bitmap unchanged, when every bit is marked.
  pub bitmap_alloc_lem : Allocates b (bitmap_alloc b)
  unfolding bitmap_alloc
  bitmap_alloc_lem =
      alloc_word-finds (words b.nbits) 0 (omega (arith, v.storage)) (λ i h. absurd (omega arith))
