-- ===== src/Bitmap/Laws.antt =====
-- What the operations of bitmap.c do to the set of marked bits.
use cse_9201_os.Common.{
  ℕ, ◌+◌, ◌-◌, ◌*◌, ◌/◌, ◌%◌, ◌^◌, ◌≤◌, ◌<◌, ◌≡◌, ◌⊎◌, inl, inr, refl, ap, sym, ◌∙◌, Bool, true,
  false, ◌||◌, ◌&&◌, some, length, get_elem?, set, length-set, arith, bit_or, bit_and, ◌==◌,
  ne→==_false, eq→==, ==→eq, lt→ltb, le→ltb_false, Bool-cases, dec_lt, done, panic, ◌↔◌,
}
use cse_9201_os.Common.Cells.{get_elem?-in}
use cse_9201_os.Common.Bytes.{same, and-test_bit, or-byte, clear-byte}
use cse_9201_os.Bitmap.{Bitmap, bitmap_mark, bitmap_unmark, bitmap_isset}
use cse_9201_os.Bitmap.Bits.{IsValid, bit_at, bit_at-get, bit_at-or, bit_at-clear, AllBytes-set}

-- `b'` is `b` with bit `index` marked too, and well formed.
pub record Marks (b : Bitmap) (index : ℕ) (b' : Bitmap) : Type 0 where
  pub valid : IsValid b'
  pub same_size : b'.nbits ≡ b.nbits
  pub bits : (i : ℕ) → bit_at b'.v i ≡ (index == i || bit_at b.v i)

-- `b'` is `b` with bit `index` cleared, and well formed.
pub record Clears (b : Bitmap) (index : ℕ) (b' : Bitmap) : Type 0 where
  pub valid : IsValid b'
  pub same_size : b'.nbits ≡ b.nbits
  pub bits : (i : ℕ) → bit_at b'.v i ≡ (same (index == i) false && bit_at b.v i)

or-true : (a b : Bool) → b ≡ true → (a || b) ≡ true
or-true a b h = ground arith

same-false : (t : Bool) → same t false ≡ true → t ≡ false
same-false t h = ground arith

module _ (b : Bitmap) (v : IsValid b) where
  pub word_in : (i : ℕ) → i < b.nbits → i / 8 < length b.v
  word_in i h = omega (arith, v.storage, v.small)

  -- the bitmap with bit `o` of word `ix`, which is `w`, set or cleared
  abbrev pub with_bit : ℕ → ℕ → ℕ → Bitmap
  with_bit ix o w = record b { v = set b.v ix (bit_or w (2 ^ o)) }

  abbrev pub without_bit : ℕ → ℕ → ℕ → Bitmap
  without_bit ix o w = record b { v = set b.v ix (bit_and w (255 - 2 ^ o)) }

  pub with_bit-Marks :
      (ix o w i : ℕ)
      → get_elem? b.v ix ≡ some w
      → ix < length b.v
      → o < 8
      → ix * 8 + o ≡ i
      → Marks b i (with_bit ix o w)
  with_bit-Marks ix o w i get len bit e = record {
    valid = record {
      small = v.small;
      storage = length-set b.v ix (bit_or w (2 ^ o)) ∙ v.storage;
      bytes = AllBytes-set b.v ix (bit_or w (2 ^ o)) v.bytes (or-byte w o byte bit);
      leftover = λ j h.
          bit_at-or b.v ix w o j get len byte bit
          ∙ or-true (ix * 8 + o == j) (bit_at b.v j) (v.leftover j h);
    };
    same_size = refl;
    bits = λ j. bit_at-or b.v ix w o j get len byte bit ∙ ap (λ k. (k == j) || bit_at b.v j) e;
  }
    where
      byte : w < 256
      byte = v.bytes ix w get

  without_bit-Clears :
      (ix o w i : ℕ)
      → get_elem? b.v ix ≡ some w
      → ix < length b.v
      → o < 8
      → ix * 8 + o ≡ i
      → i < b.nbits
      → Clears b i (without_bit ix o w)
  without_bit-Clears ix o w i get len bit e small = record {
    valid = record {
      small = v.small;
      storage = length-set b.v ix (bit_and w (255 - 2 ^ o)) ∙ v.storage;
      bytes = AllBytes-set b.v ix (bit_and w (255 - 2 ^ o)) v.bytes (clear-byte w o byte bit);
      leftover = λ j h.
          bit_at-clear b.v ix w o j get len byte bit
          ∙ rw (ne→==_false (ix * 8 + o) j (λ g. omega arith)) (v.leftover j h);
    };
    same_size = refl;
    bits = λ j.
        bit_at-clear b.v ix w o j get len byte bit
        ∙ ap (λ k. same (k == j) false && bit_at b.v j) e;
  }
    where
      byte : w < 256
      byte = v.bytes ix w get

  -- The test `(w & mask) == 0` on the word of bit `i`.
  pub mask_test :
      (i w : ℕ)
      → get_elem? b.v (i / 8) ≡ some w
      → (bit_and w (2 ^ (i % 8)) == 0) ≡ same (bit_at b.v i) false
  mask_test i w get =
      and-test_bit w (i % 8) (v.bytes (i / 8) w get) (omega arith)
      ∙ ap (λ t. same t false) (sym (bit_at-get b.v i w get))

  module _ (index : ℕ) (small : index < b.nbits) (w : ℕ)
      (get : get_elem? b.v (index / 8) ≡ some w) where
    mark-clear :
        bit_at b.v index ≡ false → bitmap_mark b index ≡ done (with_bit (index / 8) (index % 8) w)
    unfolding bitmap_mark
    mark-clear clear = rw (
      lt→ltb index b.nbits small,
      get,
      mask_test index w get,
      clear,
      lt→ltb (index / 8) (length b.v) (word_in index small),
    )

    mark-marked : bit_at b.v index ≡ true → bitmap_mark b index ≡ panic
    unfolding bitmap_mark
    mark-marked marked = rw (lt→ltb index b.nbits small, get, mask_test index w get, marked)

    unmark-marked :
        bit_at b.v index ≡ true
        → bitmap_unmark b index ≡ done (without_bit (index / 8) (index % 8) w)
    unfolding bitmap_unmark
    unmark-marked marked = rw (
      lt→ltb index b.nbits small,
      get,
      mask_test index w get,
      marked,
      lt→ltb (index / 8) (length b.v) (word_in index small),
    )

    unmark-clear : bit_at b.v index ≡ false → bitmap_unmark b index ≡ panic
    unfolding bitmap_unmark
    unmark-clear clear = rw (lt→ltb index b.nbits small, get, mask_test index w get, clear)

  -- `bitmap_mark` on a well-formed bitmap: on a clear bit below `nbits` it marks that bit, no other,
  -- and the bitmap stays well formed; on a marked bit, and on any index from `nbits` on, it fails an
  -- assertion.
  pub bitmap_mark_lem :
      (index : ℕ)
      → ((index < b.nbits)
          × (bit_at b.v index ≡ false)
          × ((b' : Bitmap) × (bitmap_mark b index ≡ done b') × Marks b index b'))
        ⊎ (((b.nbits ≤ index) ⊎ (bit_at b.v index ≡ true)) × (bitmap_mark b index ≡ panic))
  unfolding bitmap_mark
  bitmap_mark_lem index = elim (dec_lt index b.nbits) [
    | no out ↦ inr (inl (omega arith), rw (le→ltb_false index b.nbits (omega arith)))
    | yes small ↦
        let (w, get) = get_elem?-in b.v (index / 8) (word_in index small) in
        elim (Bool-cases (bit_at b.v index)) [
          | inl marked ↦ inr (inr marked, mark-marked index small w get marked)
          | inr clear ↦ inl (
            small,
            clear,
            (
              with_bit (index / 8) (index % 8) w,
              mark-clear index small w get clear,
              with_bit-Marks (index / 8) (index % 8) w index get (word_in index small) (omega arith)
                  (omega arith),
            ),
          )
        ]
  ]

  -- `bitmap_unmark` on a well-formed bitmap: on a marked bit below `nbits` it clears that bit, no
  -- other, and the bitmap stays well formed; on a clear bit, and on any index from `nbits` on, it
  -- fails an assertion.
  pub bitmap_unmark_lem :
      (index : ℕ)
      → ((index < b.nbits)
          × (bit_at b.v index ≡ true)
          × ((b' : Bitmap) × (bitmap_unmark b index ≡ done b') × Clears b index b'))
        ⊎ (((b.nbits ≤ index) ⊎ (bit_at b.v index ≡ false)) × (bitmap_unmark b index ≡ panic))
  unfolding bitmap_unmark
  bitmap_unmark_lem index = elim (dec_lt index b.nbits) [
    | no out ↦ inr (inl (omega arith), rw (le→ltb_false index b.nbits (omega arith)))
    | yes small ↦
        let (w, get) = get_elem?-in b.v (index / 8) (word_in index small) in
        elim (Bool-cases (bit_at b.v index)) [
          | inr clear ↦ inr (inr clear, unmark-clear index small w get clear)
          | inl marked ↦ inl (
            small,
            marked,
            (
              without_bit (index / 8) (index % 8) w,
              unmark-marked index small w get marked,
              without_bit-Clears (index / 8) (index % 8) w index get (word_in index small)
                  (omega arith) (omega arith) small,
            ),
          )
        ]
  ]

  -- `bitmap_isset`, on an index below `nbits` of a well-formed bitmap, returns 0 exactly when the bit
  -- is clear.
  pub bitmap_isset_lem :
      (index : ℕ)
      → index < b.nbits
      → (r : ℕ) × (bitmap_isset b index ≡ done r) × ((r ≡ 0) ↔ (bit_at b.v index ≡ false))
  unfolding bitmap_isset
  bitmap_isset_lem index small =
      let (w, get) = get_elem?-in b.v (index / 8) (word_in index small) in
      (bit_and w (2 ^ (index % 8)), rw get, zero_iff w get)
    where
      zero_iff :
          (w : ℕ)
          → get_elem? b.v (index / 8) ≡ some w
          → (bit_and w (2 ^ (index % 8)) ≡ 0) ↔ (bit_at b.v index ≡ false)
      zero_iff w get = (
        λ e. same-false _ (sym (mask_test index w get) ∙ eq→== _ 0 e),
        λ e. ==→eq _ 0 (mask_test index w get ∙ ap (λ t. same t false) e),
      )
