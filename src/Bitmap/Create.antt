-- ===== src/Bitmap/Create.antt =====
-- `bitmap_create` gives a bitmap with every bit clear.
use cse_9201_os.Common.{
  ℕ, zero, suc, ◌+◌, ◌-◌, ◌*◌, ◌/◌, ◌%◌, ◌^◌, ◌≤◌, ◌<◌, ◌≡◌, refl, ap, sym, ◌∙◌, Bool, true, false,
  ◌&&◌, ◌||◌, none, some, length, replicate, length-replicate, length-set, set, get_elem?, arith,
  bit_or, ◌==◌, ltb, leb, eq→==, lt→ltb, le→ltb_false, dec_lt, ℕ_discrete, ◌≢◌, done,
}
use native.Mathlib.Nat.{zero-div}
use cse_9201_os.Common.Cells.{get_elem?-in}
use cse_9201_os.Common.Bytes.{test_bit, or-byte}
use cse_9201_os.Bitmap.{Bitmap, words, mark_leftover, bitmap_create}
use cse_9201_os.Bitmap.Bits.{IsValid, AllBytes, AllBytes-set, bit_at, bit_at-or}

get-replicate : (n i w : ℕ) → i < n → get_elem? (replicate n w) i ≡ some w
get-replicate zero i w h = absurd (omega arith)
get-replicate (suc n) zero w h = refl
get-replicate (suc n) (suc i) w h = get-replicate n i w (omega arith)

get-replicate_out : (n i w : ℕ) → n ≤ i → get_elem? (replicate n w) i ≡ none
get-replicate_out zero i w h = refl
get-replicate_out (suc n) zero w h = absurd (omega arith)
get-replicate_out (suc n) (suc i) w h = get-replicate_out n i w (omega arith)

AllBytes-zeros : (n : ℕ) → AllBytes (replicate n 0)
AllBytes-zeros zero i w e = absurd (cc e)
AllBytes-zeros (suc n) zero w e = ground arith
AllBytes-zeros (suc n) (suc i) w e = AllBytes-zeros n i w e

zero_bit : (p : ℕ) → test_bit 0 p ≡ false
zero_bit p = rw (zero-div (2 ^ p))

bit_at-zeros : (n i : ℕ) → i / 8 < n → bit_at (replicate n 0) i ≡ false
bit_at-zeros n i h = rw (get-replicate n (i / 8) 0 h, bit_at) (zero_bit (i % 8))

bit_at-zeros_out : (n i : ℕ) → n ≤ i / 8 → bit_at (replicate n 0) i ≡ true
bit_at-zeros_out n i h = rw (get-replicate_out n (i / 8) 0 h, bit_at)

-- What the loop over the leftover bits has done at its end.
record Leftover (b : Bitmap) (from to : ℕ) (b' : Bitmap) : Type 0 where
  same_size : b'.nbits ≡ b.nbits
  same_length : length b'.v ≡ length b.v
  bytes : AllBytes b'.v
  bits : (i : ℕ) → bit_at b'.v i ≡ ((leb from i && ltb i to) || bit_at b.v i)

mark_leftover-Leftover :
    (n j ix : ℕ) (b : Bitmap)
    → n + j ≡ 8
    → ix < length b.v
    → AllBytes b.v
    → (b' : Bitmap) × (mark_leftover n j ix b ≡ done b') × Leftover b (ix * 8 + j) (ix * 8 + 8) b'
unfolding mark_leftover
mark_leftover-Leftover zero j ix b e len bytes = (
  b,
  refl,
  record { same_size = refl; same_length = refl; bytes = bytes; bits = λ i. ground arith },
)
mark_leftover-Leftover (suc n) j ix b e len bytes =
    let (w, get) = get_elem?-in b.v ix len in
    let byte = bytes ix w get in
    let (b', run, l) =
      mark_leftover-Leftover n (j + 1) ix (record b { v = set b.v ix (bit_or w (2 ^ j)) })
        (omega arith) (omega (arith, length-set b.v ix (bit_or w (2 ^ j))))
        (AllBytes-set b.v ix (bit_or w (2 ^ j)) bytes (or-byte w j byte (omega arith))) in
    (
      b',
      rw (get, lt→ltb ix (length b.v) len) run,
      record {
        same_size = l.same_size;
        same_length = l.same_length ∙ length-set b.v ix (bit_or w (2 ^ j));
        bytes = l.bytes;
        bits = λ i.
            l.bits i
            ∙ ap (λ t. (leb (ix * 8 + (j + 1)) i && ltb i (ix * 8 + 8)) || t)
                (bit_at-or b.v ix w j i get len byte (omega arith))
            ∙ widen (ix * 8) j i (bit_at b.v i) (omega arith);
      },
    )
  where
    widen :
        (base j i : ℕ) (t : Bool)
        → j < 8
        → ((leb (base + (j + 1)) i && ltb i (base + 8)) || ((base + j == i) || t))
          ≡ ((leb (base + j) i && ltb i (base + 8)) || t)
    widen base j i t h = ground arith

abbrev pub zeroed : ℕ → Bitmap
zeroed nbits = record { nbits = nbits; v = replicate (words nbits) 0 }

-- What `bitmap_create` returns: a well-formed bitmap of the size asked for, with its bits clear.
pub record Created (nbits : ℕ) (b : Bitmap) : Type 0 where
  pub valid : IsValid b
  pub size : b.nbits ≡ nbits
  pub clear : (i : ℕ) → i < nbits → bit_at b.v i ≡ false

module _ (nbits : ℕ) (small : nbits + 7 < 2 ^ 32) where
  create_whole : nbits % 8 ≡ 0 → bitmap_create true true nbits ≡ done (some (zeroed nbits))
  unfolding bitmap_create
  create_whole e = rw (le→ltb_false (nbits / 8) (words nbits) (omega arith))

  whole-Created : nbits % 8 ≡ 0 → Created nbits (zeroed nbits)
  whole-Created e = record {
    valid = record {
      small = small;
      storage = length-replicate (words nbits) 0;
      bytes = AllBytes-zeros (words nbits);
      leftover = λ i h. bit_at-zeros_out (words nbits) i (omega arith);
    };
    size = refl;
    clear = λ i h. bit_at-zeros (words nbits) i (omega arith);
  }

  create_part :
      (b : Bitmap)
      → nbits % 8 ≢ 0
      → mark_leftover (8 - nbits % 8) (nbits % 8) (nbits / 8) (zeroed nbits) ≡ done b
      → bitmap_create true true nbits ≡ done (some b)
  unfolding bitmap_create
  create_part b ne run =
      let last : words nbits - 1 ≡ nbits / 8 = omega arith in
      let over : nbits - nbits / 8 * 8 ≡ nbits % 8 = omega arith in
      rw (
        lt→ltb (nbits / 8) (words nbits) (omega arith),
        last,
        eq→== (nbits / 8) (nbits / 8) refl,
        over,
        lt→ltb 0 (nbits % 8) (omega arith),
        lt→ltb (nbits % 8) 8 (omega arith),
        run,
      )

  part-Created :
      (b : Bitmap)
      → nbits % 8 ≢ 0
      → Leftover (zeroed nbits) (nbits / 8 * 8 + nbits % 8) (nbits / 8 * 8 + 8) b
      → Created nbits b
  part-Created b ne l = record {
    valid = record {
      small = omega (arith, l.same_size);
      storage = l.same_length ∙ length-replicate (words nbits) 0 ∙ ap words (sym l.same_size);
      bytes = l.bytes;
      leftover = λ i h. l.bits i ∙ high i (omega (arith, l.same_size));
    };
    size = l.same_size;
    clear = λ i h. l.bits i ∙ low i h;
  }
    where
      low :
          (i : ℕ)
          → i < nbits
          → ((leb (nbits / 8 * 8 + nbits % 8) i && ltb i (nbits / 8 * 8 + 8))
              || bit_at (replicate (words nbits) 0) i)
            ≡ false
      low i h = rw (bit_at-zeros (words nbits) i (omega arith)) (ground arith)

      high :
          (i : ℕ)
          → nbits ≤ i
          → ((leb (nbits / 8 * 8 + nbits % 8) i && ltb i (nbits / 8 * 8 + 8))
              || bit_at (replicate (words nbits) 0) i)
            ≡ true
      high i h = elim (dec_lt i (nbits / 8 * 8 + 8)) [
        | yes a ↦ ground arith
        | no a ↦ rw (bit_at-zeros_out (words nbits) i (omega arith)) (ground arith)
      ]

  -- When both calls of `kmalloc` succeed and `nbits + 7` does not wrap, `bitmap_create` passes its
  -- assertions and returns a well-formed bitmap of `nbits` bits, all of them clear.
  pub bitmap_create_lem :
      (b : Bitmap) × (bitmap_create true true nbits ≡ done (some b)) × Created nbits b
  bitmap_create_lem = elim (ℕ_discrete (nbits % 8) 0) [
    | yes e ↦ (zeroed nbits, create_whole e, whole-Created e)
    | no ne ↦
        let (b, run, l) =
          mark_leftover-Leftover (8 - nbits % 8) (nbits % 8) (nbits / 8) (zeroed nbits)
            (omega arith) (omega (arith, length-replicate {A = ℕ} (words nbits) 0))
            (AllBytes-zeros (words nbits)) in
        (b, create_part b ne run, part-Created b ne l)
  ]
