-- ===== src/Common/Bytes.antt =====
-- The bits of a byte: facts about `&` and `|` with a single bit, checked for every byte.
use cse_9201_os.Common.{
  ℕ, zero, suc, ◌-◌, ◌/◌, ◌%◌, ◌^◌, ◌<◌, ◌≡◌, refl, Bool, true, false, ◌&&◌, ◌||◌, ◌==◌, bit_and,
  bit_or, arith, ltb, ==→eq, ltb→lt, sym, ◌∙◌, ℕ_discrete, ap,
}

-- bit `p` of the word `w`
abbrev pub test_bit : ℕ → ℕ → Bool
test_bit w p = w / 2 ^ p % 2 == 1

abbrev pub same : Bool → Bool → Bool
same true b = b
same false true = false
same false false = true

same→eq : (a b : Bool) → same a b ≡ true → a ≡ b
same→eq a b h = ground arith

&&-left : (a b : Bool) → (a && b) ≡ true → a ≡ true
&&-left a b h = ground arith

&&-right : (a b : Bool) → (a && b) ≡ true → b ≡ true
&&-right a b h = ground arith

-- Whether a test passes at every number that is less than a bound.
passes : (ℕ → Bool) → ℕ → Bool
passes test zero = true
passes test (suc bound) = passes test bound && test bound

passes-at : (test : ℕ → Bool) (bound k : ℕ) → k < bound → passes test bound ≡ true → test k ≡ true
unfolding passes
passes-at test zero k below ok = elim below [ ]
passes-at test (suc bound) k below ok = elim (ℕ_discrete k bound) [
  | yes last ↦ ap test last ∙ &&-right (passes test bound) (test bound) ok
  | no before ↦ passes-at test bound k (omega arith) (&&-left (passes test bound) (test bound) ok)
]

-- The three tables range over the words below 256 and the bits below 8.
abbrev for_bits : (ℕ → ℕ → Bool) → Bool
for_bits f = passes (λ w. passes (f w) 8) 256

for_bits_sound : (f : ℕ → ℕ → Bool) (w o : ℕ) → for_bits f ≡ true → w < 256 → o < 8 → f w o ≡ true
for_bits_sound f w o h a b = passes-at (f w) 8 o b (passes-at (λ w. passes (f w) 8) 256 w a h)

and_table : for_bits (λ w o. same (bit_and w (2 ^ o) == 0) (same (test_bit w o) false)) ≡ true
unfolding passes
and_table = refl

or_table :
    for_bits (λ w o.
      passes (λ p. same (test_bit (bit_or w (2 ^ o)) p) (o == p || test_bit w p)) 8
      && ltb (bit_or w (2 ^ o)) 256)
    ≡ true
unfolding passes
or_table = refl

clear_table :
    for_bits (λ w o.
      passes
        (λ p. same (test_bit (bit_and w (255 - 2 ^ o)) p) (same (o == p) false && test_bit w p))
        8
      && ltb (bit_and w (255 - 2 ^ o)) 256)
    ≡ true
unfolding passes
clear_table = refl

full_table : passes (λ w. same (passes (test_bit w) 8) (w == 255)) 256 ≡ true
unfolding passes
full_table = refl

module _ (w o : ℕ) (byte : w < 256) (bit : o < 8) where
  -- `(w & (1 << o)) == 0`
  pub and-test_bit : (bit_and w (2 ^ o) == 0) ≡ same (test_bit w o) false
  and-test_bit = same→eq (bit_and w (2 ^ o) == 0) (same (test_bit w o) false) (
      for_bits_sound (λ w o. same (bit_and w (2 ^ o) == 0) (same (test_bit w o) false)) w o
        and_table byte bit)

  or_both :
      (passes (λ p. same (test_bit (bit_or w (2 ^ o)) p) (o == p || test_bit w p)) 8
        && ltb (bit_or w (2 ^ o)) 256)
      ≡ true
  or_both =
      for_bits_sound
        (λ w o.
          passes (λ p. same (test_bit (bit_or w (2 ^ o)) p) (o == p || test_bit w p)) 8
          && ltb (bit_or w (2 ^ o)) 256)
        w o or_table byte bit

  clear_both :
      (passes
          (λ p. same (test_bit (bit_and w (255 - 2 ^ o)) p) (same (o == p) false && test_bit w p))
          8
        && ltb (bit_and w (255 - 2 ^ o)) 256)
      ≡ true
  clear_both =
      for_bits_sound
        (λ w o.
          passes
            (λ p. same (test_bit (bit_and w (255 - 2 ^ o)) p) (same (o == p) false && test_bit w p))
            8
          && ltb (bit_and w (255 - 2 ^ o)) 256)
        w o clear_table byte bit

  -- `w | (1 << o)` is a byte, with bit `o` set and the others as they were.
  pub or-byte : bit_or w (2 ^ o) < 256
  or-byte = ltb→lt (bit_or w (2 ^ o)) 256 (&&-right _ _ or_both)

  pub test_bit-or : (p : ℕ) → p < 8 → test_bit (bit_or w (2 ^ o)) p ≡ (o == p || test_bit w p)
  test_bit-or p h = same→eq (test_bit (bit_or w (2 ^ o)) p) (o == p || test_bit w p) (
      passes-at (λ p. same (test_bit (bit_or w (2 ^ o)) p) (o == p || test_bit w p)) 8 p h
        (&&-left _ _ or_both))

  -- `w & ~(1 << o)` is a byte, with bit `o` clear and the others as they were.
  pub clear-byte : bit_and w (255 - 2 ^ o) < 256
  clear-byte = ltb→lt (bit_and w (255 - 2 ^ o)) 256 (&&-right _ _ clear_both)

  pub test_bit-clear :
      (p : ℕ) → p < 8 → test_bit (bit_and w (255 - 2 ^ o)) p ≡ (same (o == p) false && test_bit w p)
  test_bit-clear p h =
      same→eq (test_bit (bit_and w (255 - 2 ^ o)) p) (same (o == p) false && test_bit w p) (
        passes-at
          (λ p. same (test_bit (bit_and w (255 - 2 ^ o)) p) (same (o == p) false && test_bit w p)) 8
          p h (&&-left _ _ clear_both))

passes_intro :
    (test : ℕ → Bool) (bound : ℕ) → ((k : ℕ) → k < bound → test k ≡ true) → passes test bound ≡ true
unfolding passes
passes_intro test zero h = refl
passes_intro test (suc bound) h =
    rw (passes_intro test bound (λ k below. h k (omega arith))) (h bound (omega arith))

full_same : (w : ℕ) → w < 256 → passes (test_bit w) 8 ≡ (w == 255)
full_same w byte =
    same→eq (passes (test_bit w) 8) (w == 255)
      (passes-at (λ w. same (passes (test_bit w) 8) (w == 255)) 256 w byte full_table)

-- A byte with all its bits set is 0xff, and 0xff has them all.
pub full-byte : (w : ℕ) → w < 256 → ((p : ℕ) → p < 8 → test_bit w p ≡ true) → w ≡ 255
full-byte w byte h = ==→eq w 255 (sym (full_same w byte) ∙ passes_intro (test_bit w) 8 h)

pub test_bit-full : (p : ℕ) → p < 8 → test_bit 255 p ≡ true
unfolding passes
test_bit-full p h = passes-at (test_bit 255) 8 p h refl
