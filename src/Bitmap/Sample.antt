-- ===== src/Bitmap/Sample.antt =====
-- A bitmap of ten bits that is well formed, for the tests.
use cse_9201_os.Common.{
  ℕ, ◌<◌, ◌≤◌, ◌≡◌, refl, true, none, [], ◌∷◌, arith, get_elem?, zero, suc, ◌/◌, ◌%◌, ap, sym, ◌∙◌,
  dec_lt,
}
use mathlib.Core.Option.{some-injective}
use cse_9201_os.Common.Bytes.{test_bit}
use cse_9201_os.Bitmap.{Bitmap}
use cse_9201_os.Bitmap.Bits.{IsValid, bit_at, bit_at-get, AllBytes}

-- ten bits, of which 0 and 1 are marked; the last six bits of the second byte are left over
abbrev pub ten : Bitmap
ten = record { nbits = 10; v = 3 ∷ 252 ∷ [] }

two_bytes : (a b : ℕ) → a < 256 → b < 256 → AllBytes (a ∷ b ∷ [])
two_bytes a b p q zero w e = omega (arith, some-injective a w e)
two_bytes a b p q (suc zero) w e = omega (arith, some-injective b w e)
two_bytes a b p q (suc (suc i)) w e = cc e

high_bits : (p : ℕ) → 2 ≤ p → p < 8 → test_bit 252 p ≡ true
high_bits zero h l = absurd (omega arith)
high_bits (suc zero) h l = absurd (omega arith)
high_bits (suc (suc zero)) h l = refl
high_bits (suc (suc (suc zero))) h l = refl
high_bits (suc (suc (suc (suc zero)))) h l = refl
high_bits (suc (suc (suc (suc (suc zero))))) h l = refl
high_bits (suc (suc (suc (suc (suc (suc zero)))))) h l = refl
high_bits (suc (suc (suc (suc (suc (suc (suc zero))))))) h l = refl
high_bits (suc (suc (suc (suc (suc (suc (suc (suc p)))))))) h l = absurd (omega arith)

get_outside : (k : ℕ) → 2 ≤ k → get_elem? ten.v k ≡ none
get_outside zero h = absurd (omega arith)
get_outside (suc zero) h = absurd (omega arith)
get_outside (suc (suc k)) h = refl

pub ten-IsValid : IsValid ten
ten-IsValid = record {
  small = omega arith;
  storage = refl;
  bytes = two_bytes 3 252 (omega arith) (omega arith);
  leftover = λ i h. elim (dec_lt i 16) [
    | yes l ↦
        let e : 1 ≡ i / 8 = omega arith in
        bit_at-get ten.v i 252 (ap (get_elem? ten.v) (sym e))
        ∙ high_bits (i % 8) (omega arith) (omega arith)
    | no l ↦ rw (get_outside (i / 8) (omega arith), bit_at)
  ];
}
