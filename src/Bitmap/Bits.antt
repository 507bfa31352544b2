-- ===== src/Bitmap/Bits.antt =====
-- A bitmap as the set of its marked bits.
use cse_9201_os.Common.{
  ℕ, zero, suc, ◌+◌, ◌-◌, ◌*◌, ◌/◌, ◌%◌, ◌^◌, ◌≤◌, ◌<◌, ◌≡◌, ap, sym, ◌∙◌, Bool, true, false, ◌||◌,
  ◌&&◌, Option, none, some, List, [], ◌∷◌, length, get_elem?, set, get_elem?-set_self,
  get_elem?-set_ne, arith, bit_or, bit_and, ◌==◌, ne→==_false, if◌then◌else◌, ◌⊎◌, inl, inr, eq→==,
  ℕ_discrete,
}
use mathlib.Core.Option.{some-injective}
use cse_9201_os.Common.Bytes.{test_bit, same, test_bit-or, test_bit-clear}
use cse_9201_os.Bitmap.{Bitmap, words}

-- Whether bit `i` is marked; a bit outside the array counts as marked.
abbrev pub bit_at : List ℕ → ℕ → Bool
bit_at v i = elim (get_elem? v (i / 8)) [ none ↦ true | some w ↦ test_bit w (i % 8) ]

abbrev pub AllBytes : List ℕ → Type 0
AllBytes v = (i w : ℕ) → get_elem? v i ≡ some w → w < 256

pub record IsValid (b : Bitmap) : Type 0 where
  pub small : b.nbits + 7 < 2 ^ 32
  pub storage : length b.v ≡ words b.nbits
  pub bytes : AllBytes b.v
  pub leftover : (i : ℕ) → b.nbits ≤ i → bit_at b.v i ≡ true

pub bit_at-get :
    (v : List ℕ) (i w : ℕ) → get_elem? v (i / 8) ≡ some w → bit_at v i ≡ test_bit w (i % 8)
bit_at-get v i w e = rw (e, bit_at)

-- A word read after a write is the word written or an old one.
set_cases :
    (v : List ℕ) (ix i w w' : ℕ)
    → get_elem? (set v ix w) i ≡ some w'
    → (w ≡ w') ⊎ (get_elem? v i ≡ some w')
set_cases [] ix i w w' e = inr e
set_cases (x ∷ v) zero zero w w' e = inl (some-injective w w' e)
set_cases (x ∷ v) zero (suc i) w w' e = inr e
set_cases (x ∷ v) (suc ix) zero w w' e = inr e
set_cases (x ∷ v) (suc ix) (suc i) w w' e = set_cases v ix i w w' e

pub AllBytes-set : (v : List ℕ) (ix w : ℕ) → AllBytes v → w < 256 → AllBytes (set v ix w)
AllBytes-set v ix w h small i w' e = elim (set_cases v ix i w w' e) [
  | inl same ↦ omega arith
  | inr old ↦ h i w' old
]

-- One word is written: its bits change as told, the others stay.
pub bit_at-set :
    (v : List ℕ) (ix w i : ℕ)
    → ix < length v
    → bit_at (set v ix w) i ≡ (if ix == i / 8 then test_bit w (i % 8) else bit_at v i)
bit_at-set v ix w i h = elim (ℕ_discrete ix (i / 8)) [
  | yes same ↦ rw (eq→== ix (i / 8) same) (
      bit_at-get (set v ix w) i w
        (ap (get_elem? (set v ix w)) (sym same) ∙ get_elem?-set_self v ix w h))
  | no ne ↦ rw (ne→==_false ix (i / 8) ne) (
      ap (λ (o : Option ℕ). elim o as (λ _. Bool) [ none ↦ true | some w ↦ test_bit w (i % 8) ])
        (get_elem?-set_ne v w ne))
]

-- The position of a bit: word and offset.
pub div-position : (ix o : ℕ) → o < 8 → ((ix * 8 + o) / 8 ≡ ix) × ((ix * 8 + o) % 8 ≡ o)
div-position ix o h = omega arith

-- Marking bit `o` of word `ix` marks bit `ix * 8 + o` and no other.
pub bit_at-or :
    (v : List ℕ) (ix w o i : ℕ)
    → get_elem? v ix ≡ some w
    → ix < length v
    → w < 256
    → o < 8
    → bit_at (set v ix (bit_or w (2 ^ o))) i ≡ ((ix * 8 + o == i) || bit_at v i)
bit_at-or v ix w o i get len byte bit = elim (ℕ_discrete ix (i / 8)) [
  | yes e ↦
      bit_at-set v ix (bit_or w (2 ^ o)) i len
      ∙ ground (
        arith,
        bit_at-get v i w (ap (get_elem? v) (sym e) ∙ get),
        test_bit-or w o byte bit (i % 8),
      )
  | no ne ↦
      bit_at-set v ix (bit_or w (2 ^ o)) i len
      ∙ rw (ne→==_false ix (i / 8) ne, ne→==_false (ix * 8 + o) i (λ e. ne (omega arith)))
]

-- Clearing it clears that bit and no other.
pub bit_at-clear :
    (v : List ℕ) (ix w o i : ℕ)
    → get_elem? v ix ≡ some w
    → ix < length v
    → w < 256
    → o < 8
    → bit_at (set v ix (bit_and w (255 - 2 ^ o))) i ≡ (same (ix * 8 + o == i) false && bit_at v i)
bit_at-clear v ix w o i get len byte bit = elim (ℕ_discrete ix (i / 8)) [
  | yes e ↦
      bit_at-set v ix (bit_and w (255 - 2 ^ o)) i len
      ∙ ground (
        arith,
        bit_at-get v i w (ap (get_elem? v) (sym e) ∙ get),
        test_bit-clear w o byte bit (i % 8),
      )
  | no ne ↦
      bit_at-set v ix (bit_and w (255 - 2 ^ o)) i len
      ∙ rw (ne→==_false ix (i / 8) ne, ne→==_false (ix * 8 + o) i (λ e. ne (omega arith)))
]
