-- ===== src/Common/Strings.antt =====
-- Strings as the lists of their bytes before the NUL, and whether `strcmp` finds two of them equal.
use Prim.Native.Nat.{ℕ}
use mathlib.Core.Path.{◌≡◌, refl, sym, ap₂}
use mathlib.Core.Logic.{◌≢◌, inl, inr}
use mathlib.Core.Bool.{Bool, true, false, ◌&&◌}
use mathlib.Core.List.{List, [], ◌∷◌}
use cse_9201_os.Common.{◌==◌, ==→eq, eq→==, Bool-cases}

abbrev pub same_name : List ℕ → List ℕ → Bool
same_name [] [] = true
same_name [] (b ∷ bs) = false
same_name (a ∷ as') [] = false
same_name (a ∷ as') (b ∷ bs) = (a == b) && same_name as' bs

pub same_name_refl : (name : List ℕ) → same_name name name ≡ true
same_name_refl [] = refl
same_name_refl (x ∷ l) = rw (eq→== x x refl) (same_name_refl l)

pub same_name→eq : (a b : List ℕ) → same_name a b ≡ true → a ≡ b
same_name→eq [] [] h = refl
same_name→eq [] (b ∷ bs) h = cc h
same_name→eq (a ∷ as') [] h = cc h
same_name→eq (a ∷ as') (b ∷ bs) h = elim (Bool-cases (a == b)) [
  | inl same ↦ ap₂ (λ x l. x ∷ l) (==→eq a b same) (same_name→eq as' bs (rw same at h))
  | inr other ↦ cc (rw other at h)
]

pub eq→same_name : (a b : List ℕ) → a ≡ b → same_name a b ≡ true
eq→same_name a b e = rw e (same_name_refl b)

pub ne→same_name_false : (a b : List ℕ) → a ≢ b → same_name a b ≡ false
ne→same_name_false a b ne = elim (Bool-cases (same_name a b)) [
  | inl same ↦ absurd (ne (same_name→eq a b same))
  | inr other ↦ other
]

pub same_name_sym : (a b : List ℕ) → same_name a b ≡ same_name b a
same_name_sym a b = elim (Bool-cases (same_name a b)) [
  | inl same ↦ rw (same, eq→same_name b a (sym (same_name→eq a b same))) refl
  | inr other ↦ elim (Bool-cases (same_name b a)) [
    | inl same ↦ rw (eq→same_name a b (sym (same_name→eq b a same)), same) refl
    | inr other' ↦ rw (other, other') refl
  ]
]
