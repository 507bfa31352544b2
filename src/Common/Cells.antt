-- ===== src/Common/Cells.antt =====
-- An array used as a ring of `s` cells: the values from a cell on, going round at `s`.
use cse_9201_os.Common.{
  ℕ, zero, suc, ◌+◌, ◌-◌, ◌%◌, ◌≤◌, ◌<◌, ◌≡◌, refl, ap, sym, ◌∙◌, ◌≢◌, List, [], ◌∷◌, ◌++◌, none,
  some, arith, dec_lt, length, get_elem?, set, get_elem?-set_self, get_elem?-set_ne,
}
use native.Mathlib.Nat.{mod-eq_of_lt, mod-eq-sub-mod}

pub mod_wrap : (m s : ℕ) → s ≤ m → m < s + s → m % s ≡ m - s
mod_wrap m s h k =
    omega (arith, mod-eq-sub-mod {n = m} {m = s} h, mod-eq_of_lt {n = m - s} {m = s} (omega arith))

-- Going on from a cell by less than a whole turn.
pub mod_cases :
    (h n s : ℕ)
    → h < s
    → n < s
    → (h + n < s → (h + n) % s ≡ h + n) × (s ≤ h + n → (h + n) % s ≡ h + n - s)
mod_cases h n s p q = (λ a. mod-eq_of_lt a, λ a. mod_wrap (h + n) s a (omega arith))

pub mod-ne_start : (h n s : ℕ) → h < s → n < s → 0 < n → (h + n) % s ≢ h
mod-ne_start h n s p q r = elim (dec_lt (h + n) s) [
  | yes a ↦ omega (arith, mod-eq_of_lt a)
  | no a ↦ omega (arith, mod_wrap (h + n) s (omega arith) (omega arith))
]

pub mod-step : (h n s : ℕ) → h < s → n < s → ((h + 1) % s + n) % s ≡ (h + suc n) % s
mod-step h n s p q = elim (dec_lt (h + 1) s) [
  | yes a ↦ ap (λ k. k % s) (omega (arith, mod-eq_of_lt a))
  | no a ↦
      let e : (h + 1) % s ≡ 0 = omega (arith, mod_wrap (h + 1) s (omega arith) (omega arith)) in
      let f : h + suc n ≡ s + n = omega arith in
      ap (λ k. (k + n) % s) e
      ∙ omega (
        arith,
        mod-eq_of_lt {n = 0 + n} {m = s} (omega arith),
        ap (λ k. k % s) f,
        mod_wrap (s + n) s (omega arith) (omega arith),
      )
]

module _ {ℓ} {A : Type ℓ} where
  pub get_elem?-in : (buf : List A) (i : ℕ) → i < length buf → (x : A) × (get_elem? buf i ≡ some x)
  get_elem?-in [] i h = absurd (omega arith)
  get_elem?-in (x ∷ xs) zero h = (x, refl)
  get_elem?-in (x ∷ xs) (suc i) h = get_elem?-in xs i (omega arith)

  -- the `n` values from cell `h` on; it ends early at a cell outside the array
  abbrev pub cells : List A → ℕ → ℕ → ℕ → List A
  cells buf s h zero = []
  cells buf s h (suc n) = elim (get_elem? buf h) [
    | none ↦ []
    | some x ↦ x ∷ cells buf s ((h + 1) % s) n
  ]

  pub cells-suc :
      (buf : List A) (s h n : ℕ) (x : A)
      → get_elem? buf h ≡ some x
      → cells buf s h (suc n) ≡ x ∷ cells buf s ((h + 1) % s) n
  cells-suc buf s h n x e = rw (e, cells)

  pub length-cells :
      (buf : List A) (s h n : ℕ) → s ≤ length buf → h < s → length (cells buf s h n) ≡ n
  length-cells buf s h zero p q = refl
  length-cells buf s h (suc n) p q =
      let (x, e) = get_elem?-in buf h (omega arith) in
      rw (cells-suc buf s h n x e) (ap suc (length-cells buf s ((h + 1) % s) n p (omega arith)))

  -- A write just past the last value adds it at the end.
  pub cells-set_at :
      (buf : List A) (s h n i : ℕ) (x : A)
      → s ≤ length buf
      → h < s
      → n < s
      → i ≡ (h + n) % s
      → cells (set buf i x) s h (suc n) ≡ cells buf s h n ++ (x ∷ [])
  cells-set_at buf s h zero i x p q r e =
      let f : i ≡ h = omega (arith, mod-eq_of_lt {n = h + 0} {m = s} (omega arith)) in
      cells-suc (set buf i x) s h zero x (rw f (get_elem?-set_self buf h x (omega arith)))
  cells-set_at buf s h (suc n) i x p q r e =
      let (y, f) = get_elem?-in buf h (omega arith) in
      let ne : i ≢ h = λ g. mod-ne_start h (suc n) s q r (omega arith) (sym e ∙ g) in
      cells-suc (set buf i x) s h (suc n) y (get_elem?-set_ne buf x ne ∙ f)
      ∙ ap (λ l. y ∷ l)
          (cells-set_at buf s ((h + 1) % s) n i x p (omega arith) (omega arith)
            (e ∙ sym (mod-step h n s q (omega arith))))
      ∙ ap (λ l. l ++ (x ∷ [])) (sym (cells-suc buf s h n y f))

  -- The first value, and the values behind it.
  pub cells-head :
      (buf : List A) (s h n : ℕ)
      → s ≤ length buf
      → h < s
      → 0 < n
      → (x : A) × (get_elem? buf h ≡ some x)
        × (cells buf s h n ≡ x ∷ cells buf s ((h + 1) % s) (n - 1))
  cells-head buf s h zero p q r = absurd (omega arith)
  cells-head buf s h (suc n) p q r =
      let (x, e) = get_elem?-in buf h (omega arith) in
      (x, e, cells-suc buf s h n x e ∙ ap (λ k. x ∷ cells buf s ((h + 1) % s) k) (omega arith))
