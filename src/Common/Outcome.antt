-- ===== src/Common/Outcome.antt =====
-- The outcome of a kernel function, and the error codes of kern/include/kern/errno.h.
use Prim.Native.Nat.{ℕ}
use mathlib.Core.Path.{◌≡◌, refl, ap}
use mathlib.Core.Bool.{Bool, true, false}
use mathlib.Core.Option.{Option, none, some}
use mathlib.Core.List.{List}
use cse_9201_os.Common.Tests.{ltb, if◌then◌else◌}
use cse_9201_os.Common.Lists.{length, set}

-- `panic` is a failed `assert` or a call of `panic()`. `undefined` is an access outside an array, or
-- the use of a variable that was never set. `diverge` is a model's fuel that ran out, so a call that
-- does not return within the bound that the model allows.
pub data Res {ℓ} (A : Type ℓ) : Type ℓ where
  done : A → Res A
  panic : Res A
  undefined : Res A
  diverge : Res A

infixl 5 ◌>>=◌ ◌>>◌
abbrev pub ◌>>=◌ {ℓ κ} : {A : Type ℓ} {B : Type κ} → Res A → (A → Res B) → Res B
done a >>= f = f a
panic >>= f = panic
undefined >>= f = undefined
diverge >>= f = diverge

abbrev pub ◌>>◌ {ℓ} : {B : Type ℓ} → Res (Unit {0}) → Res B → Res B
m >> k = m >>= λ _. k

-- `assert(b)`
abbrev pub assert : Bool → Res (Unit {0})
assert true = done tt
assert false = panic

-- An array read that was out of bounds is undefined.
abbrev pub in_bounds {ℓ} : {A : Type ℓ} → Option A → Res A
in_bounds none = undefined
in_bounds (some a) = done a

-- `a[i] = x`
abbrev pub store {ℓ} : {A : Type ℓ} → List A → ℕ → A → Res (List A)
store a i x = if ltb i (length a) then done (set a i x) else undefined

pub >>=-eq-done {ℓ κ} :
    {A : Type ℓ} {B : Type κ} (m : Res A) (f : A → Res B) {b : B}
    → (m >>= f) ≡ done b
    → (a : A) × (m ≡ done a) × (f a ≡ done b)
>>=-eq-done (done a) f h = (a, refl, h)
>>=-eq-done panic f h = cc
>>=-eq-done undefined f h = cc
>>=-eq-done diverge f h = cc

-- The call returns, and what it returns satisfies `P`.
abbrev pub Returns {ℓ} : {A : Type ℓ} → Res A → (A → Type 0) → Type 0
Returns (done a) P = P a
Returns panic P = ⊥
Returns undefined P = ⊥
Returns diverge P = ⊥

-- The rule for a sequence of two calls.
pub Returns->>= {ℓ κ} :
    {A : Type ℓ} {B : Type κ} (P : A → Type 0) (Q : B → Type 0) (m : Res A) (f : A → Res B)
    → Returns m P
    → ((a : A) → P a → Returns (f a) Q)
    → Returns (m >>= f) Q
Returns->>= P Q (done a) f h k = k a h
Returns->>= P Q panic f h k = elim h [ ]
Returns->>= P Q undefined f h k = elim h [ ]
Returns->>= P Q diverge f h k = elim h [ ]

pub Returns-mono {ℓ} :
    {A : Type ℓ} (P Q : A → Type 0) (m : Res A) → Returns m P → ((a : A) → P a → Q a) → Returns m Q
Returns-mono P Q (done a) h k = k a h
Returns-mono P Q panic h k = elim h [ ]
Returns-mono P Q undefined h k = elim h [ ]
Returns-mono P Q diverge h k = elim h [ ]

-- A call that returns, as an equation.
pub Returns-eq {ℓ} :
    {A : Type ℓ} (P : A → Type 0) (m : Res A) → Returns m P → (a : A) × (m ≡ done a) × P a
Returns-eq P (done a) h = (a, refl, h)
Returns-eq P panic h = elim h [ ]
Returns-eq P undefined h = elim h [ ]
Returns-eq P diverge h = elim h [ ]

pub done-injective {ℓ} : {A : Type ℓ} (a b : A) → done a ≡ done b → a ≡ b
done-injective {A = A} a b h = ap (value a) h
  where
    value : A → Res A → A
    value d (done x) = x
    value d panic = d
    value d undefined = d
    value d diverge = d
