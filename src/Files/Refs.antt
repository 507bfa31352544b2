-- ===== src/Files/Refs.antt =====
-- How often an entry of `oft` is referred to, and what makes the tables well formed.
use cse_9201_os.Common.{
  ℕ, zero, suc, ◌+◌, ◌%◌, ◌<◌, ◌≡◌, ap, Option, none, some, List, [], ◌∷◌, length, get_elem?, set,
  arith, ◌==◌, if◌then◌else◌,
}
use mathlib.Core.Option.{some-injective}
use cse_9201_os.Common.Int.{ℤ, pos}
use cse_9201_os.Files.{Vn, Ofte, Files, null, busy, vnode, max_fd, max_open_files}

-- 1 if the pointer is to entry `j`, 0 if not
abbrev pub points : Option ℕ → ℕ → ℕ
points none j = 0
points (some k) j = if k == j then 1 else 0

-- the number of descriptors that refer to entry `j`
unfoldable pub refs : ℕ → List (Option ℕ) → ℕ
refs j [] = 0
refs j (p ∷ fd) = points p j + refs j fd

pub refs-set :
    (fd : List (Option ℕ)) (i j : ℕ) (p q : Option ℕ)
    → get_elem? fd i ≡ some p
    → refs j (set fd i q) + points p j ≡ refs j fd + points q j
unfolding refs
refs-set [] i j p q e = cc e
refs-set (x ∷ fd) zero j p q e =
    omega (arith, ap (λ (p : Option ℕ). points p j) (some-injective x p e))
refs-set (x ∷ fd) (suc i) j p q e = omega (arith, refs-set fd i j p q e)

pub points_self : (j : ℕ) → points (some j) j ≡ 1
points_self j = ground arith

pub refs-pos : (fd : List (Option ℕ)) (i j : ℕ) → get_elem? fd i ≡ some (some j) → 0 < refs j fd
unfolding refs
refs-pos [] i j e = cc e
refs-pos (x ∷ fd) zero j e =
    omega (arith, ap (λ (p : Option ℕ). points p j) (some-injective x (some j) e), points_self j)
refs-pos (x ∷ fd) (suc i) j e = omega (arith, refs-pos fd i j e)

module _ {V : Type 0} where
  -- An entry that `n` descriptors refer to: free if there are none, else a file that is open in
  -- one of the three modes, with its count.
  abbrev pub VnOk : ℕ → ℤ → ℕ → Vn V → Type 0
  VnOk n count flags null = n ≡ 0
  VnOk n count flags busy = ⊥
  VnOk n count flags (vnode v) = (count ≡ pos n) × (0 < n) × (flags % 4 < 3)

  abbrev pub EntryOk : ℕ → Ofte V → Type 0
  EntryOk n e = VnOk n e.count e.flags e.vn

-- `others j` is the number of references to entry `j` from the tables of other threads.
pub record IsValid {V : Type 0} (others : ℕ → ℕ) (s : Files V) : Type 0 where
  pub oft_length : length s.oft ≡ max_open_files
  pub fd_length : length s.fd ≡ max_fd
  pub in_table : (i j : ℕ) → get_elem? s.fd i ≡ some (some j) → j < max_open_files
  pub counted :
      (j : ℕ) (e : Ofte V) → get_elem? s.oft j ≡ some e → EntryOk (refs j s.fd + others j) e
