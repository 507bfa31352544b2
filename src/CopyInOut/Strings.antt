-- ===== src/CopyInOut/Strings.antt =====
-- `copyinstr` and `copyoutstr`: a string with its end, within the length and within user space.
use cse_9201_os.Common.{
  ℕ, suc, zero, ◌+◌, ◌-◌, ◌≤◌, ◌<◌, ◌≡◌, ◌≢◌, ◌⊎◌, inl, inr, refl, ap, sym, ◌∙◌, true, false, ◌==◌,
  ==→eq, ==_false→ne, eq→==, ne→==_false, ℕ_discrete, Bool-cases, arith,
}
use cse_9201_os.CopyInOut.{Memory, write_byte, both_mapped, Str, fault, ended, full, copystr_loop}
use cse_9201_os.CopyInOut.Bytes.{Apart}

module _ (n i dest src : ℕ) (m : Memory) where
  str-fault :
      both_mapped m (dest + i) (src + i) ≡ false → copystr_loop (suc n) i dest src m ≡ fault m
  unfolding copystr_loop
  str-fault e = rw e

  str-ended :
      both_mapped m (dest + i) (src + i) ≡ true
      → ((write_byte m (dest + i) (m.byte (src + i))).byte (src + i) == 0) ≡ true
      → copystr_loop (suc n) i dest src m
        ≡ ended (i + 1) (write_byte m (dest + i) (m.byte (src + i)))
  unfolding copystr_loop
  str-ended e h = rw (e, h)

  str-goes_on :
      both_mapped m (dest + i) (src + i) ≡ true
      → ((write_byte m (dest + i) (m.byte (src + i))).byte (src + i) == 0) ≡ false
      → copystr_loop (suc n) i dest src m
        ≡ copystr_loop n (i + 1) dest src (write_byte m (dest + i) (m.byte (src + i)))
  unfolding copystr_loop
  str-goes_on e h = rw (e, h)

-- What the loop leaves, from index `i` on for `n` rounds: a string that ended, with its bytes in
-- place; no end in all `n` bytes; or an unmapped address.
abbrev pub StrEnds : ℕ → ℕ → ℕ → ℕ → Memory → Str → Type 0
StrEnds n i dest src m (ended k m') =
    (i < k)
    × (k ≤ i + n)
    × (m.byte (src + (k - 1)) ≡ 0)
    × ((j : ℕ) → i ≤ j → j < k - 1 → m.byte (src + j) ≢ 0)
    × ((j : ℕ) → i ≤ j → j < k → m'.byte (dest + j) ≡ m.byte (src + j))
    × ((a : ℕ) → (a < dest + i) ⊎ (dest + k ≤ a) → m'.byte a ≡ m.byte a)
StrEnds n i dest src m (full m') = (j : ℕ) → i ≤ j → j < i + n → m.byte (src + j) ≢ 0
StrEnds n i dest src m (fault m') =
    (j : ℕ) × (i ≤ j) × (j < i + n) × (both_mapped m (dest + j) (src + j) ≡ false)

written-other :
    (m : Memory) (address value a : ℕ)
    → a ≢ address
    → (write_byte m address value).byte a ≡ m.byte a
written-other m address value a ne = rw (ne→==_false a address ne)

written-here : (m : Memory) (address value : ℕ) → (write_byte m address value).byte address ≡ value
written-here m address value = rw (eq→== address address refl)

module _ (len dest src : ℕ) (apart : Apart len dest src) where
  apart-ne : (i j : ℕ) → i < len → j < len → src + j ≢ dest + i
  apart-ne i j h k = elim apart [ inl below ↦ omega arith | inr above ↦ omega arith ]

  -- The source as it was, after the byte at `i` was copied.
  same_source :
      (i j : ℕ) (m : Memory)
      → i < len
      → j < len
      → (write_byte m (dest + i) (m.byte (src + i))).byte (src + j) ≡ m.byte (src + j)
  same_source i j m h k = written-other m (dest + i) (m.byte (src + i)) (src + j) (apart-ne i j h k)

  -- One more round before a loop that ends so.
  StrEnds-suc :
      (n i : ℕ) (m : Memory) (r : Str)
      → i + suc n ≤ len
      → m.byte (src + i) ≢ 0
      → StrEnds n (i + 1) dest src (write_byte m (dest + i) (m.byte (src + i))) r
      → StrEnds (suc n) i dest src m r
  StrEnds-suc n i m (fault m') h ne (j, le, lt, unmapped) = (j, omega arith, omega arith, unmapped)
  StrEnds-suc n i m (full m') h ne all = λ j le lt. elim (ℕ_discrete i j) [
    | yes e ↦ rw e at ne
    | no differ ↦
        λ z. all j (omega arith) (omega arith) (same_source i j m (omega arith) (omega arith) ∙ z)
  ]
  StrEnds-suc n i m (ended k m') h ne (lt, le, last, before, placed, outside) = (
    omega arith,
    omega arith,
    sym (same_source i (k - 1) m (omega arith) (omega arith)) ∙ last,
    λ j l g. elim (ℕ_discrete i j) [
      | yes e ↦ rw e at ne
      | no differ ↦
          λ z. before j (omega arith) g (same_source i j m (omega arith) (omega arith) ∙ z)
    ],
    λ j l g. elim (ℕ_discrete i j) [
      | yes e ↦
          rw (sym e)
            (outside (dest + i) (inl (omega arith)) ∙ written-here m (dest + i) (m.byte (src + i)))
      | no differ ↦ placed j (omega arith) g ∙ same_source i j m (omega arith) (omega arith)
    ],
    λ a which.
        outside a (wider a which)
        ∙ written-other m (dest + i) (m.byte (src + i)) a (elsewhere a which),
  )
    where
      wider : (a : ℕ) → (a < dest + i) ⊎ (dest + k ≤ a) → (a < dest + (i + 1)) ⊎ (dest + k ≤ a)
      wider a (inl p) = inl (omega arith)
      wider a (inr p) = inr p

      elsewhere : (a : ℕ) → (a < dest + i) ⊎ (dest + k ≤ a) → a ≢ dest + i
      elsewhere a (inl p) = omega arith
      elsewhere a (inr p) = omega arith

  pub copystr_loop-StrEnds :
      (n i : ℕ) (m : Memory) → i + n ≤ len → StrEnds n i dest src m (copystr_loop n i dest src m)
  unfolding copystr_loop
  copystr_loop-StrEnds zero i m h = λ j le lt. absurd (omega arith)
  copystr_loop-StrEnds (suc n) i m h = elim (Bool-cases (both_mapped m (dest + i) (src + i))) [
    | inr unmapped ↦ rw unmapped (i, omega arith, omega arith, unmapped)
    | inl mapped ↦
        let m1 = write_byte m (dest + i) (m.byte (src + i)) in
        let same = same_source i i m (omega arith) (omega arith) in
        elim (Bool-cases (m1.byte (src + i) == 0)) [
          | inr more ↦
              rw (mapped, more)
                (StrEnds-suc n i m (copystr_loop n (i + 1) dest src m1) h
                  (λ z. ==_false→ne (m1.byte (src + i)) 0 more (same ∙ z))
                  (copystr_loop-StrEnds n (i + 1) m1 (omega arith)))
          | inl stop ↦
              let k : i + 1 - 1 ≡ i = omega arith in
              rw (mapped, stop)
                (
                  omega arith,
                  omega arith,
                  ap (λ j. m.byte (src + j)) k ∙ sym same ∙ ==→eq (m1.byte (src + i)) 0 stop,
                  λ j l g. absurd (omega arith),
                  λ j l g.
                      let e : i ≡ j = omega arith in
                      rw (sym e) (written-here m (dest + i) (m.byte (src + i))),
                  λ a which. written-other m (dest + i) (m.byte (src + i)) a (outside_one a which),
                )
        ]
  ]
    where
      outside_one : (a : ℕ) → (a < dest + i) ⊎ (dest + (i + 1) ≤ a) → a ≢ dest + i
      outside_one a (inl p) = omega arith
      outside_one a (inr p) = omega arith
