-- ===== src/Sfs/Dir/Links.antt =====
-- `sfs_dir_unlink` and `sfs_dir_link`, and the searches after them.
use cse_9201_os.Common.{
  ℕ, zero, suc, ◌+◌, ◌≤◌, ◌<◌, ◌≡◌, refl, ap, sym, ◌∙◌, Bool, true, false, not, ◌&&◌, ◌||◌, ◌≢◌,
  none, some, List, [], ◌∷◌, ◌==◌, if◌then◌else◌, arith, inl, inr, ne→==_false, eq→==, Bool-cases,
  ℕ_discrete,
}
use mathlib.Core.Bool.{false≢true}
use cse_9201_os.Sfs.{Sv}
use cse_9201_os.Sfs.Dir.{Found}
use cse_9201_os.Sfs.Dir.Entries.{entry_ino}
use cse_9201_os.Sfs.Dir.Find.{holds, slots_of, free_slots, last_slot, found_in, nothing_found}

-- the list without a number
abbrev pub without : ℕ → List ℕ → List ℕ
without i [] = []
without i (x ∷ l) = if x == i then without i l else x ∷ without i l

module _ (v v' : Sv) (name : List ℕ) (i : ℕ) where
  -- Slot `i` does not hold the name any more.
  pub slots-without :
      (n a : ℕ)
      → ((j : ℕ) → j < a + n → holds v' name j ≡ (not (j == i) && holds v name j))
      → slots_of v' name n a ≡ without i (slots_of v name n a)
  slots-without zero a h = refl
  slots-without (suc n) a h =
      let rest = slots-without n (a + 1) (λ j lt. h j (omega arith)) in
      ap (λ t. if t then a ∷ slots_of v' name n (a + 1) else slots_of v' name n (a + 1))
        (h a (omega arith))
      ∙ elim (Bool-cases (a == i)) [
        | inl gone ↦ elim (Bool-cases (holds v name a)) [
          | inl held ↦ rw (gone, held, gone) rest
          | inr free ↦ rw (gone, free) rest
        ]
        | inr stays ↦ elim (Bool-cases (holds v name a)) [
          | inl held ↦ rw (stays, held, stays) (ap (λ l. a ∷ l) rest)
          | inr free ↦ rw (stays, free) rest
        ]
      ]

  -- No slot but `i` holds the name.
  slots-past :
      (n a : ℕ)
      → ((j : ℕ) → j < a + n → holds v' name j ≡ (j == i))
      → i < a
      → slots_of v' name n a ≡ []
  slots-past zero a h past = refl
  slots-past (suc n) a h past =
      rw (h a (omega arith), ne→==_false a i (omega arith))
        (slots-past n (a + 1) (λ j lt. h j (omega arith)) (omega arith))

  pub slots-single :
      (n a : ℕ)
      → ((j : ℕ) → j < a + n → holds v' name j ≡ (j == i))
      → a ≤ i
      → i < a + n
      → slots_of v' name n a ≡ i ∷ []
  slots-single zero a h low high = absurd (omega arith)
  slots-single (suc n) a h low high = elim (ℕ_discrete a i) [
    | yes here ↦
        rw (h a (omega arith), eq→== a i here)
          (ap (λ l. a ∷ l) (slots-past n (a + 1) (λ j lt. h j (omega arith)) (omega arith))
            ∙ ap (λ x. x ∷ []) here)
    | no behind ↦
        rw (h a (omega arith), ne→==_false a i behind)
          (slots-single n (a + 1) (λ j lt. h j (omega arith)) (omega arith) (omega arith))
  ]

-- If no slot holds the name, then none does.
pub slots-none :
    (v : Sv) (name : List ℕ) (n a j : ℕ)
    → slots_of v name n a ≡ []
    → a ≤ j
    → j < a + n
    → holds v name j ≡ false
slots-none v name zero a j e low high = absurd (omega arith)
slots-none v name (suc n) a j e low high = elim (Bool-cases (holds v name a)) [
  | inl held ↦ absurd (
      false≢true (
        ap is_cons (
          sym e
          ∙ ap (λ t. if t then a ∷ slots_of v name n (a + 1) else slots_of v name n (a + 1)) held)))
  | inr free ↦ elim (ℕ_discrete a j) [
    | yes here ↦ ap (holds v name) (sym here) ∙ free
    | no behind ↦
        slots-none v name n (a + 1) j
          (sym (
              ap (λ t. if t then a ∷ slots_of v name n (a + 1) else slots_of v name n (a + 1)) free)
            ∙ e)
          (omega arith) (omega arith)
  ]
]
  where
    is_cons : List ℕ → Bool
    is_cons [] = false
    is_cons (x ∷ l) = true

-- the slots from `a` on, of `n`, that are free, and slot `i`
abbrev pub freed_slots : Sv → ℕ → ℕ → ℕ → List ℕ
freed_slots v i zero a = []
freed_slots v i (suc n) a =
    let rest = freed_slots v i n (a + 1) in if a == i || entry_ino v a == 0 then a ∷ rest else rest

-- The slots of a list have the same inode numbers in two directories.
abbrev SameNumbers : Sv → Sv → List ℕ → Type 0
SameNumbers v v' [] = Unit
SameNumbers v v' (a ∷ l) = (entry_ino v' a ≡ entry_ino v a) × SameNumbers v v' l

module _ (v v' : Sv) (i : ℕ) (gone : entry_ino v' i ≡ 0) where
  pub freed_slots_lem :
      (n a : ℕ)
      → ((j : ℕ) → j < a + n → j ≢ i → entry_ino v' j ≡ entry_ino v j)
      → free_slots v' n a ≡ freed_slots v i n a
  freed_slots_lem zero a same = refl
  freed_slots_lem (suc n) a same =
      let rest = freed_slots_lem n (a + 1) (λ j lt. same j (omega arith)) in
      elim (ℕ_discrete a i) [
        | yes here ↦
            rw (eq→== a i here, eq→== (entry_ino v' a) 0 (ap (entry_ino v') here ∙ gone))
              (ap (λ l. a ∷ l) rest)
        | no other ↦
            rw (ne→==_false a i other, same a (omega arith) other)
              (ap (λ l. if entry_ino v a == 0 then a ∷ l else l) rest)
      ]

module _ (v v' : Sv) (name : List ℕ) (i : ℕ) where
  same_numbers :
      (n a : ℕ)
      → ((j : ℕ) → j < a + n → j ≢ i → entry_ino v' j ≡ entry_ino v j)
      → SameNumbers v v' (without i (slots_of v name n a))
  same_numbers zero a same = tt
  same_numbers (suc n) a same =
      let rest = same_numbers n (a + 1) (λ j lt. same j (omega arith)) in
      elim (Bool-cases (holds v name a)) [
        | inr free ↦ rw free rest
        | inl held ↦ rw held (elim (ℕ_discrete a i) [
          | yes here ↦ rw (eq→== a i here) rest
          | no other ↦ rw (ne→==_false a i other) (same a (omega arith) other, rest)
        ])
      ]

  same_found :
      (l free : List ℕ) (r : Found)
      → SameNumbers v v' l
      → found_in v' r l free ≡ found_in v r l free
  same_found [] free r same = refl
  same_found (a ∷ []) free r (e, same) =
      ap
        (λ x.
          if r.found
          then none
          else some (record r {
            found = true;
            ino = some x;
            slot = some a;
            emptyslot = last_slot r.emptyslot free;
          }))
        e
  same_found (a ∷ b ∷ l) free r same = refl

  -- A search where slot `i` was freed finds what the other slots hold.
  pub search_freed :
      (n : ℕ)
      → entry_ino v' i ≡ 0
      → ((j : ℕ) → j < n → j ≢ i → entry_ino v' j ≡ entry_ino v j)
      → found_in v' nothing_found (without i (slots_of v name n 0)) (free_slots v' n 0)
        ≡ found_in v nothing_found (without i (slots_of v name n 0)) (freed_slots v i n 0)
  search_freed n gone same =
      let all : (j : ℕ) → j < 0 + n → j ≢ i → entry_ino v' j ≡ entry_ino v j =
        λ j lt ne. same j (omega arith) ne in
      ap (found_in v' nothing_found (without i (slots_of v name n 0)))
        (freed_slots_lem v v' i gone n 0 all)
      ∙ same_found (without i (slots_of v name n 0)) (freed_slots v i n 0) nothing_found
          (same_numbers n 0 all)
