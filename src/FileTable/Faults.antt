-- ===== src/FileTable/Faults.antt =====
-- Two faults of the file table: the loops that go one cell past the arrays, and the chain of
-- duplicates that the loop of `updateoffset` never leaves.
use cse_9201_os.Common.{
  ℕ, zero, suc, ◌+◌, ◌<◌, ◌≤◌, ◌≡◌, refl, ap, ◌∙◌, ◌≢◌, inl, inr, Bool, true, false, Option, none,
  some, List, [], ◌∷◌, length, get_elem?, set, length-set, arith, ltb, lt→ltb, le→ltb_false,
  ne→==_false, Bool-cases, undefined, diverge,
}
use cse_9201_os.Common.Cells.{get_elem?-in}
use cse_9201_os.Common.Int.{ℤ, pos}
use cse_9201_os.FileTable.{
  FileTable, Kernel, filetablesize, is_fd, share_from, close_dups, close_at, close, open_from,
  open_file,
}

get_elem?-out {ℓ} : {A : Type ℓ} (xs : List A) (i : ℕ) → length xs ≤ i → get_elem? xs i ≡ none
get_elem?-out [] i h = refl
get_elem?-out (x ∷ xs) zero h = absurd (omega arith)
get_elem?-out (x ∷ xs) (suc i) h = get_elem?-out xs i (omega arith)

module _ {V : Type 0} (fd : ℕ) where
  -- The loop of `close` reads one cell more than `filetable_parent` has.
  close_dups-outside :
      (n i : ℕ) (s : FileTable V)
      → length s.filetable_parent ≡ i + n
      → close_dups (suc n) i fd s ≡ undefined
  unfolding close_dups
  close_dups-outside zero i s h = rw (get_elem?-out s.filetable_parent i (omega arith)) refl
  close_dups-outside (suc n) i s h =
      let (parent, e) = get_elem?-in s.filetable_parent i (omega arith) in
      rw e (elim (Bool-cases (is_fd parent fd)) [
        | inr other ↦ rw other (close_dups-outside n (i + 1) s (omega arith))
        | inl mine ↦ rw mine (elim (Bool-cases (ltb i (length s.filetable_isdup))) [
          | inr b ↦ rw b refl
          | inl b ↦
              rw (b, lt→ltb i (length s.filetable_parent) (omega arith))
                (elim (Bool-cases (ltb i (length s.filetable))) [
                  | inr c ↦ rw c refl
                  | inl c ↦ rw c (
                      close_dups-outside n (i + 1)
                        (record s {
                          filetable = set s.filetable i none;
                          filetable_isdup = set s.filetable_isdup i (pos 0);
                          filetable_parent = set s.filetable_parent i (pos 0);
                        })
                        (omega (arith, length-set s.filetable_parent i (pos 0))))
                ])
        ])
      ])

  -- With the 18 cells that file.h gives `filetable_parent`, `close` of an open descriptor from 3 on
  -- that is no duplicate reads past its end, whatever else is open.
  pub close-outside :
      (s : FileTable V) (v : V)
      → length s.filetable_parent ≡ filetablesize
      → 3 ≤ fd
      → get_elem? s.filetable fd ≡ some (some v)
      → get_elem? s.filetable_isdup fd ≡ some (pos 0)
      → close s (pos fd) ≡ undefined
  unfolding close close_at
  close-outside s v k three file isdup =
      rw (le→ltb_false fd 3 three, file, isdup, close_dups-outside filetablesize 0 s k) refl

module _ {V : Type 0} (kernel : Kernel V) (memory : Option V) (flags : ℕ) where
  open kernel use {Path'}

  open_from-outside :
      (n i : ℕ) (s : FileTable V) (path : Path')
      → length s.filetable ≡ i + n
      → ((j : ℕ)
          → i ≤ j
          → j < length s.filetable
          → (v : V) × (get_elem? s.filetable j ≡ some (some v)))
      → open_from kernel (suc n) i s memory path flags ≡ undefined
  unfolding open_from
  open_from-outside zero i s path h full = rw (get_elem?-out s.filetable i (omega arith)) refl
  open_from-outside (suc n) i s path h full =
      let (v, e) = full i (omega arith) (omega arith) in
      rw e (open_from-outside n (i + 1) s path (omega arith) (λ j p. full j (omega arith)))

  -- With the 18 cells that file.h gives `filetable`, `open` with no free descriptor from 3 on reads
  -- past its end, where it should return EMFILE.
  pub open_file-outside :
      (s : FileTable V) (path : Path')
      → length s.filetable ≡ filetablesize
      → ((j : ℕ)
          → 3 ≤ j
          → j < length s.filetable
          → (u : V) × (get_elem? s.filetable j ≡ some (some u)))
      → open_file kernel s memory path flags ≡ undefined
  unfolding open_file
  open_file-outside s path h full = open_from-outside 15 3 s path h full

module _ (dup : List ℤ) (orgfd : ℕ) (inside : ℕ → Bool) where
  -- `filetable_dup` leads from each descriptor inside to another one inside, of `n` descriptors.
  abbrev pub Closed : ℕ → Type 0
  Closed n =
      (i : ℕ)
      → inside i ≡ true
      → (j : ℕ) × (get_elem? dup i ≡ some (pos (suc j))) × (inside (suc j) ≡ true) × (suc j < n)

  outside_ne : inside orgfd ≡ false → (i : ℕ) → inside i ≡ true → orgfd ≢ i
  outside_ne out i h q = cc (out, h, ap inside q)

  loops_inside :
      (fuel fd n : ℕ) (offset : List ℤ)
      → Closed n
      → length offset ≡ n
      → inside orgfd ≡ false
      → fd < n
      → inside fd ≡ true
      → share_from fuel orgfd fd dup offset ≡ diverge
  unfolding share_from
  loops_inside zero fd n offset closed len out lt h = refl
  loops_inside (suc fuel) fd n offset closed len out lt h =
      let (j, e, k, room) = closed fd h in
      let (x, f) = get_elem?-in offset fd (omega arith) in
      rw
        (
          e,
          f,
          lt→ltb (suc j) (length offset) (omega arith),
          ne→==_false orgfd (suc j) (outside_ne out (suc j) k),
        )
        (loops_inside fuel (suc j) n (set offset (suc j) x) closed
          (length-set offset (suc j) x ∙ len) out room k)

  -- If `filetable_dup` leads from a descriptor into a set of descriptors that it never leaves and
  -- that the descriptor is not in, the loop of `updateoffset` does not end: no fuel is
  -- enough.
  pub updateoffset-loops :
      (fuel first : ℕ) (offset : List ℤ)
      → Closed (length offset)
      → inside orgfd ≡ false
      → orgfd < length offset
      → get_elem? dup orgfd ≡ some (pos (suc first))
      → suc first < length offset
      → inside (suc first) ≡ true
      → share_from fuel orgfd orgfd dup offset ≡ diverge
  unfolding share_from
  updateoffset-loops zero first offset closed out lt e room h = refl
  updateoffset-loops (suc fuel) first offset closed out lt e room h =
      let (x, f) = get_elem?-in offset orgfd lt in
      rw
        (
          e,
          f,
          lt→ltb (suc first) (length offset) room,
          ne→==_false orgfd (suc first) (outside_ne out (suc first) h),
        )
        (loops_inside fuel (suc first) (length offset) (set offset (suc first) x) closed
          (length-set offset (suc first) x) out room h)
