-- ===== src/FileTable/Rings.antt =====
-- The duplicates of a descriptor: `filetable_dup` leads from it through them and back to it. The
-- loop of `updateoffset`, and `write`, on such a ring.
use cse_9201_os.Common.{
  ℕ, zero, suc, ◌+◌, ◌<◌, ◌≡◌, refl, sym, ◌∙◌, ◌≢◌, inl, inr, Bool, true, false, not, some, List,
  [], ◌∷◌, length, get_elem?, set, get_elem?-set_self, get_elem?-set_ne, length-set, get_elem?-lt,
  set_same, arith, ◌==◌, if◌then◌else◌, eq→==, ne→==_false, lt→ltb, Bool-cases, done,
}
use cse_9201_os.Common.Int.{ℤ, pos, negsuc}
use cse_9201_os.FileTable.{
  FileTable, Kernel, Reply, filetablesize, share_from, last_from, updateoffset,
}
use cse_9201_os.FileTable.Calls.{to_int, to_size, write_at, write}

-- From `fd`, `dup` leads through `l`, none of which is `orgfd`, and then to `orgfd`.
abbrev pub Chain : List ℤ → ℕ → List ℕ → ℕ → Type 0
Chain dup fd [] orgfd = get_elem? dup fd ≡ some (pos orgfd)
Chain dup fd (x ∷ l) orgfd =
    (get_elem? dup fd ≡ some (pos x)) × (0 < x) × (x ≢ orgfd) × Chain dup x l orgfd

-- an entry of `filetable_dup` that points to no descriptor
abbrev pub points_nowhere : ℤ → Bool
points_nowhere (pos zero) = true
points_nowhere (pos (suc n)) = false
points_nowhere (negsuc n) = true

-- `l` are the duplicates of `fd`, in the order in which they were made.
abbrev pub Ring : List ℤ → ℕ → List ℕ → Type 0
Ring dup fd [] = (d : ℤ) × (get_elem? dup fd ≡ some d) × (points_nowhere d ≡ true)
Ring dup fd (x ∷ l) = (0 < fd) × Chain dup fd (x ∷ l) fd

-- The array with `x` in each of the cells of a list.
abbrev pub set_all : List ℕ → ℤ → List ℤ → List ℤ
set_all [] x offset = offset
set_all (i ∷ l) x offset = set_all l x (set offset i x)

abbrev pub last_of : ℕ → List ℕ → ℕ
last_of fd [] = fd
last_of fd (x ∷ l) = last_of x l

pub Chain-lt :
    (dup : List ℤ) (fd : ℕ) (l : List ℕ) (orgfd : ℕ) → Chain dup fd l orgfd → fd < length dup
Chain-lt dup fd [] orgfd c = get_elem?-lt dup fd (pos orgfd) c
Chain-lt dup fd (x ∷ l) orgfd c = get_elem?-lt dup fd (pos x) c.0

pub Chain-last :
    (dup : List ℤ) (fd : ℕ) (l : List ℕ) (orgfd : ℕ)
    → Chain dup fd l orgfd
    → get_elem? dup (last_of fd l) ≡ some (pos orgfd)
Chain-last dup fd [] orgfd c = c
Chain-last dup fd (x ∷ l) orgfd (e, p, ne, c) = Chain-last dup x l orgfd c

-- The descriptor whose duplicates these are is `suc m`: the loops stop at descriptor 0.
module _ (dup : List ℤ) (m : ℕ) where
  -- The loop of `updateoffset` returns when its fuel exceeds the number of duplicates.
  share-Chain :
      (fuel fd : ℕ) (l : List ℕ) (offset : List ℤ) (x : ℤ)
      → Chain dup fd l (suc m)
      → length l < fuel
      → length offset ≡ length dup
      → get_elem? offset fd ≡ some x
      → get_elem? offset (suc m) ≡ some x
      → share_from fuel (suc m) fd dup offset ≡ done (set_all l x offset)
  unfolding share_from
  share-Chain zero fd l offset x c h len e f = absurd (omega arith)
  share-Chain (suc fuel) fd [] offset x c h len e f = rw (
    c,
    e,
    lt→ltb (suc m) (length offset) (get_elem?-lt offset (suc m) x f),
    eq→== (suc m) (suc m) refl,
    set_same offset (suc m) x f,
  )
  share-Chain (suc fuel) fd (zero ∷ l) offset x (g, p, ne, c) h len e f = absurd (omega arith)
  share-Chain (suc fuel) fd (suc y ∷ l) offset x (g, p, ne, c) h len e f =
      let lt : suc y < length offset = omega (arith, Chain-lt dup (suc y) l (suc m) c) in
      rw (g, e, lt→ltb (suc y) (length offset) lt, ne→==_false (suc m) (suc y) (λ q. ne (sym q)))
        (share-Chain fuel (suc y) l (set offset (suc y) x) x c (omega arith)
          (length-set offset (suc y) x ∙ len) (get_elem?-set_self offset (suc y) x lt)
          (get_elem?-set_ne offset x ne ∙ f))

  last-Chain :
      (fuel fd : ℕ) (l : List ℕ)
      → Chain dup fd l (suc m)
      → length l < fuel
      → last_from fuel (suc m) fd dup ≡ done (last_of fd l)
  unfolding last_from
  last-Chain zero fd l c h = absurd (omega arith)
  last-Chain (suc fuel) fd [] c h = rw (c, eq→== (suc m) (suc m) refl)
  last-Chain (suc fuel) fd (zero ∷ l) (g, p, ne, c) h = absurd (omega arith)
  last-Chain (suc fuel) fd (suc y ∷ l) (g, p, ne, c) h =
      rw (g, ne→==_false (suc m) (suc y) (λ q. ne (sym q)))
        (last-Chain fuel (suc y) l c (omega arith))

module _ (dup : List ℤ) where
  last_from-nowhere :
      (fuel fd : ℕ) (d : ℤ)
      → get_elem? dup fd ≡ some d
      → points_nowhere d ≡ true
      → last_from (suc fuel) fd fd dup ≡ done fd
  unfolding last_from
  last_from-nowhere fuel fd (pos zero) e h = rw e
  last_from-nowhere fuel fd (pos (suc n)) e h = cc
  last_from-nowhere fuel fd (negsuc n) e h = rw e

  share_from-nowhere :
      (fuel fd : ℕ) (d : ℤ) (offset : List ℤ)
      → get_elem? dup fd ≡ some d
      → points_nowhere d ≡ true
      → share_from (suc fuel) fd fd dup offset ≡ done offset
  unfolding share_from
  share_from-nowhere fuel fd (pos zero) offset e h = rw e
  share_from-nowhere fuel fd (pos (suc n)) offset e h = cc
  share_from-nowhere fuel fd (negsuc n) offset e h = rw e

  -- Both loops return on a ring of fewer descriptors than there is fuel.
  pub share-Ring :
      (fuel fd : ℕ) (l : List ℕ) (offset : List ℤ) (x : ℤ)
      → Ring dup fd l
      → length l < fuel
      → length offset ≡ length dup
      → get_elem? offset fd ≡ some x
      → share_from fuel fd fd dup offset ≡ done (set_all l x offset)
  share-Ring zero fd l offset x r h len e = absurd (omega arith)
  share-Ring (suc fuel) fd [] offset x (d, g, n) h len e = share_from-nowhere fuel fd d offset g n
  share-Ring (suc fuel) zero (y ∷ l) offset x (p, c) h len e = absurd (omega arith)
  share-Ring (suc fuel) (suc m) (y ∷ l) offset x (p, c) h len e =
      share-Chain dup m (suc fuel) (suc m) (y ∷ l) offset x c h len e e

  pub last-Ring :
      (fuel fd : ℕ) (l : List ℕ)
      → Ring dup fd l
      → length l < fuel
      → last_from fuel fd fd dup ≡ done (last_of fd l)
  last-Ring zero fd l r h = absurd (omega arith)
  last-Ring (suc fuel) fd [] (d, g, n) h = last_from-nowhere fuel fd d g n
  last-Ring (suc fuel) zero (y ∷ l) (p, c) h = absurd (omega arith)
  last-Ring (suc fuel) (suc m) (y ∷ l) (p, c) h = last-Chain dup m (suc fuel) (suc m) (y ∷ l) c h

module _ {V : Type 0} (kernel : Kernel V) (s : FileTable V) (fd : ℕ) (l : List ℕ) (v : V)
    (x : ℤ) where
  open kernel use {User, copyin, vop_write}

  -- What `write` does when neither `copyin` nor `VOP_WRITE` fails.
  abbrev pub written : ℕ → Reply V
  written nbytes =
      let offsets = set_all (fd ∷ l) (to_int (to_size x + nbytes)) s.filetable_offset in
      (to_int nbytes, record s { filetable_offset = offsets; file_errno = pos 0 })

  abbrev pub refused : ℕ → Reply V
  refused e = (negsuc 0, record s { file_errno = pos e })

  -- A `write` to an open descriptor other than 0, whose duplicates are `l`, returns: it returns -1
  -- with the error of `copyin`, or else with that of `VOP_WRITE`, and moves nothing; or it writes
  -- at the offset and returns the number of bytes, and the descriptor and all its duplicates have
  -- the new offset. The other offsets stay.
  pub write-shares :
      (buf : User) (nbytes : ℕ)
      → 0 < fd
      → get_elem? s.filetable fd ≡ some (some v)
      → get_elem? s.filetable_offset fd ≡ some x
      → length s.filetable_offset ≡ length s.filetable_dup
      → Ring s.filetable_dup fd l
      → length l < filetablesize + 1
      → write kernel s (pos fd) buf nbytes
        ≡ done (
            if not ((copyin buf nbytes).0 == 0)
            then refused (copyin buf nbytes).0
            else if not (vop_write v (copyin buf nbytes).1 x == 0)
            then refused (vop_write v (copyin buf nbytes).1 x)
            else written nbytes)
  unfolding write write_at updateoffset
  write-shares buf nbytes p file off len r short =
      let n = to_int (to_size x + nbytes) in
      let ring =
        share-Ring s.filetable_dup (filetablesize + 1) fd l (set s.filetable_offset fd n) n r short
          (length-set s.filetable_offset fd n ∙ len)
          (get_elem?-set_self s.filetable_offset fd n (get_elem?-lt s.filetable_offset fd x off)) in
      rw
        (
          ne→==_false fd 0 (omega arith),
          file,
          off,
          lt→ltb fd (length s.filetable_offset) (get_elem?-lt s.filetable_offset fd x off),
          ring,
        )
        (elim (Bool-cases ((copyin buf nbytes).0 == 0)) [
          | inr b ↦ rw b refl
          | inl b ↦ elim (Bool-cases (vop_write v (copyin buf nbytes).1 x == 0)) [
            | inr w ↦ rw (b, w) refl
            | inl w ↦ rw (b, w) refl
          ]
        ])
