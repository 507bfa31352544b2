-- ===== src/Sfs/Bmap/Read.antt =====
-- `sfs_bmap` that may not allocate: it finds the block that the tree of the inode has.
use cse_9201_os.Common.{
  ℕ, zero, suc, ◌-◌, ◌/◌, ◌%◌, ◌<◌, ◌≡◌, ◌⊎◌, inl, inr, refl, ap, ◌∙◌, true, false, ◌&&◌, length,
  arith, ltb, lt→ltb, le→ltb_false, ◌==◌, ne→==_false, if◌then◌else◌, get_or, dec_lt,
}
use cse_9201_os.Common.Calls.{returns}
use cse_9201_os.Sfs.{Fs, Sv}
use cse_9201_os.Sfs.Space.{IsSound, InUse}
use cse_9201_os.Sfs.Bmap.{get_block, hand_back, bmap_indirect, sfs_bmap}
use cse_9201_os.Sfs.Bmap.Steps.{
  get_elem?-get_or, bmap-at_direct, bmap-at_single, bmap-at_double, hand_back-zero, hand_back-used,
  get_block-old, loadbuffer-old, indirect-hole, indirect-returns, walk-single, walk-double,
  next_level-returns, direct-old,
}

-- word `i` of indirect block `b`; block number 0 is a hole
abbrev pub entry : Fs → ℕ → ℕ → ℕ
entry fs b i = if b == 0 then 0 else get_or (fs.disk b) i 0

-- the first-level entry of a block in the double indirect range
abbrev pub double_entry : Sv → ℕ → ℕ
double_entry w fileblock = entry w.fs w.sv_i.sfi_doubleindirect ((fileblock - 143) / 128)

-- the disk block of a block of the file, up to the double indirect range, 0 for a hole
abbrev pub tree_block : Sv → ℕ → ℕ
tree_block w fileblock =
    if ltb fileblock 15
    then get_or w.sv_i.sfi_direct fileblock 0
    else if ltb fileblock 143
    then entry w.fs w.sv_i.sfi_indirect (fileblock - 15)
    else entry w.fs (double_entry w fileblock) ((fileblock - 143) % 128)

abbrev pub IsHoleOrUsed : Fs → ℕ → Type 0
IsHoleOrUsed fs b = (b ≡ 0) ⊎ InUse fs b

zero_and : (b : ℕ) → (b == 0 && false) ≡ false
zero_and b = ground arith

module _ (w : Sv) (s : IsSound w.fs) where
  hand_back-ok : (b : ℕ) → IsHoleOrUsed w.fs b → hand_back b w ≡ returns b w
  hand_back-ok b (inl e) = rw e (hand_back-zero w)
  hand_back-ok b (inr used) = hand_back-used w b s used

  read_entry :
      (b i : ℕ) → 0 < b → i < 128 → get_block false i b (w.fs.disk b) w ≡ returns (entry w.fs b i) w
  read_entry b i pos h = rw (ne→==_false b 0 (omega arith)) (
      get_block-old w false i b (w.fs.disk b) (get_or (w.fs.disk b) i 0)
        (get_elem?-get_or (w.fs.disk b) i (omega (arith, s.full b)))
        (zero_and (get_or (w.fs.disk b) i 0)))

  read-single :
      (b i : ℕ)
      → i < 128
      → IsHoleOrUsed w.fs (entry w.fs b i)
      → bmap_indirect false 1 i b w ≡ returns (entry w.fs b i) w
  read-single zero i h good = indirect-hole false 1 i 0 w refl
  read-single (suc b) i h good =
      let e : i % 128 ≡ i = omega arith in
      indirect-returns false 1 i (suc b) w (suc b) (w.fs.disk (suc b)) (entry w.fs (suc b) i) w w
        (zero_and_not (suc b) (omega arith)) (loadbuffer-old w (suc b) 0 1 (suc b) s (omega arith))
        (walk-single false i (suc b) (w.fs.disk (suc b)) w
          ∙ ap (λ j. get_block false j (suc b) (w.fs.disk (suc b)) w) e
          ∙ read_entry (suc b) i (omega arith) h)
        (hand_back-ok (entry w.fs (suc b) i) good)
    where
      zero_and_not : (b : ℕ) → 0 < b → (b == 0 && true) ≡ false
      zero_and_not b h = ground arith

  read-double :
      (b i : ℕ)
      → 0 < b
      → i < 16384
      → 0 < entry w.fs b (i / 128)
      → IsHoleOrUsed w.fs (entry w.fs (entry w.fs b (i / 128)) (i % 128))
      → bmap_indirect false 2 i b w ≡ returns (entry w.fs (entry w.fs b (i / 128)) (i % 128)) w
  read-double b i pos h inner good =
      let id : ℕ = entry w.fs b (i / 128) in
      indirect-returns false 2 i b w b (w.fs.disk b) (entry w.fs id (i % 128)) w w
        (zero_and_not b pos) (loadbuffer-old w b 0 2 b s pos)
        (walk-double false i b (w.fs.disk b) w id (w.fs.disk id) w (
            next_level-returns false 2 (i / 128) b (w.fs.disk b) w id (id, w.fs.disk id) w w
              (read_entry b (i / 128) pos (omega arith)) (loadbuffer-old w id 1 2 id s inner))
          ∙ read_entry id (i % 128) inner (omega arith))
        (hand_back-ok (entry w.fs id (i % 128)) good)
    where
      zero_and_not : (b : ℕ) → 0 < b → (b == 0 && true) ≡ false
      zero_and_not b h = ground arith

  at_double :
      (b i : ℕ)
      → i < 16384
      → (b ≡ 0) ⊎ (0 < entry w.fs b (i / 128))
      → IsHoleOrUsed w.fs (entry w.fs (entry w.fs b (i / 128)) (i % 128))
      → bmap_indirect false 2 i b w ≡ returns (entry w.fs (entry w.fs b (i / 128)) (i % 128)) w
  at_double zero i h whole good = indirect-hole false 2 i 0 w refl
  at_double (suc b) i h (inl e) good = absurd (omega arith)
  at_double (suc b) i h (inr inner) good = read-double (suc b) i (omega arith) h inner good

  -- On a sound file system `sfs_bmap` without allocation returns the block of the inode's tree, or 0
  -- for a hole, and changes nothing: for the direct, the single indirect and the double indirect
  -- blocks, where the block is a hole or marked as used, and where a double indirect block, if there
  -- is one, has the inner block.
  pub sfs_bmap-reads :
      (fileblock : ℕ)
      → length w.sv_i.sfi_direct ≡ 15
      → fileblock < 16527
      → (fileblock < 143) ⊎ (w.sv_i.sfi_doubleindirect ≡ 0) ⊎ (0 < double_entry w fileblock)
      → IsHoleOrUsed w.fs (tree_block w fileblock)
      → sfs_bmap false fileblock w ≡ returns (tree_block w fileblock) w
  sfs_bmap-reads fb len h whole good = elim (dec_lt fb 15) [
    | yes direct ↦
        let good' : IsHoleOrUsed w.fs (get_or w.sv_i.sfi_direct fb 0) =
          rw (lt→ltb fb 15 direct) at good in
        rw (lt→ltb fb 15 direct) (
          bmap-at_direct false fb w direct
          ∙ direct-old false fb (get_or w.sv_i.sfi_direct fb 0) w
              (get_elem?-get_or w.sv_i.sfi_direct fb (omega arith))
              (zero_and (get_or w.sv_i.sfi_direct fb 0))
              (hand_back-ok (get_or w.sv_i.sfi_direct fb 0) good'))
    | no behind ↦ elim (dec_lt fb 143) [
      | yes single ↦
          let past : ltb fb 15 ≡ false = le→ltb_false fb 15 (omega arith) in
          let good' : IsHoleOrUsed w.fs (entry w.fs w.sv_i.sfi_indirect (fb - 15)) =
            rw (past, lt→ltb fb 143 single) at good in
          rw (past, lt→ltb fb 143 single)
            (bmap-at_single false fb w (omega arith) single
              ∙ read-single w.sv_i.sfi_indirect (fb - 15) (omega arith) good')
      | no double ↦
          let past : ltb fb 15 ≡ false = le→ltb_false fb 15 (omega arith) in
          let past' : ltb fb 143 ≡ false = le→ltb_false fb 143 (omega arith) in
          rw (past, past')
            (bmap-at_double false fb w (omega arith) h
              ∙ at_double w.sv_i.sfi_doubleindirect (fb - 143) (omega arith)
                  (elim whole [ inl small ↦ absurd (double small) | inr rest ↦ rest ])
                  (rw (past, past') at good))
    ]
  ]
