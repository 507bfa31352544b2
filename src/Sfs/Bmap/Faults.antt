-- ===== src/Sfs/Bmap/Faults.antt =====
-- Two faults of `sfs_bmap`: a look-up without an inner table takes a block, and the triple indirect
-- blocks index their tables out of bounds.
use cse_9201_os.Common.{
  ℕ, zero, suc, ◌-◌, ◌/◌, ◌%◌, ◌≤◌, ◌<◌, ◌≡◌, ◌⊎◌, inl, inr, refl, ap, ◌∙◌, Bool, true, false, not,
  ◌&&◌, List, [], ◌∷◌, none, some, get_elem?, length, arith, ◌==◌, ne→==_false, replicate, dec_lt,
}
use cse_9201_os.Common.Calls.{returns, fails, undef}
use cse_9201_os.Common.Errno.{enospc}
use cse_9201_os.Bitmap.{Bitmap}
use cse_9201_os.Sfs.{Sv, zeros_block, sfs_balloc, count_up}
use cse_9201_os.Sfs.Space.{IsSound, taken, Takes, sfs_balloc_lem}
use cse_9201_os.Sfs.Bmap.{
  remember, loadbuffer, get_block, next_level, bmap_walk, bmap_indirect, sfs_bmap,
}
use cse_9201_os.Sfs.Bmap.Steps.{
  get_elem?-get_or, bmap-at_double, bmap-at_triple, hand_back-zero, get_block-old, loadbuffer-old,
  indirect-returns, indirect-walk_ends, walk-double, walk-triple_outside, walk-triple_second,
  next_level-returns, next_level-outside,
}
use cse_9201_os.Sfs.Bmap.Read.{entry, double_entry}

pub get_elem?-zeros : (n i : ℕ) → i < n → get_elem? {A = ℕ} (replicate n 0) i ≡ some 0
get_elem?-zeros zero i h = absurd (omega arith)
get_elem?-zeros (suc n) zero h = refl
get_elem?-zeros (suc n) (suc i) h = get_elem?-zeros n i (omega arith)

get_elem?-past : (l : List ℕ) (i : ℕ) → length l ≤ i → get_elem? l i ≡ none
get_elem?-past [] i h = refl
get_elem?-past (x ∷ l) zero h = absurd (omega arith)
get_elem?-past (x ∷ l) (suc i) h = get_elem?-past l i (omega arith)

pub not_zero : (b : ℕ) (t : Bool) → 0 < b → (b == 0 && t) ≡ false
not_zero b t h = ground arith

pub or_no : (b : ℕ) → (b == 0 && false) ≡ false
or_no b = ground arith

module _ (w : Sv) (level idblevel idblock : ℕ) where
  -- `loadbuffer` on block number 0 takes a block.
  pub loadbuffer-new :
      (n : ℕ) (w' : Sv)
      → sfs_balloc w ≡ returns n w'
      → loadbuffer 0 level idblevel idblock w
        ≡ returns
            (n, zeros_block)
            (record w' { sv_i = remember n level idblevel (count_up w'.sv_i); sv_dirty = true })
  unfolding loadbuffer
  loadbuffer-new n w' e = rw e

  pub loadbuffer-fails :
      (r : ℕ) (w' : Sv)
      → sfs_balloc w ≡ fails r w'
      → loadbuffer 0 level idblevel idblock w ≡ fails r w'
  unfolding loadbuffer
  loadbuffer-fails r w' e = rw e

next_level-fails :
    (doalloc : Bool) (level blockno idblock : ℕ) (buf : List ℕ) (w w' w'' : Sv) (b r : ℕ)
    → get_block doalloc blockno idblock buf w ≡ returns b w'
    → loadbuffer b 1 level b w' ≡ fails r w''
    → next_level doalloc level blockno idblock buf w ≡ fails r w''
unfolding next_level
next_level-fails doalloc level blockno idblock buf w w' w'' b r get load = rw (get, load)

walk-double_fails :
    (doalloc : Bool) (left idblock : ℕ) (buf : List ℕ) (w w' : Sv) (r : ℕ)
    → next_level doalloc 2 (left / 128) idblock buf w ≡ fails r w'
    → bmap_walk doalloc 2 left idblock buf w ≡ fails r w'
unfolding bmap_walk
walk-double_fails doalloc left idblock buf w w' r e = rw e

-- The vnode and its file system after block `n` was taken, and counted, for nothing.
abbrev pub leaked : Sv → ℕ → Bitmap → Sv
leaked w n m = record w { fs = taken w.fs n m; sv_i = count_up w.sv_i; sv_dirty = true }

module _ (w : Sv) (s : IsSound w.fs) where
  found_entry : (b i : ℕ) → 0 < b → i < 128 → get_elem? (w.fs.disk b) i ≡ some (entry w.fs b i)
  found_entry b i pos h =
      rw (ne→==_false b 0 (omega arith))
        (get_elem?-get_or (w.fs.disk b) i (omega (arith, s.full b)))

  leak_at :
      (b i : ℕ)
      → 0 < b
      → i < 16384
      → entry w.fs b (i / 128) ≡ 0
      → ((n : ℕ) × (m : Bitmap) × (bmap_indirect false 2 i b w ≡ returns 0 (leaked w n m))
          × Takes w.fs n m)
        ⊎ (bmap_indirect false 2 i b w ≡ fails enospc w)
  leak_at b i pos h e =
      let load = loadbuffer-old w b 0 2 b s pos in
      let zero_entry =
        get_block-old w false (i / 128) b (w.fs.disk b) 0
          (found_entry b (i / 128) pos (omega arith) ∙ ap some e) refl in
      elim (sfs_balloc_lem w s) [
        | inl (n, m, run, takes) ↦ inl (
          n,
          m,
          indirect-returns false 2 i b w b (w.fs.disk b) 0 w (leaked w n m) (not_zero b true pos)
              load
              (walk-double false i b (w.fs.disk b) w n zeros_block (leaked w n m) (
                  next_level-returns false 2 (i / 128) b (w.fs.disk b) w 0 (n, zeros_block) w
                    (leaked w n m) zero_entry
                    (loadbuffer-new w 1 2 0 n (record w { fs = taken w.fs n m }) run))
                ∙ get_block-old (leaked w n m) false (i % 128) n zeros_block 0
                    (get_elem?-zeros 128 (i % 128) (omega arith)) refl)
              (hand_back-zero (leaked w n m)),
          takes,
        )
        | inr (run, all) ↦ inr (
            (indirect-walk_ends false 2 i b w b (w.fs.disk b) w (not_zero b true pos) load).1 enospc
              w
              (walk-double_fails false i b (w.fs.disk b) w w enospc (
                next_level-fails false 2 (i / 128) b (w.fs.disk b) w w w 0 enospc zero_entry
                  (loadbuffer-fails w 1 2 0 enospc w run))))
      ]

  -- On a sound file system, a look-up without allocation of a block in the double indirect range,
  -- where the inode has a double indirect block whose entry for it, the number of the inner table,
  -- is 0: `sfs_bmap` answers that there is no block, but it has taken a block of the disk whose bit
  -- was clear, marked it, filled it with zeros and counted it in the inode, while every pointer of
  -- the inode and every other block stay as they were; or it fails with ENOSPC, although nothing was
  -- to be allocated.
  pub sfs_bmap-leaks :
      (fileblock : ℕ)
      → 143 ≤ fileblock
      → fileblock < 16527
      → 0 < w.sv_i.sfi_doubleindirect
      → double_entry w fileblock ≡ 0
      → ((n : ℕ) × (m : Bitmap) × (sfs_bmap false fileblock w ≡ returns 0 (leaked w n m))
          × Takes w.fs n m)
        ⊎ (sfs_bmap false fileblock w ≡ fails enospc w)
  sfs_bmap-leaks fileblock h k pos e =
      let here = bmap-at_double false fileblock w h k in
      elim (leak_at w.sv_i.sfi_doubleindirect (fileblock - 143) pos (omega arith) e) [
        | inl (n, m, run, takes) ↦ inl (n, m, here ∙ run, takes)
        | inr run ↦ inr (here ∙ run)
      ]

  triple_at :
      (doalloc : Bool) (b i : ℕ)
      → 0 < b
      → 16384 ≤ i
      → (2097152 ≤ i) ⊎ (0 < entry w.fs b (i / 16384))
      → bmap_indirect doalloc 3 i b w ≡ undef
  triple_at doalloc b i pos far which =
      (indirect-walk_ends doalloc 3 i b w b (w.fs.disk b) w (not_zero b (not doalloc) pos)
          (loadbuffer-old w b 0 3 b s pos)).0
        (elim (dec_lt i 2097152) [
          | no out ↦ walk-triple_outside doalloc i b (w.fs.disk b) w (
              next_level-outside doalloc 3 (i / 16384) b (w.fs.disk b) w
                (get_elem?-past (w.fs.disk b) (i / 16384) (omega (arith, s.full b))))
          | yes inside ↦
              let id : ℕ = entry w.fs b (i / 16384) in
              let inner : 0 < id = elim which [
                | inl out ↦ absurd (omega arith)
                | inr some_entry ↦ some_entry
              ] in
              walk-triple_second doalloc i b (w.fs.disk b) w id (w.fs.disk id) w
                (next_level-returns doalloc 3 (i / 16384) b (w.fs.disk b) w id (id, w.fs.disk id) w
                  w
                  (get_block-old w doalloc (i / 16384) b (w.fs.disk b) id
                    (found_entry b (i / 16384) pos (omega arith)) (not_zero id doalloc inner))
                  (loadbuffer-old w id 1 3 id s inner))
                (next_level-outside doalloc 3 (i / 128) id (w.fs.disk id) w
                  (get_elem?-past (w.fs.disk id) (i / 128) (omega (arith, s.full id))))
        ])

  -- On a sound file system, for a block from 32655 to 2113678 of a file with a triple indirect block,
  -- `sfs_bmap` reads past the end of a table, with allocation or without: always from block 2113423
  -- on, and before it when the triple indirect block has an inner table at the index that the code
  -- computes.
  pub sfs_bmap-triple_outside :
      (doalloc : Bool) (fileblock : ℕ)
      → 32655 ≤ fileblock
      → fileblock < 2113679
      → 0 < w.sv_i.sfi_tripleindirect
      → (2113423 ≤ fileblock)
        ⊎ (0 < entry w.fs w.sv_i.sfi_tripleindirect ((fileblock - 16271) / 16384))
      → sfs_bmap doalloc fileblock w ≡ undef
  sfs_bmap-triple_outside doalloc fileblock h k pos which =
      bmap-at_triple doalloc fileblock w (omega arith) k
      ∙ triple_at doalloc w.sv_i.sfi_tripleindirect (fileblock - 16271) pos (omega arith)
          (elim which [ inl far ↦ inl (omega arith) | inr inner ↦ inr inner ])
