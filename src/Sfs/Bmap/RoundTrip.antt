-- ===== src/Sfs/Bmap/RoundTrip.antt =====
-- `sfs_bmap` with allocation, on the direct and the single indirect blocks of a file.
use cse_9201_os.Common.{
  ℕ, ◌+◌, ◌-◌, ◌%◌, ◌<◌, ◌≡◌, ◌⊎◌, inl, inr, refl, ap, sym, ◌∙◌, Bool, true, false, ◌&&◌, List,
  some, get_elem?, length, arith, lt→ltb, ◌==◌, get_or, dec_lt,
}
use mathlib.Core.Path.{subst}
use cse_9201_os.Common.Calls.{returns, fails}
use cse_9201_os.Common.Errno.{enospc}
use cse_9201_os.Bitmap.{Bitmap}
use cse_9201_os.Sfs.{Sv, zeros_block, sfs_balloc, count_up}
use cse_9201_os.Sfs.Space.{IsSound, InUse, taken, Takes, sfs_balloc_lem, write_at_self}
use cse_9201_os.Sfs.Bmap.{get_block, hand_back, loadbuffer, bmap_direct, bmap_indirect, sfs_bmap}
use cse_9201_os.Sfs.Bmap.Steps.{
  get_elem?-get_or, bmap-at_direct, bmap-at_single, hand_back-used, loadbuffer-old,
  indirect-returns, indirect-load_fails, indirect-walk_ends, walk-single, direct-old,
}
use cse_9201_os.Sfs.Bmap.Read.{entry, tree_block, IsHoleOrUsed}
use cse_9201_os.Sfs.Bmap.Faults.{not_zero, loadbuffer-new, loadbuffer-fails}
use cse_9201_os.Sfs.Bmap.Alloc.{
  Maps, tree-direct, tree-single, old-Maps, direct-Maps, with_direct, entry_call, new-InUse,
  get_or-zeros, entry_pos,
}

direct-new :
    (w : Sv) (fb n : ℕ) (m : Bitmap)
    → get_elem? w.sv_i.sfi_direct fb ≡ some 0
    → fb < length w.sv_i.sfi_direct
    → sfs_balloc w ≡ returns n (record w { fs = taken w.fs n m })
    → hand_back n (with_direct w fb n m) ≡ returns n (with_direct w fb n m)
    → bmap_direct true fb w ≡ returns n (with_direct w fb n m)
unfolding bmap_direct
direct-new w fb n m e h run hand = rw (e, run, lt→ltb fb (length w.sv_i.sfi_direct) h, hand)

direct-full :
    (w w' : Sv) (fb r : ℕ)
    → get_elem? w.sv_i.sfi_direct fb ≡ some 0
    → sfs_balloc w ≡ fails r w'
    → bmap_direct true fb w ≡ fails r w'
unfolding bmap_direct
direct-full w w' fb r e run = rw (e, run)

-- the vnode with a new, empty single indirect block
abbrev with_indirect : Sv → ℕ → Bitmap → Sv
with_indirect w n m = record w {
  fs = taken w.fs n m;
  sv_i = record (count_up w.sv_i) { sfi_indirect = n };
  sv_dirty = true;
}

Maps-after :
    (w w' w'' : Sv) (fb b : ℕ)
    → ((g : ℕ) → g < 143 → tree_block w' g ≡ tree_block w g)
    → Maps w' w'' fb b
    → Maps w w'' fb b
Maps-after w w' w'' fb b same maps = record {
  nonzero = maps.nonzero;
  sound = maps.sound;
  used = maps.used;
  here = maps.here;
  others = λ g h ne. maps.others g h ne ∙ same g h;
  found = maps.found;
}

-- The same for the part of the call behind the direct blocks.
abbrev SingleEnds : Sv → ℕ → ℕ → Type 0
SingleEnds w i id =
    ((b : ℕ) × (w' : Sv) × (bmap_indirect true 1 i id w ≡ returns b w') × Maps w w' (i + 15) b)
    ⊎ ((w' : Sv) × (bmap_indirect true 1 i id w ≡ fails enospc w'))

-- The two ways in which an allocating call ends.
abbrev pub Ends : Sv → ℕ → Type 0
Ends w fb =
    ((b : ℕ) × (w' : Sv) × (sfs_bmap true fb w ≡ returns b w') × Maps w w' fb b)
    ⊎ ((w' : Sv) × (sfs_bmap true fb w ≡ fails enospc w'))

module _ (w : Sv) (s : IsSound w.fs) (len : length w.sv_i.sfi_direct ≡ 15)
    (ind : IsHoleOrUsed w.fs w.sv_i.sfi_indirect) where
  direct-Ends : (fb : ℕ) → fb < 15 → IsHoleOrUsed w.fs (get_or w.sv_i.sfi_direct fb 0) → Ends w fb
  direct-Ends fb h good =
      let d : ℕ = get_or w.sv_i.sfi_direct fb 0 in
      let get = get_elem?-get_or w.sv_i.sfi_direct fb (omega arith) in
      elim (dec_lt 0 d) [
        | yes there ↦
            let used : InUse w.fs d = elim good [
              | inl hole ↦ absurd (omega arith)
              | inr used ↦ used
            ] in
            inl (
              d,
              w,
              bmap-at_direct true fb w h
                  ∙ direct-old true fb d w get (not_zero d true there) (hand_back-used w d s used),
              old-Maps w s len fb d (omega arith) there used (tree-direct w fb h),
            )
        | no hole ↦
            let get' : get_elem? w.sv_i.sfi_direct fb ≡ some 0 = get ∙ ap some (omega arith) in
            elim (sfs_balloc_lem w s) [
              | inl (n, m, run, takes) ↦ inl (
                n,
                with_direct w fb n m,
                bmap-at_direct true fb w h
                    ∙ direct-new w fb n m get' (omega arith) run (
                        hand_back-used (with_direct w fb n m) n takes.sound
                          (new-InUse w.fs n m takes)),
                direct-Maps w s len fb n m h ind takes,
              )
              | inr (run, all) ↦
                  inr (w, bmap-at_direct true fb w h ∙ direct-full w w fb enospc get' run)
            ]
      ]

-- From the loaded indirect block on; `load` is what came before.
single_from :
    (w w1 : Sv) (i id : ℕ)
    → IsSound w1.fs
    → length w1.sv_i.sfi_direct ≡ 15
    → InUse w1.fs w1.sv_i.sfi_indirect
    → 0 < w1.sv_i.sfi_indirect
    → i < 128
    → IsHoleOrUsed w1.fs (entry w1.fs w1.sv_i.sfi_indirect i)
    → loadbuffer id 0 1 id w ≡ returns (w1.sv_i.sfi_indirect, w1.fs.disk w1.sv_i.sfi_indirect) w1
    → ((b : ℕ) × (w' : Sv) × (bmap_indirect true 1 i id w ≡ returns b w') × Maps w1 w' (i + 15) b)
      ⊎ ((w' : Sv) × (bmap_indirect true 1 i id w ≡ fails enospc w'))
single_from w w1 i id s len used pos h good load =
    let e : i % 128 ≡ i = omega arith in
    let buf : List ℕ = w1.fs.disk w1.sv_i.sfi_indirect in
    let walk = λ (j : ℕ). get_block true j w1.sv_i.sfi_indirect buf w1 in
    elim (entry_call w1 s len used pos i h good) [
      | inl (b, w', run, maps) ↦ inl (
        b,
        w',
        indirect-returns true 1 i id w w1.sv_i.sfi_indirect buf b w1 w' (and_no (id == 0)) load
            (walk-single true i w1.sv_i.sfi_indirect buf w1 ∙ ap walk e ∙ run)
            (hand_back-used w' b maps.sound maps.used),
        maps,
      )
      | inr run ↦ inr (
        w1,
        (indirect-walk_ends true 1 i id w w1.sv_i.sfi_indirect buf w1 (and_no (id == 0)) load).1
            enospc w1 (walk-single true i w1.sv_i.sfi_indirect buf w1 ∙ ap walk e ∙ run),
      )
    ]
  where
    and_no : (t : Bool) → (t && false) ≡ false
    and_no t = ground arith

module _ (w : Sv) (s : IsSound w.fs) (len : length w.sv_i.sfi_direct ≡ 15) where
  new_indirect :
      (i n : ℕ) (m : Bitmap)
      → i < 128
      → w.sv_i.sfi_indirect ≡ 0
      → sfs_balloc w ≡ returns n (record w { fs = taken w.fs n m })
      → Takes w.fs n m
      → SingleEnds w i 0
  new_indirect i n m h zero_ind run takes =
      let w1 = with_indirect w n m in
      let empty : (j : ℕ) → entry w1.fs n j ≡ 0 = λ j.
        entry_pos w1.fs n j takes.nonzero
        ∙ ap (λ l. get_or l j 0) (write_at_self w.fs.disk n zeros_block)
        ∙ get_or-zeros 128 j in
      let same : (g : ℕ) → g < 143 → tree_block w1 g ≡ tree_block w g = λ g k. elim (dec_lt g 15) [
        | yes direct ↦ tree-direct w1 g direct ∙ sym (tree-direct w g direct)
        | no behind ↦
            tree-single w1 g (omega arith) k
            ∙ empty (g - 15)
            ∙ sym (ap (λ b. entry w.fs b (g - 15)) zero_ind)
            ∙ sym (tree-single w g (omega arith) k)
      ] in
      let load =
        loadbuffer-new w 0 1 0 n (record w { fs = taken w.fs n m }) run
        ∙ ap (λ l. returns (n, l) w1) (sym (write_at_self w.fs.disk n zeros_block)) in
      elim (single_from w w1 i 0 takes.sound len (new-InUse w.fs n m takes) takes.nonzero h
        (inl (empty i)) load) [
          | inl (b, w', done, maps) ↦ inl (b, w', done, Maps-after w w1 w' (i + 15) b same maps)
          | inr stopped ↦ inr stopped
        ]

  single_ends :
      (i : ℕ)
      → i < 128
      → IsHoleOrUsed w.fs w.sv_i.sfi_indirect
      → IsHoleOrUsed w.fs (entry w.fs w.sv_i.sfi_indirect i)
      → SingleEnds w i w.sv_i.sfi_indirect
  single_ends i h ind good = elim (dec_lt 0 w.sv_i.sfi_indirect) [
    | yes there ↦
        let used : InUse w.fs w.sv_i.sfi_indirect = elim ind [
          | inl hole ↦ absurd (omega arith)
          | inr used ↦ used
        ] in
        single_from w w i w.sv_i.sfi_indirect s len used there h good
          (loadbuffer-old w w.sv_i.sfi_indirect 0 1 w.sv_i.sfi_indirect s there)
    | no hole ↦
        let zero_ind : w.sv_i.sfi_indirect ≡ 0 = omega arith in
        elim (sfs_balloc_lem w s) [
          | inl (n, m, run, takes) ↦
              subst (λ id. SingleEnds w i id) (sym zero_ind)
                (new_indirect i n m h zero_ind run takes)
          | inr (run, all) ↦
              subst (λ id. SingleEnds w i id) (sym zero_ind)
                (inr (
                  w,
                  indirect-load_fails true 1 i 0 w enospc w refl
                      (loadbuffer-fails w 0 1 0 enospc w run),
                ))
        ]
  ]

  -- On a sound file system whose pointers are holes or lead to blocks in use, `sfs_bmap` with
  -- allocation, on the direct and the single indirect blocks, either returns a block that is in use,
  -- which a later look-up finds, the other blocks of the file being where they were and the file
  -- system sound; or it fails with ENOSPC.
  pub sfs_bmap-allocates :
      (fileblock : ℕ)
      → fileblock < 143
      → IsHoleOrUsed w.fs w.sv_i.sfi_indirect
      → IsHoleOrUsed w.fs (tree_block w fileblock)
      → Ends w fileblock
  sfs_bmap-allocates fb h ind good = elim (dec_lt fb 15) [
    | yes direct ↦ direct-Ends w s len ind fb direct (rw (tree-direct w fb direct) at good)
    | no behind ↦
        let k : fb - 15 + 15 ≡ fb = omega arith in
        let here = bmap-at_single true fb w (omega arith) h in
        let good' : IsHoleOrUsed w.fs (entry w.fs w.sv_i.sfi_indirect (fb - 15)) =
          rw (tree-single w fb (omega arith) h) at good in
        elim (single_ends (fb - 15) (omega arith) ind good') [
          | inl (b, w', run, maps) ↦ inl (b, w', here ∙ run, subst (λ j. Maps w w' j b) k maps)
          | inr (w', run) ↦ inr (w', here ∙ run)
        ]
  ]
