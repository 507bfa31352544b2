-- ===== src/Sfs/Bmap/There.antt =====
-- `sfs_bmap` with allocation, on a block that the file has.
use cse_9201_os.Common.{
  ℕ, ◌-◌, ◌%◌, ◌<◌, ◌≤◌, ◌≡◌, ap, sym, ◌∙◌, Bool, true, false, ◌&&◌, List, length, some, get_elem?,
  arith, ◌==◌, get_or, dec_lt,
}
use mathlib.Core.Path.{subst}
use cse_9201_os.Common.Calls.{returns}
use cse_9201_os.Sfs.{Sv}
use cse_9201_os.Sfs.Space.{IsSound, InUse}
use cse_9201_os.Sfs.Bmap.{get_block, sfs_bmap}
use cse_9201_os.Sfs.Bmap.Steps.{
  get_elem?-get_or, bmap-at_direct, bmap-at_single, hand_back-used, get_block-old, loadbuffer-old,
  indirect-returns, walk-single, direct-old,
}
use cse_9201_os.Sfs.Bmap.Read.{entry, tree_block}
use cse_9201_os.Sfs.Bmap.Faults.{not_zero}
use cse_9201_os.Sfs.Bmap.Alloc.{tree-direct, tree-single, entry_pos}

and_no : (t : Bool) → (t && false) ≡ false
and_no t = ground arith

entry_zero : (w : Sv) (i : ℕ) → w.sv_i.sfi_indirect ≡ 0 → entry w.fs w.sv_i.sfi_indirect i ≡ 0
entry_zero w i e = ap (λ b. entry w.fs b i) e

module _ (w : Sv) (s : IsSound w.fs) (len : length w.sv_i.sfi_direct ≡ 15) where
  there-single :
      (g : ℕ)
      → 15 ≤ g
      → g < 143
      → 0 < w.sv_i.sfi_indirect
      → 0 < entry w.fs w.sv_i.sfi_indirect (g - 15)
      → InUse w.fs (entry w.fs w.sv_i.sfi_indirect (g - 15))
      → sfs_bmap true g w ≡ returns (entry w.fs w.sv_i.sfi_indirect (g - 15)) w
  there-single g h k ind pos used =
      let id : ℕ = w.sv_i.sfi_indirect in
      let b : ℕ = entry w.fs id (g - 15) in
      let buf : List ℕ = w.fs.disk id in
      let e : (g - 15) % 128 ≡ g - 15 = omega arith in
      let get : get_elem? buf (g - 15) ≡ some b =
        get_elem?-get_or buf (g - 15) (omega (arith, s.full id))
        ∙ ap some (sym (entry_pos w.fs id (g - 15) ind)) in
      bmap-at_single true g w h k
      ∙ indirect-returns true 1 (g - 15) id w id buf b w w (and_no (id == 0))
          (loadbuffer-old w id 0 1 id s ind)
          (walk-single true (g - 15) id buf w
            ∙ ap (λ j. get_block true j id buf w) e
            ∙ get_block-old w true (g - 15) id buf b get (not_zero b true pos))
          (hand_back-used w b s used)

  -- On a sound file system, a block of the file that is in use is found, and nothing changes.
  pub sfs_bmap-there :
      (g : ℕ)
      → g < 143
      → 0 < tree_block w g
      → InUse w.fs (tree_block w g)
      → sfs_bmap true g w ≡ returns (tree_block w g) w
  sfs_bmap-there g h pos used = elim (dec_lt g 15) [
    | yes direct ↦
        let d : ℕ = get_or w.sv_i.sfi_direct g 0 in
        let e : tree_block w g ≡ d = tree-direct w g direct in
        let used' : InUse w.fs d = subst (InUse w.fs) e used in
        bmap-at_direct true g w direct
        ∙ direct-old true g d w (get_elem?-get_or w.sv_i.sfi_direct g (omega arith))
            (not_zero d true (omega arith)) (hand_back-used w d s used')
        ∙ ap (λ b. returns b w) (sym e)
    | no behind ↦
        let b : ℕ = entry w.fs w.sv_i.sfi_indirect (g - 15) in
        let e : tree_block w g ≡ b = tree-single w g (omega arith) h in
        let pos' : 0 < b = omega arith in
        let ind : 0 < w.sv_i.sfi_indirect = elim (dec_lt 0 w.sv_i.sfi_indirect) [
          | yes p ↦ p
          | no hole ↦ absurd (omega (arith, entry_zero w (g - 15) (omega arith)))
        ] in
        there-single g (omega arith) h ind pos' (subst (InUse w.fs) e used)
        ∙ ap (λ c. returns c w) (sym e)
  ]
