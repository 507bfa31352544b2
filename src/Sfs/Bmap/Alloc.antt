-- ===== src/Sfs/Bmap/Alloc.antt =====
-- `sfs_bmap` that may allocate: the block it hands out is the one that a later look-up finds, and the
-- other blocks of the file stay where they are.
use cse_9201_os.Common.{
  ℕ, zero, suc, ◌+◌, ◌-◌, ◌≤◌, ◌<◌, ◌≡◌, ◌≢◌, ◌⊎◌, inl, inr, refl, ap, sym, ◌∙◌, Bool, true, false,
  ◌||◌, List, [], ◌∷◌, some, get_elem?, set, length, length-set, arith, lt→ltb, le→ltb_false, ◌==◌,
  ne→==_false, eq→==, get_or, dec_lt, replicate,
}
use mathlib.Core.Bool.{false≢true}
use cse_9201_os.Common.Calls.{returns, fails}
use cse_9201_os.Common.Errno.{enospc}
use cse_9201_os.Bitmap.{Bitmap}
use cse_9201_os.Bitmap.Bits.{bit_at}
use cse_9201_os.Sfs.{Fs, Sv, sfs_balloc, sfs_wblock, count_up}
use cse_9201_os.Sfs.Space.{
  IsSound, InUse, taken, written, Takes, sfs_balloc_lem, written-IsSound, write_at_self,
}
use cse_9201_os.Sfs.Bmap.{get_block, sfs_bmap}
use cse_9201_os.Sfs.Bmap.Steps.{get_elem?-get_or, get_block-old}
use cse_9201_os.Sfs.Bmap.Read.{entry, tree_block, IsHoleOrUsed, sfs_bmap-reads}
use cse_9201_os.Sfs.Bmap.Faults.{not_zero}

get_or-set_self : (l : List ℕ) (i v : ℕ) → i < length l → get_or (set l i v) i 0 ≡ v
get_or-set_self [] i v h = absurd (omega arith)
get_or-set_self (x ∷ l) zero v h = refl
get_or-set_self (x ∷ l) (suc i) v h = get_or-set_self l i v (omega arith)

get_or-set_ne : (l : List ℕ) (i j v : ℕ) → i ≢ j → get_or (set l i v) j 0 ≡ get_or l j 0
get_or-set_ne [] i j v h = refl
get_or-set_ne (x ∷ l) zero zero v h = absurd (h refl)
get_or-set_ne (x ∷ l) zero (suc j) v h = refl
get_or-set_ne (x ∷ l) (suc i) zero v h = refl
get_or-set_ne (x ∷ l) (suc i) (suc j) v h = get_or-set_ne l i j v (λ e. h (ap suc e))

pub get_or-zeros : (n i : ℕ) → get_or {A = ℕ} (replicate n 0) i 0 ≡ 0
get_or-zeros zero i = refl
get_or-zeros (suc n) zero = refl
get_or-zeros (suc n) (suc i) = get_or-zeros n i

or-true_left : (a b : Bool) → a ≡ true → (a || b) ≡ true
or-true_left a b h = ground arith

or-true_right : (a b : Bool) → b ≡ true → (a || b) ≡ true
or-true_right a b h = ground arith

abbrev pub entry-eq : Fs → ℕ → ℕ → Type 0
entry-eq fs b i = entry fs b i ≡ get_or (fs.disk b) i 0

pub entry_pos : (fs : Fs) (b i : ℕ) → 0 < b → entry-eq fs b i
entry_pos fs b i h = rw (ne→==_false b 0 (omega arith))

module _ (fs : Fs) (n : ℕ) (m : Bitmap) (takes : Takes fs n m) where
  -- A block in use is not the one that was taken.
  taken-ne : (b : ℕ) → InUse fs b → n ≢ b
  taken-ne b used e = false≢true (sym takes.fresh ∙ ap (bit_at fs.sfs_freemap.v) e ∙ used.marked)

  taken-disk : (b : ℕ) → InUse fs b → (taken fs n m).disk b ≡ fs.disk b
  taken-disk b used = rw (ne→==_false b n (λ e. taken-ne b used (sym e)))

  pub taken-entry : (b i : ℕ) → IsHoleOrUsed fs b → entry (taken fs n m) b i ≡ entry fs b i
  taken-entry b i (inl e) = rw e
  taken-entry b i (inr used) = rw (taken-disk b used)

  taken-InUse : (b : ℕ) → InUse fs b → InUse (taken fs n m) b
  taken-InUse b used = record {
    on_disk = used.on_disk;
    marked = takes.bits b ∙ or-true_right (n == b) _ used.marked;
  }

  pub new-InUse : InUse (taken fs n m) n
  new-InUse = record {
    on_disk = takes.on_disk;
    marked = takes.bits n ∙ or-true_left (n == n) _ (eq→== n n refl);
  }

-- Block `b` of the disk is block `fileblock` of the file in `w'`, where it is in use; the other
-- blocks of the file, up to the single indirect range, are those of `w`; and a look-up finds `b`.
pub record Maps (w w' : Sv) (fileblock b : ℕ) : Type 0 where
  pub nonzero : 0 < b
  pub sound : IsSound w'.fs
  pub used : InUse w'.fs b
  pub here : tree_block w' fileblock ≡ b
  pub others : (g : ℕ) → g < 143 → g ≢ fileblock → tree_block w' g ≡ tree_block w g
  pub found : sfs_bmap false fileblock w' ≡ returns b w'

pub tree-direct : (w : Sv) (g : ℕ) → g < 15 → tree_block w g ≡ get_or w.sv_i.sfi_direct g 0
tree-direct w g h = rw (lt→ltb g 15 h)

pub tree-single :
    (w : Sv) (g : ℕ) → 15 ≤ g → g < 143 → tree_block w g ≡ entry w.fs w.sv_i.sfi_indirect (g - 15)
tree-single w g h k = rw (le→ltb_false g 15 h, lt→ltb g 143 k)

found_again :
    (w : Sv) (fileblock b : ℕ)
    → IsSound w.fs
    → length w.sv_i.sfi_direct ≡ 15
    → fileblock < 143
    → InUse w.fs b
    → tree_block w fileblock ≡ b
    → sfs_bmap false fileblock w ≡ returns b w
found_again w fb b s len h used e =
    let used' : InUse w.fs (tree_block w fb) = rw (sym e) at used in
    sfs_bmap-reads w s fb len (omega arith) (inl h) (inr used') ∙ ap (λ c. returns c w) e

-- the vnode with a new direct block
abbrev pub with_direct : Sv → ℕ → ℕ → Bitmap → Sv
with_direct w fb n m = record w {
  fs = taken w.fs n m;
  sv_i = record (count_up w.sv_i) { sfi_direct = set w.sv_i.sfi_direct fb n };
  sv_dirty = true;
}

module _ (w : Sv) (s : IsSound w.fs) (len : length w.sv_i.sfi_direct ≡ 15) where
  -- A block that is there already.
  pub old-Maps :
      (fileblock b : ℕ)
      → fileblock < 143
      → 0 < b
      → InUse w.fs b
      → tree_block w fileblock ≡ b
      → Maps w w fileblock b
  old-Maps fb b h pos used e = record {
    nonzero = pos;
    sound = s;
    used = used;
    here = e;
    others = λ g k ne. refl;
    found = found_again w fb b s len h used e;
  }

  pub direct-Maps :
      (fb n : ℕ) (m : Bitmap)
      → fb < 15
      → IsHoleOrUsed w.fs w.sv_i.sfi_indirect
      → Takes w.fs n m
      → Maps w (with_direct w fb n m) fb n
  direct-Maps fb n m h ind takes =
      let w' = with_direct w fb n m in
      let len' : length (set w.sv_i.sfi_direct fb n) ≡ 15 =
        length-set w.sv_i.sfi_direct fb n ∙ len in
      let e = tree-direct w' fb h ∙ get_or-set_self w.sv_i.sfi_direct fb n (omega arith) in
      record {
        nonzero = takes.nonzero;
        sound = takes.sound;
        used = new-InUse w.fs n m takes;
        here = e;
        others = λ g k ne. elim (dec_lt g 15) [
          | yes small ↦
              tree-direct w' g small
              ∙ get_or-set_ne w.sv_i.sfi_direct fb g n (λ q. ne (sym q))
              ∙ sym (tree-direct w g small)
          | no big ↦
              tree-single w' g (omega arith) k
              ∙ taken-entry w.fs n m takes w.sv_i.sfi_indirect (g - 15) ind
              ∙ sym (tree-single w g (omega arith) k)
        ];
        found = found_again w' fb n takes.sound len' (omega arith) (new-InUse w.fs n m takes) e;
      }

get_block-new :
    (w : Sv) (n blockno idblock : ℕ) (m : Bitmap) (buf : List ℕ)
    → IsSound (taken w.fs n m)
    → get_elem? buf blockno ≡ some 0
    → sfs_balloc w ≡ returns n (record w { fs = taken w.fs n m })
    → get_block true blockno idblock buf w
      ≡ returns n (record w {
        fs = written (taken w.fs n m) idblock (set buf blockno n);
        sv_i = count_up w.sv_i;
      })
unfolding get_block sfs_wblock
get_block-new w n blockno idblock m buf s e run = rw (e, run, s.writes idblock)

get_block-full :
    (w w' : Sv) (r blockno idblock : ℕ) (buf : List ℕ)
    → get_elem? buf blockno ≡ some 0
    → sfs_balloc w ≡ fails r w'
    → get_block true blockno idblock buf w ≡ fails r w'
unfolding get_block
get_block-full w w' r blockno idblock buf e run = rw (e, run)

-- the vnode after a new block was written into the single indirect block
abbrev pub with_entry : Sv → ℕ → ℕ → Bitmap → Sv
with_entry w i n m = record w {
  fs = written (taken w.fs n m) w.sv_i.sfi_indirect (set (w.fs.disk w.sv_i.sfi_indirect) i n);
  sv_i = count_up w.sv_i;
}

module _ (w : Sv) (s : IsSound w.fs) (len : length w.sv_i.sfi_direct ≡ 15)
    (ind : InUse w.fs w.sv_i.sfi_indirect) (pos : 0 < w.sv_i.sfi_indirect) where
  entry-Maps :
      (i n : ℕ) (m : Bitmap) → i < 128 → Takes w.fs n m → Maps w (with_entry w i n m) (i + 15) n
  entry-Maps i n m h takes =
      let id : ℕ = w.sv_i.sfi_indirect in
      let w' = with_entry w i n m in
      let words : List ℕ = set (w.fs.disk id) i n in
      let len' : length words ≡ 128 = length-set (w.fs.disk id) i n ∙ s.full id in
      let sound' = written-IsSound (taken w.fs n m) id words takes.sound len' in
      let new = new-InUse w.fs n m takes in
      let used' : InUse w'.fs n = record { on_disk = new.on_disk; marked = new.marked } in
      let at : (j : ℕ) → entry w'.fs id j ≡ get_or words j 0 = λ j.
        entry_pos w'.fs id j pos
        ∙ ap (λ l. get_or l j 0) (write_at_self (taken w.fs n m).disk id words) in
      let k : i + 15 - 15 ≡ i = omega arith in
      let e : tree_block w' (i + 15) ≡ n =
        tree-single w' (i + 15) (omega arith) (omega arith)
        ∙ at (i + 15 - 15)
        ∙ ap (λ j. get_or words j 0) k
        ∙ get_or-set_self (w.fs.disk id) i n (omega (arith, s.full id)) in
      record {
        nonzero = takes.nonzero;
        sound = sound';
        used = used';
        here = e;
        others = λ g small ne. elim (dec_lt g 15) [
          | yes direct ↦ tree-direct w' g direct ∙ sym (tree-direct w g direct)
          | no behind ↦
              tree-single w' g (omega arith) small
              ∙ at (g - 15)
              ∙ get_or-set_ne (w.fs.disk id) i (g - 15) n (λ q. ne (omega arith))
              ∙ sym (entry_pos w.fs id (g - 15) pos)
              ∙ sym (tree-single w g (omega arith) small)
        ];
        found = found_again w' (i + 15) n sound' len (omega arith) used' e;
      }

  -- Once the indirect block is there: the entry is used, or made.
  pub entry_call :
      (i : ℕ)
      → i < 128
      → IsHoleOrUsed w.fs (entry w.fs w.sv_i.sfi_indirect i)
      → ((b : ℕ) × (w' : Sv) × (get_block true i w.sv_i.sfi_indirect
              (w.fs.disk w.sv_i.sfi_indirect)
              w
            ≡ returns b w')
          × Maps w w' (i + 15) b)
        ⊎ (get_block true i w.sv_i.sfi_indirect (w.fs.disk w.sv_i.sfi_indirect) w ≡ fails enospc w)
  entry_call i h good =
      let id : ℕ = w.sv_i.sfi_indirect in
      let get : get_elem? (w.fs.disk id) i ≡ some (entry w.fs id i) =
        get_elem?-get_or (w.fs.disk id) i (omega (arith, s.full id))
        ∙ ap some (sym (entry_pos w.fs id i pos)) in
      elim (dec_lt 0 (entry w.fs id i)) [
        | yes there ↦
            let k : i + 15 - 15 ≡ i = omega arith in
            let used : InUse w.fs (entry w.fs id i) = elim good [
              | inl hole ↦ absurd (omega arith)
              | inr used ↦ used
            ] in
            inl (
              entry w.fs id i,
              w,
              get_block-old w true i id (w.fs.disk id) (entry w.fs id i) get
                  (not_zero (entry w.fs id i) true there),
              old-Maps w s len (i + 15) (entry w.fs id i) (omega arith) there used
                  (tree-single w (i + 15) (omega arith) (omega arith) ∙ ap (entry w.fs id) k),
            )
        | no hole ↦
            let zero_here : get_elem? (w.fs.disk id) i ≡ some 0 = get ∙ ap some (omega arith) in
            elim (sfs_balloc_lem w s) [
              | inl (n, m, run, takes) ↦ inl (
                n,
                with_entry w i n m,
                get_block-new w n i id m (w.fs.disk id) takes.sound zero_here run,
                entry-Maps i n m h takes,
              )
              | inr (run, all) ↦ inr (get_block-full w w enospc i id (w.fs.disk id) zero_here run)
            ]
      ]
