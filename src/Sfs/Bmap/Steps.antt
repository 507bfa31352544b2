-- ===== src/Sfs/Bmap/Steps.antt =====
-- The parts of `sfs_bmap`, as equations.
use cse_9201_os.Common.{
  ℕ, zero, suc, ◌-◌, ◌/◌, ◌%◌, ◌≤◌, ◌<◌, ◌≡◌, refl, Bool, true, false, not, ◌&&◌, List, [], ◌∷◌,
  none, some, get_elem?, length, arith, lt→ltb, le→ltb_false, le→leb, lt→leb_false, ◌==◌,
  ne→==_false, get_or,
}
use cse_9201_os.Common.Calls.{returns, fails, undef}
use cse_9201_os.Common.Errno.{einval}
use cse_9201_os.Sfs.{Sv}
use cse_9201_os.Sfs.Space.{IsSound, InUse, rblock_lem, bused_lem}
use cse_9201_os.Sfs.Bmap.{
  loadbuffer, get_block, hand_back, bmap_direct, next_level, bmap_walk, bmap_indirect, sfs_bmap,
}

pub get_elem?-get_or : (l : List ℕ) (i : ℕ) → i < length l → get_elem? l i ≡ some (get_or l i 0)
get_elem?-get_or [] i h = absurd (omega arith)
get_elem?-get_or (x ∷ l) zero h = refl
get_elem?-get_or (x ∷ l) (suc i) h = get_elem?-get_or l i (omega arith)

-- which case of `sfs_bmap` a block of the file is in
module _ (doalloc : Bool) (fileblock : ℕ) (w : Sv) where
  pub bmap-at_direct :
      fileblock < 15 → sfs_bmap doalloc fileblock w ≡ bmap_direct doalloc fileblock w
  unfolding sfs_bmap
  bmap-at_direct h = rw (lt→ltb fileblock 15 h)

  pub bmap-at_single :
      15 ≤ fileblock
      → fileblock < 143
      → sfs_bmap doalloc fileblock w
        ≡ bmap_indirect doalloc 1 (fileblock - 15) w.sv_i.sfi_indirect w
  unfolding sfs_bmap
  bmap-at_single h k = rw (
    le→ltb_false fileblock 15 h,
    le→ltb_false 0 ((fileblock - 15) / 2113664) (omega arith),
    lt→leb_false 16512 (fileblock - 15) (omega arith),
    lt→leb_false 128 (fileblock - 15) (omega arith),
  )

  pub bmap-at_double :
      143 ≤ fileblock
      → fileblock < 16527
      → sfs_bmap doalloc fileblock w
        ≡ bmap_indirect doalloc 2 (fileblock - 143) w.sv_i.sfi_doubleindirect w
  unfolding sfs_bmap
  bmap-at_double h k =
      let e : fileblock - 15 - 128 ≡ fileblock - 143 = omega arith in
      rw (
        le→ltb_false fileblock 15 (omega arith),
        le→ltb_false 0 ((fileblock - 15) / 2113664) (omega arith),
        lt→leb_false 16512 (fileblock - 15) (omega arith),
        le→leb 128 (fileblock - 15) (omega arith),
        e,
      )

  pub bmap-at_triple :
      16527 ≤ fileblock
      → fileblock < 2113679
      → sfs_bmap doalloc fileblock w
        ≡ bmap_indirect doalloc 3 (fileblock - 16271) w.sv_i.sfi_tripleindirect w
  unfolding sfs_bmap
  bmap-at_triple h k =
      let e : fileblock - 15 - 16256 ≡ fileblock - 16271 = omega arith in
      rw (
        le→ltb_false fileblock 15 (omega arith),
        le→ltb_false 0 ((fileblock - 15) / 2113664) (omega arith),
        le→leb 16512 (fileblock - 15) (omega arith),
        e,
      )

  pub bmap-too_far : 2113679 ≤ fileblock → sfs_bmap doalloc fileblock w ≡ fails einval w
  unfolding sfs_bmap
  bmap-too_far h =
      rw (
        le→ltb_false fileblock 15 (omega arith),
        lt→ltb 0 ((fileblock - 15) / 2113664) (omega arith),
      )

module _ (w : Sv) where
  pub hand_back-zero : hand_back 0 w ≡ returns 0 w
  unfolding hand_back
  hand_back-zero = refl

  pub hand_back-used : (b : ℕ) → IsSound w.fs → InUse w.fs b → hand_back b w ≡ returns b w
  unfolding hand_back
  hand_back-used zero s used = refl
  hand_back-used (suc b) s used =
      let (u, run, nonzero) = bused_lem w s (suc b) used in
      rw (ne→==_false (suc b) 0 (omega arith), run, nonzero)

  pub get_block-old :
      (doalloc : Bool) (blockno idblock : ℕ) (buf : List ℕ) (b : ℕ)
      → get_elem? buf blockno ≡ some b
      → (b == 0 && doalloc) ≡ false
      → get_block doalloc blockno idblock buf w ≡ returns b w
  unfolding get_block
  get_block-old doalloc blockno idblock buf b e h = rw (e, h)

  pub get_block-outside :
      (doalloc : Bool) (blockno idblock : ℕ) (buf : List ℕ)
      → get_elem? buf blockno ≡ none
      → get_block doalloc blockno idblock buf w ≡ undef
  unfolding get_block
  get_block-outside doalloc blockno idblock buf e = rw e

  pub loadbuffer-old :
      (b level idblevel idblock : ℕ)
      → IsSound w.fs
      → 0 < b
      → loadbuffer b level idblevel idblock w ≡ returns (idblock, w.fs.disk b) w
  unfolding loadbuffer
  loadbuffer-old b level idblevel idblock s h = rw (ne→==_false b 0 (omega arith), rblock_lem w s b)

-- a call of `sfs_bmap` on an indirect block, from what its parts do
module _ (doalloc : Bool) (level left idblock : ℕ) (w : Sv) where
  pub indirect-hole :
      (idblock == 0 && not doalloc) ≡ true
      → bmap_indirect doalloc level left idblock w ≡ returns 0 w
  unfolding bmap_indirect
  indirect-hole e = rw e

  pub indirect-returns :
      (id' : ℕ) (buf : List ℕ) (b : ℕ) (w' w'' : Sv)
      → (idblock == 0 && not doalloc) ≡ false
      → loadbuffer idblock 0 level idblock w ≡ returns (id', buf) w'
      → bmap_walk doalloc level left id' buf w' ≡ returns b w''
      → hand_back b w'' ≡ returns b w''
      → bmap_indirect doalloc level left idblock w ≡ returns b w''
  unfolding bmap_indirect
  indirect-returns id' buf b w' w'' e load walk hand = rw (e, load, walk, hand)

  pub indirect-load_fails :
      (r : ℕ) (w' : Sv)
      → (idblock == 0 && not doalloc) ≡ false
      → loadbuffer idblock 0 level idblock w ≡ fails r w'
      → bmap_indirect doalloc level left idblock w ≡ fails r w'
  unfolding bmap_indirect
  indirect-load_fails r w' e load = rw (e, load)

  pub indirect-walk_ends :
      (id' : ℕ) (buf : List ℕ) (w' : Sv)
      → (idblock == 0 && not doalloc) ≡ false
      → loadbuffer idblock 0 level idblock w ≡ returns (id', buf) w'
      → (bmap_walk doalloc level left id' buf w' ≡ undef
          → bmap_indirect doalloc level left idblock w ≡ undef)
        × ((r : ℕ) (w'' : Sv)
            → bmap_walk doalloc level left id' buf w' ≡ fails r w''
            → bmap_indirect doalloc level left idblock w ≡ fails r w'')
  unfolding bmap_indirect
  indirect-walk_ends id' buf w' e load =
      (λ walk. rw (e, load, walk), λ r w'' walk. rw (e, load, walk))

module _ (doalloc : Bool) (left idblock : ℕ) (buf : List ℕ) (w : Sv) where
  pub walk-single :
      bmap_walk doalloc 1 left idblock buf w ≡ get_block doalloc (left % 128) idblock buf w
  unfolding bmap_walk
  walk-single = refl

  pub walk-double :
      (id' : ℕ) (buf' : List ℕ) (w' : Sv)
      → next_level doalloc 2 (left / 128) idblock buf w ≡ returns (id', buf') w'
      → bmap_walk doalloc 2 left idblock buf w ≡ get_block doalloc (left % 128) id' buf' w'
  unfolding bmap_walk
  walk-double id' buf' w' e = rw e

  pub walk-triple_outside :
      next_level doalloc 3 (left / 16384) idblock buf w ≡ undef
      → bmap_walk doalloc 3 left idblock buf w ≡ undef
  unfolding bmap_walk
  walk-triple_outside e = rw e

  pub walk-triple_second :
      (id' : ℕ) (buf' : List ℕ) (w' : Sv)
      → next_level doalloc 3 (left / 16384) idblock buf w ≡ returns (id', buf') w'
      → next_level doalloc 3 (left / 128) id' buf' w' ≡ undef
      → bmap_walk doalloc 3 left idblock buf w ≡ undef
  unfolding bmap_walk
  walk-triple_second id' buf' w' e e' = rw (e, e')

module _ (doalloc : Bool) (level blockno idblock : ℕ) (buf : List ℕ) (w : Sv) where
  pub next_level-returns :
      (b : ℕ) (r : ℕ × List ℕ) (w' w'' : Sv)
      → get_block doalloc blockno idblock buf w ≡ returns b w'
      → loadbuffer b 1 level b w' ≡ returns r w''
      → next_level doalloc level blockno idblock buf w ≡ returns r w''
  unfolding next_level
  next_level-returns b r w' w'' get load = rw (get, load)

  pub next_level-outside :
      get_elem? buf blockno ≡ none → next_level doalloc level blockno idblock buf w ≡ undef
  unfolding next_level
  next_level-outside e = rw (get_block-outside w doalloc blockno idblock buf e)

-- a direct block that is there, or that is a hole
pub direct-old :
    (doalloc : Bool) (fileblock b : ℕ) (w : Sv)
    → get_elem? w.sv_i.sfi_direct fileblock ≡ some b
    → (b == 0 && doalloc) ≡ false
    → hand_back b w ≡ returns b w
    → bmap_direct doalloc fileblock w ≡ returns b w
unfolding bmap_direct
direct-old doalloc fileblock b w e h hand = rw (e, h, hand)
