-- ===== src/Sfs/Bmap.antt =====
-- `sfs_bmap` of assignment3/ownSolution/sfs_vnode.c: from a block of a file to a block of the disk.
-- The variables that its two inner functions share are arguments and results: `idblevel`, `idblock`,
-- `blockbuf` and `block`.
pub mod Steps
pub mod Read
pub mod Faults
pub mod Alloc
pub mod RoundTrip
pub mod There
use cse_9201_os.Common.{
  ℕ, zero, suc, ◌+◌, ◌-◌, ◌*◌, ◌/◌, ◌%◌, ◌^◌, Bool, true, false, not, List, Option, none, some, set,
  get_elem?, ltb, leb, ◌==◌, ◌&&◌, ◌||◌, if◌then◌else◌, Res, in_bounds, store,
}
use cse_9201_os.Common.Calls.{
  Call, pure, fail, panic!, lift, get_state, set_state, modify, ◌>>=◌, ◌>>◌,
}
use cse_9201_os.Common.Errno.{einval}
use cse_9201_os.Sfs.{
  Inode, Sv, sfs_ndirect, zeros_block, sfs_rblock, sfs_wblock, sfs_balloc, sfs_bused, count_up,
}

-- SFS_DBPERIDB, its square and its cube
abbrev pub ids : ℕ
ids = 128

abbrev pub ids² : ℕ
ids² = 16384

abbrev pub ids³ : ℕ
ids³ = 2097152

-- `loadbuffer` on a new block `block`: what it remembers in the inode
abbrev pub remember : ℕ → ℕ → ℕ → Inode → Inode
remember block level idblevel i =
    if level == 0
    then (if idblevel == 1
        then record i { sfi_indirect = block }
        else if idblevel == 2
        then record i { sfi_doubleindirect = block }
        else if idblevel == 3
        then record i { sfi_tripleindirect = block }
        else i)
    else i

-- the inner function `loadbuffer`: the new `idblock` and `blockbuf`
pub loadbuffer : ℕ → ℕ → ℕ → ℕ → Call Sv (ℕ × List ℕ)
loadbuffer block level idblevel idblock =
    if block == 0
    then (do
      block' ← sfs_balloc
      modify
          λ w. record w { sv_i = remember block' level idblevel (count_up w.sv_i); sv_dirty = true }
      pure (block', zeros_block))
    else (do blockbuf ← sfs_rblock block; pure (idblock, blockbuf))

-- the inner function `get_block`: the new `block`
pub get_block : Bool → ℕ → ℕ → List ℕ → Call Sv ℕ
get_block doalloc blockno idblock blockbuf = do
  block ← lift (in_bounds (get_elem? blockbuf blockno))
  let allocate = (do
    block' ← sfs_balloc
    modify λ w. record w { sv_i = count_up w.sv_i }
    sfs_wblock (set blockbuf blockno block') idblock
    pure block')
  if block == 0 && doalloc then allocate else pure block

-- the check before a block is handed back
pub hand_back : ℕ → Call Sv ℕ
hand_back block =
    if block == 0
    then pure 0
    else (do used ← sfs_bused block; if used == 0 then panic! else pure block)

-- a block among the direct ones
pub bmap_direct : Bool → ℕ → Call Sv ℕ
unfolding hand_back
bmap_direct doalloc fileblock = do
  w ← get_state
  block ← lift (in_bounds (get_elem? w.sv_i.sfi_direct fileblock))
  let allocate = (do
    new ← sfs_balloc
    w' ← get_state
    direct ← lift (store w'.sv_i.sfi_direct fileblock new)
    let i = count_up w'.sv_i
    set_state (record w' { sv_i = record i { sfi_direct = direct }; sv_dirty = true })
    pure new)
  block' ← if block == 0 && doalloc then allocate else pure block
  hand_back block'

-- One step down: the block at `blockno` is an indirect block, which is loaded.
pub next_level : Bool → ℕ → ℕ → ℕ → List ℕ → Call Sv (ℕ × List ℕ)
unfolding get_block loadbuffer
next_level doalloc idblevel blockno idblock blockbuf = do
  block ← get_block doalloc blockno idblock blockbuf
  loadbuffer block 1 idblevel block

-- `idblevel`, the `fileblock` left, and `idblock`, from the number of the block behind the direct ones
abbrev pub bmap_level : Inode → ℕ → ℕ × ℕ × ℕ
bmap_level i fileblock =
    if leb (ids² + ids) fileblock
    then (3, fileblock - (ids² - ids), i.sfi_tripleindirect)
    else if leb ids fileblock
    then (2, fileblock - ids, i.sfi_doubleindirect)
    else (1, fileblock, i.sfi_indirect)

-- the blocks behind the loaded block of level 0
pub bmap_walk : Bool → ℕ → ℕ → ℕ → List ℕ → Call Sv ℕ
unfolding get_block next_level
bmap_walk doalloc idblevel fileblock idblock blockbuf =
    if idblevel == 1
    then get_block doalloc (fileblock % ids) idblock blockbuf
    else if idblevel == 2
    then (do
      (idblock', blockbuf') ← next_level doalloc 2 (fileblock / ids) idblock blockbuf
      get_block doalloc (fileblock % ids) idblock' blockbuf')
    else (do
      (idblock', blockbuf') ← next_level doalloc 3 (fileblock / ids²) idblock blockbuf
      (idblock'', blockbuf'') ← next_level doalloc 3 (fileblock / ids) idblock' blockbuf'
      get_block doalloc (fileblock % ids) idblock'' blockbuf'')

pub bmap_indirect : Bool → ℕ → ℕ → ℕ → Call Sv ℕ
unfolding loadbuffer bmap_walk hand_back
bmap_indirect doalloc idblevel fileblock idblock =
    if idblock == 0 && not doalloc then pure 0 else (do
      (idblock', blockbuf) ← loadbuffer idblock 0 idblevel idblock
      block ← bmap_walk doalloc idblevel fileblock idblock' blockbuf
      hand_back block)

pub sfs_bmap : Bool → ℕ → Call Sv ℕ
unfolding bmap_direct bmap_indirect
sfs_bmap doalloc fileblock =
    if ltb fileblock sfs_ndirect
    then bmap_direct doalloc fileblock
    else if ltb 0 ((fileblock - sfs_ndirect) / (ids + ids² + ids³))
    then fail einval
    else (do
      w ← get_state
      let (idblevel, left, idblock) = bmap_level w.sv_i (fileblock - sfs_ndirect)
      bmap_indirect doalloc idblevel left idblock)
