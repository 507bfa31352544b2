-- ===== src/Sfs.antt =====
-- The on-disk file system: assignment3/ownSolution/sfs.h and sfs_vnode.c, and
-- completeCode/os_161/src/kern/fs/sfs/sfs_io.c with its struct sfs_fs.
-- A disk block is a list of 128 words of 32 bits. The device is an argument of the state: `d_io`
-- gives the result of each attempt to read or write a block; a write that succeeds changes the block.
pub mod Space
pub mod Bmap
pub mod Truncate
pub mod Sync
pub mod Io
pub mod Dir
pub mod Sample
mod Tests
use cse_9201_os.Common.{
  ℕ, zero, suc, ◌+◌, ◌-◌, ◌%◌, ◌^◌, Bool, true, false, not, List, Option, none, some, replicate,
  ltb, leb, ◌==◌, ◌&&◌, if◌then◌else◌, Res, done, panic, undefined, diverge,
}
use cse_9201_os.Common.Calls.{
  Call, pure, fail, panic!, lift, get_state, set_state, modify, check, ◌>>=◌, ◌>>◌,
}
use cse_9201_os.Common.Errno.{einval, eio}
use cse_9201_os.Bitmap.{Bitmap, bitmap_alloc, bitmap_unmark, bitmap_isset}

abbrev pub sfs_ndirect : ℕ
sfs_ndirect = 15

abbrev pub sfs_dbperidb : ℕ
sfs_dbperidb = 128

abbrev pub sfs_blocksize : ℕ
sfs_blocksize = 512

-- `struct sfs_inode`
pub record Inode : Type 0 where
  pub sfi_size : ℕ
  pub sfi_type : ℕ
  pub sfi_linkcount : ℕ
  pub sfi_direct : List ℕ
  pub sfi_indirect : ℕ
  pub sfi_doubleindirect : ℕ
  pub sfi_tripleindirect : ℕ
  pub sfi_waste : List ℕ
  pub sfi_blocks : ℕ

-- `struct sfs_fs`, with the device and what is on it
pub record Fs : Type 0 where
  pub sp_nblocks : ℕ
  pub sfs_freemap : Bitmap
  pub sfs_freemapdirty : Bool
  pub disk : ℕ → List ℕ
  pub d_io : Bool → ℕ → ℕ → ℕ

-- a file system and one of its vnodes, `struct sfs_vnode`
pub record Sv : Type 0 where
  pub fs : Fs
  pub sv_i : Inode
  pub sv_ino : ℕ
  pub sv_dirty : Bool

-- The retries of `sfs_rwblock`, with fuel; `attempt` gives the result of each call of `d_io`.
pub rwblock_loop : ℕ → ℕ → (ℕ → ℕ) → Res ℕ
rwblock_loop zero tries attempt = diverge
rwblock_loop (suc fuel) tries attempt =
    let result = attempt tries in
    let retry = rwblock_loop fuel (tries + 1) attempt in
    if result == einval then panic else if result == eio && ltb tries 10 then retry else done result

pub sfs_rwblock : (ℕ → ℕ) → Res ℕ
unfolding rwblock_loop
sfs_rwblock attempt = rwblock_loop 11 0 attempt

abbrev pub write_at : (ℕ → List ℕ) → ℕ → List ℕ → ℕ → List ℕ
write_at disk block words b = if b == block then words else disk b

pub sfs_rblock : ℕ → Call Sv (List ℕ)
unfolding sfs_rwblock
sfs_rblock block = do
  w ← get_state
  result ← lift (sfs_rwblock (w.fs.d_io false block))
  check result
  pure (w.fs.disk block)

pub sfs_wblock : List ℕ → ℕ → Call Sv (Unit {0})
unfolding sfs_rwblock
sfs_wblock words block = do
  w ← get_state
  result ← lift (sfs_rwblock (w.fs.d_io true block))
  check result
  set_state (record w { fs = record w.fs { disk = write_at w.fs.disk block words } })

abbrev pub zeros_block : List ℕ
zeros_block = replicate 128 0

unfoldable pub sfs_clearblock : ℕ → Call Sv (Unit {0})
unfolding sfs_wblock
sfs_clearblock block = sfs_wblock zeros_block block

-- the `*diskblock` of a `bitmap_alloc` that returned 0
abbrev pub allocated : Option ℕ → Res ℕ
allocated none = undefined
allocated (some i) = done i

pub sfs_balloc : Call Sv ℕ
unfolding sfs_clearblock sfs_wblock
sfs_balloc = do
  w ← get_state
  r ← lift (bitmap_alloc w.fs.sfs_freemap)
  check r.0
  diskblock ← lift (allocated r.1)
  set_state (record w { fs = record w.fs { sfs_freemap = r.2; sfs_freemapdirty = true } })
  if leb w.fs.sp_nblocks diskblock then panic! else pure tt
  sfs_clearblock diskblock
  pure diskblock

pub sfs_bfree : ℕ → Call Sv (Unit {0})
sfs_bfree diskblock = do
  w ← get_state
  b ← lift (bitmap_unmark w.fs.sfs_freemap diskblock)
  set_state (record w { fs = record w.fs { sfs_freemap = b; sfs_freemapdirty = true } })

pub sfs_bused : ℕ → Call Sv ℕ
sfs_bused diskblock = do
  w ← get_state
  if leb w.fs.sp_nblocks diskblock then panic! else pure tt
  lift (bitmap_isset w.fs.sfs_freemap diskblock)

-- `sfi_blocks++` and `sfi_blocks--` on 32 bits
abbrev pub count_up : Inode → Inode
count_up i = record i { sfi_blocks = (i.sfi_blocks + 1) % 2 ^ 32 }

abbrev pub count_down : Inode → Inode
count_down i = record i { sfi_blocks = (i.sfi_blocks + 2 ^ 32 - 1) % 2 ^ 32 }
