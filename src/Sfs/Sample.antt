-- ===== src/Sfs/Sample.antt =====
-- A small disk of ten blocks, of which the first two are in use, and an empty inode.
use cse_9201_os.Common.{◌≡◌, refl, true, false, done, replicate, arith}
use cse_9201_os.Bitmap.Sample.{ten, ten-IsValid}
use cse_9201_os.Sfs.{Inode, Fs, Sv, sfs_rwblock, rwblock_loop, zeros_block}
use cse_9201_os.Sfs.Space.{IsSound, InUse}

abbrev pub small_fs : Fs
small_fs = record {
  sp_nblocks = 10;
  sfs_freemap = ten;
  sfs_freemapdirty = false;
  disk = λ b. zeros_block;
  d_io = λ write block tries. 0;
}

works : sfs_rwblock (λ tries. 0) ≡ done 0
unfolding sfs_rwblock rwblock_loop
works = refl

pub small_fs-IsSound : IsSound small_fs
small_fs-IsSound = record {
  freemap = ten-IsValid;
  covers = omega arith;
  super = refl;
  beyond = ten-IsValid.leftover;
  full = λ b. refl;
  reads = λ b. works;
  writes = λ b. works;
}

pub one-InUse : InUse small_fs 1
one-InUse = record { on_disk = omega arith; marked = refl }

abbrev pub empty_inode : Inode
empty_inode = record {
  sfi_size = 0;
  sfi_type = 1;
  sfi_linkcount = 1;
  sfi_direct = replicate 15 0;
  sfi_indirect = 0;
  sfi_doubleindirect = 0;
  sfi_tripleindirect = 0;
  sfi_waste = replicate 107 0;
  sfi_blocks = 0;
}

abbrev pub file_of : Inode → Sv
file_of i = record { fs = small_fs; sv_i = i; sv_ino = 1; sv_dirty = true }
