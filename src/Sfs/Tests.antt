-- ===== src/Sfs/Tests.antt =====
-- The theorems of the file system at a small disk of ten blocks, of which the first two are in use.
use cse_9201_os.Common.{ℕ, ◌≡◌, ◌⊎◌, inl, inr, refl, true, false, ◌∷◌, replicate, arith}
use cse_9201_os.Common.Calls.{returns, fails, undef}
use cse_9201_os.Common.Errno.{enospc}
use cse_9201_os.Bitmap.{Bitmap}
use cse_9201_os.Bitmap.Bits.{bit_at}
use cse_9201_os.Bitmap.Sample.{ten}
use cse_9201_os.Sfs.{Sv, sfs_balloc}
use cse_9201_os.Sfs.Space.{taken, Takes, sfs_balloc_lem}
use cse_9201_os.Sfs.Bmap.{sfs_bmap}
use cse_9201_os.Sfs.Bmap.Read.{sfs_bmap-reads}
use cse_9201_os.Sfs.Bmap.Faults.{leaked, sfs_bmap-leaks, sfs_bmap-triple_outside}
use cse_9201_os.Sfs.Bmap.RoundTrip.{Ends, sfs_bmap-allocates}
use cse_9201_os.Sfs.Sample.{small_fs, small_fs-IsSound, one-InUse, empty_inode, file_of}

abbrev one_block : Sv
one_block = file_of (record empty_inode { sfi_direct = 1 ∷ replicate 14 0 })

abbrev empty_double : Sv
empty_double = file_of (record empty_inode { sfi_doubleindirect = 1 })

abbrev empty_triple : Sv
empty_triple = file_of (record empty_inode { sfi_tripleindirect = 1 })

balloc_run :
    ((n : ℕ) × (m : Bitmap) × (sfs_balloc one_block
        ≡ returns n (record one_block { fs = taken small_fs n m }))
      × Takes small_fs n m)
    ⊎ ((sfs_balloc one_block ≡ fails enospc one_block) × ((i : ℕ) → bit_at ten.v i ≡ true))
balloc_run = sfs_balloc_lem one_block small_fs-IsSound

sfs_bmap-reads_example : sfs_bmap false 0 one_block ≡ returns 1 one_block
sfs_bmap-reads_example =
    sfs_bmap-reads one_block small_fs-IsSound 0 refl (omega arith) (inl (omega arith))
      (inr one-InUse)

sfs_bmap-leaks_example :
    ((n : ℕ) × (m : Bitmap) × (sfs_bmap false 143 empty_double
        ≡ returns 0 (leaked empty_double n m))
      × Takes small_fs n m)
    ⊎ (sfs_bmap false 143 empty_double ≡ fails enospc empty_double)
sfs_bmap-leaks_example =
    sfs_bmap-leaks empty_double small_fs-IsSound 143 (omega arith) (omega arith) (omega arith) refl

sfs_bmap-triple_outside_example : sfs_bmap false 2113423 empty_triple ≡ undef
sfs_bmap-triple_outside_example =
    sfs_bmap-triple_outside empty_triple small_fs-IsSound false 2113423 (omega arith) (omega arith)
      (omega arith) (inl (omega arith))

sfs_bmap-allocates_example : Ends (file_of empty_inode) 15
sfs_bmap-allocates_example =
    sfs_bmap-allocates (file_of empty_inode) small_fs-IsSound refl 15 (omega arith) (inl refl)
      (inl refl)
