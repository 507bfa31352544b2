-- ===== src/Sfs/Dir/Tests.antt =====
-- The theorems on directories at one of two free slots, on a small disk.
use cse_9201_os.Common.{
  ℕ, zero, suc, ◌<◌, ◌≡◌, refl, ◌∙◌, ◌≢◌, [], ◌∷◌, none, replicate, get_or, inl, inr, arith, dec_lt,
}
use cse_9201_os.Common.Calls.{returns}
use cse_9201_os.Uio.{Uio, mk_kuio, uio_read}
use cse_9201_os.Sfs.{Sv}
use cse_9201_os.Sfs.Sample.{small_fs, small_fs-IsSound, one-InUse, empty_inode, file_of}
use cse_9201_os.Sfs.Bmap.Read.{tree_block, IsHoleOrUsed}
use cse_9201_os.Sfs.Bmap.Alloc.{tree-direct, tree-single, get_or-zeros}
use cse_9201_os.Sfs.Io.{Machine, Memory}
use cse_9201_os.Sfs.Dir.{sfs_dir_findname, sfs_dir_link, sfs_dir_unlink}
use cse_9201_os.Sfs.Dir.Entries.{entry_ino}
use cse_9201_os.Sfs.Dir.Find.{
  found_in, nothing_found, IsSmallFile, slots_of, free_slots, last_slot, outcome,
  sfs_dir_findname_lem,
}
use cse_9201_os.Sfs.Dir.Change.{IsOwn}
use cse_9201_os.Sfs.Dir.Links.{without, freed_slots}
use cse_9201_os.Sfs.Dir.RoundTrip.{
  IsDirectory, dir_world, hit_at, search_in, sfs_dir_unlink_lem, link-findname,
}

abbrev machine : Machine
machine = record {
  iobuf = 1000;
  d_buf = 2000;
  zeros_at = 3000;
  t_vmspace = none;
  copyout = λ mem ptr addr n. (0, mem);
  copyin = λ mem ptr addr n. (0, mem);
}

-- a directory of two slots in block 1
abbrev two_slots : Sv
two_slots =
    file_of (record empty_inode { sfi_type = 2; sfi_size = 128; sfi_direct = 1 ∷ replicate 14 0 })

other_hole : (h : ℕ) → h < 142 → tree_block two_slots (suc h) ≡ 0
other_hole h lt = elim (dec_lt (suc h) 15) [
  | yes direct ↦ tree-direct two_slots (suc h) direct ∙ get_or-zeros 14 h
  | no behind ↦ tree-single two_slots (suc h) (omega arith) (omega arith)
]

two_slots-blocks : (h : ℕ) → h < 143 → IsHoleOrUsed small_fs (tree_block two_slots h)
two_slots-blocks zero lt = inr one-InUse
two_slots-blocks (suc h) lt = inl (other_hole h (omega arith))

two_slots-IsSmallFile : IsSmallFile two_slots
two_slots-IsSmallFile = record {
  sound = small_fs-IsSound;
  direct = refl;
  fits = omega arith;
  blocks = two_slots-blocks;
}

only_first : (h : ℕ) → h < 143 → h ≢ 0 → tree_block two_slots h ≢ 1
only_first zero lt ne = absurd (ne refl)
only_first (suc h) lt ne = λ e. absurd (omega (arith, other_hole h (omega arith)))

first-IsOwn : IsOwn two_slots 0
first-IsOwn = record {
  there = omega arith;
  in_use = one-InUse;
  no_indirect = omega arith;
  only_here = only_first;
}

two_slots-IsDirectory : IsDirectory machine two_slots 100 2
two_slots-IsDirectory = record {
  file = two_slots-IsSmallFile;
  is_dir = refl;
  size = refl;
  apart = inl (omega arith);
}

abbrev memory : Memory
memory a = 0

abbrev some_uio : Uio
unfolding mk_kuio
some_uio = mk_kuio 0 0 0 uio_read

sfs_dir_findname_lem_example :
    (m : Memory) × (u : Uio) × (sfs_dir_findname machine 100
        (97 ∷ [])
        (dir_world two_slots memory some_uio)
      ≡ outcome
          (search_in two_slots (slots_of two_slots (97 ∷ []) 2 0) 2)
          (dir_world two_slots m u))
sfs_dir_findname_lem_example =
    sfs_dir_findname_lem machine two_slots two_slots-IsSmallFile 100 (97 ∷ []) 2 memory some_uio
      refl refl

sfs_dir_unlink_lem_example :
    (v' : Sv) × (m m' : Memory) × (u u' : Uio) × (sfs_dir_unlink machine 100 1
        (dir_world two_slots memory some_uio)
      ≡ returns tt (dir_world v' m u))
    × IsDirectory machine v' 100 2
    × (entry_ino v' 1 ≡ 0)
    × (sfs_dir_findname machine 100 (97 ∷ []) (dir_world v' m u)
        ≡ outcome
            (found_in two_slots nothing_found
              (without 1 (slots_of two_slots (97 ∷ []) 2 0))
              (freed_slots two_slots 1 2 0))
            (dir_world v' m' u'))
sfs_dir_unlink_lem_example =
    sfs_dir_unlink_lem machine two_slots 100 2 two_slots-IsDirectory memory some_uio 1 (omega arith)
      first-IsOwn (97 ∷ [])

name_pos : (q : ℕ) → q < 2 → 0 < get_or {A = ℕ} (97 ∷ 98 ∷ []) q 0
name_pos zero h = omega arith
name_pos (suc zero) h = omega arith
name_pos (suc (suc q)) h = absurd (omega arith)

name_bytes : (q : ℕ) → get_or {A = ℕ} (97 ∷ 98 ∷ []) q 0 < 256
name_bytes zero = omega arith
name_bytes (suc zero) = omega arith
name_bytes (suc (suc q)) = omega arith

link-findname_example :
    (v' : Sv) × (m m' : Memory) × (u u' : Uio) × (sfs_dir_link machine 100
        (97 ∷ 98 ∷ [])
        7
        (dir_world two_slots memory some_uio)
      ≡ returns 1 (dir_world v' m u))
    × IsDirectory machine v' 100 2
    × (sfs_dir_findname machine 100 (97 ∷ 98 ∷ []) (dir_world v' m u)
        ≡ returns (hit_at 7 1 (last_slot none (free_slots v' 2 0))) (dir_world v' m' u'))
link-findname_example =
    link-findname machine two_slots 100 2 two_slots-IsDirectory memory some_uio 1 (omega arith)
      first-IsOwn (97 ∷ 98 ∷ []) 7
      (record { short = omega arith; nonzero = name_pos; bytes = name_bytes }) (omega arith)
      (omega arith) refl refl
