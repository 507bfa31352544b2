-- ===== src/Sfs/Truncate.antt =====
-- `sfs_truncate` of assignment3/ownSolution/sfs_vnode.c. A length is not negative.
use cse_9201_os.Common.{
  ℕ, zero, suc, ◌+◌, ◌-◌, ◌/◌, ◌^◌, Bool, true, false, not, List, set, get_elem?, ltb, leb, ◌==◌,
  ◌&&◌, ◌||◌, if◌then◌else◌, Res, done, undefined, in_bounds, store,
}
use cse_9201_os.Common.Calls.{Call, pure, lift, get_state, set_state, modify, ◌>>=◌, ◌>>◌}
use cse_9201_os.Sfs.{
  Inode, Sv, sfs_ndirect, sfs_dbperidb, sfs_rblock, sfs_wblock, sfs_bfree, count_down,
}

-- the loop over the direct blocks, for `n` more values of `i`
pub truncate_direct : ℕ → ℕ → ℕ → Call Sv (Unit {0})
truncate_direct zero i blocklen = pure tt
truncate_direct (suc n) i blocklen = do
  w ← get_state
  block ← lift (in_bounds (get_elem? w.sv_i.sfi_direct i))
  let discard = (do
    sfs_bfree block
    w' ← get_state
    direct ← lift (store w'.sv_i.sfi_direct i 0)
    let inode = count_down w'.sv_i
    set_state (record w' { sv_i = record inode { sfi_direct = direct }; sv_dirty = true }))
  if leb blocklen i && not (block == 0) then discard else pure tt
  truncate_direct n (i + 1) blocklen

-- The loop over the entries of the indirect block, for `n` more values of `j`: the entries, whether
-- one is not 0, and whether one was changed.
pub truncate_entries : ℕ → ℕ → ℕ → List ℕ → Bool → Bool → Call Sv (List ℕ × Bool × Bool)
truncate_entries zero j blocklen idbuf hasnonzero iddirty = pure (idbuf, hasnonzero, iddirty)
truncate_entries (suc n) j blocklen idbuf hasnonzero iddirty = do
  block ← lift (in_bounds (get_elem? idbuf j))
  let cut = ltb blocklen (sfs_ndirect + j) && not (block == 0)
  let discard = (do sfs_bfree block; modify λ w. record w { sv_i = count_down w.sv_i })
  if cut then discard else pure tt
  truncate_entries n (j + 1) blocklen (if cut then set idbuf j 0 else idbuf)
      (hasnonzero || not (cut || block == 0)) (iddirty || cut)

abbrev pub drop_double : Inode → Inode
drop_double i =
    if i.sfi_doubleindirect == 0 then i else record (count_down i) { sfi_doubleindirect = 0 }

abbrev pub drop_triple : Inode → Inode
drop_triple i =
    if i.sfi_tripleindirect == 0 then i else record (count_down i) { sfi_tripleindirect = 0 }

-- the inode when the indirect block is empty and was freed
abbrev pub without_indirect : Inode → Inode
without_indirect i = drop_triple (drop_double (record (count_down i) { sfi_indirect = 0 }))

pub truncate_indirect : ℕ → ℕ → Call Sv (Unit {0})
unfolding truncate_entries
truncate_indirect blocklen idblock = do
  idbuf ← sfs_rblock idblock
  (idbuf', hasnonzero, iddirty) ← truncate_entries sfs_dbperidb 0 blocklen idbuf false false
  let discard = (do
    sfs_bfree idblock
    modify λ w. record w { sv_i = without_indirect w.sv_i; sv_dirty = true })
  let write_back = if iddirty then sfs_wblock idbuf' idblock else pure tt
  if hasnonzero then write_back else discard

-- `DIVROUNDUP(len, SFS_BLOCKSIZE)` on an `off_t`
abbrev pub length_in_blocks : ℕ → Res ℕ
length_in_blocks len = if ltb (len + 511) (2 ^ 31) then done ((len + 511) / 512) else undefined

pub sfs_truncate : ℕ → Call Sv (Unit {0})
unfolding truncate_direct truncate_indirect
sfs_truncate len = do
  blocklen ← lift (length_in_blocks len)
  truncate_direct sfs_ndirect 0 blocklen
  w ← get_state
  let idblock = w.sv_i.sfi_indirect
  let past_end = ltb blocklen (sfs_ndirect + sfs_dbperidb - 1) && not (idblock == 0)
  if past_end then truncate_indirect blocklen idblock else pure tt
  modify λ w. record w { sv_i = record w.sv_i { sfi_size = len }; sv_dirty = true }
