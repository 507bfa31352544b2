-- ===== src/Sfs/Sync.antt =====
-- `sfs_sync_inode` of sfs_vnode.c, which writes the struct `sv_i` as it stands in memory: `inode_words`
-- is what these bytes are as the 128 words of a block. The processor is big-endian, so of the two
-- halves of a word the first is the high one.
use cse_9201_os.Common.{ℕ, ◌+◌, ◌*◌, false, List, [], ◌∷◌, ◌++◌, if◌then◌else◌}
use cse_9201_os.Common.Calls.{Call, pure, get_state, modify, ◌>>=◌, ◌>>◌}
use cse_9201_os.Sfs.{Inode, Sv, sfs_wblock}

-- the bytes of a `struct sfs_inode` as words
abbrev pub inode_words : Inode → List ℕ
inode_words i =
    i.sfi_size
    ∷ (i.sfi_type * 65536 + i.sfi_linkcount)
    ∷ (i.sfi_direct
        ++ (i.sfi_indirect
            ∷ i.sfi_doubleindirect
            ∷ i.sfi_tripleindirect
            ∷ (i.sfi_waste ++ (i.sfi_blocks ∷ []))))

pub sfs_sync_inode : Call Sv (Unit {0})
sfs_sync_inode = do
  w ← get_state
  let write = (do
    sfs_wblock (inode_words w.sv_i) w.sv_ino
    modify λ w'. record w' { sv_dirty = false })
  if w.sv_dirty then write else pure tt
