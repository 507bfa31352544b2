-- ===== src/Vfs/Paths.antt =====
-- The calls on path names: kern/fs/vfs/vfspath.c.
-- The operations of a vnode that change files are the record `Fileops`, with their results.
pub mod Opens
mod Tests
use cse_9201_os.Common.{
  ℕ, Bool, true, false, List, Option, none, some, ◌==◌, ◌||◌, if◌then◌else◌, leb, bit_and,
}
use cse_9201_os.Common.Calls.{Call, pure, fail, check, ◌>>=◌, ◌>>◌}
use cse_9201_os.Common.Errno.{einval, exdev}
use cse_9201_os.Vfs.{Vfs, vop_decref, vop_incopen, vop_decopen, Fsops, vop}
use cse_9201_os.Vfs.Lookup.{Vnops, or_decref, vfs_lookup, vfs_lookparent}

abbrev pub o_creat : ℕ
o_creat = 4

abbrev pub o_excl : ℕ
o_excl = 8

abbrev pub o_trunc : ℕ
o_trunc = 16

abbrev pub o_accmode : ℕ
o_accmode = 3

-- VOP_CREAT has its result first, then the vnode.
pub record Fileops : Type 0 where
  pub creat : ℕ → List ℕ → Bool → ℕ × ℕ
  pub open_vn : ℕ → ℕ → ℕ
  pub truncate : ℕ → ℕ
  pub remove : ℕ → List ℕ → ℕ
  pub rename : ℕ → List ℕ → ℕ → List ℕ → ℕ
  pub link : ℕ → List ℕ → ℕ → ℕ
  pub symlink : ℕ → List ℕ → List ℕ → ℕ
  pub readlink : ℕ → ℕ
  pub mkdir : ℕ → List ℕ → ℕ
  pub rmdir : ℕ → List ℕ → ℕ

abbrev pub same_fs : Option ℕ → Option ℕ → Bool
same_fs none b = false
same_fs (some a) none = false
same_fs (some a) (some b) = a == b

unfoldable pub vfs_close : ℕ → Call Vfs (Unit {0})
vfs_close vn = vop (vop_decopen vn) >> vop (vop_decref vn)

module _ (files : Fileops) where
  -- what `vfs_open` does with the vnode
  unfoldable pub open_found : ℕ → ℕ → Call Vfs ℕ
  open_found openflags vn = do
    let result = files.open_vn vn openflags
    let truncated = if bit_and openflags o_accmode == 0 then einval else files.truncate vn
    let give_back = vop (vop_decref vn)
    let not_opened = (do give_back; fail result)
    let not_truncated = (do vop (vop_decopen vn); give_back; fail truncated)
    if result == 0 then pure tt else not_opened
    vop (vop_incopen vn)
    if bit_and openflags o_trunc == 0 || truncated == 0 then pure tt else not_truncated
    pure vn

module _ (ops : Fsops) (vnops : Vnops) (files : Fileops) where
  -- the file of a path, made if it is not there
  unfoldable pub create : List ℕ → Bool → Call Vfs ℕ
  create path excl = do
    (dir, name) ← vfs_lookparent ops vnops path
    let (result, vn) = files.creat dir name excl
    vop (vop_decref dir)
    check result
    pure vn

  unfoldable pub vfs_open : List ℕ → ℕ → Call Vfs ℕ
  unfolding create open_found
  vfs_open path openflags = do
    if leb (bit_and openflags o_accmode) 2 then pure tt else fail einval
    vn ←
        if bit_and openflags o_creat == 0
        then vfs_lookup ops vnops path
        else create path (if bit_and openflags o_excl == 0 then false else true)
    open_found files openflags vn

  -- a change of the directory that holds the last name of a path
  unfoldable pub in_parent : List ℕ → (ℕ → List ℕ → ℕ) → Call Vfs (Unit {0})
  in_parent path change = do
    (dir, name) ← vfs_lookparent ops vnops path
    vop (vop_decref dir)
    check (change dir name)

  pub vfs_remove : List ℕ → Call Vfs (Unit {0})
  unfolding in_parent
  vfs_remove path = in_parent path files.remove

  pub vfs_mkdir : List ℕ → Call Vfs (Unit {0})
  unfolding in_parent
  vfs_mkdir path = in_parent path files.mkdir

  pub vfs_rmdir : List ℕ → Call Vfs (Unit {0})
  unfolding in_parent
  vfs_rmdir path = in_parent path files.rmdir

  pub vfs_symlink : List ℕ → List ℕ → Call Vfs (Unit {0})
  unfolding in_parent
  vfs_symlink contents path = in_parent path λ dir name. files.symlink dir name contents

  -- the `uio` of `readlink` is not looked at here
  pub vfs_readlink : List ℕ → Call Vfs (Unit {0})
  vfs_readlink path = do
    vn ← vfs_lookup ops vnops path
    vop (vop_decref vn)
    check (files.readlink vn)

  -- a change of two vnodes of one file system
  unfoldable pub on_both : ℕ → ℕ → ℕ → Call Vfs (Unit {0})
  on_both old new result = do
    let give_back = vop (vop_decref new) >> vop (vop_decref old)
    let apart = (do give_back; fail exdev)
    if same_fs (vnops.vn_fs old) (vnops.vn_fs new) then pure tt else apart
    give_back
    check result

  unfoldable pub vfs_rename : List ℕ → List ℕ → Call Vfs (Unit {0})
  unfolding on_both
  vfs_rename oldpath newpath = do
    (olddir, oldname) ← vfs_lookparent ops vnops oldpath
    (newdir, newname) ← λ w. or_decref olddir (vfs_lookparent ops vnops newpath w)
    on_both olddir newdir (files.rename olddir oldname newdir newname)

  unfoldable pub vfs_link : List ℕ → List ℕ → Call Vfs (Unit {0})
  unfolding on_both
  vfs_link oldpath newpath = do
    oldfile ← vfs_lookup ops vnops oldpath
    (newdir, newname) ← λ w. or_decref oldfile (vfs_lookparent ops vnops newpath w)
    on_both oldfile newdir (files.link newdir newname oldfile)
