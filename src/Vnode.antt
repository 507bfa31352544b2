-- ===== src/Vnode.antt =====
-- completeCode/os_161/src/kern/fs/vfs/vnode.c and include/vnode.h: the counts of an abstract vnode.
-- `O`, `F` and `D` are the pointers to its operations, its file system and its data. What a function
-- does between `lock_acquire` and `lock_release` is one step; `VOP_RECLAIM` and `VOP_CLOSE` come
-- behind it, and a function tells whether it calls them.
pub mod Counts
mod Tests
use cse_9201_os.Common.{
  ℕ, Bool, true, false, not, ◌&&◌, Option, none, some, if◌then◌else◌, Res, done, panic, undefined,
  ◌>>=◌, ◌>>◌, assert,
}
use cse_9201_os.Common.Int.{ℤ, pos, negsuc, ◌+ℤ◌, ◌-ℤ◌, ltb_ℤ, int_sum}
use cse_9201_os.Common.Errno.{enomem}

-- `struct vnode`; of its lock only whether it is there
pub record Vnode (O F D : Type 0) : Type 0 where
  pub vn_refcount : ℤ
  pub vn_opencount : ℤ
  pub vn_countlock : Bool
  pub vn_fs : Option F
  pub vn_data : Option D
  pub vn_ops : Option O

abbrev pub eq_ℤ : ℤ → ℤ → Bool
eq_ℤ a b = not (ltb_ℤ a b) && not (ltb_ℤ b a)

module _ {O F D : Type 0} where
  -- `lock_made` says whether `lock_create` returned a lock. The error code, and the vnode.
  unfoldable pub vnode_init :
      Vnode O F D → Option O → Option F → Option D → Bool → Res (ℕ × Vnode O F D)
  vnode_init vn none fs fsdata lock_made = panic
  vnode_init vn (some ops) fs fsdata lock_made =
      let counted = record vn {
        vn_ops = some ops;
        vn_refcount = pos 1;
        vn_opencount = pos 0;
        vn_countlock = lock_made;
      } in
      let filled = record counted { vn_fs = fs; vn_data = fsdata } in
      if lock_made then done (0, filled) else done (enomem, counted)

  -- a vnode that `vnode_kill` has cleared
  abbrev pub gone : Vnode O F D
  gone = record {
    vn_refcount = pos 0;
    vn_opencount = pos 0;
    vn_countlock = false;
    vn_fs = none;
    vn_data = none;
    vn_ops = none;
  }

  unfoldable pub vnode_kill : Vnode O F D → Res (Vnode O F D)
  vnode_kill vn = do
    assert (eq_ℤ vn.vn_refcount (pos 1))
    assert (eq_ℤ vn.vn_opencount (pos 0))
    assert vn.vn_countlock
    done gone

  unfoldable pub vnode_incref : Vnode O F D → Res (Vnode O F D)
  unfolding ◌+ℤ◌
  vnode_incref vn = do
    assert vn.vn_countlock
    c ← int_sum (vn.vn_refcount +ℤ pos 1)
    done (record vn { vn_refcount = c })

  -- The first result is `actually_do_it`: whether it calls `VOP_RECLAIM`.
  unfoldable pub vnode_decref : Vnode O F D → Res (Bool × Vnode O F D)
  unfolding ◌-ℤ◌
  vnode_decref vn = do
    assert vn.vn_countlock
    assert (ltb_ℤ (pos 0) vn.vn_refcount)
    let less = record vn { vn_refcount = vn.vn_refcount -ℤ pos 1 }
    if ltb_ℤ (pos 1) vn.vn_refcount then done (false, less) else done (true, vn)

  unfoldable pub vnode_incopen : Vnode O F D → Res (Vnode O F D)
  unfolding ◌+ℤ◌
  vnode_incopen vn = do
    assert vn.vn_countlock
    c ← int_sum (vn.vn_opencount +ℤ pos 1)
    done (record vn { vn_opencount = c })

  -- The first result is whether it calls `VOP_CLOSE`.
  unfoldable pub vnode_decopen : Vnode O F D → Res (Bool × Vnode O F D)
  unfolding ◌-ℤ◌
  vnode_decopen vn = do
    assert vn.vn_countlock
    assert (ltb_ℤ (pos 0) vn.vn_opencount)
    let opencount = vn.vn_opencount -ℤ pos 1
    done (not (ltb_ℤ (pos 0) opencount), record vn { vn_opencount = opencount })

  -- The tests of the counts in `vnode_check`; `reclaiming` says that `opstr` is "reclaim".
  unfoldable pub check_counts : Vnode O F D → Bool → Res (Unit {0})
  check_counts vn reclaiming = do
    assert vn.vn_countlock
    assert (not (ltb_ℤ vn.vn_refcount (pos 0)))
    assert (not (eq_ℤ vn.vn_refcount (pos 0) && not reclaiming))
    assert (not (ltb_ℤ vn.vn_opencount (pos 0)))
