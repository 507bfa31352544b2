-- ===== src/Vfs.antt =====
-- The table of named devices: kern/fs/vfs/vfslist.c.
-- Devices, vnodes and file systems are numbers. `knowndevs_lock` is held through each function, so a
-- call is one step and `lock_do_i_hold` holds; no other code has a pointer into the table. The
-- operations of a file system are the record `Fsops`, as they stand behind its table of functions;
-- `calls` lists those that were made, and the VOP_INCREF and VOP_DECREF, latest first.
pub mod Names
pub mod Add
pub mod Mount
pub mod Table
pub mod Steps
pub mod Safe
pub mod Lookup
pub mod Paths
mod Tests
use cse_9201_os.Common.{
  ℕ, zero, suc, ◌+◌, Bool, true, false, not, List, [], ◌∷◌, ◌++◌, set, Option, none, some, ◌==◌,
  ◌&&◌, ◌||◌, if◌then◌else◌,
}
use cse_9201_os.Common.Calls.{Call, pure, fail, panic!, get_state, modify, check, ◌>>=◌, ◌>>◌}
use cse_9201_os.Common.Errno.{einval, enomem, eexist, enxio, enodev, ebusy}
use cse_9201_os.Common.Strings.{same_name}

pub data VfsCall : Type 0 where
  vop_incref vop_decref vop_incopen vop_decopen fsop_sync fsop_unmount : ℕ → VfsCall

pub record Knowndev : Type 0 where
  pub kd_name : List ℕ
  pub kd_rawname : Option (List ℕ)
  pub kd_device : Option ℕ
  pub kd_vnode : ℕ
  pub kd_fs : Option ℕ

-- `t_cwd` is that of the current thread.
pub record Vfs : Type 0 where
  pub knowndevs : List Knowndev
  pub calls : List VfsCall
  pub t_cwd : Option ℕ
  pub bootfs_vnode : Option ℕ

-- FSOP_GETVOLNAME, FSOP_GETROOT, FSOP_SYNC and FSOP_UNMOUNT; the results of the last two may
-- depend on the calls made before
pub record Fsops : Type 0 where
  pub getvolname : ℕ → Option (List ℕ)
  pub getroot : ℕ → ℕ
  pub sync : List VfsCall → ℕ → ℕ
  pub unmount : List VfsCall → ℕ → ℕ

-- Which allocations of `vfs_doadd` succeed, the vnode of `dev_create_vnode`, and the result of
-- `array_add`.
pub record Allocs : Type 0 where
  pub name_ok : Bool
  pub rawname_ok : Bool
  pub vnode : Option ℕ
  pub kd_ok : Bool
  pub added : ℕ

abbrev pub called : VfsCall → Vfs → Vfs
called c w = record w { calls = c ∷ w.calls }

abbrev pub vop : VfsCall → Call Vfs (Unit {0})
vop c = modify (called c)

-- what a pointer refers to, and a return or a panic for NULL
abbrev pub some_or : {A : Type 0} → Option A → Call Vfs A → Call Vfs A
some_or none m = m
some_or (some a) m = pure a

abbrev pub is_some {ℓ} : {A : Type ℓ} → Option A → Bool
is_some none = false
is_some (some a) = true

abbrev pub samestring : Option (List ℕ) → Option (List ℕ) → Bool
samestring none b = false
samestring (some a) none = false
samestring (some a) (some b) = same_name a b

abbrev pub samestring3 : (a b c d : Option (List ℕ)) → Bool
samestring3 a b c d = samestring a b || samestring a c || samestring a d

-- "raw" behind the name
abbrev pub mkrawname : List ℕ → List ℕ
mkrawname name = name ++ (114 ∷ 97 ∷ 119 ∷ [])

-- the index of the first device that has a raw name and the name, and the device
pub findmount_loop : List ℕ → List Knowndev → ℕ → Option (ℕ × Knowndev)
findmount_loop devname [] i = none
findmount_loop devname (kd ∷ kds) i =
    let rest = findmount_loop devname kds (i + 1) in
    if is_some kd.kd_rawname && same_name devname kd.kd_name then some (i, kd) else rest

pub findmount : List ℕ → Call Vfs (ℕ × Knowndev)
unfolding findmount_loop
findmount devname = do w ← get_state; some_or (findmount_loop devname w.knowndevs 0) (fail enodev)

module _ (ops : Fsops) where
  abbrev pub volume_of : Option ℕ → Option (List ℕ)
  volume_of none = none
  volume_of (some fs) = ops.getvolname fs

  unfoldable pub badnames : List Knowndev → (n1 n2 n3 : Option (List ℕ)) → Bool
  badnames [] n1 n2 n3 = false
  badnames (kd ∷ kds) n1 n2 n3 =
      let rest = badnames kds n1 n2 n3 in
      if samestring3 (volume_of kd.kd_fs) n1 n2 n3
      then true
      else if samestring3 kd.kd_rawname n1 n2 n3 || samestring3 (some kd.kd_name) n1 n2 n3
      then true
      else rest

  unfoldable pub vfs_doadd : Allocs → List ℕ → Bool → Option ℕ → Option ℕ → Call Vfs (Unit {0})
  unfolding badnames
  vfs_doadd a dname mountable dev fs = do
    if a.name_ok then pure tt else fail enomem
    if mountable && not a.rawname_ok then fail enomem else pure tt
    vnode ← some_or a.vnode (fail enomem)
    if a.kd_ok then pure tt else fail enomem
    let rawname = if mountable then some (mkrawname dname) else none
    w ← get_state
    if badnames w.knowndevs (some dname) rawname (volume_of fs) then fail eexist else pure tt
    check a.added
    modify λ v. record v {
      knowndevs =
          v.knowndevs
          ++ (record {
            kd_name = dname;
            kd_rawname = rawname;
            kd_device = dev;
            kd_vnode = vnode;
            kd_fs = fs;
          }
              ∷ []);
    }

  unfoldable pub vfs_adddev : Allocs → List ℕ → ℕ → Bool → Call Vfs (Unit {0})
  unfolding vfs_doadd
  vfs_adddev a devname dev mountable = vfs_doadd a devname mountable (some dev) none

  unfoldable pub vfs_addfs : Allocs → List ℕ → ℕ → Call Vfs (Unit {0})
  unfolding vfs_doadd
  vfs_addfs a devname fs = vfs_doadd a devname false none (some fs)

  -- The loop of `vfs_getroot`; it hands back the vnode.
  unfoldable pub getroot_loop : List ℕ → List Knowndev → Call Vfs ℕ
  getroot_loop devname [] = fail enodev
  getroot_loop devname (kd ∷ kds) =
      let rest = getroot_loop devname kds in
      let named = same_name kd.kd_name devname in
      let itself =
        (if is_some kd.kd_device
          then vop (vop_incref kd.kd_vnode) >> pure kd.kd_vnode
          else panic!) in
      let raw = if samestring kd.kd_rawname (some devname) then itself else rest in
      let bare = if is_some kd.kd_fs || is_some kd.kd_rawname then panic! else itself in
      let device = if named then bare else raw in
      elim kd.kd_fs [
        | some fs ↦
            if named || samestring (ops.getvolname fs) (some devname)
            then pure (ops.getroot fs)
            else device
        | none ↦ if is_some kd.kd_rawname && named then fail enxio else device
      ]

  unfoldable pub vfs_getroot : List ℕ → Call Vfs ℕ
  unfolding getroot_loop
  vfs_getroot devname = do w ← get_state; getroot_loop devname w.knowndevs

  -- What `mountfunc` hands back is an argument, with its result.
  unfoldable pub vfs_mount : List ℕ → (ℕ → ℕ × Option ℕ) → Call Vfs (Unit {0})
  unfolding findmount
  vfs_mount devname mountfunc = do
    (i, kd) ← findmount devname
    if is_some kd.kd_fs then fail ebusy else pure tt
    dev ← some_or kd.kd_device panic!
    let (result, mounted) = mountfunc dev
    check result
    fs ← some_or mounted panic!
    modify λ w. record w { knowndevs = set w.knowndevs i (record kd { kd_fs = some fs }) }

  abbrev pub do_sync : ℕ → Call Vfs ℕ
  do_sync fs = do w ← get_state; vop (fsop_sync fs); pure (ops.sync w.calls fs)

  abbrev pub do_unmount : ℕ → Call Vfs ℕ
  do_unmount fs = do w ← get_state; vop (fsop_unmount fs); pure (ops.unmount w.calls fs)

  unfoldable pub vfs_unmount : List ℕ → Call Vfs (Unit {0})
  unfolding findmount
  vfs_unmount devname = do
    (i, kd) ← findmount devname
    fs ← some_or kd.kd_fs (fail einval)
    if is_some kd.kd_device then pure tt else panic!
    result ← do_sync fs
    check result
    result' ← do_unmount fs
    check result'
    modify λ w. record w { knowndevs = set w.knowndevs i (record kd { kd_fs = none }) }

  -- one round of `vfs_unmountall`: the device it leaves, and the calls
  pub unmount_one : Knowndev → List VfsCall → Knowndev × List VfsCall
  unmount_one kd calls = elim kd.kd_rawname [
    | none ↦ (kd, calls)
    | some raw ↦ elim kd.kd_fs [
      | none ↦ (kd, calls)
      | some fs ↦
          let once = fsop_sync fs ∷ calls in
          let twice = fsop_sync fs ∷ once in
          let drop : List VfsCall → Knowndev × List VfsCall = λ before. (
            (if ops.unmount before fs == 0 then record kd { kd_fs = none } else kd),
            fsop_unmount fs ∷ before,
          ) in
          if ops.sync calls fs == 0
          then drop once
          else if ops.sync once fs == 0
          then drop twice
          else (kd, twice)
    ]
  ]

  pub unmountall_loop : List Knowndev → List VfsCall → List Knowndev × List VfsCall
  unfolding unmount_one
  unmountall_loop [] calls = ([], calls)
  unmountall_loop (kd ∷ kds) calls =
      let (kd', calls') = unmount_one kd calls in
      let (kds', calls'') = unmountall_loop kds calls' in (kd' ∷ kds', calls'')

  unfoldable pub vfs_unmountall : Call Vfs (Unit {0})
  unfolding unmountall_loop
  vfs_unmountall = modify λ w.
      let (kds, calls) = unmountall_loop w.knowndevs w.calls in
      record w { knowndevs = kds; calls = calls }

-- `vfs_sync`: the results of FSOP_SYNC are not looked at
pub sync_loop : List Knowndev → List VfsCall → List VfsCall
sync_loop [] calls = calls
sync_loop (kd ∷ kds) calls =
    sync_loop kds (elim kd.kd_fs [ none ↦ calls | some fs ↦ fsop_sync fs ∷ calls ])

unfoldable pub vfs_sync : Call Vfs (Unit {0})
unfolding sync_loop
vfs_sync = modify λ w. record w { calls = sync_loop w.knowndevs w.calls }

-- the loop of `vfs_getdevname`
unfoldable pub vfs_getdevname : List Knowndev → ℕ → Option (List ℕ)
vfs_getdevname [] fs = none
vfs_getdevname (kd ∷ kds) fs =
    let rest = vfs_getdevname kds fs in
    elim kd.kd_fs [ none ↦ rest | some f ↦ if f == fs then some kd.kd_name else rest ]
