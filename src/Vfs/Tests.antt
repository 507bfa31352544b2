-- ===== src/Vfs/Tests.antt =====
-- The theorems on the table of devices at a small one: the disk `lhd0` and the device `con`.
use cse_9201_os.Common.{
  ℕ, zero, suc, ◌≡◌, refl, ap, sym, ◌≢◌, true, false, List, [], ◌∷◌, none, some,
}
use mathlib.Core.Option.{some-injective}
use cse_9201_os.Common.Calls.{returns, fails}
use cse_9201_os.Common.Errno.{eexist, ebusy}
use cse_9201_os.Vfs.{
  called, Vfs, Fsops, vop_incref, fsop_sync, fsop_unmount, vfs_adddev, vfs_getroot, vfs_mount,
  vfs_unmount,
}
use cse_9201_os.Vfs.Add.{enough, new_device, adddev-getroot, adddev-known}
use cse_9201_os.Vfs.Mount.{HaveDevices, mount-unmount}
use cse_9201_os.Vfs.Table.{IsTable}
use cse_9201_os.Vfs.Steps.{Ends}
use cse_9201_os.Vfs.Safe.{run_all, run_all-IsTable}
use cse_9201_os.Vfs.Safe

abbrev fsops : Fsops
fsops = record {
  getvolname = λ fs. some (118 ∷ []);
  getroot = λ fs. 100;
  sync = λ calls fs. 0;
  unmount = λ calls fs. 0;
}

abbrev lhd0 : List ℕ
lhd0 = 108 ∷ 104 ∷ 100 ∷ 48 ∷ []

abbrev con : List ℕ
con = 99 ∷ 111 ∷ 110 ∷ []

abbrev nothing : Vfs
nothing = record { knowndevs = []; calls = []; t_cwd = none; bootfs_vnode = none }

abbrev one_disk : Vfs
one_disk = record nothing { knowndevs = new_device lhd0 1 true 10 ∷ [] }

adddev-getroot_example :
    (w' : Vfs) × (vfs_adddev fsops (enough 20) con 2 false one_disk ≡ returns tt w')
    × (w'.knowndevs ≡ new_device lhd0 1 true 10 ∷ new_device con 2 false 20 ∷ [])
    × (vfs_getroot fsops con w' ≡ returns 20 (called (vop_incref 20) w'))
    × (vfs_getroot fsops con w' ≡ returns 20 (called (vop_incref 20) w'))
unfolding vfs_getroot
adddev-getroot_example = adddev-getroot fsops con 2 20 false one_disk refl refl

known : vfs_getroot fsops lhd0 one_disk ≢ fails 15 one_disk
unfolding vfs_getroot
known e = cc e

adddev-known_example : vfs_adddev fsops (enough 20) lhd0 2 false one_disk ≡ fails eexist one_disk
adddev-known_example = adddev-known fsops lhd0 2 20 false one_disk known

disk-HaveDevices : HaveDevices (new_device lhd0 1 true 10 ∷ [])
disk-HaveDevices zero kd e raw =
    (1, ap (λ d. d.kd_device) (sym (some-injective (new_device lhd0 1 true 10) kd e)))
disk-HaveDevices (suc i) kd e raw = cc e

mount-unmount_example :
    (w' : Vfs) × (vfs_mount fsops lhd0 (λ dev. (0, some 5)) one_disk ≡ returns tt w')
    × (vfs_getroot fsops lhd0 w' ≡ returns 100 w')
    × (vfs_mount fsops lhd0 (λ dev. (0, some 5)) w' ≡ fails ebusy w')
    × (vfs_unmount fsops lhd0 w'
        ≡ returns tt (record one_disk { calls = fsop_unmount 5 ∷ fsop_sync 5 ∷ [] }))
unfolding vfs_getroot
mount-unmount_example =
    mount-unmount fsops lhd0 one_disk disk-HaveDevices (λ dev. (0, some 5)) 5 refl (λ dev. refl)
      refl refl

run_all-IsTable_example :
    Ends
      (run_all fsops
        (Safe.adddev (enough 10) lhd0 1 true
          ∷ Safe.mount lhd0 (λ dev. (0, some 5))
          ∷ Safe.getroot lhd0
          ∷ Safe.unmountall
          ∷ [])
        nothing)
      (λ w'. IsTable w'.knowndevs)
run_all-IsTable_example =
    run_all-IsTable fsops
      (Safe.adddev (enough 10) lhd0 1 true
        ∷ Safe.mount lhd0 (λ dev. (0, some 5))
        ∷ Safe.getroot lhd0
        ∷ Safe.unmountall
        ∷ [])
      nothing (tt, ((λ dev. refl), (tt, (tt, tt)))) tt
