-- ===== src/Vfs/Lookup/Tests.antt =====
-- `getdevice` on the path "emu0:/a", and `vfs_setbootfs` of "emu0".
use cse_9201_os.Common.{ℕ, ◌≡◌, List, [], ◌∷◌, none, some}
use cse_9201_os.Common.Calls.{returns}
use cse_9201_os.Vfs.{Vfs, Fsops, vop_incref, vfs_getroot}
use cse_9201_os.Vfs.Lookup.{Vnops, getdevice, vfs_chdir, vfs_setbootfs}
use cse_9201_os.Vfs.Lookup.BootFs.{vfs_setbootfs_lem}
use cse_9201_os.Vfs.Lookup.Forms.{parse}
use cse_9201_os.Vfs.Lookup.Parse.{looked_up, getdevice-parse}

abbrev fsops : Fsops
fsops = record {
  getvolname = λ fs. none;
  getroot = λ fs. 100;
  sync = λ calls fs. 0;
  unmount = λ calls fs. 0;
}

abbrev vnops : Vnops
vnops = record {
  vn_fs = λ vn. some 5;
  gettype = λ vn. (0, 8192);
  lookup = λ vn path. (0, 7);
  lookparent = λ vn path. (0, 7, path);
}

-- "emu0" is a file system
abbrev one_fs : Vfs
one_fs = record {
  knowndevs =
      record {
        kd_name = 101 ∷ 109 ∷ 117 ∷ 48 ∷ [];
        kd_rawname = none;
        kd_device = none;
        kd_vnode = 1;
        kd_fs = some 5;
      }
      ∷ [];
  calls = [];
  t_cwd = none;
  bootfs_vnode = none;
}

-- "emu0:/a"
abbrev path : List ℕ
path = 101 ∷ 109 ∷ 117 ∷ 48 ∷ 58 ∷ 47 ∷ 97 ∷ []

getdevice-parse_example :
    getdevice fsops vnops path one_fs ≡ looked_up fsops vnops (parse path) one_fs
getdevice-parse_example = getdevice-parse fsops vnops path one_fs

-- The name "emu0"; the root of the file system is vnode 100.
vfs_setbootfs_lem_example :
    vfs_setbootfs fsops vnops (101 ∷ 109 ∷ 117 ∷ 48 ∷ []) one_fs
    ≡ returns tt
        (record one_fs { t_cwd = some 100; bootfs_vnode = some 100; calls = vop_incref 100 ∷ [] })
unfolding vfs_chdir vfs_getroot
vfs_setbootfs_lem_example = vfs_setbootfs_lem fsops vnops (101 ∷ 109 ∷ 117 ∷ 48 ∷ []) one_fs
