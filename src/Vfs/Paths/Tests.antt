-- ===== src/Vfs/Paths/Tests.antt =====
-- Opening the file "a" of the boot file system.
use cse_9201_os.Common.{ℕ, ◌≡◌, refl, ◌⊎◌, [], ◌∷◌, none, some}
use cse_9201_os.Common.Calls.{returns, fails}
use cse_9201_os.Vfs.{Vfs, Fsops, called, vop_incref, vop_decref}
use cse_9201_os.Vfs.Lookup.{Vnops, vfs_lookup}
use cse_9201_os.Vfs.Paths.{Fileops, vfs_open}
use cse_9201_os.Vfs.Paths.Opens.{Counted, vfs_open-Opened}

abbrev fsops : Fsops
fsops = record {
  getvolname = λ fs. none;
  getroot = λ fs. 100;
  sync = λ calls fs. 0;
  unmount = λ calls fs. 0;
}

abbrev vnops : Vnops
vnops = record {
  vn_fs = λ vn. some 5;
  gettype = λ vn. (0, 8192);
  lookup = λ vn path. (0, 7);
  lookparent = λ vn path. (0, 7, path);
}

abbrev fileops : Fileops
fileops = record {
  creat = λ dir name excl. (0, 8);
  open_vn = λ vn flags. 0;
  truncate = λ vn. 0;
  remove = λ dir name. 0;
  rename = λ dir name dir' name'. 0;
  link = λ dir name vn. 0;
  symlink = λ dir name contents. 0;
  readlink = λ vn. 0;
  mkdir = λ dir name. 0;
  rmdir = λ dir name. 0;
}

abbrev booted : Vfs
booted = record { knowndevs = []; calls = []; t_cwd = none; bootfs_vnode = some 3 }

abbrev looked : Vfs
looked = called (vop_decref 3) (called (vop_incref 3) booted)

-- O_TRUNC on a file that is opened for reading
vfs_open-Opened_example :
    ((w' : Vfs) × (vfs_open fsops vnops fileops (47 ∷ 97 ∷ []) 16 booted ≡ returns 7 w')
      × Counted 7 looked w' 1 0 0)
    ⊎ ((e k : ℕ) × (w' : Vfs) × (vfs_open fsops vnops fileops (47 ∷ 97 ∷ []) 16 booted ≡ fails e w')
        × Counted 7 looked w' k k 1)
unfolding vfs_lookup
vfs_open-Opened_example =
    vfs_open-Opened fsops vnops fileops (47 ∷ 97 ∷ []) 16 booted looked 7 refl refl
