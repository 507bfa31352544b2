-- ===== src/Vfs/Safe.antt =====
-- Any calls of the functions of vfslist.c, one after the other: the table stays one.
use cse_9201_os.Common.{ℕ, Bool, List, [], ◌∷◌, Option, none, some, inl, inr, Bool-cases}
use cse_9201_os.Common.Calls.{
  Out, Call, returns, fails, panics, undef, diverges, pure, and_then, ◌>>=◌,
}
use cse_9201_os.Common.Strings.{same_name}
use cse_9201_os.Vfs.{
  Knowndev, Vfs, Fsops, Allocs, samestring, getroot_loop, vfs_adddev, vfs_addfs, vfs_getroot,
  vfs_mount, vfs_unmount, vfs_unmountall, vfs_sync,
}
use cse_9201_os.Vfs.Table.{IsTable, HasDevice}
use cse_9201_os.Vfs.Steps.{
  Ends, HasTable, SetsUp, ends_adddev, ends_addfs, ends_mount, ends_unmount, ends_unmountall,
  ends_sync,
}

module _ (ops : Fsops) (w : Vfs) (table : HasTable w) (n nm : List ℕ) (vn : ℕ) (kds : List Knowndev)
    (rest : Ends (getroot_loop ops n kds w) HasTable) where
  ends_device :
      (raw : Option (List ℕ)) (dev fs : Option ℕ)
      → let kd : Knowndev = record {
        kd_name = nm;
        kd_rawname = raw;
        kd_device = dev;
        kd_vnode = vn;
        kd_fs = fs;
      } in
        HasDevice kd → Ends (getroot_loop ops n (kd ∷ kds) w) HasTable
  unfolding getroot_loop
  ends_device none none none (inl (f, e, bare)) = cc e
  ends_device none none none (inr (d, e)) = cc e
  ends_device none (some d) none device = elim (Bool-cases (same_name nm n)) [
    | inl named ↦ rw named table
    | inr other ↦ rw other rest
  ]
  ends_device (some raw) dev fs (inl (f, e, bare)) = cc bare
  ends_device (some raw) none fs (inr (d, e)) = cc e
  ends_device (some raw) (some d) none (inr device) = elim (Bool-cases (same_name nm n)) [
    | inl named ↦ rw named table
    | inr other ↦ elim (Bool-cases (same_name raw n)) [
      | inl same ↦ rw (other, same) table
      | inr differs ↦ rw (other, differs) rest
    ]
  ]
  ends_device none dev (some f) device = elim (Bool-cases (same_name nm n)) [
    | inl named ↦ rw named table
    | inr other ↦ elim (Bool-cases (samestring (ops.getvolname f) (some n))) [
      | inl volume ↦ rw (other, volume) table
      | inr differs ↦ rw (other, differs) rest
    ]
  ]
  ends_device (some raw) (some d) (some f) (inr device) = elim (Bool-cases (same_name nm n)) [
    | inl named ↦ rw named table
    | inr other ↦ elim (Bool-cases (samestring (ops.getvolname f) (some n))) [
      | inl volume ↦ rw (other, volume) table
      | inr differs ↦ elim (Bool-cases (same_name raw n)) [
        | inl same ↦ rw (other, differs, same) table
        | inr another ↦ rw (other, differs, another) rest
      ]
    ]
  ]

module _ (ops : Fsops) (w : Vfs) (table : HasTable w) (n : List ℕ) where
  ends_loop : (kds : List Knowndev) → IsTable kds → Ends (getroot_loop ops n kds w) HasTable
  unfolding getroot_loop
  ends_loop [] h = table
  ends_loop (kd ∷ kds) (apart, device, rest) =
      ends_device ops w table n kd.kd_name kd.kd_vnode kds (ends_loop kds rest) kd.kd_rawname
        kd.kd_device kd.kd_fs device

  ends_getroot : Ends (vfs_getroot ops n w) HasTable
  unfolding vfs_getroot
  ends_getroot = ends_loop w.knowndevs table

-- the calls that other code makes
pub data Operation : Type 0 where
  adddev : Allocs → List ℕ → ℕ → Bool → Operation
  addfs : Allocs → List ℕ → ℕ → Operation
  mount : List ℕ → (ℕ → ℕ × Option ℕ) → Operation
  unmount : List ℕ → Operation
  unmountall : Operation
  sync : Operation
  getroot : List ℕ → Operation

abbrev pub IsCall : Operation → Type 0
IsCall (mount n mountfunc) = SetsUp mountfunc
IsCall _ = Unit

abbrev pub AreCalls : List Operation → Type 0
AreCalls [] = Unit
AreCalls (o ∷ os) = IsCall o × AreCalls os

module _ (ops : Fsops) where
  abbrev pub run : Operation → Call Vfs (Unit {0})
  run (adddev a n dev mountable) = vfs_adddev ops a n dev mountable
  run (addfs a n fs) = vfs_addfs ops a n fs
  run (mount n mountfunc) = vfs_mount ops n mountfunc
  run (unmount n) = vfs_unmount ops n
  run unmountall = vfs_unmountall ops
  run sync = vfs_sync
  run (getroot n) = vfs_getroot ops n >>= λ v. pure tt

  -- the next call, whatever error code the last one returned
  abbrev pub then_next : Out Vfs (Unit {0}) → Call Vfs (Unit {0}) → Out Vfs (Unit {0})
  then_next (returns a w) m = m w
  then_next (fails e w) m = m w
  then_next panics m = panics
  then_next undef m = undef
  then_next diverges m = diverges

  abbrev pub run_all : List Operation → Call Vfs (Unit {0})
  run_all [] = pure tt
  run_all (o ∷ os) = λ w. then_next (run o w) (run_all os)

  ends_then :
      (o : Out Vfs (Unit {0})) (m : Call Vfs (Unit {0}))
      → Ends o HasTable
      → ((w : Vfs) → HasTable w → Ends (m w) HasTable)
      → Ends (then_next o m) HasTable
  ends_then (returns a w) m h k = k w h
  ends_then (fails e w) m h k = k w h
  ends_then panics m h k = elim h [ ]
  ends_then undef m h k = elim h [ ]
  ends_then diverges m h k = elim h [ ]

  ends_drop : (o : Out Vfs ℕ) → Ends o HasTable → Ends (and_then o λ v. pure tt) HasTable
  ends_drop (returns a w) h = h
  ends_drop (fails e w) h = h
  ends_drop panics h = elim h [ ]
  ends_drop undef h = elim h [ ]
  ends_drop diverges h = elim h [ ]

  ends_run : (o : Operation) (w : Vfs) → IsCall o → HasTable w → Ends (run o w) HasTable
  ends_run (adddev a n dev mountable) w c table = ends_adddev ops w table a n dev mountable
  ends_run (addfs a n fs) w c table = ends_addfs ops w table a n fs
  ends_run (mount n mountfunc) w sets table = ends_mount ops w table n mountfunc sets
  ends_run (unmount n) w c table = ends_unmount ops w table n
  ends_run unmountall w c table = ends_unmountall ops w table
  ends_run sync w c table = ends_sync ops w table
  ends_run (getroot n) w c table = ends_drop (vfs_getroot ops n w) (ends_getroot ops w table n)

  -- From a table of devices whose names differ, any sequence of calls of `vfs_adddev`, `vfs_addfs`,
  -- `vfs_mount`, `vfs_unmount`, `vfs_unmountall`, `vfs_sync` and `vfs_getroot` returns, with error
  -- codes or without, where each `mountfunc` that returns 0 hands back a file system: no assertion
  -- fails. The names and raw names of the devices still differ, and each device has its `kd_device`
  -- or is a file system for good.
  pub run_all-IsTable :
      (os : List Operation) (w : Vfs)
      → AreCalls os
      → IsTable w.knowndevs
      → Ends (run_all os w) (λ w'. IsTable w'.knowndevs)
  run_all-IsTable [] w c table = table
  run_all-IsTable (o ∷ os) w (c, cs) table =
      ends_then (run o w) (run_all os) (ends_run o w c table) (λ w'. run_all-IsTable os w' cs)
