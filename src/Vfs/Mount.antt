-- ===== src/Vfs/Mount.antt =====
-- Mounting and unmounting by name: `findmount`, `vfs_mount`, `vfs_unmount` and `vfs_getroot` agree on
-- the device.
use cse_9201_os.Common.{
  ℕ, suc, ◌+◌, ◌≡◌, refl, sym, ap, ◌∙◌, inl, inr, Bool, true, false, ◌&&◌, List, [], ◌∷◌, Option,
  none, some, get_elem?, set, set-set, set_same, arith,
}
use cse_9201_os.Common.Calls.{returns, fails}
use cse_9201_os.Common.Errno.{enxio, ebusy}
use cse_9201_os.Common.Strings.{same_name_sym}
use cse_9201_os.Vfs.{
  Knowndev, Vfs, fsop_sync, fsop_unmount, Fsops, is_some, findmount_loop, findmount, vfs_mount,
  vfs_unmount, getroot_loop, vfs_getroot,
}
use cse_9201_os.Vfs.Names.{
  IsUnnamed, IsMountable, head_cases, head_skips, answer_or_fail, codes_differ,
}

-- The first device with the name is the one at an index, and it can be mounted.
data MountAt (ops : Fsops) (n : List ℕ) : List Knowndev → ℕ → Knowndev → Type 0 where
  here : (kd : Knowndev) (kds : List Knowndev) → IsMountable n kd → MountAt ops n (kd ∷ kds) 0 kd
  there :
      (kd kd' : Knowndev) (kds : List Knowndev) (i : ℕ)
      → IsUnnamed ops n kd
      → MountAt ops n kds i kd'
      → MountAt ops n (kd ∷ kds) (suc i) kd'

abbrev pub remount : Knowndev → Option ℕ → Knowndev
remount kd fs = record kd { kd_fs = fs }

and_false : (b : Bool) → (b && false) ≡ false
and_false true = refl
and_false false = refl

module _ (ops : Fsops) (n : List ℕ) where
  enxio-MountAt :
      (kds : List Knowndev) (w : Vfs)
      → getroot_loop ops n kds w ≡ fails enxio w
      → (i : ℕ) × (kd : Knowndev) × MountAt ops n kds i kd
  unfolding getroot_loop
  enxio-MountAt [] w e = absurd (codes_differ w e refl)
  enxio-MountAt (kd ∷ kds) w e = elim (head_cases ops n kd kds w) [
    | inl unnamed ↦
        let (i, kd', m) = enxio-MountAt kds w (sym (head_skips ops n kd kds w unnamed) ∙ e) in
        (suc i, kd', there kd kd' kds i unnamed m)
    | inr (inl m) ↦ (0, kd, here kd kds m)
    | inr (inr a) ↦ absurd (answer_or_fail ops n kd kds w a e)
  ]

  MountAt-IsMountable :
      {kds : List Knowndev} {i : ℕ} {kd : Knowndev} → MountAt ops n kds i kd → IsMountable n kd
  MountAt-IsMountable (here kd kds m) = m
  MountAt-IsMountable (there kd kd' kds i u m) = MountAt-IsMountable m

  MountAt-elem :
      {kds : List Knowndev} {i : ℕ} {kd : Knowndev}
      → MountAt ops n kds i kd
      → get_elem? kds i ≡ some kd
  MountAt-elem (here kd kds m) = refl
  MountAt-elem (there kd kd' kds i u m) = MountAt-elem m

  skips :
      (kd : Knowndev) (kds : List Knowndev) (base : ℕ)
      → IsUnnamed ops n kd
      → findmount_loop n (kd ∷ kds) base ≡ findmount_loop n kds (base + 1)
  unfolding findmount_loop
  skips kd kds base u =
      rw (same_name_sym n kd.kd_name, u.name, and_false (is_some kd.kd_rawname)) refl

  -- `findmount` finds that device, whatever is mounted on it.
  found :
      {kds : List Knowndev} {i : ℕ} {kd : Knowndev} (fs : Option ℕ) (base : ℕ)
      → MountAt ops n kds i kd
      → findmount_loop n (set kds i (remount kd fs)) base ≡ some (base + i, remount kd fs)
  unfolding findmount_loop
  found fs base (here kd kds m) =
      rw (m.rawname, same_name_sym n kd.kd_name, m.name)
        (ap (λ j. some (j, remount kd fs)) (omega arith))
  found fs base (there kd kd' kds i u m) =
      skips kd (set kds i (remount kd' fs)) base u
      ∙ found fs (base + 1) m
      ∙ ap (λ j. some (j, remount kd' fs)) (omega arith)

  mounted_root :
      {kds : List Knowndev} {i : ℕ} {kd : Knowndev} (fs : ℕ) (w : Vfs)
      → MountAt ops n kds i kd
      → getroot_loop ops n (set kds i (remount kd (some fs))) w ≡ returns (ops.getroot fs) w
  unfolding getroot_loop
  mounted_root fs w (here kd kds m) = rw m.name refl
  mounted_root fs w (there kd kd' kds i u m) =
      head_skips ops n kd (set kds i (remount kd' (some fs))) w u ∙ mounted_root fs w m

abbrev pub with_mounted : Vfs → ℕ → Knowndev → ℕ → Vfs
with_mounted w i kd fs = record w { knowndevs = set w.knowndevs i (remount kd (some fs)) }

module _ (ops : Fsops) (n : List ℕ) (w : Vfs) (i : ℕ) (kd : Knowndev)
    (m : MountAt ops n w.knowndevs i kd) (mountfunc : ℕ → ℕ × Option ℕ) (dev fs : ℕ) where
  unmounted_same : remount kd none ≡ kd
  unmounted_same = ap (remount kd) (sym (MountAt-IsMountable ops n m).unmounted)

  found_here :
      (o : Option ℕ)
      → findmount_loop n (set w.knowndevs i (remount kd o)) 0 ≡ some (i, remount kd o)
  found_here o = found ops n o 0 m ∙ ap (λ j. some (j, remount kd o)) zero_first
    where
      zero_first : 0 + i ≡ i
      zero_first = omega arith

  found_unmounted : findmount_loop n w.knowndevs 0 ≡ some (i, kd)
  found_unmounted =
      ap (λ l. findmount_loop n l 0)
        (sym (set_same w.knowndevs i kd (MountAt-elem ops n m))
          ∙ ap (set w.knowndevs i) (sym unmounted_same))
      ∙ found_here none
      ∙ ap (λ d. some (i, d)) unmounted_same

  mount_lem :
      kd.kd_device ≡ some dev
      → mountfunc dev ≡ (0, some fs)
      → vfs_mount ops n mountfunc w ≡ returns tt (with_mounted w i kd fs)
  unfolding vfs_mount findmount
  mount_lem d ok = rw (found_unmounted, (MountAt-IsMountable ops n m).unmounted, d, ok) refl

  busy_lem :
      vfs_mount ops n mountfunc (with_mounted w i kd fs) ≡ fails ebusy (with_mounted w i kd fs)
  unfolding vfs_mount findmount
  busy_lem = rw (found_here (some fs)) refl

  unmount_lem :
      kd.kd_device ≡ some dev
      → ops.sync w.calls fs ≡ 0
      → ops.unmount (fsop_sync fs ∷ w.calls) fs ≡ 0
      → vfs_unmount ops n (with_mounted w i kd fs)
        ≡ returns tt (record w { calls = fsop_unmount fs ∷ fsop_sync fs ∷ w.calls })
  unfolding vfs_unmount findmount
  unmount_lem d synced unmounted =
      rw (found_here (some fs), ap is_some d, synced, unmounted)
        (ap
          (λ l.
            returns tt
              (record w { knowndevs = l; calls = fsop_unmount fs ∷ fsop_sync fs ∷ w.calls }))
          (set-set w.knowndevs i (remount kd (some fs)) (remount kd none)
            ∙ ap (set w.knowndevs i) unmounted_same
            ∙ set_same w.knowndevs i kd (MountAt-elem ops n m)))

-- Every device that can be mounted has its `kd_device`.
abbrev pub HaveDevices : List Knowndev → Type 0
HaveDevices kds =
    (i : ℕ) (kd : Knowndev)
    → get_elem? kds i ≡ some kd
    → is_some kd.kd_rawname ≡ true
    → (dev : ℕ) × (kd.kd_device ≡ some dev)

module _ (ops : Fsops) (n : List ℕ) (w : Vfs) (devices : HaveDevices w.knowndevs)
    (mountfunc : ℕ → ℕ × Option ℕ) (fs : ℕ) where
  -- Where `vfs_getroot` answers ENXIO for a name, and `mountfunc` sets up the file system `fs` on any
  -- device, `vfs_mount` of that name succeeds: `vfs_getroot` then hands back the root of `fs` for
  -- the name, and a second `vfs_mount` is refused with EBUSY. Where syncing and unmounting `fs`
  -- succeed too, `vfs_unmount` leaves the table as it was before `vfs_mount`.
  pub mount-unmount :
      vfs_getroot ops n w ≡ fails enxio w
      → ((dev : ℕ) → mountfunc dev ≡ (0, some fs))
      → ops.sync w.calls fs ≡ 0
      → ops.unmount (fsop_sync fs ∷ w.calls) fs ≡ 0
      → (w' : Vfs) × (vfs_mount ops n mountfunc w ≡ returns tt w')
        × (vfs_getroot ops n w' ≡ returns (ops.getroot fs) w')
        × (vfs_mount ops n mountfunc w' ≡ fails ebusy w')
        × (vfs_unmount ops n w'
            ≡ returns tt (record w { calls = fsop_unmount fs ∷ fsop_sync fs ∷ w.calls }))
  unfolding vfs_getroot
  mount-unmount unmounted sets_up synced gone =
      let (i, kd, m) = enxio-MountAt ops n w.knowndevs w unmounted in
      let (dev, d) = devices i kd (MountAt-elem ops n m) (MountAt-IsMountable ops n m).rawname in
      let w' = with_mounted w i kd fs in
      (
        w',
        mount_lem ops n w i kd m mountfunc dev fs d (sets_up dev),
        mounted_root ops n fs w' m,
        busy_lem ops n w i kd m mountfunc dev fs,
        unmount_lem ops n w i kd m mountfunc dev fs d synced gone,
      )
