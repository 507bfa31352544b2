-- ===== src/Vfs/Table.antt =====
-- What holds of the table of devices after any calls: its names differ, and a device that can be
-- mounted has its `kd_device`.
use cse_9201_os.Common.{
  ℕ, zero, suc, ◌≡◌, refl, sym, ap, ◌∙◌, Bool, true, false, ◌||◌, List, [], ◌∷◌, ◌++◌, set, Option,
  none, some, inl, inr, ◌==◌, Bool-cases, get_elem?, ◌⊎◌,
}
use mathlib.Core.Option.{some-injective}
use mathlib.Core.Path.{subst}
use cse_9201_os.Vfs.{
  Knowndev, VfsCall, fsop_sync, Fsops, samestring, samestring3, is_some, volume_of, badnames,
  unmount_one, unmountall_loop,
}
use cse_9201_os.Vfs.Add.{none_of, samestring-none}

-- A name or raw name of one device is one of the other.
abbrev pub clash : Knowndev → Knowndev → Bool
clash a b =
    samestring3 (some a.kd_name) (some b.kd_name) b.kd_rawname none
    || samestring3 a.kd_rawname (some b.kd_name) b.kd_rawname none

abbrev pub ApartFrom : Knowndev → List Knowndev → Type 0
ApartFrom a [] = Unit
ApartFrom a (b ∷ l) = (clash a b ≡ false) × ApartFrom a l

-- The device has its `kd_device`, or is a file system for good.
abbrev pub HasDevice : Knowndev → Type 0
HasDevice kd =
    ((fs : ℕ) × (kd.kd_fs ≡ some fs) × (kd.kd_rawname ≡ none))
    ⊎ ((dev : ℕ) × (kd.kd_device ≡ some dev))

-- Each device is apart from those behind it.
abbrev pub IsTable : List Knowndev → Type 0
IsTable [] = Unit
IsTable (kd ∷ l) = ApartFrom kd l × HasDevice kd × IsTable l

-- what a device may become: only one with a raw name gets another file system
abbrev pub MayHave : Knowndev → Option ℕ → Type 0
MayHave kd fs = (fs ≡ kd.kd_fs) ⊎ (is_some kd.kd_rawname ≡ true)

HasDevice-remount :
    (kd : Knowndev) (fs : Option ℕ)
    → MayHave kd fs
    → HasDevice kd
    → HasDevice (record kd { kd_fs = fs })
HasDevice-remount kd fs may (inr device) = inr device
HasDevice-remount kd fs (inl same) (inl (f, mounted, bare)) = inl (f, same ∙ mounted, bare)
HasDevice-remount kd fs (inr raw) (inl (f, mounted, bare)) = cc (sym raw ∙ ap is_some bare)

-- the same devices, whatever is mounted on them
pub data SameDevices : List Knowndev → List Knowndev → Type 0 where
  no_device : SameDevices [] []
  same_device :
      (kd : Knowndev) (fs : Option ℕ) (l l' : List Knowndev)
      → MayHave kd fs
      → SameDevices l l'
      → SameDevices (kd ∷ l) (record kd { kd_fs = fs } ∷ l')

SameDevices-refl : (l : List Knowndev) → SameDevices l l
SameDevices-refl [] = no_device
SameDevices-refl (kd ∷ l) = same_device kd kd.kd_fs l l (inl refl) (SameDevices-refl l)

pub SameDevices-set :
    (l : List Knowndev) (i : ℕ) (kd : Knowndev) (fs : Option ℕ)
    → get_elem? l i ≡ some kd
    → MayHave kd fs
    → SameDevices l (set l i (record kd { kd_fs = fs }))
SameDevices-set [] i kd fs e may = no_device
SameDevices-set (x ∷ l) zero kd fs e may =
    subst (λ y. SameDevices (y ∷ l) (record kd { kd_fs = fs } ∷ l)) (sym (some-injective x kd e))
      (same_device kd fs l l may (SameDevices-refl l))
SameDevices-set (x ∷ l) (suc i) kd fs e may =
    same_device x x.kd_fs l (set l i (record kd { kd_fs = fs })) (inl refl)
      (SameDevices-set l i kd fs e may)

ApartFrom-same :
    (a : Knowndev) (fs : Option ℕ) {l l' : List Knowndev}
    → SameDevices l l'
    → ApartFrom a l
    → ApartFrom (record a { kd_fs = fs }) l'
ApartFrom-same a fs no_device h = tt
ApartFrom-same a fs (same_device kd o l l' may s) (h, hs) = (h, ApartFrom-same a fs s hs)

pub IsTable-same : {l l' : List Knowndev} → SameDevices l l' → IsTable l → IsTable l'
IsTable-same no_device h = tt
IsTable-same (same_device kd fs l l' may s) (apart, device, rest) =
    (ApartFrom-same kd fs s apart, HasDevice-remount kd fs may device, IsTable-same s rest)

module _ (ops : Fsops) where
  -- A round of `vfs_unmountall` keeps the device, and what is mounted or nothing is left on it.
  unmount_one_lem :
      (nm : List ℕ) (raw : Option (List ℕ)) (dev : Option ℕ) (vn : ℕ) (fs : Option ℕ)
      (calls : List VfsCall)
      → let kd : Knowndev = record {
        kd_name = nm;
        kd_rawname = raw;
        kd_device = dev;
        kd_vnode = vn;
        kd_fs = fs;
      } in
        (o : Option ℕ) × MayHave kd o × ((unmount_one ops kd calls).0 ≡ record kd { kd_fs = o })
  unfolding unmount_one
  unmount_one_lem nm none dev vn fs calls = (fs, inl refl, refl)
  unmount_one_lem nm (some raw) dev vn none calls = (none, inl refl, refl)
  unmount_one_lem nm (some raw) dev vn (some fs) calls =
      let once = fsop_sync fs ∷ calls in
      let twice = fsop_sync fs ∷ once in
      elim (Bool-cases (ops.sync calls fs == 0)) [
        | inl first ↦ elim (Bool-cases (ops.unmount once fs == 0)) [
          | inl gone ↦ (none, inr refl, rw (first, gone) refl)
          | inr kept ↦ (some fs, inr refl, rw (first, kept) refl)
        ]
        | inr failed ↦ elim (Bool-cases (ops.sync once fs == 0)) [
          | inr again ↦ (some fs, inr refl, rw (failed, again) refl)
          | inl second ↦ elim (Bool-cases (ops.unmount twice fs == 0)) [
            | inl gone ↦ (none, inr refl, rw (failed, second, gone) refl)
            | inr kept ↦ (some fs, inr refl, rw (failed, second, kept) refl)
          ]
        ]
      ]

  pub SameDevices-unmountall :
      (l : List Knowndev) (calls : List VfsCall) → SameDevices l (unmountall_loop ops l calls).0
  unfolding unmountall_loop
  SameDevices-unmountall [] calls = no_device
  SameDevices-unmountall (kd ∷ l) calls =
      let (o, may, e) =
        unmount_one_lem kd.kd_name kd.kd_rawname kd.kd_device kd.kd_vnode kd.kd_fs calls in
      let l' = (unmountall_loop ops l (unmount_one ops kd calls).1).0 in
      subst (λ d. SameDevices (kd ∷ l) (d ∷ l')) (sym e)
        (same_device kd o l l' may (SameDevices-unmountall l (unmount_one ops kd calls).1))

ApartFrom-snoc :
    (a kd : Knowndev) (l : List Knowndev)
    → ApartFrom a l
    → clash a kd ≡ false
    → ApartFrom a (l ++ (kd ∷ []))
ApartFrom-snoc a kd [] h new = (new, tt)
ApartFrom-snoc a kd (b ∷ l) (h, hs) new = (h, ApartFrom-snoc a kd l hs new)

without_third :
    (x b c d : Option (List ℕ)) → samestring3 x b c d ≡ false → samestring3 x b c none ≡ false
without_third x b c d h = go (samestring x b) (samestring x c) (samestring x d) h
  where
    go : (p q r : Bool) → (p || q || r) ≡ false → (p || q || samestring x none) ≡ false
    go true q r e = e
    go false true r e = e
    go false false r e = samestring-none x

-- A device whose names `badnames` does not find extends the table.
pub IsTable-snoc :
    (ops : Fsops) (l : List Knowndev) (kd : Knowndev) (volume : Option (List ℕ))
    → IsTable l
    → badnames ops l (some kd.kd_name) kd.kd_rawname volume ≡ false
    → HasDevice kd
    → IsTable (l ++ (kd ∷ []))
unfolding badnames
IsTable-snoc ops [] kd volume h good device = (tt, device, tt)
IsTable-snoc ops (a ∷ l) kd volume (apart, own, rest) good device =
    let (vol, raw, name, others) =
      none_of (samestring3 (volume_of ops a.kd_fs) (some kd.kd_name) kd.kd_rawname volume)
        (samestring3 a.kd_rawname (some kd.kd_name) kd.kd_rawname volume)
        (samestring3 (some a.kd_name) (some kd.kd_name) kd.kd_rawname volume)
        (badnames ops l (some kd.kd_name) kd.kd_rawname volume) good in
    let new : clash a kd ≡ false =
      rw
        (
          without_third (some a.kd_name) (some kd.kd_name) kd.kd_rawname volume name,
          without_third a.kd_rawname (some kd.kd_name) kd.kd_rawname volume raw,
        )
        refl in
    (ApartFrom-snoc a kd l apart new, own, IsTable-snoc ops l kd volume rest others device)
