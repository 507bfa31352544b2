-- ===== src/Vfs/Steps.antt =====
-- Adding, mounting and unmounting keep the table, and no assertion of theirs fails.
use cse_9201_os.Common.{
  ℕ, zero, suc, ◌+◌, ◌≡◌, refl, sym, ap, ◌∙◌, Bool, true, false, ◌&&◌, not, List, [], ◌∷◌, Option,
  none, some, inl, inr, if◌then◌else◌, ◌==◌, Bool-cases, Option-cases, get_elem?, ◌⊎◌, arith,
}
use mathlib.Core.Path.{subst}
use mathlib.Core.Option.{some-injective}
use cse_9201_os.Common.Calls.{
  Out, Call, returns, fails, panics, undef, diverges, pure, fail, panic!, check, ◌>>=◌, ◌>>◌,
}
use cse_9201_os.Common.Errno.{einval}
use cse_9201_os.Common.Strings.{same_name}
use cse_9201_os.Vfs.{
  Knowndev, Vfs, fsop_sync, Fsops, Allocs, is_some, some_or, volume_of, mkrawname, badnames,
  findmount_loop, findmount, vfs_doadd, vfs_adddev, vfs_addfs, vfs_mount, vfs_unmount,
  vfs_unmountall, vfs_sync,
}
use cse_9201_os.Vfs.Table.{
  IsTable, HasDevice, SameDevices-set, SameDevices-unmountall, IsTable-same, IsTable-snoc,
}

-- The call returns, with an error code or without, in a state with the property.
abbrev pub Ends : {S A : Type 0} → Out S A → (S → Type 0) → Type 0
Ends (returns a w) P = P w
Ends (fails e w) P = P w
Ends panics P = ⊥
Ends undef P = ⊥
Ends diverges P = ⊥

module _ {S A : Type 0} (P : S → Type 0) (s : S) (k : Call S A) (e : ℕ) (kept : P s) where
  ends_if :
      (t : Bool) → (t ≡ true → Ends (k s) P) → Ends (((if t then pure tt else fail e) >> k) s) P
  ends_if true h = h refl
  ends_if false h = kept

  ends_unless :
      (t : Bool) → (t ≡ false → Ends (k s) P) → Ends (((if t then fail e else pure tt) >> k) s) P
  ends_unless true h = kept
  ends_unless false h = h refl

  ends_check : (r : ℕ) → Ends (k s) P → Ends ((check r >> k) s) P
  ends_check r h = elim (Bool-cases (r == 0)) [ inl fine ↦ rw fine h | inr error ↦ rw error kept ]

module _ {A B : Type 0} (P : Vfs → Type 0) (w : Vfs) (k : A → Call Vfs B) (e : ℕ) (kept : P w) where
  ends_some :
      (o : Option A)
      → ((a : A) → o ≡ some a → Ends (k a w) P)
      → Ends ((some_or o (fail e) >>= k) w) P
  ends_some none h = kept
  ends_some (some a) h = h a refl

abbrev pub HasTable : Vfs → Type 0
HasTable w = IsTable w.knowndevs

module _ (ops : Fsops) (w : Vfs) (table : HasTable w) where
  ends_doadd :
      (a : Allocs) (dname : List ℕ) (mountable : Bool) (dev fs : Option ℕ)
      → ((vnode : ℕ)
          → HasDevice (record {
            kd_name = dname;
            kd_rawname = (if mountable then some (mkrawname dname) else none);
            kd_device = dev;
            kd_vnode = vnode;
            kd_fs = fs;
          }))
      → Ends (vfs_doadd ops a dname mountable dev fs w) HasTable
  unfolding vfs_doadd
  ends_doadd a dname mountable dev fs device = ends_if HasTable w _ _ table a.name_ok λ h1.
      ends_unless HasTable w _ _ table (mountable && not a.rawname_ok) λ h2.
        ends_some HasTable w _ _ table a.vnode λ vnode v. ends_if HasTable w _ _ table a.kd_ok λ h3.
          ends_unless HasTable w _ _ table
            (badnames ops w.knowndevs (some dname)
              (if mountable then some (mkrawname dname) else none) (volume_of ops fs))
            λ good.
              ends_check HasTable w _ 0 table a.added
                (IsTable-snoc ops w.knowndevs _ (volume_of ops fs) table good (device vnode))

  pub ends_adddev :
      (a : Allocs) (dname : List ℕ) (dev : ℕ) (mountable : Bool)
      → Ends (vfs_adddev ops a dname dev mountable w) HasTable
  unfolding vfs_adddev
  ends_adddev a dname dev mountable =
      ends_doadd a dname mountable (some dev) none λ v. inr (dev, refl)

  pub ends_addfs :
      (a : Allocs) (dname : List ℕ) (fs : ℕ) → Ends (vfs_addfs ops a dname fs w) HasTable
  unfolding vfs_addfs
  ends_addfs a dname fs = ends_doadd a dname false none (some fs) λ v. inl (fs, refl, refl)

  pub ends_unmountall : Ends (vfs_unmountall ops w) HasTable
  unfolding vfs_unmountall
  ends_unmountall = IsTable-same (SameDevices-unmountall ops w.knowndevs w.calls) table

  pub ends_sync : Ends (vfs_sync w) HasTable
  unfolding vfs_sync
  ends_sync = table

-- What `findmount` finds is a device of the table that has a raw name.
find_cases :
    (n : List ℕ) (l : List Knowndev) (base : ℕ)
    → (findmount_loop n l base ≡ none)
      ⊎ ((i : ℕ) × (kd : Knowndev) × (findmount_loop n l base ≡ some (base + i, kd))
          × (get_elem? l i ≡ some kd)
          × (is_some kd.kd_rawname ≡ true))
unfolding findmount_loop
find_cases n [] base = inl refl
find_cases n (kd ∷ l) base = elim (Bool-cases (is_some kd.kd_rawname && same_name n kd.kd_name)) [
  | inl hit ↦ inr (
    0,
    kd,
    rw hit (ap (λ j. some (j, kd)) (omega arith)),
    refl,
    and_first (is_some kd.kd_rawname) (same_name n kd.kd_name) hit,
  )
  | inr miss ↦ elim (find_cases n l (base + 1)) [
    | inl nowhere ↦ inl (rw miss nowhere)
    | inr (i, kd', e, at, raw) ↦
        inr (suc i, kd', rw miss (e ∙ ap (λ j. some (j, kd')) (omega arith)), at, raw)
  ]
]
  where
    and_first : (p q : Bool) → (p && q) ≡ true → p ≡ true
    and_first true q h = refl
    and_first false q h = h

elem-HasDevice :
    (l : List Knowndev) (i : ℕ) (kd : Knowndev) → IsTable l → get_elem? l i ≡ some kd → HasDevice kd
elem-HasDevice [] i kd table e = cc e
elem-HasDevice (x ∷ l) zero kd (apart, device, rest) e =
    subst HasDevice (some-injective x kd e) device
elem-HasDevice (x ∷ l) (suc i) kd (apart, device, rest) e = elem-HasDevice l i kd rest e

raw-device :
    (kd : Knowndev)
    → HasDevice kd
    → is_some kd.kd_rawname ≡ true
    → (dev : ℕ) × (kd.kd_device ≡ some dev)
raw-device kd (inl (fs, mounted, bare)) raw = cc (sym raw ∙ ap is_some bare)
raw-device kd (inr device) raw = device

-- A `mountfunc` that returns 0 hands back a file system.
abbrev pub SetsUp : (ℕ → ℕ × Option ℕ) → Type 0
SetsUp mountfunc = (dev : ℕ) → ((mountfunc dev).0 == 0) ≡ is_some (mountfunc dev).1

some_or-some :
    {A : Type 0} (o : Option A) (a : A) (m : Call Vfs A) (w : Vfs)
    → o ≡ some a
    → some_or o m w ≡ returns a w
some_or-some o a m w e = ap (λ x. some_or x m w) e

module _ (ops : Fsops) (w : Vfs) (table : HasTable w) (n : List ℕ) where
  ends_mounted :
      (mountfunc : ℕ → ℕ × Option ℕ) (dev i : ℕ) (kd : Knowndev)
      → SetsUp mountfunc
      → get_elem? w.knowndevs i ≡ some kd
      → is_some kd.kd_rawname ≡ true
      → findmount_loop n w.knowndevs 0 ≡ some (i, kd)
      → kd.kd_device ≡ some dev
      → Ends (vfs_mount ops n mountfunc w) HasTable
  unfolding vfs_mount findmount
  ends_mounted mountfunc dev i kd sets at raw found d = elim (Bool-cases (is_some kd.kd_fs)) [
    | inl busy ↦ rw (found, busy) table
    | inr free ↦ elim (Option-cases (mountfunc dev).1) [
      | inl failed ↦
          rw (found, free, some_or-some kd.kd_device dev panic! w d, sets dev, failed) table
      | inr (fs, ok) ↦
          rw (found, free, some_or-some kd.kd_device dev panic! w d, sets dev, ok)
            (IsTable-same (SameDevices-set w.knowndevs i kd (some fs) at (inr raw)) table)
    ]
  ]

  pub ends_mount :
      (mountfunc : ℕ → ℕ × Option ℕ)
      → SetsUp mountfunc
      → Ends (vfs_mount ops n mountfunc w) HasTable
  unfolding vfs_mount findmount
  ends_mount mountfunc sets = elim (find_cases n w.knowndevs 0) [
    | inl nowhere ↦ rw nowhere table
    | inr (i, kd, e, at, raw) ↦
        let (dev, d) = raw-device kd (elem-HasDevice w.knowndevs i kd table at) raw in
        ends_mounted mountfunc dev i kd sets at raw (e ∙ ap (λ j. some (j, kd)) (omega arith)) d
  ]

  ends_unmount_at :
      (i : ℕ) (kd : Knowndev) (dev : ℕ)
      → get_elem? w.knowndevs i ≡ some kd
      → is_some kd.kd_rawname ≡ true
      → findmount_loop n w.knowndevs 0 ≡ some (i, kd)
      → kd.kd_device ≡ some dev
      → Ends (vfs_unmount ops n w) HasTable
  unfolding vfs_unmount findmount
  ends_unmount_at i kd dev at raw found d = elim (Option-cases kd.kd_fs) [
    | inl free ↦ rw (found, ap (λ o. some_or o (fail einval) w) free) table
    | inr (fs, mounted) ↦
        rw (found, some_or-some kd.kd_fs fs (fail einval) w mounted, ap is_some d)
          (elim (Bool-cases (ops.sync w.calls fs == 0)) [
            | inr failed ↦ rw failed table
            | inl synced ↦
                rw synced (elim (Bool-cases (ops.unmount (fsop_sync fs ∷ w.calls) fs == 0)) [
                  | inr kept ↦ rw kept table
                  | inl gone ↦
                      rw gone
                        (IsTable-same (SameDevices-set w.knowndevs i kd none at (inr raw)) table)
                ])
          ])
  ]

  pub ends_unmount : Ends (vfs_unmount ops n w) HasTable
  unfolding vfs_unmount findmount
  ends_unmount = elim (find_cases n w.knowndevs 0) [
    | inl nowhere ↦ rw nowhere table
    | inr (i, kd, e, at, raw) ↦
        let (dev, d) = raw-device kd (elem-HasDevice w.knowndevs i kd table at) raw in
        ends_unmount_at i kd dev at raw (e ∙ ap (λ j. some (j, kd)) (omega arith)) d
  ]
