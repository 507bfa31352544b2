-- ===== src/Vfs/Add.antt =====
-- Adding a device to the table, and finding it there again.
use cse_9201_os.Common.{
  ℕ, ◌≡◌, refl, ap, ◌∙◌, ◌≢◌, Bool, true, false, ◌||◌, List, [], ◌∷◌, ◌++◌, Option, none, some,
  if◌then◌else◌, length, length-append, arith, Bool-cases, inl, inr,
}
use cse_9201_os.Common.Calls.{returns, fails}
use cse_9201_os.Common.Errno.{enxio, enodev, eexist}
use cse_9201_os.Common.Strings.{same_name, same_name_refl, ne→same_name_false}
use cse_9201_os.Vfs.{
  called, Knowndev, Vfs, vop_incref, Fsops, Allocs, samestring, samestring3, mkrawname, volume_of,
  badnames, vfs_doadd, vfs_adddev, getroot_loop, vfs_getroot,
}
use cse_9201_os.Vfs.Names.{AllUnnamed, unknown-AllUnnamed, unnamed-append, head_skips}

pub samestring-none : (a : Option (List ℕ)) → samestring a none ≡ false
samestring-none none = refl
samestring-none (some a) = refl

-- A name that differs from two names.
unlike :
    (x : Option (List ℕ)) (n1 n2 : List ℕ)
    → samestring x (some n1) ≡ false
    → samestring x (some n2) ≡ false
    → samestring3 x (some n1) (some n2) none ≡ false
unlike x n1 n2 h1 h2 = rw (h1, h2, samestring-none x) refl

unlike_one :
    (x : Option (List ℕ)) (n : List ℕ)
    → samestring x (some n) ≡ false
    → samestring3 x (some n) none none ≡ false
unlike_one x n h = rw (h, samestring-none x) refl

pub none_of :
    (a b c r : Bool)
    → (if a then true else if b || c then true else r) ≡ false
    → (a ≡ false) × (b ≡ false) × (c ≡ false) × (r ≡ false)
none_of true b c r h = cc h
none_of false true c r h = cc h
none_of false false true r h = cc h
none_of false false false r h = (refl, refl, refl, h)

first_false : (a b c : Bool) → (a || b || c) ≡ false → a ≡ false
first_false true b c h = h
first_false false b c h = refl

module _ (ops : Fsops) where
  not_bad :
      (kds : List Knowndev) (n1 n2 : List ℕ)
      → AllUnnamed ops n1 kds
      → AllUnnamed ops n2 kds
      → badnames ops kds (some n1) (some n2) none ≡ false
  unfolding badnames
  not_bad [] n1 n2 u1 u2 = refl
  not_bad (kd ∷ kds) n1 n2 (u1, us1) (u2, us2) =
      rw
        (
          unlike (volume_of ops kd.kd_fs) n1 n2 u1.volume u2.volume,
          unlike kd.kd_rawname n1 n2 u1.rawname u2.rawname,
          unlike (some kd.kd_name) n1 n2 u1.name u2.name,
        )
        (not_bad kds n1 n2 us1 us2)

  not_bad_one :
      (kds : List Knowndev) (n : List ℕ)
      → AllUnnamed ops n kds
      → badnames ops kds (some n) none none ≡ false
  unfolding badnames
  not_bad_one [] n u = refl
  not_bad_one (kd ∷ kds) n (u, us) =
      rw
        (
          unlike_one (volume_of ops kd.kd_fs) n u.volume,
          unlike_one kd.kd_rawname n u.rawname,
          unlike_one (some kd.kd_name) n u.name,
        )
        (not_bad_one kds n us)

  -- Where `badnames` finds no name, each device has none of them.
  good_names :
      (kds : List Knowndev) (n1 : List ℕ) (n2 : Option (List ℕ))
      → badnames ops kds (some n1) n2 none ≡ false
      → AllUnnamed ops n1 kds
  unfolding badnames
  good_names [] n1 n2 e = tt
  good_names (kd ∷ kds) n1 n2 e =
      let (vol, raw, name, rest) =
        none_of (samestring3 (volume_of ops kd.kd_fs) (some n1) n2 none)
          (samestring3 kd.kd_rawname (some n1) n2 none)
          (samestring3 (some kd.kd_name) (some n1) n2 none) (badnames ops kds (some n1) n2 none)
          e in
      (
        record {
          name = first_false (samestring (some kd.kd_name) (some n1)) _ _ name;
          rawname = first_false (samestring kd.kd_rawname (some n1)) _ _ raw;
          volume = first_false (samestring (volume_of ops kd.kd_fs) (some n1)) _ _ vol;
        },
        good_names kds n1 n2 rest,
      )

raw_differs : (name : List ℕ) → same_name name (mkrawname name) ≡ false
raw_differs name =
    ne→same_name_false name (mkrawname name)
      (λ e. omega (arith, ap (length {A = ℕ}) e, length-append {A = ℕ} name (114 ∷ 97 ∷ 119 ∷ [])))

abbrev pub raw_of : Bool → List ℕ → Option (List ℕ)
raw_of mountable name = if mountable then some (mkrawname name) else none

-- the name that the device itself goes by
abbrev pub own_name : Bool → List ℕ → List ℕ
own_name mountable name = if mountable then mkrawname name else name

-- every allocation succeeds
abbrev pub enough : ℕ → Allocs
enough v = record { name_ok = true; rawname_ok = true; vnode = some v; kd_ok = true; added = 0 }

abbrev pub new_device : List ℕ → ℕ → Bool → ℕ → Knowndev
new_device name dev mountable v = record {
  kd_name = name;
  kd_rawname = raw_of mountable name;
  kd_device = some dev;
  kd_vnode = v;
  kd_fs = none;
}

abbrev pub with_device : Knowndev → Vfs → Vfs
with_device kd w = record w { knowndevs = w.knowndevs ++ (kd ∷ []) }

module _ (ops : Fsops) (name : List ℕ) (dev v : ℕ) where
  not_bad_names :
      (mountable : Bool) (kds : List Knowndev)
      → AllUnnamed ops name kds
      → AllUnnamed ops (own_name mountable name) kds
      → badnames ops kds (some name) (raw_of mountable name) none ≡ false
  not_bad_names true kds u own = not_bad ops kds name (mkrawname name) u own
  not_bad_names false kds u own = not_bad_one ops kds name u

  adddev_lem :
      (mountable : Bool) (w : Vfs)
      → badnames ops w.knowndevs (some name) (raw_of mountable name) none ≡ false
      → vfs_adddev ops (enough v) name dev mountable w
        ≡ returns tt (with_device (new_device name dev mountable v) w)
  unfolding vfs_adddev vfs_doadd
  adddev_lem true w good = rw good refl
  adddev_lem false w good = rw good refl

  by_name :
      (mountable : Bool) (w : Vfs)
      → getroot_loop ops name (new_device name dev mountable v ∷ []) w
        ≡ (if mountable then fails enxio w else returns v (called (vop_incref v) w))
  unfolding getroot_loop
  by_name true w = rw (same_name_refl name) refl
  by_name false w = rw (same_name_refl name) refl

  by_own_name :
      (mountable : Bool) (w : Vfs)
      → getroot_loop ops (own_name mountable name) (new_device name dev mountable v ∷ []) w
        ≡ returns v (called (vop_incref v) w)
  unfolding getroot_loop
  by_own_name true w = rw (raw_differs name, same_name_refl (mkrawname name)) refl
  by_own_name false w = rw (same_name_refl name) refl

  -- Where `vfs_getroot` knows neither the name of a new device nor, if it can be mounted, its raw
  -- name, `vfs_adddev` with memory enough adds it at the end of the table. Then `vfs_getroot` hands
  -- back the vnode of the device, with one reference more, for the raw name, or for the name of a
  -- device that cannot be mounted; and ENXIO for the name of one that can be.
  pub adddev-getroot :
      (mountable : Bool) (w : Vfs)
      → vfs_getroot ops name w ≡ fails enodev w
      → vfs_getroot ops (own_name mountable name) w ≡ fails enodev w
      → (w' : Vfs) × (vfs_adddev ops (enough v) name dev mountable w ≡ returns tt w')
        × (w'.knowndevs ≡ w.knowndevs ++ (new_device name dev mountable v ∷ []))
        × (vfs_getroot ops (own_name mountable name) w' ≡ returns v (called (vop_incref v) w'))
        × (vfs_getroot ops name w'
            ≡ (if mountable then fails enxio w' else returns v (called (vop_incref v) w')))
  unfolding vfs_getroot
  adddev-getroot mountable w unknown own_unknown =
      let u = unknown-AllUnnamed ops name w.knowndevs w unknown in
      let own = unknown-AllUnnamed ops (own_name mountable name) w.knowndevs w own_unknown in
      let kd = new_device name dev mountable v in
      let w' = with_device kd w in
      (
        w',
        adddev_lem mountable w (not_bad_names mountable w.knowndevs u own),
        refl,
        unnamed-append ops (own_name mountable name) w.knowndevs (kd ∷ []) w' own
            ∙ by_own_name mountable w',
        unnamed-append ops name w.knowndevs (kd ∷ []) w' u ∙ by_name mountable w',
      )

  unnamed-unknown :
      (kds : List Knowndev) (w : Vfs)
      → AllUnnamed ops name kds
      → getroot_loop ops name kds w ≡ fails enodev w
  unfolding getroot_loop
  unnamed-unknown [] w u = refl
  unnamed-unknown (kd ∷ kds) w (u, us) = head_skips ops name kd kds w u ∙ unnamed-unknown kds w us

  refused :
      (mountable : Bool) (w : Vfs)
      → badnames ops w.knowndevs (some name) (raw_of mountable name) none ≡ true
      → vfs_adddev ops (enough v) name dev mountable w ≡ fails eexist w
  unfolding vfs_adddev vfs_doadd
  refused true w bad = rw bad refl
  refused false w bad = rw bad refl

  -- Where `vfs_getroot` knows the name, whatever it answers, `vfs_adddev` with memory enough refuses
  -- a new device of that name with EEXIST, and leaves the table.
  pub adddev-known :
      (mountable : Bool) (w : Vfs)
      → vfs_getroot ops name w ≢ fails enodev w
      → vfs_adddev ops (enough v) name dev mountable w ≡ fails eexist w
  unfolding vfs_getroot
  adddev-known mountable w known =
      elim (Bool-cases (badnames ops w.knowndevs (some name) (raw_of mountable name) none)) [
        | inl bad ↦ refused mountable w bad
        | inr good ↦ absurd (
            known (
              unnamed-unknown w.knowndevs w
                (good_names ops w.knowndevs name (raw_of mountable name) good)))
      ]
