-- ===== src/Vfs/Names.antt =====
-- Which device of the table answers to a name, and adding a device.
use cse_9201_os.Common.{
  ℕ, ◌≡◌, refl, sym, ap, ◌∙◌, ◌≢◌, ◌⊎◌, inl, inr, true, false, List, [], ◌∷◌, ◌++◌, Option, none,
  some, Bool-cases, arith,
}
use cse_9201_os.Common.Calls.{Out, returns, fails, panics}
use cse_9201_os.Common.Errno.{enxio, enodev}
use cse_9201_os.Common.Strings.{same_name}
use cse_9201_os.Vfs.{
  called, Knowndev, Vfs, vop_incref, Fsops, samestring, is_some, volume_of, getroot_loop,
}

-- None of the names of the device is `n`.
pub record IsUnnamed (ops : Fsops) (n : List ℕ) (kd : Knowndev) : Type 0 where
  pub name : same_name kd.kd_name n ≡ false
  pub rawname : samestring kd.kd_rawname (some n) ≡ false
  pub volume : samestring (volume_of ops kd.kd_fs) (some n) ≡ false

-- The name is that of a device that can be mounted and is not.
pub record IsMountable (n : List ℕ) (kd : Knowndev) : Type 0 where
  pub name : same_name kd.kd_name n ≡ true
  pub rawname : is_some kd.kd_rawname ≡ true
  pub unmounted : kd.kd_fs ≡ none

-- a panic or a vnode
abbrev pub Answered : Out Vfs ℕ → Type 0
Answered o = (o ≡ panics) ⊎ ((v : ℕ) × (w : Vfs) × (o ≡ returns v w))

module _ (ops : Fsops) (n nm : List ℕ) (vn : ℕ) (kds : List Knowndev) (w : Vfs) where
  abbrev device : Option (List ℕ) → Option ℕ → Option ℕ → Knowndev
  device raw dev fs = record {
    kd_name = nm;
    kd_rawname = raw;
    kd_device = dev;
    kd_vnode = vn;
    kd_fs = fs;
  }

  -- The device answers with its own vnode, or panics.
  raw_answers :
      (r : List ℕ) (dev fs : Option ℕ)
      → same_name r n ≡ true
      → same_name nm n ≡ false
      → samestring (volume_of ops fs) (some n) ≡ false
      → Answered (getroot_loop ops n (device (some r) dev fs ∷ kds) w)
  unfolding getroot_loop
  raw_answers r none none raw other vol = inl (rw (raw, other) refl)
  raw_answers r (some d) none raw other vol =
      inr (vn, called (vop_incref vn) w, rw (raw, other) refl)
  raw_answers r none (some f) raw other vol = inl (rw (raw, other, vol) refl)
  raw_answers r (some d) (some f) raw other vol =
      inr (vn, called (vop_incref vn) w, rw (raw, other, vol) refl)

  -- The device has the name, and cannot be mounted.
  name_answers :
      (dev fs : Option ℕ) (raw : Option (List ℕ))
      → same_name nm n ≡ true
      → (is_some raw ≡ false) ⊎ (is_some fs ≡ true)
      → Answered (getroot_loop ops n (device raw dev fs ∷ kds) w)
  unfolding getroot_loop
  name_answers dev (some f) raw named e = inr (ops.getroot f, w, rw named refl)
  name_answers none none none named e = inl (rw named refl)
  name_answers (some d) none none named e = inr (vn, called (vop_incref vn) w, rw named refl)
  name_answers dev none (some r) named (inl e) = cc e
  name_answers dev none (some r) named (inr e) = cc e

  volume_answers :
      (raw : Option (List ℕ)) (dev fs : Option ℕ)
      → same_name nm n ≡ false
      → samestring (volume_of ops fs) (some n) ≡ true
      → Answered (getroot_loop ops n (device raw dev fs ∷ kds) w)
  unfolding getroot_loop
  volume_answers raw dev none other vol = cc vol
  volume_answers raw dev (some f) other vol = inr (ops.getroot f, w, rw (other, vol) refl)

  unnamed_skips :
      (raw : Option (List ℕ)) (dev fs : Option ℕ)
      → IsUnnamed ops n (device raw dev fs)
      → getroot_loop ops n (device raw dev fs ∷ kds) w ≡ getroot_loop ops n kds w
  unfolding getroot_loop
  unnamed_skips none dev none u = rw u.name refl
  unnamed_skips (some r) dev none u = rw (u.name, u.rawname) refl
  unnamed_skips none dev (some f) u = rw (u.name, u.volume) refl
  unnamed_skips (some r) dev (some f) u = rw (u.name, u.rawname, u.volume) refl

  rawname_cases :
      (raw : Option (List ℕ)) (dev fs : Option ℕ)
      → same_name nm n ≡ false
      → samestring (volume_of ops fs) (some n) ≡ false
      → IsUnnamed ops n (device raw dev fs)
        ⊎ Answered (getroot_loop ops n (device raw dev fs ∷ kds) w)
  rawname_cases none dev fs other vol = inl (record { name = other; rawname = refl; volume = vol })
  rawname_cases (some r) dev fs other vol = elim (Bool-cases (same_name r n)) [
    | inl same ↦ inr (raw_answers r dev fs same other vol)
    | inr raw ↦ inl (record { name = other; rawname = raw; volume = vol })
  ]

  named_cases :
      (raw : Option (List ℕ)) (dev fs : Option ℕ)
      → same_name nm n ≡ true
      → IsMountable n (device raw dev fs)
        ⊎ Answered (getroot_loop ops n (device raw dev fs ∷ kds) w)
  named_cases none dev fs named = inr (name_answers dev fs none named (inl refl))
  named_cases (some r) dev none named =
      inl (record { name = named; rawname = refl; unmounted = refl })
  named_cases (some r) dev (some f) named =
      inr (name_answers dev (some f) (some r) named (inr refl))

  -- The three ways in which `vfs_getroot` treats a device.
  device_cases :
      (raw : Option (List ℕ)) (dev fs : Option ℕ)
      → IsUnnamed ops n (device raw dev fs)
        ⊎ (IsMountable n (device raw dev fs)
            ⊎ Answered (getroot_loop ops n (device raw dev fs ∷ kds) w))
  device_cases raw dev fs = elim (Bool-cases (same_name nm n)) [
    | inl named ↦ inr (named_cases raw dev fs named)
    | inr other ↦ elim (Bool-cases (samestring (volume_of ops fs) (some n))) [
      | inl vol ↦ inr (inr (volume_answers raw dev fs other vol))
      | inr vol ↦ elim (rawname_cases raw dev fs other vol) [
        | inl unnamed ↦ inl unnamed
        | inr answered ↦ inr (inr answered)
      ]
    ]
  ]

module _ (ops : Fsops) (n : List ℕ) (kd : Knowndev) (kds : List Knowndev) (w : Vfs) where
  pub head_cases :
      IsUnnamed ops n kd ⊎ (IsMountable n kd ⊎ Answered (getroot_loop ops n (kd ∷ kds) w))
  head_cases = device_cases ops n kd.kd_name kd.kd_vnode kds w kd.kd_rawname kd.kd_device kd.kd_fs

  pub head_skips : IsUnnamed ops n kd → getroot_loop ops n (kd ∷ kds) w ≡ getroot_loop ops n kds w
  head_skips = unnamed_skips ops n kd.kd_name kd.kd_vnode kds w kd.kd_rawname kd.kd_device kd.kd_fs

  pub head_mountable : IsMountable n kd → getroot_loop ops n (kd ∷ kds) w ≡ fails enxio w
  unfolding getroot_loop
  head_mountable m = rw (m.unmounted, m.rawname, m.name) refl

  -- An answer is no error code.
  pub answer_or_fail : {e : ℕ} {o : Out Vfs ℕ} → Answered o → o ≢ fails e w
  answer_or_fail (inl p) = λ f. cc (p, f)
  answer_or_fail (inr (v, w', r)) = λ f. cc (r, f)

abbrev code_of : Out Vfs ℕ → ℕ
code_of (fails e w) = e
code_of _ = 0

pub codes_differ : {o : Out Vfs ℕ} (w : Vfs) → o ≡ fails enxio w → o ≢ fails enodev w
codes_differ w e e' = omega (arith, ap code_of e, ap code_of e')

-- No device has the name.
abbrev pub AllUnnamed : Fsops → List ℕ → List Knowndev → Type 0
AllUnnamed ops n [] = Unit
AllUnnamed ops n (kd ∷ kds) = IsUnnamed ops n kd × AllUnnamed ops n kds

module _ (ops : Fsops) (n : List ℕ) where
  pub unknown-AllUnnamed :
      (kds : List Knowndev) (w : Vfs)
      → getroot_loop ops n kds w ≡ fails enodev w
      → AllUnnamed ops n kds
  unknown-AllUnnamed [] w e = tt
  unknown-AllUnnamed (kd ∷ kds) w e = elim (head_cases ops n kd kds w) [
    | inl unnamed ↦
        (unnamed, unknown-AllUnnamed kds w (sym (head_skips ops n kd kds w unnamed) ∙ e))
    | inr (inl m) ↦ absurd (codes_differ w (head_mountable ops n kd kds w m) e)
    | inr (inr a) ↦ absurd (answer_or_fail ops n kd kds w a e)
  ]

  pub unnamed-append :
      (kds l : List Knowndev) (w : Vfs)
      → AllUnnamed ops n kds
      → getroot_loop ops n (kds ++ l) w ≡ getroot_loop ops n l w
  unnamed-append [] l w u = refl
  unnamed-append (kd ∷ kds) l w (u, us) =
      head_skips ops n kd (kds ++ l) w u ∙ unnamed-append kds l w us
