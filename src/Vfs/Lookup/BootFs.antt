-- ===== src/Vfs/Lookup/BootFs.antt =====
-- Which names `vfs_setbootfs` takes.
use cse_9201_os.Common.{
  ℕ, ◌≡◌, refl, ap, Option, Bool, true, false, List, [], ◌∷◌, ◌++◌, none, some, ◌==◌, ◌||◌,
  if◌then◌else◌, take, length, Bool-cases, Option-cases, inl, inr, ◌⊎◌, arith, lt→ltb,
}
use cse_9201_os.Common.Calls.{Out, returns, fails, and_then}
use cse_9201_os.Common.Errno.{einval, enoent}
use cse_9201_os.Vfs.{Vfs, VfsCall, vop_incref, vop_decref, Fsops}
use cse_9201_os.Vfs.Lookup.{
  Vnops, from_colon, vfs_chdir, vfs_getcurdir, change_bootfs, vfs_setbootfs,
}

abbrev pub has_colon : List ℕ → Bool
has_colon [] = false
has_colon (c ∷ cs) = (c == 58) || has_colon cs

from_colon_cases :
    (l : List ℕ)
    → ((has_colon l ≡ false) × (from_colon l ≡ none))
      ⊎ ((c : ℕ) × (cs : List ℕ) × (has_colon l ≡ true) × (from_colon l ≡ some (c ∷ cs)))
unfolding from_colon
from_colon_cases [] = inl (refl, refl)
from_colon_cases (c ∷ cs) = elim (Bool-cases (c == 58)) [
  | inl colon ↦ inr (c, cs, rw colon refl, rw colon refl)
  | inr other ↦ elim (from_colon_cases cs) [
    | inl (h, f) ↦ inl (rw other h, rw other f)
    | inr (d, ds, h, f) ↦ inr (d, ds, rw other h, rw other f)
  ]
]

-- the calls with the reference in a variable given back, if it was not NULL
abbrev pub released : Option ℕ → List VfsCall → List VfsCall
released none calls = calls
released (some vn) calls = vop_decref vn ∷ calls

-- `vn` as the vnode of the boot file system, with a reference to it, in place of the old one
abbrev pub booting_from : Option ℕ → Vfs → Out Vfs (Unit {0})
booting_from none w = fails enoent w
booting_from (some vn) w =
    returns tt (record w {
      bootfs_vnode = some vn;
      calls = released w.bootfs_vnode (vop_incref vn ∷ w.calls);
    })

boot_from_here :
    (w : Vfs)
    → and_then (vfs_getcurdir w) (λ newguy. change_bootfs (some newguy)) ≡ booting_from w.t_cwd w
unfolding vfs_getcurdir change_bootfs
boot_from_here w = elim (Option-cases w.t_cwd) [
  | inl null ↦ rw null refl
  | inr (vn, e) ↦
      rw e (elim (Option-cases w.bootfs_vnode) [
        | inl unset ↦ rw unset refl
        | inr (old, o) ↦ rw o refl
      ])
]

module _ (ops : Fsops) (vnops : Vnops) (fsname : List ℕ) (w : Vfs) where
  -- Where the first 254 bytes of the name have a colon anywhere, at the end too, `vfs_setbootfs`
  -- returns EINVAL and changes nothing. Otherwise it goes to the directory of these bytes with a
  -- colon behind them by `vfs_chdir`, whose errors it returns. Then `bootfs_vnode` is the vnode of
  -- the current directory, with one reference more, and the reference to the vnode that was there
  -- is given back.
  pub vfs_setbootfs_lem : vfs_setbootfs ops vnops fsname w ≡ (
      if has_colon (take 254 fsname)
      then fails einval w
      else and_then
          (vfs_chdir ops vnops (take 254 fsname ++ (58 ∷ [])) w)
          λ u v. booting_from v.t_cwd v)
  unfolding vfs_setbootfs
  vfs_setbootfs_lem = elim (from_colon_cases (take 254 fsname)) [
    | inl (h, f) ↦
        rw (h, f)
          (ap (and_then (vfs_chdir ops vnops (take 254 fsname ++ (58 ∷ [])) w))
            (λ i u v. boot_from_here v i))
    | inr (c, cs, h, f) ↦ rw (h, f, lt→ltb 0 (length (c ∷ cs)) (omega arith)) refl
  ]
