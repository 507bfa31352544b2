-- ===== src/Vfs/Lookup.antt =====
-- Paths: kern/fs/vfs/vfslookup.c, and kern/fs/vfs/vfscwd.c but for `vfs_getcwd`.
-- A path is the list of its bytes before the NUL. `bootfs_lock` is held through each use of
-- `bootfs_vnode`. The operations of a vnode are the record `Vnops`, with their results.
pub mod Forms
pub mod Parse
pub mod BootFs
mod Tests
use cse_9201_os.Common.{
  ℕ, zero, suc, ◌+◌, Bool, true, false, not, List, [], ◌∷◌, ◌++◌, Option, none, some, ◌==◌, ◌&&◌,
  if◌then◌else◌, ltb, take, drop, bit_and, length,
}
use cse_9201_os.Common.Calls.{
  Out, Call, returns, fails, panics, undef, diverges, pure, fail, panic!, get_state, modify, check,
  ◌>>=◌, ◌>>◌,
}
use cse_9201_os.Common.Errno.{einval, enoent, enotdir}
use cse_9201_os.Vfs.{
  Vfs, VfsCall, vop_incref, vop_decref, Fsops, called, vop, is_some, some_or, vfs_getroot,
}

-- `vn_fs`, VOP_GETTYPE, VOP_LOOKUP and VOP_LOOKPARENT; a result comes first
pub record Vnops : Type 0 where
  pub vn_fs : ℕ → Option ℕ
  pub gettype : ℕ → ℕ × ℕ
  pub lookup : ℕ → List ℕ → ℕ × ℕ
  pub lookparent : ℕ → List ℕ → ℕ × ℕ × List ℕ

abbrev pub s_ifmt : ℕ
s_ifmt = 28672

abbrev pub s_ifdir : ℕ
s_ifdir = 8192

unfoldable pub vfs_getcurdir : Call Vfs ℕ
vfs_getcurdir = do w ← get_state; vn ← some_or w.t_cwd (fail enoent); vop (vop_incref vn); pure vn

-- VOP_DECREF of what was in a variable, if it was not NULL
abbrev pub drop_old : Option ℕ → Call Vfs (Unit {0})
drop_old none = pure tt
drop_old (some vn) = vop (vop_decref vn)

-- `colon` and `slash` behind the loop of `getdevice`, from index `i`
unfoldable pub first_separator : List ℕ → ℕ → Option ℕ × Option ℕ
first_separator [] i = (none, none)
first_separator (c ∷ cs) i =
    let rest = first_separator cs (i + 1) in
    if c == 58 then (some i, none) else if c == 47 then (none, some i) else rest

unfoldable pub skip_slashes : List ℕ → List ℕ
skip_slashes [] = []
skip_slashes (c ∷ cs) = let rest = skip_slashes cs in if c == 47 then rest else c ∷ cs

abbrev pub is_index : ℕ → Option ℕ → Bool
is_index i none = false
is_index i (some j) = j == i

unfoldable pub vfs_clearcurdir : Call Vfs (Unit {0})
vfs_clearcurdir = do w ← get_state; modify λ v. record v { t_cwd = none }; drop_old w.t_cwd

-- VOP_DECREF where the call before failed
abbrev pub or_decref : {A : Type 0} → ℕ → Out Vfs A → Out Vfs A
or_decref vn (returns a w) = returns a w
or_decref vn (fails e w) = fails e (called (vop_decref vn) w)
or_decref vn panics = panics
or_decref vn undef = undef
or_decref vn diverges = diverges

unfoldable pub change_bootfs : Option ℕ → Call Vfs (Unit {0})
change_bootfs newguy = do
  w ← get_state
  modify λ v. record v { bootfs_vnode = newguy }
  drop_old w.bootfs_vnode

unfoldable pub vfs_clearbootfs : Call Vfs (Unit {0})
unfolding change_bootfs
vfs_clearbootfs = change_bootfs none

-- `strchr(tmp, ':')`: the string from the first colon on
unfoldable pub from_colon : List ℕ → Option (List ℕ)
from_colon [] = none
from_colon (c ∷ cs) = let rest = from_colon cs in if c == 58 then some (c ∷ cs) else rest

module _ (ops : Fsops) (vnops : Vnops) where
  -- `startvn` for a path with a leading slash
  unfoldable pub from_boot : Call Vfs ℕ
  from_boot = do
    w ← get_state
    vn ← some_or w.bootfs_vnode (fail enoent)
    vop (vop_incref vn)
    pure vn

  -- `startvn` for a path with a leading colon
  unfoldable pub from_current : Call Vfs ℕ
  unfolding vfs_getcurdir
  from_current = do
    vn ← vfs_getcurdir
    fs ← some_or (vnops.vn_fs vn) panic!
    vop (vop_decref vn)
    pure (ops.getroot fs)

  -- It hands back `subpath` and `startvn`.
  unfoldable pub getdevice : List ℕ → Call Vfs (List ℕ × ℕ)
  unfolding first_separator skip_slashes vfs_getcurdir from_boot from_current
  getdevice path =
      let (colon, slash) = first_separator path 0 in
      let relative = (do vn ← vfs_getcurdir; pure (path, vn)) in
      let on_device = λ (i : ℕ). (do
        vn ← vfs_getroot ops (take i path)
        pure (skip_slashes (drop (i + 1) path), vn)) in
      let leading = (do
        if is_index 0 colon then pure tt else if is_index 0 slash then pure tt else panic!
        vn ← if is_index 0 slash then from_boot else from_current
        pure (skip_slashes (drop 1 path), vn)) in
      if not (is_some colon) && not (is_index 0 slash)
      then relative
      else elim colon [ none ↦ leading | some i ↦ if ltb 0 i then on_device i else leading ]

  unfoldable pub vfs_lookup : List ℕ → Call Vfs ℕ
  unfolding getdevice
  vfs_lookup path = do
    (sub, start) ← getdevice path
    let (result, vn) = vnops.lookup start sub
    let named = vop (vop_decref start) >> check result >> pure vn
    elim sub [ [] ↦ pure start | _ ∷ _ ↦ named ]

  -- It hands back the vnode and the last name.
  unfoldable pub vfs_lookparent : List ℕ → Call Vfs (ℕ × List ℕ)
  unfolding getdevice
  vfs_lookparent path = do
    (sub, start) ← getdevice path
    let (result, vn, name) = vnops.lookparent start sub
    let named = vop (vop_decref start) >> check result >> pure (vn, name)
    let nameless = vop (vop_decref start) >> fail einval
    elim sub [ [] ↦ nameless | _ ∷ _ ↦ named ]

  unfoldable pub vfs_setcurdir : ℕ → Call Vfs (Unit {0})
  vfs_setcurdir dir = do
    let (result, vtype) = vnops.gettype dir
    check result
    if bit_and vtype s_ifmt == s_ifdir then pure tt else fail enotdir
    w ← get_state
    modify λ v. record v { t_cwd = some dir }
    drop_old w.t_cwd

  unfoldable pub vfs_chdir : List ℕ → Call Vfs (Unit {0})
  unfolding vfs_lookup vfs_setcurdir
  vfs_chdir path = do vn ← vfs_lookup path; λ w. or_decref vn (vfs_setcurdir vn w)

  -- `snprintf` writes NAME_MAX - 1 bytes and a NUL at most.
  unfoldable pub vfs_setbootfs : List ℕ → Call Vfs (Unit {0})
  unfolding from_colon vfs_chdir vfs_getcurdir change_bootfs
  vfs_setbootfs fsname = do
    let tmp = take 254 fsname
    let refused = λ (s : List ℕ). if ltb 0 (length s) then fail einval else vfs_chdir tmp
    elim (from_colon tmp) [ none ↦ vfs_chdir (tmp ++ (58 ∷ [])) | some s ↦ refused s ]
    newguy ← vfs_getcurdir
    change_bootfs (some newguy)
