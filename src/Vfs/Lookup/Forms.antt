-- ===== src/Vfs/Lookup/Forms.antt =====
-- The forms of a path, and where the look-up of each starts.
use cse_9201_os.Common.{
  ℕ, suc, Bool, false, List, [], ◌∷◌, Option, none, some, ◌==◌, if◌then◌else◌, drop,
}
use cse_9201_os.Common.Calls.{Out, Call, returns, fails, panics}
use cse_9201_os.Common.Errno.{enoent}
use cse_9201_os.Vfs.{called, vop_incref, vop_decref, Vfs, Fsops, vfs_getroot}
use cse_9201_os.Vfs.Lookup.{Vnops}

-- what stands before and behind the first colon, if no slash comes before it
abbrev pub push : ℕ → Option (List ℕ × List ℕ) → Option (List ℕ × List ℕ)
push c none = none
push c (some (d, r)) = some (c ∷ d, r)

abbrev pub split_colon : List ℕ → Option (List ℕ × List ℕ)
split_colon [] = none
split_colon (c ∷ cs) =
    let rest = split_colon cs in
    if c == 58 then some ([], cs) else if c == 47 then none else push c rest

-- where the look-up starts
pub data PathStart : Type 0 where
  relative boot current : PathStart
  device : List ℕ → PathStart

abbrev pub starts_slash : List ℕ → Bool
starts_slash [] = false
starts_slash (c ∷ cs) = c == 47

-- the path without its leading slashes
abbrev pub leading_slashes : List ℕ → ℕ
leading_slashes [] = 0
leading_slashes (c ∷ cs) = let rest = leading_slashes cs in if c == 47 then suc rest else 0

abbrev pub strip : List ℕ → List ℕ
strip path = drop (leading_slashes path) path

abbrev pub with_colon : List ℕ → Option (List ℕ × List ℕ) → PathStart × List ℕ
with_colon path (some ([], r)) = (current, strip r)
with_colon path (some (c ∷ d, r)) = (device (c ∷ d), strip r)
with_colon path none = if starts_slash path then (boot, strip path) else (relative, path)

-- `name:path`, `/path`, `:path`, or a path from the current directory
abbrev pub parse : List ℕ → PathStart × List ℕ
parse path = with_colon path (split_colon path)

-- The vnode of a variable with one reference more; ENOENT where it is NULL.
abbrev pub refer : Option ℕ → Vfs → Out Vfs ℕ
refer none w = fails enoent w
refer (some vn) w = returns vn (called (vop_incref vn) w)

-- The root of the file system that the current directory is on, with the reference to that
-- directory given back.
abbrev pub current_root : Fsops → Option ℕ → Vfs → ℕ → Out Vfs ℕ
current_root ops none w vn = panics
current_root ops (some fs) w vn =
    returns (ops.getroot fs) (called (vop_decref vn) (called (vop_incref vn) w))

abbrev pub root_of_current : Fsops → Vnops → Option ℕ → Vfs → Out Vfs ℕ
root_of_current ops vnops none w = fails enoent w
root_of_current ops vnops (some vn) w = current_root ops (vnops.vn_fs vn) w vn

abbrev pub start : Fsops → Vnops → PathStart → Call Vfs ℕ
start ops vnops relative w = refer w.t_cwd w
start ops vnops boot w = refer w.bootfs_vnode w
start ops vnops current w = root_of_current ops vnops w.t_cwd w
start ops vnops (device d) w = vfs_getroot ops d w
