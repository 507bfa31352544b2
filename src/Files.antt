-- ===== src/Files.antt =====
-- assignment3/ownSolution/file.c and file.h: the table of open files, and the calls of the current
-- thread on its file descriptors.
-- A pointer into `oft` is an index; a NULL pointer that is followed is undefined. The virtual file
-- system and the copy from user space are a record of operations, each with the error code that it
-- returns. `V` is the type of vnode pointers. A call returns its error code, what it stores through
-- `retval`, if it does, and the new state.
pub mod Calls
pub mod Refs
use cse_9201_os.Common.{
  ℕ, zero, suc, ◌+◌, ◌%◌, ◌^◌, ◌<◌, ◌≡◌, Bool, true, false, ◌&&◌, ◌||◌, Option, none, some, List,
  get_elem?, replicate, ltb, leb, ◌==◌, if◌then◌else◌, Res, done, panic, undefined, ◌>>=◌, ◌>>◌,
  assert, in_bounds, store,
}
use cse_9201_os.Common.Int.{ℤ, pos, negsuc, ◌+ℤ◌, ◌-ℤ◌, ltb_ℤ}
use cse_9201_os.Common.Errno.{einval, emfile, enfile, ebadf}

abbrev pub max_open_files : ℕ
max_open_files = 64

abbrev pub max_fd : ℕ
max_fd = 16

-- the field `vn` of an entry: NULL, BUSY_OFTE, or a vnode
pub data Vn (V : Type 0) : Type 0 where
  null : Vn V
  busy : Vn V
  vnode : V → Vn V

-- `struct ofte`
pub record Ofte (V : Type 0) : Type 0 where
  pub fp : ℤ
  pub flags : ℕ
  pub count : ℤ
  pub vn : Vn V

-- `oft`, and the `struct fdt` of the current thread
pub record Files (V : Type 0) : Type 0 where
  pub oft : List (Ofte V)
  pub fd : List (Option ℕ)

pub data FdAccess : Type 0 where
  f_read f_write f_any : FdAccess

-- The calls that file.c makes; `Path` is a string in the kernel, `User` a user pointer.
-- `vop_read v offset size` gives the error code and the offset that the `uio` ends with.
pub record Vfs (V : Type 0) : Type 1 where
  pub Path' : Type 0
  pub User : Type 0
  pub copyinstr : User → ℕ × Path'
  pub vfs_open : Path' → ℕ → ℕ × V
  pub vop_read : V → ℤ → User → ℕ → ℕ × ℤ
  pub vop_write : V → ℤ → User → ℕ → ℕ × ℤ
  pub vop_stat : V → ℕ × ℤ
  pub vop_tryseek : V → ℤ → ℤ

-- the `switch` of `check_fd_access`
abbrev pub check_mode : ℕ → FdAccess → Res ℕ
check_mode mode acc =
    if mode == 0
    then elim acc [ f_write ↦ done ebadf | _ ↦ done 0 ]
    else if mode == 1
    then elim acc [ f_read ↦ done ebadf | _ ↦ done 0 ]
    else if mode == 2
    then done 0
    else panic

abbrev pub is_zero : ℤ → Bool
is_zero (pos zero) = true
is_zero (pos (suc n)) = false
is_zero (negsuc n) = false

-- the loop of `sys_open` over the descriptors, for `n` more values of `i`
pub free_fd_from : ℕ → ℕ → List (Option ℕ) → Res (Option ℕ)
free_fd_from zero i fd = done none
free_fd_from (suc n) i fd =
    let rest = free_fd_from n (i + 1) fd in
    (do p ← in_bounds (get_elem? fd i); elim p [ none ↦ done (some i) | some j ↦ rest ])

module _ {V : Type 0} where
  -- `oft[j].vn == NULL`
  abbrev pub is_null : Vn V → Bool
  is_null null = true
  is_null busy = false
  is_null (vnode v) = false

  -- A use of the field `vn` as a vnode.
  abbrev pub the_vnode : Vn V → Res V
  the_vnode null = undefined
  the_vnode busy = undefined
  the_vnode (vnode v) = done v

  -- `fd_table->fd[filehandle]`, followed
  abbrev pub entry : Files V → ℕ → Res (ℕ × Ofte V)
  entry s filehandle = do
    p ← in_bounds (get_elem? s.fd filehandle)
    j ← in_bounds p
    e ← in_bounds (get_elem? s.oft j)
    done (j, e)

  pub check_fd_access : Files V → ℤ → FdAccess → Res ℕ
  check_fd_access s (negsuc n) acc = done ebadf
  check_fd_access s (pos filehandle) acc = if leb max_fd filehandle then done ebadf else (do
    p ← in_bounds (get_elem? s.fd filehandle)
    elim p [
      | none ↦ done ebadf
      | some j ↦ do e ← in_bounds (get_elem? s.oft j); check_mode (e.flags % 4) acc
    ])

  -- the loop of `oft_alloc`, for `n` more values of `i`
  pub oft_alloc_from : ℕ → ℕ → List (Ofte V) → Res (Option ℕ × List (Ofte V))
  oft_alloc_from zero i oft = done (none, oft)
  oft_alloc_from (suc n) i oft =
      let rest = oft_alloc_from n (i + 1) oft in
      (do
        e ← in_bounds (get_elem? oft i)
        let taken = (do
          oft' ← store oft i (record e { vn = busy; count = pos 1 })
          done (some i, oft'))
        if is_null e.vn then taken else rest)

  pub oft_alloc : List (Ofte V) → Res (Option ℕ × List (Ofte V))
  oft_alloc oft = oft_alloc_from max_open_files 0 oft

  -- The count that is left, and the table.
  pub oft_free : List (Ofte V) → ℕ → Res (ℤ × List (Ofte V))
  unfolding ◌-ℤ◌
  oft_free oft j = do
    e ← in_bounds (get_elem? oft j)
    let c = e.count -ℤ pos 1
    oft' ← store oft j (record e { count = c; vn = (if is_zero c then null else e.vn) })
    done (c, oft')

  -- the loop of `oft_bootstrap`, for `n` more values of `i`
  pub oft_clear_from : ℕ → ℕ → List (Ofte V) → Res (List (Ofte V))
  oft_clear_from zero i oft = done oft
  oft_clear_from (suc n) i oft = do
    e ← in_bounds (get_elem? oft i)
    oft' ← store oft i (record e { vn = null })
    oft_clear_from n (i + 1) oft'

  pub oft_bootstrap : List (Ofte V) → Res (List (Ofte V))
  oft_bootstrap oft = oft_clear_from max_open_files 0 oft
