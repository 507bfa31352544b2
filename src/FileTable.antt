-- ===== src/FileTable.antt =====
-- assignment2/ownSolution/file.c and file.h: the five arrays of the file table, and the calls that
-- open, close and duplicate a descriptor.
-- `V` is the type of vnode pointers; `NULL` in an array of `int`s is 0. An index outside an array is
-- undefined. The arrays may have any length, since the code goes through one cell more than file.h
-- declares. The two loops over `filetable_dup` get one round for each of the 19 descriptors.
pub mod Calls
pub mod Rings
pub mod Joins
pub mod Faults
pub mod Seeks
mod Tests
use cse_9201_os.Common.{
  ℕ, zero, suc, ◌+◌, ◌-◌, ◌%◌, ◌^◌, Bool, true, false, ◌&&◌, ◌||◌, Option, none, some, List,
  get_elem?, ltb, leb, ◌==◌, if◌then◌else◌, Res, done, undefined, diverge, ◌>>=◌, in_bounds, store,
}
use cse_9201_os.Common.Int.{ℤ, pos, negsuc}
use cse_9201_os.Common.Errno.{ebadf, emfile}

abbrev pub filetablesize : ℕ
filetablesize = 18

-- the file table, and `file_errno`
pub record FileTable (V : Type 0) : Type 0 where
  pub filetable : List (Option V)
  pub filetable_offset : List ℤ
  pub filetable_dup : List ℤ
  pub filetable_isdup : List ℤ
  pub filetable_parent : List ℤ
  pub file_errno : ℤ

-- The kernel functions that file.c calls, each with the error code that it returns: `copyin` gives
-- the bytes too, `vfs_open` the vnode, `vop_read` the bytes, `vop_stat` the `st_size` that it
-- leaves, and `vfs_getcwd` the bytes and the `iov_len` that the `uio` ends with.
pub record Kernel (V : Type 0) : Type 1 where
  pub Path' : Type 0
  pub User : Type 0
  pub copyin : User → ℕ → ℕ × List ℕ
  pub vfs_open : Path' → ℕ → ℕ × V
  pub vop_write : V → List ℕ → ℤ → ℕ
  pub vop_read : V → ℕ → ℤ → ℕ × List ℕ
  pub vop_stat : V → ℤ
  pub vop_tryseek : V → ℤ → ℕ
  pub vfs_chdir : Path' → ℕ
  pub vfs_getcwd : ℕ → ℕ × List ℕ × ℕ

-- What a call returns, and the table that it leaves.
abbrev pub Reply : Type 0 → Type 0
Reply V = ℤ × FileTable V

abbrev pub is_zero : ℤ → Bool
is_zero (pos zero) = true
is_zero (pos (suc n)) = false
is_zero (negsuc n) = false

-- A comparison of two `int`s, of which the second is a descriptor.
abbrev pub is_fd : ℤ → ℕ → Bool
is_fd (pos n) fd = n == fd
is_fd (negsuc n) fd = false

abbrev pub present : {V : Type 0} → Option V → Bool
present none = false
present (some v) = true

-- the loop of `updateoffset`, which changes `filetable_offset`
unfoldable pub share_from : ℕ → ℕ → ℕ → List ℤ → List ℤ → Res (List ℤ)
share_from zero orgfd fd dup offset = diverge
share_from (suc fuel) orgfd fd dup offset = do
  next ← in_bounds (get_elem? dup fd)
  elim next [
    | pos zero ↦ done offset
    | negsuc n ↦ done offset
    | pos (suc n) ↦ do
      x ← in_bounds (get_elem? offset fd)
      offset' ← store offset (suc n) x
      let rest = share_from fuel orgfd (suc n) dup offset'
      if orgfd == suc n then done offset' else rest
  ]

-- the loop of `dup2`: the descriptor that is to point to the new one
unfoldable pub last_from : ℕ → ℕ → ℕ → List ℤ → Res ℕ
last_from zero orgoldfd oldfd dup = diverge
last_from (suc fuel) orgoldfd oldfd dup = do
  next ← in_bounds (get_elem? dup oldfd)
  elim next [
    | pos zero ↦ done oldfd
    | negsuc n ↦ done oldfd
    | pos (suc n) ↦
        let rest = last_from fuel orgoldfd (suc n) dup in
        if orgoldfd == suc n then done oldfd else rest
  ]

module _ {V : Type 0} where
  -- `file_errno = e; return -1;`
  abbrev pub error : FileTable V → ℤ → Res (Reply V)
  error s e = done (negsuc 0, record s { file_errno = e })

  unfoldable pub updateoffset : FileTable V → ℕ → Res (FileTable V)
  unfolding share_from
  updateoffset s fd = do
    offset ← share_from (filetablesize + 1) fd fd s.filetable_dup s.filetable_offset
    done (record s { filetable_offset = offset })

  -- the loop of `close` over the duplicates, for `n` more values of `i`
  unfoldable pub close_dups : ℕ → ℕ → ℕ → FileTable V → Res (FileTable V)
  close_dups zero i fd s = done s
  close_dups (suc n) i fd s = do
    parent ← in_bounds (get_elem? s.filetable_parent i)
    s' ←
        (let closed = (do
          isdup ← store s.filetable_isdup i (pos 0)
          parents ← store s.filetable_parent i (pos 0)
          files ← store s.filetable i none
          done (record s {
            filetable = files;
            filetable_isdup = isdup;
            filetable_parent = parents;
          })) in
          if is_fd parent fd then closed else done s)
    close_dups n (i + 1) fd s'

  -- `close` of a descriptor that is open and no duplicate
  unfoldable pub close_at : FileTable V → ℕ → Res (Reply V)
  unfolding close_dups
  close_at s fd = do
    t ← close_dups (filetablesize + 1) 0 fd s
    files ← store t.filetable fd none
    offset ← store t.filetable_offset fd (negsuc 0)
    dup ← store t.filetable_dup fd (negsuc 0)
    done (pos 0, record t { filetable = files; filetable_offset = offset; filetable_dup = dup })

  unfoldable pub close : FileTable V → ℤ → Res (Reply V)
  unfolding close_at
  close s (negsuc n) = undefined
  close s (pos fd) = if ltb fd 3 then error s (pos ebadf) else (do
    file ← in_bounds (get_elem? s.filetable fd)
    let rest = (do
      isdup ← in_bounds (get_elem? s.filetable_isdup fd)
      let released = close_at s fd
      if is_zero isdup then released else error s (pos ebadf))
    if present file then rest else error s (pos ebadf))

  -- `dup2` from the loop on, where `oldfd` is open
  unfoldable pub dup2_at : FileTable V → ℕ → ℕ → Res (Reply V)
  unfolding last_from
  dup2_at s orgoldfd newfd = do
    oldfd ← last_from (filetablesize + 1) orgoldfd orgoldfd s.filetable_dup
    file ← in_bounds (get_elem? s.filetable oldfd)
    files ← store s.filetable newfd file
    dup ← store s.filetable_dup newfd (pos orgoldfd)
    dup' ← store dup oldfd (pos newfd)
    isdup ← store s.filetable_isdup newfd (pos 1)
    parents ← store s.filetable_parent newfd (pos orgoldfd)
    done (
      pos 0,
      record s {
        filetable = files;
        filetable_dup = dup';
        filetable_isdup = isdup;
        filetable_parent = parents;
      },
    )

  -- `dup2` from the test of `filetable[oldfd]` on
  unfoldable pub dup2_open : FileTable V → ℕ → ℕ → Res (Reply V)
  unfolding dup2_at
  dup2_open s oldfd newfd = do
    file ← in_bounds (get_elem? s.filetable oldfd)
    let joined = dup2_at s oldfd newfd
    if present file then joined else error s (pos ebadf)

  unfoldable pub dup2 : FileTable V → ℤ → ℤ → Res (Reply V)
  unfolding close dup2_open
  dup2 s (negsuc n) newfd = error s (pos ebadf)
  dup2 s (pos oldfd) (negsuc n) = error s (pos ebadf)
  dup2 s (pos oldfd) (pos newfd) =
      if ltb filetablesize oldfd || ltb filetablesize newfd then error s (pos ebadf) else (do
        file ← in_bounds (get_elem? s.filetable newfd)
        let closed = (do
          (result, t) ← close s (pos newfd)
          let go = dup2_open (record t { file_errno = result }) oldfd newfd
          if is_zero result then go else error t result)
        let go = dup2_open s oldfd newfd
        if present file then closed else go)

module _ {V : Type 0} (kernel : Kernel V) where
  open kernel use {Path', vfs_open}

  -- What `open` does with a free slot; `memory` is what `kmalloc` returned.
  unfoldable pub open_slot : FileTable V → ℕ → Option V → Path' → ℕ → Res (Reply V)
  open_slot s i memory path flags = do
    offset ← store s.filetable_offset i (pos 0)
    dup ← store s.filetable_dup i (negsuc 0)
    isdup ← store s.filetable_isdup i (pos 0)
    parents ← store s.filetable_parent i (pos 0)
    files ← store s.filetable i memory
    let t = record s {
      filetable_offset = offset;
      filetable_dup = dup;
      filetable_isdup = isdup;
      filetable_parent = parents;
      filetable = files;
    }
    let (result, v) = vfs_open path flags
    let opened = (do
      files' ← store files i (some v)
      done (pos i, record t { filetable = files'; file_errno = pos 0 }))
    if result == 0 then opened else error t (pos result)

  -- the loop of `open`, for `n` more values of `i`, and the test behind it
  unfoldable pub open_from : ℕ → ℕ → FileTable V → Option V → Path' → ℕ → Res (Reply V)
  unfolding open_slot
  open_from zero i s memory path flags = error s (pos emfile)
  open_from (suc n) i s memory path flags = do
    file ← in_bounds (get_elem? s.filetable i)
    let rest = open_from n (i + 1) s memory path flags
    let taken = open_slot s i memory path flags
    let free = (do
      isdup ← in_bounds (get_elem? s.filetable_isdup i)
      if is_zero isdup then taken else rest)
    if present file then rest else free

  -- The name is `open` in file.c.
  unfoldable pub open_file : FileTable V → Option V → Path' → ℕ → Res (Reply V)
  unfolding open_from
  open_file s memory path flags = open_from (filetablesize - 2) 3 s memory path flags
