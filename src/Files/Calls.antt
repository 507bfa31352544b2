-- ===== src/Files/Calls.antt =====
-- The system calls of assignment3/ownSolution/file.c on the open file table.
pub mod Open
pub mod Close
pub mod Offset
mod Tests
use cse_9201_os.Common.{
  ℕ, suc, ◌+◌, ◌^◌, Bool, Option, none, some, get_elem?, ltb, leb, ◌==◌, if◌then◌else◌, Res, done,
  undefined, ◌>>=◌, in_bounds, store,
}
use cse_9201_os.Common.Int.{ℤ, pos, negsuc, ◌+ℤ◌, ◌-ℤ◌, ltb_ℤ}
use cse_9201_os.Common.Errno.{einval, emfile, enfile}
use cse_9201_os.Files.{
  Vn, Ofte, Files, FdAccess, Vfs, max_fd, vnode, f_read, f_write, f_any, the_vnode, entry, is_zero,
  check_fd_access, oft_alloc, oft_free, free_fd_from,
}

-- The error code (0 for success), what goes through `retval`, and the new state.
abbrev pub Reply : Type 0 → Type 0
Reply V = ℤ × Option ℤ × Files V

-- `off_t` is 32 bits wide and signed; a sum that does not fit is undefined.
abbrev pub off_t : ℤ → Res ℤ
off_t (pos n) = if ltb n (2 ^ 31) then done (pos n) else undefined
off_t (negsuc n) = if ltb n (2 ^ 31) then done (negsuc n) else undefined

module _ {V : Type 0} where
  -- The error code, the vnode that is handed to `vfs_close`, if any, and the new state.
  pub close_at : Files V → ℕ → Res (ℤ × Option V × Files V)
  unfolding oft_free
  close_at s fd = do
    (j, e) ← entry s fd
    (c, oft) ← oft_free s.oft j
    fd' ← store s.fd fd none
    let kept = done (pos 0, none, record { oft = oft; fd = fd' })
    let closed = (do v ← the_vnode e.vn; done (pos 0, some v, record { oft = oft; fd = fd' }))
    if is_zero c then closed else kept

  pub sys_close : Files V → ℤ → Res (ℤ × Option V × Files V)
  unfolding check_fd_access close_at
  sys_close s (pos fd) = do
    r ← check_fd_access s (pos fd) f_any
    if r == 0 then close_at s fd else done (pos r, none, s)
  sys_close s (negsuc n) = do r ← check_fd_access s (negsuc n) f_any; done (pos r, none, s)

module _ {V : Type 0} (vfs : Vfs V) where
  open vfs use {Path', User, copyinstr, vfs_open, vop_read, vop_write, vop_stat, vop_tryseek}

  -- What `sys_open` and `sys_kopen` have in common: an entry of `oft` for descriptor `fd`, and
  -- `vfs_open`.
  pub open_at : Files V → ℕ → Path' → ℕ → Res (Reply V)
  unfolding oft_alloc oft_free
  open_at s fd path flags = do
    (oftp, oft) ← oft_alloc s.oft
    elim oftp [
      | none ↦ do fd' ← store s.fd fd none; done (pos enfile, none, record { oft = oft; fd = fd' })
      | some j ↦
          let (r, vn) = vfs_open path flags in
          let failed = (do
            (c, oft') ← oft_free oft j
            fd' ← store s.fd fd none
            done (pos r, none, record { oft = oft'; fd = fd' })) in
          let opened = (do
            e ← in_bounds (get_elem? oft j)
            fd' ← store s.fd fd (some j)
            oft' ← store oft j (record e { fp = pos 0; flags = flags; vn = vnode vn })
            done (pos 0, some (pos fd), record { oft = oft'; fd = fd' })) in
          if r == 0 then opened else failed
    ]

  -- `mode` is ignored, as in the source.
  pub sys_open : Files V → User → ℕ → ℤ → Res (Reply V)
  unfolding free_fd_from open_at
  sys_open s filename flags mode =
      let (r, path) = copyinstr filename in
      let go = (do
        free ← free_fd_from max_fd 0 s.fd
        elim free [ none ↦ done (pos emfile, none, s) | some fd ↦ open_at s fd path flags ]) in
      if r == 0 then go else done (pos r, none, s)

  -- The caller is the kernel and passes a descriptor; one outside the table is undefined.
  pub sys_kopen : Files V → Path' → ℕ → ℕ → Res (Reply V)
  unfolding open_at
  sys_kopen s path flags fd = do
    p ← in_bounds (get_elem? s.fd fd)
    elim p [ none ↦ open_at s fd path flags | some j ↦ done (pos emfile, none, s) ]

  -- What `sys_read` and `sys_write` do once the access is granted, with `vop` for the call of the
  -- vnode.
  abbrev pub transfer : (V → ℤ → User → ℕ → ℕ × ℤ) → Files V → ℕ → User → ℕ → Res (Reply V)
  transfer vop s fd buf size = do
    (j, e) ← entry s fd
    v ← the_vnode e.vn
    let reply = vop v e.fp buf size
    let moved = (do
      oft ← store s.oft j (record e { fp = reply.1 })
      done (pos 0, some (reply.1 -ℤ e.fp), record s { oft = oft }))
    if reply.0 == 0 then moved else done (pos reply.0, none, s)

  pub sys_read : Files V → ℤ → User → ℕ → Res (Reply V)
  unfolding check_fd_access
  sys_read s (pos fd) buf size = do
    r ← check_fd_access s (pos fd) f_read
    if r == 0 then transfer vop_read s fd buf size else done (pos r, none, s)
  sys_read s (negsuc n) buf size = do r ← check_fd_access s (negsuc n) f_read; done (pos r, none, s)

  pub sys_write : Files V → ℤ → User → ℕ → Res (Reply V)
  unfolding check_fd_access
  sys_write s (pos fd) buf size = do
    r ← check_fd_access s (pos fd) f_write
    if r == 0 then transfer vop_write s fd buf size else done (pos r, none, s)
  sys_write s (negsuc n) buf size = do
    r ← check_fd_access s (negsuc n) f_write
    done (pos r, none, s)

  -- The new position that `sys_lseek` asks for, or an error code; `code` is SEEK_SET, SEEK_CUR or
  -- SEEK_END.
  pub seek_target : V → ℤ → ℤ → ℕ → Res (ℕ × ℤ)
  seek_target v fp offset code =
      if code == 0
      then done (0, offset)
      else if code == 1
      then (do newfp ← off_t (fp +ℤ offset); done (0, newfp))
      else if code == 2
      then (let (r, size) = vop_stat v in
          let at_end = (do newfp ← off_t (size +ℤ offset); done (0, newfp)) in
          if r == 0 then at_end else done (r, size))
      else done (einval, offset)

  pub lseek_at : Files V → ℕ → ℤ → ℕ → Res (Reply V)
  unfolding seek_target
  lseek_at s fd offset code = do
    (j, e) ← entry s fd
    v ← the_vnode e.vn
    (r, newfp) ← seek_target v e.fp offset code
    let sought = (do
      oft ← store s.oft j (record e { fp = newfp })
      done (pos 0, some newfp, record s { oft = oft }))
    let checked =
        if ltb_ℤ newfp (pos 0)
        then done (pos einval, none, s)
        else if ltb_ℤ (vop_tryseek v newfp) (pos 0)
        then done (vop_tryseek v newfp, none, s)
        else sought
    if r == 0 then checked else done (pos r, none, s)

  pub sys_lseek : Files V → ℤ → ℤ → ℕ → Res (Reply V)
  unfolding check_fd_access lseek_at
  sys_lseek s (pos fd) offset code = do
    r ← check_fd_access s (pos fd) f_any
    if r == 0 then lseek_at s fd offset code else done (pos r, none, s)
  sys_lseek s (negsuc n) offset code = do
    r ← check_fd_access s (negsuc n) f_any
    done (pos r, none, s)

  -- The descriptor is used unchecked. Both returns of the source return `r`; the size stands for
  -- what is stored in `*statbuf`.
  pub sys_fstat : Files V → ℤ → Res (ℕ × ℤ)
  sys_fstat s (pos fd) = do (j, e) ← entry s fd; v ← the_vnode e.vn; done (vop_stat v)
  sys_fstat s (negsuc n) = undefined
