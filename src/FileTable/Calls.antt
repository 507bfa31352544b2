-- ===== src/FileTable/Calls.antt =====
-- assignment2/ownSolution/file.c: `write`, `read`, `lseek`, `chdir` and `__getcwd`; and what
-- `mips_syscall` of syscall.c hands to the user program.
use cse_9201_os.Common.{
  ℕ, zero, suc, ◌+◌, ◌-◌, ◌%◌, ◌^◌, Bool, true, false, ◌||◌, Option, none, some, List, ◌++◌, drop,
  get_elem?, ltb, ◌==◌, if◌then◌else◌, Res, done, undefined, ◌>>=◌, in_bounds, store,
}
use cse_9201_os.Common.Int.{int_sum, ℤ, pos, negsuc, ◌+ℤ◌, ◌-ℤ◌, ltb_ℤ}
use cse_9201_os.Common.Errno.{einval, espipe, ebadf}
use cse_9201_os.FileTable.{FileTable, Kernel, Reply, is_zero, error, updateoffset}

-- the conversions between `int` and `size_t`
abbrev pub to_size : ℤ → ℕ
to_size (pos n) = n % 2 ^ 32
to_size (negsuc n) = 2 ^ 32 - 1 - n % 2 ^ 32

abbrev pub to_int : ℕ → ℤ
to_int n = if ltb (n % 2 ^ 32) (2 ^ 31) then pos (n % 2 ^ 32) else negsuc (2 ^ 32 - 1 - n % 2 ^ 32)

abbrev pub is_neg : ℤ → Bool
is_neg x = ltb_ℤ x (pos 0)

-- The sum of `lseek` for a value of `whence` that it knows: the old offset, the size of the file.
unfoldable pub seek_sum : ℕ → ℤ → ℤ → ℤ → Option (Res ℤ)
unfolding ◌+ℤ◌ ◌-ℤ◌
seek_sum zero old size seek_pos = some (done seek_pos)
seek_sum (suc zero) old size seek_pos = some (int_sum (old +ℤ seek_pos))
seek_sum (suc (suc zero)) old size seek_pos =
    some (do last ← int_sum (size -ℤ pos 1); int_sum (last +ℤ seek_pos))
seek_sum (suc (suc (suc n))) old size seek_pos = none

module _ {V : Type 0} (kernel : Kernel V) where
  open kernel use {
    Path', User, copyin, vop_write, vop_read, vop_stat, vop_tryseek, vfs_chdir, vfs_getcwd,
  }

  -- `write` to a descriptor that is open
  unfoldable pub write_at : FileTable V → ℕ → V → User → ℕ → Res (Reply V)
  unfolding updateoffset
  write_at s fd v buf nbytes = do
    let (fault, kbuffer) = copyin buf nbytes
    offset ← in_bounds (get_elem? s.filetable_offset fd)
    let result = vop_write v kbuffer offset
    let written = (do
      offsets ← store s.filetable_offset fd (to_int (to_size offset + nbytes))
      t ← updateoffset (record s { filetable_offset = offsets; file_errno = pos 0 }) fd
      done (to_int nbytes, t))
    let moved = if result == 0 then written else error s (pos result)
    if fault == 0 then moved else error s (pos fault)

  unfoldable pub write : FileTable V → ℤ → User → ℕ → Res (Reply V)
  unfolding write_at
  write s (negsuc n) buf nbytes = undefined
  write s (pos fd) buf nbytes = if fd == 0 then error s (pos ebadf) else (do
    file ← in_bounds (get_elem? s.filetable fd)
    elim file [ none ↦ error s (pos ebadf) | some v ↦ write_at s fd v buf nbytes ])

  -- `read` of a descriptor that is open for reading, with bytes left; `kbuffer` is what stands in
  -- the memory that `kmalloc` gave. The second result is what `copyout` gets.
  unfoldable pub read_some :
      FileTable V → ℕ → V → List ℕ → ℕ → ℤ → Res (ℤ × Option (List ℕ) × FileTable V)
  unfolding updateoffset ◌-ℤ◌
  read_some s fd v kbuffer buflen offset = do
    rest ← int_sum (vop_stat v -ℤ offset)
    let read_length = if ltb (to_size rest) buflen then rest else to_int buflen
    let (result, bytes) = vop_read v (to_size read_length) offset
    let moved = (do
      offset' ← int_sum (offset +ℤ read_length)
      offsets ← store s.filetable_offset fd offset'
      t ← updateoffset (record s { filetable_offset = offsets; file_errno = pos 0 }) fd
      done (read_length, some (bytes ++ drop (to_size read_length) kbuffer), t))
    if result == 0 then moved else done (negsuc 0, none, record s { file_errno = pos result })

  unfoldable pub read_at :
      FileTable V → ℕ → V → List ℕ → ℕ → Res (ℤ × Option (List ℕ) × FileTable V)
  unfolding read_some
  read_at s fd v kbuffer buflen = do
    offset ← in_bounds (get_elem? s.filetable_offset fd)
    let transferred = read_some s fd v kbuffer buflen offset
    if ltb_ℤ offset (vop_stat v) then transferred else done (pos 0, none, s)

  unfoldable pub read : FileTable V → ℤ → List ℕ → ℕ → Res (ℤ × Option (List ℕ) × FileTable V)
  unfolding read_at
  read s (negsuc n) kbuffer buflen = undefined
  read s (pos fd) kbuffer buflen = do
    file ← in_bounds (get_elem? s.filetable fd)
    let bad = done (negsuc 0, none, record s { file_errno = pos ebadf })
    elim file [
      | none ↦ bad
      | some v ↦
          let read' = read_at s fd v kbuffer buflen in if fd == 1 || fd == 2 then bad else read'
    ]

  -- `lseek` from the call of `VOP_TRYSEEK` on; `offset` is what stands in the table, and `known`
  -- says that `whence` was one of the three.
  unfoldable pub seek_to : FileTable V → ℕ → V → ℤ → ℤ → Bool → Res (Reply V)
  seek_to s fd v old offset known = do
    offsets ← store s.filetable_offset fd offset
    reset ← store s.filetable_offset fd old
    let result = vop_tryseek v offset
    let failed = error (record s { filetable_offset = reset }) (pos result)
    let unknown = done (negsuc 0, record s { filetable_offset = offsets; file_errno = pos 0 })
    let negative = error (record s { filetable_offset = reset }) (pos einval)
    let moved = done (offset, record s { filetable_offset = offsets; file_errno = pos 0 })
    let legal = if is_neg offset then negative else moved
    if result == 0 then (if known then legal else unknown) else failed

  -- `lseek` from the tests of `whence` on
  unfoldable pub seek_from : FileTable V → ℕ → V → ℤ → ℤ → ℕ → Res (Reply V)
  unfolding seek_sum seek_to
  seek_from s fd v old seek_pos whence = elim (seek_sum whence old (vop_stat v) seek_pos) [
    | none ↦ seek_to s fd v old old false
    | some sum ↦ do offset ← sum; seek_to s fd v old offset true
  ]

  unfoldable pub lseek : FileTable V → ℤ → ℤ → ℕ → Res (Reply V)
  unfolding seek_from
  lseek s (negsuc n) seek_pos whence = undefined
  lseek s (pos fd) seek_pos whence = if ltb fd 3 then error s (pos espipe) else (do
    file ← in_bounds (get_elem? s.filetable fd)
    elim file [
      | none ↦ error s (pos ebadf)
      | some v ↦ do
        old ← in_bounds (get_elem? s.filetable_offset fd)
        seek_from s fd v old seek_pos whence
    ])

  pub chdir : FileTable V → Path' → Res (Reply V)
  chdir s pathname =
      let result = vfs_chdir pathname in
      done (if result == 0 then pos 0 else negsuc 0, record s { file_errno = pos result })

  -- The second result is what `copyout` gets.
  pub getcwd : FileTable V → ℕ → Res (ℤ × Option (List ℕ) × FileTable V)
  getcwd s buflen =
      let (result, kbuffer, iov_len) = vfs_getcwd buflen in
      done (
        if result == 0 then to_int iov_len else negsuc 0,
        if result == 0 then some kbuffer else none,
        record s { file_errno = pos result },
      )

module _ {V : Type 0} where
  -- What `mips_syscall` leaves in `tf_v0` and `tf_a3` after one of the calls above returned.
  unfoldable pub syscall_result : Reply V → ℤ × ℕ
  syscall_result (pos retval, s) = (pos retval, 0)
  syscall_result (negsuc (suc n), s) = (negsuc (suc n), 0)
  syscall_result (negsuc zero, s) =
      if is_zero s.file_errno then (negsuc 0, 0) else (s.file_errno, 1)
