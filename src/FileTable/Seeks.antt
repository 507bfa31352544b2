-- ===== src/FileTable/Seeks.antt =====
-- `lseek` on an open descriptor.
use cse_9201_os.Common.{
  ℕ, zero, suc, ◌≤◌, ◌≡◌, refl, inl, inr, true, not, some, length, get_elem?, get_elem?-lt, set,
  set_same, arith, ◌==◌, if◌then◌else◌, lt→ltb, le→ltb_false, Bool-cases, done,
}
use cse_9201_os.Common.Int.{ℤ, pos, negsuc}
use cse_9201_os.Common.Errno.{einval}
use cse_9201_os.FileTable.{FileTable, Kernel, Reply}
use cse_9201_os.FileTable.Calls.{is_neg, seek_sum, seek_to, seek_from, lseek, syscall_result}

module _ {V : Type 0} (kernel : Kernel V) (s : FileTable V) (fd : ℕ) (v : V) (old : ℤ) where
  open kernel use {vop_stat, vop_tryseek}

  abbrev pub stays : ℕ → Reply V
  stays e = (negsuc 0, record s { file_errno = pos e })

  abbrev pub moves : ℤ → Reply V
  moves offset =
      (offset, record s { filetable_offset = set s.filetable_offset fd offset; file_errno = pos 0 })

  seek_from-sum :
      (seek_pos offset : ℤ) (whence : ℕ)
      → seek_sum whence old (vop_stat v) seek_pos ≡ some (done offset)
      → seek_from kernel s fd v old seek_pos whence ≡ seek_to kernel s fd v old offset true
  unfolding seek_from
  seek_from-sum seek_pos offset whence sum = rw (seek_from, sum) refl

  -- `lseek` on an open descriptor from 3 on, for a `whence` that it knows and a sum that fits an
  -- `int`: the error of `VOP_TRYSEEK`, or else EINVAL for a negative offset, and the old offset is
  -- back in its place; or the new offset, in the table and as the result.
  pub lseek_lem :
      (seek_pos offset : ℤ) (whence : ℕ)
      → 3 ≤ fd
      → get_elem? s.filetable fd ≡ some (some v)
      → get_elem? s.filetable_offset fd ≡ some old
      → seek_sum whence old (vop_stat v) seek_pos ≡ some (done offset)
      → lseek kernel s (pos fd) seek_pos whence
        ≡ done (
            if not (vop_tryseek v offset == 0)
            then stays (vop_tryseek v offset)
            else if is_neg offset
            then stays einval
            else moves offset)
  unfolding lseek seek_to
  lseek_lem seek_pos offset whence three file off sum =
      rw
        (
          le→ltb_false fd 3 three,
          file,
          off,
          seek_from-sum seek_pos offset whence sum,
          lt→ltb fd (length s.filetable_offset) (get_elem?-lt s.filetable_offset fd old off),
          set_same s.filetable_offset fd old off,
        )
        (elim (Bool-cases (vop_tryseek v offset == 0)) [
          | inr b ↦ rw b refl
          | inl b ↦ elim (Bool-cases (is_neg offset)) [
            | inr c ↦ rw (b, c) refl
            | inl c ↦ rw (b, c) refl
          ]
        ])

  -- For a `whence` that `lseek` does not know, when `VOP_TRYSEEK` accepts the old offset, it
  -- returns -1 with the error code 0, so the user program gets -1 with the sign of success.
  pub lseek-bad_whence :
      (seek_pos : ℤ) (whence : ℕ)
      → 3 ≤ fd
      → get_elem? s.filetable fd ≡ some (some v)
      → get_elem? s.filetable_offset fd ≡ some old
      → 3 ≤ whence
      → vop_tryseek v old ≡ 0
      → (lseek kernel s (pos fd) seek_pos whence ≡ done (stays 0))
        × (syscall_result (stays 0) ≡ (negsuc 0, 0))
  unfolding lseek seek_from seek_to seek_sum syscall_result
  lseek-bad_whence seek_pos zero three file off bad accepts = absurd (omega arith)
  lseek-bad_whence seek_pos (suc zero) three file off bad accepts = absurd (omega arith)
  lseek-bad_whence seek_pos (suc (suc zero)) three file off bad accepts = absurd (omega arith)
  lseek-bad_whence seek_pos (suc (suc (suc n))) three file off bad accepts = (
    rw
        (
          le→ltb_false fd 3 three,
          file,
          off,
          lt→ltb fd (length s.filetable_offset) (get_elem?-lt s.filetable_offset fd old off),
          accepts,
          set_same s.filetable_offset fd old off,
        )
        refl,
    refl,
  )
