-- ===== src/Files/Calls/Offset.antt =====
-- The calls that move the offset of an open file: `sys_read`, `sys_write` and `sys_lseek`.
use cse_9201_os.Common.{
  ℕ, ◌+◌, ◌%◌, ◌<◌, ◌≡◌, refl, ap, sym, ◌∙◌, inl, inr, Bool, true, false, none, some, length,
  get_elem?, get_elem?-lt, set, set_same, arith, ◌==◌, if◌then◌else◌, Bool-cases, lt→ltb,
  lt→leb_false, done, undefined,
}
use mathlib.Core.Path.{subst}
use cse_9201_os.Common.Errno.{ebadf}
use cse_9201_os.Common.Int.{ℤ, pos, ◌-ℤ◌, ltb_ℤ}
use cse_9201_os.Files.{
  Ofte, Files, Vfs, max_fd, check_fd_access, check_mode, f_any, f_read, f_write, FdAccess,
  the_vnode,
}
use cse_9201_os.Files.Refs.{refs, EntryOk, IsValid}
use cse_9201_os.Files.Calls.{
  Reply, transfer, sys_read, sys_write, lseek_at, seek_target, sys_lseek, sys_fstat,
}
use cse_9201_os.Files.Calls.Open.{write-IsValid}
use cse_9201_os.Files.Calls.Close.{IsOpen, check_mode-any}

module _ {V : Type 0} where
  -- the state with offset `fp` in entry `j`, which is `e`
  abbrev pub moved : Files V → ℕ → Ofte V → ℤ → Files V
  moved s j e fp = record s { oft = set s.oft j (record e { fp = fp }) }

read_mode : (mode : ℕ) → mode < 3 → check_mode mode f_read ≡ done (if mode == 1 then ebadf else 0)
read_mode mode h = ground arith

write_mode : (mode : ℕ) → mode < 3 → check_mode mode f_write ≡ done (if mode == 0 then ebadf else 0)
write_mode mode h = ground arith

done-if {ℓ} :
    {A : Type ℓ} (b : Bool) (x y : A) → (if b then done x else done y) ≡ done (if b then x else y)
done-if true x y = refl
done-if false x y = refl

not_neg : (n : ℕ) → ltb_ℤ (pos n) (pos 0) ≡ false
not_neg n = ground arith

module _ {V : Type 0} (others : ℕ → ℕ) (s : Files V) (valid : IsValid others s) where
  -- A descriptor that is not open: `check_fd_access` rejects it for every access, and `sys_fstat`,
  -- which does not call it, follows a NULL pointer.
  pub sys_fstat-unchecked :
      (vfs : Vfs V) (fd : ℕ) (acc : FdAccess)
      → get_elem? s.fd fd ≡ some none
      → (check_fd_access s (pos fd) acc ≡ done ebadf) × (sys_fstat vfs s (pos fd) ≡ undefined)
  unfolding check_fd_access sys_fstat
  sys_fstat-unchecked vfs fd acc get = (
    rw (
      lt→leb_false max_fd fd (omega (arith, get_elem?-lt s.fd fd none get, valid.fd_length)),
      get,
    ),
    rw get,
  )

module _ {V : Type 0} (others : ℕ → ℕ) (s : Files V) (valid : IsValid others s) (fd j : ℕ)
    (e : Ofte V) (v : V) (n : ℕ) (o : IsOpen others s fd j e v n) where
  -- A new offset keeps the tables well formed.
  moved-IsValid : (fp : ℤ) → IsValid others (moved s j e fp)
  moved-IsValid fp =
      subst (λ l. IsValid others (record { oft = set s.oft j (record e { fp = fp }); fd = l }))
        (set_same s.fd fd (some j) o.points_to)
        (write-IsValid others s fd j (some j) (some j) (record e { fp = fp }) valid o.points_to
          (λ k h. valid.in_table fd k (o.points_to ∙ ap some h)) (λ k ne. refl)
          (subst (λ l. EntryOk (refs j l + others j) e)
            (sym (set_same s.fd fd (some j) o.points_to)) (valid.counted j e o.is_entry)))

  check-mode : (acc : FdAccess) → check_fd_access s (pos fd) acc ≡ check_mode (e.flags % 4) acc
  unfolding check_fd_access
  check-mode acc = rw (lt→leb_false max_fd fd o.small, o.points_to, o.is_entry)

  module _ (vfs : Vfs V) where
    open vfs use {User, vop_read, vop_write, vop_tryseek}

    -- What a transfer by `vop` leaves: its error, with nothing changed, or the offset that it ends
    -- with, and the distance from the old one.
    abbrev pub Transferred : ℕ × ℤ → Reply V
    Transferred (r, fp) =
        if r == 0 then (pos 0, some (fp -ℤ e.fp), moved s j e fp) else (pos r, none, s)

    file_here : the_vnode e.vn ≡ done v
    file_here = rw o.is_file

    transfer_lem :
        (vop : V → ℤ → User → ℕ → ℕ × ℤ) (buf : User) (size : ℕ)
        → transfer vfs vop s fd buf size ≡ done (Transferred (vop v e.fp buf size))
    transfer_lem vop buf size =
        rw
          (
            o.points_to,
            o.is_entry,
            file_here,
            lt→ltb j (length s.oft) (get_elem?-lt s.oft j e o.is_entry),
          )
          (done-if ((vop v e.fp buf size).0 == 0) _ _)

    -- `sys_read` on a descriptor that is open for writing only gives EBADF and changes nothing; on
    -- any other open descriptor it calls VOP_READ at the entry's offset. An error of that call is
    -- reported and nothing changes; else the offset moves to where the transfer ended, `retval` gets
    -- the distance, nothing else changes and the tables stay well formed.
    pub sys_read_lem :
        (buf : User) (size : ℕ)
        → (sys_read vfs s (pos fd) buf size
            ≡ done (
                if e.flags % 4 == 1
                then (pos ebadf, none, s)
                else Transferred (vop_read v e.fp buf size)))
          × ((fp : ℤ) → IsValid others (moved s j e fp))
    unfolding sys_read
    sys_read_lem buf size = (
      elim (Bool-cases (e.flags % 4 == 1)) [
        | inl w ↦ rw (check-mode f_read, read_mode (e.flags % 4) o.mode, w)
        | inr r ↦
            rw (check-mode f_read, read_mode (e.flags % 4) o.mode, r)
              (transfer_lem vop_read buf size)
      ],
      moved-IsValid,
    )

    -- `sys_write` on a descriptor that is open for reading only gives EBADF and changes nothing; on
    -- any other open descriptor it calls VOP_WRITE at the entry's offset. An error of that call is
    -- reported and nothing changes; else the offset moves to where the transfer ended, `retval` gets
    -- the distance, nothing else changes and the tables stay well formed.
    pub sys_write_lem :
        (buf : User) (size : ℕ)
        → (sys_write vfs s (pos fd) buf size
            ≡ done (
                if e.flags % 4 == 0
                then (pos ebadf, none, s)
                else Transferred (vop_write v e.fp buf size)))
          × ((fp : ℤ) → IsValid others (moved s j e fp))
    unfolding sys_write
    sys_write_lem buf size = (
      elim (Bool-cases (e.flags % 4 == 0)) [
        | inl w ↦ rw (check-mode f_write, write_mode (e.flags % 4) o.mode, w)
        | inr r ↦
            rw (check-mode f_write, write_mode (e.flags % 4) o.mode, r)
              (transfer_lem vop_write buf size)
      ],
      moved-IsValid,
    )

    -- On an open descriptor `sys_lseek` to a position that is not negative and that fits `off_t`
    -- sets the offset to it and returns it, with SEEK_SET, whenever VOP_TRYSEEK answers with a number
    -- that is not negative: an error code of VOP_TRYSEEK, which is positive, is passed over.
    pub sys_lseek-ignores_error :
        (newfp code : ℕ)
        → vop_tryseek v (pos newfp) ≡ pos code
        → sys_lseek vfs s (pos fd) (pos newfp) 0
          ≡ done (pos 0, some (pos newfp), moved s j e (pos newfp))
    unfolding sys_lseek lseek_at seek_target
    sys_lseek-ignores_error newfp code answer = rw (
      check-mode f_any,
      check_mode-any (e.flags % 4) o.mode,
      o.points_to,
      o.is_entry,
      file_here,
      answer,
      lt→ltb j (length s.oft) (get_elem?-lt s.oft j e o.is_entry),
      not_neg newfp,
      not_neg code,
    )
