-- ===== src/Files/Calls/Close.antt =====
-- `sys_close`: a file is closed with its last reference.
use cse_9201_os.Common.{
  ℕ, zero, suc, ◌+◌, ◌-◌, ◌%◌, ◌≤◌, ◌<◌, ◌≡◌, refl, ap, sym, ◌∙◌, ◌⊎◌, inl, inr, Bool, true, false,
  Option, none, some, length, get_elem?, get_elem?-lt, set, arith, ◌==◌, if◌then◌else◌, dec_lt,
  lt→ltb, lt→leb_false, le→leb, eq→==, ne→==_false, Res, done, ℕ_discrete,
}
use mathlib.Core.Path.{subst}
use cse_9201_os.Common.Cells.{get_elem?-in}
use cse_9201_os.Common.Errno.{ebadf}
use cse_9201_os.Common.Int.{ℤ, pos, negsuc, ◌-ℤ◌}
use cse_9201_os.Files.{
  Vn, Ofte, Files, null, busy, vnode, max_fd, is_zero, oft_free, check_fd_access, check_mode, f_any,
}
use cse_9201_os.Files.Refs.{refs, refs-set, refs-pos, VnOk, EntryOk, points_self, IsValid}
use cse_9201_os.Files.Calls.{close_at, sys_close}
use cse_9201_os.Files.Calls.Open.{write-IsValid}

-- Descriptor `fd` refers to entry `j`, a file `v` that is open with `n` references.
pub record IsOpen {V : Type 0} (others : ℕ → ℕ) (s : Files V) (fd j : ℕ) (e : Ofte V) (v : V)
    (n : ℕ) : Type 0 where
  pub small : fd < max_fd
  pub points_to : get_elem? s.fd fd ≡ some (some j)
  pub is_entry : get_elem? s.oft j ≡ some e
  pub is_file : e.vn ≡ vnode v
  pub total : refs j s.fd + others j ≡ n
  pub counts : e.count ≡ pos n
  pub mode : e.flags % 4 < 3

minus_one : (n : ℕ) → 0 < n → pos n -ℤ pos 1 ≡ pos (n - 1)
unfolding ◌-ℤ◌
minus_one n h = ground arith

is_zero_lem : (n : ℕ) → is_zero (pos n) ≡ (n == 0)
is_zero_lem zero = refl
is_zero_lem (suc n) = ground arith

pub check_mode-any : (mode : ℕ) → mode < 3 → check_mode mode f_any ≡ done 0
check_mode-any mode h = ground arith

last_test : (n : ℕ) → 0 < n → (n - 1 == 0) ≡ (n == 1)
last_test n h = ground arith

if-done :
    {V : Type 0} (b : Bool) (v : V) (s : Files V)
    → ◌≡◌ {A = Res (ℤ × Option V × Files V)}
        (if b then done (pos 0, some v, s) else done (pos 0, none, s))
        (done (pos 0, (if b then some v else none), s))
if-done true v s = refl
if-done false v s = refl

module _ {V : Type 0} (others : ℕ → ℕ) (s : Files V) (valid : IsValid others s) where
  -- The cases of an entry that has a reference.
  open-entry :
      (n : ℕ) (e : Ofte V)
      → 0 < n
      → EntryOk n e
      → (v : V) × (e.vn ≡ vnode v) × (e.count ≡ pos n) × (e.flags % 4 < 3)
  open-entry n e h ok = by_vn e.vn refl ok
    where
      by_vn :
          (w : Vn V)
          → e.vn ≡ w
          → VnOk n e.count e.flags w
          → (v : V) × (e.vn ≡ vnode v) × (e.count ≡ pos n) × (e.flags % 4 < 3)
      by_vn null q z = absurd (omega arith)
      by_vn busy q z = absurd z
      by_vn (vnode v) q (c, p, m) = (v, q, c, m)

  -- A descriptor is bad, or refers to an open file.
  pub descriptor_cases :
      (fd : ℕ)
      → ((max_fd ≤ fd) ⊎ (get_elem? s.fd fd ≡ some none))
        ⊎ ((j : ℕ) × (e : Ofte V) × (v : V) × (n : ℕ) × IsOpen others s fd j e v n)
  descriptor_cases fd = elim (dec_lt fd max_fd) [
    | no out ↦ inl (inl (omega arith))
    | yes small ↦
        let (p, get) = get_elem?-in s.fd fd (omega (arith, valid.fd_length)) in
        by_pointer small p get
  ]
    where
      by_pointer :
          fd < max_fd
          → (p : Option ℕ) → get_elem? s.fd fd ≡ some p
          → ((max_fd ≤ fd) ⊎ (get_elem? s.fd fd ≡ some none))
            ⊎ ((j : ℕ) × (e : Ofte V) × (v : V) × (n : ℕ) × IsOpen others s fd j e v n)
      by_pointer small none get = inl (inr get)
      by_pointer small (some j) get =
          let (e, entry) =
            get_elem?-in s.oft j (omega (arith, valid.oft_length, valid.in_table fd j get)) in
          let (v, file, count, mode) =
            open-entry (refs j s.fd + others j) e (omega (arith, refs-pos s.fd fd j get))
              (valid.counted j e entry) in
          inr (
            j,
            e,
            v,
            refs j s.fd + others j,
            record {
              small = small;
              points_to = get;
              is_entry = entry;
              is_file = file;
              total = refl;
              counts = count;
              mode = mode;
            },
          )

  module _ (fd j : ℕ) (e : Ofte V) (v : V) (n : ℕ) (o : IsOpen others s fd j e v n) where
    -- The entry that is left when a reference is dropped.
    abbrev left : Ofte V
    left = record e { count = pos (n - 1); vn = (if is_zero (pos (n - 1)) then null else e.vn) }

    abbrev closed : Files V
    closed = record { oft = set s.oft j left; fd = set s.fd fd none }

    n_pos : 0 < n
    n_pos = omega (arith, refs-pos s.fd fd j o.points_to, o.total)

    fewer : refs j (set s.fd fd none) + others j ≡ n - 1
    fewer =
        omega (arith, refs-set s.fd fd j (some j) none o.points_to, points_self j, o.total, n_pos)

    left-ok : VnOk (n - 1) (pos (n - 1)) e.flags (if is_zero (pos (n - 1)) then null else e.vn)
    left-ok = elim (ℕ_discrete (n - 1) 0) [
      | yes z ↦ rw (is_zero_lem (n - 1), eq→== (n - 1) 0 z) z
      | no ne ↦
          rw (is_zero_lem (n - 1), ne→==_false (n - 1) 0 ne, o.is_file) (refl, omega arith, o.mode)
    ]

    closed-IsValid : IsValid others closed
    closed-IsValid =
        write-IsValid others s fd j (some j) none left valid o.points_to (λ k h. cc h)
          (λ k ne. rw (ne→==_false j k ne)) (subst (λ (m : ℕ). EntryOk m left) (sym fewer) left-ok)

    oft_free_lem : oft_free s.oft j ≡ done (pos (n - 1), set s.oft j left)
    unfolding oft_free
    oft_free_lem = rw (
      o.is_entry,
      o.counts,
      minus_one n n_pos,
      lt→ltb j (length s.oft) (get_elem?-lt s.oft j e o.is_entry),
    )

    close_at-parts : close_at s fd ≡ (
        if is_zero (pos (n - 1)) then done (pos 0, some v, closed) else done (pos 0, none, closed))
    unfolding close_at
    close_at-parts = rw (
      o.points_to,
      o.is_entry,
      oft_free_lem,
      lt→ltb fd (length s.fd) (get_elem?-lt s.fd fd (some j) o.points_to),
      o.is_file,
    )

    check-open : check_fd_access s (pos fd) f_any ≡ done 0
    unfolding check_fd_access
    check-open = rw (
      lt→leb_false max_fd fd o.small,
      o.points_to,
      o.is_entry,
      check_mode-any (e.flags % 4) o.mode,
    )

  -- What a call of `sys_close` does to descriptor `fd`: a bad descriptor is reported; else the
  -- reference is dropped, and the file is closed exactly when it was the last one.
  pub data Closes (fd : ℕ) (reply : ℤ × Option V × Files V) : Type 0 where
    bad :
        (max_fd ≤ fd) ⊎ (get_elem? s.fd fd ≡ some none)
        → reply ≡ (pos ebadf, none, s)
        → Closes fd reply
    dropped :
        (j : ℕ) (e : Ofte V) (v : V) (n : ℕ) (s' : Files V)
        → IsOpen others s fd j e v n
        → reply ≡ (pos 0, (if n == 1 then some v else none), s')
        → IsValid others s'
        → s'.fd ≡ set s.fd fd none
        → Closes fd reply

  -- `sys_close` on well-formed tables always returns and leaves them well formed. A negative
  -- descriptor, one from 16 on, or one that is not open gives EBADF and changes nothing. Else the
  -- descriptor is cleared, and the vnode is handed to `vfs_close` exactly when no other reference to
  -- its entry is left, of this thread or another.
  pub sys_close_lem :
      (fd : ℕ)
      → ((reply : ℤ × Option V × Files V) × (sys_close s (pos fd) ≡ done reply) × Closes fd reply)
        × (sys_close s (negsuc fd) ≡ done (pos ebadf, none, s))
  unfolding sys_close
  sys_close_lem fd = (by_case (descriptor_cases fd), refl)
    where
      by_case :
          ((max_fd ≤ fd) ⊎ (get_elem? s.fd fd ≡ some none))
            ⊎ ((j : ℕ) × (e : Ofte V) × (v : V) × (n : ℕ) × IsOpen others s fd j e v n)
          → (reply : ℤ × Option V × Files V) × (sys_close s (pos fd) ≡ done reply) × Closes fd reply
      by_case (inl (inl out)) = (_, rw (le→leb max_fd fd out), bad (inl out) refl)
      by_case (inl (inr get)) = (
        _,
        rw (
          lt→leb_false max_fd fd (omega (arith, get_elem?-lt s.fd fd none get, valid.fd_length)),
          get,
        ),
        bad (inr get) refl,
      )
      by_case (inr (j, e, v, n, o)) = (
        _,
        rw (check-open fd j e v n o, close_at-parts fd j e v n o)
            (if-done (is_zero (pos (n - 1))) v (closed fd j e v n o)
              ∙ ap (λ b. done (pos 0, (if b then some v else none), closed fd j e v n o))
                  (is_zero_lem (n - 1) ∙ last_test n (n_pos fd j e v n o))),
        dropped j e v n (closed fd j e v n o) o refl (closed-IsValid fd j e v n o) refl,
      )
