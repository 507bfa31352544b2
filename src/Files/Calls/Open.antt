-- ===== src/Files/Calls/Open.antt =====
-- `sys_open`: the lowest free descriptor, a fresh entry, and what an error leaves.
use cse_9201_os.Common.{
  ℕ, zero, suc, ◌+◌, ◌%◌, ◌≤◌, ◌<◌, ◌≡◌, ◌≢◌, refl, ap, sym, ◌∙◌, ◌⊎◌, inl, inr, true, false,
  Option, none, some, List, length, get_elem?, set, length-set, get_elem?-set_self,
  get_elem?-set_cases, get_elem?-lt, set-set, set_same, arith, Bool-cases, dec_lt, eq→==,
  ne→==_false, lt→ltb, Res, done, ℕ_discrete,
}
use mathlib.Core.Path.{subst}
use mathlib.Core.Option.{some-injective}
use cse_9201_os.Common.Cells.{get_elem?-in}
use cse_9201_os.Common.Errno.{emfile, enfile}
use cse_9201_os.Common.Int.{ℤ, pos}
use cse_9201_os.Files.{
  Ofte, Files, Vfs, null, busy, vnode, max_open_files, is_null, oft_alloc_from, oft_alloc,
  free_fd_from,
}
use cse_9201_os.Files.Refs.{points, refs, refs-set, points_self, EntryOk, IsValid}
use cse_9201_os.Files.Calls.{Reply, open_at, sys_open}

module _ {V : Type 0} where
  abbrev pub taken : Ofte V → Ofte V
  taken e = record e { vn = busy; count = pos 1 }

  -- What `oft_alloc` does from entry `i` on: it takes the first free entry, or finds none.
  abbrev pub Allocates : ℕ → List (Ofte V) → Res (Option ℕ × List (Ofte V)) → Type 0
  Allocates i oft r =
      ((r ≡ done (none, oft))
        × ((k : ℕ) (e : Ofte V) → i ≤ k → get_elem? oft k ≡ some e → is_null e.vn ≡ false))
      ⊎ ((j : ℕ) × (e : Ofte V) × (get_elem? oft j ≡ some e)
          × (is_null e.vn ≡ true)
          × (r ≡ done (some j, set oft j (taken e))))

  oft_alloc_from-Allocates :
      (n i : ℕ) (oft : List (Ofte V))
      → n + i ≡ length oft
      → Allocates i oft (oft_alloc_from n i oft)
  unfolding oft_alloc_from
  oft_alloc_from-Allocates zero i oft e =
      inl (refl, λ k x h get. absurd (omega (arith, get_elem?-lt oft k x get)))
  oft_alloc_from-Allocates (suc n) i oft e =
      let (x, get) = get_elem?-in oft i (omega arith) in
      elim (Bool-cases (is_null x.vn)) [
        | inl free ↦ inr (i, x, get, free, rw (get, free, lt→ltb i (length oft) (omega arith)))
        | inr used ↦
            rw (get, used)
              (widen i oft x (oft_alloc_from n (i + 1) oft) get used
                (oft_alloc_from-Allocates n (i + 1) oft (omega arith)))
      ]
    where
      widen :
          (i : ℕ) (oft : List (Ofte V)) (x : Ofte V) (r : Res (Option ℕ × List (Ofte V)))
          → get_elem? oft i ≡ some x
          → is_null x.vn ≡ false
          → Allocates (i + 1) oft r
          → Allocates i oft r
      widen i oft x r get used (inr found) = inr found
      widen i oft x r get used (inl (same, later)) = inl (
        same,
        λ k y h g. elim (dec_lt i k) [
          | yes lt ↦ later k y (omega arith) g
          | no ge ↦
              let here : i ≡ k = omega arith in
              let one : x ≡ y = cc (get, g, ap (get_elem? oft) here) in
              ap (λ (e : Ofte V). is_null e.vn) (sym one) ∙ used
        ],
      )

  oft_alloc_lem :
      (oft : List (Ofte V)) → length oft ≡ max_open_files → Allocates 0 oft (oft_alloc oft)
  unfolding oft_alloc
  oft_alloc_lem oft e = oft_alloc_from-Allocates 64 0 oft (omega arith)

  -- A free entry has no reference.
  null-refs : (n : ℕ) (e : Ofte V) → is_null e.vn ≡ true → EntryOk n e → n ≡ 0
  null-refs n e h ok = ground arith

  -- Writing entry `j` and descriptor `i` keeps the tables well formed, if the new entry suits the
  -- references that there are then.
  pub write-IsValid :
      (others : ℕ → ℕ) (s : Files V) (i j : ℕ) (p q : Option ℕ) (e' : Ofte V)
      → IsValid others s
      → get_elem? s.fd i ≡ some p
      → ((k : ℕ) → q ≡ some k → k < max_open_files)
      → ((k : ℕ) → j ≢ k → points p k ≡ points q k)
      → EntryOk (refs j (set s.fd i q) + others j) e'
      → IsValid others (record { oft = set s.oft j e'; fd = set s.fd i q })
  write-IsValid others s i j p q e' v get small same ok = record {
    oft_length = length-set s.oft j e' ∙ v.oft_length;
    fd_length = length-set s.fd i q ∙ v.fd_length;
    in_table = λ a k g. elim (get_elem?-set_cases s.fd i a q (some k) g) [
      | inl (_, w) ↦ small k w
      | inr (_, old) ↦ v.in_table a k old
    ];
    counted = λ k e g. elim (get_elem?-set_cases s.oft j k e' e g) [
      | inl (here, w) ↦
          subst (λ (e : Ofte V). EntryOk (refs k (set s.fd i q) + others k) e) w
            (subst (λ (k : ℕ). EntryOk (refs k (set s.fd i q) + others k) e') here ok)
      | inr (ne, old) ↦
          subst (λ (n : ℕ). EntryOk (n + others k) e)
            (omega (arith, refs-set s.fd i k p q get, same k ne)) (v.counted k e old)
    ];
  }

  -- What `sys_open` returns for descriptor `fd`, with `r` and `vn` from `vfs_open`, `reply` being
  -- its error code, what it stores through `retval`, and the new state.
  pub data Opens (others : ℕ → ℕ) (s : Files V) (fd flags r : ℕ) (vn : V) (reply : Reply V)
      : Type 0 where
    table_full :
        reply ≡ (pos enfile, none, s)
        → ((k : ℕ) (e : Ofte V) → get_elem? s.oft k ≡ some e → is_null e.vn ≡ false)
        → Opens others s fd flags r vn reply
    failed :
        (oft : List (Ofte V))
        → r ≢ 0
        → reply ≡ (pos r, none, record { oft = oft; fd = s.fd })
        → IsValid others (record { oft = oft; fd = s.fd })
        → Opens others s fd flags r vn reply
    opened :
        (j : ℕ) (s' : Files V)
        → r ≡ 0
        → reply ≡ (pos 0, some (pos fd), s')
        → IsValid others s'
        → s'.fd ≡ set s.fd fd (some j)
        → get_elem? s'.oft j
          ≡ some (record { fp = pos 0; flags = flags; count = pos 1; vn = vnode vn })
        → refs j s.fd + others j ≡ 0
        → Opens others s fd flags r vn reply

module _ {V : Type 0} (vfs : Vfs V) where
  open vfs use {Path', User, copyinstr, vfs_open}

  -- `vfs_open` accepts only the three access modes.
  abbrev pub ChecksMode : Type 0
  ChecksMode = (path : Path') (flags : ℕ) → (vfs_open path flags).0 ≡ 0 → flags % 4 < 3

  module _ (others : ℕ → ℕ) (s : Files V) (v : IsValid others s) (fd : ℕ) (path : Path') (flags : ℕ)
      (get : get_elem? s.fd fd ≡ some none) where
    fd_in : fd < length s.fd
    fd_in = get_elem?-lt s.fd fd none get

    open_at-full :
        oft_alloc s.oft ≡ done (none, s.oft)
        → open_at vfs s fd path flags ≡ done (pos enfile, none, s)
    unfolding open_at
    open_at-full e =
        rw (e, lt→ltb fd (length s.fd) fd_in)
          (ap (λ l. done (pos enfile, none, record { oft = s.oft; fd = l }))
            (set_same s.fd fd none get))

    module _ (j : ℕ) (e : Ofte V) (found : get_elem? s.oft j ≡ some e)
        (is_free : is_null e.vn ≡ true)
        (alloc : oft_alloc s.oft ≡ done (some j, set s.oft j (taken e))) where
      j_in : j < length s.oft
      j_in = get_elem?-lt s.oft j e found

      abbrev freed : Ofte V
      freed = record e { vn = null; count = pos 0 }

      open_at-failed :
          (r : ℕ) (vn : V)
          → vfs_open path flags ≡ (r, vn)
          → r ≢ 0
          → open_at vfs s fd path flags
            ≡ done (pos r, none, record { oft = set s.oft j freed; fd = s.fd })
      unfolding open_at
      open_at-failed r vn q ne = rw (
        alloc,
        q,
        ne→==_false r 0 ne,
        get_elem?-set_self s.oft j (taken e) j_in,
        length-set s.oft j (taken e),
        lt→ltb j (length s.oft) j_in,
        lt→ltb fd (length s.fd) fd_in,
        set-set s.oft j (taken e) freed,
        set_same s.fd fd none get,
      )

      abbrev new_entry : V → Ofte V
      new_entry vn = record { fp = pos 0; flags = flags; count = pos 1; vn = vnode vn }

      open_at-opened :
          (vn : V)
          → vfs_open path flags ≡ (0, vn)
          → open_at vfs s fd path flags
            ≡ done (
              pos 0,
              some (pos fd),
              record { oft = set s.oft j (new_entry vn); fd = set s.fd fd (some j) },
            )
      unfolding open_at
      open_at-opened vn q = rw (
        alloc,
        q,
        get_elem?-set_self s.oft j (taken e) j_in,
        lt→ltb fd (length s.fd) fd_in,
        length-set s.oft j (taken e),
        lt→ltb j (length s.oft) j_in,
        set-set s.oft j (taken e) (new_entry vn),
      )

      no_refs : refs j s.fd + others j ≡ 0
      no_refs = null-refs (refs j s.fd + others j) e is_free (v.counted j e found)

      failed-IsValid : IsValid others (record { oft = set s.oft j freed; fd = s.fd })
      failed-IsValid =
          subst
            (λ (l : List (Option ℕ)). IsValid others (record { oft = set s.oft j freed; fd = l }))
            (set_same s.fd fd none get)
            (write-IsValid others s fd j none none freed v get (λ k h. cc h) (λ k h. refl)
              (subst (λ (l : List (Option ℕ)). refs j l + others j ≡ 0)
                (sym (set_same s.fd fd none get)) no_refs))

      opened-IsValid :
          (vn : V)
          → flags % 4 < 3
          → IsValid others (record { oft = set s.oft j (new_entry vn); fd = set s.fd fd (some j) })
      opened-IsValid vn mode =
          write-IsValid others s fd j none (some j) (new_entry vn) v get
            (λ k h. omega (arith, some-injective j k h, j_in, v.oft_length))
            (λ k ne. rw (ne→==_false j k ne))
            (subst (λ (n : ℕ). EntryOk n (new_entry vn)) (sym one) (refl, omega arith, mode))
        where
          one : refs j (set s.fd fd (some j)) + others j ≡ 1
          one = omega (arith, no_refs, refs-set s.fd fd j none (some j) get, points_self j)

    -- The outcomes of `open_at` on a free descriptor.
    open_at-Opens :
        ChecksMode
        → (reply : Reply V) × (open_at vfs s fd path flags ≡ done reply)
          × Opens others s fd flags (vfs_open path flags).0 (vfs_open path flags).1 reply
    open_at-Opens checks = elim (oft_alloc_lem s.oft v.oft_length) [
      | inl (full, used) ↦ (
        (pos enfile, none, s),
        open_at-full full,
        table_full refl (λ k e g. used k e (omega arith) g),
      )
      | inr (j, e, found, is_free, alloc) ↦ elim (ℕ_discrete (vfs_open path flags).0 0) [
        | no ne ↦ (
          _,
          open_at-failed j e found is_free alloc (vfs_open path flags).0 (vfs_open path flags).1
              refl ne,
          failed _ ne refl (failed-IsValid j e found is_free alloc),
        )
        | yes ok ↦ (
          _,
          open_at-opened j e found is_free alloc (vfs_open path flags).1
              (ap (λ (r : ℕ). (r, (vfs_open path flags).1)) ok),
          opened j _ ok refl
              (opened-IsValid j e found is_free alloc (vfs_open path flags).1
                (checks path flags ok))
              refl (get_elem?-set_self s.oft j _ (j_in j e found is_free alloc))
              (no_refs j e found is_free alloc),
        )
      ]
    ]

-- The descriptors from `i` on: the first free one, or none.
abbrev pub FreeFd : ℕ → List (Option ℕ) → Res (Option ℕ) → Type 0
FreeFd i fds r =
    ((r ≡ done none) × ((k : ℕ) → i ≤ k → get_elem? fds k ≢ some none))
    ⊎ ((fd : ℕ) × (r ≡ done (some fd))
        × (get_elem? fds fd ≡ some none)
        × ((k : ℕ) → i ≤ k → k < fd → get_elem? fds k ≢ some none))

free_fd_from-FreeFd :
    (n i : ℕ) (fds : List (Option ℕ)) → n + i ≡ length fds → FreeFd i fds (free_fd_from n i fds)
unfolding free_fd_from
free_fd_from-FreeFd zero i fds e =
    inl (refl, λ k h g. absurd (omega (arith, get_elem?-lt fds k none g)))
free_fd_from-FreeFd (suc n) i fds e =
    let (p, get) = get_elem?-in fds i (omega arith) in
    rw get (by_pointer n i fds p get (free_fd_from-FreeFd n (i + 1) fds (omega arith)))
  where
    later :
        (i k : ℕ) (fds : List (Option ℕ)) (j : ℕ)
        → get_elem? fds i ≡ some (some j)
        → i ≤ k
        → (i + 1 ≤ k → get_elem? fds k ≢ some none)
        → get_elem? fds k ≢ some none
    later i k fds j get h after g = elim (dec_lt i k) [
      | yes lt ↦ after (omega arith) g
      | no ge ↦ let same : i ≡ k = omega arith in cc (get, g, ap (get_elem? fds) same)
    ]

    by_pointer :
        (n i : ℕ) (fds : List (Option ℕ)) (p : Option ℕ)
        → get_elem? fds i ≡ some p
        → FreeFd (i + 1) fds (free_fd_from n (i + 1) fds)
        → FreeFd i fds (elim p [ none ↦ done (some i) | some j ↦ free_fd_from n (i + 1) fds ])
    by_pointer n i fds none get after = inr (i, refl, get, λ k h l g. absurd (omega arith))
    by_pointer n i fds (some j) get (inl (r, used)) = inl (r, λ k h. later i k fds j get h (used k))
    by_pointer n i fds (some j) get (inr (fd, r, free, used)) =
        inr (fd, r, free, λ k h l. later i k fds j get h (λ h'. used k h' l))

-- The outcomes of `sys_open`, with `r` and `path` from `copyinstr`.
pub data OpensFile {V : Type 0} (vfs : Vfs V) (others : ℕ → ℕ) (s : Files V) (path : vfs.Path')
    (flags : ℕ) (r : ℕ) (reply : Reply V) : Type 0 where
  bad_name : r ≢ 0 → reply ≡ (pos r, none, s) → OpensFile vfs others s path flags r reply
  no_descriptor :
      r ≡ 0
      → reply ≡ (pos emfile, none, s)
      → ((k : ℕ) → get_elem? s.fd k ≢ some none)
      → OpensFile vfs others s path flags r reply
  on_descriptor :
      (fd : ℕ)
      → r ≡ 0
      → get_elem? s.fd fd ≡ some none
      → ((k : ℕ) → k < fd → get_elem? s.fd k ≢ some none)
      → Opens others s fd flags (vfs.vfs_open path flags).0 (vfs.vfs_open path flags).1 reply
      → OpensFile vfs others s path flags r reply

module _ {V : Type 0} (vfs : Vfs V) where
  open vfs use {User, copyinstr}

  -- `sys_open` on well-formed tables always returns, whatever the file system answers: a name that
  -- cannot be copied is reported and nothing changes; with no free descriptor it is EMFILE and
  -- nothing changes; else the lowest free descriptor is used. With every entry of `oft` in use it is
  -- then ENFILE and nothing changes; an error of `vfs_open` is reported and leaves the descriptors
  -- as they were and the tables well formed; on success the descriptor is returned and refers to an
  -- entry that nothing referred to, at offset 0 with the flags given and count 1, and the tables are
  -- well formed.
  pub sys_open_lem :
      (others : ℕ → ℕ) (s : Files V) (filename : User) (flags : ℕ) (mode : ℤ)
      → IsValid others s
      → ChecksMode vfs
      → (reply : Reply V) × (sys_open vfs s filename flags mode ≡ done reply)
        × OpensFile vfs others s (copyinstr filename).1 flags (copyinstr filename).0 reply
  unfolding sys_open
  sys_open_lem others s filename flags mode v checks = elim (ℕ_discrete (copyinstr filename).0 0) [
    | no ne ↦ (_, rw (ne→==_false (copyinstr filename).0 0 ne), bad_name ne refl)
    | yes ok ↦ elim (free_fd_from-FreeFd 16 0 s.fd (omega (arith, v.fd_length))) [
      | inl (r, used) ↦ (
        _,
        rw (eq→== (copyinstr filename).0 0 ok, r),
        no_descriptor ok refl (λ k. used k (omega arith)),
      )
      | inr (fd, r, free, used) ↦
          let (reply, run, opens) =
            open_at-Opens vfs others s v fd (copyinstr filename).1 flags free checks in
          (
            reply,
            rw (eq→== (copyinstr filename).0 0 ok, r) run,
            on_descriptor fd ok free (λ k. used k (omega arith)) opens,
          )
    ]
  ]
