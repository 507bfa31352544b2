-- ===== src/Vfs/Lookup/Parse.antt =====
-- `getdevice` against the forms of a path.
use cse_9201_os.Common.{
  ℕ, suc, ◌+◌, ◌<◌, ◌≡◌, refl, sym, ap, ◌∙◌, true, false, List, [], ◌∷◌, ◌++◌, Option, none, some,
  ◌==◌, take, drop, length, Bool-cases, Option-cases, inl, inr, ◌⊎◌, arith, ne→==_false, eq→==,
  ==→eq, lt→ltb,
}
use cse_9201_os.Common.Calls.{Call, pure, and_then, ◌>>=◌}
use cse_9201_os.Vfs.{Vfs, Fsops, vfs_getroot}
use cse_9201_os.Vfs.Lookup.Forms.{
  PathStart, split_colon, starts_slash, strip, with_colon, parse, refer, root_of_current, start,
}
use cse_9201_os.Vfs.Lookup.{
  Vnops, vfs_getcurdir, first_separator, skip_slashes, is_index, from_boot, from_current, getdevice,
}

skip_slashes_lem : (l : List ℕ) → skip_slashes l ≡ strip l
unfolding skip_slashes
skip_slashes_lem [] = refl
skip_slashes_lem (c ∷ cs) = elim (Bool-cases (c == 47)) [
  | inl slash ↦ rw (slash, skip_slashes_lem cs) refl
  | inr other ↦ rw other refl
]

-- A path with a leading slash: all its slashes go.
strip_first : (path : List ℕ) → starts_slash path ≡ true → strip (drop 1 path) ≡ strip path
strip_first [] h = refl
strip_first (c ∷ cs) h = rw h refl

module _ (ops : Fsops) (vnops : Vnops) (w : Vfs) where
  start-relative : vfs_getcurdir w ≡ refer w.t_cwd w
  unfolding vfs_getcurdir
  start-relative = elim (Option-cases w.t_cwd) [ inl null ↦ rw null refl | inr (vn, e) ↦ rw e refl ]

  start-boot : from_boot ops vnops w ≡ refer w.bootfs_vnode w
  unfolding from_boot
  start-boot = elim (Option-cases w.bootfs_vnode) [
    | inl null ↦ rw null refl
    | inr (vn, e) ↦ rw e refl
  ]

  start-current : from_current ops vnops w ≡ root_of_current ops vnops w.t_cwd w
  unfolding from_current vfs_getcurdir
  start-current = elim (Option-cases w.t_cwd) [
    | inl null ↦ rw null refl
    | inr (vn, e) ↦ rw e (elim (Option-cases (vnops.vn_fs vn)) [
      | inl device_vnode ↦ rw device_vnode refl
      | inr (fs, f) ↦ rw f refl
    ])
  ]

later_separator : (path : List ℕ) (b i : ℕ) → b < i → is_index b (first_separator path i).1 ≡ false
unfolding first_separator
later_separator [] b i h = refl
later_separator (c ∷ cs) b i h = elim (Bool-cases (c == 58)) [
  | inl colon ↦ rw colon refl
  | inr other ↦ elim (Bool-cases (c == 47)) [
    | inl slash ↦ rw (other, slash, ne→==_false i b (omega arith)) refl
    | inr no_slash ↦ rw (other, no_slash, later_separator cs b (i + 1) (omega arith)) refl
  ]
]

abbrev AtColon : List ℕ → ℕ → Type 0
AtColon path i =
    (d r : List ℕ) × (path ≡ d ++ (58 ∷ r))
    × (split_colon path ≡ some (d, r))
    × (first_separator path i ≡ (some (i + length d), none))

abbrev NoColon : List ℕ → ℕ → Type 0
NoColon path i =
    (o : Option ℕ) × (split_colon path ≡ none)
    × (first_separator path i ≡ (none, o))
    × (is_index i o ≡ starts_slash path)

at_index : (j k : ℕ) → j ≡ k → ◌≡◌ {A = Option ℕ × Option ℕ} (some j, none) (some k, none)
at_index j k e = λ t. (some (e t), none)

separator_cases : (path : List ℕ) (i : ℕ) → AtColon path i ⊎ NoColon path i
unfolding first_separator
separator_cases [] i = inr (none, refl, refl, refl)
separator_cases (c ∷ cs) i = elim (Bool-cases (c == 58)) [
  | inl colon ↦ inl (
    [],
    cs,
    ap (λ x. x ∷ cs) (==→eq c 58 colon),
    rw colon refl,
    rw colon (at_index i (i + 0) (omega arith)),
  )
  | inr other ↦ elim (Bool-cases (c == 47)) [
    | inl slash ↦
        inr (some i, rw (other, slash) refl, rw (other, slash) refl, eq→== i i refl ∙ sym slash)
    | inr no_slash ↦ elim (separator_cases cs (i + 1)) [
      | inl (d, r, p, s, f) ↦ inl (
        c ∷ d,
        r,
        ap (λ l. c ∷ l) p,
        rw (other, no_slash, s) refl,
        rw (other, no_slash, f) (at_index (i + 1 + length d) (i + suc (length d)) (omega arith)),
      )
      | inr (o, s, f, none_here) ↦ inr (
        o,
        rw (other, no_slash, s) refl,
        rw (other, no_slash, f) refl,
        ap (λ q. is_index i q.1) (sym f)
            ∙ later_separator cs i (i + 1) (omega arith)
            ∙ sym no_slash,
      )
    ]
  ]
]

take_before : (d r : List ℕ) → take (length d) (d ++ r) ≡ d
take_before [] r = refl
take_before (c ∷ d) r = ap (λ l. c ∷ l) (take_before d r)

drop_behind : (d r : List ℕ) (c : ℕ) → drop (length d + 1) (d ++ (c ∷ r)) ≡ r
drop_behind [] r c = refl
drop_behind (x ∷ d) r c = ap (λ n. drop n (x ∷ (d ++ (c ∷ r)))) one_more ∙ drop_behind d r c
  where
    one_more : suc (length d) + 1 ≡ suc (length d + 1)
    one_more = omega arith

-- what `getdevice` hands back, from the form of the path
abbrev pub looked_up : Fsops → Vnops → PathStart × List ℕ → Call Vfs (List ℕ × ℕ)
looked_up ops vnops (from, sub) = start ops vnops from >>= λ vn. pure (sub, vn)

module _ (ops : Fsops) (vnops : Vnops) (path : List ℕ) (w : Vfs) where
  at_colon :
      (d r : List ℕ)
      → path ≡ d ++ (58 ∷ r)
      → first_separator path 0 ≡ (some (length d), none)
      → getdevice ops vnops path w ≡ looked_up ops vnops (with_colon path (some (d, r))) w
  unfolding getdevice
  at_colon [] r p f =
      rw (f, p, start-current ops vnops w)
        (ap (λ sub. and_then (root_of_current ops vnops w.t_cwd w) λ vn. pure (sub, vn))
          (skip_slashes_lem r))
  at_colon (c ∷ d) r p f =
      rw
        (
          f,
          lt→ltb 0 (suc (length d)) (omega arith),
          p,
          take_before (c ∷ d) (58 ∷ r),
          drop_behind (c ∷ d) r 58,
        )
        (ap (λ sub. and_then (vfs_getroot ops (c ∷ d) w) λ vn. pure (sub, vn)) (skip_slashes_lem r))

  no_colon :
      (o : Option ℕ)
      → first_separator path 0 ≡ (none, o)
      → is_index 0 o ≡ starts_slash path
      → getdevice ops vnops path w ≡ looked_up ops vnops (with_colon path none) w
  unfolding getdevice
  no_colon o f e = elim (Bool-cases (starts_slash path)) [
    | inl leading ↦
        rw (f, e, leading, f, e, leading, start-boot ops vnops w)
          (ap (λ sub. and_then (refer w.bootfs_vnode w) λ vn. pure (sub, vn))
            (skip_slashes_lem (drop 1 path) ∙ strip_first path leading))
    | inr inner ↦ rw (f, e, inner, start-relative ops vnops w) refl
  ]

  -- On every path, `getdevice` does what the form of the path says. For `name:path` it starts from
  -- what `vfs_getroot` answers for the name; for `/path` from `bootfs_vnode`, and for a path with no
  -- such mark from the current directory, either with one reference more, or ENOENT where it is
  -- NULL; for `:path` from the root of the file system of the current directory, whose reference is
  -- given back. The rest of the path, without its leading slashes, is the subpath, or the whole
  -- path in the case without a mark.
  pub getdevice-parse : getdevice ops vnops path w ≡ looked_up ops vnops (parse path) w
  getdevice-parse = elim (separator_cases path 0) [
    | inl (d, r, p, s, f) ↦
        at_colon d r p (f ∙ at_index (0 + length d) (length d) (omega arith))
        ∙ ap (λ q. looked_up ops vnops (with_colon path q) w) (sym s)
    | inr (o, s, f, e) ↦
        no_colon o f e ∙ ap (λ q. looked_up ops vnops (with_colon path q) w) (sym s)
  ]
