-- ===== src/Vfs/Paths/Opens.antt =====
-- `vfs_open` keeps the references and the open counts right on every error.
use cse_9201_os.Common.{
  ℕ, suc, ◌+◌, ◌≡◌, refl, Bool, true, false, List, [], ◌∷◌, ◌==◌, ◌||◌, ◌⊎◌, inl, inr,
  if◌then◌else◌, leb, bit_and, eq→==, Bool-cases, arith,
}
use cse_9201_os.Common.Calls.{Call, returns, fails}
use cse_9201_os.Common.Errno.{einval}
use cse_9201_os.Vfs.{Vfs, VfsCall, vop_decref, vop_incopen, vop_decopen, Fsops, called}
use cse_9201_os.Vfs.Lookup.{Vnops, vfs_lookup}
use cse_9201_os.Vfs.Paths.{
  Fileops, o_creat, o_excl, o_trunc, create, o_accmode, open_found, vfs_open,
}

-- how many of the calls open the vnode, close it, and give back a reference to it
abbrev pub tally : Bool → ℕ → ℕ
tally true n = suc n
tally false n = n

abbrev pub opened : ℕ → List VfsCall → ℕ
opened vn [] = 0
opened vn (vop_incopen v ∷ l) = tally (v == vn) (opened vn l)
opened vn (_ ∷ l) = opened vn l

abbrev pub closed : ℕ → List VfsCall → ℕ
closed vn [] = 0
closed vn (vop_decopen v ∷ l) = tally (v == vn) (closed vn l)
closed vn (_ ∷ l) = closed vn l

abbrev pub given_back : ℕ → List VfsCall → ℕ
given_back vn [] = 0
given_back vn (vop_decref v ∷ l) = tally (v == vn) (given_back vn l)
given_back vn (_ ∷ l) = given_back vn l

-- from `w` to `w'`, by so many more calls
pub record Counted (vn : ℕ) (w w' : Vfs) (opens closes backs : ℕ) : Type 0 where
  pub more_opened : opened vn w'.calls ≡ opens + opened vn w.calls
  pub more_closed : closed vn w'.calls ≡ closes + closed vn w.calls
  pub more_back : given_back vn w'.calls ≡ backs + given_back vn w.calls

-- The file is open once more; or the call failed, the reference is given back, and the file was
-- closed as often as it was opened.
abbrev pub Opened : ℕ → Vfs → Call Vfs ℕ → Type 0
Opened vn w m =
    ((w' : Vfs) × (m w ≡ returns vn w') × Counted vn w w' 1 0 0)
    ⊎ ((e : ℕ) × (k : ℕ) × (w' : Vfs) × (m w ≡ fails e w') × Counted vn w w' k k 1)

module _ (files : Fileops) (openflags vn : ℕ) (w : Vfs) where
  not_opened : Counted vn w (called (vop_decref vn) w) 0 0 1
  not_opened = record {
    more_opened = omega arith;
    more_closed = omega arith;
    more_back = rw (eq→== vn vn refl) (omega arith);
  }

  only_opened : Counted vn w (called (vop_incopen vn) w) 1 0 0
  only_opened = record {
    more_opened = rw (eq→== vn vn refl) (omega arith);
    more_closed = omega arith;
    more_back = omega arith;
  }

  closed_again :
      Counted vn w
        (called (vop_decref vn) (called (vop_decopen vn) (called (vop_incopen vn) w)))
        1
        1
        1
  closed_again = record {
    more_opened = rw (eq→== vn vn refl) (omega arith);
    more_closed = rw (eq→== vn vn refl) (omega arith);
    more_back = rw (eq→== vn vn refl) (omega arith);
  }

  open_found_lem : Opened vn w (open_found files openflags vn)
  unfolding open_found
  open_found_lem = elim (Bool-cases (files.open_vn vn openflags == 0)) [
    | inr failed ↦
        inr (files.open_vn vn openflags, 0, called (vop_decref vn) w, rw failed refl, not_opened)
    | inl done_open ↦
        let truncated : ℕ =
          if bit_and openflags o_accmode == 0 then einval else files.truncate vn in
        elim (Bool-cases (bit_and openflags o_trunc == 0 || truncated == 0)) [
          | inl fine ↦ inl (called (vop_incopen vn) w, rw (done_open, fine) refl, only_opened)
          | inr failed ↦ inr (
            truncated,
            1,
            called (vop_decref vn) (called (vop_decopen vn) (called (vop_incopen vn) w)),
            rw (done_open, failed) refl,
            closed_again,
          )
        ]
  ]

module _ (ops : Fsops) (vnops : Vnops) (files : Fileops) (path : List ℕ) (openflags : ℕ)
    (w w1 : Vfs) (vn : ℕ) where
  -- With an access mode that is one, and where the look-up of the path, or with O_CREAT the creation
  -- of the file, hands back a vnode, `vfs_open` hands it back and opens it once; or it fails, with
  -- the reference to the vnode given back and as many calls that close it as open it.
  pub vfs_open-Opened :
      leb (bit_and openflags o_accmode) 2 ≡ true
      → (if bit_and openflags o_creat == 0
            then vfs_lookup ops vnops path
            else create ops vnops files path
                (if bit_and openflags o_excl == 0 then false else true))
          w
        ≡ returns vn w1
      → ((w' : Vfs) × (vfs_open ops vnops files path openflags w ≡ returns vn w')
          × Counted vn w1 w' 1 0 0)
        ⊎ ((e k : ℕ) × (w' : Vfs) × (vfs_open ops vnops files path openflags w ≡ fails e w')
            × Counted vn w1 w' k k 1)
  unfolding vfs_open
  vfs_open-Opened mode found = elim (open_found_lem files openflags vn w1) [
    | inl (w', e, counted) ↦ inl (w', rw (mode, found) e, counted)
    | inr (code, k, w', e, counted) ↦ inr (code, k, w', rw (mode, found) e, counted)
  ]
