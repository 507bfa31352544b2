-- ===== src/Sfs/Dir/Find.antt =====
-- `sfs_dir_findname` against the slots of the directory that hold the name.
use cse_9201_os.Common.{
  ℕ, zero, suc, ◌+◌, ◌*◌, ◌/◌, ◌%◌, ◌≤◌, ◌<◌, ◌≡◌, refl, ap, ◌∙◌, Bool, true, false, not, ◌&&◌,
  List, [], ◌∷◌, length, Option, none, some, ◌==◌, if◌then◌else◌, arith, inl, inr, eq→==,
  Bool-cases, Option-cases, done,
}
use cse_9201_os.Common.Strings.{same_name}
use cse_9201_os.Common.Calls.{Out, returns, panics}
use cse_9201_os.Uio.{mk_kuio, uio_read, Uio}
use cse_9201_os.Sfs.{Sv}
use cse_9201_os.Sfs.Space.{IsSound}
use cse_9201_os.Sfs.Bmap.{sfs_bmap}
use cse_9201_os.Sfs.Bmap.Read.{tree_block, IsHoleOrUsed, sfs_bmap-reads}
use cse_9201_os.Sfs.Io.{Machine, Memory, Io}
use cse_9201_os.Sfs.Io.Partial.{reading, io_within}
use cse_9201_os.Sfs.Dir.{Found, sfs_dir_nentries, sfs_readdir, look_at, find_loop, sfs_dir_findname}
use cse_9201_os.Sfs.Dir.Entries.{
  entry_ino, entry_name, after_read, ino_lem, name_lem, terminate, terminate_word,
}

-- A file without double indirect blocks, on a sound file system: its blocks are holes or in use.
pub record IsSmallFile (v : Sv) : Type 0 where
  pub sound : IsSound v.fs
  pub direct : length v.sv_i.sfi_direct ≡ 15
  pub fits : v.sv_i.sfi_size ≤ 143 * 512
  pub blocks : (fileblock : ℕ) → fileblock < 143 → IsHoleOrUsed v.fs (tree_block v fileblock)

-- what the search knows behind slot `i`; `none` is a panic
abbrev pub hit : Sv → ℕ → Found → Option Found
hit v i r =
    if r.found
    then none
    else some (record r { found = true; ino = some (entry_ino v i); slot = some i })

abbrev pub scan_one : Sv → List ℕ → ℕ → Found → Option Found
scan_one v name i r =
    if entry_ino v i == 0
    then some (record r { emptyslot = some i })
    else if same_name (entry_name v i) name
    then hit v i r
    else some r

abbrev pub outcome : Option Found → Io → Out Io Found
outcome none w = panics
outcome (some r) w = returns r w

module _ (k : Machine) (v : Sv) (small : IsSmallFile v) (sd : ℕ) where
  readdir_lem :
      (i : ℕ) (mem : Memory) (uio : Uio)
      → i * 64 + 64 ≤ v.sv_i.sfi_size
      → sfs_readdir k sd i (record { sv = v; mem = mem; uio = uio })
        ≡ returns tt (reading v (after_read k v small.sound mem sd i) (sd + 64) 0 (i * 64 + 64))
  unfolding sfs_readdir mk_kuio
  readdir_lem i mem uio h =
      let look : sfs_bmap false (i * 64 / 512) v ≡ returns (tree_block v (i * 64 / 512)) v =
        sfs_bmap-reads v small.sound (i * 64 / 512) small.direct (omega (arith, small.fits))
          (inl (omega (arith, small.fits)))
          (small.blocks (i * 64 / 512) (omega (arith, small.fits))) in
      rw
        (io_within k v small.sound mem sd 64 (i * 64) (tree_block v (i * 64 / 512)) look
          (omega arith) (omega arith) (omega arith) (omega (arith, small.fits))
          (omega (arith, small.fits)) h)
        refl

  look_lem :
      (name : List ℕ) (i : ℕ) (r : Found) (mem : Memory) (uio : Uio)
      → (m : Memory) × (look_at k sd name i r
            (record { sv = v; mem = after_read k v small.sound mem sd i; uio = uio })
          ≡ outcome (scan_one v name i r) (record { sv = v; mem = m; uio = uio }))
  unfolding look_at
  look_lem name i r mem uio =
      let m = after_read k v small.sound mem sd i in
      elim (Bool-cases (entry_ino v i == 0)) [
        | inl free ↦ (m, rw (ino_lem k v small.sound mem sd i, free) refl)
        | inr used ↦ (
          terminate m sd,
          rw
              (
                ino_lem k v small.sound mem sd i,
                used,
                name_lem k v small.sound mem sd i,
                terminate_word m sd,
              )
              (elim (Bool-cases (same_name (entry_name v i) name)) [
                | inr other ↦ rw other refl
                | inl same ↦ rw same (elim (Bool-cases r.found) [
                  | inl twice ↦ rw twice refl
                  | inr once ↦ rw (once, ino_lem k v small.sound mem sd i) refl
                ])
              ]),
        )
      ]

-- the loop, as a search of slots `i` to `i + n - 1`
abbrev pub scan_rest : (Found → Option Found) → Option Found → Option Found
scan_rest next none = none
scan_rest next (some r) = next r

abbrev pub scan : Sv → List ℕ → ℕ → ℕ → Found → Option Found
scan v name zero i r = some r
scan v name (suc n) i r = scan_rest (scan v name n (i + 1)) (scan_one v name i r)

module _ (k : Machine) (v : Sv) (small : IsSmallFile v) (sd : ℕ) (name : List ℕ) where
  loop_lem :
      (n i : ℕ) (r : Found) (mem : Memory) (uio : Uio)
      → (i + n) * 64 ≤ v.sv_i.sfi_size
      → (m : Memory) × (u : Uio) × (find_loop k sd name n i r
            (record { sv = v; mem = mem; uio = uio })
          ≡ outcome (scan v name n i r) (record { sv = v; mem = m; uio = u }))
  unfolding find_loop
  loop_lem zero i r mem uio h = (mem, uio, refl)
  loop_lem (suc n) i r mem uio h =
      let u : Uio = mk_kuio (sd + 64) 0 (i * 64 + 64) uio_read in
      let (m, e) = look_lem k v small sd name i r mem u in
      elim (Option-cases (scan_one v name i r)) [
        | inl twice ↦ (m, u, rw (readdir_lem k v small sd i mem uio (omega arith), e, twice) refl)
        | inr (r', one) ↦
            let (m', u', rest) = loop_lem n (i + 1) r' m u (omega arith) in
            (m', u', rw (readdir_lem k v small sd i mem uio (omega arith), e, one) rest)
      ]

-- the slots from `i` on, of `n`, that are in use and have the name; and those that are free
abbrev pub holds : Sv → List ℕ → ℕ → Bool
holds v name i = not (entry_ino v i == 0) && same_name (entry_name v i) name

abbrev pub slots_of : Sv → List ℕ → ℕ → ℕ → List ℕ
slots_of v name zero i = []
slots_of v name (suc n) i =
    let rest = slots_of v name n (i + 1) in if holds v name i then i ∷ rest else rest

abbrev pub free_slots : Sv → ℕ → ℕ → List ℕ
free_slots v zero i = []
free_slots v (suc n) i =
    let rest = free_slots v n (i + 1) in if entry_ino v i == 0 then i ∷ rest else rest

abbrev pub last_slot : Option ℕ → List ℕ → Option ℕ
last_slot o [] = o
last_slot o (i ∷ l) = last_slot (some i) l

-- what a search finds, from what it knew before
abbrev pub found_in : Sv → Found → List ℕ → List ℕ → Option Found
found_in v r [] free = some (record r { emptyslot = last_slot r.emptyslot free })
found_in v r (i ∷ []) free = hit v i (record r { emptyslot = last_slot r.emptyslot free })
found_in v r (i ∷ j ∷ l) free = none

found_in-free :
    (v : Sv) (r : Found) (i : ℕ) (l free : List ℕ)
    → found_in v (record r { emptyslot = some i }) l free ≡ found_in v r l (i ∷ free)
found_in-free v r i [] free = refl
found_in-free v r i (j ∷ []) free = refl
found_in-free v r i (j ∷ k ∷ l) free = refl

found_in-hit :
    (v : Sv) (r : Found) (i : ℕ) (l free : List ℕ)
    → r.found ≡ false
    → found_in v (record r { found = true; ino = some (entry_ino v i); slot = some i }) l free
      ≡ found_in v r (i ∷ l) free
found_in-hit v r i [] free once = rw once refl
found_in-hit v r i (j ∷ []) free once = refl
found_in-hit v r i (j ∷ k ∷ l) free once = refl

found_in-twice :
    (v : Sv) (r : Found) (i : ℕ) (l free : List ℕ)
    → r.found ≡ true
    → none ≡ found_in v r (i ∷ l) free
found_in-twice v r i [] free twice = rw twice refl
found_in-twice v r i (j ∷ l) free twice = refl

scan_lem :
    (v : Sv) (name : List ℕ) (n i : ℕ) (r : Found)
    → scan v name n i r ≡ found_in v r (slots_of v name n i) (free_slots v n i)
scan_lem v name zero i r = refl
scan_lem v name (suc n) i r = elim (Bool-cases (entry_ino v i == 0)) [
  | inl free ↦ rw free (
      scan_lem v name n (i + 1) (record r { emptyslot = some i })
      ∙ found_in-free v r i (slots_of v name n (i + 1)) (free_slots v n (i + 1)))
  | inr used ↦ rw used (elim (Bool-cases (same_name (entry_name v i) name)) [
    | inr other ↦ rw other (scan_lem v name n (i + 1) r)
    | inl same ↦ rw same (elim (Bool-cases r.found) [
      | inl twice ↦
          rw twice (found_in-twice v r i (slots_of v name n (i + 1)) (free_slots v n (i + 1)) twice)
      | inr once ↦ rw once (
          scan_lem v name n (i + 1)
            (record r { found = true; ino = some (entry_ino v i); slot = some i })
          ∙ found_in-hit v r i (slots_of v name n (i + 1)) (free_slots v n (i + 1)) once)
    ])
  ])
]

nentries_lem :
    (v : Sv) (n : ℕ) → v.sv_i.sfi_type ≡ 2 → v.sv_i.sfi_size ≡ n * 64 → sfs_dir_nentries v ≡ done n
unfolding sfs_dir_nentries
nentries_lem v n is_dir size =
    let entries : v.sv_i.sfi_size / 64 ≡ n = omega arith in
    rw (eq→== v.sv_i.sfi_type 2 is_dir, eq→== (v.sv_i.sfi_size % 64) 0 (omega arith))
      (ap done entries)

abbrev pub nothing_found : Found
nothing_found = record { found = false; ino = none; slot = none; emptyslot = none }

module _ (k : Machine) (v : Sv) (small : IsSmallFile v) (sd : ℕ) (name : List ℕ) (n : ℕ) where
  -- On a directory of `n` slots, small enough to need no double indirect block, `sfs_dir_findname`
  -- finds the slot in use that has the name, with its inode number, and reports none where there is
  -- none; where two slots have the name it panics. The empty slot that it hands back is the last
  -- free one, if there is one. The directory stays as it is.
  pub sfs_dir_findname_lem :
      (mem : Memory) (uio : Uio)
      → v.sv_i.sfi_type ≡ 2
      → v.sv_i.sfi_size ≡ n * 64
      → (m : Memory) × (u : Uio) × (sfs_dir_findname k sd name
            (record { sv = v; mem = mem; uio = uio })
          ≡ outcome
              (found_in v nothing_found (slots_of v name n 0) (free_slots v n 0))
              (record { sv = v; mem = m; uio = u }))
  unfolding sfs_dir_findname
  sfs_dir_findname_lem mem uio is_dir size =
      let (m, u, e) = loop_lem k v small sd name n 0 nothing_found mem uio (omega arith) in
      (
        m,
        u,
        rw (nentries_lem v n is_dir size) (
            e
            ∙ ap (λ o. outcome o (record { sv = v; mem = m; uio = u }))
                (scan_lem v name n 0 nothing_found)),
      )
