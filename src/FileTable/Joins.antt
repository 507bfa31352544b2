-- ===== src/FileTable/Joins.antt =====
-- `dup2` adds the new descriptor at the end of the ring of duplicates.
use cse_9201_os.Common.{
  ℕ, ◌+◌, ◌<◌, ◌≡◌, refl, ap, sym, ◌∙◌, ◌≢◌, Option, none, some, List, [], ◌∷◌, ◌++◌, length,
  get_elem?, set, get_elem?-set_self, get_elem?-set_ne, length-set, get_elem?-lt, arith, lt→ltb,
  le→ltb_false, done,
}
use mathlib.Core.Option.{some-injective}
use cse_9201_os.Common.Int.{ℤ, pos, pos_part}
use cse_9201_os.FileTable.{FileTable, filetablesize, dup2, dup2_open, dup2_at}
use cse_9201_os.FileTable.Rings.{Chain, Ring, last_of, Chain-last, last-Ring}

-- Each descriptor of a list has the vnode `v`.
abbrev pub AllHave : {V : Type 0} → List (Option V) → V → List ℕ → Type 0
AllHave files v [] = Unit {0}
AllHave files v (fd ∷ l) = (get_elem? files fd ≡ some (some v)) × AllHave files v l

module _ {V : Type 0} (files : List (Option V)) (v : V) (newfd : ℕ)
    (free : get_elem? files newfd ≡ some none) where
  -- A descriptor with a vnode is not the free one.
  free_ne : (fd : ℕ) → get_elem? files fd ≡ some (some v) → newfd ≢ fd
  free_ne fd e q =
      let h : none ≡ some v =
        some-injective none (some v) (sym free ∙ ap (get_elem? files) q ∙ e) in
      cc h

  last_has :
      (fd : ℕ) (l : List ℕ)
      → AllHave files v (fd ∷ l)
      → get_elem? files (last_of fd l) ≡ some (some v)
  last_has fd [] (e, h) = e
  last_has fd (x ∷ l) (e, h) = last_has x l h

  -- They still have it, and the new one too, when the new one gets it.
  have_more :
      (l : List ℕ) → AllHave files v l → AllHave (set files newfd (some v)) v (l ++ (newfd ∷ []))
  have_more [] h =
      (get_elem?-set_self files newfd (some v) (get_elem?-lt files newfd none free), tt)
  have_more (fd ∷ l) (e, h) = (get_elem?-set_ne files (some v) (free_ne fd e) ∙ e, have_more l h)

  module _ (dup : List ℤ) (orgfd : ℕ) (room : newfd < length dup) (positive : 0 < newfd)
      (other : newfd ≢ orgfd) where
    -- `filetable_dup` as `dup2` leaves it
    abbrev joined : ℕ → List ℤ
    joined last = set (set dup newfd (pos orgfd)) last (pos newfd)

    join_end :
        (fd : ℕ)
        → fd < length dup
        → get_elem? files fd ≡ some (some v)
        → Chain (joined fd) fd (newfd ∷ []) orgfd
    join_end fd h e = (
      get_elem?-set_self (set dup newfd (pos orgfd)) fd (pos newfd)
          (omega (arith, length-set dup newfd (pos orgfd))),
      positive,
      other,
      get_elem?-set_ne (set dup newfd (pos orgfd)) (pos newfd) (λ q. free_ne fd e (sym q))
          ∙ get_elem?-set_self dup newfd (pos orgfd) room,
    )

    join-Chain :
        (fd : ℕ) (l : List ℕ)
        → Chain dup fd l orgfd
        → AllHave files v (fd ∷ l)
        → Chain (joined (last_of fd l)) fd (l ++ (newfd ∷ [])) orgfd
    join-Chain fd [] c (e, h) = join_end fd (get_elem?-lt dup fd (pos orgfd) c) e
    join-Chain fd (x ∷ l) (g, p, ne, c) (e, h) =
        let apart : last_of x l ≢ fd = λ q. ne (
          ap pos_part (
            some-injective (pos x) (pos orgfd)
              (sym g ∙ ap (get_elem? dup) (sym q) ∙ Chain-last dup x l orgfd c))) in
        (
          get_elem?-set_ne (set dup newfd (pos orgfd)) (pos newfd) apart
              ∙ get_elem?-set_ne dup (pos orgfd) (free_ne fd e)
              ∙ g,
          p,
          ne,
          join-Chain x l c h,
        )

    join-Ring :
        (l : List ℕ)
        → 0 < orgfd
        → Ring dup orgfd l
        → AllHave files v (orgfd ∷ l)
        → Ring (joined (last_of orgfd l)) orgfd (l ++ (newfd ∷ []))
    join-Ring [] h (d, g, n) (e, a) = (h, join_end orgfd (get_elem?-lt dup orgfd d g) e)
    join-Ring (x ∷ l) h (p, c) a = (h, join-Chain orgfd (x ∷ l) c a)

module _ {V : Type 0} (s : FileTable V) where
  -- The arrays have the cells that file.h declares.
  pub record HasCells : Type 0 where
    pub files_length : length s.filetable ≡ filetablesize
    pub dup_length : length s.filetable_dup ≡ filetablesize
    pub isdup_length : length s.filetable_isdup ≡ filetablesize
    pub parent_length : length s.filetable_parent ≡ filetablesize

module _ {V : Type 0} (s : FileTable V) (v : V) (oldfd newfd : ℕ) (l : List ℕ) where
  -- In the arrays as file.h declares them, let `oldfd` be an open descriptor other than 0, whose
  -- duplicates form a ring of fewer than 19 with its vnode, and `newfd` another one that is free and
  -- not 0, both with cells of their own. Then `dup2` returns 0. The duplicates of `oldfd` are the
  -- former ones and the new one behind them, and all have its vnode. The new one is marked as a
  -- duplicate of `oldfd`. No offset changes: the new one keeps the offset that its cell had.
  pub dup2-joins :
      HasCells s
      → 0 < oldfd
      → 0 < newfd
      → oldfd < filetablesize
      → newfd < filetablesize
      → newfd ≢ oldfd
      → get_elem? s.filetable newfd ≡ some none
      → Ring s.filetable_dup oldfd l
      → AllHave s.filetable v (oldfd ∷ l)
      → length l < filetablesize + 1
      → (t : FileTable V) × (dup2 s (pos oldfd) (pos newfd) ≡ done (pos 0, t))
        × Ring t.filetable_dup oldfd (l ++ (newfd ∷ []))
        × AllHave t.filetable v (oldfd ∷ (l ++ (newfd ∷ [])))
        × (get_elem? t.filetable_isdup newfd ≡ some (pos 1))
        × (get_elem? t.filetable_parent newfd ≡ some (pos oldfd))
        × (t.filetable_offset ≡ s.filetable_offset)
  unfolding dup2 dup2_open dup2_at
  dup2-joins cells p q old new ne free ring have short =
      let last = last_of oldfd l in
      let last_lt : last < length s.filetable =
        get_elem?-lt s.filetable last (some v) (last_has s.filetable v newfd free oldfd l have) in
      (
        record s {
          filetable = set s.filetable newfd (some v);
          filetable_dup = set (set s.filetable_dup newfd (pos oldfd)) last (pos newfd);
          filetable_isdup = set s.filetable_isdup newfd (pos 1);
          filetable_parent = set s.filetable_parent newfd (pos oldfd);
        },
        rw
            (
              le→ltb_false filetablesize oldfd (omega arith),
              le→ltb_false filetablesize newfd (omega arith),
              free,
              have.0,
              last-Ring s.filetable_dup (filetablesize + 1) oldfd l ring short,
              last_has s.filetable v newfd free oldfd l have,
              lt→ltb newfd (length s.filetable) (omega (arith, cells.files_length)),
              lt→ltb newfd (length s.filetable_dup) (omega (arith, cells.dup_length)),
              lt→ltb last (length (set s.filetable_dup newfd (pos oldfd))) (
                  omega (
                    arith,
                    length-set s.filetable_dup newfd (pos oldfd),
                    cells.dup_length,
                    cells.files_length,
                  )),
              lt→ltb newfd (length s.filetable_isdup) (omega (arith, cells.isdup_length)),
              lt→ltb newfd (length s.filetable_parent) (omega (arith, cells.parent_length)),
            )
            refl,
        join-Ring s.filetable v newfd free s.filetable_dup oldfd (omega (arith, cells.dup_length)) q
            ne l p ring have,
        have_more s.filetable v newfd free (oldfd ∷ l) have,
        get_elem?-set_self s.filetable_isdup newfd (pos 1) (omega (arith, cells.isdup_length)),
        get_elem?-set_self s.filetable_parent newfd (pos oldfd)
            (omega (arith, cells.parent_length)),
        refl,
      )
