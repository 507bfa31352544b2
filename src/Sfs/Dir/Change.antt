-- ===== src/Sfs/Dir/Change.antt =====
-- Writing an entry over a slot whose block the directory has: the bytes of that slot become those in
-- memory, and every other byte of the directory stays.
use cse_9201_os.Common.{
  ℕ, ◌+◌, ◌-◌, ◌*◌, ◌/◌, ◌%◌, ◌≤◌, ◌<◌, ◌≡◌, refl, ap, sym, ◌∙◌, ◌≢◌, ◌⊎◌, false, List, ◌==◌,
  if◌then◌else◌, arith, inl, inr, replicate, get_or, ne→==_false, dec_lt, ℕ_discrete,
}
use mathlib.Core.Path.{subst}
use cse_9201_os.Common.Calls.{returns}
use cse_9201_os.Uio.{mk_kuio, Uio}
use cse_9201_os.Sfs.{Sv}
use cse_9201_os.Sfs.Space.{InUse, written-IsSound, write_at_self}
use cse_9201_os.Sfs.Bmap.Read.{tree_block, IsHoleOrUsed}
use cse_9201_os.Sfs.Bmap.Alloc.{tree-direct, tree-single}
use cse_9201_os.Sfs.Bmap.There.{sfs_bmap-there}
use cse_9201_os.Sfs.Io.{Machine, Memory, byte_of, in_range, words_at}
use cse_9201_os.Sfs.Io.Bytes.{length-words_at, out_of_range, in_range-at}
use cse_9201_os.Sfs.Io.Partial.{block_words}
use cse_9201_os.Sfs.Io.Writes.{writing, over_block, with_block, io_write_within}
use cse_9201_os.Sfs.Dir.{sfs_writedir}
use cse_9201_os.Sfs.Dir.Entries.{file_byte}
use cse_9201_os.Sfs.Dir.Find.{IsSmallFile}
use cse_9201_os.Sfs.Dir.Buffer.{IsEntryAt, new_byte}

-- Block `g` of the file is there, and neither its indirect block nor one of its other blocks.
pub record IsOwn (v : Sv) (g : ℕ) : Type 0 where
  pub there : 0 < tree_block v g
  pub in_use : InUse v.fs (tree_block v g)
  pub no_indirect : v.sv_i.sfi_indirect ≢ tree_block v g
  pub only_here : (h : ℕ) → h < 143 → h ≢ g → tree_block v h ≢ tree_block v g

module _ (k : Machine) (v : Sv) (small : IsSmallFile v) (mem : Memory) (sd i : ℕ)
    (e : IsEntryAt k mem sd) (own : IsOwn v (i * 64 / 512))
    (in_file : i * 64 + 64 ≤ v.sv_i.sfi_size) where
  -- the directory after the entry at `sd` was written to slot `i`
  abbrev pub changed : Sv
  changed =
      with_block k v (tree_block v (i * 64 / 512))
        (over_block k v mem sd (tree_block v (i * 64 / 512)) (i * 64 % 512) 64)

  disk_other : (c : ℕ) → c ≢ tree_block v (i * 64 / 512) → changed.fs.disk c ≡ v.fs.disk c
  disk_other c ne = rw (ne→==_false c (tree_block v (i * 64 / 512)) ne) refl

  -- The blocks of the file stay where they are.
  pub changed-tree : (h : ℕ) → h < 143 → tree_block changed h ≡ tree_block v h
  changed-tree h lt = elim (dec_lt h 15) [
    | yes direct ↦ tree-direct changed h direct ∙ sym (tree-direct v h direct)
    | no behind ↦
        tree-single changed h (omega arith) lt
        ∙ ap (λ l. if v.sv_i.sfi_indirect == 0 then 0 else get_or l (h - 15) 0)
            (disk_other v.sv_i.sfi_indirect own.no_indirect)
        ∙ sym (tree-single v h (omega arith) lt)
  ]

  changed-other :
      (p : ℕ) → p / 512 < 143 → p / 512 ≢ i * 64 / 512 → file_byte changed p ≡ file_byte v p
  changed-other p lt ne =
      let same = changed-tree (p / 512) lt in
      let words : changed.fs.disk (tree_block v (p / 512)) ≡ v.fs.disk (tree_block v (p / 512)) =
        disk_other (tree_block v (p / 512)) (own.only_here (p / 512) lt ne) in
      ap (λ c. byte_of (block_words changed c) (p % 512)) same
      ∙ ap (λ l. byte_of (if tree_block v (p / 512) == 0 then replicate 128 0 else l) (p % 512))
          words

  changed-here :
      (p : ℕ)
      → p / 512 ≡ i * 64 / 512
      → file_byte changed p ≡ (
          if in_range (i * 64 % 512) 64 (p % 512)
          then mem (sd + (p % 512 - i * 64 % 512))
          else file_byte v p)
  changed-here p same =
      let g : ℕ = i * 64 / 512 in
      let b : ℕ = tree_block v g in
      let q : ℕ = p % 512 in
      let words : List ℕ = words_at (over_block k v mem sd b (i * 64 % 512) 64) k.iobuf 128 in
      let nonzero : (b == 0) ≡ false = ne→==_false b 0 (omega (arith, own.there)) in
      let at : tree_block changed (p / 512) ≡ b =
        ap (tree_block changed) same ∙ changed-tree g (omega (arith, small.fits)) in
      let old : file_byte v p ≡ byte_of (v.fs.disk b) q =
        ap (λ h. byte_of (block_words v (tree_block v h)) q) same
        ∙ ap (λ t. byte_of (if t then replicate 128 0 else v.fs.disk b) q) nonzero in
      ap (λ c. byte_of (block_words changed c) q) at
      ∙ ap (λ t. byte_of (if t then replicate 128 0 else changed.fs.disk b) q) nonzero
      ∙ ap (λ l. byte_of l q) (write_at_self v.fs.disk b words)
      ∙ new_byte k v mem sd b (i * 64 % 512) e (omega arith) q (omega arith)
      ∙ ap (λ x. if in_range (i * 64 % 512) 64 q then mem (sd + (q - i * 64 % 512)) else x)
          (sym old)

  -- The same byte, counted in the block and in the directory.
  slot_test :
      (p : ℕ)
      → p / 512 ≡ i * 64 / 512
      → (if in_range (i * 64 % 512) 64 (p % 512)
          then mem (sd + (p % 512 - i * 64 % 512))
          else file_byte v p)
        ≡ (if in_range (i * 64) 64 p then mem (sd + (p - i * 64)) else file_byte v p)
  slot_test p same =
      let test : in_range (i * 64 % 512) 64 (p % 512) ≡ in_range (i * 64) 64 p =
        elim (dec_lt p (i * 64)) [
          | yes before ↦
              out_of_range (i * 64 % 512) 64 (p % 512) (inl (omega arith))
              ∙ sym (out_of_range (i * 64) 64 p (inl before))
          | no q ↦ elim (dec_lt p (i * 64 + 64)) [
            | yes inside ↦
                in_range-at (i * 64 % 512) 64 (p % 512) (omega arith) (omega arith)
                ∙ sym (in_range-at (i * 64) 64 p (omega arith) inside)
            | no r ↦
                out_of_range (i * 64 % 512) 64 (p % 512) (inr (omega arith))
                ∙ sym (out_of_range (i * 64) 64 p (inr (omega arith)))
          ]
        ] in
      let offset : p % 512 - i * 64 % 512 ≡ p - i * 64 = omega arith in
      ap (λ t. if t then mem (sd + (p % 512 - i * 64 % 512)) else file_byte v p) test
      ∙ ap (λ o. if in_range (i * 64) 64 p then mem (sd + o) else file_byte v p) offset

  elsewhere : (p : ℕ) → p / 512 ≢ i * 64 / 512 → (p < i * 64) ⊎ (i * 64 + 64 ≤ p)
  elsewhere p other = elim (dec_lt p (i * 64)) [
    | yes before ↦ inl before
    | no q ↦ elim (dec_lt p (i * 64 + 64)) [
      | yes inside ↦ absurd (other (omega arith))
      | no r ↦ inr (omega arith)
    ]
  ]

  -- Byte `p` of the directory is that of the entry in memory, if it is in the slot, and else the old one.
  pub changed_byte :
      (p : ℕ)
      → p / 512 < 143
      → file_byte changed p
        ≡ (if in_range (i * 64) 64 p then mem (sd + (p - i * 64)) else file_byte v p)
  changed_byte p lt = elim (ℕ_discrete (p / 512) (i * 64 / 512)) [
    | yes same ↦ changed-here p same ∙ slot_test p same
    | no other ↦
        changed-other p lt other
        ∙ sym (
            ap (λ t. if t then mem (sd + (p - i * 64)) else file_byte v p)
              (out_of_range (i * 64) 64 p (elsewhere p other)))
  ]

  pub changed-IsSmallFile : IsSmallFile changed
  changed-IsSmallFile = record {
    sound =
        written-IsSound v.fs (tree_block v (i * 64 / 512))
          (words_at (over_block k v mem sd (tree_block v (i * 64 / 512)) (i * 64 % 512) 64) k.iobuf
            128)
          small.sound
          (length-words_at (over_block k v mem sd (tree_block v (i * 64 / 512)) (i * 64 % 512) 64)
            k.iobuf 128);
    direct = small.direct;
    fits = small.fits;
    blocks = λ h lt.
        subst (IsHoleOrUsed changed.fs) (sym (changed-tree h lt)) (elim (small.blocks h lt) [
          | inl hole ↦ inl hole
          | inr used ↦ inr (record { on_disk = used.on_disk; marked = used.marked })
        ]);
  }

  pub writedir_lem :
      (uio : Uio)
      → sfs_writedir k sd i (record { sv = v; mem = mem; uio = uio })
        ≡ returns tt (
            writing changed
              (over_block k v mem sd (tree_block v (i * 64 / 512)) (i * 64 % 512) 64)
              (sd + 64)
              0
              (i * 64 + 64))
  unfolding sfs_writedir mk_kuio
  writedir_lem uio =
      rw
        (io_write_within k v small.sound mem sd 64 (i * 64) (tree_block v (i * 64 / 512))
          (sfs_bmap-there v small.sound small.direct (i * 64 / 512) (omega (arith, small.fits))
            own.there own.in_use)
          own.there (omega arith) (omega arith) (omega arith) (omega (arith, small.fits))
          (omega (arith, small.fits)) in_file)
        refl
