-- ===== src/Sfs/Space.antt =====
-- Space on the disk: what `sfs_balloc`, `sfs_bfree` and `sfs_bused` do to a sound file system.
use cse_9201_os.Common.{
  ℕ, ◌≤◌, ◌<◌, ◌≡◌, ◌⊎◌, inl, inr, refl, ap, sym, ◌∙◌, Bool, true, false, ◌||◌, List, none, some,
  length, arith, lt→leb_false, ◌==◌, eq→==, ne→==_false, Bool-cases, dec_lt, done,
}
use mathlib.Core.Bool.{false≢true}
use cse_9201_os.Common.Calls.{returns, fails}
use cse_9201_os.Common.Errno.{enospc}
use cse_9201_os.Bitmap.{Bitmap, bitmap_alloc}
use cse_9201_os.Bitmap.Bits.{bit_at}
use cse_9201_os.Bitmap.Bits
use cse_9201_os.Bitmap.Alloc.{bitmap_alloc_lem}
use cse_9201_os.Bitmap.Laws.{Marks, bitmap_isset_lem}
use cse_9201_os.Sfs.{
  Fs, Sv, sfs_rwblock, sfs_rblock, sfs_wblock, sfs_clearblock, sfs_balloc, sfs_bused, zeros_block,
  write_at,
}

-- The freemap is well formed and covers the disk; the superblock's bit and the bits past the disk are
-- marked; every block has its 128 words; and the device works.
pub record IsSound (fs : Fs) : Type 0 where
  pub freemap : Bits.IsValid fs.sfs_freemap
  pub covers : fs.sp_nblocks ≤ fs.sfs_freemap.nbits
  pub super : bit_at fs.sfs_freemap.v 0 ≡ true
  pub beyond : (i : ℕ) → fs.sp_nblocks ≤ i → bit_at fs.sfs_freemap.v i ≡ true
  pub full : (b : ℕ) → length (fs.disk b) ≡ 128
  pub reads : (b : ℕ) → sfs_rwblock (fs.d_io false b) ≡ done 0
  pub writes : (b : ℕ) → sfs_rwblock (fs.d_io true b) ≡ done 0

-- The block is on the disk and marked in the freemap.
pub record InUse (fs : Fs) (b : ℕ) : Type 0 where
  pub on_disk : b < fs.sp_nblocks
  pub marked : bit_at fs.sfs_freemap.v b ≡ true

-- The file system after block `n` was taken: cleared, and marked in the freemap `m`.
abbrev pub taken : Fs → ℕ → Bitmap → Fs
taken fs n m = record fs {
  sfs_freemap = m;
  sfs_freemapdirty = true;
  disk = write_at fs.disk n zeros_block;
}

abbrev pub written : Fs → ℕ → List ℕ → Fs
written fs b words = record fs { disk = write_at fs.disk b words }

-- Block `n` was clear and is now marked, and no other bit changed.
pub record Takes (fs : Fs) (n : ℕ) (m : Bitmap) : Type 0 where
  pub fresh : bit_at fs.sfs_freemap.v n ≡ false
  pub on_disk : n < fs.sp_nblocks
  pub nonzero : 0 < n
  pub bits : (i : ℕ) → bit_at m.v i ≡ (n == i || bit_at fs.sfs_freemap.v i)
  pub sound : IsSound (taken fs n m)

length-write_at :
    (disk : ℕ → List ℕ) (b : ℕ) (words : List ℕ)
    → ((i : ℕ) → length (disk i) ≡ 128)
    → length words ≡ 128
    → (i : ℕ) → length (write_at disk b words i) ≡ 128
length-write_at disk b words full len i = elim (Bool-cases (i == b)) [
  | inl same ↦ rw same len
  | inr other ↦ rw other (full i)
]

pub write_at_self : (disk : ℕ → List ℕ) (b : ℕ) (words : List ℕ) → write_at disk b words b ≡ words
write_at_self disk b words = rw (eq→== b b refl)

pub written-IsSound :
    (fs : Fs) (b : ℕ) (words : List ℕ)
    → IsSound fs
    → length words ≡ 128
    → IsSound (written fs b words)
written-IsSound fs b words s len = record {
  freemap = s.freemap;
  covers = s.covers;
  super = s.super;
  beyond = s.beyond;
  full = length-write_at fs.disk b words s.full len;
  reads = s.reads;
  writes = s.writes;
}

or-true_right : (a b : Bool) → b ≡ true → (a || b) ≡ true
or-true_right a b h = ground arith

module _ (w : Sv) (s : IsSound w.fs) where
  pub rblock_lem : (b : ℕ) → sfs_rblock b w ≡ returns (w.fs.disk b) w
  unfolding sfs_rblock
  rblock_lem b = rw (s.reads b)

  pub wblock_lem :
      (b : ℕ) (words : List ℕ)
      → sfs_wblock words b w ≡ returns tt (record w { fs = written w.fs b words })
  unfolding sfs_wblock
  wblock_lem b words = rw (s.writes b)

  balloc-takes :
      (n : ℕ) (m : Bitmap)
      → bitmap_alloc w.fs.sfs_freemap ≡ done (0, some n, m)
      → n < w.fs.sp_nblocks
      → sfs_balloc w ≡ returns n (record w { fs = taken w.fs n m })
  unfolding sfs_balloc sfs_clearblock sfs_wblock
  balloc-takes n m run small = rw (run, lt→leb_false w.fs.sp_nblocks n small, s.writes n)

  balloc-full :
      bitmap_alloc w.fs.sfs_freemap ≡ done (enospc, none, w.fs.sfs_freemap)
      → sfs_balloc w ≡ fails enospc w
  unfolding sfs_balloc
  balloc-full run = rw run

  taken-Takes :
      (n : ℕ) (m : Bitmap)
      → bit_at w.fs.sfs_freemap.v n ≡ false
      → Marks w.fs.sfs_freemap n m
      → Takes w.fs n m
  taken-Takes n m fresh marks = record {
    fresh = fresh;
    on_disk = elim (dec_lt n w.fs.sp_nblocks) [
      | yes h ↦ h
      | no h ↦ absurd (false≢true (sym fresh ∙ s.beyond n (omega arith)))
    ];
    nonzero = elim (dec_lt 0 n) [
      | yes h ↦ h
      | no h ↦
          let e : n ≡ 0 = omega arith in
          absurd (false≢true (sym fresh ∙ ap (bit_at w.fs.sfs_freemap.v) e ∙ s.super))
    ];
    bits = marks.bits;
    sound = record {
      freemap = marks.valid;
      covers = omega (arith, s.covers, marks.same_size);
      super = marks.bits 0 ∙ or-true_right (n == 0) _ s.super;
      beyond = λ i h. marks.bits i ∙ or-true_right (n == i) _ (s.beyond i h);
      full = length-write_at w.fs.disk n zeros_block s.full refl;
      reads = s.reads;
      writes = s.writes;
    };
  }

  -- `sfs_balloc` takes a clear block of the disk, clears it and marks it; or it returns ENOSPC, with
  -- nothing changed, when every block is marked.
  pub sfs_balloc_lem :
      ((n : ℕ) × (m : Bitmap) × (sfs_balloc w ≡ returns n (record w { fs = taken w.fs n m }))
        × Takes w.fs n m)
      ⊎ ((sfs_balloc w ≡ fails enospc w) × ((i : ℕ) → bit_at w.fs.sfs_freemap.v i ≡ true))
  sfs_balloc_lem = elim (bitmap_alloc_lem w.fs.sfs_freemap s.freemap) [
    | inr (run, all) ↦ inr (balloc-full run, all)
    | inl (n, m, run, small, fresh, least, marks) ↦
        let takes = taken-Takes n m fresh marks in
        inl (n, m, balloc-takes n m run takes.on_disk, takes)
  ]

  pub bused_lem :
      (b : ℕ) → InUse w.fs b → (u : ℕ) × (sfs_bused b w ≡ returns u w) × ((u == 0) ≡ false)
  unfolding sfs_bused
  bused_lem b used =
      let (u, run, zero_iff) =
        bitmap_isset_lem w.fs.sfs_freemap s.freemap b (omega (arith, s.covers, used.on_disk)) in
      (
        u,
        rw (lt→leb_false w.fs.sp_nblocks b used.on_disk, run),
        ne→==_false u 0 (λ e. false≢true (sym (zero_iff.0 e) ∙ used.marked)),
      )
