-- ===== src/Sfs/Io/Partial.antt =====
-- A read from a file into a kernel buffer that stays within one block.
use cse_9201_os.Common.{
  ℕ, ◌+◌, ◌-◌, ◌/◌, ◌%◌, ◌^◌, ◌≤◌, ◌<◌, ◌≡◌, refl, ◌∙◌, false, List, ltb, ==→eq, ◌==◌,
  if◌then◌else◌, arith, inl, inr, lt→ltb, le→ltb_false, lt→leb_false, ne→==_false, Bool-cases,
  replicate,
}
use cse_9201_os.Common.Calls.{returns}
use cse_9201_os.Uio.{uio_read, mk_kuio}
use cse_9201_os.Uio.Move.{uiomove-mk_kuio}
use cse_9201_os.Sfs.{Sv}
use cse_9201_os.Sfs.Space.{IsSound, rblock_lem}
use cse_9201_os.Sfs.Bmap.{sfs_bmap}
use cse_9201_os.Sfs.Io.{
  Machine, Memory, Io, memmove, put_block, copies, move, fill_iobuf, write_iobuf, sfs_partialio,
  io_aligned, io_body, sfs_io, block_loop,
}

-- the words of a block, where 0 is a hole
abbrev pub block_words : Sv → ℕ → List ℕ
block_words v b = if b == 0 then replicate 128 0 else v.fs.disk b

-- a read of `len` bytes to `kbuf`, from `start` on
abbrev pub reading : Sv → Memory → ℕ → ℕ → ℕ → Io
reading v mem kbuf len start = record { sv = v; mem = mem; uio = mk_kuio kbuf len start uio_read }

module _ (k : Machine) (v : Sv) (s : IsSound v.fs) (mem : Memory) (kbuf len start : ℕ) where
  -- the memory after a move of `n` bytes of block `b`, from byte `skip` on
  abbrev pub from_block : ℕ → ℕ → ℕ → Memory
  from_block b skip n = memmove (put_block mem k.iobuf (block_words v b)) kbuf (k.iobuf + skip) n

  fill_lem :
      (b : ℕ)
      → fill_iobuf k b (reading v mem kbuf len start)
        ≡ returns tt (reading v (put_block mem k.iobuf (block_words v b)) kbuf len start)
  unfolding fill_iobuf mk_kuio
  fill_lem b = elim (Bool-cases (b == 0)) [
    | inl hole ↦ rw hole refl
    | inr block ↦ rw (block, rblock_lem v s b) refl
  ]

  move_lem :
      (ptr n : ℕ)
      → 0 < n
      → n ≤ len
      → len < 2 ^ 32
      → start + n < 2 ^ 31
      → move k ptr n (reading v mem kbuf len start)
        ≡ returns tt (reading v (memmove mem kbuf ptr n) (kbuf + n) (len - n) (start + n))
  unfolding move
  move_lem ptr n some_bytes fits word small =
      rw
        (uiomove-mk_kuio (copies k) k.t_vmspace mem ptr n kbuf len start some_bytes fits word small)
        refl

module _ (k : Machine) (v : Sv) (s : IsSound v.fs) (mem : Memory) (kbuf len start : ℕ) where
  pub partialio_lem :
      (b skip n : ℕ)
      → sfs_bmap false (start / 512) v ≡ returns b v
      → 0 < n
      → n ≤ len
      → skip + n ≤ 512
      → len < 2 ^ 32
      → start + n < 2 ^ 31
      → sfs_partialio k skip n (reading v mem kbuf len start)
        ≡ returns tt (
            reading v
              (from_block k v s mem kbuf len start b skip n)
              (kbuf + n)
              (len - n)
              (start + n))
  unfolding sfs_partialio write_iobuf mk_kuio
  partialio_lem b skip n look some_bytes fits within word small =
      rw
        (
          le→ltb_false 512 (skip + n) within,
          look,
          fill_lem k v s mem kbuf len start b,
          move_lem k v s (put_block mem k.iobuf (block_words v b)) kbuf len start (k.iobuf + skip) n
              some_bytes fits word small,
        )
        refl

pub lesser : (a b : ℕ) → a ≤ b → (if ltb a b then a else b) ≡ a
lesser a b h = ground arith

module _ (k : Machine) (v : Sv) (s : IsSound v.fs) (mem : Memory) (kbuf len start b : ℕ)
    (look : sfs_bmap false (start / 512) v ≡ returns b v) (some_bytes : 0 < len) (part : len < 512)
    (within : start % 512 + len ≤ 512) (small : start + len < 2 ^ 31) where
  -- the world after a read from byte `skip` of the block
  abbrev pub read_from : ℕ → Io
  read_from skip =
      reading v (from_block k v s mem kbuf len start b skip len) (kbuf + len) 0 (start + len)

  io_partial :
      (skip : ℕ)
      → skip + len ≤ 512
      → sfs_partialio k skip len (reading v mem kbuf len start) ≡ returns tt (read_from skip)
  io_partial skip fits =
      let stops : len - len ≡ 0 = omega arith in
      partialio_lem k v s mem kbuf len start b skip len look some_bytes (omega arith) fits
        (omega arith) small
      ∙ rw stops refl

  io_at_start :
      start % 512 ≡ 0 → io_aligned k (reading v mem kbuf len start) ≡ returns tt (read_from 0)
  unfolding io_aligned block_loop mk_kuio
  io_at_start e =
      let no_blocks : len / 512 ≡ 0 = omega arith in
      rw (e, no_blocks, lt→ltb len 512 part, lt→ltb 0 len some_bytes) (io_partial 0 (omega arith))

  body_within : io_body k (reading v mem kbuf len start) ≡ returns tt (read_from (start % 512))
  unfolding io_body mk_kuio
  body_within = elim (Bool-cases (start % 512 == 0)) [
    | inl aligned ↦
        let e : start % 512 ≡ 0 = ==→eq (start % 512) 0 aligned in
        rw (e, ne→==_false len 0 (omega arith)) (io_at_start e)
    | inr apart ↦
        rw (apart, lesser len (512 - start % 512) (omega arith), io_partial (start % 512) within)
          refl
  ]

  -- `sfs_io` reads a part of one block that is in the file.
  pub io_within :
      v.sv_i.sfi_size < 2 ^ 31
      → start + len ≤ v.sv_i.sfi_size
      → sfs_io k (reading v mem kbuf len start) ≡ returns tt (read_from (start % 512))
  unfolding sfs_io mk_kuio
  io_within size_small in_file =
      let extra : ltb v.sv_i.sfi_size ((start + len) % 2 ^ 32) ≡ false =
        le→ltb_false v.sv_i.sfi_size ((start + len) % 2 ^ 32) (omega arith) in
      let whole : len - 0 ≡ len = omega arith in
      rw
        (
          lt→leb_false (2 ^ 31) v.sv_i.sfi_size size_small,
          lt→leb_false v.sv_i.sfi_size start (omega arith),
          lt→ltb ((start + len) % 2 ^ 32) (2 ^ 31) (omega arith),
          extra,
          whole,
          body_within,
        )
        refl
