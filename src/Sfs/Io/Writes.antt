-- ===== src/Sfs/Io/Writes.antt =====
-- A write to a file from a kernel buffer that stays within one block that the file has.
use cse_9201_os.Common.{
  ℕ, ◌+◌, ◌-◌, ◌/◌, ◌%◌, ◌^◌, ◌≤◌, ◌<◌, ◌≡◌, refl, true, ==→eq, ◌==◌, arith, inl, inr, lt→ltb,
  le→ltb_false, lt→leb_false, ne→==_false, Bool-cases,
}
use cse_9201_os.Common.Calls.{returns}
use cse_9201_os.Uio.{uio_write, mk_kuio}
use cse_9201_os.Uio.Move.{uiomove-write_kuio}
use cse_9201_os.Sfs.{Sv}
use cse_9201_os.Sfs.Space.{IsSound, written, rblock_lem, wblock_lem}
use cse_9201_os.Sfs.Bmap.{sfs_bmap}
use cse_9201_os.Sfs.Io.{
  Machine, Memory, Io, memmove, put_block, words_at, copies, move, fill_iobuf, write_iobuf,
  sfs_partialio, io_aligned, io_body, sfs_io, block_loop,
}
use cse_9201_os.Sfs.Io.Partial.{lesser}

-- a write of `len` bytes from `kbuf`, from `start` on
abbrev pub writing : Sv → Memory → ℕ → ℕ → ℕ → Io
writing v mem kbuf len start = record { sv = v; mem = mem; uio = mk_kuio kbuf len start uio_write }

-- the memory after `n` bytes from `kbuf` went over block `b`, from byte `skip` on
abbrev pub over_block : Machine → Sv → Memory → ℕ → ℕ → ℕ → ℕ → Memory
over_block k v mem kbuf b skip n =
    memmove (put_block mem k.iobuf (v.fs.disk b)) (k.iobuf + skip) kbuf n

-- the vnode after `iobuf` was written to block `b`
abbrev pub with_block : Machine → Sv → ℕ → Memory → Sv
with_block k v b mem = record v { fs = written v.fs b (words_at mem k.iobuf 128) }

module _ (k : Machine) (v : Sv) (s : IsSound v.fs) where
  fill_write :
      (mem : Memory) (kbuf len start b : ℕ)
      → 0 < b
      → fill_iobuf k b (writing v mem kbuf len start)
        ≡ returns tt (writing v (put_block mem k.iobuf (v.fs.disk b)) kbuf len start)
  unfolding fill_iobuf
  fill_write mem kbuf len start b pos = rw (ne→==_false b 0 (omega arith), rblock_lem v s b) refl

  move_write :
      (mem : Memory) (ptr n kbuf len start : ℕ)
      → 0 < n
      → n ≤ len
      → len < 2 ^ 32
      → start + n < 2 ^ 31
      → move k ptr n (writing v mem kbuf len start)
        ≡ returns tt (writing v (memmove mem ptr kbuf n) (kbuf + n) (len - n) (start + n))
  unfolding move
  move_write mem ptr n kbuf len start some_bytes fits word small =
      rw
        (uiomove-write_kuio (copies k) k.t_vmspace mem ptr n kbuf len start some_bytes fits word
          small)
        refl

  write_lem :
      (mem : Memory) (kbuf len start b : ℕ)
      → write_iobuf k b (writing v mem kbuf len start)
        ≡ returns tt (writing (with_block k v b mem) mem kbuf len start)
  unfolding write_iobuf mk_kuio
  write_lem mem kbuf len start b = rw (wblock_lem v s b (words_at mem k.iobuf 128)) refl

module _ (k : Machine) (v : Sv) (s : IsSound v.fs) (mem : Memory) (kbuf len start b : ℕ)
    (look : sfs_bmap true (start / 512) v ≡ returns b v) (pos : 0 < b) (some_bytes : 0 < len)
    (part : len < 512) (within : start % 512 + len ≤ 512) (small : start + len < 2 ^ 31) where
  -- the world after a write from byte `skip` of the block on
  abbrev pub written_from : ℕ → Io
  written_from skip =
      writing (with_block k v b (over_block k v mem kbuf b skip len))
        (over_block k v mem kbuf b skip len) (kbuf + len) 0 (start + len)

  partial_write :
      (skip : ℕ)
      → skip + len ≤ 512
      → sfs_partialio k skip len (writing v mem kbuf len start) ≡ returns tt (written_from skip)
  unfolding sfs_partialio mk_kuio
  partial_write skip fits =
      let stops : len - len ≡ 0 = omega arith in
      rw
        (
          le→ltb_false 512 (skip + len) fits,
          look,
          fill_write k v s mem kbuf len start b pos,
          move_write k v s (put_block mem k.iobuf (v.fs.disk b)) (k.iobuf + skip) len kbuf len start
              some_bytes (omega arith) (omega arith) small,
          stops,
          write_lem k v s (over_block k v mem kbuf b skip len) (kbuf + len) 0 (start + len) b,
        )
        refl

  write_at_start :
      start % 512 ≡ 0 → io_aligned k (writing v mem kbuf len start) ≡ returns tt (written_from 0)
  unfolding io_aligned block_loop mk_kuio
  write_at_start e =
      let no_blocks : len / 512 ≡ 0 = omega arith in
      rw (e, no_blocks, lt→ltb len 512 part, lt→ltb 0 len some_bytes)
        (partial_write 0 (omega arith))

  body_write : io_body k (writing v mem kbuf len start) ≡ returns tt (written_from (start % 512))
  unfolding io_body mk_kuio
  body_write = elim (Bool-cases (start % 512 == 0)) [
    | inl aligned ↦
        let e : start % 512 ≡ 0 = ==→eq (start % 512) 0 aligned in
        rw (e, ne→==_false len 0 (omega arith)) (write_at_start e)
    | inr apart ↦
        rw (apart, lesser len (512 - start % 512) (omega arith), partial_write (start % 512) within)
          refl
  ]

  -- `sfs_io` writes over a part of one block that is in the file.
  pub io_write_within :
      v.sv_i.sfi_size < 2 ^ 31
      → start + len ≤ v.sv_i.sfi_size
      → sfs_io k (writing v mem kbuf len start) ≡ returns tt (written_from (start % 512))
  unfolding sfs_io mk_kuio
  io_write_within size_small in_file =
      rw
        (
          body_write,
          lt→leb_false (2 ^ 31) v.sv_i.sfi_size size_small,
          le→ltb_false v.sv_i.sfi_size (start + len) in_file,
        )
        refl
