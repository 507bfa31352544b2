-- ===== src/Uio/Move.antt =====
-- A move through the region that `mk_kuio` sets up.
use cse_9201_os.Common.{
  ℕ, suc, ◌+◌, ◌-◌, ◌%◌, ◌^◌, ◌≤◌, ◌<◌, ◌≡◌, refl, Option, ltb, lt→ltb, ne→==_false, arith, done,
  if◌then◌else◌,
}
use cse_9201_os.Uio.{Uio, uio_read, uio_write, Copies, move_part, uiomove_loop, uiomove, mk_kuio}

module _ {Mem : Type 0} (copies : Copies Mem) where
  loop-end :
      (fuel ptr : ℕ) (mem : Mem) (uio : Uio)
      → uiomove_loop copies (suc fuel) mem ptr 0 uio ≡ done (0, mem, uio)
  unfolding uiomove_loop
  loop-end fuel ptr mem uio = refl

  min_size : (n len : ℕ) → n ≤ len → (if ltb n len then n else len) ≡ n
  min_size n len h = ground arith

  -- A `uio` that `mk_kuio` makes for reading takes any `n` bytes that fit: they go to the start of
  -- its buffer in one copy, and it goes on behind them.
  pub uiomove-mk_kuio :
      (t_vmspace : Option ℕ) (mem : Mem) (ptr n kbuf len start : ℕ)
      → 0 < n
      → n ≤ len
      → len < 2 ^ 32
      → start + n < 2 ^ 31
      → uiomove copies t_vmspace mem ptr n (mk_kuio kbuf len start uio_read)
        ≡ done (0, copies.memmove mem kbuf ptr n, mk_kuio (kbuf + n) (len - n) (start + n) uio_read)
  unfolding uiomove uiomove_loop move_part mk_kuio
  uiomove-mk_kuio t_vmspace mem ptr n kbuf len start some_bytes fits word small =
      let stops : n - n ≡ 0 = omega arith in
      let wraps : (len + 2 ^ 32 - n) % 2 ^ 32 ≡ len - n = omega arith in
      rw (
        lt→ltb 0 n some_bytes,
        lt→ltb 0 len (omega arith),
        min_size n len fits,
        ne→==_false n 0 (omega arith),
        lt→ltb (start + n) (2 ^ 31) small,
        stops,
        wraps,
      )

  -- The same for writing: the bytes come from the start of its buffer.
  pub uiomove-write_kuio :
      (t_vmspace : Option ℕ) (mem : Mem) (ptr n kbuf len start : ℕ)
      → 0 < n
      → n ≤ len
      → len < 2 ^ 32
      → start + n < 2 ^ 31
      → uiomove copies t_vmspace mem ptr n (mk_kuio kbuf len start uio_write)
        ≡ done
            (0, copies.memmove mem ptr kbuf n, mk_kuio (kbuf + n) (len - n) (start + n) uio_write)
  unfolding uiomove uiomove_loop move_part mk_kuio
  uiomove-write_kuio t_vmspace mem ptr n kbuf len start some_bytes fits word small =
      let stops : n - n ≡ 0 = omega arith in
      let wraps : (len + 2 ^ 32 - n) % 2 ^ 32 ≡ len - n = omega arith in
      rw (
        lt→ltb 0 n some_bytes,
        lt→ltb 0 len (omega arith),
        min_size n len fits,
        ne→==_false n 0 (omega arith),
        lt→ltb (start + n) (2 ^ 31) small,
        stops,
        wraps,
      )
