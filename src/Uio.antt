-- ===== src/Uio.antt =====
-- kern/userprog/uio.c and kern/include/uio.h: moves between a buffer and the region of a `struct uio`.
-- Addresses are numbers, and an address space is one too. The memory and the routines that copy are
-- arguments: `memmove` with the destination, the source and the size, and `copyout` and `copyin` with
-- their error code.
pub mod Move
use cse_9201_os.Common.{
  ℕ, zero, suc, ◌+◌, ◌-◌, ◌%◌, ◌^◌, Bool, true, false, Option, none, some, ltb, ◌==◌, ◌&&◌,
  if◌then◌else◌, Res, done, panic, undefined, diverge, ◌>>=◌, ◌>>◌, assert,
}

pub data UioRw : Type 0 where
  uio_read uio_write : UioRw

pub data UioSeg : Type 0 where
  uio_userspace uio_sysspace uio_userispace : UioSeg

-- `struct uio`, with the base and the length of its `struct iovec`; the offset is not negative
pub record Uio : Type 0 where
  pub iov_base : ℕ
  pub iov_len : ℕ
  pub uio_offset : ℕ
  pub uio_resid : ℕ
  pub uio_segflg : UioSeg
  pub uio_rw : UioRw
  pub uio_space : Option ℕ

abbrev pub same_space : Option ℕ → Option ℕ → Bool
same_space none none = true
same_space none (some b) = false
same_space (some a) none = false
same_space (some a) (some b) = a == b

pub record Copies (Mem : Type 0) : Type 0 where
  pub memmove : Mem → ℕ → ℕ → ℕ → Mem
  pub copyout : Mem → ℕ → ℕ → ℕ → ℕ × Mem
  pub copyin : Mem → ℕ → ℕ → ℕ → ℕ × Mem

module _ {Mem : Type 0} (copies : Copies Mem) where
  -- the `switch` of `uiomove`: the error code and the memory
  unfoldable pub move_part : Mem → ℕ → ℕ → Uio → ℕ × Mem
  move_part mem ptr size uio = elim uio.uio_segflg [
    | uio_sysspace ↦ elim uio.uio_rw [
      | uio_read ↦ (0, copies.memmove mem uio.iov_base ptr size)
      | uio_write ↦ (0, copies.memmove mem ptr uio.iov_base size)
    ]
    | _ ↦ elim uio.uio_rw [
      | uio_read ↦ copies.copyout mem ptr uio.iov_base size
      | uio_write ↦ copies.copyin mem uio.iov_base ptr size
    ]
  ]

  -- what a round of the loop does to the `uio`; `uio_resid` is unsigned and wraps
  abbrev pub advance : Uio → ℕ → Uio
  advance uio size = record uio {
    iov_base = uio.iov_base + size;
    iov_len = uio.iov_len - size;
    uio_resid = (uio.uio_resid + 2 ^ 32 - size) % 2 ^ 32;
    uio_offset = uio.uio_offset + size;
  }

  -- The `while` loop, with fuel: after a round with bytes left over the region is used up, and the
  -- next round panics.
  pub uiomove_loop : ℕ → Mem → ℕ → ℕ → Uio → Res (ℕ × Mem × Uio)
  unfolding move_part
  uiomove_loop zero mem ptr n uio = diverge
  uiomove_loop (suc fuel) mem ptr n uio =
      let size = if ltb n uio.iov_len then n else uio.iov_len in
      let (result, mem') = move_part mem ptr size uio in
      let rest = uiomove_loop fuel mem' (ptr + size) (n - size) (advance uio size) in
      let moved = if ltb (uio.uio_offset + size) (2 ^ 31) then rest else undefined in
      let round =
        if size == 0 then panic else if result == 0 then moved else done (result, mem', uio) in
      if ltb 0 n && ltb 0 uio.uio_resid then round else done (0, mem, uio)

  -- `t_vmspace` is the address space of the current thread.
  pub uiomove : Option ℕ → Mem → ℕ → ℕ → Uio → Res (ℕ × Mem × Uio)
  unfolding uiomove_loop
  uiomove t_vmspace mem ptr n uio =
      assert (elim uio.uio_segflg [
        | uio_sysspace ↦ same_space uio.uio_space none
        | _ ↦ same_space uio.uio_space t_vmspace
      ])
      >> uiomove_loop 3 mem ptr n uio

  -- the loop of `uiomovezeros`, with fuel; `zeros_at` is the address of the 16 zero bytes
  pub movezeros_loop : ℕ → Option ℕ → Mem → ℕ → ℕ → Uio → Res (ℕ × Mem × Uio)
  unfolding uiomove
  movezeros_loop zero t_vmspace mem zeros_at n uio = diverge
  movezeros_loop (suc fuel) t_vmspace mem zeros_at n uio =
      let amt = if ltb n 16 then n else 16 in
      let rest = (do
        (result, mem', uio') ← uiomove t_vmspace mem zeros_at amt uio
        let next = movezeros_loop fuel t_vmspace mem' zeros_at (n - amt) uio'
        if result == 0 then next else done (result, mem', uio')) in
      if ltb 0 n then rest else done (0, mem, uio)

  pub uiomovezeros : Option ℕ → Mem → ℕ → ℕ → Uio → Res (ℕ × Mem × Uio)
  unfolding movezeros_loop
  uiomovezeros t_vmspace mem zeros_at n uio =
      assert (elim uio.uio_rw [ uio_read ↦ true | uio_write ↦ false ])
      >> movezeros_loop (suc n) t_vmspace mem zeros_at n uio

unfoldable pub mk_kuio : ℕ → ℕ → ℕ → UioRw → Uio
mk_kuio kbuf len pos' rw' = record {
  iov_base = kbuf;
  iov_len = len;
  uio_offset = pos';
  uio_resid = len;
  uio_segflg = uio_sysspace;
  uio_rw = rw';
  uio_space = none;
}
