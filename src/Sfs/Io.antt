-- ===== src/Sfs/Io.antt =====
-- Reading and writing files: `sfs_partialio`, `sfs_blockio` and `sfs_io` of
-- assignment3/ownSolution/sfs_vnode.c, on the `uio` of Uio and the block map.
-- The memory of the kernel is a function from addresses to bytes, in which `iobuf`, the buffer of the
-- device and the zeros of `uiomovezeros` have addresses. A word on the disk has its high byte first.
-- The device moves a whole block by `uiomove` through its buffer; one that fails moves nothing.
pub mod Bytes
pub mod Partial
pub mod Writes
use cse_9201_os.Common.{
  ℕ, zero, suc, ◌+◌, ◌-◌, ◌*◌, ◌/◌, ◌%◌, ◌^◌, Bool, true, false, not, List, [], ◌∷◌, Option, ltb,
  leb, ◌==◌, ◌&&◌, ◌||◌, if◌then◌else◌, Res, done, panic, undefined, diverge, replicate, get_or,
}
use cse_9201_os.Common.Calls.{
  Out, Call, returns, fails, panics, undef, diverges, pure, fail, panic!, lift, get_state,
  set_state, modify, ◌>>=◌, ◌>>◌,
}
use cse_9201_os.Uio.{Uio, uio_read, uio_write, UioRw, Copies, uiomove, uiomovezeros}
use cse_9201_os.Sfs.{Inode, Sv, sfs_blocksize, sfs_rwblock, sfs_rblock, sfs_wblock, write_at}
use cse_9201_os.Sfs.Bmap.{sfs_bmap}

abbrev pub Memory : Type 0
Memory = ℕ → ℕ

-- the addresses in the kernel, the address space of the thread, and the copies to and from it
pub record Machine : Type 0 where
  pub iobuf : ℕ
  pub d_buf : ℕ
  pub zeros_at : ℕ
  pub t_vmspace : Option ℕ
  pub copyout : Memory → ℕ → ℕ → ℕ → ℕ × Memory
  pub copyin : Memory → ℕ → ℕ → ℕ → ℕ × Memory

abbrev pub in_range : ℕ → ℕ → ℕ → Bool
in_range start n a = leb start a && ltb a (start + n)

-- `memmove`: `n` bytes from `src` to `dst`
abbrev pub memmove : Memory → ℕ → ℕ → ℕ → Memory
memmove mem dst src n a = if in_range dst n a then mem (src + (a - dst)) else mem a

abbrev pub copies : Machine → Copies Memory
copies k = record { memmove = memmove; copyout = k.copyout; copyin = k.copyin }

-- byte `i` of a block of words
abbrev pub byte_of : List ℕ → ℕ → ℕ
byte_of words i = get_or words (i / 4) 0 / 2 ^ (24 - 8 * (i % 4)) % 256

-- a block of words in memory, at an address
abbrev pub put_block : Memory → ℕ → List ℕ → Memory
put_block mem addr words a = if in_range addr 512 a then byte_of words (a - addr) else mem a

abbrev pub word_at : Memory → ℕ → ℕ
word_at mem a = mem a * 2 ^ 24 + mem (a + 1) * 2 ^ 16 + mem (a + 2) * 2 ^ 8 + mem (a + 3)

-- the `n` words at an address
abbrev pub words_at : Memory → ℕ → ℕ → List ℕ
words_at mem addr zero = []
words_at mem addr (suc n) = word_at mem addr ∷ words_at mem (addr + 4) n

-- a vnode, the memory, and the `uio`
pub record Io : Type 0 where
  pub sv : Sv
  pub mem : Memory
  pub uio : Uio

module _ {A : Type 0} where
  -- what a call on the vnode does here
  abbrev pub with_sv : Io → Out Sv A → Out Io A
  with_sv w (returns a v) = returns a (record w { sv = v })
  with_sv w (fails e v) = fails e (record w { sv = v })
  with_sv w panics = panics
  with_sv w undef = undef
  with_sv w diverges = diverges

  abbrev pub on_sv : Call Sv A → Call Io A
  on_sv m w = with_sv w (m w.sv)

-- what a move leaves, with its error code
abbrev pub moved : Io → Res (ℕ × Memory × Uio) → Out Io (Unit {0})
moved w (done (r, mem, uio)) =
    if r == 0
    then returns tt (record w { mem = mem; uio = uio })
    else fails r (record w { mem = mem; uio = uio })
moved w panic = panics
moved w undefined = undef
moved w diverge = diverges

abbrev pub is_write : UioRw → Bool
is_write uio_read = false
is_write uio_write = true

-- `(off_t)size` as a test: a size from 2 ^ 31 on is negative
abbrev pub past_size : ℕ → ℕ → Bool
past_size offset size = leb (2 ^ 31) size || ltb size offset

-- the label `out` of `sfs_io`
abbrev pub grow : Sv → ℕ → Sv
grow v offset = record v { sv_i = record v.sv_i { sfi_size = offset }; sv_dirty = true }

abbrev pub finish : ℕ → Io → Io
finish extraresid w =
    let grown =
      if is_write w.uio.uio_rw && past_size w.uio.uio_offset w.sv.sv_i.sfi_size
      then grow w.sv w.uio.uio_offset
      else w.sv in
    record w {
      sv = grown;
      uio = record w.uio { uio_resid = (w.uio.uio_resid + extraresid) % 2 ^ 32 };
    }

abbrev pub io_out : ℕ → Out Io (Unit {0}) → Out Io (Unit {0})
io_out extraresid (returns a w) = returns a (finish extraresid w)
io_out extraresid (fails e w) = fails e (finish extraresid w)
io_out extraresid panics = panics
io_out extraresid undef = undef
io_out extraresid diverges = diverges

module _ (k : Machine) where
  unfoldable pub move : ℕ → ℕ → Call Io (Unit {0})
  move ptr n w = moved w (uiomove (copies k) k.t_vmspace w.mem ptr n w.uio)

  -- what stands in `iobuf` before the move of `sfs_partialio`
  unfoldable pub fill_iobuf : ℕ → Call Io (Unit {0})
  fill_iobuf diskblock = do
    w ← get_state
    let hole = (do
      if is_write w.uio.uio_rw then panic! else pure tt
      modify λ v. record v { mem = put_block v.mem k.iobuf (replicate 128 0) })
    let block = (do
      words ← on_sv (sfs_rblock diskblock)
      modify λ v. record v { mem = put_block v.mem k.iobuf words })
    if diskblock == 0 then hole else block

  unfoldable pub write_iobuf : ℕ → Call Io (Unit {0})
  write_iobuf diskblock = do
    w ← get_state
    let write = on_sv (sfs_wblock (words_at w.mem k.iobuf 128) diskblock)
    if is_write w.uio.uio_rw then write else pure tt

  unfoldable pub sfs_partialio : ℕ → ℕ → Call Io (Unit {0})
  unfolding move fill_iobuf write_iobuf
  sfs_partialio skipstart len = do
    if ltb sfs_blocksize (skipstart + len) then panic! else pure tt
    w ← get_state
    diskblock ← on_sv (sfs_bmap (is_write w.uio.uio_rw) (w.uio.uio_offset / sfs_blocksize))
    fill_iobuf diskblock
    move (k.iobuf + skipstart) len
    write_iobuf diskblock

  -- `sfs_rwblock` on the region of the `uio`
  pub rwblock_uio : ℕ → Call Io (Unit {0})
  unfolding move
  rwblock_uio diskblock = do
    w ← get_state
    result ← lift (sfs_rwblock (w.sv.fs.d_io (is_write w.uio.uio_rw) diskblock))
    let write = (do
      move k.d_buf sfs_blocksize
      modify λ v. record v {
        sv = record v.sv {
          fs = record v.sv.fs {
            disk = write_at v.sv.fs.disk diskblock (words_at v.mem k.d_buf 128);
          };
        };
      })
    let read = (do
      modify λ v. record v { mem = put_block v.mem k.d_buf (v.sv.fs.disk diskblock) }
      move k.d_buf sfs_blocksize)
    let transfer = if is_write w.uio.uio_rw then write else read
    if result == 0 then transfer else fail result

  -- the offset and the residue of the `uio` behind the transfer of a block
  abbrev pub restore : ℕ → ℕ → ℕ → Uio → Uio
  restore saveoff diskoff saveres uio = record uio {
    uio_offset = uio.uio_offset + saveoff - diskoff;
    uio_resid = (uio.uio_resid + 2 ^ 32 - sfs_blocksize + saveres) % 2 ^ 32;
  }

  abbrev pub restored : ℕ → ℕ → ℕ → Out Io (Unit {0}) → Out Io (Unit {0})
  restored so d sr (returns a w) = returns a (record w { uio = restore so d sr w.uio })
  restored so d sr (fails e w) = fails e (record w { uio = restore so d sr w.uio })
  restored so d sr panics = panics
  restored so d sr undef = undef
  restored so d sr diverges = diverges

  -- `sfs_blockio` on a block of the disk; its offset must fit an `off_t`
  pub block_on_disk : ℕ → Call Io (Unit {0})
  unfolding rwblock_uio
  block_on_disk diskblock w =
      let diskoff = diskblock * sfs_blocksize in
      let at_block = record w {
        uio = record w.uio { uio_offset = diskoff; uio_resid = sfs_blocksize };
      } in
      let transfer =
        restored w.uio.uio_offset diskoff w.uio.uio_resid (rwblock_uio diskblock at_block) in
      if leb (2 ^ 31) diskoff
      then undef
      else if ltb w.uio.uio_resid sfs_blocksize
      then panics
      else transfer

  pub sfs_blockio : Call Io (Unit {0})
  unfolding block_on_disk
  sfs_blockio = do
    w ← get_state
    diskblock ← on_sv (sfs_bmap (is_write w.uio.uio_rw) (w.uio.uio_offset / sfs_blocksize))
    let hole = (λ (v : Io).
        moved v (uiomovezeros (copies k) k.t_vmspace v.mem k.zeros_at sfs_blocksize v.uio))
    if diskblock == 0 then hole else block_on_disk diskblock

  -- the loop over the whole blocks, for `n` more of them
  unfoldable pub block_loop : ℕ → Call Io (Unit {0})
  unfolding sfs_blockio
  block_loop zero = pure tt
  block_loop (suc n) = do sfs_blockio; block_loop n

  -- `sfs_io` behind the leading partial block
  unfoldable pub io_aligned : Call Io (Unit {0})
  unfolding block_loop sfs_partialio
  io_aligned = do
    w ← get_state
    if w.uio.uio_offset % sfs_blocksize == 0 then pure tt else panic!
    block_loop (w.uio.uio_resid / sfs_blocksize)
    v ← get_state
    if ltb v.uio.uio_resid sfs_blocksize then pure tt else panic!
    if ltb 0 v.uio.uio_resid then sfs_partialio 0 v.uio.uio_resid else pure tt

  -- `sfs_io` behind the test for the end of the file, up to the label `out`
  unfoldable pub io_body : Call Io (Unit {0})
  unfolding io_aligned
  io_body = do
    w ← get_state
    let blkoff = w.uio.uio_offset % sfs_blocksize
    let rest = sfs_blocksize - blkoff
    let len = if ltb w.uio.uio_resid rest then w.uio.uio_resid else rest
    if blkoff == 0 then pure tt else sfs_partialio blkoff len
    v ← get_state
    if v.uio.uio_resid == 0 then pure tt else io_aligned

  -- How much more a read asks for than the file has.
  abbrev pub extra_of : ℕ → ℕ → ℕ → ℕ
  extra_of offset resid size =
      let endpos = (offset + resid) % 2 ^ 32 in
      if ltb endpos (2 ^ 31) && ltb size endpos then endpos - size else 0

  unfoldable pub sfs_io : Call Io (Unit {0})
  unfolding io_body
  sfs_io w =
      let size = w.sv.sv_i.sfi_size in
      let extra = extra_of w.uio.uio_offset w.uio.uio_resid size in
      let shorter = record w { uio = record w.uio { uio_resid = w.uio.uio_resid - extra } } in
      let read =
        if extra == 0 || ltb extra w.uio.uio_resid
        then io_out extra (io_body shorter)
        else panics in
      let write = io_out 0 (io_body w) in
      if is_write w.uio.uio_rw
      then write
      else if leb (2 ^ 31) size || leb size w.uio.uio_offset
      then returns tt w
      else read
