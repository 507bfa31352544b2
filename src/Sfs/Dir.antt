-- ===== src/Sfs/Dir.antt =====
-- Directories: `sfs_readdir`, `sfs_writedir`, `sfs_dir_nentries`, `sfs_dir_findname`, `sfs_dir_link`
-- and `sfs_dir_unlink` of assignment3/ownSolution/sfs_vnode.c.
-- The state is that of `sfs_io`, where `uio` is the local `ku` of the last call. `sd` is the address of
-- the local `struct sfs_dir`: the word `sfd_ino` and the 60 bytes of `sfd_name`. A name is the list
-- of its bytes before the NUL. What a caller passes NULL for is handed back too, and not looked at.
-- `sfs_dir_link` and the search that it calls have a `struct sfs_dir` each; here they share the
-- address, since `sfs_dir_link` fills its own only behind the search.
pub mod Entries
pub mod Find
pub mod Buffer
pub mod Change
pub mod Slots
pub mod Local
pub mod Links
pub mod RoundTrip
mod Tests
use cse_9201_os.Common.{
  ℕ, zero, suc, ◌+◌, ◌-◌, ◌*◌, ◌/◌, ◌%◌, ◌^◌, Bool, true, false, List, [], ◌∷◌, length, get_or,
  Option, none, some, ltb, leb, ◌==◌, ◌&&◌, if◌then◌else◌, Res, done, panic,
}
use cse_9201_os.Common.Calls.{Call, pure, fail, panic!, lift, get_state, modify, ◌>>=◌, ◌>>◌}
use cse_9201_os.Common.Strings.{same_name}
use cse_9201_os.Common.Errno.{enoent, eexist, enametoolong}
use cse_9201_os.Uio.{uio_read, uio_write, mk_kuio}
use cse_9201_os.Sfs.{Sv}
use cse_9201_os.Sfs.Io.{Machine, Memory, Io, word_at, in_range, sfs_io}

abbrev pub sfs_namelen : ℕ
sfs_namelen = 60

-- `sizeof(struct sfs_dir)`
abbrev pub dir_size : ℕ
dir_size = 64

-- the bytes before the first 0, of `n` bytes
unfoldable pub c_string : (ℕ → ℕ) → ℕ → List ℕ
c_string f zero = []
c_string f (suc n) = let rest = c_string (λ j. f (j + 1)) n in if f 0 == 0 then [] else f 0 ∷ rest

-- `bzero`, the inode number, and `strcpy` of the name
abbrev pub put_entry : Memory → ℕ → ℕ → List ℕ → Memory
put_entry mem sd ino name a =
    if in_range sd 4 a
    then ino / 2 ^ (24 - 8 * (a - sd)) % 256
    else if in_range (sd + 4) sfs_namelen a
    then get_or name (a - (sd + 4)) 0
    else mem a

-- what `sfs_dir_findname` stores; it returns ENOENT where `found` is false
pub record Found : Type 0 where
  pub found : Bool
  pub ino : Option ℕ
  pub slot : Option ℕ
  pub emptyslot : Option ℕ

unfoldable pub sfs_dir_nentries : Sv → Res ℕ
sfs_dir_nentries v =
    if v.sv_i.sfi_type == 2
    then (if v.sv_i.sfi_size % dir_size == 0 then done (v.sv_i.sfi_size / dir_size) else panic)
    else panic

module _ (k : Machine) (sd : ℕ) where
  unfoldable pub sfs_readdir : ℕ → Call Io (Unit {0})
  unfolding mk_kuio sfs_io
  sfs_readdir slot = do
    modify λ w. record w { uio = mk_kuio sd dir_size (slot * dir_size) uio_read }
    sfs_io k
    w ← get_state
    if ltb 0 w.uio.uio_resid then panic! else pure tt

  unfoldable pub sfs_writedir : ℕ → Call Io (Unit {0})
  unfolding mk_kuio sfs_io
  sfs_writedir slot = do
    modify λ w. record w { uio = mk_kuio sd dir_size (slot * dir_size) uio_write }
    sfs_io k
    w ← get_state
    if ltb 0 w.uio.uio_resid then panic! else pure tt

  -- what the loop of `sfs_dir_findname` does with the entry of slot `i`
  unfoldable pub look_at : List ℕ → ℕ → Found → Call Io Found
  unfolding c_string
  look_at name i r = do
    w ← get_state
    let named = (do
      modify λ v. record v { mem = λ a. if a == sd + 63 then 0 else v.mem a }
      w' ← get_state
      let same = same_name (c_string (λ j. w'.mem (sd + 4 + j)) sfs_namelen) name
      let hit = record r { found = true; ino = some (word_at w'.mem sd); slot = some i }
      let once = if r.found then panic! else pure hit
      if same then once else pure r)
    if word_at w.mem sd == 0 then pure (record r { emptyslot = some i }) else named

  -- the loop, for `n` more values of `i`
  unfoldable pub find_loop : List ℕ → ℕ → ℕ → Found → Call Io Found
  unfolding sfs_readdir look_at
  find_loop name zero i r = pure r
  find_loop name (suc n) i r = do sfs_readdir i; r' ← look_at name i r; find_loop name n (i + 1) r'

  unfoldable pub sfs_dir_findname : List ℕ → Call Io Found
  unfolding sfs_dir_nentries find_loop
  sfs_dir_findname name = do
    w ← get_state
    nentries ← lift (sfs_dir_nentries w.sv)
    find_loop name nentries 0 (record { found = false; ino = none; slot = none; emptyslot = none })

  -- The slot that it hands back.
  unfoldable pub sfs_dir_link : List ℕ → ℕ → Call Io ℕ
  unfolding sfs_dir_findname sfs_dir_nentries sfs_writedir
  sfs_dir_link name ino = do
    r ← sfs_dir_findname name
    if r.found then fail eexist else pure tt
    if ltb sfs_namelen (length name + 1) then fail enametoolong else pure tt
    w ← get_state
    slot ← elim r.emptyslot [ none ↦ lift (sfs_dir_nentries w.sv) | some i ↦ pure i ]
    modify λ v. record v { mem = put_entry v.mem sd ino name }
    sfs_writedir slot
    pure slot

  unfoldable pub sfs_dir_unlink : ℕ → Call Io (Unit {0})
  unfolding sfs_writedir
  sfs_dir_unlink slot = do modify λ v. record v { mem = put_entry v.mem sd 0 [] }; sfs_writedir slot
