-- ===== src/CopyInOut.antt =====
-- kern/lib/copyinout.c: copies between user and kernel memory.
-- Addresses and lengths are numbers below 2 ^ 32. An access to an address that is not `mapped` is a
-- fatal fault: with `pcb_badfaultfunc` set, `copyfail` then jumps to the `setjmp`, what was copied so
-- far staying; without it the kernel panics. `memcpy` copies upwards.
pub mod Check
pub mod Bytes
pub mod Blocks
pub mod Strings
pub mod Instr
mod Tests
use cse_9201_os.Common.{
  ℕ, zero, suc, ◌+◌, ◌-◌, ◌%◌, ◌^◌, Bool, true, false, Option, none, some, ltb, leb, ◌==◌, ◌&&◌,
  if◌then◌else◌,
}
use cse_9201_os.Common.Errno.{efault, enametoolong}

abbrev pub usertop : ℕ
usertop = 2147483648

pub record Memory : Type 0 where
  pub byte : ℕ → ℕ
  pub mapped : ℕ → Bool
  pub pcb_badfaultfunc : Bool

-- the error code and `*stoplen`
pub copycheck : ℕ → ℕ → ℕ × ℕ
copycheck userptr len =
    let top = (userptr + len + 2 ^ 32 - 1) % 2 ^ 32 in
    if ltb top userptr
    then (efault, len)
    else if leb usertop userptr
    then (efault, len)
    else if leb usertop top
    then (0, usertop - userptr)
    else (0, len)

abbrev pub write_byte : Memory → ℕ → ℕ → Memory
write_byte m address value = record m { byte = λ a. if a == address then value else m.byte a }

abbrev pub both_mapped : Memory → ℕ → ℕ → Bool
both_mapped m a b = m.mapped a && m.mapped b

-- The bytes of a copy one after the other: whether a fault stopped it, and the memory.
pub copy_bytes : ℕ → ℕ → ℕ → Memory → Bool × Memory
copy_bytes zero dest src m = (false, m)
copy_bytes (suc n) dest src m =
    let rest = copy_bytes n (dest + 1) (src + 1) (write_byte m dest (m.byte src)) in
    if both_mapped m dest src then rest else (true, m)

abbrev pub set_badfault : Bool → Memory → Memory
set_badfault b m = record m { pcb_badfaultfunc = b }

-- What `copyin` and `copyout` have in common: the user's region, and the copy under `copyfail`.
pub copy_block : ℕ → ℕ → ℕ → ℕ → Memory → ℕ × Memory
unfolding copycheck copy_bytes
copy_block userptr dest src len m =
    let (result, stoplen) = copycheck userptr len in
    let (fault, m') = copy_bytes len dest src (set_badfault true m) in
    let copied : ℕ × Memory = (if fault then efault else 0, set_badfault false m') in
    if result == 0 then (if stoplen == len then copied else (efault, m)) else (result, m)

unfoldable pub copyin : ℕ → ℕ → ℕ → Memory → ℕ × Memory
unfolding copy_block
copyin usersrc dest len m = copy_block usersrc dest usersrc len m

unfoldable pub copyout : ℕ → ℕ → ℕ → Memory → ℕ × Memory
unfolding copy_block
copyout src userdest len m = copy_block userdest userdest src len m

-- How the loop of `copystr` ends.
pub data Str : Type 0 where
  fault : Memory → Str
  ended : ℕ → Memory → Str
  full : Memory → Str

-- the loop of `copystr` for `n` more values of `i`; `ended` has the value of `*gotlen`
pub copystr_loop : ℕ → ℕ → ℕ → ℕ → Memory → Str
copystr_loop zero i dest src m = full m
copystr_loop (suc n) i dest src m =
    let m' = write_byte m (dest + i) (m.byte (src + i)) in
    let rest = copystr_loop n (i + 1) dest src m' in
    if both_mapped m (dest + i) (src + i)
    then (if m'.byte (src + i) == 0 then ended (i + 1) m' else rest)
    else fault m

-- the error code, `*gotlen` if it is set, and the memory
abbrev pub copystr_result : ℕ → ℕ → Str → ℕ × Option ℕ × Memory
copystr_result maxlen stoplen (fault m) = (efault, none, m)
copystr_result maxlen stoplen (ended n m) = (0, some n, m)
copystr_result maxlen stoplen (full m) =
    (if ltb stoplen maxlen then efault else enametoolong, none, m)

-- `copystr`, under `copyfail`
pub copystr : ℕ → ℕ → ℕ → ℕ → Memory → ℕ × Option ℕ × Memory
unfolding copystr_loop
copystr dest src maxlen stoplen m =
    copystr_result maxlen stoplen
      (copystr_loop (if ltb stoplen maxlen then stoplen else maxlen) 0 dest src m)

-- What `copyinstr` and `copyoutstr` have in common.
pub copy_string : ℕ → ℕ → ℕ → ℕ → Memory → ℕ × Option ℕ × Memory
unfolding copycheck copystr
copy_string userptr dest src len m =
    let (result, stoplen) = copycheck userptr len in
    let (result', actual, m') = copystr dest src len stoplen (set_badfault true m) in
    if result == 0 then (result', actual, set_badfault false m') else (result, none, m)

unfoldable pub copyinstr : ℕ → ℕ → ℕ → Memory → ℕ × Option ℕ × Memory
unfolding copy_string
copyinstr usersrc dest len m = copy_string usersrc dest usersrc len m

unfoldable pub copyoutstr : ℕ → ℕ → ℕ → Memory → ℕ × Option ℕ × Memory
unfolding copy_string
copyoutstr src userdest len m = copy_string userdest userdest src len m
