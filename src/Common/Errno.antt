-- ===== src/Common/Errno.antt =====
-- The error codes of kern/include/kern/errno.h; 0 is success.
use Prim.Native.Nat.{ℕ}

abbrev pub exdev : ℕ
exdev = 10

abbrev pub enxio : ℕ
enxio = 14

abbrev pub enodev : ℕ
enodev = 15

abbrev pub einval : ℕ
einval = 1

abbrev pub efault : ℕ
efault = 2

abbrev pub enametoolong : ℕ
enametoolong = 3

abbrev pub enomem : ℕ
enomem = 4

abbrev pub enospc : ℕ
enospc = 20

abbrev pub emfile : ℕ
emfile = 21

abbrev pub enosys : ℕ
enosys = 23

abbrev pub ebadf : ℕ
ebadf = 26

abbrev pub eunimp : ℕ
eunimp = 13

abbrev pub espipe : ℕ
espipe = 12

abbrev pub enfile : ℕ
enfile = 22

abbrev pub eio : ℕ
eio = 5

abbrev pub enoent : ℕ
enoent = 6

abbrev pub enotdir : ℕ
enotdir = 7

abbrev pub eisdir : ℕ
eisdir = 8

abbrev pub eexist : ℕ
eexist = 9

abbrev pub ebusy : ℕ
ebusy = 16
