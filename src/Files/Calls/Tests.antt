-- ===== src/Files/Calls/Tests.antt =====
-- The open file table with one open file, and its theorems there.
use cse_9201_os.Common.{
  ℕ, zero, suc, ◌+◌, ◌≡◌, ◌≢◌, refl, Option, none, some, ◌∷◌, replicate, get_elem?, done, arith,
  ◌==◌, if◌then◌else◌, ◌<◌,
}
use mathlib.Core.Path.{subst}
use mathlib.Core.Option.{some-injective}
use cse_9201_os.Common.Errno.{ebadf}
use cse_9201_os.Common.Int.{ℤ, pos, negsuc, ◌-ℤ◌}
use cse_9201_os.Files.{Ofte, Files, Vfs, null, vnode, oft_alloc_from}
use cse_9201_os.Files.Refs.{IsValid, EntryOk, refs}
use cse_9201_os.Files.Calls.{Reply, sys_open, sys_close, sys_read, sys_lseek}
use cse_9201_os.Files.Calls.Open.{OpensFile, ChecksMode, sys_open_lem}
use cse_9201_os.Files.Calls.Close.{IsOpen, Closes, sys_close_lem}
use cse_9201_os.Files.Calls.Offset.{moved, sys_read_lem, sys_lseek-ignores_error}

-- A file system with one file, vnode 5, of 10 bytes; a seek from 10 on is refused with ESPIPE.
abbrev one_file : Vfs ℕ
one_file = record {
  Path' = ℕ;
  User = ℕ;
  copyinstr = λ u. (0, u);
  vfs_open = λ path flags. if flags == 2 then (0, 5) else (1, 0);
  vop_read = λ v fp buf size. (0, pos size);
  vop_write = λ v fp buf size. (0, pos size);
  vop_stat = λ v. (0, pos 10);
  vop_tryseek = λ v fp. pos 12;
}

abbrev free : Ofte ℕ
free = record { fp = pos 0; flags = 0; count = pos 0; vn = null }

abbrev file : Ofte ℕ
file = record { fp = pos 0; flags = 2; count = pos 1; vn = vnode 5 }

-- nothing is open
abbrev empty : Files ℕ
empty = record { oft = replicate 64 free; fd = replicate 16 none }

-- descriptor 0 refers to entry 0
abbrev one_open : Files ℕ
one_open = record { oft = file ∷ replicate 63 free; fd = some 0 ∷ replicate 15 none }

read_far :
    sys_read one_file one_open (pos 0) 3 4
    ≡ done (pos 0, some (pos 4), moved one_open 0 file (pos 4))
unfolding sys_read ◌-ℤ◌
read_far = refl

open_first : sys_open one_file empty 3 2 (pos 0) ≡ done (pos 0, some (pos 0), one_open)
unfolding sys_open oft_alloc_from
open_first = refl

close_last :
    sys_close one_open (pos 0)
    ≡ done (pos 0, some 5, record empty { oft = record free { flags = 2 } ∷ replicate 63 free })
unfolding sys_close ◌-ℤ◌
close_last = refl

fd_rest : (n i j : ℕ) → get_elem? (replicate n none) i ≢ some (some j)
fd_rest zero i j e = cc e
fd_rest (suc n) zero j e = cc (some-injective _ _ e)
fd_rest (suc n) (suc i) j e = fd_rest n i j e

abbrev no_others : ℕ → ℕ
no_others j = 0

get_all : (n j : ℕ) (e : Ofte ℕ) → get_elem? (replicate n free) j ≡ some e → free ≡ e
get_all zero j e g = cc g
get_all (suc n) zero e g = some-injective free e g
get_all (suc n) (suc j) e g = get_all n j e g

refs-none : (n j : ℕ) → refs j (replicate n none) ≡ 0
unfolding refs
refs-none zero j = refl
refs-none (suc n) j = omega (arith, refs-none n j)

in_table : (i j : ℕ) → get_elem? one_open.fd i ≡ some (some j) → j < 64
in_table zero j e = omega (arith, some-injective 0 j (some-injective (some 0) (some j) e))
in_table (suc i) j e = absurd (fd_rest 15 i j e)

counted :
    (j : ℕ) (e : Ofte ℕ) → get_elem? one_open.oft j ≡ some e → EntryOk (refs j one_open.fd + 0) e
unfolding refs
counted zero e g = subst (EntryOk 1) (some-injective file e g) (refl, omega arith, omega arith)
counted (suc j) e g =
    subst (EntryOk (refs (suc j) one_open.fd + 0)) (get_all 63 j e g)
      (ground (arith, refs-none 15 (suc j)))

one_open-IsValid : IsValid no_others one_open
one_open-IsValid = record {
  oft_length = refl;
  fd_length = refl;
  in_table = in_table;
  counted = counted;
}

one_open-IsOpen : IsOpen no_others one_open 0 0 file 5 1
unfolding refs
one_open-IsOpen = record {
  small = omega arith;
  points_to = refl;
  is_entry = refl;
  is_file = refl;
  total = refl;
  counts = refl;
  mode = omega arith;
}

checks_mode : ChecksMode one_file
checks_mode path flags h = ground arith

sys_open_lem_example :
    (reply : Reply ℕ) × (sys_open one_file one_open 3 2 (pos 0) ≡ done reply)
    × OpensFile one_file no_others one_open 3 2 0 reply
sys_open_lem_example =
    sys_open_lem one_file no_others one_open 3 2 (pos 0) one_open-IsValid checks_mode

sys_close_lem_example :
    ((reply : ℤ × Option ℕ × Files ℕ) × (sys_close one_open (pos 0) ≡ done reply)
      × Closes no_others one_open one_open-IsValid 0 reply)
    × (sys_close one_open (negsuc 0) ≡ done (pos ebadf, none, one_open))
sys_close_lem_example = sys_close_lem no_others one_open one_open-IsValid 0

sys_read_lem_example :
    (sys_read one_file one_open (pos 0) 3 4
      ≡ done (pos 0, some (pos 4 -ℤ pos 0), moved one_open 0 file (pos 4)))
    × ((fp : ℤ) → IsValid no_others (moved one_open 0 file fp))
sys_read_lem_example =
    sys_read_lem no_others one_open one_open-IsValid 0 0 file 5 1 one_open-IsOpen one_file 3 4

sys_lseek-ignores_error_example :
    sys_lseek one_file one_open (pos 0) (pos 20) 0
    ≡ done (pos 0, some (pos 20), moved one_open 0 file (pos 20))
sys_lseek-ignores_error_example =
    sys_lseek-ignores_error no_others one_open one_open-IsValid 0 0 file 5 1 one_open-IsOpen
      one_file 20 12 refl
