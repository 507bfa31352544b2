-- ===== src/FileTable/Tests.antt =====
-- Witnesses and tests of the file table of assignment 2, in the 18 cells of file.h; in 19 where a
-- test needs a `close` that returns.
use cse_9201_os.Common.{
  ℕ, zero, suc, ◌≤◌, ◌<◌, ◌≡◌, refl, Bool, true, false, Option, none, some, List, [], ◌∷◌, length,
  replicate, get_elem?, get_or, set, arith, Res, done, undefined, diverge,
}
use mathlib.Core.Bool.{false≢true}
use cse_9201_os.Common.Int.{ℤ, pos, negsuc}
use cse_9201_os.FileTable.{FileTable, Kernel, close, dup2, open_file, share_from}
use cse_9201_os.FileTable.Calls.{write}
use cse_9201_os.FileTable.Rings.{write-shares, Ring, written}
use cse_9201_os.FileTable.Joins.{dup2-joins, AllHave}
use cse_9201_os.FileTable.Faults.{close-outside, open_file-outside, updateoffset-loops, Closed}

-- A vnode is a number, a path the vnode that it leads to; a file has 100 bytes.
abbrev kernel : Kernel ℕ
kernel = record {
  Path' = ℕ;
  User = List ℕ;
  copyin = λ buf n. (0, buf);
  vfs_open = λ path flags. (0, path);
  vop_write = λ v bytes offset. 0;
  vop_read = λ v n offset. (0, replicate n 7);
  vop_stat = λ v. pos 100;
  vop_tryseek = λ v offset. 0;
  vfs_chdir = λ path. 0;
  vfs_getcwd = λ n. (0, replicate n 47, 0);
}

-- The table at boot, of `n` cells, with the console at 1 and 2.
abbrev empty : ℕ → FileTable ℕ
empty n = record {
  filetable = set (set (replicate n none) 1 (some 1)) 2 (some 1);
  filetable_offset = replicate n (pos 0);
  filetable_dup = replicate n (pos 0);
  filetable_isdup = replicate n (pos 0);
  filetable_parent = replicate n (pos 0);
  file_errno = pos 0;
}

abbrev after : Res (ℤ × FileTable ℕ) → FileTable ℕ
after (done (r, s)) = s
after undefined = empty 0
after diverge = empty 0
after Res.panic = empty 0

-- descriptor 3 is open, and 4 and 5 are its duplicates
abbrev shared : FileTable ℕ
unfolding dup2 open_file
shared =
    let s = after (open_file kernel (empty 18) (some 0) 8 0) in
    after (dup2 (after (dup2 s (pos 3) (pos 4))) (pos 3) (pos 5))

-- 3 is opened, 4 a duplicate of 3, 5 one of 4; 3 is closed, opened again, and 6 a duplicate of it.
abbrev tangled : FileTable ℕ
unfolding dup2 open_file close
tangled =
    let a = after (open_file kernel (empty 19) (some 0) 8 0) in
    let b = after (dup2 (after (dup2 a (pos 3) (pos 4))) (pos 4) (pos 5)) in
    let c = after (open_file kernel (after (close b (pos 3))) (some 0) 8 0) in
    after (dup2 c (pos 3) (pos 6))

abbrev tangled_dup : List ℤ
tangled_dup = tangled.filetable_dup

abbrev shared_dup : List ℤ
shared_dup = shared.filetable_dup

abbrev shared_files : List (Option ℕ)
shared_files = shared.filetable

write-shares_example :
    write kernel shared (pos 3) (1 ∷ 2 ∷ []) 2
    ≡ done (written kernel shared 3 (4 ∷ 5 ∷ []) 8 (pos 0) 2)
unfolding shared
write-shares_example =
    write-shares kernel shared 3 (4 ∷ 5 ∷ []) 8 (pos 0) (1 ∷ 2 ∷ []) 2 (omega arith) refl refl refl
      (omega arith, (refl, omega arith, omega arith, (refl, omega arith, omega arith, refl)))
      (omega arith)

-- a write to 5 moves 3 and 4 too
abbrev offsets_after_write : List ℤ
unfolding write shared
offsets_after_write = (after (write kernel shared (pos 5) (1 ∷ 2 ∷ []) 2)).filetable_offset

write_to_duplicate :
    offsets_after_write ≡ set (set (set (replicate 18 (pos 0)) 3 (pos 2)) 4 (pos 2)) 5 (pos 2)
unfolding offsets_after_write
write_to_duplicate = refl

dup2-joins_example :
    (t : FileTable ℕ) × (dup2 shared (pos 3) (pos 6) ≡ done (pos 0, t))
    × Ring t.filetable_dup 3 (4 ∷ 5 ∷ 6 ∷ [])
    × AllHave t.filetable 8 (3 ∷ 4 ∷ 5 ∷ 6 ∷ [])
    × (get_elem? t.filetable_isdup 6 ≡ some (pos 1))
    × (get_elem? t.filetable_parent 6 ≡ some (pos 3))
    × (t.filetable_offset ≡ shared.filetable_offset)
unfolding shared
dup2-joins_example =
    dup2-joins shared 8 3 6 (4 ∷ 5 ∷ [])
      (record { files_length = refl; dup_length = refl; isdup_length = refl; parent_length = refl })
      (omega arith) (omega arith) (omega arith) (omega arith) (omega arith) refl
      (omega arith, (refl, omega arith, omega arith, (refl, omega arith, omega arith, refl)))
      (refl, (refl, (refl, tt))) (omega arith)

-- `dup2` to an open descriptor below 3 fails: `close` refuses it, and its result -1 is stored as the
-- error code.
dup2_to_stdout : FileTable ℕ
unfolding dup2 shared
dup2_to_stdout = after (dup2 shared (pos 3) (pos 1))

dup2_to_stdout_errno : dup2_to_stdout.file_errno ≡ negsuc 0
unfolding dup2_to_stdout shared
dup2_to_stdout_errno = refl

-- the table with its 18 cells, all descriptors from 3 on in use
abbrev full : FileTable ℕ
full = record (empty 18) { filetable = none ∷ some 1 ∷ some 1 ∷ replicate 15 (some 8) }

get_elem?-replicate : (n i : ℕ) (a : Option ℕ) → i < n → get_elem? (replicate n a) i ≡ some a
get_elem?-replicate zero i a h = absurd (omega arith)
get_elem?-replicate (suc n) zero a h = refl
get_elem?-replicate (suc n) (suc i) a h = get_elem?-replicate n i a (omega arith)

full_from :
    (j : ℕ)
    → 3 ≤ j
    → j < length full.filetable
    → (u : ℕ) × (get_elem? full.filetable j ≡ some (some u))
full_from zero h k = absurd (omega arith)
full_from (suc zero) h k = absurd (omega arith)
full_from (suc (suc zero)) h k = absurd (omega arith)
full_from (suc (suc (suc j))) h k = (8, get_elem?-replicate 15 j (some 8) (omega arith))

open_file-outside_example : open_file kernel full (some 0) 9 0 ≡ undefined
open_file-outside_example = open_file-outside kernel (some 0) 0 full 9 refl full_from

-- one open descriptor, in 18 cells
abbrev one_open : FileTable ℕ
unfolding open_file
one_open = after (open_file kernel (empty 18) (some 0) 8 0)

close-outside_example : close one_open (pos 3) ≡ undefined
unfolding one_open
close-outside_example = close-outside 3 one_open 8 refl (omega arith) refl refl

abbrev in_tangle : ℕ → Bool
in_tangle i = get_or (false ∷ false ∷ false ∷ true ∷ true ∷ false ∷ true ∷ []) i false

tangle-Closed : Closed tangled.filetable_dup 5 in_tangle 19
unfolding tangled
tangle-Closed zero h = absurd (false≢true h)
tangle-Closed (suc zero) h = absurd (false≢true h)
tangle-Closed (suc (suc zero)) h = absurd (false≢true h)
tangle-Closed (suc (suc (suc zero))) h = (5, refl, refl, omega arith)
tangle-Closed (suc (suc (suc (suc zero)))) h = (2, refl, refl, omega arith)
tangle-Closed (suc (suc (suc (suc (suc zero))))) h = absurd (false≢true h)
tangle-Closed (suc (suc (suc (suc (suc (suc zero)))))) h = (2, refl, refl, omega arith)
tangle-Closed (suc (suc (suc (suc (suc (suc (suc i))))))) h = absurd (false≢true h)

updateoffset-loops_example :
    share_from 1000 5 5 tangled.filetable_dup tangled.filetable_offset ≡ diverge
unfolding tangled
updateoffset-loops_example =
    updateoffset-loops tangled.filetable_dup 5 in_tangle 1000 3 tangled.filetable_offset
      tangle-Closed refl (omega arith) refl (omega arith) refl
