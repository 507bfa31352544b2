-- ===== src/Sfs/Dir/Entries.antt =====
-- The entries that the bytes of a directory stand for, and what `sfs_readdir` brings into memory.
use cse_9201_os.Common.{
  ℕ, zero, suc, ◌+◌, ◌-◌, ◌*◌, ◌/◌, ◌%◌, ◌<◌, ◌≡◌, refl, ap, ◌∙◌, List, [], ◌∷◌, ◌==◌,
  if◌then◌else◌, arith, ne→==_false, eq→==,
}
use cse_9201_os.Sfs.{Sv}
use cse_9201_os.Sfs.Space.{IsSound}
use cse_9201_os.Sfs.Bmap.Read.{tree_block}
use cse_9201_os.Sfs.Io.{Machine, Memory, byte_of, word_at}
use cse_9201_os.Sfs.Io.Bytes.{in_range_lem}
use cse_9201_os.Sfs.Io.Partial.{block_words, from_block}
use cse_9201_os.Sfs.Dir.{c_string}

-- byte `p` of a file, where a hole has zeros
abbrev pub file_byte : Sv → ℕ → ℕ
file_byte v p = byte_of (block_words v (tree_block v (p / 512))) (p % 512)

-- the inode number and the name in slot `i`, of which the last byte is taken to be NUL
abbrev pub entry_ino : Sv → ℕ → ℕ
entry_ino v i = word_at (λ a. file_byte v (i * 64 + a)) 0

abbrev pub entry_name : Sv → ℕ → List ℕ
entry_name v i = c_string (λ j. file_byte v (i * 64 + (4 + j))) 59

module _ (k : Machine) (v : Sv) (s : IsSound v.fs) (mem : Memory) (sd i : ℕ) where
  -- the memory after `sfs_readdir` of slot `i`
  abbrev pub after_read : Memory
  after_read = from_block k v s mem sd 64 (i * 64) (tree_block v (i * 64 / 512)) (i * 64 % 512) 64

  read_byte : (j : ℕ) → j < 64 → after_read (sd + j) ≡ file_byte v (i * 64 + j)
  read_byte j h =
      let d : sd + j - sd ≡ j = omega arith in
      let e : k.iobuf + i * 64 % 512 + j ≡ k.iobuf + (i * 64 + j) % 512 = omega arith in
      let f : k.iobuf + (i * 64 + j) % 512 - k.iobuf ≡ (i * 64 + j) % 512 = omega arith in
      let g : i * 64 / 512 ≡ (i * 64 + j) / 512 = omega arith in
      rw
        (
          in_range_lem sd 64 j h,
          d,
          e,
          in_range_lem k.iobuf 512 ((i * 64 + j) % 512) (omega arith),
          f,
          g,
        )
        refl

  pub ino_lem : word_at after_read sd ≡ entry_ino v i
  ino_lem =
      let e : after_read sd ≡ file_byte v (i * 64 + 0) =
        ap after_read (omega arith) ∙ read_byte 0 (omega arith) in
      rw (e, read_byte 1 (omega arith), read_byte 2 (omega arith), read_byte 3 (omega arith)) refl

pub c_string_ext :
    (f g : ℕ → ℕ) (n : ℕ) → ((j : ℕ) → j < n → f j ≡ g j) → c_string f n ≡ c_string g n
unfolding c_string
c_string_ext f g zero h = refl
c_string_ext f g (suc n) h =
    let rest = c_string_ext (λ j. f (j + 1)) (λ j. g (j + 1)) n (λ j lt. h (j + 1) (omega arith)) in
    rw (h 0 (omega arith), rest) refl

c_string_end : (f : ℕ → ℕ) (n : ℕ) → f n ≡ 0 → c_string f (suc n) ≡ c_string f n
unfolding c_string
c_string_end f zero h = rw h refl
c_string_end f (suc n) h =
    let rest = c_string_end (λ j. f (j + 1)) n (ap f (omega arith) ∙ h) in
    ap (λ l. if f 0 == 0 then [] else f 0 ∷ l) rest

-- `tsd.sfd_name[sizeof(tsd.sfd_name)-1] = 0`
abbrev pub terminate : Memory → ℕ → Memory
terminate mem sd a = if a == sd + 63 then 0 else mem a

terminate_ne : (mem : Memory) (sd j : ℕ) → j < 63 → terminate mem sd (sd + j) ≡ mem (sd + j)
terminate_ne mem sd j h = rw (ne→==_false (sd + j) (sd + 63) (omega arith)) refl

pub terminate_word : (mem : Memory) (sd : ℕ) → word_at (terminate mem sd) sd ≡ word_at mem sd
terminate_word mem sd =
    rw
      (
        ne→==_false sd (sd + 63) (omega arith),
        terminate_ne mem sd 1 (omega arith),
        terminate_ne mem sd 2 (omega arith),
        terminate_ne mem sd 3 (omega arith),
      )
      refl

module _ (k : Machine) (v : Sv) (s : IsSound v.fs) (mem : Memory) (sd i : ℕ) where
  pub name_lem :
      c_string (λ j. terminate (after_read k v s mem sd i) sd (sd + 4 + j)) 60 ≡ entry_name v i
  name_lem =
      let end : terminate (after_read k v s mem sd i) sd (sd + 4 + 59) ≡ 0 =
        rw (eq→== (sd + 4 + 59) (sd + 63) (omega arith)) refl in
      c_string_end (λ j. terminate (after_read k v s mem sd i) sd (sd + 4 + j)) 59 end
      ∙ c_string_ext (λ j. terminate (after_read k v s mem sd i) sd (sd + 4 + j))
          (λ j. file_byte v (i * 64 + (4 + j))) 59
          (λ j h.
            ap (terminate (after_read k v s mem sd i) sd) (omega arith)
            ∙ terminate_ne (after_read k v s mem sd i) sd (4 + j) (omega arith)
            ∙ read_byte k v s mem sd i (4 + j) (omega arith))
