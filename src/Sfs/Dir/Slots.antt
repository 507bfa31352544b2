-- ===== src/Sfs/Dir/Slots.antt =====
-- The entries of a directory after one was written.
use cse_9201_os.Common.{
  ℕ, ◌+◌, ◌-◌, ◌*◌, ◌/◌, ◌^◌, ◌≤◌, ◌<◌, ◌≡◌, refl, ap, ◌∙◌, ◌≢◌, List, if◌then◌else◌, arith, inl,
  inr, dec_lt, ℕ_discrete,
}
use cse_9201_os.Sfs.{Sv}
use cse_9201_os.Sfs.Io.{Machine, Memory, word_at}
use cse_9201_os.Sfs.Io.Bytes.{out_of_range, in_range_lem}
use cse_9201_os.Sfs.Dir.{c_string}
use cse_9201_os.Sfs.Dir.Entries.{file_byte, entry_ino, entry_name, c_string_ext}
use cse_9201_os.Sfs.Dir.Find.{IsSmallFile}
use cse_9201_os.Sfs.Dir.Buffer.{IsEntryAt}
use cse_9201_os.Sfs.Dir.Change.{IsOwn, changed, changed_byte}

-- the name in a local entry
abbrev pub local_name : Memory → ℕ → List ℕ
local_name mem sd = c_string (λ j. mem (sd + (4 + j))) 59

module _ (k : Machine) (v : Sv) (small : IsSmallFile v) (mem : Memory) (sd i : ℕ)
    (e : IsEntryAt k mem sd) (own : IsOwn v (i * 64 / 512))
    (in_file : i * 64 + 64 ≤ v.sv_i.sfi_size) where
  abbrev pub after : Sv
  after = changed k v small mem sd i e own in_file

  byte_self : (j : ℕ) → j < 64 → file_byte after (i * 64 + j) ≡ mem (sd + j)
  byte_self j h =
      let d : i * 64 + j - i * 64 ≡ j = omega arith in
      changed_byte k v small mem sd i e own in_file (i * 64 + j) (omega (arith, small.fits))
      ∙ ap (λ t. if t then mem (sd + (i * 64 + j - i * 64)) else file_byte v (i * 64 + j))
          (in_range_lem (i * 64) 64 j h)
      ∙ ap (λ x. mem (sd + x)) d

  byte_other :
      (a j : ℕ)
      → a ≢ i
      → a < 1144
      → j < 64
      → file_byte after (a * 64 + j) ≡ file_byte v (a * 64 + j)
  byte_other a j ne lt h =
      changed_byte k v small mem sd i e own in_file (a * 64 + j) (omega arith)
      ∙ ap (λ t. if t then mem (sd + (a * 64 + j - i * 64)) else file_byte v (a * 64 + j))
          (out_of_range (i * 64) 64 (a * 64 + j) (elim (dec_lt a i) [
            | yes before ↦ inl (omega arith)
            | no q ↦ elim (ℕ_discrete a i) [
              | yes same ↦ absurd (ne same)
              | no other ↦ inr (omega arith)
            ]
          ]))

  pub ino_self : entry_ino after i ≡ word_at mem sd
  ino_self =
      rw
        (
          byte_self 0 (omega arith),
          byte_self 1 (omega arith),
          byte_self 2 (omega arith),
          byte_self 3 (omega arith),
        )
        (ap (λ x. mem x * 2 ^ 24 + mem (sd + 1) * 2 ^ 16 + mem (sd + 2) * 2 ^ 8 + mem (sd + 3))
          (omega arith))

  pub name_self : entry_name after i ≡ local_name mem sd
  name_self =
      c_string_ext (λ j. file_byte after (i * 64 + (4 + j))) (λ j. mem (sd + (4 + j))) 59
        (λ j h. byte_self (4 + j) (omega arith))

  pub ino_other : (a : ℕ) → a ≢ i → a < 1144 → entry_ino after a ≡ entry_ino v a
  ino_other a ne lt =
      rw
        (
          byte_other a 0 ne lt (omega arith),
          byte_other a 1 ne lt (omega arith),
          byte_other a 2 ne lt (omega arith),
          byte_other a 3 ne lt (omega arith),
        )
        refl

  pub name_other : (a : ℕ) → a ≢ i → a < 1144 → entry_name after a ≡ entry_name v a
  name_other a ne lt =
      c_string_ext (λ j. file_byte after (a * 64 + (4 + j))) (λ j. file_byte v (a * 64 + (4 + j)))
        59 (λ j h. byte_other a (4 + j) ne lt (omega arith))
