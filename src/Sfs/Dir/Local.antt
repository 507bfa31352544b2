-- ===== src/Sfs/Dir/Local.antt =====
-- The local `struct sfs_dir` that `sfs_dir_link` and `sfs_dir_unlink` fill.
use cse_9201_os.Common.{
  ℕ, zero, suc, ◌+◌, ◌-◌, ◌*◌, ◌/◌, ◌%◌, ◌^◌, ◌≤◌, ◌<◌, ◌≡◌, refl, ap, sym, ◌∙◌, List, [], ◌∷◌,
  length, get_or, arith, inr, ne→==_false, dec_lt,
}
use mathlib.Core.Path.{subst}
use cse_9201_os.Sfs.Io.{Memory, word_at}
use cse_9201_os.Sfs.Io.Bytes.{out_of_range, in_range_lem}
use cse_9201_os.Sfs.Dir.{c_string, put_entry}
use cse_9201_os.Sfs.Dir.Entries.{c_string_ext}
use cse_9201_os.Sfs.Dir.Slots.{local_name}

-- A name that fits an entry: no NUL, and room for one behind it.
pub record IsName (name : List ℕ) : Type 0 where
  pub short : length name ≤ 59
  pub nonzero : (q : ℕ) → q < length name → 0 < get_or name q 0
  pub bytes : (q : ℕ) → get_or name q 0 < 256

c_string-get_or :
    (name : List ℕ) (n : ℕ)
    → length name ≤ n
    → ((q : ℕ) → q < length name → 0 < get_or name q 0)
    → c_string (λ j. get_or name j 0) n ≡ name
unfolding c_string
c_string-get_or [] zero h pos = refl
c_string-get_or [] (suc n) h pos = refl
c_string-get_or (x ∷ l) zero h pos = absurd (omega arith)
c_string-get_or (x ∷ l) (suc n) h pos =
    let step : (j : ℕ) → get_or (x ∷ l) (j + 1) 0 ≡ get_or l j 0 =
      λ j. let e : j + 1 ≡ suc j = omega arith in ap (λ q. get_or (x ∷ l) q 0) e in
    let rest : c_string (λ j. get_or (x ∷ l) (j + 1) 0) n ≡ l =
      c_string_ext (λ j. get_or (x ∷ l) (j + 1) 0) (λ j. get_or l j 0) n (λ j lt. step j)
      ∙ c_string-get_or l n (omega arith) (λ q lt. pos (suc q) (omega arith)) in
    rw (ne→==_false x 0 (omega (arith, pos 0 (omega arith)))) (ap (λ r. x ∷ r) rest)

module _ (mem : Memory) (sd ino : ℕ) (name : List ℕ) where
  abbrev pub filled : Memory
  filled = put_entry mem sd ino name

  put_ino : (j : ℕ) → j < 4 → filled (sd + j) ≡ ino / 2 ^ (24 - 8 * j) % 256
  put_ino j h = let d : sd + j - sd ≡ j = omega arith in rw (in_range_lem sd 4 j h, d) refl

  put_name : (q : ℕ) → q < 60 → filled (sd + (4 + q)) ≡ get_or name q 0
  put_name q h =
      let a : sd + (4 + q) ≡ sd + 4 + q = omega arith in
      let d : sd + 4 + q - (sd + 4) ≡ q = omega arith in
      rw (out_of_range sd 4 (sd + (4 + q)) (inr (omega arith)), a, in_range_lem (sd + 4) 60 q h, d)
        refl

  pub filled_bytes : ((q : ℕ) → get_or name q 0 < 256) → (j : ℕ) → j < 64 → filled (sd + j) < 256
  filled_bytes small j h = elim (dec_lt j 4) [
    | yes low ↦ subst (λ x. x < 256) (sym (put_ino j low)) (omega arith)
    | no high ↦
        let q : sd + (4 + (j - 4)) ≡ sd + j = omega arith in
        subst (λ x. x < 256) (sym (put_name (j - 4) (omega arith)) ∙ ap filled q) (small (j - 4))
  ]

  pub filled_ino : ino < 2 ^ 32 → word_at filled sd ≡ ino
  filled_ino h =
      let first : filled sd ≡ ino / 2 ^ 24 % 256 =
        ap filled (omega arith) ∙ put_ino 0 (omega arith) in
      rw (first, put_ino 1 (omega arith), put_ino 2 (omega arith), put_ino 3 (omega arith))
        (omega arith)

  pub filled_name : IsName name → local_name filled sd ≡ name
  filled_name ok =
      c_string_ext (λ j. filled (sd + (4 + j))) (λ j. get_or name j 0) 59
        (λ j h. put_name j (omega arith))
      ∙ c_string-get_or name 59 ok.short ok.nonzero
