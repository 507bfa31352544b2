-- ===== src/Sfs/Io/Bytes.antt =====
-- Words and their bytes: what `words_at` reads from memory has the bytes that stand there.
use cse_9201_os.Common.{
  ℕ, zero, suc, ◌+◌, ◌-◌, ◌*◌, ◌/◌, ◌%◌, ◌^◌, ◌≤◌, ◌<◌, ◌≡◌, ◌⊎◌, inl, inr, refl, ap, sym, ◌∙◌,
  List, get_or, length, arith, Bool, true, false, ◌&&◌, leb, le→leb, lt→ltb, lt→leb_false,
  le→ltb_false,
}
use mathlib.Core.Path.{subst}
use cse_9201_os.Sfs.Io.{Memory, in_range, memmove, put_block, byte_of, word_at, words_at}

pub length-words_at : (mem : Memory) (a n : ℕ) → length (words_at mem a n) ≡ n
length-words_at mem a zero = refl
length-words_at mem a (suc n) = ap suc (length-words_at mem (a + 4) n)

get_or-words_at :
    (mem : Memory) (a n q : ℕ) → q < n → get_or (words_at mem a n) q 0 ≡ word_at mem (a + 4 * q)
get_or-words_at mem a zero q h = absurd (omega arith)
get_or-words_at mem a (suc n) zero h = ap (word_at mem) (omega arith)
get_or-words_at mem a (suc n) (suc q) h =
    get_or-words_at mem (a + 4) n q (omega arith) ∙ ap (word_at mem) (omega arith)

-- the bytes of a word of four bytes
word_bytes :
    (a b c d : ℕ)
    → a < 256
    → b < 256
    → c < 256
    → d < 256
    → ((a * 2 ^ 24 + b * 2 ^ 16 + c * 2 ^ 8 + d) / 2 ^ 24 % 256 ≡ a)
      × ((a * 2 ^ 24 + b * 2 ^ 16 + c * 2 ^ 8 + d) / 2 ^ 16 % 256 ≡ b)
      × ((a * 2 ^ 24 + b * 2 ^ 16 + c * 2 ^ 8 + d) / 2 ^ 8 % 256 ≡ c)
      × ((a * 2 ^ 24 + b * 2 ^ 16 + c * 2 ^ 8 + d) / 2 ^ 0 % 256 ≡ d)
word_bytes a b c d h i j k = (omega arith, omega arith, omega arith, omega arith)

four_cases : (r : ℕ) → r < 4 → (r ≡ 0) ⊎ (r ≡ 1) ⊎ (r ≡ 2) ⊎ (r ≡ 3)
four_cases zero h = inl refl
four_cases (suc zero) h = inr (inl refl)
four_cases (suc (suc zero)) h = inr (inr (inl refl))
four_cases (suc (suc (suc zero))) h = inr (inr (inr refl))
four_cases (suc (suc (suc (suc r)))) h = absurd (omega arith)

module _ (mem : Memory) (a : ℕ) (bytes : (i : ℕ) → i < 512 → mem (a + i) < 256) where
  byte_in :
      (q r : ℕ)
      → q < 128
      → r < 4
      → word_at mem (a + 4 * q) / 2 ^ (24 - 8 * r) % 256 ≡ mem (a + 4 * q + r)
  byte_in q r h k =
      let at : (c : ℕ) → c < 4 → mem (a + 4 * q + c) < 256 = λ c lt.
        let e : a + 4 * q + c ≡ a + (4 * q + c) = omega arith in
        rw e (bytes (4 * q + c) (omega arith)) in
      let zero_at : a + 4 * q + 0 ≡ a + 4 * q = omega arith in
      let first : mem (a + 4 * q) < 256 = subst (λ x. mem x < 256) zero_at (at 0 (omega arith)) in
      let parts =
        word_bytes (mem (a + 4 * q)) (mem (a + 4 * q + 1)) (mem (a + 4 * q + 2))
          (mem (a + 4 * q + 3)) first (at 1 (omega arith)) (at 2 (omega arith))
          (at 3 (omega arith)) in
      elim (four_cases r k) [
        | inl e ↦ rw e (parts.0 ∙ ap mem (sym zero_at))
        | inr (inl e) ↦ rw e parts.1
        | inr (inr (inl e)) ↦ rw e parts.2
        | inr (inr (inr e)) ↦ rw e parts.3
      ]

  -- Byte `i` of the block that `words_at` reads is byte `i` in memory.
  pub byte_of-words_at : (i : ℕ) → i < 512 → byte_of (words_at mem a 128) i ≡ mem (a + i)
  byte_of-words_at i h =
      let e : a + 4 * (i / 4) + i % 4 ≡ a + i = omega arith in
      rw (get_or-words_at mem a 128 (i / 4) (omega arith))
        (byte_in (i / 4) (i % 4) (omega arith) (omega arith) ∙ ap mem e)

pub in_range_lem : (start n j : ℕ) → j < n → in_range start n (start + j) ≡ true
in_range_lem start n j h =
    rw (le→leb start (start + j) (omega arith), lt→ltb (start + j) (start + n) (omega arith)) refl

pub in_range-at : (start n a : ℕ) → start ≤ a → a < start + n → in_range start n a ≡ true
in_range-at start n a h k = rw (le→leb start a h, lt→ltb a (start + n) k) refl

and_false : (t : Bool) → (t && false) ≡ false
and_false t = ground arith

pub out_of_range : (start n a : ℕ) → (a < start) ⊎ (start + n ≤ a) → in_range start n a ≡ false
out_of_range start n a (inl h) = rw (lt→leb_false start a h) refl
out_of_range start n a (inr h) = rw (le→ltb_false a (start + n) h) (and_false (leb start a))

module _ (mem : Memory) where
  pub memmove-in : (dst src n j : ℕ) → j < n → memmove mem dst src n (dst + j) ≡ mem (src + j)
  memmove-in dst src n j h =
      let d : dst + j - dst ≡ j = omega arith in rw (in_range_lem dst n j h, d) refl

  pub memmove-out : (dst src n a : ℕ) → (a < dst) ⊎ (dst + n ≤ a) → memmove mem dst src n a ≡ mem a
  memmove-out dst src n a out = rw (out_of_range dst n a out) refl

  pub put_block-in :
      (addr i : ℕ) (words : List ℕ)
      → i < 512
      → put_block mem addr words (addr + i) ≡ byte_of words i
  put_block-in addr i words h =
      let d : addr + i - addr ≡ i = omega arith in rw (in_range_lem addr 512 i h, d) refl

  pub put_block-out :
      (addr a : ℕ) (words : List ℕ)
      → (a < addr) ⊎ (addr + 512 ≤ a)
      → put_block mem addr words a ≡ mem a
  put_block-out addr a words out = rw (out_of_range addr 512 a out) refl
