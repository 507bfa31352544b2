-- ===== src/Sfs/Dir/Buffer.antt =====
-- `iobuf` when an entry is written over a part of a block.
use cse_9201_os.Common.{
  ℕ, ◌+◌, ◌-◌, ◌≤◌, ◌<◌, ◌≡◌, ap, sym, ◌∙◌, ◌⊎◌, true, List, if◌then◌else◌, arith, inl, inr, dec_lt,
}
use mathlib.Core.Path.{subst}
use cse_9201_os.Sfs.{Sv}
use cse_9201_os.Sfs.Io.{Machine, Memory, byte_of, put_block, in_range, words_at}
use cse_9201_os.Sfs.Io.Bytes.{
  byte_of-words_at, out_of_range, in_range_lem, memmove-in, memmove-out, put_block-in,
  put_block-out,
}
use cse_9201_os.Sfs.Io.Writes.{over_block}

-- The local entry at `sd` does not lie over `iobuf`, and holds bytes.
pub record IsEntryAt (k : Machine) (mem : Memory) (sd : ℕ) : Type 0 where
  pub apart : (sd + 64 ≤ k.iobuf) ⊎ (k.iobuf + 512 ≤ sd)
  pub bytes : (j : ℕ) → j < 64 → mem (sd + j) < 256

byte-lt : (words : List ℕ) (i : ℕ) → byte_of words i < 256
byte-lt words i = omega arith

module _ (k : Machine) (v : Sv) (mem : Memory) (sd b skip : ℕ) (e : IsEntryAt k mem sd)
    (fits : skip + 64 ≤ 512) where
  abbrev buffer : Memory
  buffer = over_block k v mem sd b skip 64

  buffer-in : (j : ℕ) → j < 64 → buffer (k.iobuf + (skip + j)) ≡ mem (sd + j)
  buffer-in j h =
      ap buffer (omega arith)
      ∙ memmove-in (put_block mem k.iobuf (v.fs.disk b)) (k.iobuf + skip) sd 64 j h
      ∙ put_block-out mem k.iobuf (sd + j) (v.fs.disk b)
          (elim e.apart [ inl below ↦ inl (omega arith) | inr above ↦ inr (omega arith) ])

  buffer-out :
      (i : ℕ)
      → i < 512
      → (i < skip) ⊎ (skip + 64 ≤ i)
      → buffer (k.iobuf + i) ≡ byte_of (v.fs.disk b) i
  buffer-out i h out =
      memmove-out (put_block mem k.iobuf (v.fs.disk b)) (k.iobuf + skip) sd 64 (k.iobuf + i)
        (elim out [ inl before ↦ inl (omega arith) | inr behind ↦ inr (omega arith) ])
      ∙ put_block-in mem k.iobuf i (v.fs.disk b) h

  buffer_bytes : (i : ℕ) → i < 512 → buffer (k.iobuf + i) < 256
  buffer_bytes i h = elim (dec_lt i skip) [
    | yes before ↦
        subst (λ x. x < 256) (sym (buffer-out i h (inl before))) (byte-lt (v.fs.disk b) i)
    | no p ↦ elim (dec_lt i (skip + 64)) [
      | yes inside ↦
          let q : k.iobuf + (skip + (i - skip)) ≡ k.iobuf + i = omega arith in
          subst (λ x. x < 256) (sym (buffer-in (i - skip) (omega arith)) ∙ ap buffer q)
            (e.bytes (i - skip) (omega arith))
      | no q ↦
          subst (λ x. x < 256) (sym (buffer-out i h (inr (omega arith)))) (byte-lt (v.fs.disk b) i)
    ]
  ]

  -- Byte `i` of the block that is written.
  pub new_byte :
      (i : ℕ)
      → i < 512
      → byte_of (words_at buffer k.iobuf 128) i
        ≡ (if in_range skip 64 i then mem (sd + (i - skip)) else byte_of (v.fs.disk b) i)
  new_byte i h = byte_of-words_at buffer k.iobuf buffer_bytes i h ∙ elim (dec_lt i skip) [
    | yes before ↦ rw (out_of_range skip 64 i (inl before)) (buffer-out i h (inl before))
    | no p ↦ elim (dec_lt i (skip + 64)) [
      | yes inside ↦
          let q : skip + (i - skip) ≡ i = omega arith in
          let r : in_range skip 64 i ≡ true =
            ap (in_range skip 64) (sym q) ∙ in_range_lem skip 64 (i - skip) (omega arith) in
          rw r (ap (λ x. buffer (k.iobuf + x)) (sym q) ∙ buffer-in (i - skip) (omega arith))
      | no q ↦ rw (out_of_range skip 64 i (inr (omega arith))) (buffer-out i h (inr (omega arith)))
    ]
  ]
