-- ===== src/CopyInOut/Check.antt =====
-- `copycheck` keeps a copy inside user space, and refuses a copy of no bytes.
use cse_9201_os.Common.{
  ℕ, suc, zero, ◌+◌, ◌-◌, ◌%◌, ◌^◌, ◌≤◌, ◌<◌, ◌≡◌, ◌⊎◌, inl, inr, refl, lt→ltb, le→ltb_false,
  le→leb, lt→leb_false, arith, dec_lt,
}
use cse_9201_os.Common.Errno.{efault}
use cse_9201_os.CopyInOut.{Memory, copycheck, copy_block, copyin, copyout}

module _ (userptr len top : ℕ) (e : (userptr + len + 2 ^ 32 - 1) % 2 ^ 32 ≡ top) where
  check-wraps : top < userptr → copycheck userptr len ≡ (efault, len)
  unfolding copycheck
  check-wraps h = rw (e, lt→ltb top userptr h)

  check-kernel : userptr ≤ top → 2147483648 ≤ userptr → copycheck userptr len ≡ (efault, len)
  unfolding copycheck
  check-kernel h k = rw (e, le→ltb_false top userptr h, le→leb 2147483648 userptr k)

  check-overlaps :
      userptr ≤ top
      → userptr < 2147483648
      → 2147483648 ≤ top
      → copycheck userptr len ≡ (0, 2147483648 - userptr)
  unfolding copycheck
  check-overlaps h k l =
      rw (e, le→ltb_false top userptr h, lt→leb_false 2147483648 userptr k, le→leb 2147483648 top l)

  check-inside : userptr ≤ top → top < 2147483648 → copycheck userptr len ≡ (0, len)
  unfolding copycheck
  check-inside h l = rw (
    e,
    le→ltb_false top userptr h,
    lt→leb_false 2147483648 userptr (omega arith),
    lt→leb_false 2147483648 top l,
  )

-- `copycheck` of at least one byte: EFAULT when the region starts in the kernel or wraps around; and
-- else a length to stop at, from 1 to the length asked for, such that the region up to there lies in
-- user space, and that falls short only where it meets the end of user space.
pub copycheck_bounds :
    (userptr len : ℕ)
    → 0 < len
    → userptr < 2 ^ 32
    → len < 2 ^ 32
    → ((copycheck userptr len ≡ (efault, len))
        × ((2147483648 ≤ userptr) ⊎ (2 ^ 32 < userptr + len)))
      ⊎ ((stop : ℕ) × (copycheck userptr len ≡ (0, stop))
          × (0 < stop)
          × (stop ≤ len)
          × (userptr + stop ≤ 2147483648)
          × ((stop ≡ len) ⊎ (userptr + stop ≡ 2147483648))
          × (userptr + len ≤ 2 ^ 32))
copycheck_bounds userptr len some_bytes word word' = elim (dec_lt (2 ^ 32) (userptr + len)) [
  | yes wraps ↦
      inl (
        check-wraps userptr len (userptr + len - 1 - 2 ^ 32) (omega arith) (omega arith),
        inr wraps,
      )
  | no fits ↦
      let top : (userptr + len + 2 ^ 32 - 1) % 2 ^ 32 ≡ userptr + len - 1 = omega arith in
      elim (dec_lt userptr 2147483648) [
        | no kernel ↦ inl (
          check-kernel userptr len (userptr + len - 1) top (omega arith) (omega arith),
          inl (omega arith),
        )
        | yes user ↦ elim (dec_lt (userptr + len - 1) 2147483648) [
          | yes inside ↦ inr (
            len,
            check-inside userptr len (userptr + len - 1) top (omega arith) inside,
            some_bytes,
            omega arith,
            omega arith,
            inl refl,
            omega arith,
          )
          | no over ↦ inr (
            2147483648 - userptr,
            check-overlaps userptr len (userptr + len - 1) top (omega arith) user (omega arith),
            omega arith,
            omega arith,
            omega arith,
            inr (omega arith),
            omega arith,
          )
        ]
      ]
]

block-stops :
    (userptr dest src len stop : ℕ) (m : Memory)
    → copycheck userptr len ≡ (0, stop)
    → len < stop
    → copy_block userptr dest src len m ≡ (efault, m)
unfolding copy_block
block-stops userptr dest src len stop m e h = rw e (ground arith)

block-refused :
    (userptr dest src len : ℕ) (m : Memory)
    → copycheck userptr len ≡ (efault, len)
    → copy_block userptr dest src len m ≡ (efault, m)
unfolding copy_block
block-refused userptr dest src len m e = rw e

-- `copyin` and `copyout` of no bytes fail with EFAULT at every user address, and change nothing.
pub copy_nothing :
    (userptr kernel : ℕ) (m : Memory)
    → userptr < 2 ^ 32
    → (copyin userptr kernel 0 m ≡ (efault, m)) × (copyout kernel userptr 0 m ≡ (efault, m))
unfolding copyin copyout
copy_nothing zero kernel m h =
    let e = check-overlaps 0 0 4294967295 refl (omega arith) (omega arith) (omega arith) in
    (
      block-stops 0 kernel 0 0 2147483648 m e (omega arith),
      block-stops 0 0 kernel 0 2147483648 m e (omega arith),
    )
copy_nothing (suc p) kernel m h =
    let e = check-wraps (suc p) 0 p (omega arith) (omega arith) in
    (block-refused (suc p) kernel (suc p) 0 m e, block-refused (suc p) (suc p) kernel 0 m e)
