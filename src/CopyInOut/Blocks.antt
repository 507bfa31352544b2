-- ===== src/CopyInOut/Blocks.antt =====
-- `copyin` and `copyout`: all the ways in which they end.
use cse_9201_os.Common.{
  ℕ, ◌+◌, ◌^◌, ◌≤◌, ◌<◌, ◌≡◌, ◌⊎◌, inl, inr, refl, ap, ◌∙◌, Bool, true, false, ◌==◌, eq→==,
  ne→==_false, arith, ℕ_discrete, if◌then◌else◌,
}
use cse_9201_os.Common.Errno.{efault}
use cse_9201_os.CopyInOut.{
  Memory, copycheck, both_mapped, copy_bytes, set_badfault, copy_block, copyin, copyout,
}
use cse_9201_os.CopyInOut.Check.{copycheck_bounds}
use cse_9201_os.CopyInOut.Bytes.{Apart, Copies, copy_bytes-Copies}

-- How a copy of `len` bytes from `src` to `dest` ends, the user's side being at `userptr`.
pub record Ends (userptr dest src len : ℕ) (m : Memory) (r : ℕ × Memory) : Type 0 where
  pub outside : (a : ℕ) → (a < dest) ⊎ (dest + len ≤ a) → r.1.byte a ≡ m.byte a
  pub func : r.1.pcb_badfaultfunc ≡ false
  pub result :
      ((r.0 ≡ 0)
        × (userptr + len ≤ 2147483648)
        × ((i : ℕ) → i < len → Apart len dest src → r.1.byte (dest + i) ≡ m.byte (src + i)))
      ⊎ ((r.0 ≡ efault)
          × ((2147483648 < userptr + len)
              ⊎ ((i : ℕ) × (i < len) × (both_mapped m (dest + i) (src + i) ≡ false))))

module _ (userptr dest src len : ℕ) (m : Memory) where
  block-copies :
      (fault : Bool) (m' : Memory)
      → copycheck userptr len ≡ (0, len)
      → copy_bytes len dest src (set_badfault true m) ≡ (fault, m')
      → copy_block userptr dest src len m ≡ ((if fault then efault else 0), set_badfault false m')
  unfolding copy_block
  block-copies fault m' e run = rw (e, run, eq→== len len refl)

  block-short :
      (stop : ℕ)
      → copycheck userptr len ≡ (0, stop)
      → (stop == len) ≡ false
      → copy_block userptr dest src len m ≡ (efault, m)
  unfolding copy_block
  block-short stop e h = rw (e, h)

  block-refused :
      copycheck userptr len ≡ (efault, len) → copy_block userptr dest src len m ≡ (efault, m)
  unfolding copy_block
  block-refused e = rw e

  copied-Ends :
      (fault : Bool) (m' : Memory)
      → userptr + len ≤ 2147483648
      → Copies len dest src (set_badfault true m) fault m'
      → Ends userptr dest src len m ((if fault then efault else 0), set_badfault false m')
  copied-Ends fault m' inside copies = record {
    outside = copies.outside;
    func = refl;
    result = elim copies.ends [
      | inl (ok, placed) ↦ inl (ap (λ t. if t then efault else 0) ok, inside, placed)
      | inr (stopped, unmapped) ↦ inr (ap (λ t. if t then efault else 0) stopped, inr unmapped)
    ];
  }

  refused-Ends :
      m.pcb_badfaultfunc ≡ false
      → 2147483648 < userptr + len
      → Ends userptr dest src len m (efault, m)
  refused-Ends func over = record {
    outside = λ a h. refl;
    func = func;
    result = inr (refl, inl over);
  }

  copy_block-Ends :
      0 < len
      → userptr < 2 ^ 32
      → len < 2 ^ 32
      → m.pcb_badfaultfunc ≡ false
      → Ends userptr dest src len m (copy_block userptr dest src len m)
  copy_block-Ends some_bytes word word' func =
      elim (copycheck_bounds userptr len some_bytes word word') [
        | inl (e, inl kernel) ↦ rw (block-refused e) (refused-Ends func (omega arith))
        | inl (e, inr wraps) ↦ rw (block-refused e) (refused-Ends func (omega arith))
        | inr (stop, e, pos, le, inside, which, word'') ↦ elim (ℕ_discrete stop len) [
          | yes whole ↦
              let e' : copycheck userptr len ≡ (0, len) = e ∙ ap (λ k. (0, k)) whole in
              rw
                (block-copies (copy_bytes len dest src (set_badfault true m)).0
                  (copy_bytes len dest src (set_badfault true m)).1 e' refl)
                (copied-Ends (copy_bytes len dest src (set_badfault true m)).0
                  (copy_bytes len dest src (set_badfault true m)).1 (omega arith)
                  (copy_bytes-Copies len dest src (set_badfault true m)))
          | no short ↦ rw (block-short stop e (ne→==_false stop len short)) (
              refused-Ends func
                (elim which [ inl same ↦ absurd (short same) | inr meets ↦ omega arith ]))
        ]
      ]

module _ (dest src len : ℕ) (m : Memory) where
  -- `copyin` of at least one byte returns 0 with the user's bytes in place, when they lie in user
  -- space and no address is unmapped (in place if the two regions do not overlap); or EFAULT,
  -- when the region passes the end of user space or an address is unmapped. Nothing outside the
  -- buffer changes, and `pcb_badfaultfunc` is reset on every way out.
  pub copyin_lem :
      0 < len
      → src < 2 ^ 32
      → len < 2 ^ 32
      → m.pcb_badfaultfunc ≡ false
      → Ends src dest src len m (copyin src dest len m)
  unfolding copyin
  copyin_lem = copy_block-Ends src dest src len m

  -- `copyout` of at least one byte ends in the same ways, with the user's side the destination.
  pub copyout_lem :
      0 < len
      → dest < 2 ^ 32
      → len < 2 ^ 32
      → m.pcb_badfaultfunc ≡ false
      → Ends dest dest src len m (copyout src dest len m)
  unfolding copyout
  copyout_lem = copy_block-Ends dest dest src len m
