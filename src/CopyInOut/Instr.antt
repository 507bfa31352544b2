-- ===== src/CopyInOut/Instr.antt =====
-- `copyinstr`: all the ways in which it ends.
use cse_9201_os.Common.{
  ℕ, ◌+◌, ◌-◌, ◌^◌, ◌≤◌, ◌<◌, ◌≡◌, ◌≢◌, ◌⊎◌, inl, inr, refl, sym, true, false, Option, none, some,
  ltb, lt→ltb, le→ltb_false, arith, dec_lt, if◌then◌else◌,
}
use cse_9201_os.Common.Errno.{efault, enametoolong}
use cse_9201_os.CopyInOut.{
  Memory, copycheck, both_mapped, set_badfault, Str, fault, ended, full, copystr_loop,
  copystr_result, copystr, copy_string, copyinstr,
}
use cse_9201_os.CopyInOut.Check.{copycheck_bounds}
use cse_9201_os.CopyInOut.Bytes.{Apart}
use cse_9201_os.CopyInOut.Strings.{StrEnds, copystr_loop-StrEnds}

-- The string of `k` bytes at `src`, its end included, stands at `dest`; nothing else changed.
pub record IsCopied (dest src k : ℕ) (m m' : Memory) : Type 0 where
  pub end : m.byte (src + (k - 1)) ≡ 0
  pub before : (j : ℕ) → j < k - 1 → m.byte (src + j) ≢ 0
  pub placed : (j : ℕ) → j < k → m'.byte (dest + j) ≡ m.byte (src + j)
  pub outside : (a : ℕ) → (a < dest) ⊎ (dest + k ≤ a) → m'.byte a ≡ m.byte a

-- How a copy of a string in user space ends: copied; too long; or out of user space or unmapped.
abbrev pub StringEnds : ℕ → ℕ → ℕ → Memory → ℕ × Option ℕ × Memory → Type 0
StringEnds dest src len m (r, actual, m') =
    (m'.pcb_badfaultfunc ≡ m.pcb_badfaultfunc)
    × (((r ≡ 0)
          × ((k : ℕ) × (actual ≡ some k)
              × (0 < k)
              × (k ≤ len)
              × (src + k ≤ 2147483648)
              × IsCopied dest src k m m'))
        ⊎ ((r ≡ enametoolong)
            × (src + len ≤ 2147483648)
            × ((j : ℕ) → j < len → m.byte (src + j) ≢ 0))
        ⊎ ((r ≡ efault)
            × ((2147483648 < src + len)
                ⊎ ((j : ℕ) × (j < len) × (both_mapped m (dest + j) (src + j) ≡ false)))))

module _ (dest src len : ℕ) (m : Memory) where
  string-refused : copycheck src len ≡ (efault, len) → copyinstr src dest len m ≡ (efault, none, m)
  unfolding copyinstr copy_string copystr
  string-refused e = rw e

  string-goes :
      (stop : ℕ) (r : Str)
      → copycheck src len ≡ (0, stop)
      → (if ltb stop len then stop else len) ≡ stop
      → copystr_loop stop 0 dest src (set_badfault true m) ≡ r
      → copyinstr src dest len m ≡ (
        (copystr_result len stop r).0,
        (copystr_result len stop r).1,
        set_badfault false (copystr_result len stop r).2,
      )
  unfolding copyinstr copy_string copystr
  string-goes stop r e least run = rw (e, least, run)

  str-StringEnds :
      (stop : ℕ) (r : Str)
      → m.pcb_badfaultfunc ≡ false
      → stop ≤ len
      → src + stop ≤ 2147483648
      → (stop ≡ len) ⊎ (src + stop ≡ 2147483648)
      → StrEnds stop 0 dest src (set_badfault true m) r
      → StringEnds dest src len m (
        (copystr_result len stop r).0,
        (copystr_result len stop r).1,
        set_badfault false (copystr_result len stop r).2,
      )
  str-StringEnds stop (fault m') func le inside which (j, l, k, unmapped) =
      (sym func, inr (inr (refl, inr (j, omega arith, unmapped))))
  str-StringEnds stop (ended k m') func le inside which (pos, k_le, last, before, placed, out) = (
    sym func,
    inl (
      refl,
      (
        k,
        refl,
        pos,
        omega arith,
        omega arith,
        record {
          end = last;
          before = λ j h. before j (omega arith) h;
          placed = λ j h. placed j (omega arith) h;
          outside = λ a h. out a (at_start a h);
        },
      ),
    ),
  )
    where
      at_start : (a : ℕ) → (a < dest) ⊎ (dest + k ≤ a) → (a < dest + 0) ⊎ (dest + k ≤ a)
      at_start a (inl h) = inl (omega arith)
      at_start a (inr h) = inr h
  str-StringEnds stop (full m') func le inside which all = elim (dec_lt stop len) [
    | yes short ↦ rw (lt→ltb stop len short) (
      sym func,
      inr (
          inr
            (refl, inl (elim which [ inl same ↦ absurd (omega arith) | inr meets ↦ omega arith ]))),
    )
    | no whole ↦
        rw (le→ltb_false stop len (omega arith))
          (sym func, inr (inl (refl, omega arith, λ j h. all j (omega arith) (omega arith))))
  ]

  -- `copyinstr` with a length of at least one byte returns 0 with the string and its end in place,
  -- all of it read from user space; ENAMETOOLONG when no byte within the length is the end; or EFAULT
  -- when the region passes the end of user space or an address is unmapped; for a buffer that the
  -- user's region does not overlap. `pcb_badfaultfunc` is reset on every way out.
  pub copyinstr_lem :
      0 < len
      → src < 2 ^ 32
      → len < 2 ^ 32
      → Apart len dest src
      → m.pcb_badfaultfunc ≡ false
      → StringEnds dest src len m (copyinstr src dest len m)
  copyinstr_lem some_bytes word word' apart func =
      elim (copycheck_bounds src len some_bytes word word') [
        | inl (e, inl kernel) ↦ rw (string-refused e) (refl, inr (inr (refl, inl (omega arith))))
        | inl (e, inr wraps) ↦ rw (string-refused e) (refl, inr (inr (refl, inl (omega arith))))
        | inr (stop, e, pos, le, inside, which, word'') ↦
            rw
              (string-goes stop (copystr_loop stop 0 dest src (set_badfault true m)) e
                (least stop le) refl)
              (str-StringEnds stop (copystr_loop stop 0 dest src (set_badfault true m)) func le
                inside which
                (copystr_loop-StrEnds len dest src apart stop 0 (set_badfault true m)
                  (omega arith)))
      ]
    where
      least : (stop : ℕ) → stop ≤ len → (if ltb stop len then stop else len) ≡ stop
      least stop le = ground arith
