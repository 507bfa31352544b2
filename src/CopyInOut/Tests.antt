-- ===== src/CopyInOut/Tests.antt =====
-- The theorems of copyinout.c at concrete memories.
use cse_9201_os.Common.{◌≡◌, inl, refl, true, false, ◌==◌, if◌then◌else◌, arith}
use cse_9201_os.Common.Errno.{efault}
use cse_9201_os.CopyInOut.{Memory, copyin, copyout, copyinstr}
use cse_9201_os.CopyInOut.Check.{copy_nothing}
use cse_9201_os.CopyInOut.Blocks.{Ends, copyin_lem, copyout_lem}
use cse_9201_os.CopyInOut.Instr.{StringEnds, copyinstr_lem}

-- Everything is mapped; the byte at an address is 7, but 0 at 4099.
abbrev sevens : Memory
sevens = record {
  byte = λ a. if a == 4099 then 0 else 7;
  mapped = λ a. true;
  pcb_badfaultfunc = false;
}

copy_nothing_example :
    (copyin 4096 2147483648 0 sevens ≡ (efault, sevens))
    × (copyout 2147483648 4096 0 sevens ≡ (efault, sevens))
copy_nothing_example = copy_nothing 4096 2147483648 sevens (omega arith)

copyin_lem_example : Ends 4096 2147483648 4096 8 sevens (copyin 4096 2147483648 8 sevens)
copyin_lem_example =
    copyin_lem 2147483648 4096 8 sevens (omega arith) (omega arith) (omega arith) refl

copyout_lem_example : Ends 4096 4096 2147483648 8 sevens (copyout 2147483648 4096 8 sevens)
copyout_lem_example =
    copyout_lem 4096 2147483648 8 sevens (omega arith) (omega arith) (omega arith) refl

copyinstr_lem_example : StringEnds 2147483648 4096 8 sevens (copyinstr 4096 2147483648 8 sevens)
copyinstr_lem_example =
    copyinstr_lem 2147483648 4096 8 sevens (omega arith) (omega arith) (omega arith)
      (inl (omega arith)) refl
