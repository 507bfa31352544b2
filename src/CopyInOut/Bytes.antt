-- ===== src/CopyInOut/Bytes.antt =====
-- What `copyin` and `copyout` leave in the memory.
use cse_9201_os.Common.{
  ℕ, suc, zero, ◌+◌, ◌-◌, ◌≤◌, ◌<◌, ◌≡◌, ◌≢◌, ◌⊎◌, inl, inr, refl, sym, ◌∙◌, Bool, true, false,
  eq→==, ne→==_false, Bool-cases, arith, ℕ_discrete,
}
use cse_9201_os.CopyInOut.{Memory, write_byte, both_mapped, copy_bytes}

bytes-stop :
    (n dest src : ℕ) (m : Memory)
    → both_mapped m dest src ≡ false
    → copy_bytes (suc n) dest src m ≡ (true, m)
unfolding copy_bytes
bytes-stop n dest src m e = rw e

bytes-go :
    (n dest src : ℕ) (m : Memory)
    → both_mapped m dest src ≡ true
    → copy_bytes (suc n) dest src m
      ≡ copy_bytes n (dest + 1) (src + 1) (write_byte m dest (m.byte src))
unfolding copy_bytes
bytes-go n dest src m e = rw e

-- The two regions do not overlap.
abbrev pub Apart : ℕ → ℕ → ℕ → Type 0
Apart n dest src = (src + n ≤ dest) ⊎ (dest + n ≤ src)

-- What a copy of `n` bytes leaves: nothing outside the destination changes, and it went through, with
-- all bytes in place where the regions do not overlap, or met an unmapped address.
pub record Copies (n dest src : ℕ) (m : Memory) (fault : Bool) (m' : Memory) : Type 0 where
  pub outside : (a : ℕ) → (a < dest) ⊎ (dest + n ≤ a) → m'.byte a ≡ m.byte a
  pub same_map : m'.mapped ≡ m.mapped
  pub same_func : m'.pcb_badfaultfunc ≡ m.pcb_badfaultfunc
  pub ends :
      ((fault ≡ false)
        × ((i : ℕ) → i < n → Apart n dest src → m'.byte (dest + i) ≡ m.byte (src + i)))
      ⊎ ((fault ≡ true) × ((i : ℕ) × (i < n) × (both_mapped m (dest + i) (src + i) ≡ false)))

written-other :
    (m : Memory) (address value a : ℕ)
    → a ≢ address
    → (write_byte m address value).byte a ≡ m.byte a
written-other m address value a ne = rw (ne→==_false a address ne)

written-here : (m : Memory) (address value : ℕ) → (write_byte m address value).byte address ≡ value
written-here m address value = rw (eq→== address address refl)

pub copy_bytes-Copies :
    (n dest src : ℕ) (m : Memory)
    → Copies n dest src m (copy_bytes n dest src m).0 (copy_bytes n dest src m).1
unfolding copy_bytes
copy_bytes-Copies zero dest src m = record {
  outside = λ a h. refl;
  same_map = refl;
  same_func = refl;
  ends = inl (refl, λ i h d. absurd (omega arith));
}
copy_bytes-Copies (suc n) dest src m = elim (Bool-cases (both_mapped m dest src)) [
  | inr unmapped ↦ rw unmapped (record {
    outside = λ a h. refl;
    same_map = refl;
    same_func = refl;
    ends = inr (refl, (0, omega arith, at_zero unmapped));
  })
  | inl mapped ↦
      let m1 = write_byte m dest (m.byte src) in
      let rest = copy_bytes-Copies n (dest + 1) (src + 1) m1 in
      rw mapped (record {
        outside = λ a h.
            rest.outside a (below_or_above a h)
            ∙ written-other m dest (m.byte src) a (elsewhere a h);
        same_map = rest.same_map;
        same_func = rest.same_func;
        ends = elim rest.ends [
          | inl (ok, placed) ↦ inl (
            ok,
            λ i h d. elim (ℕ_discrete i 0) [
              | yes first ↦
                  let e : dest + i ≡ dest = omega arith in
                  let e' : src + i ≡ src = omega arith in
                  rw (e, e')
                    (rest.outside dest (inl (omega arith)) ∙ written-here m dest (m.byte src))
              | no later ↦
                  let e : dest + 1 + (i - 1) ≡ dest + i = omega arith in
                  let e' : src + 1 + (i - 1) ≡ src + i = omega arith in
                  rw (sym e, sym e')
                    (placed (i - 1) (omega arith) (apart_after d)
                      ∙ written-other m dest (m.byte src) (src + 1 + (i - 1))
                          (source_ne i h later d))
            ],
          )
          | inr (stopped, (i, h, unmapped)) ↦
              let e : dest + 1 + i ≡ dest + (i + 1) = omega arith in
              let e' : src + 1 + i ≡ src + (i + 1) = omega arith in
              inr (stopped, (i + 1, omega arith, rw (e, e') at unmapped))
        ];
      })
]
  where
    at_zero : both_mapped m dest src ≡ false → both_mapped m (dest + 0) (src + 0) ≡ false
    at_zero h =
        let e : dest + 0 ≡ dest = omega arith in
        let e' : src + 0 ≡ src = omega arith in rw (e, e') h

    below_or_above : (a : ℕ) → (a < dest) ⊎ (dest + suc n ≤ a) → (a < dest + 1) ⊎ (dest + 1 + n ≤ a)
    below_or_above a (inl h) = inl (omega arith)
    below_or_above a (inr h) = inr (omega arith)

    apart_after : Apart (suc n) dest src → Apart n (dest + 1) (src + 1)
    apart_after (inl h) = inl (omega arith)
    apart_after (inr h) = inr (omega arith)

    source_ne : (i : ℕ) → i < suc n → i ≢ 0 → Apart (suc n) dest src → src + 1 + (i - 1) ≢ dest
    source_ne i k l (inl h) = omega arith
    source_ne i k l (inr h) = omega arith

    elsewhere : (a : ℕ) → (a < dest) ⊎ (dest + suc n ≤ a) → a ≢ dest
    elsewhere a (inl h) = omega arith
    elsewhere a (inr h) = omega arith
