-- ===== src/Array/Contents.antt =====
-- What the operations do to the elements of an array, as a list.
use cse_9201_os.Common.{
  ℕ, zero, suc, ◌+◌, ◌-◌, ◌≤◌, ◌<◌, ◌≡◌, refl, ap, ◌∙◌, List, [], ◌∷◌, ◌++◌, Option, some,
  get_elem?, set, length, length-append, length-take, length-drop, length-set, take, drop, arith,
  lt→ltb, le→leb, le→ltb_false, ne→==_false, get_elem?-set_self, done,
}
use cse_9201_os.Common.Int.{pos}
use cse_9201_os.Array.{Array, array_getguy, array_setguy, array_remove, array_setsize, array_add}

module _ {ℓ} {A : Type ℓ} where
  abbrev pub IsValid : Array A → List A → Type ℓ
  IsValid a block = (a.v ≡ some block) × (a.num ≤ a.max) × (a.max ≤ length block)

  -- the list without the element at an index
  abbrev pub delete : List A → ℕ → List A
  delete [] i = []
  delete (x ∷ xs) zero = xs
  delete (x ∷ xs) (suc i) = x ∷ delete xs i

  take-append : (m : ℕ) (xs ys : List A) → m ≤ length xs → take m (take m xs ++ ys) ≡ take m xs
  take-append zero xs ys h = refl
  take-append (suc m) [] ys h = absurd (omega arith)
  take-append (suc m) (x ∷ xs) ys h = ap (λ l. x ∷ l) (take-append m xs ys (omega arith))

  take-moved :
      (v : List A) (i m d : ℕ)
      → d + i ≡ m
      → m < length v
      → take m (take i v ++ (take d (drop (suc i) v) ++ drop m v)) ≡ delete (take (suc m) v) i
  take-moved [] i m d h k = absurd (omega arith)
  take-moved (x ∷ xs) zero m d h k =
      let e : d ≡ m = omega arith in rw e (take-append m xs (drop m (x ∷ xs)) (omega arith))
  take-moved (x ∷ xs) (suc i) zero d h k = absurd (omega arith)
  take-moved (x ∷ xs) (suc i) (suc m) d h k =
      ap (λ l. x ∷ l) (take-moved xs i m d (omega arith) (omega arith))

  length-moved :
      (v : List A) (i m d : ℕ)
      → d + i ≡ m
      → m < length v
      → length (take i v ++ (take d (drop (suc i) v) ++ drop m v)) ≡ length v
  length-moved v i m d h k = omega (
    arith,
    length-append (take i v) (take d (drop (suc i) v) ++ drop m v),
    length-append (take d (drop (suc i) v)) (drop m v),
    length-take i v,
    length-take d (drop (suc i) v),
    length-drop (suc i) v,
    length-drop m v,
  )

  get_elem?-take : (v : List A) (i m : ℕ) → i < m → get_elem? (take m v) i ≡ get_elem? v i
  get_elem?-take v i zero h = absurd (omega arith)
  get_elem?-take [] i (suc m) h = refl
  get_elem?-take (x ∷ xs) zero (suc m) h = refl
  get_elem?-take (x ∷ xs) (suc i) (suc m) h = get_elem?-take xs i m (omega arith)

  take-set : (v : List A) (i m : ℕ) (x : A) → take m (set v i x) ≡ set (take m v) i x
  take-set [] i zero x = refl
  take-set [] i (suc m) x = refl
  take-set (y ∷ v) i zero x = refl
  take-set (y ∷ v) zero (suc m) x = refl
  take-set (y ∷ v) (suc i) (suc m) x = ap (λ l. y ∷ l) (take-set v i m x)

  take-set_end :
      (v : List A) (m : ℕ) (x : A) → m < length v → take (suc m) (set v m x) ≡ take m v ++ (x ∷ [])
  take-set_end [] m x h = absurd (omega arith)
  take-set_end (y ∷ v) zero x h = refl
  take-set_end (y ∷ v) (suc m) x h = ap (λ l. y ∷ l) (take-set_end v m x (omega arith))

module _ {ℓ} {A : Type ℓ} (a : Array A) (block : List A) (good : IsValid a block) (i : ℕ) where
  -- In range `array_remove` returns: the elements are those of before without the one at the index,
  -- in the same order, and the array stays well formed.
  pub array_remove_lem :
      i < a.num
      → (a' : Array A) × (block' : List A) × (array_remove a (pos i) ≡ done a')
        × IsValid a' block'
        × (take a'.num block' ≡ delete (take a.num block) i)
  unfolding array_remove
  array_remove_lem h =
      let m : ℕ = a.num - 1 in
      let d : ℕ = a.num - suc i in
      let top : suc m ≡ a.num = omega arith in
      let next : i + 1 ≡ suc i = omega arith in
      let last : i + d ≡ m = omega arith in
      let block' : List A = take i block ++ (take d (drop (suc i) block) ++ drop m block) in
      (
        record { num = m; max = a.max; v = some block' },
        block',
        rw (
          good.0,
          le→leb a.num a.max (omega arith),
          lt→ltb i a.num h,
          le→leb (i + 1 + (a.num - (i + 1))) (length block) (omega arith),
          next,
          last,
        ),
        (refl, omega arith, omega (arith, length-moved block i m d (omega arith) (omega arith))),
        take-moved block i m d (omega arith) (omega arith) ∙ ap (λ n. delete (take n block) i) top,
      )

  -- In range `array_setguy` replaces the element at the index and no other, and `array_getguy` then
  -- gives it back.
  pub array_setguy_lem :
      (x : A)
      → i < a.num
      → (a' : Array A) × (array_setguy a (pos i) x ≡ done a')
        × IsValid a' (set block i x)
        × (take a'.num (set block i x) ≡ set (take a.num block) i x)
        × (array_getguy a' (pos i) ≡ done x)
  unfolding array_setguy array_getguy
  array_setguy_lem x h = (
    record a { v = some (set block i x) },
    rw (
      good.0,
      le→leb a.num a.max (omega arith),
      lt→ltb i a.num h,
      lt→ltb i (length block) (omega arith),
    ),
    (refl, omega arith, omega (arith, length-set block i x)),
    take-set block i a.num x,
    rw (
      le→leb a.num a.max (omega arith),
      lt→ltb i a.num h,
      get_elem?-set_self block i x (omega arith),
    ),
  )

module _ {ℓ} {A : Type ℓ} (kmalloc : ℕ → Option (List A)) where
  -- With room left `array_add` needs no memory: it puts the element behind the others.
  pub array_add-room :
      (a : Array A) (block : List A) (x : A)
      → IsValid a block
      → a.num < a.max
      → (a' : Array A) × (array_add kmalloc a x ≡ done (0, a'))
        × IsValid a' (set block a.num x)
        × (take a'.num (set block a.num x) ≡ take a.num block ++ (x ∷ []))
  unfolding array_add array_setsize
  array_add-room a block x good h =
      let next : a.num + 1 ≡ suc a.num = omega arith in
      (
        record a { num = suc a.num; v = some (set block a.num x) },
        rw (
          good.0,
          le→leb a.num a.max (omega arith),
          le→ltb_false a.max (a.num + 1) (omega arith),
          ne→==_false (a.num + 1) 0 (omega arith),
          lt→ltb a.num (length block) (omega arith),
          next,
        ),
        (refl, omega arith, omega (arith, length-set block a.num x)),
        take-set_end block a.num x (omega arith),
      )
