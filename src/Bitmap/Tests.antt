-- ===== src/Bitmap/Tests.antt =====
-- Runs of bitmap.c on a bitmap of ten bits, and its theorems there.
use cse_9201_os.Common.{
  ◌<◌, ◌≤◌, ◌≡◌, refl, ◌⊎◌, true, false, none, some, [], ◌∷◌, done, panic, arith,
}
use cse_9201_os.Bitmap.{
  Bitmap, bitmap_create, mark_leftover, bitmap_alloc, alloc_word, alloc_offset, bitmap_mark,
  bitmap_unmark,
}
use cse_9201_os.Bitmap.Bits.{bit_at}
use cse_9201_os.Bitmap.Laws.{Marks, bitmap_mark_lem}
use cse_9201_os.Bitmap.Alloc.{Allocates, bitmap_alloc_lem}
use cse_9201_os.Bitmap.Sample.{ten, ten-IsValid}
use cse_9201_os.Bitmap.Create.{Created, bitmap_create_lem}

create_ten : bitmap_create true true 10 ≡ done (some (record { nbits = 10; v = 0 ∷ 252 ∷ [] }))
unfolding bitmap_create mark_leftover
create_ten = refl

alloc_ten : bitmap_alloc ten ≡ done (0, some 2, record { nbits = 10; v = 7 ∷ 252 ∷ [] })
unfolding bitmap_alloc alloc_word alloc_offset
alloc_ten = refl

alloc_full :
    bitmap_alloc (record { nbits = 10; v = 255 ∷ 255 ∷ [] })
    ≡ done (20, none, record { nbits = 10; v = 255 ∷ 255 ∷ [] })
unfolding bitmap_alloc alloc_word
alloc_full = refl

unmark_ten : bitmap_unmark ten 1 ≡ done (record { nbits = 10; v = 1 ∷ 252 ∷ [] })
unfolding bitmap_unmark
unmark_ten = refl

bitmap_mark_lem_example :
    ((2 < ten.nbits)
      × (bit_at ten.v 2 ≡ false)
      × ((b' : Bitmap) × (bitmap_mark ten 2 ≡ done b') × Marks ten 2 b'))
    ⊎ (((ten.nbits ≤ 2) ⊎ (bit_at ten.v 2 ≡ true)) × (bitmap_mark ten 2 ≡ panic))
bitmap_mark_lem_example = bitmap_mark_lem ten ten-IsValid 2

bitmap_alloc_lem_example : Allocates ten (bitmap_alloc ten)
bitmap_alloc_lem_example = bitmap_alloc_lem ten ten-IsValid

bitmap_create_lem_example :
    (b : Bitmap) × (bitmap_create true true 10 ≡ done (some b)) × Created 10 b
bitmap_create_lem_example = bitmap_create_lem 10 (omega arith)
