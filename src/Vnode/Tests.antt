-- ===== src/Vnode/Tests.antt =====
-- Witness of the counts of a vnode.
use cse_9201_os.Common.{ℕ, ◌≡◌, refl, List, [], ◌∷◌, some, none, true, false, done}
use cse_9201_os.Common.Int.{pos}
use cse_9201_os.Vnode.{Vnode, vnode_init, vnode_kill, vnode_decref, check_counts}
use cse_9201_os.Vnode.Counts.{counts_lem, run, incref, decref, incopen, decopen, Event}

abbrev fresh : Vnode ℕ ℕ ℕ
fresh = record {
  vn_refcount = pos 7;
  vn_opencount = pos 7;
  vn_countlock = false;
  vn_fs = none;
  vn_data = none;
  vn_ops = none;
}

abbrev calls : List Event
calls = incref ∷ incopen ∷ incref ∷ decref ∷ decopen ∷ decref ∷ []

counts_lem_example :
    (v t u : Vnode ℕ ℕ ℕ) × (vnode_init fresh (some 1) (some 2) (some 3) true ≡ done (0, v))
    × (run calls v ≡ done t)
    × (vnode_decref t ≡ done (true, u))
    × (check_counts t false ≡ done tt)
    × (vnode_kill t
        ≡ done (record {
          vn_refcount = pos 0;
          vn_opencount = pos 0;
          vn_countlock = false;
          vn_fs = none;
          vn_data = none;
          vn_ops = none;
        }))
counts_lem_example = counts_lem fresh calls 1 (some 2) (some 3) refl
