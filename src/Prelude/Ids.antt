-- ===== src/Prelude/Ids.antt =====
-- The keys of a Go map whose values stand in a store of their own.
use vlgr.Prelude.Tests.{◌==◌, if◌then◌else◌}
use Prim.Native.Nat.{ℕ}
use mathlib.Core.Path.{◌≡◌}
use mathlib.Core.Bool.{Bool, false, not, ◌&&◌, ◌||◌}
use mathlib.Core.List.{List, [], ◌∷◌}
use native.Mathlib.Omega.{arith}

unfoldable pub has_id : ℕ → List ℕ → Bool
has_id id [] = false
has_id id (j ∷ ids) = j == id || has_id id ids

unfoldable pub remove_id : ℕ → List ℕ → List ℕ
remove_id id [] = []
remove_id id (j ∷ ids) = let rest = remove_id id ids in if j == id then rest else j ∷ rest

pub has_id-remove_id :
    (i id : ℕ) (ids : List ℕ) → has_id i (remove_id id ids) ≡ (not (id == i) && has_id i ids)
unfolding has_id remove_id
has_id-remove_id i id [] = ground arith
has_id-remove_id i id (j ∷ ids) = ground (arith, has_id-remove_id i id ids)
