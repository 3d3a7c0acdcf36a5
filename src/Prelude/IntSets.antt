-- ===== src/Prelude/IntSets.antt =====
-- A Python set of integers, as a list without repetitions, and `heapq.nlargest` and `nsmallest` of
-- it.
use Prim.Native.Nat.{ℕ}
use mathlib.Core.Bool.{Bool, false, ◌||◌}
use mathlib.Core.List.{List, [], ◌∷◌}
use nasdaq_itch_parser_order.Prelude.Tests.{leb, ◌==◌, if◌then◌else◌}
use nasdaq_itch_parser_order.Prelude.Lists.{take}

-- `p in s`
unfoldable pub elem : ℕ → List ℕ → Bool
elem p [] = false
elem p (x ∷ xs) = p == x || elem p xs

-- `s.add(p)`
unfoldable pub set_add : ℕ → List ℕ → List ℕ
unfolding elem
set_add p s = if elem p s then s else p ∷ s

-- `s.remove(p)` of a member
unfoldable pub set_remove : ℕ → List ℕ → List ℕ
set_remove p [] = []
set_remove p (x ∷ xs) = let rest = set_remove p xs in if p == x then xs else x ∷ rest

-- into a list in the order of `before`
unfoldable pub insert_by : (ℕ → ℕ → Bool) → ℕ → List ℕ → List ℕ
insert_by before p [] = p ∷ []
insert_by before p (x ∷ xs) =
    let rest = insert_by before p xs in if before p x then p ∷ x ∷ xs else x ∷ rest

unfoldable pub sort_by : (ℕ → ℕ → Bool) → List ℕ → List ℕ
unfolding insert_by
sort_by before [] = []
sort_by before (x ∷ xs) = insert_by before x (sort_by before xs)

abbrev pub nlargest : ℕ → List ℕ → List ℕ
nlargest n s = take n (sort_by (λ a b. leb b a) s)

abbrev pub nsmallest : ℕ → List ℕ → List ℕ
nsmallest n s = take n (sort_by (λ a b. leb a b) s)
