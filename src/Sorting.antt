-- ===== src/Sorting.antt =====
-- `sort.Slice`, `sort.SliceStable` and `sort.Ints` of the standard library, by a test `less`. Items that
-- `less` does not tell apart keep their order, as `sort.SliceStable` promises; `sort.Slice` is called
-- only where `less` tells all items apart.
pub mod Laws
use at_message_forward.Prelude.{Bool, List, [], ◌∷◌, if◌then◌else◌}

module _ {ℓ} {A : Type ℓ} (less : A → A → Bool) where
  unfoldable pub insert : A → List A → List A
  insert x [] = x ∷ []
  insert x (y ∷ ys) = let rest = insert x ys in if less y x then y ∷ rest else x ∷ y ∷ ys

  unfoldable pub sort : List A → List A
  sort [] = []
  sort (x ∷ xs) = insert x (sort xs)
