-- ===== src/Prelude/Sets.antt =====
-- `std::collections::HashSet` as a list, over a type whose equality is decided.
use mathlib.Core.Path.{◌≡◌}
use mathlib.Core.Logic.{ite}
use mathlib.Core.Bool.{Bool, true, false}
use mathlib.Core.List.{List, [], ◌∷◌}
use native.Mathlib.Omega.{arith}
use bdk_floresta.Prelude.Tests.{if◌then◌else◌}

module _ {A : Type 0} (dec : Discrete A) where
  unfoldable pub contains : A → List A → Bool
  contains a [] = false
  contains a (x ∷ xs) = ite (dec a x) true (contains a xs)

  unfoldable pub insert : A → List A → List A
  unfolding contains
  insert a xs = if contains a xs then xs else a ∷ xs

  unfoldable pub remove : A → List A → List A
  remove a [] = []
  remove a (x ∷ xs) = let rest = remove a xs in ite (dec a x) rest (x ∷ rest)

  pub contains-insert :
      (b a : A) (xs : List A) → contains b (insert a xs) ≡ ite (dec b a) true (contains b xs)
  unfolding insert
  contains-insert b a xs = ground arith

  pub contains-remove :
      (b a : A) (xs : List A) → contains b (remove a xs) ≡ ite (dec b a) false (contains b xs)
  unfolding remove contains
  contains-remove b a [] = ground arith
  contains-remove b a (x ∷ xs) = ground (arith, contains-remove b a xs)

  -- What a set holds after an element was put in and taken out again.
  pub contains-remove-insert :
      (b a : A) (xs : List A)
      → contains b (remove a (insert a xs)) ≡ ite (dec b a) false (contains b xs)
  contains-remove-insert b a xs =
      ground (arith, contains-remove b a (insert a xs), contains-insert b a xs)
