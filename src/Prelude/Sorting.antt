-- ===== src/Prelude/Sorting.antt =====
-- `xs.sort(f)`: a stable sort, as insertion by a Boolean order.
use mathlib.Core.Path.{◌≡◌, refl}
use mathlib.Core.Bool.{Bool, ◌||◌}
use mathlib.Core.List.{List, [], ◌∷◌, map}
use knowbalance.Prelude.Sets.{includes}
use mathlib.Core.Logic.{inl, inr}
use native.Mathlib.Omega.{arith}
use knowbalance.Prelude.Tests.{Eq, ◌==◌, if◌then◌else◌, Bool-cases}
use knowbalance.Prelude.Lists.{All}

module _ {ℓ} {A : Type ℓ} (le : A → A → Bool) where
  pub insert_sorted : A → List A → List A
  insert_sorted a [] = a ∷ []
  insert_sorted a (x ∷ xs) = if le a x then a ∷ x ∷ xs else x ∷ insert_sorted a xs

  unfoldable pub sort : List A → List A
  unfolding insert_sorted
  sort [] = []
  sort (x ∷ xs) = insert_sorted x (sort xs)

  module _ ⦃e : Eq A⦄ where
    includes-insert_sorted :
        (a : A) (xs : List A) (b : A) → includes (insert_sorted a xs) b ≡ (a == b || includes xs b)
    unfolding insert_sorted
    includes-insert_sorted a [] b = refl
    includes-insert_sorted a (x ∷ xs) b = ground (arith, includes-insert_sorted a xs b)

    -- Sorting neither loses nor adds a value.
    pub includes-sort : (xs : List A) (b : A) → includes (sort xs) b ≡ includes xs b
    unfolding sort
    includes-sort [] b = refl
    includes-sort (x ∷ xs) b =
        ground (arith, includes-insert_sorted x (sort xs) b, includes-sort xs b)

  -- nor a value that is read of its members.
  module _ {κ} {B : Type κ} ⦃e : Eq B⦄ (f : A → B) where
    includes-map-insert_sorted :
        (a : A) (xs : List A) (b : B)
        → includes (map f (insert_sorted a xs)) b ≡ (f a == b || includes (map f xs) b)
    unfolding insert_sorted
    includes-map-insert_sorted a [] b = refl
    includes-map-insert_sorted a (x ∷ xs) b = ground (arith, includes-map-insert_sorted a xs b)

    pub includes-map-sort :
        (xs : List A) (b : B) → includes (map f (sort xs)) b ≡ includes (map f xs) b
    unfolding sort
    includes-map-sort [] b = refl
    includes-map-sort (x ∷ xs) b =
        ground (arith, includes-map-insert_sorted x (sort xs) b, includes-map-sort xs b)

  -- A predicate on all members survives sorting.
  module _ {κ} (P : A → Type κ) where
    All-insert_sorted : (a : A) (xs : List A) → P a → All P xs → All P (insert_sorted a xs)
    unfolding insert_sorted
    All-insert_sorted a [] p h = (p, tt)
    All-insert_sorted a (x ∷ xs) p (q, h) = elim (Bool-cases (le a x)) [
      | inl here ↦ rw here (p, (q, h))
      | inr later ↦ rw later (q, All-insert_sorted a xs p h)
    ]

    pub All-sort : (xs : List A) → All P xs → All P (sort xs)
    unfolding sort
    All-sort [] h = tt
    All-sort (x ∷ xs) (p, h) = All-insert_sorted x (sort xs) p (All-sort xs h)
