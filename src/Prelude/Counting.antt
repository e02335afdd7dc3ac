-- ===== src/Prelude/Counting.antt =====
-- Distinct values counted: a list of distinct values of another list, as long as that one, has them all.
use Prim.Native.Nat.{◌≤◌, ◌<◌}
use mathlib.Core.Path.{◌≡◌}
use mathlib.Core.Bool.{true, false, not, Bool}
use mathlib.Core.List.{List, [], ◌∷◌}
use mathlib.Core.Logic.{inl, inr}
use native.Mathlib.Omega.{arith}
use knowbalance.Prelude.Tests.{Eq, ◌==◌, Bool-cases}
use knowbalance.Prelude.Lists.{length, filter}
use knowbalance.Prelude.Sets.{includes, is_distinct}

-- A list of distinct values that all stand in another list is no longer than that list, and where it
-- is as long it has all the values of the other list.
module _ {ℓ} {A : Type ℓ} ⦃e : Eq A⦄ where
  length-filter : (p : A → Bool) (ys : List A) → length (filter p ys) ≤ length ys
  length-filter p [] = omega arith
  length-filter p (y ∷ ys) = ground (arith, length-filter p ys)

  length-without :
      (x : A) (ys : List A)
      → includes ys x ≡ true
      → length (filter (λ y. not (y == x)) ys) < length ys
  length-without x [] h = ground arith
  length-without x (y ∷ ys) h =
      ground (arith, length-without x ys, length-filter (λ y. not (y == x)) ys)

  includes-without :
      (x z : A) (ys : List A)
      → includes ys z ≡ true
      → (x == z) ≡ false
      → includes (filter (λ y. not (y == x)) ys) z ≡ true
  includes-without x z [] h n = ground arith
  includes-without x z (y ∷ ys) h n =
      ground (arith, includes-without x z ys, e.beq_iff y z, e.beq_iff y x, e.beq_iff x z)

  length_subset :
      (xs ys : List A)
      → is_distinct xs ≡ true
      → ((z : A) → includes xs z ≡ true → includes ys z ≡ true)
      → length xs ≤ length ys
  length_subset [] ys d h = omega arith
  length_subset (x ∷ xs) ys d h =
      let shorter = length-without x ys (h x (ground (arith, e.beq_iff x x))) in
      let rest =
        length_subset xs (filter (λ y. not (y == x)) ys) (ground arith)
          (λ z k. includes-without x z ys (h z (ground arith)) (ground (arith, e.beq_iff x z))) in
      omega (arith, shorter, rest)

  pub includes_all :
      (xs ys : List A)
      → is_distinct xs ≡ true
      → ((z : A) → includes xs z ≡ true → includes ys z ≡ true)
      → length xs ≡ length ys
      → (z : A) → includes ys z ≡ true
      → includes xs z ≡ true
  includes_all xs ys d h same z k = elim (Bool-cases (includes xs z)) [
    | inl own ↦ own
    | inr other ↦
        let longer : length (z ∷ xs) ≤ length ys =
          length_subset (z ∷ xs) ys (ground arith) (λ w m. ground (arith, h w, e.beq_iff z w)) in
        absurd (omega (arith, longer, same))
  ]
