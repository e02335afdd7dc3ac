-- ===== src/Prelude/Sets.antt =====
-- `includes`, and `[...new Set(xs)]`: the distinct values in the order of their first occurrence.
use mathlib.Core.Path.{◌≡◌, refl}
use mathlib.Core.Bool.{Bool, true, false, not, ◌&&◌, ◌||◌}
use mathlib.Core.List.{List, [], ◌∷◌, ◌++◌, foldl}
use native.Mathlib.Omega.{arith}
use knowbalance.Prelude.Tests.{Eq, ◌==◌, if◌then◌else◌}
use knowbalance.Prelude.Lists.{all}

module _ {ℓ} {A : Type ℓ} ⦃e : Eq A⦄ where
  abbrev pub includes : List A → A → Bool
  includes [] a = false
  includes (x ∷ xs) a = x == a || includes xs a

  -- `set.add(a)`
  abbrev pub add_new : List A → A → List A
  add_new xs a = if includes xs a then xs else xs ++ a ∷ []

  abbrev pub unique : List A → List A
  unique xs = foldl add_new [] xs

  abbrev pub is_distinct : List A → Bool
  is_distinct [] = true
  is_distinct (x ∷ xs) = not (includes xs x) && is_distinct xs

  pub includes-append :
      (xs ys : List A) (a : A) → includes (xs ++ ys) a ≡ (includes xs a || includes ys a)
  includes-append [] ys a = refl
  includes-append (x ∷ xs) ys a = ground (arith, includes-append xs ys a)

  pub includes_self : (xs : List A) (a : A) → includes (a ∷ xs) a ≡ true
  includes_self xs a = ground (arith, e.beq_iff a a)

  pub includes-add_new :
      (xs : List A) (a b : A) → includes (add_new xs a) b ≡ (a == b || includes xs b)
  includes-add_new xs a b = ground (arith, includes-append xs (a ∷ []) b, e.beq_iff a b)

  pub includes-foldl :
      (seen xs : List A) (b : A)
      → includes (foldl add_new seen xs) b ≡ (includes seen b || includes xs b)
  includes-foldl seen [] b = ground arith
  includes-foldl seen (x ∷ xs) b =
      ground (arith, includes-foldl (add_new seen x) xs b, includes-add_new seen x b)

  -- A set built from a list has its values.
  pub includes-unique : (xs : List A) (b : A) → includes (unique xs) b ≡ includes xs b
  includes-unique xs b = includes-foldl [] xs b

  pub distinct-append :
      (xs : List A) (a : A)
      → is_distinct xs ≡ true
      → includes xs a ≡ false
      → is_distinct (xs ++ a ∷ []) ≡ true
  distinct-append [] a d n = refl
  distinct-append (x ∷ xs) a d n =
      ground
        (arith, distinct-append xs a, includes-append xs (a ∷ []) x, e.beq_iff x a, e.beq_iff a x)

  pub distinct-add_new :
      (xs : List A) (a : A) → is_distinct xs ≡ true → is_distinct (add_new xs a) ≡ true
  distinct-add_new xs a d = ground (arith, distinct-append xs a d)

  distinct-foldl :
      (seen xs : List A) → is_distinct seen ≡ true → is_distinct (foldl add_new seen xs) ≡ true
  distinct-foldl seen [] d = d
  distinct-foldl seen (x ∷ xs) d = distinct-foldl (add_new seen x) xs (distinct-add_new seen x d)

  -- and each of them once.
  pub unique_distinct : (xs : List A) → is_distinct (unique xs) ≡ true
  unique_distinct xs = distinct-foldl [] xs refl

  -- Adding what is there already changes nothing.
  pub foldl-add_new_seen :
      (seen xs : List A) → all (includes seen) xs ≡ true → foldl add_new seen xs ≡ seen
  foldl-add_new_seen seen [] h = refl
  foldl-add_new_seen seen (x ∷ xs) h =
      let here : includes seen x ≡ true = ground arith in
      let later : all (includes seen) xs ≡ true = ground arith in
      rw here (foldl-add_new_seen seen xs later)

  all-includes-foldl :
      (seen xs ys : List A)
      → all (includes seen) ys ≡ true
      → all (includes (foldl add_new seen xs)) ys ≡ true
  all-includes-foldl seen xs [] h = refl
  all-includes-foldl seen xs (y ∷ ys) h =
      ground (arith, all-includes-foldl seen xs ys, includes-foldl seen xs y)

  pub all-includes_added : (seen xs : List A) → all (includes (foldl add_new seen xs)) xs ≡ true
  all-includes_added seen [] = refl
  all-includes_added seen (x ∷ xs) = ground (
    arith,
    all-includes_added (add_new seen x) xs,
    includes-foldl (add_new seen x) xs x,
    includes-add_new seen x x,
    e.beq_iff x x,
  )

module _ {ℓ κ} {A : Type ℓ} {B : Type κ} where
  pub foldl-append :
      (f : B → A → B) (b : B) (xs ys : List A) → foldl f b (xs ++ ys) ≡ foldl f (foldl f b xs) ys
  foldl-append f b [] ys = refl
  foldl-append f b (x ∷ xs) ys = foldl-append f (f b x) xs ys
