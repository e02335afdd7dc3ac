-- ===== src/Prelude/Tests.antt =====
-- Boolean tests, the conditional, and the interface of equality that `===` is an instance of.
use Prim.Native.Nat.{ℕ, compare, Ordering}
use Prim.Native.String.{String}
use mathlib.Core.Path.{◌≡◌, refl, ap, sym, ◌∙◌}
use mathlib.Core.Logic.{◌↔◌, ◌⊎◌, inl, inr}
use mathlib.Core.Bool.{Bool, true, false, not}
use mathlib.Core.Option.{Option, none, some}
use native.Mathlib.Omega.{arith}
use text.Mathlib.Text.{◌==◌ as str_eq}
use text.Mathlib.TextEquality.{eq_iff}

abbrev pub ltb : ℕ → ℕ → Bool
ltb a b = elim (compare a b) [ Ordering.lt ↦ true | _ ↦ false ]

abbrev pub leb : ℕ → ℕ → Bool
leb a b = elim (compare a b) [ Ordering.gt ↦ false | _ ↦ true ]

abbrev pub nat_eq : ℕ → ℕ → Bool
nat_eq a b = elim (compare a b) [ Ordering.eq ↦ true | _ ↦ false ]

infix 1 if◌then◌else◌
abbrev pub if◌then◌else◌ {ℓ} : {A : Type ℓ} → Bool → A → A → A
if true then x else y = x
if false then x else y = y

pub Bool-cases : (b : Bool) → (b ≡ true) ⊎ (b ≡ false)
Bool-cases true = inl refl
Bool-cases false = inr refl

pub Option-cases {ℓ} : {A : Type ℓ} (o : Option A) → (o ≡ none) ⊎ ((a : A) × (o ≡ some a))
Option-cases none = inl refl
Option-cases (some a) = inr (a, refl)

pub true_of_not-false : {b : Bool} → ¬ (b ≡ false) → b ≡ true
true_of_not-false {b = true} h = refl
true_of_not-false {b = false} h = absurd (h refl)

abbrev pub is_some {ℓ} : {A : Type ℓ} → Option A → Bool
is_some none = false
is_some (some _) = true

-- `x ?? d`
abbrev pub or_default {ℓ} : {A : Type ℓ} → Option A → A → A
or_default none d = d
or_default (some a) d = a

abbrev pub or_else {ℓ} : {A : Type ℓ} → Option A → Option A → Option A
or_else (some a) b = some a
or_else none b = b

-- `===` on a type of values.
infix 50 ◌==◌ ◌!=◌
pub record Eq {ℓ} (A : Type ℓ) : Type ℓ where
  pub beq : A → A → Bool
  pub beq_iff : (x y : A) → (beq x y ≡ true) ↔ (x ≡ y)

abbrev pub ◌!=◌ {ℓ} : {A : Type ℓ} ⦃same : Eq A⦄ → A → A → Bool
◌!=◌ ⦃same⦄ x y = not (same.beq x y)

abbrev pub ◌==◌ {ℓ} : {A : Type ℓ} ⦃same : Eq A⦄ → A → A → Bool
◌==◌ ⦃same⦄ = same.beq

pub nat_eq_iff : (a b : ℕ) → (nat_eq a b ≡ true) ↔ (a ≡ b)
nat_eq_iff a b = ground arith

instance abbrev pub nat_Eq : Eq ℕ
nat_Eq = record { beq = nat_eq; beq_iff = nat_eq_iff }

instance abbrev pub string_Eq : Eq String
string_Eq = record { beq = str_eq; beq_iff = eq_iff }

-- Values that a number tells apart are compared by it.
module _ {A : Type 0} (index : A → ℕ) (value : ℕ → A) (back : (a : A) → value (index a) ≡ a) where
  pub index_iff : (a b : A) → (nat_eq (index a) (index b) ≡ true) ↔ (a ≡ b)
  index_iff a b = (
    λ h. sym (back a) ∙ ap value ((nat_eq_iff (index a) (index b)).0 h) ∙ back b,
    λ e. (nat_eq_iff (index a) (index b)).1 (ap index e),
  )

  abbrev pub index_Eq : Eq A
  index_Eq = record { beq = λ a b. nat_eq (index a) (index b); beq_iff = index_iff }

module _ {ℓ} {A : Type ℓ} ⦃e : Eq A⦄ where
  pub beq_refl : (a : A) → e.beq a a ≡ true
  beq_refl a = (e.beq_iff a a).1 refl

  pub eq_of_beq : (a b : A) → e.beq a b ≡ true → a ≡ b
  eq_of_beq a b = (e.beq_iff a b).0

  -- `a !== b` fails exactly on equal values.
  pub ne-false_iff : (a b : A) → (not (e.beq a b) ≡ false) ↔ (a ≡ b)
  ne-false_iff a b = ground (arith, e.beq_iff a b)
