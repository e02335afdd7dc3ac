-- ===== src/Prelude/Number.antt =====
-- JavaScript numbers: an interface with the operations and comparisons that the program makes.
use Prim.Native.Nat.{ℕ, ◌≤◌, ◌<◌, ◌*◌, ◌/◌, ◌+◌, ◌-◌}
use mathlib.Core.Path.{◌≡◌, refl}
use mathlib.Core.Bool.{Bool, true, false, not}
use native.Mathlib.Omega.{arith}
use knowbalance.Prelude.Tests.{ltb, leb, if◌then◌else◌}

-- `hundredths n` is the literal n / 100, such as 0.58, and `integer n` the literal n.
pub record Number : Type 1 where
  pub Num : Type 0
  pub hundredths : ℕ → Num
  pub integer : ℕ → Num
  pub lt : Num → Num → Bool
  pub le : Num → Num → Bool
  pub add : Num → Num → Num
  pub sub : Num → Num → Num
  pub mul : Num → Num → Num
  pub div : Num → Num → Num
  pub round : Num → Num
  pub is_finite : Num → Bool
  pub is_integer : Num → Bool

-- What IEEE 754 says of comparisons: on finite numbers they are a total order, and the literals
-- of at most two decimals up to 1 are finite and in the order of their digits.
pub record IsOrder (n : Number) : Type 0 where
  pub le-not_lt :
      (a b : n.Num) → n.is_finite a ≡ true → n.is_finite b ≡ true → n.le a b ≡ not (n.lt b a)
  pub lt-asymm : (a b : n.Num) → n.lt a b ≡ true → n.lt b a ≡ false
  pub lt-le_trans : (a b c : n.Num) → n.lt a b ≡ true → n.le b c ≡ true → n.lt a c ≡ true
  pub le-lt_trans : (a b c : n.Num) → n.le a b ≡ true → n.lt b c ≡ true → n.lt a c ≡ true
  pub hundredths_finite : (i : ℕ) → i ≤ 100 → n.is_finite (n.hundredths i) ≡ true
  pub hundredths_order : (i j : ℕ) → i < j → j ≤ 100 → n.lt (n.hundredths i) (n.hundredths j) ≡ true

-- A number system that meets the laws: naturals that count millionths.
abbrev pub millionths : Number
millionths = record {
  Num = ℕ;
  hundredths = λ i. i * 10000;
  integer = λ i. i * 1000000;
  lt = ltb;
  le = leb;
  add = λ a b. a + b;
  sub = λ a b. a - b;
  mul = λ a b. a * b / 1000000;
  div = λ a b. a * 1000000 / b;
  round = λ a. (a + 500000) / 1000000 * 1000000;
  is_finite = λ a. true;
  is_integer = λ a. leb (a / 1000000 * 1000000) a;
}

pub millionths-IsOrder : IsOrder millionths
millionths-IsOrder = record {
  le-not_lt = λ a b _ _. ground arith;
  lt-asymm = λ a b h. ground arith;
  lt-le_trans = λ a b c h k. ground arith;
  le-lt_trans = λ a b c h k. ground arith;
  hundredths_finite = λ i h. refl;
  hundredths_order = λ i j h k. ground arith;
}

-- `Math.min(1, Math.max(0, v))` and the `clamp` that maps what is not finite to 0.
module _ (N : Number) where
  open N use {Num, lt, hundredths, is_finite}

  abbrev pub num_max : Num → Num → Num
  num_max a b = if lt a b then b else a

  abbrev pub num_min : Num → Num → Num
  num_min a b = if lt b a then b else a

  unfoldable pub clamp_unit : Num → Num
  clamp_unit v =
      if is_finite v then num_min (hundredths 100) (num_max (hundredths 0) v) else hundredths 0

-- 0 ≤ v ≤ 1
abbrev pub IsUnit : (N : Number) → N.Num → Type 0
IsUnit N v = (N.le (N.hundredths 0) v ≡ true) × (N.le v (N.hundredths 100) ≡ true)

pub clamp_unit-IsUnit : (N : Number) → IsOrder N → (v : N.Num) → IsUnit N (clamp_unit N v)
unfolding clamp_unit
clamp_unit-IsUnit N o v =
    let zero_finite = o.hundredths_finite 0 (omega arith) in
    let one_finite = o.hundredths_finite 100 (omega arith) in
    ground (
      arith,
      zero_finite,
      one_finite,
      o.hundredths_order 0 100,
      o.lt-asymm (N.hundredths 0) (N.hundredths 100),
      o.lt-asymm (N.hundredths 0) (N.hundredths 0),
      o.lt-asymm (N.hundredths 100) (N.hundredths 100),
      o.lt-asymm (N.hundredths 0) v,
      o.lt-asymm v (N.hundredths 100),
      o.le-not_lt (N.hundredths 0) v,
      o.le-not_lt v (N.hundredths 100),
      o.le-not_lt (N.hundredths 0) (N.hundredths 0),
      o.le-not_lt (N.hundredths 100) (N.hundredths 100),
      o.le-not_lt (N.hundredths 0) (N.hundredths 100),
    )
