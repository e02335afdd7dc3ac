-- ===== src/Content/Policy/Laws.antt =====
-- The bands of the policy, and that it does not oscillate.
use knowbalance.Prelude.{ℕ, ◌≡◌, ◌↔◌, ◌⊎◌, true, false, some, leb, arith, or_default, ◌≤◌, ◌<◌}
use knowbalance.Prelude.Number.{Number, IsOrder}
use knowbalance.Content.Policy.{
  remediate, advance, ActionInput, decide_next_action, is_advance, is_remediate,
}

-- The same question with the action just decided as the previous one.
abbrev pub repeated : {N : Number} → ActionInput N → ActionInput N
repeated {N} input = record {
  mastery = input.mastery;
  sufficient_modalities = input.sufficient_modalities;
  profile_conflict_count = input.profile_conflict_count;
  previous_action = some (decide_next_action N input).action;
}

module _ (N : Number) (o : IsOrder N) where
  -- What two thresholds say of a mastery.
  lt_raise :
      (i j : ℕ) (m : N.Num)
      → N.is_finite m ≡ true
      → i < j
      → j ≤ 100
      → N.lt m (N.hundredths i) ≡ true
      → N.lt m (N.hundredths j) ≡ true
  lt_raise i j m finite h k below =
      let I = N.hundredths i in
      let J = N.hundredths j in
      o.lt-le_trans m I J below (
        ground (
          arith,
          o.hundredths_order i j h k,
          o.lt-asymm I J,
          o.le-not_lt I J,
          o.hundredths_finite i (omega (arith, h, k)),
          o.hundredths_finite j k,
        ))

  -- For a finite mastery, a decision that is taken again, on the same estimate and with the action
  -- just decided as the previous one, decides the same action.
  pub decide_next_action-stable :
      (input : ActionInput N)
      → N.is_finite input.mastery ≡ true
      → (decide_next_action N (repeated input)).action ≡ (decide_next_action N input).action
  unfolding decide_next_action
  decide_next_action-stable input finite =
      let m = input.mastery in
      ground (
        arith,
        lt_raise 58 66 m finite (omega arith) (omega arith),
        lt_raise 74 82 m finite (omega arith) (omega arith),
        o.le-not_lt (N.hundredths 74) m,
        o.hundredths_finite 74 (omega arith),
      )

  -- For a finite mastery and fewer than two profile conflicts, the action is `advance` exactly with
  -- sufficient modalities and a mastery not below 0.82, or not below 0.74 after an `advance`; it is
  -- `remediate` exactly for a mastery below 0.58, or below 0.66 after a `remediate`.
  pub decide_next_action-bands :
      (input : ActionInput N)
      → N.is_finite input.mastery ≡ true
      → leb 2 (or_default input.profile_conflict_count 0) ≡ false
      → let action = (decide_next_action N input).action in
        ((action ≡ advance) ↔ (
          (input.sufficient_modalities ≡ true)
          × ((N.lt input.mastery (N.hundredths 82) ≡ false)
              ⊎ ((is_advance input.previous_action ≡ true)
                  × (N.lt input.mastery (N.hundredths 74) ≡ false)))))
        × ((action ≡ remediate) ↔ (
            (N.lt input.mastery (N.hundredths 58) ≡ true)
            ⊎ ((is_remediate input.previous_action ≡ true)
                × (N.lt input.mastery (N.hundredths 66) ≡ true))))
  unfolding decide_next_action
  decide_next_action-bands input finite few =
      let m = input.mastery in
      let low = lt_raise 58 66 m finite (omega arith) (omega arith) in
      let high = lt_raise 74 82 m finite (omega arith) (omega arith) in
      let mid = lt_raise 66 82 m finite (omega arith) (omega arith) in
      let band = lt_raise 66 74 m finite (omega arith) (omega arith) in
      let le74 = o.le-not_lt (N.hundredths 74) m (o.hundredths_finite 74 (omega arith)) finite in
      ground (arith, low, high, mid, band, le74)
