-- ===== src/Content/Mastery/Drift/Laws.antt =====
-- When the drift of a profile is suggested, and for which objectives.
use knowbalance.Prelude.{
  ◌≡◌, ◌≤◌, refl, String, true, ◌&&◌, some, List, [], ◌∷◌, map, filter, any, length, arith,
  string_Eq, ◌==◌, includes, unique, is_distinct, includes-unique, unique_distinct, or_default,
}
use knowbalance.Prelude.Number.{Number}
use knowbalance.Content.Mastery.Drift.{
  ProfileExpectationObservation, ProfileDriftSuggestion, DriftInput, is_conflict,
  detect_profile_drift,
}

module _ (N : Number) where
  includes-conflicts :
      (observations : List (ProfileExpectationObservation N)) (id : String)
      → includes (map (λ o. o.objective_id) (filter (is_conflict N) observations)) id
        ≡ any (λ o. o.objective_id == id && is_conflict N o) observations
  includes-conflicts [] id = refl
  includes-conflicts (o ∷ observations) id = ground (arith, includes-conflicts observations id)

  -- A suggestion names, each once, exactly the objectives that an observation contradicts, and these
  -- are at least as many as the minimum (2 where none is given).
  pub detect_profile_drift-conflicts :
      (stable_id : (prefix learner profile : String) (objectives : List String) → String)
      (input : DriftInput N) {suggestion : ProfileDriftSuggestion N}
      → detect_profile_drift N stable_id input ≡ some suggestion
      → ((id : String)
          → includes suggestion.conflicting_objective_ids id
            ≡ any (λ o. o.objective_id == id && is_conflict N o) input.observations)
        × (is_distinct suggestion.conflicting_objective_ids ≡ true)
        × (or_default input.minimum_conflicts 2 ≤ length suggestion.conflicting_objective_ids)
  unfolding detect_profile_drift
  detect_profile_drift-conflicts stable_id input {suggestion = suggestion} h =
      let objectives = map (λ o. o.objective_id) (filter (is_conflict N) input.observations) in
      let ids : suggestion.conflicting_objective_ids ≡ unique objectives = ground (arith, h) in
      let many : or_default input.minimum_conflicts 2 ≤ length (unique objectives) =
        ground (arith, h) in
      (
        λ id. rw (ids, includes-unique objectives id) (includes-conflicts input.observations id),
        rw ids (unique_distinct objectives),
        rw ids many,
      )
