-- ===== src/Teaching/Progress/Laws.antt =====
-- What a learner's progress does to the profile.
use knowbalance.Prelude.{
  ◌+◌, ◌≡◌, refl, String, Bool, true, false, not, ◌&&◌, ◌||◌, none, List, [], ◌∷◌, ◌++◌, filter,
  any, arith, map, includes, string_Eq, ◌==◌, sym, ◌⊎◌,
}
use knowbalance.Prelude.Number.{Number}
use knowbalance.Teaching.Progress.{
  Level, level_index, LearnerProfile, ConceptEvidence, ProgressObservation, ConceptLists,
  ReceiveProgressResult, apply_evidence, apply_all, new_level, mastery_threshold, weak_threshold,
  concept_test, start_lists, progress_result, apply_progress_observation, received,
  is_action_advance, is_action_remediate,
}

any-append {ℓ} :
    {A : Type ℓ} (p : A → Bool) (xs ys : List A) → any p (xs ++ ys) ≡ (any p xs || any p ys)
any-append p [] ys = refl
any-append p (x ∷ xs) ys = ground (arith, any-append p xs ys)

any-filter-not {ℓ} :
    {A : Type ℓ} (p : A → Bool) (xs : List A) → any p (filter (λ x. not (p x)) xs) ≡ false
any-filter-not p [] = refl
any-filter-not p (x ∷ xs) = ground (arith, any-filter-not p xs)

module _ (N : Number) (matches : ConceptEvidence N → String → Bool) where
  -- After evidence whose score is not below the mastery threshold, and that matches its own concept,
  -- a known concept matches the evidence and no weak concept does.
  pub apply_evidence-mastered :
      (lists : ConceptLists) (evidence : ConceptEvidence N)
      → matches evidence evidence.concept ≡ true
      → N.le (mastery_threshold N) evidence.evidence_score ≡ true
      → let after = apply_evidence N matches lists evidence in
        (any (matches evidence) after.known_concepts ≡ true)
        × (any (matches evidence) after.weak_concepts ≡ false)
  unfolding apply_evidence
  apply_evidence-mastered lists evidence itself high =
      let known = lists.known_concepts in
      ground (
        arith,
        high,
        any-append (matches evidence) known (evidence.concept ∷ []),
        any-append (matches evidence) known [],
        any-filter-not (matches evidence) lists.weak_concepts,
      )

  -- After evidence whose score is not above the weak threshold, below the mastery threshold, of at
  -- least one batch, and that matches its own concept, a weak concept matches the evidence and no
  -- known concept does.
  pub apply_evidence-weak :
      (lists : ConceptLists) (evidence : ConceptEvidence N)
      → matches evidence evidence.concept ≡ true
      → N.le (mastery_threshold N) evidence.evidence_score ≡ false
      → N.le evidence.evidence_score (weak_threshold N) ≡ true
      → N.le (N.integer 1) evidence.evidence_batches ≡ true
      → let after = apply_evidence N matches lists evidence in
        (any (matches evidence) after.weak_concepts ≡ true)
        × (any (matches evidence) after.known_concepts ≡ false)
  unfolding apply_evidence
  apply_evidence-weak lists evidence itself low weak batches = ground (
    arith,
    low,
    weak,
    batches,
    any-append (matches evidence) lists.weak_concepts (evidence.concept ∷ []),
    any-append (matches evidence) lists.weak_concepts [],
    any-filter-not (matches evidence) lists.known_concepts,
  )

-- The level moves by at most one place: up only on `advance`, down only on `remediate`.
pub new_level-steps :
    (N : Number) (observation : ProgressObservation N) (old : Level)
    → let new = new_level N observation old in
      (new ≡ old)
      ⊎ ((is_action_advance observation.action ≡ true) × (level_index new ≡ level_index old + 1))
      ⊎ ((is_action_remediate observation.action ≡ true) × (level_index old ≡ level_index new + 1))
unfolding new_level
new_level-steps N observation old = ground arith

module _ (N : Number) (normalize : String → String) where
  -- No known concept is a weak one, up to `trim` and `toLowerCase`.
  abbrev pub IsConsistent : List String → List String → Type 0
  IsConsistent known weak =
      (c : String) → (includes (map normalize known) c && includes (map normalize weak) c) ≡ false

  includes-map_append :
      (xs ys : List String) (c : String)
      → includes (map normalize (xs ++ ys)) c
        ≡ (includes (map normalize xs) c || includes (map normalize ys) c)
  includes-map_append [] ys c = refl
  includes-map_append (x ∷ xs) ys c = ground (arith, includes-map_append xs ys c)

  includes-map-filter-not :
      (t : String) (xs : List String) (c : String)
      → includes (map normalize (filter (λ x. not (normalize x == t)) xs)) c
        ≡ (includes (map normalize xs) c && not (t == c))
  includes-map-filter-not t [] c = refl
  includes-map-filter-not t (x ∷ xs) c = ground (
    arith,
    includes-map-filter-not t xs c,
    string_Eq.beq_iff (normalize x) t,
    string_Eq.beq_iff (normalize x) c,
    string_Eq.beq_iff t c,
  )

  apply_evidence-IsConsistent :
      (lists : ConceptLists) (evidence : ConceptEvidence N)
      → IsConsistent lists.known_concepts lists.weak_concepts
      → let after = apply_evidence N (concept_test N normalize none) lists evidence in
        IsConsistent after.known_concepts after.weak_concepts
  unfolding apply_evidence concept_test
  apply_evidence-IsConsistent lists evidence h c =
      let t = normalize evidence.concept in
      let known = lists.known_concepts in
      let weak = lists.weak_concepts in
      ground (
        arith,
        h c,
        includes-map_append known (evidence.concept ∷ []) c,
        includes-map_append known [] c,
        includes-map_append weak (evidence.concept ∷ []) c,
        includes-map_append weak [] c,
        includes-map-filter-not t known c,
        includes-map-filter-not t weak c,
      )

  apply_all-IsConsistent :
      (lists : ConceptLists) (evidence : List (ConceptEvidence N))
      → IsConsistent lists.known_concepts lists.weak_concepts
      → let after = apply_all N (concept_test N normalize none) lists evidence in
        IsConsistent after.known_concepts after.weak_concepts
  unfolding apply_all
  apply_all-IsConsistent lists [] h = h
  apply_all-IsConsistent lists (evidence ∷ rest) h =
      apply_all-IsConsistent (apply_evidence N (concept_test N normalize none) lists evidence) rest
        (apply_evidence-IsConsistent lists evidence h)

  -- Without a matching callback: if no known concept of a profile is one of its weak concepts, up to
  -- `trim` and `toLowerCase`, then this holds of the profile that an observation results in, whose
  -- concepts and level are also those of the snapshot.
  pub apply_progress_observation-IsConsistent :
      (observation : ProgressObservation N) (current : LearnerProfile) (profile_version : String)
      {result : ReceiveProgressResult}
      → IsConsistent current.known_concepts current.weak_concepts
      → apply_progress_observation N normalize none observation current profile_version
        ≡ received result
      → IsConsistent result.profile.known_concepts result.profile.weak_concepts
        × (result.snapshot.known_concepts ≡ result.profile.known_concepts)
        × (result.snapshot.weak_concepts ≡ result.profile.weak_concepts)
        × (result.snapshot.level ≡ result.profile.level)
  unfolding apply_progress_observation progress_result
  apply_progress_observation-IsConsistent observation current profile_version {result = result} h
        k =
      let e : progress_result N normalize none observation current profile_version ≡ result =
        ground (arith, k) in
      let kept =
        apply_all-IsConsistent (start_lists N normalize none current) observation.concept_evidence
          h in
      rw (sym e) (kept, refl, refl, refl)
