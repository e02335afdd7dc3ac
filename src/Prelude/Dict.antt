-- ===== src/Prelude/Dict.antt =====
-- `Map`: an association list in insertion order; setting a key that is there keeps its place.
use mathlib.Core.Path.{◌≡◌, refl}
use mathlib.Core.Bool.{Bool, true, false, ◌||◌}
use mathlib.Core.Option.{Option, none, some}
use mathlib.Core.List.{List, [], ◌∷◌, ◌++◌, map}
use knowbalance.Prelude.Sets.{includes, is_distinct}
use knowbalance.Prelude.Lists.{filter, All}
use mathlib.Core.Logic.{inl, inr}
use native.Mathlib.Omega.{arith}
use knowbalance.Prelude.Tests.{Eq, ◌==◌, if◌then◌else◌, is_some, Bool-cases}

-- `p(map.get(k))`, false where the key is missing.
abbrev pub holds {κ} : {V : Type κ} → (V → Bool) → Option V → Bool
holds p none = false
holds p (some v) = p v

module _ {ℓ κ} {K : Type ℓ} {V : Type κ} ⦃e : Eq K⦄ where
  unfoldable pub insert : K → V → List (K × V) → List (K × V)
  insert key value [] = (key, value) ∷ []
  insert key value ((j, w) ∷ rest) =
      if j == key then (j, value) ∷ rest else (j, w) ∷ insert key value rest

  unfoldable pub lookup : K → List (K × V) → Option V
  lookup key [] = none
  lookup key ((j, value) ∷ rest) = if j == key then some value else lookup key rest

  pub lookup-insert :
      (key asked : K) (value : V) (entries : List (K × V))
      → lookup asked (insert key value entries)
        ≡ (if key == asked then some value else lookup asked entries)
  unfolding lookup insert
  lookup-insert key asked value ((i, w) ∷ rest) = ground (
    arith,
    lookup-insert key asked value rest,
    e.beq_iff key asked,
    e.beq_iff i key,
    e.beq_iff i asked,
  )
  lookup-insert key asked value [] = refl

  abbrev pub keys : List (K × V) → List K
  keys m = map (λ entry. entry.0) m

  -- Each key stands once, as in every `Map`.
  abbrev pub HasDistinctKeys : List (K × V) → Type 0
  HasDistinctKeys m = is_distinct (keys m) ≡ true

  pub is_some-lookup : (k : K) (m : List (K × V)) → is_some (lookup k m) ≡ includes (keys m) k
  unfolding lookup
  is_some-lookup k [] = refl
  is_some-lookup k ((j, v) ∷ m) = ground (arith, is_some-lookup k m)

  -- A new key goes to the end.
  pub insert_fresh :
      (k : K) (v : V) (m : List (K × V))
      → includes (keys m) k ≡ false
      → insert k v m ≡ m ++ (k, v) ∷ []
  unfolding insert
  insert_fresh k v [] h = refl
  insert_fresh k v ((j, w) ∷ m) h = ground (arith, insert_fresh k v m)

  pub includes-keys-insert :
      (k : K) (v : V) (m : List (K × V)) (j : K)
      → includes (keys (insert k v m)) j ≡ (k == j || includes (keys m) j)
  unfolding insert
  includes-keys-insert k v [] j = refl
  includes-keys-insert k v ((i, w) ∷ m) j =
      ground (arith, includes-keys-insert k v m j, e.beq_iff i k, e.beq_iff i j, e.beq_iff k j)

  pub insert-HasDistinctKeys :
      (k : K) (v : V) (m : List (K × V)) → HasDistinctKeys m → HasDistinctKeys (insert k v m)
  unfolding insert
  insert-HasDistinctKeys k v [] h = refl
  insert-HasDistinctKeys k v ((i, w) ∷ m) h = ground (
    arith,
    insert-HasDistinctKeys k v m,
    includes-keys-insert k v m i,
    e.beq_iff i k,
    e.beq_iff k i,
  )

  includes-filter-keys :
      (p : V → Bool) (m : List (K × V)) (k : K)
      → includes (keys m) k ≡ false
      → includes (keys (filter (λ entry. p entry.1) m)) k ≡ false
  includes-filter-keys p [] k h = refl
  includes-filter-keys p ((j, v) ∷ m) k h = ground (arith, includes-filter-keys p m k)

  -- The keys of the entries that pass a test are those whose value passes it.
  pub includes-filter-lookup :
      (p : V → Bool) (m : List (K × V)) (k : K)
      → HasDistinctKeys m
      → includes (keys (filter (λ entry. p entry.1) m)) k ≡ holds p (lookup k m)
  unfolding lookup
  includes-filter-lookup p [] k h = refl
  includes-filter-lookup p ((j, v) ∷ m) k h =
      ground (arith, includes-filter-lookup p m k, includes-filter-keys p m k, e.beq_iff j k)

  pub All-insert {μ} :
      (P : V → Type μ) (k : K) (v : V) (m : List (K × V))
      → P v
      → All (λ entry. P entry.1) m
      → All (λ entry. P entry.1) (insert k v m)
  unfolding insert
  All-insert P k v [] p h = (p, tt)
  All-insert P k v ((j, w) ∷ m) p (q, h) = elim (Bool-cases (j == k)) [
    | inl same ↦ rw same (p, h)
    | inr other ↦ rw other (q, All-insert P k v m p h)
  ]
