-- ===== src/Teaching/Paths/Build/Closure.antt =====
-- The prerequisites that the loop collects are all that the goals need, directly or not.
use knowbalance.Prelude.{
  ℕ, zero, suc, ◌≡◌, refl, sym, ap, ◌∙◌, String, Bool, true, false, not, ◌||◌, Option, none, some,
  List, [], ◌∷◌, ◌++◌, map, foldl, all, All, All-append, string_Eq, ◌==◌, includes, includes-append,
  includes-unique, Bool-cases, List-cases, is_some, arith, inl, inr, find-holds,
}
use knowbalance.Prelude.Dict.{insert, insert_fresh, keys}
use knowbalance.Teaching.Recovery.{KnowledgeItem}
use knowbalance.Teaching.Paths.Build.{
  Collected, find_item, add_prerequisite, visit, collect_prerequisites, start_collect,
  source_ids_of,
}

abbrev pub values_of : List (String × KnowledgeItem) → List KnowledgeItem
values_of entries = map (λ entry. entry.1) entries

map-append : {A B : Type 0} (f : A → B) (xs ys : List A) → map f (xs ++ ys) ≡ map f xs ++ map f ys
map-append f [] ys = refl
map-append f (x ∷ xs) ys = rw (map-append f xs ys) refl

append_assoc : {A : Type 0} (xs ys zs : List A) → (xs ++ ys) ++ zs ≡ xs ++ (ys ++ zs)
append_assoc [] ys zs = refl
append_assoc (x ∷ xs) ys zs = rw (append_assoc xs ys zs) refl

append_nil : {A : Type 0} (xs : List A) → xs ++ [] ≡ xs
append_nil [] = refl
append_nil (x ∷ xs) = rw (append_nil xs) refl

-- A prerequisite that needs no node: the knowledge base lacks it, or the learner knows it.
unfoldable pub is_excused : List KnowledgeItem → (is_known : String → Bool) → String → Bool
is_excused kb is_known id = not (is_some (find_item kb id)) || is_known id

module _ (kb : List KnowledgeItem) (is_known : String → Bool)
    (goal_items : List KnowledgeItem) where
  abbrev pub is_covered : List String → String → Bool
  is_covered found id =
      is_excused kb is_known id || (includes (source_ids_of goal_items) id || includes found id)

  -- The invariant of the loop: `taken` were taken from the list, and `done` are those of them
  -- whose prerequisites were visited.
  record IsSound (c : Collected) (taken done : List KnowledgeItem) : Type 0 where
    order : taken ++ c.pending ≡ goal_items ++ values_of c.all_prereqs
    names : source_ids_of (values_of c.all_prereqs) ≡ keys c.all_prereqs
    covered :
        (id : String) → includes c.visited id ≡ true → is_covered (keys c.all_prereqs) id ≡ true
    fresh : (id : String) → includes (keys c.all_prereqs) id ≡ true → includes c.visited id ≡ true
    visited :
        All (λ (item : KnowledgeItem). all (includes c.visited) item.prerequisites ≡ true) done

  all-includes-append :
      (ids seen more : List String)
      → all (includes seen) ids ≡ true
      → all (includes (seen ++ more)) ids ≡ true
  all-includes-append [] seen more h = refl
  all-includes-append (id ∷ ids) seen more h =
      ground (arith, all-includes-append ids seen more, includes-append seen more id)

  All-visited-append :
      (items : List KnowledgeItem) (seen more : List String)
      → All (λ (item : KnowledgeItem). all (includes seen) item.prerequisites ≡ true) items
      → All
          (λ (item : KnowledgeItem). all (includes (seen ++ more)) item.prerequisites ≡ true)
          items
  All-visited-append [] seen more h = tt
  All-visited-append (item ∷ items) seen more (p, h) =
      (all-includes-append item.prerequisites seen more p, All-visited-append items seen more h)

  -- A visit that collects nothing.
  IsSound-excused :
      (id : String) (c : Collected) (taken done : List KnowledgeItem)
      → is_excused kb is_known id ≡ true
      → IsSound c taken done
      → IsSound (record c { visited = c.visited ++ id ∷ [] }) taken done
  IsSound-excused id c taken done e h = record {
    order = h.order;
    names = h.names;
    covered = λ j k.
        ground
          (arith, h.covered j, includes-append c.visited (id ∷ []) j, string_Eq.beq_iff id j, e);
    fresh = λ j k. ground (arith, h.fresh j k, includes-append c.visited (id ∷ []) j);
    visited = All-visited-append done c.visited (id ∷ []) h.visited;
  }

  IsSound-collected :
      (id : String) (item : KnowledgeItem) (c : Collected) (taken done : List KnowledgeItem)
      → item.source_id ≡ id
      → includes c.visited id ≡ false
      → IsSound c taken done
      → IsSound
          (record {
            visited = c.visited ++ id ∷ [];
            all_prereqs = insert id item c.all_prereqs;
            pending = c.pending ++ item ∷ [];
          })
          taken
          done
  IsSound-collected id item c taken done e new h =
      let m = c.all_prereqs in
      let absent : includes (keys m) id ≡ false = ground (arith, h.fresh id) in
      let same = insert_fresh id item m absent in
      let values = map-append (λ (entry : String × KnowledgeItem). entry.1) m ((id, item) ∷ []) in
      let names = map-append (λ (entry : String × KnowledgeItem). entry.0) m ((id, item) ∷ []) in
      let of_values = map-append (λ (i : KnowledgeItem). i.source_id) (values_of m) (item ∷ []) in
      rw same (record {
        order = rw values (
            sym (append_assoc taken c.pending (item ∷ []))
            ∙ ap (λ l. l ++ item ∷ []) h.order
            ∙ append_assoc goal_items (values_of m) (item ∷ []));
        names = rw values (rw names (rw of_values (rw h.names (rw e refl))));
        covered = λ j k. rw names (
            ground (
              arith,
              h.covered j,
              includes-append c.visited (id ∷ []) j,
              includes-append (keys m) (id ∷ []) j,
            ));
        fresh = λ j k. ground (
          arith,
          h.fresh j,
          includes-append c.visited (id ∷ []) j,
          includes-append (keys m) (id ∷ []) j,
          rw names at k,
        );
        visited = All-visited-append done c.visited (id ∷ []) h.visited;
      })

  add_prerequisite-IsSound :
      (id : String) (o : Option KnowledgeItem) (c : Collected) (taken done : List KnowledgeItem)
      → find_item kb id ≡ o
      → includes c.visited id ≡ false
      → IsSound c taken done
      → IsSound (add_prerequisite kb is_known id o c) taken done
  unfolding add_prerequisite find_item is_excused
  add_prerequisite-IsSound id none c taken done e new h =
      IsSound-excused id c taken done (rw e refl) h
  add_prerequisite-IsSound id (some item) c taken done e new h = elim (Bool-cases (is_known id)) [
    | inl known ↦ rw known (IsSound-excused id c taken done (ground (arith, known)) h)
    | inr unknown ↦
        let named = find-holds (λ (i : KnowledgeItem). i.source_id == id) kb e in
        rw unknown (
          IsSound-collected id item c taken done ((string_Eq.beq_iff item.source_id id).0 named) new
            h)
  ]

  visit-IsSound :
      (c : Collected) (id : String) (taken done : List KnowledgeItem)
      → IsSound c taken done
      → IsSound (visit kb is_known c id) taken done
  unfolding visit
  visit-IsSound c id taken done h = elim (Bool-cases (includes c.visited id)) [
    | inl seen ↦ rw seen h
    | inr new ↦ rw new (add_prerequisite-IsSound id (find_item kb id) c taken done refl new h)
  ]

  foldl-visit-IsSound :
      (ids : List String) (c : Collected) (taken done : List KnowledgeItem)
      → IsSound c taken done
      → IsSound (foldl (visit kb is_known) c ids) taken done
  foldl-visit-IsSound [] c taken done h = h
  foldl-visit-IsSound (id ∷ ids) c taken done h =
      foldl-visit-IsSound ids (visit kb is_known c id) taken done (visit-IsSound c id taken done h)

  -- What is visited stays so.
  includes-visit :
      (c : Collected) (id j : String)
      → includes (visit kb is_known c id).visited j ≡ (id == j || includes c.visited j)
  unfolding visit add_prerequisite
  includes-visit c id j = elim (Bool-cases (includes c.visited id)) [
    | inl seen ↦ rw seen (ground (arith, string_Eq.beq_iff id j))
    | inr new ↦ rw new (includes-added (find_item kb id))
  ]
    where
      includes-added :
          (o : Option KnowledgeItem)
          → includes (add_prerequisite kb is_known id o c).visited j
            ≡ (id == j || includes c.visited j)
      includes-added none = ground (arith, includes-append c.visited (id ∷ []) j)
      includes-added (some item) = ground (arith, includes-append c.visited (id ∷ []) j)

  includes-foldl-visit :
      (ids : List String) (c : Collected) (j : String)
      → includes (foldl (visit kb is_known) c ids).visited j
        ≡ (includes ids j || includes c.visited j)
  includes-foldl-visit [] c j = refl
  includes-foldl-visit (id ∷ ids) c j =
      ground (arith, includes-foldl-visit ids (visit kb is_known c id) j, includes-visit c id j)

  -- One turn of the loop.
  IsSound-turn :
      (c : Collected) (item : KnowledgeItem) (rest done : List KnowledgeItem)
      → c.pending ≡ item ∷ rest
      → IsSound c done done
      → (let next = foldl (visit kb is_known) (record c { pending = rest }) item.prerequisites in
          IsSound next (done ++ item ∷ []) (done ++ item ∷ []))
  IsSound-turn c item rest done e h =
      let start = record c { pending = rest } in
      let opened : IsSound start (done ++ item ∷ []) done = record {
        order = append_assoc done (item ∷ []) rest ∙ ap (λ l. done ++ l) (sym e) ∙ h.order;
        names = h.names;
        covered = h.covered;
        fresh = h.fresh;
        visited = h.visited;
      } in
      let next = foldl (visit kb is_known) start item.prerequisites in
      let after = foldl-visit-IsSound item.prerequisites start (done ++ item ∷ []) done opened in
      record {
        order = after.order;
        names = after.names;
        covered = after.covered;
        fresh = after.fresh;
        visited =
            All-append (λ (i : KnowledgeItem). all (includes next.visited) i.prerequisites ≡ true)
              done (item ∷ []) after.visited (all-visited item.prerequisites start, tt);
      }
    where
      all_of :
          (ids more : List String) (s : Collected)
          → ((j : String) → includes ids j ≡ true → includes more j ≡ true)
          → all (includes (foldl (visit kb is_known) s more).visited) ids ≡ true
      all_of [] more s f = refl
      all_of (id ∷ ids) more s f = ground (
        arith,
        all_of ids more s (λ j k. f j (ground arith)),
        f id,
        includes-foldl-visit more s id,
        string_Eq.beq_iff id id,
      )

      all-visited :
          (ids : List String) (s : Collected)
          → all (includes (foldl (visit kb is_known) s ids).visited) ids ≡ true
      all-visited ids s = all_of ids ids s (λ j k. k)

  -- What the collected entries mean: nothing that is needed is left out.
  pub record IsClosed (entries : List (String × KnowledgeItem)) : Type 0 where
    pub names : source_ids_of (values_of entries) ≡ keys entries
    pub closed :
        All
          (λ (item : KnowledgeItem). all (is_covered (keys entries)) item.prerequisites ≡ true)
          (goal_items ++ values_of entries)

  all-covered :
      (seen : List String) (found : List String) (ids : List String)
      → ((id : String) → includes seen id ≡ true → is_covered found id ≡ true)
      → all (includes seen) ids ≡ true
      → all (is_covered found) ids ≡ true
  all-covered seen found [] f h = refl
  all-covered seen found (id ∷ ids) f h = ground (arith, f id, all-covered seen found ids f)

  All-covered :
      (seen : List String) (found : List String) (items : List KnowledgeItem)
      → ((id : String) → includes seen id ≡ true → is_covered found id ≡ true)
      → All (λ (item : KnowledgeItem). all (includes seen) item.prerequisites ≡ true) items
      → All (λ (item : KnowledgeItem). all (is_covered found) item.prerequisites ≡ true) items
  All-covered seen found [] f h = tt
  All-covered seen found (item ∷ items) f (p, h) =
      (all-covered seen found item.prerequisites f p, All-covered seen found items f h)

  IsSound-IsClosed :
      (c : Collected) (done : List KnowledgeItem)
      → c.pending ≡ []
      → IsSound c done done
      → IsClosed c.all_prereqs
  IsSound-IsClosed c done e h =
      let all_done : done ≡ goal_items ++ values_of c.all_prereqs =
        sym (append_nil done) ∙ ap (λ l. done ++ l) (sym e) ∙ h.order in
      record {
        names = h.names;
        closed =
            rw (sym all_done) (All-covered c.visited (keys c.all_prereqs) done h.covered h.visited);
      }

  collect_prerequisites-IsClosed :
      (fuel : ℕ) (c : Collected) (done : List KnowledgeItem)
      (entries : List (String × KnowledgeItem))
      → IsSound c done done
      → collect_prerequisites kb is_known fuel c ≡ some entries
      → IsClosed entries
  unfolding collect_prerequisites
  collect_prerequisites-IsClosed zero c done entries h r = absurd (ground (arith, r))
  collect_prerequisites-IsClosed (suc fuel) c done entries h r = elim (List-cases c.pending) [
    | inl e ↦
        let same : c.all_prereqs ≡ entries = ground (arith, rw e at r) in
        rw (sym same) (IsSound-IsClosed c done e h)
    | inr (item, rest, e) ↦
        collect_prerequisites-IsClosed fuel
          (foldl (visit kb is_known) (record c { pending = rest }) item.prerequisites)
          (done ++ item ∷ []) entries (IsSound-turn c item rest done e h) (rw e at r)
  ]

  pub start_collect-IsClosed :
      (fuel : ℕ) (entries : List (String × KnowledgeItem))
      → collect_prerequisites kb is_known fuel (start_collect goal_items) ≡ some entries
      → IsClosed entries
  start_collect-IsClosed fuel entries r =
      collect_prerequisites-IsClosed fuel (start_collect goal_items) [] entries
        (record {
          order = sym (append_nil goal_items);
          names = refl;
          covered = λ id k. ground (arith, k, includes-unique (source_ids_of goal_items) id);
          fresh = λ id k. absurd (ground (arith, k));
          visited = tt;
        })
        r
