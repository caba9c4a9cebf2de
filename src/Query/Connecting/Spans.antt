-- ===== src/Query/Connecting/Spans.antt =====
-- `_spanning_boundaries` on every input: a spanning tree, or terminals that cannot be linked.
use mathlib.Core.List.Memᴰ
use data_ontology_graph.Prelude.{
  ℕ, suc, ◌<◌, Text, List, [], ◌∷◌, ◌++◌, Bool, true, false, not, Bool-cases, both_ways, arith, ◌≡◌,
  ◌≢◌, refl, sym, ◌∙◌, subst, ◌⊎◌, inl, inr, ⊎_elim, Memᴰ, Memᴰ-select, Memᴰ-sorted_by, length,
  length-append, IsDistinct, Option, none, some, ◌==◌, ==→≡, ≡→==, sorted_by, sorted_by-IsSortedBy,
  IsSortedBy, nat_order, list_order, pair_order, quad_order,
}
use data_ontology_graph.Query.Connecting.{
  DisjointSets, new_sets, Candidate, Entry, candidate_key, too_dear, span_loop, spanning_boundaries,
}
use data_ontology_graph.Query.Connecting.Sets.{Represents, relabel}
use data_ontology_graph.Query.Connecting.Leaders.{Joins, join_sets-eq, label-label, label-mem}
use data_ontology_graph.Query.Connecting.Spanning.{
  Linked, across, back, chain, grow, IsSpanning, IsState, start-IsState, joined-IsState,
}
use data_ontology_graph.Query.Connecting.Apart.{
  cost_ascends, affordable, AreApart, complete, incomplete, dearer, relabel-joined,
  relabel-joined_back, relabel-keeps,
}

module _ (terminals : List Text) (max_cost : Option ℕ) (candidates : List Entry)
    (d : IsDistinct terminals)
    (among : (e : Entry) → Memᴰ e candidates → Memᴰ e.0.0 terminals × Memᴰ e.0.1 terminals) where
  abbrev pub Outcome : Option (List Candidate) → Type 0
  Outcome r =
      ((boundaries : List Candidate) × (r ≡ some boundaries)
        × IsSpanning terminals max_cost candidates boundaries)
      ⊎ ((r ≡ none) × AreApart terminals max_cost candidates)

  -- what is still to come: the affordable candidates whose ends have different labels
  abbrev Pending : (Text → Text) → List Entry → Type 0
  Pending label rest =
      (e : Entry)
      → Memᴰ e candidates
      → too_dear max_cost e.1.cost ≡ false
      → (label e.0.0 ≡ label e.0.1) ⊎ Memᴰ e rest

  settle :
      (label label' : Text → Text) (e : Entry) (rest : List Entry)
      → ((a b : Text) → label a ≡ label b → label' a ≡ label' b)
      → label' e.0.0 ≡ label' e.0.1
      → Pending label (e ∷ rest)
      → Pending label' rest
  settle label label' e rest keeps joined pending x m cheap =
      ⊎_elim (λ same. inl (keeps x.0.0 x.0.1 same))
        (λ later.
          ⊎_elim
            (λ here. inl (subst (λ (y : Entry). label' y.0.0 ≡ label' y.0.1) (sym here) joined)) inr
            (Memᴰ.cases_cons later))
        (pending x m cheap)

  all_settled :
      (label : Text → Text) (rest : List Entry)
      → Pending label rest
      → ((e : Entry) → Memᴰ e rest → too_dear max_cost e.1.cost ≡ true)
      → (e : Entry) → Memᴰ e (affordable max_cost candidates)
      → label e.0.0 ≡ label e.0.1
  all_settled label rest pending dear e m =
      let (inside, cheap) =
        (Memᴰ-select (λ (x : Entry). not (too_dear max_cost x.1.cost)) e candidates).0 m in
      ⊎_elim (λ same. same)
        (λ later. both_ways (dear e later) (not_true (too_dear max_cost e.1.cost) cheap))
        (pending e inside (not_true (too_dear max_cost e.1.cost) cheap))
    where
      not_true : (b : Bool) → not b ≡ true → b ≡ false
      not_true b h = ground arith

  abbrev Runs : DisjointSets → List Candidate → List Entry → Type 0
  Runs sets boundaries rest =
      (r : Option (List Candidate)) × (span_loop terminals max_cost sets boundaries rest ≡ some r)
      × Outcome r

  -- the loop on the entries that follow, from any state
  abbrev Continues : List Entry → Type 0
  Continues rest =
      (sets : DisjointSets) (label : Text → Text) (boundaries : List Candidate)
      (chosen : List Entry)
      → IsState terminals max_cost candidates d among sets label boundaries chosen
      → suc (length boundaries) < length terminals
      → Pending label rest
      → Runs sets boundaries rest

  module _ (e : Entry) (rest : List Entry) (at : Memᴰ e candidates)
      (cheap : too_dear max_cost e.1.cost ≡ false) (next : Continues rest) (sets : DisjointSets)
      (label : Text → Text) (boundaries : List Candidate) (chosen : List Entry)
      (s : IsState terminals max_cost candidates d among sets label boundaries chosen)
      (few : suc (length boundaries) < length terminals) (j : Joins sets label e.0.0 e.0.1) where
    more :
        suc (length (boundaries ++ e.1 ∷ [])) ≢ length terminals
        → suc (length (boundaries ++ e.1 ∷ [])) < length terminals
    more ne = omega (arith, length-append boundaries (e.1 ∷ []))

    -- after a join that found two sets
    grown-Runs :
        j.joined ≡ true
        → (label' : Text → Text)
        → IsState terminals max_cost candidates d among j.after label'
            (boundaries ++ e.1 ∷ [])
            (chosen ++ e ∷ [])
        → Pending label' rest
        → Runs sets boundaries (e ∷ rest)
    unfolding span_loop
    grown-Runs did label' s' pending =
        elim (Bool-cases (suc (length (boundaries ++ e.1 ∷ [])) == length terminals)) [
          | inl full ↦ (
            some (boundaries ++ e.1 ∷ []),
            rw (cheap, j.returned, did, full),
            inl (
              boundaries ++ e.1 ∷ [],
              refl,
              complete terminals max_cost candidates d among j.after label' (boundaries ++ e.1 ∷ [])
                  (chosen ++ e ∷ []) s'
                  (==→≡ (suc (length (boundaries ++ e.1 ∷ []))) (length terminals) full),
            ),
          )
          | inr not_full ↦
              let (r, runs, outcome) =
                next j.after label' (boundaries ++ e.1 ∷ []) (chosen ++ e ∷ []) s'
                  (more (λ full.
                    both_ways (≡→== (suc (length (boundaries ++ e.1 ∷ []))) (length terminals) full)
                      not_full))
                  pending in
              (r, rw (cheap, j.returned, did, not_full) runs, outcome)
        ]

    -- after a join that found one set
    same-Runs :
        j.joined ≡ false → j.labels ≡ label → Pending label rest → Runs sets boundaries (e ∷ rest)
    unfolding span_loop
    same-Runs did_not same pending =
        let (r, runs, outcome) =
          next j.after label boundaries chosen
            (record {
              represents = subst (Represents j.after) same j.represents;
              nodes = j.same_nodes ∙ s.nodes;
              are_boundaries = s.are_boundaries;
              from_candidates = s.from_candidates;
              counted = s.counted;
              linked = s.linked;
            })
            few pending in
        (r, rw (cheap, j.returned, did_not) runs, outcome)

    in_terminals : (x : Text) → Memᴰ x terminals → Memᴰ (label x) terminals
    in_terminals x m =
        subst (Memᴰ (label x)) s.nodes
          (label-mem sets label s.represents x (subst (Memᴰ x) (sym s.nodes) m))

    own_label : (x : Text) → label (label x) ≡ label x
    own_label x = label-label sets label s.represents x

    reach : (x : Text) → Linked (chosen ++ e ∷ []) x (label x)
    reach x = grow e (s.linked x)

    crossing : Linked (chosen ++ e ∷ []) e.0.0 e.0.1
    crossing = across (Memᴰ.append_right chosen (Memᴰ.head refl))

    step-Runs : Pending label (e ∷ rest) → Runs sets boundaries (e ∷ rest)
    step-Runs pending =
        let (left_in, right_in) = among e at in
        ⊎_elim
          (λ (same, did_not, labels).
            same-Runs did_not labels (settle label label e rest (λ a b h. h) same pending))
          (λ (ne, did, relabelled).
            ⊎_elim
              (λ labels.
                grown-Runs did (relabel label (label e.0.0) (label e.0.1))
                  (joined-IsState terminals max_cost candidates d among sets label boundaries chosen
                    s e at cheap j.after (label e.0.0) (label e.0.1) j.same_nodes
                    (subst (Represents j.after) labels j.represents)
                    (chain (back (reach e.0.1)) (chain (back crossing) (reach e.0.0)))
                    (own_label e.0.0) (own_label e.0.1) (in_terminals e.0.1 right_in) ne)
                  (settle label _ e rest (relabel-keeps label (label e.0.0) (label e.0.1))
                    (relabel-joined label e.0.0 e.0.1 ne) pending))
              (λ labels.
                grown-Runs did (relabel label (label e.0.1) (label e.0.0))
                  (joined-IsState terminals max_cost candidates d among sets label boundaries chosen
                    s e at cheap j.after (label e.0.1) (label e.0.0) j.same_nodes
                    (subst (Represents j.after) labels j.represents)
                    (chain (back (reach e.0.0)) (chain crossing (reach e.0.1))) (own_label e.0.1)
                    (own_label e.0.0) (in_terminals e.0.0 left_in) (λ x. ne (sym x)))
                  (settle label _ e rest (relabel-keeps label (label e.0.1) (label e.0.0))
                    (relabel-joined_back label e.0.0 e.0.1 ne) pending))
              relabelled)
          j.is_join

  loop-Runs :
      (rest : List Entry)
      → ((e : Entry) → Memᴰ e rest → Memᴰ e candidates)
      → IsSortedBy candidate_key rest
      → Continues rest
  unfolding span_loop
  loop-Runs [] inside sorted sets label boundaries chosen s few pending = (
    none,
    refl,
    inr (
      refl,
      incomplete terminals max_cost candidates d among sets label boundaries chosen s few
          (all_settled label [] pending (λ e m. absurd (Memᴰ.not-nil m))),
    ),
  )
  loop-Runs (e ∷ rest) inside sorted sets label boundaries chosen s few pending =
      let later : Continues rest = loop-Runs rest (λ x m. inside x (Memᴰ.tail m)) sorted.1 in
      let at = inside e (Memᴰ.head refl) in
      let (left_in, right_in) = among e at in
      elim (Bool-cases (too_dear max_cost e.1.cost)) [
        | inl dear ↦ (
          none,
          rw dear,
          inr (
            refl,
            incomplete terminals max_cost candidates d among sets label boundaries chosen s few (
                all_settled label (e ∷ rest) pending (λ x m.
                  ⊎_elim
                    (λ same.
                      subst (λ (y : Entry). too_dear max_cost y.1.cost ≡ true) (sym same) dear)
                    (λ t. dearer max_cost e.1.cost x.1.cost dear (cost_ascends e x (sorted.0 x t)))
                    (Memᴰ.cases_cons m))),
          ),
        )
        | inr cheap ↦
            step-Runs e rest at cheap later sets label boundaries chosen s few
              (join_sets-eq sets label e.0.0 e.0.1 s.represents
                (subst (Memᴰ e.0.0) (sym s.nodes) left_in)
                (subst (Memᴰ e.0.1) (sym s.nodes) right_in))
              pending
      ]

  -- For two or more distinct terminals and candidates between them, the pass returns. Either it gives
  -- boundaries that form a spanning tree: one less than the terminals, each a candidate within the
  -- cost, and linking every two terminals. Or it gives nothing, and the candidates within the cost
  -- do not link all terminals.
  pub spanning_boundaries_returns :
      1 < length terminals
      → (r : Option (List Candidate)) × (spanning_boundaries terminals max_cost candidates ≡ some r)
        × (((boundaries : List Candidate) × (r ≡ some boundaries)
              × IsSpanning terminals max_cost candidates boundaries)
            ⊎ ((r ≡ none) × AreApart terminals max_cost candidates))
  unfolding spanning_boundaries
  spanning_boundaries_returns several =
      loop-Runs (sorted_by candidate_key candidates)
        (λ e m. (Memᴰ-sorted_by candidate_key e candidates).0 m)
        (sorted_by-IsSortedBy candidate_key candidates) (new_sets terminals) (λ x. x) [] []
        (start-IsState terminals max_cost candidates d among) several
        (λ e m cheap. inr ((Memᴰ-sorted_by candidate_key e candidates).1 m))
