-- ===== src/Query/Paths/Bounds.antt =====
-- Every definition in the searched graph is an index of its keys, so a search stays among finitely
-- many states.
use mathlib.Core.List.{foldl}
use mathlib.Core.List.Memᴰ
use data_ontology_graph.Prelude.{
  ℕ, suc, ◌+◌, ◌<◌, Text, List, [], ◌∷◌, ◌++◌, Bool, length, length-append, Bool-cases, both_ways,
  Option-cases, ◌≡◌, sym, ap, ◌∙◌, subst, Memᴰ, Memᴰ-snoc, ⊎_elim, inl, inr, none, some,
  if◌then◌else◌, ◌==◌, ==→≡, ≡→==, arith, nat_order, list_order, pair_order, triple_order,
  sorted_by,
}
use data_ontology_graph.Prelude.Maps.{put, put-same, put-other}
use data_ontology_graph.Model.Enums.{Multiplicity}
use data_ontology_graph.Model.Definition.{EntityDefinition, DefinitionKey, key}
use data_ontology_graph.Model.Dataset.{DatasetNode}
use data_ontology_graph.Model.Relationship.{JoinRelationship}
use data_ontology_graph.Query.Paths.{
  state_order, PathGraph, Leaving, no_graph, add_definition, add_node, index_from, add_edge,
}
use data_ontology_graph.Query.Paths.Traced.{some_injective}

pub record IsBounded (g : PathGraph) : Type 0 where
  pub on_dataset : (node_id : Text) (d : ℕ) → Memᴰ d (g.on_dataset node_id) → d < length g.keys
  pub edges :
      (a b : ℕ) (m : Multiplicity) (id : Text)
      → Memᴰ (b, m, id) (g.edges a)
      → (b < length g.keys) × ((id' : Text) × (g.edge_by_pair (a, b) ≡ some id'))

pub no_graph-IsBounded : IsBounded no_graph
no_graph-IsBounded = record {
  on_dataset = λ n d m. absurd (Memᴰ.not-nil m);
  edges = λ a b m id at. absurd (Memᴰ.not-nil at);
}

add_definition-IsBounded :
    (node_id : Text) (g : PathGraph) (d : EntityDefinition)
    → IsBounded g
    → IsBounded (add_definition node_id g d)
unfolding add_definition
add_definition-IsBounded node_id g d h = record {
  on_dataset = λ n e m. elim (Bool-cases (n == node_id)) [
    | inl same ↦
        let old_or_new =
          subst (λ xs. Memᴰ e xs)
            (ap (put g.on_dataset node_id (g.on_dataset node_id ++ length g.keys ∷ []))
                (==→≡ n node_id same)
              ∙ put-same g.on_dataset node_id _)
            m in
        ⊎_elim (λ old. let le = h.on_dataset node_id e old in omega (arith, longer))
          (λ new. omega (arith, longer))
          ((Memᴰ-snoc e (length g.keys) (g.on_dataset node_id)).0 old_or_new)
    | inr other ↦
        let old =
          subst (λ xs. Memᴰ e xs)
            (put-other g.on_dataset node_id n (g.on_dataset node_id ++ length g.keys ∷ [])
              (λ q. both_ways {P = ⊥} (≡→== n node_id q) other))
            m in
        let le = h.on_dataset n e old in omega (arith, longer)
  ];
  edges = λ a b m id at. let (le, known) = h.edges a b m id at in (omega (arith, longer), known);
}
  where
    longer : length (g.keys ++ key d node_id ∷ []) ≡ length g.keys + 1
    longer = length-append g.keys (key d node_id ∷ [])

add_definitions-IsBounded :
    (node_id : Text) (ds : List EntityDefinition) (g : PathGraph)
    → IsBounded g
    → IsBounded (foldl (add_definition node_id) g ds)
add_definitions-IsBounded node_id [] g h = h
add_definitions-IsBounded node_id (d ∷ ds) g h =
    add_definitions-IsBounded node_id ds (add_definition node_id g d)
      (add_definition-IsBounded node_id g d h)

pub add_nodes-IsBounded :
    (nodes : List DatasetNode) (g : PathGraph) → IsBounded g → IsBounded (foldl add_node g nodes)
unfolding add_node
add_nodes-IsBounded [] g h = h
add_nodes-IsBounded (node ∷ nodes) g h = add_nodes-IsBounded nodes (add_node g node) (
    add_definitions-IsBounded node.node_id
      (sorted_by (λ d. key d node.node_id) node.entity_definitions) g h)

pub index_from-lt :
    (position : ℕ) (keys : List DefinitionKey) (k : DefinitionKey) (d : ℕ)
    → index_from position keys k ≡ some d
    → d < position + length keys
unfolding index_from
index_from-lt position [] k d = λ e. cc
index_from-lt position (x ∷ keys) k d = elim (Option-cases (index_from (suc position) keys k)) [
  | inl Nowhere ↦ rw Nowhere (λ e. let here = first (x == k) e in omega arith)
  | inr (later, found) ↦ rw found (λ e.
      let le = index_from-lt (suc position) keys k later found in omega (arith, some_injective e))
]
  where
    first : (b : Bool) → (if b then some position else none) ≡ some d → position ≡ d
    first b e = ground arith

-- what the dictionaries of the edges hold after a relationship is added
module _ (g : PathGraph) (h : IsBounded g) (r : JoinRelationship) (a b : ℕ)
    (a_in : a < length g.keys) (b_in : b < length g.keys) where
  pair_kept :
      (x y : ℕ)
      → (id : Text) → g.edge_by_pair (x, y) ≡ some id
      → (id' : Text) × ((add_edge g r a b).edge_by_pair (x, y) ≡ some id')
  pair_kept x y id e = elim (Bool-cases (◌==◌ {A = ℕ × ℕ} (x, y) (a, b))) [
    | inl same ↦ (
      r.edge_id,
      ap (put (put g.edge_by_pair (b, a) (some r.edge_id)) (a, b) (some r.edge_id))
            (==→≡ (x, y) (a, b) same)
          ∙ put-same _ (a, b) _,
    )
    | inr apart ↦
        let skip =
          put-other (put g.edge_by_pair (b, a) (some r.edge_id)) (a, b) (x, y) (some r.edge_id)
            (λ q. both_ways {P = ⊥} (≡→== (x, y) (a, b) q) apart) in
        elim (Bool-cases (◌==◌ {A = ℕ × ℕ} (x, y) (b, a))) [
          | inl same ↦ (
            r.edge_id,
            skip
                ∙ (ap (put g.edge_by_pair (b, a) (some r.edge_id)) (==→≡ (x, y) (b, a) same)
                    ∙ put-same _ (b, a) _),
          )
          | inr apart' ↦ (
            id,
            skip
                ∙ (put-other g.edge_by_pair (b, a) (x, y) (some r.edge_id)
                      (λ q. both_ways {P = ⊥} (≡→== (x, y) (b, a) q) apart')
                    ∙ e),
          )
        ]
  ]

  pair_set :
      ((id' : Text) × ((add_edge g r a b).edge_by_pair (a, b) ≡ some id'))
      × ((id' : Text) × ((add_edge g r a b).edge_by_pair (b, a) ≡ some id'))
  pair_set = (
    (r.edge_id, put-same (put g.edge_by_pair (b, a) (some r.edge_id)) (a, b) _),
    elim (Bool-cases (◌==◌ {A = ℕ × ℕ} (b, a) (a, b))) [
      | inl same ↦ (
        r.edge_id,
        ap (put (put g.edge_by_pair (b, a) (some r.edge_id)) (a, b) (some r.edge_id))
              (==→≡ (b, a) (a, b) same)
            ∙ put-same _ (a, b) _,
      )
      | inr apart ↦ (
        r.edge_id,
        put-other (put g.edge_by_pair (b, a) (some r.edge_id)) (a, b) (b, a) (some r.edge_id)
              (λ q. both_ways {P = ⊥} (≡→== (b, a) (a, b) q) apart)
            ∙ put-same g.edge_by_pair (b, a) _,
      )
    ],
  )

  abbrev Fine : ℕ → ℕ → Type 0
  Fine x y =
      (y < length g.keys) × ((id' : Text) × ((add_edge g r a b).edge_by_pair (x, y) ≡ some id'))

  abbrev from_a : ℕ → List Leaving
  from_a = put g.edges a (g.edges a ++ (b, r.a_to_b.multiplicity, r.edge_id) ∷ [])

  added_at_a : (x y : ℕ) (m : Multiplicity) (id : Text) → Memᴰ (y, m, id) (from_a x) → Fine x y
  added_at_a x y m id at = elim (Bool-cases (x == a)) [
    | inl same ↦
        let x_a = ==→≡ x a same in
        ⊎_elim old
          (λ e.
            subst (λ (p : ℕ × ℕ). Fine p.0 p.1) (λ i. (sym x_a i, (sym {A = Leaving} e i).0))
              (b_in, pair_set.0))
          ((Memᴰ-snoc (y, m, id) (b, r.a_to_b.multiplicity, r.edge_id) (g.edges x)).0 (
            subst (λ xs. Memᴰ (y, m, id) xs)
              (ap from_a x_a
                ∙ (put-same g.edges a _
                    ∙ ap (λ z. g.edges z ++ (b, r.a_to_b.multiplicity, r.edge_id) ∷ []) (sym x_a)))
              at))
    | inr other ↦ old (
        subst (λ xs. Memᴰ (y, m, id) xs)
          (put-other g.edges a x (g.edges a ++ (b, r.a_to_b.multiplicity, r.edge_id) ∷ [])
            (λ q. both_ways {P = ⊥} (≡→== x a q) other))
          at)
  ]
    where
      old : Memᴰ (y, m, id) (g.edges x) → Fine x y
      old n = let (le, (id', known)) = h.edges x y m id n in (le, pair_kept x y id' known)

  pub add_edge-IsBounded : IsBounded (add_edge g r a b)
  add_edge-IsBounded = record {
    on_dataset = h.on_dataset;
    edges = λ x y m id at. elim (Bool-cases (x == b)) [
      | inl same ↦
          let x_b = ==→≡ x b same in
          ⊎_elim (added_at_a x y m id)
            (λ e.
              subst (λ (p : ℕ × ℕ). Fine p.0 p.1) (λ i. (sym x_b i, (sym {A = Leaving} e i).0))
                (a_in, pair_set.1))
            ((Memᴰ-snoc (y, m, id) (a, r.b_to_a.multiplicity, r.edge_id) (from_a x)).0 (
              subst (λ xs. Memᴰ (y, m, id) xs)
                (ap (put from_a b (from_a b ++ (a, r.b_to_a.multiplicity, r.edge_id) ∷ [])) x_b
                  ∙ (put-same from_a b _
                      ∙ ap (λ z. from_a z ++ (a, r.b_to_a.multiplicity, r.edge_id) ∷ []) (sym x_b)))
                at))
      | inr other ↦ added_at_a x y m id (
          subst (λ xs. Memᴰ (y, m, id) xs)
            (put-other from_a b x (from_a b ++ (a, r.b_to_a.multiplicity, r.edge_id) ∷ [])
              (λ q. both_ways {P = ⊥} (≡→== x b q) other))
            at)
    ];
  }
