-- ===== src/Query/Connecting/Examples.antt =====
-- The pass over boundaries on three regions, and the theorems about it at concrete inputs.
use mathlib.Core.List.Memᴰ
use data_ontology_graph.Prelude.{
  ℕ, Text, text, Memᴰ, ◌≡◌, ◌⊎◌, refl, arith, some, none, map, All-at, contains, to_set, sorted_by,
  Option, IsDistinct, has_duplicates, has_duplicates_iff, nat_order, list_order, pair_order, join,
  [], ◌∷◌, true, Bool, false, all, all-at, and_parts, Bool-cases, inl, inr, subst, ==→≡, ◌==◌, List,
}
use data_ontology_graph.Model.Relationship.{
  JoinRelationship, edge_id_for, side, canonical_endpoints,
}
use data_ontology_graph.Model.Derivation.{arguments}
use data_ontology_graph.Model.Sample.{customer_id, buyer_id, customers, orders}
use data_ontology_graph.Query.Connecting.{
  DisjointSets, Candidate, Entry, new_sets, root_within, root, join_sets, span_loop,
  spanning_boundaries,
}
use data_ontology_graph.Query.Connecting.Sets.{Refines, root-eq}
use data_ontology_graph.Query.Connecting.Spanning.{IsSpanning, new_sets-Represents}
use data_ontology_graph.Query.Connecting.Apart.{AreApart}
use data_ontology_graph.Query.Connecting.Regions.{
  Adjacency, across, Status, ConnectingTree, connecting_tree,
}
use data_ontology_graph.Query.Connecting.Levels.{IsIncident}
use data_ontology_graph.Query.Connecting.Complete.{IsOutcome, connecting_tree_returns}
use data_ontology_graph.Query.Connecting.Spans.{spanning_boundaries_returns}

abbrev is_some : {A : Type 0} → Option A → Bool
is_some none = false
is_some (some a) = true

abbrev link : JoinRelationship
link = arguments ((customers.node_id, customer_id), (orders.node_id, buyer_id))

abbrev costs : Option (Option (List Candidate)) → Option (Option (List ℕ))
costs none = none
costs (some none) = some none
costs (some (some cs)) = some (some (map (λ c. c.cost) cs))

abbrev regions : List Text
regions = text "a" ∷ text "b" ∷ text "c" ∷ []

abbrev boundary : ℕ → Text → Text → Entry
boundary cost left right =
    ((left, right), record { cost = cost; edge_id = left; left = left; right = right; edge = link })

abbrev boundaries : List Entry
boundaries =
    boundary 3 (text "b") (text "c")
    ∷ boundary 1 (text "a") (text "b")
    ∷ boundary 3 (text "a") (text "c")
    ∷ []

-- two boundaries are chosen, and a limit of 2 leaves too few
spanned : costs (spanning_boundaries regions none boundaries) ≡ some (some (1 ∷ 3 ∷ []))
unfolding spanning_boundaries span_loop join_sets root root_within new_sets sorted_by
spanned = refl

not_spanned : spanning_boundaries regions (some 2) boundaries ≡ some none
unfolding spanning_boundaries span_loop join_sets root root_within new_sets sorted_by
not_spanned = refl

regions-IsDistinct : IsDistinct regions
unfolding has_duplicates to_set contains
regions-IsDistinct = (has_duplicates_iff regions).0 refl

boundaries_among : (e : Entry) → Memᴰ e boundaries → Memᴰ e.0.0 regions × Memᴰ e.0.1 regions
boundaries_among =
    All-at (λ (e : Entry). Memᴰ e.0.0 regions × Memᴰ e.0.1 regions) boundaries
      (
        (Memᴰ.tail (Memᴰ.head refl), Memᴰ.tail (Memᴰ.tail (Memᴰ.head refl))),
        (
          (Memᴰ.head refl, Memᴰ.tail (Memᴰ.head refl)),
          ((Memᴰ.head refl, Memᴰ.tail (Memᴰ.tail (Memᴰ.head refl))), tt),
        ),
      )

spanning_boundaries_returns_example :
    (r : Option (List Candidate)) × (spanning_boundaries regions (some 2) boundaries ≡ some r)
    × (((chosen : List Candidate) × (r ≡ some chosen)
          × IsSpanning regions (some 2) boundaries chosen)
        ⊎ ((r ≡ none) × AreApart regions (some 2) boundaries))
spanning_boundaries_returns_example =
    spanning_boundaries_returns regions (some 2) boundaries regions-IsDistinct boundaries_among
      (omega arith)

root-eq_example :
    (s' : DisjointSets) × (root (new_sets regions) (text "a") ≡ some (s', text "a"))
    × Refines (new_sets regions) s' (λ x. x)
    × (s'.parent (text "a") ≡ text "a")
root-eq_example = root-eq (new_sets regions) (λ x. x) (text "a") (new_sets-Represents regions)

abbrev adjacency : Adjacency
adjacency = (customers.node_id, link ∷ []) ∷ (orders.node_id, link ∷ []) ∷ []

abbrev two : List Text
two = customers.node_id ∷ orders.node_id ∷ []

found : {A : Type 0} (o : Option A) → is_some o ≡ true → (a : A) × (o ≡ some a)
found none h = cc
found (some a) h = (a, refl)

IsIncident-of :
    (table : Adjacency)
    → all (λ entry. all (λ e. is_some (across e entry.0)) entry.1) table ≡ true
    → IsIncident table
IsIncident-of [] h x e = λ m. absurd (Memᴰ.not-nil m)
IsIncident-of ((key, edges) ∷ table) h x e =
    let (first, others) = and_parts _ _ h in
    elim (Bool-cases (key == x)) [
      | inl same ↦ rw same (λ m.
          subst (λ z. (y : Text) × (across e z ≡ some y)) (==→≡ key x same)
            (found (across e key) (all-at (λ f. is_some (across f key)) edges first m)))
      | inr apart ↦ rw apart (λ m. IsIncident-of table others x e m)
    ]

adjacency-IsIncident : IsIncident adjacency
unfolding across arguments
adjacency-IsIncident = IsIncident-of adjacency refl

two-IsDistinct : IsDistinct two
unfolding has_duplicates
two-IsDistinct = (has_duplicates_iff two).0 refl

connecting_tree_returns_example :
    (tree : ConnectingTree) × (connecting_tree adjacency two ≡ some tree)
    × IsOutcome adjacency two tree
connecting_tree_returns_example =
    connecting_tree_returns adjacency two adjacency-IsIncident two-IsDistinct (omega arith)

-- the two datasets are joined by their relationship
one_edge :
    connecting_tree adjacency two
    ≡ some (record { status = Status.completed; node_ids = two; edge_ids = link.edge_id ∷ [] })
unfolding connecting_tree arguments edge_id_for side canonical_endpoints join
one_edge = refl

-- datasets without edges are disconnected
no_edges :
    connecting_tree [] two
    ≡ some (record { status = Status.disconnected; node_ids = two; edge_ids = [] })
unfolding connecting_tree
no_edges = refl
