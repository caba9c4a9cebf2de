-- ===== src/Query/Neighbourhood/Edges.antt =====
-- `directed_edges_by_dataset`, `directed_edge_from` and the two directions of a directed edge.
use data_ontology_graph.Prelude.{
  ℕ, ◌+◌, Text, List, [], ◌∷◌, Bool, true, false, Bool-cases, arith, ◌≡◌, refl, sym, ap, ◌∙◌, subst,
  ◌↔◌, ◌⊎◌, inl, inr, ⊎_elim, Memᴰ, Option, some, if◌then◌else◌, ◌==◌, ==→≡, ≡→==, ==-self,
  Memᴰ-append, Memᴰ-flat_map, Memᴰ-sorted_by, sorted_by-IsSortedBy, IsSortedBy, flat_map, length,
  length-append, length-sorted_by, nat_order, list_order, pair_order, triple_order, quad_order,
}
use mathlib.Core.List.Memᴰ
use data_ontology_graph.Model.Definition.{DefinitionKey}
use data_ontology_graph.Model.Relationship.{JoinRelationship, identity_key}
use data_ontology_graph.Query.Neighbourhood.{
  DirectedEdge, outgoing, reverse_direction, sort_key, from_left, from_right, directed_edge_from,
  edges_at, directed_edges_by_dataset,
}

-- A relationship traversed from one of its endpoints.
abbrev pub IsTraversal : JoinRelationship → DirectedEdge → Type 0
IsTraversal r e = (e ≡ from_left r) ⊎ (e ≡ from_right r)

Memᴰ-if_one :
    (b : Bool) (x y : DirectedEdge) → Memᴰ y (if b then x ∷ [] else []) ↔ ((b ≡ true) × (y ≡ x))
Memᴰ-if_one true x y = (λ m. (refl, Memᴰ.eq_of_singleton m), λ (_, e). Memᴰ.head e)
Memᴰ-if_one false x y = (λ m. absurd (Memᴰ.not-nil m), λ (h, _). absurd cc)

Memᴰ-edges_at :
    (n : Text) (r : JoinRelationship) (e : DirectedEdge)
    → Memᴰ e (edges_at n r) ↔ (IsTraversal r e × (e.source.node_id ≡ n))
Memᴰ-edges_at n r e = (
  λ m. ⊎_elim from_a from_b ((Memᴰ-append e _ _).0 m),
  λ (t, at). (Memᴰ-append e _ _).1 (into t at),
)
  where
    from_a :
        Memᴰ e (if r.endpoint_a.node_id == n then from_left r ∷ [] else [])
        → IsTraversal r e × (e.source.node_id ≡ n)
    from_a m =
        let (here, same) = (Memᴰ-if_one _ (from_left r) e).0 m in
        (inl same, ap (λ (x : DirectedEdge). x.source.node_id) same ∙ ==→≡ _ _ here)

    from_b :
        Memᴰ e (if r.endpoint_b.node_id == n then from_right r ∷ [] else [])
        → IsTraversal r e × (e.source.node_id ≡ n)
    from_b m =
        let (here, same) = (Memᴰ-if_one _ (from_right r) e).0 m in
        (inr same, ap (λ (x : DirectedEdge). x.source.node_id) same ∙ ==→≡ _ _ here)

    into :
        IsTraversal r e
        → e.source.node_id ≡ n
        → Memᴰ e (if r.endpoint_a.node_id == n then from_left r ∷ [] else [])
          ⊎ Memᴰ e (if r.endpoint_b.node_id == n then from_right r ∷ [] else [])
    into (inl same) at = inl (
        (Memᴰ-if_one _ (from_left r) e).1
          (≡→== _ _ (sym (ap (λ (x : DirectedEdge). x.source.node_id) same) ∙ at), same))
    into (inr same) at = inr (
        (Memᴰ-if_one _ (from_right r) e).1
          (≡→== _ _ (sym (ap (λ (x : DirectedEdge). x.source.node_id) same) ∙ at), same))

-- A dataset's directed edges are the relationships traversed from their endpoints on it, in either
-- direction, and no others.
pub directed_edges_by_dataset_iff :
    (rs : List JoinRelationship) (n : Text) (e : DirectedEdge)
    → Memᴰ e (directed_edges_by_dataset rs n)
      ↔ ((r : JoinRelationship) × Memᴰ r rs × IsTraversal r e × (e.source.node_id ≡ n))
unfolding directed_edges_by_dataset
directed_edges_by_dataset_iff rs n e = (
  λ m.
      let (r, at, inside) =
        (Memᴰ-flat_map (edges_at n) e rs).0 ((Memᴰ-sorted_by sort_key e _).0 m) in
      let (t, on) = (Memᴰ-edges_at n r e).0 inside in (r, at, t, on),
  λ (r, at, t, on).
      (Memᴰ-sorted_by sort_key e _).1
        ((Memᴰ-flat_map (edges_at n) e rs).1 (r, at, (Memᴰ-edges_at n r e).1 (t, on))),
)

-- They ascend by the sort key.
pub directed_edges_by_dataset-IsSortedBy :
    (rs : List JoinRelationship) (n : Text) → IsSortedBy sort_key (directed_edges_by_dataset rs n)
unfolding directed_edges_by_dataset
directed_edges_by_dataset-IsSortedBy rs n = sorted_by-IsSortedBy sort_key (flat_map (edges_at n) rs)

-- how many endpoints of the relationships lie on a dataset
abbrev pub endpoints_on : List JoinRelationship → Text → ℕ
endpoints_on [] n = 0
endpoints_on (r ∷ rs) n =
    (if r.endpoint_a.node_id == n then 1 else 0)
    + (if r.endpoint_b.node_id == n then 1 else 0)
    + endpoints_on rs n

-- A dataset has one directed edge for each endpoint on it, so two for a relationship with itself.
pub length-directed_edges_by_dataset :
    (rs : List JoinRelationship) (n : Text)
    → length (directed_edges_by_dataset rs n) ≡ endpoints_on rs n
unfolding directed_edges_by_dataset
length-directed_edges_by_dataset rs n =
    length-sorted_by sort_key (flat_map (edges_at n) rs) ∙ counted rs
  where
    one : (b : Bool) (x : DirectedEdge) → length (if b then x ∷ [] else []) ≡ (if b then 1 else 0)
    one true x = refl
    one false x = refl

    counted : (xs : List JoinRelationship) → length (flat_map (edges_at n) xs) ≡ endpoints_on xs n
    counted [] = refl
    counted (r ∷ xs) = rw (
      length-append (edges_at n r) (flat_map (edges_at n) xs),
      counted xs,
      length-append (if r.endpoint_a.node_id == n then from_left r ∷ [] else [])
          (if r.endpoint_b.node_id == n then from_right r ∷ [] else []),
      one (r.endpoint_a.node_id == n) (from_left r),
      one (r.endpoint_b.node_id == n) (from_right r),
    )

-- The directions of a directed edge are those of its relationship, the one from its source first.
pub record IsDirectedFrom (r : JoinRelationship) (key : DefinitionKey) (e : DirectedEdge)
    : Type 0 where
  pub traverses : IsTraversal r e
  pub starts : identity_key e.source ≡ key
  pub directions :
      ((key ≡ identity_key r.endpoint_a)
        × (outgoing e ≡ r.a_to_b)
        × (reverse_direction e ≡ r.b_to_a))
      ⊎ ((key ≡ identity_key r.endpoint_b)
          × (outgoing e ≡ r.b_to_a)
          × (reverse_direction e ≡ r.a_to_b))

some_injective : {x y : DirectedEdge} → ◌≡◌ {A = Option DirectedEdge} (some x) (some y) → x ≡ y
some_injective h = cc

not_same : (k l : DefinitionKey) → (¬ (k ≡ l)) → (k == l) ≡ false
not_same k l apart = elim (Bool-cases (k == l)) [
  | inl same ↦ absurd (apart (==→≡ k l same))
  | inr other ↦ other
]

module _ (r : JoinRelationship)
    (apart : ¬ (identity_key r.endpoint_a ≡ identity_key r.endpoint_b)) where
  from_left-IsDirectedFrom : IsDirectedFrom r (identity_key r.endpoint_a) (from_left r)
  unfolding outgoing reverse_direction
  from_left-IsDirectedFrom = record {
    traverses = inl refl;
    starts = refl;
    directions =
        inl (
          refl,
          rw (==-self (identity_key r.endpoint_a)),
          rw (==-self (identity_key r.endpoint_a)),
        );
  }

  from_right-IsDirectedFrom : IsDirectedFrom r (identity_key r.endpoint_b) (from_right r)
  unfolding outgoing reverse_direction
  from_right-IsDirectedFrom =
      let other = not_same _ _ (λ same. apart (sym same)) in
      record { traverses = inr refl; starts = refl; directions = inr (refl, rw other, rw other) }

  left_edge : directed_edge_from r (identity_key r.endpoint_a) ≡ some (from_left r)
  unfolding directed_edge_from
  left_edge = rw (==-self (identity_key r.endpoint_a))

  right_edge : directed_edge_from r (identity_key r.endpoint_b) ≡ some (from_right r)
  unfolding directed_edge_from
  right_edge = rw (not_same _ _ apart, ==-self (identity_key r.endpoint_b))

  -- Where the endpoints of a relationship have different keys, asking for its directed edge from a
  -- key returns an edge exactly when the edge is the traversal that starts at the key, with the
  -- direction from there as its outgoing one.
  pub directed_edge_from_iff :
      (key : DefinitionKey) (e : DirectedEdge)
      → (directed_edge_from r key ≡ some e) ↔ IsDirectedFrom r key e
  unfolding directed_edge_from
  directed_edge_from_iff key e = (finds, gives)
    where
      finds : directed_edge_from r key ≡ some e → IsDirectedFrom r key e
      finds h = elim (Bool-cases (identity_key r.endpoint_a == key)) [
        | inl left ↦
            subst (IsDirectedFrom r key) (some_injective (sym (rw left) ∙ h)) (
              subst (λ k. IsDirectedFrom r k (from_left r)) (==→≡ _ _ left)
                from_left-IsDirectedFrom)
        | inr other ↦ elim (Bool-cases (identity_key r.endpoint_b == key)) [
          | inl right ↦
              subst (IsDirectedFrom r key) (some_injective (sym (rw (other, right)) ∙ h)) (
                subst (λ k. IsDirectedFrom r k (from_right r)) (==→≡ _ _ right)
                  from_right-IsDirectedFrom)
          | inr neither ↦ absurd (ground arith)
        ]
      ]

      gives : IsDirectedFrom r key e → directed_edge_from r key ≡ some e
      gives d =
          ⊎_elim
            (λ same.
              let at = sym d.starts ∙ ap (λ (x : DirectedEdge). identity_key x.source) same in
              ap (directed_edge_from r) at ∙ left_edge ∙ ap some (sym same))
            (λ same.
              let at = sym d.starts ∙ ap (λ (x : DirectedEdge). identity_key x.source) same in
              ap (directed_edge_from r) at ∙ right_edge ∙ ap some (sym same))
            d.traverses
