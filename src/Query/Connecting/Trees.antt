-- ===== src/Query/Connecting/Trees.antt =====
-- The tree that is read back contains every terminal and joins all its datasets, and a result without
-- one means that two terminals are not joined at all.
use mathlib.Core.List.Memᴰ
use data_ontology_graph.Prelude.{
  ℕ, zero, suc, ◌+◌, ◌<◌, Text, List, [], ◌∷◌, map, Bool-cases, contains, contains_iff, length,
  IsDistinct, not-contains, Memᴰ, ◌≡◌, ◌⊎◌, refl, sym, ap, ◌∙◌, subst, inl, inr, ⊎_elim, some,
  arith, nat_order, list_order,
}
use data_ontology_graph.Model.Relationship.{JoinRelationship}
use data_ontology_graph.Query.Paths.Traced.{some_injective}
use data_ontology_graph.Query.Connecting.{Entry}
use data_ontology_graph.Query.Connecting.Regions.{
  Adjacency, Regions, Tree, climb, steps_back, read_boundaries,
}
use data_ontology_graph.Query.Connecting.Grown.{IsEdge, IsGrown, IsBoundary}
use data_ontology_graph.Query.Connecting.Reached.{ordered-cases}

-- Two datasets are joined by edges with these IDs.
pub data Joined (adjacency : Adjacency) (ids : List Text) : Text → Text → Type 0 where
  stay : {x : Text} → Joined adjacency ids x x
  cross :
      {x y : Text} {e : JoinRelationship}
      → IsEdge adjacency e x y
      → Memᴰ e.edge_id ids
      → Joined adjacency ids x y
  back : {x y : Text} → Joined adjacency ids x y → Joined adjacency ids y x
  chain :
      {x y z : Text}
      → Joined adjacency ids x y
      → Joined adjacency ids y z
      → Joined adjacency ids x z

-- One dataset is reached from the other along edges.
pub data Reaches (adjacency : Adjacency) : Text → Text → Type 0 where
  here : {x : Text} → Reaches adjacency x x
  along :
      {x y z : Text} {e : JoinRelationship}
      → Reaches adjacency x y
      → IsEdge adjacency e y z
      → Reaches adjacency x z

pub Joined-more :
    {adjacency : Adjacency} {ids ids' : List Text} {x y : Text}
    → ((id : Text) → Memᴰ id ids → Memᴰ id ids')
    → Joined adjacency ids x y
    → Joined adjacency ids' x y
Joined-more more Joined.stay = Joined.stay
Joined-more more (Joined.cross edge m) = Joined.cross edge (more _ m)
Joined-more more (Joined.back j) = Joined.back (Joined-more more j)
Joined-more more (Joined.chain j k) = Joined.chain (Joined-more more j) (Joined-more more k)

module _ (adjacency : Adjacency) (terminals : List Text) (s : Regions)
    (g : IsGrown adjacency terminals s) where
  -- a node of the tree leads back: it is a terminal, or its step back is in the tree
  abbrev LeadsBack : Tree → (Text → Type 0) → Text → Type 0
  LeadsBack t pending x =
      ((r : Text) × (s.owner x ≡ some r))
      × (Memᴰ x terminals
          ⊎ ((y : Text) × (e : JoinRelationship) × (s.predecessor x ≡ some (y, e))
              × Memᴰ e.edge_id t.edge_ids
              × (Memᴰ y t.nodes ⊎ pending y)))

  abbrev Nowhere : Text → Type 0
  Nowhere y = ⊥

  pub record IsClosed (t : Tree) : Type 0 where
    pub leads : (x : Text) → Memᴰ x t.nodes → LeadsBack t Nowhere x
    pub has_terminals : (x : Text) → Memᴰ x terminals → Memᴰ x t.nodes

  -- What is added keeps the tree, and adds one edge with each node.
  pub record Widens (t t' : Tree) : Type 0 where
    pub distinct : IsDistinct t.nodes → IsDistinct t'.nodes
    pub balance : length t'.edge_ids + length t.nodes ≡ length t.edge_ids + length t'.nodes
    pub nodes_kept : (x : Text) → Memᴰ x t.nodes → Memᴰ x t'.nodes
    pub ids_kept : (id : Text) → Memᴰ id t.edge_ids → Memᴰ id t'.edge_ids

  climb_lem :
      (rounds : ℕ) (t : Tree) (current r : Text) (n : ℕ)
      → s.owner current ≡ some r
      → s.distance current ≡ some n
      → n < rounds
      → ((x : Text) → Memᴰ x t.nodes → LeadsBack t (λ y. y ≡ current) x)
      → ((x : Text) → Memᴰ x terminals → Memᴰ x t.nodes)
      → (t' : Tree) × (climb rounds s.predecessor t current ≡ some t')
        × IsClosed t'
        × Widens t t'
        × Memᴰ current t'.nodes
  unfolding climb
  climb_lem zero t current r n o d h leads has = absurd (omega arith)
  climb_lem (suc rounds) t current r n o d h leads has =
      elim (Bool-cases (contains t.nodes current)) [
        | inl known ↦
            let inside = (contains_iff t.nodes current).0 known in
            (
              t,
              rw (climb, known) refl,
              record {
                leads = λ x m.
                    let (owned, how) = leads x m in
                    (
                      owned,
                      ⊎_elim inl
                          (λ (y, e, p, id, where_).
                            inr (y, e, p, id, ⊎_elim inl (λ q. inl (Memᴰ.cast q inside)) where_))
                          how,
                    );
                has_terminals = has;
              },
              record {
                distinct = λ d. d;
                balance = refl;
                nodes_kept = λ x m. m;
                ids_kept = λ id m. m;
              },
              inside,
            )
        | inr new ↦
            let (known, (n', d', how)) = g.owned current r o in
            ⊎_elim
              (λ q. absurd (not-contains t.nodes current new (has current (Memᴰ.cast q known))))
              (λ (y, e, m, p, edge, o', d'', less).
                let same = some_injective (sym d ∙ d') in
                let t1 : Tree = record {
                  nodes = current ∷ t.nodes;
                  edge_ids = e.edge_id ∷ t.edge_ids;
                } in
                let (t', e', closed, wider, at) =
                  climb_lem rounds t1 y r m o' d'' (omega arith)
                    (λ x at.
                      ⊎_elim
                        (λ q. (
                          (r, ap s.owner q ∙ o),
                          inr (y, e, ap s.predecessor q ∙ p, Memᴰ.head refl, inr refl),
                        ))
                        (λ old.
                          let (owned, how') = leads x old in
                          (
                            owned,
                            ⊎_elim inl
                                (λ (z, f, p', id, where_).
                                  inr (
                                    z,
                                    f,
                                    p',
                                    Memᴰ.tail id,
                                    inl (⊎_elim Memᴰ.tail Memᴰ.head where_),
                                  ))
                                how',
                          ))
                        (Memᴰ.cases_cons at))
                    (λ x m'. Memᴰ.tail (has x m')) in
                (
                  t',
                  rw (climb, new, p) e',
                  closed,
                  record {
                    distinct = λ d0. wider.distinct (not-contains t.nodes current new, d0);
                    balance = omega (arith, wider.balance);
                    nodes_kept = λ x m'. wider.nodes_kept x (Memᴰ.tail m');
                    ids_kept = λ id m'. wider.ids_kept id (Memᴰ.tail m');
                  },
                  wider.nodes_kept current (Memᴰ.head refl),
                ))
              how
      ]

  -- The way back from a dataset with an owner, in the rounds that its distance gives.
  climb_back :
      (t : Tree) (current r : Text)
      → s.owner current ≡ some r
      → IsClosed t
      → (t' : Tree) × (climb (steps_back (s.distance current)) s.predecessor t current ≡ some t')
        × IsClosed t'
        × Widens t t'
        × Memᴰ current t'.nodes
  climb_back t current r o closed =
      let (_, (n, d, _)) = g.owned current r o in
      rw d (
        climb_lem (n + 2) t current r n o d (omega arith)
          (λ x m.
            let (owned, how) = closed.leads x m in
            (
              owned,
              ⊎_elim inl
                  (λ (y, e, p, id, where_). inr (y, e, p, id, ⊎_elim inl (λ q. absurd q) where_))
                  how,
            ))
          closed.has_terminals)

  -- A node of a closed tree is joined to the terminal of its region by the tree's edges.
  pub Joined-to_owner :
      (t : Tree)
      → IsClosed t
      → (rounds : ℕ) (x r : Text) (n : ℕ) → s.owner x ≡ some r
      → s.distance x ≡ some n
      → n < rounds
      → Memᴰ x t.nodes
      → Joined adjacency t.edge_ids x r
  Joined-to_owner t c zero x r n o d h m = absurd (omega arith)
  Joined-to_owner t c (suc rounds) x r n o d h m =
      let (_, leads) = c.leads x m in
      let (known, (n', d', how)) = g.owned x r o in
      let same = some_injective (sym d ∙ d') in
      ⊎_elim (λ q. subst (λ z. Joined adjacency t.edge_ids x z) q Joined.stay)
        (λ (y, e, k, p, edge, o', d'', less).
          ⊎_elim
            (λ terminal.
              let own = some_injective (sym (g.rooted x terminal).0 ∙ o) in
              subst (λ z. Joined adjacency t.edge_ids x z) own Joined.stay)
            (λ (y', e', p', id, where_).
              let pair = some_injective (sym p ∙ p') in
              let y_y' = ap (λ (q : Text × JoinRelationship). q.0) pair in
              let e_e' = ap (λ (q : Text × JoinRelationship). q.1.edge_id) pair in
              let inside = ⊎_elim (λ z. z) (λ z. absurd z) where_ in
              Joined.chain (Joined.back (Joined.cross edge (Memᴰ.cast e_e' id)))
                (Joined-to_owner t c rounds y r k o' d'' (omega arith) (Memᴰ.cast y_y' inside)))
            leads)
        how

  pub Joined-in_region :
      (t : Tree)
      → IsClosed t
      → (x r : Text) → s.owner x ≡ some r
      → Memᴰ x t.nodes
      → Joined adjacency t.edge_ids x r
  Joined-in_region t c x r o m =
      let (_, (n, d, _)) = g.owned x r o in Joined-to_owner t c (suc n) x r n o d (omega arith) m

  -- the boundary is in the tree with both its ends
  abbrev pub IsRead : Tree → Entry → Type 0
  IsRead t entry =
      Memᴰ entry.1.edge_id t.edge_ids × Memᴰ entry.1.left t.nodes × Memᴰ entry.1.right t.nodes

  ends_owned :
      (entry : Entry)
      → IsBoundary adjacency s entry
      → ((r : Text) × (s.owner entry.1.left ≡ some r))
        × ((r : Text) × (s.owner entry.1.right ≡ some r))
  ends_owned entry (x, y, e, r, r', edge, o, o', pair, ends, id) =
      ⊎_elim
        (λ same.
          let q = ends ∙ same in
          (
            (r, ap (λ (p : Text × Text). s.owner p.0) q ∙ o),
            (r', ap (λ (p : Text × Text). s.owner p.1) q ∙ o'),
          ))
        (λ turned.
          let q = ends ∙ turned in
          (
            (r', ap (λ (p : Text × Text). s.owner p.0) q ∙ o'),
            (r, ap (λ (p : Text × Text). s.owner p.1) q ∙ o),
          ))
        (ordered-cases x y)

  -- The same with the edges of so many boundaries besides.
  pub record WidensBy (boundaries : ℕ) (t t' : Tree) : Type 0 where
    pub distinct : IsDistinct t.nodes → IsDistinct t'.nodes
    pub balance :
        length t'.edge_ids + length t.nodes ≡ boundaries + length t.edge_ids + length t'.nodes
    pub nodes_kept : (x : Text) → Memᴰ x t.nodes → Memᴰ x t'.nodes
    pub ids_kept : (id : Text) → Memᴰ id t.edge_ids → Memᴰ id t'.edge_ids

  pub read_boundaries_lem :
      (chosen : List Entry) (t : Tree)
      → ((e : Entry) → Memᴰ e chosen → IsBoundary adjacency s e)
      → IsClosed t
      → (t' : Tree) × (read_boundaries s t (map (λ (e : Entry). e.1) chosen) ≡ some t')
        × IsClosed t'
        × WidensBy (length chosen) t t'
        × ((e : Entry) → Memᴰ e chosen → IsRead t' e)
  unfolding read_boundaries
  read_boundaries_lem [] t bounds closed = (
    t,
    refl,
    closed,
    record {
      distinct = λ d. d;
      balance = omega arith;
      nodes_kept = λ x m. m;
      ids_kept = λ id m. m;
    },
    λ e m. absurd (Memᴰ.not-nil m),
  )
  read_boundaries_lem (b ∷ chosen) t bounds closed =
      let ((r, o), (r', o')) = ends_owned b (bounds b (Memᴰ.head refl)) in
      let t0 : Tree = record { nodes = t.nodes; edge_ids = b.1.edge_id ∷ t.edge_ids } in
      let closed0 : IsClosed t0 = record {
        leads = λ x m.
            let (owned, how) = closed.leads x m in
            (owned, ⊎_elim inl (λ (y, e, p, id, where_). inr (y, e, p, Memᴰ.tail id, where_)) how);
        has_terminals = closed.has_terminals;
      } in
      let (t1, e1, c1, w1, m1) = climb_back t0 b.1.left r o closed0 in
      let (t2, e2, c2, w2, m2) = climb_back t1 b.1.right r' o' c1 in
      let (t3, e3, c3, w3, read) =
        read_boundaries_lem chosen t2 (λ e m. bounds e (Memᴰ.tail m)) c2 in
      (
        t3,
        rw (e1, e2) e3,
        c3,
        record {
          distinct = λ d. w3.distinct (w2.distinct (w1.distinct d));
          balance = omega (arith, w1.balance, w2.balance, w3.balance);
          nodes_kept = λ x m. w3.nodes_kept x (w2.nodes_kept x (w1.nodes_kept x m));
          ids_kept = λ id m. w3.ids_kept id (w2.ids_kept id (w1.ids_kept id (Memᴰ.tail m)));
        },
        λ e m.
            ⊎_elim
              (λ q.
                subst (λ (z : Entry). IsRead t3 z) (sym q)
                  (
                    w3.ids_kept b.1.edge_id (w2.ids_kept _ (w1.ids_kept _ (Memᴰ.head refl))),
                    w3.nodes_kept b.1.left (w2.nodes_kept _ m1),
                    w3.nodes_kept b.1.right m2,
                  ))
              (read e) (Memᴰ.cases_cons m),
      )
