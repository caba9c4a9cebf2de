-- ===== src/Query/Paths/Steps.antt =====
-- The steps of the searched graph, described apart from the order in which they are listed.
use mathlib.Core.List.Memᴰ
use data_ontology_graph.Prelude.{
  ℕ, Text, List, Bool, true, false, not, ◌||◌, contains, contains_of_not, not-contains, Bool-cases,
  both_ways, ◌≡◌, ◌≢◌, ◌↔◌, refl, sym, ap, subst, Memᴰ, Memᴰ-map, Memᴰ-select, Option, ◌==◌, ==→≡,
  ≡→==, Order, arith, nat_order, list_order, pair_order, and_parts, inl, inr,
}
use data_ontology_graph.Model.Enums.{Multiplicity}
use data_ontology_graph.Query.Paths.{
  State, state_order, PathGraph, Leaving, Without, node_of, is_allowed, may_pivot, may_leave,
  successors,
}

pub absent_iff :
    {A : Type 0} ⦃o : Order A⦄ (xs : List A) (a : A) → (not (contains xs a) ≡ true) ↔ (¬ Memᴰ a xs)
absent_iff xs a = (λ h. not-contains xs a (ground arith), λ h. rw (contains_of_not xs a h))

neither : (a b : Bool) → not (a || b) ≡ true → (a ≡ false) × (b ≡ false)
neither a b h = ground arith

unequal : {A : Type 0} ⦃o : Order A⦄ (a b : A) → a ≢ b → (a == b) ≡ false
unequal a b ne = elim (Bool-cases (a == b)) [
  | inl same ↦ absurd (ne (==→≡ a b same))
  | inr other ↦ other
]

module _ (g : PathGraph) (from to : Text) (allowed : Option (List Multiplicity)) where
  -- From the start to the definitions of its dataset; from an arrival to the other definitions of
  -- the dataset, or to the end on the target dataset; and across an allowed relationship.
  abbrev pub IsStep : State → State → ℕ → Type 0
  IsStep State.source (State.ready d) c = (c ≡ 0) × Memᴰ d (g.on_dataset from)
  IsStep (State.ready a) (State.arrived b) c =
      (c ≡ 1)
      × (m : Multiplicity) × (id : Text) × Memᴰ (b, m, id) (g.edges a)
      × (is_allowed g from to allowed m ≡ true)
  IsStep (State.arrived d) State.target c = (c ≡ 0) × (node_of g d ≡ to)
  IsStep (State.arrived d) (State.ready other) c =
      (c ≡ 0) × (node_of g d ≢ to) × (other ≢ d) × Memᴰ other (g.on_dataset (node_of g d))
  IsStep _ _ c = ⊥

  -- the step is not left out
  abbrev pub IsFree : Without → State → State → Type 0
  IsFree w x State.source = ⊥
  IsFree w x State.target = ¬ Memᴰ (x, State.target) w.removed
  IsFree w x (State.ready d) = (¬ Memᴰ d w.blocked) × (¬ Memᴰ (x, State.ready d) w.removed)
  IsFree w x (State.arrived d) = (¬ Memᴰ d w.blocked) × (¬ Memᴰ (x, State.arrived d) w.removed)

  module _ (w : Without) where
    may_pivot_iff :
        (x : State) (d : ℕ)
        → (may_pivot g from to allowed w x d ≡ true) ↔ IsFree w x (State.ready d)
    may_pivot_iff x d = (
      λ h.
          let (a, b) = and_parts _ _ h in
          ((absent_iff w.blocked d).0 a, (absent_iff w.removed (x, State.ready d)).0 b),
      λ (a, b). rw ((absent_iff w.blocked d).1 a, (absent_iff w.removed (x, State.ready d)).1 b),
    )

    may_leave_iff :
        (x : State) (d : ℕ) (m : Multiplicity) (id : Text)
        → (may_leave g from to allowed w x (d, m, id) ≡ true)
          ↔ (IsFree w x (State.arrived d) × (is_allowed g from to allowed m ≡ true))
    may_leave_iff x d m id = (
      λ h.
          let (a, b) = and_parts _ _ h in
          let (blocked, removed) = neither _ _ a in
          (
            (not-contains w.blocked d blocked, not-contains w.removed (x, State.arrived d) removed),
            b,
          ),
      λ ((a, b), c).
          rw (contains_of_not w.blocked d a, contains_of_not w.removed (x, State.arrived d) b, c),
    )

    listed :
        (x : State) (y : State) (c : ℕ)
        → Memᴰ (y, c) (successors g from to allowed w x)
        → IsStep x y c × IsFree w x y
    unfolding successors
    listed State.source y c = λ m.
        let (d, at, e) = (Memᴰ-map (λ d. (State.ready d, 0)) (y, c) _).0 m in
        let (on, free) = (Memᴰ-select (may_pivot g from to allowed w State.source) d _).0 at in
        subst (λ (p : State × ℕ). IsStep State.source p.0 p.1 × IsFree w State.source p.0) e
          ((refl, on), (may_pivot_iff State.source d).0 free)
    listed State.target y c = λ m. absurd (Memᴰ.not-nil m)
    listed (State.ready a) y c = λ m.
        let ((b, k, id), at, e) =
          (Memᴰ-map (λ (edge : Leaving). (State.arrived edge.0, 1)) (y, c) _).0 m in
        let (on, open_) =
          (Memᴰ-select (may_leave g from to allowed w (State.ready a)) (b, k, id) _).0 at in
        let (free, wanted) = (may_leave_iff (State.ready a) b k id).0 open_ in
        subst (λ (p : State × ℕ). IsStep (State.ready a) p.0 p.1 × IsFree w (State.ready a) p.0) e
          ((refl, k, id, on, wanted), free)
    listed (State.arrived d) y c = elim (Bool-cases (node_of g d == to)) [
      | inl end_ ↦ elim (Bool-cases (contains w.removed (State.arrived d, State.target))) [
        | inl out ↦ rw (end_, out) (λ m. absurd (Memᴰ.not-nil m))
        | inr free ↦
            rw (end_, free)
              (λ m.
                subst
                  (λ (p : State × ℕ).
                    IsStep (State.arrived d) p.0 p.1 × IsFree w (State.arrived d) p.0)
                  (sym (Memᴰ.eq_of_singleton m))
                  ((refl, ==→≡ (node_of g d) to end_), not-contains w.removed _ free))
      ]
      | inr on_way ↦ rw on_way (λ m.
          let (o, at, e) = (Memᴰ-map (λ (o : ℕ). (State.ready o, 0)) (y, c) _).0 m in
          let (on, free) = (Memᴰ-select _ o _).0 at in
          let (apart, pivot) = and_parts _ _ free in
          subst
            (λ (p : State × ℕ). IsStep (State.arrived d) p.0 p.1 × IsFree w (State.arrived d) p.0) e
            (
              (
                refl,
                (λ q. both_ways (≡→== (node_of g d) to q) on_way),
                (λ q. both_ways {b = o == d} (≡→== o d q) (ground arith)),
                on,
              ),
              (may_pivot_iff (State.arrived d) o).0 pivot,
            ))
    ]

    lists :
        (x : State) (y : State) (c : ℕ)
        → IsStep x y c
        → IsFree w x y
        → Memᴰ (y, c) (successors g from to allowed w x)
    unfolding successors
    lists State.source (State.ready d) c (e, on) free =
        (Memᴰ-map (λ d. (State.ready d, 0)) (State.ready d, c) _).1 (
          d,
          (Memᴰ-select (may_pivot g from to allowed w State.source) d _).1
              (on, (may_pivot_iff State.source d).1 free),
          ap (λ n. (State.ready d, n)) (sym e),
        )
    lists (State.ready a) (State.arrived b) c (e, k, id, on, wanted) free =
        (Memᴰ-map (λ (edge : Leaving). (State.arrived edge.0, 1)) (State.arrived b, c) _).1 (
          (b, k, id),
          (Memᴰ-select (may_leave g from to allowed w (State.ready a)) (b, k, id) _).1
              (on, (may_leave_iff (State.ready a) b k id).1 (free, wanted)),
          ap (λ n. (State.arrived b, n)) (sym e),
        )
    lists (State.arrived d) State.target c (e, end_) free =
        rw (≡→== (node_of g d) to end_, contains_of_not w.removed _ free)
          (Memᴰ.head (ap (λ n. (State.target, n)) e))
    lists (State.arrived d) (State.ready o) c (e, on_way, apart, on) free =
        rw (unequal (node_of g d) to on_way) (
          (Memᴰ-map (λ (o : ℕ). (State.ready o, 0)) (State.ready o, c) _).1 (
            o,
            (Memᴰ-select _ o _).1
                (on, rw (unequal o d apart) ((may_pivot_iff (State.arrived d) o).1 free)),
            ap (λ n. (State.ready o, n)) (sym e),
          ))
    lists State.source State.source c h free = absurd h
    lists State.source State.target c h free = absurd h
    lists State.source (State.arrived e) c h free = absurd h
    lists State.target State.source c h free = absurd h
    lists State.target State.target c h free = absurd h
    lists State.target (State.ready e) c h free = absurd h
    lists State.target (State.arrived e) c h free = absurd h
    lists (State.ready d) State.source c h free = absurd h
    lists (State.ready d) State.target c h free = absurd h
    lists (State.ready d) (State.ready e) c h free = absurd h
    lists (State.arrived d) State.source c h free = absurd h
    lists (State.arrived d) (State.arrived e) c h free = absurd h

    -- The listed successors of a state with their costs are its steps that are not left out.
    pub successors_iff :
        (x y : State) (c : ℕ)
        → Memᴰ (y, c) (successors g from to allowed w x) ↔ (IsStep x y c × IsFree w x y)
    successors_iff x y c = (listed x y c, λ (step, free). lists x y c step free)
