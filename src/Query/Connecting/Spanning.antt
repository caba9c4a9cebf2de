-- ===== src/Query/Connecting/Spanning.antt =====
-- `_spanning_boundaries` returns a spanning tree of the terminals.
use mathlib.Core.List.Memᴰ
use data_ontology_graph.Prelude.{
  ℕ, suc, ◌+◌, Text, List, [], ◌∷◌, ◌++◌, false, Bool-cases, arith, ◌≡◌, ◌≢◌, refl, sym, ap, ◌∙◌,
  subst, inl, inr, ⊎_elim, Memᴰ, Memᴰ-snoc, map, length, length-append, IsDistinct, Option, ◌==◌,
  ==→≡, ==-self, nat_order, list_order, pair_order, quad_order,
}
use data_ontology_graph.Query.Connecting.{DisjointSets, new_sets, Candidate, Entry, too_dear}
use data_ontology_graph.Query.Connecting.Sets.{Represents, relabel}
use data_ontology_graph.Query.Connecting.Leaders.{leaders, leaders-relabel}

-- Two regions are linked by some of the boundaries.
pub data Linked (chosen : List Entry) : Text → Text → Type 0 where
  stay : {x : Text} → Linked chosen x x
  across : {entry : Entry} → Memᴰ entry chosen → Linked chosen entry.0.0 entry.0.1
  back : {x y : Text} → Linked chosen x y → Linked chosen y x
  chain : {x y z : Text} → Linked chosen x y → Linked chosen y z → Linked chosen x z

pub grow :
    {chosen : List Entry} {x y : Text} (entry : Entry)
    → Linked chosen x y
    → Linked (chosen ++ entry ∷ []) x y
grow entry stay = stay
grow entry (across m) = across (Memᴰ.append_left (entry ∷ []) m)
grow entry (back l) = back (grow entry l)
grow entry (chain l r) = chain (grow entry l) (grow entry r)

pub new_sets-Represents : (nodes : List Text) → Represents (new_sets nodes) (λ x. x)
unfolding new_sets
new_sets-Represents nodes = record {
  at_root = λ x e. refl;
  along = λ x. refl;
  ranked = λ x ne. absurd (ne refl);
  closed = λ x m. m;
  outside = λ x apart. refl;
}

leaders-start : (nodes : List Text) → leaders nodes (λ x. x) ≡ nodes
leaders-start [] = refl
leaders-start (n ∷ nodes) = rw (==-self n) (ap (◌∷◌ n) (leaders-start nodes))

-- boundaries that span: one less than terminals, affordable, and linking every two of them
pub record IsSpanning (terminals : List Text) (max_cost : Option ℕ) (candidates : List Entry)
    (boundaries : List Candidate) : Type 0 where
  pub chosen : List Entry
  pub from_candidates :
      (e : Entry) → Memᴰ e chosen → Memᴰ e candidates × (too_dear max_cost e.1.cost ≡ false)
  pub are_boundaries : boundaries ≡ map (λ (e : Entry). e.1) chosen
  pub one_less : suc (length boundaries) ≡ length terminals
  pub linked : (x y : Text) → Memᴰ x terminals → Memᴰ y terminals → Linked chosen x y

module _ (terminals : List Text) (max_cost : Option ℕ) (candidates : List Entry)
    (d : IsDistinct terminals)
    (among : (e : Entry) → Memᴰ e candidates → Memᴰ e.0.0 terminals × Memᴰ e.0.1 terminals) where
  -- the state of the loop: the sets label each terminal with one it is linked to
  pub record IsState (sets : DisjointSets) (label : Text → Text) (boundaries : List Candidate)
      (chosen : List Entry) : Type 0 where
    pub represents : Represents sets label
    pub nodes : sets.nodes ≡ terminals
    pub are_boundaries : boundaries ≡ map (λ (e : Entry). e.1) chosen
    pub from_candidates :
        (e : Entry) → Memᴰ e chosen → Memᴰ e candidates × (too_dear max_cost e.1.cost ≡ false)
    pub counted : length (leaders terminals label) + length boundaries ≡ length terminals
    pub linked : (x : Text) → Linked chosen x (label x)

  pub start-IsState : IsState (new_sets terminals) (λ x. x) [] []
  unfolding new_sets
  start-IsState = record {
    represents = new_sets-Represents terminals;
    nodes = refl;
    are_boundaries = refl;
    from_candidates = λ e m. absurd (Memᴰ.not-nil m);
    counted = omega (arith, ap length (leaders-start terminals));
    linked = λ x. stay;
  }

  map_snoc :
      (chosen : List Entry) (e : Entry)
      → map (λ (x : Entry). x.1) (chosen ++ e ∷ []) ≡ map (λ (x : Entry). x.1) chosen ++ e.1 ∷ []
  map_snoc [] e = refl
  map_snoc (c ∷ chosen) e = ap (◌∷◌ c.1) (map_snoc chosen e)

  module _ (sets : DisjointSets) (label : Text → Text) (boundaries : List Candidate)
      (chosen : List Entry) (s : IsState sets label boundaries chosen) (e : Entry)
      (at : Memᴰ e candidates) (cheap : too_dear max_cost e.1.cost ≡ false) where
    -- the loop's state after a join that found two sets
    pub joined-IsState :
        (after : DisjointSets) (keep drop : Text)
        → after.nodes ≡ sets.nodes
        → Represents after (relabel label keep drop)
        → Linked (chosen ++ e ∷ []) drop keep
        → label keep ≡ keep
        → label drop ≡ drop
        → Memᴰ drop terminals
        → keep ≢ drop
        → IsState after (relabel label keep drop) (boundaries ++ e.1 ∷ []) (chosen ++ e ∷ [])
    joined-IsState after keep drop nodes represents link own_keep own_drop inside ne = record {
      represents = represents;
      nodes = nodes ∙ s.nodes;
      are_boundaries = ap (λ bs. bs ++ e.1 ∷ []) s.are_boundaries ∙ sym (map_snoc chosen e);
      from_candidates = λ x m.
          ⊎_elim (s.from_candidates x)
            (λ same.
              subst (λ (y : Entry). Memᴰ y candidates × (too_dear max_cost y.1.cost ≡ false))
                (sym same) (at, cheap))
            ((Memᴰ-snoc x e chosen).0 m);
      counted = omega (
        arith,
        s.counted,
        length-append boundaries (e.1 ∷ []),
        leaders-relabel terminals label keep drop d inside own_keep own_drop ne,
      );
      linked = λ x. elim (Bool-cases (label x == drop)) [
        | inl gone ↦ rw gone (
            chain
              (subst (Linked (chosen ++ e ∷ []) x) (==→≡ (label x) drop gone) (grow e (s.linked x)))
              link)
        | inr kept ↦ rw kept (grow e (s.linked x))
      ];
    }
