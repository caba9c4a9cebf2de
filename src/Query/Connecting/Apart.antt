-- ===== src/Query/Connecting/Apart.antt =====
-- What the end of the loop of `_spanning_boundaries` says of the terminals.
use mathlib.Core.List.Memᴰ
use data_ontology_graph.Prelude.{
  ℕ, suc, ◌<◌, ◌≤◌, Text, List, [], ◌∷◌, true, not, Bool-cases, arith, ◌≡◌, ◌≢◌, refl, sym, ap, ◌∙◌,
  subst, inl, inr, Memᴰ, Memᴰ-select, length, select, IsDistinct, IsDistinct-select, Option, none,
  some, if◌then◌else◌, ◌==◌, ◌<=◌, ==→≡, ≡→==, nat_order, list_order, pair_order, quad_order,
}
use data_ontology_graph.Query.Connecting.{DisjointSets, Candidate, Entry, candidate_key, too_dear}
use data_ontology_graph.Query.Connecting.Sets.{relabel}
use data_ontology_graph.Query.Connecting.Leaders.{leaders, label-label, label-mem}
use data_ontology_graph.Query.Connecting.Spanning.{
  Linked, stay, across, back, chain, IsSpanning, IsState,
}

pub cost_ascends : (a b : Entry) → (candidate_key a <= candidate_key b) ≡ true → a.1.cost ≤ b.1.cost
cost_ascends a b h = ground arith

pub dearer :
    (limit : Option ℕ) (a b : ℕ) → too_dear limit a ≡ true → a ≤ b → too_dear limit b ≡ true
dearer none a b h le = cc
dearer (some limit) a b h le = ground arith

pub relabel-joined :
    (label : Text → Text) (x y : Text)
    → label x ≢ label y
    → relabel label (label x) (label y) x ≡ relabel label (label x) (label y) y
relabel-joined label x y ne = elim (Bool-cases (label x == label y)) [
  | inl same ↦ absurd (ne (==→≡ (label x) (label y) same))
  | inr other ↦ rw (other, ≡→== (label y) (label y) refl)
]

pub relabel-joined_back :
    (label : Text → Text) (x y : Text)
    → label x ≢ label y
    → relabel label (label y) (label x) x ≡ relabel label (label y) (label x) y
relabel-joined_back label x y ne = sym (relabel-joined label y x (λ e. ne (sym e)))

pub relabel-keeps :
    (label : Text → Text) (keep drop a b : Text)
    → label a ≡ label b
    → relabel label keep drop a ≡ relabel label keep drop b
relabel-keeps label keep drop a b e = ap (λ l. if l == drop then keep else l) e

-- the candidates within the cost
abbrev pub affordable : Option ℕ → List Entry → List Entry
affordable max_cost candidates = select (λ (e : Entry). not (too_dear max_cost e.1.cost)) candidates

-- two of the terminals that the affordable candidates do not link
pub record AreApart (terminals : List Text) (max_cost : Option ℕ) (candidates : List Entry)
    : Type 0 where
  pub one : Text
  pub other : Text
  pub is_one : Memᴰ one terminals
  pub is_other : Memᴰ other terminals
  pub unlinked : ¬ Linked (affordable max_cost candidates) one other

only_member {ℓ} :
    {A : Type ℓ} (xs : List A) (x y : A) → length xs ≡ 1 → Memᴰ x xs → Memᴰ y xs → x ≡ y
only_member [] x y h mx my = absurd (Memᴰ.not-nil mx)
only_member (z ∷ []) x y h mx my = Memᴰ.eq_of_singleton mx ∙ sym (Memᴰ.eq_of_singleton my)
only_member (z ∷ w ∷ xs) x y h mx my = absurd (omega arith)

two_members :
    (xs : List Text)
    → IsDistinct xs
    → 1 < length xs
    → (x : Text) × (y : Text) × Memᴰ x xs × Memᴰ y xs × (x ≢ y)
two_members [] d h = absurd (omega arith)
two_members (x ∷ []) d h = absurd (omega arith)
two_members (x ∷ y ∷ xs) d h =
    (x, y, Memᴰ.head refl, Memᴰ.tail (Memᴰ.head refl), λ e. d.0 (Memᴰ.head e))

-- Labels that agree across every link agree on linked regions.
Linked-label :
    (label : Text → Text) (es : List Entry)
    → ((e : Entry) → Memᴰ e es → label e.0.0 ≡ label e.0.1)
    → (x y : Text) → Linked es x y
    → label x ≡ label y
Linked-label label es agree x y stay = refl
Linked-label label es agree x y (across {entry} m) = agree entry m
Linked-label label es agree x y (back l) = sym (Linked-label label es agree y x l)
Linked-label label es agree x z (chain {y} l r) =
    Linked-label label es agree x y l ∙ Linked-label label es agree y z r

module _ (terminals : List Text) (max_cost : Option ℕ) (candidates : List Entry)
    (d : IsDistinct terminals)
    (among : (e : Entry) → Memᴰ e candidates → Memᴰ e.0.0 terminals × Memᴰ e.0.1 terminals) where
  module _ (sets : DisjointSets) (label : Text → Text) (boundaries : List Candidate)
      (chosen : List Entry)
      (s : IsState terminals max_cost candidates d among sets label boundaries chosen) where
    leader_of : (x : Text) → Memᴰ x terminals → Memᴰ (label x) (leaders terminals label)
    leader_of x m = (Memᴰ-select (λ n. label n == n) (label x) terminals).1 (
      subst (Memᴰ (label x)) s.nodes
          (label-mem sets label s.represents x (subst (Memᴰ x) (sym s.nodes) m)),
      ≡→== (label (label x)) (label x) (label-label sets label s.represents x),
    )

    pub complete :
        suc (length boundaries) ≡ length terminals
        → IsSpanning terminals max_cost candidates boundaries
    complete one_less = record {
      chosen = chosen;
      from_candidates = s.from_candidates;
      are_boundaries = s.are_boundaries;
      one_less = one_less;
      linked = λ x y mx my.
          let same =
            only_member (leaders terminals label) (label x) (label y) (omega (arith, s.counted))
              (leader_of x mx) (leader_of y my) in
          chain (s.linked x) (back (subst (Linked chosen y) (sym same) (s.linked y)));
    }

    pub incomplete :
        suc (length boundaries) < length terminals
        → ((e : Entry) → Memᴰ e (affordable max_cost candidates) → label e.0.0 ≡ label e.0.1)
        → AreApart terminals max_cost candidates
    incomplete few agree =
        let (x, y, mx, my, ne) =
          two_members (leaders terminals label) (IsDistinct-select (λ n. label n == n) terminals d)
            (omega (arith, s.counted)) in
        let (in_x, own_x) = (Memᴰ-select (λ n. label n == n) x terminals).0 mx in
        let (in_y, own_y) = (Memᴰ-select (λ n. label n == n) y terminals).0 my in
        record {
          one = x;
          other = y;
          is_one = in_x;
          is_other = in_y;
          unlinked = λ l. ne (
              sym (==→≡ (label x) x own_x)
              ∙ Linked-label label (affordable max_cost candidates) agree x y l
              ∙ ==→≡ (label y) y own_y);
        }
