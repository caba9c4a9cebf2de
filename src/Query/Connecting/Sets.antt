-- ===== src/Query/Connecting/Sets.antt =====
-- Disjoint sets refine a labelling of the nodes: each node's root is its label.
use data_ontology_graph.Prelude.{
  ℕ, zero, suc, ◌+◌, ◌<◌, ◌≤◌, Text, List, [], ◌∷◌, false, Bool-cases, both_ways, arith, ◌≡◌, ◌≢◌,
  refl, sym, ap, ◌∙◌, subst, inl, inr, ⊎_elim, Memᴰ, contains, contains_iff, not-contains, ltb,
  some, if◌then◌else◌, ◌==◌, ==→≡, ≡→==, ==-self, nat_order, list_order,
}
use mathlib.Core.List.Memᴰ
use data_ontology_graph.Query.Connecting.{
  DisjointSets, assign, halve, root_within, highest, root, link,
}

-- Each node's root is its label; ranks ascend along the parents, and only nodes have a rank.
pub record Represents (s : DisjointSets) (label : Text → Text) : Type 0 where
  pub at_root : (x : Text) → s.parent x ≡ x → label x ≡ x
  pub along : (x : Text) → label (s.parent x) ≡ label x
  pub ranked : (x : Text) → s.parent x ≢ x → s.rank x < s.rank (s.parent x)
  pub closed : (x : Text) → Memᴰ x s.nodes → Memᴰ (s.parent x) s.nodes
  pub outside : (x : Text) → (¬ Memᴰ x s.nodes) → s.rank x ≡ 0

assign-same {ℓ} : {A : Type ℓ} (d : Text → A) (k : Text) (v : A) → assign d k v k ≡ v
assign-same d k v = rw (==-self k)

pub not_equal : (x k : Text) → x ≢ k → (x == k) ≡ false
not_equal x k ne = elim (Bool-cases (x == k)) [
  | inl same ↦ absurd (ne (==→≡ x k same))
  | inr other ↦ other
]

assign-other {ℓ} : {A : Type ℓ} (d : Text → A) (k x : Text) (v : A) → x ≢ k → assign d k v x ≡ d x
assign-other d k x v ne = rw (not_equal x k ne)

rank-le-highest :
    (rank : Text → ℕ) (nodes : List Text) (x : Text) → Memᴰ x nodes → rank x ≤ highest rank nodes
rank-le-highest rank [] x m = absurd (Memᴰ.not-nil m)
rank-le-highest rank (n ∷ nodes) x m =
    ⊎_elim (λ e. ground (arith, ap rank e)) (λ t. ground (arith, rank-le-highest rank nodes x t))
      (Memᴰ.cases_cons m)

module _ (s : DisjointSets) (label : Text → Text) (h : Represents s label) where
  pub rank-bounded : (x : Text) → s.rank x ≤ highest s.rank s.nodes
  rank-bounded x = elim (Bool-cases (contains s.nodes x)) [
    | inl inside ↦ rank-le-highest s.rank s.nodes x ((contains_iff s.nodes x).0 inside)
    | inr apart ↦ omega (arith, h.outside x (not-contains s.nodes x apart))
  ]

  -- The parent's parent of a node that is not a root has a greater rank.
  rank-grandparent : (x : Text) → s.parent x ≢ x → s.rank x < s.rank (s.parent (s.parent x))
  rank-grandparent x ne = elim (Bool-cases (s.parent (s.parent x) == s.parent x)) [
    | inl top ↦
        subst (λ y. s.rank x < s.rank y) (sym (==→≡ (s.parent (s.parent x)) (s.parent x) top))
          (h.ranked x ne)
    | inr deeper ↦
        omega (arith, h.ranked x ne, h.ranked (s.parent x) (λ e. both_ways (≡→== _ _ e) deeper))
  ]

  halve-Represents : (n : Text) → s.parent n ≢ n → Represents (halve s n) label
  halve-Represents n ne = record {
    at_root = λ x e. elim (Bool-cases (x == n)) [
      | inl same ↦
          let x_n = ==→≡ x n same in
          let loop = subst (λ y. assign s.parent n (s.parent (s.parent n)) y ≡ y) x_n e in
          let back = sym (assign-same s.parent n (s.parent (s.parent n))) ∙ loop in
          absurd (omega (arith, rank-grandparent n ne, ap s.rank back))
      | inr other ↦
          h.at_root x (sym (assign-other s.parent n x _ (λ e'. both_ways (≡→== _ _ e') other)) ∙ e)
    ];
    along = λ x. elim (Bool-cases (x == n)) [
      | inl same ↦
          let x_n = ==→≡ x n same in rw same (h.along (s.parent n) ∙ h.along n ∙ ap label (sym x_n))
      | inr other ↦ rw other (h.along x)
    ];
    ranked = λ x moved. elim (Bool-cases (x == n)) [
      | inl same ↦ rw same (
          subst (λ y. s.rank y < s.rank (s.parent (s.parent n))) (sym (==→≡ x n same))
            (rank-grandparent n ne))
      | inr other ↦ rw other (h.ranked x (λ e. moved (rw other e)))
    ];
    closed = λ x m. elim (Bool-cases (x == n)) [
      | inl same ↦ rw same (h.closed _ (h.closed n (Memᴰ.cast (sym (==→≡ x n same)) m)))
      | inr other ↦ rw other (h.closed x m)
    ];
    outside = h.outside;
  }

-- `s'` differs from `s` in parents only, and represents the same labelling
pub record Refines (s s' : DisjointSets) (label : Text → Text) : Type 0 where
  pub represents : Represents s' label
  pub same_nodes : s'.nodes ≡ s.nodes
  pub same_rank : s'.rank ≡ s.rank

root_within-eq :
    (rounds : ℕ) (s : DisjointSets) (label : Text → Text) (x : Text)
    → Represents s label
    → highest s.rank s.nodes < rounds + s.rank x
    → (s' : DisjointSets) × (root_within rounds s x ≡ some (s', label x))
      × Refines s s' label
      × (s'.parent (label x) ≡ label x)
unfolding root_within
root_within-eq zero s label x h enough = absurd (omega (arith, rank-bounded s label h x))
root_within-eq (suc rounds) s label x h enough = elim (Bool-cases (s.parent x == x)) [
  | inl top ↦
      let at = ==→≡ (s.parent x) x top in
      let own = h.at_root x at in
      (
        s,
        rw (top, own),
        record { represents = h; same_nodes = refl; same_rank = refl },
        subst (λ y. s.parent y ≡ y) (sym own) at,
      )
  | inr lower ↦
      let ne : s.parent x ≢ x = λ e. both_ways (≡→== (s.parent x) x e) lower in
      let up = s.parent (s.parent x) in
      let (s', found, refined, top) =
        root_within-eq rounds (halve s x) label up (halve-Represents s label h x ne)
          (omega (arith, rank-grandparent s label h x ne)) in
      let same : label up ≡ label x = h.along (s.parent x) ∙ h.along x in
      (
        s',
        rw lower (found ∙ ap (λ y. some (s', y)) same),
        record {
          represents = refined.represents;
          same_nodes = refined.same_nodes;
          same_rank = refined.same_rank;
        },
        subst (λ y. s'.parent y ≡ y) same top,
      )
]

-- Asking for a root always returns: the answer is the node's label, and halving the path on the way
-- changes no label.
pub root-eq :
    (s : DisjointSets) (label : Text → Text) (x : Text)
    → Represents s label
    → (s' : DisjointSets) × (root s x ≡ some (s', label x))
      × Refines s s' label
      × (s'.parent (label x) ≡ label x)
unfolding root
root-eq s label x h = root_within-eq (suc (highest s.rank s.nodes)) s label x h (omega arith)

-- The labelling after two labels are joined: `right` becomes `left`.
abbrev pub relabel : (Text → Text) → Text → Text → Text → Text
relabel label left right x = if label x == right then left else label x

pub different : (x k : Text) → (x == k) ≡ false → x ≢ k
different x k other e = both_ways (≡→== x k e) other

module _ (s : DisjointSets) (left right : Text) where
  new_rank-grows : (x : Text) → s.rank x ≤ (link s left right).rank x
  new_rank-grows x = elim (Bool-cases (ltb (s.rank right) (s.rank left))) [
    | inl apart ↦ rw apart (omega arith)
    | inr close ↦ elim (Bool-cases (x == left)) [
      | inl same ↦ rw (close, same) (omega (arith, ap s.rank (==→≡ x left same)))
      | inr other ↦ rw (close, other) (omega arith)
    ]
  ]

  new_rank-other : (x : Text) → x ≢ left → (link s left right).rank x ≡ s.rank x
  new_rank-other x ne = elim (Bool-cases (ltb (s.rank right) (s.rank left))) [
    | inl apart ↦ rw apart
    | inr close ↦ rw (close, not_equal x left ne)
  ]

  new_rank-beats : s.rank right ≤ s.rank left → s.rank right < (link s left right).rank left
  new_rank-beats low = elim (Bool-cases (ltb (s.rank right) (s.rank left))) [
    | inl apart ↦ rw apart (ground arith)
    | inr close ↦ rw (close, ==-self left) (omega arith)
  ]

module _ (s : DisjointSets) (label : Text → Text) (h : Represents s label) (left right : Text) where
  -- Linking one root under another joins their labels.
  pub link-Represents :
      s.parent left ≡ left
      → s.parent right ≡ right
      → left ≢ right
      → Memᴰ left s.nodes
      → s.rank right ≤ s.rank left
      → Represents (link s left right) (relabel label left right)
  link-Represents top_left top_right ne inside low = record {
    at_root = λ x e. elim (Bool-cases (x == right)) [
      | inl same ↦
          let x_right = ==→≡ x right same in
          absurd (
            ne (
              sym (assign-same s.parent right left)
              ∙ subst (λ y. assign s.parent right left y ≡ y) x_right e))
      | inr other ↦
          let own =
            h.at_root x (sym (assign-other s.parent right x left (different x right other)) ∙ e) in
          rw (ap (λ l. l == right) own ∙ other) own
    ];
    along = λ x. elim (Bool-cases (x == right)) [
      | inl same ↦
          let of_right = ap label (==→≡ x right same) ∙ h.at_root right top_right in
          let of_left = h.at_root left top_left in
          rw
            (
              same,
              ≡→== (label x) right of_right,
              not_equal (label left) right (λ e. ne (sym of_left ∙ e)),
            )
            of_left
      | inr other ↦ rw other (ap (λ l. if l == right then left else l) (h.along x))
    ];
    ranked = λ x moved. elim (Bool-cases (x == right)) [
      | inl same ↦
          let x_right = ==→≡ x right same in
          let R : Text → ℕ = (link s left right).rank in
          subst (λ y. R x < R y)
            (sym (ap (assign s.parent right left) x_right ∙ assign-same s.parent right left))
            (omega (
              arith,
              new_rank-beats s left right low,
              ap R x_right,
              new_rank-other s left right right (λ e. ne (sym e)),
            ))
      | inr other ↦
          let stays = assign-other s.parent right x left (different x right other) in
          let R : Text → ℕ = (link s left right).rank in
          let low_x = h.ranked x (λ e. moved (stays ∙ e)) in
          subst (λ y. R x < R y) (sym stays)
            (omega (
              arith,
              low_x,
              new_rank-grows s left right (s.parent x),
              new_rank-other s left right x (λ e. moved (stays ∙ ap s.parent e ∙ top_left ∙ sym e)),
            ))
    ];
    closed = λ x m. elim (Bool-cases (x == right)) [
      | inl same ↦ rw same inside
      | inr other ↦ rw other (h.closed x m)
    ];
    outside = λ x apart.
        new_rank-other s left right x (λ e. apart (Memᴰ.cast e inside)) ∙ h.outside x apart;
  }
