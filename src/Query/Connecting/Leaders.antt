-- ===== src/Query/Connecting/Leaders.antt =====
-- `join_sets` on the labelling, and how many labels are left.
use mathlib.Core.List.Memᴰ
use data_ontology_graph.Prelude.{
  ℕ, zero, suc, ◌+◌, ◌<◌, Text, List, [], ◌∷◌, Bool, true, false, not, ◌&&◌, Bool-cases, arith, ◌≡◌,
  ◌≢◌, refl, sym, ap, ◌∙◌, subst, ◌⊎◌, inl, inr, ⊎_elim, Memᴰ, length, select, IsDistinct, ltb,
  some, if◌then◌else◌, ◌==◌, ==→≡, ≡→==, nat_order, list_order,
}
use data_ontology_graph.Query.Connecting.{DisjointSets, highest, link, join_roots, join_sets}
use data_ontology_graph.Query.Connecting.Sets.{
  Represents, root-eq, rank-bounded, relabel, link-Represents, different, not_equal,
}

module _ (s : DisjointSets) (label : Text → Text) (h : Represents s label) where
  climb :
      (rounds : ℕ) (x : Text)
      → highest s.rank s.nodes < rounds + s.rank x
      → (s.parent (label x) ≡ label x) × (Memᴰ x s.nodes → Memᴰ (label x) s.nodes)
  climb zero x enough = absurd (omega (arith, rank-bounded s label h x))
  climb (suc rounds) x enough = elim (Bool-cases (s.parent x == x)) [
    | inl top ↦
        let at = ==→≡ (s.parent x) x top in
        let own = h.at_root x at in (subst (λ y. s.parent y ≡ y) (sym own) at, λ m. Memᴰ.cast own m)
    | inr lower ↦
        let (top, inside) =
          climb rounds (s.parent x) (omega (arith, h.ranked x (different (s.parent x) x lower))) in
        let same = h.along x in
        (
          subst (λ y. s.parent y ≡ y) same top,
          λ m. subst (λ y. Memᴰ y s.nodes) same (inside (h.closed x m)),
        )
  ]

  -- A label is a root, and that of a node is a node.
  pub label-top : (x : Text) → s.parent (label x) ≡ label x
  label-top x = (climb (suc (highest s.rank s.nodes)) x (omega arith)).0

  pub label-mem : (x : Text) → Memᴰ x s.nodes → Memᴰ (label x) s.nodes
  label-mem x = (climb (suc (highest s.rank s.nodes)) x (omega arith)).1

  pub label-label : (x : Text) → label (label x) ≡ label x
  label-label x = h.at_root (label x) (label-top x)

-- The join of two labels: nothing if they are the same, else one takes the other's place.
abbrev pub IsJoin : (Text → Text) → Text → Text → Bool → (Text → Text) → Type 0
IsJoin label x y joined label' =
    ((label x ≡ label y) × (joined ≡ false) × (label' ≡ label))
    ⊎ ((label x ≢ label y)
        × (joined ≡ true)
        × ((label' ≡ relabel label (label x) (label y))
            ⊎ (label' ≡ relabel label (label y) (label x))))

pub record Joins (s : DisjointSets) (label : Text → Text) (x y : Text) : Type 0 where
  pub after : DisjointSets
  pub joined : Bool
  pub labels : Text → Text
  pub returned : join_sets s x y ≡ some (after, joined)
  pub represents : Represents after labels
  pub same_nodes : after.nodes ≡ s.nodes
  pub is_join : IsJoin label x y joined labels

-- the step after both roots are found
record JoinsRoots (s : DisjointSets) (label : Text → Text) (x y : Text) : Type 0 where
  after : DisjointSets
  joined : Bool
  labels : Text → Text
  returned : join_roots s (label x) (label y) ≡ (after, joined)
  represents : Represents after labels
  same_nodes : after.nodes ≡ s.nodes
  is_join : IsJoin label x y joined labels

join_roots-eq :
    (s : DisjointSets) (label : Text → Text) (x y : Text)
    → Represents s label
    → Memᴰ x s.nodes
    → Memᴰ y s.nodes
    → JoinsRoots s label x y
join_roots-eq s label x y h mx my = elim (Bool-cases (label x == label y)) [
  | inl same ↦ record {
    after = s;
    joined = false;
    labels = label;
    returned = rw same;
    represents = h;
    same_nodes = refl;
    is_join = inl (==→≡ (label x) (label y) same, refl, refl);
  }
  | inr other ↦
      let ne : label x ≢ label y = different (label x) (label y) other in
      elim (Bool-cases (ltb (s.rank (label x)) (s.rank (label y)))) [
        | inl lower ↦ record {
          after = link s (label y) (label x);
          joined = true;
          labels = relabel label (label y) (label x);
          returned = rw (other, lower);
          represents =
              link-Represents s label h (label y) (label x) (label-top s label h y)
                (label-top s label h x) (λ e. ne (sym e)) (label-mem s label h y my) (ground arith);
          same_nodes = refl;
          is_join = inr (ne, refl, inr refl);
        }
        | inr higher ↦ record {
          after = link s (label x) (label y);
          joined = true;
          labels = relabel label (label x) (label y);
          returned = rw (other, higher);
          represents =
              link-Represents s label h (label x) (label y) (label-top s label h x)
                (label-top s label h y) ne (label-mem s label h x mx) (ground arith);
          same_nodes = refl;
          is_join = inr (ne, refl, inl refl);
        }
      ]
]

-- Joining two nodes always returns. It says whether their labels were different, and then they are
-- the same; all nodes that had one of the two labels have one label, and no other node's changes.
pub join_sets-eq :
    (s : DisjointSets) (label : Text → Text) (x y : Text)
    → Represents s label
    → Memᴰ x s.nodes
    → Memᴰ y s.nodes
    → Joins s label x y
unfolding join_sets
join_sets-eq s label x y h mx my =
    let (s1, found1, refined1, _) = root-eq s label x h in
    let (s2, found2, refined2, _) = root-eq s1 label y refined1.represents in
    let nodes : s2.nodes ≡ s.nodes = refined2.same_nodes ∙ refined1.same_nodes in
    let j =
      join_roots-eq s2 label x y refined2.represents (subst (Memᴰ x) (sym nodes) mx)
        (subst (Memᴰ y) (sym nodes) my) in
    record {
      after = j.after;
      joined = j.joined;
      labels = j.labels;
      returned = rw (found1, found2) (ap some j.returned);
      represents = j.represents;
      same_nodes = j.same_nodes ∙ nodes;
      is_join = j.is_join;
    }

-- the nodes that are their own labels
abbrev pub leaders : List Text → (Text → Text) → List Text
leaders nodes label = select (λ n. label n == n) nodes

select-agree {ℓ} :
    {A : Type ℓ} (p q : A → Bool) (xs : List A) → ((x : A) → p x ≡ q x) → select p xs ≡ select q xs
select-agree p q [] h = refl
select-agree p q (x ∷ xs) h = rw (h x, select-agree p q xs h)

select-without :
    (p : Text → Bool) (k : Text) (xs : List Text)
    → (¬ Memᴰ k xs)
    → select (λ x. p x && not (x == k)) xs ≡ select p xs
select-without p k [] new = refl
select-without p k (x ∷ xs) new =
    rw (not_equal x k (λ e. new (Memᴰ.head (sym e))))
      (rw (select-without p k xs (λ m. new (Memᴰ.tail m))) (cases (p x)))
  where
    cases :
        (b : Bool)
        → (if b && true then x ∷ select p xs else select p xs)
          ≡ (if b then x ∷ select p xs else select p xs)
    cases true = refl
    cases false = refl

select-one_less :
    (p : Text → Bool) (k : Text) (xs : List Text)
    → IsDistinct xs
    → Memᴰ k xs
    → p k ≡ true
    → suc (length (select (λ x. p x && not (x == k)) xs)) ≡ length (select p xs)
select-one_less p k [] d m h = absurd (Memᴰ.not-nil m)
select-one_less p k (x ∷ xs) d m h =
    ⊎_elim
      (λ e.
        let px = ap p (sym e) ∙ h in
        rw (≡→== x k (sym e), px)
          (ap (λ ys. suc (length ys)) (select-without p k xs (λ t. d.0 (Memᴰ.cast (sym e) t)))))
      (λ t.
        let other = not_equal x k (λ e. d.0 (Memᴰ.cast e t)) in
        let rest = select-one_less p k xs d.1 t h in rw other (ground (arith, rest)))
      (Memᴰ.cases_cons m)

-- A join of two labels leaves one leader less.
pub leaders-relabel :
    (nodes : List Text) (label : Text → Text) (keep drop : Text)
    → IsDistinct nodes
    → Memᴰ drop nodes
    → label keep ≡ keep
    → label drop ≡ drop
    → keep ≢ drop
    → suc (length (leaders nodes (relabel label keep drop))) ≡ length (leaders nodes label)
leaders-relabel nodes label keep drop d m own_keep own_drop ne =
    ap (λ ys. suc (length ys)) (select-agree _ _ nodes agree)
    ∙ select-one_less (λ n. label n == n) drop nodes d m (≡→== (label drop) drop own_drop)
  where
    agree : (n : Text) → (relabel label keep drop n == n) ≡ (label n == n && not (n == drop))
    agree n = elim (Bool-cases (n == drop)) [
      | inl is_drop ↦
          let n_drop = ==→≡ n drop is_drop in
          let gone = ≡→== (label n) drop (ap label n_drop ∙ own_drop) in
          rw (gone, is_drop, not_equal keep n (λ e. ne (e ∙ n_drop))) (cases (label n == n))
      | inr other ↦ elim (Bool-cases (label n == drop)) [
        | inl gone ↦
            let label_n = ==→≡ (label n) drop gone in
            rw (
              gone,
              other,
              not_equal (label n) n (λ e. different n drop other (sym e ∙ label_n)),
              not_equal keep n (λ e. ne (sym own_keep ∙ ap label e ∙ label_n)),
            )
        | inr stays ↦ rw (stays, other) (kept (label n == n))
      ]
    ]
      where
        cases : (b : Bool) → false ≡ (b && false)
        cases true = refl
        cases false = refl

        kept : (b : Bool) → b ≡ (b && true)
        kept true = refl
        kept false = refl
