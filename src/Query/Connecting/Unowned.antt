-- ===== src/Query/Connecting/Unowned.antt =====
-- The datasets without an owner: each claim of the search takes one off their number.
use mathlib.Core.List.Memᴰ
use data_ontology_graph.Prelude.{
  ℕ, ◌+◌, ◌≤◌, ◌<◌, Text, List, [], ◌∷◌, Bool-cases, both_ways, Memᴰ, ◌≡◌, sym, ap, ◌∙◌, inl, inr,
  ⊎_elim, Option, none, some, ◌==◌, ==→≡, ≡→==, arith, nat_order, list_order,
}
use data_ontology_graph.Prelude.Maps.{put, put-same, put-other}
use data_ontology_graph.Model.Relationship.{JoinRelationship}
use data_ontology_graph.Query.Paths.Traced.{some_injective}
use data_ontology_graph.Query.Connecting.Regions.{Adjacency, neighbours, across, found_across, ends}

abbrev pub without_owner : Option Text → ℕ
without_owner none = 1
without_owner (some r) = 0

-- how many entries have no owner
abbrev pub unowned : (Text → Option Text) → List Text → ℕ
unowned owner [] = 0
unowned owner (x ∷ xs) = without_owner (owner x) + unowned owner xs

-- a claim takes the place of no owner, or leaves the entry as it was
claimed_weight :
    (owner : Text → Option Text) (y r x : Text)
    → without_owner (put owner y (some r) x) ≤ without_owner (owner x)
claimed_weight owner y r x = elim (Bool-cases (x == y)) [
  | inl same ↦
      let now =
        ap without_owner (ap (put owner y (some r)) (==→≡ x y same) ∙ put-same owner y (some r)) in
      omega arith
  | inr apart ↦
      let now =
        ap without_owner
          (put-other owner y x (some r) (λ q. both_ways {P = ⊥} (≡→== x y q) apart)) in
      omega arith
]

unowned-le :
    (owner : Text → Option Text) (y r : Text) (xs : List Text)
    → unowned (put owner y (some r)) xs ≤ unowned owner xs
unowned-le owner y r [] = omega arith
unowned-le owner y r (x ∷ xs) = omega (arith, unowned-le owner y r xs, claimed_weight owner y r x)

-- A claim lowers the number.
pub unowned-lt :
    (owner : Text → Option Text) (y r : Text) (xs : List Text)
    → owner y ≡ none
    → Memᴰ y xs
    → unowned (put owner y (some r)) xs < unowned owner xs
unowned-lt owner y r [] free m = absurd (Memᴰ.not-nil m)
unowned-lt owner y r (x ∷ xs) free m =
    ⊎_elim
      (λ y_x.
        let before = ap without_owner (ap owner (sym y_x) ∙ free) in
        let after =
          ap without_owner (ap (put owner y (some r)) (sym y_x) ∙ put-same owner y (some r)) in
        omega (arith, unowned-le owner y r xs))
      (λ t. omega (arith, unowned-lt owner y r xs free t, claimed_weight owner y r x))
      (Memᴰ.cases_cons m)

Memᴰ-found_across :
    (x y : Text) (e : JoinRelationship) (edges : List JoinRelationship)
    → Memᴰ e edges
    → across e x ≡ some y
    → Memᴰ y (found_across x edges)
Memᴰ-found_across x y e [] m to = absurd (Memᴰ.not-nil m)
Memᴰ-found_across x y e (f ∷ edges) m to =
    ⊎_elim (λ q. here (across f x) (ap (λ g. across g x) (sym q) ∙ to))
      (λ t. later (across f x) (Memᴰ-found_across x y e edges t to)) (Memᴰ.cases_cons m)
  where
    here :
        (found : Option Text)
        → found ≡ some y
        → Memᴰ y
            (elim found [ none ↦ found_across x edges | some other ↦ other ∷ found_across x edges ])
    here none q = cc
    here (some other) q = Memᴰ.head (sym (some_injective q))

    later :
        (found : Option Text)
        → Memᴰ y (found_across x edges)
        → Memᴰ y
            (elim found [ none ↦ found_across x edges | some other ↦ other ∷ found_across x edges ])
    later none m = m
    later (some other) m = Memᴰ.tail m

pub neighbour_end :
    (adjacency : Adjacency) (x y : Text) (e : JoinRelationship)
    → Memᴰ e (neighbours adjacency x)
    → across e x ≡ some y
    → Memᴰ y (ends adjacency)
neighbour_end [] x y e = λ m to. absurd (Memᴰ.not-nil m)
neighbour_end ((key, edges) ∷ adjacency) x y e = elim (Bool-cases (key == x)) [
  | inl same ↦ rw same (λ m to.
      Memᴰ.append_left (ends adjacency)
        (Memᴰ-found_across key y e edges m (ap (across e) (==→≡ key x same) ∙ to)))
  | inr apart ↦
      rw apart
        (λ m to. Memᴰ.append_right (found_across key edges) (neighbour_end adjacency x y e m to))
]
