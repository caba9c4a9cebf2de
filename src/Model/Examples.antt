-- ===== src/Model/Examples.antt =====
-- Runs on a small catalog, and the theorems about the model at concrete inputs.
use mathlib.Core.List.Memᴰ
use data_ontology_graph.Prelude.{
  ℕ, Text, text, List, [], ◌∷◌, Memᴰ, Bool, true, false, ◌≡◌, ◌↔◌, ◌⊎◌, refl, arith, ok, some, none,
  All, All-at, map, contains, to_set, sorted_by, strip, join, is_empty, nat_order, has_duplicates,
  has_duplicates_iff, ap, ⊎_elim, Option,
}
use data_ontology_graph.Model.Enums.{Multiplicity, MatchExistence}
use data_ontology_graph.Model.Columns.{check_columns, check_columns_iff, IsCanonical}
use data_ontology_graph.Model.Definition.{
  EntityDefinition, DefinitionKey, validate_definition, effective_description,
  effective_description_iff, Describes, DescriptionSource, description_of,
}
use data_ontology_graph.Model.Dataset.{DatasetNode, validate_invariants}
use data_ontology_graph.Model.Dataset.Valid.{IsValidNode, validate_invariants_iff}
use data_ontology_graph.Model.Relationship.{
  JoinRelationship, RelationshipDirection, canonicalize, edge_id_for, canonical_endpoints, side,
}
use data_ontology_graph.Model.Relationship.Canonical.{
  IsCanonicalForm, canonicalize_returns, canonicalize_again, written_backwards,
  canonicalize_backwards,
}
use data_ontology_graph.Model.Derivation.{
  Member, members, arguments, derive_relationships, derived_match_existence, derived_multiplicity,
  derived_direction, identities, pairs_of,
}
use data_ontology_graph.Model.Derivation.Pairs.{IsPair}
use data_ontology_graph.Model.Derivation.Derived.{
  AreConstructed, derived, derive_relationships-eq, Relates, derive_relationships_sound,
  derive_relationships_complete,
}
use data_ontology_graph.Model.Derivation.Meaning.{
  Records, Holds, AllMatched, AtMostOne, MayBeSeveral,
}
use data_ontology_graph.Model.Derivation.Meaning.Matching.{derived_always}
use data_ontology_graph.Model.Derivation.Meaning.Counting.{derived_multiplicity-Holds}
use data_ontology_graph.Model.Snapshot.{GraphSnapshot, validate_graph}
use data_ontology_graph.Model.Snapshot.Valid.{IsValidGraph, validate_graph_iff}
use data_ontology_graph.Model.Sample.{customer_id, buyer_id, customers, orders, catalog, customer}

catalog-AreConstructed : AreConstructed catalog
unfolding validate_definition check_columns has_duplicates sorted_by strip
catalog-AreConstructed = record {
  node_ids =
      All-at (λ (node : DatasetNode). is_empty node.node_id ≡ false) catalog (refl, (refl, tt));
  definitions = λ node d m.
      All-at (λ (e : EntityDefinition). validate_definition e ≡ ok e) node.entity_definitions
        (All-at
          (λ (n : DatasetNode).
            All (λ (e : EntityDefinition). validate_definition e ≡ ok e) n.entity_definitions)
          catalog ((refl, tt), ((refl, tt), tt)) node m)
        d;
}

derived-catalog :
    map (λ (r : JoinRelationship). r.edge_id) (derived catalog)
    ≡ text "sqlite:crm.customers:customer:id__sqlite:crm.orders:customer:buyer" ∷ []
unfolding derived members identities pairs_of arguments edge_id_for canonical_endpoints side join
    sorted_by to_set
derived-catalog = refl

abbrev claims_of : JoinRelationship → RelationshipDirection × RelationshipDirection
claims_of r = (r.a_to_b, r.b_to_a)

abbrev expected_claims : RelationshipDirection × RelationshipDirection
expected_claims = (
  record { multiplicity = Multiplicity.one_to_many; match_existence = MatchExistence.optional },
  record { multiplicity = Multiplicity.many_to_one; match_existence = MatchExistence.always },
)

derived_claims : map claims_of (derived catalog) ≡ expected_claims ∷ []
unfolding derived members identities pairs_of arguments derived_direction sorted_by to_set
derived_claims = refl

derive_relationships-eq_example : derive_relationships catalog ≡ ok (derived catalog)
derive_relationships-eq_example = derive_relationships-eq catalog catalog-AreConstructed

abbrev link : JoinRelationship
link = arguments ((customers.node_id, customer_id), (orders.node_id, buyer_id))

link-mem : Memᴰ link (derived catalog)
unfolding derived members identities pairs_of sorted_by to_set arguments edge_id_for
link-mem = Memᴰ.head refl

derive_relationships_sound_example :
    (a : Member) × (b : Member) × IsPair (members catalog) a b × Relates link a b
derive_relationships_sound_example =
    derive_relationships_sound catalog (derived catalog) catalog-AreConstructed
      derive_relationships-eq_example link link-mem

members-catalog :
    members catalog ≡ (orders.node_id, buyer_id) ∷ (customers.node_id, customer_id) ∷ []
unfolding members
members-catalog = refl

derive_relationships_complete_example :
    (r : JoinRelationship) × Memᴰ r (derived catalog)
    × (Relates r (orders.node_id, buyer_id) (customers.node_id, customer_id)
        ⊎ Relates r (customers.node_id, customer_id) (orders.node_id, buyer_id))
unfolding members
derive_relationships_complete_example =
    derive_relationships_complete catalog (derived catalog) catalog-AreConstructed
      derive_relationships-eq_example (orders.node_id, buyer_id) (customers.node_id, customer_id)
      (Memᴰ.head refl) (Memᴰ.tail (Memᴰ.head refl)) refl
      (λ e. cc (ap (λ (m : Member). m.1.unique) e))

-- customers 1 and 2, and an order of each and a second one of 1
abbrev customer_rows : Records ℕ
customer_rows = some 1 ∷ some 2 ∷ []

abbrev order_rows : Records ℕ
order_rows = some 1 ∷ some 1 ∷ []

abbrev Population : ℕ → Type 0
Population k = Memᴰ k (1 ∷ 2 ∷ [])

abbrev contains_null : Records ℕ → Bool
contains_null [] = false
contains_null (none ∷ rows) = true
contains_null (some k ∷ rows) = contains_null rows

not_null : (rows : Records ℕ) → contains_null rows ≡ false → ¬ Memᴰ none rows
not_null [] h m = Memᴰ.not-nil m
not_null (none ∷ rows) h m = cc
not_null (some k ∷ rows) h m = ⊎_elim (λ e. none-some e) (not_null rows h) (Memᴰ.cases_cons m)
  where
    none-some : ◌≡◌ {A = Option ℕ} none (some k) → ⊥
    none-some e = cc

customer-Holds : Holds Population customer_id customer_rows
unfolding has_duplicates
customer-Holds = record {
  unique = (has_duplicates_iff (1 ∷ 2 ∷ [])).0 refl;
  total = not_null customer_rows refl;
  conforms = tt;
  universe = (λ k m. m, λ k m. m);
}

order-Holds : Holds Population buyer_id order_rows
unfolding has_duplicates
order-Holds = record {
  unique = tt;
  total = not_null order_rows refl;
  conforms = λ k m. Memᴰ.head (All-at (λ x. x ≡ 1) (1 ∷ 1 ∷ []) (refl, (refl, tt)) k m);
  universe = λ covers. absurd (
      two_one (
        All-at (λ x. x ≡ 1) (1 ∷ 1 ∷ []) (refl, (refl, tt)) 2
          (covers 2 (Memᴰ.tail (Memᴰ.head refl)))));
}
  where
    two_one : ◌≡◌ {A = ℕ} 2 1 → ⊥
    two_one e = omega arith

derived_always_example : AllMatched order_rows customer_rows
unfolding derived_match_existence
derived_always_example =
    derived_always buyer_id customer_id order_rows customer_rows order-Holds customer-Holds refl

derived_multiplicity-Holds_example :
    MayBeSeveral Population buyer_id order_rows × AtMostOne customer_rows
unfolding derived_multiplicity
derived_multiplicity-Holds_example =
    derived_multiplicity-Holds Population buyer_id customer_id order_rows customer_rows order-Holds
      customer-Holds

validate_invariants_iff_example : (validate_invariants customers ≡ ok tt) ↔ IsValidNode customers
validate_invariants_iff_example = validate_invariants_iff customers

check_columns_iff_example :
    (check_columns (text "a" ∷ text "b" ∷ []) ≡ ok (text "a" ∷ text "b" ∷ [])) ↔ (
      (text "a" ∷ text "b" ∷ [] ≡ text "a" ∷ text "b" ∷ [])
      × IsCanonical (text "a" ∷ text "b" ∷ []))
check_columns_iff_example = check_columns_iff (text "a" ∷ text "b" ∷ []) (text "a" ∷ text "b" ∷ [])

abbrev pair : List Text
pair = text "a" ∷ text "b" ∷ []

pair-IsCanonical : IsCanonical pair
unfolding check_columns has_duplicates sorted_by
pair-IsCanonical = ((check_columns_iff pair pair).0 refl).1

effective_description_iff_example :
    (effective_description []
        (text "buyer" ∷ [])
        (text "[buyer]" ∷ [])
        ((text "buyer", text "The buyer.") ∷ [])
      ≡ some (text "The buyer.", DescriptionSource.column))
    ↔ Describes []
        (text "buyer" ∷ [])
        (text "[buyer]" ∷ [])
        ((text "buyer", text "The buyer.") ∷ [])
        (text "The buyer.")
        DescriptionSource.column
effective_description_iff_example =
    effective_description_iff [] (text "buyer" ∷ []) (text "[buyer]" ∷ [])
      ((text "buyer", text "The buyer.") ∷ []) (text "The buyer.") DescriptionSource.column

lent_description :
    effective_description []
      (text "buyer" ∷ [])
      (text "[buyer]" ∷ [])
      ((text "buyer", text "The buyer.") ∷ [])
    ≡ some (text "The buyer.", DescriptionSource.column)
unfolding effective_description description_of contains strip
lent_description = refl

-- the relationship of the catalog, written from the order's end
abbrev backwards : JoinRelationship
backwards = written_backwards link

canonicalize_returns_example :
    (c : JoinRelationship) × (canonicalize backwards ≡ ok c) × IsCanonicalForm backwards c
unfolding arguments edge_id_for canonical_endpoints
canonicalize_returns_example = canonicalize_returns backwards refl

canonicalize_again_example : canonicalize link ≡ ok link
unfolding arguments canonicalize edge_id_for canonical_endpoints side join
canonicalize_again_example = canonicalize_again backwards link refl

canonicalize_backwards_example : canonicalize backwards ≡ canonicalize link
unfolding arguments
canonicalize_backwards_example =
    canonicalize_backwards link (λ e. cc (ap (λ (k : DefinitionKey). k.0) e))

abbrev sample_graph : GraphSnapshot
sample_graph = record {
  version = text "2026-01-01T00:00:00Z";
  logical_identities = customer ∷ [];
  nodes = catalog;
  edges = derived catalog;
  annotations = [];
}

validate_graph_iff_example : (validate_graph sample_graph ≡ ok tt) ↔ IsValidGraph sample_graph
validate_graph_iff_example = validate_graph_iff sample_graph

sample_accepted : validate_graph sample_graph ≡ ok tt
unfolding validate_graph has_duplicates derived members identities pairs_of arguments sorted_by
    edge_id_for canonical_endpoints side join
sample_accepted = refl
