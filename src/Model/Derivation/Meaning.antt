-- ===== src/Model/Derivation/Meaning.antt =====
-- What the claims of a definition say of the records of its dataset.
pub mod Matching
pub mod Counting
use mathlib.Core.List.Memᴰ
use data_ontology_graph.Prelude.{
  ℕ, zero, suc, ◌≤◌, List, [], ◌∷◌, Memᴰ, Bool, true, false, Bool-cases, arith, ◌≡◌, refl, sym, ap,
  subst, ◌∙◌, ⊎_elim, ◌⊎◌, inl, inr, ◌↔◌, Option, Option-cases, none, some, if◌then◌else◌,
  IsDistinct, Order, ◌==◌, ==→≡, ≡→==, ==-self, contains, contains_iff, both_ways,
}
use data_ontology_graph.Model.Enums.{Multiplicity, MatchExistence, EntityUniverse, Claim}
use data_ontology_graph.Model.Definition.{EntityDefinition, conforming}
use data_ontology_graph.Model.Derivation.{
  multiplicity_between, derived_multiplicity, derived_match_existence, derived_direction, contained,
  is_truthy,
}

-- A dataset seen from one entity definition: the key of each record, `none` for a null key.
abbrev pub Records : Type 0 → Type 0
Records K = List (Option K)

abbrev pub Says : Claim → Type 0 → Type 0
Says (Claim.known true) P = P
Says (Claim.known false) P = ¬ P
Says Claim.unknown P = Unit

-- Where a definition is not unique an instance may appear in several records; none has to.
abbrev pub SaysUnique : Claim → Type 0 → Type 0
SaysUnique (Claim.known true) P = P
SaysUnique _ P = Unit

module _ {K : Type 0} where
  abbrev pub keys : Records K → List K
  keys [] = []
  keys (none ∷ rows) = keys rows
  keys (some k ∷ rows) = k ∷ keys rows

  abbrev pub Conforms : (K → Type 0) → Records K → Type 0
  Conforms Population rows = (k : K) → Memᴰ k (keys rows) → Population k

  abbrev pub Covers : (K → Type 0) → Records K → Type 0
  Covers Population rows = (k : K) → Population k → Memᴰ k (keys rows)

  -- a complete definition conforms by definition
  abbrev pub SaysUniverse : EntityUniverse → (K → Type 0) → Records K → Type 0
  SaysUniverse EntityUniverse.complete Population rows =
      Covers Population rows × Conforms Population rows
  SaysUniverse EntityUniverse.partial Population rows = ¬ Covers Population rows
  SaysUniverse EntityUniverse.unknown Population rows = Unit

  -- The claims of a definition are true of its records, for the entity's Population.
  pub record Holds (Population : K → Type 0) (d : EntityDefinition) (rows : Records K)
      : Type 0 where
    pub unique : SaysUnique d.unique (IsDistinct (keys rows))
    pub total : Says d.total (¬ Memᴰ none rows)
    pub conforms : Says d.conforms (Conforms Population rows)
    pub universe : SaysUniverse d.entity_universe Population rows

  -- Every source record has a match among the target records.
  abbrev pub AllMatched : Records K → Records K → Type 0
  AllMatched source target =
      (row : Option K) → Memᴰ row source → (k : K) × (row ≡ some k) × Memᴰ k (keys target)

  pub Memᴰ-keys : (k : K) (rows : Records K) → Memᴰ (some k) rows ↔ Memᴰ k (keys rows)
  Memᴰ-keys k [] = (λ m. absurd (Memᴰ.not-nil m), λ m. absurd (Memᴰ.not-nil m))
  Memᴰ-keys k (none ∷ rows) = (
    λ m. ⊎_elim (λ e. cc) (Memᴰ-keys k rows).0 (Memᴰ.cases_cons m),
    λ m. Memᴰ.tail ((Memᴰ-keys k rows).1 m),
  )
  Memᴰ-keys k (some j ∷ rows) = (
    λ m.
        ⊎_elim (λ e. Memᴰ.head (some_inj e)) (λ t. Memᴰ.tail ((Memᴰ-keys k rows).0 t))
          (Memᴰ.cases_cons m),
    λ m.
        ⊎_elim (λ e. Memᴰ.head (ap some e)) (λ t. Memᴰ.tail ((Memᴰ-keys k rows).1 t))
          (Memᴰ.cases_cons m),
  )
    where
      some_inj : ◌≡◌ {A = Option K} (some k) (some j) → k ≡ j
      some_inj e = cc

module _ {K : Type 0} ⦃o : Order K⦄ where
  -- the records with key `k`, which are those that a record with key `k` joins with
  abbrev pub matches : K → Records K → ℕ
  matches k [] = 0
  matches k (none ∷ rows) = matches k rows
  matches k (some j ∷ rows) = if k == j then suc (matches k rows) else matches k rows

  -- A record of the other side joins with at most one record of `rows`.
  abbrev pub AtMostOne : Records K → Type 0
  AtMostOne rows = (k : K) → matches k rows ≤ 1

  -- A second record of a key that is there would contradict no claim of the definition.
  abbrev pub MayBeSeveral : (K → Type 0) → EntityDefinition → Records K → Type 0
  MayBeSeveral Population d rows =
      (k : K)
      → Memᴰ k (keys rows)
      → Holds Population d (some k ∷ rows) × (2 ≤ matches k (some k ∷ rows))

  -- What a multiplicity says of the two sides.
  module _ (Population : K → Type 0) (source target : EntityDefinition)
      (srows trows : Records K) where
    abbrev pub Means : Multiplicity → Type 0
    Means Multiplicity.one_to_one = AtMostOne srows × AtMostOne trows
    Means Multiplicity.many_to_one = MayBeSeveral Population source srows × AtMostOne trows
    Means Multiplicity.one_to_many = AtMostOne srows × MayBeSeveral Population target trows
    Means Multiplicity.many_to_many =
        MayBeSeveral Population source srows × MayBeSeveral Population target trows
    Means Multiplicity.unknown = (source.unique ≡ Claim.unknown) ⊎ (target.unique ≡ Claim.unknown)
