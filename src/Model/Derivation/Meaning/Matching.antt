-- ===== src/Model/Derivation/Meaning/Matching.antt =====
-- Derived match existence is true of the data.
use data_ontology_graph.Prelude.{
  Memᴰ, true, arith, ◌≡◌, refl, subst, inl, inr, Option-cases, none, some,
}
use data_ontology_graph.Model.Enums.{MatchExistence, EntityUniverse, Claim}
use data_ontology_graph.Model.Definition.{EntityDefinition, conforming}
use data_ontology_graph.Model.Derivation.{derived_match_existence, contained}
use data_ontology_graph.Model.Derivation.Meaning.{
  Records, Says, keys, Conforms, SaysUniverse, Holds, AllMatched, Memᴰ-keys,
}

module _ {K : Type 0} {Population : K → Type 0} where
  conforming-Conforms :
      (d : EntityDefinition) (rows : Records K)
      → Holds Population d rows
      → conforming d ≡ some true
      → Conforms Population rows
  unfolding conforming
  conforming-Conforms d rows h e = by_claims d.entity_universe d.conforms refl refl
    where
      by_claims :
          (u : EntityUniverse) (c : Claim)
          → d.entity_universe ≡ u
          → d.conforms ≡ c
          → Conforms Population rows
      by_claims EntityUniverse.complete c eu ec =
          (subst (λ x. SaysUniverse x Population rows) eu h.universe).1
      by_claims u (Claim.known true) eu ec =
          subst (λ x. Says x (Conforms Population rows)) ec h.conforms
      by_claims u c eu ec = absurd (ground (arith, eu, ec, e))

  contained-true :
      (source target : EntityDefinition) (srows trows : Records K)
      → Holds Population source srows
      → Holds Population target trows
      → contained source target ≡ some true
      → (k : K) → Memᴰ k (keys srows)
      → Memᴰ k (keys trows)
  unfolding contained
  contained-true source target srows trows hs ht e k m =
      complete_covers (conforming-Conforms source srows hs (ground arith) k m)
    where
      is_complete_target : target.entity_universe ≡ EntityUniverse.complete
      is_complete_target = ground (arith, e)

      complete_covers : Population k → Memᴰ k (keys trows)
      complete_covers =
          (subst (λ x. SaysUniverse x Population trows) is_complete_target ht.universe).0 k

  -- If the claims of both definitions are true of their records, then a derived `always` says that
  -- every source record has a match in the target.
  pub derived_always :
      (source target : EntityDefinition) (srows trows : Records K)
      → Holds Population source srows
      → Holds Population target trows
      → derived_match_existence source target ≡ MatchExistence.always
      → AllMatched srows trows
  unfolding derived_match_existence
  derived_always source target srows trows hs ht e row m = elim (Option-cases row) [
    | inl null ↦ absurd (
        (subst (λ x. Says x (¬ Memᴰ none srows)) is_total hs.total)
          (subst (λ x. Memᴰ x srows) null m))
    | inr (k, named) ↦ (
      k,
      named,
      contained-true source target srows trows hs ht is_contained k
          ((Memᴰ-keys k srows).0 (subst (λ x. Memᴰ x srows) named m)),
    )
  ]
    where
      is_total : source.total ≡ Claim.known true
      is_total = ground (arith, e)

      is_contained : contained source target ≡ some true
      is_contained = ground (arith, e)
