-- ===== src/Model/Derivation/Meaning/Counting.antt =====
-- Derived multiplicity is true of the data.
use mathlib.Core.List.Memᴰ
use data_ontology_graph.Prelude.{
  ◌≤◌, [], ◌∷◌, Memᴰ, true, false, Bool-cases, arith, ◌≡◌, refl, sym, ⊎_elim, inl, inr, Option,
  none, some, subst, IsDistinct, Order, ◌==◌, ==→≡, ≡→==, ==-self, both_ways,
}
use data_ontology_graph.Model.Enums.{Claim, EntityUniverse}
use data_ontology_graph.Model.Definition.{EntityDefinition}
use data_ontology_graph.Model.Derivation.{multiplicity_between, derived_multiplicity}
use data_ontology_graph.Model.Derivation.Meaning.{
  Records, Says, SaysUnique, SaysUniverse, Conforms, keys, Holds, matches, AtMostOne, MayBeSeveral,
  Means,
}

Says-iff : (c : Claim) {P Q : Type 0} → (P → Q) → (Q → P) → Says c P → Says c Q
Says-iff (Claim.known true) to from p = to p
Says-iff (Claim.known false) to from p = λ q. p (from q)
Says-iff Claim.unknown to from p = tt

none-some : {K : Type 0} {k : K} → ◌≡◌ {A = Option K} none (some k) → ⊥
none-some clash = cc

module _ {K : Type 0} ⦃o : Order K⦄ where
  matches-zero : (k : K) (rows : Records K) → (¬ Memᴰ k (keys rows)) → matches k rows ≡ 0
  matches-zero k [] absent = refl
  matches-zero k (none ∷ rows) absent = matches-zero k rows absent
  matches-zero k (some j ∷ rows) absent = elim (Bool-cases (k == j)) [
    | inl same ↦ absurd (absent (Memᴰ.head (==→≡ k j same)))
    | inr other ↦ rw other (matches-zero k rows (λ m. absent (Memᴰ.tail m)))
  ]

  matches-pos : (k : K) (rows : Records K) → Memᴰ k (keys rows) → 1 ≤ matches k rows
  matches-pos k [] m = absurd (Memᴰ.not-nil m)
  matches-pos k (none ∷ rows) m = matches-pos k rows m
  matches-pos k (some j ∷ rows) m = elim (Bool-cases (k == j)) [
    | inl same ↦ rw same (omega arith)
    | inr other ↦
        rw other
          (⊎_elim (λ e. both_ways (≡→== k j e) other) (matches-pos k rows) (Memᴰ.cases_cons m))
  ]

  AtMostOne-of : (rows : Records K) → IsDistinct (keys rows) → AtMostOne rows
  AtMostOne-of [] d k = omega arith
  AtMostOne-of (none ∷ rows) d k = AtMostOne-of rows d k
  AtMostOne-of (some j ∷ rows) d k = elim (Bool-cases (k == j)) [
    | inl same ↦
        rw same (omega (arith, matches-zero k rows (λ m. d.0 (Memᴰ.cast (sym (==→≡ k j same)) m))))
    | inr other ↦ rw other (AtMostOne-of rows d.1 k)
  ]

  -- Another record of a key that is there keeps every claim but uniqueness.
  several-Holds :
      (Population : K → Type 0) (d : EntityDefinition) (rows : Records K)
      → d.unique ≡ Claim.known false
      → Holds Population d rows
      → MayBeSeveral Population d rows
  several-Holds Population d rows e h k m = (
    record {
      unique = subst (λ c. SaysUnique c (IsDistinct (k ∷ keys rows))) (sym e) tt;
      total =
          Says-iff d.total (λ no_null. no_null_more no_null)
            (λ no_null null. no_null (Memᴰ.tail null)) h.total;
      conforms = Says-iff d.conforms more_conform (λ all_ j at. all_ j (Memᴰ.tail at)) h.conforms;
      universe = universe_more d.entity_universe h.universe;
    },
    rw (==-self k) (omega (arith, matches-pos k rows m)),
  )
    where
      no_null_more : (¬ Memᴰ none rows) → ¬ Memᴰ none (some k ∷ rows)
      no_null_more no_null null = ⊎_elim (λ clash. none-some clash) no_null (Memᴰ.cases_cons null)

      more_conform : Conforms Population rows → Conforms Population (some k ∷ rows)
      more_conform all_ j at =
          ⊎_elim (λ same. subst Population (sym same) (all_ k m)) (all_ j) (Memᴰ.cases_cons at)

      universe_more :
          (u : EntityUniverse)
          → SaysUniverse u Population rows
          → SaysUniverse u Population (some k ∷ rows)
      universe_more EntityUniverse.complete (covers, all_) =
          ((λ j p. Memᴰ.tail (covers j p)), more_conform all_)
      universe_more EntityUniverse.partial no_cover = λ covers. no_cover (λ j p.
          ⊎_elim (λ same. subst (λ i. Memᴰ i (keys rows)) (sym same) m) (λ at. at)
            (Memᴰ.cases_cons (covers j p)))
      universe_more EntityUniverse.unknown says = tt

  side_one :
      (Population : K → Type 0) (d : EntityDefinition) (rows : Records K)
      → d.unique ≡ Claim.known true
      → Holds Population d rows
      → AtMostOne rows
  side_one Population d rows e h =
      AtMostOne-of rows (subst (λ c. SaysUnique c (IsDistinct (keys rows))) e h.unique)

  -- If the claims of both definitions are true of their records, then the derived multiplicity is
  -- true of them: on a side that is "one" at most one record joins with any record of the other
  -- side. On a side that is "many" nothing excludes several: the claims stay true when any key that
  -- is there gets a further record, with which two join. It is unknown only where the uniqueness of
  -- a side is.
  pub derived_multiplicity-Holds :
      (Population : K → Type 0) (source target : EntityDefinition) (srows trows : Records K)
      → Holds Population source srows
      → Holds Population target trows
      → Means Population source target srows trows (derived_multiplicity source target)
  unfolding derived_multiplicity multiplicity_between
  derived_multiplicity-Holds Population source target srows trows hs ht =
      by_claims source.unique target.unique refl refl
    where
      by_claims :
          (s t : Claim)
          → source.unique ≡ s
          → target.unique ≡ t
          → Means Population source target srows trows (multiplicity_between s t)
      by_claims (Claim.known true) (Claim.known true) es et =
          (side_one Population source srows es hs, side_one Population target trows et ht)
      by_claims (Claim.known true) (Claim.known false) es et =
          (side_one Population source srows es hs, several-Holds Population target trows et ht)
      by_claims (Claim.known false) (Claim.known true) es et =
          (several-Holds Population source srows es hs, side_one Population target trows et ht)
      by_claims (Claim.known false) (Claim.known false) es et =
          (several-Holds Population source srows es hs, several-Holds Population target trows et ht)
      by_claims Claim.unknown t es et = inl es
      by_claims (Claim.known true) Claim.unknown es et = inr et
      by_claims (Claim.known false) Claim.unknown es et = inr et
