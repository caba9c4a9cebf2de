-- ===== src/Model/Dataset/Valid.antt =====
-- What `validate_invariants` checks.
use mathlib.Core.List.Memᴰ
use data_ontology_graph.Prelude.{
  Text, List, [], ◌∷◌, Memᴰ, true, not, Option-cases, and_parts, arith, ◌≡◌, refl, sym, subst, ◌↔◌,
  inl, inr, ⊎_elim, map, all, all-at, all_of, any-witness, any_of, contains, contains_iff,
  not-contains, contains_of_not, has_duplicates, has_duplicates_iff, IsDistinct, some, ok,
  guard-eq-ok, check_each-eq-ok, check_each_of, >>=-eq-ok, ◌==◌, ==→≡, ≡→==, ◌&&◌, nat_order,
  list_order, pair_order,
}
use data_ontology_graph.Model.Definition.{EntityDefinition}
use data_ontology_graph.Model.Dataset.{
  DatasetNode, DatasetGrain, GrainComponent, Grain, LocalKey, local_key, column_names,
  check_definitions, resolves, check_component, check_grain, validate_invariants,
}

-- Every column is in the inventory.
abbrev pub IsListed : List Text → List Text → Type 0
IsListed inventory columns = (column : Text) → Memᴰ column columns → Memᴰ column inventory

-- Some definition has these columns and, if one is named, this logical entity.
abbrev pub IsResolved : List EntityDefinition → GrainComponent → Type 0
IsResolved ds c =
    (identity_id : Text)
    → c.identity_id ≡ some identity_id
    → (d : EntityDefinition) × Memᴰ d ds
      × (d.identity_id ≡ identity_id)
      × (d.dataset_columns ≡ c.dataset_columns)

pub record IsValidNode (node : DatasetNode) : Type 0 where
  pub columns_distinct : IsDistinct (column_names node)
  pub definitions_listed :
      (d : EntityDefinition)
      → Memᴰ d node.entity_definitions
      → IsListed (column_names node) d.dataset_columns
  pub definitions_distinct : IsDistinct (map local_key node.entity_definitions)
  pub grain_listed :
      (g : DatasetGrain) (c : GrainComponent)
      → node.grain ≡ Grain.known g
      → Memᴰ c g.components
      → IsListed (column_names node) c.dataset_columns
  pub grain_resolved :
      (g : DatasetGrain) (c : GrainComponent)
      → node.grain ≡ Grain.known g
      → Memᴰ c g.components
      → IsResolved node.entity_definitions c

IsListed-iff :
    (inventory columns : List Text)
    → (all (contains inventory) columns ≡ true) ↔ IsListed inventory columns
IsListed-iff inventory columns = (
  λ h c m. (contains_iff inventory c).0 (all-at (contains inventory) columns h m),
  λ h. all_of (contains inventory) columns (λ c m. (contains_iff inventory c).1 (h c m)),
)

-- no key of `ds` is in `seen`, and none occurs twice
abbrev AreFresh : List LocalKey → List EntityDefinition → Type 0
AreFresh seen [] = Unit
AreFresh seen (d ∷ ds) = (¬ Memᴰ (local_key d) seen) × AreFresh (local_key d ∷ seen) ds

check_definitions_iff :
    (inventory : List Text) (seen : List LocalKey) (ds : List EntityDefinition)
    → (check_definitions inventory seen ds ≡ ok tt) ↔ (
        ((d : EntityDefinition) → Memᴰ d ds → IsListed inventory d.dataset_columns)
        × AreFresh seen ds)
unfolding check_definitions
check_definitions_iff inventory seen [] = (λ h. ((λ d m. absurd (Memᴰ.not-nil m)), tt), λ h. refl)
check_definitions_iff inventory seen (d ∷ ds) =
    let (there, back) = check_definitions_iff inventory (local_key d ∷ seen) ds in
    (
      λ h.
          let (listed, h1) = guard-eq-ok (all (contains inventory) d.dataset_columns) _ _ h in
          let (new, h2) = guard-eq-ok (not (contains seen (local_key d))) _ _ h1 in
          let (later, fresh) = there h2 in
          (
            λ e m.
                ⊎_elim
                  (λ same.
                    subst (λ x. IsListed inventory x.dataset_columns) (sym same)
                      ((IsListed-iff inventory d.dataset_columns).0 listed))
                  (later e) (Memᴰ.cases_cons m),
            (not-contains seen (local_key d) (ground arith), fresh),
          ),
      λ (listed, fresh).
          rw
            (
              (IsListed-iff inventory d.dataset_columns).1 (listed d (Memᴰ.head refl)),
              contains_of_not seen (local_key d) fresh.0,
            )
            (back (λ e m. listed e (Memᴰ.tail m), fresh.1)),
    )

fresh-apart :
    (seen : List LocalKey) (ds : List EntityDefinition)
    → AreFresh seen ds
    → (k : LocalKey) → Memᴰ k (map local_key ds)
    → ¬ Memᴰ k seen
fresh-apart seen [] fresh k m old = absurd (Memᴰ.not-nil m)
fresh-apart seen (d ∷ ds) fresh k m old =
    ⊎_elim (λ e. fresh.0 (Memᴰ.cast (sym e) old))
      (λ t. fresh-apart (local_key d ∷ seen) ds fresh.1 k t (Memᴰ.tail old)) (Memᴰ.cases_cons m)

fresh-IsDistinct :
    (seen : List LocalKey) (ds : List EntityDefinition)
    → AreFresh seen ds
    → IsDistinct (map local_key ds)
fresh-IsDistinct seen [] fresh = tt
fresh-IsDistinct seen (d ∷ ds) fresh = (
  λ m. fresh-apart (local_key d ∷ seen) ds fresh.1 (local_key d) m (Memᴰ.head refl),
  fresh-IsDistinct (local_key d ∷ seen) ds fresh.1,
)

fresh_of :
    (seen : List LocalKey) (ds : List EntityDefinition)
    → IsDistinct (map local_key ds)
    → ((k : LocalKey) → Memᴰ k (map local_key ds) → ¬ Memᴰ k seen)
    → AreFresh seen ds
fresh_of seen [] distinct apart = tt
fresh_of seen (d ∷ ds) distinct apart = (
  apart (local_key d) (Memᴰ.head refl),
  fresh_of (local_key d ∷ seen) ds distinct.1 (λ k m old.
      ⊎_elim (λ e. distinct.0 (Memᴰ.cast (sym e) m)) (apart k (Memᴰ.tail m)) (Memᴰ.cases_cons old)),
)

resolves_of :
    (ds : List EntityDefinition) (c : GrainComponent)
    → IsResolved ds c
    → resolves ds c.dataset_columns c.identity_id ≡ true
resolves_of ds c h = elim (Option-cases c.identity_id) [
  | inl no_identity ↦ rw no_identity
  | inr (i, named) ↦
      let (d, m, id, columns) = h i named in
      rw named (
        any_of (λ x. x.identity_id == i && x.dataset_columns == c.dataset_columns) ds m
          (rw (≡→== d.identity_id i id, ≡→== d.dataset_columns c.dataset_columns columns)))
]

IsResolved-of :
    (ds : List EntityDefinition) (c : GrainComponent)
    → resolves ds c.dataset_columns c.identity_id ≡ true
    → IsResolved ds c
IsResolved-of ds c h i named =
    let (d, m, found) =
      any-witness (λ x. x.identity_id == i && x.dataset_columns == c.dataset_columns) ds
        (rw named at h) in
    let (id, columns) = and_parts (d.identity_id == i) _ found in
    (d, m, ==→≡ d.identity_id i id, ==→≡ d.dataset_columns c.dataset_columns columns)

component_iff :
    (inventory : List Text) (ds : List EntityDefinition) (c : GrainComponent)
    → (check_component inventory ds c ≡ ok tt)
      ↔ (IsListed inventory c.dataset_columns × IsResolved ds c)
component_iff inventory ds c = (
  λ h.
      let (listed, h1) = guard-eq-ok (all (contains inventory) c.dataset_columns) _ _ h in
      let (found, h2) = guard-eq-ok (resolves ds c.dataset_columns c.identity_id) _ _ h1 in
      ((IsListed-iff inventory c.dataset_columns).0 listed, IsResolved-of ds c found),
  λ (listed, found).
      rw ((IsListed-iff inventory c.dataset_columns).1 listed, resolves_of ds c found),
)

abbrev IsGrainValid : List Text → List EntityDefinition → Grain → Type 0
IsGrainValid inventory ds grain =
    (g : DatasetGrain) (c : GrainComponent)
    → grain ≡ Grain.known g
    → Memᴰ c g.components
    → IsListed inventory c.dataset_columns × IsResolved ds c

known_injective : {g h : DatasetGrain} → Grain.known g ≡ Grain.known h → g ≡ h
known_injective e = cc

grain_iff :
    (inventory : List Text) (ds : List EntityDefinition) (grain : Grain)
    → (check_grain inventory ds grain ≡ ok tt) ↔ IsGrainValid inventory ds grain
grain_iff inventory ds Grain.unknown = (λ h g c e m. cc, λ h. refl)
grain_iff inventory ds (Grain.known g) = (
  λ h g' c e m. (component_iff inventory ds c).0 (
      check_each-eq-ok (check_component inventory ds) g.components h
        (subst (λ (x : DatasetGrain). Memᴰ c x.components) (sym (known_injective e)) m)),
  λ h.
      check_each_of (check_component inventory ds) g.components
        (λ c m. (component_iff inventory ds c).1 (h g c refl m)),
)

-- A dataset passes the validator exactly when its column names are distinct, its entity
-- definitions use listed columns and differ in logical entity or columns, and each component of a
-- known grain uses listed columns and, where it names a logical entity, is on the columns of one of
-- that entity's definitions.
pub validate_invariants_iff :
    (node : DatasetNode) → (validate_invariants node ≡ ok tt) ↔ IsValidNode node
unfolding validate_invariants
validate_invariants_iff node = (
  λ h.
      let (single, h1) = guard-eq-ok (not (has_duplicates names)) _ _ h in
      let (_, h2, h3) =
        >>=-eq-ok (check_definitions names [] ds) (λ _. check_grain names ds node.grain) h1 in
      let (listed, fresh) = (check_definitions_iff names [] ds).0 h2 in
      let grain = (grain_iff names ds node.grain).0 h3 in
      record {
        columns_distinct = (has_duplicates_iff names).0 (ground arith);
        definitions_listed = listed;
        definitions_distinct = fresh-IsDistinct [] ds fresh;
        grain_listed = λ g c e m. (grain g c e m).0;
        grain_resolved = λ g c e m. (grain g c e m).1;
      },
  λ v.
      let definitions = (check_definitions_iff names [] ds).1 (
        v.definitions_listed,
        fresh_of [] ds v.definitions_distinct (λ k m old. Memᴰ.not-nil old),
      ) in
      let grain =
        (grain_iff names ds node.grain).1
          (λ g c e m. (v.grain_listed g c e m, v.grain_resolved g c e m)) in
      rw ((has_duplicates_iff names).1 v.columns_distinct, definitions) grain,
)
  where
    names : List Text
    names = column_names node

    ds : List EntityDefinition
    ds = node.entity_definitions
