-- ===== src/Model/Derivation/Pairs.antt =====
-- `combinations(xs, 2)` and the grouping of the members by logical entity.
use mathlib.Core.List.Memᴰ
use data_ontology_graph.Prelude.{
  ◌+◌, ◌*◌, Text, List, [], ◌∷◌, ◌++◌, Memᴰ, true, arith, ◌≡◌, ◌≢◌, refl, sym, ap, subst, ◌∙◌,
  ⊎_elim, ◌⊎◌, inl, inr, ◌↔◌, map, length, length-append, length-map, Memᴰ-map, flat_map,
  Memᴰ-flat_map, ≡→==, Memᴰ-select, Memᴰ-sorted_by, Memᴰ-to_set, Order, ◌<=◌, ◌==◌, ==→≡,
  IsSortedBy, sorted_by, sorted_by-IsSortedBy, to_set, nat_order, list_order, triple_order,
}
use data_ontology_graph.Model.Definition.{DefinitionKey, key}
use data_ontology_graph.Model.Derivation.{
  Member, identity_of, identities, members_of, combinations, pairs_of,
}

module _ {ℓ} {A : Type ℓ} where
  -- Both items of a pair are in the list.
  pub combinations-mem :
      (xs : List A) (a b : A) → Memᴰ (a, b) (combinations xs) → Memᴰ a xs × Memᴰ b xs
  unfolding combinations
  combinations-mem [] a b m = absurd (Memᴰ.not-nil m)
  combinations-mem (x ∷ xs) a b m =
      ⊎_elim
        (λ first.
          let (y, at, e) = (Memᴰ-map (λ z. (x, z)) (a, b) xs).0 first in
          (
            Memᴰ.head (sym (ap (λ (p : A × A). p.0) e)),
            Memᴰ.tail (Memᴰ.cast (sym (ap (λ (p : A × A). p.1) e)) at),
          ))
        (λ later. let (ma, mb) = combinations-mem xs a b later in (Memᴰ.tail ma, Memᴰ.tail mb))
        (Memᴰ.append_cases (map (λ z. (x, z)) xs) m)

  -- Any two different items are paired, in one order or the other.
  pub combinations-complete :
      (xs : List A) (a b : A)
      → Memᴰ a xs
      → Memᴰ b xs
      → a ≢ b
      → Memᴰ (a, b) (combinations xs) ⊎ Memᴰ (b, a) (combinations xs)
  unfolding combinations
  combinations-complete [] a b ma mb ne = absurd (Memᴰ.not-nil ma)
  combinations-complete (x ∷ xs) a b ma mb ne =
      ⊎_elim
        (λ ea.
          ⊎_elim (λ eb. absurd (ne (ea ∙ sym eb))) (λ tb. inl (first a b ea tb))
            (Memᴰ.cases_cons mb))
        (λ ta.
          ⊎_elim (λ eb. inr (first b a eb ta))
            (λ tb.
              ⊎_elim (λ m. inl (Memᴰ.append_right pairs m)) (λ m. inr (Memᴰ.append_right pairs m))
                (combinations-complete xs a b ta tb ne))
            (Memᴰ.cases_cons mb))
        (Memᴰ.cases_cons ma)
    where
      pairs : List (A × A)
      pairs = map (λ z. (x, z)) xs

      first : (u v : A) → u ≡ x → Memᴰ v xs → Memᴰ (u, v) (pairs ++ combinations xs)
      first u v e m =
          Memᴰ.append_left (combinations xs)
            (Memᴰ.cast (ap (λ w. (w, v)) e) (Memᴰ.map (λ z. (x, z)) m))

  -- n items give n (n - 1) / 2 pairs.
  pub length-combinations :
      (xs : List A) → 2 * length (combinations xs) + length xs ≡ length xs * length xs
  unfolding combinations
  length-combinations [] = refl
  length-combinations (x ∷ xs) = omega (
    arith,
    length-append (map (λ z. (x, z)) xs) (combinations xs),
    length-map {B = A × A} (λ z. (x, z)) xs,
    length-combinations xs,
  )

module _ {ℓ κ} {A : Type ℓ} {K : Type κ} ⦃o : Order K⦄ (f : A → K) where
  -- In a list that ascends by a key the first item of a pair has the smaller key.
  pub combinations-sorted :
      (xs : List A) (a b : A)
      → IsSortedBy f xs
      → Memᴰ (a, b) (combinations xs)
      → (f a <= f b) ≡ true
  unfolding combinations
  combinations-sorted [] a b s m = absurd (Memᴰ.not-nil m)
  combinations-sorted (x ∷ xs) a b s m =
      ⊎_elim
        (λ first.
          let (y, at, e) = (Memᴰ-map (λ z. (x, z)) (a, b) xs).0 first in
          subst (λ (p : A × A). (f p.0 <= f p.1) ≡ true) e (s.0 y at))
        (combinations-sorted xs a b s.1) (Memᴰ.append_cases (map (λ z. (x, z)) xs) m)

abbrev pub member_key : Member → DefinitionKey
member_key m = key m.1 m.0

module _ (ms : List Member) where
  -- the pairs of all logical entities, in the order of the loops
  abbrev pub all_pairs : List (Member × Member)
  all_pairs = flat_map (pairs_of ms) (identities ms)

  -- What a pair is made of: two members of one logical entity, in the order of their keys.
  pub record IsPair (a b : Member) : Type 0 where
    pub first : Memᴰ a ms
    pub second : Memᴰ b ms
    pub same_identity : identity_of a ≡ identity_of b
    pub ordered : (member_key a <= member_key b) ≡ true

  members_of-mem :
      (i : Text) (m : Member) → Memᴰ m (members_of i ms) ↔ (Memᴰ m ms × (identity_of m ≡ i))
  members_of-mem i m =
      let (from, to) = Memᴰ-select (λ x. identity_of x == i) m ms in
      (
        λ h. let (at, e) = from h in (at, ==→≡ (identity_of m) i e),
        λ (at, e). to (at, ≡→== (identity_of m) i e),
      )

  pub identities-mem : (m : Member) → Memᴰ m ms → Memᴰ (identity_of m) (identities ms)
  unfolding identities
  identities-mem m at =
      (Memᴰ-sorted_by (λ i. i) (identity_of m) (to_set (map identity_of ms))).1
        ((Memᴰ-to_set (identity_of m) (map identity_of ms)).1 (Memᴰ.map identity_of at))

  pub all_pairs-IsPair : (a b : Member) → Memᴰ (a, b) all_pairs → IsPair a b
  unfolding pairs_of
  all_pairs-IsPair a b m =
      let (i, at, inside) = (Memᴰ-flat_map (pairs_of ms) (a, b) (identities ms)).0 m in
      let sorted = sorted_by member_key (members_of i ms) in
      let (ma, mb) = combinations-mem sorted a b inside in
      let (fa, ea) =
        (members_of-mem i a).0 ((Memᴰ-sorted_by member_key a (members_of i ms)).0 ma) in
      let (fb, eb) =
        (members_of-mem i b).0 ((Memᴰ-sorted_by member_key b (members_of i ms)).0 mb) in
      record {
        first = fa;
        second = fb;
        same_identity = ea ∙ sym eb;
        ordered =
            combinations-sorted member_key sorted a b
              (sorted_by-IsSortedBy member_key (members_of i ms)) inside;
      }

  -- Two different members of one logical entity are paired.
  pub all_pairs-complete :
      (a b : Member)
      → Memᴰ a ms
      → Memᴰ b ms
      → identity_of a ≡ identity_of b
      → a ≢ b
      → Memᴰ (a, b) all_pairs ⊎ Memᴰ (b, a) all_pairs
  unfolding pairs_of
  all_pairs-complete a b ma mb same ne =
      ⊎_elim (λ m. inl (collect (a, b) m)) (λ m. inr (collect (b, a) m))
        (combinations-complete sorted a b (among a ma refl) (among b mb (sym same)) ne)
    where
      i : Text
      i = identity_of a

      sorted : List Member
      sorted = sorted_by member_key (members_of i ms)

      among : (m : Member) → Memᴰ m ms → identity_of m ≡ i → Memᴰ m sorted
      among m at e =
          (Memᴰ-sorted_by member_key m (members_of i ms)).1 ((members_of-mem i m).1 (at, e))

      collect : (p : Member × Member) → Memᴰ p (pairs_of ms i) → Memᴰ p all_pairs
      collect p m = (Memᴰ-flat_map (pairs_of ms) p (identities ms)).1 (i, identities-mem a ma, m)
