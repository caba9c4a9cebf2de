-- ===== src/Prelude/Sets.antt =====
-- `x in xs`, `set(xs)` and the test `len(xs) != len(set(xs))`.
use Prim.Native.Nat.{suc, ◌≤◌}
use mathlib.Core.Path.{◌≡◌, refl, ap, sym, ◌∙◌, subst}
use mathlib.Core.Logic.{◌↔◌, ◌⊎◌, inl, inr, ⊎_elim}
use mathlib.Core.Bool.{Bool, true, false, not, ◌||◌}
use mathlib.Core.List.{List, [], ◌∷◌, ◌++◌, map, Memᴰ}
use mathlib.Core.List.Memᴰ
use native.Mathlib.Omega.{arith}
use data_ontology_graph.Prelude.Tests.{if◌then◌else◌, Bool-cases, both_ways}
use data_ontology_graph.Prelude.Lists.{length, select, Memᴰ-select, Memᴰ-map}
use data_ontology_graph.Prelude.Sort.{insert_by, sorted_by, Memᴰ-insert_by, Memᴰ-sorted_by}
use data_ontology_graph.Prelude.Orders.{Order, ◌<=◌, ◌==◌, ==-self, ==→≡, ≡→==, nat_order}

-- no value occurs twice
abbrev pub IsDistinct {ℓ} : {A : Type ℓ} → List A → Type ℓ
IsDistinct [] = Unit
IsDistinct (x ∷ xs) = (¬ Memᴰ x xs) × IsDistinct xs

module _ {ℓ} {A : Type ℓ} where
  pub Memᴰ-snoc : (a x : A) (xs : List A) → Memᴰ a (xs ++ x ∷ []) ↔ (Memᴰ a xs ⊎ (a ≡ x))
  Memᴰ-snoc a x xs = (
    λ m. ⊎_elim inl (λ last. inr (Memᴰ.eq_of_singleton last)) (Memᴰ.append_cases xs m),
    ⊎_elim (Memᴰ.append_left (x ∷ [])) (λ e. Memᴰ.append_right xs (Memᴰ.head e)),
  )

  pub IsDistinct-snoc :
      (x : A) (xs : List A) → IsDistinct xs → (¬ Memᴰ x xs) → IsDistinct (xs ++ x ∷ [])
  IsDistinct-snoc x [] d new = ((λ m. Memᴰ.not-nil m), tt)
  IsDistinct-snoc x (y ∷ xs) d new = (
    λ m. ⊎_elim d.0 (λ e. new (Memᴰ.head (sym e))) ((Memᴰ-snoc y x xs).0 m),
    IsDistinct-snoc x xs d.1 (λ m. new (Memᴰ.tail m)),
  )

-- In a table whose keys are distinct a key has one value.
pub value_unique {ℓ κ} :
    {K : Type ℓ} {V : Type κ} (table : List (K × V))
    → IsDistinct (map (λ (p : K × V). p.0) table)
    → (k : K) (v w : V) → Memᴰ (k, v) table
    → Memᴰ (k, w) table
    → v ≡ w
value_unique [] d k v w mv mw = absurd (Memᴰ.not-nil mv)
value_unique {K} {V} (p ∷ table) d k v w mv mw =
    ⊎_elim
      (λ ev.
        ⊎_elim (λ ew. ap (λ (x : K × V). x.1) (ev ∙ sym ew))
          (λ tw.
            absurd (
              d.0
                (Memᴰ.cast (sym (ap (λ (x : K × V). x.0) ev)) (Memᴰ.map (λ (x : K × V). x.0) tw))))
          (Memᴰ.cases_cons mw))
      (λ tv.
        ⊎_elim
          (λ ew.
            absurd (
              d.0
                (Memᴰ.cast (sym (ap (λ (x : K × V). x.0) ew)) (Memᴰ.map (λ (x : K × V). x.0) tv))))
          (λ tw. value_unique table d.1 k v w tv tw) (Memᴰ.cases_cons mw))
      (Memᴰ.cases_cons mv)

module _ {ℓ} {A : Type ℓ} ⦃o : Order A⦄ where
  unfoldable pub contains : List A → A → Bool
  contains [] a = false
  contains (x ∷ xs) a = a == x || contains xs a

  unfoldable pub to_set : List A → List A
  unfolding contains
  to_set [] = []
  to_set (x ∷ xs) = let rest = to_set xs in if contains rest x then rest else x ∷ rest

  unfoldable pub has_duplicates : List A → Bool
  unfolding to_set
  has_duplicates xs = not (length xs == length (to_set xs))

  pub contains_iff : (xs : List A) (a : A) → (contains xs a ≡ true) ↔ Memᴰ a xs
  unfolding contains
  contains_iff [] a = (λ h. absurd (ground arith), λ m. absurd (Memᴰ.not-nil m))
  contains_iff (x ∷ xs) a = (
    λ h. elim (Bool-cases (a == x)) [
      | inl e ↦ Memᴰ.head (==→≡ a x e)
      | inr n ↦ Memᴰ.tail ((contains_iff xs a).0 (ground arith))
    ],
    λ m.
        ⊎_elim (λ e. rw (≡→== a x e)) (λ t. let r = (contains_iff xs a).1 t in ground arith)
          (Memᴰ.cases_cons m),
  )

  pub not-contains : (xs : List A) (a : A) → contains xs a ≡ false → ¬ Memᴰ a xs
  not-contains xs a h m = cc (h, (contains_iff xs a).1 m)

  pub contains_of_not : (xs : List A) (a : A) → (¬ Memᴰ a xs) → contains xs a ≡ false
  contains_of_not xs a h = elim (Bool-cases (contains xs a)) [
    | inl e ↦ absurd (h ((contains_iff xs a).0 e))
    | inr e ↦ e
  ]

  -- A set has the members of its list.
  pub Memᴰ-to_set : (a : A) (xs : List A) → Memᴰ a (to_set xs) ↔ Memᴰ a xs
  unfolding to_set
  Memᴰ-to_set a [] = (λ m. m, λ m. m)
  Memᴰ-to_set a (x ∷ xs) =
      let (down, up) = Memᴰ-to_set a xs in
      elim (Bool-cases (contains (to_set xs) x)) [
        | inl old ↦ rw old (
          λ m. Memᴰ.tail (down m),
          λ m.
              ⊎_elim (λ e. Memᴰ.cast e ((contains_iff (to_set xs) x).0 old)) up (Memᴰ.cases_cons m),
        )
        | inr new ↦ rw new (
          λ m. ⊎_elim Memᴰ.head (λ t. Memᴰ.tail (down t)) (Memᴰ.cases_cons m),
          λ m. ⊎_elim Memᴰ.head (λ t. Memᴰ.tail (up t)) (Memᴰ.cases_cons m),
        )
      ]

  pub length-to_set-le : (xs : List A) → length (to_set xs) ≤ length xs
  unfolding to_set
  length-to_set-le [] = omega arith
  length-to_set-le (x ∷ xs) = ground (arith, length-to_set-le xs)

  pub IsDistinct-to_set : (xs : List A) → IsDistinct (to_set xs)
  unfolding to_set
  IsDistinct-to_set [] = tt
  IsDistinct-to_set (x ∷ xs) = elim (Bool-cases (contains (to_set xs) x)) [
    | inl old ↦ rw old (IsDistinct-to_set xs)
    | inr new ↦ rw new (not-contains (to_set xs) x new, IsDistinct-to_set xs)
  ]

  IsDistinct-of_length : (xs : List A) → length xs ≡ length (to_set xs) → IsDistinct xs
  unfolding to_set
  IsDistinct-of_length [] h = tt
  IsDistinct-of_length (x ∷ xs) h = elim (Bool-cases (contains (to_set xs) x)) [
    | inl old ↦ absurd (ground (arith, length-to_set-le xs))
    | inr new ↦ (
      λ m. not-contains (to_set xs) x new ((Memᴰ-to_set x xs).1 m),
      IsDistinct-of_length xs (ground arith),
    )
  ]

  pub length_of_distinct : (xs : List A) → IsDistinct xs → length xs ≡ length (to_set xs)
  unfolding to_set
  length_of_distinct [] h = refl
  length_of_distinct (x ∷ xs) h =
      rw (contains_of_not (to_set xs) x (λ m. h.0 ((Memᴰ-to_set x xs).0 m)))
        (ap suc (length_of_distinct xs h.1))

  -- Comparing the length with that of the set finds the lists in which no value occurs twice.
  pub has_duplicates_iff : (xs : List A) → (has_duplicates xs ≡ false) ↔ IsDistinct xs
  unfolding has_duplicates
  has_duplicates_iff xs =
      (λ h. IsDistinct-of_length xs (ground arith), λ d. ground (arith, length_of_distinct xs d))

  -- `list(dict.fromkeys(xs))`: each value once, at its first place
  unfoldable pub from_keys : List A → List A
  from_keys [] = []
  from_keys (x ∷ xs) = x ∷ select (λ y. not (y == x)) (from_keys xs)

  pub Memᴰ-from_keys : (a : A) (xs : List A) → Memᴰ a (from_keys xs) ↔ Memᴰ a xs
  unfolding from_keys
  Memᴰ-from_keys a [] = (λ m. m, λ m. m)
  Memᴰ-from_keys a (x ∷ xs) =
      let (down, up) = Memᴰ-from_keys a xs in
      let (from, to) = Memᴰ-select (λ y. not (y == x)) a (from_keys xs) in
      (
        λ m. ⊎_elim Memᴰ.head (λ t. Memᴰ.tail (down (from t).0)) (Memᴰ.cases_cons m),
        λ m. elim (Bool-cases (a == x)) [
          | inl same ↦ Memᴰ.head (==→≡ a x same)
          | inr other ↦ ⊎_elim Memᴰ.head (λ t. Memᴰ.tail (to (up t, rw other))) (Memᴰ.cases_cons m)
        ],
      )

  pub IsDistinct-select : (p : A → Bool) (xs : List A) → IsDistinct xs → IsDistinct (select p xs)
  IsDistinct-select p [] d = tt
  IsDistinct-select p (x ∷ xs) d = elim (Bool-cases (p x)) [
    | inl kept ↦ rw kept (λ m. d.0 ((Memᴰ-select p x xs).0 m).0, IsDistinct-select p xs d.1)
    | inr dropped ↦ rw dropped (IsDistinct-select p xs d.1)
  ]

  pub from_keys-IsDistinct : (xs : List A) → IsDistinct (from_keys xs)
  unfolding from_keys
  from_keys-IsDistinct [] = tt
  from_keys-IsDistinct (x ∷ xs) = (
    λ m.
        let (at, other) = (Memᴰ-select (λ y. not (y == x)) x (from_keys xs)).0 m in
        both_ways (==-self x) (not_true (x == x) other),
    IsDistinct-select (λ y. not (y == x)) (from_keys xs) (from_keys-IsDistinct xs),
  )
    where
      not_true : (b : Bool) → not b ≡ true → b ≡ false
      not_true b h = ground arith

module _ {ℓ κ λ'} {A : Type ℓ} {K : Type κ} {B : Type λ'} ⦃o : Order K⦄ (key : A → K)
    (f : A → B) where
  pub IsDistinct-insert :
      (x : A) (ys : List A)
      → (¬ Memᴰ (f x) (map f ys))
      → IsDistinct (map f ys)
      → IsDistinct (map f (insert_by key x ys))
  unfolding insert_by
  IsDistinct-insert x [] new d = (new, d)
  IsDistinct-insert x (y ∷ ys) new d = elim (Bool-cases (key x <= key y)) [
    | inl first ↦ rw first (new, d)
    | inr later ↦ rw later (apart, IsDistinct-insert x ys (λ m. new (Memᴰ.tail m)) d.1)
  ]
    where
      apart : ¬ Memᴰ (f y) (map f (insert_by key x ys))
      apart m =
          let (z, at, e) = (Memᴰ-map f (f y) (insert_by key x ys)).0 m in
          ⊎_elim (λ same. new (Memᴰ.head (sym (ap f same) ∙ e)))
            (λ old. d.0 (Memᴰ.cast (sym e) (Memᴰ.map f old))) ((Memᴰ-insert_by key z x ys).0 at)

  -- Sorting keeps a field's values distinct.
  pub IsDistinct-sorted :
      (xs : List A) → IsDistinct (map f xs) → IsDistinct (map f (sorted_by key xs))
  unfolding sorted_by
  IsDistinct-sorted [] d = tt
  IsDistinct-sorted (x ∷ xs) d =
      IsDistinct-insert x (sorted_by key xs)
        (λ m.
          let (z, at, e) = (Memᴰ-map f (f x) (sorted_by key xs)).0 m in
          d.0 (Memᴰ.cast (sym e) (Memᴰ.map f ((Memᴰ-sorted_by key z xs).0 at))))
        (IsDistinct-sorted xs d.1)

map_id {ℓ} : {A : Type ℓ} (xs : List A) → map (λ x. x) xs ≡ xs
map_id [] = refl
map_id (x ∷ xs) = ap (◌∷◌ x) (map_id xs)

module _ {ℓ} {A : Type ℓ} ⦃o : Order A⦄ where
  pub IsDistinct-sorted_itself : (xs : List A) → IsDistinct xs → IsDistinct (sorted_by (λ x. x) xs)
  IsDistinct-sorted_itself xs d =
      subst IsDistinct (map_id (sorted_by (λ x. x) xs))
        (IsDistinct-sorted (λ x. x) (λ x. x) xs (subst IsDistinct (sym (map_id xs)) d))
