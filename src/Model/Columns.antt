-- ===== src/Model/Columns.antt =====
-- `dataset_columns_must_be_canonical`, the same validator in model/relationship.py (JoinEndpoint)
-- and model/dataset.py (GrainComponent, EntityDefinition), with the field's `min_length=1`.
use mathlib.Core.Path.{ap₂}
use mathlib.Core.List.Memᴰ
use data_ontology_graph.Prelude.{
  Text, List, [], ◌∷◌, Memᴰ, ◌≡◌, ◌≢◌, refl, ap, sym, ◌∙◌, subst, ◌↔◌, true, false, not, Bool-cases,
  arith, inl, inr, any, any-witness, any_of, is_empty, ◌==◌, ==→≡, ≡→==, ◌<=◌, <=-antisymm, <=-self,
  ⊎_elim, nat_order, list_order, sorted_by, IsSortedBy, sorted_by-IsSortedBy,
  sorted_by_of_IsSortedBy, has_duplicates, has_duplicates_iff, IsDistinct, Result, ok, guard,
  guard-eq-ok, ◌>>◌,
}

pub data ColumnsProblem : Type 0 where
  too_short empty_name duplicate_columns unsorted_columns : ColumnsProblem

unfoldable pub dataset_columns_must_be_canonical : List Text → Result ColumnsProblem (List Text)
dataset_columns_must_be_canonical value = do
  guard (not (any is_empty value)) ColumnsProblem.empty_name
  guard (not (has_duplicates value)) ColumnsProblem.duplicate_columns
  guard (value == sorted_by (λ column. column) value) ColumnsProblem.unsorted_columns
  ok value

unfoldable pub check_columns : List Text → Result ColumnsProblem (List Text)
unfolding dataset_columns_must_be_canonical
check_columns value = do
  guard (not (is_empty value)) ColumnsProblem.too_short
  dataset_columns_must_be_canonical value

-- Each name is before all later ones.
abbrev pub IsAscending : List Text → Type 0
IsAscending [] = Unit
IsAscending (x ∷ xs) = ((y : Text) → Memᴰ y xs → ((x <= y) ≡ true) × (x ≢ y)) × IsAscending xs

pub record IsCanonical (value : List Text) : Type 0 where
  pub some_column : value ≢ []
  pub named : (column : Text) → Memᴰ column value → column ≢ []
  pub ascending : IsAscending value

abbrev by_name : Text → Text
by_name column = column

IsAscending-of : (xs : List Text) → IsDistinct xs → IsSortedBy by_name xs → IsAscending xs
IsAscending-of [] d s = tt
IsAscending-of (x ∷ xs) d s =
    (λ y m. (s.0 y m, λ e. d.0 (Memᴰ.cast e m)), IsAscending-of xs d.1 s.1)

IsDistinct-of : (xs : List Text) → IsAscending xs → IsDistinct xs
IsDistinct-of [] a = tt
IsDistinct-of (x ∷ xs) a = (λ m. (a.0 x m).1 refl, IsDistinct-of xs a.1)

sorted_of : (xs : List Text) → IsAscending xs → IsSortedBy by_name xs
sorted_of [] a = tt
sorted_of (x ∷ xs) a = (λ y m. (a.0 y m).0, sorted_of xs a.1)

is_empty_iff : (t : Text) → (is_empty t ≡ true) ↔ (t ≡ [])
is_empty_iff [] = (λ h. refl, λ h. refl)
is_empty_iff (c ∷ t) = (λ h. cc, λ h. cc)

canonical-eq-ok :
    (value columns : List Text)
    → dataset_columns_must_be_canonical value ≡ ok columns
    → (any is_empty value ≡ false)
      × (has_duplicates value ≡ false)
      × (value ≡ sorted_by by_name value)
      × (value ≡ columns)
unfolding dataset_columns_must_be_canonical
canonical-eq-ok value columns h =
    let (named, h1) = guard-eq-ok (not (any is_empty value)) _ _ h in
    let (single, h2) = guard-eq-ok (not (has_duplicates value)) _ _ h1 in
    let (sorted, h3) = guard-eq-ok (value == sorted_by by_name value) _ _ h2 in
    (ground arith, ground arith, ==→≡ value _ sorted, cc)

IsCanonical-of :
    (value : List Text)
    → value ≢ []
    → any is_empty value ≡ false
    → has_duplicates value ≡ false
    → value ≡ sorted_by by_name value
    → IsCanonical value
IsCanonical-of value some_column named single sorted = record {
  some_column = some_column;
  named = λ column m e. cc (any_of is_empty value m ((is_empty_iff column).1 e), named);
  ascending =
      IsAscending-of value ((has_duplicates_iff value).0 single)
        (subst (IsSortedBy by_name) (sym sorted) (sorted_by-IsSortedBy by_name value));
}

canonical_of :
    (value : List Text) → IsCanonical value → dataset_columns_must_be_canonical value ≡ ok value
unfolding dataset_columns_must_be_canonical
canonical_of value c =
    rw (named, (has_duplicates_iff value).1 (IsDistinct-of value c.ascending), sorted)
  where
    named : any is_empty value ≡ false
    named = elim (Bool-cases (any is_empty value)) [
      | inl e ↦
          let (column, m, empty) = any-witness is_empty value e in
          absurd (c.named column m ((is_empty_iff column).0 empty))
      | inr e ↦ e
    ]

    sorted : (value == sorted_by by_name value) ≡ true
    sorted =
        ≡→== value _ (sym (sorted_by_of_IsSortedBy by_name value (sorted_of value c.ascending)))

nonempty : (value : List Text) → not (is_empty value) ≡ true → value ≢ []
nonempty [] h = cc
nonempty (x ∷ xs) h = λ e. cc

not-empty : (value : List Text) → value ≢ [] → not (is_empty value) ≡ true
not-empty [] h = absurd (h refl)
not-empty (x ∷ xs) h = refl

ascending_unique :
    (xs ys : List Text)
    → IsAscending xs
    → IsAscending ys
    → ((column : Text) → Memᴰ column xs ↔ Memᴰ column ys)
    → xs ≡ ys
ascending_unique [] [] ax ay same = refl
ascending_unique [] (y ∷ ys) ax ay same = absurd (Memᴰ.not-nil ((same y).1 (Memᴰ.head refl)))
ascending_unique (x ∷ xs) [] ax ay same = absurd (Memᴰ.not-nil ((same x).0 (Memᴰ.head refl)))
ascending_unique (x ∷ xs) (y ∷ ys) ax ay same =
    ap₂ ◌∷◌ heads (ascending_unique xs ys ax.1 ay.1 (λ c. (down c, up c)))
  where
    least :
        (a b : Text) (rest : List Text)
        → IsAscending (a ∷ rest)
        → Memᴰ b (a ∷ rest)
        → (a <= b) ≡ true
    least a b rest asc m = ⊎_elim (λ e. rw e (<=-self a)) (λ t. (asc.0 b t).0) (Memᴰ.cases_cons m)

    heads : x ≡ y
    heads =
        <=-antisymm x y (least x y xs ax ((same y).1 (Memᴰ.head refl)))
          (least y x ys ay ((same x).0 (Memᴰ.head refl)))

    down : (c : Text) → Memᴰ c xs → Memᴰ c ys
    down c m =
        ⊎_elim (λ e. absurd ((ax.0 c m).1 (heads ∙ sym e))) (λ t. t)
          (Memᴰ.cases_cons ((same c).0 (Memᴰ.tail m)))

    up : (c : Text) → Memᴰ c ys → Memᴰ c xs
    up c m =
        ⊎_elim (λ e. absurd ((ay.0 c m).1 (sym heads ∙ sym e))) (λ t. t)
          (Memᴰ.cases_cons ((same c).1 (Memᴰ.tail m)))

-- The validators accept a column list exactly when it is not empty, no name in it is empty, and
-- each name is before all later ones, in code-point order and without repetition. What they accept
-- they return unchanged.
pub check_columns_iff :
    (value columns : List Text)
    → (check_columns value ≡ ok columns) ↔ ((value ≡ columns) × IsCanonical value)
unfolding check_columns
check_columns_iff value columns = (
  λ h.
      let (some_column, h1) = guard-eq-ok (not (is_empty value)) _ _ h in
      let (named, single, sorted, same) = canonical-eq-ok value columns h1 in
      (same, IsCanonical-of value (nonempty value some_column) named single sorted),
  λ (same, c). rw (not-empty value c.some_column) (canonical_of value c ∙ ap ok same),
)

-- Two column lists that the validators accept and that name the same columns are the same list,
-- so a key made of the list identifies the set of columns.
pub IsCanonical-unique :
    (xs ys : List Text)
    → IsCanonical xs
    → IsCanonical ys
    → ((column : Text) → Memᴰ column xs ↔ Memᴰ column ys)
    → xs ≡ ys
IsCanonical-unique xs ys cx cy same = ascending_unique xs ys cx.ascending cy.ascending same
