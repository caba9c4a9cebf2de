-- ===== src/Model/Definition/Description.antt =====
-- `effective_description` of model/dataset.py.
use data_ontology_graph.Prelude.{
  Text, text, List, [], ◌∷◌, ◌++◌, Memᴰ, true, false, not, any, any_of, is_empty, strip, Option,
  none, some, if◌then◌else◌, contains, contains_iff, Bool-cases, arith, ◌≡◌, ◌↔◌, refl, inl, inr,
  nat_order, list_order, any-witness, ap,
}

pub data DescriptionSource : Type 0 where
  entity column : DescriptionSource

-- the name between a wrapper's two halves: bare, in brackets, in double quotes, in backticks
abbrev wrapped : Text → Text → Text → Text
wrapped left name right = left ++ (name ++ right)

pub references : Text → List Text
references name =
    wrapped [] name []
    ∷ wrapped (text "[") name (text "]")
    ∷ wrapped (text "\"") name (text "\"")
    ∷ wrapped (text "`") name (text "`")
    ∷ []

-- `column_descriptions.get(name, "")`
unfoldable pub description_of : List (Text × Text) → Text → Text
unfolding contains
description_of [] name = []
description_of ((other, description) ∷ rest) name =
    if contains (other ∷ []) name then description else description_of rest name

-- The description of the only column, if that column is unmodified and described.
unfoldable pub column_description :
    List Text → List Text → List (Text × Text) → Option (Text × DescriptionSource)
unfolding references
column_description (name ∷ []) expressions descriptions =
    if any (λ expression. not (contains (references name) (strip expression))) expressions
    then none
    else if is_empty (strip (description_of descriptions name))
    then none
    else some (description_of descriptions name, column)
column_description _ expressions descriptions = none

unfoldable pub effective_description :
    Text → List Text → List Text → List (Text × Text) → Option (Text × DescriptionSource)
unfolding column_description
effective_description description dataset_columns entity_expression column_descriptions =
    if is_empty (strip description)
    then column_description dataset_columns entity_expression column_descriptions
    else some (description, entity)

-- A text that is not only white space.
abbrev pub IsVisible : Text → Type 0
IsVisible t = is_empty (strip t) ≡ false

-- What describes a definition with these fields.
pub data Describes (description : Text) (columns expressions : List Text)
    (descriptions : List (Text × Text)) (found : Text) (source : DescriptionSource) : Type 0 where
  own :
      source ≡ entity
      → found ≡ description
      → IsVisible description
      → Describes description columns expressions descriptions found source
  lent :
      (name : Text)
      → source ≡ column
      → is_empty (strip description) ≡ true
      → columns ≡ name ∷ []
      → ((e : Text) → Memᴰ e expressions → Memᴰ (strip e) (references name))
      → found ≡ description_of descriptions name
      → IsVisible found
      → Describes description columns expressions descriptions found source

modified_none :
    (name : Text) (expressions : List Text)
    → any (λ e. not (contains (references name) (strip e))) expressions ≡ false
    → (e : Text) → Memᴰ e expressions
    → Memᴰ (strip e) (references name)
modified_none name expressions h e m = elim (Bool-cases (contains (references name) (strip e))) [
  | inl inside ↦ (contains_iff (references name) (strip e)).0 inside
  | inr outside ↦ absurd (clash outside)
]
  where
    clash : contains (references name) (strip e) ≡ false → ⊥
    clash outside =
        let found =
          any_of (λ e. not (contains (references name) (strip e))) expressions m (ap not outside) in
        cc (h, found)

lent_of :
    (description : Text) (columns expressions : List Text) (descriptions : List (Text × Text))
    (found : Text) (source : DescriptionSource)
    → is_empty (strip description) ≡ true
    → column_description columns expressions descriptions ≡ some (found, source)
    → Describes description columns expressions descriptions found source
unfolding column_description
lent_of d [] es m found source blank h = cc
lent_of d (name ∷ other ∷ rest) es m found source blank h = cc
lent_of d (name ∷ []) es m found source blank h =
    elim (Bool-cases (any (λ e. not (contains (references name) (strip e))) es)) [
      | inl modified ↦ absurd (ground (arith, modified))
      | inr plain ↦ elim (Bool-cases (is_empty (strip (description_of m name)))) [
        | inl silent ↦ absurd (ground (arith, plain, silent))
        | inr visible ↦
            lent name (ground (arith, plain, visible)) blank refl (modified_none name es plain)
              (ground (arith, plain, visible)) (ground (arith, plain, visible))
      ]
    ]

lent_back :
    (description name : Text) (expressions : List Text) (descriptions : List (Text × Text))
    → ((e : Text) → Memᴰ e expressions → Memᴰ (strip e) (references name))
    → IsVisible (description_of descriptions name)
    → column_description (name ∷ []) expressions descriptions
      ≡ some (description_of descriptions name, column)
unfolding column_description
lent_back d name es m plain visible = rw (unmodified, visible)
  where
    unmodified : any (λ e. not (contains (references name) (strip e))) es ≡ false
    unmodified = elim (Bool-cases (any (λ e. not (contains (references name) (strip e))) es)) [
      | inl h ↦
          let (e, at, outside) =
            any-witness (λ e. not (contains (references name) (strip e))) es h in
          absurd (cc ((contains_iff (references name) (strip e)).1 (plain e at), outside))
      | inr h ↦ h
    ]

-- A definition is described by its own description, if that is more than white space. Otherwise
-- it is described by its column's, if it has one column, every expression is that column's name,
-- bare or wrapped, up to white space around it, and the column's description is more than white
-- space. In all other cases it has no effective description.
pub effective_description_iff :
    (description : Text) (columns expressions : List Text) (descriptions : List (Text × Text))
    (found : Text) (source : DescriptionSource)
    → (effective_description description columns expressions descriptions ≡ some (found, source))
      ↔ Describes description columns expressions descriptions found source
unfolding effective_description
effective_description_iff d columns es m found source = (
  λ h. elim (Bool-cases (is_empty (strip d))) [
    | inl blank ↦ lent_of d columns es m found source blank (rw blank at h)
    | inr visible ↦ own (ground (arith, visible)) (ground (arith, visible)) visible
  ],
  elim [
    | own from same visible ↦ rw (visible, from, same)
    | lent name from blank only plain same visible ↦
        rw (blank, only, from, same) (lent_back d name es m plain (rw same at visible))
  ],
)
