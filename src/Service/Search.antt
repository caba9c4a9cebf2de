-- ===== src/Service/Search.antt =====
-- service/search.py: terms, the fields that a subject is found by, and placeholders.
pub mod Index
pub mod Matching
pub mod Best
pub mod Kept
pub mod Names
pub mod Listed
pub mod Groups
pub mod Stored
pub mod Valid
pub mod Returns
pub mod Narrowed
pub mod Worded
pub mod Terms
pub mod Offered
pub mod Sound
pub mod Whole
mod Examples
mod WholeExamples
use data_ontology_graph.Prelude.{
  ℕ, zero, suc, Text, text, List, [], ◌∷◌, ◌++◌, Bool, true, false, not, ◌&&◌, leb, map, select,
  contains, to_set, join, is_empty, is_space, if◌then◌else◌, ◌==◌, nat_order, list_order,
}

-- What the Unicode tables give: `unicodedata.normalize("NFKC", ...)`, `str.casefold`, `str.isalnum`.
pub record Unicode : Type 0 where
  pub nfkc : Text → Text
  pub casefold : Text → Text
  pub is_alnum : ℕ → Bool

abbrev pub is_upper : ℕ → Bool
is_upper c = leb 65 c && leb c 90

abbrev pub is_lower : ℕ → Bool
is_lower c = leb 97 c && leb c 122

abbrev pub is_lower_or_digit : ℕ → Bool
is_lower_or_digit c = if is_lower c then true else leb 48 c && leb c 57

-- `_CAMEL_BOUNDARY_1.sub(" ", value)`
unfoldable pub camel_boundary_1 : Text → Text
camel_boundary_1 (a ∷ b ∷ cs) =
    let rest = camel_boundary_1 (b ∷ cs) in
    if is_lower_or_digit a && is_upper b then a ∷ 32 ∷ rest else a ∷ rest
camel_boundary_1 value = value

-- `_CAMEL_BOUNDARY_2.sub(" ", value)`
unfoldable pub camel_boundary_2 : Text → Text
camel_boundary_2 (a ∷ b ∷ c ∷ cs) =
    let rest = camel_boundary_2 (b ∷ c ∷ cs) in
    if is_upper a && is_upper b && is_lower c then a ∷ 32 ∷ rest else a ∷ rest
camel_boundary_2 value = value

-- the first word and the words after it; an empty first word is a leading space
abbrev pub split_words : Text → Text × List Text
split_words [] = ([], [])
split_words (c ∷ cs) =
    let (word, others) = split_words cs in
    if is_space c then ([], if is_empty word then others else word ∷ others) else (c ∷ word, others)

-- `value.split()`
unfoldable pub split : Text → List Text
split value =
    let (word, others) = split_words value in if is_empty word then others else word ∷ others

module _ (u : Unicode) where
  abbrev pub as_space : ℕ → ℕ
  as_space c = if u.is_alnum c then c else 32

  unfoldable pub normalize_term : Text → Text
  unfolding camel_boundary_1 camel_boundary_2 split join
  normalize_term value =
      let spaced = camel_boundary_1 (camel_boundary_2 (u.nfkc value)) in
      join (text " ") (split (map as_space (u.casefold spaced)))

  unfoldable pub index_terms : Text → List Text
  unfolding normalize_term split to_set
  index_terms value =
      let normalized = normalize_term value in
      if is_empty normalized then [] else to_set (normalized ∷ split normalized)

  -- `normalize_term(value) in PLACEHOLDER_TERMS`, with the placeholder texts of the source
  unfoldable pub is_placeholder : List Text → Text → Bool
  unfolding normalize_term contains
  is_placeholder placeholders value =
      contains (select (λ term. not (is_empty term)) (map normalize_term placeholders))
        (normalize_term value)

  unfoldable pub descriptive_text : List Text → Text → Text
  unfolding is_placeholder
  descriptive_text placeholders value = if is_placeholder placeholders value then [] else value
