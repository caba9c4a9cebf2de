-- ===== src/Service/Search/Matching.antt =====
-- How a query meets the values of the index: matches, the words of one value, and the best of each.
use mathlib.Core.List.{reverse}
use data_ontology_graph.Prelude.{
  ℕ, zero, suc, Text, text, List, [], ◌∷◌, Bool, true, false, ◌&&◌, map, length, take, join,
  contains, to_set, sorted_by, Option, none, some, if◌then◌else◌, ◌==◌, nat_order, list_order,
  pair_order,
}
use data_ontology_graph.Prelude.Options.{◌>>=◌}
use data_ontology_graph.Service.Search.Index.{SearchKind, SearchField, Subject}

-- The order of `SEARCH_KINDS`.
abbrev pub kind_number : SearchKind → ℕ
kind_number SearchKind.column = 0
kind_number SearchKind.dataset = 1
kind_number SearchKind.entity_definition = 2
kind_number SearchKind.identity = 3

-- `kind in selected`
abbrev pub is_selected : List SearchKind → SearchKind → Bool
is_selected selected kind = contains (map kind_number selected) (kind_number kind)

-- `(kind, field) in _WORD_MATCH_FIELDS`
abbrev pub is_word_field : SearchKind → SearchField → Bool
is_word_field SearchKind.dataset SearchField.qualified_name = true
is_word_field SearchKind.dataset SearchField.canonical_name = true
is_word_field SearchKind.identity SearchField.canonical_name = true
is_word_field _ _ = false

-- an entry of a tuple: `none` where the source raises `IndexError`
unfoldable pub entry_at : {A : Type 0} → List A → ℕ → Option A
entry_at [] n = none
entry_at (x ∷ xs) zero = some x
entry_at (x ∷ xs) (suc n) = entry_at xs n

-- (ordinal, value_index)
abbrev pub Position : Type 0
Position = ℕ × ℕ

-- (rank, term); the ranks are the positions in `_MATCH_TYPES`
abbrev pub Match : Type 0
Match = ℕ × Text

-- what marisa_trie gives of its entries
pub record Trie : Type 0 where
  pub get : Text → List Position
  pub iteritems : Text → List (Text × Position)

-- `word.startswith(query)`
unfoldable pub starts_with : Text → Text → Bool
starts_with word [] = true
starts_with [] (q ∷ query) = false
starts_with (c ∷ word) (q ∷ query) = c == q && starts_with word query

-- a window of the width of the query at the front, each of its words started by the query's
unfoldable pub starts_all : List Text → List Text → Bool
unfolding starts_with
starts_all words [] = true
starts_all [] (query ∷ queries) = false
starts_all (word ∷ words) (query ∷ queries) = starts_with word query && starts_all words queries

unfoldable pub find_window : List Text → List Text → Option (List Text)
unfolding starts_all
find_window [] queries = if starts_all [] queries then some [] else none
find_window (word ∷ words) queries =
    let rest = find_window words queries in
    if starts_all (word ∷ words) queries then some (take (length queries) (word ∷ words)) else rest

-- `next(...)`: `none` where the source raises `StopIteration`
unfoldable pub first_started : List Text → Text → Option Text
unfolding starts_with
first_started [] query = none
first_started (word ∷ words) query =
    let rest = first_started words query in if starts_with word query then some word else rest

unfoldable pub all_started : List Text → List Text → Option (List Text)
unfolding first_started
all_started words [] = some []
all_started words (query ∷ queries) = do
  matched ← first_started words query
  others ← all_started words queries
  some (matched ∷ others)

-- `_word_match`
unfoldable pub word_match : List Text → List Text → Option Match
unfolding find_window all_started join
word_match value_words query_words = elim (find_window value_words query_words) [
  | some window ↦ some (2, join (text " ") window)
  | none ↦ all_started value_words query_words >>= λ matched. some (3, join (text " ") matched)
]

-- `common is None or ... in common`
abbrev pub is_common : Option (List Position) → Position → Bool
is_common none position = true
is_common (some common) position = contains common position

-- `common or set()`
abbrev pub or_empty : Option (List Position) → List Position
or_empty none = []
or_empty (some common) = common

-- a value of a subject that is of a selected kind or not
abbrev pub is_word_value_of : Subject → ℕ → Bool → Option Bool
is_word_value_of subject value_index false = some false
is_word_value_of subject value_index true =
    entry_at subject.values value_index >>= λ value. some (is_word_field subject.kind value.0)

module _ (subjects : List Subject) (selected : List SearchKind) where
  -- the last two conditions of the comprehension
  unfoldable pub is_word_value : Position → Option Bool
  unfolding entry_at contains
  is_word_value (ordinal, value_index) = do
    subject ← entry_at subjects ordinal
    is_word_value_of subject value_index (is_selected selected subject.kind)

  unfoldable pub found_among :
      Option (List Position) → List (Text × Position) → Option (List Position)
  unfolding is_word_value contains
  found_among common [] = some []
  found_among common ((term, position) ∷ items) = elim (is_common common position) [
    | false ↦ found_among common items
    | true ↦ is_word_value position >>= λ kept.
        found_among common items >>= λ found. some (if kept then position ∷ found else found)
  ]

  module _ (trie : Trie) where
    -- the loop over the words, from the longest on
    unfoldable pub narrow : Option (List Position) → List Text → Option (List Position)
    unfolding found_among to_set
    narrow common [] = some (or_empty common)
    narrow common (word ∷ words) = found_among common (trie.iteritems word) >>= λ found.
        elim (to_set found) [
          | [] ↦ some []
          | position ∷ positions ↦ narrow (some (position ∷ positions)) words
        ]

    -- `_values_with_every_word`; how words of one length are ordered does not matter
    unfoldable pub values_with_every_word : List Text → Option (List Position)
    unfolding narrow to_set sorted_by
    values_with_every_word words =
        narrow none (reverse (sorted_by (λ (word : Text). length word) (to_set words)))
