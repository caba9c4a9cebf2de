-- ===== src/Service/Search/Listed.antt =====
-- `LexicalSearchIndex.search` as a whole, and `_group`: what of the best matches is listed.
use data_ontology_graph.Prelude.{
  ℕ, Text, List, [], ◌∷◌, ◌++◌, Bool, true, false, ltb, map, length, take, any, select, contains,
  is_empty, sorted_by, Option, none, some, if◌then◌else◌, ◌==◌, ◌<=◌, nat_order, list_order,
  pair_order, triple_order,
}
use data_ontology_graph.Prelude.Options.{◌>>=◌}
use data_ontology_graph.Service.Search.{Unicode, normalize_term, split}
use data_ontology_graph.Service.Search.Index.{SearchKind, Cell, Subject, SearchIndex}
use data_ontology_graph.Service.Search.Matching.{
  Match, Position, Trie, kind_number, is_selected, entry_at, word_match, values_with_every_word,
}
use data_ontology_graph.Service.Search.Best.{Matches, Best, Considered, consider_all}
use data_ontology_graph.Service.Search.Names.{
  field_name, field_number, match_row_header, match_types, search_kinds, subject_row_header,
}

pub record SearchGroup : Type 0 where
  pub kind : SearchKind
  pub is_truncated : Bool
  pub subject_row_header : List Text
  pub subject_rows : List (List Cell)
  pub match_row_header : List Text
  pub match_rows : List (List Text)

-- a subject with matches, with the rank of its best one
pub record Hit : Type 0 where
  pub rank : ℕ
  pub subject : Subject
  pub matches : Matches

-- one row with its place among the subject's: (rank, field, value_index)
unfoldable pub match_row : Subject → ℕ × Match → Option ((ℕ × ℕ × ℕ) × List Text)
unfolding entry_at
match_row subject (value_index, (rank, term)) = do
  value ← entry_at subject.values value_index
  match_type ← entry_at match_types rank
  name ← field_name subject.kind value.0
  some (
    (rank, field_number value.0, value_index),
    subject.key ∷ match_type ∷ name ∷ term ∷ value.1 ∷ [],
  )

unfoldable pub rows_of : Subject → Matches → Option (List ((ℕ × ℕ × ℕ) × List Text))
unfolding match_row
rows_of subject [] = some []
rows_of subject (m ∷ matches) = do
  row ← match_row subject m
  rows ← rows_of subject matches
  some (row ∷ rows)

unfoldable pub match_rows_of : List Hit → Option (List (List Text))
unfolding rows_of sorted_by
match_rows_of [] = some []
match_rows_of (hit ∷ hits) = do
  rows ← rows_of hit.subject hit.matches
  others ← match_rows_of hits
  some (
      map (λ (r : (ℕ × ℕ × ℕ) × List Text). r.1)
        (sorted_by (λ (r : (ℕ × ℕ × ℕ) × List Text). r.0) rows)
      ++ others)

-- `_group`
unfoldable pub group : SearchKind → List Hit → Bool → Option SearchGroup
unfolding match_rows_of
group kind hits truncated = do
  rows ← match_rows_of hits
  some (record {
    kind = kind;
    is_truncated = truncated;
    subject_row_header = subject_row_header kind;
    match_row_header = match_row_header;
    subject_rows = map (λ (hit : Hit). hit.subject.row) hits;
    match_rows = rows;
  })

-- `min(...)`: `none` where the source raises `ValueError`
unfoldable pub min_rank : Matches → Option ℕ
min_rank [] = none
min_rank ((i, m) ∷ matches) = elim (min_rank matches) [
  | none ↦ some m.0
  | some rank ↦ some (if m.0 <= rank then m.0 else rank)
]

unfoldable pub hits_of : List Subject → Best → Option (List Hit)
unfolding entry_at min_rank
hits_of subjects [] = some []
hits_of subjects ((ordinal, matches) ∷ best) = do
  subject ← entry_at subjects ordinal
  rank ← min_rank matches
  hits ← hits_of subjects best
  some (record { rank = rank; subject = subject; matches = matches } ∷ hits)

abbrev pub hit_key : Hit → ℕ × Text × Text
hit_key hit = (hit.rank, hit.subject.sort_label, hit.subject.key)

-- `ranked[kind]`
abbrev pub hits_of_kind : SearchKind → List Hit → List Hit
hits_of_kind kind hits =
    select (λ (hit : Hit). kind_number hit.subject.kind == kind_number kind) hits

unfoldable pub ordered_hits : SearchKind → List Hit → List Hit
unfolding sorted_by
ordered_hits kind hits = sorted_by hit_key (hits_of_kind kind hits)

-- one round of the loop over the selected kinds
unfoldable pub group_of : ℕ → List Hit → SearchKind → Option SearchGroup
unfolding group ordered_hits
group_of limit hits kind =
    let ordered = ordered_hits kind hits in
    group kind (take limit ordered) (ltb limit (length ordered))

unfoldable pub groups_of : ℕ → List Hit → List SearchKind → Option (List SearchGroup)
unfolding group_of
groups_of limit hits [] = some []
groups_of limit hits (kind ∷ kinds) = do
  g ← group_of limit hits kind
  groups ← groups_of limit hits kinds
  some (g ∷ groups)

-- `kinds is None or kind in set(kinds)`
abbrev pub is_wanted : Option (List SearchKind) → SearchKind → Bool
is_wanted none kind = true
is_wanted (some kinds) kind = is_selected kinds kind

unfoldable pub selected_kinds : Option (List SearchKind) → List SearchKind
unfolding contains
selected_kinds kinds = select (is_wanted kinds) search_kinds

abbrev pub as_exact : Text → Position → Considered
as_exact normalized position = (position, (0, normalized))

abbrev pub as_prefix : Text × Position → Considered
as_prefix (term, position) = (position, (1, term))

-- `term != normalized`
abbrev pub is_longer : Text → Text × Position → Bool
is_longer normalized (term, position) = if term == normalized then false else true

module _ (u : Unicode) (x : SearchIndex) (trie : Trie) where
  -- the matches of the values that hold every word, with their ranks
  unfoldable pub word_matches : List Text → List Position → Option (List Considered)
  unfolding entry_at word_match normalize_term split
  word_matches words [] = some []
  word_matches words (position ∷ positions) = do
    subject ← entry_at x.subjects position.0
    value ← entry_at subject.values position.1
    m ← word_match (split (normalize_term u value.1)) words
    others ← word_matches words positions
    some ((position, m) ∷ others)

  -- the calls of `consider` for the text of the whole query, exact and then by prefix
  unfoldable pub whole_matches : Text → List Considered
  whole_matches normalized =
      map (as_exact normalized) (trie.get normalized)
      ++ map as_prefix (select (is_longer normalized) (trie.iteritems normalized))

  -- those for the words, if there are several
  unfoldable pub split_matches : List SearchKind → List Text → Option (List Considered)
  unfolding word_matches values_with_every_word
  split_matches selected words = elim (ltb 1 (length words)) [
    | false ↦ some []
    | true ↦ values_with_every_word x.subjects selected trie words >>= word_matches words
  ]

  -- `none` where the source raises
  unfoldable pub search :
      Text → ℕ → Option (List SearchKind) → Option (Text × List SearchGroup × Bool)
  unfolding normalize_term split selected_kinds groups_of hits_of consider_all split_matches
      whole_matches group
  search query limit kinds = do
    let selected = selected_kinds kinds
    let normalized = normalize_term u query
    let hits_for = λ (found : List Considered).
        consider_all x.subjects selected [] (whole_matches normalized ++ found) >>= λ best.
        hits_of x.subjects best
    hits ←
        if is_empty normalized
        then some []
        else split_matches selected (split normalized) >>= hits_for
    groups ← groups_of limit hits selected
    some (normalized, groups, any (λ g. g.is_truncated) groups)
