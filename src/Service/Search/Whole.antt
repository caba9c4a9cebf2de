-- ===== src/Service/Search/Whole.antt =====
-- `LexicalSearchIndex.search` as a whole.
use mathlib.Core.List.Memᴰ
use data_ontology_graph.Prelude.{
  false, IsDistinct, ℕ, Text, List, any, is_empty, Memᴰ, Option, some, ◌≡◌, ◌⊎◌, nat_order,
  list_order, pair_order,
}
use data_ontology_graph.Service.Search.{Unicode, normalize_term, split}
use data_ontology_graph.Service.Search.Index.{SearchKind, SearchIndex}
use data_ontology_graph.Service.Search.Matching.{Match, Position, Trie}
use data_ontology_graph.Service.Search.Best.{Matches, Best, match_at}
use data_ontology_graph.Service.Search.Listed.{Hit, SearchGroup, selected_kinds, search}
use data_ontology_graph.Service.Search.Kept.{Keeps, IsSelected}
use data_ontology_graph.Service.Search.Returns.{AreHits, AreCut}
use data_ontology_graph.Service.Search.Stored.{keys_of}
use data_ontology_graph.Service.Search.Offered.{IsWhole, IsWorded}

module _ (u : Unicode) (x : SearchIndex) (trie : Trie) where
  -- What a query has found of a value: its subject is of a selected kind, and the query begins a term
  -- of the value or matches its words. A query without terms finds nothing.
  abbrev pub IsFound : Text → List SearchKind → Position → Match → Type 0
  IsFound normalized selected p m =
      (is_empty normalized ≡ false)
      × (IsWhole u x trie normalized p m ⊎ IsWorded u x trie (split normalized) selected p m)
      × IsSelected x.subjects selected p

  -- The dictionary keeps the least match found of each value, and has each subject and value once.
  pub record IsBest (normalized : Text) (selected : List SearchKind) (best : Best) : Type 0 where
    pub keeps : (p : Position) → Keeps (IsFound normalized selected p) (match_at best p)
    pub once : IsDistinct (keys_of best)
    pub values_once :
        (o : ℕ) (matches : Matches) → Memᴰ (o, matches) best → IsDistinct (keys_of matches)

  -- A search of the index answers: it ends without an error and returns the normalized query, one
  -- group for each selected kind in order, and whether one of the groups is truncated. The groups are
  -- cut off at the limit among hits, one for each subject with a match: the least match of each of
  -- its values that the query finds.
  abbrev pub IsAnswered : Text → ℕ → Option (List SearchKind) → Type 0
  IsAnswered query limit kinds =
      (groups : List SearchGroup) × (search u x trie query limit kinds
        ≡ some (normalize_term u query, groups, any (λ g. g.is_truncated) groups))
      × ((best : Best) × IsBest (normalize_term u query) (selected_kinds kinds) best
          × ((hits : List Hit) × AreHits x.subjects best hits
              × AreCut limit hits (selected_kinds kinds) groups))
