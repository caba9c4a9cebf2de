-- ===== src/Service/Search/Best.antt =====
-- `best` of `LexicalSearchIndex.search`: for each value of a subject, the best of the matches considered.
use data_ontology_graph.Prelude.{
  ℕ, List, [], ◌∷◌, Bool, true, false, contains, Option, none, some, if◌then◌else◌, ◌==◌, ◌<=◌,
  nat_order, list_order, pair_order,
}
use data_ontology_graph.Prelude.Options.{◌>>=◌}
use data_ontology_graph.Service.Search.Index.{SearchKind, Subject}
use data_ontology_graph.Service.Search.Matching.{Match, Position, is_selected, entry_at}

-- the dictionaries in order of insertion
abbrev pub Matches : Type 0
Matches = List (ℕ × Match)

abbrev pub Best : Type 0
Best = List (ℕ × Matches)

-- `(rank, term) < current`
abbrev pub is_better : Match → Match → Bool
is_better m current = if current <= m then false else true

abbrev pub better : Match → Match → Match
better current m = if is_better m current then m else current

-- `if current is None or (rank, term) < current: matches[value_index] = (rank, term)`
unfoldable pub keep_match : Matches → ℕ → Match → Matches
keep_match [] value_index m = (value_index, m) ∷ []
keep_match ((i, current) ∷ matches) value_index m =
    let rest = keep_match matches value_index m in
    if i == value_index then (i, better current m) ∷ matches else (i, current) ∷ rest

-- the same in `best.setdefault(ordinal, {})`
unfoldable pub keep_best : Best → Position → Match → Best
unfolding keep_match
keep_best [] (ordinal, value_index) m = (ordinal, keep_match [] value_index m) ∷ []
keep_best ((o, matches) ∷ best) (ordinal, value_index) m =
    let rest = keep_best best (ordinal, value_index) m in
    if o == ordinal then (o, keep_match matches value_index m) ∷ best else (o, matches) ∷ rest

-- what `consider` is called with
abbrev pub Considered : Type 0
Considered = Position × Match

module _ (subjects : List Subject) (selected : List SearchKind) where
  unfoldable pub consider : Best → Considered → Option Best
  unfolding keep_best entry_at contains
  consider best (position, m) = do
    subject ← entry_at subjects position.0
    if is_selected selected subject.kind then some (keep_best best position m) else some best

  unfoldable pub consider_all : Best → List Considered → Option Best
  unfolding consider
  consider_all best [] = some best
  consider_all best (c ∷ cs) = consider best c >>= λ next. consider_all next cs

-- `best[ordinal][value_index]`, where both are there
abbrev pub match_in : Matches → ℕ → Option Match
match_in [] value_index = none
match_in ((i, m) ∷ matches) value_index =
    if i == value_index then some m else match_in matches value_index

abbrev pub match_at : Best → Position → Option Match
match_at [] position = none
match_at ((o, matches) ∷ best) position =
    if o == position.0 then match_in matches position.1 else match_at best position
