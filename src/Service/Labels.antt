-- ===== src/Service/Labels.antt =====
-- service/views.py: the labels of definitions and of directed edges, printed and read back.
pub mod Quoted
pub mod Reading
pub mod RoundTrip
mod Examples
use data_ontology_graph.Prelude.{
  ℕ, zero, suc, Text, text, List, [], ◌∷◌, ◌++◌, Bool, true, false, ◌&&◌, ◌||◌, any, map, join,
  Result, ok, err, guard, ◌>>=◌, ◌>>◌, if◌then◌else◌, ◌==◌, nat_order, length, is_empty,
}
use data_ontology_graph.Service.Labels.Quoted.{dumps, raw_decode}

abbrev pub is_mark : ℕ → Bool
is_mark c = c == 44 || c == 91 || c == 93 || c == 34

-- `"->" in column`
unfoldable pub has_arrow : Text → Bool
has_arrow (c ∷ d ∷ cs) = (c == 45 && d == 62) || has_arrow (d ∷ cs)
has_arrow _ = false

-- `any(mark in column for mark in _QUOTED)`
abbrev pub needs_quotes : Text → Bool
needs_quotes column = any is_mark column || has_arrow column

unfoldable pub column_label : Text → Text
unfolding dumps has_arrow
column_label column = if needs_quotes column then dumps column else column

unfoldable pub definition_label : Text → List Text → Text
unfolding column_label join
definition_label node_id columns =
    node_id ++ 91 ∷ (join (text ",") (map column_label columns) ++ 93 ∷ [])

-- `_edge_array`'s label of a directed edge
unfoldable pub edge_label : Text × List Text → Text × List Text → Text
unfolding definition_label
edge_label (start, start_columns) (end_, end_columns) =
    definition_label start start_columns ++ (text " -> " ++ definition_label end_ end_columns)

pub data LabelProblem : Type 0 where
  not_an_edge invalid_string out_of_rounds : LabelProblem

-- The rest of the label stands for the index into it. `label.find(c, index)`: what stands before
-- the first of such characters, and the rest from it on.
unfoldable pub until : (ℕ → Bool) → Text → Result LabelProblem (Text × Text)
until stops [] = err LabelProblem.not_an_edge
until stops (c ∷ cs) =
    let rest = until stops cs in
    if stops c then ok ([], c ∷ cs) else rest >>= λ (before, after). ok (c ∷ before, after)

abbrev pub is_stop : ℕ → Bool
is_stop c = c == 44 || c == 93

abbrev pub as_name : Result (Unit {0}) (Text × Text) → Result LabelProblem (Text × Text)
as_name (ok value) = ok value
as_name (err _) = err LabelProblem.invalid_string

-- one column name and the rest of the label
unfoldable pub read_name : Text → Result LabelProblem (Text × Text)
unfolding until raw_decode
read_name [] = until is_stop []
read_name (c ∷ cs) = if c == 34 then as_name (raw_decode cs) else until is_stop (c ∷ cs)

-- what follows a column name
pub data Following : Type 0 where
  comma bracket : Text → Following
  neither : Following

unfoldable pub following : Text → Following
following [] = Following.neither
following (c ∷ cs) =
    if c == 44
    then Following.comma cs
    else if c == 93
    then Following.bracket cs
    else Following.neither

-- `while True` over the columns of one side, with the rest after the closing bracket
unfoldable pub read_columns : ℕ → Text → Result LabelProblem (List Text × Text)
unfolding read_name following
read_columns zero label = err LabelProblem.out_of_rounds
read_columns (suc rounds) label = read_name label >>= λ (name, rest). elim (following rest) [
  | comma more ↦ read_columns rounds more >>= λ (columns, after). ok (name ∷ columns, after)
  | bracket after ↦ ok (name ∷ [], after)
  | neither ↦ err LabelProblem.not_an_edge
]

abbrev pub skip_bracket : Text → Text
skip_bracket [] = []
skip_bracket (c ∷ cs) = cs

-- one side: the dataset, and its columns; each column takes a character at least
unfoldable pub read_side : Text → Result LabelProblem ((Text × List Text) × Text)
unfolding until read_columns
read_side label = do
  (node_id, rest) ← until (λ c. c == 91) label
  (columns, after) ← read_columns (suc (length rest)) (skip_bracket rest)
  ok ((node_id, columns), after)

-- `label.startswith(prefix, index)`, and the rest after it
unfoldable pub expect : Text → Text → Result LabelProblem Text
expect [] label = ok label
expect (p ∷ prefix) [] = err LabelProblem.not_an_edge
expect (p ∷ prefix) (c ∷ cs) =
    let rest = expect prefix cs in if c == p then rest else err LabelProblem.not_an_edge

unfoldable pub split_edge_label :
    Text → Result LabelProblem ((Text × List Text) × (Text × List Text))
unfolding read_side expect
split_edge_label label = do
  (start, rest) ← read_side label
  rest' ← expect (text " -> ") rest
  (end_, after) ← read_side rest'
  guard (is_empty after) LabelProblem.not_an_edge
  ok (start, end_)
