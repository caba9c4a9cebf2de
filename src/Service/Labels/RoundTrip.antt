-- ===== src/Service/Labels/RoundTrip.antt =====
-- The label of a directed edge is read back as the two definitions that it was made of.
use data_ontology_graph.Prelude.{
  ℕ, zero, suc, ◌≤◌, ◌<◌, Text, text, List, [], ◌∷◌, ◌++◌, Bool, true, false, ◌||◌, any, map, join,
  length, length-append, ok, ◌==◌, nat_order, Bool-cases, ◌≡◌, ◌≢◌, refl, ap, ◌∙◌, sym, inl, inr,
  arith, append_assoc, append-nil, Memᴰ,
}
use data_ontology_graph.Service.Labels.{
  is_mark, needs_quotes, column_label, definition_label, edge_label, until, is_stop, as_name,
  read_name, following, read_columns, read_side, expect, split_edge_label,
}
use data_ontology_graph.Service.Labels.Quoted.{escape, dumps, raw_decode-escape}

until-append :
    (stops : ℕ → Bool) (before : Text) (c : ℕ) (rest : Text)
    → any stops before ≡ false
    → stops c ≡ true
    → until stops (before ++ c ∷ rest) ≡ ok (before, c ∷ rest)
unfolding until
until-append stops [] c rest h stop = rw stop refl
until-append stops (x ∷ before) c rest h stop =
    let (first, others) = neither (stops x) (any stops before) h in
    rw (first, until-append stops before c rest others stop) refl
  where
    neither : (a b : Bool) → (a || b) ≡ false → (a ≡ false) × (b ≡ false)
    neither a b h = ground arith

no_stop : (column : Text) → any is_mark column ≡ false → any is_stop column ≡ false
no_stop [] h = refl
no_stop (c ∷ column) h = ground (arith, no_stop column)

-- a comma or a closing bracket ends a name
read_name-column_label :
    (column : Text) (d : ℕ) (rest : Text)
    → is_stop d ≡ true
    → read_name (column_label column ++ d ∷ rest) ≡ ok (column, d ∷ rest)
unfolding column_label
read_name-column_label column d rest stop = elim (Bool-cases (needs_quotes column)) [
  | inl quoted ↦ rw quoted (
      ap read_name
        (unfold dumps in ap (λ cs. 34 ∷ cs) (append_assoc (escape column) (34 ∷ []) (d ∷ rest)))
      ∙ (unfold read_name in ap as_name (raw_decode-escape column (d ∷ rest))))
  | inr bare ↦ rw bare (plain column (marks _ _ bare))
]
  where
    marks : (a b : Bool) → (a || b) ≡ false → a ≡ false
    marks a b h = ground arith

    stop_apart : (e : ℕ) → is_stop e ≡ true → (e == 34) ≡ false
    stop_apart e h = ground arith

    plain : (cs : Text) → any is_mark cs ≡ false → read_name (cs ++ d ∷ rest) ≡ ok (cs, d ∷ rest)
    plain [] h =
        unfold read_name in rw (stop_apart d stop) (until-append is_stop [] d rest refl stop)
    plain (c ∷ cs) h =
        let first : (c == 34) ≡ false = ground arith in
        unfold read_name in
        rw first (until-append is_stop (c ∷ cs) d rest (no_stop (c ∷ cs) h) stop)

abbrev names : List Text → Text
names columns = join (text ",") (map column_label columns)

read_columns-names :
    (rounds : ℕ) (column : Text) (columns : List Text) (rest : Text)
    → length columns < rounds
    → read_columns rounds (names (column ∷ columns) ++ 93 ∷ rest) ≡ ok (column ∷ columns, rest)
unfolding read_columns join following
read_columns-names zero column columns rest h = absurd (omega arith)
read_columns-names (suc rounds) column [] rest h =
    rw (read_name-column_label column 93 rest refl) refl
read_columns-names (suc rounds) column (next ∷ columns) rest h =
    let label = column_label column in
    let move = append_assoc label (44 ∷ names (next ∷ columns)) (93 ∷ rest) in
    rw move (
      rw (read_name-column_label column 44 (names (next ∷ columns) ++ 93 ∷ rest) refl)
        (rw (read_columns-names rounds next columns rest (omega arith)) refl))

-- There are no more names than characters.
length-names :
    (column : Text) (columns : List Text) → length columns ≤ length (names (column ∷ columns))
unfolding join
length-names column [] = omega arith
length-names column (next ∷ columns) = omega (
  arith,
  length-names next columns,
  length-append (column_label column) (44 ∷ names (next ∷ columns)),
)

no_bracket : (node_id : Text) → (¬ Memᴰ 91 node_id) → any (λ c. c == 91) node_id ≡ false
no_bracket [] h = refl
no_bracket (c ∷ cs) h = elim (Bool-cases (c == 91)) [
  | inl same ↦ absurd (h (Memᴰ.head (ground arith)))
  | inr other ↦ rw other (no_bracket cs (λ m. h (Memᴰ.tail m)))
]

read_side-label :
    (node_id column : Text) (columns : List Text) (rest : Text)
    → (¬ Memᴰ 91 node_id)
    → read_side (definition_label node_id (column ∷ columns) ++ rest)
      ≡ ok ((node_id, column ∷ columns), rest)
unfolding read_side definition_label
read_side-label node_id column columns rest plain =
    let inside = names (column ∷ columns) in
    rw
      (
        append_assoc node_id (91 ∷ (inside ++ 93 ∷ [])) rest,
        append_assoc inside (93 ∷ []) rest,
        until-append (λ c. c == 91) node_id 91 (inside ++ 93 ∷ rest) (no_bracket node_id plain)
            refl,
      )
      (rw
        (read_columns-names (suc (length (91 ∷ (inside ++ 93 ∷ rest)))) column columns rest
          (omega (arith, length-names column columns, length-append inside (93 ∷ rest))))
        refl)

-- If neither dataset's ID holds an opening bracket and both definitions have a column, the label of
-- a directed edge is split into the two datasets and their columns that it was made of, whatever
-- characters the columns' names hold.
pub split_edge_label-edge_label :
    (start end_ : Text) (start_columns end_columns : List Text)
    → (¬ Memᴰ 91 start)
    → (¬ Memᴰ 91 end_)
    → start_columns ≢ []
    → end_columns ≢ []
    → split_edge_label (edge_label (start, start_columns) (end_, end_columns))
      ≡ ok ((start, start_columns), (end_, end_columns))
unfolding split_edge_label edge_label expect
split_edge_label-edge_label start end_ [] _ _ _ h _ = absurd (h refl)
split_edge_label-edge_label start end_ (c ∷ cs) [] _ _ _ h = absurd (h refl)
split_edge_label-edge_label start end_ (c ∷ cs) (d ∷ ds) plain_start plain_end _ _ =
    let second = definition_label end_ (d ∷ ds) in
    let read = read_side-label end_ d ds [] plain_end in
    rw (read_side-label start c cs (text " -> " ++ second) plain_start)
      (rw (sym (append-nil second)) (rw read refl))
