-- ===== src/Service/Labels/Reading.antt =====
-- Reading a label ends: every column takes a character of it at least.
use data_ontology_graph.Prelude.{
  ℕ, zero, suc, ◌≤◌, ◌<◌, Text, text, List, [], ◌∷◌, Bool, true, false, length, Result, ok, err,
  guard, ◌>>=◌, ◌==◌, nat_order, Bool-cases, ◌≢◌, inl, inr, arith, is_empty, none,
}
use data_ontology_graph.Service.Labels.{
  LabelProblem, until, is_stop, as_name, read_name, Following, following, read_columns,
  skip_bracket, read_side, expect, split_edge_label,
}
use data_ontology_graph.Service.Labels.Quoted.{
  Mode, Move, Pending, move, prepend, decode, raw_decode,
}

-- the string left fewer than `n` characters
abbrev LeavesString : ℕ → Result (Unit {0}) (Text × Text) → Type 0
LeavesString n (ok (name, rest)) = length rest < n
LeavesString n (err e) = Unit {0}

LeavesString-prepend :
    (n : ℕ) (out : Text) (r : Result (Unit {0}) (Text × Text))
    → LeavesString n r
    → LeavesString (suc n) (prepend out r)
LeavesString-prepend n out (ok (name, rest)) h = omega arith
LeavesString-prepend n out (err e) h = tt

decode_leaves : (m : Mode) (p : Pending) (cs : Text) → LeavesString (length cs) (decode m p cs)
unfolding decode
decode_leaves m p [] = tt
decode_leaves m p (c ∷ cs) = after (move m p c) (λ m' p'. decode_leaves m' p' cs)
  where
    after :
        (mv : Move)
        → ((m' : Mode) (p' : Pending) → LeavesString (length cs) (decode m' p' cs))
        → LeavesString (suc (length cs)) (elim mv [
          | Move.fail ↦ err tt
          | Move.done out ↦ ok (out, cs)
          | Move.go out mode' pending' ↦ prepend out (decode mode' pending' cs)
        ])
    after Move.fail again = tt
    after (Move.done out) again = omega arith
    after (Move.go out m' p') again =
        LeavesString-prepend (length cs) out (decode m' p' cs) (again m' p')

-- the rounds did not run out, and fewer than `n` characters are left
abbrev pub Leaves : {A : Type 0} → ℕ → Result LabelProblem (A × Text) → Type 0
Leaves n (ok (value, rest)) = length rest < n
Leaves n (err e) = e ≢ LabelProblem.out_of_rounds

until-Leaves : (stops : ℕ → Bool) (cs : Text) → Leaves (suc (length cs)) (until stops cs)
unfolding until
until-Leaves stops [] = cc
until-Leaves stops (c ∷ cs) = elim (Bool-cases (stops c)) [
  | inl stop ↦ rw stop (omega arith)
  | inr on ↦ rw on (longer (until stops cs) (until-Leaves stops cs))
]
  where
    longer :
        (r : Result LabelProblem (Text × Text))
        → Leaves (suc (length cs)) r
        → Leaves (suc (suc (length cs))) (r >>= λ (before, after). ok (c ∷ before, after))
    longer (ok (before, after)) h = omega arith
    longer (err e) h = h

read_name-Leaves : (cs : Text) → Leaves (suc (length cs)) (read_name cs)
unfolding read_name raw_decode
read_name-Leaves [] = until-Leaves is_stop []
read_name-Leaves (c ∷ cs) = elim (Bool-cases (c == 34)) [
  | inl quote ↦ rw quote (named (decode Mode.plain none cs) (decode_leaves Mode.plain none cs))
  | inr bare ↦ rw bare (until-Leaves is_stop (c ∷ cs))
]
  where
    named :
        (r : Result (Unit {0}) (Text × Text))
        → LeavesString (length cs) r
        → Leaves (suc (suc (length cs))) (as_name r)
    named (ok (name, rest)) h = omega arith
    named (err e) h = cc

-- what follows a name is shorter than `n` characters
abbrev Shorter : ℕ → Following → Type 0
Shorter n (Following.comma more) = length more < n
Shorter n (Following.bracket after) = length after < n
Shorter n Following.neither = Unit {0}

following-Shorter : (cs : Text) → Shorter (length cs) (following cs)
unfolding following
following-Shorter [] = tt
following-Shorter (c ∷ cs) = elim (Bool-cases (c == 44)) [
  | inl comma_ ↦ rw comma_ (omega arith)
  | inr other ↦ elim (Bool-cases (c == 93)) [
    | inl bracket_ ↦ rw (other, bracket_) (omega arith)
    | inr neither_ ↦ rw (other, neither_) tt
  ]
]

module _ (rounds n : ℕ)
    (again : (cs : Text) → length cs < rounds → Leaves (suc (length cs)) (read_columns rounds cs))
    (enough : n < suc rounds) where
  more_columns :
      (name more : Text)
      → length more < n
      → (r : Result LabelProblem (List Text × Text)) → Leaves (suc (length more)) r
      → Leaves (suc n) (r >>= λ (columns, after). ok (name ∷ columns, after))
  more_columns name more le (ok (columns, after)) k = omega arith
  more_columns name more le (err e) k = k

  after_name :
      (name : Text) (f : Following)
      → Shorter n f
      → Leaves (suc n) (elim f [
        | Following.comma more ↦
            read_columns rounds more >>= λ (columns, after). ok (name ∷ columns, after)
        | Following.bracket after ↦ ok (name ∷ [], after)
        | Following.neither ↦ err LabelProblem.not_an_edge
      ])
  after_name name (Following.comma more) h =
      more_columns name more h (read_columns rounds more) (again more (omega arith))
  after_name name (Following.bracket after) h = omega arith
  after_name name Following.neither h = cc

Shorter-mono : (m n : ℕ) (f : Following) → m ≤ n → Shorter m f → Shorter n f
Shorter-mono m n (Following.comma more) le h = omega arith
Shorter-mono m n (Following.bracket after) le h = omega arith
Shorter-mono m n Following.neither le h = tt

read_columns-Leaves :
    (rounds : ℕ) (cs : Text)
    → length cs < rounds
    → Leaves (suc (length cs)) (read_columns rounds cs)
unfolding read_columns
read_columns-Leaves zero cs h = absurd (omega arith)
read_columns-Leaves (suc rounds) cs h =
    named (read_name cs) (read_name-Leaves cs) (read_columns-Leaves rounds)
  where
    named :
        (r : Result LabelProblem (Text × Text))
        → Leaves (suc (length cs)) r
        → ((more : Text)
            → length more < rounds
            → Leaves (suc (length more)) (read_columns rounds more))
        → Leaves (suc (length cs)) (
            r >>= λ (name, rest). elim (following rest) [
              | Following.comma more ↦
                  read_columns rounds more >>= λ (columns, after). ok (name ∷ columns, after)
              | Following.bracket after ↦ ok (name ∷ [], after)
              | Following.neither ↦ err LabelProblem.not_an_edge
            ])
    named (err e) k again = k
    named (ok (name, rest)) k again = after_name rounds (length cs) again h name (following rest) (
        Shorter-mono (length rest) (length cs) (following rest) (omega arith)
          (following-Shorter rest))

-- the rounds did not run out
abbrev pub Ends : {A : Type 0} → Result LabelProblem A → Type 0
Ends r = r ≢ err LabelProblem.out_of_rounds

Ends->>= :
    {A B : Type 0} (r : Result LabelProblem A) (f : A → Result LabelProblem B)
    → Ends r
    → ((a : A) → Ends (f a))
    → Ends (r >>= f)
Ends->>= (ok a) f h k = k a
Ends->>= (err e) f h k = λ q. h (cc)

Ends-of : {A : Type 0} (n : ℕ) (r : Result LabelProblem (A × Text)) → Leaves n r → Ends r
Ends-of n (ok p) h = cc
Ends-of n (err e) h = λ q. h (cc)

skip_bracket_shorter : (cs : Text) → length (skip_bracket cs) < suc (length cs)
skip_bracket_shorter [] = omega arith
skip_bracket_shorter (c ∷ cs) = omega arith

read_side-Ends : (label : Text) → Ends (read_side label)
unfolding read_side
read_side-Ends label =
    Ends->>= (until (λ c. c == 91) label) _
      (Ends-of (suc (length label)) _ (until-Leaves (λ c. c == 91) label))
      λ (node_id, rest).
        Ends->>= (read_columns (suc (length rest)) (skip_bracket rest)) _
          (Ends-of _ _ (
            read_columns-Leaves (suc (length rest)) (skip_bracket rest)
              (skip_bracket_shorter rest)))
          λ (columns, after). cc

expect-Ends : (prefix label : Text) → Ends (expect prefix label)
unfolding expect
expect-Ends [] label = cc
expect-Ends (p ∷ prefix) [] = cc
expect-Ends (p ∷ prefix) (c ∷ cs) = elim (Bool-cases (c == p)) [
  | inl same ↦ rw same (expect-Ends prefix cs)
  | inr other ↦ rw other (cc)
]

-- Every text is read as an edge label or refused: the rounds for its columns never run out.
pub split_edge_label-Ends : (label : Text) → split_edge_label label ≢ err LabelProblem.out_of_rounds
unfolding split_edge_label
split_edge_label-Ends label = Ends->>= (read_side label) _ (read_side-Ends label) λ (start, rest).
    Ends->>= (expect (text " -> ") rest) _ (expect-Ends (text " -> ") rest) λ rest'.
      Ends->>= (read_side rest') _ (read_side-Ends rest') λ (end_, after).
        Ends->>= (guard (is_empty after) LabelProblem.not_an_edge) _ (guarded (is_empty after))
          λ u. cc
  where
    guarded : (b : Bool) → Ends (guard b LabelProblem.not_an_edge)
    guarded true = cc
    guarded false = cc
