-- ===== src/Service/Search/Examples.antt =====
-- A small index and searches in it, and the theorems about the search at concrete inputs.
use mathlib.Core.List.Memᴰ
use data_ontology_graph.Prelude.{
  ℕ, ◌+◌, Text, text, List, [], ◌∷◌, Bool, true, ◌&&◌, leb, map, select, Memᴰ, Option, none, some,
  if◌then◌else◌, ◌==◌, ◌≡◌, refl, sym, subst, arith, nat_order, list_order, pair_order,
}
use data_ontology_graph.Model.Snapshot.{LogicalIdentity}
use data_ontology_graph.Service.Search.{Unicode, normalize_term, index_terms, descriptive_text}
use data_ontology_graph.Service.Search.Index.{
  SearchKind, SearchField, Cell, Subject, SearchIndex, TermEntry, add_subject, identity_draft,
}
use data_ontology_graph.Service.Search.Matching.{Position, Trie, entry_at, starts_with, word_match}
use data_ontology_graph.Service.Search.Best.{Best, Considered, consider_all, match_at}
use data_ontology_graph.Service.Search.Kept.{Keeps, IsConsidered, consider_all_returns}
use data_ontology_graph.Service.Search.Listed.{Hit, SearchGroup, group_of, search}
use data_ontology_graph.Service.Search.Groups.{IsListable, IsCut, group_of_returns}

-- ASCII
abbrev pub lower : ℕ → ℕ
lower c = if leb 65 c && leb c 90 then c + 32 else c

abbrev pub ascii_alnum : ℕ → Bool
ascii_alnum c =
    if leb 97 c && leb c 122
    then true
    else if leb 65 c && leb c 90
    then true
    else leb 48 c && leb c 57

abbrev pub ascii : Unicode
ascii = record { nfkc = λ value. value; casefold = map lower; is_alnum = ascii_alnum }

-- a trie that looks through all entries
abbrev pub trie_of : List TermEntry → Trie
trie_of entries = record {
  get = λ query.
      map (λ (e : TermEntry). (e.1, e.2)) (select (λ (e : TermEntry). e.0 == query) entries);
  iteritems = λ query.
      map (λ (e : TermEntry). (e.0, (e.1, e.2)))
        (select (λ (e : TermEntry). starts_with e.0 query) entries);
}

terms : normalize_term ascii (text "CustomerID (v2)") ≡ text "customer id v2"
unfolding normalize_term
terms = refl

phrase :
    word_match (text "gold" ∷ text "customer" ∷ text "id" ∷ []) (text "cust" ∷ text "id" ∷ [])
    ≡ some (2, text "customer id")
unfolding word_match
phrase = refl

all_words :
    word_match (text "id" ∷ text "gold" ∷ text "customer" ∷ []) (text "cust" ∷ text "id" ∷ [])
    ≡ some (3, text "customer id")
unfolding word_match
all_words = refl

abbrev pub person : LogicalIdentity
person = record {
  identity_id = text "p1";
  name = text "Gold Customer";
  description = text "n/a";
  synonyms = text "buyer" ∷ [];
}

abbrev index : SearchIndex
index =
    add_subject ascii (record { subjects = []; entries = [] })
      (identity_draft ascii (text "N/A" ∷ []) person)

-- the placeholder gives no value
indexed :
    map (λ (s : Subject). map (λ (v : SearchField × Text). v.1) s.values) index.subjects
    ≡ (text "p1" ∷ text "Gold Customer" ∷ text "buyer" ∷ []) ∷ []
unfolding add_subject index_terms descriptive_text
indexed = refl

abbrev rows : Option (Text × List SearchGroup × Bool) → List (List (List Text))
rows none = []
rows (some (normalized, groups, truncated)) = map (λ (g : SearchGroup). g.match_rows) groups

-- by a word of the name, by a prefix of it, and by its words in another order
searched :
    rows
      (search ascii index (trie_of index.entries) (text "gold") 5 (some (SearchKind.identity ∷ [])))
    ≡ ((text "p1" ∷ text "exact" ∷ text "name" ∷ text "gold" ∷ text "Gold Customer" ∷ []) ∷ []) ∷ []
unfolding search add_subject index_terms descriptive_text starts_with
searched = refl

searched_prefix :
    rows
      (search ascii index (trie_of index.entries) (text "Gol") 5 (some (SearchKind.identity ∷ [])))
    ≡ ((text "p1" ∷ text "prefix" ∷ text "name" ∷ text "gold" ∷ text "Gold Customer" ∷ []) ∷ [])
      ∷ []
unfolding search add_subject index_terms descriptive_text starts_with
searched_prefix = refl

searched_words :
    rows (
      search ascii index
        (trie_of index.entries)
        (text "cust go")
        5
        (some (SearchKind.identity ∷ [])))
    ≡ ((text "p1"
          ∷ text "all_words"
          ∷ text "name"
          ∷ text "customer gold"
          ∷ text "Gold Customer"
          ∷ [])
        ∷ [])
      ∷ []
unfolding search add_subject index_terms descriptive_text starts_with
searched_words = refl

abbrev found_values : List Considered
found_values =
    ((0, 1), (1, text "gold customer"))
    ∷ ((0, 1), (0, text "gold"))
    ∷ ((0, 2), (1, text "buyer"))
    ∷ []

abbrev found_subject : Subject
found_subject = record {
  kind = SearchKind.identity;
  key = text "p1";
  sort_label = text "gold customer";
  row = Cell.one (text "p1") ∷ Cell.one (text "Gold Customer") ∷ [];
  values =
      (SearchField.stable_id, text "p1")
      ∷ (SearchField.canonical_name, text "Gold Customer")
      ∷ (SearchField.synonym, text "buyer")
      ∷ [];
}

first_subject :
    (c : Considered)
    → Memᴰ c found_values
    → (s : Subject) × (entry_at (found_subject ∷ []) c.0.0 ≡ some s)
unfolding entry_at
first_subject c (Memᴰ.head e) = (found_subject, rw e refl)
first_subject c (Memᴰ.tail (Memᴰ.head e)) = (found_subject, rw e refl)
first_subject c (Memᴰ.tail (Memᴰ.tail (Memᴰ.head e))) = (found_subject, rw e refl)
first_subject c (Memᴰ.tail (Memᴰ.tail (Memᴰ.tail m))) = absurd (Memᴰ.not-nil m)

consider_all_returns_example :
    (best : Best) × (consider_all (found_subject ∷ []) (SearchKind.identity ∷ []) [] found_values
      ≡ some best)
    × ((p : Position)
        → Keeps
            (IsConsidered (found_subject ∷ []) (SearchKind.identity ∷ []) found_values p)
            (match_at best p))
consider_all_returns_example =
    consider_all_returns (found_subject ∷ []) (SearchKind.identity ∷ []) found_values first_subject

abbrev hit : Hit
hit = record { rank = 0; subject = found_subject; matches = (1, (0, text "gold")) ∷ [] }

hit-IsListable : (h : Hit) → Memᴰ h (hit ∷ []) → IsListable h
unfolding entry_at
hit-IsListable h (Memᴰ.head e) = subst IsListable (sym e) listable
  where
    listable : IsListable hit
    listable m (Memᴰ.head e') =
        rw e' (omega arith, ((SearchField.canonical_name, text "Gold Customer"), refl, (_, refl)))
    listable m (Memᴰ.tail t) = absurd (Memᴰ.not-nil t)
hit-IsListable h (Memᴰ.tail t) = absurd (Memᴰ.not-nil t)

group_of_returns_example :
    (g : SearchGroup) × (group_of 1 (hit ∷ []) SearchKind.identity ≡ some g)
    × (g.kind ≡ SearchKind.identity)
    × ((listed : List Hit) × IsCut 1 (hit ∷ []) g listed)
group_of_returns_example = group_of_returns 1 (hit ∷ []) SearchKind.identity hit-IsListable
