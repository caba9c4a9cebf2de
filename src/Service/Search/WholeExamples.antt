-- ===== src/Service/Search/WholeExamples.antt =====
-- A trie that looks through the entries of an index, and a whole search with it.
use mathlib.Core.List.Memᴰ
use data_ontology_graph.Prelude.{Text, text, List, [], ◌∷◌, nat_order, list_order}
use data_ontology_graph.Model.Snapshot.{GraphSnapshot}
use data_ontology_graph.Service.Search.Index.{TermEntry, SearchIndex, search_index}
use data_ontology_graph.Service.Search.Matching.{Position}
use data_ontology_graph.Service.Search.Examples.{ascii, person}

abbrev entry_position : TermEntry → Position
entry_position e = (e.1, e.2)

abbrev item_of : TermEntry → Text × Position
item_of e = (e.0, (e.1, e.2))

abbrev people : GraphSnapshot
people = record {
  version = text "2026-01-01T00:00:00Z";
  logical_identities = person ∷ [];
  nodes = [];
  edges = [];
  annotations = [];
}

abbrev people_index : SearchIndex
people_index = search_index ascii (text "N/A" ∷ []) people
