-- ===== src/Lib.antt =====
-- A verification library for data-ontology-graph, a graph of datasets whose relationships are
-- derived from the logical entities that their columns identify.
--
-- How the program works. A builder reads a definition of datasets and logical entities. Each dataset
-- has entity definitions: columns that identify instances of a logical entity, with claims on their
-- uniqueness, totality and conformance. `derive_relationships` joins every two definitions of one
-- logical entity, with a multiplicity and a match existence for each direction that follow from the
-- claims. A validated snapshot holds the datasets and the relationships. A read service then navigates
-- the snapshot: it expands neighbourhoods, lists paths and connects datasets.
--
-- Files and the code they model (paths from the repository's root):
--   Prelude/*              shared names, lists, orders, sorting, sets, texts and results; no code
--   Model/Enums, Claims    src/data_ontology_graph/model/enums.py, claims.py
--   Model/Columns          dataset_columns_must_be_canonical in model/dataset.py and relationship.py
--   Model/Definition/*     EntityDefinition and effective_description in model/dataset.py
--   Model/Dataset/*        DatasetNode and its parts in model/dataset.py
--   Model/Relationship/*   model/relationship.py
--   Model/Derivation/*     model/derivation.py; Meaning/* says what a claim states of stored data
--   Model/Snapshot/*       GraphSnapshot in model/snapshot.py
--   Model/Intermediary/*   model/intermediary.py, and the conversion to datasets
--   Builder, Build, Built  build_snapshot_from_definition in src/data_ontology_graph/builder/__init__.py
--   Builder/Report         builder/report.py
--   Builder/Contradictions builder/validate.py
--   Builder/Directory/*    builder/intermediary.py: paths, one collection file, the directory
--   Query/Neighbourhood/*  src/data_ontology_graph/query/neighbourhood.py
--   Query/Connecting/*     query/connecting.py
--   Query/Paths/*          query/paths.py
--   Service/Views/*        View.resolve and the catalogs of fields in service/views.py
--   Service/Labels/*       definition_label and split_edge_label in service/views.py, and the label
--                          of _edge_array in service/read.py
--   Service/Search/*       service/search.py, with the Unicode tables and the trie as arguments
--   Rpc/Protocol/*         JsonRpcDispatcher.dispatch in src/data_ontology_graph/rpc/protocol.py
--   Model/Sample           a catalog for the tests and witnesses in Model/Examples and Query/Examples
--
-- Conventions. A text is the list of its code points, compared as Python compares strings. A validator
-- that raises returns `err` with a value that names the message; where pydantic collects the
-- messages of several fields the model has the first. An optional result that the source gives as
-- `None` or as a KeyError is an `Option`. Python's `sorted` is a stable insertion sort, a set is a list
-- without repetition, and a dictionary that only looks keys up is a function or an association list in
-- order of insertion. A JSON or YAML value is data; the keys of its mappings are texts.
--
-- Bounds and fuel. Every loop of the modelled code runs over a list or for `depth` rounds, and
-- recursion is on that list or number, but for these. `DisjointSets.root` climbs to a root; it is given
-- one round more than the highest rank, which is enough since ranks ascend along the parents. The
-- regions of a connecting tree grow for at most two rounds more than there are ends of edges, since
-- every round but the last reaches a dataset that had no owner; a way back to a terminal has two rounds
-- more than the distance. A search for the shortest path has two rounds more than the states times one
-- more than the budget, since no state is queued again at a cost that is not lower; the trace of a path
-- has twice the budget and two; `k_shortest` has as many rounds as paths are asked for. The reading of
-- quoted columns has one round more than the text has characters. `decimal` prints an
-- index, with more rounds than the number has digits.
--
-- Not modelled: reading and writing files, the HTTP server and its launch agent, the clock, the
-- read service over these queries, its tables and contracts, and the interchange format. A snapshot's version is an argument of the build, and an
-- accessor's properties are not checked. The file system, the YAML parser, the Unicode tables, the
-- trie, pydantic's parsing of a payload and the service's answers to a call are arguments of the
-- definitions that use them.
pub mod Prelude
pub mod Model
pub mod Query
pub mod Builder
pub mod Service
pub mod Rpc
