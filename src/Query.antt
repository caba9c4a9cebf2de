-- ===== src/Query.antt =====
-- src/data_ontology_graph/query: navigation over the relationships of a snapshot.
pub mod Neighbourhood
pub mod Connecting
pub mod Paths
mod Examples
