-- ===== src/Model.antt =====
-- src/data_ontology_graph/model: the graph's data, the checks on it and the derived relationships.
pub mod Enums
pub mod Claims
pub mod Columns
pub mod Definition
pub mod Relationship
pub mod Dataset
pub mod Derivation
pub mod Snapshot
pub mod Intermediary
pub mod Sample
mod Examples
