-- ===== src/Service.antt =====
-- src/data_ontology_graph/service: how responses are shaped.
pub mod Views
pub mod Labels
pub mod Search
