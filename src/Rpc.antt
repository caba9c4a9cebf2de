-- ===== src/Rpc.antt =====
-- src/data_ontology_graph/rpc: the JSON-RPC protocol.
pub mod Protocol
