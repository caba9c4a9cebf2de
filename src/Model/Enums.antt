-- ===== src/Model/Enums.antt =====
-- model/enums.py, and `bool | Unknown`, the type of a yes-or-no claim.
use data_ontology_graph.Prelude.{Bool}

pub data Cardinality : Type 0 where
  one_to_one n_to_one one_to_n m_to_n unknown : Cardinality

pub data Multiplicity : Type 0 where
  one_to_one one_to_many many_to_one many_to_many unknown : Multiplicity

pub data MatchExistence : Type 0 where
  always optional unknown : MatchExistence

pub data EntityUniverse : Type 0 where
  complete partial unknown : EntityUniverse

pub data Claim : Type 0 where
  known : Bool → Claim
  unknown : Claim
