-- ===== src/Model/Sample.antt =====
-- A small catalog for tests: customers, complete and unique, and their orders.
use data_ontology_graph.Prelude.{text, Text, List, [], ◌∷◌, some, true, false}
use data_ontology_graph.Prelude.Json
use data_ontology_graph.Model.Enums.{EntityUniverse, Claim}
use data_ontology_graph.Model.Definition.{EntityDefinition}
use data_ontology_graph.Model.Dataset.{
  DatasetNode, DatasetDescriptor, DatasetAccessor, ColumnMetadata, Grain,
}
use data_ontology_graph.Model.Snapshot.{LogicalIdentity}

abbrev pub column : Text → ColumnMetadata
column name = record { name = name; description = []; value_description = []; synonyms = [] }

abbrev pub descriptor : Text → DatasetDescriptor
descriptor name = record {
  qualified_name = name;
  display_name = name;
  description = [];
  synonyms = [];
  tags = [];
}

abbrev pub accessor : DatasetAccessor
accessor = record { schema_id = text "accessor.sqlite.v1"; properties = Json.end }

abbrev pub customer_id : EntityDefinition
customer_id = record {
  identity_id = text "customer";
  dataset_columns = text "id" ∷ [];
  entity_universe = EntityUniverse.complete;
  unique = Claim.known true;
  total = Claim.known true;
  conforms = Claim.unknown;
  entity_expression = [];
  entity_metadata = Json.end;
  description = [];
}

abbrev pub buyer_id : EntityDefinition
buyer_id = record {
  identity_id = text "customer";
  dataset_columns = text "buyer" ∷ [];
  entity_universe = EntityUniverse.partial;
  unique = Claim.known false;
  total = Claim.known true;
  conforms = Claim.known true;
  entity_expression = text "[buyer]" ∷ [];
  entity_metadata = Json.end;
  description = [];
}

abbrev pub customers : DatasetNode
customers = record {
  node_id = text "sqlite:crm.customers";
  descriptor = descriptor (text "customers");
  accessor = accessor;
  grain = Grain.known (record {
    components =
        record {
          dataset_columns = text "id" ∷ [];
          identity_id = some (text "customer");
          description = [];
        }
        ∷ [];
    description = [];
  });
  columns = column (text "id") ∷ column (text "name") ∷ [];
  entity_definitions = customer_id ∷ [];
}

abbrev pub orders : DatasetNode
orders = record {
  node_id = text "sqlite:crm.orders";
  descriptor = descriptor (text "orders");
  accessor = accessor;
  grain = Grain.unknown;
  columns = column (text "buyer") ∷ column (text "total") ∷ [];
  entity_definitions = buyer_id ∷ [];
}

abbrev pub catalog : List DatasetNode
catalog = orders ∷ customers ∷ []

abbrev pub customer : LogicalIdentity
customer = record {
  identity_id = text "customer";
  name = text "Customer";
  description = [];
  synonyms = [];
}
