-- ===== src/Prelude/Json.antt =====
-- JSON values, for fields that the program stores and never looks into. A number is its literal.
use data_ontology_graph.Prelude.Texts.{Text}
use mathlib.Core.Bool.{Bool}
use mathlib.Core.Option.{Option, none, some}
use data_ontology_graph.Prelude.Tests.{if◌then◌else◌}
use data_ontology_graph.Prelude.Orders.{◌==◌, nat_order, list_order}

mutual
  pub data Json : Type 0 where
    null : Json
    bool : Bool → Json
    number : Text → Json
    string : Text → Json
    array : Items → Json
    object : Fields → Json

  pub data Items : Type 0 where
    nil : Items
    item : Json → Items → Items

  pub data Fields : Type 0 where
    end : Fields
    field : Text → Json → Fields → Fields

-- `d.get(key)`
abbrev pub get : Fields → Text → Option Json
get Fields.end key = none
get (Fields.field k v fields) key = if k == key then some v else get fields key
