-- ===== src/Model/IngestionRecords.antt =====
-- Records of src/dotmac_observability/model.py: the telemetry ingestion contract.
use dotmac_observability.Prelude.{ℕ, String, Bool, Option, List}

pub record ResourceField : Type 0 where
  pub field : String
  pub required : Bool
  pub cardinality : String
  pub rationale : String

pub record Identifier : Type 0 where
  pub name : String
  pub means : String
  pub transport : String
  pub signals : List String

pub record Attribution : Type 0 where
  pub values : List String
  pub unresolved : String
  pub rationale : String

pub record LabelBudget : Type 0 where
  pub max_stream_labels : ℕ
  pub rationale : String

pub record AttributeValidation : Type 0 where
  pub kind : String
  pub values : List String
  pub shape : Option String
  pub rationale : Option String

pub record AcceptedAttribute : Type 0 where
  pub name : String
  pub signals : List String
  pub disposition : String
  pub cardinality : String
  pub validation : AttributeValidation
  pub rationale : String

pub record PlantedProbe : Type 0 where
  pub attribute : String
  pub value_shape : String

pub record RejectionRule : Type 0 where
  pub name : String
  pub kind : String
  pub match : String
  pub rationale : String
  pub planted : List PlantedProbe

pub record ControlAttribute : Type 0 where
  pub name : String
  pub value_shape : String

pub record ControlRecord : Type 0 where
  pub name : String
  pub signal : String
  pub attributes : List ControlAttribute

pub record LagUnmeasured : Type 0 where
  pub rationale : String
  pub monitored_by : String

pub record Stream : Type 0 where
  pub signal : String
  pub arrival_counter : String
  pub integrity_counter : String
  pub integrity_window : String
  pub lag_expr : Option String
  pub lag_budget : Option String
  pub lag_unmeasured : Option LagUnmeasured
  pub silence_budget : String
  pub retention_class : String
  pub rationale : String

pub record Sensitivity : Type 0 where
  pub planted_condition : String
  pub procedure_ref : String
  pub last_proved : Option String

pub record DeadmanSignal : Type 0 where
  pub name : String
  pub expr : String
  pub hold : String
  pub summary : String
  pub sensitivity : Sensitivity

pub record Deadman : Type 0 where
  pub unproved_declared : ℕ
  pub signals : List DeadmanSignal

pub record Rebuild : Type 0 where
  pub procedure_ref : String
  pub compare : String
  pub last_rebuilt : Option String
  pub verdict : String

pub record Projection : Type 0 where
  pub name : String
  pub status : String
  pub authoritative : Bool
  pub derived_from : String
  pub lag_expr : String
  pub lag_budget : String
  pub source_retention : String
  pub retention_class : String
  pub non_authority_notice : String
  pub rebuild : Rebuild

pub record RetentionClass : Type 0 where
  pub name : String
  pub kind : String
  pub duration : String
  pub access : List String
  pub last_copy : Bool
  pub rationale : String

pub record Ingestion : Type 0 where
  pub resource : List ResourceField
  pub identifiers : List Identifier
  pub attribution : Attribution
  pub labels : LabelBudget
  pub attributes : List AcceptedAttribute
  pub rejected : List RejectionRule
  pub accepted_control : List ControlRecord
  pub streams : List Stream
  pub deadman : Deadman
  pub projection : Projection
  pub retention : List RetentionClass
