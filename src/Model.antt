-- ===== src/Model.antt =====
-- src/dotmac_observability/model.py: the typed contract surface. A tuple is a list, a mapping a
-- `Dict`, an optional value an `Option`; counts are natural numbers, as the contracts demand.
mod PublicRecords
mod PrivateRecords
mod BundleRecords
mod IngestionRecords
pub use PublicRecords.*
pub use PrivateRecords.*
pub use BundleRecords.*
pub use IngestionRecords.*
use dotmac_observability.Prelude.{List}
use PublicRecords.{ControlPlane, TargetSet, Federation, Receiver, RouteDefaults, Route, Inhibition}
use BundleRecords.{Bundle}
use IngestionRecords.{Ingestion}

pub record DesiredState : Type 0 where
  pub control_plane : ControlPlane
  pub bundle : Bundle
  pub ingestion : Ingestion
  pub targets : List TargetSet
  pub federations : List Federation
  pub receivers : List Receiver
  pub defaults : RouteDefaults
  pub routes : List Route
  pub inhibitions : List Inhibition
