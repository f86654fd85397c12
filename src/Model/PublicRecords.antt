-- ===== src/Model/PublicRecords.antt =====
-- Records of src/dotmac_observability/model.py: the public inventory: evaluators, jobs, federations, receivers, routes.
use dotmac_observability.Prelude.{ℕ, String, Bool, Option, List}

pub record Label : Type 0 where
  pub name : String
  pub value : String

pub record SecretFile : Type 0 where
  pub openbao_path : String
  pub file_name : String

pub record Publication : Type 0 where
  pub endpoints : List String
  pub rationale : String

pub record Evaluator : Type 0 where
  pub image : String
  pub digest : String
  pub version : Option String
  pub listen : String

pub record Host : Type 0 where
  pub target_id : String

pub record Smtp : Type 0 where
  pub smarthost : String
  pub sender : String
  pub auth_username : Option String
  pub require_tls : Bool

pub record ControlPlane : Type 0 where
  pub environment : String
  pub host : Host
  pub prometheus : Evaluator
  pub alertmanager : Evaluator
  pub release_root : String
  pub secrets_dir : String
  pub external_labels : List Label
  pub scrape_interval : String
  pub scrape_timeout : String
  pub evaluation_interval : String
  pub resolve_timeout : String
  pub smtp : Option Smtp

pub record ScrapeJob : Type 0 where
  pub job : String
  pub target_id : String
  pub scheme : String
  pub metrics_path : String
  pub authenticated : Bool
  pub labels : List Label
  pub static_labels : List Label
  pub params : List (String × List String)
  pub scrape_interval : Option String
  pub scrape_timeout : Option String
  pub publication : Option Publication
  pub path_rationale : Option String
  pub expected : Option ℕ

pub record TargetSet : Type 0 where
  pub product : String
  pub owner : String
  pub jobs : List ScrapeJob

pub record FederationSource : Type 0 where
  pub scheme : String
  pub path : String
  pub authenticated : Bool

pub record Federation : Type 0 where
  pub name : String
  pub target_id : String
  pub owner : String
  pub source : FederationSource
  pub match : List String
  pub rename_prefix : String
  pub labels : List Label
  pub scrape_interval : Option String

pub record Integration : Type 0 where
  pub kind : String
  pub credential_ref : String
  pub send_resolved : Bool

pub record Receiver : Type 0 where
  pub name : String
  pub owner : String
  pub integrations : List Integration
  pub null_policy : Option String

pub record RouteDefaults : Type 0 where
  pub receiver : String
  pub group_by : List String
  pub group_wait : String
  pub group_interval : String
  pub repeat_interval : String

pub record Route : Type 0 where
  pub identifier : String
  pub matchers : List String
  pub receiver : String
  pub keep_going : Bool
  pub group_by : Option (List String)
  pub group_wait : Option String
  pub group_interval : Option String
  pub repeat_interval : Option String

pub record Inhibition : Type 0 where
  pub identifier : String
  pub source_matchers : List String
  pub target_matchers : List String
  pub equal : List String
  pub rationale : String
