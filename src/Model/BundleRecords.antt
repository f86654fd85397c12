-- ===== src/Model/BundleRecords.antt =====
-- Records of src/dotmac_observability/model.py: the bundle: everything deployed that is no target, route or receiver.
use dotmac_observability.Prelude.{ℕ, String, Bool, Option, List}
use dotmac_observability.Model.PublicRecords.{Label}

pub record Runtime : Type 0 where
  pub image : String
  pub digest : String
  pub version : Option String
  pub listen : String

pub record Timezone : Type 0 where
  pub infrastructure : String
  pub presentation : Option String
  pub rationale : String

pub record Loki : Type 0 where
  pub runtime : Runtime
  pub retention : String
  pub reject_older_than : String
  pub ingestion_rate_mb : ℕ
  pub ingestion_burst_mb : ℕ

pub record PromtailJob : Type 0 where
  pub name : String
  pub path_glob : String
  pub labels : List Label
  pub decode_docker_json : Bool

pub record Promtail : Type 0 where
  pub runtime : Runtime
  pub jobs : List PromtailJob

pub record GrafanaDatasource : Type 0 where
  pub name : String
  pub uid : Option String
  pub kind : String
  pub service : Option String
  pub target_id : Option String
  pub default : Bool

pub record GrafanaDashboardProvider : Type 0 where
  pub name : String
  pub folder : String

pub record Grafana : Type 0 where
  pub runtime : Runtime
  pub datasources : List GrafanaDatasource
  pub dashboard_providers : List GrafanaDashboardProvider

pub record DirectoryContract : Type 0 where
  pub path : String
  pub owner : String
  pub group : String
  pub mode : String

pub record SyslogFile : Type 0 where
  pub facility : String
  pub path : String
  pub owner : String
  pub group : String
  pub mode : String
  pub synchronous : Bool

pub record Rotation : Type 0 where
  pub frequency : String
  pub keep : ℕ
  pub compress : Bool

pub record Syslog : Type 0 where
  pub directory : DirectoryContract
  pub files : List SyslogFile
  pub rotation : Rotation

pub record RosterEntry : Type 0 where
  pub name : String
  pub kind : String
  pub owner : String
  pub port : Option ℕ

pub record RetiredProduct : Type 0 where
  pub name : String
  pub tokens : List String
  pub decommissioned : String
  pub rationale : String
  pub residual_data : Option String

pub record SourceSet : Type 0 where
  pub name : String
  pub kind : String

pub record Surface : Type 0 where
  pub name : String
  pub kind : String
  pub port : ℕ
  pub protocol : String
  pub family : String
  pub exposure : String
  pub allow_from : Option String
  pub authenticated : Bool
  pub rationale : Option String

pub record Exposure : Type 0 where
  pub source_sets : List SourceSet
  pub surfaces : List Surface

pub record VerificationGate : Type 0 where
  pub name : String
  pub health : String
  pub integrity : String
  pub window : String

pub record Bundle : Type 0 where
  pub timezone : Timezone
  pub loki : Loki
  pub promtail : Promtail
  pub grafana : Grafana
  pub syslog : Syslog
  pub roster : List RosterEntry
  pub retired : List RetiredProduct
  pub exposure : Exposure
  pub gates : List VerificationGate
