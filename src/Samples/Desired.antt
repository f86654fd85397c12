-- ===== src/Samples/Desired.antt =====
-- A small control plane: one scraped job, one gate, one exposed surface, one receiver, one route.
use dotmac_observability.Prelude.{true, false, none, some, [], ◌∷◌}
use dotmac_observability.Model.{
  Evaluator, ControlPlane, ScrapeJob, TargetSet, Receiver, RouteDefaults, Route, Runtime, Bundle,
  Surface, VerificationGate, Ingestion, Projection, DesiredState, PrivateInventory, Resolution,
}

abbrev pub evaluator : Evaluator
evaluator = record {
  image = "prom/prometheus";
  digest = "sha256:0";
  version = some "2.53.0";
  listen = "127.0.0.1:9090";
}

abbrev pub control_plane : ControlPlane
control_plane = record {
  environment = "production";
  host = record { target_id = "host-1" };
  prometheus = evaluator;
  alertmanager = evaluator;
  release_root = "/srv/observability";
  secrets_dir = "/srv/secrets";
  external_labels = [];
  scrape_interval = "30s";
  scrape_timeout = "10s";
  evaluation_interval = "30s";
  resolve_timeout = "5m";
  smtp = none;
}

abbrev pub job : ScrapeJob
job = record {
  job = "api";
  target_id = "api-1";
  scheme = "http";
  metrics_path = "/metrics";
  authenticated = false;
  labels = [];
  static_labels = [];
  params = [];
  scrape_interval = none;
  scrape_timeout = none;
  publication = none;
  path_rationale = none;
  expected = none;
}

abbrev pub target_set : TargetSet
target_set = record { product = "shop"; owner = "shop-team"; jobs = job ∷ [] }

abbrev pub receiver : Receiver
receiver = record { name = "oncall"; owner = "platform"; integrations = []; null_policy = none }

abbrev pub defaults : RouteDefaults
defaults = record {
  receiver = "oncall";
  group_by = [];
  group_wait = "30s";
  group_interval = "5m";
  repeat_interval = "4h";
}

abbrev pub route : Route
route = record {
  identifier = "all";
  matchers = [];
  receiver = "oncall";
  keep_going = false;
  group_by = none;
  group_wait = none;
  group_interval = none;
  repeat_interval = none;
}

abbrev pub runtime : Runtime
runtime = record {
  image = "grafana/loki";
  digest = "sha256:1";
  version = none;
  listen = "127.0.0.1:3100";
}

abbrev pub surface : Surface
surface = record {
  name = "grafana";
  kind = "container_published";
  port = 3000;
  protocol = "tcp";
  family = "dual_stack";
  exposure = "public";
  allow_from = none;
  authenticated = true;
  rationale = none;
}

abbrev pub gate : VerificationGate
gate = record {
  name = "sample-intake";
  health = "up == 1";
  integrity = "increase(samples_rejected_total[5m]) == 0";
  window = "5m";
}

abbrev pub bundle : Bundle
bundle = record {
  timezone = record { infrastructure = "UTC"; presentation = none; rationale = "one clock" };
  loki = record {
    runtime = runtime;
    retention = "30d";
    reject_older_than = "7d";
    ingestion_rate_mb = 4;
    ingestion_burst_mb = 8;
  };
  promtail = record { runtime = runtime; jobs = [] };
  grafana = record { runtime = runtime; datasources = []; dashboard_providers = [] };
  syslog = record {
    directory = record { path = "/var/log"; owner = "syslog"; group = "adm"; mode = "0750" };
    files = [];
    rotation = record { frequency = "daily"; keep = 14; compress = true };
  };
  roster = [];
  retired = [];
  exposure = record { source_sets = []; surfaces = surface ∷ [] };
  gates = gate ∷ [];
}

abbrev pub projection : Projection
projection = record {
  name = "usage";
  status = "planned";
  authoritative = false;
  derived_from = "ledger";
  lag_expr = "usage_lag";
  lag_budget = "15m";
  source_retention = "90d";
  retention_class = "short";
  non_authority_notice = "derived";
  rebuild = record {
    procedure_ref = "docs";
    compare = "rows";
    last_rebuilt = none;
    verdict = "unproved";
  };
}

abbrev pub ingestion : Ingestion
ingestion = record {
  resource = [];
  identifiers = [];
  attribution = record { values = []; unresolved = "unresolved"; rationale = "closed" };
  labels = record { max_stream_labels = 15; rationale = "cardinality" };
  attributes = [];
  rejected = [];
  accepted_control = [];
  streams = [];
  deadman = record { unproved_declared = 0; signals = [] };
  projection = projection;
  retention = [];
}

abbrev pub desired : DesiredState
desired = record {
  control_plane = control_plane;
  bundle = bundle;
  ingestion = ingestion;
  targets = target_set ∷ [];
  federations = [];
  receivers = receiver ∷ [];
  defaults = defaults;
  routes = route ∷ [];
  inhibitions = [];
}

abbrev pub inventory : PrivateInventory
inventory = record {
  document = "inventory";
  version = 3;
  environment = "production";
  digest = "sha256:2";
  content_digest = "sha256:3";
  host = record { target_id = "host-1"; identity = "host"; ssh_alias = "obs" };
  targets = [];
  federations = [];
  receivers = [];
  source_sets = [];
}

-- The job's target identifier resolves to two endpoints.
abbrev pub resolution : Resolution
resolution = record {
  inventory = inventory;
  jobs =
      ("api", record { endpoints = "10.0.0.1:9100" ∷ "10.0.0.2:9100" ∷ []; credential = none })
      ∷ [];
  datasources = [];
  federations = [];
  integrations = [];
  source_sets = [];
}
