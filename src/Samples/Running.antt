-- ===== src/Samples/Running.antt =====
-- A host that runs it, a promotion of it, and a facility that carries the promotion out.
use dotmac_observability.Prelude.{
  ℕ, suc, String, true, false, ◌==◌, none, some, [], ◌∷◌, if◌then◌else◌,
}
use dotmac_observability.Result.{Result, ok, raised, facility_error}
use dotmac_observability.Platform.{Platform, naive, aware}
use dotmac_observability.LiveVerify.Records.{LiveState, LiveTarget, LiveProbe, IntegrityReading}
use dotmac_observability.LiveVerify.Tree.{RenderedTree}
use dotmac_observability.Model.{DesiredState, Resolution}
use dotmac_observability.Promote.Records.{PromotionFacility, Request}
use dotmac_observability.Samples.Desired.{desired, resolution, inventory}

-- The digest is the text itself; three dates are dates.
abbrev pub platform : Platform
platform = record {
  sha256 = λ s. s;
  fromisoformat = λ s.
      if s == "2026-01-01T00:00:00+00:00"
      then some (aware 0)
      else if s == "2026-01-01T01:00:00+00:00"
      then some (aware 3_600_000_000)
      else if s == "2026-01-01T01:00:00"
      then some (naive 3_600_000_000)
      else none;
}

abbrev pub tree : RenderedTree
tree = ("prometheus.yml", "global: {}") ∷ []

abbrev pub render : DesiredState → Resolution → Result RenderedTree
render state resolved = ok tree

abbrev pub target : LiveTarget
target = record { job = "api"; health = "up" }

abbrev pub probe : String → String → LiveProbe
probe family chain = record {
  surface = "grafana";
  family = family;
  chain = chain;
  expectation = "reachable";
  outcome = "reachable";
  control_outcome = "reachable";
  control_evidence_ref = some "run/7";
}

abbrev pub reading : IntegrityReading
reading = record { counter = "samples_rejected_total"; value = 5; process_start_time = 1 }

-- Read back at a given time.
abbrev pub live_at : String → LiveState
live_at observed_at = record {
  observed_at = observed_at;
  environment = "production";
  host_target_id = "host-1";
  release = record { current = "release-2"; previous = some "release-1" };
  tree = record { path = "prometheus.yml"; sha256 = "global: {}" } ∷ [];
  targets = target ∷ target ∷ [];
  rules = record { group = "gates"; name = "SampleIntake"; health = "ok" } ∷ [];
  routes = record { identifier = "all"; receiver = "oncall" } ∷ [];
  integrity = reading ∷ [];
  canary = record {
    fired = true;
    delivered = true;
    recovered = true;
    receiver = "oncall";
    receiver_evidence_ref = some "message/1";
  };
  probes = probe "ipv4" "DOCKER-USER" ∷ probe "ipv6" "INPUT" ∷ [];
  rollback = some (record {
    exercised = true;
    restored_release = some "release-1";
    restored_digest = some "digest-1";
    digest_absence = none;
    succeeded = true;
  });
}

abbrev pub live : LiveState
live = live_at "2026-01-01T01:00:00Z"

-- A read-back whose time has no offset.
abbrev pub live_naive : LiveState
live_naive = live_at "2026-01-01T01:00:00"

abbrev pub request : Request
request = record {
  state = desired;
  resolution = resolution;
  inventory = inventory;
  named_target = "host-1";
  revision = record { revision = "0123456789abcdef0123456789abcdef01234567"; oracle_ref = "ci/1" };
  authorization = record {
    plan_digest = "plan";
    approval_decision_ref = "decision/1";
    approval_policy_code = none;
    approval_policy_version = none;
    execution_plan_digest = none;
  };
  authorized_images = [];
  baseline = some (live_at "2026-01-01T00:00:00Z");
  previous_digest = some "digest-1";
  first_promotion = false;
  runs = record { ci = none; rehearsal = none; promotion = none };
  started_at = "2026-01-01T00:00:00Z";
  finished_at = "2026-01-01T01:00:00Z";
}

-- Not admissible: it names no target.
abbrev pub unnamed : Request
unnamed = record request { named_target = "" }

-- A facility that counts its calls, reads `production` back, and reloads or raises.
abbrev pub facility : LiveState → Result (Unit {0}) → PromotionFacility ℕ
facility production reloaded = record {
  fetch = λ revision w. (ok [], suc w);
  check_configuration = λ files w. (ok [], suc w);
  rehearse = λ files wanted w. (ok live, suc w);
  stage =
      λ files named w. (ok (record { current = "release-2"; previous = some "release-1" }), suc w);
  reload = λ named release w. (reloaded, suc w);
  observe = λ named wanted w. (ok production, suc w);
  rollback = λ named previous w. (ok live, suc w);
  accept = λ named release w. (ok tt, suc w);
}

abbrev pub works : PromotionFacility ℕ
works = facility live (ok tt)

-- Read back without an offset, beside a baseline that has one.
abbrev pub unjudged : PromotionFacility ℕ
unjudged = facility live_naive (ok tt)

abbrev pub fails : PromotionFacility ℕ
fails = facility live (raised (facility_error "reload"))
