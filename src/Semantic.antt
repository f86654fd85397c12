-- ===== src/Semantic.antt =====
-- The public semantic findings of src/dotmac_observability/validate.py on scrape targets
-- (`_target_findings`), listen addresses (`_control_plane_findings`) and, in Routing, on receivers
-- and routes (`_routing_findings`). A dictionary whose values only a message reads is the list of its
-- keys.
pub mod Distinct
pub mod Named
pub mod Routing
pub mod Routed
pub mod Decommissioned
use Prim.Native.Char.{Char, code}
use Prim.Native.String.{◌++◌ as ◌<>◌}
use text.Mathlib.Text.{starts_with}
use dotmac_observability.Prelude.{
  String, Bool, true, false, not, ◌&&◌, ◌||◌, ◌==◌, ◌!=◌, Option, none, some, List, [], ◌∷◌, ◌++◌,
  map, flat_map, when, contains, eqb, if◌then◌else◌,
}
use dotmac_observability.Finding.{Finding, Code}
use dotmac_observability.Model.{DesiredState, ScrapeJob, Federation, Evaluator}
use dotmac_observability.Resolve.Endpoints.{all_jobs, job_location}

-- `for x in xs:` with a finding where the key was seen before, and further findings.
unfoldable pub seen_loop {ℓ} :
    {A : Type ℓ}
    → (A → String)
    → (A → Finding)
    → (A → List Finding)
    → List String
    → List A
    → List Finding
seen_loop key again more seen [] = []
seen_loop key again more seen (x ∷ xs) =
    when (contains (key x) seen) (again x ∷ [])
    ++ more x
    ++ seen_loop key again more (key x ∷ seen) xs

-- `not value` of an optional text.
unfoldable pub is_missing : Option String → Bool
is_missing none = true
is_missing (some s) = s == ""

unfoldable pub path_findings : ScrapeJob → List Finding
unfolding is_missing
path_findings job =
    when (job.metrics_path != "/metrics" && is_missing job.path_rationale)
      (record { code = Code.metrics_path_unexplained; location = job_location job } ∷ [])

unfoldable pub federation_location : Federation → String
federation_location f = "inventory/federations#" <> f.name

-- The loop over the federations, with the names and the prefixes seen.
unfoldable pub federation_loop : List String → List String → List Federation → List Finding
unfolding federation_location
federation_loop names prefixes [] = []
federation_loop names prefixes (f ∷ fs) =
    when (contains f.name names)
      (record { code = Code.job_duplicate; location = federation_location f } ∷ [])
    ++ when (contains f.rename_prefix prefixes)
        (record { code = Code.federation_prefix_collision; location = federation_location f } ∷ [])
    ++ federation_loop (f.name ∷ names) (f.rename_prefix ∷ prefixes) fs

-- The job names, the last one first.
unfoldable pub seen_after : List String → List String → List String
seen_after seen [] = seen
seen_after seen (n ∷ ns) = seen_after (n ∷ seen) ns

unfoldable pub inventory_target_findings : DesiredState → List Finding
unfolding seen_loop path_findings federation_loop seen_after
inventory_target_findings state =
    seen_loop (λ (job : ScrapeJob). job.job)
      (λ (job : ScrapeJob). record { code = Code.job_duplicate; location = job_location job })
      path_findings [] (all_jobs state)
    ++ federation_loop (seen_after [] (map (λ (job : ScrapeJob). job.job) (all_jobs state))) []
        state.federations

has_colon : String → Bool
has_colon String.[] = false
has_colon (String.◌∷◌ c s) = eqb (code c) b':' || has_colon s

-- `listen.rsplit(":", 1)[0]`
unfoldable pub address_of : String → String
unfolding has_colon
address_of String.[] = ""
address_of (String.◌∷◌ c s) =
    let rest = address_of s in
    if eqb (code c) b':' && not (has_colon s) then "" else String.◌∷◌ c rest

unfoldable pub listen_findings : String → Evaluator → List Finding
unfolding address_of
listen_findings name e = when (not (starts_with (address_of e.listen) "127.")) (
    record { code = Code.listen_not_loopback; location = "inventory/control-plane.toml#" <> name }
    ∷ [])

unfoldable pub control_plane_findings : DesiredState → List Finding
unfolding listen_findings
control_plane_findings state =
    listen_findings "prometheus" state.control_plane.prometheus
    ++ listen_findings "alertmanager" state.control_plane.alertmanager
