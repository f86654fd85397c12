-- ===== src/LiveVerify/Tests.antt =====
-- Runs of the derivations on concrete inputs.
use dotmac_observability.Prelude.{◌≡◌, refl, none, some}
use dotmac_observability.LiveVerify.Derive.{duration_seconds, meta_alert_name}

duration_seconds_15m : duration_seconds "15m" ≡ some 900
unfolding duration_seconds
duration_seconds_15m = refl

duration_seconds_bad : duration_seconds "1h30m" ≡ none
unfolding duration_seconds
duration_seconds_bad = refl

meta_alert_name_dashes : meta_alert_name "scrape.health-GATE" ≡ "ScrapeHealthGate"
unfolding meta_alert_name
meta_alert_name_dashes = refl
