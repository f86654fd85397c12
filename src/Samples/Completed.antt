-- ===== src/Samples/Completed.antt =====
-- Promotions with a resolved inventory: one that completes, and one whose dates are mixed.
use dotmac_observability.Prelude.{
  ◌≡◌, refl, ◌⊎◌, from_pairs, lookup, insert, insert_all, sort_by, sorted, distinct,
}
use dotmac_observability.Result.{ok, raised, type_error}
use dotmac_observability.LiveVerify.Records.{
  passed, findings_of, verdict, Verification, deployed_repaired,
}
use dotmac_observability.LiveVerify.Derive.{
  families_of, chain_for, expectation_for, declared_probe_slots, integrity_counters,
  meta_alert_name, duration_seconds,
}
use dotmac_observability.LiveVerify.Tree.{
  file_digest, tree_digest, expected_files, observed_files, missing_or_differs, unexpected,
  tree_findings,
}
use dotmac_observability.LiveVerify.Targets.{
  subscript, get_list, count_targets, expected_count, declare_jobs, declare_sets,
  declare_federations, declared_targets, judge_job, job_findings, undeclared_job, compare_targets,
  target_findings,
}
use dotmac_observability.LiveVerify.Targets.Rules.{
  alert_names, loaded_rules, one_rule, compare_rules, rule_findings,
}
use dotmac_observability.LiveVerify.Integrity.{
  readings, counter_findings, delta_findings, replace_z, elapsed, unreadable_gates, required_window,
  elapsed_findings, window_findings, reading_findings, integrity_findings,
}
use dotmac_observability.LiveVerify.Delivery.{
  declared_routes, observed_routes, route_findings, receiver_names, canary_findings,
  delivery_findings,
}
use dotmac_observability.LiveVerify.Probes.{
  same_slot, where_of, last_probe, has_slot, distinct_slots, sorted_slots, outcome_findings,
  one_probe_findings, slot_findings, surface_findings, undeclared_slot, probe_findings,
}
use dotmac_observability.LiveVerify.Rollback.{
  nothing_restored, digest_findings, restore_findings, rollback_findings,
}
use dotmac_observability.LiveVerify.Verify.{identity_findings, conditions_of, verify}
use dotmac_observability.Receipt.{
  rules_semantic_digest, targets_up, expected_total, canary_block, rollback_block, observed_blocks,
  assemble, build_receipt, Outcome, failed, rolled_back,
}
use dotmac_observability.Promote.Preconditions.{refusal, is_exact, preconditions}
use dotmac_observability.Promote.Stop.{
  bundle_record, receipt_inputs, read_back, restore, untouched, settle, conclude, stop,
}
use dotmac_observability.Promote.Run.{
  state_name, next_state, reach, in_rehearsal, rehearsal_findings, failed_checks, request_for,
  production, disposable, current_release, caught, after_accept, after_verify, after_observe,
  after_reload, after_stage, judge_rehearsal, after_rehearse, after_check, after_fetch, promote,
}
use dotmac_observability.LiveVerify.Repaired.{verify-Repaired_iff}
use dotmac_observability.LiveVerify.Records.{LiveState}
use dotmac_observability.Receipt
use dotmac_observability.Prelude.{some, []}
use dotmac_observability.Promote.Records.{Request, PromotionOutcome}
use dotmac_observability.Promote.Admission.{Admissible, preconditions-none_iff}
use dotmac_observability.Promote.Completes.{Smooth, promote-Smooth}
use dotmac_observability.Resolve.Verified.{MixedDates, verify-MixedDates}
use dotmac_observability.Resolve.Promoted.{promote-MixedDates}
use dotmac_observability.Samples.Desired.{desired}
use dotmac_observability.Samples.Joined.{bound_inventory, bound_resolution, desired-resolved}
use dotmac_observability.Samples.Running.{
  platform, render, tree, live, live_naive, request, works, unjudged,
}

abbrev bound : Request
bound = record request { inventory = bound_inventory; resolution = bound_resolution }

bound-Admissible : Admissible bound
unfolding preconditions is_exact
bound-Admissible = (preconditions-none_iff bound).0 refl

-- What the rehearsal is judged to be.
judged : Verification
unfolding verify conditions_of
judged = elim (verify platform desired bound_resolution tree live disposable) [
  | ok v ↦ v
  | raised e ↦ conditions_of [] [] [] [] [] []
]

measured : Verification
unfolding verify conditions_of
measured = elim (verify platform desired bound_resolution tree live (production bound)) [
  | ok v ↦ v
  | raised e ↦ conditions_of [] [] [] [] [] []
]

rehearsal-judged : verify platform desired bound_resolution tree live disposable ≡ ok judged
unfolding passed findings_of verdict families_of chain_for expectation_for declared_probe_slots
    integrity_counters meta_alert_name duration_seconds file_digest tree_digest expected_files
    observed_files missing_or_differs unexpected tree_findings subscript get_list count_targets
    expected_count declare_jobs declare_sets declare_federations declared_targets judge_job
    job_findings undeclared_job compare_targets target_findings alert_names loaded_rules one_rule
    compare_rules rule_findings readings counter_findings delta_findings replace_z elapsed
    unreadable_gates required_window elapsed_findings window_findings reading_findings
    integrity_findings declared_routes observed_routes route_findings receiver_names canary_findings
    delivery_findings same_slot where_of last_probe has_slot distinct_slots sorted_slots
    outcome_findings one_probe_findings slot_findings surface_findings undeclared_slot
    probe_findings nothing_restored digest_findings restore_findings rollback_findings
    identity_findings conditions_of verify targets_up expected_total canary_block rollback_block
    observed_blocks assemble build_receipt refusal is_exact preconditions bundle_record
    receipt_inputs read_back restore untouched settle conclude stop state_name next_state reach
    in_rehearsal rehearsal_findings failed_checks request_for production disposable current_release
    caught after_accept after_verify after_observe after_reload after_stage judge_rehearsal
    after_rehearse after_check after_fetch promote from_pairs lookup insert insert_all sort_by
    sorted distinct judged
rehearsal-judged = refl

rehearsal-clean : rehearsal_findings judged ≡ []
unfolding passed findings_of verdict families_of chain_for expectation_for declared_probe_slots
    integrity_counters meta_alert_name duration_seconds file_digest tree_digest expected_files
    observed_files missing_or_differs unexpected tree_findings subscript get_list count_targets
    expected_count declare_jobs declare_sets declare_federations declared_targets judge_job
    job_findings undeclared_job compare_targets target_findings alert_names loaded_rules one_rule
    compare_rules rule_findings readings counter_findings delta_findings replace_z elapsed
    unreadable_gates required_window elapsed_findings window_findings reading_findings
    integrity_findings declared_routes observed_routes route_findings receiver_names canary_findings
    delivery_findings same_slot where_of last_probe has_slot distinct_slots sorted_slots
    outcome_findings one_probe_findings slot_findings surface_findings undeclared_slot
    probe_findings nothing_restored digest_findings restore_findings rollback_findings
    identity_findings conditions_of verify targets_up expected_total canary_block rollback_block
    observed_blocks assemble build_receipt refusal is_exact preconditions bundle_record
    receipt_inputs read_back restore untouched settle conclude stop state_name next_state reach
    in_rehearsal rehearsal_findings failed_checks request_for production disposable current_release
    caught after_accept after_verify after_observe after_reload after_stage judge_rehearsal
    after_rehearse after_check after_fetch promote from_pairs lookup insert insert_all sort_by
    sorted distinct judged
rehearsal-clean = refl

live-measured : verify platform desired bound_resolution tree live (production bound) ≡ ok measured
unfolding passed findings_of verdict families_of chain_for expectation_for declared_probe_slots
    integrity_counters meta_alert_name duration_seconds file_digest tree_digest expected_files
    observed_files missing_or_differs unexpected tree_findings subscript get_list count_targets
    expected_count declare_jobs declare_sets declare_federations declared_targets judge_job
    job_findings undeclared_job compare_targets target_findings alert_names loaded_rules one_rule
    compare_rules rule_findings readings counter_findings delta_findings replace_z elapsed
    unreadable_gates required_window elapsed_findings window_findings reading_findings
    integrity_findings declared_routes observed_routes route_findings receiver_names canary_findings
    delivery_findings same_slot where_of last_probe has_slot distinct_slots sorted_slots
    outcome_findings one_probe_findings slot_findings surface_findings undeclared_slot
    probe_findings nothing_restored digest_findings restore_findings rollback_findings
    identity_findings conditions_of verify targets_up expected_total canary_block rollback_block
    observed_blocks assemble build_receipt refusal is_exact preconditions bundle_record
    receipt_inputs read_back restore untouched settle conclude stop state_name next_state reach
    in_rehearsal rehearsal_findings failed_checks request_for production disposable current_release
    caught after_accept after_verify after_observe after_reload after_stage judge_rehearsal
    after_rehearse after_check after_fetch promote from_pairs lookup insert insert_all sort_by
    sorted distinct measured
live-measured = refl

live-repaired : verdict measured ≡ deployed_repaired
unfolding passed findings_of verdict families_of chain_for expectation_for declared_probe_slots
    integrity_counters meta_alert_name duration_seconds file_digest tree_digest expected_files
    observed_files missing_or_differs unexpected tree_findings subscript get_list count_targets
    expected_count declare_jobs declare_sets declare_federations declared_targets judge_job
    job_findings undeclared_job compare_targets target_findings alert_names loaded_rules one_rule
    compare_rules rule_findings readings counter_findings delta_findings replace_z elapsed
    unreadable_gates required_window elapsed_findings window_findings reading_findings
    integrity_findings declared_routes observed_routes route_findings receiver_names canary_findings
    delivery_findings same_slot where_of last_probe has_slot distinct_slots sorted_slots
    outcome_findings one_probe_findings slot_findings surface_findings undeclared_slot
    probe_findings nothing_restored digest_findings restore_findings rollback_findings
    identity_findings conditions_of verify targets_up expected_total canary_block rollback_block
    observed_blocks assemble build_receipt refusal is_exact preconditions bundle_record
    receipt_inputs read_back restore untouched settle conclude stop state_name next_state reach
    in_rehearsal rehearsal_findings failed_checks request_for production disposable current_release
    caught after_accept after_verify after_observe after_reload after_stage judge_rehearsal
    after_rehearse after_check after_fetch promote from_pairs lookup insert insert_all sort_by
    sorted distinct measured
live-repaired = refl

works-Smooth : Smooth platform works bound tree 0
unfolding failed_checks sorted
works-Smooth = record {
  w1 = 1;
  w2 = 2;
  w3 = 3;
  w4 = 4;
  w5 = 5;
  w6 = 6;
  w7 = 7;
  bundles = [];
  fetches = refl;
  checks = [];
  is_checked = refl;
  checks_pass = refl;
  rehearsal = live;
  rehearses = refl;
  judged = judged;
  judges = rehearsal-judged;
  rehearsal_holds = rehearsal-clean;
  stage = record { current = "release-2"; previous = some "release-1" };
  stages = refl;
  has_target = refl;
  reloads = refl;
  live = live;
  observes = refl;
  repaired =
      (verify-Repaired_iff platform desired bound_resolution tree live (production bound)).0
        (measured, live-measured, live-repaired);
  accepts = refl;
}

promote-Smooth_example :
    (o : PromotionOutcome) × (promote platform render works bound 0 ≡ (ok o, works-Smooth.w7))
    × (o.outcome ≡ Receipt.accepted)
promote-Smooth_example =
    promote-Smooth platform render works bound 0 tree bound-Admissible refl works-Smooth

naive-raised :
    verify platform desired bound_resolution tree live_naive (production bound) ≡ raised type_error
unfolding passed findings_of verdict families_of chain_for expectation_for declared_probe_slots
    integrity_counters meta_alert_name duration_seconds file_digest tree_digest expected_files
    observed_files missing_or_differs unexpected tree_findings subscript get_list count_targets
    expected_count declare_jobs declare_sets declare_federations declared_targets judge_job
    job_findings undeclared_job compare_targets target_findings alert_names loaded_rules one_rule
    compare_rules rule_findings readings counter_findings delta_findings replace_z elapsed
    unreadable_gates required_window elapsed_findings window_findings reading_findings
    integrity_findings declared_routes observed_routes route_findings receiver_names canary_findings
    delivery_findings same_slot where_of last_probe has_slot distinct_slots sorted_slots
    outcome_findings one_probe_findings slot_findings surface_findings undeclared_slot
    probe_findings nothing_restored digest_findings restore_findings rollback_findings
    identity_findings conditions_of verify targets_up expected_total canary_block rollback_block
    observed_blocks assemble build_receipt refusal is_exact preconditions bundle_record
    receipt_inputs read_back restore untouched settle conclude stop state_name next_state reach
    in_rehearsal rehearsal_findings failed_checks request_for production disposable current_release
    caught after_accept after_verify after_observe after_reload after_stage judge_rehearsal
    after_rehearse after_check after_fetch promote from_pairs lookup insert insert_all sort_by
    sorted distinct
naive-raised = refl

verify-MixedDates_example :
    (type_error ≡ type_error) × MixedDates platform live_naive (production bound).baseline
verify-MixedDates_example =
    verify-MixedDates platform desired bound_inventory bound_resolution tree live_naive
      (production bound) type_error tt desired-resolved naive-raised

unjudged-raised : (promote platform render unjudged bound 0).0 ≡ raised type_error
unfolding passed findings_of verdict families_of chain_for expectation_for declared_probe_slots
    integrity_counters meta_alert_name duration_seconds file_digest tree_digest expected_files
    observed_files missing_or_differs unexpected tree_findings subscript get_list count_targets
    expected_count declare_jobs declare_sets declare_federations declared_targets judge_job
    job_findings undeclared_job compare_targets target_findings alert_names loaded_rules one_rule
    compare_rules rule_findings readings counter_findings delta_findings replace_z elapsed
    unreadable_gates required_window elapsed_findings window_findings reading_findings
    integrity_findings declared_routes observed_routes route_findings receiver_names canary_findings
    delivery_findings same_slot where_of last_probe has_slot distinct_slots sorted_slots
    outcome_findings one_probe_findings slot_findings surface_findings undeclared_slot
    probe_findings nothing_restored digest_findings restore_findings rollback_findings
    identity_findings conditions_of verify targets_up expected_total canary_block rollback_block
    observed_blocks assemble build_receipt refusal is_exact preconditions bundle_record
    receipt_inputs read_back restore untouched settle conclude stop state_name next_state reach
    in_rehearsal rehearsal_findings failed_checks request_for production disposable current_release
    caught after_accept after_verify after_observe after_reload after_stage judge_rehearsal
    after_rehearse after_check after_fetch promote from_pairs lookup insert insert_all sort_by
    sorted distinct
unjudged-raised = refl

promote-MixedDates_example :
    (render desired bound_resolution ≡ raised type_error)
    ⊎ ((type_error ≡ type_error) × ((other : LiveState) × MixedDates platform other bound.baseline))
promote-MixedDates_example =
    promote-MixedDates platform render unjudged bound 0 type_error tt desired-resolved
      unjudged-raised
