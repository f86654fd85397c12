-- ===== src/Samples/Runs.antt =====
-- Runs of a promotion, evaluated, and the theorems on promotions at these runs.
use dotmac_observability.Prelude.{
  ◌≡◌, refl, none, ◌↔◌, ◌⊎◌, from_pairs, lookup, insert, insert_all, sort_by, sorted, distinct,
}
use dotmac_observability.Result.{Result, ok, raised, type_error}
use dotmac_observability.LiveVerify.Records.{
  passed, findings_of, verdict, Verification, deployed_repaired,
}
use dotmac_observability.LiveVerify.Derive.{
  families_of, chain_for, expectation_for, declared_probe_slots, integrity_counters,
  meta_alert_name, duration_seconds,
}
use dotmac_observability.LiveVerify.Tree.{
  file_digest, tree_digest, expected_files, observed_files, missing_or_differs, unexpected,
  tree_findings,
}
use dotmac_observability.LiveVerify.Targets.{
  subscript, get_list, count_targets, expected_count, declare_jobs, declare_sets,
  declare_federations, declared_targets, judge_job, job_findings, undeclared_job, compare_targets,
  target_findings,
}
use dotmac_observability.LiveVerify.Targets.Rules.{
  alert_names, loaded_rules, one_rule, compare_rules, rule_findings,
}
use dotmac_observability.LiveVerify.Integrity.{
  readings, counter_findings, delta_findings, replace_z, elapsed, unreadable_gates, required_window,
  elapsed_findings, window_findings, reading_findings, integrity_findings,
}
use dotmac_observability.LiveVerify.Delivery.{
  declared_routes, observed_routes, route_findings, receiver_names, canary_findings,
  delivery_findings,
}
use dotmac_observability.LiveVerify.Probes.{
  same_slot, where_of, last_probe, has_slot, distinct_slots, sorted_slots, outcome_findings,
  one_probe_findings, slot_findings, surface_findings, undeclared_slot, probe_findings,
}
use dotmac_observability.LiveVerify.Rollback.{
  nothing_restored, digest_findings, restore_findings, rollback_findings,
}
use dotmac_observability.LiveVerify.Verify.{identity_findings, conditions_of, verify}
use dotmac_observability.Receipt.{
  rules_semantic_digest, targets_up, expected_total, canary_block, rollback_block, observed_blocks,
  assemble, build_receipt, Outcome, failed, rolled_back,
}
use dotmac_observability.Promote.Preconditions.{refusal, is_exact, preconditions}
use dotmac_observability.Promote.Stop.{
  bundle_record, receipt_inputs, read_back, restore, untouched, settle, conclude, stop,
}
use dotmac_observability.Promote.Run.{
  state_name, next_state, reach, in_rehearsal, rehearsal_findings, failed_checks, request_for,
  production, disposable, current_release, caught, after_accept, after_verify, after_observe,
  after_reload, after_stage, judge_rehearsal, after_rehearse, after_check, after_fetch, promote,
}
use dotmac_observability.LiveVerify.Repaired.{Repaired, verify-Repaired_iff}
use dotmac_observability.LiveVerify.Tree.{RenderedTree}
use dotmac_observability.Receipt
use dotmac_observability.Finding.{promotion_stage_raised}
use dotmac_observability.Promote.Records.{PromotionOutcome}
use dotmac_observability.Promote.Admission.{Admissible, Refused, preconditions-none_iff}
use dotmac_observability.Promote.Run.Ends.{Acceptance, Ending, Unjudged}
use dotmac_observability.Promote.Ending.{
  promote-accepted, promote-Ending, promote-refusal, promote-raised,
}
use dotmac_observability.Drift.{clean, compare}
use dotmac_observability.Drift.Promoted.{promote-clean}
use dotmac_observability.LiveVerify.Records.{LiveState}
use dotmac_observability.Prelude.{some, true}
use dotmac_observability.Promote.Journal.{journal}
use dotmac_observability.Promote.Journal.Stops.{Ordered}
use dotmac_observability.Promote.Journal.Order.{promote-Ordered}
use dotmac_observability.Prelude.{[]}
use dotmac_observability.Samples.Desired.{desired, resolution}
use dotmac_observability.Samples.Running.{
  platform, render, tree, live, request, unnamed, works, unjudged, fails,
}

abbrev returned : Result PromotionOutcome → PromotionOutcome
returned (ok o) = o
returned (raised e) = refusal promotion_stage_raised ""

-- Every method returns, and the host reads back repaired.
abbrev accepted_run : PromotionOutcome
accepted_run = returned (promote platform render works request 0).0

accepted_run-returned : (promote platform render works request 0).0 ≡ ok accepted_run
unfolding passed findings_of verdict families_of chain_for expectation_for declared_probe_slots
    integrity_counters meta_alert_name duration_seconds file_digest tree_digest expected_files
    observed_files missing_or_differs unexpected tree_findings subscript get_list count_targets
    expected_count declare_jobs declare_sets declare_federations declared_targets judge_job
    job_findings undeclared_job compare_targets target_findings alert_names loaded_rules one_rule
    compare_rules rule_findings readings counter_findings delta_findings replace_z elapsed
    unreadable_gates required_window elapsed_findings window_findings reading_findings
    integrity_findings declared_routes observed_routes route_findings receiver_names canary_findings
    delivery_findings same_slot where_of last_probe has_slot distinct_slots sorted_slots
    outcome_findings one_probe_findings slot_findings surface_findings undeclared_slot
    probe_findings nothing_restored digest_findings restore_findings rollback_findings
    identity_findings conditions_of verify targets_up expected_total canary_block rollback_block
    observed_blocks assemble build_receipt refusal is_exact preconditions bundle_record
    receipt_inputs read_back restore untouched settle conclude stop state_name next_state reach
    in_rehearsal rehearsal_findings failed_checks request_for production disposable current_release
    caught after_accept after_verify after_observe after_reload after_stage judge_rehearsal
    after_rehearse after_check after_fetch promote from_pairs lookup insert insert_all sort_by
    sorted distinct
accepted_run-returned = refl

accepted_run-accepted : accepted_run.outcome ≡ Receipt.accepted
unfolding passed findings_of verdict families_of chain_for expectation_for declared_probe_slots
    integrity_counters meta_alert_name duration_seconds file_digest tree_digest expected_files
    observed_files missing_or_differs unexpected tree_findings subscript get_list count_targets
    expected_count declare_jobs declare_sets declare_federations declared_targets judge_job
    job_findings undeclared_job compare_targets target_findings alert_names loaded_rules one_rule
    compare_rules rule_findings readings counter_findings delta_findings replace_z elapsed
    unreadable_gates required_window elapsed_findings window_findings reading_findings
    integrity_findings declared_routes observed_routes route_findings receiver_names canary_findings
    delivery_findings same_slot where_of last_probe has_slot distinct_slots sorted_slots
    outcome_findings one_probe_findings slot_findings surface_findings undeclared_slot
    probe_findings nothing_restored digest_findings restore_findings rollback_findings
    identity_findings conditions_of verify targets_up expected_total canary_block rollback_block
    observed_blocks assemble build_receipt refusal is_exact preconditions bundle_record
    receipt_inputs read_back restore untouched settle conclude stop state_name next_state reach
    in_rehearsal rehearsal_findings failed_checks request_for production disposable current_release
    caught after_accept after_verify after_observe after_reload after_stage judge_rehearsal
    after_rehearse after_check after_fetch promote from_pairs lookup insert insert_all sort_by
    sorted distinct
accepted_run-accepted = refl

promote-accepted_example :
    Admissible request
    × ((t : RenderedTree) × (render desired resolution ≡ ok t)
        × (c : Acceptance platform request t accepted_run) × Repaired platform desired resolution t
            c.live
            (production request))
promote-accepted_example =
    promote-accepted platform render works request 0 accepted_run accepted_run-returned
      accepted_run-accepted

promote-clean_example :
    (t : RenderedTree) × (l : LiveState) × (render desired resolution ≡ ok t)
    × Repaired platform desired resolution t l (production request)
    × (clean (compare platform (some t) (some l) accepted_run.receipt) ≡ true)
promote-clean_example =
    promote-clean platform render works request 0 accepted_run accepted_run-returned
      accepted_run-accepted

-- The reload raises, and the previous release is restored.
abbrev restored_run : PromotionOutcome
restored_run = returned (promote platform render fails request 0).0

restored_run-returned : (promote platform render fails request 0).0 ≡ ok restored_run
unfolding passed findings_of verdict families_of chain_for expectation_for declared_probe_slots
    integrity_counters meta_alert_name duration_seconds file_digest tree_digest expected_files
    observed_files missing_or_differs unexpected tree_findings subscript get_list count_targets
    expected_count declare_jobs declare_sets declare_federations declared_targets judge_job
    job_findings undeclared_job compare_targets target_findings alert_names loaded_rules one_rule
    compare_rules rule_findings readings counter_findings delta_findings replace_z elapsed
    unreadable_gates required_window elapsed_findings window_findings reading_findings
    integrity_findings declared_routes observed_routes route_findings receiver_names canary_findings
    delivery_findings same_slot where_of last_probe has_slot distinct_slots sorted_slots
    outcome_findings one_probe_findings slot_findings surface_findings undeclared_slot
    probe_findings nothing_restored digest_findings restore_findings rollback_findings
    identity_findings conditions_of verify targets_up expected_total canary_block rollback_block
    observed_blocks assemble build_receipt refusal is_exact preconditions bundle_record
    receipt_inputs read_back restore untouched settle conclude stop state_name next_state reach
    in_rehearsal rehearsal_findings failed_checks request_for production disposable current_release
    caught after_accept after_verify after_observe after_reload after_stage judge_rehearsal
    after_rehearse after_check after_fetch promote from_pairs lookup insert insert_all sort_by
    sorted distinct
restored_run-returned = refl

restored_run-rolled_back : restored_run.outcome ≡ rolled_back
unfolding passed findings_of verdict families_of chain_for expectation_for declared_probe_slots
    integrity_counters meta_alert_name duration_seconds file_digest tree_digest expected_files
    observed_files missing_or_differs unexpected tree_findings subscript get_list count_targets
    expected_count declare_jobs declare_sets declare_federations declared_targets judge_job
    job_findings undeclared_job compare_targets target_findings alert_names loaded_rules one_rule
    compare_rules rule_findings readings counter_findings delta_findings replace_z elapsed
    unreadable_gates required_window elapsed_findings window_findings reading_findings
    integrity_findings declared_routes observed_routes route_findings receiver_names canary_findings
    delivery_findings same_slot where_of last_probe has_slot distinct_slots sorted_slots
    outcome_findings one_probe_findings slot_findings surface_findings undeclared_slot
    probe_findings nothing_restored digest_findings restore_findings rollback_findings
    identity_findings conditions_of verify targets_up expected_total canary_block rollback_block
    observed_blocks assemble build_receipt refusal is_exact preconditions bundle_record
    receipt_inputs read_back restore untouched settle conclude stop state_name next_state reach
    in_rehearsal rehearsal_findings failed_checks request_for production disposable current_release
    caught after_accept after_verify after_observe after_reload after_stage judge_rehearsal
    after_rehearse after_check after_fetch promote from_pairs lookup insert insert_all sort_by
    sorted distinct
restored_run-rolled_back = refl

request-Admissible : Admissible request
unfolding preconditions is_exact
request-Admissible = (preconditions-none_iff request).0 refl

promote-Ending_example : Ending platform fails request tree restored_run
promote-Ending_example =
    promote-Ending platform render fails request 0 tree restored_run request-Admissible refl
      restored_run-returned

promote-Ordered_example : Ordered (promote platform render (journal fails) request (0, [])).1.1
promote-Ordered_example = promote-Ordered platform render fails request 0

unnamed-refused : ¬ Admissible unnamed
unnamed-refused a = a.named refl

promote-refusal_example :
    (o : PromotionOutcome) × (promote platform render works unnamed 0 ≡ (ok o, 0)) × Refused o
promote-refusal_example = promote-refusal platform render works unnamed 0 unnamed-refused

-- The production read-back is timed without an offset, the baseline with one.
unjudged_run-raised : (promote platform render unjudged request 0).0 ≡ raised type_error
unfolding passed findings_of verdict families_of chain_for expectation_for declared_probe_slots
    integrity_counters meta_alert_name duration_seconds file_digest tree_digest expected_files
    observed_files missing_or_differs unexpected tree_findings subscript get_list count_targets
    expected_count declare_jobs declare_sets declare_federations declared_targets judge_job
    job_findings undeclared_job compare_targets target_findings alert_names loaded_rules one_rule
    compare_rules rule_findings readings counter_findings delta_findings replace_z elapsed
    unreadable_gates required_window elapsed_findings window_findings reading_findings
    integrity_findings declared_routes observed_routes route_findings receiver_names canary_findings
    delivery_findings same_slot where_of last_probe has_slot distinct_slots sorted_slots
    outcome_findings one_probe_findings slot_findings surface_findings undeclared_slot
    probe_findings nothing_restored digest_findings restore_findings rollback_findings
    identity_findings conditions_of verify targets_up expected_total canary_block rollback_block
    observed_blocks assemble build_receipt refusal is_exact preconditions bundle_record
    receipt_inputs read_back restore untouched settle conclude stop state_name next_state reach
    in_rehearsal rehearsal_findings failed_checks request_for production disposable current_release
    caught after_accept after_verify after_observe after_reload after_stage judge_rehearsal
    after_rehearse after_check after_fetch promote from_pairs lookup insert insert_all sort_by
    sorted distinct
unjudged_run-raised = refl

promote-raised_example :
    Admissible request
    × ((render desired resolution ≡ raised type_error)
        ⊎ ((t : RenderedTree) × (render desired resolution ≡ ok t)
            × Unjudged platform request t type_error))
promote-raised_example =
    promote-raised platform render unjudged request 0 type_error unjudged_run-raised

preconditions-none_example : (preconditions request ≡ none) ↔ Admissible request
preconditions-none_example = preconditions-none_iff request

verify-Repaired_example :
    ((v : Verification) × (verify platform desired resolution tree live (production request) ≡ ok v)
      × (verdict v ≡ deployed_repaired))
    ↔ Repaired platform desired resolution tree live (production request)
verify-Repaired_example =
    verify-Repaired_iff platform desired resolution tree live (production request)
