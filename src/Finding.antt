-- ===== src/Finding.antt =====
-- `Finding` of src/dotmac_observability/validate.py: a code, where it was found, and a message. The
-- message is prose for an operator and is left out; a code is a constructor named for its text.
use dotmac_observability.Prelude.{String}

pub data Code : Type 0 where
  observation_environment observation_host : Code
  tree_not_read tree_missing tree_differs tree_unexpected : Code
  targets_not_read target_absent target_count target_unhealthy target_undeclared : Code
  rules_not_read rule_absent rule_unhealthy : Code
  integrity_baseline_absent integrity_counter_unread integrity_counter_unwatched : Code
  integrity_baseline_counter_absent integrity_baseline_zero integrity_process_restarted : Code
  integrity_counter_reset integrity_increased integrity_window_unreadable : Code
  integrity_window_inverted integrity_window_too_short : Code
  routes_not_read route_absent route_receiver_differs : Code
  canary_not_fired canary_receiver_undeclared canary_not_delivered : Code
  canary_delivery_unproven canary_not_recovered : Code
  probes_not_read probe_family_missing probe_undeclared_surface probe_chain_inert : Code
  probe_expectation_wrong probe_control_failed probe_control_unproven probe_inconclusive : Code
  probe_unexpected_reachable probe_unexpected_refused : Code
  rollback_not_exercised rollback_failed rollback_target_absent rollback_baseline_absent : Code
  rollback_restored_nothing rollback_order_unknown rollback_digest_mismatch : Code
  promotion_target_unnamed promotion_target_mismatch promotion_revision_not_exact : Code
  promotion_revision_unproven promotion_unauthorized promotion_validation_failed : Code
  promotion_no_rollback_target promotion_stage_raised : Code
  rollback_impossible rollback_raised rollback_unobserved : Code
  drift_incomparable drift_live_tree_not_read drift_desired_live drift_live_receipt : Code
  drift_receipt_desired : Code
  receipt_no_rollback_target receipt_plan_digest receipt_execution_plan_absent : Code
  receipt_execution_plan_digest receipt_image_set receipt_rendered_digest : Code
  receipt_accepted_with_failed_check receipt_accepted_targets receipt_accepted_no_rules : Code
  receipt_accepted_unhealthy_rules receipt_accepted_canary receipt_accepted_unproven_run : Code
  receipt_accepted_without_verdict : Code
  resolution_environment resolution_host resolution_missing resolution_unused : Code
  resolution_unresolved publication_shadowed authentication_mismatch : Code
  target_unreachable_expectation datasource_target_cardinality receiver_chat_id : Code
  receiver_no_destination source_set_kind : Code
  supersede_previous_digest supersede_document supersede_environment supersede_version : Code
  supersede_no_change supersede_precondition supersede_unchanged retired_product_referenced : Code
  request_kind request_document request_version : Code
  request_previous_digest request_absent : Code
  credential_ref_shared smtp_unconfigured receiver_silent route_undeclared : Code
  route_duplicate receiver_unused severity_unrouted severity_undelivered : Code
  job_duplicate metrics_path_unexplained federation_prefix_collision listen_not_loopback : Code

pub record Finding : Type 0 where
  pub code : Code
  pub location : String
