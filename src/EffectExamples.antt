-- ===== src/EffectExamples.antt =====
-- The theorems on external effects at concrete inputs: the workspace of EffectScenario.
use governed_signal_to_conte.Base.{
  In, Result, err, inl, inr, none, ok, opt_eq, refl, some, text_append, true, ◌≡◌,
}
use governed_signal_to_conte.Commit.Insert.{append_event}
use governed_signal_to_conte.EffectScenario.{
  ask, claim, claimed_again, claimed_once, effect_digest, failed_once, first_host, past_events,
  plain_encoding, plain_keys, release_grant, released_workspace, report, request_host,
  requested_workspace, result_host, second_host, signed_failure, the_binding, the_effect, the_files,
  the_packet_files, the_scope, zeros,
}
use governed_signal_to_conte.Effects.Claim.{claim_external_effect}
use governed_signal_to_conte.Effects.Create.{
  Requested, create_external_effect_request, request_transaction,
}
use governed_signal_to_conte.Effects.Created.{RequestOutcome, request_transaction-RequestOutcome}
use governed_signal_to_conte.Effects.Envelopes.{require_result_semantics}
use governed_signal_to_conte.Effects.Ingest.{record_signed_executor_result, result_row}
use governed_signal_to_conte.Effects.Keys.{result_proof}
use governed_signal_to_conte.Effects.Lifecycle.{Phase, phase}
use governed_signal_to_conte.Effects.Once.{
  Call-Advances, claim_external_effect-once, may_have_occurred,
}
use governed_signal_to_conte.Effects.PerPacket.{create_external_effect_request-once}
use governed_signal_to_conte.Effects.Refines.{Advances}
use governed_signal_to_conte.Effects.Release.{release_evidence}
use governed_signal_to_conte.Effects.Request.{external_effect_request}
use governed_signal_to_conte.Effects.Steps.{
  Call, Calls, answers, claims, no_call, one_call, requests,
}
use governed_signal_to_conte.Effects.Tables.{EffectDispatch, EffectRequest, EffectResult, Ledger}
use governed_signal_to_conte.Effects.Trust.{IsTrusted, record_signed_executor_result-IsTrusted}
use governed_signal_to_conte.Effects.Twice.{record_signed_executor_result-again}
use governed_signal_to_conte.Json.{
  Fields, array, cons, end, field, fields_eq, nil, object, text, value_eq,
}
use governed_signal_to_conte.Models.{all_given}
use governed_signal_to_conte.Packets.Agreement.{Describes, recompute_packet_manifest-Describes}
use governed_signal_to_conte.Packets.Manifest.{
  PacketDirectory, packet_filenames, packet_files, recompute_packet_manifest, scope_fields,
}
use governed_signal_to_conte.Projection.{
  finish_projection, mark_transition_event_projected, project_receipt,
}
use governed_signal_to_conte.Scenario.{digest, digest_text, draft, is_ok, workspace_scope}
use governed_signal_to_conte.Scope.{packet_scope}
use governed_signal_to_conte.Workflow.{state_eq, state_value}

request-Call :
    Call digest effect_digest plain_keys plain_encoding released_workspace requested_workspace
request-Call =
    requests request_host "packet-1" none the_files the_files (ask released_workspace).0 refl

first-Call : Call digest effect_digest plain_keys plain_encoding requested_workspace claimed_once
first-Call = claims first_host the_effect none (claim first_host requested_workspace).0 refl

second-Call : Call digest effect_digest plain_keys plain_encoding claimed_once failed_once
unfolding require_result_semantics packet_scope
second-Call = answers result_host signed_failure none (report result_host claimed_once).0 refl refl

third-Call : Call digest effect_digest plain_keys plain_encoding failed_once claimed_again
third-Call = claims second_host the_effect none (claim second_host failed_once).0 refl

two-Calls : Calls digest effect_digest plain_keys plain_encoding released_workspace failed_once
two-Calls = one_call request-Call (one_call first-Call (one_call second-Call no_call))

three-Calls : Calls digest effect_digest plain_keys plain_encoding released_workspace claimed_again
three-Calls =
    one_call request-Call (one_call first-Call (one_call second-Call (one_call third-Call no_call)))

-- The claim after the failure.
abbrev retry : EffectDispatch
retry = record {
  dispatch_id = "dispatch_00000000000000000000000000000003";
  effect_id = the_effect;
  effect_request_hash = zeros;
  attempt_number = 2;
  claimed_at_utc = "2026-01-02T00:00:00Z";
  application_version = "0.1.0";
  dispatch_event_id = "event-3";
}

retry_claimed : In retry claimed_again.ledger.dispatches
unfolding create_external_effect_request state_eq past_events state_value claim_external_effect
    record_signed_executor_result fields_eq project_receipt finish_projection
    mark_transition_event_projected
retry_claimed = inr (inl refl)

retry_open : may_have_occurred claimed_again.ledger retry ≡ true
unfolding create_external_effect_request state_eq past_events state_value claim_external_effect
    record_signed_executor_result fields_eq project_receipt finish_projection
    mark_transition_event_projected may_have_occurred
retry_open = refl

claim_external_effect-once_example : retry ≡ retry
claim_external_effect-once_example =
    claim_external_effect-once digest effect_digest plain_keys plain_encoding released_workspace
      claimed_again refl refl three-Calls retry retry retry_claimed retry_claimed refl retry_open
      retry_open

Call-Advances_example :
    Advances (phase failed_once.ledger the_effect) (phase claimed_again.ledger the_effect)
Call-Advances_example =
    Call-Advances digest effect_digest plain_keys plain_encoding released_workspace failed_once
      claimed_again the_effect refl refl two-Calls third-Call

retried : phase claimed_again.ledger the_effect ≡ Phase.claimed 2
unfolding create_external_effect_request state_eq past_events state_value claim_external_effect
    record_signed_executor_result fields_eq project_receipt finish_projection
    mark_transition_event_projected phase
retried = refl

abbrev failure_row : EffectResult
failure_row =
    result_row signed_failure (result_proof plain_keys plain_encoding signed_failure) "event-2"

reported : report result_host claimed_once ≡ (ok failure_row, failed_once)
unfolding create_external_effect_request state_eq past_events state_value claim_external_effect
    record_signed_executor_result fields_eq project_receipt finish_projection
    mark_transition_event_projected
reported = refl

record_signed_executor_result-again_example :
    report second_host failed_once ≡ (ok failure_row, failed_once)
record_signed_executor_result-again_example =
    record_signed_executor_result-again digest plain_keys plain_encoding result_host second_host
      signed_failure none none failure_row claimed_once failed_once reported

record_signed_executor_result-IsTrusted_example :
    IsTrusted plain_keys plain_encoding signed_failure failure_row failed_once.ledger
record_signed_executor_result-IsTrusted_example =
    record_signed_executor_result-IsTrusted digest plain_keys plain_encoding result_host
      signed_failure none failure_row claimed_once failed_once reported

-- The request that is made.
abbrev the_request : EffectRequest
the_request = record {
  effect_id = the_effect;
  release_event_id = "event-r";
  packet_id = "packet-1";
  candidate_id = "cand-1";
  approval_id = "approval-1";
  approval_event_id = "event-g";
  authenticated_principal_id = "alice";
  authorizing_grant_id = release_grant.grant_id;
  capability = "packet.release";
  scope = the_scope;
  destination_binding_id = the_binding.binding_id;
  adapter_id = "test.capture";
  external_target_ref = "blog";
  credential_ref = "cred_blog";
  packet_manifest_hash = zeros;
  packet_receipt_hash = zeros;
  release_event_hash = digest_text 2;
  release_event_sequence = 2;
  idempotency_key = text_append "idem_" zeros;
  request_hash = zeros;
  created_at_utc = "2026-01-02T00:00:00Z";
  application_version = "0.1.0";
  request_event_id = "event-0";
}

request_made : In the_request claimed_again.ledger.requests
unfolding create_external_effect_request state_eq past_events state_value claim_external_effect
    record_signed_executor_result fields_eq project_receipt finish_projection
    mark_transition_event_projected
request_made = inl refl

create_external_effect_request-once_example : retry ≡ retry
create_external_effect_request-once_example =
    create_external_effect_request-once digest effect_digest plain_keys plain_encoding
      released_workspace claimed_again refl refl refl three-Calls the_request the_request retry
      retry request_made request_made refl retry_claimed retry_claimed refl refl retry_open
      retry_open

-- A directory in which each file is its own hash.
abbrev file_hashes : Fields
file_hashes = field "01_linkedin_analysis.md" (text "01_linkedin_analysis.md") (
    field "02_csg_facebook_post.md" (text "02_csg_facebook_post.md") (
      field "03_transient_vs_governed.mmd" (text "03_transient_vs_governed.mmd") (
        field "04_governed_operating_layers_essay.md" (text "04_governed_operating_layers_essay.md")
          (field "05_repository_note.md" (text "05_repository_note.md")
            (field "sources.json" (text "sources.json") end)))))

abbrev packet_directory : PacketDirectory
packet_directory = record {
  names = packet_filenames;
  sha256_file = λ name. some name;
  read_json = λ name. some (
      field "scope" (object (scope_fields workspace_scope)) (
        field "packet_id" (text "packet-1") (
          field "candidate_id" (text "cand-1") (
            field "required_artifacts"
              (array (
                cons (text "01_linkedin_analysis.md") (
                  cons (text "02_csg_facebook_post.md") (
                    cons (text "03_transient_vs_governed.mmd") (
                      cons (text "04_governed_operating_layers_essay.md")
                        (cons (text "05_repository_note.md") nil))))))
              (field "artifact_hashes" (object file_hashes)
                (field "packet_manifest_hash" (text "manifest") end))))));
}

recomputed :
    recompute_packet_manifest (λ f. "manifest") (some packet_directory) draft
    ≡ ok (packet_files (λ f. "manifest") file_hashes "packet_receipt.json")
unfolding recompute_packet_manifest opt_eq all_given value_eq
recomputed = refl

recompute_packet_manifest-Describes_example :
    Describes
      (λ f. "manifest")
      draft
      (packet_files (λ f. "manifest") file_hashes "packet_receipt.json")
      (some packet_directory)
recompute_packet_manifest-Describes_example =
    recompute_packet_manifest-Describes (λ f. "manifest") (some packet_directory) draft
      (packet_files (λ f. "manifest") file_hashes "packet_receipt.json") recomputed

abbrev request_step : Result (Requested × Ledger)
request_step =
    request_transaction digest effect_digest request_host "packet-1" none the_packet_files the_files
      released_workspace.ledger

requested_ok : is_ok request_step ≡ true
unfolding request_transaction past_events append_event release_evidence external_effect_request
    state_eq value_eq state_value
requested_ok = refl

requested_answer :
    (m : Result (Requested × Ledger))
    → is_ok m ≡ true
    → (r : Requested) × (l : Ledger) × (m ≡ ok (r, l))
requested_answer (ok (r, l)) h = (r, l, refl)
requested_answer (err e) h = cc

request_result : (r : Requested) × (l : Ledger) × (request_step ≡ ok (r, l))
request_result = requested_answer request_step requested_ok

request_transaction-RequestOutcome_example :
    RequestOutcome effect_digest request_host "packet-1" the_packet_files the_files request_result.0
      released_workspace.ledger request_result.1
request_transaction-RequestOutcome_example =
    request_transaction-RequestOutcome digest effect_digest request_host "packet-1" none
      the_packet_files the_files request_result.0 released_workspace.ledger request_result.1
      request_result.2
