-- ===== src/AuthenticationExamples.antt =====
-- The theorems on authentication at concrete inputs: a trusted principal, a signed approval, and the
-- commit that consumes it.
use governed_signal_to_conte.Authentication.Accepted.{
  IsAuthentic, authenticate_authority_request-IsAuthentic,
}
use governed_signal_to_conte.Authentication.Consumed.{authenticate_authority_request-once}
use governed_signal_to_conte.Authentication.Operations.{
  AuthenticatedRequest, BindingFields, Envelope, SignedOperation, consumption_record,
  destination_binding, packet_transition,
}
use governed_signal_to_conte.Authentication.Verify.{
  OperationEncoding, authenticate_authority_request, authenticated, check_window, request_of,
  seconds,
}
use governed_signal_to_conte.Authentication.Window.{IsValidAt, check_window_iff}
use governed_signal_to_conte.Authorization.Evaluate.{evaluate}
use governed_signal_to_conte.Base.{
  Bool, Result, [], err, false, if◌then◌else◌, none, ok, refl, some, true, ◌==◌, ◌↔◌, ◌∷◌, ◌≡◌,
}
use governed_signal_to_conte.Commit.Authority.{
  Adjudication, AuthorityCommit, adjudicate, commit_acceptance, commit_authority_transition,
  commit_denial, evaluate_transaction_authorization,
}
use governed_signal_to_conte.Commit.Insert.{
  append_event, insert_authenticated_operation, insert_capability_grant,
  validate_authorization_event,
}
use governed_signal_to_conte.Commit.Policy.{
  commit_capability_policy_operation, policy_decision, write_policy,
}
use governed_signal_to_conte.Commit.Progress.{move_candidate, move_packet, move_pair}
use governed_signal_to_conte.Database.{Database}
use governed_signal_to_conte.EffectScenario.{
  past_events, plain_keys, release_grant, released_database, released_workspace, request_host,
  the_scope,
}
use governed_signal_to_conte.Effects.Managed.{IsManaged, management_transaction-IsManaged}
use governed_signal_to_conte.Effects.Management.{Target, management_transaction}
use governed_signal_to_conte.Effects.Tables.{Ledger}
use governed_signal_to_conte.Examples.{after}
use governed_signal_to_conte.Json.{end, fields_eq}
use governed_signal_to_conte.Models.{
  AuthorityOperation, AuthorizationDecision, capability_eq, effect_manage_bindings, is_allowed,
  no_scope, required_capabilities,
}
use governed_signal_to_conte.Scenario.{
  approve_draft, database_after, digest, empty_database, event_for, governed, is_ok,
  workspace_scope,
}
use governed_signal_to_conte.Scope.{packet_scope}
use governed_signal_to_conte.Tables.{CapabilityGrant, TrustedPrincipal}
use governed_signal_to_conte.Workflow.{
  approved, awaiting_approval, is_authority_sensitive, opt_state_eq, state_eq, state_value,
}

abbrev keyed_alice : TrustedPrincipal
keyed_alice = record {
  principal_id = "alice";
  authentication_scheme = "ed25519";
  key_id = "ed25519:key";
  public_key_b64 = "key";
  verifier_fingerprint = "key";
  bootstrapped_at_utc = "2026-01-01T00:00:00Z";
}

abbrev keyed_database : Database
keyed_database = record empty_database { trusted_principals = keyed_alice ∷ [] }

abbrev approval_envelope : Envelope
approval_envelope = record {
  operation_id = "op-3";
  principal_id = "alice";
  authentication_scheme = "ed25519";
  key_id = "ed25519:key";
  issued_at_utc = "issued";
  expires_at_utc = "expires";
  request = packet_transition (record {
    operation = AuthorityOperation.approve;
    target_id = "packet-1";
    candidate_id = "cand-1";
    expected_prior_state = awaiting_approval;
    requested_state = approved;
    packet_manifest_hash = "manifest";
    packet_receipt_hash = "receipt";
    approval_decision = "APPROVED";
    approval_id = "approval-1";
    approval_transition_event_id = none;
    scope_version = some "1.0";
    scope = workspace_scope;
    reason = "reviewed";
  });
}

abbrev signed_approval : SignedOperation
signed_approval = record { envelope = approval_envelope; signature_b64 = "keyop-3" }

-- An operation is issued at 0 and expires after ten minutes.
abbrev plain_operations : OperationEncoding plain_keys
plain_operations = record {
  utc_datetime = λ s. some (if s == "issued" then 0 else seconds 600);
  utc_text = λ n. "2026-01-01T00:00:00Z";
  canonical_envelope_json = λ e. e.operation_id;
  canonical_signed_json = λ s. s.signature_b64;
  encode = λ s. s;
  validate_dump = λ e. some e;
}

abbrev approval_request : AuthenticatedRequest
approval_request =
    request_of plain_keys plain_operations 10 signed_approval keyed_alice approval_envelope

approval_authentic :
    authenticate_authority_request plain_keys plain_operations 10 keyed_database
      (some signed_approval)
    ≡ authenticated approval_request
unfolding authenticate_authority_request
approval_authentic = refl

authenticate_authority_request-IsAuthentic_example :
    (given : SignedOperation) × (some signed_approval ≡ some given)
    × IsAuthentic plain_keys plain_operations 10 keyed_database given approval_request
authenticate_authority_request-IsAuthentic_example =
    authenticate_authority_request-IsAuthentic plain_keys plain_operations 10 keyed_database
      (some signed_approval) approval_request approval_authentic

check_window_iff_example : (check_window 5 0 10 ≡ ok tt) ↔ IsValidAt 5 0 10
check_window_iff_example = check_window_iff 5 0 10

abbrev consuming : AuthorityCommit
consuming = record approve_draft {
  authenticated_operation = consumption_record approval_request "2026-01-01T00:00:01Z";
  event_factory = event_for "event-3" (consumption_record approval_request "2026-01-01T00:00:01Z");
}

abbrev consuming_commit : Result (Adjudication × Database)
consuming_commit = commit_authority_transition digest consuming governed

abbrev consumed_database : Database
consumed_database = database_after governed consuming_commit

consumed_ok : is_ok consuming_commit ≡ true
unfolding authenticate_authority_request commit_capability_policy_operation policy_decision
    write_policy validate_authorization_event append_event insert_authenticated_operation
    insert_capability_grant event_for fields_eq state_eq commit_authority_transition adjudicate
    commit_acceptance commit_denial move_pair move_packet move_candidate
    evaluate_transaction_authorization is_authority_sensitive required_capabilities packet_scope
    state_value consumption_record
consumed_ok = refl

consumed_answer : (a : Adjudication) × (consuming_commit ≡ ok (a, consumed_database))
consumed_answer = after governed consuming_commit consumed_ok

authenticate_authority_request-once_example : ¬ (
    authenticate_authority_request plain_keys plain_operations 20 consumed_database
      (some signed_approval)
    ≡ authenticated approval_request)
authenticate_authority_request-once_example =
    authenticate_authority_request-once digest plain_keys plain_operations 10 20 keyed_database
      governed consumed_database signed_approval approval_request approval_request
      "2026-01-01T00:00:01Z" consuming consumed_answer.0 approval_authentic refl consumed_answer.1

abbrev binding_fields : BindingFields
binding_fields = record {
  target_id = "bind_11111111111111111111111111111111";
  scope = the_scope;
  adapter_id = "test.capture";
  external_target_ref = "blog";
  credential_ref = "cred_blog";
  reason = "publish";
}

abbrev registering_envelope : Envelope
registering_envelope = record approval_envelope {
  operation_id = "op-9";
  request = destination_binding binding_fields;
}

abbrev registering : AuthenticatedRequest
registering =
    request_of plain_keys plain_operations 10
      (record { envelope = registering_envelope; signature_b64 = "keyop-9" }) keyed_alice
      registering_envelope

abbrev manager_grant : CapabilityGrant
manager_grant = record release_grant {
  capability = effect_manage_bindings;
  expected_prior_state = none;
  requested_state = none;
  scope = no_scope;
}

abbrev managed_ledger : Ledger
managed_ledger = record (released_workspace.ledger) {
  database = record released_database {
    capability_grants = manager_grant ∷ [];
    capability_policy_state = some (record {
      bootstrap_grant_id = manager_grant.grant_id;
      bootstrap_event_id = "event-g";
      bootstrap_principal_id = "alice";
      bootstrap_operation_id = "op-1";
      bootstrapped_at_utc = "2026-01-01T00:00:00Z";
      application_version = "0.1.0";
    });
  };
  bindings = [];
}

abbrev binding_target : Target
binding_target = record {
  command = "register-destination-binding";
  target_type = "external_destination_binding";
  target_id = binding_fields.target_id;
  reason = "publish";
  identifiers = end;
}

abbrev registration : Result (AuthorizationDecision × Ledger)
registration =
    management_transaction digest request_host registering binding_target "alice"
      "2026-01-01T00:00:01Z" managed_ledger

abbrev is_ok_decision : Result (AuthorizationDecision × Ledger) → Bool
is_ok_decision (ok (d, l)) = is_allowed d
is_ok_decision (err e) = false

registered_ok : is_ok_decision registration ≡ true
unfolding management_transaction past_events evaluate authenticate_authority_request state_value
    fields_eq capability_eq opt_state_eq
registered_ok = refl

registered_answer :
    (m : Result (AuthorizationDecision × Ledger))
    → is_ok_decision m ≡ true
    → (d : AuthorizationDecision) × (l : Ledger) × (m ≡ ok (d, l))
registered_answer (ok (d, l)) h = (d, l, refl)
registered_answer (err e) h = cc

registered : (d : AuthorizationDecision) × (l : Ledger) × (registration ≡ ok (d, l))
registered = registered_answer registration registered_ok

management_transaction-IsManaged_example :
    IsManaged registering registered.0 request_host managed_ledger registered.1
management_transaction-IsManaged_example =
    management_transaction-IsManaged digest request_host registering binding_target "alice"
      "2026-01-01T00:00:01Z" registered.0 managed_ledger registered.1 registered.2
