-- ===== src/Effects/Management.antt =====
-- `mediate_execution_management` (external_effects.py): one signed registration of a destination
-- binding or an executor is authenticated, authorised, consumed and committed.
use governed_signal_to_conte.Authentication.Operations.{
  AuthenticatedRequest, Envelope, OperationRequest, capability_policy, consumption_record,
  destination_binding, evidence, executor_registration, packet_transition,
}
use governed_signal_to_conte.Authorization.Decision.{Request, denied_decision}
use governed_signal_to_conte.Authorization.Evaluate.{evaluate, known}
use governed_signal_to_conte.Base.{
  Bool, List, Option, Result, String, [], if◌then◌else◌, none, ok, some, text_append, ◌&&◌, ◌>>=◌,
  ◌>>◌, ◌∷◌,
}
use governed_signal_to_conte.Chain.Material.{Material}
use governed_signal_to_conte.Commit.Insert.{
  insert_authenticated_operation, validate_authorization_event,
}
use governed_signal_to_conte.Effects.Record.{Host, append_effect_event}
use governed_signal_to_conte.Effects.Register.{Registration, has_conflict, insert_registration}
use governed_signal_to_conte.Effects.Tables.{Ledger, LedgerTransaction}
use governed_signal_to_conte.Json.{Fields, Items, array, cons, end, field, nil, text}
use governed_signal_to_conte.Models.{
  AuthorizationDecision, capability_value, effect_manage_bindings, is_allowed, no_scope,
  reason_value, request_binding_rejected,
}
use governed_signal_to_conte.Receipts.Events.{
  TransitionEvent, new_receipt, transition_event_from_receipt,
}
use governed_signal_to_conte.Receipts.Fields.{
  AuthenticationEvidence, RunReceipt, VerificationStatus,
}
use governed_signal_to_conte.Tables.{AuthenticatedOperation, Outcome}

abbrev text_items : List String → Items
text_items [] = nil
text_items (t ∷ ts) = cons (text t) (text_items ts)

-- What the command, the event and the result say of a request.
pub record Target : Type 0 where
  pub command : String
  pub target_type : String
  pub target_id : String
  pub reason : String
  pub identifiers : Fields

-- `_management_identifiers`, and the fields of the request that go with it; `none` where the request
-- is not execution management.
unfoldable pub management_target : String → OperationRequest → Option Target
management_target operation_id (destination_binding b) = some (record {
  command = "register-destination-binding";
  target_type = "external_destination_binding";
  target_id = b.target_id;
  reason = b.reason;
  identifiers = field "authentication_operation_id" (text operation_id) (
      field "destination_binding_id" (text b.target_id) (
        field "scope_version" (text b.scope.scope_version) (
          field "brand_id" (text b.scope.brand_id) (
            field "channel_id" (text b.scope.channel_id) (
              field "destination_id" (text b.scope.destination_id) (
                field "adapter_id" (text b.adapter_id) (
                  field "external_target_ref" (text b.external_target_ref)
                    (field "credential_ref" (text b.credential_ref) end))))))));
})
management_target operation_id (executor_registration x) = some (record {
  command = "register-effect-executor";
  target_type = "trusted_effect_executor";
  target_id = x.target_id;
  reason = x.reason;
  identifiers = field "authentication_operation_id" (text operation_id) (
      field "executor_id" (text x.target_id) (
        field "executor_authentication_scheme" (text x.executor_authentication_scheme) (
          field "executor_key_id" (text x.executor_key_id) (
            field "executor_verifier_fingerprint" (text x.executor_verifier_fingerprint)
              (field "allowed_adapter_ids" (array (text_items x.allowed_adapter_ids)) end)))));
})
management_target operation_id (packet_transition t) = none
management_target operation_id (capability_policy p) = none

-- `ExecutionManagementResult`
pub record ManagementResult : Type 0 where
  pub request_id : String
  pub operation : String
  pub outcome : Outcome
  pub canonical_event_id : String
  pub target_id : String
  pub rejection_reason : Option String

-- The result that is returned, and the one that the exception `AuthorizationRejected` carries.
pub data Managed : Type 0 where
  registered : ManagementResult → Managed
  refused : AuthorizationDecision → ManagementResult → Managed

abbrev pub execution_request : String → Request
execution_request principal_id = record {
  principal_id = principal_id;
  actual_prior_state = none;
  requested_state = none;
  scope = no_scope;
}

unfoldable pub denied_conflict : String → Result AuthorizationDecision
unfolding denied_decision capability_value
denied_conflict principal_id =
    denied_decision (capability_value effect_manage_bindings) request_binding_rejected
      (execution_request principal_id)

-- The policy's decision, and a denial where the registration conflicts with one that is there.
unfoldable pub management_decision :
    Ledger → String → OperationRequest → Result AuthorizationDecision
unfolding evaluate has_conflict denied_conflict
management_decision l principal_id request = do
  decision ← evaluate l.database (known effect_manage_bindings) (execution_request principal_id)
  let conflicting = is_allowed decision && has_conflict l request
  if conflicting then denied_conflict principal_id else ok decision

abbrev pub outcome_of : Bool → Outcome
outcome_of is_accepted = if is_accepted then Outcome.accepted else Outcome.rejected

-- f"Authorization denied: {decision.reason.value}"
unfoldable pub rejection_reason : AuthorizationDecision → String
unfolding reason_value
rejection_reason d = text_append "Authorization denied: " (reason_value d.reason)

unfoldable pub management_receipt :
    Host → String → Target → AuthenticationEvidence → AuthorizationDecision → Result RunReceipt
unfolding new_receipt rejection_reason
management_receipt host asserted_actor t shown d = new_receipt (host.stamp) (record {
  command = t.command;
  actor = asserted_actor;
  input_identifiers = t.identifiers;
  prior_state = none;
  requested_transition = none;
  resulting_state = none;
  outcome = outcome_of (is_allowed d);
  reason = if is_allowed d then t.reason else rejection_reason d;
  file_hashes = end;
  authentication = some shown;
  authorization = some d;
})

unfoldable pub management_result :
    Envelope → Target → AuthorizationDecision → String → ManagementResult
unfolding rejection_reason
management_result request t d event_id = record {
  request_id = request.operation_id;
  operation = t.command;
  outcome = outcome_of (is_allowed d);
  canonical_event_id = event_id;
  target_id = t.target_id;
  rejection_reason = if is_allowed d then none else some (rejection_reason d);
}

abbrev pub registration_of : Host → AuthenticatedRequest → Registration
registration_of host a = record {
  principal_id = a.principal.principal_id;
  operation_id = a.request.operation_id;
  event_id = host.stamp.run_id;
  created_at_utc = host.stamp.timestamp_utc;
  application_version = host.stamp.application_version;
}

abbrev pub management_event : Target → RunReceipt → TransitionEvent
management_event t receipt = transition_event_from_receipt receipt t.target_type t.target_id none

-- The consumption of the operation, with its adjudication.
unfoldable pub consume_operation :
    AuthenticatedOperation → String → Outcome → Ledger → Result Ledger
unfolding insert_authenticated_operation
consume_operation o event_id outcome l = do
  database ← insert_authenticated_operation o event_id outcome l.database
  ok (record l { database = database })

module _ (canonical_json_hash : Material → String) where
  -- The block once the decision is made.
  unfoldable pub record_management :
      Host
      → AuthenticatedRequest
      → Target
      → String
      → String
      → AuthorizationDecision
      → LedgerTransaction AuthorizationDecision
  unfolding management_receipt validate_authorization_event append_effect_event consume_operation
      insert_registration evidence consumption_record transition_event_from_receipt
  record_management host a t asserted_actor consumed_at_utc d l = do
    let consumption = consumption_record a consumed_at_utc
    receipt ← management_receipt host asserted_actor t (evidence a VerificationStatus.verified) d
    validate_authorization_event (management_event t receipt) d consumption
        (outcome_of (is_allowed d))
    appended ← append_effect_event canonical_json_hash (management_event t receipt) l
    consumed ← consume_operation consumption host.stamp.run_id (outcome_of (is_allowed d)) appended
    l' ←
        if is_allowed d
        then insert_registration a.request.request (registration_of host a) consumed
        else ok consumed
    ok (d, l')

  -- The `with database.connect(…)` block.
  unfoldable pub management_transaction :
      Host
      → AuthenticatedRequest
      → Target
      → String
      → String
      → LedgerTransaction AuthorizationDecision
  unfolding management_decision record_management
  management_transaction host a t asserted_actor consumed_at_utc l = do
    d ← management_decision l a.principal.principal_id a.request.request
    record_management host a t asserted_actor consumed_at_utc d l
