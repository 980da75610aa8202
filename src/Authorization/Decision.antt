-- ===== src/Authorization/Decision.antt =====
-- The decisions of authorization.py.
use governed_signal_to_conte.Base.{Option, Result, String, none, some}
use governed_signal_to_conte.Models.{
  AuthorizationDecision, AuthorizationReason, AuthorizationStatus, Capability, ScopeIds, allowed,
  bootstrap_allowed, capability_value, denied, no_scope, not_evaluated, policy_manage_capabilities,
  require_coherent_scope, scope_version_1,
}
use governed_signal_to_conte.Workflow.{WorkflowState}

-- The arguments of `_decision` that its callers give.
pub record Request : Type 0 where
  pub principal_id : String
  pub actual_prior_state : Option WorkflowState
  pub requested_state : Option WorkflowState
  pub scope : ScopeIds

-- The fields that `_decision` passes to the model, with `scope_version="1.0"`.
abbrev pub decision_of :
    AuthorizationStatus
    → String
    → AuthorizationReason
    → Request
    → Option String
    → AuthorizationDecision
decision_of status required_capability reason r matching_grant_id = record {
  status = status;
  principal_id = r.principal_id;
  required_capability = required_capability;
  actual_prior_state = r.actual_prior_state;
  requested_state = r.requested_state;
  scope_version = some scope_version_1;
  scope = r.scope;
  matching_grant_id = matching_grant_id;
  reason = reason;
}

-- `_decision`; the model's validator may raise.
unfoldable pub make_decision :
    AuthorizationStatus
    → String
    → AuthorizationReason
    → Request
    → Option String
    → Result AuthorizationDecision
unfolding require_coherent_scope
make_decision status required_capability reason r matching_grant_id =
    require_coherent_scope (decision_of status required_capability reason r matching_grant_id)

unfoldable pub denied_decision :
    String → AuthorizationReason → Request → Result AuthorizationDecision
unfolding make_decision
denied_decision capability_value reason r = make_decision denied capability_value reason r none

unfoldable pub not_evaluated_decision :
    Capability → AuthorizationReason → Request → Result AuthorizationDecision
unfolding make_decision capability_value
not_evaluated_decision capability reason r =
    make_decision not_evaluated (capability_value capability) reason r none

unfoldable pub bootstrap_decision : String → Result AuthorizationDecision
unfolding make_decision capability_value
bootstrap_decision principal_id =
    make_decision allowed (capability_value policy_manage_capabilities) bootstrap_allowed
      (record {
        principal_id = principal_id;
        actual_prior_state = none;
        requested_state = none;
        scope = no_scope;
      })
      none
