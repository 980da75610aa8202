-- ===== src/Commit/Rejection.antt =====
-- `record_authenticated_authorization_rejection` (database.py): a request that was rejected before
-- the transaction is recorded with the decision of the policy as it is now.
use governed_signal_to_conte.Authorization.Decision.{denied_decision}
use governed_signal_to_conte.Base.{Result, String, none, some, ◌>>=◌}
use governed_signal_to_conte.Chain.Material.{Material}
use governed_signal_to_conte.Commit.Authority.{
  Adjudication, RequestScope, authority_request, commit_denial, evaluate_transaction_authorization,
  packet_scope_of,
}
use governed_signal_to_conte.Commit.Progress.{find_packet}
use governed_signal_to_conte.Database.{Database, Transaction}
use governed_signal_to_conte.Models.{
  AuthorityOperation, AuthorizationDecision, capability_value, no_scope, required_capabilities,
  scope_required,
}
use governed_signal_to_conte.Receipts.Events.{TransitionEvent}
use governed_signal_to_conte.Tables.{AuthenticatedOperation}
use governed_signal_to_conte.Workflow.{WorkflowState}

pub record RejectedRequest : Type 0 where
  pub operation : AuthorityOperation
  pub principal_id : String
  pub actual_prior_state : WorkflowState
  pub requested_state : WorkflowState
  pub packet_id : String
  pub request_scope : RequestScope
  pub authenticated_operation : AuthenticatedOperation
  pub event_factory : AuthorizationDecision → Result TransitionEvent

-- The decision that goes with the rejection; it may be an allowing one.
unfoldable pub rejection_decision : RejectedRequest → Database → Result AuthorizationDecision
rejection_decision r db =
    let capability = (required_capabilities r.operation).0 in
    elim (find_packet db r.packet_id) [
      | none ↦
          denied_decision (capability_value capability) scope_required
            (authority_request r.principal_id r.actual_prior_state r.requested_state no_scope)
      | some packet ↦
          evaluate_transaction_authorization db r.principal_id capability r.actual_prior_state
            r.requested_state (packet_scope_of packet) r.request_scope
    ]

module _ (canonical_json_hash : Material → String) where
  unfoldable pub record_authenticated_authorization_rejection :
      RejectedRequest → Transaction Adjudication
  record_authenticated_authorization_rejection r db = do
    decision ← rejection_decision r db
    event ← r.event_factory decision
    commit_denial canonical_json_hash r.authenticated_operation event decision db
