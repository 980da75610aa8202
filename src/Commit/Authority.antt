-- ===== src/Commit/Authority.antt =====
-- `_evaluate_transaction_authorization`, `_commit_authority_transition` and
-- `record_authenticated_authorization_rejection` (database.py).
use governed_signal_to_conte.Authorization.Decision.{Request, denied_decision}
use governed_signal_to_conte.Authorization.Evaluate.{evaluate, known}
use governed_signal_to_conte.Base.{
  Bool, Option, Result, String, false, find_first, if◌then◌else◌, key_error, not, ok, opt_eq,
  or_raise, raise_if, runtime_error, some, text_append, true, value_error, ◌&&◌, ◌==◌, ◌>>=◌, ◌>>◌,
}
use governed_signal_to_conte.Chain.Material.{Material}
use governed_signal_to_conte.Commit.Insert.{
  append_event, insert_approval, insert_authenticated_operation, validate_authorization_event,
}
use governed_signal_to_conte.Commit.Progress.{find_candidate, find_packet, move_pair, when_some}
use governed_signal_to_conte.Database.{Database, Transaction}
use governed_signal_to_conte.Models.{
  AuthorityOperation, AuthorizationDecision, Capability, ScopeIds, all_given, capability_value,
  is_allowed, no_scope, reason_value, request_scope_mismatch, required_capabilities, scope_required,
  scope_version_1,
}
use governed_signal_to_conte.Receipts.{TransitionEvent}
use governed_signal_to_conte.Tables.{Approval, AuthenticatedOperation, Outcome, Packet}
use governed_signal_to_conte.Workflow.{WorkflowState, is_authority_sensitive, state_eq}

-- The scope a request asserts.
pub record RequestScope : Type 0 where
  pub scope_version : Option String
  pub scope : ScopeIds

-- `scope_version == "1.0"` with all three identifiers present.
unfoldable pub is_complete_scope : RequestScope → Bool
unfolding all_given
is_complete_scope s = opt_eq s.scope_version (some scope_version_1) && all_given s.scope

unfoldable pub scope_ids_eq : ScopeIds → ScopeIds → Bool
scope_ids_eq s t =
    opt_eq s.brand_id t.brand_id
    && opt_eq s.channel_id t.channel_id
    && opt_eq s.destination_id t.destination_id

-- The arguments of the evaluator and of the denials, for a request with both states.
abbrev pub authority_request : String → WorkflowState → WorkflowState → ScopeIds → Request
authority_request principal_id prior requested scope = record {
  principal_id = principal_id;
  actual_prior_state = some prior;
  requested_state = some requested;
  scope = scope;
}

-- The packet's own scope decides; the request must assert exactly that scope.
unfoldable pub evaluate_transaction_authorization :
    Database
    → String
    → Capability
    → WorkflowState
    → WorkflowState
    → RequestScope
    → RequestScope
    → Result AuthorizationDecision
unfolding is_complete_scope scope_ids_eq evaluate denied_decision
evaluate_transaction_authorization db principal_id capability prior requested packet asserted =
    let bare = authority_request principal_id prior requested no_scope in
    let actual = authority_request principal_id prior requested packet.scope in
    if not (is_complete_scope packet)
    then denied_decision (capability_value capability) scope_required bare
    else if not (is_complete_scope asserted)
    then denied_decision (capability_value capability) scope_required actual
    else if not (scope_ids_eq asserted.scope packet.scope)
    then denied_decision (capability_value capability) request_scope_mismatch actual
    else evaluate db (known capability) actual

abbrev pub packet_scope_of : Packet → RequestScope
packet_scope_of p = record { scope_version = p.scope_version; scope = p.scope }

-- The arguments of `_commit_authority_transition`. The two factories are closures of the caller.
pub record AuthorityCommit : Type 0 where
  pub operation : AuthorityOperation
  pub packet_id : String
  pub candidate_id : String
  pub prior_state : WorkflowState
  pub resulting_state : WorkflowState
  pub event_factory : AuthorizationDecision → Bool → String → Result TransitionEvent
  pub authenticated_operation : AuthenticatedOperation
  pub approval_factory : Option (String → String → Approval)
  pub required_packet_manifest : String
  pub required_approval_manifest : Option String
  pub required_approval_id : Option String
  pub required_approval_event_id : Option String
  pub request_scope : RequestScope

-- What the caller learns: the event that was stored, the decision, and whether it was accepted.
pub record Adjudication : Type 0 where
  pub event : TransitionEvent
  pub decision : AuthorizationDecision
  pub accepted : Bool

-- `SELECT … FROM approvals WHERE packet_id = ? AND approval_id = ? AND decision = 'APPROVED'`
abbrev pub is_approval_for : String → Option String → Approval → Bool
is_approval_for packet_id approval_id a =
    a.packet_id == packet_id && opt_eq (some a.approval_id) approval_id && a.decision == "APPROVED"

unfoldable pub approval_binds : Packet → AuthorityCommit → String → Approval → Bool
unfolding scope_ids_eq
approval_binds packet t manifest a =
    packet.manifest_hash == manifest
    && a.manifest_hash == manifest
    && opt_eq (some a.approval_id) t.required_approval_id
    && opt_eq (some a.transition_event_id) t.required_approval_event_id
    && opt_eq a.scope_version packet.scope_version
    && scope_ids_eq a.scope packet.scope

-- The release block: a canonical approval, bound to the packet as it is now.
unfoldable pub check_release_approval :
    Packet → AuthorityCommit → String → Database → Result Database
unfolding approval_binds
check_release_approval packet t manifest db = do
  approval ←
      or_raise (find_first (is_approval_for t.packet_id t.required_approval_id) db.approvals)
        (runtime_error "Release requires a canonical approved decision")
  raise_if (not (approval_binds packet t manifest approval))
      (runtime_error "Release approval binding changed before transition commit")
  ok db

-- `f"Authorization denied: {decision.reason.value}"`
unfoldable pub denial_text : AuthorizationDecision → String
unfolding reason_value
denial_text d = text_append "Authorization denied: " (reason_value d.reason)

module _ (canonical_json_hash : Material → String) where
  -- The branch for a denied decision: the rejected event and the consumed operation.
  unfoldable pub commit_denial :
      AuthenticatedOperation → TransitionEvent → AuthorizationDecision → Transaction Adjudication
  commit_denial operation event decision db = do
    validate_authorization_event event decision operation Outcome.rejected
    db₁ ← append_event canonical_json_hash event db
    db₂ ← insert_authenticated_operation operation event.event_id Outcome.rejected db₁
    ok (record { event = event; decision = decision; accepted = false }, db₂)

  -- The branch for an allowed decision: the bindings, the paired update, the event, the approval
  -- and the consumed operation.
  unfoldable pub commit_acceptance :
      AuthorityCommit → Packet → WorkflowState → AuthorizationDecision → Transaction Adjudication
  commit_acceptance t packet actual_prior decision db = do
    raise_if (not (state_eq actual_prior t.prior_state))
        (runtime_error "Packet/candidate paired state changed before transition commit")
    raise_if (not (packet.manifest_hash == t.required_packet_manifest))
        (runtime_error "Packet manifest binding changed before transition commit")
    db₀ ← when_some t.required_approval_manifest (check_release_approval packet t) db
    event ← t.event_factory decision true ""
    validate_authorization_event event decision t.authenticated_operation Outcome.accepted
    db₁ ← move_pair t.packet_id t.candidate_id t.prior_state t.resulting_state db₀
    db₂ ← append_event canonical_json_hash event db₁
    db₃ ←
        when_some t.approval_factory
          (λ factory. insert_approval (factory event.event_id event.occurred_at_utc)) db₂
    db₄ ←
        insert_authenticated_operation t.authenticated_operation event.event_id Outcome.accepted db₃
    ok (record { event = event; decision = decision; accepted = true }, db₄)

  -- `if not decision.allowed: …`, and the rest of the transaction.
  unfoldable pub adjudicate :
      AuthorityCommit → Packet → AuthorizationDecision → Transaction Adjudication
  adjudicate t packet decision db =
      if is_allowed decision
      then commit_acceptance t packet packet.state decision db
      else (t.event_factory decision false (denial_text decision) >>= λ event.
          commit_denial t.authenticated_operation event decision db)

  unfoldable pub commit_authority_transition : AuthorityCommit → Transaction Adjudication
  commit_authority_transition t db = do
    raise_if (not (is_authority_sensitive t.prior_state t.resulting_state))
        (value_error "Canonical authority commit received a non-authority state pair")
    let (capability, _, _) = required_capabilities t.operation
    let gone = key_error "Packet or candidate disappeared during transition"
    packet ← or_raise (find_packet db t.packet_id) gone
    candidate ← or_raise (find_candidate db t.candidate_id) gone
    raise_if (not (packet.candidate_id == t.candidate_id))
        (runtime_error "Packet/candidate identity changed before transition commit")
    raise_if (not (state_eq candidate.state packet.state))
        (runtime_error "Packet/candidate paired state changed before transition commit")
    decision ←
        evaluate_transaction_authorization db t.authenticated_operation.principal_id capability
          packet.state t.resulting_state (packet_scope_of packet) t.request_scope
    adjudicate t packet decision db
