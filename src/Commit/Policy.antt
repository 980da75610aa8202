-- ===== src/Commit/Policy.antt =====
-- `_commit_capability_policy_operation` (database.py): bootstrap, grant and revoke.
use governed_signal_to_conte.Authorization.Decision.{Request, bootstrap_decision, denied_decision}
use governed_signal_to_conte.Authorization.Evaluate.{evaluate, is_revoked, known}
use governed_signal_to_conte.Base.{
  Bool, Option, Result, String, any, false, find_first, if◌then◌else◌, integrity_error, is_some,
  length, nat_eq, none, not, ok, opt_eq, or_raise, raise_if, some, true, ◌&&◌, ◌+◌, ◌==◌, ◌>>=◌,
  ◌>>◌, ◌||◌,
}
use governed_signal_to_conte.Chain.Material.{Material}
use governed_signal_to_conte.Commit.Authority.{
  Adjudication, RequestScope, denial_text, is_complete_scope, scope_ids_eq,
}
use governed_signal_to_conte.Commit.Insert.{
  append_event, has_principal, insert_authenticated_operation, insert_capability_grant,
  insert_capability_revocation, validate_authorization_event,
}
use governed_signal_to_conte.Database.{Database, Transaction}
use governed_signal_to_conte.Models.{
  AuthorizationDecision, AuthorizationReason, Capability, CapabilityPolicyOperation, bootstrap,
  capability_eq, capability_value, grant, grant_already_revoked, grant_binding_mismatch, is_allowed,
  is_packet_scoped, last_policy_admin, no_scope, policy_already_bootstrapped,
  policy_manage_capabilities, request_binding_rejected, revoke, scope_required, scope_version_1,
  unknown_grant, unknown_subject_principal,
}
use governed_signal_to_conte.Receipts.{TransitionEvent}
use governed_signal_to_conte.Tables.{
  AuthenticatedOperation, CapabilityGrant, CapabilityRevocation, Outcome,
}
use governed_signal_to_conte.Workflow.{WorkflowState, opt_state_eq}

-- The fields of the request that the transaction reads.
pub record PolicyRequest : Type 0 where
  pub operation : CapabilityPolicyOperation
  pub grant_id : String
  pub revocation_id : Option String
  pub subject_principal_id : String
  pub capability : Capability
  pub expected_prior_state : Option WorkflowState
  pub requested_state : Option WorkflowState
  pub scope : RequestScope

-- `capability not in {POLICY_MANAGE_CAPABILITIES, EFFECT_MANAGE_BINDINGS}` is `is_packet_scoped`.

-- The reasons for which a bootstrap is refused.
unfoldable pub bootstrap_refusal : Database → String → Option AuthorizationReason
bootstrap_refusal db principal_id =
    if is_some db.capability_policy_state
      || not (nat_eq (length db.capability_grants + length db.capability_revocations) 0)
    then some policy_already_bootstrapped
    else if not (nat_eq (length db.trusted_principals) 1)
        || not (any (λ t. t.principal_id == principal_id) db.trusted_principals)
    then some request_binding_rejected
    else none

abbrev pub is_revoke : CapabilityPolicyOperation → Bool
is_revoke bootstrap = false
is_revoke grant = false
is_revoke revoke = true

-- Bootstrap and grant need a scope version.
unfoldable pub version_refusal : PolicyRequest → Option AuthorizationReason
version_refusal q =
    if not (is_revoke q.operation) && not (opt_eq q.scope.scope_version (some scope_version_1))
    then some scope_required
    else none

unfoldable pub grant_refusal : Database → PolicyRequest → Option AuthorizationReason
unfolding is_complete_scope
grant_refusal db q =
    if not (has_principal db q.subject_principal_id)
    then some unknown_subject_principal
    else if is_packet_scoped q.capability && not (is_complete_scope q.scope)
    then some scope_required
    else none

abbrev pub find_grant : Database → String → Option CapabilityGrant
find_grant db grant_id = find_first (λ g. g.grant_id == grant_id) db.capability_grants

-- `expected_binding == requested_binding`
unfoldable pub binds_grant : CapabilityGrant → PolicyRequest → Bool
unfolding capability_eq opt_state_eq scope_ids_eq
binds_grant g q =
    g.subject_principal_id == q.subject_principal_id
    && capability_eq g.capability q.capability
    && opt_state_eq g.expected_prior_state q.expected_prior_state
    && opt_state_eq g.requested_state q.requested_state
    && opt_eq g.scope_version q.scope.scope_version
    && scope_ids_eq g.scope q.scope.scope

-- A grant of the management capability that no revocation names.
abbrev pub is_admin : Database → CapabilityGrant → Bool
is_admin db g =
    capability_eq g.capability policy_manage_capabilities
    && not (is_revoked db.capability_revocations g.grant_id)

-- Another such grant: the query for `remaining_admin`.
abbrev pub is_other_admin : Database → String → CapabilityGrant → Bool
is_other_admin db grant_id g = is_admin db g && not (g.grant_id == grant_id)

-- The checks on a grant that was found.
unfoldable pub target_refusal :
    Database → PolicyRequest → CapabilityGrant → Option AuthorizationReason
unfolding binds_grant is_revoked capability_eq
target_refusal db q g =
    if not (binds_grant g q)
    then some grant_binding_mismatch
    else if is_revoked db.capability_revocations q.grant_id
    then some grant_already_revoked
    else if capability_eq q.capability policy_manage_capabilities
        && not (any (is_other_admin db q.grant_id) db.capability_grants)
    then some last_policy_admin
    else none

unfoldable pub revoke_refusal : Database → PolicyRequest → Option AuthorizationReason
unfolding target_refusal
revoke_refusal db q = elim (find_grant db q.grant_id) [
  | none ↦ some unknown_grant
  | some g ↦ target_refusal db q g
]

-- The refusal of an operation that passed its first check.
unfoldable pub later_refusal : Database → PolicyRequest → Option AuthorizationReason
unfolding version_refusal grant_refusal revoke_refusal
later_refusal db q = elim (version_refusal q) [
  | some reason ↦ some reason
  | none ↦ elim q.operation [
    | bootstrap ↦ none
    | grant ↦ grant_refusal db q
    | revoke ↦ revoke_refusal db q
  ]
]

abbrev pub management_request : String → Request
management_request principal_id = record {
  principal_id = principal_id;
  actual_prior_state = none;
  requested_state = none;
  scope = no_scope;
}

-- A refusal of the transaction itself: denied for the management capability.
unfoldable pub refuse : String → AuthorizationReason → Result AuthorizationDecision
unfolding denied_decision capability_value
refuse principal_id reason =
    denied_decision (capability_value policy_manage_capabilities) reason
      (management_request principal_id)

unfoldable pub first_decision :
    Database → String → CapabilityPolicyOperation → Result AuthorizationDecision
unfolding bootstrap_refusal refuse bootstrap_decision evaluate
first_decision db principal_id bootstrap = elim (bootstrap_refusal db principal_id) [
  | some reason ↦ refuse principal_id reason
  | none ↦ bootstrap_decision principal_id
]
first_decision db principal_id grant =
    evaluate db (known policy_manage_capabilities) (management_request principal_id)
first_decision db principal_id revoke =
    evaluate db (known policy_manage_capabilities) (management_request principal_id)

-- The decision of the transaction. It is accepted when it is allowed.
unfoldable pub policy_decision : Database → String → PolicyRequest → Result AuthorizationDecision
unfolding first_decision later_refusal refuse
policy_decision db principal_id q = do
  first ← first_decision db principal_id q.operation
  let refusal : Option AuthorizationReason = if is_allowed first then later_refusal db q else none
  elim refusal [ none ↦ ok first | some reason ↦ refuse principal_id reason ]

-- The new row of `capability_grants`.
abbrev pub granted : PolicyRequest → AuthenticatedOperation → TransitionEvent → CapabilityGrant
granted q o e = record {
  grant_id = q.grant_id;
  subject_principal_id = q.subject_principal_id;
  capability = q.capability;
  expected_prior_state = q.expected_prior_state;
  requested_state = q.requested_state;
  scope_version = q.scope.scope_version;
  scope = q.scope.scope;
  granted_by_principal_id = o.principal_id;
  authenticated_operation_id = o.operation_id;
  policy_event_id = e.event_id;
  created_at_utc = e.occurred_at_utc;
  application_version = e.application_version;
}

-- The new row of `capability_revocations`.
abbrev pub revoked :
    String → PolicyRequest → AuthenticatedOperation → TransitionEvent → CapabilityRevocation
revoked revocation_id q o e = record {
  revocation_id = revocation_id;
  grant_id = q.grant_id;
  revoked_by_principal_id = o.principal_id;
  authenticated_operation_id = o.operation_id;
  policy_event_id = e.event_id;
  revoked_at_utc = e.occurred_at_utc;
  application_version = e.application_version;
}

-- The INSERT into `capability_policy_state`: its one row has the key 1.
unfoldable pub insert_policy_state :
    PolicyRequest → AuthenticatedOperation → TransitionEvent → Database → Result Database
insert_policy_state q o e db = do
  raise_if (is_some db.capability_policy_state)
      (integrity_error "UNIQUE constraint failed: capability_policy_state.singleton_id")
  ok (record db {
    capability_policy_state = some (record {
      bootstrap_principal_id = o.principal_id;
      bootstrap_grant_id = q.grant_id;
      bootstrap_operation_id = o.operation_id;
      bootstrap_event_id = e.event_id;
      bootstrapped_at_utc = e.occurred_at_utc;
      application_version = e.application_version;
    });
  })

-- The rows that an accepted operation writes, after its event and its consumed operation. A request
-- to revoke has a `revocation_id` (`require_canonical_policy_semantics`); its column is NOT NULL.
unfoldable pub write_policy :
    PolicyRequest → AuthenticatedOperation → TransitionEvent → Database → Result Database
unfolding insert_capability_grant insert_capability_revocation insert_policy_state
write_policy q o e db = elim q.operation [
  | bootstrap ↦ insert_capability_grant (granted q o e) db >>= λ db₁. insert_policy_state q o e db₁
  | grant ↦ insert_capability_grant (granted q o e) db
  | revoke ↦
      or_raise q.revocation_id (integrity_error "NOT NULL constraint failed") >>= λ revocation_id.
      insert_capability_revocation (revoked revocation_id q o e) db
]

module _ (canonical_json_hash : Material → String) where
  unfoldable pub commit_capability_policy_operation :
      PolicyRequest
      → AuthenticatedOperation
      → (AuthorizationDecision → Bool → String → Result TransitionEvent)
      → Transaction Adjudication
  commit_capability_policy_operation q o event_factory db = do
    decision ← policy_decision db o.principal_id q
    let accepted = is_allowed decision
    let outcome : Outcome = if accepted then Outcome.accepted else Outcome.rejected
    event ← event_factory decision accepted (if accepted then "" else denial_text decision)
    validate_authorization_event event decision o outcome
    db₁ ← append_event canonical_json_hash event db
    db₂ ← insert_authenticated_operation o event.event_id outcome db₁
    db₃ ← if accepted then write_policy q o event db₂ else ok db₂
    ok (record { event = event; decision = decision; accepted = accepted }, db₃)
