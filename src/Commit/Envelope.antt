-- ===== src/Commit/Envelope.antt =====
-- `CapabilityPolicyOperationEnvelope.require_canonical_policy_semantics` (models.py), on the fields
-- of the request.
use governed_signal_to_conte.Base.{
  Result, String, if◌then◌else◌, is_some, not, raise_if, value_error, ◌&&◌, ◌==◌, ◌>>◌, ◌||◌,
}
use governed_signal_to_conte.Commit.Policy.{PolicyRequest, is_revoke}
use governed_signal_to_conte.Models.{
  ScopeIds, all_given, any_given, bootstrap, capability_eq, capability_state_scopes, grant,
  is_packet_scoped, policy_manage_capabilities, revoke, scope_of,
}
use governed_signal_to_conte.Workflow.{opt_state_eq}

abbrev scope_text : ScopeIds → Result (Unit {0})
scope_text s = scope_of s.brand_id s.channel_id s.destination_id

-- The checks on the scope.
unfoldable pub check_policy_scope : PolicyRequest → Result (Unit {0})
unfolding any_given all_given
check_policy_scope q =
    if not (is_some q.scope.scope_version)
    then raise_if (any_given q.scope.scope)
        (value_error "Legacy policy operation cannot contain partial scope")
    else if not (is_packet_scoped q.capability)
    then raise_if (any_given q.scope.scope)
        (value_error "Policy-management capability is not packet scoped")
    else if not (all_given q.scope.scope)
    then raise_if (any_given q.scope.scope || not (is_revoke q.operation))
        (value_error "Operational capability grant requires brand, channel, and destination")
    else scope_text q.scope.scope

-- The checks on the operation.
unfoldable pub check_policy_operation : String → PolicyRequest → Result (Unit {0})
unfolding capability_eq
check_policy_operation principal_id q = elim q.operation [
  | bootstrap ↦
      raise_if
        (not (principal_id == q.subject_principal_id)
          || not (capability_eq q.capability policy_manage_capabilities)
          || is_some q.revocation_id)
        (value_error "Capability-policy bootstrap semantics are invalid")
  | grant ↦
      raise_if (is_some q.revocation_id)
        (value_error "Capability grant must not contain a revocation ID")
  | revoke ↦
      raise_if (not (is_some q.revocation_id))
        (value_error "Capability revocation requires a revocation ID")
]

unfoldable pub require_canonical_policy_semantics : String → PolicyRequest → Result (Unit {0})
unfolding check_policy_scope check_policy_operation capability_state_scopes opt_state_eq
require_canonical_policy_semantics principal_id q = do
  let (prior, requested) = capability_state_scopes q.capability
  raise_if
      (not (opt_state_eq q.expected_prior_state prior && opt_state_eq q.requested_state requested))
      (value_error "Capability policy state scope is not canonical")
  check_policy_scope q
  check_policy_operation principal_id q
