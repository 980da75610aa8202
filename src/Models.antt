-- ===== src/Models.antt =====
-- The enumerations and decisions of models.py, and the capability tables of authorization.py.
use governed_signal_to_conte.Base.{
  Bool, Option, Result, String, arith, err, false, if◌then◌else◌, is_some, nat_eq, none, not, ok,
  some, true, value_error, ℕ, ◌&&◌, ◌>>◌, ◌||◌, ◌≡◌,
}
use governed_signal_to_conte.Scope.{packet_scope}
use governed_signal_to_conte.Workflow.{
  WorkflowState, approved, awaiting_approval, rejected, released, state_eq,
}

-- `SCOPE_VERSION`
abbrev pub scope_version_1 : String
scope_version_1 = "1.0"

pub data AuthorityOperation : Type 0 where
  approve reject release : AuthorityOperation

unfoldable pub operation_value : AuthorityOperation → String
operation_value approve = "approve"
operation_value reject = "reject"
operation_value release = "release"

pub data Capability : Type 0 where
  packet_approve packet_reject packet_release policy_manage_capabilities effect_manage_bindings :
      Capability

abbrev pub capability_ordinal : Capability → ℕ
capability_ordinal packet_approve = 0
capability_ordinal packet_reject = 1
capability_ordinal packet_release = 2
capability_ordinal policy_manage_capabilities = 3
capability_ordinal effect_manage_bindings = 4

unfoldable pub capability_eq : Capability → Capability → Bool
capability_eq a b = nat_eq (capability_ordinal a) (capability_ordinal b)

pub capability_eq→eq : (a b : Capability) → capability_eq a b ≡ true → a ≡ b
unfolding capability_eq
capability_eq→eq a b h = ground arith

pub capability_eq_refl : (a : Capability) → capability_eq a a ≡ true
unfolding capability_eq
capability_eq_refl a = ground arith

unfoldable pub capability_value : Capability → String
capability_value packet_approve = "packet.approve"
capability_value packet_reject = "packet.reject"
capability_value packet_release = "packet.release"
capability_value policy_manage_capabilities = "policy.manage_capabilities"
capability_value effect_manage_bindings = "effect.manage_bindings"

pub data CapabilityPolicyOperation : Type 0 where
  bootstrap grant revoke : CapabilityPolicyOperation

unfoldable pub policy_operation_value : CapabilityPolicyOperation → String
policy_operation_value bootstrap = "bootstrap-capability-policy"
policy_operation_value grant = "grant-capability"
policy_operation_value revoke = "revoke-capability"

pub data AuthorizationStatus : Type 0 where
  allowed denied not_evaluated : AuthorizationStatus

unfoldable pub status_value : AuthorizationStatus → String
status_value allowed = "allowed"
status_value denied = "denied"
status_value not_evaluated = "not_evaluated"

pub data AuthorizationReason : Type 0 where
  active_grant bootstrap_allowed no_active_grant capability_mismatch state_scope_mismatch
        grant_revoked unknown_capability policy_not_bootstrapped policy_already_bootstrapped
        unknown_subject_principal unknown_grant grant_binding_mismatch grant_already_revoked
        last_policy_admin request_binding_rejected replay_rejected scope_required
        request_scope_mismatch brand_scope_mismatch channel_scope_mismatch
        destination_scope_mismatch no_active_scoped_grant legacy_unscoped_grant :
      AuthorizationReason

unfoldable pub reason_value : AuthorizationReason → String
reason_value active_grant = "ACTIVE_GRANT"
reason_value bootstrap_allowed = "BOOTSTRAP_ALLOWED"
reason_value no_active_grant = "NO_ACTIVE_GRANT"
reason_value capability_mismatch = "CAPABILITY_MISMATCH"
reason_value state_scope_mismatch = "STATE_SCOPE_MISMATCH"
reason_value grant_revoked = "GRANT_REVOKED"
reason_value unknown_capability = "UNKNOWN_CAPABILITY"
reason_value policy_not_bootstrapped = "POLICY_NOT_BOOTSTRAPPED"
reason_value policy_already_bootstrapped = "POLICY_ALREADY_BOOTSTRAPPED"
reason_value unknown_subject_principal = "UNKNOWN_SUBJECT_PRINCIPAL"
reason_value unknown_grant = "UNKNOWN_GRANT"
reason_value grant_binding_mismatch = "GRANT_BINDING_MISMATCH"
reason_value grant_already_revoked = "GRANT_ALREADY_REVOKED"
reason_value last_policy_admin = "LAST_POLICY_ADMIN"
reason_value request_binding_rejected = "REQUEST_BINDING_REJECTED"
reason_value replay_rejected = "REPLAY_REJECTED"
reason_value scope_required = "SCOPE_REQUIRED"
reason_value request_scope_mismatch = "REQUEST_SCOPE_MISMATCH"
reason_value brand_scope_mismatch = "BRAND_SCOPE_MISMATCH"
reason_value channel_scope_mismatch = "CHANNEL_SCOPE_MISMATCH"
reason_value destination_scope_mismatch = "DESTINATION_SCOPE_MISMATCH"
reason_value no_active_scoped_grant = "NO_ACTIVE_SCOPED_GRANT"
reason_value legacy_unscoped_grant = "LEGACY_UNSCOPED_GRANT"

-- `REQUIRED_CAPABILITIES`: the capability, the prior state and the requested state.
unfoldable pub required_capabilities :
    AuthorityOperation → Capability × WorkflowState × WorkflowState
required_capabilities approve = (packet_approve, awaiting_approval, approved)
required_capabilities reject = (packet_reject, awaiting_approval, rejected)
required_capabilities release = (packet_release, approved, released)

unfoldable pub derive_required_capability :
    AuthorityOperation → WorkflowState → WorkflowState → Result Capability
unfolding required_capabilities state_eq
derive_required_capability operation actual_prior_state requested_state =
    let (capability, expected_prior, expected_requested) = required_capabilities operation in
    if not (state_eq actual_prior_state expected_prior)
      || not (state_eq requested_state expected_requested)
    then err
        (value_error "Authority operation does not match its canonical capability/state semantics")
    else ok capability

-- `CAPABILITY_STATE_SCOPES`
unfoldable pub capability_state_scopes : Capability → Option WorkflowState × Option WorkflowState
capability_state_scopes packet_approve = (some awaiting_approval, some approved)
capability_state_scopes packet_reject = (some awaiting_approval, some rejected)
capability_state_scopes packet_release = (some approved, some released)
capability_state_scopes policy_manage_capabilities = (none, none)
capability_state_scopes effect_manage_bindings = (none, none)

-- `capability in {PACKET_APPROVE, PACKET_REJECT, PACKET_RELEASE}`
abbrev pub is_packet_scoped : Capability → Bool
is_packet_scoped packet_approve = true
is_packet_scoped packet_reject = true
is_packet_scoped packet_release = true
is_packet_scoped policy_manage_capabilities = false
is_packet_scoped effect_manage_bindings = false

-- Three optional scope identifiers, as the signatures pass them.
pub record ScopeIds : Type 0 where
  pub brand_id : Option String
  pub channel_id : Option String
  pub destination_id : Option String

abbrev pub no_scope : ScopeIds
no_scope = record { brand_id = none; channel_id = none; destination_id = none }

-- `any(value is not None for value in scope_values)`
unfoldable pub any_given : ScopeIds → Bool
any_given s = is_some s.brand_id || is_some s.channel_id || is_some s.destination_id

-- `all(value is not None for value in scope_values)`
unfoldable pub all_given : ScopeIds → Bool
all_given s = is_some s.brand_id && is_some s.channel_id && is_some s.destination_id

pub record AuthorizationDecision : Type 0 where
  pub status : AuthorizationStatus
  pub principal_id : String
  pub required_capability : String
  pub actual_prior_state : Option WorkflowState
  pub requested_state : Option WorkflowState
  pub scope_version : Option String
  pub scope : ScopeIds
  pub matching_grant_id : Option String
  pub reason : AuthorizationReason

-- `PacketScope(...)` on three identifiers that are all present.
abbrev pub scope_of : Option String → Option String → Option String → Result (Unit {0})
scope_of (some b) (some c) (some d) = packet_scope b c d
scope_of (some b) (some c) none = ok tt
scope_of (some b) none d = ok tt
scope_of none c d = ok tt

-- `AuthorizationDecision.require_coherent_scope`
unfoldable pub require_coherent_scope : AuthorizationDecision → Result AuthorizationDecision
unfolding any_given all_given
require_coherent_scope d = elim d.scope_version [
  | none ↦
      if any_given d.scope
      then err (value_error "Authorization scope requires a scope version")
      else ok d
  | some v ↦
      if any_given d.scope && not (all_given d.scope)
      then err (value_error "Authorization scope must be entirely present or absent")
      else (do scope_of d.scope.brand_id d.scope.channel_id d.scope.destination_id; ok d)
]

-- The property `AuthorizationDecision.allowed`.
abbrev pub is_allowed_status : AuthorizationStatus → Bool
is_allowed_status allowed = true
is_allowed_status denied = false
is_allowed_status not_evaluated = false

abbrev pub is_allowed : AuthorizationDecision → Bool
is_allowed d = is_allowed_status d.status
