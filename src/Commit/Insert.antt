-- ===== src/Commit/Insert.antt =====
-- The INSERT helpers of database.py with the constraints of their tables, the append of an event
-- to the chain, and `_validate_authorization_event`.
use governed_signal_to_conte.Base.{
  Bool, Option, Result, String, [], all, any, codes, drop, if◌then◌else◌, integrity_error, length,
  nat_eq, none, not, ok, opt_eq, raise_if, some, value_error, ℕ, ◌&&◌, ◌++◌, ◌+◌, ◌==◌, ◌>>=◌, ◌>>◌,
  ◌∷◌,
}
use governed_signal_to_conte.Chain.Append.{insert_transition_event}
use governed_signal_to_conte.Chain.Events.{authz_eq, outcome_eq}
use governed_signal_to_conte.Chain.Material.{Material}
use governed_signal_to_conte.Database.{Database}
use governed_signal_to_conte.Models.{
  AuthorizationDecision, ScopeIds, all_given, any_given, capability_state_scopes, is_packet_scoped,
  scope_version_1,
}
use governed_signal_to_conte.Receipts.{TransitionEvent, authorization_fields, is_hex}
use governed_signal_to_conte.Scope.{is_prefix}
use governed_signal_to_conte.Tables.{
  Approval, AuthenticatedOperation, CapabilityGrant, CapabilityRevocation, ConsumedOperation,
  Outcome,
}
use governed_signal_to_conte.Workflow.{opt_state_eq}

-- A row may only name a row that is there.
abbrev pub has_principal : Database → String → Bool
has_principal db p = any (λ t. t.principal_id == p) db.trusted_principals

abbrev pub has_event : Database → String → Bool
has_event db e = any (λ f. f.event.event_id == e) db.store.events

abbrev pub has_operation : Database → String → Bool
has_operation db o = any (λ c. c.operation.operation_id == o) db.authenticated_operations

-- The CHECK on the scope columns of `packets` and `approvals`.
abbrev pub whole_scope : Option String → ScopeIds → Bool
whole_scope none s = not (any_given s)
whole_scope (some v) s = v == scope_version_1 && all_given s

unfoldable pub insert_approval : Approval → Database → Result Database
unfolding any_given all_given
insert_approval a db = do
  raise_if (any (λ b. b.approval_id == a.approval_id) db.approvals)
      (integrity_error "UNIQUE constraint failed: approvals.approval_id")
  raise_if (any (λ b. b.transition_event_id == a.transition_event_id) db.approvals)
      (integrity_error "UNIQUE constraint failed: approvals.transition_event_id")
  raise_if (not (whole_scope a.scope_version a.scope))
      (integrity_error "CHECK constraint failed: approvals")
  raise_if
      (not (any (λ p. p.packet_id == a.packet_id) db.packets && has_event db a.transition_event_id))
      (integrity_error "FOREIGN KEY constraint failed")
  ok (record db { approvals = db.approvals ++ a ∷ [] })

abbrev pub consumed_row : AuthenticatedOperation → String → Outcome → ConsumedOperation
consumed_row o adjudication_event_id adjudication_outcome = record {
  operation = o;
  adjudication_event_id = adjudication_event_id;
  adjudication_outcome = adjudication_outcome;
}

unfoldable pub insert_authenticated_operation :
    AuthenticatedOperation → String → Outcome → Database → Result Database
insert_authenticated_operation o adjudication_event_id adjudication_outcome db = do
  raise_if (has_operation db o.operation_id)
      (integrity_error "UNIQUE constraint failed: authenticated_operations.operation_id")
  raise_if (any (λ c. c.operation.proof_hash == o.proof_hash) db.authenticated_operations)
      (integrity_error "UNIQUE constraint failed: authenticated_operations.proof_hash")
  raise_if (any (λ c. c.adjudication_event_id == adjudication_event_id) db.authenticated_operations)
      (integrity_error "UNIQUE constraint failed: authenticated_operations.adjudication_event_id")
  raise_if (not (has_principal db o.principal_id && has_event db adjudication_event_id))
      (integrity_error "FOREIGN KEY constraint failed")
  ok (record db {
    authenticated_operations =
        db.authenticated_operations
        ++ consumed_row o adjudication_event_id adjudication_outcome ∷ [];
  })

-- `prefix` and then `n` of `[0-9a-f]`: the GLOB checks of the identifier columns.
unfoldable pub has_id_format : String → ℕ → String → Bool
unfolding is_prefix
has_id_format prefix n s =
    is_prefix (codes prefix) (codes s)
    && nat_eq (length (codes s)) (length (codes prefix) + n)
    && all is_hex (drop (length (codes prefix)) (codes s))

-- The CHECK on capability and states, and that on capability and scope, of `capability_grants`.
unfoldable pub has_grant_scope : CapabilityGrant → Bool
unfolding capability_state_scopes opt_state_eq any_given all_given
has_grant_scope g =
    let (prior, requested) = capability_state_scopes g.capability in
    opt_state_eq g.expected_prior_state prior
    && opt_state_eq g.requested_state requested
    && (elim g.scope_version [
      | none ↦ not (any_given g.scope)
      | some v ↦
          v == scope_version_1
          && (if is_packet_scoped g.capability then all_given g.scope else not (any_given g.scope))
    ])

unfoldable pub insert_capability_grant : CapabilityGrant → Database → Result Database
unfolding has_id_format has_grant_scope
insert_capability_grant g db = do
  raise_if (not (has_id_format "grant_" 32 g.grant_id && has_grant_scope g))
      (integrity_error "CHECK constraint failed: capability_grants")
  raise_if (any (λ h. h.grant_id == g.grant_id) db.capability_grants)
      (integrity_error "UNIQUE constraint failed: capability_grants.grant_id")
  raise_if
      (any (λ h. h.authenticated_operation_id == g.authenticated_operation_id) db.capability_grants)
      (integrity_error "UNIQUE constraint failed: capability_grants.authenticated_operation_id")
  raise_if (any (λ h. h.policy_event_id == g.policy_event_id) db.capability_grants)
      (integrity_error "UNIQUE constraint failed: capability_grants.policy_event_id")
  raise_if
      (not (
        has_principal db g.subject_principal_id
        && has_principal db g.granted_by_principal_id
        && has_operation db g.authenticated_operation_id
        && has_event db g.policy_event_id))
      (integrity_error "FOREIGN KEY constraint failed")
  ok (record db { capability_grants = db.capability_grants ++ g ∷ [] })

unfoldable pub insert_capability_revocation : CapabilityRevocation → Database → Result Database
unfolding has_id_format
insert_capability_revocation v db = do
  raise_if (not (has_id_format "revoke_" 32 v.revocation_id))
      (integrity_error "CHECK constraint failed: capability_revocations")
  raise_if (any (λ w. w.revocation_id == v.revocation_id) db.capability_revocations)
      (integrity_error "UNIQUE constraint failed: capability_revocations.revocation_id")
  raise_if (any (λ w. w.grant_id == v.grant_id) db.capability_revocations)
      (integrity_error "UNIQUE constraint failed: capability_revocations.grant_id")
  raise_if
      (any (λ w. w.authenticated_operation_id == v.authenticated_operation_id)
        db.capability_revocations)
      (integrity_error
        "UNIQUE constraint failed: capability_revocations.authenticated_operation_id")
  raise_if (any (λ w. w.policy_event_id == v.policy_event_id) db.capability_revocations)
      (integrity_error "UNIQUE constraint failed: capability_revocations.policy_event_id")
  raise_if
      (not (
        any (λ g. g.grant_id == v.grant_id) db.capability_grants
        && has_principal db v.revoked_by_principal_id
        && has_operation db v.authenticated_operation_id
        && has_event db v.policy_event_id))
      (integrity_error "FOREIGN KEY constraint failed")
  ok (record db { capability_revocations = db.capability_revocations ++ v ∷ [] })

-- `_validate_authorization_event`: the evidence of the event is that of the decision.
unfoldable pub has_authorization_evidence :
    TransitionEvent → AuthorizationDecision → AuthenticatedOperation → Outcome → Bool
unfolding authorization_fields
has_authorization_evidence e d o outcome =
    opt_eq e.authentication.status (some "verified")
    && opt_eq e.authentication.principal_id (some o.principal_id)
    && opt_eq e.authentication.operation_id (some o.operation_id)
    && authz_eq e.authorization (authorization_fields (some d))
    && outcome_eq e.outcome outcome

unfoldable pub validate_authorization_event :
    TransitionEvent → AuthorizationDecision → AuthenticatedOperation → Outcome → Result (Unit {0})
unfolding has_authorization_evidence
validate_authorization_event e d o outcome =
    raise_if (not (has_authorization_evidence e d o outcome))
      (value_error "Canonical event authorization evidence mismatch")

-- `insert_transition_event(connection, event)` on the whole database.
module _ (canonical_json_hash : Material → String) where
  unfoldable pub append_event : TransitionEvent → Database → Result Database
  unfolding insert_transition_event
  append_event e db = do
    (_, store) ← insert_transition_event canonical_json_hash e db.store
    ok (record db { store = store })
