-- ===== src/Authorization/Evaluate.antt =====
-- `CapabilityPolicyEvaluator.evaluate` (authorization.py): the join of grants, chain entries and
-- revocations, and the decision by stages.
use governed_signal_to_conte.Authorization.Decision.{Request, denied_decision, make_decision}
use governed_signal_to_conte.Base.{
  Bool, List, Option, Result, String, [], any, codes, if◌then◌else◌, is_empty, is_some, leb, nat_eq,
  none, not, opt_eq, select, some, ℕ, ◌&&◌, ◌==◌, ◌∷◌,
}
use governed_signal_to_conte.Chain.Material.{ChainEntry}
use governed_signal_to_conte.Chain.Rows.{codes_leb, entry_of}
use governed_signal_to_conte.Database.{Database}
use governed_signal_to_conte.Models.{
  AuthorizationDecision, AuthorizationReason, Capability, active_grant, all_given, allowed,
  any_given, brand_scope_mismatch, capability_eq, capability_mismatch, capability_value,
  channel_scope_mismatch, destination_scope_mismatch, effect_manage_bindings, grant_revoked,
  is_packet_scoped, legacy_unscoped_grant, no_active_grant, no_scope, packet_approve, packet_reject,
  packet_release, policy_manage_capabilities, policy_not_bootstrapped, request_scope_mismatch,
  scope_required, scope_version_1, state_scope_mismatch, unknown_capability,
}
use governed_signal_to_conte.Tables.{CapabilityGrant, CapabilityRevocation}
use governed_signal_to_conte.Workflow.{WorkflowState, opt_state_eq}

-- `required_capability: Capability | str`
pub data RequiredCapability : Type 0 where
  known : Capability → RequiredCapability
  named : String → RequiredCapability

-- `Capability(str(required_capability))`
unfoldable pub parse_capability : RequiredCapability → Option Capability
unfolding capability_value
parse_capability (known c) = some c
parse_capability (named s) =
    if s == capability_value packet_approve
    then some packet_approve
    else if s == capability_value packet_reject
    then some packet_reject
    else if s == capability_value packet_release
    then some packet_release
    else if s == capability_value policy_manage_capabilities
    then some policy_manage_capabilities
    else if s == capability_value effect_manage_bindings
    then some effect_manage_bindings
    else none

unfoldable pub required_text : RequiredCapability → String
unfolding capability_value
required_text (known c) = capability_value c
required_text (named s) = s

-- A row of the join: the grant, its event sequence, and whether a revocation names it.
pub record GrantRow : Type 0 where
  pub grant : CapabilityGrant
  pub event_sequence : ℕ
  pub revoked : Bool

unfoldable pub is_revoked : List CapabilityRevocation → String → Bool
is_revoked revocations grant_id = any (λ r. r.grant_id == grant_id) revocations

-- The row of one grant under `JOIN transition_event_chain_entries … LEFT JOIN
-- capability_revocations … WHERE g.subject_principal_id = ?`.
unfoldable pub join_row :
    String → List ChainEntry → List CapabilityRevocation → CapabilityGrant → Option GrantRow
unfolding is_revoked
join_row principal_id entries revocations g = elim (entry_of entries g.policy_event_id) [
  | none ↦ none
  | some c ↦
      if g.subject_principal_id == principal_id
      then some (record {
        grant = g;
        event_sequence = c.event_sequence;
        revoked = is_revoked revocations g.grant_id;
      })
      else none
]

unfoldable pub join_rows :
    String → List ChainEntry → List CapabilityRevocation → List CapabilityGrant → List GrantRow
unfolding join_row
join_rows principal_id entries revocations [] = []
join_rows principal_id entries revocations (g ∷ gs) =
    let rest = join_rows principal_id entries revocations gs in
    elim (join_row principal_id entries revocations g) [ none ↦ rest | some row ↦ row ∷ rest ]

abbrev before : GrantRow → GrantRow → Bool
before r s =
    if nat_eq r.event_sequence s.event_sequence
    then codes_leb (codes r.grant.grant_id) (codes s.grant.grant_id)
    else leb r.event_sequence s.event_sequence

unfoldable pub insert_row : GrantRow → List GrantRow → List GrantRow
insert_row r [] = r ∷ []
insert_row r (s ∷ ss) = let rest = insert_row r ss in if before r s then r ∷ s ∷ ss else s ∷ rest

-- `ORDER BY c.event_sequence, g.grant_id`
unfoldable pub order_rows : List GrantRow → List GrantRow
unfolding insert_row
order_rows [] = []
order_rows (r ∷ rs) = insert_row r (order_rows rs)

unfoldable pub grant_rows : Database → String → List GrantRow
unfolding join_rows order_rows
grant_rows db principal_id =
    order_rows
      (join_rows principal_id db.store.entries db.capability_revocations db.capability_grants)

-- The tests of the list comprehensions.
abbrev pub has_capability : Capability → GrantRow → Bool
has_capability c r = capability_eq r.grant.capability c

abbrev pub has_states : Option WorkflowState → Option WorkflowState → GrantRow → Bool
has_states prior requested r =
    opt_state_eq r.grant.expected_prior_state prior
    && opt_state_eq r.grant.requested_state requested

abbrev pub is_legacy : GrantRow → Bool
is_legacy r = not (is_some r.grant.scope_version) && not (any_given r.grant.scope)

abbrev pub is_scoped : GrantRow → Bool
is_scoped r = opt_eq r.grant.scope_version (some scope_version_1)

abbrev pub has_brand : Option String → GrantRow → Bool
has_brand b r = opt_eq r.grant.scope.brand_id b

abbrev pub has_channel : Option String → GrantRow → Bool
has_channel c r = opt_eq r.grant.scope.channel_id c

abbrev pub has_destination : Option String → GrantRow → Bool
has_destination d r = opt_eq r.grant.scope.destination_id d

abbrev pub is_active : GrantRow → Bool
is_active r = not r.revoked

-- The last stage: the first row that is not revoked decides.
unfoldable pub decide_active : Capability → Request → List GrantRow → Result AuthorizationDecision
unfolding denied_decision make_decision capability_value
decide_active capability r rows = elim (select is_active rows) [
  | [] ↦ denied_decision (capability_value capability) grant_revoked r
  | row ∷ _ ↦
      make_decision allowed (capability_value capability) active_grant r (some row.grant.grant_id)
]

-- The stages on the scope of a packet capability.
unfoldable pub decide_scoped : Capability → Request → List GrantRow → Result AuthorizationDecision
unfolding denied_decision decide_active capability_value
decide_scoped capability r exact_rows =
    let deny =
      λ (reason : AuthorizationReason). denied_decision (capability_value capability) reason r in
    let legacy_rows = select is_legacy exact_rows in
    let scoped_rows = select is_scoped exact_rows in
    let brand_rows = select (has_brand r.scope.brand_id) scoped_rows in
    let channel_rows = select (has_channel r.scope.channel_id) brand_rows in
    let exact_scope_rows = select (has_destination r.scope.destination_id) channel_rows in
    if is_empty scoped_rows && not (is_empty legacy_rows)
    then deny legacy_unscoped_grant
    else if is_empty brand_rows
    then deny brand_scope_mismatch
    else if is_empty channel_rows
    then deny channel_scope_mismatch
    else if is_empty exact_scope_rows
    then deny destination_scope_mismatch
    else decide_active capability r exact_scope_rows

-- The stages from the policy state on.
unfoldable pub decide_rows : Database → Capability → Request → Result AuthorizationDecision
unfolding denied_decision decide_scoped decide_active capability_value grant_rows
decide_rows db capability r =
    let deny =
      λ (reason : AuthorizationReason). denied_decision (capability_value capability) reason r in
    let rows = grant_rows db r.principal_id in
    let capability_rows = select (has_capability capability) rows in
    let exact_rows = select (has_states r.actual_prior_state r.requested_state) capability_rows in
    if not (is_some db.capability_policy_state)
    then deny policy_not_bootstrapped
    else if is_empty rows
    then deny no_active_grant
    else if is_empty capability_rows
    then deny capability_mismatch
    else if is_empty exact_rows
    then deny state_scope_mismatch
    else if is_packet_scoped capability
    then decide_scoped capability r exact_rows
    else decide_active capability r exact_rows

unfoldable pub evaluate_known : Database → Capability → Request → Result AuthorizationDecision
unfolding denied_decision decide_rows capability_value all_given any_given
evaluate_known db capability r =
    if is_packet_scoped capability && not (all_given r.scope)
    then denied_decision (capability_value capability) scope_required
        (record r { scope = no_scope })
    else if not (is_packet_scoped capability) && any_given r.scope
    then denied_decision (capability_value capability) request_scope_mismatch
        (record r { scope = no_scope })
    else decide_rows db capability r

-- `CapabilityPolicyEvaluator.evaluate`
unfoldable pub evaluate : Database → RequiredCapability → Request → Result AuthorizationDecision
unfolding parse_capability required_text denied_decision evaluate_known
evaluate db required_capability r = elim (parse_capability required_capability) [
  | none ↦ denied_decision (required_text required_capability) unknown_capability r
  | some capability ↦ evaluate_known db capability r
]
