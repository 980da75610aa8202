-- ===== src/Authorization/Active.antt =====
-- The evaluator (authorization.py) against its specification: an active grant for exactly the
-- requested capability, states and scope.
use governed_signal_to_conte.Authorization.Decision.{
  Request, decision_of, denied_decision, make_decision,
}
use governed_signal_to_conte.Authorization.Evaluate.{
  GrantRow, RequiredCapability, decide_active, decide_rows, decide_scoped, evaluate, evaluate_known,
  grant_rows, has_brand, has_capability, has_channel, has_destination, has_states, is_active,
  is_revoked, is_scoped, parse_capability, required_text,
}
use governed_signal_to_conte.Authorization.Rows.{Joined, In-join_rows, In-order_rows}
use governed_signal_to_conte.Base.{
  &&→left, &&→right, Bool, Bool-cases, In, List, List-cases, Option, Option-cases, String, arith,
  false, if◌then◌else◌, In-select, inl, inr, is_some, none, ok, opt_eq→eq, refl, select, some, true,
  ◌≡◌,
}
use governed_signal_to_conte.Chain.Rows.{entry_of}
use governed_signal_to_conte.Database.{Database}
use governed_signal_to_conte.Models.{
  AuthorizationDecision, AuthorizationReason, AuthorizationStatus, Capability, ScopeIds,
  active_grant, allowed, brand_scope_mismatch, capability_eq→eq, capability_mismatch,
  capability_value, channel_scope_mismatch, denied, destination_scope_mismatch, grant_revoked,
  is_allowed, is_packet_scoped, legacy_unscoped_grant, no_active_grant, no_scope,
  policy_not_bootstrapped, request_scope_mismatch, require_coherent_scope, scope_required,
  scope_version_1, state_scope_mismatch, unknown_capability,
}
use governed_signal_to_conte.Tables.{CapabilityGrant}
use governed_signal_to_conte.Workflow.{opt_state_eq→eq}

-- No revocation names the grant.
abbrev pub IsUnrevoked : Database → CapabilityGrant → Type 0
IsUnrevoked db g = is_revoked db.capability_revocations g.grant_id ≡ false

-- The scope of a grant covers a request: for a packet capability it is the same scope, in version
-- 1.0; the other capabilities have none.
abbrev pub CoversIf : Bool → ScopeIds → CapabilityGrant → Type 0
CoversIf true scope g = (g.scope_version ≡ some scope_version_1) × (g.scope ≡ scope)
CoversIf false scope g = Unit

abbrev pub Covers : Capability → ScopeIds → CapabilityGrant → Type 0
Covers c = CoversIf (is_packet_scoped c)

-- A grant in force for a request.
pub record IsActiveGrant (db : Database) (c : Capability) (r : Request) (g : CapabilityGrant)
    : Type 0 where
  pub stored : In g db.capability_grants
  pub subject : g.subject_principal_id ≡ r.principal_id
  pub chained : is_some (entry_of db.store.entries g.policy_event_id) ≡ true
  pub right : g.capability ≡ c
  pub prior : g.expected_prior_state ≡ r.actual_prior_state
  pub requested : g.requested_state ≡ r.requested_state
  pub covers : Covers c r.scope g
  pub unrevoked : IsUnrevoked db g

require_coherent_scope-same :
    (c d : AuthorizationDecision) → require_coherent_scope c ≡ ok d → d ≡ c
unfolding require_coherent_scope
require_coherent_scope-same c d h = ground arith

make_decision-same :
    (status : AuthorizationStatus) (c : String) (reason : AuthorizationReason) (r : Request)
    (m : Option String) (d : AuthorizationDecision)
    → make_decision status c reason r m ≡ ok d
    → d ≡ decision_of status c reason r m
unfolding make_decision
make_decision-same status c reason r m d h =
    require_coherent_scope-same (decision_of status c reason r m) d h

pub denied-not-allowed :
    (c : String) (reason : AuthorizationReason) (r : Request) (d : AuthorizationDecision)
    → denied_decision c reason r ≡ ok d
    → is_allowed d ≡ false
unfolding denied_decision
denied-not-allowed c reason r d h = ground (arith, make_decision-same denied c reason r none d)

-- What the allowing stage has found.
abbrev Found : (GrantRow → Type 0) → AuthorizationDecision → Type 0
Found P d = (row : GrantRow) × P row × (d.matching_grant_id ≡ some row.grant.grant_id)

decide_active-Found :
    (c : Capability) (r : Request) (rows : List GrantRow) (d : AuthorizationDecision)
    → decide_active c r rows ≡ ok d
    → is_allowed d ≡ true
    → Found (λ row. In row rows × (is_active row ≡ true)) d
unfolding decide_active
decide_active-Found c r rows d h a = elim (List-cases (select is_active rows)) [
  | inl e ↦ absurd (ground (arith, e, denied-not-allowed (capability_value c) grant_revoked r d))
  | inr (row, rest, e) ↦ (
    row,
    In-select is_active rows (rw e (inl refl)),
    ground (
      arith,
      e,
      make_decision-same allowed (capability_value c) active_grant r (some row.grant.grant_id) d,
    ),
  )
]

-- The rows left by the scope stages.
abbrev pub scope_rows : Request → List GrantRow → List GrantRow
scope_rows r rows = select (has_destination r.scope.destination_id) (
    select (has_channel r.scope.channel_id)
      (select (has_brand r.scope.brand_id) (select is_scoped rows)))

decide_scoped-active :
    (c : Capability) (r : Request) (rows : List GrantRow) (d : AuthorizationDecision)
    → decide_scoped c r rows ≡ ok d
    → is_allowed d ≡ true
    → decide_active c r (scope_rows r rows) ≡ ok d
unfolding decide_scoped
decide_scoped-active c r rows d h a = ground (
  arith,
  denied-not-allowed (capability_value c) legacy_unscoped_grant r d,
  denied-not-allowed (capability_value c) brand_scope_mismatch r d,
  denied-not-allowed (capability_value c) channel_scope_mismatch r d,
  denied-not-allowed (capability_value c) destination_scope_mismatch r d,
)

In-scope_rows :
    (r : Request) (rows : List GrantRow) (row : GrantRow)
    → In row (scope_rows r rows)
    → In row rows × (row.grant.scope_version ≡ some scope_version_1) × (row.grant.scope ≡ r.scope)
In-scope_rows r rows row m =
    let (m₁, d) = In-select (has_destination r.scope.destination_id) _ m in
    let (m₂, c) = In-select (has_channel r.scope.channel_id) _ m₁ in
    let (m₃, b) = In-select (has_brand r.scope.brand_id) _ m₂ in
    let (m₄, v) = In-select is_scoped rows m₃ in
    let e = opt_eq→eq row.grant.scope.brand_id r.scope.brand_id b in
    let f = opt_eq→eq row.grant.scope.channel_id r.scope.channel_id c in
    let g = opt_eq→eq row.grant.scope.destination_id r.scope.destination_id d in
    (m₄, opt_eq→eq _ _ v, ground arith)

-- The rows left by the capability and state stages.
abbrev pub state_rows : Database → Capability → Request → List GrantRow
state_rows db c r =
    select (has_states r.actual_prior_state r.requested_state)
      (select (has_capability c) (grant_rows db r.principal_id))

decide_rows-active :
    (db : Database) (c : Capability) (r : Request) (d : AuthorizationDecision)
    → decide_rows db c r ≡ ok d
    → is_allowed d ≡ true
    → (is_some db.capability_policy_state ≡ true)
      × ((if is_packet_scoped c
            then decide_scoped c r (state_rows db c r)
            else decide_active c r (state_rows db c r))
          ≡ ok d)
unfolding decide_rows
decide_rows-active db c r d h a = ground (
  arith,
  denied-not-allowed (capability_value c) policy_not_bootstrapped r d,
  denied-not-allowed (capability_value c) no_active_grant r d,
  denied-not-allowed (capability_value c) capability_mismatch r d,
  denied-not-allowed (capability_value c) state_scope_mismatch r d,
)

-- A row for the principal, the capability and the states.
record RowFor (db : Database) (c : Capability) (r : Request) (row : GrantRow) : Type 0 where
  stored : In row.grant db.capability_grants
  joined : Joined r.principal_id db.store.entries db.capability_revocations row
  right : row.grant.capability ≡ c
  prior : row.grant.expected_prior_state ≡ r.actual_prior_state
  requested : row.grant.requested_state ≡ r.requested_state

state_rows-RowFor :
    (db : Database) (c : Capability) (r : Request) (row : GrantRow)
    → In row (state_rows db c r)
    → RowFor db c r row
unfolding grant_rows
state_rows-RowFor db c r row m =
    let (m₁, s) = In-select (has_states r.actual_prior_state r.requested_state) _ m in
    let (m₂, k) = In-select (has_capability c) _ m₁ in
    let (g, j) = In-join_rows _ _ _ _ row (In-order_rows row _ m₂) in
    record {
      stored = g;
      joined = j;
      right = capability_eq→eq _ _ k;
      prior = opt_state_eq→eq _ _ (&&→left _ _ s);
      requested = opt_state_eq→eq _ _ (&&→right _ _ s);
    }

-- The allowing decision names an active grant.
abbrev pub Names : Database → Capability → Request → AuthorizationDecision → Type 0
Names db c r d =
    (g : CapabilityGrant) × IsActiveGrant db c r g × (d.matching_grant_id ≡ some g.grant_id)

names_row :
    (db : Database) (c : Capability) (r : Request) (d : AuthorizationDecision) (row : GrantRow)
    → RowFor db c r row
    → Covers c r.scope row.grant
    → is_active row ≡ true
    → d.matching_grant_id ≡ some row.grant.grant_id
    → Names db c r d
names_row db c r d row h cover active m =
    let (subject, chained, revoked) = h.joined in
    (
      row.grant,
      record {
        stored = h.stored;
        subject = subject;
        chained = chained;
        right = h.right;
        prior = h.prior;
        requested = h.requested;
        covers = cover;
        unrevoked = ground arith;
      },
      m,
    )

scoped-Names :
    (db : Database) (c : Capability) (r : Request) (d : AuthorizationDecision)
    → is_packet_scoped c ≡ true
    → decide_scoped c r (state_rows db c r) ≡ ok d
    → is_allowed d ≡ true
    → Names db c r d
scoped-Names db c r d p h a =
    let rows = scope_rows r (state_rows db c r) in
    let (row, (m, active), found) =
      decide_active-Found c r rows d (decide_scoped-active c r (state_rows db c r) d h a) a in
    let (m', v, s) = In-scope_rows r (state_rows db c r) row m in
    names_row db c r d row (state_rows-RowFor db c r row m') (rw (p, CoversIf) (v, s)) active found

unscoped-Names :
    (db : Database) (c : Capability) (r : Request) (d : AuthorizationDecision)
    → is_packet_scoped c ≡ false
    → decide_active c r (state_rows db c r) ≡ ok d
    → is_allowed d ≡ true
    → Names db c r d
unscoped-Names db c r d p h a =
    let (row, (m, active), found) = decide_active-Found c r (state_rows db c r) d h a in
    names_row db c r d row (state_rows-RowFor db c r row m) (rw (p, CoversIf) tt) active found

decide_rows-Names :
    (db : Database) (c : Capability) (r : Request) (d : AuthorizationDecision)
    → decide_rows db c r ≡ ok d
    → is_allowed d ≡ true
    → (is_some db.capability_policy_state ≡ true) × Names db c r d
decide_rows-Names db c r d h a =
    let (policy, e) = decide_rows-active db c r d h a in
    (
      policy,
      elim (Bool-cases (is_packet_scoped c)) [
        | inl p ↦ scoped-Names db c r d p (rw (p, if◌then◌else◌) at e) a
        | inr p ↦ unscoped-Names db c r d p (rw (p, if◌then◌else◌) at e) a
      ],
    )

-- An allowed request has an initialised policy and a stored, chained and unrevoked grant to the
-- same principal, for the same capability and states and (for a packet capability) exactly the
-- same scope, and the decision names that grant.
pub evaluate-Names :
    (db : Database) (c : RequiredCapability) (r : Request) (d : AuthorizationDecision)
    → evaluate db c r ≡ ok d
    → is_allowed d ≡ true
    → (capability : Capability) × (parse_capability c ≡ some capability)
      × (is_some db.capability_policy_state ≡ true)
      × Names db capability r d
unfolding evaluate evaluate_known
evaluate-Names db c r d h a = elim (Option-cases (parse_capability c)) [
  | inl e ↦ absurd (ground (arith, denied-not-allowed (required_text c) unknown_capability r d))
  | inr (k, e) ↦
      let (policy, names) =
        decide_rows-Names db k r d
          (ground (
            arith,
            denied-not-allowed (capability_value k) scope_required (record r { scope = no_scope })
                d,
            denied-not-allowed (capability_value k) request_scope_mismatch
                (record r { scope = no_scope }) d,
          ))
          a in
      (k, e, policy, names)
]
