-- ===== src/Authorization/Complete.antt =====
-- The evaluator (authorization.py) finds every active grant: the converse of Active.
use governed_signal_to_conte.Authorization.Active.{
  CoversIf, IsActiveGrant, evaluate-Names, scope_rows, state_rows,
}
use governed_signal_to_conte.Authorization.Decision.{Request, decision_of, make_decision}
use governed_signal_to_conte.Authorization.Evaluate.{
  GrantRow, RequiredCapability, decide_active, decide_rows, decide_scoped, evaluate, evaluate_known,
  grant_rows, has_brand, has_capability, has_channel, has_destination, has_states, is_active,
  is_revoked, is_scoped, parse_capability,
}
use governed_signal_to_conte.Authorization.Rows.{join_row-some, join_rows-In, order_rows-In}
use governed_signal_to_conte.Base.{
  Bool, In, List, List-cases, Option-cases, String, arith, false, if◌then◌else◌, inl, inr, is_empty,
  is_empty_of_In, is_some, ok, opt_eq_refl, refl, select, select-In, some, subst, true, ◌↔◌, ◌≡◌,
}
use governed_signal_to_conte.Chain.Material.{ChainEntry}
use governed_signal_to_conte.Chain.Rows.{entry_of}
use governed_signal_to_conte.Database.{Database}
use governed_signal_to_conte.Models.{
  AuthorizationDecision, Capability, ScopeIds, active_grant, all_given, allowed, capability_eq_refl,
  capability_value, effect_manage_bindings, is_allowed, is_packet_scoped, no_scope, packet_approve,
  packet_reject, packet_release, policy_manage_capabilities, require_coherent_scope, scope_of,
  scope_version_1,
}
use governed_signal_to_conte.Tables.{CapabilityGrant}
use governed_signal_to_conte.Workflow.{opt_state_eq_refl}

-- The scope of a request fits the capability: complete and well formed for a packet capability,
-- absent for another.
abbrev pub FitsIf : Bool → ScopeIds → Type 0
FitsIf true s = (all_given s ≡ true) × (scope_of s.brand_id s.channel_id s.destination_id ≡ ok tt)
FitsIf false s = s ≡ no_scope

abbrev pub Fits : Capability → ScopeIds → Type 0
Fits c = FitsIf (is_packet_scoped c)

-- The evaluator allows the request.
abbrev pub Allows : Database → RequiredCapability → Request → Type 0
Allows db c r = (d : AuthorizationDecision) × (evaluate db c r ≡ ok d) × (is_allowed d ≡ true)

make_decision_ok :
    (c : Capability) (s : String) (r : Request) (m : String)
    → Fits c r.scope
    → make_decision allowed s active_grant r (some m)
      ≡ ok (decision_of allowed s active_grant r (some m))
unfolding make_decision require_coherent_scope
make_decision_ok packet_approve s r m f = ground arith
make_decision_ok packet_reject s r m f = ground arith
make_decision_ok packet_release s r m f = ground arith
make_decision_ok policy_manage_capabilities s r m f = ground arith
make_decision_ok effect_manage_bindings s r m f = ground arith

-- The row that the join makes of a grant.
abbrev row_of : Database → CapabilityGrant → ChainEntry → GrantRow
row_of db g e = record {
  grant = g;
  event_sequence = e.event_sequence;
  revoked = is_revoked db.capability_revocations g.grant_id;
}

grant_rows-In :
    (db : Database) (p : String) (g : CapabilityGrant) (e : ChainEntry)
    → In g db.capability_grants
    → g.subject_principal_id ≡ p
    → entry_of db.store.entries g.policy_event_id ≡ some e
    → In (row_of db g e) (grant_rows db p)
unfolding grant_rows
grant_rows-In db p g e m s h =
    order_rows-In _ _ (join_rows-In p _ _ _ g _ m (join_row-some p _ _ g e s h))

state_rows-In :
    (db : Database) (c : Capability) (r : Request) (g : CapabilityGrant) (e : ChainEntry)
    → IsActiveGrant db c r g
    → entry_of db.store.entries g.policy_event_id ≡ some e
    → (In (row_of db g e) (select (has_capability c) (grant_rows db r.principal_id)))
      × In (row_of db g e) (state_rows db c r)
state_rows-In db c r g e a h =
    let m = grant_rows-In db r.principal_id g e a.stored a.subject h in
    let k : In (row_of db g e) (select (has_capability c) (grant_rows db r.principal_id)) =
      select-In (has_capability c) (grant_rows db r.principal_id) m
        (rw (a.right) (capability_eq_refl c)) in
    (
      k,
      select-In (has_states r.actual_prior_state r.requested_state) _ k (
          rw (a.prior, a.requested)
            (rw (opt_state_eq_refl r.actual_prior_state) (opt_state_eq_refl r.requested_state))),
    )

decide_active-allows :
    (c : Capability) (r : Request) (rows : List GrantRow) (row : GrantRow)
    → Fits c r.scope
    → In row rows
    → is_active row ≡ true
    → (d : AuthorizationDecision) × (decide_active c r rows ≡ ok d) × (is_allowed d ≡ true)
unfolding decide_active
decide_active-allows c r rows row f m active = elim (List-cases (select is_active rows)) [
  | inl e ↦ absurd (rw e at (select-In is_active rows m active))
  | inr (x, rest, e) ↦ (
    decision_of allowed (capability_value c) active_grant r (some x.grant.grant_id),
    rw (e, decide_active) (make_decision_ok c (capability_value c) r x.grant.grant_id f),
    refl,
  )
]

scope_rows-In :
    (c : Capability) (r : Request) (rows : List GrantRow) (row : GrantRow)
    → In row rows
    → row.grant.scope_version ≡ some scope_version_1
    → row.grant.scope ≡ r.scope
    → (is_empty (select is_scoped rows) ≡ false)
      × (is_empty (select (has_brand r.scope.brand_id) (select is_scoped rows)) ≡ false)
      × (is_empty (
            select
              (has_channel r.scope.channel_id)
              (select (has_brand r.scope.brand_id) (select is_scoped rows)))
          ≡ false)
      × In row (scope_rows r rows)
scope_rows-In c r rows row m v s =
    let a : In row (select is_scoped rows) =
      select-In is_scoped rows m (rw v (opt_eq_refl (some scope_version_1))) in
    let b : In row (select (has_brand r.scope.brand_id) (select is_scoped rows)) =
      select-In (has_brand r.scope.brand_id) _ a (rw s (opt_eq_refl r.scope.brand_id)) in
    let d : In row (
        select (has_channel r.scope.channel_id)
          (select (has_brand r.scope.brand_id) (select is_scoped rows))) =
      select-In (has_channel r.scope.channel_id) _ b (rw s (opt_eq_refl r.scope.channel_id)) in
    (
      is_empty_of_In row _ a,
      is_empty_of_In row _ b,
      is_empty_of_In row _ d,
      select-In (has_destination r.scope.destination_id) _ d
          (rw s (opt_eq_refl r.scope.destination_id)),
    )

decide_scoped-allows :
    (c : Capability) (r : Request) (rows : List GrantRow) (row : GrantRow)
    → Fits c r.scope
    → In row rows
    → row.grant.scope_version ≡ some scope_version_1
    → row.grant.scope ≡ r.scope
    → is_active row ≡ true
    → (d : AuthorizationDecision) × (decide_scoped c r rows ≡ ok d) × (is_allowed d ≡ true)
unfolding decide_scoped
decide_scoped-allows c r rows row f m v s active =
    let (e₁, e₂, e₃, k) = scope_rows-In c r rows row m v s in
    let (d, h, a) = decide_active-allows c r (scope_rows r rows) row f k active in
    (d, ground (arith, e₁, e₂, e₃, is_empty_of_In row (scope_rows r rows) k), a)

staged :
    (db : Database) (c : Capability) (r : Request) (g : CapabilityGrant) (e : ChainEntry)
    → Fits c r.scope
    → IsActiveGrant db c r g
    → entry_of db.store.entries g.policy_event_id ≡ some e
    → (b : Bool) → is_packet_scoped c ≡ b
    → (d : AuthorizationDecision) × ((if b
          then decide_scoped c r (state_rows db c r)
          else decide_active c r (state_rows db c r))
        ≡ ok d)
      × (is_allowed d ≡ true)
staged db c r g e f a h true p =
    let (v, s) = rw (p, CoversIf) at a.covers in
    decide_scoped-allows c r (state_rows db c r) (row_of db g e) f (state_rows-In db c r g e a h).1
      v s (rw a.unrevoked refl)
staged db c r g e f a h false p =
    decide_active-allows c r (state_rows db c r) (row_of db g e) f (state_rows-In db c r g e a h).1
      (rw a.unrevoked refl)

decide_rows-allows :
    (db : Database) (c : Capability) (r : Request) (g : CapabilityGrant)
    → Fits c r.scope
    → is_some db.capability_policy_state ≡ true
    → IsActiveGrant db c r g
    → (d : AuthorizationDecision) × (decide_rows db c r ≡ ok d) × (is_allowed d ≡ true)
unfolding decide_rows
decide_rows-allows db c r g f policy a =
    elim (Option-cases (entry_of db.store.entries g.policy_event_id)) [
      | inl e ↦ absurd (ground (arith, a.chained))
      | inr (e, h) ↦
          let (k, m) = state_rows-In db c r g e a h in
          let (d, q, al) = staged db c r g e f a h (is_packet_scoped c) refl in
          (
            d,
            ground (
              arith,
              q,
              is_empty_of_In (row_of db g e) (grant_rows db r.principal_id)
                  (grant_rows-In db r.principal_id g e a.stored a.subject h),
              is_empty_of_In (row_of db g e)
                  (select (has_capability c) (grant_rows db r.principal_id)) k,
              is_empty_of_In (row_of db g e) (state_rows db c r) m,
            ),
            al,
          )
    ]

evaluate_known-rows :
    (db : Database) (c : Capability) (r : Request)
    → Fits c r.scope
    → evaluate_known db c r ≡ decide_rows db c r
unfolding evaluate_known
evaluate_known-rows db packet_approve r f = ground arith
evaluate_known-rows db packet_reject r f = ground arith
evaluate_known-rows db packet_release r f = ground arith
evaluate_known-rows db policy_manage_capabilities r f = ground arith
evaluate_known-rows db effect_manage_bindings r f = ground arith

-- For a known capability and a scope that fits it, a request is allowed exactly when the policy is
-- initialised and an active grant exists for the principal, the capability, the states and the
-- scope.
pub evaluate_iff :
    (db : Database) (c : RequiredCapability) (capability : Capability) (r : Request)
    → parse_capability c ≡ some capability
    → Fits capability r.scope
    → Allows db c r ↔ (
        (is_some db.capability_policy_state ≡ true)
        × ((g : CapabilityGrant) × IsActiveGrant db capability r g))
unfolding evaluate
evaluate_iff db c capability r parsed f = (
  λ (d, h, a).
      let (k, e, policy, (g, active, _)) = evaluate-Names db c r d h a in
      let same : k ≡ capability = cc (e, parsed) in
      (policy, (g, subst (λ x. IsActiveGrant db x r g) same active)),
  λ (policy, (g, active)).
      let (d, h, a) = decide_rows-allows db capability r g f policy active in
      (d, rw (parsed, evaluate) (rw (evaluate_known-rows db capability r f) h), a),
)
