-- ===== src/Commit/Refusals.antt =====
-- What an accepted capability-policy operation has passed (database.py).
use governed_signal_to_conte.Authorization.Active.{denied-not-allowed}
use governed_signal_to_conte.Base.{
  >>=-eq-ok, Bool-cases, In, List-cases, Option-cases, String, [], any, any→in, ap, arith, eq_iff,
  false, find_first→in, inl, inr, in→any, is_some, none, not, ok, some, sym, true, ◌||◌, ◌∙◌, ◌≡◌,
}
use governed_signal_to_conte.Commit.Admin.{IsGoverned}
use governed_signal_to_conte.Commit.Grants.{distinct_ids, distinct_ids_unique, has_id}
use governed_signal_to_conte.Commit.Policy.{
  PolicyRequest, binds_grant, bootstrap_refusal, find_grant, first_decision, is_admin,
  is_other_admin, later_refusal, management_request, policy_decision, refuse, revoke_refusal,
  target_refusal,
}
use governed_signal_to_conte.Database.{Database}
use governed_signal_to_conte.Models.{
  AuthorizationDecision, AuthorizationReason, bootstrap, capability_eq, capability_eq→eq,
  capability_value, is_allowed, policy_manage_capabilities,
}
use governed_signal_to_conte.Tables.{CapabilityGrant}

refuse-denied :
    (p : String) (reason : AuthorizationReason) (d : AuthorizationDecision)
    → refuse p reason ≡ ok d
    → is_allowed d ≡ false
unfolding refuse
refuse-denied p reason d h =
    denied-not-allowed (capability_value policy_manage_capabilities) reason (management_request p) d
      h

pub policy_decision-accepted :
    (db : Database) (p : String) (q : PolicyRequest) (d : AuthorizationDecision)
    → policy_decision db p q ≡ ok d
    → is_allowed d ≡ true
    → (first_decision db p q.operation ≡ ok d) × (later_refusal db q ≡ none)
unfolding policy_decision
policy_decision-accepted db p q d h a =
    let (first, e, k) = >>=-eq-ok (first_decision db p q.operation) _ h in
    elim (Bool-cases (is_allowed first)) [
      | inl b ↦ elim (Option-cases (later_refusal db q)) [
        | inl r ↦ ground (arith, e, k, b, r)
        | inr (reason, r) ↦ absurd (ground (arith, e, k, b, r, refuse-denied p reason d))
      ]
      | inr b ↦ absurd (ground (arith, e, k, b))
    ]

pub first_decision-bootstrap :
    (db : Database) (p : String) (d : AuthorizationDecision)
    → first_decision db p bootstrap ≡ ok d
    → is_allowed d ≡ true
    → bootstrap_refusal db p ≡ none
unfolding first_decision
first_decision-bootstrap db p d h a = elim (Option-cases (bootstrap_refusal db p)) [
  | inl r ↦ r
  | inr (reason, r) ↦ absurd (ground (arith, refuse-denied p reason d, r))
]

pub bootstrap_refusal-empty :
    (db : Database) (p : String)
    → bootstrap_refusal db p ≡ none
    → (db.capability_grants ≡ []) × (db.capability_revocations ≡ [])
unfolding bootstrap_refusal
bootstrap_refusal-empty db p h = elim (List-cases db.capability_grants) [
  | inl e ↦ elim (List-cases db.capability_revocations) [
    | inl f ↦ (e, f)
    | inr (y, ys, f) ↦ absurd (ground (arith, e, f))
  ]
  | inr (x, xs, e) ↦ absurd (ground (arith, e))
]

-- The target of an accepted revocation.
revoke_refusal-target :
    (db : Database) (q : PolicyRequest)
    → revoke_refusal db q ≡ none
    → (g : CapabilityGrant) × (find_grant db q.grant_id ≡ some g) × (target_refusal db q g ≡ none)
unfolding revoke_refusal
revoke_refusal-target db q h = elim (Option-cases (find_grant db q.grant_id)) [
  | inl e ↦ absurd (ground (arith, e))
  | inr (g, e) ↦ (g, e, ground (arith, e))
]

target_refusal-none :
    (db : Database) (q : PolicyRequest) (g : CapabilityGrant)
    → target_refusal db q g ≡ none
    → (g.capability ≡ q.capability)
      × ((not (capability_eq q.capability policy_manage_capabilities)
            || any (is_other_admin db q.grant_id) db.capability_grants)
          ≡ true)
unfolding target_refusal binds_grant
target_refusal-none db q g h = ground (arith, capability_eq→eq g.capability q.capability)

other_than_target :
    (db : Database) (q : PolicyRequest) (g t : CapabilityGrant)
    → distinct_ids db.capability_grants ≡ true
    → In g db.capability_grants
    → In t db.capability_grants
    → has_id q.grant_id t ≡ true
    → t.capability ≡ q.capability
    → capability_eq q.capability policy_manage_capabilities ≡ false
    → is_admin db g ≡ true
    → is_other_admin db q.grant_id g ≡ true
other_than_target db q g t distinct m n e same not_admin admin =
    elim (Bool-cases (has_id q.grant_id g)) [
      | inl b ↦
          let p : t.grant_id ≡ g.grant_id =
            (eq_iff t.grant_id q.grant_id).0 e ∙ sym ((eq_iff g.grant_id q.grant_id).0 b) in
          let t≡g = distinct_ids_unique db.capability_grants g t distinct m n p in
          absurd (ground (arith, ap (λ x. x.capability) t≡g, same))
      | inr b ↦ ground arith
    ]

-- Some unrevoked management grant is not the one to be revoked.
pub revoke-other_admin :
    (db : Database) (q : PolicyRequest)
    → IsGoverned db
    → is_some db.capability_policy_state ≡ true
    → revoke_refusal db q ≡ none
    → any (is_other_admin db q.grant_id) db.capability_grants ≡ true
revoke-other_admin db q w s h =
    let (t, found, r) = revoke_refusal-target db q h in
    let (same, other) = target_refusal-none db q t r in
    let (stored, is_named) = find_first→in (has_id q.grant_id) db.capability_grants found in
    elim (Bool-cases (capability_eq q.capability policy_manage_capabilities)) [
      | inl e ↦ ground (arith, other, e)
      | inr e ↦
          let (g, m, admin) =
            any→in (is_admin db) db.capability_grants (ground (arith, w.administered, s)) in
          in→any (is_other_admin db q.grant_id) db.capability_grants m
            (other_than_target db q g t w.ids_distinct m stored is_named same e admin)
    ]
