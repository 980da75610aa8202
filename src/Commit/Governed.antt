-- ===== src/Commit/Governed.antt =====
-- The capability policy stays governed through every committed operation (database.py).
use governed_signal_to_conte.Authorization.Evaluate.{is_revoked}
use governed_signal_to_conte.Base.{
  >>=-eq-ok, Bool, Bool-cases, Result, String, [], any, any→in, ap, arith, eq_iff, false,
  if◌then◌else◌, inl, inr, integrity_error, in→any, is_some, ok, ok_injective, or_raise, refl,
  subst, sym, true, ◌++◌, ◌∙◌, ◌∷◌, ◌≡◌, ◌⊎◌,
}
use governed_signal_to_conte.Chain.Material.{Material}
use governed_signal_to_conte.Commit.Admin.{IsGoverned, SamePolicy-IsGoverned, commit-Committed}
use governed_signal_to_conte.Commit.Authority.{Adjudication}
use governed_signal_to_conte.Commit.Envelope.{
  check_policy_operation, require_canonical_policy_semantics,
}
use governed_signal_to_conte.Commit.Extends.{SamePolicy}
use governed_signal_to_conte.Commit.Grants.{
  any-snoc, distinct_ids-snoc, insert_capability_grant-frame, insert_capability_revocation-frame,
  is_revoked-snoc,
}
use governed_signal_to_conte.Commit.Insert.{insert_capability_grant, insert_capability_revocation}
use governed_signal_to_conte.Commit.Policy.{
  PolicyRequest, commit_capability_policy_operation, granted, insert_policy_state, is_admin,
  is_other_admin, later_refusal, policy_decision, revoked, write_policy,
}
use governed_signal_to_conte.Commit.Refusals.{
  bootstrap_refusal-empty, first_decision-bootstrap, policy_decision-accepted, revoke-other_admin,
}
use governed_signal_to_conte.Database.{Database}
use governed_signal_to_conte.Models.{
  AuthorizationDecision, CapabilityPolicyOperation, bootstrap, capability_eq_refl, capability_eq→eq,
  grant, is_allowed, policy_manage_capabilities, revoke,
}
use governed_signal_to_conte.Receipts.{TransitionEvent}
use governed_signal_to_conte.Tables.{AuthenticatedOperation, CapabilityGrant, CapabilityRevocation}

-- An accepted grant keeps the policy governed.
granted-IsGoverned :
    (g : CapabilityGrant) (db db' : Database)
    → IsGoverned db
    → insert_capability_grant g db ≡ ok db'
    → IsGoverned db'
granted-IsGoverned g db db' w h =
    let (fresh, e) = insert_capability_grant-frame g db db' h in
    subst IsGoverned (sym e) (record {
      ids_distinct = distinct_ids-snoc db.capability_grants g w.ids_distinct fresh;
      administered = elim (Bool-cases (is_some db.capability_policy_state)) [
        | inl s ↦
            rw s (any-snoc (is_admin db) db.capability_grants g (ground (arith, w.administered, s)))
        | inr s ↦ rw s refl
      ];
    })

abbrev with_revocation : CapabilityRevocation → Database → Database
with_revocation v db = record db { capability_revocations = db.capability_revocations ++ v ∷ [] }

other-stays_admin :
    (v : CapabilityRevocation) (db : Database) (g : CapabilityGrant)
    → is_other_admin db v.grant_id g ≡ true
    → is_admin (with_revocation v db) g ≡ true
other-stays_admin v db g h = ground (
  arith,
  is_revoked-snoc db.capability_revocations v g.grant_id,
  eq_iff v.grant_id g.grant_id,
  eq_iff g.grant_id v.grant_id,
)

revoked-IsGoverned :
    (v : CapabilityRevocation) (db db' : Database)
    → IsGoverned db
    → (is_some db.capability_policy_state ≡ true
        → any (is_other_admin db v.grant_id) db.capability_grants ≡ true)
    → insert_capability_revocation v db ≡ ok db'
    → IsGoverned db'
revoked-IsGoverned v db db' w other h =
    let e = insert_capability_revocation-frame v db db' h in
    subst IsGoverned (sym e) (record {
      ids_distinct = w.ids_distinct;
      administered = elim (Bool-cases (is_some db.capability_policy_state)) [
        | inl s ↦
            let (g, m, p) = any→in (is_other_admin db v.grant_id) db.capability_grants (other s) in
            rw s (
              in→any (is_admin (with_revocation v db)) db.capability_grants m
                (other-stays_admin v db g p))
        | inr s ↦ rw s refl
      ];
    })

insert_policy_state-frame :
    (q : PolicyRequest) (o : AuthenticatedOperation) (e : TransitionEvent) (db db' : Database)
    → insert_policy_state q o e db ≡ ok db'
    → (db'.capability_grants ≡ db.capability_grants)
      × (db'.capability_revocations ≡ db.capability_revocations)
unfolding insert_policy_state
insert_policy_state-frame q o e db db' h = ground arith

pub operation-cases :
    (x : CapabilityPolicyOperation) → (x ≡ bootstrap) ⊎ ((x ≡ grant) ⊎ (x ≡ revoke))
operation-cases bootstrap = inl refl
operation-cases grant = inr (inl refl)
operation-cases revoke = inr (inr refl)

-- A bootstrap with the management capability governs the policy from the start.
bootstrapped-IsGoverned :
    (q : PolicyRequest) (o : AuthenticatedOperation) (e : TransitionEvent) (db db₁ db' : Database)
    → db.capability_grants ≡ []
    → db.capability_revocations ≡ []
    → q.capability ≡ policy_manage_capabilities
    → insert_capability_grant (granted q o e) db ≡ ok db₁
    → insert_policy_state q o e db₁ ≡ ok db'
    → IsGoverned db'
unfolding is_revoked
bootstrapped-IsGoverned q o e db db₁ db' gs vs c h k =
    let (fresh, f) = insert_capability_grant-frame (granted q o e) db db₁ h in
    let (g₁, v₁) = insert_policy_state-frame q o e db₁ db' k in
    let g₂ : db'.capability_grants ≡ granted q o e ∷ [] =
      g₁ ∙ ap (λ x. x.capability_grants) f ∙ ap (λ gs. gs ++ granted q o e ∷ []) gs in
    let v₂ : db'.capability_revocations ≡ [] = v₁ ∙ ap (λ x. x.capability_revocations) f ∙ vs in
    record {
      ids_distinct = rw g₂ refl;
      administered = ground (arith, g₂, v₂, c, capability_eq_refl policy_manage_capabilities);
    }

bootstrap_capability :
    (p : String) (q : PolicyRequest)
    → q.operation ≡ bootstrap
    → require_canonical_policy_semantics p q ≡ ok tt
    → q.capability ≡ policy_manage_capabilities
unfolding require_canonical_policy_semantics check_policy_operation
bootstrap_capability p q b h =
    ground (arith, b, capability_eq→eq q.capability policy_manage_capabilities)

-- What an accepted operation writes keeps the policy governed.
write_policy-IsGoverned :
    (q : PolicyRequest) (o : AuthenticatedOperation) (e : TransitionEvent)
    (db recorded db' : Database) (d : AuthorizationDecision)
    → IsGoverned db
    → require_canonical_policy_semantics o.principal_id q ≡ ok tt
    → SamePolicy db recorded
    → policy_decision db o.principal_id q ≡ ok d
    → is_allowed d ≡ true
    → write_policy q o e recorded ≡ ok db'
    → IsGoverned db'
unfolding write_policy later_refusal
write_policy-IsGoverned q o e db recorded db' d w v s h a k =
    let (first, later) = policy_decision-accepted db o.principal_id q d h a in
    let w' = SamePolicy-IsGoverned db recorded s w in
    elim (operation-cases q.operation) [
      | inl b ↦
          let (db₁, h₁, h₂) =
            >>=-eq-ok (insert_capability_grant (granted q o e) recorded) _ (rw b at k) in
          let (gs, vs) =
            bootstrap_refusal-empty db o.principal_id
              (first_decision-bootstrap db o.principal_id d (rw b at first) a) in
          bootstrapped-IsGoverned q o e recorded db₁ db' (s.grants ∙ gs) (s.revocations ∙ vs)
            (bootstrap_capability o.principal_id q b v) h₁ h₂
      | inr (inl g) ↦ granted-IsGoverned (granted q o e) recorded db' w' (ground (arith, g, k))
      | inr (inr r) ↦
          let (revocation_id, _, h₁) =
            >>=-eq-ok (or_raise q.revocation_id (integrity_error "NOT NULL constraint failed")) _
              (rw r at k) in
          revoked-IsGoverned (revoked revocation_id q o e) recorded db' w'
            (λ p.
              rw (s.grants, s.revocations)
                (revoke-other_admin db q w (rw s.policy at p) (ground (arith, later, r))))
            h₁
    ]

-- A committed capability-policy operation (bootstrap, grant or revoke, accepted or refused) whose
-- request passes the envelope's validator keeps the policy governed: grant ids stay distinct, and
-- a bootstrapped policy still has an unrevoked grant of the management capability.
pub commit_capability_policy_operation-IsGoverned :
    (H : Material → String) (q : PolicyRequest) (o : AuthenticatedOperation)
    (f : AuthorizationDecision → Bool → String → Result TransitionEvent) (db db' : Database)
    (a : Adjudication)
    → IsGoverned db
    → require_canonical_policy_semantics o.principal_id q ≡ ok tt
    → commit_capability_policy_operation H q o f db ≡ ok (a, db')
    → IsGoverned db'
commit_capability_policy_operation-IsGoverned H q o f db db' a w v h =
    let c = commit-Committed H q o f db db' a h in
    elim (Bool-cases (is_allowed a.decision)) [
      | inl y ↦
          write_policy-IsGoverned q o a.event db c.recorded db' a.decision w v c.kept.policy
            c.decided y (rw (y, if◌then◌else◌) at c.written)
      | inr n ↦
          subst IsGoverned (ok_injective _ _ (rw (n, if◌then◌else◌) at c.written))
            (SamePolicy-IsGoverned db c.recorded c.kept.policy w)
    ]

-- An operation that is committed but refused leaves grants, revocations and the policy row as they
-- are.
pub refused-SamePolicy :
    (H : Material → String) (q : PolicyRequest) (o : AuthenticatedOperation)
    (f : AuthorizationDecision → Bool → String → Result TransitionEvent) (db db' : Database)
    (a : Adjudication)
    → commit_capability_policy_operation H q o f db ≡ ok (a, db')
    → is_allowed a.decision ≡ false
    → SamePolicy db db'
refused-SamePolicy H q o f db db' a h n =
    let c = commit-Committed H q o f db db' a h in
    subst (SamePolicy db) (ok_injective _ _ (rw (n, if◌then◌else◌) at c.written)) c.kept.policy
