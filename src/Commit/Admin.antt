-- ===== src/Commit/Admin.antt =====
-- The capability policy stays governed (database.py): grant ids stay distinct, and once the policy
-- is bootstrapped some unrevoked grant of the management capability is always left.
use governed_signal_to_conte.Base.{
  >>=-eq-ok, Bool, Result, String, any, if◌then◌else◌, is_some, not, ok, ok_injective, subst, true,
  ◌||◌, ◌≡◌,
}
use governed_signal_to_conte.Chain.Material.{Material}
use governed_signal_to_conte.Commit.Authority.{Adjudication, denial_text}
use governed_signal_to_conte.Commit.Extends.{
  Kept, Kept-trans, SamePolicy, append_event-Kept, insert_authenticated_operation-Kept,
}
use governed_signal_to_conte.Commit.Grants.{distinct_ids}
use governed_signal_to_conte.Commit.Insert.{
  append_event, insert_authenticated_operation, validate_authorization_event,
}
use governed_signal_to_conte.Commit.Policy.{
  PolicyRequest, commit_capability_policy_operation, is_admin, policy_decision, write_policy,
}
use governed_signal_to_conte.Database.{Database}
use governed_signal_to_conte.Models.{AuthorizationDecision, is_allowed}
use governed_signal_to_conte.Receipts.{TransitionEvent}
use governed_signal_to_conte.Tables.{AuthenticatedOperation, Outcome}

pub record IsGoverned (db : Database) : Type 0 where
  pub ids_distinct : distinct_ids db.capability_grants ≡ true
  pub administered :
      (not (is_some db.capability_policy_state) || any (is_admin db) db.capability_grants) ≡ true

pub SamePolicy-IsGoverned : (db db' : Database) → SamePolicy db db' → IsGoverned db → IsGoverned db'
SamePolicy-IsGoverned db db' s h = record {
  ids_distinct = rw (s.grants) (h.ids_distinct);
  administered = rw (s.grants, s.revocations, s.policy) (h.administered);
}

-- What a committed operation has done: recorded the operation, and written its rows if allowed.
pub record Committed (H : Material → String) (q : PolicyRequest) (o : AuthenticatedOperation)
    (db db' : Database) (a : Adjudication) : Type 0 where
  pub recorded : Database
  pub kept : Kept H db recorded
  pub decided : policy_decision db o.principal_id q ≡ ok a.decision
  pub written :
      (if is_allowed a.decision then write_policy q o a.event recorded else ok recorded) ≡ ok db'

abbrev answer : AuthorizationDecision → TransitionEvent → Database → Adjudication × Database
answer d e db = (record { event = e; decision = d; accepted = is_allowed d }, db)

answer-Committed :
    (H : Material → String) (q : PolicyRequest) (o : AuthenticatedOperation)
    (db db' db₂ db₃ : Database) (d : AuthorizationDecision) (e : TransitionEvent) (a : Adjudication)
    → policy_decision db o.principal_id q ≡ ok d
    → Kept H db db₂
    → (if is_allowed d then write_policy q o e db₂ else ok db₂) ≡ ok db₃
    → ok (answer d e db₃) ≡ ok (a, db')
    → Committed H q o db db' a
answer-Committed H q o db db' db₂ db₃ d e a h₁ s h₂ h =
    let p : answer d e db₃ ≡ (a, db') = ok_injective (answer d e db₃) (a, db') h in
    subst (λ x. Committed H q o db x.1 x.0) p
      (record { recorded = db₂; kept = s; decided = h₁; written = h₂ })

module _ (H : Material → String) where
  recorded-Kept :
      (e : TransitionEvent) (o : AuthenticatedOperation) (outcome : Outcome) (db db₁ db₂ : Database)
      → append_event H e db ≡ ok db₁
      → insert_authenticated_operation o e.event_id outcome db₁ ≡ ok db₂
      → Kept H db db₂
  recorded-Kept e o outcome db db₁ db₂ h₁ h₂ =
      Kept-trans H db db₁ db₂ (append_event-Kept H e db db₁ h₁)
        (insert_authenticated_operation-Kept H o e.event_id outcome db₁ db₂ h₂)

  pub commit-Committed :
      (q : PolicyRequest) (o : AuthenticatedOperation)
      (f : AuthorizationDecision → Bool → String → Result TransitionEvent) (db db' : Database)
      (a : Adjudication)
      → commit_capability_policy_operation H q o f db ≡ ok (a, db')
      → Committed H q o db db' a
  unfolding commit_capability_policy_operation
  commit-Committed q o f db db' a h =
      let (d, e₁, h₁) = >>=-eq-ok (policy_decision db o.principal_id q) _ h in
      let accepted = is_allowed d in
      let outcome : Outcome = if accepted then Outcome.accepted else Outcome.rejected in
      let (e, e₂, h₂) = >>=-eq-ok (f d accepted (if accepted then "" else denial_text d)) _ h₁ in
      let (_, e₃, h₃) = >>=-eq-ok (validate_authorization_event e d o outcome) _ h₂ in
      let (db₁, e₄, h₄) = >>=-eq-ok (append_event H e db) _ h₃ in
      let (db₂, e₅, h₅) =
        >>=-eq-ok (insert_authenticated_operation o e.event_id outcome db₁) _ h₄ in
      let (db₃, e₆, h₆) = >>=-eq-ok (if accepted then write_policy q o e db₂ else ok db₂) _ h₅ in
      answer-Committed H q o db db' db₂ db₃ d e a e₁ (recorded-Kept e o outcome db db₁ db₂ e₄ e₅) e₆
        h₆
