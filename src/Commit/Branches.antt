-- ===== src/Commit/Branches.antt =====
-- The two branches of `_commit_authority_transition` (database.py) and its adjudication.
use governed_signal_to_conte.Base.{
  >>=-eq-ok, Option, String, [], ap, arith, eq_iff, false, none, not, ok, ok_injective, raise_if,
  raise_if-false, runtime_error, some, subst, sym, true, ◌++◌, ◌==◌, ◌∷◌, ◌≡◌,
}
use governed_signal_to_conte.Chain.Material.{EventStore, Material}
use governed_signal_to_conte.Commit.Authority.{
  Adjudication, AuthorityCommit, check_release_approval, commit_acceptance, commit_denial,
}
use governed_signal_to_conte.Commit.Extends.{
  Kept, Kept-trans, append_event-Kept, insert_authenticated_operation-Kept,
}
use governed_signal_to_conte.Commit.Frame.{append_event-frame, insert_authenticated_operation-frame}
use governed_signal_to_conte.Commit.Insert.{
  append_event, consumed_row, has_operation, insert_approval, insert_authenticated_operation,
  validate_authorization_event,
}
use governed_signal_to_conte.Commit.Moves.{
  HasApproval, Moved, Stages, Stages-Kept, Stages-Moved, check_release_approval-found,
}
use governed_signal_to_conte.Commit.Progress.{move_pair, when_some}
use governed_signal_to_conte.Database.{Database}
use governed_signal_to_conte.Models.{AuthorizationDecision}
use governed_signal_to_conte.Receipts.{TransitionEvent}
use governed_signal_to_conte.Tables.{AuthenticatedOperation, Outcome, Packet}
use governed_signal_to_conte.Workflow.{WorkflowState, state_eq, state_eq→eq}

released-found :
    (p : Packet) (t : AuthorityCommit) (o : Option String) (db db' : Database)
    → when_some o (check_release_approval p t) db ≡ ok db'
    → (db ≡ db') × ((manifest : String) → o ≡ some manifest → HasApproval p t manifest db)
released-found p t none db db' h = (ground arith, λ manifest e. absurd (ground (arith, e)))
released-found p t (some m) db db' h =
    let (same, found) = check_release_approval-found p t m db db' h in
    (sym same, λ manifest e. let q : m ≡ manifest = cc in subst (λ x. HasApproval p t x db) q found)

-- What the accepting branch checked and did.
pub record Branch (H : Material → String) (t : AuthorityCommit) (p : Packet) (prior : WorkflowState)
    (d : AuthorizationDecision) (db db' : Database) (a : Adjudication) : Type 0 where
  pub at_prior : prior ≡ t.prior_state
  pub bound : p.manifest_hash ≡ t.required_packet_manifest
  pub approval :
      (manifest : String)
      → t.required_approval_manifest ≡ some manifest
      → HasApproval p t manifest db
  pub moved : Moved t db db'
  pub kept : Kept H db db'
  pub decided : a.decision ≡ d
  pub taken : a.accepted ≡ true

abbrev accepted_answer :
    TransitionEvent → AuthorizationDecision → Database → Adjudication × Database
accepted_answer e d db = (record { event = e; decision = d; accepted = true }, db)

acceptance_answer :
    (H : Material → String) (t : AuthorityCommit) (p : Packet) (prior : WorkflowState)
    (d : AuthorizationDecision) (db db₀ db₁ db₂ db₃ db₄ db' : Database) (e : TransitionEvent)
    (a : Adjudication)
    → db ≡ db₀
    → not (state_eq prior t.prior_state) ≡ false
    → not (p.manifest_hash == t.required_packet_manifest) ≡ false
    → ((manifest : String)
        → t.required_approval_manifest ≡ some manifest
        → HasApproval p t manifest db)
    → Stages H t e db₀ db₁ db₂ db₃ db₄
    → ok (accepted_answer e d db₄) ≡ ok (a, db')
    → Branch H t p prior d db db' a
acceptance_answer H t p prior d db db₀ db₁ db₂ db₃ db₄ db' e a same s m found stages h =
    let q = ok_injective (accepted_answer e d db₄) (a, db') h in
    record {
      at_prior = state_eq→eq prior t.prior_state (ground arith);
      bound = (eq_iff p.manifest_hash t.required_packet_manifest).0 (ground arith);
      approval = found;
      moved =
          subst (λ x. Moved t x db') (sym same)
            (subst (Moved t db₀) (ap (λ x. x.1) q) (Stages-Moved H t e db₀ db₁ db₂ db₃ db₄ stages));
      kept =
          subst (λ x. Kept H x db') (sym same)
            (subst (Kept H db₀) (ap (λ x. x.1) q) (Stages-Kept H t e db₀ db₁ db₂ db₃ db₄ stages));
      decided = sym (ap (λ x. x.0.decision) q);
      taken = sym (ap (λ x. x.0.accepted) q);
    }

pub commit_acceptance-Branch :
    (H : Material → String) (t : AuthorityCommit) (p : Packet) (prior : WorkflowState)
    (d : AuthorizationDecision) (db db' : Database) (a : Adjudication)
    → commit_acceptance H t p prior d db ≡ ok (a, db')
    → Branch H t p prior d db db' a
unfolding commit_acceptance
commit_acceptance-Branch H t p prior d db db' a h =
    let (u₁, e₁, h₁) =
      >>=-eq-ok
        (raise_if (not (state_eq prior t.prior_state))
          (runtime_error "Packet/candidate paired state changed before transition commit"))
        _ h in
    let (u₂, e₂, h₂) =
      >>=-eq-ok
        (raise_if (not (p.manifest_hash == t.required_packet_manifest))
          (runtime_error "Packet manifest binding changed before transition commit"))
        _ h₁ in
    let (db₀, e₃, h₃) =
      >>=-eq-ok (when_some t.required_approval_manifest (check_release_approval p t) db) _ h₂ in
    let (e, e₄, h₄) = >>=-eq-ok (t.event_factory d true "") _ h₃ in
    let (u₃, e₅, h₅) =
      >>=-eq-ok (validate_authorization_event e d t.authenticated_operation Outcome.accepted) _
        h₄ in
    let (db₁, e₆, h₆) =
      >>=-eq-ok (move_pair t.packet_id t.candidate_id t.prior_state t.resulting_state db₀) _ h₅ in
    let (db₂, e₇, h₇) = >>=-eq-ok (append_event H e db₁) _ h₆ in
    let (db₃, e₈, h₈) =
      >>=-eq-ok
        (when_some t.approval_factory
          (λ factory. insert_approval (factory e.event_id e.occurred_at_utc)) db₂)
        _ h₇ in
    let (db₄, e₉, h₉) =
      >>=-eq-ok
        (insert_authenticated_operation t.authenticated_operation e.event_id Outcome.accepted db₃) _
        h₈ in
    let (same, found) = released-found p t t.required_approval_manifest db db₀ e₃ in
    acceptance_answer H t p prior d db db₀ db₁ db₂ db₃ db₄ db' e a same ((raise_if-false _ _ u₁ e₁))
      (raise_if-false _ _ u₂ e₂) found
      (record { moves = e₆; appends = e₇; approves = e₈; consumes = e₉ }) h₉

-- The database after a refusal: the event tables, and one more consumed operation.
abbrev pub with_refusal : AuthenticatedOperation → String → EventStore → Database → Database
with_refusal o event_id store db = record db {
  store = store;
  authenticated_operations =
      db.authenticated_operations ++ consumed_row o event_id Outcome.rejected ∷ [];
}

abbrev denied_answer : TransitionEvent → AuthorizationDecision → Database → Adjudication × Database
denied_answer e d db = (record { event = e; decision = d; accepted = false }, db)

denial_answer :
    (o : AuthenticatedOperation) (e : TransitionEvent) (d : AuthorizationDecision)
    (db db₁ db₂ db' : Database) (a : Adjudication)
    → db₁ ≡ record db { store = db₁.store }
    → (has_operation db₁ o.operation_id ≡ false)
      × (db₂ ≡ record db₁ {
        authenticated_operations =
            db₁.authenticated_operations ++ consumed_row o e.event_id Outcome.rejected ∷ [];
      })
    → ok (denied_answer e d db₂) ≡ ok (a, db')
    → (a.accepted ≡ false)
      × (has_operation db o.operation_id ≡ false)
      × (db' ≡ with_refusal o a.event.event_id db'.store db)
denial_answer o e d db db₁ db₂ db' a f (fresh, g) h =
    let q = ok_injective (denied_answer e d db₂) (a, db') h in ground arith

pub commit_denial-refusal :
    (H : Material → String) (o : AuthenticatedOperation) (e : TransitionEvent)
    (d : AuthorizationDecision) (db db' : Database) (a : Adjudication)
    → commit_denial H o e d db ≡ ok (a, db')
    → (a.accepted ≡ false)
      × (has_operation db o.operation_id ≡ false)
      × (db' ≡ with_refusal o a.event.event_id db'.store db)
unfolding commit_denial
commit_denial-refusal H o e d db db' a h =
    let (_, _, h₁) = >>=-eq-ok (validate_authorization_event e d o Outcome.rejected) _ h in
    let (db₁, e₂, h₂) = >>=-eq-ok (append_event H e db) _ h₁ in
    let (db₂, e₃, h₃) =
      >>=-eq-ok (insert_authenticated_operation o e.event_id Outcome.rejected db₁) _ h₂ in
    denial_answer o e d db db₁ db₂ db' a (append_event-frame H e db db₁ e₂)
      (insert_authenticated_operation-frame o e.event_id Outcome.rejected db₁ db₂ e₃) h₃

pub commit_denial-Kept :
    (H : Material → String) (o : AuthenticatedOperation) (e : TransitionEvent)
    (d : AuthorizationDecision) (db db' : Database) (a : Adjudication)
    → commit_denial H o e d db ≡ ok (a, db')
    → Kept H db db'
unfolding commit_denial
commit_denial-Kept H o e d db db' a h =
    let (_, _, h₁) = >>=-eq-ok (validate_authorization_event e d o Outcome.rejected) _ h in
    let (db₁, e₂, h₂) = >>=-eq-ok (append_event H e db) _ h₁ in
    let (db₂, e₃, h₃) =
      >>=-eq-ok (insert_authenticated_operation o e.event_id Outcome.rejected db₁) _ h₂ in
    let q = ok_injective (denied_answer e d db₂) (a, db') h₃ in
    subst (Kept H db) (ap (λ x. x.1) q) (
      Kept-trans H db db₁ db₂ (append_event-Kept H e db db₁ e₂)
        (insert_authenticated_operation-Kept H o e.event_id Outcome.rejected db₁ db₂ e₃))
