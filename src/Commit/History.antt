-- ===== src/Commit/History.antt =====
-- The transactions of database.py on candidates and packets continue the event chain and leave the
-- capability policy alone.
use governed_signal_to_conte.Base.{
  >>=-eq-ok, Bool-cases, Option, Result, String, [], ap, arith, inl, inr, key_error, nat_eq, none,
  not, ok, ok_injective, or_raise, permission_error, raise_if, refl, runtime_error, some, subst,
  ◌++◌, ◌==◌, ◌||◌, ◌∷◌, ◌≡◌,
}
use governed_signal_to_conte.Chain.Material.{Material}
use governed_signal_to_conte.Commit.Admitted.{
  adjudicate-allowed, adjudicate-denied, commit-Adjudicated,
}
use governed_signal_to_conte.Commit.Authority.{
  Adjudication, AuthorityCommit, commit_authority_transition,
}
use governed_signal_to_conte.Commit.Branches.{commit_acceptance-Branch, commit_denial-Kept}
use governed_signal_to_conte.Commit.Extends.{
  Kept, Kept-trans, append_event-Kept, change-Kept, insert_authenticated_operation-Kept,
  same_tables-Kept, unchanged_policy,
}
use governed_signal_to_conte.Commit.Insert.{append_event, insert_authenticated_operation}
use governed_signal_to_conte.Commit.Moves.{move_pair-Kept}
use governed_signal_to_conte.Commit.Progress.{
  CandidateTransition, PacketTransition, apply_candidate_transition, apply_packet_transition,
  commit_packet_transition, find_candidate, find_packet, insert_packet, move_candidate, move_pair,
  record_transition_event, when_some,
}
use governed_signal_to_conte.Commit.Rejection.{
  RejectedRequest, record_authenticated_authorization_rejection, rejection_decision,
}
use governed_signal_to_conte.Database.{Database}
use governed_signal_to_conte.Receipts.Events.{TransitionEvent}
use governed_signal_to_conte.Tables.{AuthenticatedOperation, Packet}
use governed_signal_to_conte.Workflow.{WorkflowState, is_authority_sensitive, state_eq}

pub commit_authority_transition-Kept :
    (H : Material → String) (t : AuthorityCommit) (db db' : Database) (a : Adjudication)
    → commit_authority_transition H t db ≡ ok (a, db')
    → Kept H db db'
commit_authority_transition-Kept H t db db' a h =
    let j = commit-Adjudicated H t db db' a h in
    elim (Bool-cases a.accepted) [
      | inl k ↦
          let (_, r) = adjudicate-allowed H t j.packet j.decision db db' a j.adjudged k in
          (commit_acceptance-Branch H t j.packet j.packet.state j.decision db db' a r).kept
      | inr k ↦
          let (e, r) = adjudicate-denied H t j.packet j.decision db db' a j.adjudged k in
          commit_denial-Kept H t.authenticated_operation e j.decision db db' a r
    ]

insert_packet-frame :
    (p : Packet) (db db' : Database)
    → insert_packet p db ≡ ok db'
    → db' ≡ record db { packets = db.packets ++ p ∷ [] }
unfolding insert_packet
insert_packet-frame p db db' h = ground arith

insert_packet-Kept :
    (H : Material → String) (p : Packet) (db db' : Database)
    → insert_packet p db ≡ ok db'
    → Kept H db db'
insert_packet-Kept H p db db' h =
    change-Kept H db db' _ (insert_packet-frame p db db' h) refl
      (record { grants = refl; revocations = refl; policy = refl })

abbrev unit_answer : Unit {0} → Database → Unit {0} × Database
unit_answer u db = (u, db)

second :
    (u : Unit {0}) (db db' : Database) → ok (unit_answer tt db) ≡ ok (unit_answer u db') → db ≡ db'
second u db db' h = ap (λ x. x.1) (ok_injective (unit_answer tt db) (unit_answer u db') h)

when_some-Kept :
    (H : Material → String) {A : Type 0} (o : Option A) (f : A → Database → Result Database)
    (db db' : Database)
    → ((x : A) (c c' : Database) → f x c ≡ ok c' → Kept H c c')
    → when_some o f db ≡ ok db'
    → Kept H db db'
when_some-Kept H none f db db' k h =
    subst (Kept H db) (ok_injective db db' h) (same_tables-Kept H db db refl (unchanged_policy db))
when_some-Kept H (some x) f db db' k h = k x db db' h

pub record_transition_event-Kept :
    (H : Material → String) (e : TransitionEvent) (o : Option AuthenticatedOperation)
    (db db' : Database) (u : Unit {0})
    → record_transition_event H e o db ≡ ok (u, db')
    → Kept H db db'
unfolding record_transition_event
record_transition_event-Kept H e o db db' u h =
    let (db₁, e₁, h₁) = >>=-eq-ok (append_event H e db) _ h in
    let (db₂, e₂, h₂) =
      >>=-eq-ok (when_some o (λ x. insert_authenticated_operation x e.event_id e.outcome) db₁) _
        h₁ in
    subst (Kept H db) (second u db₂ db' h₂) (
      Kept-trans H db db₁ db₂ (append_event-Kept H e db db₁ e₁) (
        when_some-Kept H o _ db₁ db₂
          (λ x c c' k. insert_authenticated_operation-Kept H x e.event_id e.outcome c c' k) e₂))

move_candidate-Kept :
    (H : Material → String) (candidate_id : String) (prior resulting : WorkflowState)
    (db : Database)
    → Kept H db (move_candidate candidate_id prior resulting db).1
unfolding move_candidate
move_candidate-Kept H candidate_id prior resulting db =
    same_tables-Kept H db _ refl (record { grants = refl; revocations = refl; policy = refl })

pub apply_candidate_transition-Kept :
    (H : Material → String) (t : CandidateTransition) (db db' : Database) (u : Unit {0})
    → apply_candidate_transition H t db ≡ ok (u, db')
    → Kept H db db'
unfolding apply_candidate_transition
apply_candidate_transition-Kept H t db db' u h =
    let (_, _, h₁) =
      >>=-eq-ok
        (raise_if (is_authority_sensitive t.prior_state t.resulting_state) (
          permission_error
            "Authority-sensitive candidate transitions require the TransitionMediator"))
        _ h in
    let (db₁, e₂, h₂) = >>=-eq-ok (when_some t.packet insert_packet db) _ h₁ in
    let pair = move_candidate t.candidate_id t.prior_state t.resulting_state db₁ in
    let (_, _, h₃) =
      >>=-eq-ok
        (raise_if (not (nat_eq pair.0 1))
          (runtime_error "Candidate state changed before transition commit"))
        _ h₂ in
    let (db₃, e₄, h₄) = >>=-eq-ok (append_event H t.event pair.1) _ h₃ in
    subst (Kept H db) (second u db₃ db' h₄) (
      Kept-trans H db db₁ db₃
        (when_some-Kept H t.packet insert_packet db db₁ (λ p c c' k. insert_packet-Kept H p c c' k)
          e₂)
        (Kept-trans H db₁ pair.1 db₃
          (move_candidate-Kept H t.candidate_id t.prior_state t.resulting_state db₁)
          (append_event-Kept H t.event pair.1 db₃ e₄)))

commit_packet_transition-Kept :
    (H : Material → String) (t : PacketTransition) (db db' : Database) (u : Unit {0})
    → commit_packet_transition H t db ≡ ok (u, db')
    → Kept H db db'
unfolding commit_packet_transition
commit_packet_transition-Kept H t db db' u h =
    let gone = key_error "Packet or candidate disappeared during transition" in
    let (packet, _, h₁) = >>=-eq-ok (or_raise (find_packet db t.packet_id) gone) _ h in
    let (candidate, _, h₂) = >>=-eq-ok (or_raise (find_candidate db t.candidate_id) gone) _ h₁ in
    let (_, _, h₃) =
      >>=-eq-ok
        (raise_if (not (packet.candidate_id == t.candidate_id))
          (runtime_error "Packet/candidate identity changed before transition commit"))
        _ h₂ in
    let (_, _, h₄) =
      >>=-eq-ok
        (raise_if
          (not (state_eq packet.state t.prior_state)
            || not (state_eq candidate.state t.prior_state))
          (runtime_error "Packet/candidate paired state changed before transition commit"))
        _ h₃ in
    let (db₁, e₅, h₅) =
      >>=-eq-ok (move_pair t.packet_id t.candidate_id t.prior_state t.resulting_state db) _ h₄ in
    let (db₂, e₆, h₆) = >>=-eq-ok (append_event H t.event db₁) _ h₅ in
    subst (Kept H db) (second u db₂ db' h₆) (
      Kept-trans H db db₁ db₂
        (move_pair-Kept H t.packet_id t.candidate_id t.prior_state t.resulting_state db db₁ e₅)
        (append_event-Kept H t.event db₁ db₂ e₆))

pub apply_packet_transition-Kept :
    (H : Material → String) (t : PacketTransition) (db db' : Database) (u : Unit {0})
    → apply_packet_transition H t db ≡ ok (u, db')
    → Kept H db db'
unfolding apply_packet_transition
apply_packet_transition-Kept H t db db' u h =
    let (_, _, h₁) =
      >>=-eq-ok
        (raise_if (is_authority_sensitive t.prior_state t.resulting_state) (
          permission_error "Authority-sensitive packet transitions require the TransitionMediator"))
        _ h in
    commit_packet_transition-Kept H t db db' u h₁

pub record_authenticated_authorization_rejection-Kept :
    (H : Material → String) (r : RejectedRequest) (db db' : Database) (a : Adjudication)
    → record_authenticated_authorization_rejection H r db ≡ ok (a, db')
    → Kept H db db'
unfolding record_authenticated_authorization_rejection
record_authenticated_authorization_rejection-Kept H r db db' a h =
    let (d, _, h₁) = >>=-eq-ok (rejection_decision r db) _ h in
    let (e, _, h₂) = >>=-eq-ok (r.event_factory d) _ h₁ in
    commit_denial-Kept H r.authenticated_operation e d db db' a h₂
