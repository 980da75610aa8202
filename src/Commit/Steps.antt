-- ===== src/Commit/Steps.antt =====
-- Histories of a database: any sequence of the transactions of database.py.
use governed_signal_to_conte.Base.{
  >>=-eq-ok, Bool, List, Option, Result, String, ap, arith, false, if◌then◌else◌, inl, inr,
  integrity_error, ok, ok_injective, or_raise, refl, sym, true, ◌++◌, ◌∙◌, ◌≡◌,
}
use governed_signal_to_conte.Chain.Invariant.{IsChain}
use governed_signal_to_conte.Chain.Material.{ChainEntry, Material}
use governed_signal_to_conte.Commit.Admin.{IsGoverned, SamePolicy-IsGoverned, commit-Committed}
use governed_signal_to_conte.Commit.Authority.{
  Adjudication, AuthorityCommit, commit_authority_transition,
}
use governed_signal_to_conte.Commit.Envelope.{require_canonical_policy_semantics}
use governed_signal_to_conte.Commit.Extends.{Extends, Extends-trans, Kept, same_store-Extends}
use governed_signal_to_conte.Commit.Governed.{
  commit_capability_policy_operation-IsGoverned, operation-cases,
}
use governed_signal_to_conte.Commit.Grants.{
  insert_capability_grant-frame, insert_capability_revocation-frame,
}
use governed_signal_to_conte.Commit.History.{
  apply_candidate_transition-Kept, apply_packet_transition-Kept, commit_authority_transition-Kept,
  record_authenticated_authorization_rejection-Kept, record_transition_event-Kept,
}
use governed_signal_to_conte.Commit.Insert.{insert_capability_grant}
use governed_signal_to_conte.Commit.Policy.{
  PolicyRequest, commit_capability_policy_operation, granted, insert_policy_state, revoked,
  write_policy,
}
use governed_signal_to_conte.Commit.Progress.{
  CandidateTransition, PacketTransition, apply_candidate_transition, apply_packet_transition,
  record_transition_event,
}
use governed_signal_to_conte.Commit.Rejection.{
  RejectedRequest, record_authenticated_authorization_rejection,
}
use governed_signal_to_conte.Database.{Database}
use governed_signal_to_conte.Models.{AuthorizationDecision, is_allowed}
use governed_signal_to_conte.Receipts.Events.{TransitionEvent}
use governed_signal_to_conte.Tables.{AuthenticatedOperation}

-- One committed transaction. The request of a policy operation has passed its envelope's validator.
pub data Step (H : Material → String) : Database → Database → Type 0 where
  event_recorded :
      {db db' : Database} (e : TransitionEvent) (o : Option AuthenticatedOperation)
      → record_transition_event H e o db ≡ ok (tt, db')
      → Step H db db'
  candidate_moved :
      {db db' : Database} (t : CandidateTransition)
      → apply_candidate_transition H t db ≡ ok (tt, db')
      → Step H db db'
  packet_moved :
      {db db' : Database} (t : PacketTransition)
      → apply_packet_transition H t db ≡ ok (tt, db')
      → Step H db db'
  rejection_recorded :
      {db db' : Database} (r : RejectedRequest) (a : Adjudication)
      → record_authenticated_authorization_rejection H r db ≡ ok (a, db')
      → Step H db db'
  authority_committed :
      {db db' : Database} (t : AuthorityCommit) (a : Adjudication)
      → commit_authority_transition H t db ≡ ok (a, db')
      → Step H db db'
  policy_committed :
      {db db' : Database} (q : PolicyRequest) (o : AuthenticatedOperation)
      (f : AuthorizationDecision → Bool → String → Result TransitionEvent) (a : Adjudication)
      → require_canonical_policy_semantics o.principal_id q ≡ ok tt
      → commit_capability_policy_operation H q o f db ≡ ok (a, db')
      → Step H db db'

pub data Steps (H : Material → String) : Database → Database → Type 0 where
  none_made : {db : Database} → Steps H db db
  one_more : {a b c : Database} → Step H a b → Steps H b c → Steps H a c

insert_policy_state-store :
    (q : PolicyRequest) (o : AuthenticatedOperation) (e : TransitionEvent) (db db' : Database)
    → insert_policy_state q o e db ≡ ok db'
    → db'.store ≡ db.store
unfolding insert_policy_state
insert_policy_state-store q o e db db' h = ground arith

write_policy-store :
    (q : PolicyRequest) (o : AuthenticatedOperation) (e : TransitionEvent) (db db' : Database)
    → write_policy q o e db ≡ ok db'
    → db'.store ≡ db.store
unfolding write_policy
write_policy-store q o e db db' h = elim (operation-cases q.operation) [
  | inl b ↦
      let (db₁, h₁, h₂) = >>=-eq-ok (insert_capability_grant (granted q o e) db) _ (rw b at h) in
      insert_policy_state-store q o e db₁ db' h₂
      ∙ ap (λ x. x.store) (insert_capability_grant-frame (granted q o e) db db₁ h₁).1
  | inr (inl g) ↦
      ap (λ x. x.store) (insert_capability_grant-frame (granted q o e) db db' (rw g at h)).1
  | inr (inr r) ↦
      let (revocation_id, _, h₁) =
        >>=-eq-ok (or_raise q.revocation_id (integrity_error "NOT NULL constraint failed")) _
          (rw r at h) in
      ap (λ x. x.store) (insert_capability_revocation-frame (revoked revocation_id q o e) db db' h₁)
]

written-store :
    (b : Bool) (q : PolicyRequest) (o : AuthenticatedOperation) (e : TransitionEvent)
    (db db' : Database)
    → (if b then write_policy q o e db else ok db) ≡ ok db'
    → db'.store ≡ db.store
written-store true q o e db db' h = write_policy-store q o e db db' h
written-store false q o e db db' h = ap (λ x. x.store) (sym (ok_injective db db' h))

policy-Extends :
    (H : Material → String) (q : PolicyRequest) (o : AuthenticatedOperation)
    (f : AuthorizationDecision → Bool → String → Result TransitionEvent) (db db' : Database)
    (a : Adjudication)
    → commit_capability_policy_operation H q o f db ≡ ok (a, db')
    → Extends H db db'
policy-Extends H q o f db db' a h =
    let c = commit-Committed H q o f db db' a h in
    Extends-trans H db c.recorded db' c.kept.extends (
      same_store-Extends H c.recorded db'
        (written-store (is_allowed a.decision) q o a.event c.recorded db' c.written))

-- What a step keeps.
record Safe (H : Material → String) (db db' : Database) : Type 0 where
  extends : Extends H db db'
  governs : IsGoverned db → IsGoverned db'

Kept-Safe : (H : Material → String) (db db' : Database) → Kept H db db' → Safe H db db'
Kept-Safe H db db' k = record {
  extends = k.extends;
  governs = λ w. SamePolicy-IsGoverned db db' k.policy w;
}

Step-Safe : (H : Material → String) {db db' : Database} → Step H db db' → Safe H db db'
Step-Safe H {db} {db'} (event_recorded e o h) =
    Kept-Safe H db db' (record_transition_event-Kept H e o db db' tt h)
Step-Safe H {db} {db'} (candidate_moved t h) =
    Kept-Safe H db db' (apply_candidate_transition-Kept H t db db' tt h)
Step-Safe H {db} {db'} (packet_moved t h) =
    Kept-Safe H db db' (apply_packet_transition-Kept H t db db' tt h)
Step-Safe H {db} {db'} (rejection_recorded r a h) =
    Kept-Safe H db db' (record_authenticated_authorization_rejection-Kept H r db db' a h)
Step-Safe H {db} {db'} (authority_committed t a h) =
    Kept-Safe H db db' (commit_authority_transition-Kept H t db db' a h)
Step-Safe H {db} {db'} (policy_committed q o f a v h) = record {
  extends = policy-Extends H q o f db db' a h;
  governs = λ w. commit_capability_policy_operation-IsGoverned H q o f db db' a w v h;
}

Steps-Safe : (H : Material → String) {db db' : Database} → Steps H db db' → Safe H db db'
Steps-Safe H {db} none_made = record { extends = same_store-Extends H db db refl; governs = λ w. w }
Steps-Safe H {db} {db'} (one_more {b} s r) =
    let x = Step-Safe H s in
    let y = Steps-Safe H r in
    record {
      extends = Extends-trans H db b db' x.extends y.extends;
      governs = λ w. y.governs (x.governs w);
    }

-- From a database whose event chain is intact and whose policy is governed, any sequence of
-- committed transactions (rejections, candidate and packet transitions, authority commits, policy
-- operations) leads to one whose chain is intact (numbered, linked, read back, headed by its last
-- entry), whose chain entries start with those that were there, and whose policy is governed.
pub Steps-IsChain :
    (H : Material → String) {db db' : Database}
    → Steps H db db'
    → IsChain H db.store
    → IsGoverned db
    → IsChain H db'.store
      × ((new : List ChainEntry) × (db'.store.entries ≡ db.store.entries ++ new))
      × IsGoverned db'
Steps-IsChain H r w g =
    let s = Steps-Safe H r in
    (s.extends.chain w, (s.extends.added.0, s.extends.added.1 w), s.governs g)
