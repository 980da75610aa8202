-- ===== src/Commit/Admitted.antt =====
-- `_commit_authority_transition` (database.py): what an accepted and a refused commit have checked
-- and changed.
use governed_signal_to_conte.Authorization.Active.{Names, denied-not-allowed, evaluate-Names}
use governed_signal_to_conte.Authorization.Decision.{Request}
use governed_signal_to_conte.Authorization.Evaluate.{evaluate, known, parse_capability}
use governed_signal_to_conte.Base.{
  >>=-eq-ok, Bool-cases, Error, String, arith, eq_iff, err, false, if◌then◌else◌, inl, inr,
  key_error, not, not-false, ok, or_raise, or_raise-some, raise_if, raise_if-false, runtime_error,
  some, subst, sym, true, value_error, ◌==◌, ◌∙◌, ◌≡◌,
}
use governed_signal_to_conte.Chain.Material.{Material}
use governed_signal_to_conte.Commit.Authority.{
  Adjudication, AuthorityCommit, RequestScope, adjudicate, authority_request, commit_acceptance,
  commit_authority_transition, commit_denial, denial_text, evaluate_transaction_authorization,
  packet_scope_of, scope_ids_eq,
}
use governed_signal_to_conte.Commit.Branches.{
  commit_acceptance-Branch, commit_denial-refusal, with_refusal,
}
use governed_signal_to_conte.Commit.Insert.{has_operation}
use governed_signal_to_conte.Commit.Moves.{HasApproval, Moved}
use governed_signal_to_conte.Commit.Progress.{find_candidate, find_packet}
use governed_signal_to_conte.Database.{Database, connect, connect-rollback}
use governed_signal_to_conte.Models.{
  AuthorizationDecision, Capability, ScopeIds, capability_value, is_allowed, no_scope,
  request_scope_mismatch, required_capabilities, scope_required,
}
use governed_signal_to_conte.Receipts.{TransitionEvent}
use governed_signal_to_conte.Tables.{Candidate, Packet}
use governed_signal_to_conte.Workflow.{WorkflowState, is_authority_sensitive, state_eq, state_eq→eq}

-- What the transaction read and required before it wrote.
pub record Admitted (t : AuthorityCommit) (db : Database) (d : AuthorizationDecision) : Type 0 where
  pub packet : Packet
  pub candidate : Candidate
  pub packet_found : find_packet db t.packet_id ≡ some packet
  pub candidate_found : find_candidate db t.candidate_id ≡ some candidate
  pub paired : packet.candidate_id ≡ t.candidate_id
  pub packet_prior : packet.state ≡ t.prior_state
  pub candidate_prior : candidate.state ≡ t.prior_state
  pub sensitive : is_authority_sensitive t.prior_state t.resulting_state ≡ true
  pub manifest : packet.manifest_hash ≡ t.required_packet_manifest
  pub asserted : scope_ids_eq t.request_scope.scope packet.scope ≡ true
  pub granted :
      Names db
        (required_capabilities t.operation).0
        (authority_request t.authenticated_operation.principal_id t.prior_state t.resulting_state
          packet.scope)
        d
  pub released :
      (manifest : String)
      → t.required_approval_manifest ≡ some manifest
      → HasApproval packet t manifest db

pub known-Names :
    (db : Database) (c k : Capability) (r : Request) (d : AuthorizationDecision)
    → parse_capability (known c) ≡ some k
    → Names db k r d
    → Names db c r d
unfolding parse_capability
known-Names db c k r d h names = let p : k ≡ c = cc in subst (λ x. Names db x r d) p names

-- The evaluation in the transaction allows only under an active grant for the packet's own scope.
evaluation-Names :
    (db : Database) (p : String) (c : Capability) (prior requested : WorkflowState)
    (packet asserted : RequestScope) (d : AuthorizationDecision)
    → evaluate_transaction_authorization db p c prior requested packet asserted ≡ ok d
    → is_allowed d ≡ true
    → (scope_ids_eq asserted.scope packet.scope ≡ true)
      × Names db c (authority_request p prior requested packet.scope) d
unfolding evaluate_transaction_authorization
evaluation-Names db p c prior requested packet asserted d h a =
    let bare = authority_request p prior requested no_scope in
    let actual = authority_request p prior requested packet.scope in
    let (agree, e) : (scope_ids_eq asserted.scope packet.scope ≡ true)
        × (evaluate db (known c) actual ≡ ok d) =
      ground (
        arith,
        denied-not-allowed (capability_value c) scope_required bare d,
        denied-not-allowed (capability_value c) scope_required actual d,
        denied-not-allowed (capability_value c) request_scope_mismatch actual d,
      ) in
    let (k, q, _, names) = evaluate-Names db (known c) actual d e a in
    (agree, known-Names db c k actual d q names)

-- Everything that an adjudicated commit has read: the rows, their checks and the decision.
pub record Adjudicated (H : Material → String) (t : AuthorityCommit) (db db' : Database)
    (a : Adjudication) : Type 0 where
  pub packet : Packet
  pub candidate : Candidate
  pub decision : AuthorizationDecision
  pub sensitive : is_authority_sensitive t.prior_state t.resulting_state ≡ true
  pub packet_found : find_packet db t.packet_id ≡ some packet
  pub candidate_found : find_candidate db t.candidate_id ≡ some candidate
  pub paired : packet.candidate_id ≡ t.candidate_id
  pub same_state : candidate.state ≡ packet.state
  pub evaluated :
      evaluate_transaction_authorization db t.authenticated_operation.principal_id
        (required_capabilities t.operation).0
        packet.state
        t.resulting_state
        (packet_scope_of packet)
        t.request_scope
      ≡ ok decision
  pub adjudged : adjudicate H t packet decision db ≡ ok (a, db')

pub commit-Adjudicated :
    (H : Material → String) (t : AuthorityCommit) (db db' : Database) (a : Adjudication)
    → commit_authority_transition H t db ≡ ok (a, db')
    → Adjudicated H t db db' a
unfolding commit_authority_transition
commit-Adjudicated H t db db' a h =
    let (u₁, e₁, h₁) =
      >>=-eq-ok
        (raise_if (not (is_authority_sensitive t.prior_state t.resulting_state))
          (value_error "Canonical authority commit received a non-authority state pair"))
        _ h in
    let gone = key_error "Packet or candidate disappeared during transition" in
    let (packet, e₂, h₂) = >>=-eq-ok (or_raise (find_packet db t.packet_id) gone) _ h₁ in
    let (candidate, e₃, h₃) = >>=-eq-ok (or_raise (find_candidate db t.candidate_id) gone) _ h₂ in
    let (u₂, e₄, h₄) =
      >>=-eq-ok
        (raise_if (not (packet.candidate_id == t.candidate_id))
          (runtime_error "Packet/candidate identity changed before transition commit"))
        _ h₃ in
    let (u₃, e₅, h₅) =
      >>=-eq-ok
        (raise_if (not (state_eq candidate.state packet.state))
          (runtime_error "Packet/candidate paired state changed before transition commit"))
        _ h₄ in
    let (d, e₆, h₆) =
      >>=-eq-ok
        (evaluate_transaction_authorization db t.authenticated_operation.principal_id
          (required_capabilities t.operation).0 packet.state t.resulting_state
          (packet_scope_of packet) t.request_scope)
        _ h₅ in
    record {
      packet = packet;
      candidate = candidate;
      decision = d;
      sensitive = not-false _ (raise_if-false _ _ u₁ e₁);
      packet_found = or_raise-some _ _ packet e₂;
      candidate_found = or_raise-some _ _ candidate e₃;
      paired =
          (eq_iff packet.candidate_id t.candidate_id).0 (not-false _ (raise_if-false _ _ u₂ e₄));
      same_state =
          state_eq→eq candidate.state packet.state (not-false _ (raise_if-false _ _ u₃ e₅));
      evaluated = e₆;
      adjudged = h₆;
    }

pub adjudicate-allowed :
    (H : Material → String) (t : AuthorityCommit) (p : Packet) (d : AuthorizationDecision)
    (db db' : Database) (a : Adjudication)
    → adjudicate H t p d db ≡ ok (a, db')
    → a.accepted ≡ true
    → (is_allowed d ≡ true) × (commit_acceptance H t p p.state d db ≡ ok (a, db'))
unfolding adjudicate
adjudicate-allowed H t p d db db' a h k = elim (Bool-cases (is_allowed d)) [
  | inl y ↦ (y, ground (arith, y, h))
  | inr n ↦
      let (e, _, r) =
        >>=-eq-ok (t.event_factory d false (denial_text d)) _ (rw (n, if◌then◌else◌) at h) in
      let (refused, _, _) = commit_denial-refusal H t.authenticated_operation e d db db' a r in
      absurd (ground (arith, refused, k))
]

pub adjudicate-denied :
    (H : Material → String) (t : AuthorityCommit) (p : Packet) (d : AuthorizationDecision)
    (db db' : Database) (a : Adjudication)
    → adjudicate H t p d db ≡ ok (a, db')
    → a.accepted ≡ false
    → (e : TransitionEvent) × (commit_denial H t.authenticated_operation e d db ≡ ok (a, db'))
unfolding adjudicate
adjudicate-denied H t p d db db' a h k = elim (Bool-cases (is_allowed d)) [
  | inl y ↦
      let b = commit_acceptance-Branch H t p p.state d db db' a (rw (y, if◌then◌else◌) at h) in
      absurd (ground (arith, b.taken, k))
  | inr n ↦
      let (e, _, r) =
        >>=-eq-ok (t.event_factory d false (denial_text d)) _ (rw (n, if◌then◌else◌) at h) in
      (e, r)
]

-- Names, for equal prior states and equal decisions.
names_at :
    (db : Database) (c : Capability) (p : String) (requested : WorkflowState) (scope : ScopeIds)
    (s t : WorkflowState) (a d : AuthorizationDecision)
    → s ≡ t
    → a ≡ d
    → Names db c (authority_request p s requested scope) d
    → Names db c (authority_request p t requested scope) a
names_at db c p requested scope s t a d e h names =
    subst (λ x. Names db c (authority_request p x requested scope) a) e
      (subst (Names db c (authority_request p s requested scope)) (sym h) names)

-- An accepted authority commit has found the packet and its candidate, paired and both in the
-- prior state of an authority-sensitive pair, the packet's manifest as required, the scope of the
-- request equal to the packet's, an active grant of the operation's capability to the principal
-- for exactly these states and this scope (the grant that the decision names) and, where an
-- approval is required, a stored approval that binds the packet. It has moved exactly this packet
-- and this candidate to the resulting state, left the capability policy as it was, and consumed an
-- operation that had not been consumed.
pub commit_authority_transition-accepted :
    (H : Material → String) (t : AuthorityCommit) (db db' : Database) (a : Adjudication)
    → commit_authority_transition H t db ≡ ok (a, db')
    → a.accepted ≡ true
    → Admitted t db a.decision × Moved t db db'
commit_authority_transition-accepted H t db db' a h k =
    let j = commit-Adjudicated H t db db' a h in
    let (y, r) = adjudicate-allowed H t j.packet j.decision db db' a j.adjudged k in
    let b = commit_acceptance-Branch H t j.packet j.packet.state j.decision db db' a r in
    let (agree, names) =
      evaluation-Names db t.authenticated_operation.principal_id
        (required_capabilities t.operation).0 j.packet.state t.resulting_state
        (packet_scope_of j.packet) t.request_scope j.decision j.evaluated y in
    (
      record {
        packet = j.packet;
        candidate = j.candidate;
        packet_found = j.packet_found;
        candidate_found = j.candidate_found;
        paired = j.paired;
        packet_prior = b.at_prior;
        candidate_prior = j.same_state ∙ b.at_prior;
        sensitive = j.sensitive;
        manifest = b.bound;
        asserted = agree;
        granted =
            names_at db (required_capabilities t.operation).0 t.authenticated_operation.principal_id
              t.resulting_state j.packet.scope j.packet.state t.prior_state a.decision j.decision
              b.at_prior b.decided names;
        released = b.approval;
      },
      b.moved,
    )

-- A refused authority commit changes the database by its event and its consumed operation alone,
-- which had not been consumed before: candidates, packets, approvals and the policy stay.
pub commit_authority_transition-refused :
    (H : Material → String) (t : AuthorityCommit) (db db' : Database) (a : Adjudication)
    → commit_authority_transition H t db ≡ ok (a, db')
    → a.accepted ≡ false
    → (has_operation db t.authenticated_operation.operation_id ≡ false)
      × (db' ≡ with_refusal t.authenticated_operation a.event.event_id db'.store db)
commit_authority_transition-refused H t db db' a h k =
    let j = commit-Adjudicated H t db db' a h in
    let (e, r) = adjudicate-denied H t j.packet j.decision db db' a j.adjudged k in
    let (_, fresh, same) =
      commit_denial-refusal H t.authenticated_operation e j.decision db db' a r in
    (fresh, same)

-- An authenticated operation that was consumed before commits nothing: the transaction raises and
-- the database stays as it was.
pub commit_authority_transition-replay :
    (H : Material → String) (t : AuthorityCommit) (db : Database)
    → has_operation db t.authenticated_operation.operation_id ≡ true
    → (e : Error) × (connect (commit_authority_transition H t) db ≡ (err e, db))
commit_authority_transition-replay H t db seen =
    connect-rollback (commit_authority_transition H t) db (λ a db' h. elim (Bool-cases a.accepted) [
      | inl k ↦
          let (_, m) = commit_authority_transition-accepted H t db db' a h k in
          absurd (ground (arith, m.fresh, seen))
      | inr k ↦
          let (fresh, _) = commit_authority_transition-refused H t db db' a h k in
          absurd (ground (arith, fresh, seen))
    ])
