-- ===== src/Commit/Moves.antt =====
-- What the parts of an authority transition (database.py) change, and what they require.
use governed_signal_to_conte.Base.{
  In, Option, Option-cases, String, [], ap, arith, count_where, eq_iff, false, find_first,
  find_first→in, inl, inr, none, ok, opt_eq→eq, refl, some, sym, true, update_where, ◌++◌, ◌==◌,
  ◌∙◌, ◌∷◌, ◌≡◌,
}
use governed_signal_to_conte.Chain.Material.{Material}
use governed_signal_to_conte.Commit.Authority.{
  AuthorityCommit, approval_binds, check_release_approval, is_approval_for, scope_ids_eq,
}
use governed_signal_to_conte.Commit.Extends.{
  Kept, Kept-trans, SamePolicy, append_event-Kept, change-Kept, insert_authenticated_operation-Kept,
}
use governed_signal_to_conte.Commit.Frame.{append_event-frame, insert_authenticated_operation-frame}
use governed_signal_to_conte.Commit.Grants.{any-snoc_last}
use governed_signal_to_conte.Commit.Insert.{
  append_event, consumed_row, has_operation, insert_approval, insert_authenticated_operation,
}
use governed_signal_to_conte.Commit.Progress.{
  candidate_at, move_candidate, move_packet, move_pair, packet_at, when_some,
}
use governed_signal_to_conte.Database.{Database}
use governed_signal_to_conte.Receipts.Events.{TransitionEvent}
use governed_signal_to_conte.Tables.{Approval, Outcome, Packet}
use governed_signal_to_conte.Workflow.{WorkflowState}

pub move_pair-frame :
    (packet_id candidate_id : String) (prior resulting : WorkflowState) (db db' : Database)
    → move_pair packet_id candidate_id prior resulting db ≡ ok db'
    → (count_where (packet_at packet_id prior) db.packets ≡ 1)
      × (count_where (candidate_at candidate_id prior) db.candidates ≡ 1)
      × (db'
          ≡ (move_candidate candidate_id prior resulting
              (move_packet packet_id prior resulting db).1).1)
unfolding move_pair move_packet move_candidate
move_pair-frame packet_id candidate_id prior resulting db db' h = ground arith

-- An approval of the packet, as it is now, that the release names.
pub record IsApprovalFor (p : Packet) (t : AuthorityCommit) (manifest : String) (a : Approval)
    : Type 0 where
  pub of_packet : a.packet_id ≡ t.packet_id
  pub is_approved : a.decision ≡ "APPROVED"
  pub row_manifest : p.manifest_hash ≡ manifest
  pub approved_manifest : a.manifest_hash ≡ manifest
  pub approval_named : t.required_approval_id ≡ some a.approval_id
  pub event_named : t.required_approval_event_id ≡ some a.transition_event_id
  pub same_version : a.scope_version ≡ p.scope_version
  pub same_brand : a.scope.brand_id ≡ p.scope.brand_id
  pub same_channel : a.scope.channel_id ≡ p.scope.channel_id
  pub same_destination : a.scope.destination_id ≡ p.scope.destination_id

binds-IsApprovalFor :
    (p : Packet) (t : AuthorityCommit) (manifest : String) (a : Approval)
    → is_approval_for t.packet_id t.required_approval_id a ≡ true
    → approval_binds p t manifest a ≡ true
    → IsApprovalFor p t manifest a
unfolding approval_binds scope_ids_eq
binds-IsApprovalFor p t manifest a h k = record {
  of_packet = (eq_iff a.packet_id t.packet_id).0 (ground (arith, h));
  is_approved = (eq_iff a.decision "APPROVED").0 (ground (arith, h));
  row_manifest = (eq_iff p.manifest_hash manifest).0 (ground (arith, k));
  approved_manifest = (eq_iff a.manifest_hash manifest).0 (ground (arith, k));
  approval_named = sym (opt_eq→eq (some a.approval_id) _ (ground (arith, k)));
  event_named = sym (opt_eq→eq (some a.transition_event_id) _ (ground (arith, k)));
  same_version = opt_eq→eq a.scope_version p.scope_version (ground (arith, k));
  same_brand = opt_eq→eq a.scope.brand_id p.scope.brand_id (ground (arith, k));
  same_channel = opt_eq→eq a.scope.channel_id p.scope.channel_id (ground (arith, k));
  same_destination = opt_eq→eq a.scope.destination_id p.scope.destination_id (ground (arith, k));
}

-- The release block has found such an approval.
abbrev pub HasApproval : Packet → AuthorityCommit → String → Database → Type 0
HasApproval p t manifest db = (a : Approval) × In a db.approvals × IsApprovalFor p t manifest a

pub check_release_approval-found :
    (p : Packet) (t : AuthorityCommit) (manifest : String) (db db' : Database)
    → check_release_approval p t manifest db ≡ ok db'
    → (db' ≡ db) × HasApproval p t manifest db
unfolding check_release_approval
check_release_approval-found p t manifest db db' h =
    elim (Option-cases
      (find_first (is_approval_for t.packet_id t.required_approval_id) db.approvals)) [
        | inl e ↦ absurd (ground (arith, e))
        | inr (a, e) ↦
            let (m, n) =
              find_first→in (is_approval_for t.packet_id t.required_approval_id) db.approvals e in
            (ground (arith, e), (a, m, binds-IsApprovalFor p t manifest a n (ground (arith, e))))
      ]

pub insert_approval-frame :
    (a : Approval) (db db' : Database)
    → insert_approval a db ≡ ok db'
    → db' ≡ record db { approvals = db.approvals ++ a ∷ [] }
unfolding insert_approval
insert_approval-frame a db db' h = ground arith

-- The stages of the accepting branch, after its two binding checks.
pub record Stages (H : Material → String) (t : AuthorityCommit) (e : TransitionEvent)
    (db db₁ db₂ db₃ db₄ : Database) : Type 0 where
  pub moves : move_pair t.packet_id t.candidate_id t.prior_state t.resulting_state db ≡ ok db₁
  pub appends : append_event H e db₁ ≡ ok db₂
  pub approves :
      when_some t.approval_factory
        (λ factory. insert_approval (factory e.event_id e.occurred_at_utc))
        db₂
      ≡ ok db₃
  pub consumes :
      insert_authenticated_operation t.authenticated_operation e.event_id Outcome.accepted db₃
      ≡ ok db₄

-- The tables after an accepted commit.
pub record Moved (t : AuthorityCommit) (db db' : Database) : Type 0 where
  pub packets :
      db'.packets
      ≡ update_where
          (packet_at t.packet_id t.prior_state)
          (λ p. record p { state = t.resulting_state })
          db.packets
  pub candidates :
      db'.candidates
      ≡ update_where
          (candidate_at t.candidate_id t.prior_state)
          (λ c. record c { state = t.resulting_state })
          db.candidates
  pub one_packet : count_where (packet_at t.packet_id t.prior_state) db.packets ≡ 1
  pub one_candidate : count_where (candidate_at t.candidate_id t.prior_state) db.candidates ≡ 1
  pub policy : SamePolicy db db'
  pub fresh : has_operation db t.authenticated_operation.operation_id ≡ false
  pub consumed : has_operation db' t.authenticated_operation.operation_id ≡ true

-- An approval that is written changes the approvals only.
approves-frame :
    (factory : Option (String → String → Approval)) (x y : String) (db db' : Database)
    → when_some factory (λ f. insert_approval (f x y)) db ≡ ok db'
    → db' ≡ record db { approvals = db'.approvals }
approves-frame none x y db db' h = ground arith
approves-frame (some f) x y db db' h =
    let e = insert_approval-frame (f x y) db db' h in ground (arith, e)

pub Stages-Moved :
    (H : Material → String) (t : AuthorityCommit) (e : TransitionEvent)
    (db db₁ db₂ db₃ db₄ : Database)
    → Stages H t e db db₁ db₂ db₃ db₄
    → Moved t db db₄
unfolding move_candidate move_packet
Stages-Moved H t e db db₁ db₂ db₃ db₄ s =
    let (n, m, f₁) =
      move_pair-frame t.packet_id t.candidate_id t.prior_state t.resulting_state db db₁ s.moves in
    let f₂ = append_event-frame H e db₁ db₂ s.appends in
    let f₃ = approves-frame t.approval_factory e.event_id e.occurred_at_utc db₂ db₃ s.approves in
    let (fresh, f₄) =
      insert_authenticated_operation-frame t.authenticated_operation e.event_id Outcome.accepted db₃
        db₄ s.consumes in
    record {
      packets =
          ap (λ x. x.packets) f₄
          ∙ ap (λ x. x.packets) f₃
          ∙ ap (λ x. x.packets) f₂
          ∙ ap (λ x. x.packets) f₁;
      candidates =
          ap (λ x. x.candidates) f₄
          ∙ ap (λ x. x.candidates) f₃
          ∙ ap (λ x. x.candidates) f₂
          ∙ ap (λ x. x.candidates) f₁;
      one_packet = n;
      one_candidate = m;
      policy = record {
        grants =
            ap (λ x. x.capability_grants) f₄
            ∙ ap (λ x. x.capability_grants) f₃
            ∙ ap (λ x. x.capability_grants) f₂
            ∙ ap (λ x. x.capability_grants) f₁;
        revocations =
            ap (λ x. x.capability_revocations) f₄
            ∙ ap (λ x. x.capability_revocations) f₃
            ∙ ap (λ x. x.capability_revocations) f₂
            ∙ ap (λ x. x.capability_revocations) f₁;
        policy =
            ap (λ x. x.capability_policy_state) f₄
            ∙ ap (λ x. x.capability_policy_state) f₃
            ∙ ap (λ x. x.capability_policy_state) f₂
            ∙ ap (λ x. x.capability_policy_state) f₁;
      };
      fresh =
          rw
            (ap (λ x. x.authenticated_operations) f₃
              ∙ ap (λ x. x.authenticated_operations) f₂
              ∙ ap (λ x. x.authenticated_operations) f₁)
            at fresh;
      consumed = rw f₄ (
          any-snoc_last (λ c. c.operation.operation_id == t.authenticated_operation.operation_id)
            db₃.authenticated_operations
            (consumed_row t.authenticated_operation e.event_id Outcome.accepted)
            ((eq_iff t.authenticated_operation.operation_id _).1 refl));
    }

pub move_pair-Kept :
    (H : Material → String) (packet_id candidate_id : String) (prior resulting : WorkflowState)
    (db db' : Database)
    → move_pair packet_id candidate_id prior resulting db ≡ ok db'
    → Kept H db db'
unfolding move_candidate move_packet
move_pair-Kept H packet_id candidate_id prior resulting db db' h =
    let (_, _, f) = move_pair-frame packet_id candidate_id prior resulting db db' h in
    change-Kept H db db' _ f refl (record { grants = refl; revocations = refl; policy = refl })

pub Stages-Kept :
    (H : Material → String) (t : AuthorityCommit) (e : TransitionEvent)
    (db db₁ db₂ db₃ db₄ : Database)
    → Stages H t e db db₁ db₂ db₃ db₄
    → Kept H db db₄
Stages-Kept H t e db db₁ db₂ db₃ db₄ s =
    let moved =
      move_pair-Kept H t.packet_id t.candidate_id t.prior_state t.resulting_state db db₁ s.moves in
    let approved_in =
      change-Kept H db₂ db₃ _
        (approves-frame t.approval_factory e.event_id e.occurred_at_utc db₂ db₃ s.approves) refl
        (record { grants = refl; revocations = refl; policy = refl }) in
    let consumed_in =
      insert_authenticated_operation-Kept H t.authenticated_operation e.event_id Outcome.accepted
        db₃ db₄ s.consumes in
    Kept-trans H db db₁ db₄ moved (
      Kept-trans H db₁ db₂ db₄ (append_event-Kept H e db₁ db₂ s.appends)
        (Kept-trans H db₂ db₃ db₄ approved_in consumed_in))
