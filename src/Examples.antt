-- ===== src/Examples.antt =====
-- The theorems at concrete inputs: a run of the whole workflow, and the workspace of Scenario.
use governed_signal_to_conte.Authorization.Active.{IsActiveGrant, Names, evaluate-Names}
use governed_signal_to_conte.Authorization.Complete.{Allows, Fits, evaluate_iff}
use governed_signal_to_conte.Authorization.Decision.{Request, decision_of}
use governed_signal_to_conte.Authorization.Evaluate.{evaluate, known, parse_capability}
use governed_signal_to_conte.Base.{
  Bool, Error, List, Result, [], all, arith, codes, err, false, is_some, length, ok, refl, some,
  true, ◌++◌, ◌+◌, ◌↔◌, ◌∷◌, ◌≡◌, ◌≤◌,
}
use governed_signal_to_conte.Chain.Append.{insert_transition_event}
use governed_signal_to_conte.Chain.Events.{
  PreparedChainedEvent, canonical_receipt_from_event, prepare_chained_event,
}
use governed_signal_to_conte.Chain.Invariant.{IsChain, insert_transition_event-IsChain}
use governed_signal_to_conte.Chain.Linked.{new_event}
use governed_signal_to_conte.Chain.Material.{ChainEntry, EventStore}
use governed_signal_to_conte.Chain.Roundtrip.{
  ReadsBack, prepare_chained_event-ReadsBack, prepared_entry,
}
use governed_signal_to_conte.Chain.Rows.{entry_of}
use governed_signal_to_conte.Chain.Verified.{IsIntact, verify_canonical_chain_iff}
use governed_signal_to_conte.Chain.Verifier.{verify_canonical_chain}
use governed_signal_to_conte.Commit.Admin.{IsGoverned}
use governed_signal_to_conte.Commit.Admitted.{
  Admitted, commit_authority_transition-accepted, commit_authority_transition-refused,
  commit_authority_transition-replay,
}
use governed_signal_to_conte.Commit.Authority.{
  Adjudication, AuthorityCommit, adjudicate, authority_request, check_release_approval,
  commit_acceptance, commit_authority_transition, commit_denial, denial_text,
  evaluate_transaction_authorization,
}
use governed_signal_to_conte.Commit.Branches.{with_refusal}
use governed_signal_to_conte.Commit.Envelope.{require_canonical_policy_semantics}
use governed_signal_to_conte.Commit.Extends.{SamePolicy}
use governed_signal_to_conte.Commit.Governed.{
  commit_capability_policy_operation-IsGoverned, refused-SamePolicy,
}
use governed_signal_to_conte.Commit.Insert.{
  append_event, has_operation, insert_authenticated_operation, insert_capability_grant,
  validate_authorization_event,
}
use governed_signal_to_conte.Commit.Moves.{Moved}
use governed_signal_to_conte.Commit.Policy.{
  commit_capability_policy_operation, policy_decision, write_policy,
}
use governed_signal_to_conte.Commit.Progress.{move_candidate, move_packet, move_pair}
use governed_signal_to_conte.Commit.Steps.{
  Steps, Steps-IsChain, authority_committed, none_made, one_more, policy_committed,
}
use governed_signal_to_conte.Database.{Database, connect}
use governed_signal_to_conte.Json.{
  Value, array, cons, end, field, fields_eq, nil, object, sanitize, text,
}
use governed_signal_to_conte.Json.Redaction.{IsClean, sanitize-IsClean}
use governed_signal_to_conte.Models.{
  AuthorityOperation, AuthorizationDecision, Capability, active_grant, all_given, allowed,
  is_allowed, packet_approve, packet_release, required_capabilities,
}
use governed_signal_to_conte.Projection.{
  Workspace, finish_projection, mark_transition_event_projected, project_receipt,
  project_transition_event,
}
use governed_signal_to_conte.Projection.Once.{project_transition_event-again}
use governed_signal_to_conte.Receipts.Events.{TransitionEvent}
use governed_signal_to_conte.Receipts.Fields.{RunReceipt}
use governed_signal_to_conte.Scenario.{
  approve_commit, approve_draft, approved_database, boot, bootstrap_request, bootstrapped,
  database_after, digest, digest_text, draft, empty_database, empty_state, event_for, governed,
  grant_commit, grant_request, is_ok, reboot, refuse_commit, refused_database, signal,
  signed_by_alice, was_accepted, was_allowed, workspace_scope,
}
use governed_signal_to_conte.Scope.{matches_scope_id, normalize, packet_scope, split_dash}
use governed_signal_to_conte.Scope.Accepted.{IsLogicalId, packet_scope_iff}
use governed_signal_to_conte.Scope.Grammar.{is_component, matches_scope_id-components}
use governed_signal_to_conte.Tables.{Approval, CapabilityGrant}
use governed_signal_to_conte.Workflow.{
  approved, awaiting_approval, discovered, is_authority_sensitive, released, state_eq, state_value,
  validate_transition,
}
use governed_signal_to_conte.Workflow.Reach.{
  Run, Run-bounded, here, main_path, released-main_path, remaining, step,
}

pub after :
    (db : Database) (m : Result (Adjudication × Database))
    → is_ok m ≡ true
    → (a : Adjudication) × (m ≡ ok (a, database_after db m))
after db (ok (a, db')) h = (a, refl)
after db (err e) h = cc

grant_ok : is_ok grant_commit ≡ true
unfolding commit_capability_policy_operation policy_decision write_policy
    validate_authorization_event append_event insert_authenticated_operation insert_capability_grant
    event_for fields_eq state_eq
grant_ok = refl

grant_answer : (a : Adjudication) × (grant_commit ≡ ok (a, governed))
grant_answer = after bootstrapped grant_commit grant_ok

bootstrapped-IsGoverned : IsGoverned bootstrapped
unfolding commit_capability_policy_operation policy_decision write_policy
    validate_authorization_event append_event insert_authenticated_operation insert_capability_grant
    event_for fields_eq state_eq
bootstrapped-IsGoverned = record { ids_distinct = refl; administered = refl }

grant_request_valid : require_canonical_policy_semantics "alice" grant_request ≡ ok tt
unfolding require_canonical_policy_semantics packet_scope state_eq
grant_request_valid = refl

commit_capability_policy_operation-IsGoverned_example : IsGoverned governed
commit_capability_policy_operation-IsGoverned_example =
    commit_capability_policy_operation-IsGoverned digest grant_request (signed_by_alice "op-2")
      (event_for "event-2" (signed_by_alice "op-2")) bootstrapped governed (grant_answer.0)
      bootstrapped-IsGoverned grant_request_valid (grant_answer.1)

approve_ok : is_ok approve_commit ≡ true
unfolding commit_capability_policy_operation policy_decision write_policy
    validate_authorization_event append_event insert_authenticated_operation insert_capability_grant
    event_for fields_eq state_eq commit_authority_transition adjudicate commit_acceptance
    commit_denial move_pair move_packet move_candidate evaluate_transaction_authorization
    is_authority_sensitive required_capabilities packet_scope state_value
approve_ok = refl

approve_answer : (a : Adjudication) × (approve_commit ≡ ok (a, approved_database))
approve_answer = after governed approve_commit approve_ok

approve_accepted : was_accepted approve_commit ≡ true
unfolding commit_capability_policy_operation policy_decision write_policy
    validate_authorization_event append_event insert_authenticated_operation insert_capability_grant
    event_for fields_eq state_eq commit_authority_transition adjudicate commit_acceptance
    commit_denial move_pair move_packet move_candidate evaluate_transaction_authorization
    is_authority_sensitive required_capabilities packet_scope state_value
approve_accepted = refl

refuse_ok : is_ok refuse_commit ≡ true
unfolding commit_capability_policy_operation policy_decision write_policy
    validate_authorization_event append_event insert_authenticated_operation insert_capability_grant
    event_for fields_eq state_eq commit_authority_transition adjudicate commit_acceptance
    commit_denial move_pair move_packet move_candidate evaluate_transaction_authorization
    is_authority_sensitive required_capabilities packet_scope state_value denial_text
refuse_ok = refl

refuse_answer : (a : Adjudication) × (refuse_commit ≡ ok (a, refused_database))
refuse_answer = after bootstrapped refuse_commit refuse_ok

refuse_refused : was_accepted refuse_commit ≡ false
unfolding commit_capability_policy_operation policy_decision write_policy
    validate_authorization_event append_event insert_authenticated_operation insert_capability_grant
    event_for fields_eq state_eq commit_authority_transition adjudicate commit_acceptance
    commit_denial move_pair move_packet move_candidate evaluate_transaction_authorization
    is_authority_sensitive required_capabilities packet_scope state_value denial_text
refuse_refused = refl

same_verdict :
    (m : Result (Adjudication × Database)) (a : Adjudication) (db : Database) (b : Bool)
    → m ≡ ok (a, db)
    → was_accepted m ≡ b
    → a.accepted ≡ b
same_verdict m a db b e h = ground (arith, e, h)

accepted-is_ok : (m : Result (Adjudication × Database)) → was_accepted m ≡ true → is_ok m ≡ true
accepted-is_ok (ok (a, db)) h = refl
accepted-is_ok (err e) h = cc

-- A release of an approved packet, under a grant for releases and its approval.
abbrev release_grant_commit : Result (Adjudication × Database)
release_grant_commit =
    commit_capability_policy_operation digest
      (record grant_request {
        capability = packet_release;
        expected_prior_state = some approved;
        requested_state = some released;
      })
      (signed_by_alice "op-2") (event_for "event-2" (signed_by_alice "op-2")) bootstrapped

abbrev draft_approval : Approval
draft_approval = record {
  approval_id = "approval-1";
  packet_id = "packet-1";
  actor = "alice";
  decision = "APPROVED";
  reason = "";
  manifest_hash = "manifest";
  prior_state = awaiting_approval;
  decided_at_utc = "2026-01-01T00:00:00Z";
  transition_event_id = "event-0";
  authenticated_principal_id = some "alice";
  authenticated_operation_id = some "op-0";
  scope_version = some "1.0";
  scope = workspace_scope;
}

abbrev releasable : Database
releasable = record (database_after bootstrapped release_grant_commit) {
  candidates = record signal { state = approved } ∷ [];
  packets = record draft { state = approved } ∷ [];
  approvals = draft_approval ∷ [];
}

abbrev release_draft : AuthorityCommit
release_draft = record approve_draft {
  operation = AuthorityOperation.release;
  prior_state = approved;
  resulting_state = released;
  required_approval_manifest = some "manifest";
  required_approval_id = some "approval-1";
  required_approval_event_id = some "event-0";
}

abbrev release_commit : Result (Adjudication × Database)
release_commit = commit_authority_transition digest release_draft releasable

abbrev draft_released : Database
draft_released = database_after releasable release_commit

release_accepted : was_accepted release_commit ≡ true
unfolding commit_capability_policy_operation policy_decision write_policy
    validate_authorization_event append_event insert_authenticated_operation insert_capability_grant
    event_for fields_eq state_eq commit_authority_transition adjudicate commit_acceptance
    commit_denial move_pair move_packet move_candidate evaluate_transaction_authorization
    is_authority_sensitive required_capabilities packet_scope state_value check_release_approval
release_accepted = refl

release_ok : is_ok release_commit ≡ true
release_ok = accepted-is_ok release_commit release_accepted

release_answer : (a : Adjudication) × (release_commit ≡ ok (a, draft_released))
release_answer = after releasable release_commit release_ok

commit_authority_transition-accepted_example :
    Admitted release_draft releasable release_answer.0.decision
    × Moved release_draft releasable draft_released
commit_authority_transition-accepted_example =
    commit_authority_transition-accepted digest release_draft releasable draft_released
      release_answer.0 release_answer.1
      (same_verdict release_commit release_answer.0 draft_released true release_answer.1
        release_accepted)

commit_authority_transition-refused_example :
    (has_operation bootstrapped "op-3" ≡ false)
    × (refused_database
        ≡ with_refusal
            (signed_by_alice "op-3")
            refuse_answer.0.event.event_id
            refused_database.store
            bootstrapped)
commit_authority_transition-refused_example =
    commit_authority_transition-refused digest approve_draft bootstrapped refused_database
      refuse_answer.0 refuse_answer.1
      (same_verdict refuse_commit refuse_answer.0 refused_database false refuse_answer.1
        refuse_refused)

op_3_consumed : has_operation approved_database "op-3" ≡ true
unfolding commit_capability_policy_operation policy_decision write_policy
    validate_authorization_event append_event insert_authenticated_operation insert_capability_grant
    event_for fields_eq state_eq commit_authority_transition adjudicate commit_acceptance
    commit_denial move_pair move_packet move_candidate evaluate_transaction_authorization
    is_authority_sensitive required_capabilities packet_scope state_value
op_3_consumed = refl

commit_authority_transition-replay_example :
    (e : Error) × (connect (commit_authority_transition digest approve_draft) approved_database
      ≡ (err e, approved_database))
commit_authority_transition-replay_example =
    commit_authority_transition-replay digest approve_draft approved_database op_3_consumed

reboot_ok : is_ok reboot ≡ true
unfolding commit_capability_policy_operation policy_decision write_policy
    validate_authorization_event append_event insert_authenticated_operation insert_capability_grant
    event_for fields_eq state_eq denial_text
reboot_ok = refl

reboot_answer : (a : Adjudication) × (reboot ≡ ok (a, database_after bootstrapped reboot))
reboot_answer = after bootstrapped reboot reboot_ok

reboot_denied : was_allowed reboot ≡ false
unfolding commit_capability_policy_operation policy_decision write_policy
    validate_authorization_event append_event insert_authenticated_operation insert_capability_grant
    event_for fields_eq state_eq denial_text
reboot_denied = refl

same_decision :
    (m : Result (Adjudication × Database)) (a : Adjudication) (db : Database) (b : Bool)
    → m ≡ ok (a, db)
    → was_allowed m ≡ b
    → is_allowed a.decision ≡ b
same_decision m a db b e h = ground (arith, e, h)

refused-SamePolicy_example : SamePolicy bootstrapped (database_after bootstrapped reboot)
refused-SamePolicy_example =
    refused-SamePolicy digest bootstrap_request (signed_by_alice "op-2")
      (event_for "event-2" (signed_by_alice "op-2")) bootstrapped
      (database_after bootstrapped reboot) reboot_answer.0 reboot_answer.1
      (same_decision reboot reboot_answer.0 (database_after bootstrapped reboot) false
        reboot_answer.1 reboot_denied)

abbrev approve_request : Request
approve_request = authority_request "alice" awaiting_approval approved workspace_scope

abbrev approve_decision : AuthorizationDecision
approve_decision =
    decision_of allowed "packet.approve" active_grant approve_request
      (some "grant_11111111111111111111111111111111")

approve_evaluated : evaluate governed (known packet_approve) approve_request ≡ ok approve_decision
unfolding evaluate commit_capability_policy_operation policy_decision write_policy
    validate_authorization_event append_event insert_authenticated_operation insert_capability_grant
    event_for fields_eq state_eq packet_scope
approve_evaluated = refl

evaluate-Names_example :
    (c : Capability) × (parse_capability (known packet_approve) ≡ some c)
    × (is_some governed.capability_policy_state ≡ true)
    × Names governed c approve_request approve_decision
evaluate-Names_example =
    evaluate-Names governed (known packet_approve) approve_request approve_decision
      approve_evaluated refl

approve-Fits : Fits packet_approve workspace_scope
unfolding packet_scope all_given
approve-Fits = (refl, refl)

known_approve : parse_capability (known packet_approve) ≡ some packet_approve
unfolding parse_capability
known_approve = refl

evaluate_iff_example : Allows governed (known packet_approve) approve_request ↔ (
    (is_some governed.capability_policy_state ≡ true)
    × ((g : CapabilityGrant) × IsActiveGrant governed packet_approve approve_request g))
evaluate_iff_example =
    evaluate_iff governed (known packet_approve) packet_approve approve_request known_approve
      approve-Fits

full-Run : Run discovered (main_path discovered) released
unfolding validate_transition
full-Run =
    step refl
      (step refl (step refl (step refl (step refl (step refl (step refl (step refl here)))))))

Run-bounded_example : length (main_path discovered) + remaining released ≤ remaining discovered
Run-bounded_example = Run-bounded full-Run

released-main_path_example : main_path discovered ≡ main_path discovered
released-main_path_example = released-main_path full-Run

packet_scope_iff_example :
    (packet_scope "acme" "web" "blog.main" ≡ ok tt)
    ↔ (IsLogicalId (codes "acme") × IsLogicalId (codes "web") × IsLogicalId (codes "blog.main"))
packet_scope_iff_example = packet_scope_iff "acme" "web" "blog.main"

matches_scope_id-components_example :
    matches_scope_id (codes "blog.main")
    ≡ all is_component (split_dash (normalize (codes "blog.main")))
matches_scope_id-components_example = matches_scope_id-components (codes "blog.main")

abbrev leaky : Value
leaky = object (
    field "Api_Token" (text "k") (
      field "credential_ref" (text "cred_blog")
        (field "nested" (array (cons (object (field "PASSWORD" (text "p") end)) nil)) end)))

leaky_redacted :
    sanitize leaky
    ≡ object (
        field "Api_Token" (text "[REDACTED]") (
          field "credential_ref" (text "cred_blog") (
            field "nested"
              (array (cons (object (field "PASSWORD" (text "[REDACTED]") end)) nil))
              end)))
unfolding sanitize
leaky_redacted = refl

sanitize-IsClean_example : IsClean (sanitize leaky) × (IsClean leaky → sanitize leaky ≡ leaky)
sanitize-IsClean_example = sanitize-IsClean leaky

empty_IsChain : IsChain digest empty_database.store
empty_IsChain = record {
  state = empty_state;
  activated = refl;
  linked = tt;
  counted = refl;
  head = refl;
  canonical = λ c m. absurd m;
}

empty_IsGoverned : IsGoverned empty_database
empty_IsGoverned = record { ids_distinct = refl; administered = refl }

boot_ok : is_ok boot ≡ true
unfolding commit_capability_policy_operation policy_decision write_policy
    validate_authorization_event append_event insert_authenticated_operation insert_capability_grant
    event_for fields_eq state_eq
boot_ok = refl

boot_answer : (a : Adjudication) × (boot ≡ ok (a, bootstrapped))
boot_answer = after empty_database boot boot_ok

boot_request_valid : require_canonical_policy_semantics "alice" bootstrap_request ≡ ok tt
unfolding require_canonical_policy_semantics packet_scope state_eq
boot_request_valid = refl

history : Steps digest empty_database approved_database
history =
    one_more
      (policy_committed bootstrap_request (signed_by_alice "op-1")
        (event_for "event-1" (signed_by_alice "op-1")) boot_answer.0 boot_request_valid
        boot_answer.1)
      (one_more
        (policy_committed grant_request (signed_by_alice "op-2")
          (event_for "event-2" (signed_by_alice "op-2")) grant_answer.0 grant_request_valid
          grant_answer.1)
        (one_more (authority_committed approve_draft approve_answer.0 approve_answer.1) none_made))

Steps-IsChain_example :
    IsChain digest approved_database.store
    × ((new : List ChainEntry) × (approved_database.store.entries
          ≡ empty_database.store.entries ++ new))
    × IsGoverned approved_database
Steps-IsChain_example = Steps-IsChain digest history empty_IsChain empty_IsGoverned

value_of : {A : Type 0} (m : Result A) → is_ok m ≡ true → (a : A) × (m ≡ ok a)
value_of (ok a) h = (a, refl)
value_of (err e) h = cc

plain_event : Result TransitionEvent
plain_event = event_for "event-1" (signed_by_alice "op-1") approve_decision true ""

plain : (e : TransitionEvent) × (plain_event ≡ ok e)
unfolding plain_event event_for
plain = value_of plain_event refl

prepared_plain :
    (p : PreparedChainedEvent) × (prepare_chained_event digest plain.0 1 (digest_text 0) ≡ ok p)
unfolding plain plain_event event_for prepare_chained_event fields_eq state_value value_of
prepared_plain = value_of (prepare_chained_event digest plain.0 1 (digest_text 0)) refl

prepare_chained_event-ReadsBack_example :
    ReadsBack digest plain.0 1 (digest_text 0) prepared_plain.0
prepare_chained_event-ReadsBack_example =
    prepare_chained_event-ReadsBack digest plain.0 1 (digest_text 0) prepared_plain.0
      prepared_plain.1

inserted_plain :
    (r : PreparedChainedEvent × EventStore) × (insert_transition_event digest plain.0
        empty_database.store
      ≡ ok r)
unfolding plain plain_event event_for insert_transition_event fields_eq state_value value_of
inserted_plain = value_of (insert_transition_event digest plain.0 empty_database.store) refl

insert_transition_event-IsChain_example :
    IsChain digest inserted_plain.0.1
    × (inserted_plain.0.1.events
        ≡ empty_database.store.events ++ new_event plain.0 inserted_plain.0.0 ∷ [])
    × (inserted_plain.0.1.entries
        ≡ empty_database.store.entries ++ prepared_entry plain.0.event_id inserted_plain.0.0 ∷ [])
insert_transition_event-IsChain_example =
    insert_transition_event-IsChain digest plain.0 inserted_plain.0.0 empty_database.store
      inserted_plain.0.1 empty_IsChain inserted_plain.1

abbrev unprojected : Workspace
unprojected = record { store = bootstrapped.store; receipt_log = [] }

abbrev projection : Result RunReceipt × Workspace
projection = project_transition_event digest "2026-01-01T00:00:01Z" "event-1" unprojected

with_receipt :
    (p : Result RunReceipt × Workspace) → is_ok p.0 ≡ true → (r : RunReceipt) × (p ≡ (ok r, p.1))
with_receipt (ok r, w) h = (r, refl)
with_receipt (err e, w) h = cc

projection_receipt : (r : RunReceipt) × (projection ≡ (ok r, projection.1))
unfolding commit_capability_policy_operation policy_decision write_policy
    validate_authorization_event append_event insert_authenticated_operation insert_capability_grant
    event_for fields_eq state_eq project_transition_event project_receipt finish_projection
    mark_transition_event_projected canonical_receipt_from_event
projection_receipt = with_receipt projection refl

event_1_chained : is_some (entry_of unprojected.store.entries "event-1") ≡ true
unfolding commit_capability_policy_operation policy_decision write_policy
    validate_authorization_event append_event insert_authenticated_operation insert_capability_grant
    event_for fields_eq state_eq
event_1_chained = refl

project_transition_event-again_example :
    project_transition_event digest "2026-01-02T00:00:00Z" "event-1" projection.1
    ≡ (ok projection_receipt.0, projection.1)
project_transition_event-again_example =
    project_transition_event-again digest "2026-01-01T00:00:01Z" "2026-01-02T00:00:00Z" "event-1"
      unprojected projection.1 projection_receipt.0 event_1_chained projection_receipt.1

verify_canonical_chain_iff_example :
    (verify_canonical_chain digest approved_database.store ≡ [])
    ↔ IsIntact digest approved_database.store
verify_canonical_chain_iff_example = verify_canonical_chain_iff digest approved_database.store
