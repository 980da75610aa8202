-- ===== src/Scenario.antt =====
-- A small workspace for the examples: one trusted principal, one candidate with its packet, and the
-- operations that bootstrap the policy, grant a capability and approve the packet.
use governed_signal_to_conte.Base.{
  Bool, Result, String, [], err, false, if◌then◌else◌, nat_eq, none, ok, some, true, ℕ, ◌>>=◌, ◌∷◌,
}
use governed_signal_to_conte.Chain.Material.{
  ChainState, Material, activation, chain_activation_domain, chain_domain, chain_hash_algorithm,
  chain_origin_native, chain_version_1, legacy_ordering_text, native_event,
}
use governed_signal_to_conte.Commit.Authority.{
  Adjudication, AuthorityCommit, commit_authority_transition,
}
use governed_signal_to_conte.Commit.Policy.{PolicyRequest, commit_capability_policy_operation}
use governed_signal_to_conte.Database.{Database}
use governed_signal_to_conte.Json.{end}
use governed_signal_to_conte.Models.{
  AuthorityOperation, AuthorizationDecision, ScopeIds, bootstrap, grant, is_allowed, no_scope,
  packet_approve, policy_manage_capabilities, scope_version_1,
}
use governed_signal_to_conte.Receipts.Events.{
  TransitionEvent, new_receipt, transition_event_from_receipt,
}
use governed_signal_to_conte.Receipts.Fields.{AuthenticationEvidence, verified}
use governed_signal_to_conte.Tables.{
  AuthenticatedOperation, Candidate, Outcome, Packet, TrustedPrincipal,
}
use governed_signal_to_conte.Workflow.{approved, awaiting_approval}

-- A stand-in for the hash: 64 digits chosen by the event's place in the chain.
abbrev pub digest_text : ℕ → String
digest_text n =
    if nat_eq n 0
    then "0000000000000000000000000000000000000000000000000000000000000000"
    else if nat_eq n 1
    then "1111111111111111111111111111111111111111111111111111111111111111"
    else if nat_eq n 2
    then "2222222222222222222222222222222222222222222222222222222222222222"
    else if nat_eq n 3
    then "3333333333333333333333333333333333333333333333333333333333333333"
    else if nat_eq n 4
    then "4444444444444444444444444444444444444444444444444444444444444444"
    else if nat_eq n 5
    then "5555555555555555555555555555555555555555555555555555555555555555"
    else "6666666666666666666666666666666666666666666666666666666666666666"

abbrev pub digest : Material → String
digest (native_event domain version origin event_sequence previous event) =
    digest_text event_sequence
digest (activation domain version ordering legacy_event_count events) = digest_text 0

abbrev pub workspace_scope : ScopeIds
workspace_scope = record {
  brand_id = some "acme";
  channel_id = some "web";
  destination_id = some "blog.main";
}

abbrev pub alice : TrustedPrincipal
alice = record {
  principal_id = "alice";
  authentication_scheme = "ed25519";
  key_id = "key-1";
  public_key_b64 = "";
  verifier_fingerprint = "";
  bootstrapped_at_utc = "2026-01-01T00:00:00Z";
}

abbrev pub signal : Candidate
signal = record {
  candidate_id = "cand-1";
  title = "";
  source_url = "";
  normalized_url = none;
  source_identity = "";
  development_identifiers = [];
  state = awaiting_approval;
  created_at_utc = "2026-01-01T00:00:00Z";
  normalized_json = none;
  classification_json = none;
}

abbrev pub draft : Packet
draft = record {
  packet_id = "packet-1";
  candidate_id = "cand-1";
  packet_path = "packets/packet-1";
  manifest_hash = "manifest";
  scope_version = some scope_version_1;
  scope = workspace_scope;
  state = awaiting_approval;
  created_at_utc = "2026-01-01T00:00:00Z";
}

-- A chain without events.
abbrev pub empty_state : ChainState
empty_state = record {
  chain_version = chain_version_1;
  chain_origin = chain_origin_native;
  hash_algorithm = chain_hash_algorithm;
  event_domain = chain_domain;
  activation_domain = chain_activation_domain;
  legacy_ordering = legacy_ordering_text;
  legacy_event_count = 0;
  activation_hash = digest_text 0;
  head_sequence = 0;
  head_event_id = none;
  head_event_hash = digest_text 0;
}

abbrev pub empty_database : Database
empty_database = record {
  candidates = signal ∷ [];
  packets = draft ∷ [];
  approvals = [];
  trusted_principals = alice ∷ [];
  authenticated_operations = [];
  capability_grants = [];
  capability_revocations = [];
  capability_policy_state = none;
  store = record { events = []; entries = []; chain_state = some empty_state };
}

-- An operation that `alice` has signed.
abbrev pub signed_by_alice : String → AuthenticatedOperation
signed_by_alice operation_id = record {
  operation_id = operation_id;
  principal_id = "alice";
  authentication_scheme = "ed25519";
  key_id = "key-1";
  verifier_fingerprint = "";
  envelope_hash = "";
  proof_hash = operation_id;
  envelope_json = "";
  signature_b64 = "";
  verified_at_utc = "2026-01-01T00:00:00Z";
  consumed_at_utc = "2026-01-01T00:00:00Z";
}

abbrev pub verified_as : AuthenticatedOperation → AuthenticationEvidence
verified_as o = record {
  verification_status = verified;
  authenticated_principal_id = some o.principal_id;
  authentication_scheme = some o.authentication_scheme;
  authentication_key_id = some o.key_id;
  verifier_fingerprint = some o.verifier_fingerprint;
  authentication_operation_id = some o.operation_id;
  authentication_envelope_hash = some o.envelope_hash;
  authentication_proof_hash = some o.proof_hash;
  authenticated_at_utc = some o.verified_at_utc;
}

-- The event of an adjudication, as the mediator makes it.
unfoldable pub event_for :
    String → AuthenticatedOperation → AuthorizationDecision → Bool → String → Result TransitionEvent
unfolding new_receipt transition_event_from_receipt
event_for event_id o d is_accepted reason = do
  receipt ←
      new_receipt
        (record {
          run_id = event_id;
          timestamp_utc = "2026-01-01T00:00:00Z";
          application_version = "0.1.0";
        })
        (record {
          command = "mediate";
          actor = "alice";
          input_identifiers = end;
          prior_state = none;
          requested_transition = none;
          resulting_state = none;
          outcome = if is_accepted then Outcome.accepted else Outcome.rejected;
          reason = reason;
          file_hashes = end;
          authentication = some (verified_as o);
          authorization = some d;
        })
  ok (transition_event_from_receipt receipt "packet" "packet-1" none)

abbrev pub bootstrap_request : PolicyRequest
bootstrap_request = record {
  operation = bootstrap;
  grant_id = "grant_00000000000000000000000000000000";
  revocation_id = none;
  subject_principal_id = "alice";
  capability = policy_manage_capabilities;
  expected_prior_state = none;
  requested_state = none;
  scope = record { scope_version = some scope_version_1; scope = no_scope };
}

abbrev pub grant_request : PolicyRequest
grant_request = record {
  operation = grant;
  grant_id = "grant_11111111111111111111111111111111";
  revocation_id = none;
  subject_principal_id = "alice";
  capability = packet_approve;
  expected_prior_state = some awaiting_approval;
  requested_state = some approved;
  scope = record { scope_version = some scope_version_1; scope = workspace_scope };
}

abbrev pub approve_draft : AuthorityCommit
approve_draft = record {
  operation = AuthorityOperation.approve;
  packet_id = "packet-1";
  candidate_id = "cand-1";
  prior_state = awaiting_approval;
  resulting_state = approved;
  event_factory = event_for "event-3" (signed_by_alice "op-3");
  authenticated_operation = signed_by_alice "op-3";
  approval_factory = none;
  required_packet_manifest = "manifest";
  required_approval_manifest = none;
  required_approval_id = none;
  required_approval_event_id = none;
  request_scope = record { scope_version = some scope_version_1; scope = workspace_scope };
}

-- The outcome of a transaction that ends normally, and its input otherwise.
abbrev pub database_after : Database → Result (Adjudication × Database) → Database
database_after db (ok (a, db')) = db'
database_after db (err e) = db

abbrev pub boot : Result (Adjudication × Database)
boot =
    commit_capability_policy_operation digest bootstrap_request (signed_by_alice "op-1")
      (event_for "event-1" (signed_by_alice "op-1")) empty_database

abbrev pub bootstrapped : Database
bootstrapped = database_after empty_database boot

abbrev pub grant_commit : Result (Adjudication × Database)
grant_commit =
    commit_capability_policy_operation digest grant_request (signed_by_alice "op-2")
      (event_for "event-2" (signed_by_alice "op-2")) bootstrapped

abbrev pub governed : Database
governed = database_after bootstrapped grant_commit

abbrev pub is_ok : {A : Type 0} → Result A → Bool
is_ok (ok a) = true
is_ok (err e) = false

abbrev pub approve_commit : Result (Adjudication × Database)
approve_commit = commit_authority_transition digest approve_draft governed

abbrev pub approved_database : Database
approved_database = database_after governed approve_commit

-- Without the grant, the same request is refused.
abbrev pub refuse_commit : Result (Adjudication × Database)
refuse_commit = commit_authority_transition digest approve_draft bootstrapped

abbrev pub refused_database : Database
refused_database = database_after bootstrapped refuse_commit

-- A second bootstrap is refused.
abbrev pub reboot : Result (Adjudication × Database)
reboot =
    commit_capability_policy_operation digest bootstrap_request (signed_by_alice "op-2")
      (event_for "event-2" (signed_by_alice "op-2")) bootstrapped

abbrev pub was_accepted : Result (Adjudication × Database) → Bool
was_accepted (ok (a, db)) = a.accepted
was_accepted (err e) = false

abbrev pub was_allowed : Result (Adjudication × Database) → Bool
was_allowed (ok (a, db)) = is_allowed a.decision
was_allowed (err e) = true
