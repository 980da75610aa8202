-- ===== src/EffectScenario.antt =====
-- A workspace for the examples: a released packet with a binding and a registered executor, and the
-- calls that request its effect, claim it, fail it, and claim it again.
use governed_signal_to_conte.Base.{
  Result, String, [], err, false, none, ok, some, text_append, true, ◌==◌, ◌>>=◌, ◌∷◌,
}
use governed_signal_to_conte.Commit.Insert.{append_event}
use governed_signal_to_conte.Database.{Database}
use governed_signal_to_conte.Effects.Claim.{claim_external_effect}
use governed_signal_to_conte.Effects.Create.{create_external_effect_request}
use governed_signal_to_conte.Effects.Ingest.{record_signed_executor_result}
use governed_signal_to_conte.Effects.Keys.{Keys, ResultEncoding, SignedResult}
use governed_signal_to_conte.Effects.Record.{EffectWorkspace, Host}
use governed_signal_to_conte.Effects.Request.{EffectMaterial}
use governed_signal_to_conte.Effects.Tables.{
  DestinationBinding, EffectDispatch, EffectExecutor, EffectOutcome, EffectRequest, EffectResult,
  EffectScope, ExecutorResult,
}
use governed_signal_to_conte.Json.{end, field, text}
use governed_signal_to_conte.Models.{AuthorizationDecision, active_grant, allowed, packet_release}
use governed_signal_to_conte.Packets.Manifest.{PacketFiles}
use governed_signal_to_conte.Receipts.Events.{
  TransitionEvent, new_receipt, transition_event_from_receipt,
}
use governed_signal_to_conte.Scenario.{
  digest, draft, empty_database, signed_by_alice, verified_as, workspace_scope,
}
use governed_signal_to_conte.Tables.{Approval, CapabilityGrant, Outcome, Packet}
use governed_signal_to_conte.Workflow.{approved, awaiting_approval, released}

abbrev pub zeros : String
zeros = "0000000000000000000000000000000000000000000000000000000000000000"

abbrev pub the_effect : String
the_effect = "effect_00000000000000000000000000000000"

abbrev pub the_scope : EffectScope
the_scope = record {
  scope_version = "1.0";
  brand_id = "acme";
  channel_id = "web";
  destination_id = "blog.main";
}

abbrev pub the_binding : DestinationBinding
the_binding = record {
  binding_id = "bind_00000000000000000000000000000000";
  scope = the_scope;
  adapter_id = "test.capture";
  external_target_ref = "blog";
  credential_ref = "cred_blog";
  registered_by_principal_id = "alice";
  authenticated_operation_id = "op-1";
  registration_event_id = "event-b";
  created_at_utc = "2026-01-01T00:00:00Z";
  application_version = "0.1.0";
}

abbrev pub the_executor : EffectExecutor
the_executor = record {
  executor_id = "executor_one";
  authentication_scheme = "ed25519";
  key_id = "ed25519:key";
  public_key_b64 = "key";
  verifier_fingerprint = "key";
  allowed_adapter_ids = "test.capture" ∷ [];
  registered_by_principal_id = "alice";
  authenticated_operation_id = "op-2";
  registration_event_id = "event-x";
  created_at_utc = "2026-01-01T00:00:00Z";
  application_version = "0.1.0";
}

-- The grant, approval and packet of a release.
abbrev pub release_grant : CapabilityGrant
release_grant = record {
  grant_id = "grant_11111111111111111111111111111111";
  subject_principal_id = "alice";
  capability = packet_release;
  expected_prior_state = some approved;
  requested_state = some released;
  scope_version = some "1.0";
  scope = workspace_scope;
  granted_by_principal_id = "alice";
  authenticated_operation_id = "op-2";
  policy_event_id = "event-g";
  created_at_utc = "2026-01-01T00:00:00Z";
  application_version = "0.1.0";
}

abbrev pub release_approval : Approval
release_approval = record {
  approval_id = "approval-1";
  packet_id = "packet-1";
  actor = "alice";
  decision = "APPROVED";
  reason = "";
  manifest_hash = zeros;
  prior_state = awaiting_approval;
  decided_at_utc = "2026-01-01T00:00:00Z";
  transition_event_id = "event-g";
  authenticated_principal_id = some "alice";
  authenticated_operation_id = some "op-3";
  scope_version = some "1.0";
  scope = workspace_scope;
}

abbrev pub released_packet : Packet
released_packet = record draft { manifest_hash = zeros; state = released }

abbrev pub release_decision : AuthorizationDecision
release_decision = record {
  status = allowed;
  principal_id = "alice";
  required_capability = "packet.release";
  actual_prior_state = some approved;
  requested_state = some released;
  scope_version = some "1.0";
  scope = workspace_scope;
  matching_grant_id = some release_grant.grant_id;
  reason = active_grant;
}

-- A canonical event of that history.
unfoldable pub past_event : String → String → Result TransitionEvent
unfolding new_receipt transition_event_from_receipt
past_event event_id command = do
  receipt ←
      new_receipt
        (record {
          run_id = event_id;
          timestamp_utc = "2026-01-01T00:00:00Z";
          application_version = "0.1.0";
        })
        (record {
          command = command;
          actor = "alice";
          input_identifiers = field "packet_id" (text "packet-1") (
              field "approval_id" (text "approval-1")
                (field "approval_transition_event_id" (text "event-g") end));
          prior_state = some "APPROVED";
          requested_transition = some "RELEASED";
          resulting_state = some "RELEASED";
          outcome = Outcome.accepted;
          reason = "";
          file_hashes = end;
          authentication = some (verified_as (signed_by_alice "op-4"));
          authorization = some release_decision;
        })
  ok (transition_event_from_receipt receipt "packet" "packet-1" none)

abbrev database_or : Database → Result Database → Database
database_or db (ok db') = db'
database_or db (err e) = db

unfoldable pub past_events : Result Database
unfolding past_event append_event
past_events = do
  first ← past_event "event-g" "grant"
  db ← append_event digest first empty_database
  second ← past_event "event-r" "release"
  append_event digest second db

abbrev pub released_database : Database
released_database = record (database_or empty_database past_events) {
  packets = released_packet ∷ [];
  approvals = release_approval ∷ [];
  capability_grants = release_grant ∷ [];
}

abbrev pub effect_digest : EffectMaterial → String
effect_digest m = zeros

abbrev pub released_workspace : EffectWorkspace
released_workspace = record {
  ledger = record {
    database = released_database;
    bindings = the_binding ∷ [];
    executors = the_executor ∷ [];
    requests = [];
    dispatches = [];
    results = [];
  };
  receipt_log = [];
}

abbrev pub the_packet_files : PacketFiles
the_packet_files = record {
  artifact_hashes = field "packet_receipt.json" (text zeros) end;
  manifest_hash = zeros;
}

-- The packet's files, at both reads.
abbrev pub the_files : Packet → Result PacketFiles
the_files p = ok the_packet_files

-- A stand-in for the packages: a signature is the key, then the message.
abbrev pub plain_keys : Keys
plain_keys = record {
  Bytes = String;
  PublicKey = String;
  b64decode = some;
  b64encode = λ b. b;
  from_public_bytes = some;
  public_bytes = λ p. p;
  verify = λ p s m. s == text_append p m;
  sha256 = λ b. b;
}

abbrev pub plain_encoding : ResultEncoding plain_keys
plain_encoding = record {
  canonical_executor_result = λ r. r.result_id;
  canonical_signed_result = λ s. s.signature_b64;
}

abbrev pub host_at : String → String → Host
host_at hex event_id = record {
  hex = hex;
  event_id = event_id;
  stamp = record {
    run_id = "run";
    timestamp_utc = "2026-01-02T00:00:00Z";
    application_version = "0.1.0";
  };
  execution_identity = "operator";
  projected_at_utc = "2026-01-02T00:00:01Z";
}

abbrev pub first_host : Host
first_host = host_at "00000000000000000000000000000001" "event-1"

abbrev pub result_host : Host
result_host = host_at "00000000000000000000000000000002" "event-2"

abbrev pub second_host : Host
second_host = host_at "00000000000000000000000000000003" "event-3"

abbrev pub failure : ExecutorResult
failure = record {
  result_id = "result_00000000000000000000000000000000";
  executor_id = "executor_one";
  executor_key_id = "ed25519:key";
  effect_id = the_effect;
  dispatch_id = "dispatch_00000000000000000000000000000001";
  effect_request_hash = zeros;
  adapter_id = "test.capture";
  scope = the_scope;
  destination_binding_id = the_binding.binding_id;
  artifact_hash = zeros;
  idempotency_key = text_append "idem_" zeros;
  outcome = EffectOutcome.failed;
  effect_may_have_occurred = false;
  retry_permitted = true;
  remote_reference = none;
  response_hash = none;
  error_code = some "REFUSED";
  started_at_utc = "2026-01-02T00:00:00Z";
  completed_at_utc = "2026-01-02T00:00:00Z";
}

abbrev pub signed_failure : SignedResult
signed_failure = record {
  envelope = failure;
  signature_b64 = "keyresult_00000000000000000000000000000000";
}

abbrev pub request_host : Host
request_host = host_at "00000000000000000000000000000000" "event-0"

abbrev pub ask : EffectWorkspace → Result EffectRequest × EffectWorkspace
ask w =
    create_external_effect_request digest effect_digest request_host "packet-1" none the_files
      the_files w

abbrev pub requested_workspace : EffectWorkspace
requested_workspace = (ask released_workspace).1

abbrev pub claim : Host → EffectWorkspace → Result EffectDispatch × EffectWorkspace
claim host w = claim_external_effect digest host the_effect none w

abbrev pub claimed_once : EffectWorkspace
claimed_once = (claim first_host requested_workspace).1

abbrev pub report : Host → EffectWorkspace → Result EffectResult × EffectWorkspace
report host w =
    record_signed_executor_result digest plain_keys plain_encoding host signed_failure none w

abbrev pub failed_once : EffectWorkspace
failed_once = (report result_host claimed_once).1

abbrev pub claimed_again : EffectWorkspace
claimed_again = (claim second_host failed_once).1
