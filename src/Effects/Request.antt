-- ===== src/Effects/Request.antt =====
-- The request of an external effect: its model (models.py), its hashes (effect_protocol.py) and its
-- receipt (external_effects.py).
use governed_signal_to_conte.Base.{
  Bool, Option, Result, String, codes, drop, leb, none, not, ok, raise_if, some, suc, text_append,
  value_error, zero, ℕ, ◌&&◌, ◌==◌, ◌>>◌,
}
use governed_signal_to_conte.Commit.Insert.{has_id_format}
use governed_signal_to_conte.Effects.Record.{Host, actor_or}
use governed_signal_to_conte.Effects.Release.{ReleaseEvidence}
use governed_signal_to_conte.Effects.Tables.{EffectRequest}
use governed_signal_to_conte.Json.{Fields, end, field, number, text}
use governed_signal_to_conte.Packets.Manifest.{PacketFiles}
use governed_signal_to_conte.Receipts.Events.{new_receipt}
use governed_signal_to_conte.Receipts.Fields.{RunReceipt}
use governed_signal_to_conte.Receipts.Validation.{is_hash}
use governed_signal_to_conte.Scope.{is_prefix, matches_scope_id, packet_scope}
use governed_signal_to_conte.Tables.{Outcome, Packet}

-- The JSON objects that are hashed. The request's own hash is not part of it.
pub data EffectMaterial : Type 0 where
  effect_seed : String → String → EffectMaterial
  effect_idempotency : String → String → String → EffectMaterial
  effect_request : String → EffectRequest → EffectMaterial

abbrev pub effect_request_domain : String
effect_request_domain = "GS2C_EXTERNAL_EFFECT_REQUEST_V1"

abbrev pub effect_idempotency_domain : String
effect_idempotency_domain = "GS2C_EXTERNAL_EFFECT_IDEMPOTENCY_V1"

-- `text[:n]`
unfoldable pub take_text : ℕ → String → String
take_text zero s = ""
take_text (suc n) String.[] = ""
take_text (suc n) (String.◌∷◌ c s) = String.◌∷◌ c (take_text n s)

-- The patterns of `ExternalEffectRequest`.
unfoldable pub matches_patterns : EffectRequest → Bool
unfolding has_id_format is_hash matches_scope_id is_prefix
matches_patterns q =
    has_id_format "effect_" 32 q.effect_id
    && has_id_format "grant_" 32 q.authorizing_grant_id
    && q.capability == "packet.release"
    && q.scope.scope_version == "1.0"
    && has_id_format "bind_" 32 q.destination_binding_id
    && q.adapter_id == "test.capture"
    && is_prefix (codes "cred_") (codes q.credential_ref)
    && matches_scope_id (drop 5 (codes q.credential_ref))
    && is_hash q.packet_manifest_hash
    && is_hash q.packet_receipt_hash
    && is_hash q.release_event_hash
    && leb 1 q.release_event_sequence
    && has_id_format "idem_" 64 q.idempotency_key
    && is_hash q.request_hash

-- `ExternalEffectRequest.model_validate`: the patterns, then the validator.
unfoldable pub external_effect_request : EffectRequest → Result EffectRequest
unfolding matches_patterns packet_scope
external_effect_request q = do
  raise_if (not (matches_patterns q)) (value_error "ExternalEffectRequest is invalid")
  packet_scope q.scope.brand_id q.scope.channel_id q.scope.destination_id
  ok q

unfoldable pub append_fields : Fields → Fields → Fields
append_fields end other = other
append_fields (field k v rest) other = field k v (append_fields rest other)

unfoldable pub request_identifiers : EffectRequest → Fields
request_identifiers q = field "effect_id" (text q.effect_id) (
    field "release_event_id" (text q.release_event_id) (
      field "release_event_sequence" (number q.release_event_sequence) (
        field "approval_id" (text q.approval_id) (
          field "approval_transition_event_id" (text q.approval_event_id) (
            field "packet_id" (text q.packet_id) (
              field "candidate_id" (text q.candidate_id) (
                field "authorizing_grant_id" (text q.authorizing_grant_id) (
                  field "scope_version" (text q.scope.scope_version) (
                    field "brand_id" (text q.scope.brand_id) (
                      field "channel_id" (text q.scope.channel_id) (
                        field "destination_id" (text q.scope.destination_id) (
                          field "destination_binding_id" (text q.destination_binding_id) (
                            field "adapter_id" (text q.adapter_id) (
                              field "external_target_ref" (text q.external_target_ref) (
                                field "credential_ref" (text q.credential_ref) (
                                  field "idempotency_key" (text q.idempotency_key)
                                    (field "request_hash" (text q.request_hash) end)))))))))))))))))

unfoldable pub request_receipt :
    Host → Option String → PacketFiles → EffectRequest → Result RunReceipt
unfolding new_receipt request_identifiers append_fields
request_receipt host asserted_actor files q = new_receipt (host.stamp) (record {
  command = "create-external-effect-request";
  actor = actor_or asserted_actor host.execution_identity;
  input_identifiers = request_identifiers q;
  prior_state = some "RELEASED";
  requested_transition = some "EXTERNAL_EFFECT_REQUESTED";
  resulting_state = some "RELEASED";
  outcome = Outcome.accepted;
  reason = "Derived immutable external-effect intent from canonical release authority.";
  file_hashes = append_fields files.artifact_hashes (
      field "packet_manifest" (text files.manifest_hash) (
        field "release_event" (text q.release_event_hash)
          (field "effect_request" (text q.request_hash) end)));
  authentication = none;
  authorization = none;
})

module _ (effect_hash : EffectMaterial → String) where
  unfoldable pub calculate_idempotency_key : String → String → String
  calculate_idempotency_key effect_id release_event_hash =
      text_append "idem_"
        (effect_hash (effect_idempotency effect_idempotency_domain effect_id release_event_hash))

  unfoldable pub calculate_effect_request_hash : EffectRequest → String
  calculate_effect_request_hash q = effect_hash (effect_request effect_request_domain q)

  unfoldable pub effect_id_of : String → String → String
  unfolding take_text
  effect_id_of release_event_hash binding_id =
      text_append "effect_" (take_text 32 (effect_hash (effect_seed release_event_hash binding_id)))

  -- The values of the request, without its hash.
  unfoldable pub request_values :
      Host → Packet → PacketFiles → String → ReleaseEvidence → EffectRequest
  unfolding calculate_idempotency_key effect_id_of
  request_values host p files packet_receipt_hash e =
      let effect_id = effect_id_of e.row.entry.event_hash e.binding.binding_id in
      record {
        effect_id = effect_id;
        release_event_id = e.row.event.event_id;
        packet_id = p.packet_id;
        candidate_id = p.candidate_id;
        approval_id = e.approval.approval_id;
        approval_event_id = e.approval.transition_event_id;
        authenticated_principal_id = e.authority.principal_id;
        authorizing_grant_id = e.authority.grant_id;
        capability = "packet.release";
        scope = e.binding.scope;
        destination_binding_id = e.binding.binding_id;
        adapter_id = e.binding.adapter_id;
        external_target_ref = e.binding.external_target_ref;
        credential_ref = e.binding.credential_ref;
        packet_manifest_hash = files.manifest_hash;
        packet_receipt_hash = packet_receipt_hash;
        release_event_hash = e.row.entry.event_hash;
        release_event_sequence = e.row.entry.event_sequence;
        idempotency_key = calculate_idempotency_key effect_id e.row.entry.event_hash;
        request_hash = "";
        created_at_utc = host.stamp.timestamp_utc;
        application_version = host.stamp.application_version;
        request_event_id = host.event_id;
      }

  -- The values of the request, with its hash.
  unfoldable pub derived_request :
      Host → Packet → PacketFiles → String → ReleaseEvidence → EffectRequest
  unfolding request_values calculate_effect_request_hash
  derived_request host p files packet_receipt_hash e =
      record (request_values host p files packet_receipt_hash e) {
        request_hash =
            calculate_effect_request_hash (request_values host p files packet_receipt_hash e);
      }
