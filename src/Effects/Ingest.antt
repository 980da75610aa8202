-- ===== src/Effects/Ingest.antt =====
-- `record_signed_executor_result` (external_effects.py): a signed result of an attempt is verified,
-- compared with the request and the claim it names, and stored.
use governed_signal_to_conte.Base.{
  Bool, Option, Result, String, any, effect_error, err, find_first, none, not, ok, or_raise,
  raise_if, runtime_error, some, text_append, ◌&&◌, ◌==◌, ◌>>=◌, ◌>>◌,
}
use governed_signal_to_conte.Chain.Material.{Material}
use governed_signal_to_conte.Effects.Keys.{
  Keys, ResultEncoding, ResultProof, SignedResult, verify_executor_result_signature,
}
use governed_signal_to_conte.Effects.Record.{
  EffectWorkspace, Host, actor_or, append_effect_event, effect_event, project_effect_event,
}
use governed_signal_to_conte.Effects.Rows.{find_dispatch, find_request, insert_result, result_of}
use governed_signal_to_conte.Effects.Tables.{
  EffectDispatch, EffectRequest, EffectResult, ExecutorResult, LedgerTransaction,
  effect_outcome_value, effect_scope_eq,
}
use governed_signal_to_conte.Json.{Fields, Value, end, field, flag, null, text}
use governed_signal_to_conte.Receipts.Events.{TransitionEvent, new_receipt}
use governed_signal_to_conte.Receipts.Fields.{RunReceipt}
use governed_signal_to_conte.Tables.{Outcome}

-- The fields of `expected` that differ, and the two comparisons with the claim.
unfoldable pub has_mismatches : ExecutorResult → EffectRequest → EffectDispatch → Bool
unfolding effect_scope_eq
has_mismatches r q d = not (
    r.effect_id == q.effect_id
    && r.effect_request_hash == q.request_hash
    && r.adapter_id == q.adapter_id
    && effect_scope_eq r.scope q.scope
    && r.destination_binding_id == q.destination_binding_id
    && r.artifact_hash == q.packet_manifest_hash
    && r.idempotency_key == q.idempotency_key
    && d.effect_id == r.effect_id
    && d.effect_request_hash == r.effect_request_hash)

abbrev optional_text : Option String → Value
optional_text none = null
optional_text (some s) = text s

-- `**({} if response_hash is None else {"provider_response": response_hash})`
abbrev provider_response : Option String → Fields
provider_response none = end
provider_response (some h) = field "provider_response" (text h) end

unfoldable pub result_identifiers : ExecutorResult → ResultProof → Fields
unfolding effect_outcome_value
result_identifiers r proof = field "effect_id" (text r.effect_id) (
    field "dispatch_id" (text r.dispatch_id) (
      field "result_id" (text r.result_id) (
        field "executor_id" (text r.executor_id) (
          field "executor_key_id" (text r.executor_key_id) (
            field "effect_request_hash" (text r.effect_request_hash) (
              field "destination_binding_id" (text r.destination_binding_id) (
                field "adapter_id" (text r.adapter_id) (
                  field "idempotency_key" (text r.idempotency_key) (
                    field "effect_outcome" (text (effect_outcome_value r.outcome)) (
                      field "effect_may_have_occurred" (flag r.effect_may_have_occurred) (
                        field "retry_permitted" (flag r.retry_permitted) (
                          field "remote_reference" (optional_text r.remote_reference) (
                            field "response_hash" (optional_text r.response_hash) (
                              field "error_code" (optional_text r.error_code) (
                                field "executor_envelope_hash" (text proof.envelope_hash) (
                                  field "executor_proof_hash" (text proof.proof_hash)
                                    end))))))))))))))))

unfoldable pub result_receipt :
    Host → Option String → ExecutorResult → ResultProof → Result RunReceipt
unfolding new_receipt result_identifiers effect_outcome_value
result_receipt host asserted_actor r proof = new_receipt (host.stamp) (record {
  command = "record-external-effect-result";
  actor = actor_or asserted_actor (text_append "executor:" r.executor_id);
  input_identifiers = result_identifiers r proof;
  prior_state = some "DISPATCH_CLAIMED";
  requested_transition = some (effect_outcome_value r.outcome);
  resulting_state = some (effect_outcome_value r.outcome);
  outcome = Outcome.accepted;
  reason = "Verified executor-signed external-effect result.";
  file_hashes = field "effect_request" (text r.effect_request_hash) (
      field "packet_manifest" (text r.artifact_hash) (
        field "executor_envelope" (text proof.envelope_hash)
          (field "executor_proof" (text proof.proof_hash) (provider_response r.response_hash))));
  authentication = none;
  authorization = none;
})

-- The row that is returned, and whether the transaction has stored it.
pub data Recorded : Type 0 where
  existing_result stored_result : EffectResult → Recorded

abbrev pub result_row : SignedResult → ResultProof → String → EffectResult
result_row signed proof event_id = record {
  envelope = signed.envelope;
  signature_b64 = signed.signature_b64;
  envelope_hash = proof.envelope_hash;
  proof_hash = proof.proof_hash;
  result_event_id = event_id;
}

abbrev pub result_event : Host → SignedResult → RunReceipt → TransitionEvent
result_event host signed receipt =
    effect_event host.event_id receipt "external_effect_result" signed.envelope.result_id
      signed.envelope.effect_request_hash

module _ (canonical_json_hash : Material → String) (k : Keys) (encoding : ResultEncoding k) where
  -- The block where the claim has no result.
  unfoldable pub store_result :
      Host
      → SignedResult
      → Option String
      → ResultProof
      → EffectRequest
      → EffectDispatch
      → LedgerTransaction Recorded
  unfolding has_mismatches result_receipt effect_event append_effect_event insert_result
  store_result host signed asserted_actor proof effect dispatch l = do
    raise_if (has_mismatches signed.envelope effect dispatch)
        (effect_error "Executor result binding mismatch")
    receipt ← result_receipt host asserted_actor signed.envelope proof
    appended ← append_effect_event canonical_json_hash (result_event host signed receipt) l
    l' ← insert_result (result_row signed proof host.event_id) appended
    result ←
        or_raise (find_first (λ r. r.envelope.result_id == signed.envelope.result_id) l'.results)
          (runtime_error "The result was not stored")
    ok (stored_result result, l')

  -- The block once the claim is known: a result is stored once, and read again ever after.
  unfoldable pub answer_claim :
      Host
      → SignedResult
      → Option String
      → ResultProof
      → EffectRequest
      → EffectDispatch
      → LedgerTransaction Recorded
  unfolding store_result
  answer_claim host signed asserted_actor proof effect dispatch l =
      elim (result_of l.results signed.envelope.dispatch_id) [
        | some existing ↦ do
          raise_if (not (existing.proof_hash == proof.proof_hash))
              (effect_error "Execution claim already has an immutable result")
          ok (existing_result existing, l)
        | none ↦ store_result host signed asserted_actor proof effect dispatch l
      ]

  -- The `with database.connect(…)` block.
  unfoldable pub result_transaction :
      Host → SignedResult → Option String → LedgerTransaction Recorded
  unfolding verify_executor_result_signature answer_claim
  result_transaction host signed asserted_actor l = do
    let envelope = signed.envelope
    executor ←
        or_raise (find_first (λ x. x.executor_id == envelope.executor_id) l.executors)
          (effect_error "Executor identity is not trusted")
    proof ← verify_executor_result_signature k encoding signed executor
    raise_if (not (any (λ a. a == envelope.adapter_id) executor.allowed_adapter_ids))
        (effect_error "Executor is not registered for this adapter")
    dispatch ←
        or_raise (find_dispatch l envelope.dispatch_id)
          (effect_error "Executor result targets an unknown effect claim")
    effect ←
        or_raise (find_request l envelope.effect_id)
          (effect_error "Executor result targets an unknown effect claim")
    answer_claim host signed asserted_actor proof effect dispatch l

  unfoldable pub record_signed_executor_result :
      Host → SignedResult → Option String → EffectWorkspace → Result EffectResult × EffectWorkspace
  unfolding result_transaction project_effect_event
  record_signed_executor_result host signed asserted_actor w =
      elim (result_transaction host signed asserted_actor w.ledger) [
        | err e ↦ (err e, w)
        | ok (existing_result r, l) ↦ (ok r, record w { ledger = l })
        | ok (stored_result r, l) ↦
            project_effect_event canonical_json_hash host.projected_at_utc host.event_id r
              (record w { ledger = l })
      ]
