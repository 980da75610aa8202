-- ===== src/Effects/Claim.antt =====
-- `claim_external_effect` (external_effects.py): the sole execution claim of an attempt.
use governed_signal_to_conte.Base.{
  List, Option, Result, String, [], claim_error, err, if◌then◌else◌, key_error, leb, ltb, nat_eq,
  none, not, ok, or_raise, raise_if, some, text_append, value_error, ℕ, ◌&&◌, ◌+◌, ◌==◌, ◌>>=◌,
  ◌>>◌, ◌||◌, ◌∷◌,
}
use governed_signal_to_conte.Chain.Material.{Material}
use governed_signal_to_conte.Commit.Insert.{has_id_format}
use governed_signal_to_conte.Effects.Record.{
  EffectWorkspace, Host, actor_or, append_effect_event, effect_event, project_effect_event,
}
use governed_signal_to_conte.Effects.Rows.{find_request, insert_dispatch, result_of}
use governed_signal_to_conte.Effects.Tables.{
  EffectDispatch, EffectRequest, EffectResult, Ledger, LedgerTransaction, is_failed,
}
use governed_signal_to_conte.Json.{end, field, number, text}
use governed_signal_to_conte.Receipts.Events.{TransitionEvent, new_receipt}
use governed_signal_to_conte.Receipts.Fields.{RunReceipt}
use governed_signal_to_conte.Receipts.Validation.{is_hash}
use governed_signal_to_conte.Tables.{Outcome}

-- `ORDER BY d.attempt_number DESC`
abbrev pub later_of : EffectDispatch → Option EffectDispatch → EffectDispatch
later_of d none = d
later_of d (some e) = if ltb d.attempt_number e.attempt_number then e else d

-- `… WHERE d.effect_id = ? ORDER BY d.attempt_number DESC LIMIT 1`
abbrev pub latest_dispatch : List EffectDispatch → String → Option EffectDispatch
latest_dispatch [] effect_id = none
latest_dispatch (d ∷ ds) effect_id =
    let rest = latest_dispatch ds effect_id in
    if d.effect_id == effect_id then some (later_of d rest) else rest

-- What the latest claim must have come to.
unfoldable pub require_retryable : Option EffectResult → Result (Unit {0})
require_retryable none =
    err (claim_error "The active execution claim is unresolved; blind retry is prohibited")
require_retryable (some r) =
    raise_if (not (is_failed r.envelope.outcome) || not r.envelope.retry_permitted)
      (claim_error "The prior result does not permit another external-effect attempt")

-- The number of the next attempt, if there may be one.
unfoldable pub next_attempt : Ledger → String → Result ℕ
unfolding require_retryable
next_attempt l effect_id = elim (latest_dispatch l.dispatches effect_id) [
  | none ↦ ok 1
  | some latest ↦ do
    require_retryable (result_of l.results latest.dispatch_id)
    ok (latest.attempt_number + 1)
]

-- `ExternalEffectDispatch`
unfoldable pub external_effect_dispatch : EffectDispatch → Result EffectDispatch
unfolding has_id_format is_hash
external_effect_dispatch d = do
  raise_if
      (not (
        has_id_format "dispatch_" 32 d.dispatch_id
        && has_id_format "effect_" 32 d.effect_id
        && is_hash d.effect_request_hash
        && leb 1 d.attempt_number))
      (value_error "ExternalEffectDispatch is invalid")
  ok d

unfoldable pub claim_receipt :
    Host → Option String → EffectRequest → EffectDispatch → Result RunReceipt
unfolding new_receipt
claim_receipt host asserted_actor effect d = new_receipt (host.stamp) (record {
  command = "claim-external-effect";
  actor = actor_or asserted_actor host.execution_identity;
  input_identifiers = field "effect_id" (text d.effect_id) (
      field "dispatch_id" (text d.dispatch_id) (
        field "effect_request_hash" (text d.effect_request_hash) (
          field "attempt_number" (number d.attempt_number)
            (field "idempotency_key" (text effect.idempotency_key) end))));
  prior_state = some (if nat_eq d.attempt_number 1 then "REQUESTED" else "FAILED");
  requested_transition = some "DISPATCH_CLAIMED";
  resulting_state = some "DISPATCH_CLAIMED";
  outcome = Outcome.accepted;
  reason = "Acquired exclusive external-effect execution claim.";
  file_hashes = field "effect_request" (text d.effect_request_hash) end;
  authentication = none;
  authorization = none;
})

abbrev pub claim_row : Host → String → EffectRequest → ℕ → EffectDispatch
claim_row host effect_id effect attempt = record {
  dispatch_id = text_append "dispatch_" host.hex;
  effect_id = effect_id;
  effect_request_hash = effect.request_hash;
  attempt_number = attempt;
  claimed_at_utc = host.stamp.timestamp_utc;
  application_version = host.stamp.application_version;
  dispatch_event_id = host.event_id;
}

abbrev pub claim_event : Host → EffectDispatch → RunReceipt → TransitionEvent
claim_event host d receipt =
    effect_event host.event_id receipt "external_effect_dispatch" d.dispatch_id
      d.effect_request_hash

module _ (canonical_json_hash : Material → String) where
  -- The block once the attempt is known.
  unfoldable pub store_dispatch :
      Host → Option String → EffectRequest → EffectDispatch → LedgerTransaction EffectDispatch
  unfolding claim_receipt effect_event append_effect_event insert_dispatch
  store_dispatch host asserted_actor effect dispatch l = do
    receipt ← claim_receipt host asserted_actor effect dispatch
    appended ← append_effect_event canonical_json_hash (claim_event host dispatch receipt) l
    l' ← insert_dispatch dispatch appended
    ok (dispatch, l')

  -- The `with database.connect(…)` block.
  unfoldable pub claim_transaction :
      Host → String → Option String → LedgerTransaction EffectDispatch
  unfolding next_attempt external_effect_dispatch store_dispatch
  claim_transaction host effect_id asserted_actor l = do
    effect ← or_raise (find_request l effect_id) (key_error "Unknown external effect")
    attempt ← next_attempt l effect_id
    dispatch ← external_effect_dispatch (claim_row host effect_id effect attempt)
    store_dispatch host asserted_actor effect dispatch l

  unfoldable pub claim_external_effect :
      Host → String → Option String → EffectWorkspace → Result EffectDispatch × EffectWorkspace
  unfolding claim_transaction project_effect_event
  claim_external_effect host effect_id asserted_actor w =
      elim (claim_transaction host effect_id asserted_actor w.ledger) [
        | err e ↦ (err e, w)
        | ok (dispatch, l) ↦
            project_effect_event canonical_json_hash host.projected_at_utc host.event_id dispatch
              (record w { ledger = l })
      ]
