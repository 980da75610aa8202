-- ===== src/Receipts/Events.antt =====
-- New receipts, and the canonical events made from them (receipts.py). The run id of `uuid4` and
-- the time of `utc_now` come in as a `Stamp`.
use governed_signal_to_conte.Base.{Option, Result, String, ok, ◌>>◌}
use governed_signal_to_conte.Json.{Fields, get_text, sanitize_fields}
use governed_signal_to_conte.Models.{AuthorizationDecision}
use governed_signal_to_conte.Receipts.Fields.{
  AuthenticationEvidence, AuthenticationFields, AuthorizationFields, RunReceipt,
  authentication_fields, authorization_fields, no_chain,
}
use governed_signal_to_conte.Receipts.Validation.{validate_receipt}
use governed_signal_to_conte.Tables.{Outcome}

pub record Stamp : Type 0 where
  pub run_id : String
  pub timestamp_utc : String
  pub application_version : String

-- The keyword arguments of `new_receipt`.
pub record ReceiptArguments : Type 0 where
  pub command : String
  pub actor : String
  pub input_identifiers : Fields
  pub prior_state : Option String
  pub requested_transition : Option String
  pub resulting_state : Option String
  pub outcome : Outcome
  pub reason : String
  pub file_hashes : Fields
  pub authentication : Option AuthenticationEvidence
  pub authorization : Option AuthorizationDecision

unfoldable pub new_receipt : Stamp → ReceiptArguments → Result RunReceipt
unfolding authentication_fields authorization_fields validate_receipt sanitize_fields
new_receipt stamp a = do
  let receipt : RunReceipt = record {
    run_id = stamp.run_id;
    command = a.command;
    timestamp_utc = stamp.timestamp_utc;
    actor = a.actor;
    input_identifiers = sanitize_fields a.input_identifiers;
    prior_state = a.prior_state;
    requested_transition = a.requested_transition;
    resulting_state = a.resulting_state;
    outcome = a.outcome;
    reason = a.reason;
    file_hashes = a.file_hashes;
    application_version = stamp.application_version;
    authentication = authentication_fields a.authentication;
    authorization = authorization_fields a.authorization;
    chain = no_chain;
  }
  validate_receipt receipt
  ok receipt

-- A row of `transition_events`, without the projection mark; `receipt_json` holds the receipt.
pub record TransitionEvent : Type 0 where
  pub event_id : String
  pub command : String
  pub asserted_actor : String
  pub target_type : String
  pub target_id : String
  pub candidate_id : Option String
  pub packet_id : Option String
  pub prior_state : Option String
  pub requested_state : Option String
  pub resulting_state : Option String
  pub outcome : Outcome
  pub reason : String
  pub governed_hash : Option String
  pub input_identifiers_json : Fields
  pub file_hashes_json : Fields
  pub occurred_at_utc : String
  pub application_version : String
  pub receipt_json : RunReceipt
  pub authentication : AuthenticationFields
  pub authorization : AuthorizationFields

unfoldable pub transition_event_from_receipt :
    RunReceipt → String → String → Option String → TransitionEvent
unfolding get_text
transition_event_from_receipt receipt target_type target_id governed_hash = record {
  event_id = receipt.run_id;
  command = receipt.command;
  asserted_actor = receipt.actor;
  target_type = target_type;
  target_id = target_id;
  candidate_id = get_text "candidate_id" receipt.input_identifiers;
  packet_id = get_text "packet_id" receipt.input_identifiers;
  prior_state = receipt.prior_state;
  requested_state = receipt.requested_transition;
  resulting_state = receipt.resulting_state;
  outcome = receipt.outcome;
  reason = receipt.reason;
  governed_hash = governed_hash;
  input_identifiers_json = receipt.input_identifiers;
  file_hashes_json = receipt.file_hashes;
  occurred_at_utc = receipt.timestamp_utc;
  application_version = receipt.application_version;
  receipt_json = receipt;
  authentication = receipt.authentication;
  authorization = receipt.authorization;
}
