-- ===== src/Receipts/Fields.antt =====
-- The fields of an execution receipt (RunReceipt and AuthenticationEvidence of models.py).
use governed_signal_to_conte.Base.{Option, String, none, some, ℕ}
use governed_signal_to_conte.Json.{Fields}
use governed_signal_to_conte.Models.{AuthorizationDecision, reason_value, status_value}
use governed_signal_to_conte.Tables.{Outcome}
use governed_signal_to_conte.Workflow.{WorkflowState, state_value}

-- The authentication columns of a receipt and of an event, each nullable.
pub record AuthenticationFields : Type 0 where
  pub status : Option String
  pub principal_id : Option String
  pub scheme : Option String
  pub key_id : Option String
  pub verifier_fingerprint : Option String
  pub operation_id : Option String
  pub envelope_hash : Option String
  pub proof_hash : Option String
  pub authenticated_at_utc : Option String

-- The authorization columns of a receipt and of an event, each nullable.
pub record AuthorizationFields : Type 0 where
  pub status : Option String
  pub principal_id : Option String
  pub required_capability : Option String
  pub prior_state : Option String
  pub requested_state : Option String
  pub scope_version : Option String
  pub brand_id : Option String
  pub channel_id : Option String
  pub destination_id : Option String
  pub matching_grant_id : Option String
  pub reason_code : Option String

pub record ChainIdentity : Type 0 where
  pub chain_version : Option String
  pub chain_origin : Option String
  pub event_sequence : Option ℕ
  pub previous_event_hash : Option String
  pub event_hash : Option String

abbrev pub no_chain : ChainIdentity
no_chain = record {
  chain_version = none;
  chain_origin = none;
  event_sequence = none;
  previous_event_hash = none;
  event_hash = none;
}

pub record RunReceipt : Type 0 where
  pub run_id : String
  pub command : String
  pub timestamp_utc : String
  pub actor : String
  pub input_identifiers : Fields
  pub prior_state : Option String
  pub requested_transition : Option String
  pub resulting_state : Option String
  pub outcome : Outcome
  pub reason : String
  pub file_hashes : Fields
  pub application_version : String
  pub authentication : AuthenticationFields
  pub authorization : AuthorizationFields
  pub chain : ChainIdentity

-- `AuthenticationEvidence` (models.py).
pub data VerificationStatus : Type 0 where
  verified failed replay_rejected : VerificationStatus

unfoldable pub verification_value : VerificationStatus → String
verification_value verified = "verified"
verification_value failed = "failed"
verification_value replay_rejected = "replay_rejected"

pub record AuthenticationEvidence : Type 0 where
  pub verification_status : VerificationStatus
  pub authenticated_principal_id : Option String
  pub authentication_scheme : Option String
  pub authentication_key_id : Option String
  pub verifier_fingerprint : Option String
  pub authentication_operation_id : Option String
  pub authentication_envelope_hash : Option String
  pub authentication_proof_hash : Option String
  pub authenticated_at_utc : Option String

-- The `None if authentication is None else …` arguments of `new_receipt`.
unfoldable pub authentication_fields : Option AuthenticationEvidence → AuthenticationFields
unfolding verification_value
authentication_fields none = record {
  status = none;
  principal_id = none;
  scheme = none;
  key_id = none;
  verifier_fingerprint = none;
  operation_id = none;
  envelope_hash = none;
  proof_hash = none;
  authenticated_at_utc = none;
}
authentication_fields (some e) = record {
  status = some (verification_value e.verification_status);
  principal_id = e.authenticated_principal_id;
  scheme = e.authentication_scheme;
  key_id = e.authentication_key_id;
  verifier_fingerprint = e.verifier_fingerprint;
  operation_id = e.authentication_operation_id;
  envelope_hash = e.authentication_envelope_hash;
  proof_hash = e.authentication_proof_hash;
  authenticated_at_utc = e.authenticated_at_utc;
}

abbrev pub opt_value : Option WorkflowState → Option String
opt_value none = none
opt_value (some s) = some (state_value s)

-- The `None if authorization is None else …` arguments of `new_receipt`.
unfoldable pub authorization_fields : Option AuthorizationDecision → AuthorizationFields
unfolding status_value reason_value
authorization_fields none = record {
  status = none;
  principal_id = none;
  required_capability = none;
  prior_state = none;
  requested_state = none;
  scope_version = none;
  brand_id = none;
  channel_id = none;
  destination_id = none;
  matching_grant_id = none;
  reason_code = none;
}
authorization_fields (some d) = record {
  status = some (status_value d.status);
  principal_id = some d.principal_id;
  required_capability = some d.required_capability;
  prior_state = opt_value d.actual_prior_state;
  requested_state = opt_value d.requested_state;
  scope_version = d.scope_version;
  brand_id = d.scope.brand_id;
  channel_id = d.scope.channel_id;
  destination_id = d.scope.destination_id;
  matching_grant_id = d.matching_grant_id;
  reason_code = some (reason_value d.reason);
}
