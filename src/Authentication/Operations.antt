-- ===== src/Authentication/Operations.antt =====
-- The signed envelopes (models.py) and what authentication makes of them (authentication.py). The
-- envelopes of the source repeat the fields of the header; here they share it.
use governed_signal_to_conte.Base.{List, Option, String, some}
use governed_signal_to_conte.Commit.Policy.{PolicyRequest}
use governed_signal_to_conte.Effects.Tables.{EffectScope}
use governed_signal_to_conte.Models.{AuthorityOperation, ScopeIds}
use governed_signal_to_conte.Receipts.Fields.{AuthenticationEvidence, VerificationStatus}
use governed_signal_to_conte.Tables.{AuthenticatedOperation}
use governed_signal_to_conte.Workflow.{WorkflowState}

-- `SignedOperationEnvelope`
pub record TransitionFields : Type 0 where
  pub operation : AuthorityOperation
  pub target_id : String
  pub candidate_id : String
  pub expected_prior_state : WorkflowState
  pub requested_state : WorkflowState
  pub packet_manifest_hash : String
  pub packet_receipt_hash : String
  pub approval_decision : String
  pub approval_id : String
  pub approval_transition_event_id : Option String
  pub scope_version : Option String
  pub scope : ScopeIds
  pub reason : String

-- `DestinationBindingOperationEnvelope`
pub record BindingFields : Type 0 where
  pub target_id : String
  pub scope : EffectScope
  pub adapter_id : String
  pub external_target_ref : String
  pub credential_ref : String
  pub reason : String

-- `ExecutorRegistrationOperationEnvelope`
pub record ExecutorFields : Type 0 where
  pub target_id : String
  pub executor_authentication_scheme : String
  pub executor_key_id : String
  pub executor_public_key_b64 : String
  pub executor_verifier_fingerprint : String
  pub allowed_adapter_ids : List String
  pub reason : String

pub data OperationRequest : Type 0 where
  packet_transition : TransitionFields → OperationRequest
  capability_policy : PolicyRequest → OperationRequest
  destination_binding : BindingFields → OperationRequest
  executor_registration : ExecutorFields → OperationRequest

pub record Envelope : Type 0 where
  pub operation_id : String
  pub principal_id : String
  pub authentication_scheme : String
  pub key_id : String
  pub issued_at_utc : String
  pub expires_at_utc : String
  pub request : OperationRequest

pub record SignedOperation : Type 0 where
  pub envelope : Envelope
  pub signature_b64 : String

pub record AuthenticatedPrincipal : Type 0 where
  pub principal_id : String
  pub authentication_scheme : String
  pub key_id : String
  pub verifier_fingerprint : String
  pub operation_id : String
  pub envelope_hash : String
  pub proof_hash : String
  pub authenticated_at_utc : String

-- `AuthenticatedTransitionRequest` and its siblings: the request tells which.
pub record AuthenticatedRequest : Type 0 where
  pub request : Envelope
  pub principal : AuthenticatedPrincipal
  pub envelope_json : String
  pub signature_b64 : String

unfoldable pub evidence : AuthenticatedRequest → VerificationStatus → AuthenticationEvidence
evidence a status = record {
  verification_status = status;
  authenticated_principal_id = some a.principal.principal_id;
  authentication_scheme = some a.principal.authentication_scheme;
  authentication_key_id = some a.principal.key_id;
  verifier_fingerprint = some a.principal.verifier_fingerprint;
  authentication_operation_id = some a.principal.operation_id;
  authentication_envelope_hash = some a.principal.envelope_hash;
  authentication_proof_hash = some a.principal.proof_hash;
  authenticated_at_utc = some a.principal.authenticated_at_utc;
}

unfoldable pub consumption_record : AuthenticatedRequest → String → AuthenticatedOperation
consumption_record a consumed_at_utc = record {
  operation_id = a.principal.operation_id;
  principal_id = a.principal.principal_id;
  authentication_scheme = a.principal.authentication_scheme;
  key_id = a.principal.key_id;
  verifier_fingerprint = a.principal.verifier_fingerprint;
  envelope_hash = a.principal.envelope_hash;
  proof_hash = a.principal.proof_hash;
  envelope_json = a.envelope_json;
  signature_b64 = a.signature_b64;
  verified_at_utc = a.principal.authenticated_at_utc;
  consumed_at_utc = consumed_at_utc;
}
