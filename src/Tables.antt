-- ===== src/Tables.antt =====
-- The tables of the SQLite schema (database.py) as lists of rows in insertion order, and the
-- connection as a transaction: an exception rolls every change back. Columns that hold JSON hold
-- the value that the JSON stands for.
use governed_signal_to_conte.Base.{String, Option, List}
use governed_signal_to_conte.Workflow.{WorkflowState}
use governed_signal_to_conte.Models.{Capability, ScopeIds}

pub record Candidate : Type 0 where
  pub candidate_id : String
  pub title : String
  pub source_url : String
  pub normalized_url : Option String
  pub source_identity : String
  pub development_identifiers : List String
  pub state : WorkflowState
  pub created_at_utc : String
  pub normalized_json : Option String
  pub classification_json : Option String

pub record Packet : Type 0 where
  pub packet_id : String
  pub candidate_id : String
  pub packet_path : String
  pub manifest_hash : String
  pub scope_version : Option String
  pub scope : ScopeIds
  pub state : WorkflowState
  pub created_at_utc : String

pub record TrustedPrincipal : Type 0 where
  pub principal_id : String
  pub authentication_scheme : String
  pub key_id : String
  pub public_key_b64 : String
  pub verifier_fingerprint : String
  pub bootstrapped_at_utc : String

pub record Approval : Type 0 where
  pub approval_id : String
  pub packet_id : String
  pub actor : String
  pub decision : String
  pub reason : String
  pub manifest_hash : String
  pub prior_state : WorkflowState
  pub decided_at_utc : String
  pub transition_event_id : String
  pub authenticated_principal_id : Option String
  pub authenticated_operation_id : Option String
  pub scope_version : Option String
  pub scope : ScopeIds

pub data Outcome : Type 0 where
  accepted rejected : Outcome

pub record AuthenticatedOperation : Type 0 where
  pub operation_id : String
  pub principal_id : String
  pub authentication_scheme : String
  pub key_id : String
  pub verifier_fingerprint : String
  pub envelope_hash : String
  pub proof_hash : String
  pub envelope_json : String
  pub signature_b64 : String
  pub verified_at_utc : String
  pub consumed_at_utc : String

-- A row of `authenticated_operations`: the operation and its adjudication.
pub record ConsumedOperation : Type 0 where
  pub operation : AuthenticatedOperation
  pub adjudication_event_id : String
  pub adjudication_outcome : Outcome

pub record CapabilityGrant : Type 0 where
  pub grant_id : String
  pub subject_principal_id : String
  pub capability : Capability
  pub expected_prior_state : Option WorkflowState
  pub requested_state : Option WorkflowState
  pub scope_version : Option String
  pub scope : ScopeIds
  pub granted_by_principal_id : String
  pub authenticated_operation_id : String
  pub policy_event_id : String
  pub created_at_utc : String
  pub application_version : String

pub record CapabilityRevocation : Type 0 where
  pub revocation_id : String
  pub grant_id : String
  pub revoked_by_principal_id : String
  pub authenticated_operation_id : String
  pub policy_event_id : String
  pub revoked_at_utc : String
  pub application_version : String

-- The one row of `capability_policy_state`.
pub record PolicyState : Type 0 where
  pub bootstrap_principal_id : String
  pub bootstrap_grant_id : String
  pub bootstrap_operation_id : String
  pub bootstrap_event_id : String
  pub bootstrapped_at_utc : String
  pub application_version : String
