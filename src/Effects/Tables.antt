-- ===== src/Effects/Tables.antt =====
-- The tables of external effects (database.py), beside the tables of the workflow.
use governed_signal_to_conte.Base.{
  Bool, List, Option, Result, String, err, false, ok, true, ℕ, ◌&&◌, ◌==◌,
}
use governed_signal_to_conte.Database.{Database}

pub record EffectScope : Type 0 where
  pub scope_version : String
  pub brand_id : String
  pub channel_id : String
  pub destination_id : String

unfoldable pub effect_scope_eq : EffectScope → EffectScope → Bool
effect_scope_eq s t =
    s.scope_version == t.scope_version
    && s.brand_id == t.brand_id
    && s.channel_id == t.channel_id
    && s.destination_id == t.destination_id

pub record DestinationBinding : Type 0 where
  pub binding_id : String
  pub scope : EffectScope
  pub adapter_id : String
  pub external_target_ref : String
  pub credential_ref : String
  pub registered_by_principal_id : String
  pub authenticated_operation_id : String
  pub registration_event_id : String
  pub created_at_utc : String
  pub application_version : String

pub record EffectExecutor : Type 0 where
  pub executor_id : String
  pub authentication_scheme : String
  pub key_id : String
  pub public_key_b64 : String
  pub verifier_fingerprint : String
  pub allowed_adapter_ids : List String
  pub registered_by_principal_id : String
  pub authenticated_operation_id : String
  pub registration_event_id : String
  pub created_at_utc : String
  pub application_version : String

pub record EffectRequest : Type 0 where
  pub effect_id : String
  pub release_event_id : String
  pub packet_id : String
  pub candidate_id : String
  pub approval_id : String
  pub approval_event_id : String
  pub authenticated_principal_id : String
  pub authorizing_grant_id : String
  pub capability : String
  pub scope : EffectScope
  pub destination_binding_id : String
  pub adapter_id : String
  pub external_target_ref : String
  pub credential_ref : String
  pub packet_manifest_hash : String
  pub packet_receipt_hash : String
  pub release_event_hash : String
  pub release_event_sequence : ℕ
  pub idempotency_key : String
  pub request_hash : String
  pub created_at_utc : String
  pub application_version : String
  pub request_event_id : String

pub record EffectDispatch : Type 0 where
  pub dispatch_id : String
  pub effect_id : String
  pub effect_request_hash : String
  pub attempt_number : ℕ
  pub claimed_at_utc : String
  pub application_version : String
  pub dispatch_event_id : String

-- `ExternalEffectOutcome` (models.py)
pub data EffectOutcome : Type 0 where
  succeeded failed unknown : EffectOutcome

unfoldable pub effect_outcome_value : EffectOutcome → String
effect_outcome_value EffectOutcome.succeeded = "SUCCEEDED"
effect_outcome_value EffectOutcome.failed = "FAILED"
effect_outcome_value EffectOutcome.unknown = "UNKNOWN"

abbrev pub is_failed : EffectOutcome → Bool
is_failed EffectOutcome.succeeded = false
is_failed EffectOutcome.failed = true
is_failed EffectOutcome.unknown = false

-- `ExecutorResultEnvelope` (models.py); a row of `external_effect_results` keeps its fields.
pub record ExecutorResult : Type 0 where
  pub result_id : String
  pub executor_id : String
  pub executor_key_id : String
  pub effect_id : String
  pub dispatch_id : String
  pub effect_request_hash : String
  pub adapter_id : String
  pub scope : EffectScope
  pub destination_binding_id : String
  pub artifact_hash : String
  pub idempotency_key : String
  pub outcome : EffectOutcome
  pub effect_may_have_occurred : Bool
  pub retry_permitted : Bool
  pub remote_reference : Option String
  pub response_hash : Option String
  pub error_code : Option String
  pub started_at_utc : String
  pub completed_at_utc : String

pub record EffectResult : Type 0 where
  pub envelope : ExecutorResult
  pub signature_b64 : String
  pub envelope_hash : String
  pub proof_hash : String
  pub result_event_id : String

pub record Ledger : Type 0 where
  pub database : Database
  pub bindings : List DestinationBinding
  pub executors : List EffectExecutor
  pub requests : List EffectRequest
  pub dispatches : List EffectDispatch
  pub results : List EffectResult

-- The body of a `with database.connect(…)` block on all tables.
abbrev pub LedgerTransaction : Type 0 → Type 0
LedgerTransaction A = Ledger → Result (A × Ledger)

-- The block as its caller sees it: an exception rolls everything back.
abbrev pub connect_ledger : {A : Type 0} → LedgerTransaction A → Ledger → Result A × Ledger
connect_ledger body l = elim (body l) [ ok (a, l') ↦ (ok a, l') | err e ↦ (err e, l) ]
