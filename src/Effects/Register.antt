-- ===== src/Effects/Register.antt =====
-- The registrations of execution management (external_effects.py): what conflicts with one, and the
-- INSERT statements with the constraints of their tables (database.py).
use governed_signal_to_conte.Authentication.Operations.{
  BindingFields, ExecutorFields, OperationRequest, capability_policy, destination_binding,
  executor_registration, packet_transition,
}
use governed_signal_to_conte.Base.{
  Bool, Result, String, [], any, codes, err, false, integrity_error, leb, length, not, ok, raise_if,
  runtime_error, ◌&&◌, ◌++◌, ◌==◌, ◌>>◌, ◌||◌, ◌∷◌,
}
use governed_signal_to_conte.Commit.Insert.{has_event, has_id_format, has_operation, has_principal}
use governed_signal_to_conte.Effects.Tables.{
  DestinationBinding, EffectExecutor, Ledger, effect_scope_eq,
}
use governed_signal_to_conte.Receipts.Validation.{is_hash}
use governed_signal_to_conte.Scope.{is_prefix}

abbrev pub same_scope : BindingFields → DestinationBinding → Bool
same_scope b d = effect_scope_eq d.scope b.scope

abbrev pub same_target : BindingFields → DestinationBinding → Bool
same_target b d = d.adapter_id == b.adapter_id && d.external_target_ref == b.external_target_ref

abbrev pub same_executor : ExecutorFields → EffectExecutor → Bool
same_executor x e =
    e.executor_id == x.target_id
    || e.key_id == x.executor_key_id
    || e.verifier_fingerprint == x.executor_verifier_fingerprint

-- A binding of the scope or of the target, or an executor of the id, the key or the fingerprint.
unfoldable pub has_conflict : Ledger → OperationRequest → Bool
unfolding effect_scope_eq
has_conflict l (destination_binding b) =
    any (same_scope b) l.bindings || any (same_target b) l.bindings
has_conflict l (executor_registration x) = any (same_executor x) l.executors
has_conflict l (packet_transition t) = false
has_conflict l (capability_policy p) = false

-- What both rows record of the operation.
pub record Registration : Type 0 where
  pub principal_id : String
  pub operation_id : String
  pub event_id : String
  pub created_at_utc : String
  pub application_version : String

abbrev pub binding_row : BindingFields → Registration → DestinationBinding
binding_row b r = record {
  binding_id = b.target_id;
  scope = b.scope;
  adapter_id = b.adapter_id;
  external_target_ref = b.external_target_ref;
  credential_ref = b.credential_ref;
  registered_by_principal_id = r.principal_id;
  authenticated_operation_id = r.operation_id;
  registration_event_id = r.event_id;
  created_at_utc = r.created_at_utc;
  application_version = r.application_version;
}

abbrev pub executor_row : ExecutorFields → Registration → EffectExecutor
executor_row x r = record {
  executor_id = x.target_id;
  authentication_scheme = x.executor_authentication_scheme;
  key_id = x.executor_key_id;
  public_key_b64 = x.executor_public_key_b64;
  verifier_fingerprint = x.executor_verifier_fingerprint;
  allowed_adapter_ids = x.allowed_adapter_ids;
  registered_by_principal_id = r.principal_id;
  authenticated_operation_id = r.operation_id;
  registration_event_id = r.event_id;
  created_at_utc = r.created_at_utc;
  application_version = r.application_version;
}

abbrev names_registration : Ledger → Registration → Bool
names_registration l r =
    has_principal l.database r.principal_id
    && has_operation l.database r.operation_id
    && has_event l.database r.event_id

unfoldable pub insert_binding : BindingFields → Registration → Ledger → Result Ledger
unfolding has_id_format effect_scope_eq is_prefix
insert_binding b r l = do
  raise_if
      (not (
        has_id_format "bind_" 32 b.target_id
        && b.scope.scope_version == "1.0"
        && b.adapter_id == "test.capture"
        && is_prefix (codes "cred_") (codes b.credential_ref)
        && leb 6 (length (codes b.credential_ref))
        && leb (length (codes b.credential_ref)) 64))
      (integrity_error "CHECK constraint failed: external_destination_bindings")
  raise_if
      (any
        (λ d.
          d.binding_id == b.target_id
          || d.authenticated_operation_id == r.operation_id
          || d.registration_event_id == r.event_id
          || same_scope b d
          || same_target b d)
        l.bindings)
      (integrity_error "UNIQUE constraint failed: external_destination_bindings")
  raise_if (not (names_registration l r)) (integrity_error "FOREIGN KEY constraint failed")
  ok (record l { bindings = l.bindings ++ binding_row b r ∷ [] })

unfoldable pub insert_executor : ExecutorFields → Registration → Ledger → Result Ledger
unfolding is_hash is_prefix
insert_executor x r l = do
  raise_if
      (not (
        is_prefix (codes "executor_") (codes x.target_id)
        && x.executor_authentication_scheme == "ed25519"
        && is_hash x.executor_verifier_fingerprint))
      (integrity_error "CHECK constraint failed: trusted_effect_executors")
  raise_if
      (any
        (λ e.
          same_executor x e
          || e.authenticated_operation_id == r.operation_id
          || e.registration_event_id == r.event_id)
        l.executors)
      (integrity_error "UNIQUE constraint failed: trusted_effect_executors")
  raise_if (not (names_registration l r)) (integrity_error "FOREIGN KEY constraint failed")
  ok (record l { executors = l.executors ++ executor_row x r ∷ [] })

-- The row of an accepted request; the other two kinds of request do not come this far.
unfoldable pub insert_registration : OperationRequest → Registration → Ledger → Result Ledger
unfolding insert_binding insert_executor
insert_registration (destination_binding b) r l = insert_binding b r l
insert_registration (executor_registration x) r l = insert_executor x r l
insert_registration (packet_transition t) r l =
    err (runtime_error "Authenticated operation is not execution management")
insert_registration (capability_policy p) r l =
    err (runtime_error "Authenticated operation is not execution management")
