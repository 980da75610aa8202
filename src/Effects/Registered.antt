-- ===== src/Effects/Registered.antt =====
-- The parts of a registration (external_effects.py): its decision, its consumption, and its row.
use governed_signal_to_conte.Authentication.Operations.{
  BindingFields, ExecutorFields, OperationRequest, capability_policy, destination_binding,
  executor_registration, packet_transition,
}
use governed_signal_to_conte.Authorization.Active.{denied-not-allowed}
use governed_signal_to_conte.Authorization.Decision.{denied_decision}
use governed_signal_to_conte.Authorization.Evaluate.{evaluate, known}
use governed_signal_to_conte.Base.{
  >>=-eq-ok, Bool, Bool-cases, List, String, [], any, ap, arith, eq_iff, false, if◌then◌else◌, inl,
  inr, ok, ok_injective, refl, sym, true, ◌++◌, ◌==◌, ◌∙◌, ◌∷◌, ◌≡◌,
}
use governed_signal_to_conte.Chain.Material.{Material}
use governed_signal_to_conte.Commit.Frame.{append_event-frame, insert_authenticated_operation-frame}
use governed_signal_to_conte.Commit.Grants.{any-snoc_last}
use governed_signal_to_conte.Commit.Insert.{
  append_event, consumed_row, has_operation, insert_authenticated_operation,
}
use governed_signal_to_conte.Database.{Database}
use governed_signal_to_conte.Effects.Frame.{append_effect_event-frame}
use governed_signal_to_conte.Effects.Management.{
  consume_operation, denied_conflict, execution_request, management_decision,
}
use governed_signal_to_conte.Effects.Record.{append_effect_event}
use governed_signal_to_conte.Effects.Register.{
  Registration, binding_row, executor_row, has_conflict, insert_binding, insert_executor,
  insert_registration,
}
use governed_signal_to_conte.Effects.Tables.{DestinationBinding, EffectExecutor, Ledger}
use governed_signal_to_conte.Models.{
  AuthorizationDecision, capability_value, effect_manage_bindings, is_allowed,
  request_binding_rejected,
}
use governed_signal_to_conte.Receipts.Events.{TransitionEvent}
use governed_signal_to_conte.Tables.{AuthenticatedOperation, ConsumedOperation, Outcome}

binding_injective : (a b : BindingFields) → destination_binding a ≡ destination_binding b → a ≡ b
binding_injective a b h = cc

executor_injective :
    (a b : ExecutorFields) → executor_registration a ≡ executor_registration b → a ≡ b
executor_injective a b h = cc

-- The decision allows only where nothing conflicts, and then it is the policy's.
pub management_decision-allowed :
    (l : Ledger) (principal_id : String) (request : OperationRequest) (d : AuthorizationDecision)
    → management_decision l principal_id request ≡ ok d
    → is_allowed d ≡ true
    → (has_conflict l request ≡ false)
      × (evaluate l.database (known effect_manage_bindings) (execution_request principal_id) ≡ ok d)
unfolding management_decision denied_conflict denied_decision
management_decision-allowed l principal_id request d h y =
    let (e, e₁, h₁) =
      >>=-eq-ok
        (evaluate l.database (known effect_manage_bindings) (execution_request principal_id)) _ h in
    elim (Bool-cases (is_allowed e)) [
      | inl p ↦ elim (Bool-cases (has_conflict l request)) [
        | inl q ↦ absurd (
            ground (
              arith,
              y,
              denied-not-allowed (capability_value effect_manage_bindings) request_binding_rejected
                  (execution_request principal_id) d (rw (p, q, if◌then◌else◌) at h₁),
            ))
        | inr q ↦
            let same = ok_injective e d (rw (p, q, if◌then◌else◌) at h₁) in (q, e₁ ∙ ap ok same)
      ]
      | inr p ↦
          let same = ok_injective e d (rw (p, if◌then◌else◌) at h₁) in
          absurd (ground (arith, p, y, ap is_allowed same))
    ]

-- An inserted registration adds the row of its kind.
pub insert_registration-row :
    (request : OperationRequest) (r : Registration) (l l' : Ledger)
    → insert_registration request r l ≡ ok l'
    → (b : BindingFields) → request ≡ destination_binding b
    → l' ≡ record l { bindings = l.bindings ++ binding_row b r ∷ [] }
unfolding insert_registration insert_binding
insert_registration-row (destination_binding c) r l l' h b e =
    let same = binding_injective c b e in ground (arith, h, same)
insert_registration-row (executor_registration c) r l l' h b e = cc
insert_registration-row (packet_transition c) r l l' h b e = cc
insert_registration-row (capability_policy c) r l l' h b e = cc

pub insert_registration-executor :
    (request : OperationRequest) (r : Registration) (l l' : Ledger)
    → insert_registration request r l ≡ ok l'
    → (x : ExecutorFields) → request ≡ executor_registration x
    → l' ≡ record l { executors = l.executors ++ executor_row x r ∷ [] }
unfolding insert_registration insert_executor
insert_registration-executor (executor_registration c) r l l' h x e =
    let same = executor_injective c x e in ground (arith, h, same)
insert_registration-executor (destination_binding c) r l l' h x e = cc
insert_registration-executor (packet_transition c) r l l' h x e = cc
insert_registration-executor (capability_policy c) r l l' h x e = cc

-- The tables that a registration leaves alone.
pub record LeavesEffects (l l' : Ledger) : Type 0 where
  pub same_database : l'.database ≡ l.database
  pub same_requests : l'.requests ≡ l.requests
  pub same_dispatches : l'.dispatches ≡ l.dispatches
  pub same_results : l'.results ≡ l.results

bindings-LeavesEffects :
    (l l' : Ledger) (bs : List DestinationBinding)
    → l' ≡ record l { bindings = bs }
    → LeavesEffects l l'
bindings-LeavesEffects l l' bs e = record {
  same_database = ap (λ x. x.database) e;
  same_requests = ap (λ x. x.requests) e;
  same_dispatches = ap (λ x. x.dispatches) e;
  same_results = ap (λ x. x.results) e;
}

executors-LeavesEffects :
    (l l' : Ledger) (xs : List EffectExecutor)
    → l' ≡ record l { executors = xs }
    → LeavesEffects l l'
executors-LeavesEffects l l' xs e = record {
  same_database = ap (λ x. x.database) e;
  same_requests = ap (λ x. x.requests) e;
  same_dispatches = ap (λ x. x.dispatches) e;
  same_results = ap (λ x. x.results) e;
}

pub insert_registration-LeavesEffects :
    (request : OperationRequest) (r : Registration) (l l' : Ledger)
    → insert_registration request r l ≡ ok l'
    → LeavesEffects l l'
unfolding insert_registration
insert_registration-LeavesEffects (destination_binding c) r l l' h =
    bindings-LeavesEffects l l' (l.bindings ++ binding_row c r ∷ [])
      (insert_registration-row (destination_binding c) r l l' h c refl)
insert_registration-LeavesEffects (executor_registration c) r l l' h =
    executors-LeavesEffects l l' (l.executors ++ executor_row c r ∷ [])
      (insert_registration-executor (executor_registration c) r l l' h c refl)
insert_registration-LeavesEffects (packet_transition c) r l l' h = cc
insert_registration-LeavesEffects (capability_policy c) r l l' h = cc

-- The operation is new, and consumed; no other table of Ledger has changed.
pub record HasConsumed (operation_id : String) (l c : Ledger) : Type 0 where
  pub fresh : has_operation l.database operation_id ≡ false
  pub consumed : has_operation c.database operation_id ≡ true
  pub same : c ≡ record l { database = c.database }

appended-operations :
    (H : Material → String) (e : TransitionEvent) (l m : Ledger)
    → append_effect_event H e l ≡ ok m
    → m.database.authenticated_operations ≡ l.database.authenticated_operations
unfolding append_effect_event
appended-operations H e l m h =
    let (database, e₁, h₁) = >>=-eq-ok (append_event H e l.database) _ h in
    let f = append_event-frame H e l.database database e₁ in
    ap (λ x. x.database.authenticated_operations)
      (sym (ok_injective (record l { database = database }) m h₁))
    ∙ ap (λ x. x.authenticated_operations) f

abbrev with_tables : Database → Ledger → Ledger
with_tables database l = record l { database = database }

abbrev with_base : Ledger → Database → Ledger
with_base l database = record l { database = database }

pub consume_operation-HasConsumed :
    (H : Material → String) (o : AuthenticatedOperation) (e : TransitionEvent) (event_id : String)
    (outcome : Outcome) (l m c : Ledger)
    → append_effect_event H e l ≡ ok m
    → consume_operation o event_id outcome m ≡ ok c
    → HasConsumed o.operation_id l c
unfolding consume_operation
consume_operation-HasConsumed H o e event_id outcome l m c h k =
    let f = append_effect_event-frame H e l m h in
    let (database, e₁, h₁) =
      >>=-eq-ok (insert_authenticated_operation o event_id outcome m.database) _ k in
    let (fresh, g) =
      insert_authenticated_operation-frame o event_id outcome m.database database e₁ in
    let made = ok_injective (record m { database = database }) c h₁ in
    let same_operation : ConsumedOperation → Bool =
      λ x. x.operation.operation_id == o.operation_id in
    record {
      fresh = ap (any same_operation) (sym (appended-operations H e l m h)) ∙ fresh;
      consumed =
          ap (λ x. has_operation x.database o.operation_id) (sym made)
          ∙ ap (λ x. has_operation x o.operation_id) g
          ∙ any-snoc_last same_operation m.database.authenticated_operations
              (consumed_row o event_id outcome) ((eq_iff o.operation_id o.operation_id).1 refl);
      same = sym made ∙ ap (with_tables database) f ∙ ap (with_base l) (ap (λ x. x.database) made);
    }
