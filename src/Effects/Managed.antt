-- ===== src/Effects/Managed.antt =====
-- What a registration (external_effects.py) has checked, and what it leaves.
use governed_signal_to_conte.Authentication.Operations.{
  AuthenticatedRequest, BindingFields, ExecutorFields, consumption_record, destination_binding,
  evidence, executor_registration,
}
use governed_signal_to_conte.Authorization.Active.{Names, evaluate-Names}
use governed_signal_to_conte.Authorization.Evaluate.{known}
use governed_signal_to_conte.Base.{
  >>=-eq-ok, Bool-cases, Result, String, [], ap, arith, err, false, if◌then◌else◌, inl, inr, ok,
  ok_injective, subst, sym, true, ◌++◌, ◌>>=◌, ◌>>◌, ◌∙◌, ◌∷◌, ◌≡◌,
}
use governed_signal_to_conte.Chain.Material.{Material}
use governed_signal_to_conte.Commit.Admitted.{known-Names}
use governed_signal_to_conte.Commit.Insert.{has_operation, validate_authorization_event}
use governed_signal_to_conte.Commit.Policy.{granted}
use governed_signal_to_conte.Effects.Management.{
  Target, consume_operation, execution_request, management_decision, management_event,
  management_receipt, management_transaction, outcome_of, record_management, registration_of,
}
use governed_signal_to_conte.Effects.Record.{Host, append_effect_event}
use governed_signal_to_conte.Effects.Register.{
  binding_row, executor_row, has_conflict, insert_registration,
}
use governed_signal_to_conte.Effects.Registered.{
  HasConsumed, consume_operation-HasConsumed, insert_registration-LeavesEffects,
  insert_registration-executor, insert_registration-row, management_decision-allowed,
}
use governed_signal_to_conte.Effects.Tables.{Ledger}
use governed_signal_to_conte.Models.{AuthorizationDecision, effect_manage_bindings, is_allowed}
use governed_signal_to_conte.Receipts.Fields.{RunReceipt, VerificationStatus}

-- An allowed registration conflicts with none and adds one row; a refused one adds none.
pub record IsManaged (a : AuthenticatedRequest) (d : AuthorizationDecision) (host : Host)
    (l l' : Ledger) : Type 0 where
  pub fresh : has_operation l.database a.principal.operation_id ≡ false
  pub consumed : has_operation l'.database a.principal.operation_id ≡ true
  pub allowed_only :
      is_allowed d ≡ true
      → (has_conflict l a.request.request ≡ false)
        × Names l.database effect_manage_bindings (execution_request a.principal.principal_id) d
        × ((b : BindingFields)
            → a.request.request ≡ destination_binding b
            → (l'.bindings ≡ l.bindings ++ binding_row b (registration_of host a) ∷ [])
              × (l'.executors ≡ l.executors))
        × ((x : ExecutorFields)
            → a.request.request ≡ executor_registration x
            → (l'.executors ≡ l.executors ++ executor_row x (registration_of host a) ∷ [])
              × (l'.bindings ≡ l.bindings))
  pub refused_otherwise :
      is_allowed d ≡ false → (l'.bindings ≡ l.bindings) × (l'.executors ≡ l.executors)
  pub effects_kept :
      (l'.requests ≡ l.requests) × (l'.dispatches ≡ l.dispatches) × (l'.results ≡ l.results)

-- The rows of an allowed registration, after the consumption of its operation.
allowed-IsManaged :
    (a : AuthenticatedRequest) (d : AuthorizationDecision) (host : Host) (l c l' : Ledger)
    → HasConsumed a.principal.operation_id l c
    → is_allowed d ≡ true
    → (has_conflict l a.request.request ≡ false)
      × Names l.database effect_manage_bindings (execution_request a.principal.principal_id) d
    → insert_registration a.request.request (registration_of host a) c ≡ ok l'
    → IsManaged a d host l l'
allowed-IsManaged a d host l c l' s y (q, names) h =
    let r = registration_of host a in
    let left = insert_registration-LeavesEffects a.request.request r c l' h in
    record {
      fresh = s.fresh;
      consumed = ap (λ x. has_operation x a.principal.operation_id) left.same_database ∙ s.consumed;
      allowed_only = λ _. (
        q,
        names,
        (λ b e.
            let row = insert_registration-row a.request.request r c l' h b e in
            (
              ap (λ x. x.bindings) row ∙ ap (λ x. x.bindings ++ binding_row b r ∷ []) s.same,
              ap (λ x. x.executors) row ∙ ap (λ x. x.executors) s.same,
            )),
        (λ x e.
            let row = insert_registration-executor a.request.request r c l' h x e in
            (
              ap (λ z. z.executors) row ∙ ap (λ z. z.executors ++ executor_row x r ∷ []) s.same,
              ap (λ z. z.bindings) row ∙ ap (λ z. z.bindings) s.same,
            )),
      );
      refused_otherwise = λ n. absurd (ground (arith, n, y));
      effects_kept = (
        left.same_requests ∙ ap (λ x. x.requests) s.same,
        left.same_dispatches ∙ ap (λ x. x.dispatches) s.same,
        left.same_results ∙ ap (λ x. x.results) s.same,
      );
    }

refused-IsManaged :
    (a : AuthenticatedRequest) (d : AuthorizationDecision) (host : Host) (l c l' : Ledger)
    → HasConsumed a.principal.operation_id l c
    → is_allowed d ≡ false
    → c ≡ l'
    → IsManaged a d host l l'
refused-IsManaged a d host l c l' s n e =
    let kept : l' ≡ record l { database = c.database } = sym e ∙ s.same in
    record {
      fresh = s.fresh;
      consumed = ap (λ x. has_operation x.database a.principal.operation_id) (sym e) ∙ s.consumed;
      allowed_only = λ y. absurd (ground (arith, n, y));
      refused_otherwise = λ _. (ap (λ x. x.bindings) kept, ap (λ x. x.executors) kept);
      effects_kept =
          (ap (λ x. x.requests) kept, ap (λ x. x.dispatches) kept, ap (λ x. x.results) kept);
    }

abbrev decided : AuthorizationDecision → Ledger → AuthorizationDecision × Ledger
decided d l = (d, l)

abbrev management_rest :
    (Material → String)
    → Host
    → AuthenticatedRequest
    → Target
    → String
    → AuthorizationDecision
    → Ledger
    → RunReceipt
    → Result (AuthorizationDecision × Ledger)
management_rest H host a t consumed_at_utc d l receipt =
    validate_authorization_event (management_event t receipt) d
      (consumption_record a consumed_at_utc) (outcome_of (is_allowed d))
    >> (append_effect_event H (management_event t receipt) l >>= λ appended.
        consume_operation (consumption_record a consumed_at_utc) host.stamp.run_id
          (outcome_of (is_allowed d)) appended
        >>= λ consumed.
            (if is_allowed d
              then insert_registration a.request.request (registration_of host a) consumed
              else ok consumed)
            >>= λ next. ok (decided d next))

module _ (H : Material → String) (host : Host) (a : AuthenticatedRequest) (t : Target)
    (consumed_at_utc : String) (d d' : AuthorizationDecision) (l l' : Ledger) where
  rest-IsManaged :
      (receipt : RunReceipt)
      → (is_allowed d ≡ true
          → (has_conflict l a.request.request ≡ false)
            × Names l.database effect_manage_bindings
                (execution_request a.principal.principal_id)
                d)
      → management_rest H host a t consumed_at_utc d l receipt ≡ ok (d', l')
      → (d ≡ d') × IsManaged a d host l l'
  unfolding consumption_record
  rest-IsManaged receipt granted h =
      let event = management_event t receipt in
      let o = consumption_record a consumed_at_utc in
      let outcome = outcome_of (is_allowed d) in
      let (u, e₁, h₁) = >>=-eq-ok (validate_authorization_event event d o outcome) _ h in
      let (m, e₂, h₂) = >>=-eq-ok (append_effect_event H event l) _ h₁ in
      let (c, e₃, h₃) = >>=-eq-ok (consume_operation o host.stamp.run_id outcome m) _ h₂ in
      let s = consume_operation-HasConsumed H o event host.stamp.run_id outcome l m c e₂ e₃ in
      let write =
        if is_allowed d
        then insert_registration a.request.request (registration_of host a) c
        else ok c in
      let (next, e₄, h₄) = >>=-eq-ok write _ h₃ in
      let same = ok_injective (decided d next) (decided d' l') h₄ in
      let written : write ≡ ok l' = e₄ ∙ ap (λ x. ok (x.1)) same in
      (
        ap (λ x. x.0) same,
        elim (Bool-cases (is_allowed d)) [
          | inl y ↦
              allowed-IsManaged a d host l c l' s y (granted y) (rw (y, if◌then◌else◌) at written)
          | inr n ↦
              refused-IsManaged a d host l c l' s n
                (ok_injective c l' (rw (n, if◌then◌else◌) at written))
        ],
      )

  made-IsManaged :
      (made : Result RunReceipt)
      → (is_allowed d ≡ true
          → (has_conflict l a.request.request ≡ false)
            × Names l.database effect_manage_bindings
                (execution_request a.principal.principal_id)
                d)
      → (made >>= management_rest H host a t consumed_at_utc d l) ≡ ok (d', l')
      → (d ≡ d') × IsManaged a d host l l'
  made-IsManaged (ok receipt) granted h = rest-IsManaged receipt granted h
  made-IsManaged (err e) granted h = cc

  record_management-IsManaged :
      (asserted_actor : String)
      → (is_allowed d ≡ true
          → (has_conflict l a.request.request ≡ false)
            × Names l.database effect_manage_bindings
                (execution_request a.principal.principal_id)
                d)
      → record_management H host a t asserted_actor consumed_at_utc d l ≡ ok (d', l')
      → (d ≡ d') × IsManaged a d host l l'
  unfolding record_management
  record_management-IsManaged asserted_actor granted h =
      made-IsManaged
        (management_receipt host asserted_actor t (evidence a VerificationStatus.verified) d)
        granted h

-- Where the transaction of a registration ends normally: its operation had not been consumed, and is
-- now. If the decision allows, the principal has an active grant to manage bindings, no binding or
-- executor that is there conflicts with the request, and exactly the row of the request is added. If
-- it does not, bindings and executors stay. Requests, claims and results stay in any case.
pub management_transaction-IsManaged :
    (H : Material → String) (host : Host) (a : AuthenticatedRequest) (t : Target)
    (asserted_actor consumed_at_utc : String) (d : AuthorizationDecision) (l l' : Ledger)
    → management_transaction H host a t asserted_actor consumed_at_utc l ≡ ok (d, l')
    → IsManaged a d host l l'
unfolding management_transaction
management_transaction-IsManaged H host a t asserted_actor consumed_at_utc d l l' h =
    let (e, e₁, h₁) =
      >>=-eq-ok (management_decision l a.principal.principal_id a.request.request) _ h in
    let granted : is_allowed e ≡ true
        → (has_conflict l a.request.request ≡ false)
          × Names l.database effect_manage_bindings (execution_request a.principal.principal_id) e =
      λ y.
        let (q, f) =
          management_decision-allowed l a.principal.principal_id a.request.request e e₁ y in
        let (k, p, policy, names) =
          evaluate-Names l.database (known effect_manage_bindings)
            (execution_request a.principal.principal_id) e f y in
        (
          q,
          known-Names l.database effect_manage_bindings k
              (execution_request a.principal.principal_id) e p names,
        ) in
    let (same, managed) =
      record_management-IsManaged H host a t consumed_at_utc e d l l' asserted_actor granted h₁ in
    subst (λ x. IsManaged a x host l l') same managed
