-- ===== src/Authentication/Consumed.antt =====
-- An operation is used once: authentication (authentication.py) and the commit of the transition that
-- it authorises (database.py) together.
use governed_signal_to_conte.Authentication.Accepted.{authenticate_authority_request-IsAuthentic}
use governed_signal_to_conte.Authentication.Operations.{
  AuthenticatedRequest, SignedOperation, consumption_record,
}
use governed_signal_to_conte.Authentication.Verify.{
  OperationEncoding, authenticate_authority_request, authenticated,
}
use governed_signal_to_conte.Base.{
  Bool-cases, String, ap, arith, eq_iff, inl, inr, ok, refl, some, some_injective, sym, true, ℕ,
  ◌==◌, ◌∙◌, ◌≡◌,
}
use governed_signal_to_conte.Chain.Material.{Material}
use governed_signal_to_conte.Commit.Admitted.{
  commit_authority_transition-accepted, commit_authority_transition-refused,
}
use governed_signal_to_conte.Commit.Authority.{
  Adjudication, AuthorityCommit, commit_authority_transition,
}
use governed_signal_to_conte.Commit.Grants.{any-snoc_last}
use governed_signal_to_conte.Commit.Insert.{consumed_row, has_operation}
use governed_signal_to_conte.Database.{Database}
use governed_signal_to_conte.Effects.Keys.{Keys}
use governed_signal_to_conte.Tables.{Outcome}

-- A consumed operation does not authenticate.
consumed-refused :
    (k : Keys) (encoding : OperationEncoding k) (current : ℕ) (db : Database)
    (signed : SignedOperation) (a : AuthenticatedRequest)
    → has_operation db signed.envelope.operation_id ≡ true
    → authenticate_authority_request k encoding current db (some signed) ≡ authenticated a
    → ⊥
consumed-refused k encoding current db signed a c h =
    let (given, same, authentic) =
      authenticate_authority_request-IsAuthentic k encoding current db (some signed) a h in
    let fresh = authentic.unconsumed in
    let named = ap (λ x. x.envelope.operation_id) (some_injective signed given same) in
    let known = ap (has_operation db) named in ground (arith, fresh, known, c)

-- A committed authority transition, allowed or denied, has consumed its operation.
commit-consumes :
    (H : Material → String) (t : AuthorityCommit) (db db' : Database) (a : Adjudication)
    → commit_authority_transition H t db ≡ ok (a, db')
    → has_operation db' t.authenticated_operation.operation_id ≡ true
commit-consumes H t db db' a h = elim (Bool-cases a.accepted) [
  | inl e ↦
      let (admitted, moved) = commit_authority_transition-accepted H t db db' a h e in
      moved.consumed
  | inr e ↦
      let (fresh, same) = commit_authority_transition-refused H t db db' a h e in
      let o = t.authenticated_operation in
      ap (λ x. has_operation x o.operation_id) same
      ∙ any-snoc_last (λ c. c.operation.operation_id == o.operation_id) db.authenticated_operations
          (consumed_row o a.event.event_id Outcome.rejected)
          ((eq_iff o.operation_id o.operation_id).1 refl)
]

-- Where an operation has authenticated, and an authority transition with its consumption record has
-- been committed, allowed or denied, the same signed operation never authenticates again on that
-- database, at any time.
pub authenticate_authority_request-once :
    (H : Material → String) (k : Keys) (encoding : OperationEncoding k) (current later : ℕ)
    (before db db' : Database) (signed : SignedOperation) (a b : AuthenticatedRequest)
    (consumed_at_utc : String) (t : AuthorityCommit) (outcome : Adjudication)
    → authenticate_authority_request k encoding current before (some signed) ≡ authenticated a
    → t.authenticated_operation ≡ consumption_record a consumed_at_utc
    → commit_authority_transition H t db ≡ ok (outcome, db')
    → ¬ (authenticate_authority_request k encoding later db' (some signed) ≡ authenticated b)
unfolding consumption_record
authenticate_authority_request-once H k encoding current later before db db' signed a b
      consumed_at_utc t outcome h o c again =
    let (given, same, authentic) =
      authenticate_authority_request-IsAuthentic k encoding current before (some signed) a h in
    let id =
      ap (λ x. x.operation_id) o
      ∙ authentic.identified
      ∙ ap (λ x. x.envelope.operation_id) (sym (some_injective signed given same)) in
    consumed-refused k encoding later db' signed b
      (ap (has_operation db') (sym id) ∙ commit-consumes H t db db' outcome c) again
