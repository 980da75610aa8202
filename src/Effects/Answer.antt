-- ===== src/Effects/Answer.antt =====
-- What `record_signed_executor_result` has checked, and what it leaves, where it does not raise.
use governed_signal_to_conte.Base.{
  >>=-eq-ok, Bool, List, Option, Option-cases, Result, String, [], any, ap, arith, effect_error,
  eq_iff, err, false, find_first, inl, inr, none, not, not-false, ok, ok_injective, or_raise,
  or_raise-some, raise_if, raise_if-false, refl, runtime_error, some, some_injective, sym, true,
  ◌++◌, ◌==◌, ◌>>=◌, ◌>>◌, ◌∙◌, ◌∷◌, ◌≡◌, ◌⊎◌,
}
use governed_signal_to_conte.Chain.Material.{Material}
use governed_signal_to_conte.Database.{Database}
use governed_signal_to_conte.Effects.Frame.{
  InsertedResult, append_effect_event-frame, insert_result-InsertedResult,
}
use governed_signal_to_conte.Effects.Ingest.{
  Recorded, answer_claim, existing_result, has_mismatches, result_event, result_receipt, result_row,
  result_transaction, store_result, stored_result,
}
use governed_signal_to_conte.Effects.Keys.{
  Keys, ResultEncoding, ResultProof, SignedResult, verify_executor_result_signature,
}
use governed_signal_to_conte.Effects.Record.{Host, append_effect_event}
use governed_signal_to_conte.Effects.Rows.{find_dispatch, find_request, insert_result, result_of}
use governed_signal_to_conte.Effects.Tables.{
  EffectDispatch, EffectExecutor, EffectRequest, EffectResult, Ledger,
}
use governed_signal_to_conte.Receipts.Fields.{RunReceipt}

-- What is established of the executor, the claim and the request before a result is looked up.
pub record Verified (k : Keys) (encoding : ResultEncoding k) (signed : SignedResult) (l : Ledger)
    : Type 0 where
  pub executor : EffectExecutor
  pub executor_found :
      find_first (λ x. x.executor_id == signed.envelope.executor_id) l.executors ≡ some executor
  pub proof : ResultProof
  pub signature : verify_executor_result_signature k encoding signed executor ≡ ok proof
  pub registered : any (λ a. a == signed.envelope.adapter_id) executor.allowed_adapter_ids ≡ true
  pub dispatch : EffectDispatch
  pub claimed : find_dispatch l signed.envelope.dispatch_id ≡ some dispatch
  pub request : EffectRequest
  pub requested : find_request l signed.envelope.effect_id ≡ some request

-- A result that was not there is stored as it was signed, for the claim and the request it names.
pub record NewResult (signed : SignedResult) (proof : ResultProof) (q : EffectRequest)
    (d : EffectDispatch) (event_id : String) (r : Recorded) (l l' : Ledger) : Type 0 where
  pub bound : has_mismatches signed.envelope q d ≡ false
  pub unanswered : result_of l.results signed.envelope.dispatch_id ≡ none
  pub returned : r ≡ stored_result (result_row signed proof event_id)
  pub changed : l' ≡ record l {
    database = l'.database;
    results = l.results ++ result_row signed proof event_id ∷ [];
  }

abbrev recorded_answer : Recorded → Ledger → Recorded × Ledger
recorded_answer r l = (r, l)

abbrev with_result : EffectResult → Ledger → Ledger
with_result r l = record l { results = l.results ++ r ∷ [] }

abbrev with_database_result : EffectResult → Ledger → Database → Ledger
with_database_result r l database = record l { database = database; results = l.results ++ r ∷ [] }

-- The row is the only one of its id.
found_last :
    (p : EffectResult → Bool) (rs : List EffectResult) (r : EffectResult)
    → any p rs ≡ false
    → p r ≡ true
    → find_first p (rs ++ r ∷ []) ≡ some r
found_last p [] r h k = ground arith
found_last p (x ∷ xs) r h k = ground (arith, found_last p xs r)

appended-NewResult :
    (signed : SignedResult) (proof : ResultProof) (q : EffectRequest) (d : EffectDispatch)
    (event_id : String) (r : Recorded) (found : EffectResult) (l m l' : Ledger)
    → has_mismatches signed.envelope q d ≡ false
    → m ≡ record l { database = m.database }
    → InsertedResult (result_row signed proof event_id) m l'
    → find_first (λ x. x.envelope.result_id == signed.envelope.result_id) l'.results ≡ some found
    → stored_result found ≡ r
    → NewResult signed proof q d event_id r l l'
appended-NewResult signed proof q d event_id r found l m l' b f n e s =
    let row = result_row signed proof event_id in
    let same_id : EffectResult → Bool = λ x. x.envelope.result_id == signed.envelope.result_id in
    let there =
      ap (λ x. find_first same_id x.results) n.changed
      ∙ found_last same_id m.results row n.new_id
          ((eq_iff signed.envelope.result_id signed.envelope.result_id).1 refl) in
    record {
      bound = b;
      unanswered = ap (λ x. result_of x.results signed.envelope.dispatch_id) (sym f) ∙ n.unanswered;
      returned = sym s ∙ ap stored_result (some_injective found row (sym e ∙ there));
      changed =
          n.changed
          ∙ ap (with_result row) f
          ∙ ap (with_database_result row l) (sym (ap (λ x. x.database) n.changed));
    }

recorded-NewResult :
    (H : Material → String) (host : Host) (signed : SignedResult) (proof : ResultProof)
    (q : EffectRequest) (d : EffectDispatch) (r : Recorded) (l l' : Ledger)
    (made : Result RunReceipt)
    → has_mismatches signed.envelope q d ≡ false
    → (made >>= λ receipt.
        append_effect_event H (result_event host signed receipt) l >>= λ appended.
        insert_result (result_row signed proof host.event_id) appended >>= λ next.
        or_raise
          (find_first (λ x. x.envelope.result_id == signed.envelope.result_id) next.results)
          (runtime_error "The result was not stored")
        >>= λ found. ok (recorded_answer (stored_result found) next))
      ≡ ok (r, l')
    → NewResult signed proof q d host.event_id r l l'
recorded-NewResult H host signed proof q d r l l' (err e) b h = cc
recorded-NewResult H host signed proof q d r l l' (ok receipt) b h =
    let event = result_event host signed receipt in
    let row = result_row signed proof host.event_id in
    let (m, e₁, h₁) = >>=-eq-ok (append_effect_event H event l) _ h in
    let (next, e₂, h₂) = >>=-eq-ok (insert_result row m) _ h₁ in
    let (found, e₃, h₃) = >>=-eq-ok (or_raise (find_first _ next.results) _) _ h₂ in
    let same =
      ok_injective (recorded_answer (stored_result found) next) (recorded_answer r l') h₃ in
    let there = or_raise-some (find_first _ next.results) _ found e₃ in
    appended-NewResult signed proof q d host.event_id r found l m l' b
      (append_effect_event-frame H event l m e₁)
      (insert_result-InsertedResult row m l' (e₂ ∙ ap (λ x. ok (x.1)) same))
      (ap (λ x. find_first (λ y. y.envelope.result_id == signed.envelope.result_id) (x.1).results)
          (sym same)
        ∙ there)
      (ap (λ x. x.0) same)

-- The claim has a result already: the row is read, and nothing changes.
pub record Reread (signed : SignedResult) (proof : ResultProof) (r : Recorded) (l l' : Ledger)
    : Type 0 where
  pub row : EffectResult
  pub found : result_of l.results signed.envelope.dispatch_id ≡ some row
  pub same_proof : (row.proof_hash == proof.proof_hash) ≡ true
  pub returned : r ≡ existing_result row
  pub unchanged : l' ≡ l

module _ (H : Material → String) (k : Keys) (encoding : ResultEncoding k) where
  store_result-NewResult :
      (host : Host) (signed : SignedResult) (asserted_actor : Option String) (proof : ResultProof)
      (q : EffectRequest) (d : EffectDispatch) (r : Recorded) (l l' : Ledger)
      → store_result H k encoding host signed asserted_actor proof q d l ≡ ok (r, l')
      → NewResult signed proof q d host.event_id r l l'
  unfolding store_result
  store_result-NewResult host signed asserted_actor proof q d r l l' h =
      let (u, e, h₁) = >>=-eq-ok (raise_if (has_mismatches signed.envelope q d) _) _ h in
      recorded-NewResult H host signed proof q d r l l'
        (result_receipt host asserted_actor signed.envelope proof)
        (raise_if-false (has_mismatches signed.envelope q d) _ u e) h₁

  existing-Reread :
      (signed : SignedResult) (proof : ResultProof) (row : EffectResult) (r : Recorded)
      (l l' : Ledger)
      → result_of l.results signed.envelope.dispatch_id ≡ some row
      → (raise_if
            (not (row.proof_hash == proof.proof_hash))
            (effect_error "Execution claim already has an immutable result")
          >> ok (recorded_answer (existing_result row) l))
        ≡ ok (r, l')
      → Reread signed proof r l l'
  existing-Reread signed proof row r l l' f h =
      let (u, e, h₁) = >>=-eq-ok (raise_if (not (row.proof_hash == proof.proof_hash)) _) _ h in
      let same = ok_injective (recorded_answer (existing_result row) l) (recorded_answer r l') h₁ in
      record {
        row = row;
        found = f;
        same_proof = not-false _ (raise_if-false (not (row.proof_hash == proof.proof_hash)) _ u e);
        returned = sym (ap (λ x. x.0) same);
        unchanged = sym (ap (λ x. x.1) same);
      }

  answer_claim-cases :
      (host : Host) (signed : SignedResult) (asserted_actor : Option String) (proof : ResultProof)
      (q : EffectRequest) (d : EffectDispatch) (r : Recorded) (l l' : Ledger)
      → answer_claim H k encoding host signed asserted_actor proof q d l ≡ ok (r, l')
      → Reread signed proof r l l' ⊎ NewResult signed proof q d host.event_id r l l'
  unfolding answer_claim
  answer_claim-cases host signed asserted_actor proof q d r l l' h =
      elim (Option-cases (result_of l.results signed.envelope.dispatch_id)) [
        | inl e ↦ inr (
            store_result-NewResult host signed asserted_actor proof q d r l l'
              (rw (e, answer_claim) at h))
        | inr (row, e) ↦ inl (existing-Reread signed proof row r l l' e (rw (e, answer_claim) at h))
      ]

  pub result_transaction-Verified :
      (host : Host) (signed : SignedResult) (asserted_actor : Option String) (r : Recorded)
      (l l' : Ledger)
      → result_transaction H k encoding host signed asserted_actor l ≡ ok (r, l')
      → (v : Verified k encoding signed l) × (Reread signed v.proof r l l'
          ⊎ NewResult signed v.proof v.request v.dispatch host.event_id r l l')
  unfolding result_transaction
  result_transaction-Verified host signed asserted_actor r l l' h =
      let same_executor : EffectExecutor → Bool =
        λ x. x.executor_id == signed.envelope.executor_id in
      let (x, e₁, h₁) = >>=-eq-ok (or_raise (find_first same_executor l.executors) _) _ h in
      let (proof, e₂, h₂) = >>=-eq-ok (verify_executor_result_signature k encoding signed x) _ h₁ in
      let (u, e₃, h₃) =
        >>=-eq-ok
          (raise_if (not (any (λ a. a == signed.envelope.adapter_id) x.allowed_adapter_ids)) _) _
          h₂ in
      let (d, e₄, h₄) = >>=-eq-ok (or_raise (find_dispatch l signed.envelope.dispatch_id) _) _ h₃ in
      let (q, e₅, h₅) = >>=-eq-ok (or_raise (find_request l signed.envelope.effect_id) _) _ h₄ in
      (
        record {
          executor = x;
          executor_found = or_raise-some _ _ x e₁;
          proof = proof;
          signature = e₂;
          registered = not-false _ (raise_if-false _ _ u e₃);
          dispatch = d;
          claimed = or_raise-some _ _ d e₄;
          request = q;
          requested = or_raise-some _ _ q e₅;
        },
        answer_claim-cases host signed asserted_actor proof q d r l l' h₅,
      )
