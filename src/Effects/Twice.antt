-- ===== src/Effects/Twice.antt =====
-- Recording a signed result a second time reads the row of the first.
use governed_signal_to_conte.Base.{
  Option, Result, Result-cases, String, ap, arith, eq_iff, err, find_first, find_first-snoc_new,
  inl, inr, ok, ok_injective, or_raise, refl, some, subst, sym, true, ◌==◌, ◌∙◌, ◌≡◌,
}
use governed_signal_to_conte.Chain.Material.{Material}
use governed_signal_to_conte.Effects.Answer.{
  NewResult, Reread, Verified, result_transaction-Verified,
}
use governed_signal_to_conte.Effects.Ingest.{
  answer_claim, existing_result, record_signed_executor_result, result_row, result_transaction,
  stored_result,
}
use governed_signal_to_conte.Effects.Keys.{Keys, ResultEncoding, SignedResult}
use governed_signal_to_conte.Effects.Record.{
  EffectWorkspace, Host, outcome_with, project_effect_event,
}
use governed_signal_to_conte.Effects.Rows.{result_of}
use governed_signal_to_conte.Effects.Tables.{EffectResult, Ledger}
use governed_signal_to_conte.Receipts.Fields.{RunReceipt}

existing_injective : (a b : EffectResult) → existing_result a ≡ existing_result b → a ≡ b
existing_injective a b h = cc

stored_injective : (a b : EffectResult) → stored_result a ≡ stored_result b → a ≡ b
stored_injective a b h = cc

existing_not_stored : (a b : EffectResult) → existing_result a ≡ stored_result b → ⊥
existing_not_stored a b h = cc

abbrev recorded_outcome :
    Result EffectResult → EffectWorkspace → Result EffectResult × EffectWorkspace
recorded_outcome o w = (o, w)

module _ (k : Keys) (encoding : ResultEncoding k) where
  -- The tables in which a signed result is answered by a row.
  pub record IsAnswered (signed : SignedResult) (row : EffectResult) (l : Ledger) : Type 0 where
    pub verified : Verified k encoding signed l
    pub found : result_of l.results signed.envelope.dispatch_id ≡ some row
    pub same_proof : (row.proof_hash == verified.proof.proof_hash) ≡ true

  IsAnswered-reread :
      (H : Material → String) (host : Host) (signed : SignedResult) (actor : Option String)
      (row : EffectResult) (l : Ledger)
      → IsAnswered signed row l
      → result_transaction H k encoding host signed actor l ≡ ok (existing_result row, l)
  unfolding result_transaction answer_claim
  IsAnswered-reread H host signed actor row l a =
      let v = a.verified in
      rw
        (
          v.executor_found, result_transaction, or_raise, v.signature, v.registered, v.claimed,
          v.requested, answer_claim, a.found, a.same_proof,
        )
        refl

  -- The same rows of executors, requests, claims and results.
  record SameEffects (l l' : Ledger) : Type 0 where
    executors : l'.executors ≡ l.executors
    requests : l'.requests ≡ l.requests
    dispatches : l'.dispatches ≡ l.dispatches
    results : l'.results ≡ l.results

  SameEffects-IsAnswered :
      (signed : SignedResult) (row : EffectResult) (l l' : Ledger)
      → SameEffects l l'
      → IsAnswered signed row l
      → IsAnswered signed row l'
  SameEffects-IsAnswered signed row l l' s a =
      let v = a.verified in
      record {
        verified = record {
          executor = v.executor;
          executor_found =
              ap (find_first (λ x. x.executor_id == signed.envelope.executor_id)) s.executors
              ∙ v.executor_found;
          proof = v.proof;
          signature = v.signature;
          registered = v.registered;
          dispatch = v.dispatch;
          claimed =
              ap (find_first (λ x. x.dispatch_id == signed.envelope.dispatch_id)) s.dispatches
              ∙ v.claimed;
          request = v.request;
          requested =
              ap (find_first (λ x. x.effect_id == signed.envelope.effect_id)) s.requests
              ∙ v.requested;
        };
        found = ap (λ rs. result_of rs signed.envelope.dispatch_id) s.results ∙ a.found;
        same_proof = a.same_proof;
      }

  outcome_with-ok : {A : Type 0} (a b : A) (o : Result RunReceipt) → outcome_with a o ≡ ok b → a ≡ b
  outcome_with-ok a b (ok receipt) h = ok_injective a b h
  outcome_with-ok a b (err e) h = cc

  project_effect_event-SameEffects :
      {A : Type 0} (H : Material → String) (now event_id : String) (a b : A)
      (w w' : EffectWorkspace)
      → project_effect_event H now event_id a w ≡ (ok b, w')
      → SameEffects w.ledger w'.ledger × (a ≡ b)
  unfolding project_effect_event
  project_effect_event-SameEffects H now event_id a b w w' h = (
    record {
      executors = sym (ap (λ x. (x.1).ledger.executors) h);
      requests = sym (ap (λ x. (x.1).ledger.requests) h);
      dispatches = sym (ap (λ x. (x.1).ledger.dispatches) h);
      results = sym (ap (λ x. (x.1).ledger.results) h);
    },
    outcome_with-ok a b _ (ap (λ x. x.0) h),
  )

  -- The row that a transaction returns answers the signed result from then on.
  Reread-IsAnswered :
      (signed : SignedResult) (l m : Ledger) (v : Verified k encoding signed l) (r : EffectResult)
      → Reread signed v.proof (existing_result r) l m
      → IsAnswered signed r m
  Reread-IsAnswered signed l m v r c =
      let row : c.row ≡ r = sym (existing_injective r c.row c.returned) in
      subst (IsAnswered signed r) (sym c.unchanged) (record {
        verified = v;
        found = c.found ∙ ap some row;
        same_proof = ap (λ x. x.proof_hash == v.proof.proof_hash) (sym row) ∙ c.same_proof;
      })

  NewResult-IsAnswered :
      (signed : SignedResult) (event_id : String) (l m : Ledger) (v : Verified k encoding signed l)
      (r : EffectResult)
      → NewResult signed v.proof v.request v.dispatch event_id (stored_result r) l m
      → IsAnswered signed r m
  NewResult-IsAnswered signed event_id l m v r n =
      let row = result_row signed v.proof event_id in
      let same : row ≡ r = sym (stored_injective r row n.returned) in
      subst (IsAnswered signed r) (sym n.changed) (record {
        verified = record {
          executor = v.executor;
          executor_found = v.executor_found;
          proof = v.proof;
          signature = v.signature;
          registered = v.registered;
          dispatch = v.dispatch;
          claimed = v.claimed;
          request = v.request;
          requested = v.requested;
        };
        found =
            find_first-snoc_new (λ x. x.envelope.dispatch_id == signed.envelope.dispatch_id)
              l.results row n.unanswered
              ((eq_iff signed.envelope.dispatch_id signed.envelope.dispatch_id).1 refl)
            ∙ ap some same;
        same_proof =
            ap (λ x. x.proof_hash == v.proof.proof_hash) (sym same)
            ∙ (eq_iff v.proof.proof_hash v.proof.proof_hash).1 refl;
      })

  module _ (H : Material → String) (signed : SignedResult) where
    transaction-IsAnswered :
        (host : Host) (actor : Option String) (r : EffectResult) (l m : Ledger)
        → result_transaction H k encoding host signed actor l ≡ ok (existing_result r, m)
        → IsAnswered signed r m
    transaction-IsAnswered host actor r l m h =
        let (v, c) =
          result_transaction-Verified H k encoding host signed actor (existing_result r) l m h in
        elim c [
          | inl reread ↦ Reread-IsAnswered signed l m v r reread
          | inr n ↦ absurd (existing_not_stored r _ n.returned)
        ]

    stored-IsAnswered :
        (host : Host) (actor : Option String) (r : EffectResult) (l m : Ledger)
        → result_transaction H k encoding host signed actor l ≡ ok (stored_result r, m)
        → IsAnswered signed r m
    stored-IsAnswered host actor r l m h =
        let (v, c) =
          result_transaction-Verified H k encoding host signed actor (stored_result r) l m h in
        elim c [
          | inl reread ↦ absurd (existing_not_stored _ r (sym reread.returned))
          | inr n ↦ NewResult-IsAnswered signed host.event_id l m v r n
        ]

    pub call-IsAnswered :
        (host : Host) (actor : Option String) (r : EffectResult) (w w' : EffectWorkspace)
        → record_signed_executor_result H k encoding host signed actor w ≡ (ok r, w')
        → IsAnswered signed r w'.ledger
    unfolding record_signed_executor_result
    call-IsAnswered host actor r w w' h =
        elim (Result-cases (result_transaction H k encoding host signed actor w.ledger)) [
          | inl ((existing_result s, m), e) ↦
              let same : recorded_outcome (ok s) (record w { ledger = m })
                  ≡ recorded_outcome (ok r) w' =
                rw (e, record_signed_executor_result) at h in
              subst (IsAnswered signed r) (ap (λ y. (y.1).ledger) same) (
                subst (λ x. IsAnswered signed x m) (ok_injective s r (ap (λ y. y.0) same))
                  (transaction-IsAnswered host actor s w.ledger m e))
          | inl ((stored_result s, m), e) ↦
              let (same, returned) =
                project_effect_event-SameEffects H host.projected_at_utc host.event_id s r
                  (record w { ledger = m }) w' (rw (e, record_signed_executor_result) at h) in
              SameEffects-IsAnswered signed r m w'.ledger same (
                subst (λ x. IsAnswered signed x m) returned
                  (stored-IsAnswered host actor s w.ledger m e))
          | inr (x, e) ↦ absurd (ground (arith, e, h))
        ]

-- Where a signed result has been recorded, recording it again, at any time and for any actor, returns
-- the same row and changes nothing.
pub record_signed_executor_result-again :
    (H : Material → String) (k : Keys) (encoding : ResultEncoding k) (host later : Host)
    (signed : SignedResult) (actor other : Option String) (r : EffectResult)
    (w w' : EffectWorkspace)
    → record_signed_executor_result H k encoding host signed actor w ≡ (ok r, w')
    → record_signed_executor_result H k encoding later signed other w' ≡ (ok r, w')
unfolding record_signed_executor_result
record_signed_executor_result-again H k encoding host later signed actor other r w w' h =
    rw
      (
        IsAnswered-reread k encoding H later signed other r w'.ledger
            (call-IsAnswered k encoding H signed host actor r w w' h),
        record_signed_executor_result,
      )
      refl
