-- ===== src/Effects/Frame.antt =====
-- What the transactions on external effects do to the tables of claims and results.
use governed_signal_to_conte.Base.{
  >>=-eq-ok, Option, Result, String, [], any, ap, arith, err, false, is_some, nat_eq, none, ok,
  ok_injective, or_raise, or_raise-some, refl, some, sym, ℕ, ◌&&◌, ◌++◌, ◌==◌, ◌>>=◌, ◌∙◌, ◌∷◌, ◌≡◌,
}
use governed_signal_to_conte.Chain.Material.{Material}
use governed_signal_to_conte.Commit.Insert.{append_event}
use governed_signal_to_conte.Database.{Database}
use governed_signal_to_conte.Effects.Claim.{
  claim_event, claim_receipt, claim_row, claim_transaction, external_effect_dispatch, next_attempt,
  store_dispatch,
}
use governed_signal_to_conte.Effects.Record.{Host, append_effect_event}
use governed_signal_to_conte.Effects.Rows.{
  find_dispatch, find_request, insert_dispatch, insert_result, result_of,
}
use governed_signal_to_conte.Effects.Tables.{EffectDispatch, EffectRequest, EffectResult, Ledger}
use governed_signal_to_conte.Receipts.Events.{TransitionEvent}
use governed_signal_to_conte.Receipts.Fields.{RunReceipt}

-- An insert into the claims finds neither the id nor the attempt there.
pub record NewDispatch (d : EffectDispatch) (l l' : Ledger) : Type 0 where
  pub new_id : find_dispatch l d.dispatch_id ≡ none
  pub new_attempt :
      any (λ e. e.effect_id == d.effect_id && nat_eq e.attempt_number d.attempt_number) l.dispatches
      ≡ false
  pub changed : l' ≡ record l { dispatches = l.dispatches ++ d ∷ [] }

pub is_some-none : {A : Type 0} (o : Option A) → is_some o ≡ false → o ≡ none
is_some-none none h = refl
is_some-none (some a) h = cc

insert_dispatch-NewDispatch :
    (d : EffectDispatch) (l l' : Ledger) → insert_dispatch d l ≡ ok l' → NewDispatch d l l'
unfolding insert_dispatch
insert_dispatch-NewDispatch d l l' h = record {
  new_id = is_some-none (find_dispatch l d.dispatch_id) (ground arith);
  new_attempt = ground arith;
  changed = ground arith;
}

-- An insert into the results finds neither the id nor the claim there.
pub record InsertedResult (r : EffectResult) (l l' : Ledger) : Type 0 where
  pub unanswered : result_of l.results r.envelope.dispatch_id ≡ none
  pub new_id : any (λ s. s.envelope.result_id == r.envelope.result_id) l.results ≡ false
  pub changed : l' ≡ record l { results = l.results ++ r ∷ [] }

pub insert_result-InsertedResult :
    (r : EffectResult) (l l' : Ledger) → insert_result r l ≡ ok l' → InsertedResult r l l'
unfolding insert_result
insert_result-InsertedResult r l l' h = record {
  unanswered = is_some-none (result_of l.results r.envelope.dispatch_id) (ground arith);
  new_id = ground arith;
  changed = ground arith;
}

with_database :
    (m : Result Database) (l l' : Ledger)
    → (m >>= λ database. ok (record l { database = database })) ≡ ok l'
    → l' ≡ record l { database = l'.database }
with_database (ok d) l l' h = ground arith
with_database (err e) l l' h = cc

pub append_effect_event-frame :
    (H : Material → String) (e : TransitionEvent) (l l' : Ledger)
    → append_effect_event H e l ≡ ok l'
    → l' ≡ record l { database = l'.database }
unfolding append_effect_event
append_effect_event-frame H e l l' h = with_database (append_event H e l.database) l l' h

external_effect_dispatch-same :
    (d d' : EffectDispatch) → external_effect_dispatch d ≡ ok d' → d ≡ d'
unfolding external_effect_dispatch
external_effect_dispatch-same d d' h = ground arith

-- A claim takes the attempt that `next_attempt` gives, and adds only itself.
pub record Claimed (effect_id : String) (d : EffectDispatch) (l l' : Ledger) : Type 0 where
  pub request : EffectRequest
  pub requested : find_request l effect_id ≡ some request
  pub names_effect : d.effect_id ≡ effect_id
  pub names_request : d.effect_request_hash ≡ request.request_hash
  pub takes_next : next_attempt l effect_id ≡ ok d.attempt_number
  pub new_id : find_dispatch l d.dispatch_id ≡ none
  pub new_attempt :
      any (λ e. e.effect_id == d.effect_id && nat_eq e.attempt_number d.attempt_number) l.dispatches
      ≡ false
  pub changed : l' ≡ record l { database = l'.database; dispatches = l.dispatches ++ d ∷ [] }

abbrev claimed_answer : EffectDispatch → Ledger → EffectDispatch × Ledger
claimed_answer d l = (d, l)

claim-end :
    (d d' : EffectDispatch) (m : Result Ledger) (l' : Ledger)
    → (m >>= λ l. ok (claimed_answer d l)) ≡ ok (claimed_answer d' l')
    → (d ≡ d') × (m ≡ ok l')
claim-end d d' (ok l) l' h =
    let p = ok_injective (claimed_answer d l) (claimed_answer d' l') h in
    (ap (λ x. x.0) p, ap (λ x. ok (x.1)) p)
claim-end d d' (err e) l' h = cc

-- What storing a claim has done.
record Stored (d d' : EffectDispatch) (l l' : Ledger) : Type 0 where
  same : d ≡ d'
  new_id : find_dispatch l d.dispatch_id ≡ none
  new_attempt :
      any (λ e. e.effect_id == d.effect_id && nat_eq e.attempt_number d.attempt_number) l.dispatches
      ≡ false
  changed : l' ≡ record l { database = l'.database; dispatches = l.dispatches ++ d ∷ [] }

abbrev added : EffectDispatch → Ledger → Ledger
added d l = record l { dispatches = l.dispatches ++ d ∷ [] }

abbrev added_with : EffectDispatch → Ledger → Database → Ledger
added_with d l database = record l { database = database; dispatches = l.dispatches ++ d ∷ [] }

appended_then_inserted :
    (d d' : EffectDispatch) (l m l' : Ledger)
    → m ≡ record l { database = m.database }
    → NewDispatch d m l'
    → d ≡ d'
    → Stored d d' l l'
appended_then_inserted d d' l m l' f n s = record {
  same = s;
  new_id = ap (λ x. find_dispatch x d.dispatch_id) (sym f) ∙ n.new_id;
  new_attempt =
      ap
        (λ x.
          any (λ e. e.effect_id == d.effect_id && nat_eq e.attempt_number d.attempt_number)
            x.dispatches)
        (sym f)
      ∙ n.new_attempt;
  changed = n.changed ∙ ap (added d) f ∙ ap (added_with d l) (sym (ap (λ x. x.database) n.changed));
}

recorded-Stored :
    (H : Material → String) (host : Host) (d d' : EffectDispatch) (l l' : Ledger)
    (made : Result RunReceipt)
    → (made >>= λ receipt. append_effect_event H (claim_event host d receipt) l >>= λ appended.
        insert_dispatch d appended >>= λ next. ok (claimed_answer d next))
      ≡ ok (d', l')
    → Stored d d' l l'
recorded-Stored H host d d' l l' (err e) h = cc
recorded-Stored H host d d' l l' (ok receipt) h =
    let event = claim_event host d receipt in
    let (m, e₁, h₁) = >>=-eq-ok (append_effect_event H event l) _ h in
    let (returned, e₂) = claim-end d d' (insert_dispatch d m) l' h₁ in
    appended_then_inserted d d' l m l' (append_effect_event-frame H event l m e₁)
      (insert_dispatch-NewDispatch d m l' e₂) returned

store_dispatch-Stored :
    (H : Material → String) (host : Host) (asserted_actor : Option String) (effect : EffectRequest)
    (d d' : EffectDispatch) (l l' : Ledger)
    → store_dispatch H host asserted_actor effect d l ≡ ok (d', l')
    → Stored d d' l l'
unfolding store_dispatch
store_dispatch-Stored H host asserted_actor effect d d' l l' h =
    recorded-Stored H host d d' l l' (claim_receipt host asserted_actor effect d) h

-- The row that is stored is the row that was made.
Stored-Claimed :
    (host : Host) (effect_id : String) (effect : EffectRequest) (attempt : ℕ)
    (made d : EffectDispatch) (l l' : Ledger)
    → find_request l effect_id ≡ some effect
    → next_attempt l effect_id ≡ ok attempt
    → claim_row host effect_id effect attempt ≡ made
    → Stored made d l l'
    → Claimed effect_id d l l'
Stored-Claimed host effect_id effect attempt made d l l' q a m s =
    let row = m ∙ s.same in
    record {
      request = effect;
      requested = q;
      names_effect = sym (ap (λ x. x.effect_id) row);
      names_request = sym (ap (λ x. x.effect_request_hash) row);
      takes_next = a ∙ ap (λ x. ok (x.attempt_number)) row;
      new_id = ap (λ x. find_dispatch l x.dispatch_id) (sym s.same) ∙ s.new_id;
      new_attempt =
          ap
            (λ x.
              any (λ e. e.effect_id == x.effect_id && nat_eq e.attempt_number x.attempt_number)
                l.dispatches)
            (sym s.same)
          ∙ s.new_attempt;
      changed =
          s.changed
          ∙ ap (λ x. record l { database = l'.database; dispatches = l.dispatches ++ x ∷ [] })
              s.same;
    }

pub claim_transaction-Claimed :
    (H : Material → String) (host : Host) (effect_id : String) (asserted_actor : Option String)
    (d : EffectDispatch) (l l' : Ledger)
    → claim_transaction H host effect_id asserted_actor l ≡ ok (d, l')
    → Claimed effect_id d l l'
unfolding claim_transaction
claim_transaction-Claimed H host effect_id asserted_actor d l l' h =
    let (effect, e₁, h₁) = >>=-eq-ok (or_raise (find_request l effect_id) _) _ h in
    let (attempt, e₂, h₂) = >>=-eq-ok (next_attempt l effect_id) _ h₁ in
    let row = claim_row host effect_id effect attempt in
    let (made, e₃, h₃) = >>=-eq-ok (external_effect_dispatch row) _ h₂ in
    Stored-Claimed host effect_id effect attempt made d l l'
      (or_raise-some (find_request l effect_id) _ effect e₁) e₂
      (external_effect_dispatch-same row made e₃)
      (store_dispatch-Stored H host asserted_actor effect made d l l' h₃)
