-- ===== src/Effects/Steps.antt =====
-- Histories of the tables: any sequence of calls of the operations on external effects, each with
-- whatever outcome it has.
use governed_signal_to_conte.Base.{Option, Result, String, ap, false, ok, sym, ◌≡◌}
use governed_signal_to_conte.Chain.Material.{Material}
use governed_signal_to_conte.Effects.Answer.{NewResult, Verified}
use governed_signal_to_conte.Effects.Claim.{claim_external_effect}
use governed_signal_to_conte.Effects.Create.{create_external_effect_request}
use governed_signal_to_conte.Effects.Derived.{IsDerived}
use governed_signal_to_conte.Effects.Envelopes.{breaks_result_semantics, require_result_semantics}
use governed_signal_to_conte.Effects.Frame.{Claimed}
use governed_signal_to_conte.Effects.Ingest.{Recorded, record_signed_executor_result}
use governed_signal_to_conte.Effects.Keys.{Keys, ResultEncoding, SignedResult}
use governed_signal_to_conte.Effects.Record.{EffectWorkspace, Host, project_effect_event}
use governed_signal_to_conte.Effects.Request.{EffectMaterial}
use governed_signal_to_conte.Effects.Tables.{EffectDispatch, EffectRequest, EffectResult, Ledger}
use governed_signal_to_conte.Packets.Manifest.{PacketFiles}
use governed_signal_to_conte.Tables.{Packet}

-- One call, its outcome, and the workspace after it. The envelope of a result has passed its model's
-- validator, as the construction of a `SignedExecutorResult` demands.
pub data Call (H : Material → String) (G : EffectMaterial → String) (k : Keys)
    (encoding : ResultEncoding k) : EffectWorkspace → EffectWorkspace → Type 0 where
  claims :
      {w w' : EffectWorkspace} (host : Host) (effect_id : String) (actor : Option String)
      (o : Result EffectDispatch)
      → claim_external_effect H host effect_id actor w ≡ (o, w')
      → Call H G k encoding w w'
  requests :
      {w w' : EffectWorkspace} (host : Host) (packet_id : String) (actor : Option String)
      (before again : Packet → Result PacketFiles) (o : Result EffectRequest)
      → create_external_effect_request H G host packet_id actor before again w ≡ (o, w')
      → Call H G k encoding w w'
  answers :
      {w w' : EffectWorkspace} (host : Host) (signed : SignedResult) (actor : Option String)
      (o : Result EffectResult)
      → require_result_semantics signed.envelope ≡ ok tt
      → record_signed_executor_result H k encoding host signed actor w ≡ (o, w')
      → Call H G k encoding w w'

pub data Calls (H : Material → String) (G : EffectMaterial → String) (k : Keys)
    (encoding : ResultEncoding k) : EffectWorkspace → EffectWorkspace → Type 0 where
  no_call : {w : EffectWorkspace} → Calls H G k encoding w w
  one_call :
      {a b c : EffectWorkspace}
      → Call H G k encoding a b
      → Calls H G k encoding b c
      → Calls H G k encoding a c

-- The tables of requests, claims and results are the same.
pub record SameClaims (l l' : Ledger) : Type 0 where
  pub same_requests : l'.requests ≡ l.requests
  pub same_dispatches : l'.dispatches ≡ l.dispatches
  pub same_results : l'.results ≡ l.results

-- The projection of an event changes none of them.
pub project_effect_event-SameClaims :
    {A : Type 0} (H : Material → String) (now event_id : String) (a : A) (w w' : EffectWorkspace)
    (o : Result A)
    → project_effect_event H now event_id a w ≡ (o, w')
    → SameClaims w.ledger w'.ledger
unfolding project_effect_event
project_effect_event-SameClaims H now event_id a w w' o h = record {
  same_requests = sym (ap (λ x. (x.1).ledger.requests) h);
  same_dispatches = sym (ap (λ x. (x.1).ledger.dispatches) h);
  same_results = sym (ap (λ x. (x.1).ledger.results) h);
}

-- What a call does to the requests, claims and results.
pub data Change (G : EffectMaterial → String) (k : Keys) (encoding : ResultEncoding k)
    (l l' : Ledger) : Type 0 where
  no_claim : SameClaims l l' → Change G k encoding l l'
  new_claim :
      (effect_id : String) (d : EffectDispatch) (m : Ledger)
      → Claimed effect_id d l m
      → SameClaims m l'
      → Change G k encoding l l'
  new_request :
      (host : Host) (p : Packet) (before : PacketFiles) (q : EffectRequest) (m : Ledger)
      → IsDerived G host p before q l m
      → SameClaims m l'
      → Change G k encoding l l'
  new_answer :
      (signed : SignedResult) (v : Verified k encoding signed l) (event_id : String) (r : Recorded)
      (m : Ledger)
      → NewResult signed v.proof v.request v.dispatch event_id r l m
      → breaks_result_semantics signed.envelope ≡ false
      → SameClaims m l'
      → Change G k encoding l l'
