-- ===== src/Effects/PerPacket.antt =====
-- A packet has at most one request, and so at most one attempt of its effect that may have happened.
use governed_signal_to_conte.Base.{
  In, In-snoc_pair, List, String, [], ap, arith, eq_iff, find_first, find_first-none, none, refl,
  subst, sym, true, ◌++◌, ◌==◌, ◌∙◌, ◌∷◌, ◌≡◌,
}
use governed_signal_to_conte.Chain.Material.{Material}
use governed_signal_to_conte.Effects.Changes.{Call-Change}
use governed_signal_to_conte.Effects.Derived.{IsDerived}
use governed_signal_to_conte.Effects.Keys.{Keys, ResultEncoding}
use governed_signal_to_conte.Effects.Once.{claim_external_effect-once, may_have_occurred}
use governed_signal_to_conte.Effects.Record.{EffectWorkspace, Host}
use governed_signal_to_conte.Effects.Request.{EffectMaterial, derived_request, request_values}
use governed_signal_to_conte.Effects.Steps.{
  Calls, Change, new_answer, new_claim, new_request, no_call, no_claim, one_call,
}
use governed_signal_to_conte.Effects.Tables.{EffectDispatch, EffectRequest, Ledger}
use governed_signal_to_conte.Packets.Manifest.{PacketFiles}
use governed_signal_to_conte.Tables.{Packet}

-- No two requests are for one packet.
IsSingle : List EffectRequest → Type 0
IsSingle qs = (p q : EffectRequest) → In p qs → In q qs → p.packet_id ≡ q.packet_id → p ≡ q

IsSingle-snoc :
    (qs : List EffectRequest) (q : EffectRequest)
    → IsSingle qs
    → find_first (λ x. x.packet_id == q.packet_id) qs ≡ none
    → IsSingle (qs ++ q ∷ [])
unfolding IsSingle
IsSingle-snoc qs q s n =
    In-snoc_pair (λ x y. x.packet_id ≡ y.packet_id → x ≡ y) qs q s
      (λ x m e.
        let other = find_first-none (λ y. y.packet_id == q.packet_id) qs x n m in
        let same = (eq_iff x.packet_id q.packet_id).1 e in absurd (ground (arith, other, same)))
      (λ x m e.
        let other = find_first-none (λ y. y.packet_id == q.packet_id) qs x n m in
        let same = (eq_iff x.packet_id q.packet_id).1 (sym e) in
        absurd (ground (arith, other, same)))
      (λ e. refl)

derived-packet :
    (G : EffectMaterial → String) (host : Host) (p : Packet) (before : PacketFiles)
    (q : EffectRequest) (l l' : Ledger)
    → IsDerived G host p before q l l'
    → q.packet_id ≡ p.packet_id
unfolding derived_request request_values
derived-packet G host p before q l l' d = ap (λ x. x.packet_id) d.is_request

derived-IsSingle :
    (G : EffectMaterial → String) (host : Host) (p : Packet) (before : PacketFiles)
    (q : EffectRequest) (l l' : Ledger)
    → IsDerived G host p before q l l'
    → IsSingle l.requests
    → IsSingle l'.requests
derived-IsSingle G host p before q l l' d s =
    subst IsSingle (sym (ap (λ x. x.requests) d.is_new.changed)) (
      IsSingle-snoc l.requests q s (
        subst (λ z. find_first (λ x. x.packet_id == z) l.requests ≡ none)
          (sym (derived-packet G host p before q l l' d)) d.absent))

module _ (G : EffectMaterial → String) (k : Keys) (encoding : ResultEncoding k)
    (l l' : Ledger) where
  Change-IsSingle : Change G k encoding l l' → IsSingle l.requests → IsSingle l'.requests
  Change-IsSingle (no_claim s) i = subst IsSingle (sym s.same_requests) i
  Change-IsSingle (new_claim effect_id d m c s) i =
      subst IsSingle (sym (s.same_requests ∙ ap (λ x. x.requests) c.changed)) i
  Change-IsSingle (new_request host p before q m d s) i =
      subst IsSingle (sym s.same_requests) (derived-IsSingle G host p before q l m d i)
  Change-IsSingle (new_answer signed v event_id r m n b s) i =
      subst IsSingle (sym (s.same_requests ∙ ap (λ x. x.requests) n.changed)) i

module _ (H : Material → String) (G : EffectMaterial → String) (k : Keys)
    (encoding : ResultEncoding k) where
  Calls-IsSingle :
      {w w' : EffectWorkspace}
      → IsSingle w.ledger.requests
      → Calls H G k encoding w w'
      → IsSingle w'.ledger.requests
  Calls-IsSingle i no_call = i
  Calls-IsSingle {w} {w'} i (one_call {a} {b} {c} call rest) =
      Calls-IsSingle
        (Change-IsSingle G k encoding a.ledger b.ledger (Call-Change H G k encoding call) i) rest

no_requests-IsSingle : IsSingle []
unfolding IsSingle
no_requests-IsSingle p q m n e = absurd m

single-effect :
    (qs : List EffectRequest) (p q : EffectRequest)
    → IsSingle qs
    → In p qs
    → In q qs
    → p.packet_id ≡ q.packet_id
    → p.effect_id ≡ q.effect_id
unfolding IsSingle
single-effect qs p q s m n e = ap (λ x. x.effect_id) (s p q m n e)

-- From a workspace without requests, claims and results, after any sequence of calls with any
-- outcomes: of the claims of all effects that are requested for one packet, at most one may have had
-- its effect, that is, has no result or a result that does not exclude it.
pub create_external_effect_request-once :
    (H : Material → String) (G : EffectMaterial → String) (k : Keys) (encoding : ResultEncoding k)
    (w w' : EffectWorkspace)
    → w.ledger.requests ≡ []
    → w.ledger.dispatches ≡ []
    → w.ledger.results ≡ []
    → Calls H G k encoding w w'
    → (p q : EffectRequest) (d e : EffectDispatch) → In p w'.ledger.requests
    → In q w'.ledger.requests
    → p.packet_id ≡ q.packet_id
    → In d w'.ledger.dispatches
    → In e w'.ledger.dispatches
    → d.effect_id ≡ p.effect_id
    → e.effect_id ≡ q.effect_id
    → may_have_occurred w'.ledger d ≡ true
    → may_have_occurred w'.ledger e ≡ true
    → d ≡ e
create_external_effect_request-once H G k encoding w w' a b c calls p q d e m n same u v x y f g =
    let single =
      Calls-IsSingle H G k encoding (subst IsSingle (sym a) no_requests-IsSingle) calls in
    claim_external_effect-once H G k encoding w w' b c calls d e u v
      (x ∙ single-effect w'.ledger.requests p q single m n same ∙ sym y) f g
