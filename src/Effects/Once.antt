-- ===== src/Effects/Once.antt =====
-- What holds after any sequence of calls on external effects.
use governed_signal_to_conte.Base.{
  &&→left, Bool, Bool-cases, In, String, [], ap, arith, false, find_first→in, inl, inr, ltb, none,
  refl, some, subst, sym, true, ◌==◌, ◌≡◌,
}
use governed_signal_to_conte.Chain.Material.{Material}
use governed_signal_to_conte.Effects.Answered.{NewResult-Advances}
use governed_signal_to_conte.Effects.Changes.{Call-Change}
use governed_signal_to_conte.Effects.Claim.{latest_dispatch}
use governed_signal_to_conte.Effects.Derived.{NewRequest}
use governed_signal_to_conte.Effects.Envelopes.{breaks_result_semantics}
use governed_signal_to_conte.Effects.Keys.{Keys, ResultEncoding}
use governed_signal_to_conte.Effects.Lifecycle.{
  HasFailed, IsOrderly, IsSettled, may_follow, no_claims-IsSettled, phase,
}
use governed_signal_to_conte.Effects.Record.{EffectWorkspace}
use governed_signal_to_conte.Effects.Refines.{Advances, Claimed-Advances, same_latest-phase}
use governed_signal_to_conte.Effects.Request.{EffectMaterial}
use governed_signal_to_conte.Effects.Rows.{result_of}
use governed_signal_to_conte.Effects.Settled.{Claimed-IsOrderly, NewResult-IsOrderly}
use governed_signal_to_conte.Effects.Steps.{
  Call, Calls, Change, SameClaims, new_answer, new_claim, new_request, no_call, no_claim, one_call,
}
use governed_signal_to_conte.Effects.Tables.{
  EffectDispatch, EffectOutcome, EffectRequest, ExecutorResult, Ledger, is_failed,
}

SameClaims-IsOrderly : (l l' : Ledger) → SameClaims l l' → IsOrderly l → IsOrderly l'
SameClaims-IsOrderly l l' s i =
    subst (λ ds. IsSettled ds l'.results) (sym s.same_dispatches)
      (subst (IsSettled l.dispatches) (sym s.same_results) i)

SameClaims-phase :
    (l l' : Ledger) (effect_id : String) → SameClaims l l' → phase l effect_id ≡ phase l' effect_id
SameClaims-phase l l' effect_id s =
    same_latest-phase l l' effect_id (ap (λ ds. latest_dispatch ds effect_id) s.same_dispatches)
      (λ d h. ap (λ rs. result_of rs d.dispatch_id) s.same_results)

requested-same_claims :
    (q : EffectRequest) (l m : Ledger)
    → NewRequest q l m
    → (m.dispatches ≡ l.dispatches) × (m.results ≡ l.results)
requested-same_claims q l m n = (ap (λ x. x.dispatches) n.changed, ap (λ x. x.results) n.changed)

module _ (G : EffectMaterial → String) (k : Keys) (encoding : ResultEncoding k)
    (l l' : Ledger) where
  Change-IsOrderly : Change G k encoding l l' → IsOrderly l → IsOrderly l'
  Change-IsOrderly (no_claim s) i = SameClaims-IsOrderly l l' s i
  Change-IsOrderly (new_claim effect_id d m c s) i =
      SameClaims-IsOrderly m l' s (Claimed-IsOrderly effect_id d l m i c)
  Change-IsOrderly (new_request host p before q m d s) i =
      SameClaims-IsOrderly m l' s (subst IsOrderly (sym d.is_new.changed) i)
  Change-IsOrderly (new_answer signed v event_id r m n b s) i =
      SameClaims-IsOrderly m l' s
        (NewResult-IsOrderly signed v.proof v.request v.dispatch event_id r l m i v.claimed b n)

  Change-Advances :
      (effect_id : String)
      → Change G k encoding l l'
      → IsOrderly l
      → Advances (phase l effect_id) (phase l' effect_id)
  Change-Advances effect_id (no_claim s) i = inr (SameClaims-phase l l' effect_id s)
  Change-Advances effect_id (new_claim claimed_id d m c s) i =
      subst (Advances (phase l effect_id)) (SameClaims-phase m l' effect_id s)
        (Claimed-Advances claimed_id effect_id d l m i c)
  Change-Advances effect_id (new_request host p before q m d s) i =
      subst (Advances (phase l effect_id)) (SameClaims-phase m l' effect_id s) (
        inr (
          let (ds, rs) = requested-same_claims q l m d.is_new in
          same_latest-phase l m effect_id (ap (λ x. latest_dispatch x effect_id) ds)
            (λ e h. ap (λ x. result_of x e.dispatch_id) rs)))
  Change-Advances effect_id (new_answer signed v event_id r m n b s) i =
      subst (Advances (phase l effect_id)) (SameClaims-phase m l' effect_id s) (
        NewResult-Advances signed v.proof v.request v.dispatch event_id r l m i v.claimed n
          effect_id)

-- An attempt that is unresolved, or whose result does not exclude it, may have had its effect.
unfoldable pub may_have_occurred : Ledger → EffectDispatch → Bool
may_have_occurred l d = elim (result_of l.results d.dispatch_id) [
  | none ↦ true
  | some r ↦ r.envelope.effect_may_have_occurred
]

is_failed-only : (o : EffectOutcome) → is_failed o ≡ true → o ≡ EffectOutcome.failed
is_failed-only EffectOutcome.succeeded h = cc
is_failed-only EffectOutcome.failed h = refl
is_failed-only EffectOutcome.unknown h = cc

-- A failed result says that nothing has happened.
failed-none :
    (r : ExecutorResult)
    → breaks_result_semantics r ≡ false
    → is_failed r.outcome ≡ true
    → r.effect_may_have_occurred ≡ false
unfolding breaks_result_semantics
failed-none r b f = let e = is_failed-only r.outcome f in ground (arith, e, b)

HasFailed-never :
    (l : Ledger) (d : EffectDispatch)
    → IsOrderly l
    → HasFailed l.results d
    → may_have_occurred l d ≡ false
unfolding HasFailed may_have_occurred may_follow
HasFailed-never l d i (r, e, f) =
    let (m, q) = find_first→in (λ x. x.envelope.dispatch_id == d.dispatch_id) l.results e in
    rw (e, may_have_occurred)
      (failed-none r.envelope (i.meaningful r m)
        (&&→left (is_failed r.envelope.outcome) r.envelope.retry_permitted f))

module _ (H : Material → String) (G : EffectMaterial → String) (k : Keys)
    (encoding : ResultEncoding k) where
  Calls-IsOrderly :
      {w w' : EffectWorkspace}
      → IsOrderly w.ledger
      → Calls H G k encoding w w'
      → IsOrderly w'.ledger
  Calls-IsOrderly i no_call = i
  Calls-IsOrderly {w} {w'} i (one_call {a} {b} {c} call rest) =
      Calls-IsOrderly
        (Change-IsOrderly G k encoding a.ledger b.ledger (Call-Change H G k encoding call) i) rest

-- Two claims of one effect are ordered by their attempts.
resolved-or_same :
    (l : Ledger) (d e : EffectDispatch)
    → IsOrderly l
    → In d l.dispatches
    → In e l.dispatches
    → d.effect_id ≡ e.effect_id
    → may_have_occurred l d ≡ true
    → may_have_occurred l e ≡ true
    → d ≡ e
resolved-or_same l d e i m n same p q = elim (Bool-cases (ltb d.attempt_number e.attempt_number)) [
  | inl t ↦
      let never = HasFailed-never l d i (i.resolved d e m n same (ground arith)) in
      absurd (ground (arith, never, p))
  | inr t ↦ elim (Bool-cases (ltb e.attempt_number d.attempt_number)) [
    | inl u ↦
        let never = HasFailed-never l e i (i.resolved e d n m (sym same) (ground arith)) in
        absurd (ground (arith, never, q))
    | inr u ↦ i.one_attempt d e m n same (ground arith)
  ]
]

-- From a workspace without claims and results, after any sequence of calls with any outcomes: of the
-- claims of one effect, at most one may have had its effect, that is, has no result or a result that
-- does not exclude it.
pub claim_external_effect-once :
    (H : Material → String) (G : EffectMaterial → String) (k : Keys) (encoding : ResultEncoding k)
    (w w' : EffectWorkspace)
    → w.ledger.dispatches ≡ []
    → w.ledger.results ≡ []
    → Calls H G k encoding w w'
    → (d e : EffectDispatch) → In d w'.ledger.dispatches
    → In e w'.ledger.dispatches
    → d.effect_id ≡ e.effect_id
    → may_have_occurred w'.ledger d ≡ true
    → may_have_occurred w'.ledger e ≡ true
    → d ≡ e
claim_external_effect-once H G k encoding w w' a b calls d e m n same p q =
    resolved-or_same w'.ledger d e
      (Calls-IsOrderly H G k encoding
        (subst (λ ds. IsSettled ds w.ledger.results) (sym a)
          (subst (IsSettled []) (sym b) no_claims-IsSettled))
        calls)
      m n same p q

-- From a workspace without claims and results, after any sequence of calls: a further call, whatever
-- its outcome, moves the lifecycle of each effect by one step of the abstract lifecycle or not at
-- all: requested, claimed, failed with a retry permitted, claimed with the next number, settled.
pub Call-Advances :
    (H : Material → String) (G : EffectMaterial → String) (k : Keys) (encoding : ResultEncoding k)
    (w u v : EffectWorkspace) (effect_id : String)
    → w.ledger.dispatches ≡ []
    → w.ledger.results ≡ []
    → Calls H G k encoding w u
    → Call H G k encoding u v
    → Advances (phase u.ledger effect_id) (phase v.ledger effect_id)
Call-Advances H G k encoding w u v effect_id a b calls call =
    Change-Advances G k encoding u.ledger v.ledger effect_id (Call-Change H G k encoding call) (
      Calls-IsOrderly H G k encoding
        (subst (λ ds. IsSettled ds w.ledger.results) (sym a)
          (subst (IsSettled []) (sym b) no_claims-IsSettled))
        calls)
