-- ===== src/Effects/Refines.antt =====
-- Each claim and each result moves the lifecycle of its own effect by one step, and that of no other.
use governed_signal_to_conte.Base.{
  Bool-cases, Option, Option-cases, String, ap, eq_iff, find_first-none, if◌then◌else◌, inl, inr,
  none, none-find_first, refl, some, subst, sym, ◌+◌, ◌==◌, ◌∙◌, ◌≡◌, ◌⊎◌,
}
use governed_signal_to_conte.Effects.Claim.{latest_dispatch}
use governed_signal_to_conte.Effects.Frame.{Claimed}
use governed_signal_to_conte.Effects.Latest.{
  latest_dispatch-snoc, latest_dispatch-snoc_other, of_effect,
}
use governed_signal_to_conte.Effects.Lifecycle.{
  Claimed-above, HasFailed, IsOrderly, Phase, PhaseStep, claimed, first_claim, next_attempt-cases,
  next_claim, phase, phase_after, requested, retryable,
}
use governed_signal_to_conte.Effects.Rows.{result_of}
use governed_signal_to_conte.Effects.Tables.{EffectDispatch, EffectResult, Ledger}

-- The abstract lifecycle makes one step, or none.
abbrev pub Advances : Phase → Phase → Type 0
Advances p q = PhaseStep p q ⊎ (p ≡ q)

phase_of :
    (l : Ledger) (effect_id : String) (o : Option EffectDispatch)
    → latest_dispatch l.dispatches effect_id ≡ o
    → phase l effect_id ≡ elim o [
      | none ↦ requested
      | some d ↦ phase_after d.attempt_number (result_of l.results d.dispatch_id)
    ]
unfolding phase
phase_of l effect_id o h = rw (h, phase) refl

failed-phase :
    (l : Ledger) (effect_id : String) (d : EffectDispatch)
    → latest_dispatch l.dispatches effect_id ≡ some d
    → HasFailed l.results d
    → phase l effect_id ≡ retryable d.attempt_number
unfolding HasFailed phase
failed-phase l effect_id d h (r, e, f) = rw (h, phase, e, phase_after, f, if◌then◌else◌) refl

pub unanswered-phase :
    (l : Ledger) (effect_id : String) (d : EffectDispatch)
    → latest_dispatch l.dispatches effect_id ≡ some d
    → result_of l.results d.dispatch_id ≡ none
    → phase l effect_id ≡ claimed d.attempt_number
unfolding phase
unanswered-phase l effect_id d h e = rw (h, phase, e, phase_after) refl

pub answered-phase :
    (l : Ledger) (effect_id : String) (d : EffectDispatch) (r : EffectResult)
    → latest_dispatch l.dispatches effect_id ≡ some d
    → result_of l.results d.dispatch_id ≡ some r
    → phase l effect_id ≡ phase_after d.attempt_number (some r)
unfolding phase
answered-phase l effect_id d r h e = rw (h, phase, e) refl

requested-phase :
    (l : Ledger) (effect_id : String)
    → latest_dispatch l.dispatches effect_id ≡ none
    → phase l effect_id ≡ requested
unfolding phase
requested-phase l effect_id h = rw (h, phase) refl

-- No result is there before its claim.
new_id-unanswered :
    (effect_id : String) (d : EffectDispatch) (l l' : Ledger)
    → IsOrderly l
    → Claimed effect_id d l l'
    → result_of l.results d.dispatch_id ≡ none
new_id-unanswered effect_id d l l' i c =
    none-find_first (λ r. r.envelope.dispatch_id == d.dispatch_id) l.results
      (λ r m.
        let (x, n, e) = i.answers r m in
        let other =
          find_first-none (λ y. y.dispatch_id == d.dispatch_id) l.dispatches x c.new_id n in
        ap (λ y. y == d.dispatch_id) (sym e) ∙ other)

claimed-phase :
    (effect_id : String) (d : EffectDispatch) (l l' : Ledger)
    → IsOrderly l
    → Claimed effect_id d l l'
    → phase l' effect_id ≡ claimed d.attempt_number
claimed-phase effect_id d l l' i c =
    unanswered-phase l' effect_id d
      (ap (λ x. latest_dispatch x.dispatches effect_id) c.changed
        ∙ latest_dispatch-snoc l.dispatches d effect_id
            ((eq_iff d.effect_id effect_id).1 c.names_effect)
            (λ x m e. Claimed-above effect_id d x l l' c m e))
      (ap (λ x. result_of x.results d.dispatch_id) c.changed
        ∙ new_id-unanswered effect_id d l l' i c)

pub step_between : (p q p' q' : Phase) → PhaseStep p q → p' ≡ p → q' ≡ q → PhaseStep p' q'
step_between p q p' q' s e f = subst (λ x. PhaseStep x q') (sym e) (subst (PhaseStep p) (sym f) s)

Claimed-PhaseStep :
    (effect_id : String) (d : EffectDispatch) (l l' : Ledger)
    → IsOrderly l
    → Claimed effect_id d l l'
    → PhaseStep (phase l effect_id) (phase l' effect_id)
Claimed-PhaseStep effect_id d l l' i c =
    let after = claimed-phase effect_id d l l' i c in
    elim (next_attempt-cases l effect_id d.attempt_number c.takes_next) [
      | inl (n, one) ↦
          step_between requested (claimed 1) (phase l effect_id) (phase l' effect_id) first_claim
            (requested-phase l effect_id n) (after ∙ ap claimed one)
      | inr (y, n, f, s) ↦
          step_between (retryable y.attempt_number) (claimed (y.attempt_number + 1))
            (phase l effect_id) (phase l' effect_id) next_claim (failed-phase l effect_id y n f)
            (after ∙ ap claimed s)
    ]

pub same_latest-phase :
    (l l' : Ledger) (effect_id : String)
    → latest_dispatch l'.dispatches effect_id ≡ latest_dispatch l.dispatches effect_id
    → ((d : EffectDispatch)
        → latest_dispatch l.dispatches effect_id ≡ some d
        → result_of l'.results d.dispatch_id ≡ result_of l.results d.dispatch_id)
    → phase l effect_id ≡ phase l' effect_id
unfolding phase
same_latest-phase l l' effect_id h k =
    elim (Option-cases (latest_dispatch l.dispatches effect_id)) [
      | inl e ↦ requested-phase l effect_id e ∙ sym (requested-phase l' effect_id (h ∙ e))
      | inr (d, e) ↦ rw (e, phase, h, phase, e, k d e) refl
    ]

pub Claimed-Advances :
    (effect_id other : String) (d : EffectDispatch) (l l' : Ledger)
    → IsOrderly l
    → Claimed effect_id d l l'
    → Advances (phase l other) (phase l' other)
Claimed-Advances effect_id other d l l' i c = elim (Bool-cases (of_effect other d)) [
  | inl e ↦
      let same = sym c.names_effect ∙ (eq_iff d.effect_id other).0 e in
      inl (
        subst (λ x. PhaseStep (phase l x) (phase l' x)) same
          (Claimed-PhaseStep effect_id d l l' i c))
  | inr e ↦ inr (
      same_latest-phase l l' other
        (ap (λ x. latest_dispatch x.dispatches other) c.changed
          ∙ latest_dispatch-snoc_other l.dispatches d other e)
        (λ x h. ap (λ y. result_of y.results x.dispatch_id) c.changed))
]
