-- ===== src/Effects/Answered.antt =====
-- Each result moves the lifecycle of the effect it answers, and that of no other.
use governed_signal_to_conte.Base.{
  Bool-cases, In, Option-cases, String, ap, arith, eq_iff, false, find_first-snoc_new,
  find_first-snoc_other, find_first→in, if◌then◌else◌, inl, inr, nat_eq, none, refl, some, subst,
  sym, ℕ, ◌==◌, ◌∙◌, ◌≡◌,
}
use governed_signal_to_conte.Effects.Answer.{NewResult}
use governed_signal_to_conte.Effects.Claim.{latest_dispatch}
use governed_signal_to_conte.Effects.Ingest.{Recorded, result_row}
use governed_signal_to_conte.Effects.Keys.{ResultProof, SignedResult}
use governed_signal_to_conte.Effects.Latest.{
  latest_dispatch-IsLatest, latest_dispatch-none, of_effect,
}
use governed_signal_to_conte.Effects.Lifecycle.{
  HasFailed, IsOrderly, PhaseStep, claimed, fails, may_follow, phase, phase_after, settles,
}
use governed_signal_to_conte.Effects.Refines.{
  Advances, answered-phase, same_latest-phase, step_between, unanswered-phase,
}
use governed_signal_to_conte.Effects.Rows.{find_dispatch, result_of}
use governed_signal_to_conte.Effects.Tables.{EffectDispatch, EffectRequest, EffectResult, Ledger}

result-step : (n : ℕ) (r : EffectResult) → PhaseStep (claimed n) (phase_after n (some r))
result-step n r = elim (Bool-cases (may_follow r)) [
  | inl e ↦ subst (PhaseStep (claimed n)) (sym (rw (phase_after, e, if◌then◌else◌) refl)) fails
  | inr e ↦ subst (PhaseStep (claimed n)) (sym (rw (phase_after, e, if◌then◌else◌) refl)) settles
]

module _ (signed : SignedResult) (proof : ResultProof) (q : EffectRequest) (d : EffectDispatch)
    (event_id : String) (r : Recorded) (l l' : Ledger) (i : IsOrderly l)
    (found : find_dispatch l signed.envelope.dispatch_id ≡ some d)
    (n : NewResult signed proof q d event_id r l l') where
  -- The claim that is answered.
  abbrev row : EffectResult
  row = result_row signed proof event_id

  present : In d l.dispatches × (d.dispatch_id ≡ signed.envelope.dispatch_id)
  present =
      let (m, e) =
        find_first→in (λ x. x.dispatch_id == signed.envelope.dispatch_id) l.dispatches found in
      (m, (eq_iff d.dispatch_id signed.envelope.dispatch_id).0 e)

  open_before : result_of l.results d.dispatch_id ≡ none
  open_before = ap (result_of l.results) present.1 ∙ n.unanswered

  never_failed : HasFailed l.results d → ⊥
  unfolding HasFailed
  never_failed (s, e, f) = ground (arith, open_before, e)

  -- It is the latest of its effect.
  is_latest : (y : EffectDispatch) → latest_dispatch l.dispatches d.effect_id ≡ some y → y ≡ d
  is_latest y h =
      let latest = latest_dispatch-IsLatest l.dispatches d.effect_id y h in
      let le = latest.greatest d present.0 ((eq_iff d.effect_id d.effect_id).1 refl) in
      let same_effect = (eq_iff y.effect_id d.effect_id).0 latest.matches in
      elim (Bool-cases (nat_eq d.attempt_number y.attempt_number)) [
        | inl t ↦ i.one_attempt y d latest.present present.0 same_effect (ground arith)
        | inr t ↦ absurd (
            never_failed (i.resolved d y present.0 latest.present (sym same_effect) (ground arith)))
      ]

  latest_found : latest_dispatch l.dispatches d.effect_id ≡ some d
  latest_found = elim (Option-cases (latest_dispatch l.dispatches d.effect_id)) [
    | inl e ↦
        let other = latest_dispatch-none l.dispatches d.effect_id d e present.0 in
        let same = (eq_iff d.effect_id d.effect_id).1 refl in absurd (ground (arith, other, same))
    | inr (y, e) ↦ e ∙ ap some (is_latest y e)
  ]

  latest_after :
      (effect_id : String)
      → latest_dispatch l'.dispatches effect_id ≡ latest_dispatch l.dispatches effect_id
  latest_after effect_id = ap (λ x. latest_dispatch x.dispatches effect_id) n.changed

  row_found : result_of l'.results d.dispatch_id ≡ some row
  row_found =
      ap (λ x. result_of x.results d.dispatch_id) n.changed
      ∙ find_first-snoc_new (λ x. x.envelope.dispatch_id == d.dispatch_id) l.results row open_before
          ((eq_iff signed.envelope.dispatch_id d.dispatch_id).1 (sym present.1))

  answered-PhaseStep : PhaseStep (phase l d.effect_id) (phase l' d.effect_id)
  answered-PhaseStep =
      step_between (claimed d.attempt_number) (phase_after d.attempt_number (some row))
        (phase l d.effect_id) (phase l' d.effect_id) (result-step d.attempt_number row)
        (unanswered-phase l d.effect_id d latest_found open_before)
        (answered-phase l' d.effect_id d row (latest_after d.effect_id ∙ latest_found) row_found)

  -- A claim of another effect has another id.
  other_result :
      (other : String) (y : EffectDispatch)
      → of_effect other d ≡ false
      → latest_dispatch l.dispatches other ≡ some y
      → result_of l'.results y.dispatch_id ≡ result_of l.results y.dispatch_id
  other_result other y e h =
      let latest = latest_dispatch-IsLatest l.dispatches other y h in
      ap (λ x. result_of x.results y.dispatch_id) n.changed
      ∙ find_first-snoc_other (λ x. x.envelope.dispatch_id == y.dispatch_id) l.results row
          (elim (Bool-cases (signed.envelope.dispatch_id == y.dispatch_id)) [
            | inl t ↦
                let same =
                  i.one_id d y present.0 latest.present
                    (present.1 ∙ (eq_iff signed.envelope.dispatch_id y.dispatch_id).0 t) in
                absurd (ground (arith, e, ap (of_effect other) same ∙ latest.matches))
            | inr t ↦ t
          ])

  pub NewResult-Advances : (other : String) → Advances (phase l other) (phase l' other)
  NewResult-Advances other = elim (Bool-cases (of_effect other d)) [
    | inl e ↦ inl (
        subst (λ x. PhaseStep (phase l x) (phase l' x)) ((eq_iff d.effect_id other).0 e)
          answered-PhaseStep)
    | inr e ↦
        inr (same_latest-phase l l' other (latest_after other) (λ y h. other_result other y e h))
  ]
