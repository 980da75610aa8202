-- ===== src/Effects/Settled.antt =====
-- Claims and results keep the tables settled (Lifecycle).
use governed_signal_to_conte.Base.{
  Bool-cases, In, In-snoc, In-snoc_pair, List, String, [], ap, arith, eq_iff, false,
  find_first-none, find_first-snoc, find_first→in, inl, inr, nat_eq, refl, snoc-In, some, subst,
  sym, true, ◌++◌, ◌<◌, ◌==◌, ◌∙◌, ◌∷◌, ◌≡◌,
}
use governed_signal_to_conte.Effects.Answer.{NewResult}
use governed_signal_to_conte.Effects.Envelopes.{breaks_result_semantics}
use governed_signal_to_conte.Effects.Frame.{Claimed}
use governed_signal_to_conte.Effects.Ingest.{Recorded, result_row}
use governed_signal_to_conte.Effects.Keys.{ResultProof, SignedResult}
use governed_signal_to_conte.Effects.Latest.{
  latest_dispatch-IsLatest, latest_dispatch-none, of_effect,
}
use governed_signal_to_conte.Effects.Lifecycle.{
  Claimed-above, HasFailed, IsOrderly, IsSettled, next_attempt-cases,
}
use governed_signal_to_conte.Effects.Rows.{find_dispatch}
use governed_signal_to_conte.Effects.Tables.{EffectDispatch, EffectRequest, EffectResult, Ledger}

named :
    (d : EffectDispatch) (effect_id : String)
    → d.effect_id ≡ effect_id
    → of_effect effect_id d ≡ true
named d effect_id e = (eq_iff d.effect_id effect_id).1 e

-- The claims of the effect that is being claimed.
earlier :
    (effect_id : String) (d x : EffectDispatch) (l l' : Ledger)
    → Claimed effect_id d l l'
    → In x l.dispatches
    → x.effect_id ≡ d.effect_id
    → x.attempt_number < d.attempt_number
earlier effect_id d x l l' c m e =
    Claimed-above effect_id d x l l' c m (named x effect_id (e ∙ c.names_effect))

-- Of those claims, each has failed.
earlier-HasFailed :
    (effect_id : String) (d x : EffectDispatch) (l l' : Ledger)
    → IsOrderly l
    → Claimed effect_id d l l'
    → In x l.dispatches
    → x.effect_id ≡ d.effect_id
    → HasFailed l.results x
earlier-HasFailed effect_id d x l l' i c m e =
    let matches = named x effect_id (e ∙ c.names_effect) in
    elim (next_attempt-cases l effect_id d.attempt_number c.takes_next) [
      | inl (n, one) ↦
          absurd (ground (arith, matches, latest_dispatch-none l.dispatches effect_id x n m))
      | inr (y, n, f, s) ↦
          let latest = latest_dispatch-IsLatest l.dispatches effect_id y n in
          let le = latest.greatest x m matches in
          let same_effect : x.effect_id ≡ y.effect_id =
            (eq_iff x.effect_id effect_id).0 matches
            ∙ sym ((eq_iff y.effect_id effect_id).0 latest.matches) in
          elim (Bool-cases (nat_eq x.attempt_number y.attempt_number)) [
            | inl t ↦
                subst (HasFailed l.results)
                  (i.one_attempt y x latest.present m (sym same_effect) (ground arith)) f
            | inr t ↦ i.resolved x y m latest.present same_effect (ground arith)
          ]
    ]

same_id-never :
    (effect_id : String) (d x : EffectDispatch) (l l' : Ledger)
    → Claimed effect_id d l l'
    → In x l.dispatches
    → x.dispatch_id ≡ d.dispatch_id
    → ⊥
same_id-never effect_id d x l l' c m e =
    let other = find_first-none (λ y. y.dispatch_id == d.dispatch_id) l.dispatches x c.new_id m in
    let same = (eq_iff x.dispatch_id d.dispatch_id).1 e in ground (arith, other, same)

Claimed-IsSettled :
    (effect_id : String) (d : EffectDispatch) (l l' : Ledger)
    → IsOrderly l
    → Claimed effect_id d l l'
    → IsSettled (l.dispatches ++ d ∷ []) l.results
Claimed-IsSettled effect_id d l l' i c = record {
  one_attempt =
      In-snoc_pair (λ x y. x.effect_id ≡ y.effect_id → x.attempt_number ≡ y.attempt_number → x ≡ y)
        l.dispatches d i.one_attempt
        (λ x m e a. let lt = earlier effect_id d x l l' c m e in absurd (ground arith))
        (λ y m e a. let lt = earlier effect_id d y l l' c m (sym e) in absurd (ground arith))
        (λ e a. refl);
  one_id =
      In-snoc_pair (λ x y. x.dispatch_id ≡ y.dispatch_id → x ≡ y) l.dispatches d i.one_id
        (λ x m e. absurd (same_id-never effect_id d x l l' c m e))
        (λ y m e. absurd (same_id-never effect_id d y l l' c m (sym e))) (λ e. refl);
  resolved =
      In-snoc_pair
        (λ x y.
          x.effect_id ≡ y.effect_id → x.attempt_number < y.attempt_number → HasFailed l.results x)
        l.dispatches d i.resolved (λ x m e a. earlier-HasFailed effect_id d x l l' i c m e)
        (λ y m e a. let lt = earlier effect_id d y l l' c m (sym e) in absurd (ground arith))
        (λ e a. absurd (ground arith));
  answers = λ r m. let (x, p, e) = i.answers r m in (x, snoc-In x d l.dispatches (inl p), e);
  meaningful = i.meaningful;
}

HasFailed-snoc :
    (rs : List EffectResult) (r : EffectResult) (d : EffectDispatch)
    → HasFailed rs d
    → HasFailed (rs ++ r ∷ []) d
unfolding HasFailed
HasFailed-snoc rs r d (s, e, f) =
    (s, find_first-snoc (λ x. x.envelope.dispatch_id == d.dispatch_id) rs r s e, f)

-- The claim that a stored result names.
answered :
    (l : Ledger) (dispatch_id : String) (d : EffectDispatch)
    → find_dispatch l dispatch_id ≡ some d
    → In d l.dispatches × (d.dispatch_id ≡ dispatch_id)
answered l dispatch_id d h =
    let (m, e) = find_first→in (λ x. x.dispatch_id == dispatch_id) l.dispatches h in
    (m, (eq_iff d.dispatch_id dispatch_id).0 e)

answered-IsSettled :
    (r : EffectResult) (d : EffectDispatch) (l : Ledger)
    → IsOrderly l
    → find_dispatch l r.envelope.dispatch_id ≡ some d
    → breaks_result_semantics r.envelope ≡ false
    → IsSettled l.dispatches (l.results ++ r ∷ [])
answered-IsSettled r d l i h b = record {
  one_attempt = i.one_attempt;
  one_id = i.one_id;
  resolved = λ x y m n e a. HasFailed-snoc l.results r x (i.resolved x y m n e a);
  answers = λ s m. elim (In-snoc s r l.results m) [
    | inl p ↦ i.answers s p
    | inr p ↦
        let (n, e) = answered l r.envelope.dispatch_id d h in
        (d, n, e ∙ ap (λ x. x.envelope.dispatch_id) (sym p))
  ];
  meaningful = λ s m. elim (In-snoc s r l.results m) [
    | inl p ↦ i.meaningful s p
    | inr p ↦ ap (λ x. breaks_result_semantics x.envelope) p ∙ b
  ];
}

-- A claim keeps the tables settled.
pub Claimed-IsOrderly :
    (effect_id : String) (d : EffectDispatch) (l l' : Ledger)
    → IsOrderly l
    → Claimed effect_id d l l'
    → IsOrderly l'
Claimed-IsOrderly effect_id d l l' i c =
    subst IsOrderly (sym c.changed) (Claimed-IsSettled effect_id d l l' i c)

-- A result keeps the tables settled.
pub NewResult-IsOrderly :
    (signed : SignedResult) (proof : ResultProof) (q : EffectRequest) (d : EffectDispatch)
    (event_id : String) (r : Recorded) (l l' : Ledger)
    → IsOrderly l
    → find_dispatch l signed.envelope.dispatch_id ≡ some d
    → breaks_result_semantics signed.envelope ≡ false
    → NewResult signed proof q d event_id r l l'
    → IsOrderly l'
NewResult-IsOrderly signed proof q d event_id r l l' i h b n =
    subst IsOrderly (sym n.changed)
      (answered-IsSettled (result_row signed proof event_id) d l i h b)
