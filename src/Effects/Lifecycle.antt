-- ===== src/Effects/Lifecycle.antt =====
-- The lifecycle of an effect, as its claims and results tell it, and the tables in which every claim
-- but the latest has come to a failure that permits another.
use governed_signal_to_conte.Base.{
  Bool, In, List, Option, Option-cases, String, [], arith, false, if◌then◌else◌, inl, inr, none, ok,
  some, true, ℕ, ◌&&◌, ◌+◌, ◌<◌, ◌≡◌, ◌⊎◌,
}
use governed_signal_to_conte.Effects.Claim.{latest_dispatch, next_attempt, require_retryable}
use governed_signal_to_conte.Effects.Envelopes.{breaks_result_semantics}
use governed_signal_to_conte.Effects.Frame.{Claimed}
use governed_signal_to_conte.Effects.Latest.{
  latest_dispatch-IsLatest, latest_dispatch-none, of_effect,
}
use governed_signal_to_conte.Effects.Rows.{result_of}
use governed_signal_to_conte.Effects.Tables.{EffectDispatch, EffectResult, Ledger, is_failed}

-- Requested, claimed as the n-th attempt, failed so that another attempt may follow, or at its end.
pub data Phase : Type 0 where
  requested : Phase
  claimed retryable settled : ℕ → Phase

unfoldable pub may_follow : EffectResult → Bool
may_follow r = is_failed r.envelope.outcome && r.envelope.retry_permitted

abbrev pub phase_after : ℕ → Option EffectResult → Phase
phase_after n none = claimed n
phase_after n (some r) = if may_follow r then retryable n else settled n

unfoldable pub phase : Ledger → String → Phase
unfolding may_follow
phase l effect_id = elim (latest_dispatch l.dispatches effect_id) [
  | none ↦ requested
  | some d ↦ phase_after d.attempt_number (result_of l.results d.dispatch_id)
]

-- The moves of the abstract lifecycle.
pub data PhaseStep : Phase → Phase → Type 0 where
  first_claim : PhaseStep requested (claimed 1)
  next_claim : {n : ℕ} → PhaseStep (retryable n) (claimed (n + 1))
  fails : {n : ℕ} → PhaseStep (claimed n) (retryable n)
  settles : {n : ℕ} → PhaseStep (claimed n) (settled n)

-- A claim has come to a failure after which another attempt is permitted.
unfoldable pub HasFailed : List EffectResult → EffectDispatch → Type 0
HasFailed rs d = (r : EffectResult) × (result_of rs d.dispatch_id ≡ some r) × (may_follow r ≡ true)

-- The tables of claims and results, as the transactions leave them.
pub record IsSettled (ds : List EffectDispatch) (rs : List EffectResult) : Type 0 where
  pub one_attempt :
      (d e : EffectDispatch)
      → In d ds
      → In e ds
      → d.effect_id ≡ e.effect_id
      → d.attempt_number ≡ e.attempt_number
      → d ≡ e
  pub one_id : (d e : EffectDispatch) → In d ds → In e ds → d.dispatch_id ≡ e.dispatch_id → d ≡ e
  pub resolved :
      (d e : EffectDispatch)
      → In d ds
      → In e ds
      → d.effect_id ≡ e.effect_id
      → d.attempt_number < e.attempt_number
      → HasFailed rs d
  pub answers :
      (r : EffectResult)
      → In r rs
      → (d : EffectDispatch) × In d ds × (d.dispatch_id ≡ r.envelope.dispatch_id)
  pub meaningful : (r : EffectResult) → In r rs → breaks_result_semantics r.envelope ≡ false

abbrev pub IsOrderly : Ledger → Type 0
IsOrderly l = IsSettled l.dispatches l.results

pub no_claims-IsSettled : IsSettled [] []
no_claims-IsSettled = record {
  one_attempt = λ d e m n. absurd m;
  one_id = λ d e m n. absurd m;
  resolved = λ d e m n. absurd m;
  answers = λ r m. absurd m;
  meaningful = λ r m. absurd m;
}

-- What `next_attempt` allows, by what it has found.
pub next_attempt-cases :
    (l : Ledger) (effect_id : String) (n : ℕ)
    → next_attempt l effect_id ≡ ok n
    → ((latest_dispatch l.dispatches effect_id ≡ none) × (n ≡ 1))
      ⊎ ((d : EffectDispatch) × (latest_dispatch l.dispatches effect_id ≡ some d)
          × HasFailed l.results d
          × (n ≡ d.attempt_number + 1))
unfolding next_attempt require_retryable HasFailed may_follow
next_attempt-cases l effect_id n h = elim (Option-cases (latest_dispatch l.dispatches effect_id)) [
  | inl e ↦ inl (e, ground (arith, e, h))
  | inr (d, e) ↦ elim (Option-cases (result_of l.results d.dispatch_id)) [
    | inl f ↦ absurd (ground (arith, e, f, h))
    | inr (r, f) ↦ inr (d, e, (r, f, ground (arith, e, f, h)), ground (arith, e, f, h))
  ]
]

-- The number of a new claim is above those of its effect.
pub Claimed-above :
    (effect_id : String) (d x : EffectDispatch) (l l' : Ledger)
    → Claimed effect_id d l l'
    → In x l.dispatches
    → of_effect effect_id x ≡ true
    → x.attempt_number < d.attempt_number
Claimed-above effect_id d x l l' c m e =
    elim (next_attempt-cases l effect_id d.attempt_number c.takes_next) [
      | inl (n, one) ↦ absurd (ground (arith, e, latest_dispatch-none l.dispatches effect_id x n m))
      | inr (y, n, f, s) ↦
          let le = (latest_dispatch-IsLatest l.dispatches effect_id y n).greatest x m e in
          ground (arith, s, le)
    ]
