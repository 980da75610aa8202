-- ===== src/Effects/Latest.antt =====
-- The latest claim of an effect.
use governed_signal_to_conte.Base.{
  Bool, Bool-cases, In, List, Option-cases, String, [], ap, arith, false, inl, inr, ltb, none, refl,
  some, subst, sym, true, ◌++◌, ◌<◌, ◌==◌, ◌∙◌, ◌∷◌, ◌≡◌, ◌≤◌,
}
use governed_signal_to_conte.Effects.Claim.{latest_dispatch}
use governed_signal_to_conte.Effects.Tables.{EffectDispatch}

abbrev pub of_effect : String → EffectDispatch → Bool
of_effect effect_id d = d.effect_id == effect_id

-- No claim of an effect is later than the latest one.
pub record IsLatest (ds : List EffectDispatch) (effect_id : String) (x : EffectDispatch)
    : Type 0 where
  pub present : In x ds
  pub matches : of_effect effect_id x ≡ true
  pub greatest :
      (d : EffectDispatch)
      → In d ds
      → of_effect effect_id d ≡ true
      → d.attempt_number ≤ x.attempt_number

pub latest_dispatch-none :
    (ds : List EffectDispatch) (effect_id : String) (d : EffectDispatch)
    → latest_dispatch ds effect_id ≡ none
    → In d ds
    → of_effect effect_id d ≡ false
latest_dispatch-none [] effect_id d h m = absurd m
latest_dispatch-none (x ∷ xs) effect_id d h m = elim (Bool-cases (of_effect effect_id x)) [
  | inl e ↦ absurd (ground (arith, e, h))
  | inr e ↦ elim m [
    | inl same ↦ ap (of_effect effect_id) same ∙ e
    | inr rest ↦ latest_dispatch-none xs effect_id d (ground (arith, e, h)) rest
  ]
]

IsLatest-skip :
    (x y : EffectDispatch) (xs : List EffectDispatch) (effect_id : String)
    → IsLatest xs effect_id y
    → (of_effect effect_id x ≡ true → x.attempt_number ≤ y.attempt_number)
    → IsLatest (x ∷ xs) effect_id y
IsLatest-skip x y xs effect_id i h = record {
  present = inr i.present;
  matches = i.matches;
  greatest = λ d m e. elim m [
    | inl same ↦
        subst (λ z. z.attempt_number ≤ y.attempt_number) (sym same)
          (h (ap (of_effect effect_id) (sym same) ∙ e))
    | inr rest ↦ i.greatest d rest e
  ];
}

IsLatest-first :
    (x : EffectDispatch) (xs : List EffectDispatch) (effect_id : String)
    → of_effect effect_id x ≡ true
    → ((d : EffectDispatch)
        → In d xs
        → of_effect effect_id d ≡ true
        → d.attempt_number ≤ x.attempt_number)
    → IsLatest (x ∷ xs) effect_id x
IsLatest-first x xs effect_id m h = record {
  present = inl refl;
  matches = m;
  greatest = λ d k e. elim k [
    | inl same ↦ subst (λ z. z.attempt_number ≤ x.attempt_number) (sym same) (ground arith)
    | inr rest ↦ h d rest e
  ];
}

pub latest_dispatch-IsLatest :
    (ds : List EffectDispatch) (effect_id : String) (x : EffectDispatch)
    → latest_dispatch ds effect_id ≡ some x
    → IsLatest ds effect_id x
latest_dispatch-IsLatest [] effect_id x h = cc
latest_dispatch-IsLatest (y ∷ ys) effect_id x h = elim (Bool-cases (of_effect effect_id y)) [
  | inr e ↦
      IsLatest-skip y x ys effect_id
        (latest_dispatch-IsLatest ys effect_id x (ground (arith, e, h)))
        (λ k. absurd (ground (arith, e, k)))
  | inl e ↦ elim (Option-cases (latest_dispatch ys effect_id)) [
    | inl n ↦ subst (IsLatest (y ∷ ys) effect_id) (ground (arith, e, n, h)) (
        IsLatest-first y ys effect_id e
          (λ d m k. absurd (ground (arith, k, latest_dispatch-none ys effect_id d n m))))
    | inr (z, n) ↦
        let i = latest_dispatch-IsLatest ys effect_id z n in
        elim (Bool-cases (ltb y.attempt_number z.attempt_number)) [
          | inl t ↦
              subst (IsLatest (y ∷ ys) effect_id) (ground (arith, e, n, t, h))
                (IsLatest-skip y z ys effect_id i (λ k. ground arith))
          | inr t ↦
              subst (IsLatest (y ∷ ys) effect_id) (ground (arith, e, n, t, h)) (
                IsLatest-first y ys effect_id e
                  (λ d m k. let le = i.greatest d m k in ground arith))
        ]
  ]
]

-- A claim of another effect.
pub latest_dispatch-snoc_other :
    (ds : List EffectDispatch) (d : EffectDispatch) (effect_id : String)
    → of_effect effect_id d ≡ false
    → latest_dispatch (ds ++ d ∷ []) effect_id ≡ latest_dispatch ds effect_id
latest_dispatch-snoc_other [] d effect_id h = ground arith
latest_dispatch-snoc_other (x ∷ xs) d effect_id h =
    rw (latest_dispatch, latest_dispatch-snoc_other xs d effect_id h) refl

-- A claim that is later than the others.
pub latest_dispatch-snoc :
    (ds : List EffectDispatch) (d : EffectDispatch) (effect_id : String)
    → of_effect effect_id d ≡ true
    → ((x : EffectDispatch)
        → In x ds
        → of_effect effect_id x ≡ true
        → x.attempt_number < d.attempt_number)
    → latest_dispatch (ds ++ d ∷ []) effect_id ≡ some d
latest_dispatch-snoc [] d effect_id h later = ground arith
latest_dispatch-snoc (x ∷ xs) d effect_id h later =
    let rest = latest_dispatch-snoc xs d effect_id h (λ y m. later y (inr m)) in
    elim (Bool-cases (of_effect effect_id x)) [
      | inl e ↦ let lt = later x (inl refl) e in ground (arith, e, rest, lt)
      | inr e ↦ ground (arith, e, rest)
    ]
