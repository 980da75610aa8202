-- ===== src/Json/Sensitive.antt =====
-- The keys whose values a receipt must not show (receipts.py), described by the parts of their lower
-- case.
use governed_signal_to_conte.Base.{
  Bool, Bool-cases, In, List, String, [], any, arith, codes, false, if◌then◌else◌, inl, inr, map,
  refl, subst, true, ℕ, ◌++◌, ◌+◌, ◌∙◌, ◌∷◌, ◌≡◌, ◌≤◌, ◌⊎◌,
}
use governed_signal_to_conte.Json.{
  is_redacted_key, lower, lower_char, safe_opaque_reference_keys, sensitive_key_fragments,
}
use governed_signal_to_conte.Scope.{codes_eq, contains}
use governed_signal_to_conte.Scope.Accepted.{codes_eq→eq, eq_codes}
use governed_signal_to_conte.Scope.Parts.{Occurs, Occurs-contains, contains-Occurs}

-- What the lower case of a character begins with, as far as ASCII goes.
abbrev pub IsLowerCase : ℕ → List ℕ → Type 0
IsLowerCase c cs =
    ((65 ≤ c) × (c ≤ 90) × (cs ≡ (c + 32) ∷ []))
    ⊎ (((c ≡ 8490) × (cs ≡ 107 ∷ []))
        ⊎ (((c ≡ 304) × (cs ≡ 105 ∷ 775 ∷ []))
            ⊎ (¬ ((65 ≤ c) × (c ≤ 90)) × ¬ (c ≡ 8490) × ¬ (c ≡ 304) × (cs ≡ c ∷ []))))

-- The lower case of a text, character by character.
abbrev pub IsLowered : List ℕ → List ℕ → Type 0
IsLowered [] lowered = lowered ≡ []
IsLowered (c ∷ cs) lowered =
    (first : List ℕ) × (others : List ℕ) × IsLowerCase c first
    × IsLowered cs others
    × (lowered ≡ first ++ others)

abbrev pub sensitive_words : List String
sensitive_words = "authorization" ∷ "credential" ∷ "password" ∷ "secret" ∷ "token" ∷ []

-- A key with a sensitive word in its lower case, which is not `credential_ref`.
abbrev pub IsSensitive : String → Type 0
IsSensitive key =
    (lowered : List ℕ) × IsLowered (codes key) lowered
    × ¬ (lowered ≡ codes "credential_ref")
    × ((word : String) × In word sensitive_words × Occurs (codes word) lowered)

lower_char-IsLowerCase : (c : ℕ) → IsLowerCase c (lower_char c)
unfolding lower_char
lower_char-IsLowerCase c = ground arith

lower_char_unique : (c : ℕ) (cs : List ℕ) → IsLowerCase c cs → cs ≡ lower_char c
unfolding lower_char
lower_char_unique c cs (inl (low, high, e)) = ground (arith, low, high, e)
lower_char_unique c cs (inr (inl (k, e))) = ground (arith, k, e)
lower_char_unique c cs (inr (inr (inl (k, e)))) = ground (arith, k, e)
lower_char_unique c cs (inr (inr (inr (a, b, d, e)))) = ground (arith, a, b, d, e)

lower-IsLowered : (cs : List ℕ) → IsLowered cs (lower cs)
unfolding lower
lower-IsLowered [] = refl
lower-IsLowered (c ∷ cs) =
    (lower_char c, lower cs, lower_char-IsLowerCase c, lower-IsLowered cs, refl)

lower_unique : (cs lowered : List ℕ) → IsLowered cs lowered → lowered ≡ lower cs
unfolding lower
lower_unique [] lowered e = e
lower_unique (c ∷ cs) lowered (first, others, a, b, e) =
    let p = lower_char_unique c first a in let q = lower_unique cs others b in e ∙ rw (p, q) refl

any-word :
    (words : List String) (lowered : List ℕ)
    → any (λ fragment. contains fragment lowered) (map codes words) ≡ true
    → (word : String) × In word words × Occurs (codes word) lowered
any-word [] lowered h = cc
any-word (w ∷ ws) lowered h = elim (Bool-cases (contains (codes w) lowered)) [
  | inl e ↦ (w, inl refl, contains-Occurs (codes w) lowered e)
  | inr e ↦ let (v, m, o) = any-word ws lowered (ground (arith, e, h)) in (v, inr m, o)
]

word-any :
    (words : List String) (word : String) (lowered : List ℕ)
    → In word words
    → contains (codes word) lowered ≡ true
    → any (λ fragment. contains fragment lowered) (map codes words) ≡ true
word-any [] word lowered m h = absurd m
word-any (w ∷ ws) word lowered (inl e) h =
    rw (subst (λ z. contains (codes z) lowered ≡ true) e h) refl
word-any (w ∷ ws) word lowered (inr m) h =
    let rest = word-any ws word lowered m h in ground (arith, rest)

-- The test of a key, on its lower case.
abbrev redacts : List ℕ → Bool
redacts lowered =
    if any (codes_eq lowered) safe_opaque_reference_keys
    then false
    else any (λ fragment. contains fragment lowered) sensitive_key_fragments

redacts-word :
    (lowered : List ℕ)
    → redacts lowered ≡ true
    → (word : String) × In word sensitive_words × Occurs (codes word) lowered
redacts-word lowered h = elim (Bool-cases (codes_eq lowered (codes "credential_ref"))) [
  | inl e ↦ absurd (ground (arith, e, h))
  | inr e ↦ any-word sensitive_words lowered (ground (arith, e, h))
]

redacts-other : (lowered : List ℕ) → redacts lowered ≡ true → ¬ (lowered ≡ codes "credential_ref")
redacts-other lowered h same =
    let e = eq_codes lowered (codes "credential_ref") same in ground (arith, e, h)

word-redacts :
    (lowered : List ℕ) (word : String)
    → ¬ (lowered ≡ codes "credential_ref")
    → In word sensitive_words
    → Occurs (codes word) lowered
    → redacts lowered ≡ true
word-redacts lowered word other m o =
    let found = word-any sensitive_words word lowered m (Occurs-contains (codes word) lowered o) in
    elim (Bool-cases (codes_eq lowered (codes "credential_ref"))) [
      | inl e ↦ absurd (other (codes_eq→eq lowered (codes "credential_ref") e))
      | inr e ↦ rw (e, found) refl
    ]

-- A key is redacted exactly when it is sensitive.
is_redacted_key-IsSensitive : (key : String) → is_redacted_key key ≡ true → IsSensitive key
unfolding is_redacted_key
is_redacted_key-IsSensitive key h =
    let lowered = lower (codes key) in
    (lowered, lower-IsLowered (codes key), redacts-other lowered h, redacts-word lowered h)

IsSensitive-is_redacted_key : (key : String) → IsSensitive key → is_redacted_key key ≡ true
unfolding is_redacted_key
IsSensitive-is_redacted_key key (lowered, l, other, (word, m, o)) =
    subst (λ z. redacts z ≡ true) (lower_unique (codes key) lowered l)
      (word-redacts lowered word other m o)

pub IsSensitive-cases :
    (key : String)
    → (IsSensitive key × (is_redacted_key key ≡ true))
      ⊎ ((¬ IsSensitive key) × (is_redacted_key key ≡ false))
IsSensitive-cases key = elim (Bool-cases (is_redacted_key key)) [
  | inl e ↦ inl (is_redacted_key-IsSensitive key e, e)
  | inr e ↦ inr (λ p. let q = IsSensitive-is_redacted_key key p in ground (arith, e, q), e)
]
