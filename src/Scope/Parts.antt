-- ===== src/Scope/Parts.antt =====
-- Parts of a text (`in` of Python, which models.py and receipts.py use).
use governed_signal_to_conte.Base.{
  Bool-cases, List, [], ap, arith, inl, inr, refl, subst, sym, true, ℕ, ◌++◌, ◌∷◌, ◌≡◌,
}
use governed_signal_to_conte.Scope.{contains, is_prefix}

-- A text that stands in another one.
abbrev pub Occurs : List ℕ → List ℕ → Type 0
Occurs phrase cs = (before : List ℕ) × (rest : List ℕ) × (cs ≡ before ++ (phrase ++ rest))

is_prefix_rest : (ps cs : List ℕ) → is_prefix ps cs ≡ true → (rest : List ℕ) × (cs ≡ ps ++ rest)
unfolding is_prefix
is_prefix_rest [] cs h = (cs, refl)
is_prefix_rest (p ∷ ps) [] h = cc
is_prefix_rest (p ∷ ps) (c ∷ cs) h =
    let (rest, e) = is_prefix_rest ps cs (ground arith) in
    let same : c ≡ p = ground arith in (rest, cc (same, e))

is_prefix_again : (ps rest : List ℕ) → is_prefix ps (ps ++ rest) ≡ true
unfolding is_prefix
is_prefix_again [] rest = refl
is_prefix_again (p ∷ ps) rest = ground (arith, is_prefix_again ps rest)

pub contains-Occurs : (phrase cs : List ℕ) → contains phrase cs ≡ true → Occurs phrase cs
unfolding contains
contains-Occurs phrase [] h = let (rest, e) = is_prefix_rest phrase [] h in ([], rest, e)
contains-Occurs phrase (c ∷ cs) h = elim (Bool-cases (is_prefix phrase (c ∷ cs))) [
  | inl e ↦ let (rest, r) = is_prefix_rest phrase (c ∷ cs) e in ([], rest, r)
  | inr e ↦
      let (before, rest, r) = contains-Occurs phrase cs (ground (arith, e, h)) in
      (c ∷ before, rest, ap (λ z. c ∷ z) r)
]

contains-first : (phrase cs : List ℕ) → is_prefix phrase cs ≡ true → contains phrase cs ≡ true
unfolding contains
contains-first phrase [] h = h
contains-first phrase (c ∷ cs) h = rw h refl

contains-parts : (phrase before rest : List ℕ) → contains phrase (before ++ (phrase ++ rest)) ≡ true
unfolding contains
contains-parts phrase [] rest = contains-first phrase (phrase ++ rest) (is_prefix_again phrase rest)
contains-parts phrase (c ∷ before) rest = ground (arith, contains-parts phrase before rest)

pub Occurs-contains : (phrase cs : List ℕ) → Occurs phrase cs → contains phrase cs ≡ true
Occurs-contains phrase cs (before, rest, e) =
    subst (λ z. contains phrase z ≡ true) (sym e) (contains-parts phrase before rest)
