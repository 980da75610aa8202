-- ===== src/Scope/Components.antt =====
-- The components of a scope identifier (models.py): the parts of the text between its separators.
use governed_signal_to_conte.Base.{
  Bool, Bool-cases, In, List, [], all, ap, arith, false, inl, inr, length, refl, subst, sym, true,
  ℕ, ◌++◌, ◌∙◌, ◌∷◌, ◌≡◌, ◌≤◌, ◌⊎◌,
}
use governed_signal_to_conte.Scope.{cons_head, is_separator, is_word, normalize, split_dash}
use governed_signal_to_conte.Scope.Grammar.{
  is_component, is_separator_word, normal_char_other, normal_char_separator, split_dash_cons,
  split_normal,
}

-- `.`, `_` or `-`
abbrev pub IsSeparator : ℕ → Type 0
IsSeparator c = (c ≡ 46) ⊎ ((c ≡ 95) ⊎ (c ≡ 45))

-- A text made of these components with a separator between any two.
abbrev pub IsJoined : List (List ℕ) → List ℕ → Type 0
IsJoined [] cs = ⊥
IsJoined (w ∷ []) cs = cs ≡ w
IsJoined (w ∷ v ∷ ws) cs =
    (c : ℕ) × (rest : List ℕ) × IsSeparator c × IsJoined (v ∷ ws) rest × (cs ≡ w ++ c ∷ rest)

-- The components with `-` between any two.
abbrev pub dashed : List (List ℕ) → List ℕ
dashed [] = []
dashed (w ∷ []) = w
dashed (w ∷ v ∷ ws) = w ++ 45 ∷ dashed (v ∷ ws)

-- `[a-z0-9]`
abbrev pub IsLetter : ℕ → Type 0
IsLetter c = ((97 ≤ c) × (c ≤ 122)) ⊎ ((48 ≤ c) × (c ≤ 57))

-- A word of `[a-z0-9]+`.
abbrev pub IsWord : List ℕ → Type 0
IsWord w = (1 ≤ length w) × ((c : ℕ) → In c w → IsLetter c)

is_separator-IsSeparator : (c : ℕ) → is_separator c ≡ true → IsSeparator c
unfolding is_separator
is_separator-IsSeparator c h = ground arith

IsSeparator-is_separator : (c : ℕ) → IsSeparator c → is_separator c ≡ true
unfolding is_separator
IsSeparator-is_separator c h = ground arith

is_word-IsLetter : (c : ℕ) → is_word c ≡ true → IsLetter c
unfolding is_word
is_word-IsLetter c h = ground arith

IsLetter-is_word : (c : ℕ) → IsLetter c → is_word c ≡ true
unfolding is_word
IsLetter-is_word c h = ground arith

pub all-In :
    {A : Type 0} (p : A → Bool) (xs : List A) (x : A) → all p xs ≡ true → In x xs → p x ≡ true
all-In p [] x h m = absurd m
all-In p (y ∷ ys) x h m = ground (arith, h, m, all-In p ys x)

In-all :
    {A : Type 0} (p : A → Bool) (xs : List A) → ((x : A) → In x xs → p x ≡ true) → all p xs ≡ true
In-all p [] h = refl
In-all p (y ∷ ys) h =
    let first = h y (inl refl) in
    let others = In-all p ys (λ x m. h x (inr m)) in ground (arith, first, others)

pub is_component-IsWord : (w : List ℕ) → is_component w ≡ true → IsWord w
is_component-IsWord [] h = cc
is_component-IsWord (c ∷ cs) h =
    (ground arith, λ d m. is_word-IsLetter d (all-In is_word (c ∷ cs) d (ground (arith, h)) m))

pub IsWord-is_component : (w : List ℕ) → IsWord w → is_component w ≡ true
IsWord-is_component [] (n, h) = absurd (ground arith)
IsWord-is_component (c ∷ cs) (n, h) = In-all is_word (c ∷ cs) (λ d m. IsLetter-is_word d (h d m))

-- A character in front of a joined text belongs to its first component.
IsJoined-cons :
    (c : ℕ) (w : List ℕ) (ws : List (List ℕ)) (cs : List ℕ)
    → IsJoined (w ∷ ws) cs
    → IsJoined ((c ∷ w) ∷ ws) (c ∷ cs)
IsJoined-cons c w [] cs e = ap (λ z. c ∷ z) e
IsJoined-cons c w (v ∷ ws) cs (d, rest, s, j, e) = (d, rest, s, j, ap (λ z. c ∷ z) e)

split_normal-separator :
    (c : ℕ) (cs : List ℕ) → is_separator c ≡ true → split_normal (c ∷ cs) ≡ [] ∷ split_normal cs
unfolding split_dash normalize
split_normal-separator c cs s = rw (normal_char_separator c s) refl

split_normal-letter :
    (c : ℕ) (cs : List ℕ)
    → is_separator c ≡ false
    → split_normal (c ∷ cs) ≡ cons_head c (split_normal cs)
unfolding split_dash normalize
split_normal-letter c cs s = let (same, other) = normal_char_other c s in rw (same, other) refl

pub split_normal-IsJoined : (cs : List ℕ) → IsJoined (split_normal cs) cs
unfolding split_dash normalize
split_normal-IsJoined [] = refl
split_normal-IsJoined (c ∷ cs) =
    let (w, ws, e) = split_dash_cons (normalize cs) in
    let j = subst (λ z. IsJoined z cs) e (split_normal-IsJoined cs) in
    elim (Bool-cases (is_separator c)) [
      | inl s ↦
          subst (λ z. IsJoined z (c ∷ cs))
            (sym (split_normal-separator c cs s ∙ ap (λ z. [] ∷ z) e))
            (c, cs, is_separator-IsSeparator c s, j, refl)
      | inr s ↦
          subst (λ z. IsJoined z (c ∷ cs)) (sym (split_normal-letter c cs s ∙ ap (cons_head c) e))
            (IsJoined-cons c w ws cs j)
    ]

-- A text of letters is its own component.
split_normal-word : (w : List ℕ) → ((c : ℕ) → In c w → is_word c ≡ true) → split_normal w ≡ w ∷ []
unfolding split_dash normalize
split_normal-word [] h = refl
split_normal-word (c ∷ cs) h =
    split_normal-letter c cs (is_separator_word c (h c (inl refl)))
    ∙ ap (cons_head c) (split_normal-word cs (λ d m. h d (inr m)))

split_normal-more :
    (w : List ℕ) (c : ℕ) (rest : List ℕ)
    → ((d : ℕ) → In d w → is_word d ≡ true)
    → is_separator c ≡ true
    → split_normal (w ++ c ∷ rest) ≡ w ∷ split_normal rest
split_normal-more [] c rest h s = split_normal-separator c rest s
split_normal-more (b ∷ w) c rest h s =
    split_normal-letter b (w ++ c ∷ rest) (is_separator_word b (h b (inl refl)))
    ∙ ap (cons_head b) (split_normal-more w c rest (λ d m. h d (inr m)) s)

dashed-cons :
    (c : ℕ) (w : List ℕ) (ws : List (List ℕ)) → dashed ((c ∷ w) ∷ ws) ≡ c ∷ dashed (w ∷ ws)
dashed-cons c w [] = refl
dashed-cons c w (v ∷ ws) = refl

pub normalize-dashed : (cs : List ℕ) → normalize cs ≡ dashed (split_normal cs)
unfolding split_dash normalize
normalize-dashed [] = refl
normalize-dashed (c ∷ cs) =
    let (w, ws, e) = split_dash_cons (normalize cs) in
    let rest = normalize-dashed cs ∙ ap dashed e in
    elim (Bool-cases (is_separator c)) [
      | inl s ↦
          cc (normal_char_separator c s, rest)
          ∙ sym (ap dashed (split_normal-separator c cs s ∙ ap (λ z. [] ∷ z) e))
      | inr s ↦
          let (same, other) = normal_char_other c s in
          cc (same, rest)
          ∙ sym (dashed-cons c w ws)
          ∙ sym (ap dashed (split_normal-letter c cs s ∙ ap (cons_head c) e))
    ]

letters : (w : List ℕ) → IsWord w → (c : ℕ) → In c w → is_word c ≡ true
letters w (n, h) c m = IsLetter-is_word c (h c m)

-- Words that make a text are its components.
pub IsJoined-split_normal :
    (ws : List (List ℕ)) (cs : List ℕ)
    → ((w : List ℕ) → In w ws → IsWord w)
    → IsJoined ws cs
    → split_normal cs ≡ ws
IsJoined-split_normal [] cs h j = absurd j
IsJoined-split_normal (w ∷ []) cs h e =
    ap split_normal e ∙ split_normal-word w (letters w (h w (inl refl)))
IsJoined-split_normal (w ∷ v ∷ ws) cs h (c, rest, s, j, e) =
    ap split_normal e
    ∙ split_normal-more w c rest (letters w (h w (inl refl))) (IsSeparator-is_separator c s)
    ∙ ap (λ z. w ∷ z) (IsJoined-split_normal (v ∷ ws) rest (λ u m. h u (inr m)) j)

pub all-IsWord :
    (ws : List (List ℕ)) → all is_component ws ≡ true → (w : List ℕ) → In w ws → IsWord w
all-IsWord ws h w m = is_component-IsWord w (all-In is_component ws w h m)

pub IsWord-all :
    (ws : List (List ℕ)) → ((w : List ℕ) → In w ws → IsWord w) → all is_component ws ≡ true
IsWord-all ws h = In-all is_component ws (λ w m. IsWord-is_component w (h w m))
