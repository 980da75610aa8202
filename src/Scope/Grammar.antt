-- ===== src/Scope/Grammar.antt =====
-- The scope pattern (models.py) against a description by components, and what `PacketScope`
-- keeps out.
use governed_signal_to_conte.Base.{
  ℕ, Bool, true, false, not, ◌&&◌, ◌||◌, List, [], ◌∷◌, ◌≡◌, refl, all, arith, is_empty, Bool-cases,
  inl, inr, nat_eq, if◌then◌else◌,
}
use governed_signal_to_conte.Scope.{
  is_word, is_separator, normal_char, cons_head, matches_from, matches_scope_id, normalize,
  split_dash,
}

-- A component: at least one character, and each of `[a-z0-9]`.
abbrev pub is_component : List ℕ → Bool
is_component w = not (is_empty w) && all is_word w

-- The first component may be empty where the text before it ended in a word.
abbrev continues : Bool → List (List ℕ) → Bool
continues in_word [] = false
continues in_word (w ∷ ws) = (in_word || not (is_empty w)) && all is_word w && all is_component ws

abbrev pub split_normal : List ℕ → List (List ℕ)
split_normal cs = split_dash (normalize cs)

pub normal_char_separator : (c : ℕ) → is_separator c ≡ true → normal_char c ≡ b'-'
unfolding normal_char is_separator
normal_char_separator c h = ground arith

pub normal_char_other :
    (c : ℕ) → is_separator c ≡ false → (normal_char c ≡ c) × (nat_eq c b'-' ≡ false)
unfolding normal_char is_separator
normal_char_other c h = ground arith

pub is_separator_word : (c : ℕ) → is_word c ≡ true → is_separator c ≡ false
unfolding is_word is_separator
is_separator_word c h = ground arith

pub split_dash_cons : (cs : List ℕ) → (w : List ℕ) × (ws : List (List ℕ)) × (split_dash cs ≡ w ∷ ws)
unfolding split_dash
split_dash_cons [] = ([], [], refl)
split_dash_cons (c ∷ cs) =
    let (w, ws, e) = split_dash_cons cs in
    elim (Bool-cases (nat_eq c b'-')) [
      | inl d ↦ ([], split_dash cs, rw (d, if◌then◌else◌))
      | inr d ↦ (c ∷ w, ws, rw (d, if◌then◌else◌) (rw (e, cons_head)))
    ]

continues-separator :
    (b : Bool) (c : ℕ) (cs : List ℕ)
    → is_separator c ≡ true
    → continues b (split_normal (c ∷ cs)) ≡ (b && continues false (split_normal cs))
unfolding split_dash normalize
continues-separator b c cs h =
    let (w, ws, e) = split_dash_cons (normalize cs) in ground (arith, normal_char_separator c h, e)

continues-other :
    (b : Bool) (c : ℕ) (cs : List ℕ)
    → is_separator c ≡ false
    → continues b (split_normal (c ∷ cs)) ≡ (is_word c && continues true (split_normal cs))
unfolding split_dash normalize
continues-other b c cs h =
    let (w, ws, e) = split_dash_cons (normalize cs) in
    ground (arith, (normal_char_other c h).0, (normal_char_other c h).1, e)

matches_from-continues :
    (b : Bool) (cs : List ℕ) → matches_from b cs ≡ continues b (split_normal cs)
unfolding matches_from
matches_from-continues b [] = unfold split_dash normalize in ground arith
matches_from-continues b (c ∷ cs) = elim (Bool-cases (is_separator c)) [
  | inl e ↦ ground (
    arith,
    matches_from-continues (is_word c) cs,
    continues-separator b c cs e,
    is_separator_word c,
  )
  | inr e ↦ ground (arith, matches_from-continues (is_word c) cs, continues-other b c cs e)
]

-- The pattern accepts a text exactly when each component of the text, cut at `.`, `_` and `-`, is
-- one or more of `[a-z0-9]`.
pub matches_scope_id-components :
    (cs : List ℕ) → matches_scope_id cs ≡ all is_component (split_dash (normalize cs))
unfolding matches_scope_id
matches_scope_id-components cs =
    let (w, ws, e) = split_dash_cons (normalize cs) in
    ground (arith, matches_from-continues false cs, e)
