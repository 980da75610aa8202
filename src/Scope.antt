-- ===== src/Scope.antt =====
-- The scope identifiers of a packet (models.py): the pattern, and the validator of `PacketScope`.
use governed_signal_to_conte.Base.{
  ℕ, ◌≤◌, ◌-◌, String, Bool, true, false, not, ◌&&◌, ◌||◌, List, [], ◌∷◌, ◌≡◌, any, all, nat_eq,
  leb, arith, Option, none, some, Result, ok, err, Error, value_error, if◌then◌else◌, codes, length,
  raise_if, ◌>>=◌, ◌>>◌, map,
}
pub mod Grammar
pub mod Parts
pub mod Components
pub mod Accepted

-- `[a-z0-9]`
unfoldable pub is_word : ℕ → Bool
is_word c = leb b'a' c && leb c b'z' || leb b'0' c && leb c b'9'

-- `[._-]`
unfoldable pub is_separator : ℕ → Bool
is_separator c = nat_eq c b'.' || nat_eq c b'_' || nat_eq c b'-'

-- The pattern `^[a-z0-9]+(?:[._-][a-z0-9]+)*$`, read from left to right. `in_word` says that the
-- last character was one of `[a-z0-9]`.
unfoldable pub matches_from : Bool → List ℕ → Bool
unfolding is_word is_separator
matches_from in_word [] = in_word
matches_from in_word (c ∷ cs) =
    (is_word c || (is_separator c && in_word)) && matches_from (is_word c) cs

unfoldable pub matches_scope_id : List ℕ → Bool
unfolding matches_from
matches_scope_id = matches_from false

-- `Field(min_length=1, max_length=64, pattern=SCOPE_ID_PATTERN)`
unfoldable pub is_scope_id : List ℕ → Bool
unfolding matches_scope_id
is_scope_id cs = leb 1 (length cs) && leb (length cs) 64 && matches_scope_id cs

-- `value.replace("_", "-").replace(".", "-")`, on one character and on a text.
unfoldable pub normal_char : ℕ → ℕ
normal_char c = if nat_eq c b'_' || nat_eq c b'.' then b'-' else c

unfoldable pub normalize : List ℕ → List ℕ
unfolding normal_char
normalize [] = []
normalize (c ∷ cs) = normal_char c ∷ normalize cs

abbrev pub cons_head : ℕ → List (List ℕ) → List (List ℕ)
cons_head c [] = (c ∷ []) ∷ []
cons_head c (w ∷ ws) = (c ∷ w) ∷ ws

-- `normalized.split("-")`
unfoldable pub split_dash : List ℕ → List (List ℕ)
split_dash [] = [] ∷ []
split_dash (c ∷ cs) =
    let rest = split_dash cs in if nat_eq c b'-' then [] ∷ rest else cons_head c rest

unfoldable pub codes_eq : List ℕ → List ℕ → Bool
codes_eq [] [] = true
codes_eq [] (d ∷ ds) = false
codes_eq (c ∷ cs) [] = false
codes_eq (c ∷ cs) (d ∷ ds) = nat_eq c d && codes_eq cs ds

unfoldable pub is_prefix : List ℕ → List ℕ → Bool
is_prefix [] cs = true
is_prefix (p ∷ ps) [] = false
is_prefix (p ∷ ps) (c ∷ cs) = nat_eq p c && is_prefix ps cs

-- `phrase in text`
unfoldable pub contains : List ℕ → List ℕ → Bool
unfolding is_prefix
contains phrase [] = is_prefix phrase []
contains phrase (c ∷ cs) = is_prefix phrase (c ∷ cs) || contains phrase cs

abbrev pub reserved_scope_components : List (List ℕ)
reserved_scope_components =
    map codes ("all" ∷ "any" ∷ "default" ∷ "global" ∷ "none" ∷ "null" ∷ "wildcard" ∷ [])

abbrev pub sensitive_scope_components : List (List ℕ)
sensitive_scope_components =
    map codes ("cookie" ∷ "credential" ∷ "oauth" ∷ "password" ∷ "secret" ∷ "token" ∷ [])

abbrev pub sensitive_phrases : List (List ℕ)
sensitive_phrases = map codes ("api-key" ∷ "private-key" ∷ "session-key" ∷ [])

-- `components & words`, as a truth value
unfoldable pub meets : List (List ℕ) → List (List ℕ) → Bool
unfolding codes_eq
meets words [] = false
meets words (w ∷ ws) = any (codes_eq w) words || meets words ws

-- One round of the loop of `reject_credential_shaped_identifiers`.
unfoldable pub check_component : List ℕ → Result (Unit {0})
unfolding normalize split_dash meets contains
check_component value = do
  let normalized = normalize value
  let components = split_dash normalized
  raise_if (meets reserved_scope_components components)
      (value_error "contains a wildcard-like or ambiguous component")
  raise_if
      (meets sensitive_scope_components components
        || any (λ phrase. contains phrase normalized) sensitive_phrases)
      (value_error "contains a credential-related component and is not a logical scope ID")

-- One field of `PacketScope`: the field's own constraints.
unfoldable pub check_field : List ℕ → Result (Unit {0})
unfolding is_scope_id
check_field value =
    raise_if (not (is_scope_id value)) (value_error "string does not match the scope pattern")

-- `PacketScope(brand_id=…, channel_id=…, destination_id=…)`: the fields, then the validator.
unfoldable pub packet_scope : String → String → String → Result (Unit {0})
unfolding check_field check_component
packet_scope brand_id channel_id destination_id = do
  check_field (codes brand_id)
  check_field (codes channel_id)
  check_field (codes destination_id)
  check_component (codes brand_id)
  check_component (codes channel_id)
  check_component (codes destination_id)
