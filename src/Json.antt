-- ===== src/Json.antt =====
-- JSON values as the program builds them (dict, list, text, number, flag, null), their equality,
-- and `sanitize_for_receipt` of receipts.py.
use governed_signal_to_conte.Base.{
  Bool, List, Option, String, [], any, codes, false, if◌then◌else◌, leb, map, nat_eq, none, some,
  true, ℕ, ◌&&◌, ◌++◌, ◌+◌, ◌==◌, ◌∷◌,
}
use governed_signal_to_conte.Scope.{codes_eq, contains}
pub mod Sensitive
pub mod Redaction

mutual
  pub data Value : Type 0 where
    null : Value
    text : String → Value
    number : ℕ → Value
    flag : Bool → Value
    array : Items → Value
    object : Fields → Value

  pub data Items : Type 0 where
    nil : Items
    cons : Value → Items → Items

  -- The items of a dict, in its order.
  pub data Fields : Type 0 where
    end : Fields
    field : String → Value → Fields → Fields

-- `identifiers.get(key)`, where it is a text.
unfoldable pub get_text : String → Fields → Option String
get_text key end = none
get_text key (field k (text s) rest) = let r = get_text key rest in if k == key then some s else r
get_text key (field k v rest) = let r = get_text key rest in if k == key then none else r

-- Dicts compare without regard to order; those that are compared here are written by
-- `canonical_json`, which sorts their keys.
unfoldable mutual
  unfolding codes_eq

  pub value_eq : Value → Value → Bool
  value_eq null null = true
  value_eq (text s) (text t) = s == t
  value_eq (number m) (number n) = nat_eq m n
  value_eq (flag true) (flag b) = b
  value_eq (flag false) (flag true) = false
  value_eq (flag false) (flag false) = true
  value_eq (array xs) (array ys) = items_eq xs ys
  value_eq (object xs) (object ys) = fields_eq xs ys
  value_eq _ _ = false

  pub items_eq : Items → Items → Bool
  items_eq nil nil = true
  items_eq (cons v xs) (cons w ys) = value_eq v w && items_eq xs ys
  items_eq _ _ = false

  pub fields_eq : Fields → Fields → Bool
  fields_eq end end = true
  fields_eq (field k v xs) (field l w ys) = k == l && value_eq v w && fields_eq xs ys
  fields_eq _ _ = false

-- `str(key).lower()`, as far as ASCII goes: U+0130 becomes `i` and U+0307, and U+212A becomes `k`. The
-- lower case of any other code point beyond ASCII has no ASCII, which alone the key tests read, so
-- that code point is kept.
unfoldable pub lower_char : ℕ → List ℕ
lower_char c =
    if leb b'A' c && leb c b'Z'
    then (c + 32) ∷ []
    else if nat_eq c 8490
    then b'k' ∷ []
    else if nat_eq c 304
    then b'i' ∷ 775 ∷ []
    else c ∷ []

unfoldable pub lower : List ℕ → List ℕ
unfolding lower_char
lower [] = []
lower (c ∷ cs) = lower_char c ++ lower cs

abbrev pub sensitive_key_fragments : List (List ℕ)
sensitive_key_fragments =
    map codes ("authorization" ∷ "credential" ∷ "password" ∷ "secret" ∷ "token" ∷ [])

abbrev pub safe_opaque_reference_keys : List (List ℕ)
safe_opaque_reference_keys = map codes ("credential_ref" ∷ [])

-- Whether the value under a key is kept, or replaced by `[REDACTED]`.
unfoldable pub is_redacted_key : String → Bool
unfolding codes_eq contains lower
is_redacted_key key =
    let lowered = lower (codes key) in
    if any (codes_eq lowered) safe_opaque_reference_keys
    then false
    else any (λ fragment. contains fragment lowered) sensitive_key_fragments

unfoldable mutual
  unfolding is_redacted_key

  pub sanitize : Value → Value
  sanitize null = null
  sanitize (text s) = text s
  sanitize (number n) = number n
  sanitize (flag b) = flag b
  sanitize (array xs) = array (sanitize_items xs)
  sanitize (object fs) = object (sanitize_fields fs)

  pub sanitize_items : Items → Items
  sanitize_items nil = nil
  sanitize_items (cons v xs) = cons (sanitize v) (sanitize_items xs)

  pub sanitize_fields : Fields → Fields
  sanitize_fields end = end
  sanitize_fields (field k v rest) =
      field k (if is_redacted_key k then text "[REDACTED]" else sanitize v) (sanitize_fields rest)
