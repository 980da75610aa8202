-- ===== src/Packets/Values.antt =====
-- The comparison of decoded JSON with what is expected (packets.py).
use governed_signal_to_conte.Base.{
  &&→left, &&→right, Bool, Bool-cases, Option-cases, String, ap, arith, eq_iff, false,
  if◌then◌else◌, inl, inr, none, refl, some, some_injective, subst, sym, true, ◌&&◌, ◌==◌, ◌∙◌, ◌≡◌,
  ◌⊎◌,
}
use governed_signal_to_conte.Json.{
  Fields, Items, Value, array, cons, end, field, fields_eq, flag, get_text, items_eq, nil, null,
  number, object, text, value_eq,
}
use governed_signal_to_conte.Packets.Manifest.{dict_eq, get_value, has_items, lookup, same_value}

mutual
  unfolding value_eq items_eq fields_eq

  pub value_eq→eq : (v w : Value) → value_eq v w ≡ true → v ≡ w
  value_eq→eq null null h = refl
  value_eq→eq (text s) (text t) h = ap text ((eq_iff s t).0 h)
  value_eq→eq (number m) (number n) h = ap number (ground arith)
  value_eq→eq (flag true) (flag b) h = ap flag (sym h)
  value_eq→eq (flag false) (flag false) h = refl
  value_eq→eq (flag false) (flag true) h = cc
  value_eq→eq (array xs) (array ys) h = ap array (items_eq→eq xs ys h)
  value_eq→eq (object xs) (object ys) h = ap object (fields_eq→eq xs ys h)
  value_eq→eq _ _ h = cc

  pub items_eq→eq : (xs ys : Items) → items_eq xs ys ≡ true → xs ≡ ys
  items_eq→eq nil nil h = refl
  items_eq→eq nil (cons w ys) h = cc
  items_eq→eq (cons v xs) nil h = cc
  items_eq→eq (cons v xs) (cons w ys) h = cc (
    value_eq→eq v w (&&→left (value_eq v w) _ h),
    items_eq→eq xs ys (&&→right (value_eq v w) _ h),
  )

  pub fields_eq→eq : (xs ys : Fields) → fields_eq xs ys ≡ true → xs ≡ ys
  fields_eq→eq end end h = refl
  fields_eq→eq end (field l w ys) h = cc
  fields_eq→eq (field k v xs) end h = cc
  fields_eq→eq (field k v xs) (field l w ys) h =
      let both = &&→left (k == l && value_eq v w) (fields_eq xs ys) h in
      cc (
        (eq_iff k l).0 (&&→left (k == l) (value_eq v w) both),
        value_eq→eq v w (&&→right (k == l) (value_eq v w) both),
        fields_eq→eq xs ys (&&→right (k == l && value_eq v w) (fields_eq xs ys) h),
      )

abbrev is_object : Value → Bool
is_object (object fs) = true
is_object v = false

other_object : (v : Value) (b : Fields) → is_object v ≡ false → value_eq v (object b) ≡ true → ⊥
other_object v b h e = let same = sym h ∙ ap is_object (value_eq→eq v (object b) e) in cc same

same_value-text : (v : Value) (t : String) → same_value v (text t) ≡ true → v ≡ text t
unfolding same_value
same_value-text (object a) t h = value_eq→eq (object a) (text t) h
same_value-text v t h = value_eq→eq v (text t) h

same_value-null : (v : Value) → same_value v null ≡ true → v ≡ null
unfolding same_value
same_value-null (object a) h = value_eq→eq (object a) null h
same_value-null v h = value_eq→eq v null h

same_value-array : (v : Value) (xs : Items) → same_value v (array xs) ≡ true → v ≡ array xs
unfolding same_value
same_value-array (object a) xs h = value_eq→eq (object a) (array xs) h
same_value-array v xs h = value_eq→eq v (array xs) h

same_value-object :
    (v : Value) (b : Fields)
    → same_value v (object b) ≡ true
    → (a : Fields) × (v ≡ object a) × (has_items b a ≡ true)
unfolding same_value dict_eq
same_value-object (object a) b h = (a, refl, &&→right (has_items a b) (has_items b a) h)
same_value-object null b h = absurd (other_object null b refl h)
same_value-object (text s) b h = absurd (other_object (text s) b refl h)
same_value-object (number n) b h = absurd (other_object (number n) b refl h)
same_value-object (flag c) b h = absurd (other_object (flag c) b refl h)
same_value-object (array xs) b h = absurd (other_object (array xs) b refl h)

-- A text of the one dict is in the other, if that has its items.
pub has_items-lookup :
    (a b : Fields) (key s : String)
    → has_items a b ≡ true
    → lookup key a ≡ some (text s)
    → lookup key b ≡ some (text s)
unfolding has_items lookup
has_items-lookup end b key s h e = cc
has_items-lookup (field k v rest) b key s h e = elim (Bool-cases (k == key)) [
  | inl same ↦
      let first : v ≡ text s = some_injective v (text s) (rw (same, if◌then◌else◌) at e) in
      elim (Option-cases (lookup k b)) [
        | inl f ↦ absurd (ground (arith, f, h))
        | inr (w, f) ↦
            let equal = value_eq→eq v w (ground (arith, f, h)) in
            subst (λ z. lookup z b ≡ some (text s)) ((eq_iff k key).0 same)
              (f ∙ ap some (sym equal ∙ first))
      ]
  | inr other ↦ has_items-lookup rest b key s (ground (arith, h)) (rw (other, if◌then◌else◌) at e)
]

get_value-given :
    (key : String) (fields : Fields) (v : Value)
    → get_value key fields ≡ v
    → ¬ (v ≡ null)
    → lookup key fields ≡ some v
unfolding get_value
get_value-given key fields v h n = elim (Option-cases (lookup key fields)) [
  | inl e ↦ absurd (n (sym (rw (e, get_value) at h)))
  | inr (w, e) ↦ e ∙ ap some (rw (e, get_value) at h)
]

-- A dict has no value under a key, or null.
abbrev pub HasNull : String → Fields → Type 0
HasNull key fields = (lookup key fields ≡ none) ⊎ (lookup key fields ≡ some null)

get_value-HasNull :
    (key : String) (fields : Fields) → get_value key fields ≡ null → HasNull key fields
unfolding get_value
get_value-HasNull key fields h = elim (Option-cases (lookup key fields)) [
  | inl e ↦ inl e
  | inr (w, e) ↦ inr (e ∙ ap some (rw (e, get_value) at h))
]

-- What a comparison of the value under a key establishes.
pub has_text :
    (key : String) (fields : Fields) (t : String)
    → same_value (get_value key fields) (text t) ≡ true
    → lookup key fields ≡ some (text t)
has_text key fields t h =
    get_value-given key fields (text t) (same_value-text (get_value key fields) t h) (λ e. cc)

pub has_null :
    (key : String) (fields : Fields)
    → same_value (get_value key fields) null ≡ true
    → HasNull key fields
has_null key fields h = get_value-HasNull key fields (same_value-null (get_value key fields) h)

pub has_array :
    (key : String) (fields : Fields) (xs : Items)
    → same_value (get_value key fields) (array xs) ≡ true
    → lookup key fields ≡ some (array xs)
has_array key fields xs h =
    get_value-given key fields (array xs) (same_value-array (get_value key fields) xs h) (λ e. cc)

pub has_object :
    (key : String) (fields b : Fields)
    → same_value (get_value key fields) (object b) ≡ true
    → (a : Fields) × (lookup key fields ≡ some (object a)) × (has_items b a ≡ true)
has_object key fields b h =
    let (a, e, i) = same_value-object (get_value key fields) b h in
    (a, get_value-given key fields (object a) e (λ n. cc), i)

pub get_text-lookup :
    (key s : String) (fields : Fields)
    → get_text key fields ≡ some s
    → lookup key fields ≡ some (text s)
unfolding get_text lookup
get_text-lookup key s end h = cc
get_text-lookup key s (field k (text t) rest) h = elim (Bool-cases (k == key)) [
  | inl e ↦
      rw (e, if◌then◌else◌)
        (ap (λ z. some (text z)) (some_injective t s (rw (e, if◌then◌else◌) at h)))
  | inr e ↦ rw (e, if◌then◌else◌) (get_text-lookup key s rest (rw (e, if◌then◌else◌) at h))
]
get_text-lookup key s (field k v rest) h = elim (Bool-cases (k == key)) [
  | inl e ↦ absurd (ground (arith, e, h))
  | inr e ↦ rw (e, if◌then◌else◌) (get_text-lookup key s rest (rw (e, if◌then◌else◌) at h))
]

pub dict_eq-left : (a b : Fields) → dict_eq a b ≡ true → has_items a b ≡ true
unfolding dict_eq
dict_eq-left a b h = &&→left (has_items a b) (has_items b a) h

pub dict_eq-right : (a b : Fields) → dict_eq a b ≡ true → has_items b a ≡ true
unfolding dict_eq
dict_eq-right a b h = &&→right (has_items a b) (has_items b a) h
