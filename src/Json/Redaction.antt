-- ===== src/Json/Redaction.antt =====
-- What a receipt can show of the identifiers it was given (`sanitize_for_receipt`, receipts.py).
use governed_signal_to_conte.Base.{
  Bool, String, ap, arith, eq_iff, false, if◌then◌else◌, inl, inr, refl, true, ℕ, ◌≡◌,
}
use governed_signal_to_conte.Json.{
  Fields, Items, Value, array, cons, end, field, fields_eq, flag, is_redacted_key, items_eq, nil,
  null, number, object, sanitize, sanitize_fields, sanitize_items, text, value_eq,
}
use governed_signal_to_conte.Json.Sensitive.{IsSensitive, IsSensitive-cases}

-- No value under a sensitive key is visible, at any depth.
mutual
  pub data IsClean : Value → Type 0 where
    null_clean : IsClean null
    text_clean : (s : String) → IsClean (text s)
    number_clean : (n : ℕ) → IsClean (number n)
    flag_clean : (b : Bool) → IsClean (flag b)
    array_clean : {xs : Items} → ItemsClean xs → IsClean (array xs)
    object_clean : {fs : Fields} → FieldsClean fs → IsClean (object fs)

  pub data ItemsClean : Items → Type 0 where
    nil_clean : ItemsClean nil
    cons_clean : {v : Value} {xs : Items} → IsClean v → ItemsClean xs → ItemsClean (cons v xs)

  pub data FieldsClean : Fields → Type 0 where
    end_clean : FieldsClean end
    kept :
        {k : String} {v : Value} {fs : Fields}
        → ¬ IsSensitive k
        → IsClean v
        → FieldsClean fs
        → FieldsClean (field k v fs)
    hidden :
        {k : String} {fs : Fields}
        → IsSensitive k
        → FieldsClean fs
        → FieldsClean (field k (text "[REDACTED]") fs)

one_field :
    {k : String} {v : Value} {fs : Fields}
    → IsClean v
    → FieldsClean fs
    → FieldsClean (field k (if is_redacted_key k then text "[REDACTED]" else v) fs)
one_field {k} c d = elim (IsSensitive-cases k) [
  | inl (p, e) ↦ rw (e, if◌then◌else◌) (hidden p d)
  | inr (p, e) ↦ rw (e, if◌then◌else◌) (kept p c d)
]

kept_false : (k : String) → ¬ IsSensitive k → is_redacted_key k ≡ false
kept_false k p = elim (IsSensitive-cases k) [ inl (q, e) ↦ absurd (p q) | inr (q, e) ↦ e ]

hidden_true : (k : String) → IsSensitive k → is_redacted_key k ≡ true
hidden_true k p = elim (IsSensitive-cases k) [ inl (q, e) ↦ e | inr (q, e) ↦ absurd (q p) ]

mutual
  unfolding sanitize sanitize_items sanitize_fields

  value-IsClean : (v : Value) → IsClean (sanitize v)
  value-IsClean null = null_clean
  value-IsClean (text s) = text_clean s
  value-IsClean (number n) = number_clean n
  value-IsClean (flag b) = flag_clean b
  value-IsClean (array xs) = array_clean (items-ItemsClean xs)
  value-IsClean (object fs) = object_clean (fields-FieldsClean fs)

  items-ItemsClean : (xs : Items) → ItemsClean (sanitize_items xs)
  items-ItemsClean nil = nil_clean
  items-ItemsClean (cons v xs) = cons_clean (value-IsClean v) (items-ItemsClean xs)

  fields-FieldsClean : (fs : Fields) → FieldsClean (sanitize_fields fs)
  fields-FieldsClean end = end_clean
  fields-FieldsClean (field k v fs) = one_field (value-IsClean v) (fields-FieldsClean fs)

mutual
  unfolding sanitize sanitize_items sanitize_fields

  value_fixed : {v : Value} → IsClean v → sanitize v ≡ v
  value_fixed null_clean = refl
  value_fixed (text_clean s) = refl
  value_fixed (number_clean n) = refl
  value_fixed (flag_clean b) = refl
  value_fixed (array_clean c) = ap array (items_fixed c)
  value_fixed (object_clean c) = ap object (fields_fixed c)

  items_fixed : {xs : Items} → ItemsClean xs → sanitize_items xs ≡ xs
  items_fixed nil_clean = refl
  items_fixed (cons_clean c d) = cc (value_fixed c, items_fixed d)

  fields_fixed : {fs : Fields} → FieldsClean fs → sanitize_fields fs ≡ fs
  fields_fixed end_clean = refl
  fields_fixed (kept p c d) =
      rw (kept_false _ p, if◌then◌else◌) (cc (value_fixed c, fields_fixed d))
  fields_fixed (hidden p d) = rw (hidden_true _ p, if◌then◌else◌) (cc (fields_fixed d))

-- What goes into a receipt shows no value under a sensitive key, at any depth: a key that is not
-- `credential_ref` and has `authorization`, `credential`, `password`, `secret` or `token` in its
-- lower case has the value `[REDACTED]`, and every other key a value of which the same holds. A value
-- of which it holds already goes in unchanged.
pub sanitize-IsClean : (v : Value) → IsClean (sanitize v) × (IsClean v → sanitize v ≡ v)
sanitize-IsClean v = (value-IsClean v, value_fixed)

mutual
  unfolding value_eq items_eq fields_eq

  value_eq_same : (v : Value) → value_eq v v ≡ true
  value_eq_same null = refl
  value_eq_same (text s) = (eq_iff s s).1 refl
  value_eq_same (number n) = ground arith
  value_eq_same (flag true) = refl
  value_eq_same (flag false) = refl
  value_eq_same (array xs) = items_eq_same xs
  value_eq_same (object fs) = fields_eq_same fs

  items_eq_same : (xs : Items) → items_eq xs xs ≡ true
  items_eq_same nil = refl
  items_eq_same (cons v xs) = rw (value_eq_same v) (items_eq_same xs)

  fields_eq_same : (fs : Fields) → fields_eq fs fs ≡ true
  fields_eq_same end = refl
  fields_eq_same (field k v fs) =
      rw ((eq_iff k k).1 refl) (rw (value_eq_same v) (fields_eq_same fs))

pub fields_eq_refl : (fs : Fields) → fields_eq fs fs ≡ true
fields_eq_refl fs = fields_eq_same fs
