-- ===== src/Packets/Scopes.antt =====
-- The scope that the files of a packet name, against its row (packets.py).
use governed_signal_to_conte.Base.{
  &&→left, &&→right, >>=-eq-ok, Bool-cases, Option, Option-cases, String, ap, arith, false, inl,
  inr, is_some, none, not, ok, ok_injective, opt_eq, opt_eq→eq, refl, some, subst, sym, true, ◌&&◌,
  ◌>>◌, ◌≡◌,
}
use governed_signal_to_conte.Json.{Fields, Value, null, object, text}
use governed_signal_to_conte.Models.{ScopeIds, all_given, any_given}
use governed_signal_to_conte.Packets.Manifest.{
  expected_scope, get_value, lookup, same_value, scope_fields, scope_text,
}
use governed_signal_to_conte.Packets.Values.{HasNull, has_items-lookup, has_null, has_object}
use governed_signal_to_conte.Scope.{packet_scope}
use governed_signal_to_conte.Tables.{Packet}

-- The scope that a file of the packet names: none where the row has none, and the row's own, which
-- `PacketScope` accepts, where it has one.
pub data NamesScope (p : Packet) (fields : Fields) : Type 0 where
  no_scope_named :
      p.scope_version ≡ none
      → p.scope.brand_id ≡ none
      → p.scope.channel_id ≡ none
      → p.scope.destination_id ≡ none
      → HasNull "scope" fields
      → NamesScope p fields
  scope_named :
      (b c d : String) (scope : Fields)
      → p.scope_version ≡ some "1.0"
      → p.scope.brand_id ≡ some b
      → p.scope.channel_id ≡ some c
      → p.scope.destination_id ≡ some d
      → packet_scope b c d ≡ ok tt
      → lookup "scope" fields ≡ some (object scope)
      → lookup "scope_version" scope ≡ some (text "1.0")
      → lookup "brand_id" scope ≡ some (text b)
      → lookup "channel_id" scope ≡ some (text c)
      → lookup "destination_id" scope ≡ some (text d)
      → NamesScope p fields

given_scope :
    (s : ScopeIds)
    → all_given s ≡ true
    → (b : String) × (c : String) × (d : String) × (s.brand_id ≡ some b)
      × (s.channel_id ≡ some c)
      × (s.destination_id ≡ some d)
unfolding all_given
given_scope s h = elim (Option-cases s.brand_id) [
  | inl e ↦ absurd (ground (arith, e, h))
  | inr (b, e) ↦ elim (Option-cases s.channel_id) [
    | inl f ↦ absurd (ground (arith, e, f, h))
    | inr (c, f) ↦ elim (Option-cases s.destination_id) [
      | inl g ↦ absurd (ground (arith, e, f, g, h))
      | inr (d, g) ↦ (b, c, d, e, f, g)
    ]
  ]
]

not_given : (o : Option String) → is_some o ≡ false → o ≡ none
not_given none h = refl
not_given (some s) h = cc

scoped-NamesScope :
    (p : Packet) (v : Value) (fields : Fields)
    → opt_eq p.scope_version (some "1.0") ≡ true
    → all_given p.scope ≡ true
    → (packet_scope
          (scope_text p.scope.brand_id)
          (scope_text p.scope.channel_id)
          (scope_text p.scope.destination_id)
        >> ok (object (scope_fields p.scope)))
      ≡ ok v
    → same_value (get_value "scope" fields) v ≡ true
    → NamesScope p fields
unfolding lookup
scoped-NamesScope p v fields version given h k =
    let (b, c, d, eb, ec, ed) = given_scope p.scope given in
    let (u, checked, h₁) = >>=-eq-ok (packet_scope _ _ _) _ h in
    let same = ok_injective (object (scope_fields p.scope)) v h₁ in
    let (scope, present, items) =
      has_object "scope" fields (scope_fields p.scope)
        (subst (λ z. same_value (get_value "scope" fields) z ≡ true) (sym same) k) in
    scope_named b c d scope (opt_eq→eq p.scope_version (some "1.0") version) eb ec ed
      (cc (ap scope_text eb, ap scope_text ec, ap scope_text ed, checked)) present
      (has_items-lookup (scope_fields p.scope) scope "scope_version" "1.0" items refl)
      (has_items-lookup (scope_fields p.scope) scope "brand_id" b items
        (ap (λ z. some (text (scope_text z))) eb))
      (has_items-lookup (scope_fields p.scope) scope "channel_id" c items
        (ap (λ z. some (text (scope_text z))) ec))
      (has_items-lookup (scope_fields p.scope) scope "destination_id" d items
        (ap (λ z. some (text (scope_text z))) ed))

pub expected_scope-NamesScope :
    (p : Packet) (v : Value) (fields : Fields)
    → expected_scope p ≡ ok v
    → same_value (get_value "scope" fields) v ≡ true
    → NamesScope p fields
unfolding expected_scope any_given
expected_scope-NamesScope p v fields h k =
    elim (Bool-cases (not (is_some p.scope_version) && not (any_given p.scope))) [
      | inl e ↦
          let same = ok_injective null v (rw (e, expected_scope) at h) in
          no_scope_named (not_given p.scope_version (ground (arith, e)))
            (not_given p.scope.brand_id (ground (arith, e)))
            (not_given p.scope.channel_id (ground (arith, e)))
            (not_given p.scope.destination_id (ground (arith, e)))
            (has_null "scope" fields
              (subst (λ z. same_value (get_value "scope" fields) z ≡ true) (sym same) k))
      | inr e ↦ elim (Bool-cases (opt_eq p.scope_version (some "1.0") && all_given p.scope)) [
        | inr f ↦ absurd (ground (arith, e, f, h))
        | inl f ↦
            scoped-NamesScope p v fields (&&→left _ _ f)
              (&&→right (opt_eq p.scope_version (some "1.0")) _ f) (rw (e, expected_scope, f) at h)
              k
      ]
    ]
