-- ===== src/Scope/Accepted.antt =====
-- What `PacketScope` accepts (models.py).
use governed_signal_to_conte.Base.{
  Bool, Bool-cases, Error, In, List, Result, String, [], all, any, any→in, ap, arith, codes, false,
  inl, inr, in→any, length, map, ok, raise_if, refl, subst, sym, true, ℕ, ◌>>◌, ◌||◌, ◌↔◌, ◌∙◌, ◌∷◌,
  ◌≡◌, ◌≤◌,
}
use governed_signal_to_conte.Scope.{
  check_component, check_field, codes_eq, contains, is_scope_id, meets, normalize, packet_scope,
  reserved_scope_components, sensitive_phrases, sensitive_scope_components, split_dash,
}
use governed_signal_to_conte.Scope.Components.{
  IsJoined, IsJoined-split_normal, IsWord, IsWord-all, all-IsWord, dashed, normalize-dashed,
  split_normal-IsJoined,
}
use governed_signal_to_conte.Scope.Grammar.{is_component, matches_scope_id-components, split_normal}
use governed_signal_to_conte.Scope.Parts.{Occurs, Occurs-contains, contains-Occurs}

pub codes_eq→eq : (a b : List ℕ) → codes_eq a b ≡ true → a ≡ b
unfolding codes_eq
codes_eq→eq [] [] h = refl
codes_eq→eq [] (d ∷ ds) h = cc
codes_eq→eq (c ∷ cs) [] h = cc
codes_eq→eq (c ∷ cs) (d ∷ ds) h = ground (arith, codes_eq→eq cs ds)

pub codes_eq_refl : (a : List ℕ) → codes_eq a a ≡ true
unfolding codes_eq
codes_eq_refl [] = refl
codes_eq_refl (c ∷ cs) = ground (arith, codes_eq_refl cs)

-- No component is one of the words.
abbrev Avoids : List (List ℕ) → List (List ℕ) → Type 0
Avoids words ws = (w : List ℕ) → In w ws → In w words → ⊥

pub eq_codes : (w v : List ℕ) → w ≡ v → codes_eq w v ≡ true
eq_codes w v e = rw (← e) (codes_eq_refl w)

any_codes : (w : List ℕ) (words : List (List ℕ)) → In w words → any (codes_eq w) words ≡ true
any_codes w [] m = absurd m
any_codes w (v ∷ vs) m = ground (arith, eq_codes w v, any_codes w vs)

meets→Avoids : (words ws : List (List ℕ)) → meets words ws ≡ false → Avoids words ws
unfolding meets
meets→Avoids words [] h w m k = m
meets→Avoids words (v ∷ vs) h w (inl e) k = ground (arith, any_codes v words (rw (← e) k))
meets→Avoids words (v ∷ vs) h w (inr m) k = meets→Avoids words vs (ground arith) w m k

Avoids→meets : (words ws : List (List ℕ)) → Avoids words ws → meets words ws ≡ false
unfolding meets
Avoids→meets words [] h = refl
Avoids→meets words (v ∷ vs) h = elim (Bool-cases (any (codes_eq v) words)) [
  | inl e ↦
      let (w, m, q) = any→in (codes_eq v) words e in
      absurd (h v (inl refl) (rw (codes_eq→eq v w q) m))
  | inr e ↦ rw (e, Avoids→meets words vs (λ w m k. h w (inr m) k))
]

-- The words that no component may be, and the phrases that may not occur.
abbrev pub reserved_words : List String
reserved_words = "all" ∷ "any" ∷ "default" ∷ "global" ∷ "none" ∷ "null" ∷ "wildcard" ∷ []

abbrev pub credential_words : List String
credential_words = "cookie" ∷ "credential" ∷ "oauth" ∷ "password" ∷ "secret" ∷ "token" ∷ []

abbrev pub credential_phrases : List String
credential_phrases = "api-key" ∷ "private-key" ∷ "session-key" ∷ []

-- A logical identifier: what the validators of `PacketScope` are there to ensure.
pub record IsLogicalId (cs : List ℕ) : Type 0 where
  pub not_empty : 1 ≤ length cs
  pub not_long : length cs ≤ 64
  pub components : List (List ℕ)
  pub joined : IsJoined components cs
  pub words : (w : List ℕ) → In w components → IsWord w
  pub not_reserved : (word : String) → In word reserved_words → ¬ In (codes word) components
  pub not_sensitive : (word : String) → In word credential_words → ¬ In (codes word) components
  pub no_phrase :
      (phrase : String) → In phrase credential_phrases → ¬ Occurs (codes phrase) (dashed components)

In-map : (words : List String) (word : String) → In word words → In (codes word) (map codes words)
In-map [] word m = absurd m
In-map (w ∷ ws) word (inl e) = inl (ap codes e)
In-map (w ∷ ws) word (inr m) = inr (In-map ws word m)

map-In :
    (words : List String) (w : List ℕ)
    → In w (map codes words)
    → (word : String) × In word words × (w ≡ codes word)
map-In [] w m = absurd m
map-In (v ∷ vs) w (inl e) = (v, inl refl, e)
map-In (v ∷ vs) w (inr m) = let (word, k, e) = map-In vs w m in (word, inr k, e)

Avoids-words :
    (words : List String) (ws : List (List ℕ))
    → Avoids (map codes words) ws
    → (word : String) → In word words
    → ¬ In (codes word) ws
Avoids-words words ws h word m k = h (codes word) k (In-map words word m)

words-Avoids :
    (words : List String) (ws : List (List ℕ))
    → ((word : String) → In word words → ¬ In (codes word) ws)
    → Avoids (map codes words) ws
words-Avoids words ws h w k m =
    let (word, n, e) = map-In words w m in h word n (subst (λ z. In z ws) e k)

phrases-absent :
    (phrases : List String) (cs : List ℕ)
    → any (λ phrase. contains phrase cs) (map codes phrases) ≡ false
    → (phrase : String) → In phrase phrases
    → ¬ Occurs (codes phrase) cs
phrases-absent phrases cs h phrase m o =
    let found =
      in→any (λ p. contains p cs) (map codes phrases) (In-map phrases phrase m)
        (Occurs-contains (codes phrase) cs o) in
    ground (arith, h, found)

absent-phrases :
    (phrases : List String) (cs : List ℕ)
    → ((phrase : String) → In phrase phrases → ¬ Occurs (codes phrase) cs)
    → any (λ phrase. contains phrase cs) (map codes phrases) ≡ false
absent-phrases phrases cs h = elim (Bool-cases (any (λ p. contains p cs) (map codes phrases))) [
  | inl e ↦
      let (p, m, q) = any→in (λ p. contains p cs) (map codes phrases) e in
      let (phrase, n, same) = map-In phrases p m in
      absurd
        (h phrase n (contains-Occurs (codes phrase) cs (subst (λ z. contains z cs ≡ true) same q)))
  | inr e ↦ e
]

field_lem :
    (cs : List ℕ)
    → (check_field cs ≡ ok tt)
      ↔ ((1 ≤ length cs) × (length cs ≤ 64) × (all is_component (split_dash (normalize cs)) ≡ true))
unfolding check_field is_scope_id
field_lem cs = rw matches_scope_id-components (λ h. ground arith, λ h. ground arith)

checks :
    (r s p : Bool) (e f : Error)
    → ((raise_if r e >> raise_if (s || p) f) ≡ ok tt) ↔ ((r ≡ false) × (s ≡ false) × (p ≡ false))
checks r s p e f = (λ h. ground arith, λ h. ground arith)

component_lem :
    (cs : List ℕ)
    → (check_component cs ≡ ok tt) ↔ (
        (meets reserved_scope_components (split_dash (normalize cs)) ≡ false)
        × (meets sensitive_scope_components (split_dash (normalize cs)) ≡ false)
        × (any (λ phrase. contains phrase (normalize cs)) sensitive_phrases ≡ false))
unfolding check_component
component_lem cs = checks _ _ _ _ _

logical_lem :
    (cs : List ℕ) → ((check_field cs ≡ ok tt) × (check_component cs ≡ ok tt)) ↔ IsLogicalId cs
logical_lem cs = (
  λ h.
      let (low, high, form) = (field_lem cs).0 h.0 in
      let (r, s, p) = (component_lem cs).0 h.1 in
      record {
        not_empty = low;
        not_long = high;
        components = split_normal cs;
        joined = split_normal-IsJoined cs;
        words = all-IsWord (split_normal cs) form;
        not_reserved = Avoids-words reserved_words (split_normal cs) (meets→Avoids _ _ r);
        not_sensitive = Avoids-words credential_words (split_normal cs) (meets→Avoids _ _ s);
        no_phrase = phrases-absent credential_phrases (dashed (split_normal cs)) (
            subst (λ z. any (λ phrase. contains phrase z) sensitive_phrases ≡ false)
              (normalize-dashed cs) p);
      },
  λ v.
      let same = IsJoined-split_normal v.components cs v.words v.joined in
      (
        (field_lem cs).1 (
          v.not_empty,
          v.not_long,
          subst (λ z. all is_component z ≡ true) (sym same) (IsWord-all v.components v.words),
        ),
        (component_lem cs).1 (
          subst (λ z. meets reserved_scope_components z ≡ false) (sym same)
              (Avoids→meets _ _ (words-Avoids reserved_words v.components v.not_reserved)),
          subst (λ z. meets sensitive_scope_components z ≡ false) (sym same)
              (Avoids→meets _ _ (words-Avoids credential_words v.components v.not_sensitive)),
          subst (λ z. any (λ phrase. contains phrase z) sensitive_phrases ≡ false)
              (sym (normalize-dashed cs ∙ ap dashed same))
              (absent-phrases credential_phrases (dashed v.components) v.no_phrase),
        ),
      ),
)

six_checks :
    (a b c d e f : Result (Unit {0}))
    → ((a >> (b >> (c >> (d >> (e >> f))))) ≡ ok tt)
      ↔ (((a ≡ ok tt) × (d ≡ ok tt)) × ((b ≡ ok tt) × (e ≡ ok tt)) × ((c ≡ ok tt) × (f ≡ ok tt)))
six_checks a b c d e f = (λ h. ground arith, λ h. ground arith)

-- `PacketScope` accepts three texts exactly when each is a logical identifier: 1 to 64 characters,
-- made of non-empty words of `[a-z0-9]` with one `.`, `_` or `-` between any two, none of them `all`,
-- `any`, `default`, `global`, `none`, `null` or `wildcard`, and none of them `cookie`, `credential`,
-- `oauth`, `password`, `secret` or `token`; and, with `-` for every separator, without `api-key`,
-- `private-key` and `session-key`.
pub packet_scope_iff :
    (brand_id channel_id destination_id : String)
    → (packet_scope brand_id channel_id destination_id ≡ ok tt) ↔ (
        IsLogicalId (codes brand_id)
        × IsLogicalId (codes channel_id)
        × IsLogicalId (codes destination_id))
unfolding packet_scope
packet_scope_iff b c d =
    let (to, from) =
      six_checks (check_field (codes b)) (check_field (codes c)) (check_field (codes d))
        (check_component (codes b)) (check_component (codes c)) (check_component (codes d)) in
    (
      λ h.
          let (x, y, z) = to h in
          ((logical_lem (codes b)).0 x, (logical_lem (codes c)).0 y, (logical_lem (codes d)).0 z),
      λ (x, y, z).
          from
            ((logical_lem (codes b)).1 x, (logical_lem (codes c)).1 y, (logical_lem (codes d)).1 z),
    )
