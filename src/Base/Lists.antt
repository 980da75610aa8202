-- ===== src/Base/Lists.antt =====
-- Rows of a table: selection, existence, and length over the native numbers.
use Prim.Native.Nat.{ℕ, zero, suc}
use mathlib.Core.Path.{◌≡◌, refl, sym, subst}
use mathlib.Core.Logic.{◌⊎◌, inl, inr}
use mathlib.Core.Bool.{Bool, true, false, ◌&&◌, ◌||◌}
use mathlib.Core.Option.{Option, none, some}
use mathlib.Core.List.{List, [], ◌∷◌, ◌++◌}
use native.Mathlib.Omega.{arith}
use governed_signal_to_conte.Base.Tests.{if◌then◌else◌, Bool-cases}

module _ {ℓ} {A : Type ℓ} where
  abbrev pub length : List A → ℕ
  length [] = 0
  length (x ∷ xs) = suc (length xs)

  abbrev pub is_empty : List A → Bool
  is_empty [] = true
  is_empty (x ∷ xs) = false

  -- `[row for row in rows if test(row)]`
  abbrev pub select : (A → Bool) → List A → List A
  select p [] = []
  select p (x ∷ xs) = let rest = select p xs in if p x then x ∷ rest else rest

  -- `any(test(row) for row in rows)`
  abbrev pub any : (A → Bool) → List A → Bool
  any p [] = false
  any p (x ∷ xs) = p x || any p xs

  abbrev pub all : (A → Bool) → List A → Bool
  all p [] = true
  all p (x ∷ xs) = p x && all p xs

  abbrev pub drop : ℕ → List A → List A
  drop zero xs = xs
  drop (suc n) [] = []
  drop (suc n) (x ∷ xs) = drop n xs

  -- `fetchone()`
  abbrev pub find_first : (A → Bool) → List A → Option A
  find_first p [] = none
  find_first p (x ∷ xs) = let rest = find_first p xs in if p x then some x else rest

  -- `UPDATE … WHERE`
  abbrev pub update_where : (A → Bool) → (A → A) → List A → List A
  update_where p f [] = []
  update_where p f (x ∷ xs) = (if p x then f x else x) ∷ update_where p f xs

  -- `cursor.rowcount`
  abbrev pub count_where : (A → Bool) → List A → ℕ
  count_where p [] = 0
  count_where p (x ∷ xs) = let rest = count_where p xs in if p x then suc rest else rest

module _ {A : Type 0} where
  -- A row stands in a table.
  abbrev pub In : A → List A → Type 0
  In a [] = ⊥
  In a (x ∷ xs) = (a ≡ x) ⊎ In a xs

pub List-cases {ℓ} :
    {A : Type ℓ} (xs : List A) → (xs ≡ []) ⊎ ((x : A) × (rest : List A) × (xs ≡ x ∷ rest))
List-cases [] = inl refl
List-cases (x ∷ xs) = inr (x, xs, refl)

module _ {A : Type 0} where
  pub is_empty_of_In : (x : A) (xs : List A) → In x xs → is_empty xs ≡ false
  is_empty_of_In x [] m = absurd m
  is_empty_of_In x (y ∷ ys) m = refl

module _ {A : Type 0} (p : A → Bool) where
  pub In-select : {x : A} (xs : List A) → In x (select p xs) → In x xs × (p x ≡ true)
  In-select [] m = absurd m
  In-select {x} (y ∷ ys) m = elim (Bool-cases (p y)) [
    | inl e ↦ ground (arith, In-select {x = x} ys)
    | inr e ↦ ground (arith, In-select {x = x} ys)
  ]

  pub select-In : {x : A} (xs : List A) → In x xs → p x ≡ true → In x (select p xs)
  select-In [] m h = absurd m
  select-In {x} (y ∷ ys) m h = ground (arith, select-In {x = x} ys)

  pub any→in : (xs : List A) → any p xs ≡ true → (x : A) × In x xs × (p x ≡ true)
  any→in [] h = cc
  any→in (y ∷ ys) h = elim (Bool-cases (p y)) [
    | inl e ↦ (y, inl refl, e)
    | inr e ↦ let (x, m, q) = any→in ys (ground arith) in (x, inr m, q)
  ]

  pub in→any : {x : A} (xs : List A) → In x xs → p x ≡ true → any p xs ≡ true
  in→any [] m h = absurd m
  in→any {x} (y ∷ ys) m h = ground (arith, in→any {x = x} ys)

  pub find_first→in : {x : A} (xs : List A) → find_first p xs ≡ some x → In x xs × (p x ≡ true)
  find_first→in [] h = cc
  find_first→in {x} (y ∷ ys) h = ground (arith, find_first→in {x = x} ys)

module _ {A : Type 0} (p : A → Bool) where
  -- A row at the end of a table does not hide the rows before it.
  pub find_first-snoc :
      (xs : List A) (x a : A) → find_first p xs ≡ some a → find_first p (xs ++ x ∷ []) ≡ some a
  find_first-snoc [] x a h = cc
  find_first-snoc (y ∷ ys) x a h = elim (Bool-cases (p y)) [
    | inl e ↦ ground (arith, e, h)
    | inr e ↦ ground (arith, e, h, find_first-snoc ys x a)
  ]

  pub find_first-snoc_new :
      (xs : List A) (x : A)
      → find_first p xs ≡ none
      → p x ≡ true
      → find_first p (xs ++ x ∷ []) ≡ some x
  find_first-snoc_new [] x h k = ground arith
  find_first-snoc_new (y ∷ ys) x h k = ground (arith, find_first-snoc_new ys x)

  pub find_first-snoc_other :
      (xs : List A) (x : A) → p x ≡ false → find_first p (xs ++ x ∷ []) ≡ find_first p xs
  find_first-snoc_other [] x h = ground arith
  find_first-snoc_other (y ∷ ys) x h = rw (find_first, find_first-snoc_other ys x h) refl

  -- Where no row is found, no row passes the test.
  pub find_first-none : (xs : List A) (a : A) → find_first p xs ≡ none → In a xs → p a ≡ false
  find_first-none [] a h m = absurd m
  find_first-none (y ∷ ys) a h m = ground (arith, find_first-none ys a)

  pub none-find_first : (xs : List A) → ((a : A) → In a xs → p a ≡ false) → find_first p xs ≡ none
  none-find_first [] h = refl
  none-find_first (y ∷ ys) h =
      let rest = none-find_first ys (λ a m. h a (inr m)) in
      let first = h y (inl refl) in ground (arith, rest, first)

pub In-snoc : {A : Type 0} (y x : A) (xs : List A) → In y (xs ++ x ∷ []) → In y xs ⊎ (y ≡ x)
In-snoc y x [] m = ground arith
In-snoc y x (z ∷ zs) m = ground (arith, In-snoc y x zs)

pub snoc-In : {A : Type 0} (y x : A) (xs : List A) → In y xs ⊎ (y ≡ x) → In y (xs ++ x ∷ [])
snoc-In y x [] m = ground arith
snoc-In y x (z ∷ zs) m = ground (arith, snoc-In y x zs)

-- What holds of two rows of a table, and of the new row with each of them, holds of the longer one.
pub In-snoc_pair :
    {A : Type 0} (P : A → A → Type 0) (xs : List A) (z : A)
    → ((x y : A) → In x xs → In y xs → P x y)
    → ((x : A) → In x xs → P x z)
    → ((y : A) → In y xs → P z y)
    → P z z
    → (x y : A) → In x (xs ++ z ∷ [])
    → In y (xs ++ z ∷ [])
    → P x y
In-snoc_pair P xs z both left right new x y m n = elim (In-snoc x z xs m) [
  | inl p ↦ elim (In-snoc y z xs n) [
    | inl q ↦ both x y p q
    | inr q ↦ subst (P x) (sym q) (left x p)
  ]
  | inr p ↦
      subst (λ w. P w y) (sym p)
        (elim (In-snoc y z xs n) [ inl q ↦ right y q | inr q ↦ subst (P z) (sym q) new ])
]
