-- ===== src/Base/Tests.antt =====
-- Boolean tests on the native numbers, the conditional, and list functions over these numbers.
use Prim.Native.Nat.{ℕ, zero, suc, ◌+◌, compare, Ordering}
use mathlib.Core.Path.{◌≡◌, refl}
use mathlib.Core.Logic.{◌↔◌, ◌⊎◌, inl, inr}
use mathlib.Core.Bool.{Bool, true, false}
use mathlib.Core.Option.{Option, none, some}
use mathlib.Core.List.{List, [], ◌∷◌, ◌++◌}
use native.Mathlib.Omega.{arith}

abbrev pub ltb : ℕ → ℕ → Bool
ltb a b = elim (compare a b) [ Ordering.lt ↦ true | _ ↦ false ]

abbrev pub leb : ℕ → ℕ → Bool
leb a b = elim (compare a b) [ Ordering.gt ↦ false | _ ↦ true ]

abbrev pub nat_eq : ℕ → ℕ → Bool
nat_eq a b = elim (compare a b) [ Ordering.eq ↦ true | _ ↦ false ]

infix 1 if◌then◌else◌
abbrev pub if◌then◌else◌ {ℓ} : {A : Type ℓ} → Bool → A → A → A
if true then x else y = x
if false then x else y = y

pub nat_eq_iff : (a b : ℕ) → (nat_eq a b ≡ true) ↔ (a ≡ b)
nat_eq_iff a b = ground arith

-- To split on a computed value and keep the equation.
pub Bool-cases : (b : Bool) → (b ≡ true) ⊎ (b ≡ false)
Bool-cases true = inl refl
Bool-cases false = inr refl

pub Option-cases {ℓ} : {A : Type ℓ} (o : Option A) → (o ≡ none) ⊎ ((a : A) × (o ≡ some a))
Option-cases none = inl refl
Option-cases (some a) = inr (a, refl)

module _ {ℓ} {A : Type ℓ} where
  abbrev pub length : List A → ℕ
  length [] = 0
  length (x ∷ xs) = suc (length xs)

  pub length-append : (xs ys : List A) → length (xs ++ ys) ≡ length xs + length ys
  length-append [] ys = omega arith
  length-append (x ∷ xs) ys = omega (arith, length-append xs ys)

  -- A slice expression `xs[n:]`; `none` is the panic on a bound beyond the length.
  unfoldable pub drop? : ℕ → List A → Option (List A)
  drop? zero xs = some xs
  drop? (suc n) [] = none
  drop? (suc n) (x ∷ xs) = drop? n xs

  -- An index expression `xs[n]`; `none` is the panic on an index out of range.
  abbrev pub get_elem? : List A → ℕ → Option A
  get_elem? [] n = none
  get_elem? (x ∷ xs) zero = some x
  get_elem? (x ∷ xs) (suc n) = get_elem? xs n

  -- A slice expression `xs[:n]`; `none` is the panic on a bound beyond the length.
  unfoldable pub take? : ℕ → List A → Option (List A)
  take? zero xs = some []
  take? (suc n) [] = none
  take? (suc n) (x ∷ xs) = elim (take? n xs) [ none ↦ none | some ys ↦ some (x ∷ ys) ]

  pub take?-append : (xs ys : List A) → take? (length xs) (xs ++ ys) ≡ some xs
  unfolding take?
  take?-append [] ys = refl
  take?-append (x ∷ xs) ys = rw (take?-append xs ys)

  pub drop?-append : (xs ys : List A) → drop? (length xs) (xs ++ ys) ≡ some ys
  unfolding drop?
  drop?-append [] ys = refl
  drop?-append (x ∷ xs) ys = drop?-append xs ys

-- A predicate of every element.
abbrev pub All {ℓ κ} : {A : Type ℓ} → (A → Type κ) → List A → Type κ
All P [] = Unit
All P (x ∷ xs) = P x × All P xs
