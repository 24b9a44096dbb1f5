-- ===== src/Base/Split.antt =====
-- `strings.Split`, `strings.Join` and `strings.ReplaceAll`, for a separator that is not empty.
use Prim.Native.Nat.{ℕ, zero, suc, ◌≤◌, ◌<◌}
use mathlib.Core.Path.{◌≡◌, refl, ap, ◌∙◌}
use mathlib.Core.Logic.{◌≢◌, inl, inr}
use mathlib.Core.Option.{Option, none, some}
use mathlib.Core.List.{List, [], ◌∷◌, ◌++◌, cons-ne-nil}
use native.Mathlib.Omega.{arith}
use cluster_api_provider_hyp.Base.Tests.{length, length-append, get_elem?, Option-cases, All}
use cluster_api_provider_hyp.Base.Strings.{
  Bytes, strip_prefix?, strip_prefix?_sound, strip_prefix?-append,
}

unfoldable pub push_front : ℕ → Option (Bytes × Bytes) → Option (Bytes × Bytes)
push_front a none = none
push_front a (some (b, r)) = some (a ∷ b, r)

-- The text before the first occurrence of the separator, and the text behind it.
unfoldable pub cut? : Bytes → Bytes → Option (Bytes × Bytes)
unfolding push_front strip_prefix?
cut? [] sep = none
cut? (a ∷ s) sep =
    let later = push_front a (cut? s sep) in
    elim (strip_prefix? (a ∷ s) sep) [ some r ↦ some ([], r) | none ↦ later ]

pieces : ℕ → Bytes → Bytes → List Bytes
pieces zero s sep = s ∷ []
pieces (suc n) s sep = elim (cut? s sep) [ none ↦ s ∷ [] | some (a, r) ↦ a ∷ pieces n r sep ]

-- Each cut removes a byte at least, so the length is fuel enough.
unfoldable pub split : Bytes → Bytes → List Bytes
unfolding pieces cut?
split s sep = pieces (length s) s sep

unfoldable pub join : List Bytes → Bytes → Bytes
join [] sep = []
join (p ∷ []) sep = p
join (p ∷ q ∷ ps) sep = p ++ (sep ++ join (q ∷ ps) sep)

unfoldable pub replace_all : Bytes → Bytes → Bytes → Bytes
unfolding split join
replace_all s old new = join (split s old) new

pub cut?_sound : (s sep a r : Bytes) → cut? s sep ≡ some (a, r) → s ≡ a ++ (sep ++ r)
unfolding cut? push_front
cut?_sound [] sep a r h = ground arith
cut?_sound (x ∷ s) sep [] r h = ground (arith, strip_prefix?_sound (x ∷ s) sep r)
cut?_sound (x ∷ s) sep (y ∷ a) r h = ground (arith, cut?_sound s sep a r)

pub length-cut? : (s sep a r : Bytes) → sep ≢ [] → cut? s sep ≡ some (a, r) → length r < length s
length-cut? s [] a r h e = absurd (h refl)
length-cut? s (b ∷ sep) a r h e =
    rw (cut?_sound s (b ∷ sep) a r e)
      (omega (arith, length-append a (b ∷ (sep ++ r)), length-append sep r))

-- More fuel than the length changes nothing.
pieces_fuel :
    (n m : ℕ) (s sep : Bytes)
    → sep ≢ []
    → length s ≤ n
    → length s ≤ m
    → pieces n s sep ≡ pieces m s sep
unfolding pieces
pieces_fuel zero zero s sep h hn hm = refl
pieces_fuel zero (suc m) [] sep h hn hm = unfold cut? in refl
pieces_fuel zero (suc m) (x ∷ s) sep h hn hm = absurd (omega arith)
pieces_fuel (suc n) zero [] sep h hn hm = unfold cut? in refl
pieces_fuel (suc n) zero (x ∷ s) sep h hn hm = absurd (omega arith)
pieces_fuel (suc n) (suc m) s sep h hn hm = elim (Option-cases (cut? s sep)) [
  | inl e ↦ rw (e, pieces)
  | inr ((a, r), e) ↦
      let shorter = length-cut? s sep a r h e in
      rw (e, pieces) (ap (◌∷◌ a) (pieces_fuel n m r sep h (omega arith) (omega arith)))
]

pub split-none : (s sep : Bytes) → cut? s sep ≡ none → split s sep ≡ s ∷ []
unfolding split
split-none [] sep e = refl
split-none (x ∷ s) sep e = rw (e, pieces)

pub split-some :
    (s sep a r : Bytes) → sep ≢ [] → cut? s sep ≡ some (a, r) → split s sep ≡ a ∷ split r sep
unfolding split
split-some [] sep a r h e = unfold cut? in cc
split-some (x ∷ s) sep a r h e =
    let shorter = length-cut? (x ∷ s) sep a r h e in
    rw (e, pieces)
      (ap (◌∷◌ a) (pieces_fuel (length s) (length r) r sep h (omega arith) (omega arith)))

-- A text without the separator comes back whole.
abbrev pub Lacks : Bytes → Bytes → Type 0
Lacks sep s = cut? s sep ≡ none

cut?_head : (c : ℕ) (sep r : Bytes) → cut? ((c ∷ sep) ++ r) (c ∷ sep) ≡ some ([], r)
unfolding cut?
cut?_head c sep r = rw (strip_prefix?-append (c ∷ sep) r, cut?)

-- A value behind a prefix that it does not hold: the second piece is the value.
pub split_behind :
    (c : ℕ) (sep r : Bytes) → Lacks (c ∷ sep) r → split ((c ∷ sep) ++ r) (c ∷ sep) ≡ [] ∷ r ∷ []
split_behind c sep r h =
    rw (split-some _ (c ∷ sep) [] r (cons-ne-nil c sep) (cut?_head c sep r), split-none r _ h) refl

-- One byte as the separator.
pub cut?_at_byte :
    (c : ℕ) (p r : Bytes) → All (λ x. x ≢ c) p → cut? (p ++ (c ∷ r)) (c ∷ []) ≡ some (p, r)
unfolding cut? strip_prefix? push_front
cut?_at_byte c [] r h = ground arith
cut?_at_byte c (x ∷ p) r (hx, hp) = ground (arith, cut?_at_byte c p r hp)

pub cut?_no_byte : (c : ℕ) (p : Bytes) → All (λ x. x ≢ c) p → Lacks (c ∷ []) p
unfolding cut? strip_prefix? push_front
cut?_no_byte c [] h = refl
cut?_no_byte c (x ∷ p) (hx, hp) = ground (arith, cut?_no_byte c p hp)

-- The first piece of a split, which there always is.
unfoldable pub before : Bytes → Bytes → Bytes
unfolding cut?
before s sep = elim (cut? s sep) [ none ↦ s | some (a, r) ↦ a ]

pub get_elem?-split_zero :
    (s sep : Bytes) → sep ≢ [] → get_elem? (split s sep) 0 ≡ some (before s sep)
unfolding before
get_elem?-split_zero s sep h = elim (Option-cases (cut? s sep)) [
  | inl e ↦ rw (split-none s sep e, e, before) refl
  | inr ((a, r), e) ↦ rw (split-some s sep a r h e, e, before) refl
]

-- A text up to the first colon, or whole if it has none.
pub before_at_byte : (c : ℕ) (p r : Bytes) → All (λ x. x ≢ c) p → before (p ++ (c ∷ r)) (c ∷ []) ≡ p
unfolding before
before_at_byte c p r h = rw (cut?_at_byte c p r h, before) refl

pub get_elem?-split_one :
    (sep r : Bytes) → sep ≢ [] → Lacks sep r → get_elem? (split (sep ++ r) sep) 1 ≡ some r
get_elem?-split_one [] r h lacks = absurd (h refl)
get_elem?-split_one (c ∷ sep) r h lacks = rw (split_behind c sep r lacks) refl

-- A text between two quotes.
pub split_quoted :
    (c : ℕ) (p : Bytes)
    → All (λ x. x ≢ c) p
    → split (c ∷ (p ++ (c ∷ []))) (c ∷ []) ≡ [] ∷ p ∷ [] ∷ []
split_quoted c p h =
    split-some _ (c ∷ []) [] (p ++ (c ∷ [])) (cons-ne-nil c []) (cut?_head c [] (p ++ (c ∷ [])))
    ∙ ap (◌∷◌ []) (
        split-some _ (c ∷ []) p [] (cons-ne-nil c []) (cut?_at_byte c p [] h)
        ∙ ap (◌∷◌ p) (split-none [] (c ∷ []) (cut?_no_byte c [] tt)))
