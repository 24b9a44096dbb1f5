-- ===== src/Base/Decimal.antt =====
-- `strconv.Itoa` and `strconv.Atoi` on the 64-bit `int`, with the wrap-around of its arithmetic.
pub mod Range
use cluster_api_provider_hyp.Base.Tests.{ltb, leb, nat_eq, if◌then◌else◌, Bool-cases}
use cluster_api_provider_hyp.Base.Strings.{Bytes}
use Prim.Native.Nat.{ℕ, zero, suc, ◌+◌, ◌-◌, ◌*◌, ◌/◌, ◌%◌, ◌^◌, ◌≤◌, ◌<◌}
use mathlib.Core.Path.{◌≡◌, ap, ◌∙◌}
use mathlib.Core.Logic.{inl, inr}
use mathlib.Core.Bool.{◌&&◌}
use mathlib.Core.Option.{Option, none, some}
use mathlib.Core.List.{[], ◌∷◌, ◌++◌}
use native.Mathlib.Omega.{arith}

-- `negsuc n` is -(n + 1).
pub data ℤ : Type 0 where
  pos : ℕ → ℤ
  negsuc : ℕ → ℤ

abbrev pub max_int : ℕ
max_int = 2 ^ 63 - 1

-- a - b, as an integer.
abbrev pub sub_ℕ : ℕ → ℕ → ℤ
sub_ℕ a b = if leb b a then pos (a - b) else negsuc (b - a - 1)

-- A sum or difference of two `int`s leaves the 64-bit range by less than `2 ^ 64`.
unfoldable pub wrap : ℤ → ℤ
wrap (pos n) = if leb n max_int then pos n else sub_ℕ n (2 ^ 64)
wrap (negsuc n) = if leb n max_int then negsuc n else sub_ℕ (2 ^ 64) (n + 1)

-- `num + 1`
unfoldable pub increment : ℤ → ℤ
unfolding wrap
increment (pos n) = wrap (pos (n + 1))
increment (negsuc zero) = pos 0
increment (negsuc (suc n)) = negsuc n

-- `100 - num`
unfoldable pub hundred_minus : ℤ → ℤ
unfolding wrap
hundred_minus (pos n) = wrap (sub_ℕ 100 n)
hundred_minus (negsuc n) = wrap (pos (100 + (n + 1)))

digits : ℕ → ℕ → Bytes
digits zero n = []
digits (suc f) n =
    let front = digits f (n / 10) in
    if ltb n 10 then (b'0' + n) ∷ [] else front ++ ((b'0' + n % 10) ∷ [])

unfoldable pub itoa : ℤ → Bytes
unfolding digits
itoa (pos n) = digits (suc n) n
itoa (negsuc n) = b'-' ∷ digits (suc (suc n)) (suc n)

-- The number that the digits spell behind `acc`; `none` at a byte that is no digit.
number : Bytes → ℕ → Option ℕ
number [] acc = some acc
number (c ∷ s) acc =
    let rest = number s (acc * 10 + (c - b'0')) in if leb b'0' c && leb c b'9' then rest else none

unsigned : Bytes → Option ℕ
unsigned [] = none
unsigned (c ∷ s) = number (c ∷ s) 0

in_range : Option ℕ → ℕ → (ℕ → ℤ) → Option ℤ
in_range none bound sign = none
in_range (some n) bound sign = if leb n bound then some (sign n) else none

negated : ℕ → ℤ
negated zero = pos 0
negated (suc n) = negsuc n

-- A sign or none, digits, and a value in the range of `int`.
unfoldable pub atoi : Bytes → Option ℤ
unfolding number unsigned in_range negated
atoi [] = none
atoi (c ∷ s) =
    if nat_eq c b'-'
    then in_range (unsigned s) (max_int + 1) negated
    else if nat_eq c b'+'
    then in_range (unsigned s) max_int pos
    else in_range (unsigned (c ∷ s)) max_int pos

number-append :
    (s : Bytes) (c acc n : ℕ)
    → b'0' ≤ c
    → c ≤ b'9'
    → number s acc ≡ some n
    → number (s ++ (c ∷ [])) acc ≡ some (n * 10 + (c - b'0'))
unfolding number
number-append [] c acc n hl hu h = ground arith
number-append (d ∷ s) c acc n hl hu h =
    ground (arith, number-append s c (acc * 10 + (d - b'0')) n hl hu)

number-digits : (f n : ℕ) → n < f → number (digits f n) 0 ≡ some n
unfolding digits
number-digits zero n h = elim h [ ]
number-digits (suc f) n h = elim (Bool-cases (ltb n 10)) [
  | inl small ↦ rw small (unfold number in ground arith)
  | inr large ↦ rw large (
      number-append (digits f (n / 10)) (b'0' + n % 10) 0 (n / 10) (omega arith) (omega arith)
        (number-digits f (n / 10) (ground arith))
      ∙ ap some (omega arith))
]

digits_head : (f n : ℕ) → n < f → (c : ℕ) × (s : Bytes) × (digits f n ≡ c ∷ s) × (b'0' ≤ c)
unfolding digits
digits_head zero n h = elim h [ ]
digits_head (suc f) n h = elim (Bool-cases (ltb n 10)) [
  | inl small ↦ (b'0' + n, [], rw small, omega arith)
  | inr large ↦
      let (c, s, e, le) = digits_head f (n / 10) (ground arith) in
      (c, s ++ ((b'0' + n % 10) ∷ []), rw (large, e), le)
]

unsigned-digits : (n : ℕ) → unsigned (digits (suc n) n) ≡ some n
unfolding unsigned
unsigned-digits n =
    let (c, s, e, le) = digits_head (suc n) n (omega arith) in
    rw e (rw e at (number-digits (suc n) n (omega arith)))

-- What `Itoa` writes for a number that is not negative, `Atoi` reads back.
pub atoi-itoa : (n : ℕ) → n ≤ max_int → atoi (itoa (pos n)) ≡ some (pos n)
unfolding atoi itoa
atoi-itoa n fits =
    let (c, s, e, le) = digits_head (suc n) n (omega arith) in
    rw e (ground (arith, rw e at (unsigned-digits n)))

-- The same below zero.
pub atoi-itoa_negsuc : (n : ℕ) → n ≤ max_int → atoi (itoa (negsuc n)) ≡ some (negsuc n)
unfolding atoi itoa
atoi-itoa_negsuc n fits = ground (arith, unsigned-digits (suc n))
