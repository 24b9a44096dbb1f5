-- ===== src/Base/Decimal/Range.antt =====
-- The 64-bit range: reading a number and Go's arithmetic stay in it.
use Prim.Native.Nat.{ℕ, zero, suc, ◌+◌, ◌-◌, ◌%◌, ◌^◌, ◌≤◌}
use mathlib.Core.Path.{◌≡◌}
use mathlib.Core.Option.{Option, none, some}
use mathlib.Core.List.{[], ◌∷◌}
use native.Mathlib.Omega.{arith}
use cluster_api_provider_hyp.Base.Strings.{Bytes}
use cluster_api_provider_hyp.Base.Decimal.{
  ℤ, pos, negsuc, max_int, wrap, increment, hundred_minus, in_range, unsigned, negated, atoi, itoa,
  atoi-itoa, atoi-itoa_negsuc,
}

-- An integer of 64 bits.
abbrev pub IsInt : ℤ → Type 0
IsInt (pos n) = n ≤ max_int
IsInt (negsuc n) = n ≤ max_int

in_range-pos : (o : Option ℕ) (z : ℤ) → in_range o max_int pos ≡ some z → IsInt z
unfolding in_range
in_range-pos none z e = absurd (ground arith)
in_range-pos (some n) (pos m) e = ground arith
in_range-pos (some n) (negsuc m) e = absurd (ground arith)

in_range-negated : (o : Option ℕ) (z : ℤ) → in_range o (max_int + 1) negated ≡ some z → IsInt z
unfolding in_range negated
in_range-negated none z e = absurd (ground arith)
in_range-negated (some zero) (pos m) e = ground arith
in_range-negated (some zero) (negsuc m) e = absurd (ground arith)
in_range-negated (some (suc n)) (pos m) e = absurd (ground arith)
in_range-negated (some (suc n)) (negsuc m) e = ground arith

pub atoi-IsInt : (s : Bytes) (z : ℤ) → atoi s ≡ some z → IsInt z
unfolding atoi
atoi-IsInt [] z e = absurd (ground arith)
atoi-IsInt (c ∷ s) z e = ground (
  arith,
  in_range-negated (unsigned s) z,
  in_range-pos (unsigned s) z,
  in_range-pos (unsigned (c ∷ s)) z,
)

pub increment-IsInt : (z : ℤ) → IsInt z → IsInt (increment z)
unfolding increment wrap
increment-IsInt (pos n) h = ground arith
increment-IsInt (negsuc zero) h = omega arith
increment-IsInt (negsuc (suc n)) h = omega arith

pub hundred_minus-IsInt : (z : ℤ) → IsInt z → IsInt (hundred_minus z)
unfolding hundred_minus wrap
hundred_minus-IsInt (pos n) h = ground arith
hundred_minus-IsInt (negsuc n) h = ground arith

-- An integer of 64 bits is read back from its text.
pub atoi-itoa-IsInt : (z : ℤ) → IsInt z → atoi (itoa z) ≡ some z
atoi-itoa-IsInt (pos n) h = atoi-itoa n h
atoi-itoa-IsInt (negsuc n) h = atoi-itoa_negsuc n h

-- The bits of an integer, in two's complement.
abbrev pub word : ℤ → ℕ
word (pos n) = n
word (negsuc n) = 2 ^ 64 - (n + 1)

pub word-increment : (z : ℤ) → IsInt z → word (increment z) ≡ (word z + 1) % 2 ^ 64
unfolding increment wrap
word-increment (pos n) h = ground arith
word-increment (negsuc zero) h = omega arith
word-increment (negsuc (suc n)) h = omega arith

pub word-hundred_minus : (z : ℤ) → IsInt z → (word (hundred_minus z) + word z) % 2 ^ 64 ≡ 100
unfolding hundred_minus wrap
word-hundred_minus (pos n) h = ground arith
word-hundred_minus (negsuc n) h = ground arith
