-- ===== src/Base/Strings.antt =====
-- A Go string is the list of its bytes.
use Prim.Native.Nat.{ℕ}
use Prim.Native.Char.{code}
use Prim.Native.String.{String}
use mathlib.Core.Path.{◌≡◌, refl}
use mathlib.Core.Logic.{◌↔◌, ◌≢◌}
use mathlib.Core.Bool.{Bool, true, false, ◌&&◌, ◌||◌}
use mathlib.Core.List.{List, [], ◌∷◌, ◌++◌}
use mathlib.Core.Option.{Option, none, some}
use native.Mathlib.Omega.{arith}
use cluster_api_provider_hyp.Base.Tests.{nat_eq}

abbrev pub Bytes : Type 0
Bytes = List ℕ

-- The bytes of a literal, which is ASCII everywhere here.
unfoldable pub codes : String → Bytes
codes String.[] = []
codes (String.◌∷◌ c s) = code c ∷ codes s

infix 50 ◌==◌
unfoldable pub ◌==◌ : Bytes → Bytes → Bool
[] == [] = true
(a ∷ s) == (b ∷ t) = nat_eq a b && s == t
_ == _ = false

pub ==_iff : (s t : Bytes) → ((s == t) ≡ true) ↔ (s ≡ t)
unfolding ◌==◌
==_iff [] [] = (λ h. refl, λ h. refl)
==_iff [] (b ∷ t) = ground arith
==_iff (a ∷ s) [] = ground arith
==_iff (a ∷ s) (b ∷ t) = ground (arith, ==_iff s t)

pub ==_refl : (s : Bytes) → (s == s) ≡ true
==_refl s = (==_iff s s).1 refl

pub ==_ne : (s t : Bytes) → s ≢ t → (s == t) ≡ false
==_ne s t h = ground (arith, ==_iff s t)

-- `strings.HasPrefix`, with the rest behind the prefix.
unfoldable pub strip_prefix? : Bytes → Bytes → Option Bytes
strip_prefix? s [] = some s
strip_prefix? [] (b ∷ p) = none
strip_prefix? (a ∷ s) (b ∷ p) = elim (nat_eq a b) [ true ↦ strip_prefix? s p | false ↦ none ]

pub strip_prefix?-append : (p s : Bytes) → strip_prefix? (p ++ s) p ≡ some s
unfolding strip_prefix?
strip_prefix?-append [] s = refl
strip_prefix?-append (b ∷ p) s = ground (arith, strip_prefix?-append p s)

pub strip_prefix?_sound : (s p r : Bytes) → strip_prefix? s p ≡ some r → s ≡ p ++ r
unfolding strip_prefix?
strip_prefix?_sound s [] r h = ground arith
strip_prefix?_sound [] (b ∷ p) r h = ground arith
strip_prefix?_sound (a ∷ s) (b ∷ p) r h = ground (arith, strip_prefix?_sound s p r)

unfoldable pub has_prefix : Bytes → Bytes → Bool
has_prefix s p = elim (strip_prefix? s p) [ none ↦ false | some _ ↦ true ]

-- `strings.Contains`
unfoldable pub contains : Bytes → Bytes → Bool
unfolding has_prefix
contains [] p = has_prefix [] p
contains (a ∷ s) p = has_prefix (a ∷ s) p || contains s p

pub has_prefix-append : (p s : Bytes) → has_prefix (p ++ s) p ≡ true
unfolding has_prefix
has_prefix-append p s = rw (strip_prefix?-append p s, has_prefix) refl

pub contains-prefix : (p s : Bytes) → contains (p ++ s) p ≡ true
unfolding contains
contains-prefix [] [] = unfold has_prefix strip_prefix? in refl
contains-prefix [] (a ∷ s) = unfold has_prefix strip_prefix? in refl
contains-prefix (a ∷ p) s = rw (has_prefix-append (a ∷ p) s) refl
