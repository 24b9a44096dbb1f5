-- ===== src/Base/Distinct.antt =====
-- Lists without repetitions, and the removal of one element.
use mathlib.Core.Path.{sym}
use mathlib.Core.Logic.{◌≢◌}
use mathlib.Core.List.{List, [], ◌∷◌}
use cluster_api_provider_hyp.Base.Tests.{All}

-- The second list is the first without one occurrence of the element.
pub data Removed {A : Type 0} (k : A) : List A → List A → Type 0 where
  here : (l : List A) → Removed k (k ∷ l) l
  later : (j : A) {l l' : List A} → Removed k l l' → Removed k (j ∷ l) (j ∷ l')

abbrev pub Distinct : {A : Type 0} → List A → Type 0
Distinct [] = Unit
Distinct (k ∷ l) = All (λ j. k ≢ j) l × Distinct l

pub All-mono {κ μ} :
    {A : Type 0} (P : A → Type κ) (Q : A → Type μ) (l : List A)
    → ((a : A) → P a → Q a)
    → All P l
    → All Q l
All-mono P Q [] h p = tt
All-mono P Q (x ∷ l) h (p, ps) = (h x p, All-mono P Q l h ps)

-- From two facts about all elements.
pub All-zip {κ μ ν} :
    {A : Type 0} (P : A → Type κ) (Q : A → Type μ) (R : A → Type ν) (l : List A)
    → ((a : A) → P a → Q a → R a)
    → All P l
    → All Q l
    → All R l
All-zip P Q R [] h p q = tt
All-zip P Q R (x ∷ l) h (p, ps) (q, qs) = (h x p q, All-zip P Q R l h ps qs)

module _ {A : Type 0} {k : A} where
  pub Removed-All {ℓ} : (P : A → Type ℓ) {l l' : List A} → Removed k l l' → All P l → All P l'
  Removed-All P (here l) (p, ps) = ps
  Removed-All P (later j r) (p, ps) = (p, Removed-All P r ps)

  -- What holds of all elements holds of the one that is removed.
  pub Removed_at {ℓ} : (P : A → Type ℓ) {l l' : List A} → Removed k l l' → All P l → P k
  Removed_at P (here l) (p, ps) = p
  Removed_at P (later j r) (p, ps) = Removed_at P r ps

  pub Removed-ne : {l l' : List A} → Removed k l l' → Distinct l → All (λ j. j ≢ k) l'
  Removed-ne (here l) (apart, d) = All-mono (λ j. k ≢ j) (λ j. j ≢ k) l (λ j h e. h (sym e)) apart
  Removed-ne (later j r) (apart, d) = (Removed_at (λ i. j ≢ i) r apart, Removed-ne r d)

  pub Removed-Distinct : {l l' : List A} → Removed k l l' → Distinct l → Distinct l'
  Removed-Distinct (here l) (apart, d) = d
  Removed-Distinct (later j r) (apart, d) = (Removed-All (λ i. j ≢ i) r apart, Removed-Distinct r d)
