-- ===== src/Base/Preserved.antt =====
-- Predicates of the state that calls preserve, whatever their outcome.
use mathlib.Core.Option.{Option, none, some}
use mathlib.Core.Bool.{Bool, true, false}
use cluster_api_provider_hyp.Base.Tests.{if◌then◌else◌}
use cluster_api_provider_hyp.Base.Monad.{
  Outcome, done, panicked, exited, M, proceed, pure, read, must, deferred, with_defer, ◌>>=◌,
}

-- The predicate holds after the call where it holds before, also if it panics or ends the process.
pub record Preserves {ℓ} {S A : Type 0} (P : S → Type ℓ) (m : M S A) : Type ℓ where
  pub keeps : (s : S) → P s → P (m s).1

module _ {ℓ} {S : Type 0} (P : S → Type ℓ) where
  proceed_keeps :
      {A B : Type 0} (f : A → M S B) (o : Outcome A) (s : S)
      → ((a : A) → Preserves P (f a))
      → P s
      → P (proceed f o s).1
  proceed_keeps f (done a) s hf h = (hf a).keeps s h
  proceed_keeps f panicked s hf h = h
  proceed_keeps f exited s hf h = h

  pub >>=-Preserves :
      {A B : Type 0} (m : M S A) (f : A → M S B)
      → Preserves P m
      → ((a : A) → Preserves P (f a))
      → Preserves P (m >>= f)
  >>=-Preserves m f hm hf = record {
    keeps = λ s h. proceed_keeps f (m s).0 (m s).1 hf (hm.keeps s h);
  }

  pub pure-Preserves : {A : Type 0} (a : A) → Preserves P (pure {S = S} a)
  pure-Preserves a = record { keeps = λ s h. h }

  pub must-Preserves : {A : Type 0} (o : Option A) → Preserves P (must {S = S} o)
  must-Preserves none = record { keeps = λ s h. h }
  must-Preserves (some a) = record { keeps = λ s h. h }

  pub read-Preserves : {A : Type 0} (f : S → A) → Preserves P (read f)
  read-Preserves f = record { keeps = λ s h. h }

  pub if-Preserves :
      {A : Type 0} (b : Bool) (m n : M S A)
      → Preserves P m
      → Preserves P n
      → Preserves P (if b then m else n)
  if-Preserves true m n hm hn = hm
  if-Preserves false m n hm hn = hn

  pub option-Preserves :
      {A B : Type 0} (o : Option A) (n : M S B) (f : A → M S B)
      → Preserves P n
      → ((a : A) → Preserves P (f a))
      → Preserves P (elim o as (λ _. M S B) [ none ↦ n | some a ↦ f a ])
  option-Preserves none n f hn hf = hn
  option-Preserves (some a) n f hn hf = hf a

  deferred_keeps :
      {A : Type 0} (d : M S (Unit {0})) (o : Outcome A) (s : S)
      → Preserves P d
      → P s
      → P (deferred d o s).1
  deferred_keeps d (done a) s hd h =
      proceed_keeps (λ _ t. (done a, t)) (d s).0 (d s).1 (λ _. record { keeps = λ t k. k })
        (hd.keeps s h)
  deferred_keeps {A} d panicked s hd h =
      let o : Outcome A = panicked in
      proceed_keeps (λ _ t. (o, t)) (d s).0 (d s).1 (λ _. record { keeps = λ t k. k })
        (hd.keeps s h)
  deferred_keeps d exited s hd h = h

  pub with_defer-Preserves :
      {A : Type 0} (d : M S (Unit {0})) (m : M S A)
      → Preserves P d
      → Preserves P m
      → Preserves P (with_defer d m)
  with_defer-Preserves d m hd hm = record {
    keeps = λ s h. deferred_keeps d (m s).0 (m s).1 hd (hm.keeps s h);
  }
