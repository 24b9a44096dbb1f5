-- ===== src/Base/Tracked.antt =====
-- What a call does to a part of the state that is watched, whatever its outcome.
use mathlib.Core.Path.{◌≡◌, refl, sym, ◌∙◌}
use mathlib.Core.Option.{Option, none, some}
use mathlib.Core.Bool.{Bool, true, false}
use cluster_api_provider_hyp.Base.Tests.{if◌then◌else◌}
use cluster_api_provider_hyp.Base.Monad.{
  Outcome, done, panicked, exited, M, proceed, pure, read, must, deferred, with_defer, in_scope,
  on_world, Scoped, ◌>>=◌,
}

module _ {S V : Type 0} (view : S → V) where
  -- The part stays as it is.
  pub record Keeps {A : Type 0} (m : M S A) : Type 0 where
    pub same : (s : S) → view (m s).1 ≡ view s

  proceed_same :
      {A B : Type 0} (f : A → M S B) (o : Outcome A) (s : S)
      → ((a : A) → Keeps (f a))
      → view (proceed f o s).1 ≡ view s
  proceed_same f (done a) s h = (h a).same s
  proceed_same f panicked s h = refl
  proceed_same f exited s h = refl

  pub >>=-Keeps :
      {A B : Type 0} (m : M S A) (f : A → M S B)
      → Keeps m
      → ((a : A) → Keeps (f a))
      → Keeps (m >>= f)
  >>=-Keeps m f hm hf = record { same = λ s. proceed_same f (m s).0 (m s).1 hf ∙ hm.same s }

  pub pure-Keeps : {A : Type 0} (a : A) → Keeps (pure {S = S} a)
  pure-Keeps a = record { same = λ s. refl }

  pub read-Keeps : {A : Type 0} (f : S → A) → Keeps (read f)
  read-Keeps f = record { same = λ s. refl }

  pub must-Keeps : {A : Type 0} (o : Option A) → Keeps (must {S = S} o)
  must-Keeps none = record { same = λ s. refl }
  must-Keeps (some a) = record { same = λ s. refl }

  pub if-Keeps :
      {A : Type 0} (b : Bool) (m n : M S A) → Keeps m → Keeps n → Keeps (if b then m else n)
  if-Keeps true m n hm hn = hm
  if-Keeps false m n hm hn = hn

  pub option-Keeps :
      {A B : Type 0} (o : Option A) (n : M S B) (f : A → M S B)
      → Keeps n
      → ((a : A) → Keeps (f a))
      → Keeps (elim o as (λ _. M S B) [ none ↦ n | some a ↦ f a ])
  option-Keeps none n f hn hf = hn
  option-Keeps (some a) n f hn hf = hf a

  deferred_same :
      {A : Type 0} (d : M S (Unit {0})) (o : Outcome A) (s : S)
      → Keeps d
      → view (deferred d o s).1 ≡ view s
  deferred_same d (done a) s h =
      proceed_same (λ _ t. (done a, t)) (d s).0 (d s).1 (λ _. record { same = λ t. refl })
      ∙ h.same s
  deferred_same {A} d panicked s h =
      let o : Outcome A = panicked in
      proceed_same (λ _ t. (o, t)) (d s).0 (d s).1 (λ _. record { same = λ t. refl }) ∙ h.same s
  deferred_same d exited s h = refl

  pub with_defer-Keeps :
      {A : Type 0} (d : M S (Unit {0})) (m : M S A) → Keeps d → Keeps m → Keeps (with_defer d m)
  with_defer-Keeps d m hd hm = record { same = λ s. deferred_same d (m s).0 (m s).1 hd ∙ hm.same s }

  -- The part changes as the relation allows.
  module _ (R : V → V → Type 0) where
    pub record Moves {A : Type 0} (m : M S A) : Type 0 where
      pub moves : (s : S) → R (view s) (view (m s).1)

    pub option-Moves :
        {A B : Type 0} (o : Option A) (n : M S B) (f : A → M S B)
        → Moves n
        → ((a : A) → Moves (f a))
        → Moves (elim o as (λ _. M S B) [ none ↦ n | some a ↦ f a ])
    option-Moves none n f hn hf = hn
    option-Moves (some a) n f hn hf = hf a

    -- A relation that allows no change.
    module _ (stays : (a b : V) → b ≡ a → R a b) where
      pub Keeps-Moves : {A : Type 0} (m : M S A) → Keeps m → Moves m
      Keeps-Moves m h = record { moves = λ s. stays _ _ (h.same s) }

      proceed_moves :
          {A B : Type 0} (f : A → M S B) (o : Outcome A) (s : S)
          → ((a : A) → Moves (f a))
          → R (view s) (view (proceed f o s).1)
      proceed_moves f (done a) s h = (h a).moves s
      proceed_moves f panicked s h = stays _ _ refl
      proceed_moves f exited s h = stays _ _ refl

      -- The change is in what follows.
      pub >>=-Moves :
          {A B : Type 0} (m : M S A) (f : A → M S B)
          → Keeps m
          → ((a : A) → Moves (f a))
          → Moves (m >>= f)
      >>=-Moves m f hm hf = record {
        moves = λ s. rw (sym (hm.same s)) (proceed_moves f (m s).0 (m s).1 hf);
      }

      -- The change comes first.
      pub >>=-Moves_first :
          {A B : Type 0} (m : M S A) (f : A → M S B)
          → Moves m
          → ((a : A) → Keeps (f a))
          → Moves (m >>= f)
      >>=-Moves_first m f hm hf = record {
        moves = λ s. rw (proceed_same f (m s).0 (m s).1 hf) (hm.moves s);
      }

      pub with_defer-Moves :
          {A : Type 0} (d : M S (Unit {0})) (m : M S A) → Keeps d → Moves m → Moves (with_defer d m)
      with_defer-Moves d m hd hm = record {
        moves = λ s. rw (deferred_same d (m s).0 (m s).1 hd) (hm.moves s);
      }

      pub if-Moves :
          {A : Type 0} (b : Bool) (m n : M S A) → Moves m → Moves n → Moves (if b then m else n)
      if-Moves true m n hm hn = hm
      if-Moves false m n hm hn = hn

-- A part of the world, seen from a handler's state.
module _ {W X V : Type 0} (view : W → V) where
  abbrev pub of_world : Scoped W X → V
  of_world s = view s.world

  pub on_world-Keeps : {A : Type 0} (m : M W A) → Keeps view m → Keeps of_world (on_world {X = X} m)
  on_world-Keeps m h = record { same = λ s. h.same s.world }

  pub on_world-Moves :
      (R : V → V → Type 0) {A : Type 0} (m : M W A)
      → Moves view R m
      → Moves of_world R (on_world {X = X} m)
  on_world-Moves R m h = record { moves = λ s. h.moves s.world }

  pub in_scope-Moves :
      (R : V → V → Type 0) {A : Type 0} (x : X) (m : M (Scoped W X) A)
      → Moves of_world R m
      → Moves view R (in_scope x m)
  in_scope-Moves R x m h = record { moves = λ w. h.moves (record { world = w; object = x }) }
