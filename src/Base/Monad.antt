-- ===== src/Base/Monad.antt =====
-- Go's control flow: a call changes the state and returns, panics, or ends the process
-- (`log.Fatal`). The state is kept on a panic, since deferred calls still run and read it.
use mathlib.Core.Option.{Option, none, some}

pub data Outcome (A : Type 0) : Type 0 where
  done : A → Outcome A
  panicked : Outcome A
  exited : Outcome A

abbrev pub M : Type 0 → Type 0 → Type 0
M S A = S → Outcome A × S

abbrev pub pure : {S A : Type 0} → A → M S A
pure a s = (done a, s)

abbrev pub panic : {S A : Type 0} → M S A
panic s = (panicked, s)

abbrev pub exit : {S A : Type 0} → M S A
exit s = (exited, s)

abbrev pub proceed : {S A B : Type 0} → (A → M S B) → Outcome A → S → Outcome B × S
proceed f (done a) s = f a s
proceed f panicked s = (panicked, s)
proceed f exited s = (exited, s)

infixl 5 ◌>>=◌ ◌>>◌
abbrev pub ◌>>=◌ : {S A B : Type 0} → M S A → (A → M S B) → M S B
◌>>=◌ m f s = proceed f (m s).0 (m s).1

abbrev pub ◌>>◌ : {S B : Type 0} → M S (Unit {0}) → M S B → M S B
m >> k = m >>= λ _. k

-- An expression that panics where it has no value: an index, a slice, a nil dereference.
abbrev pub must : {S A : Type 0} → Option A → M S A
must none = panic
must (some a) = pure a

abbrev pub read : {S A : Type 0} → (S → A) → M S A
read f s = (done (f s), s)

abbrev pub modify : {S : Type 0} → (S → S) → M S (Unit {0})
modify f s = (done tt, f s)

-- A call that is never refused, on a part of the state.
abbrev pub call : {S A : Type 0} → (S → A × S) → M S A
call f s = (done (f s).0, (f s).1)

-- `defer d()`: `d` runs when the body returns and when it panics, not when the process ends.
abbrev pub deferred : {S A : Type 0} → M S (Unit {0}) → Outcome A → S → Outcome A × S
deferred d (done a) s = proceed (λ _ t. (done a, t)) (d s).0 (d s).1
deferred d panicked s = proceed (λ _ t. (panicked, t)) (d s).0 (d s).1
deferred d exited s = (exited, s)

abbrev pub with_defer : {S A : Type 0} → M S (Unit {0}) → M S A → M S A
with_defer d m s = deferred d (m s).0 (m s).1

-- A component object together with the rest of the system.
pub record Scoped (W X : Type 0) : Type 0 where
  pub world : W
  pub object : X

abbrev pub on_world : {W X A : Type 0} → M W A → M (Scoped W X) A
on_world m s = ((m s.world).0, record s { world = (m s.world).1 })

-- A handler of an object that was read into a variable: the variable is gone when it returns.
abbrev pub in_scope : {W X A : Type 0} → X → M (Scoped W X) A → M W A
in_scope x m w = let r = m (record { world = w; object = x }) in (r.0, r.1.world)

abbrev pub with_object : {W X : Type 0} → (X → X) → M (Scoped W X) (Unit {0})
with_object f s = (done tt, record s { object = f s.object })
