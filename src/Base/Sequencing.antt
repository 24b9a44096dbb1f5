-- ===== src/Base/Sequencing.antt =====
-- Laws of sequencing.
use mathlib.Core.Option.{Option, none, some}
use cluster_api_provider_hyp.Base.Monad.{Outcome, done, panicked, exited, M, proceed, must, ◌>>=◌}
use mathlib.Core.Path.{◌≡◌, refl, ◌∙◌}

proceed_assoc :
    {S A B C : Type 0} (f : A → M S B) (g : B → M S C) (o : Outcome A) (s : S)
    → proceed g (proceed f o s).0 (proceed f o s).1 ≡ proceed (λ a. f a >>= g) o s
proceed_assoc f g (done a) s = refl
proceed_assoc f g panicked s = refl
proceed_assoc f g exited s = refl

proceed_ext :
    {S A B : Type 0} (f g : A → M S B) (o : Outcome A) (s : S)
    → ((a : A) (s : S) → f a s ≡ g a s)
    → proceed f o s ≡ proceed g o s
proceed_ext f g (done a) s h = h a s
proceed_ext f g panicked s h = refl
proceed_ext f g exited s h = refl

pub >>=-assoc :
    {S A B C : Type 0} (m : M S A) (f : A → M S B) (g : B → M S C) (s : S)
    → ((m >>= f) >>= g) s ≡ (m >>= λ a. f a >>= g) s
>>=-assoc m f g s = proceed_assoc f g (m s).0 (m s).1

pub >>=-ext :
    {S A B : Type 0} (m : M S A) (f g : A → M S B) (s : S)
    → ((a : A) (s : S) → f a s ≡ g a s)
    → (m >>= f) s ≡ (m >>= g) s
>>=-ext m f g s h = proceed_ext f g (m s).0 (m s).1 h

pub >>=-congr :
    {S A B : Type 0} (m n : M S A) (f : A → M S B) (s : S) → m s ≡ n s → (m >>= f) s ≡ (n >>= f) s
>>=-congr m n f s h = rw h

proceed_same :
    {S V A B : Type 0} (view : S → V) (f : A → M S B) (o : Outcome A) (s : S)
    → ((a : A) (t : S) → view (f a t).1 ≡ view t)
    → view (proceed f o s).1 ≡ view s
proceed_same view f (done a) s h = h a s
proceed_same view f panicked s h = refl
proceed_same view f exited s h = refl

-- What two calls both leave alone, they leave alone one after the other.
pub >>=_same :
    {S V A B : Type 0} (view : S → V) (m : M S A) (f : A → M S B) (s : S)
    → view (m s).1 ≡ view s
    → ((a : A) (t : S) → view (f a t).1 ≡ view t)
    → view ((m >>= f) s).1 ≡ view s
>>=_same view m f s hm hf = proceed_same view f (m s).0 (m s).1 hf ∙ hm

pub must_same : {S V A : Type 0} (view : S → V) (o : Option A) (s : S) → view (must o s).1 ≡ view s
must_same view none s = refl
must_same view (some a) s = refl
