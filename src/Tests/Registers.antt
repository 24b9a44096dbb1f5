-- ===== src/Tests/Registers.antt =====
-- A scheme that is the list of the kinds that it knows.
use cluster_api_provider_hyp.Base.{
  ◌≡◌, ◌⊎◌, inl, inr, refl, ap, List, [], ◌∷◌, ◌++◌, Option, none, done, All,
}
use cluster_api_provider_hyp.Base.Distinct.{All-mono}
use cluster_api_provider_hyp.Api.{Fault}
use cluster_api_provider_hyp.Manager.Schemes.{
  GroupVersion, Prototype, type_name, SchemeLibrary, init,
}
use cluster_api_provider_hyp.Manager.Schemes.Known.{
  GroupVersionKind, kinds_of, IsScheme, infrastructure_kinds, exp_kinds, init-IsKnown,
}

record Builder : Type 0 where
  pub version : GroupVersion
  pub prototypes : List Prototype

abbrev library : SchemeLibrary (List GroupVersionKind) Builder
library = record {
  new_builder = λ v. record { version = v; prototypes = [] };
  register = λ b l. record { version = b.version; prototypes = b.prototypes ++ l };
  add_to_scheme = λ w b. (none, kinds_of b.version b.prototypes ++ w);
  add_foreign = λ w f. (none, w);
}

abbrev Has : List GroupVersionKind → GroupVersionKind → Type 0
Has [] g = ⊥
Has (x ∷ l) g = (x ≡ g) ⊎ Has l g

Has-later : (l w : List GroupVersionKind) (g : GroupVersionKind) → Has w g → Has (l ++ w) g
Has-later [] w g h = h
Has-later (x ∷ l) w g h = inr (Has-later l w g h)

Has-all : (l w : List GroupVersionKind) → All (Has (l ++ w)) l
Has-all [] w = tt
Has-all (x ∷ l) w =
    (inl refl, All-mono (Has (l ++ w)) (Has ((x ∷ l) ++ w)) l (λ g h. inr h) (Has-all l w))

kinds_of_append :
    (v : GroupVersion) (l m : List Prototype) → kinds_of v (l ++ m) ≡ kinds_of v l ++ kinds_of v m
kinds_of_append v [] m = refl
kinds_of_append v (x ∷ l) m =
    ap (λ r. record { group_version = v; kind = type_name x } ∷ r) (kinds_of_append v l m)

same_scheme :
    (a b : List GroupVersionKind)
    → ◌≡◌ {A = Option Fault × List GroupVersionKind} (none, a) (none, b)
    → a ≡ b
same_scheme a b e = cc

library-IsScheme : IsScheme library (λ b. b.version) (λ b. kinds_of b.version b.prototypes) Has
library-IsScheme = record {
  new_version = λ v. refl;
  new_contents = λ v. refl;
  same_version = λ b l. refl;
  more_contents = λ b l. kinds_of_append b.version b.prototypes l;
  added = λ b w e. rw (same_scheme _ _ e) at (Has-all (kinds_of b.version b.prototypes) w);
  kept = λ b w e g h. rw (same_scheme _ _ e) at (Has-later (kinds_of b.version b.prototypes) w g h);
  foreign_kept = λ f w e g h. rw (same_scheme _ _ e) at h;
}

abbrev started : List GroupVersionKind
started = (init library []).1

runs : init library [] ≡ (done tt, started)
unfolding init
runs = refl

init-IsKnown_example : All (Has started) infrastructure_kinds × All (Has started) exp_kinds
init-IsKnown_example = init-IsKnown library _ _ Has library-IsScheme [] started runs
