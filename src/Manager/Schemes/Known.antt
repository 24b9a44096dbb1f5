-- ===== src/Manager/Schemes/Known.antt =====
-- Which kinds the scheme knows when the manager starts.
use cluster_api_provider_hyp.Base.{
  Bytes, codes, ◌≡◌, refl, ap, List, [], ◌∷◌, ◌++◌, Option, none, some, done, M, call, ◌>>◌, All,
  arith,
}
use cluster_api_provider_hyp.Base.Distinct.{All-mono}
use cluster_api_provider_hyp.Api.{Fault}
use cluster_api_provider_hyp.Manager.Schemes.{
  GroupVersion, Prototype, type_name, ForeignGroup, client_go, cluster_api, SchemeLibrary, or_panic,
  register_clusters, register_machines, register_templates, register_machine_pools,
  register_ip_pools, infrastructure, exp_infrastructure, init,
}

pub record GroupVersionKind : Type 0 where
  pub group_version : GroupVersion
  pub kind : Bytes

-- The kinds of a list of prototypes, in one group.
abbrev pub kinds_of : GroupVersion → List Prototype → List GroupVersionKind
kinds_of v [] = []
kinds_of v (x ∷ l) = record { group_version = v; kind = type_name x } ∷ kinds_of v l

-- `contents` are the kinds that were registered with a builder, and `known` are the kinds of a scheme:
-- what is added without error makes the builder's kinds known, and no kind is forgotten.
pub record IsScheme {World Builder : Type 0} (library : SchemeLibrary World Builder)
    (version_of : Builder → GroupVersion) (contents : Builder → List GroupVersionKind)
    (known : World → GroupVersionKind → Type 0) : Type 0 where
  pub new_version : (v : GroupVersion) → version_of (library.new_builder v) ≡ v
  pub new_contents : (v : GroupVersion) → contents (library.new_builder v) ≡ []
  pub same_version :
      (b : Builder) (l : List Prototype) → version_of (library.register b l) ≡ version_of b
  pub more_contents :
      (b : Builder) (l : List Prototype)
      → contents (library.register b l) ≡ contents b ++ kinds_of (version_of b) l
  pub added :
      (b : Builder) (w : World) {w' : World}
      → library.add_to_scheme w b ≡ (none, w')
      → All (known w') (contents b)
  pub kept :
      (b : Builder) (w : World) {w' : World}
      → library.add_to_scheme w b ≡ (none, w')
      → (g : GroupVersionKind) → known w g
      → known w' g
  pub foreign_kept :
      (f : ForeignGroup) (w : World) {w' : World}
      → library.add_foreign w f ≡ (none, w')
      → (g : GroupVersionKind) → known w g
      → known w' g

abbrev pub in_infrastructure : Bytes → GroupVersionKind
in_infrastructure kind = record {
  group_version = record {
    group = codes "infrastructure.cluster.x-k8s.io";
    version = codes "v1alpha3";
  };
  kind = kind;
}

abbrev pub in_exp : Bytes → GroupVersionKind
in_exp kind = record {
  group_version = record {
    group = codes "exp.infrastructure.cluster.x-k8s.io";
    version = codes "v1alpha3";
  };
  kind = kind;
}

-- The kinds of the two groups, with their lists.
abbrev pub infrastructure_kinds : List GroupVersionKind
infrastructure_kinds =
    in_infrastructure (codes "HyperCluster")
    ∷ in_infrastructure (codes "HyperClusterList")
    ∷ in_infrastructure (codes "HyperMachine")
    ∷ in_infrastructure (codes "HyperMachineList")
    ∷ in_infrastructure (codes "HyperMachineTemplate")
    ∷ in_infrastructure (codes "HyperMachineTemplateList")
    ∷ []

abbrev pub exp_kinds : List GroupVersionKind
exp_kinds =
    in_exp (codes "HyperIPPool")
    ∷ in_exp (codes "HyperIPPoolList")
    ∷ in_exp (codes "HyperMachinePool")
    ∷ in_exp (codes "HyperMachinePoolList")
    ∷ []

-- A call that may panic went well where what follows it returns.
called :
    {World : Type 0} (r : Option Fault) (s : World) (k : M World (Unit {0})) (w' : World)
    → (or_panic (λ t. (done r, s)) >> k) s ≡ (done tt, w')
    → (r ≡ none) × (k s ≡ (done tt, w'))
called none s k w' e = (refl, e)
called (some f) s k w' e = absurd (ground arith)

called_first :
    {World : Type 0} (f : World → Option Fault × World) (k : M World (Unit {0})) (w w' : World)
    → (or_panic (call f) >> k) w ≡ (done tt, w')
    → (w1 : World) × (f w ≡ (none, w1)) × (k w1 ≡ (done tt, w'))
called_first f k w w' e =
    let (ok, rest) = called (f w).0 (f w).1 k w' e in ((f w).1, ap (λ r. (r, (f w).1)) ok, rest)

called_last :
    {World : Type 0} (r : Option Fault) (s w' : World)
    → or_panic (λ t. (done r, s)) s ≡ (done tt, w')
    → (r ≡ none) × (s ≡ w')
called_last none s w' e = (refl, ground arith)
called_last (some f) s w' e = absurd (ground arith)

module _ {World Builder : Type 0} (library : SchemeLibrary World Builder)
    (version_of : Builder → GroupVersion) (contents : Builder → List GroupVersionKind)
    (known : World → GroupVersionKind → Type 0)
    (scheme : IsScheme library version_of contents known) where
  infrastructure-contents : contents (infrastructure library) ≡ infrastructure_kinds
  unfolding infrastructure register_clusters register_machines register_templates
  infrastructure-contents =
      simp (scheme.more_contents, scheme.same_version, scheme.new_contents, scheme.new_version)

  exp_infrastructure-contents : contents (exp_infrastructure library) ≡ exp_kinds
  unfolding exp_infrastructure register_machine_pools register_ip_pools
  exp_infrastructure-contents =
      simp (scheme.more_contents, scheme.same_version, scheme.new_contents, scheme.new_version)

  -- The calls of `init`, each of which went well.
  went_well :
      (w w' : World)
      → init library w ≡ (done tt, w')
      → (w1 : World) × (w2 : World) × (w3 : World) × (library.add_foreign w client_go ≡ (none, w1))
        × (library.add_to_scheme w1 (exp_infrastructure library) ≡ (none, w2))
        × (library.add_to_scheme w2 (infrastructure library) ≡ (none, w3))
        × (library.add_foreign w3 cluster_api ≡ (none, w'))
  unfolding init
  went_well w w' e =
      let (w1, first, e1) = called_first (λ v. library.add_foreign v client_go) _ w w' e in
      let (w2, own_exp, e2) =
        called_first (λ v. library.add_to_scheme v (exp_infrastructure library)) _ w1 w' e1 in
      let (w3, own, e3) =
        called_first (λ v. library.add_to_scheme v (infrastructure library)) _ w2 w' e2 in
      let (ok, same) =
        called_last (library.add_foreign w3 cluster_api).0 (library.add_foreign w3 cluster_api).1 w'
          e3 in
      (w1, w2, w3, first, own_exp, own, ground (arith, ok, same))

  -- Once `init` of main.go has returned, the scheme knows the five kinds of this provider and their
  -- lists, each in its group and version: clusters, machines and machine templates in the group of the
  -- infrastructure, and the two pools in that of the experimental one.
  pub init-IsKnown :
      (w w' : World)
      → init library w ≡ (done tt, w')
      → All (known w') infrastructure_kinds × All (known w') exp_kinds
  init-IsKnown w w' e =
      let (w1, w2, w3, first, own_exp, own, rest) = went_well w w' e in
      let keeps_last : (l : List GroupVersionKind) → All (known w3) l → All (known w') l =
        λ l. All-mono (known w3) (known w') l (scheme.foreign_kept cluster_api w3 rest) in
      (
        keeps_last infrastructure_kinds
            (rw infrastructure-contents at (scheme.added (infrastructure library) w2 own)),
        keeps_last exp_kinds (
            All-mono (known w2) (known w3) exp_kinds (scheme.kept (infrastructure library) w2 own) (
              rw exp_infrastructure-contents at
                (scheme.added (exp_infrastructure library) w1 own_exp))),
      )
