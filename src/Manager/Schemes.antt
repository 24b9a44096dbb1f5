-- ===== src/Manager/Schemes.antt =====
-- The scheme: groupversion_info.go and the `init` functions of the types in apis, and `init` of main.go.
-- The scheme library (apimachinery and controller-runtime's `scheme.Builder`) is a parameter.
pub mod Known
use cluster_api_provider_hyp.Base.{
  Bytes, codes, List, [], ◌∷◌, Option, none, some, M, pure, panic, call, ◌>>=◌, ◌>>◌,
}
use cluster_api_provider_hyp.Api.{
  Fault, HyperCluster, HyperClusterList, HyperMachine, HyperMachineList, HyperMachineTemplate,
  HyperMachineTemplateList, HyperMachinePool, HyperMachinePoolList, HyperIpPool, HyperIpPoolList,
  zero_cluster, zero_machine, zero_template, zero_pool, zero_ip_pool,
}

pub record GroupVersion : Type 0 where
  pub group : Bytes
  pub version : Bytes

-- An object whose Go type is registered.
pub data Prototype : Type 0 where
  cluster : HyperCluster → Prototype
  cluster_list : HyperClusterList → Prototype
  machine : HyperMachine → Prototype
  machine_list : HyperMachineList → Prototype
  template : HyperMachineTemplate → Prototype
  template_list : HyperMachineTemplateList → Prototype
  machine_pool : HyperMachinePool → Prototype
  machine_pool_list : HyperMachinePoolList → Prototype
  ip_pool : HyperIpPool → Prototype
  ip_pool_list : HyperIpPoolList → Prototype

-- The name of the Go type, which the scheme takes for the kind.
abbrev pub type_name : Prototype → Bytes
type_name (cluster x) = codes "HyperCluster"
type_name (cluster_list x) = codes "HyperClusterList"
type_name (machine x) = codes "HyperMachine"
type_name (machine_list x) = codes "HyperMachineList"
type_name (template x) = codes "HyperMachineTemplate"
type_name (template_list x) = codes "HyperMachineTemplateList"
type_name (machine_pool x) = codes "HyperMachinePool"
type_name (machine_pool_list x) = codes "HyperMachinePoolList"
type_name (ip_pool x) = codes "HyperIPPool"
type_name (ip_pool_list x) = codes "HyperIPPoolList"

-- The groups of other repositories that `init` adds.
pub data ForeignGroup : Type 0 where
  client_go cluster_api : ForeignGroup

-- `new_builder v` is `&scheme.Builder{GroupVersion: v}`; `register` is its `Register`, and the builder
-- after it.
pub record SchemeLibrary (World Builder : Type 0) : Type 0 where
  pub new_builder : GroupVersion → Builder
  pub register : Builder → List Prototype → Builder
  pub add_to_scheme : World → Builder → Option Fault × World
  pub add_foreign : World → ForeignGroup → Option Fault × World

abbrev pub infrastructure_version : GroupVersion
infrastructure_version = record {
  group = codes "infrastructure.cluster.x-k8s.io";
  version = codes "v1alpha3";
}

abbrev pub exp_infrastructure_version : GroupVersion
exp_infrastructure_version = record {
  group = codes "exp.infrastructure.cluster.x-k8s.io";
  version = codes "v1alpha3";
}

-- `utilruntime.Must`
abbrev pub or_panic : {World : Type 0} → M World (Option Fault) → M World (Unit {0})
or_panic m = m >>= λ err. elim err [ some e ↦ panic | none ↦ pure tt ]

module _ {World Builder : Type 0} (library : SchemeLibrary World Builder) where
  -- The `init` functions of the files with the types, each on the builder of its package.
  unfoldable pub register_clusters : Builder → Builder
  register_clusters b =
      library.register b (cluster zero_cluster ∷ cluster_list (record { items = [] }) ∷ [])

  unfoldable pub register_machines : Builder → Builder
  register_machines b =
      library.register b (machine zero_machine ∷ machine_list (record { items = [] }) ∷ [])

  unfoldable pub register_templates : Builder → Builder
  register_templates b =
      library.register b (template zero_template ∷ template_list (record { items = [] }) ∷ [])

  unfoldable pub register_machine_pools : Builder → Builder
  register_machine_pools b =
      library.register b (machine_pool zero_pool ∷ machine_pool_list (record { items = [] }) ∷ [])

  unfoldable pub register_ip_pools : Builder → Builder
  register_ip_pools b =
      library.register b (ip_pool zero_ip_pool ∷ ip_pool_list (record { items = [] }) ∷ [])

  -- `SchemeBuilder` of each package once its `init` functions have run, in the order of the files.
  unfoldable pub infrastructure : Builder
  infrastructure =
      register_templates
        (register_machines (register_clusters (library.new_builder infrastructure_version)))

  unfoldable pub exp_infrastructure : Builder
  exp_infrastructure =
      register_machine_pools (register_ip_pools (library.new_builder exp_infrastructure_version))

  -- `init` of main.go.
  unfoldable pub init : M World (Unit {0})
  init =
      or_panic (call λ w. library.add_foreign w client_go)
      >> (or_panic (call λ w. library.add_to_scheme w exp_infrastructure)
          >> (or_panic (call λ w. library.add_to_scheme w infrastructure)
              >> or_panic (call λ w. library.add_foreign w cluster_api)))
