-- ===== src/Api/Objects.antt =====
-- apis/infrastructure/v1alpha3 and apis/exp.infrastructure/v1alpha3, with the fields of the cluster
-- API's `Cluster` and `Machine` and of `ObjectMeta` that the controllers read.
use cluster_api_provider_hyp.Base.{ℕ, Bytes, Bool, false, List, [], Option, none, some, codes}
use cluster_api_provider_hyp.Api.LabelMap.{Labels}

-- `metav1.OwnerReference`
pub record OwnerReference : Type 0 where
  pub api_version : Bytes
  pub kind : Bytes
  pub name : Bytes
  pub uid : Bytes
  pub controller : Option Bool
  pub block_owner_deletion : Option Bool

-- The fields of `metav1.ObjectMeta` that only `reflect.DeepEqual` reads. A managed field is its text.
pub record Bookkeeping : Type 0 where
  pub generate_name : Bytes
  pub self_link : Bytes
  pub generation : ℕ
  pub creation_timestamp : Option ℕ
  pub deletion_grace_period_seconds : Option ℕ
  pub annotations : Option Labels
  pub owner_references : List OwnerReference
  pub cluster_name : Bytes
  pub managed_fields : List Bytes

-- `metav1.TypeMeta` and `metav1.ObjectMeta`; a zero time is `none`.
pub record ObjectMeta : Type 0 where
  pub kind : Bytes
  pub api_version : Bytes
  pub name : Bytes
  pub namespace : Bytes
  pub uid : Bytes
  pub resource_version : Bytes
  pub labels : Option Labels
  pub finalizers : List Bytes
  pub deletion_timestamp : Option ℕ
  pub bookkeeping : Bookkeeping

-- `types.NamespacedName`
pub record Key : Type 0 where
  pub namespace : Bytes
  pub name : Bytes

pub record ObjectReference : Type 0 where
  pub api_version : Bytes
  pub kind : Bytes
  pub name : Bytes
  pub namespace : Bytes
  pub uid : Bytes

pub record SshInfo : Type 0 where
  pub address : Bytes
  pub ssh_id : Bytes
  pub ssh_pw : Bytes

-- `SSH *SSHinfo` may be nil.
pub record HyperMachinePoolSpec : Type 0 where
  pub ssh : Option SshInfo

pub record HyperMachinePoolStatus : Type 0 where
  pub error : Bytes
  pub os : Bytes
  pub kernel : Bytes
  pub host_name : Bytes
  pub network_interface : Bytes

pub record HyperMachinePool : Type 0 where
  pub meta : ObjectMeta
  pub spec : HyperMachinePoolSpec
  pub status : HyperMachinePoolStatus

pub record HyperIpPoolSpec : Type 0 where
  pub ip : Bytes

pub record HyperIpPool : Type 0 where
  pub meta : ObjectMeta
  pub spec : HyperIpPoolSpec

pub record ApiEndpoint : Type 0 where
  pub host : Bytes
  pub port : ℕ

pub record HyperClusterSpec : Type 0 where
  pub control_plane_endpoint : ApiEndpoint

pub record HyperClusterStatus : Type 0 where
  pub ready : Bool

pub record HyperCluster : Type 0 where
  pub meta : ObjectMeta
  pub spec : HyperClusterSpec
  pub status : HyperClusterStatus

-- `ProviderID *string` may be nil.
pub record HyperMachineSpec : Type 0 where
  pub provider_id : Option Bytes
  pub hyper_machine_pool_ref : ObjectReference

pub record MachineAddress : Type 0 where
  pub address_type : Bytes
  pub address : Bytes

pub record HyperMachineStatus : Type 0 where
  pub ready : Bool
  pub addresses : List MachineAddress

pub record HyperMachine : Type 0 where
  pub meta : ObjectMeta
  pub spec : HyperMachineSpec
  pub status : HyperMachineStatus

-- A template of machines, as the cluster API copies it for each of its machines.
pub record HyperMachineTemplateResource : Type 0 where
  pub spec : HyperMachineSpec

pub record HyperMachineTemplateSpec : Type 0 where
  pub template : HyperMachineTemplateResource

pub record HyperMachineTemplate : Type 0 where
  pub meta : ObjectMeta
  pub spec : HyperMachineTemplateSpec

-- The lists of the five kinds; nothing of a list's own metadata is read.
pub record HyperMachinePoolList : Type 0 where
  pub items : List HyperMachinePool

pub record HyperIpPoolList : Type 0 where
  pub items : List HyperIpPool

pub record HyperClusterList : Type 0 where
  pub items : List HyperCluster

pub record HyperMachineList : Type 0 where
  pub items : List HyperMachine

pub record HyperMachineTemplateList : Type 0 where
  pub items : List HyperMachineTemplate

-- The cluster API's objects, as far as they are read. Pointers are options.
pub record Cluster : Type 0 where
  pub meta : ObjectMeta
  pub infrastructure_ref : Option ObjectReference

pub record Machine : Type 0 where
  pub meta : ObjectMeta
  pub infrastructure_ref : ObjectReference
  pub data_secret_name : Option Bytes
  pub version : Option Bytes
  pub phase : Bytes

-- `&HyperMachinePool{}` and the like: what a failed `Get` leaves behind.
abbrev pub zero_meta : ObjectMeta
zero_meta = record {
  kind = [];
  api_version = [];
  name = [];
  namespace = [];
  uid = [];
  resource_version = [];
  labels = none;
  finalizers = [];
  deletion_timestamp = none;
  bookkeeping = record {
    generate_name = [];
    self_link = [];
    generation = 0;
    creation_timestamp = none;
    deletion_grace_period_seconds = none;
    annotations = none;
    owner_references = [];
    cluster_name = [];
    managed_fields = [];
  };
}

abbrev pub zero_pool : HyperMachinePool
zero_pool = record {
  meta = zero_meta;
  spec = record { ssh = none };
  status = record { error = []; os = []; kernel = []; host_name = []; network_interface = [] };
}

abbrev pub zero_ip_pool : HyperIpPool
zero_ip_pool = record { meta = zero_meta; spec = record { ip = [] } }

abbrev pub zero_ref : ObjectReference
zero_ref = record { api_version = []; kind = []; name = []; namespace = []; uid = [] }

abbrev pub zero_machine_status : HyperMachineStatus
zero_machine_status = record { ready = false; addresses = [] }

abbrev pub zero_machine : HyperMachine
zero_machine = record {
  meta = zero_meta;
  spec = record { provider_id = none; hyper_machine_pool_ref = zero_ref };
  status = zero_machine_status;
}

abbrev pub zero_cluster : HyperCluster
zero_cluster = record {
  meta = zero_meta;
  spec = record { control_plane_endpoint = record { host = []; port = 0 } };
  status = record { ready = false };
}

abbrev pub zero_template : HyperMachineTemplate
zero_template = record {
  meta = zero_meta;
  spec = record { template = record { spec = zero_machine.spec } };
}

abbrev pub key_of : ObjectMeta → Key
key_of m = record { namespace = m.namespace; name = m.name }

unfoldable pub hyper_machine_finalizer : Bytes
hyper_machine_finalizer = codes "hypermachine.infrastructure.cluster.x-k8s.io"

unfoldable pub hyper_cluster_finalizer : Bytes
hyper_cluster_finalizer = codes "hypercluster.infrastructure.cluster.x-k8s.io"

-- An object with another label map.
abbrev pub ip_pool_with_labels : HyperIpPool → Labels → HyperIpPool
ip_pool_with_labels hip m = record hip { meta = record (hip.meta) { labels = some m } }

abbrev pub pool_with_labels : HyperMachinePool → Labels → HyperMachinePool
pool_with_labels hmp m = record hmp { meta = record (hmp.meta) { labels = some m } }
