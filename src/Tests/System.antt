-- ===== src/Tests/System.antt =====
-- The client and the remote machines over the memory: `Dial` fails at the address "down", the command
-- "false" fails, and every command is recorded.
use cluster_api_provider_hyp.Base.{
  Bytes, codes, ◌==◌, Bool, true, false, List, [], ◌∷◌, ◌++◌, none, some, if◌then◌else◌,
}
use cluster_api_provider_hyp.Api.{
  SshInfo, Labels, HyperMachinePool, HyperCluster, HyperMachine, Cluster, Machine, failure, value,
  fault, Store, Client, FinalizerOps, zero_machine, zero_meta, zero_pool, zero_ref,
  label_hyper_ip_pool, label_hyper_machine_pool_valid, label_cluster_name,
}
use cluster_api_provider_hyp.Scope.{MachineScope}
use cluster_api_provider_hyp.Utils.{Remote}
use cluster_api_provider_hyp.Tests.Ips.{ip_store}
use cluster_api_provider_hyp.Tests.Memory.{Memory, pool_store}

abbrev machine_store : Store Memory HyperMachine
machine_store = record {
  get = λ w k. value w.machine;
  list = λ w sel. value [];
  patch = λ w old new. (value new, record w { machine = new });
  new_helper = λ w p. none;
  persist = λ w old new. (none, record w { machine = new });
}

abbrev cluster_store : Store Memory HyperCluster
cluster_store = record {
  get = λ w k. value w.cluster;
  list = λ w sel. value [];
  patch = λ w old new. (value new, record w { cluster = new });
  new_helper = λ w p. none;
  persist = λ w old new. (none, record w { cluster = new });
}

unfoldable pub contains_text : List Bytes → Bytes → Bool
contains_text [] f = false
contains_text (g ∷ l) f = elim (g == f) [ true ↦ true | false ↦ contains_text l f ]

unfoldable pub without_text : List Bytes → Bytes → List Bytes
without_text [] f = []
without_text (g ∷ l) f = let rest = without_text l f in if g == f then rest else g ∷ rest

abbrev pub finalizer_ops : FinalizerOps
finalizer_ops = record {
  contains_finalizer = contains_text;
  add_finalizer = λ l f. if contains_text l f then l else l ++ (f ∷ []);
  remove_finalizer = without_text;
}

abbrev pub owner_cluster : Cluster
owner_cluster = record {
  meta = record zero_meta { name = codes "c1"; namespace = codes "ns" };
  infrastructure_ref = some zero_ref;
}

abbrev pub owner_machine : Machine
owner_machine = record {
  meta = zero_meta;
  infrastructure_ref = zero_ref;
  data_secret_name = some (codes "secret");
  version = some (codes "v1.17.3");
  phase = codes "Provisioning";
}

abbrev pub client : Client Memory
client = record {
  finalizer_ops = finalizer_ops;
  pools = pool_store;
  ip_pools = ip_store;
  hyper_machines = machine_store;
  hyper_clusters = cluster_store;
  get_owner_machine = λ w m. value (some owner_machine);
  get_owner_cluster = λ w m. value (some owner_cluster);
  get_cluster_from_metadata = λ w m. value owner_cluster;
  get_secret = λ w k. value (("value", codes "runcmd:") ∷ []);
}

abbrev pub remote : Remote Memory (Unit {0}) (Unit {0})
remote = record {
  dial = λ w addr user pw.
      (if addr == codes "down" then fault (failure (codes "refused")) else value tt, w);
  new_session = λ w c. (value tt, w);
  request_pty = λ w s. (none, w);
  output = λ w s cmd. (
    ([], if cmd == codes "false" then some (failure (codes "exit 1")) else none),
    record w { sent = w.sent ++ (cmd ∷ []) },
  );
  shell = λ w s input. (none, record w { sent = w.sent ++ (input ∷ []) });
  wait = λ w s. ((codes "done", none), w);
  close_session = λ w s. w;
  close = λ w c. w;
  open_file = λ w name. value [];
  range_order = λ w m. m;
}

abbrev pub free_info : SshInfo
free_info = record { address = codes "10.0.0.1:22"; ssh_id = codes "root"; ssh_pw = codes "pw" }

abbrev pub free_labels : Labels
free_labels = (label_hyper_machine_pool_valid, codes "true") ∷ (label_cluster_name, []) ∷ []

-- An entry of the pool that is free, with an address.
abbrev pub free_pool : Bytes → HyperMachinePool
free_pool name = record zero_pool {
  meta = record zero_meta { name = name; namespace = codes "ns"; labels = some free_labels };
  spec = record { ssh = some free_info };
}

abbrev pub memory : Memory
memory = record {
  pool_a = free_pool (codes "a");
  pool_b = free_pool (codes "b");
  ip = record {
    meta = record zero_meta {
      name = codes "ip";
      namespace = codes "ns";
      labels = some ((label_hyper_ip_pool, []) ∷ []);
    };
    spec = record { ip = codes "10.0.0.9" };
  };
  machine = record zero_machine {
    spec = record { provider_id = some []; hyper_machine_pool_ref = zero_ref };
  };
  cluster = record {
    meta = zero_meta;
    spec = record { control_plane_endpoint = record { host = []; port = 0 } };
    status = record { ready = false };
  };
  sent = [];
}

abbrev pub machine_scope : MachineScope Memory
machine_scope = record {
  client = client;
  cluster = owner_cluster;
  machine = owner_machine;
  hyper_cluster = memory.cluster;
  helper = memory.machine;
}
