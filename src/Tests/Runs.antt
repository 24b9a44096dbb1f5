-- ===== src/Tests/Runs.antt =====
-- The provisioning of a worker and of a control-plane machine.
use cluster_api_provider_hyp.Base.{
  Bytes, codes, ◌==◌, ◌≡◌, refl, true, false, [], ◌∷◌, ◌++◌, some, done, has_prefix, strip_prefix?,
  drop?, ◌>>=◌,
}
use cluster_api_provider_hyp.Base.Decimal.{pos, itoa, atoi, hundred_minus, increment}
use cluster_api_provider_hyp.Api.{
  HyperMachinePool, value, label_hyper_ip_pool, label_hyper_ip_pool_name, ip_pool_with_labels,
  lookup, insert,
}
use cluster_api_provider_hyp.Scope.{MachineScope}
use cluster_api_provider_hyp.Utils.CloudInit.{parsed, from_bytes, new_cloud_config}
use cluster_api_provider_hyp.Utils.Ssh.{ssh_connect}
use cluster_api_provider_hyp.Utils.Priority.{hip_num2_pri}
use cluster_api_provider_hyp.Utils.Provisioning.{centos, provision, keepalived_map}
use cluster_api_provider_hyp.Utils.Provisioning.Plan.{script_steps, node_steps, run_steps, go_on}
use cluster_api_provider_hyp.Utils.Provisioning.Refined.{
  closing, provision-worker, provision-master,
}
use cluster_api_provider_hyp.Tests.Memory.{Memory, same_labels}
use cluster_api_provider_hyp.Tests.Ips.{stored_ip}
use cluster_api_provider_hyp.Tests.System.{
  client, remote, memory, free_pool, free_info, machine_scope, owner_cluster,
}

abbrev pool : HyperMachinePool
pool = free_pool (codes "a")

abbrev text : Bytes
text = codes "runcmd:"

no_files : from_bytes text ≡ parsed new_cloud_config
unfolding from_bytes codes has_prefix strip_prefix?
no_files = refl

connected :
    ssh_connect remote free_info.address free_info.ssh_id free_info.ssh_pw memory
    ≡ (done (value tt), memory)
unfolding ssh_connect codes ◌==◌
connected = refl

version_number : drop? 1 (codes "v1.17.3") ≡ some (codes "1.17.3")
unfolding codes drop?
version_number = refl

provision-worker_example :
    provision remote machine_scope centos pool text false memory
    ≡ (run_steps remote tt
            (node_steps centos (codes "1.17.3") pool.status.host_name new_cloud_config)
          >>= go_on remote (closing remote tt))
        memory
provision-worker_example =
    provision-worker remote machine_scope centos pool text memory memory tt no_files refl connected
      refl version_number

-- The first control-plane machine of a cluster that holds the IP.
abbrev counted_memory : Memory
counted_memory = record memory {
  ip = ip_pool_with_labels memory.ip ((label_hyper_ip_pool, itoa (pos 0)) ∷ []);
}

abbrev next_memory : Memory
next_memory =
    (client.ip_pools.patch counted_memory counted_memory.ip
      (ip_pool_with_labels counted_memory.ip ((label_hyper_ip_pool, itoa (pos 1)) ∷ []))).1

abbrev master_scope : MachineScope Memory
master_scope = record machine_scope {
  hyper_cluster = record (memory.cluster) {
    meta = record (memory.cluster.meta) {
      labels = some ((label_hyper_ip_pool_name, codes "ip") ∷ []);
    };
  };
}

first_priority :
    hip_num2_pri client owner_cluster master_scope.hyper_cluster counted_memory
    ≡ (done (codes "100"), next_memory)
unfolding hip_num2_pri codes ◌==◌ lookup insert itoa atoi same_labels stored_ip hundred_minus
    increment
first_priority = refl

master_connected :
    ssh_connect remote free_info.address free_info.ssh_id free_info.ssh_pw counted_memory
    ≡ (done (value tt), counted_memory)
unfolding ssh_connect codes ◌==◌
master_connected = refl

provision-master_example :
    provision remote master_scope centos pool text true counted_memory
    ≡ (run_steps remote tt (
            script_steps centos
              (codes "keepalived.sh")
              (keepalived_map remote master_scope pool (codes "100"))
            ++ node_steps centos (codes "1.17.3") pool.status.host_name new_cloud_config)
          >>= go_on remote (closing remote tt))
        next_memory
provision-master_example =
    provision-master remote master_scope centos pool text (codes "100") counted_memory
      counted_memory next_memory tt no_files refl master_connected first_priority refl
      version_number
