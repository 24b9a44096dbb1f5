-- ===== src/Tests/Outcomes.antt =====
-- Provisioning runs of the machine controller.
use cluster_api_provider_hyp.Base.{
  codes, ◌==◌, ◌++◌, ◌≡◌, ◌≢◌, refl, true, [], ◌∷◌, none, some, done, Scoped, has_prefix,
  strip_prefix?, drop?,
}
use cluster_api_provider_hyp.Base.Split.{before}
use cluster_api_provider_hyp.Api.{
  HyperMachine, HyperMachinePool, lookup, insert, matches, value_eq, key_of, value, fault, failure,
  stored_label, label_cluster_name,
}
use cluster_api_provider_hyp.Utils.CloudInit.{from_bytes}
use cluster_api_provider_hyp.Utils.Ssh.{ssh_connect, send_commands, send, close, scp_file}
use cluster_api_provider_hyp.Utils.Provisioning.{
  centos_provisioning, run_script, write_files, run_commands,
}
use cluster_api_provider_hyp.Scope.{MachineScope, get_bootstrap_data}
use cluster_api_provider_hyp.MachineController.Acquire.{choose_pool, refer_to, reference_to}
use cluster_api_provider_hyp.MachineController.Acquire.Exclusive.{adopted}
use cluster_api_provider_hyp.MachineController.Handler.{
  is_settled, is_master, do_provisioning, provision_machine,
}
use cluster_api_provider_hyp.MachineController.Handler.Outcomes.{
  after_adoption, provisioned, provision_machine-IsReady, provision_machine-IsLost,
  provision_machine-unknown_os,
}
use cluster_api_provider_hyp.Tests.Memory.{
  Memory, stored_pool, pool_store-IsConsistent, same_labels,
}
use cluster_api_provider_hyp.Tests.System.{
  client, remote, memory, free_pool, machine_scope, free_info, free_labels,
}

abbrev start : Scoped Memory HyperMachine
start = record { world = memory; object = memory.machine }

abbrev pool_a : HyperMachinePool
pool_a = free_pool (codes "a")

chosen : choose_pool client memory ≡ some pool_a
unfolding choose_pool codes ◌==◌ matches value_eq lookup
chosen = refl

bootstrap_text :
    get_bootstrap_data machine_scope
      (after_adoption remote machine_scope start pool_a free_labels).object
      (after_adoption remote machine_scope start pool_a free_labels).world
    ≡ value (codes "runcmd:")
unfolding get_bootstrap_data codes ◌==◌ lookup
bootstrap_text = refl

provision_machine-unknown_os_example :
    (provision_machine remote machine_scope start ≡ (
      done none,
      record {
        world = (after_adoption remote machine_scope start pool_a free_labels).world;
        object = provisioned remote machine_scope pool_a free_info memory.machine;
      },
    ))
    × (is_settled (provisioned remote machine_scope pool_a free_info memory.machine) ≡ some true)
provision_machine-unknown_os_example =
    provision_machine-unknown_os remote machine_scope start (codes "runcmd:") free_labels chosen
      refl refl bootstrap_text (unfold codes in λ e. cc e) (unfold codes in λ e. cc e)

-- A centos entry, which is provisioned.
abbrev centos_pool : HyperMachinePool
centos_pool = record pool_a {
  status = record (pool_a.status) { os = codes "centos"; host_name = codes "node1" };
}

abbrev centos_start : Scoped Memory HyperMachine
centos_start = record { world = record memory { pool_a = centos_pool }; object = memory.machine }

centos_chosen : choose_pool client centos_start.world ≡ some centos_pool
unfolding choose_pool codes ◌==◌ matches value_eq lookup
centos_chosen = refl

centos_text :
    get_bootstrap_data machine_scope
      (after_adoption remote machine_scope centos_start centos_pool free_labels).object
      (after_adoption remote machine_scope centos_start centos_pool free_labels).world
    ≡ value (codes "runcmd:")
unfolding get_bootstrap_data codes ◌==◌ lookup
centos_text = refl

abbrev centos_world : Memory
centos_world =
    (do_provisioning remote machine_scope centos_pool (codes "runcmd:")
      (is_master machine_scope.machine)
      (after_adoption remote machine_scope centos_start centos_pool free_labels).world).1

centos_ran :
    do_provisioning remote machine_scope centos_pool
      (codes "runcmd:")
      (is_master machine_scope.machine)
      (after_adoption remote machine_scope centos_start centos_pool free_labels).world
    ≡ (done none, centos_world)
unfolding do_provisioning codes ◌==◌ is_master lookup matches value_eq centos_provisioning
    from_bytes has_prefix strip_prefix? ssh_connect run_script send send_commands scp_file drop?
    write_files run_commands close
centos_ran = refl

-- A machine whose bootstrap data is not there yet.
abbrev waiting_scope : MachineScope Memory
waiting_scope = record machine_scope {
  machine = record (machine_scope.machine) { data_secret_name = none };
}

abbrev lost : Memory
lost = record memory { pool_a = adopted waiting_scope pool_a free_labels }

lost_accepted :
    client.pools.patch memory pool_a (adopted waiting_scope pool_a free_labels)
    ≡ (value (adopted waiting_scope pool_a free_labels), lost)
unfolding codes ◌==◌ same_labels lookup insert
lost_accepted = refl

next_chosen : choose_pool client lost ≡ some (free_pool (codes "b"))
unfolding choose_pool codes ◌==◌ matches value_eq lookup insert
next_chosen = refl

no_text :
    get_bootstrap_data waiting_scope (refer_to pool_a memory.machine) lost
    ≡ fault (
        failure (
          codes
            "error retrieving bootstrap data: linked Machine's bootstrap.dataSecretName is nil"))
unfolding get_bootstrap_data
no_text = refl

provision_machine-IsLost_example :
    (provision_machine remote waiting_scope start
      ≡ (done none, record { world = lost; object = refer_to pool_a memory.machine }))
    × (is_settled (refer_to pool_a memory.machine) ≡ is_settled memory.machine)
    × (stored_label
          (λ (x : HyperMachinePool). x.meta)
          (stored_pool lost (key_of pool_a.meta))
          label_cluster_name
        ≡ some (codes "c1"))
    × (key_of (free_pool (codes "b")).meta ≢ key_of pool_a.meta)
provision_machine-IsLost_example =
    provision_machine-IsLost remote waiting_scope stored_pool pool_store-IsConsistent start
      free_labels chosen refl (unfold codes in λ e. cc e) lost_accepted no_text next_chosen

provision_machine-IsReady_example :
    let hm = provisioned remote machine_scope centos_pool free_info memory.machine in
    (provision_machine remote machine_scope centos_start
      ≡ (done none, record { world = centos_world; object = hm }))
    × (hm.status.ready ≡ true)
    × (hm.spec.provider_id ≡ some (codes "hyper:///" ++ codes "node1"))
    × (hm.status.addresses
        ≡ record {
          address_type = codes "InternalIP";
          address = before (codes "10.0.0.1:22") (codes ":");
        }
          ∷ [])
    × (hm.spec.hyper_machine_pool_ref ≡ reference_to centos_pool)
    × (is_settled hm ≡ some true)
provision_machine-IsReady_example =
    provision_machine-IsReady remote machine_scope centos_start centos_world (codes "runcmd:")
      free_labels centos_chosen refl refl centos_text centos_ran
