-- ===== src/Tests/Refusals.antt =====
-- A server that refuses every patch of an entry, and an entry at an address that is down.
use cluster_api_provider_hyp.Base.{
  codes, ◌==◌, ◌≡◌, refl, true, none, some, done, Scoped, has_prefix, strip_prefix?, drop?,
}
use cluster_api_provider_hyp.Api.{
  HyperMachine, HyperMachinePool, Store, lookup, matches, value_eq, key_of, value, fault, failure,
  IsConsistent,
}
use cluster_api_provider_hyp.Utils.CloudInit.{from_bytes}
use cluster_api_provider_hyp.Utils.Ssh.{ssh_connect, send_commands, send, close, scp_file}
use cluster_api_provider_hyp.Utils.Provisioning.{
  centos_provisioning, run_script, write_files, run_commands,
}
use cluster_api_provider_hyp.Scope.{MachineScope, get_bootstrap_data}
use cluster_api_provider_hyp.MachineController.Acquire.{choose_pool, refer_to}
use cluster_api_provider_hyp.MachineController.Acquire.Free.{IsFree}
use cluster_api_provider_hyp.MachineController.Handler.{
  is_master, do_provisioning, provision_machine,
}
use cluster_api_provider_hyp.MachineController.Handler.Outcomes.{after_adoption, provisioned}
use cluster_api_provider_hyp.MachineController.Handler.Unowned.{provision_machine-IsUnowned}
use cluster_api_provider_hyp.MachineController.Release.{
  remove_machine_finalizer, reconcile_machine_delete,
}
use cluster_api_provider_hyp.MachineController.Release.Freed.{ref_key}
use cluster_api_provider_hyp.MachineController.Release.Leaked.{reconcile_machine_delete-IsLeaked}
use cluster_api_provider_hyp.Tests.Memory.{Memory, stored_pool, pool_store, pool_store-IsConsistent}
use cluster_api_provider_hyp.Tests.System.{
  client, remote, memory, free_pool, machine_scope, free_info, free_labels,
}
use cluster_api_provider_hyp.Tests.Owners.{silent}
use cluster_api_provider_hyp.Tests.Turning.{apart}

abbrev refusing_store : Store Memory HyperMachinePool
refusing_store = record pool_store { patch = λ w old new. (fault (failure (codes "conflict")), w) }

refusing_store-IsConsistent :
    IsConsistent (λ (p : HyperMachinePool). p.meta) refusing_store stored_pool
refusing_store-IsConsistent = record {
  get_stored = pool_store-IsConsistent.get_stored;
  get_sound = pool_store-IsConsistent.get_sound;
  stored_key = pool_store-IsConsistent.stored_key;
  list_sound = pool_store-IsConsistent.list_sound;
  list_complete = pool_store-IsConsistent.list_complete;
  patch_labels = λ w old new e l. absurd (cc e);
  patch_other = λ w old new e k other. absurd (cc e);
  patch_refused = λ w old new e k. cc e;
}

-- A centos entry, and a machine whose adoption of it is refused.
abbrev refused_scope : MachineScope Memory
refused_scope = record machine_scope { client = record client { pools = refusing_store } }

abbrev centos_pool : HyperMachinePool
centos_pool = record (free_pool (codes "a")) {
  status = record ((free_pool (codes "a")).status) {
    os = codes "centos";
    host_name = codes "node1";
  };
}

abbrev start : Scoped Memory HyperMachine
start = record { world = record memory { pool_a = centos_pool }; object = memory.machine }

chosen : choose_pool refused_scope.client start.world ≡ some centos_pool
unfolding choose_pool codes ◌==◌ matches value_eq lookup
chosen = refl

text :
    get_bootstrap_data refused_scope
      (after_adoption remote refused_scope start centos_pool free_labels).object
      (after_adoption remote refused_scope start centos_pool free_labels).world
    ≡ value (codes "runcmd:")
unfolding get_bootstrap_data codes ◌==◌ lookup
text = refl

abbrev after : Memory
after =
    (do_provisioning remote refused_scope centos_pool (codes "runcmd:")
      (is_master refused_scope.machine)
      (after_adoption remote refused_scope start centos_pool free_labels).world).1

ran :
    do_provisioning remote refused_scope centos_pool
      (codes "runcmd:")
      (is_master refused_scope.machine)
      (after_adoption remote refused_scope start centos_pool free_labels).world
    ≡ (done none, after)
unfolding do_provisioning codes ◌==◌ is_master lookup matches value_eq centos_provisioning
    from_bytes has_prefix strip_prefix? ssh_connect run_script send send_commands scp_file drop?
    write_files run_commands close
ran = refl

kept :
    stored_pool after (key_of centos_pool.meta) ≡ stored_pool start.world (key_of centos_pool.meta)
unfolding do_provisioning codes ◌==◌ is_master lookup matches value_eq centos_provisioning
    from_bytes has_prefix strip_prefix? ssh_connect run_script send send_commands scp_file drop?
    write_files run_commands close stored_pool
kept = refl

provision_machine-IsUnowned_example :
    let hm = provisioned remote refused_scope centos_pool free_info memory.machine in
    (provision_machine remote refused_scope start
      ≡ (done none, record { world = after; object = hm }))
    × (hm.status.ready ≡ true)
    × (stored_pool after (key_of centos_pool.meta) ≡ some centos_pool)
    × IsFree centos_pool
provision_machine-IsUnowned_example =
    provision_machine-IsUnowned remote refused_scope stored_pool refusing_store-IsConsistent start
      after (codes "runcmd:") free_labels chosen refl refl refl text ran kept

-- A machine that is deleted, whose entry is at an address that is down.
abbrev down_pool : HyperMachinePool
down_pool = record (free_pool (codes "a")) {
  spec = record { ssh = some (record free_info { address = codes "down" }) };
}

abbrev deleted : Scoped Memory HyperMachine
deleted = record {
  world = record memory { pool_a = down_pool };
  object = refer_to down_pool memory.machine;
}

down_stored : stored_pool deleted.world (ref_key deleted.object) ≡ some down_pool
unfolding stored_pool codes ◌==◌
down_stored = refl

not_connected :
    ssh_connect remote (codes "down") free_info.ssh_id free_info.ssh_pw deleted.world
    ≡ (done (fault (failure (codes "refused"))), deleted.world)
unfolding ssh_connect codes ◌==◌
not_connected = refl

reconcile_machine_delete-IsLeaked_example :
    (reconcile_machine_delete remote client deleted ≡ (
      done none,
      record {
        world =
            (client.hyper_machines.persist deleted.world deleted.object
              (remove_machine_finalizer remote client deleted.object)).1;
        object = remove_machine_finalizer remote client deleted.object;
      },
    ))
    × (stored_pool (reconcile_machine_delete remote client deleted).1.world (ref_key deleted.object)
        ≡ some down_pool)
reconcile_machine_delete-IsLeaked_example =
    reconcile_machine_delete-IsLeaked remote client stored_pool pool_store-IsConsistent silent apart
      deleted deleted.world refl (unfold codes in λ e. cc e) down_stored refl not_connected
