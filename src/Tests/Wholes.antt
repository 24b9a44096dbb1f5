-- ===== src/Tests/Wholes.antt =====
-- A machine from its first provisioning to the next reconcile.
use cluster_api_provider_hyp.Base.{
  codes, ◌==◌, ◌++◌, ◌≡◌, refl, true, false, [], ◌∷◌, none, some, done, Scoped, has_prefix,
  strip_prefix?, drop?,
}
use cluster_api_provider_hyp.Api.{
  HyperMachine, HyperMachinePool, Key, lookup, matches, value_eq, value, hyper_machine_finalizer,
}
use cluster_api_provider_hyp.Utils.CloudInit.{from_bytes}
use cluster_api_provider_hyp.Utils.Ssh.{ssh_connect, send_commands, send, close, scp_file}
use cluster_api_provider_hyp.Utils.Provisioning.{
  centos_provisioning, run_script, write_files, run_commands,
}
use cluster_api_provider_hyp.Scope.{
  MachineScope, get_bootstrap_data, set_address, set_provider_id, set_ready,
}
use cluster_api_provider_hyp.MachineController.Acquire.{choose_pool}
use cluster_api_provider_hyp.MachineController.Handler.{
  is_settled, is_master, do_provisioning, reconcile,
}
use cluster_api_provider_hyp.MachineController.Handler.Outcomes.{after_adoption, provisioned}
use cluster_api_provider_hyp.MachineController.Handler.Whole.{
  IsAnswered, scope_of, reconcile-IsProvisioned,
}
use cluster_api_provider_hyp.Tests.Memory.{Memory}
use cluster_api_provider_hyp.Tests.System.{
  client, remote, memory, free_pool, owner_cluster, owner_machine, free_info, free_labels,
  contains_text,
}

abbrev key : Key
key = record { namespace = codes "ns"; name = codes "m" }

-- A free entry of a centos machine.
abbrev centos_pool : HyperMachinePool
centos_pool = record (free_pool (codes "a")) {
  status = record ((free_pool (codes "a")).status) {
    os = codes "centos";
    host_name = codes "node1";
  };
}

-- A machine that waits, with the finalizer.
abbrev waiting : HyperMachine
waiting = record (memory.machine) {
  meta = record (memory.machine.meta) { finalizers = hyper_machine_finalizer ∷ [] };
}

abbrev before : Memory
before = record memory { pool_a = centos_pool; machine = waiting }

abbrev scope : MachineScope Memory
scope = scope_of remote client waiting owner_machine owner_cluster memory.cluster

abbrev adopted : Scoped Memory HyperMachine
adopted =
    after_adoption remote scope (record { world = before; object = waiting }) centos_pool
      free_labels

abbrev ran : Memory
ran =
    (do_provisioning remote scope centos_pool (codes "runcmd:") (is_master owner_machine)
      adopted.world).1

abbrev ready_machine : HyperMachine
ready_machine = provisioned remote scope centos_pool free_info waiting

abbrev after : Memory
after = (client.hyper_machines.persist ran waiting ready_machine).1

-- What the server answers later: the machine has another resource version.
abbrev seen : HyperMachine
seen = record ready_machine { meta = record (ready_machine.meta) { resource_version = codes "2" } }

abbrev later : Memory
later = record after { machine = seen }

waiting-IsAnswered : IsAnswered client before key waiting owner_machine owner_cluster memory.cluster
waiting-IsAnswered = record {
  infrastructure = _;
  found = refl;
  lives = refl;
  owned = refl;
  clustered = refl;
  referred = refl;
  served = refl;
  helped = refl;
}

later-IsAnswered : IsAnswered client later key seen owner_machine owner_cluster ran.cluster
unfolding set_address set_provider_id set_ready
later-IsAnswered = record {
  infrastructure = _;
  found = refl;
  lives = refl;
  owned = refl;
  clustered = refl;
  referred = refl;
  served = refl;
  helped = refl;
}

has_finalizer :
    client.finalizer_ops.contains_finalizer waiting.meta.finalizers hyper_machine_finalizer ≡ true
unfolding contains_text hyper_machine_finalizer codes ◌==◌
has_finalizer = refl

still_has_finalizer :
    client.finalizer_ops.contains_finalizer seen.meta.finalizers hyper_machine_finalizer ≡ true
unfolding contains_text hyper_machine_finalizer codes ◌==◌ set_address set_provider_id set_ready
still_has_finalizer = refl

unsettled : is_settled waiting ≡ some false
unfolding is_settled ◌==◌
unsettled = refl

chosen : choose_pool client before ≡ some centos_pool
unfolding choose_pool codes ◌==◌ matches value_eq lookup
chosen = refl

text : get_bootstrap_data scope adopted.object adopted.world ≡ value (codes "runcmd:")
unfolding get_bootstrap_data codes ◌==◌ lookup
text = refl

provisioning :
    do_provisioning remote scope centos_pool
      (codes "runcmd:")
      (is_master owner_machine)
      adopted.world
    ≡ (done none, ran)
unfolding do_provisioning codes ◌==◌ is_master lookup matches value_eq centos_provisioning
    from_bytes has_prefix strip_prefix? ssh_connect run_script send send_commands scp_file drop?
    write_files run_commands close
provisioning = refl

reconcile-IsProvisioned_example :
    (reconcile remote client key before ≡ (done none, after))
    × (ready_machine.status.ready ≡ true)
    × (ready_machine.spec.provider_id ≡ some (codes "hyper:///" ++ codes "node1"))
    × (reconcile remote client key later ≡ (done none, later))
reconcile-IsProvisioned_example =
    reconcile-IsProvisioned remote client key before ran later (codes "runcmd:") free_labels
      waiting-IsAnswered has_finalizer unsettled refl chosen refl refl text provisioning
      later-IsAnswered refl still_has_finalizer
