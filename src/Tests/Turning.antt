-- ===== src/Tests/Turning.antt =====
-- An entry that one cluster gives back and another one takes.
use cluster_api_provider_hyp.Base.{
  codes, ◌==◌, ◌≡◌, refl, [], ◌∷◌, some, Bool-cases, inl, inr, ◌&&◌,
}
use cluster_api_provider_hyp.Api.{
  HyperMachine, HyperMachinePool, Key, IsApart, lookup, insert, matches, value_eq, pool_with_labels,
  hyper_machine_finalizer, label_hyper_machine_pool_valid, label_cluster_name, key_of, HyperIpPool,
}
use cluster_api_provider_hyp.Ownership.{cluster_label}
use cluster_api_provider_hyp.MachineController.Acquire.{refer_to, get_hyper_machine_pool}
use cluster_api_provider_hyp.MachineController.Handler.{
  reconcile, reconcile_machine_normal, provision_machine, do_provisioning, mark_provisioned,
}
use cluster_api_provider_hyp.Turns.{Turns, Turn, machine, elsewhere, start, next}
use cluster_api_provider_hyp.Turns.Handover.{Turns-IsFreed, Turn-Change}
use cluster_api_provider_hyp.Turns.Change.{Change}
use cluster_api_provider_hyp.Tests.Memory.{
  Memory, key_a, stored_pool, pool_store-IsConsistent, pool_store-IsMerging, same_labels, key_eq,
  same_label_map,
}
use cluster_api_provider_hyp.Tests.System.{client, remote, memory, free_pool, contains_text}
use cluster_api_provider_hyp.Tests.Owners.{silent}
use cluster_api_provider_hyp.Scope.MachineDefs.{
  new_machine_scope, close_machine_scope, get_bootstrap_data,
}
use cluster_api_provider_hyp.MachineController.Release.{
  reconcile_machine_delete, do_clean_hyper_machine_pool, released_labels,
}
use cluster_api_provider_hyp.Utils.Ssh.{ssh_connect, send, send_commands, close}
use cluster_api_provider_hyp.Base.Split.{split}
use cluster_api_provider_hyp.Tests.Ips.{patch_ip, key_ip}

ip_beside :
    (w : Memory) (old new : HyperIpPool) → stored_pool (patch_ip w old new).1 ≡ stored_pool w
unfolding stored_pool
ip_beside w old new =
    elim (Bool-cases
      (key_eq (key_of new.meta) key_ip && same_label_map old.meta.labels w.ip.meta.labels)) [
        | inl e ↦ rw e refl
        | inr e ↦ rw e refl
      ]

pub apart : IsApart client stored_pool
unfolding stored_pool
apart = record {
  ip_patch = λ w old new. ip_beside w old new;
  ip_persist = λ w old new. refl;
  machine_persist = λ w old new. refl;
  cluster_persist = λ w old new. refl;
}

abbrev used : HyperMachinePool
used =
    pool_with_labels (free_pool (codes "a"))
      ((label_hyper_machine_pool_valid, codes "true") ∷ (label_cluster_name, codes "c") ∷ [])

-- A machine that waits, with the finalizer.
abbrev waiting : HyperMachine
waiting = record (memory.machine) {
  meta = record (memory.machine.meta) { finalizers = hyper_machine_finalizer ∷ [] };
}

-- The machine that uses the entry, which is deleted.
abbrev deleted : HyperMachine
deleted =
    refer_to used (record waiting { meta = record (waiting.meta) { deletion_timestamp = some 1 } })

abbrev key : Key
key = record { namespace = codes "ns"; name = codes "m" }

abbrev before : Memory
before = record memory { pool_a = used; machine = deleted }

abbrev given_back : Memory
given_back = (reconcile remote client key before).1

abbrev asked : Memory
asked = record given_back { machine = waiting }

abbrev taken : Memory
taken = (reconcile remote client key asked).1

new_request : Turn remote client stored_pool given_back asked
unfolding stored_pool
new_request = elsewhere (λ k. refl)

history : Turns remote client stored_pool before taken
history = next (next (next start (machine key refl)) new_request) (machine key refl)

first_name : cluster_label stored_pool before key_a ≡ some (codes "c")
unfolding stored_pool codes ◌==◌ lookup
first_name = refl

last_name : cluster_label stored_pool taken key_a ≡ some (codes "c1")
unfolding stored_pool codes ◌==◌ lookup reconcile new_machine_scope contains_text
    hyper_machine_finalizer reconcile_machine_normal provision_machine get_hyper_machine_pool
    matches value_eq reconcile_machine_delete do_clean_hyper_machine_pool ssh_connect send
    send_commands close released_labels insert same_labels split do_provisioning mark_provisioned
    close_machine_scope get_bootstrap_data
last_name = refl

Turns-IsFreed_example :
    (u : Memory) × Turns remote client stored_pool before u
    × Turns remote client stored_pool u taken
    × (cluster_label stored_pool u key_a ≡ some [])
Turns-IsFreed_example =
    Turns-IsFreed remote client stored_pool pool_store-IsConsistent silent apart
      pool_store-IsMerging before taken key_a (codes "c") (codes "c1") history first_name last_name
      (unfold codes in λ e. cc e) (unfold codes in λ e. cc e)

Turn-Change_example :
    Change (cluster_label stored_pool before key_a) (cluster_label stored_pool given_back key_a)
Turn-Change_example =
    Turn-Change remote client stored_pool pool_store-IsConsistent silent apart pool_store-IsMerging
      before given_back key_a (machine key refl)
