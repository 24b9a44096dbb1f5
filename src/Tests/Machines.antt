-- ===== src/Tests/Machines.antt =====
-- The machine controller.
use cluster_api_provider_hyp.Base.{codes, ◌==◌, ◌≡◌, ◌≢◌, refl, some, done, Scoped}
use cluster_api_provider_hyp.Api.{
  HyperMachine, HyperMachinePool, lookup, insert, matches, value_eq, value, stored_label,
  label_cluster_name,
}
use cluster_api_provider_hyp.MachineController.Acquire.{choose_pool, get_hyper_machine_pool}
use cluster_api_provider_hyp.MachineController.Acquire.Exclusive.{
  adopted, get_hyper_machine_pool-IsExclusive,
}
use cluster_api_provider_hyp.Tests.Memory.{
  Memory, key_a, key_b, stored_pool, pool_store-IsConsistent, same_labels,
}
use cluster_api_provider_hyp.Tests.System.{client, memory, free_pool, machine_scope, free_labels}

chooses_a : choose_pool client memory ≡ some (free_pool (codes "a"))
unfolding choose_pool codes ◌==◌ matches value_eq lookup
chooses_a = refl

abbrev start : Scoped Memory HyperMachine
start = record { world = memory; object = memory.machine }

accepted :
    client.pools.patch memory
      (free_pool (codes "a"))
      (adopted machine_scope (free_pool (codes "a")) free_labels)
    ≡ (
      value (adopted machine_scope (free_pool (codes "a")) free_labels),
      record memory { pool_a = adopted machine_scope (free_pool (codes "a")) free_labels },
    )
unfolding codes ◌==◌ same_labels lookup insert
accepted = refl

chooses_b :
    choose_pool client (get_hyper_machine_pool machine_scope start).1.world
    ≡ some (free_pool (codes "b"))
unfolding get_hyper_machine_pool choose_pool codes ◌==◌ matches value_eq lookup insert same_labels
chooses_b = refl

get_hyper_machine_pool-IsExclusive_example :
    ((get_hyper_machine_pool machine_scope start).0 ≡ done (some (free_pool (codes "a"))))
    × (stored_label
          (λ (x : HyperMachinePool). x.meta)
          (stored_pool (get_hyper_machine_pool machine_scope start).1.world key_a)
          label_cluster_name
        ≡ some (codes "c1"))
    × (key_b ≢ key_a)
get_hyper_machine_pool-IsExclusive_example =
    get_hyper_machine_pool-IsExclusive machine_scope stored_pool pool_store-IsConsistent start
      chooses_a refl (unfold codes in cc) accepted chooses_b
