-- ===== src/Tests/Owners.antt =====
-- Two machines that take entries, one of which gives its entry back.
use cluster_api_provider_hyp.Base.{codes, ◌==◌, ◌≡◌, refl, [], ◌∷◌, some, done}
use cluster_api_provider_hyp.Base.Distinct.{here, later}
use cluster_api_provider_hyp.Api.{
  HyperMachine, HyperMachinePool, lookup, insert, matches, value_eq, value, key_of,
}
use cluster_api_provider_hyp.MachineController.Acquire.{
  choose_pool, get_hyper_machine_pool, refer_to,
}
use cluster_api_provider_hyp.MachineController.Acquire.Exclusive.{adopted}
use cluster_api_provider_hyp.MachineController.Release.{do_clean_hyper_machine_pool}
use cluster_api_provider_hyp.Utils.Ssh.Silent.{IsSilent}
use cluster_api_provider_hyp.Ownership.{
  System, Holding, acquires, releases, Reach, start, next, IsOwned,
}
use cluster_api_provider_hyp.Ownership.Exclusive.{Reach-IsOwned}
use cluster_api_provider_hyp.Tests.Memory.{
  Memory, key_a, key_b, stored_pool, pool_store-IsConsistent, same_labels,
}
use cluster_api_provider_hyp.Tests.System.{
  client, remote, memory, free_pool, free_labels, machine_scope,
}

pub silent : IsSilent remote stored_pool
unfolding stored_pool
silent = record {
  dial = λ w addr user pw. refl;
  new_session = λ w c. refl;
  request_pty = λ w s. refl;
  output = λ w s cmd. refl;
  close_session = λ w s. refl;
  close = λ w c. refl;
}

abbrev pool : HyperMachinePool
pool = free_pool (codes "a")

abbrev second_pool : HyperMachinePool
second_pool = free_pool (codes "b")

abbrev second_machine : HyperMachine
second_machine = record (memory.machine) {
  meta = record (memory.machine.meta) { name = codes "n" };
}

abbrev held_a : Holding
held_a = record { machine = key_of (memory.machine.meta); entry = key_a }

abbrev held_b : Holding
held_b = record { machine = key_of (second_machine.meta); entry = key_b }

abbrev initial : System Memory
initial = record { world = memory; held = [] }

abbrev first_taken : System Memory
first_taken = record {
  world = record memory { pool_a = adopted machine_scope pool free_labels };
  held = held_a ∷ [];
}

abbrev both_taken : System Memory
both_taken = record {
  world = record (first_taken.world) { pool_b = adopted machine_scope second_pool free_labels };
  held = held_b ∷ held_a ∷ [];
}

initial-IsOwned : IsOwned stored_pool initial
initial-IsOwned = record { distinct = tt; taken = tt }

first_run :
    get_hyper_machine_pool machine_scope (record { world = memory; object = memory.machine }) ≡ (
      done (some pool),
      record { world = first_taken.world; object = refer_to pool memory.machine },
    )
unfolding get_hyper_machine_pool choose_pool codes ◌==◌ matches value_eq lookup insert same_labels
first_run = refl

first_accepted :
    client.pools.patch memory pool (adopted machine_scope pool free_labels)
    ≡ (value (adopted machine_scope pool free_labels), first_taken.world)
unfolding codes ◌==◌ same_labels lookup insert
first_accepted = refl

second_run :
    get_hyper_machine_pool machine_scope
      (record { world = first_taken.world; object = second_machine })
    ≡ (
      done (some second_pool),
      record { world = both_taken.world; object = refer_to second_pool second_machine },
    )
unfolding get_hyper_machine_pool choose_pool codes ◌==◌ matches value_eq lookup insert same_labels
second_run = refl

second_accepted :
    client.pools.patch first_taken.world second_pool (adopted machine_scope second_pool free_labels)
    ≡ (value (adopted machine_scope second_pool free_labels), both_taken.world)
unfolding codes ◌==◌ same_labels lookup insert
second_accepted = refl

abbrev first_user : HyperMachine
first_user = refer_to pool memory.machine

abbrev one_released : System Memory
one_released = record {
  world = (do_clean_hyper_machine_pool remote client first_user both_taken.world).1;
  held = held_b ∷ [];
}

history : Reach remote client stored_pool initial one_released
history =
    next
      (next
        (next start (
          acquires machine_scope memory.machine (refer_to pool memory.machine) pool
            (adopted machine_scope pool free_labels) free_labels refl (unfold codes in λ e. cc e)
            first_run refl first_accepted refl))
        (acquires machine_scope second_machine (refer_to second_pool second_machine) second_pool
          (adopted machine_scope second_pool free_labels) free_labels refl
          (unfold codes in λ e. cc e) second_run refl second_accepted refl))
      (releases first_user refl (later held_b (here [])))

Reach-IsOwned_example : IsOwned stored_pool one_released
Reach-IsOwned_example =
    Reach-IsOwned remote client stored_pool pool_store-IsConsistent silent initial one_released
      history initial-IsOwned
