-- ===== src/MachineController/Acquire.antt =====
-- `getHyperMachinePool` and `adoptOrphan`.
pub mod Free
pub mod Exclusive
use cluster_api_provider_hyp.Base.{
  codes, List, [], ◌∷◌, Option, none, some, M, pure, call, must, read, proceed, with_defer,
  with_object, ◌>>=◌, ◌>>◌, Scoped,
}
use cluster_api_provider_hyp.Api.{
  Client, Fault, value, fault, Labels, HyperMachine, HyperMachinePool, ObjectReference, value_or,
  set_label?, pool_with_labels, label_hyper_machine_pool_valid, label_cluster_role_master,
  label_cluster_name,
}
use cluster_api_provider_hyp.Scope.{MachineScope}

-- The first selector, for control-plane entries, and the second.
abbrev pub free_master_selector : Labels
free_master_selector =
    (label_hyper_machine_pool_valid, codes "true")
    ∷ (label_cluster_role_master, [])
    ∷ (label_cluster_name, [])
    ∷ []

abbrev pub free_selector : Labels
free_selector = (label_hyper_machine_pool_valid, codes "true") ∷ (label_cluster_name, []) ∷ []

abbrev pub reference_to : HyperMachinePool → ObjectReference
reference_to hmp = record {
  api_version = hmp.meta.api_version;
  kind = hmp.meta.kind;
  name = hmp.meta.name;
  namespace = hmp.meta.namespace;
  uid = hmp.meta.uid;
}

abbrev pub refer_to : HyperMachinePool → HyperMachine → HyperMachine
refer_to hmp hm = record hm {
  spec = record (hm.spec) { hyper_machine_pool_ref = reference_to hmp };
}

module _ {World : Type 0} (client : Client World) where
  -- The two lists, whose errors are dropped: a list that fails leaves the variable as it was.
  unfoldable pub choose_pool : World → Option HyperMachinePool
  choose_pool w =
      let masters = value_or (client.pools.list w free_master_selector) [] in
      elim masters [
        | hmp ∷ _ ↦ some hmp
        | [] ↦ elim (value_or (client.pools.list w free_selector) []) [
          | hmp ∷ _ ↦ some hmp
          | [] ↦ none
        ]
      ]

module _ {World : Type 0} (scope : MachineScope World) where
  unfoldable pub adopt_orphan :
      Option HyperMachinePool → M (Scoped World HyperMachine) (Option Fault)
  adopt_orphan none = pure none
  adopt_orphan (some hmp) = do
    with_object (refer_to hmp)
    labels ← must (set_label? label_cluster_name scope.cluster.meta.name hmp.meta.labels)
    call λ s.
        let (result, w) = scope.client.pools.patch s.world hmp (pool_with_labels hmp labels) in
        (elim result [ value _ ↦ none | fault e ↦ some e ], record s { world = w })

  -- `adoptOrphan` is deferred, so it sees the entry that was chosen; its error is dropped.
  unfoldable pub get_hyper_machine_pool : M (Scoped World HyperMachine) (Option HyperMachinePool)
  unfolding choose_pool adopt_orphan
  get_hyper_machine_pool = do
    hmp ← read λ s. choose_pool scope.client s.world
    with_defer (adopt_orphan hmp >>= λ _. pure tt) (pure hmp)
