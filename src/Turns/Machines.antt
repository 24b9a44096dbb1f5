-- ===== src/Turns/Machines.antt =====
-- What a whole reconcile of the machine controller does to the cluster labels.
use cluster_api_provider_hyp.Base.{
  Bytes, codes, ◌==◌, Bool, ap, not, ◌||◌, ◌≡◌, refl, ◌∙◌, Option, none, some, must, read, pure,
  on_world, ◌>>=◌, Scoped, Option-cases, inl, inr, get_elem?,
}
use cluster_api_provider_hyp.Base.Split.{split}
use cluster_api_provider_hyp.Base.Tracked.{
  Keeps, >>=-Keeps, pure-Keeps, read-Keeps, must-Keeps, if-Keeps, Moves, Keeps-Moves, >>=-Moves,
  >>=-Moves_first, with_defer-Moves, if-Moves, of_world, on_world-Keeps,
}
use cluster_api_provider_hyp.Api.{
  Result, value, fault, Key, Labels, HyperMachine, HyperMachinePool, IsConsistent, IsApart,
  lookup-insert_self, patch_label, label_cluster_name, hyper_machine_finalizer,
}
use cluster_api_provider_hyp.Scope.{MachineScope, get_bootstrap_data, close_machine_scope}
use cluster_api_provider_hyp.Utils.{Remote}
use cluster_api_provider_hyp.Utils.Provisioning.{
  Report, Distro, centos, ubuntu, centos_provisioning, ubuntu_provisioning,
}
use cluster_api_provider_hyp.Utils.Provisioning.Silent.{provision-Keeps}
use cluster_api_provider_hyp.Utils.Ssh.Silent.{IsSilent}
use cluster_api_provider_hyp.MachineController.Acquire.{
  choose_pool, get_hyper_machine_pool, adopt_orphan,
}
use cluster_api_provider_hyp.MachineController.Acquire.Free.{choose_pool-IsFree}
use cluster_api_provider_hyp.MachineController.Acquire.Exclusive.{
  adopted, get_hyper_machine_pool-some, get_hyper_machine_pool-none,
}
use cluster_api_provider_hyp.MachineController.Handler.{
  is_settled, is_master, do_provisioning, mark_provisioned, conclude, provision_with,
  provision_found, provision_machine, reconcile_machine_normal, reconcile_in_scope,
}
use cluster_api_provider_hyp.Turns.Change.{
  Change, stays, takes, unchanged, label_at, silent_at, apart_at,
}

module _ {World Conn Session : Type 0} (remote : Remote World Conn Session)
    (scope : MachineScope World) (stored : World → Key → Option HyperMachinePool)
    (consistent : IsConsistent (λ (x : HyperMachinePool). x.meta) scope.client.pools stored)
    (silent : IsSilent remote stored) (apart : IsApart scope.client stored) (k : Key) where
  abbrev seen : Scoped World HyperMachine → Option Bytes
  seen = of_world (label_at stored k)

  -- What the adoption does to the label.
  adopted-Change :
      (w : World) (p : HyperMachinePool) (m : Labels)
      → choose_pool scope.client w ≡ some p
      → Change
          (label_at stored k w)
          (label_at stored k (scope.client.pools.patch w p (adopted scope p m)).1)
  adopted-Change w p m chosen =
      let (at_key, (valid, unused)) = choose_pool-IsFree scope.client stored consistent w chosen in
      elim (patch_label (λ (x : HyperMachinePool). x.meta) scope.client.pools stored consistent w p
        (adopted scope p m) label_cluster_name k) [
          | inl e ↦ stays e
          | inr (at_k, differs, e) ↦
              takes scope.cluster.meta.name (rw (at_k, at_key) unused)
                (e ∙ lookup-insert_self label_cluster_name scope.cluster.meta.name m)
        ]

  get_nil_world :
      (s : Scoped World HyperMachine) {p : HyperMachinePool}
      → choose_pool scope.client s.world ≡ some p
      → p.meta.labels ≡ none
      → (get_hyper_machine_pool scope s).1.world ≡ s.world
  unfolding get_hyper_machine_pool adopt_orphan
  get_nil_world s e l = simp (e, l)

  get_hyper_machine_pool-Moves : Moves seen Change (get_hyper_machine_pool scope)
  get_hyper_machine_pool-Moves = record {
    moves = λ s. elim (Option-cases (choose_pool scope.client s.world)) [
      | inl e ↦ rw (get_hyper_machine_pool-none scope s e) (stays refl)
      | inr (p, e) ↦ elim (Option-cases p.meta.labels) [
        | inl nil ↦ stays (ap (label_at stored k) (get_nil_world s e nil))
        | inr (m, labels) ↦
            rw (get_hyper_machine_pool-some scope s e labels) (adopted-Change s.world p m e)
      ]
    ];
  }

  do_provisioning-Keeps :
      (hmp : HyperMachinePool) (contents : Bytes) (master : Bool)
      → Keeps (label_at stored k) (do_provisioning remote scope hmp contents master)
  unfolding do_provisioning ubuntu_provisioning centos_provisioning
  do_provisioning-Keeps hmp contents master =
      let run = λ (d : Distro).
        provision-Keeps remote scope (label_at stored k) (silent_at stored k remote silent)
          (apart_at stored k scope.client apart) d hmp contents master in
      if-Keeps (label_at stored k) (hmp.status.os == codes "ubuntu") _ _ (run ubuntu) (
        if-Keeps (label_at stored k) (hmp.status.os == codes "centos") _ _ (run centos)
          (pure-Keeps (label_at stored k) none))

  mark_provisioned-Keeps : (hmp : HyperMachinePool) → Keeps seen (mark_provisioned remote scope hmp)
  unfolding mark_provisioned
  mark_provisioned-Keeps hmp = record {
    same = λ s.
        (>>=-Keeps seen (must hmp.spec.ssh) _ (must-Keeps seen hmp.spec.ssh) (λ info.
            >>=-Keeps seen (must (get_elem? (split info.address (codes ":")) 0)) _
              (must-Keeps seen (get_elem? (split info.address (codes ":")) 0))
              (λ host. record { same = λ t. refl }))).same
          _;
  }

  conclude-Keeps :
      (hmp : HyperMachinePool) (report : Report) → Keeps seen (conclude remote scope hmp report)
  unfolding conclude
  conclude-Keeps hmp (some (e, output)) = pure-Keeps seen (some e)
  conclude-Keeps hmp none =
      >>=-Keeps seen (mark_provisioned remote scope hmp) _ (mark_provisioned-Keeps hmp)
        (λ _. pure-Keeps seen none)

  provision_with-Keeps :
      (hmp : HyperMachinePool) (text : Result Bytes)
      → Keeps seen (provision_with remote scope hmp text)
  unfolding provision_with
  provision_with-Keeps hmp (fault e) = pure-Keeps seen none
  provision_with-Keeps hmp (value contents) =
      >>=-Keeps seen
        (on_world (do_provisioning remote scope hmp contents (is_master scope.machine))) _
        (on_world-Keeps (label_at stored k)
          (do_provisioning remote scope hmp contents (is_master scope.machine))
          (do_provisioning-Keeps hmp contents (is_master scope.machine)))
        (conclude-Keeps hmp)

  provision_found-Keeps :
      (found : Option HyperMachinePool) → Keeps seen (provision_found remote scope found)
  unfolding provision_found
  provision_found-Keeps none = pure-Keeps seen none
  provision_found-Keeps (some hmp) =
      >>=-Keeps seen (read λ s. get_bootstrap_data scope s.object s.world) _
        (read-Keeps seen λ s. get_bootstrap_data scope s.object s.world) (provision_with-Keeps hmp)

  provision_machine-Moves : Moves seen Change (provision_machine remote scope)
  unfolding provision_machine
  provision_machine-Moves =
      >>=-Moves_first seen Change unchanged (get_hyper_machine_pool scope)
        (provision_found remote scope) get_hyper_machine_pool-Moves provision_found-Keeps

  reconcile_machine_normal-Moves : Moves seen Change (reconcile_machine_normal remote scope)
  unfolding reconcile_machine_normal
  reconcile_machine_normal-Moves = record {
    moves = λ s.
        (>>=-Moves seen Change unchanged (must (is_settled s.object)) _
            (must-Keeps seen (is_settled s.object))
            (λ skip.
              if-Moves seen Change unchanged
                (skip || not (scope.machine.phase == codes "Provisioning")) _ _
                (Keeps-Moves seen Change unchanged (pure none) (pure-Keeps seen none))
                provision_machine-Moves)).moves
          s;
  }

  close-Keeps : Keeps seen (close_machine_scope scope >>= λ _. pure tt)
  unfolding close_machine_scope
  close-Keeps = record {
    same =
        λ s. (apart_at stored k scope.client apart).machine_persist s.world scope.helper s.object;
  }

  -- What runs in a scope, on every way out.
  pub reconcile_in_scope-Moves : Moves seen Change (reconcile_in_scope remote scope)
  unfolding reconcile_in_scope
  reconcile_in_scope-Moves =
      with_defer-Moves seen Change unchanged (close_machine_scope scope >>= λ _. pure tt) _
        close-Keeps
        (record {
          moves = λ s.
              (if-Moves seen Change unchanged
                  (scope.client.finalizer_ops.contains_finalizer s.object.meta.finalizers
                    hyper_machine_finalizer)
                  _ _ reconcile_machine_normal-Moves (record { moves = λ t. stays refl })).moves
                s;
        })
