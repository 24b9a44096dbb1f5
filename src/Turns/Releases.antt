-- ===== src/Turns/Releases.antt =====
-- What the deletion of a machine does to the cluster labels.
use cluster_api_provider_hyp.Base.{
  ◌==◌, ◌≡◌, refl, [], Option, none, some, call, must, pure, on_world, ◌>>=◌, Scoped, inl, inr,
  Bytes,
}
use cluster_api_provider_hyp.Base.Tracked.{
  pure-Keeps, must-Keeps, Moves, Keeps-Moves, >>=-Moves, >>=-Moves_first, of_world, on_world-Moves,
  if-Moves, option-Moves,
}
use cluster_api_provider_hyp.Api.{
  Client, Result, value, fault, Key, Labels, HyperMachine, HyperMachinePool, IsConsistent, IsApart,
  patch_label, pool_with_labels, label_cluster_name, value_or, zero_pool,
}
use cluster_api_provider_hyp.Utils.{Remote}
use cluster_api_provider_hyp.Utils.Ssh.{ssh_connect}
use cluster_api_provider_hyp.Utils.Ssh.Silent.{IsSilent, ssh_connect-Keeps}
use cluster_api_provider_hyp.MachineController.Release.{
  released_labels, reset_machine, clean_on, clean_at, do_clean_hyper_machine_pool,
  remove_machine_finalizer, reconcile_machine_delete,
}
use cluster_api_provider_hyp.MachineController.Release.Freed.{released_labels-cleared}
use cluster_api_provider_hyp.MachineController.Release.Silent.{reset_machine_same}
use cluster_api_provider_hyp.Turns.Change.{
  Change, stays, clears, unchanged, label_at, silent_at, apart_at,
}

module _ {World Conn Session : Type 0} (remote : Remote World Conn Session) (client : Client World)
    (stored : World → Key → Option HyperMachinePool)
    (consistent : IsConsistent (λ (x : HyperMachinePool). x.meta) client.pools stored)
    (silent : IsSilent remote stored) (apart : IsApart client stored) (k : Key) where
  abbrev label : World → Option Bytes
  label = label_at stored k

  returned-Moves :
      (hmp : HyperMachinePool) (labels : Option Labels)
      → released_labels hmp.meta.labels ≡ labels
      → Moves label Change (
          must labels >>= λ m.
          call (λ w. client.pools.patch w hmp (pool_with_labels hmp m)) >>= λ _.
          pure {A = Unit {0}} tt)
  returned-Moves hmp none e = record { moves = λ w. stays refl }
  returned-Moves hmp (some m) e = record {
    moves = λ w.
        elim (patch_label (λ (x : HyperMachinePool). x.meta) client.pools stored consistent w hmp
          (pool_with_labels hmp m) label_cluster_name k) [
            | inl same ↦ stays same
            | inr (at_k, differs, now) ↦
                clears (rw now (released_labels-cleared hmp.meta.labels m e))
          ];
  }

  clean_on-Moves :
      (hmp : HyperMachinePool) (opened : Result Conn)
      → Moves label Change (clean_on remote client hmp opened)
  unfolding clean_on
  clean_on-Moves hmp (fault e) = Keeps-Moves label Change unchanged _ (pure-Keeps label tt)
  clean_on-Moves hmp (value conn) =
      >>=-Moves label Change unchanged (reset_machine remote client conn hmp) _
        (record {
          same = reset_machine_same remote client label (silent_at stored k remote silent) conn hmp;
        })
        (λ _. returned-Moves hmp (released_labels hmp.meta.labels) refl)

  clean_at-Moves : (key : Key) → Moves label Change (clean_at remote client key)
  unfolding clean_at
  clean_at-Moves key =
      >>=-Moves label Change unchanged (call λ w. (value_or (client.pools.get w key) zero_pool, w))
        _ (record { same = λ w. refl })
        (λ hmp.
          >>=-Moves label Change unchanged (must hmp.spec.ssh) _ (must-Keeps label hmp.spec.ssh)
            (λ info.
              >>=-Moves label Change unchanged
                (ssh_connect remote info.address info.ssh_id info.ssh_pw) _
                (ssh_connect-Keeps remote label (silent_at stored k remote silent) info.address
                  info.ssh_id info.ssh_pw)
                (clean_on-Moves hmp)))

  do_clean_hyper_machine_pool-Moves :
      (hm : HyperMachine) → Moves label Change (do_clean_hyper_machine_pool remote client hm)
  unfolding do_clean_hyper_machine_pool
  do_clean_hyper_machine_pool-Moves hm =
      if-Moves label Change unchanged (hm.spec.hyper_machine_pool_ref.name == []) _ _
        (Keeps-Moves label Change unchanged (pure tt) (pure-Keeps label tt)) (clean_at-Moves _)

  abbrev seen : Scoped World HyperMachine → Option Bytes
  seen = of_world label

  -- The whole deletion.
  pub reconcile_machine_delete-Moves : Moves seen Change (reconcile_machine_delete remote client)
  unfolding reconcile_machine_delete
  reconcile_machine_delete-Moves = record {
    moves = λ s.
        (option-Moves seen Change (client.hyper_machines.new_helper s.world s.object) _ _
            (>>=-Moves_first seen Change unchanged
              (on_world (do_clean_hyper_machine_pool remote client s.object)) _
              (on_world-Moves label Change (do_clean_hyper_machine_pool remote client s.object)
                (do_clean_hyper_machine_pool-Moves s.object))
              (λ _. record {
                same = λ t.
                    (apart_at stored k client apart).machine_persist t.world s.object
                      (remove_machine_finalizer remote client t.object);
              }))
            (λ e. Keeps-Moves seen Change unchanged _ (pure-Keeps seen (some e)))).moves
          s;
  }
