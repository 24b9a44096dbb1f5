-- ===== src/MachineController/Release.antt =====
-- `doCleanHyperMachinePool` and `reconcileMachineDelete`.
pub mod Freed
pub mod Silent
pub mod Leaked
use cluster_api_provider_hyp.Base.{
  codes, ◌==◌, [], Option, none, some, M, pure, call, must, read, on_world, with_object, ◌>>=◌,
  ◌>>◌, Scoped, if◌then◌else◌,
}
use cluster_api_provider_hyp.Api.{
  Client, Fault, Result, value, fault, Key, Labels, lookup, erase, set_label?, HyperMachine,
  HyperMachinePool, value_or, zero_pool, pool_with_labels, label_cluster_role_master,
  label_cluster_name, hyper_machine_finalizer,
}
use cluster_api_provider_hyp.Utils.{Remote}
use cluster_api_provider_hyp.Utils.Ssh.{ssh_connect, send, close}

-- The labels of an entry that is given back; `none` is the panic on a nil map.
unfoldable pub released_labels : Option Labels → Option Labels
released_labels labels = elim (set_label? label_cluster_name [] labels) [
  | none ↦ none
  | some m ↦ elim (lookup label_cluster_role_master m) [
    | none ↦ some m
    | some _ ↦ some (erase label_cluster_role_master m)
  ]
]

module _ {World Conn Session : Type 0} (remote : Remote World Conn Session)
    (client : Client World) where
  -- The command by which the distribution removes keepalived.
  remove_keepalived : Conn → HyperMachinePool → M World (Unit {0})
  remove_keepalived conn hmp =
      if hmp.status.os == codes "ubuntu"
      then send remote conn (codes "apt-get purge -y keepalived")
      else if hmp.status.os == codes "centos"
      then send remote conn (codes "yum remove -y keepalived")
      else pure tt

  -- The commands that reset the machine, on an open connection, which is closed.
  unfoldable pub reset_machine : Conn → HyperMachinePool → M World (Unit {0})
  unfolding remove_keepalived
  reset_machine conn hmp = do
    send remote conn (codes "kubeadm reset --force")
    remove_keepalived conn hmp
    close remote conn

  -- What follows `SSHConnect`: the error path returns, and leaves the entry to its cluster.
  unfoldable pub clean_on : HyperMachinePool → Result Conn → M World (Unit {0})
  unfolding reset_machine
  clean_on hmp (fault e) = pure tt
  clean_on hmp (value conn) = do
    reset_machine conn hmp
    labels ← must (released_labels hmp.meta.labels)
    _ ← call λ w. client.pools.patch w hmp (pool_with_labels hmp labels)
    pure tt

  -- Everything behind the test of the reference. The error of `Get` is dropped, so a missing entry is
  -- read as the zero object.
  unfoldable pub clean_at : Key → M World (Unit {0})
  unfolding clean_on
  clean_at key = do
    hmp ← call λ w. (value_or (client.pools.get w key) zero_pool, w)
    ssh_info ← must hmp.spec.ssh
    opened ← ssh_connect remote ssh_info.address ssh_info.ssh_id ssh_info.ssh_pw
    clean_on hmp opened

  unfoldable pub do_clean_hyper_machine_pool : HyperMachine → M World (Unit {0})
  unfolding clean_at
  do_clean_hyper_machine_pool hm =
      let own_ref = hm.spec.hyper_machine_pool_ref in
      if own_ref.name == []
      then pure tt
      else clean_at (record { namespace = own_ref.namespace; name = own_ref.name })

  unfoldable pub remove_machine_finalizer : HyperMachine → HyperMachine
  remove_machine_finalizer hm = record hm {
    meta = record (hm.meta) {
      finalizers = client.finalizer_ops.remove_finalizer hm.meta.finalizers hyper_machine_finalizer;
    };
  }

  unfoldable pub reconcile_machine_delete : M (Scoped World HyperMachine) (Option Fault)
  unfolding remove_machine_finalizer
  reconcile_machine_delete = do
    hm ← read λ s. s.object
    refused ← read λ s. client.hyper_machines.new_helper s.world s.object
    elim refused [
      | some e ↦ pure (some e)
      | none ↦ do
        on_world (do_clean_hyper_machine_pool hm)
        with_object remove_machine_finalizer
        _ ← call λ s.
            let (err, w) = client.hyper_machines.persist s.world hm s.object in
            (err, record s { world = w })
        pure none
    ]
