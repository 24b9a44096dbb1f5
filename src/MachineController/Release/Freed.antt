-- ===== src/MachineController/Release/Freed.antt =====
-- What the deletion of a machine does to its pool entry.
use cluster_api_provider_hyp.Base.{
  String, ==_ne, ◌≡◌, ◌≢◌, refl, ◌∙◌, [], Option, none, some, arith, done, panicked, Scoped,
}
use cluster_api_provider_hyp.Api.{
  Client, Fault, value, fault, Key, Labels, lookup, insert, lookup-insert, lookup-erase,
  HyperMachine, HyperMachinePool, SshInfo, IsConsistent, stored_label, key_of, pool_with_labels,
  patch-stored, label_cluster_name, label_cluster_role_master, label_hyper_machine_pool_valid,
}
use cluster_api_provider_hyp.Utils.{Remote}
use cluster_api_provider_hyp.Utils.Ssh.{ssh_connect}
use cluster_api_provider_hyp.MachineController.Release.{
  released_labels, reset_machine, clean_at, do_clean_hyper_machine_pool, reconcile_machine_delete,
}

-- The released map: no cluster, no control-plane mark, the same validity.
released :
    (m m' : Labels)
    → released_labels (some m) ≡ some m'
    → (lookup label_cluster_name m' ≡ some [])
      × (lookup label_cluster_role_master m' ≡ none)
      × (lookup label_hyper_machine_pool_valid m' ≡ lookup label_hyper_machine_pool_valid m)
unfolding released_labels
released m m' h = ground (
  arith,
  lookup-insert label_cluster_name label_cluster_name [] m,
  lookup-insert label_cluster_role_master label_cluster_name [] m,
  lookup-insert label_hyper_machine_pool_valid label_cluster_name [] m,
  lookup-erase label_cluster_name label_cluster_role_master (insert label_cluster_name [] m),
  lookup-erase label_cluster_role_master label_cluster_role_master (insert label_cluster_name [] m),
  lookup-erase label_hyper_machine_pool_valid label_cluster_role_master
      (insert label_cluster_name [] m),
)

-- Whatever labels an entry has that is given back, the cluster's is then empty.
pub released_labels-cleared :
    (labels : Option Labels) (m' : Labels)
    → released_labels labels ≡ some m'
    → lookup label_cluster_name m' ≡ some []
unfolding released_labels
released_labels-cleared none m' h = absurd (ground arith)
released_labels-cleared (some m) m' h = (released m m' h).0

abbrev pub ref_key : HyperMachine → Key
ref_key hm = record {
  namespace = hm.spec.hyper_machine_pool_ref.namespace;
  name = hm.spec.hyper_machine_pool_ref.name;
}

module _ {World Conn Session : Type 0} (remote : Remote World Conn Session)
    (client : Client World) where
  pub clean_named :
      (hm : HyperMachine)
      → hm.spec.hyper_machine_pool_ref.name ≢ []
      → do_clean_hyper_machine_pool remote client hm ≡ clean_at remote client (ref_key hm)
  unfolding do_clean_hyper_machine_pool
  clean_named hm named = rw (==_ne _ [] named, do_clean_hyper_machine_pool) refl

  clean_missing :
      (key : Key) (w : World) {e : Fault}
      → client.pools.get w key ≡ fault e
      → clean_at remote client key w ≡ (panicked, w)
  unfolding clean_at
  clean_missing key w gone = rw gone refl

  clean_stored :
      (w w1 w2 : World) (key : Key) (conn : Conn) (m' : Labels) {p : HyperMachinePool}
      {info : SshInfo}
      → client.pools.get w key ≡ value p
      → p.spec.ssh ≡ some info
      → ssh_connect remote info.address info.ssh_id info.ssh_pw w ≡ (done (value conn), w1)
      → reset_machine remote client conn p w1 ≡ (done tt, w2)
      → released_labels p.meta.labels ≡ some m'
      → clean_at remote client key w
        ≡ (done tt, (client.pools.patch w2 p (pool_with_labels p m')).1)
  unfolding clean_at
  clean_stored w w1 w2 key conn m' {p} found info dialled ran labels =
      simp (found, info, dialled, ran, labels)

  clean_panics :
      (hm : HyperMachine) (w : World) {e : Fault}
      → hm.spec.hyper_machine_pool_ref.name ≢ []
      → client.pools.get w (ref_key hm) ≡ fault e
      → do_clean_hyper_machine_pool remote client hm w ≡ (panicked, w)
  clean_panics hm w named gone = rw (clean_named hm named) (clean_missing (ref_key hm) w gone)

  -- Where the pool entry that a machine refers to cannot be read, its deletion panics before it
  -- removes the finalizer, and leaves the world and the machine as they are.
  pub reconcile_machine_delete-panics :
      (s : Scoped World HyperMachine) {e : Fault}
      → client.hyper_machines.new_helper s.world s.object ≡ none
      → s.object.spec.hyper_machine_pool_ref.name ≢ []
      → client.pools.get s.world (ref_key s.object) ≡ fault e
      → reconcile_machine_delete remote client s ≡ (panicked, s)
  unfolding reconcile_machine_delete
  reconcile_machine_delete-panics s helped named gone =
      simp (helped, clean_panics s.object s.world named gone)

module _ {World Conn Session : Type 0} (remote : Remote World Conn Session) (client : Client World)
    (stored : World → Key → Option HyperMachinePool)
    (consistent : IsConsistent (λ (x : HyperMachinePool). x.meta) client.pools stored) where
  -- A deleted machine gives its entry back: where SSH connects, the commands that reset the machine
  -- end and leave the stored entry alone, and the server accepts the patch, the entry is stored under
  -- no cluster and without the control-plane mark, and its validity is as before.
  pub do_clean_hyper_machine_pool-IsFreed :
      (hm : HyperMachine) (w w1 w2 : World) {w3 : World} (conn : Conn) (m m' : Labels)
      {p r : HyperMachinePool} {info : SshInfo}
      → hm.spec.hyper_machine_pool_ref.name ≢ []
      → key_of p.meta ≡ ref_key hm
      → stored w (key_of p.meta) ≡ some p
      → p.spec.ssh ≡ some info
      → p.meta.labels ≡ some m
      → released_labels (some m) ≡ some m'
      → ssh_connect remote info.address info.ssh_id info.ssh_pw w ≡ (done (value conn), w1)
      → reset_machine remote client conn p w1 ≡ (done tt, w2)
      → stored w2 (key_of p.meta) ≡ some p
      → client.pools.patch w2 p (pool_with_labels p m') ≡ (value r, w3)
      → (do_clean_hyper_machine_pool remote client hm w ≡ (done tt, w3))
        × (stored_label
              (λ (x : HyperMachinePool). x.meta)
              (stored w3 (ref_key hm))
              label_cluster_name
            ≡ some [])
        × (stored_label
              (λ (x : HyperMachinePool). x.meta)
              (stored w3 (ref_key hm))
              label_cluster_role_master
            ≡ none)
        × (stored_label
              (λ (x : HyperMachinePool). x.meta)
              (stored w3 (ref_key hm))
              label_hyper_machine_pool_valid
            ≡ lookup label_hyper_machine_pool_valid m)
  do_clean_hyper_machine_pool-IsFreed hm w w1 w2 {w3} conn m m' {p} {r} named key here info labels
        freed dialled ran still patched =
      let (unused, unmarked, valid) = released m m' freed in
      let run =
        clean_stored remote client w w1 w2 (ref_key hm) conn m'
          (rw key at (consistent.get_stored w (key_of p.meta) here)) info dialled ran
          (rw labels freed) in
      let label = λ (k : String).
        patch-stored _ client.pools stored consistent w2 p (pool_with_labels p m') k still
          patched in
      rw (← key) (
        rw (clean_named remote client hm named) (run ∙ rw patched refl),
        label label_cluster_name ∙ unused,
        label label_cluster_role_master ∙ unmarked,
        label label_hyper_machine_pool_valid ∙ valid,
      )
