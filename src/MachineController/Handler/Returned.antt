-- ===== src/MachineController/Handler/Returned.antt =====
-- A whole reconcile of a machine that is deleted.
use cluster_api_provider_hyp.Base.{
  ℕ, String, Bytes, codes, ◌≡◌, ◌≢◌, refl, sym, ap, ◌∙◌, List, [], Option, none, some, done,
  in_scope, arith,
}
use cluster_api_provider_hyp.Api.{
  Client, Key, Labels, label?, lookup, value, SshInfo, HyperMachine, HyperMachinePool, ObjectMeta,
  IsConsistent, IsApart, stored_label, key_of, pool_with_labels, label_cluster_role_master,
  label_hyper_machine_pool_valid,
}
use cluster_api_provider_hyp.Utils.{Remote}
use cluster_api_provider_hyp.Utils.Ssh.{ssh_connect}
use cluster_api_provider_hyp.Utils.Ssh.Silent.{IsSilent, ssh_connect_same}
use cluster_api_provider_hyp.MachineController.Acquire.{free_selector, choose_pool}
use cluster_api_provider_hyp.MachineController.Acquire.Free.{IsFree, choose_pool-ne-none}
use cluster_api_provider_hyp.MachineController.Release.{
  released_labels, reset_machine, do_clean_hyper_machine_pool, remove_machine_finalizer,
  reconcile_machine_delete,
}
use cluster_api_provider_hyp.MachineController.Release.Freed.{
  ref_key, do_clean_hyper_machine_pool-IsFreed,
}
use cluster_api_provider_hyp.MachineController.Release.Silent.{reset_machine_same}
use cluster_api_provider_hyp.MachineController.Handler.{reconcile, reconcile_read}

-- What carries a label is stored.
stored_label-some :
    {X : Type 0} (meta : X → ObjectMeta) (o : Option X) (k : String) (v : Bytes)
    → stored_label meta o k ≡ some v
    → (x : X) × (o ≡ some x)
stored_label-some meta none k v e = absurd (ground arith)
stored_label-some meta (some x) k v e = (x, refl)

module _ {World Conn Session : Type 0} (remote : Remote World Conn Session)
    (client : Client World) where
  -- The state after the last write of the deletion.
  abbrev pub written_off : HyperMachine → World → World
  written_off hm w =
      (client.hyper_machines.persist w hm (remove_machine_finalizer remote client hm)).1

  handed_over :
      (key : Key) (w : World) (t : ℕ) {hm : HyperMachine}
      → client.hyper_machines.get w key ≡ value hm
      → hm.meta.deletion_timestamp ≡ some t
      → reconcile remote client key w ≡ in_scope hm (reconcile_machine_delete remote client) w
  unfolding reconcile reconcile_read
  handed_over key w t found gone = simp (found, gone)

  removed :
      (hm : HyperMachine) (w w' : World)
      → client.hyper_machines.new_helper w hm ≡ none
      → do_clean_hyper_machine_pool remote client hm w ≡ (done tt, w')
      → in_scope hm (reconcile_machine_delete remote client) w ≡ (done none, written_off hm w')
  unfolding reconcile_machine_delete
  removed hm w w' helped cleaned = simp (helped, cleaned)

module _ {World Conn Session : Type 0} (remote : Remote World Conn Session) (client : Client World)
    (stored : World → Key → Option HyperMachinePool)
    (consistent : IsConsistent (λ (x : HyperMachinePool). x.meta) client.pools stored)
    (silent : IsSilent remote stored) (apart : IsApart client stored) where
  unmoved :
      (w w1 w2 : World) (conn : Conn) (p : HyperMachinePool) (info : SshInfo)
      → ssh_connect remote info.address info.ssh_id info.ssh_pw w ≡ (done (value conn), w1)
      → reset_machine remote client conn p w1 ≡ (done tt, w2)
      → stored w2 ≡ stored w
  unmoved w w1 w2 conn p info dialled ran =
      ap (λ r. stored r.1) (sym ran)
      ∙ reset_machine_same remote client stored silent conn p w1
      ∙ ap (λ r. stored r.1) (sym dialled)
      ∙ ssh_connect_same remote stored silent _ _ _ w

  -- A whole reconcile of a deleted machine whose valid entry is stored ends without error and gives the
  -- machine without the finalizer to the patch helper; the entry is then stored as a free one, without
  -- the mark of the control plane, and where the list of free entries succeeds the next machine finds
  -- an entry. SSH connects to the entry, the commands that reset the machine end, and the server accepts
  -- the patch.
  pub reconcile-IsReturned :
      (key : Key) (w w1 w2 : World) {w3 : World} (conn : Conn) (m m' : Labels) (t : ℕ)
      {hm : HyperMachine} {p r : HyperMachinePool} {info : SshInfo} {found : List HyperMachinePool}
      → client.hyper_machines.get w key ≡ value hm
      → hm.meta.deletion_timestamp ≡ some t
      → client.hyper_machines.new_helper w hm ≡ none
      → hm.spec.hyper_machine_pool_ref.name ≢ []
      → key_of p.meta ≡ ref_key hm
      → stored w (key_of p.meta) ≡ some p
      → p.spec.ssh ≡ some info
      → p.meta.labels ≡ some m
      → lookup label_hyper_machine_pool_valid m ≡ some (codes "true")
      → released_labels (some m) ≡ some m'
      → ssh_connect remote info.address info.ssh_id info.ssh_pw w ≡ (done (value conn), w1)
      → reset_machine remote client conn p w1 ≡ (done tt, w2)
      → client.pools.patch w2 p (pool_with_labels p m') ≡ (value r, w3)
      → let last = written_off remote client hm w3 in
        client.pools.list last free_selector ≡ value found
        → (reconcile remote client key w ≡ (done none, last))
          × (choose_pool client last ≢ none)
          × (p' : HyperMachinePool) × (stored last (ref_key hm) ≡ some p')
          × IsFree p'
          × (label? label_cluster_role_master p'.meta.labels ≡ none)
  reconcile-IsReturned key w w1 w2 {w3} conn m m' t {hm} {p} {r} {info} got gone helped named at_ref
        here ssh labels valid freed dialled ran patched listed =
      let still = ap (λ f. f (key_of p.meta)) (unmoved w w1 w2 conn p info dialled ran) ∙ here in
      let (cleaned, unused, unmarked, kept) =
        do_clean_hyper_machine_pool-IsFreed remote client stored consistent hm w w1 w2 conn m m'
          named at_ref here ssh labels freed dialled ran still patched in
      let (p', there) = stored_label-some (λ (x : HyperMachinePool). x.meta) _ _ _ unused in
      let at_last =
        ap (λ f. f (ref_key hm))
          (apart.machine_persist w3 hm (remove_machine_finalizer remote client hm))
        ∙ there in
      let free : IsFree p' = (rw there at kept ∙ valid, rw there at unused) in
      (
        handed_over remote client key w t got gone ∙ removed remote client hm w w3 helped cleaned,
        choose_pool-ne-none client stored consistent _ (ref_key hm) listed at_last free,
        p',
        at_last,
        free,
        rw there at unmarked,
      )
