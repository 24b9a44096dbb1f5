-- ===== src/MachineController/Release/Silent.antt =====
-- What the release of a pool entry does to the other entries.
use cluster_api_provider_hyp.Base.{
  codes, ◌==◌, [], ◌≡◌, ◌≢◌, refl, ap, sym, Option, must, Bool-cases, inl, inr, ◌>>=◌, arith,
}
use cluster_api_provider_hyp.Base.Sequencing.{>>=_same, must_same}
use cluster_api_provider_hyp.Api.{
  Client, Result, value, fault, Key, HyperMachine, HyperMachinePool, IsConsistent, key_of,
  patch_elsewhere, pool_with_labels,
}
use cluster_api_provider_hyp.Utils.{Remote}
use cluster_api_provider_hyp.Utils.Ssh.{ssh_connect, send, close}
use cluster_api_provider_hyp.Utils.Ssh.Silent.{IsSilent, ssh_connect_same, send_same, close_same}
use cluster_api_provider_hyp.MachineController.Release.{
  released_labels, clean_on, remove_keepalived, reset_machine, clean_at,
  do_clean_hyper_machine_pool,
}
use cluster_api_provider_hyp.MachineController.Release.Freed.{ref_key}

module _ {World Conn Session V : Type 0} (remote : Remote World Conn Session)
    (client : Client World) (view : World → V) (silent : IsSilent remote view) where
  remove_keepalived_same :
      (conn : Conn) (hmp : HyperMachinePool) (w : World)
      → view (remove_keepalived remote client conn hmp w).1 ≡ view w
  unfolding remove_keepalived
  remove_keepalived_same conn hmp w = ground (
    arith,
    send_same remote view silent conn (codes "apt-get purge -y keepalived") w,
    send_same remote view silent conn (codes "yum remove -y keepalived") w,
  )

  pub reset_machine_same :
      (conn : Conn) (hmp : HyperMachinePool) (w : World)
      → view (reset_machine remote client conn hmp w).1 ≡ view w
  unfolding reset_machine
  reset_machine_same conn hmp w =
      >>=_same view (send remote conn (codes "kubeadm reset --force")) _ w
        (send_same remote view silent conn _ w)
        (λ _ t.
          >>=_same view (remove_keepalived remote client conn hmp) (λ _. close remote conn) t
            (remove_keepalived_same conn hmp t) (λ _ u. close_same remote view silent conn u))

-- The part of the entry that is released.
module _ {World Conn Session : Type 0} (remote : Remote World Conn Session) (client : Client World)
    (stored : World → Key → Option HyperMachinePool)
    (consistent : IsConsistent (λ (x : HyperMachinePool). x.meta) client.pools stored)
    (silent : IsSilent remote stored) where
  clean_on_elsewhere :
      (hmp : HyperMachinePool) (j : Key) (opened : Result Conn) (w : World)
      → j ≢ key_of hmp.meta
      → stored (clean_on remote client hmp opened w).1 j ≡ stored w j
  unfolding clean_on
  clean_on_elsewhere hmp j (fault e) w other = refl
  clean_on_elsewhere hmp j (value conn) w other =
      let at_j : World → Option HyperMachinePool = λ t. stored t j in
      >>=_same at_j (reset_machine remote client conn hmp) _ w
        (ap (λ f. f j) (reset_machine_same remote client stored silent conn hmp w))
        (λ _ t.
          >>=_same at_j (must (released_labels hmp.meta.labels)) _ t
            (must_same at_j (released_labels hmp.meta.labels) t)
            (λ labels u.
              patch_elsewhere (λ (x : HyperMachinePool). x.meta) client.pools stored consistent u
                hmp (pool_with_labels hmp labels) j other))

  clean_found_elsewhere :
      (hmp : HyperMachinePool) (j : Key) (w : World)
      → j ≢ key_of hmp.meta
      → stored
          ((must hmp.spec.ssh >>= λ info.
              ssh_connect remote info.address info.ssh_id info.ssh_pw >>= λ opened.
              clean_on remote client hmp opened)
            w).1
          j
        ≡ stored w j
  clean_found_elsewhere hmp j w other =
      let at_j : World → Option HyperMachinePool = λ t. stored t j in
      >>=_same at_j (must hmp.spec.ssh) _ w (must_same at_j hmp.spec.ssh w) (λ info t.
        >>=_same at_j (ssh_connect remote info.address info.ssh_id info.ssh_pw) _ t
          (ap (λ f. f j) (ssh_connect_same remote stored silent _ _ _ t))
          (λ opened u. clean_on_elsewhere hmp j opened u other))

  clean_at_elsewhere :
      (key j : Key) (r : Result HyperMachinePool) (w : World)
      → client.pools.get w key ≡ r
      → j ≢ key
      → stored (clean_at remote client key w).1 j ≡ stored w j
  unfolding clean_at
  clean_at_elsewhere key j (fault e) w got other = rw got refl
  clean_at_elsewhere key j (value hmp) w got other =
      let at_key = consistent.stored_key w key (consistent.get_sound w key got) in
      rw got (clean_found_elsewhere hmp j w (rw (sym at_key) at other))

  -- The release of an entry leaves every other entry alone, whatever fails on the way.
  pub do_clean_hyper_machine_pool_elsewhere :
      (hm : HyperMachine) (j : Key) (w : World)
      → j ≢ ref_key hm
      → stored (do_clean_hyper_machine_pool remote client hm w).1 j ≡ stored w j
  unfolding do_clean_hyper_machine_pool
  do_clean_hyper_machine_pool_elsewhere hm j w other =
      elim (Bool-cases (hm.spec.hyper_machine_pool_ref.name == [])) [
        | inl e ↦ rw (e, do_clean_hyper_machine_pool) refl
        | inr e ↦
            rw (e, do_clean_hyper_machine_pool) (clean_at_elsewhere (ref_key hm) j _ w refl other)
      ]
