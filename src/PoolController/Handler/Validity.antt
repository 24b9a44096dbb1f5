-- ===== src/PoolController/Handler/Validity.antt =====
-- The validity label of a machine pool entry.
use mathlib.Core.Option.{some-injective}
use cluster_api_provider_hyp.Base.{
  Bytes, codes, ◌≡◌, ◌≢◌, refl, sym, ◌∙◌, some, done, Scoped, true, false, Bool-cases, inl, inr,
}
use cluster_api_provider_hyp.Api.{
  Client, Fault, fault, message, HyperMachinePool, SshInfo, Labels, lookup, insert,
  lookup-insert_self, text_or_empty, pool_with_labels, matches, matches-cons,
  label_hyper_machine_pool_valid,
}
use cluster_api_provider_hyp.Utils.{Remote}
use cluster_api_provider_hyp.Utils.Ssh.{ssh_connect}
use cluster_api_provider_hyp.MachineController.Acquire.{free_selector}
use cluster_api_provider_hyp.PoolController.Validation.{valid_ssh, set_error}
use cluster_api_provider_hyp.PoolController.Validation.Connected.{set_valid-some}
use cluster_api_provider_hyp.PoolController.Handler.{parse_bool, init_unlabelled, validate}

init_kept :
    (hmp : HyperMachinePool) (m : Labels) {v : Bytes}
    → hmp.meta.labels ≡ some m
    → lookup label_hyper_machine_pool_valid m ≡ some v
    → init_unlabelled hmp ≡ hmp
unfolding init_unlabelled
init_kept hmp m labels valid = simp (labels, valid, init_unlabelled)

false_ne_true : codes "false" ≢ codes "true"
unfolding codes
false_ne_true = λ e. cc e

not_selected :
    (m : Labels)
    → matches free_selector (some (insert label_hyper_machine_pool_valid (codes "false") m)) ≡ false
not_selected m =
    elim (Bool-cases
      (matches free_selector (some (insert label_hyper_machine_pool_valid (codes "false") m)))) [
        | inr e ↦ e
        | inl e ↦
            let found = ((matches-cons label_hyper_machine_pool_valid (codes "true") _ _).0 e).0 in
            absurd (
              false_ne_true (
                some-injective _ _ (
                  sym (lookup-insert_self label_hyper_machine_pool_valid (codes "false") m)
                  ∙ found)))
      ]

module _ {World Conn Session : Type 0} (remote : Remote World Conn Session)
    (client : Client World) where
  -- An entry whose label says that it is valid is not looked at again: neither the world nor the
  -- entry changes.
  pub validate-keeps :
      (s : Scoped World HyperMachinePool) (m : Labels) (v : Bytes)
      → s.object.meta.labels ≡ some m
      → lookup label_hyper_machine_pool_valid m ≡ some v
      → parse_bool v ≡ true
      → validate remote client s ≡ (done tt, s)
  unfolding validate
  validate-keeps s m v labels valid yes_ =
      simp (init_kept s.object m labels valid, labels, valid, yes_)

  -- The entry as a refused connection leaves it.
  abbrev pub refused : HyperMachinePool → Labels → Fault → HyperMachinePool
  refused hmp m e =
      set_error (message e)
        (pool_with_labels hmp (insert label_hyper_machine_pool_valid (codes "false") m))

  -- An entry with SSH data that is not labelled valid and to which SSH does not connect is
  -- labelled "false", with the error in its status, and no longer matches the selector of free
  -- entries.
  pub validate-IsRefused :
      (s : Scoped World HyperMachinePool) (m : Labels) {w' : World} {info : SshInfo} {e : Fault}
      → (init_unlabelled s.object).meta.labels ≡ some m
      → parse_bool (text_or_empty (lookup label_hyper_machine_pool_valid m)) ≡ false
      → (init_unlabelled s.object).spec.ssh ≡ some info
      → ssh_connect remote info.address info.ssh_id info.ssh_pw s.world ≡ (done (fault e), w')
      → let hmp = refused (init_unlabelled s.object) m e in
        (validate remote client s ≡ (done tt, record { world = w'; object = hmp }))
        × (hmp.status.error ≡ message e)
        × (matches free_selector hmp.meta.labels ≡ false)
  unfolding validate valid_ssh
  validate-IsRefused s m {w'} {info} {e} labels invalid ssh dialled = (
    simp (
      labels,
      invalid,
      ssh,
      dialled,
      set_valid-some (codes "false") (init_unlabelled s.object) m labels,
    ),
    refl,
    not_selected m,
  )
