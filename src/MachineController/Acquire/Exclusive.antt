-- ===== src/MachineController/Acquire/Exclusive.antt =====
-- What `getHyperMachinePool` leaves behind: the entry is marked, and is not handed out again.
use cluster_api_provider_hyp.Base.{
  ◌≡◌, ◌≢◌, refl, ◌∙◌, sym, [], Option, none, some, arith, done, panicked, Scoped, Option-cases,
  inl, inr,
}
use cluster_api_provider_hyp.Api.{
  value, Key, Labels, HyperMachine, HyperMachinePool, insert, lookup-insert_self, IsConsistent,
  stored_label, key_of, pool_with_labels, patch-stored, label_cluster_name,
}
use cluster_api_provider_hyp.Scope.{MachineScope}
use cluster_api_provider_hyp.MachineController.Acquire.{
  choose_pool, get_hyper_machine_pool, refer_to,
}
use cluster_api_provider_hyp.MachineController.Acquire.Free.{choose_pool-IsFree}

module _ {World : Type 0} (scope : MachineScope World) where
  -- The entry with the cluster's name in its labels, as it is sent to the server.
  abbrev pub adopted : HyperMachinePool → Labels → HyperMachinePool
  adopted p m = pool_with_labels p (insert label_cluster_name scope.cluster.meta.name m)

  -- A free entry is returned, the machine refers to it, and the server is sent the cluster's label,
  -- whether the server accepts it or not.
  pub get_hyper_machine_pool-some :
      (s : Scoped World HyperMachine) {p : HyperMachinePool} {m : Labels}
      → choose_pool scope.client s.world ≡ some p
      → p.meta.labels ≡ some m
      → get_hyper_machine_pool scope s ≡ (
        done (some p),
        record {
          world = (scope.client.pools.patch s.world p (adopted p m)).1;
          object = refer_to p s.object;
        },
      )
  unfolding get_hyper_machine_pool
  get_hyper_machine_pool-some s e l = rw e (simp l)

  pub get_hyper_machine_pool-none :
      (s : Scoped World HyperMachine)
      → choose_pool scope.client s.world ≡ none
      → get_hyper_machine_pool scope s ≡ (done none, s)
  unfolding get_hyper_machine_pool
  get_hyper_machine_pool-none s e = simp e

  -- The write to a nil label map panics.
  pub get_hyper_machine_pool-nil :
      (s : Scoped World HyperMachine) {p : HyperMachinePool}
      → choose_pool scope.client s.world ≡ some p
      → p.meta.labels ≡ none
      → (get_hyper_machine_pool scope s).0 ≡ panicked
  unfolding get_hyper_machine_pool
  get_hyper_machine_pool-nil s e l = rw e (simp l)

module _ {World : Type 0} (scope : MachineScope World)
    (stored : World → Key → Option HyperMachinePool)
    (consistent : IsConsistent (λ (p : HyperMachinePool). p.meta) scope.client.pools stored) where
  pub taken_label :
      (w : World) (p : HyperMachinePool) (m : Labels) {r : HyperMachinePool} {w' : World}
      → stored w (key_of p.meta) ≡ some p
      → scope.client.pools.patch w p (adopted scope p m) ≡ (value r, w')
      → stored_label
          (λ (x : HyperMachinePool). x.meta)
          (stored w' (key_of p.meta))
          label_cluster_name
        ≡ some scope.cluster.meta.name
  taken_label w p m at_key patched =
      patch-stored _ scope.client.pools stored consistent w p (adopted scope p m) label_cluster_name
        at_key patched
      ∙ lookup-insert_self label_cluster_name scope.cluster.meta.name m

  not_again :
      (w : World) (p q : HyperMachinePool)
      → stored_label
          (λ (x : HyperMachinePool). x.meta)
          (stored w (key_of p.meta))
          label_cluster_name
        ≡ some scope.cluster.meta.name
      → scope.cluster.meta.name ≢ []
      → choose_pool scope.client w ≡ some q
      → key_of q.meta ≢ key_of p.meta
  not_again w p q taken named again same =
      let (at_key, (valid, unused)) = choose_pool-IsFree scope.client stored consistent w again in
      let at_p : stored w (key_of p.meta) ≡ some q = (rw (sym same) at_key) in
      named (ground (arith, rw at_p at taken, unused))

  -- An entry that a cluster with a name has taken is not handed out again: once the server has
  -- accepted the patch that adopts it, the entry is stored under the cluster's name, and whatever
  -- `getHyperMachinePool` chooses next is another entry.
  pub get_hyper_machine_pool-IsExclusive :
      (s : Scoped World HyperMachine) {p q r : HyperMachinePool} {m : Labels} {w' : World}
      → choose_pool scope.client s.world ≡ some p
      → p.meta.labels ≡ some m
      → scope.cluster.meta.name ≢ []
      → scope.client.pools.patch s.world p (adopted scope p m) ≡ (value r, w')
      → choose_pool scope.client (get_hyper_machine_pool scope s).1.world ≡ some q
      → ((get_hyper_machine_pool scope s).0 ≡ done (some p))
        × (stored_label
              (λ (x : HyperMachinePool). x.meta)
              (stored (get_hyper_machine_pool scope s).1.world (key_of p.meta))
              label_cluster_name
            ≡ some scope.cluster.meta.name)
        × (key_of q.meta ≢ key_of p.meta)
  get_hyper_machine_pool-IsExclusive s {p} {q} {r} {m} {w'} e l named patched again =
      let run = get_hyper_machine_pool-some scope s e l in
      let (at_key, (valid, unused)) = choose_pool-IsFree scope.client stored consistent s.world e in
      let taken = taken_label s.world p m at_key patched in
      rw (run, patched) (refl, taken, not_again w' p q taken named (rw (run, patched) at again))

module _ {World : Type 0} (scope : MachineScope World) where
  -- An entry that is returned is the chosen one, and its adoption was sent.
  pub get_hyper_machine_pool-result :
      (s s' : Scoped World HyperMachine) {p : HyperMachinePool}
      → get_hyper_machine_pool scope s ≡ (done (some p), s')
      → choose_pool scope.client s.world ≡ some p
  get_hyper_machine_pool-result s s' {p} run =
      elim (Option-cases (choose_pool scope.client s.world)) [
        | inl e ↦ absurd (ground (arith, get_hyper_machine_pool-none scope s e))
        | inr (q, e) ↦ elim (Option-cases q.meta.labels) [
          | inl nil ↦ absurd (ground (arith, get_hyper_machine_pool-nil scope s e nil))
          | inr (m, labels) ↦ ground (arith, get_hyper_machine_pool-some scope s e labels)
        ]
      ]
