-- ===== src/Turns/Pools.antt =====
-- What a whole reconcile of the machine pool controller does to the cluster labels.
use cluster_api_provider_hyp.Base.{
  Bytes, ◌≡◌, refl, ◌∙◌, inl, inr, Option, none, some, M, Outcome, done, panicked, exited, pure,
  ◌>>=◌, ◌>>◌, Scoped, deferred,
}
use cluster_api_provider_hyp.Base.Tracked.{Moves}
use cluster_api_provider_hyp.Base.Preserved.{>>=-Preserves, pure-Preserves}
use cluster_api_provider_hyp.Api.{
  Client, Fault, Key, HyperMachinePool, IsMerging, label_cluster_name,
}
use cluster_api_provider_hyp.Utils.{Remote}
use cluster_api_provider_hyp.Utils.Ssh.Silent.{IsSilent}
use cluster_api_provider_hyp.PoolController.Handler.{validate, close_pool, reconcile_helped}
use cluster_api_provider_hyp.Turns.Change.{Change, stays, clears, label_at}
use cluster_api_provider_hyp.Turns.Validates.{IsKept, InState, validate-InState}

module _ {World Conn Session : Type 0} (remote : Remote World Conn Session) (client : Client World)
    (stored : World → Key → Option HyperMachinePool) (silent : IsSilent remote stored)
    (merging : IsMerging (λ (x : HyperMachinePool). x.meta) client.pools stored) (k : Key) where
  abbrev label : World → Option Bytes
  label = label_at stored k

  -- What holds of the state while the handler runs.
  abbrev Handled : World → HyperMachinePool → Scoped World HyperMachinePool → Type 0
  Handled = InState remote client stored silent k

  -- The object is given to the patch helper that remembers `hmp`.
  persisted-Change :
      (w : World) (hmp p : HyperMachinePool) (w1 : World)
      → label w1 ≡ label w
      → IsKept hmp p
      → Change (label w) (label (client.pools.persist w1 hmp p).1)
  persisted-Change w hmp p w1 same own_kept =
      elim (merging.persist_label w1 hmp p k label_cluster_name) [
        | inl e ↦ stays (e ∙ same)
        | inr (at_k, differs, now) ↦ elim own_kept [
          | inl e ↦ absurd (differs e)
          | inr e ↦ clears (now ∙ e)
        ]
      ]

  closed-Change :
      {A : Type 0} (w : World) (hmp : HyperMachinePool) (o : Outcome A)
      (t : Scoped World HyperMachinePool)
      → Handled w hmp t
      → Change
          (label w)
          (label (deferred (close_pool remote client hmp >>= λ _. pure tt) o t).1.world)
  unfolding close_pool
  closed-Change w hmp (done a) t (same, own_kept) =
      persisted-Change w hmp t.object t.world same own_kept
  closed-Change w hmp panicked t (same, own_kept) =
      persisted-Change w hmp t.object t.world same own_kept
  closed-Change w hmp exited t (same, own_kept) = stays same

  -- With the patch helper, on every way out.
  pub reconcile_helped-Moves :
      (hmp : HyperMachinePool) (refused : Option Fault)
      → Moves label Change (reconcile_helped remote client hmp refused)
  unfolding reconcile_helped
  reconcile_helped-Moves hmp (some e) = record { moves = λ w. stays refl }
  reconcile_helped-Moves hmp none = record {
    moves = λ w.
        let start : Scoped World HyperMachinePool = record { world = w; object = hmp } in
        let body : M (Scoped World HyperMachinePool) (Option Fault) =
          validate remote client >> pure none in
        closed-Change w hmp (body start).0 (body start).1 (
          (>>=-Preserves (Handled w hmp) (validate remote client) (λ _. pure none)
              (validate-InState remote client stored silent k w hmp)
              (λ _. pure-Preserves (Handled w hmp) none)).keeps
            start (refl, inl refl));
  }
