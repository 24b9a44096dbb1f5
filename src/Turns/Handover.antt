-- ===== src/Turns/Handover.antt =====
-- No entry goes from one cluster to another directly.
use cluster_api_provider_hyp.Base.{Bytes, ◌≡◌, ◌≢◌, sym, ◌∙◌, Option, some, []}
use mathlib.Core.Option.{some-injective}
use cluster_api_provider_hyp.Api.{Client, Key, HyperMachinePool, IsConsistent, IsApart, IsMerging}
use cluster_api_provider_hyp.Utils.{Remote}
use cluster_api_provider_hyp.Utils.Ssh.Silent.{IsSilent}
use cluster_api_provider_hyp.Ownership.{cluster_label}
use cluster_api_provider_hyp.Turns.{
  Turn, machine, cluster, machine_pool, ip_pool, elsewhere, Turns, start, next,
}
use cluster_api_provider_hyp.Turns.Change.{Change, stays, takes, clears}
use cluster_api_provider_hyp.Turns.Whole.{machine-Moves, cluster-Moves, pool-Moves, ip-Moves}

module _ {World Conn Session : Type 0} (remote : Remote World Conn Session) (client : Client World)
    (stored : World → Key → Option HyperMachinePool)
    (consistent : IsConsistent (λ (x : HyperMachinePool). x.meta) client.pools stored)
    (silent : IsSilent remote stored) (apart : IsApart client stored)
    (merging : IsMerging (λ (x : HyperMachinePool). x.meta) client.pools stored) where
  -- One turn of any controller, for whatever request and with whatever outcome, leaves the cluster
  -- label of an entry as it is, or writes a name into an empty one, or makes it empty.
  pub Turn-Change :
      (w w' : World) (k : Key)
      → Turn remote client stored w w'
      → Change (cluster_label stored w k) (cluster_label stored w' k)
  Turn-Change w w' k (machine key ran) =
      rw (sym ran)
        ((machine-Moves remote client stored consistent silent apart merging k key).moves w)
  Turn-Change w w' k (cluster key ran) =
      rw (sym ran)
        ((cluster-Moves remote client stored consistent silent apart merging k key).moves w)
  Turn-Change w w' k (machine_pool key ran) =
      rw (sym ran) ((pool-Moves remote client stored consistent silent apart merging k key).moves w)
  Turn-Change w w' k (ip_pool key ran) =
      rw (sym ran) ((ip-Moves remote client stored consistent silent apart merging k key).moves w)
  Turn-Change w w' k (elsewhere same) = stays (same k)

  -- Where the cluster label of an entry is one text first and another one later, which is not empty,
  -- after any sequence of turns of the four controllers with whatever outcomes, there was a moment
  -- between two turns at which it was empty: no turn hands an entry over from one cluster to another.
  pub Turns-IsFreed :
      (w w' : World) (k : Key) (a b : Bytes)
      → Turns remote client stored w w'
      → cluster_label stored w k ≡ some a
      → cluster_label stored w' k ≡ some b
      → a ≢ b
      → b ≢ []
      → (u : World) × Turns remote client stored w u
        × Turns remote client stored u w'
        × (cluster_label stored u k ≡ some [])
  Turns-IsFreed w w' k a b start before after differ named =
      absurd (differ (some-injective _ _ (sym before ∙ after)))
  Turns-IsFreed w w' k a b (next {u = t} turns turn) before after differ named =
      elim (Turn-Change t w' k turn) [
        | stays e ↦
            let (u, first, rest, empty) =
              Turns-IsFreed w t k a b turns before (sym e ∙ after) differ named in
            (u, first, next rest turn, empty)
        | takes name e now ↦ (t, turns, next start turn, e)
        | clears now ↦ absurd (named (some-injective _ _ (sym after ∙ now)))
      ]
