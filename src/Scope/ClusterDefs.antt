-- ===== src/Scope/ClusterDefs.antt =====
-- utils/scope/cluster.go. The `HyperCluster` is kept in the state of the handlers.
pub mod Given
use cluster_api_provider_hyp.Base.{codes, ◌++◌, Option, none, some, M, pure, Scoped}
use cluster_api_provider_hyp.Api.{
  Client, Fault, failure, Result, value, fault, Cluster, HyperCluster, message,
}
use cluster_api_provider_hyp.Scope.MachineDefs.{required, and_then}

pub record ClusterScopeParams (World : Type 0) : Type 0 where
  pub client : Client World
  pub cluster : Option Cluster
  pub hyper_cluster : Option HyperCluster

pub record ClusterScope (World : Type 0) : Type 0 where
  pub client : Client World
  pub cluster : Cluster
  pub helper : HyperCluster

-- `NewClusterScope`
unfoldable pub new_cluster_scope :
    {World : Type 0} → ClusterScopeParams World → World → Result (ClusterScope World)
new_cluster_scope params w =
    and_then (required params.cluster (codes "failed to generate new scope from nil Cluster"))
      λ cluster.
        and_then
          (required params.hyper_cluster
            (codes "failed to generate new scope from nil HyperCluster"))
          λ hc. elim (params.client.hyper_clusters.new_helper w hc) [
            | some e ↦ fault (failure (codes "failed to init patch helper: " ++ message e))
            | none ↦ value (record { client = params.client; cluster = cluster; helper = hc })
          ]

-- `PatchObject`, and `Close`, which only calls it; the caller logs the error and drops it.
unfoldable pub close_cluster_scope :
    {World : Type 0} → ClusterScope World → M (Scoped World HyperCluster) (Option Fault)
close_cluster_scope scope s =
    let (err, w) = scope.client.hyper_clusters.persist s.world scope.helper s.object in
    pure err (record s { world = w })
