-- ===== src/ClusterController/Handler.antt =====
-- `Reconcile`, `reconcileClusterNormal`, `reconcileClusterDelete` and `deleteHip`.
pub mod Ready
pub mod Whole
pub mod Invariant
pub mod Deletion
use cluster_api_provider_hyp.Base.{
  ltb, length, Bytes, codes, ◌==◌, ◌++◌, true, ◌||◌, [], Option, none, some, M, pure, call, must,
  read, with_defer, in_scope, with_object, ◌>>=◌, ◌>>◌, Scoped, if◌then◌else◌,
}
use cluster_api_provider_hyp.Api.{
  Client, Fault, Result, Cluster, not_found, failure, value, fault, message, Key, HyperCluster,
  label?, set_label?, value_or, zero_ip_pool, ip_pool_with_labels, label_hyper_ip_pool,
  label_hyper_ip_pool_name, hyper_cluster_finalizer,
}
use cluster_api_provider_hyp.Scope.{ClusterScope, new_cluster_scope, close_cluster_scope}
use cluster_api_provider_hyp.ClusterController.Endpoint.{get_api_endpoint}

-- What the cluster becomes when an endpoint was found.
unfoldable pub with_endpoint : Bytes → HyperCluster → HyperCluster
with_endpoint api_endpoint hc = record hc {
  spec = record { control_plane_endpoint = record { host = api_endpoint; port = 6443 } };
  status = record { ready = true };
}

module _ {World : Type 0} where
  unfoldable pub reconcile_cluster_normal :
      ClusterScope World → M (Scoped World HyperCluster) (Option Fault)
  reconcile_cluster_normal scope = do
    hc ← read λ s. s.object
    if ltb 0 (length hc.spec.control_plane_endpoint.host) || hc.status.ready then pure none else (do
      api_endpoint ← get_api_endpoint scope
      if api_endpoint == []
          then pure none
          else (do with_object (with_endpoint api_endpoint); pure none))

  -- The error of `Get` is dropped, so a missing IP is read as the zero object, of which the label map
  -- is nil.
  unfoldable pub delete_hip : ClusterScope World → M (Scoped World HyperCluster) (Unit {0})
  delete_hip scope = do
    val ← read λ s. label? label_hyper_ip_pool_name s.object.meta.labels
    elim val [
      | none ↦ pure tt
      | some name ↦ do
        let key : Key = record { namespace = scope.cluster.meta.namespace; name = name }
        hip ← read λ s. value_or (scope.client.ip_pools.get s.world key) zero_ip_pool
        labels ← must (set_label? label_hyper_ip_pool [] hip.meta.labels)
        _ ← call λ s.
            let (result, w) =
              scope.client.ip_pools.patch s.world hip (ip_pool_with_labels hip labels) in
            (result, record s { world = w })
        pure tt
    ]

  unfoldable pub remove_cluster_finalizer : Client World → HyperCluster → HyperCluster
  remove_cluster_finalizer client hc = record hc {
    meta = record (hc.meta) {
      finalizers = client.finalizer_ops.remove_finalizer hc.meta.finalizers hyper_cluster_finalizer;
    };
  }

  unfoldable pub add_cluster_finalizer : Client World → HyperCluster → HyperCluster
  add_cluster_finalizer client hc = record hc {
    meta = record (hc.meta) {
      finalizers = client.finalizer_ops.add_finalizer hc.meta.finalizers hyper_cluster_finalizer;
    };
  }

  unfoldable pub reconcile_cluster_delete :
      ClusterScope World → M (Scoped World HyperCluster) (Option Fault)
  unfolding remove_cluster_finalizer
  reconcile_cluster_delete scope = do
    delete_hip scope
    with_object (remove_cluster_finalizer scope.client)
    pure none

  -- What runs while the scope is open; it is closed on every way out, also by a panic. The finalizer is
  -- looked at before the deletion.
  unfoldable pub reconcile_in_scope :
      ClusterScope World → M (Scoped World HyperCluster) (Option Fault)
  unfolding add_cluster_finalizer
  reconcile_in_scope scope = with_defer (close_cluster_scope scope >>= λ _. pure tt) (do
    hc ← read λ s. s.object
    if scope.client.finalizer_ops.contains_finalizer hc.meta.finalizers hyper_cluster_finalizer
        then (elim hc.meta.deletion_timestamp [
          | some _ ↦ reconcile_cluster_delete scope
          | none ↦ reconcile_cluster_normal scope
        ])
        else (do with_object (add_cluster_finalizer scope.client); pure none))

  -- With the scope that was made.
  unfoldable pub reconcile_opened :
      HyperCluster → Result (ClusterScope World) → M World (Option Fault)
  unfolding reconcile_in_scope
  reconcile_opened hc (fault e) =
      pure (some (failure (codes "failed to create scope: " ++ message e)))
  reconcile_opened hc (value scope) = in_scope hc (reconcile_in_scope scope)

  -- With the owner cluster that was read.
  unfoldable pub reconcile_owned :
      Client World → HyperCluster → Result (Option Cluster) → M World (Option Fault)
  unfolding reconcile_opened
  reconcile_owned client hc (fault e) = pure (some e)
  reconcile_owned client hc (value none) = pure none
  reconcile_owned client hc (value (some cluster)) = do
    scope ← call λ w. (
      new_cluster_scope
          (record { client = client; cluster = some cluster; hyper_cluster = some hc }) w,
      w,
    )
    reconcile_opened hc scope

  -- With the cluster that was read.
  unfoldable pub reconcile_read : Client World → Result HyperCluster → M World (Option Fault)
  unfolding reconcile_owned
  reconcile_read client (fault (not_found text)) = pure none
  reconcile_read client (fault (failure text)) = pure (some (failure text))
  reconcile_read client (value hc) = do
    owner ← call λ w. (client.get_owner_cluster w hc.meta, w)
    reconcile_owned client hc owner

  unfoldable pub reconcile : Client World → Key → M World (Option Fault)
  unfolding reconcile_read
  reconcile client key = do
    read_hc ← call λ w. (client.hyper_clusters.get w key, w)
    reconcile_read client read_hc
