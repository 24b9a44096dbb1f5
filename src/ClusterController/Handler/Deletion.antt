-- ===== src/ClusterController/Handler/Deletion.antt =====
-- What the deletion of a cluster does to its IP.
use cluster_api_provider_hyp.Base.{
  Bytes, ◌≡◌, refl, ◌∙◌, [], Option, none, some, done, panicked, Scoped,
}
use cluster_api_provider_hyp.Api.{
  Fault, value, fault, Key, Labels, label?, insert, lookup-insert_self, HyperCluster, HyperIpPool,
  IsConsistent, stored_label, key_of, ip_pool_with_labels, patch-stored, label_hyper_ip_pool,
  label_hyper_ip_pool_name,
}
use cluster_api_provider_hyp.Scope.{ClusterScope}
use cluster_api_provider_hyp.ClusterController.Handler.{
  delete_hip, remove_cluster_finalizer, reconcile_cluster_delete,
}

module _ {World : Type 0} (scope : ClusterScope World) where
  -- Where the cluster's IP is looked for.
  abbrev pub ip_key : Bytes → Key
  ip_key name = record { namespace = scope.cluster.meta.namespace; name = name }

  -- Where the IP that a cluster remembers cannot be read, the deletion panics before it removes
  -- the finalizer, and leaves the world and the cluster as they are.
  pub reconcile_cluster_delete-panics :
      (s : Scoped World HyperCluster) (name : Bytes) {e : Fault}
      → label? label_hyper_ip_pool_name s.object.meta.labels ≡ some name
      → scope.client.ip_pools.get s.world (ip_key name) ≡ fault e
      → reconcile_cluster_delete scope s ≡ (panicked, s)
  unfolding reconcile_cluster_delete delete_hip
  reconcile_cluster_delete-panics s name named gone = simp (named, gone)

  delete_hip-sent :
      (s : Scoped World HyperCluster) (name : Bytes) (m : Labels) {hip : HyperIpPool}
      → label? label_hyper_ip_pool_name s.object.meta.labels ≡ some name
      → scope.client.ip_pools.get s.world (ip_key name) ≡ value hip
      → hip.meta.labels ≡ some m
      → reconcile_cluster_delete scope s ≡ (
        done none,
        record {
          world =
              (scope.client.ip_pools.patch s.world hip
                (ip_pool_with_labels hip (insert label_hyper_ip_pool [] m))).1;
          object = remove_cluster_finalizer scope.client s.object;
        },
      )
  unfolding reconcile_cluster_delete delete_hip
  delete_hip-sent s name m named found labels = simp (named, found, labels)

module _ {World : Type 0} (scope : ClusterScope World) (stored : World → Key → Option HyperIpPool)
    (consistent : IsConsistent (λ (x : HyperIpPool). x.meta) scope.client.ip_pools stored) where
  -- The deletion of a cluster sets its IP free: once the server has accepted the patch, the stored IP
  -- has the empty label by which free IPs are selected, and the cluster loses its finalizer.
  pub reconcile_cluster_delete-IsFreed :
      (s : Scoped World HyperCluster) (name : Bytes) (m : Labels) {hip r : HyperIpPool} {w' : World}
      → label? label_hyper_ip_pool_name s.object.meta.labels ≡ some name
      → key_of hip.meta ≡ ip_key scope name
      → stored s.world (key_of hip.meta) ≡ some hip
      → hip.meta.labels ≡ some m
      → scope.client.ip_pools.patch s.world hip
          (ip_pool_with_labels hip (insert label_hyper_ip_pool [] m))
        ≡ (value r, w')
      → (reconcile_cluster_delete scope s ≡ (
        done none,
        record { world = w'; object = remove_cluster_finalizer scope.client s.object },
      ))
        × (stored_label
              (λ (x : HyperIpPool). x.meta)
              (stored w' (ip_key scope name))
              label_hyper_ip_pool
            ≡ some [])
  reconcile_cluster_delete-IsFreed s name m {hip} named key here labels patched = (
    delete_hip-sent scope s name m named
          (rw key at (consistent.get_stored s.world (key_of hip.meta) here)) labels
        ∙ rw patched refl,
    rw (← key) (
        patch-stored _ scope.client.ip_pools stored consistent s.world hip
          (ip_pool_with_labels hip (insert label_hyper_ip_pool [] m)) label_hyper_ip_pool here
          patched
        ∙ lookup-insert_self label_hyper_ip_pool [] m),
  )
