-- ===== src/ClusterController/Handler/Ready.antt =====
-- When a cluster becomes ready.
use cluster_api_provider_hyp.Base.{
  codes, ==_ne, ◌≡◌, ◌≢◌, refl, ◌∙◌, List, [], ◌∷◌, Option, none, some, done, Scoped, true, false,
}
use cluster_api_provider_hyp.Api.{
  value, Key, Labels, label?, lookup-insert_self, HyperCluster, HyperIpPool, IsConsistent,
  stored_label, key_of, patch-stored, label_hyper_ip_pool, label_hyper_ip_pool_name,
}
use cluster_api_provider_hyp.Scope.{ClusterScope}
use cluster_api_provider_hyp.ClusterController.Endpoint.{free_ip_selector, record_ip_pool}
use cluster_api_provider_hyp.ClusterController.Endpoint.Claims.{
  claimed, from_hip-claimed, endpoint-from_hip,
}
use cluster_api_provider_hyp.ClusterController.Handler.{with_endpoint, reconcile_cluster_normal}

module _ {World : Type 0} (scope : ClusterScope World) (stored : World → Key → Option HyperIpPool)
    (consistent : IsConsistent (λ (x : HyperIpPool). x.meta) scope.client.ip_pools stored) where
  -- A cluster that has no endpoint and is not ready takes the first free IP, where the server
  -- accepts the patch and its answer has an address: the cluster becomes ready with that host and
  -- port 6443 and remembers the IP's name, and the stored counter of the IP is "0".
  pub reconcile_cluster_normal-IsReady :
      (s : Scoped World HyperCluster) (rest : List HyperIpPool) (m : Labels) {hip r : HyperIpPool}
      {w' : World}
      → s.object.spec.control_plane_endpoint.host ≡ []
      → s.object.status.ready ≡ false
      → scope.client.ip_pools.list s.world free_ip_selector ≡ value (hip ∷ rest)
      → hip.meta.labels ≡ some m
      → scope.client.ip_pools.patch s.world hip (claimed scope hip m) ≡ (value r, w')
      → r.spec.ip ≢ []
      → let hc = with_endpoint r.spec.ip (record_ip_pool r.meta.name s.object) in
        (reconcile_cluster_normal scope s ≡ (done none, record { world = w'; object = hc }))
        × (hc.spec.control_plane_endpoint ≡ record { host = r.spec.ip; port = 6443 })
        × (hc.status.ready ≡ true)
        × (label? label_hyper_ip_pool_name hc.meta.labels ≡ some r.meta.name)
        × (stored_label
              (λ (x : HyperIpPool). x.meta)
              (stored w' (key_of hip.meta))
              label_hyper_ip_pool
            ≡ some (codes "0"))
  unfolding reconcile_cluster_normal with_endpoint record_ip_pool
  reconcile_cluster_normal-IsReady s rest m {hip} {r} {w'} host ready found labels patched named = (
    simp (
      host,
      ready,
      endpoint-from_hip scope s _ r.spec.ip (from_hip-claimed scope s rest m found labels patched)
          named,
      ==_ne r.spec.ip [] named,
    ),
    refl,
    refl,
    lookup-insert_self label_hyper_ip_pool_name r.meta.name _,
    patch-stored _ scope.client.ip_pools stored consistent s.world hip (claimed scope hip m)
          label_hyper_ip_pool (consistent.list_sound s.world free_ip_selector found).0.0 patched
        ∙ lookup-insert_self label_hyper_ip_pool (codes "0") m,
  )
