-- ===== src/ClusterController/Endpoint/Claims.antt =====
-- From where a cluster takes its endpoint.
use mathlib.Core.List.{cons-ne-nil}
use cluster_api_provider_hyp.Base.{
  Bytes, codes, ==_ne, ==_refl, ◌≡◌, ◌≢◌, List, [], ◌∷◌, some, done, Scoped,
}
use cluster_api_provider_hyp.Base.Split.{before, get_elem?-split_zero}
use cluster_api_provider_hyp.Api.{
  value, Labels, insert, HyperCluster, HyperIpPool, HyperMachinePool, SshInfo, ip_pool_with_labels,
  pool_with_labels, label_hyper_ip_pool, label_cluster_role_master,
}
use cluster_api_provider_hyp.Scope.{ClusterScope}
use cluster_api_provider_hyp.ClusterController.Endpoint.{
  free_ip_selector, valid_selector, record_ip_pool, get_api_endpoint_from_hip,
  get_api_endpoint_from_hmp, get_api_endpoint,
}

colon : codes ":" ≢ []
unfolding codes
colon = cons-ne-nil _ _

module _ {World : Type 0} (scope : ClusterScope World) where
  -- The IP with the counter at zero, as it is sent to the server.
  abbrev pub claimed : HyperIpPool → Labels → HyperIpPool
  claimed hip m = ip_pool_with_labels hip (insert label_hyper_ip_pool (codes "0") m)

  pub from_hip-claimed :
      (s : Scoped World HyperCluster) (rest : List HyperIpPool) (m : Labels) {hip r : HyperIpPool}
      {w' : World}
      → scope.client.ip_pools.list s.world free_ip_selector ≡ value (hip ∷ rest)
      → hip.meta.labels ≡ some m
      → scope.client.ip_pools.patch s.world hip (claimed hip m) ≡ (value r, w')
      → get_api_endpoint_from_hip scope s
        ≡ (done r.spec.ip, record { world = w'; object = record_ip_pool r.meta.name s.object })
  unfolding get_api_endpoint_from_hip
  from_hip-claimed s rest m found labels patched = simp (found, labels, patched)

  pub from_hip-none :
      (s : Scoped World HyperCluster)
      → scope.client.ip_pools.list s.world free_ip_selector ≡ value []
      → get_api_endpoint_from_hip scope s ≡ (done [], s)
  unfolding get_api_endpoint_from_hip
  from_hip-none s found = simp found

  pub from_hmp-marked :
      (s : Scoped World HyperCluster) (rest : List HyperMachinePool) (m : Labels)
      {hmp : HyperMachinePool} {info : SshInfo}
      → scope.client.pools.list s.world valid_selector ≡ value (hmp ∷ rest)
      → hmp.meta.labels ≡ some m
      → hmp.spec.ssh ≡ some info
      → get_api_endpoint_from_hmp scope s ≡ (
        done (before info.address (codes ":")),
        record s {
          world =
              (scope.client.pools.patch s.world hmp
                (pool_with_labels hmp (insert label_cluster_role_master [] m))).1;
        },
      )
  unfolding get_api_endpoint_from_hmp
  from_hmp-marked s rest m {info = info} found labels ssh =
      simp (found, labels, ssh, get_elem?-split_zero info.address (codes ":") colon)

  pub endpoint-from_hip :
      (s t : Scoped World HyperCluster) (ip : Bytes)
      → get_api_endpoint_from_hip scope s ≡ (done ip, t)
      → ip ≢ []
      → get_api_endpoint scope s ≡ (done ip, t)
  unfolding get_api_endpoint
  endpoint-from_hip s t ip run h = simp (run, ==_ne ip [] h)

  pub endpoint-from_hmp :
      (s t : Scoped World HyperCluster)
      → get_api_endpoint_from_hip scope s ≡ (done [], t)
      → get_api_endpoint scope s ≡ get_api_endpoint_from_hmp scope t
  unfolding get_api_endpoint
  endpoint-from_hmp s t run = simp (run, ==_refl [])
