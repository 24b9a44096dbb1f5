-- ===== src/ClusterController/Endpoint/Exclusive.antt =====
-- Two clusters that take their IPs one after the other.
use cluster_api_provider_hyp.Base.{
  Bytes, codes, ◌≡◌, ◌≢◌, ◌∙◌, List, [], ◌∷◌, Option, some, done, Scoped, arith,
}
use cluster_api_provider_hyp.Api.{
  value, Key, Labels, matches-cons, lookup-insert_self, HyperCluster, HyperIpPool, IsConsistent,
  stored_label, key_of, patch-stored, label_hyper_ip_pool,
}
use cluster_api_provider_hyp.Scope.{ClusterScope}
use cluster_api_provider_hyp.ClusterController.Endpoint.{
  free_ip_selector, record_ip_pool, get_api_endpoint_from_hip,
}
use cluster_api_provider_hyp.ClusterController.Endpoint.Claims.{claimed, from_hip-claimed}

module _ {World : Type 0} (scope other : ClusterScope World)
    (stored : World → Key → Option HyperIpPool)
    (consistent : IsConsistent (λ (x : HyperIpPool). x.meta) scope.client.ip_pools stored)
    (others : IsConsistent (λ (x : HyperIpPool). x.meta) other.client.ip_pools stored) where
  abbrev pub counter_at : World → Key → Option Bytes
  counter_at w k = stored_label (λ (x : HyperIpPool). x.meta) (stored w k) label_hyper_ip_pool

  not_taken :
      (w : World) (k : Key) (rest : List HyperIpPool) {hip : HyperIpPool} {counter : Bytes}
      → other.client.ip_pools.list w free_ip_selector ≡ value (hip ∷ rest)
      → counter_at w k ≡ some counter
      → counter ≢ []
      → key_of hip.meta ≢ k
  not_taken w k rest {hip} listed counts named same =
      let (at_key, free) = (others.list_sound w free_ip_selector listed).0 in
      let unused = ((matches-cons _ _ _ hip.meta.labels).0 free).0 in
      named (ground (arith, rw same at at_key, counts, unused))

  -- A cluster that takes an IP is alone with it: the server's accepted patch stores the counter "0"
  -- there, and as long as the counter is not set free again, another cluster that takes an IP takes
  -- one with another key.
  pub get_api_endpoint_from_hip-IsExclusive :
      (s t : Scoped World HyperCluster) (rest rest' : List HyperIpPool) (m m' : Labels)
      (counter : Bytes) {hip hip' r r' : HyperIpPool} {w' t' : World}
      → scope.client.ip_pools.list s.world free_ip_selector ≡ value (hip ∷ rest)
      → hip.meta.labels ≡ some m
      → scope.client.ip_pools.patch s.world hip (claimed scope hip m) ≡ (value r, w')
      → counter_at t.world (key_of hip.meta) ≡ some counter
      → counter ≢ []
      → other.client.ip_pools.list t.world free_ip_selector ≡ value (hip' ∷ rest')
      → hip'.meta.labels ≡ some m'
      → other.client.ip_pools.patch t.world hip' (claimed other hip' m') ≡ (value r', t')
      → (get_api_endpoint_from_hip scope s
          ≡ (done r.spec.ip, record { world = w'; object = record_ip_pool r.meta.name s.object }))
        × (counter_at w' (key_of hip.meta) ≡ some (codes "0"))
        × (get_api_endpoint_from_hip other t ≡ (
          done r'.spec.ip,
          record { world = t'; object = record_ip_pool r'.meta.name t.object },
        ))
        × (key_of hip'.meta ≢ key_of hip.meta)
  get_api_endpoint_from_hip-IsExclusive s t rest rest' m m' counter {hip} {hip'} listed labels claim
        counts named listed' labels' claim' =
      (
        from_hip-claimed scope s rest m listed labels claim,
        patch-stored _ scope.client.ip_pools stored consistent s.world hip (claimed scope hip m)
              label_hyper_ip_pool (consistent.list_sound s.world free_ip_selector listed).0.0 claim
            ∙ lookup-insert_self label_hyper_ip_pool (codes "0") m,
        from_hip-claimed other t rest' m' listed' labels' claim',
        not_taken t.world (key_of hip.meta) rest' listed' counts named,
      )
