-- ===== src/ClusterController/Endpoint.antt =====
-- `getAPIEndpoint`, `getAPIEndpointfromHip` and `getAPIEndpointfromHmp`.
pub mod Claims
pub mod Fallback
pub mod Exclusive
use cluster_api_provider_hyp.Base.{
  Bytes, codes, ◌==◌, not, List, [], ◌∷◌, none, some, M, pure, call, must, with_object, read, ◌>>=◌,
  ◌>>◌, Scoped, get_elem?, if◌then◌else◌,
}
use cluster_api_provider_hyp.Base.Split.{split}
use cluster_api_provider_hyp.Api.{
  Labels, insert, set_label?, value_or, HyperCluster, HyperIpPool, HyperMachinePool,
  ip_pool_with_labels, pool_with_labels, label_hyper_ip_pool, label_hyper_ip_pool_name,
  label_hyper_machine_pool_valid, label_cluster_role_master,
}
use cluster_api_provider_hyp.Scope.{ClusterScope}

abbrev pub free_ip_selector : Labels
free_ip_selector = (label_hyper_ip_pool, []) ∷ []

abbrev pub valid_selector : Labels
valid_selector = (label_hyper_machine_pool_valid, codes "true") ∷ []

-- The labels of a cluster, of which the map may be nil, with the name of its IP pool.
unfoldable pub record_ip_pool : Bytes → HyperCluster → HyperCluster
record_ip_pool name hc =
    let old : Labels = elim hc.meta.labels [ none ↦ [] | some m ↦ m ] in
    record hc {
      meta = record (hc.meta) { labels = some (insert label_hyper_ip_pool_name name old) };
    }

module _ {World : Type 0} (scope : ClusterScope World) where
  -- What is done with the free IPs. The patch decodes what the server stored into `newhip`; if it
  -- fails, `newhip` is what was sent.
  unfoldable pub claim_first : List HyperIpPool → M (Scoped World HyperCluster) Bytes
  claim_first [] = pure []
  claim_first (oldhip ∷ _) = do
    labels ← must (set_label? label_hyper_ip_pool (codes "0") oldhip.meta.labels)
    let sent = ip_pool_with_labels oldhip labels
    newhip ← call λ s.
        let (result, w) = scope.client.ip_pools.patch s.world oldhip sent in
        (value_or result sent, record s { world = w })
    with_object (record_ip_pool newhip.meta.name)
    pure newhip.spec.ip

  unfoldable pub get_api_endpoint_from_hip : M (Scoped World HyperCluster) Bytes
  unfolding claim_first
  get_api_endpoint_from_hip = do
    hips ← read λ s. value_or (scope.client.ip_pools.list s.world free_ip_selector) []
    claim_first hips

  -- What is done with the valid machine pool entries, whether they are in use or not.
  unfoldable pub set_first_aside : List HyperMachinePool → M (Scoped World HyperCluster) Bytes
  set_first_aside [] = pure []
  set_first_aside (oldhmp ∷ _) = do
    labels ← must (set_label? label_cluster_role_master [] oldhmp.meta.labels)
    _ ← call λ s.
        let (result, w) =
          scope.client.pools.patch s.world oldhmp (pool_with_labels oldhmp labels) in
        (result, record s { world = w })
    ssh_info ← must oldhmp.spec.ssh
    must (get_elem? (split ssh_info.address (codes ":")) 0)

  unfoldable pub get_api_endpoint_from_hmp : M (Scoped World HyperCluster) Bytes
  unfolding set_first_aside
  get_api_endpoint_from_hmp = do
    hmps ← read λ s. value_or (scope.client.pools.list s.world valid_selector) []
    set_first_aside hmps

  unfoldable pub get_api_endpoint : M (Scoped World HyperCluster) Bytes
  get_api_endpoint = do
    from_hip ← get_api_endpoint_from_hip
    if not (from_hip == []) then pure from_hip else get_api_endpoint_from_hmp
