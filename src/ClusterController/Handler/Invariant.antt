-- ===== src/ClusterController/Handler/Invariant.antt =====
-- What a cluster that is ready has.
use cluster_api_provider_hyp.Base.{
  Bytes, codes, ◌==◌, ==_iff, ◌≡◌, ◌≢◌, refl, arith, true, not, ◌||◌, ltb, length, List, [], ◌∷◌,
  Option, none, pure, must, read, call, with_object, ◌>>◌, Scoped, get_elem?, if◌then◌else◌,
  Bool-cases, inl, inr,
}
use cluster_api_provider_hyp.Base.Preserved.{
  Preserves, >>=-Preserves, pure-Preserves, read-Preserves, must-Preserves, if-Preserves,
}
use cluster_api_provider_hyp.Base.Split.{split}
use cluster_api_provider_hyp.Api.{
  Fault, HyperCluster, HyperIpPool, HyperMachinePool, set_label?, value_or, label_hyper_ip_pool,
  label_cluster_role_master, ip_pool_with_labels, pool_with_labels,
}
use cluster_api_provider_hyp.Scope.{ClusterScope}
use cluster_api_provider_hyp.ClusterController.Endpoint.{
  free_ip_selector, valid_selector, record_ip_pool, claim_first, set_first_aside,
  get_api_endpoint_from_hip, get_api_endpoint_from_hmp, get_api_endpoint,
}
use cluster_api_provider_hyp.ClusterController.Handler.{with_endpoint, reconcile_cluster_normal}

-- A cluster that is ready has an endpoint, at port 6443.
abbrev pub IsServed : HyperCluster → Type 0
IsServed hc =
    hc.status.ready ≡ true
    → (hc.spec.control_plane_endpoint.host ≢ []) × (hc.spec.control_plane_endpoint.port ≡ 6443)

module _ {World : Type 0} (scope : ClusterScope World) where
  abbrev InState : Scoped World HyperCluster → Type 0
  InState s = IsServed s.object

  claim_first-InState : (hips : List HyperIpPool) → Preserves InState (claim_first scope hips)
  unfolding claim_first record_ip_pool
  claim_first-InState [] = pure-Preserves InState []
  claim_first-InState (oldhip ∷ rest) =
      >>=-Preserves InState (must (set_label? label_hyper_ip_pool (codes "0") oldhip.meta.labels)) _
        (must-Preserves InState (set_label? label_hyper_ip_pool (codes "0") oldhip.meta.labels))
        (λ labels.
          >>=-Preserves InState
            (call λ s. (
              value_or
                  (scope.client.ip_pools.patch s.world oldhip (ip_pool_with_labels oldhip labels)).0
                  (ip_pool_with_labels oldhip labels),
              record s {
                world =
                    (scope.client.ip_pools.patch s.world oldhip
                      (ip_pool_with_labels oldhip labels)).1;
              },
            ))
            _ (record { keeps = λ s h. h })
            (λ newhip.
              >>=-Preserves InState (with_object (record_ip_pool newhip.meta.name))
                (λ _. pure newhip.spec.ip) (record { keeps = λ s h. h })
                (λ _. pure-Preserves InState newhip.spec.ip)))

  set_first_aside-InState :
      (hmps : List HyperMachinePool) → Preserves InState (set_first_aside scope hmps)
  unfolding set_first_aside
  set_first_aside-InState [] = pure-Preserves InState []
  set_first_aside-InState (oldhmp ∷ rest) =
      >>=-Preserves InState (must (set_label? label_cluster_role_master [] oldhmp.meta.labels)) _
        (must-Preserves InState (set_label? label_cluster_role_master [] oldhmp.meta.labels))
        (λ labels.
          >>=-Preserves InState
            (call λ s. (
              (scope.client.pools.patch s.world oldhmp (pool_with_labels oldhmp labels)).0,
              record s {
                world =
                    (scope.client.pools.patch s.world oldhmp (pool_with_labels oldhmp labels)).1;
              },
            ))
            _ (record { keeps = λ s h. h })
            (λ _.
              >>=-Preserves InState (must oldhmp.spec.ssh) _
                (must-Preserves InState oldhmp.spec.ssh)
                (λ info. must-Preserves InState (get_elem? (split info.address (codes ":")) 0))))

  get_api_endpoint-InState : Preserves InState (get_api_endpoint scope)
  unfolding get_api_endpoint get_api_endpoint_from_hip get_api_endpoint_from_hmp
  get_api_endpoint-InState =
      >>=-Preserves InState (get_api_endpoint_from_hip scope) _
        (>>=-Preserves InState
          (read λ s. value_or (scope.client.ip_pools.list s.world free_ip_selector) [])
          (claim_first scope)
          (read-Preserves InState
            λ s. value_or (scope.client.ip_pools.list s.world free_ip_selector) [])
          claim_first-InState)
        (λ from_hip.
          if-Preserves InState (not (from_hip == [])) (pure from_hip)
            (get_api_endpoint_from_hmp scope) (pure-Preserves InState from_hip)
            (>>=-Preserves InState
              (read λ s. value_or (scope.client.pools.list s.world valid_selector) [])
              (set_first_aside scope)
              (read-Preserves InState
                λ s. value_or (scope.client.pools.list s.world valid_selector) [])
              set_first_aside-InState))

  -- The endpoint is written only if it is not empty.
  endpoint-InState :
      (endpoint : Bytes)
      → Preserves InState (
          if endpoint == []
          then pure {A = Option Fault} none
          else (with_object (with_endpoint endpoint) >> pure none))
  unfolding with_endpoint
  endpoint-InState endpoint = elim (Bool-cases (endpoint == [])) [
    | inl e ↦ rw e (pure-Preserves InState none)
    | inr e ↦ rw e (record { keeps = λ s h _. (λ empty. ground (arith, ==_iff endpoint []), refl) })
  ]

  -- Whatever a reconcile of a cluster that is not deleted comes to, a cluster that is ready after it
  -- has an endpoint with a host, at port 6443, if this was so before.
  pub reconcile_cluster_normal-IsServed :
      (s : Scoped World HyperCluster)
      → IsServed s.object
      → IsServed (reconcile_cluster_normal scope s).1.object
  unfolding reconcile_cluster_normal
  reconcile_cluster_normal-IsServed s h =
      (if-Preserves InState
          (ltb 0 (length s.object.spec.control_plane_endpoint.host) || s.object.status.ready)
          (pure none) _ (pure-Preserves InState none)
          (>>=-Preserves InState (get_api_endpoint scope)
            (λ endpoint.
              if endpoint == []
              then pure none
              else (with_object (with_endpoint endpoint) >> pure none))
            get_api_endpoint-InState endpoint-InState)).keeps
        s h
