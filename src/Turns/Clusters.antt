-- ===== src/Turns/Clusters.antt =====
-- What a whole reconcile of the cluster controller does to the cluster labels of the entries: nothing.
use cluster_api_provider_hyp.Base.{
  Bytes, codes, ◌==◌, not, ◌||◌, ltb, length, refl, List, [], ◌∷◌, Option, none, some, call, must,
  read, pure, ◌>>=◌, Scoped,
}
use cluster_api_provider_hyp.Base.Tracked.{
  Keeps, >>=-Keeps, pure-Keeps, read-Keeps, must-Keeps, option-Keeps, if-Keeps, with_defer-Keeps,
  of_world,
}
use cluster_api_provider_hyp.Api.{
  Key, Labels, HyperCluster, HyperIpPool, HyperMachinePool, IsConsistent, IsApart, label?,
  set_label?, value_or, zero_ip_pool, ip_pool_with_labels, label_hyper_ip_pool,
  label_hyper_ip_pool_name, hyper_cluster_finalizer,
}
use cluster_api_provider_hyp.Scope.{ClusterScope, close_cluster_scope}
use cluster_api_provider_hyp.ClusterController.Endpoint.{
  free_ip_selector, claim_first, get_api_endpoint_from_hip, get_api_endpoint,
}
use cluster_api_provider_hyp.ClusterController.Endpoint.Fallback.{get_api_endpoint_from_hmp_label}
use cluster_api_provider_hyp.ClusterController.Handler.{
  reconcile_cluster_normal, delete_hip, reconcile_cluster_delete, reconcile_in_scope,
}
use cluster_api_provider_hyp.Turns.Change.{label_at, apart_at}

module _ {World : Type 0} (scope : ClusterScope World)
    (stored : World → Key → Option HyperMachinePool)
    (consistent : IsConsistent (λ (x : HyperMachinePool). x.meta) scope.client.pools stored)
    (apart : IsApart scope.client stored) (k : Key) where
  abbrev seen : Scoped World HyperCluster → Option Bytes
  seen = of_world (label_at stored k)

  abbrev kept : IsApart scope.client (label_at stored k)
  kept = apart_at stored k scope.client apart

  claim_first-Keeps : (hips : List HyperIpPool) → Keeps seen (claim_first scope hips)
  unfolding claim_first
  claim_first-Keeps [] = pure-Keeps seen []
  claim_first-Keeps (oldhip ∷ rest) =
      >>=-Keeps seen (must (set_label? label_hyper_ip_pool (codes "0") oldhip.meta.labels)) _
        (must-Keeps seen (set_label? label_hyper_ip_pool (codes "0") oldhip.meta.labels))
        (λ labels. record {
          same = λ s. kept.ip_patch s.world oldhip (ip_pool_with_labels oldhip labels);
        })

  get_api_endpoint-Keeps : Keeps seen (get_api_endpoint scope)
  unfolding get_api_endpoint get_api_endpoint_from_hip
  get_api_endpoint-Keeps =
      >>=-Keeps seen (get_api_endpoint_from_hip scope) _
        (>>=-Keeps seen
          (read λ s. value_or (scope.client.ip_pools.list s.world free_ip_selector) []) _
          (read-Keeps seen λ s. value_or (scope.client.ip_pools.list s.world free_ip_selector) [])
          claim_first-Keeps)
        (λ host.
          if-Keeps seen (not (host == [])) _ _ (pure-Keeps seen host)
            (record { same = λ s. get_api_endpoint_from_hmp_label scope stored consistent s k }))

  reconcile_cluster_normal-Keeps : Keeps seen (reconcile_cluster_normal scope)
  unfolding reconcile_cluster_normal
  reconcile_cluster_normal-Keeps = record {
    same = λ s.
        (if-Keeps seen
            (ltb 0 (length s.object.spec.control_plane_endpoint.host) || s.object.status.ready) _ _
            (pure-Keeps seen none)
            (>>=-Keeps seen (get_api_endpoint scope) _ get_api_endpoint-Keeps (λ host.
              if-Keeps seen (host == []) _ _ (pure-Keeps seen none)
                (record { same = λ t. refl })))).same
          s;
  }

  -- The patch of an IP.
  sent_back-Keeps :
      (hip : HyperIpPool) (labels : Option Labels)
      → Keeps seen (
          must labels >>= λ m.
          (call λ s.
            let (result, w) = scope.client.ip_pools.patch s.world hip (ip_pool_with_labels hip m) in
            (result, record s { world = w }))
          >>= λ _. pure {A = Unit {0}} tt)
  sent_back-Keeps hip none = record { same = λ s. refl }
  sent_back-Keeps hip (some m) = record {
    same = λ s. kept.ip_patch s.world hip (ip_pool_with_labels hip m);
  }

  delete_hip-Keeps : Keeps seen (delete_hip scope)
  unfolding delete_hip
  delete_hip-Keeps = record {
    same = λ s.
        (option-Keeps seen (label? label_hyper_ip_pool_name s.object.meta.labels) _ _
            (pure-Keeps seen tt)
            (λ name.
              let key : Key = record { namespace = scope.cluster.meta.namespace; name = name } in
              >>=-Keeps seen
                (read λ t. value_or (scope.client.ip_pools.get t.world key) zero_ip_pool) _
                (read-Keeps seen λ t. value_or (scope.client.ip_pools.get t.world key) zero_ip_pool)
                (λ hip.
                  sent_back-Keeps hip (set_label? label_hyper_ip_pool [] hip.meta.labels)))).same
          s;
  }

  reconcile_cluster_delete-Keeps : Keeps seen (reconcile_cluster_delete scope)
  unfolding reconcile_cluster_delete
  reconcile_cluster_delete-Keeps =
      >>=-Keeps seen (delete_hip scope) _ delete_hip-Keeps (λ _. record { same = λ s. refl })

  -- What runs in a scope, on every way out.
  pub reconcile_in_scope-Keeps : Keeps seen (reconcile_in_scope scope)
  unfolding reconcile_in_scope close_cluster_scope
  reconcile_in_scope-Keeps =
      with_defer-Keeps seen (close_cluster_scope scope >>= λ _. pure tt) _
        (record { same = λ s. kept.cluster_persist s.world scope.helper s.object })
        (record {
          same = λ s.
              (if-Keeps seen
                  (scope.client.finalizer_ops.contains_finalizer s.object.meta.finalizers
                    hyper_cluster_finalizer)
                  _ _
                  (option-Keeps seen s.object.meta.deletion_timestamp _ _
                    reconcile_cluster_normal-Keeps (λ _. reconcile_cluster_delete-Keeps))
                  (record { same = λ t. refl })).same
                s;
        })
