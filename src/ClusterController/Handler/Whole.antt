-- ===== src/ClusterController/Handler/Whole.antt =====
-- A cluster from the IP that it takes to its deletion, by whole reconciles.
use cluster_api_provider_hyp.Base.{
  refl, ℕ, codes, ◌≡◌, ◌≢◌, ◌∙◌, ap, true, false, List, [], ◌∷◌, Option, none, some, done, Scoped,
  in_scope,
}
use cluster_api_provider_hyp.Api.{
  Client, value, Key, Labels, label?, insert, Cluster, HyperCluster, HyperIpPool, IsConsistent,
  stored_label, key_of, ip_pool_with_labels, label_hyper_ip_pool, hyper_cluster_finalizer,
}
use cluster_api_provider_hyp.Scope.{ClusterScope, new_cluster_scope, close_cluster_scope}
use cluster_api_provider_hyp.ClusterController.Endpoint.{free_ip_selector, record_ip_pool}
use cluster_api_provider_hyp.ClusterController.Endpoint.Claims.{claimed}
use cluster_api_provider_hyp.ClusterController.Handler.{
  with_endpoint, reconcile_cluster_normal, reconcile_cluster_delete, remove_cluster_finalizer,
  reconcile_in_scope, reconcile_opened, reconcile_owned, reconcile_read, reconcile,
}
use cluster_api_provider_hyp.ClusterController.Handler.Ready.{reconcile_cluster_normal-IsReady}
use cluster_api_provider_hyp.ClusterController.Handler.Deletion.{
  ip_key, reconcile_cluster_delete-IsFreed,
}

-- What the server answers about a cluster: the object and its owner, and a patch helper can be made.
pub record IsAnswered {World : Type 0} (client : Client World) (w : World) (key : Key)
    (hc : HyperCluster) (cluster : Cluster) : Type 0 where
  pub found : client.hyper_clusters.get w key ≡ value hc
  pub owned : client.get_owner_cluster w hc.meta ≡ value (some cluster)
  pub helped : client.hyper_clusters.new_helper w hc ≡ none
  pub held :
      client.finalizer_ops.contains_finalizer hc.meta.finalizers hyper_cluster_finalizer ≡ true

module _ {World : Type 0} (client : Client World) where
  abbrev pub scope_of : HyperCluster → Cluster → ClusterScope World
  scope_of hc cluster = record { client = client; cluster = cluster; helper = hc }

  -- The world after the last write, of a cluster that was read and is now another.
  abbrev pub written : HyperCluster → HyperCluster → World → World
  written old new w = (client.hyper_clusters.persist w old new).1

  opened :
      (key : Key) (w : World) {hc : HyperCluster} {cluster : Cluster}
      → IsAnswered client w key hc cluster
      → reconcile client key w ≡ in_scope hc (reconcile_in_scope (scope_of hc cluster)) w
  unfolding reconcile reconcile_read reconcile_owned reconcile_opened new_cluster_scope
  opened key w a = simp (a.found, a.owned, a.helped)

  lives :
      (scope : ClusterScope World) (s t : Scoped World HyperCluster)
      → scope.client.finalizer_ops.contains_finalizer s.object.meta.finalizers
          hyper_cluster_finalizer
        ≡ true
      → s.object.meta.deletion_timestamp ≡ none
      → reconcile_cluster_normal scope s ≡ (done none, t)
      → reconcile_in_scope scope s ≡ (
        done none,
        record t { world = (scope.client.hyper_clusters.persist t.world scope.helper t.object).1 },
      )
  unfolding reconcile_in_scope close_cluster_scope
  lives scope s t held alive ran = simp (held, alive, ran)

  ends :
      (scope : ClusterScope World) (s t : Scoped World HyperCluster) (time : ℕ)
      → scope.client.finalizer_ops.contains_finalizer s.object.meta.finalizers
          hyper_cluster_finalizer
        ≡ true
      → s.object.meta.deletion_timestamp ≡ some time
      → reconcile_cluster_delete scope s ≡ (done none, t)
      → reconcile_in_scope scope s ≡ (
        done none,
        record t { world = (scope.client.hyper_clusters.persist t.world scope.helper t.object).1 },
      )
  unfolding reconcile_in_scope close_cluster_scope
  ends scope s t time held gone ran = simp (held, gone, ran)

module _ {World : Type 0} (client : Client World) (stored : World → Key → Option HyperIpPool)
    (consistent : IsConsistent (λ (x : HyperIpPool). x.meta) client.ip_pools stored) where
  -- A whole reconcile of a cluster without endpoint takes the first free IP and gives the cluster to the
  -- patch helper as ready, with that IP at port 6443; and where the cluster is read later as deleted with
  -- the labels that it was given, and that IP is still stored, a whole reconcile gives the cluster to the
  -- patch helper without the finalizer, and the same IP is then stored as free, whatever its counter
  -- was. The IP is in the namespace of the cluster, which the code does not ask for when it takes one;
  -- the cluster has the finalizer, the answer of the server is the IP by its name and has an address,
  -- and the server accepts both patches of the IP.
  pub reconcile-IsFreed :
      (key : Key) (w w' later w'' : World) (rest : List HyperIpPool) (m m' : Labels) (time : ℕ)
      {hc gone : HyperCluster} {cluster cluster' : Cluster} {hip hip' r r' : HyperIpPool}
      → IsAnswered client w key hc cluster
      → hc.meta.deletion_timestamp ≡ none
      → hc.spec.control_plane_endpoint.host ≡ []
      → hc.status.ready ≡ false
      → client.ip_pools.list w free_ip_selector ≡ value (hip ∷ rest)
      → hip.meta.labels ≡ some m
      → client.ip_pools.patch w hip (claimed (scope_of client hc cluster) hip m) ≡ (value r, w')
      → r.meta.name ≡ hip.meta.name
      → r.spec.ip ≢ []
      → let given = with_endpoint r.spec.ip (record_ip_pool r.meta.name hc) in
        IsAnswered client later key gone cluster'
        → gone.meta.deletion_timestamp ≡ some time
        → gone.meta.labels ≡ given.meta.labels
        → cluster'.meta.namespace ≡ hip.meta.namespace
        → stored later (key_of hip.meta) ≡ some hip'
        → hip'.meta.labels ≡ some m'
        → client.ip_pools.patch later hip'
            (ip_pool_with_labels hip' (insert label_hyper_ip_pool [] m'))
          ≡ (value r', w'')
        → (reconcile client key w ≡ (done none, written client hc given w'))
          × (given.spec.control_plane_endpoint ≡ record { host = r.spec.ip; port = 6443 })
          × (given.status.ready ≡ true)
          × (stored_label
                (λ (x : HyperIpPool). x.meta)
                (stored w' (key_of hip.meta))
                label_hyper_ip_pool
              ≡ some (codes "0"))
          × (reconcile client key later
              ≡ (done none, written client gone (remove_cluster_finalizer client gone) w''))
          × (stored_label
                (λ (x : HyperIpPool). x.meta)
                (stored w'' (key_of hip.meta))
                label_hyper_ip_pool
              ≡ some [])
  reconcile-IsFreed key w w' later w'' rest m m' time {hc} {gone} {cluster} {cluster'} {hip} {hip'}
        {r} a alive host unready listed labels claim same_name named again ended kept near here
        labels' free =
      let scope = scope_of client hc cluster in
      let last_scope = scope_of client gone cluster' in
      let at_hip : key_of hip'.meta ≡ key_of hip.meta =
        consistent.stored_key later (key_of hip.meta) here in
      let at_ref : key_of hip.meta ≡ ip_key last_scope r.meta.name = rw (near, same_name) refl in
      let (normal, endpoint, ready, remembered, counted) =
        reconcile_cluster_normal-IsReady scope stored consistent (record { world = w; object = hc })
          rest m host unready listed labels claim named in
      let (deletion, freed) =
        reconcile_cluster_delete-IsFreed last_scope stored consistent
          (record { world = later; object = gone }) r.meta.name m' (ap (label? _) kept ∙ remembered)
          (at_hip ∙ at_ref) (ap (stored later) at_hip ∙ here) labels' free in
      (
        opened client key w a
            ∙ ap (λ x. (x.0, x.1.world))
                (lives client scope (record { world = w; object = hc }) _ a.held alive normal),
        endpoint,
        ready,
        counted,
        opened client key later again
            ∙ ap (λ x. (x.0, x.1.world))
                (ends client last_scope (record { world = later; object = gone }) _ time again.held
                  ended deletion),
        ap (λ k. stored_label (λ (x : HyperIpPool). x.meta) (stored w'' k) label_hyper_ip_pool)
              at_ref
            ∙ freed,
      )
