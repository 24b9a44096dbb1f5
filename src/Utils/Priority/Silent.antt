-- ===== src/Utils/Priority/Silent.antt =====
-- What the count of control-plane machines leaves alone.
use cluster_api_provider_hyp.Base.{refl, Option, pure, call, must, ◌>>=◌}
use cluster_api_provider_hyp.Base.Decimal.{ℤ, atoi}
use cluster_api_provider_hyp.Base.Tracked.{Keeps, option-Keeps, >>=-Keeps, must-Keeps, pure-Keeps}
use cluster_api_provider_hyp.Api.{
  Client, Key, Cluster, HyperCluster, HyperIpPool, IsApart, label?, text_or_empty, value_or,
  zero_ip_pool, label_hyper_ip_pool, label_hyper_ip_pool_name,
}
use cluster_api_provider_hyp.Utils.Priority.{renumber, hip_num2_pri}

module _ {World V : Type 0} (client : Client World) (cluster : Cluster) (hc : HyperCluster)
    (view : World → V) (apart : IsApart client view) where
  counted-Keeps :
      (hip : HyperIpPool) (num : Option ℤ)
      → Keeps view (
          must (renumber hip num) >>= λ r.
          call (λ w. client.ip_pools.patch w hip r.0) >>= λ _. pure r.1)
  counted-Keeps hip num =
      >>=-Keeps view (must (renumber hip num)) _ (must-Keeps view (renumber hip num)) (λ r.
        >>=-Keeps view (call λ w. client.ip_pools.patch w hip r.0) _
          (record { same = λ w. apart.ip_patch w hip r.0 }) (λ _. pure-Keeps view r.1))

  pub hip_num2_pri-Keeps : Keeps view (hip_num2_pri client cluster hc)
  unfolding hip_num2_pri
  hip_num2_pri-Keeps =
      option-Keeps view (label? label_hyper_ip_pool_name hc.meta.labels) _ _ (pure-Keeps view _)
        (λ val.
          let key : Key = record { namespace = cluster.meta.namespace; name = val } in
          >>=-Keeps view (call λ w. (value_or (client.ip_pools.get w key) zero_ip_pool, w)) _
            (record { same = λ w. refl })
            (λ hip.
              counted-Keeps hip
                (atoi (text_or_empty (label? label_hyper_ip_pool hip.meta.labels)))))
