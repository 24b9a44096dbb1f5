-- ===== src/Scope/ClusterDefs/Given.antt =====
-- What `NewClusterScope` asks for.
use cluster_api_provider_hyp.Base.{◌≡◌, ap, sym, Option, none, some, arith, Option-cases, inl, inr}
use cluster_api_provider_hyp.Api.{Client, value, Cluster, HyperCluster}
use cluster_api_provider_hyp.Scope.ClusterDefs.{ClusterScope, new_cluster_scope}

value-injective : {A : Type 0} (a b : A) → value a ≡ value b → a ≡ b
value-injective a b e = cc

-- A cluster scope that is made has the client that was given.
pub new_cluster_scope-client :
    {World : Type 0} (client : Client World) (cluster : Option Cluster) (hc : Option HyperCluster)
    (w : World) (scope : ClusterScope World)
    → new_cluster_scope (record { client = client; cluster = cluster; hyper_cluster = hc }) w
      ≡ value scope
    → scope.client ≡ client
unfolding new_cluster_scope
new_cluster_scope-client client none hc w scope e = absurd (ground arith)
new_cluster_scope-client client (some c) none w scope e = absurd (ground arith)
new_cluster_scope-client client (some c) (some hc) w scope e =
    elim (Option-cases (client.hyper_clusters.new_helper w hc)) [
      | inl ok ↦
          ap (λ (s : ClusterScope _). s.client)
            (sym (
              value-injective (record { client = client; cluster = c; helper = hc }) scope
                (rw ok at e)))
      | inr (f, failed) ↦ absurd (ground arith)
    ]
