-- ===== src/Utils/Priority.antt =====
-- `hipNum2Pri` of utils/provisioning.go: the keepalived priority of the next control-plane machine.
pub mod Order
pub mod Sequence
pub mod Range
pub mod Silent
use cluster_api_provider_hyp.Base.{Bytes, [], Option, none, some, M, pure, call, must, ◌>>=◌}
use cluster_api_provider_hyp.Base.Decimal.{ℤ, atoi, itoa, increment, hundred_minus}
use cluster_api_provider_hyp.Api.{
  label?, Client, Key, Cluster, HyperCluster, HyperIpPool, zero_ip_pool, value_or,
  label_hyper_ip_pool, label_hyper_ip_pool_name, set_label?, ip_pool_with_labels, text_or_empty,
}

-- What the label becomes and what is returned, by the label's number.
renumber : HyperIpPool → Option ℤ → Option (HyperIpPool × Bytes)
renumber hip none = some (hip, [])
renumber hip (some num) =
    elim (set_label? label_hyper_ip_pool (itoa (increment num)) hip.meta.labels) [
      | none ↦ none
      | some m ↦ some (ip_pool_with_labels hip m, itoa (hundred_minus num))
    ]

module _ {World : Type 0} (client : Client World) where
  unfoldable pub hip_num2_pri : Cluster → HyperCluster → M World Bytes
  unfolding renumber
  hip_num2_pri cluster hc = elim (label? label_hyper_ip_pool_name hc.meta.labels) [
    | none ↦ pure []
    | some val ↦ do
      let key : Key = record { namespace = cluster.meta.namespace; name = val }
      hip ← call λ w. (value_or (client.ip_pools.get w key) zero_ip_pool, w)
      let num = atoi (text_or_empty (label? label_hyper_ip_pool hip.meta.labels))
      (newhip, hip_num) ← must (renumber hip num)
      _ ← call λ w. client.ip_pools.patch w hip newhip
      pure hip_num
  ]
