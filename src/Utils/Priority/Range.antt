-- ===== src/Utils/Priority/Range.antt =====
-- Priorities and counters stay in the range of `int`.
use cluster_api_provider_hyp.Base.{Bytes, ◌≡◌, ◌+◌, ◌%◌, ◌^◌, some, done, arith}
use cluster_api_provider_hyp.Base.Decimal.{ℤ, atoi, itoa, increment, hundred_minus}
use cluster_api_provider_hyp.Base.Decimal.Range.{
  IsInt, atoi-IsInt, word, increment-IsInt, word-increment, hundred_minus-IsInt, word-hundred_minus,
  atoi-itoa-IsInt,
}
use cluster_api_provider_hyp.Api.{
  Client, value, Labels, label?, lookup, insert, Cluster, HyperCluster, HyperIpPool,
  ip_pool_with_labels, label_hyper_ip_pool, label_hyper_ip_pool_name,
}
use cluster_api_provider_hyp.Utils.Priority.{renumber, hip_num2_pri}

renumber-some :
    (num : ℤ) {hip : HyperIpPool} {m : Labels}
    → hip.meta.labels ≡ some m
    → renumber hip (some num)
      ≡ some (
        ip_pool_with_labels hip (insert label_hyper_ip_pool (itoa (increment num)) m),
        itoa (hundred_minus num),
      )
unfolding renumber
renumber-some num labels = ground (arith, labels)

module _ {World : Type 0} (client : Client World) (cluster : Cluster) (hc : HyperCluster) where
  -- Whatever number the counter of the cluster's IP holds, at the ends of the 64-bit range too, the
  -- next control-plane machine gets as its priority, and the IP gets as its counter, the 64-bit
  -- integers that are 100 minus that number and one more than it modulo 2 ^ 64, and the counter that is
  -- sent to the server is read again as the number that was sent.
  pub hip_num2_pri-IsInt :
      (w : World) (val s : Bytes) (num : ℤ) {hip : HyperIpPool} {m : Labels}
      → label? label_hyper_ip_pool_name hc.meta.labels ≡ some val
      → client.ip_pools.get w (record { namespace = cluster.meta.namespace; name = val })
        ≡ value hip
      → hip.meta.labels ≡ some m
      → lookup label_hyper_ip_pool m ≡ some s
      → atoi s ≡ some num
      → (priority : ℤ) × (counter : ℤ) × (hip_num2_pri client cluster hc w ≡ (
        done (itoa priority),
        (client.ip_pools.patch w hip
            (ip_pool_with_labels hip (insert label_hyper_ip_pool (itoa counter) m))).1,
      ))
        × IsInt priority
        × ((word priority + word num) % 2 ^ 64 ≡ 100)
        × IsInt counter
        × (word counter ≡ (word num + 1) % 2 ^ 64)
        × (atoi (itoa counter) ≡ some counter)
  unfolding hip_num2_pri
  hip_num2_pri-IsInt w val s num {hip} {m} named found labels number read =
      let fits : IsInt num = atoi-IsInt s num read in
      (
        hundred_minus num,
        increment num,
        rw (named, hip_num2_pri)
            (simp (found, labels, number, read) (ground (arith, renumber-some num labels))),
        hundred_minus-IsInt num fits,
        word-hundred_minus num fits,
        increment-IsInt num fits,
        word-increment num fits,
        atoi-itoa-IsInt (increment num) (increment-IsInt num fits),
      )
