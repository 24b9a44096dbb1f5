-- ===== src/Utils/Priority/Order.antt =====
-- The priorities that control-plane machines get one after another.
use cluster_api_provider_hyp.Base.{
  ℕ, ◌+◌, ◌-◌, ◌≤◌, Bytes, codes, ◌≡◌, ◌↔◌, refl, ap, ◌∙◌, Option, some, arith, done,
}
use cluster_api_provider_hyp.Base.Decimal.{
  pos, atoi, itoa, max_int, increment, hundred_minus, atoi-itoa,
}
use cluster_api_provider_hyp.Api.{
  Client, value, Key, Labels, label?, lookup, insert, lookup-insert_self, Cluster, HyperCluster,
  HyperIpPool, IsConsistent, stored_label, key_of, ip_pool_with_labels, patch-stored,
  label_hyper_ip_pool, label_hyper_ip_pool_name,
}
use cluster_api_provider_hyp.Utils.Priority.{renumber, hip_num2_pri}

pub itoa-injective : (a b : ℕ) → a ≤ max_int → b ≤ max_int → itoa (pos a) ≡ itoa (pos b) → a ≡ b
itoa-injective a b ha hb e = ground (arith, atoi-itoa a ha, atoi-itoa b hb, ap atoi e)

pub hundred : codes "100" ≡ itoa (pos 100)
unfolding codes itoa
hundred = refl

increment_small : (n : ℕ) → n ≤ 100 → increment (pos n) ≡ pos (n + 1)
unfolding increment
increment_small n h = ground arith

hundred_minus_small : (n : ℕ) → n ≤ 100 → hundred_minus (pos n) ≡ pos (100 - n)
unfolding hundred_minus
hundred_minus_small n h = ground arith

first : (n : ℕ) → n ≤ 100 → itoa (pos (100 - n)) ≡ codes "100" → n ≡ 0
first n small e =
    omega (arith, itoa-injective (100 - n) 100 (omega arith) (omega arith) (e ∙ hundred))

module _ {World : Type 0} (client : Client World) (cluster : Cluster) (hc : HyperCluster) where
  -- The labels of the IP after one more machine.
  abbrev pub counted : HyperIpPool → Labels → ℕ → HyperIpPool
  counted hip m n = ip_pool_with_labels hip (insert label_hyper_ip_pool (itoa (pos (n + 1))) m)

  renumber-counted :
      (n : ℕ) {hip : HyperIpPool} {m : Labels}
      → hip.meta.labels ≡ some m
      → n ≤ 100
      → renumber hip (some (pos n)) ≡ some (counted hip m n, itoa (pos (100 - n)))
  unfolding renumber
  renumber-counted n labels small =
      ground (arith, labels, increment_small n small, hundred_minus_small n small)

  pub hip_num2_pri-value :
      (w : World) (n : ℕ) (val : Bytes) {hip : HyperIpPool} {m : Labels}
      → label? label_hyper_ip_pool_name hc.meta.labels ≡ some val
      → client.ip_pools.get w (record { namespace = cluster.meta.namespace; name = val })
        ≡ value hip
      → hip.meta.labels ≡ some m
      → lookup label_hyper_ip_pool m ≡ some (itoa (pos n))
      → n ≤ 100
      → hip_num2_pri client cluster hc w
        ≡ (done (itoa (pos (100 - n))), (client.ip_pools.patch w hip (counted hip m n)).1)
  unfolding hip_num2_pri
  hip_num2_pri-value w n val {hip} {m} named found labels number small =
      rw (named, hip_num2_pri)
        (simp (found, labels, number, atoi-itoa n (omega arith))
          (ground (arith, labels, increment_small n small, hundred_minus_small n small)))

module _ {World : Type 0} (client : Client World) (cluster : Cluster) (hc : HyperCluster)
    (stored : World → Key → Option HyperIpPool)
    (consistent : IsConsistent (λ (x : HyperIpPool). x.meta) client.ip_pools stored) where
  -- The machine that finds the counter of its cluster's IP at n, at most 100, gets the priority
  -- 100 - n, which is the text "100" of the keepalived master for n = 0 and for no other n; once
  -- the server has accepted the patch, the stored counter is n + 1.
  pub hip_num2_pri-IsNext :
      (w : World) (n : ℕ) (val : Bytes) {hip r : HyperIpPool} {m : Labels} {w' : World}
      → label? label_hyper_ip_pool_name hc.meta.labels ≡ some val
      → key_of hip.meta ≡ record { namespace = cluster.meta.namespace; name = val }
      → stored w (key_of hip.meta) ≡ some hip
      → hip.meta.labels ≡ some m
      → lookup label_hyper_ip_pool m ≡ some (itoa (pos n))
      → n ≤ 100
      → client.ip_pools.patch w hip (counted client cluster hc hip m n) ≡ (value r, w')
      → (hip_num2_pri client cluster hc w ≡ (done (itoa (pos (100 - n))), w'))
        × ((itoa (pos (100 - n)) ≡ codes "100") ↔ (n ≡ 0))
        × (stored_label
              (λ (x : HyperIpPool). x.meta)
              (stored w' (key_of hip.meta))
              label_hyper_ip_pool
            ≡ some (itoa (pos (n + 1))))
  hip_num2_pri-IsNext w n val {hip} {m} {w'} named at_key here labels number small patched = (
    hip_num2_pri-value client cluster hc w n val named
          (rw at_key at (consistent.get_stored w _ here)) labels number small
        ∙ rw patched,
    (λ e. first n small e, λ e. rw (e, hundred)),
    patch-stored _ client.ip_pools stored consistent w hip (counted client cluster hc hip m n)
          label_hyper_ip_pool here patched
        ∙ lookup-insert_self label_hyper_ip_pool _ m,
  )
