-- ===== src/Tests/Rivals.antt =====
-- Two clusters that take their IPs, and an IP that is new.
use cluster_api_provider_hyp.Base.{
  Bytes, codes, ◌==◌, ◌≡◌, ◌≢◌, refl, [], ◌∷◌, none, some, done, Scoped,
}
use cluster_api_provider_hyp.Api.{
  Labels, matches, HyperIpPool, HyperCluster, value, key_of, zero_meta, lookup, insert, value_eq,
  label_hyper_ip_pool, Client,
}
use cluster_api_provider_hyp.Scope.{ClusterScope}
use cluster_api_provider_hyp.ClusterController.Endpoint.{
  free_ip_selector, record_ip_pool, get_api_endpoint_from_hip,
}
use cluster_api_provider_hyp.ClusterController.Endpoint.Claims.{claimed}
use cluster_api_provider_hyp.ClusterController.Endpoint.Exclusive.{
  counter_at, get_api_endpoint_from_hip-IsExclusive,
}
use cluster_api_provider_hyp.Tests.Memory.{same_labels, Memory, stored_pool}
use cluster_api_provider_hyp.Tests.System.{client, memory, owner_cluster}
use cluster_api_provider_hyp.Tests.TwoIps.{
  of_ip, stored_two, two_store, two_store-IsConsistent, two_store-IsMerging,
}
use cluster_api_provider_hyp.PoolController.Ips.{reconcile}
use cluster_api_provider_hyp.PoolController.Ips.Kept.{IsKept, counter, reconcile-IsKept}

abbrev free_labels : Labels
free_labels = (label_hyper_ip_pool, []) ∷ []

abbrev ip_at : Bytes → Bytes → HyperIpPool
ip_at name ip = record {
  meta = record zero_meta { name = name; namespace = codes "ns"; labels = some free_labels };
  spec = record { ip = ip };
}

abbrev first_ip : HyperIpPool
first_ip = ip_at (codes "a") (codes "10.0.0.8")

abbrev second_ip : HyperIpPool
second_ip = ip_at (codes "b") (codes "10.0.0.9")

abbrev both_free : Memory
both_free = record memory { pool_a = of_ip first_ip; pool_b = of_ip second_ip }

abbrev scope : ClusterScope Memory
scope = record {
  client = record client { ip_pools = two_store };
  cluster = owner_cluster;
  helper = memory.cluster;
}

abbrev other_scope : ClusterScope Memory
other_scope = record scope {
  cluster = record owner_cluster { meta = record (owner_cluster.meta) { name = codes "c2" } };
}

abbrev first_claimed : HyperIpPool
first_claimed = claimed scope first_ip free_labels

abbrev second_claimed : HyperIpPool
second_claimed = claimed other_scope second_ip free_labels

abbrev one_taken : Memory
one_taken = record both_free { pool_a = of_ip first_claimed }

abbrev both_taken : Memory
both_taken = record one_taken { pool_b = of_ip second_claimed }

both_listed : two_store.list both_free free_ip_selector ≡ value (first_ip ∷ second_ip ∷ [])
unfolding codes ◌==◌ matches value_eq lookup
both_listed = refl

first_accepted : two_store.patch both_free first_ip first_claimed ≡ (value first_claimed, one_taken)
unfolding codes ◌==◌ same_labels lookup insert
first_accepted = refl

first_counts :
    counter_at scope other_scope stored_two two_store-IsConsistent two_store-IsConsistent one_taken
      (key_of first_ip.meta)
    ≡ some (codes "0")
unfolding stored_pool codes ◌==◌ lookup insert
first_counts = refl

other_listed : two_store.list one_taken free_ip_selector ≡ value (second_ip ∷ [])
unfolding codes ◌==◌ matches value_eq lookup insert
other_listed = refl

second_accepted :
    two_store.patch one_taken second_ip second_claimed ≡ (value second_claimed, both_taken)
unfolding codes ◌==◌ same_labels lookup insert
second_accepted = refl

abbrev first_start : Scoped Memory HyperCluster
first_start = record { world = both_free; object = memory.cluster }

abbrev second_start : Scoped Memory HyperCluster
second_start = record { world = one_taken; object = memory.cluster }

get_api_endpoint_from_hip-IsExclusive_example :
    (get_api_endpoint_from_hip scope first_start ≡ (
      done (codes "10.0.0.8"),
      record { world = one_taken; object = record_ip_pool (codes "a") memory.cluster },
    ))
    × (counter_at scope other_scope stored_two two_store-IsConsistent two_store-IsConsistent
          one_taken
          (key_of first_ip.meta)
        ≡ some (codes "0"))
    × (get_api_endpoint_from_hip other_scope second_start ≡ (
      done (codes "10.0.0.9"),
      record { world = both_taken; object = record_ip_pool (codes "b") memory.cluster },
    ))
    × (key_of second_ip.meta ≢ key_of first_ip.meta)
get_api_endpoint_from_hip-IsExclusive_example =
    get_api_endpoint_from_hip-IsExclusive scope other_scope stored_two two_store-IsConsistent
      two_store-IsConsistent first_start second_start (second_ip ∷ []) [] free_labels free_labels
      (codes "0") both_listed refl first_accepted first_counts (unfold codes in λ e. cc e)
      other_listed refl second_accepted

-- An IP that its controller has not seen yet, beside one that is taken.
abbrev ip_client : Client Memory
ip_client = record client { ip_pools = two_store }

abbrev new_ip : HyperIpPool
new_ip = record second_ip { meta = record (second_ip.meta) { labels = none } }

abbrev unlabelled : Memory
unlabelled = record one_taken { pool_b = of_ip new_ip }

reconcile-IsKept_example :
    IsKept
      (counter ip_client stored_two two_store-IsConsistent two_store-IsMerging unlabelled
        (key_of new_ip.meta))
      (counter ip_client stored_two two_store-IsConsistent two_store-IsMerging
        (reconcile ip_client (key_of new_ip.meta) unlabelled).1
        (key_of new_ip.meta))
reconcile-IsKept_example =
    reconcile-IsKept ip_client stored_two two_store-IsConsistent two_store-IsMerging unlabelled
      (key_of new_ip.meta) (key_of new_ip.meta)

new_counter :
    counter ip_client stored_two two_store-IsConsistent two_store-IsMerging
      (reconcile ip_client (key_of new_ip.meta) unlabelled).1
      (key_of new_ip.meta)
    ≡ some []
unfolding reconcile stored_pool codes ◌==◌ lookup insert same_labels
new_counter = refl
