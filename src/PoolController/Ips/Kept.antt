-- ===== src/PoolController/Ips/Kept.antt =====
-- What a whole reconcile of an IP does to the counters that are stored.
use cluster_api_provider_hyp.Base.{
  Bytes, ◌≡◌, ◌≢◌, refl, ◌∙◌, ◌⊎◌, inl, inr, [], Option, Option-cases, none, some,
}
use cluster_api_provider_hyp.Api.{
  Client, Fault, not_found, failure, Result, value, fault, Key, HyperIpPool, lookup, text_or_empty,
  key_of, IsConsistent, IsMerging, stored_label, label_hyper_ip_pool,
}
use cluster_api_provider_hyp.PoolController.Ips.{
  init_ip_pool, close_ip_pool, reconcile_helped, reconcile_read, reconcile,
}
use cluster_api_provider_hyp.PoolController.Ips.Labelled.{init_ip_pool-IsIdempotent}

init_ip_pool-key : (hip : HyperIpPool) → key_of (init_ip_pool hip).meta ≡ key_of hip.meta
unfolding init_ip_pool
init_ip_pool-key hip = elim (Option-cases hip.meta.labels) [
  | inl nil ↦ simp (nil, init_ip_pool)
  | inr (m, e) ↦ elim (Option-cases (lookup label_hyper_ip_pool m)) [
    | inl missing ↦ simp (e, missing, init_ip_pool)
    | inr (v, has) ↦ simp (e, has, init_ip_pool)
  ]
]

-- The counter is as it was, or there was none and now there is an empty one.
abbrev pub IsKept : Option Bytes → Option Bytes → Type 0
IsKept old new = (new ≡ old) ⊎ ((old ≡ none) × (new ≡ some []))

written :
    (own new : Option Bytes)
    → new ≡ some (text_or_empty own)
    → new ≢ own
    → (own ≡ none) × (new ≡ some [])
written none new e differs = (refl, e)
written (some v) new e differs = absurd (differs e)

module _ {World : Type 0} (client : Client World) (stored : World → Key → Option HyperIpPool)
    (consistent : IsConsistent (λ (x : HyperIpPool). x.meta) client.ip_pools stored)
    (merging : IsMerging (λ (x : HyperIpPool). x.meta) client.ip_pools stored) where
  abbrev pub counter : World → Key → Option Bytes
  counter w k = stored_label (λ (x : HyperIpPool). x.meta) (stored w k) label_hyper_ip_pool

  helped :
      (w : World) (k key : Key) (hip : HyperIpPool) (refused : Option Fault)
      → stored w key ≡ some hip
      → IsKept (counter w k) (counter (reconcile_helped client hip refused w).1 k)
  unfolding reconcile_helped close_ip_pool
  helped w k key hip (some e) here = inl refl
  helped w k key hip none here =
      elim (merging.persist_label w hip (init_ip_pool hip) k label_hyper_ip_pool) [
        | inl same ↦ inl same
        | inr (at_k, differs, now) ↦
            let (none_before, empty) = written _ _ (init_ip_pool-IsIdempotent hip).0 differs in
            let here_k : stored w k ≡ some hip =
              rw (at_k, init_ip_pool-key hip, consistent.stored_key w key here) here in
            inr (rw here_k none_before, now ∙ empty)
      ]

  was_read :
      (w : World) (k key : Key) (r : Result HyperIpPool)
      → client.ip_pools.get w key ≡ r
      → IsKept (counter w k) (counter (reconcile_read client r w).1 k)
  unfolding reconcile_read
  was_read w k key (fault (not_found text)) got = inl refl
  was_read w k key (fault (failure text)) got = inl refl
  was_read w k key (value hip) got = helped w k key hip _ (consistent.get_sound w key got)

  -- A whole reconcile of an IP, whatever its outcome, leaves every counter that is stored as it is,
  -- so that it takes no IP from a cluster, and at most writes the empty counter of a free IP where there
  -- was none.
  pub reconcile-IsKept :
      (w : World) (k key : Key) → IsKept (counter w k) (counter (reconcile client key w).1 k)
  unfolding reconcile
  reconcile-IsKept w k key = was_read w k key _ refl
