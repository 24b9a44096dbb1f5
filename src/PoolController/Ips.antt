-- ===== src/PoolController/Ips.antt =====
-- controllers/exp.infrastructure/hyperippool_controller.go
pub mod Labelled
pub mod Kept
use cluster_api_provider_hyp.Base.{
  [], ◌∷◌, Option, none, some, M, pure, call, with_defer, in_scope, with_object, ◌>>=◌, ◌>>◌,
  Scoped,
}
use cluster_api_provider_hyp.Api.{
  Client, Fault, Result, not_found, failure, value, fault, Key, lookup, insert, HyperIpPool,
  ip_pool_with_labels, label_hyper_ip_pool,
}

-- The label is written if it is missing.
unfoldable pub init_ip_pool : HyperIpPool → HyperIpPool
init_ip_pool hip = elim hip.meta.labels [
  | none ↦ ip_pool_with_labels hip ((label_hyper_ip_pool, []) ∷ [])
  | some m ↦ elim (lookup label_hyper_ip_pool m) [
    | none ↦ ip_pool_with_labels hip (insert label_hyper_ip_pool [] m)
    | some _ ↦ hip
  ]
]

module _ {World : Type 0} (client : Client World) where
  -- `Close`, with the object that the helper remembers.
  unfoldable pub close_ip_pool : HyperIpPool → M (Scoped World HyperIpPool) (Option Fault)
  close_ip_pool helper = call λ s.
      let (err, w) = client.ip_pools.persist s.world helper s.object in
      (err, record s { world = w })

  -- With the patch helper, whose `Close` runs on every way out.
  unfoldable pub reconcile_helped : HyperIpPool → Option Fault → M World (Option Fault)
  unfolding init_ip_pool close_ip_pool
  reconcile_helped hip (some e) = pure (some e)
  reconcile_helped hip none =
      in_scope hip
        (with_defer (close_ip_pool hip >>= λ _. pure tt) (do with_object init_ip_pool; pure none))

  -- With the entry that was read.
  unfoldable pub reconcile_read : Result HyperIpPool → M World (Option Fault)
  unfolding reconcile_helped
  reconcile_read (fault (not_found text)) = pure none
  reconcile_read (fault (failure text)) = pure (some (failure text))
  reconcile_read (value hip) = do
    refused ← call λ w. (client.ip_pools.new_helper w hip, w)
    reconcile_helped hip refused

  unfoldable pub reconcile : Key → M World (Option Fault)
  unfolding reconcile_read
  reconcile key = do read_hip ← call λ w. (client.ip_pools.get w key, w); reconcile_read read_hip
