-- ===== src/PoolController/Handler.antt =====
-- `Reconcile` and `Close` of controllers/exp.infrastructure/hypermachinepool_controller.go.
pub mod Validity
use cluster_api_provider_hyp.Base.{
  Bytes, codes, ◌==◌, Bool, ◌||◌, Option, none, some, M, pure, call, read, with_defer, in_scope,
  with_object, ◌>>=◌, ◌>>◌, Scoped, if◌then◌else◌,
}
use cluster_api_provider_hyp.Api.{
  Client, Fault, Result, not_found, failure, value, fault, Key, label?, text_or_empty,
  HyperMachinePool, label_hyper_machine_pool_valid,
}
use cluster_api_provider_hyp.Utils.{Remote}
use cluster_api_provider_hyp.PoolController.Validation.{init_hyper_machine_pool, valid_ssh}

-- The result of `strconv.ParseBool`, of which the error is dropped: false for what it refuses.
unfoldable pub parse_bool : Bytes → Bool
parse_bool s =
    s == codes "1"
    || s == codes "t"
    || s == codes "T"
    || s == codes "true"
    || s == codes "TRUE"
    || s == codes "True"

unfoldable pub init_unlabelled : HyperMachinePool → HyperMachinePool
unfolding init_hyper_machine_pool
init_unlabelled hmp = elim (label? label_hyper_machine_pool_valid hmp.meta.labels) [
  | none ↦ (init_hyper_machine_pool hmp).0
  | some _ ↦ hmp
]

module _ {World Conn Session : Type 0} (remote : Remote World Conn Session)
    (client : Client World) where
  unfoldable pub close_pool : HyperMachinePool → M (Scoped World HyperMachinePool) (Option Fault)
  close_pool helper = call λ s.
      let (err, w) = client.pools.persist s.world helper s.object in (err, record s { world = w })

  -- The body of the handler, on the object that was read.
  unfoldable pub validate : M (Scoped World HyperMachinePool) (Unit {0})
  validate = do
    with_object init_unlabelled
    hmp ← read λ s. s.object
    if parse_bool (text_or_empty (label? label_hyper_machine_pool_valid hmp.meta.labels))
        then pure tt
        else valid_ssh remote

  -- With the patch helper, whose `Close` runs on every way out.
  unfoldable pub reconcile_helped : HyperMachinePool → Option Fault → M World (Option Fault)
  unfolding validate close_pool
  reconcile_helped hmp (some e) = pure (some e)
  reconcile_helped hmp none =
      in_scope hmp (with_defer (close_pool hmp >>= λ _. pure tt) (do validate; pure none))

  -- With the entry that was read.
  unfoldable pub reconcile_read : Result HyperMachinePool → M World (Option Fault)
  unfolding reconcile_helped
  reconcile_read (fault (not_found text)) = pure none
  reconcile_read (fault (failure text)) = pure (some (failure text))
  reconcile_read (value hmp) = do
    refused ← call λ w. (client.pools.new_helper w hmp, w)
    reconcile_helped hmp refused

  unfoldable pub reconcile : Key → M World (Option Fault)
  unfolding reconcile_read
  reconcile key = do read_hmp ← call λ w. (client.pools.get w key, w); reconcile_read read_hmp
