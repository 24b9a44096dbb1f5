-- ===== src/Turns.antt =====
-- The four controllers together: whole reconciles, one after another in any order.
pub mod Change
pub mod Machines
pub mod Releases
pub mod Clusters
pub mod Validates
pub mod Pools
pub mod Whole
pub mod Handover
use cluster_api_provider_hyp.Base.{◌≡◌, Option}
use cluster_api_provider_hyp.Api.{Client, Key, HyperMachinePool}
use cluster_api_provider_hyp.Utils.{Remote}
use cluster_api_provider_hyp.MachineController.Handler as MachineHandler
use cluster_api_provider_hyp.ClusterController.Handler as ClusterHandler
use cluster_api_provider_hyp.PoolController.Handler as PoolHandler
use cluster_api_provider_hyp.PoolController.Ips as IpHandler
use cluster_api_provider_hyp.Ownership.{cluster_label}

module _ {World Conn Session : Type 0} (remote : Remote World Conn Session) (client : Client World)
    (stored : World → Key → Option HyperMachinePool) where
  -- One controller handles one request from beginning to end, whether it returns, panics or ends the
  -- process; or something else happens that leaves the cluster labels alone.
  pub data Turn (w w' : World) : Type 0 where
    machine : (key : Key) → (MachineHandler.reconcile remote client key w).1 ≡ w' → Turn w w'
    cluster : (key : Key) → (ClusterHandler.reconcile client key w).1 ≡ w' → Turn w w'
    machine_pool : (key : Key) → (PoolHandler.reconcile remote client key w).1 ≡ w' → Turn w w'
    ip_pool : (key : Key) → (IpHandler.reconcile client key w).1 ≡ w' → Turn w w'
    elsewhere : ((k : Key) → cluster_label stored w' k ≡ cluster_label stored w k) → Turn w w'

  pub data Turns (w : World) : World → Type 0 where
    start : Turns w w
    next : {u v : World} → Turns w u → Turn u v → Turns w v
