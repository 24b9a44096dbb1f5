-- ===== src/Ownership.antt =====
-- The machine pool entries that machines hold, over any sequence of the controllers' actions.
pub mod Exclusive
use cluster_api_provider_hyp.Base.{
  Bytes, ◌≡◌, ◌≢◌, List, [], ◌∷◌, Option, some, All, done, Outcome, Scoped,
}
use cluster_api_provider_hyp.Base.Distinct.{Removed, Distinct}
use cluster_api_provider_hyp.Api.{
  Client, Fault, Result, value, fault, Key, Labels, Cluster, Machine, HyperCluster, HyperMachine,
  HyperMachinePool, stored_label, key_of, label_cluster_name,
}
use cluster_api_provider_hyp.Scope.{MachineScope, ClusterScope}
use cluster_api_provider_hyp.Utils.{Remote}
use cluster_api_provider_hyp.MachineController.Acquire.{get_hyper_machine_pool}
use cluster_api_provider_hyp.MachineController.Acquire.Exclusive.{adopted}
use cluster_api_provider_hyp.MachineController.Release.{do_clean_hyper_machine_pool}
use cluster_api_provider_hyp.MachineController.Release.Freed.{ref_key}
use cluster_api_provider_hyp.ClusterController.Endpoint.{get_api_endpoint_from_hmp}

-- A machine and an entry that it was given.
pub record Holding : Type 0 where
  pub machine : Key
  pub entry : Key

abbrev pub entries : List Holding → List Key
entries [] = []
entries (h ∷ l) = h.entry ∷ entries l

-- What machines were given, with the server's consent, and have not given back.
pub record System (World : Type 0) : Type 0 where
  pub world : World
  pub held : List Holding

module _ {World : Type 0} (stored : World → Key → Option HyperMachinePool) where
  abbrev pub cluster_label : World → Key → Option Bytes
  cluster_label w k =
      stored_label (λ (p : HyperMachinePool). p.meta) (stored w k) label_cluster_name

  abbrev pub IsTaken : World → Key → Type 0
  IsTaken w k = (name : Bytes) × (cluster_label w k ≡ some name) × (name ≢ [])

  -- No entry is held by two machines, and every entry that is held carries a cluster's name.
  pub record IsOwned (s : System World) : Type 0 where
    pub distinct : Distinct (entries s.held)
    pub taken : All (IsTaken s.world) (entries s.held)

module _ {World Conn Session : Type 0} (remote : Remote World Conn Session) (client : Client World)
    (stored : World → Key → Option HyperMachinePool) where
  -- A machine takes an entry and the server accepts the adoption, so the machine holds the entry; or
  -- the server refuses it, so the machine refers to an entry that it does not hold. A machine that is
  -- deleted gives back the entry that it refers to, whatever comes of it: it holds the entry, or no
  -- machine does. The cluster controller sets an entry aside for the control plane. Anything else leaves
  -- the cluster labels alone. No step is the deletion of a machine that refers to an entry which
  -- another machine holds, as after a refused adoption or where a deletion is reconciled again.
  pub data Step (s t : System World) : Type 0 where
    acquires :
        (scope : MachineScope World) (hm hm' : HyperMachine) (p r : HyperMachinePool) (m : Labels)
        → scope.client ≡ client
        → scope.cluster.meta.name ≢ []
        → get_hyper_machine_pool scope (record { world = s.world; object = hm })
          ≡ (done (some p), record { world = t.world; object = hm' })
        → p.meta.labels ≡ some m
        → client.pools.patch s.world p (adopted scope p m) ≡ (value r, t.world)
        → t.held ≡ record { machine = key_of hm.meta; entry = key_of p.meta } ∷ s.held
        → Step s t
    refused :
        (scope : MachineScope World) (hm hm' : HyperMachine) (p : HyperMachinePool) (m : Labels)
        (e : Fault)
        → scope.client ≡ client
        → get_hyper_machine_pool scope (record { world = s.world; object = hm })
          ≡ (done (some p), record { world = t.world; object = hm' })
        → p.meta.labels ≡ some m
        → client.pools.patch s.world p (adopted scope p m) ≡ (fault e, t.world)
        → t.held ≡ s.held
        → Step s t
    releases :
        (hm : HyperMachine)
        → (do_clean_hyper_machine_pool remote client hm s.world).1 ≡ t.world
        → Removed (record { machine = key_of hm.meta; entry = ref_key hm }) s.held t.held
        → Step s t
    frees :
        (hm : HyperMachine)
        → (do_clean_hyper_machine_pool remote client hm s.world).1 ≡ t.world
        → All (λ h. h.entry ≢ ref_key hm) s.held
        → t.held ≡ s.held
        → Step s t
    sets_aside :
        (scope : ClusterScope World) (hc : HyperCluster)
        → scope.client ≡ client
        → (get_api_endpoint_from_hmp scope (record { world = s.world; object = hc })).1.world
          ≡ t.world
        → t.held ≡ s.held
        → Step s t
    other :
        ((k : Key) → cluster_label stored t.world k ≡ cluster_label stored s.world k)
        → t.held ≡ s.held
        → Step s t

  pub data Reach (s : System World) : System World → Type 0 where
    start : Reach s s
    next : {t u : System World} → Reach s t → Step t u → Reach s u
