-- ===== src/Turns/Whole.antt =====
-- What a whole reconcile of each controller does to the cluster labels.
use cluster_api_provider_hyp.Base.{Bytes, ◌≡◌, refl, sym, ◌∙◌, Option, none, some, call, must, pure}
use mathlib.Core.Option.{some-injective}
use cluster_api_provider_hyp.Base.Tracked.{
  Keeps, pure-Keeps, must-Keeps, Moves, Keeps-Moves, >>=-Moves, option-Moves, of_world,
  in_scope-Moves,
}
use cluster_api_provider_hyp.Api.{
  Client, Fault, not_found, failure, Result, value, fault, Key, Machine, Cluster, HyperCluster,
  HyperMachine, HyperIpPool, HyperMachinePool, IsConsistent, IsApart, IsMerging,
}
use cluster_api_provider_hyp.Scope.{
  MachineScope, MachineScopeParams, new_machine_scope, ClusterScope, new_cluster_scope,
}
use cluster_api_provider_hyp.Scope.ClusterDefs.Given.{new_cluster_scope-client}
use cluster_api_provider_hyp.Scope.MachineDefs.Given.{new_machine_scope-IsGiven}
use cluster_api_provider_hyp.Utils.{Remote}
use cluster_api_provider_hyp.Utils.Ssh.Silent.{IsSilent}
use cluster_api_provider_hyp.MachineController.Release.{reconcile_machine_delete}
use cluster_api_provider_hyp.MachineController.Handler as Machines
use cluster_api_provider_hyp.ClusterController.Handler as Clusters
use cluster_api_provider_hyp.PoolController.Handler as Pools
use cluster_api_provider_hyp.PoolController.Ips as Ips
use cluster_api_provider_hyp.Turns.Change.{Change, stays, unchanged, label_at, apart_at}
use cluster_api_provider_hyp.Turns.Machines.{reconcile_in_scope-Moves}
use cluster_api_provider_hyp.Turns.Releases.{reconcile_machine_delete-Moves}
use cluster_api_provider_hyp.Turns.Clusters.{reconcile_in_scope-Keeps}
use cluster_api_provider_hyp.Turns.Pools as PoolTurns

module _ {World Conn Session : Type 0} (remote : Remote World Conn Session) (client : Client World)
    (stored : World → Key → Option HyperMachinePool)
    (consistent : IsConsistent (λ (x : HyperMachinePool). x.meta) client.pools stored)
    (silent : IsSilent remote stored) (apart : IsApart client stored)
    (merging : IsMerging (λ (x : HyperMachinePool). x.meta) client.pools stored) (k : Key) where
  abbrev label : World → Option Bytes
  label = label_at stored k

  -- A handler that returns at once.
  returns : (r : Option Fault) → Moves label Change (pure r)
  returns r = Keeps-Moves label Change unchanged (pure r) (pure-Keeps label r)

  -- A read from the world.
  reads : {A : Type 0} (f : World → A) → Keeps label (call λ w. (f w, w))
  reads f = record { same = λ w. refl }

  machine_opened :
      (hm : HyperMachine) (params : MachineScopeParams World) (v : World)
      (made : Result (MachineScope World))
      → params.client ≡ some client
      → new_machine_scope params v ≡ made
      → Moves label Change (Machines.reconcile_opened remote hm made)
  unfolding Machines.reconcile_opened
  machine_opened hm params v (fault e) given e_made = returns _
  machine_opened hm params v (value scope) given made =
      let same : scope.client ≡ client =
        some-injective _ _
          (sym ((new_machine_scope-IsGiven params v scope).0 made).client ∙ given) in
      in_scope-Moves label Change hm (Machines.reconcile_in_scope remote scope)
        (reconcile_in_scope-Moves remote scope stored (rw same consistent) silent (rw same apart) k)

  machine_between :
      (hm : HyperMachine) (machine : Machine) (cluster : Cluster) (r : Result HyperCluster)
      → Moves label Change (Machines.reconcile_between remote client hm machine cluster r)
  unfolding Machines.reconcile_between
  machine_between hm machine cluster (fault e) = returns _
  machine_between hm machine cluster (value hc) = record {
    moves = λ w. (machine_opened hm _ w _ refl refl).moves w;
  }

  machine_inside :
      (hm : HyperMachine) (machine : Machine) (r : Result Cluster)
      → Moves label Change (Machines.reconcile_inside remote client hm machine r)
  unfolding Machines.reconcile_inside
  machine_inside hm machine (fault e) = returns _
  machine_inside hm machine (value cluster) =
      >>=-Moves label Change unchanged (must cluster.infrastructure_ref) _
        (must-Keeps label cluster.infrastructure_ref)
        (λ ref.
          let key : Key = record { namespace = ref.namespace; name = ref.name } in
          >>=-Moves label Change unchanged (call λ w. (client.hyper_clusters.get w key, w)) _
            (reads λ w. client.hyper_clusters.get w key) (machine_between hm machine cluster))

  machine_owned :
      (hm : HyperMachine) (r : Result (Option Machine))
      → Moves label Change (Machines.reconcile_owned remote client hm r)
  unfolding Machines.reconcile_owned
  machine_owned hm (fault e) = returns _
  machine_owned hm (value none) = returns _
  machine_owned hm (value (some machine)) =
      >>=-Moves label Change unchanged
        (call λ w. (client.get_cluster_from_metadata w machine.meta, w)) _
        (reads λ w. client.get_cluster_from_metadata w machine.meta) (machine_inside hm machine)

  machine_read :
      (r : Result HyperMachine) → Moves label Change (Machines.reconcile_read remote client r)
  unfolding Machines.reconcile_read
  machine_read (fault (not_found text)) = returns _
  machine_read (fault (failure text)) = returns _
  machine_read (value hm) =
      option-Moves label Change hm.meta.deletion_timestamp _ _
        (>>=-Moves label Change unchanged (call λ w. (client.get_owner_machine w hm.meta, w)) _
          (reads λ w. client.get_owner_machine w hm.meta) (machine_owned hm))
        (λ _.
          in_scope-Moves label Change hm (reconcile_machine_delete remote client)
            (reconcile_machine_delete-Moves remote client stored consistent silent apart k))

  -- A reconcile of a machine.
  pub machine-Moves : (key : Key) → Moves label Change (Machines.reconcile remote client key)
  unfolding Machines.reconcile
  machine-Moves key =
      >>=-Moves label Change unchanged (call λ w. (client.hyper_machines.get w key, w)) _
        (reads λ w. client.hyper_machines.get w key) machine_read

  cluster_opened :
      (hc : HyperCluster) (cluster : Option Cluster) (v : World)
      (made : Result (ClusterScope World))
      → new_cluster_scope (record { client = client; cluster = cluster; hyper_cluster = some hc }) v
        ≡ made
      → Moves label Change (Clusters.reconcile_opened hc made)
  unfolding Clusters.reconcile_opened
  cluster_opened hc cluster v (fault e) made = returns _
  cluster_opened hc cluster v (value scope) made =
      let same : scope.client ≡ client =
        new_cluster_scope-client client cluster (some hc) v scope made in
      in_scope-Moves label Change hc (Clusters.reconcile_in_scope scope) (
        Keeps-Moves (of_world label) Change unchanged (Clusters.reconcile_in_scope scope)
          (reconcile_in_scope-Keeps scope stored (rw same consistent) (rw same apart) k))

  cluster_owned :
      (hc : HyperCluster) (r : Result (Option Cluster))
      → Moves label Change (Clusters.reconcile_owned client hc r)
  unfolding Clusters.reconcile_owned
  cluster_owned hc (fault e) = returns _
  cluster_owned hc (value none) = returns _
  cluster_owned hc (value (some cluster)) = record {
    moves = λ w. (cluster_opened hc (some cluster) w _ refl).moves w;
  }

  cluster_read : (r : Result HyperCluster) → Moves label Change (Clusters.reconcile_read client r)
  unfolding Clusters.reconcile_read
  cluster_read (fault (not_found text)) = returns _
  cluster_read (fault (failure text)) = returns _
  cluster_read (value hc) =
      >>=-Moves label Change unchanged (call λ w. (client.get_owner_cluster w hc.meta, w)) _
        (reads λ w. client.get_owner_cluster w hc.meta) (cluster_owned hc)

  -- A reconcile of a cluster.
  pub cluster-Moves : (key : Key) → Moves label Change (Clusters.reconcile client key)
  unfolding Clusters.reconcile
  cluster-Moves key =
      >>=-Moves label Change unchanged (call λ w. (client.hyper_clusters.get w key, w)) _
        (reads λ w. client.hyper_clusters.get w key) cluster_read

  pool_read :
      (r : Result HyperMachinePool) → Moves label Change (Pools.reconcile_read remote client r)
  unfolding Pools.reconcile_read
  pool_read (fault (not_found text)) = returns _
  pool_read (fault (failure text)) = returns _
  pool_read (value hmp) =
      >>=-Moves label Change unchanged (call λ w. (client.pools.new_helper w hmp, w)) _
        (reads λ w. client.pools.new_helper w hmp)
        (PoolTurns.reconcile_helped-Moves remote client stored silent merging k hmp)

  -- A reconcile of an entry of the machine pool.
  pub pool-Moves : (key : Key) → Moves label Change (Pools.reconcile remote client key)
  unfolding Pools.reconcile
  pool-Moves key =
      >>=-Moves label Change unchanged (call λ w. (client.pools.get w key, w)) _
        (reads λ w. client.pools.get w key) pool_read

  ip_helped :
      (hip : HyperIpPool) (refused : Option Fault)
      → Moves label Change (Ips.reconcile_helped client hip refused)
  unfolding Ips.reconcile_helped Ips.close_ip_pool
  ip_helped hip (some e) = returns _
  ip_helped hip none = record {
    moves = λ w. stays ((apart_at stored k client apart).ip_persist w hip (Ips.init_ip_pool hip));
  }

  ip_read : (r : Result HyperIpPool) → Moves label Change (Ips.reconcile_read client r)
  unfolding Ips.reconcile_read
  ip_read (fault (not_found text)) = returns _
  ip_read (fault (failure text)) = returns _
  ip_read (value hip) =
      >>=-Moves label Change unchanged (call λ w. (client.ip_pools.new_helper w hip, w)) _
        (reads λ w. client.ip_pools.new_helper w hip) (ip_helped hip)

  -- A reconcile of an IP.
  pub ip-Moves : (key : Key) → Moves label Change (Ips.reconcile client key)
  unfolding Ips.reconcile
  ip-Moves key =
      >>=-Moves label Change unchanged (call λ w. (client.ip_pools.get w key, w)) _
        (reads λ w. client.ip_pools.get w key) ip_read
