-- ===== src/Manager/Start/Gate.antt =====
-- Before what the manager is started.
use cluster_api_provider_hyp.Base.{
  ◌≡◌, refl, ap, Option, Option-cases, none, exited, call, ◌⊎◌, inl, inr,
}
use cluster_api_provider_hyp.Api.{Fault, Result, value, fault}
use cluster_api_provider_hyp.Manager.Start.{
  Runtime, Flags, manager_options, hyper_machine_pool, hyper_cluster, hyper_machine, hyper_ip_pool,
  cluster_machine, or_exit, set_up_machines, set_up_clusters, set_up_pools, set_up_ip_pools,
  run_with, run_configured, main,
}

Result-cases :
    {A : Type 0} (r : Result A) → ((a : A) × (r ≡ value a)) ⊎ ((e : Fault) × (r ≡ fault e))
Result-cases (value a) = inl (a, refl)
Result-cases (fault e) = inr (e, refl)

-- The same library with another way to start the manager.
abbrev pub starting_by :
    {World Config Manager Controller Scheme : Type 0}
    → (World → Manager → Option Fault × World)
    → Runtime World Config Manager Controller Scheme
    → Runtime World Config Manager Controller Scheme
starting_by start runtime = record runtime { start = start }

module _ {World Config Manager Controller Scheme : Type 0}
    (runtime : Runtime World Config Manager Controller Scheme) where
  -- The controllers are set up: the worlds after each call, none of which gave an error.
  pub record IsSetUp (manager : Manager) (w1 w6 : World) : Type 0 where
    pub controller : Controller
    pub w2 : World
    pub w3 : World
    pub w4 : World
    pub w5 : World
    pub pools : runtime.complete w1 manager hyper_machine_pool ≡ (none, w2)
    pub clusters : runtime.complete w2 manager hyper_cluster ≡ (none, w3)
    pub machines : runtime.build w3 manager hyper_machine ≡ (value controller, w4)
    pub watched : runtime.watch w4 controller cluster_machine ≡ (none, w5)
    pub ip_pools : runtime.complete w5 manager hyper_ip_pool ≡ (none, w6)

  at_world : {A : Type 0} (r : A × World) (a : A) → r.0 ≡ a → r ≡ (a, r.1)
  at_world r a e = ap (λ x. (x, r.1)) e

  -- With a manager, the controllers are set up and the manager is started, or the program exits
  -- whatever a start would do.
  run_with-cases :
      (mgr : Manager) (w1 : World)
      → ((w6 : World) × IsSetUp mgr w1 w6
          × (run_with runtime (value mgr) w1 ≡ or_exit (call λ w. runtime.start w mgr) w6))
        ⊎ ((start : World → Manager → Option Fault × World)
            → run_with (starting_by start runtime) (value mgr) w1
              ≡ (exited, (run_with runtime (value mgr) w1).1))
  unfolding run_with set_up_pools set_up_clusters set_up_machines set_up_ip_pools
  run_with-cases mgr w1 =
      let w2 = (runtime.complete w1 mgr hyper_machine_pool).1 in
      let w3 = (runtime.complete w2 mgr hyper_cluster).1 in
      let w4 = (runtime.build w3 mgr hyper_machine).1 in
      elim (Option-cases (runtime.complete w1 mgr hyper_machine_pool).0) [
        | inr (f, e1) ↦ inr (λ start. simp e1)
        | inl e1 ↦ elim (Option-cases (runtime.complete w2 mgr hyper_cluster).0) [
          | inr (f, e2) ↦ inr (λ start. simp (e1, e2))
          | inl e2 ↦ elim (Result-cases (runtime.build w3 mgr hyper_machine).0) [
            | inr (f, e3) ↦ inr (λ start. simp (e1, e2, e3))
            | inl (c, e3) ↦
                let w5 = (runtime.watch w4 c cluster_machine).1 in
                elim (Option-cases (runtime.watch w4 c cluster_machine).0) [
                  | inr (f, e4) ↦ inr (λ start. simp (e1, e2, e3, e4))
                  | inl e4 ↦ elim (Option-cases (runtime.complete w5 mgr hyper_ip_pool).0) [
                    | inr (f, e5) ↦ inr (λ start. simp (e1, e2, e3, e4, e5))
                    | inl e5 ↦ inl (
                      (runtime.complete w5 mgr hyper_ip_pool).1,
                      record {
                        controller = c;
                        w2 = w2;
                        w3 = w3;
                        w4 = w4;
                        w5 = w5;
                        pools = at_world (runtime.complete w1 mgr hyper_machine_pool) none e1;
                        clusters = at_world (runtime.complete w2 mgr hyper_cluster) none e2;
                        machines = at_world (runtime.build w3 mgr hyper_machine) (value c) e3;
                        watched = at_world (runtime.watch w4 c cluster_machine) none e4;
                        ip_pools = at_world (runtime.complete w5 mgr hyper_ip_pool) none e5;
                      },
                      simp (e1, e2, e3, e4, e5),
                    )
                  ]
                ]
          ]
        ]
      ]

  -- The program starts its manager only after all is set up: either the configuration was there, the
  -- manager was created with the options, the controllers of the machine pool, of clusters, of machines
  -- (with their watch on the machines of the cluster API) and of the IP pool were set up one after the
  -- other without an error, and then the program comes to what the start of the manager comes to, an
  -- error of it making the program exit; or the program exits in a world that does not depend on what a
  -- start of the manager does, since it is not started.
  pub main-IsGated :
      (scheme : Scheme) (flags : Flags) (w : World)
      → ((config : Config) × (mgr : Manager) × (w0 : World) × (w1 : World) × (w6 : World)
          × (runtime.get_config w ≡ (value config, w0))
          × (runtime.new_manager w0 config (manager_options scheme flags) ≡ (value mgr, w1))
          × IsSetUp mgr w1 w6
          × (main runtime scheme flags w ≡ or_exit (call λ t. runtime.start t mgr) w6))
        ⊎ ((start : World → Manager → Option Fault × World)
            → main (starting_by start runtime) scheme flags w
              ≡ (exited, (main runtime scheme flags w).1))
  unfolding main run_configured
  main-IsGated scheme flags w =
      let w0 = (runtime.get_config w).1 in
      elim (Result-cases (runtime.get_config w).0) [
        | inr (f, e) ↦ inr (λ start. simp (e, run_configured))
        | inl (config, e) ↦
            let options = manager_options scheme flags in
            let w1 = (runtime.new_manager w0 config options).1 in
            elim (Result-cases (runtime.new_manager w0 config options).0) [
              | inr (f, e0) ↦ inr (λ start. simp (e, e0, run_with))
              | inl (mgr, e0) ↦ elim (run_with-cases mgr w1) [
                | inr stopped ↦ inr (λ start. simp (e, e0, stopped start))
                | inl (w6, set_up, run) ↦ inl (
                  config,
                  mgr,
                  w0,
                  w1,
                  w6,
                  at_world (runtime.get_config w) (value config) e,
                  at_world (runtime.new_manager w0 config options) (value mgr) e0,
                  set_up,
                  simp (e, e0, run),
                )
              ]
            ]
      ]
