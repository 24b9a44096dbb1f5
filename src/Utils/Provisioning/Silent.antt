-- ===== src/Utils/Provisioning/Silent.antt =====
-- What a provisioning leaves alone: the part of the world that the SSH library and the writes to the
-- IP pool leave alone.
use cluster_api_provider_hyp.Base.{
  Bytes, codes, Bool, true, false, List, [], ◌∷◌, ◌++◌, none, some, refl, M, pure, must, drop?,
  ◌>>=◌, panic,
}
use cluster_api_provider_hyp.Base.Tracked.{Keeps, option-Keeps, >>=-Keeps, pure-Keeps, must-Keeps}
use cluster_api_provider_hyp.Api.{Result, value, fault, HyperMachinePool, IsApart}
use cluster_api_provider_hyp.Scope.{MachineScope}
use cluster_api_provider_hyp.Utils.Outside.{Remote}
use cluster_api_provider_hyp.Utils.CloudInit.{CloudConfig, WriteFile, Parse, parsed, from_bytes}
use cluster_api_provider_hyp.Utils.Ssh.{ssh_connect, send_commands, send, close, scp_file}
use cluster_api_provider_hyp.Utils.Ssh.Silent.{
  IsSilent, ssh_connect-Keeps, send_commands-Keeps, send-Keeps, close-Keeps, scp_file-Keeps,
}
use cluster_api_provider_hyp.Utils.Priority.{hip_num2_pri}
use cluster_api_provider_hyp.Utils.Priority.Silent.{hip_num2_pri-Keeps}
use cluster_api_provider_hyp.Utils.Provisioning.{
  Distro, Report, write_files, run_commands, run_script, set_up_keepalived, install, bootstrap,
  provision_on, provision,
}

module _ {World Conn Session V : Type 0} (remote : Remote World Conn Session) (view : World → V)
    (silent : IsSilent remote view) where
  -- One command after another.
  send_then :
      {A : Type 0} (conn : Conn) (cmd : Bytes) (m : M World A)
      → Keeps view m
      → Keeps view (send remote conn cmd >>= λ _. m)
  send_then conn cmd m h =
      >>=-Keeps view (send remote conn cmd) (λ _. m) (send-Keeps remote view silent conn cmd)
        (λ _. h)

  write_files-Keeps :
      (conn : Conn) (host : Bytes) (files : List WriteFile)
      → Keeps view (write_files remote conn host files)
  unfolding write_files
  write_files-Keeps conn host [] = pure-Keeps view none
  write_files-Keeps conn host (wf ∷ rest) =
      >>=-Keeps view (send_commands remote conn _) _ (send_commands-Keeps remote view silent conn _)
        (λ r.
          option-Keeps view r.1 _ _
            (send_then conn _ (write_files remote conn host rest)
              (write_files-Keeps conn host rest))
            (λ e. pure-Keeps view (some (e, r.0))))

  run_commands-Keeps :
      (conn : Conn) (cmds : List Bytes) → Keeps view (run_commands remote conn cmds)
  unfolding run_commands
  run_commands-Keeps conn [] = pure-Keeps view none
  run_commands-Keeps conn (rc ∷ rest) =
      >>=-Keeps view (send_commands remote conn (rc ∷ [])) _
        (send_commands-Keeps remote view silent conn (rc ∷ []))
        (λ r.
          option-Keeps view r.1 _ _ (run_commands-Keeps conn rest)
            (λ e. pure-Keeps view (some (e, r.0))))

  run_script-Keeps :
      (conn : Conn) (d : Distro) (name : Bytes) (config_map : List (Bytes × Bytes))
      → Keeps view (run_script remote conn d name config_map)
  unfolding run_script
  run_script-Keeps conn d name config_map = send_then conn _ _ (
      >>=-Keeps view (scp_file remote conn (d.scripts ++ name) (codes "/tmp/" ++ name) config_map) _
        (scp_file-Keeps remote view silent conn (d.scripts ++ name) (codes "/tmp/" ++ name)
          config_map)
        (λ _. send_then conn _ _ (send-Keeps remote view silent conn _)))

module _ {World Conn Session V : Type 0} (remote : Remote World Conn Session)
    (scope : MachineScope World) (view : World → V) (silent : IsSilent remote view)
    (apart : IsApart scope.client view) where
  set_up_keepalived-Keeps :
      (d : Distro) (conn : Conn) (hmp : HyperMachinePool) (master : Bool)
      → Keeps view (set_up_keepalived remote scope d conn hmp master)
  unfolding set_up_keepalived
  set_up_keepalived-Keeps d conn hmp false = pure-Keeps view tt
  set_up_keepalived-Keeps d conn hmp true =
      >>=-Keeps view (hip_num2_pri scope.client scope.cluster scope.hyper_cluster) _
        (hip_num2_pri-Keeps scope.client scope.cluster scope.hyper_cluster view apart)
        (λ priority. run_script-Keeps remote view silent conn d _ _)

  install-Keeps : (d : Distro) (conn : Conn) → Keeps view (install remote scope d conn)
  unfolding install
  install-Keeps d conn =
      >>=-Keeps view (run_script remote conn d (codes "docker.sh") []) _
        (run_script-Keeps remote view silent conn d _ [])
        (λ _.
          >>=-Keeps view (must scope.machine.version) _ (must-Keeps view scope.machine.version)
            (λ version.
              >>=-Keeps view (must (drop? 1 version)) _ (must-Keeps view (drop? 1 version))
                (λ number.
                  >>=-Keeps view
                    (run_script remote conn d (codes "k8s.sh") ((codes "$1", number) ∷ [])) _
                    (run_script-Keeps remote view silent conn d _ _)
                    (λ _. send_then remote view silent conn _ _ (
                      send_then remote view silent conn _ _ (
                        send_then remote view silent conn _ _ (
                          send_then remote view silent conn _ _
                            (send-Keeps remote view silent conn _))))))))

  bootstrap-Keeps :
      (d : Distro) (conn : Conn) (hmp : HyperMachinePool) (config : CloudConfig)
      → Keeps view (bootstrap remote scope d conn hmp config)
  unfolding bootstrap
  bootstrap-Keeps d conn hmp config =
      >>=-Keeps view (write_files remote conn hmp.status.host_name config.write_files) _
        (write_files-Keeps remote view silent conn hmp.status.host_name config.write_files)
        (λ written.
          option-Keeps view written _ _
            (send_then remote view silent conn _ _ (
              >>=-Keeps view (run_commands remote conn config.run_cmd) _
                (run_commands-Keeps remote view silent conn config.run_cmd)
                (λ ran.
                  option-Keeps view ran _ _
                    (>>=-Keeps view (close remote conn) _ (close-Keeps remote view silent conn)
                      (λ _. pure-Keeps view none))
                    (λ report. pure-Keeps view (some report)))))
            (λ report. pure-Keeps view (some report)))

  provision_on-Keeps :
      (d : Distro) (conn : Conn) (hmp : HyperMachinePool) (config : CloudConfig) (master : Bool)
      → Keeps view (provision_on remote scope d conn hmp config master)
  unfolding provision_on
  provision_on-Keeps d conn hmp config master =
      >>=-Keeps view (set_up_keepalived remote scope d conn hmp master) _
        (set_up_keepalived-Keeps d conn hmp master)
        (λ _.
          >>=-Keeps view (install remote scope d conn) _ (install-Keeps d conn)
            (λ _. bootstrap-Keeps d conn hmp config))

  -- What runs once the cloud config is read.
  connected-Keeps :
      (d : Distro) (hmp : HyperMachinePool) (config : CloudConfig) (master : Bool)
      (opened : Result Conn)
      → Keeps view (elim opened as (λ _. M World Report) [
        | fault e ↦ pure (some (e, codes "connection error"))
        | value c ↦ provision_on remote scope d c hmp config master
      ])
  connected-Keeps d hmp config master (fault e) =
      pure-Keeps view (some (e, codes "connection error"))
  connected-Keeps d hmp config master (value c) = provision_on-Keeps d c hmp config master

  parsed-Keeps :
      (d : Distro) (hmp : HyperMachinePool) (master : Bool) (config : Parse)
      → Keeps view (elim config as (λ _. M World Report) [
        | parsed c ↦ must hmp.spec.ssh >>= λ ssh_info.
            ssh_connect remote ssh_info.address ssh_info.ssh_id ssh_info.ssh_pw >>= λ conn.
            elim conn as (λ _. M World Report) [
              | fault e ↦ pure (some (e, codes "connection error"))
              | value c0 ↦ provision_on remote scope d c0 hmp c master
            ]
        | _ ↦ panic
      ])
  parsed-Keeps d hmp master (parsed config) =
      >>=-Keeps view (must hmp.spec.ssh) _ (must-Keeps view hmp.spec.ssh) (λ info.
        >>=-Keeps view (ssh_connect remote info.address info.ssh_id info.ssh_pw) _
          (ssh_connect-Keeps remote view silent info.address info.ssh_id info.ssh_pw)
          (connected-Keeps d hmp config master))
  parsed-Keeps d hmp master _ = record { same = λ w. refl }

  -- A provisioning, whatever it comes to.
  pub provision-Keeps :
      (d : Distro) (hmp : HyperMachinePool) (contents : Bytes) (master : Bool)
      → Keeps view (provision remote scope d hmp contents master)
  unfolding provision
  provision-Keeps d hmp contents master = parsed-Keeps d hmp master (from_bytes contents)
