-- ===== src/Utils/Provisioning/Refined.antt =====
-- The provisioning functions run the list of steps.
use cluster_api_provider_hyp.Base.{
  Bytes, codes, ◌≡◌, refl, sym, ◌∙◌, Bool, true, false, List, [], ◌∷◌, ◌++◌, none, some, M, pure,
  done, ◌>>=◌, ◌>>◌, drop?,
}
use mathlib.Core.List.{map}
use cluster_api_provider_hyp.Base.Sequencing.{>>=-assoc, >>=-ext, >>=-congr}
use cluster_api_provider_hyp.Base.Split.{replace_all}
use cluster_api_provider_hyp.Api.{value, HyperMachinePool, SshInfo}
use cluster_api_provider_hyp.Scope.{MachineScope}
use cluster_api_provider_hyp.Utils.Outside.{Remote}
use cluster_api_provider_hyp.Utils.Ssh.{ssh_connect, send, scp_file, close}
use cluster_api_provider_hyp.Utils.Priority.{hip_num2_pri}
use cluster_api_provider_hyp.Utils.CloudInit.{CloudConfig, parsed, from_bytes}
use cluster_api_provider_hyp.Utils.Provisioning.{
  Report, Distro, write_files, run_commands, run_script, set_up_keepalived, install, bootstrap,
  provision_on, provision, keepalived_map,
}
use cluster_api_provider_hyp.Utils.Provisioning.Plan.{
  Step, quiet, checked, script_steps, file_steps, clean_steps, node_steps, run_steps, go_on,
  run_steps-append, write_files-steps, run_commands-steps,
}

module _ {World Conn Session : Type 0} (remote : Remote World Conn Session) where
  run_script-then :
      (conn : Conn) (d : Distro) (name : Bytes) (config_map : List (Bytes × Bytes))
      (rest : List Step) (w : World)
      → (run_script remote conn d name config_map >> run_steps remote conn rest) w
        ≡ run_steps remote conn (script_steps d name config_map ++ rest) w
  unfolding run_script run_steps
  run_script-then conn d name config_map rest w =
      >>=-assoc (send remote conn _) _ (λ _. run_steps remote conn rest) w
      ∙ >>=-ext (send remote conn _) _ _ w (λ _ t.
        >>=-assoc (scp_file remote conn _ _ config_map) _ (λ _. run_steps remote conn rest) t
        ∙ >>=-ext (scp_file remote conn _ _ config_map) _ _ t
            (λ _ u. >>=-assoc (send remote conn _) _ (λ _. run_steps remote conn rest) u))

  -- The five commands of the clean-up.
  clean : Conn → Distro → M World (Unit {0})
  clean conn d = do
    send remote conn (d.rm_dir ++ codes "/etc/kubernetes/pki")
    send remote conn (d.rm ++ codes "/tmp/kubeadm.yaml")
    send remote conn (d.rm ++ codes "/tmp/kubeadm-join-config.yaml")
    send remote conn (codes "mkdir -p /etc/kubernetes/pki")
    send remote conn (codes "mkdir -p /etc/kubernetes/pki/etcd")

  clean-then :
      (conn : Conn) (d : Distro) (rest : List Step) (w : World)
      → (clean conn d >> run_steps remote conn rest) w
        ≡ run_steps remote conn (clean_steps d ++ rest) w
  unfolding clean run_steps
  clean-then conn d rest w =
      >>=-assoc (send remote conn _) _ (λ _. run_steps remote conn rest) w
      ∙ >>=-ext (send remote conn _) _ _ w (λ _ t.
        >>=-assoc (send remote conn _) _ (λ _. run_steps remote conn rest) t
        ∙ >>=-ext (send remote conn _) _ _ t (λ _ u.
          >>=-assoc (send remote conn _) _ (λ _. run_steps remote conn rest) u
          ∙ >>=-ext (send remote conn _) _ _ u
              (λ _ v. >>=-assoc (send remote conn _) _ (λ _. run_steps remote conn rest) v)))

  -- What is left when all steps ran.
  abbrev pub closing : Conn → M World Report
  closing conn = do close remote conn; pure none

  commands-then :
      (conn : Conn) (cmds : List Bytes) (w : World)
      → (run_commands remote conn cmds >>= go_on remote (closing conn)) w
        ≡ (run_steps remote conn (map checked cmds) >>= go_on remote (closing conn)) w
  commands-then conn cmds w =
      >>=-congr (run_commands remote conn cmds) (run_steps remote conn (map checked cmds)) _ w
        (run_commands-steps remote conn cmds w)

module _ {World Conn Session : Type 0} (remote : Remote World Conn Session)
    (scope : MachineScope World) where
  install-then :
      (conn : Conn) (d : Distro) (rest : List Step) (w : World) {version number : Bytes}
      → scope.machine.version ≡ some version
      → drop? 1 version ≡ some number
      → (install remote scope d conn >> run_steps remote conn rest) w
        ≡ run_steps remote conn
            (script_steps d (codes "docker.sh") []
              ++ (script_steps d (codes "k8s.sh") ((codes "$1", number) ∷ [])
                  ++ (clean_steps d ++ rest)))
            w
  unfolding install clean
  install-then conn d rest w {version} {number} v n =
      >>=-assoc (run_script remote conn d (codes "docker.sh") []) _
        (λ _. run_steps remote conn rest) w
      ∙ >>=-ext (run_script remote conn d (codes "docker.sh") []) _ _ w (λ _ t.
        rw (v, n)
          (>>=-assoc (run_script remote conn d (codes "k8s.sh") ((codes "$1", number) ∷ []))
              (λ _. clean remote conn d) (λ _. run_steps remote conn rest) t
            ∙ >>=-ext (run_script remote conn d (codes "k8s.sh") ((codes "$1", number) ∷ [])) _ _ t
                (λ _ u. clean-then remote conn d rest u)
            ∙ run_script-then remote conn d (codes "k8s.sh") ((codes "$1", number) ∷ [])
                (clean_steps d ++ rest) t))
      ∙ run_script-then remote conn d (codes "docker.sh") [] _ w

  abbrev sed_step : Distro → HyperMachinePool → Bytes
  sed_step d hmp = replace_all d.kubelet_config (codes "bmpName") hmp.status.host_name

  abbrev last_steps : Distro → HyperMachinePool → List Bytes → List Step
  last_steps d hmp cmds = quiet (sed_step d hmp) ∷ map checked cmds

  after_commands :
      (conn : Conn) (ran : Report) (w : World)
      → (elim ran as (λ x. M World Report) [
        | some report ↦ pure (some report)
        | none ↦ closing remote conn
      ])
          w
        ≡ go_on remote (closing remote conn) ran w
  after_commands conn none w = refl
  after_commands conn (some report) w = refl

  after_files :
      (conn : Conn) (d : Distro) (hmp : HyperMachinePool) (cmds : List Bytes) (written : Report)
      (w : World)
      → (elim written as (λ x. M World Report) [
        | some report ↦ pure (some report)
        | none ↦
            send remote conn (sed_step d hmp)
            >> (run_commands remote conn cmds >>= λ ran. elim ran [
              | some report ↦ pure (some report)
              | none ↦ closing remote conn
            ])
      ])
          w
        ≡ (go_on remote (run_steps remote conn (last_steps d hmp cmds)) written
              >>= go_on remote (closing remote conn))
            w
  unfolding run_steps
  after_files conn d hmp cmds (some report) w = refl
  after_files conn d hmp cmds none w =
      >>=-ext (send remote conn (sed_step d hmp)) _
        (λ _. run_steps remote conn (map checked cmds) >>= go_on remote (closing remote conn)) w
        (λ _ t.
          >>=-ext (run_commands remote conn cmds) _ (go_on remote (closing remote conn)) t
            (λ ran u. after_commands conn ran u)
          ∙ commands-then remote conn cmds t)
      ∙ sym (
          >>=-assoc (send remote conn (sed_step d hmp))
            (λ _. run_steps remote conn (map checked cmds)) (go_on remote (closing remote conn)) w)

  bootstrap-steps :
      (conn : Conn) (d : Distro) (hmp : HyperMachinePool) (config : CloudConfig) (w : World)
      → bootstrap remote scope d conn hmp config w
        ≡ (run_steps remote conn (
                file_steps hmp.status.host_name config.write_files
                ++ last_steps d hmp config.run_cmd)
              >>= go_on remote (closing remote conn))
            w
  unfolding bootstrap
  bootstrap-steps conn d hmp config w =
      let files = write_files remote conn hmp.status.host_name config.write_files in
      let last = run_steps remote conn (last_steps d hmp config.run_cmd) in
      >>=-ext files _ (λ r. go_on remote last r >>= go_on remote (closing remote conn)) w
        (λ r t. after_files conn d hmp config.run_cmd r t)
      ∙ sym (>>=-assoc files (go_on remote last) (go_on remote (closing remote conn)) w)
      ∙ >>=-congr (files >>= go_on remote last)
          (run_steps remote conn
            (file_steps hmp.status.host_name config.write_files ++ last_steps d hmp config.run_cmd))
          _ w
          (>>=-congr files
              (run_steps remote conn (file_steps hmp.status.host_name config.write_files))
              (go_on remote last) w
              (write_files-steps remote conn hmp.status.host_name config.write_files w)
            ∙ sym (
                run_steps-append remote conn (file_steps hmp.status.host_name config.write_files)
                  (last_steps d hmp config.run_cmd) w))

  -- Everything that runs on an open connection but the keepalived script, which only control-plane
  -- machines get.
  node-steps :
      (conn : Conn) (d : Distro) (hmp : HyperMachinePool) (config : CloudConfig) (w : World)
      {version number : Bytes}
      → scope.machine.version ≡ some version
      → drop? 1 version ≡ some number
      → (install remote scope d conn >> bootstrap remote scope d conn hmp config) w
        ≡ (run_steps remote conn (node_steps d number hmp.status.host_name config)
              >>= go_on remote (closing remote conn))
            w
  node-steps conn d hmp config w {version} {number} v n =
      let steps =
        file_steps hmp.status.host_name config.write_files ++ last_steps d hmp config.run_cmd in
      >>=-ext (install remote scope d conn) _
        (λ _. run_steps remote conn steps >>= go_on remote (closing remote conn)) w
        (λ _ t. bootstrap-steps conn d hmp config t)
      ∙ sym (
          >>=-assoc (install remote scope d conn) (λ _. run_steps remote conn steps)
            (go_on remote (closing remote conn)) w)
      ∙ >>=-congr (install remote scope d conn >> run_steps remote conn steps)
          (run_steps remote conn (node_steps d number hmp.status.host_name config)) _ w
          (install-then conn d steps w v n)

  provision-dialled :
      (d : Distro) (hmp : HyperMachinePool) (contents : Bytes) (master : Bool) (w w1 : World)
      (conn : Conn) {config : CloudConfig} {info : SshInfo}
      → from_bytes contents ≡ parsed config
      → hmp.spec.ssh ≡ some info
      → ssh_connect remote info.address info.ssh_id info.ssh_pw w ≡ (done (value conn), w1)
      → provision remote scope d hmp contents master w
        ≡ provision_on remote scope d conn hmp config master w1
  unfolding provision
  provision-dialled d hmp contents master w w1 conn read_ ssh dialled =
      simp (read_, ssh, dialled, provision)

  -- Where the cloud config is read, the machine has a version, and SSH connects, the provisioning of a
  -- worker is the run of one list of steps: the scripts that install the container runtime and
  -- kubernetes, the clean-up, the files of the cloud config, the kubelet's flag and the commands of the
  -- cloud config. The run ends with a report at the first file or command that fails, and the
  -- connection is closed only if there is none.
  pub provision-worker :
      (d : Distro) (hmp : HyperMachinePool) (contents : Bytes) (w w1 : World) (conn : Conn)
      {config : CloudConfig} {info : SshInfo} {version number : Bytes}
      → from_bytes contents ≡ parsed config
      → hmp.spec.ssh ≡ some info
      → ssh_connect remote info.address info.ssh_id info.ssh_pw w ≡ (done (value conn), w1)
      → scope.machine.version ≡ some version
      → drop? 1 version ≡ some number
      → provision remote scope d hmp contents false w
        ≡ (run_steps remote conn (node_steps d number hmp.status.host_name config)
              >>= go_on remote (closing remote conn))
            w1
  unfolding provision_on set_up_keepalived
  provision-worker d hmp contents w w1 conn {config} read_ ssh dialled v n =
      provision-dialled d hmp contents false w w1 conn read_ ssh dialled
      ∙ node-steps conn d hmp config w1 v n

  -- The provisioning of a control-plane machine runs the keepalived script first, with the entry's
  -- network interface, the priority that `hipNum2Pri` gives and the cluster's host, and then the same
  -- steps as that of a worker, under the same conditions.
  pub provision-master :
      (d : Distro) (hmp : HyperMachinePool) (contents priority : Bytes) (w w1 w2 : World)
      (conn : Conn) {config : CloudConfig} {info : SshInfo} {version number : Bytes}
      → from_bytes contents ≡ parsed config
      → hmp.spec.ssh ≡ some info
      → ssh_connect remote info.address info.ssh_id info.ssh_pw w ≡ (done (value conn), w1)
      → hip_num2_pri scope.client scope.cluster scope.hyper_cluster w1 ≡ (done priority, w2)
      → scope.machine.version ≡ some version
      → drop? 1 version ≡ some number
      → provision remote scope d hmp contents true w
        ≡ (run_steps remote conn (
                script_steps d (codes "keepalived.sh") (keepalived_map remote scope hmp priority)
                ++ node_steps d number hmp.status.host_name config)
              >>= go_on remote (closing remote conn))
            w2
  unfolding provision_on set_up_keepalived
  provision-master d hmp contents priority w w1 w2 conn {config} {number = number} read_ ssh dialled
        counted v n =
      let script =
        run_script remote conn d (codes "keepalived.sh")
          (keepalived_map remote scope hmp priority) in
      let steps = node_steps d number hmp.status.host_name config in
      provision-dialled d hmp contents true w w1 conn read_ ssh dialled
      ∙ rw counted (
          >>=-ext script _ (λ _. run_steps remote conn steps >>= go_on remote (closing remote conn))
            w2 (λ _ t. node-steps conn d hmp config t v n)
          ∙ sym (
              >>=-assoc script (λ _. run_steps remote conn steps)
                (go_on remote (closing remote conn)) w2)
          ∙ >>=-congr (script >> run_steps remote conn steps)
              (run_steps remote conn (
                script_steps d (codes "keepalived.sh") (keepalived_map remote scope hmp priority)
                ++ steps))
              _ w2
              (run_script-then remote conn d (codes "keepalived.sh")
                (keepalived_map remote scope hmp priority) steps w2))
