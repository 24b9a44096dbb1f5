-- ===== src/Utils/Provisioning.antt =====
-- utils/provisioning.go: the scripts and commands by which a machine of the pool becomes a node.
pub mod Plan
pub mod Refined
pub mod Silent
use cluster_api_provider_hyp.Base.{
  Bytes, codes, ◌==◌, Bool, true, false, List, [], ◌∷◌, ◌++◌, Option, none, some, M, pure, panic,
  must, ◌>>=◌, ◌>>◌, has_prefix, drop?, if◌then◌else◌,
}
use cluster_api_provider_hyp.Base.Split.{replace_all}
use cluster_api_provider_hyp.Api.{Fault, value, fault, HyperMachinePool}
use cluster_api_provider_hyp.Scope.{MachineScope}
use cluster_api_provider_hyp.Utils.Outside.{Remote}
use cluster_api_provider_hyp.Utils.Ssh.{ssh_connect, send_commands, send, scp_file, close}
use cluster_api_provider_hyp.Utils.Priority.{hip_num2_pri}
use cluster_api_provider_hyp.Utils.CloudInit.{WriteFile, CloudConfig, parsed, from_bytes}

-- `(error, string)`: the error and the output of the command that failed.
abbrev pub Report : Type 0
Report = Option (Fault × Bytes)

-- `SetUbuntuProviderID2KubeletConfig` and `SetCentosProviderID2KubeletConfig` up to the file's name.
abbrev set_provider_id2_kubelet_config : Bytes
set_provider_id2_kubelet_config =
    codes
      "sed -i 's/--config=\\/var\\/lib\\/kubelet\\/config.yaml/--config=\\/var\\/lib\\/kubelet\\/config.yaml --provider-id hyper:\\/\\/\\/bmpName/' "

abbrev pub set_ubuntu_provider_id2_kubelet_config : Bytes
set_ubuntu_provider_id2_kubelet_config =
    set_provider_id2_kubelet_config ++ codes "/etc/systemd/system/kubelet.service.d/10-kubeadm.conf"

abbrev pub set_centos_provider_id2_kubelet_config : Bytes
set_centos_provider_id2_kubelet_config =
    set_provider_id2_kubelet_config
    ++ codes "/usr/lib/systemd/system/kubelet.service.d/10-kubeadm.conf"

-- Where the two provisioning functions differ: the options of `rm`, the folder of the scripts and the
-- kubelet's file.
pub record Distro : Type 0 where
  pub rm : Bytes
  pub rm_dir : Bytes
  pub scripts : Bytes
  pub kubelet_config : Bytes

abbrev pub centos : Distro
centos = record {
  rm = codes "rm -f ";
  rm_dir = codes "rm -f -r ";
  scripts = codes "scripts/centos/";
  kubelet_config = set_centos_provider_id2_kubelet_config;
}

abbrev pub ubuntu : Distro
ubuntu = record {
  rm = codes "rm ";
  rm_dir = codes "rm -r ";
  scripts = codes "scripts/ubuntu/";
  kubelet_config = set_ubuntu_provider_id2_kubelet_config;
}

abbrev pub prefix_name : Bytes
prefix_name = codes "  name: "

-- The loop over the lines of a file, with the text built so far.
unfoldable pub file_text : Bytes → List Bytes → Bytes → Bytes
file_text host_name [] contents = contents
file_text host_name (content ∷ rest) contents = file_text host_name rest (
    if has_prefix content prefix_name
    then contents ++ (prefix_name ++ host_name)
    else if content == []
    then contents
    else contents ++ (content ++ codes "\\n"))

module _ {World Conn Session : Type 0} (remote : Remote World Conn Session) where
  -- The loop over `cloudConfig.WriteFiles`, which returns at the first error.
  unfoldable pub write_files : Conn → Bytes → List WriteFile → M World Report
  write_files conn host_name [] = pure none
  write_files conn host_name (wf ∷ rest) = do
    (output, err) ← send_commands remote conn (
        (codes "echo -e \"" ++ (file_text host_name wf.contents [] ++ (codes "\" >> " ++ wf.path)))
        ∷ [])
    elim err [
      | some e ↦ pure (some (e, output))
      | none ↦ do
        send remote conn (codes "chmod " ++ (wf.permissions ++ (codes " " ++ wf.path)))
        write_files conn host_name rest
    ]

  -- The loop over `cloudConfig.RunCmd`, which returns at the first error.
  unfoldable pub run_commands : Conn → List Bytes → M World Report
  run_commands conn [] = pure none
  run_commands conn (rc ∷ rest) = do
    (output, err) ← send_commands remote conn (rc ∷ [])
    elim err [ some e ↦ pure (some (e, output)) | none ↦ run_commands conn rest ]

  -- `rm`, `ScpFile`, `chmod` and run of one script.
  unfoldable pub run_script : Conn → Distro → Bytes → List (Bytes × Bytes) → M World (Unit {0})
  run_script conn d name config_map = do
    send remote conn (d.rm ++ (codes "/tmp/" ++ name))
    _ ← scp_file remote conn (d.scripts ++ name) (codes "/tmp/" ++ name) config_map
    send remote conn (codes "chmod +x /tmp/" ++ name)
    send remote conn (codes "cd /tmp/ && ./" ++ name)

module _ {World Conn Session : Type 0} (remote : Remote World Conn Session)
    (scope : MachineScope World) where
  pub keepalived_map : HyperMachinePool → Bytes → List (Bytes × Bytes)
  keepalived_map hmp priority =
      (codes "$1", hmp.status.network_interface)
      ∷ (codes "$2", priority)
      ∷ (codes "$3", scope.hyper_cluster.spec.control_plane_endpoint.host)
      ∷ (codes "$4", (if priority == codes "100" then codes "MASTER" else codes "BACKUP"))
      ∷ []

  -- The block under `if isMaster`.
  unfoldable pub set_up_keepalived : Distro → Conn → HyperMachinePool → Bool → M World (Unit {0})
  unfolding keepalived_map
  set_up_keepalived d conn hmp false = pure tt
  set_up_keepalived d conn hmp true = do
    priority ← hip_num2_pri scope.client scope.cluster scope.hyper_cluster
    run_script remote conn d (codes "keepalived.sh") (keepalived_map hmp priority)

  -- The scripts that install the container runtime and kubernetes, and the clean-up of old files.
  -- `(*machineScope.Machine.Spec.Version)[1:]` panics without a version.
  unfoldable pub install : Distro → Conn → M World (Unit {0})
  install d conn = do
    run_script remote conn d (codes "docker.sh") []
    version ← must scope.machine.version
    number ← must (drop? 1 version)
    run_script remote conn d (codes "k8s.sh") ((codes "$1", number) ∷ [])
    send remote conn (d.rm_dir ++ codes "/etc/kubernetes/pki")
    send remote conn (d.rm ++ codes "/tmp/kubeadm.yaml")
    send remote conn (d.rm ++ codes "/tmp/kubeadm-join-config.yaml")
    send remote conn (codes "mkdir -p /etc/kubernetes/pki")
    send remote conn (codes "mkdir -p /etc/kubernetes/pki/etcd")

  -- From the cloud config on: the files, the kubelet's flag and the commands. The connection is
  -- closed only if none of them failed.
  unfoldable pub bootstrap : Distro → Conn → HyperMachinePool → CloudConfig → M World Report
  bootstrap d conn hmp config = do
    written ← write_files remote conn hmp.status.host_name config.write_files
    elim written [
      | some report ↦ pure (some report)
      | none ↦ do
        send remote conn (replace_all d.kubelet_config (codes "bmpName") hmp.status.host_name)
        ran ← run_commands remote conn config.run_cmd
        elim ran [ some report ↦ pure (some report) | none ↦ do close remote conn; pure none ]
    ]

  -- What runs on an open connection.
  unfoldable pub provision_on :
      Distro → Conn → HyperMachinePool → CloudConfig → Bool → M World Report
  unfolding set_up_keepalived install bootstrap
  provision_on d conn hmp config is_master = do
    set_up_keepalived d conn hmp is_master
    install d conn
    bootstrap d conn hmp config

  unfoldable pub provision : Distro → HyperMachinePool → Bytes → Bool → M World Report
  unfolding provision_on
  provision d hmp contents is_master = elim (from_bytes contents) [
    | parsed config ↦ do
      ssh_info ← must hmp.spec.ssh
      conn ← ssh_connect remote ssh_info.address ssh_info.ssh_id ssh_info.ssh_pw
      elim conn [
        | fault e ↦ pure (some (e, codes "connection error"))
        | value c ↦ provision_on d c hmp config is_master
      ]
    | _ ↦ panic
  ]

  unfoldable pub centos_provisioning : HyperMachinePool → Bytes → Bool → M World Report
  unfolding provision
  centos_provisioning = provision centos

  unfoldable pub ubuntu_provisioning : HyperMachinePool → Bytes → Bool → M World Report
  unfolding provision
  ubuntu_provisioning = provision ubuntu
