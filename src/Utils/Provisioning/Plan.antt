-- ===== src/Utils/Provisioning/Plan.antt =====
-- The run of a provisioning function as one list of steps.
use cluster_api_provider_hyp.Base.{
  Bytes, codes, ◌≡◌, refl, sym, ◌∙◌, List, [], ◌∷◌, ◌++◌, Option, none, some, M, pure, ◌>>=◌, ◌>>◌,
}
use mathlib.Core.List.{map}
use cluster_api_provider_hyp.Base.Sequencing.{>>=-assoc, >>=-ext}
use cluster_api_provider_hyp.Base.Split.{replace_all}
use cluster_api_provider_hyp.Api.{Fault}
use cluster_api_provider_hyp.Utils.Outside.{Remote}
use cluster_api_provider_hyp.Utils.Ssh.{send_commands, send, scp_file}
use cluster_api_provider_hyp.Utils.CloudInit.{WriteFile, CloudConfig}
use cluster_api_provider_hyp.Utils.Provisioning.{
  Report, Distro, file_text, write_files, run_commands,
}

-- A command whose error is dropped, one whose error ends the run, and a file that is copied.
pub data Step : Type 0 where
  quiet : Bytes → Step
  checked : Bytes → Step
  copied : Bytes → Bytes → List (Bytes × Bytes) → Step

-- The steps of one script, of one file, and of the clean-up.
abbrev pub script_steps : Distro → Bytes → List (Bytes × Bytes) → List Step
script_steps d name config_map =
    quiet (d.rm ++ (codes "/tmp/" ++ name))
    ∷ copied (d.scripts ++ name) (codes "/tmp/" ++ name) config_map
    ∷ quiet (codes "chmod +x /tmp/" ++ name)
    ∷ quiet (codes "cd /tmp/ && ./" ++ name)
    ∷ []

abbrev pub file_steps : Bytes → List WriteFile → List Step
file_steps host [] = []
file_steps host (wf ∷ rest) =
    checked (codes "echo -e \"" ++ (file_text host wf.contents [] ++ (codes "\" >> " ++ wf.path)))
    ∷ quiet (codes "chmod " ++ (wf.permissions ++ (codes " " ++ wf.path)))
    ∷ file_steps host rest

abbrev pub clean_steps : Distro → List Step
clean_steps d =
    quiet (d.rm_dir ++ codes "/etc/kubernetes/pki")
    ∷ quiet (d.rm ++ codes "/tmp/kubeadm.yaml")
    ∷ quiet (d.rm ++ codes "/tmp/kubeadm-join-config.yaml")
    ∷ quiet (codes "mkdir -p /etc/kubernetes/pki")
    ∷ quiet (codes "mkdir -p /etc/kubernetes/pki/etcd")
    ∷ []

-- All steps of a machine with kubernetes of version `number`.
abbrev pub node_steps : Distro → Bytes → Bytes → CloudConfig → List Step
node_steps d number host config =
    script_steps d (codes "docker.sh") []
    ++ (script_steps d (codes "k8s.sh") ((codes "$1", number) ∷ [])
        ++ (clean_steps d
            ++ (file_steps host config.write_files
                ++ (quiet (replace_all d.kubelet_config (codes "bmpName") host)
                    ∷ map checked config.run_cmd))))

module _ {World Conn Session : Type 0} (remote : Remote World Conn Session) where
  unfoldable pub run_steps : Conn → List Step → M World Report
  run_steps conn [] = pure none
  run_steps conn (quiet cmd ∷ rest) = do send remote conn cmd; run_steps conn rest
  run_steps conn (copied from to config_map ∷ rest) = do
    _ ← scp_file remote conn from to config_map
    run_steps conn rest
  run_steps conn (checked cmd ∷ rest) = do
    (output, err) ← send_commands remote conn (cmd ∷ [])
    elim err [ some e ↦ pure (some (e, output)) | none ↦ run_steps conn rest ]

  -- Go on with `next` if no step ended the run.
  abbrev pub go_on : M World Report → Report → M World Report
  go_on next (some report) = pure (some report)
  go_on next none = next

  -- What a checked command's answer leads to.
  abbrev after_reply : Bytes → M World Report → Option Fault → M World Report
  after_reply output next err = elim err [ some e ↦ pure (some (e, output)) | none ↦ next ]

  after_reply-ext :
      (output : Bytes) (f g : M World Report) (err : Option Fault) (w : World)
      → ((t : World) → f t ≡ g t)
      → after_reply output f err w ≡ after_reply output g err w
  after_reply-ext output f g none w h = h w
  after_reply-ext output f g (some e) w h = refl

  after_reply-go_on :
      (output : Bytes) (f g next : M World Report) (err : Option Fault) (w : World)
      → ((t : World) → f t ≡ (g >>= go_on next) t)
      → after_reply output f err w ≡ (after_reply output g err >>= go_on next) w
  after_reply-go_on output f g next none w h = h w
  after_reply-go_on output f g next (some e) w h = refl

  pub run_steps-append :
      (conn : Conn) (a b : List Step) (w : World)
      → run_steps conn (a ++ b) w ≡ (run_steps conn a >>= go_on (run_steps conn b)) w
  unfolding run_steps
  run_steps-append conn [] b w = refl
  run_steps-append conn (quiet cmd ∷ a) b w =
      >>=-ext (send remote conn cmd) _ _ w (λ _ t. run_steps-append conn a b t)
      ∙ sym (>>=-assoc (send remote conn cmd) (λ _. run_steps conn a) (go_on (run_steps conn b)) w)
  run_steps-append conn (copied from to config_map ∷ a) b w =
      >>=-ext (scp_file remote conn from to config_map) _ _ w (λ _ t. run_steps-append conn a b t)
      ∙ sym (
          >>=-assoc (scp_file remote conn from to config_map) (λ _. run_steps conn a)
            (go_on (run_steps conn b)) w)
  run_steps-append conn (checked cmd ∷ a) b w =
      >>=-ext (send_commands remote conn (cmd ∷ [])) _ _ w (λ r t.
        after_reply-go_on r.0 _ _ (run_steps conn b) r.1 t (λ u. run_steps-append conn a b u))
      ∙ sym (>>=-assoc (send_commands remote conn (cmd ∷ [])) _ (go_on (run_steps conn b)) w)

  pub write_files-steps :
      (conn : Conn) (host : Bytes) (files : List WriteFile) (w : World)
      → write_files remote conn host files w ≡ run_steps conn (file_steps host files) w
  unfolding run_steps write_files
  write_files-steps conn host [] w = refl
  write_files-steps conn host (wf ∷ rest) w = >>=-ext (send_commands remote conn _) _ _ w (λ r t.
      after_reply-ext r.0 _ _ r.1 t
        (λ u. >>=-ext (send remote conn _) _ _ u (λ _ v. write_files-steps conn host rest v)))

  pub run_commands-steps :
      (conn : Conn) (cmds : List Bytes) (w : World)
      → run_commands remote conn cmds w ≡ run_steps conn (map checked cmds) w
  unfolding run_steps run_commands
  run_commands-steps conn [] w = refl
  run_commands-steps conn (cmd ∷ rest) w =
      >>=-ext (send_commands remote conn _) _ _ w
        (λ r t. after_reply-ext r.0 _ _ r.1 t (λ u. run_commands-steps conn rest u))
