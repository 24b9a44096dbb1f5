-- ===== src/PoolController/Validation/Connected.antt =====
-- The validation of an entry to which SSH connects.
use cluster_api_provider_hyp.Base.{
  Bytes, codes, ◌==◌, ==_refl, ◌++◌, ◌≡◌, ◌≢◌, refl, ◌∙◌, true, false, [], ◌∷◌, Option, none, some,
  arith, All, done, M, must, on_world, with_object, pure, ◌>>=◌, ◌>>◌, Scoped, get_elem?,
}
use cluster_api_provider_hyp.Base.Split.{split, before, get_elem?-split_zero}
use mathlib.Core.List.{cons-ne-nil}
use cluster_api_provider_hyp.Base.Sequencing.{>>=_same, must_same}
use cluster_api_provider_hyp.Api.{
  Fault, value, HyperMachinePool, SshInfo, Labels, insert, label_hyper_machine_pool_valid,
  pool_with_labels,
}
use cluster_api_provider_hyp.Utils.{Remote}
use cluster_api_provider_hyp.Utils.Ssh.{ssh_connect, send_commands, close}
use cluster_api_provider_hyp.PoolController.Validation.Answers.{
  crlf, double_quote, colon_byte, interface_line, drop_last_two-line, os_of-line,
  centos_interface_of-line,
}
use cluster_api_provider_hyp.PoolController.Validation.{
  valid_ssh, ask, ask_interface, set_valid, set_kernel, set_os, set_host_name,
  set_network_interface, drop_last_two, os_of, centos_interface_of,
}

colon : codes ":" ≢ []
unfolding codes
colon = cons-ne-nil _ _

centos_not_ubuntu : (codes "centos" == codes "ubuntu") ≡ false
unfolding codes ◌==◌
centos_not_ubuntu = refl

pub set_valid-some :
    (v : Bytes) (hmp : HyperMachinePool) (m : Labels)
    → hmp.meta.labels ≡ some m
    → set_valid v hmp ≡ some (pool_with_labels hmp (insert label_hyper_machine_pool_valid v m))
unfolding set_valid
set_valid-some v hmp m labels = ground arith

-- The label map of the entry in a state.
abbrev labels_of : {World : Type 0} → Scoped World HyperMachinePool → Option Labels
labels_of s = s.object.meta.labels

-- A function that writes to the status only.
abbrev KeepsLabels : (Bytes → HyperMachinePool → HyperMachinePool) → Type 0
KeepsLabels store =
    (v : Bytes) (hmp : HyperMachinePool) → (store v hmp).meta.labels ≡ hmp.meta.labels

-- The entry once it is labelled valid.
abbrev pub valid_entry : HyperMachinePool → Labels → HyperMachinePool
valid_entry hmp m = pool_with_labels hmp (insert label_hyper_machine_pool_valid (codes "true") m)

module _ {World Conn Session : Type 0} (remote : Remote World Conn Session) where
  -- What is done with an answer.
  answered_labels :
      (out : Bytes) (err : Option Fault) (parse : Bytes → Option Bytes)
      (store : Bytes → HyperMachinePool → HyperMachinePool) (s : Scoped World HyperMachinePool)
      → KeepsLabels store
      → labels_of
          ((elim err as (λ _. M (Scoped World HyperMachinePool) (Unit {0})) [
            | some e ↦ pure tt
            | none ↦ must (parse out) >>= λ answer. with_object (store answer)
          ])
            s).1
        ≡ labels_of s
  answered_labels out (some e) parse store s keeps = refl
  answered_labels out none parse store s keeps =
      >>=_same labels_of (must (parse out)) (λ answer. with_object (store answer)) s
        (must_same labels_of (parse out) s) (λ answer t. keeps answer t.object)

  ask_labels :
      (conn : Conn) (cmd : Bytes) (parse : Bytes → Option Bytes)
      (store : Bytes → HyperMachinePool → HyperMachinePool) (s : Scoped World HyperMachinePool)
      → KeepsLabels store
      → labels_of (ask remote conn cmd parse store s).1 ≡ labels_of s
  unfolding ask
  ask_labels conn cmd parse store s keeps =
      >>=_same labels_of (on_world (send_commands remote conn (cmd ∷ []))) _ s refl
        (λ r t. answered_labels r.0 r.1 parse store t keeps)

  ask_interface_labels :
      (conn : Conn) (s : Scoped World HyperMachinePool)
      → labels_of (ask_interface remote conn s).1 ≡ labels_of s
  unfolding ask_interface
  ask_interface_labels conn s =
      >>=_same labels_of (must s.object.spec.ssh) _ s (must_same labels_of s.object.spec.ssh s)
        (λ info t.
          >>=_same labels_of (must (get_elem? (split info.address (codes ":")) 0)) _ t
            (must_same labels_of (get_elem? (split info.address (codes ":")) 0) t)
            (λ host u. ground (
              arith,
              ask_labels conn (codes "ifconfig | grep " ++ (host ++ codes " -B 1"))
                  (λ out. get_elem? (split out (codes ":")) 0) set_network_interface u
                  (λ v hmp. refl),
              ask_labels conn (codes "ip addr | grep " ++ (host ++ codes " -B 3"))
                  centos_interface_of set_network_interface u (λ v hmp. refl),
            )))

  -- The questions, and the end of the connection.
  pub questions : Conn → M (Scoped World HyperMachinePool) (Unit {0})
  questions conn = do
    ask remote conn (codes "uname -r") drop_last_two set_kernel
    ask remote conn (codes "cat /etc/*release | grep -w ID") os_of set_os
    ask remote conn (codes "hostname") drop_last_two set_host_name
    ask_interface remote conn
    on_world (close remote conn)

  questions_labels :
      (conn : Conn) (s : Scoped World HyperMachinePool)
      → labels_of (questions conn s).1 ≡ labels_of s
  unfolding questions
  questions_labels conn s =
      >>=_same labels_of (ask remote conn (codes "uname -r") drop_last_two set_kernel) _ s
        (ask_labels conn _ drop_last_two set_kernel s (λ v hmp. refl))
        (λ _ t.
          >>=_same labels_of (ask remote conn (codes "cat /etc/*release | grep -w ID") os_of set_os)
            _ t (ask_labels conn _ os_of set_os t (λ v hmp. refl))
            (λ _ u.
              >>=_same labels_of (ask remote conn (codes "hostname") drop_last_two set_host_name) _
                u (ask_labels conn _ drop_last_two set_host_name u (λ v hmp. refl))
                (λ _ v.
                  >>=_same labels_of (ask_interface remote conn) (λ _. on_world (close remote conn))
                    v (ask_interface_labels conn v) (λ _ w. refl))))

  -- Once SSH connects, the entry is labelled valid before anything is asked.
  pub valid_ssh-connected :
      (s : Scoped World HyperMachinePool) (w' : World) (conn : Conn) (m : Labels) {info : SshInfo}
      → s.object.spec.ssh ≡ some info
      → s.object.meta.labels ≡ some m
      → ssh_connect remote info.address info.ssh_id info.ssh_pw s.world ≡ (done (value conn), w')
      → valid_ssh remote s ≡ questions conn (record { world = w'; object = valid_entry s.object m })
  unfolding valid_ssh questions
  valid_ssh-connected s w' conn m ssh labels dialled =
      simp (ssh, dialled, set_valid-some (codes "true") s.object m labels)

  -- Once SSH connects, the entry ends with the label that it is valid, and with its other labels,
  -- whatever the machine answers, and also if an answer that is too short makes the handler panic.
  pub valid_ssh-IsLabelled :
      (s : Scoped World HyperMachinePool) (w' : World) (conn : Conn) (m : Labels) {info : SshInfo}
      → s.object.spec.ssh ≡ some info
      → s.object.meta.labels ≡ some m
      → ssh_connect remote info.address info.ssh_id info.ssh_pw s.world ≡ (done (value conn), w')
      → labels_of (valid_ssh remote s).1
        ≡ some (insert label_hyper_machine_pool_valid (codes "true") m)
  valid_ssh-IsLabelled s w' conn m ssh labels dialled =
      rw (valid_ssh-connected s w' conn m ssh labels dialled)
        (questions_labels conn (record { world = w'; object = valid_entry s.object m }))

  ask-answered :
      (conn : Conn) (cmd : Bytes) (parse : Bytes → Option Bytes)
      (store : Bytes → HyperMachinePool → HyperMachinePool) (s : Scoped World HyperMachinePool)
      (out answer : Bytes) {w' : World}
      → send_commands remote conn (cmd ∷ []) s.world ≡ (done (out, none), w')
      → parse out ≡ some answer
      → ask remote conn cmd parse store s
        ≡ (done tt, record { world = w'; object = store answer s.object })
  unfolding ask
  ask-answered conn cmd parse store s out answer sent parsed = simp (sent, parsed)

  -- The entry with the answers of a machine.
  abbrev pub read_entry :
      HyperMachinePool → Labels → Bytes → Bytes → Bytes → Bytes → HyperMachinePool
  read_entry hmp m kernel os host nic =
      set_network_interface nic
        (set_host_name host (set_os os (set_kernel kernel (valid_entry hmp m))))

  ask_interface-centos :
      (conn : Conn) (s : Scoped World HyperMachinePool) (out nic : Bytes) {info : SshInfo}
      {w' : World}
      → s.object.spec.ssh ≡ some info
      → (s.object.status.os == codes "ubuntu") ≡ false
      → (s.object.status.os == codes "centos") ≡ true
      → send_commands remote conn
          ((codes "ip addr | grep " ++ (before info.address (codes ":") ++ codes " -B 3")) ∷ [])
          s.world
        ≡ (done (out, none), w')
      → centos_interface_of out ≡ some nic
      → ask_interface remote conn s
        ≡ (done tt, record { world = w'; object = set_network_interface nic s.object })
  unfolding ask_interface
  ask_interface-centos conn s out nic {info} ssh not_ubuntu os sent parsed =
      simp (ssh, get_elem?-split_zero info.address (codes ":") colon, not_ubuntu, os)
        (ask-answered conn
          (codes "ip addr | grep " ++ (before info.address (codes ":") ++ codes " -B 3"))
          centos_interface_of set_network_interface s out nic sent parsed)

  centos_plain : All (λ c. c ≢ double_quote) (codes "centos")
  unfolding codes
  centos_plain = ground arith

  -- A machine with centos that answers every question with a line, the one for the interface with its
  -- index and its name before the first two colons: the entry is valid, and its status holds the kernel
  -- and the host name as they stand on their lines, the operating system without its quotes, and the
  -- interface's name; the connection is closed.
  pub valid_ssh-IsRead :
      (s : Scoped World HyperMachinePool) (w1 w2 w3 w4 w5 : World) (conn : Conn) (m : Labels)
      (kernel host index nic rest : Bytes) {info : SshInfo}
      → s.object.spec.ssh ≡ some info
      → s.object.meta.labels ≡ some m
      → ssh_connect remote info.address info.ssh_id info.ssh_pw s.world ≡ (done (value conn), w1)
      → send_commands remote conn (codes "uname -r" ∷ []) w1 ≡ (done (kernel ++ crlf, none), w2)
      → send_commands remote conn (codes "cat /etc/*release | grep -w ID" ∷ []) w2 ≡ (
        done (
          codes "ID=" ++ ((double_quote ∷ (codes "centos" ++ (double_quote ∷ []))) ++ crlf),
          none,
        ),
        w3,
      )
      → send_commands remote conn (codes "hostname" ∷ []) w3 ≡ (done (host ++ crlf, none), w4)
      → send_commands remote conn
          ((codes "ip addr | grep " ++ (before info.address (codes ":") ++ codes " -B 3")) ∷ [])
          w4
        ≡ (done (interface_line index nic rest, none), w5)
      → All (λ c. c ≢ colon_byte) index
      → All (λ c. c ≢ colon_byte) nic
      → valid_ssh remote s ≡ (
        done tt,
        record {
          world = remote.close w5 conn;
          object = read_entry s.object m kernel (codes "centos") host nic;
        },
      )
  unfolding questions close
  valid_ssh-IsRead s w1 w2 w3 w4 w5 conn m kernel host index nic rest ssh labels dialled a1 a2 a3 a4
        plain_index plain_nic =
      let e0 = valid_entry s.object m in
      let e1 = set_kernel kernel e0 in
      let e2 = set_os (codes "centos") e1 in
      let e3 = set_host_name host e2 in
      valid_ssh-connected s w1 conn m ssh labels dialled
      ∙ simp (
        ask-answered conn (codes "uname -r") drop_last_two set_kernel
            (record { world = w1; object = e0 }) _ kernel a1 (drop_last_two-line kernel),
        ask-answered conn (codes "cat /etc/*release | grep -w ID") os_of set_os
            (record { world = w2; object = e1 }) _ (codes "centos") a2
            (os_of-line (codes "centos") centos_plain).1,
        ask-answered conn (codes "hostname") drop_last_two set_host_name
            (record { world = w3; object = e2 }) _ host a3 (drop_last_two-line host),
        ask_interface-centos conn (record { world = w4; object = e3 }) _ nic ssh centos_not_ubuntu
            (==_refl (codes "centos")) a4
            (centos_interface_of-line index nic rest plain_index plain_nic),
      )
