-- ===== src/Tests/Connections.antt =====
-- A machine with centos that answers the questions.
use mathlib.Core.List.{Perm, Permᴰ}
use cluster_api_provider_hyp.Base.{
  Bytes, codes, ◌==◌, ◌++◌, ◌≡◌, refl, [], ◌∷◌, none, some, done, Scoped, if◌then◌else◌, arith,
  strip_prefix?, All,
}
use cluster_api_provider_hyp.Base.Split.{before, cut?, push_front, join}
use cluster_api_provider_hyp.Api.{HyperMachinePool, insert, label_hyper_machine_pool_valid, value}
use cluster_api_provider_hyp.Utils.{Remote}
use cluster_api_provider_hyp.Utils.Ssh.{ssh_connect, send_commands, substitute}
use cluster_api_provider_hyp.Utils.Ssh.Parameter.{IsSingle}
use cluster_api_provider_hyp.Utils.Ssh.Order.{
  Parameters, config_map, IsParameter, HasKeys, substitute-Perm,
}
use cluster_api_provider_hyp.PoolController.Validation.{valid_ssh}
use cluster_api_provider_hyp.PoolController.Validation.Answers.{crlf, double_quote, interface_line}
use cluster_api_provider_hyp.PoolController.Validation.Connected.{
  read_entry, valid_ssh-IsLabelled, valid_ssh-IsRead,
}
use cluster_api_provider_hyp.Tests.Memory.{Memory}
use cluster_api_provider_hyp.Tests.System.{remote, memory, free_pool, free_info, free_labels}

abbrev answer_to : Bytes → Bytes
answer_to cmd =
    if cmd == codes "uname -r"
    then codes "3.10.0" ++ crlf
    else if cmd == codes "cat /etc/*release | grep -w ID"
    then codes "ID=" ++ ((double_quote ∷ (codes "centos" ++ (double_quote ∷ []))) ++ crlf)
    else if cmd == codes "hostname"
    then codes "node1" ++ crlf
    else interface_line (codes "2") (codes "eth0") (codes " <UP>" ++ crlf)

abbrev centos : Remote Memory (Unit {0}) (Unit {0})
centos = record remote { output = λ w s cmd. ((answer_to cmd, none), w) }

abbrev start : Scoped Memory HyperMachinePool
start = record { world = memory; object = free_pool (codes "a") }

connected :
    ssh_connect centos free_info.address free_info.ssh_id free_info.ssh_pw memory
    ≡ (done (value tt), memory)
unfolding ssh_connect codes ◌==◌
connected = refl

valid_ssh-IsLabelled_example :
    (valid_ssh centos start).1.object.meta.labels
    ≡ some (insert label_hyper_machine_pool_valid (codes "true") free_labels)
valid_ssh-IsLabelled_example =
    valid_ssh-IsLabelled centos start memory tt free_labels refl refl connected

kernel_sent :
    send_commands centos tt (codes "uname -r" ∷ []) memory
    ≡ (done (codes "3.10.0" ++ crlf, none), memory)
unfolding send_commands codes ◌==◌ join
kernel_sent = refl

os_sent : send_commands centos tt (codes "cat /etc/*release | grep -w ID" ∷ []) memory ≡ (
  done (codes "ID=" ++ ((double_quote ∷ (codes "centos" ++ (double_quote ∷ []))) ++ crlf), none),
  memory,
)
unfolding send_commands codes ◌==◌ join
os_sent = refl

host_sent :
    send_commands centos tt (codes "hostname" ∷ []) memory
    ≡ (done (codes "node1" ++ crlf, none), memory)
unfolding send_commands codes ◌==◌ join
host_sent = refl

interface_sent :
    send_commands centos tt
      ((codes "ip addr | grep " ++ (before free_info.address (codes ":") ++ codes " -B 3")) ∷ [])
      memory
    ≡ (done (interface_line (codes "2") (codes "eth0") (codes " <UP>" ++ crlf), none), memory)
unfolding send_commands codes ◌==◌ join before cut? push_front strip_prefix?
interface_sent = refl

valid_ssh-IsRead_example : valid_ssh centos start ≡ (
  done tt,
  record {
    world = memory;
    object =
        read_entry centos start.object free_labels
          (codes "3.10.0")
          (codes "centos")
          (codes "node1")
          (codes "eth0");
  },
)
valid_ssh-IsRead_example =
    valid_ssh-IsRead centos start memory memory memory memory memory tt free_labels (codes "3.10.0")
      (codes "node1") (codes "2") (codes "eth0") (codes " <UP>" ++ crlf) refl refl connected
      kernel_sent os_sent host_sent interface_sent (unfold codes in ground arith)
      (unfold codes in ground arith)

-- The map of the keepalived script in two orders.
abbrev in_order : Parameters
in_order =
    (49, codes "eth0") ∷ (50, codes "100") ∷ (51, codes "10.0.0.9") ∷ (52, codes "MASTER") ∷ []

abbrev out_of_order : Parameters
out_of_order =
    (50, codes "100") ∷ (49, codes "eth0") ∷ (51, codes "10.0.0.9") ∷ (52, codes "MASTER") ∷ []

swapped : Perm in_order out_of_order
swapped = ∣ Permᴰ.swap refl refl ∣₁

parameters : All IsParameter in_order
unfolding codes
parameters = ground arith

different : HasKeys in_order
different = ground arith

abbrev script : Bytes
script = codes "interface $1 priority $2 ip $3 state $4"

no_double : IsSingle script
unfolding codes
no_double = ground arith

substitute-Perm_example :
    substitute (config_map in_order) script ≡ substitute (config_map out_of_order) script
substitute-Perm_example =
    substitute-Perm in_order out_of_order script swapped parameters different no_double
