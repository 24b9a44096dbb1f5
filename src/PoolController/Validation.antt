-- ===== src/PoolController/Validation.antt =====
-- `initHyperMachinePool` and `validSSH` of
-- controllers/exp.infrastructure/hypermachinepool_controller.go.
pub mod Answers
pub mod Connected
use cluster_api_provider_hyp.Base.{
  ◌-◌, ltb, length, drop?, take?, get_elem?, Bytes, codes, ◌==◌, ◌++◌, contains, Bool, true, false,
  [], ◌∷◌, Option, none, some, M, pure, must, read, on_world, with_object, ◌>>=◌, ◌>>◌, Scoped,
  if◌then◌else◌,
}
use cluster_api_provider_hyp.Base.Split.{split}
use cluster_api_provider_hyp.Api.{
  value, fault, message, lookup, insert, set_label?, HyperMachinePool, pool_with_labels,
  label_hyper_machine_pool_valid, label_cluster_name,
}
use cluster_api_provider_hyp.Utils.{Remote}
use cluster_api_provider_hyp.Utils.Ssh.{ssh_connect, send_commands, close}

-- The returned flag is true where the labels were written.
unfoldable pub init_hyper_machine_pool : HyperMachinePool → HyperMachinePool × Bool
init_hyper_machine_pool hmp = elim hmp.meta.labels [
  | none ↦ (
    pool_with_labels hmp
        ((label_hyper_machine_pool_valid, codes "false") ∷ (label_cluster_name, []) ∷ []),
    true,
  )
  | some m ↦ elim (lookup label_hyper_machine_pool_valid m) [
    | none ↦ (
      pool_with_labels hmp
          (insert label_cluster_name [] (insert label_hyper_machine_pool_valid (codes "false") m)),
      true,
    )
    | some _ ↦ (hmp, false)
  ]
]

-- `s[:len(s)-2]`, which panics below two bytes.
unfoldable pub drop_last_two : Bytes → Option Bytes
drop_last_two s = if ltb (length s) 2 then none else take? (length s - 2) s

-- `s[len("ID="):len(s)-2]`, and the text between quotes if there is one.
unfoldable pub os_of : Bytes → Option Bytes
os_of out = elim (drop_last_two out) [
  | none ↦ none
  | some front ↦ elim (drop? 3 front) [
    | none ↦ none
    | some os ↦ if contains os (codes "\"") then get_elem? (split os (codes "\"")) 1 else some os
  ]
]

-- `strings.Split(s, ":")[1][1:]`
unfoldable pub centos_interface_of : Bytes → Option Bytes
centos_interface_of out = elim (get_elem? (split out (codes ":")) 1) [
  | none ↦ none
  | some field ↦ drop? 1 field
]

abbrev pub set_kernel : Bytes → HyperMachinePool → HyperMachinePool
set_kernel v hmp = record hmp { status = record (hmp.status) { kernel = v } }

abbrev pub set_os : Bytes → HyperMachinePool → HyperMachinePool
set_os v hmp = record hmp { status = record (hmp.status) { os = v } }

abbrev pub set_host_name : Bytes → HyperMachinePool → HyperMachinePool
set_host_name v hmp = record hmp { status = record (hmp.status) { host_name = v } }

abbrev pub set_network_interface : Bytes → HyperMachinePool → HyperMachinePool
set_network_interface v hmp = record hmp { status = record (hmp.status) { network_interface = v } }

abbrev pub set_error : Bytes → HyperMachinePool → HyperMachinePool
set_error v hmp = record hmp { status = record (hmp.status) { error = v } }

-- `hmp.Labels[LabelHyperMachinePoolValid] = v`, which panics on a nil map.
unfoldable pub set_valid : Bytes → HyperMachinePool → Option HyperMachinePool
set_valid v hmp = elim (set_label? label_hyper_machine_pool_valid v hmp.meta.labels) [
  | none ↦ none
  | some m ↦ some (pool_with_labels hmp m)
]

module _ {World Conn Session : Type 0} (remote : Remote World Conn Session) where
  -- One question to the machine: on success its answer is read and stored, else nothing changes.
  unfoldable pub ask :
      Conn
      → Bytes
      → (Bytes → Option Bytes)
      → (Bytes → HyperMachinePool → HyperMachinePool)
      → M (Scoped World HyperMachinePool) (Unit {0})
  ask conn cmd parse store = do
    (out, err) ← on_world (send_commands remote conn (cmd ∷ []))
    elim err [ some e ↦ pure tt | none ↦ do answer ← must (parse out); with_object (store answer) ]

  -- The host part of the address, which both distributions look for in their list of interfaces.
  unfoldable pub ask_interface : Conn → M (Scoped World HyperMachinePool) (Unit {0})
  unfolding ask
  ask_interface conn = do
    hmp ← read λ s. s.object
    ssh_info ← must hmp.spec.ssh
    host ← must (get_elem? (split ssh_info.address (codes ":")) 0)
    if hmp.status.os == codes "ubuntu"
        then ask conn (codes "ifconfig | grep " ++ (host ++ codes " -B 1"))
            (λ out. get_elem? (split out (codes ":")) 0) set_network_interface
        else if hmp.status.os == codes "centos"
        then ask conn (codes "ip addr | grep " ++ (host ++ codes " -B 3")) centos_interface_of
            set_network_interface
        else pure tt

  unfoldable pub valid_ssh : M (Scoped World HyperMachinePool) (Unit {0})
  unfolding ask ask_interface
  valid_ssh = do
    hmp ← read λ s. s.object
    ssh_info ← must hmp.spec.ssh
    opened ← on_world (ssh_connect remote ssh_info.address ssh_info.ssh_id ssh_info.ssh_pw)
    elim opened [
      | fault e ↦ do
        invalid ← must (set_valid (codes "false") hmp)
        with_object (λ _. set_error (message e) invalid)
      | value conn ↦ do
        valid ← must (set_valid (codes "true") hmp)
        with_object (λ _. valid)
        ask conn (codes "uname -r") drop_last_two set_kernel
        ask conn (codes "cat /etc/*release | grep -w ID") os_of set_os
        ask conn (codes "hostname") drop_last_two set_host_name
        ask_interface conn
        on_world (close remote conn)
    ]
