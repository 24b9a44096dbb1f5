-- ===== src/Utils/Ssh.antt =====
-- utils/sshClient.go: connecting, sending commands and copying a script.
pub mod Silent
pub mod Parameter
pub mod Order
pub mod Script
use cluster_api_provider_hyp.Base.{
  Bytes, codes, List, [], ◌∷◌, ◌++◌, Option, none, some, M, pure, panic, exit, call, modify, must,
  with_defer, ◌>>=◌,
}
use cluster_api_provider_hyp.Base.Split.{join, replace_all}
use cluster_api_provider_hyp.Api.{Fault, Result, value, fault}
use cluster_api_provider_hyp.Utils.Outside.{other, Chunk, Remote}

-- The loop of `ScpFile` over the reads of the file; `none` is its panic.
read_chunks : List Chunk → Bytes → Option Bytes
read_chunks [] contents = some contents
read_chunks (c ∷ cs) contents = elim c.error [
  | some (other e) ↦ none
  | _ ↦ elim c.bytes [ [] ↦ some contents | _ ↦ read_chunks cs (contents ++ c.bytes) ]
]

-- The loop of `ScpFile` over the map, in the order in which it is ranged over.
unfoldable pub substitute : List (Bytes × Bytes) → Bytes → Bytes
substitute [] contents = contents
substitute ((key, val) ∷ m) contents = substitute m (replace_all contents key val)

unfoldable pub echo_to : Bytes → Bytes → Bytes
echo_to contents path = codes "echo -e \"" ++ (contents ++ (codes "\" >> " ++ path))

module _ {World Conn Session : Type 0} (remote : Remote World Conn Session) where
  unfoldable pub ssh_connect : Bytes → Bytes → Bytes → M World (Result Conn)
  ssh_connect addr user password = call λ w. remote.dial w addr user password

  -- The body of `SendCommands` once it has a session.
  in_session : Session → Bytes → M World (Bytes × Option Fault)
  in_session session cmd = do
    err ← call λ w. remote.request_pty w session
    elim err [ some e ↦ pure ([], some e) | none ↦ call λ w. remote.output w session cmd ]

  -- A session that cannot be opened ends the process.
  unfoldable pub send_commands : Conn → List Bytes → M World (Bytes × Option Fault)
  unfolding in_session
  send_commands conn cmds = do
    opened ← call λ w. remote.new_session w conn
    elim opened [
      | fault e ↦ exit
      | value session ↦
          with_defer (modify λ w. remote.close_session w session)
            (in_session session (join cmds (codes "; ")))
    ]

  -- A command whose output and error the caller drops.
  unfoldable pub send : Conn → Bytes → M World (Unit {0})
  send conn cmd = do _ ← send_commands conn (cmd ∷ []); pure tt

  unfoldable pub close : Conn → M World (Unit {0})
  close conn = modify λ w. remote.close w conn

  -- `ScpFile`; its error is dropped wherever it is called.
  unfoldable pub scp_file : Conn → Bytes → Bytes → List (Bytes × Bytes) → M World (Option Fault)
  unfolding read_chunks
  scp_file conn file_path remote_path config_map = do
    opened ← call λ w. (remote.open_file w file_path, w)
    elim opened [
      | fault e ↦ panic
      | value chunks ↦ do
        contents ← must (read_chunks chunks [])
        ordered ← call λ w. (remote.range_order w config_map, w)
        sent ← send_commands conn (echo_to (substitute ordered contents) remote_path ∷ [])
        pure sent.1
    ]
