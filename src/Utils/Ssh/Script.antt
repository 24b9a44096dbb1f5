-- ===== src/Utils/Ssh/Script.antt =====
-- `remoteScript` of utils/sshClient.go: a local script that is fed to a remote shell. The script is
-- behind a pointer, so it is the object of the state.
pub mod Whole
use cluster_api_provider_hyp.Base.{
  Bytes, codes, ◌≡◌, ◌≢◌, refl, Option, none, some, List, [], ◌∷◌, ◌++◌, M, pure, read, on_world,
  with_object, call, ◌>>=◌, ◌>>◌, done, Scoped,
}
use cluster_api_provider_hyp.Api.{Fault, failure, Result, value, fault}
use cluster_api_provider_hyp.Utils.Outside.{eof, other, Chunk, Remote}

pub data RemoteScriptType : Type 0 where
  cmd_line raw_script script_file : RemoteScriptType

-- A buffer that is not there is `none`. The standard error is never set.
pub record RemoteScript (Conn : Type 0) : Type 0 where
  pub client : Conn
  pub script_type : RemoteScriptType
  pub script : Option Bytes
  pub file_name : Bytes
  pub err : Option Fault
  pub stdout : Option Bytes

unfoldable pub script_of_file : {Conn : Type 0} → Conn → Bytes → RemoteScript Conn
script_of_file conn fname = record {
  client = conn;
  script_type = script_file;
  script = none;
  file_name = fname;
  err = none;
  stdout = none;
}

-- `io.Copy` of a file into an empty buffer.
unfoldable pub copy : List Chunk → Bytes → Result Bytes
copy [] buffer = value buffer
copy (c ∷ cs) buffer = elim c.error [
  | none ↦ copy cs (buffer ++ c.bytes)
  | some eof ↦ value (buffer ++ c.bytes)
  | some (other e) ↦ fault e
]

-- What is written to a standard output that is set.
abbrev written : Bytes → Option Bytes → Option Bytes
written out none = none
written out (some buffer) = some (buffer ++ out)

abbrev bytes_or_nil : Option Bytes → Bytes
bytes_or_nil none = []
bytes_or_nil (some b) = b

module _ {World Conn Session : Type 0} (remote : Remote World Conn Session) where
  abbrev Script : Type 0 → Type 0
  Script A = M (Scoped World (RemoteScript Conn)) A

  wait_for : Session → Script (Option Fault)
  wait_for session = do
    ended ← on_world (call λ w. remote.wait w session)
    with_object λ rs. record rs { stdout = written ended.0 rs.stdout }
    pure ended.1

  shell_on : Session → Script (Option Fault)
  unfolding wait_for
  shell_on session = do
    input ← read λ s. bytes_or_nil s.object.script
    started ← on_world (call λ w. remote.shell w session input)
    elim started [ some e ↦ pure (some e) | none ↦ wait_for session ]

  -- The session is not closed.
  unfoldable pub run_script : Script (Option Fault)
  unfolding shell_on
  run_script = do
    conn ← read λ s. s.object.client
    opened ← on_world (call λ w. remote.new_session w conn)
    elim opened [ fault e ↦ pure (some e) | value session ↦ shell_on session ]

  -- With the text that was copied.
  run_copied : Result Bytes → Script (Option Fault)
  unfolding run_script
  run_copied (fault e) = pure (some e)
  run_copied (value buffer) = do with_object λ rs. record rs { script = some buffer }; run_script

  unfoldable pub run_script_file : Script (Option Fault)
  unfolding run_copied
  run_script_file = do
    opened ← read λ s. remote.open_file s.world s.object.file_name
    elim opened [ fault e ↦ pure (some e) | value chunks ↦ run_copied (copy chunks []) ]

  unfoldable pub run_typed : RemoteScriptType → Script (Option Fault)
  unfolding run_script_file
  run_typed script_file = run_script_file
  run_typed _ = pure (some (failure (codes "Not supported remoteScript type")))

  -- A script with an error is not run.
  unfoldable pub run : Script (Option Fault)
  unfolding run_typed
  run = do
    rs ← read λ s. s.object
    elim rs.err [ some e ↦ pure (some e) | none ↦ run_typed rs.script_type ]

  -- An output that is already set is an error.
  unfoldable pub output : Script (Bytes × Option Fault)
  unfolding run
  output = do
    stdout ← read λ s. s.object.stdout
    elim stdout [
      | some _ ↦ pure ([], some (failure (codes "Stdout already set")))
      | none ↦ do
        with_object λ rs. record rs { stdout = some [] }
        err ← run
        out ← read λ s. bytes_or_nil s.object.stdout
        pure (out, err)
    ]
