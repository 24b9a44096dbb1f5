-- ===== src/Tests/Texts.antt =====
-- A cloud config, and the answers of a machine.
use cluster_api_provider_hyp.Base.{
  length, Bytes, codes, ◌++◌, ◌≡◌, ◌≢◌, refl, false, List, [], ◌∷◌, All, some, arith, has_prefix,
  strip_prefix?, contains,
}
use cluster_api_provider_hyp.Base.Split.{Lacks, cut?, push_front}
use cluster_api_provider_hyp.Utils.CloudInit.First.{read_run_cmd-first}
use cluster_api_provider_hyp.Utils.CloudInit.{
  read_run_cmd, from_lines, new_cloud_config, WriteFile, parsed, starved, from_bytes, prefix_path,
  prefix_run_cmd,
}
use cluster_api_provider_hyp.Utils.CloudInit.RoundTrip.{
  render, quoted, IsOpen, IsClosed, HasPlainFields, indent, render_file, render_run_cmd,
}
use cluster_api_provider_hyp.Utils.CloudInit.Text.{unlines, IsLine, from_bytes-render}
use cluster_api_provider_hyp.Utils.CloudInit.Total.{from_bytes-IsTotal}
use cluster_api_provider_hyp.PoolController.Validation.{os_of}
use cluster_api_provider_hyp.PoolController.Validation.Answers.{crlf, double_quote, os_of-line}

abbrev header : List Bytes
header = codes "write_files:" ∷ []

abbrev cert : WriteFile
cert = record {
  path = codes "/pki/ca.crt";
  owner = codes "root";
  permissions = codes "0640";
  contents = codes "MII" ∷ codes "-----END CERT" ∷ [];
}

abbrev config_file : WriteFile
config_file = record {
  path = codes "/tmp/k.yaml";
  owner = codes "root";
  permissions = codes "0640";
  contents = codes "kind: X" ∷ codes "  name: n" ∷ [];
}

abbrev command : Bytes
command = codes "kubeadm init"

starts_no_file : All (λ line. has_prefix line prefix_path ≡ false) header
unfolding codes has_prefix strip_prefix?
starts_no_file = (refl, tt)

cert_plain : HasPlainFields cert
unfolding codes cut? push_front strip_prefix? quoted
cert_plain = record {
  path_lacks = refl;
  owner_lacks = refl;
  permissions_lack = refl;
  permissions_unquoted = ground arith;
}

file_plain : HasPlainFields config_file
unfolding codes cut? push_front strip_prefix? quoted
file_plain = record {
  path_lacks = refl;
  owner_lacks = refl;
  permissions_lack = refl;
  permissions_unquoted = ground arith;
}

cert-IsClosed : IsClosed cert.contents
unfolding codes contains has_prefix strip_prefix? indent
cert-IsClosed = (refl, refl)

file-IsOpen : IsOpen config_file.contents
unfolding codes contains has_prefix strip_prefix? indent
file-IsOpen = (refl, (refl, tt))

command-Lacks : Lacks prefix_run_cmd (quoted command)
unfolding codes cut? push_front strip_prefix? quoted
command-Lacks = refl

command_unquoted : All (λ c. c ≢ b'\'') command
unfolding codes
command_unquoted = ground arith

are_lines : All IsLine (header ++ render (cert ∷ []) config_file command)
unfolding codes render render_file render_run_cmd quoted indent
are_lines = ground arith

from_bytes-render_example :
    from_bytes (unlines (header ++ render (cert ∷ []) config_file command))
    ≡ parsed (record { write_files = cert ∷ config_file ∷ []; run_cmd = command ∷ [] })
from_bytes-render_example =
    from_bytes-render header (cert ∷ []) config_file command starts_no_file are_lines
      ((cert_plain, cert-IsClosed), tt) file_plain file-IsOpen command-Lacks command_unquoted

from_bytes-IsTotal_example : from_bytes (codes "-   path: /a") ≢ starved
from_bytes-IsTotal_example = from_bytes-IsTotal (codes "-   path: /a")

abbrev centos_name : Bytes
centos_name = codes "centos"

centos_unquoted : All (λ c. c ≢ double_quote) centos_name
unfolding codes
centos_unquoted = ground arith

os_of-line_example :
    (os_of (codes "ID=" ++ (centos_name ++ crlf)) ≡ some centos_name)
    × (os_of (codes "ID=" ++ ((double_quote ∷ (centos_name ++ (double_quote ∷ []))) ++ crlf))
        ≡ some centos_name)
os_of-line_example = os_of-line centos_name centos_unquoted

-- A section of three commands.
abbrev more_commands : List Bytes
more_commands = codes "  - systemctl start kubelet" ∷ codes "  - kubectl apply" ∷ []

start_none : All (λ line. has_prefix line prefix_path ≡ false) more_commands
unfolding codes has_prefix strip_prefix?
start_none = (refl, (refl, tt))

read_run_cmd-first_example :
    (read_run_cmd ((prefix_run_cmd ++ quoted command) ∷ more_commands) []
      ≡ some (command ∷ [], more_commands))
    × (from_lines (length more_commands) more_commands new_cloud_config ≡ parsed new_cloud_config)
read_run_cmd-first_example =
    read_run_cmd-first command more_commands [] new_cloud_config command-Lacks command_unquoted
      start_none
