-- ===== src/Tests/Scripts.antt =====
-- A script of two reads that is fed to a remote shell.
use cluster_api_provider_hyp.Base.{codes, ◌≡◌, refl, [], ◌∷◌, none, some, done}
use cluster_api_provider_hyp.Api.{value}
use cluster_api_provider_hyp.Utils.{Remote}
use cluster_api_provider_hyp.Utils.Ssh.Script.{script_of_file, output}
use cluster_api_provider_hyp.Utils.Ssh.Script.Whole.{reads, output-IsWhole}
use cluster_api_provider_hyp.Tests.Memory.{Memory}
use cluster_api_provider_hyp.Tests.System.{remote, memory}

abbrev scripted : Remote Memory (Unit {0}) (Unit {0})
scripted = record remote { open_file = λ w name. value (reads (codes "echo " ∷ codes "hi" ∷ [])) }

output-IsWhole_example :
    output scripted (record { world = memory; object = script_of_file tt (codes "install.sh") }) ≡ (
      done (codes "done", none),
      record {
        world = record memory { sent = codes "echo hi" ∷ [] };
        object = record (script_of_file tt (codes "install.sh")) {
          script = some (codes "echo hi");
          stdout = some (codes "done");
        };
      },
    )
unfolding codes
output-IsWhole_example =
    output-IsWhole scripted memory memory (record memory { sent = codes "echo hi" ∷ [] })
      (record memory { sent = codes "echo hi" ∷ [] }) tt (codes "install.sh")
      (codes "echo " ∷ codes "hi" ∷ []) tt (codes "done") none refl refl refl refl
