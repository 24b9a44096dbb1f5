-- ===== src/Utils/CloudInit/First.antt =====
-- The commands behind the first of a `runcmd` section.
use cluster_api_provider_hyp.Base.{
  Bytes, ◌≡◌, ◌≢◌, refl, false, List, [], ◌∷◌, ◌++◌, some, All, length, has_prefix, contains-prefix,
}
use cluster_api_provider_hyp.Base.Split.{Lacks}
use cluster_api_provider_hyp.Utils.CloudInit.{
  CloudConfig, parsed, from_lines, read_run_cmd, prefix_path, prefix_run_cmd,
}
use cluster_api_provider_hyp.Utils.CloudInit.RoundTrip.{quoted, read_command}

nothing_read :
    (lines : List Bytes) (config : CloudConfig)
    → All (λ line. has_prefix line prefix_path ≡ false) lines
    → from_lines (length lines) lines config ≡ parsed config
unfolding from_lines
nothing_read [] config h = refl
nothing_read (line ∷ lines) config (h, t) = rw h (nothing_read lines config t)

-- Of a `runcmd` section only the first command is read, where it stands in quotes and has no quote in
-- it: the loop over the section gives the other lines back, and the loop over the text reads nothing
-- from them, where none of them starts a file.
pub read_run_cmd-first :
    (cmd : Bytes) (others run_cmd : List Bytes) (config : CloudConfig)
    → Lacks prefix_run_cmd (quoted cmd)
    → All (λ c. c ≢ b'\'') cmd
    → All (λ line. has_prefix line prefix_path ≡ false) others
    → (read_run_cmd ((prefix_run_cmd ++ quoted cmd) ∷ others) run_cmd
        ≡ some (run_cmd ++ (cmd ∷ []), others))
      × (from_lines (length others) others config ≡ parsed config)
unfolding read_run_cmd
read_run_cmd-first cmd others run_cmd config lacks unquoted starts_none = (
  rw (contains-prefix prefix_run_cmd (quoted cmd), read_command cmd lacks unquoted) refl,
  nothing_read others config starts_none,
)
