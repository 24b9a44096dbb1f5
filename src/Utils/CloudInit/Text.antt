-- ===== src/Utils/CloudInit/Text.antt =====
-- The round trip on the bytes of the text.
use native.Mathlib.Nat.{zero-add}
use cluster_api_provider_hyp.Base.{
  ℕ, suc, ◌+◌, ◌<◌, Bytes, ◌≡◌, ◌≢◌, refl, ap, ◌∙◌, false, List, [], ◌∷◌, ◌++◌, arith, All, length,
  length-append, has_prefix, append_assoc, append-nil,
}
use cluster_api_provider_hyp.Base.Split.{Lacks}
use cluster_api_provider_hyp.Utils.CloudInit.{
  WriteFile, CloudConfig, parsed, from_lines, from_bytes, scan_lines, raw_lines, fitting, drop_cr,
  new_cloud_config, prefix_path, prefix_run_cmd,
}
use cluster_api_provider_hyp.Utils.CloudInit.RoundTrip.{
  render, quoted, IsCert, IsOpen, HasPlainFields, from_lines-render, render_file,
}

-- Each line with its end.
unfoldable pub unlines : List Bytes → Bytes
unlines [] = []
unlines (line ∷ lines) = line ++ (b'\n' ∷ unlines lines)

-- A line that the scanner gives back: no line end or carriage return in it, and short enough.
abbrev pub IsLine : Bytes → Type 0
IsLine line = All (λ c. (c ≢ b'\n') × (c ≢ b'\r')) line × (length line < 65536)

raw_line :
    (line rest cur : Bytes)
    → All (λ c. (c ≢ b'\n') × (c ≢ b'\r')) line
    → raw_lines (line ++ (b'\n' ∷ rest)) cur ≡ (cur ++ line) ∷ raw_lines rest []
unfolding raw_lines
raw_line [] rest cur h = rw append-nil refl
raw_line (c ∷ line) rest cur ((hn, hr), h) =
    ground (arith, raw_line line rest (cur ++ (c ∷ [])) h, append_assoc cur (c ∷ []) line)

raw_lines-unlines : (lines : List Bytes) → All IsLine lines → raw_lines (unlines lines) [] ≡ lines
unfolding unlines raw_lines
raw_lines-unlines [] h = refl
raw_lines-unlines (line ∷ lines) ((h, _), t) =
    raw_line line (unlines lines) [] h ∙ ap (◌∷◌ line) (raw_lines-unlines lines t)

drop_cr_none : (line : Bytes) → All (λ c. (c ≢ b'\n') × (c ≢ b'\r')) line → drop_cr line ≡ line
unfolding drop_cr
drop_cr_none [] h = refl
drop_cr_none (c ∷ []) h = ground arith
drop_cr_none (c ∷ d ∷ line) (h, t) = ap (◌∷◌ c) (drop_cr_none (d ∷ line) t)

fitting-All : (lines : List Bytes) → All IsLine lines → fitting lines ≡ lines
unfolding fitting
fitting-All [] h = refl
fitting-All (line ∷ lines) ((h, short), t) =
    ground (arith, drop_cr_none line h, fitting-All lines t)

-- Scanning the lines of a text gives them back.
pub scan_lines-unlines :
    (lines : List Bytes) → All IsLine lines → scan_lines (unlines lines) ≡ lines
unfolding scan_lines
scan_lines-unlines lines h = rw (raw_lines-unlines lines h) (fitting-All lines h)

add_suc_left : (a b : ℕ) → suc a + b ≡ suc (a + b)
add_suc_left a b = omega arith

from_lines_skip :
    (fuel : ℕ) (before lines : List Bytes) (config : CloudConfig)
    → All (λ line. has_prefix line prefix_path ≡ false) before
    → from_lines (length before + fuel) (before ++ lines) config ≡ from_lines fuel lines config
unfolding from_lines
from_lines_skip fuel [] lines config h = rw zero-add refl
from_lines_skip fuel (line ∷ before) lines config (h, t) =
    rw (add_suc_left (length before) fuel, h) (from_lines_skip fuel before lines config t)

length-render :
    (certs : List WriteFile) (last : WriteFile) (cmd : Bytes)
    → length certs < length (render certs last cmd)
unfolding render render_file
length-render [] last cmd = omega arith
length-render (f ∷ certs) last cmd = omega (arith, length-render certs last cmd, length-append {0})

-- A text of lines that start no file, files that end in an END line, one more file and a `runcmd`
-- section with one command in quotes is read as those files, with every field and every line of
-- their contents, and that command, where no line is longer than the scanner takes, the fields
-- lack the marks by which the reader finds them, and the command has no quote in it.
pub from_bytes-render :
    (before : List Bytes) (certs : List WriteFile) (last : WriteFile) (cmd : Bytes)
    → All (λ line. has_prefix line prefix_path ≡ false) before
    → All IsLine (before ++ render certs last cmd)
    → All IsCert certs
    → HasPlainFields last
    → IsOpen last.contents
    → Lacks prefix_run_cmd (quoted cmd)
    → All (λ c. c ≢ b'\'') cmd
    → from_bytes (unlines (before ++ render certs last cmd))
      ≡ parsed (record { write_files = certs ++ (last ∷ []); run_cmd = cmd ∷ [] })
unfolding from_bytes
from_bytes-render before certs last cmd start lines closed plain unmarked lacks unquoted =
    rw (scan_lines-unlines _ lines, length-append before (render certs last cmd))
      (from_lines_skip (length (render certs last cmd)) before (render certs last cmd)
          new_cloud_config start
        ∙ from_lines-render last cmd plain unmarked lacks unquoted _ certs new_cloud_config
            (length-render certs last cmd) closed)
