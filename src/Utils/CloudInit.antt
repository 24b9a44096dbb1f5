-- ===== src/Utils/CloudInit.antt =====
-- utils/cloudConfig.go: the reader of the cloud-init text that the bootstrap provider writes.
-- `bufio.ScanLines` is modelled from its documentation: lines without their end, up to the first line
-- that does not fit the scanner's buffer; behind the last line `Text` is empty.
pub mod Total
pub mod RoundTrip
pub mod First
pub mod Text
use cluster_api_provider_hyp.Base.{
  ℕ, zero, suc, Bytes, codes, List, [], ◌∷◌, ◌++◌, Option, none, some, ltb, nat_eq, length,
  get_elem?, drop?, has_prefix, contains, if◌then◌else◌,
}
use cluster_api_provider_hyp.Base.Split.{split}

pub record WriteFile : Type 0 where
  pub path : Bytes
  pub owner : Bytes
  pub permissions : Bytes
  pub contents : List Bytes

pub record CloudConfig : Type 0 where
  pub write_files : List WriteFile
  pub run_cmd : List Bytes

-- `NewCloudConfig`
abbrev pub new_cloud_config : CloudConfig
new_cloud_config = record { write_files = []; run_cmd = [] }

-- `StartCondiWriteFile` is the same text.
abbrev pub prefix_path : Bytes
prefix_path = codes "-   path: "

abbrev pub prefix_owner : Bytes
prefix_owner = codes "    owner: "

abbrev pub prefix_permission : Bytes
prefix_permission = codes "    permissions: "

abbrev pub end_condi_write_file : Bytes
end_condi_write_file = codes "-----END"

abbrev pub start_condi_run_cmd : Bytes
start_condi_run_cmd = codes "runcmd"

abbrev pub prefix_run_cmd : Bytes
prefix_run_cmd = codes "  - "

abbrev pub quote : Bytes
quote = b'\'' ∷ []

-- `dropCR` on the bytes read so far, of which the last may be a carriage return.
drop_cr : Bytes → Bytes
drop_cr [] = []
drop_cr (c ∷ []) = if nat_eq c b'\r' then [] else c ∷ []
drop_cr (c ∷ d ∷ s) = c ∷ drop_cr (d ∷ s)

raw_lines : Bytes → Bytes → List Bytes
raw_lines [] [] = []
raw_lines [] (c ∷ cur) = (c ∷ cur) ∷ []
raw_lines (c ∷ s) cur =
    let next = cur ∷ raw_lines s [] in
    let more = raw_lines s (cur ++ (c ∷ [])) in if nat_eq c b'\n' then next else more

-- A line of 64 KB ends the scan.
fitting : List Bytes → List Bytes
unfolding drop_cr
fitting [] = []
fitting (l ∷ ls) = if ltb (length l) 65536 then drop_cr l ∷ fitting ls else []

unfoldable pub scan_lines : Bytes → List Bytes
unfolding raw_lines fitting
scan_lines input = fitting (raw_lines input [])

-- `scanner.Scan()`, `scanner.Text()`
abbrev pub scan : List Bytes → Bytes × List Bytes
scan [] = ([], [])
scan (l ∷ ls) = (l, ls)

-- A chain of index and slice expressions, of which each may panic.
infixl 5 ◌>>=◌
abbrev ◌>>=◌ {ℓ κ} : {A : Type ℓ} {B : Type κ} → Option A → (A → Option B) → Option B
none >>= f = none
some a >>= f = f a

-- The command in a line of the `runcmd` section.
unfoldable pub command_of : Bytes → Option Bytes
command_of line = do
  behind ← get_elem? (split line prefix_run_cmd) 1
  let parts = split behind quote
  get_elem? parts (if nat_eq (length parts) 1 then 0 else 1)

-- What the loop over a file's contents leaves: the contents, the commands found, the lines unread.
pub record Section : Type 0 where
  pub contents : List Bytes
  pub run_cmd : List Bytes
  pub rest : List Bytes

-- The loop in the `runcmd` section: its `break` ends it after one line.
unfoldable pub read_run_cmd : List Bytes → List Bytes → Option (List Bytes × List Bytes)
unfolding command_of
read_run_cmd lines run_cmd =
    let (line, rest) = scan lines in
    if contains line prefix_run_cmd
    then (do cmd ← command_of line; some (run_cmd ++ (cmd ∷ []), rest))
    else some (run_cmd, rest)

-- The loop over the lines of a file; `none` is a panic, as at the end of the input.
unfoldable pub read_contents : List Bytes → List Bytes → List Bytes → Option Section
unfolding read_run_cmd
read_contents [] contents run_cmd = none
read_contents (line ∷ rest) contents run_cmd = do
  piece ← drop? 6 line
  let more = read_contents rest (contents ++ (piece ∷ [])) run_cmd
  if contains line end_condi_write_file
      then some (record { contents = contents ++ (piece ∷ []); run_cmd = run_cmd; rest = rest })
      else if has_prefix line start_condi_run_cmd
      then (do
        (run_cmd', rest') ← read_run_cmd rest run_cmd
        some (record { contents = contents; run_cmd = run_cmd'; rest = rest' }))
      else more

permission_of : Bytes → Option Bytes
permission_of line = do
  quoted ← get_elem? (split line prefix_permission) 1
  get_elem? (split quoted quote) 1

-- One `write_files` entry, from its first line; the commands found go with it.
unfoldable pub read_write_file : Bytes → List Bytes → List Bytes → Option (WriteFile × Section)
unfolding permission_of
read_write_file line lines run_cmd = do
  path ← get_elem? (split line prefix_path) 1
  let (owner_line, lines1) = scan lines
  owner ← get_elem? (split owner_line prefix_owner) 1
  let (permission_line, lines2) = scan lines1
  permission ← permission_of permission_line
  let (_, lines3) = scan lines2
  section ← read_contents lines3 [] run_cmd
  some (
    record { path = path; owner = owner; permissions = permission; contents = section.contents },
    section,
  )

-- `starved` only says that the fuel ran out.
pub data Parse : Type 0 where
  parsed : CloudConfig → Parse
  panicked : Parse
  starved : Parse

unfoldable pub from_lines : ℕ → List Bytes → CloudConfig → Parse
from_lines fuel [] config = parsed config
from_lines zero (line ∷ rest) config = starved
from_lines (suc fuel) (line ∷ rest) config =
    let skip = from_lines fuel rest config in
    if has_prefix line prefix_path
    then (elim (read_write_file line rest config.run_cmd) [
      | none ↦ panicked
      | some (file, section) ↦
          from_lines fuel section.rest
            (record { write_files = config.write_files ++ (file ∷ []); run_cmd = section.run_cmd })
    ])
    else skip

-- Each round reads a line at least.
unfoldable pub from_bytes : Bytes → Parse
unfolding from_lines scan_lines
from_bytes input = from_lines (length (scan_lines input)) (scan_lines input) new_cloud_config
