-- ===== src/Utils/CloudInit/Total.antt =====
-- The reader of the cloud config ends on every input.
use cluster_api_provider_hyp.Base.{
  ℕ, zero, suc, ◌≤◌, Bytes, ◌≡◌, ◌≢◌, refl, List, [], ◌∷◌, ◌++◌, Option, none, some, arith, length,
  drop?, Option-cases, inl, inr, get_elem?,
}
use cluster_api_provider_hyp.Base.Split.{split}
use cluster_api_provider_hyp.Utils.CloudInit.{
  Section, CloudConfig, WriteFile, starved, read_run_cmd, read_contents, read_write_file,
  from_lines, from_bytes, scan_lines, new_cloud_config, prefix_path, prefix_owner, permission_of,
  scan, ◌>>=◌,
}

run_cmd_rest :
    (lines run_cmd : List Bytes) {found rest : List Bytes}
    → read_run_cmd lines run_cmd ≡ some (found, rest)
    → length rest ≤ length lines
unfolding read_run_cmd
run_cmd_rest [] run_cmd h = ground arith
run_cmd_rest (line ∷ lines) run_cmd h = ground arith

contents_rest :
    (lines contents run_cmd : List Bytes) {section : Section}
    → read_contents lines contents run_cmd ≡ some section
    → length section.rest ≤ length lines
unfolding read_contents
contents_rest [] contents run_cmd h = ground arith
contents_rest (line ∷ lines) contents run_cmd {section} h = elim (Option-cases (drop? 6 line)) [
  | inl e ↦ ground arith
  | inr (piece, e) ↦ ground (
    arith,
    contents_rest lines (contents ++ (piece ∷ [])) run_cmd {section = section},
    run_cmd_rest lines run_cmd,
  )
]

>>=-eq-some :
    {A B : Type 0} (m : Option A) (f : A → Option B) {b : B}
    → (m >>= f) ≡ some b
    → (a : A) × (m ≡ some a) × (f a ≡ some b)
>>=-eq-some none f h = cc
>>=-eq-some (some a) f h = (a, refl, h)

scan_rest : (lines : List Bytes) → length (scan lines).1 ≤ length lines
scan_rest [] = omega arith
scan_rest (line ∷ lines) = omega arith

write_file_rest :
    (line : Bytes) (lines run_cmd : List Bytes) {file : WriteFile} {section : Section}
    → read_write_file line lines run_cmd ≡ some (file, section)
    → length section.rest ≤ length lines
unfolding read_write_file
write_file_rest line lines run_cmd {section = section} h =
    let (path, _, h1) = >>=-eq-some (get_elem? (split line prefix_path) 1) _ h in
    let (owner, _, h2) = >>=-eq-some (get_elem? (split (scan lines).0 prefix_owner) 1) _ h1 in
    let (permission, _, h3) = >>=-eq-some (permission_of (scan (scan lines).1).0) _ h2 in
    let left = (scan (scan (scan lines).1).1).1 in
    let (found, e, h4) = >>=-eq-some (read_contents left [] run_cmd) _ h3 in
    let same : found ≡ section = (cc h4) in
    rw (← same) (
      omega (
        arith,
        contents_rest left [] run_cmd e,
        scan_rest lines,
        scan_rest (scan lines).1,
        scan_rest (scan (scan lines).1).1,
      ))

from_lines-ne-starved :
    (fuel : ℕ) (lines : List Bytes) (config : CloudConfig)
    → length lines ≤ fuel
    → from_lines fuel lines config ≢ starved
unfolding from_lines
from_lines-ne-starved fuel [] config h = ground arith
from_lines-ne-starved zero (line ∷ lines) config h = absurd (omega arith)
from_lines-ne-starved (suc fuel) (line ∷ lines) config h =
    elim (Option-cases (read_write_file line lines config.run_cmd)) [
      | inl e ↦ ground (arith, from_lines-ne-starved fuel lines config)
      | inr ((file, section), e) ↦ ground (
        arith,
        from_lines-ne-starved fuel lines config,
        write_file_rest line lines config.run_cmd e,
        from_lines-ne-starved fuel section.rest
            (record { write_files = config.write_files ++ (file ∷ []); run_cmd = section.run_cmd }),
      )
    ]

-- Every input is read or makes the reader panic: the loops of `FromBytes` end.
pub from_bytes-IsTotal : (input : Bytes) → from_bytes input ≢ starved
unfolding from_bytes
from_bytes-IsTotal input =
    from_lines-ne-starved (length (scan_lines input)) (scan_lines input) new_cloud_config
      (omega arith)
