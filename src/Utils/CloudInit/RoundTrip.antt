-- ===== src/Utils/CloudInit/RoundTrip.antt =====
-- What the reader gives back of a text that the bootstrap provider writes: files that end in the END
-- line of a certificate, then one file that is ended by the `runcmd` section with one command.
use cluster_api_provider_hyp.Base.{
  ℕ, zero, suc, ◌<◌, Bytes, codes, ◌≡◌, ◌≢◌, refl, ◌∙◌, true, false, List, [], ◌∷◌, ◌++◌, some,
  arith, All, length, drop?, contains, has_prefix, has_prefix-append, strip_prefix?,
  contains-prefix, append_assoc, append-nil,
}
use mathlib.Core.List.{map, cons-ne-nil}
use cluster_api_provider_hyp.Base.Split.{Lacks, get_elem?-split_one, split_quoted}
use cluster_api_provider_hyp.Utils.CloudInit.{
  Section, CloudConfig, WriteFile, parsed, command_of, read_contents, read_write_file,
  permission_of, from_lines, prefix_path, prefix_owner, prefix_permission, prefix_run_cmd,
  end_condi_write_file, start_condi_run_cmd,
}

-- A line of a file stands behind six spaces.
unfoldable pub indent : Bytes → Bytes
unfolding codes
indent line = codes "      " ++ line

unfoldable pub quoted : Bytes → Bytes
quoted text = b'\'' ∷ (text ++ (b'\'' ∷ []))

-- The lines of one file, before those that follow.
unfoldable pub render_file : WriteFile → List Bytes → List Bytes
unfolding indent quoted
render_file f rest =
    (prefix_path ++ f.path)
    ∷ (prefix_owner ++ f.owner)
    ∷ (prefix_permission ++ quoted f.permissions)
    ∷ codes "    content: |"
    ∷ (map indent f.contents ++ rest)

unfoldable pub render_run_cmd : Bytes → List Bytes
render_run_cmd cmd = codes "runcmd:" ∷ (prefix_run_cmd ++ quoted cmd) ∷ []

-- No line holds the END mark.
abbrev pub IsOpen : List Bytes → Type 0
IsOpen = All (λ line. contains (indent line) end_condi_write_file ≡ false)

-- The last line holds the END mark, and no other does.
abbrev pub IsClosed : List Bytes → Type 0
IsClosed [] = ⊥
IsClosed (line ∷ []) = contains (indent line) end_condi_write_file ≡ true
IsClosed (line ∷ next ∷ lines) =
    (contains (indent line) end_condi_write_file ≡ false) × IsClosed (next ∷ lines)

-- The fields of a file do not hold the texts by which the reader finds them.
pub record HasPlainFields (f : WriteFile) : Type 0 where
  pub path_lacks : Lacks prefix_path f.path
  pub owner_lacks : Lacks prefix_owner f.owner
  pub permissions_lack : Lacks prefix_permission (quoted f.permissions)
  pub permissions_unquoted : All (λ c. c ≢ b'\'') f.permissions

indent_piece : (line : Bytes) → drop? 6 (indent line) ≡ some line
unfolding indent drop?
indent_piece line = refl

indent_not_run_cmd : (line : Bytes) → has_prefix (indent line) start_condi_run_cmd ≡ false
unfolding indent has_prefix strip_prefix?
indent_not_run_cmd line = refl

read_closed :
    (lines rest acc run_cmd : List Bytes)
    → IsClosed lines
    → read_contents (map indent lines ++ rest) acc run_cmd
      ≡ some (record { contents = acc ++ lines; run_cmd = run_cmd; rest = rest })
unfolding read_contents
read_closed [] rest acc run_cmd h = absurd h
read_closed (line ∷ []) rest acc run_cmd h = rw (indent_piece line, h) refl
read_closed (line ∷ next ∷ lines) rest acc run_cmd (h, t) =
    rw (indent_piece line, h, indent_not_run_cmd line)
      (read_closed (next ∷ lines) rest (acc ++ (line ∷ [])) run_cmd t ∙ rw append_assoc refl)

prefix_run_cmd-ne-nil : prefix_run_cmd ≢ []
unfolding codes
prefix_run_cmd-ne-nil = cons-ne-nil _ _

pub read_command :
    (cmd : Bytes)
    → Lacks prefix_run_cmd (quoted cmd)
    → All (λ c. c ≢ b'\'') cmd
    → command_of (prefix_run_cmd ++ quoted cmd) ≡ some cmd
unfolding command_of quoted
read_command cmd lacks plain =
    rw
      (
        get_elem?-split_one prefix_run_cmd (quoted cmd) prefix_run_cmd-ne-nil lacks,
        split_quoted b'\'' cmd plain,
      )
      refl

run_cmd_line :
    (drop? 6 (codes "runcmd:") ≡ some (codes ":"))
    × (contains (codes "runcmd:") end_condi_write_file ≡ false)
    × (has_prefix (codes "runcmd:") start_condi_run_cmd ≡ true)
unfolding codes drop? contains has_prefix strip_prefix?
run_cmd_line = (refl, refl, refl)

-- The `runcmd` section behind the contents of a file.
read_open :
    (lines acc run_cmd : List Bytes) (cmd : Bytes)
    → IsOpen lines
    → Lacks prefix_run_cmd (quoted cmd)
    → All (λ c. c ≢ b'\'') cmd
    → read_contents (map indent lines ++ render_run_cmd cmd) acc run_cmd
      ≡ some (record { contents = acc ++ lines; run_cmd = run_cmd ++ (cmd ∷ []); rest = [] })
unfolding read_contents render_run_cmd
read_open [] acc run_cmd cmd h lacks plain =
    rw
      (
        run_cmd_line.0,
        run_cmd_line.1,
        run_cmd_line.2,
        contains-prefix prefix_run_cmd (quoted cmd),
        read_command cmd lacks plain,
      )
      (rw append-nil)
read_open (line ∷ lines) acc run_cmd cmd (h, t) lacks plain =
    rw (indent_piece line, h, indent_not_run_cmd line)
      (read_open lines (acc ++ (line ∷ [])) run_cmd cmd t lacks plain ∙ rw append_assoc refl)

fields_ne_nil : (prefix_path ≢ []) × (prefix_owner ≢ []) × (prefix_permission ≢ [])
unfolding codes
fields_ne_nil = (cons-ne-nil _ _, cons-ne-nil _ _, cons-ne-nil _ _)

read_permission :
    (f : WriteFile)
    → HasPlainFields f
    → permission_of (prefix_permission ++ quoted f.permissions) ≡ some f.permissions
unfolding permission_of quoted
read_permission f plain =
    rw
      (
        get_elem?-split_one prefix_permission (quoted f.permissions) fields_ne_nil.2
            plain.permissions_lack,
        split_quoted b'\'' f.permissions plain.permissions_unquoted,
      )
      refl

-- The first lines of a file give its fields, and the loop over the rest its contents.
read_file :
    (f : WriteFile) (rest run_cmd : List Bytes) (section : Section)
    → HasPlainFields f
    → read_contents (map indent f.contents ++ rest) [] run_cmd ≡ some section
    → read_write_file
        (prefix_path ++ f.path)
        ((prefix_owner ++ f.owner)
          ∷ (prefix_permission ++ quoted f.permissions)
          ∷ codes "    content: |"
          ∷ (map indent f.contents ++ rest))
        run_cmd
      ≡ some (record f { contents = section.contents }, section)
unfolding read_write_file
read_file f rest run_cmd section plain h =
    rw
      (
        get_elem?-split_one prefix_path f.path fields_ne_nil.0 plain.path_lacks,
        get_elem?-split_one prefix_owner f.owner fields_ne_nil.1 plain.owner_lacks,
        read_permission f plain,
        h,
      )
      refl

-- The lines of all files and of the `runcmd` section.
unfoldable pub render : List WriteFile → WriteFile → Bytes → List Bytes
unfolding render_file render_run_cmd
render [] last cmd = render_file last (render_run_cmd cmd)
render (f ∷ certs) last cmd = render_file f (render certs last cmd)

abbrev pub IsCert : WriteFile → Type 0
IsCert f = HasPlainFields f × IsClosed f.contents

module _ (last : WriteFile) (cmd : Bytes) (plain : HasPlainFields last)
    (unmarked : IsOpen last.contents) (lacks : Lacks prefix_run_cmd (quoted cmd))
    (unquoted : All (λ c. c ≢ b'\'') cmd) where
  pub from_lines-render :
      (fuel : ℕ) (certs : List WriteFile) (config : CloudConfig)
      → length certs < fuel
      → All IsCert certs
      → from_lines fuel (render certs last cmd) config
        ≡ parsed (record {
          write_files = config.write_files ++ (certs ++ (last ∷ []));
          run_cmd = config.run_cmd ++ (cmd ∷ []);
        })
  unfolding from_lines render
  from_lines-render zero certs config h c = elim h [ ]
  from_lines-render (suc zero) [] config h c =
      rw
        (
          has_prefix-append prefix_path last.path,
          read_file last (render_run_cmd cmd) config.run_cmd _ plain
              (read_open last.contents [] config.run_cmd cmd unmarked lacks unquoted),
        )
        refl
  from_lines-render (suc (suc fuel)) [] config h c =
      rw
        (
          has_prefix-append prefix_path last.path,
          read_file last (render_run_cmd cmd) config.run_cmd _ plain
              (read_open last.contents [] config.run_cmd cmd unmarked lacks unquoted),
        )
        refl
  from_lines-render (suc fuel) (f ∷ certs) config h ((fields, closed), c) =
      rw
        (
          has_prefix-append prefix_path f.path,
          read_file f (render certs last cmd) config.run_cmd _ fields
              (read_closed f.contents (render certs last cmd) [] config.run_cmd closed),
        )
        (from_lines-render fuel certs
            (record config { write_files = config.write_files ++ (f ∷ []) }) (omega arith) c
          ∙ rw append_assoc refl)
