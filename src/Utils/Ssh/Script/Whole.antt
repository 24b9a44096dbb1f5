-- ===== src/Utils/Ssh/Script/Whole.antt =====
-- What a script's run feeds to the remote shell.
use cluster_api_provider_hyp.Base.{
  Bytes, ◌≡◌, refl, ap, ◌∙◌, Option, none, some, List, [], ◌∷◌, ◌++◌, append_assoc, done,
}
use cluster_api_provider_hyp.Api.{Fault, value}
use cluster_api_provider_hyp.Utils.Outside.{eof, Chunk, Remote}
use cluster_api_provider_hyp.Utils.Ssh.Script.{
  script_of_file, copy, run_script, run_script_file, run_typed, run, output,
}

-- The reads of a file, of which each gives the next part of it, up to its end.
abbrev pub reads : List Bytes → List Chunk
reads [] = record { bytes = []; error = some eof } ∷ []
reads (p ∷ ps) = record { bytes = p; error = none } ∷ reads ps

abbrev pub whole : List Bytes → Bytes
whole [] = []
whole (p ∷ ps) = p ++ whole ps

copy-reads :
    (ps : List Bytes) (buffer : Bytes) → copy (reads ps) buffer ≡ value (buffer ++ whole ps)
unfolding copy
copy-reads [] buffer = refl
copy-reads (p ∷ ps) buffer =
    copy-reads ps (buffer ++ p) ∙ ap value (append_assoc buffer p (whole ps))

module _ {World Conn Session : Type 0} (remote : Remote World Conn Session) where
  -- The output of a script that was made from a file's name is what the remote shell writes when it is
  -- fed the whole file, and its error is the shell's, where the file is read part by part to its end,
  -- the session is opened and the shell starts.
  pub output-IsWhole :
      (w w1 w2 w3 : World) (conn : Conn) (fname : Bytes) (parts : List Bytes) (session : Session)
      (out : Bytes) (err : Option Fault)
      → remote.open_file w fname ≡ value (reads parts)
      → remote.new_session w conn ≡ (value session, w1)
      → remote.shell w1 session (whole parts) ≡ (none, w2)
      → remote.wait w2 session ≡ ((out, err), w3)
      → output remote (record { world = w; object = script_of_file conn fname }) ≡ (
        done (out, err),
        record {
          world = w3;
          object = record (script_of_file conn fname) {
            script = some (whole parts);
            stdout = some out;
          };
        },
      )
  unfolding output run run_typed run_script_file run_script script_of_file
  output-IsWhole w w1 w2 w3 conn fname parts session out err opened connected started ended =
      simp (opened, copy-reads parts [], connected, started, ended)
