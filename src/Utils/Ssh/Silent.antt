-- ===== src/Utils/Ssh/Silent.antt =====
-- What the SSH client leaves alone: the part of the world that its library leaves alone.
use cluster_api_provider_hyp.Base.{
  Bytes, List, [], ◌∷◌, ◌≡◌, refl, ap, arith, Option, M, call, must, panic, pure, ◌>>=◌,
}
use cluster_api_provider_hyp.Base.Tracked.{Keeps, >>=-Keeps, must-Keeps, pure-Keeps}
use cluster_api_provider_hyp.Api.{Fault, Result, value, fault}
use cluster_api_provider_hyp.Utils.Outside.{Remote, Chunk}
use cluster_api_provider_hyp.Utils.Ssh.{
  scp_file, read_chunks, substitute, echo_to, ssh_connect, in_session, send_commands, send, close,
}

module _ {World Conn Session V : Type 0} (remote : Remote World Conn Session)
    (view : World → V) where
  -- No call of the SSH library changes what `view` sees, such as the objects on the API server.
  pub record IsSilent : Type 0 where
    pub dial : (w : World) (addr user pw : Bytes) → view (remote.dial w addr user pw).1 ≡ view w
    pub new_session : (w : World) (c : Conn) → view (remote.new_session w c).1 ≡ view w
    pub request_pty : (w : World) (s : Session) → view (remote.request_pty w s).1 ≡ view w
    pub output : (w : World) (s : Session) (cmd : Bytes) → view (remote.output w s cmd).1 ≡ view w
    pub close_session : (w : World) (s : Session) → view (remote.close_session w s) ≡ view w
    pub close : (w : World) (c : Conn) → view (remote.close w c) ≡ view w

module _ {World Conn Session V : Type 0} (remote : Remote World Conn Session) (view : World → V)
    (silent : IsSilent remote view) where
  pub ssh_connect_same :
      (addr user pw : Bytes) (w : World) → view (ssh_connect remote addr user pw w).1 ≡ view w
  unfolding ssh_connect
  ssh_connect_same addr user pw w = silent.dial w addr user pw

  pub send_commands_same :
      (conn : Conn) (cmds : List Bytes) (w : World)
      → view (send_commands remote conn cmds w).1 ≡ view w
  unfolding send_commands in_session
  send_commands_same conn cmds w =
      grind (arith, silent.new_session, silent.request_pty, silent.output, silent.close_session)

  pub send_same : (conn : Conn) (cmd : Bytes) (w : World) → view (send remote conn cmd w).1 ≡ view w
  unfolding send
  send_same conn cmd w = ground (arith, send_commands_same conn (cmd ∷ []) w)

  pub close_same : (conn : Conn) (w : World) → view (close remote conn w).1 ≡ view w
  unfolding close
  close_same conn w = silent.close w conn

  pub ssh_connect-Keeps : (addr user pw : Bytes) → Keeps view (ssh_connect remote addr user pw)
  ssh_connect-Keeps addr user pw = record { same = ssh_connect_same addr user pw }

  pub send_commands-Keeps :
      (conn : Conn) (cmds : List Bytes) → Keeps view (send_commands remote conn cmds)
  send_commands-Keeps conn cmds = record { same = send_commands_same conn cmds }

  pub send-Keeps : (conn : Conn) (cmd : Bytes) → Keeps view (send remote conn cmd)
  send-Keeps conn cmd = record { same = send_same conn cmd }

  pub close-Keeps : (conn : Conn) → Keeps view (close remote conn)
  close-Keeps conn = record { same = close_same conn }

  opened-Keeps :
      (conn : Conn) (remote_path : Bytes) (config_map : List (Bytes × Bytes))
      (opened : Result (List Chunk))
      → Keeps view (elim opened as (λ _. M World (Option Fault)) [
        | fault e ↦ panic
        | value chunks ↦ must (read_chunks chunks []) >>= λ contents.
            call (λ w. (remote.range_order w config_map, w)) >>= λ ordered.
            send_commands remote conn (echo_to (substitute ordered contents) remote_path ∷ [])
            >>= λ sent. pure sent.1
      ])
  opened-Keeps conn remote_path config_map (fault e) = record { same = λ w. refl }
  opened-Keeps conn remote_path config_map (value chunks) =
      >>=-Keeps view (must (read_chunks chunks [])) _ (must-Keeps view (read_chunks chunks []))
        (λ contents.
          >>=-Keeps view (call λ w. (remote.range_order w config_map, w)) _
            (record { same = λ w. refl })
            (λ ordered.
              >>=-Keeps view
                (send_commands remote conn (echo_to (substitute ordered contents) remote_path ∷ []))
                _ (send_commands-Keeps conn _) (λ sent. pure-Keeps view sent.1)))

  pub scp_file-Keeps :
      (conn : Conn) (file_path remote_path : Bytes) (config_map : List (Bytes × Bytes))
      → Keeps view (scp_file remote conn file_path remote_path config_map)
  unfolding scp_file
  scp_file-Keeps conn file_path remote_path config_map =
      >>=-Keeps view (call λ w. (remote.open_file w file_path, w)) _ (record { same = λ w. refl })
        (opened-Keeps conn remote_path config_map)

-- Less is seen of what is left alone.
pub IsSilent-ap :
    {World Conn Session V U : Type 0} (remote : Remote World Conn Session) (view : World → V)
    (f : V → U)
    → IsSilent remote view
    → IsSilent remote (λ w. f (view w))
IsSilent-ap remote view f silent = record {
  dial = λ w addr user pw. ap f (silent.dial w addr user pw);
  new_session = λ w c. ap f (silent.new_session w c);
  request_pty = λ w s. ap f (silent.request_pty w s);
  output = λ w s cmd. ap f (silent.output w s cmd);
  close_session = λ w s. ap f (silent.close_session w s);
  close = λ w c. ap f (silent.close w c);
}
