-- ===== src/Utils/Outside.antt =====
-- What utils/sshClient.go calls: golang.org/x/crypto/ssh, the local files, and the order in which Go
-- ranges over a map. A parameter of the development.
use cluster_api_provider_hyp.Base.{Bytes, List, Option}
use cluster_api_provider_hyp.Api.{Fault, Result}

-- One `f.Read(buff)`: the bytes read, and its error.
pub data ReadError : Type 0 where
  eof : ReadError
  other : Fault → ReadError

pub record Chunk : Type 0 where
  pub bytes : Bytes
  pub error : Option ReadError

-- `dial w addr user password`; `output w session cmd` is `session.Output(cmd)`;
-- `shell w session input` is `session.Shell()` with that standard input, and `wait` is `session.Wait()`
-- with what was written to the standard output meanwhile. A file is the list of
-- what its successive reads give, and a read behind the last gives no byte.
pub record Remote (World Conn Session : Type 0) : Type 0 where
  pub dial : World → Bytes → Bytes → Bytes → Result Conn × World
  pub new_session : World → Conn → Result Session × World
  pub request_pty : World → Session → Option Fault × World
  pub output : World → Session → Bytes → (Bytes × Option Fault) × World
  pub shell : World → Session → Bytes → Option Fault × World
  pub wait : World → Session → (Bytes × Option Fault) × World
  pub close_session : World → Session → World
  pub close : World → Conn → World
  pub open_file : World → Bytes → Result (List Chunk)
  pub range_order : World → List (Bytes × Bytes) → List (Bytes × Bytes)
