-- ===== src/Ipc.antt =====
-- ipc.rs: what the helper process and the window tell each other. The JSON text of the status file
-- is serde's, so that a status is the value that is written and read.
pub mod Files
use mac_os_sstp_client.Prelude.{ℕ, ◌-◌, ◌==◌, ltb, if◌then◌else◌, Option, none, some, Bool, true}
use mac_os_sstp_client.Prelude.Text.{Str}
use mac_os_sstp_client.Connection.{ConnectError}

pub data WorkerState : Type 0 where
  connecting connected_state disconnected_state error_state : WorkerState

-- The errors with which the helper process ends, as they are formatted for the message.
pub data WorkerError : Type 0 where
  password_unreadable : Str → WorkerError
  empty_password : WorkerError
  unresolved : Str → WorkerError
  no_runtime : Str → WorkerError
  connection_failed : ConnectError → WorkerError

pub record VpnStatusFile : Type 0 where
  pub state : Option WorkerState
  pub interface : Option Str
  pub local_ip : Option Str
  pub peer_ip : Option Str
  pub dns1 : Option Str
  pub dns2 : Option Str
  pub message : Option WorkerError
  pub pid : Option ℕ

-- `Default::default()`.
abbrev pub no_status : VpnStatusFile
no_status = record {
  state = none;
  interface = none;
  local_ip = none;
  peer_ip = none;
  dns1 = none;
  dns2 = none;
  message = none;
  pid = none;
}

-- `pid as libc::pid_t`: a number from 2 ^ 31 on becomes negative.
pub data PidT : Type 0 where
  positive : ℕ → PidT
  negative : ℕ → PidT

abbrev pub as_pid_t : ℕ → PidT
as_pid_t pid = if ltb pid 2147483648 then positive pid else negative (4294967296 - pid)

abbrev pub eperm : ℕ
eperm = 1

-- `kill` with the signal 0 answers with nothing or with an error number.
unfoldable pub pid_alive : (PidT → Option ℕ) → ℕ → Bool
pid_alive kill pid = elim (kill (as_pid_t pid)) [ none ↦ true | some errno ↦ errno == eperm ]
