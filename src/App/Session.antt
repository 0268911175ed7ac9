-- ===== src/App/Session.antt =====
-- main.rs: the threads of `spawn_connect` and `spawn_disconnect`.
pub mod Effects
use mac_os_sstp_client.Prelude.{
  ℕ, ◌+◌, List, [], ◌∷◌, ◌++◌, Result, ok, err, Option, none, some, Bool, true, false, ◌||◌,
  is_empty, if◌then◌else◌,
}
use mac_os_sstp_client.Prelude.Text.{codes, Str}
use mac_os_sstp_client.Prelude.Text.Lines.{trim, nonempty}
use mac_os_sstp_client.Prelude.Command.{Command, Output}
use mac_os_sstp_client.Elevate.{run_elevated}
use mac_os_sstp_client.Ipc.{WorkerState, disconnected_state, error_state, PidT, pid_alive}
use mac_os_sstp_client.App.{Profile, VpnStatus, disconnected, connecting_status, worker_command}

-- The lines of the log.
pub data LogLine : Type 0 where
  nothing_to_connect no_executable : LogLine
  password_unstaged : Str → LogLine
  connecting_to : Str → LogLine
  disconnecting forcing_line disconnected_line : LogLine

pub data Action : Type 0 where
  set_busy : Bool → Action
  set_status : VpnStatus → Action
  clear_interface : Action
  append_log : LogLine → Action
  notify_fill_in : Action
  stage_password : Str → Action
  clear_status clear_disconnect_request request_disconnect : Action
  save_route_snapshot : Action
  launch : Str → Action
  sleep : ℕ → Action
  log_diagnostics : Action
  kill_worker : ℕ → Action
  heal_route : Bool → Action

-- The end of a connect that is not launched.
abbrev pub abort : List Action → List Action
abort log = set_busy false ∷ set_status disconnected ∷ log

abbrev pub lacks_field : Profile → Str → Bool
lacks_field profile password =
    is_empty profile.server || is_empty profile.username || is_empty password

-- With the path of the executable, and how `write_pending_password` ends.
unfoldable pub connect_as : Profile → Str → Option Str → Option Str → List Action → List Action
connect_as profile password none staged log = abort (append_log no_executable ∷ log)
connect_as profile password (some exe) (some e) log =
    abort (append_log (password_unstaged e) ∷ stage_password password ∷ log)
connect_as profile password (some exe) none log =
    set_busy false
    ∷ launch (worker_command exe profile.server profile.username)
    ∷ append_log (connecting_to profile.server)
    ∷ save_route_snapshot
    ∷ clear_disconnect_request
    ∷ clear_status
    ∷ stage_password password
    ∷ log

-- What `spawn_connect` does, with the selected profile. What the thread that it launches writes at
-- the end of the session is in `session_thread`.
unfoldable pub spawn_connect :
    Option Profile → Str → Option Str → Option Str → List Action → List Action
unfolding connect_as
spawn_connect none password exe staged log = log
spawn_connect (some profile) password exe staged log =
    let begun = set_status connecting_status ∷ set_busy true ∷ log in
    if lacks_field profile password
    then abort (notify_fill_in ∷ append_log nothing_to_connect ∷ begun)
    else connect_as profile password exe staged begun

-- What the thread of the launched command writes to the log when the session ends.
pub session_line : Result Str Str → Option Str
session_line (ok out) = nonempty (trim out)
session_line (err e) = some (codes "worker session ended: " ++ e)

unfoldable pub session_thread : (Command → Result Str Output) → Str → Option Str
unfolding session_line
session_thread runs cmd = session_line (run_elevated runs cmd)

-- Whether the state that is read ends the wait.
abbrev pub is_confirmation : Option WorkerState → Bool
is_confirmation none = true
is_confirmation (some disconnected_state) = true
is_confirmation (some error_state) = true
is_confirmation _ = false

-- The states that are read before the deadline, one every 300 milliseconds.
unfoldable pub await_confirmation : List (Option WorkerState) → List Action → Bool × List Action
await_confirmation [] log = (false, log)
await_confirmation (state ∷ states) log =
    let later = await_confirmation states (sleep 300 ∷ log) in
    if is_confirmation state then (true, log) else later

module _ (kill : PidT → Option ℕ) where
  abbrev pub force : Option ℕ → List Action → List Action
  force none log = log
  force (some pid) log = if pid_alive kill pid then kill_worker pid ∷ log else log

  unfoldable pub after_wait : Option ℕ → Bool × List Action → List Action
  after_wait pid (true, log) = append_log disconnected_line ∷ log
  after_wait pid (false, log) = force pid (log_diagnostics ∷ append_log forcing_line ∷ log)

  -- All that `spawn_disconnect` does; `pid` is what the status file has behind the deadline.
  unfoldable pub spawn_disconnect : List (Option WorkerState) → Option ℕ → List Action → List Action
  unfolding await_confirmation after_wait
  spawn_disconnect states pid log =
      let waited =
        await_confirmation states
          (request_disconnect ∷ append_log disconnecting ∷ set_busy true ∷ log) in
      set_busy false
      ∷ heal_route false
      ∷ clear_interface
      ∷ set_status disconnected
      ∷ clear_status
      ∷ clear_disconnect_request
      ∷ after_wait pid waited
