-- ===== src/Worker.antt =====
-- worker.rs: the helper process that runs as root.
pub mod Routing
pub mod Polls
pub mod Commands
pub mod Truth
pub mod Reports
use mac_os_sstp_client.Prelude.{
  ℕ, List, [], ◌∷◌, Option, none, some, Bool, true, false, not, if◌then◌else◌, Result, ok, err,
  is_empty, Bytes,
}
use mac_os_sstp_client.Prelude.Text.{Str}
use mac_os_sstp_client.Prelude.Text.Lines.{address_text}
use mac_os_sstp_client.Ipcp.{NegotiatedConfig}
use mac_os_sstp_client.Connection.{
  ConnectError, Event, progress, connected, disconnected, error, Progress,
}
use mac_os_sstp_client.Ipc.{
  connecting, connected_state, disconnected_state, error_state, WorkerError, password_unreadable,
  empty_password, unresolved, no_runtime, connection_failed, VpnStatusFile, no_status,
}

-- The lines of the log, with what is printed in them.
pub data LogLine : Type 0 where
  starting : Str → LogLine
  progress_line : Progress → LogLine
  connected_line : Str → NegotiatedConfig → LogLine
  no_gateway : LogLine
  disconnected_line : LogLine
  connection_error_line : ConnectError → LogLine
  disconnect_line : LogLine
  worker_error_line : WorkerError → LogLine

-- What the process does to the outside. `disconnect_handle` is the call of `Handle::disconnect`.
pub data Action : Type 0 where
  read_password remove_password : Action
  append_log : LogLine → Action
  write_status : VpnStatusFile → Action
  start_connection : Action
  add_host_route : Str → Str → Action
  delete_host_route : Str → Action
  delete_default : Action
  add_default : Str → Action
  disconnect_handle : Action
  clear_disconnect_request : Action

pub record Worker : Type 0 where
  pub has_handle : Bool
  pub route_protected : Bool
  pub disconnect_sent : Bool
  pub log : List Action

-- What `select!` wakes up with: what `rx.recv()` gives, or the end of the sleep, with the answer of
-- `disconnect_requested`.
pub data Wake : Type 0 where
  received : Option Event → Wake
  poll : Bool → Wake

-- `ended` for a return out of `run_inner`, with its error if it has one, and `stuck` while the drop of
-- the tokio `Runtime` waits behind it.
pub data Step : Type 0 where
  going : Worker → Step
  ended stuck : Option WorkerError → List Action → Step

infixl 5 ◌>>>◌
abbrev pub ◌>>>◌ : Step → (Worker → Step) → Step
going k >>> f = f k
ended e log >>> f = ended e log
stuck e log >>> f = stuck e log

abbrev pub texts : Option Bytes → Option Str
texts none = none
texts (some ip) = some (address_text ip)

abbrev pub connected_status : ℕ → Str → NegotiatedConfig → VpnStatusFile
connected_status pid interface negotiated = record {
  state = some connected_state;
  interface = some interface;
  local_ip = texts negotiated.local_ip;
  peer_ip = texts negotiated.peer_ip;
  dns1 = texts negotiated.dns1;
  dns2 = texts negotiated.dns2;
  message = none;
  pid = some pid;
}

module _ (server_ip : Str) (pid : ℕ) where
  -- `if route_protected { remove_protective_host_route(server_ip); }`.
  abbrev pub unprotect : Bool → List Action → List Action
  unprotect true log = delete_host_route server_ip ∷ log
  unprotect false log = log

  -- Behind the loop.
  unfoldable pub finish : Worker → List Action → Step
  finish k log = ended none (
      write_status (record no_status { state = some disconnected_state })
      ∷ unprotect k.route_protected log)

  abbrev pub set_default_route_via_interface : Str → List Action → List Action
  set_default_route_via_interface iface log = add_default iface ∷ delete_default ∷ log

  unfoldable pub on_connected : Option Str → Str → NegotiatedConfig → Worker → Worker
  on_connected none interface negotiated k =
      let log = append_log no_gateway ∷ append_log (connected_line interface negotiated) ∷ k.log in
      record k {
        log =
            write_status (connected_status pid interface negotiated)
            ∷ set_default_route_via_interface interface log;
      }
  on_connected (some gw) interface negotiated k =
      let log =
        add_host_route server_ip gw ∷ append_log (connected_line interface negotiated) ∷ k.log in
      record k {
        route_protected = true;
        log =
            write_status (connected_status pid interface negotiated)
            ∷ set_default_route_via_interface interface log;
      }

  unfoldable pub on_received : Option Str → Worker → Option Event → Step
  unfolding finish on_connected
  on_received gateway k (some (progress msg)) =
      going (record k { log = append_log (progress_line msg) ∷ k.log })
  on_received gateway k (some (connected interface negotiated)) =
      going (on_connected gateway interface negotiated k)
  on_received gateway k (some disconnected) = finish k (append_log disconnected_line ∷ k.log)
  on_received gateway k (some (error e)) =
      ended (some (connection_failed e))
        (unprotect k.route_protected (append_log (connection_error_line e) ∷ k.log))
  on_received gateway k none = finish k k.log

  -- `handle.take()`, and `disconnect` on what was there.
  abbrev pub take_handle : Bool → List Action → List Action
  take_handle true log = disconnect_handle ∷ log
  take_handle false log = log

  unfoldable pub on_poll : Worker → Bool → Worker
  on_poll k false = k
  on_poll k true = record {
    has_handle = false;
    route_protected = k.route_protected;
    disconnect_sent = true;
    log = take_handle k.has_handle (append_log disconnect_line ∷ k.log);
  }

  -- The sleep is not waited for once the request was seen.
  unfoldable pub step : Option Str → Worker → Wake → Step
  unfolding on_received on_poll
  step gateway k (received event) = on_received gateway k event
  step gateway k (poll requested) =
      if not k.disconnect_sent then going (on_poll k requested) else going k

  unfoldable pub async_loop : Option Str → Worker → List Wake → Step
  unfolding step
  async_loop gateway k [] = going k
  async_loop gateway k (wake ∷ wakes) = step gateway k wake >>> λ k'. async_loop gateway k' wakes

unfoldable pub async_main : Str → ℕ → Option Str → List Action → List Wake → Step
unfolding async_loop
async_main server_ip pid gateway log wakes =
    async_loop server_ip pid gateway
      (record {
        has_handle = true;
        route_protected = false;
        disconnect_sent = false;
        log = start_connection ∷ log;
      })
      wakes

-- What the process finds at its start: the password file, its own pid, the address that the
-- server's name resolves to, the gateway of the default route, and whether tokio starts; and whether
-- the thread that reads the tunnel device, which the drop of the `Runtime` waits for, has ended or
-- will end behind what was done.
pub record Setting : Type 0 where
  pub password_file : Result Str Str
  pub pid : ℕ
  pub server_ip : Option Str
  pub gateway : Option Str
  pub runtime : Option Str
  pub reader_ends : List Action → Bool

-- The drop of the `Runtime` at the end of `run_inner`, which waits for its blocking threads.
abbrev pub drop_runtime : (List Action → Bool) → Step → Step
drop_runtime reader_ends (going k) = going k
drop_runtime reader_ends (ended e log) = if reader_ends log then ended e log else stuck e log
drop_runtime reader_ends (stuck e log) = stuck e log

-- With the server's address, and whether tokio starts.
unfoldable pub connect_to : Setting → Str → Option Str → Option Str → List Action → List Wake → Step
unfolding async_main
connect_to w server none runtime log wakes = ended (some (unresolved server)) log
connect_to w server (some server_ip) (some e) log wakes = ended (some (no_runtime e)) log
connect_to w server (some server_ip) none log wakes =
    drop_runtime w.reader_ends (async_main server_ip w.pid w.gateway log wakes)

-- With the password read; `log` is behind `take_pending_password`.
unfoldable pub connect_with : Setting → Str → Str → List Action → List Wake → Step
unfolding connect_to
connect_with w server password log wakes =
    if is_empty password
    then ended (some empty_password) log
    else connect_to w server w.server_ip w.runtime
        (write_status (record no_status { state = some connecting; pid = some w.pid })
          ∷ append_log (starting server)
          ∷ log)
        wakes

-- `take_pending_password` removes the file, whether or not it can be read.
unfoldable pub with_password : Setting → Str → List Wake → Result Str Str → Step
unfolding connect_with
with_password w server wakes (err e) =
    ended (some (password_unreadable e)) (remove_password ∷ read_password ∷ [])
with_password w server wakes (ok password) =
    connect_with w server password (remove_password ∷ read_password ∷ []) wakes

unfoldable pub run_inner : Setting → Str → List Wake → Step
unfolding with_password
run_inner w server wakes = with_password w server wakes w.password_file

-- The exit code and all that was done; or the process as it still runs, in its loop or in the drop
-- of the `Runtime`.
pub data Exit : Type 0 where
  running waiting : List Action → Exit
  exited : ℕ → List Action → Exit

unfoldable pub exit_with : Step → Exit
exit_with (going k) = running k.log
exit_with (stuck e log) = waiting log
exit_with (ended none log) = exited 0 (clear_disconnect_request ∷ log)
exit_with (ended (some e) log) = exited 1 (
    clear_disconnect_request
    ∷ write_status (record no_status { state = some error_state; message = some e })
    ∷ append_log (worker_error_line e)
    ∷ log)

unfoldable pub run : Setting → Str → List Wake → Exit
unfolding run_inner exit_with
run w server wakes = exit_with (run_inner w server wakes)
