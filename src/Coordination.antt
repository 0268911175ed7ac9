-- ===== src/Coordination.antt =====
-- ipc.rs between main.rs and worker.rs: what the threads of the window and the helper process do to
-- the files that they share, in any order of their steps. Every call on a file succeeds here.
pub mod Status
pub mod Cancel
use mac_os_sstp_client.Prelude.{List, [], ◌∷◌, Option, none, some}
use mac_os_sstp_client.Ipc.{WorkerState, VpnStatusFile}
use mac_os_sstp_client.Ipc.Files.{
  Files, empty_status, write_status, clear_status, write_pending_password, take_pending_password,
  request_disconnect, clear_disconnect_request, read_status,
}
use mac_os_sstp_client.App.Session as Session
use mac_os_sstp_client.Worker as Worker

-- A step of the window or of the helper process, or the emptying of the status file that begins a
-- write.
pub data Event : Type 0 where
  by_window : Session.Action → Event
  by_worker : Worker.Action → Event
  emptied : Event

unfoldable pub on_window : Session.Action → Files → Files
on_window (Session.stage_password password) files = write_pending_password password files
on_window Session.clear_status files = clear_status files
on_window Session.request_disconnect files = request_disconnect files
on_window Session.clear_disconnect_request files = clear_disconnect_request files
on_window _ files = files

unfoldable pub on_worker : Worker.Action → Files → Files
on_worker Worker.remove_password files = (take_pending_password files).1
on_worker (Worker.write_status status) files = write_status status files
on_worker Worker.clear_disconnect_request files = clear_disconnect_request files
on_worker _ files = files

-- The files behind a sequence of steps, latest first.
unfoldable pub files_after : Files → List Event → Files
unfolding on_window on_worker
files_after files [] = files
files_after files (by_window a ∷ s) = on_window a (files_after files s)
files_after files (by_worker a ∷ s) = on_worker a (files_after files s)
files_after files (emptied ∷ s) = empty_status (files_after files s)

abbrev pub state_in : Option VpnStatusFile → Option WorkerState
state_in none = none
state_in (some status) = status.state

-- `ipc::read_status().and_then(|s| s.state)`.
unfoldable pub read_state : Files → Option WorkerState
read_state files = state_in (read_status files)

-- What the helper process did of it.
abbrev pub worker_part : List Event → List Worker.Action
worker_part [] = []
worker_part (by_worker a ∷ s) = a ∷ worker_part s
worker_part (_ ∷ s) = worker_part s
