-- ===== src/Worker/Reports.antt =====
-- worker.rs on the events of a task of connection.rs.
use mac_os_sstp_client.Prelude.{Bool, false, ℕ, ◌≡◌, List, [], ◌∷◌, ◌++◌, Option, none, some}
use mac_os_sstp_client.Prelude.Crypto.{Crypto}
use mac_os_sstp_client.Connection as Connection
use mac_os_sstp_client.Connection.{Event, disconnected, error, ConnectError, emit}
use mac_os_sstp_client.Ipc.{
  WorkerError, connection_failed, VpnStatusFile, no_status, disconnected_state, error_state,
}
use mac_os_sstp_client.Worker.{
  Action, write_status, Worker, Wake, received, poll, Step, going, ended, Exit, running, waiting,
  stuck, exited,
}

-- The events that a task has told, first to last.
abbrev pub events_of : List Connection.Action → List Event
events_of [] = []
events_of (emit event ∷ log) = events_of log ++ (event ∷ [])
events_of (_ ∷ log) = events_of log

-- The events that reach the worker, up to the end of the channel.
abbrev pub heard : List Wake → List Event
heard [] = []
heard (received none ∷ wakes) = []
heard (received (some event) ∷ wakes) = event ∷ heard wakes
heard (poll requested ∷ wakes) = heard wakes

abbrev pub IsOngoing : Event → Type 0
IsOngoing disconnected = ⊥
IsOngoing (error e) = ⊥
IsOngoing _ = Unit {0}

abbrev pub reason : Option ConnectError → Option WorkerError
reason none = none
reason (some e) = some (connection_failed e)

abbrev pub last_status : List Action → Option VpnStatusFile
last_status [] = none
last_status (write_status status ∷ log) = some status
last_status (_ ∷ log) = last_status log

abbrev pub final_status : Option WorkerError → VpnStatusFile
final_status none = record no_status { state = some disconnected_state }
final_status (some e) = record no_status { state = some error_state; message = some e }

abbrev pub EndsWith : Option WorkerError → Step → Type 0
EndsWith e (going k) = ⊥
EndsWith e (stuck e' log) = ⊥
EndsWith e (ended e' log) = (e' ≡ e) × (e ≡ none → last_status log ≡ some (final_status none))

abbrev pub exit_code : Option WorkerError → ℕ
exit_code none = 0
exit_code (some e) = 1

-- The process has exited; or it waits for the reader thread, with Disconnected as its last status if
-- there was no error.
abbrev pub Reported : (List Action → Bool) → Option WorkerError → Exit → Type 0
Reported reader_ends e (running log) = ⊥
Reported reader_ends e (waiting log) =
    (reader_ends log ≡ false) × (e ≡ none → last_status log ≡ some (final_status none))
Reported reader_ends e (exited code log) =
    (code ≡ exit_code e) × (last_status log ≡ some (final_status e))
