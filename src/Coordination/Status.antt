-- ===== src/Coordination/Status.antt =====
-- The status file that the window reads, against what the helper process has done.
use mac_os_sstp_client.Prelude.{
  ◌≡◌, refl, List, [], ◌∷◌, ◌++◌, append_assoc, All, Option, none, some, ℕ, ap, sym, ◌∙◌,
}
use mathlib.Core.Path.{subst}
use mac_os_sstp_client.Prelude.Text.{Str}
use mac_os_sstp_client.Ipc.{
  WorkerState, connecting, connected_state, disconnected_state, error_state, VpnStatusFile,
}
use mac_os_sstp_client.Ipc.Files.{
  Files, read_status, empty_status, clear_status, write_pending_password, take_pending_password,
  request_disconnect, clear_disconnect_request,
}
use mac_os_sstp_client.Ipc.Files as Files
use mac_os_sstp_client.App.Session as Session
use mac_os_sstp_client.Worker.{Action, Wake, Setting, write_status, run}
use mac_os_sstp_client.Worker as Worker
use mac_os_sstp_client.Worker.Reports.{last_status}
use mac_os_sstp_client.Worker.Truth.{StatesTrue, IsOpen, ActionTrue, LogTrue}
use mac_os_sstp_client.Worker.Truth.Runs.{done_by, run-LogTrue}
use mac_os_sstp_client.Coordination.{
  Event, by_window, by_worker, emptied, on_window, on_worker, files_after, worker_part,
}

-- What is read is the last that the process has written.
read-last_status :
    (base : Files) (s : List Event) {status : VpnStatusFile}
    → read_status base ≡ none
    → read_status (files_after base s) ≡ some status
    → last_status (worker_part s) ≡ some status
unfolding files_after read_status empty_status clear_status write_pending_password
    take_pending_password request_disconnect clear_disconnect_request on_window on_worker
    Files.write_status
read-last_status base [] e h = cc
read-last_status base (emptied ∷ s) e h = cc
read-last_status base (by_window Session.clear_status ∷ s) e h = cc
read-last_status base (by_window (Session.stage_password p) ∷ s) e h = read-last_status base s e h
read-last_status base (by_window _ ∷ s) e h = read-last_status base s e h
read-last_status base (by_worker (write_status status) ∷ s) e h = h
read-last_status base (by_worker _ ∷ s) e h = read-last_status base s e h

last_status-split :
    (log : List Action) {status : VpnStatusFile}
    → last_status log ≡ some status
    → (since before : List Action) × (log ≡ since ++ (write_status status ∷ before))
last_status-split [] h = cc
last_status-split (write_status st ∷ log) h = ([], log, ap (λ o. write_status o ∷ log) (cc h))
last_status-split (a ∷ log) h =
    let (since, before, q) = last_status-split log h in (a ∷ since, before, ap (λ l. a ∷ l) q)

abbrev pub IsWithdrawal : Action → Type 0
IsWithdrawal Worker.clear_disconnect_request = Unit {0}
IsWithdrawal _ = ⊥

abbrev pub IsFinal : Option WorkerState → Type 0
IsFinal (some disconnected_state) = Unit {0}
IsFinal (some error_state) = Unit {0}
IsFinal _ = ⊥

module _ (pid : ℕ) (server_ip gateway : Option Str) where
  LogTrue-behind :
      (xs ys : List Action)
      → LogTrue pid server_ip gateway (xs ++ ys)
      → LogTrue pid server_ip gateway ys
  LogTrue-behind [] ys t = t
  LogTrue-behind (x ∷ xs) ys (a, t) = LogTrue-behind xs ys t

  -- Behind a withdrawal or nothing, what was final is final.
  not-IsOpen :
      (since before : List Action) (status : VpnStatusFile) (state : Option WorkerState)
      → status.state ≡ state
      → IsFinal state
      → All IsWithdrawal since
      → IsOpen pid (since ++ (write_status status ∷ before))
      → ⊥
  not-IsOpen [] before status (some disconnected_state) q f w o = rw q at o
  not-IsOpen [] before status (some error_state) q f w o = rw q at o
  not-IsOpen [] before status (some connecting) q f w o = f
  not-IsOpen [] before status (some connected_state) q f w o = f
  not-IsOpen [] before status none q f w o = f
  not-IsOpen (Worker.clear_disconnect_request ∷ since) before status state q f (w, ws) o =
      not-IsOpen since before status state q f ws o
  not-IsOpen (_ ∷ since) before status state q f (w, ws) o = absurd w

  one-IsWithdrawal :
      (a : Action) (log : List Action)
      → (IsOpen pid log → ⊥)
      → ActionTrue pid server_ip gateway a log
      → IsWithdrawal a
  one-IsWithdrawal (write_status status) log n (t, o) = absurd (n o)
  one-IsWithdrawal Worker.clear_disconnect_request log n t = tt
  one-IsWithdrawal _ log n o = absurd (n o)

  since-IsWithdrawal :
      (since before : List Action) (status : VpnStatusFile)
      → IsFinal status.state
      → LogTrue pid server_ip gateway (since ++ (write_status status ∷ before))
      → All IsWithdrawal since
  since-IsWithdrawal [] before status f t = tt
  since-IsWithdrawal (a ∷ since) before status f (t, ts) =
      let ws = since-IsWithdrawal since before status f ts in
      (one-IsWithdrawal a _ (not-IsOpen since before status status.state refl f ws) t, ws)

-- When the window, in any order of the steps, reads a status that the helper process of this
-- session wrote, then that status agrees with the route commands that the process had run when it
-- wrote it, whether or not these succeeded: while connecting there was none; connected, the default
-- route was last asked for through the tunnel named in it, and the host route to the address of the
-- server was asked for through the gateway, if one was known; both name the process. And if the
-- status is final, then no host route had been asked for, to any address, without asking to delete it
-- behind that, and the process does nothing more but withdraw a request to disconnect.
pub status_is_true :
    (w : Setting) (server : Str) (wakes : List Wake) (base : Files) (s : List Event)
    (later : List Action) {status : VpnStatusFile}
    → later ++ worker_part s ≡ done_by (run w server wakes)
    → read_status base ≡ none
    → read_status (files_after base s) ≡ some status
    → (since before : List Action) × (worker_part s ≡ since ++ (write_status status ∷ before))
      × StatesTrue w.pid w.server_ip w.gateway status.state status before
      × (IsFinal status.state → All IsWithdrawal (later ++ since))
status_is_true w server wakes base s later {status} part e h =
    let (since, before, q) = last_status-split (worker_part s) (read-last_status base s e h) in
    let whole : LogTrue w.pid w.server_ip w.gateway
        ((later ++ since) ++ (write_status status ∷ before)) =
      subst (LogTrue w.pid w.server_ip w.gateway)
        (sym part ∙ ap (λ l. later ++ l) q ∙ sym (append_assoc later since _))
        (run-LogTrue w server wakes) in
    (
      since,
      before,
      q,
      (LogTrue-behind w.pid w.server_ip w.gateway (later ++ since) _ whole).0.0,
      λ f. since-IsWithdrawal w.pid w.server_ip w.gateway (later ++ since) before status f whole,
    )
