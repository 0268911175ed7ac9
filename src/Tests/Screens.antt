-- ===== src/Tests/Screens.antt =====
-- The screens and frames of the window, and the files that it shares with the helper process, on
-- concrete values.
use mac_os_sstp_client.Prelude.Text.{Str}
use mac_os_sstp_client.Prelude.{
  ◌≤◌, ◌+◌, ◌<◌, ◌≡◌, refl, arith, List, [], ◌∷◌, ◌++◌, map, All, none, some, true, false, ok,
  length, ◌==◌,
}
use mac_os_sstp_client.Ipc.{no_status, VpnStatusFile, WorkerState, WorkerError}
use mac_os_sstp_client.Ipc.Files.{Files, absent, read_status, disconnect_requested}
use mac_os_sstp_client.Ipc.Files as Files
use mac_os_sstp_client.Worker as Worker
use mac_os_sstp_client.Worker.{Setting, Worker, run, received, poll, async_loop}
use mac_os_sstp_client.Worker.Truth.{StatesTrue}
use mac_os_sstp_client.Worker.Truth.Runs.{done_by}
use mac_os_sstp_client.Coordination.{
  by_window, by_worker, emptied, files_after, worker_part, Event, read_state,
}
use mac_os_sstp_client.Coordination.Status.{IsWithdrawal, IsFinal, status_is_true}
use mac_os_sstp_client.Coordination.Cancel.{requesting, early_cancel_lost, request_is_seen}
use mac_os_sstp_client.App.{disconnected, connected, Editor, new}
use mac_os_sstp_client.App.Session as Session
use mac_os_sstp_client.App.Session.{spawn_connect, spawn_disconnect}
use mac_os_sstp_client.App.Session.Effects.{launches, kills, shown}
use mac_os_sstp_client.App.Durations.{format_duration, read_clock, read_clock-format_duration}
use mac_os_sstp_client.App.Screens.{ConnectClicks, SettingsClicks, Typed}
use mac_os_sstp_client.App.Frame.{Life, Arrival, connect_item, logic, at_poll, handle_tray_events}
use mac_os_sstp_client.App.Frame.Quiet.{HealsFree, IsTimed, heals, frame-HealsFree}
use mac_os_sstp_client.I18n.{english}
use mac_os_sstp_client.Tests.Windows.{keychain, name_of, profile, loaded, exe, alive}

read_clock-format_duration_example :
    (3725 < 3600
      → (length (format_duration 3725) ≡ 5) × (read_clock 0 0 (format_duration 3725) ≡ 3725))
    × (3600 ≤ 3725
        → (hours : Str) × (rest : Str) × (format_duration 3725 ≡ hours ++ (0x3A ∷ rest))
          × (read_clock 0 0 hours ≡ 1)
          × (length rest ≡ 5)
          × (read_clock 0 0 rest ≡ 125))
read_clock-format_duration_example = read_clock-format_duration 3725 (omega arith)

-- "01:02:05"
format_duration_run :
    format_duration 3725 ≡ 0x30 ∷ 0x31 ∷ 0x3A ∷ 0x30 ∷ 0x32 ∷ 0x3A ∷ 0x30 ∷ 0x35 ∷ []
unfolding format_duration
format_duration_run = refl

-- The files of a session that has not begun.
abbrev files : Files
files = record { status = absent; marker = false; pending = none }

early_cancel_lost_example :
    let launched = spawn_connect (some profile) (0x70 ∷ []) (some exe) none [] in
    let read = read_state (files_after files (map by_window (requesting launched))) in
    let cancelled = spawn_disconnect alive (read ∷ []) none launched in
    (shown cancelled ≡ disconnected)
    × (kills cancelled ≡ kills [])
    × (launches cancelled ≡ launches [] + 1)
    × ((files_after files (map by_window cancelled)).pending ≡ some (0x70 ∷ []))
    × (disconnect_requested
          (files_after files (map by_worker (Worker.read_password ∷ []) ++ map by_window cancelled))
        ≡ false)
early_cancel_lost_example =
    early_cancel_lost alive files profile (0x70 ∷ []) exe [] [] none (Worker.read_password ∷ [])
      refl

abbrev working : Worker
working = record { has_handle = true; route_protected = false; disconnect_sent = false; log = [] }

request_is_seen_example :
    let found =
      disconnect_requested
        (files_after files (emptied ∷ by_window Session.request_disconnect ∷ [])) in
    let working' : Worker = record {
      has_handle = false;
      route_protected = false;
      disconnect_sent = true;
      log = Worker.disconnect_handle ∷ Worker.append_log Worker.disconnect_line ∷ [];
    } in
    async_loop [] 7 none working (poll found ∷ poll true ∷ received none ∷ [])
    ≡ async_loop [] 7 none working' (received none ∷ [])
request_is_seen_example =
    request_is_seen files (emptied ∷ []) [] [] 7 none working (poll true ∷ received none ∷ [])
      (tt, tt) refl refl

-- The helper process finds no password.
abbrev setting : Setting
setting = record {
  password_file = ok [];
  pid = 7;
  server_ip = none;
  gateway = none;
  runtime = none;
  reader_ends = λ log. true;
}

abbrev failed : VpnStatusFile
failed = record no_status {
  state = some WorkerState.error_state;
  message = some WorkerError.empty_password;
}

abbrev steps : List Event
steps =
    by_worker (Worker.write_status failed)
    ∷ emptied
    ∷ by_worker (Worker.append_log (Worker.worker_error_line WorkerError.empty_password))
    ∷ by_window (Session.sleep 300)
    ∷ by_worker Worker.remove_password
    ∷ by_worker Worker.read_password
    ∷ []

failed_run : Worker.clear_disconnect_request ∷ worker_part steps ≡ done_by (run setting [] [])
unfolding run
failed_run = refl

failed_read : read_status (files_after files steps) ≡ some failed
unfolding read_status files_after Files.write_status
failed_read = refl

status_is_true_example :
    (since before : List Worker.Action) × (worker_part steps
      ≡ since ++ (Worker.write_status failed ∷ before))
    × StatesTrue 7 none none failed.state failed before
    × (IsFinal failed.state → All IsWithdrawal ((Worker.clear_disconnect_request ∷ []) ++ since))
unfolding read_status
status_is_true_example =
    status_is_true setting [] [] files steps (Worker.clear_disconnect_request ∷ []) failed_run refl
      failed_read

abbrev nothing_typed : Typed
nothing_typed = record {
  name = none;
  server = none;
  username = none;
  password = none;
  save_password = none;
}

abbrev on_connect : ConnectClicks
on_connect = record { label = λ i. false; gear = false; power = true }

abbrev on_settings : SettingsClicks
on_settings = record {
  back = false;
  label = λ i. false;
  cross = λ i. i == 0;
  add = false;
  typed = nothing_typed;
  save_settings = true;
}

abbrev life : Life
life = record {
  window = record { vpn_status = connected; interface = none; last_heal_attempt = none };
  busy = true;
  last_poll = 0;
  connected_since = some 5;
  tray = none;
}

abbrev arrival : Arrival
arrival = record {
  now = 10000000000;
  events = connect_item ∷ [];
  close_requested = true;
  route_ok = false;
  status = none;
  meanwhile = λ look state. (state.0, false);
}

abbrev editor : Editor
editor = new keychain name_of true (9 ∷ []) loaded

frame-HealsFree_example :
    HealsFree arrival life
      (at_poll alive english arrival (
        (handle_tray_events editor arrival.events (life.window, life.busy)).window,
        (handle_tray_events editor arrival.events (life.window, life.busy)).busy,
      ))
      (heals (logic alive english arrival editor life).1)
    × IsTimed (logic alive english arrival editor life).0
frame-HealsFree_example = frame-HealsFree alive english arrival editor life
