-- ===== src/Coordination/Cancel.antt =====
-- A disconnect that the user asks for, between main.rs and worker.rs: before the helper process has
-- written a status, and behind that.
use mac_os_sstp_client.Prelude.{
  arith, ℕ, ◌+◌, ◌≡◌, refl, List, [], ◌∷◌, ◌++◌, map, All, Option, none, some, true, false,
}
use mac_os_sstp_client.Prelude.Text.{Str}
use mac_os_sstp_client.Ipc.{WorkerState, PidT}
use mac_os_sstp_client.Ipc.Files.{
  Files, read_status, disconnect_requested, empty_status, write_status, clear_status,
  write_pending_password, take_pending_password, request_disconnect, clear_disconnect_request,
}
use mac_os_sstp_client.App.{Profile, disconnected}
use mac_os_sstp_client.App.Session as Session
use mac_os_sstp_client.App.Session.{
  lacks_field, spawn_connect, spawn_disconnect, append_log, disconnecting, set_busy, connect_as,
  await_confirmation, after_wait,
}
use mac_os_sstp_client.App.Session.Effects.{launches, kills, shown}
use mac_os_sstp_client.Worker.{Action, Worker, Wake, poll, step, on_poll, async_loop}
use mac_os_sstp_client.Worker.Polls.{unpolled, polls_no_more}
use mac_os_sstp_client.Worker as Worker
use mac_os_sstp_client.Coordination.{
  Event, by_window, by_worker, emptied, files_after, on_window, on_worker, read_state,
}

-- The helper process makes no request.
worker-disconnect_requested :
    (files : Files) (done : List Action) (before : List Event)
    → disconnect_requested (files_after files before) ≡ false
    → disconnect_requested (files_after files (map by_worker done ++ before)) ≡ false
unfolding files_after on_worker disconnect_requested write_status take_pending_password
    clear_disconnect_request
worker-disconnect_requested files [] before h = h
worker-disconnect_requested files (Worker.clear_disconnect_request ∷ done) before h = refl
worker-disconnect_requested files (Worker.remove_password ∷ done) before h =
    worker-disconnect_requested files done before h
worker-disconnect_requested files (a ∷ done) before h =
    worker-disconnect_requested files done before h

-- What the window has done when it first looks for an answer to its request.
abbrev pub requesting : List Session.Action → List Session.Action
requesting log = Session.request_disconnect ∷ append_log disconnecting ∷ set_busy true ∷ log

-- When a connect with all it needs has launched the helper process, and the user disconnects before
-- that has written a status, then the window takes the missing status for an answer: it shows
-- Disconnected, kills nothing and withdraws the request. The launched process is still there, with
-- the password that is staged for it, and whatever it does from then on, it never finds a request
-- to disconnect.
pub early_cancel_lost :
    (kill : PidT → Option ℕ) (files : Files) (profile : Profile) (password exe : Str)
    (log : List Session.Action) (states : List (Option WorkerState)) (pid : Option ℕ)
    (done : List Action)
    → lacks_field profile password ≡ false
    → let launched = spawn_connect (some profile) password (some exe) none log in
      let read = read_state (files_after files (map by_window (requesting launched))) in
      let cancelled = spawn_disconnect kill (read ∷ states) pid launched in
      (shown cancelled ≡ disconnected)
      × (kills cancelled ≡ kills log)
      × (launches cancelled ≡ launches log + 1)
      × ((files_after files (map by_window cancelled)).pending ≡ some password)
      × (disconnect_requested (files_after files (map by_worker done ++ map by_window cancelled))
          ≡ false)
unfolding spawn_connect spawn_disconnect connect_as files_after on_window await_confirmation
    read_state read_status after_wait clear_status request_disconnect write_pending_password
    clear_disconnect_request disconnect_requested
early_cancel_lost kill files profile password exe log states pid done full =
    rw full (refl, refl, omega arith, refl, worker-disconnect_requested files done _ refl)

-- The steps that leave a request alone.
abbrev pub LeavesRequest : Event → Type 0
LeavesRequest (by_window Session.clear_disconnect_request) = ⊥
LeavesRequest (by_worker Worker.clear_disconnect_request) = ⊥
LeavesRequest _ = Unit {0}

left-disconnect_requested :
    (files : Files) (since : List Event) (before : List Event)
    → All LeavesRequest since
    → disconnect_requested (files_after files before) ≡ true
    → disconnect_requested (files_after files (since ++ before)) ≡ true
unfolding files_after on_window on_worker disconnect_requested empty_status write_status
    clear_status write_pending_password take_pending_password request_disconnect
left-disconnect_requested files [] before l h = h
left-disconnect_requested files (emptied ∷ since) before (l, ls) h =
    left-disconnect_requested files since before ls h
left-disconnect_requested files (by_window Session.clear_disconnect_request ∷ since) before (l, ls)
      h =
    absurd l
left-disconnect_requested files (by_window Session.request_disconnect ∷ since) before l h = refl
left-disconnect_requested files (by_window Session.clear_status ∷ since) before (l, ls) h =
    left-disconnect_requested files since before ls h
left-disconnect_requested files (by_window (Session.stage_password p) ∷ since) before (l, ls) h =
    left-disconnect_requested files since before ls h
left-disconnect_requested files (by_window a ∷ since) before (l, ls) h =
    left-disconnect_requested files since before ls h
left-disconnect_requested files (by_worker Worker.clear_disconnect_request ∷ since) before (l, ls)
      h =
    absurd l
left-disconnect_requested files (by_worker (Worker.write_status status) ∷ since) before (l, ls) h =
    left-disconnect_requested files since before ls h
left-disconnect_requested files (by_worker Worker.remove_password ∷ since) before (l, ls) h =
    left-disconnect_requested files since before ls h
left-disconnect_requested files (by_worker a ∷ since) before (l, ls) h =
    left-disconnect_requested files since before ls h

requested-now :
    (files : Files) (before : List Event)
    → disconnect_requested (files_after files (by_window Session.request_disconnect ∷ before))
      ≡ true
unfolding files_after on_window request_disconnect disconnect_requested
requested-now files before = refl

-- Once the window has requested a disconnect, and as long as neither side withdraws it, whatever
-- else they do, the next poll of a helper process that has not seen a request yet finds it: the
-- process logs that and calls `Handle::disconnect` on its handle. From then on it polls no more:
-- whatever it wakes up with, it does what it does without the polls among that.
pub request_is_seen :
    (files : Files) (since before : List Event) (server_ip : Str) (pid : ℕ) (gateway : Option Str)
    (k : Worker) (wakes : List Wake)
    → All LeavesRequest since
    → k.disconnect_sent ≡ false
    → k.has_handle ≡ true
    → let found =
        disconnect_requested
          (files_after files (since ++ (by_window Session.request_disconnect ∷ before))) in
      let k' : Worker = record {
        has_handle = false;
        route_protected = k.route_protected;
        disconnect_sent = true;
        log = Worker.disconnect_handle ∷ Worker.append_log Worker.disconnect_line ∷ k.log;
      } in
      async_loop server_ip pid gateway k (poll found ∷ wakes)
      ≡ async_loop server_ip pid gateway k' (unpolled wakes)
unfolding async_loop step on_poll
request_is_seen files since before server_ip pid gateway k wakes l fresh has =
    let found =
      left-disconnect_requested files since (by_window Session.request_disconnect ∷ before) l
        (requested-now files before) in
    rw (found, fresh, has) (polls_no_more server_ip pid gateway wakes _ refl)
