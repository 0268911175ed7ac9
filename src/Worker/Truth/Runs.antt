-- ===== src/Worker/Truth/Runs.antt =====
-- worker.rs: each status of a whole run against the routes.
use mac_os_sstp_client.Prelude.{
  ℕ, ◌≡◌, inl, inr, refl, List, Option, none, some, Result, ok, err, is_empty, Bool-cases,
}
use mac_os_sstp_client.Prelude.Text.{Str}
use mac_os_sstp_client.Worker.{
  Action, Wake, Step, going, ended, Setting, connect_to, with_password, connect_with, run_inner,
  Exit, running, waiting, stuck, exited, exit_with, run,
}
use mac_os_sstp_client.Worker.Routing.{host_route, IsGuarded, disconnects, StepOk}
use mac_os_sstp_client.Worker.Routing.Exits.{with_password-StepOk}
use mac_os_sstp_client.Worker.Truth.{
  LogTrue, IsOpen, IsTrue, drop_runtime-IsTrue, async_main-IsTrue,
}

module _ (w : Setting) (server : Str) (wakes : List Wake) where
  connect_to-IsTrue :
      (server_ip runtime : Option Str) (log : List Action)
      → ((ip : Str) → host_route ip log ≡ none)
      → IsGuarded server_ip w.gateway log
      → disconnects log ≡ 0
      → LogTrue w.pid server_ip w.gateway log
      → IsOpen w.pid log
      → IsTrue w.pid server_ip w.gateway (connect_to w server server_ip runtime log wakes)
  unfolding connect_to
  connect_to-IsTrue none runtime log p g d t o = (t, o)
  connect_to-IsTrue (some server_ip) (some e) log p g d t o = (t, o)
  connect_to-IsTrue (some server_ip) none log p g d t o =
      drop_runtime-IsTrue w.pid w.reader_ends (some server_ip) w.gateway _
        (async_main-IsTrue w.pid server_ip w.gateway log wakes p g d t o)

  with_password-IsTrue :
      (password_file : Result Str Str)
      → IsTrue w.pid w.server_ip w.gateway (with_password w server wakes password_file)
  unfolding with_password connect_with
  with_password-IsTrue (err e) = ((tt, (tt, tt)), tt)
  with_password-IsTrue (ok password) = elim (Bool-cases (is_empty password)) [
    | inl y ↦ rw y ((tt, (tt, tt)), tt)
    | inr n ↦ rw n (
        connect_to-IsTrue w.server_ip w.runtime _ (λ ip. refl) tt refl
          (((refl, refl), tt), (tt, (tt, (tt, tt)))) tt)
  ]

-- All that was done so far.
abbrev pub done_by : Exit → List Action
done_by (running log) = log
done_by (waiting log) = log
done_by (exited code log) = log

exit_with-LogTrue :
    (pid : ℕ) (server_ip gateway : Option Str) (s : Step)
    → StepOk server_ip gateway s
    → IsTrue pid server_ip gateway s
    → LogTrue pid server_ip gateway (done_by (exit_with s))
unfolding exit_with
exit_with-LogTrue pid server_ip gateway (going k) v (t, o) = t
exit_with-LogTrue pid server_ip gateway (stuck e log) v t = t
exit_with-LogTrue pid server_ip gateway (ended none log) v t = (tt, t)
exit_with-LogTrue pid server_ip gateway (ended (some e) log) v (t, o) =
    (tt, ((v.unprotected, o), (o, t)))

-- Each status that the process writes is true of the route commands when it is written, and behind a final
-- one it does nothing but withdraw a request.
pub run-LogTrue :
    (w : Setting) (server : Str) (wakes : List Wake)
    → LogTrue w.pid w.server_ip w.gateway (done_by (run w server wakes))
unfolding run run_inner
run-LogTrue w server wakes =
    exit_with-LogTrue w.pid w.server_ip w.gateway (with_password w server wakes w.password_file)
      (with_password-StepOk w server wakes w.password_file)
      (with_password-IsTrue w server wakes w.password_file)
