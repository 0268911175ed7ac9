-- ===== src/Worker/Routing/Exits.antt =====
-- worker.rs: the routes and the call of `disconnect` at the exit of the helper process.
use mac_os_sstp_client.Prelude.{
  ℕ, ◌≤◌, ◌≡◌, inl, inr, refl, arith, List, Option, none, some, Result, ok, err, is_empty,
  Bool-cases,
}
use mac_os_sstp_client.Prelude.Text.{Str}
use mac_os_sstp_client.Worker.{
  Action, Wake, Step, going, ended, async_main, Setting, connect_to, with_password, connect_with,
  run_inner, Exit, running, waiting, exited, stuck, exit_with, run,
}
use mac_os_sstp_client.Worker.Routing.{
  host_route, IsGuarded, disconnects, EndOk, StepOk, async_loop-StepOk, drop_runtime-StepOk,
}

async_main-StepOk :
    (server_ip : Str) (pid : ℕ) (gateway : Option Str) (log : List Action) (wakes : List Wake)
    → ((ip : Str) → host_route ip log ≡ none)
    → IsGuarded (some server_ip) gateway log
    → disconnects log ≡ 0
    → StepOk (some server_ip) gateway (async_main server_ip pid gateway log wakes)
unfolding async_main
async_main-StepOk server_ip pid gateway log wakes p g t =
    async_loop-StepOk server_ip pid gateway _ wakes (record {
      protects = p server_ip;
      elsewhere = λ ip n. p ip;
      guarded = g;
      takes = omega (arith, t);
    })

module _ (w : Setting) (server : Str) (wakes : List Wake) where
  connect_to-StepOk :
      (server_ip runtime : Option Str) (log : List Action)
      → ((ip : Str) → host_route ip log ≡ none)
      → IsGuarded server_ip w.gateway log
      → disconnects log ≡ 0
      → StepOk server_ip w.gateway (connect_to w server server_ip runtime log wakes)
  unfolding connect_to
  connect_to-StepOk none runtime log p g t = record {
    unprotected = p;
    guarded = g;
    takes = omega (arith, t);
  }
  connect_to-StepOk (some server_ip) (some e) log p g t = record {
    unprotected = p;
    guarded = g;
    takes = omega (arith, t);
  }
  connect_to-StepOk (some server_ip) none log p g t =
      drop_runtime-StepOk w.reader_ends (some server_ip) w.gateway _
        (async_main-StepOk server_ip w.pid w.gateway log wakes p g t)

  pub with_password-StepOk :
      (password_file : Result Str Str)
      → StepOk w.server_ip w.gateway (with_password w server wakes password_file)
  unfolding with_password connect_with
  with_password-StepOk (err e) = record {
    unprotected = λ ip. refl;
    guarded = tt;
    takes = omega arith;
  }
  with_password-StepOk (ok password) = elim (Bool-cases (is_empty password)) [
    | inl y ↦ rw y (record { unprotected = λ ip. refl; guarded = tt; takes = omega arith })
    | inr n ↦ rw n (connect_to-StepOk w.server_ip w.runtime _ (λ ip. refl) tt refl)
  ]

abbrev pub ExitOk : Option Str → Option Str → Exit → Type 0
ExitOk server_ip gateway (running log) = IsGuarded server_ip gateway log × (disconnects log ≤ 1)
ExitOk server_ip gateway (waiting log) = EndOk server_ip gateway log
ExitOk server_ip gateway (exited code log) = EndOk server_ip gateway log

exit_with-ExitOk :
    (server_ip gateway : Option Str) (s : Step)
    → StepOk server_ip gateway s
    → ExitOk server_ip gateway (exit_with s)
unfolding exit_with
exit_with-ExitOk none gateway (going k) v = absurd v
exit_with-ExitOk (some server_ip) gateway (going k) v = (v.guarded, omega (arith, v.takes))
exit_with-ExitOk server_ip gateway (stuck e log) v = v
exit_with-ExitOk server_ip gateway (ended none log) v = record {
  unprotected = v.unprotected;
  guarded = v.guarded;
  takes = v.takes;
}
exit_with-ExitOk server_ip gateway (ended (some e) log) v = record {
  unprotected = v.unprotected;
  guarded = v.guarded;
  takes = v.takes;
}

-- Whatever the connection reports and whenever a disconnect is requested: when the helper process
-- exits, in whatever way, or waits for the reader thread before that, then each host route that it
-- has asked `route` to add, to whatever address, it has asked it to delete again behind that. If a
-- gateway was known, then each time that it asked to point the default route at the tunnel, what it
-- had asked for last for the address of the server was a host route through that gateway. And
-- `Handle::disconnect` is called at most once. This is about the commands: whether one succeeds is
-- not looked at.
pub run-ExitOk :
    (w : Setting) (server : Str) (wakes : List Wake)
    → ExitOk w.server_ip w.gateway (run w server wakes)
unfolding run run_inner
run-ExitOk w server wakes =
    exit_with-ExitOk w.server_ip w.gateway (with_password w server wakes w.password_file)
      (with_password-StepOk w server wakes w.password_file)
