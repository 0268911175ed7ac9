-- ===== src/Tests/Helpers.antt =====
-- The helper process, the tunnel device and the repair of the route on concrete values.
use mac_os_sstp_client.Prelude.{
  ap, ◌+◌, Bool, ◌≤◌, ◌≡◌, refl, List, [], ◌∷◌, ◌++◌, map, none, some, true, false, ok, drop,
  length,
}
use mac_os_sstp_client.Prelude.Text.{Str}
use mac_os_sstp_client.Prelude.Text.Lines.{trim}
use mac_os_sstp_client.Utun.{reader_thread, ctliocginfo}
use mac_os_sstp_client.Utun.Framing.{
  Framed, frame_of, has_frame, is_gone, read_packet-has_frame, reader_thread_lem,
}
use mac_os_sstp_client.Connection as Connection
use mac_os_sstp_client.Connection.{
  protocol, http_closed, progress, error, tcp_connected, tls_completed, Wake,
}
use mac_os_sstp_client.Http.{build_request}
use mac_os_sstp_client.Worker as Worker
use mac_os_sstp_client.Worker.{Setting, received, poll}
use mac_os_sstp_client.Worker.Routing.Exits.{ExitOk, run-ExitOk}
use mac_os_sstp_client.Route as Route
use mac_os_sstp_client.Route.{
  Machine, heal_thread, heal_route_if_broken, route_cmd, or_route_change, route_add,
  load_route_snapshot, append_log, restoring,
}
use mac_os_sstp_client.Route.Heal.{
  IsSafe, Outcome, heal_route_if_broken-IsSafe, heal_thread-Outcome, route_cmd_quoted,
}
use mac_os_sstp_client.Route.Healing.{
  lost, losses, MoveIn, Reach, holders, repairs, flag_count, healing_exclusive, first, take_flag,
  spawn_fails, refuse,
}
use mac_os_sstp_client.Elevate.{elevated_script, do_shell_script, shell_quote}
use mac_os_sstp_client.Elevate.Quoting.{
  sh_word, outside, script_literal, privileges, shell_quote_lem,
}
use mac_os_sstp_client.Tests.{password}
use mac_os_sstp_client.Tests.Connections.{server}

-- The number of CTLIOCGINFO on macOS.
ctliocginfo_known : ctliocginfo ≡ 0xC0644E03
unfolding ctliocginfo
ctliocginfo_known = refl

abbrev frames : List Framed
frames = ((0, 0, 0, 2), 0x45 ∷ 0 ∷ []) ∷ ((0, 0, 0, 2), []) ∷ ((0, 0, 0, 30), 0x60 ∷ []) ∷ []

reader_thread_lem_example :
    reader_thread (
      map (λ f. (has_frame (frame_of f), true)) frames
      ++ ((has_frame (0 ∷ 0 ∷ 0 ∷ 2 ∷ 0x45 ∷ []), false)
          ∷ (has_frame (0 ∷ 0 ∷ 0 ∷ 2 ∷ 0x45 ∷ []), true)
          ∷ []))
    ≡ (0x45 ∷ 0 ∷ []) ∷ (0x60 ∷ []) ∷ []
reader_thread_lem_example =
    reader_thread_lem frames (has_frame (0 ∷ 0 ∷ 0 ∷ 2 ∷ 0x45 ∷ []))
      ((has_frame (0 ∷ 0 ∷ 0 ∷ 2 ∷ 0x45 ∷ []), true) ∷ [])
      (ap is_gone (read_packet-has_frame 16384 ((0, 0, 0, 2), 0x45 ∷ [])))

-- The server closes the connection before it answers.
abbrev told : List Connection.Action
told =
    Connection.emit (error (protocol http_closed))
    ∷ Connection.tls_write (build_request server (0x31 ∷ []))
    ∷ Connection.emit (progress tls_completed)
    ∷ Connection.tls_connect (0x61 ∷ [])
    ∷ Connection.emit (progress (tcp_connected server))
    ∷ Connection.tcp_connect server
    ∷ []

abbrev heard_wakes : List Worker.Wake
heard_wakes =
    received (some (progress (tcp_connected server)))
    ∷ poll true
    ∷ received (some (progress tls_completed))
    ∷ received (some (error (protocol http_closed)))
    ∷ []

abbrev setting : Setting
setting = record {
  password_file = ok password;
  pid = 7;
  server_ip = some (0x31 ∷ []);
  gateway = some (0x32 ∷ []);
  runtime = none;
  reader_ends = λ log. true;
}

run-ExitOk_example :
    ExitOk (some (0x31 ∷ [])) (some (0x32 ∷ [])) (Worker.run setting server heard_wakes)
run-ExitOk_example = run-ExitOk setting server heard_wakes

-- There is no default route, and " 10 " is saved.
abbrev machine : Machine
machine = record {
  route_get = λ log. none;
  ifconfig = λ log iface. false;
  read_status = λ log. none;
  kill = λ log pid. none;
  read_snapshot = λ log. some (0x20 ∷ 0x31 ∷ 0x30 ∷ 0x20 ∷ []);
}

heal_route_if_broken-IsSafe_example : IsSafe machine (heal_route_if_broken machine false true [])
heal_route_if_broken-IsSafe_example = heal_route_if_broken-IsSafe machine false true [] tt

heal_thread-Outcome_example :
    Outcome machine
      (0x31 ∷ 0x30 ∷ [])
      true
      (append_log (restoring (0x31 ∷ 0x30 ∷ [])) ∷ [])
      (heal_thread machine true [])
unfolding load_route_snapshot trim
heal_thread-Outcome_example = heal_thread-Outcome machine true [] (0x31 ∷ 0x30 ∷ []) refl

-- "1'; x"
abbrev hostile : Str
hostile = 0x31 ∷ 0x27 ∷ 0x3B ∷ 0x20 ∷ 0x78 ∷ []

route_cmd_quoted_example :
    (quoted : Str) × (elevated_script (route_cmd hostile ++ []) ≡ do_shell_script ++ quoted)
    × (script_literal false quoted ≡ some (route_cmd hostile ++ [], privileges))
    × ((rest : Str) × (sh_word outside (drop (length route_add) (route_cmd hostile ++ []))
          ≡ some (hostile, or_route_change ++ rest))
        × (sh_word outside rest ≡ some (hostile, 0x3B ∷ 0x20 ∷ [])))
route_cmd_quoted_example = route_cmd_quoted hostile []

shell_quote_run : sh_word outside (shell_quote hostile ++ (0x20 ∷ [])) ≡ some (hostile, 0x20 ∷ [])
shell_quote_run = shell_quote_lem hostile (0x20 ∷ []) refl

-- One call is refused while the thread of another could not be started.
abbrev overlapping : Reach (record { in_progress = true; calls = Route.Healing.over ∷ lost ∷ [] })
overlapping =
    Reach.move
      (Reach.call
        (Reach.move (Reach.move (Reach.call Reach.start) (first take_flag)) (first spawn_fails)))
      (first refuse)

healing_exclusive_example :
    (repairs (Route.Healing.over ∷ lost ∷ []) + losses (Route.Healing.over ∷ lost ∷ []) ≤ 1)
    × (holders (Route.Healing.over ∷ lost ∷ []) ≡ flag_count true)
    × ((flag : Bool) (calls : List Route.Healing.Place)
        → MoveIn true (Route.Healing.over ∷ lost ∷ []) flag calls
        → losses (Route.Healing.over ∷ lost ∷ []) ≡ 1
        → (losses calls ≡ 1) × (repairs calls ≡ 0) × (flag ≡ true))
healing_exclusive_example = healing_exclusive overlapping
