-- ===== src/Tests/Connections.antt =====
-- The task of connection.rs on concrete reads.
use mac_os_sstp_client.Prelude.{
  true, ◌≡◌, refl, arith, List, [], ◌∷◌, ◌++◌, map, none, some, Result, ok, Bytes,
}
use mac_os_sstp_client.Prelude.Text.{codes, Str, from_utf8_lossy}
use mac_os_sstp_client.Packet.Reader.{push, drain}
use mac_os_sstp_client.Packet.Reader as Reader
use mac_os_sstp_client.Packet.Reader.Stream.{flatten}
use mac_os_sstp_client.Http.{parse_response}
use mac_os_sstp_client.Utun.{Kernel}
use mac_os_sstp_client.Engine as Engine
use mac_os_sstp_client.Connection.{
  World, Connection, Wake, idle_tick, ip_packet, disconnect_ready, run_loop, run, http_loop,
  returned, going, emit, disconnected, tls_write, in_loop, run_inner, tell_end, host_of,
  before_last_colon, certificate, write_all, on_answer, after_http, begin,
}
use mac_os_sstp_client.Connection.Handle.{Link, Caller, Move, task, disconnect_takes_effect}
use mac_os_sstp_client.Connection.Stream.{forget, serve_all, received, reads_refine}
use mac_os_sstp_client.Connection.Handoff.{Exchanged, http_loop-Exchanged}
use mac_os_sstp_client.Connection.Keepalive.{
  Goes, IsBounded, IsReturn, run_loop-IsBounded, silence_returns,
}
use mac_os_sstp_client.Connection.Safety.{TaskOk, Trusted, log_of, run_ends_once, run-Trusted}
use mac_os_sstp_client.Tests.{toy, user, password}
use mac_os_sstp_client.Tests.Engines.{draws, cert}
use mac_os_sstp_client.Tests.Greetings.{accepted}

-- A device is "utun" with the descriptor 5.
abbrev kernel : Kernel
kernel = record {
  socket = ok 5;
  ioctl = λ fd request info. ok (record info { ctl_id = 7 });
  connect = λ fd addr size. none;
  getsockopt_ifname = λ fd size. ok (0x75 ∷ 0x74 ∷ 0x75 ∷ 0x6E ∷ 0 ∷ [], 5);
}

-- Every call succeeds.
abbrev pub world : World
world = record {
  tcp_connects = λ server. none;
  client_config = none;
  tls_connects = λ host. none;
  peer_certificate = ok (some (ok cert));
  correlation_id = 0x31 ∷ [];
  magic = 0x01020304;
  writes = λ log. none;
  kernel = λ log. kernel;
  ifconfigs = λ log command. ok (record { exited_well = true; status_text = [] });
  draws = λ n. draws;
}

abbrev pub server : Str
server = codes "a:1"

abbrev waiting : Connection
waiting = record {
  session = record {
    engine = Engine.new toy 0x01020304 user password cert;
    utun = none;
    handled = 0;
    log = [];
  };
  reader = Reader.new;
  unanswered_echoes = 2;
}

-- An echo request that is cut in its header, and a DISCONNECT behind it.
abbrev first_read : Bytes
first_read = 0x10 ∷ 1 ∷ 0 ∷ []

abbrev later_reads : List Bytes
later_reads = (8 ∷ 0 ∷ 8 ∷ 0 ∷ 0 ∷ 0x10 ∷ 1 ∷ []) ∷ (0 ∷ 8 ∷ 0 ∷ 6 ∷ 0 ∷ 0 ∷ []) ∷ []

reads_refine_example :
    forget (run_loop toy world waiting (map received (first_read ∷ later_reads)))
    ≡ serve_all toy world
        (drain (push waiting.reader (first_read ++ flatten later_reads)))
        waiting.session
reads_refine_example =
    reads_refine toy world waiting first_read later_reads (refl, (refl, (refl, tt)))

http_loop-Exchanged_example :
    Exchanged
      (parse_response (flatten (accepted ∷ first_read ∷ [])))
      (flatten (accepted ∷ first_read ∷ []))
      []
      (http_loop [] [] (map ok (accepted ∷ first_read ∷ [])))
http_loop-Exchanged_example = http_loop-Exchanged [] (accepted ∷ first_read ∷ []) (refl, (refl, tt))

run_loop-IsBounded_run :
    Goes
      (IsBounded toy world)
      (run_loop toy world waiting (idle_tick ∷ received first_read ∷ idle_tick ∷ []))
run_loop-IsBounded_run =
    run_loop-IsBounded toy world waiting (idle_tick ∷ received first_read ∷ idle_tick ∷ [])
      (omega arith)

silence_returns_example : IsReturn (
    run_loop toy world waiting
      (idle_tick ∷ ip_packet (0x45 ∷ []) ∷ idle_tick ∷ idle_tick ∷ idle_tick ∷ []))
silence_returns_example =
    silence_returns toy world waiting
      (idle_tick ∷ ip_packet (0x45 ∷ []) ∷ idle_tick ∷ idle_tick ∷ idle_tick ∷ []) tt (omega arith)
      (omega arith)

-- The HTTP answer with the first bytes of the stream, the rest of an echo request, and ticks.
abbrev reads : List (Result Str Bytes)
reads = ok accepted ∷ ok (0 ∷ 8 ∷ 0 ∷ 8 ∷ 0 ∷ 0 ∷ []) ∷ []

abbrev wakes : List Wake
wakes = idle_tick ∷ ip_packet (0x45 ∷ []) ∷ disconnect_ready ∷ []

run_ends_once_example : TaskOk (run toy world server user password reads wakes)
run_ends_once_example = run_ends_once toy world server user password reads wakes

run-Trusted_example :
    Trusted toy user password (log_of (run toy world server user password reads wakes))
run-Trusted_example = run-Trusted toy world server user password reads wakes

abbrev called : Link
called = record { caller = Caller.waiting; wakes = [] }

-- The server has answered, and the task waits in its loop.
in_the_loop :
    (k : Connection) × (task toy world server user password (ok accepted ∷ []) called
      ≡ going (in_loop k))
unfolding run run_inner tell_end host_of before_last_colon certificate write_all http_loop on_answer
    after_http begin parse_response from_utf8_lossy
in_the_loop = (_, refl)

disconnect_takes_effect_example :
    let reads = ok accepted ∷ [] in
    let seen : Link = record { caller = Caller.waiting; wakes = disconnect_ready ∷ [] } in
    ((l' : Link) → Move toy world server user password reads called l' → l' ≡ seen)
    × Move toy world server user password reads called seen
    × (task toy world server user password reads seen
        ≡ returned none
            (emit disconnected ∷ tls_write Engine.build_disconnect ∷ in_the_loop.0.session.log))
    × Move toy world server user password reads seen (record seen { caller = Caller.back })
disconnect_takes_effect_example =
    disconnect_takes_effect toy world server user password (ok accepted ∷ []) called (in_the_loop.0)
      refl (in_the_loop.1)
