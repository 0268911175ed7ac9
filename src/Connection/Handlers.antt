-- ===== src/Connection/Handlers.antt =====
-- `run` and `run_inner` of connection.rs, from the HTTP exchange and the packets up.
use mac_os_sstp_client.Prelude.{
  ℕ, zero, suc, ◌+◌, List, [], ◌∷◌, ◌++◌, map, Option, none, some, Result, ok, err, ◌==◌, leb,
  if◌then◌else◌, length, drop, is_empty, Bytes,
}
use mac_os_sstp_client.Prelude.Text.{Str}
use mac_os_sstp_client.Prelude.Crypto.{Crypto}
use mac_os_sstp_client.Packet.{Packet, encode_data}
use mac_os_sstp_client.Packet.Reader as Reader
use mac_os_sstp_client.Packet.Reader.{PacketReader, push, next_packet}
use mac_os_sstp_client.Ppp as Ppp
use mac_os_sstp_client.Http.{ParseError, incomplete, build_request, parse_response}
use mac_os_sstp_client.Engine.{
  Outcome, done, panic, on_packet, start, build_disconnect, build_echo_request,
}
use mac_os_sstp_client.Engine as Engine
use mac_os_sstp_client.Utun.{Utun}
use mac_os_sstp_client.Connection.State.{
  http_request_unsent, http_read_failed, http_closed, http_failed, connect_req_unsent,
  connection_error, malformed_packet, write_failed, no_response, keepalive_failed, ConnectError,
  tcp, tls, no_certificate, invalid_server_name, tcp_connected, tls_completed, http_completed,
  connect_req_sent, Progress, Event, progress, disconnected, error, Action, tcp_connect,
  tls_connect, tls_write, take_packet, emit, World, Session, Connection, Step, going, returned,
  panicked, hung, ◌>>>◌, Wake, disconnect_ready, tls_read, idle_tick, ip_packet, Stage, in_http,
  in_loop,
}
use mac_os_sstp_client.Connection.Events.{fails, write_all, write_in, on_events}

-- The bytes behind the HTTP answer and the reads that are left, or `none` while it waits for more.
abbrev pub Switched : Type 0
Switched = Option (Bytes × List (Result Str Bytes))

-- `match parse_response(&http_buf)`, where `continue` gives `later`.
unfoldable pub on_answer :
    Bytes
    → List Action
    → List (Result Str Bytes)
    → Step Switched
    → Result ParseError (ℕ × ℕ)
    → Step Switched
on_answer buf log reads later (ok (status, offset)) = going (some (drop offset buf, reads))
on_answer buf log reads later (err incomplete) = later
on_answer buf log reads later (err e) = fails (http_failed e) log

unfoldable pub http_loop : Bytes → List Action → List (Result Str Bytes) → Step Switched
unfolding on_answer
http_loop http_buf log [] = going none
http_loop http_buf log (err e ∷ reads) = fails (http_read_failed e) log
http_loop http_buf log (ok [] ∷ reads) = fails http_closed log
http_loop http_buf log (ok (b ∷ bs) ∷ reads) =
    let buf = http_buf ++ (b ∷ bs) in
    on_answer buf log reads (http_loop buf log reads) (parse_response buf)

-- `server.rsplit_once(':').map(|(h, _)| h).unwrap_or(server)`.
abbrev pub or_before : Option Str → Option Str → Option Str
or_before (some h) before = some h
or_before none before = before

-- What stands before the last colon, if there is one.
unfoldable pub before_last_colon : Str → Option Str
before_last_colon [] = none
before_last_colon (c ∷ cs) = elim (before_last_colon cs) [
  | some h ↦ some (c ∷ h)
  | none ↦ if c == 0x3A then some [] else none
]

unfoldable pub host_of : Str → Str
unfolding before_last_colon
host_of server = elim (before_last_colon server) [ some h ↦ h | none ↦ server ]

abbrev pub no_error {ℓ} :
    {S : Type ℓ} → (Str → ConnectError) → Option Str → List Action → S → Step S
no_error failure none log s = going s
no_error failure (some e) log s = returned (some (failure e)) log

abbrev pub told : Progress → List Action → List Action
told p log = emit (progress p) ∷ log

-- The certificate in DER form.
unfoldable pub certificate : Result Str (Option (Result Str Bytes)) → List Action → Step Bytes
certificate (err e) log = returned (some (tls e)) log
certificate (ok none) log = returned (some no_certificate) log
certificate (ok (some (err e))) log = returned (some (tls e)) log
certificate (ok (some (ok der))) log = going der

-- The event at the end of the task.
abbrev pub ended : Option ConnectError → Event
ended none = disconnected
ended (some e) = error e

-- A panic ends the task without an event.
unfoldable pub tell_end : Step Stage → Step Stage
tell_end (returned e log) = returned e (emit (ended e) ∷ log)
tell_end m = m

-- What `on_packet` returns goes to the loop over the events.
module _ (c : Crypto) (w : World) where
  unfoldable pub on_outcome : Outcome → Session → Step Session
  unfolding on_events
  on_outcome panic s = panicked s.log
  on_outcome (done engine events) s = on_events w events (record s { engine = engine })

  unfoldable pub handle_packet : Packet → Session → Step Session
  unfolding on_outcome
  handle_packet pkt s =
      let draws = w.draws s.handled in
      on_outcome (on_packet c draws s.engine pkt)
        (record s { handled = suc s.handled; log = take_packet draws pkt ∷ s.log })

  -- The inner loop. Each packet takes 4 bytes at least from the reader.
  unfoldable pub packet_loop : ℕ → Session → PacketReader → Step (Session × PacketReader)
  unfolding handle_packet
  packet_loop zero s r = hung s.log
  packet_loop (suc fuel) s r =
      let (r', answer) = next_packet r in
      elim answer [
        | ok (some pkt) ↦ handle_packet pkt s >>> λ s'. packet_loop fuel s' r'
        | ok none ↦ going (s, r')
        | err e ↦ fails (malformed_packet e) s.log
      ]

  unfoldable pub on_read : Connection → Result Str Bytes → Step Connection
  unfolding packet_loop
  on_read k (err e) = fails (connection_error e) k.session.log
  on_read k (ok []) = returned none k.session.log
  on_read k (ok (b ∷ bs)) =
      let reader = push k.reader (b ∷ bs) in
      packet_loop (suc (length reader.buf)) k.session reader >>> λ r.
      going (record { session = r.0; reader = r.1; unanswered_echoes = 0 })

  abbrev pub max_unanswered_echoes : ℕ
  max_unanswered_echoes = 4

  unfoldable pub on_tick : Connection → Step Connection
  unfolding write_all
  on_tick k =
      if leb max_unanswered_echoes k.unanswered_echoes
      then fails no_response k.session.log
      else write_in w keepalive_failed build_echo_request k.session >>> λ s.
          going (record k { session = s; unanswered_echoes = k.unanswered_echoes + 1 })

  -- A packet off the device, which can only come when there is one.
  unfoldable pub on_ip_packet : Connection → Option Utun → Bytes → Step Connection
  unfolding write_all
  on_ip_packet k none ip_pkt = going k
  on_ip_packet k (some u) ip_pkt =
      write_in w write_failed (encode_data (Ppp.encode Ppp.ip ip_pkt)) k.session >>> λ s.
      going (record k { session = s })

  -- One round of `select!`. The answer of the write of DISCONNECT is ignored.
  unfoldable pub step : Connection → Wake → Step Connection
  unfolding on_read on_tick on_ip_packet
  step k disconnect_ready = returned none (tls_write build_disconnect ∷ k.session.log)
  step k (tls_read answer) = on_read k answer
  step k idle_tick = on_tick k
  step k (ip_packet ip_pkt) = on_ip_packet k k.session.utun ip_pkt

  unfoldable pub run_loop : Connection → List Wake → Step Connection
  unfolding step
  run_loop k [] = going k
  run_loop k (wake ∷ wakes) = step k wake >>> λ k'. run_loop k' wakes

  -- The engine is made and starts; the bytes behind the HTTP answer are in the reader.
  unfoldable pub begin : Str → Str → Bytes → Bytes → List Action → Step Connection
  unfolding write_all
  begin username password cert_der body log = write_all w connect_req_unsent start log >>> λ log'.
      going (record {
        session = record {
          engine = Engine.new c w.magic username password cert_der;
          utun = none;
          handled = 0;
          log = told connect_req_sent log';
        };
        reader = push Reader.new body;
        unanswered_echoes = 0;
      })

  -- What comes after the HTTP exchange: the reads that are left, and then what else `select!` sees.
  unfoldable pub after_http :
      Str
      → Str
      → Bytes
      → List Wake
      → List Action
      → Option (Bytes × List (Result Str Bytes))
      → Step Stage
  unfolding begin run_loop
  after_http username password cert_der wakes log none = going (in_http log)
  after_http username password cert_der wakes log (some (body, reads)) =
      begin username password cert_der body (told http_completed log) >>> λ k.
      run_loop k (map tls_read reads ++ wakes) >>> λ k'. going (in_loop k')

  -- `run_inner`, with the answers of `tls.read` up to the end of the HTTP exchange, and what
  -- `select!` sees behind it.
  unfoldable pub run_inner : Str → Str → Str → List (Result Str Bytes) → List Wake → Step Stage
  unfolding host_of certificate http_loop after_http
  run_inner server username password reads wakes =
      let host = host_of server in
      if is_empty host
      then returned (some (invalid_server_name server)) []
      else let log₁ = tcp_connect server ∷ [] in
        no_error (tcp server) (w.tcp_connects server) log₁ (told (tcp_connected server) log₁)
        >>> λ log₂. no_error tls w.client_config log₂ (tls_connect host ∷ log₂) >>> λ log₃.
            no_error tls (w.tls_connects host) log₃ (told tls_completed log₃) >>> λ log₄.
            certificate w.peer_certificate log₄ >>> λ cert_der.
            write_all w http_request_unsent (build_request server w.correlation_id) log₄ >>> λ log₅.
            http_loop [] log₅ reads >>> λ switched.
            after_http username password cert_der wakes log₅ switched

  -- The task: it tells how `run_inner` ended, unless that panics.
  unfoldable pub run : Str → Str → Str → List (Result Str Bytes) → List Wake → Step Stage
  unfolding run_inner tell_end
  run server username password reads wakes =
      tell_end (run_inner server username password reads wakes)
