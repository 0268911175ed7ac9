-- ===== src/Connection/State.antt =====
-- The data of connection.rs: events, errors, what the task does to the outside, and the state of
-- the loop. The texts that the source formats are constructors with what is printed in them.
use mac_os_sstp_client.Prelude.{ℕ, List, Option, Result, Bytes}
use mac_os_sstp_client.Prelude.Text.{Str}
use mac_os_sstp_client.Packet.{Packet, DecodeError}
use mac_os_sstp_client.Packet.Reader.{PacketReader}
use mac_os_sstp_client.Http.{ParseError}
use mac_os_sstp_client.Ipcp.{NegotiatedConfig}
use mac_os_sstp_client.Engine.{Engine, Trace, Fault, Draws}
use mac_os_sstp_client.Prelude.Command.{Command, ExitStatus}
use mac_os_sstp_client.Utun.{Utun, UtunError, Kernel}

pub data Progress : Type 0 where
  tcp_connected : Str → Progress
  tls_completed : Progress
  http_completed : Progress
  connect_req_sent : Progress
  engine_trace : Trace → Progress

pub data ProtocolError : Type 0 where
  http_request_unsent : Str → ProtocolError
  http_read_failed : Str → ProtocolError
  http_closed : ProtocolError
  http_failed : ParseError → ProtocolError
  connect_req_unsent : Str → ProtocolError
  connection_error : Str → ProtocolError
  malformed_packet : DecodeError → ProtocolError
  write_failed : Str → ProtocolError
  missing_address : ProtocolError
  not_configured : Str → ProtocolError
  engine_fatal : Fault → ProtocolError
  no_response : ProtocolError
  keepalive_failed : Str → ProtocolError

pub data ConnectError : Type 0 where
  tcp : Str → Str → ConnectError
  tls : Str → ConnectError
  no_certificate : ConnectError
  invalid_server_name : Str → ConnectError
  utun_error : UtunError → ConnectError
  protocol : ProtocolError → ConnectError

pub data Event : Type 0 where
  progress : Progress → Event
  connected : Str → NegotiatedConfig → Event
  disconnected : Event
  error : ConnectError → Event

-- What the task does to the outside; `take_packet` marks the call of `on_packet`, with the numbers
-- that it draws.
pub data Action : Type 0 where
  tcp_connect : Str → Action
  tls_connect : Str → Action
  tls_write : Bytes → Action
  create_utun : Action
  ifconfig : Utun → Bytes → Bytes → Action
  start_reader : Utun → Action
  take_packet : Draws → Packet → Action
  utun_write : Utun → Bytes → Action
  emit : Event → Action

-- The outside: how each call ends may depend on all that was done before it, latest first. A
-- failing call gives the text of its error.
pub record World : Type 0 where
  pub tcp_connects : Str → Option Str
  pub client_config : Option Str
  pub tls_connects : Str → Option Str
  pub peer_certificate : Result Str (Option (Result Str Bytes))
  pub correlation_id : Str
  pub magic : ℕ
  pub writes : List Action → Option Str
  pub kernel : List Action → Kernel
  pub ifconfigs : List Action → Command → Result Str ExitStatus
  pub draws : ℕ → Draws

-- The part of the loop's state that a packet changes. `handled` counts the packets, and picks what
-- a call draws.
pub record Session : Type 0 where
  pub engine : Engine
  pub utun : Option Utun
  pub handled : ℕ
  pub log : List Action

pub record Connection : Type 0 where
  pub session : Session
  pub reader : PacketReader
  pub unanswered_echoes : ℕ

-- `going` for the code that goes on, `returned` for a `return` out of `run_inner` (`none` is
-- `Ok(())`), `panicked` for a panic, `hung` for the end of the fuel.
pub data Step {ℓ} (S : Type ℓ) : Type ℓ where
  going : S → Step S
  returned : Option ConnectError → List Action → Step S
  panicked : List Action → Step S
  hung : List Action → Step S

infixl 5 ◌>>>◌
abbrev pub ◌>>>◌ {ℓ κ} : {S : Type ℓ} {T : Type κ} → Step S → (S → Step T) → Step T
going s >>> f = f s
returned e log >>> f = returned e log
panicked log >>> f = panicked log
hung log >>> f = hung log

-- What `select!` wakes up with. `disconnect_rx.recv()` is ready when a request was sent, and also
-- when the sender is gone.
pub data Wake : Type 0 where
  disconnect_ready : Wake
  tls_read : Result Str Bytes → Wake
  idle_tick : Wake
  ip_packet : Bytes → Wake

-- Where `run_inner` waits.
pub data Stage : Type 0 where
  in_http : List Action → Stage
  in_loop : Connection → Stage
