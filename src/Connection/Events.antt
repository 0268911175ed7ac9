-- ===== src/Connection/Events.antt =====
-- connection.rs: what the loop does with the events of the engine.
use mac_os_sstp_client.Prelude.{List, [], ◌∷◌, Option, none, some, ok, err, Bytes}
use mac_os_sstp_client.Prelude.Text.{Str}
use mac_os_sstp_client.Ipcp.{NegotiatedConfig}
use mac_os_sstp_client.Engine.{EngineEvent, send, trace, deliver_ip_packet, established, fatal}
use mac_os_sstp_client.Engine as Engine
use mac_os_sstp_client.Utun.{Utun, create, configure_ipv4}
use mac_os_sstp_client.Connection.State.{
  ProtocolError, write_failed, missing_address, not_configured, engine_fatal, utun_error, protocol,
  engine_trace, progress, connected, Action, tls_write, create_utun, ifconfig, start_reader,
  utun_write, emit, World, Session, Step, going, returned, ◌>>>◌,
}

abbrev pub fails {ℓ} : {S : Type ℓ} → ProtocolError → List Action → Step S
fails e log = returned (some (protocol e)) log

abbrev pub with_log : Session → List Action → Session
with_log s log = record s { log = log }

module _ (w : World) where
  -- `tls.write_all(..).await.map_err(..)?`.
  unfoldable pub write_all : (Str → ProtocolError) → Bytes → List Action → Step (List Action)
  write_all failure bytes log =
      let done_log = tls_write bytes ∷ log in
      elim (w.writes done_log) [ none ↦ going done_log | some e ↦ fails (failure e) done_log ]

  abbrev pub write_in : (Str → ProtocolError) → Bytes → Session → Step Session
  write_in failure bytes s = write_all failure bytes s.log >>> λ log. going (with_log s log)

  -- The device is configured, its reader thread is started, and the app is told.
  unfoldable pub open_utun : NegotiatedConfig → Bytes → Bytes → Utun → Session → Step Session
  open_utun negotiated local peer created s =
      let log = ifconfig created local peer ∷ create_utun ∷ s.log in
      elim (configure_ipv4 (w.ifconfigs log) created local peer) [
        | some e ↦ fails (not_configured e) log
        | none ↦ going (record s {
          utun = some created;
          log = emit (connected created.name negotiated) ∷ start_reader created ∷ log;
        })
      ]

  unfoldable pub on_addresses :
      NegotiatedConfig → Option Bytes → Option Bytes → Session → Step Session
  unfolding open_utun
  on_addresses negotiated (some local) (some peer) s =
      elim (create (w.kernel (create_utun ∷ s.log))) [
        | ok created ↦ open_utun negotiated local peer created s
        | err e ↦ returned (some (utun_error e)) (create_utun ∷ s.log)
      ]
  on_addresses negotiated _ _ s = fails missing_address s.log

  unfoldable pub on_event : EngineEvent → Session → Step Session
  unfolding write_all on_addresses
  on_event (send bytes) s = write_in write_failed bytes s
  on_event (deliver_ip_packet ip_pkt) s = elim s.utun [
    | none ↦ going s
    | some u ↦ going (with_log s (utun_write u ip_pkt ∷ s.log))
  ]
  on_event (established negotiated mppe_keys) s =
      on_addresses negotiated negotiated.local_ip negotiated.peer_ip s
  on_event Engine.disconnected s = returned none s.log
  on_event (fatal msg) s = fails (engine_fatal msg) s.log
  on_event (trace msg) s = going (with_log s (emit (progress (engine_trace msg)) ∷ s.log))

  -- `for event in engine.on_packet(pkt)`.
  unfoldable pub on_events : List EngineEvent → Session → Step Session
  unfolding on_event
  on_events [] s = going s
  on_events (event ∷ events) s = on_event event s >>> λ s'. on_events events s'
