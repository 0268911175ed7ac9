-- ===== src/Connection/Device.antt =====
-- connection.rs: the tunnel device in the log of the task.
use mac_os_sstp_client.Prelude.{◌≡◌, List, [], ◌∷◌, Option, none, some, Bytes}
use mac_os_sstp_client.Prelude.Text.{Str}
use mac_os_sstp_client.Ipcp.{NegotiatedConfig}
use mac_os_sstp_client.Engine.History.{Entry}
use mac_os_sstp_client.Utun.{Utun}
use mac_os_sstp_client.Connection.State.{
  Action, tls_write, create_utun, ifconfig, start_reader, take_packet, emit, Event,
}

-- The device whose reader was started last.
abbrev pub IsOpen : Utun → List Action → Type 0
IsOpen u [] = ⊥
IsOpen u (start_reader u' ∷ log) = u ≡ u'
IsOpen u (_ ∷ log) = IsOpen u log

-- The device was just made, configured with the two negotiated addresses, and its reader started.
abbrev pub IsReady : Str → NegotiatedConfig → List Action → Type 0
IsReady name negotiated (start_reader u ∷ ifconfig u' local peer ∷ create_utun ∷ log) =
    (u.name ≡ name)
    × (u' ≡ u)
    × (negotiated.local_ip ≡ some local)
    × (negotiated.peer_ip ≡ some peer)
IsReady name negotiated _ = ⊥

abbrev pub DeviceOk : Option Utun → List Action → Type 0
DeviceOk none log = Unit {0}
DeviceOk (some u) log = IsOpen u log

pub DeviceOk-tls_write :
    (u : Option Utun) (bytes : Bytes) (log : List Action)
    → DeviceOk u log
    → DeviceOk u (tls_write bytes ∷ log)
DeviceOk-tls_write none bytes log d = tt
DeviceOk-tls_write (some u) bytes log d = d

pub DeviceOk-emit :
    (u : Option Utun) (event : Event) (log : List Action)
    → DeviceOk u log
    → DeviceOk u (emit event ∷ log)
DeviceOk-emit none event log d = tt
DeviceOk-emit (some u) event log d = d

pub DeviceOk-take_packet :
    (u : Option Utun) (e : Entry) (log : List Action)
    → DeviceOk u log
    → DeviceOk u (take_packet e.0 e.1 ∷ log)
DeviceOk-take_packet none e log d = tt
DeviceOk-take_packet (some u) e log d = d
