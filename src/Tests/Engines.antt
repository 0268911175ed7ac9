-- ===== src/Tests/Engines.antt =====
-- The engine on concrete handshakes.
use mac_os_sstp_client.Prelude.{
  ◌+◌, ◌≡◌, ◌↔◌, arith, List, [], ◌∷◌, ◌++◌, none, some, false, replicate, Bytes, ok,
}
use mathlib.Core.List.{Memᴰ}
use mac_os_sstp_client.Packet.{Packet}
use mac_os_sstp_client.Packet as Packet
use mac_os_sstp_client.Ppp as Ppp
use mac_os_sstp_client.Cp as Cp
use mac_os_sstp_client.Ipcp as Ipcp
use mac_os_sstp_client.Ipcp.{NegotiatedConfig}
use mac_os_sstp_client.Mppe.{MppeKeys, mppe_get_keys}
use mac_os_sstp_client.Engine.{
  EngineEvent, established, deliver_ip_packet, Engine, Draws, done, panic, new, established_phase,
}
use mac_os_sstp_client.Engine.{wrap_data, on_packet}
use mac_os_sstp_client.Engine.History.{Entry, Authenticated, Reach}
use mac_os_sstp_client.Engine.Exchange.{
  challenge_packet, success_packet, request_packet, ack_packet, text, nt,
}
use mac_os_sstp_client.Engine.Handshake.{established-Authenticated}
use mac_os_sstp_client.Engine.Panics.{Unacknowledged, opens, panics_exactly}
use mac_os_sstp_client.Engine.Early.{after_request, early_exchange_panics}
use mac_os_sstp_client.Engine.Complete.{
  connect_packet, auth_request, lcp_ack, ipcp_nak, ipcp_ack, nonce_value, IsBindable, completes,
  handshake_completes,
}
use mac_os_sstp_client.Engine.Rechallenge.{next_ack, reestablished, rechallenge_reestablishes}
use mac_os_sstp_client.Cmac.{sha256}
use mac_os_sstp_client.Ipcp.Adoption as Adoption
use mac_os_sstp_client.Engine.Replies.{ip_packets_delivered}
use mac_os_sstp_client.Tests.{toy, user, password}

abbrev pub cert : Bytes
cert = 0x30 ∷ 0x82 ∷ []

abbrev pub draws : Draws
draws = record { magic = λ n. 77 + n; peer_challenge = replicate 16 2 }

abbrev start_engine : Engine
start_engine = new toy 0x01020304 user password cert

-- The packets of a whole handshake, latest first.
abbrev history : List Entry
history =
    (draws, ipcp_ack)
    ∷ (draws, ipcp_nak (10 ∷ 0 ∷ 0 ∷ 5 ∷ []))
    ∷ (draws, request_packet)
    ∷ (draws, success_packet (text toy draws start_engine))
    ∷ (draws, challenge_packet)
    ∷ (draws, lcp_ack)
    ∷ (draws, auth_request)
    ∷ (draws, connect_packet)
    ∷ []

abbrev agreed : NegotiatedConfig
agreed = record {
  local_ip = some (10 ∷ 0 ∷ 0 ∷ 5 ∷ []);
  peer_ip = none;
  dns1 = some Ipcp.unspecified;
  dns2 = some Ipcp.unspecified;
}

abbrev session_keys : MppeKeys
session_keys = mppe_get_keys toy password (nt toy draws start_engine) false

handshake_completes_example :
    (e : Engine) × (events : List EngineEvent) × Reach toy start_engine history e events
    × (e.phase ≡ established_phase)
    × Memᴰ (established agreed session_keys) events
handshake_completes_example = handshake_completes toy 0x01020304 user password cert draws 10 0 0 5

-- The run, for the theorems on what was reached.
abbrev completed :
    (e : Engine) × (events : List EngineEvent) × Reach toy start_engine history e events
    × (e.phase ≡ established_phase)
    × Memᴰ (established agreed session_keys) events
completed = handshake_completes toy 0x01020304 user password cert draws 10 0 0 5

established-Authenticated_example : Authenticated toy user password history session_keys
established-Authenticated_example =
    established-Authenticated toy 0x01020304 user password cert agreed session_keys (completed.2)
      (completed.4)

early_exchange_panics_example :
    (events : List EngineEvent) × Reach toy start_engine
      ((draws, request_packet)
        ∷ (draws, success_packet (text toy draws start_engine))
        ∷ (draws, challenge_packet)
        ∷ [])
      (after_request toy 0x01020304 user password cert draws)
      events
    × (on_packet toy draws (after_request toy 0x01020304 user password cert draws) ack_packet
        ≡ panic)
early_exchange_panics_example = early_exchange_panics toy 0x01020304 user password cert draws

abbrev early_run :
    (events : List EngineEvent) × Reach toy start_engine
      ((draws, request_packet)
        ∷ (draws, success_packet (text toy draws start_engine))
        ∷ (draws, challenge_packet)
        ∷ [])
      (after_request toy 0x01020304 user password cert draws)
      events
    × (on_packet toy draws (after_request toy 0x01020304 user password cert draws) ack_packet
        ≡ panic)
early_run = early_exchange_panics toy 0x01020304 user password cert draws

panics_exactly_example :
    (on_packet toy draws (after_request toy 0x01020304 user password cert draws) ack_packet ≡ panic)
    ↔ Unacknowledged
        (after_request toy 0x01020304 user password cert draws)
        (opens (after_request toy 0x01020304 user password cert draws) ack_packet)
panics_exactly_example =
    panics_exactly toy 0x01020304 user password cert draws ack_packet (early_run.1)

ip_packets_delivered_example :
    (pkt : Packet) × (Packet.decode (wrap_data Ppp.ip (0x45 ∷ 0 ∷ []) ++ 0x10 ∷ []) ≡ ok pkt)
    × (on_packet toy draws start_engine pkt
        ≡ done start_engine (deliver_ip_packet (0x45 ∷ 0 ∷ []) ∷ []))
ip_packets_delivered_example =
    ip_packets_delivered toy draws start_engine (0x45 ∷ 0 ∷ []) (0x10 ∷ []) (omega arith)

-- Behind a whole handshake, with the device already there.
abbrev bound :
    (e : Engine) × (events : List EngineEvent) × Reach toy start_engine history e events
    × (e.phase ≡ established_phase)
    × Memᴰ (established agreed session_keys) events
    × IsBindable e
bound = completes toy 0x01020304 user password cert draws 10 0 0 5

rechallenge_reestablishes_example :
    (events : List EngineEvent) × Reach toy
      (bound.0)
      ((draws, next_ack (bound.0))
        ∷ (draws, success_packet (text toy draws (bound.0)))
        ∷ (draws, challenge_packet)
        ∷ [])
      (reestablished toy draws (bound.0))
      events
    × Memᴰ
        (established
          (Adoption.established ((bound.0).ipcp.desired) ((bound.0).ipcp.negotiated))
          (mppe_get_keys toy ((bound.0).password) (nt toy draws (bound.0)) false))
        events
rechallenge_reestablishes_example =
    rechallenge_reestablishes toy draws (bound.0) sha256 nonce_value (bound.5.0) (bound.5.1)
      (bound.5.2)
