-- ===== src/Engine/Early.antt =====
-- engine.rs: an exchange that runs without the CONNECT_ACK.
use mac_os_sstp_client.Prelude.{ℕ, ◌≡◌, refl, List, [], ◌∷◌, true, Bytes}
use mac_os_sstp_client.Prelude.Text.{Str}
use mac_os_sstp_client.Prelude.Crypto.{Crypto}
use mac_os_sstp_client.Ppp as Ppp
use mac_os_sstp_client.Cp as Cp
use mac_os_sstp_client.Ipcp as Ipcp
use mac_os_sstp_client.Engine.State.{EngineEvent, Engine, Draws, done, panic, new}
use mac_os_sstp_client.Engine.Handlers.{
  handle_ipcp, ipcp_opened, on_protocol, on_ppp_frame, on_packet,
}
use mac_os_sstp_client.Engine.History.{Reach, here, next}
use mac_os_sstp_client.Engine.Exchange.{
  challenge_packet, success_packet, request_packet, ack_packet, challenge_step, text, verified,
  success_step,
}

-- The exchange of a new engine, and IPCP's two packets behind it.
module _ (c : Crypto) (magic : ℕ) (username password : Str) (cert : Bytes) (draws : Draws) where
  abbrev pub fresh : Engine
  fresh = new c magic username password cert

  abbrev pub after_success : Engine
  after_success = verified c draws fresh

  abbrev pub after_request : Engine
  after_request = record after_success {
    ipcp = record ((Ipcp.start Ipcp.new).0) { remote_up = true };
  }

  request_step :
      (events : List EngineEvent) × (on_packet c draws after_success request_packet
        ≡ done after_request events)
  unfolding on_packet on_ppp_frame on_protocol handle_ipcp new Ppp.decode Ppp.encode
      Ppp.strip_address_control Ppp.protocol_from_u16 Ppp.protocol_to_u16 Ipcp.receive
      Ipcp.receive_frame Cp.decode Cp.encode Cp.code_from_u8 Cp.code_to_u8 Ipcp.new
      Ipcp.evaluate_peer_options Ipcp.evaluate_from Cp.decode_options
  request_step = (_, refl)

  ack_step : on_packet c draws after_request ack_packet ≡ panic
  unfolding on_packet on_ppp_frame on_protocol handle_ipcp ipcp_opened new Ppp.decode Ppp.encode
      Ppp.strip_address_control Ppp.protocol_from_u16 Ppp.protocol_to_u16 Ipcp.receive
      Ipcp.receive_frame Cp.decode Cp.encode Cp.code_from_u8 Cp.code_to_u8 Ipcp.new
  ack_step = refl

-- From a new engine that has received no CONNECT_ACK: a 16-byte challenge, the Success message that
-- an honest server makes for the engine's answer to it, and an IPCP Configure-Request without
-- options are all handled, and on the Configure-Ack of the engine's own request `on_packet` panics.
pub early_exchange_panics :
    (c : Crypto) (magic : ℕ) (username password : Str) (cert : Bytes) (draws : Draws)
    → (events : List EngineEvent) × Reach c
        (new c magic username password cert)
        ((draws, request_packet)
          ∷ (draws, success_packet (text c draws (new c magic username password cert)))
          ∷ (draws, challenge_packet)
          ∷ [])
        (after_request c magic username password cert draws)
        events
      × (on_packet c draws (after_request c magic username password cert draws) ack_packet ≡ panic)
early_exchange_panics c magic username password cert draws =
    let e = new c magic username password cert in
    let (events₁, step₁) = challenge_step c draws e in
    let (events₃, step₃) = request_step c magic username password cert draws in
    (
      events₃,
      next draws request_packet
          (next draws (success_packet (text c draws e)) (next draws challenge_packet here step₁)
            (success_step c draws e))
          step₃,
      ack_step c magic username password cert draws,
    )
