-- ===== src/Engine/Complete.antt =====
-- engine.rs: a whole handshake with an honest server.
use mac_os_sstp_client.Prelude.{
  ℕ, ◌≡◌, refl, List, [], ◌∷◌, none, some, true, false, replicate, Bytes,
}
use mathlib.Core.List.{Memᴰ}
use mac_os_sstp_client.Prelude.Text.{Str}
use mac_os_sstp_client.Prelude.Crypto.{Crypto}
use mac_os_sstp_client.Packet.{Packet, data_packet, ctrl, connect_ack, crypto_bind_request}
use mac_os_sstp_client.Ppp as Ppp
use mac_os_sstp_client.Cp as Cp
use mac_os_sstp_client.Lcp as Lcp
use mac_os_sstp_client.Ipcp as Ipcp
use mac_os_sstp_client.Ipcp.{NegotiatedConfig, Ipv4Addr}
use mac_os_sstp_client.Cmac.{sha256}
use mac_os_sstp_client.Mppe.{MppeKeys, mppe_get_keys}
use mac_os_sstp_client.Engine.State.{
  EngineEvent, established, Engine, Draws, done, new, chap_phase, established_phase,
}
use mac_os_sstp_client.Engine.Handlers.{
  accept_ack, on_found, on_connect_ack, on_ctrl, lcp_opened, handle_lcp, handle_ipcp, ipcp_opened,
  on_protocol, on_ppp_frame, on_packet,
}
use mac_os_sstp_client.Engine.History.{Entry, Reach, here, next}
use mac_os_sstp_client.Engine.Exchange.{
  challenge_packet, success_packet, request_packet, nt, answered, challenge_step, text, verified,
  success_step, success_events,
}

-- The server's packets around the exchange: the CONNECT_ACK that asks for a SHA-256 binding, LCP's
-- Configure-Request for MS-CHAPv2 and Configure-Ack of our request, IPCP's Configure-Nak with an
-- address and Configure-Ack of our second request.
abbrev pub nonce_value : Bytes
nonce_value = replicate 32 9

abbrev pub connect_packet : Packet
connect_packet =
    ctrl connect_ack
      (record { attr_type = crypto_bind_request; value = 0 ∷ 0 ∷ 0 ∷ 2 ∷ nonce_value } ∷ [])

abbrev pub lcp_packet : Cp.Code → Bytes → Packet
lcp_packet code payload = data_packet (Ppp.encode Ppp.lcp (Cp.encode code 1 payload))

abbrev pub auth_request : Packet
auth_request = lcp_packet Cp.configure_request (3 ∷ 5 ∷ 0xC2 ∷ 0x23 ∷ 0x81 ∷ [])

abbrev pub lcp_ack : Packet
lcp_ack = lcp_packet Cp.configure_ack []

abbrev pub ipcp_nak : Ipv4Addr → Packet
ipcp_nak addr =
    data_packet
      (Ppp.encode Ppp.ipcp (Cp.encode Cp.configure_nak 1 (Ipcp.opt_ip_address ∷ 6 ∷ addr)))

abbrev pub ipcp_ack : Packet
ipcp_ack = data_packet (Ppp.encode Ppp.ipcp (Cp.encode Cp.configure_ack 2 []))

-- The CONNECT_ACK was accepted, and IPCP is up on the peer's side.
abbrev pub IsBindable : Engine → Type 0
IsBindable e =
    (e.hash_algo ≡ some sha256) × (e.server_nonce ≡ some nonce_value) × (e.ipcp.remote_up ≡ true)

module _ (c : Crypto) (magic : ℕ) (username password : Str) (cert : Bytes) (draws : Draws) where
  abbrev fresh : Engine
  fresh = new c magic username password cert

  connect_step :
      (e : Engine) × (events : List EngineEvent) × (on_packet c draws fresh connect_packet
        ≡ done e events)
  unfolding on_packet on_ctrl on_connect_ack on_found accept_ack new
  connect_step = (_, _, refl)

  abbrev connected_engine : Engine
  connected_engine = connect_step.0

  request_step :
      (e : Engine) × (events : List EngineEvent) × (on_packet c draws connected_engine auth_request
        ≡ done e events)
  unfolding connect_step on_packet on_ppp_frame on_protocol handle_lcp new Lcp.new Ppp.decode
      Ppp.encode Ppp.strip_address_control Ppp.protocol_from_u16 Ppp.protocol_to_u16 Cp.decode
      Cp.encode Cp.code_from_u8 Cp.code_to_u8 Cp.decode_options Lcp.receive Lcp.receive_frame
      Lcp.evaluate_peer_options Lcp.evaluate_from Lcp.evaluate_option Lcp.evaluate_auth
  request_step = (_, _, refl)

  abbrev requested : Engine
  requested = request_step.0

  ack_step :
      (e : Engine) × (events : List EngineEvent) × (on_packet c draws requested lcp_ack
        ≡ done e events)
  unfolding request_step connect_step on_packet on_ppp_frame on_protocol handle_lcp lcp_opened new
      Lcp.new Lcp.is_mschapv2 Ppp.decode Ppp.encode Ppp.strip_address_control Ppp.protocol_from_u16
      Ppp.protocol_to_u16 Cp.decode Cp.encode Cp.code_from_u8 Cp.code_to_u8 Lcp.receive
      Lcp.receive_frame
  ack_step = (_, _, refl)

  abbrev opened : Engine
  opened = ack_step.0

  opened_lem : (opened.phase ≡ chap_phase) × (opened.ipcp ≡ Ipcp.new) × (opened.password ≡ password)
  unfolding ack_step request_step connect_step new
  opened_lem = (refl, refl, refl)

  abbrev authenticated : Engine
  authenticated = verified c draws opened

  ipcp_request_step :
      (e : Engine) × (events : List EngineEvent) × (on_packet c draws authenticated request_packet
        ≡ done e events)
  unfolding ack_step request_step connect_step on_packet on_ppp_frame on_protocol handle_ipcp new
      Ppp.decode Ppp.encode Ppp.strip_address_control Ppp.protocol_from_u16 Ppp.protocol_to_u16
      Cp.decode Cp.encode Cp.code_from_u8 Cp.code_to_u8 Cp.decode_options Ipcp.new Ipcp.receive
      Ipcp.receive_frame Ipcp.evaluate_peer_options Ipcp.evaluate_from
  ipcp_request_step = (_, _, refl)

  module _ (a b d f : ℕ) where
    abbrev addr : Ipv4Addr
    addr = a ∷ b ∷ d ∷ f ∷ []

    nak_step :
        (e : Engine) × (events : List EngineEvent) × (on_packet c draws ipcp_request_step.0
            (ipcp_nak addr)
          ≡ done e events)
    unfolding ipcp_request_step ack_step request_step connect_step on_packet on_ppp_frame
        on_protocol handle_ipcp new Ppp.decode Ppp.encode Ppp.strip_address_control
        Ppp.protocol_from_u16 Ppp.protocol_to_u16 Cp.decode Cp.encode Cp.code_from_u8 Cp.code_to_u8
        Cp.decode_options Ipcp.new Ipcp.receive Ipcp.receive_frame Ipcp.apply_nak
    nak_step = (_, _, refl)

    abbrev keys : MppeKeys
    keys = mppe_get_keys c password (nt c draws fresh) false

    abbrev agreed : NegotiatedConfig
    agreed = record {
      local_ip = some addr;
      peer_ip = none;
      dns1 = some Ipcp.unspecified;
      dns2 = some Ipcp.unspecified;
    }

    final_step :
        (e : Engine) × (events : List EngineEvent) × (on_packet c draws nak_step.0 ipcp_ack
          ≡ done e events)
        × (e.phase ≡ established_phase)
        × Memᴰ (established agreed keys) events
        × IsBindable e
    unfolding nak_step ipcp_request_step ack_step request_step connect_step on_packet on_ppp_frame
        on_protocol handle_ipcp ipcp_opened new Ppp.decode Ppp.encode Ppp.strip_address_control
        Ppp.protocol_from_u16 Ppp.protocol_to_u16 Cp.decode Cp.encode Cp.code_from_u8 Cp.code_to_u8
        Ipcp.new Ipcp.receive Ipcp.receive_frame Ipcp.capture_accepted_values Ipcp.capture_from
    final_step = (_, _, refl, refl, Memᴰ.tail (Memᴰ.tail (Memᴰ.head refl)), (refl, refl, refl))

  success_here :
      on_packet c draws (answered c draws opened) (success_packet (text c draws fresh))
      ≡ done authenticated (success_events c draws opened)
  unfolding ack_step request_step connect_step new
  success_here = success_step c draws opened

  -- The packets of the handshake, latest first.
  abbrev pub handshake : ℕ → ℕ → ℕ → ℕ → List Entry
  handshake a b d f =
      (draws, ipcp_ack)
      ∷ (draws, ipcp_nak (addr a b d f))
      ∷ (draws, request_packet)
      ∷ (draws, success_packet (text c draws fresh))
      ∷ (draws, challenge_packet)
      ∷ (draws, lcp_ack)
      ∷ (draws, auth_request)
      ∷ (draws, connect_packet)
      ∷ []

  pub completes :
      (a b d f : ℕ)
      → (e : Engine) × (events : List EngineEvent) × Reach c fresh (handshake a b d f) e events
        × (e.phase ≡ established_phase)
        × Memᴰ (established (agreed a b d f) (keys a b d f)) events
        × IsBindable e
  completes a b d f =
      let (e₁, v₁, s₁) = connect_step in
      let (e₂, v₂, s₂) = request_step in
      let (e₃, v₃, s₃) = ack_step in
      let (v₄, s₄) = challenge_step c draws opened in
      let (e₆, v₆, s₆) = ipcp_request_step in
      let (e₇, v₇, s₇) = nak_step a b d f in
      let (e₈, v₈, s₈, phase, mem, bindable) = final_step a b d f in
      let lcp_done =
        next draws lcp_ack (next draws auth_request (next draws connect_packet here s₁) s₂) s₃ in
      let chap_done =
        next draws (success_packet _) (next draws challenge_packet lcp_done s₄) success_here in
      (
        e₈,
        v₈,
        next draws ipcp_ack
            (next draws (ipcp_nak (addr a b d f)) (next draws request_packet chap_done s₆) s₇) s₈,
        phase,
        mem,
        bindable,
      )

-- A new engine that receives CONNECT_ACK, LCP's Configure-Request for MS-CHAPv2 and Configure-Ack,
-- a 16-byte challenge, the Success message that an honest server makes for the engine's answer, and
-- IPCP's empty Configure-Request, a Nak with any address and the Ack of the second request, handles
-- them all without a panic. It ends in the established phase, and reports with the last packet the
-- suggested address and the MPPE keys of its answer.
pub handshake_completes :
    (c : Crypto) (magic : ℕ) (username password : Str) (cert : Bytes) (draws : Draws) (a b d f : ℕ)
    → (e : Engine) × (events : List EngineEvent) × Reach c
        (new c magic username password cert)
        ((draws, ipcp_ack)
          ∷ (draws, ipcp_nak (a ∷ b ∷ d ∷ f ∷ []))
          ∷ (draws, request_packet)
          ∷ (draws, success_packet (text c draws (new c magic username password cert)))
          ∷ (draws, challenge_packet)
          ∷ (draws, lcp_ack)
          ∷ (draws, auth_request)
          ∷ (draws, connect_packet)
          ∷ [])
        e
        events
      × (e.phase ≡ established_phase)
      × Memᴰ
          (established
            (record {
              local_ip = some (a ∷ b ∷ d ∷ f ∷ []);
              peer_ip = none;
              dns1 = some Ipcp.unspecified;
              dns2 = some Ipcp.unspecified;
            })
            (mppe_get_keys c password (nt c draws (new c magic username password cert)) false))
          events
handshake_completes c magic username password cert draws a b d f =
    let (e, events, reach, phase, mem, bindable) =
      completes c magic username password cert draws a b d f in
    (e, events, reach, phase, mem)
