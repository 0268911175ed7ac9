-- ===== src/Engine/Exchange.antt =====
-- engine.rs: an MS-CHAPv2 exchange with an honest server, from any state of the engine.
use mac_os_sstp_client.Prelude.{
  ◌≡◌, refl, ◌∙◌, arith, List, [], ◌∷◌, append-nil, none, some, true, false, ◌+◌, ◌<◌, length,
  replicate, Bytes,
}
use mac_os_sstp_client.Prelude.Crypto.{Crypto}
use mac_os_sstp_client.Packet.{Packet, data_packet}
use mac_os_sstp_client.Ppp as Ppp
use mac_os_sstp_client.Cp as Cp
use mac_os_sstp_client.Ipcp as Ipcp
use mac_os_sstp_client.ChapFsm as ChapFsm
use mac_os_sstp_client.ChapFsm.{parse_challenge, build_response, verify_success}
use mac_os_sstp_client.ChapFsm.Frames.{chap_decode-encode}
use mac_os_sstp_client.ChapFsm.Responses.{
  verify_success-genuine, length-generate_authenticator_response,
}
use mac_os_sstp_client.Chap.{generate_nt_response, generate_authenticator_response}
use mac_os_sstp_client.Mppe.{mppe_get_keys}
use mac_os_sstp_client.Engine.State.{
  EngineEvent, trace, send, chap_recv, chap_success_verified, Engine, Draws, done, ipcp_phase,
}
use mac_os_sstp_client.Engine.Handlers.{
  answer_challenge, check_success, on_success, handle_chap_frame, handle_chap, on_protocol,
  on_ppp_frame, on_packet, wrap_data,
}

-- A challenge of 16 bytes, the Success message with a text, and IPCP's Configure-Request without
-- options and Configure-Ack of our first request.
abbrev pub challenge_value : Bytes
challenge_value = replicate 16 7

abbrev pub challenge_packet : Packet
challenge_packet =
    data_packet (Ppp.encode Ppp.chap (ChapFsm.encode ChapFsm.challenge 1 (16 ∷ challenge_value)))

abbrev pub success_packet : Bytes → Packet
success_packet text = data_packet (Ppp.encode Ppp.chap (ChapFsm.encode ChapFsm.success 1 text))

abbrev pub request_packet : Packet
request_packet = data_packet (Ppp.encode Ppp.ipcp (Cp.encode Cp.configure_request 1 []))

abbrev pub ack_packet : Packet
ack_packet = data_packet (Ppp.encode Ppp.ipcp (Cp.encode Cp.configure_ack 1 []))

module _ (c : Crypto) (draws : Draws) (e : Engine) where
  abbrev pub nt : Bytes
  nt = generate_nt_response c challenge_value draws.peer_challenge e.username e.password

  abbrev pub answered : Engine
  answered = record e {
    auth_challenge = some challenge_value;
    pending_chap = some (record { peer_challenge = draws.peer_challenge; nt_response = nt });
  }

  pub challenge_step :
      (events : List EngineEvent) × (on_packet c draws e challenge_packet ≡ done answered events)
  unfolding on_packet on_ppp_frame on_protocol handle_chap handle_chap_frame answer_challenge
      build_response parse_challenge Ppp.decode Ppp.encode ChapFsm.decode ChapFsm.encode
      Ppp.strip_address_control Ppp.protocol_from_u16 Ppp.protocol_to_u16 ChapFsm.code_from_u8
      ChapFsm.code_to_u8
  challenge_step = (_, refl)

  -- What an honest server answers to our response.
  abbrev pub text : Bytes
  text =
      generate_authenticator_response c e.password nt draws.peer_challenge challenge_value
        e.username

  decode_success :
      ChapFsm.decode (ChapFsm.encode ChapFsm.success 1 text)
      ≡ some (record { code = ChapFsm.success; id = 1; payload = text })
  decode_success =
      let size : 4 + length text < 65536 = omega (
        arith,
        length-generate_authenticator_response c e.password nt draws.peer_challenge challenge_value
            e.username,
      ) in
      rw (← append-nil (ChapFsm.encode ChapFsm.success 1 text))
        (chap_decode-encode ChapFsm.success 1 text [] tt size)

  accepted :
      verify_success c text e.password
        (record { peer_challenge = draws.peer_challenge; nt_response = nt })
        challenge_value
        e.username
      ≡ true
  accepted = rw (← append-nil text) (
      verify_success-genuine c e.password e.username
        (record { peer_challenge = draws.peer_challenge; nt_response = nt }) challenge_value [] tt)

  abbrev pub verified : Engine
  verified = record answered {
    pending_chap = none;
    mppe_keys = some (mppe_get_keys c e.password nt false);
    phase = ipcp_phase;
    ipcp = (Ipcp.start e.ipcp).0;
  }

  abbrev pub success_events : List EngineEvent
  success_events =
      trace (chap_recv ChapFsm.success 1 (length text))
      ∷ trace chap_success_verified
      ∷ send (wrap_data Ppp.ipcp (Ipcp.start e.ipcp).1)
      ∷ []

  on_chap :
      (e' : Engine) (payload : Bytes)
      → on_packet c draws e' (data_packet (Ppp.encode Ppp.chap payload))
        ≡ handle_chap c draws e' payload
  unfolding on_packet on_ppp_frame on_protocol Ppp.decode Ppp.encode Ppp.strip_address_control
      Ppp.protocol_from_u16 Ppp.protocol_to_u16
  on_chap e' payload = refl

  success_frame_step :
      handle_chap_frame c draws answered ChapFsm.success
        (record { code = ChapFsm.success; id = 1; payload = text })
      ≡ done verified success_events
  unfolding handle_chap_frame on_success check_success
  success_frame_step = rw (accepted, check_success) refl

  pub success_step : on_packet c draws answered (success_packet text) ≡ done verified success_events
  unfolding handle_chap
  success_step =
      on_chap answered (ChapFsm.encode ChapFsm.success 1 text)
      ∙ rw (decode_success, handle_chap) success_frame_step
