-- ===== src/Engine/Rechallenge.antt =====
-- engine.rs: an MS-CHAPv2 exchange while the tunnel is up.
use mac_os_sstp_client.Prelude.{
  ℕ, ◌+◌, ◌≡◌, refl, arith, List, [], ◌∷◌, append-nil, some, true, false, Bytes, as_u8, ==_refl,
  ◌∙◌,
}
use mathlib.Core.List.{Memᴰ}
use mac_os_sstp_client.Prelude.Crypto.{Crypto}
use mac_os_sstp_client.Packet.{Packet, data_packet}
use mac_os_sstp_client.Ppp as Ppp
use mac_os_sstp_client.Cp as Cp
use mac_os_sstp_client.Cp.Frames.{cp_decode-encode}
use mac_os_sstp_client.Ipcp as Ipcp
use mac_os_sstp_client.Ipcp.Adoption as Adoption
use mac_os_sstp_client.Ipcp.Adoption.{ack_adopts}
use mac_os_sstp_client.Cmac.{HashAlgo, build_connected_message}
use mac_os_sstp_client.Mppe.{mppe_get_keys}
use mac_os_sstp_client.Engine.State.{
  EngineEvent, trace, send, ipcp_recv, established, Engine, Draws, done, established_phase,
}
use mac_os_sstp_client.Engine.Handlers.{
  handle_ipcp, ipcp_opened, ipcp_arrival, cert_hash, on_protocol, on_ppp_frame, on_packet,
}
use mac_os_sstp_client.Engine.History.{Reach, here, next}
use mac_os_sstp_client.Engine.Exchange.{
  challenge_packet, success_packet, nt, challenge_step, text, verified, success_step,
}

-- IPCP's Configure-Ack of the request that the verified exchange sends.
abbrev pub next_ack : Engine → Packet
next_ack e =
    data_packet
      (Ppp.encode Ppp.ipcp (Cp.encode Cp.configure_ack (as_u8 (e.ipcp.identifier + 1)) []))

abbrev ack_frame : ℕ → Cp.Frame
ack_frame id = record { code = Cp.configure_ack; id = id; payload = [] }

ack_read : (id : ℕ) → Cp.decode (Cp.encode Cp.configure_ack id []) ≡ some (ack_frame id)
ack_read id =
    rw (← append-nil (Cp.encode Cp.configure_ack id []))
      (cp_decode-encode Cp.configure_ack id [] [] tt (omega arith))

module _ (c : Crypto) (draws : Draws) (e : Engine) where
  abbrev pub again : Engine
  again = verified c draws e

  ack_received :
      e.ipcp.remote_up ≡ true
      → Ipcp.receive again.ipcp (Cp.encode Cp.configure_ack (as_u8 (e.ipcp.identifier + 1)) []) ≡ (
        record again.ipcp {
          negotiated = Adoption.established e.ipcp.desired e.ipcp.negotiated;
          local_up = true;
        },
        record { to_send = []; up = true },
      )
  unfolding Ipcp.send_config_request
  ack_received up =
      let id = as_u8 (e.ipcp.identifier + 1) in
      rw
        (
          ack_adopts again.ipcp (Cp.encode Cp.configure_ack id []) (ack_read id) refl (==_refl id),
          up,
        )
        refl

  on_ipcp :
      (e' : Engine) (payload : Bytes)
      → on_packet c draws e' (data_packet (Ppp.encode Ppp.ipcp payload)) ≡ handle_ipcp c e' payload
  unfolding on_packet on_ppp_frame on_protocol Ppp.decode Ppp.encode Ppp.strip_address_control
      Ppp.protocol_from_u16 Ppp.protocol_to_u16
  on_ipcp e' payload = refl

  ack_arrival :
      let id = as_u8 (e.ipcp.identifier + 1) in
      ipcp_arrival (Cp.encode Cp.configure_ack id []) ≡ trace (ipcp_recv Cp.configure_ack id 0) ∷ []
  unfolding ipcp_arrival
  ack_arrival = rw (ack_read (as_u8 (e.ipcp.identifier + 1)), ipcp_arrival) refl

  abbrev pub reestablished : Engine
  reestablished = record again {
    ipcp = record again.ipcp {
      negotiated = Adoption.established e.ipcp.desired e.ipcp.negotiated;
      local_up = true;
    };
    phase = established_phase;
  }

  ack_step :
      (algo : HashAlgo) (nonce : Bytes)
      → e.hash_algo ≡ some algo
      → e.server_nonce ≡ some nonce
      → e.ipcp.remote_up ≡ true
      → (events : List EngineEvent) × (on_packet c draws again (next_ack e)
          ≡ done reestablished events)
        × Memᴰ
            (established
              (Adoption.established e.ipcp.desired e.ipcp.negotiated)
              (mppe_get_keys c e.password (nt c draws e) false))
            events
  unfolding handle_ipcp ipcp_opened
  ack_step algo nonce a n up =
      let keys = mppe_get_keys c e.password (nt c draws e) false in
      let negotiated = Adoption.established e.ipcp.desired e.ipcp.negotiated in
      let connected =
        build_connected_message c algo nonce (cert_hash e algo) keys.send_key keys.recv_key in
      let arrival = trace (ipcp_recv Cp.configure_ack (as_u8 (e.ipcp.identifier + 1)) 0) in
      (
        arrival ∷ send connected ∷ established negotiated keys ∷ [],
        on_ipcp again _ ∙ rw (ack_received up, handle_ipcp, ack_arrival, a, n) refl,
        Memᴰ.tail (Memᴰ.tail (Memᴰ.head refl)),
      )

-- An engine that has accepted the CONNECT_ACK and whose IPCP is up on the peer's side, as it is
-- while the tunnel is up, handles a new 16-byte challenge, the Success message that an honest
-- server makes for its answer and the Configure-Ack of the request that it then sends. With the
-- last of them it reports that the tunnel is established, once more, with the keys of the new
-- answer; the phase before is of no matter.
pub rechallenge_reestablishes :
    (c : Crypto) (draws : Draws) (e : Engine) (algo : HashAlgo) (nonce : Bytes)
    → e.hash_algo ≡ some algo
    → e.server_nonce ≡ some nonce
    → e.ipcp.remote_up ≡ true
    → (events : List EngineEvent) × Reach c e
        ((draws, next_ack e)
          ∷ (draws, success_packet (text c draws e))
          ∷ (draws, challenge_packet)
          ∷ [])
        (reestablished c draws e)
        events
      × Memᴰ
          (established
            (Adoption.established e.ipcp.desired e.ipcp.negotiated)
            (mppe_get_keys c e.password (nt c draws e) false))
          events
rechallenge_reestablishes c draws e algo nonce a n up =
    let (v₁, s₁) = challenge_step c draws e in
    let (v₃, s₃, mem) = ack_step c draws e algo nonce a n up in
    (
      v₃,
      next draws (next_ack e)
          (next draws (success_packet (text c draws e)) (next draws challenge_packet here s₁)
            (success_step c draws e))
          s₃,
      mem,
    )
