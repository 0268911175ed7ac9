-- ===== src/Engine/Handlers.antt =====
-- The handlers of engine.rs, from `on_packet` down.
use mac_os_sstp_client.Prelude.{
  ℕ, ◌==◌, not, ◌&&◌, List, [], ◌∷◌, ◌++◌, Option, none, some, Bool, true, false, length, take,
  drop, find, get_or, if◌then◌else◌, Bytes, bit_and, ok, err,
}
use mac_os_sstp_client.Prelude.Text.{from_utf8_lossy}
use mac_os_sstp_client.Prelude.Crypto.{Crypto}
use mac_os_sstp_client.Packet.{
  MsgType, connect_ack, connect_nak, abort, disconnect, disconnect_ack, echo_request, echo_reply,
  Attr, Packet, data_packet, ctrl, is_crypto_bind_request, describe_status, encode_ctrl,
  encode_data,
}
use mac_os_sstp_client.Ppp as Ppp
use mac_os_sstp_client.Cp as Cp
use mac_os_sstp_client.Lcp as Lcp
use mac_os_sstp_client.Ipcp as Ipcp
use mac_os_sstp_client.ChapFsm as ChapFsm
use mac_os_sstp_client.ChapFsm.{PendingResponse, build_response, verify_success, parse_challenge}
use mac_os_sstp_client.Cmac.{HashAlgo, sha1, sha256, build_connected_message}
use mac_os_sstp_client.Mppe.{MppeKeys, mppe_get_keys}
use mac_os_sstp_client.Engine.State.{
  Trace, connect_ack_ok, lcp_recv, lcp_recv_malformed, lcp_send, chap_recv, chap_send_response,
  chap_success_verified, ipcp_recv, ipcp_send, connect_nak_received, aborted,
  no_crypto_bind_request, crypto_bind_length, other_auth_method, no_auth_requested,
  malformed_chap_frame, malformed_chap_challenge, challenge_length, no_response_built,
  no_pending_response, not_verified, chap_failed, unexpected_chap_code, EngineEvent, send, trace,
  deliver_ip_packet, established, disconnected, fatal, Phase, wait_connect_ack, lcp_phase,
  chap_phase, ipcp_phase, established_phase, Engine, Draws, Outcome, done, panic,
}

unfoldable pub wrap_data : Ppp.Protocol → Bytes → Bytes
wrap_data proto payload = encode_data (Ppp.encode proto payload)

-- `self.phase == Phase::...`.
abbrev pub is_wait_connect_ack : Phase → Bool
is_wait_connect_ack wait_connect_ack = true
is_wait_connect_ack _ = false

abbrev pub is_lcp : Phase → Bool
is_lcp lcp_phase = true
is_lcp _ = false

abbrev pub is_ipcp : Phase → Bool
is_ipcp ipcp_phase = true
is_ipcp _ = false

-- A crypto-bind request of 36 bytes: the hash bit mask in byte 3, then the nonce.
unfoldable pub accept_ack : Engine → Bytes → Outcome
accept_ack e value =
    let hash_byte = get_or value 3 0 in
    let algo = if not (bit_and hash_byte 0x02 == 0) then sha256 else sha1 in
    let (lcp', lcp_req) = Lcp.start e.lcp in
    done
      (record e {
        hash_algo = some algo;
        server_nonce = some (take 32 (drop 4 value));
        phase = lcp_phase;
        lcp = lcp';
      })
      (trace (connect_ack_ok algo) ∷ send (wrap_data Ppp.lcp lcp_req) ∷ [])

-- The CONNECT_ACK's first crypto-bind request, if it has one.
unfoldable pub on_found : Engine → Option Attr → Outcome
unfolding accept_ack
on_found e none = done e (fatal no_crypto_bind_request ∷ [])
on_found e (some attr) =
    if not (length attr.value == 36)
    then done e (fatal (crypto_bind_length (length attr.value)) ∷ [])
    else accept_ack e attr.value

unfoldable pub on_connect_ack : Engine → List Attr → Outcome
unfolding on_found
on_connect_ack e attrs =
    if not (is_wait_connect_ack e.phase)
    then done e []
    else on_found e (find (λ a. is_crypto_bind_request a.attr_type) attrs)

unfoldable pub on_ctrl : Engine → MsgType → List Attr → Outcome
on_ctrl e connect_ack attrs = on_connect_ack e attrs
on_ctrl e connect_nak attrs = done e (fatal (connect_nak_received (describe_status attrs)) ∷ [])
on_ctrl e abort attrs = done e (fatal (aborted (describe_status attrs)) ∷ [])
on_ctrl e disconnect attrs = done e (send (encode_ctrl disconnect_ack []) ∷ disconnected ∷ [])
on_ctrl e disconnect_ack attrs = done e (disconnected ∷ [])
on_ctrl e echo_request attrs = done e (send (encode_ctrl echo_reply []) ∷ [])
on_ctrl e _ attrs = done e []

-- The frames of a negotiation, each sent behind its trace.
unfoldable pub send_traced : (Cp.Code → ℕ → Trace) → Ppp.Protocol → Bytes → List EngineEvent
send_traced note proto d = elim (Cp.decode d) [
  | some frame ↦ trace (note frame.code frame.id) ∷ send (wrap_data proto d) ∷ []
  | none ↦ send (wrap_data proto d) ∷ []
]

unfoldable pub sends : (Cp.Code → ℕ → Trace) → Ppp.Protocol → List Bytes → List EngineEvent
unfolding send_traced
sends note proto [] = []
sends note proto (d ∷ ds) = send_traced note proto d ++ sends note proto ds

unfoldable pub lcp_arrival : Bytes → List EngineEvent
lcp_arrival payload = elim (Cp.decode payload) [
  | some frame ↦ trace (lcp_recv frame.code frame.id (length frame.payload)) ∷ []
  | none ↦ trace (lcp_recv_malformed (length payload)) ∷ []
]

-- LCP has come up in its phase: which authentication does the peer want?
unfoldable pub lcp_opened : Engine → Option Lcp.PeerAuthRequirement → List EngineEvent → Outcome
lcp_opened e (some req) events =
    if Lcp.is_mschapv2 req
    then done (record e { phase = chap_phase }) events
    else done e (fatal other_auth_method ∷ [])
lcp_opened e none events = done e (fatal no_auth_requested ∷ [])

unfoldable pub handle_lcp : Draws → Engine → Bytes → Outcome
unfolding lcp_opened lcp_arrival sends
handle_lcp draws e payload =
    let (lcp', result) = Lcp.receive draws.magic e.lcp payload in
    let e' = record e { lcp = lcp' } in
    let events = lcp_arrival payload ++ sends lcp_send Ppp.lcp result.to_send in
    if result.up && is_lcp e.phase then lcp_opened e' lcp'.peer_auth events else done e' events

unfoldable pub ipcp_arrival : Bytes → List EngineEvent
ipcp_arrival payload = elim (Cp.decode payload) [
  | some frame ↦ trace (ipcp_recv frame.code frame.id (length frame.payload)) ∷ []
  | none ↦ []
]

abbrev pub cert_hash : Engine → HashAlgo → Bytes
cert_hash e sha1 = e.cert_hash_sha1
cert_hash e sha256 = e.cert_hash_sha256

module _ (c : Crypto) where
  -- The CONNECTED message; the three `expect`s panic on `none`.
  unfoldable pub ipcp_opened :
      Engine → List EngineEvent → Option HashAlgo → Option Bytes → Option MppeKeys → Outcome
  ipcp_opened e events (some algo) (some nonce) (some keys) =
      let connected_pkt =
        build_connected_message c algo nonce (cert_hash e algo) keys.send_key keys.recv_key in
      done e (events ++ send connected_pkt ∷ established e.ipcp.negotiated keys ∷ [])
  ipcp_opened e events _ _ _ = panic

  unfoldable pub handle_ipcp : Engine → Bytes → Outcome
  unfolding ipcp_opened ipcp_arrival sends
  handle_ipcp e payload =
      let (ipcp', result) = Ipcp.receive e.ipcp payload in
      let e' = record e { ipcp = ipcp' } in
      let events = ipcp_arrival payload ++ sends ipcp_send Ppp.ipcp result.to_send in
      if result.up && is_ipcp e.phase
      then ipcp_opened (record e' { phase = established_phase }) events e.hash_algo e.server_nonce
          e.mppe_keys
      else done e' events

  -- A challenge whose value has been taken out.
  unfoldable pub answer_challenge :
      Draws → Engine → ChapFsm.Frame → EngineEvent → ChapFsm.ChallengeInfo → Outcome
  answer_challenge draws e frame arrival info =
      let e' = record e { auth_challenge = some info.value } in
      if not (length info.value == 16)
      then done e (fatal (challenge_length (length info.value)) ∷ [])
      else elim (build_response c draws.peer_challenge info e.username e.password) [
        | ok (wire, pending) ↦
            done (record e' { pending_chap = some pending })
              (arrival
                ∷ trace (chap_send_response frame.id e.username)
                ∷ send (wrap_data Ppp.chap wire)
                ∷ [])
        | err why ↦ done e' (arrival ∷ fatal (no_response_built why) ∷ [])
      ]

  -- A Success message, with the response and the challenge that it is checked against. The
  -- pending response is taken out of the engine in any case.
  unfoldable pub check_success :
      Engine → ChapFsm.Frame → EngineEvent → PendingResponse → Bytes → Outcome
  check_success e frame arrival pending auth_challenge =
      let e' = record e { pending_chap = none } in
      let keys = mppe_get_keys c e.password pending.nt_response false in
      let (ipcp', ipcp_req) = Ipcp.start e.ipcp in
      if not (verify_success c frame.payload e.password pending auth_challenge e.username)
      then done e' (fatal (not_verified (from_utf8_lossy frame.payload)) ∷ [])
      else done (record e' { mppe_keys = some keys; phase = ipcp_phase; ipcp = ipcp' })
          (arrival ∷ trace chap_success_verified ∷ send (wrap_data Ppp.ipcp ipcp_req) ∷ [])

  unfoldable pub on_success :
      Engine → ChapFsm.Frame → EngineEvent → Option PendingResponse → Option Bytes → Outcome
  unfolding check_success
  on_success e frame arrival (some pending) (some auth_challenge) =
      check_success e frame arrival pending auth_challenge
  on_success e frame arrival _ _ =
      done (record e { pending_chap = none }) (fatal no_pending_response ∷ [])

  unfoldable pub handle_chap_frame : Draws → Engine → ChapFsm.Code → ChapFsm.Frame → Outcome
  unfolding answer_challenge on_success
  handle_chap_frame draws e code frame =
      let arrival = trace (chap_recv frame.code frame.id (length frame.payload)) in
      elim code [
        | ChapFsm.challenge ↦ elim (parse_challenge frame) [
          | none ↦ done e (fatal malformed_chap_challenge ∷ [])
          | some info ↦ answer_challenge draws e frame arrival info
        ]
        | ChapFsm.success ↦ on_success e frame arrival e.pending_chap e.auth_challenge
        | ChapFsm.failure ↦
            done e (arrival ∷ fatal (chap_failed (from_utf8_lossy frame.payload)) ∷ [])
        | _ ↦ done e (arrival ∷ fatal (unexpected_chap_code frame.code) ∷ [])
      ]

  unfoldable pub handle_chap : Draws → Engine → Bytes → Outcome
  handle_chap draws e payload = elim (ChapFsm.decode payload) [
    | none ↦ done e (fatal malformed_chap_frame ∷ [])
    | some frame ↦ handle_chap_frame draws e frame.code frame
  ]

  -- The `match` on the protocol of a PPP frame.
  unfoldable pub on_protocol : Draws → Engine → Bytes → Ppp.Protocol → Bytes → Outcome
  on_protocol draws e frame Ppp.lcp payload = handle_lcp draws e payload
  on_protocol draws e frame Ppp.chap payload = handle_chap draws e payload
  on_protocol draws e frame Ppp.ipcp payload = handle_ipcp e payload
  on_protocol draws e frame Ppp.ip payload = done e (deliver_ip_packet payload ∷ [])
  on_protocol draws e frame _ payload =
      let (lcp', reject) = Lcp.build_protocol_reject e.lcp (Ppp.strip_address_control frame) in
      done (record e { lcp = lcp' }) (send (wrap_data Ppp.lcp reject) ∷ [])

  unfoldable pub on_ppp_frame : Draws → Engine → Bytes → Outcome
  on_ppp_frame draws e frame = elim (Ppp.decode frame) [
    | none ↦ done e []
    | some (proto, payload) ↦ on_protocol draws e frame proto payload
  ]

  unfoldable pub on_packet : Draws → Engine → Packet → Outcome
  on_packet draws e (ctrl msg_type attrs) = on_ctrl e msg_type attrs
  on_packet draws e (data_packet frame) = on_ppp_frame draws e frame
