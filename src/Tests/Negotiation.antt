-- ===== src/Tests/Negotiation.antt =====
-- LCP and IPCP on single frames.
use mac_os_sstp_client.Prelude.{
  ℕ, ◌+◌, ◌≡◌, refl, arith, List, [], ◌∷◌, some, true, false, Bytes, as_u8,
}
use mac_os_sstp_client.Tests.{all_in_octets-AreBytes}
use mac_os_sstp_client.Cp.{
  Code, configure_request, configure_ack, configure_nak, Frame, encode, decode, encode_options,
  decode_options, code_from_u8, code_to_u8,
}
use mac_os_sstp_client.Lcp.{Lcp}
use mac_os_sstp_client.Lcp as Lcp
use mac_os_sstp_client.Lcp.Bounds.{LcpOk}
use mac_os_sstp_client.Lcp.Bounds.Frames.{received, received_in_bounds}
use mac_os_sstp_client.Lcp.Requests as LcpRequests
use mac_os_sstp_client.Lcp.Requests.{lcp_answers}
use mac_os_sstp_client.Lcp.Replies as LcpReplies
use mac_os_sstp_client.Cp.Revisions.{suggested}
use mac_os_sstp_client.Lcp.Replies.{lcp_revision_resent, lcp_stale_ignored}
use mac_os_sstp_client.Ipcp.{Ipcp}
use mac_os_sstp_client.Ipcp as Ipcp
use mac_os_sstp_client.Ipcp.Bounds as Bounds
use mac_os_sstp_client.Ipcp.Bounds.Frames as Received
use mac_os_sstp_client.Ipcp.Requests as IpcpRequests
use mac_os_sstp_client.Ipcp.Requests.{ipcp_answers}
use mac_os_sstp_client.Ipcp.Adoption as Adoption
use mac_os_sstp_client.Ipcp.Adoption.{ipcp_revision_resent, ack_adopts, ipcp_stale_ignored}

abbrev fresh : ℕ → ℕ
fresh n = 77 + n

abbrev framed : Code → ℕ → Bytes → Frame
framed code id payload = record { code = code; id = id; payload = payload }

framed_lem :
    decode (encode configure_request 4 (3 ∷ 5 ∷ 0xC0 ∷ 0x23 ∷ 0 ∷ []))
    ≡ some (framed configure_request 4 (3 ∷ 5 ∷ 0xC0 ∷ 0x23 ∷ 0 ∷ []))
unfolding decode encode code_from_u8 code_to_u8
framed_lem = refl

-- LCP after its first request.
abbrev lcp₁ : Lcp
lcp₁ = (Lcp.start (Lcp.new 0x01020304)).0

-- PAP is asked for: our side suggests MS-CHAPv2.
pap_corrected :
    (Lcp.receive fresh lcp₁ (encode configure_request 4 (3 ∷ 4 ∷ 0xC0 ∷ 0x23 ∷ []))).1.to_send
    ≡ encode configure_nak 4 (3 ∷ 5 ∷ 0xC2 ∷ 0x23 ∷ 0x81 ∷ []) ∷ []
unfolding decode encode code_from_u8 code_to_u8 decode_options encode_options Lcp.receive
    Lcp.receive_frame Lcp.evaluate_peer_options Lcp.evaluate_from Lcp.evaluate_option
    Lcp.evaluate_auth Lcp.push_nak Lcp.send_config_request Lcp.new
pap_corrected = refl

lcp_answers_example :
    let f = framed configure_request 4 (3 ∷ 5 ∷ 0xC0 ∷ 0x23 ∷ 0 ∷ []) in
    let r = Lcp.receive fresh lcp₁ (encode configure_request 4 (3 ∷ 5 ∷ 0xC0 ∷ 0x23 ∷ 0 ∷ [])) in
    (r.0 ≡ LcpRequests.state_spec lcp₁ f)
    × (r.1.to_send ≡ LcpRequests.answer_spec fresh lcp₁.magic f)
    × (r.1.up ≡ Lcp.is_up (LcpRequests.state_spec lcp₁ f))
lcp_answers_example =
    lcp_answers fresh lcp₁ (encode configure_request 4 (3 ∷ 5 ∷ 0xC0 ∷ 0x23 ∷ 0 ∷ [])) framed_lem
      refl

abbrev nak_payload : Bytes
nak_payload = 5 ∷ 6 ∷ 9 ∷ 9 ∷ 9 ∷ 9 ∷ []

nak_lem : decode (encode configure_nak 1 nak_payload) ≡ some (framed configure_nak 1 nak_payload)
unfolding decode encode code_from_u8 code_to_u8
nak_lem = refl

lcp_sent : Lcp.is_sent_id lcp₁.last_sent_id 1 ≡ true
unfolding Lcp.new Lcp.send_config_request
lcp_sent = refl

lcp_revision_resent_example :
    let desired = suggested (decode_options nak_payload) lcp₁.desired in
    (Lcp.receive fresh lcp₁ (encode configure_nak 1 nak_payload) ≡ (
      LcpReplies.revised_state lcp₁ configure_nak (decode_options nak_payload),
      record { to_send = LcpReplies.revised_wire lcp₁ desired ∷ []; up = false },
    ))
    × (decode (LcpReplies.revised_wire lcp₁ desired)
        ≡ some (framed configure_request (as_u8 (lcp₁.identifier + 1)) (encode_options desired)))
    × (decode_options (encode_options desired) ≡ desired)
unfolding suggested decode_options encode_options Lcp.new Lcp.send_config_request
lcp_revision_resent_example =
    lcp_revision_resent fresh lcp₁ (encode configure_nak 1 nak_payload) nak_lem tt lcp_sent
      (omega arith, (omega arith, (omega arith, tt))) (omega arith)

lcp_stale_ignored_run :
    Lcp.receive fresh (Lcp.new 5) (encode configure_nak 1 nak_payload)
    ≡ (Lcp.new 5, record { to_send = []; up = Lcp.is_up (Lcp.new 5) })
unfolding Lcp.new
lcp_stale_ignored_run =
    lcp_stale_ignored fresh (Lcp.new 5) (encode configure_nak 1 nak_payload) nak_lem tt refl

-- IPCP after its first request.
abbrev ipcp₁ : Ipcp
ipcp₁ = (Ipcp.start Ipcp.new).0

abbrev request_payload : Bytes
request_payload = 3 ∷ 6 ∷ 10 ∷ 0 ∷ 0 ∷ 1 ∷ 2 ∷ 4 ∷ 0 ∷ 0x2D ∷ []

request_lem :
    decode (encode configure_request 4 request_payload)
    ≡ some (framed configure_request 4 request_payload)
unfolding decode encode code_from_u8 code_to_u8
request_lem = refl

ipcp_answers_example :
    let f = framed configure_request 4 request_payload in
    Ipcp.receive ipcp₁ (encode configure_request 4 request_payload) ≡ (
      IpcpRequests.state_spec ipcp₁ f,
      record {
        to_send = IpcpRequests.answer_spec f;
        up = Ipcp.is_up (IpcpRequests.state_spec ipcp₁ f);
      },
    )
ipcp_answers_example =
    ipcp_answers ipcp₁ (encode configure_request 4 request_payload) request_lem refl

abbrev address_payload : Bytes
address_payload = 3 ∷ 6 ∷ 10 ∷ 0 ∷ 0 ∷ 5 ∷ []

address_lem :
    decode (encode configure_nak 1 address_payload) ≡ some (framed configure_nak 1 address_payload)
unfolding decode encode code_from_u8 code_to_u8
address_lem = refl

ipcp_sent : Ipcp.is_sent_id ipcp₁.last_sent_id 1 ≡ true
unfolding Ipcp.new Ipcp.send_config_request
ipcp_sent = refl

ipcp_revision_resent_run :
    let desired = suggested (decode_options address_payload) ipcp₁.desired in
    (Ipcp.receive ipcp₁ (encode configure_nak 1 address_payload) ≡ (
      Adoption.revised_state ipcp₁ desired,
      record { to_send = Adoption.revised_wire ipcp₁ desired ∷ []; up = false },
    ))
    × (decode (Adoption.revised_wire ipcp₁ desired)
        ≡ some (framed configure_request (as_u8 (ipcp₁.identifier + 1)) (encode_options desired)))
    × (decode_options (encode_options desired) ≡ desired)
unfolding suggested decode_options encode_options Ipcp.new Ipcp.send_config_request
ipcp_revision_resent_run =
    ipcp_revision_resent ipcp₁ (encode configure_nak 1 address_payload) address_lem tt ipcp_sent
      (omega arith, (omega arith, (omega arith, tt))) (omega arith)

ack_lem : decode (encode configure_ack 1 []) ≡ some (framed configure_ack 1 [])
unfolding decode encode code_from_u8 code_to_u8
ack_lem = refl

ack_adopts_run :
    let l' : Ipcp = record ipcp₁ {
      negotiated = Adoption.established ipcp₁.desired ipcp₁.negotiated;
      local_up = true;
    } in
    Ipcp.receive ipcp₁ (encode configure_ack 1 [])
    ≡ (l', record { to_send = []; up = ipcp₁.remote_up })
ack_adopts_run = ack_adopts ipcp₁ (encode configure_ack 1 []) ack_lem refl ipcp_sent

ipcp_stale_ignored_run :
    Ipcp.receive Ipcp.new (encode configure_ack 1 [])
    ≡ (Ipcp.new, record { to_send = []; up = Ipcp.is_up Ipcp.new })
unfolding Ipcp.new
ipcp_stale_ignored_run = ipcp_stale_ignored Ipcp.new (encode configure_ack 1 []) ack_lem tt refl

-- A Reject of the compressions, a Nak of the magic number, and a request for MS-CHAPv2.
abbrev lcp_frames : List Bytes
lcp_frames =
    (4 ∷ 1 ∷ 0 ∷ 8 ∷ 7 ∷ 2 ∷ 8 ∷ 2 ∷ [])
    ∷ (3 ∷ 2 ∷ 0 ∷ 10 ∷ 5 ∷ 6 ∷ 1 ∷ 2 ∷ 3 ∷ 4 ∷ [])
    ∷ (1 ∷ 1 ∷ 0 ∷ 9 ∷ 3 ∷ 5 ∷ 0xC2 ∷ 0x23 ∷ 0x81 ∷ [])
    ∷ []

received_in_bounds_example : LcpOk (received (λ k n. n) (Lcp.start (Lcp.new 77)).0 lcp_frames)
received_in_bounds_example =
    received_in_bounds (λ k n. n) 77 lcp_frames (all_in_octets-AreBytes lcp_frames refl)

-- A Nak with an address, an Ack of the next request, and the address of the other side.
abbrev ipcp_frames : List Bytes
ipcp_frames =
    (3 ∷ 1 ∷ 0 ∷ 10 ∷ 3 ∷ 6 ∷ 10 ∷ 0 ∷ 0 ∷ 2 ∷ [])
    ∷ (2 ∷ 2 ∷ 0 ∷ 4 ∷ [])
    ∷ (1 ∷ 1 ∷ 0 ∷ 10 ∷ 3 ∷ 6 ∷ 10 ∷ 0 ∷ 0 ∷ 1 ∷ [])
    ∷ []

addresses_in_bounds_example : Bounds.IpcpOk (Received.received (Ipcp.start Ipcp.new).0 ipcp_frames)
addresses_in_bounds_example =
    Received.addresses_in_bounds ipcp_frames (all_in_octets-AreBytes ipcp_frames refl)
