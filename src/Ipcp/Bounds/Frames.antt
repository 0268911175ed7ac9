-- ===== src/Ipcp/Bounds/Frames.antt =====
-- What holds of the state of IPCP through any frames: ipcp.rs, `receive`.
use mac_os_sstp_client.Prelude.{
  refl, arith, List, [], ◌∷◌, Option, none, some, true, false, not, if-both, is_empty, Bytes,
  AreBytes, All,
}
use mac_os_sstp_client.Cp.{
  Code, configure_request, configure_ack, configure_nak, configure_reject, terminate_request,
  terminate_ack, code_reject, protocol_reject, echo_request, echo_reply, discard_request, unknown,
  Frame, decode, decode_options,
}
use mac_os_sstp_client.Cp.Options.{decode_options-Fits}
use mac_os_sstp_client.Cp.Bounds.{PayloadOk, decode-PayloadOk}
use mac_os_sstp_client.Ipcp.{
  Ipcp, IpcpResult, is_up, new, start, Evaluation, evaluate_from, evaluate_peer_options,
  capture_accepted_values, is_sent_id, answer_request, receive_frame, receive,
}
use mac_os_sstp_client.Ipcp.Bounds.{
  IpcpOk, AnswerOk, with_flags, with_negotiated, resend-IpcpOk, apply_nak-IpcpOk,
  apply_reject-IpcpOk, send_config_request-IpcpOk,
}
use mac_os_sstp_client.Ipcp.Bounds.Addresses.{evaluate_from-IpcpOk, capture_from-AddressesOk}

answer_request-IpcpOk :
    (frame : Frame) (s : Evaluation) → IpcpOk s.ipcp → IpcpOk (answer_request frame s).0
unfolding answer_request
answer_request-IpcpOk frame s v =
    if-both AnswerOk (not (is_empty s.reject)) _ _ (λ y. with_flags s.ipcp s.ipcp.local_up false v)
      (λ n.
        if-both AnswerOk (not (is_empty s.nak)) _ _ (λ y. with_flags s.ipcp s.ipcp.local_up false v)
          (λ n. with_flags s.ipcp s.ipcp.local_up true v))

receive_frame-IpcpOk :
    (l : Ipcp) (code : Code) (frame : Frame)
    → AreBytes frame.payload
    → IpcpOk l
    → IpcpOk (receive_frame l code frame).0
unfolding receive_frame evaluate_peer_options capture_accepted_values
receive_frame-IpcpOk l configure_request frame b v =
    let opts = decode_options frame.payload in
    let begun : Evaluation = record { ipcp = l; nak = []; reject = [] } in
    answer_request-IpcpOk frame (evaluate_from begun opts) (evaluate_from-IpcpOk begun opts v)
receive_frame-IpcpOk l configure_ack frame b v =
    if-both IpcpOk (is_sent_id l.last_sent_id frame.id) _ _
      (λ y.
        with_flags _ true l.remote_up
          (with_negotiated l _ (capture_from-AddressesOk l.negotiated l.desired v.addresses_ok) v))
      (λ n. v)
receive_frame-IpcpOk l configure_nak frame b v =
    if-both AnswerOk (is_sent_id l.last_sent_id frame.id) _ _
      (λ y.
        resend-IpcpOk _ (
          apply_nak-IpcpOk l (decode_options frame.payload) (decode_options-Fits frame.payload b)
            v))
      (λ n. v)
receive_frame-IpcpOk l configure_reject frame b v =
    if-both AnswerOk (is_sent_id l.last_sent_id frame.id) _ _
      (λ y. resend-IpcpOk _ (apply_reject-IpcpOk l (decode_options frame.payload) v)) (λ n. v)
receive_frame-IpcpOk l terminate_request frame b v = with_flags l false false v
receive_frame-IpcpOk l echo_request frame b v = v
receive_frame-IpcpOk l terminate_ack frame b v = v
receive_frame-IpcpOk l code_reject frame b v = v
receive_frame-IpcpOk l protocol_reject frame b v = v
receive_frame-IpcpOk l echo_reply frame b v = v
receive_frame-IpcpOk l discard_request frame b v = v
receive_frame-IpcpOk l (unknown n) frame b v = v

receive-IpcpOk : (l : Ipcp) (bytes : Bytes) → AreBytes bytes → IpcpOk l → IpcpOk (receive l bytes).0
unfolding receive
receive-IpcpOk l bytes b v = go (decode bytes) (decode-PayloadOk bytes b)
  where
    go :
        (o : Option Frame)
        → PayloadOk o
        → IpcpOk
            (elim o as (λ x. Ipcp × IpcpResult) [
              | none ↦ (l, record { to_send = []; up = is_up l })
              | some frame ↦
                  let (l', sent) = receive_frame l frame.code frame in
                  (l', record { to_send = sent; up = is_up l' })
            ]).0
    go none p = v
    go (some frame) p = receive_frame-IpcpOk l frame.code frame p v

-- The state behind the frames that were received.
pub received : Ipcp → List Bytes → Ipcp
received l [] = l
received l (bytes ∷ more) = received (receive l bytes).0 more

received-IpcpOk :
    (l : Ipcp) (frames : List Bytes) → All AreBytes frames → IpcpOk l → IpcpOk (received l frames)
unfolding received
received-IpcpOk l [] h v = v
received-IpcpOk l (bytes ∷ more) (b, h) v =
    received-IpcpOk (receive l bytes).0 more h (receive-IpcpOk l bytes b v)

-- Whatever frames arrive behind the first request, well formed or not: the identifiers stay octets;
-- IPCP only ever asks for an address and two name servers, each short enough for the length octet
-- of its option; and each address that it has taken, of either side or of a name server, has
-- exactly four octets.
pub addresses_in_bounds :
    (frames : List Bytes) → All AreBytes frames → IpcpOk (received (start new).0 frames)
unfolding new
addresses_in_bounds frames h = received-IpcpOk _ frames h (
    send_config_request-IpcpOk new (record {
      id_ok = omega arith;
      sent_ok = tt;
      offers_ok = ((omega arith, refl), ((omega arith, refl), ((omega arith, refl), tt)));
      addresses_ok = record { local_ok = tt; peer_ok = tt; dns1_ok = tt; dns2_ok = tt };
    }))
