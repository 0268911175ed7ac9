-- ===== src/Ipcp/Adoption.antt =====
-- How IPCP takes what the server suggests: ipcp.rs, the Nak, Reject and Ack arms of `receive`.
use mac_os_sstp_client.Prelude.{
  ℕ, ◌+◌, ◌≡◌, ◌<◌, refl, ap, ◌∙◌, arith, List, [], ◌∷◌, Option, some, true, false, ◌&&◌, length,
  ◌==◌, All, if◌then◌else◌, Bytes, as_u8,
}
use mac_os_sstp_client.Cp.{
  Code, configure_request, configure_ack, configure_nak, configure_reject, Frame, Opt, encode,
  decode, encode_options, decode_options,
}
use mac_os_sstp_client.Cp.Revisions.{suggested, revised, IsRevision, IsReply, request_read_back}
use mac_os_sstp_client.Cp.Options.{FitsOpt}
use mac_os_sstp_client.Cp.Desired.{set_value}
use mac_os_sstp_client.Ipcp.{
  opt_ip_address, opt_primary_dns, opt_secondary_dns, capture_option, capture_from,
  capture_accepted_values, Ipcp, Ipv4Addr, NegotiatedConfig, is_sent_id, is_up, apply_nak,
  apply_reject, resend, receive_frame, receive, send_config_request,
}

apply_nak_lem :
    (l : Ipcp) (rest : List Opt)
    → apply_nak l rest ≡ record l { desired = suggested rest l.desired }
unfolding apply_nak suggested
apply_nak_lem l [] = refl
apply_nak_lem l (s ∷ rest) =
    apply_nak_lem (record l { desired = set_value s.kind s.value l.desired }) rest

-- The state after the new request.
abbrev pub revised_state : Ipcp → List Opt → Ipcp
revised_state l desired = record l {
  identifier = as_u8 (l.identifier + 1);
  last_sent_id = some (as_u8 (l.identifier + 1));
  local_up = false;
  desired = desired;
}

abbrev pub revised_wire : Ipcp → List Opt → Bytes
revised_wire l desired =
    encode configure_request (as_u8 (l.identifier + 1)) (encode_options desired)

revision_step :
    (l : Ipcp) (code : Code) (f : Frame)
    → IsRevision code
    → is_sent_id l.last_sent_id f.id ≡ true
    → let desired = revised code (decode_options f.payload) l.desired in
      receive_frame l code f ≡ (revised_state l desired, revised_wire l desired ∷ [])
unfolding receive_frame resend send_config_request apply_reject
revision_step l configure_nak f h sent = rw (sent, apply_nak_lem l (decode_options f.payload)) refl
revision_step l configure_reject f h sent = rw sent refl
revision_step l _ f h sent = elim h [ ]

-- After a matching Nak or Reject, IPCP sends one frame, under the next identifier, and is not up;
-- what it asks for is what it asked for before, with the suggested values or without the rejected
-- kinds. When the options fit their length bytes and the frame its length field, the frame is
-- decoded to a Configure-Request of just these options.
pub ipcp_revision_resent :
    (l : Ipcp) (buf : Bytes) {f : Frame}
    → decode buf ≡ some f
    → IsRevision f.code
    → is_sent_id l.last_sent_id f.id ≡ true
    → let desired = revised f.code (decode_options f.payload) l.desired in
      All FitsOpt desired
      → 4 + length (encode_options desired) < 65536
      → (receive l buf
          ≡ (revised_state l desired, record { to_send = revised_wire l desired ∷ []; up = false }))
        × (decode (revised_wire l desired)
            ≡ some (record {
              code = configure_request;
              id = as_u8 (l.identifier + 1);
              payload = encode_options desired;
            }))
        × (decode_options (encode_options desired) ≡ desired)
unfolding receive
ipcp_revision_resent l buf {f} h hc sent fits size =
    let desired = revised f.code (decode_options f.payload) l.desired in
    let read_back = request_read_back (as_u8 (l.identifier + 1)) desired fits size in
    (rw (h, receive) (rw (revision_step l f.code f hc sent) refl), read_back.0, read_back.1)

stale_step :
    (l : Ipcp) (code : Code) (f : Frame)
    → IsReply code
    → is_sent_id l.last_sent_id f.id ≡ false
    → receive_frame l code f ≡ (l, [])
unfolding receive_frame
stale_step l configure_ack f h stale = rw stale refl
stale_step l configure_nak f h stale = rw stale refl
stale_step l configure_reject f h stale = rw stale refl
stale_step l _ f h stale = elim h [ ]

-- The addresses that an acknowledged request establishes.
abbrev pub address_of : ℕ → List Opt → Option Ipv4Addr → Option Ipv4Addr
address_of kind [] before = before
address_of kind (o ∷ os) before =
    address_of kind os (if o.kind == kind && length o.value == 4 then some o.value else before)

abbrev pub established : List Opt → NegotiatedConfig → NegotiatedConfig
established desired n = record n {
  local_ip = address_of opt_ip_address desired n.local_ip;
  dns1 = address_of opt_primary_dns desired n.dns1;
  dns2 = address_of opt_secondary_dns desired n.dns2;
}

capture_round :
    (n : NegotiatedConfig) (k : ℕ) (v : Bytes)
    → let o : Opt = record { kind = k; value = v } in capture_option n o ≡ established (o ∷ []) n
unfolding capture_option
capture_round n k [] = ground arith
capture_round n k (a ∷ []) = ground arith
capture_round n k (a ∷ b ∷ []) = ground arith
capture_round n k (a ∷ b ∷ c ∷ []) = ground arith
capture_round n k (a ∷ b ∷ c ∷ d ∷ []) = ground arith
capture_round n k (a ∷ b ∷ c ∷ d ∷ x ∷ v) = ground arith

capture_from_lem : (n : NegotiatedConfig) (os : List Opt) → capture_from n os ≡ established os n
unfolding capture_from
capture_from_lem n [] = refl
capture_from_lem n (o ∷ os) =
    rw (capture_round n o.kind o.value) (capture_from_lem (established (o ∷ []) n) os)

ack_step :
    (l : Ipcp) (f : Frame)
    → is_sent_id l.last_sent_id f.id ≡ true
    → receive_frame l configure_ack f
      ≡ (record l { negotiated = established l.desired l.negotiated; local_up = true }, [])
unfolding receive_frame capture_accepted_values
ack_step l f sent = rw (sent, capture_from_lem l.negotiated l.desired) refl

-- A matching Configure-Ack brings our side up, and makes the addresses last asked for the
-- negotiated ones: for the local address and the two name servers, the value of the last option of
-- that kind with four octets, or else what was negotiated before.
pub ack_adopts :
    (l : Ipcp) (buf : Bytes) {f : Frame}
    → decode buf ≡ some f
    → f.code ≡ configure_ack
    → is_sent_id l.last_sent_id f.id ≡ true
    → let l' : Ipcp = record l {
      negotiated = established l.desired l.negotiated;
      local_up = true;
    } in
      receive l buf ≡ (l', record { to_send = []; up = l.remote_up })
unfolding receive
ack_adopts l buf {f} h hc sent =
    let arm = ap (λ k. receive_frame l k f) hc ∙ ack_step l f sent in rw (h, receive) (rw arm refl)

-- A Configure-Ack, Nak or Reject whose identifier is not that of the latest request sent changes
-- nothing and is not answered.
pub ipcp_stale_ignored :
    (l : Ipcp) (buf : Bytes) {f : Frame}
    → decode buf ≡ some f
    → IsReply f.code
    → is_sent_id l.last_sent_id f.id ≡ false
    → receive l buf ≡ (l, record { to_send = []; up = is_up l })
unfolding receive
ipcp_stale_ignored l buf {f} h hc stale = rw (h, receive) (rw (stale_step l f.code f hc stale) refl)
