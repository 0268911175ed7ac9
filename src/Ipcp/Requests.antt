-- ===== src/Ipcp/Requests.antt =====
-- How IPCP answers the peer's Configure-Request: ipcp.rs, `evaluate_peer_options` and the first arm
-- of `receive`, against a description option by option.
use mac_os_sstp_client.Prelude.{
  ℕ, ◌≡◌, refl, sym, ap, ◌∙◌, arith, List, [], ◌∷◌, ◌++◌, append-nil, append_assoc, Option, some,
  Bool, ◌&&◌, not, length, ◌==◌, any, retain, if◌then◌else◌, Bytes,
}
use mac_os_sstp_client.Cp.{
  configure_request, configure_ack, configure_reject, Frame, Opt, encode, decode, encode_options,
  decode_options,
}
use mac_os_sstp_client.Ipcp.{
  Ipcp, Ipv4Addr, Evaluation, opt_ip_address, push_reject, evaluate_option, evaluate_from,
  evaluate_peer_options, answer_request, receive_frame, receive, is_up,
}
use mac_os_sstp_client.Lcp.Requests.{is_empty-retain}

-- Anything but an IP address of four octets.
abbrev pub is_refused : Opt → Bool
is_refused o = not (o.kind == opt_ip_address && length o.value == 4)

-- The address in the last such option.
abbrev pub address_after : List Opt → Option Ipv4Addr → Option Ipv4Addr
address_after [] before = before
address_after (o ∷ os) before = address_after os (if is_refused o then before else some o.value)

abbrev with_peer : Ipcp → Option Ipv4Addr → Ipcp
with_peer l a = record l { negotiated = record (l.negotiated) { peer_ip = a } }

-- What one round of the loop leaves.
abbrev expected : Evaluation → Opt → Evaluation
expected s o = record {
  ipcp = with_peer s.ipcp (if is_refused o then s.ipcp.negotiated.peer_ip else some o.value);
  nak = s.nak;
  reject = s.reject ++ (if is_refused o then o ∷ [] else []);
}

round :
    (s : Evaluation) (k : ℕ) (v : Bytes)
    → let o : Opt = record { kind = k; value = v } in evaluate_option s o ≡ expected s o
unfolding evaluate_option push_reject
round s k [] = ground (arith, append-nil s.reject)
round s k (a ∷ []) = ground (arith, append-nil s.reject)
round s k (a ∷ b ∷ []) = ground (arith, append-nil s.reject)
round s k (a ∷ b ∷ c ∷ []) = ground (arith, append-nil s.reject)
round s k (a ∷ b ∷ c ∷ d ∷ []) = ground (arith, append-nil s.reject)
round s k (a ∷ b ∷ c ∷ d ∷ x ∷ v) = ground (arith, append-nil s.reject)

refused-cons :
    (o : Opt) (os : List Opt)
    → (if is_refused o then o ∷ [] else []) ++ retain is_refused os ≡ retain is_refused (o ∷ os)
refused-cons o os = ground arith

evaluate_from_lem :
    (s : Evaluation) (opts : List Opt)
    → evaluate_from s opts ≡ record {
      ipcp = with_peer s.ipcp (address_after opts s.ipcp.negotiated.peer_ip);
      nak = s.nak;
      reject = s.reject ++ retain is_refused opts;
    }
unfolding evaluate_from
evaluate_from_lem s [] = ap (λ r. record s { reject = r }) (sym (append-nil s.reject))
evaluate_from_lem s (o ∷ os) = rw (round s o.kind o.value) (
    evaluate_from_lem (expected s o) os
    ∙ ap
        (λ r. record {
          ipcp = with_peer s.ipcp (address_after (o ∷ os) s.ipcp.negotiated.peer_ip);
          nak = s.nak;
          reject = r;
        })
        (append_assoc s.reject (if is_refused o then o ∷ [] else []) _
          ∙ ap (λ xs. s.reject ++ xs) (refused-cons o os)))

-- The answer: reject all refused options if there are any, else acknowledge the options as they
-- came.
abbrev pub answer_spec : Frame → List Bytes
answer_spec f =
    let opts = decode_options f.payload in
    if any is_refused opts
    then encode configure_reject f.id (encode_options (retain is_refused opts)) ∷ []
    else encode configure_ack f.id f.payload ∷ []

abbrev pub state_spec : Ipcp → Frame → Ipcp
state_spec l f =
    let opts = decode_options f.payload in
    record l {
      remote_up = not (any is_refused opts);
      negotiated = record (l.negotiated) { peer_ip = address_after opts l.negotiated.peer_ip };
    }

answer_request_lem :
    (l : Ipcp) (f : Frame) → receive_frame l configure_request f ≡ (state_spec l f, answer_spec f)
unfolding receive_frame answer_request evaluate_peer_options
answer_request_lem l f =
    rw
      (
        evaluate_from_lem (record { ipcp = l; nak = []; reject = [] }) (decode_options f.payload),
        is_empty-retain is_refused (decode_options f.payload),
      )
      (ground arith)

-- On a Configure-Request, IPCP rejects exactly the options that are not an IP address of four
-- octets, if there are any, and otherwise acknowledges the request with the very options it came
-- with; it never answers with a Nak. It has the peer's side up just in the second case, and takes
-- the address of the last well-formed IP address option as the peer's in both.
pub ipcp_answers :
    (l : Ipcp) (buf : Bytes) {f : Frame}
    → decode buf ≡ some f
    → f.code ≡ configure_request
    → receive l buf
      ≡ (state_spec l f, record { to_send = answer_spec f; up = is_up (state_spec l f) })
unfolding receive
ipcp_answers l buf {f} h hc =
    let arm : receive_frame l f.code f ≡ (state_spec l f, answer_spec f) =
      ap (λ k. receive_frame l k f) hc ∙ answer_request_lem l f in
    rw (h, receive) (rw arm refl)
