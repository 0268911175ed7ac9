-- ===== src/Lcp/Bounds.antt =====
-- What holds of the state of LCP through any frames: lcp.rs, `start` and `receive`.
pub mod Frames
use mac_os_sstp_client.Prelude.{
  ℕ, ◌<◌, ◌≡◌, refl, arith, List, [], ◌∷◌, Option, none, some, Bool, true, false, not, ◌&&◌, ◌||◌,
  ◌==◌, if-both, is_empty, Bytes, AreBytes, All, of_be16,
}
use mac_os_sstp_client.Ppp.{protocol_to_u16, chap}
use mac_os_sstp_client.Cp.{
  Code, configure_request, configure_ack, configure_nak, configure_reject, terminate_request,
  terminate_ack, code_reject, protocol_reject, echo_request, echo_reply, discard_request, unknown,
  Frame, Opt, decode_options,
}
use mac_os_sstp_client.Cp.Options.{FitsOpt, decode_options-Fits}
use mac_os_sstp_client.Cp.Desired.{set_value, names_kind, retain-All}
use mac_os_sstp_client.Lcp.Replies.{magic_in, adopt_magic_lem}
use mac_os_sstp_client.Cp.Bounds.{IsOffer, IsSent, set_value-offers}
use mac_os_sstp_client.Lcp.{
  Lcp, PeerAuthRequirement, is_mschapv2, opt_magic_number, opt_auth_protocol, opt_pfc, opt_acfc,
  send_config_request, Evaluation, evaluate_magic, evaluate_auth, evaluate_option, evaluate_from,
  evaluate_peer_options, push_reject, push_nak, names_mschapv2, adopt_magic, apply_nak,
  apply_reject, is_sent_id, answer_request, resend, receive_frame,
}

-- The kinds of the options that LCP asks for.
abbrev pub offered : ℕ → Bool
offered kind = kind == opt_magic_number || (kind == opt_pfc || kind == opt_acfc)

abbrev pub IsNeeded : Option PeerAuthRequirement → Type 0
IsNeeded none = Unit {0}
IsNeeded (some r) = is_mschapv2 r ≡ true

pub record LcpOk (l : Lcp) : Type 0 where
  pub id_ok : l.identifier < 256
  pub sent_ok : IsSent l.last_sent_id
  pub offers_ok : All (IsOffer offered) l.desired
  pub auth_ok : IsNeeded l.peer_auth

abbrev EvaluationOk : Evaluation → Type 0
EvaluationOk s = LcpOk s.lcp

abbrev AnswerOk : Lcp × List Bytes → Type 0
AnswerOk r = LcpOk r.0

pub send_config_request-LcpOk : (l : Lcp) → LcpOk l → LcpOk (send_config_request l).0
unfolding send_config_request
send_config_request-LcpOk l v = record {
  id_ok = omega arith;
  sent_ok = omega arith;
  offers_ok = v.offers_ok;
  auth_ok = v.auth_ok;
}

with_flags : (l : Lcp) (a b : Bool) → LcpOk l → LcpOk (record l { local_up = a; remote_up = b })
with_flags l a b v = record {
  id_ok = v.id_ok;
  sent_ok = v.sent_ok;
  offers_ok = v.offers_ok;
  auth_ok = v.auth_ok;
}

with_magic : (l : Lcp) (m : ℕ) → LcpOk l → LcpOk (record l { magic = m })
with_magic l m v = record {
  id_ok = v.id_ok;
  sent_ok = v.sent_ok;
  offers_ok = v.offers_ok;
  auth_ok = v.auth_ok;
}

with_desired :
    (l : Lcp) (os : List Opt)
    → All (IsOffer offered) os
    → LcpOk l
    → LcpOk (record l { desired = os })
with_desired l os h v = record {
  id_ok = v.id_ok;
  sent_ok = v.sent_ok;
  offers_ok = h;
  auth_ok = v.auth_ok;
}

resend-LcpOk : (l : Lcp) → LcpOk l → LcpOk (resend l).0
unfolding resend
resend-LcpOk l v = send_config_request-LcpOk _ (with_flags l false l.remote_up v)

adopt_magic-LcpOk : (k : ℕ) (value : Bytes) (l : Lcp) → LcpOk l → LcpOk (adopt_magic k value l)
adopt_magic-LcpOk k value l v =
    rw (adopt_magic_lem k value l) (with_magic l (magic_in k value l.magic) v)

apply_nak-LcpOk :
    (l : Lcp) (opts : List Opt) → All FitsOpt opts → LcpOk l → LcpOk (apply_nak l opts)
unfolding apply_nak
apply_nak-LcpOk l [] h v = v
apply_nak-LcpOk l (s ∷ opts) (f, h) v =
    apply_nak-LcpOk
      (adopt_magic s.kind s.value (record l { desired = set_value s.kind s.value l.desired })) opts
      h
      (adopt_magic-LcpOk s.kind s.value _
        (with_desired l _ (set_value-offers offered s.kind s.value l.desired f v.offers_ok) v))

apply_reject-LcpOk : (l : Lcp) (opts : List Opt) → LcpOk l → LcpOk (apply_reject l opts)
unfolding apply_reject
apply_reject-LcpOk l opts v =
    with_desired l _
      (retain-All (IsOffer offered) (λ o. not (names_kind opts o)) l.desired v.offers_ok) v

-- The options of the peer change nothing but the authentication that is asked for.
evaluate_auth-LcpOk :
    (s : Evaluation) (opt : Opt) (value : Bytes)
    → LcpOk s.lcp
    → LcpOk (evaluate_auth s opt value).lcp
unfolding evaluate_auth push_reject push_nak is_mschapv2
evaluate_auth-LcpOk s opt [] v = v
evaluate_auth-LcpOk s opt (p₁ ∷ []) v = v
evaluate_auth-LcpOk s opt (p₁ ∷ p₂ ∷ more) v =
    if-both EvaluationOk (of_be16 p₁ p₂ == protocol_to_u16 chap && names_mschapv2 more) _ _
      (λ y. record {
        id_ok = v.id_ok;
        sent_ok = v.sent_ok;
        offers_ok = v.offers_ok;
        auth_ok = ground (arith, y);
      })
      (λ n. v)

evaluate_magic-same :
    (fresh : ℕ → ℕ) (s : Evaluation) (opt : Opt) (value : Bytes)
    → (evaluate_magic fresh s opt value).lcp ≡ s.lcp
unfolding evaluate_magic push_reject push_nak
evaluate_magic-same fresh s opt [] = refl
evaluate_magic-same fresh s opt (a ∷ []) = refl
evaluate_magic-same fresh s opt (a ∷ b ∷ []) = refl
evaluate_magic-same fresh s opt (a ∷ b ∷ c ∷ []) = refl
evaluate_magic-same fresh s opt (a ∷ b ∷ c ∷ d ∷ []) = ground arith
evaluate_magic-same fresh s opt (a ∷ b ∷ c ∷ d ∷ e ∷ more) = refl

evaluate_option-LcpOk :
    (fresh : ℕ → ℕ) (s : Evaluation) (opt : Opt)
    → LcpOk s.lcp
    → LcpOk (evaluate_option fresh s opt).lcp
unfolding evaluate_option push_reject
evaluate_option-LcpOk fresh s opt v =
    if-both EvaluationOk (opt.kind == opt_magic_number) _ _
      (λ y. rw (evaluate_magic-same fresh s opt opt.value) v)
      (λ n.
        if-both EvaluationOk (opt.kind == opt_auth_protocol) _ _
          (λ y. evaluate_auth-LcpOk s opt opt.value v)
          (λ n. if-both EvaluationOk _ _ _ (λ y. v) (λ n. v)))

evaluate_from-LcpOk :
    (fresh : ℕ → ℕ) (s : Evaluation) (opts : List Opt)
    → LcpOk s.lcp
    → LcpOk (evaluate_from fresh s opts).lcp
unfolding evaluate_from
evaluate_from-LcpOk fresh s [] v = v
evaluate_from-LcpOk fresh s (opt ∷ opts) v =
    evaluate_from-LcpOk fresh (evaluate_option fresh s opt) opts
      (evaluate_option-LcpOk fresh s opt v)

answer_request-LcpOk :
    (frame : Frame) (s : Evaluation) → LcpOk s.lcp → LcpOk (answer_request frame s).0
unfolding answer_request
answer_request-LcpOk frame s v =
    if-both AnswerOk (not (is_empty s.reject)) _ _ (λ y. with_flags s.lcp s.lcp.local_up false v)
      (λ n.
        if-both AnswerOk (not (is_empty s.nak)) _ _ (λ y. with_flags s.lcp s.lcp.local_up false v)
          (λ n. with_flags s.lcp s.lcp.local_up true v))

pub receive_frame-LcpOk :
    (fresh : ℕ → ℕ) (l : Lcp) (code : Code) (frame : Frame)
    → AreBytes frame.payload
    → LcpOk l
    → LcpOk (receive_frame fresh l code frame).0
unfolding receive_frame evaluate_peer_options
receive_frame-LcpOk fresh l configure_request frame b v =
    let opts = decode_options frame.payload in
    let begun : Evaluation = record { lcp = l; nak = []; reject = []; drawn = 0 } in
    answer_request-LcpOk frame (evaluate_from fresh begun opts)
      (evaluate_from-LcpOk fresh begun opts v)
receive_frame-LcpOk fresh l configure_ack frame b v =
    if-both LcpOk (is_sent_id l.last_sent_id frame.id) _ _ (λ y. with_flags l true l.remote_up v)
      (λ n. v)
receive_frame-LcpOk fresh l configure_nak frame b v =
    if-both AnswerOk (is_sent_id l.last_sent_id frame.id) _ _
      (λ y.
        resend-LcpOk _ (
          apply_nak-LcpOk l (decode_options frame.payload) (decode_options-Fits frame.payload b) v))
      (λ n. v)
receive_frame-LcpOk fresh l configure_reject frame b v =
    if-both AnswerOk (is_sent_id l.last_sent_id frame.id) _ _
      (λ y. resend-LcpOk _ (apply_reject-LcpOk l (decode_options frame.payload) v)) (λ n. v)
receive_frame-LcpOk fresh l echo_request frame b v = v
receive_frame-LcpOk fresh l terminate_request frame b v = with_flags l false false v
receive_frame-LcpOk fresh l terminate_ack frame b v = v
receive_frame-LcpOk fresh l code_reject frame b v = v
receive_frame-LcpOk fresh l protocol_reject frame b v = v
receive_frame-LcpOk fresh l echo_reply frame b v = v
receive_frame-LcpOk fresh l discard_request frame b v = v
receive_frame-LcpOk fresh l (unknown n) frame b v = v
