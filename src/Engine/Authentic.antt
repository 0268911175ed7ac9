-- ===== src/Engine/Authentic.antt =====
-- engine.rs: the CHAP handlers, and `on_packet` as a whole, against the history of what was
-- authenticated (Engine.History).
use mac_os_sstp_client.Prelude.{
  ◌≡◌, inl, inr, refl, ap, ◌∙◌, List, ◌∷◌, Option, none, some, ◌==◌, ==_eq, length, Bytes,
  Bool-cases, Option-cases,
}
use mac_os_sstp_client.Prelude.Text.{Str}
use mac_os_sstp_client.Prelude.Crypto.{Crypto}
use mac_os_sstp_client.Packet.{Packet, data_packet, ctrl}
use mac_os_sstp_client.Ppp as Ppp
use mac_os_sstp_client.ChapFsm as ChapFsm
use mac_os_sstp_client.ChapFsm.{PendingResponse, verify_success, build_response, parse_challenge}
use mac_os_sstp_client.Engine.State.{EngineEvent, Engine, Draws}
use mac_os_sstp_client.Engine.Handlers.{
  answer_challenge, on_success, handle_chap_frame, handle_chap, on_protocol, on_ppp_frame,
  on_packet,
}
use mac_os_sstp_client.Engine.History.{
  Entry, chap_frame, chap_payload, PendingOk, IsValid, EventOk, OutcomeOk,
}
use mac_os_sstp_client.Engine.Quiet.{
  KeysOk-cons, IsValid-cons, IsValid-fields, handle_lcp_ok, handle_ipcp_ok, on_ctrl_ok,
}

module _ (c : Crypto) (username password : Str) where
  challenge_ok :
      (h : List Entry) (draws : Draws) (pkt : Packet) (e : Engine) (f : ChapFsm.Frame)
      (arrival : EngineEvent) (info : ChapFsm.ChallengeInfo)
      → IsValid c username password h e
      → EventOk c username password ((draws, pkt) ∷ h) arrival
      → chap_frame pkt ≡ some f
      → f.code ≡ ChapFsm.challenge
      → parse_challenge f ≡ some info
      → OutcomeOk c username password ((draws, pkt) ∷ h) (answer_challenge c draws e f arrival info)
  unfolding answer_challenge build_response
  challenge_ok h draws pkt e f arrival info v a carries code parsed =
      elim (Bool-cases (length info.value == 16)) [
        | inl y ↦ rw y (
          record {
            same_username = v.same_username;
            same_password = v.same_password;
            pending_ok = inl (
              f,
              carries,
              (code, (info, parsed, refl)),
              ==_eq _ _ y,
              refl,
              rw (v.same_username, v.same_password),
            );
            keys_ok = KeysOk-cons c username password (draws, pkt) h e.mppe_keys v.keys_ok;
          },
          (a, (tt, (tt, tt))),
        )
        | inr n ↦ rw n (IsValid-cons c username password (draws, pkt) h e v, (tt, tt))
      ]

  success_ok :
      (h : List Entry) (draws : Draws) (pkt : Packet) (e : Engine) (f : ChapFsm.Frame)
      (arrival : EngineEvent) (p : Option PendingResponse) (value : Option Bytes)
      → IsValid c username password h e
      → PendingOk c username password h p value
      → EventOk c username password ((draws, pkt) ∷ h) arrival
      → chap_frame pkt ≡ some f
      → f.code ≡ ChapFsm.success
      → OutcomeOk c username password ((draws, pkt) ∷ h) (on_success c e f arrival p value)
  unfolding on_success
  success_ok h draws pkt e f arrival none value v q a carries code = (
    record {
      same_username = v.same_username;
      same_password = v.same_password;
      pending_ok = tt;
      keys_ok = KeysOk-cons c username password (draws, pkt) h e.mppe_keys v.keys_ok;
    },
    (tt, tt),
  )
  success_ok h draws pkt e f arrival (some p) none v q a carries code = absurd q
  success_ok h draws pkt e f arrival (some p) (some value) v q a carries code =
      elim (Bool-cases (verify_success c f.payload e.password p value e.username)) [
        | inl y ↦ rw y (
          record {
            same_username = v.same_username;
            same_password = v.same_password;
            pending_ok = tt;
            keys_ok = inl (
              f,
              p,
              value,
              carries,
              code,
              q,
              rw (v.same_password, v.same_username) at y,
              rw v.same_password,
            );
          },
          (a, (tt, (tt, tt))),
        )
        | inr n ↦ rw n (
          record {
            same_username = v.same_username;
            same_password = v.same_password;
            pending_ok = tt;
            keys_ok = KeysOk-cons c username password (draws, pkt) h e.mppe_keys v.keys_ok;
          },
          (tt, tt),
        )
      ]

  frame_ok :
      (h : List Entry) (draws : Draws) (pkt : Packet) (e : Engine) (code : ChapFsm.Code)
      (f : ChapFsm.Frame)
      → IsValid c username password h e
      → chap_frame pkt ≡ some f
      → f.code ≡ code
      → OutcomeOk c username password ((draws, pkt) ∷ h) (handle_chap_frame c draws e code f)
  unfolding handle_chap_frame
  frame_ok h draws pkt e ChapFsm.challenge f v carries code =
      elim (Option-cases (parse_challenge f)) [
        | inl bad ↦
            rw (bad, handle_chap_frame)
              (IsValid-cons c username password (draws, pkt) h e v, (tt, tt))
        | inr (info, good) ↦
            rw (good, handle_chap_frame)
              (challenge_ok h draws pkt e f _ info v tt carries code good)
      ]
  frame_ok h draws pkt e ChapFsm.success f v carries code =
      success_ok h draws pkt e f _ e.pending_chap e.auth_challenge v v.pending_ok tt carries code
  frame_ok h draws pkt e ChapFsm.failure f v carries code =
      (IsValid-cons c username password (draws, pkt) h e v, (tt, (tt, tt)))
  frame_ok h draws pkt e _ f v carries code =
      (IsValid-cons c username password (draws, pkt) h e v, (tt, (tt, tt)))

  handle_chap_ok :
      (h : List Entry) (draws : Draws) (pkt : Packet) (e : Engine) (payload : Bytes)
      → IsValid c username password h e
      → chap_frame pkt ≡ ChapFsm.decode payload
      → OutcomeOk c username password ((draws, pkt) ∷ h) (handle_chap c draws e payload)
  unfolding handle_chap
  handle_chap_ok h draws pkt e payload v carries = elim (Option-cases (ChapFsm.decode payload)) [
    | inl bad ↦
        rw (bad, handle_chap) (IsValid-cons c username password (draws, pkt) h e v, (tt, tt))
    | inr (f, good) ↦
        rw (good, handle_chap) (frame_ok h draws pkt e f.code f v (carries ∙ good) refl)
  ]

  protocol_ok :
      (h : List Entry) (draws : Draws) (pkt : Packet) (e : Engine) (frame : Bytes)
      (proto : Ppp.Protocol) (payload : Bytes)
      → IsValid c username password h e
      → chap_frame pkt ≡ chap_payload proto payload
      → OutcomeOk c username password ((draws, pkt) ∷ h) (on_protocol c draws e frame proto payload)
  unfolding on_protocol
  protocol_ok h draws pkt e frame Ppp.lcp payload v carries =
      handle_lcp_ok c username password ((draws, pkt) ∷ h) draws e payload
        (IsValid-cons c username password (draws, pkt) h e v)
  protocol_ok h draws pkt e frame Ppp.chap payload v carries =
      handle_chap_ok h draws pkt e payload v carries
  protocol_ok h draws pkt e frame Ppp.ipcp payload v carries =
      handle_ipcp_ok c username password ((draws, pkt) ∷ h) e payload
        (IsValid-cons c username password (draws, pkt) h e v)
  protocol_ok h draws pkt e frame Ppp.ip payload v carries =
      (IsValid-cons c username password (draws, pkt) h e v, (tt, tt))
  protocol_ok h draws pkt e frame _ payload v carries = (
    IsValid-fields c username password ((draws, pkt) ∷ h) e _
        (IsValid-cons c username password (draws, pkt) h e v) refl refl refl refl refl,
    (tt, tt),
  )

  ppp_ok :
      (h : List Entry) (draws : Draws) (pkt : Packet) (e : Engine) (frame : Bytes)
      → IsValid c username password h e
      → pkt ≡ data_packet frame
      → OutcomeOk c username password ((draws, pkt) ∷ h) (on_ppp_frame c draws e frame)
  unfolding on_ppp_frame
  ppp_ok h draws pkt e frame v same = elim (Option-cases (Ppp.decode frame)) [
    | inl bad ↦ rw (bad, on_ppp_frame) (IsValid-cons c username password (draws, pkt) h e v, tt)
    | inr ((proto, payload), good) ↦
        rw (good, on_ppp_frame)
          (protocol_ok h draws pkt e frame proto payload v
            (ap chap_frame same ∙ rw (good, chap_frame)))
  ]

  -- One packet keeps the invariant, and an `Established` event among its events carries keys that
  -- were authenticated.
  pub packet_ok :
      (h : List Entry) (draws : Draws) (pkt : Packet) (e : Engine)
      → IsValid c username password h e
      → OutcomeOk c username password ((draws, pkt) ∷ h) (on_packet c draws e pkt)
  unfolding on_packet
  packet_ok h draws (ctrl m attrs) e v =
      on_ctrl_ok c username password ((draws, ctrl m attrs) ∷ h) e m attrs
        (IsValid-cons c username password (draws, ctrl m attrs) h e v)
  packet_ok h draws (data_packet frame) e v = ppp_ok h draws (data_packet frame) e frame v refl
