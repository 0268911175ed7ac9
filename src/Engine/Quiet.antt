-- ===== src/Engine/Quiet.antt =====
-- engine.rs: the control messages, LCP and IPCP against the history of what was authenticated
-- (Engine.History).
use mac_os_sstp_client.Prelude.{
  ℕ, ◌≡◌, inl, inr, refl, ◌∙◌, arith, List, [], ◌∷◌, Option, none, some, ◌&&◌, ◌==◌, length, Bytes,
  All, All-append, Bool-cases, find,
}
use mac_os_sstp_client.Prelude.Text.{Str}
use mac_os_sstp_client.Prelude.Crypto.{Crypto}
use mac_os_sstp_client.Packet.{MsgType, Packet, Attr, connect_ack, is_crypto_bind_request}
use mac_os_sstp_client.Packet as Packet
use mac_os_sstp_client.Ppp as Ppp
use mac_os_sstp_client.Cp as Cp
use mac_os_sstp_client.Lcp as Lcp
use mac_os_sstp_client.Ipcp as Ipcp
use mac_os_sstp_client.ChapFsm.{PendingResponse}
use mac_os_sstp_client.Cmac.{HashAlgo}
use mac_os_sstp_client.Mppe.{MppeKeys}
use mac_os_sstp_client.Engine.State.{established_phase, Trace, EngineEvent, Engine, Draws}
use mac_os_sstp_client.Engine.Handlers.{
  on_connect_ack, on_found, on_ctrl, send_traced, sends, lcp_arrival, lcp_opened, handle_lcp,
  ipcp_arrival, ipcp_opened, handle_ipcp, is_lcp, is_ipcp, is_wait_connect_ack,
}
use mac_os_sstp_client.Engine.History.{Entry, PendingOk, KeysOk, IsValid, EventOk, OutcomeOk}

module _ (c : Crypto) (username password : Str) where
  -- A longer history proves what the shorter one does.
  pub PendingOk-cons :
      (x : Entry) (h : List Entry) (p : Option PendingResponse) (v : Option Bytes)
      → PendingOk c username password h p v
      → PendingOk c username password (x ∷ h) p v
  PendingOk-cons x h none v h' = tt
  PendingOk-cons x h (some p) none h' = h'
  PendingOk-cons x h (some p) (some v) h' = inr h'

  pub KeysOk-cons :
      (x : Entry) (h : List Entry) (k : Option MppeKeys)
      → KeysOk c username password h k
      → KeysOk c username password (x ∷ h) k
  KeysOk-cons x h none h' = tt
  KeysOk-cons x h (some k) h' = inr h'

  pub IsValid-cons :
      (x : Entry) (h : List Entry) (e : Engine)
      → IsValid c username password h e
      → IsValid c username password (x ∷ h) e
  IsValid-cons x h e v = record {
    same_username = v.same_username;
    same_password = v.same_password;
    pending_ok = PendingOk-cons x h e.pending_chap e.auth_challenge v.pending_ok;
    keys_ok = KeysOk-cons x h e.mppe_keys v.keys_ok;
  }

  pub send_traced_ok :
      (h : List Entry) (note : Cp.Code → ℕ → Trace) (proto : Ppp.Protocol) (d : Bytes)
      → All (EventOk c username password h) (send_traced note proto d)
  unfolding send_traced
  send_traced_ok h note proto d = ground arith

  pub sends_ok :
      (h : List Entry) (note : Cp.Code → ℕ → Trace) (proto : Ppp.Protocol) (ds : List Bytes)
      → All (EventOk c username password h) (sends note proto ds)
  unfolding sends
  sends_ok h note proto [] = tt
  sends_ok h note proto (d ∷ ds) =
      All-append _ (send_traced note proto d) (sends note proto ds) (send_traced_ok h note proto d)
        (sends_ok h note proto ds)

  -- Only the fields that the invariant speaks of matter.
  pub IsValid-fields :
      (h : List Entry) (e e' : Engine)
      → IsValid c username password h e
      → e'.username ≡ e.username
      → e'.password ≡ e.password
      → e'.pending_chap ≡ e.pending_chap
      → e'.auth_challenge ≡ e.auth_challenge
      → e'.mppe_keys ≡ e.mppe_keys
      → IsValid c username password h e'
  IsValid-fields h e e' v u p r a k = record {
    same_username = u ∙ v.same_username;
    same_password = p ∙ v.same_password;
    pending_ok = rw (r, a) v.pending_ok;
    keys_ok = rw k v.keys_ok;
  }

  pub lcp_opened_ok :
      (h : List Entry) (e : Engine) (req : Option Lcp.PeerAuthRequirement)
      (events : List EngineEvent)
      → IsValid c username password h e
      → All (EventOk c username password h) events
      → OutcomeOk c username password h (lcp_opened e req events)
  unfolding lcp_opened
  lcp_opened_ok h e none events v a = (v, (tt, tt))
  lcp_opened_ok h e (some req) events v a = elim (Bool-cases (Lcp.is_mschapv2 req)) [
    | inl y ↦ rw y (IsValid-fields h e _ v refl refl refl refl refl, a)
    | inr n ↦ rw n (v, (tt, tt))
  ]

  pub lcp_arrival_ok :
      (h : List Entry) (payload : Bytes) → All (EventOk c username password h) (lcp_arrival payload)
  unfolding lcp_arrival
  lcp_arrival_ok h payload = ground arith

  pub ipcp_arrival_ok :
      (h : List Entry) (payload : Bytes)
      → All (EventOk c username password h) (ipcp_arrival payload)
  unfolding ipcp_arrival
  ipcp_arrival_ok h payload = ground arith

  pub handle_lcp_ok :
      (h : List Entry) (draws : Draws) (e : Engine) (payload : Bytes)
      → IsValid c username password h e
      → OutcomeOk c username password h (handle_lcp draws e payload)
  unfolding handle_lcp
  handle_lcp_ok h draws e payload v =
      let r = Lcp.receive draws.magic e.lcp payload in
      let v' = IsValid-fields h e (record e { lcp = r.0 }) v refl refl refl refl refl in
      let events_ok =
        All-append _ (lcp_arrival payload) _ (lcp_arrival_ok h payload)
          (sends_ok h _ _ r.1.to_send) in
      elim (Bool-cases (r.1.up && is_lcp e.phase)) [
        | inl y ↦ rw y (lcp_opened_ok h _ r.0.peer_auth _ v' events_ok)
        | inr n ↦ rw n (v', events_ok)
      ]

  -- Opening the tunnel sends the keys that the engine holds.
  pub ipcp_opened_ok :
      (h : List Entry) (e : Engine) (events : List EngineEvent) (algo : Option HashAlgo)
      (nonce : Option Bytes) (keys : Option MppeKeys)
      → IsValid c username password h e
      → All (EventOk c username password h) events
      → KeysOk c username password h keys
      → OutcomeOk c username password h (ipcp_opened c e events algo nonce keys)
  unfolding ipcp_opened
  ipcp_opened_ok h e events (some algo) (some nonce) (some keys) v a k =
      (v, All-append _ events _ a (tt, (k, tt)))
  ipcp_opened_ok h e events none _ _ v a k = tt
  ipcp_opened_ok h e events (some algo) none _ v a k = tt
  ipcp_opened_ok h e events (some algo) (some nonce) none v a k = tt

  pub handle_ipcp_ok :
      (h : List Entry) (e : Engine) (payload : Bytes)
      → IsValid c username password h e
      → OutcomeOk c username password h (handle_ipcp c e payload)
  unfolding handle_ipcp
  handle_ipcp_ok h e payload v =
      let r = Ipcp.receive e.ipcp payload in
      let v' = IsValid-fields h e (record e { ipcp = r.0 }) v refl refl refl refl refl in
      let v'' =
        IsValid-fields h e (record e { ipcp = r.0; phase = established_phase }) v refl refl refl
          refl refl in
      let events_ok =
        All-append _ (ipcp_arrival payload) _ (ipcp_arrival_ok h payload)
          (sends_ok h _ _ r.1.to_send) in
      elim (Bool-cases (r.1.up && is_ipcp e.phase)) [
        | inl y ↦
            rw y
              (ipcp_opened_ok h _ _ e.hash_algo e.server_nonce e.mppe_keys v'' events_ok v.keys_ok)
        | inr n ↦ rw n (v', events_ok)
      ]

  pub find_ack_ok :
      (h : List Entry) (e : Engine) (found : Option Attr)
      → IsValid c username password h e
      → OutcomeOk c username password h (on_found e found)
  unfolding on_found
  find_ack_ok h e none v = (v, (tt, tt))
  find_ack_ok h e (some attr) v = elim (Bool-cases (length attr.value == 36)) [
    | inl y ↦ rw y (IsValid-fields h e _ v refl refl refl refl refl, (tt, (tt, tt)))
    | inr n ↦ rw n (v, (tt, tt))
  ]

  pub on_connect_ack_ok :
      (h : List Entry) (e : Engine) (attrs : List Attr)
      → IsValid c username password h e
      → OutcomeOk c username password h (on_connect_ack e attrs)
  unfolding on_connect_ack
  on_connect_ack_ok h e attrs v = elim (Bool-cases (is_wait_connect_ack e.phase)) [
    | inl y ↦ rw y (find_ack_ok h e (find (λ a. is_crypto_bind_request a.attr_type) attrs) v)
    | inr n ↦ rw n (v, tt)
  ]

  pub on_ctrl_ok :
      (h : List Entry) (e : Engine) (m : MsgType) (attrs : List Attr)
      → IsValid c username password h e
      → OutcomeOk c username password h (on_ctrl e m attrs)
  unfolding on_ctrl
  on_ctrl_ok h e connect_ack attrs v = on_connect_ack_ok h e attrs v
  on_ctrl_ok h e Packet.connect_nak attrs v = (v, (tt, tt))
  on_ctrl_ok h e Packet.abort attrs v = (v, (tt, tt))
  on_ctrl_ok h e Packet.disconnect attrs v = (v, (tt, (tt, tt)))
  on_ctrl_ok h e Packet.disconnect_ack attrs v = (v, (tt, tt))
  on_ctrl_ok h e Packet.echo_request attrs v = (v, (tt, tt))
  on_ctrl_ok h e _ attrs v = (v, tt)
