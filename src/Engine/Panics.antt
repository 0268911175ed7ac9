-- ===== src/Engine/Panics.antt =====
-- engine.rs: when the `expect`s of `handle_ipcp` can fail.
use mac_os_sstp_client.Prelude.{
  ℕ, ◌≡◌, ◌↔◌, inl, inr, refl, arith, List, Option, none, some, Bool, true, false, Bytes,
  Option-cases,
}
use mathlib.Core.Path.{subst}
use mac_os_sstp_client.Prelude.Text.{Str}
use mac_os_sstp_client.Prelude.Crypto.{Crypto}
use mac_os_sstp_client.Packet.{MsgType, Packet, data_packet, ctrl, Attr}
use mac_os_sstp_client.Ppp as Ppp
use mac_os_sstp_client.Ipcp as Ipcp
use mac_os_sstp_client.ChapFsm as ChapFsm
use mac_os_sstp_client.Cmac.{HashAlgo}
use mac_os_sstp_client.Mppe.{MppeKeys}
use mac_os_sstp_client.Engine.State.{
  EngineEvent, Engine, Draws, Outcome, done, panic, new, Phase, ipcp_phase, established_phase,
}
use mac_os_sstp_client.Engine.Handlers.{
  on_connect_ack, on_ctrl, lcp_opened, handle_lcp, ipcp_opened, handle_ipcp, answer_challenge,
  check_success, on_success, handle_chap_frame, handle_chap, on_protocol, on_ppp_frame, on_packet,
}
use mac_os_sstp_client.Engine.History.{Entry, Reach, here, next}

abbrev pub Paired : Option HashAlgo → Option Bytes → Type 0
Paired none none = Unit {0}
Paired (some algo) (some nonce) = Unit {0}
Paired _ _ = ⊥

abbrev pub Keyed : Phase → Option MppeKeys → Type 0
Keyed ipcp_phase none = ⊥
Keyed established_phase none = ⊥
Keyed _ _ = Unit {0}

-- The hash algorithm and the nonce come together, and the phases behind CHAP have keys.
pub record IsBound (e : Engine) : Type 0 where
  pub paired : Paired e.hash_algo e.server_nonce
  pub keyed : Keyed e.phase e.mppe_keys

-- The packet is an IPCP frame with which IPCP is up.
abbrev pub opens_frame : Engine → Ppp.Protocol → Bytes → Bool
opens_frame e Ppp.ipcp payload = (Ipcp.receive e.ipcp payload).1.up
opens_frame e _ payload = false

abbrev pub opens : Engine → Packet → Bool
opens e (ctrl m attrs) = false
opens e (data_packet frame) = elim (Ppp.decode frame) [
  | none ↦ false
  | some (proto, payload) ↦ opens_frame e proto payload
]

abbrev pub Unacknowledged : Engine → Bool → Type 0
Unacknowledged e up = (e.phase ≡ ipcp_phase) × (e.hash_algo ≡ none) × (up ≡ true)

-- A handler that returns keeps the bounds, and one that panics does so for want of a CONNECT_ACK.
abbrev pub Bounded : Engine → Bool → Outcome → Type 0
Bounded e up (done e' events) = IsBound e'
Bounded e up panic = Unacknowledged e up

on_ctrl-Bounded :
    (e : Engine) (m : MsgType) (attrs : List Attr) → IsBound e → Bounded e false (on_ctrl e m attrs)
unfolding on_ctrl on_connect_ack
on_ctrl-Bounded e m attrs b = ground arith

handle_lcp-Bounded :
    (draws : Draws) (e : Engine) (payload : Bytes)
    → IsBound e
    → Bounded e false (handle_lcp draws e payload)
unfolding handle_lcp lcp_opened
handle_lcp-Bounded draws e payload b = ground arith

module _ (c : Crypto) where
  handle_ipcp-Bounded :
      (e : Engine) (payload : Bytes)
      → IsBound e
      → Bounded e (Ipcp.receive e.ipcp payload).1.up (handle_ipcp c e payload)
  unfolding handle_ipcp ipcp_opened
  handle_ipcp-Bounded e payload b = ground arith

  handle_chap_frame-Bounded :
      (draws : Draws) (e : Engine) (code : ChapFsm.Code) (frame : ChapFsm.Frame)
      → IsBound e
      → Bounded e false (handle_chap_frame c draws e code frame)
  unfolding handle_chap_frame answer_challenge on_success check_success
  handle_chap_frame-Bounded draws e code frame b = ground arith

  handle_chap-Bounded :
      (draws : Draws) (e : Engine) (payload : Bytes)
      → IsBound e
      → Bounded e false (handle_chap c draws e payload)
  unfolding handle_chap
  handle_chap-Bounded draws e payload b = elim (Option-cases (ChapFsm.decode payload)) [
    | inl q ↦ rw (q, Bounded) b
    | inr (f, q) ↦ rw (q, Bounded) (handle_chap_frame-Bounded draws e f.code f b)
  ]

  on_protocol-Bounded :
      (draws : Draws) (e : Engine) (frame : Bytes) (proto : Ppp.Protocol) (payload : Bytes)
      → IsBound e
      → Bounded e (opens_frame e proto payload) (on_protocol c draws e frame proto payload)
  unfolding on_protocol
  on_protocol-Bounded draws e frame Ppp.lcp payload b = handle_lcp-Bounded draws e payload b
  on_protocol-Bounded draws e frame Ppp.chap payload b = handle_chap-Bounded draws e payload b
  on_protocol-Bounded draws e frame Ppp.ipcp payload b = handle_ipcp-Bounded e payload b
  on_protocol-Bounded draws e frame _ payload b = record { paired = b.paired; keyed = b.keyed }

  on_ppp_frame-Bounded :
      (draws : Draws) (e : Engine) (frame : Bytes)
      → IsBound e
      → Bounded e (opens e (data_packet frame)) (on_ppp_frame c draws e frame)
  unfolding on_ppp_frame
  on_ppp_frame-Bounded draws e frame b = elim (Option-cases (Ppp.decode frame)) [
    | inl q ↦ rw (q, opens) (rw (q, Bounded) b)
    | inr ((proto, payload), q) ↦
        rw (q, opens) (rw (q, Bounded) (on_protocol-Bounded draws e frame proto payload b))
  ]

  on_packet-Bounded :
      (draws : Draws) (e : Engine) (pkt : Packet)
      → IsBound e
      → Bounded e (opens e pkt) (on_packet c draws e pkt)
  unfolding on_packet
  on_packet-Bounded draws e (ctrl m attrs) b = on_ctrl-Bounded e m attrs b
  on_packet-Bounded draws e (data_packet frame) b = on_ppp_frame-Bounded draws e frame b

  reach-IsBound :
      (magic : ℕ) (username password : Str) (cert : Bytes) {h : List Entry} {e : Engine}
      {events : List EngineEvent}
      → Reach c (new c magic username password cert) h e events
      → IsBound e
  unfolding new
  reach-IsBound magic username password cert here = record { paired = tt; keyed = tt }
  reach-IsBound magic username password cert (next {h} {e} draws pkt r step) =
      subst (Bounded e (opens e pkt)) step
        (on_packet-Bounded draws e pkt (reach-IsBound magic username password cert r))

  ipcp_opened_unbound :
      (e : Engine) (events : List EngineEvent) (algo : Option HashAlgo) (nonce : Option Bytes)
      (keys : Option MppeKeys)
      → algo ≡ none
      → ipcp_opened c e events algo nonce keys ≡ panic
  unfolding ipcp_opened
  ipcp_opened_unbound e events none _ keys q = refl
  ipcp_opened_unbound e events (some algo) _ keys q = ground arith

  handle_ipcp_unbound :
      (e : Engine) (payload : Bytes)
      → Unacknowledged e (Ipcp.receive e.ipcp payload).1.up
      → handle_ipcp c e payload ≡ panic
  unfolding handle_ipcp
  handle_ipcp_unbound e payload (p, q, up) =
      rw (up, p) (ipcp_opened_unbound _ _ e.hash_algo e.server_nonce e.mppe_keys q)

  on_protocol_unbound :
      (draws : Draws) (e : Engine) (frame : Bytes) (proto : Ppp.Protocol) (payload : Bytes)
      → Unacknowledged e (opens_frame e proto payload)
      → on_protocol c draws e frame proto payload ≡ panic
  unfolding on_protocol
  on_protocol_unbound draws e frame Ppp.ipcp payload u = handle_ipcp_unbound e payload u
  on_protocol_unbound draws e frame _ payload (p, q, up) = ground arith

  on_packet_unbound :
      (draws : Draws) (e : Engine) (pkt : Packet)
      → Unacknowledged e (opens e pkt)
      → on_packet c draws e pkt ≡ panic
  unfolding on_packet on_ppp_frame
  on_packet_unbound draws e (ctrl m attrs) (p, q, up) = ground arith
  on_packet_unbound draws e (data_packet frame) u = elim (Option-cases (Ppp.decode frame)) [
    | inl q ↦ ground arith
    | inr ((proto, payload), q) ↦
        rw (q, on_packet, on_ppp_frame)
          (on_protocol_unbound draws e frame proto payload
            (subst (Unacknowledged e) (rw (q, opens) refl) u))
  ]

-- From a new engine and through any packets: the next call of `on_packet` panics exactly when the
-- engine is in the IPCP phase, has not accepted a CONNECT_ACK, and the packet is an IPCP frame
-- after which IPCP is up.
pub panics_exactly :
    (c : Crypto) (magic : ℕ) (username password : Str) (cert : Bytes) {h : List Entry} {e : Engine}
    {events : List EngineEvent} (draws : Draws) (pkt : Packet)
    → Reach c (new c magic username password cert) h e events
    → (on_packet c draws e pkt ≡ panic) ↔ Unacknowledged e (opens e pkt)
panics_exactly c magic username password cert {h} {e} draws pkt r = (
  λ step.
      subst (Bounded e (opens e pkt)) step
        (on_packet-Bounded c draws e pkt (reach-IsBound c magic username password cert r)),
  on_packet_unbound c draws e pkt,
)
