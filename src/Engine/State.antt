-- ===== src/Engine/State.antt =====
-- The data of engine.rs: events, phases and the engine. The texts that the source formats for
-- `Trace` and `Fatal` are constructors with what is printed in them.
use mac_os_sstp_client.Prelude.{ℕ, List, [], ◌∷◌, ◌++◌, Option, none, replicate, Bytes, be16}
use mac_os_sstp_client.Prelude.Text.{Str}
use mac_os_sstp_client.Prelude.Crypto.{Crypto}
use mac_os_sstp_client.Packet.{
  StatusText, connect_request, disconnect, echo_request, encap_protocol, encode_ctrl,
}
use mac_os_sstp_client.Cp as Cp
use mac_os_sstp_client.ChapFsm as ChapFsm
use mac_os_sstp_client.ChapFsm.{PendingResponse, ResponseError}
use mac_os_sstp_client.Cmac.{HashAlgo}
use mac_os_sstp_client.Mppe.{MppeKeys}
use mac_os_sstp_client.Lcp.{Lcp}
use mac_os_sstp_client.Lcp as Lcp
use mac_os_sstp_client.Ipcp.{Ipcp, NegotiatedConfig}
use mac_os_sstp_client.Ipcp as Ipcp

pub data Trace : Type 0 where
  connect_ack_ok : HashAlgo → Trace
  lcp_recv : Cp.Code → ℕ → ℕ → Trace
  lcp_recv_malformed : ℕ → Trace
  lcp_send : Cp.Code → ℕ → Trace
  chap_recv : ChapFsm.Code → ℕ → ℕ → Trace
  chap_send_response : ℕ → Str → Trace
  chap_success_verified : Trace
  ipcp_recv : Cp.Code → ℕ → ℕ → Trace
  ipcp_send : Cp.Code → ℕ → Trace

-- `none` prints as "no status info given".
pub data Fault : Type 0 where
  connect_nak_received : Option StatusText → Fault
  aborted : Option StatusText → Fault
  no_crypto_bind_request : Fault
  crypto_bind_length : ℕ → Fault
  other_auth_method : Fault
  no_auth_requested : Fault
  malformed_chap_frame : Fault
  malformed_chap_challenge : Fault
  challenge_length : ℕ → Fault
  no_response_built : ResponseError → Fault
  no_pending_response : Fault
  not_verified : Str → Fault
  chap_failed : Str → Fault
  unexpected_chap_code : ChapFsm.Code → Fault

pub data EngineEvent : Type 0 where
  send : Bytes → EngineEvent
  trace : Trace → EngineEvent
  deliver_ip_packet : Bytes → EngineEvent
  established : NegotiatedConfig → MppeKeys → EngineEvent
  disconnected : EngineEvent
  fatal : Fault → EngineEvent

pub data Phase : Type 0 where
  wait_connect_ack lcp_phase chap_phase ipcp_phase established_phase : Phase

pub record Engine : Type 0 where
  pub username : Str
  pub password : Str
  pub cert_hash_sha1 : Bytes
  pub cert_hash_sha256 : Bytes
  pub lcp : Lcp
  pub ipcp : Ipcp
  pub phase : Phase
  pub hash_algo : Option HashAlgo
  pub server_nonce : Option Bytes
  pub pending_chap : Option PendingResponse
  pub auth_challenge : Option Bytes
  pub mppe_keys : Option MppeKeys

-- What one call draws from the random number generator.
pub record Draws : Type 0 where
  pub magic : ℕ → ℕ
  pub peer_challenge : Bytes

-- A handler returns the new engine and its events, or panics (a failing `expect`).
pub data Outcome : Type 0 where
  done : Engine → List EngineEvent → Outcome
  panic : Outcome

unfoldable pub new : Crypto → ℕ → Str → Str → Bytes → Engine
new c magic username password server_cert_der = record {
  username = username;
  password = password;
  cert_hash_sha1 = c.sha1 server_cert_der ++ replicate 12 0;
  cert_hash_sha256 = c.sha256 server_cert_der;
  lcp = Lcp.new magic;
  ipcp = Ipcp.new;
  phase = wait_connect_ack;
  hash_algo = none;
  server_nonce = none;
  pending_chap = none;
  auth_challenge = none;
  mppe_keys = none;
}

unfoldable pub start : Bytes
start = encode_ctrl connect_request ((encap_protocol, be16 0x0001) ∷ [])

unfoldable pub build_disconnect : Bytes
build_disconnect = encode_ctrl disconnect []

unfoldable pub build_echo_request : Bytes
build_echo_request = encode_ctrl echo_request []
