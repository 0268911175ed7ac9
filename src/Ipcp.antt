-- ===== src/Ipcp.antt =====
-- sstp-proto/src/ipcp.rs: IPCP negotiation. An `Ipv4Addr` is the list of its four octets.
pub mod Requests
pub mod Bounds
pub mod Adoption
use mac_os_sstp_client.Prelude.{
  ℕ, ◌+◌, List, [], ◌∷◌, ◌++◌, Option, none, some, Bool, true, false, ◌&&◌, not, ◌==◌,
  if◌then◌else◌, is_empty, Bytes, as_u8,
}
use mac_os_sstp_client.Cp.{
  Code, configure_request, configure_ack, configure_nak, configure_reject, terminate_request,
  terminate_ack, Frame, Opt, encode, decode, encode_options, decode_options,
}
use mac_os_sstp_client.Cp.Desired.{set_value, without}

abbrev pub opt_ip_address : ℕ
opt_ip_address = 3

abbrev pub opt_primary_dns : ℕ
opt_primary_dns = 129

abbrev pub opt_secondary_dns : ℕ
opt_secondary_dns = 131

abbrev pub Ipv4Addr : Type 0
Ipv4Addr = Bytes

abbrev pub unspecified : Ipv4Addr
unspecified = 0 ∷ 0 ∷ 0 ∷ 0 ∷ []

abbrev pub ip_opt : ℕ → Ipv4Addr → Opt
ip_opt kind addr = record { kind = kind; value = addr }

-- The conversion of the value to `[u8; 4]`.
abbrev pub four_octets : Bytes → Option Ipv4Addr
four_octets (a ∷ b ∷ c ∷ d ∷ []) = some (a ∷ b ∷ c ∷ d ∷ [])
four_octets _ = none

abbrev pub parse_ip_opt : Opt → Option Ipv4Addr
parse_ip_opt opt = four_octets opt.value

pub record NegotiatedConfig : Type 0 where
  pub local_ip : Option Ipv4Addr
  pub peer_ip : Option Ipv4Addr
  pub dns1 : Option Ipv4Addr
  pub dns2 : Option Ipv4Addr

pub record IpcpResult : Type 0 where
  pub to_send : List Bytes
  pub up : Bool

pub record Ipcp : Type 0 where
  pub identifier : ℕ
  pub desired : List Opt
  pub last_sent_id : Option ℕ
  pub local_up : Bool
  pub remote_up : Bool
  pub negotiated : NegotiatedConfig

unfoldable pub new : Ipcp
new = record {
  identifier = 0;
  desired =
      ip_opt opt_ip_address unspecified
      ∷ ip_opt opt_primary_dns unspecified
      ∷ ip_opt opt_secondary_dns unspecified
      ∷ [];
  last_sent_id = none;
  local_up = false;
  remote_up = false;
  negotiated = record { local_ip = none; peer_ip = none; dns1 = none; dns2 = none };
}

abbrev pub is_up : Ipcp → Bool
is_up l = l.local_up && l.remote_up

unfoldable pub send_config_request : Ipcp → Ipcp × Bytes
send_config_request l =
    let id = as_u8 (l.identifier + 1) in
    (
      record l { identifier = id; last_sent_id = some id },
      encode configure_request id (encode_options l.desired),
    )

abbrev pub start : Ipcp → Ipcp × Bytes
start = send_config_request

-- The variables of the loop of `evaluate_peer_options`.
pub record Evaluation : Type 0 where
  pub ipcp : Ipcp
  pub nak : List Opt
  pub reject : List Opt

push_reject : Opt → Evaluation → Evaluation
push_reject opt s = record s { reject = s.reject ++ opt ∷ [] }

unfoldable pub evaluate_option : Evaluation → Opt → Evaluation
unfolding push_reject
evaluate_option s opt =
    if opt.kind == opt_ip_address
    then elim (parse_ip_opt opt) [
      | some addr ↦ record s {
        ipcp = record (s.ipcp) { negotiated = record (s.ipcp.negotiated) { peer_ip = some addr } };
      }
      | none ↦ push_reject opt s
    ]
    else push_reject opt s

unfoldable pub evaluate_from : Evaluation → List Opt → Evaluation
evaluate_from s [] = s
evaluate_from s (opt ∷ opts) = evaluate_from (evaluate_option s opt) opts

unfoldable pub evaluate_peer_options : Ipcp → List Opt → Evaluation
unfolding evaluate_from
evaluate_peer_options l opts = evaluate_from (record { ipcp = l; nak = []; reject = [] }) opts

unfoldable pub apply_nak : Ipcp → List Opt → Ipcp
apply_nak l [] = l
apply_nak l (s ∷ suggested) =
    apply_nak (record l { desired = set_value s.kind s.value l.desired }) suggested

pub apply_reject : Ipcp → List Opt → Ipcp
apply_reject l rejected = record l { desired = without rejected l.desired }

unfoldable pub capture_option : NegotiatedConfig → Opt → NegotiatedConfig
capture_option n opt = elim (parse_ip_opt opt) [
  | none ↦ n
  | some addr ↦
      if opt.kind == opt_ip_address
      then record n { local_ip = some addr }
      else if opt.kind == opt_primary_dns
      then record n { dns1 = some addr }
      else if opt.kind == opt_secondary_dns
      then record n { dns2 = some addr }
      else n
]

unfoldable pub capture_from : NegotiatedConfig → List Opt → NegotiatedConfig
unfolding capture_option
capture_from n [] = n
capture_from n (opt ∷ opts) = capture_from (capture_option n opt) opts

unfoldable pub capture_accepted_values : Ipcp → Ipcp
unfolding capture_from
capture_accepted_values l = record l { negotiated = capture_from l.negotiated l.desired }

-- `self.last_sent_id == Some(frame.id)`.
abbrev pub is_sent_id : Option ℕ → ℕ → Bool
is_sent_id none id = false
is_sent_id (some sent) id = sent == id

-- The answer to a Configure-Request once its options are evaluated.
answer_request : Frame → Evaluation → Ipcp × List Bytes
answer_request frame s =
    if not (is_empty s.reject)
    then (
      record (s.ipcp) { remote_up = false },
      encode configure_reject frame.id (encode_options s.reject) ∷ [],
    )
    else if not (is_empty s.nak)
    then (
      record (s.ipcp) { remote_up = false },
      encode configure_nak frame.id (encode_options s.nak) ∷ [],
    )
    else (record (s.ipcp) { remote_up = true }, encode configure_ack frame.id frame.payload ∷ [])

pub resend : Ipcp → Ipcp × List Bytes
unfolding send_config_request
resend l = let (l', wire) = send_config_request (record l { local_up = false }) in (l', wire ∷ [])

-- The `match` on the code of a frame.
unfoldable pub receive_frame : Ipcp → Code → Frame → Ipcp × List Bytes
unfolding answer_request resend apply_reject capture_accepted_values
receive_frame l configure_request frame =
    answer_request frame (evaluate_peer_options l (decode_options frame.payload))
receive_frame l configure_ack frame = (
  if is_sent_id l.last_sent_id frame.id
      then record (capture_accepted_values l) { local_up = true }
      else l,
  [],
)
receive_frame l configure_nak frame =
    if is_sent_id l.last_sent_id frame.id
    then resend (apply_nak l (decode_options frame.payload))
    else (l, [])
receive_frame l configure_reject frame =
    if is_sent_id l.last_sent_id frame.id
    then resend (apply_reject l (decode_options frame.payload))
    else (l, [])
receive_frame l terminate_request frame =
    (record l { local_up = false; remote_up = false }, encode terminate_ack frame.id [] ∷ [])
receive_frame l _ frame = (l, [])

unfoldable pub receive : Ipcp → Bytes → Ipcp × IpcpResult
receive l bytes = elim (decode bytes) [
  | none ↦ (l, record { to_send = []; up = is_up l })
  | some frame ↦
      let (l', sent) = receive_frame l frame.code frame in
      (l', record { to_send = sent; up = is_up l' })
]
