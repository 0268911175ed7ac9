-- ===== src/Lcp.antt =====
-- sstp-proto/src/lcp.rs: LCP negotiation. `rand::random()` is an argument: the magic number of
-- `new`, and in `receive` the numbers that the call draws, in order.
pub mod Requests
pub mod Bounds
pub mod Replies
use mac_os_sstp_client.Prelude.{
  ℕ, ◌+◌, ◌/◌, List, [], ◌∷◌, ◌++◌, Option, none, some, Bool, true, false, ◌&&◌, ◌||◌, not, length,
  drop, ltb, ◌==◌, if◌then◌else◌, is_empty, Bytes, be32, of_be16, of_be32, as_u8,
}
use mac_os_sstp_client.Ppp.{chap, protocol_to_u16}
use mac_os_sstp_client.Cp.{
  Code, configure_request, configure_ack, configure_nak, configure_reject, terminate_request,
  terminate_ack, protocol_reject, echo_request, echo_reply, Frame, Opt, encode, decode,
  encode_options, decode_options,
}
use mac_os_sstp_client.Cp.Desired.{set_value, without}

abbrev pub opt_mru : ℕ
opt_mru = 1

abbrev pub opt_accm : ℕ
opt_accm = 2

abbrev pub opt_auth_protocol : ℕ
opt_auth_protocol = 3

abbrev pub opt_magic_number : ℕ
opt_magic_number = 5

abbrev pub opt_pfc : ℕ
opt_pfc = 7

abbrev pub opt_acfc : ℕ
opt_acfc = 8

abbrev pub chap_algorithm_mschapv2 : ℕ
chap_algorithm_mschapv2 = 0x81

pub record PeerAuthRequirement : Type 0 where
  pub protocol : ℕ
  pub algorithm : ℕ

unfoldable pub is_mschapv2 : PeerAuthRequirement → Bool
unfolding protocol_to_u16
is_mschapv2 r = r.protocol == protocol_to_u16 chap && r.algorithm == chap_algorithm_mschapv2

pub record LcpResult : Type 0 where
  pub to_send : List Bytes
  pub up : Bool

pub record Lcp : Type 0 where
  pub identifier : ℕ
  pub magic : ℕ
  pub desired : List Opt
  pub last_sent_id : Option ℕ
  pub local_up : Bool
  pub remote_up : Bool
  pub peer_auth : Option PeerAuthRequirement

unfoldable pub new : ℕ → Lcp
new magic = record {
  identifier = 0;
  magic = magic;
  desired =
      record { kind = opt_magic_number; value = be32 magic }
      ∷ record { kind = opt_pfc; value = [] }
      ∷ record { kind = opt_acfc; value = [] }
      ∷ [];
  last_sent_id = none;
  local_up = false;
  remote_up = false;
  peer_auth = none;
}

abbrev pub is_up : Lcp → Bool
is_up l = l.local_up && l.remote_up

unfoldable pub send_config_request : Lcp → Lcp × Bytes
send_config_request l =
    let id = as_u8 (l.identifier + 1) in
    (
      record l { identifier = id; last_sent_id = some id },
      encode configure_request id (encode_options l.desired),
    )

abbrev pub start : Lcp → Lcp × Bytes
start = send_config_request

-- The variables of the loop of `evaluate_peer_options`, and how many numbers it has drawn.
pub record Evaluation : Type 0 where
  pub lcp : Lcp
  pub nak : List Opt
  pub reject : List Opt
  pub drawn : ℕ

unfoldable pub push_reject : Opt → Evaluation → Evaluation
push_reject opt s = record s { reject = s.reject ++ opt ∷ [] }

unfoldable pub push_nak : Opt → Evaluation → Evaluation
push_nak opt s = record s { nak = s.nak ++ opt ∷ [] }

-- A magic number of 4 bytes; it is the peer's own unless the link loops back.
unfoldable pub evaluate_magic : (ℕ → ℕ) → Evaluation → Opt → Bytes → Evaluation
unfolding push_reject push_nak
evaluate_magic fresh s opt (a ∷ b ∷ c ∷ d ∷ []) =
    if of_be32 a b c d == s.lcp.magic
    then push_nak (record { kind = opt_magic_number; value = be32 (fresh s.drawn) })
        (record s { drawn = s.drawn + 1 })
    else s
evaluate_magic fresh s opt _ = push_reject opt s

-- `opt.data.get(2).copied() == Some(CHAP_ALGORITHM_MSCHAPV2)`.
abbrev pub names_mschapv2 : Bytes → Bool
names_mschapv2 [] = false
names_mschapv2 (algo ∷ more) = algo == chap_algorithm_mschapv2

unfoldable pub evaluate_auth : Evaluation → Opt → Bytes → Evaluation
unfolding push_reject push_nak protocol_to_u16
evaluate_auth s opt (p₁ ∷ p₂ ∷ more) =
    let proto = of_be16 p₁ p₂ in
    let chap_number = protocol_to_u16 chap in
    if proto == chap_number && names_mschapv2 more
    then record s {
      lcp = record (s.lcp) {
        peer_auth = some (record { protocol = proto; algorithm = chap_algorithm_mschapv2 });
      };
    }
    else push_nak
        (record {
          kind = opt_auth_protocol;
          value = as_u8 (chap_number / 256) ∷ as_u8 chap_number ∷ chap_algorithm_mschapv2 ∷ [];
        })
        s
evaluate_auth s opt _ = push_reject opt s

unfoldable pub evaluate_option : (ℕ → ℕ) → Evaluation → Opt → Evaluation
unfolding evaluate_magic evaluate_auth push_reject
evaluate_option fresh s opt =
    if opt.kind == opt_magic_number
    then evaluate_magic fresh s opt opt.value
    else if opt.kind == opt_auth_protocol
    then evaluate_auth s opt opt.value
    else if opt.kind == opt_pfc
        || opt.kind == opt_acfc
        || opt.kind == opt_mru
        || opt.kind == opt_accm
    then s
    else push_reject opt s

unfoldable pub evaluate_from : (ℕ → ℕ) → Evaluation → List Opt → Evaluation
evaluate_from fresh s [] = s
evaluate_from fresh s (opt ∷ opts) = evaluate_from fresh (evaluate_option fresh s opt) opts

unfoldable pub evaluate_peer_options : (ℕ → ℕ) → Lcp → List Opt → Evaluation
unfolding evaluate_from
evaluate_peer_options fresh l opts =
    evaluate_from fresh (record { lcp = l; nak = []; reject = []; drawn = 0 }) opts

-- `s.kind == OPT_MAGIC_NUMBER && s.data.len() == 4`.
pub adopt_magic : ℕ → Bytes → Lcp → Lcp
adopt_magic kind (a ∷ b ∷ c ∷ d ∷ []) l =
    if kind == opt_magic_number then record l { magic = of_be32 a b c d } else l
adopt_magic kind _ l = l

pub apply_nak : Lcp → List Opt → Lcp
unfolding adopt_magic
apply_nak l [] = l
apply_nak l (s ∷ suggested) =
    apply_nak
      (adopt_magic s.kind s.value (record l { desired = set_value s.kind s.value l.desired }))
      suggested

pub apply_reject : Lcp → List Opt → Lcp
apply_reject l rejected = record l { desired = without rejected l.desired }

-- `self.last_sent_id == Some(frame.id)`.
abbrev pub is_sent_id : Option ℕ → ℕ → Bool
is_sent_id none id = false
is_sent_id (some sent) id = sent == id

-- The answer to a Configure-Request once its options are evaluated.
answer_request : Frame → Evaluation → Lcp × List Bytes
answer_request frame s =
    if not (is_empty s.reject)
    then (
      record (s.lcp) { remote_up = false },
      encode configure_reject frame.id (encode_options s.reject) ∷ [],
    )
    else if not (is_empty s.nak)
    then (
      record (s.lcp) { remote_up = false },
      encode configure_nak frame.id (encode_options s.nak) ∷ [],
    )
    else (record (s.lcp) { remote_up = true }, encode configure_ack frame.id frame.payload ∷ [])

resend : Lcp → Lcp × List Bytes
unfolding send_config_request
resend l = let (l', wire) = send_config_request (record l { local_up = false }) in (l', wire ∷ [])

-- The `match` on the code of a frame.
unfoldable pub receive_frame : (ℕ → ℕ) → Lcp → Code → Frame → Lcp × List Bytes
unfolding answer_request resend apply_reject
receive_frame fresh l configure_request frame =
    answer_request frame (evaluate_peer_options fresh l (decode_options frame.payload))
receive_frame fresh l configure_ack frame =
    (if is_sent_id l.last_sent_id frame.id then record l { local_up = true } else l, [])
receive_frame fresh l configure_nak frame =
    if is_sent_id l.last_sent_id frame.id
    then resend (apply_nak l (decode_options frame.payload))
    else (l, [])
receive_frame fresh l configure_reject frame =
    if is_sent_id l.last_sent_id frame.id
    then resend (apply_reject l (decode_options frame.payload))
    else (l, [])
receive_frame fresh l echo_request frame =
    let echoed = if ltb 4 (length frame.payload) then drop 4 frame.payload else [] in
    (l, encode echo_reply frame.id (be32 l.magic ++ echoed) ∷ [])
receive_frame fresh l terminate_request frame =
    (record l { local_up = false; remote_up = false }, encode terminate_ack frame.id [] ∷ [])
receive_frame fresh l _ frame = (l, [])

unfoldable pub receive : (ℕ → ℕ) → Lcp → Bytes → Lcp × LcpResult
receive fresh l bytes = elim (decode bytes) [
  | none ↦ (l, record { to_send = []; up = is_up l })
  | some frame ↦
      let (l', sent) = receive_frame fresh l frame.code frame in
      (l', record { to_send = sent; up = is_up l' })
]

unfoldable pub build_protocol_reject : Lcp → Bytes → Lcp × Bytes
build_protocol_reject l rejected =
    let id = as_u8 (l.identifier + 1) in
    (record l { identifier = id }, encode protocol_reject id rejected)
