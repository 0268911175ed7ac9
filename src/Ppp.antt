-- ===== src/Ppp.antt =====
-- sstp-proto/src/ppp.rs: the outermost PPP frame, an optional Address/Control prefix, a 16-bit
-- protocol number and the payload.
pub mod Frames
use mac_os_sstp_client.Prelude.{
  ℕ, [], ◌∷◌, ◌++◌, Option, none, some, ◌==◌, ◌&&◌, if◌then◌else◌, Bytes, be16, of_be16,
}

pub data Protocol : Type 0 where
  ip lcp pap chap ipcp : Protocol
  unknown : ℕ → Protocol

unfoldable pub protocol_to_u16 : Protocol → ℕ
protocol_to_u16 ip = 0x0021
protocol_to_u16 lcp = 0xC021
protocol_to_u16 pap = 0xC023
protocol_to_u16 chap = 0xC223
protocol_to_u16 ipcp = 0x8021
protocol_to_u16 (unknown v) = v

unfoldable pub protocol_from_u16 : ℕ → Protocol
protocol_from_u16 v =
    if v == 0x0021
    then ip
    else if v == 0xC021
    then lcp
    else if v == 0xC023
    then pap
    else if v == 0xC223
    then chap
    else if v == 0x8021
    then ipcp
    else unknown v

abbrev pub address_control : Bytes
address_control = 0xFF ∷ 0x03 ∷ []

unfoldable pub strip_address_control : Bytes → Bytes
strip_address_control (a ∷ c ∷ rest) = if a == 0xFF && c == 0x03 then rest else a ∷ c ∷ rest
strip_address_control frame = frame

unfoldable pub encode : Protocol → Bytes → Bytes
encode protocol payload = address_control ++ (be16 (protocol_to_u16 protocol) ++ payload)

split_protocol : Bytes → Option (Protocol × Bytes)
split_protocol (p₁ ∷ p₂ ∷ payload) = some (protocol_from_u16 (of_be16 p₁ p₂), payload)
split_protocol _ = none

unfoldable pub decode : Bytes → Option (Protocol × Bytes)
unfolding split_protocol
decode frame = split_protocol (strip_address_control frame)
