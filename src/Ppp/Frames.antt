-- ===== src/Ppp/Frames.antt =====
-- `encode` and `decode` of ppp.rs.
use mac_os_sstp_client.Prelude.{
  ◌/◌, ◌%◌, ◌<◌, ◌≡◌, ◌≢◌, refl, arith, ◌++◌, some, Bytes, be16, of_be16,
}
use mac_os_sstp_client.Ppp.{
  Protocol, unknown, protocol_to_u16, protocol_from_u16, strip_address_control, encode, decode,
}

-- A value that `from_u16` yields: `Unknown` only on a number without a name.
abbrev pub IsProtocol : Protocol → Type 0
IsProtocol (unknown v) =
    (v < 65536) × (v ≢ 0x0021) × (v ≢ 0xC021) × (v ≢ 0xC023) × (v ≢ 0xC223) × (v ≢ 0x8021)
IsProtocol _ = Unit {0}

pub protocol_from_u16-to_u16 :
    (p : Protocol) → IsProtocol p → protocol_from_u16 (protocol_to_u16 p) ≡ p
unfolding protocol_from_u16 protocol_to_u16
protocol_from_u16-to_u16 (unknown v) h = ground arith
protocol_from_u16-to_u16 _ h = refl

of_be16-protocol :
    (p : Protocol) → of_be16 (protocol_to_u16 p / 256) (protocol_to_u16 p % 256) ≡ protocol_to_u16 p
of_be16-protocol p = omega arith

-- A frame is decoded to the protocol and the payload that it was built from, if an `Unknown`
-- protocol has a 16-bit number without a name.
pub ppp_decode-encode :
    (p : Protocol) (payload : Bytes) → IsProtocol p → decode (encode p payload) ≡ some (p, payload)
unfolding decode encode strip_address_control
ppp_decode-encode p payload h = rw (of_be16-protocol p, protocol_from_u16-to_u16 p h)

-- The same frame without its Address/Control prefix is decoded alike, provided that an
-- `Unknown` protocol has a 16-bit number without a name, and the number is not 0xFF03.
pub decode_bare :
    (p : Protocol) (payload : Bytes)
    → IsProtocol p
    → protocol_to_u16 p ≢ 0xFF03
    → decode (be16 (protocol_to_u16 p) ++ payload) ≡ some (p, payload)
unfolding decode strip_address_control
decode_bare p payload h n = ground (arith, of_be16-protocol p, protocol_from_u16-to_u16 p h)
