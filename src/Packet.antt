-- ===== src/Packet.antt =====
-- sstp-proto/src/packet.rs: SSTP framing. A packet is a 4-byte header (version, flags, 16-bit
-- length of the whole packet), then a raw PPP frame, or a control header (message type, number
-- of attributes) and attributes with a 4-byte header each.
pub mod Codes
pub mod RoundTrip
pub mod Prefix
pub mod Reader
use mac_os_sstp_client.Prelude.{
  ℕ, zero, suc, ◌+◌, ◌-◌, bit_and, Bool, not, ◌||◌, List, [], ◌∷◌, ◌++◌, String, Option, none, some,
  Result, ok, err, ◌>>=◌, length, take, drop, find, ltb, ◌==◌, if◌then◌else◌, Bytes, be16, of_be16,
  of_be32, as_u16, true, false,
}

pub data MsgType : Type 0 where
  connect_request connect_ack connect_nak connected abort : MsgType
  disconnect disconnect_ack echo_request echo_reply : MsgType
  unknown : ℕ → MsgType

pub data AttrType : Type 0 where
  no_error encap_protocol status_info crypto_bind crypto_bind_request : AttrType
  unknown : ℕ → AttrType

unfoldable pub msg_type_to_u16 : MsgType → ℕ
msg_type_to_u16 connect_request = 1
msg_type_to_u16 connect_ack = 2
msg_type_to_u16 connect_nak = 3
msg_type_to_u16 connected = 4
msg_type_to_u16 abort = 5
msg_type_to_u16 disconnect = 6
msg_type_to_u16 disconnect_ack = 7
msg_type_to_u16 echo_request = 8
msg_type_to_u16 echo_reply = 9
msg_type_to_u16 (MsgType.unknown v) = v

unfoldable pub msg_type_from_u16 : ℕ → MsgType
msg_type_from_u16 v =
    if v == 1
    then connect_request
    else if v == 2
    then connect_ack
    else if v == 3
    then connect_nak
    else if v == 4
    then connected
    else if v == 5
    then abort
    else if v == 6
    then disconnect
    else if v == 7
    then disconnect_ack
    else if v == 8
    then echo_request
    else if v == 9
    then echo_reply
    else MsgType.unknown v

unfoldable pub attr_type_to_u8 : AttrType → ℕ
attr_type_to_u8 no_error = 0
attr_type_to_u8 encap_protocol = 1
attr_type_to_u8 status_info = 2
attr_type_to_u8 crypto_bind = 3
attr_type_to_u8 crypto_bind_request = 4
attr_type_to_u8 (AttrType.unknown v) = v

unfoldable pub attr_type_from_u8 : ℕ → AttrType
attr_type_from_u8 v =
    if v == 0
    then no_error
    else if v == 1
    then encap_protocol
    else if v == 2
    then status_info
    else if v == 3
    then crypto_bind
    else if v == 4
    then crypto_bind_request
    else AttrType.unknown v

-- `a.attr_type == AttrType::StatusInfo`, `a.attr_type == AttrType::CryptoBindRequest`.
abbrev pub is_status_info : AttrType → Bool
is_status_info status_info = true
is_status_info _ = false

abbrev pub is_crypto_bind_request : AttrType → Bool
is_crypto_bind_request crypto_bind_request = true
is_crypto_bind_request _ = false

pub record Attr : Type 0 where
  pub attr_type : AttrType
  pub value : Bytes

pub data Packet : Type 0 where
  data_packet : Bytes → Packet
  ctrl : MsgType → List Attr → Packet

pub data DecodeError : Type 0 where
  incomplete : DecodeError
  bad_version : ℕ → DecodeError
  malformed : String → DecodeError

abbrev pub proto_version : ℕ
proto_version = 0x10

abbrev pub flag_ctrl : ℕ
flag_ctrl = 0x01

unfoldable pub status_reason : ℕ → String
status_reason code =
    if code == 0x01
    then "Received Duplicate Attribute"
    else if code == 0x02
    then "Unrecognized Attribute"
    else if code == 0x03
    then "Invalid Attribute Length"
    else if code == 0x04
    then "Value of attribute is incorrect"
    else if code == 0x09
    then "Attribute is invalid or not supported"
    else if code == 0x0a
    then "Attribute is missing"
    else if code == 0x0b
    then "Invalid info attribute"
    else "Unknown Status Attribute"

-- The two texts that `describe_status` formats, with what they print.
pub data StatusText : Type 0 where
  malformed_status : Bytes → StatusText
  described : String → ℕ → ℕ → StatusText

-- On an attribute with 8 bytes at least: byte 3 names an attribute, bytes 4 to 8 are the code.
describe_attr : Bytes → StatusText
unfolding status_reason
describe_attr (a ∷ b ∷ c ∷ referenced ∷ c₁ ∷ c₂ ∷ c₃ ∷ c₄ ∷ rest) =
    let code = of_be32 c₁ c₂ c₃ c₄ in described (status_reason code) code referenced
describe_attr bytes = malformed_status bytes

unfoldable pub describe_status : List Attr → Option StatusText
unfolding describe_attr
describe_status attrs = elim (find (λ a. is_status_info a.attr_type) attrs) [
  | none ↦ none
  | some attr ↦ some (describe_attr attr.value)
]

-- `total_len as u16` wraps.
unfoldable pub encode_data : Bytes → Bytes
encode_data frame = proto_version ∷ 0 ∷ be16 (as_u16 (4 + length frame)) ++ frame

unfoldable pub encode_attrs : List (AttrType × Bytes) → Bytes
encode_attrs [] = []
encode_attrs ((t, value) ∷ attrs) =
    0 ∷ attr_type_to_u8 t ∷ be16 (as_u16 (4 + length value)) ++ (value ++ encode_attrs attrs)

-- The length field is filled in last in the source, from the length of all that was pushed.
unfoldable pub encode_ctrl : MsgType → List (AttrType × Bytes) → Bytes
unfolding encode_attrs
encode_ctrl msg_type attrs =
    let body = encode_attrs attrs in
    proto_version ∷ flag_ctrl ∷ be16 (as_u16 (8 + length body))
    ++ (be16 (msg_type_to_u16 msg_type) ++ (be16 (as_u16 (length attrs)) ++ body))

-- The loop over `nattr`. The bytes are those between `pos` and `length`, so that `pos + 4 > length`
-- is the catch-all, and `pos + attr_len > length` compares with what is left.
decode_attrs : ℕ → Bytes → Result DecodeError (List Attr)
decode_attrs zero body = ok []
decode_attrs (suc n) (reserved ∷ t ∷ l₁ ∷ l₂ ∷ rest) =
    let attr_len = of_be16 l₁ l₂ in
    let more = decode_attrs n (drop (attr_len - 4) rest) in
    if ltb attr_len 4 || ltb (4 + length rest) attr_len
    then err (malformed "attribute length invalid or runs past packet end")
    else more >>= λ attrs.
        ok (record { attr_type = attr_type_from_u8 t; value = take (attr_len - 4) rest } ∷ attrs)
decode_attrs (suc n) _ = err (malformed "attribute header runs past packet end")

-- A control packet behind its header: `length < 8` is the catch-all.
pub decode_ctrl : Bytes → Result DecodeError Packet
decode_ctrl (m₁ ∷ m₂ ∷ n₁ ∷ n₂ ∷ body) = decode_attrs (of_be16 n₁ n₂) body >>= λ attrs.
    ok (ctrl (msg_type_from_u16 (of_be16 m₁ m₂)) attrs)
decode_ctrl _ = err (malformed "control packet shorter than control header")

unfoldable pub decode : Bytes → Result DecodeError Packet
unfolding decode_attrs decode_ctrl
decode (version ∷ flags ∷ l₁ ∷ l₂ ∷ rest) =
    let len = of_be16 l₁ l₂ in
    if not (version == proto_version)
    then err (bad_version version)
    else if ltb len 4
    then err (malformed "header length smaller than header itself")
    else if ltb (4 + length rest) len
    then err incomplete
    else if bit_and flags flag_ctrl == 0
    then ok (data_packet (take (len - 4) rest))
    else decode_ctrl (take (len - 4) rest)
decode _ = err incomplete
