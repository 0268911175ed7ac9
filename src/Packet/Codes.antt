-- ===== src/Packet/Codes.antt =====
-- The numbers of packet.rs's two enums.
use mac_os_sstp_client.Prelude.{ℕ, ◌≡◌, ◌<◌, ◌⊎◌, refl, arith}
use mac_os_sstp_client.Packet.{
  MsgType, AttrType, msg_type_to_u16, msg_type_from_u16, attr_type_to_u8, attr_type_from_u8,
}

-- A value that `from_u16` yields: `Unknown` only on a number without a name.
abbrev pub IsMsgType : MsgType → Type 0
IsMsgType (MsgType.unknown v) = ((v ≡ 0) ⊎ (9 < v)) × (v < 65536)
IsMsgType _ = Unit {0}

abbrev pub IsAttrType : AttrType → Type 0
IsAttrType (AttrType.unknown v) = (4 < v) × (v < 256)
IsAttrType _ = Unit {0}

pub msg_type_from_u16-to_u16 :
    (m : MsgType) → IsMsgType m → msg_type_from_u16 (msg_type_to_u16 m) ≡ m
unfolding msg_type_from_u16 msg_type_to_u16
msg_type_from_u16-to_u16 (MsgType.unknown v) h = ground arith
msg_type_from_u16-to_u16 _ h = refl

pub msg_type_to_u16-lt : (m : MsgType) → IsMsgType m → msg_type_to_u16 m < 65536
unfolding msg_type_to_u16
msg_type_to_u16-lt (MsgType.unknown v) h = h.1
msg_type_to_u16-lt _ h = omega arith

pub msg_type_to_u16-from_u16 : (v : ℕ) → msg_type_to_u16 (msg_type_from_u16 v) ≡ v
unfolding msg_type_from_u16 msg_type_to_u16
msg_type_to_u16-from_u16 v = ground arith

pub attr_type_from_u8-to_u8 :
    (t : AttrType) → IsAttrType t → attr_type_from_u8 (attr_type_to_u8 t) ≡ t
unfolding attr_type_from_u8 attr_type_to_u8
attr_type_from_u8-to_u8 (AttrType.unknown v) h = ground arith
attr_type_from_u8-to_u8 _ h = refl

pub attr_type_to_u8-from_u8 : (v : ℕ) → attr_type_to_u8 (attr_type_from_u8 v) ≡ v
unfolding attr_type_from_u8 attr_type_to_u8
attr_type_to_u8-from_u8 v = ground arith
