-- ===== src/Packet/RoundTrip.antt =====
-- What `encode_data` and `encode_ctrl` of packet.rs write, under `decode`.
use mac_os_sstp_client.Prelude.{
  ℕ, ◌+◌, ◌-◌, ◌/◌, ◌%◌, ◌≤◌, ◌<◌, ◌≡◌, refl, arith, List, [], ◌∷◌, ◌++◌, ok, length, take, drop,
  All, bit_and, length-append, take-length, drop-length, if◌then◌else◌, Bytes, be16, of_be16,
  as_u16, ◌==◌,
}
use mac_os_sstp_client.Packet.{
  MsgType, AttrType, Attr, Packet, data_packet, ctrl, msg_type_to_u16, encode_data, encode_ctrl,
  encode_attrs, decode_attrs, decode_ctrl, decode, proto_version, flag_ctrl,
}
use mac_os_sstp_client.Packet.Codes.{
  IsMsgType, IsAttrType, msg_type_from_u16-to_u16, attr_type_from_u8-to_u8,
}

-- What the receiver sees of the attributes that were sent.
abbrev pub received : List (AttrType × Bytes) → List Attr
received [] = []
received ((t, value) ∷ attrs) = record { attr_type = t; value = value } ∷ received attrs

abbrev pub HasAttrType : AttrType × Bytes → Type 0
HasAttrType (t, value) = IsAttrType t

of_be16-be16 : (n : ℕ) → n < 65536 → of_be16 (as_u16 n / 256) (as_u16 n % 256) ≡ n
of_be16-be16 n h = omega arith

take_payload : (n : ℕ) (xs ys : Bytes) → take (n + length xs - n) (xs ++ ys) ≡ xs
take_payload n xs ys =
    let e : n + length xs - n ≡ length xs = omega arith in rw e (take-length xs ys)

drop_payload : (n : ℕ) (xs ys : Bytes) → drop (n + length xs - n) (xs ++ ys) ≡ ys
drop_payload n xs ys =
    let e : n + length xs - n ≡ length xs = omega arith in rw e (drop-length xs ys)

-- A packet whose length field is right is cut off at its end, whatever follows.
pub decode_framed :
    (flags : ℕ) (payload more : Bytes)
    → 4 + length payload < 65536
    → decode (proto_version ∷ flags ∷ be16 (as_u16 (4 + length payload)) ++ (payload ++ more))
      ≡ (if bit_and flags flag_ctrl == 0 then ok (data_packet payload) else decode_ctrl payload)
unfolding decode
decode_framed flags payload more h =
    rw (of_be16-be16 (4 + length payload) h, take_payload 4 payload more)
      (ground (arith, length-append payload more))

pub length-encode_data : (frame : Bytes) → length (encode_data frame) ≡ 4 + length frame
unfolding encode_data
length-encode_data frame = omega arith

-- A data packet of at most 65535 bytes is decoded to the frame that it carries, whatever bytes
-- stand behind it in the buffer.
pub decode-encode_data :
    (frame more : Bytes)
    → 4 + length frame < 65536
    → decode (encode_data frame ++ more) ≡ ok (data_packet frame)
unfolding encode_data
decode-encode_data frame more h = decode_framed 0 frame more h

decode_attrs-encode_attrs :
    (attrs : List (AttrType × Bytes))
    → All HasAttrType attrs
    → length (encode_attrs attrs) < 65536
    → decode_attrs (length attrs) (encode_attrs attrs) ≡ ok (received attrs)
unfolding decode_attrs encode_attrs
decode_attrs-encode_attrs [] v h = refl
decode_attrs-encode_attrs ((t, value) ∷ attrs) v h =
    let fits : length value + length (encode_attrs attrs) + 4 < 65536 =
      omega (arith, length-append value (encode_attrs attrs)) in
    rw
      (
        of_be16-be16 (4 + length value) (omega arith),
        take_payload 4 value (encode_attrs attrs),
        drop_payload 4 value (encode_attrs attrs),
        decode_attrs-encode_attrs attrs v.1 (omega arith),
        attr_type_from_u8-to_u8 t v.0,
      )
      (ground (arith, length-append value (encode_attrs attrs)))

length-attrs-le : (attrs : List (AttrType × Bytes)) → length attrs ≤ length (encode_attrs attrs)
unfolding encode_attrs
length-attrs-le [] = omega arith
length-attrs-le ((t, value) ∷ attrs) =
    omega (arith, length-append value (encode_attrs attrs), length-attrs-le attrs)

pub length-encode_ctrl :
    (m : MsgType) (attrs : List (AttrType × Bytes))
    → length (encode_ctrl m attrs) ≡ 8 + length (encode_attrs attrs)
unfolding encode_ctrl
length-encode_ctrl m attrs = omega arith

decode_ctrl-payload :
    (m : MsgType) (attrs : List (AttrType × Bytes))
    → IsMsgType m
    → All HasAttrType attrs
    → length (encode_attrs attrs) < 65536
    → decode_ctrl (be16 (msg_type_to_u16 m) ++ (be16 (as_u16 (length attrs)) ++ encode_attrs attrs))
      ≡ ok (ctrl m (received attrs))
unfolding decode_ctrl
decode_ctrl-payload m attrs hm ha h =
    let code : of_be16 (msg_type_to_u16 m / 256) (msg_type_to_u16 m % 256) ≡ msg_type_to_u16 m =
      omega arith in
    rw (
      of_be16-be16 (length attrs) (omega (arith, length-attrs-le attrs)),
      decode_attrs-encode_attrs attrs ha h,
      code,
      msg_type_from_u16-to_u16 m hm,
    )

-- A control packet of at most 65535 bytes is decoded to its type and its attributes, in order,
-- whatever bytes stand behind it in the buffer.
pub decode-encode_ctrl :
    (m : MsgType) (attrs : List (AttrType × Bytes)) (more : Bytes)
    → IsMsgType m
    → All HasAttrType attrs
    → length (encode_ctrl m attrs) < 65536
    → decode (encode_ctrl m attrs ++ more) ≡ ok (ctrl m (received attrs))
unfolding encode_ctrl
decode-encode_ctrl m attrs more hm ha h =
    let payload : Bytes =
      be16 (msg_type_to_u16 m) ++ (be16 (as_u16 (length attrs)) ++ encode_attrs attrs) in
    let same : 8 + length (encode_attrs attrs) ≡ 4 + length payload = omega arith in
    let fits : 4 + length payload < 65536 = omega arith in
    rw (same, decode_framed 1 payload more fits) (decode_ctrl-payload m attrs hm ha (omega arith))

-- The two kinds of packet that the client writes, with what is on the wire and what a receiver
-- that decodes it sees.
pub data Outgoing : Type 0 where
  out_data : Bytes → Outgoing
  out_ctrl : MsgType → List (AttrType × Bytes) → Outgoing

abbrev pub wire : Outgoing → Bytes
wire (out_data frame) = encode_data frame
wire (out_ctrl m attrs) = encode_ctrl m attrs

abbrev pub seen : Outgoing → Packet
seen (out_data frame) = data_packet frame
seen (out_ctrl m attrs) = ctrl m (received attrs)

-- What fits the 16-bit length field and uses numbers that the enums do not name twice.
abbrev pub Fits : Outgoing → Type 0
Fits (out_data frame) = 4 + length frame < 65536
Fits (out_ctrl m attrs) =
    IsMsgType m × All HasAttrType attrs × (length (encode_ctrl m attrs) < 65536)

-- A packet that was written, fits its length field and has no `Unknown` type of a named number is
-- decoded to what was sent, its type, its attributes and their order included, whatever bytes
-- stand behind it in the buffer.
pub decode-wire : (o : Outgoing) (more : Bytes) → Fits o → decode (wire o ++ more) ≡ ok (seen o)
decode-wire (out_data frame) more h = decode-encode_data frame more h
decode-wire (out_ctrl m attrs) more h = decode-encode_ctrl m attrs more h.0 h.1 h.2
