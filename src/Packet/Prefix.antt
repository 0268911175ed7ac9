-- ===== src/Packet/Prefix.antt =====
-- How `decode` of packet.rs behaves on a buffer that holds less or more than one packet.
use mac_os_sstp_client.Prelude.{
  ℕ, zero, suc, ◌+◌, ◌-◌, ◌≤◌, ◌<◌, ◌≡◌, ◌≢◌, inl, inr, refl, arith, [], ◌∷◌, ◌++◌, ok, err, length,
  drop, length-append, take-append, Bytes, of_be16, ltb, Bool-cases, append-nil,
}
use mac_os_sstp_client.Packet.{
  Packet, incomplete, encode_data, encode_ctrl, decode_attrs, decode_ctrl, decode,
}
use mac_os_sstp_client.Packet.RoundTrip.{
  Outgoing, out_data, out_ctrl, wire, seen, Fits, decode-wire,
}
use mathlib.Core.Path.{subst}

-- The length field of a packet header.
abbrev pub header_length : Bytes → ℕ
header_length (version ∷ flags ∷ l₁ ∷ l₂ ∷ rest) = of_be16 l₁ l₂
header_length _ = 0

-- A packet that is decoded has a length field of at least 4 that the buffer reaches.
pub decode-fits :
    (buf : Bytes) {p : Packet}
    → decode buf ≡ ok p
    → (4 ≤ header_length buf) × (header_length buf ≤ length buf)
unfolding decode
decode-fits (v ∷ f ∷ a ∷ b ∷ rest) h = ground arith
decode-fits [] h = cc
decode-fits (_ ∷ []) h = cc
decode-fits (_ ∷ _ ∷ []) h = cc
decode-fits (_ ∷ _ ∷ _ ∷ []) h = cc

decode_attrs_complete : (n : ℕ) (body : Bytes) → decode_attrs n body ≢ err incomplete
unfolding decode_attrs
decode_attrs_complete zero body h = cc
decode_attrs_complete (suc n) [] h = cc
decode_attrs_complete (suc n) (_ ∷ []) h = cc
decode_attrs_complete (suc n) (_ ∷ _ ∷ []) h = cc
decode_attrs_complete (suc n) (_ ∷ _ ∷ _ ∷ []) h = cc
decode_attrs_complete (suc n) (r ∷ t ∷ a ∷ b ∷ rest) h =
    ground (arith, decode_attrs_complete n (drop (of_be16 a b - 4) rest))

decode_ctrl_complete : (payload : Bytes) → decode_ctrl payload ≢ err incomplete
unfolding decode_ctrl
decode_ctrl_complete (a ∷ b ∷ c ∷ d ∷ body) h =
    ground (arith, decode_attrs_complete (of_be16 c d) body)
decode_ctrl_complete [] h = cc
decode_ctrl_complete (_ ∷ []) h = cc
decode_ctrl_complete (_ ∷ _ ∷ []) h = cc
decode_ctrl_complete (_ ∷ _ ∷ _ ∷ []) h = cc

-- Once `decode` has an answer other than "incomplete", more bytes do not change it.
pub decode-append :
    (buf more : Bytes) → decode buf ≢ err incomplete → decode (buf ++ more) ≡ decode buf
unfolding decode
decode-append [] more h = absurd (h refl)
decode-append (_ ∷ []) more h = absurd (h refl)
decode-append (_ ∷ _ ∷ []) more h = absurd (h refl)
decode-append (_ ∷ _ ∷ _ ∷ []) more h = absurd (h refl)
decode-append (v ∷ f ∷ a ∷ b ∷ rest) more h =
    elim (Bool-cases (ltb (4 + length rest) (of_be16 a b))) [
      | inl short ↦ ground (arith, length-append rest more)
      | inr whole ↦
          rw (take-append (of_be16 a b - 4) rest more (ground arith))
            (ground (arith, length-append rest more))
    ]

-- The front of a buffer that is decoded is "incomplete" when it is shorter than the length field
-- says.
pub decode_truncated :
    (front back : Bytes) {p : Packet}
    → decode (front ++ back) ≡ ok p
    → length front < header_length (front ++ back)
    → decode front ≡ err incomplete
unfolding decode
decode_truncated [] back h s = refl
decode_truncated (_ ∷ []) back h s = refl
decode_truncated (_ ∷ _ ∷ []) back h s = refl
decode_truncated (_ ∷ _ ∷ _ ∷ []) back h s = refl
decode_truncated (v ∷ f ∷ a ∷ b ∷ rest) back h s = ground arith

-- The length field of a packet that was written is its length.
pub header_length-wire : (o : Outgoing) → Fits o → header_length (wire o) ≡ length (wire o)
unfolding encode_data encode_ctrl
header_length-wire (out_data frame) h = omega arith
header_length-wire (out_ctrl m attrs) h = omega arith

prefix_shorter :
    (front back whole : Bytes) (x : ℕ) → whole ≡ front ++ (x ∷ back) → length front < length whole
prefix_shorter front back whole x e = rw e (omega (arith, length-append front (x ∷ back)))

-- A packet that was written, fits its length field and has no `Unknown` type of a named number is
-- "incomplete" when it is cut anywhere before its end: `decode` reports no other error and no
-- shorter packet.
pub decode_cut :
    (o : Outgoing) (front back : Bytes) (x : ℕ)
    → Fits o
    → wire o ≡ front ++ (x ∷ back)
    → decode front ≡ err incomplete
decode_cut o front back x h e =
    decode_truncated front (x ∷ back) {p = seen o} (rw (append-nil, e) at (decode-wire o [] h)) (
      subst (λ w. length front < header_length w) e
        (rw (header_length-wire o h) (prefix_shorter front back (wire o) x e)))
