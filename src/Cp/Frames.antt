-- ===== src/Cp/Frames.antt =====
-- `encode` and `decode` of cp.rs.
use mac_os_sstp_client.Prelude.{
  ℕ, ◌+◌, ◌-◌, ◌/◌, ◌%◌, ◌≤◌, ◌<◌, ◌≡◌, ◌⊎◌, refl, arith, [], ◌∷◌, ◌++◌, some, Bytes, of_be16,
  as_u16, AreBytes, length, take, take-length, length-append, length-take,
}
use mac_os_sstp_client.Cp.{Code, unknown, code_to_u8, code_from_u8, Frame, encode, decode}

-- A value that `from_u8` yields: `Unknown` only on a number without a name.
abbrev pub IsCode : Code → Type 0
IsCode (unknown v) = (v ≡ 0) ⊎ (11 < v)
IsCode _ = Unit {0}

pub code_from_u8-to_u8 : (c : Code) → IsCode c → code_from_u8 (code_to_u8 c) ≡ c
unfolding code_from_u8 code_to_u8
code_from_u8-to_u8 (unknown v) h = ground arith
code_from_u8-to_u8 _ h = refl

take_payload : (xs ys : Bytes) → take (4 + length xs - 4) (xs ++ ys) ≡ xs
take_payload xs ys = let e : 4 + length xs - 4 ≡ length xs = omega arith in rw e (take-length xs ys)

of_be16-be16 : (n : ℕ) → n < 65536 → of_be16 (as_u16 n / 256) (as_u16 n % 256) ≡ n
of_be16-be16 n h = omega arith

-- A frame whose length fits 16 bits, and whose code is no `Unknown` of a named number, is decoded
-- to its code, identifier and payload; bytes behind the frame are ignored.
pub cp_decode-encode :
    (c : Code) (id : ℕ) (payload more : Bytes)
    → IsCode c
    → 4 + length payload < 65536
    → decode (encode c id payload ++ more) ≡ some (record { code = c; id = id; payload = payload })
unfolding decode encode
cp_decode-encode c id payload more hc h =
    rw (of_be16-be16 (4 + length payload) h, take_payload payload more, code_from_u8-to_u8 c hc)
      (ground (arith, length-append payload more))

-- The payload of a decoded frame and its 4-byte header fit the buffer and the 16-bit length.
pub decode-fits :
    (buf : Bytes) {f : Frame}
    → AreBytes buf
    → decode buf ≡ some f
    → (4 + length f.payload ≤ length buf) × (4 + length f.payload < 65536)
unfolding decode
decode-fits (c ∷ id ∷ a ∷ b ∷ rest) v h = ground (arith, length-take (of_be16 a b - 4) rest)
decode-fits [] v h = cc
decode-fits (_ ∷ []) v h = cc
decode-fits (_ ∷ _ ∷ []) v h = cc
decode-fits (_ ∷ _ ∷ _ ∷ []) v h = cc
