-- ===== src/Cmac/Binding.antt =====
-- The CONNECTED message of cmac.rs as the server reads it.
use mac_os_sstp_client.Prelude.{
  ℕ, ◌+◌, ◌-◌, ◌≡◌, refl, sym, ap, ◌∙◌, arith, [], ◌∷◌, ◌++◌, append_assoc, append-nil, ◌≤◌, ◌<◌,
  length-replicate, length, take, drop, replicate, take-length, drop-length, length-append, Bytes,
  ok,
}
use mac_os_sstp_client.Prelude.Crypto.{Crypto}
use mac_os_sstp_client.Packet.{
  connected, crypto_bind, encode_ctrl, encode_attrs, msg_type_to_u16, attr_type_to_u8, decode, ctrl,
}
use mac_os_sstp_client.Packet.RoundTrip.{decode-encode_ctrl}
use mac_os_sstp_client.Cmac.{
  HashAlgo, sha1, sha256, digest_len_byte, wire_byte, attr_data, patch, hmac, compound_mac,
  build_connected_message,
}

-- The attribute with a MAC in its place, padded to 32 bytes.
abbrev pub bound_data : HashAlgo → Bytes → Bytes → Bytes → Bytes
bound_data algo nonce cert_hash32 mac =
    0 ∷ 0 ∷ 0 ∷ wire_byte algo ∷ nonce ++ (cert_hash32 ++ (mac ++ replicate (32 - length mac) 0))

length-compound_mac :
    (c : Crypto) (algo : HashAlgo) (send_key recv_key m : Bytes)
    → length (compound_mac c algo send_key recv_key m) ≡ digest_len_byte algo
unfolding compound_mac hmac
length-compound_mac c sha1 send_key recv_key m = c.length-hmac_sha1 _ m
length-compound_mac c sha256 send_key recv_key m = c.length-hmac_sha256 _ m

front :
    (nonce cert zeros : Bytes)
    → length nonce ≡ 32
    → length cert ≡ 32
    → take 64 (nonce ++ (cert ++ zeros)) ≡ nonce ++ cert
front nonce cert zeros hn hc =
    let n : 64 ≡ length (nonce ++ cert) = omega (arith, length-append nonce cert) in
    rw (n, ← append_assoc nonce cert zeros) (take-length (nonce ++ cert) zeros)

behind :
    (nonce cert z rest : Bytes) (n : ℕ)
    → n ≡ length (nonce ++ (cert ++ z))
    → drop n (nonce ++ (cert ++ (z ++ rest))) ≡ rest
behind nonce cert z rest n h =
    rw (h, ← append_assoc cert z rest, ← append_assoc nonce (cert ++ z) rest)
      (drop-length (nonce ++ (cert ++ z)) rest)

-- The message with an attribute of 100 bytes.
abbrev header : Bytes
header = 0x10 ∷ 1 ∷ 0 ∷ 112 ∷ 0 ∷ 4 ∷ 0 ∷ 1 ∷ 0 ∷ 3 ∷ 0 ∷ 104 ∷ []

message :
    (value : Bytes)
    → length value ≡ 100
    → encode_ctrl connected ((crypto_bind, value) ∷ []) ≡ header ++ value
unfolding encode_ctrl encode_attrs msg_type_to_u16 attr_type_to_u8
message value h =
    let n : length (value ++ []) ≡ 100 = ap (λ xs. length xs) (append-nil value) ∙ h in
    rw (append-nil value, h) refl

length-attr_data :
    (algo : HashAlgo) (nonce cert : Bytes)
    → length nonce ≡ 32
    → length cert ≡ 32
    → length (attr_data algo nonce cert) ≡ 100
length-attr_data algo nonce cert hn hc =
    omega (arith, length-append nonce (cert ++ replicate 32 0), length-append cert (replicate 32 0))

length-bound_data :
    (algo : HashAlgo) (nonce cert mac : Bytes)
    → length nonce ≡ 32
    → length cert ≡ 32
    → length mac ≤ 32
    → length (bound_data algo nonce cert mac) ≡ 100
length-bound_data algo nonce cert mac hn hc hm =
    let zeros : Bytes = replicate (32 - length mac) 0 in
    omega (
      arith,
      length-append nonce (cert ++ (mac ++ zeros)),
      length-append cert (mac ++ zeros),
      length-append mac zeros,
      length-replicate {A = ℕ} (32 - length mac) 0,
    )

patch_lem :
    (algo : HashAlgo) (nonce cert mac : Bytes) (k : ℕ)
    → length nonce ≡ 32
    → length cert ≡ 32
    → length mac ≡ k
    → drop (80 + k) (header ++ attr_data algo nonce cert) ≡ replicate (32 - k) 0
    → patch 80 mac (header ++ attr_data algo nonce cert) ≡ header ++ bound_data algo nonce cert mac
unfolding patch
patch_lem algo nonce cert mac k hn hc hm hd =
    rw (hm, hd, front nonce cert (replicate 32 0) hn hc)
      (rw (append_assoc nonce cert (mac ++ replicate (32 - k) 0)) refl)

dropped :
    (algo : HashAlgo) (nonce cert : Bytes)
    → length nonce ≡ 32
    → length cert ≡ 32
    → drop (80 + digest_len_byte algo) (header ++ attr_data algo nonce cert)
      ≡ replicate (32 - digest_len_byte algo) 0
dropped sha1 nonce cert hn hc =
    let z : Bytes = replicate 20 0 in
    behind nonce cert z (replicate 12 0) 84
      (omega (arith, length-append nonce (cert ++ z), length-append cert z))
dropped sha256 nonce cert hn hc =
    let z : Bytes = replicate 32 0 in
    behind nonce cert z [] 96 (omega (arith, length-append nonce (cert ++ z), length-append cert z))

digest_len_byte_le : (algo : HashAlgo) → digest_len_byte algo ≤ 32
digest_len_byte_le sha1 = omega arith
digest_len_byte_le sha256 = omega arith

-- The message that is sent carries the MAC of the blank one.
build_connected_message_lem :
    (c : Crypto) (algo : HashAlgo) (nonce cert send_key recv_key : Bytes)
    → length nonce ≡ 32
    → length cert ≡ 32
    → build_connected_message c algo nonce cert send_key recv_key
      ≡ header
        ++ bound_data algo nonce cert (
            compound_mac c algo send_key recv_key
              (encode_ctrl connected ((crypto_bind, attr_data algo nonce cert) ∷ [])))
unfolding build_connected_message
build_connected_message_lem c algo nonce cert send_key recv_key hn hc =
    let blank = encode_ctrl connected ((crypto_bind, attr_data algo nonce cert) ∷ []) in
    let mac = compound_mac c algo send_key recv_key blank in
    ap (patch 80 mac) (message (attr_data algo nonce cert) (length-attr_data algo nonce cert hn hc))
    ∙ patch_lem algo nonce cert mac (digest_len_byte algo) hn hc
        (length-compound_mac c algo send_key recv_key blank) (dropped algo nonce cert hn hc)

-- For a nonce and a certificate hash of 32 bytes, the CONNECTED message is decoded, by the decoder
-- of packet.rs, to one crypto-bind attribute with the hash algorithm, the nonce, the certificate's
-- hash and, padded with zeros to 32 bytes, the Compound MAC of the message that carries zeros in
-- the MAC's place.
pub decode-build_connected_message :
    (c : Crypto) (algo : HashAlgo) (nonce cert_hash32 send_key recv_key more : Bytes)
    → length nonce ≡ 32
    → length cert_hash32 ≡ 32
    → let blank = encode_ctrl connected ((crypto_bind, attr_data algo nonce cert_hash32) ∷ []) in
      let mac = compound_mac c algo send_key recv_key blank in
      decode (build_connected_message c algo nonce cert_hash32 send_key recv_key ++ more)
      ≡ ok (
          ctrl connected (
            record { attr_type = crypto_bind; value = bound_data algo nonce cert_hash32 mac } ∷ []))
unfolding build_connected_message
decode-build_connected_message c algo nonce cert_hash32 send_key recv_key more hn hc =
    let blank = encode_ctrl connected ((crypto_bind, attr_data algo nonce cert_hash32) ∷ []) in
    let mac = compound_mac c algo send_key recv_key blank in
    let value = bound_data algo nonce cert_hash32 mac in
    let hb : length value ≡ 100 = length-bound_data algo nonce cert_hash32 mac hn hc (
      omega (arith, length-compound_mac c algo send_key recv_key blank, digest_len_byte_le algo)) in
    let e : build_connected_message c algo nonce cert_hash32 send_key recv_key
        ≡ encode_ctrl connected ((crypto_bind, value) ∷ []) =
      build_connected_message_lem c algo nonce cert_hash32 send_key recv_key hn hc
      ∙ sym (message value hb) in
    let size : length (encode_ctrl connected ((crypto_bind, value) ∷ [])) < 65536 =
      omega (arith, ap (λ xs. length xs) (message value hb)) in
    rw e (decode-encode_ctrl connected ((crypto_bind, value) ∷ []) more tt (tt, tt) size)
