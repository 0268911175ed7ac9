-- ===== src/Cmac.antt =====
-- sstp-proto/src/cmac.rs: the Compound MAC and the CONNECTED message that carries it.
pub mod Binding
use mac_os_sstp_client.Prelude.{ℕ, ◌+◌, [], ◌∷◌, ◌++◌, length, take, drop, replicate, Bytes}
use mac_os_sstp_client.Prelude.Crypto.{Crypto}
use mac_os_sstp_client.Packet.{connected, crypto_bind, encode_ctrl}

-- "SSTP inner method derived CMK"
abbrev pub seed : Bytes
seed =
    0x53 ∷ 0x53 ∷ 0x54 ∷ 0x50 ∷ 0x20 ∷ 0x69 ∷ 0x6e ∷ 0x6e ∷ 0x65 ∷ 0x72 ∷ 0x20 ∷ 0x6d ∷ 0x65 ∷ 0x74
    ∷ 0x68 ∷ 0x6f ∷ 0x64 ∷ 0x20 ∷ 0x64 ∷ 0x65 ∷ 0x72 ∷ 0x69 ∷ 0x76 ∷ 0x65 ∷ 0x64 ∷ 0x20 ∷ 0x43
    ∷ 0x4d ∷ 0x4b ∷ []

pub data HashAlgo : Type 0 where
  sha1 sha256 : HashAlgo

abbrev pub digest_len_byte : HashAlgo → ℕ
digest_len_byte sha1 = 20
digest_len_byte sha256 = 32

abbrev pub wire_byte : HashAlgo → ℕ
wire_byte sha1 = 0x01
wire_byte sha256 = 0x02

abbrev pub make_hlak : Bytes → Bytes → Bytes
make_hlak send_key recv_key = send_key ++ recv_key

-- `pkt[at..at + bytes.len()].copy_from_slice(bytes)`.
pub patch : ℕ → Bytes → Bytes → Bytes
patch at bytes pkt = take at pkt ++ (bytes ++ drop (at + length bytes) pkt)

abbrev pub mac_field_offset_in_packet : ℕ
mac_field_offset_in_packet = 4 + 4 + 4 + 68

-- The attribute: 3 zeros, the hash algorithm, the nonce, the certificate's hash, 32 zeros.
abbrev pub attr_data : HashAlgo → Bytes → Bytes → Bytes
attr_data algo nonce cert_hash32 =
    0 ∷ 0 ∷ 0 ∷ wire_byte algo ∷ nonce ++ (cert_hash32 ++ replicate 32 0)

module _ (c : Crypto) where
  hmac : HashAlgo → Bytes → Bytes → Bytes
  hmac sha1 = c.hmac_sha1
  hmac sha256 = c.hmac_sha256

  unfoldable pub compound_mac : HashAlgo → Bytes → Bytes → Bytes → Bytes
  unfolding hmac
  compound_mac algo send_key recv_key message =
      let derive_input = digest_len_byte algo ∷ 0 ∷ 1 ∷ [] in
      let t1 = hmac algo (make_hlak send_key recv_key) (seed ++ derive_input) in
      hmac algo t1 message

  unfoldable pub build_connected_message : HashAlgo → Bytes → Bytes → Bytes → Bytes → Bytes
  unfolding patch compound_mac
  build_connected_message algo nonce cert_hash32 send_key recv_key =
      let pkt = encode_ctrl connected ((crypto_bind, attr_data algo nonce cert_hash32) ∷ []) in
      let mac = compound_mac algo send_key recv_key pkt in patch mac_field_offset_in_packet mac pkt
