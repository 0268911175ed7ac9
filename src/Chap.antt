-- ===== src/Chap.antt =====
-- sstp-proto/src/chap.rs: the MS-CHAPv2 computations of RFC 2759.
pub mod Keys
use mac_os_sstp_client.Prelude.{
  ℕ, zero, suc, ◌+◌, ◌-◌, ◌*◌, ◌/◌, ◌%◌, ◌^◌, [], ◌∷◌, ◌++◌, take, drop, replicate, get_or, ltb,
  ◌==◌, if◌then◌else◌, Bytes, as_u8, bit_and, bit_or,
}
use mac_os_sstp_client.Prelude.Text.{Str, utf8, utf16le, after_last}
use mac_os_sstp_client.Prelude.Crypto.{Crypto}

abbrev pub backslash : ℕ
backslash = 0x5C

-- `count_ones` of a byte, bit by bit.
pub count_ones_below : ℕ → ℕ → ℕ
count_ones_below zero b = 0
count_ones_below (suc n) b = b % 2 + count_ones_below n (b / 2)

abbrev pub count_ones : ℕ → ℕ
count_ones b = count_ones_below 8 b

-- Indexing is in range wherever `make_key` calls this: the input has 10 bytes at least.
pub get7bits : Bytes → ℕ → ℕ
get7bits input start_bit =
    let byte_idx = start_bit / 8 in
    let word = get_or input byte_idx 0 * 256 + get_or input (byte_idx + 1) 0 in
    let shifted = word / 2 ^ (15 - (start_bit % 8 + 7)) in as_u8 (bit_and shifted 0xFE)

pub set_odd_parity : ℕ → ℕ
unfolding count_ones_below
set_odd_parity b = if count_ones b % 2 == 0 then bit_or b 1 else b

pub make_key_from : Bytes → ℕ → ℕ → Bytes
unfolding set_odd_parity get7bits
make_key_from key zero i = []
make_key_from key (suc n) i = set_odd_parity (get7bits key (i * 7)) ∷ make_key_from key n (i + 1)

pub make_key : Bytes → Bytes
unfolding make_key_from
make_key key = make_key_from key 8 0

abbrev pub auth_response_magic1 : Bytes
auth_response_magic1 =
    0x4D ∷ 0x61 ∷ 0x67 ∷ 0x69 ∷ 0x63 ∷ 0x20 ∷ 0x73 ∷ 0x65 ∷ 0x72 ∷ 0x76 ∷ 0x65 ∷ 0x72 ∷ 0x20 ∷ 0x74
    ∷ 0x6F ∷ 0x20 ∷ 0x63 ∷ 0x6C ∷ 0x69 ∷ 0x65 ∷ 0x6E ∷ 0x74 ∷ 0x20 ∷ 0x73 ∷ 0x69 ∷ 0x67 ∷ 0x6E
    ∷ 0x69 ∷ 0x6E ∷ 0x67 ∷ 0x20 ∷ 0x63 ∷ 0x6F ∷ 0x6E ∷ 0x73 ∷ 0x74 ∷ 0x61 ∷ 0x6E ∷ 0x74 ∷ []

abbrev pub auth_response_magic2 : Bytes
auth_response_magic2 =
    0x50 ∷ 0x61 ∷ 0x64 ∷ 0x20 ∷ 0x74 ∷ 0x6F ∷ 0x20 ∷ 0x6D ∷ 0x61 ∷ 0x6B ∷ 0x65 ∷ 0x20 ∷ 0x69 ∷ 0x74
    ∷ 0x20 ∷ 0x64 ∷ 0x6F ∷ 0x20 ∷ 0x6D ∷ 0x6F ∷ 0x72 ∷ 0x65 ∷ 0x20 ∷ 0x74 ∷ 0x68 ∷ 0x61 ∷ 0x6E
    ∷ 0x20 ∷ 0x6F ∷ 0x6E ∷ 0x65 ∷ 0x20 ∷ 0x69 ∷ 0x74 ∷ 0x65 ∷ 0x72 ∷ 0x61 ∷ 0x74 ∷ 0x69 ∷ 0x6F
    ∷ 0x6E ∷ []

-- `{byte:02X}`.
abbrev pub hex_digit : ℕ → ℕ
hex_digit n = if ltb n 10 then 48 + n else 55 + n

abbrev pub hex_upper : Bytes → Str
hex_upper [] = []
hex_upper (b ∷ bs) = hex_digit (b / 16) ∷ hex_digit (b % 16) ∷ hex_upper bs

module _ (c : Crypto) where
  unfoldable pub nt_password_hash : Str → Bytes
  nt_password_hash password = c.md4 (utf16le password)

  unfoldable pub challenge_hash : Bytes → Bytes → Str → Bytes
  challenge_hash peer_challenge auth_challenge username =
      take 8 (c.sha1 (peer_challenge ++ (auth_challenge ++ utf8 (after_last backslash username))))

  pub des_encrypt_block : Bytes → Bytes → Bytes
  des_encrypt_block key clear = c.des key clear

  -- The three blocks of 8 bytes fill the 24 of the response.
  unfoldable pub challenge_response : Bytes → Bytes → Bytes
  unfolding des_encrypt_block
  challenge_response challenge password_hash =
      let zpadded = password_hash ++ replicate 8 0 in
      des_encrypt_block (make_key (drop 0 zpadded)) challenge
      ++ (des_encrypt_block (make_key (drop 7 zpadded)) challenge
          ++ des_encrypt_block (make_key (drop 14 zpadded)) challenge)

  unfoldable pub generate_nt_response : Bytes → Bytes → Str → Str → Bytes
  unfolding challenge_hash nt_password_hash challenge_response
  generate_nt_response auth_challenge peer_challenge username password =
      challenge_response (challenge_hash peer_challenge auth_challenge username)
        (nt_password_hash password)

  -- "S=" and 40 digits.
  unfoldable pub generate_authenticator_response : Str → Bytes → Bytes → Bytes → Str → Str
  unfolding nt_password_hash challenge_hash
  generate_authenticator_response password nt_response peer_challenge auth_challenge username =
      let pw_hash_hash = c.md4 (nt_password_hash password) in
      let digest1 = c.sha1 (pw_hash_hash ++ (nt_response ++ auth_response_magic1)) in
      let challenge = challenge_hash peer_challenge auth_challenge username in
      let digest2 = c.sha1 (digest1 ++ (challenge ++ auth_response_magic2)) in
      0x53 ∷ 0x3D ∷ hex_upper digest2
