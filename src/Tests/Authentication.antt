-- ===== src/Tests/Authentication.antt =====
-- The MS-CHAPv2 exchange and the keys on concrete values.
use mac_os_sstp_client.Prelude.{
  ◌≡◌, refl, arith, [], ◌∷◌, ◌++◌, some, true, false, not, length, replicate, All, ok,
}
use mac_os_sstp_client.Prelude.Text.{utf8}
use mac_os_sstp_client.Chap.{
  make_key, nt_password_hash, generate_nt_response, generate_authenticator_response,
}
use mac_os_sstp_client.Chap.Keys.{IsOdd, KeepsBits, make_key_lem}
use mac_os_sstp_client.ChapFsm.{
  challenge, response, ChallengeInfo, PendingResponse, encode, decode, build_response,
  verify_success,
}
use mac_os_sstp_client.ChapFsm.Frames.{chap_decode-encode, response_payload, build_response_lem}
use mac_os_sstp_client.ChapFsm.Responses.{verify_success-genuine}
use mac_os_sstp_client.Mppe.{mppe_get_keys, password_hash_hash}
use mac_os_sstp_client.Mppe.Keys.{keys_meet, password_hash_hash-ascii}
use mac_os_sstp_client.Tests.{toy, user, password}

chap_decode-encode_run :
    decode (encode challenge 3 (1 ∷ 2 ∷ []) ++ 7 ∷ [])
    ≡ some (record { code = challenge; id = 3; payload = 1 ∷ 2 ∷ [] })
chap_decode-encode_run = chap_decode-encode challenge 3 (1 ∷ 2 ∷ []) (7 ∷ []) tt (omega arith)

abbrev info : ChallengeInfo
info = record { id = 3; value = replicate 16 8; name = [] }

build_response_lem_run :
    let nt = generate_nt_response toy (replicate 16 8) (replicate 16 2) user password in
    let payload = response_payload (replicate 16 2) nt user in
    let wire = encode response 3 payload in
    (build_response toy (replicate 16 2) info user password
      ≡ ok (wire, record { peer_challenge = replicate 16 2; nt_response = nt }))
    × (decode wire ≡ some (record { code = response; id = 3; payload = payload }))
    × (length nt ≡ 24)
unfolding utf8
build_response_lem_run =
    build_response_lem toy (replicate 16 2) info user password refl refl (omega arith)

abbrev pending : PendingResponse
pending = record { peer_challenge = replicate 16 2; nt_response = replicate 24 3 }

-- The text stands before " M".
verify_success-genuine_example :
    let text =
      generate_authenticator_response toy password
        (replicate 24 3)
        (replicate 16 2)
        (replicate 16 8)
        user in
    verify_success toy (text ++ 0x20 ∷ 0x4D ∷ []) password pending (replicate 16 8) user ≡ true
verify_success-genuine_example =
    verify_success-genuine toy password user pending (replicate 16 8) (0x20 ∷ 0x4D ∷ []) refl

make_key_lem_run :
    (length (make_key (1 ∷ 0x23 ∷ 0x45 ∷ 0x67 ∷ 0x89 ∷ 0xAB ∷ 0xCD ∷ 0 ∷ [])) ≡ 8)
    × All IsOdd (make_key (1 ∷ 0x23 ∷ 0x45 ∷ 0x67 ∷ 0x89 ∷ 0xAB ∷ 0xCD ∷ 0 ∷ []))
    × KeepsBits
        (1 ∷ 0x23 ∷ 0x45 ∷ 0x67 ∷ 0x89 ∷ 0xAB ∷ 0xCD ∷ 0 ∷ [])
        (make_key (1 ∷ 0x23 ∷ 0x45 ∷ 0x67 ∷ 0x89 ∷ 0xAB ∷ 0xCD ∷ 0 ∷ []))
        0
make_key_lem_run = make_key_lem (1 ∷ 0x23 ∷ 0x45 ∷ 0x67 ∷ 0x89 ∷ 0xAB ∷ 0xCD ∷ 0 ∷ [])

keys_meet_run :
    let ours = mppe_get_keys toy password (replicate 24 3) false in
    let theirs = mppe_get_keys toy password (replicate 24 3) (not false) in
    (ours.send_key ≡ theirs.recv_key)
    × (ours.recv_key ≡ theirs.send_key)
    × (length ours.send_key ≡ 16)
    × (length ours.recv_key ≡ 16)
keys_meet_run = keys_meet toy password (replicate 24 3) false

password_hash_hash-ascii_run :
    password_hash_hash toy password ≡ toy.md4 (nt_password_hash toy password)
password_hash_hash-ascii_run =
    password_hash_hash-ascii toy password (omega arith, (omega arith, tt))
