-- ===== src/ChapFsm/Responses.antt =====
-- `verify_success` of chap_fsm.rs on the text that an honest server sends.
use mac_os_sstp_client.Prelude.{
  ◌*◌, ◌≡◌, arith, [], ◌∷◌, ◌++◌, some, true, Bytes, AreBytes, All, length,
}
use mac_os_sstp_client.Prelude.Text.{Str, from_utf8_lossy, first_token}
use mac_os_sstp_client.Prelude.Text.Ascii.{
  IsPrint, IsBreak, token_accepted, eq_ignore_ascii_case_refl,
}
use mac_os_sstp_client.Prelude.Crypto.{Crypto}
use mac_os_sstp_client.Chap.{hex_upper, generate_authenticator_response}
use mac_os_sstp_client.ChapFsm.{PendingResponse, verify_success}

hex_upper-IsPrint : (bs : Bytes) → AreBytes bs → All IsPrint (hex_upper bs)
hex_upper-IsPrint [] h = tt
hex_upper-IsPrint (b ∷ bs) (hb, h) = ground (arith, hex_upper-IsPrint bs h)

genuine_token :
    (c : Crypto) (password : Str) (pending : PendingResponse) (auth_challenge : Bytes)
    (username : Str) (more : Bytes)
    → IsBreak more
    → let text =
        generate_authenticator_response c password pending.nt_response pending.peer_challenge
          auth_challenge username in
      first_token (from_utf8_lossy (text ++ more)) ≡ some text
unfolding generate_authenticator_response
genuine_token c password pending auth_challenge username more hm =
    token_accepted 0x53 (0x3D ∷ hex_upper (c.sha1 _)) more
      (
        (omega arith, omega arith),
        ((omega arith, omega arith), hex_upper-IsPrint (c.sha1 _) (c.bytes-sha1 _)),
      )
      hm

-- The Success text of a server that computed the authenticator response of the same exchange is
-- accepted, alone or before a space and any further text.
pub verify_success-genuine :
    (c : Crypto) (password username : Str) (pending : PendingResponse) (auth_challenge more : Bytes)
    → IsBreak more
    → let text =
        generate_authenticator_response c password pending.nt_response pending.peer_challenge
          auth_challenge username in
      verify_success c (text ++ more) password pending auth_challenge username ≡ true
unfolding verify_success
verify_success-genuine c password username pending auth_challenge more hm =
    let text : Str =
      generate_authenticator_response c password pending.nt_response pending.peer_challenge
        auth_challenge username in
    rw (genuine_token c password pending auth_challenge username more hm, verify_success)
      (eq_ignore_ascii_case_refl text)

length-hex_upper : (bs : Bytes) → length (hex_upper bs) ≡ 2 * length bs
length-hex_upper [] = omega arith
length-hex_upper (b ∷ bs) = omega (arith, length-hex_upper bs)

-- "S=" and two digits for each byte of the digest.
pub length-generate_authenticator_response :
    (c : Crypto) (password : Str) (nt_response peer_challenge auth_challenge : Bytes)
    (username : Str)
    → length (
        generate_authenticator_response c password nt_response peer_challenge auth_challenge
          username)
      ≡ 42
unfolding generate_authenticator_response
length-generate_authenticator_response c password nt_response peer_challenge auth_challenge
      username =
    omega (arith, length-hex_upper (c.sha1 _), c.length-sha1 _)
