-- ===== src/ChapFsm.antt =====
-- sstp-proto/src/chap_fsm.rs: CHAP framing and the client's side of MS-CHAPv2.
pub mod Frames
pub mod Responses
use mac_os_sstp_client.Prelude.{
  ℕ, ◌+◌, ◌-◌, [], ◌∷◌, ◌++◌, Option, none, some, Bool, false, ◌||◌, not, length, take, drop,
  replicate, ltb, ◌==◌, if◌then◌else◌, Bytes, as_u8, as_u16, be16, of_be16, Result, ok, err,
}
use mac_os_sstp_client.Prelude.Text.{Str, utf8, from_utf8_lossy, first_token, eq_ignore_ascii_case}
use mac_os_sstp_client.Prelude.Crypto.{Crypto}
use mac_os_sstp_client.Chap.{generate_nt_response, generate_authenticator_response}

pub data Code : Type 0 where
  challenge response success failure : Code
  unknown : ℕ → Code

unfoldable pub code_to_u8 : Code → ℕ
code_to_u8 challenge = 1
code_to_u8 response = 2
code_to_u8 success = 3
code_to_u8 failure = 4
code_to_u8 (unknown v) = v

unfoldable pub code_from_u8 : ℕ → Code
code_from_u8 v =
    if v == 1
    then challenge
    else if v == 2
    then response
    else if v == 3
    then success
    else if v == 4
    then failure
    else unknown v

pub record Frame : Type 0 where
  pub code : Code
  pub id : ℕ
  pub payload : Bytes

unfoldable pub encode : Code → ℕ → Bytes → Bytes
encode code id payload = code_to_u8 code ∷ id ∷ be16 (as_u16 (4 + length payload)) ++ payload

unfoldable pub decode : Bytes → Option Frame
decode (code ∷ id ∷ l₁ ∷ l₂ ∷ rest) =
    let len = of_be16 l₁ l₂ in
    if ltb len 4 || ltb (4 + length rest) len
    then none
    else some (record { code = code_from_u8 code; id = id; payload = take (len - 4) rest })
decode _ = none

pub record ChallengeInfo : Type 0 where
  pub id : ℕ
  pub value : Bytes
  pub name : Str

parse_value : ℕ → Bytes → Option ChallengeInfo
parse_value id [] = none
parse_value id (value_size ∷ rest) =
    if ltb (length rest) value_size
    then none
    else some (record {
      id = id;
      value = take value_size rest;
      name = from_utf8_lossy (drop value_size rest);
    })

unfoldable pub parse_challenge : Frame → Option ChallengeInfo
unfolding parse_value
parse_challenge frame = parse_value frame.id frame.payload

pub data ResponseError : Type 0 where
  bad_challenge_length : ℕ → ResponseError

pub record PendingResponse : Type 0 where
  pub peer_challenge : Bytes
  pub nt_response : Bytes

module _ (c : Crypto) where
  -- `rand::random()` is the argument `peer_challenge`.
  unfoldable pub build_response :
      Bytes → ChallengeInfo → Str → Str → Result ResponseError (Bytes × PendingResponse)
  build_response peer_challenge info username password =
      let nt_response = generate_nt_response c info.value peer_challenge username password in
      let value = peer_challenge ++ (replicate 8 0 ++ (nt_response ++ 0 ∷ [])) in
      if not (length info.value == 16)
      then err (bad_challenge_length (length info.value))
      else ok (
        encode response info.id (as_u8 (length value) ∷ value ++ utf8 username),
        record { peer_challenge = peer_challenge; nt_response = nt_response },
      )

  unfoldable pub verify_success : Bytes → Str → PendingResponse → Bytes → Str → Bool
  verify_success success_data password pending auth_challenge username =
      let expected =
        generate_authenticator_response c password pending.nt_response pending.peer_challenge
          auth_challenge username in
      elim (first_token (from_utf8_lossy success_data)) [
        | some token ↦ eq_ignore_ascii_case token expected
        | none ↦ false
      ]
