-- ===== src/ChapFsm/Frames.antt =====
-- `encode` and `decode` of chap_fsm.rs, and the response that the client builds.
use mac_os_sstp_client.Prelude.{
  ℕ, ◌+◌, ◌-◌, ◌/◌, ◌%◌, ◌<◌, ◌≡◌, ◌⊎◌, refl, ap, ◌∙◌, arith, [], ◌∷◌, ◌++◌, append_assoc,
  append-nil, some, Bytes, of_be16, as_u16, length, take, replicate, take-length, length-append, ok,
}
use mac_os_sstp_client.Prelude.Text.{Str, utf8}
use mac_os_sstp_client.Prelude.Crypto.{Crypto}
use mac_os_sstp_client.Chap.{challenge_response, generate_nt_response}
use mac_os_sstp_client.ChapFsm.{
  Code, response, unknown, code_to_u8, code_from_u8, ChallengeInfo, encode, decode, build_response,
}

-- A value that `from_u8` yields: `Unknown` only on a number without a name.
abbrev pub IsCode : Code → Type 0
IsCode (unknown v) = (v ≡ 0) ⊎ (4 < v)
IsCode _ = Unit {0}

code_from_u8-to_u8 : (c : Code) → IsCode c → code_from_u8 (code_to_u8 c) ≡ c
unfolding code_from_u8 code_to_u8
code_from_u8-to_u8 (unknown v) h = ground arith
code_from_u8-to_u8 _ h = refl

take_payload : (xs ys : Bytes) → take (4 + length xs - 4) (xs ++ ys) ≡ xs
take_payload xs ys = let e : 4 + length xs - 4 ≡ length xs = omega arith in rw e (take-length xs ys)

of_be16-be16 : (n : ℕ) → n < 65536 → of_be16 (as_u16 n / 256) (as_u16 n % 256) ≡ n
of_be16-be16 n h = omega arith

-- A CHAP frame whose length fits 16 bits, and whose code is no `Unknown` of a named number, is
-- decoded to its code, identifier and payload; bytes behind the frame are ignored.
pub chap_decode-encode :
    (c : Code) (id : ℕ) (payload more : Bytes)
    → IsCode c
    → 4 + length payload < 65536
    → decode (encode c id payload ++ more) ≡ some (record { code = c; id = id; payload = payload })
unfolding decode encode
chap_decode-encode c id payload more hc h =
    rw (of_be16-be16 (4 + length payload) h, take_payload payload more, code_from_u8-to_u8 c hc)
      (ground (arith, length-append payload more))

three_blocks :
    (x y z : Bytes) → length x ≡ 8 → length y ≡ 8 → length z ≡ 8 → length (x ++ (y ++ z)) ≡ 24
three_blocks x y z hx hy hz = omega (arith, length-append x (y ++ z), length-append y z)

pub length-generate_nt_response :
    (c : Crypto) (auth_challenge peer_challenge : Bytes) (username password : Str)
    → length (generate_nt_response c auth_challenge peer_challenge username password) ≡ 24
unfolding generate_nt_response challenge_response
length-generate_nt_response c auth_challenge peer_challenge username password =
    three_blocks _ _ _ (c.length-des _ _) (c.length-des _ _) (c.length-des _ _)

-- The payload of a response: the value size 49, the peer challenge, 8 zeros, the NT response, a
-- zero flag byte, and the user name.
abbrev pub response_payload : Bytes → Bytes → Str → Bytes
response_payload peer_challenge nt_response username =
    49 ∷ peer_challenge ++ (replicate 8 0 ++ (nt_response ++ (0 ∷ utf8 username)))

value_size :
    (peer_challenge nt : Bytes)
    → length peer_challenge ≡ 16
    → length nt ≡ 24
    → length (peer_challenge ++ (replicate 8 0 ++ (nt ++ 0 ∷ []))) ≡ 49
value_size peer_challenge nt hp hn =
    let zeros : Bytes = replicate 8 0 in
    omega (
      arith,
      length-append peer_challenge (zeros ++ (nt ++ 0 ∷ [])),
      length-append zeros (nt ++ 0 ∷ []),
      length-append nt (0 ∷ []),
    )

regroup :
    (peer_challenge nt name : Bytes)
    → (peer_challenge ++ (replicate 8 0 ++ (nt ++ 0 ∷ []))) ++ name
      ≡ peer_challenge ++ (replicate 8 0 ++ (nt ++ (0 ∷ name)))
regroup peer_challenge nt name =
    let zeros : Bytes = replicate 8 0 in
    append_assoc peer_challenge (zeros ++ (nt ++ 0 ∷ [])) name
    ∙ ap (λ xs. peer_challenge ++ (zeros ++ xs)) (append_assoc nt (0 ∷ []) name)

length-response_payload :
    (peer_challenge nt : Bytes) (username : Str)
    → length peer_challenge ≡ 16
    → length nt ≡ 24
    → length (response_payload peer_challenge nt username) ≡ 50 + length (utf8 username)
length-response_payload peer_challenge nt username hp hn =
    let zeros : Bytes = replicate 8 0 in
    let rest : Bytes = 0 ∷ utf8 username in
    omega (
      arith,
      length-append peer_challenge (zeros ++ (nt ++ rest)),
      length-append zeros (nt ++ rest),
      length-append nt rest,
    )

-- To a challenge of 16 bytes, with a peer challenge of 16 bytes and a user name that fits the
-- frame, the client builds a Response frame with the challenge's identifier, the value size 49,
-- the peer challenge, 8 zeros, the 24 bytes of the NT response, a zero flag byte and the user name
-- in UTF-8; the frame is decoded to just this. The client keeps the peer challenge and that NT
-- response.
pub build_response_lem :
    (c : Crypto) (peer_challenge : Bytes) (info : ChallengeInfo) (username password : Str)
    → length info.value ≡ 16
    → length peer_challenge ≡ 16
    → 54 + length (utf8 username) < 65536
    → let nt = generate_nt_response c info.value peer_challenge username password in
      let payload = response_payload peer_challenge nt username in
      let wire = encode response info.id payload in
      (build_response c peer_challenge info username password
        ≡ ok (wire, record { peer_challenge = peer_challenge; nt_response = nt }))
      × (decode wire ≡ some (record { code = response; id = info.id; payload = payload }))
      × (length nt ≡ 24)
unfolding build_response
build_response_lem c peer_challenge info username password hv hp hu =
    let nt = generate_nt_response c info.value peer_challenge username password in
    let payload = response_payload peer_challenge nt username in
    let hn = length-generate_nt_response c info.value peer_challenge username password in
    let size = length-response_payload peer_challenge nt username hp hn in
    (
      rw (hv, value_size peer_challenge nt hp hn, regroup peer_challenge nt (utf8 username)) refl,
      rw (← append-nil (encode response info.id payload))
          (chap_decode-encode response info.id payload [] tt (omega (arith, size))),
      hn,
    )
