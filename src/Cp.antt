-- ===== src/Cp.antt =====
-- sstp-proto/src/cp.rs: the header Code/Identifier/Length and the option TLVs of LCP and IPCP.
pub mod Frames
pub mod Options
pub mod Desired
pub mod Bounds
pub mod Revisions
use mac_os_sstp_client.Prelude.{
  ℕ, suc, ◌+◌, ◌-◌, List, [], ◌∷◌, ◌++◌, Option, none, some, length, take, drop, ltb, ◌==◌, ◌||◌,
  if◌then◌else◌, Bytes, be16, of_be16, as_u8, as_u16,
}

pub data Code : Type 0 where
  configure_request configure_ack configure_nak configure_reject : Code
  terminate_request terminate_ack code_reject protocol_reject : Code
  echo_request echo_reply discard_request : Code
  unknown : ℕ → Code

unfoldable pub code_to_u8 : Code → ℕ
code_to_u8 configure_request = 1
code_to_u8 configure_ack = 2
code_to_u8 configure_nak = 3
code_to_u8 configure_reject = 4
code_to_u8 terminate_request = 5
code_to_u8 terminate_ack = 6
code_to_u8 code_reject = 7
code_to_u8 protocol_reject = 8
code_to_u8 echo_request = 9
code_to_u8 echo_reply = 10
code_to_u8 discard_request = 11
code_to_u8 (unknown v) = v

unfoldable pub code_from_u8 : ℕ → Code
code_from_u8 v =
    if v == 1
    then configure_request
    else if v == 2
    then configure_ack
    else if v == 3
    then configure_nak
    else if v == 4
    then configure_reject
    else if v == 5
    then terminate_request
    else if v == 6
    then terminate_ack
    else if v == 7
    then code_reject
    else if v == 8
    then protocol_reject
    else if v == 9
    then echo_request
    else if v == 10
    then echo_reply
    else if v == 11
    then discard_request
    else unknown v

pub record Frame : Type 0 where
  pub code : Code
  pub id : ℕ
  pub payload : Bytes

unfoldable pub encode : Code → ℕ → Bytes → Bytes
encode code id payload = code_to_u8 code ∷ id ∷ be16 (as_u16 (4 + length payload)) ++ payload

unfoldable pub decode : Bytes → Option Frame
decode (code ∷ id ∷ l₁ ∷ l₂ ∷ rest) =
    let len = of_be16 l₁ l₂ in
    if ltb len 4 || ltb (4 + length rest) len
    then none
    else some (record { code = code_from_u8 code; id = id; payload = take (len - 4) rest })
decode _ = none

pub record Opt : Type 0 where
  pub kind : ℕ
  pub value : Bytes

unfoldable pub encode_options : List Opt → Bytes
encode_options [] = []
encode_options (opt ∷ opts) =
    opt.kind ∷ as_u8 (2 + length opt.value) ∷ opt.value ++ encode_options opts

-- The `while` loop over what stands at `pos` and behind. A round takes 2 bytes at least, so the
-- length of the buffer is fuel enough.
pub decode_options_loop : ℕ → Bytes → List Opt
decode_options_loop (suc fuel) (kind ∷ len ∷ rest) =
    let more = decode_options_loop fuel (drop (len - 2) rest) in
    if ltb len 2 || ltb (2 + length rest) len
    then []
    else record { kind = kind; value = take (len - 2) rest } ∷ more
decode_options_loop _ _ = []

unfoldable pub decode_options : Bytes → List Opt
unfolding decode_options_loop
decode_options buf = decode_options_loop (length buf) buf
