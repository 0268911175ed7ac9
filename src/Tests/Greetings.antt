-- ===== src/Tests/Greetings.antt =====
-- The HTTP response on concrete bytes.
use mac_os_sstp_client.Prelude.{ℕ, ◌+◌, ◌≡◌, ◌≤◌, refl, [], ◌∷◌, ◌++◌, length, Bytes, ok, err}
use mac_os_sstp_client.Prelude.Text.{from_utf8_lossy, lossy_from, decode_byte, lead}
use mac_os_sstp_client.Http.{
  non_success_status, find_double_crlf, first_line, until_space, behind_space, parse_digits,
  status_code, judge, parse_found, parse_response,
}
use mac_os_sstp_client.Http.Responses.{Splits, parse_response-append, parse_response_accepts}

-- "HTTP/1.1 200 OK", an empty line, and the first bytes of the stream.
abbrev pub accepted : Bytes
accepted =
    0x48 ∷ 0x54 ∷ 0x54 ∷ 0x50 ∷ 0x2F ∷ 0x31 ∷ 0x2E ∷ 0x31 ∷ 0x20 ∷ 0x32 ∷ 0x30 ∷ 0x30 ∷ 0x20 ∷ 0x4F
    ∷ 0x4B ∷ 13 ∷ 10 ∷ 13 ∷ 10 ∷ 0x10 ∷ 1 ∷ []

accepted_lem : parse_response accepted ≡ ok (200, 19)
unfolding from_utf8_lossy lossy_from decode_byte lead find_double_crlf first_line until_space
    behind_space parse_digits status_code judge parse_found parse_response
accepted_lem = refl

-- "HTTP/1.1 404", an empty line.
abbrev not_found : Bytes
not_found =
    0x48 ∷ 0x54 ∷ 0x54 ∷ 0x50 ∷ 0x2F ∷ 0x31 ∷ 0x2E ∷ 0x31 ∷ 0x20 ∷ 0x34 ∷ 0x30 ∷ 0x34 ∷ 13 ∷ 10 ∷ 13
    ∷ 10 ∷ []

not_found_lem : parse_response not_found ≡ err (non_success_status 404)
unfolding from_utf8_lossy lossy_from decode_byte lead find_double_crlf first_line until_space
    behind_space parse_digits status_code judge parse_found parse_response
not_found_lem = refl

parse_response-append_run : parse_response (not_found ++ 7 ∷ []) ≡ parse_response not_found
parse_response-append_run = parse_response-append not_found (7 ∷ []) (λ q. cc (not_found_lem, q))

abbrev accepted_code : ℕ
accepted_code = 200

abbrev accepted_end : ℕ
accepted_end = 19

parse_response_accepts_run :
    (accepted_code ≡ 200)
    × (accepted_end ≤ length accepted)
    × ((i : ℕ) × (accepted_end ≡ i + 4) × Splits accepted i)
parse_response_accepts_run = parse_response_accepts accepted accepted_lem
