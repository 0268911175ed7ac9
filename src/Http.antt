-- ===== src/Http.antt =====
-- sstp-proto/src/http.rs: the HTTP exchange in front of the SSTP stream.
pub mod Responses
use mac_os_sstp_client.Prelude.{
  ℕ, suc, ◌+◌, ◌-◌, ◌*◌, [], ◌∷◌, ◌++◌, Option, none, some, Bool, false, ◌&&◌, ◌||◌, not, ltb, leb,
  ◌==◌, if◌then◌else◌, take, Bytes, Result, ok, err,
}
use mac_os_sstp_client.Prelude.Text.{codes, Str, utf8, from_utf8_lossy}

abbrev pub sstp_path : Str
sstp_path = codes "/sra_{BA195980-CD49-458b-9E23-C84EE0ADCD75}/"

abbrev pub infinite_content_length : Str
infinite_content_length = codes "18446744073709551615"

abbrev pub duplex_post : Str
duplex_post = codes "SSTP_DUPLEX_POST "

-- " HTTP/1.1\r\nHost: "
abbrev pub http_host : Str
http_host =
    0x20 ∷ 0x48 ∷ 0x54 ∷ 0x54 ∷ 0x50 ∷ 0x2F ∷ 0x31 ∷ 0x2E ∷ 0x31 ∷ 0x0D ∷ 0x0A ∷ 0x48 ∷ 0x6F ∷ 0x73
    ∷ 0x74 ∷ 0x3A ∷ 0x20 ∷ []

-- "\r\nContent-Length: "
abbrev pub content_length : Str
content_length =
    0x0D ∷ 0x0A ∷ 0x43 ∷ 0x6F ∷ 0x6E ∷ 0x74 ∷ 0x65 ∷ 0x6E ∷ 0x74 ∷ 0x2D ∷ 0x4C ∷ 0x65 ∷ 0x6E ∷ 0x67
    ∷ 0x74 ∷ 0x68 ∷ 0x3A ∷ 0x20 ∷ []

-- "\r\nSSTPCORRELATIONID: {"
abbrev pub correlation_id : Str
correlation_id =
    0x0D ∷ 0x0A ∷ 0x53 ∷ 0x53 ∷ 0x54 ∷ 0x50 ∷ 0x43 ∷ 0x4F ∷ 0x52 ∷ 0x52 ∷ 0x45 ∷ 0x4C ∷ 0x41 ∷ 0x54
    ∷ 0x49 ∷ 0x4F ∷ 0x4E ∷ 0x49 ∷ 0x44 ∷ 0x3A ∷ 0x20 ∷ 0x7B ∷ []

-- "}\r\n\r\n"
abbrev pub end_of_headers : Str
end_of_headers = 0x7D ∷ 0x0D ∷ 0x0A ∷ 0x0D ∷ 0x0A ∷ []

unfoldable pub build_request : Str → Str → Bytes
build_request host correlation_uuid = utf8 (
    duplex_post
    ++ (sstp_path
        ++ (http_host
            ++ (host
                ++ (content_length
                    ++ (infinite_content_length
                        ++ (correlation_id ++ (correlation_uuid ++ end_of_headers))))))))

pub data ParseError : Type 0 where
  incomplete : ParseError
  bad_status_line : Str → ParseError
  non_success_status : ℕ → ParseError

-- `w == b"\r\n\r\n"` on the window that starts here.
abbrev pub is_double_crlf : Bytes → Bool
is_double_crlf (a ∷ b ∷ c ∷ d ∷ rest) = a == 13 && b == 10 && c == 13 && d == 10
is_double_crlf _ = false

abbrev pub shifted : Option ℕ → Option ℕ
shifted none = none
shifted (some i) = some (suc i)

unfoldable pub find_double_crlf : Bytes → Option ℕ
find_double_crlf [] = none
find_double_crlf (b ∷ bs) =
    let later = find_double_crlf bs in if is_double_crlf (b ∷ bs) then some 0 else shifted later

-- `lines().next().unwrap_or("")`: up to a line feed, or a carriage return before one.
abbrev pub starts_line : Str → Bool
starts_line [] = false
starts_line (c ∷ cs) = c == 10

unfoldable pub first_line : Str → Str
first_line [] = []
first_line (c ∷ cs) =
    let rest = first_line cs in if c == 10 || (c == 13 && starts_line cs) then [] else c ∷ rest

-- The parts of `splitn(3, ' ')`: the first, and the second if there is a space.
unfoldable pub until_space : Str → Str
until_space [] = []
until_space (c ∷ cs) = let rest = until_space cs in if c == 0x20 then [] else c ∷ rest

unfoldable pub behind_space : Str → Option Str
behind_space [] = none
behind_space (c ∷ cs) = let rest = behind_space cs in if c == 0x20 then some cs else rest

-- `starts_with("HTTP/")`.
abbrev pub starts_with_http : Str → Bool
starts_with_http (h ∷ t₁ ∷ t₂ ∷ p ∷ s ∷ rest) =
    h == 0x48 && t₁ == 0x54 && t₂ == 0x54 && p == 0x50 && s == 0x2F
starts_with_http _ = false

-- `parse::<u16>`: an optional plus sign and digits, below 65536.
unfoldable pub parse_digits : ℕ → Str → Option ℕ
parse_digits n [] = if ltb n 65536 then some n else none
parse_digits n (c ∷ cs) =
    let rest = parse_digits (n * 10 + (c - 48)) cs in if leb 48 c && leb c 57 then rest else none

abbrev pub parse_unsigned : Str → Option ℕ
parse_unsigned [] = none
parse_unsigned (c ∷ cs) = parse_digits 0 (c ∷ cs)

abbrev pub parse_u16 : Str → Option ℕ
parse_u16 [] = none
parse_u16 (c ∷ cs) = if c == 0x2B then parse_unsigned cs else parse_unsigned (c ∷ cs)

unfoldable pub status_code : Str → Option ℕ
unfolding until_space behind_space parse_digits
status_code line =
    if starts_with_http (until_space line)
    then elim (behind_space line) [ none ↦ none | some rest ↦ parse_u16 (until_space rest) ]
    else none

unfoldable pub judge : Str → ℕ → Option ℕ → Result ParseError (ℕ × ℕ)
judge line header_end none = err (bad_status_line line)
judge line header_end (some code) =
    if not (code == 200) then err (non_success_status code) else ok (code, header_end + 4)

unfoldable pub parse_found : Bytes → Option ℕ → Result ParseError (ℕ × ℕ)
unfolding judge first_line status_code
parse_found buf none = err incomplete
parse_found buf (some header_end) =
    let line = first_line (from_utf8_lossy (take header_end buf)) in
    judge line header_end (status_code line)

unfoldable pub parse_response : Bytes → Result ParseError (ℕ × ℕ)
unfolding parse_found find_double_crlf
parse_response buf = parse_found buf (find_double_crlf buf)
