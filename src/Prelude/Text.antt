-- ===== src/Prelude/Text.antt =====
-- Rust's `str` as the list of its code points, with the conversions of the standard library that
-- the source uses.
pub mod Ascii
pub mod Lines
pub mod Equal
use Prim.Native.Char.{code}
use Prim.Native.String as String
use Prim.Native.String.{String}
use Prim.Native.Nat.{ℕ, ◌+◌, ◌-◌, ◌*◌, ◌/◌, ◌%◌}
use mathlib.Core.Bool.{Bool, true, false, ◌&&◌, ◌||◌}
use mathlib.Core.List.{List, [], ◌∷◌, ◌++◌}
use mathlib.Core.Option.{Option, none, some}
use mac_os_sstp_client.Prelude.Tests.{ltb, leb, ◌==◌, if◌then◌else◌}
use mac_os_sstp_client.Prelude.Octets.{Bytes}

abbrev pub Str : Type 0
Str = List ℕ

-- The code points of a text.
abbrev pub codes : String → Str
codes String.[] = []
codes (String.◌∷◌ c s) = code c ∷ codes s

-- `as_bytes`: UTF-8.
abbrev pub utf8_char : ℕ → Bytes
utf8_char c =
    if ltb c 0x80
    then c ∷ []
    else if ltb c 0x800
    then (0xC0 + c / 64) ∷ (0x80 + c % 64) ∷ []
    else if ltb c 0x10000
    then (0xE0 + c / 4096) ∷ (0x80 + c / 64 % 64) ∷ (0x80 + c % 64) ∷ []
    else (0xF0 + c / 262144) ∷ (0x80 + c / 4096 % 64) ∷ (0x80 + c / 64 % 64) ∷ (0x80 + c % 64) ∷ []

unfoldable pub utf8 : Str → Bytes
utf8 [] = []
utf8 (c ∷ cs) = utf8_char c ++ utf8 cs

-- `encode_utf16` with each unit as `to_le_bytes`: a surrogate pair above the first plane.
abbrev pub utf16le_char : ℕ → Bytes
utf16le_char c =
    if ltb c 0x10000
    then c % 256 ∷ c / 256 ∷ []
    else let high = 0xD800 + (c - 0x10000) / 1024 in
      let low = 0xDC00 + (c - 0x10000) % 1024 in
      high % 256 ∷ high / 256 ∷ low % 256 ∷ low / 256 ∷ []

unfoldable pub utf16le : Str → Bytes
utf16le [] = []
utf16le (c ∷ cs) = utf16le_char c ++ utf16le cs

-- `rsplit(sep).next()`: what follows the last separator, or the whole.
pub after_last_from : ℕ → Str → Str → Str
after_last_from sep seen [] = seen
after_last_from sep seen (c ∷ cs) = after_last_from sep (if c == sep then cs else seen) cs

unfoldable pub after_last : ℕ → Str → Str
unfolding after_last_from
after_last sep s = after_last_from sep s s

-- The state of the decoder of `from_utf8_lossy`: how many bytes are still missing, the range of
-- the next one, and the bits so far.
pub record Decoder : Type 0 where
  pub need : ℕ
  pub lo : ℕ
  pub hi : ℕ
  pub bits : ℕ

abbrev pub idle : Decoder
idle = record { need = 0; lo = 0x80; hi = 0xBF; bits = 0 }

abbrev pub replacement : ℕ
replacement = 0xFFFD

-- A byte that starts a character, or is a whole one.
unfoldable pub lead : ℕ → Str × Decoder
lead b =
    if ltb b 0x80
    then (b ∷ [], idle)
    else if ltb b 0xC2
    then (replacement ∷ [], idle)
    else if ltb b 0xE0
    then ([], record { need = 1; lo = 0x80; hi = 0xBF; bits = b - 0xC0 })
    else if b == 0xE0
    then ([], record { need = 2; lo = 0xA0; hi = 0xBF; bits = 0 })
    else if b == 0xED
    then ([], record { need = 2; lo = 0x80; hi = 0x9F; bits = 13 })
    else if ltb b 0xF0
    then ([], record { need = 2; lo = 0x80; hi = 0xBF; bits = b - 0xE0 })
    else if b == 0xF0
    then ([], record { need = 3; lo = 0x90; hi = 0xBF; bits = 0 })
    else if ltb b 0xF4
    then ([], record { need = 3; lo = 0x80; hi = 0xBF; bits = b - 0xF0 })
    else if b == 0xF4
    then ([], record { need = 3; lo = 0x80; hi = 0x8F; bits = 4 })
    else (replacement ∷ [], idle)

-- One more byte of a character.
unfoldable pub go_on : Decoder → ℕ → Str × Decoder
go_on d bits =
    if d.need == 1
    then (bits ∷ [], idle)
    else ([], record { need = d.need - 1; lo = 0x80; hi = 0xBF; bits = bits })

-- A byte that does not go on with the character ends it, and is read as a first byte.
unfoldable pub cut_off : Str × Decoder → Str × Decoder
cut_off (out, next) = (replacement ∷ out, next)

unfoldable pub decode_byte : Decoder → ℕ → Str × Decoder
unfolding lead go_on cut_off
decode_byte d b =
    if d.need == 0
    then lead b
    else if leb d.lo b && leb b d.hi
    then go_on d (d.bits * 64 + (b - 0x80))
    else cut_off (lead b)

unfoldable pub lossy_from : Decoder → Bytes → Str
unfolding decode_byte
lossy_from d [] = if d.need == 0 then [] else replacement ∷ []
lossy_from d (b ∷ bs) = let (out, next) = decode_byte d b in out ++ lossy_from next bs

-- `String::from_utf8_lossy`.
unfoldable pub from_utf8_lossy : Bytes → Str
unfolding lossy_from
from_utf8_lossy bytes = lossy_from idle bytes

-- `char::is_whitespace`.
abbrev pub is_whitespace : ℕ → Bool
is_whitespace c =
    (leb 9 c && leb c 13)
    || c == 0x20
    || c == 0x85
    || c == 0xA0
    || c == 0x1680
    || (leb 0x2000 c && leb c 0x200A)
    || c == 0x2028
    || c == 0x2029
    || c == 0x202F
    || c == 0x205F
    || c == 0x3000

pub until_whitespace : Str → Str
until_whitespace [] = []
until_whitespace (c ∷ cs) = if is_whitespace c then [] else c ∷ until_whitespace cs

-- `split_whitespace().next()`.
unfoldable pub first_token : Str → Option Str
unfolding until_whitespace
first_token [] = none
first_token (c ∷ cs) = if is_whitespace c then first_token cs else some (c ∷ until_whitespace cs)

abbrev pub to_ascii_lowercase : ℕ → ℕ
to_ascii_lowercase c = if leb 65 c && leb c 90 then c + 32 else c

unfoldable pub eq_ignore_ascii_case : Str → Str → Bool
eq_ignore_ascii_case [] [] = true
eq_ignore_ascii_case (x ∷ xs) (y ∷ ys) =
    to_ascii_lowercase x == to_ascii_lowercase y && eq_ignore_ascii_case xs ys
eq_ignore_ascii_case _ _ = false
