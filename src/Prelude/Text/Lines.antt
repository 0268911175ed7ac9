-- ===== src/Prelude/Text/Lines.antt =====
-- `lines`, `trim` and `strip_prefix` of Rust's `str`, and numbers in decimal.
use mac_os_sstp_client.Prelude.Tests.{ltb, ◌==◌, if◌then◌else◌}
use mac_os_sstp_client.Prelude.Text.{Str, is_whitespace}
use mac_os_sstp_client.Prelude.Octets.{Bytes}
use Prim.Native.Nat.{ℕ, zero, suc, ◌+◌, ◌/◌, ◌%◌}
use mathlib.Core.Bool.{Bool, true, false, ◌&&◌}
use mathlib.Core.List.{List, [], ◌∷◌, ◌++◌}
use mathlib.Core.Option.{Option, none, some}

abbrev pub starts_with_newline : Str → Bool
starts_with_newline [] = false
starts_with_newline (c ∷ cs) = c == 10

-- The first character of a line that goes on.
abbrev pub onto : ℕ → List Str → List Str
onto c [] = (c ∷ []) ∷ []
onto c (l ∷ ls) = (c ∷ l) ∷ ls

-- A line ends at a line feed, with a carriage return before it or not.
unfoldable pub lines : Str → List Str
lines [] = []
lines (c ∷ cs) =
    let rest = lines cs in
    if c == 10 then [] ∷ rest else if c == 13 && starts_with_newline cs then rest else onto c rest

unfoldable pub trim_start : Str → Str
trim_start [] = []
trim_start (c ∷ cs) = let rest = trim_start cs in if is_whitespace c then rest else c ∷ cs

abbrev pub trimmed_onto : ℕ → Str → Str
trimmed_onto c [] = if is_whitespace c then [] else c ∷ []
trimmed_onto c (d ∷ ds) = c ∷ d ∷ ds

unfoldable pub trim_end : Str → Str
trim_end [] = []
trim_end (c ∷ cs) = trimmed_onto c (trim_end cs)

unfoldable pub trim : Str → Str
unfolding trim_start trim_end
trim s = trim_end (trim_start s)

unfoldable pub strip_prefix : Str → Str → Option Str
strip_prefix [] s = some s
strip_prefix (p ∷ ps) [] = none
strip_prefix (p ∷ ps) (c ∷ cs) = let rest = strip_prefix ps cs in if p == c then rest else none

abbrev pub starts_with : Str → Str → Bool
starts_with [] s = true
starts_with (p ∷ ps) [] = false
starts_with (p ∷ ps) (c ∷ cs) = p == c && starts_with ps cs

-- `u32::to_string`: ten digits are enough.
unfoldable pub digits : ℕ → ℕ → Str → Str
digits zero n rest = rest
digits (suc fuel) n rest =
    let more = digits fuel (n / 10) ((48 + n % 10) ∷ rest) in
    if ltb n 10 then (48 + n) ∷ rest else more

unfoldable pub u32_to_string : ℕ → Str
unfolding digits
u32_to_string n = digits 10 n []

-- `Ipv4Addr::to_string`.
abbrev pub decimal : ℕ → Str
decimal n =
    if ltb n 10
    then (48 + n) ∷ []
    else if ltb n 100
    then (48 + n / 10) ∷ (48 + n % 10) ∷ []
    else (48 + n / 100) ∷ (48 + n / 10 % 10) ∷ (48 + n % 10) ∷ []

unfoldable pub address_text : Bytes → Str
address_text [] = []
address_text (n ∷ []) = decimal n
address_text (n ∷ m ∷ ns) = let rest = address_text (m ∷ ns) in decimal n ++ (0x2E ∷ rest)

-- `(!s.is_empty()).then_some(s)`.
abbrev pub nonempty : Str → Option Str
nonempty [] = none
nonempty (c ∷ cs) = some (c ∷ cs)
