-- ===== src/Prelude/Text/Ascii.antt =====
-- Printable ASCII through the text functions: what the decoder of UTF-8 leaves alone and
-- `split_whitespace` takes as one token.
use Prim.Native.Nat.{ℕ, ◌<◌}
use mathlib.Core.Path.{◌≡◌, refl}
use mathlib.Core.Bool.{true}
use mathlib.Core.List.{[], ◌∷◌, ◌++◌}
use mathlib.Core.Option.{some}
use native.Mathlib.Omega.{arith}
use mac_os_sstp_client.Prelude.Lists.{All}
use mac_os_sstp_client.Prelude.Octets.{Bytes}
use mac_os_sstp_client.Prelude.Text.{
  Str, from_utf8_lossy, lossy_from, decode_byte, lead, first_token, until_whitespace,
  eq_ignore_ascii_case,
}

-- A printable ASCII character.
abbrev pub IsPrint : ℕ → Type 0
IsPrint b = (32 < b) × (b < 127)

-- Any ASCII.
pub from_utf8_lossy_below :
    (s more : Bytes)
    → All (λ b. b < 128) s
    → from_utf8_lossy (s ++ more) ≡ s ++ from_utf8_lossy more
unfolding from_utf8_lossy lossy_from decode_byte lead
from_utf8_lossy_below [] more h = refl
from_utf8_lossy_below (x ∷ s) more (hx, h) = ground (arith, from_utf8_lossy_below s more h)

pub from_utf8_lossy-ascii :
    (s more : Bytes) → All IsPrint s → from_utf8_lossy (s ++ more) ≡ s ++ from_utf8_lossy more
unfolding from_utf8_lossy lossy_from decode_byte lead
from_utf8_lossy-ascii [] more h = refl
from_utf8_lossy-ascii (x ∷ s) more (hx, h) = ground (arith, from_utf8_lossy-ascii s more h)

-- Nothing, or something that starts with a space.
abbrev pub IsBreak : Bytes → Type 0
IsBreak [] = Unit {0}
IsBreak (b ∷ bs) = b ≡ 0x20

until_whitespace-token :
    (s more : Str) → All IsPrint s → until_whitespace more ≡ [] → until_whitespace (s ++ more) ≡ s
unfolding until_whitespace
until_whitespace-token [] more h hm = hm
until_whitespace-token (x ∷ s) more (hx, h) hm = ground (arith, until_whitespace-token s more h hm)

lossy-break : (bs : Bytes) → IsBreak bs → until_whitespace (from_utf8_lossy bs) ≡ []
unfolding until_whitespace from_utf8_lossy lossy_from decode_byte lead
lossy-break [] h = refl
lossy-break (b ∷ bs) h = ground arith

pub eq_ignore_ascii_case_refl : (s : Str) → eq_ignore_ascii_case s s ≡ true
unfolding eq_ignore_ascii_case
eq_ignore_ascii_case_refl [] = refl
eq_ignore_ascii_case_refl (x ∷ s) = ground (arith, eq_ignore_ascii_case_refl s)

pub token_accepted :
    (x : ℕ) (s : Str) (more : Bytes)
    → All IsPrint (x ∷ s)
    → IsBreak more
    → first_token (from_utf8_lossy ((x ∷ s) ++ more)) ≡ some (x ∷ s)
unfolding first_token
token_accepted x s more h hm =
    let (hx, hs) = h in
    rw (from_utf8_lossy-ascii (x ∷ s) more h)
      (ground (arith, until_whitespace-token s (from_utf8_lossy more) hs (lossy-break more hm)))
