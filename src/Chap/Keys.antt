-- ===== src/Chap/Keys.antt =====
-- The DES keys that chap.rs makes: `set_odd_parity` and `make_key`.
use mac_os_sstp_client.Prelude.{
  ℕ, zero, suc, ◌+◌, ◌*◌, ◌/◌, ◌%◌, ◌<◌, ◌≡◌, refl, ap, arith, [], ◌∷◌, Bool, true, ◌&&◌, ◌||◌, not,
  ◌-◌, ◌^◌, get_or, ◌==◌, length, All, Bytes, bit_and, all_below, all_below_sound,
}
use Prim.Native.Nat.{bit_and-bitwise}
use mac_os_sstp_client.Chap.{
  count_ones, count_ones_below, get7bits, set_odd_parity, make_key_from, make_key,
}

-- The check of one byte whose lowest bit is clear: an odd number of ones, and the seven upper bits
-- as they were.
abbrev is_adjusted : ℕ → Bool
is_adjusted b =
    not (b % 2 == 0) || (count_ones (set_odd_parity b) % 2 == 1 && set_odd_parity b / 2 == b / 2)

all_adjusted : all_below 256 is_adjusted ≡ true
unfolding set_odd_parity count_ones_below
all_adjusted = refl

-- A byte of a DES key: odd parity over its eight bits.
abbrev pub IsOdd : ℕ → Type 0
IsOdd b = count_ones b % 2 ≡ 1

set_odd_parity-IsOdd :
    (b : ℕ) → b < 256 → b % 2 ≡ 0 → IsOdd (set_odd_parity b) × (set_odd_parity b / 2 ≡ b / 2)
set_odd_parity-IsOdd b h even =
    let e : is_adjusted b ≡ true = all_below_sound 256 is_adjusted b all_adjusted h in
    (ground arith, ground arith)

-- The mask clears the lowest bit.
mask-even : (a : ℕ) → bit_and a 0xFE % 2 ≡ 0
mask-even zero = rw (bit_and-bitwise 0 0xFE) refl
mask-even (suc a) = rw (bit_and-bitwise (suc a) 0xFE) (omega arith)

get7bits-even : (key : Bytes) (i : ℕ) → get7bits key i % 2 ≡ 0
unfolding get7bits
get7bits-even key i =
    let word = get_or key (i / 8) 0 * 256 + get_or key (i / 8 + 1) 0 in
    omega (arith, mask-even (word / 2 ^ (15 - (i % 8 + 7))))

get7bits-IsByte : (key : Bytes) (i : ℕ) → get7bits key i < 256
unfolding get7bits
get7bits-IsByte key i = omega arith

-- The seven key bits of each byte of `n` in a row, as they were cut out of the input.
abbrev pub KeepsBits : Bytes → Bytes → ℕ → Type 0
KeepsBits key [] i = Unit {0}
KeepsBits key (b ∷ bs) i = (b / 2 ≡ get7bits key (i * 7) / 2) × KeepsBits key bs (i + 1)

make_key_from_lem :
    (key : Bytes) (n i : ℕ)
    → (length (make_key_from key n i) ≡ n)
      × All IsOdd (make_key_from key n i)
      × KeepsBits key (make_key_from key n i) i
unfolding make_key_from
make_key_from_lem key zero i = (refl, tt, tt)
make_key_from_lem key (suc n) i =
    let (len, odd, kept) = make_key_from_lem key n (i + 1) in
    let (o, k) =
      set_odd_parity-IsOdd (get7bits key (i * 7)) (get7bits-IsByte key (i * 7))
        (get7bits-even key (i * 7)) in
    (ap suc len, (o, odd), (k, kept))

-- A DES key has 8 bytes of odd parity, and the upper seven bits of the byte at each place are the
-- seven bits that were cut out of the input there.
pub make_key_lem :
    (key : Bytes)
    → (length (make_key key) ≡ 8) × All IsOdd (make_key key) × KeepsBits key (make_key key) 0
unfolding make_key
make_key_lem key = make_key_from_lem key 8 0
