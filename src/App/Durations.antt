-- ===== src/App/Durations.antt =====
-- main.rs: `format_duration`, the time for which the tunnel has been up.
use mac_os_sstp_client.Prelude.{
  ℕ, zero, suc, ◌+◌, ◌*◌, ◌-◌, ◌/◌, ◌%◌, ◌<◌, ◌≤◌, ◌≡◌, ◌∙◌, inl, inr, refl, arith, [], ◌∷◌, ◌++◌,
  ltb, ◌==◌, false, append-nil, length-append, true, if◌then◌else◌, Bool-cases, length,
}
use mac_os_sstp_client.Prelude.Text.{Str}
use mac_os_sstp_client.Prelude.Text.Lines.{digits}

-- "{n:02}" for a u64.
unfoldable pub two_digits : ℕ → Str
two_digits n = if ltb n 10 then 48 ∷ (48 + n) ∷ [] else digits 20 n []

unfoldable pub format_duration : ℕ → Str
unfolding two_digits
format_duration secs =
    let h = secs / 3600 in
    let m = secs % 3600 / 60 in
    let s = secs % 60 in
    if ltb 0 h
    then two_digits h ++ (0x3A ∷ (two_digits m ++ (0x3A ∷ two_digits s)))
    else two_digits m ++ (0x3A ∷ two_digits s)

-- What a text with colons says, in units of the last place: `total` units of the places before the
-- present one, and `n` so far in it.
unfoldable pub read_clock : ℕ → ℕ → Str → ℕ
read_clock total n [] = total * 60 + n
read_clock total n (c ∷ cs) =
    let next_place = read_clock (total * 60 + n) 0 cs in
    let next_digit = read_clock total (n * 10 + (c - 48)) cs in
    if c == 0x3A then next_place else next_digit

abbrev ten_to : ℕ → ℕ
ten_to zero = 1
ten_to (suc k) = 10 * ten_to k

read_clock-digit :
    (total n d m : ℕ) (rest : Str)
    → d < 10
    → n * 10 + d ≡ m
    → read_clock total n ((48 + d) ∷ rest) ≡ read_clock total m rest
unfolding read_clock
read_clock-digit total n d m rest h q =
    let digit : (48 + d == 0x3A) ≡ false = ground arith in
    let value : n * 10 + (48 + d - 48) ≡ m = omega (arith, q) in rw (digit, value) refl

read_clock-digits :
    (fuel total n : ℕ) (rest : Str)
    → n < ten_to fuel
    → read_clock total 0 (digits fuel n rest) ≡ read_clock total n rest
unfolding digits
read_clock-digits zero total n rest h = let none : n ≡ 0 = omega (arith, h) in rw none refl
read_clock-digits (suc fuel) total n rest h = elim (Bool-cases (ltb n 10)) [
  | inl y ↦ rw y (read_clock-digit total 0 n n rest (ground arith) (omega arith))
  | inr more ↦ rw more (
      read_clock-digits fuel total (n / 10) ((48 + n % 10) ∷ rest) (omega (arith, h))
      ∙ read_clock-digit total (n / 10) (n % 10) n rest (omega arith) (omega arith))
]

digits-append :
    (fuel n : ℕ) (rest more : Str) → digits fuel n rest ++ more ≡ digits fuel n (rest ++ more)
unfolding digits
digits-append zero n rest more = refl
digits-append (suc fuel) n rest more = elim (Bool-cases (ltb n 10)) [
  | inl y ↦ rw y refl
  | inr y ↦ rw y (digits-append fuel (n / 10) ((48 + n % 10) ∷ rest) more)
]

read_clock-two_digits :
    (total n : ℕ) (rest : Str)
    → n < ten_to 20
    → read_clock total 0 (two_digits n ++ rest) ≡ read_clock total n rest
unfolding two_digits
read_clock-two_digits total n rest h = elim (Bool-cases (ltb n 10)) [
  | inl y ↦ rw y (
      read_clock-digit total 0 0 0 ((48 + n) ∷ rest) (omega arith) (omega arith)
      ∙ read_clock-digit total 0 n n rest (ground arith) (omega arith))
  | inr more ↦ rw (more, digits-append 20 n [] rest) (read_clock-digits 20 total n rest h)
]

read_clock-colon :
    (total n : ℕ) (rest : Str)
    → read_clock total n (0x3A ∷ rest) ≡ read_clock (total * 60 + n) 0 rest
unfolding read_clock
read_clock-colon total n rest = refl

read_clock-place :
    (total n : ℕ) (rest : Str)
    → n < ten_to 20
    → read_clock total 0 (two_digits n ++ (0x3A ∷ rest)) ≡ read_clock (total * 60 + n) 0 rest
read_clock-place total n rest h =
    read_clock-two_digits total n (0x3A ∷ rest) h ∙ read_clock-colon total n rest

read_clock-last : (total n : ℕ) → n < ten_to 20 → read_clock total 0 (two_digits n) ≡ total * 60 + n
unfolding read_clock
read_clock-last total n h = rw (← append-nil (two_digits n)) (read_clock-two_digits total n [] h)

length-two_digits : (n : ℕ) → n < 100 → length (two_digits n) ≡ 2
unfolding two_digits digits
length-two_digits n h = elim (Bool-cases (ltb n 10)) [
  | inl y ↦ rw y refl
  | inr more ↦ let tens : ltb (n / 10) 10 ≡ true = ground (arith, h) in rw (more, tens) refl
]

-- Two places, of which the second is below 60.
minutes_and_seconds :
    (m s : ℕ)
    → m < 60
    → s < 60
    → (length (two_digits m ++ (0x3A ∷ two_digits s)) ≡ 5)
      × (read_clock 0 0 (two_digits m ++ (0x3A ∷ two_digits s)) ≡ m * 60 + s)
minutes_and_seconds m s h h' = (
  length-append (two_digits m) (0x3A ∷ two_digits s)
      ∙ omega
          (arith, length-two_digits m (omega (arith, h)), length-two_digits s (omega (arith, h'))),
  read_clock-place 0 m (two_digits s) (omega (arith, h))
      ∙ read_clock-last (0 * 60 + m) s (omega (arith, h'))
      ∙ omega arith,
)

-- Below an hour the text of a duration has five characters, which read back as minutes and seconds
-- say the duration. From an hour on it is the number of the full hours and a colon in front of such
-- five characters, which say the rest; that is so below 2 ^ 64 seconds.
pub read_clock-format_duration :
    (secs : ℕ)
    → secs < 18446744073709551616
    → (secs < 3600
        → (length (format_duration secs) ≡ 5) × (read_clock 0 0 (format_duration secs) ≡ secs))
      × (3600 ≤ secs
          → (hours : Str) × (rest : Str) × (format_duration secs ≡ hours ++ (0x3A ∷ rest))
            × (read_clock 0 0 hours ≡ secs / 3600)
            × (length rest ≡ 5)
            × (read_clock 0 0 rest ≡ secs % 3600))
unfolding format_duration
read_clock-format_duration secs h =
    let h' = secs / 3600 in
    let m = secs % 3600 / 60 in
    let s = secs % 60 in
    let (five, said) = minutes_and_seconds m s (omega arith) (omega arith) in
    (
      λ short.
          let none : ltb 0 h' ≡ false = ground (arith, short) in
          rw none (five, said ∙ omega (arith, short)),
      λ long.
          let more : ltb 0 h' ≡ true = ground (arith, long) in
          (
            two_digits h',
            two_digits m ++ (0x3A ∷ two_digits s),
            rw more refl,
            read_clock-last 0 h' (omega (arith, h)) ∙ omega arith,
            five,
            said ∙ omega arith,
          ),
    )
