-- ===== src/App/Ids.antt =====
-- main.rs: `gen_id`, the id of a new profile, which is the time of the clock.
pub mod Clicks
use mac_os_sstp_client.Prelude.{
  ℕ, zero, suc, ◌+◌, ◌*◌, ◌-◌, ◌/◌, ◌%◌, ◌^◌, ◌<◌, ◌≤◌, ◌≡◌, ◌≢◌, ◌∙◌, inl, inr, refl, ap, sym,
  arith, List, [], ◌∷◌, ◌++◌, map, All-append, Bool, ltb, if◌then◌else◌, Bool-cases, All, retain,
}
use mac_os_sstp_client.Prelude.Text.{Str}
use mac_os_sstp_client.App.{Profile}

abbrev lower_hex_digit : ℕ → ℕ
lower_hex_digit d = if ltb d 10 then 48 + d else 87 + d

hex_digits : ℕ → ℕ → Str → Str
hex_digits zero n rest = rest
hex_digits (suc fuel) n rest =
    let more = hex_digits fuel (n / 16) (lower_hex_digit (n % 16) ∷ rest) in
    if ltb n 16 then lower_hex_digit n ∷ rest else more

-- "{:x}" of the nanoseconds since 1970, a u128: 32 digits are enough.
pub gen_id : ℕ → Str
unfolding hex_digits
gen_id nanos = hex_digits 32 nanos []

abbrev hex_value : ℕ → ℕ
hex_value c = if ltb c 58 then c - 48 else c - 87

read_hex : ℕ → Str → ℕ
read_hex n [] = n
read_hex n (c ∷ cs) = read_hex (n * 16 + hex_value c) cs

abbrev sixteen_to : ℕ → ℕ
sixteen_to zero = 1
sixteen_to (suc k) = 16 * sixteen_to k

hex_value-lower_hex_digit : (d : ℕ) → d < 16 → hex_value (lower_hex_digit d) ≡ d
hex_value-lower_hex_digit d h = ground arith

first_digit :
    (n : ℕ) (rest : Str) → n < 16 → read_hex 0 (lower_hex_digit n ∷ rest) ≡ read_hex n rest
unfolding read_hex
first_digit n rest h =
    let value : 0 * 16 + hex_value (lower_hex_digit n) ≡ n =
      omega (arith, hex_value-lower_hex_digit n h) in
    ap (λ m. read_hex m rest) value

next_digit :
    (n d : ℕ) (rest : Str)
    → d < 16
    → read_hex n (lower_hex_digit d ∷ rest) ≡ read_hex (n * 16 + d) rest
unfolding read_hex
next_digit n d rest h = ap (λ e. read_hex (n * 16 + e) rest) (hex_value-lower_hex_digit d h)

read_hex-hex_digits :
    (fuel n : ℕ) (rest : Str)
    → n < sixteen_to fuel
    → read_hex 0 (hex_digits fuel n rest) ≡ read_hex n rest
unfolding hex_digits read_hex
read_hex-hex_digits zero n rest h = let nothing : n ≡ 0 = omega (arith, h) in rw nothing refl
read_hex-hex_digits (suc fuel) n rest h = elim (Bool-cases (ltb n 16)) [
  | inl y ↦ rw y (first_digit n rest (ground arith))
  | inr more ↦ rw more (
      read_hex-hex_digits fuel (n / 16) (lower_hex_digit (n % 16) ∷ rest) (omega (arith, h))
      ∙ next_digit (n / 16) (n % 16) rest (omega arith)
      ∙ ap (λ m. read_hex m rest) (omega arith))
]

-- Different times have different ids.
gen_id_differs : (n m : ℕ) → n < 2 ^ 128 → m < n → gen_id m ≢ gen_id n
unfolding gen_id read_hex
gen_id_differs n m h l q = omega (
  arith,
  l,
  sym (read_hex-hex_digits 32 m [] (omega (arith, h, l)))
      ∙ ap (read_hex 0) q
      ∙ read_hex-hex_digits 32 n [] h,
)

abbrev pub ids_of : List Profile → List Str
ids_of ps = map (λ p. p.id) ps

abbrev pub Distinct : List Str → Type 0
Distinct [] = Unit {0}
Distinct (s ∷ ss) = All (λ t. s ≢ t) ss × Distinct ss

-- Each was made before the time `t`, and no two are the same.
abbrev pub IsStamped : ℕ → List Str → Type 0
IsStamped t ss = All (λ s. (n : ℕ) × (n < t) × (s ≡ gen_id n)) ss × Distinct ss

pub All-map {ℓ} :
    {A : Type ℓ} {P Q : A → Type 0} (xs : List A) → ((x : A) → P x → Q x) → All P xs → All Q xs
All-map [] f h = tt
All-map (x ∷ xs) f (h, hs) = (f x h, All-map xs f hs)

Distinct-last :
    (ss : List Str) (t : Str) → Distinct ss → All (λ s. s ≢ t) ss → Distinct (ss ++ (t ∷ []))
Distinct-last [] t d h = (tt, tt)
Distinct-last (s ∷ ss) t (n, d) (m, h) =
    (All-append (λ u. s ≢ u) ss (t ∷ []) n (m, tt), Distinct-last ss t d h)

-- An id that is made now differs from all those before.
pub IsStamped-last :
    (t t' : ℕ) (ss : List Str)
    → t ≤ t'
    → t' < 2 ^ 128
    → IsStamped t ss
    → IsStamped (suc t') (ss ++ (gen_id t' ∷ []))
IsStamped-last t t' ss l h (made, d) = (
  All-append (λ s. (n : ℕ) × (n < suc t') × (s ≡ gen_id n)) ss (gen_id t' ∷ [])
      (All-map ss (λ s (n, k, q). (n, omega (arith, k, l), q)) made) ((t', omega arith, refl), tt),
  Distinct-last ss (gen_id t') d (
      All-map ss (λ s (n, k, q) same. gen_id_differs t' n h (omega (arith, k, l)) (sym q ∙ same))
        made),
)

module _ (keeps : Profile → Bool) where
  pub All-retain :
      (P : Str → Type 0) (ps : List Profile) → All P (ids_of ps) → All P (ids_of (retain keeps ps))
  All-retain P [] h = tt
  All-retain P (p ∷ ps) (h, hs) = elim (Bool-cases (keeps p)) [
    | inl y ↦ rw y (h, All-retain P ps hs)
    | inr n ↦ rw n (All-retain P ps hs)
  ]

  pub Distinct-retain :
      (ps : List Profile) → Distinct (ids_of ps) → Distinct (ids_of (retain keeps ps))
  Distinct-retain [] d = tt
  Distinct-retain (p ∷ ps) (n, d) = elim (Bool-cases (keeps p)) [
    | inl y ↦ rw y (All-retain (λ t. p.id ≢ t) ps n, Distinct-retain ps d)
    | inr m ↦ rw m (Distinct-retain ps d)
  ]
