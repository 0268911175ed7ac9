-- ===== src/Host/Passwords.antt =====
-- keychain.rs: the password that is read back.
use mac_os_sstp_client.Prelude.{
  ℕ, ◌+◌, ◌<◌, ◌≤◌, ◌≡◌, ◌≢◌, ◌∙◌, refl, ap, sym, ◌↔◌, arith, [], ◌∷◌, ◌++◌, All, some, Bool, true,
  false, length, Bool-cases, inl, inr,
}
use mac_os_sstp_client.Prelude.Text.{
  Str, from_utf8_lossy, lossy_from, decode_byte, lead, is_whitespace,
}
use mac_os_sstp_client.Prelude.Text.Ascii.{from_utf8_lossy_below}
use mac_os_sstp_client.Prelude.Text.Lines.{nonempty, trim, trim_start, trim_end, trimmed_onto}
use mac_os_sstp_client.Host.{keychain_get}

-- White space at the end is trimmed.
trim_end_blank : (s : Str) (w : ℕ) → is_whitespace w ≡ true → trim_end (s ++ (w ∷ [])) ≡ trim_end s
unfolding trim_end
trim_end_blank [] w h = rw h refl
trim_end_blank (c ∷ cs) w h = rw (trim_end_blank cs w h) refl

trim_blank : (s : Str) (w : ℕ) → is_whitespace w ≡ true → trim (s ++ (w ∷ [])) ≡ trim s
unfolding trim trim_start trim_end
trim_blank [] w h = rw h refl
trim_blank (c ∷ cs) w h = elim (Bool-cases (is_whitespace c)) [
  | inl y ↦ rw y (trim_blank cs w h)
  | inr n ↦ rw n (trim_end_blank (c ∷ cs) w h)
]

length-trimmed_onto : (c : ℕ) (s : Str) → length (trimmed_onto c s) ≤ length s + 1
length-trimmed_onto c [] = elim (Bool-cases (is_whitespace c)) [
  | inl y ↦ rw y (omega arith)
  | inr n ↦ rw n (omega arith)
]
length-trimmed_onto c (d ∷ ds) = omega arith

length-trim_end : (s : Str) → length (trim_end s) ≤ length s
unfolding trim_end
length-trim_end [] = omega arith
length-trim_end (c ∷ cs) = omega (arith, length-trimmed_onto c (trim_end cs), length-trim_end cs)

length-trim : (s : Str) → length (trim s) ≤ length s
unfolding trim trim_start
length-trim [] = length-trim_end []
length-trim (c ∷ cs) = elim (Bool-cases (is_whitespace c)) [
  | inl y ↦ rw y (omega (arith, length-trim cs))
  | inr n ↦ rw n (length-trim_end (c ∷ cs))
]

abbrev pub first_blank : Str → Bool
first_blank [] = false
first_blank (c ∷ cs) = is_whitespace c

abbrev pub last_blank : Str → Bool
last_blank [] = false
last_blank (c ∷ []) = is_whitespace c
last_blank (c ∷ d ∷ ds) = last_blank (d ∷ ds)

trim_end-same : (s : Str) → last_blank s ≡ false → trim_end s ≡ s
unfolding trim_end
trim_end-same [] h = refl
trim_end-same (c ∷ []) h = rw h refl
trim_end-same (c ∷ d ∷ ds) h = ap (trimmed_onto c) (trim_end-same (d ∷ ds) h)

trim_end-shorter : (s : Str) → last_blank s ≡ true → length (trim_end s) < length s
unfolding trim_end
trim_end-shorter [] h = cc
trim_end-shorter (c ∷ []) h = rw h (omega arith)
trim_end-shorter (c ∷ d ∷ ds) h =
    omega (arith, length-trimmed_onto c (trim_end (d ∷ ds)), trim_end-shorter (d ∷ ds) h)

trim-trim_end : (s : Str) → first_blank s ≡ false → trim s ≡ trim_end s
unfolding trim trim_start
trim-trim_end [] h = refl
trim-trim_end (c ∷ cs) h = rw h refl

trim-shorter : (s : Str) → first_blank s ≡ true → length (trim s) < length s
unfolding trim trim_start
trim-shorter [] h = cc
trim-shorter (c ∷ cs) h = rw h (omega (arith, length-trim cs))

keychain_get_trimmed :
    (s : Str)
    → All (λ b. b < 128) s
    → keychain_get (some (true, s ++ (0x0A ∷ []))) ≡ nonempty (trim s)
unfolding keychain_get from_utf8_lossy lossy_from decode_byte lead
keychain_get_trimmed s h =
    ap (λ t. nonempty (trim t)) (from_utf8_lossy_below s (0x0A ∷ []) h)
    ∙ ap nonempty (trim_blank s 0x0A refl)

nonempty-same : (s t : Str) → nonempty s ≡ some t → s ≡ t
nonempty-same [] t h = cc
nonempty-same (c ∷ cs) t h = cc

no_shorter : (s t : Str) → length s < length t → s ≡ t → ⊥
no_shorter s t h q = omega (arith, ap length q)

kept : (s : Str) → s ≢ [] → nonempty s ≡ some s
kept [] n = absurd (n refl)
kept (c ∷ cs) n = refl

not_blank : (b : Bool) → (b ≡ true → ⊥) → b ≡ false
not_blank true n = absurd (n refl)
not_blank false n = refl

-- When the keychain answers with the password that was saved and a line feed, a password in ASCII
-- that is not empty is read back exactly when it neither begins nor ends with white space.
pub password_read_back :
    (s : Str)
    → All (λ b. b < 128) s
    → s ≢ []
    → (keychain_get (some (true, s ++ (0x0A ∷ []))) ≡ some s)
      ↔ ((first_blank s ≡ false) × (last_blank s ≡ false))
password_read_back s h n =
    let trimmed = keychain_get_trimmed s h in
    (
      λ q.
          let same : trim s ≡ s = nonempty-same (trim s) s (sym trimmed ∙ q) in
          let first =
            not_blank (first_blank s) (λ b. no_shorter (trim s) s (trim-shorter s b) same) in
          (
            first,
            not_blank (last_blank s) (λ b.
                no_shorter (trim_end s) s (trim_end-shorter s b)
                  (sym (trim-trim_end s first) ∙ same)),
          ),
      λ (first, last).
          trimmed ∙ ap nonempty (trim-trim_end s first ∙ trim_end-same s last) ∙ kept s n,
    )
