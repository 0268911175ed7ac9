-- ===== src/Http/Responses.antt =====
-- `parse_response` of http.rs on a buffer that grows, and what it leaves to the packet reader.
use mac_os_sstp_client.Prelude.{
  ℕ, suc, ◌+◌, ◌≡◌, ◌≢◌, ◌≤◌, inl, inr, refl, ap, arith, [], ◌∷◌, ◌++◌, Option, none, some, true,
  false, ◌==◌, length, take, drop, take-append, Bytes, ok, err, Option-cases, Bool-cases,
}
use mathlib.Core.Path.{subst}
use mac_os_sstp_client.Prelude.Text.{Str, from_utf8_lossy}
use mac_os_sstp_client.Http.{
  incomplete, is_double_crlf, shifted, first_line, find_double_crlf, judge, status_code,
  parse_found, parse_response,
}

abbrev pub double_crlf : Bytes
double_crlf = 13 ∷ 10 ∷ 13 ∷ 10 ∷ []

-- The bytes up to the blank line, and those behind it.
abbrev pub Splits : Bytes → ℕ → Type 0
Splits buf i = buf ≡ take i buf ++ (double_crlf ++ drop 4 (drop i buf))

abbrev pub Found : Bytes → Bytes → Option ℕ → Type 0
Found buf more none = Unit {0}
Found buf more (some i) =
    (find_double_crlf (buf ++ more) ≡ some i) × (i + 4 ≤ length buf) × Splits buf i

here_lem :
    (buf more : Bytes)
    → is_double_crlf buf ≡ true
    → (is_double_crlf (buf ++ more) ≡ true) × (4 ≤ length buf) × Splits buf 0
here_lem (a ∷ b ∷ c ∷ d ∷ rest) more h = (ground (arith, h), omega arith, ground (arith, h))
here_lem [] more h = cc
here_lem (_ ∷ []) more h = cc
here_lem (_ ∷ _ ∷ []) more h = cc
here_lem (_ ∷ _ ∷ _ ∷ []) more h = cc

later_lem :
    (a : ℕ) (bs more : Bytes)
    → 4 ≤ length bs
    → is_double_crlf ((a ∷ bs) ++ more) ≡ is_double_crlf (a ∷ bs)
later_lem a (_ ∷ _ ∷ _ ∷ bs) more h = refl
later_lem a [] more h = absurd (omega arith)
later_lem a (_ ∷ []) more h = absurd (omega arith)
later_lem a (_ ∷ _ ∷ []) more h = absurd (omega arith)

-- One byte in front of a buffer in which the blank line was found.
later-Found :
    (a : ℕ) (bs more : Bytes) (i : ℕ)
    → is_double_crlf (a ∷ bs) ≡ false
    → Found bs more (some i)
    → Found (a ∷ bs) more (some (suc i))
unfolding find_double_crlf
later-Found a bs more i e (found, fits, splits) =
    (rw (later_lem a bs more (omega arith), e, found) refl, omega arith, ap (λ xs. a ∷ xs) splits)

shifted-Found :
    (a : ℕ) (bs more : Bytes) (later : Option ℕ)
    → is_double_crlf (a ∷ bs) ≡ false
    → Found bs more later
    → Found (a ∷ bs) more (shifted later)
shifted-Found a bs more none e h = tt
shifted-Found a bs more (some i) e h = later-Found a bs more i e h

find_double_crlf_lem : (buf more : Bytes) → Found buf more (find_double_crlf buf)
unfolding find_double_crlf
find_double_crlf_lem [] more = tt
find_double_crlf_lem (a ∷ bs) more = elim (Bool-cases (is_double_crlf (a ∷ bs))) [
  | inl e ↦
      let (there, fits, splits) = here_lem (a ∷ bs) more e in
      rw (e, Found) (rw there refl, fits, splits)
  | inr e ↦
      rw (e, Found) (shifted-Found a bs more (find_double_crlf bs) e (find_double_crlf_lem bs more))
]

-- Once the response has an answer other than "incomplete", more bytes do not change it.
pub parse_response-append :
    (buf more : Bytes)
    → parse_response buf ≢ err incomplete
    → parse_response (buf ++ more) ≡ parse_response buf
unfolding parse_response parse_found
parse_response-append buf more h = elim (Option-cases (find_double_crlf buf)) [
  | inl q ↦ absurd (h (rw (q, parse_response) refl))
  | inr (i, q) ↦
      let (found, fits, splits) = subst (Found buf more) q (find_double_crlf_lem buf more) in
      rw (q, found, take-append i buf more (omega arith)) refl
]

judge_ok :
    (line : Str) (header_end : ℕ) (status : Option ℕ) {code n : ℕ}
    → judge line header_end status ≡ ok (code, n)
    → (code ≡ 200) × (n ≡ header_end + 4)
unfolding judge
judge_ok line header_end none h = cc
judge_ok line header_end (some k) {code} {n} h = elim (Bool-cases (k == 200)) [
  | inl e ↦ ground arith
  | inr e ↦ ground arith
]

-- A response is accepted only with status 200. The offset it gives is behind a blank line of the
-- buffer and within the buffer.
pub parse_response_accepts :
    (buf : Bytes) {code n : ℕ}
    → parse_response buf ≡ ok (code, n)
    → (code ≡ 200) × (n ≤ length buf) × ((i : ℕ) × (n ≡ i + 4) × Splits buf i)
unfolding parse_response parse_found
parse_response_accepts buf {code} {n} h = elim (Option-cases (find_double_crlf buf)) [
  | inl q ↦ cc (rw (q, parse_response) at h)
  | inr (i, q) ↦
      let (found, fits, splits) = subst (Found buf []) q (find_double_crlf_lem buf []) in
      let line = first_line (from_utf8_lossy (take i buf)) in
      let (two, behind) = judge_ok line i (status_code line) (rw (q, parse_response) at h) in
      (two, omega arith, (i, behind, splits))
]
