-- ===== src/Cp/Options.antt =====
-- `encode_options` and `decode_options` of cp.rs.
use mac_os_sstp_client.Prelude.{
  ℕ, zero, suc, ◌+◌, ◌-◌, ◌≤◌, ◌<◌, ◌≡◌, refl, sym, ap, ◌∙◌, arith, List, [], ◌∷◌, ◌++◌, Bytes,
  as_u8, AreBytes, All, length, take, drop, ltb, take-length, drop-length, length-append,
  length-take, length-drop, take-append-drop, Bool-cases, ◌||◌, inl, inr, append_assoc, append-nil,
}
use mac_os_sstp_client.Cp.{Opt, encode_options, decode_options_loop, decode_options}

-- An option that fits its length byte.
abbrev pub FitsOpt : Opt → Type 0
FitsOpt o = 2 + length o.value < 256

-- Fuel that reaches the end of the buffer is as good as more fuel.
loop_fuel :
    (f g : ℕ) (buf : Bytes)
    → length buf ≤ f
    → length buf ≤ g
    → decode_options_loop f buf ≡ decode_options_loop g buf
unfolding decode_options_loop
loop_fuel zero zero buf hf hg = refl
loop_fuel zero (suc g) [] hf hg = refl
loop_fuel zero (suc g) (x ∷ xs) hf hg = absurd (omega arith)
loop_fuel (suc f) zero [] hf hg = refl
loop_fuel (suc f) zero (x ∷ xs) hf hg = absurd (omega arith)
loop_fuel (suc f) (suc g) [] hf hg = refl
loop_fuel (suc f) (suc g) (x ∷ []) hf hg = refl
loop_fuel (suc f) (suc g) (k ∷ l ∷ rest) hf hg = rw (
    loop_fuel f g (drop (l - 2) rest) (omega (arith, length-drop (l - 2) rest))
      (omega (arith, length-drop (l - 2) rest)))

take_value : (xs ys : Bytes) → take (2 + length xs - 2) (xs ++ ys) ≡ xs
take_value xs ys = let e : 2 + length xs - 2 ≡ length xs = omega arith in rw e (take-length xs ys)

drop_value : (xs ys : Bytes) → drop (2 + length xs - 2) (xs ++ ys) ≡ ys
drop_value xs ys = let e : 2 + length xs - 2 ≡ length xs = omega arith in rw e (drop-length xs ys)

-- Options that fit their length bytes are read back in order, and the bytes behind them are
-- decoded as if they stood alone.
pub decode_options-encode_options :
    (opts : List Opt) (more : Bytes)
    → All FitsOpt opts
    → decode_options (encode_options opts ++ more) ≡ opts ++ decode_options more
unfolding decode_options encode_options
decode_options-encode_options [] more h = refl
decode_options-encode_options (o ∷ opts) more (ho, h) =
    let tail = encode_options opts ++ more in
    let byte : as_u8 (2 + length o.value) ≡ 2 + length o.value = omega arith in
    rw
      (
        append_assoc o.value (encode_options opts) more,
        byte,
        take_value o.value tail,
        drop_value o.value tail,
        loop_fuel (suc (length ((o.value ++ encode_options opts) ++ more))) (length tail) tail
            (omega (
              arith,
              ap (λ xs. length xs) (append_assoc o.value (encode_options opts) more),
              length-append o.value tail,
            ))
            (omega arith),
        decode_options-encode_options opts more h,
      )
      (ground (arith, length-append o.value tail))

-- What the decoder reads of a buffer is what stands there: encoding the options again gives the
-- front of the buffer, and the bytes left out hold no further option.
abbrev pub Accounts : Bytes → List Opt → Type 0
Accounts buf opts =
    (tail : Bytes) × (buf ≡ encode_options opts ++ tail) × (decode_options tail ≡ [])

AreBytes-drop : (n : ℕ) (xs : Bytes) → AreBytes xs → AreBytes (drop n xs)
AreBytes-drop zero xs h = h
AreBytes-drop (suc n) [] h = h
AreBytes-drop (suc n) (x ∷ xs) h = AreBytes-drop n xs h.1

-- One option in front of the rest of the buffer.
cons-Accounts :
    (k l : ℕ) (rest : Bytes) (opts : List Opt)
    → l < 256
    → 2 ≤ l
    → l ≤ 2 + length rest
    → Accounts (drop (l - 2) rest) opts
    → Accounts (k ∷ l ∷ rest) (record { kind = k; value = take (l - 2) rest } ∷ opts)
unfolding encode_options
cons-Accounts k l rest opts hl two fits (tail, e, none_left) =
    let len : as_u8 (2 + length (take (l - 2) rest)) ≡ l =
      omega (arith, length-take (l - 2) rest) in
    let cut : rest ≡ take (l - 2) rest ++ (encode_options opts ++ tail) =
      rw (← e) (sym (take-append-drop (l - 2) rest)) in
    (
      tail,
      rw (len, append_assoc (take (l - 2) rest) (encode_options opts) tail)
          (ap (λ r. k ∷ l ∷ r) cut),
      none_left,
    )

loop-Accounts :
    (f : ℕ) (buf : Bytes) → length buf ≤ f → AreBytes buf → Accounts buf (decode_options_loop f buf)
unfolding decode_options_loop decode_options encode_options
loop-Accounts zero [] hf h = ([], refl, refl)
loop-Accounts zero (x ∷ xs) hf h = absurd (omega arith)
loop-Accounts (suc f) [] hf h = ([], refl, refl)
loop-Accounts (suc f) (x ∷ []) hf h = (x ∷ [], refl, refl)
loop-Accounts (suc f) (k ∷ l ∷ rest) hf h = elim (Bool-cases (ltb l 2 || ltb (2 + length rest) l)) [
  | inl bad ↦ rw bad (k ∷ l ∷ rest, refl, rw bad)
  | inr good ↦ rw good (
      cons-Accounts k l rest _ (h.1.0) (ground arith) (ground arith) (
        loop-Accounts f (drop (l - 2) rest) (omega (arith, length-drop (l - 2) rest))
          (AreBytes-drop (l - 2) rest (h.1.1))))
]

-- For a buffer of bytes, encoding the options that were decoded gives the front of the buffer, and
-- the bytes left out behind it hold no further option.
pub decode_options-Accounts : (buf : Bytes) → AreBytes buf → Accounts buf (decode_options buf)
unfolding decode_options
decode_options-Accounts buf h = loop-Accounts (length buf) buf (omega arith) h

loop-Fits : (f : ℕ) (buf : Bytes) → AreBytes buf → All FitsOpt (decode_options_loop f buf)
unfolding decode_options_loop
loop-Fits zero buf h = tt
loop-Fits (suc f) [] h = tt
loop-Fits (suc f) (x ∷ []) h = tt
loop-Fits (suc f) (k ∷ l ∷ rest) h = ground (
  arith,
  loop-Fits f (drop (l - 2) rest) (AreBytes-drop (l - 2) rest h.1.1),
  length-take (l - 2) rest,
)

-- Every option that was decoded fits its length byte.
pub decode_options-Fits : (buf : Bytes) → AreBytes buf → All FitsOpt (decode_options buf)
unfolding decode_options
decode_options-Fits buf h = loop-Fits (length buf) buf h

-- Options on their own.
pub decode_options_exact :
    (opts : List Opt) → All FitsOpt opts → decode_options (encode_options opts) ≡ opts
unfolding decode_options
decode_options_exact opts h =
    let e : encode_options opts ≡ encode_options opts ++ [] =
      sym (append-nil (encode_options opts)) in
    ap (λ b. decode_options b) e ∙ decode_options-encode_options opts [] h ∙ append-nil opts
