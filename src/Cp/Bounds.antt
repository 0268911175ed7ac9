-- ===== src/Cp/Bounds.antt =====
-- cp.rs: what LCP and IPCP both keep in bounds.
use mac_os_sstp_client.Prelude.{
  ℕ, zero, suc, ◌+◌, ◌<◌, ◌≡◌, List, [], ◌∷◌, Option, none, some, Bool, true, ◌==◌, ◌||◌, if-both,
  ltb, length, take, Bytes, AreBytes, of_be16, All, Bool-cases, inl, inr,
}
use mac_os_sstp_client.Cp.{Frame, Opt, decode}
use mac_os_sstp_client.Cp.Options.{FitsOpt}
use mac_os_sstp_client.Cp.Desired.{set_value}

-- An option of a kind that is on offer, and short enough for its length octet.
abbrev pub IsOffer : (ℕ → Bool) → Opt → Type 0
IsOffer offered o = FitsOpt o × (offered o.kind ≡ true)

abbrev pub IsSent : Option ℕ → Type 0
IsSent none = Unit {0}
IsSent (some id) = id < 256

pub set_value-offers :
    (offered : ℕ → Bool) (k : ℕ) (value : Bytes) (os : List Opt)
    → 2 + length value < 256
    → All (IsOffer offered) os
    → All (IsOffer offered) (set_value k value os)
set_value-offers offered k value [] f h = tt
set_value-offers offered k value (o ∷ os) f ((g, is_offered), h) = elim (Bool-cases (o.kind == k)) [
  | inl y ↦ rw y ((f, is_offered), h)
  | inr n ↦ rw n ((g, is_offered), set_value-offers offered k value os f h)
]

AreBytes-take : (n : ℕ) (xs : Bytes) → AreBytes xs → AreBytes (take n xs)
AreBytes-take zero xs h = tt
AreBytes-take (suc n) [] h = tt
AreBytes-take (suc n) (x ∷ xs) (b, h) = (b, AreBytes-take n xs h)

abbrev pub PayloadOk : Option Frame → Type 0
PayloadOk none = Unit {0}
PayloadOk (some frame) = AreBytes frame.payload

pub decode-PayloadOk : (bytes : Bytes) → AreBytes bytes → PayloadOk (decode bytes)
unfolding decode
decode-PayloadOk [] h = tt
decode-PayloadOk (a ∷ []) h = tt
decode-PayloadOk (a ∷ b ∷ []) h = tt
decode-PayloadOk (a ∷ b ∷ c ∷ []) h = tt
decode-PayloadOk (a ∷ b ∷ c ∷ d ∷ rest) (_, (_, (_, (_, h)))) =
    if-both PayloadOk (ltb (of_be16 c d) 4 || ltb (4 + length rest) (of_be16 c d)) _ _ (λ y. tt)
      (λ n. AreBytes-take _ rest h)
