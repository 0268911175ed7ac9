-- ===== src/Cp/Desired.antt =====
-- The list of options that a side asks for, as lcp.rs and ipcp.rs both keep it.
use mac_os_sstp_client.Prelude.{
  ℕ, ◌+◌, ◌<◌, ◌≡◌, ap, arith, List, [], ◌∷◌, Bool, not, length, any, All, retain, ◌==◌, ==_eq,
  if◌then◌else◌, Bytes, Option, none, some, Bool-cases, inl, inr,
}
use mac_os_sstp_client.Cp.{Opt}
use mac_os_sstp_client.Cp.Options.{FitsOpt}

-- `desired.iter_mut().find(|o| o.kind == kind)`, and the write through what it finds: the first
-- option of that kind takes the value.
abbrev pub set_value : ℕ → Bytes → List Opt → List Opt
set_value kind value [] = []
set_value kind value (o ∷ os) =
    if o.kind == kind then record o { value = value } ∷ os else o ∷ set_value kind value os

-- `rejected.iter().any(|r| r.kind == o.kind)`.
abbrev pub names_kind : List Opt → Opt → Bool
names_kind rejected o = any (λ r. r.kind == o.kind) rejected

-- `desired.retain(|o| !rejected.iter().any(|r| r.kind == o.kind))`.
abbrev pub without : List Opt → List Opt → List Opt
without rejected desired = retain (λ o. not (names_kind rejected o)) desired

-- The value that is asked for under a kind.
abbrev pub value_of : ℕ → List Opt → Option Bytes
value_of kind [] = none
value_of kind (o ∷ os) = if o.kind == kind then some o.value else value_of kind os

pub set_value-Fits :
    (k : ℕ) (v : Bytes) (os : List Opt)
    → 2 + length v < 256
    → All FitsOpt os
    → All FitsOpt (set_value k v os)
set_value-Fits k v [] hv h = tt
set_value-Fits k v (o ∷ os) hv h = ground (arith, set_value-Fits k v os hv h.1)

pub retain-All {ℓ κ} :
    {A : Type ℓ} (P : A → Type κ) (p : A → Bool) (xs : List A) → All P xs → All P (retain p xs)
retain-All P p [] h = h
retain-All P p (x ∷ xs) h = elim (Bool-cases (p x)) [
  | inl e ↦ rw e (h.0, retain-All P p xs h.1)
  | inr e ↦ rw e (retain-All P p xs h.1)
]

-- A value that was suggested is what is asked for next, for a kind that is on offer.
pub value_of-set_value :
    (k j : ℕ) (v : Bytes) (os : List Opt)
    → value_of j (set_value k v os)
      ≡ (if k == j then (if any (λ o. o.kind == k) os then some v else none) else value_of j os)
value_of-set_value k j v [] = ground arith
value_of-set_value k j v (o ∷ os) = ground (arith, value_of-set_value k j v os)

-- What was rejected is no longer asked for, and nothing else is dropped.
pub value_of-without :
    (j : ℕ) (rejected os : List Opt)
    → value_of j (without rejected os)
      ≡ (if any (λ r. r.kind == j) rejected then none else value_of j os)
value_of-without j rejected [] = ground arith
value_of-without j rejected (o ∷ os) = elim (Bool-cases (o.kind == j)) [
  | inl e ↦ ground (
    arith,
    ap (λ (k : ℕ). any (λ r. r.kind == k) rejected) (==_eq o.kind j e),
    value_of-without j rejected os,
  )
  | inr e ↦ ground (arith, value_of-without j rejected os)
]
