-- ===== src/Prelude/Text/Equal.antt =====
-- Whether two texts are the same: `==` of `str`.
use mathlib.Core.Path.{◌≡◌, refl}
use mathlib.Core.Bool.{Bool, true, false, ◌&&◌}
use mathlib.Core.List.{[], ◌∷◌}
use mac_os_sstp_client.Prelude.Tests.{◌==◌, ==_eq, ==_refl, Bool-cases}
use mathlib.Core.Logic.{inl, inr}
use mac_os_sstp_client.Prelude.Text.{Str}

abbrev pub same_str : Str → Str → Bool
same_str [] [] = true
same_str (x ∷ xs) (y ∷ ys) = x == y && same_str xs ys
same_str _ _ = false

pub same_str_refl : (s : Str) → same_str s s ≡ true
same_str_refl [] = refl
same_str_refl (c ∷ cs) = rw (==_refl c) (same_str_refl cs)

pub same_str_eq : (s t : Str) → same_str s t ≡ true → s ≡ t
same_str_eq [] [] h = refl
same_str_eq [] (d ∷ ds) h = cc
same_str_eq (c ∷ cs) [] h = cc
same_str_eq (c ∷ cs) (d ∷ ds) h = elim (Bool-cases (c == d)) [
  | inl y ↦ rw (==_eq c d y, same_str_eq cs ds (rw y at h))
  | inr n ↦ cc (rw n at h)
]
