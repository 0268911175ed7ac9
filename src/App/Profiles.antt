-- ===== src/App/Profiles.antt =====
-- main.rs: which profile is selected, through any use of the list of profiles.
use mac_os_sstp_client.Prelude.{
  if-both, ℕ, ◌≡◌, ◌⊎◌, inl, inr, refl, ap, List, [], ◌∷◌, ◌++◌, Option, none, some, Bool, true,
  false, not, any, retain, Bool-cases,
}
use mac_os_sstp_client.Prelude.Text.{Str}
use mac_os_sstp_client.Prelude.Text.Equal.{same_str, same_str_refl, same_str_eq}
use mac_os_sstp_client.App.{
  Profile, Config, Editor, has_id, blank, checked, new_config, new, select_profile, add_profile,
  select_first, remove_profile, is_selected, Write, save, saved, healed,
}

-- A profile of the list is selected; none is if there is none.
abbrev pub Selects : List Profile → Option Str → Type 0
Selects ps none = ps ≡ []
Selects ps (some id) = any (has_id id) ps ≡ true

abbrev pub IsSelecting : Editor → Type 0
IsSelecting e = Selects e.config.profiles e.config.selected

any-last :
    (q : Profile → Bool) (ps : List Profile) (p : Profile)
    → q p ≡ true
    → any q (ps ++ (p ∷ [])) ≡ true
any-last q [] p h = rw h
any-last q (x ∷ ps) p h = elim (Bool-cases (q x)) [
  | inl y ↦ rw y
  | inr n ↦ rw n (any-last q ps p h)
]

-- The profiles that do not have the id `id` are kept.
any-retain :
    (s id : Str) (ps : List Profile)
    → same_str s id ≡ false
    → any (has_id s) ps ≡ true
    → any (has_id s) (retain (λ p. not (same_str p.id id)) ps) ≡ true
any-retain s id [] n h = h
any-retain s id (p ∷ ps) n h = elim (Bool-cases (same_str p.id id)) [
  | inl y ↦ elim (Bool-cases (same_str p.id s)) [
    | inl q ↦ cc (ap (λ t. same_str t id) (same_str_eq p.id s q), y, n)
    | inr q ↦ rw y (any-retain s id ps n (rw q at h))
  ]
  | inr m ↦ elim (Bool-cases (same_str p.id s)) [
    | inl q ↦ rw (m, q)
    | inr q ↦ rw (m, q) (any-retain s id ps n (rw q at h))
  ]
]

module _ (keychain_get : List Write → Str → Option Str) (name_of : ℕ → Str) where
  -- The states of the editor that the loaded configuration and any use of the list lead to. A
  -- profile that is clicked on is one of the list.
  pub data Reach (route_ok : Bool) (id : Str) (loaded : Config) : Editor → Type 0 where
    opened : Reach route_ok id loaded (new keychain_get name_of route_ok id loaded)
    selected :
        {e : Editor} (id' : Str)
        → any (has_id id') e.config.profiles ≡ true
        → Reach route_ok id loaded e
        → Reach route_ok id loaded (select_profile keychain_get name_of id' e)
    added :
        {e : Editor} (id' : Str)
        → Reach route_ok id loaded e
        → Reach route_ok id loaded (add_profile keychain_get name_of id' e)
    removed :
        {e : Editor} (id' : Str)
        → Reach route_ok id loaded e
        → Reach route_ok id loaded (remove_profile keychain_get name_of id' e)

  pub checked-Selects :
      (id : Str) (ps : List Profile) (selected : Option Str)
      → (selected ≡ none) ⊎ Selects ps selected
      → Selects
          (checked keychain_get name_of id ps selected).profiles
          (checked keychain_get name_of id ps selected).selected
  unfolding checked blank
  checked-Selects id [] chosen h = rw (same_str_refl id)
  checked-Selects id (p ∷ ps) none h = rw (same_str_refl p.id)
  checked-Selects id (p ∷ ps) (some s) (inl h) = cc
  checked-Selects id (p ∷ ps) (some s) (inr h) = h

  pub add-IsSelecting :
      (id : Str) (e : Editor) → IsSelecting (add_profile keychain_get name_of id e)
  unfolding add_profile select_profile blank
  add-IsSelecting id e = any-last (has_id id) e.config.profiles _ (same_str_refl id)

  select_first-IsSelecting :
      (left : List Profile) (e : Editor)
      → e.config.profiles ≡ left
      → IsSelecting (select_first keychain_get name_of left e)
  unfolding select_first select_profile
  select_first-IsSelecting [] e q = q
  select_first-IsSelecting (p ∷ ps) e q = rw q (rw (same_str_refl p.id))

  kept-Selects :
      (id : Str) (ps : List Profile) (selected : Option Str)
      → Selects ps selected
      → is_selected keychain_get name_of id selected ≡ false
      → Selects (retain (λ p. not (same_str p.id id)) ps) selected
  kept-Selects id ps none h n = rw h
  kept-Selects id ps (some s) h n = any-retain s id ps n h

  pub remove-IsSelecting :
      (id : Str) (e : Editor)
      → IsSelecting e
      → IsSelecting (remove_profile keychain_get name_of id e)
  unfolding remove_profile
  remove-IsSelecting id e h =
      if-both (λ x. IsSelecting (saved keychain_get name_of x))
        (is_selected keychain_get name_of id e.config.selected) _ _
        (λ y. select_first-IsSelecting _ _ refl)
        (λ n. kept-Selects id e.config.profiles e.config.selected h n)

-- What was saved last, if anything was.
abbrev pub last_saved : List Write → Option Config
last_saved [] = none
last_saved (save config ∷ log) = some config
last_saved (_ ∷ log) = last_saved log

abbrev pub IsSaved : Option Config → Config → Type 0
IsSaved none config = Unit {0}
IsSaved (some saved) config = saved ≡ config

healed-unsaved :
    (keychain_get : List Write → Str → Option Str) (name_of : ℕ → Str) (route_ok : Bool)
    → last_saved (healed keychain_get name_of route_ok) ≡ none
healed-unsaved keychain_get name_of true = refl
healed-unsaved keychain_get name_of false = refl

-- If the loaded configuration selects nothing or one of its profiles, then from the start of the
-- app, and through any selecting, adding and removing of profiles, one of the profiles is selected
-- while there is any, and none when there is none; and the configuration that was saved last is
-- the present one.
pub profile_selected :
    (keychain_get : List Write → Str → Option Str) (name_of : ℕ → Str) (route_ok : Bool) (id : Str)
    (loaded : Config) {e : Editor}
    → (loaded.selected ≡ none) ⊎ Selects loaded.profiles loaded.selected
    → Reach keychain_get name_of route_ok id loaded e
    → IsSelecting e × IsSaved (last_saved e.log) e.config
unfolding new new_config select_profile add_profile remove_profile
profile_selected keychain_get name_of route_ok id loaded h opened = (
  checked-Selects keychain_get name_of id loaded.profiles loaded.selected h,
  rw (healed-unsaved keychain_get name_of route_ok) tt,
)
profile_selected keychain_get name_of route_ok id loaded h (selected id' is_there r) =
    (is_there, refl)
profile_selected keychain_get name_of route_ok id loaded h (added {e} id' r) =
    (add-IsSelecting keychain_get name_of id' e, refl)
profile_selected keychain_get name_of route_ok id loaded h (removed {e} id' r) = (
  remove-IsSelecting keychain_get name_of id' e
      (profile_selected keychain_get name_of route_ok id loaded h r).0,
  refl,
)
