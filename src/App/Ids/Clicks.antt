-- ===== src/App/Ids/Clicks.antt =====
-- main.rs: why a click on a profile, or on its button, is about this profile alone.
use mac_os_sstp_client.Prelude.{
  ℕ, suc, ◌^◌, ◌<◌, ◌≤◌, ◌≡◌, ◌≢◌, ◌∙◌, inl, inr, refl, ap, sym, arith, List, [], ◌∷◌, ◌++◌, Option,
  some, Bool, true, false, not, if◌then◌else◌, Bool-cases, All, find, retain,
}
use mac_os_sstp_client.Prelude.Text.{Str}
use mac_os_sstp_client.Prelude.Text.Equal.{same_str, same_str_refl, same_str_eq}
use mac_os_sstp_client.App.{
  Profile, Config, Editor, has_id, selected_profile, blank, checked, new_config, new,
  select_profile, add_profile, select_first, remove_profile, is_selected, Write, saved,
}
use mac_os_sstp_client.App.Ids.{
  gen_id, ids_of, Distinct, IsStamped, IsStamped-last, All-map, All-retain, Distinct-retain,
}
use mathlib.Core.List.{map-append}
use mathlib.Core.Path.{subst}

differs : (s t : Str) → s ≢ t → same_str s t ≡ false
differs s t n = elim (Bool-cases (same_str s t)) [
  | inl y ↦ absurd (n (same_str_eq s t y))
  | inr q ↦ q
]

in_the_middle :
    (P : Str → Type 0) (before after : List Profile) (p : Profile)
    → All P (ids_of (before ++ (p ∷ after)))
    → P p.id
in_the_middle P [] after p (h, hs) = h
in_the_middle P (q ∷ before) after p (h, hs) = in_the_middle P before after p hs

find-only :
    (before after : List Profile) (p : Profile)
    → Distinct (ids_of (before ++ (p ∷ after)))
    → find (has_id p.id) (before ++ (p ∷ after)) ≡ some p
find-only [] after p d = rw (same_str_refl p.id)
find-only (q ∷ before) after p (n, d) =
    rw (differs q.id p.id (in_the_middle (λ t. q.id ≢ t) before after p n))
      (find-only before after p d)

abbrev other_than : Str → Profile → Bool
other_than id p = not (same_str p.id id)

retain-others :
    (id : Str) (ps : List Profile) → All (λ t. id ≢ t) (ids_of ps) → retain (other_than id) ps ≡ ps
retain-others id [] h = refl
retain-others id (p ∷ ps) (n, h) = rw (differs p.id id (λ q. n (sym q)), retain-others id ps h)

retain-only :
    (before after : List Profile) (p : Profile)
    → Distinct (ids_of (before ++ (p ∷ after)))
    → retain (other_than p.id) (before ++ (p ∷ after)) ≡ before ++ after
retain-only [] after p (n, d) = rw (same_str_refl p.id) (retain-others p.id after n)
retain-only (q ∷ before) after p (n, d) = rw (
  differs q.id p.id (in_the_middle (λ t. q.id ≢ t) before after p n),
  retain-only before after p d,
)

module _ (keychain_get : List Write → Str → Option Str) (name_of : ℕ → Str) where
  -- The editor through any use of it, and the time up to which ids were made. Each new profile has
  -- a later time than those before; the form changes profiles and keeps their ids.
  pub data Uses (route_ok : Bool) (loaded : Config) : ℕ → Editor → Type 0 where
    opened :
        (t : ℕ)
        → t < 2 ^ 128
        → IsStamped t (ids_of loaded.profiles)
        → Uses route_ok loaded (suc t) (new keychain_get name_of route_ok (gen_id t) loaded)
    selected :
        {t : ℕ} {e : Editor} (id : Str)
        → Uses route_ok loaded t e
        → Uses route_ok loaded t (select_profile keychain_get name_of id e)
    added :
        {t : ℕ} {e : Editor} (t' : ℕ)
        → t ≤ t'
        → t' < 2 ^ 128
        → Uses route_ok loaded t e
        → Uses route_ok loaded (suc t') (add_profile keychain_get name_of (gen_id t') e)
    removed :
        {t : ℕ} {e : Editor} (id : Str)
        → Uses route_ok loaded t e
        → Uses route_ok loaded t (remove_profile keychain_get name_of id e)
    edited :
        {t : ℕ} {e e' : Editor}
        → ids_of e'.config.profiles ≡ ids_of e.config.profiles
        → Uses route_ok loaded t e
        → Uses route_ok loaded t e'

  checked-IsStamped :
      (t : ℕ) (ps : List Profile) (o : Option Str)
      → t < 2 ^ 128
      → IsStamped t (ids_of ps)
      → IsStamped (suc t) (ids_of (checked keychain_get name_of (gen_id t) ps o).profiles)
  unfolding checked blank
  checked-IsStamped t [] o h v = IsStamped-last t t [] (omega arith) h v
  checked-IsStamped t (p ∷ ps) o h (made, d) =
      (All-map (ids_of (p ∷ ps)) (λ s (n, k, q). (n, omega (arith, k), q)) made, d)

  -- What is left when a profile is removed, whether another one is selected then or not.
  first_selected :
      (b : Bool) (left : List Profile) (e : Editor)
      → e.config.profiles ≡ left
      → (saved keychain_get name_of
          (if b then select_first keychain_get name_of left e else e)).config.profiles
        ≡ left
  unfolding select_first select_profile
  first_selected false left e q = q
  first_selected true [] e q = q
  first_selected true (p ∷ ps) e q = q

  remove-profiles :
      (id : Str) (e : Editor)
      → (remove_profile keychain_get name_of id e).config.profiles
        ≡ retain (other_than id) e.config.profiles
  unfolding remove_profile
  remove-profiles id e =
      first_selected (is_selected keychain_get name_of id e.config.selected) _ _ refl

  add-ids :
      (id : Str) (e : Editor)
      → ids_of (add_profile keychain_get name_of id e).config.profiles
        ≡ ids_of e.config.profiles ++ (id ∷ [])
  unfolding add_profile select_profile blank
  add-ids id e = map-append (λ p. p.id) e.config.profiles _

  stamped :
      (route_ok : Bool) (loaded : Config) {t : ℕ} {e : Editor}
      → Uses route_ok loaded t e
      → IsStamped t (ids_of e.config.profiles)
  unfolding new new_config select_profile
  stamped route_ok loaded (opened t h v) = checked-IsStamped t loaded.profiles loaded.selected h v
  stamped route_ok loaded (selected id r) = stamped route_ok loaded r
  stamped route_ok loaded (added {t} {e} t' l h r) =
      rw (add-ids (gen_id t') e) (IsStamped-last t t' _ l h (stamped route_ok loaded r))
  stamped route_ok loaded (removed {t} {e} id r) =
      let (made, d) = stamped route_ok loaded r in
      rw (remove-profiles id e) (
        All-retain (other_than id) (λ s. (n : ℕ) × (n < t) × (s ≡ gen_id n)) e.config.profiles made,
        Distinct-retain (other_than id) e.config.profiles d,
      )
  stamped route_ok loaded (edited same r) = rw same (stamped route_ok loaded r)

-- If the ids of the loaded profiles are different times of the past, and the clock goes on between
-- any two profiles that are made, then after any use of the editor a click on a profile selects
-- this one, and its button removes this one and no other.
pub clicks_mean_one :
    (keychain_get : List Write → Str → Option Str) (name_of : ℕ → Str) (route_ok : Bool)
    (loaded : Config) {t : ℕ} {e : Editor} (before after : List Profile) (p : Profile)
    → Uses keychain_get name_of route_ok loaded t e
    → e.config.profiles ≡ before ++ (p ∷ after)
    → (selected_profile (select_profile keychain_get name_of p.id e).config ≡ some p)
      × ((remove_profile keychain_get name_of p.id e).config.profiles ≡ before ++ after)
unfolding selected_profile select_profile
clicks_mean_one keychain_get name_of route_ok loaded {t} {e} before after p r q =
    let d =
      subst (λ ps. Distinct (ids_of ps)) q (stamped keychain_get name_of route_ok loaded r).1 in
    (
      ap (find (has_id p.id)) q ∙ find-only before after p d,
      remove-profiles keychain_get name_of p.id e
          ∙ ap (retain (other_than p.id)) q
          ∙ retain-only before after p d,
    )
