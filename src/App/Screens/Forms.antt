-- ===== src/App/Screens/Forms.antt =====
-- main.rs: the profiles that a frame picks and edits. The `unwrap`s of the settings screen find the
-- selected profile.
use mac_os_sstp_client.Prelude.{
  if-both, ℕ, ◌+◌, ◌≡◌, inl, inr, refl, ◌∙◌, List, [], ◌∷◌, All, Option, none, some, Bool, true,
  false, any, find, Bool-cases,
}
use mac_os_sstp_client.Prelude.Text.{Str}
use mac_os_sstp_client.Prelude.Text.Equal.{same_str, same_str_refl}
use mac_os_sstp_client.App.{Profile, Editor, has_id, selected_profile}
use mac_os_sstp_client.App.Profiles.{Selects, IsSelecting}
use mac_os_sstp_client.App.Screens.{
  ViewMode, Screen, Typed, SettingsClicks, Pending, is_some, clicked_id, edit, edit_first,
  edit_selected, save_clicked, edit_form, settings_screen,
}

-- An id that was picked is one of the list.
abbrev pub Picks : List Profile → Option Str → Type 0
Picks ps none = Unit {0}
Picks ps (some id) = any (has_id id) ps ≡ true

any-cons :
    (id : Str) (p : Profile) (ps : List Profile)
    → any (has_id id) ps ≡ true
    → any (has_id id) (p ∷ ps) ≡ true
any-cons id p ps h = elim (Bool-cases (same_str p.id id)) [ inl y ↦ rw y | inr n ↦ rw n h ]

-- Picks are kept by a longer list.
Picks-cons : (p : Profile) (ps : List Profile) (o : Option Str) → Picks ps o → Picks (p ∷ ps) o
Picks-cons p ps none h = tt
Picks-cons p ps (some id) h = any-cons id p ps h

-- The profiles of `ps` are some of `all`.
abbrev pub Within : List Profile → List Profile → Type 0
Within all ps = All (λ p. any (has_id p.id) all ≡ true) ps

Within-cons : (p : Profile) (all ps : List Profile) → Within all ps → Within (p ∷ all) ps
Within-cons p all [] h = tt
Within-cons p all (q ∷ ps) (h, hs) = (any-cons q.id p all h, Within-cons p all ps hs)

pub Within-refl : (ps : List Profile) → Within ps ps
Within-refl [] = tt
Within-refl (p ∷ ps) = (rw (same_str_refl p.id), Within-cons p ps ps (Within-refl ps))

clicked_id-Picks :
    (click : ℕ → Bool) (all : List Profile) (i : ℕ) (ps : List Profile) (pending : Option Str)
    → Within all ps
    → Picks all pending
    → Picks all (clicked_id click i ps pending)
unfolding clicked_id
clicked_id-Picks click all i [] pending w h = h
clicked_id-Picks click all i (p ∷ ps) pending (y, ys) h =
    clicked_id-Picks click all (i + 1) ps _ ys
      (if-both (Picks all) (click i) (some p.id) pending (λ q. y) (λ q. h))

-- Typing changes no id.
abbrev SameIds : List Profile → List Profile → Type 0
SameIds ps qs = (id : Str) → any (has_id id) ps ≡ any (has_id id) qs

SameIds-cons : (p : Profile) (ps qs : List Profile) → SameIds ps qs → SameIds (p ∷ ps) (p ∷ qs)
SameIds-cons p ps qs h id = rw (h id) refl

edit_first_lem :
    (id : Str) (typed : Typed) (ps : List Profile)
    → any (has_id id) ps ≡ true
    → (qs : List Profile) × (edit_first id typed ps ≡ some qs) × SameIds qs ps
unfolding edit_first
edit_first_lem id typed [] h = cc
edit_first_lem id typed (p ∷ ps) h = elim (Bool-cases (same_str p.id id)) [
  | inl y ↦ (edit typed p ∷ ps, rw y refl, λ s. refl)
  | inr n ↦
      let (qs, q, same) = edit_first_lem id typed ps (rw n at h) in
      (p ∷ qs, rw (n, q) refl, SameIds-cons p qs ps same)
]

pub is_some-find :
    (id : Str) (ps : List Profile) → is_some (find (has_id id) ps) ≡ any (has_id id) ps
is_some-find id [] = refl
is_some-find id (p ∷ ps) = elim (Bool-cases (same_str p.id id)) [
  | inl y ↦ rw y refl
  | inr n ↦ rw n (is_some-find id ps)
]

-- What a screen leaves.
abbrev pub Edits : Option Editor → List Profile → Type 0
Edits none ps = ⊥
Edits (some e) ps = IsSelecting e × SameIds e.config.profiles ps

Edits-same : (o : Option Editor) (ps qs : List Profile) → SameIds ps qs → Edits o ps → Edits o qs
Edits-same none ps qs same h = h
Edits-same (some e) ps qs same (v, ids) = (v, λ s. ids s ∙ same s)

save_clicked-Edits :
    (b : Bool) (e : Editor) (id : Str)
    → e.config.selected ≡ some id
    → any (has_id id) e.config.profiles ≡ true
    → Edits (save_clicked b e) e.config.profiles
unfolding save_clicked
save_clicked-Edits false e id q h = rw q (h, λ s. refl)
save_clicked-Edits true e id q h = rw q (h, λ s. refl)

edit_form-Edits :
    (clicks : SettingsClicks) (e : Editor) (id : Str)
    → e.config.selected ≡ some id
    → any (has_id id) e.config.profiles ≡ true
    → Edits (edit_form clicks e) e.config.profiles
unfolding edit_form edit_selected
edit_form-Edits clicks e id q h =
    let (qs, r, same) = edit_first_lem id clicks.typed e.config.profiles h in
    rw (q, edit_form, r)
      (Edits-same _ qs e.config.profiles same
        (save_clicked-Edits clicks.save_settings _ id q (same id ∙ h)))

-- The screen does not panic, and its picks are of the list.
abbrev pub ScreenOk : Option (Screen × Pending) → Type 0
ScreenOk none = ⊥
ScreenOk (some (x, pending)) = IsSelecting x.editor × Picks x.editor.config.profiles pending.select

Picks-same : (o : Option Str) (ps qs : List Profile) → SameIds ps qs → Picks qs o → Picks ps o
Picks-same none ps qs same h = h
Picks-same (some id) ps qs same h = same id ∙ h

edited-ScreenOk :
    (o : Option Editor) (view : ViewMode) (pending : Pending) (ps : List Profile)
    → Edits o ps
    → Picks ps pending.select
    → ScreenOk
        (elim o [ none ↦ none | some e ↦ some (record { editor = e; view = view }, pending) ])
edited-ScreenOk none view pending ps v h = v
edited-ScreenOk (some e) view pending ps (v, same) h =
    (v, Picks-same pending.select e.config.profiles ps same h)

pub settings_screen-ScreenOk :
    (clicks : SettingsClicks) (x : Screen) (selected : Option Str)
    → x.editor.config.selected ≡ selected
    → Selects x.editor.config.profiles selected
    → ScreenOk (settings_screen clicks x)
unfolding settings_screen selected_profile
settings_screen-ScreenOk clicks x none q h =
    let ps = x.editor.config.profiles in
    rw q (h, clicked_id-Picks clicks.label ps 0 ps none (Within-refl ps) tt)
settings_screen-ScreenOk clicks x (some id) q h =
    let ps = x.editor.config.profiles in
    rw (q, settings_screen, selected_profile, is_some-find id ps, h)
      (edited-ScreenOk (edit_form clicks x.editor) _ _ ps (edit_form-Edits clicks x.editor id q h)
        (clicked_id-Picks clicks.label ps 0 ps none (Within-refl ps) tt))
