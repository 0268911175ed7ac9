-- ===== src/App/Screens.antt =====
-- main.rs: what the two screens of the window do with the user's clicks and typing in a frame, and
-- `ui`. How they are drawn is not modelled.
pub mod Forms
pub mod Frames
use mac_os_sstp_client.Prelude.{
  ℕ, ◌+◌, List, [], ◌∷◌, Option, none, some, Bool, true, false, not, ◌&&◌, if◌then◌else◌,
}
use mac_os_sstp_client.Prelude.Text.{Str}
use mac_os_sstp_client.Prelude.Text.Equal.{same_str}
use mac_os_sstp_client.App.{
  Profile, Config, Editor, Write, keychain_set, keychain_delete, save, VpnStatus, disconnected,
  selected_profile, is_selected, select_profile, add_profile, remove_profile,
}

pub data ViewMode : Type 0 where
  connect_view settings_view : ViewMode

pub record Screen : Type 0 where
  pub editor : Editor
  pub view : ViewMode

-- The widgets that say that they are clicked. A profile's label and cross are told apart by their
-- place.
pub record ConnectClicks : Type 0 where
  pub label : ℕ → Bool
  pub gear : Bool
  pub power : Bool

-- What was typed into a field, if it was changed.
pub record Typed : Type 0 where
  pub name : Option Str
  pub server : Option Str
  pub username : Option Str
  pub password : Option Str
  pub save_password : Option Bool

pub record SettingsClicks : Type 0 where
  pub back : Bool
  pub label : ℕ → Bool
  pub cross : ℕ → Bool
  pub add : Bool
  pub typed : Typed
  pub save_settings : Bool

-- `spawn_connect` with the selected profile and the password at that time, and `spawn_disconnect`.
pub data Operation : Type 0 where
  start_connect : Option Profile → Str → Operation
  start_disconnect : Operation

pub record Pending : Type 0 where
  pub select : Option Str
  pub remove : Option Str
  pub add : Bool

abbrev pub or_old {ℓ} : {A : Type ℓ} → Option A → A → A
or_old none old = old
or_old (some typed) old = typed

abbrev pub is_some {ℓ} : {A : Type ℓ} → Option A → Bool
is_some none = false
is_some (some a) = true

-- The id of the last profile whose widget is clicked, from the place `i` on.
unfoldable pub clicked_id : (ℕ → Bool) → ℕ → List Profile → Option Str → Option Str
clicked_id click i [] pending = pending
clicked_id click i (p ∷ ps) pending =
    clicked_id click (i + 1) ps (if click i then some p.id else pending)

abbrev pub edit : Typed → Profile → Profile
edit typed p = record p {
  name = or_old typed.name p.name;
  server = or_old typed.server p.server;
  username = or_old typed.username p.username;
}

-- The first profile with the id, through `selected_profile_mut`; nothing if there is none.
unfoldable pub edit_first : Str → Typed → List Profile → Option (List Profile)
edit_first id typed [] = none
edit_first id typed (p ∷ ps) =
    let rest = edit_first id typed ps in
    if same_str p.id id
    then some (edit typed p ∷ ps)
    else elim rest [ none ↦ none | some ps' ↦ some (p ∷ ps') ]

-- The `unwrap` of `selected_profile_mut` panics on nothing.
unfoldable pub edit_selected : Typed → Config → Option Config
unfolding edit_first
edit_selected typed config = elim (config.selected) [
  | none ↦ none
  | some id ↦ elim (edit_first id typed config.profiles) [
    | none ↦ none
    | some ps ↦ some (record config { profiles = ps })
  ]
]

-- What the button does with the password in the keychain.
abbrev pub keep_password : Str → Bool → Str → List Write → List Write
keep_password id true [] log = log
keep_password id true (c ∷ cs) log = keychain_set id (c ∷ cs) ∷ log
keep_password id false password log = keychain_delete id ∷ log

-- "Save"; the `unwrap` of the selected id panics on nothing.
unfoldable pub save_clicked : Bool → Editor → Option Editor
save_clicked false e = some e
save_clicked true e = elim (e.config.selected) [
  | none ↦ none
  | some id ↦
      some (record e { log = keep_password id e.save_password e.password (save e.config ∷ e.log) })
]

-- The fields of the selected profile, and the button.
unfoldable pub edit_form : SettingsClicks → Editor → Option Editor
unfolding edit_selected save_clicked
edit_form clicks e = elim (edit_selected clicks.typed e.config) [
  | none ↦ none
  | some config ↦ save_clicked clicks.save_settings (record e {
    config = config;
    password = or_old clicks.typed.password e.password;
    save_password = or_old clicks.typed.save_password e.save_password;
  })
]

unfoldable pub settings_screen : SettingsClicks → Screen → Option (Screen × Pending)
unfolding edit_form clicked_id selected_profile
settings_screen clicks x =
    let chosen = is_some (selected_profile x.editor.config) in
    let view = if chosen && clicks.back then connect_view else x.view in
    let profiles = x.editor.config.profiles in
    let pending : Pending = record {
      select = clicked_id clicks.label 0 profiles none;
      remove = clicked_id clicks.cross 0 profiles none;
      add = clicks.add;
    } in
    elim chosen [
      | false ↦ some (record { editor = x.editor; view = view }, pending)
      | true ↦ elim (edit_form clicks x.editor) [
        | none ↦ none
        | some e ↦ some (record { editor = e; view = view }, pending)
      ]
    ]

-- The power button only senses a click while nothing is busy.
unfoldable pub press : VpnStatus → Bool → Editor → List Operation
unfolding selected_profile
press status false e = []
press disconnected true e = start_connect (selected_profile e.config) e.password ∷ []
press _ true e = start_disconnect ∷ []

module _ (keychain_get : List Write → Str → Option Str) (name_of : ℕ → Str) where
  -- A label of another profile than the selected one.
  unfoldable pub switched_id : (ℕ → Bool) → Option Str → ℕ → List Profile → Option Str → Option Str
  switched_id label selected i [] pending = pending
  switched_id label selected i (p ∷ ps) pending = switched_id label selected (i + 1) ps (
      if label i && not (is_selected keychain_get name_of p.id selected)
      then some p.id
      else pending)

  unfoldable pub select_if : Option Str → Editor → Editor
  unfolding select_profile
  select_if none e = e
  select_if (some id) e = select_profile keychain_get name_of id e

  unfoldable pub remove_if : Option Str → Editor → Editor
  unfolding remove_profile
  remove_if none e = e
  remove_if (some id) e = remove_profile keychain_get name_of id e

  unfoldable pub connect_screen :
      VpnStatus → Bool → ConnectClicks → Screen → Screen × List Operation
  unfolding switched_id select_if press
  connect_screen status busy clicks x =
      let config = x.editor.config in
      let e =
        select_if (switched_id clicks.label config.selected 0 config.profiles none) x.editor in
      (
        record { editor = e; view = if clicks.gear then settings_view else x.view },
        press status (clicks.power && not busy) e,
      )

  -- A profile that is added gets the id that `gen_id` makes, which panics when the clock is before
  -- 1970: then there is none.
  abbrev pub added_with : Option Str → Editor → Option Screen
  added_with none e = none
  added_with (some id) e =
      some (record { editor = add_profile keychain_get name_of id e; view = settings_view })

  unfoldable pub after_screen : Option Str → Screen → Pending → Option Screen
  unfolding select_if remove_if add_profile
  after_screen id x pending =
      let e = remove_if pending.remove (select_if pending.select x.editor) in
      if pending.add then added_with id e else some (record { editor = e; view = x.view })

  abbrev pub without_operation : Option Screen → Option (Screen × List Operation)
  without_operation none = none
  without_operation (some x) = some (x, [])

  -- Without a selected profile there is only the settings screen.
  abbrev pub view_of : Screen → ViewMode
  view_of x = if is_some (selected_profile x.editor.config) then x.view else settings_view

  -- The `match` on the view.
  unfoldable pub show :
      VpnStatus
      → Bool
      → Option Str
      → ConnectClicks
      → SettingsClicks
      → ViewMode
      → Screen
      → Option (Screen × List Operation)
  unfolding connect_screen settings_screen after_screen
  show status busy id on_connect on_settings connect_view x =
      some (connect_screen status busy on_connect x)
  show status busy id on_connect on_settings settings_view x =
      elim (settings_screen on_settings x) [
        | none ↦ none
        | some (x', pending) ↦ without_operation (after_screen id x' pending)
      ]

  -- The new state and the operations that are started, or nothing when it panics: with a lock that is
  -- poisoned, with no time for the id of a new profile, or with a profile that is not found.
  unfoldable pub ui :
      VpnStatus
      → Bool
      → Bool
      → Option Str
      → ConnectClicks
      → SettingsClicks
      → Screen
      → Option (Screen × List Operation)
  unfolding show
  ui status busy poisoned id on_connect on_settings x =
      if poisoned
      then none
      else show status busy id on_connect on_settings (view_of x) (record x { view = view_of x })
