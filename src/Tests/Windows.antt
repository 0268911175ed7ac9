-- ===== src/Tests/Windows.antt =====
-- The window's profiles, polls and threads on concrete values.
use mac_os_sstp_client.Prelude.{
  arith, ℕ, ◌≡◌, ◌↔◌, inl, inr, refl, List, [], ◌∷◌, ◌++◌, Result, err, Option, none, some, true,
  false, not, ◌&&◌, any,
}
use mac_os_sstp_client.Prelude.Text.{Str}
use mac_os_sstp_client.Prelude.Text.Lines.{lines}
use mac_os_sstp_client.Ipc.{VpnStatusFile, no_status, connected_state, connecting, PidT}
use mac_os_sstp_client.Prelude.Command.{Command, Output}
use mac_os_sstp_client.Host as Host
use mac_os_sstp_client.Host.Passwords.{first_blank, last_blank, password_read_back}
use mac_os_sstp_client.App.{
  Write, Profile, Config, Window, Editor, new, remove_profile, add_profile, blank, checked,
  new_config, select_profile, selected_profile, connecting_status, worker_up, poll,
}
use mac_os_sstp_client.App.Profiles.{
  opened, added, removed, IsSelecting, IsSaved, last_saved, profile_selected,
}
use mac_os_sstp_client.App.Polling.{Follows, poll-Follows}
use mac_os_sstp_client.App.Ids.{gen_id}
use mac_os_sstp_client.App.Ids.Clicks.{clicks_mean_one}
use mac_os_sstp_client.App.Ids.Clicks as Clicks
use mac_os_sstp_client.App.Session.{spawn_connect, spawn_disconnect, is_confirmation, lacks_field}
use mac_os_sstp_client.App.Session.Effects.{
  busy, requested, heals, kills, killed, can_launch, Attempted, spawn_connect_lem,
  spawn_disconnect_lem,
}

abbrev pub keychain : List Write → Str → Option Str
keychain log id = none

abbrev pub name_of : ℕ → Str
name_of n = n ∷ []

abbrev pub profile : Profile
profile = record { id = 1 ∷ []; name = []; server = 0x61 ∷ []; username = 0x62 ∷ [] }

abbrev pub loaded : Config
loaded = record { profiles = profile ∷ []; selected = none }

abbrev edited : Editor
edited =
    remove_profile keychain name_of (2 ∷ [])
      (add_profile keychain name_of (2 ∷ []) (new keychain name_of true (9 ∷ []) loaded))

profile_selected_run : IsSelecting edited × IsSaved (last_saved edited.log) edited.config
profile_selected_run =
    profile_selected keychain name_of true (9 ∷ []) loaded (inl refl)
      (removed (2 ∷ []) (added (2 ∷ []) opened))

abbrev pub alive : PidT → Option ℕ
alive pid = some 1

abbrev status : VpnStatusFile
status = record no_status {
  state = some connected_state;
  interface = some (0x75 ∷ []);
  pid = some 7;
}

abbrev window : Window
window = record { vpn_status = connecting_status; interface = none; last_heal_attempt = none }

poll-Follows_run :
    Follows alive
      (worker_up alive (some status))
      (poll alive 100 true (λ y. y) (some status) window).0
poll-Follows_run = poll-Follows alive 100 true (some status) window (inr refl)

-- "/a b" and "x'y"
abbrev pub exe : Str
exe = 0x2F ∷ 0x61 ∷ 0x20 ∷ 0x62 ∷ []

abbrev name : Str
name = 0x78 ∷ 0x27 ∷ 0x79 ∷ []

abbrev no_osascript : Command → Result Str Output
no_osascript command = err (0x65 ∷ [])

spawn_disconnect_lem_example :
    let log = spawn_disconnect alive (some connected_state ∷ some connecting ∷ []) (some 7) [] in
    (busy log ≡ false)
    × (requested log ≡ false)
    × (heals log ≡ false ∷ heals [])
    × (kills log
        ≡ killed alive (any is_confirmation (some connected_state ∷ some connecting ∷ [])) (some 7)
          ++ kills [])
spawn_disconnect_lem_example =
    spawn_disconnect_lem alive (some connected_state ∷ some connecting ∷ []) (some 7) []

spawn_connect_lem_run :
    Attempted
      (not (lacks_field profile (0x70 ∷ [])) && can_launch (some exe) none)
      []
      (spawn_connect (some profile) (0x70 ∷ []) (some exe) none [])
spawn_connect_lem_run = spawn_connect_lem profile (0x70 ∷ []) (some exe) none []

-- Two of three lines.
tail_run : Host.tail (some (0x61 ∷ 10 ∷ 0x62 ∷ 13 ∷ 10 ∷ 0x63 ∷ [])) 2 ≡ 0x62 ∷ 10 ∷ 0x63 ∷ []
unfolding Host.tail lines
tail_run = refl

password_read_back_example :
    (Host.keychain_get (some (true, 0x61 ∷ 0x20 ∷ 0x62 ∷ 0x0A ∷ []))
      ≡ some (0x61 ∷ 0x20 ∷ 0x62 ∷ []))
    ↔ ((first_blank (0x61 ∷ 0x20 ∷ 0x62 ∷ []) ≡ false)
        × (last_blank (0x61 ∷ 0x20 ∷ 0x62 ∷ []) ≡ false))
password_read_back_example =
    password_read_back (0x61 ∷ 0x20 ∷ 0x62 ∷ []) (omega arith, (omega arith, (omega arith, tt)))
      (λ q. cc)

abbrev nothing_loaded : Config
nothing_loaded = record { profiles = []; selected = none }

abbrev pub grown : Editor
grown =
    add_profile keychain name_of (gen_id 200)
      (new keychain name_of true (gen_id 100) nothing_loaded)

grown-profiles :
    grown.config.profiles
    ≡ [] ++ (blank keychain name_of (gen_id 100) 1 ∷ blank keychain name_of (gen_id 200) 2 ∷ [])
unfolding add_profile select_profile new new_config checked
grown-profiles = refl

clicks_mean_one_example :
    (selected_profile
        (select_profile keychain name_of (blank keychain name_of (gen_id 100) 1).id grown).config
      ≡ some (blank keychain name_of (gen_id 100) 1))
    × ((remove_profile keychain name_of
          (blank keychain name_of (gen_id 100) 1).id
          grown).config.profiles
        ≡ blank keychain name_of (gen_id 200) 2 ∷ [])
clicks_mean_one_example =
    clicks_mean_one keychain name_of true nothing_loaded []
      (blank keychain name_of (gen_id 200) 2 ∷ []) (blank keychain name_of (gen_id 100) 1)
      (Clicks.added 200 (omega arith) (omega arith) (Clicks.opened 100 (omega arith) (tt, tt)))
      grown-profiles
