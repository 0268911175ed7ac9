-- ===== src/App.antt =====
-- main.rs: the profiles of the window, and how it follows the helper process. Drawing is not
-- modelled.
pub mod Profiles
pub mod Ids
pub mod Polling
pub mod Launch
pub mod Session
pub mod Screens
pub mod Durations
pub mod Frame
use mac_os_sstp_client.Prelude.{
  ℕ, ◌-◌, ◌+◌, ltb, List, [], ◌∷◌, ◌++◌, Option, none, some, Bool, true, false, not, ◌&&◌, ◌||◌,
  if◌then◌else◌, length, find, retain, is_empty,
}
use mac_os_sstp_client.Prelude.Text.{codes, Str}
use mac_os_sstp_client.Ipc.{
  WorkerState, connected_state, disconnected_state, error_state, VpnStatusFile, PidT, pid_alive,
}
use mac_os_sstp_client.Prelude.Text.Equal.{same_str}
use mac_os_sstp_client.Elevate.{shell_quote}

pub record Profile : Type 0 where
  pub id : Str
  pub name : Str
  pub server : Str
  pub username : Str

pub record Config : Type 0 where
  pub profiles : List Profile
  pub selected : Option Str

-- What `unwrap_or_default` gives.
abbrev pub no_config : Config
no_config = record { profiles = []; selected = none }

-- `Config::load`, with the text of the file if it can be read and what JSON makes of it.
abbrev pub load : (Str → Option Config) → Option Str → Config
load from_json none = no_config
load from_json (some text) = elim (from_json text) [ none ↦ no_config | some config ↦ config ]

abbrev pub has_id : Str → Profile → Bool
has_id id p = same_str p.id id

abbrev pub find_id : List Profile → Option Str → Option Profile
find_id profiles none = none
find_id profiles (some id) = find (has_id id) profiles

unfoldable pub selected_profile : Config → Option Profile
selected_profile config = find_id config.profiles config.selected

-- What the profiles do to the outside, and what the app does at its start.
pub data Write : Type 0 where
  save : Config → Write
  keychain_delete : Str → Write
  keychain_set : Str → Str → Write
  heal_route_if_broken : Bool → Write
  clear_disconnect_request : Write

-- The part of `SstpApp` that is about the profiles; the log has what was done, latest first.
pub record Editor : Type 0 where
  pub config : Config
  pub password : Str
  pub save_password : Bool
  pub log : List Write

abbrev pub or_empty : Option Str → Str
or_empty none = []
or_empty (some s) = s

-- What `keychain_get` finds may depend on what was done before. A new profile has an id that
-- `gen_id` made, and a name that is made of a number.
module _ (keychain_get : List Write → Str → Option Str) (name_of : ℕ → Str) where
  unfoldable pub blank : Str → ℕ → Profile
  blank id n = record { id = id; name = name_of n; server = []; username = [] }

  abbrev pub or_first : Profile → Option Str → Option Str
  or_first p none = some p.id
  or_first p (some s) = some s

  unfoldable pub checked : Str → List Profile → Option Str → Config
  unfolding blank
  checked id [] selected = record { profiles = blank id 1 ∷ []; selected = some id }
  checked id (p ∷ ps) selected = record { profiles = p ∷ ps; selected = or_first p selected }

  -- `Config::load` gave this; `id` is for a profile that is made when there is none.
  unfoldable pub new_config : Str → Config → Config
  unfolding checked
  new_config id loaded = checked id loaded.profiles loaded.selected

  abbrev pub saved_password : Option Profile → Str
  saved_password none = []
  saved_password (some p) = or_empty (keychain_get [] p.id)

  abbrev pub healed : Bool → List Write
  healed true = []
  healed false = heal_route_if_broken true ∷ []

  -- With whether there is a default route.
  unfoldable pub new : Bool → Str → Config → Editor
  unfolding new_config selected_profile
  new route_ok id loaded =
      let config = new_config id loaded in
      let password = saved_password (selected_profile config) in
      record {
        config = config;
        password = password;
        save_password = not (is_empty password);
        log = clear_disconnect_request ∷ healed route_ok;
      }

  unfoldable pub select_profile : Str → Editor → Editor
  select_profile id e =
      let config : Config = record { profiles = e.config.profiles; selected = some id } in
      let password = or_empty (keychain_get e.log id) in
      record {
        config = config;
        password = password;
        save_password = not (is_empty password);
        log = save config ∷ e.log;
      }

  unfoldable pub add_profile : Str → Editor → Editor
  unfolding select_profile blank
  add_profile id e = select_profile id (record e {
    config = record {
      profiles = e.config.profiles ++ (blank id (length e.config.profiles + 1) ∷ []);
      selected = e.config.selected;
    };
  })

  abbrev pub is_selected : Str → Option Str → Bool
  is_selected id none = false
  is_selected id (some s) = same_str s id

  -- The first profile that is left is selected, if there is one.
  unfoldable pub select_first : List Profile → Editor → Editor
  unfolding select_profile
  select_first [] e = record e {
    config = record { profiles = e.config.profiles; selected = none };
    password = [];
  }
  select_first (p ∷ ps) e = select_profile p.id e

  abbrev pub saved : Editor → Editor
  saved e = record e { log = save e.config ∷ e.log }

  unfoldable pub remove_profile : Str → Editor → Editor
  unfolding select_first
  remove_profile id e =
      let left = retain (λ p. not (same_str p.id id)) e.config.profiles in
      let e' = record e {
        config = record { profiles = left; selected = e.config.selected };
        log = keychain_delete id ∷ e.log;
      } in
      saved (if is_selected id e.config.selected then select_first left e' else e')

pub data VpnStatus : Type 0 where
  disconnected connecting_status connected : VpnStatus

pub record Window : Type 0 where
  pub vpn_status : VpnStatus
  pub interface : Option Str
  pub last_heal_attempt : Option ℕ

module _ (kill : PidT → Option ℕ) where
  abbrev pub is_alive : Option ℕ → Bool
  is_alive none = false
  is_alive (some pid) = pid_alive kill pid

  abbrev pub is_connected : Option WorkerState → Bool
  is_connected (some connected_state) = true
  is_connected _ = false

  abbrev pub is_final : Option WorkerState → Bool
  is_final (some error_state) = true
  is_final (some disconnected_state) = true
  is_final _ = false

  unfoldable pub worker_up : Option VpnStatusFile → Bool
  worker_up none = false
  worker_up (some s) = is_connected s.state && is_alive s.pid

  unfoldable pub worker_gave_up : Option VpnStatusFile → Bool
  worker_gave_up none = true
  worker_gave_up (some s) = is_final s.state || not (is_alive s.pid)

  abbrev pub interface_of : Option VpnStatusFile → Option Str
  interface_of none = none
  interface_of (some s) = s.interface

  -- The `match` on the status and `worker_up`, with whether a heal is needed.
  unfoldable pub follow : Bool → Bool → Option VpnStatusFile → Window → VpnStatus → Window × Bool
  follow false gave_up status x connected =
      (record x { vpn_status = disconnected; interface = none }, true)
  follow true gave_up status x connecting_status =
      (record x { vpn_status = connected; interface = interface_of status }, false)
  follow true gave_up status x disconnected =
      (record x { vpn_status = connected; interface = interface_of status }, false)
  follow false true status x connecting_status = (record x { vpn_status = disconnected }, false)
  follow _ _ status x _ = (x, false)

  abbrev pub is_disconnected : VpnStatus → Bool
  is_disconnected disconnected = true
  is_disconnected _ = false

  -- More than 30 seconds since the last attempt, in nanoseconds.
  abbrev pub is_due : ℕ → Option ℕ → Bool
  is_due now none = true
  is_due now (some t) = ltb 30000000000 (now - t)

  abbrev pub attempt_if : Bool → ℕ → Window → Window × Bool
  attempt_if true now x = (record x { last_heal_attempt = some now }, true)
  attempt_if false now x = (x, false)

  -- The status is looked at again, behind the `match`.
  abbrev pub after_follow : ℕ → Bool → (Window → Window) → Window × Bool → Window × Bool
  after_follow now route_ok meanwhile (x, true) = attempt_if true now x
  after_follow now route_ok meanwhile (x, false) =
      let x' = meanwhile x in
      attempt_if (is_disconnected x'.vpn_status && not route_ok && is_due now x'.last_heal_attempt)
        now x'

  -- A poll at the time `now`, when no other operation is busy: the new state, and whether it calls
  -- `heal_route_if_broken(true)`. The threads may change the status in between.
  unfoldable pub poll : ℕ → Bool → (Window → Window) → Option VpnStatusFile → Window → Window × Bool
  unfolding worker_up worker_gave_up follow
  poll now route_ok meanwhile status x =
      after_follow now route_ok meanwhile
        (follow (worker_up status) (worker_gave_up status) status x x.vpn_status)

abbrev pub vpn_worker : Str
vpn_worker = codes "--vpn-worker"

-- The command that `spawn_connect` runs with the rights of root.
unfoldable pub worker_command : Str → Str → Str → Str
worker_command exe server username =
    shell_quote exe
    ++ (0x20 ∷ (vpn_worker ++ (0x20 ∷ (shell_quote server ++ (0x20 ∷ shell_quote username)))))

-- What `main` starts for its arguments, its own name the first.
pub data Start : Type 0 where
  run_worker : Str → Str → Start
  print_usage : Start
  run_window : Start

unfoldable pub start_worker : List Str → Start
start_worker (server ∷ username ∷ args) = run_worker server username
start_worker _ = print_usage

unfoldable pub main : List Str → Start
unfolding start_worker
main (exe ∷ flag ∷ args) = if same_str flag vpn_worker then start_worker args else run_window
main _ = run_window
