-- ===== src/App/Frame.antt =====
-- main.rs: `logic`, the part of a frame that is not drawn: the tray's menu, the poll of the status
-- file and the time for which the tunnel has been up. The threads of the operations go on meanwhile:
-- each time that the frame looks at the status or at what is busy, it finds what they have left. The
-- tray can be built and no lock is poisoned.
pub mod Quiet
use mac_os_sstp_client.Prelude.{
  ℕ, ◌-◌, ◌/◌, List, [], ◌∷◌, ◌++◌, Option, none, some, Bool, true, false, not, ◌&&◌, ltb,
  if◌then◌else◌,
}
use mac_os_sstp_client.Prelude.Text.{Str}
use mac_os_sstp_client.Ipc.{VpnStatusFile, PidT}
use mac_os_sstp_client.I18n.{Strings}
use mac_os_sstp_client.App.{
  Editor, VpnStatus, disconnected, connecting_status, connected, Window, selected_profile, poll,
}
use mac_os_sstp_client.App.Durations.{format_duration}
use mac_os_sstp_client.App.Screens.{Operation, start_connect, start_disconnect}

-- What the tray shows; an item can be clicked while it is enabled.
pub record Tray : Type 0 where
  pub status : Str
  pub connect_enabled : Bool
  pub disconnect_enabled : Bool
  pub rgba : List ℕ
  pub tooltip : Str

pub data MenuEvent : Type 0 where
  connect_item disconnect_item show_item quit_item other_item : MenuEvent

-- What a frame does to the outside.
pub data Command : Type 0 where
  start : Operation → Command
  show_window focus_window cancel_close hide_window : Command
  heal_route_if_broken : Bool → Command
  exit : Command

abbrev pub grey : List ℕ
grey = 140 ∷ 140 ∷ 140 ∷ 255 ∷ []

abbrev pub yellow : List ℕ
yellow = 230 ∷ 180 ∷ 40 ∷ 255 ∷ []

abbrev pub green : List ℕ
green = 40 ∷ 190 ∷ 90 ∷ 255 ∷ []

unfoldable pub build_tray : Strings → Tray
build_tray t = record {
  status = t.tray_status_disconnected;
  connect_enabled = true;
  disconnect_enabled = false;
  rgba = grey;
  tooltip = t.notif_app_name ++ (0x3A ∷ 0x20 ∷ t.tray_status_disconnected);
}

-- The tray is built in the first frame.
abbrev pub or_built : Strings → Option Tray → Tray
or_built t none = build_tray t
or_built t (some tray) = tray

abbrev pub tray_label : Strings → VpnStatus → Str
tray_label t disconnected = t.tray_status_disconnected
tray_label t connecting_status = t.tray_status_connecting
tray_label t connected = t.tray_status_connected

abbrev pub tray_colour : VpnStatus → List ℕ
tray_colour disconnected = grey
tray_colour connecting_status = yellow
tray_colour connected = green

abbrev pub is_down : VpnStatus → Bool
is_down disconnected = true
is_down _ = false

unfoldable pub refresh_tray : Strings → VpnStatus → Bool → Tray → Tray
refresh_tray t status busy tray = record tray {
  status = tray_label t status;
  connect_enabled = not busy && is_down status;
  disconnect_enabled = not busy && not (is_down status);
  rgba = tray_colour status;
  tooltip = tray_label t status;
}

-- What `spawn_connect` and `spawn_disconnect` set before they start their thread: the status, and
-- that an operation is busy.
abbrev pub begin : Operation → Window × Bool → Window × Bool
begin (start_connect none password) (x, busy) = (x, busy)
begin (start_connect (some profile) password) (x, busy) =
    (record x { vpn_status = connecting_status }, true)
begin start_disconnect (x, busy) = (x, true)

pub record Handled : Type 0 where
  pub window : Window
  pub busy : Bool
  pub commands : List Command
  pub exited : Bool

-- The events in their order; nothing is done behind an exit.
unfoldable pub handle_tray_events : Editor → List MenuEvent → Window × Bool → Handled
unfolding selected_profile
handle_tray_events e [] (x, busy) = record {
  window = x;
  busy = busy;
  commands = [];
  exited = false;
}
handle_tray_events e (connect_item ∷ events) state =
    let operation = start_connect (selected_profile e.config) e.password in
    let later = handle_tray_events e events (begin operation state) in
    record later { commands = start operation ∷ later.commands }
handle_tray_events e (disconnect_item ∷ events) state =
    let later = handle_tray_events e events (begin start_disconnect state) in
    record later { commands = start start_disconnect ∷ later.commands }
handle_tray_events e (show_item ∷ events) state =
    let later = handle_tray_events e events state in
    record later { commands = show_window ∷ focus_window ∷ later.commands }
handle_tray_events e (quit_item ∷ events) (x, busy) = record {
  window = x;
  busy = busy;
  commands = exit ∷ [];
  exited = true;
}
handle_tray_events e (other_item ∷ events) state = handle_tray_events e events state

-- The fields of the app that `logic` changes; times in nanoseconds.
pub record Life : Type 0 where
  pub window : Window
  pub busy : Bool
  pub last_poll : ℕ
  pub connected_since : Option ℕ
  pub tray : Option Tray

-- Where a frame looks at the status or at what is busy.
pub data Look : Type 0 where
  refresh_status refresh_busy poll_busy poll_status retry_status track_status : Look

-- What a frame finds: the time, the events of the menu, whether the window is to be closed, whether
-- there is a default route, the status file, and what the threads make of the window and of what is
-- busy before each look.
pub record Arrival : Type 0 where
  pub now : ℕ
  pub events : List MenuEvent
  pub close_requested : Bool
  pub route_ok : Bool
  pub status : Option VpnStatusFile
  pub meanwhile : Look → Window × Bool → Window × Bool

-- A window that is closed is hidden.
abbrev pub on_close : Bool → List Command
on_close true = cancel_close ∷ hide_window ∷ []
on_close false = []

abbrev pub heal_if : Bool → List Command
heal_if true = heal_route_if_broken true ∷ []
heal_if false = []

unfoldable pub track : ℕ → VpnStatus → Option ℕ → Option ℕ
track now connected none = some now
track now connected (some t) = some t
track now _ since = none

module _ (kill : PidT → Option ℕ) (t : Strings) where
  -- What is there when the poll looks whether something is busy.
  abbrev pub refreshed : Arrival → Window × Bool → Window × Bool
  refreshed a state = a.meanwhile refresh_busy (a.meanwhile refresh_status state)

  abbrev pub at_poll : Arrival → Window × Bool → Window × Bool
  at_poll a state = a.meanwhile poll_busy (refreshed a state)

  -- The poll, and whether the route is to be healed.
  unfoldable pub poll_status_file : Arrival → Window × Bool → (Window × Bool) × Bool
  unfolding poll
  poll_status_file a (x, busy) =
      let (x', heal) =
        poll kill a.now a.route_ok (λ y. (a.meanwhile retry_status (y, busy)).0) a.status x in
      ((x', busy), heal)

  -- It is done when it is due and nothing is busy.
  unfoldable pub poll_if_due : Arrival → ℕ → Window × Bool → (Window × Bool) × Bool
  unfolding poll_status_file
  poll_if_due a last_poll state =
      if ltb 3000000000 (a.now - last_poll) && not state.1
      then poll_status_file a (a.meanwhile poll_status state)
      else (state, false)

  abbrev pub polled_at : Arrival → ℕ → ℕ
  polled_at a last_poll = if ltb 3000000000 (a.now - last_poll) then a.now else last_poll

  -- Behind the events of the menu, when none of them was Quit.
  unfoldable pub after_events : Arrival → Life → Handled → Life × List Command
  unfolding poll_if_due refresh_tray track
  after_events a s handled =
      let seen = a.meanwhile refresh_status (handled.window, handled.busy) in
      let free = a.meanwhile refresh_busy seen in
      let (polled, heal) = poll_if_due a s.last_poll (at_poll a (handled.window, handled.busy)) in
      let (x, busy) = a.meanwhile track_status polled in
      (
        record {
          window = x;
          busy = busy;
          last_poll = polled_at a s.last_poll;
          connected_since = track a.now x.vpn_status s.connected_since;
          tray = some (refresh_tray t seen.0.vpn_status free.1 (or_built t s.tray));
        },
        handled.commands ++ (on_close a.close_requested ++ heal_if heal),
      )

  -- The new state and what was done, or only that when the process exits.
  unfoldable pub logic : Arrival → Editor → Life → Option Life × List Command
  unfolding handle_tray_events after_events
  logic a e s =
      let handled = handle_tray_events e a.events (s.window, s.busy) in
      let (s', commands) = after_events a s handled in
      if handled.exited then (none, handled.commands) else (some s', commands)

-- The line under the status: the time for which the tunnel has been up and its device, or the name
-- of the profile. " · " stands between them.
-- In whole seconds.
abbrev pub elapsed : ℕ → Option ℕ → ℕ
elapsed now none = 0
elapsed now (some since) = (now - since) / 1000000000

unfoldable pub subtitle : ℕ → VpnStatus → Option ℕ → Option Str → Str → Str
unfolding format_duration
subtitle now connected since none name = format_duration (elapsed now since)
subtitle now connected since (some iface) name =
    format_duration (elapsed now since) ++ (0x20 ∷ 0xB7 ∷ 0x20 ∷ iface)
subtitle now _ since iface name = name
