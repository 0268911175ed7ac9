-- ===== src/App/Screens/Frames.antt =====
-- main.rs: the calls of `ui`, one after the other, when they may panic and which operations they
-- start.
use mac_os_sstp_client.Prelude.{
  ℕ, ◌≤◌, ◌≡◌, ◌≢◌, ◌⊎◌, List, All, Option, none, some, Bool, true, false, length,
}
use mac_os_sstp_client.Prelude.Text.{Str}
use mac_os_sstp_client.App.{Config, Write, new, VpnStatus, disconnected}
use mac_os_sstp_client.App.Profiles.{IsSelecting}
use mac_os_sstp_client.App.Screens.{
  connect_view, Screen, ConnectClicks, SettingsClicks, Operation, start_connect, start_disconnect,
  Pending, is_some, ui,
}

abbrev pub OperationOk : VpnStatus → Bool → Operation → Type 0
OperationOk status busy (start_connect profile password) =
    (busy ≡ false) × (status ≡ disconnected) × (is_some profile ≡ true)
OperationOk status busy start_disconnect = (busy ≡ false) × (status ≢ disconnected)

-- The frame panics only if it may, leaves a selected profile if there is any, and starts at most one
-- operation, the one for the status, when none is busy.
abbrev pub FrameOk : Type 0 → VpnStatus → Bool → Option (Screen × List Operation) → Type 0
FrameOk may status busy none = may
FrameOk may status busy (some (x, operations)) =
    IsSelecting x.editor × (length operations ≤ 1) × All (OperationOk status busy) operations

-- A lock is poisoned, or a profile is to be added before 1970.
abbrev pub MayPanic : Bool → Option Str → Bool → Type 0
MayPanic poisoned id add = (poisoned ≡ true) ⊎ ((id ≡ none) × (add ≡ true))

-- A screen that does not panic hands on whether a profile is to be added.
abbrev HandsOn : Bool → Option (Screen × Pending) → Type 0
HandsOn add none = Unit {0}
HandsOn add (some (x, pending)) = pending.add ≡ add

module _ (keychain_get : List Write → Str → Option Str) (name_of : ℕ → Str) where
  -- The states of the window from its start on, through any calls of `ui` that do not panic; between
  -- them the status and what is busy may change in any way.
  pub data Reach (route_ok : Bool) (id : Str) (loaded : Config) : Screen → Type 0 where
    opened :
        Reach route_ok id loaded
          (record { editor = new keychain_get name_of route_ok id loaded; view = connect_view })
    framed :
        {x x' : Screen} {operations : List Operation} (status : VpnStatus) (busy poisoned : Bool)
        (id' : Option Str) (on_connect : ConnectClicks) (on_settings : SettingsClicks)
        → ui keychain_get name_of status busy poisoned id' on_connect on_settings x
          ≡ some (x', operations)
        → Reach route_ok id loaded x
        → Reach route_ok id loaded x'
