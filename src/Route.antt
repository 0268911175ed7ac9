-- ===== src/Route.antt =====
-- route.rs: the snapshot of the default route, and its repair.
mod Commands
pub mod Heal
pub mod Healing
use mac_os_sstp_client.Prelude.{
  ℕ, zero, suc, ◌-◌, List, [], ◌∷◌, ◌++◌, Option, none, some, Bool, true, false, not, ◌&&◌,
  if◌then◌else◌, Bytes,
}
use mac_os_sstp_client.Prelude.Text.{Str, from_utf8_lossy}
use mac_os_sstp_client.Prelude.Text.Equal.{same_str}
use mac_os_sstp_client.Prelude.Text.Lines.{lines, trim, strip_prefix, starts_with, u32_to_string}
use mac_os_sstp_client.Ipc.{VpnStatusFile, PidT, pid_alive}
unfoldable pub use Commands.*

-- "heal: no snapshot available" and "heal: restore failed after retries".
pub data Context : Type 0 where
  no_snapshot_available failed_after_retries : Context

pub data LogLine : Type 0 where
  no_gateway_saved : LogLine
  restoring : Str → LogLine
  restored : ℕ → LogLine
  not_restored : LogLine
  diagnostics : Context → Option (Str × Str) → Option VpnStatusFile → LogLine

pub data Notification : Type 0 where
  restored_after_failure restore_failed : Notification

pub data Action : Type 0 where
  run_elevated : Str → Action
  write_snapshot : Str → Action
  remove_snapshot : Action
  append_log : LogLine → Action
  show_notification : Notification → Action
  sleep : ℕ → Action

-- What the machine answers may depend on all that was done before, latest first: the output of
-- `route -n get default` with its success, whether `ifconfig` succeeds for an interface, the status
-- file, `kill` with the signal 0, and the text of the snapshot.
pub record Machine : Type 0 where
  pub route_get : List Action → Option (Bool × Bytes)
  pub ifconfig : List Action → Str → Bool
  pub read_status : List Action → Option VpnStatusFile
  pub kill : List Action → PidT → Option ℕ
  pub read_snapshot : List Action → Option Str

-- `find_map` on `trim().strip_prefix(key)`.
unfoldable pub find_key : Str → List Str → Option Str
find_key key [] = none
find_key key (l ∷ ls) =
    let later = find_key key ls in
    elim (strip_prefix key (trim l)) [ some value ↦ some value | none ↦ later ]

abbrev pub both : Option Str → Option Str → Option (Str × Str)
both (some gateway) (some iface) = some (trim gateway, trim iface)
both _ _ = none

unfoldable pub parse_route : Bytes → Option (Str × Str)
unfolding find_key
parse_route stdout =
    let text = lines (from_utf8_lossy stdout) in
    both (find_key gateway_key text) (find_key interface_key text)

unfoldable pub route_output : Option (Bool × Bytes) → Option (Str × Str)
unfolding parse_route
route_output none = none
route_output (some (false, stdout)) = none
route_output (some (true, stdout)) = parse_route stdout

abbrev pub max_attempts : ℕ
max_attempts = 4

module _ (m : Machine) where
  unfoldable pub current_default_route : List Action → Option (Str × Str)
  unfolding route_output
  current_default_route log = route_output (m.route_get log)

  abbrev pub owner_alive : List Action → Option ℕ → Bool
  owner_alive log none = false
  owner_alive log (some pid) = pid_alive (m.kill log) pid

  unfoldable pub owns : List Action → Str → Option VpnStatusFile → Bool
  owns log iface none = false
  owns log iface (some status) = elim status.interface [
    | none ↦ false
    | some status_iface ↦ same_str status_iface iface && owner_alive log status.pid
  ]

  unfoldable pub owned_by_live_worker : List Action → Str → Bool
  unfolding owns
  owned_by_live_worker log iface = owns log iface (m.read_status log)

  unfoldable pub is_working : List Action → Option (Str × Str) → Bool
  unfolding owned_by_live_worker
  is_working log none = false
  is_working log (some (gateway, iface)) =
      if starts_with utun_prefix iface && not (owned_by_live_worker log iface)
      then false
      else m.ifconfig log iface

  unfoldable pub has_default_route : List Action → Bool
  unfolding is_working current_default_route
  has_default_route log = is_working log (current_default_route log)

  unfoldable pub snapshot_of : List Action → Option (Str × Str) → List Action
  unfolding owned_by_live_worker
  snapshot_of log none = log
  snapshot_of log (some (gateway, iface)) =
      if not (starts_with utun_prefix iface && owned_by_live_worker log iface)
      then write_snapshot gateway ∷ log
      else log

  unfoldable pub save_route_snapshot : List Action → List Action
  unfolding snapshot_of current_default_route
  save_route_snapshot log = snapshot_of log (current_default_route log)

  abbrev pub nonempty : Str → Option Str
  nonempty [] = none
  nonempty (c ∷ cs) = some (c ∷ cs)

  abbrev pub snapshot_text : Option Str → Option Str
  snapshot_text none = none
  snapshot_text (some s) = nonempty (trim s)

  unfoldable pub load_route_snapshot : List Action → Option Str
  load_route_snapshot log = snapshot_text (m.read_snapshot log)

  abbrev pub with_kill : List Action → Option ℕ → Str
  with_kill log none = flush_command
  with_kill log (some pid) =
      if pid_alive (m.kill log) pid
      then kill_command ++ (u32_to_string pid ++ (silently ++ flush_command))
      else flush_command

  unfoldable pub cleanup_fragment : List Action → Str
  cleanup_fragment log = elim (m.read_status log) [
    | none ↦ flush_command
    | some status ↦ with_kill log status.pid
  ]

  abbrev pub log_network_diagnostics : Context → List Action → List Action
  log_network_diagnostics context log =
      append_log (diagnostics context (current_default_route log) (m.read_status log)) ∷ log

  -- Behind a restore that worked.
  abbrev pub after_restore : Bool → ℕ → List Action → List Action
  after_restore true attempt log =
      remove_snapshot
      ∷ show_notification restored_after_failure
      ∷ append_log (restored attempt)
      ∷ log
  after_restore false attempt log = remove_snapshot ∷ append_log (restored attempt) ∷ log

  -- `if attempt < MAX_ATTEMPTS`, with the attempts that are left.
  abbrev pub pause : ℕ → List Action → List Action
  pause zero log = log
  pause (suc left) log = sleep 2 ∷ log

  abbrev pub after_failures : List Action → List Action
  after_failures log =
      show_notification restore_failed
      ∷ log_network_diagnostics failed_after_retries (append_log not_restored ∷ log)

  unfoldable pub attempts : ℕ → Bool → Str → List Action → List Action
  unfolding has_default_route cleanup_fragment route_cmd
  attempts zero notify gw log = after_failures log
  attempts (suc left) notify gw log =
      let tried = run_elevated (route_cmd gw ++ cleanup_fragment log) ∷ log in
      let again = attempts left notify gw (pause left tried) in
      if has_default_route tried then after_restore notify (max_attempts - left) tried else again

  -- The thread that `heal_route_if_broken` starts.
  unfoldable pub heal_thread : Bool → List Action → List Action
  unfolding attempts load_route_snapshot cleanup_fragment
  heal_thread notify log = elim (load_route_snapshot log) [
    | none ↦
        let told =
          log_network_diagnostics no_snapshot_available (append_log no_gateway_saved ∷ log) in
        run_elevated (cleanup_fragment told) ∷ told
    | some gw ↦ attempts max_attempts notify gw (append_log (restoring gw) ∷ log)
  ]

  -- A call that runs with no other, with whether a thread is still healing.
  unfoldable pub heal_route_if_broken : Bool → Bool → List Action → List Action
  unfolding heal_thread has_default_route
  heal_route_if_broken in_progress notify log =
      if has_default_route log
      then remove_snapshot ∷ log
      else if in_progress
      then log
      else heal_thread notify log
