-- ===== src/Worker/Routing.antt =====
-- worker.rs: the routes that the helper process changes, and its call of `disconnect`.
pub mod Exits
use mac_os_sstp_client.Prelude.{
  if-both, inl, inr, Bool-cases, if◌then◌else◌, ℕ, suc, ◌+◌, ◌≤◌, ◌≡◌, refl, arith, List, [], ◌∷◌,
  Option, none, some, Bool, true, false, not,
}
use mac_os_sstp_client.Prelude.Text.{Str}
use mac_os_sstp_client.Prelude.Text.Equal.{same_str, same_str_refl, same_str_eq}
use mac_os_sstp_client.Ipcp.{NegotiatedConfig}
use mac_os_sstp_client.Connection.{Event, progress, connected, disconnected, error}
use mac_os_sstp_client.Ipc.{VpnStatusFile}
use mac_os_sstp_client.Worker.{
  Action, add_host_route, delete_host_route, add_default, disconnect_handle, Worker, Wake, received,
  poll, Step, going, ended, stuck, drop_runtime, ◌>>>◌, take_handle, append_log, write_status,
  disconnected_line, disconnect_line, unprotect, finish, on_connected, on_received, on_poll, step,
  async_loop,
}

-- The gateway of the host route to an address that `route` was last asked for, if it was not asked to
-- delete it since. What becomes of the commands is not looked at, here as in the source.
abbrev pub host_route : Str → List Action → Option Str
host_route ip [] = none
host_route ip (add_host_route server_ip gateway ∷ log) =
    if same_str server_ip ip then some gateway else host_route ip log
host_route ip (delete_host_route server_ip ∷ log) =
    if same_str server_ip ip then none else host_route ip log
host_route ip (_ ∷ log) = host_route ip log

-- If a gateway is known, the host route to the server goes through it.
abbrev pub IsKept : Option Str → Option Str → List Action → Type 0
IsKept server_ip none log = Unit {0}
IsKept none (some gw) log = ⊥
IsKept (some server_ip) (some gw) log = host_route server_ip log ≡ some gw

-- Then the default route is only pointed at the tunnel behind that.
abbrev pub IsGuarded : Option Str → Option Str → List Action → Type 0
IsGuarded server_ip gateway [] = Unit {0}
IsGuarded server_ip gateway (add_default iface ∷ log) =
    IsKept server_ip gateway log × IsGuarded server_ip gateway log
IsGuarded server_ip gateway (_ ∷ log) = IsGuarded server_ip gateway log

abbrev pub disconnects : List Action → ℕ
disconnects [] = 0
disconnects (disconnect_handle ∷ log) = suc (disconnects log)
disconnects (_ ∷ log) = disconnects log

-- What is left to be taken, and what was.
abbrev pub one_if : Bool → ℕ
one_if true = 1
one_if false = 0

abbrev pub shield : Bool → Option Str → Option Str
shield true gateway = gateway
shield false gateway = none

pub record WorkerOk (server_ip : Str) (gateway : Option Str) (k : Worker) : Type 0 where
  pub protects : host_route server_ip k.log ≡ shield k.route_protected gateway
  pub elsewhere : (ip : Str) → same_str server_ip ip ≡ false → host_route ip k.log ≡ none
  pub guarded : IsGuarded (some server_ip) gateway k.log
  pub takes : one_if k.has_handle + disconnects k.log ≡ 1

pub record EndOk (server_ip gateway : Option Str) (log : List Action) : Type 0 where
  pub unprotected : (ip : Str) → host_route ip log ≡ none
  pub guarded : IsGuarded server_ip gateway log
  pub takes : disconnects log ≤ 1

abbrev pub StepOk : Option Str → Option Str → Step → Type 0
StepOk server_ip gateway (ended e log) = EndOk server_ip gateway log
StepOk server_ip gateway (stuck e log) = EndOk server_ip gateway log
StepOk none gateway (going k) = ⊥
StepOk (some server_ip) gateway (going k) = WorkerOk server_ip gateway k

StepOk-then :
    (server_ip : Str) (gateway : Option Str) (s : Step) (f : Worker → Step)
    → StepOk (some server_ip) gateway s
    → ((k : Worker) → WorkerOk server_ip gateway k → StepOk (some server_ip) gateway (f k))
    → StepOk (some server_ip) gateway (s >>> f)
StepOk-then server_ip gateway (going k) f v h = h k v
StepOk-then server_ip gateway (ended e log) f v h = v
StepOk-then server_ip gateway (stuck e log) f v h = v

pub drop_runtime-StepOk :
    (reader_ends : List Action → Bool) (server_ip gateway : Option Str) (s : Step)
    → StepOk server_ip gateway s
    → StepOk server_ip gateway (drop_runtime reader_ends s)
drop_runtime-StepOk reader_ends server_ip gateway (going k) v = v
drop_runtime-StepOk reader_ends server_ip gateway (ended e log) v =
    if-both (StepOk server_ip gateway) (reader_ends log) _ _ (λ y. v) (λ n. v)
drop_runtime-StepOk reader_ends server_ip gateway (stuck e log) v = v

module _ (server_ip : Str) (pid : ℕ) where
  pub unprotect-none :
      (gateway : Option Str) (protected : Bool) (log : List Action)
      → host_route server_ip log ≡ shield protected gateway
      → ((ip : Str) → same_str server_ip ip ≡ false → host_route ip log ≡ none)
      → (ip : Str) → host_route ip (unprotect server_ip pid protected log) ≡ none
  unprotect-none gateway true log p e ip = elim (Bool-cases (same_str server_ip ip)) [
    | inl y ↦ rw y refl
    | inr n ↦ rw n (e ip n)
  ]
  unprotect-none gateway false log p e ip = elim (Bool-cases (same_str server_ip ip)) [
    | inl y ↦ rw (← same_str_eq server_ip ip y) p
    | inr n ↦ e ip n
  ]

  unprotect-EndOk :
      (gateway : Option Str) (protected : Bool) (log : List Action)
      → host_route server_ip log ≡ shield protected gateway
      → ((ip : Str) → same_str server_ip ip ≡ false → host_route ip log ≡ none)
      → IsGuarded (some server_ip) gateway log
      → disconnects log ≤ 1
      → EndOk (some server_ip) gateway (unprotect server_ip pid protected log)
  unprotect-EndOk gateway true log p e g t = record {
    unprotected = unprotect-none gateway true log p e;
    guarded = g;
    takes = t;
  }
  unprotect-EndOk gateway false log p e g t = record {
    unprotected = unprotect-none gateway false log p e;
    guarded = g;
    takes = t;
  }

  finish-EndOk :
      (gateway : Option Str) (protected : Bool) (log : List Action) (status : VpnStatusFile)
      → EndOk (some server_ip) gateway (unprotect server_ip pid protected log)
      → EndOk (some server_ip) gateway (write_status status ∷ unprotect server_ip pid protected log)
  finish-EndOk gateway protected log status v = record {
    unprotected = v.unprotected;
    guarded = v.guarded;
    takes = v.takes;
  }

  on_connected-WorkerOk :
      (gateway : Option Str) (interface : Str) (negotiated : NegotiatedConfig) (k : Worker)
      → WorkerOk server_ip gateway k
      → WorkerOk server_ip gateway (on_connected server_ip pid gateway interface negotiated k)
  unfolding on_connected
  on_connected-WorkerOk none interface negotiated k v = record {
    protects = v.protects;
    elsewhere = v.elsewhere;
    guarded = (tt, v.guarded);
    takes = v.takes;
  }
  on_connected-WorkerOk (some gw) interface negotiated k v = record {
    protects = rw (same_str_refl server_ip) refl;
    elsewhere = λ ip n. rw n (v.elsewhere ip n);
    guarded = (rw (same_str_refl server_ip) refl, v.guarded);
    takes = v.takes;
  }

  on_received-StepOk :
      (gateway : Option Str) (k : Worker) (event : Option Event)
      → WorkerOk server_ip gateway k
      → StepOk (some server_ip) gateway (on_received server_ip pid gateway k event)
  unfolding on_received finish
  on_received-StepOk gateway k (some (progress msg)) v = record {
    protects = v.protects;
    elsewhere = v.elsewhere;
    guarded = v.guarded;
    takes = v.takes;
  }
  on_received-StepOk gateway k (some (connected interface negotiated)) v =
      on_connected-WorkerOk gateway interface negotiated k v
  on_received-StepOk gateway k (some disconnected) v =
      finish-EndOk gateway k.route_protected (append_log disconnected_line ∷ k.log) _ (
        unprotect-EndOk gateway k.route_protected _ v.protects v.elsewhere v.guarded
          (omega (arith, v.takes)))
  on_received-StepOk gateway k (some (error e)) v =
      unprotect-EndOk gateway k.route_protected _ v.protects v.elsewhere v.guarded
        (omega (arith, v.takes))
  on_received-StepOk gateway k none v = finish-EndOk gateway k.route_protected k.log _ (
      unprotect-EndOk gateway k.route_protected k.log v.protects v.elsewhere v.guarded
        (omega (arith, v.takes)))

  take_handle-WorkerOk :
      (gateway : Option Str) (handle : Bool) (k : Worker)
      → k.has_handle ≡ handle
      → WorkerOk server_ip gateway k
      → WorkerOk server_ip gateway (record {
        has_handle = false;
        route_protected = k.route_protected;
        disconnect_sent = true;
        log = take_handle server_ip pid handle (append_log disconnect_line ∷ k.log);
      })
  take_handle-WorkerOk gateway true k q v = record {
    protects = v.protects;
    elsewhere = v.elsewhere;
    guarded = v.guarded;
    takes = omega (arith, rw q at v.takes);
  }
  take_handle-WorkerOk gateway false k q v = record {
    protects = v.protects;
    elsewhere = v.elsewhere;
    guarded = v.guarded;
    takes = rw q at v.takes;
  }

  on_poll-WorkerOk :
      (gateway : Option Str) (k : Worker) (requested : Bool)
      → WorkerOk server_ip gateway k
      → WorkerOk server_ip gateway (on_poll server_ip pid k requested)
  unfolding on_poll
  on_poll-WorkerOk gateway k false v = v
  on_poll-WorkerOk gateway k true v = take_handle-WorkerOk gateway k.has_handle k refl v

  pub step-StepOk :
      (gateway : Option Str) (k : Worker) (wake : Wake)
      → WorkerOk server_ip gateway k
      → StepOk (some server_ip) gateway (step server_ip pid gateway k wake)
  unfolding step
  step-StepOk gateway k (received event) v = on_received-StepOk gateway k event v
  step-StepOk gateway k (poll requested) v =
      if-both (StepOk (some server_ip) gateway) (not k.disconnect_sent)
        (going (on_poll server_ip pid k requested)) (going k)
        (λ b. on_poll-WorkerOk gateway k requested v) (λ b. v)

  pub async_loop-StepOk :
      (gateway : Option Str) (k : Worker) (wakes : List Wake)
      → WorkerOk server_ip gateway k
      → StepOk (some server_ip) gateway (async_loop server_ip pid gateway k wakes)
  unfolding async_loop
  async_loop-StepOk gateway k [] v = v
  async_loop-StepOk gateway k (wake ∷ wakes) v =
      StepOk-then server_ip gateway (step server_ip pid gateway k wake) _
        (step-StepOk gateway k wake v) (λ k'. async_loop-StepOk gateway k' wakes)
