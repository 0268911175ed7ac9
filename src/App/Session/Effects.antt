-- ===== src/App/Session/Effects.antt =====
-- main.rs: what the threads of `spawn_connect` and `spawn_disconnect` leave behind.
use mac_os_sstp_client.Prelude.{
  ℕ, suc, ◌+◌, ◌≡◌, refl, ap, ◌∙◌, arith, List, [], ◌∷◌, ◌++◌, if◌then◌else◌, Option, none, some,
  Bool, true, false, ◌&&◌, not, any, Bool-cases, inl, inr,
}
use mac_os_sstp_client.Prelude.Text.{Str}
use mac_os_sstp_client.Ipc.{WorkerState, PidT, pid_alive}
use mac_os_sstp_client.App.{Profile, VpnStatus, disconnected, connecting_status}
use mac_os_sstp_client.App.Session.{
  Action, after_wait, await_confirmation, connect_as, is_confirmation, lacks_field, spawn_connect,
  spawn_disconnect, append_log, clear_disconnect_request, disconnecting, heal_route, kill_worker,
  launch, request_disconnect, save_route_snapshot, set_busy, set_status, sleep,
}

-- What a log leaves behind: whether an operation is busy, what is shown, whether a request to
-- disconnect is there, whom it has killed, and
-- the launches and the calls to heal the route.
abbrev pub busy : List Action → Bool
busy [] = false
busy (set_busy b ∷ log) = b
busy (_ ∷ log) = busy log

abbrev pub requested : List Action → Bool
requested [] = false
requested (request_disconnect ∷ log) = true
requested (clear_disconnect_request ∷ log) = false
requested (_ ∷ log) = requested log

abbrev pub kills : List Action → List ℕ
kills [] = []
kills (kill_worker pid ∷ log) = pid ∷ kills log
kills (_ ∷ log) = kills log

abbrev pub launches : List Action → ℕ
launches [] = 0
launches (launch cmd ∷ log) = suc (launches log)
launches (_ ∷ log) = launches log

abbrev pub heals : List Action → List Bool
heals [] = []
heals (heal_route notify ∷ log) = notify ∷ heals log
heals (_ ∷ log) = heals log

abbrev pub one_if : Bool → ℕ
one_if true = 1
one_if false = 0

-- Whom the window kills, with whether the disconnect was confirmed and the process of the status.
abbrev pub killed : (PidT → Option ℕ) → Bool → Option ℕ → List ℕ
killed kill true pid = []
killed kill false none = []
killed kill false (some pid) = if pid_alive kill pid then pid ∷ [] else []

await-kills :
    (states : List (Option WorkerState)) (log : List Action)
    → ((await_confirmation states log).0 ≡ any is_confirmation states)
      × (kills (await_confirmation states log).1 ≡ kills log)
      × (heals (await_confirmation states log).1 ≡ heals log)
unfolding await_confirmation
await-kills [] log = (refl, refl, refl)
await-kills (state ∷ states) log = elim (Bool-cases (is_confirmation state)) [
  | inl y ↦ rw y (refl, refl, refl)
  | inr n ↦ rw n (await-kills states (sleep 300 ∷ log))
]

module _ (kill : PidT → Option ℕ) where
  after_wait-kills :
      (pid : Option ℕ) (r : Bool × List Action)
      → (kills (after_wait kill pid r) ≡ killed kill r.0 pid ++ kills r.1)
        × (heals (after_wait kill pid r) ≡ heals r.1)
  unfolding after_wait
  after_wait-kills pid (true, log) = (refl, refl)
  after_wait-kills none (false, log) = (refl, refl)
  after_wait-kills (some pid) (false, log) = elim (Bool-cases (pid_alive kill pid)) [
    | inl y ↦ rw y (refl, refl)
    | inr n ↦ rw n (refl, refl)
  ]

-- Whatever states are read, a disconnect ends: nothing is busy, the request is cleared, and
-- `heal_route_if_broken` is called once, without a notification of success. The process that the
-- status file names then is killed, and nothing else, exactly if none of the states read before
-- the deadline confirmed the disconnect and that process is alive.
pub spawn_disconnect_lem :
    (kill : PidT → Option ℕ) (states : List (Option WorkerState)) (pid : Option ℕ)
    (log : List Action)
    → (busy (spawn_disconnect kill states pid log) ≡ false)
      × (requested (spawn_disconnect kill states pid log) ≡ false)
      × (heals (spawn_disconnect kill states pid log) ≡ false ∷ heals log)
      × (kills (spawn_disconnect kill states pid log)
          ≡ killed kill (any is_confirmation states) pid ++ kills log)
unfolding spawn_disconnect
spawn_disconnect_lem kill states pid log =
    let begun = request_disconnect ∷ append_log disconnecting ∷ set_busy true ∷ log in
    let (answer, same_kills, same_heals) = await-kills states begun in
    let (slain, healed) = after_wait-kills kill pid (await_confirmation states begun) in
    (refl, refl, ap (λ hs. false ∷ hs) (healed ∙ same_heals), rw (answer, same_kills) at slain)

abbrev pub shown : List Action → VpnStatus
shown [] = disconnected
shown (set_status status ∷ log) = status
shown (_ ∷ log) = shown log

-- A snapshot of the route was saved, with nothing but a line of the log since.
abbrev pub IsSnapshotFirst : List Action → Type 0
IsSnapshotFirst [] = Unit {0}
IsSnapshotFirst (launch cmd ∷ append_log line ∷ save_route_snapshot ∷ log) = IsSnapshotFirst log
IsSnapshotFirst (launch cmd ∷ log) = ⊥
IsSnapshotFirst (_ ∷ log) = IsSnapshotFirst log

-- Whether the password is staged for a worker that can be started.
abbrev pub can_launch : Option Str → Option Str → Bool
can_launch (some exe) none = true
can_launch _ _ = false

abbrev pub launch_status : Bool → VpnStatus
launch_status true = connecting_status
launch_status false = disconnected

abbrev pub Attempted : Bool → List Action → List Action → Type 0
Attempted launched log log' =
    (busy log' ≡ false)
    × (launches log' ≡ launches log + one_if launched)
    × (shown log' ≡ launch_status launched)
    × (IsSnapshotFirst log → IsSnapshotFirst log')

connect_as-Attempted :
    (profile : Profile) (password : Str) (exe staged : Option Str) (log : List Action)
    → shown log ≡ connecting_status
    → Attempted (can_launch exe staged) log (connect_as profile password exe staged log)
unfolding connect_as
connect_as-Attempted profile password none staged log q = (refl, omega arith, refl, λ v. v)
connect_as-Attempted profile password (some exe) (some e) log q = (refl, omega arith, refl, λ v. v)
connect_as-Attempted profile password (some exe) none log q = (refl, omega arith, q, λ v. v)

-- A connect with a selected profile ends with nothing busy. It launches the worker once if the
-- profile has a server and a user name, there is a password, the path of the executable is
-- known and the password could be staged, and the status is then Connecting; else it launches
-- nothing and the status is Disconnected. A launch comes right behind the snapshot of the
-- route, if this was so of all launches before.
pub spawn_connect_lem :
    (profile : Profile) (password : Str) (exe staged : Option Str) (log : List Action)
    → Attempted
        (not (lacks_field profile password) && can_launch exe staged)
        log
        (spawn_connect (some profile) password exe staged log)
unfolding spawn_connect
spawn_connect_lem profile password exe staged log =
    elim (Bool-cases (lacks_field profile password)) [
      | inl y ↦ rw y (refl, omega arith, refl, λ v. v)
      | inr n ↦ rw n (connect_as-Attempted profile password exe staged _ refl)
    ]
