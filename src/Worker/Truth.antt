-- ===== src/Worker/Truth.antt =====
-- worker.rs: what the status file says of the routes, when it is written.
pub mod Runs
use mac_os_sstp_client.Prelude.{
  if-both, arith, ℕ, suc, ◌≡◌, refl, List, [], ◌∷◌, Option, none, some, Bool, true, false, not,
}
use mac_os_sstp_client.Prelude.Text.{Str}
use mac_os_sstp_client.Prelude.Text.Equal.{same_str, same_str_refl}
use mac_os_sstp_client.Ipcp.{NegotiatedConfig}
use mac_os_sstp_client.Connection.{Event, progress, connected, disconnected, error}
use mac_os_sstp_client.Ipc.{
  WorkerState, connecting, connected_state, disconnected_state, error_state, VpnStatusFile,
}
use mac_os_sstp_client.Worker.{
  Action, add_host_route, delete_host_route, add_default, delete_default, append_log, write_status,
  clear_disconnect_request, disconnected_line, connection_error_line, Worker, Wake, received, poll,
  Step, going, ended, stuck, drop_runtime, ◌>>>◌, unprotect, take_handle, disconnect_line, finish,
  on_connected, on_received, on_poll, step, async_loop, async_main,
}
use mac_os_sstp_client.Worker.Routing.{
  host_route, shield, unprotect-none, IsKept, IsGuarded, disconnects, WorkerOk, StepOk, step-StepOk,
}

-- Where the worker has pointed the default route.
abbrev pub default_via : List Action → Option Str
default_via [] = none
default_via (add_default iface ∷ log) = some iface
default_via (delete_default ∷ log) = none
default_via (_ ∷ log) = default_via log

-- The commands that change a route.
abbrev pub route_changes : List Action → ℕ
route_changes [] = 0
route_changes (add_host_route ip gw ∷ log) = suc (route_changes log)
route_changes (delete_host_route ip ∷ log) = suc (route_changes log)
route_changes (add_default iface ∷ log) = suc (route_changes log)
route_changes (delete_default ∷ log) = suc (route_changes log)
route_changes (_ ∷ log) = route_changes log

module _ (pid : ℕ) where
  -- A status that is written behind these actions says what they have asked `route` for: while it is
  -- connecting nothing; connected, the default route to the tunnel that it names, and the host route
  -- to the server, if a gateway was known; at the end no host route is left that was not asked to be
  -- deleted.
  abbrev pub StatesTrue :
      Option Str → Option Str → Option WorkerState → VpnStatusFile → List Action → Type 0
  StatesTrue server_ip gateway (some connecting) status log =
      (status.pid ≡ some pid) × (route_changes log ≡ 0)
  StatesTrue server_ip gateway (some connected_state) status log =
      (status.pid ≡ some pid) × (default_via log ≡ status.interface) × IsKept server_ip gateway log
  StatesTrue server_ip gateway (some disconnected_state) status log =
      (ip : Str) → host_route ip log ≡ none
  StatesTrue server_ip gateway (some error_state) status log = (ip : Str) → host_route ip log ≡ none
  StatesTrue server_ip gateway none status log = ⊥

  abbrev pub IsOpenState : Option WorkerState → Type 0
  IsOpenState (some disconnected_state) = ⊥
  IsOpenState (some error_state) = ⊥
  IsOpenState _ = Unit {0}

  -- No final status was written.
  abbrev pub IsOpen : List Action → Type 0
  IsOpen [] = Unit {0}
  IsOpen (write_status status ∷ log) = IsOpenState status.state
  IsOpen (_ ∷ log) = IsOpen log

  -- Behind a final status there is nothing but the withdrawal of a request.
  abbrev pub ActionTrue : Option Str → Option Str → Action → List Action → Type 0
  ActionTrue server_ip gateway (write_status status) log =
      StatesTrue server_ip gateway status.state status log × IsOpen log
  ActionTrue server_ip gateway clear_disconnect_request log = Unit {0}
  ActionTrue server_ip gateway _ log = IsOpen log

  abbrev pub LogTrue : Option Str → Option Str → List Action → Type 0
  LogTrue server_ip gateway [] = Unit {0}
  LogTrue server_ip gateway (a ∷ log) =
      ActionTrue server_ip gateway a log × LogTrue server_ip gateway log

  abbrev pub IsTrue : Option Str → Option Str → Step → Type 0
  IsTrue server_ip gateway (going k) = LogTrue server_ip gateway k.log × IsOpen k.log
  IsTrue server_ip gateway (stuck e log) = LogTrue server_ip gateway log
  IsTrue server_ip gateway (ended none log) = LogTrue server_ip gateway log
  IsTrue server_ip gateway (ended (some e) log) = LogTrue server_ip gateway log × IsOpen log

  IsTrue-then :
      (server_ip : Str) (gateway : Option Str) (s : Step) (f : Worker → Step)
      → StepOk (some server_ip) gateway s
      → IsTrue (some server_ip) gateway s
      → ((k : Worker)
          → WorkerOk server_ip gateway k
          → LogTrue (some server_ip) gateway k.log
          → IsOpen k.log
          → IsTrue (some server_ip) gateway (f k))
      → IsTrue (some server_ip) gateway (s >>> f)
  IsTrue-then server_ip gateway (going k) f v (t, o) h = h k v t o
  IsTrue-then server_ip gateway (ended none log) f v t h = t
  IsTrue-then server_ip gateway (ended (some e) log) f v t h = t
  IsTrue-then server_ip gateway (stuck e log) f v t h = t

  pub drop_runtime-IsTrue :
      (reader_ends : List Action → Bool) (server_ip gateway : Option Str) (s : Step)
      → IsTrue server_ip gateway s
      → IsTrue server_ip gateway (drop_runtime reader_ends s)
  drop_runtime-IsTrue reader_ends server_ip gateway (going k) t = t
  drop_runtime-IsTrue reader_ends server_ip gateway (stuck e log) t = t
  drop_runtime-IsTrue reader_ends server_ip gateway (ended none log) t =
      if-both (IsTrue server_ip gateway) (reader_ends log) _ _ (λ y. t) (λ n. t)
  drop_runtime-IsTrue reader_ends server_ip gateway (ended (some e) log) (t, o) =
      if-both (IsTrue server_ip gateway) (reader_ends log) _ _ (λ y. (t, o)) (λ n. t)

  module _ (server_ip : Str) where
    unprotect-LogTrue :
        (gateway : Option Str) (protected : Bool) (log : List Action)
        → host_route server_ip log ≡ shield protected gateway
        → ((ip : Str) → same_str server_ip ip ≡ false → host_route ip log ≡ none)
        → LogTrue (some server_ip) gateway log
        → IsOpen log
        → LogTrue (some server_ip) gateway (unprotect server_ip pid protected log)
          × IsOpen (unprotect server_ip pid protected log)
          × ((ip : Str) → host_route ip (unprotect server_ip pid protected log) ≡ none)
    unprotect-LogTrue gateway true log p e t o =
        ((o, t), o, unprotect-none server_ip pid gateway true log p e)
    unprotect-LogTrue gateway false log p e t o =
        (t, o, unprotect-none server_ip pid gateway false log p e)

    on_connected-LogTrue :
        (gateway : Option Str) (interface : Str) (negotiated : NegotiatedConfig) (k : Worker)
        → LogTrue (some server_ip) gateway k.log
        → IsOpen k.log
        → IsTrue
            (some server_ip)
            gateway
            (going (on_connected server_ip pid gateway interface negotiated k))
    unfolding on_connected
    on_connected-LogTrue none interface negotiated k t o =
        ((((refl, refl, tt), o), (o, (o, (o, (o, t))))), tt)
    on_connected-LogTrue (some gw) interface negotiated k t o =
        ((((refl, refl, rw (same_str_refl server_ip) refl), o), (o, (o, (o, (o, t))))), tt)

    on_received-IsTrue :
        (gateway : Option Str) (k : Worker) (event : Option Event)
        → WorkerOk server_ip gateway k
        → LogTrue (some server_ip) gateway k.log
        → IsOpen k.log
        → IsTrue (some server_ip) gateway (on_received server_ip pid gateway k event)
    unfolding on_received finish
    on_received-IsTrue gateway k (some (progress msg)) v t o = ((o, t), o)
    on_received-IsTrue gateway k (some (connected interface negotiated)) v t o =
        on_connected-LogTrue gateway interface negotiated k t o
    on_received-IsTrue gateway k (some disconnected) v t o =
        let (t', o', p) =
          unprotect-LogTrue gateway k.route_protected (append_log disconnected_line ∷ k.log)
            v.protects v.elsewhere (o, t) o in
        ((p, o'), t')
    on_received-IsTrue gateway k (some (error e)) v t o =
        let (t', o', p) =
          unprotect-LogTrue gateway k.route_protected (append_log (connection_error_line e) ∷ k.log)
            v.protects v.elsewhere (o, t) o in
        (t', o')
    on_received-IsTrue gateway k none v t o =
        let (t', o', p) =
          unprotect-LogTrue gateway k.route_protected k.log v.protects v.elsewhere t o in
        ((p, o'), t')

    take_handle-LogTrue :
        (gateway : Option Str) (handle : Bool) (log : List Action)
        → LogTrue (some server_ip) gateway log
        → IsOpen log
        → LogTrue (some server_ip) gateway (take_handle server_ip pid handle log)
          × IsOpen (take_handle server_ip pid handle log)
    take_handle-LogTrue gateway true log t o = ((o, t), o)
    take_handle-LogTrue gateway false log t o = (t, o)

    on_poll-IsTrue :
        (gateway : Option Str) (k : Worker) (requested : Bool)
        → LogTrue (some server_ip) gateway k.log
        → IsOpen k.log
        → IsTrue (some server_ip) gateway (going (on_poll server_ip pid k requested))
    unfolding on_poll
    on_poll-IsTrue gateway k false t o = (t, o)
    on_poll-IsTrue gateway k true t o =
        take_handle-LogTrue gateway k.has_handle (append_log disconnect_line ∷ k.log) (o, t) o

    step-IsTrue :
        (gateway : Option Str) (k : Worker) (wake : Wake)
        → WorkerOk server_ip gateway k
        → LogTrue (some server_ip) gateway k.log
        → IsOpen k.log
        → IsTrue (some server_ip) gateway (step server_ip pid gateway k wake)
    unfolding step
    step-IsTrue gateway k (received event) v t o = on_received-IsTrue gateway k event v t o
    step-IsTrue gateway k (poll requested) v t o =
        if-both (IsTrue (some server_ip) gateway) (not k.disconnect_sent)
          (going (on_poll server_ip pid k requested)) (going k)
          (λ b. on_poll-IsTrue gateway k requested t o) (λ b. (t, o))

    async_loop-IsTrue :
        (gateway : Option Str) (k : Worker) (wakes : List Wake)
        → WorkerOk server_ip gateway k
        → LogTrue (some server_ip) gateway k.log
        → IsOpen k.log
        → IsTrue (some server_ip) gateway (async_loop server_ip pid gateway k wakes)
    unfolding async_loop
    async_loop-IsTrue gateway k [] v t o = (t, o)
    async_loop-IsTrue gateway k (wake ∷ wakes) v t o =
        IsTrue-then server_ip gateway (step server_ip pid gateway k wake) _
          (step-StepOk server_ip pid gateway k wake v) (step-IsTrue gateway k wake v t o)
          (λ k' v' t' o'. async_loop-IsTrue gateway k' wakes v' t' o')

    pub async_main-IsTrue :
        (gateway : Option Str) (log : List Action) (wakes : List Wake)
        → ((ip : Str) → host_route ip log ≡ none)
        → IsGuarded (some server_ip) gateway log
        → disconnects log ≡ 0
        → LogTrue (some server_ip) gateway log
        → IsOpen log
        → IsTrue (some server_ip) gateway (async_main server_ip pid gateway log wakes)
    unfolding async_main
    async_main-IsTrue gateway log wakes p g d t o =
        async_loop-IsTrue gateway _ wakes
          (record {
            protects = p server_ip;
            elsewhere = λ ip n. p ip;
            guarded = g;
            takes = omega (arith, d);
          })
          (o, t) o
