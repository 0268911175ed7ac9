-- ===== src/Connection/Log.antt =====
-- connection.rs: what is allowed in the log of the task, and the handlers of one packet against it.
use mac_os_sstp_client.Prelude.{
  ◌≡◌, inl, inr, refl, sym, List, [], ◌∷◌, Option, none, some, Result, ok, err, Bytes, All,
  Option-cases,
}
use mathlib.Core.Path.{subst}
use mac_os_sstp_client.Prelude.Text.{Str}
use mac_os_sstp_client.Prelude.Crypto.{Crypto}
use mac_os_sstp_client.Packet.{Packet}
use mac_os_sstp_client.Ipcp.{NegotiatedConfig}
use mac_os_sstp_client.Mppe.{MppeKeys}
use mac_os_sstp_client.Engine.{
  Engine, EngineEvent, send, trace, deliver_ip_packet, established, fatal, Outcome, done, panic,
  on_packet,
}
use mac_os_sstp_client.Engine as Engine
use mac_os_sstp_client.Engine.History.{Entry, Authenticated, IsValid, EventOk, OutcomeOk}
use mac_os_sstp_client.Engine.Authentic.{packet_ok}
use mac_os_sstp_client.Utun.{Utun, UtunError, create, configure_ipv4}
use mac_os_sstp_client.Connection.Device.{
  IsOpen, IsReady, DeviceOk, DeviceOk-tls_write, DeviceOk-emit, DeviceOk-take_packet,
}
use mac_os_sstp_client.Connection.State.{
  ProtocolError, connected, disconnected, error, Action, tls_write, create_utun, ifconfig,
  take_packet, utun_write, emit, utun_error, write_failed, World, Session, Step, going, returned,
  panicked, hung, ◌>>>◌,
}
use mac_os_sstp_client.Connection.Events.{
  with_log, write_all, write_in, open_utun, on_addresses, on_event, on_events,
}
use mac_os_sstp_client.Connection.Handlers.{on_outcome, handle_packet}

-- The packets that the engine was given, latest first.
abbrev pub history : List Action → List Entry
history [] = []
history (take_packet draws pkt ∷ log) = (draws, pkt) ∷ history log
history (_ ∷ log) = history log

module _ (c : Crypto) (username password : Str) where
  -- What is allowed behind the actions before it: an IP packet goes to the open device; the app
  -- is told that the tunnel is up when its device is ready; both only when the server has authenticated
  -- itself; and no event that ends the task is told.
  abbrev pub ActionOk : Action → List Action → Type 0
  ActionOk (utun_write u ip_pkt) log =
      IsOpen u log × ((keys : MppeKeys) × Authenticated c username password (history log) keys)
  ActionOk (emit (connected name negotiated)) log =
      IsReady name negotiated log
      × ((keys : MppeKeys) × Authenticated c username password (history log) keys)
  ActionOk (emit disconnected) log = ⊥
  ActionOk (emit (error e)) log = ⊥
  ActionOk _ log = Unit {0}

  abbrev pub LogOk : List Action → Type 0
  LogOk [] = Unit {0}
  LogOk (a ∷ log) = ActionOk a log × LogOk log

  -- There is a device only when the server has authenticated itself.
  abbrev pub TrustOk : Option Utun → List Entry → Type 0
  TrustOk none h = Unit {0}
  TrustOk (some u) h = (keys : MppeKeys) × Authenticated c username password h keys

  -- What holds of the session when the engine was given the packets `h`.
  pub record SessionOk (h : List Entry) (s : Session) : Type 0 where
    pub past : history s.log ≡ h
    pub engine_ok : IsValid c username password h s.engine
    pub device_ok : DeviceOk s.utun s.log
    pub trust_ok : TrustOk s.utun h
    pub log_ok : LogOk s.log

  TrustOk-cons : (u : Option Utun) (e : Entry) (h : List Entry) → TrustOk u h → TrustOk u (e ∷ h)
  TrustOk-cons none e h t = tt
  TrustOk-cons (some u) e h (keys, a) = (keys, inr a)

  -- Code that goes on, returns or panics leaves an allowed log, and it does not hang.
  abbrev pub Kept {ℓ} : {S : Type ℓ} → (S → Type 0) → Step S → Type 0
  Kept P (going s) = P s
  Kept P (returned e log) = LogOk log
  Kept P (panicked log) = LogOk log
  Kept P (hung log) = ⊥

  pub Kept-then {ℓ κ} :
      {S : Type ℓ} {T : Type κ} (P : S → Type 0) (Q : T → Type 0) (m : Step S) (f : S → Step T)
      → Kept P m
      → ((s : S) → P s → Kept Q (f s))
      → Kept Q (m >>> f)
  Kept-then P Q (going s) f h k = k s h
  Kept-then P Q (returned e log) f h k = h
  Kept-then P Q (panicked log) f h k = h
  Kept-then P Q (hung log) f h k = absurd h

  pub write_in-Kept :
      (h : List Entry) (w : World) (failure : Str → ProtocolError) (bytes : Bytes) (s : Session)
      → SessionOk h s
      → Kept (SessionOk h) (write_in w failure bytes s)
  unfolding write_all
  write_in-Kept h w failure bytes s v = elim (Option-cases (w.writes (tls_write bytes ∷ s.log))) [
    | inl q ↦
        rw (q, write_all)
          (record {
            past = v.past;
            engine_ok = v.engine_ok;
            device_ok = DeviceOk-tls_write s.utun bytes s.log v.device_ok;
            trust_ok = v.trust_ok;
            log_ok = (tt, v.log_ok);
          })
    | inr (e, q) ↦ rw (q, write_all) (tt, v.log_ok)
  ]

  open_utun-Kept :
      (h : List Entry) (w : World) (negotiated : NegotiatedConfig) (keys : MppeKeys)
      (local peer : Bytes) (created : Utun) (s : Session)
      → SessionOk h s
      → negotiated.local_ip ≡ some local
      → negotiated.peer_ip ≡ some peer
      → Authenticated c username password h keys
      → Kept (SessionOk h) (open_utun w negotiated local peer created s)
  unfolding open_utun
  open_utun-Kept h w negotiated keys local peer created s v l p a =
      elim (Option-cases (
        configure_ipv4 (w.ifconfigs (ifconfig created local peer ∷ create_utun ∷ s.log)) created
          local peer)) [
            | inl q ↦
                rw (q, open_utun)
                  (record {
                    past = v.past;
                    engine_ok = v.engine_ok;
                    device_ok = refl;
                    trust_ok = (keys, a);
                    log_ok = (
                      (
                        (refl, refl, l, p),
                        (
                          keys,
                          subst (λ h. Authenticated c username password h keys) (sym v.past) a,
                        ),
                      ),
                      (tt, (tt, (tt, v.log_ok))),
                    );
                  })
            | inr (e, q) ↦ rw (q, open_utun) (tt, (tt, v.log_ok))
          ]

  on_addresses-Kept :
      (h : List Entry) (w : World) (negotiated : NegotiatedConfig) (keys : MppeKeys)
      (local peer : Option Bytes) (s : Session)
      → SessionOk h s
      → negotiated.local_ip ≡ local
      → negotiated.peer_ip ≡ peer
      → Authenticated c username password h keys
      → Kept (SessionOk h) (on_addresses w negotiated local peer s)
  unfolding on_addresses
  on_addresses-Kept h w negotiated keys (some local) (some peer) s v l p a = go (create _)
    where
      go :
          (made : Result UtunError Utun)
          → Kept (SessionOk h) (elim made [
            | ok created ↦ open_utun w negotiated local peer created s
            | err e ↦ returned (some (utun_error e)) (create_utun ∷ s.log)
          ])
      go (ok created) = open_utun-Kept h w negotiated keys local peer created s v l p a
      go (err e) = (tt, v.log_ok)
  on_addresses-Kept h w negotiated keys none _ s v l p a = v.log_ok
  on_addresses-Kept h w negotiated keys (some local) none s v l p a = v.log_ok

  -- An IP packet goes to the device that is there, if there is one.
  deliver-Kept :
      (h : List Entry) (ip_pkt : Bytes) (s : Session) (u : Option Utun)
      → SessionOk h s
      → s.utun ≡ u
      → Kept
          (SessionOk h)
          (elim u [ none ↦ going s | some u ↦ going (with_log s (utun_write u ip_pkt ∷ s.log)) ])
  deliver-Kept h ip_pkt s none v q = v
  deliver-Kept h ip_pkt s (some u) v q =
      let d = subst (λ o. DeviceOk o s.log) q v.device_ok in
      record {
        past = v.past;
        engine_ok = v.engine_ok;
        device_ok = subst (λ o. DeviceOk o (utun_write u ip_pkt ∷ s.log)) (sym q) d;
        trust_ok = v.trust_ok;
        log_ok = (
          (
            d,
            subst (λ h'. TrustOk (some u) h') (sym v.past) (subst (λ o. TrustOk o h) q v.trust_ok),
          ),
          v.log_ok,
        );
      }

  on_event-Kept :
      (h : List Entry) (w : World) (event : EngineEvent) (s : Session)
      → SessionOk h s
      → EventOk c username password h event
      → Kept (SessionOk h) (on_event w event s)
  unfolding on_event
  on_event-Kept h w (send bytes) s v a = write_in-Kept h w write_failed bytes s v
  on_event-Kept h w (deliver_ip_packet ip_pkt) s v a = deliver-Kept h ip_pkt s s.utun v refl
  on_event-Kept h w (established negotiated keys) s v a =
      on_addresses-Kept h w negotiated keys negotiated.local_ip negotiated.peer_ip s v refl refl a
  on_event-Kept h w Engine.disconnected s v a = v.log_ok
  on_event-Kept h w (fatal msg) s v a = v.log_ok
  on_event-Kept h w (trace msg) s v a = record {
    past = v.past;
    engine_ok = v.engine_ok;
    device_ok = DeviceOk-emit s.utun _ s.log v.device_ok;
    trust_ok = v.trust_ok;
    log_ok = (tt, v.log_ok);
  }

  on_events-Kept :
      (h : List Entry) (w : World) (events : List EngineEvent) (s : Session)
      → SessionOk h s
      → All (EventOk c username password h) events
      → Kept (SessionOk h) (on_events w events s)
  unfolding on_events
  on_events-Kept h w [] s v a = v
  on_events-Kept h w (event ∷ events) s v (a, later) =
      Kept-then (SessionOk h) (SessionOk h) (on_event w event s) (on_events w events)
        (on_event-Kept h w event s v a) (λ s' v'. on_events-Kept h w events s' v' later)

  -- Somewhere in what was done, with its own history.
  abbrev pub Holds : Session → Type 0
  Holds s = SessionOk (history s.log) s

  pub Holds-past : (h : List Entry) (s : Session) → SessionOk h s → Holds s
  Holds-past h s v = subst (λ h'. SessionOk h' s) (sym v.past) v

  pub Kept-map : (h : List Entry) (m : Step Session) → Kept (SessionOk h) m → Kept Holds m
  Kept-map h (going s) k = Holds-past h s k
  Kept-map h (returned e log) k = k
  Kept-map h (panicked log) k = k
  Kept-map h (hung log) k = k

  -- `s` is the session whose log has the packet, and still the engine before it.
  on_outcome-Kept :
      (w : World) (outcome : Outcome) (s : Session)
      → DeviceOk s.utun s.log
      → TrustOk s.utun (history s.log)
      → LogOk s.log
      → OutcomeOk c username password (history s.log) outcome
      → Kept Holds (on_outcome c w outcome s)
  unfolding on_outcome
  on_outcome-Kept w panic s d t l o = l
  on_outcome-Kept w (done engine events) s d t l (v, a) =
      let h = history s.log in
      let s' = record s { engine = engine } in
      let ready : SessionOk h s' = record {
        past = refl;
        engine_ok = v;
        device_ok = d;
        trust_ok = t;
        log_ok = l;
      } in
      Kept-map h (on_events w events s') (on_events-Kept h w events s' ready a)

  pub handle_packet-Kept :
      (w : World) (pkt : Packet) (s : Session) → Holds s → Kept Holds (handle_packet c w pkt s)
  unfolding handle_packet
  handle_packet-Kept w pkt s v =
      let draws = w.draws s.handled in
      on_outcome-Kept w (on_packet c draws s.engine pkt) _
        (DeviceOk-take_packet s.utun (draws, pkt) s.log v.device_ok)
        (TrustOk-cons s.utun (draws, pkt) (history s.log) v.trust_ok) (tt, v.log_ok)
        (packet_ok c username password (history s.log) draws pkt s.engine v.engine_ok)
