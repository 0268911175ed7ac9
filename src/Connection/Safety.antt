-- ===== src/Connection/Safety.antt =====
-- connection.rs: what the app can rely on from a run of the task, whatever the server sends and
-- however the calls outside fail.
use mac_os_sstp_client.Prelude.{
  ℕ, ◌≡◌, refl, List, [], ◌∷◌, Option, none, some, Result, Bytes, Bool, true, false, length, retain,
  arith,
}
use mac_os_sstp_client.Prelude.Text.{Str}
use mac_os_sstp_client.Prelude.Crypto.{Crypto}
use mac_os_sstp_client.Mppe.{MppeKeys}
use mac_os_sstp_client.Engine.History.{Authenticated}
use mac_os_sstp_client.Connection.State.{
  connected, disconnected, error, ConnectError, Action, emit, utun_write, World, Step, going,
  returned, panicked, hung, Wake, Stage, in_http, in_loop,
}
use mac_os_sstp_client.Connection.Handlers.{ended, tell_end, run_inner, run}
use mac_os_sstp_client.Connection.Device.{IsOpen, IsReady}
use mac_os_sstp_client.Connection.Log.{history, LogOk, Kept}
use mac_os_sstp_client.Connection.Opening.{StageOk, run_inner-Kept}

abbrev pub stage_log : Stage → List Action
stage_log (in_http log) = log
stage_log (in_loop k) = k.session.log

-- What the task has done when it waits, is over, or has panicked.
abbrev pub log_of : Step Stage → List Action
log_of (going stage) = stage_log stage
log_of (returned e log) = log
log_of (panicked log) = log
log_of (hung log) = log

abbrev pub is_terminal : Action → Bool
is_terminal (emit disconnected) = true
is_terminal (emit (error e)) = true
is_terminal _ = false

-- How often the app was told that the tunnel has ended.
abbrev pub terminal_events : List Action → ℕ
terminal_events log = length (retain is_terminal log)

terminal-ended : (e : Option ConnectError) → is_terminal (emit (ended e)) ≡ true
terminal-ended none = refl
terminal-ended (some e) = refl

abbrev pub TaskOk : Step Stage → Type 0
TaskOk (going stage) = terminal_events (stage_log stage) ≡ 0
TaskOk (returned e log) =
    (before : List Action) × (log ≡ emit (ended e) ∷ before) × (terminal_events before ≡ 0)
TaskOk (panicked log) = terminal_events log ≡ 0
TaskOk (hung log) = ⊥

module _ (c : Crypto) (username password : Str) where
  LogOk-quiet : (log : List Action) → LogOk c username password log → terminal_events log ≡ 0
  LogOk-quiet [] v = refl
  LogOk-quiet (a ∷ log) v = ground (arith, LogOk-quiet log v.1)

  -- What is allowed in the log of the task, its end included.
  abbrev pub Trusted : List Action → Type 0
  Trusted [] = Unit {0}
  Trusted (utun_write u ip_pkt ∷ older) =
      (IsOpen u older
        × ((keys : MppeKeys) × Authenticated c username password (history older) keys))
      × Trusted older
  Trusted (emit (connected name negotiated) ∷ older) =
      (IsReady name negotiated older
        × ((keys : MppeKeys) × Authenticated c username password (history older) keys))
      × Trusted older
  Trusted (_ ∷ older) = Trusted older

  LogOk-Trusted : (log : List Action) → LogOk c username password log → Trusted log
  LogOk-Trusted [] v = tt
  LogOk-Trusted (utun_write u ip_pkt ∷ older) (v, vs) = (v, LogOk-Trusted older vs)
  LogOk-Trusted (emit (connected name negotiated) ∷ older) (v, vs) = (v, LogOk-Trusted older vs)
  LogOk-Trusted (emit disconnected ∷ older) (v, vs) = absurd v
  LogOk-Trusted (emit (error e) ∷ older) (v, vs) = absurd v
  LogOk-Trusted (_ ∷ older) (v, vs) = LogOk-Trusted older vs

module _ (c : Crypto) (w : World) (username password : Str) where
  -- The end of `run_inner` is told by one event.
  told_end :
      (m : Step Stage)
      → Kept c username password (StageOk c w username password) m
      → TaskOk (tell_end m)
  unfolding tell_end
  told_end (going (in_http log)) v = LogOk-quiet c username password log v
  told_end (going (in_loop k)) v = LogOk-quiet c username password k.session.log v.log_ok
  told_end (returned e log) v = (log, refl, LogOk-quiet c username password log v)
  told_end (panicked log) v = LogOk-quiet c username password log v
  told_end (hung log) v = v

  told-Trusted :
      (m : Step Stage)
      → Kept c username password (StageOk c w username password) m
      → Trusted c username password (log_of (tell_end m))
  unfolding tell_end
  told-Trusted (going (in_http log)) v = LogOk-Trusted c username password log v
  told-Trusted (going (in_loop k)) v = LogOk-Trusted c username password k.session.log v.log_ok
  told-Trusted (returned none log) v = LogOk-Trusted c username password log v
  told-Trusted (returned (some e) log) v = LogOk-Trusted c username password log v
  told-Trusted (panicked log) v = LogOk-Trusted c username password log v
  told-Trusted (hung log) v = absurd v

-- Whatever the server sends, whatever else happens and whichever calls fail: while the task runs it
-- has told no end; when it is over, the last it did was to tell the one event for the way in which
-- `run_inner` returned, and it told no end before; when it panics it has told none at all; and its
-- inner loop over the packets always comes to an end.
pub run_ends_once :
    (c : Crypto) (w : World) (server username password : Str) (reads : List (Result Str Bytes))
    (wakes : List Wake)
    → TaskOk (run c w server username password reads wakes)
unfolding run
run_ends_once c w server username password reads wakes =
    told_end c w username password (run_inner c w server username password reads wakes)
      (run_inner-Kept c w username password server reads wakes)

-- Whatever the server sends, whatever else happens and whichever calls fail: when the app is told
-- that the tunnel is up, and when an IP packet is handed to a tunnel device, the server has
-- authenticated itself before. That is, among the packets given to the engine until then is a CHAP
-- Success message whose text verified against an answer of the engine, for this user name and
-- password, to a 16-byte challenge before it. When the app is told that the tunnel is up, what
-- was done just before is that a tunnel device of the name told was made, that `configure_ipv4` was
-- called for it with the local and the peer address that were negotiated, and that its reader was
-- started. An IP packet goes to the device whose reader was started last.
pub run-Trusted :
    (c : Crypto) (w : World) (server username password : Str) (reads : List (Result Str Bytes))
    (wakes : List Wake)
    → Trusted c username password (log_of (run c w server username password reads wakes))
unfolding run
run-Trusted c w server username password reads wakes =
    told-Trusted c w username password (run_inner c w server username password reads wakes)
      (run_inner-Kept c w username password server reads wakes)
