-- ===== src/Connection/Handle.antt =====
-- connection.rs: `connect`, and the `Handle` that its caller keeps, beside the task. The channel has
-- room for one request, and the handle sends at most one.
use mac_os_sstp_client.Prelude.{
  ◌≡◌, ◌≢◌, inl, inr, refl, ap, List, [], ◌∷◌, ◌++◌, map, append_assoc, Option, none, some, Result,
  Bytes, is_empty, Bool-cases,
}
use mathlib.Core.Path.{subst, sym}
use mac_os_sstp_client.Prelude.Text.{Str}
use mac_os_sstp_client.Prelude.Crypto.{Crypto}
use mac_os_sstp_client.Engine.{build_disconnect}
use mac_os_sstp_client.Connection.State.{
  Action, tls_write, emit, disconnected, World, Connection, Step, going, returned, panicked, hung,
  ◌>>>◌, Wake, disconnect_ready, http_completed, tcp_connected, tls_completed, tcp, tls,
  tcp_connect, tls_connect, http_request_unsent, tls_read, Stage, in_loop,
}
use mac_os_sstp_client.Connection.Events.{write_all}
use mac_os_sstp_client.Http.{build_request}
use mac_os_sstp_client.Connection.Handlers.{
  step, run_loop, begin, http_loop, after_http, no_error, certificate, told, tell_end, run_inner,
  run, host_of,
}

-- Where the caller of `connect` is: it has the handle, waits in `disconnect`, has come back from it,
-- or has dropped the handle.
pub data Caller : Type 0 where
  holding waiting back dropped : Caller

-- With what the task has woken up with in its loop, first to last.
pub record Link : Type 0 where
  pub caller : Caller
  pub wakes : List Wake

abbrev pub connect : Link
connect = record { caller = holding; wakes = [] }

-- `disconnect_rx.recv()` is ready when the request is there or the sender is gone, and `select!` is
-- biased: it looks there first.
abbrev pub IsReady : Caller → Wake → Type 0
IsReady holding x = x ≢ disconnect_ready
IsReady _ x = x ≡ disconnect_ready

abbrev pub IsOver : Step Stage → Type 0
IsOver (going stage) = ⊥
IsOver _ = Unit {0}

module _ (c : Crypto) (w : World) (server username password : Str)
    (reads : List (Result Str Bytes)) where
  abbrev pub task : Link → Step Stage
  task l = run c w server username password reads l.wakes

  -- The steps of the two sides. `disconnect` sends its request at once, and comes back when the
  -- task is over.
  pub data Move : Link → Link → Type 0 where
    wake :
        {l : Link} (k : Connection) (x : Wake)
        → task l ≡ going (in_loop k)
        → IsReady l.caller x
        → Move l (record l { wakes = l.wakes ++ (x ∷ []) })
    call_disconnect : {l : Link} → l.caller ≡ holding → Move l (record l { caller = waiting })
    come_back :
        {l : Link} → l.caller ≡ waiting → IsOver (task l) → Move l (record l { caller = back })
    drop_handle : {l : Link} → l.caller ≡ holding → Move l (record l { caller = dropped })

  pub data Reach : Link → Type 0 where
    connected : Reach connect
    next : {l l' : Link} → Reach l → Move l l' → Reach l'

-- `m` is in the loop, and so `m'` is the same task once it has seen a request.
abbrev EndsAt : Step Stage → Step Stage → Type 0
EndsAt m m' =
    (k : Connection)
    → m ≡ going (in_loop k)
    → m' ≡ returned none (tls_write build_disconnect ∷ k.session.log)

EndsAt-then {ℓ} :
    {S : Type ℓ} (m : Step S) (f g : S → Step Stage)
    → ((s : S) → EndsAt (f s) (g s))
    → EndsAt (m >>> f) (m >>> g)
EndsAt-then (going s) f g h = h s
EndsAt-then (returned e log) f g h = λ k q. cc
EndsAt-then (panicked log) f g h = λ k q. cc
EndsAt-then (hung log) f g h = λ k q. cc

EndsAt-assoc {ℓ κ} :
    {S : Type ℓ} {T : Type κ} (m : Step S) (f g : S → Step T) (r : T → Step Stage)
    → ((s : S) → EndsAt (f s >>> r) (g s >>> r))
    → EndsAt ((m >>> f) >>> r) ((m >>> g) >>> r)
EndsAt-assoc (going s) f g r h = h s
EndsAt-assoc (returned e log) f g r h = λ k q. cc
EndsAt-assoc (panicked log) f g r h = λ k q. cc
EndsAt-assoc (hung log) f g r h = λ k q. cc

module _ (c : Crypto) (w : World) where
  loop-EndsAt :
      (k₀ : Connection) (ws : List Wake)
      → EndsAt
          (run_loop c w k₀ ws >>> λ k. going (in_loop k))
          (run_loop c w k₀ (ws ++ (disconnect_ready ∷ [])) >>> λ k. going (in_loop k))
  unfolding run_loop step
  loop-EndsAt k₀ [] = λ k q. cc
  loop-EndsAt k₀ (x ∷ ws) =
      EndsAt-assoc (step c w k₀ x) _ _ (λ k. going (in_loop k)) (λ k. loop-EndsAt k ws)

  after_http-EndsAt :
      (username password : Str) (cert : Bytes) (wakes : List Wake) (log : List Action)
      (switched : Option (Bytes × List (Result Str Bytes)))
      → EndsAt
          (after_http c w username password cert wakes log switched)
          (after_http c w username password cert (wakes ++ (disconnect_ready ∷ [])) log switched)
  unfolding after_http
  after_http-EndsAt username password cert wakes log none = λ k q. cc
  after_http-EndsAt username password cert wakes log (some (body, reads)) =
      EndsAt-then (begin c w username password cert body (told http_completed log)) _ _ (λ k₀.
        rw (← append_assoc (map tls_read reads) wakes (disconnect_ready ∷ []))
          (loop-EndsAt k₀ (map tls_read reads ++ wakes)))

  run_inner-EndsAt :
      (server username password : Str) (reads : List (Result Str Bytes)) (wakes : List Wake)
      → EndsAt
          (run_inner c w server username password reads wakes)
          (run_inner c w server username password reads (wakes ++ (disconnect_ready ∷ [])))
  unfolding run_inner
  run_inner-EndsAt server username password reads wakes =
      let host = host_of server in
      let log₁ = tcp_connect server ∷ [] in
      elim (Bool-cases (is_empty host)) [
        | inl y ↦ rw y (λ k q. cc)
        | inr n ↦ rw n (
            EndsAt-then
              (no_error (tcp server) (w.tcp_connects server) log₁
                (told (tcp_connected server) log₁))
              _ _
              (λ log₂.
                EndsAt-then (no_error tls w.client_config log₂ (tls_connect host ∷ log₂)) _ _
                  (λ log₃.
                    EndsAt-then (no_error tls (w.tls_connects host) log₃ (told tls_completed log₃))
                      _ _
                      (λ log₄. EndsAt-then (certificate w.peer_certificate log₄) _ _ (λ cert.
                        EndsAt-then
                          (write_all w http_request_unsent (build_request server w.correlation_id)
                            log₄)
                          _ _
                          (λ log₅.
                            EndsAt-then (http_loop [] log₅ reads) _ _
                              (after_http-EndsAt username password cert wakes log₅)))))))
      ]

tell_end-EndsAt :
    (m m' : Step Stage) (k : Connection)
    → EndsAt m m'
    → tell_end m ≡ going (in_loop k)
    → tell_end m' ≡ returned none (emit disconnected ∷ tls_write build_disconnect ∷ k.session.log)
unfolding tell_end
tell_end-EndsAt (going stage) m' k h q = rw (h k q) refl
tell_end-EndsAt (returned e log) m' k h q = cc
tell_end-EndsAt (panicked log) m' k h q = cc
tell_end-EndsAt (hung log) m' k h q = cc

going-not-IsOver : (m : Step Stage) (k : Connection) → m ≡ going (in_loop k) → IsOver m → ⊥
going-not-IsOver (going stage) k q o = o
going-not-IsOver (returned e log) k q o = cc
going-not-IsOver (panicked log) k q o = cc
going-not-IsOver (hung log) k q o = cc

module _ (c : Crypto) (w : World) (server username password : Str)
    (reads : List (Result Str Bytes)) where
  -- `disconnect` only comes back when the task is over.
  pub back-IsOver :
      {l : Link}
      → Reach c w server username password reads l
      → l.caller ≡ back
      → IsOver (task c w server username password reads l)
  back-IsOver connected q = cc
  back-IsOver (next r (wake k x going_on ready)) q =
      absurd (going-not-IsOver _ k going_on (back-IsOver r q))
  back-IsOver (next r (call_disconnect h)) q = cc
  back-IsOver (next r (come_back h over)) q = over
  back-IsOver (next r (drop_handle h)) q = cc

  only_wake :
      {l l' : Link} (k : Connection)
      → l.caller ≡ waiting
      → task c w server username password reads l ≡ going (in_loop k)
      → Move c w server username password reads l l'
      → l' ≡ record l { wakes = l.wakes ++ (disconnect_ready ∷ []) }
  only_wake k q on (wake {l} k' x going_on ready) =
      ap (λ y. record l { wakes = l.wakes ++ (y ∷ []) }) (rw q at ready)
  only_wake k q on (call_disconnect h) = cc
  only_wake k q on (come_back h over) = absurd (going-not-IsOver _ k on over)
  only_wake k q on (drop_handle h) = cc

-- While the task is in its loop and `disconnect` has been called, the only thing that can happen is
-- that the task sees the request; and then it has sent DISCONNECT, told that it is disconnected and
-- returned without an error, so that `disconnect` can come back.
pub disconnect_takes_effect :
    (c : Crypto) (w : World) (server username password : Str) (reads : List (Result Str Bytes))
    (l : Link) (k : Connection)
    → l.caller ≡ waiting
    → task c w server username password reads l ≡ going (in_loop k)
    → let seen = record l { wakes = l.wakes ++ (disconnect_ready ∷ []) } in
      ((l' : Link) → Move c w server username password reads l l' → l' ≡ seen)
      × Move c w server username password reads l seen
      × (task c w server username password reads seen
          ≡ returned none (emit disconnected ∷ tls_write build_disconnect ∷ k.session.log))
      × Move c w server username password reads seen (record seen { caller = back })
unfolding run
disconnect_takes_effect c w server username password reads l k q on =
    let over =
      tell_end-EndsAt _ _ k (run_inner-EndsAt c w server username password reads l.wakes) on in
    (
      λ l' move. only_wake c w server username password reads k q on move,
      wake k disconnect_ready on (subst (λ a. IsReady a disconnect_ready) (sym q) refl),
      over,
      come_back q (subst IsOver (sym over) tt),
    )
