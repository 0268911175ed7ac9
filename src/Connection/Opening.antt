-- ===== src/Connection/Opening.antt =====
-- connection.rs: what comes before the loop, up to the whole of `run_inner`, against what is allowed in
-- the log of the task (Connection.Log).
use mac_os_sstp_client.Prelude.{
  ℕ, ◌≡◌, refl, List, [], ◌∷◌, ◌++◌, map, Option, none, some, Result, ok, err, Bytes, is_empty,
  Bool-cases, inl, inr, Option-cases,
}
use mac_os_sstp_client.Prelude.Text.{Str}
use mac_os_sstp_client.Prelude.Crypto.{Crypto}
use mac_os_sstp_client.Http.{
  ParseError, incomplete, bad_status_line, non_success_status, parse_response,
}
use mac_os_sstp_client.Engine.{start}
use mac_os_sstp_client.Engine.Handshake.{new-IsValid}
use mac_os_sstp_client.Connection.State.{
  ProtocolError, ConnectError, Action, tls_write, World, Step, ◌>>>◌, Wake, tls_read, Stage,
  in_http, in_loop, connect_req_unsent, http_completed,
}
use mac_os_sstp_client.Connection.Events.{write_all}
use mac_os_sstp_client.Connection.Handlers.{
  run_loop, begin, on_answer, Switched, http_loop, after_http, no_error, certificate, told,
  run_inner, host_of,
}
use mac_os_sstp_client.Connection.Log.{history, LogOk, Kept, Kept-then, Holds-past}
use mac_os_sstp_client.Connection.State.{http_request_unsent, tcp, tls}
use mac_os_sstp_client.Connection.Loop.{LoopOk, run_loop-Kept}

module _ (c : Crypto) (w : World) (username password : Str) where
  -- Before there is an engine.
  abbrev EarlyOk : List Action → Type 0
  EarlyOk log = LogOk c username password log × (history log ≡ [])

  write_all-Kept :
      (failure : Str → ProtocolError) (bytes : Bytes) (log : List Action)
      → EarlyOk log
      → Kept c username password EarlyOk (write_all w failure bytes log)
  unfolding write_all
  write_all-Kept failure bytes log (l, h) = elim (Option-cases (w.writes (tls_write bytes ∷ log))) [
    | inl q ↦ rw (q, write_all) ((tt, l), h)
    | inr (e, q) ↦ rw (q, write_all) (tt, l)
  ]

  no_error-Kept :
      (failure : Str → ConnectError) (e : Option Str) (log log' : List Action)
      → EarlyOk log
      → EarlyOk log'
      → Kept c username password EarlyOk (no_error failure e log log')
  no_error-Kept failure none log log' v v' = v'
  no_error-Kept failure (some e) log log' v v' = v.0

  certificate-Kept :
      (cert : Result Str (Option (Result Str Bytes))) (log : List Action)
      → EarlyOk log
      → Kept c username password (λ der. EarlyOk log) (certificate cert log)
  unfolding certificate
  certificate-Kept (err e) log v = v.0
  certificate-Kept (ok none) log v = v.0
  certificate-Kept (ok (some (err e))) log v = v.0
  certificate-Kept (ok (some (ok der))) log v = v

  on_answer-Kept :
      (buf : Bytes) (log : List Action) (reads : List (Result Str Bytes)) (later : Step Switched)
      (answer : Result ParseError (ℕ × ℕ))
      → EarlyOk log
      → Kept c username password (λ switched. EarlyOk log) later
      → Kept c username password (λ switched. EarlyOk log) (on_answer buf log reads later answer)
  unfolding on_answer
  on_answer-Kept buf log reads later (ok a) v l = v
  on_answer-Kept buf log reads later (err incomplete) v l = l
  on_answer-Kept buf log reads later (err (bad_status_line line)) v l = v.0
  on_answer-Kept buf log reads later (err (non_success_status code)) v l = v.0

  http_loop-Kept :
      (buf : Bytes) (log : List Action) (reads : List (Result Str Bytes))
      → EarlyOk log
      → Kept c username password (λ switched. EarlyOk log) (http_loop buf log reads)
  unfolding http_loop
  http_loop-Kept buf log [] v = v
  http_loop-Kept buf log (err e ∷ reads) v = v.0
  http_loop-Kept buf log (ok [] ∷ reads) v = v.0
  http_loop-Kept buf log (ok (b ∷ bs) ∷ reads) v =
      on_answer-Kept (buf ++ (b ∷ bs)) log reads _ (parse_response (buf ++ (b ∷ bs))) v
        (http_loop-Kept (buf ++ (b ∷ bs)) log reads v)

  begin-Kept :
      (cert body : Bytes) (log : List Action)
      → EarlyOk log
      → Kept c username password
          (LoopOk c w username password)
          (begin c w username password cert body log)
  unfolding begin
  begin-Kept cert body log v =
      Kept-then c username password EarlyOk (LoopOk c w username password)
        (write_all w connect_req_unsent start log) _ (write_all-Kept connect_req_unsent start log v)
        (λ log' (l, h). Holds-past c username password [] _ (record {
          past = h;
          engine_ok = new-IsValid c w.magic username password cert;
          device_ok = tt;
          trust_ok = tt;
          log_ok = (tt, l);
        }))

  abbrev pub StageOk : Stage → Type 0
  StageOk (in_http log) = LogOk c username password log
  StageOk (in_loop k) = LoopOk c w username password k

  after_http-Kept :
      (cert : Bytes) (wakes : List Wake) (log : List Action)
      (switched : Option (Bytes × List (Result Str Bytes)))
      → EarlyOk log
      → Kept c username password StageOk (after_http c w username password cert wakes log switched)
  unfolding after_http
  after_http-Kept cert wakes log none v = v.0
  after_http-Kept cert wakes log (some (body, reads)) (l, h) =
      Kept-then c username password (LoopOk c w username password) StageOk
        (begin c w username password cert body (told http_completed log)) _
        (begin-Kept cert body (told http_completed log) ((tt, l), h))
        (λ k v.
          Kept-then c username password (LoopOk c w username password) StageOk
            (run_loop c w k (map tls_read reads ++ wakes)) _
            (run_loop-Kept c w username password k (map tls_read reads ++ wakes) v) (λ k' v'. v'))

  early_then :
      (m : Step (List Action)) (f : List Action → Step Stage)
      → Kept c username password EarlyOk m
      → ((log : List Action) → EarlyOk log → Kept c username password StageOk (f log))
      → Kept c username password StageOk (m >>> f)
  early_then = Kept-then c username password EarlyOk StageOk

  pub run_inner-Kept :
      (server : Str) (reads : List (Result Str Bytes)) (wakes : List Wake)
      → Kept c username password StageOk (run_inner c w server username password reads wakes)
  unfolding run_inner
  run_inner-Kept server reads wakes = elim (Bool-cases (is_empty (host_of server))) [
    | inl y ↦ rw y tt
    | inr n ↦ rw n (
        early_then _ _
          (no_error-Kept (tcp server) (w.tcp_connects server) _ _ ((tt, tt), refl)
            ((tt, (tt, tt)), refl))
          λ l₂ v₂.
            early_then _ _ (no_error-Kept tls w.client_config l₂ _ v₂ ((tt, v₂.0), v₂.1)) λ l₃ v₃.
              early_then _ _
                (no_error-Kept tls (w.tls_connects (host_of server)) l₃ _ v₃ ((tt, v₃.0), v₃.1))
                λ l₄ v₄.
                  Kept-then c username password (λ der. EarlyOk l₄) StageOk
                    (certificate w.peer_certificate l₄) _
                    (certificate-Kept w.peer_certificate l₄ v₄)
                    λ der v. early_then _ _ (write_all-Kept http_request_unsent _ l₄ v₄) λ l₅ v₅.
                      Kept-then c username password (λ switched. EarlyOk l₅) StageOk
                        (http_loop [] l₅ reads) _ (http_loop-Kept [] l₅ reads v₅)
                        λ switched v₆. after_http-Kept der wakes l₅ switched v₆)
  ]
