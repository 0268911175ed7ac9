-- ===== src/Connection/Keepalive.antt =====
-- connection.rs: the keepalive of the loop.
use mac_os_sstp_client.Prelude.{
  ℕ, suc, ◌+◌, ◌≤◌, ◌≡◌, ◌⊎◌, inl, inr, refl, List, [], ◌∷◌, Option, none, some, Result, ok, err,
  Bytes, leb, Bool-cases, Option-cases, arith,
}
use mac_os_sstp_client.Prelude.Text.{Str}
use mac_os_sstp_client.Prelude.Crypto.{Crypto}
use mac_os_sstp_client.Engine.{build_echo_request}
use mac_os_sstp_client.Utun.{Utun}
use mac_os_sstp_client.Connection.State.{
  Action, ProtocolError, World, Session, Connection, Step, going, returned, panicked, hung, ◌>>>◌,
  Wake, disconnect_ready, tls_read, idle_tick, ip_packet, tls_write, write_failed, keepalive_failed,
}
use mac_os_sstp_client.Connection.Events.{write_all, write_in, with_log}
use mac_os_sstp_client.Connection.Handlers.{on_read, on_tick, on_ip_packet, step, run_loop}

abbrev pub ticks : List Wake → ℕ
ticks [] = 0
ticks (idle_tick ∷ wakes) = suc (ticks wakes)
ticks (_ ∷ wakes) = ticks wakes

abbrev pub IsSilent : List Wake → Type 0
IsSilent [] = Unit {0}
IsSilent (tls_read answer ∷ wakes) = ⊥
IsSilent (_ ∷ wakes) = IsSilent wakes

abbrev pub IsReturn {ℓ} : {S : Type ℓ} → Step S → Type 0
IsReturn (returned e log) = Unit {0}
IsReturn _ = ⊥

-- What holds of the connection if the code goes on.
abbrev pub Goes {ℓ} : {S : Type ℓ} → (S → Type 0) → Step S → Type 0
Goes P (going s) = P s
Goes P _ = Unit {0}

Goes-then {ℓ κ} :
    {S : Type ℓ} {T : Type κ} (P : S → Type 0) (Q : T → Type 0) (m : Step S) (f : S → Step T)
    → Goes P m
    → ((s : S) → P s → Goes Q (f s))
    → Goes Q (m >>> f)
Goes-then P Q (going s) f h k = k s h
Goes-then P Q (returned e log) f h k = tt
Goes-then P Q (panicked log) f h k = tt
Goes-then P Q (hung log) f h k = tt

Goes-any {ℓ κ} :
    {S : Type ℓ} {T : Type κ} (Q : T → Type 0) (m : Step S) (f : S → T)
    → ((s : S) → Q (f s))
    → Goes Q (m >>> λ s. going (f s))
Goes-any Q (going s) f h = h s
Goes-any Q (returned e log) f h = tt
Goes-any Q (panicked log) f h = tt
Goes-any Q (hung log) f h = tt

module _ (c : Crypto) (w : World) where
  abbrev pub IsBounded : Connection → Type 0
  IsBounded k = k.unanswered_echoes ≤ 4

  on_read-IsBounded :
      (k : Connection) (answer : Result Str Bytes) → Goes IsBounded (on_read c w k answer)
  unfolding on_read
  on_read-IsBounded k (err e) = tt
  on_read-IsBounded k (ok []) = tt
  on_read-IsBounded k (ok (b ∷ bs)) = Goes-any IsBounded _ _ (λ s. omega arith)

  on_tick-IsBounded : (k : Connection) → Goes IsBounded (on_tick c w k)
  unfolding on_tick
  on_tick-IsBounded k = elim (Bool-cases (leb 4 k.unanswered_echoes)) [
    | inl y ↦ rw y tt
    | inr n ↦ rw n (Goes-any IsBounded _ _ (λ s. ground (arith, n)))
  ]

  on_ip_packet-IsBounded :
      (k : Connection) (u : Option Utun) (ip_pkt : Bytes)
      → IsBounded k
      → Goes IsBounded (on_ip_packet c w k u ip_pkt)
  unfolding on_ip_packet
  on_ip_packet-IsBounded k none ip_pkt h = h
  on_ip_packet-IsBounded k (some u) ip_pkt h = Goes-any IsBounded _ _ (λ s. h)

  step-IsBounded : (k : Connection) (wake : Wake) → IsBounded k → Goes IsBounded (step c w k wake)
  unfolding step
  step-IsBounded k disconnect_ready h = tt
  step-IsBounded k (tls_read answer) h = on_read-IsBounded k answer
  step-IsBounded k idle_tick h = on_tick-IsBounded k
  step-IsBounded k (ip_packet ip_pkt) h = on_ip_packet-IsBounded k k.session.utun ip_pkt h

-- At most four keepalive echoes are unanswered, through any sequence of reads, ticks and IP
-- packets, if it was so at its start.
pub run_loop-IsBounded :
    (c : Crypto) (w : World) (k : Connection) (wakes : List Wake)
    → IsBounded c w k
    → Goes (IsBounded c w) (run_loop c w k wakes)
unfolding run_loop
run_loop-IsBounded c w k [] h = h
run_loop-IsBounded c w k (wake ∷ wakes) h =
    Goes-then (IsBounded c w) (IsBounded c w) (step c w k wake) _ (step-IsBounded c w k wake h)
      (λ k' h'. run_loop-IsBounded c w k' wakes h')

write_all-cases :
    (w : World) (failure : Str → ProtocolError) (bytes : Bytes) (log : List Action)
    → IsReturn (write_all w failure bytes log)
      ⊎ (write_all w failure bytes log ≡ going (tls_write bytes ∷ log))
unfolding write_all
write_all-cases w failure bytes log = elim (Option-cases (w.writes (tls_write bytes ∷ log))) [
  | inl q ↦ inr (rw (q, write_all))
  | inr (e, q) ↦ inl (rw (q, write_all) tt)
]

IsReturn-then {ℓ κ} :
    {S : Type ℓ} {T : Type κ} (m : Step S) (f : S → Step T) → IsReturn m → IsReturn (m >>> f)
IsReturn-then (returned e log) f r = tt
IsReturn-then (going s) f r = absurd r
IsReturn-then (panicked log) f r = absurd r
IsReturn-then (hung log) f r = absurd r

-- A write that fails returns; one that does not goes on with the write in the log.
write_in-IsReturn :
    (w : World) (failure : Str → ProtocolError) (bytes : Bytes) (s : Session)
    (f : Session → Connection) (next : Connection → Step Connection)
    → IsReturn (next (f (with_log s (tls_write bytes ∷ s.log))))
    → IsReturn ((write_in w failure bytes s >>> λ s'. going (f s')) >>> next)
write_in-IsReturn w failure bytes s f next r = elim (write_all-cases w failure bytes s.log) [
  | inl ends ↦ IsReturn-then (write_in w failure bytes s >>> λ s'. going (f s')) next (
      IsReturn-then (write_in w failure bytes s) _
        (IsReturn-then (write_all w failure bytes s.log) _ ends))
  | inr goes ↦ rw goes r
]

-- An IP packet leaves the count of echoes, or the write of it fails and returns.
on_ip_packet-IsReturn :
    (c : Crypto) (w : World) (k : Connection) (u : Option Utun) (ip_pkt : Bytes)
    (next : Connection → Step Connection)
    → ((k' : Connection) → k'.unanswered_echoes ≡ k.unanswered_echoes → IsReturn (next k'))
    → IsReturn (on_ip_packet c w k u ip_pkt >>> next)
unfolding on_ip_packet
on_ip_packet-IsReturn c w k none ip_pkt next r = r k refl
on_ip_packet-IsReturn c w k (some u) ip_pkt next r =
    write_in-IsReturn w write_failed _ k.session _ next (r _ refl)

-- While nothing is read off the TLS stream, the fifth tick since the last read at the latest ends the
-- task, with any requests to disconnect and IP packets among the ticks, and whether or not the
-- writes succeed: it returns, and does not go on, panic or hang.
pub silence_returns :
    (c : Crypto) (w : World) (k : Connection) (wakes : List Wake)
    → IsSilent wakes
    → k.unanswered_echoes ≤ 4
    → 5 ≤ k.unanswered_echoes + ticks wakes
    → IsReturn (run_loop c w k wakes)
unfolding run_loop step on_tick on_ip_packet
silence_returns c w k [] q b h = absurd (omega arith)
silence_returns c w k (disconnect_ready ∷ wakes) q b h = tt
silence_returns c w k (tls_read answer ∷ wakes) q b h = absurd q
silence_returns c w k (idle_tick ∷ wakes) q b h = elim (Bool-cases (leb 4 k.unanswered_echoes)) [
  | inl y ↦ rw y tt
  | inr n ↦ rw n (
      write_in-IsReturn w keepalive_failed build_echo_request k.session _
        (λ k'. run_loop c w k' wakes)
        (silence_returns c w _ wakes q (ground (arith, n)) (omega arith)))
]
silence_returns c w k (ip_packet ip_pkt ∷ wakes) q b h =
    on_ip_packet-IsReturn c w k k.session.utun ip_pkt _
      (λ k' e. silence_returns c w k' wakes q (omega (arith, e)) (omega (arith, e)))
