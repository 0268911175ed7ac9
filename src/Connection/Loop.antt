-- ===== src/Connection/Loop.antt =====
-- connection.rs: the loop and the whole task against what is allowed in its log (Connection.Log).
use mac_os_sstp_client.Prelude.{
  ◌≡◌, ◌≢◌, refl, List, [], ◌∷◌, Option, none, some, Result, ok, err, Bytes, leb, Bool-cases, inl,
  inr,
}
use mac_os_sstp_client.Prelude.Text.{Str}
use mac_os_sstp_client.Prelude.Crypto.{Crypto}
use mac_os_sstp_client.Packet.{Packet, encode_data}
use mac_os_sstp_client.Ppp as Ppp
use mac_os_sstp_client.Packet.Reader.{Ending, wants_more, failed, stuck, push, drain}
use mac_os_sstp_client.Packet.Reader.Drain.{drain-ne-stuck}
use mac_os_sstp_client.Engine.{build_echo_request}
use mac_os_sstp_client.Utun.{Utun}
use mac_os_sstp_client.Connection.State.{
  ProtocolError, World, Session, Connection, going, ◌>>>◌, Wake, disconnect_ready, tls_read,
  idle_tick, ip_packet, write_failed, keepalive_failed,
}
use mac_os_sstp_client.Connection.Events.{write_in}
use mac_os_sstp_client.Connection.Handlers.{
  on_read, on_tick, on_ip_packet, step, run_loop, handle_packet,
}
use mac_os_sstp_client.Connection.Log.{
  history, Kept, Kept-then, Kept-map, write_in-Kept, Holds, handle_packet-Kept,
}
use mac_os_sstp_client.Connection.Stream.{serve, serve_all, conclude, on_read-serve}

module _ (c : Crypto) (w : World) (username password : Str) where
  serve-Kept :
      (pkts : List Packet) (s : Session)
      → Holds c username password s
      → Kept c username password (Holds c username password) (serve c w pkts s)
  unfolding serve
  serve-Kept [] s v = v
  serve-Kept (pkt ∷ pkts) s v =
      Kept-then c username password (Holds c username password) (Holds c username password)
        (handle_packet c w pkt s) (serve c w pkts)
        (handle_packet-Kept c username password w pkt s v) (serve-Kept pkts)

  conclude-Kept :
      (how : Ending) (s : Session)
      → how ≢ stuck
      → Holds c username password s
      → Kept c username password (Holds c username password) (conclude how s)
  conclude-Kept wants_more s n v = v
  conclude-Kept (failed e) s n v = v.log_ok
  conclude-Kept stuck s n v = absurd (n refl)

  abbrev pub LoopOk : Connection → Type 0
  LoopOk k = Holds c username password k.session

  on_read-Kept :
      (k : Connection) (answer : Result Str Bytes)
      → LoopOk k
      → Kept c username password LoopOk (on_read c w k answer)
  unfolding on_read
  on_read-Kept k (err e) v = v.log_ok
  on_read-Kept k (ok []) v = v.log_ok
  on_read-Kept k (ok (b ∷ bs)) v =
      let d = drain (push k.reader (b ∷ bs)) in
      rw (on_read-serve c w k (b ∷ bs) refl) (
        Kept-then c username password (Holds c username password) LoopOk (serve_all c w d k.session)
          _
          (Kept-then c username password (Holds c username password) (Holds c username password)
            (serve c w d.packets k.session) (conclude d.ending) (serve-Kept d.packets k.session v)
            (λ s v'. conclude-Kept d.ending s (drain-ne-stuck _) v'))
          (λ s v'. v'))

  write-LoopOk :
      (failure : Str → ProtocolError) (bytes : Bytes) (k : Connection) (f : Session → Connection)
      → ((s : Session) → (f s).session ≡ s)
      → LoopOk k
      → Kept c username password LoopOk (write_in w failure bytes k.session >>> λ s. going (f s))
  write-LoopOk failure bytes k f h v =
      Kept-then c username password (Holds c username password) LoopOk
        (write_in w failure bytes k.session) _
        (Kept-map c username password (history k.session.log) (write_in w failure bytes k.session)
          (write_in-Kept c username password (history k.session.log) w failure bytes k.session v))
        (λ s v'. rw (h s) v')

  on_tick-Kept : (k : Connection) → LoopOk k → Kept c username password LoopOk (on_tick c w k)
  unfolding on_tick
  on_tick-Kept k v = elim (Bool-cases (leb 4 k.unanswered_echoes)) [
    | inl y ↦ rw y v.log_ok
    | inr n ↦ rw n (write-LoopOk keepalive_failed build_echo_request k _ (λ s. refl) v)
  ]

  on_ip_packet-Kept :
      (k : Connection) (u : Option Utun) (ip_pkt : Bytes)
      → LoopOk k
      → Kept c username password LoopOk (on_ip_packet c w k u ip_pkt)
  unfolding on_ip_packet
  on_ip_packet-Kept k none ip_pkt v = v
  on_ip_packet-Kept k (some u) ip_pkt v =
      write-LoopOk write_failed (encode_data (Ppp.encode Ppp.ip ip_pkt)) k _ (λ s. refl) v

  step-Kept :
      (k : Connection) (wake : Wake) → LoopOk k → Kept c username password LoopOk (step c w k wake)
  unfolding step
  step-Kept k disconnect_ready v = (tt, v.log_ok)
  step-Kept k (tls_read answer) v = on_read-Kept k answer v
  step-Kept k idle_tick v = on_tick-Kept k v
  step-Kept k (ip_packet ip_pkt) v = on_ip_packet-Kept k k.session.utun ip_pkt v

  pub run_loop-Kept :
      (k : Connection) (wakes : List Wake)
      → LoopOk k
      → Kept c username password LoopOk (run_loop c w k wakes)
  unfolding run_loop
  run_loop-Kept k [] v = v
  run_loop-Kept k (wake ∷ wakes) v =
      Kept-then c username password LoopOk LoopOk (step c w k wake) _ (step-Kept k wake v)
        (λ k'. run_loop-Kept k' wakes)
