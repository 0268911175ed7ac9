-- ===== src/Worker/Polls.antt =====
-- worker.rs: the polls for a request to disconnect, once one was seen.
use mac_os_sstp_client.Prelude.{
  ℕ, ◌≡◌, refl, List, [], ◌∷◌, Option, none, some, true, not, if-both, ap,
}
use mac_os_sstp_client.Prelude.Text.{Str}
use mac_os_sstp_client.Connection.{progress, connected, disconnected, error}
use mac_os_sstp_client.Worker.{
  going, ◌>>>◌, on_poll, Worker, Wake, received, poll, on_received, on_connected, finish, step,
  async_loop,
}

-- The wakes without the polls.
abbrev pub unpolled : List Wake → List Wake
unpolled [] = []
unpolled (received event ∷ wakes) = received event ∷ unpolled wakes
unpolled (poll requested ∷ wakes) = unpolled wakes

-- Once a request was seen, what a poll finds and whether there is one makes no difference.
pub polls_no_more :
    (server_ip : Str) (pid : ℕ) (gateway : Option Str) (wakes : List Wake) (k : Worker)
    → k.disconnect_sent ≡ true
    → async_loop server_ip pid gateway k wakes ≡ async_loop server_ip pid gateway k (unpolled wakes)
unfolding async_loop step on_received on_connected finish
polls_no_more server_ip pid gateway [] k sent = refl
polls_no_more server_ip pid gateway (received none ∷ wakes) k sent = refl
polls_no_more server_ip pid gateway (received (some (progress msg)) ∷ wakes) k sent =
    polls_no_more server_ip pid gateway wakes _ sent
polls_no_more server_ip pid none (received (some (connected i n)) ∷ wakes) k sent =
    polls_no_more server_ip pid none wakes _ sent
polls_no_more server_ip pid (some gw) (received (some (connected i n)) ∷ wakes) k sent =
    polls_no_more server_ip pid (some gw) wakes _ sent
polls_no_more server_ip pid gateway (received (some disconnected) ∷ wakes) k sent = refl
polls_no_more server_ip pid gateway (received (some (error e)) ∷ wakes) k sent = refl
polls_no_more server_ip pid gateway (poll requested ∷ wakes) k sent =
    if-both
      (λ s.
        (s >>> λ k'. async_loop server_ip pid gateway k' wakes)
        ≡ async_loop server_ip pid gateway k (unpolled wakes))
      (not k.disconnect_sent) (going (on_poll server_ip pid k requested)) (going k)
      (λ fresh. cc (ap not sent, fresh)) (λ b. polls_no_more server_ip pid gateway wakes k sent)
