-- ===== src/App/Polling.antt =====
-- main.rs: what the window shows after a poll of the status file.
use mac_os_sstp_client.Prelude.{
  ℕ, ◌≡◌, ◌⊎◌, ◌↔◌, inl, inr, refl, Option, none, Bool, true, false, not, ◌&&◌,
}
use mac_os_sstp_client.Ipc.{VpnStatusFile, PidT}
use mac_os_sstp_client.App.{
  VpnStatus, disconnected, connecting_status, connected, Window, worker_up, worker_gave_up, follow,
  after_follow, poll, attempt_if, is_disconnected, is_due,
}

-- An interface is only shown with a connection.
abbrev pub IsShown : Window → Type 0
IsShown x = (x.vpn_status ≡ connected) ⊎ (x.interface ≡ none)

module _ (kill : PidT → Option ℕ) where
  -- The state after a poll, for whether the worker is up.
  abbrev pub Follows : Bool → Window → Type 0
  Follows up x = IsShown x × ((x.vpn_status ≡ connected) ↔ (up ≡ true))

  follow-Follows :
      (up gave_up : Bool) (status : Option VpnStatusFile) (x : Window) (old : VpnStatus)
      → x.vpn_status ≡ old
      → IsShown x
      → Follows up (follow kill up gave_up status x old).0
  unfolding follow
  follow-Follows true gave_up status x connected q h = (inl q, ((λ e. refl), (λ e. q)))
  follow-Follows true gave_up status x connecting_status q h =
      (inl refl, ((λ e. refl), (λ e. refl)))
  follow-Follows true gave_up status x disconnected q h = (inl refl, ((λ e. refl), (λ e. refl)))
  follow-Follows false gave_up status x connected q h = (inr refl, ((λ e. cc), (λ e. cc)))
  follow-Follows false true status x connecting_status q (inl c) = cc
  follow-Follows false true status x connecting_status q (inr i) = (inr i, ((λ e. cc), (λ e. cc)))
  follow-Follows false false status x connecting_status q h = (h, ((λ e. cc), (λ e. cc)))
  follow-Follows false gave_up status x disconnected q h = (h, ((λ e. cc), (λ e. cc)))

  attempt-Follows :
      (now : ℕ) (up : Bool) (x : Window)
      → Follows up x
      → (b : Bool) → Follows up (attempt_if kill b now x).0
  attempt-Follows now up x h true = h
  attempt-Follows now up x h false = h

  after-Follows :
      (now : ℕ) (route_ok up : Bool) (r : Window × Bool)
      → Follows up r.0
      → Follows up (after_follow kill now route_ok (λ y. y) r).0
  after-Follows now route_ok up (x, true) h = h
  after-Follows now route_ok up (x, false) h =
      attempt-Follows now up x h
        (is_disconnected kill x.vpn_status && not route_ok && is_due kill now x.last_heal_attempt)

-- After a poll, with no change by the threads meanwhile, the window shows a connection exactly when the status file says that the worker is
-- connected and the worker's process is alive, whatever it showed before; and it keeps an interface
-- only with a connection.
pub poll-Follows :
    (kill : PidT → Option ℕ) (now : ℕ) (route_ok : Bool) (status : Option VpnStatusFile)
    (x : Window)
    → IsShown x
    → Follows kill (worker_up kill status) (poll kill now route_ok (λ y. y) status x).0
unfolding poll
poll-Follows kill now route_ok status x h =
    after-Follows kill now route_ok (worker_up kill status) _ (
      follow-Follows kill (worker_up kill status) (worker_gave_up kill status) status x x.vpn_status
        refl h)
