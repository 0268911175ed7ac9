-- ===== src/App/Frame/Quiet.antt =====
-- main.rs: when a frame heals the route, and the time that it shows.
use mac_os_sstp_client.Prelude.{
  ℕ, ◌-◌, ◌≡◌, ◌≢◌, ◌↔◌, ◌⊎◌, inl, inr, refl, List, [], ◌∷◌, ◌++◌, Option, none, some, Bool, true,
  false, ltb, Bool-cases,
}
use mac_os_sstp_client.Ipc.{PidT}
use mac_os_sstp_client.I18n.{Strings}
use mac_os_sstp_client.App.{Editor, Window, VpnStatus, disconnected, connecting_status, connected}
use mac_os_sstp_client.App.Frame.{
  Command, heal_route_if_broken, MenuEvent, connect_item, disconnect_item, show_item, quit_item,
  other_item, handle_tray_events, Life, Arrival, on_close, heal_if, track, at_poll, poll_if_due,
  after_events, logic,
}

-- The calls of `heal_route_if_broken`.
abbrev pub heals : List Command → List Bool
heals [] = []
heals (heal_route_if_broken notify ∷ commands) = notify ∷ heals commands
heals (_ ∷ commands) = heals commands

events-heals :
    (e : Editor) (events : List MenuEvent) (state : Window × Bool)
    → heals (handle_tray_events e events state).commands ≡ []
unfolding handle_tray_events
events-heals e [] state = refl
events-heals e (connect_item ∷ events) state = events-heals e events _
events-heals e (disconnect_item ∷ events) state = events-heals e events _
events-heals e (show_item ∷ events) state = events-heals e events state
events-heals e (quit_item ∷ events) state = refl
events-heals e (other_item ∷ events) state = events-heals e events state

heals-append : (xs ys : List Command) → heals xs ≡ [] → heals (xs ++ ys) ≡ heals ys
heals-append [] ys h = refl
heals-append (heal_route_if_broken notify ∷ xs) ys h = cc
heals-append (_ ∷ xs) ys h = heals-append xs ys h

close-heals : (b : Bool) → heals (on_close b) ≡ []
close-heals true = refl
close-heals false = refl

-- A frame that goes on shows a time exactly with a connection.
abbrev pub IsTimed : Option Life → Type 0
IsTimed none = Unit {0}
IsTimed (some s) = (s.connected_since ≡ none) ↔ (s.window.vpn_status ≢ connected)

track-none :
    (now : ℕ) (status : VpnStatus) (since : Option ℕ)
    → (track now status since ≡ none) ↔ (status ≢ connected)
unfolding track
track-none now connected none = ((λ q. cc), (λ n. absurd (n refl)))
track-none now connected (some t) = ((λ q. cc), (λ n. absurd (n refl)))
track-none now disconnected since = ((λ q r. cc), (λ n. refl))
track-none now connecting_status since = ((λ q r. cc), (λ n. refl))

-- A poll is due, and nothing is busy when it looks.
abbrev pub IsFree : Arrival → Life → Window × Bool → Type 0
IsFree a s (x, busy) = (ltb 3000000000 (a.now - s.last_poll) ≡ true) × (busy ≡ false)

abbrev pub HealsFree : Arrival → Life → Window × Bool → List Bool → Type 0
HealsFree a s state hs = (hs ≡ []) ⊎ ((hs ≡ true ∷ []) × IsFree a s state)

module _ (kill : PidT → Option ℕ) (t : Strings) where
  heal_if-HealsFree :
      (a : Arrival) (s : Life) (state : Window × Bool)
      → (heal : Bool) → (heal ≡ true → IsFree a s state)
      → HealsFree a s state (heals (heal_if heal))
  heal_if-HealsFree a s state true h = inr (refl, h refl)
  heal_if-HealsFree a s state false h = inl refl

  poll-IsFree :
      (a : Arrival) (s : Life) (state : Window × Bool)
      → (poll_if_due kill t a s.last_poll state).1 ≡ true
      → IsFree a s state
  unfolding poll_if_due
  poll-IsFree a s (x, busy) h = elim (Bool-cases (ltb 3000000000 (a.now - s.last_poll))) [
    | inl y ↦ elim (Bool-cases busy) [ inl b ↦ cc (rw (y, b) at h) | inr b ↦ (y, b) ]
    | inr n ↦ cc (rw n at h)
  ]

-- Whatever the threads of the operations do while a frame runs, and whatever is chosen in the menu of
-- the tray, the frame calls `heal_route_if_broken` at most once, and only if a poll is due and no
-- operation is busy at the moment when the poll looks. And if the frame does not quit, it leaves a
-- time of the connection exactly if the status is Connected when it looks last.
pub frame-HealsFree :
    (kill : PidT → Option ℕ) (t : Strings) (a : Arrival) (e : Editor) (s : Life)
    → let handled = handle_tray_events e a.events (s.window, s.busy) in
      HealsFree a s (at_poll kill t a (handled.window, handled.busy)) (heals (logic kill t a e s).1)
      × IsTimed (logic kill t a e s).0
unfolding logic after_events
frame-HealsFree kill t a e s =
    let handled = handle_tray_events e a.events (s.window, s.busy) in
    let state = at_poll kill t a (handled.window, handled.busy) in
    let quiet = events-heals e a.events (s.window, s.busy) in
    let polled = poll_if_due kill t a s.last_poll state in
    elim (Bool-cases handled.exited) [
      | inl y ↦ rw y ((inl quiet, tt))
      | inr n ↦
          rw
            (
              n,
              heals-append handled.commands (on_close a.close_requested ++ heal_if polled.1) quiet,
              heals-append (on_close a.close_requested) (heal_if polled.1)
                  (close-heals a.close_requested),
            )
            (
              heal_if-HealsFree kill t a s state polled.1 (poll-IsFree kill t a s state),
              track-none a.now _ s.connected_since,
            )
    ]
