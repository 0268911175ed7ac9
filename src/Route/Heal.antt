-- ===== src/Route/Heal.antt =====
-- route.rs: what `heal_route_if_broken` does until the route is back, or until it gives up.
use mac_os_sstp_client.Prelude.{
  ℕ, zero, suc, ◌+◌, ◌-◌, ◌≤◌, ◌≡◌, ◌⊎◌, inl, inr, refl, ap, ◌∙◌, arith, List, [], ◌∷◌, ◌++◌, some,
  Bool, true, false, Bool-cases, Option-cases, drop, length, if◌then◌else◌, append_assoc,
}
use mac_os_sstp_client.Prelude.Text.{Str}
use mac_os_sstp_client.Elevate.{shell_quote, elevated_script, do_shell_script}
use mac_os_sstp_client.Elevate.Quoting.{
  sh_word, outside, script_literal, privileges, elevated_script_lem, shell_quote_lem,
}
use mac_os_sstp_client.Route.{
  Action, run_elevated, remove_snapshot, append_log, show_notification, sleep, after_failures,
  Machine, has_default_route, cleanup_fragment, load_route_snapshot, route_cmd, max_attempts,
  after_restore, pause, attempts, heal_thread, heal_route_if_broken, restoring, or_route_change,
  route_add,
}

abbrev pub elevated : List Action → ℕ
elevated [] = 0
elevated (run_elevated cmd ∷ log) = suc (elevated log)
elevated (_ ∷ log) = elevated log

abbrev pub removals : List Action → ℕ
removals [] = 0
removals (remove_snapshot ∷ log) = suc (removals log)
removals (_ ∷ log) = removals log

module _ (m : Machine) where
  -- The default route was confirmed, with nothing but lines of the log and notifications since.
  abbrev pub IsConfirmed : List Action → Type 0
  IsConfirmed [] = has_default_route m [] ≡ true
  IsConfirmed (append_log l ∷ log) =
      (has_default_route m (append_log l ∷ log) ≡ true) ⊎ IsConfirmed log
  IsConfirmed (show_notification n ∷ log) =
      (has_default_route m (show_notification n ∷ log) ≡ true) ⊎ IsConfirmed log
  IsConfirmed (a ∷ log) = has_default_route m (a ∷ log) ≡ true

  -- The snapshot was only ever removed behind a confirmed route.
  abbrev pub IsSafe : List Action → Type 0
  IsSafe [] = Unit {0}
  IsSafe (remove_snapshot ∷ log) = IsConfirmed log × IsSafe log
  IsSafe (_ ∷ log) = IsSafe log

  IsConfirmed-here : (log : List Action) → has_default_route m log ≡ true → IsConfirmed log
  IsConfirmed-here [] h = h
  IsConfirmed-here (append_log l ∷ log) h = inl h
  IsConfirmed-here (show_notification n ∷ log) h = inl h
  IsConfirmed-here (_ ∷ log) h = h

  IsSafe-pause : (left : ℕ) (log : List Action) → IsSafe log → IsSafe (pause m left log)
  IsSafe-pause zero log v = v
  IsSafe-pause (suc left) log v = v

  -- Each elevated command since then restored the gateway, and behind it the route was still down.
  abbrev pub AllFailed : Str → List Action → List Action → Type 0
  AllFailed gw [] log = Unit {0}
  AllFailed gw (run_elevated cmd ∷ since) log =
      (cmd ≡ route_cmd gw ++ cleanup_fragment m (since ++ log))
      × (has_default_route m (run_elevated cmd ∷ (since ++ log)) ≡ false)
      × AllFailed gw since log
  AllFailed gw (_ ∷ since) log = AllFailed gw since log

  -- How the attempts end, from the log `log` on: with a route that is back, right behind the
  -- elevated command of the attempt's number, all those before it having failed; or given up
  -- behind four that have failed.
  abbrev pub Outcome : Str → Bool → List Action → List Action → Type 0
  Outcome gw notify log log' =
      ((attempt : ℕ) × (since : List Action) × (let tried =
            run_elevated (route_cmd gw ++ cleanup_fragment m (since ++ log)) ∷ (since ++ log) in
          (log' ≡ after_restore m notify attempt tried) × (has_default_route m tried ≡ true))
        × AllFailed gw since log
        × (elevated since + 1 ≡ attempt)
        × (attempt ≤ 4)
        × (removals since ≡ 0))
      ⊎ ((since : List Action) × (log' ≡ after_failures m (since ++ log))
          × AllFailed gw since log
          × (elevated since ≡ 4)
          × (removals since ≡ 0))

  pause-since :
      (gw : Str) (left : ℕ) (since log : List Action)
      → (since' : List Action) × (pause m left (since ++ log) ≡ since' ++ log)
        × (AllFailed gw since log → AllFailed gw since' log)
        × (elevated since' ≡ elevated since)
        × (removals since' ≡ removals since)
  pause-since gw zero since log = (since, refl, λ f. f, refl, refl)
  pause-since gw (suc left) since log = (sleep 2 ∷ since, refl, λ f. f, refl, refl)

  attempts-Outcome :
      (start since : List Action) (left : ℕ) (notify : Bool) (gw : Str)
      → elevated since + left ≡ 4
      → removals since ≡ 0
      → AllFailed gw since start
      → Outcome gw notify start (attempts m left notify gw (since ++ start))
  unfolding attempts
  attempts-Outcome start since zero notify gw e r f = inr (since, refl, f, omega (arith, e), r)
  attempts-Outcome start since (suc left) notify gw e r f =
      let log = since ++ start in
      let cmd = route_cmd gw ++ cleanup_fragment m log in
      elim (Bool-cases (has_default_route m (run_elevated cmd ∷ log))) [
        | inl y ↦
            rw y (inl (max_attempts - left, since, (refl, y), f, omega (arith, e), omega arith, r))
        | inr n ↦
            let (since', q, failed, same, none) =
              pause-since gw left (run_elevated cmd ∷ since) start in
            rw (n, q)
              (attempts-Outcome start since' left notify gw (omega (arith, e, same)) (none ∙ r)
                (failed (refl, n, f)))
      ]

  after_restore-IsSafe :
      (notify : Bool) (attempt : ℕ) (tried : List Action)
      → has_default_route m tried ≡ true
      → IsSafe tried
      → IsSafe (after_restore m notify attempt tried)
  after_restore-IsSafe true attempt tried h v = (inr (inr (IsConfirmed-here tried h)), v)
  after_restore-IsSafe false attempt tried h v = (inr (IsConfirmed-here tried h), v)

  attempts-IsSafe :
      (left : ℕ) (notify : Bool) (gw : Str) (log : List Action)
      → IsSafe log
      → IsSafe (attempts m left notify gw log)
  unfolding attempts
  attempts-IsSafe zero notify gw log v = v
  attempts-IsSafe (suc left) notify gw log v =
      let tried = run_elevated (route_cmd gw ++ cleanup_fragment m log) ∷ log in
      elim (Bool-cases (has_default_route m tried)) [
        | inl y ↦ rw y (after_restore-IsSafe notify (max_attempts - left) tried y v)
        | inr n ↦
            rw n (attempts-IsSafe left notify gw (pause m left tried) (IsSafe-pause left tried v))
      ]

  heal_thread-IsSafe :
      (notify : Bool) (log : List Action) → IsSafe log → IsSafe (heal_thread m notify log)
  unfolding heal_thread
  heal_thread-IsSafe notify log v = elim (Option-cases (load_route_snapshot m log)) [
    | inl q ↦ rw (q, heal_thread) v
    | inr (gw, q) ↦
        rw (q, heal_thread)
          (attempts-IsSafe max_attempts notify gw (append_log (restoring gw) ∷ log) v)
  ]

-- The saved gateway is only ever removed when `has_default_route` has just confirmed a working
-- default route: if this held of all that was done before, it holds behind a call of
-- `heal_route_if_broken`, whether or not another thread is still healing and however the machine
-- answers.
pub heal_route_if_broken-IsSafe :
    (m : Machine) (in_progress notify : Bool) (log : List Action)
    → IsSafe m log
    → IsSafe m (heal_route_if_broken m in_progress notify log)
unfolding heal_route_if_broken
heal_route_if_broken-IsSafe m in_progress notify log v =
    elim (Bool-cases (has_default_route m log)) [
      | inl y ↦ rw y (IsConfirmed-here m log y, v)
      | inr n ↦ rw n (unless in_progress)
    ]
  where
    unless : (b : Bool) → IsSafe m (if b then log else heal_thread m notify log)
    unless true = v
    unless false = heal_thread-IsSafe m notify log v

-- With a saved gateway, the thread that repairs the route ends in one of two ways. Either it stops
-- right behind one of at most four elevated commands, the first behind which the route works, and
-- then it removes the snapshot; or the route is down behind each of four of them, and then it keeps
-- the snapshot and shows that the restore has failed. Each command restores the saved gateway.
pub heal_thread-Outcome :
    (m : Machine) (notify : Bool) (log : List Action) (gw : Str)
    → load_route_snapshot m log ≡ some gw
    → Outcome m gw notify (append_log (restoring gw) ∷ log) (heal_thread m notify log)
unfolding heal_thread
heal_thread-Outcome m notify log gw q =
    rw (q, heal_thread)
      (attempts-Outcome m (append_log (restoring gw) ∷ log) [] max_attempts notify gw refl refl tt)

-- The restored gateway stays one argument of `route`, whatever its characters are, at both places
-- of the command: in the elevated script, AppleScript reads the whole command back; in this the
-- shell reads what follows "route -n add default " as one word, the gateway itself; and it reads
-- what follows " 2>/dev/null || route -n change default " behind that as one word, the gateway
-- again, with "; " and the cleanup behind it.
pub route_cmd_quoted :
    (gw cleanup : Str)
    → (quoted : Str) × (elevated_script (route_cmd gw ++ cleanup) ≡ do_shell_script ++ quoted)
      × (script_literal false quoted ≡ some (route_cmd gw ++ cleanup, privileges))
      × ((rest : Str) × (sh_word outside (drop (length route_add) (route_cmd gw ++ cleanup))
            ≡ some (gw, or_route_change ++ rest))
          × (sh_word outside rest ≡ some (gw, 0x3B ∷ 0x20 ∷ cleanup)))
unfolding route_cmd
route_cmd_quoted gw cleanup =
    let (quoted, script, literal) = elevated_script_lem (route_cmd gw ++ cleanup) in
    let rest = (shell_quote gw ++ (0x3B ∷ 0x20 ∷ [])) ++ cleanup in
    (
      quoted,
      script,
      literal,
      (
        rest,
        ap (sh_word outside) (
              append_assoc (shell_quote gw)
                (or_route_change ++ (shell_quote gw ++ (0x3B ∷ 0x20 ∷ []))) cleanup)
            ∙ shell_quote_lem gw (or_route_change ++ rest) refl,
        ap (sh_word outside) (append_assoc (shell_quote gw) (0x3B ∷ 0x20 ∷ []) cleanup)
            ∙ shell_quote_lem gw (0x3B ∷ 0x20 ∷ cleanup) refl,
      ),
    )
