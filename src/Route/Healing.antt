-- ===== src/Route/Healing.antt =====
-- route.rs: `HEALING_IN_PROGRESS` among calls of `heal_route_if_broken` that overlap.
use mac_os_sstp_client.Prelude.{
  ℕ, suc, ◌+◌, ◌≤◌, ◌≡◌, refl, arith, List, [], ◌∷◌, Bool, true, false,
}

-- Where a call is. It has started; it has set the flag and starts its thread; its thread holds the
-- guard and repairs; it is over; or it has panicked because its thread could not be started.
pub data Place : Type 0 where
  called spawning repairing over lost : Place

pub record State : Type 0 where
  pub in_progress : Bool
  pub calls : List Place

-- One step of one call, at its place in the list.
pub data Move : Bool → Place → Bool → Place → Type 0 where
  -- `has_default_route()`.
  working : {flag : Bool} → Move flag called flag over
  -- `compare_exchange(false, true)` succeeds, or fails.
  take_flag : Move false called true spawning
  refuse : Move true called true over
  -- The thread has made its `HealGuard`.
  start_thread : {flag : Bool} → Move flag spawning flag repairing
  -- `std::thread::spawn` panics; the guard that would reset the flag was not made yet.
  spawn_fails : {flag : Bool} → Move flag spawning flag lost
  -- The thread returns or panics, and the guard is dropped.
  drop_guard : {flag : Bool} → Move flag repairing false over

pub data MoveIn : Bool → List Place → Bool → List Place → Type 0 where
  first :
      {flag flag' : Bool} {p p' : Place} {ps : List Place}
      → Move flag p flag' p'
      → MoveIn flag (p ∷ ps) flag' (p' ∷ ps)
  later :
      {flag flag' : Bool} {p : Place} {ps ps' : List Place}
      → MoveIn flag ps flag' ps'
      → MoveIn flag (p ∷ ps) flag' (p ∷ ps')

-- The states that calls at any time and in any order lead to.
pub data Reach : State → Type 0 where
  start : Reach (record { in_progress = false; calls = [] })
  call : {s : State} → Reach s → Reach (record s { calls = called ∷ s.calls })
  move :
      {s : State} {flag : Bool} {calls : List Place}
      → Reach s
      → MoveIn s.in_progress s.calls flag calls
      → Reach (record { in_progress = flag; calls = calls })

abbrev pub holds : Place → ℕ
holds spawning = 1
holds repairing = 1
holds lost = 1
holds _ = 0

abbrev pub holders : List Place → ℕ
holders [] = 0
holders (p ∷ ps) = holds p + holders ps

abbrev pub flag_count : Bool → ℕ
flag_count true = 1
flag_count false = 0

abbrev pub repairs : List Place → ℕ
repairs [] = 0
repairs (repairing ∷ ps) = suc (repairs ps)
repairs (_ ∷ ps) = repairs ps

abbrev pub losses : List Place → ℕ
losses [] = 0
losses (lost ∷ ps) = suc (losses ps)
losses (_ ∷ ps) = losses ps

move_lem :
    {flag flag' : Bool} {p p' : Place} (others : ℕ)
    → Move flag p flag' p'
    → holds p + others ≡ flag_count flag
    → holds p' + others ≡ flag_count flag'
move_lem others working h = h
move_lem others take_flag h = omega (arith, h)
move_lem others refuse h = h
move_lem others start_thread h = h
move_lem others spawn_fails h = h
move_lem others (drop_guard {flag = true}) h = omega (arith, h)
move_lem others (drop_guard {flag = false}) h = absurd (omega (arith, h))

-- A step somewhere in the list, with what the calls before it hold.
move_in_lem :
    {flag flag' : Bool} {ps ps' : List Place} (others : ℕ)
    → MoveIn flag ps flag' ps'
    → holders ps + others ≡ flag_count flag
    → holders ps' + others ≡ flag_count flag'
move_in_lem others (first {flag} {flag'} {p} {p'} {ps} m) h = omega (
  arith,
  move_lem {flag = flag} {flag' = flag'} {p = p} {p' = p'} (holders ps + others) m
      (omega (arith, h)),
)
move_in_lem others (later {flag} {flag'} {p} {ps} {ps'} m) h = omega (
  arith,
  move_in_lem {flag = flag} {flag' = flag'} {ps = ps} {ps' = ps'} (holds p + others) m
      (omega (arith, h)),
)

holders_lem : {s : State} → Reach s → holders s.calls ≡ flag_count s.in_progress
holders_lem start = refl
holders_lem (call {s} r) = omega (arith, holders_lem r)
holders_lem (move {s} {flag} {calls} r m) = omega (
  arith,
  move_in_lem {flag = s.in_progress} {flag' = flag} {ps = s.calls} {ps' = calls} 0 m
      (omega (arith, holders_lem r)),
)

repairs_lem : (ps : List Place) → repairs ps + losses ps ≤ holders ps
repairs_lem [] = omega arith
repairs_lem (called ∷ ps) = omega (arith, repairs_lem ps)
repairs_lem (spawning ∷ ps) = omega (arith, repairs_lem ps)
repairs_lem (repairing ∷ ps) = omega (arith, repairs_lem ps)
repairs_lem (over ∷ ps) = omega (arith, repairs_lem ps)
repairs_lem (lost ∷ ps) = omega (arith, repairs_lem ps)

flag_count_lem : (b : Bool) → flag_count b ≤ 1
flag_count_lem true = omega arith
flag_count_lem false = omega arith

-- A call that is lost stays lost.
losses-Move :
    {flag flag' : Bool} {p p' : Place} → Move flag p flag' p' → losses (p ∷ []) ≤ losses (p' ∷ [])
losses-Move working = omega arith
losses-Move take_flag = omega arith
losses-Move refuse = omega arith
losses-Move start_thread = omega arith
losses-Move spawn_fails = omega arith
losses-Move drop_guard = omega arith

losses-first : (p : Place) (ps : List Place) → losses (p ∷ ps) ≡ losses (p ∷ []) + losses ps
losses-first called ps = omega arith
losses-first spawning ps = omega arith
losses-first repairing ps = omega arith
losses-first over ps = omega arith
losses-first lost ps = omega arith

losses-MoveIn :
    {flag flag' : Bool} {ps ps' : List Place} → MoveIn flag ps flag' ps' → losses ps ≤ losses ps'
losses-MoveIn (first {flag} {flag'} {p} {p'} {ps} m) =
    omega (arith, losses-Move m, losses-first p ps, losses-first p' ps)
losses-MoveIn (later {flag} {flag'} {p} {ps} {ps'} m) =
    omega (arith, losses-MoveIn m, losses-first p ps, losses-first p ps')

set_flag : (flag : Bool) → 1 ≤ flag_count flag → flag ≡ true
set_flag true h = refl
set_flag false h = absurd (omega (arith, h))

-- However calls of `heal_route_if_broken` overlap, at most one of them repairs the route at a time;
-- the flag is set exactly while one call has set it and is not over, or when a call has panicked
-- because its thread could not be started. Then no call repairs any more, and the flag stays set.
pub healing_exclusive :
    {s : State}
    → Reach s
    → (repairs s.calls + losses s.calls ≤ 1)
      × (holders s.calls ≡ flag_count s.in_progress)
      × ((flag : Bool) (calls : List Place)
          → MoveIn s.in_progress s.calls flag calls
          → losses s.calls ≡ 1
          → (losses calls ≡ 1) × (repairs calls ≡ 0) × (flag ≡ true))
healing_exclusive {s} r = (
  omega (arith, repairs_lem s.calls, flag_count_lem s.in_progress, holders_lem r),
  holders_lem r,
  λ flag calls m l.
      let one : 1 ≤ losses calls = omega (arith, losses-MoveIn m, l) in
      let bound = repairs_lem calls in
      let held = holders_lem (move r m) in
      (
        omega (arith, one, bound, held, flag_count_lem flag),
        omega (arith, one, bound, held, flag_count_lem flag),
        set_flag flag (omega (arith, one, bound, held)),
      ),
)
