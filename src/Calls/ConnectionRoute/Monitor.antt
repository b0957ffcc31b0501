-- ===== src/Calls/ConnectionRoute/Monitor.antt =====
-- packages/calls/engine/connection-route.ts: the polling monitor. A timer handle is a number that
-- `setInterval` returned; `tick` is cut in two where it awaits the poll.
use slothfulchat_web.Prelude.{
  ℕ, suc, ◌+◌, ◌≡◌, refl, ap, ◌≢◌, ◌⊎◌, inl, inr, Bool, true, false, Option, none, some, List, [],
  ◌∷◌, ◌++◌, arith, if◌then◌else◌, is_some, All,
}
use slothfulchat_web.Calls.ConnectionRoute.{ConnectionRoute, direct, relay, unknown}

pub record ConnectionRouteMonitor : Type 0 where
  pub handle : Option ℕ
  pub stopped : Bool
  pub polling : Bool
  pub last_route : ConnectionRoute

-- What the monitor does to its surroundings.
pub data Effect : Type 0 where
  poll : Effect
  set_interval : Effect
  clear_interval : ℕ → Effect
  on_route : ConnectionRoute → Effect

abbrev pub new_monitor : ConnectionRouteMonitor
new_monitor = record { handle = none; stopped = true; polling = false; last_route = unknown }

unfoldable pub is_running : ConnectionRouteMonitor → Bool
is_running m = is_some m.handle

abbrev same_route : ConnectionRoute → ConnectionRoute → Bool
same_route direct direct = true
same_route relay relay = true
same_route unknown unknown = true
same_route _ _ = false

-- `tick` up to its await.
unfoldable pub tick : ConnectionRouteMonitor → ConnectionRouteMonitor × List Effect
tick m = if m.polling then (m, []) else (record m { polling = true }, poll ∷ [])

-- `tick` after its await: the poll's answer, or `none` if it was rejected.
unfoldable pub settle :
    ConnectionRouteMonitor → Option ConnectionRoute → ConnectionRouteMonitor × List Effect
settle m none = (record m { polling = false }, [])
settle m (some route) =
    if m.stopped
    then (record m { polling = false }, [])
    else if same_route route m.last_route
    then (record m { polling = false }, [])
    else (record m { polling = false; last_route = route }, on_route route ∷ [])

-- `h` is the handle that `setInterval` returns.
unfoldable pub start : ConnectionRouteMonitor → ℕ → ConnectionRouteMonitor × List Effect
start m h =
    if is_some m.handle
    then (m, [])
    else let (ticked, did) = tick (record m { stopped = false }) in
      (record ticked { handle = some h }, did ++ set_interval ∷ [])

unfoldable pub clear : Option ℕ → List Effect
clear none = []
clear (some h) = clear_interval h ∷ []

unfoldable pub stop : ConnectionRouteMonitor → ConnectionRouteMonitor × List Effect
stop m = (record m { stopped = true; handle = none }, clear m.handle)

-- Calls of the monitor, interval ticks and answers of polls.
pub data Event : Type 0 where
  starts : ℕ → Event
  stops : Event
  interval : Event
  answers : Option ConnectionRoute → Event

unfoldable pub step : ConnectionRouteMonitor → Event → ConnectionRouteMonitor × List Effect
step m (starts h) = start m h
step m stops = stop m
step m interval = tick m
step m (answers r) = settle m r

unfoldable pub run : ConnectionRouteMonitor → List Event → ConnectionRouteMonitor × List Effect
run m [] = (m, [])
run m (e ∷ es) = let (m', did) = step m e in let (final, rest) = run m' es in (final, did ++ rest)

-- The routes that a list of effects reports.
abbrev pub reports : List Effect → List ConnectionRoute
reports [] = []
reports (on_route r ∷ es) = r ∷ reports es
reports (poll ∷ es) = reports es
reports (set_interval ∷ es) = reports es
reports (clear_interval h ∷ es) = reports es

abbrev pub polls : List Effect → ℕ
polls [] = 0
polls (poll ∷ es) = suc (polls es)
polls (on_route r ∷ es) = polls es
polls (set_interval ∷ es) = polls es
polls (clear_interval h ∷ es) = polls es

abbrev pub answered : List Event → ℕ
answered [] = 0
answered (answers r ∷ es) = suc (answered es)
answered (starts h ∷ es) = answered es
answered (stops ∷ es) = answered es
answered (interval ∷ es) = answered es

-- No route is reported twice in a row, counting `r` as reported before.
abbrev pub IsDeduped : ConnectionRoute → List ConnectionRoute → Type 0
IsDeduped r [] = Unit {0}
IsDeduped r (s ∷ ss) = (s ≢ r) × IsDeduped s ss

reports-append : (xs ys : List Effect) → reports (xs ++ ys) ≡ reports xs ++ reports ys
reports-append [] ys = refl
reports-append (on_route r ∷ xs) ys = ap (◌∷◌ r) (reports-append xs ys)
reports-append (poll ∷ xs) ys = reports-append xs ys
reports-append (set_interval ∷ xs) ys = reports-append xs ys
reports-append (clear_interval h ∷ xs) ys = reports-append xs ys

polls-append : (xs ys : List Effect) → polls (xs ++ ys) ≡ polls xs + polls ys
polls-append [] ys = omega arith
polls-append (poll ∷ xs) ys = omega (arith, polls-append xs ys)
polls-append (on_route r ∷ xs) ys = polls-append xs ys
polls-append (set_interval ∷ xs) ys = polls-append xs ys
polls-append (clear_interval h ∷ xs) ys = polls-append xs ys

-- One step reports nothing and keeps the last route, or reports a new one.
step-reports :
    (m : ConnectionRouteMonitor) (e : Event)
    → ((reports (step m e).1 ≡ []) × ((step m e).0.last_route ≡ m.last_route))
      ⊎ ((reports (step m e).1 ≡ (step m e).0.last_route ∷ [])
          × ((step m e).0.last_route ≢ m.last_route)
          × (m.stopped ≡ false))
unfolding step start stop tick settle clear
step-reports m (starts h) = ground arith
step-reports m stops = ground arith
step-reports m interval = ground arith
step-reports m (answers r) = ground arith

-- Whatever calls, ticks and answers arrive in whatever order, the callback gets no route twice in
-- a row, and its first route is not the one that the monitor held before.
pub run-IsDeduped :
    (m : ConnectionRouteMonitor) (es : List Event) → IsDeduped m.last_route (reports (run m es).1)
unfolding run
run-IsDeduped m [] = tt
run-IsDeduped m (e ∷ es) =
    let (m', did) = step m e in
    let later = run-IsDeduped (step m e).0 es in
    rw (reports-append (step m e).1 (run (step m e).0 es).1) (elim (step-reports m e) [
      | inl (none_new, same) ↦ rw none_new (rw same at later)
      | inr (one, new, _) ↦ rw one (new, later)
    ])

abbrev pub is_start : Event → Bool
is_start (starts h) = true
is_start _ = false

step_silent :
    (m : ConnectionRouteMonitor) (e : Event)
    → m.stopped ≡ true
    → is_start e ≡ false
    → (reports (step m e).1 ≡ []) × ((step m e).0.stopped ≡ true)
unfolding step start stop tick settle clear
step_silent m e h n = ground arith

silent :
    (m : ConnectionRouteMonitor) (es : List Event)
    → m.stopped ≡ true
    → All (λ e. is_start e ≡ false) es
    → reports (run m es).1 ≡ []
unfolding run
silent m [] h n = refl
silent m (e ∷ es) h (n, ns) =
    let (quiet, still) = step_silent m e h n in
    rw (reports-append (step m e).1 (run (step m e).0 es).1, quiet)
      (silent (step m e).0 es still ns)

-- After `stop`, no route is reported until `start` is called again, whatever ticks and late answers
-- of polls arrive.
pub stop_silences :
    (m : ConnectionRouteMonitor) (es : List Event)
    → All (λ e. is_start e ≡ false) es
    → reports (run (stop m).0 es).1 ≡ []
unfolding stop
stop_silences m es n = silent _ es refl n

abbrev pub flag : Bool → ℕ
flag true = 1
flag false = 0

-- Only a poll that was made is answered.
abbrev pub IsAnswering : ConnectionRouteMonitor → List Event → Type 0
IsAnswering m [] = Unit {0}
IsAnswering m (answers r ∷ es) = (m.polling ≡ true) × IsAnswering (step m (answers r)).0 es
IsAnswering m (starts h ∷ es) = IsAnswering (step m (starts h)).0 es
IsAnswering m (stops ∷ es) = IsAnswering (step m stops).0 es
IsAnswering m (interval ∷ es) = IsAnswering (step m interval).0 es

-- If only polls that were made are answered, the polls made, and the one in flight before, are those
-- answered and the one that the `polling` flag says is in flight: never more than one is.
pub polls-run :
    (m : ConnectionRouteMonitor) (es : List Event)
    → IsAnswering m es
    → polls (run m es).1 + flag m.polling ≡ answered es + flag (run m es).0.polling
unfolding run step start stop tick settle clear
polls-run m [] h = omega arith
polls-run m (starts k ∷ es) h = ground (
  arith,
  polls-append (step m (starts k)).1 (run (step m (starts k)).0 es).1,
  polls-run (step m (starts k)).0 es h,
)
polls-run m (stops ∷ es) h = ground (
  arith,
  polls-append (step m stops).1 (run (step m stops).0 es).1,
  polls-run (step m stops).0 es h,
)
polls-run m (interval ∷ es) h = ground (
  arith,
  polls-append (step m interval).1 (run (step m interval).0 es).1,
  polls-run (step m interval).0 es h,
)
polls-run m (answers r ∷ es) h = ground (
  arith,
  polls-append (step m (answers r)).1 (run (step m (answers r)).0 es).1,
  polls-run (step m (answers r)).0 es h.1,
)
