-- ===== src/Calls/CallState/Runs.antt =====
-- What holds of the call-state machine over every sequence of requested transitions.
use mathlib.Core.Path.{subst}
use slothfulchat_web.Prelude.{
  ℕ, ◌+◌, ◌≤◌, ◌<◌, ◌≡◌, refl, ap, ◌∙◌, ◌↔◌, inl, inr, Bool-cases, true, false, List, [], ◌∷◌, ◌++◌,
  arith, length,
}
use slothfulchat_web.Calls.CallState.{
  CallState, idle, ringing, connecting, connected, ended, CallStateChange, CallStateMachine, allows,
  notify, transition,
}

-- How far a call has come; every edge climbs.
abbrev pub rank : CallState → ℕ
rank idle = 0
rank ringing = 1
rank connecting = 2
rank connected = 3
rank ended = 4

-- The states that a call may pass, as documented: forward one step, or to `ended`.
pub data Edge : CallState → CallState → Type 0 where
  ring : Edge idle ringing
  connect : Edge ringing connecting
  establish : Edge connecting connected
  finish : (s : CallState) → rank s < 4 → Edge s ended

allows-Edge : (s t : CallState) → allows s t ≡ true → Edge s t
allows-Edge idle ringing h = ring
allows-Edge ringing connecting h = connect
allows-Edge connecting connected h = establish
allows-Edge idle ended h = finish idle (omega arith)
allows-Edge ringing ended h = finish ringing (omega arith)
allows-Edge connecting ended h = finish connecting (omega arith)
allows-Edge connected ended h = finish connected (omega arith)
allows-Edge idle idle h = cc
allows-Edge idle connecting h = cc
allows-Edge idle connected h = cc
allows-Edge ringing idle h = cc
allows-Edge ringing ringing h = cc
allows-Edge ringing connected h = cc
allows-Edge connecting idle h = cc
allows-Edge connecting ringing h = cc
allows-Edge connecting connecting h = cc
allows-Edge connected idle h = cc
allows-Edge connected ringing h = cc
allows-Edge connected connecting h = cc
allows-Edge connected connected h = cc
allows-Edge ended t h = cc

Edge-allows : {s t : CallState} → Edge s t → allows s t ≡ true
Edge-allows ring = refl
Edge-allows connect = refl
Edge-allows establish = refl
Edge-allows (finish idle h) = refl
Edge-allows (finish ringing h) = refl
Edge-allows (finish connecting h) = refl
Edge-allows (finish connected h) = refl
Edge-allows (finish ended h) = absurd (omega arith)

-- One requested transition, for its state and for its calls.
abbrev pub after : CallStateMachine → CallState → CallStateMachine
after m t = (transition m t).0

pub run : CallStateMachine → List CallState → CallStateMachine
run m [] = m
run m (t ∷ ts) = run (after m t) ts

-- Every call that a sequence of requests makes, in order.
pub run_calls : CallStateMachine → List CallState → List (ℕ × CallStateChange)
run_calls m [] = []
run_calls m (t ∷ ts) = (transition m t).2 ++ run_calls (after m t) ts

-- A transition reports a change exactly on the documented edges; it then takes the edge and calls
-- each listener once with it, and otherwise it leaves the machine alone and calls nobody.
pub transition-Edge :
    (m : CallStateMachine) (t : CallState)
    → ((transition m t).1 ≡ true ↔ Edge m.current_state t)
      × ((transition m t).1 ≡ true
          → (after m t ≡ record m { current_state = t })
            × ((transition m t).2 ≡ notify m m.current_state t))
      × ((transition m t).1 ≡ false → (after m t ≡ m) × ((transition m t).2 ≡ []))
unfolding transition
transition-Edge m t = (
  (
    (λ h. allows-Edge m.current_state t (changed m.current_state t h)),
    (λ e. unchanged m.current_state t e),
  ),
  ground arith,
  ground arith,
)
  where
    changed :
        (s t : CallState)
        → (transition (record m { current_state = s }) t).1 ≡ true
        → allows s t ≡ true
    changed s t h = ground arith

    unchanged :
        (s t : CallState) → Edge s t → (transition (record m { current_state = s }) t).1 ≡ true
    unchanged s t ring = refl
    unchanged s t connect = refl
    unchanged s t establish = refl
    unchanged s t (finish idle h) = refl
    unchanged s t (finish ringing h) = refl
    unchanged s t (finish connecting h) = refl
    unchanged s t (finish connected h) = refl
    unchanged s t (finish ended h) = absurd (omega arith)

after-ended : (m : CallStateMachine) (t : CallState) → m.current_state ≡ ended → after m t ≡ m
unfolding transition
after-ended m t h = ground arith

run_of_ended : (m : CallStateMachine) (ts : List CallState) → m.current_state ≡ ended → run m ts ≡ m
unfolding run
run_of_ended m [] h = refl
run_of_ended m (t ∷ ts) h = rw (after-ended m t h) (run_of_ended m ts h)

after_end : (m : CallStateMachine) → (after m ended).current_state ≡ ended
unfolding transition
after_end m = ground arith

-- Teardown wins: once `ended` has been requested, the machine is and stays ended, whatever was
-- requested before and whatever late requests follow.
pub run-ended :
    (m : CallStateMachine) (before later : List CallState)
    → (run m (before ++ ended ∷ later)).current_state ≡ ended
unfolding run
run-ended m [] later = rw (run_of_ended (after m ended) later (after_end m)) (after_end m)
run-ended m (t ∷ ts) later = run-ended (after m t) ts later

lone_call :
    (m : CallStateMachine) (l : ℕ) (t : CallState)
    → m.listeners ≡ l ∷ []
    → (transition m t).1 ≡ true
    → (transition m t).2 ≡ (l, record { from = m.current_state; to = t }) ∷ []
unfolding notify
lone_call m l t h moved = rw (((transition-Edge m t).1 moved).1, h, notify)

-- A listener's calls lead from one state to another along documented edges, with no gap.
abbrev pub IsPath : CallState → List (ℕ × CallStateChange) → CallState → Type 0
IsPath s [] t = s ≡ t
IsPath s ((_, c) ∷ cs) t = (c.from ≡ s) × Edge s c.to × IsPath c.to cs t

Edge-rank : {s t : CallState} → Edge s t → rank s < rank t
Edge-rank ring = omega arith
Edge-rank connect = omega arith
Edge-rank establish = omega arith
Edge-rank (finish s h) = h

rank-le : (s : CallState) → rank s ≤ 4
rank-le idle = omega arith
rank-le ringing = omega arith
rank-le connecting = omega arith
rank-le connected = omega arith
rank-le ended = omega arith

length-IsPath :
    (s t : CallState) (cs : List (ℕ × CallStateChange))
    → IsPath s cs t
    → length cs + rank s ≤ rank t
length-IsPath s t [] h = omega (arith, ap rank h)
length-IsPath s t ((l, c) ∷ cs) (_, e, h) = omega (arith, Edge-rank e, length-IsPath c.to t cs h)

IsPath-cons :
    (m : CallStateMachine) (l : ℕ) (t u : CallState) (cs : List (ℕ × CallStateChange))
    → m.listeners ≡ l ∷ []
    → IsPath (after m t).current_state cs u
    → IsPath m.current_state ((transition m t).2 ++ cs) u
IsPath-cons m l t u cs h rest = elim (Bool-cases (transition m t).1) [
  | inl moved ↦
      let (taken, told) = (transition-Edge m t).1 moved in
      rw (lone_call m l t h moved)
        (refl, (transition-Edge m t).0.0 moved, subst (λ n. IsPath n.current_state cs u) taken rest)
  | inr still ↦
      let (same, silent) = (transition-Edge m t).2 still in
      rw silent (subst (λ n. IsPath n.current_state cs u) same rest)
]

listeners-after : (m : CallStateMachine) (t : CallState) → (after m t).listeners ≡ m.listeners
unfolding transition
listeners-after m t = ground arith

IsPath-run :
    (m : CallStateMachine) (l : ℕ) (ts : List CallState)
    → m.listeners ≡ l ∷ []
    → IsPath m.current_state (run_calls m ts) (run m ts).current_state
unfolding run run_calls
IsPath-run m l [] h = refl
IsPath-run m l (t ∷ ts) h =
    IsPath-cons m l t _ _ h (IsPath-run (after m t) l ts (listeners-after m t ∙ h))

-- Whatever transitions are requested, a lone listener is led from the first state to the last
-- along documented edges, with no gap, and is called at most four times.
pub run_calls-IsPath :
    (m : CallStateMachine) (l : ℕ) (ts : List CallState)
    → m.listeners ≡ l ∷ []
    → IsPath m.current_state (run_calls m ts) (run m ts).current_state
      × (length (run_calls m ts) ≤ 4)
run_calls-IsPath m l ts h =
    let path = IsPath-run m l ts h in
    (path, omega (arith, length-IsPath _ _ _ path, rank-le (run m ts).current_state))
