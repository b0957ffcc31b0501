-- ===== src/Calls/CallState.antt =====
-- packages/calls/engine/call-state.ts: the call-state machine. A listener is a number; what
-- `notify` calls is the list that `transition` returns, in call order.
pub mod Runs
use slothfulchat_web.Prelude.{
  ℕ, Bool, true, false, List, [], ◌∷◌, ◌++◌, map, ◌==◌, if◌then◌else◌, member, keep, not,
}

pub data CallState : Type 0 where
  idle ringing connecting connected ended : CallState

pub data CallDirection : Type 0 where
  outgoing incoming : CallDirection

pub record CallStateChange : Type 0 where
  pub from : CallState
  pub to : CallState

-- ALLOWED_TRANSITIONS
abbrev pub allowed_transitions : CallState → List CallState
allowed_transitions idle = ringing ∷ ended ∷ []
allowed_transitions ringing = connecting ∷ ended ∷ []
allowed_transitions connecting = connected ∷ ended ∷ []
allowed_transitions connected = ended ∷ []
allowed_transitions ended = []

-- `===` on states
abbrev pub same_state : CallState → CallState → Bool
same_state idle idle = true
same_state ringing ringing = true
same_state connecting connecting = true
same_state connected connected = true
same_state ended ended = true
same_state _ _ = false

-- `Set.has`
abbrev has : List CallState → CallState → Bool
has [] to = false
has (s ∷ ss) to = if same_state s to then true else has ss to

abbrev pub allows : CallState → CallState → Bool
allows from to = has (allowed_transitions from) to

pub record CallStateMachine : Type 0 where
  pub current_state : CallState
  pub listeners : List ℕ

unfoldable pub new_machine : CallStateMachine
new_machine = record { current_state = idle; listeners = [] }

unfoldable pub is_terminal : CallStateMachine → Bool
is_terminal m = same_state m.current_state ended

unfoldable pub can_transition : CallStateMachine → CallState → Bool
can_transition m to = allows m.current_state to

-- The calls that one change makes: each listener with the new state and the change.
unfoldable pub notify : CallStateMachine → CallState → CallState → List (ℕ × CallStateChange)
notify m from to = map (λ l. (l, record { from = from; to = to })) m.listeners

unfoldable pub transition :
    CallStateMachine → CallState → CallStateMachine × Bool × List (ℕ × CallStateChange)
transition m to =
    if same_state to m.current_state
    then (m, false, [])
    else if allows m.current_state to
    then (record m { current_state = to }, true, notify m m.current_state to)
    else (m, false, [])

-- `Set.add` and `Set.delete`: a set keeps the order of insertion.
unfoldable pub subscribe : CallStateMachine → ℕ → CallStateMachine
subscribe m l = if member l m.listeners then m else record m { listeners = m.listeners ++ l ∷ [] }

unfoldable pub unsubscribe : CallStateMachine → ℕ → CallStateMachine
unsubscribe m l = record m { listeners = keep (λ k. not (k == l)) m.listeners }
