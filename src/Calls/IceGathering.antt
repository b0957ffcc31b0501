-- ===== src/Calls/IceGathering.antt =====
-- packages/calls/engine/ice-gathering.ts: when enough ICE candidates are gathered to send the
-- description. The listeners, timers and the race of `gatherUntilEnoughIce` are a record, and what
-- happens to them is an event.
pub mod Race
use Prim.Native.String.{String}
use package.text.Mathlib.Text.{starts_with}
use slothfulchat_web.Prelude.{
  ℕ, Bool, true, false, not, ◌&&◌, ◌||◌, Option, none, some, List, [], ◌∷◌, if◌then◌else◌, any,
  is_some,
}

-- `RTCIceServer.urls`
pub data Urls : Type 0 where
  one : String → Urls
  several : List String → Urls

abbrev pub is_turn : String → Bool
is_turn u = starts_with u "turn:" || starts_with u "turns:"

abbrev pub has_turn : Urls → Bool
has_turn (one u) = is_turn u
has_turn (several us) = any is_turn us

-- `none` is an absent configuration, or one without `iceServers`.
unfoldable pub has_turn_server : Option (List Urls) → Bool
has_turn_server none = false
has_turn_server (some servers) = any has_turn servers

-- `options`, where `signal` says whether it is aborted already.
pub record GatherOptions : Type 0 where
  pub overall_timeout_ms : Option ℕ
  pub signal : Option Bool

abbrev pub relay_candidate_settle_ms : ℕ
relay_candidate_settle_ms = 0

abbrev pub srflx_candidate_settle_ms : ℕ
srflx_candidate_settle_ms = 150

-- What is attached, which timers run (with their delays), whether `gotSrflxCandidate` is raced, and
-- whether the race has settled.
pub record Gathering : Type 0 where
  pub relay_listener : Bool
  pub srflx_listener : Bool
  pub state_listener : Bool
  pub abort_listener : Bool
  pub relay_timer : Option ℕ
  pub srflx_timer : Option ℕ
  pub overall_timer : Option ℕ
  pub races_srflx : Bool
  pub settled : Bool

abbrev pub is_aborted : Option Bool → Bool
is_aborted (some true) = true
is_aborted _ = false

abbrev pub is_abortable : Option Bool → Bool
is_abortable (some false) = true
is_abortable _ = false

unfoldable pub gather_until_enough_ice : Option (List Urls) → GatherOptions → Gathering
gather_until_enough_ice servers o = record {
  relay_listener = true;
  srflx_listener = true;
  state_listener = true;
  abort_listener = is_abortable o.signal;
  relay_timer = none;
  srflx_timer = none;
  overall_timer = o.overall_timeout_ms;
  races_srflx = not (has_turn_server servers);
  settled = is_aborted o.signal;
}

pub data CandidateType : Type 0 where
  host srflx prflx relay : CandidateType

-- `candidates none` is the end of the candidates; `state_changes b` finds the gathering complete or
-- not; `cleans_up` is the callback of `finally`.
pub data Event : Type 0 where
  candidates : Option CandidateType → Event
  state_changes : Bool → Event
  relay_timer_fires srflx_timer_fires overall_timer_fires aborts cleans_up : Event

unfoldable pub on_relay : Gathering → Gathering
on_relay g =
    if g.relay_listener
    then record g { relay_timer = some relay_candidate_settle_ms; relay_listener = false }
    else g

unfoldable pub on_srflx : Gathering → Gathering
on_srflx g =
    if g.srflx_listener
    then record g { srflx_timer = some srflx_candidate_settle_ms; srflx_listener = false }
    else g

unfoldable pub on_state : Bool → Gathering → Gathering
on_state complete g =
    if g.state_listener && complete then record g { settled = true; state_listener = false } else g

-- The settle timers are not among the clean-ups.
unfoldable pub run_cleanups : Gathering → Gathering
run_cleanups g = record g {
  relay_listener = false;
  srflx_listener = false;
  state_listener = false;
  overall_timer = none;
  abort_listener = false;
}

unfoldable pub step : Gathering → Event → Gathering
step g (candidates (some relay)) = on_relay g
step g (candidates (some srflx)) = on_srflx g
step g (candidates (some host)) = g
step g (candidates (some prflx)) = g
step g (candidates none) = g
step g (state_changes complete) = on_state complete g
step g relay_timer_fires =
    if is_some g.relay_timer then record g { relay_timer = none; settled = true } else g
step g srflx_timer_fires =
    if is_some g.srflx_timer
    then record g { srflx_timer = none; settled = g.settled || g.races_srflx }
    else g
step g overall_timer_fires =
    if is_some g.overall_timer then record g { overall_timer = none; settled = true } else g
step g aborts = if g.abort_listener then record g { settled = true } else g
step g cleans_up = if g.settled then run_cleanups g else g

unfoldable pub run : Gathering → List Event → Gathering
run g [] = g
run g (e ∷ es) = run (step g e) es
