-- ===== src/Examples/Gathering.antt =====
-- packages/calls/engine/ice-gathering.ts at concrete events.
use slothfulchat_web.Prelude.{◌≡◌, refl, true, false, Option, none, some, List, [], ◌∷◌, ◌++◌}
use slothfulchat_web.Calls.IceGathering.{
  Urls, one, several, has_turn_server, GatherOptions, gather_until_enough_ice, srflx, relay, Event,
  candidates, state_changes, relay_timer_fires, srflx_timer_fires, aborts, cleans_up, on_srflx,
  on_state, run_cleanups, step, run,
}
use slothfulchat_web.Calls.IceGathering.Race.{
  enough, gather_until_enough_ice-enough, IsDetached, TimersFade, enough-IsDetached,
}

abbrev with_turn : Option (List Urls)
with_turn = some (one "stun:a" ∷ several ("stun:b" ∷ "turns:c" ∷ []) ∷ [])

abbrev watched : GatherOptions
watched = record { overall_timeout_ms = none; signal = some false }

with_turn_lem : has_turn_server with_turn ≡ true
unfolding has_turn_server
with_turn_lem = refl

-- A server-reflexive candidate does not do, and a relay candidate's timer does.
abbrev burst : List Event
burst =
    candidates (some srflx)
    ∷ srflx_timer_fires
    ∷ candidates (some relay)
    ∷ state_changes false
    ∷ relay_timer_fires
    ∷ []

gather_until_enough_ice-enough_example :
    (run (gather_until_enough_ice with_turn watched) burst).settled ≡ enough with_turn watched burst
gather_until_enough_ice-enough_example = gather_until_enough_ice-enough with_turn watched burst

-- The timer of a server-reflexive candidate outlasts the clean-ups.
abbrev early : List Event
early = candidates (some srflx) ∷ state_changes true ∷ []

enough-IsDetached_example :
    let g = gather_until_enough_ice with_turn watched in
    IsDetached (run g (early ++ cleans_up ∷ aborts ∷ []))
    × TimersFade (run g early) (run g (early ++ cleans_up ∷ aborts ∷ []))
unfolding has_turn_server
enough-IsDetached_example = enough-IsDetached with_turn watched early (aborts ∷ []) refl

srflx_timer_outlasts :
    (run (gather_until_enough_ice with_turn watched) (early ++ cleans_up ∷ [])).srflx_timer
    ≡ some 150
unfolding run step gather_until_enough_ice on_srflx on_state run_cleanups has_turn_server
srflx_timer_outlasts = refl
