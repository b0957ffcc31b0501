-- ===== src/Calls/Ringtone/Balance.antt =====
-- packages/calls/bridge/ringtone.ts: which audio contexts the player makes, closes and loses.
use slothfulchat_web.Prelude.{
  ℕ, ◌+◌, ◌≡◌, Bool, true, false, List, [], ◌∷◌, ◌++◌, arith, if◌then◌else◌, length, keep, count_if,
}
use slothfulchat_web.Calls.Ringtone.{
  Effect, create_context, close_context, Audio, no_nodes, RingtonePlayer, new_player, start_tone,
  arm, start_vibration, start, toggle_pulse, stop, Event, starts, stops, pulse_timer_fires,
  vibrate_timer_fires, step, run,
}

abbrev pub count_of : (Effect → Bool) → List Effect → ℕ
count_of p es = length (keep p es)

abbrev pub is_creation : Effect → Bool
is_creation create_context = true
is_creation _ = false

abbrev pub is_closing : Effect → Bool
is_closing close_context = true
is_closing _ = false

abbrev pub is_broken : Audio → Bool
is_broken no_nodes = true
is_broken _ = false

-- The rings whose audio fails behind its context, told by the events alone: a start during a ring is none.
abbrev pub broken_rings : Bool → List Event → ℕ
broken_rings ringing [] = 0
broken_rings ringing (starts audio ∷ es) =
    (if ringing then 0 else count_if (is_broken audio)) + broken_rings true es
broken_rings ringing (stops ∷ es) = broken_rings false es
broken_rings ringing (pulse_timer_fires ∷ es) = broken_rings ringing es
broken_rings ringing (vibrate_timer_fires ∷ es) = broken_rings ringing es

count_of-append :
    (p : Effect → Bool) (xs ys : List Effect)
    → count_of p (xs ++ ys) ≡ count_of p xs + count_of p ys
count_of-append p [] ys = omega arith
count_of-append p (x ∷ xs) ys = ground (arith, count_of-append p xs ys)

-- A player that does not ring has no graph.
abbrev IsIdle : RingtonePlayer → Type 0
IsIdle r = r.ringing ≡ false → r.graph ≡ false

step-IsIdle : (r : RingtonePlayer) (e : Event) → IsIdle r → IsIdle (step r e).0
unfolding step start start_tone start_vibration arm toggle_pulse stop
step-IsIdle r (starts a) h = ground arith
step-IsIdle r stops h = ground arith
step-IsIdle r pulse_timer_fires h = ground arith
step-IsIdle r vibrate_timer_fires h = ground arith

step-balance :
    (r : RingtonePlayer) (e : Event) (es : List Event)
    → IsIdle r
    → count_of is_creation (step r e).1 + count_if r.graph + broken_rings (step r e).0.ringing es
      ≡ count_of is_closing (step r e).1
        + count_if (step r e).0.graph
        + broken_rings r.ringing (e ∷ es)
unfolding step start start_tone start_vibration arm toggle_pulse stop
step-balance r (starts a) es h = ground arith
step-balance r stops es h = ground arith
step-balance r pulse_timer_fires es h = ground arith
step-balance r vibrate_timer_fires es h = ground arith

run-balance :
    (r : RingtonePlayer) (es : List Event)
    → IsIdle r
    → count_of is_creation (run r es).1 + count_if r.graph
      ≡ count_of is_closing (run r es).1 + count_if (run r es).0.graph + broken_rings r.ringing es
unfolding run
run-balance r [] h = omega arith
run-balance r (e ∷ es) h = omega (
  arith,
  step-balance r e es h,
  run-balance (step r e).0 es (step-IsIdle r e h),
  count_of-append is_creation (step r e).1 (run (step r e).0 es).1,
  count_of-append is_closing (step r e).1 (run (step r e).0 es).1,
)

-- However starts, stops and timers follow each other, the audio contexts that were made are those that
-- were closed, the one that the player holds, if any, and one for each ring whose audio failed after its
-- context was made: those are lost, and of the others at most one is open.
pub contexts_balance :
    (es : List Event)
    → count_of is_creation (run new_player es).1
      ≡ count_of is_closing (run new_player es).1
        + count_if (run new_player es).0.graph
        + broken_rings false es
contexts_balance es = omega (arith, run-balance new_player es (λ h. h))
