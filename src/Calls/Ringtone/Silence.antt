-- ===== src/Calls/Ringtone/Silence.antt =====
-- packages/calls/bridge/ringtone.ts: what a stopped player leaves of the device.
use slothfulchat_web.Prelude.{
  ◌≡◌, refl, sym, ap, ◌∙◌, Bool, true, false, List, [], ◌∷◌, ◌++◌, arith, All,
}
use slothfulchat_web.Calls.Ringtone.{
  Effect, create_context, close_context, gate, vibrate, set_pulse_timer, set_vibrate_timer,
  clear_pulse_timer, clear_vibrate_timer, RingtonePlayer, new_player, start_tone, vibrate_pattern,
  arm, start_vibration, start, toggle_pulse, stop, Event, starts, stops, pulse_timer_fires,
  vibrate_timer_fires, step, run,
}

-- What of a ring goes on by itself: the tone, the vibration and the two intervals.
pub record Device : Type 0 where
  pub sounding : Bool
  pub vibrating : Bool
  pub pulses : Bool
  pub rearms : Bool

abbrev pub at_rest : Device
at_rest = record { sounding = false; vibrating = false; pulses = false; rearms = false }

-- What an effect makes of the device. A context that was made is silent until its gain is opened, and an
-- empty pattern ends a vibration.
abbrev pub feel : Effect → Device → Device
feel create_context d = d
feel close_context d = record d { sounding = false }
feel (gate b) d = record d { sounding = b }
feel (vibrate []) d = record d { vibrating = false }
feel (vibrate (n ∷ ns)) d = record d { vibrating = true }
feel (set_pulse_timer ms) d = record d { pulses = true }
feel (set_vibrate_timer ms) d = record d { rearms = true }
feel clear_pulse_timer d = record d { pulses = false }
feel clear_vibrate_timer d = record d { rearms = false }

abbrev pub feel_all : List Effect → Device → Device
feel_all [] d = d
feel_all (x ∷ xs) d = feel_all xs (feel x d)

abbrev pub is_ring : Event → Bool
is_ring (starts audio) = true
is_ring _ = false

feel_all-append :
    (xs ys : List Effect) (d : Device) → feel_all (xs ++ ys) d ≡ feel_all ys (feel_all xs d)
feel_all-append [] ys d = refl
feel_all-append (x ∷ xs) ys d = feel_all-append xs ys (feel x d)

-- The player knows what it has to end.
record Knows (r : RingtonePlayer) (d : Device) : Type 0 where
  sounds : d.sounding ≡ true → r.graph ≡ true
  pulses : d.pulses ≡ r.pulse_timer
  rearms : d.rearms ≡ r.vibrate_timer
  idle : r.ringing ≡ false → (r.graph ≡ false) × (r.pulse_timer ≡ false)

step-Knows :
    (r : RingtonePlayer) (e : Event) (d : Device)
    → Knows r d
    → Knows (step r e).0 (feel_all (step r e).1 d)
unfolding step start start_tone start_vibration arm toggle_pulse stop vibrate_pattern
step-Knows r (starts a) d h = ground arith
step-Knows r stops d h = ground arith
step-Knows r pulse_timer_fires d h = ground arith
step-Knows r vibrate_timer_fires d h = ground arith

run-Knows :
    (r : RingtonePlayer) (es : List Event) (d : Device)
    → Knows r d
    → Knows (run r es).0 (feel_all (run r es).1 d)
unfolding run
run-Knows r [] d h = h
run-Knows r (e ∷ es) d h =
    let did = (step r e).1 in
    rw (feel_all-append did (run (step r e).0 es).1 d)
      (run-Knows (step r e).0 es (feel_all did d) (step-Knows r e d h))

stop-new : (r : RingtonePlayer) → (stop r).0 ≡ new_player
unfolding stop
stop-new r = refl

stop-at_rest : (r : RingtonePlayer) (d : Device) → Knows r d → feel_all (stop r).1 d ≡ at_rest
unfolding stop
stop-at_rest r d h = ground arith

run-append :
    (r : RingtonePlayer) (xs ys : List Event) (d : Device)
    → feel_all (run r (xs ++ ys)).1 d ≡ feel_all (run (run r xs).0 ys).1 (feel_all (run r xs).1 d)
unfolding run
run-append r [] ys d = refl
run-append r (x ∷ xs) ys d =
    feel_all-append (step r x).1 (run (step r x).0 (xs ++ ys)).1 d
    ∙ (run-append (step r x).0 xs ys (feel_all (step r x).1 d)
        ∙ sym (
            ap (λ b. feel_all (run (run (step r x).0 xs).0 ys).1 b)
              (feel_all-append (step r x).1 (run (step r x).0 xs).1 d)))

rest-silent :
    (es : List Event)
    → All (λ e. is_ring e ≡ false) es
    → feel_all (run new_player es).1 at_rest ≡ at_rest
unfolding run step stop
rest-silent [] h = refl
rest-silent (starts a ∷ es) (n, ns) = cc
rest-silent (stops ∷ es) (n, ns) = rest-silent es ns
rest-silent (pulse_timer_fires ∷ es) (n, ns) = rest-silent es ns
rest-silent (vibrate_timer_fires ∷ es) (n, ns) = rest-silent es ns

-- Whatever the player did before it is stopped, and whatever timers still fire and however often it is
-- stopped again after that: until the next start nothing sounds, nothing vibrates, and neither of its
-- intervals runs.
pub stopped_is_silent :
    (before later : List Event)
    → All (λ e. is_ring e ≡ false) later
    → feel_all (run new_player (before ++ stops ∷ later)).1 at_rest ≡ at_rest
unfolding run step
stopped_is_silent before later n =
    let r = (run new_player before).0 in
    let d = feel_all (run new_player before).1 at_rest in
    let k : Knows r d =
      run-Knows new_player before at_rest
        (record { sounds = λ h. cc; pulses = refl; rearms = refl; idle = λ h. (refl, refl) }) in
    run-append new_player before (stops ∷ later) at_rest
    ∙ (feel_all-append (stop r).1 (run (stop r).0 later).1 d
        ∙ rw (stop-at_rest r d k, stop-new r) (rest-silent later n))
