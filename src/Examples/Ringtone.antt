-- ===== src/Examples/Ringtone.antt =====
-- packages/calls/bridge/ringtone.ts at concrete rings.
use slothfulchat_web.Prelude.{◌+◌, ◌≡◌, refl, false, List, [], ◌∷◌, ◌++◌, count_if}
use slothfulchat_web.Calls.Ringtone.{
  no_context, no_nodes, works, vibrate_pattern, new_player, start_tone, arm, start_vibration, start,
  toggle_pulse, stop, Event, starts, stops, pulse_timer_fires, vibrate_timer_fires, step, run,
}
use slothfulchat_web.Calls.Ringtone.Balance.{
  count_of, is_creation, is_closing, broken_rings, contexts_balance,
}
use slothfulchat_web.Calls.Ringtone.Silence.{feel_all, at_rest, stopped_is_silent}

abbrev rung : List Event
rung =
    starts works
    ∷ pulse_timer_fires
    ∷ starts works
    ∷ stops
    ∷ stops
    ∷ starts no_context
    ∷ stops
    ∷ starts no_nodes
    ∷ []

-- One context is closed, and one is lost.
contexts_balance_example :
    count_of is_creation (run new_player rung).1
    ≡ count_of is_closing (run new_player rung).1
      + count_if (run new_player rung).0.graph
      + broken_rings false rung
contexts_balance_example = contexts_balance rung

made_twice : count_of is_creation (run new_player rung).1 ≡ 2
unfolding run step start start_tone start_vibration arm toggle_pulse stop vibrate_pattern
made_twice = refl

closed_once : count_of is_closing (run new_player rung).1 ≡ 1
unfolding run step start start_tone start_vibration arm toggle_pulse stop vibrate_pattern
closed_once = refl

stopped_is_silent_example :
    feel_all
      (run new_player (rung ++ stops ∷ (pulse_timer_fires ∷ vibrate_timer_fires ∷ stops ∷ []))).1
      at_rest
    ≡ at_rest
stopped_is_silent_example =
    stopped_is_silent rung (pulse_timer_fires ∷ vibrate_timer_fires ∷ stops ∷ [])
      (refl, (refl, (refl, tt)))
