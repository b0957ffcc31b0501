-- ===== src/Examples/Offers.antt =====
-- packages/calls/engine/audio-call.ts: calls whose set-up succeeds.
use slothfulchat_web.Prelude.{◌≡◌, refl, false, Option, some, [], ◌∷◌}
use slothfulchat_web.Calls.CallState.{ringing, incoming, new_machine, subscribe}
use slothfulchat_web.Calls.Engine.State.{
  on_local_offer, on_local_answer, AudioCallEngine, Task, goes, new_engine,
}
use slothfulchat_web.Calls.Engine.Setup.{place_call, accept}
use slothfulchat_web.Calls.Signaling.{assert_non_empty_sdp}
use slothfulchat_web.Calls.Engine.Offers.{drive, descriptions}
use slothfulchat_web.Calls.Engine.Offers.Sends.{place_call-sends, accept-sends}
use slothfulchat_web.Examples.Engine.{options, platform, mic, cam}

place_call-sends_example :
    (f : AudioCallEngine) × (t : Option Task) × (place_call (new_engine options) ≡ goes f t)
    × (descriptions (drive platform (mic ∷ cam ∷ []) 7 (f, t))
        ≡ on_local_offer "v=0" ∷ descriptions (new_engine options))
unfolding new_engine new_machine subscribe assert_non_empty_sdp
place_call-sends_example =
    place_call-sends platform (mic ∷ cam ∷ []) "v=0" (new_engine options) refl refl refl refl

abbrev called : AudioCallEngine
unfolding new_engine new_machine subscribe
called = record (new_engine options) {
  machine = record { current_state = ringing; listeners = [] };
  direction = some incoming;
  pending_remote_offer = some "v=1";
  epoch = some 0;
  epochs = 1;
}

accept-sends_example :
    (f : AudioCallEngine) × (t : Option Task) × (accept false called ≡ goes f t)
    × (descriptions (drive platform (mic ∷ []) 7 (f, t))
        ≡ on_local_answer "v=0" ∷ descriptions called)
unfolding called assert_non_empty_sdp
accept-sends_example =
    accept-sends platform (mic ∷ []) "v=0" called refl refl refl false "v=1" 0
      (record { direction = refl; state = refl; offer = refl; epoch = refl })
