-- ===== src/Examples/Engine.antt =====
-- packages/calls/engine/audio-call.ts at concrete calls.
use slothfulchat_web.Prelude.{◌≡◌, refl, true, false, none, some, [], ◌∷◌, ◌++◌, keep, head}
use slothfulchat_web.Calls.Engine.State.{
  replace_track, camera_media, camera_replaced, disable_replaced, audio, video, Track, connected,
  Platform, AudioCallEngine, AudioCallOptions, placing, first_media, resolved, Reply, goes, throws,
  new_engine,
}
use slothfulchat_web.Calls.CallState.{CallState, new_machine, notify, transition, subscribe}
use slothfulchat_web.Calls.Engine.Media.{move}
use slothfulchat_web.Calls.Engine.Teardown.{
  end_call, begin_epoch, teardown, release_screen_share_stream,
}
use slothfulchat_web.Calls.Engine.Setup.{
  acquire_initial_local_stream, adopt, place_call, resume_first_media,
}
use slothfulchat_web.Calls.Engine.Switching.{
  switch_camera, set_camera_enabled, resume_camera_media, resume_camera_replaced,
  resume_disable_replaced, resume_enable_replaced, resume_share_replaced,
}
use slothfulchat_web.Calls.Engine.World.{
  Call, places, ends, perform, resume, pended, World, call, settle, Reach, here, next, fresh_world,
}
use slothfulchat_web.Calls.Engine.Ended.{IsReleased, HasEnded}
use slothfulchat_web.Calls.Engine.Ended.Steps.{Reach-IsReleased}
use slothfulchat_web.Calls.Engine.Quiet.{is_loud}
use slothfulchat_web.Calls.Engine.Quiet.Steps.{ended_is_quiet}
use slothfulchat_web.Calls.Engine.Tracks.{is_stopped}
use slothfulchat_web.Calls.Engine.Camera.{switch_reenables_camera, camera_and_share}
use slothfulchat_web.Calls.Engine.Failing.{FailsSoftly, switching-FailsSoftly}

abbrev pub options : AudioCallOptions
options = record {
  audio_constraints = none;
  audio_input_device_id = none;
  has_video = some true;
  video_constraints = none;
  video_input_device_id = none;
  get_display_media = true;
  create_placeholder_video_track = true;
  on_state_change = some 7;
}

abbrev pub platform : Platform
platform = record {
  channel_open = true;
  connection_state = connected;
  local_sdp = some "v=0";
  senders = record { id = 1; track = some audio } ∷ record { id = 2; track = none } ∷ [];
  transceivers =
      record { id = 5; sender = 2; receives = some video; current_direction = none } ∷ [];
  added_sender = 3;
  peer_connection_error = none;
  placeholder = record { id = 90; kind = video };
}

abbrev pub mic : Track
mic = record { id = 10; kind = audio }

abbrev pub cam : Track
cam = record { id = 11; kind = video }

abbrev pub screen : Track
screen = record { id = 12; kind = video }

-- A call that does not throw, taken as a function.
abbrev gone : Reply → World → World
gone (goes e t) w = record { engine = e; pending = pended t ++ w.pending; granted = w.granted }
gone (throws m) w = w

abbrev called : Call → World → World
called c w = gone (perform platform c w.engine) w

abbrev placed : World
placed = called places (fresh_world options)

abbrev hung_up : World
hung_up = called ends placed

-- The microphone and the camera arrive after the user has hung up.
abbrev late : World
late = record {
  engine = (resume platform (first_media placing 0) (resolved (mic ∷ cam ∷ [])) hung_up.engine).0;
  pending = [];
  granted = mic ∷ cam ∷ [];
}

Reach-hung_up : Reach (fresh_world options) hung_up
unfolding fresh_world new_engine new_machine subscribe perform place_call begin_epoch move
    transition notify acquire_initial_local_stream end_call teardown release_screen_share_stream
Reach-hung_up = next (next here (call platform places _ _ refl)) (call platform ends _ _ refl)

Reach-late : Reach hung_up late
unfolding fresh_world new_engine new_machine subscribe perform place_call begin_epoch move
    transition notify acquire_initial_local_stream end_call teardown release_screen_share_stream
    resume resume_first_media adopt
Reach-late =
    next here (settle platform [] (first_media placing 0) [] (resolved (mic ∷ cam ∷ [])) refl tt)

hung_up_HasEnded : HasEnded hung_up.engine
unfolding fresh_world new_engine new_machine subscribe perform place_call begin_epoch move
    transition notify acquire_initial_local_stream end_call teardown release_screen_share_stream
hung_up_HasEnded = refl

Reach-IsReleased_example : IsReleased hung_up.engine
Reach-IsReleased_example = Reach-IsReleased options Reach-hung_up hung_up_HasEnded

ended_is_quiet_example :
    (late.engine.machine ≡ hung_up.engine.machine)
    × (keep is_loud late.engine.log ≡ keep is_loud hung_up.engine.log)
ended_is_quiet_example = ended_is_quiet options Reach-hung_up hung_up_HasEnded Reach-late

-- An engine in a connected call.
abbrev in_call : AudioCallEngine
unfolding new_engine new_machine subscribe
in_call = record (new_engine options) {
  machine = record { current_state = CallState.connected; listeners = [] };
  epoch = some 0;
  epochs = 1;
  pc = some 0;
  local_stream = some (mic ∷ []);
  video_sender = some 2;
}

-- The same call with its camera on.
abbrev filming : AudioCallEngine
unfolding in_call
filming = record in_call { local_stream = some (mic ∷ cam ∷ []); camera_on = true }

switch_reenables_camera_example :
    let switching = switch_camera "front" filming in
    let disabling = set_camera_enabled false platform switching.0 in
    let off = resume_disable_replaced platform 0 (resolved []) disabling.0 in
    let got = resume_camera_media 0 2 "front" (resolved (cam ∷ [])) off.0 in
    let on = resume_camera_replaced platform 0 "front" (cam ∷ []) cam (resolved []) got.0 in
    (switching.1 ≡ some (camera_media 0 2 "front"))
    × (disabling.1 ≡ some (disable_replaced 0))
    × (off.0.camera_on ≡ false)
    × (got.1 ≡ some (camera_replaced 0 "front" (cam ∷ []) cam))
    × (head got.0.log ≡ some (replace_track 2 (some cam)))
    × (on.0.camera_on ≡ true)
unfolding filming
switch_reenables_camera_example =
    switch_reenables_camera platform platform platform 0 2 "front" (cam ∷ []) [] [] cam filming refl
      refl refl refl refl

camera_and_share_example :
    let shared = (resume_share_replaced platform 0 (screen ∷ []) screen (resolved []) in_call).0 in
    let both = (resume_enable_replaced platform 0 (cam ∷ []) cam (resolved []) shared).0 in
    (both.camera_on ≡ true) × (both.screen_sharing ≡ true) × (is_stopped 12 both.log ≡ true)
unfolding in_call
camera_and_share_example =
    camera_and_share platform platform 0 (screen ∷ []) [] (cam ∷ []) [] (mic ∷ []) screen cam
      in_call refl refl refl

switching-FailsSoftly_example :
    FailsSoftly in_call
      (mic ∷ [])
      10
      (resume platform (camera_media 0 2 "front") (resolved (mic ∷ [])) in_call).0
unfolding in_call
switching-FailsSoftly_example =
    switching-FailsSoftly platform (camera_media 0 2 "front") (resolved (mic ∷ [])) in_call 10 refl
      refl
