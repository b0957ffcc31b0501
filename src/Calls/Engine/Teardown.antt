-- ===== src/Calls/Engine/Teardown.antt =====
-- packages/calls/engine/audio-call.ts: `end`, `teardown`, `fail` and the epochs.
use Prim.Native.String.{String}
use slothfulchat_web.Prelude.{
  ℕ, suc, Bool, true, false, Option, none, some, List, [], ◌∷◌, if◌then◌else◌,
}
use slothfulchat_web.Calls.CallState.{ended, same_state}
use slothfulchat_web.Calls.Engine.State.{
  Track, close_peer_connection, abort_gather, on_error, AudioCallEngine,
}
use slothfulchat_web.Calls.Engine.Media.{emit, move, is_epoch, stop_stream}

abbrev pub stop_all : Option (List Track) → AudioCallEngine → AudioCallEngine
stop_all none e = e
stop_all (some ts) e = stop_stream ts e

unfoldable pub release_screen_share_stream : AudioCallEngine → AudioCallEngine
release_screen_share_stream e = record (stop_all e.screen_share_stream e) {
  screen_share_stream = none;
}

abbrev close : Option ℕ → AudioCallEngine → AudioCallEngine
close none e = e
close (some n) e = emit close_peer_connection e

abbrev stop_placeholder : Option Track → AudioCallEngine → AudioCallEngine
stop_placeholder none e = e
stop_placeholder (some t) e = stop_stream (t ∷ []) e

-- The listeners of the peer connection, of the data channel and of the remote video track go with
-- `pc`, `muted_state_channel` and `remote_video_track`.
unfoldable pub teardown : AudioCallEngine → AudioCallEngine
teardown e =
    let closed =
      close e.pc (record e { remote_video_track = none; muted_state_channel = false; pc = none }) in
    let released = record (stop_all e.local_stream closed) {
      local_stream = none;
      remote_stream = none;
      pending_remote_offer = none;
    } in
    record (stop_placeholder e.placeholder_video_track released) { placeholder_video_track = none }

abbrev abort : Bool → AudioCallEngine → AudioCallEngine
abort b e = if b then emit abort_gather (record e { gather_abort = false }) else e

unfoldable pub end_call : AudioCallEngine → AudioCallEngine
end_call e =
    if same_state e.machine.current_state ended
    then e
    else let aborted = abort e.gather_abort (record (move ended e).0 { epoch = none }) in
      teardown (record (release_screen_share_stream aborted) {
        screen_sharing = false;
        camera_on = false;
        video_sender = none;
      })

unfoldable pub fail : ℕ → String → AudioCallEngine → AudioCallEngine
fail n m e = if is_epoch e.epoch n then emit (on_error m) (end_call e) else e

unfoldable pub begin_epoch : AudioCallEngine → AudioCallEngine
begin_epoch e = record e { epoch = some e.epochs; epochs = suc e.epochs; gather_abort = true }
