-- ===== src/Calls/Engine/Quiet.antt =====
-- packages/calls/engine/audio-call.ts: what the calls and continuations of an ended engine still do.
pub mod Switching
pub mod Setup
pub mod Steps
use Prim.Native.String.{String}
use slothfulchat_web.Prelude.{◌≡◌, Bool, true, false, keep}
use slothfulchat_web.Calls.Engine.State.{
  Effect, get_user_media, stop_tracks, on_device_switch_error, on_screen_share_error,
  AudioCallEngine,
}

-- Every effect but these four: stopping tracks, asking for a microphone, and the two reports of
-- errors that do not end a call.
abbrev pub is_loud : Effect → Bool
is_loud (stop_tracks ts) = false
is_loud (get_user_media r) = false
is_loud (on_device_switch_error m) = false
is_loud (on_screen_share_error m) = false
is_loud _ = true

-- The machine stays, and no loud effect comes on top.
abbrev pub Quiet : AudioCallEngine → AudioCallEngine → Type 0
Quiet e f = (f.machine ≡ e.machine) × (keep is_loud f.log ≡ keep is_loud e.log)
