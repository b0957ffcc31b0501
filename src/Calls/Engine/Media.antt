-- ===== src/Calls/Engine/Media.antt =====
-- packages/calls/engine/audio-call.ts: the helpers on streams and constraints, and the reports.
use Prim.Native.String.{String}
use slothfulchat_web.Prelude.{
  ℕ, ◌==◌, Bool, true, false, not, ◌&&◌, ◌||◌, Option, none, some, List, [], ◌∷◌, ◌++◌,
  if◌then◌else◌, keep, head,
}
use slothfulchat_web.Calls.CallState.{CallState, ended, same_state, transition}
use slothfulchat_web.Calls.Engine.State.{
  audio, video, Track, Thrown, error, value, Constraints, plain, members, Request, Platform, Effect,
  stop_tracks, set_enabled, send_muted_state, on_state_change, on_device_switch_error,
  on_screen_share_error, on_local_track_changed, on_local_video_track_changed, AudioCallEngine,
}

abbrev pub is_audio : Track → Bool
is_audio t = elim t.kind [ audio ↦ true | video ↦ false ]

abbrev pub is_video : Track → Bool
is_video t = elim t.kind [ audio ↦ false | video ↦ true ]

-- `stream.getAudioTracks()`, `stream.getVideoTracks()`
abbrev pub audio_tracks : List Track → List Track
audio_tracks = keep is_audio

abbrev pub video_tracks : List Track → List Track
video_tracks = keep is_video

abbrev pub emit : Effect → AudioCallEngine → AudioCallEngine
emit x e = record e { log = x ∷ e.log }

-- `error instanceof Error ? error : new Error(String(error))`, by its message
abbrev pub message : Thrown → String
message (error m) = m
message (value t) = t

-- `this.machine.transition(to)`
unfoldable pub move : CallState → AudioCallEngine → AudioCallEngine × Bool
move to e =
    let (m, changed, calls) = transition e.machine to in
    (record e { machine = m; log = on_state_change calls ∷ e.log }, changed)

-- `{ ...base, deviceId: { exact } }`
abbrev with_device : Constraints → String → Constraints
with_device (plain b) d = members [] (some d)
with_device (members ms old) d = members ms (some d)

abbrev constraints_for : Constraints → Option String → Constraints
constraints_for c none = c
constraints_for c (some d) = with_device c d

abbrev pub audio_constraints_for : AudioCallEngine → Option String → Constraints
audio_constraints_for e d = constraints_for e.audio_constraints d

abbrev pub video_constraints_for : AudioCallEngine → Option String → Constraints
video_constraints_for e d = constraints_for e.video_constraints d

abbrev pub media_constraints : AudioCallEngine → Request
media_constraints e = record {
  audio = audio_constraints_for e e.selected_audio_input;
  video = if e.wants_video then video_constraints_for e e.selected_video_input else plain false;
}

-- Whether `epoch` is the live call's and the machine has not ended.
abbrev pub is_epoch : Option ℕ → ℕ → Bool
is_epoch none n = false
is_epoch (some m) n = m == n

abbrev pub ensure_active : AudioCallEngine → ℕ → Bool
ensure_active e n = is_epoch e.epoch n && not (same_state e.machine.current_state ended)

abbrev pub stop_stream : List Track → AudioCallEngine → AudioCallEngine
stop_stream ts e = emit (stop_tracks ts) e

unfoldable pub apply_muted_to_local_stream : AudioCallEngine → AudioCallEngine
apply_muted_to_local_stream e = elim e.local_stream [
  | none ↦ e
  | some ts ↦ emit (set_enabled (audio_tracks ts) (not e.muted)) e
]

-- A send that throws is swallowed.
unfoldable pub send_local_muted_state : Platform → AudioCallEngine → AudioCallEngine
send_local_muted_state p e =
    if e.muted_state_channel && p.channel_open
    then emit (send_muted_state (not e.muted) (e.camera_on || e.screen_sharing)) e
    else e

unfoldable pub set_muted : Platform → Bool → AudioCallEngine → AudioCallEngine
unfolding apply_muted_to_local_stream send_local_muted_state
set_muted p m e = send_local_muted_state p (apply_muted_to_local_stream (record e { muted = m }))

unfoldable pub toggle_muted : Platform → AudioCallEngine → AudioCallEngine × Bool
unfolding set_muted
toggle_muted p e = let e' = set_muted p (not e.muted) e in (e', e'.muted)

-- The tracks of `localStream` after a swap: those of the other kind, and the new one.
unfoldable pub swap_local_video_track : Track → AudioCallEngine → AudioCallEngine
swap_local_video_track t e = elim e.local_stream [
  | none ↦ e
  | some ts ↦
      stop_stream (video_tracks ts) (record e { local_stream = some (audio_tracks ts ++ t ∷ []) })
]

unfoldable pub remove_local_video_tracks : AudioCallEngine → AudioCallEngine
remove_local_video_tracks e = elim e.local_stream [
  | none ↦ e
  | some ts ↦ stop_stream (video_tracks ts) (record e { local_stream = some (audio_tracks ts) })
]

-- The swap of `switchMicrophone`, where a missing `localStream` becomes the new stream.
unfoldable pub swap_local_audio_track : List Track → Track → AudioCallEngine → AudioCallEngine
swap_local_audio_track new t e = elim e.local_stream [
  | none ↦ record e { local_stream = some new }
  | some ts ↦
      stop_stream (audio_tracks ts) (record e { local_stream = some (video_tracks ts ++ t ∷ []) })
]

abbrev pub report_device_switch_error : String → AudioCallEngine → AudioCallEngine
report_device_switch_error m e = emit (on_device_switch_error m) e

abbrev pub report_screen_share_error : String → AudioCallEngine → AudioCallEngine
report_screen_share_error m e = emit (on_screen_share_error m) e

abbrev told_audio : Option Track → AudioCallEngine → AudioCallEngine
told_audio none e = e
told_audio (some t) e = emit (on_local_track_changed t) e

abbrev told_video : Option Track → AudioCallEngine → AudioCallEngine
told_video none e = e
told_video (some t) e = emit (on_local_video_track_changed (some t)) e

unfoldable pub notify_local_track_changed : List Track → AudioCallEngine → AudioCallEngine
notify_local_track_changed ts e =
    told_video (head (video_tracks ts)) (told_audio (head (audio_tracks ts)) e)

abbrev flushed : Option String → ℕ → AudioCallEngine → AudioCallEngine
flushed none n e = e
flushed (some m) n e = if ensure_active e n then report_device_switch_error m e else e

unfoldable pub flush_camera_start_error : ℕ → AudioCallEngine → AudioCallEngine
flush_camera_start_error n e =
    flushed e.pending_camera_start_error n (record e { pending_camera_start_error = none })
