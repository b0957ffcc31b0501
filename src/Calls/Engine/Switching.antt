-- ===== src/Calls/Engine/Switching.antt =====
-- packages/calls/engine/audio-call.ts: switching devices, the camera and the screen share in a
-- call, cut at each await.
use Prim.Native.String.{String}
use slothfulchat_web.Prelude.{
  ℕ, Bool, true, false, not, Option, none, some, List, [], ◌∷◌, if◌then◌else◌, head,
}
use slothfulchat_web.Calls.CallState.{ended, same_state}
use slothfulchat_web.Calls.Engine.State.{
  audio, Track, plain, Platform, get_user_media, get_display_media, set_enabled, replace_track,
  on_local_track_changed, on_local_video_track_changed, on_screen_share_changed, AudioCallEngine,
  After, nothing, set_camera, Task, mic_media, camera_media, mic_replaced, camera_replaced,
  enable_media, share_media, disable_replaced, enable_replaced, share_replaced, share_stopped,
  share_cleared, Outcome, resolved, rejected,
}
use slothfulchat_web.Calls.Engine.Media.{
  audio_tracks, video_tracks, emit, message, audio_constraints_for, video_constraints_for,
  ensure_active, stop_stream, send_local_muted_state, swap_local_video_track,
  remove_local_video_tracks, swap_local_audio_track, report_device_switch_error,
  report_screen_share_error,
}
use slothfulchat_web.Calls.Engine.Teardown.{release_screen_share_stream}
use slothfulchat_web.Calls.Engine.Setup.{Cut, sender_of}

-- `epoch == null || this.machine.isTerminal`
abbrev pub live_epoch : AudioCallEngine → Option ℕ
live_epoch e = if same_state e.machine.current_state ended then none else e.epoch

-- switchMicrophone

abbrev mic_from : String → Platform → Option ℕ → AudioCallEngine → ℕ → Cut
mic_from d p none e n =
    (report_device_switch_error "switchMicrophone: no active peer connection yet" e, none)
mic_from d p (some c) e n = (
  emit (get_user_media (record { audio = audio_constraints_for e (some d); video = plain false }))
      e,
  some (mic_media n d),
)

unfoldable pub switch_microphone : String → Platform → AudioCallEngine → Cut
switch_microphone d p e = elim (live_epoch e) [ none ↦ (e, none) | some n ↦ mic_from d p e.pc e n ]

abbrev mic_sent : ℕ → String → List Track → Track → Option ℕ → AudioCallEngine → Cut
mic_sent n d ts t none e = (
  report_device_switch_error "switchMicrophone: no audio sender to replace" (stop_stream ts e),
  none,
)
mic_sent n d ts t (some s) e = (emit (replace_track s (some t)) e, some (mic_replaced n d ts t))

abbrev mic_track : Platform → ℕ → String → List Track → Option Track → AudioCallEngine → Cut
mic_track p n d ts none e = (
  report_device_switch_error "switchMicrophone: the new stream had no audio track"
      (stop_stream ts e),
  none,
)
mic_track p n d ts (some t) e =
    mic_sent n d ts t (sender_of audio p.senders) (emit (set_enabled (t ∷ []) (not e.muted)) e)

unfoldable pub resume_mic_media : Platform → ℕ → String → Outcome → AudioCallEngine → Cut
resume_mic_media p n d (rejected x) e = (report_device_switch_error (message x) e, none)
resume_mic_media p n d (resolved ts) e =
    if ensure_active e n
    then mic_track p n d ts (head (audio_tracks ts)) e
    else (stop_stream ts e, none)

unfoldable pub resume_mic_replaced :
    ℕ → String → List Track → Track → Outcome → AudioCallEngine → Cut
resume_mic_replaced n d ts t (rejected x) e =
    (report_device_switch_error (message x) (stop_stream ts e), none)
resume_mic_replaced n d ts t (resolved us) e =
    if ensure_active e n
    then (
      emit (on_local_track_changed t)
          (record (swap_local_audio_track ts t e) { selected_audio_input = some d }),
      none,
    )
    else (stop_stream ts e, none)

-- switchCamera

abbrev camera_from : String → ℕ → Option ℕ → AudioCallEngine → Cut
camera_from d n none e =
    (report_device_switch_error "switchCamera: no active video sender yet" e, none)
camera_from d n (some s) e = (
  emit (get_user_media (record { audio = plain false; video = video_constraints_for e (some d) }))
      e,
  some (camera_media n s d),
)

unfoldable pub switch_camera : String → AudioCallEngine → Cut
switch_camera d e = elim (live_epoch e) [
  | none ↦ (e, none)
  | some n ↦
      if e.screen_sharing
      then (record e { selected_video_input = some d }, none)
      else if not e.camera_on
      then (record e { selected_video_input = some d }, none)
      else camera_from d n e.video_sender e
]

abbrev camera_track : ℕ → ℕ → String → List Track → Option Track → AudioCallEngine → Cut
camera_track n s d ts none e = (
  report_device_switch_error "switchCamera: the new stream had no video track" (stop_stream ts e),
  none,
)
camera_track n s d ts (some t) e =
    (emit (replace_track s (some t)) e, some (camera_replaced n d ts t))

unfoldable pub resume_camera_media : ℕ → ℕ → String → Outcome → AudioCallEngine → Cut
resume_camera_media n s d (rejected x) e = (report_device_switch_error (message x) e, none)
resume_camera_media n s d (resolved ts) e =
    if ensure_active e n
    then camera_track n s d ts (head (video_tracks ts)) e
    else (stop_stream ts e, none)

abbrev sent_if : Bool → Platform → AudioCallEngine → AudioCallEngine
sent_if b p e = if b then send_local_muted_state p e else e

unfoldable pub resume_camera_replaced :
    Platform → ℕ → String → List Track → Track → Outcome → AudioCallEngine → Cut
resume_camera_replaced p n d ts t (rejected x) e =
    (report_device_switch_error (message x) (stop_stream ts e), none)
resume_camera_replaced p n d ts t (resolved us) e =
    if ensure_active e n
    then (
      emit (on_local_video_track_changed (some t)) (
          sent_if (not e.camera_on) p (record (swap_local_video_track t e) {
            selected_video_input = some d;
            camera_on = true;
          })),
      none,
    )
    else (stop_stream ts e, none)

-- stopScreenShare, with what follows it in its caller

abbrev followed : After → Option Task
followed nothing = none
followed (set_camera n s enabled) = some (share_cleared n s enabled)

abbrev clear_sender : Option ℕ → Option ℕ → After → AudioCallEngine → Cut
clear_sender none s k e = (e, followed k)
clear_sender (some n) none k e = (e, followed k)
clear_sender (some n) (some s) k e =
    (emit (replace_track s e.placeholder_video_track) e, some (share_stopped n k))

unfoldable pub stop_screen_share : Platform → After → AudioCallEngine → Cut
stop_screen_share p k e =
    if e.screen_sharing
    then (let stopped = emit (on_screen_share_changed false) (
          send_local_muted_state p
            (record (release_screen_share_stream e) { screen_sharing = false })) in
        clear_sender (live_epoch stopped) stopped.video_sender k stopped)
    else (e, followed k)

unfoldable pub resume_share_stopped : ℕ → After → Outcome → AudioCallEngine → Cut
resume_share_stopped n k (rejected x) e = (report_screen_share_error (message x) e, followed k)
resume_share_stopped n k (resolved us) e =
    if ensure_active e n
    then (emit (on_local_video_track_changed none) (remove_local_video_tracks e), followed k)
    else (e, followed k)

-- setCameraEnabled

-- From `if (!enabled)` on.
unfoldable pub put_camera : ℕ → ℕ → Bool → AudioCallEngine → Cut
put_camera n s false e =
    (emit (replace_track s e.placeholder_video_track) e, some (disable_replaced n))
put_camera n s true e = (
  emit
      (get_user_media
        (record { audio = plain false; video = video_constraints_for e e.selected_video_input }))
      e,
  some (enable_media n s),
)

abbrev same_bool : Bool → Bool → Bool
same_bool true b = b
same_bool false b = not b

abbrev camera_to : Bool → Platform → ℕ → Option ℕ → AudioCallEngine → Cut
camera_to enabled p n none e =
    (report_device_switch_error "setCameraEnabled: no active video sender" e, none)
camera_to enabled p n (some s) e =
    if same_bool enabled e.camera_on
    then (e, none)
    else if e.screen_sharing
    then stop_screen_share p (set_camera n s enabled) e
    else put_camera n s enabled e

unfoldable pub set_camera_enabled : Bool → Platform → AudioCallEngine → Cut
set_camera_enabled enabled p e = elim (live_epoch e) [
  | none ↦ (e, none)
  | some n ↦ camera_to enabled p n e.video_sender e
]

unfoldable pub resume_share_cleared : ℕ → ℕ → Bool → AudioCallEngine → Cut
resume_share_cleared n s enabled e =
    if ensure_active e n then put_camera n s enabled e else (e, none)

unfoldable pub resume_disable_replaced : Platform → ℕ → Outcome → AudioCallEngine → Cut
resume_disable_replaced p n (rejected x) e = (report_device_switch_error (message x) e, none)
resume_disable_replaced p n (resolved us) e =
    if ensure_active e n
    then (
      emit (on_local_video_track_changed none)
          (send_local_muted_state p (record (remove_local_video_tracks e) { camera_on = false })),
      none,
    )
    else (e, none)

abbrev enable_track : ℕ → ℕ → List Track → Option Track → AudioCallEngine → Cut
enable_track n s ts none e = (
  report_device_switch_error "setCameraEnabled: the new stream had no video track"
      (stop_stream ts e),
  none,
)
enable_track n s ts (some t) e = (emit (replace_track s (some t)) e, some (enable_replaced n ts t))

unfoldable pub resume_enable_media : ℕ → ℕ → Outcome → AudioCallEngine → Cut
resume_enable_media n s (rejected x) e = (report_device_switch_error (message x) e, none)
resume_enable_media n s (resolved ts) e =
    if ensure_active e n
    then enable_track n s ts (head (video_tracks ts)) e
    else (stop_stream ts e, none)

unfoldable pub resume_enable_replaced :
    Platform → ℕ → List Track → Track → Outcome → AudioCallEngine → Cut
resume_enable_replaced p n ts t (rejected x) e =
    (report_device_switch_error (message x) (stop_stream ts e), none)
resume_enable_replaced p n ts t (resolved us) e =
    if ensure_active e n
    then (
      emit (on_local_video_track_changed (some t))
          (send_local_muted_state p (record (swap_local_video_track t e) { camera_on = true })),
      none,
    )
    else (stop_stream ts e, none)

-- startScreenShare

abbrev share_from : ℕ → Option ℕ → AudioCallEngine → Cut
share_from n none e = (
  report_screen_share_error "startScreenShare: this call has no outgoing video to replace" e,
  none,
)
share_from n (some s) e =
    if e.can_share
    then (emit get_display_media e, some (share_media n s))
    else (report_screen_share_error "startScreenShare: screen capture is not available" e, none)

unfoldable pub start_screen_share : AudioCallEngine → Cut
start_screen_share e = elim (live_epoch e) [
  | none ↦ (e, none)
  | some n ↦ if e.screen_sharing then (e, none) else share_from n e.video_sender e
]

abbrev share_track : ℕ → ℕ → List Track → Option Track → AudioCallEngine → Cut
share_track n s ts none e = (
  report_screen_share_error "startScreenShare: capture had no video track" (stop_stream ts e),
  none,
)
share_track n s ts (some t) e = (emit (replace_track s (some t)) e, some (share_replaced n ts t))

unfoldable pub resume_share_media : ℕ → ℕ → Outcome → AudioCallEngine → Cut
resume_share_media n s (rejected x) e = (report_screen_share_error (message x) e, none)
resume_share_media n s (resolved ts) e =
    if ensure_active e n
    then share_track n s ts (head (video_tracks ts)) e
    else (stop_stream ts e, none)

-- The `ended` listener of the captured track is a later call of `stop_screen_share`.
unfoldable pub resume_share_replaced :
    Platform → ℕ → List Track → Track → Outcome → AudioCallEngine → Cut
resume_share_replaced p n ts t (rejected x) e =
    (report_screen_share_error (message x) (stop_stream ts e), none)
resume_share_replaced p n ts t (resolved us) e =
    if ensure_active e n
    then (
      emit (on_local_video_track_changed (some t)) (
          emit (on_screen_share_changed true) (
            send_local_muted_state p (record (swap_local_video_track t e) {
              screen_share_stream = some ts;
              screen_sharing = true;
              camera_on = false;
            }))),
      none,
    )
    else (stop_stream ts e, none)

unfoldable pub toggle_screen_share : Platform → AudioCallEngine → Cut
toggle_screen_share p e =
    if e.screen_sharing then stop_screen_share p nothing e else start_screen_share e
