-- ===== src/Calls/Engine/Ended/Switching.antt =====
-- packages/calls/engine/audio-call.ts: switching devices keeps `ended` an empty state.
use Prim.Native.String.{String}
use slothfulchat_web.Prelude.{ℕ, Bool, List, arith}
use slothfulchat_web.Calls.Engine.State.{Track, Platform, AudioCallEngine, After, Outcome}
use slothfulchat_web.Calls.Engine.Media.{swap_local_audio_track}
use slothfulchat_web.Calls.Engine.Switching.{
  switch_microphone, resume_mic_media, resume_mic_replaced, switch_camera, resume_camera_media,
  resume_camera_replaced, stop_screen_share, resume_share_stopped, put_camera, set_camera_enabled,
  resume_share_cleared, resume_disable_replaced, resume_enable_media, resume_enable_replaced,
  start_screen_share, resume_share_media, resume_share_replaced, toggle_screen_share,
}
use slothfulchat_web.Calls.Engine.Ended.{
  Settled, send_local_muted_state-machine, swap_local_video_track-machine,
  remove_local_video_tracks-machine, release_screen_share_stream-machine,
}

pub switch_microphone-Settled :
    (d : String) (p : Platform) (e : AudioCallEngine)
    → Settled e
    → Settled (switch_microphone d p e).0
unfolding switch_microphone
switch_microphone-Settled d p e h = ground arith

pub resume_mic_media-Settled :
    (p : Platform) (n : ℕ) (d : String) (r : Outcome) (e : AudioCallEngine)
    → Settled e
    → Settled (resume_mic_media p n d r e).0
unfolding resume_mic_media
resume_mic_media-Settled p n d r e h = ground arith

pub resume_mic_replaced-Settled :
    (n : ℕ) (d : String) (ts : List Track) (t : Track) (r : Outcome) (e : AudioCallEngine)
    → Settled e
    → Settled (resume_mic_replaced n d ts t r e).0
unfolding resume_mic_replaced swap_local_audio_track
resume_mic_replaced-Settled n d ts t r e h = ground arith

pub switch_camera-Settled :
    (d : String) (e : AudioCallEngine) → Settled e → Settled (switch_camera d e).0
unfolding switch_camera
switch_camera-Settled d e h = ground arith

pub resume_camera_media-Settled :
    (n : ℕ) (s : ℕ) (d : String) (r : Outcome) (e : AudioCallEngine)
    → Settled e
    → Settled (resume_camera_media n s d r e).0
unfolding resume_camera_media
resume_camera_media-Settled n s d r e h = ground arith

pub resume_camera_replaced-Settled :
    (p : Platform) (n : ℕ) (d : String) (ts : List Track) (t : Track) (r : Outcome)
    (e : AudioCallEngine)
    → Settled e
    → Settled (resume_camera_replaced p n d ts t r e).0
unfolding resume_camera_replaced
resume_camera_replaced-Settled p n d ts t r e h =
    grind (arith, swap_local_video_track-machine, send_local_muted_state-machine)

pub stop_screen_share-Settled :
    (p : Platform) (k : After) (e : AudioCallEngine)
    → Settled e
    → Settled (stop_screen_share p k e).0
unfolding stop_screen_share
stop_screen_share-Settled p k e h =
    grind (arith, release_screen_share_stream-machine, send_local_muted_state-machine)

pub resume_share_stopped-Settled :
    (n : ℕ) (k : After) (r : Outcome) (e : AudioCallEngine)
    → Settled e
    → Settled (resume_share_stopped n k r e).0
unfolding resume_share_stopped
resume_share_stopped-Settled n k r e h = grind (arith, remove_local_video_tracks-machine)

pub set_camera_enabled-Settled :
    (b : Bool) (p : Platform) (e : AudioCallEngine)
    → Settled e
    → Settled (set_camera_enabled b p e).0
unfolding set_camera_enabled put_camera
set_camera_enabled-Settled b p e h = grind (arith, stop_screen_share-Settled)

pub resume_share_cleared-Settled :
    (n : ℕ) (s : ℕ) (b : Bool) (e : AudioCallEngine)
    → Settled e
    → Settled (resume_share_cleared n s b e).0
unfolding resume_share_cleared put_camera
resume_share_cleared-Settled n s b e h = ground arith

pub resume_disable_replaced-Settled :
    (p : Platform) (n : ℕ) (r : Outcome) (e : AudioCallEngine)
    → Settled e
    → Settled (resume_disable_replaced p n r e).0
unfolding resume_disable_replaced
resume_disable_replaced-Settled p n r e h =
    grind (arith, remove_local_video_tracks-machine, send_local_muted_state-machine)

pub resume_enable_media-Settled :
    (n : ℕ) (s : ℕ) (r : Outcome) (e : AudioCallEngine)
    → Settled e
    → Settled (resume_enable_media n s r e).0
unfolding resume_enable_media
resume_enable_media-Settled n s r e h = ground arith

pub resume_enable_replaced-Settled :
    (p : Platform) (n : ℕ) (ts : List Track) (t : Track) (r : Outcome) (e : AudioCallEngine)
    → Settled e
    → Settled (resume_enable_replaced p n ts t r e).0
unfolding resume_enable_replaced
resume_enable_replaced-Settled p n ts t r e h =
    grind (arith, swap_local_video_track-machine, send_local_muted_state-machine)

pub start_screen_share-Settled :
    (e : AudioCallEngine) → Settled e → Settled (start_screen_share e).0
unfolding start_screen_share
start_screen_share-Settled e h = ground arith

pub resume_share_media-Settled :
    (n : ℕ) (s : ℕ) (r : Outcome) (e : AudioCallEngine)
    → Settled e
    → Settled (resume_share_media n s r e).0
unfolding resume_share_media
resume_share_media-Settled n s r e h = ground arith

pub resume_share_replaced-Settled :
    (p : Platform) (n : ℕ) (ts : List Track) (t : Track) (r : Outcome) (e : AudioCallEngine)
    → Settled e
    → Settled (resume_share_replaced p n ts t r e).0
unfolding resume_share_replaced
resume_share_replaced-Settled p n ts t r e h =
    grind (arith, swap_local_video_track-machine, send_local_muted_state-machine)

pub toggle_screen_share-Settled :
    (p : Platform) (e : AudioCallEngine) → Settled e → Settled (toggle_screen_share p e).0
unfolding toggle_screen_share
toggle_screen_share-Settled p e h =
    grind (arith, stop_screen_share-Settled, start_screen_share-Settled)
