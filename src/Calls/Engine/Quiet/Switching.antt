-- ===== src/Calls/Engine/Quiet/Switching.antt =====
-- packages/calls/engine/audio-call.ts: switching devices in an ended call.
use Prim.Native.String.{String}
use slothfulchat_web.Prelude.{ℕ, Bool, List, arith}
use slothfulchat_web.Calls.Engine.State.{Track, Platform, AudioCallEngine, After, nothing, Outcome}
use slothfulchat_web.Calls.Engine.Media.{send_local_muted_state}
use slothfulchat_web.Calls.Engine.Teardown.{release_screen_share_stream}
use slothfulchat_web.Calls.Engine.Switching.{
  switch_microphone, resume_mic_media, resume_mic_replaced, switch_camera, resume_camera_media,
  resume_camera_replaced, stop_screen_share, resume_share_stopped, put_camera, set_camera_enabled,
  resume_share_cleared, resume_disable_replaced, resume_enable_media, resume_enable_replaced,
  start_screen_share, resume_share_media, resume_share_replaced, toggle_screen_share,
}
use slothfulchat_web.Calls.Engine.Ended.{IsReleased, HasEnded}
use slothfulchat_web.Calls.Engine.Quiet.{Quiet}

module _ (e : AudioCallEngine) (h : HasEnded e) (g : IsReleased e) where
  pub switch_microphone-Quiet : (d : String) (p : Platform) → Quiet e (switch_microphone d p e).0
  unfolding switch_microphone
  switch_microphone-Quiet d p = ground arith

  pub resume_mic_media-Quiet :
      (p : Platform) (n : ℕ) (d : String) (r : Outcome) → Quiet e (resume_mic_media p n d r e).0
  unfolding resume_mic_media
  resume_mic_media-Quiet p n d r = ground arith

  pub resume_mic_replaced-Quiet :
      (n : ℕ) (d : String) (ts : List Track) (t : Track) (r : Outcome)
      → Quiet e (resume_mic_replaced n d ts t r e).0
  unfolding resume_mic_replaced
  resume_mic_replaced-Quiet n d ts t r = ground arith

  pub switch_camera-Quiet : (d : String) → Quiet e (switch_camera d e).0
  unfolding switch_camera
  switch_camera-Quiet d = ground arith

  pub resume_camera_media-Quiet :
      (n : ℕ) (s : ℕ) (d : String) (r : Outcome) → Quiet e (resume_camera_media n s d r e).0
  unfolding resume_camera_media
  resume_camera_media-Quiet n s d r = ground arith

  pub resume_camera_replaced-Quiet :
      (p : Platform) (n : ℕ) (d : String) (ts : List Track) (t : Track) (r : Outcome)
      → Quiet e (resume_camera_replaced p n d ts t r e).0
  unfolding resume_camera_replaced
  resume_camera_replaced-Quiet p n d ts t r = ground arith

  pub stop_screen_share-Quiet : (p : Platform) (k : After) → Quiet e (stop_screen_share p k e).0
  unfolding stop_screen_share release_screen_share_stream send_local_muted_state
  stop_screen_share-Quiet p k = ground arith

  pub resume_share_stopped-Quiet :
      (n : ℕ) (k : After) (r : Outcome) → Quiet e (resume_share_stopped n k r e).0
  unfolding resume_share_stopped
  resume_share_stopped-Quiet n k r = ground arith

  pub set_camera_enabled-Quiet : (b : Bool) (p : Platform) → Quiet e (set_camera_enabled b p e).0
  unfolding set_camera_enabled put_camera stop_screen_share release_screen_share_stream
      send_local_muted_state
  set_camera_enabled-Quiet b p = ground arith

  pub resume_share_cleared-Quiet :
      (n : ℕ) (s : ℕ) (b : Bool) → Quiet e (resume_share_cleared n s b e).0
  unfolding resume_share_cleared
  resume_share_cleared-Quiet n s b = ground arith

  pub resume_disable_replaced-Quiet :
      (p : Platform) (n : ℕ) (r : Outcome) → Quiet e (resume_disable_replaced p n r e).0
  unfolding resume_disable_replaced
  resume_disable_replaced-Quiet p n r = ground arith

  pub resume_enable_media-Quiet :
      (n : ℕ) (s : ℕ) (r : Outcome) → Quiet e (resume_enable_media n s r e).0
  unfolding resume_enable_media
  resume_enable_media-Quiet n s r = ground arith

  pub resume_enable_replaced-Quiet :
      (p : Platform) (n : ℕ) (ts : List Track) (t : Track) (r : Outcome)
      → Quiet e (resume_enable_replaced p n ts t r e).0
  unfolding resume_enable_replaced
  resume_enable_replaced-Quiet p n ts t r = ground arith

  pub start_screen_share-Quiet : Quiet e (start_screen_share e).0
  unfolding start_screen_share
  start_screen_share-Quiet = ground arith

  pub resume_share_media-Quiet :
      (n : ℕ) (s : ℕ) (r : Outcome) → Quiet e (resume_share_media n s r e).0
  unfolding resume_share_media
  resume_share_media-Quiet n s r = ground arith

  pub resume_share_replaced-Quiet :
      (p : Platform) (n : ℕ) (ts : List Track) (t : Track) (r : Outcome)
      → Quiet e (resume_share_replaced p n ts t r e).0
  unfolding resume_share_replaced
  resume_share_replaced-Quiet p n ts t r = ground arith

  pub toggle_screen_share-Quiet : (p : Platform) → Quiet e (toggle_screen_share p e).0
  unfolding toggle_screen_share
  toggle_screen_share-Quiet p =
      ground (arith, stop_screen_share-Quiet p nothing, start_screen_share-Quiet)
