-- ===== src/Calls/Engine/Camera.antt =====
-- packages/calls/engine/audio-call.ts: the outgoing video when switches overlap, and when they fail.
use Prim.Native.String.{String}
use slothfulchat_web.Prelude.{ℕ, ◌≡◌, ◌∙◌, true, false, some, head, List, [], ◌∷◌, ◌++◌, arith}
use slothfulchat_web.Calls.Engine.State.{
  replace_track, video, Track, Platform, AudioCallEngine, camera_media, camera_replaced,
  disable_replaced, resolved,
}
use slothfulchat_web.Calls.Engine.Media.{
  audio_tracks, video_tracks, ensure_active, send_local_muted_state, swap_local_video_track,
  remove_local_video_tracks,
}
use slothfulchat_web.Calls.Engine.Switching.{
  live_epoch, switch_camera, put_camera, set_camera_enabled, resume_camera_media,
  resume_camera_replaced, resume_disable_replaced, resume_enable_replaced, resume_share_replaced,
}
use slothfulchat_web.Calls.Engine.Tracks.{has_track, is_stopped}

live-ensure_active :
    (e : AudioCallEngine) (n : ℕ) → live_epoch e ≡ some n → ensure_active e n ≡ true
live-ensure_active e n h = ground arith

switched_lem :
    (n s : ℕ) (d : String) (e : AudioCallEngine)
    → live_epoch e ≡ some n
    → e.video_sender ≡ some s
    → e.camera_on ≡ true
    → e.screen_sharing ≡ false
    → let f = (switch_camera d e).0 in
      ((switch_camera d e).1 ≡ some (camera_media n s d))
      × (live_epoch f ≡ some n)
      × (f.video_sender ≡ some s)
      × (f.camera_on ≡ true)
      × (f.screen_sharing ≡ false)
unfolding switch_camera
switched_lem n s d e h v c k = ground arith

turned_off_lem :
    (p q : Platform) (n s : ℕ) (us : List Track) (e : AudioCallEngine)
    → live_epoch e ≡ some n
    → e.video_sender ≡ some s
    → e.camera_on ≡ true
    → e.screen_sharing ≡ false
    → let off = set_camera_enabled false p e in
      let f = (resume_disable_replaced q n (resolved us) off.0).0 in
      (off.1 ≡ some (disable_replaced n)) × (live_epoch f ≡ some n) × (f.camera_on ≡ false)
unfolding set_camera_enabled put_camera resume_disable_replaced remove_local_video_tracks
    send_local_muted_state
turned_off_lem p q n s us e h v c k = ground arith

back_on_lem :
    (p : Platform) (n s : ℕ) (d : String) (ts us : List Track) (t : Track) (e : AudioCallEngine)
    → ensure_active e n ≡ true
    → head (video_tracks ts) ≡ some t
    → let got = resume_camera_media n s d (resolved ts) e in
      (got.1 ≡ some (camera_replaced n d ts t))
      × (head got.0.log ≡ some (replace_track s (some t)))
      × ((resume_camera_replaced p n d ts t (resolved us) got.0).0.camera_on ≡ true)
unfolding resume_camera_media resume_camera_replaced swap_local_video_track send_local_muted_state
back_on_lem p n s d ts us t e h k = ground arith

-- In a live call with its camera on and no screen share, when the user picks another camera and turns the
-- camera off before its stream comes: turning it off waits for its replaceTrack and then has the camera off;
-- the stream's video track is sent all the same, and when that is done the camera is on again.
pub switch_reenables_camera :
    (p q r : Platform) (n s : ℕ) (d : String) (ts us vs : List Track) (t : Track)
    (e : AudioCallEngine)
    → live_epoch e ≡ some n
    → e.video_sender ≡ some s
    → e.camera_on ≡ true
    → e.screen_sharing ≡ false
    → head (video_tracks ts) ≡ some t
    → let switching = switch_camera d e in
      let disabling = set_camera_enabled false p switching.0 in
      let off = resume_disable_replaced q n (resolved us) disabling.0 in
      let got = resume_camera_media n s d (resolved ts) off.0 in
      let on = resume_camera_replaced r n d ts t (resolved vs) got.0 in
      (switching.1 ≡ some (camera_media n s d))
      × (disabling.1 ≡ some (disable_replaced n))
      × (off.0.camera_on ≡ false)
      × (got.1 ≡ some (camera_replaced n d ts t))
      × (head got.0.log ≡ some (replace_track s (some t)))
      × (on.0.camera_on ≡ true)
switch_reenables_camera p q r n s d ts us vs t e h v c k l =
    let e1 = (switch_camera d e).0 in
    let (switching, live, sender, camera, share) = switched_lem n s d e h v c k in
    let (disabling, still, off) = turned_off_lem p q n s us e1 live sender camera share in
    let e2 = (resume_disable_replaced q n (resolved us) (set_camera_enabled false p e1).0).0 in
    let (got, sent, on) = back_on_lem r n s d ts vs t e2 (live-ensure_active e2 n still) l in
    (switching, disabling, off, got, sent, on)

shared_lem :
    (p : Platform) (n : ℕ) (ts us ls : List Track) (s : Track) (e : AudioCallEngine)
    → ensure_active e n ≡ true
    → e.local_stream ≡ some ls
    → let f = (resume_share_replaced p n ts s (resolved us) e).0 in
      (ensure_active f n ≡ true)
      × (f.screen_sharing ≡ true)
      × (f.local_stream ≡ some (audio_tracks ls ++ s ∷ []))
unfolding resume_share_replaced swap_local_video_track send_local_muted_state
shared_lem p n ts us ls s e h l = ground arith

enabled_lem :
    (p : Platform) (n : ℕ) (i : ℕ) (ts us ls : List Track) (t : Track) (e : AudioCallEngine)
    → ensure_active e n ≡ true
    → e.local_stream ≡ some ls
    → has_track i (video_tracks ls) ≡ true
    → let f = (resume_enable_replaced p n ts t (resolved us) e).0 in
      (f.camera_on ≡ true) × (f.screen_sharing ≡ e.screen_sharing) × (is_stopped i f.log ≡ true)
unfolding resume_enable_replaced swap_local_video_track send_local_muted_state
enabled_lem p n i ts us ls t e h l k = ground arith

has_track-last :
    (s : Track) (ls : List Track)
    → s.kind ≡ video
    → has_track s.id (video_tracks (audio_tracks ls ++ s ∷ [])) ≡ true
has_track-last s [] k = ground arith
has_track-last s (t ∷ ts) k = ground (arith, has_track-last s ts k)

-- In the epoch of a live call with a local stream, a camera that was being turned on while the share
-- of a video track started ends up on together with the share: both flags are set, though the shared
-- track has been stopped.
pub camera_and_share :
    (p q : Platform) (n : ℕ) (ts us vs ws ls : List Track) (s t : Track) (e : AudioCallEngine)
    → ensure_active e n ≡ true
    → e.local_stream ≡ some ls
    → s.kind ≡ video
    → let shared = (resume_share_replaced p n ts s (resolved us) e).0 in
      let both = (resume_enable_replaced q n vs t (resolved ws) shared).0 in
      (both.camera_on ≡ true) × (both.screen_sharing ≡ true) × (is_stopped s.id both.log ≡ true)
camera_and_share p q n ts us vs ws ls s t e h l k =
    let (active, sharing, local) = shared_lem p n ts us ls s e h l in
    let (on, same, stopped) =
      enabled_lem q n s.id vs ws _ t _ active local (has_track-last s ls k) in
    (on, same ∙ sharing, stopped)
