-- ===== src/Calls/Engine/Quiet/Steps.antt =====
-- packages/calls/engine/audio-call.ts: what a call still does after its end.
use slothfulchat_web.Prelude.{◌≡◌, refl, ◌∙◌, not, Option, arith, keep}
use slothfulchat_web.Calls.Engine.State.{
  Platform, AudioCallEngine, AudioCallOptions, nothing, Task, first_media, audio_media, retry_media,
  remote_set, placeholder_set, tracks_added, description_made, local_set, gathered, answer_set,
  mic_media, camera_media, mic_replaced, camera_replaced, disable_replaced, enable_media,
  share_media, enable_replaced, share_replaced, share_stopped, share_cleared, Outcome, goes,
}
use slothfulchat_web.Calls.Engine.Media.{toggle_muted}
use slothfulchat_web.Calls.Engine.World.{
  Call, places, receives, provides_answer, accepts, sets_camera, sets_muted, toggles_muted,
  starts_share, stops_share, toggles_share, ends, switches_microphone, switches_camera,
  connection_changes, channel_opens, channel_message, track_arrives, track_updates, track_ends,
  perform, resume, World, Step, call, settle, Reach, here, next, fresh_world,
}
use slothfulchat_web.Calls.Engine.Ended.{IsReleased, HasEnded}
use slothfulchat_web.Calls.Engine.Ended.Steps.{Reach-Settled, Reach-IsReleased}
use slothfulchat_web.Calls.Engine.Quiet.{is_loud, Quiet}
use slothfulchat_web.Calls.Engine.Quiet.Setup.{
  resume_media-Quiet, resume_first_media-Quiet, resume_retry_media-Quiet,
  resume_placeholder_set-Quiet, resume_remote_set-Quiet, resume_tracks_added-Quiet,
  resume_description_made-Quiet, resume_local_set-Quiet, resume_gathered-Quiet,
  resume_answer_set-Quiet, set_muted-Quiet, end_call-Quiet, connection_listener-Quiet,
  muted_open_listener-Quiet, muted_message_listener-Quiet, track_listener-Quiet,
  video_track_updated-Quiet, video_track_ended-Quiet, place_call-Quiet, receive_call-Quiet,
  accept-Quiet, provide_answer-Quiet,
}
use slothfulchat_web.Calls.Engine.Quiet.Switching.{
  switch_microphone-Quiet, resume_mic_media-Quiet, resume_mic_replaced-Quiet, switch_camera-Quiet,
  resume_camera_media-Quiet, resume_camera_replaced-Quiet, stop_screen_share-Quiet,
  resume_share_stopped-Quiet, set_camera_enabled-Quiet, resume_share_cleared-Quiet,
  resume_disable_replaced-Quiet, resume_enable_media-Quiet, resume_enable_replaced-Quiet,
  start_screen_share-Quiet, resume_share_media-Quiet, resume_share_replaced-Quiet,
  toggle_screen_share-Quiet,
}

pub perform-Quiet :
    (p : Platform) (c : Call) (e : AudioCallEngine) {f : AudioCallEngine} {t : Option Task}
    → HasEnded e
    → IsReleased e
    → perform p c e ≡ goes f t
    → Quiet e f
unfolding perform toggle_muted
perform-Quiet p places e h g r = place_call-Quiet e h r
perform-Quiet p (receives s) e h g r = receive_call-Quiet e h s r
perform-Quiet p (provides_answer s) e h g r = provide_answer-Quiet e h s r
perform-Quiet p (accepts v) e h g r = accept-Quiet e h v r
perform-Quiet p (sets_camera b) e h g r = ground (arith, set_camera_enabled-Quiet e h g b p)
perform-Quiet p (sets_muted b) e h g r = ground (arith, set_muted-Quiet e h g p b)
perform-Quiet p toggles_muted e h g r = ground (arith, set_muted-Quiet e h g p (not e.muted))
perform-Quiet p starts_share e h g r = ground (arith, start_screen_share-Quiet e h g)
perform-Quiet p stops_share e h g r = ground (arith, stop_screen_share-Quiet e h g p nothing)
perform-Quiet p toggles_share e h g r = ground (arith, toggle_screen_share-Quiet e h g p)
perform-Quiet p ends e h g r = ground (arith, end_call-Quiet e h g)
perform-Quiet p (switches_microphone d) e h g r = ground (arith, switch_microphone-Quiet e h g d p)
perform-Quiet p (switches_camera d) e h g r = ground (arith, switch_camera-Quiet e h g d)
perform-Quiet p connection_changes e h g r = ground (arith, connection_listener-Quiet e h g p)
perform-Quiet p channel_opens e h g r = ground (arith, muted_open_listener-Quiet e h g p)
perform-Quiet p (channel_message m) e h g r = ground (arith, muted_message_listener-Quiet e h g m)
perform-Quiet p (track_arrives v) e h g r = ground (arith, track_listener-Quiet e h g v)
perform-Quiet p (track_updates t) e h g r = ground (arith, video_track_updated-Quiet e h g t)
perform-Quiet p (track_ends t) e h g r = ground (arith, video_track_ended-Quiet e h g t)

pub resume-Quiet :
    (p : Platform) (t : Task) (r : Outcome) (e : AudioCallEngine)
    → HasEnded e
    → IsReleased e
    → Quiet e (resume p t r e).0
unfolding resume
resume-Quiet p (first_media fl n) r e h g = resume_first_media-Quiet e h g p n fl r
resume-Quiet p (audio_media fl n) r e h g = resume_media-Quiet e h g p n fl r
resume-Quiet p (retry_media fl n m) r e h g = resume_retry_media-Quiet e h g p n fl m r
resume-Quiet p (remote_set o n) r e h g = resume_remote_set-Quiet e h g p n o r
resume-Quiet p (placeholder_set fl n) r e h g = resume_placeholder_set-Quiet e h g n fl r
resume-Quiet p (tracks_added fl n) r e h g = resume_tracks_added-Quiet e h g n fl r
resume-Quiet p (description_made fl n) r e h g = resume_description_made-Quiet e h g n fl r
resume-Quiet p (local_set fl n) r e h g = resume_local_set-Quiet e h g n fl r
resume-Quiet p (gathered fl n) r e h g = resume_gathered-Quiet e h g p n fl r
resume-Quiet p (answer_set n) r e h g = resume_answer_set-Quiet e h g p n r
resume-Quiet p (mic_media n d) r e h g = resume_mic_media-Quiet e h g p n d r
resume-Quiet p (mic_replaced n d ts t) r e h g = resume_mic_replaced-Quiet e h g n d ts t r
resume-Quiet p (camera_media n s d) r e h g = resume_camera_media-Quiet e h g n s d r
resume-Quiet p (camera_replaced n d ts t) r e h g = resume_camera_replaced-Quiet e h g p n d ts t r
resume-Quiet p (disable_replaced n) r e h g = resume_disable_replaced-Quiet e h g p n r
resume-Quiet p (enable_media n s) r e h g = resume_enable_media-Quiet e h g n s r
resume-Quiet p (enable_replaced n ts t) r e h g = resume_enable_replaced-Quiet e h g p n ts t r
resume-Quiet p (share_media n s) r e h g = resume_share_media-Quiet e h g n s r
resume-Quiet p (share_replaced n ts t) r e h g = resume_share_replaced-Quiet e h g p n ts t r
resume-Quiet p (share_stopped n k) r e h g = resume_share_stopped-Quiet e h g n k r
resume-Quiet p (share_cleared n s b) r e h g = resume_share_cleared-Quiet e h g n s b

Step-Quiet :
    {w v : World} → Step w v → HasEnded w.engine → IsReleased w.engine → Quiet w.engine v.engine
Step-Quiet {w} (call p c e t r) h g = perform-Quiet p c w.engine h g r
Step-Quiet {w} (settle p before t after r q k) h g = resume-Quiet p t r w.engine h g

Reach-Quiet :
    {w v : World} → Reach w v → HasEnded w.engine → IsReleased w.engine → Quiet w.engine v.engine
Reach-Quiet here h g = (refl, refl)
Reach-Quiet {w} (next {u} r s) h g =
    let (same, log) = Reach-Quiet r h g in
    let late : HasEnded u.engine = rw same h in
    let (same', log') = Step-Quiet s late (Reach-Settled r (λ x. g) late) in
    (same' ∙ same, log' ∙ log)

-- Teardown wins: after the call has ended, whatever is called, heard or settled later, in whatever
-- order, the machine does not move, and all that the engine still does is to stop tracks, to ask
-- for media again and to report a failed switch of a device or of the screen share.
pub ended_is_quiet :
    (o : AudioCallOptions) {w v : World}
    → Reach (fresh_world o) w
    → HasEnded w.engine
    → Reach w v
    → (v.engine.machine ≡ w.engine.machine)
      × (keep is_loud v.engine.log ≡ keep is_loud w.engine.log)
ended_is_quiet o r h later = Reach-Quiet later h (Reach-IsReleased o r h)
