-- ===== src/Calls/Engine/Ended/Steps.antt =====
-- packages/calls/engine/audio-call.ts: whatever is called and settled, an ended engine holds nothing.
use slothfulchat_web.Prelude.{◌≡◌, not, Option, arith}
use slothfulchat_web.Calls.Engine.State.{
  Platform, AudioCallEngine, AudioCallOptions, placing, accepting, nothing, Task, first_media,
  audio_media, retry_media, remote_set, placeholder_set, tracks_added, description_made, local_set,
  gathered, answer_set, mic_media, camera_media, mic_replaced, camera_replaced, disable_replaced,
  enable_media, share_media, enable_replaced, share_replaced, share_stopped, share_cleared, Outcome,
  goes, new_engine,
}
use slothfulchat_web.Calls.CallState.{new_machine, subscribe}
use slothfulchat_web.Calls.Engine.Media.{toggle_muted}
use slothfulchat_web.Calls.Engine.World.{
  Call, places, receives, provides_answer, accepts, sets_camera, sets_muted, toggles_muted,
  starts_share, stops_share, toggles_share, ends, switches_microphone, switches_camera,
  connection_changes, channel_opens, channel_message, track_arrives, track_updates, track_ends,
  perform, resume, World, Step, call, settle, Reach, here, next, fresh_world,
}
use slothfulchat_web.Calls.Engine.Ended.{IsReleased, HasEnded, Settled, end_call-Settled}
use slothfulchat_web.Calls.Engine.Ended.Setup.{
  resume_media-Settled, resume_first_media-Settled, resume_retry_media-Settled,
  resume_remote_set-Settled, resume_placeholder_set-Settled, resume_tracks_added-Settled,
  resume_description_made-Settled, resume_local_set-Settled, resume_gathered-Settled,
  resume_answer_set-Settled,
}
use slothfulchat_web.Calls.Engine.Ended.Switching.{
  switch_microphone-Settled, resume_mic_media-Settled, resume_mic_replaced-Settled,
  switch_camera-Settled, resume_camera_media-Settled, resume_camera_replaced-Settled,
  stop_screen_share-Settled, resume_share_stopped-Settled, set_camera_enabled-Settled,
  resume_share_cleared-Settled, resume_disable_replaced-Settled, resume_enable_media-Settled,
  resume_enable_replaced-Settled, start_screen_share-Settled, resume_share_media-Settled,
  resume_share_replaced-Settled, toggle_screen_share-Settled,
}
use slothfulchat_web.Calls.Engine.Ended.Peer.{
  set_muted-Settled, connection_listener-Settled, muted_open_listener-Settled,
  muted_message_listener-Settled, track_listener-Settled, video_track_updated-Settled,
  video_track_ended-Settled, place_call-Settled, receive_call-Settled, accept-Settled,
  provide_answer-Settled,
}

pub perform-Settled :
    (p : Platform) (c : Call) (e : AudioCallEngine) {f : AudioCallEngine} {t : Option Task}
    → Settled e
    → perform p c e ≡ goes f t
    → Settled f
unfolding perform toggle_muted
perform-Settled p places e h r = place_call-Settled e h r
perform-Settled p (receives s) e h r = receive_call-Settled e h s r
perform-Settled p (provides_answer s) e h r = provide_answer-Settled e h s r
perform-Settled p (accepts v) e h r = accept-Settled e h v r
perform-Settled p (sets_camera b) e h r = ground (arith, set_camera_enabled-Settled b p e h)
perform-Settled p (sets_muted b) e h r = ground (arith, set_muted-Settled p e h b)
perform-Settled p toggles_muted e h r = ground (arith, set_muted-Settled p e h (not e.muted))
perform-Settled p starts_share e h r = ground (arith, start_screen_share-Settled e h)
perform-Settled p stops_share e h r = ground (arith, stop_screen_share-Settled p nothing e h)
perform-Settled p toggles_share e h r = ground (arith, toggle_screen_share-Settled p e h)
perform-Settled p ends e h r = ground (arith, end_call-Settled e h)
perform-Settled p (switches_microphone d) e h r = ground (arith, switch_microphone-Settled d p e h)
perform-Settled p (switches_camera d) e h r = ground (arith, switch_camera-Settled d e h)
perform-Settled p connection_changes e h r = ground (arith, connection_listener-Settled p e h)
perform-Settled p channel_opens e h r = ground (arith, muted_open_listener-Settled p e h)
perform-Settled p (channel_message m) e h r = ground (arith, muted_message_listener-Settled p e h m)
perform-Settled p (track_arrives v) e h r = ground (arith, track_listener-Settled p e h v)
perform-Settled p (track_updates t) e h r = ground (arith, video_track_updated-Settled p e h t)
perform-Settled p (track_ends t) e h r = ground (arith, video_track_ended-Settled p e h t)

pub resume-Settled :
    (p : Platform) (t : Task) (r : Outcome) (e : AudioCallEngine)
    → Settled e
    → Settled (resume p t r e).0
unfolding resume
resume-Settled p (first_media fl n) r e h = resume_first_media-Settled p n fl r e h
resume-Settled p (audio_media fl n) r e h = resume_media-Settled p n fl r e h
resume-Settled p (retry_media fl n m) r e h = resume_retry_media-Settled p n fl r e h m
resume-Settled p (remote_set o n) r e h = resume_remote_set-Settled p n (accepting o) r e h o
resume-Settled p (placeholder_set fl n) r e h = resume_placeholder_set-Settled p n fl r e h
resume-Settled p (tracks_added fl n) r e h = resume_tracks_added-Settled p n fl r e h
resume-Settled p (description_made fl n) r e h = resume_description_made-Settled p n fl r e h
resume-Settled p (local_set fl n) r e h = resume_local_set-Settled p n fl r e h
resume-Settled p (gathered fl n) r e h = resume_gathered-Settled p n fl r e h
resume-Settled p (answer_set n) r e h = resume_answer_set-Settled p n placing r e h
resume-Settled p (mic_media n d) r e h = resume_mic_media-Settled p n d r e h
resume-Settled p (mic_replaced n d ts t) r e h = resume_mic_replaced-Settled n d ts t r e h
resume-Settled p (camera_media n s d) r e h = resume_camera_media-Settled n s d r e h
resume-Settled p (camera_replaced n d ts t) r e h = resume_camera_replaced-Settled p n d ts t r e h
resume-Settled p (disable_replaced n) r e h = resume_disable_replaced-Settled p n r e h
resume-Settled p (enable_media n s) r e h = resume_enable_media-Settled n s r e h
resume-Settled p (enable_replaced n ts t) r e h = resume_enable_replaced-Settled p n ts t r e h
resume-Settled p (share_media n s) r e h = resume_share_media-Settled n s r e h
resume-Settled p (share_replaced n ts t) r e h = resume_share_replaced-Settled p n ts t r e h
resume-Settled p (share_stopped n k) r e h = resume_share_stopped-Settled n k r e h
resume-Settled p (share_cleared n s b) r e h = resume_share_cleared-Settled n s b e h

pub Step-Settled : {w v : World} → Step w v → Settled w.engine → Settled v.engine
Step-Settled {w} (call p c e t r) h = perform-Settled p c w.engine h r
Step-Settled {w} (settle p before t after r q g) h = resume-Settled p t r w.engine h

pub Reach-Settled : {w v : World} → Reach w v → Settled w.engine → Settled v.engine
Reach-Settled here h = h
Reach-Settled (next r s) h = Step-Settled s (Reach-Settled r h)

pub new_engine-Settled : (o : AudioCallOptions) → Settled (new_engine o)
unfolding new_engine subscribe new_machine
new_engine-Settled o h = ground arith

-- However its methods, its listeners and its awaited promises interleave, an engine that has ended
-- holds no stream, no sender, no peer connection, no data channel and no epoch, and neither its
-- camera nor its screen share is on.
pub Reach-IsReleased :
    (o : AudioCallOptions) {w : World}
    → Reach (fresh_world o) w
    → HasEnded w.engine
    → IsReleased w.engine
unfolding fresh_world
Reach-IsReleased o r = Reach-Settled r (new_engine-Settled o)
