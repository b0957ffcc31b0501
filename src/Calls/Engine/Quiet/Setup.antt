-- ===== src/Calls/Engine/Quiet/Setup.antt =====
-- packages/calls/engine/audio-call.ts: set-up and listeners in an ended call.
use Prim.Native.String.{String}
use slothfulchat_web.Prelude.{ℕ, ◌≡◌, Bool, Option, List, arith}
use slothfulchat_web.Calls.Engine.State.{
  Track, Platform, AudioCallEngine, Flow, Task, Outcome, resolved, rejected, goes,
}
use slothfulchat_web.Calls.Engine.Media.{
  message, apply_muted_to_local_stream, send_local_muted_state, set_muted,
}
use slothfulchat_web.Calls.Engine.Teardown.{end_call, fail}
use slothfulchat_web.Calls.Engine.Peer.{
  connection_listener, MutedMessage, muted_open_listener, muted_message_listener, RemoteTrack,
  TrackEvent, track_listener, video_track_updated, video_track_ended,
}
use slothfulchat_web.Calls.Engine.Setup.{
  Cut, retry_audio_only, adopt, place_call, receive_call, accept, provide_answer, checked,
  resume_media, resume_first_media, resume_retry_media, resume_remote_set, resume_placeholder_set,
  resume_tracks_added, resume_description_made, resume_local_set, resume_gathered,
  resume_answer_set,
}
use slothfulchat_web.Calls.Engine.Ended.{IsReleased, HasEnded}
use slothfulchat_web.Calls.Engine.Quiet.{Quiet}

module _ (e : AudioCallEngine) (h : HasEnded e) (g : IsReleased e) where
  fail-Quiet : (n : ℕ) (m : String) → Quiet e (fail n m e)
  unfolding fail
  fail-Quiet n m = ground arith

  checked-Quiet : (n : ℕ) (r : Outcome) (k : Cut) → Quiet e (checked n r e k).0
  checked-Quiet n (rejected x) k = fail-Quiet n (message x)
  checked-Quiet n (resolved ts) k = ground arith

  adopt-Quiet : (p : Platform) (n : ℕ) (fl : Flow) (ts : List Track) → Quiet e (adopt p n fl ts e).0
  unfolding adopt
  adopt-Quiet p n fl ts = ground arith

  pub resume_media-Quiet :
      (p : Platform) (n : ℕ) (fl : Flow) (r : Outcome) → Quiet e (resume_media p n fl r e).0
  unfolding resume_media retry_audio_only
  resume_media-Quiet p n fl (rejected x) = fail-Quiet n (message x)
  resume_media-Quiet p n fl (resolved ts) = adopt-Quiet p n fl ts

  pub resume_first_media-Quiet :
      (p : Platform) (n : ℕ) (fl : Flow) (r : Outcome) → Quiet e (resume_first_media p n fl r e).0
  unfolding resume_first_media retry_audio_only
  resume_first_media-Quiet p n fl (rejected x) = ground arith
  resume_first_media-Quiet p n fl (resolved ts) = adopt-Quiet p n fl ts

  pub resume_retry_media-Quiet :
      (p : Platform) (n : ℕ) (fl : Flow) (m : String) (r : Outcome)
      → Quiet e (resume_retry_media p n fl m r e).0
  unfolding resume_retry_media adopt
  resume_retry_media-Quiet p n fl m (rejected x) = fail-Quiet n (message x)
  resume_retry_media-Quiet p n fl m (resolved ts) = ground arith

  pub resume_placeholder_set-Quiet :
      (n : ℕ) (fl : Flow) (r : Outcome) → Quiet e (resume_placeholder_set n fl r e).0
  unfolding resume_placeholder_set
  resume_placeholder_set-Quiet n fl (rejected x) = fail-Quiet n (message x)
  resume_placeholder_set-Quiet n fl (resolved ts) = ground arith

  pub resume_remote_set-Quiet :
      (p : Platform) (n : ℕ) (o : String) (r : Outcome) → Quiet e (resume_remote_set p n o r e).0
  unfolding resume_remote_set
  resume_remote_set-Quiet p n o r = checked-Quiet n r _

  pub resume_tracks_added-Quiet :
      (n : ℕ) (fl : Flow) (r : Outcome) → Quiet e (resume_tracks_added n fl r e).0
  unfolding resume_tracks_added
  resume_tracks_added-Quiet n fl r = checked-Quiet n r _

  pub resume_description_made-Quiet :
      (n : ℕ) (fl : Flow) (r : Outcome) → Quiet e (resume_description_made n fl r e).0
  unfolding resume_description_made
  resume_description_made-Quiet n fl r = checked-Quiet n r _

  pub resume_local_set-Quiet :
      (n : ℕ) (fl : Flow) (r : Outcome) → Quiet e (resume_local_set n fl r e).0
  unfolding resume_local_set
  resume_local_set-Quiet n fl r = checked-Quiet n r _

  pub resume_gathered-Quiet :
      (p : Platform) (n : ℕ) (fl : Flow) (r : Outcome) → Quiet e (resume_gathered p n fl r e).0
  unfolding resume_gathered
  resume_gathered-Quiet p n fl r = checked-Quiet n r _

  pub resume_answer_set-Quiet :
      (p : Platform) (n : ℕ) (r : Outcome) → Quiet e (resume_answer_set p n r e).0
  unfolding resume_answer_set
  resume_answer_set-Quiet p n r = checked-Quiet n r _

  pub set_muted-Quiet : (p : Platform) (m : Bool) → Quiet e (set_muted p m e)
  unfolding set_muted apply_muted_to_local_stream send_local_muted_state
  set_muted-Quiet p m = ground arith

  pub end_call-Quiet : Quiet e (end_call e)
  unfolding end_call
  end_call-Quiet = ground arith

  pub connection_listener-Quiet : (p : Platform) → Quiet e (connection_listener p e)
  unfolding connection_listener
  connection_listener-Quiet p = ground arith

  pub muted_open_listener-Quiet : (p : Platform) → Quiet e (muted_open_listener p e)
  unfolding muted_open_listener
  muted_open_listener-Quiet p = ground arith

  pub muted_message_listener-Quiet : (m : MutedMessage) → Quiet e (muted_message_listener m e)
  unfolding muted_message_listener
  muted_message_listener-Quiet m = ground arith

  pub track_listener-Quiet : (v : TrackEvent) → Quiet e (track_listener v e)
  unfolding track_listener
  track_listener-Quiet v = ground arith

  pub video_track_updated-Quiet : (t : RemoteTrack) → Quiet e (video_track_updated t e)
  unfolding video_track_updated
  video_track_updated-Quiet t = ground arith

  pub video_track_ended-Quiet : (t : ℕ) → Quiet e (video_track_ended t e)
  unfolding video_track_ended
  video_track_ended-Quiet t = ground arith

-- A call that does not throw.
module _ (e : AudioCallEngine) {f : AudioCallEngine} {t : Option Task} (h : HasEnded e) where
  pub place_call-Quiet : place_call e ≡ goes f t → Quiet e f
  unfolding place_call
  place_call-Quiet r = ground arith

  pub receive_call-Quiet : (s : String) → receive_call s e ≡ goes f t → Quiet e f
  unfolding receive_call
  receive_call-Quiet s r = ground arith

  pub accept-Quiet : (v : Bool) → accept v e ≡ goes f t → Quiet e f
  unfolding accept
  accept-Quiet v r = ground arith

  pub provide_answer-Quiet : (s : String) → provide_answer s e ≡ goes f t → Quiet e f
  unfolding provide_answer
  provide_answer-Quiet s r = ground arith
