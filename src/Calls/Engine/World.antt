-- ===== src/Calls/Engine/World.antt =====
-- packages/calls/engine/audio-call.ts: every method and listener of the engine as a call, every
-- continuation, and the steps that callers and settled promises make in any order.
use Prim.Native.String.{String}
use slothfulchat_web.Prelude.{ℕ, ◌≡◌, Bool, Option, none, some, List, [], ◌∷◌, ◌++◌, ◌⊎◌}
use slothfulchat_web.Calls.Engine.State.{
  audio, video, Track, Platform, AudioCallEngine, AudioCallOptions, new_engine, nothing, Task,
  first_media, audio_media, retry_media, remote_set, placeholder_set, tracks_added,
  description_made, local_set, gathered, answer_set, mic_media, camera_media, mic_replaced,
  camera_replaced, enable_media, share_media, disable_replaced, enable_replaced, share_replaced,
  share_stopped, share_cleared, Outcome, resolved, rejected, Reply, goes,
}
use slothfulchat_web.Calls.Engine.Media.{set_muted, toggle_muted, video_tracks}
use slothfulchat_web.Calls.Engine.Teardown.{end_call}
use slothfulchat_web.Calls.Engine.Peer.{
  connection_listener, MutedMessage, muted_open_listener, muted_message_listener, RemoteTrack,
  TrackEvent, track_listener, video_track_updated, video_track_ended,
}
use slothfulchat_web.Calls.Engine.Setup.{
  Cut, place_call, receive_call, accept, provide_answer, resume_media, resume_first_media,
  resume_retry_media, resume_remote_set, resume_placeholder_set, resume_tracks_added,
  resume_description_made, resume_local_set, resume_gathered, resume_answer_set,
}
use slothfulchat_web.Calls.Engine.Switching.{
  switch_microphone, resume_mic_media, resume_mic_replaced, switch_camera, resume_camera_media,
  resume_camera_replaced, stop_screen_share, resume_share_stopped, set_camera_enabled,
  resume_share_cleared, resume_disable_replaced, resume_enable_media, resume_enable_replaced,
  start_screen_share, resume_share_media, resume_share_replaced, toggle_screen_share,
}

-- The public methods, and the events that the engine listens to.
pub data Call : Type 0 where
  places : Call
  receives provides_answer : String → Call
  accepts sets_camera sets_muted : Bool → Call
  toggles_muted starts_share stops_share toggles_share ends : Call
  switches_microphone switches_camera : String → Call
  connection_changes channel_opens : Call
  channel_message : MutedMessage → Call
  track_arrives : TrackEvent → Call
  track_updates : RemoteTrack → Call
  track_ends : ℕ → Call

abbrev pub replied : Cut → Reply
replied (e, t) = goes e t

-- `hangup` is `end`.
unfoldable pub perform : Platform → Call → AudioCallEngine → Reply
perform p places e = place_call e
perform p (receives s) e = receive_call s e
perform p (provides_answer s) e = provide_answer s e
perform p (accepts v) e = accept v e
perform p (sets_camera b) e = replied (set_camera_enabled b p e)
perform p (sets_muted b) e = goes (set_muted p b e) none
perform p toggles_muted e = goes (toggle_muted p e).0 none
perform p starts_share e = replied (start_screen_share e)
perform p stops_share e = replied (stop_screen_share p nothing e)
perform p toggles_share e = replied (toggle_screen_share p e)
perform p ends e = goes (end_call e) none
perform p (switches_microphone d) e = replied (switch_microphone d p e)
perform p (switches_camera d) e = replied (switch_camera d e)
perform p connection_changes e = goes (connection_listener p e) none
perform p channel_opens e = goes (muted_open_listener p e) none
perform p (channel_message m) e = goes (muted_message_listener m e) none
perform p (track_arrives v) e = goes (track_listener v e) none
perform p (track_updates t) e = goes (video_track_updated t e) none
perform p (track_ends t) e = goes (video_track_ended t e) none

-- A method goes on from its await.
unfoldable pub resume : Platform → Task → Outcome → AudioCallEngine → Cut
resume p (first_media fl n) r e = resume_first_media p n fl r e
resume p (audio_media fl n) r e = resume_media p n fl r e
resume p (retry_media fl n m) r e = resume_retry_media p n fl m r e
resume p (remote_set o n) r e = resume_remote_set p n o r e
resume p (placeholder_set fl n) r e = resume_placeholder_set n fl r e
resume p (tracks_added fl n) r e = resume_tracks_added n fl r e
resume p (description_made fl n) r e = resume_description_made n fl r e
resume p (local_set fl n) r e = resume_local_set n fl r e
resume p (gathered fl n) r e = resume_gathered p n fl r e
resume p (answer_set n) r e = resume_answer_set p n r e
resume p (mic_media n d) r e = resume_mic_media p n d r e
resume p (mic_replaced n d ts t) r e = resume_mic_replaced n d ts t r e
resume p (camera_media n s d) r e = resume_camera_media n s d r e
resume p (camera_replaced n d ts t) r e = resume_camera_replaced p n d ts t r e
resume p (disable_replaced n) r e = resume_disable_replaced p n r e
resume p (enable_media n s) r e = resume_enable_media n s r e
resume p (enable_replaced n ts t) r e = resume_enable_replaced p n ts t r e
resume p (share_media n s) r e = resume_share_media n s r e
resume p (share_replaced n ts t) r e = resume_share_replaced p n ts t r e
resume p (share_stopped n k) r e = resume_share_stopped n k r e
resume p (share_cleared n s b) r e = resume_share_cleared n s b e

abbrev pub tracks : Outcome → List Track
tracks (resolved ts) = ts
tracks (rejected x) = []

-- What the platform documents of the streams that it grants: a request without video gives no video
-- track, and a request for one kind gives at most one track, of that kind.
abbrev pub OneOf : (Track → Type 0) → List Track → Type 0
OneOf P ts = (ts ≡ []) ⊎ ((t : Track) × (ts ≡ t ∷ []) × P t)

abbrev pub Grants : Task → Outcome → Type 0
Grants (audio_media fl n) r = video_tracks (tracks r) ≡ []
Grants (retry_media fl n m) r = video_tracks (tracks r) ≡ []
Grants (first_media fl n) r = Unit {0}
Grants (mic_media n d) r = OneOf (λ t. t.kind ≡ audio) (tracks r)
Grants (camera_media n s d) r = OneOf (λ t. t.kind ≡ video) (tracks r)
Grants (enable_media n s) r = OneOf (λ t. t.kind ≡ video) (tracks r)
Grants (share_media n s) r = OneOf (λ t. t.kind ≡ video) (tracks r)
Grants _ r = tracks r ≡ []

abbrev pub pended : Option Task → List Task
pended none = []
pended (some t) = t ∷ []

-- The engine, the methods that wait, and every track that the platform has granted.
pub record World : Type 0 where
  pub engine : AudioCallEngine
  pub pending : List Task
  pub granted : List Track

-- A call that does not throw, or the settling of any promise that a method waits for.
pub data Step (w : World) : World → Type 0 where
  call :
      (p : Platform) (c : Call) (e : AudioCallEngine) (t : Option Task)
      → perform p c w.engine ≡ goes e t
      → Step w (record { engine = e; pending = pended t ++ w.pending; granted = w.granted })
  settle :
      (p : Platform) (before : List Task) (t : Task) (after : List Task) (r : Outcome)
      → w.pending ≡ before ++ t ∷ after
      → Grants t r
      → Step w (record {
        engine = (resume p t r w.engine).0;
        pending = before ++ pended (resume p t r w.engine).1 ++ after;
        granted = tracks r ++ w.granted;
      })

pub data Reach (w : World) : World → Type 0 where
  here : Reach w w
  next : {u v : World} → Reach w u → Step u v → Reach w v

unfoldable pub fresh_world : AudioCallOptions → World
fresh_world o = record { engine = new_engine o; pending = []; granted = [] }
