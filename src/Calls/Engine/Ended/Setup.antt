-- ===== src/Calls/Engine/Ended/Setup.antt =====
-- packages/calls/engine/audio-call.ts: setting up a call keeps `ended` an empty state.
use Prim.Native.String.{String}
use slothfulchat_web.Prelude.{ℕ, ◌≡◌, refl, ◌∙◌, Option, none, some, List, arith}
use slothfulchat_web.Calls.Engine.State.{
  Track, Platform, AudioCallEngine, Flow, placing, accepting, Outcome,
}
use slothfulchat_web.Calls.Engine.Media.{
  apply_muted_to_local_stream, notify_local_track_changed, flush_camera_start_error,
}
use slothfulchat_web.Calls.Engine.Peer.{make_peer_connection, maybe_promote_connected}
use slothfulchat_web.Calls.Engine.Setup.{
  retry_audio_only, get_placeholder_track, promote_video_transceiver_to_sendrecv, add_video,
  add_local_tracks, negotiate, open_peer_connection, take_stream, adopt, finish, resume_media,
  resume_first_media, resume_retry_media, resume_remote_set, resume_placeholder_set,
  resume_tracks_added, resume_description_made, resume_local_set, resume_gathered,
  resume_answer_set,
}
use slothfulchat_web.Calls.Engine.Ended.{
  HasEnded, Settled, move-Settled, diagnostics-Settled, fail-Settled, checked-Settled,
}

make-machine : (n : ℕ) (e : AudioCallEngine) → (make_peer_connection n e).machine ≡ e.machine
unfolding make_peer_connection
make-machine n e = ground arith

apply_muted_to_local_stream-machine :
    (e : AudioCallEngine) → (apply_muted_to_local_stream e).machine ≡ e.machine
unfolding apply_muted_to_local_stream
apply_muted_to_local_stream-machine e = ground arith

notify_local_track_changed-machine :
    (ts : List Track) (e : AudioCallEngine) → (notify_local_track_changed ts e).machine ≡ e.machine
unfolding notify_local_track_changed
notify_local_track_changed-machine ts e = ground arith

flush_camera_start_error-machine :
    (n : ℕ) (e : AudioCallEngine) → (flush_camera_start_error n e).machine ≡ e.machine
unfolding flush_camera_start_error
flush_camera_start_error-machine n e = ground arith

pub take_stream-machine :
    (n : ℕ) (ts : List Track) (e : AudioCallEngine) → (take_stream n ts e).machine ≡ e.machine
unfolding take_stream
take_stream-machine n ts e =
    flush_camera_start_error-machine n _
    ∙ notify_local_track_changed-machine ts _
    ∙ apply_muted_to_local_stream-machine _

module _ (p : Platform) (n : ℕ) where
  add_video-machine :
      (fl : Flow) (s : Option ℕ) (e : AudioCallEngine)
      → (add_video p n fl s e).0.machine ≡ e.machine
  unfolding add_video promote_video_transceiver_to_sendrecv
  add_video-machine placing none e = ground arith
  add_video-machine (accepting o) none e = ground arith
  add_video-machine fl (some s) e = ground arith

  pub add_local_tracks-machine :
      (fl : Flow) (ts : List Track) (e : AudioCallEngine)
      → (add_local_tracks p n fl ts e).0.machine ≡ e.machine
  unfolding add_local_tracks get_placeholder_track
  add_local_tracks-machine fl ts e = grind (arith, add_video-machine)

  negotiate-machine :
      (fl : Flow) (ts : List Track) (e : AudioCallEngine)
      → (negotiate p n fl ts e).0.machine ≡ e.machine
  unfolding negotiate
  negotiate-machine placing ts e = add_local_tracks-machine placing ts e
  negotiate-machine (accepting o) ts e = refl

  open-Settled :
      (fl : Flow) (ts : List Track) (e : AudioCallEngine)
      → ¬ HasEnded e
      → Settled (open_peer_connection p n fl ts e).0
  unfolding open_peer_connection
  open-Settled fl ts e h = grind (arith, fail-Settled, negotiate-machine, make-machine)

  adopt-Settled :
      (fl : Flow) (ts : List Track) (e : AudioCallEngine)
      → Settled e
      → Settled (adopt p n fl ts e).0
  unfolding adopt
  adopt-Settled fl ts e h = grind (arith, open-Settled, take_stream-machine)

  pub maybe_promote_connected-Settled :
      (e : AudioCallEngine) → Settled e → Settled (maybe_promote_connected p n e)
  unfolding maybe_promote_connected
  maybe_promote_connected-Settled e h = grind (arith, diagnostics-Settled, move-Settled)

  finish-Settled : (fl : Flow) (e : AudioCallEngine) → Settled e → Settled (finish p n fl e)
  unfolding finish
  finish-Settled placing e h = grind (arith, fail-Settled)
  finish-Settled (accepting o) e h = grind (arith, fail-Settled, maybe_promote_connected-Settled)

module _ (p : Platform) (n : ℕ) (fl : Flow) (r : Outcome) (e : AudioCallEngine)
    (h : Settled e) where
  pub resume_media-Settled : Settled (resume_media p n fl r e).0
  unfolding resume_media
  resume_media-Settled = grind (arith, adopt-Settled, fail-Settled)

  pub resume_first_media-Settled : Settled (resume_first_media p n fl r e).0
  unfolding resume_first_media retry_audio_only
  resume_first_media-Settled = grind (arith, adopt-Settled)

  pub resume_retry_media-Settled : (m : String) → Settled (resume_retry_media p n fl m r e).0
  unfolding resume_retry_media
  resume_retry_media-Settled m = grind (arith, adopt-Settled, fail-Settled)

  pub resume_remote_set-Settled : (o : String) → Settled (resume_remote_set p n o r e).0
  unfolding resume_remote_set
  resume_remote_set-Settled o = grind (arith, checked-Settled, add_local_tracks-machine)

  pub resume_placeholder_set-Settled : Settled (resume_placeholder_set n fl r e).0
  unfolding resume_placeholder_set
  resume_placeholder_set-Settled = grind (arith, fail-Settled)

  pub resume_tracks_added-Settled : Settled (resume_tracks_added n fl r e).0
  unfolding resume_tracks_added
  resume_tracks_added-Settled = grind (arith, checked-Settled)

  pub resume_description_made-Settled : Settled (resume_description_made n fl r e).0
  unfolding resume_description_made
  resume_description_made-Settled = grind (arith, checked-Settled)

  pub resume_local_set-Settled : Settled (resume_local_set n fl r e).0
  unfolding resume_local_set
  resume_local_set-Settled = grind (arith, checked-Settled)

  pub resume_gathered-Settled : Settled (resume_gathered p n fl r e).0
  unfolding resume_gathered
  resume_gathered-Settled = grind (arith, checked-Settled, finish-Settled)

  pub resume_answer_set-Settled : Settled (resume_answer_set p n r e).0
  unfolding resume_answer_set
  resume_answer_set-Settled = grind (arith, checked-Settled, maybe_promote_connected-Settled)
