-- ===== src/Calls/Engine/Ended/Peer.antt =====
-- packages/calls/engine/audio-call.ts: the entry points and the listeners keep `ended` an empty state.
use Prim.Native.String.{String}
use slothfulchat_web.Prelude.{ℕ, ◌≡◌, refl, ◌∙◌, ◌⊎◌, Bool, false, not, Option, arith}
use slothfulchat_web.Calls.Engine.State.{
  ConnectionState, new, checking, connected, disconnected, failed, closed, Platform,
  AudioCallEngine, Flow, Task, goes,
}
use slothfulchat_web.Calls.CallState.{CallState, transition}
use slothfulchat_web.Calls.Engine.Media.{move, send_local_muted_state, set_muted}
use slothfulchat_web.Calls.Engine.Teardown.{begin_epoch}
use slothfulchat_web.Calls.Engine.Peer.{
  promote, changed_to, connection_listener, emit_remote_video_active, emit_remote_audio_muted,
  MutedMessage, malformed, muted_message, handle_remote_muted_state, muted_open_listener,
  muted_message_listener, RemoteTrack, watch_remote_video_track, TrackEvent, on_track,
  track_listener, video_track_updated, video_track_ended,
}
use slothfulchat_web.Calls.Engine.Setup.{
  acquire_initial_local_stream, place_call, receive_call, accept_offer, accept, apply_answer,
  provide_answer,
}
use slothfulchat_web.Calls.Engine.Ended.{
  HasEnded, Settled, move-Settled, diagnostics-Settled, end_call-Settled,
}

emit_remote_video_active-machine :
    (a : Bool) (e : AudioCallEngine) → (emit_remote_video_active a e).machine ≡ e.machine
unfolding emit_remote_video_active
emit_remote_video_active-machine a e = ground arith

emit_remote_audio_muted-machine :
    (m : Bool) (e : AudioCallEngine) → (emit_remote_audio_muted m e).machine ≡ e.machine
unfolding emit_remote_audio_muted
emit_remote_audio_muted-machine m e = ground arith

pub emit_remote_video_active-Settled :
    (a : Bool) (e : AudioCallEngine) → Settled e → Settled (emit_remote_video_active a e)
unfolding emit_remote_video_active
emit_remote_video_active-Settled a e h = ground arith

handle_remote_muted_state-machine :
    (m : MutedMessage) (e : AudioCallEngine) → (handle_remote_muted_state m e).machine ≡ e.machine
unfolding handle_remote_muted_state
handle_remote_muted_state-machine malformed e = refl
handle_remote_muted_state-machine (muted_message a v) e =
    emit_remote_audio_muted-machine _ _ ∙ emit_remote_video_active-machine _ _

watch_remote_video_track-machine :
    (t : Option RemoteTrack) (e : AudioCallEngine)
    → (watch_remote_video_track t e).machine ≡ e.machine
unfolding watch_remote_video_track
watch_remote_video_track-machine t e = grind (arith, emit_remote_video_active-machine)

on_track-machine : (v : TrackEvent) (e : AudioCallEngine) → (on_track v e).machine ≡ e.machine
unfolding on_track
on_track-machine v e = grind (arith, watch_remote_video_track-machine)

promote-Settled : (p : Platform) (e : AudioCallEngine) → Settled e → Settled (promote p e)
promote-Settled p e h = diagnostics-Settled p _ (move-Settled _ e refl h)

changed_to-Settled :
    (s : ConnectionState) (p : Platform) (e : AudioCallEngine)
    → Settled e
    → Settled (changed_to s p e)
changed_to-Settled connected p e h = promote-Settled p e h
changed_to-Settled failed p e h = end_call-Settled e h
changed_to-Settled closed p e h = end_call-Settled e h
changed_to-Settled new p e h = h
changed_to-Settled checking p e h = h
changed_to-Settled disconnected p e h = h

module _ (p : Platform) (e : AudioCallEngine) (h : Settled e) where
  pub set_muted-Settled : (m : Bool) → Settled (set_muted p m e)
  unfolding set_muted
  set_muted-Settled m = ground arith

  pub connection_listener-Settled : Settled (connection_listener p e)
  unfolding connection_listener
  connection_listener-Settled = ground (arith, changed_to-Settled p.connection_state p e h)

  pub muted_open_listener-Settled : Settled (muted_open_listener p e)
  unfolding muted_open_listener send_local_muted_state
  muted_open_listener-Settled = ground arith

  pub muted_message_listener-Settled : (m : MutedMessage) → Settled (muted_message_listener m e)
  unfolding muted_message_listener
  muted_message_listener-Settled m = ground (arith, handle_remote_muted_state-machine m e)

  pub track_listener-Settled : (v : TrackEvent) → Settled (track_listener v e)
  unfolding track_listener
  track_listener-Settled v = ground (arith, on_track-machine v e)

  pub video_track_updated-Settled : (t : RemoteTrack) → Settled (video_track_updated t e)
  unfolding video_track_updated
  video_track_updated-Settled t = ground (arith, emit_remote_video_active-Settled (not t.muted) e h)

  pub video_track_ended-Settled : (t : ℕ) → Settled (video_track_ended t e)
  unfolding video_track_ended
  video_track_ended-Settled t = ground (arith, emit_remote_video_active-Settled false e h)

move_lem :
    (t : CallState) (e : AudioCallEngine)
    → ((move t e).0.machine.current_state ≡ t)
      ⊎ ((move t e).0.machine.current_state ≡ e.machine.current_state)
unfolding move transition
move_lem t e = ground arith

acquire-machine :
    (fl : Flow) (n : ℕ) (e : AudioCallEngine)
    → (acquire_initial_local_stream fl n e).0.machine ≡ e.machine
unfolding acquire_initial_local_stream
acquire-machine fl n e = refl

begin-machine : (e : AudioCallEngine) → (begin_epoch e).machine ≡ e.machine
unfolding begin_epoch
begin-machine e = refl

accept_offer-Settled :
    (o : String) (v : Bool) (e : AudioCallEngine) {f : AudioCallEngine} {t : Option Task}
    → ¬ HasEnded e
    → accept_offer o v e ≡ goes f t
    → Settled f
unfolding accept_offer
accept_offer-Settled o v e h r = grind (arith, move_lem, acquire-machine)

apply_answer-Settled :
    (s : String) (e : AudioCallEngine) {f : AudioCallEngine} {t : Option Task}
    → ¬ HasEnded e
    → apply_answer s e ≡ goes f t
    → Settled f
unfolding apply_answer
apply_answer-Settled s e h r = grind (arith, move_lem)

-- The methods that may throw, where they do not.
module _ (e : AudioCallEngine) {f : AudioCallEngine} {t : Option Task} (h : Settled e) where
  pub place_call-Settled : place_call e ≡ goes f t → Settled f
  unfolding place_call
  place_call-Settled r = grind (arith, move_lem, acquire-machine, begin-machine)

  pub receive_call-Settled : (s : String) → receive_call s e ≡ goes f t → Settled f
  unfolding receive_call
  receive_call-Settled s r = grind (arith, move_lem, begin-machine)

  pub accept-Settled : (v : Bool) → accept v e ≡ goes f t → Settled f
  unfolding accept
  accept-Settled v r = grind (arith, accept_offer-Settled)

  pub provide_answer-Settled : (s : String) → provide_answer s e ≡ goes f t → Settled f
  unfolding provide_answer
  provide_answer-Settled s r = grind (arith, apply_answer-Settled)
