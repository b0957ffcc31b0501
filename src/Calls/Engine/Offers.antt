-- ===== src/Calls/Engine/Offers.antt =====
-- packages/calls/engine/audio-call.ts: a set-up whose awaited promises all succeed.
pub mod Sends
use Prim.Native.String.{String}
use mathlib.Core.List.{Memᴰ}
use slothfulchat_web.Prelude.{
  ℕ, zero, suc, ◌≡◌, refl, ◌⊎◌, inl, inr, Bool, true, false, Option, none, some, List, [], ◌∷◌,
  arith, keep,
}
use slothfulchat_web.Calls.Engine.State.{
  Track, Platform, Effect, on_local_offer, on_local_answer, AudioCallEngine, Flow, placing,
  accepting, Task, first_media, audio_media, placeholder_set, tracks_added, Outcome, resolved,
}
use slothfulchat_web.Calls.CallState.{CallState}
use slothfulchat_web.Calls.Engine.Media.{
  emit, move, ensure_active, apply_muted_to_local_stream, notify_local_track_changed,
  flush_camera_start_error,
}
use slothfulchat_web.Calls.Engine.Peer.{
  make_peer_connection, log_video_negotiation_diagnostics, maybe_promote_connected,
}
use slothfulchat_web.Calls.Engine.Setup.{
  Cut, get_placeholder_track, promote_video_transceiver_to_sendrecv, add_video, add_local_tracks,
  take_stream, finish, resume_placeholder_set, resume_tracks_added, resume_description_made,
  resume_local_set, resume_gathered,
}
use slothfulchat_web.Calls.Signaling.{ok, assert_non_empty_sdp, serialize_offer, serialize_answer}
use slothfulchat_web.Calls.Engine.World.{resume}

-- The stream `ts` for a request of media, and success for everything else.
abbrev pub granted : List Track → Task → Outcome
granted ts (first_media fl n) = resolved ts
granted ts (audio_media fl n) = resolved ts
granted ts _ = resolved []

-- The method goes on from each of its awaits, at most so many times.
unfoldable pub drive : Platform → List Track → ℕ → Cut → AudioCallEngine
drive p ts zero (e, t) = e
drive p ts (suc k) (e, none) = e
drive p ts (suc k) (e, some t) = drive p ts k (resume p t (granted ts t) e)

-- What the caller hears of a description.
abbrev pub sent : Flow → String → Effect
sent placing s = on_local_offer s
sent (accepting o) s = on_local_answer s

abbrev pub is_description : Effect → Bool
is_description (on_local_offer s) = true
is_description (on_local_answer s) = true
is_description _ = false

-- The descriptions that the caller has heard of, newest first.
abbrev pub descriptions : AudioCallEngine → List Effect
descriptions e = keep is_description e.log

-- Still in the epoch, and no new description.
abbrev pub Goes : ℕ → AudioCallEngine → AudioCallEngine → Type 0
Goes n e f = (ensure_active f n ≡ true) × (descriptions f ≡ descriptions e)

-- Where `addLocalTracks` leaves off.
abbrev pub Adding : Flow → ℕ → Option Task → Type 0
Adding fl n t = (t ≡ some (tracks_added fl n)) ⊎ (t ≡ some (placeholder_set fl n))

pub drive-none :
    (p : Platform) (ts : List Track) (k : ℕ) (e : AudioCallEngine) → drive p ts k (e, none) ≡ e
unfolding drive
drive-none p ts zero e = refl
drive-none p ts (suc k) e = refl

diagnostics-descriptions :
    (p : Platform) (e : AudioCallEngine)
    → descriptions (log_video_negotiation_diagnostics p e) ≡ descriptions e
unfolding log_video_negotiation_diagnostics
diagnostics-descriptions p e = ground arith

move-descriptions :
    (t : CallState) (e : AudioCallEngine) → descriptions (move t e).0 ≡ descriptions e
unfolding move
move-descriptions t e = refl

promote-descriptions :
    (p : Platform) (n : ℕ) (e : AudioCallEngine)
    → descriptions (maybe_promote_connected p n e) ≡ descriptions e
unfolding maybe_promote_connected
promote-descriptions p n e = grind (arith, diagnostics-descriptions, move-descriptions)

module _ (p : Platform) (n : ℕ) (s : String) (l : p.local_sdp ≡ some s)
    (h : assert_non_empty_sdp s ≡ ok tt) where
  finish-sends :
      (fl : Flow) (e : AudioCallEngine)
      → descriptions (finish p n fl e) ≡ sent fl s ∷ descriptions e
  unfolding finish serialize_offer serialize_answer
  finish-sends placing e = ground arith
  finish-sends (accepting o) e =
      ground (arith, promote-descriptions p n (emit (on_local_answer s) e))

  described :
      (fl : Flow) (ts : List Track) (k : ℕ) (e : AudioCallEngine)
      → ensure_active e n ≡ true
      → descriptions (drive p ts (suc (suc (suc (suc k)))) (e, some (tracks_added fl n)))
        ≡ sent fl s ∷ descriptions e
  unfolding drive resume resume_tracks_added resume_description_made resume_local_set
      resume_gathered
  described placing ts k e a = grind (arith, drive-none, finish-sends)
  described (accepting o) ts k e a = grind (arith, drive-none, finish-sends)

  replaced :
      (fl : Flow) (ts : List Track) (k : ℕ) (e : AudioCallEngine)
      → ensure_active e n ≡ true
      → descriptions (drive p ts (suc (suc (suc (suc (suc k))))) (e, some (placeholder_set fl n)))
        ≡ sent fl s ∷ descriptions e
  unfolding drive resume resume_placeholder_set
  replaced fl ts k e a = described fl ts k (record e { camera_on = false }) a

  pub added :
      (fl : Flow) (ts : List Track) (k : ℕ) (e : AudioCallEngine) (t : Option Task)
      → ensure_active e n ≡ true
      → Adding fl n t
      → descriptions (drive p ts (suc (suc (suc (suc (suc k))))) (e, t))
        ≡ sent fl s ∷ descriptions e
  added fl ts k e t a (inl q) = rw q (described fl ts (suc k) e a)
  added fl ts k e t a (inr q) = rw q (replaced fl ts k e a)

add_video-Goes :
    (p : Platform) (n : ℕ) (fl : Flow) (u : Option ℕ) (e : AudioCallEngine)
    → ensure_active e n ≡ true
    → Goes n e (add_video p n fl u e).0 × Adding fl n (add_video p n fl u e).1
unfolding add_video promote_video_transceiver_to_sendrecv
add_video-Goes p n placing none e a = ground arith
add_video-Goes p n (accepting o) none e a = ground arith
add_video-Goes p n fl (some u) e a = ground arith

placeholder-Goes :
    (p : Platform) (n : ℕ) (e : AudioCallEngine)
    → ensure_active e n ≡ true
    → Goes n e (get_placeholder_track p e)
unfolding get_placeholder_track
placeholder-Goes p n e a = ground arith

pub add_local_tracks-Goes :
    (p : Platform) (n : ℕ) (fl : Flow) (us : List Track) (e : AudioCallEngine)
    → ensure_active e n ≡ true
    → Goes n e (add_local_tracks p n fl us e).0 × Adding fl n (add_local_tracks p n fl us e).1
unfolding add_local_tracks
add_local_tracks-Goes p n fl us e a = grind (arith, add_video-Goes, placeholder-Goes)

pub take_stream-Goes :
    (n : ℕ) (us : List Track) (e : AudioCallEngine)
    → ensure_active e n ≡ true
    → Goes n e (take_stream n us e)
unfolding take_stream apply_muted_to_local_stream notify_local_track_changed
    flush_camera_start_error
take_stream-Goes n us e a = ground arith

pub make-Goes :
    (n : ℕ) (e : AudioCallEngine) → ensure_active e n ≡ true → Goes n e (make_peer_connection n e)
unfolding make_peer_connection
make-Goes n e a = ground arith
