-- ===== src/Calls/Engine/Failing.antt =====
-- packages/calls/engine/audio-call.ts: a failure while a device, the camera or the screen share is switched.
use slothfulchat_web.Prelude.{
  ℕ, ◌≡◌, refl, Bool, true, false, not, ◌||◌, is_some, head, List, [], arith,
}
use slothfulchat_web.Calls.Engine.State.{
  audio, Track, Thrown, Platform, AudioCallEngine, Task, mic_media, camera_media, mic_replaced,
  camera_replaced, disable_replaced, enable_media, share_media, enable_replaced, share_replaced,
  share_stopped, Outcome, resolved, rejected,
}
use slothfulchat_web.Calls.Engine.Media.{audio_tracks, video_tracks}
use slothfulchat_web.Calls.Engine.Setup.{sender_of}
use slothfulchat_web.Calls.Engine.Switching.{
  resume_mic_media, resume_mic_replaced, resume_camera_media, resume_camera_replaced,
  resume_share_stopped, resume_disable_replaced, resume_enable_media, resume_enable_replaced,
  resume_share_media, resume_share_replaced,
}
use slothfulchat_web.Calls.Engine.Tracks.{has_track, is_stopped}
use slothfulchat_web.Calls.Engine.World.{resume}

-- The tasks of the methods that switch devices, the camera and the screen share.
abbrev pub is_switching : Task → Bool
is_switching (mic_media n d) = true
is_switching (camera_media n s d) = true
is_switching (mic_replaced n d ts t) = true
is_switching (camera_replaced n d ts t) = true
is_switching (disable_replaced n) = true
is_switching (enable_media n s) = true
is_switching (enable_replaced n ts t) = true
is_switching (share_media n s) = true
is_switching (share_replaced n ts t) = true
is_switching (share_stopped n k) = true
is_switching _ = false

-- The tracks that a task holds when what it waits for is settled: those that it has acquired and not handed
-- over, and those of a stream that it is just given.
abbrev pub holds : Task → Outcome → List Track
holds (mic_media n d) (resolved ts) = ts
holds (camera_media n s d) (resolved ts) = ts
holds (enable_media n s) (resolved ts) = ts
holds (share_media n s) (resolved ts) = ts
holds (mic_replaced n d ts t) o = ts
holds (camera_replaced n d ts t) o = ts
holds (enable_replaced n ts t) o = ts
holds (share_replaced n ts t) o = ts
holds _ _ = []

-- A rejection, or a stream without a track of the kind that was asked for, or no sender for its track.
abbrev pub is_failure : Platform → Task → Outcome → Bool
is_failure p t (rejected x) = true
is_failure p (mic_media n d) (resolved ts) =
    not (is_some (head (audio_tracks ts))) || not (is_some (sender_of audio p.senders))
is_failure p (camera_media n s d) (resolved ts) = not (is_some (head (video_tracks ts)))
is_failure p (enable_media n s) (resolved ts) = not (is_some (head (video_tracks ts)))
is_failure p (share_media n s) (resolved ts) = not (is_some (head (video_tracks ts)))
is_failure p _ (resolved ts) = false

-- What a failure leaves: the engine but for its log, and none of some tracks running.
abbrev pub FailsSoftly : AudioCallEngine → List Track → ℕ → AudioCallEngine → Type 0
FailsSoftly e ts i f =
    (f ≡ record e { log = f.log }) × (has_track i ts ≡ true → is_stopped i f.log ≡ true)

rejection-FailsSoftly :
    (p : Platform) (t : Task) (x : Thrown) (e : AudioCallEngine) (i : ℕ)
    → is_switching t ≡ true
    → FailsSoftly e (holds t (rejected x)) i (resume p t (rejected x) e).0
unfolding resume resume_mic_media resume_camera_media resume_mic_replaced resume_camera_replaced
    resume_disable_replaced resume_enable_media resume_enable_replaced resume_share_media
    resume_share_replaced resume_share_stopped
rejection-FailsSoftly p (mic_media n d) x e i h = (refl, λ k. cc)
rejection-FailsSoftly p (camera_media n s d) x e i h = (refl, λ k. cc)
rejection-FailsSoftly p (mic_replaced n d ts t) x e i h = (refl, ground arith)
rejection-FailsSoftly p (camera_replaced n d ts t) x e i h = (refl, ground arith)
rejection-FailsSoftly p (disable_replaced n) x e i h = (refl, λ k. cc)
rejection-FailsSoftly p (enable_media n s) x e i h = (refl, λ k. cc)
rejection-FailsSoftly p (enable_replaced n ts t) x e i h = (refl, ground arith)
rejection-FailsSoftly p (share_media n s) x e i h = (refl, λ k. cc)
rejection-FailsSoftly p (share_replaced n ts t) x e i h = (refl, ground arith)
rejection-FailsSoftly p (share_stopped n k) x e i h = (refl, λ q. cc)
rejection-FailsSoftly p t x e i h = cc

stream-FailsSoftly :
    (p : Platform) (t : Task) (ts : List Track) (e : AudioCallEngine) (i : ℕ)
    → is_failure p t (resolved ts) ≡ true
    → FailsSoftly e (holds t (resolved ts)) i (resume p t (resolved ts) e).0
unfolding resume resume_mic_media resume_camera_media resume_enable_media resume_share_media
stream-FailsSoftly p (mic_media n d) ts e i h = (ground arith, ground arith)
stream-FailsSoftly p (camera_media n s d) ts e i h = (ground arith, ground arith)
stream-FailsSoftly p (enable_media n s) ts e i h = (ground arith, ground arith)
stream-FailsSoftly p (share_media n s) ts e i h = (ground arith, ground arith)
stream-FailsSoftly p t ts e i h = cc

-- A failure while a device, the camera or the screen share is being switched, be it a rejected promise, a
-- stream without the track that was wanted, or the want of a sender for the microphone's new track, changes
-- nothing of the engine but its log, and stops every track that the switch holds.
pub switching-FailsSoftly :
    (p : Platform) (t : Task) (o : Outcome) (e : AudioCallEngine) (i : ℕ)
    → is_switching t ≡ true
    → is_failure p t o ≡ true
    → FailsSoftly e (holds t o) i (resume p t o e).0
switching-FailsSoftly p t (rejected x) e i h k = rejection-FailsSoftly p t x e i h
switching-FailsSoftly p t (resolved ts) e i h k = stream-FailsSoftly p t ts e i k
