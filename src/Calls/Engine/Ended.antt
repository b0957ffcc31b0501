-- ===== src/Calls/Engine/Ended.antt =====
-- packages/calls/engine/audio-call.ts: what an engine that has ended still holds, and the parts that
-- the operations share.
pub mod Setup
pub mod Switching
pub mod Peer
pub mod Steps
use Prim.Native.String.{String}
use slothfulchat_web.Prelude.{ℕ, ◌≡◌, false, none, arith}
use slothfulchat_web.Calls.Engine.State.{
  Track, Platform, AudioCallEngine, Outcome, resolved, rejected,
}
use slothfulchat_web.Calls.CallState.{CallState, ended, same_state, transition}
use slothfulchat_web.Calls.Engine.Media.{
  message, move, send_local_muted_state, swap_local_video_track, remove_local_video_tracks,
}
use slothfulchat_web.Calls.Engine.Teardown.{release_screen_share_stream, teardown, end_call, fail}
use slothfulchat_web.Calls.Engine.Peer.{log_video_negotiation_diagnostics}
use slothfulchat_web.Calls.Engine.Setup.{Cut, checked}

-- An engine that has let go of everything that it can hold.
pub record IsReleased (e : AudioCallEngine) : Type 0 where
  pub epoch : e.epoch ≡ none
  pub pc : e.pc ≡ none
  pub local_stream : e.local_stream ≡ none
  pub remote_stream : e.remote_stream ≡ none
  pub video_sender : e.video_sender ≡ none
  pub placeholder : e.placeholder_video_track ≡ none
  pub screen_share : e.screen_share_stream ≡ none
  pub sharing : e.screen_sharing ≡ false
  pub camera : e.camera_on ≡ false
  pub offer : e.pending_remote_offer ≡ none
  pub channel : e.muted_state_channel ≡ false
  pub watched : e.remote_video_track ≡ none
  pub gathering : e.gather_abort ≡ false

abbrev pub HasEnded : AudioCallEngine → Type 0
HasEnded e = e.machine.current_state ≡ ended

abbrev pub Settled : AudioCallEngine → Type 0
Settled e = HasEnded e → IsReleased e

pub send_local_muted_state-machine :
    (p : Platform) (e : AudioCallEngine) → (send_local_muted_state p e).machine ≡ e.machine
unfolding send_local_muted_state
send_local_muted_state-machine p e = ground arith

pub swap_local_video_track-machine :
    (t : Track) (e : AudioCallEngine) → (swap_local_video_track t e).machine ≡ e.machine
unfolding swap_local_video_track
swap_local_video_track-machine t e = ground arith

pub remove_local_video_tracks-machine :
    (e : AudioCallEngine) → (remove_local_video_tracks e).machine ≡ e.machine
unfolding remove_local_video_tracks
remove_local_video_tracks-machine e = ground arith

pub release_screen_share_stream-machine :
    (e : AudioCallEngine) → (release_screen_share_stream e).machine ≡ e.machine
unfolding release_screen_share_stream
release_screen_share_stream-machine e = ground arith

pub move-Settled :
    (t : CallState) (e : AudioCallEngine)
    → same_state t ended ≡ false
    → Settled e
    → Settled (move t e).0
unfolding move transition
move-Settled t e n h = ground arith

pub diagnostics-Settled :
    (p : Platform) (e : AudioCallEngine)
    → Settled e
    → Settled (log_video_negotiation_diagnostics p e)
unfolding log_video_negotiation_diagnostics
diagnostics-Settled p e h = ground arith

-- What `teardown` does not release is released before it.
record Prepared (e : AudioCallEngine) : Type 0 where
  epoch : e.epoch ≡ none
  video_sender : e.video_sender ≡ none
  screen_share : e.screen_share_stream ≡ none
  sharing : e.screen_sharing ≡ false
  camera : e.camera_on ≡ false
  gathering : e.gather_abort ≡ false

teardown-IsReleased : (e : AudioCallEngine) → Prepared e → IsReleased (teardown e)
unfolding teardown
teardown-IsReleased e h = ground arith

prepared_lem :
    (e : AudioCallEngine)
    → e.epoch ≡ none
    → e.gather_abort ≡ false
    → Prepared (record (release_screen_share_stream e) {
      screen_sharing = false;
      camera_on = false;
      video_sender = none;
    })
unfolding release_screen_share_stream
prepared_lem e h k = ground arith

released_lem :
    (e : AudioCallEngine)
    → e.epoch ≡ none
    → e.gather_abort ≡ false
    → IsReleased (
        teardown (record (release_screen_share_stream e) {
          screen_sharing = false;
          camera_on = false;
          video_sender = none;
        }))
released_lem e h k = teardown-IsReleased _ (prepared_lem e h k)

move-gather_abort :
    (t : CallState) (e : AudioCallEngine) → (move t e).0.gather_abort ≡ e.gather_abort
unfolding move transition
move-gather_abort t e = ground arith

pub end_call-Settled : (e : AudioCallEngine) → Settled e → Settled (end_call e)
unfolding end_call
end_call-Settled e h = grind (arith, released_lem, move-gather_abort)

pub fail-Settled : (n : ℕ) (m : String) (e : AudioCallEngine) → Settled e → Settled (fail n m e)
unfolding fail
fail-Settled n m e h = ground (arith, end_call-Settled e)

pub checked-Settled :
    (n : ℕ) (r : Outcome) (e : AudioCallEngine) (k : Cut)
    → Settled e
    → (¬ HasEnded e → Settled k.0)
    → Settled (checked n r e k).0
checked-Settled n (rejected x) e k h g = fail-Settled n (message x) e h
checked-Settled n (resolved ts) e k h g = ground (arith, g)

teardown-machine : (e : AudioCallEngine) → (teardown e).machine ≡ e.machine
unfolding teardown
teardown-machine e = ground arith

move-ended : (e : AudioCallEngine) → (move ended e).0.machine.current_state ≡ ended
unfolding move transition
move-ended e = ground arith

pub end_call-HasEnded : (e : AudioCallEngine) → HasEnded (end_call e)
unfolding end_call
end_call-HasEnded e =
    grind (arith, teardown-machine, release_screen_share_stream-machine, move-ended)
