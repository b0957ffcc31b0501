-- ===== src/Calls/Bridge.antt =====
-- packages/calls/bridge/index.ts: `CallBridge`, which owns an engine and a route monitor, and makes the
-- RPC calls of one call. What a step of the engine tells its callbacks is heard by the bridge, in order;
-- A step is heard when it is done; the only callback that calls the engine back is `sendAnswer` without a
-- message id. `has_audio` says whether a remote stream has an audio track, `h` is the handle of a new interval.
pub mod Steps
pub mod Hangup
pub mod Counts
pub mod Reports
use Prim.Native.String.{String}
use slothfulchat_web.Prelude.{
  ℕ, Bool, true, false, Option, none, some, List, [], ◌∷◌, reverse, if◌then◌else◌, or_else,
}
use slothfulchat_web.Calls.CallState.{
  CallState, idle, ringing, connecting, connected, ended, CallDirection, outgoing, incoming,
  CallStateChange, same_state, notify,
}
use slothfulchat_web.Calls.ConnectionRoute.Monitor.{ConnectionRouteMonitor, new_monitor, start}
use slothfulchat_web.Calls.Engine.State.{
  Effect, on_state_change, on_local_offer, on_local_answer, on_error, on_device_switch_error,
  on_screen_share_error, on_remote_stream, on_local_track_changed, on_local_video_track_changed,
  on_screen_share_changed, on_remote_video_active_changed, on_remote_audio_muted_changed,
  AudioCallEngine, AudioCallOptions, new_engine,
}
use slothfulchat_web.Calls.Engine.Media.{message}
use slothfulchat_web.Calls.Engine.Teardown.{end_call}
use slothfulchat_web.Calls.Engine.Setup.{accept}
use slothfulchat_web.Calls.Engine.World.{Call, places, receives, call}

pub data RpcEffect : Type 0 where
  place_outgoing_call : String → Bool → RpcEffect
  accept_incoming_call : ℕ → String → RpcEffect
  rpc_end_call : ℕ → RpcEffect
  on_call_message_id : ℕ → RpcEffect
  -- `onError` for a failed RPC call.
  on_rpc_error : String → RpcEffect
  -- A callback of the engine that the bridge passes on.
  callback : Effect → RpcEffect

-- The bridge's own methods at their await: `placeOutgoing` and `sendAnswer`.
pub data RpcTask : Type 0 where
  placing_call sending_answer : RpcTask

pub data RpcOutcome : Type 0 where
  placed : ℕ → RpcOutcome
  accepted : RpcOutcome
  failed : String → RpcOutcome

pub record CallBridge : Type 0 where
  pub direction : CallDirection
  pub has_video : Bool
  pub call_message_id : Option ℕ
  pub pending_offer_sdp : Option String
  pub engine : AudioCallEngine
  pub local_level_meter : Bool
  pub remote_level_meter : Bool
  pub route_monitor : Option ConnectionRouteMonitor
  pub end_call_sent : Bool
  -- The RPC calls that were not answered, and what was done, newest first.
  pub waiting : List RpcTask
  pub log : List RpcEffect

abbrev pub tell : RpcEffect → CallBridge → CallBridge
tell x b = record b { log = x ∷ b.log }

abbrev new_bridge : CallDirection → Bool → Option ℕ → Option String → AudioCallOptions → CallBridge
new_bridge d v msg sdp o = record {
  direction = d;
  has_video = v;
  call_message_id = msg;
  pending_offer_sdp = sdp;
  engine = new_engine (record o { has_video = some v; on_state_change = some 0 });
  local_level_meter = false;
  remote_level_meter = false;
  route_monitor = none;
  end_call_sent = false;
  waiting = [];
  log = [];
}

unfoldable pub outgoing_bridge : Bool → AudioCallOptions → CallBridge
outgoing_bridge v o = new_bridge outgoing v none none o

-- Answering never starts the camera.
unfoldable pub incoming_bridge : ℕ → String → AudioCallOptions → CallBridge
incoming_bridge msg sdp o = new_bridge incoming false (some msg) (some sdp) o

unfoldable pub start_route_monitor : ℕ → CallBridge → CallBridge
start_route_monitor h b = record b {
  route_monitor = some (start (or_else b.route_monitor new_monitor) h).0;
}

unfoldable pub stop_route_monitor : CallBridge → CallBridge
stop_route_monitor b = record b { route_monitor = none }

unfoldable pub stop_level_meters : CallBridge → CallBridge
stop_level_meters b = record b { local_level_meter = false; remote_level_meter = false }

unfoldable pub start_remote_level_meter : Bool → CallBridge → CallBridge
start_remote_level_meter has_audio b = record b { remote_level_meter = has_audio }

unfoldable pub retap_local_level_meter : CallBridge → CallBridge
retap_local_level_meter b = record b { local_level_meter = true }

-- What follows the caller's `onStateChange`.
abbrev pub follow_state : ℕ → CallState → CallBridge → CallBridge
follow_state h connected b = start_route_monitor h b
follow_state h ended b = stop_route_monitor (stop_level_meters b)
follow_state h idle b = b
follow_state h ringing b = b
follow_state h connecting b = b

unfoldable pub hear_changes : ℕ → List (ℕ × CallStateChange) → CallBridge → CallBridge
hear_changes h [] b = b
hear_changes h ((l, c) ∷ cs) b = hear_changes h cs (follow_state h c.to b)

-- `engine.end()` and its one callback, the change of state.
unfoldable pub end_engine : CallBridge → CallBridge
end_engine b =
    let m = b.engine.machine in
    if same_state m.current_state ended
    then b
    else stop_route_monitor (
        stop_level_meters (
          tell (callback (on_state_change (notify m m.current_state ended)))
            (record b { engine = record (end_call b.engine) { log = [] } })))

unfoldable pub send_end_call : ℕ → CallBridge → CallBridge
send_end_call msg b =
    if b.end_call_sent then b else tell (rpc_end_call msg) (record b { end_call_sent = true })

-- `placeOutgoing` and `sendAnswer` up to their awaits.
unfoldable pub place_outgoing : String → CallBridge → CallBridge
place_outgoing sdp b =
    tell (place_outgoing_call sdp b.has_video) (record b { waiting = placing_call ∷ b.waiting })

-- `sendAnswer` with the message id that it read.
abbrev pub answer_with : Option ℕ → String → CallBridge → CallBridge
answer_with none sdp b =
    tell (on_rpc_error "CallBridge: accept without a call message id") (end_engine b)
answer_with (some msg) sdp b =
    tell (accept_incoming_call msg sdp) (record b { waiting = sending_answer ∷ b.waiting })

unfoldable pub send_answer : String → CallBridge → CallBridge
send_answer sdp b = answer_with b.call_message_id sdp b

-- One callback of the engine.
unfoldable pub hear : ℕ → Bool → Effect → CallBridge → CallBridge
hear h has_audio (on_state_change cs) b = hear_changes h cs (tell (callback (on_state_change cs)) b)
hear h has_audio (on_remote_stream s) b =
    start_remote_level_meter has_audio (tell (callback (on_remote_stream s)) b)
hear h has_audio (on_local_track_changed t) b = retap_local_level_meter b
hear h has_audio (on_local_offer sdp) b = place_outgoing sdp b
hear h has_audio (on_local_answer sdp) b = send_answer sdp b
hear h has_audio (on_error m) b = tell (callback (on_error m)) b
hear h has_audio (on_device_switch_error m) b = tell (callback (on_device_switch_error m)) b
hear h has_audio (on_local_video_track_changed t) b =
    tell (callback (on_local_video_track_changed t)) b
hear h has_audio (on_remote_video_active_changed v) b =
    tell (callback (on_remote_video_active_changed v)) b
hear h has_audio (on_remote_audio_muted_changed v) b =
    tell (callback (on_remote_audio_muted_changed v)) b
hear h has_audio (on_screen_share_changed v) b = tell (callback (on_screen_share_changed v)) b
hear h has_audio (on_screen_share_error m) b = tell (callback (on_screen_share_error m)) b
hear h has_audio _ b = b

unfoldable pub hear_all : ℕ → Bool → List Effect → CallBridge → CallBridge
hear_all h has_audio [] b = b
hear_all h has_audio (x ∷ xs) b = hear_all h has_audio xs (hear h has_audio x b)

-- The bridge behind a step of its engine: `e` ran with an empty log.
abbrev pub absorb : ℕ → Bool → AudioCallEngine → CallBridge → CallBridge
absorb h has_audio e b =
    hear_all h has_audio (reverse e.log) (record b { engine = record e { log = [] } })

-- Methods

unfoldable pub start_call : CallBridge → Option Call
start_call b = elim b.direction [
  | outgoing ↦ some places
  | incoming ↦ elim b.pending_offer_sdp [ none ↦ none | some sdp ↦ some (receives sdp) ]
]

abbrev pub send_if_known : Option ℕ → CallBridge → CallBridge
send_if_known none b = b
send_if_known (some msg) b = send_end_call msg b

unfoldable pub hangup : CallBridge → CallBridge
hangup b = send_if_known b.call_message_id (end_engine b)

unfoldable pub remote_ended : CallBridge → CallBridge
remote_ended b = end_engine (record b { end_call_sent = true })

unfoldable pub accepted_elsewhere : CallBridge → CallBridge
accepted_elsewhere b = end_engine (record b { end_call_sent = true })

-- The rest of `placeOutgoing` and of `sendAnswer`.
unfoldable pub resume_rpc : RpcTask → RpcOutcome → CallBridge → CallBridge
resume_rpc placing_call (placed msg) b =
    if same_state b.engine.machine.current_state ended
    then send_end_call msg (record b { call_message_id = some msg })
    else tell (on_call_message_id msg) (record b { call_message_id = some msg })
resume_rpc placing_call accepted b = b
resume_rpc placing_call (failed m) b = tell (on_rpc_error m) (end_engine b)
resume_rpc sending_answer (failed m) b = tell (on_rpc_error m) (end_engine b)
resume_rpc sending_answer accepted b = b
resume_rpc sending_answer (placed msg) b = b
