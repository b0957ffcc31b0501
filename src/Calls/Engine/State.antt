-- ===== src/Calls/Engine/State.antt =====
-- packages/calls/engine/audio-call.ts: what the engine holds, what it asks of the platform, and
-- where its asynchronous methods wait. A track, a sender, a transceiver and a remote stream are
-- numbers, and so is an epoch object; the log has the newest effect first.
use Prim.Native.String.{String}
use slothfulchat_web.Prelude.{ℕ, Bool, true, false, Option, none, some, List, []}
use slothfulchat_web.Calls.CallState.{
  CallState, CallDirection, CallStateChange, CallStateMachine, new_machine, subscribe,
}

pub data Kind : Type 0 where
  audio video : Kind

pub record Track : Type 0 where
  pub id : ℕ
  pub kind : Kind

-- A caught value: an `Error` with its message, or another value with its text.
pub data Thrown : Type 0 where
  error value : String → Thrown

-- `MediaTrackConstraints | boolean`; an object has its other members and `deviceId: { exact }`.
pub data Constraints : Type 0 where
  plain : Bool → Constraints
  members : List (String × String) → Option String → Constraints

pub record Request : Type 0 where
  pub audio : Constraints
  pub video : Constraints

pub data ConnectionState : Type 0 where
  new checking connected disconnected failed closed : ConnectionState

pub data Heading : Type 0 where
  sendrecv sendonly recvonly inactive : Heading

pub record Sender : Type 0 where
  pub id : ℕ
  pub track : Option Kind

pub record Transceiver : Type 0 where
  pub id : ℕ
  pub sender : ℕ
  pub receives : Option Kind
  pub current_direction : Option Heading

-- What the platform answers while the engine runs without awaiting: the state of the data channel
-- and of the peer connection, its senders and transceivers, the sender that `addTrack` or
-- `addTransceiver` makes, the failure of `createPeerConnection`, and the track that
-- `createPlaceholderVideoTrack` makes.
pub record Platform : Type 0 where
  pub channel_open : Bool
  pub connection_state : ConnectionState
  pub local_sdp : Option String
  pub senders : List Sender
  pub transceivers : List Transceiver
  pub added_sender : ℕ
  pub peer_connection_error : Option Thrown
  pub placeholder : Track

pub data Effect : Type 0 where
  get_user_media : Request → Effect
  get_display_media create_peer_connection gather close_peer_connection abort_gather : Effect
  add_tracks stop_tracks : List Track → Effect
  set_enabled : List Track → Bool → Effect
  add_transceiver create_offer create_answer set_local_description : Effect
  set_remote_description : String → Effect
  set_streams set_sendrecv : ℕ → Effect
  replace_track : ℕ → Option Track → Effect
  send_muted_state : Bool → Bool → Effect
  add_remote_track : ℕ → Effect
  warn_no_video_line : Effect
  warn_no_send_direction : Heading → Effect
  on_state_change : List (ℕ × CallStateChange) → Effect
  on_local_offer on_local_answer on_error on_device_switch_error on_screen_share_error :
      String → Effect
  on_remote_stream : ℕ → Effect
  on_local_track_changed : Track → Effect
  on_local_video_track_changed : Option Track → Effect
  on_screen_share_changed on_remote_video_active_changed on_remote_audio_muted_changed :
      Bool → Effect

pub record AudioCallEngine : Type 0 where
  pub machine : CallStateMachine
  pub audio_constraints : Constraints
  pub video_constraints : Constraints
  pub can_share : Bool
  pub can_make_placeholder : Bool
  pub selected_audio_input : Option String
  pub wants_video : Bool
  pub selected_video_input : Option String
  pub direction : Option CallDirection
  -- The peer connection, as the epoch that its listeners hold.
  pub pc : Option ℕ
  pub local_stream : Option (List Track)
  pub remote_stream : Option ℕ
  pub video_sender : Option ℕ
  pub placeholder_video_track : Option Track
  pub screen_share_stream : Option (List Track)
  pub screen_sharing : Bool
  pub camera_on : Bool
  pub muted : Bool
  pub pending_remote_offer : Option String
  pub pending_camera_start_error : Option String
  pub epoch : Option ℕ
  -- How many epoch objects were made: the next one is new.
  pub epochs : ℕ
  pub gather_abort : Bool
  pub muted_state_channel : Bool
  pub remote_muted_state_received : Bool
  pub remote_video_active : Option Bool
  pub remote_audio_muted : Option Bool
  pub remote_video_track : Option ℕ
  pub video_diagnostics_logged : Bool
  pub log : List Effect

pub record AudioCallOptions : Type 0 where
  pub audio_constraints : Option Constraints
  pub audio_input_device_id : Option String
  pub has_video : Option Bool
  pub video_constraints : Option Constraints
  pub video_input_device_id : Option String
  pub get_display_media : Bool
  pub create_placeholder_video_track : Bool
  -- The listener `callbacks.onStateChange`.
  pub on_state_change : Option ℕ

-- What an asynchronous set-up works on: `placeCall`, or `accept` with the stored offer.
pub data Flow : Type 0 where
  placing : Flow
  accepting : String → Flow

-- What follows `stopScreenShare`: nothing, or the rest of `setCameraEnabled(enabled)`.
pub data After : Type 0 where
  nothing : After
  set_camera : ℕ → ℕ → Bool → After

-- An asynchronous method at one of its awaits, with the values that it holds: first the epoch, and
-- behind it the video sender, where the method took it before the await.
pub data Task : Type 0 where
  first_media audio_media : Flow → ℕ → Task
  retry_media : Flow → ℕ → String → Task
  remote_set : String → ℕ → Task
  placeholder_set tracks_added description_made local_set gathered : Flow → ℕ → Task
  answer_set : ℕ → Task
  mic_media : ℕ → String → Task
  camera_media : ℕ → ℕ → String → Task
  mic_replaced camera_replaced : ℕ → String → List Track → Track → Task
  disable_replaced : ℕ → Task
  enable_media share_media : ℕ → ℕ → Task
  enable_replaced share_replaced : ℕ → List Track → Track → Task
  share_stopped : ℕ → After → Task
  share_cleared : ℕ → ℕ → Bool → Task

-- How an awaited promise settles: with the tracks of a stream (none for a promise of no stream), or
-- with what was thrown.
pub data Outcome : Type 0 where
  resolved : List Track → Outcome
  rejected : Thrown → Outcome

-- The errors that a method throws at its caller.
pub data Misuse : Type 0 where
  expected_idle expected_ringing : CallState → Misuse
  not_incoming no_pending_offer not_outgoing no_peer_connection empty_sdp : Misuse

-- What a method does until it awaits, returns or throws at its caller.
pub data Reply : Type 0 where
  goes : AudioCallEngine → Option Task → Reply
  throws : Misuse → Reply

abbrev with_listener : Option ℕ → CallStateMachine
with_listener none = new_machine
with_listener (some l) = subscribe new_machine l

abbrev given {ℓ} : {A : Type ℓ} → Option A → A → A
given none a = a
given (some a) _ = a

unfoldable pub new_engine : AudioCallOptions → AudioCallEngine
new_engine o = record {
  machine = with_listener o.on_state_change;
  audio_constraints = given o.audio_constraints (plain true);
  video_constraints = given o.video_constraints (plain true);
  can_share = o.get_display_media;
  can_make_placeholder = o.create_placeholder_video_track;
  selected_audio_input = o.audio_input_device_id;
  wants_video = given o.has_video false;
  selected_video_input = o.video_input_device_id;
  direction = none;
  pc = none;
  local_stream = none;
  remote_stream = none;
  video_sender = none;
  placeholder_video_track = none;
  screen_share_stream = none;
  screen_sharing = false;
  camera_on = false;
  muted = false;
  pending_remote_offer = none;
  pending_camera_start_error = none;
  epoch = none;
  epochs = 0;
  gather_abort = false;
  muted_state_channel = false;
  remote_muted_state_received = false;
  remote_video_active = none;
  remote_audio_muted = none;
  remote_video_track = none;
  video_diagnostics_logged = false;
  log = [];
}
