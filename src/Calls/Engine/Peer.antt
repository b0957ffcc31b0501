-- ===== src/Calls/Engine/Peer.antt =====
-- packages/calls/engine/audio-call.ts: the peer connection, its listeners and the `mutedState` channel.
use slothfulchat_web.Prelude.{
  ℕ, ◌==◌, Bool, true, false, not, ◌&&◌, Option, none, some, if◌then◌else◌, find, or_else,
}
use slothfulchat_web.Calls.CallState.{connected as in_call}
use slothfulchat_web.Calls.Engine.State.{
  ConnectionState, new, checking, connected, disconnected, failed, closed, Heading, recvonly,
  inactive, Transceiver, Platform, create_peer_connection, add_remote_track, warn_no_video_line,
  warn_no_send_direction, on_remote_stream, on_remote_video_active_changed,
  on_remote_audio_muted_changed, AudioCallEngine,
}
use slothfulchat_web.Calls.Engine.Media.{emit, move, ensure_active, send_local_muted_state}
use slothfulchat_web.Calls.Engine.Teardown.{end_call}

-- The peer connection with its two data channels and its listeners, which hold the epoch.
unfoldable pub make_peer_connection : ℕ → AudioCallEngine → AudioCallEngine
make_peer_connection n e =
    emit create_peer_connection (record e { pc = some n; muted_state_channel = true })

abbrev pub grants_no_sending : Option Heading → Option Heading
grants_no_sending (some recvonly) = some recvonly
grants_no_sending (some inactive) = some inactive
grants_no_sending _ = none

abbrev pub heading_of : Option Transceiver → Option Heading
heading_of none = none
heading_of (some t) = t.current_direction

abbrev pub warned : Option Heading → AudioCallEngine → AudioCallEngine
warned none e = e
warned (some h) e = emit (warn_no_send_direction h) e

abbrev pub diagnosed : Platform → Option ℕ → AudioCallEngine → AudioCallEngine
diagnosed p none e = emit warn_no_video_line e
diagnosed p (some s) e =
    warned (grants_no_sending (heading_of (find (λ t. t.sender == s) p.transceivers))) e

unfoldable pub log_video_negotiation_diagnostics : Platform → AudioCallEngine → AudioCallEngine
log_video_negotiation_diagnostics p e =
    if e.video_diagnostics_logged
    then e
    else diagnosed p e.video_sender (record e { video_diagnostics_logged = true })

abbrev pub promote : Platform → AudioCallEngine → AudioCallEngine
promote p e = log_video_negotiation_diagnostics p (move in_call e).0

abbrev pub is_connected : ConnectionState → Bool
is_connected connected = true
is_connected _ = false

unfoldable pub maybe_promote_connected : Platform → ℕ → AudioCallEngine → AudioCallEngine
maybe_promote_connected p n e =
    if ensure_active e n && is_connected p.connection_state then promote p e else e

-- The listener of `connectionstatechange`, with the state that it reads.
abbrev pub changed_to : ConnectionState → Platform → AudioCallEngine → AudioCallEngine
changed_to connected p e = promote p e
changed_to failed p e = end_call e
changed_to closed p e = end_call e
changed_to new p e = e
changed_to checking p e = e
changed_to disconnected p e = e

unfoldable pub connection_listener : Platform → AudioCallEngine → AudioCallEngine
connection_listener p e = elim e.pc [
  | none ↦ e
  | some n ↦ if ensure_active e n then changed_to p.connection_state p e else e
]

abbrev pub same_flag : Option Bool → Bool → Bool
same_flag (some true) true = true
same_flag (some false) false = true
same_flag _ _ = false

unfoldable pub emit_remote_video_active : Bool → AudioCallEngine → AudioCallEngine
emit_remote_video_active a e =
    if same_flag e.remote_video_active a
    then e
    else emit (on_remote_video_active_changed a) (record e { remote_video_active = some a })

unfoldable pub emit_remote_audio_muted : Bool → AudioCallEngine → AudioCallEngine
emit_remote_audio_muted m e =
    if same_flag e.remote_audio_muted m
    then e
    else emit (on_remote_audio_muted_changed m) (record e { remote_audio_muted = some m })

-- The data of a `message` event: no JSON text of an object, or an object with its two members as
-- truth values.
pub data MutedMessage : Type 0 where
  malformed : MutedMessage
  muted_message : Bool → Bool → MutedMessage

unfoldable pub handle_remote_muted_state : MutedMessage → AudioCallEngine → AudioCallEngine
handle_remote_muted_state malformed e = e
handle_remote_muted_state (muted_message audio_enabled video_enabled) e =
    emit_remote_audio_muted (not audio_enabled)
      (emit_remote_video_active video_enabled (record e { remote_muted_state_received = true }))

-- A listener that holds the epoch of the peer connection and checks it first.
abbrev pub guarded :
    (AudioCallEngine → AudioCallEngine) → Option ℕ → AudioCallEngine → AudioCallEngine
guarded f none e = e
guarded f (some n) e = if ensure_active e n then f e else e

unfoldable pub muted_open_listener : Platform → AudioCallEngine → AudioCallEngine
muted_open_listener p e = guarded (send_local_muted_state p) e.pc e

unfoldable pub muted_message_listener : MutedMessage → AudioCallEngine → AudioCallEngine
muted_message_listener m e = guarded (handle_remote_muted_state m) e.pc e

-- A remote video track with its `muted` flag.
pub record RemoteTrack : Type 0 where
  pub id : ℕ
  pub muted : Bool

abbrev pub is_live : Option RemoteTrack → Bool
is_live none = false
is_live (some t) = not t.muted

abbrev pub id_of : Option RemoteTrack → Option ℕ
id_of none = none
id_of (some t) = some t.id

-- The first video track of the remote stream, or its absence; the watched track has the listeners.
unfoldable pub watch_remote_video_track : Option RemoteTrack → AudioCallEngine → AudioCallEngine
watch_remote_video_track t e =
    let watched = record e { remote_video_track = id_of t } in
    if watched.remote_muted_state_received
    then watched
    else emit_remote_video_active (is_live t) watched

-- A `track` event: its first stream, the stream that `new MediaStream()` would make, whether the
-- stream that is used has the track already, and that stream's first video track afterwards.
pub record TrackEvent : Type 0 where
  pub stream : Option ℕ
  pub fresh : ℕ
  pub track : ℕ
  pub included : Bool
  pub first_video : Option RemoteTrack

abbrev pub received : TrackEvent → Option ℕ → AudioCallEngine → ℕ × AudioCallEngine
received v (some s) e = (s, e)
received v none e =
    let s = or_else e.remote_stream v.fresh in
    (s, if v.included then e else emit (add_remote_track v.track) e)

unfoldable pub on_track : TrackEvent → AudioCallEngine → AudioCallEngine
on_track v e =
    let (s, e') = received v v.stream e in
    watch_remote_video_track v.first_video
      (emit (on_remote_stream s) (record e' { remote_stream = some s }))

unfoldable pub track_listener : TrackEvent → AudioCallEngine → AudioCallEngine
track_listener v e = guarded (on_track v) e.pc e

-- `mute`, `unmute` and `ended` of the watched track.
abbrev pub is_watched : Option ℕ → ℕ → Bool
is_watched none t = false
is_watched (some s) t = s == t

unfoldable pub video_track_updated : RemoteTrack → AudioCallEngine → AudioCallEngine
video_track_updated t e =
    if is_watched e.remote_video_track t.id && not e.remote_muted_state_received
    then emit_remote_video_active (not t.muted) e
    else e

unfoldable pub video_track_ended : ℕ → AudioCallEngine → AudioCallEngine
video_track_ended t e =
    if is_watched e.remote_video_track t && not e.remote_muted_state_received
    then emit_remote_video_active false e
    else e
