-- ===== src/Calls/Engine/Setup.antt =====
-- packages/calls/engine/audio-call.ts: placing, receiving, accepting and answering a call, cut at
-- each await.
use Prim.Native.String.{String}
use slothfulchat_web.Prelude.{
  ℕ, ◌==◌, Bool, true, false, not, ◌||◌, Option, none, some, List, [], ◌∷◌, if◌then◌else◌, find,
  head, is_some, or_else,
}
use slothfulchat_web.Calls.CallState.{
  idle, ringing, connecting, ended, same_state, CallDirection, outgoing, incoming,
}
use slothfulchat_web.Calls.Signaling.{
  offer, answer, serialize_offer, serialize_answer, deserialize_offer, deserialize_answer, ok,
  thrown,
}
use slothfulchat_web.Calls.Engine.State.{
  Kind, audio, video, Track, Constraints, plain, members, Sender, Transceiver, Platform, Effect,
  get_user_media, gather, add_tracks, add_transceiver, create_offer, create_answer,
  set_local_description, set_remote_description, set_streams, set_sendrecv, replace_track,
  on_local_offer, on_local_answer, AudioCallEngine, Flow, placing, accepting, Task, first_media,
  audio_media, retry_media, remote_set, placeholder_set, tracks_added, description_made, local_set,
  gathered, answer_set, Outcome, resolved, rejected, Reply, goes, throws, expected_idle,
  expected_ringing, not_incoming, no_pending_offer, not_outgoing, no_peer_connection, empty_sdp,
}
use slothfulchat_web.Calls.Engine.Media.{
  audio_tracks, video_tracks, emit, message, move, audio_constraints_for, media_constraints,
  ensure_active, stop_stream, apply_muted_to_local_stream, notify_local_track_changed,
  flush_camera_start_error,
}
use slothfulchat_web.Calls.Engine.Teardown.{fail, begin_epoch}
use slothfulchat_web.Calls.Engine.Peer.{make_peer_connection, maybe_promote_connected}

abbrev pub Cut : Type 0
Cut = AudioCallEngine × Option Task

-- `acquireInitialLocalStream` up to its first `getUserMedia`.
abbrev pub is_off : Constraints → Bool
is_off (plain b) = not b
is_off (members ms d) = false

unfoldable pub acquire_initial_local_stream : Flow → ℕ → AudioCallEngine → Cut
acquire_initial_local_stream fl n e =
    let request = media_constraints e in
    (
      emit (get_user_media request) e,
      some (if is_off request.video then audio_media fl n else first_media fl n),
    )

-- Its audio-only retry.
unfoldable pub retry_audio_only : Flow → ℕ → String → AudioCallEngine → Cut
retry_audio_only fl n m e = (
  emit
      (get_user_media
        (record { audio = audio_constraints_for e e.selected_audio_input; video = plain false }))
      e,
  some (retry_media fl n m),
)

abbrev pub is_kind : Kind → Option Kind → Bool
is_kind audio (some audio) = true
is_kind video (some video) = true
is_kind _ _ = false

abbrev pub sender_of : Kind → List Sender → Option ℕ
sender_of k ss = elim (find (λ s. is_kind k s.track) ss) [ none ↦ none | some s ↦ some s.id ]

abbrev pub trackless : List Sender → Option ℕ
trackless ss = elim (find (λ s. not (is_some s.track)) ss) [ none ↦ none | some s ↦ some s.id ]

-- `getPlaceholderTrack`: the engine with the track in place, if there is a factory.
unfoldable pub get_placeholder_track : Platform → AudioCallEngine → AudioCallEngine
get_placeholder_track p e =
    if is_some e.placeholder_video_track
    then e
    else if e.can_make_placeholder
    then record e { placeholder_video_track = some p.placeholder }
    else e

-- `promoteVideoTransceiverToSendrecv`: the transceiver of the sender, or one that receives video.
abbrev pub owner : ℕ → List Transceiver → Option Transceiver
owner s ts = elim (find (λ t. t.sender == s) ts) [
  | some t ↦ some t
  | none ↦ find (λ t. is_kind video t.receives) ts
]

abbrev pub headed : Option Transceiver → AudioCallEngine → AudioCallEngine
headed none e = e
headed (some t) e = emit (set_sendrecv t.id) e

unfoldable pub promote_video_transceiver_to_sendrecv :
    Platform → ℕ → AudioCallEngine → AudioCallEngine
promote_video_transceiver_to_sendrecv p s e = headed (owner s p.transceivers) e

-- The last statement of `addLocalTracks`, and its return to the caller.
abbrev pub without_camera : Flow → ℕ → AudioCallEngine → Cut
without_camera fl n e = (record e { camera_on = false }, some (tracks_added fl n))

-- The answerer's trackless sender gets the placeholder, if there is one.
abbrev pub adopt_sender : Flow → ℕ → ℕ → Option Track → AudioCallEngine → Cut
adopt_sender fl n s none e = without_camera fl n e
adopt_sender fl n s (some t) e = (emit (replace_track s (some t)) e, some (placeholder_set fl n))

abbrev pub offer_video : Platform → ℕ → Flow → Option Track → AudioCallEngine → Cut
offer_video p n fl none e =
    without_camera fl n (emit add_transceiver (record e { video_sender = some p.added_sender }))
offer_video p n fl (some t) e =
    without_camera fl n
      (emit (add_tracks (t ∷ [])) (record e { video_sender = some p.added_sender }))

abbrev pub without_sender : Platform → ℕ → Flow → AudioCallEngine → Cut
without_sender p n placing e = offer_video p n placing e.placeholder_video_track e
without_sender p n (accepting o) e =
    without_camera (accepting o) n (record e { video_sender = none })

unfoldable pub add_video : Platform → ℕ → Flow → Option ℕ → AudioCallEngine → Cut
add_video p n fl none e = without_sender p n fl e
add_video p n fl (some s) e = adopt_sender fl n s e.placeholder_video_track (
    promote_video_transceiver_to_sendrecv p s
      (emit (set_streams s) (record e { video_sender = some s })))

-- `addLocalTracks` for the tracks of the local stream.
unfoldable pub add_local_tracks : Platform → ℕ → Flow → List Track → AudioCallEngine → Cut
add_local_tracks p n fl ts e =
    let e' = emit (add_tracks (audio_tracks ts)) e in
    elim (head (video_tracks ts)) [
      | some v ↦
          let s = sender_of video p.senders in
          (
            record (emit (add_tracks (v ∷ [])) e') { video_sender = s; camera_on = is_some s },
            some (tracks_added fl n),
          )
      | none ↦ add_video p n fl (trackless p.senders) (get_placeholder_track p e')
    ]

-- After the peer connection is made and gathering has begun: the offerer adds its tracks, the
-- answerer applies the offer first.
unfoldable pub negotiate : Platform → ℕ → Flow → List Track → AudioCallEngine → Cut
negotiate p n placing ts e = add_local_tracks p n placing ts e
negotiate p n (accepting o) ts e = (emit (set_remote_description o) e, some (remote_set o n))

unfoldable pub open_peer_connection : Platform → ℕ → Flow → List Track → AudioCallEngine → Cut
open_peer_connection p n fl ts e = elim p.peer_connection_error [
  | some x ↦ (fail n (message x) e, none)
  | none ↦ negotiate p n fl ts (emit gather (make_peer_connection n e))
]

-- The stream becomes `localStream`, and the caller hears of its tracks.
unfoldable pub take_stream : ℕ → List Track → AudioCallEngine → AudioCallEngine
take_stream n ts e = flush_camera_start_error n (
    notify_local_track_changed ts
      (apply_muted_to_local_stream (record e { local_stream = some ts })))

-- `placeCall` and `accept` with the stream that was acquired.
unfoldable pub adopt : Platform → ℕ → Flow → List Track → AudioCallEngine → Cut
adopt p n fl ts e =
    if ensure_active e n
    then open_peer_connection p n fl ts (take_stream n ts e)
    else (stop_stream ts e, none)

abbrev pub acquired : Flow → Option ℕ → AudioCallEngine → Reply
acquired fl none e = goes e none
acquired fl (some n) e = let (asked, task) = acquire_initial_local_stream fl n e in goes asked task

unfoldable pub place_call : AudioCallEngine → Reply
place_call e =
    if same_state e.machine.current_state idle
    then (acquired placing (some e.epochs)
        (move ringing (begin_epoch (record e { direction = some outgoing }))).0)
    else throws (expected_idle e.machine.current_state)

unfoldable pub receive_call : String → AudioCallEngine → Reply
receive_call info e =
    if same_state e.machine.current_state idle
    then elim (deserialize_offer info) [
      | thrown x ↦ throws empty_sdp
      | ok d ↦
          goes
            (move ringing (
              begin_epoch (record e {
                direction = some incoming;
                wants_video = false;
                pending_remote_offer = some d.sdp;
              }))).0
            none
    ]
    else throws (expected_idle e.machine.current_state)

abbrev pub is_incoming : Option CallDirection → Bool
is_incoming (some incoming) = true
is_incoming _ = false

abbrev pub is_outgoing : Option CallDirection → Bool
is_outgoing (some outgoing) = true
is_outgoing _ = false

-- `accept` with its pending offer; a refused transition returns.
unfoldable pub accept_offer : String → Bool → AudioCallEngine → Reply
accept_offer o with_video e =
    let wanted = record e { wants_video = with_video || e.wants_video } in
    let (moved, changed) = move connecting wanted in
    if changed then acquired (accepting o) moved.epoch moved else goes moved none

unfoldable pub accept : Bool → AudioCallEngine → Reply
accept with_video e =
    if is_incoming e.direction
    then (if same_state e.machine.current_state ringing
        then elim e.pending_remote_offer [
          | none ↦ throws no_pending_offer
          | some o ↦ accept_offer o with_video e
        ]
        else throws (expected_ringing e.machine.current_state))
    else throws not_incoming

abbrev pub answered : String → Option ℕ → AudioCallEngine → Reply
answered sdp none e = goes e none
answered sdp (some n) e = goes (emit (set_remote_description sdp) e) (some (answer_set n))

unfoldable pub apply_answer : String → AudioCallEngine → Reply
apply_answer sdp e =
    let (moved, changed) = move connecting e in
    if changed then answered sdp moved.epoch moved else goes moved none

unfoldable pub provide_answer : String → AudioCallEngine → Reply
provide_answer info e =
    if same_state e.machine.current_state ended
    then goes e none
    else if is_outgoing e.direction
    then elim (deserialize_answer info) [
      | thrown x ↦ throws empty_sdp
      | ok d ↦ if is_some e.pc then apply_answer d.sdp e else throws no_peer_connection
    ]
    else throws not_outgoing

-- The last part of both flows: the description goes out.
unfoldable pub finish : Platform → ℕ → Flow → AudioCallEngine → AudioCallEngine
finish p n placing e =
    elim (serialize_offer (record { type = offer; sdp = or_else p.local_sdp "" })) [
      | thrown x ↦ fail n "calls signaling: expected a non-empty SDP string, got empty string" e
      | ok s ↦ emit (on_local_offer s) e
    ]
finish p n (accepting o) e =
    elim (serialize_answer (record { type = answer; sdp = or_else p.local_sdp "" })) [
      | thrown x ↦ fail n "calls signaling: expected a non-empty SDP string, got empty string" e
      | ok s ↦ maybe_promote_connected p n (emit (on_local_answer s) e)
    ]

-- A step of `try { await ...; if (!this.ensureActive(epoch)) return; ... } catch { this.fail(...) }`.
abbrev pub checked : ℕ → Outcome → AudioCallEngine → Cut → Cut
checked n (rejected x) e next = (fail n (message x) e, none)
checked n (resolved ts) e next = if ensure_active e n then next else (e, none)

abbrev pub describe : Flow → Effect
describe placing = create_offer
describe (accepting o) = create_answer

abbrev pub tracks_of : Option (List Track) → List Track
tracks_of none = []
tracks_of (some ts) = ts

-- The continuations of the set-up tasks.
unfoldable pub resume_media : Platform → ℕ → Flow → Outcome → AudioCallEngine → Cut
resume_media p n fl (rejected x) e = (fail n (message x) e, none)
resume_media p n fl (resolved ts) e = adopt p n fl ts e

unfoldable pub resume_first_media : Platform → ℕ → Flow → Outcome → AudioCallEngine → Cut
resume_first_media p n fl (rejected x) e = retry_audio_only fl n (message x) e
resume_first_media p n fl (resolved ts) e = adopt p n fl ts e

unfoldable pub resume_retry_media : Platform → ℕ → Flow → String → Outcome → AudioCallEngine → Cut
resume_retry_media p n fl m (rejected x) e = (fail n (message x) e, none)
resume_retry_media p n fl m (resolved ts) e =
    adopt p n fl ts (record e { pending_camera_start_error = some m })

unfoldable pub resume_remote_set : Platform → ℕ → String → Outcome → AudioCallEngine → Cut
resume_remote_set p n o r e =
    checked n r e (add_local_tracks p n (accepting o) (tracks_of e.local_stream) e)

-- `addLocalTracks` goes on without a check of the epoch.
unfoldable pub resume_placeholder_set : ℕ → Flow → Outcome → AudioCallEngine → Cut
resume_placeholder_set n fl (rejected x) e = (fail n (message x) e, none)
resume_placeholder_set n fl (resolved ts) e = without_camera fl n e

unfoldable pub resume_tracks_added : ℕ → Flow → Outcome → AudioCallEngine → Cut
resume_tracks_added n fl r e = checked n r e (emit (describe fl) e, some (description_made fl n))

unfoldable pub resume_description_made : ℕ → Flow → Outcome → AudioCallEngine → Cut
resume_description_made n fl r e =
    checked n r e (emit set_local_description e, some (local_set fl n))

unfoldable pub resume_local_set : ℕ → Flow → Outcome → AudioCallEngine → Cut
resume_local_set n fl r e = checked n r e (e, some (gathered fl n))

unfoldable pub resume_gathered : Platform → ℕ → Flow → Outcome → AudioCallEngine → Cut
resume_gathered p n fl r e = checked n r e (finish p n fl e, none)

unfoldable pub resume_answer_set : Platform → ℕ → Outcome → AudioCallEngine → Cut
resume_answer_set p n r e = checked n r e (maybe_promote_connected p n e, none)
