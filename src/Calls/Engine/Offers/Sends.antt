-- ===== src/Calls/Engine/Offers/Sends.antt =====
-- packages/calls/engine/audio-call.ts: `placeCall` and `accept` send one description.
use Prim.Native.String.{String}
use slothfulchat_web.Prelude.{
  ℕ, suc, ◌≡◌, refl, ap, ◌∙◌, inl, inr, Bool, true, ◌||◌, Option, none, some, List, [], ◌∷◌, arith,
  Bool-cases,
}
use slothfulchat_web.Calls.CallState.{idle, ringing, connecting, outgoing, incoming, transition}
use slothfulchat_web.Calls.Engine.State.{
  Track, Platform, get_user_media, gather, set_remote_description, on_local_offer, on_local_answer,
  AudioCallEngine, Flow, placing, accepting, Task, first_media, audio_media, resolved, goes,
}
use slothfulchat_web.Calls.Engine.Media.{emit, move, media_constraints, ensure_active}
use slothfulchat_web.Calls.Engine.Teardown.{begin_epoch}
use slothfulchat_web.Calls.Engine.Peer.{make_peer_connection}
use slothfulchat_web.Calls.Engine.Setup.{
  is_off, acquire_initial_local_stream, add_local_tracks, negotiate, open_peer_connection,
  take_stream, adopt, acquired, place_call, accept_offer, accept, tracks_of, resume_media,
  resume_first_media, resume_remote_set,
}
use slothfulchat_web.Calls.Signaling.{ok, assert_non_empty_sdp}
use slothfulchat_web.Calls.Engine.World.{resume}
use slothfulchat_web.Calls.Engine.Offers.{
  drive, sent, descriptions, Goes, added, add_local_tracks-Goes, take_stream-Goes, make-Goes,
}

module _ (p : Platform) (n : ℕ) (s : String) (l : p.local_sdp ≡ some s)
    (h : assert_non_empty_sdp s ≡ ok tt) (good : p.peer_connection_error ≡ none) where
  add-sends :
      (fl : Flow) (ts us : List Track) (k : ℕ) (e : AudioCallEngine)
      → ensure_active e n ≡ true
      → descriptions (drive p ts (suc (suc (suc (suc (suc k))))) (add_local_tracks p n fl us e))
        ≡ sent fl s ∷ descriptions e
  add-sends fl ts us k e a =
      let ((still, same), where_to) = add_local_tracks-Goes p n fl us e a in
      added p n s l h fl ts k _ _ still where_to ∙ ap (◌∷◌ (sent fl s)) same

  remote_set_lem :
      (o : String) (e : AudioCallEngine)
      → ensure_active e n ≡ true
      → resume_remote_set p n o (resolved []) e
        ≡ add_local_tracks p n (accepting o) (tracks_of e.local_stream) e
  unfolding resume_remote_set
  remote_set_lem o e a = ground arith

  negotiate-sends :
      (fl : Flow) (ts us : List Track) (k : ℕ) (e : AudioCallEngine)
      → ensure_active e n ≡ true
      → descriptions (drive p ts (suc (suc (suc (suc (suc (suc k)))))) (negotiate p n fl us e))
        ≡ sent fl s ∷ descriptions e
  unfolding negotiate drive resume
  negotiate-sends placing ts us k e a = add-sends placing ts us (suc k) e a
  negotiate-sends (accepting o) ts us k e a =
      ap (λ c. descriptions (drive p ts (suc (suc (suc (suc (suc k))))) c))
        (remote_set_lem o (emit (set_remote_description o) e) a)
      ∙ add-sends (accepting o) ts (tracks_of e.local_stream) k (emit (set_remote_description o) e)
          a

  adopt_lem :
      (fl : Flow) (us : List Track) (e : AudioCallEngine)
      → ensure_active e n ≡ true
      → adopt p n fl us e
        ≡ negotiate p n fl us (emit gather (make_peer_connection n (take_stream n us e)))
  unfolding adopt open_peer_connection
  adopt_lem fl us e a = ground arith

  adopt-sends :
      (fl : Flow) (ts us : List Track) (k : ℕ) (e : AudioCallEngine)
      → ensure_active e n ≡ true
      → descriptions (drive p ts (suc (suc (suc (suc (suc (suc k)))))) (adopt p n fl us e))
        ≡ sent fl s ∷ descriptions e
  adopt-sends fl ts us k e a =
      let (a', same) = take_stream-Goes n us e a in
      let (a'', same') = make-Goes n (take_stream n us e) a' in
      rw (adopt_lem fl us e a) (
        negotiate-sends fl ts us k (emit gather (make_peer_connection n (take_stream n us e))) a''
        ∙ ap (◌∷◌ (sent fl s)) (same' ∙ same))

  first-sends :
      (fl : Flow) (ts : List Track) (k : ℕ) (e : AudioCallEngine)
      → ensure_active e n ≡ true
      → descriptions
          (drive p ts (suc (suc (suc (suc (suc (suc (suc k))))))) (e, some (first_media fl n)))
        ≡ sent fl s ∷ descriptions e
  unfolding drive resume resume_first_media
  first-sends fl ts k e a = adopt-sends fl ts ts k e a

  audio-sends :
      (fl : Flow) (ts : List Track) (k : ℕ) (e : AudioCallEngine)
      → ensure_active e n ≡ true
      → descriptions
          (drive p ts (suc (suc (suc (suc (suc (suc (suc k))))))) (e, some (audio_media fl n)))
        ≡ sent fl s ∷ descriptions e
  unfolding drive resume resume_media
  audio-sends fl ts k e a = adopt-sends fl ts ts k e a

  acquired-sends :
      (fl : Flow) (ts : List Track) (k : ℕ) (e : AudioCallEngine)
      → ensure_active e n ≡ true
      → descriptions (
          drive p ts
            (suc (suc (suc (suc (suc (suc (suc k)))))))
            (acquire_initial_local_stream fl n e))
        ≡ sent fl s ∷ descriptions e
  unfolding acquire_initial_local_stream
  acquired-sends fl ts k e a = elim (Bool-cases (is_off (media_constraints e).video)) [
    | inl y ↦ rw y (audio-sends fl ts k (emit (get_user_media (media_constraints e)) e) a)
    | inr y ↦ rw y (first-sends fl ts k (emit (get_user_media (media_constraints e)) e) a)
  ]

  pub asked-sends :
      (fl : Flow) (ts : List Track) (e : AudioCallEngine)
      → ensure_active e n ≡ true
      → (f : AudioCallEngine) × (t : Option Task) × (acquired fl (some n) e ≡ goes f t)
        × (descriptions (drive p ts 7 (f, t)) ≡ sent fl s ∷ descriptions e)
  asked-sends fl ts e a = (_, _, refl, acquired-sends fl ts 0 e a)

-- The engine that `placeCall` leaves when it asks for media.
abbrev placing_from : AudioCallEngine → AudioCallEngine
placing_from e = (move ringing (begin_epoch (record e { direction = some outgoing }))).0

place_lem :
    (e : AudioCallEngine)
    → e.machine.current_state ≡ idle
    → (place_call e ≡ acquired placing (some e.epochs) (placing_from e))
      × Goes e.epochs e (placing_from e)
unfolding place_call begin_epoch move transition
place_lem e i = ground arith

-- The engine that `accept` leaves when it asks for media.
abbrev accepting_from : Bool → AudioCallEngine → AudioCallEngine
accepting_from v e = (move connecting (record e { wants_video = v || e.wants_video })).0

-- A ringing incoming call, with its offer.
pub record IsRinging (e : AudioCallEngine) (o : String) (n : ℕ) : Type 0 where
  pub direction : e.direction ≡ some incoming
  pub state : e.machine.current_state ≡ ringing
  pub offer : e.pending_remote_offer ≡ some o
  pub epoch : e.epoch ≡ some n

accept_lem :
    (v : Bool) (o : String) (n : ℕ) (e : AudioCallEngine)
    → IsRinging e o n
    → (accept v e ≡ acquired (accepting o) (some n) (accepting_from v e))
      × Goes n e (accepting_from v e)
unfolding accept accept_offer move transition
accept_lem v o n e r = ground arith

module _ (p : Platform) (ts : List Track) (s : String) (e : AudioCallEngine)
    (l : p.local_sdp ≡ some s) (h : assert_non_empty_sdp s ≡ ok tt)
    (good : p.peer_connection_error ≡ none) where
  -- On a platform that makes a peer connection and has a local description, an idle engine that places
  -- a call does not throw and, if its awaited promises all succeed, tells its caller one description,
  -- the offer, after at most seven awaits.
  pub place_call-sends :
      e.machine.current_state ≡ idle
      → (f : AudioCallEngine) × (t : Option Task) × (place_call e ≡ goes f t)
        × (descriptions (drive p ts 7 (f, t)) ≡ on_local_offer s ∷ descriptions e)
  place_call-sends i =
      let (runs, (still, same)) = place_lem e i in
      let (f, t, goes_on, told) =
        asked-sends p e.epochs s l h good placing ts (placing_from e) still in
      (f, t, runs ∙ goes_on, told ∙ ap (◌∷◌ (on_local_offer s)) same)

  -- On a platform that makes a peer connection and has a local description, accepting a ringing
  -- incoming call with its offer does not throw and, if the awaited promises all succeed, tells the
  -- caller one description, the answer, after at most seven awaits.
  pub accept-sends :
      (v : Bool) (o : String) (n : ℕ)
      → IsRinging e o n
      → (f : AudioCallEngine) × (t : Option Task) × (accept v e ≡ goes f t)
        × (descriptions (drive p ts 7 (f, t)) ≡ on_local_answer s ∷ descriptions e)
  accept-sends v o n r =
      let (runs, (still, same)) = accept_lem v o n e r in
      let (f, t, goes_on, told) =
        asked-sends p n s l h good (accepting o) ts (accepting_from v e) still in
      (f, t, runs ∙ goes_on, told ∙ ap (◌∷◌ (on_local_answer s)) same)
