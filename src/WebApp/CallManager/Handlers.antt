-- ===== src/WebApp/CallManager/Handlers.antt =====
-- packages/web-app/src/runtime.ts, the class `CallManager`: its handlers of the core's events, of its controls
-- and of what its bridges, its popups and its tasks report.
use slothfulchat_web.Calls.CallState.{CallState, CallDirection, outgoing, incoming}
use slothfulchat_web.Prelude.{
  ℕ, suc, Bool, true, false, not, ◌&&◌, ◌||◌, Option, none, some, List, [], ◌∷◌, ◌==◌,
  if◌then◌else◌, is_some, member,
}
use slothfulchat_web.Calls.CallOutcome.{CallResult, CoreCallStateKind, classify_call_outcome}
use slothfulchat_web.WebApp.CallManager.{
  Mode, overlay, popup, Slot, Effect, shown, ring_started, ring_stopped, auto_declined,
  rpc_end_call, answer_forwarded, remote_end_forwarded, bridge_made, bridge_started,
  bridge_accepted, bridge_answered, bridge_hung_up, bridge_remote_ended, bridge_accepted_elsewhere,
  state_shown, error_shown, Purpose, to_call, to_ring, to_accept, ice, microtask, Manager, tell,
  mark, await, is_call, message_id, report, if_unclear, set_reported, teardown, new_slot, begin,
  start_popup, start_outgoing_overlay, slot_for_call,
}

unfoldable pub open_incoming_call : ℕ → ℕ → Bool → Manager → Manager
open_incoming_call account_id msg has_video t =
    let s = new_slot account_id incoming has_video true (some msg) in
    if is_some (slot_for_call account_id msg t)
    then t
    else (if is_some t.call
        then tell (auto_declined account_id msg) (tell (rpc_end_call account_id msg) t)
        else await t.made (ice to_ring) (tell ring_started (begin s (tell shown t))))

abbrev pub is_popup : Mode → Bool
is_popup popup = true
is_popup overlay = false

abbrev pub to_bridge : (ℕ → Effect) → Option ℕ → Manager → Manager
to_bridge e none t = t
to_bridge e (some b) t = tell (e b) t

abbrev pub to_popup : (ℕ → Effect) → ℕ → Manager → Manager
to_popup e n t = if (t.slot n).has_popup then tell (e n) t else t

abbrev pub answer_slot : Option ℕ → Manager → Manager
answer_slot none t = t
answer_slot (some n) t =
    if is_popup (t.slot n).mode
    then to_popup answer_forwarded n t
    else to_bridge bridge_answered (t.slot n).bridge t

-- `OutgoingCallAccepted`
unfoldable pub on_outgoing_accepted : ℕ → ℕ → Manager → Manager
on_outgoing_accepted account_id msg t = answer_slot (slot_for_call account_id msg t) t

abbrev pub set_cancelled : Slot → Slot
set_cancelled s = record s { cancelled = true }

-- Whether the slot's bridge is ringing.
abbrev pub leave_ring : ℕ → Option ℕ → Bool → Manager → Manager
leave_ring n none ringing t = teardown n (mark n set_cancelled t)
leave_ring n (some b) ringing t = if ringing then tell (bridge_accepted_elsewhere b) t else t

abbrev pub elsewhere_slot : Option ℕ → Bool → Manager → Manager
elsewhere_slot none ringing t = t
elsewhere_slot (some n) ringing t =
    if is_popup (t.slot n).mode
    then t
    else leave_ring n (t.slot n).bridge ringing (mark n set_reported t)

-- `IncomingCallAccepted`
unfoldable pub on_incoming_accepted : ℕ → ℕ → Bool → Bool → Manager → Manager
on_incoming_accepted account_id msg from_this_device ringing t =
    if from_this_device then t else elsewhere_slot (slot_for_call account_id msg t) ringing t

abbrev pub end_bridge : ℕ → Option ℕ → Manager → Manager
end_bridge n none t = teardown n (mark n set_cancelled t)
end_bridge n (some b) t = tell (bridge_remote_ended b) t

abbrev pub end_slot : Option ℕ → Manager → Manager
end_slot none t = t
end_slot (some n) t =
    if is_popup (t.slot n).mode
    then to_popup remote_end_forwarded n t
    else end_bridge n (t.slot n).bridge t

-- `CallEnded`
unfoldable pub on_call_ended : ℕ → ℕ → Manager → Manager
on_call_ended account_id msg t = end_slot (slot_for_call account_id msg t) t

abbrev pub accepting : Bool → Slot → Slot
accepting with_video s = record s { accepted_with_video = with_video }

abbrev pub hand_over : ℕ → Manager → Manager
hand_over n t =
    to_bridge bridge_remote_ended (t.slot n).bridge
      (mark n (λ s. record s { bridge = none }) (start_popup n t))

abbrev pub is_incoming : CallDirection → Bool
is_incoming incoming = true
is_incoming outgoing = false

abbrev pub accept_slot : Bool → Bool → Option ℕ → Manager → Manager
accept_slot with_video opens none t = t
accept_slot with_video opens (some n) t =
    let u = tell ring_stopped (mark n (accepting with_video) t) in
    if not (is_incoming (t.slot n).direction) || is_popup (t.slot n).mode
    then t
    else (if (t.slot n).has_offer && opens
        then hand_over n u
        else to_bridge (λ b. bridge_accepted b with_video) (t.slot n).bridge u)

unfoldable pub accept_current : Bool → Bool → Manager → Manager
accept_current with_video opens t = accept_slot with_video opens t.call t

abbrev pub connect : Bool → Slot → Slot
connect now s = record s { connected_once = now || s.connected_once }

abbrev pub is_connected : CallState → Bool
is_connected CallState.connected = true
is_connected CallState.idle = false
is_connected CallState.ringing = false
is_connected CallState.connecting = false
is_connected CallState.ended = false

abbrev pub is_ended : CallState → Bool
is_ended CallState.ended = true
is_ended CallState.idle = false
is_ended CallState.ringing = false
is_ended CallState.connecting = false
is_ended CallState.connected = false

unfoldable pub on_state : ℕ → CallState → Manager → Manager
on_state n st t =
    let u = mark n (connect (is_connected st)) (tell (state_shown st) t) in
    if not (is_call n t.call) || is_popup (t.slot n).mode
    then t
    else (if is_ended st then await n microtask u else u)

unfoldable pub on_microtask : ℕ → Manager → Manager
on_microtask n t = if (t.slot n).errored then t else teardown n t

unfoldable pub on_error : ℕ → Manager → Manager
on_error n t =
    if not (is_call n t.call) || is_popup (t.slot n).mode
    then t
    else tell error_shown (mark n (λ s. record s { errored = true }) t)

abbrev pub end_rpc : ℕ → Option ℕ → Manager → Manager
end_rpc account_id none t = t
end_rpc account_id (some msg) t = tell (rpc_end_call account_id msg) t

-- Whether the bridge, which is told to hang up, reports its end at once.
abbrev pub hang_up_bridge : ℕ → Option ℕ → Bool → Manager → Manager
hang_up_bridge n none reports t = mark n set_cancelled t
hang_up_bridge n (some b) reports t =
    let u = tell (bridge_hung_up b) t in if reports then on_state n CallState.ended u else u

abbrev pub hangup_slot : Option ℕ → Bool → Manager → Manager
hangup_slot none reports t = t
hangup_slot (some n) reports t =
    let u = mark n (λ s. record s { locally_ended = true }) t in
    teardown n (
      if is_popup (t.slot n).mode
      then end_rpc (t.slot n).account_id (message_id (t.slot n)) u
      else hang_up_bridge n (t.slot n).bridge reports u)

unfoldable pub hangup_current : Bool → Manager → Manager
hangup_current reports t = hangup_slot t.call reports t

-- `onEnded` of the popup's host.
unfoldable pub on_popup_ended : ℕ → Bool → Manager → Manager
on_popup_ended n reached_connected t = teardown n (mark n (connect reached_connected) t)

abbrev pub resume_overlay : ℕ → CallDirection → Manager → Manager
resume_overlay n outgoing t = start_outgoing_overlay n t
resume_overlay n incoming t = await n (ice to_accept) t

unfoldable pub on_popup_fallback : ℕ → Manager → Manager
on_popup_fallback n t =
    if is_call n t.call
    then resume_overlay n (t.slot n).direction
        (mark n (λ s. record s { has_popup = false; mode = overlay; placed_id = none }) t)
    else t

abbrev pub make_bridge : ℕ → Manager → Manager
make_bridge n t =
    let u = mark n (λ s. record s { bridge = some t.bridges }) t in
    tell (bridge_made t.bridges) (record u { bridges = suc t.bridges })

abbrev pub with_servers : Purpose → ℕ → Manager → Manager
with_servers to_call n t = tell (bridge_started t.bridges) (make_bridge n t)
with_servers to_ring n t = tell (bridge_started t.bridges) (make_bridge n t)
with_servers to_accept n t =
    tell (bridge_accepted t.bridges (t.slot n).accepted_with_video)
      (tell (bridge_started t.bridges) (make_bridge n (tell shown t)))

-- The fetch for a slot settles.
unfoldable pub on_ice : Purpose → ℕ → Bool → Manager → Manager
on_ice purpose n fetched t =
    if not fetched
    then on_error n t
    else (if (t.slot n).cancelled || is_popup (t.slot n).mode then t else with_servers purpose n t)

abbrev pub outcome_of : CallDirection → Option CoreCallStateKind → CallResult
outcome_of direction none = if_unclear direction
outcome_of direction (some kind) = classify_call_outcome direction kind

abbrev pub remove_one : ℕ → List ℕ → List ℕ
remove_one n [] = []
remove_one n (m ∷ ms) = let rest = remove_one n ms in if m == n then ms else m ∷ rest

-- `call_info` of a slot's call settles.
unfoldable pub on_call_info : ℕ → Option CoreCallStateKind → Manager → Manager
on_call_info n kind t =
    if member n t.asking
    then report n (outcome_of (t.slot n).direction kind)
        (record t { asking = remove_one n t.asking })
    else t
