-- ===== src/WebApp/CallManager.antt =====
-- packages/web-app/src/runtime.ts, the class `CallManager`: the one call of the page, in the overlay or in a
-- popup. Slots and bridges are numbered in the order in which they are made, and a slot stays what the code
-- that waits sees of it. A method runs up to its awaits; the fetch of ICE servers, `call_info` and a microtask
-- leave a task. Names, avatars, device lists, the level meters and the local video of the store are left out.
pub mod Busy
pub mod Handlers
pub mod Heard
pub mod HungUp
pub mod Kept
pub mod Recorded
pub mod Runs
use slothfulchat_web.Calls.CallState.{CallState, CallDirection, outgoing, incoming}
use slothfulchat_web.Prelude.{
  ℕ, suc, Bool, true, false, not, ◌&&◌, ◌||◌, Option, none, some, List, [], ◌∷◌, ◌++◌, ◌==◌,
  if◌then◌else◌, is_some, member,
}
use slothfulchat_web.Calls.CallOutcome.{
  CallResult, connected, missed, declined, timeout, error, CoreCallStateKind, classify_call_outcome,
}

pub data Mode : Type 0 where
  overlay popup : Mode

pub record Slot : Type 0 where
  pub account_id : ℕ
  pub direction : CallDirection
  pub has_video : Bool
  pub accepted_with_video : Bool
  pub has_offer : Bool
  pub call_message_id : Option ℕ
  -- What the popup's host or else the bridge knows of the message's id.
  pub placed_id : Option ℕ
  pub mode : Mode
  pub bridge : Option ℕ
  pub has_popup : Bool
  pub cancelled : Bool
  pub errored : Bool
  pub connected_once : Bool
  pub locally_ended : Bool
  pub outcome_reported : Bool

pub data Effect : Type 0 where
  shown cleared : Effect
  ring_started ring_stopped : Effect
  outcome : ℕ → CallResult → Effect
  auto_declined : ℕ → ℕ → Effect
  rpc_end_call : ℕ → ℕ → Effect
  popup_opened : ℕ → Bool → Effect
  popup_closed : ℕ → Effect
  answer_forwarded remote_end_forwarded : ℕ → Effect
  bridge_made bridge_started : ℕ → Effect
  bridge_accepted : ℕ → Bool → Effect
  bridge_answered bridge_hung_up bridge_remote_ended bridge_accepted_elsewhere : ℕ → Effect
  state_shown : CallState → Effect
  error_shown : Effect

-- What the fetch of ICE servers was for.
pub data Purpose : Type 0 where
  to_call to_ring to_accept : Purpose

pub data Task : Type 0 where
  ice : Purpose → Task
  microtask : Task

pub record Manager : Type 0 where
  pub made : ℕ
  pub slot : ℕ → Slot
  pub call : Option ℕ
  pub bridges : ℕ
  pub tasks : List (ℕ × Task)
  -- The slots whose `call_info` is asked for.
  pub asking : List ℕ
  -- The last one first.
  pub effects : List Effect

abbrev pub tell : Effect → Manager → Manager
tell e t = record t { effects = e ∷ t.effects }

abbrev pub mark : ℕ → (Slot → Slot) → Manager → Manager
mark n f t = record t { slot = λ m. if m == n then f (t.slot n) else t.slot m }

abbrev pub await : ℕ → Task → Manager → Manager
await n task t = record t { tasks = t.tasks ++ ((n, task) ∷ []) }

abbrev pub is_call : ℕ → Option ℕ → Bool
is_call n none = false
is_call n (some m) = m == n

abbrev pub or_id : Option ℕ → Option ℕ → Option ℕ
or_id none other = other
or_id (some n) other = some n

abbrev pub message_id : Slot → Option ℕ
message_id s = or_id s.call_message_id s.placed_id

abbrev pub report : ℕ → CallResult → Manager → Manager
report n result t = tell (outcome n result) t

abbrev pub if_unclear : CallDirection → CallResult
if_unclear incoming = missed
if_unclear outgoing = timeout

abbrev pub if_local : CallDirection → CallResult
if_local incoming = declined
if_local outgoing = CallResult.cancelled

abbrev pub ask : ℕ → Option ℕ → CallDirection → Manager → Manager
ask n none direction t = report n (if_unclear direction) t
ask n (some msg) direction t = record t { asking = n ∷ t.asking }

-- The outcome of a slot that is not reported yet.
abbrev pub classify : ℕ → Slot → Manager → Manager
classify n s t =
    if s.connected_once
    then report n connected t
    else (if s.errored
        then report n error t
        else (if s.locally_ended
            then report n (if_local s.direction) t
            else ask n (message_id s) s.direction t))

abbrev pub set_reported : Slot → Slot
set_reported s = record s { outcome_reported = true }

unfoldable pub report_call_outcome : ℕ → Manager → Manager
report_call_outcome n t =
    if (t.slot n).outcome_reported then t else classify n (t.slot n) (mark n set_reported t)

abbrev pub close_popup : ℕ → Manager → Manager
close_popup n t =
    if (t.slot n).has_popup
    then mark n (λ s. record s { has_popup = false }) (tell (popup_closed n) t)
    else t

unfoldable pub teardown : ℕ → Manager → Manager
teardown n t =
    if is_call n t.call
    then tell cleared
        (close_popup n (report_call_outcome n (tell ring_stopped (record t { call = none }))))
    else t

abbrev pub new_slot : ℕ → CallDirection → Bool → Bool → Option ℕ → Slot
new_slot account_id direction has_video has_offer call_message_id = record {
  account_id = account_id;
  direction = direction;
  has_video = has_video;
  accepted_with_video = false;
  has_offer = has_offer;
  call_message_id = call_message_id;
  placed_id = none;
  mode = overlay;
  bridge = none;
  has_popup = false;
  cancelled = false;
  errored = false;
  connected_once = false;
  locally_ended = false;
  outcome_reported = false;
}

-- `this.call = slot`
abbrev pub begin : Slot → Manager → Manager
begin s t = record t {
  made = suc t.made;
  call = some t.made;
  slot = λ m. if m == t.made then s else t.slot m;
}

abbrev pub set_mode : Mode → Slot → Slot
set_mode mode s = record s { mode = mode }

abbrev pub own_video : Slot → CallDirection → Bool
own_video s outgoing = s.has_video
own_video s incoming = s.accepted_with_video

-- `tryStartPopup` where the popup opens.
abbrev pub start_popup : ℕ → Manager → Manager
start_popup n t = tell cleared (
    mark n (λ s. record s { mode = popup; has_popup = true })
      (tell (popup_opened n (own_video (t.slot n) (t.slot n).direction)) t))

abbrev pub start_outgoing_overlay : ℕ → Manager → Manager
start_outgoing_overlay n t = await n (ice to_call) (tell shown (mark n (set_mode overlay) t))

-- Whether popups are enabled and this one is not blocked.
unfoldable pub start_outgoing_call : ℕ → Bool → Bool → Manager → Manager
start_outgoing_call account_id has_video opens t =
    let u = begin (new_slot account_id outgoing has_video false none) t in
    if is_some t.call
    then t
    else (if opens then start_popup t.made u else start_outgoing_overlay t.made u)

abbrev pub is_id : ℕ → Option ℕ → Bool
is_id msg none = false
is_id msg (some m) = m == msg

abbrev pub matching : ℕ → ℕ → Option ℕ → Manager → Option ℕ
matching account_id msg none t = none
matching account_id msg (some n) t =
    if ((t.slot n).account_id == account_id) && is_id msg (message_id (t.slot n))
    then some n
    else none

unfoldable pub slot_for_call : ℕ → ℕ → Manager → Option ℕ
slot_for_call account_id msg t = matching account_id msg t.call t
