-- ===== src/Calls/PopupHost.antt =====
-- packages/calls/bridge/popup-host.ts: the opener's side of the detached call popup. What the host does
-- to the popup, to its options' callbacks and to the RPC client is a list of effects.
pub mod Runs
use Prim.Native.String.{String}
use slothfulchat_web.Prelude.{
  ℕ, Bool, true, false, ◌||◌, Option, none, some, List, [], ◌∷◌, ◌++◌, if◌then◌else◌, or_else,
}

-- `PopupCallEvent`
pub data PopupCallEvent : Type 0 where
  answer : String → PopupCallEvent
  remote_ended accepted_elsewhere : PopupCallEvent

pub data Effect : Type 0 where
  post_init on_ready on_fallback close_popup close_port clear_ready_timer clear_closed_poll : Effect
  post_event : PopupCallEvent → Effect
  end_call : ℕ → ℕ → Effect
  on_ended : Bool → Effect

pub record CallPopupHost : Type 0 where
  pub account_id : ℕ
  pub listens : Bool
  pub serves_rpc : Bool
  pub ready_timer : Bool
  pub closed_poll : Bool
  pub ready : Bool
  pub done : Bool
  pub ended_cleanly : Bool
  pub tracked_call_message_id : Option ℕ

-- `openCallPopup`, where `none` is a window that was blocked.
unfoldable pub open_call_popup : Bool → ℕ → Option ℕ → Option CallPopupHost
open_call_popup blocked account msg =
    if blocked
    then none
    else some (record {
      account_id = account;
      listens = true;
      serves_rpc = true;
      ready_timer = true;
      closed_poll = true;
      ready = false;
      done = false;
      ended_cleanly = false;
      tracked_call_message_id = msg;
    })

abbrev pub Does : Type 0
Does = CallPopupHost × List Effect

abbrev cleared : Bool → Effect → List Effect
cleared b e = if b then e ∷ [] else []

unfoldable pub teardown : CallPopupHost → Does
teardown h = if h.done then (h, []) else (
  record h {
    done = true;
    ready_timer = false;
    closed_poll = false;
    serves_rpc = false;
    listens = false;
  },
  cleared h.ready_timer clear_ready_timer
      ++ (cleared h.closed_poll clear_closed_poll ++ close_port ∷ []),
)

-- What follows a teardown.
abbrev pub then_does : List Effect → Does → Does
then_does es (h, did) = (h, did ++ es)

unfoldable pub on_ready_message : CallPopupHost → Does
on_ready_message h = if h.ready || h.done then (h, []) else (
  record h { ready = true; ready_timer = false },
  cleared h.ready_timer clear_ready_timer ++ post_init ∷ on_ready ∷ [],
)

unfoldable pub on_popup_ended : Bool → CallPopupHost → Does
on_popup_ended reached h =
    if h.done
    then (h, [])
    else then_does (on_ended reached ∷ []) (teardown (record h { ended_cleanly = true }))

abbrev safety_net : CallPopupHost → List Effect
safety_net h = elim h.tracked_call_message_id [
  | none ↦ []
  | some msg ↦ if h.ended_cleanly then [] else end_call h.account_id msg ∷ []
]

unfoldable pub on_popup_closed_abruptly : CallPopupHost → Does
on_popup_closed_abruptly h =
    if h.done
    then (h, [])
    else let (h', did) = then_does (on_ended false ∷ []) (teardown h) in (h', safety_net h ++ did)

-- The ready timer's callback. A time-out that has fired stays the field's handle.
unfoldable pub on_ready_timeout : CallPopupHost → Does
on_ready_timeout h =
    if h.ready || h.done then (h, []) else then_does (close_popup ∷ on_fallback ∷ []) (teardown h)

unfoldable pub on_closed_poll : Bool → CallPopupHost → Does
on_closed_poll popup_closed h =
    if h.done then (h, []) else if popup_closed then on_popup_closed_abruptly h else (h, [])

unfoldable pub forward_event : PopupCallEvent → CallPopupHost → Does
forward_event e h = if h.done then (h, []) else (h, post_event e ∷ [])

unfoldable pub forward_answer : String → CallPopupHost → Does
forward_answer info h = forward_event (answer info) h

unfoldable pub forward_remote_ended : CallPopupHost → Does
forward_remote_ended h = forward_event remote_ended (record h { ended_cleanly = true })

unfoldable pub forward_accepted_elsewhere : CallPopupHost → Does
forward_accepted_elsewhere h = forward_event accepted_elsewhere (record h { ended_cleanly = true })

unfoldable pub close : CallPopupHost → Does
close h = if h.done then (h, []) else then_does (close_popup ∷ []) (teardown h)

-- Messages of the popup, timers, answers of the RPC client, and calls of the host's methods.
pub data Event : Type 0 where
  popup_ready ready_timer_fires forwards_remote_ended forwards_accepted_elsewhere closes : Event
  -- `reachedConnected`, which an older page leaves out.
  popup_ended : Option Bool → Event
  call_placed : ℕ → Event
  closed_poll_fires : Bool → Event
  forwards_answer : String → Event

unfoldable pub step : CallPopupHost → Event → Does
step h popup_ready = if h.listens then on_ready_message h else (h, [])
step h (popup_ended reached) =
    if h.listens then on_popup_ended (or_else reached false) h else (h, [])
step h (call_placed msg) = (record h { tracked_call_message_id = some msg }, [])
step h ready_timer_fires = if h.ready_timer then on_ready_timeout h else (h, [])
step h (closed_poll_fires popup_closed) =
    if h.closed_poll then on_closed_poll popup_closed h else (h, [])
step h (forwards_answer info) = forward_answer info h
step h forwards_remote_ended = forward_remote_ended h
step h forwards_accepted_elsewhere = forward_accepted_elsewhere h
step h closes = close h

unfoldable pub run : CallPopupHost → List Event → Does
run h [] = (h, [])
run h (e ∷ es) = let (h', did) = step h e in let (final, rest) = run h' es in (final, did ++ rest)
