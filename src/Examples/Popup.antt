-- ===== src/Examples/Popup.antt =====
-- packages/calls/bridge/popup-signaling.ts and popup-host.ts at concrete calls.
use slothfulchat_web.Calls.PopupSignaling
use slothfulchat_web.Calls.PopupSignaling.Settling
use slothfulchat_web.Prelude.{
  ℕ, ◌+◌, ◌≤◌, ◌≡◌, refl, true, false, none, some, List, [], ◌∷◌, ◌++◌, count, count_if,
}
use slothfulchat_web.Calls.PopupSignaling.{
  number, ice_servers, ok, new_client, call, serving, serves, Request, placing, post,
  place_outgoing_call, args_of, on_result, settle,
}
use slothfulchat_web.Calls.PopupSignaling.Serving.{meant}
use slothfulchat_web.Calls.PopupSignaling.Opener.{Opener, invoked, on_rpc, on_invoked}
use slothfulchat_web.Calls.PopupSignaling.Relay.{results, call_relayed}
use slothfulchat_web.Calls.PopupSignaling.Settling.{
  calls, answers, disposes, posts, settles, settled_once, dispose-settles,
}
use slothfulchat_web.Calls.PopupHost.{
  CallPopupHost, open_call_popup, Event, popup_ready, ready_timer_fires, forwards_remote_ended,
  call_placed, closed_poll_fires, step, run, on_ready_message, on_closed_poll,
  on_popup_closed_abruptly, teardown,
}
use slothfulchat_web.Calls.PopupHost.Runs.{
  is_verdict, is_port_closing, is_end_call, is_readiness, number_of, is_fallback, host_ends_once,
  no_late_end_call,
}

abbrev asking : List (Settling.Event ℕ)
asking =
    calls ice_servers (number 3 ∷ [])
    ∷ calls PopupSignaling.end_call (number 3 ∷ number 8 ∷ [])
    ∷ answers 1 (ok 5)
    ∷ answers 1 (ok 6)
    ∷ []

settled_once_example :
    (posts 1 (Settling.run new_client asking).1 ≤ 1)
    × (settles 1 (Settling.run new_client asking).1
          + count 1 (Settling.run new_client asking).0.pending
        ≡ posts 1 (Settling.run new_client asking).1)
settled_once_example = settled_once 1 asking

dispose-settles_example :
    settles 2 (Settling.run new_client (asking ++ disposes ∷ [])).1
    ≡ posts 2 (Settling.run new_client (asking ++ disposes ∷ [])).1
dispose-settles_example = dispose-settles 2 asking []

abbrev host : CallPopupHost
host = record {
  account_id = 3;
  listens = true;
  serves_rpc = true;
  ready_timer = true;
  closed_poll = true;
  ready = false;
  done = false;
  ended_cleanly = false;
  tracked_call_message_id = none;
}

host_lem : open_call_popup false 3 none ≡ some host
unfolding open_call_popup
host_lem = refl

abbrev used : List Event
used = popup_ready ∷ call_placed 8 ∷ closed_poll_fires true ∷ ready_timer_fires ∷ []

abandoned : number_of is_end_call (run host used).1 ≡ 1
unfolding run step on_ready_message on_closed_poll on_popup_closed_abruptly teardown
abandoned = refl

host_ends_once_example :
    (number_of is_port_closing (run host used).1 ≡ count_if (run host used).0.done)
    × (number_of is_verdict (run host used).1 ≤ 1)
    × (number_of is_end_call (run host used).1 ≤ 1)
    × (number_of is_readiness (run host used).1 + number_of is_fallback (run host used).1 ≤ 1)
host_ends_once_example = host_ends_once 3 none host used host_lem

no_late_end_call_example :
    number_of is_end_call
      (run
        (step (run host (popup_ready ∷ call_placed 8 ∷ [])).0 forwards_remote_ended).0
        (closed_poll_fires true ∷ [])).1
    ≡ 0
no_late_end_call_example =
    no_late_end_call 3 none host (popup_ready ∷ call_placed 8 ∷ []) (closed_poll_fires true ∷ [])
      forwards_remote_ended host_lem refl

abbrev listening : Opener
listening = record { listens = true; requests = [] }

call_relayed_example :
    let called = call {V = ℕ} place_outgoing_call (args_of (placing 1 2 "offer" true)) new_client in
    (q : Request) × (called.1 ≡ post q ∷ [])
    × ((on_rpc {V = ℕ} q listening).1 ≡ invoked (meant (placing 1 2 "offer" true)) ∷ [])
    × (results (on_invoked some q (ok 77)) ≡ (q.id, ok 77) ∷ [])
    × ((on_result {V = ℕ} q.id (ok 77) called.0).1 ≡ settle q.id (ok 77) ∷ [])
call_relayed_example =
    call_relayed ℕ some (placing 1 2 "offer" true) new_client listening (ok 77) refl refl refl
