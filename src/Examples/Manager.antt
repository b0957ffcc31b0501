-- ===== src/Examples/Manager.antt =====
-- The call manager at concrete inputs.
use slothfulchat_web.Calls.CallState.{outgoing}
use slothfulchat_web.Prelude.{
  ◌+◌, not, ◌≤◌, ◌≡◌, refl, true, false, none, List, [], ◌∷◌, ◌++◌, ltb, count_if, count,
}
use slothfulchat_web.Calls.CallOutcome.{declined}
use slothfulchat_web.WebApp.CallManager.{
  shown, cleared, ring_started, ring_stopped, outcome, popup_opened, bridge_made, bridge_started,
  bridge_accepted, bridge_hung_up, to_ring, to_accept, Manager, report_call_outcome, teardown,
  new_slot, begin, start_outgoing_overlay, slot_for_call,
}
use slothfulchat_web.WebApp.CallManager.Handlers.{
  open_incoming_call, accept_current, hangup_current, on_popup_fallback, on_ice,
}
use slothfulchat_web.WebApp.CallManager.Heard.{
  Happening, comes_in, accepts, hangs_up, fetches, falls_back, happen, happen_all,
}
use slothfulchat_web.WebApp.CallManager.Busy.{busy, comings}
use slothfulchat_web.WebApp.CallManager.Recorded.{told, owed}
use slothfulchat_web.WebApp.CallManager.Runs.{fresh, outcome_once}
use slothfulchat_web.WebApp.CallManager.HungUp.{hangup_records}

-- A call rings, is accepted in a popup that does not come up, and goes on in the overlay; both fetches of ICE
-- servers settle after that, the one for the ring last.
abbrev both_fetches : List Happening
both_fetches =
    comes_in 1 7 false
    ∷ accepts false true
    ∷ falls_back 0
    ∷ fetches to_accept 0 true
    ∷ fetches to_ring 0 true
    ∷ []

-- The bridge that was accepted is the slot's no longer: a hang-up does not reach it.
accepted_bridge_is_lost : (happen_all (both_fetches ++ (hangs_up false ∷ [])) fresh).effects ≡ (
    cleared
    ∷ outcome 0 declined
    ∷ ring_stopped
    ∷ bridge_hung_up 1
    ∷ bridge_started 1
    ∷ bridge_made 1
    ∷ bridge_accepted 0 false
    ∷ bridge_started 0
    ∷ bridge_made 0
    ∷ shown
    ∷ cleared
    ∷ popup_opened 0 false
    ∷ ring_stopped
    ∷ ring_started
    ∷ shown
    ∷ [])
unfolding happen_all happen open_incoming_call slot_for_call accept_current on_popup_fallback on_ice
    hangup_current teardown report_call_outcome
accepted_bridge_is_lost = refl

-- Meanwhile another call comes in.
abbrev busy_line : List Happening
busy_line = both_fetches ++ (comes_in 1 8 false ∷ [])

outcome_once_example :
    (told 0 (happen_all busy_line fresh).effects + count 0 (happen_all busy_line fresh).asking ≤ 1)
    × (told 0 (happen_all busy_line fresh).effects + count 0 (happen_all busy_line fresh).asking
        ≤ count_if (ltb 0 (happen_all busy_line fresh).made))
    × (busy 1 8 (happen_all busy_line fresh).effects ≤ comings 1 8 busy_line)
outcome_once_example = outcome_once 0 1 8 busy_line

abbrev ringing_out : Manager
ringing_out = start_outgoing_overlay 0 (begin (new_slot 1 outgoing false false none) fresh)

hangup_records_example :
    (owed 0 (hangup_current true ringing_out)
      ≡ count_if (not (ringing_out.slot 0).outcome_reported) + owed 0 ringing_out)
    × ((hangup_current true ringing_out).call ≡ none)
hangup_records_example = hangup_records 0 true ringing_out refl
