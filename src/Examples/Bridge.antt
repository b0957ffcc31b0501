-- ===== src/Examples/Bridge.antt =====
-- The theorems on the call bridge at concrete calls.
use slothfulchat_web.Prelude.{◌+◌, ◌≤◌, ◌≡◌, ◌⊎◌, true, none, arith}
use slothfulchat_web.Calls.Bridge.{
  placing_call, placed, CallBridge, outgoing_bridge, incoming_bridge, stop_route_monitor,
  stop_level_meters, end_engine, send_end_call, place_outgoing, hangup, resume_rpc,
}
use slothfulchat_web.Calls.Bridge.Steps.{BridgeWorld, hangs_up, BridgeReach, here, next}
use slothfulchat_web.Calls.Bridge.Hangup.{end_calls}
use slothfulchat_web.Calls.Bridge.Counts.{bridge_world, is_called, end_call_once}
use slothfulchat_web.Calls.Bridge.Reports.{hangup-reports}
use slothfulchat_web.Calls.CallState.{new_machine, transition, subscribe}
use slothfulchat_web.Calls.Engine.State.{new_engine}
use slothfulchat_web.Calls.Engine.Media.{move}
use slothfulchat_web.Calls.Engine.Teardown.{release_screen_share_stream, teardown, end_call}
use slothfulchat_web.Examples.Engine.{options}

abbrev called : CallBridge
called = incoming_bridge 7 "offer" options

abbrev hung_up_twice : BridgeWorld
hung_up_twice = bridge_world (hangup (hangup called))

Reach-hung_up_twice : BridgeReach (bridge_world called) hung_up_twice
unfolding hangup incoming_bridge end_engine send_end_call stop_level_meters stop_route_monitor
Reach-hung_up_twice = next (next here hangs_up) hangs_up

end_call_once_example : end_calls hung_up_twice.bridge ≤ 1
unfolding hangup incoming_bridge end_engine send_end_call stop_level_meters stop_route_monitor
end_call_once_example = end_call_once (is_called 7 "offer" options) Reach-hung_up_twice

hangup-reports_example :
    ((hangup called).call_message_id ≡ none) ⊎ (1 ≤ end_calls (hangup called) + 0)
hangup-reports_example = hangup-reports (is_called 7 "offer" options) here here

-- A call that was hung up before it was placed, and placed then.
late_test :
    end_calls (
      resume_rpc placing_call
        (placed 9)
        (hangup (place_outgoing "offer" (outgoing_bridge true options))))
    ≡ 1
unfolding resume_rpc hangup place_outgoing outgoing_bridge end_engine send_end_call
    stop_level_meters stop_route_monitor new_engine new_machine subscribe end_call teardown
    release_screen_share_stream move transition
late_test = ground arith
