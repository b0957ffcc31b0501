-- ===== src/Examples/Helpers.antt =====
-- The helpers of the call engine at concrete inputs.
use Prim.Native.String.{String}
use slothfulchat_web.Prelude.{◌≡◌, refl, true, some, List, [], ◌∷◌}
use slothfulchat_web.Calls.CallState
use slothfulchat_web.Calls.CallState.Runs.{
  Edge, after, run, run_calls, transition-Edge, run-ended, IsPath, run_calls-IsPath,
}
use slothfulchat_web.Calls.Signaling.{
  offer, answer, empty_sdp, ok, thrown, assert_non_empty_sdp, serialize_offer, serialize_answer,
}
use slothfulchat_web.Calls.CallOutcome.{declined, core_declined, classify_call_outcome}
use slothfulchat_web.Calls.Devices.{
  audioinput, videoinput, audiooutput, MediaDeviceInfo, numbered, is_empty, with_fallback_label,
  mic_of, camera_of, scan, partition_input_devices,
}
use slothfulchat_web.Calls.ConnectionRoute.{
  direct, relay, Value, text, flag, other, RtcStatsEntry, by_id, candidate, active_pair, route_of,
  get_active_connection_route,
}
use slothfulchat_web.Calls.ConnectionRoute.Monitor.{Event, starts, stops, interval, answers}
use slothfulchat_web.Calls.CallState.{
  CallState, idle, ringing, connecting, ended, outgoing, incoming, CallStateMachine, notify,
  transition,
}

abbrev ringing_machine : CallStateMachine
ringing_machine = record { current_state = CallState.ringing; listeners = 4 ∷ [] }

run-ended_example :
    (CallState.Runs.run ringing_machine
      (CallState.connecting ∷ CallState.ended ∷ CallState.connected ∷ [])).current_state
    ≡ CallState.ended
run-ended_example = run-ended ringing_machine (CallState.connecting ∷ []) (CallState.connected ∷ [])

serialized : serialize_offer (record { type = offer; sdp = "v=0" }) ≡ ok "v=0"
unfolding serialize_offer assert_non_empty_sdp
serialized = refl

not_serialized : serialize_answer (record { type = answer; sdp = "" }) ≡ thrown empty_sdp
unfolding serialize_answer assert_non_empty_sdp
not_serialized = refl

declined_by_callee : classify_call_outcome CallState.incoming core_declined ≡ declined
unfolding classify_call_outcome
declined_by_callee = refl

abbrev raw_devices : List MediaDeviceInfo
raw_devices =
    record { device_id = ""; label = ""; kind = audioinput }
    ∷ record { device_id = "m1"; label = ""; kind = audioinput }
    ∷ record { device_id = "c1"; label = "Front"; kind = videoinput }
    ∷ record { device_id = "s1"; label = "Loud"; kind = audiooutput }
    ∷ []

raw_microphones :
    (partition_input_devices raw_devices).microphones
    ≡ record { device_id = "m1"; label = numbered "Microphone" 1; kind = audioinput } ∷ []
unfolding partition_input_devices scan is_empty mic_of camera_of with_fallback_label
raw_microphones = refl

abbrev entry : String → String → Value → Value → RtcStatsEntry
entry i t l c = record {
  id = i;
  type = t;
  nominated = flag true;
  state = text "succeeded";
  local_candidate_id = l;
  remote_candidate_id = other;
  candidate_type = c;
}

abbrev report : List RtcStatsEntry
report =
    entry "p" "candidate-pair" (text "l") other
    ∷ entry "l" "local-candidate" other (text "relay")
    ∷ []

relayed_report : get_active_connection_route (some report) ≡ relay
unfolding get_active_connection_route active_pair candidate by_id route_of
relayed_report = refl

abbrev watching : List Event
watching =
    starts 1
    ∷ answers (some relay)
    ∷ interval
    ∷ answers (some relay)
    ∷ stops
    ∷ interval
    ∷ answers (some direct)
    ∷ []
