-- ===== src/Calls/Bridge/Hangup.antt =====
-- packages/calls/bridge/index.ts: what the bridge leaves alone while it hears its engine.
use Prim.Native.String.{String}
use slothfulchat_web.Prelude.{
  ℕ, ◌≡◌, refl, ◌∙◌, inl, inr, Bool, true, false, Option, none, some, List, [], ◌∷◌, reverse, arith,
  Bool-cases, length, keep,
}
use slothfulchat_web.Calls.CallState.{
  CallState, idle, ringing, connecting, connected, ended, CallStateChange, same_state,
}
use slothfulchat_web.Calls.Engine.State.{Effect, on_state_change, on_local_answer, AudioCallEngine}
use slothfulchat_web.Calls.Engine.Teardown.{end_call}
use slothfulchat_web.Calls.Engine.Ended.{HasEnded, Settled, end_call-Settled, end_call-HasEnded}
use slothfulchat_web.Calls.Bridge.{
  RpcEffect, rpc_end_call, CallBridge, tell, start_route_monitor, stop_route_monitor,
  stop_level_meters, start_remote_level_meter, retap_local_level_meter, follow_state, hear_changes,
  end_engine, place_outgoing, answer_with, send_answer, hear, hear_all, absorb,
}

abbrev pub is_end_call : RpcEffect → Bool
is_end_call (rpc_end_call msg) = true
is_end_call _ = false

abbrev pub end_calls : CallBridge → ℕ
end_calls b = length (keep is_end_call b.log)

-- What hearing a callback leaves alone.
pub record Keeps (b c : CallBridge) : Type 0 where
  pub sent : c.end_call_sent ≡ b.end_call_sent
  pub msg : c.call_message_id ≡ b.call_message_id
  pub told : end_calls c ≡ end_calls b
  pub settled : Settled b.engine → Settled c.engine
  pub over : HasEnded b.engine → HasEnded c.engine

pub Keeps-refl : (b : CallBridge) → Keeps b b
Keeps-refl b = record { sent = refl; msg = refl; told = refl; settled = λ h. h; over = λ h. h }

pub Keeps-trans : {b c d : CallBridge} → Keeps b c → Keeps c d → Keeps b d
Keeps-trans k l = record {
  sent = l.sent ∙ k.sent;
  msg = l.msg ∙ k.msg;
  told = l.told ∙ k.told;
  settled = λ h. l.settled (k.settled h);
  over = λ h. l.over (k.over h);
}

-- Only the log of the engine differs.
pub forget-Settled : (e : AudioCallEngine) → Settled e → Settled (record e { log = [] })
forget-Settled e h = ground arith

pub end_engine-Keeps : (b : CallBridge) → Keeps b (end_engine b)
unfolding end_engine stop_route_monitor stop_level_meters
end_engine-Keeps b = elim (Bool-cases (same_state b.engine.machine.current_state ended)) [
  | inl y ↦ rw y (Keeps-refl b)
  | inr n ↦ rw n (record {
    sent = refl;
    msg = refl;
    told = refl;
    settled = λ h. forget-Settled (end_call b.engine) (end_call-Settled b.engine h);
    over = λ h. end_call-HasEnded b.engine;
  })
]

pub end_engine-HasEnded : (b : CallBridge) → HasEnded (end_engine b).engine
unfolding end_engine stop_route_monitor stop_level_meters
end_engine-HasEnded b = ground (arith, end_call-HasEnded b.engine)

pub tell-Keeps : (x : RpcEffect) (b : CallBridge) → is_end_call x ≡ false → Keeps b (tell x b)
tell-Keeps x b h = record { sent = refl; msg = refl; told = rw h; settled = λ k. k; over = λ k. k }

follow-Keeps : (h : ℕ) (s : CallState) (b : CallBridge) → Keeps b (follow_state h s b)
unfolding start_route_monitor stop_route_monitor stop_level_meters
follow-Keeps h idle b = Keeps-refl b
follow-Keeps h ringing b = Keeps-refl b
follow-Keeps h connecting b = Keeps-refl b
follow-Keeps h connected b = record {
  sent = refl;
  msg = refl;
  told = refl;
  settled = λ k. k;
  over = λ k. k;
}
follow-Keeps h ended b = record {
  sent = refl;
  msg = refl;
  told = refl;
  settled = λ k. k;
  over = λ k. k;
}

changes-Keeps :
    (h : ℕ) (cs : List (ℕ × CallStateChange)) (b : CallBridge) → Keeps b (hear_changes h cs b)
unfolding hear_changes
changes-Keeps h [] b = Keeps-refl b
changes-Keeps h ((l, c) ∷ cs) b =
    Keeps-trans (follow-Keeps h c.to b) (changes-Keeps h cs (follow_state h c.to b))

answer_with-Keeps : (m : Option ℕ) (s : String) (b : CallBridge) → Keeps b (answer_with m s b)
answer_with-Keeps none s b = Keeps-trans (end_engine-Keeps b) (tell-Keeps _ (end_engine b) refl)
answer_with-Keeps (some msg) s b = record {
  sent = refl;
  msg = refl;
  told = refl;
  settled = λ k. k;
  over = λ k. k;
}

answer-Keeps : (s : String) (b : CallBridge) → Keeps b (send_answer s b)
unfolding send_answer
answer-Keeps s b = answer_with-Keeps b.call_message_id s b

hear-Keeps : (h : ℕ) (a : Bool) (x : Effect) (b : CallBridge) → Keeps b (hear h a x b)
unfolding hear start_remote_level_meter retap_local_level_meter place_outgoing
hear-Keeps h a (on_state_change cs) b = Keeps-trans (tell-Keeps _ b refl) (changes-Keeps h cs _)
hear-Keeps h a (on_local_answer s) b = answer-Keeps s b
hear-Keeps h a x b = ground arith

hear_all-Keeps :
    (h : ℕ) (a : Bool) (xs : List Effect) (b : CallBridge) → Keeps b (hear_all h a xs b)
unfolding hear_all
hear_all-Keeps h a [] b = Keeps-refl b
hear_all-Keeps h a (x ∷ xs) b =
    Keeps-trans (hear-Keeps h a x b) (hear_all-Keeps h a xs (hear h a x b))

pub absorb-Keeps :
    (h : ℕ) (a : Bool) (e : AudioCallEngine) (b : CallBridge)
    → Keeps (record b { engine = record e { log = [] } }) (absorb h a e b)
absorb-Keeps h a e b = hear_all-Keeps h a (reverse e.log) _
