-- ===== src/Calls/Bridge/Counts.antt =====
-- packages/calls/bridge/index.ts: how often a bridge calls `endCall`.
use Prim.Native.String.{String}
use slothfulchat_web.Calls.Bridge.{
  RpcEffect, RpcTask, placing_call, sending_answer, RpcOutcome, placed, accepted, failed,
  CallBridge, tell, outgoing_bridge, incoming_bridge, end_engine, send_end_call, absorb,
  send_if_known, hangup, remote_ended, accepted_elsewhere, resume_rpc,
}
use slothfulchat_web.Calls.Bridge.Steps.{
  BridgeWorld, BridgeStep, engine_call, engine_settles, rpc_settles, hangs_up, hears_end,
  hears_accepted, BridgeReach, here, next,
}
use slothfulchat_web.Prelude.{
  ℕ, suc, ◌+◌, ◌≤◌, ◌≡◌, refl, sym, ◌∙◌, inl, inr, Bool, true, false, Option, none, some, List, [],
  ◌++◌, arith, Bool-cases,
}
use slothfulchat_web.Calls.CallState.{ended, same_state}
use slothfulchat_web.Calls.Engine.State.{AudioCallEngine, AudioCallOptions}
use slothfulchat_web.Calls.Engine.Ended.{Settled}
use slothfulchat_web.Calls.Engine.Ended.Steps.{perform-Settled, resume-Settled, new_engine-Settled}
use slothfulchat_web.Calls.Bridge.Hangup.{
  is_end_call, end_calls, Keeps, forget-Settled, end_engine-Keeps, tell-Keeps, absorb-Keeps,
}

-- The messages that the far end was sent, against the flag: the flag is set once a message is sent, and
-- `k` times more it was set because the far end or another device had ended the call.
pub record IsSound (k : ℕ) (b : CallBridge) : Type 0 where
  pub settled : Settled b.engine
  pub at_most : end_calls b ≤ 1
  pub marked : b.end_call_sent ≡ false → end_calls b ≡ 0
  pub caused : b.end_call_sent ≡ true → 1 ≤ end_calls b + k

Keeps-IsSound : {k : ℕ} {b c : CallBridge} → Keeps b c → IsSound k b → IsSound k c
Keeps-IsSound q h = record {
  settled = q.settled h.settled;
  at_most = rw q.told h.at_most;
  marked = λ x. q.told ∙ h.marked (sym q.sent ∙ x);
  caused = λ x. rw q.told (h.caused (sym q.sent ∙ x));
}

send_end_call-IsSound :
    {k : ℕ} (msg : ℕ) (b : CallBridge) → IsSound k b → IsSound k (send_end_call msg b)
unfolding send_end_call
send_end_call-IsSound msg b h = elim (Bool-cases b.end_call_sent) [
  | inl y ↦ ground arith
  | inr n ↦ ground arith
]

end_engine-IsSound : {k : ℕ} (b : CallBridge) → IsSound k b → IsSound k (end_engine b)
end_engine-IsSound b h = Keeps-IsSound (end_engine-Keeps b) h

send_if_known-IsSound :
    {k : ℕ} (m : Option ℕ) (b : CallBridge) → IsSound k b → IsSound k (send_if_known m b)
send_if_known-IsSound none b h = h
send_if_known-IsSound (some msg) b h = send_end_call-IsSound msg b h

pub hangup-IsSound : {k : ℕ} (b : CallBridge) → IsSound k b → IsSound k (hangup b)
unfolding hangup
hangup-IsSound b h = send_if_known-IsSound b.call_message_id _ (end_engine-IsSound b h)

mark-IsSound :
    {k : ℕ} (b : CallBridge) → IsSound k b → IsSound (suc k) (record b { end_call_sent = true })
mark-IsSound b h = record {
  settled = h.settled;
  at_most = h.at_most;
  marked = λ x. ground arith;
  caused = λ x. ground arith;
}

known-IsSound :
    {k : ℕ} (m : Option ℕ) (b : CallBridge)
    → IsSound k b
    → IsSound k (record b { call_message_id = m })
known-IsSound m b h = record {
  settled = h.settled;
  at_most = h.at_most;
  marked = h.marked;
  caused = h.caused;
}

tell-IsSound :
    {k : ℕ} (x : RpcEffect) (b : CallBridge)
    → is_end_call x ≡ false
    → IsSound k b
    → IsSound k (tell x b)
tell-IsSound x b n h = Keeps-IsSound (tell-Keeps x b n) h

resume_rpc-IsSound :
    {k : ℕ} (t : RpcTask) (r : RpcOutcome) (b : CallBridge)
    → IsSound k b
    → IsSound k (resume_rpc t r b)
unfolding resume_rpc
resume_rpc-IsSound placing_call (placed msg) b h =
    elim (Bool-cases (same_state b.engine.machine.current_state ended)) [
      | inl y ↦ rw y (send_end_call-IsSound msg _ (known-IsSound (some msg) b h))
      | inr n ↦ rw n (tell-IsSound _ _ refl (known-IsSound (some msg) b h))
    ]
resume_rpc-IsSound placing_call accepted b h = h
resume_rpc-IsSound placing_call (failed m) b h = tell-IsSound _ _ refl (end_engine-IsSound b h)
resume_rpc-IsSound sending_answer (failed m) b h = tell-IsSound _ _ refl (end_engine-IsSound b h)
resume_rpc-IsSound sending_answer accepted b h = h
resume_rpc-IsSound sending_answer (placed msg) b h = h

absorb-IsSound :
    {k : ℕ} (h : ℕ) (a : Bool) (e : AudioCallEngine) (b : CallBridge)
    → IsSound k b
    → (Settled b.engine → Settled e)
    → IsSound k (absorb h a e b)
absorb-IsSound h a e b s g = Keeps-IsSound (absorb-Keeps h a e b) (record {
  settled = forget-Settled e (g s.settled);
  at_most = s.at_most;
  marked = s.marked;
  caused = s.caused;
})

waiting-IsSound :
    {k : ℕ} (ts : List RpcTask) (b : CallBridge)
    → IsSound k b
    → IsSound k (record b { waiting = ts })
waiting-IsSound ts b h = record {
  settled = h.settled;
  at_most = h.at_most;
  marked = h.marked;
  caused = h.caused;
}

-- Counts on for a step in which the bridge learns that the call is over elsewhere.
abbrev pub far_end : {w v : BridgeWorld} → BridgeStep w v → ℕ → ℕ
far_end hears_end k = suc k
far_end hears_accepted k = suc k
far_end _ k = k

abbrev pub far_ends_from : {w v : BridgeWorld} → ℕ → BridgeReach w v → ℕ
far_ends_from k here = k
far_ends_from k (next r s) = far_end s (far_ends_from k r)

abbrev pub far_ends : {w v : BridgeWorld} → BridgeReach w v → ℕ
far_ends r = far_ends_from 0 r

step-IsSound :
    {k : ℕ} {w v : BridgeWorld} (s : BridgeStep w v)
    → IsSound k w.bridge
    → IsSound (far_end s k) v.bridge
unfolding remote_ended accepted_elsewhere
step-IsSound {k} {w} (engine_call h a p c e t n r) g =
    absorb-IsSound h a e w.bridge g (λ x. perform-Settled p c w.bridge.engine x r)
step-IsSound {k} {w} (engine_settles h a p before t after r q) g =
    absorb-IsSound h a _ w.bridge g (resume-Settled p t r w.bridge.engine)
step-IsSound {k} {w} (rpc_settles before t after r q) g =
    resume_rpc-IsSound t r _ (waiting-IsSound (before ++ after) w.bridge g)
step-IsSound {k} {w} hangs_up g = hangup-IsSound w.bridge g
step-IsSound {k} {w} hears_end g = end_engine-IsSound _ (mark-IsSound w.bridge g)
step-IsSound {k} {w} hears_accepted g = end_engine-IsSound _ (mark-IsSound w.bridge g)

pub reach-IsSound :
    {k : ℕ} {w v : BridgeWorld} (r : BridgeReach w v)
    → IsSound k w.bridge
    → IsSound (far_ends_from k r) v.bridge
reach-IsSound here g = g
reach-IsSound (next r s) g = step-IsSound s (reach-IsSound r g)

abbrev pub bridge_world : CallBridge → BridgeWorld
bridge_world b = record { bridge = b; tasks = [] }

-- A bridge as its constructor leaves it.
pub data Fresh : CallBridge → Type 0 where
  calls_out : (v : Bool) (o : AudioCallOptions) → Fresh (outgoing_bridge v o)
  is_called : (msg : ℕ) (sdp : String) (o : AudioCallOptions) → Fresh (incoming_bridge msg sdp o)

pub Fresh-IsSound : {b : CallBridge} → Fresh b → IsSound 0 b
unfolding outgoing_bridge incoming_bridge
Fresh-IsSound (calls_out v o) = record {
  settled = new_engine-Settled _;
  at_most = ground arith;
  marked = λ x. refl;
  caused = λ x. ground arith;
}
Fresh-IsSound (is_called msg sdp o) = record {
  settled = new_engine-Settled _;
  at_most = ground arith;
  marked = λ x. refl;
  caused = λ x. ground arith;
}

-- However the engine's callbacks, the RPC answers, hangups and the events of the far end interleave, a
-- bridge calls `endCall` at most once.
pub end_call_once :
    {b : CallBridge} {v : BridgeWorld}
    → Fresh b
    → BridgeReach (bridge_world b) v
    → end_calls v.bridge ≤ 1
end_call_once f r = (reach-IsSound r (Fresh-IsSound f)).at_most
