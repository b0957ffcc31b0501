-- ===== src/Calls/Bridge/Reports.antt =====
-- packages/calls/bridge/index.ts: when and how often the far end is told that a call is over.
use slothfulchat_web.Calls.Bridge.{
  RpcTask, placing_call, sending_answer, RpcOutcome, placed, accepted, failed, CallBridge,
  send_end_call, absorb, send_if_known, hangup, remote_ended, accepted_elsewhere, resume_rpc,
}
use slothfulchat_web.Calls.Bridge.Steps.{
  BridgeWorld, BridgeStep, engine_call, engine_settles, rpc_settles, hangs_up, hears_end,
  hears_accepted, BridgeReach, here, next,
}
use slothfulchat_web.Prelude.{
  ℕ, ◌+◌, ◌≤◌, ◌≡◌, refl, ◌⊎◌, inl, inr, Bool, true, Option, none, some, arith, Bool-cases,
}
use slothfulchat_web.Calls.CallState.{ended, same_state}
use slothfulchat_web.Calls.Engine.State.{AudioCallEngine}
use slothfulchat_web.Calls.Engine.Ended.{HasEnded, Settled}
use slothfulchat_web.Calls.Engine.Quiet.Steps.{perform-Quiet, resume-Quiet}
use slothfulchat_web.Calls.Engine.World.{resume}
use slothfulchat_web.Calls.Bridge.Hangup.{
  end_calls, Keeps, end_engine-Keeps, end_engine-HasEnded, tell-Keeps, absorb-Keeps,
}
use slothfulchat_web.Calls.Bridge.Counts.{
  IsSound, hangup-IsSound, far_ends_from, far_ends, reach-IsSound, bridge_world, Fresh,
  Fresh-IsSound,
}

-- A bridge whose engine has ended, and that has no message id or has sent what it would send.
pub record IsClosed (b : CallBridge) : Type 0 where
  pub over : HasEnded b.engine
  pub done : (b.call_message_id ≡ none) ⊎ (b.end_call_sent ≡ true)

Keeps-IsClosed : {b c : CallBridge} → Keeps b c → IsClosed b → IsClosed c
Keeps-IsClosed q h = record { over = q.over h.over; done = rw (q.msg, q.sent) h.done }

send_if_known-IsClosed :
    (m : Option ℕ) (b : CallBridge)
    → b.call_message_id ≡ m
    → HasEnded b.engine
    → IsClosed (send_if_known m b)
unfolding send_end_call
send_if_known-IsClosed none b q h = record { over = h; done = inl q }
send_if_known-IsClosed (some msg) b q h = ground arith

hangup-IsClosed : (b : CallBridge) → IsClosed (hangup b)
unfolding hangup
hangup-IsClosed b =
    send_if_known-IsClosed b.call_message_id _ (end_engine-Keeps b).msg (end_engine-HasEnded b)

resume_rpc-IsClosed :
    (t : RpcTask) (r : RpcOutcome) (b : CallBridge) → IsClosed b → IsClosed (resume_rpc t r b)
unfolding resume_rpc
resume_rpc-IsClosed placing_call (placed msg) b h =
    elim (Bool-cases (same_state b.engine.machine.current_state ended)) [
      | inl y ↦
          rw y (
            send_if_known-IsClosed (some msg) (record b { call_message_id = some msg }) refl h.over)
      | inr n ↦ ground (arith, h.over)
    ]
resume_rpc-IsClosed placing_call accepted b h = h
resume_rpc-IsClosed placing_call (failed m) b h =
    Keeps-IsClosed (tell-Keeps _ _ refl) (Keeps-IsClosed (end_engine-Keeps b) h)
resume_rpc-IsClosed sending_answer (failed m) b h =
    Keeps-IsClosed (tell-Keeps _ _ refl) (Keeps-IsClosed (end_engine-Keeps b) h)
resume_rpc-IsClosed sending_answer accepted b h = h
resume_rpc-IsClosed sending_answer (placed msg) b h = h

absorb-IsClosed :
    (h : ℕ) (a : Bool) (e : AudioCallEngine) (b : CallBridge)
    → IsClosed b
    → e.machine ≡ b.engine.machine
    → IsClosed (absorb h a e b)
absorb-IsClosed h a e b s q =
    Keeps-IsClosed (absorb-Keeps h a e b) (record { over = rw q s.over; done = s.done })

step-IsClosed :
    {w v : BridgeWorld} (s : BridgeStep w v)
    → Settled w.bridge.engine
    → IsClosed w.bridge
    → IsClosed v.bridge
unfolding remote_ended accepted_elsewhere
step-IsClosed {w} (engine_call h a p c e t n r) k g =
    absorb-IsClosed h a e w.bridge g (perform-Quiet p c w.bridge.engine g.over (k g.over) r).0
step-IsClosed {w} (engine_settles h a p before t after r q) k g =
    absorb-IsClosed h a (resume p t r w.bridge.engine).0 w.bridge g
      (resume-Quiet p t r w.bridge.engine g.over (k g.over)).0
step-IsClosed {w} (rpc_settles before t after r q) k g =
    resume_rpc-IsClosed t r _ (record { over = g.over; done = g.done })
step-IsClosed {w} hangs_up k g = hangup-IsClosed w.bridge
step-IsClosed {w} hears_end k g =
    Keeps-IsClosed (end_engine-Keeps _) (record { over = g.over; done = inr refl })
step-IsClosed {w} hears_accepted k g =
    Keeps-IsClosed (end_engine-Keeps _) (record { over = g.over; done = inr refl })

reach-IsClosed :
    {k : ℕ} {w v : BridgeWorld} (r : BridgeReach w v)
    → IsSound k w.bridge
    → IsClosed w.bridge
    → IsClosed v.bridge
reach-IsClosed here h g = g
reach-IsClosed (next r s) h g = step-IsClosed s (reach-IsSound r h).settled (reach-IsClosed r h g)

told_lem :
    {k : ℕ} {b : CallBridge}
    → IsSound k b
    → IsClosed b
    → (b.call_message_id ≡ none) ⊎ (1 ≤ end_calls b + k)
told_lem h g = elim g.done [ inl n ↦ inl n | inr y ↦ inr (h.caused y) ]

-- Whenever the user hangs up, and whatever happens after it, also a `placeOutgoingCall` that is answered
-- only then: as soon as the bridge knows the message id of the call, it has called `endCall`, or it has
-- learned that the call is over elsewhere.
pub hangup-reports :
    {b : CallBridge} {w v : BridgeWorld}
    → Fresh b
    → (r : BridgeReach (bridge_world b) w)
    → (s : BridgeReach (record w { bridge = hangup w.bridge }) v)
    → (v.bridge.call_message_id ≡ none) ⊎ (1 ≤ end_calls v.bridge + far_ends_from (far_ends r) s)
hangup-reports {b} {w} f r s =
    let h = hangup-IsSound w.bridge (reach-IsSound r (Fresh-IsSound f)) in
    told_lem (reach-IsSound s h) (reach-IsClosed s h (hangup-IsClosed w.bridge))
