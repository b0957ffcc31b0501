-- ===== src/Calls/Bridge/Steps.antt =====
-- packages/calls/bridge/index.ts: a bridge with its engine, step by step.
use slothfulchat_web.Calls.Bridge.{
  RpcTask, RpcOutcome, CallBridge, absorb, hangup, remote_ended, accepted_elsewhere, resume_rpc,
}
use slothfulchat_web.Prelude.{ℕ, ◌≡◌, Bool, true, false, Option, List, ◌∷◌, ◌++◌}
use slothfulchat_web.Calls.Engine.State.{Platform, AudioCallEngine, Task, Outcome, goes}
use slothfulchat_web.Calls.Engine.World.{Call, ends, perform, resume, pended}

-- The steps of a bridge. The methods that only pass on to the engine are calls of the engine; `end` is
-- not among them, since the bridge has its own three ways to call it.
abbrev pub is_end : Call → Bool
is_end ends = true
is_end _ = false

-- The bridge, and the engine's methods that wait.
pub record BridgeWorld : Type 0 where
  pub bridge : CallBridge
  pub tasks : List Task

pub data BridgeStep (w : BridgeWorld) : BridgeWorld → Type 0 where
  engine_call :
      (h : ℕ) (has_audio : Bool) (p : Platform) (c : Call) (e : AudioCallEngine) (t : Option Task)
      → is_end c ≡ false
      → perform p c w.bridge.engine ≡ goes e t
      → BridgeStep w
          (record { bridge = absorb h has_audio e w.bridge; tasks = pended t ++ w.tasks })
  engine_settles :
      (h : ℕ) (has_audio : Bool) (p : Platform) (before : List Task) (t : Task) (after : List Task)
      (r : Outcome)
      → w.tasks ≡ before ++ t ∷ after
      → BridgeStep w (record {
        bridge = absorb h has_audio (resume p t r w.bridge.engine).0 w.bridge;
        tasks = before ++ pended (resume p t r w.bridge.engine).1 ++ after;
      })
  rpc_settles :
      (before : List RpcTask) (t : RpcTask) (after : List RpcTask) (r : RpcOutcome)
      → w.bridge.waiting ≡ before ++ t ∷ after
      → BridgeStep w
          (record w { bridge = resume_rpc t r (record w.bridge { waiting = before ++ after }) })
  hangs_up : BridgeStep w (record w { bridge = hangup w.bridge })
  hears_end : BridgeStep w (record w { bridge = remote_ended w.bridge })
  hears_accepted : BridgeStep w (record w { bridge = accepted_elsewhere w.bridge })

pub data BridgeReach (w : BridgeWorld) : BridgeWorld → Type 0 where
  here : BridgeReach w w
  next : {u v : BridgeWorld} → BridgeReach w u → BridgeStep u v → BridgeReach w v
