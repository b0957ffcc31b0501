-- ===== src/Calls/CallOutcome.antt =====
-- packages/calls/bridge/call-outcome.ts: the analytics bucket of a call that never connected here.
use slothfulchat_web.Prelude.{◌≡◌, ◌≢◌, ◌⊎◌, ◌↔◌, arith}
use slothfulchat_web.Calls.CallState.{CallDirection, outgoing, incoming}

pub data CallResult : Type 0 where
  connected missed busy declined timeout cancelled error : CallResult

pub data CoreCallStateKind : Type 0 where
  core_alerting core_active core_completed core_missed core_declined core_canceled :
      CoreCallStateKind

unfoldable pub classify_call_outcome : CallDirection → CoreCallStateKind → CallResult
classify_call_outcome incoming core_declined = declined
classify_call_outcome incoming _ = missed
classify_call_outcome outgoing core_canceled = declined
classify_call_outcome outgoing _ = timeout

-- The bucket of a call that never connected here is never one that the runtime knows by itself:
-- it is `declined` exactly when the side that received the call rejected it, and otherwise
-- `missed` for an incoming call and `timeout` for an outgoing one.
pub classify_call_outcome_lem :
    (d : CallDirection) (k : CoreCallStateKind)
    → (classify_call_outcome d k ≡ declined
        ↔ ((d ≡ incoming) × (k ≡ core_declined)) ⊎ ((d ≡ outgoing) × (k ≡ core_canceled)))
      × (classify_call_outcome d k ≡ missed ↔ (d ≡ incoming) × (k ≢ core_declined))
      × (classify_call_outcome d k ≡ timeout ↔ (d ≡ outgoing) × (k ≢ core_canceled))
unfolding classify_call_outcome
classify_call_outcome_lem d k =
    ((ground arith, ground arith), (ground arith, ground arith), (ground arith, ground arith))
