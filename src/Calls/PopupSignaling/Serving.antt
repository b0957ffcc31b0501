-- ===== src/Calls/PopupSignaling/Serving.antt =====
-- packages/calls/bridge/popup-signaling.ts: what the opener calls for what the popup asked.
use slothfulchat_web.Prelude.{◌≡◌, true, false, List, [], ◌∷◌, arith}
use slothfulchat_web.Calls.PopupSignaling.{
  number, text, flag, Effect, post, settle, refuse, PopupRpcClient, call, RpcCall, placing,
  accepting, ending, informing, serving, method_of, args_of, Invocation, places, accepts, ends,
  informs, serves, invoke_rpc,
}

-- The call of the real client that a method of the popup's client means.
abbrev pub meant : RpcCall → Invocation
meant (placing account chat info video) =
    places (number account) (number chat) (text info) (flag video)
meant (accepting account msg info) = accepts (number account) (number msg) (text info)
meant (ending account msg) = ends (number account) (number msg)
meant (informing account msg) = informs (number account) (number msg)
meant (serving account) = serves (number account)

abbrev pub asked : {V : Type 0} → List (Effect V) → List Invocation
asked [] = []
asked (post r ∷ es) = invoke_rpc r.method r.args ∷ asked es
asked (settle i r ∷ es) = asked es
asked (refuse ∷ es) = asked es

-- Until the relay is closed, a method of the popup's client makes the opener call the real client
-- once, with the same method and all its arguments; afterwards it asks nothing of the opener.
pub call-invoke_rpc :
    (V : Type 0) (r : RpcCall) (c : PopupRpcClient)
    → (c.closed ≡ false → asked (call {V = V} (method_of r) (args_of r) c).1 ≡ meant r ∷ [])
      × (c.closed ≡ true → asked (call {V = V} (method_of r) (args_of r) c).1 ≡ [])
unfolding call invoke_rpc
call-invoke_rpc V (placing account chat info video) c = (ground arith, ground arith)
call-invoke_rpc V (accepting account msg info) c = (ground arith, ground arith)
call-invoke_rpc V (ending account msg) c = (ground arith, ground arith)
call-invoke_rpc V (informing account msg) c = (ground arith, ground arith)
call-invoke_rpc V (serving account) c = (ground arith, ground arith)
