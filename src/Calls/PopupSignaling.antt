-- ===== src/Calls/PopupSignaling.antt =====
-- packages/calls/bridge/popup-signaling.ts: the popup's RPC client, and the opener that serves it. A
-- promise is the id of its request; the values that the methods resolve to are a parameter.
pub mod Settling
pub mod Serving
pub mod Opener
pub mod Relay
use Prim.Native.String.{String}
use slothfulchat_web.Prelude.{
  ℕ, zero, suc, Bool, true, false, not, ◌&&◌, List, [], ◌∷◌, ◌++◌, map, ◌==◌, if◌then◌else◌, keep,
  member,
}

-- An element of `args`; `absent` is the `undefined` behind the end.
pub data Arg : Type 0 where
  number : ℕ → Arg
  text : String → Arg
  flag : Bool → Arg
  absent : Arg

-- What `method` may be on the wire.
pub data PopupRpcMethod : Type 0 where
  place_outgoing_call accept_incoming_call end_call ice_servers call_info : PopupRpcMethod
  other : String → PopupRpcMethod

pub record Request : Type 0 where
  pub id : ℕ
  pub method : PopupRpcMethod
  pub args : List Arg

pub data RpcResult (V : Type 0) : Type 0 where
  ok : V → RpcResult V
  error : String → RpcResult V

-- What the client does: it posts a request, it settles the promise of one, or its method returns a
-- rejected promise at once.
pub data Effect (V : Type 0) : Type 0 where
  post : Request → Effect V
  settle : ℕ → RpcResult V → Effect V
  refuse : Effect V

pub record PopupRpcClient : Type 0 where
  pub next_id : ℕ
  -- The keys of the map `pending`; the value at a key is the promise of that id.
  pub pending : List ℕ
  pub subscribed : Bool
  pub closed : Bool

abbrev pub new_client : PopupRpcClient
new_client = record { next_id = 1; pending = []; subscribed = true; closed = false }

module _ {V : Type 0} where
  unfoldable pub call :
      PopupRpcMethod → List Arg → PopupRpcClient → PopupRpcClient × List (Effect V)
  call method args c = if c.closed then (c, refuse ∷ []) else (
    record c { next_id = suc c.next_id; pending = c.pending ++ c.next_id ∷ [] },
    post (record { id = c.next_id; method = method; args = args }) ∷ [],
  )

  -- The handler of `port.onMessage`, at an `rpc-result`.
  unfoldable pub on_result : ℕ → RpcResult V → PopupRpcClient → PopupRpcClient × List (Effect V)
  on_result id r c =
      if c.subscribed && member id c.pending
      then (record c { pending = keep (λ k. not (k == id)) c.pending }, settle id r ∷ [])
      else (c, [])

  unfoldable pub dispose : PopupRpcClient → PopupRpcClient × List (Effect V)
  dispose c = (
    record c { closed = true; subscribed = false; pending = [] },
    map (λ id. settle id (error "PopupRpcClient: relay closed")) c.pending,
  )

-- The methods of the client; each is a call.
pub data RpcCall : Type 0 where
  placing : ℕ → ℕ → String → Bool → RpcCall
  accepting : ℕ → ℕ → String → RpcCall
  ending informing : ℕ → ℕ → RpcCall
  serving : ℕ → RpcCall

abbrev pub method_of : RpcCall → PopupRpcMethod
method_of (placing account chat info video) = place_outgoing_call
method_of (accepting account msg info) = accept_incoming_call
method_of (ending account msg) = end_call
method_of (informing account msg) = call_info
method_of (serving account) = ice_servers

abbrev pub args_of : RpcCall → List Arg
args_of (placing account chat info video) =
    number account ∷ number chat ∷ text info ∷ flag video ∷ []
args_of (accepting account msg info) = number account ∷ number msg ∷ text info ∷ []
args_of (ending account msg) = number account ∷ number msg ∷ []
args_of (informing account msg) = number account ∷ number msg ∷ []
args_of (serving account) = number account ∷ []

-- What `invokeRpc` calls on the real client, its casts unchecked.
pub data Invocation : Type 0 where
  places : Arg → Arg → Arg → Arg → Invocation
  accepts : Arg → Arg → Arg → Invocation
  ends informs : Arg → Arg → Invocation
  serves : Arg → Invocation
  unknown_method : String → Invocation

-- `args[i]`
abbrev pub arg : List Arg → ℕ → Arg
arg [] i = absent
arg (a ∷ rest) zero = a
arg (a ∷ rest) (suc i) = arg rest i

unfoldable pub invoke_rpc : PopupRpcMethod → List Arg → Invocation
invoke_rpc place_outgoing_call args = places (arg args 0) (arg args 1) (arg args 2) (arg args 3)
invoke_rpc accept_incoming_call args = accepts (arg args 0) (arg args 1) (arg args 2)
invoke_rpc end_call args = ends (arg args 0) (arg args 1)
invoke_rpc ice_servers args = serves (arg args 0)
invoke_rpc call_info args = informs (arg args 0) (arg args 1)
invoke_rpc (other m) args = unknown_method m
