-- ===== src/Calls/PopupSignaling/Relay.antt =====
-- packages/calls/bridge/popup-signaling.ts: a call of the popup, relayed to the real client and back.
use slothfulchat_web.Prelude.{
  ℕ, ◌≡◌, refl, inl, inr, true, false, Option, List, [], ◌∷◌, ◌++◌, arith, Bool-cases, Option-cases,
  member, member-append,
}
use slothfulchat_web.Calls.PopupSignaling.{
  PopupRpcMethod, Request, RpcResult, ok, error, post, settle, PopupRpcClient, call, on_result,
  RpcCall, placing, accepting, ending, informing, serving, method_of, args_of, invoke_rpc,
}
use slothfulchat_web.Calls.PopupSignaling.Opener.{
  Opener, OpenerEffect, invoked, told_call_message_id, posted_result, places_call, on_rpc,
  message_id, on_invoked,
}
use slothfulchat_web.Calls.PopupSignaling.Serving.{meant}

-- The results that an opener posts.
abbrev pub results : {V : Type 0} → List (OpenerEffect V) → List (ℕ × RpcResult V)
results [] = []
results (posted_result n r ∷ es) = (n, r) ∷ results es
results (invoked i ∷ es) = results es
results (told_call_message_id n ∷ es) = results es

message_id-results :
    (V : Type 0) (number_of : V → Option ℕ) (m : PopupRpcMethod) (v : V)
    (es : List (OpenerEffect V))
    → results (message_id number_of m v ++ es) ≡ results es
message_id-results V number_of m v es = elim (Bool-cases (places_call m)) [
  | inr n ↦ rw n refl
  | inl y ↦ elim (Option-cases (number_of v)) [
    | inl q ↦ rw (y, q) refl
    | inr (n, q) ↦ rw (y, q) refl
  ]
]

on_invoked-results :
    (V : Type 0) (number_of : V → Option ℕ) (q : Request) (r : RpcResult V)
    → results (on_invoked number_of q r) ≡ (q.id, r) ∷ []
unfolding on_invoked
on_invoked-results V number_of q (ok v) = message_id-results V number_of q.method v _
on_invoked-results V number_of q (error e) = refl

on_rpc-invoked :
    (V : Type 0) (r : RpcCall) (n : ℕ) (o : Opener)
    → o.listens ≡ true
    → (on_rpc {V = V} (record { id = n; method = method_of r; args = args_of r }) o).1
      ≡ invoked (meant r) ∷ []
unfolding on_rpc invoke_rpc
on_rpc-invoked V (placing account chat info video) n o h = rw h refl
on_rpc-invoked V (accepting account msg info) n o h = rw h refl
on_rpc-invoked V (ending account msg) n o h = rw h refl
on_rpc-invoked V (informing account msg) n o h = rw h refl
on_rpc-invoked V (serving account) n o h = rw h refl

member_last : (n : ℕ) (ns : List ℕ) → member n (ns ++ n ∷ []) ≡ true
member_last n ns = ground (arith, member-append n ns (n ∷ []))

-- While both sides listen, a method of the popup's client posts one request; the opener then calls the
-- real client once, with the same method and all its arguments; however that call settles, the opener
-- posts one result, and with it the promise of the popup settles the same way.
pub call_relayed :
    (V : Type 0) (number_of : V → Option ℕ) (r : RpcCall) (c : PopupRpcClient) (o : Opener)
    (res : RpcResult V)
    → c.closed ≡ false
    → c.subscribed ≡ true
    → o.listens ≡ true
    → let called = call {V = V} (method_of r) (args_of r) c in
      (q : Request) × (called.1 ≡ post q ∷ [])
      × ((on_rpc {V = V} q o).1 ≡ invoked (meant r) ∷ [])
      × (results (on_invoked number_of q res) ≡ (q.id, res) ∷ [])
      × ((on_result q.id res called.0).1 ≡ settle q.id res ∷ [])
unfolding call on_result
call_relayed V number_of r c o res h k l = (
  record { id = c.next_id; method = method_of r; args = args_of r },
  rw h refl,
  on_rpc-invoked V r c.next_id o l,
  on_invoked-results V number_of _ res,
  rw (h, k, member_last c.next_id c.pending) refl,
)
