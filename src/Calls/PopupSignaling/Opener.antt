-- ===== src/Calls/PopupSignaling/Opener.antt =====
-- packages/calls/bridge/popup-signaling.ts: the messages that a window accepts, and the opener's answers to
-- the requests of its popup. An object counts by the fields that the parser looks at.
use Prim.Native.String.{String}
use text.Mathlib.Text.{◌==◌ as str_eq}
use slothfulchat_web.Prelude.{
  ℕ, ◌≡◌, refl, Bool, true, false, ◌&&◌, ◌||◌, Option, none, some, List, [], ◌∷◌, ◌++◌,
  if◌then◌else◌,
}
use slothfulchat_web.Calls.PopupSignaling.{
  PopupRpcMethod, place_outgoing_call, Request, RpcResult, ok, error, Invocation, invoke_rpc,
}

-- A field of an untrusted object.
pub data Field : Type 0 where
  missing : Field
  a_number : ℕ → Field
  a_string : String → Field
  a_flag : Bool → Field
  an_array something : Field

pub record PopupMessage : Type 0 where
  pub protocol : Field
  pub kind : Field
  pub id : Field
  pub is_ok : Field
  pub method : Field
  pub args : Field

-- What any page may post.
pub data Posted : Type 0 where
  null primitive : Posted
  object : PopupMessage → Posted

abbrev pub call_popup_protocol : String
call_popup_protocol = "slothfulchat-call-popup/1"

abbrev is_string : Field → Bool
is_string (a_string s) = true
is_string _ = false

abbrev is_number : Field → Bool
is_number (a_number n) = true
is_number _ = false

abbrev is_flag : Field → Bool
is_flag (a_flag b) = true
is_flag _ = false

abbrev is_array : Field → Bool
is_array an_array = true
is_array _ = false

abbrev pub says : String → Field → Bool
says s (a_string t) = str_eq t s
says s _ = false

abbrev pub is_kind : PopupMessage → Bool
is_kind m =
    says "ready" m.kind
    || says "ended" m.kind
    || says "init" m.kind
    || says "event" m.kind
    || (says "rpc" m.kind && is_number m.id && is_string m.method && is_array m.args)
    || (says "rpc-result" m.kind && is_number m.id && is_flag m.is_ok)

unfoldable pub parse_popup_message : Posted → Option PopupMessage
parse_popup_message null = none
parse_popup_message primitive = none
parse_popup_message (object m) =
    if says call_popup_protocol m.protocol && is_kind m then some m else none

-- The opener, with the requests that the real client has not answered.
pub record Opener : Type 0 where
  pub listens : Bool
  pub requests : List Request

pub data OpenerEffect (V : Type 0) : Type 0 where
  invoked : Invocation → OpenerEffect V
  told_call_message_id : ℕ → OpenerEffect V
  posted_result : ℕ → RpcResult V → OpenerEffect V

abbrev pub places_call : PopupRpcMethod → Bool
places_call place_outgoing_call = true
places_call _ = false

module _ {V : Type 0} where
  -- The handler of `servePopupRpc`, at an `rpc` message, up to its await.
  unfoldable pub on_rpc : Request → Opener → Opener × List (OpenerEffect V)
  on_rpc r o =
      if o.listens
      then (record o { requests = r ∷ o.requests }, invoked (invoke_rpc r.method r.args) ∷ [])
      else (o, [])

  -- `number_of` is the number that a value is, if it is one.
  abbrev pub message_id : (V → Option ℕ) → PopupRpcMethod → V → List (OpenerEffect V)
  message_id number_of method v =
      if places_call method
      then elim (number_of v) [ none ↦ [] | some n ↦ told_call_message_id n ∷ [] ]
      else []

  -- The promise of a request settles; the answer is posted whether or not the opener still listens.
  unfoldable pub on_invoked : (V → Option ℕ) → Request → RpcResult V → List (OpenerEffect V)
  on_invoked number_of r (ok v) = message_id number_of r.method v ++ posted_result r.id (ok v) ∷ []
  on_invoked number_of r (error e) = posted_result r.id (error e) ∷ []

foreign_test :
    parse_popup_message (
      object (record {
        protocol = a_string "slothfulchat-call-popup/0";
        kind = a_string "ready";
        id = missing;
        is_ok = missing;
        method = missing;
        args = missing;
      }))
    ≡ none
unfolding parse_popup_message
foreign_test = refl
