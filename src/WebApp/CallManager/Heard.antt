-- ===== src/WebApp/CallManager/Heard.antt =====
-- packages/web-app/src/runtime.ts, the class `CallManager`: what it hears, one happening after the other.
use slothfulchat_web.Calls.CallState.{CallState}
use slothfulchat_web.Prelude.{ℕ, Bool, Option, some, List, [], ◌∷◌}
use slothfulchat_web.Calls.CallOutcome.{CoreCallStateKind}
use slothfulchat_web.WebApp.CallManager.{Purpose, Manager, mark, start_outgoing_call}
use slothfulchat_web.WebApp.CallManager.Handlers.{
  open_incoming_call, on_outgoing_accepted, on_incoming_accepted, on_call_ended, accept_current,
  on_state, on_microtask, on_error, hangup_current, on_popup_ended, on_popup_fallback, on_ice,
  on_call_info,
}

-- Everything that the manager hears: its own controls, the core's events, and what its tasks, its bridges
-- and its popups report of the slot that they were made for.
pub data Happening : Type 0 where
  calls_out : ℕ → Bool → Bool → Happening
  comes_in : ℕ → ℕ → Bool → Happening
  answers_out : ℕ → ℕ → Happening
  accepted_in : ℕ → ℕ → Bool → Bool → Happening
  ends : ℕ → ℕ → Happening
  accepts : Bool → Bool → Happening
  hangs_up : Bool → Happening
  placed : ℕ → ℕ → Happening
  fetches : Purpose → ℕ → Bool → Happening
  changes : ℕ → CallState → Happening
  rests fails falls_back : ℕ → Happening
  popup_ends : ℕ → Bool → Happening
  informs : ℕ → Option CoreCallStateKind → Happening

unfoldable pub happen : Happening → Manager → Manager
happen (calls_out account_id has_video opens) t = start_outgoing_call account_id has_video opens t
happen (comes_in account_id msg has_video) t = open_incoming_call account_id msg has_video t
happen (answers_out account_id msg) t = on_outgoing_accepted account_id msg t
happen (accepted_in account_id msg here ringing) t =
    on_incoming_accepted account_id msg here ringing t
happen (ends account_id msg) t = on_call_ended account_id msg t
happen (accepts with_video opens) t = accept_current with_video opens t
happen (hangs_up reports) t = hangup_current reports t
happen (placed n msg) t = mark n (λ s. record s { placed_id = some msg }) t
happen (fetches purpose n fetched) t = on_ice purpose n fetched t
happen (changes n st) t = on_state n st t
happen (rests n) t = on_microtask n t
happen (fails n) t = on_error n t
happen (falls_back n) t = on_popup_fallback n t
happen (popup_ends n reached) t = on_popup_ended n reached t
happen (informs n kind) t = on_call_info n kind t

unfoldable pub happen_all : List Happening → Manager → Manager
happen_all [] t = t
happen_all (h ∷ hs) t = happen_all hs (happen h t)
