-- ===== src/WebApp/CallManager/Busy.antt =====
-- packages/web-app/src/runtime.ts, the class `CallManager`: the calls that are declined as busy.
use slothfulchat_web.Prelude.{
  ℕ, ◌+◌, ◌≤◌, ◌≡◌, refl, Bool, false, ◌&&◌, Option, none, some, List, [], ◌∷◌, arith, ◌==◌,
  count_if,
}
use slothfulchat_web.WebApp.CallManager.{
  Effect, auto_declined, Manager, report_call_outcome, teardown, start_outgoing_call,
}
use slothfulchat_web.WebApp.CallManager.Handlers.{
  open_incoming_call, on_outgoing_accepted, on_incoming_accepted, on_call_ended, accept_current,
  on_state, on_microtask, on_error, hangup_slot, hangup_current, on_popup_ended, on_popup_fallback,
  on_ice, on_call_info,
}
use slothfulchat_web.WebApp.CallManager.Heard.{
  Happening, calls_out, comes_in, answers_out, accepted_in, ends, accepts, hangs_up, placed,
  fetches, changes, rests, fails, falls_back, popup_ends, informs, happen, happen_all,
}

module _ (a m : ℕ) where
  abbrev pub declines : Effect → Bool
  declines (auto_declined b k) = (b == a) && (k == m)
  declines _ = false

  -- How often a call, known by its account and its message, was declined and told as busy.
  abbrev pub busy : List Effect → ℕ
  busy [] = 0
  busy (e ∷ es) = count_if (declines e) + busy es

  abbrev pub comes : Happening → Bool
  comes (comes_in b k has_video) = (b == a) && (k == m)
  comes _ = false

  abbrev pub comings : List Happening → ℕ
  comings [] = 0
  comings (h ∷ hs) = count_if (comes h) + comings hs

  teardown-busy : (n : ℕ) (t : Manager) → busy (teardown n t).effects ≡ busy t.effects
  unfolding teardown report_call_outcome
  teardown-busy n t = ground arith

  hangup_slot-busy :
      (c : Option ℕ) (reports : Bool) (t : Manager)
      → busy (hangup_slot c reports t).effects ≡ busy t.effects
  unfolding on_state
  hangup_slot-busy none reports t = refl
  hangup_slot-busy (some n) reports t = grind (arith, teardown-busy)

  happen-busy :
      (h : Happening) (t : Manager)
      → busy (happen h t).effects ≤ count_if (comes h) + busy t.effects
  unfolding happen start_outgoing_call open_incoming_call on_outgoing_accepted on_incoming_accepted
      on_call_ended accept_current on_state on_microtask on_error hangup_current on_popup_ended
      on_popup_fallback on_ice on_call_info
  happen-busy (calls_out account_id has_video opens) t = ground arith
  happen-busy (comes_in account_id msg has_video) t = ground arith
  happen-busy (answers_out account_id msg) t = ground arith
  happen-busy (accepted_in account_id msg here ringing) t = grind (arith, teardown-busy)
  happen-busy (ends account_id msg) t = grind (arith, teardown-busy)
  happen-busy (accepts with_video opens) t = ground arith
  happen-busy (hangs_up reports) t = omega (arith, hangup_slot-busy t.call reports t)
  happen-busy (placed n msg) t = ground arith
  happen-busy (fetches purpose n fetched) t = ground arith
  happen-busy (changes n st) t = ground arith
  happen-busy (rests n) t = grind (arith, teardown-busy)
  happen-busy (fails n) t = ground arith
  happen-busy (falls_back n) t = ground arith
  happen-busy (popup_ends n reached) t = grind (arith, teardown-busy)
  happen-busy (informs n kind) t = ground arith

  -- A call is declined as busy at most as often as it comes in.
  pub happen_all-busy :
      (hs : List Happening) (t : Manager)
      → busy (happen_all hs t).effects ≤ comings hs + busy t.effects
  unfolding happen_all
  happen_all-busy [] t = omega arith
  happen_all-busy (h ∷ hs) t = omega (arith, happen-busy h t, happen_all-busy hs (happen h t))
