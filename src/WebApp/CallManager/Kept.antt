-- ===== src/WebApp/CallManager/Kept.antt =====
-- packages/web-app/src/runtime.ts, the class `CallManager`: every happening keeps what is recorded.
use slothfulchat_web.Calls.CallState.{CallState, CallDirection, outgoing, incoming}
use slothfulchat_web.Prelude.{
  ℕ, ◌≤◌, ◌≡◌, refl, inl, inr, Bool, true, false, not, ◌||◌, Option, none, some, arith, ltb, ◌==◌,
  Bool-cases, if-keeps, count_if,
}
use slothfulchat_web.WebApp.CallManager.{
  overlay, Slot, Effect, bridge_hung_up, state_shown, Purpose, to_call, to_ring, to_accept, Manager,
  tell, mark, is_call, message_id, set_reported, set_mode,
}
use slothfulchat_web.WebApp.CallManager.Handlers.{
  is_popup, to_bridge, set_cancelled, connect, is_connected, is_ended, on_state, on_microtask,
  on_error, end_rpc, hang_up_bridge, hangup_slot, on_popup_ended, resume_overlay, on_popup_fallback,
  make_bridge, with_servers, on_ice,
}
use slothfulchat_web.WebApp.CallManager.Recorded.{
  tells, told, marked, IsRecorded, mark-IsRecorded, marked-bounded, current-made,
  teardown-IsRecorded,
}

module _ (n : ℕ) where
  pub to_bridge-IsRecorded :
      (e : ℕ → Effect) (b : Option ℕ) (t : Manager)
      → ((k before : ℕ) → tells n (e k) before ≡ before)
      → IsRecorded n t
      → IsRecorded n (to_bridge e b t)
  to_bridge-IsRecorded e none t quiet h = h
  to_bridge-IsRecorded e (some b) t quiet h = record {
    once = rw (quiet b (told n t.effects)) h.once;
    known = h.known;
    present = h.present;
  }

  pub marked-grows : (m : ℕ) (t : Manager) → marked n t ≤ marked n (mark m set_reported t)
  marked-grows m t = elim (Bool-cases (n == m)) [
    | inl y ↦ rw y (ground arith)
    | inr w ↦ rw w (omega arith)
  ]

  pub set_reported-IsRecorded :
      (m : ℕ) (t : Manager)
      → is_call m t.call ≡ true
      → IsRecorded n t
      → IsRecorded n (mark m set_reported t)
  set_reported-IsRecorded m t y h =
      let k = current-made n m t y h in
      let g = marked-grows m t in
      record {
        once = omega arith;
        known = marked-bounded n m (count_if (ltb n t.made)) t h.known k;
        present = h.present;
      }

  pub resume-IsRecorded :
      (m : ℕ) (direction : CallDirection) (t : Manager)
      → IsRecorded n t
      → IsRecorded n (resume_overlay m direction t)
  resume-IsRecorded m outgoing t h = mark-IsRecorded n m (set_mode overlay) t refl h
  resume-IsRecorded m incoming t h = h

  pub fall_back-IsRecorded :
      (m : ℕ) (t : Manager) → IsRecorded n t → IsRecorded n (on_popup_fallback m t)
  unfolding on_popup_fallback
  fall_back-IsRecorded m t h =
      let back : Slot → Slot =
        λ s. record s { has_popup = false; mode = overlay; placed_id = none } in
      if-keeps (IsRecorded n) (is_call m t.call) _ _
        (resume-IsRecorded m (t.slot m).direction (mark m back t)
          (mark-IsRecorded n m back t refl h))
        h

  pub bridge-IsRecorded : (m : ℕ) (t : Manager) → IsRecorded n t → IsRecorded n (make_bridge m t)
  bridge-IsRecorded m t h = mark-IsRecorded n m (λ s. record s { bridge = some t.bridges }) t refl h

  pub servers-IsRecorded :
      (purpose : Purpose) (m : ℕ) (t : Manager)
      → IsRecorded n t
      → IsRecorded n (with_servers purpose m t)
  servers-IsRecorded to_call m t h = bridge-IsRecorded m t h
  servers-IsRecorded to_ring m t h = bridge-IsRecorded m t h
  servers-IsRecorded to_accept m t h = bridge-IsRecorded m t h

  pub error-IsRecorded : (m : ℕ) (t : Manager) → IsRecorded n t → IsRecorded n (on_error m t)
  unfolding on_error
  error-IsRecorded m t h =
      if-keeps (IsRecorded n) (not (is_call m t.call) || is_popup (t.slot m).mode) _ _ h
        (mark-IsRecorded n m (λ s. record s { errored = true }) t refl h)

  pub ice-IsRecorded :
      (purpose : Purpose) (m : ℕ) (fetched : Bool) (t : Manager)
      → IsRecorded n t
      → IsRecorded n (on_ice purpose m fetched t)
  unfolding on_ice
  ice-IsRecorded purpose m fetched t h =
      if-keeps (IsRecorded n) (not fetched) _ _ (error-IsRecorded m t h) (
        if-keeps (IsRecorded n) ((t.slot m).cancelled || is_popup (t.slot m).mode) _ _ h
          (servers-IsRecorded purpose m t h))

  pub state-IsRecorded :
      (m : ℕ) (st : CallState) (t : Manager) → IsRecorded n t → IsRecorded n (on_state m st t)
  unfolding on_state
  state-IsRecorded m st t h =
      let k = mark-IsRecorded n m (connect (is_connected st)) (tell (state_shown st) t) refl h in
      if-keeps (IsRecorded n) (not (is_call m t.call) || is_popup (t.slot m).mode) _ _ h
        (if-keeps (IsRecorded n) (is_ended st) _ _ k k)

  pub rest-IsRecorded : (m : ℕ) (t : Manager) → IsRecorded n t → IsRecorded n (on_microtask m t)
  unfolding on_microtask
  rest-IsRecorded m t h =
      if-keeps (IsRecorded n) (t.slot m).errored _ _ h (teardown-IsRecorded n m t h)

  pub popup_end-IsRecorded :
      (m : ℕ) (reached : Bool) (t : Manager)
      → IsRecorded n t
      → IsRecorded n (on_popup_ended m reached t)
  unfolding on_popup_ended
  popup_end-IsRecorded m reached t h =
      teardown-IsRecorded n m (mark m (connect reached) t)
        (mark-IsRecorded n m (connect reached) t refl h)

  pub end_rpc-IsRecorded :
      (account_id : ℕ) (id : Option ℕ) (t : Manager)
      → IsRecorded n t
      → IsRecorded n (end_rpc account_id id t)
  end_rpc-IsRecorded account_id none t h = h
  end_rpc-IsRecorded account_id (some msg) t h = h

  pub hang_up-IsRecorded :
      (m : ℕ) (b : Option ℕ) (reports : Bool) (t : Manager)
      → IsRecorded n t
      → IsRecorded n (hang_up_bridge m b reports t)
  hang_up-IsRecorded m none reports t h = mark-IsRecorded n m set_cancelled t refl h
  hang_up-IsRecorded m (some b) reports t h =
      let u = tell (bridge_hung_up b) t in
      if-keeps (IsRecorded n) reports _ _ (state-IsRecorded m CallState.ended u h) h

  pub hangup-IsRecorded :
      (c : Option ℕ) (reports : Bool) (t : Manager)
      → IsRecorded n t
      → IsRecorded n (hangup_slot c reports t)
  hangup-IsRecorded none reports t h = h
  hangup-IsRecorded (some m) reports t h =
      let local : Slot → Slot = λ s. record s { locally_ended = true } in
      let k = mark-IsRecorded n m local t refl h in
      let s = t.slot m in
      teardown-IsRecorded n m _ (
        if-keeps (IsRecorded n) (is_popup s.mode) _ _
          (end_rpc-IsRecorded s.account_id (message_id s) (mark m local t) k)
          (hang_up-IsRecorded m s.bridge reports (mark m local t) k))
