-- ===== src/WebApp/CallManager/Runs.antt =====
-- packages/web-app/src/runtime.ts, the class `CallManager`: the outcome of a call is recorded in every run.
use slothfulchat_web.Calls.CallState.{outgoing, incoming}
use slothfulchat_web.Prelude.{
  ℕ, ◌+◌, ◌≤◌, ◌≡◌, refl, inl, inr, Bool, true, false, not, ◌&&◌, ◌||◌, Option, none, some, List,
  [], ◌∷◌, arith, ltb, ◌==◌, ==_iff, Bool-cases, is_some, if-keeps, member, count_if, count,
}
use slothfulchat_web.Calls.CallOutcome.{CoreCallStateKind}
use slothfulchat_web.WebApp.CallManager.{
  overlay, popup, Slot, ring_stopped, bridge_accepted, bridge_answered, bridge_remote_ended,
  Manager, tell, mark, is_call, message_id, set_reported, new_slot, begin, set_mode, start_popup,
  start_outgoing_call, is_id, matching, slot_for_call,
}
use slothfulchat_web.WebApp.CallManager.Handlers.{
  open_incoming_call, is_popup, answer_slot, on_outgoing_accepted, set_cancelled, leave_ring,
  elsewhere_slot, on_incoming_accepted, end_bridge, end_slot, on_call_ended, accepting, is_incoming,
  accept_slot, accept_current, hangup_current, remove_one, on_call_info,
}
use slothfulchat_web.WebApp.CallManager.Heard.{
  Happening, calls_out, comes_in, answers_out, accepted_in, ends, accepts, hangs_up, placed,
  fetches, changes, rests, fails, falls_back, popup_ends, informs, happen, happen_all,
}
use slothfulchat_web.WebApp.CallManager.Busy.{busy, comings, happen_all-busy}
use slothfulchat_web.WebApp.CallManager.Recorded.{
  told, IsRecorded, mark-IsRecorded, begin-IsRecorded, teardown-IsRecorded,
}
use slothfulchat_web.WebApp.CallManager.Kept.{
  to_bridge-IsRecorded, set_reported-IsRecorded, fall_back-IsRecorded, error-IsRecorded,
  ice-IsRecorded, state-IsRecorded, rest-IsRecorded, popup_end-IsRecorded, hangup-IsRecorded,
}

count_if-bounded : (b : Bool) → count_if b ≤ 1
count_if-bounded true = omega arith
count_if-bounded false = omega arith

module _ (n : ℕ) where
  start_popup-IsRecorded : (m : ℕ) (t : Manager) → IsRecorded n t → IsRecorded n (start_popup m t)
  start_popup-IsRecorded m t h =
      mark-IsRecorded n m (λ s. record s { mode = popup; has_popup = true }) t refl h

  accept-IsRecorded :
      (with_video opens : Bool) (c : Option ℕ) (t : Manager)
      → IsRecorded n t
      → IsRecorded n (accept_slot with_video opens c t)
  accept-IsRecorded with_video opens none t h = h
  accept-IsRecorded with_video opens (some m) t h =
      let u = tell ring_stopped (mark m (accepting with_video) t) in
      let k : IsRecorded n u = mark-IsRecorded n m (accepting with_video) t refl h in
      let s = t.slot m in
      let drop : Slot → Slot = λ s. record s { bridge = none } in
      let p = mark-IsRecorded n m drop (start_popup m u) refl (start_popup-IsRecorded m u k) in
      if-keeps (IsRecorded n) (not (is_incoming s.direction) || is_popup s.mode) _ _ h (
        if-keeps (IsRecorded n) (s.has_offer && opens) _ _
          (to_bridge-IsRecorded n bridge_remote_ended (u.slot m).bridge _ (λ k before. refl) p)
          (to_bridge-IsRecorded n (λ b. bridge_accepted b with_video) s.bridge u (λ k before. refl)
            k))

  answer-IsRecorded : (c : Option ℕ) (t : Manager) → IsRecorded n t → IsRecorded n (answer_slot c t)
  answer-IsRecorded none t h = h
  answer-IsRecorded (some m) t h =
      if-keeps (IsRecorded n) (is_popup (t.slot m).mode) _ _
        (if-keeps (IsRecorded n) (t.slot m).has_popup _ _ h h)
        (to_bridge-IsRecorded n bridge_answered (t.slot m).bridge t (λ k before. refl) h)

  end_bridge-IsRecorded :
      (m : ℕ) (b : Option ℕ) (t : Manager) → IsRecorded n t → IsRecorded n (end_bridge m b t)
  end_bridge-IsRecorded m none t h =
      teardown-IsRecorded n m (mark m set_cancelled t) (mark-IsRecorded n m set_cancelled t refl h)
  end_bridge-IsRecorded m (some b) t h = h

  end_slot-IsRecorded : (c : Option ℕ) (t : Manager) → IsRecorded n t → IsRecorded n (end_slot c t)
  end_slot-IsRecorded none t h = h
  end_slot-IsRecorded (some m) t h =
      if-keeps (IsRecorded n) (is_popup (t.slot m).mode) _ _
        (if-keeps (IsRecorded n) (t.slot m).has_popup _ _ h h)
        (end_bridge-IsRecorded m (t.slot m).bridge t h)

  leave-IsRecorded :
      (m : ℕ) (b : Option ℕ) (ringing : Bool) (t : Manager)
      → IsRecorded n t
      → IsRecorded n (leave_ring m b ringing t)
  leave-IsRecorded m none ringing t h =
      teardown-IsRecorded n m (mark m set_cancelled t) (mark-IsRecorded n m set_cancelled t refl h)
  leave-IsRecorded m (some b) ringing t h = if-keeps (IsRecorded n) ringing _ _ h h

  elsewhere-IsRecorded :
      (account_id msg : ℕ) (c : Option ℕ) (ringing : Bool) (t : Manager)
      → t.call ≡ c
      → IsRecorded n t
      → IsRecorded n (elsewhere_slot (matching account_id msg c t) ringing t)
  elsewhere-IsRecorded account_id msg none ringing t e h = h
  elsewhere-IsRecorded account_id msg (some m) ringing t e h =
      let s = t.slot m in
      let current : is_call m t.call ≡ true = rw e (ground arith) in
      if-keeps (λ r. IsRecorded n (elsewhere_slot r ringing t))
        ((s.account_id == account_id) && is_id msg (message_id s)) _ _
        (if-keeps (IsRecorded n) (is_popup s.mode) _ _ h (
          leave-IsRecorded m s.bridge ringing (mark m set_reported t)
            (set_reported-IsRecorded n m t current h)))
        h

  start-IsRecorded :
      (c : Option ℕ) (account_id : ℕ) (has_video opens : Bool) (t : Manager)
      → t.call ≡ c
      → IsRecorded n t
      → IsRecorded n (start_outgoing_call account_id has_video opens t)
  unfolding start_outgoing_call
  start-IsRecorded (some m) account_id has_video opens t e h =
      let taken : is_some t.call ≡ true = rw e refl in simp taken h
  start-IsRecorded none account_id has_video opens t e h =
      let s = new_slot account_id outgoing has_video false none in
      let k = begin-IsRecorded n s t refl e h in
      if-keeps (IsRecorded n) (is_some t.call) _ _ h (
        if-keeps (IsRecorded n) opens _ _ (start_popup-IsRecorded t.made (begin s t) k)
          (mark-IsRecorded n t.made (set_mode overlay) (begin s t) refl k))

  open-IsRecorded :
      (c : Option ℕ) (account_id msg : ℕ) (has_video : Bool) (t : Manager)
      → t.call ≡ c
      → IsRecorded n t
      → IsRecorded n (open_incoming_call account_id msg has_video t)
  unfolding open_incoming_call
  open-IsRecorded (some m) account_id msg has_video t e h =
      if-keeps (IsRecorded n) (is_some (slot_for_call account_id msg t)) _ _ h
        (let taken : is_some t.call ≡ true = rw e refl in simp taken h)
  open-IsRecorded none account_id msg has_video t e h =
      let s = new_slot account_id incoming has_video true (some msg) in
      if-keeps (IsRecorded n) (is_some (slot_for_call account_id msg t)) _ _ h
        (if-keeps (IsRecorded n) (is_some t.call) _ _ h (begin-IsRecorded n s t refl e h))

  count-remove_one :
      (m : ℕ) (xs : List ℕ)
      → member m xs ≡ true
      → count_if (m == n) + count n (remove_one m xs) ≡ count n xs
  count-remove_one m [] h = cc
  count-remove_one m (x ∷ xs) h = elim (Bool-cases (x == m)) [
    | inl y ↦ let same : x ≡ m = (==_iff x m).0 y in rw y (rw same refl)
    | inr z ↦ let k = count-remove_one m xs (simp z at h) in simp z (omega arith)
  ]

  info-IsRecorded :
      (m : ℕ) (kind : Option CoreCallStateKind) (t : Manager)
      → IsRecorded n t
      → IsRecorded n (on_call_info m kind t)
  unfolding on_call_info
  info-IsRecorded m kind t h = elim (Bool-cases (member m t.asking)) [
    | inl y ↦
        let k = count-remove_one m t.asking y in
        simp y (record { once = omega arith; known = h.known; present = h.present })
    | inr z ↦ simp z h
  ]

  happen-IsRecorded : (e : Happening) (t : Manager) → IsRecorded n t → IsRecorded n (happen e t)
  unfolding happen on_outgoing_accepted on_incoming_accepted on_call_ended accept_current
      hangup_current slot_for_call
  happen-IsRecorded (calls_out account_id has_video opens) t h =
      start-IsRecorded t.call account_id has_video opens t refl h
  happen-IsRecorded (comes_in account_id msg has_video) t h =
      open-IsRecorded t.call account_id msg has_video t refl h
  happen-IsRecorded (answers_out account_id msg) t h =
      answer-IsRecorded (slot_for_call account_id msg t) t h
  happen-IsRecorded (accepted_in account_id msg here ringing) t h =
      if-keeps (IsRecorded n) here _ _ h
        (elsewhere-IsRecorded account_id msg t.call ringing t refl h)
  happen-IsRecorded (ends account_id msg) t h =
      end_slot-IsRecorded (slot_for_call account_id msg t) t h
  happen-IsRecorded (accepts with_video opens) t h = accept-IsRecorded with_video opens t.call t h
  happen-IsRecorded (hangs_up reports) t h = hangup-IsRecorded n t.call reports t h
  happen-IsRecorded (placed m msg) t h =
      mark-IsRecorded n m (λ s. record s { placed_id = some msg }) t refl h
  happen-IsRecorded (fetches purpose m fetched) t h = ice-IsRecorded n purpose m fetched t h
  happen-IsRecorded (changes m st) t h = state-IsRecorded n m st t h
  happen-IsRecorded (rests m) t h = rest-IsRecorded n m t h
  happen-IsRecorded (fails m) t h = error-IsRecorded n m t h
  happen-IsRecorded (falls_back m) t h = fall_back-IsRecorded n m t h
  happen-IsRecorded (popup_ends m reached) t h = popup_end-IsRecorded n m reached t h
  happen-IsRecorded (informs m kind) t h = info-IsRecorded m kind t h

  -- From a state in which the outcome of the n-th slot is told and asked for at most and only if it is
  -- marked as reported, and in which only a slot that was made is marked or current, whatever happens after
  -- it, in any order, leaves such a state.
  pub happen_all-IsRecorded :
      (hs : List Happening) (t : Manager) → IsRecorded n t → IsRecorded n (happen_all hs t)
  unfolding happen_all
  happen_all-IsRecorded [] t h = h
  happen_all-IsRecorded (e ∷ hs) t h =
      happen_all-IsRecorded hs (happen e t) (happen-IsRecorded e t h)

-- A page that has just loaded.
abbrev pub fresh : Manager
fresh = record {
  made = 0;
  slot = λ m. new_slot 0 outgoing false false none;
  call = none;
  bridges = 0;
  tasks = [];
  asking = [];
  effects = [];
}

-- Whatever a page's call manager hears from its load on, of whichever calls and in whatever order: the outcome
-- of each call that it takes, the n-th, is told or asked for at most once, and only if it has taken so many,
-- which are those placed and those that ring; and a call that it declines and tells as busy, by its account
-- and its message, is so at most as often as it comes in.
pub outcome_once :
    (n account_id msg : ℕ) (hs : List Happening)
    → (told n (happen_all hs fresh).effects + count n (happen_all hs fresh).asking ≤ 1)
      × (told n (happen_all hs fresh).effects + count n (happen_all hs fresh).asking
          ≤ count_if (ltb n (happen_all hs fresh).made))
      × (busy account_id msg (happen_all hs fresh).effects ≤ comings account_id msg hs)
outcome_once n account_id msg hs =
    let start : IsRecorded n fresh = record {
      once = omega arith;
      known = omega arith;
      present = omega arith;
    } in
    let k = happen_all-IsRecorded n hs fresh start in
    let one = count_if-bounded ((happen_all hs fresh).slot n).outcome_reported in
    let o = k.once in
    let l = k.known in
    (omega arith, omega arith, omega (arith, happen_all-busy account_id msg hs fresh))
