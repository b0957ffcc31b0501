-- ===== src/WebApp/CallManager/HungUp.antt =====
-- packages/web-app/src/runtime.ts, the class `CallManager`: a call that the user hangs up is recorded.
use slothfulchat_web.Calls.CallState.{CallState}
use slothfulchat_web.Prelude.{
  ℕ, ◌+◌, ◌≡◌, refl, sym, ◌∙◌, inl, inr, Bool, true, false, not, ◌||◌, Option, none, some, arith,
  ◌==◌, ==_iff, Bool-cases, if-keeps, count_if,
}
use slothfulchat_web.WebApp.CallManager.{
  Slot, ring_stopped, rpc_end_call, bridge_hung_up, state_shown, Task, microtask, Manager, tell,
  mark, await, is_call, message_id, classify, set_reported, report_call_outcome, close_popup,
  teardown,
}
use slothfulchat_web.WebApp.CallManager.Handlers.{
  is_popup, set_cancelled, connect, is_connected, is_ended, on_state, end_rpc, hang_up_bridge,
  hangup_slot, hangup_current,
}
use slothfulchat_web.WebApp.CallManager.Recorded.{owed, classify-Adds, report-Reports}

-- A slot is current, and its outcome is marked as reported or not; it is told or asked for so often so far.
record IsOpen (n k : ℕ) (known : Bool) (t : Manager) : Type 0 where
  pub current : t.call ≡ some n
  pub reported : (t.slot n).outcome_reported ≡ known
  pub owes : owed n t ≡ k

module _ (n k : ℕ) (known : Bool) where
  mark-IsOpen :
      (f : Slot → Slot) (t : Manager)
      → (f (t.slot n)).outcome_reported ≡ (t.slot n).outcome_reported
      → IsOpen n k known t
      → IsOpen n k known (mark n f t)
  mark-IsOpen f t e h =
      let self : n == n ≡ true = (==_iff n n).1 refl in
      record { current = h.current; reported = rw self (rw e h.reported); owes = h.owes }

  tell-IsOpen :
      (st : CallState) (t : Manager)
      → IsOpen n k known t
      → IsOpen n k known (tell (state_shown st) t)
  tell-IsOpen st t h = record { current = h.current; reported = h.reported; owes = h.owes }

  await-IsOpen :
      (task : Task) (t : Manager) → IsOpen n k known t → IsOpen n k known (await n task t)
  await-IsOpen task t h = record { current = h.current; reported = h.reported; owes = h.owes }

  state-IsOpen :
      (st : CallState) (t : Manager) → IsOpen n k known t → IsOpen n k known (on_state n st t)
  unfolding on_state
  state-IsOpen st t h =
      let f = connect (is_connected st) in
      let u = tell (state_shown st) t in
      let o = mark-IsOpen f u refl (tell-IsOpen st t h) in
      if-keeps (IsOpen n k known) (not (is_call n t.call) || is_popup (t.slot n).mode) _ _ h
        (if-keeps (IsOpen n k known) (is_ended st) _ _ (await-IsOpen microtask (mark n f u) o) o)

  rpc-IsOpen :
      (account_id msg : ℕ) (t : Manager)
      → IsOpen n k known t
      → IsOpen n k known (tell (rpc_end_call account_id msg) t)
  rpc-IsOpen account_id msg t h = record {
    current = h.current;
    reported = h.reported;
    owes = h.owes;
  }

  end_rpc-IsOpen :
      (account_id : ℕ) (id : Option ℕ) (t : Manager)
      → IsOpen n k known t
      → IsOpen n k known (end_rpc account_id id t)
  end_rpc-IsOpen account_id none t h = h
  end_rpc-IsOpen account_id (some msg) t h = rpc-IsOpen account_id msg t h

  hung_up-IsOpen :
      (b : ℕ) (t : Manager) → IsOpen n k known t → IsOpen n k known (tell (bridge_hung_up b) t)
  hung_up-IsOpen b t h = record { current = h.current; reported = h.reported; owes = h.owes }

  hang_up-IsOpen :
      (b : Option ℕ) (reports : Bool) (t : Manager)
      → IsOpen n k known t
      → IsOpen n k known (hang_up_bridge n b reports t)
  hang_up-IsOpen none reports t h = mark-IsOpen set_cancelled t refl h
  hang_up-IsOpen (some b) reports t h =
      let o = hung_up-IsOpen b t h in
      if-keeps (IsOpen n k known) reports _ _
        (state-IsOpen CallState.ended (tell (bridge_hung_up b) t) o) o

  report-owed :
      (t : Manager)
      → (t.slot n).outcome_reported ≡ known
      → owed n (report_call_outcome n t) ≡ count_if (not known) + owed n t
  unfolding report_call_outcome
  report-owed t e = elim (Bool-cases (t.slot n).outcome_reported) [
    | inl y ↦ let same : true ≡ known = sym y ∙ e in rw (y, ← same) (omega arith)
    | inr z ↦
        let same : false ≡ known = sym z ∙ e in
        let a = classify-Adds n n (t.slot n) (mark n set_reported t) in
        let self : n == n ≡ true = (==_iff n n).1 refl in
        let one : count_if (n == n) ≡ 1 = rw self refl in
        let o : owed n (classify n (t.slot n) (mark n set_reported t)) ≡ 1 + owed n t =
          omega (arith, a.owes) in
        rw (z, ← same) o
  ]

  report-call : (t : Manager) → (report_call_outcome n t).call ≡ t.call
  report-call t = (report-Reports n n t).calls

  close_popup-closes :
      (t : Manager) → (owed n (close_popup n t) ≡ owed n t) × ((close_popup n t).call ≡ t.call)
  close_popup-closes t =
      if-keeps (λ u. (owed n u ≡ owed n t) × (u.call ≡ t.call)) (t.slot n).has_popup _ _
        (refl, refl) (refl, refl)

  teardown-closes :
      (t : Manager)
      → IsOpen n k known t
      → (owed n (teardown n t) ≡ count_if (not known) + k) × ((teardown n t).call ≡ none)
  unfolding teardown
  teardown-closes t h =
      let y : is_call n t.call ≡ true = rw h.current ((==_iff n n).1 refl) in
      let u = tell ring_stopped (record t { call = none }) in
      let r = report-owed u h.reported in
      let c = close_popup-closes (report_call_outcome n u) in
      let d = report-call u in let g = h.owes in simp y (omega arith, rw c.1 d)

hangup_slot-of :
    (c d : Option ℕ) (reports : Bool) (t : Manager)
    → c ≡ d
    → hangup_slot c reports t ≡ hangup_slot d reports t
hangup_slot-of c d reports t e = rw e refl

-- A call that the user hangs up, in whatever state it is and whether or not its bridge tells its end at once,
-- is the current one no longer; and its outcome is told, or asked for, once more than before if it was not
-- marked as reported, and as often as before if it was.
pub hangup_records :
    (n : ℕ) (reports : Bool) (t : Manager)
    → t.call ≡ some n
    → (owed n (hangup_current reports t) ≡ count_if (not (t.slot n).outcome_reported) + owed n t)
      × ((hangup_current reports t).call ≡ none)
unfolding hangup_current
hangup_records n reports t c =
    let k = owed n t in
    let s = t.slot n in
    let known = s.outcome_reported in
    let local : Slot → Slot = λ s. record s { locally_ended = true } in
    let o =
      mark-IsOpen n k known local t refl (record { current = c; reported = refl; owes = refl }) in
    rw (hangup_slot-of t.call (some n) reports t c) (
      teardown-closes n k known _ (
        if-keeps (IsOpen n k known) (is_popup s.mode) _ _
          (end_rpc-IsOpen n k known s.account_id (message_id s) (mark n local t) o)
          (hang_up-IsOpen n k known s.bridge reports (mark n local t) o)))
